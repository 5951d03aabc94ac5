-- ===== src/Pairing/Browsers.antt =====
-- The browsers that are paired (packages/mbrc-core/src/web/auth.rs): a token is known by its hash,
-- in memory and in the table `PAIRED_BROWSERS`. The hash and the text of an address are parameters,
-- a new token and the time are arguments, and a row of the table is the record that its bytes hold.
pub mod Restart
pub mod Run
mod Tests
use mbrc_plugin.Base.{
  ℕ, String, Bool, true, false, Option, none, some, List, [], ◌∷◌, string_eq, is_some,
}
use mbrc_plugin.Base.Dict
use mbrc_plugin.Base.Dict.{Dict}
use mbrc_plugin.Store.{Tables}
use mbrc_plugin.Permissions.{Role}
use mbrc_plugin.Registry.{IpAddr}
use mbrc_plugin.Pairing.{Pairing, PairingRefused, granted, refused, take_code_at, new_pairing}
use mbrc_plugin.Pairing.Label.{clamp_label}

pub record PairedClient : Type 0 where
  pub id : String
  pub token : String
  pub label : String
  pub paired_at : ℕ
  pub last_seen : ℕ
  pub address : String

pub record BrowserRecord : Type 0 where
  pub id : String
  pub label : String
  pub paired_at : ℕ
  pub last_seen : ℕ
  pub address : String

abbrev pub record_of : PairedClient → BrowserRecord
record_of c = record {
  id = c.id;
  label = c.label;
  paired_at = c.paired_at;
  last_seen = c.last_seen;
  address = c.address;
}

abbrev pub client_of : BrowserRecord → PairedClient
client_of r = record {
  id = r.id;
  token = "";
  label = r.label;
  paired_at = r.paired_at;
  last_seen = r.last_seen;
  address = r.address;
}

pub record NewPairing : Type 0 where
  pub token : String
  pub id : String
  pub role : Role

pub data Redeemed : Type 0 where
  paired : NewPairing → Redeemed
  not_paired : PairingRefused → Redeemed

-- The rows that `open` reads are entered by the id in the record.
unfoldable pub load :
    Dict String BrowserRecord → Dict String PairedClient → Dict String PairedClient
load [] tokens = tokens
load ((k, r) ∷ rows) tokens = load rows (Dict.insert r.id (client_of r) tokens)

module _ (T : Tables String BrowserRecord) (sha1_hex : String → String)
    (ip_text : IpAddr → String) where
  pub record Browsers : Type 0 where
    pub pairing : Pairing
    pub tokens : Dict String PairedClient
    pub db : Option T.Table

  abbrev pub new_browsers : Browsers
  new_browsers = record { pairing = new_pairing; tokens = []; db = none }

  unfoldable pub open_store : T.Table → Browsers → Browsers
  open_store t s = record s { tokens = load (T.rows t) s.tokens; db = some t }

  abbrev pub write : PairedClient → Option T.Table → Option T.Table
  write c none = none
  write c (some t) = some (T.insert c.id (record_of c) t)

  abbrev pub forget : String → Option T.Table → Option T.Table
  forget id none = none
  forget id (some t) = some (T.remove id t)

  -- A browser with the new token is entered and written down if the code is taken.
  unfoldable pub redeem :
      (offered : List ℕ) (label : String) (from : IpAddr) (now unix_seconds : ℕ)
      (random_token : String)
      → Browsers
      → Redeemed × Browsers
  redeem offered label from now unix_seconds token s =
      let (taken, pairing) = take_code_at offered from now s.pairing in
      let client : PairedClient = record {
        id = sha1_hex token;
        token = token;
        label = clamp_label label;
        paired_at = unix_seconds;
        last_seen = unix_seconds;
        address = ip_text from;
      } in
      elim taken [
        | refused why ↦ (not_paired why, record s { pairing = pairing })
        | granted role ↦ (
          paired (record { token = token; id = client.id; role = role }),
          record {
            pairing = pairing;
            tokens = Dict.insert client.id client s.tokens;
            db = write client s.db;
          },
        )
      ]

  abbrev pub seen : (from : Option IpAddr) (unix_seconds : ℕ) → PairedClient → PairedClient
  seen none unix_seconds c = record c { last_seen = unix_seconds }
  seen (some from) unix_seconds c = record c { last_seen = unix_seconds; address = ip_text from }

  unfoldable pub paired_id :
      (token : String) (from : Option IpAddr) (unix_seconds : ℕ)
      → Browsers
      → Option String × Browsers
  paired_id token from unix_seconds s = elim (Dict.get (sha1_hex token) s.tokens) [
    | none ↦ (none, s)
    | some c ↦
        let c' = seen from unix_seconds c in
        (
          some c'.id,
          record s { tokens = Dict.insert (sha1_hex token) c' s.tokens; db = write c' s.db },
        )
  ]

  unfoldable pub is_paired : (token : String) (unix_seconds : ℕ) → Browsers → Bool × Browsers
  unfolding paired_id
  is_paired token unix_seconds s =
      let (id, s') = paired_id token none unix_seconds s in (is_some id, s')

  unfoldable pub rename : (id label : String) → Browsers → Bool × Browsers
  rename id label s = elim (Dict.get id s.tokens) [
    | none ↦ (false, s)
    | some c ↦
        let c' = record c { label = clamp_label label } in
        (true, record s { tokens = Dict.insert id c' s.tokens; db = write c' s.db })
  ]

  unfoldable pub revoke : (id : String) → Browsers → Bool × Browsers
  revoke id s = elim (Dict.get id s.tokens) [
    | none ↦ (false, s)
    | some c ↦ (true, record s { tokens = Dict.remove id s.tokens; db = forget id s.db })
  ]

  -- The ids that are forgotten are those of the map, one after the other.
  unfoldable pub forget_all : Dict String PairedClient → Option T.Table → Option T.Table
  forget_all [] db = db
  forget_all ((id, c) ∷ tokens) db = forget_all tokens (forget id db)

  unfoldable pub revoke_all : Browsers → Browsers
  revoke_all s = record {
    pairing = record s.pairing { code = none; voided = false };
    tokens = [];
    db = forget_all s.tokens s.db;
  }
