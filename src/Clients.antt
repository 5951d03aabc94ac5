-- ===== src/Clients.antt =====
-- The identities of app installations (packages/mbrc-core/src/server/clients.rs): the token that
-- the first handshake of a `client_id` is issued, and the bound on the table that keeps its hash.
-- The clock and the random token are arguments; `now` and the times in a record are milliseconds
-- since 1970, so the saturating difference of the source is that of natural numbers. An address is
-- its text. SHA-1 and the encoding of a record (`rmp_serde`) are parameters; encoding a record in
-- memory does not fail.
pub mod Removal
pub mod Pinned
pub mod Pruned
pub mod Tokens
pub mod Kept
mod Tests
use mbrc_plugin.Base.{
  ℕ, ◌-◌, ◌*◌, String, Bool, true, false, ◌≡◌, Option, none, some, List, [], ◌∷◌, ltb, leb, length,
  take, map, if◌then◌else◌, ◌==◌, string_eq, unwrap_or, ◌>>=◌,
}
use mbrc_plugin.Base.Dict.{Dict}
use mbrc_plugin.Base.Sorting.{member}
use mbrc_plugin.Base.Text.{strip_prefix}
use mbrc_plugin.Base.TextOrder.{less}
use mbrc_plugin.Store.{Tables}
use mbrc_plugin.Permissions.Principal.{app_prefix}
use mbrc_plugin.Pairing.Label.{trim_start, trim_end, without_control, take_chars}

abbrev pub identity_ttl_ms : ℕ
identity_ttl_ms = 30 * 24 * 60 * 60 * 1_000

abbrev pub max_identities : ℕ
max_identities = 200

abbrev pub max_client_id_len : ℕ
max_client_id_len = 128

abbrev pub max_name_len : ℕ
max_name_len = 64

pub data Identity : Type 0 where
  known : Identity
  issued : String → Identity
  refused : Identity

pub record ClientRecord : Type 0 where
  pub token_hash : String
  pub first_seen_ms : ℕ
  pub last_seen_ms : ℕ
  pub name : String
  pub client_type : String
  pub address : String

pub record Introduction : Type 0 where
  pub name : Option String
  pub client_type : String
  pub address : Option String

-- A known app as the panel lists it: its id, and its record without the token's hash.
pub record KnownApp : Type 0 where
  pub client_id : String
  pub name : String
  pub client_type : String
  pub address : String
  pub last_seen_ms : ℕ

unfoldable pub clamp_name : String → String
clamp_name name = take_chars max_name_len (without_control (trim_end (trim_start name)))

-- `rmp_serde`: what is written for a record reads back as it.
pub record RecordCodec (Stored : Type 0) : Type 0 where
  pub encode : ClientRecord → Stored
  pub decode : Stored → Option ClientRecord
  pub decode-encode : (r : ClientRecord) → decode (encode r) ≡ some r

-- `sort_by_key(|(_, last_seen)| *last_seen)`, a stable sort.
unfoldable pub insert_by_seen : String × ℕ → List (String × ℕ) → List (String × ℕ)
insert_by_seen (id, at) [] = (id, at) ∷ []
insert_by_seen (id, at) ((j, seen) ∷ rows) =
    if ltb seen at then (j, seen) ∷ insert_by_seen (id, at) rows else (id, at) ∷ (j, seen) ∷ rows

unfoldable pub sort_by_seen : List (String × ℕ) → List (String × ℕ)
unfolding insert_by_seen
sort_by_seen [] = []
sort_by_seen (row ∷ rows) = insert_by_seen row (sort_by_seen rows)

abbrev pub ids : List (String × ℕ) → List String
ids [] = []
ids ((id, at) ∷ rows) = id ∷ ids rows

-- The loop of `pinned_apps` over the rows of an ordered table from `app:` on: it stops at the first
-- key that is not an app's.
unfoldable pub pinned_from : Dict String String → List String
pinned_from [] = []
pinned_from ((k, role) ∷ rows) =
    if less k app_prefix
    then pinned_from rows
    else elim (strip_prefix app_prefix k) [ none ↦ [] | some id ↦ id ∷ pinned_from rows ]

-- `pinned_apps`: the apps that have a row in the table of roles.
abbrev pub pinned_apps : (T : Tables String String) → T.Table → List String
pinned_apps T stored = pinned_from (T.rows stored)

-- What does not fit: the ids seen longest ago.
unfoldable pub overflowing : List (String × ℕ) → List String
overflowing live =
    if ltb max_identities (length live)
    then ids (take (length live - max_identities) (sort_by_seen live))
    else []

-- `sort_by_key(|app| Reverse(app.last_seen_ms))`
unfoldable pub insert_newest : KnownApp → List KnownApp → List KnownApp
insert_newest a [] = a ∷ []
insert_newest a (b ∷ bs) =
    if ltb a.last_seen_ms b.last_seen_ms then b ∷ insert_newest a bs else a ∷ b ∷ bs

unfoldable pub sort_newest : List KnownApp → List KnownApp
unfolding insert_newest
sort_newest [] = []
sort_newest (a ∷ apps) = insert_newest a (sort_newest apps)

module _ {Stored : Type 0} (K : RecordCodec Stored) where
  open K use {decode}

  -- Whether a record is not aged out, and since when; `none` for one that is or does not read.
  unfoldable pub live_since : (now : ℕ) → Stored → Option ℕ
  live_since now v = elim (decode v) [
    | none ↦ none
    | some r ↦ if ltb (now - r.last_seen_ms) identity_ttl_ms then some r.last_seen_ms else none
  ]

  -- The loop over the table: the lists `live` and `expired`, without the pinned ids.
  unfoldable pub live_rows :
      (pinned : List String) (now : ℕ) → Dict String Stored → List (String × ℕ)
  live_rows pinned now [] = []
  live_rows pinned now ((id, v) ∷ rows) =
      let rest = live_rows pinned now rows in
      if member id pinned
      then rest
      else elim (live_since now v) [ none ↦ rest | some at ↦ (id, at) ∷ rest ]

  unfoldable pub expired_ids : (pinned : List String) (now : ℕ) → Dict String Stored → List String
  expired_ids pinned now [] = []
  expired_ids pinned now ((id, v) ∷ rows) =
      let rest = expired_ids pinned now rows in
      if member id pinned
      then rest
      else elim (live_since now v) [ none ↦ id ∷ rest | some at ↦ rest ]

  unfoldable pub known_apps : Dict String Stored → List KnownApp
  known_apps [] = []
  known_apps ((id, v) ∷ rows) =
      let rest = known_apps rows in
      elim (decode v) [
        | none ↦ rest
        | some r ↦
            record {
              client_id = id;
              name = r.name;
              client_type = r.client_type;
              address = r.address;
              last_seen_ms = r.last_seen_ms;
            }
            ∷ rest
      ]

  module _ (T : Tables String Stored) where
    open T use {Table, get, insert, remove, rows}

    unfoldable pub remove_all : List String → Table → Table
    remove_all [] t = t
    remove_all (id ∷ more) t = remove_all more (remove id t)

    unfoldable pub prune : (pinned : List String) (now : ℕ) → Table → Table
    unfolding remove_all overflowing
    prune pinned now t =
        let kept = remove_all (expired_ids pinned now (rows t)) t in
        remove_all (overflowing (live_rows pinned now (rows t))) kept

    unfoldable pub store : (pinned : List String) (now : ℕ) → String → ClientRecord → Table → Table
    store pinned now id r t = prune pinned now (insert id (K.encode r) t)

    -- A record after a contact that presented its token.
    abbrev pub touched : (now : ℕ) → Introduction → ClientRecord → ClientRecord
    touched now about r = record r {
      name = elim about.name [ none ↦ r.name | some name ↦ clamp_name name ];
      client_type = about.client_type;
      address = unwrap_or about.address r.address;
      last_seen_ms = now;
    }

    abbrev pub first_record : (now : ℕ) (token_hash : String) → Introduction → ClientRecord
    first_record now token_hash about = record {
      token_hash = token_hash;
      first_seen_ms = now;
      last_seen_ms = now;
      name = elim about.name [ none ↦ "" | some name ↦ clamp_name name ];
      client_type = about.client_type;
      address = unwrap_or about.address "";
    }

    -- The record that the table holds of an id.
    unfoldable pub known_record : String → Table → Option ClientRecord
    known_record id t = get id t >>= decode

    -- `seen`: every identity that reads, newest contact first. The sort is stable.
    unfoldable pub seen : Option Table → List KnownApp
    seen none = []
    seen (some t) = sort_newest (known_apps (rows t))

    module _ (hash : String → String) where
      -- Whether the presented token is the one issued.
      abbrev pub matches : Option String → ClientRecord → Bool
      matches none r = false
      matches (some token) r = hash token == r.token_hash

      -- `identify` on an open database, and with none.
      unfoldable pub identify_in :
          (fresh_token : String) (pinned : List String) (now : ℕ)
          → String
          → Option String
          → Introduction
          → Table
          → Identity × Table
      unfolding known_record store
      identify_in fresh pinned now id token about t = elim (known_record id t) [
        | none ↦ (issued fresh, store pinned now id (first_record now (hash fresh) about) t)
        | some r ↦
            if matches token r
            then (known, store pinned now id (touched now about r) t)
            else (refused, t)
      ]

      unfoldable pub identify :
          (fresh_token : String) (pinned : List String) (now : ℕ)
          → String
          → Option String
          → Introduction
          → Option Table
          → Identity × Option Table
      identify fresh pinned now id token about none = (known, none)
      identify fresh pinned now id token about (some t) =
          let (answer, t') = identify_in fresh pinned now id token about t in (answer, some t')

    -- `verifies`
    abbrev pub verifies : Option Table → Bool
    verifies none = false
    verifies (some t) = true
