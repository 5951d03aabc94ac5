-- ===== src/Pairing/Browsers/Run.antt =====
-- Pairings outlive a restart, and so does an unpairing.
use mbrc_plugin.Base.{
  arith, if◌then◌else◌, ◌==◌, ℕ, String, ◌≡◌, ◌⊎◌, refl, Option, none, some, List, [], ◌∷◌,
  string_eq, Option-cases, inl, inr,
}
use mbrc_plugin.Base.Dict
use mbrc_plugin.Base.Dict.{get-remove}
use mbrc_plugin.Store.{Tables}
use mbrc_plugin.Permissions.{Role}
use mbrc_plugin.Registry.{IpAddr}
use mbrc_plugin.Pairing.{Taken, PairingRefused, granted, refused, take_code_at, new_code_for}
use mbrc_plugin.Pairing.Label.{clamp_label}
use mbrc_plugin.Pairing.Browsers.{
  forget, PairedClient, BrowserRecord, record_of, Browsers, new_browsers, open_store, redeem, seen,
  paired_id, rename, revoke, revoke_all,
}
use mbrc_plugin.Pairing.Browsers.Restart.{
  paired_id_lem, RowsNamed, IsMirrored, put_at, drop-IsMirrored, drop_all, all_dropped, same_ids,
  open_lem, rows-named,
}

taken_cases :
    (r : Taken)
    → ((role : Role) × (r ≡ granted role)) ⊎ ((why : PairingRefused) × (r ≡ refused why))
taken_cases (granted role) = inl (role, refl)
taken_cases (refused why) = inr (why, refl)

-- What happens to the paired browsers in one run.
pub data BrowserStep : Type 0 where
  showing : (digits : List ℕ) → Role → (now : ℕ) → BrowserStep
  redeeming :
      (offered : List ℕ) (label : String) (from : IpAddr) (now unix_seconds : ℕ) (token : String)
      → BrowserStep
  seeing : (token : String) (from : Option IpAddr) (unix_seconds : ℕ) → BrowserStep
  renaming : (id label : String) → BrowserStep
  revoking : (id : String) → BrowserStep
  revoking_all : BrowserStep

module _ (T : Tables String BrowserRecord) (sha1_hex : String → String)
    (ip_text : IpAddr → String) where
  unfoldable pub step : BrowserStep → Browsers T sha1_hex ip_text → Browsers T sha1_hex ip_text
  step (showing digits role now) s = record s { pairing = new_code_for digits role now s.pairing }
  step (redeeming offered label from now time token) s =
      (redeem T sha1_hex ip_text offered label from now time token s).1
  step (seeing token from time) s = (paired_id T sha1_hex ip_text token from time s).1
  step (renaming id label) s = (rename T sha1_hex ip_text id label s).1
  step (revoking id) s = (revoke T sha1_hex ip_text id s).1
  step revoking_all s = revoke_all T sha1_hex ip_text s

  unfoldable pub run : List BrowserStep → Browsers T sha1_hex ip_text → Browsers T sha1_hex ip_text
  run [] s = s
  run (c ∷ cs) s = run cs (step c s)

  abbrev Mirrored : Browsers T sha1_hex ip_text → Type 0
  Mirrored s = (t : T.Table) × IsMirrored T sha1_hex ip_text s.tokens s.db t

  redeem-Mirrored :
      (offered : List ℕ) (label : String) (from : IpAddr) (now time : ℕ) (token : String)
      (s : Browsers T sha1_hex ip_text)
      → Mirrored s
      → Mirrored (redeem T sha1_hex ip_text offered label from now time token s).1
  unfolding redeem
  redeem-Mirrored offered label from now time token s (t, m) =
      elim (taken_cases (take_code_at offered from now s.pairing).0) [
        | inl (role, e) ↦
            let c : PairedClient = record {
              id = sha1_hex token;
              token = token;
              label = clamp_label label;
              paired_at = time;
              last_seen = time;
              address = ip_text from;
            } in
            (
              T.insert c.id (record_of c) t,
              rw (e, redeem) (put_at T sha1_hex ip_text c.id c s.tokens s.db t refl m),
            )
        | inr (why, e) ↦ (t, rw (e, redeem) m)
      ]

  paired_id-Mirrored :
      (token : String) (from : Option IpAddr) (time : ℕ) (s : Browsers T sha1_hex ip_text)
      → Mirrored s
      → Mirrored (paired_id T sha1_hex ip_text token from time s).1
  unfolding paired_id
  paired_id-Mirrored token none time s (t, m) =
      elim (Option-cases (Dict.get (sha1_hex token) s.tokens)) [
        | inl unknown ↦ (t, rw (unknown, paired_id) m)
        | inr (c, e) ↦
            let c' = seen T sha1_hex ip_text none time c in
            (
              T.insert c.id (record_of c') t,
              rw (e, paired_id)
                  (put_at T sha1_hex ip_text (sha1_hex token) c' s.tokens s.db t
                    (m.named (sha1_hex token) c e) m),
            )
      ]
  paired_id-Mirrored token (some ip) time s (t, m) =
      elim (Option-cases (Dict.get (sha1_hex token) s.tokens)) [
        | inl unknown ↦ (t, rw (unknown, paired_id) m)
        | inr (c, e) ↦
            let c' = seen T sha1_hex ip_text (some ip) time c in
            (
              T.insert c.id (record_of c') t,
              rw (e, paired_id)
                  (put_at T sha1_hex ip_text (sha1_hex token) c' s.tokens s.db t
                    (m.named (sha1_hex token) c e) m),
            )
      ]

  rename-Mirrored :
      (id label : String) (s : Browsers T sha1_hex ip_text)
      → Mirrored s
      → Mirrored (rename T sha1_hex ip_text id label s).1
  unfolding rename
  rename-Mirrored id label s (t, m) = elim (Option-cases (Dict.get id s.tokens)) [
    | inl unknown ↦ (t, rw (unknown, rename) m)
    | inr (c, e) ↦
        let c' : PairedClient = record c { label = clamp_label label } in
        (
          T.insert c.id (record_of c') t,
          rw (e, rename) (put_at T sha1_hex ip_text id c' s.tokens s.db t (m.named id c e) m),
        )
  ]

  revoke-Mirrored :
      (id : String) (s : Browsers T sha1_hex ip_text)
      → Mirrored s
      → Mirrored (revoke T sha1_hex ip_text id s).1
  unfolding revoke
  revoke-Mirrored id s (t, m) = elim (Option-cases (Dict.get id s.tokens)) [
    | inl unknown ↦ (t, rw (unknown, revoke) m)
    | inr (c, e) ↦
        (T.remove id t, rw (e, revoke) (drop-IsMirrored T sha1_hex ip_text id s.tokens s.db t m))
  ]

  step-Mirrored :
      (c : BrowserStep) (s : Browsers T sha1_hex ip_text) → Mirrored s → Mirrored (step c s)
  unfolding step revoke_all
  step-Mirrored (showing digits role now) s m = m
  step-Mirrored (redeeming offered label from now time token) s m =
      redeem-Mirrored offered label from now time token s m
  step-Mirrored (seeing token from time) s m = paired_id-Mirrored token from time s m
  step-Mirrored (renaming id label) s m = rename-Mirrored id label s m
  step-Mirrored (revoking id) s m = revoke-Mirrored id s m
  step-Mirrored revoking_all s (t, m) =
      (drop_all T sha1_hex ip_text s.tokens t, all_dropped T sha1_hex ip_text s.tokens s.db t m)

  run-Mirrored :
      (cs : List BrowserStep) (s : Browsers T sha1_hex ip_text) → Mirrored s → Mirrored (run cs s)
  unfolding run
  run-Mirrored [] s m = m
  run-Mirrored (c ∷ cs) s m = run-Mirrored cs (step c s) (step-Mirrored c s m)

  abbrev pub opened : T.Table → Browsers T sha1_hex ip_text
  opened t = open_store T sha1_hex ip_text t (new_browsers T sha1_hex ip_text)

  opened-IsMirrored :
      (t : T.Table)
      → RowsNamed (T.rows t)
      → IsMirrored T sha1_hex ip_text (opened t).tokens (opened t).db t
  unfolding open_store
  opened-IsMirrored t n = open_lem T sha1_hex ip_text t n

  -- Whatever was paired, renamed and unpaired since the start on a table whose rows stand under
  -- their ids, a restart on the table of then knows exactly the same tokens, by the same ids.
  pub paired_id-restart :
      (t : T.Table) (cs : List BrowserStep) (token : String) (from : Option IpAddr) (time : ℕ)
      → RowsNamed (T.rows t)
      → (t' : T.Table) × ((run cs (opened t)).db ≡ some t')
        × ((paired_id T sha1_hex ip_text token from time (opened t')).0
            ≡ (paired_id T sha1_hex ip_text token from time (run cs (opened t))).0)
  paired_id-restart t cs token from time n =
      let s = run cs (opened t) in
      let (t', m) = run-Mirrored cs (opened t) (t, opened-IsMirrored t n) in
      (
        t',
        m.attached,
        same_ids T sha1_hex ip_text token from time (opened t') s t'
            (opened-IsMirrored t' (rows-named T sha1_hex ip_text s.tokens s.db t' m)) m,
      )

  -- Once a browser is unpaired, the tokens that hash to its id are refused, at any time and from any
  -- address, and every other token is answered as before.
  pub paired_id-revoke :
      (id token : String) (from : Option IpAddr) (time : ℕ) (s : Browsers T sha1_hex ip_text)
      → (paired_id T sha1_hex ip_text token from time (revoke T sha1_hex ip_text id s).1).0 ≡ (
          if id == sha1_hex token then none else (paired_id T sha1_hex ip_text token from time s).0)
  unfolding revoke
  paired_id-revoke id token from time s = elim (Option-cases (Dict.get id s.tokens)) [
    | inl unknown ↦ ground (
      arith,
      unknown,
      paired_id_lem T sha1_hex ip_text token from time s,
      string_eq.same_iff id (sha1_hex token),
    )
    | inr (c, e) ↦ ground (
      arith,
      e,
      paired_id_lem T sha1_hex ip_text token from time s,
      paired_id_lem T sha1_hex ip_text token from time
          (record s { tokens = Dict.remove id s.tokens; db = forget T sha1_hex ip_text id s.db }),
      get-remove (sha1_hex token) id s.tokens,
    )
  ]
