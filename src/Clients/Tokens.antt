-- ===== src/Clients/Tokens.antt =====
-- What a token is worth: who is told apart by it, and for how long.
use mbrc_plugin.Base.{
  ℕ, String, true, ◌≡◌, refl, ◌∙◌, Option, none, some, List, arith, if◌then◌else◌, ◌==◌, string_eq,
  inl, inr, Bool-cases, Option-cases,
}
use mbrc_plugin.Base.Sorting.{member}
use mbrc_plugin.Store.{Tables}
use mbrc_plugin.Clients.{
  RecordCodec, ClientRecord, Introduction, Identity, known, refused, identify_in, known_record,
  matches, store, touched, first_record,
}
use mbrc_plugin.Clients.Pruned.{get-prune_pinned}

-- One handshake, as far as the identities see it.
pub record Contact : Type 0 where
  pub fresh_token : String
  pub now : ℕ
  pub client_id : String
  pub token : Option String
  pub about : Introduction

module _ {Stored : Type 0} (K : RecordCodec Stored) (T : Tables String Stored)
    (hash : String → String) where
  open T use {Table, get}

  abbrev pub contact : (pinned : List String) → Contact → Table → Identity × Table
  contact pinned c t = identify_in K T hash c.fresh_token pinned c.now c.client_id c.token c.about t

  -- The id is known, by a token of this hash.
  abbrev pub HeldBy : String → (token_hash : String) → Table → Type 0
  HeldBy id h t = (r : ClientRecord) × (known_record K T id t ≡ some r) × (r.token_hash ≡ h)

  -- Storing the record of another id leaves a pinned row alone, storing its own replaces it.
  known_record-store :
      (pinned : List String) (now : ℕ) (j id : String) (r : ClientRecord) (t : Table)
      → member id pinned ≡ true
      → known_record K T id (store K T pinned now j r t)
        ≡ (if j == id then some r else known_record K T id t)
  unfolding known_record store
  known_record-store pinned now j id r t h = ground (
    arith,
    get-prune_pinned K T pinned now id (T.insert j (K.encode r) t) h,
    T.get-insert id j (K.encode r) t,
    K.decode-encode r,
  )

  pub contact-HeldBy :
      (id h : String) (pinned : List String) (c : Contact) (t : Table)
      → member id pinned ≡ true
      → HeldBy id h t
      → HeldBy id h (contact pinned c t).1
  unfolding identify_in
  contact-HeldBy id h pinned c t p (r, e, own) =
      elim (Option-cases (known_record K T c.client_id t)) [
        | inl new ↦ (
          r,
          rw (new, identify_in)
              (known_record-store pinned c.now c.client_id id
                  (first_record K T c.now (hash c.fresh_token) c.about) t p
                ∙ ground (arith, string_eq.same_iff c.client_id id)),
          own,
        )
        | inr (s, old) ↦ elim (Bool-cases (matches K T hash c.token s)) [
          | inl good ↦ elim (Bool-cases (c.client_id == id)) [
            | inl same ↦ (
              touched K T c.now c.about s,
              rw (old, good, identify_in)
                  (known_record-store pinned c.now c.client_id id (touched K T c.now c.about s) t p
                    ∙ ground arith),
              ground (arith, string_eq.same_iff c.client_id id),
            )
            | inr other ↦ (
              r,
              rw (old, good, identify_in)
                  (known_record-store pinned c.now c.client_id id (touched K T c.now c.about s) t p
                    ∙ ground arith),
              own,
            )
          ]
          | inr bad ↦ (r, rw (old, bad, identify_in) e, own)
        ]
      ]

  pub identify-HeldBy :
      (id h fresh : String) (pinned : List String) (now : ℕ) (token : Option String)
      (about : Introduction) (t : Table)
      → HeldBy id h t
      → (identify_in K T hash fresh pinned now id token about t).0
        ≡ (elim token [ none ↦ refused | some x ↦ if hash x == h then known else refused ])
  unfolding identify_in
  identify-HeldBy id h fresh pinned now none about t (r, e, own) = rw (e, identify_in) refl
  identify-HeldBy id h fresh pinned now (some x) about t (r, e, own) = ground arith
