-- ===== src/Permissions/Gate/Decisions.antt =====
-- What the gate lets through: it agrees with what clients are told, and what a guest can do.
use text.Mathlib.TextEquality.{eq_iff}
use mbrc_plugin.Base.{
  ℕ, ◌≤◌, String, Bool, true, false, ◌≡◌, ◌≢◌, ◌↔◌, ◌⊎◌, inl, inr, refl, ap, ◌∙◌, some_inj, ◌&&◌,
  Option, none, some, ◌∷◌, arith, take, not, ◌||◌, Option-cases, Bool-cases, string_eq,
}
use mbrc_plugin.Json.{Json, Kind, null, string}
use mbrc_plugin.Store.{Tables}
use mbrc_plugin.Permissions.{
  QueueType, last, guest, Capability, Action, read, change, queue, contains, queue_add, playback,
  queue_replace, queue_edit, volume, modes, library_edit, playlist_edit, output, all_capabilities,
  queue_action, within_limit, permits,
}
use mbrc_plugin.Permissions.V6.{
  action, placement, mode_of, kind_mode, path_count, parse_queue_type, one_of, read_ops,
}
use mbrc_plugin.Permissions.Principal.{Principal}
use mbrc_plugin.Permissions.Roles.{role_of}
use mbrc_plugin.Permissions.Gate.{
  PartyMode, Permissions, permissions, Refusal, refusal_of, check, permitted,
}

-- What a client concludes from the permissions it was told.
abbrev pub covers : Permissions → Action → Bool
covers told read = true
covers told (change c) = contains told.allowed c
covers told (queue c tracks) = contains told.allowed c && within_limit told.max_tracks tracks

all_contain : (c : Capability) → contains all_capabilities c ≡ true
all_contain c = ground arith

module _ (T : Tables String String) where
  -- A request passes exactly when the permissions that the client was told cover its action,
  -- with Party Mode on or off.
  pub check_iff_covers :
      (p : Principal) (op client : String) (a : Action) (now_ms : ℕ) (s : PartyMode T)
      → ((check T p op (some a) client now_ms s).0 ≡ none) ↔ (covers (permissions T p s) a ≡ true)
  unfolding check permissions permits
  check_iff_covers p op client read now_ms s = ground arith
  check_iff_covers p op client (change c) now_ms s = ground (arith, all_contain c)
  check_iff_covers p op client (queue c tracks) now_ms s = ground (arith, all_contain c)

  -- A refused request is put at the head of the log and changes nothing else, and a request that
  -- passes changes nothing.
  pub check_effect :
      (p : Principal) (op client : String) (a : Option Action) (now_ms : ℕ) (s : PartyMode T)
      → (((check T p op a client now_ms s).0 ≡ none) × ((check T p op a client now_ms s).1 ≡ s))
        ⊎ ((r : Refusal) × ((check T p op a client now_ms s).0 ≡ some r)
            × (r.op ≡ op)
            × (r.client ≡ client)
            × (r.unix_ms ≡ now_ms)
            × ((check T p op a client now_ms s).1 ≡ record s { refusals = r ∷ take 49 s.refusals }))
  unfolding check refusal_of
  check_effect p op client a now_ms s =
      elim (Bool-cases (not s.enabled || permitted (role_of T p s.roles) a)) [
        | inl passes ↦ inl (rw passes, rw passes)
        | inr refused ↦
            inr (refusal_of T p op a client now_ms s, rw refused, refl, refl, refl, rw refused)
      ]

next_ne_last : ◌≢◌ {A = String} "next" "last"
next_ne_last = ground (arith, eq_iff "next" "last")

now_ne_last : ◌≢◌ {A = String} "now" "last"
now_ne_last = ground (arith, eq_iff "now" "last")

-- A guest is refused every change but an append of at most one track.
guest_refuses : (c : Capability) → c ≢ queue_add → permits guest (change c) ≡ false
unfolding permits
guest_refuses c h = ground arith

guest_refuses_scope : (placement : QueueType) → permits guest (queue_action placement none) ≡ false
unfolding permits queue_action
guest_refuses_scope last = refl
guest_refuses_scope _ = refl

guest_appends :
    (placement : QueueType) (tracks : Option ℕ)
    → permits guest (queue_action placement tracks) ≡ true
    → (placement ≡ last) × ((n : ℕ) × (tracks ≡ some n) × (n ≤ 1))
unfolding permits queue_action
guest_appends last (some n) h = (refl, (n, refl, ground arith))
guest_appends _ _ h = cc

module _ (J : Json) where
  open J use {Value, kind, field}

  -- The request names the mode "last", which appends to the end of the queue.
  abbrev pub AsksLast : Value → Type 0
  AsksLast v = (m : Value) × (field v "mode" ≡ some m) × (kind m ≡ string "last")

  parse_queue_type-last : (mode : String) → parse_queue_type mode ≡ some last → mode ≡ "last"
  unfolding parse_queue_type
  parse_queue_type-last mode h = ground (arith, eq_iff mode "last")

  string_of_kind :
      (k : Kind Value) (default : String)
      → default ≢ "last"
      → kind_mode k default ≡ some "last"
      → k ≡ string "last"
  string_of_kind null default d h = absurd (d (some_inj h))
  string_of_kind (string mode) default d h = ap string (some_inj h)
  string_of_kind _ default d h = cc

  mode_of-last :
      (o : Option Value) (default : String)
      → default ≢ "last"
      → mode_of J o default ≡ some "last"
      → (m : Value) × (o ≡ some m) × (kind m ≡ string "last")
  mode_of-last none default d h = absurd (d (some_inj h))
  mode_of-last (some m) default d h = (m, refl, string_of_kind (kind m) default d h)

  placement-last :
      (v : Value) (default : String) → default ≢ "last" → placement J v default ≡ last → AsksLast v
  unfolding placement
  placement-last v default d h = elim (Option-cases (mode_of J (field v "mode") default)) [
    | inl rejected ↦ absurd (ground arith)
    | inr (mode, given) ↦
        mode_of-last (field v "mode") default d
          (given ∙ ap some (parse_queue_type-last mode (ground (arith, given))))
  ]

  -- What a guest may send over V6, at most.
  abbrev pub GuestMaySend : String → Value → Type 0
  GuestMaySend op v =
      (one_of read_ops op ≡ true)
      ⊎ (AsksLast v
          × ((op ≡ "podcast_episode_play")
              ⊎ ((op ≡ "now_playing_queue") × ((n : ℕ) × (path_count J v ≡ some n) × (n ≤ 1)))))

  permits-guest :
      (op : String) (v : Value) → permitted guest (action J op v) ≡ true → GuestMaySend op v
  unfolding permitted action
  permits-guest op v h = ground (
    arith,
    guest_refuses playback,
    guest_refuses queue_replace,
    guest_refuses queue_edit,
    guest_refuses volume,
    guest_refuses modes,
    guest_refuses library_edit,
    guest_refuses playlist_edit,
    guest_refuses output,
    guest_refuses_scope (placement J v "last"),
    guest_appends (placement J v "next") (path_count J v),
    guest_appends (placement J v "now") (some 1),
    placement-last v "next" next_ne_last,
    placement-last v "now" now_ne_last,
    eq_iff op "podcast_episode_play",
    eq_iff op "now_playing_queue",
  )

module _ (T : Tables String String) (J : Json) where
  open J use {Value}

  -- While Party Mode is on, a V6 request of a guest passes only if its op is a read, or if it asks
  -- for the mode "last" and queues one episode or at most one path; an op the map does not know
  -- never passes.
  pub check-guest :
      (p : Principal) (op client : String) (v : Value) (now_ms : ℕ) (s : PartyMode T)
      → s.enabled ≡ true
      → role_of T p s.roles ≡ guest
      → (check T p op (action J op v) client now_ms s).0 ≡ none
      → GuestMaySend J op v
  unfolding check
  check-guest p op client v now_ms s on role passed = permits-guest J op v (ground arith)
