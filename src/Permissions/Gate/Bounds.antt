-- ===== src/Permissions/Gate/Bounds.antt =====
-- What the gate keeps in memory is bounded, whatever the clients and the host do.
use text.Mathlib.TextEquality.{eq_iff}
use mbrc_plugin.Base.{
  leb, ℕ, ◌≤◌, String, Bool, true, false, ◌≡◌, Option, some, List, [], ◌∷◌, arith, length, take,
  length-take, string_eq, Option-cases, inl, inr, Bool-cases,
}
use mbrc_plugin.Base.Dict
use mbrc_plugin.Base.Dict.{Dict, length-insert, length-remove-lt}
use mbrc_plugin.Store.{Tables}
use mbrc_plugin.Permissions.{Role, Action}
use mbrc_plugin.Permissions.Principal.{Principal}
use mbrc_plugin.Permissions.Gate.{
  PartyMode, new_gate, set_enabled, assign_role, unassign_role, unassign_browsers,
  saw_legacy_device, check, clear_refusals, Sighting, Refusal, refusal_of, oldest, make_room,
  max_refusals, max_legacy_seen,
}

-- What a client or the host can ask of the gate.
pub data Event : Type 0 where
  switching : Bool → Event
  assigning : Principal → Role → Event
  unassigning : Principal → Event
  unassigning_browsers : Event
  seeing : (id from : String) (now_ms : ℕ) → Event
  checking : Principal → (op : String) → Option Action → (client : String) → (now_ms : ℕ) → Event
  clearing : Event

oldest-contains :
    (m : Dict String Sighting) (k : String) (at : ℕ)
    → oldest m ≡ some (k, at)
    → Dict.contains k m ≡ true
unfolding oldest Dict.contains
oldest-contains [] k at h = cc
oldest-contains ((j, s) ∷ m) k at h = elim (Option-cases (oldest m)) [
  | inl alone ↦ ground (arith, eq_iff j k)
  | inr ((i, seen), e) ↦ ground (arith, eq_iff j k, oldest-contains m i seen e)
]

oldest-cons :
    (k : String) (s : Sighting) (m : Dict String Sighting)
    → (j : String) × (at : ℕ) × (oldest ((k, s) ∷ m) ≡ some (j, at))
unfolding oldest
oldest-cons k s m = elim (Option-cases (oldest m)) [
  | inl alone ↦ (k, s.at, rw alone)
  | inr ((j, at), e) ↦ elim (Bool-cases (leb s.at at)) [
    | inl first ↦ (k, s.at, rw (e, first))
    | inr later ↦ (j, at, rw (e, later))
  ]
]

-- The map has room for `id` without passing the bound.
length-make_room :
    (id : String) (seen : Dict String Sighting) (v : Sighting)
    → length seen ≤ max_legacy_seen
    → length (Dict.insert id v (make_room id seen)) ≤ max_legacy_seen
unfolding make_room
length-make_room id [] v h = unfold Dict.insert in omega arith
length-make_room id ((k, s) ∷ m) v h =
    let (j, at, e) = oldest-cons k s m in
    let seen : Dict String Sighting = (k, s) ∷ m in
    ground (
      arith,
      e,
      length-insert id v seen,
      length-insert id v (Dict.remove j seen),
      length-remove-lt j seen (oldest-contains seen j at e),
    )

length-logged : (r : Refusal) (l : List Refusal) → length (take max_refusals (r ∷ l)) ≤ max_refusals
length-logged r l = omega (arith, length-take max_refusals (r ∷ l))

module _ (T : Tables String String) where
  unfoldable pub step : Event → PartyMode T → PartyMode T
  step (switching on) s = set_enabled T on s
  step (assigning p r) s = (assign_role T p r s).0
  step (unassigning p) s = unassign_role T p s
  step unassigning_browsers s = unassign_browsers T s
  step (seeing id from now_ms) s = saw_legacy_device T id from now_ms s
  step (checking p op a client now_ms) s = (check T p op a client now_ms s).1
  step clearing s = clear_refusals T s

  unfoldable pub run : List Event → PartyMode T → PartyMode T
  run [] s = s
  run (ev ∷ evs) s = run evs (step ev s)

  pub record IsBounded (s : PartyMode T) : Type 0 where
    pub refusals : length s.refusals ≤ max_refusals
    pub seen : length s.legacy_seen ≤ max_legacy_seen

  step-IsBounded : (ev : Event) (s : PartyMode T) → IsBounded s → IsBounded (step ev s)
  unfolding step set_enabled assign_role unassign_role unassign_browsers saw_legacy_device check
      clear_refusals
  step-IsBounded (switching true) s h = ground arith
  step-IsBounded (switching false) s h = ground arith
  step-IsBounded (assigning p r) s h = ground arith
  step-IsBounded (seeing id from now_ms) s h = record {
    refusals = h.refusals;
    seen = length-make_room id s.legacy_seen _ h.seen;
  }
  step-IsBounded (checking p op a client now_ms) s h =
      ground (arith, length-logged (refusal_of T p op a client now_ms s) s.refusals)
  step-IsBounded _ s h = omega arith

  run-IsBounded_from : (evs : List Event) (s : PartyMode T) → IsBounded s → IsBounded (run evs s)
  unfolding run
  run-IsBounded_from [] s h = h
  run-IsBounded_from (ev ∷ evs) s h = run-IsBounded_from evs (step ev s) (step-IsBounded ev s h)

  -- After any events, at most 50 refusals and 200 Android devices are remembered.
  pub run-IsBounded : (evs : List Event) → IsBounded (run evs (new_gate T))
  run-IsBounded evs = run-IsBounded_from evs (new_gate T) (omega arith)
