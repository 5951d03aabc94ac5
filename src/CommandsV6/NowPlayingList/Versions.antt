-- ===== src/CommandsV6/NowPlayingList/Versions.antt =====
-- The version that guards the list against a write that was meant for another state of it.
use mbrc_plugin.Base.{
  ℕ, ◌+◌, String, Bool, true, false, ◌≡◌, refl, ◌⊎◌, inl, inr, Option, none, some, List, [], ◌∷◌,
  if◌then◌else◌, ◌==◌, string_eq, nat_eq, arith, Bool-cases, ◌||◌, length, leb,
}
use mathlib.Core.Path.{subst}
use mbrc_plugin.Base.Int.{ℤ, pos, negsuc}
use mbrc_plugin.Json.{Json}
use mbrc_plugin.Json.Build.{JsonBuild}
use mbrc_plugin.CommandsV6.{OpResult, done, fails, opt_i64, req_i64}
use mbrc_plugin.CommandsV6.NowPlayingList.{
  QueueHost, check_version, unless_stale, same_int, bump_version, Step, unless_fails, mutated, play,
  move_item, clear, remove, remove_within, or_internal, orders_highest_first, removed, dispatch,
}

-- The operations that take a version.
abbrev pub is_guarded : String → Bool
is_guarded op =
    op == "now_playing_list_play"
    || op == "now_playing_list_remove"
    || op == "now_playing_list_move"
    || op == "now_playing_list_clear"

unguarded :
    (a b c d : Bool) → a ≡ false → b ≡ false → c ≡ false → d ≡ false → (a || b || c || d) ≡ true → ⊥
unguarded a b c d e f g h t = ground arith

module _ (J : Json) (B : JsonBuild J) (H : QueueHost) where
  open J use {Value}
  open H use {World}

  abbrev pub IsFailure : OpResult Value → Type 0
  IsFailure (done v) = ⊥
  IsFailure (fails code message at) = Unit

  abbrev pub is_done : OpResult Value → Bool
  is_done (done v) = true
  is_done (fails code message at) = false

  -- The request failed and has changed nothing.
  abbrev pub IsRefused : Option ℕ → World → Step J B H → Type 0
  IsRefused version w s = (s.world ≡ w) × (s.version ≡ version) × IsFailure s.answer

  -- Nothing has changed, or the version was one to write at and a success has moved it on.
  abbrev IsGuarded : OpResult Unit → Option ℕ → World → Step J B H → Type 0
  IsGuarded fresh version w s =
      IsRefused version w s
      ⊎ ((fresh ≡ done tt) × (is_done s.answer ≡ true → s.version ≡ bump_version version))

  mutated-IsGuarded :
      (fresh : OpResult Unit) (r : Option String × World) (version : Option ℕ) (w : World)
      → IsGuarded fresh version w
          (unless_fails J B H fresh version w (λ _. mutated J B H r version))
  mutated-IsGuarded (fails code message at) r version w = inl (refl, refl, tt)
  mutated-IsGuarded (done u) (none, w') version w = inr (refl, λ h. refl)
  mutated-IsGuarded (done u) (some e, w') version w = inr (refl, λ h. cc)

  read-IsGuarded :
      {A : Type 0} (fresh : OpResult Unit) (a : OpResult A) (version : Option ℕ) (w : World)
      (k : A → Step J B H)
      → ((x : A) → IsGuarded fresh version w (k x))
      → IsGuarded fresh version w (unless_fails J B H a version w k)
  read-IsGuarded fresh (fails code message at) version w k h = inl (refl, refl, tt)
  read-IsGuarded fresh (done x) version w k h = h x

  play-IsGuarded :
      (v : Value) (version : Option ℕ) (w : World)
      → IsGuarded (check_version J v version) version w (play J B H v version w)
  unfolding play
  play-IsGuarded v version w =
      read-IsGuarded _ (req_i64 J v "order") version w _
        (λ o. mutated-IsGuarded (check_version J v version) _ version w)

  move_item-IsGuarded :
      (v : Value) (version : Option ℕ) (w : World)
      → IsGuarded (check_version J v version) version w (move_item J B H v version w)
  unfolding move_item
  move_item-IsGuarded v version w = read-IsGuarded _ (req_i64 J v "from") version w _ (λ from.
      read-IsGuarded _ (req_i64 J v "to") version w _
        (λ to. mutated-IsGuarded (check_version J v version) _ version w))

  clear-IsGuarded :
      (v : Value) (version : Option ℕ) (w : World)
      → IsGuarded (check_version J v version) version w (clear J B H v version w)
  unfolding clear
  clear-IsGuarded v version w = mutated-IsGuarded (check_version J v version) _ version w

  removed_bumps :
      (r : Option String × World) (version : Option ℕ)
      → (removed J B H r version).version ≡ bump_version version
  removed_bumps (none, w) version = refl
  removed_bumps (some e, w) version = refl

  remove_within-IsGuarded :
      (os : List ℕ) (len : ℕ) (version : Option ℕ) (w : World)
      → IsGuarded (done tt) version w (remove_within J B H os len version w)
  remove_within-IsGuarded [] len version w = inr (refl, λ h. refl)
  remove_within-IsGuarded (o ∷ os) len version w = elim (Bool-cases (leb len o)) [
    | inl past ↦ rw (past, remove_within) (inl (refl, refl, tt))
    | inr fits ↦ rw (fits, remove_within) (inr (refl, λ h. removed_bumps _ version))
  ]

  fresh-IsGuarded :
      (fresh : OpResult Unit) (version : Option ℕ) (w : World) (k : Unit → Step J B H)
      → ((u : Unit) → IsGuarded (done tt) version w (k u))
      → IsGuarded fresh version w (unless_fails J B H fresh version w k)
  fresh-IsGuarded (fails code message at) version w k h = inl (refl, refl, tt)
  fresh-IsGuarded (done u) version w k h = h u

  remove-IsGuarded :
      (v : Value) (version : Option ℕ) (w : World)
      → IsGuarded (check_version J v version) version w (remove J B H v version w)
  unfolding remove
  remove-IsGuarded v version w =
      read-IsGuarded _ (orders_highest_first J v "orders") version w _ (λ os.
        fresh-IsGuarded (check_version J v version) version w _ (λ u.
          read-IsGuarded _ (or_internal (H.paths w)) version w _
            (λ ps. remove_within-IsGuarded os (length ps) version w)))

  abbrev IsGuardedIf : OpResult Unit → Option ℕ → World → Option (Step J B H) → Type 0
  IsGuardedIf fresh version w none = Unit
  IsGuardedIf fresh version w (some s) = IsGuarded fresh version w s

  either-IsGuarded :
      (fresh : OpResult Unit) (version : Option ℕ) (w : World) (b : Bool) (s : Step J B H)
      (rest : Option (Step J B H))
      → IsGuarded fresh version w s
      → (b ≡ false → IsGuardedIf fresh version w rest)
      → IsGuardedIf fresh version w (if b then some s else rest)
  either-IsGuarded fresh version w true s rest h k = h
  either-IsGuarded fresh version w false s rest h k = k refl

  dispatch-IsGuarded :
      (op : String) (v : Value) (version : Option ℕ) (w : World)
      → is_guarded op ≡ true
      → IsGuardedIf (check_version J v version) version w (dispatch J B H op v version w)
  unfolding dispatch
  dispatch-IsGuarded op v version w g =
      either-IsGuarded _ version w (op == "now_playing_list_play") (play J B H v version w) _
        (play-IsGuarded v version w)
        (λ a.
          either-IsGuarded _ version w (op == "now_playing_list_remove") (remove J B H v version w)
            _ (remove-IsGuarded v version w)
            (λ b.
              either-IsGuarded _ version w (op == "now_playing_list_move")
                (move_item J B H v version w) _ (move_item-IsGuarded v version w)
                (λ c.
                  either-IsGuarded _ version w (op == "now_playing_list_clear")
                    (clear J B H v version w) _ (clear-IsGuarded v version w)
                    (λ d. absurd (unguarded _ _ _ _ a b c d g)))))

  unless_stale_same :
      (z : ℤ) (n : ℕ) → unless_stale (some z) (some n) ≡ done tt → same_int z (pos n) ≡ true
  unless_stale_same z n h = ground arith

  named_version :
      (v : Value) (z : ℤ) (n : ℕ)
      → opt_i64 J v "version" ≡ done (some z)
      → check_version J v (some n) ≡ done tt
      → same_int z (pos n) ≡ true
  unfolding check_version
  named_version v z n e h = unless_stale_same z n (rw e at h)

  failure_not_done : (r : OpResult Value) → is_done r ≡ true → IsFailure r → ⊥
  failure_not_done (done v) d f = f
  failure_not_done (fails code message at) d f = cc

  dispatched-IsGuarded :
      (op : String) (v : Value) (version : Option ℕ) (w : World) (s : Step J B H)
      → is_guarded op ≡ true
      → dispatch J B H op v version w ≡ some s
      → IsGuarded (check_version J v version) version w s
  dispatched-IsGuarded op v version w s g h =
      subst (λ o. IsGuardedIf (check_version J v version) version w o) h
        (dispatch-IsGuarded op v version w g)

  one_version : (z : ℤ) (n : ℕ) → same_int z (pos n) ≡ true → same_int z (pos (n + 1)) ≡ false
  one_version (pos m) n h = ground arith
  one_version (negsuc m) n h = refl

  moved_on :
      (v : Value) (z : ℤ) (n : ℕ) (version : Option ℕ)
      → opt_i64 J v "version" ≡ done (some z)
      → same_int z (pos n) ≡ true
      → version ≡ some (n + 1)
      → check_version J v version ≡ done tt
      → ⊥
  moved_on v z n version e same m h =
      let again = named_version v z (n + 1) e (rw m at h) in ground (arith, one_version z n same)

  -- Of two requests that change the list and name the same version of it, the second is refused and
  -- changes nothing once the first has been answered with success.
  pub dispatch_twice :
      (op op' : String) (v v' : Value) (z : ℤ) (n : ℕ) (w : World) (s s' : Step J B H)
      → is_guarded op ≡ true
      → is_guarded op' ≡ true
      → opt_i64 J v "version" ≡ done (some z)
      → opt_i64 J v' "version" ≡ done (some z)
      → dispatch J B H op v (some n) w ≡ some s
      → is_done s.answer ≡ true
      → dispatch J B H op' v' s.version s.world ≡ some s'
      → IsRefused s.version s.world s'
  dispatch_twice op op' v v' z n w s s' g g' e e' h d h' =
      elim (dispatched-IsGuarded op v (some n) w s g h) [
        | inl (a, b, f) ↦ absurd (failure_not_done s.answer d f)
        | inr (fresh, moves) ↦ elim (dispatched-IsGuarded op' v' s.version s.world s' g' h') [
          | inl r ↦ r
          | inr (again, _) ↦
              absurd (moved_on v' z n s.version e' (named_version v z n e fresh) (moves d) again)
        ]
      ]
