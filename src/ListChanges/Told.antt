-- ===== src/ListChanges/Told.antt =====
-- Which versions of the list the clients are told of, and how often.
use mbrc_plugin.Base.{ℕ, zero, suc, ◌+◌, ◌≤◌, Bool, true, false, ◌≡◌, refl, ◌⊎◌, arith}
use mbrc_plugin.ListChanges.{
  Notifying, quiet, bumped, stored, Phase, waiting, settling, sending, PendingListChange,
  new_pending, notify, run, Step, notified, ran, Reached, begin, next,
}

abbrev one_if : Bool → ℕ
one_if true = 1
one_if false = 0

abbrev of_bumped : Notifying → ℕ
of_bumped bumped = 1
of_bumped _ = 0

abbrev of_sending : Phase → ℕ
of_sending sending = 1
of_sending _ = 0

-- A version that the clients have not been told of is on its way to them, and every broadcast has a
-- notification of its own.
record IsOnItsWay (s : PendingListChange) : Type 0 where
  owed :
      (s.sent ≡ s.version) ⊎ ((s.notifying ≡ bumped) ⊎ ((s.pending ≡ true) ⊎ (s.phase ≡ sending)))
  woken : s.pending ≡ true → (s.permit ≡ true) ⊎ ((s.notifying ≡ stored) ⊎ (s.phase ≡ settling))
  paid : s.broadcasts + one_if s.pending + of_sending s.phase + of_bumped s.notifying ≤ s.version

new-IsOnItsWay : IsOnItsWay new_pending
new-IsOnItsWay = ground arith

notify-IsOnItsWay : (s : PendingListChange) → IsOnItsWay s → IsOnItsWay (notify s)
unfolding notify
notify-IsOnItsWay s h = ground arith

run-IsOnItsWay : (s : PendingListChange) → IsOnItsWay s → IsOnItsWay (run s)
unfolding run
run-IsOnItsWay s h = ground arith

Step-IsOnItsWay : {s t : PendingListChange} → Step s t → IsOnItsWay s → IsOnItsWay t
Step-IsOnItsWay (notified s) h = notify-IsOnItsWay s h
Step-IsOnItsWay (ran s) h = run-IsOnItsWay s h

Reached-IsOnItsWay : {s : PendingListChange} → Reached s → IsOnItsWay s
Reached-IsOnItsWay begin = new-IsOnItsWay
Reached-IsOnItsWay (next r st) = Step-IsOnItsWay st (Reached-IsOnItsWay r)

-- `run`, several times.
abbrev pub runs : ℕ → PendingListChange → PendingListChange
runs zero s = s
runs (suc n) s = runs n (run s)

-- Nothing is left to do, and the clients know the version of the list.
abbrev pub IsSettled : PendingListChange → Type 0
IsSettled s = (s.phase ≡ waiting) × (s.permit ≡ false) × (s.sent ≡ s.version)

runs-IsSettled :
    (p : Phase) (s : PendingListChange)
    → s.phase ≡ p
    → s.notifying ≡ quiet
    → IsOnItsWay s
    → IsSettled (runs 5 s)
unfolding run
runs-IsSettled p s e q h = ground arith

-- However notifications and the task take turns: once no notification is under way, five more steps
-- of the task leave it waiting with every client told of the list's version; and there have never
-- been more broadcasts than notifications.
pub runs-told :
    (s : PendingListChange)
    → Reached s
    → s.notifying ≡ quiet
    → IsSettled (runs 5 s) × (s.broadcasts ≤ s.version)
runs-told s r q =
    let h = Reached-IsOnItsWay r in (runs-IsSettled s.phase s refl q h, omega (arith, h.paid))
