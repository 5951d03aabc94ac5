-- ===== src/ListChanges/Tests.antt =====
-- Runs of the task at concrete orders of steps.
use mbrc_plugin.Base.{◌≤◌, ◌≡◌, refl}
use mbrc_plugin.ListChanges.{
  quiet, PendingListChange, new_pending, notify, run, notified, ran, Reached, begin, next,
}
use mbrc_plugin.ListChanges.Told.{runs, IsSettled, runs-told}

-- A notification; the task wakes before the next one comes.
abbrev once : PendingListChange
once = run (notify (notify (notify new_pending)))

abbrev twice : PendingListChange
twice = notify (notify (notify once))

twice-Reached : Reached twice
twice-Reached =
    next
      (next
        (next (next (next (next (next begin (notified _)) (notified _)) (notified _)) (ran _))
          (notified _))
        (notified _))
      (notified _)

twice_quiet : twice.notifying ≡ quiet
unfolding notify run
twice_quiet = refl

-- The second notification came before the first was broadcast.
told_once : (runs 5 twice).broadcasts ≡ 1
unfolding notify run
told_once = refl

runs-told_example : IsSettled (runs 5 twice) × (twice.broadcasts ≤ twice.version)
runs-told_example = runs-told twice twice-Reached twice_quiet
