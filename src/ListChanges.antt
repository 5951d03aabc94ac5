-- ===== src/ListChanges.antt =====
-- One broadcast for a burst of list notifications (packages/mbrc-core/src/server/list_changes.rs),
-- with what `dispatch_notification` of packages/mbrc-core/src/state.rs does on one. Each atomic
-- operation is a step of its own: the notification moves the version, stores the flag and nudges,
-- one notification after another, as MusicBee sends them; the task waits for a nudge, sleeps, takes
-- the flag and broadcasts. A nudge is kept as a permit while nobody waits. The shutdown of the task
-- is not modelled, and the version counts notifications only: what a write of this server adds to it is
-- left out.
pub mod Told
mod Tests
use mbrc_plugin.Base.{ℕ, zero, suc, ◌+◌, Bool, true, false, if◌then◌else◌}

-- How far the notification at hand has come.
pub data Notifying : Type 0 where
  quiet bumped stored : Notifying

-- Where the task stands.
pub data Phase : Type 0 where
  waiting settling sending : Phase

-- `sent` is the version that the clients were last told of.
pub record PendingListChange : Type 0 where
  pub pending : Bool
  pub permit : Bool
  pub notifying : Notifying
  pub phase : Phase
  pub version : ℕ
  pub sent : ℕ
  pub broadcasts : ℕ

abbrev pub new_pending : PendingListChange
new_pending = record {
  pending = false;
  permit = false;
  notifying = quiet;
  phase = waiting;
  version = 0;
  sent = 0;
  broadcasts = 0;
}

-- `bump_list_version`, then the two halves of `mark`.
abbrev pub notify_from : Notifying → PendingListChange → PendingListChange
notify_from quiet s = record s { version = s.version + 1; notifying = bumped }
notify_from bumped s = record s { pending = true; notifying = stored }
notify_from stored s = record s { permit = true; notifying = quiet }

unfoldable pub notify : PendingListChange → PendingListChange
notify s = notify_from s.notifying s

-- The next thing the task does; a task that waits with no permit stays as it is.
abbrev pub run_from : Phase → PendingListChange → PendingListChange
run_from waiting s = if s.permit then record s { permit = false; phase = settling } else s
run_from settling s =
    if s.pending
    then record s { pending = false; phase = sending }
    else record s { phase = waiting }
run_from sending s = record s { sent = s.version; broadcasts = s.broadcasts + 1; phase = waiting }

unfoldable pub run : PendingListChange → PendingListChange
run s = run_from s.phase s

-- The notifications and the task take turns in any order.
pub data Step : PendingListChange → PendingListChange → Type 0 where
  notified : (s : PendingListChange) → Step s (notify s)
  ran : (s : PendingListChange) → Step s (run s)

pub data Reached : PendingListChange → Type 0 where
  begin : Reached new_pending
  next : {s t : PendingListChange} → Reached s → Step s t → Reached t
