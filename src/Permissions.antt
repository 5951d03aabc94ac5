-- ===== src/Permissions.antt =====
-- Party Mode permissions: packages/mbrc-core/src/server/permissions/mod.rs, with the queue
-- placements of protocol/messages.rs. The children model the principals and their roles, the gate,
-- and the map of V6 ops.
pub mod Order
pub mod Principal
pub mod Keys
pub mod Roles
pub mod V6
pub mod V4
pub mod Gate
mod Tests
use mbrc_plugin.Base.{
  ℕ, Bool, true, false, ◌&&◌, Option, none, some, List, [], ◌∷◌, leb, nat_beq, any,
}

pub data QueueType : Type 0 where
  last next play_now add_and_play : QueueType

pub data Capability : Type 0 where
  playback queue_add queue_insert queue_replace queue_edit : Capability
  volume modes library_edit playlist_edit output : Capability

abbrev pub all_capabilities : List Capability
all_capabilities =
    playback ∷ queue_add ∷ queue_insert ∷ queue_replace ∷ queue_edit ∷ volume ∷ modes ∷ library_edit
    ∷ playlist_edit ∷ output ∷ []

-- The variant's place, by which the derived `==` is decided.
abbrev pub index : Capability → ℕ
index playback = 0
index queue_add = 1
index queue_insert = 2
index queue_replace = 3
index queue_edit = 4
index volume = 5
index modes = 6
index library_edit = 7
index playlist_edit = 8
index output = 9

-- `slice.contains(&capability)`
abbrev pub contains : List Capability → Capability → Bool
contains cs c = any (λ d. nat_beq (index d) (index c)) cs

unfoldable pub for_queue : QueueType → Capability
for_queue last = queue_add
for_queue next = queue_insert
for_queue play_now = queue_replace
for_queue add_and_play = queue_replace

pub data Role : Type 0 where
  host dj guest listener : Role

abbrev pub default_role : Role
default_role = guest

unfoldable pub capabilities : Role → List Capability
capabilities host = all_capabilities
capabilities dj =
    playback ∷ queue_add ∷ queue_insert ∷ queue_replace ∷ queue_edit ∷ volume ∷ modes ∷ []
capabilities guest = queue_add ∷ []
capabilities listener = []

unfoldable pub max_tracks_per_add : Role → Option ℕ
max_tracks_per_add guest = some 1
max_tracks_per_add _ = none

pub data Action : Type 0 where
  read : Action
  change : Capability → Action
  queue : Capability → (tracks : Option ℕ) → Action

unfoldable pub action_capability : Action → Option Capability
action_capability read = none
action_capability (change c) = some c
action_capability (queue c tracks) = some c

unfoldable pub queue_action : QueueType → Option ℕ → Action
unfolding for_queue
queue_action placement tracks = queue (for_queue placement) tracks

-- `tracks.is_some_and(|n| n <= max)`
abbrev pub at_most : Option ℕ → ℕ → Bool
at_most none max = false
at_most (some n) max = leb n max

-- `max_tracks_per_add().is_none_or(…)`
abbrev pub within_limit : Option ℕ → Option ℕ → Bool
within_limit none tracks = true
within_limit (some max) tracks = at_most tracks max

unfoldable pub permits : Role → Action → Bool
unfolding capabilities max_tracks_per_add
permits r read = true
permits r (change c) = contains (capabilities r) c
permits r (queue c tracks) =
    contains (capabilities r) c && within_limit (max_tracks_per_add r) tracks
