-- ===== src/V4/Host.antt =====
-- The calls on MusicBee that the legacy handlers make (the methods of `Providers` in
-- packages/mbrc-core/src/providers.rs that change something), and the programs that make them: a
-- handler runs on the world behind the calls, may fail, and leaves the list of the calls it made.
use mbrc_plugin.Base.{String, Bool, true, false, Option, none, some, List, [], ◌∷◌, ◌++◌}
use mbrc_plugin.Base.Int.{ℤ}
use mbrc_plugin.Permissions.{QueueType}
use mbrc_plugin.V4.{ShuffleMode, RepeatMode, LastfmStatus}

pub data HostCall : Type 0 where
  play pause play_pause stop next previous : HostCall
  set_volume set_position play_list_item remove_list_item : ℤ → HostCall
  set_mute set_shuffle set_auto_dj set_scrobble play_all : Bool → HostCall
  set_repeat : RepeatMode → HostCall
  set_rating search_list switch_output play_playlist : String → HostCall
  set_lfm_rating : LastfmStatus → HostCall
  set_tag : String → String → HostCall
  move_list_item : ℤ → ℤ → HostCall
  queue : QueueType → List String → String → HostCall

-- What `player_state` answers, as far as the handlers read it.
pub record PlayerState : Type 0 where
  pub volume : ℤ
  pub mute : Bool
  pub shuffle : ShuffleMode
  pub repeat : RepeatMode
  pub scrobble : Bool

pub record OutputDevices : Type 0 where
  pub devices : List String
  pub active : String

-- MusicBee: whether a call succeeds and what it does to the world, and what the reads answer.
pub record Host : Type 1 where
  pub World : Type 0
  pub perform : HostCall → World → Bool × World
  pub player_state : World → Option PlayerState
  pub output_devices : World → Option OutputDevices
  pub rating : World → Option String
  pub lfm_rating : World → Option LastfmStatus
  -- `now_rating` and `now_lfm`: from the cache where one is attached.
  pub now_rating : World → Option String
  pub now_lfm : World → Option LastfmStatus

pub record Ran (W A : Type 0) : Type 0 where
  pub result : Option A
  pub calls : List HostCall
  pub world : W

-- A program that runs on the world; `none` is the error of a handler, and the calls that were made
-- before it stay made.
abbrev pub M : Type 0 → Type 0 → Type 0
M W A = W → Ran W A

module _ {W : Type 0} where
  abbrev pub pure : {A : Type 0} → A → M W A
  pure a w = record { result = some a; calls = []; world = w }

  abbrev pub fail : {A : Type 0} → M W A
  fail w = record { result = none; calls = []; world = w }

  abbrev pub after : {A B : Type 0} → Ran W A → (A → M W B) → Ran W B
  after r f = elim r.result [
    | none ↦ record { result = none; calls = r.calls; world = r.world }
    | some a ↦
        let r' = f a r.world in
        record { result = r'.result; calls = r.calls ++ r'.calls; world = r'.world }
  ]

  infixl 5 ◌>>=◌ ◌>>◌
  abbrev pub ◌>>=◌ : {A B : Type 0} → M W A → (A → M W B) → M W B
  ◌>>=◌ m f w = after (m w) f

  abbrev pub ◌>>◌ : {A B : Type 0} → M W A → M W B → M W B
  m >> k = m >>= λ _. k

  abbrev pub read : {A : Type 0} → (W → Option A) → M W A
  read f w = record { result = f w; calls = []; world = w }

abbrev pub done_if : Bool → Option (Unit {0})
done_if true = some tt
done_if false = none

abbrev pub call : (H : Host) → HostCall → M H.World (Unit {0})
call H c w =
    let (succeeded, w') = H.perform c w in
    record { result = done_if succeeded; calls = c ∷ []; world = w' }
