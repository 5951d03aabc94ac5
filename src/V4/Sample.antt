-- ===== src/V4/Sample.antt =====
-- A small player, which shows that the interface of V4/Host can be met, and on which tests run.
use mbrc_plugin.Base.{ℕ, ◌+◌, true, false, some, [], ◌∷◌}
use mbrc_plugin.Base.Int.{pos}
use mbrc_plugin.Json.Tree.{nothing, tree_json}
use mbrc_plugin.V4.{shuffle, no_repeat, normal}
use mbrc_plugin.V4.Host.{Host, PlayerState}
use mbrc_plugin.V4.Dispatch.{Queries}

abbrev pub player : PlayerState
player = record {
  volume = pos 30;
  mute = false;
  shuffle = shuffle;
  repeat = no_repeat;
  scrobble = false;
}

-- A player whose calls all succeed; the world counts them.
abbrev pub host : Host
host = record {
  World = ℕ;
  perform = λ c w. (true, w + 1);
  player_state = λ w. some player;
  output_devices = λ w. some (record { devices = []; active = "speakers" });
  rating = λ w. some "3";
  lfm_rating = λ w. some normal;
  now_rating = λ w. some "3";
  now_lfm = λ w. some normal;
}

abbrev pub queries : Queries tree_json host
queries = record {
  playback = λ w. some nothing;
  details = λ w. some nothing;
  query = λ context v w. some ((context, nothing) ∷ []);
}
