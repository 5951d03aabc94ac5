-- ===== src/V4/Tests.antt =====
-- Runs of the legacy handlers, and the theorem about their calls at a concrete input.
use mbrc_plugin.Base.{true, ◌≡◌, refl, none, some, [], ◌∷◌, string_eq}
use mbrc_plugin.Base.Int.{pos, negsuc, to_i32, parse_i64}
use mbrc_plugin.Json.Tree.{word, count, tree_json}
use mbrc_plugin.Pairing.Label.{trim_start, trim_end}
use mbrc_plugin.V4.{android, ios, platform_from_name, as_int_lenient}
use mbrc_plugin.V4.Host.{set_volume, set_auto_dj, play_list_item}
use mbrc_plugin.V4.Sample.{host, queries}
use mbrc_plugin.V4.Handlers.{volume, shuffle_mode}
use mbrc_plugin.V4.Dispatch.{play_item}
use mbrc_plugin.V4.Judged.Contexts.{Judges, dispatch-Judges}

wraps : to_i32 (pos 4_294_967_295) ≡ negsuc 0
unfolding to_i32
wraps = refl

reads_a_negative : parse_i64 "-12" ≡ some (negsuc 11)
unfolding parse_i64
reads_a_negative = refl

refuses_a_word : parse_i64 "status" ≡ none
unfolding parse_i64
refuses_a_word = refl

folds_case : platform_from_name (some "iOS") ≡ ios
unfolding platform_from_name
folds_case = refl

sets_the_volume : (volume tree_json host (word " 50 ") 0).calls ≡ set_volume (pos 50) ∷ []
unfolding volume as_int_lenient parse_i64 trim_start trim_end to_i32
sets_the_volume = refl

-- A toggle goes from shuffle on to AutoDJ.
toggles_on : (shuffle_mode tree_json host (word "toggle") 0).calls ≡ set_auto_dj true ∷ []
unfolding shuffle_mode
toggles_on = refl

-- Android counts list positions from one.
plays_the_first :
    (play_item tree_json host queries android (count 1) 0).calls ≡ play_list_item (pos 0) ∷ []
unfolding play_item as_int_lenient to_i32
plays_the_first = refl

dispatch-Judges_example : Judges tree_json host queries true android (word "50") "playervolume"
dispatch-Judges_example =
    dispatch-Judges tree_json host queries true android "playervolume" (word "50")
