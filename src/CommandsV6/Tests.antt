-- ===== src/CommandsV6/Tests.antt =====
-- Runs of the V6 handlers at concrete inputs, and their theorems there.
use mbrc_plugin.Base.{
  ℕ, String, Bool, true, ◌≡◌, refl, ap, ◌⊎◌, inl, inr, Option, none, some, List, [], ◌∷◌, string_eq,
  suc, zero,
}
use mbrc_plugin.Base.Dict
use mbrc_plugin.Base.Dict.{Dict}
use mbrc_plugin.Base.Int.{pos}
use mbrc_plugin.Base.Order.{text_order, pair_order, pair_eq}
use mbrc_plugin.Base.Sorting.{sort, member, dedup}
use mbrc_plugin.Base.TextOrder
use mbrc_plugin.Json.Tree.{Tree, tree_json, tree_build, fields, from_list, items, from_items, count}
use mbrc_plugin.Store.Ordered.{OrderedTables}
use mbrc_plugin.Store.Ordered.Memory.{ordered_memory, put}
use mbrc_plugin.LibraryChanges.{
  Filed, ChangeLog, start, empty_log, record_in, record_pass, diff, merge, take_below, edited_among,
  file_all, file_change, trim, live_in,
}
use mbrc_plugin.LibraryChanges.Read.Pages.{whole, enough}
use mbrc_plugin.CommandsV6.{OpResult, done, page_args, opt_i64, clamp, failure}
use mbrc_plugin.CommandsV6.LibrarySync.{collect, items_of}
use mbrc_plugin.CommandsV6.LibrarySync.Requests.{request}
use mbrc_plugin.CommandsV6.LibrarySync.Pages.{Describes, sync_all, sync_all-whole}
use mbrc_plugin.CommandsV6.NowPlayingList.{
  QueueHost, QueueCall, remove_list_item, check_version, orders_of, orders_highest_first, repeats,
  remove, remove_all, clear, dispatch, Step, answers, empty,
}
use mbrc_plugin.CommandsV6.NowPlayingList.Slots.{remove_at, RemovesSlots}
use mbrc_plugin.CommandsV6.NowPlayingList.Removal.{Removes, remove-Removes}
use mbrc_plugin.CommandsV6.NowPlayingList.Versions.{IsRefused, dispatch_twice}

abbrev known : OrderedTables String Filed
known = ordered_memory String Filed

abbrev log : OrderedTables (ℕ × String) Bool
log = ordered_memory (ℕ × String) Bool

abbrev data_of : Dict String Tree → Tree
data_of fs = fields (from_list fs)

page_bounds :
    page_args tree_json (data_of (("offset", count 3_000_000_000) ∷ []))
    ≡ done (2_147_483_647, 1000)
unfolding page_args opt_i64 clamp
page_bounds = refl

abbrev filed : ChangeLog known log
filed = (record_in known log "e1" (some ("/b" ∷ "/a" ∷ [])) [] (empty_log known log)).1

filed_epoch : filed.epoch ≡ some "e1"
unfolding record_in record_pass diff merge take_below sort dedup edited_among file_all file_change
    trim live_in put TextOrder.less ordered_memory Dict.get Dict.remove member
filed_epoch = refl

-- A host that describes no path.
abbrev silent : List String → OpResult (List (String × Tree))
silent ps = done []

silent-Describes : Describes tree_json tree_build silent (λ p. none)
unfolding collect Dict.get
silent-Describes ps = ([], refl, λ p m. refl)

sync_all-whole_example :
    sync_all tree_json tree_build known log
      (enough known log filed)
      silent
      (count 1)
      (request tree_json tree_build start (count 1))
      (some (record { is_validated = true; log = filed }))
    ≡ some (items_of tree_json tree_build (λ p. none) (whole known log start filed))
sync_all-whole_example =
    sync_all-whole tree_json tree_build known log silent (λ p. none) start (count 1) (pos 1) "e1"
      filed silent-Describes refl (filed_epoch, refl, refl)

abbrev obey : QueueCall → List String → Option String × List String
obey (remove_list_item (pos i)) ps = (none, remove_at i ps)
obey _ ps = (none, ps)

abbrev host : QueueHost
host = record { World = List String; paths = λ ps. inr ps; call = obey }

abbrev slots_of : String ⊎ List String → List String
slots_of (inl e) = []
slots_of (inr ps) = ps

abbrev first_and_last : Tree
first_and_last =
    data_of (("orders", items (from_items (count 0 ∷ count 2 ∷ []))) ∷ ("version", count 7) ∷ [])

abbrev songs : List String
songs = "a" ∷ "b" ∷ "c" ∷ []

removed_ends :
    remove tree_json tree_build host first_and_last (some 7) songs
    ≡ answers tree_json tree_build host (done (empty tree_json tree_build host)) (some 8) ("b" ∷ [])
unfolding remove orders_highest_first orders_of repeats check_version opt_i64 sort remove_all
removed_ends = refl

-- A host that refuses to empty its first slot.
abbrev refuse_first : QueueCall → List String → Option String × List String
refuse_first (remove_list_item (pos zero)) ps = (some "busy", ps)
refuse_first (remove_list_item (pos (suc i))) ps = (none, remove_at (suc i) ps)
refuse_first _ ps = (none, ps)

abbrev stubborn : QueueHost
stubborn = record { World = List String; paths = λ ps. inr ps; call = refuse_first }

stubborn-RemovesSlots : RemovesSlots stubborn
stubborn-RemovesSlots zero ps w e h fine = cc
stubborn-RemovesSlots (suc i) ps w e h fine = ap (λ o. inr (remove_at (suc i) (slots_of o))) e

cut_short :
    remove tree_json tree_build stubborn first_and_last (some 7) songs
    ≡ answers tree_json tree_build stubborn (failure "busy") (some 8) ("a" ∷ "b" ∷ [])
unfolding remove orders_highest_first orders_of repeats check_version opt_i64 sort remove_all
cut_short = refl

remove-Removes_example :
    Removes tree_json tree_build stubborn first_and_last
      (some 7)
      songs
      (remove tree_json tree_build stubborn first_and_last (some 7) songs)
remove-Removes_example =
    remove-Removes tree_json tree_build stubborn first_and_last (some 7) songs stubborn-RemovesSlots

abbrev clear_seven : Tree
clear_seven = data_of (("version", count 7) ∷ [])

reads_seven : opt_i64 tree_json clear_seven "version" ≡ done (some (pos 7))
unfolding opt_i64
reads_seven = refl

abbrev after_clear : Option ℕ → Step tree_json tree_build host
after_clear version =
    answers tree_json tree_build host (done (empty tree_json tree_build host)) version songs

cleared :
    dispatch tree_json tree_build host "now_playing_list_clear" clear_seven (some 7) songs
    ≡ some (after_clear (some 8))
unfolding dispatch clear check_version opt_i64
cleared = refl

abbrev second : Step tree_json tree_build host
second = clear tree_json tree_build host clear_seven (some 8) songs

cleared_again :
    dispatch tree_json tree_build host "now_playing_list_clear" clear_seven (some 8) songs
    ≡ some second
unfolding dispatch
cleared_again = refl

dispatch_twice_example : IsRefused tree_json tree_build host (some 8) songs second
dispatch_twice_example =
    dispatch_twice tree_json tree_build host "now_playing_list_clear" "now_playing_list_clear"
      clear_seven clear_seven (pos 7) 7 songs (after_clear (some 8)) second refl refl reads_seven
      reads_seven cleared refl cleared_again
