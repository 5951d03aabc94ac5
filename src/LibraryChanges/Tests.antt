-- ===== src/LibraryChanges/Tests.antt =====
-- Runs of the change log, and its theorems at concrete inputs.
use mbrc_plugin.Base.{
  ℕ, String, Bool, true, false, not, ◌&&◌, ◌≡◌, refl, Option, none, some, List, [], ◌∷◌, arith, ◌≤◌,
  last, take, string_eq,
}
use mbrc_plugin.Base.Dict
use mbrc_plugin.Base.TextOrder
use mbrc_plugin.Base.Dict.{Dict}
use mbrc_plugin.Base.Sorting.{member, sort, dedup}
use mbrc_plugin.Store.Ordered.{OrderedTables, HasAscendingKeys, range}
use mbrc_plugin.Store.Ordered.Memory.{ordered_memory, put}
use mbrc_plugin.Base.Order.{pair_eq, pair_order, text_order}
use mbrc_plugin.LibraryChanges.{
  Filed, ChangeLog, Change, start, since, served, is_live, live_in, empty_log, record_in, diff,
  take_below, merge, edited_among, file_change, file_all, trim, record_pass, within,
}
use mbrc_plugin.LibraryChanges.Diff.{diff_exact}
use mbrc_plugin.LibraryChanges.Read.Pages.{read_all, read_all-enough, whole, enough, IsAnswerable}
use mbrc_plugin.LibraryChanges.Record.History.{LogStep, passing, run, step, record_in-listing}
use mbrc_plugin.LibraryChanges.Record.Tracking.{record_all}
use mbrc_plugin.LibraryChanges.Sync.{follow_changes, read_all-since}

abbrev known : OrderedTables String Filed
known = ordered_memory String Filed

abbrev log : OrderedTables (ℕ × String) Bool
log = ordered_memory (ℕ × String) Bool

abbrev history : List LogStep
history =
    passing "e1" (some ("/b" ∷ "/a" ∷ [])) []
    ∷ passing "e2" (some ("/a" ∷ "/c" ∷ [])) ("/a" ∷ [])
    ∷ []

abbrev later : List (String × Option (List String) × List String)
later = ("e3", some ("/c" ∷ "/d" ∷ []), []) ∷ ("e4", none, "/d" ∷ []) ∷ []

abbrev table : Dict String Filed
table = ("/a", (1, true)) ∷ ("/b", (2, false)) ∷ ("/c", (2, true)) ∷ []

diff_run : diff table ("/d" ∷ "/b" ∷ "/a" ∷ "/d" ∷ []) ≡ ("/b" ∷ "/d" ∷ [], "/c" ∷ [])
unfolding diff merge take_below sort dedup TextOrder.less
diff_run = refl

table_ascends : HasAscendingKeys table
unfolding TextOrder.less
table_ascends = (((refl, (refl, tt))), ((refl, tt), (tt, tt)))

diff_exact_example :
    (member {K = String} "/b" (diff table ("/d" ∷ "/b" ∷ [])).0
      ≡ (member {K = String} "/b" ("/d" ∷ "/b" ∷ []) && not (is_live (Dict.get "/b" table))))
    × (member {K = String} "/b" (diff table ("/d" ∷ "/b" ∷ [])).1
        ≡ (is_live (Dict.get "/b" table) && not (member {K = String} "/b" ("/d" ∷ "/b" ∷ []))))
diff_exact_example = diff_exact table ("/d" ∷ "/b" ∷ []) "/b" table_ascends

started : (run known log history (empty_log known log)).epoch ≡ some "e1"
unfolding run step record_in record_pass diff merge take_below sort dedup edited_among file_all
    file_change trim live_in put TextOrder.less ordered_memory Dict.get Dict.remove member
started = refl

generation_two : (run known log history (empty_log known log)).generation ≡ 2
unfolding run step record_in record_pass diff merge take_below sort dedup edited_among file_all
    file_change trim live_in put TextOrder.less ordered_memory Dict.get Dict.remove member
generation_two = refl

abbrev taken : ChangeLog known log
taken = run known log history (empty_log known log)

abbrev now : ChangeLog known log
now = record_all known log later taken

floor_below : now.floor ≤ taken.generation
unfolding run step record_in record_pass diff merge take_below sort dedup edited_among file_all
    file_change trim live_in put TextOrder.less ordered_memory Dict.get Dict.remove member
    record_all
floor_below = omega arith

read_all-since_example :
    (changes : List Change) × (read_all known log
        (enough known log now)
        (since (record { epoch = "e1"; generation = taken.generation }))
        1
        now
      ≡ some changes)
    × ((p : String) → follow_changes changes (live_in known log taken) p ≡ live_in known log now p)
read_all-since_example = read_all-since known log history later "e1" 0 started floor_below

record_in-listing_example :
    live_in known log (record_in known log "e5" (some ("/a" ∷ "/z" ∷ [])) ("/z" ∷ []) taken).1 "/z"
    ≡ member {K = String} "/z" ("/a" ∷ "/z" ∷ [])
record_in-listing_example =
    record_in-listing known log history "e5" ("/a" ∷ "/z" ∷ []) ("/z" ∷ []) "/z"

answerable : IsAnswerable known log start "e1" taken
answerable = (started, refl, refl)

read_all-enough_example :
    read_all known log (enough known log taken) start 1 taken ≡ some (whole known log start taken)
read_all-enough_example = read_all-enough known log start 0 "e1" taken answerable

abbrev rows : Dict (ℕ × String) Bool
rows = ((1, "/a"), true) ∷ ((2, "/b"), false) ∷ ((2, "/c"), true) ∷ []

rows_ascend : HasAscendingKeys rows
unfolding TextOrder.less
rows_ascend = ((refl, (refl, tt)), ((refl, tt), (tt, tt)))

first_page :
    last (take 1 (served none (range (within start 2) rows)))
    ≡ some (record { generation = 1; src = "/a"; live = true })
unfolding served range
first_page = refl
