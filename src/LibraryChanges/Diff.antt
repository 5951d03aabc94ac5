-- ===== src/LibraryChanges/Diff.antt =====
-- `diff` compares the listing with the log exactly, whatever the order of the listing.
use mbrc_plugin.Base.{
  if◌then◌else◌, ℕ, String, Bool, true, false, not, ◌&&◌, ◌||◌, ◌≡◌, refl, ap, ◌∙◌, List, [], ◌∷◌,
  arith, ◌==◌, string_eq,
}
use mbrc_plugin.Base.Dict
use mbrc_plugin.Base.Dict.{Dict}
use mbrc_plugin.Base.Order.{text_order}
use mbrc_plugin.Base.Sorting.{
  sort, dedup, member, member-append, member-sort, member-dedup, dedup-sort-IsAscending,
  IsAscending, Above-member,
}
use mbrc_plugin.Store.Ordered.{KeysAbove, HasAscendingKeys}
use mbrc_plugin.LibraryChanges.{Filed, is_live, take_below, starts_at, skip_if, merge, diff}

abbrev less : String → String → Bool
less = text_order.less

KeysAbove-get :
    (p k : String) (m : Dict String Filed)
    → KeysAbove k m
    → is_live (Dict.get p m) ≡ true
    → less k p ≡ true
unfolding Dict.get
KeysAbove-get p k [] h l = cc
KeysAbove-get p k ((j, f) ∷ m) h l = ground (arith, string_eq.same_iff j p, KeysAbove-get p k m h.1)

-- What `take_below` splits off lies below the path, and the rest does not.
take_below_lem :
    (path p : String) (ps : List String)
    → member p ps ≡ (member p (take_below path ps).0 || member p (take_below path ps).1)
unfolding take_below member
take_below_lem path p [] = refl
take_below_lem path p (q ∷ ps) = ground (arith, take_below_lem path p ps)

take_below_less :
    (path p : String) (ps : List String)
    → member p (take_below path ps).0 ≡ true
    → less p path ≡ true
unfolding take_below member
take_below_less path p [] h = cc
take_below_less path p (q ∷ ps) h =
    ground (arith, take_below_less path p ps, string_eq.same_iff q p)

take_below-IsAscending :
    (path : String) (ps : List String) → IsAscending ps → IsAscending (take_below path ps).1
unfolding take_below
take_below-IsAscending path [] h = tt
take_below-IsAscending path (q ∷ ps) h = ground (arith, take_below-IsAscending path ps h.1)

take_below_ge :
    (path p : String) (ps : List String)
    → IsAscending ps
    → member p (take_below path ps).1 ≡ true
    → less p path ≡ false
unfolding take_below member
take_below_ge path p [] h m = cc
take_below_ge path p (q ∷ ps) h m = ground (
  arith,
  take_below_ge path p ps h.1,
  string_eq.same_iff q p,
  Above-member q p ps h.0,
  text_order.trans q p path,
)

-- Past the head that matches, every path lies above it.
skip_if_lem :
    (path p : String) (rest : List String)
    → IsAscending rest
    → ((q : String) → member q rest ≡ true → less q path ≡ false)
    → (member p rest
        ≡ ((starts_at path rest && (path == p)) || member p (skip_if (starts_at path rest) rest)))
      × IsAscending (skip_if (starts_at path rest) rest)
      × (member path (skip_if (starts_at path rest) rest) ≡ false)
unfolding member
skip_if_lem path p [] h ge = (ground arith, tt, refl)
skip_if_lem path p (q ∷ rest) h ge = ground (
  arith,
  ge q,
  Above-member q path rest h.0,
  string_eq.same_iff q path,
  string_eq.same_iff q p,
  string_eq.same_iff path p,
  string_eq.same_iff q q,
)

abbrev live_at : String → Dict String Filed → Bool
live_at p known = is_live (Dict.get p known)

member-cons_if :
    (c : Bool) (x p : String) (xs : List String)
    → member p (if c then x ∷ xs else xs) ≡ ((c && (x == p)) || member p xs)
unfolding member
member-cons_if true x p xs = refl
member-cons_if false x p xs = refl

-- One step of the merge in truth values: `mb`, `mr` and `ml` say whether the path is among those
-- below, the rest and the listing, `e` whether it is the row's, and `lk` whether it is live later.
merge_bits :
    (mb mr mr' ml st lv e lk ma mm lx : Bool)
    → ml ≡ (mb || mr)
    → mr ≡ ((st && e) || mr')
    → (e ≡ true → mr' ≡ false)
    → (lk ≡ true → mb ≡ false)
    → (lk ≡ true → e ≡ false)
    → (mb ≡ true → e ≡ false)
    → ma ≡ (mr' && not lk)
    → mm ≡ (lk && not mr')
    → lx ≡ (if e then lv else lk)
    → ((mb || (((st && not lv) && e) || ma)) ≡ (ml && not lx))
      × ((((not st && lv) && e) || mm) ≡ (lx && not ml))
merge_bits mb mr mr' ml st lv e lk ma mm lx h₁ h₂ h₃ h₄ h₅ h₆ h₇ h₈ h₉ = ground arith

live_at-cons :
    (p path : String) (g : ℕ) (live : Bool) (known : Dict String Filed)
    → live_at p ((path, (g, live)) ∷ known) ≡ (if path == p then live else live_at p known)
unfolding Dict.get
live_at-cons p path g live known = ground arith

live_at-nil : (p : String) → live_at p [] ≡ false
unfolding Dict.get
live_at-nil p = refl

member-nil : (p : String) → member p [] ≡ false
unfolding member
member-nil p = refl

less_ne : (path p : String) → less p path ≡ true → (path == p) ≡ false
less_ne path p h = ground (arith, string_eq.same_iff path p, text_order.irrefl p)

not_both : (path p : String) → less path p ≡ true → less p path ≡ false
not_both path p h = ground (arith, text_order.trans path p path h, text_order.irrefl path)

less_ne' : (path p : String) → less path p ≡ true → (path == p) ≡ false
less_ne' path p h = ground (arith, string_eq.same_iff path p, text_order.irrefl p)

merge_lem :
    (p : String) (known : Dict String Filed) (listed : List String)
    → HasAscendingKeys known
    → IsAscending listed
    → (member p (merge known listed).0 ≡ (member p listed && not (live_at p known)))
      × (member p (merge known listed).1 ≡ (live_at p known && not (member p listed)))
unfolding merge
merge_lem p [] listed k a = ground (arith, live_at-nil p, member-nil p)
merge_lem p ((path, (g, live)) ∷ known) listed k a =
    let below : List String = (take_below path listed).0 in
    let rest : List String = (take_below path listed).1 in
    let still : Bool = starts_at path rest in
    let rest' : List String = skip_if still rest in
    let skipped =
      skip_if_lem path p rest (take_below-IsAscending path listed a)
        (λ q m. take_below_ge path q listed a m) in
    let ih = merge_lem p known rest' k.1 skipped.1 in
    let added : List String = (merge known rest').0 in
    let removed : List String = (merge known rest').1 in
    let later = λ (l : live_at p known ≡ true). KeysAbove-get p path known k.0 l in
    let bits =
      merge_bits (member p below) (member p rest) (member p rest') (member p listed) still live
        (path == p) (live_at p known) (member p added) (member p removed)
        (live_at p ((path, (g, live)) ∷ known)) (take_below_lem path p listed) skipped.0
        (λ e. ground (arith, skipped.2, string_eq.same_iff path p))
        (λ l. ground (arith, take_below_less path p listed, not_both path p (later l)))
        (λ l. less_ne' path p (later l)) (λ m. less_ne path p (take_below_less path p listed m))
        ih.0 ih.1 (live_at-cons p path g live known) in
    (
      member-append p below (if still && not live then path ∷ added else added)
          ∙ ap (λ (b : Bool). member p below || b) (member-cons_if (still && not live) path p added)
          ∙ bits.0,
      member-cons_if (not still && live) path p removed ∙ bits.1,
    )

-- Over a log whose paths ascend, as the rows of its table do: a path is added exactly if it is
-- listed and the log does not hold it as live, and removed exactly if the log holds it as live and
-- it is not listed.
pub diff_exact :
    (known : Dict String Filed) (paths : List String) (p : String)
    → HasAscendingKeys known
    → (member p (diff known paths).0 ≡ (member p paths && not (is_live (Dict.get p known))))
      × (member p (diff known paths).1 ≡ (is_live (Dict.get p known) && not (member p paths)))
unfolding diff
diff_exact known paths p k =
    let listed = dedup (sort paths) in
    ground (
      arith,
      merge_lem p known listed k (dedup-sort-IsAscending paths),
      member-sort p (merge known listed).0,
      member-sort p paths,
      member-dedup p (sort paths),
    )
