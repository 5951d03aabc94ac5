-- ===== src/Clients/Pinned.antt =====
-- The apps that `pinned_apps` (packages/mbrc-core/src/server/permissions/roles.rs) finds in the table
-- of roles.
use Prim.Native.String
use Prim.Native.String.{String, [], ◌∷◌, compare}
use Prim.Native.String.compare
use text.Mathlib.TextLemmas.{nil-append, cons-append}
use mbrc_plugin.Base.{
  Bool, true, false, ◌≡◌, refl, Option, none, some, arith, if◌then◌else◌, ◌==◌, string_eq,
  Bool-cases, Option-cases, inl, inr,
}
use mbrc_plugin.Base
use mbrc_plugin.Base.Dict
use mbrc_plugin.Base.Dict.{Dict}
use mbrc_plugin.Base.Order.{text_order}
use mbrc_plugin.Base.Sorting.{member}
use mbrc_plugin.Base.Text.{strip_prefix, strip_prefix-append}
use mbrc_plugin.Base.TextOrder.{less, less_irrefl}
use mbrc_plugin.Store.Ordered.{HasAscendingKeys, KeysAbove-get}
use mbrc_plugin.Permissions.Principal.{app_prefix}
use mbrc_plugin.Clients.{pinned_from}

-- A text does not come before its own beginning.
less-append : (p s : String) → less (String.◌++◌ p s) p ≡ false
unfolding less
less-append [] [] = less_irrefl []
less-append [] (c ∷ s) = rw nil-append (ground (arith, compare.cons-nil c s))
less-append (c ∷ p) s =
    rw cons-append (ground (arith, compare.cons-cons c c (String.◌++◌ p s) p, less-append p s))

-- What lies between a text and its continuation begins with it.
between-strip_prefix :
    (p k s : String)
    → less k p ≡ false
    → less k (String.◌++◌ p s) ≡ true
    → strip_prefix p k ≡ none
    → ⊥
unfolding less strip_prefix
between-strip_prefix [] k s h l n = cc
between-strip_prefix (c ∷ p) [] s h l n = ground (arith, compare.nil-cons c p)
between-strip_prefix (c ∷ p) (d ∷ k) s h l n =
    let m : less (d ∷ k) (c ∷ String.◌++◌ p s) ≡ true = rw cons-append at l in
    ground (
      arith,
      between-strip_prefix p k s,
      compare.cons-cons d c k p,
      compare.cons-cons d c k (String.◌++◌ p s),
    )

-- An app that has a row in the table of roles is among those found.
pub member-pinned_from :
    (id v : String) (m : Dict String String)
    → HasAscendingKeys m
    → Dict.get (String.◌++◌ app_prefix id) m ≡ some v
    → member id (pinned_from m) ≡ true
unfolding pinned_from member Dict.get
member-pinned_from id v Base.[] h g = cc
member-pinned_from id v (Base.◌∷◌ (k, w) m) (above, h) g =
    let own = String.◌++◌ app_prefix id in
    elim (Bool-cases (k == own)) [
      | inl same ↦ ground (
        arith,
        string_eq.same_iff k own,
        less-append app_prefix id,
        strip_prefix-append app_prefix id,
        string_eq.same_iff id id,
      )
      | inr other ↦ ground (
        arith,
        member-pinned_from id v m h,
        KeysAbove-get k own v m above,
        between-strip_prefix app_prefix k id,
      )
    ]
