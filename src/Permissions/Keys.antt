-- ===== src/Permissions/Keys.antt =====
-- Keys name principals: the round trips of `key`, `from_key` and the role names.
use Prim.Native.String
use text.Mathlib.TextEquality.{eq_iff}
use text.Mathlib.TextLemmas.{cons-append}
use text.Mathlib.Text.{◌==◌ as str_eq}
use mbrc_plugin.Base.{
  String, ◌≡◌, ◌≢◌, ◌↔◌, refl, ap, some_inj, Option, none, some, sym, ◌∙◌, false, arith,
}
use mbrc_plugin.Base.Text.{strip_prefix, strip_prefix-append, append-strip_prefix}
use mbrc_plugin.Permissions.{Role, host, dj, guest, listener}
use mbrc_plugin.Permissions.Principal.{
  Principal, app, browser, legacy_device, anonymous, key, from_key, named, role_as_str, role_parse,
  app_prefix, browser_prefix, legacy_prefix, or_else, under, nonempty,
}

abbrev pub id_of : Principal → String
id_of (app id) = id
id_of (browser id) = id
id_of (legacy_device id) = id
id_of anonymous = ""

-- The three prefixes exclude one another.
pub browser_is_no_app :
    (id : String) → strip_prefix app_prefix (String.◌++◌ browser_prefix id) ≡ none
browser_is_no_app id = rw cons-append (unfold strip_prefix in refl)

pub legacy_is_no_app : (id : String) → strip_prefix app_prefix (String.◌++◌ legacy_prefix id) ≡ none
legacy_is_no_app id = rw cons-append (unfold strip_prefix in refl)

pub legacy_is_no_browser :
    (id : String) → strip_prefix browser_prefix (String.◌++◌ legacy_prefix id) ≡ none
legacy_is_no_browser id = rw cons-append (unfold strip_prefix in refl)

pub app_is_no_browser :
    (id : String) → strip_prefix browser_prefix (String.◌++◌ app_prefix id) ≡ none
app_is_no_browser id = rw cons-append (unfold strip_prefix in refl)

pub ruleset prefix_laws = (
  strip_prefix-append, browser_is_no_app, legacy_is_no_app, legacy_is_no_browser, app_is_no_browser,
)

-- `from_key` before the filter on empty ids.
abbrev decode : String → Option Principal
decode stored = or_else (under app (strip_prefix app_prefix stored)) (
    or_else (under browser (strip_prefix browser_prefix stored))
      (under legacy_device (strip_prefix legacy_prefix stored)))

decode-key : (p : Principal) (k : String) → key p ≡ some k → decode k ≡ some p
unfolding key
decode-key (app id) k e =
    let same : String.◌++◌ app_prefix id ≡ k = some_inj e in rw (← same) (simp prefix_laws)
decode-key (browser id) k e =
    let same : String.◌++◌ browser_prefix id ≡ k = some_inj e in rw (← same) (simp prefix_laws)
decode-key (legacy_device id) k e =
    let same : String.◌++◌ legacy_prefix id ≡ k = some_inj e in rw (← same) (simp prefix_laws)
decode-key anonymous k e = cc

not_empty : (id : String) → id ≢ "" → str_eq id "" ≡ false
not_empty id h = ground (arith, eq_iff id "")

-- A principal with a non-empty id is read back from the key its role is stored under.
pub from_key-key :
    (p : Principal) (k : String) → id_of p ≢ "" → key p ≡ some k → from_key k ≡ some p
unfolding key from_key
from_key-key (app id) k h e =
    let same : String.◌++◌ app_prefix id ≡ k = some_inj e in
    rw (← same) (simp (prefix_laws, not_empty id h))
from_key-key (browser id) k h e =
    let same : String.◌++◌ browser_prefix id ≡ k = some_inj e in
    rw (← same) (simp (prefix_laws, not_empty id h))
from_key-key (legacy_device id) k h e =
    let same : String.◌++◌ legacy_prefix id ≡ k = some_inj e in
    rw (← same) (simp (prefix_laws, not_empty id h))
from_key-key anonymous k h e = cc

named_sound : (k prefix id : String) → named k prefix ≡ some id → String.◌++◌ prefix id ≡ k
unfolding named
named_sound k prefix id h = append-strip_prefix prefix k id (unfiltered (strip_prefix prefix k) h)
  where
    unfiltered : (o : Option String) → nonempty o ≡ some id → o ≡ some id
    unfiltered none p = cc
    unfiltered (some s) p = ground arith

-- A key that names a principal is that principal's key.
pub key-from_key : (k : String) (p : Principal) → from_key k ≡ some p → key p ≡ some k
unfolding key from_key
key-from_key k (app id) e = ap some (named_sound k app_prefix id (ground arith))
key-from_key k (browser id) e = ap some (named_sound k browser_prefix id (ground arith))
key-from_key k (legacy_device id) e = ap some (named_sound k legacy_prefix id (ground arith))
key-from_key k anonymous e = ground arith

-- Two principals that hold a role under the same key are the same, so no id of one kind of client
-- reaches the role of another.
pub key_injective : (p q : Principal) (k : String) → key p ≡ some k → key q ≡ some k → p ≡ q
key_injective p q k hp hq = some_inj (sym (decode-key p k hp) ∙ decode-key q k hq)

pub role_parse-role_as_str : (r : Role) → role_parse (role_as_str r) ≡ some r
unfolding role_parse role_as_str
role_parse-role_as_str host = refl
role_parse-role_as_str dj = refl
role_parse-role_as_str guest = refl
role_parse-role_as_str listener = refl

role_parse_sound : (name : String) (r : Role) → role_parse name ≡ some r → role_as_str r ≡ name
unfolding role_parse role_as_str
role_parse_sound name r h =
    ground
      (arith, eq_iff name "host", eq_iff name "dj", eq_iff name "guest", eq_iff name "listener")

-- A role name is accepted exactly when it is the stored name of that role.
pub role_parse_iff :
    (name : String) (r : Role) → (role_parse name ≡ some r) ↔ (role_as_str r ≡ name)
role_parse_iff name r = (role_parse_sound name r, λ e. rw (← e) (role_parse-role_as_str r))
