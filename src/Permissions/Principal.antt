-- ===== src/Permissions/Principal.antt =====
-- Who a client is (packages/mbrc-core/src/server/permissions/roles.rs): the principals, the keys
-- that their roles are stored under, and the names of the roles.
use Prim.Native.String
use text.Mathlib.Text.{◌==◌ as str_eq}
use mbrc_plugin.Base.{String, Option, none, some, if◌then◌else◌}
use mbrc_plugin.Base.Text.{strip_prefix}
use mbrc_plugin.Permissions.{Role, host, dj, guest, listener}

abbrev pub app_prefix : String
app_prefix = "app:"

abbrev pub browser_prefix : String
browser_prefix = "browser:"

abbrev pub legacy_prefix : String
legacy_prefix = "v4:"

pub data Principal : Type 0 where
  app browser legacy_device : String → Principal
  anonymous : Principal

unfoldable pub key : Principal → Option String
key (app id) = some (String.◌++◌ app_prefix id)
key (browser id) = some (String.◌++◌ browser_prefix id)
key (legacy_device id) = some (String.◌++◌ legacy_prefix id)
key anonymous = none

-- `.filter(|id| !id.is_empty())`
abbrev pub nonempty : Option String → Option String
nonempty none = none
nonempty (some id) = if str_eq id "" then none else some id

-- The closure `named`.
unfoldable pub named : String → String → Option String
named stored prefix = nonempty (strip_prefix prefix stored)

abbrev pub or_else : Option Principal → Option Principal → Option Principal
or_else none q = q
or_else (some p) q = some p

abbrev pub under : (String → Principal) → Option String → Option Principal
under make none = none
under make (some id) = some (make id)

unfoldable pub from_key : String → Option Principal
unfolding named
from_key stored = or_else (under app (named stored app_prefix)) (
    or_else (under browser (named stored browser_prefix))
      (under legacy_device (named stored legacy_prefix)))

unfoldable pub role_as_str : Role → String
role_as_str host = "host"
role_as_str dj = "dj"
role_as_str guest = "guest"
role_as_str listener = "listener"

unfoldable pub role_parse : String → Option Role
role_parse name =
    if str_eq name "host"
    then some host
    else if str_eq name "dj"
    then some dj
    else if str_eq name "guest"
    then some guest
    else if str_eq name "listener"
    then some listener
    else none
