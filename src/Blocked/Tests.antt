-- ===== src/Blocked/Tests.antt =====
-- The log of peers that were turned away, at a concrete input.
use mbrc_plugin.Base.{ℕ, zero, suc, ◌≡◌, List, [], ◌∷◌, take}
use mbrc_plugin.Registry.{v4}
use mbrc_plugin.Blocked.{BlockedConnection, per_ip_cap, record_all, onto, record_all-newest}

abbrev from_port : ℕ → BlockedConnection
from_port port = record { unix_ms = port; ip = v4 7; port = port; reason = per_ip_cap }

abbrev turned_away : (count : ℕ) → List BlockedConnection
turned_away zero = []
turned_away (suc n) = from_port n ∷ turned_away n

-- Two more than fit.
record_all-newest_example : record_all (turned_away 52) [] ≡ take 50 (onto (turned_away 52) [])
record_all-newest_example = record_all-newest (turned_away 52)
