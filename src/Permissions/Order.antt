-- ===== src/Permissions/Order.antt =====
-- The roles form a ladder: what a lower role may do, a higher one may do too.
use mbrc_plugin.Base.{ℕ, ◌≤◌, ◌≡◌, refl, true, arith}
use mbrc_plugin.Permissions.{Role, host, dj, guest, listener, Action, read, change, queue, permits}

-- The standing of a role, from the listener up to the host.
abbrev pub rank : Role → ℕ
rank listener = 0
rank guest = 1
rank dj = 2
rank host = 3

-- Whatever a role may do, every role of at least its rank may do, for every action.
pub permits_mono :
    (r s : Role) (a : Action) → rank r ≤ rank s → permits r a ≡ true → permits s a ≡ true
unfolding permits
permits_mono r s read h p = refl
permits_mono listener s (change c) h p = cc
permits_mono guest s (change c) h p = ground arith
permits_mono dj s (change c) h p = ground arith
permits_mono host s (change c) h p = ground arith
permits_mono r s (queue c t) h p = ground arith
