-- ===== src/UpdateState/Due.antt =====
-- How long the updater waits after checks that failed.
use mbrc_plugin.Base.{
  ℕ, zero, suc, ◌+◌, ◌-◌, ◌*◌, ◌^◌, min, ◌≤◌, ◌<◌, true, ◌≡◌, ◌↔◌, ◌⊎◌, some, arith, nat_eq,
}
use mbrc_plugin.UpdateState.{UpdateState, wait, is_due, record_failure}

one_le_pow : (n : ℕ) → 1 ≤ 2 ^ n
one_le_pow zero = omega arith
one_le_pow (suc n) = omega (arith, one_le_pow n)

pow_mono : (a b : ℕ) → a ≤ b → 2 ^ a ≤ 2 ^ b
pow_mono zero b h = omega (arith, one_le_pow b)
pow_mono (suc a) zero h = ground (arith, h)
pow_mono (suc a) (suc b) h = omega (arith, pow_mono a b (omega (arith, h)))

wait_failing :
    (hours : ℕ) (s : UpdateState)
    → 1 ≤ s.consecutive_failures
    → wait hours s ≡ min (15 * 2 ^ min (s.consecutive_failures - 1) 6 * 60) (hours * 3600)
unfolding wait
wait_failing hours s h = ground (arith, h)

failed_wait :
    (hours now : ℕ) (s : UpdateState)
    → wait hours (record_failure now s)
      ≡ min
          (15 * 2 ^ min (min (s.consecutive_failures + 1) 4_294_967_295 - 1) 6 * 60)
          (hours * 3600)
unfolding record_failure
failed_wait hours now s =
    wait_failing hours
      (record s {
        last_check = some now;
        consecutive_failures = min (s.consecutive_failures + 1) 4_294_967_295;
      })
      (omega arith)

-- After failures the wait is never longer than the interval and, unless the interval is shorter, it
-- is a quarter of an hour at least and sixteen hours at most; one more failure never shortens it.
pub wait-record_failure :
    (hours now : ℕ) (s : UpdateState)
    → 1 ≤ s.consecutive_failures
    → (wait hours s ≤ hours * 3600)
      × (min 900 (hours * 3600) ≤ wait hours s)
      × (wait hours s ≤ 57_600)
      × (wait hours s ≤ wait hours (record_failure now s))
wait-record_failure hours now s h =
    let n = s.consecutive_failures in
    let d = min (n - 1) 6 in
    let later = min (min (n + 1) 4_294_967_295 - 1) 6 in
    let now_wait = wait_failing hours s h in
    let later_wait : wait hours (record_failure now s) ≡ min (15 * 2 ^ later * 60) (hours * 3600) =
      failed_wait hours now s in
    let low = one_le_pow d in
    let high : 2 ^ d ≤ 64 = pow_mono d 6 (omega arith) in
    let more = pow_mono d later (omega arith) in
    (
      omega (arith, now_wait),
      omega (arith, now_wait, low),
      omega (arith, now_wait, high),
      omega (arith, now_wait, later_wait, more),
    )

-- Straight after a check at `now` that failed, a check is due exactly when that wait is over, and
-- a clock that was put back makes one due at once.
pub is_due-record_failure :
    (hours now then' : ℕ) (s : UpdateState)
    → (is_due then' hours (record_failure now s) ≡ true)
      ↔ ((then' < now) ⊎ (now + wait hours (record_failure now s) ≤ then'))
unfolding is_due record_failure
is_due-record_failure hours now then' s = ground arith
