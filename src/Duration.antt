-- ===== src/Duration.antt =====
-- duration.go: a time.Duration, in nanoseconds, as whole milliseconds.
use mongoqueue.Base.{ℕ, ◌+◌, ◌*◌, ◌/◌, ◌≤◌, ◌<◌, ◌^◌, arith, if◌then◌else◌, not, ◌≡◌}
use mongoqueue.Base.Int.{ℤ, pos, eqb_ℤ, quot, rem, ◌+ℤ◌}
use mongoqueue.Base.Int64.{add64, quot64, rem64, to_int64}

abbrev pub millisecond : ℤ
millisecond = pos 1_000_000

unfoldable pub duration_millis : ℤ → ℤ
duration_millis d =
    let ms = quot64 d millisecond in
    if not (eqb_ℤ (rem64 d millisecond) (pos 0)) then add64 ms (pos 1) else ms

-- A duration of n nanoseconds, n below 2^63, becomes the least number of milliseconds that covers
-- it.
pub duration_millis_ceil :
    (n : ℕ)
    → n < 2 ^ 63
    → (m : ℕ) × (duration_millis (pos n) ≡ pos m)
      × (n ≤ m * 1_000_000)
      × (m * 1_000_000 < n + 1_000_000)
unfolding duration_millis quot64 rem64 add64 to_int64 quot rem ◌+ℤ◌
duration_millis_ceil n h = ((n + 999_999) / 1_000_000, ground arith, omega arith, omega arith)
