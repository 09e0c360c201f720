-- ===== src/Examples/Arithmetic.antt =====
-- Stamps and durations, on numbers.
use mongoqueue.Base.Int.{pos, ◌<ℤ◌, quot, ◌+ℤ◌, ◌*ℤ◌, ◌-ℤ◌}
use mongoqueue.Base.{refl, ℕ, ◌≡◌, arith, ◌*◌, ◌≤◌, ◌<◌, ◌+◌}
use mongoqueue.VTime.Exact.{
  Stamps, exact_stamp, next_vstamp-Stamps, stride_share, next_vstamp-increasing,
}
use mongoqueue.VTime.{max_cost, next_vstamp, stride, max_cost}
use mongoqueue.Opts.Valid.{NormalizeOutcome, normalize-NormalizeOutcome}
use mongoqueue.Duration.{duration_millis, duration_millis_ceil}
use mongoqueue.Examples.{mail_opts}
use mongoqueue.Opts.{normalize}
use mongoqueue.Base.Int64.{signed, residue, IsInt64, add64, sub64, mul64, quot64, to_int64}

next_vstamp-Stamps_example :
    Stamps (exact_stamp 1_000 3 2) (next_vstamp (pos 1_000) (pos 3) (pos 2))
next_vstamp-Stamps_example = next_vstamp-Stamps 1_000 3 2 (omega arith) (omega arith)

next_vstamp-increasing_example : (pos 1_000 <ℤ pos 2_500) × IsInt64 (pos 2_500)
unfolding next_vstamp stride max_cost add64 sub64 mul64 quot64 to_int64 signed residue quot ◌+ℤ◌
    ◌*ℤ◌ ◌-ℤ◌
next_vstamp-increasing_example =
    next_vstamp-increasing (pos 1_000) (pos 3) (pos 2) (omega arith) refl

stride_share_example :
    (s : ℕ) × (stride (pos 7) (pos 3) ≡ pos s) × (s * 3 ≤ 7 * 1_000) × (7 * 1_000 < s * 3 + 3)
stride_share_example = stride_share 7 3 (omega arith) (omega arith) (omega arith)

duration_millis_ceil_example :
    (m : ℕ) × (duration_millis (pos 1_500_000) ≡ pos m)
    × (1_500_000 ≤ m * 1_000_000)
    × (m * 1_000_000 < 1_500_000 + 1_000_000)
duration_millis_ceil_example = duration_millis_ceil 1_500_000 (omega arith)

normalize-NormalizeOutcome_example : NormalizeOutcome mail_opts (normalize mail_opts)
normalize-NormalizeOutcome_example = normalize-NormalizeOutcome mail_opts
