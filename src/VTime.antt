-- ===== src/VTime.antt =====
-- vtime.go: the stride of one enqueue and the next stamp of a timeline, in int64 arithmetic.
pub mod Exact
use mongoqueue.Base.{if◌then◌else◌, Result, ok, err}
use mongoqueue.Base.Int.{ℤ, pos, quot, ltb_ℤ, eqb_ℤ, max_ℤ}
use mongoqueue.Base.Int64.{max_int64, add64, sub64, mul64, quot64}
use mongoqueue.Errors.{Error, wrapped, vtime_overflow, invalid_weight}

abbrev pub scale : ℤ
scale = pos 1_000

-- A constant expression, which Go evaluates exactly.
unfoldable pub max_cost : ℤ
unfolding quot
max_cost = quot max_int64 scale

unfoldable pub stride : ℤ → ℤ → ℤ
stride cost weight = max_ℤ (pos 1) (quot64 (mul64 cost scale) weight)

unfoldable pub next_vstamp : ℤ → ℤ → ℤ → Result Error ℤ
next_vstamp vtime cost weight =
    if ltb_ℤ max_cost cost
    then err (wrapped "cost exceeds the largest" vtime_overflow)
    else let s = stride cost weight in
      if ltb_ℤ (sub64 max_int64 s) vtime
      then err (wrapped "vtime + stride" vtime_overflow)
      else ok (add64 vtime s)

unfoldable pub normalize_cost : ℤ → ℤ
normalize_cost cost = max_ℤ (pos 1) cost

unfoldable pub normalize_weight : ℤ → Result Error ℤ
normalize_weight weight =
    if eqb_ℤ weight (pos 0)
    then ok (pos 1)
    else if ltb_ℤ weight (pos 0)
    then err invalid_weight
    else ok weight
