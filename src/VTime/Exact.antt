-- ===== src/VTime/Exact.antt =====
-- The int64 arithmetic of vtime.go against arithmetic without a bound.
use mongoqueue.Base.{
  ℕ, ◌+◌, ◌*◌, ◌/◌, ◌<◌, ◌^◌, max, ◌≡◌, arith, ok, Option, Result, ◌-◌, if◌then◌else◌, some, ltb,
  none, err, ◌&&◌, Option-cases, ◌≤◌, inl, inr, ◌∙◌, ap,
}
use mongoqueue.Base.Int.{pos, quot, ℤ, ◌<ℤ◌, ◌+ℤ◌, max_ℤ, ◌≤ℤ◌, negsuc, neg_part}
use mongoqueue.VTime.{max_cost, stride, next_vstamp, scale}
use mongoqueue.Base.Int64.{
  mul64_pos, sub64_pos, quot64_pos, add64_pos, IsInt64, quot64, add64, to_int64-eq_self, to_int64,
  mul64, to_int64-IsInt64,
}
use mongoqueue.Errors.{Error, cause, vtime_overflow}
use native.Mathlib.Nat.{le-div_iff_mul-le, div-mul-le_self, lt-div-mul-add}

-- The stride over unbounded numbers.
abbrev pub exact_stride : ℕ → ℕ → ℕ
exact_stride c w = max 1 (c * 1_000 / w)

-- In the range that `next_vstamp` admits, no intermediate result wraps.
pub stride-eq-exact_stride :
    (c w : ℕ) → c * 1_000 < 2 ^ 63 → stride (pos c) (pos w) ≡ pos (exact_stride c w)
unfolding stride
stride-eq-exact_stride c w h = rw (mul64_pos c 1_000 h, quot64_pos (c * 1_000) w h) (ground arith)

-- The stamp over unbounded numbers, with no result where it does not fit in an int64.
abbrev pub exact_stamp : ℕ → ℕ → ℕ → Option ℕ
exact_stamp v c w =
    if ltb (c * 1_000) (2 ^ 63) && ltb (v + exact_stride c w) (2 ^ 63)
    then some (v + exact_stride c w)
    else none

-- A result is that of the specification, and an error is the overflow error where it has none.
abbrev pub Stamps : Option ℕ → Result Error ℤ → Type 0
Stamps (some s) (ok t) = t ≡ pos s
Stamps (some s) (err e) = ⊥
Stamps none (ok t) = ⊥
Stamps none (err e) = cause e ≡ vtime_overflow

next_vstamp-some :
    (v c w : ℕ)
    → c * 1_000 < 2 ^ 63
    → v + exact_stride c w < 2 ^ 63
    → next_vstamp (pos v) (pos c) (pos w) ≡ ok (pos (v + exact_stride c w))
unfolding next_vstamp max_cost quot
next_vstamp-some v c w h q = ground (
  arith,
  stride-eq-exact_stride c w h,
  sub64_pos (2 ^ 63 - 1) (exact_stride c w),
  add64_pos v (exact_stride c w),
)

next_vstamp-none :
    (v c w : ℕ)
    → v < 2 ^ 63
    → exact_stamp v c w ≡ none
    → Stamps none (next_vstamp (pos v) (pos c) (pos w))
unfolding next_vstamp max_cost quot cause
next_vstamp-none v c w p q =
    ground (arith, stride-eq-exact_stride c w, sub64_pos (2 ^ 63 - 1) (exact_stride c w))

-- For a weight w >= 1, any cost c and a clock v below 2^63, all natural numbers, the next stamp is
-- v + max 1 (c * 1000 / w) over the unbounded numbers if c * 1000 and the sum fit in an int64, and
-- otherwise the call returns an error that wraps ErrVTimeOverflow.
pub next_vstamp-Stamps :
    (v c w : ℕ)
    → v < 2 ^ 63
    → 0 < w
    → Stamps (exact_stamp v c w) (next_vstamp (pos v) (pos c) (pos w))
next_vstamp-Stamps v c w p _ = elim (Option-cases (exact_stamp v c w)) [
  | inl e ↦ rw e (next_vstamp-none v c w p e)
  | inr (s, e) ↦ ground (arith, next_vstamp-some v c w)
]

-- Whatever its arguments, a stride is between 1 and the largest int64.
stride_bounds : (c w : ℤ) → (n : ℕ) × (stride c w ≡ pos n) × (0 < n) × (n < 2 ^ 63)
unfolding stride quot64
stride_bounds c w =
    go (to_int64 (quot (mul64 c scale) w)) (to_int64-IsInt64 (quot (mul64 c scale) w))
  where
    go : (q : ℤ) → IsInt64 q → (n : ℕ) × (max_ℤ (pos 1) q ≡ pos n) × (0 < n) × (n < 2 ^ 63)
    go (pos n) h = (max 1 n, ground arith, omega arith, omega arith)
    go (negsuc n) h = (1, ground arith, omega arith, omega arith)

add64-eq-add :
    (v : ℤ) (n : ℕ)
    → neg_part v ≤ 2 ^ 63
    → v ≤ℤ pos (2 ^ 63 - 1 - n)
    → n < 2 ^ 63
    → add64 v (pos n) ≡ v +ℤ pos n
unfolding add64 ◌+ℤ◌
add64-eq-add (pos m) n p h q = to_int64-eq_self _ (ground arith)
add64-eq-add (negsuc m) n p h q = to_int64-eq_self _ (ground arith)

stamp_bounds :
    (v : ℤ) (n : ℕ)
    → neg_part v ≤ 2 ^ 63
    → v ≤ℤ pos (2 ^ 63 - 1 - n)
    → 0 < n
    → n < 2 ^ 63
    → (v <ℤ (v +ℤ pos n)) × IsInt64 (v +ℤ pos n)
unfolding ◌+ℤ◌
stamp_bounds (pos m) n p h q r = ground arith
stamp_bounds (negsuc m) n p h q r = ground arith

-- A stamp is an int64 later than the clock that it was computed from, for every cost, every weight
-- and every clock that is no smaller than the least int64.
pub next_vstamp-increasing :
    (v c w : ℤ) {s : ℤ} → neg_part v ≤ 2 ^ 63 → next_vstamp v c w ≡ ok s → (v <ℤ s) × IsInt64 s
unfolding next_vstamp max_cost
next_vstamp-increasing v c w {s} p e = go (stride_bounds c w)
  where
    go : (n : ℕ) × (stride c w ≡ pos n) × (0 < n) × (n < 2 ^ 63) → (v <ℤ s) × IsInt64 s
    go (n, es, lo, hi) =
        ground (arith, sub64_pos (2 ^ 63 - 1) n, add64-eq-add v n, stamp_bounds v n)

-- For cost * 1000 below 2^63 and a weight that is positive and at most cost * 1000, the stride
-- never charges a tenant for more than cost / weight, and undercharges by less than one unit of 1
-- / 1000.
pub stride_share :
    (c w : ℕ)
    → c * 1_000 < 2 ^ 63
    → 0 < w
    → w ≤ c * 1_000
    → (s : ℕ) × (stride (pos c) (pos w) ≡ pos s) × (s * w ≤ c * 1_000) × (c * 1_000 < s * w + w)
stride_share c w h p le = (
  c * 1_000 / w,
  stride-eq-exact_stride c w h ∙ ap pos (omega (arith, at_least_one)),
  div-mul-le_self (c * 1_000) w,
  lt-div-mul-add p,
)
  where
    at_least_one : 1 ≤ c * 1_000 / w
    at_least_one = (le-div_iff_mul-le p).1 (omega arith)
