-- ===== src/Pool/Arithmetic.antt =====
-- The overflow-checked helpers of pkg/pool/accounting.go and the two operations of math/bits that
-- they call. Every uint64 operation writes its wrap-around out.
pub mod Exact
use scaleway_file_storage_su.Prelude.{
  ℕ, ◌+◌, ◌-◌, ◌*◌, ◌/◌, ◌%◌, not, ltb, leb, ◌==◌, if◌then◌else◌,
}
use scaleway_file_storage_su.Prelude.Results.{Result, ok, reject, ◌>>=◌, ◌>>◌}
use scaleway_file_storage_su.Prelude.Words.{u64, word, max_uint64}
use scaleway_file_storage_su.Pool.Errors.{
  PoolError, percent_out_of_range, percentage_reserve_overflow, logical_capacity_overflow,
}
use scaleway_file_storage_su.Pool.Ratio.{Ratio}

-- ceilPercent
unfoldable pub ceil_percent : ℕ → ℕ → Result PoolError ℕ
ceil_percent value percent = do
  reject (ltb 100 percent) percent_out_of_range
  let whole = value / 100
  let remainder = value % 100
  let first = u64 (whole * percent)
  let partial = u64 (remainder * percent)
  let second = if not (partial % 100 == 0) then u64 (partial / 100 + 1) else partial / 100
  reject (ltb (max_uint64 - second) first) percentage_reserve_overflow
  ok (u64 (first + second))

-- bits.Mul64: the high and the low word of a product.
abbrev pub mul64_high : ℕ → ℕ → ℕ
mul64_high x y = (x * y) / word

abbrev pub mul64_low : ℕ → ℕ → ℕ
mul64_low x y = (x * y) % word

-- bits.Div64, the quotient of a double word; the source calls it only for `high < divisor`,
-- where it does not panic.
abbrev pub div64 : ℕ → ℕ → ℕ → ℕ
div64 high low divisor = (high * word + low) / divisor

-- floorMultiplyRatio
unfoldable pub floor_multiply_ratio : ℕ → Ratio → Result PoolError ℕ
floor_multiply_ratio value ratio = do
  let high = mul64_high value ratio.numerator
  let low = mul64_low value ratio.numerator
  reject (leb ratio.denominator high) logical_capacity_overflow
  ok (div64 high low ratio.denominator)
