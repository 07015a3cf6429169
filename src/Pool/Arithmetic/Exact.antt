-- ===== src/Pool/Arithmetic/Exact.antt =====
-- The checked helpers compute the exact rational results, and the checks reject exactly the results
-- that do not fit in 64 bits.
use scaleway_file_storage_su.Prelude.{
  ℕ, ◌+◌, ◌*◌, ◌/◌, ◌%◌, ◌<◌, ◌≤◌, ◌≡◌, ap, arith, ltb, if◌then◌else◌,
}
use scaleway_file_storage_su.Prelude.Results.{ok, err}
use scaleway_file_storage_su.Prelude.Words.{word}
use scaleway_file_storage_su.Pool.Errors.{logical_capacity_overflow}
use scaleway_file_storage_su.Pool.Ratio.{Ratio}
use scaleway_file_storage_su.Pool.Arithmetic.{ceil_percent, floor_multiply_ratio}

-- The reserve percentage: the least number of bytes that is at least percent/100 of the value.
abbrev pub percent_up : ℕ → ℕ → ℕ
percent_up value percent = (value * percent + 99) / 100

pub percent_up-le : (value percent : ℕ) → percent ≤ 100 → percent_up value percent ≤ value
percent_up-le value percent h = grind arith

-- The split of the value into hundreds changes nothing.
split_percent :
    (value percent : ℕ) → value / 100 * percent * 100 + value % 100 * percent ≡ value * percent
split_percent value percent = omega (arith, ap (λ (t : ℕ). t * percent) (parts value))
  where
    parts : (v : ℕ) → v / 100 * 100 + v % 100 ≡ v
    parts v = omega arith

mul-le-mul_right : (a b c : ℕ) → b ≤ c → a * b ≤ a * c
mul-le-mul_right a b c h = grind arith

-- ceilPercent is exact for every 64-bit value and every percentage, so its overflow check never
-- fires.
pub ceil_percent_lem :
    (value percent : ℕ)
    → value < word
    → percent ≤ 100
    → ceil_percent value percent ≡ ok (percent_up value percent)
unfolding ceil_percent
ceil_percent_lem value percent hv hp = ground (
  arith,
  split_percent value percent,
  mul-le-mul_right (value / 100) percent 100 hp,
  mul-le-mul_right (value % 100) percent 100 hp,
)

high-lt : (p d : ℕ) → 0 < d → p / d < word → p / word < d
high-lt p d hd h = grind arith

le-high : (p d : ℕ) → 0 < d → word ≤ p / d → d ≤ p / word
le-high p d hd h = grind arith

whole_again : (p : ℕ) → p / word * word + p % word ≡ p
whole_again p = omega arith

floor_multiply_ratio_ok :
    (value : ℕ) (ratio : Ratio)
    → 0 < ratio.denominator
    → value * ratio.numerator / ratio.denominator < word
    → floor_multiply_ratio value ratio ≡ ok (value * ratio.numerator / ratio.denominator)
unfolding floor_multiply_ratio
floor_multiply_ratio_ok value ratio hd h =
    rw (whole_again (value * ratio.numerator))
      (ground (arith, high-lt (value * ratio.numerator) ratio.denominator hd h))

floor_multiply_ratio_overflow :
    (value : ℕ) (ratio : Ratio)
    → 0 < ratio.denominator
    → word ≤ value * ratio.numerator / ratio.denominator
    → floor_multiply_ratio value ratio ≡ err logical_capacity_overflow
unfolding floor_multiply_ratio
floor_multiply_ratio_overflow value ratio hd h =
    ground (arith, le-high (value * ratio.numerator) ratio.denominator hd h)

-- floorMultiplyRatio is the exact floor of the rational product where that fits in 64 bits, and the
-- overflow error exactly where it does not.
pub floor_multiply_ratio_lem :
    (value : ℕ) (ratio : Ratio)
    → 0 < ratio.denominator
    → floor_multiply_ratio value ratio ≡ (
        if ltb (value * ratio.numerator / ratio.denominator) word
        then ok (value * ratio.numerator / ratio.denominator)
        else err logical_capacity_overflow)
floor_multiply_ratio_lem value ratio hd =
    ground
      (arith, floor_multiply_ratio_ok value ratio hd, floor_multiply_ratio_overflow value ratio hd)
