-- ===== src/Pool/Capacity/Exact.antt =====
-- CalculateCapacity against the reserve and overcommit formula over unbounded numbers.
use scaleway_file_storage_su.Prelude.{
  ℕ, ◌+◌, ◌-◌, ◌*◌, ◌/◌, ◌<◌, ◌≡◌, max, ◌||◌, List, [], ◌∷◌, ltb, leb, ◌==◌, if◌then◌else◌, sum,
  arith,
}
use scaleway_file_storage_su.Prelude.Results.{Result, ok, err}
use scaleway_file_storage_su.Prelude.Words.{word}
use scaleway_file_storage_su.Pool.Errors.{
  PoolError, zero_observed_size, percent_out_of_range, sum_allocations_overflow, ratio_not_positive,
  logical_capacity_overflow,
}
use scaleway_file_storage_su.Pool.Ratio.{Ratio}
use scaleway_file_storage_su.Pool.Arithmetic.Exact.{
  percent_up, ceil_percent_lem, floor_multiply_ratio_lem,
}
use scaleway_file_storage_su.Pool.Capacity.{Capacity, sum_allocations, calculate_capacity}

-- The reserve and overcommit formula, with exact numbers and a subtraction that stops at 0.
abbrev pub exact_capacity : ℕ → ℕ → ℕ → Ratio → List ℕ → Capacity
exact_capacity observed min_free percent ratio allocations = record {
  observed_size_bytes = observed;
  reserve_bytes = max min_free (percent_up observed percent);
  usable_bytes = observed - max min_free (percent_up observed percent);
  logical_capacity_bytes =
      (observed - max min_free (percent_up observed percent)) * ratio.numerator / ratio.denominator;
  logical_allocated_bytes = sum allocations;
  logical_available_bytes =
      (observed - max min_free (percent_up observed percent)) * ratio.numerator / ratio.denominator
      - sum allocations;
}

sum_allocations_lem :
    (allocated : ℕ) (allocations : List ℕ)
    → allocated < word
    → sum_allocations allocated allocations ≡ (
        if ltb (allocated + sum allocations) word
        then ok (allocated + sum allocations)
        else err sum_allocations_overflow)
unfolding sum_allocations
sum_allocations_lem allocated [] h = ground arith
sum_allocations_lem allocated (a ∷ rest) h =
    ground (arith, sum_allocations_lem (allocated + a) rest)

-- The formula as the code's ladder of checks.
abbrev pub checked_capacity : ℕ → ℕ → ℕ → Ratio → List ℕ → Result PoolError Capacity
checked_capacity observed min_free percent ratio allocations =
    let c = exact_capacity observed min_free percent ratio allocations in
    if observed == 0
    then err zero_observed_size
    else if ltb 100 percent
    then err percent_out_of_range
    else if ratio.numerator == 0 || ratio.denominator == 0
    then err ratio_not_positive
    else if leb word c.logical_capacity_bytes
    then err logical_capacity_overflow
    else if leb word c.logical_allocated_bytes
    then err sum_allocations_overflow
    else ok c

-- For a 64-bit observed size CalculateCapacity is the exact formula behind five checks: a zero size, a
-- percentage above 100, a ratio that is not positive, a capacity and a sum that do not fit in 64
-- bits are each refused with their own error, in this order, and nothing else is.
pub calculate_capacity_lem :
    (observed min_free percent : ℕ) (ratio : Ratio) (allocations : List ℕ)
    → observed < word
    → calculate_capacity observed min_free percent ratio allocations
      ≡ checked_capacity observed min_free percent ratio allocations
unfolding calculate_capacity
calculate_capacity_lem observed min_free percent ratio allocations h = ground (
  arith,
  ceil_percent_lem observed percent h,
  floor_multiply_ratio_lem (observed - max min_free (percent_up observed percent)) ratio,
  sum_allocations_lem 0 allocations,
)
