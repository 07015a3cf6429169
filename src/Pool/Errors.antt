-- ===== src/Pool/Errors.antt =====
-- The errors of pkg/pool/accounting.go: the sentinels that callers test with errors.Is, and one
-- constructor for each plain error.
use scaleway_file_storage_su.Prelude.{Bool, true, false}

pub data PoolError : Type 0 where
  -- errors that wrap ErrArithmeticOverflow
  percentage_reserve_overflow logical_capacity_overflow sum_allocations_overflow : PoolError
  ratio_denominator_overflow : PoolError
  -- errors that wrap ErrInvalidStatFS; the product of the blocks wraps both sentinels
  invalid_block_size invalid_block_count invalid_observed_size invalid_available : PoolError
  invalid_block_product : PoolError
  -- errors that wrap ErrInsufficientPhysicalSpace
  request_exceeds_available below_safety_threshold : PoolError
  -- errors with no sentinel
  zero_observed_size percent_out_of_range ratio_not_positive : PoolError
  ratio_not_canonical ratio_not_decimal ratio_leading_zero ratio_empty_fraction : PoolError
  ratio_too_long ratio_bad_digit ratio_numerator : PoolError

-- errors.Is(err, ErrArithmeticOverflow)
abbrev pub is_arithmetic_overflow : PoolError → Bool
is_arithmetic_overflow percentage_reserve_overflow = true
is_arithmetic_overflow logical_capacity_overflow = true
is_arithmetic_overflow sum_allocations_overflow = true
is_arithmetic_overflow ratio_denominator_overflow = true
is_arithmetic_overflow invalid_block_product = true
is_arithmetic_overflow _ = false

-- errors.Is(err, ErrInvalidStatFS)
abbrev pub is_invalid_stat_fs : PoolError → Bool
is_invalid_stat_fs invalid_block_size = true
is_invalid_stat_fs invalid_block_count = true
is_invalid_stat_fs invalid_observed_size = true
is_invalid_stat_fs invalid_available = true
is_invalid_stat_fs invalid_block_product = true
is_invalid_stat_fs _ = false

-- errors.Is(err, ErrInsufficientPhysicalSpace)
abbrev pub is_insufficient_physical_space : PoolError → Bool
is_insufficient_physical_space request_exceeds_available = true
is_insufficient_physical_space below_safety_threshold = true
is_insufficient_physical_space _ = false
