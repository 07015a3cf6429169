-- ===== src/Pool/StatFs.antt =====
-- StatFSSample, PhysicalSpace, MeasurePhysicalSpace and CheckPhysicalSpace of
-- pkg/pool/accounting.go. An instant is its number of nanoseconds; 0 is Go's zero time.
pub mod Safety
use scaleway_file_storage_su.Prelude.{
  ℕ, suc, ◌-◌, ◌*◌, ◌/◌, max, Bool, true, false, not, ◌&&◌, ◌||◌, ltb, ◌==◌,
}
use scaleway_file_storage_su.Prelude.Results.{Result, ok, reject, ◌>>=◌, ◌>>◌}
use scaleway_file_storage_su.Prelude.Words.{ℤ, pos, negsuc, u64, word, max_uint64}
use scaleway_file_storage_su.Pool.Errors.{
  PoolError, invalid_block_size, invalid_block_count, invalid_observed_size, percent_out_of_range,
  invalid_block_product, invalid_available, request_exceeds_available, below_safety_threshold,
}
use scaleway_file_storage_su.Pool.Arithmetic.{ceil_percent}

pub record StatFsSample : Type 0 where
  pub block_size_bytes : ℤ
  pub available_blocks : ℤ
  pub observed_at : ℕ

pub record PhysicalSpace : Type 0 where
  pub actual_available_bytes : ℕ
  pub physical_safety_threshold_bytes : ℕ
  pub post_request_available_bytes : ℕ
  pub observed_at : ℕ

abbrev pub is_negative : ℤ → Bool
is_negative (pos n) = false
is_negative (negsuc n) = true

abbrev pub is_zero : ℤ → Bool
is_zero (pos n) = n == 0
is_zero (negsuc n) = false

-- uint64(x) of an int64
abbrev pub to_uint64 : ℤ → ℕ
to_uint64 (pos n) = n
to_uint64 (negsuc n) = word - suc n

-- MeasurePhysicalSpace
unfoldable pub measure_physical_space : StatFsSample → ℕ → ℕ → ℕ → Result PoolError PhysicalSpace
measure_physical_space sample observed_size min_free_bytes min_free_percent = do
  reject (is_negative sample.block_size_bytes || is_zero sample.block_size_bytes) invalid_block_size
  reject (is_negative sample.available_blocks) invalid_block_count
  reject (observed_size == 0) invalid_observed_size
  reject (ltb 100 min_free_percent) percent_out_of_range
  let block_size = to_uint64 sample.block_size_bytes
  let available_blocks = to_uint64 sample.available_blocks
  reject (not (available_blocks == 0) && ltb (max_uint64 / available_blocks) block_size)
      invalid_block_product
  let available = u64 (available_blocks * block_size)
  reject (ltb observed_size available) invalid_available
  percentage_threshold ← ceil_percent observed_size min_free_percent
  ok (record {
    actual_available_bytes = available;
    physical_safety_threshold_bytes = max min_free_bytes percentage_threshold;
    post_request_available_bytes = available;
    observed_at = sample.observed_at;
  })

-- CheckPhysicalSpace. The space that the source returns beside the error of the last check is read
-- by no caller, and is left out.
unfoldable pub check_physical_space : StatFsSample → ℕ → ℕ → ℕ → ℕ → Result PoolError PhysicalSpace
unfolding measure_physical_space
check_physical_space sample observed_size requested min_free_bytes min_free_percent = do
  space ← measure_physical_space sample observed_size min_free_bytes min_free_percent
  reject (ltb space.actual_available_bytes requested) request_exceeds_available
  let left = space.actual_available_bytes - requested
  reject (ltb left space.physical_safety_threshold_bytes) below_safety_threshold
  ok (record space { post_request_available_bytes = left })
