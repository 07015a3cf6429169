-- ===== src/Pool/Capacity.antt =====
-- Capacity and CalculateCapacity of pkg/pool/accounting.go.
pub mod Exact
pub mod Admission
use scaleway_file_storage_su.Prelude.{ℕ, ◌+◌, ◌-◌, max, List, [], ◌∷◌, ltb, ◌==◌, if◌then◌else◌}
use scaleway_file_storage_su.Prelude.Results.{Result, ok, reject, ◌>>=◌, ◌>>◌}
use scaleway_file_storage_su.Prelude.Words.{u64, max_uint64}
use scaleway_file_storage_su.Pool.Errors.{
  PoolError, zero_observed_size, percent_out_of_range, sum_allocations_overflow,
}
use scaleway_file_storage_su.Pool.Ratio.{Ratio, validate}
use scaleway_file_storage_su.Pool.Arithmetic.{ceil_percent, floor_multiply_ratio}

pub record Capacity : Type 0 where
  pub observed_size_bytes : ℕ
  pub reserve_bytes : ℕ
  pub usable_bytes : ℕ
  pub logical_capacity_bytes : ℕ
  pub logical_allocated_bytes : ℕ
  pub logical_available_bytes : ℕ

-- The loop over `allocations`, from the sum so far.
sum_allocations : ℕ → List ℕ → Result PoolError ℕ
sum_allocations allocated [] = ok allocated
sum_allocations allocated (allocation ∷ rest) = do
  reject (ltb (max_uint64 - allocated) allocation) sum_allocations_overflow
  sum_allocations (u64 (allocated + allocation)) rest

-- CalculateCapacity
unfoldable pub calculate_capacity : ℕ → ℕ → ℕ → Ratio → List ℕ → Result PoolError Capacity
unfolding sum_allocations validate
calculate_capacity observed_size min_free_bytes min_free_percent ratio allocations = do
  reject (observed_size == 0) zero_observed_size
  reject (ltb 100 min_free_percent) percent_out_of_range
  validate ratio
  percentage_reserve ← ceil_percent observed_size min_free_percent
  let reserve = max min_free_bytes percentage_reserve
  let usable = if ltb reserve observed_size then observed_size - reserve else 0
  logical_capacity ← floor_multiply_ratio usable ratio
  allocated ← sum_allocations 0 allocations
  let available = if ltb allocated logical_capacity then logical_capacity - allocated else 0
  ok (record {
    observed_size_bytes = observed_size;
    reserve_bytes = reserve;
    usable_bytes = usable;
    logical_capacity_bytes = logical_capacity;
    logical_allocated_bytes = allocated;
    logical_available_bytes = available;
  })
