-- ===== src/Pool/StatFs/Safety.antt =====
-- What a physical-space check promises, and exactly when it refuses.
use scaleway_file_storage_su.Prelude.{
  ℕ, ◌+◌, ◌-◌, ◌*◌, ◌/◌, ◌<◌, ◌≤◌, ◌≡◌, max, ◌||◌, ltb, leb, ◌==◌, if◌then◌else◌, arith,
}
use scaleway_file_storage_su.Prelude.Results.{Result, ok, err}
use scaleway_file_storage_su.Prelude.Words.{word, max_uint64}
use scaleway_file_storage_su.Pool.Errors.{
  PoolError, invalid_block_size, invalid_block_count, invalid_observed_size, percent_out_of_range,
  invalid_block_product, invalid_available, request_exceeds_available, below_safety_threshold,
}
use scaleway_file_storage_su.Pool.Arithmetic.Exact.{percent_up, ceil_percent_lem}
use scaleway_file_storage_su.Pool.StatFs.{
  StatFsSample, PhysicalSpace, measure_physical_space, check_physical_space, to_uint64, is_negative,
  is_zero,
}

-- The bytes that must stay free.
abbrev pub threshold : ℕ → ℕ → ℕ → ℕ
threshold observed min_free percent = max min_free (percent_up observed percent)

-- The bytes that a sample reports, as an exact product.
abbrev pub free_bytes : StatFsSample → ℕ
free_bytes sample = to_uint64 sample.available_blocks * to_uint64 sample.block_size_bytes

fits-product : (blocks size : ℕ) → 0 < blocks → size ≤ max_uint64 / blocks → blocks * size < word
fits-product blocks size h k = grind arith

product-overflows :
    (blocks size : ℕ) → 0 < blocks → max_uint64 / blocks < size → word ≤ blocks * size
product-overflows blocks size h k = grind arith

-- The check over unbounded numbers.
abbrev pub exact_check : StatFsSample → ℕ → ℕ → ℕ → ℕ → Result PoolError PhysicalSpace
exact_check sample observed requested min_free percent =
    if is_negative sample.block_size_bytes || is_zero sample.block_size_bytes
    then err invalid_block_size
    else if is_negative sample.available_blocks
    then err invalid_block_count
    else if observed == 0
    then err invalid_observed_size
    else if ltb 100 percent
    then err percent_out_of_range
    else if leb word (free_bytes sample)
    then err invalid_block_product
    else if ltb observed (free_bytes sample)
    then err invalid_available
    else if ltb (free_bytes sample) requested
    then err request_exceeds_available
    else if ltb (free_bytes sample - requested) (threshold observed min_free percent)
    then err below_safety_threshold
    else ok (record {
      actual_available_bytes = free_bytes sample;
      physical_safety_threshold_bytes = threshold observed min_free percent;
      post_request_available_bytes = free_bytes sample - requested;
      observed_at = sample.observed_at;
    })

measure_physical_space_lem :
    (sample : StatFsSample) (observed min_free percent : ℕ)
    → observed < word
    → measure_physical_space sample observed min_free percent ≡ (
        if is_negative sample.block_size_bytes || is_zero sample.block_size_bytes
        then err invalid_block_size
        else if is_negative sample.available_blocks
        then err invalid_block_count
        else if observed == 0
        then err invalid_observed_size
        else if ltb 100 percent
        then err percent_out_of_range
        else if leb word (free_bytes sample)
        then err invalid_block_product
        else if ltb observed (free_bytes sample)
        then err invalid_available
        else ok (record {
          actual_available_bytes = free_bytes sample;
          physical_safety_threshold_bytes = threshold observed min_free percent;
          post_request_available_bytes = free_bytes sample;
          observed_at = sample.observed_at;
        }))
unfolding measure_physical_space
measure_physical_space_lem sample observed min_free percent bounded = ground (
  arith,
  ceil_percent_lem observed percent bounded,
  fits-product (to_uint64 sample.available_blocks) (to_uint64 sample.block_size_bytes),
  product-overflows (to_uint64 sample.available_blocks) (to_uint64 sample.block_size_bytes),
)

-- For a 64-bit observed size CheckPhysicalSpace decides by the exact number of free bytes, the
-- product of the sample's two numbers: it refuses a block size that is not positive, a negative
-- block count, a zero size, a percentage above 100, a product that does not fit in 64 bits or
-- exceeds the size, a request above the free bytes, and one that would leave less than the
-- threshold, each with its own error; otherwise it returns the exact figures.
pub check_physical_space_lem :
    (sample : StatFsSample) (observed requested min_free percent : ℕ)
    → observed < word
    → check_physical_space sample observed requested min_free percent
      ≡ exact_check sample observed requested min_free percent
unfolding check_physical_space
check_physical_space_lem sample observed requested min_free percent bounded =
    ground (arith, measure_physical_space_lem sample observed min_free percent bounded)

-- A check that succeeds leaves the safety threshold free: the requested bytes and the bytes left
-- make up the exact free bytes, which are within the observed size.
pub check_physical_space-safe :
    (sample : StatFsSample) (observed requested min_free percent : ℕ) {space : PhysicalSpace}
    → observed < word
    → check_physical_space sample observed requested min_free percent ≡ ok space
    → (space.post_request_available_bytes + requested ≡ free_bytes sample)
      × (free_bytes sample ≤ observed)
      × (threshold observed min_free percent ≤ space.post_request_available_bytes)
check_physical_space-safe sample observed requested min_free percent bounded e =
    ground (arith, check_physical_space_lem sample observed requested min_free percent bounded)
