-- ===== src/Pool/Capacity/Admission.antt =====
-- One more allocation of at most the available bytes: what placement relies on.
use scaleway_file_storage_su.Prelude.{
  ℕ, ◌+◌, ◌-◌, ◌<◌, ◌≤◌, ◌≡◌, List, [], ◌∷◌, ◌++◌, sum-append, arith,
}
use scaleway_file_storage_su.Prelude.Results.{ok}
use scaleway_file_storage_su.Prelude.Words.{word}
use scaleway_file_storage_su.Pool.Ratio.{Ratio}
use scaleway_file_storage_su.Pool.Capacity.{Capacity, calculate_capacity}
use scaleway_file_storage_su.Pool.Capacity.Exact.{calculate_capacity_lem}

-- A parent's capacity after one more allocation of the given size.
abbrev pub charge : Capacity → ℕ → Capacity
charge c requested = record c {
  logical_allocated_bytes = c.logical_allocated_bytes + requested;
  logical_available_bytes = c.logical_available_bytes - requested;
}

-- If the accounting of a parent with a 64-bit size succeeds, a positive request of at most its
-- available bytes can be added to its allocations: the accounting succeeds again, moves exactly the
-- requested bytes from available to allocated, and the sum stays within the logical capacity.
pub admit_within_capacity :
    (observed min_free percent : ℕ) (ratio : Ratio) (allocations : List ℕ) (requested : ℕ)
    {c : Capacity}
    → observed < word
    → calculate_capacity observed min_free percent ratio allocations ≡ ok c
    → 0 < requested
    → requested ≤ c.logical_available_bytes
    → (calculate_capacity observed min_free percent ratio (allocations ++ requested ∷ [])
        ≡ ok (charge c requested))
      × (c.logical_allocated_bytes + requested ≤ c.logical_capacity_bytes)
admit_within_capacity observed min_free percent ratio allocations requested bounded e pos fits =
    ground (
      arith,
      calculate_capacity_lem observed min_free percent ratio allocations,
      calculate_capacity_lem observed min_free percent ratio (allocations ++ requested ∷ []),
      sum-append allocations (requested ∷ []),
    )
