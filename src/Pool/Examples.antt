-- ===== src/Pool/Examples.antt =====
-- Runs of the accounting, the configuration and the tracker on small parents.
use scaleway_file_storage_su.Prelude.{
  ◌+◌, ◌<◌, ◌≤◌, ◌≡◌, ◌⊎◌, ◌↔◌, refl, true, false, List, [], ◌∷◌, Distinct, arith,
}
use scaleway_file_storage_su.Prelude.Results.{ok, is_ok}
use scaleway_file_storage_su.Prelude.Texts.{Text, text}
use scaleway_file_storage_su.Prelude.Words.{pos}
use scaleway_file_storage_su.Volume.Request.{archive}
use scaleway_file_storage_su.Pool.Ratio.{Ratio}
use scaleway_file_storage_su.Pool.Arithmetic.{ceil_percent, floor_multiply_ratio}
use scaleway_file_storage_su.Pool.Arithmetic.Exact.{
  percent_up, ceil_percent_lem, floor_multiply_ratio_lem,
}
use scaleway_file_storage_su.Pool.Capacity.{Capacity, calculate_capacity}
use scaleway_file_storage_su.Pool.Capacity.Exact.{checked_capacity, calculate_capacity_lem}
use scaleway_file_storage_su.Pool.Capacity.Admission.{charge, admit_within_capacity}
use scaleway_file_storage_su.Pool.StatFs.{StatFsSample, PhysicalSpace, check_physical_space}
use scaleway_file_storage_su.Pool.StatFs.Safety.{
  exact_check, free_bytes, threshold, check_physical_space_lem, check_physical_space-safe,
}
use scaleway_file_storage_su.Pool.Config.{
  Config, ParentConfig, active, least_allocated, validate_configs, all_parent_ids,
}
use scaleway_file_storage_su.Pool.Config.Exclusive.{validate_configs-exclusive}
use scaleway_file_storage_su.Pool.Refresh.{
  Snapshot, Observation, empty_snapshot, observe, observe_all, placement_allowed, healthy,
}
use scaleway_file_storage_su.Pool.Refresh.History.{
  Inv, largest_applied, observe_all-allowed, accepted-largest, observe_lem,
}

abbrev three_halves : Ratio
three_halves = record { numerator = 3; denominator = 2 }

-- 101 bytes, of which ten percent are reserved.
ceil_percent_lem_example : ceil_percent 101 10 ≡ ok (percent_up 101 10)
ceil_percent_lem_example = ceil_percent_lem 101 10 (omega arith) (omega arith)

floor_multiply_ratio_lem_example : floor_multiply_ratio 101 three_halves ≡ ok 151
floor_multiply_ratio_lem_example = floor_multiply_ratio_lem 101 three_halves (omega arith)

calculate_capacity_lem_example :
    calculate_capacity 1000 10 10 three_halves (200 ∷ 300 ∷ [])
    ≡ checked_capacity 1000 10 10 three_halves (200 ∷ 300 ∷ [])
calculate_capacity_lem_example =
    calculate_capacity_lem 1000 10 10 three_halves (200 ∷ 300 ∷ []) (omega arith)

abbrev half_used : Capacity
half_used = record {
  observed_size_bytes = 1000;
  reserve_bytes = 100;
  usable_bytes = 900;
  logical_capacity_bytes = 1350;
  logical_allocated_bytes = 500;
  logical_available_bytes = 850;
}

half_used_found : calculate_capacity 1000 10 10 three_halves (200 ∷ 300 ∷ []) ≡ ok half_used
unfolding calculate_capacity ceil_percent floor_multiply_ratio
half_used_found = refl

admit_within_capacity_example :
    (calculate_capacity 1000 10 10 three_halves (200 ∷ 300 ∷ 850 ∷ []) ≡ ok (charge half_used 850))
    × (500 + 850 ≤ 1350)
admit_within_capacity_example =
    admit_within_capacity 1000 10 10 three_halves (200 ∷ 300 ∷ []) 850 (omega arith) half_used_found
      (omega arith) (omega arith)

abbrev sample : StatFsSample
sample = record { block_size_bytes = pos 4; available_blocks = pos 100; observed_at = 1 }

abbrev space_left : PhysicalSpace
space_left = record {
  actual_available_bytes = 400;
  physical_safety_threshold_bytes = 100;
  post_request_available_bytes = 150;
  observed_at = 1;
}

space_found : check_physical_space sample 1000 250 10 10 ≡ ok space_left
unfolding check_physical_space ceil_percent
space_found = refl

check_physical_space_lem_example :
    check_physical_space sample 1000 250 10 10 ≡ exact_check sample 1000 250 10 10
check_physical_space_lem_example = check_physical_space_lem sample 1000 250 10 10 (omega arith)

check_physical_space-safe_example :
    (150 + 250 ≡ free_bytes sample) × (free_bytes sample ≤ 1000) × (threshold 1000 10 10 ≤ 150)
check_physical_space-safe_example =
    check_physical_space-safe sample 1000 250 10 10 (omega arith) space_found

abbrev parent_named : Text → ParentConfig
parent_named id = record { id = id; name = id; state = active }

abbrev pool_of : Text → List ParentConfig → Config
pool_of name parents = record {
  name = name;
  base_path = text "/vols";
  selection_policy = least_allocated;
  max_parents_per_eligible_node = 2;
  max_logical_overcommit_ratio = three_halves;
  min_free_bytes = 10;
  min_free_percent = 10;
  delete_policy = archive;
  directory_mode = text "0770";
  directory_uid = 1000;
  directory_gid = 1000;
  filesystems = parents;
}

abbrev two_pools : List Config
two_pools =
    pool_of (text "fast") (parent_named (text "fs-1") ∷ parent_named (text "fs-2") ∷ [])
    ∷ pool_of (text "slow") (parent_named (text "fs-3") ∷ [])
    ∷ []

two_pools_valid : validate_configs two_pools ≡ ok tt
unfolding validate_configs
two_pools_valid = refl

validate_configs-exclusive_example : Distinct (all_parent_ids two_pools)
validate_configs-exclusive_example = validate_configs-exclusive two_pools two_pools_valid

-- Growth, a shrink and a late answer.
abbrev observations : List Observation
observations =
    record { size_bytes = 100; observed_at = 1 }
    ∷ record { size_bytes = 200; observed_at = 3 }
    ∷ record { size_bytes = 150; observed_at = 4 }
    ∷ record { size_bytes = 300; observed_at = 2 }
    ∷ []

observe_all-allowed_example :
    (placement_allowed (observe_all empty_snapshot observations) ≡ true) ↔ (
      (0 < (observe_all empty_snapshot observations).accepted_size_bytes)
      × ((observe_all empty_snapshot observations).observed_size_bytes
          ≡ (observe_all empty_snapshot observations).accepted_size_bytes))
observe_all-allowed_example = observe_all-allowed observations

accepted-largest_example :
    (observe_all empty_snapshot observations).accepted_size_bytes
    ≡ largest_applied empty_snapshot observations
accepted-largest_example = accepted-largest observations

abbrev tracked : Snapshot
tracked = record {
  accepted_size_bytes = 200;
  observed_size_bytes = 200;
  previous_size_bytes = 100;
  condition = healthy;
  observed_at = 3;
}

abbrev shrink : Observation
shrink = record { size_bytes = 150; observed_at = 4 }

tracked-Inv : Inv tracked
unfolding placement_allowed
tracked-Inv = record {
  observed_le = omega arith;
  allowed_iff = (λ h. (omega arith, refl), λ h. refl);
}

observe_lem_example :
    ((is_ok (observe tracked shrink).1 ≡ false) × ((observe tracked shrink).0 ≡ tracked))
    ⊎ ((is_ok (observe tracked shrink).1 ≡ true)
        × (3 ≤ (observe tracked shrink).0.observed_at)
        × ((observe tracked shrink).0.observed_size_bytes ≡ 150)
        × ((placement_allowed (observe tracked shrink).0 ≡ true) ↔ (200 ≤ 150)))
observe_lem_example = observe_lem tracked shrink tracked-Inv (omega arith)
