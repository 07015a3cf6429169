-- ===== src/Pool/Selection/Examples.antt =====
-- Runs of the placement decision on a pool of two parents.
use scaleway_file_storage_su.Prelude.{
  ℕ, ◌<◌, ◌≡◌, ◌≢◌, ◌⊎◌, inl, inr, refl, true, false, [], ◌∷◌, Elem, arith, none, some,
}
use scaleway_file_storage_su.Prelude.Results.{ok, err}
use scaleway_file_storage_su.Prelude.Texts.{Text, text, text_eq}
use scaleway_file_storage_su.Prelude.Strings.{text_ltb}
use scaleway_file_storage_su.Prelude.Words.{pos}
use scaleway_file_storage_su.Volume.Request.{archive}
use scaleway_file_storage_su.Pool.Arithmetic.{ceil_percent, floor_multiply_ratio}
use scaleway_file_storage_su.Pool.Capacity.{calculate_capacity}
use scaleway_file_storage_su.Pool.StatFs.{check_physical_space}
use scaleway_file_storage_su.Pool.Config.{Config, ParentConfig, active, least_allocated, member}
use scaleway_file_storage_su.Pool.Config
use scaleway_file_storage_su.Pool.Selection.{
  Candidate, Selection, configured, select, is_active, better_candidate, no_logical_capacity,
  physical_capacity_exhausted, check_candidates, check_configured, check_state, check_capacity,
  tally_candidates, decide_failure, conclude, validate_candidate_capacity, same_capacity,
  same_state,
}
use scaleway_file_storage_su.Pool.Selection.Sound.{Fits}
use scaleway_file_storage_su.Pool.Selection.Safety.{Room, select-Room, select-best}
use scaleway_file_storage_su.Pool.Selection.Refusal.{
  Insufficient, no_logical_capacity-conclusive, physical_capacity_exhausted-conclusive,
}
use scaleway_file_storage_su.Pool.Selection.Complete.{IsConsistent, FullSnapshot, select_complete}

abbrev same_digest : Text → Text
same_digest bytes = []

abbrev parent_named : Text → ParentConfig
parent_named id = record { id = id; name = id; state = active }

abbrev first_parent : ParentConfig
first_parent = parent_named (text "fs-1")

abbrev second_parent : ParentConfig
second_parent = parent_named (text "fs-2")

abbrev config : Config
config = record {
  name = text "fast";
  base_path = text "/vols";
  selection_policy = least_allocated;
  max_parents_per_eligible_node = 2;
  max_logical_overcommit_ratio = record { numerator = 1; denominator = 1 };
  min_free_bytes = 10;
  min_free_percent = 10;
  delete_policy = archive;
  directory_mode = text "0770";
  directory_uid = 1000;
  directory_gid = 1000;
  filesystems = first_parent ∷ second_parent ∷ [];
}

-- A parent of 1000 bytes with the bytes allocated on it and its free blocks of one byte.
abbrev candidate : ParentConfig → ℕ → ℕ → ℕ → Candidate
candidate parent allocated available free = record {
  parent = parent;
  capacity = record {
    observed_size_bytes = 1000;
    reserve_bytes = 100;
    usable_bytes = 900;
    logical_capacity_bytes = 900;
    logical_allocated_bytes = allocated;
    logical_available_bytes = available;
  };
  stat_fs = record { block_size_bytes = pos 1; available_blocks = pos free; observed_at = 1 };
  stat_fs_fresh = true;
  provider_available = true;
  provider_failure = none;
  provider_failure_transient = false;
  node_compatible = true;
}

abbrev fuller : Candidate
fuller = candidate first_parent 500 400 500

abbrev emptier : Candidate
emptier = candidate second_parent 100 800 900

abbrev emptier_selection : Selection
emptier_selection = record {
  parent = second_parent;
  capacity = emptier.capacity;
  physical_space = record {
    actual_available_bytes = 900;
    physical_safety_threshold_bytes = 100;
    post_request_available_bytes = 800;
    observed_at = 1;
  };
}

abbrev fuller_selection : Selection
fuller_selection = record {
  parent = first_parent;
  capacity = fuller.capacity;
  physical_space = record {
    actual_available_bytes = 500;
    physical_safety_threshold_bytes = 100;
    post_request_available_bytes = 400;
    observed_at = 1;
  };
}

emptier_selected :
    select same_digest config (text "pvc-1") 100 (fuller ∷ emptier ∷ []) ≡ ok emptier_selection
unfolding select Config.validate check_candidates check_configured check_state check_capacity
    configured member same_state same_capacity validate_candidate_capacity calculate_capacity
    ceil_percent floor_multiply_ratio check_physical_space tally_candidates better_candidate
    decide_failure conclude text_eq text_ltb
emptier_selected = refl

fuller-Fits : Fits config 100 fuller fuller_selection
unfolding configured text_eq check_physical_space ceil_percent
fuller-Fits = record {
  is_configured = refl;
  configured_active = refl;
  candidate_active = refl;
  same_capacity = refl;
  observed = omega arith;
  available = refl;
  room = omega arith;
  compatible = refl;
  fresh = refl;
  checked = refl;
}

select-Room_example :
    (c : Candidate) × Elem c (fuller ∷ emptier ∷ []) × Room config 100 c emptier_selection
select-Room_example =
    select-Room same_digest config (text "pvc-1") 100 (fuller ∷ emptier ∷ [])
      (omega arith, (omega arith, tt)) emptier_selected

select-best_example :
    better_candidate same_digest (text "pvc-1") fuller_selection emptier_selection ≡ false
select-best_example =
    select-best same_digest config (text "pvc-1") 100 (fuller ∷ emptier ∷ []) fuller
      fuller_selection emptier_selected (inl refl) fuller-Fits

-- Neither parent has 850 bytes left.
too_large :
    select same_digest config (text "pvc-1") 850 (fuller ∷ emptier ∷ []) ≡ err no_logical_capacity
unfolding select Config.validate check_candidates check_configured check_state check_capacity
    configured member same_state same_capacity validate_candidate_capacity calculate_capacity
    ceil_percent floor_multiply_ratio check_physical_space tally_candidates better_candidate
    decide_failure conclude text_eq text_ltb
too_large = refl

fuller-IsPlaceable :
    (p : ParentConfig) × (configured (text "fs-1") config.filesystems ≡ some p)
    × (is_active p.state ≡ true)
unfolding configured text_eq
fuller-IsPlaceable = (first_parent, refl, refl)

no_logical_capacity-conclusive_example : (true ≡ true) × (400 < 850)
no_logical_capacity-conclusive_example =
    no_logical_capacity-conclusive same_digest config (text "pvc-1") 850 (fuller ∷ emptier ∷ [])
      fuller too_large (inl refl) (refl, fuller-IsPlaceable)

-- The second parent would be left with 50 bytes, less than its reserve.
abbrev crowded : Candidate
crowded = candidate second_parent 100 800 550

exhausted :
    select same_digest config (text "pvc-1") 500 (fuller ∷ crowded ∷ [])
    ≡ err physical_capacity_exhausted
unfolding select Config.validate check_candidates check_configured check_state check_capacity
    configured member same_state same_capacity validate_candidate_capacity calculate_capacity
    ceil_percent floor_multiply_ratio check_physical_space tally_candidates better_candidate
    decide_failure conclude text_eq text_ltb
exhausted = refl

physical_capacity_exhausted-conclusive_example :
    (true ≡ true) × ((400 < 500) ⊎ Insufficient same_digest config (text "pvc-1") 500 fuller)
physical_capacity_exhausted-conclusive_example =
    physical_capacity_exhausted-conclusive same_digest config (text "pvc-1") 500
      (fuller ∷ crowded ∷ []) fuller exhausted (inl refl) (refl, fuller-IsPlaceable)

config-valid : Config.validate config ≡ ok tt
unfolding Config.validate
config-valid = refl

first-differs : text "fs-1" ≢ text "fs-2"
first-differs e = absurd (ground (arith, e))

fuller-IsConsistent : IsConsistent config fuller
unfolding configured text_eq calculate_capacity ceil_percent floor_multiply_ratio
fuller-IsConsistent = ((first_parent, refl, refl), inr (omega arith, refl))

emptier-IsConsistent : IsConsistent config emptier
unfolding configured text_eq calculate_capacity ceil_percent floor_multiply_ratio
emptier-IsConsistent = ((second_parent, refl, refl), inr (omega arith, refl))

both-FullSnapshot : FullSnapshot config (fuller ∷ emptier ∷ [])
both-FullSnapshot = record {
  once = ((λ m. elim m [ inl e ↦ first-differs e | inr n ↦ n ]), ((λ m. m), tt));
  all_observed = (inl refl, (inr (inl refl), tt));
  consistent = (fuller-IsConsistent, (emptier-IsConsistent, tt));
}

select_complete_example :
    (chosen : Selection) × (select same_digest config (text "pvc-1") 100 (fuller ∷ emptier ∷ [])
      ≡ ok chosen)
    × (better_candidate same_digest (text "pvc-1") fuller_selection chosen ≡ false)
select_complete_example =
    select_complete same_digest config (text "pvc-1") 100 (fuller ∷ emptier ∷ []) fuller
      fuller_selection config-valid (λ e. absurd (ground (arith, e))) (omega arith)
      both-FullSnapshot (inl refl) fuller-Fits
