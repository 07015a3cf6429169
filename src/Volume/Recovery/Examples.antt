-- ===== src/Volume/Recovery/Examples.antt =====
-- Runs of the ownership records on one volume: sealing, an update, pairs and reconstructions.
use scaleway_file_storage_su.Prelude.{true, ◌≡◌, refl, inl}
use scaleway_file_storage_su.Prelude.Results.{ok}
use scaleway_file_storage_su.Volume.State.{ready}
use scaleway_file_storage_su.Volume.Records.{DetailedAllocation}
use scaleway_file_storage_su.Volume.OwnershipRecords.{
  DetailedOwnership, CompactOwnership, detailed_ownership,
}
use scaleway_file_storage_su.Volume.Samples.{
  constant_sealer, volume_at, ownership_of, ownership_tombstone_of, tombstone, some_uuid, day,
}
use scaleway_file_storage_su.Volume.OwnershipTransition.Steps.{
  NextOwnership, validate_ownership_update-step,
}
use scaleway_file_storage_su.Volume.Ownership.Seal.{seal_detailed-validate, seal_compact-validate}
use scaleway_file_storage_su.Volume.Recovery.Restoring.{Restores, reconstruct-Restores}
use scaleway_file_storage_su.Volume.Records.{DetailedAllocation}
use scaleway_file_storage_su.Volume.Recovery.{
  ownership_only, reconstructed, reconstructed_tombstone,
}
use scaleway_file_storage_su.Volume.Recovery.Reconstruction.{
  reconstruct_complete, reconstruct-pair, reconstruct_compact_complete,
}
use scaleway_file_storage_su.Prelude.Equality.{texts_eq, bool_eq}
use scaleway_file_storage_su.Prelude.Strings.{contains_byte, text_leb, has_prefix}
use scaleway_file_storage_su.Prelude.Texts.{text_eq}
use scaleway_file_storage_su.Volume.CleanPath.{clean, join}
use scaleway_file_storage_su.Volume.Handle.{
  validate_mapping, parse_handle, logical_volume_id_of, mapping_hash_of, base_path_hash_of,
  volume_handle_hash_of, request_hash_of, truncated_bytes_hash, truncated_canonical_hash,
  hex_prefix,
}
use scaleway_file_storage_su.Volume.Identifiers.{
  validate_driver_name, validate_installation_id, validate_cluster_uid, validate_logical_volume_id,
  validate_volume_handle_hash, validate_mapping_hash, validate_operation_id,
  validate_parent_filesystem_id, validate_pool_name, validate_base_path_hash,
}
use scaleway_file_storage_su.Volume.Lifecycle.{
  validate_lifecycle, validate_recovery_fields, count_present, validate_persisted_paths,
  validate_persisted_path, validate_gc_fields, validate_state, validate_deleted,
  validate_prepared_delete, validate_operation_paths, has_delete_fields,
}
use scaleway_file_storage_su.Volume.Ownership.{
  validate_ownership, validate_detailed_ownership, validate_compact_ownership,
  validate_detailed_payload, validate_compact_payload, validate_checksum, checksum_of,
  detailed_checksum, compact_checksum, seal_detailed, seal_compact,
}
use scaleway_file_storage_su.Volume.OwnershipRecords.{owner_logical_id}
use scaleway_file_storage_su.Volume.OwnershipTransition.{
  validate_ownership_update, validate_ownership_successor, validate_detailed_ownership_update,
  validate_ownership_compaction, owner_immutable_equal, owner_same_request, owner_same_parameters,
  owner_same_mapping, owner_same_directory, owner_compaction_equal, owner_same_identity,
  owner_same_evidence,
}
use scaleway_file_storage_su.Volume.Pairing.{
  validate_pair, validate_detailed_pair, validate_detailed_identity_pair, validate_compact_pair,
  paired_identity, paired_request, paired_parameters, paired_mapping, paired_directory, same_nodes,
  paired_tombstone_identity, paired_tombstone_evidence,
}
use scaleway_file_storage_su.Volume.Paths.{
  validate_directory_name, validate_base_path, managed_lifecycle_target,
}
use scaleway_file_storage_su.Volume.Records.{kind_eq, logical_id}
use scaleway_file_storage_su.Volume.Recovery.{reconstruct, reconstruct_compact}
use scaleway_file_storage_su.Volume.Request.{
  normalize, equal_create_parameters, capacity_compatible, disposition_eq,
}
use scaleway_file_storage_su.Volume.State.{
  reserves, state_eq, allocation_transition, ownership_transition,
}
use scaleway_file_storage_su.Volume.Timestamps.{
  validate_required_timestamp, validate_optional_timestamps,
}
use scaleway_file_storage_su.Volume.Transition.{
  validate_allocation_update, validate_successor, detailed_immutable_equal, same_request,
  same_parameters, same_mapping, same_directory, compaction_equal, same_identity, same_audit,
}
use scaleway_file_storage_su.Volume.Validation.{
  validate_record, validate_detailed, validate_compact, validate_common_identity,
  validate_logical_identity, validate_request_identity, validate_mapping_identity,
  validate_reservation, validate_published_nodes, is_sorted, validate_nodes, validate_compact_audit,
}

abbrev ready_volume : DetailedAllocation
ready_volume = volume_at ready 3 true

abbrev ready_ownership : DetailedOwnership
ready_ownership = ownership_of ready_volume

abbrev next_ownership : DetailedOwnership
next_ownership = ownership_of (volume_at ready 4 true)

abbrev owner_tombstone : CompactOwnership
owner_tombstone = ownership_tombstone_of tombstone

sealed : seal_detailed constant_sealer ready_ownership ≡ ok ready_ownership
unfolding validate_allocation_update validate_record validate_detailed validate_compact
    validate_common_identity validate_logical_identity validate_request_identity
    validate_mapping_identity validate_reservation validate_published_nodes is_sorted validate_nodes
    validate_compact_audit validate_lifecycle validate_recovery_fields count_present
    validate_persisted_paths validate_persisted_path validate_gc_fields validate_state
    validate_deleted validate_prepared_delete validate_operation_paths has_delete_fields
    validate_driver_name validate_installation_id validate_cluster_uid validate_logical_volume_id
    validate_volume_handle_hash validate_mapping_hash validate_operation_id
    validate_parent_filesystem_id validate_required_timestamp validate_optional_timestamps
    validate_directory_name validate_mapping validate_pool_name validate_base_path normalize
    equal_create_parameters capacity_compatible parse_handle logical_volume_id_of mapping_hash_of
    base_path_hash_of volume_handle_hash_of request_hash_of truncated_bytes_hash
    truncated_canonical_hash reserves contains_byte text_leb has_prefix clean join
    managed_lifecycle_target kind_eq state_eq disposition_eq text_eq texts_eq bool_eq
    validate_successor detailed_immutable_equal same_request same_parameters same_mapping
    same_directory compaction_equal same_identity same_audit allocation_transition logical_id
    validate_ownership validate_detailed_ownership validate_compact_ownership
    validate_detailed_payload validate_compact_payload validate_checksum checksum_of hex_prefix
    detailed_checksum compact_checksum seal_detailed seal_compact validate_base_path_hash
    owner_logical_id validate_ownership_update validate_ownership_successor
    validate_detailed_ownership_update validate_ownership_compaction owner_immutable_equal
    owner_same_request owner_same_parameters owner_same_mapping owner_same_directory
    owner_compaction_equal owner_same_identity owner_same_evidence ownership_transition
    validate_pair validate_detailed_pair validate_detailed_identity_pair validate_compact_pair
    paired_identity paired_request paired_parameters paired_mapping paired_directory same_nodes
    paired_tombstone_identity paired_tombstone_evidence reconstruct reconstruct_compact
sealed = refl

sealed_tombstone : seal_compact constant_sealer owner_tombstone ≡ ok owner_tombstone
unfolding validate_allocation_update validate_record validate_detailed validate_compact
    validate_common_identity validate_logical_identity validate_request_identity
    validate_mapping_identity validate_reservation validate_published_nodes is_sorted validate_nodes
    validate_compact_audit validate_lifecycle validate_recovery_fields count_present
    validate_persisted_paths validate_persisted_path validate_gc_fields validate_state
    validate_deleted validate_prepared_delete validate_operation_paths has_delete_fields
    validate_driver_name validate_installation_id validate_cluster_uid validate_logical_volume_id
    validate_volume_handle_hash validate_mapping_hash validate_operation_id
    validate_parent_filesystem_id validate_required_timestamp validate_optional_timestamps
    validate_directory_name validate_mapping validate_pool_name validate_base_path normalize
    equal_create_parameters capacity_compatible parse_handle logical_volume_id_of mapping_hash_of
    base_path_hash_of volume_handle_hash_of request_hash_of truncated_bytes_hash
    truncated_canonical_hash reserves contains_byte text_leb has_prefix clean join
    managed_lifecycle_target kind_eq state_eq disposition_eq text_eq texts_eq bool_eq
    validate_successor detailed_immutable_equal same_request same_parameters same_mapping
    same_directory compaction_equal same_identity same_audit allocation_transition logical_id
    validate_ownership validate_detailed_ownership validate_compact_ownership
    validate_detailed_payload validate_compact_payload validate_checksum checksum_of hex_prefix
    detailed_checksum compact_checksum seal_detailed seal_compact validate_base_path_hash
    owner_logical_id validate_ownership_update validate_ownership_successor
    validate_detailed_ownership_update validate_ownership_compaction owner_immutable_equal
    owner_same_request owner_same_parameters owner_same_mapping owner_same_directory
    owner_compaction_equal owner_same_identity owner_same_evidence ownership_transition
    validate_pair validate_detailed_pair validate_detailed_identity_pair validate_compact_pair
    paired_identity paired_request paired_parameters paired_mapping paired_directory same_nodes
    paired_tombstone_identity paired_tombstone_evidence reconstruct reconstruct_compact
sealed_tombstone = refl

seal_detailed-validate_example : validate_detailed_ownership constant_sealer ready_ownership ≡ ok tt
seal_detailed-validate_example =
    seal_detailed-validate constant_sealer ready_ownership (λ bytes. refl) sealed

seal_compact-validate_example : validate_compact_ownership constant_sealer owner_tombstone ≡ ok tt
seal_compact-validate_example =
    seal_compact-validate constant_sealer owner_tombstone (λ bytes. refl) sealed_tombstone

owner_update :
    validate_ownership_update constant_sealer
      (detailed_ownership ready_ownership)
      (detailed_ownership next_ownership)
    ≡ ok tt
unfolding validate_allocation_update validate_record validate_detailed validate_compact
    validate_common_identity validate_logical_identity validate_request_identity
    validate_mapping_identity validate_reservation validate_published_nodes is_sorted validate_nodes
    validate_compact_audit validate_lifecycle validate_recovery_fields count_present
    validate_persisted_paths validate_persisted_path validate_gc_fields validate_state
    validate_deleted validate_prepared_delete validate_operation_paths has_delete_fields
    validate_driver_name validate_installation_id validate_cluster_uid validate_logical_volume_id
    validate_volume_handle_hash validate_mapping_hash validate_operation_id
    validate_parent_filesystem_id validate_required_timestamp validate_optional_timestamps
    validate_directory_name validate_mapping validate_pool_name validate_base_path normalize
    equal_create_parameters capacity_compatible parse_handle logical_volume_id_of mapping_hash_of
    base_path_hash_of volume_handle_hash_of request_hash_of truncated_bytes_hash
    truncated_canonical_hash reserves contains_byte text_leb has_prefix clean join
    managed_lifecycle_target kind_eq state_eq disposition_eq text_eq texts_eq bool_eq
    validate_successor detailed_immutable_equal same_request same_parameters same_mapping
    same_directory compaction_equal same_identity same_audit allocation_transition logical_id
    validate_ownership validate_detailed_ownership validate_compact_ownership
    validate_detailed_payload validate_compact_payload validate_checksum checksum_of hex_prefix
    detailed_checksum compact_checksum seal_detailed seal_compact validate_base_path_hash
    owner_logical_id validate_ownership_update validate_ownership_successor
    validate_detailed_ownership_update validate_ownership_compaction owner_immutable_equal
    owner_same_request owner_same_parameters owner_same_mapping owner_same_directory
    owner_compaction_equal owner_same_identity owner_same_evidence ownership_transition
    validate_pair validate_detailed_pair validate_detailed_identity_pair validate_compact_pair
    paired_identity paired_request paired_parameters paired_mapping paired_directory same_nodes
    paired_tombstone_identity paired_tombstone_evidence reconstruct reconstruct_compact
owner_update = refl

validate_ownership_update-step_example :
    ((c : DetailedOwnership) × (detailed_ownership ready_ownership ≡ detailed_ownership c))
    × NextOwnership (detailed_ownership ready_ownership) (detailed_ownership next_ownership)
validate_ownership_update-step_example =
    validate_ownership_update-step constant_sealer (detailed_ownership ready_ownership)
      (detailed_ownership next_ownership) owner_update

accepted_pair : validate_detailed_pair constant_sealer ready_volume ready_ownership ready ≡ ok tt
unfolding validate_allocation_update validate_record validate_detailed validate_compact
    validate_common_identity validate_logical_identity validate_request_identity
    validate_mapping_identity validate_reservation validate_published_nodes is_sorted validate_nodes
    validate_compact_audit validate_lifecycle validate_recovery_fields count_present
    validate_persisted_paths validate_persisted_path validate_gc_fields validate_state
    validate_deleted validate_prepared_delete validate_operation_paths has_delete_fields
    validate_driver_name validate_installation_id validate_cluster_uid validate_logical_volume_id
    validate_volume_handle_hash validate_mapping_hash validate_operation_id
    validate_parent_filesystem_id validate_required_timestamp validate_optional_timestamps
    validate_directory_name validate_mapping validate_pool_name validate_base_path normalize
    equal_create_parameters capacity_compatible parse_handle logical_volume_id_of mapping_hash_of
    base_path_hash_of volume_handle_hash_of request_hash_of truncated_bytes_hash
    truncated_canonical_hash reserves contains_byte text_leb has_prefix clean join
    managed_lifecycle_target kind_eq state_eq disposition_eq text_eq texts_eq bool_eq
    validate_successor detailed_immutable_equal same_request same_parameters same_mapping
    same_directory compaction_equal same_identity same_audit allocation_transition logical_id
    validate_ownership validate_detailed_ownership validate_compact_ownership
    validate_detailed_payload validate_compact_payload validate_checksum checksum_of hex_prefix
    detailed_checksum compact_checksum seal_detailed seal_compact validate_base_path_hash
    owner_logical_id validate_ownership_update validate_ownership_successor
    validate_detailed_ownership_update validate_ownership_compaction owner_immutable_equal
    owner_same_request owner_same_parameters owner_same_mapping owner_same_directory
    owner_compaction_equal owner_same_identity owner_same_evidence ownership_transition
    validate_pair validate_detailed_pair validate_detailed_identity_pair validate_compact_pair
    paired_identity paired_request paired_parameters paired_mapping paired_directory same_nodes
    paired_tombstone_identity paired_tombstone_evidence reconstruct reconstruct_compact
accepted_pair = refl

valid_ownership : validate_detailed_ownership constant_sealer ready_ownership ≡ ok tt
unfolding validate_allocation_update validate_record validate_detailed validate_compact
    validate_common_identity validate_logical_identity validate_request_identity
    validate_mapping_identity validate_reservation validate_published_nodes is_sorted validate_nodes
    validate_compact_audit validate_lifecycle validate_recovery_fields count_present
    validate_persisted_paths validate_persisted_path validate_gc_fields validate_state
    validate_deleted validate_prepared_delete validate_operation_paths has_delete_fields
    validate_driver_name validate_installation_id validate_cluster_uid validate_logical_volume_id
    validate_volume_handle_hash validate_mapping_hash validate_operation_id
    validate_parent_filesystem_id validate_required_timestamp validate_optional_timestamps
    validate_directory_name validate_mapping validate_pool_name validate_base_path normalize
    equal_create_parameters capacity_compatible parse_handle logical_volume_id_of mapping_hash_of
    base_path_hash_of volume_handle_hash_of request_hash_of truncated_bytes_hash
    truncated_canonical_hash reserves contains_byte text_leb has_prefix clean join
    managed_lifecycle_target kind_eq state_eq disposition_eq text_eq texts_eq bool_eq
    validate_successor detailed_immutable_equal same_request same_parameters same_mapping
    same_directory compaction_equal same_identity same_audit allocation_transition logical_id
    validate_ownership validate_detailed_ownership validate_compact_ownership
    validate_detailed_payload validate_compact_payload validate_checksum checksum_of hex_prefix
    detailed_checksum compact_checksum seal_detailed seal_compact validate_base_path_hash
    owner_logical_id validate_ownership_update validate_ownership_successor
    validate_detailed_ownership_update validate_ownership_compaction owner_immutable_equal
    owner_same_request owner_same_parameters owner_same_mapping owner_same_directory
    owner_compaction_equal owner_same_identity owner_same_evidence ownership_transition
    validate_pair validate_detailed_pair validate_detailed_identity_pair validate_compact_pair
    paired_identity paired_request paired_parameters paired_mapping paired_directory same_nodes
    paired_tombstone_identity paired_tombstone_evidence reconstruct reconstruct_compact
valid_ownership = refl

valid_id : validate_operation_id some_uuid ≡ ok tt
unfolding validate_operation_id
valid_id = refl

valid_day : validate_required_timestamp day ≡ ok tt
unfolding validate_required_timestamp
valid_day = refl

reconstruct_complete_example :
    reconstruct constant_sealer ready_ownership ownership_only some_uuid day
    ≡ ok (reconstructed ready_ownership ownership_only some_uuid day)
reconstruct_complete_example =
    reconstruct_complete constant_sealer ready_ownership ownership_only some_uuid day
      valid_ownership valid_id valid_day (inl refl)

reconstruction :
    reconstruct constant_sealer ready_ownership ownership_only some_uuid day
    ≡ ok (reconstructed ready_ownership ownership_only some_uuid day)
unfolding validate_allocation_update validate_record validate_detailed validate_compact
    validate_common_identity validate_logical_identity validate_request_identity
    validate_mapping_identity validate_reservation validate_published_nodes is_sorted validate_nodes
    validate_compact_audit validate_lifecycle validate_recovery_fields count_present
    validate_persisted_paths validate_persisted_path validate_gc_fields validate_state
    validate_deleted validate_prepared_delete validate_operation_paths has_delete_fields
    validate_driver_name validate_installation_id validate_cluster_uid validate_logical_volume_id
    validate_volume_handle_hash validate_mapping_hash validate_operation_id
    validate_parent_filesystem_id validate_required_timestamp validate_optional_timestamps
    validate_directory_name validate_mapping validate_pool_name validate_base_path normalize
    equal_create_parameters capacity_compatible parse_handle logical_volume_id_of mapping_hash_of
    base_path_hash_of volume_handle_hash_of request_hash_of truncated_bytes_hash
    truncated_canonical_hash reserves contains_byte text_leb has_prefix clean join
    managed_lifecycle_target kind_eq state_eq disposition_eq text_eq texts_eq bool_eq
    validate_successor detailed_immutable_equal same_request same_parameters same_mapping
    same_directory compaction_equal same_identity same_audit allocation_transition logical_id
    validate_ownership validate_detailed_ownership validate_compact_ownership
    validate_detailed_payload validate_compact_payload validate_checksum checksum_of hex_prefix
    detailed_checksum compact_checksum seal_detailed seal_compact validate_base_path_hash
    owner_logical_id validate_ownership_update validate_ownership_successor
    validate_detailed_ownership_update validate_ownership_compaction owner_immutable_equal
    owner_same_request owner_same_parameters owner_same_mapping owner_same_directory
    owner_compaction_equal owner_same_identity owner_same_evidence ownership_transition
    validate_pair validate_detailed_pair validate_detailed_identity_pair validate_compact_pair
    paired_identity paired_request paired_parameters paired_mapping paired_directory same_nodes
    paired_tombstone_identity paired_tombstone_evidence reconstruct reconstruct_compact
reconstruction = refl

reconstruct-pair_example :
    (validate_detailed_pair constant_sealer
        (reconstructed ready_ownership ownership_only some_uuid day)
        ready_ownership
        ready
      ≡ ok tt)
    × (ready ≡ ready)
    × (true ≡ true)
reconstruct-pair_example =
    reconstruct-pair constant_sealer ready_ownership ownership_only some_uuid day reconstruction

valid_tombstone : validate_compact_ownership constant_sealer owner_tombstone ≡ ok tt
unfolding validate_allocation_update validate_record validate_detailed validate_compact
    validate_common_identity validate_logical_identity validate_request_identity
    validate_mapping_identity validate_reservation validate_published_nodes is_sorted validate_nodes
    validate_compact_audit validate_lifecycle validate_recovery_fields count_present
    validate_persisted_paths validate_persisted_path validate_gc_fields validate_state
    validate_deleted validate_prepared_delete validate_operation_paths has_delete_fields
    validate_driver_name validate_installation_id validate_cluster_uid validate_logical_volume_id
    validate_volume_handle_hash validate_mapping_hash validate_operation_id
    validate_parent_filesystem_id validate_required_timestamp validate_optional_timestamps
    validate_directory_name validate_mapping validate_pool_name validate_base_path normalize
    equal_create_parameters capacity_compatible parse_handle logical_volume_id_of mapping_hash_of
    base_path_hash_of volume_handle_hash_of request_hash_of truncated_bytes_hash
    truncated_canonical_hash reserves contains_byte text_leb has_prefix clean join
    managed_lifecycle_target kind_eq state_eq disposition_eq text_eq texts_eq bool_eq
    validate_successor detailed_immutable_equal same_request same_parameters same_mapping
    same_directory compaction_equal same_identity same_audit allocation_transition logical_id
    validate_ownership validate_detailed_ownership validate_compact_ownership
    validate_detailed_payload validate_compact_payload validate_checksum checksum_of hex_prefix
    detailed_checksum compact_checksum seal_detailed seal_compact validate_base_path_hash
    owner_logical_id validate_ownership_update validate_ownership_successor
    validate_detailed_ownership_update validate_ownership_compaction owner_immutable_equal
    owner_same_request owner_same_parameters owner_same_mapping owner_same_directory
    owner_compaction_equal owner_same_identity owner_same_evidence ownership_transition
    validate_pair validate_detailed_pair validate_detailed_identity_pair validate_compact_pair
    paired_identity paired_request paired_parameters paired_mapping paired_directory same_nodes
    paired_tombstone_identity paired_tombstone_evidence reconstruct reconstruct_compact
valid_tombstone = refl

reconstruct_compact_complete_example :
    (reconstruct_compact constant_sealer owner_tombstone
      ≡ ok (reconstructed_tombstone owner_tombstone))
    × (validate_compact_pair constant_sealer
          (reconstructed_tombstone owner_tombstone)
          owner_tombstone
        ≡ ok tt)
reconstruct_compact_complete_example =
    reconstruct_compact_complete constant_sealer owner_tombstone valid_tombstone

reconstruct-Restores_example :
    (r : DetailedAllocation) × (reconstruct constant_sealer ready_ownership ownership_only some_uuid
        day
      ≡ ok r)
    × Restores ready_volume r
    × (r.state ≡ ready)
    × (r.reserves_capacity ≡ true)
reconstruct-Restores_example =
    reconstruct-Restores constant_sealer ready_volume ready_ownership ready ownership_only some_uuid
      day accepted_pair valid_id valid_day (inl refl)
