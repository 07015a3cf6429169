-- ===== src/Volume/Transition/Examples.antt =====
-- Runs of the allocation records' validation on one volume: a creation, and the compaction of its
-- deleted record.
use scaleway_file_storage_su.Prelude.{true, false, ◌≡◌, refl, arith, ◌+◌, ◌≤◌}
use scaleway_file_storage_su.Prelude.Results.{ok}
use scaleway_file_storage_su.Volume.State.{reserved, creating_directory, ready}
use scaleway_file_storage_su.Volume.Records.{
  detailed_record, compact_record, lifecycle_state, logical_id,
}
use scaleway_file_storage_su.Volume.Transition.{validate_allocation_update}
use scaleway_file_storage_su.Volume.Transition.Identity.{creation_of, identity_of}
use scaleway_file_storage_su.Volume.Transition.Steps.{revision_of, holds_capacity, progress}
use scaleway_file_storage_su.Volume.Transition.History.{
  History, unchanged, updated, count_updates, History-identity, History-forward, History-revision,
  History-released, History-creation,
}
use scaleway_file_storage_su.Volume.Transition.{validate_successor}
use scaleway_file_storage_su.Volume.Validation.{validate_detailed}
use scaleway_file_storage_su.Volume.Transition.{
  detailed_immutable_equal, same_request, same_parameters, same_mapping, same_directory,
  compaction_equal, same_identity, same_audit,
}
use scaleway_file_storage_su.Volume.Validation.{
  validate_record, validate_compact, validate_common_identity, validate_logical_identity,
  validate_request_identity, validate_mapping_identity, validate_reservation,
  validate_published_nodes, is_sorted, validate_nodes, validate_compact_audit,
}
use scaleway_file_storage_su.Volume.Lifecycle.{
  validate_lifecycle, validate_recovery_fields, count_present, validate_persisted_paths,
  validate_persisted_path, validate_gc_fields, validate_state, validate_deleted,
  validate_prepared_delete, validate_operation_paths, has_delete_fields,
}
use scaleway_file_storage_su.Volume.Identifiers.{
  validate_driver_name, validate_installation_id, validate_cluster_uid, validate_logical_volume_id,
  validate_volume_handle_hash, validate_mapping_hash, validate_operation_id,
  validate_parent_filesystem_id, validate_pool_name,
}
use scaleway_file_storage_su.Volume.Timestamps.{
  validate_required_timestamp, validate_optional_timestamps,
}
use scaleway_file_storage_su.Volume.Paths.{
  validate_directory_name, validate_base_path, managed_lifecycle_target,
}
use scaleway_file_storage_su.Volume.Handle.{
  validate_mapping, parse_handle, logical_volume_id_of, mapping_hash_of, base_path_hash_of,
  volume_handle_hash_of, request_hash_of, truncated_bytes_hash, truncated_canonical_hash,
}
use scaleway_file_storage_su.Volume.Request.{
  normalize, equal_create_parameters, capacity_compatible, disposition_eq,
}
use scaleway_file_storage_su.Volume.State.{reserves, state_eq, allocation_transition}
use scaleway_file_storage_su.Prelude.Strings.{contains_byte, text_leb, has_prefix}
use scaleway_file_storage_su.Volume.CleanPath.{clean, join}
use scaleway_file_storage_su.Volume.Records.{kind_eq}
use scaleway_file_storage_su.Prelude.Texts.{text_eq}
use scaleway_file_storage_su.Prelude.Equality.{texts_eq, bool_eq}
use scaleway_file_storage_su.Volume.Samples.{constant_codec, volume_at, deleted_volume, tombstone}

creation :
    validate_allocation_update constant_codec
      (detailed_record (volume_at reserved 1 true))
      (detailed_record (volume_at creating_directory 2 true))
    ≡ ok tt
unfolding validate_allocation_update validate_record validate_detailed validate_compact
    validate_common_identity validate_logical_identity validate_request_identity
    validate_mapping_identity validate_reservation validate_published_nodes is_sorted validate_nodes
    validate_compact_audit validate_lifecycle validate_recovery_fields count_present
    validate_persisted_paths validate_persisted_path validate_gc_fields validate_state
    validate_deleted validate_prepared_delete validate_operation_paths has_delete_fields
    validate_driver_name validate_installation_id validate_cluster_uid validate_logical_volume_id
    validate_volume_handle_hash validate_mapping_hash validate_operation_id
    validate_parent_filesystem_id validate_required_timestamp validate_optional_timestamps
    validate_directory_name validate_mapping validate_pool_name validate_base_path normalize
    equal_create_parameters capacity_compatible parse_handle logical_volume_id_of mapping_hash_of
    base_path_hash_of volume_handle_hash_of request_hash_of truncated_bytes_hash
    truncated_canonical_hash reserves contains_byte text_leb has_prefix clean join
    managed_lifecycle_target kind_eq state_eq disposition_eq text_eq texts_eq bool_eq
    validate_successor detailed_immutable_equal same_request same_parameters same_mapping
    same_directory compaction_equal same_identity same_audit allocation_transition logical_id
creation = refl

made :
    validate_allocation_update constant_codec
      (detailed_record (volume_at creating_directory 2 true))
      (detailed_record (volume_at ready 3 true))
    ≡ ok tt
unfolding validate_allocation_update validate_record validate_detailed validate_compact
    validate_common_identity validate_logical_identity validate_request_identity
    validate_mapping_identity validate_reservation validate_published_nodes is_sorted validate_nodes
    validate_compact_audit validate_lifecycle validate_recovery_fields count_present
    validate_persisted_paths validate_persisted_path validate_gc_fields validate_state
    validate_deleted validate_prepared_delete validate_operation_paths has_delete_fields
    validate_driver_name validate_installation_id validate_cluster_uid validate_logical_volume_id
    validate_volume_handle_hash validate_mapping_hash validate_operation_id
    validate_parent_filesystem_id validate_required_timestamp validate_optional_timestamps
    validate_directory_name validate_mapping validate_pool_name validate_base_path normalize
    equal_create_parameters capacity_compatible parse_handle logical_volume_id_of mapping_hash_of
    base_path_hash_of volume_handle_hash_of request_hash_of truncated_bytes_hash
    truncated_canonical_hash reserves contains_byte text_leb has_prefix clean join
    managed_lifecycle_target kind_eq state_eq disposition_eq text_eq texts_eq bool_eq
    validate_successor detailed_immutable_equal same_request same_parameters same_mapping
    same_directory compaction_equal same_identity same_audit allocation_transition logical_id
made = refl

compaction :
    validate_allocation_update constant_codec
      (detailed_record deleted_volume)
      (compact_record tombstone)
    ≡ ok tt
unfolding validate_allocation_update validate_record validate_detailed validate_compact
    validate_common_identity validate_logical_identity validate_request_identity
    validate_mapping_identity validate_reservation validate_published_nodes is_sorted validate_nodes
    validate_compact_audit validate_lifecycle validate_recovery_fields count_present
    validate_persisted_paths validate_persisted_path validate_gc_fields validate_state
    validate_deleted validate_prepared_delete validate_operation_paths has_delete_fields
    validate_driver_name validate_installation_id validate_cluster_uid validate_logical_volume_id
    validate_volume_handle_hash validate_mapping_hash validate_operation_id
    validate_parent_filesystem_id validate_required_timestamp validate_optional_timestamps
    validate_directory_name validate_mapping validate_pool_name validate_base_path normalize
    equal_create_parameters capacity_compatible parse_handle logical_volume_id_of mapping_hash_of
    base_path_hash_of volume_handle_hash_of request_hash_of truncated_bytes_hash
    truncated_canonical_hash reserves contains_byte text_leb has_prefix clean join
    managed_lifecycle_target kind_eq state_eq disposition_eq text_eq texts_eq bool_eq
    validate_successor detailed_immutable_equal same_request same_parameters same_mapping
    same_directory compaction_equal same_identity same_audit allocation_transition logical_id
compaction = refl

abbrev two_updates :
    History constant_codec
      (detailed_record (volume_at reserved 1 true))
      (detailed_record (volume_at ready 3 true))
two_updates = updated creation (updated made unchanged)

History-identity_example :
    identity_of (compact_record tombstone) ≡ identity_of (detailed_record deleted_volume)
History-identity_example = History-identity constant_codec (updated compaction unchanged)

History-creation_example :
    creation_of (volume_at ready 3 true) ≡ creation_of (volume_at reserved 1 true)
History-creation_example =
    History-creation constant_codec (volume_at reserved 1 true) (volume_at ready 3 true) two_updates

History-forward_example :
    (progress reserved ≤ progress ready) × (progress reserved ≡ progress ready → ready ≡ reserved)
unfolding lifecycle_state
History-forward_example = History-forward constant_codec two_updates

History-revision_example :
    revision_of (detailed_record (volume_at ready 3 true))
    ≡ revision_of (detailed_record (volume_at reserved 1 true)) + count_updates two_updates
unfolding revision_of
History-revision_example = History-revision constant_codec two_updates (omega arith)

History-released_example : holds_capacity (compact_record tombstone) ≡ false
unfolding holds_capacity
History-released_example = History-released constant_codec (updated compaction unchanged) refl
