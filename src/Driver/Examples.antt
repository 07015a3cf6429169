-- ===== src/Driver/Examples.antt =====
-- One delete of a volume whose policy is deletion, from its Ready records to its tombstones.
use scaleway_file_storage_su.Prelude.{
  ℕ, true, [], ◌∷◌, none, some, All, length, ◌==◌, ◌||◌, if◌then◌else◌, ◌≡◌, refl,
}
use scaleway_file_storage_su.Prelude.Results.{Result, ok}
use scaleway_file_storage_su.Prelude.Texts.{Text, text}
use scaleway_file_storage_su.Volume.State.{ready}
use scaleway_file_storage_su.Volume.Records.{detailed_record}
use scaleway_file_storage_su.Volume.OwnershipRecords.{
  OwnershipRecord, detailed_ownership, compact_ownership,
}
use scaleway_file_storage_su.Volume.Samples.{
  constant_sealer, volume_at, ownership_of, some_uuid, day,
}
use scaleway_file_storage_su.Driver.Errors.{DriverError}
use scaleway_file_storage_su.Driver.World.{World, Answer, answered, Controller, Stored}
use scaleway_file_storage_su.Driver.DeleteVolume.Calls.{FinalRecord}
use scaleway_file_storage_su.Driver.Delete.Authorized.{Authorized}
use scaleway_file_storage_su.Driver.DeleteVolume.{delete_volume}
use scaleway_file_storage_su.Driver.DeleteVolume.History.{
  start, then_delete, world_after, History-Safe, delete_handle-Final,
}
use scaleway_file_storage_su.Driver.Delete.{
  disposition_target, validate_runtime_identity, advance_pair, prepare_delete,
  complete_archive_or_retain, write_remove_started, start_removal, write_deleted, finish_removal,
  complete_physical_delete, complete_delete, dispose_prepared,
}
use scaleway_file_storage_su.Driver.DeleteVolume.{
  recovered_matches, handle_error, finish_with, finish_deleted_pair, as_detailed, choose_intent,
  delete_unattached, delete_active, delete_reconciled, delete_existing, delete_detailed,
  create_resolved_allocation, resolve_with, resolve_missing, delete_stored, find_allocation,
  delete_handle, delete_parsed, resumable, resume_stored, reconcile_existing_deletion,
}
use scaleway_file_storage_su.Driver.Disposition.{
  perform, observe_paths, dispose, prepare_disposition, remove_quarantine,
}
use scaleway_file_storage_su.Driver.Pair.{
  insert_sorted_unique, sorted_union, same_intent, same_terminal_evidence,
  validate_terminal_predecessor, validate_progress_pair, mirror_ownership, compact_deleted_pair,
  reconcile_deleting, mirror_kept, confirm_kept, reconcile_kept, finish_deleted, reconcile_detailed,
  reconcile_delete_pair, fence_allocation, fence_ownership, reconcile_fence_union,
}
use scaleway_file_storage_su.Driver.Program.{proceed, refuse_if, lift}
use scaleway_file_storage_su.Driver.Stores.{
  query, now, in_scope, check_object, get_allocation, create_allocation, update_allocation,
  update_detailed_allocation, load_ownership, update_ownership, update_detailed_ownership,
  compact_ownership_record,
}
use scaleway_file_storage_su.Prelude.Equality.{texts_eq, bool_eq}
use scaleway_file_storage_su.Prelude.Strings.{contains_byte, text_leb, has_prefix}
use scaleway_file_storage_su.Prelude.Texts.{text_eq}
use scaleway_file_storage_su.Volume.CleanPath.{clean, join}
use scaleway_file_storage_su.Volume.Handle.{
  Handle, validate_mapping, parse_handle, logical_volume_id_of, mapping_hash_of, base_path_hash_of,
  volume_handle_hash_of, request_hash_of, truncated_bytes_hash, truncated_canonical_hash,
  hex_prefix,
}
use scaleway_file_storage_su.Volume.Identifiers.{
  validate_driver_name, validate_installation_id, validate_cluster_uid, validate_logical_volume_id,
  validate_volume_handle_hash, validate_mapping_hash, validate_operation_id,
  validate_parent_filesystem_id, validate_pool_name, validate_base_path_hash, is_uuid,
}
use scaleway_file_storage_su.Volume.Lifecycle.{
  validate_lifecycle, validate_recovery_fields, count_present, validate_persisted_paths,
  validate_persisted_path, validate_gc_fields, validate_state, validate_deleted,
  validate_prepared_delete, validate_operation_paths, has_delete_fields,
}
use scaleway_file_storage_su.Volume.Ownership.{
  validate_ownership, validate_detailed_ownership, validate_compact_ownership,
  validate_detailed_payload, validate_compact_payload, validate_checksum, checksum_of,
  detailed_checksum, compact_checksum, seal_detailed, seal_compact,
}
use scaleway_file_storage_su.Volume.OwnershipRecords.{owner_logical_id}
use scaleway_file_storage_su.Volume.OwnershipTransition.{
  validate_ownership_update, validate_ownership_successor, validate_detailed_ownership_update,
  validate_ownership_compaction, owner_immutable_equal, owner_same_request, owner_same_parameters,
  owner_same_mapping, owner_same_directory, owner_compaction_equal, owner_same_identity,
  owner_same_evidence,
}
use scaleway_file_storage_su.Volume.Pairing.{
  validate_pair, validate_detailed_pair, validate_detailed_identity_pair, validate_compact_pair,
  paired_identity, paired_request, paired_parameters, paired_mapping, paired_directory, same_nodes,
  paired_tombstone_identity, paired_tombstone_evidence,
}
use scaleway_file_storage_su.Volume.Paths.{
  validate_directory_name, validate_base_path, managed_lifecycle_target,
}
use scaleway_file_storage_su.Volume.Records.{kind_eq, logical_id}
use scaleway_file_storage_su.Volume.Recovery.{reconstruct, reconstruct_compact}
use scaleway_file_storage_su.Volume.Request.{
  normalize, equal_create_parameters, capacity_compatible, disposition_eq,
}
use scaleway_file_storage_su.Volume.State.{
  reserves, state_eq, allocation_transition, ownership_transition,
}
use scaleway_file_storage_su.Volume.Timestamps.{
  validate_required_timestamp, validate_optional_timestamps,
}
use scaleway_file_storage_su.Volume.Transition.{
  validate_allocation_update, validate_successor, detailed_immutable_equal, same_request,
  same_parameters, same_mapping, same_directory, compaction_equal, same_identity, same_audit,
}
use scaleway_file_storage_su.Volume.Validation.{
  validate_record, validate_detailed, validate_compact, validate_common_identity,
  validate_logical_identity, validate_request_identity, validate_mapping_identity,
  validate_reservation, validate_published_nodes, is_sorted, validate_nodes, validate_compact_audit,
}

-- The directory is found before it is moved, and its quarantine before it is removed.
abbrev answer_at : ℕ → Answer
answer_at n = record {
  reply = answered;
  word = if n == 5 then some_uuid else day;
  yes = n == 9 || n == 16;
  recovered = none;
}

abbrev revision_bytes : OwnershipRecord → Text
revision_bytes (detailed_ownership r) = r.revision ∷ []
revision_bytes (compact_ownership r) = r.revision ∷ []

abbrev controller : Controller
controller = record {
  sealer = constant_sealer;
  encode = revision_bytes;
  answer = answer_at;
  driver_name = text "csi.example.com";
  installation_id = some_uuid;
  cluster_uid = text "cluster-1";
}

abbrev ready_world : World
ready_world = record {
  allocation = some (record { version = 1; value = detailed_record (volume_at ready 3 true) });
  ownership = some (detailed_ownership (ownership_of (volume_at ready 3 true)));
  effects = [];
  calls = 0;
}

abbrev volume_id : Text
volume_id = (volume_at ready 3 true).volume_handle

abbrev parsed_handle : Handle
parsed_handle = record {
  logical_volume_id = (volume_at ready 3 true).logical_volume_id;
  mapping_hash = (volume_at ready 3 true).mapping_hash;
}

abbrev deleted_world : World
deleted_world = world_after (delete_volume controller volume_id ready_world)

abbrev outcome_of : World × Result DriverError (Unit {0}) → Result DriverError (Unit {0}) × ℕ × ℕ
outcome_of (w, r) = (r, length w.effects, w.calls)

-- The delete succeeds with a quarantine and a removal.
whole_delete : outcome_of (delete_volume controller volume_id ready_world) ≡ (ok tt, 2, 21)
unfolding validate_allocation_update validate_record validate_detailed validate_compact
    validate_common_identity validate_logical_identity validate_request_identity
    validate_mapping_identity validate_reservation validate_published_nodes is_sorted validate_nodes
    validate_compact_audit validate_lifecycle validate_recovery_fields count_present
    validate_persisted_paths validate_persisted_path validate_gc_fields validate_state
    validate_deleted validate_prepared_delete validate_operation_paths has_delete_fields
    validate_driver_name validate_installation_id validate_cluster_uid validate_logical_volume_id
    validate_volume_handle_hash validate_mapping_hash validate_operation_id
    validate_parent_filesystem_id validate_required_timestamp validate_optional_timestamps
    validate_directory_name validate_mapping validate_pool_name validate_base_path normalize
    equal_create_parameters capacity_compatible parse_handle logical_volume_id_of mapping_hash_of
    base_path_hash_of volume_handle_hash_of request_hash_of truncated_bytes_hash
    truncated_canonical_hash reserves contains_byte text_leb has_prefix clean join
    managed_lifecycle_target kind_eq state_eq disposition_eq text_eq texts_eq bool_eq
    validate_successor detailed_immutable_equal same_request same_parameters same_mapping
    same_directory compaction_equal same_identity same_audit allocation_transition logical_id
    validate_ownership validate_detailed_ownership validate_compact_ownership
    validate_detailed_payload validate_compact_payload validate_checksum checksum_of hex_prefix
    detailed_checksum compact_checksum seal_detailed seal_compact validate_base_path_hash
    owner_logical_id validate_ownership_update validate_ownership_successor
    validate_detailed_ownership_update validate_ownership_compaction owner_immutable_equal
    owner_same_request owner_same_parameters owner_same_mapping owner_same_directory
    owner_compaction_equal owner_same_identity owner_same_evidence ownership_transition
    validate_pair validate_detailed_pair validate_detailed_identity_pair validate_compact_pair
    paired_identity paired_request paired_parameters paired_mapping paired_directory same_nodes
    paired_tombstone_identity paired_tombstone_evidence reconstruct reconstruct_compact query now
    in_scope check_object get_allocation create_allocation update_allocation
    update_detailed_allocation load_ownership update_ownership update_detailed_ownership
    compact_ownership_record perform observe_paths dispose prepare_disposition remove_quarantine
    proceed refuse_if lift insert_sorted_unique sorted_union same_intent same_terminal_evidence
    validate_terminal_predecessor validate_progress_pair mirror_ownership compact_deleted_pair
    reconcile_deleting mirror_kept confirm_kept reconcile_kept finish_deleted reconcile_detailed
    reconcile_delete_pair fence_allocation fence_ownership reconcile_fence_union recovered_matches
    handle_error finish_with finish_deleted_pair as_detailed choose_intent delete_unattached
    delete_active delete_reconciled delete_existing delete_detailed create_resolved_allocation
    resolve_with resolve_missing delete_stored find_allocation delete_handle delete_parsed
    delete_volume resumable resume_stored reconcile_existing_deletion disposition_target
    validate_runtime_identity advance_pair prepare_delete complete_archive_or_retain
    write_remove_started start_removal write_deleted finish_removal complete_physical_delete
    complete_delete dispose_prepared is_uuid
whole_delete = refl

History-Safe_example :
    All Authorized (world_after (delete_volume controller volume_id ready_world)).effects
History-Safe_example = History-Safe (then_delete start controller volume_id) refl

handle_parsed : parse_handle volume_id ≡ ok parsed_handle
unfolding parse_handle validate_logical_volume_id validate_mapping_hash has_prefix contains_byte
    text_eq texts_eq validate_volume_handle_hash
handle_parsed = refl

delete_succeeds : delete_volume controller volume_id ready_world ≡ (deleted_world, ok tt)
unfolding validate_allocation_update validate_record validate_detailed validate_compact
    validate_common_identity validate_logical_identity validate_request_identity
    validate_mapping_identity validate_reservation validate_published_nodes is_sorted validate_nodes
    validate_compact_audit validate_lifecycle validate_recovery_fields count_present
    validate_persisted_paths validate_persisted_path validate_gc_fields validate_state
    validate_deleted validate_prepared_delete validate_operation_paths has_delete_fields
    validate_driver_name validate_installation_id validate_cluster_uid validate_logical_volume_id
    validate_volume_handle_hash validate_mapping_hash validate_operation_id
    validate_parent_filesystem_id validate_required_timestamp validate_optional_timestamps
    validate_directory_name validate_mapping validate_pool_name validate_base_path normalize
    equal_create_parameters capacity_compatible parse_handle logical_volume_id_of mapping_hash_of
    base_path_hash_of volume_handle_hash_of request_hash_of truncated_bytes_hash
    truncated_canonical_hash reserves contains_byte text_leb has_prefix clean join
    managed_lifecycle_target kind_eq state_eq disposition_eq text_eq texts_eq bool_eq
    validate_successor detailed_immutable_equal same_request same_parameters same_mapping
    same_directory compaction_equal same_identity same_audit allocation_transition logical_id
    validate_ownership validate_detailed_ownership validate_compact_ownership
    validate_detailed_payload validate_compact_payload validate_checksum checksum_of hex_prefix
    detailed_checksum compact_checksum seal_detailed seal_compact validate_base_path_hash
    owner_logical_id validate_ownership_update validate_ownership_successor
    validate_detailed_ownership_update validate_ownership_compaction owner_immutable_equal
    owner_same_request owner_same_parameters owner_same_mapping owner_same_directory
    owner_compaction_equal owner_same_identity owner_same_evidence ownership_transition
    validate_pair validate_detailed_pair validate_detailed_identity_pair validate_compact_pair
    paired_identity paired_request paired_parameters paired_mapping paired_directory same_nodes
    paired_tombstone_identity paired_tombstone_evidence reconstruct reconstruct_compact query now
    in_scope check_object get_allocation create_allocation update_allocation
    update_detailed_allocation load_ownership update_ownership update_detailed_ownership
    compact_ownership_record perform observe_paths dispose prepare_disposition remove_quarantine
    proceed refuse_if lift insert_sorted_unique sorted_union same_intent same_terminal_evidence
    validate_terminal_predecessor validate_progress_pair mirror_ownership compact_deleted_pair
    reconcile_deleting mirror_kept confirm_kept reconcile_kept finish_deleted reconcile_detailed
    reconcile_delete_pair fence_allocation fence_ownership reconcile_fence_union recovered_matches
    handle_error finish_with finish_deleted_pair as_detailed choose_intent delete_unattached
    delete_active delete_reconciled delete_existing delete_detailed create_resolved_allocation
    resolve_with resolve_missing delete_stored find_allocation delete_handle delete_parsed
    delete_volume resumable resume_stored reconcile_existing_deletion disposition_target
    validate_runtime_identity advance_pair prepare_delete complete_archive_or_retain
    write_remove_started start_removal write_deleted finish_removal complete_physical_delete
    complete_delete dispose_prepared is_uuid
delete_succeeds = refl

delete_handle-Final_example :
    (s : Stored) × (deleted_world.allocation ≡ some s) × FinalRecord s.value
delete_handle-Final_example =
    delete_handle-Final controller volume_id parsed_handle start refl handle_parsed delete_succeeds
