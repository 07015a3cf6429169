-- ===== src/Volume/Transition.antt =====
-- pkg/volume/allocation_transition.go: the successor relation between durable allocation records. A
-- nil record is not a value of the model. Revisions are uint64, so the successor wraps around.
pub mod Identity
pub mod Steps
pub mod History
mod Examples
use scaleway_file_storage_su.Prelude.{ℕ, ◌+◌, Bool, not, ◌&&◌, ◌||◌, ◌==◌}
use scaleway_file_storage_su.Prelude.Words.{u64}
use scaleway_file_storage_su.Prelude.Results.{Result, err, reject, ◌>>=◌, ◌>>◌}
use scaleway_file_storage_su.Prelude.Texts.{Text, text_eq}
use scaleway_file_storage_su.Prelude.Equality.{◌=?◌, text_Eq, nat_eq}
use scaleway_file_storage_su.Volume.Errors.{
  VolumeError, logical_id_changed, revision_skipped, immutable_changed, transition_refused,
  tombstone_immutable, kind_refused, compaction_refused,
}
use scaleway_file_storage_su.Volume.Request.{disposition_Eq, equal_create_parameters}
use scaleway_file_storage_su.Volume.Handle.{Codec}
use scaleway_file_storage_su.Volume.State.{deleted, state_eq, allocation_transition}
use scaleway_file_storage_su.Volume.Records.{
  kind_eq, DetailedAllocation, CompactAllocation, AllocationRecord, detailed_record, compact_record,
  unknown_record, logical_id,
}
use scaleway_file_storage_su.Volume.Validation.{validate_record}

-- The comparison of validateDetailedImmutableEquality, positively: no field differs. It is cut into
-- the owner and request, the capacity and parameters, the mapping, and the directory.
unfoldable pub same_request : DetailedAllocation → DetailedAllocation → Bool
same_request current next =
    (current.schema_version =? next.schema_version)
    && kind_eq current.record_kind next.record_kind
    && (current.driver_name =? next.driver_name)
    && (current.active_cluster_uid =? next.active_cluster_uid)
    && (current.installation_id =? next.installation_id)
    && (current.create_volume_request_name =? next.create_volume_request_name)
    && (current.request_hash =? next.request_hash)

unfoldable pub same_parameters : DetailedAllocation → DetailedAllocation → Bool
same_parameters current next =
    (current.original_required_bytes =? next.original_required_bytes)
    && (current.original_limit_bytes =? next.original_limit_bytes)
    && (current.selected_capacity_bytes =? next.selected_capacity_bytes)
    && equal_create_parameters current.normalized_create_parameters
        next.normalized_create_parameters

unfoldable pub same_mapping : DetailedAllocation → DetailedAllocation → Bool
same_mapping current next =
    (current.logical_volume_id =? next.logical_volume_id)
    && (current.volume_handle =? next.volume_handle)
    && (current.volume_handle_hash =? next.volume_handle_hash)
    && (current.mapping_hash =? next.mapping_hash)
    && (current.pool_name =? next.pool_name)
    && (current.parent_filesystem_id =? next.parent_filesystem_id)
    && (current.base_path =? next.base_path)
    && (current.base_path_hash =? next.base_path_hash)
    && (current.directory_name =? next.directory_name)

unfoldable pub same_directory : DetailedAllocation → DetailedAllocation → Bool
same_directory current next =
    (current.delete_policy =? next.delete_policy)
    && (current.directory_uid =? next.directory_uid)
    && (current.directory_gid =? next.directory_gid)
    && (current.directory_mode =? next.directory_mode)
    && (current.created_at =? next.created_at)
    && (current.recovery_operation_id =? next.recovery_operation_id)
    && (current.recovery_source =? next.recovery_source)
    && (current.recovered_at =? next.recovered_at)

unfoldable pub detailed_immutable_equal : DetailedAllocation → DetailedAllocation → Bool
detailed_immutable_equal current next =
    same_request current next
    && same_parameters current next
    && same_mapping current next
    && same_directory current next

-- The comparison of validateCompactionEquality, positively: the identity, then the audit fields.
unfoldable pub same_identity : DetailedAllocation → CompactAllocation → Bool
same_identity current next =
    (current.schema_version =? next.schema_version)
    && (current.driver_name =? next.driver_name)
    && (current.installation_id =? next.installation_id)
    && (current.active_cluster_uid =? next.active_cluster_uid)
    && (current.create_volume_request_name =? next.create_volume_request_name)
    && (current.logical_volume_id =? next.logical_volume_id)
    && (current.volume_handle_hash =? next.volume_handle_hash)
    && (current.mapping_hash =? next.mapping_hash)
    && (current.parent_filesystem_id =? next.parent_filesystem_id)
    && (current.directory_name =? next.directory_name)

unfoldable pub same_audit : DetailedAllocation → CompactAllocation → Bool
same_audit current next =
    (current.delete_result =? next.delete_result)
    && (current.deleted_at =? next.deleted_at)
    && (current.delete_operation_id =? next.delete_operation_id)
    && (current.delete_operation =? next.delete_operation)
    && (current.archived_path =? next.archived_path)
    && (current.retained_path =? next.retained_path)
    && (current.quarantine_path =? next.quarantine_path)
    && (current.delete_completed_at =? next.delete_completed_at)
    && (current.gc_operation_id =? next.gc_operation_id)
    && (current.gc_target_path =? next.gc_target_path)
    && (current.gc_quarantine_path =? next.gc_quarantine_path)
    && (current.gc_completed_at =? next.gc_completed_at)

unfoldable pub compaction_equal : DetailedAllocation → CompactAllocation → Bool
compaction_equal current next = same_identity current next && same_audit current next

-- The two kinds of successor of a detailed record.
unfoldable pub validate_detailed_update :
    DetailedAllocation → DetailedAllocation → Result VolumeError (Unit {0})
validate_detailed_update current next = do
  reject (not (next.record_revision == u64 (current.record_revision + 1))) revision_skipped
  reject (not (detailed_immutable_equal current next)) immutable_changed
  reject (not (allocation_transition current.state next.state)) transition_refused

unfoldable pub validate_compaction :
    DetailedAllocation → CompactAllocation → Result VolumeError (Unit {0})
validate_compaction current next = do
  reject (not (state_eq current.state deleted)) compaction_refused
  reject (not (next.record_revision == u64 (current.record_revision + 1))) revision_skipped
  reject (not (compaction_equal current next)) immutable_changed

-- The switch over the types of both records.
unfoldable pub validate_successor :
    AllocationRecord → AllocationRecord → Result VolumeError (Unit {0})
unfolding validate_detailed_update validate_compaction
validate_successor (detailed_record current) (detailed_record next) =
    validate_detailed_update current next
validate_successor (detailed_record current) (compact_record next) =
    validate_compaction current next
validate_successor (detailed_record current) (unknown_record next) = err kind_refused
validate_successor (compact_record current) next = err tombstone_immutable
validate_successor (unknown_record current) next = err tombstone_immutable

-- ValidateAllocationUpdate
unfoldable pub validate_allocation_update :
    Codec → AllocationRecord → AllocationRecord → Result VolumeError (Unit {0})
unfolding logical_id
validate_allocation_update codec current next = do
  validate_record codec current
  validate_record codec next
  reject (not (logical_id current =? logical_id next)) logical_id_changed
  validate_successor current next
