-- ===== src/Volume/OwnershipTransition.antt =====
-- pkg/volume/ownership_transition.go: the successor relation between durable ownership records. A
-- nil record is not a value of the model. Revisions are uint64, so the successor wraps around.
pub mod Steps
use scaleway_file_storage_su.Prelude.{ℕ, ◌+◌, Bool, not, ◌&&◌, ◌||◌, ◌==◌}
use scaleway_file_storage_su.Prelude.Words.{u64}
use scaleway_file_storage_su.Prelude.Results.{Result, err, reject, ◌>>=◌, ◌>>◌}
use scaleway_file_storage_su.Prelude.Texts.{Text, text_eq}
use scaleway_file_storage_su.Prelude.Equality.{◌=?◌, text_Eq, nat_eq, texts_eq}
use scaleway_file_storage_su.Volume.Request.{disposition_Eq, equal_create_parameters}
use scaleway_file_storage_su.Volume.Errors.{
  VolumeError, logical_id_changed, revision_skipped, immutable_changed, transition_refused,
  tombstone_immutable, compaction_refused,
}
use scaleway_file_storage_su.Volume.State.{
  deleting, archived, retained, state_eq, ownership_transition,
}
use scaleway_file_storage_su.Volume.Records.{kind_eq}
use scaleway_file_storage_su.Volume.OwnershipRecords.{
  DetailedOwnership, CompactOwnership, OwnershipRecord, detailed_ownership, compact_ownership,
  owner_logical_id,
}
use scaleway_file_storage_su.Volume.Ownership.{Sealer, validate_ownership}

-- The comparison of validateDetailedOwnershipImmutableEquality, positively: no field differs. It is
-- cut into the owner and request, the capacity and parameters, the mapping, and the directory.
unfoldable pub owner_same_request : DetailedOwnership → DetailedOwnership → Bool
owner_same_request current next =
    (current.schema_version =? next.schema_version)
    && kind_eq current.record_kind next.record_kind
    && (current.driver_name =? next.driver_name)
    && (current.installation_id =? next.installation_id)
    && (current.active_cluster_uid =? next.active_cluster_uid)
    && (current.create_volume_request_name =? next.create_volume_request_name)
    && (current.request_hash =? next.request_hash)

unfoldable pub owner_same_parameters : DetailedOwnership → DetailedOwnership → Bool
owner_same_parameters current next =
    (current.original_required_bytes =? next.original_required_bytes)
    && (current.original_limit_bytes =? next.original_limit_bytes)
    && (current.selected_capacity_bytes =? next.selected_capacity_bytes)
    && equal_create_parameters current.normalized_create_parameters
        next.normalized_create_parameters

unfoldable pub owner_same_mapping : DetailedOwnership → DetailedOwnership → Bool
owner_same_mapping current next =
    (current.volume_handle =? next.volume_handle)
    && (current.volume_handle_hash =? next.volume_handle_hash)
    && (current.logical_volume_id =? next.logical_volume_id)
    && (current.mapping_hash =? next.mapping_hash)
    && (current.pool_name =? next.pool_name)
    && (current.parent_filesystem_id =? next.parent_filesystem_id)
    && (current.base_path =? next.base_path)
    && (current.base_path_hash =? next.base_path_hash)
    && (current.directory_name =? next.directory_name)

unfoldable pub owner_same_directory : DetailedOwnership → DetailedOwnership → Bool
owner_same_directory current next =
    (current.delete_policy =? next.delete_policy)
    && (current.directory_uid =? next.directory_uid)
    && (current.directory_gid =? next.directory_gid)
    && (current.directory_mode =? next.directory_mode)
    && (current.created_at =? next.created_at)

unfoldable pub owner_immutable_equal : DetailedOwnership → DetailedOwnership → Bool
owner_immutable_equal current next =
    owner_same_request current next
    && owner_same_parameters current next
    && owner_same_mapping current next
    && owner_same_directory current next

-- The comparison of validateOwnershipCompactionEquality, positively: the identity, then the evidence.
unfoldable pub owner_same_identity : DetailedOwnership → CompactOwnership → Bool
owner_same_identity current next =
    (current.schema_version =? next.schema_version)
    && (current.driver_name =? next.driver_name)
    && (current.installation_id =? next.installation_id)
    && (current.active_cluster_uid =? next.active_cluster_uid)
    && (current.volume_handle_hash =? next.volume_handle_hash)
    && (current.logical_volume_id =? next.logical_volume_id)
    && (current.create_volume_request_name =? next.create_volume_request_name)
    && (current.mapping_hash =? next.mapping_hash)
    && (current.parent_filesystem_id =? next.parent_filesystem_id)
    && (current.base_path_hash =? next.base_path_hash)
    && (current.directory_name =? next.directory_name)

unfoldable pub owner_same_evidence : DetailedOwnership → CompactOwnership → Bool
owner_same_evidence current next =
    (current.delete_operation =? next.delete_operation)
    && (current.archived_path =? next.archived_path)
    && (current.retained_path =? next.retained_path)
    && (current.quarantine_path =? next.quarantine_path)
    && (current.delete_operation_id =? next.delete_operation_id)
    && (current.gc_operation_id =? next.gc_operation_id)
    && (current.gc_target_path =? next.gc_target_path)
    && (current.gc_quarantine_path =? next.gc_quarantine_path)

unfoldable pub owner_compaction_equal : DetailedOwnership → CompactOwnership → Bool
owner_compaction_equal current next =
    owner_same_identity current next && owner_same_evidence current next

-- The two kinds of successor of a detailed record.
unfoldable pub validate_detailed_ownership_update :
    DetailedOwnership → DetailedOwnership → Result VolumeError (Unit {0})
validate_detailed_ownership_update current next = do
  reject (not (next.revision == u64 (current.revision + 1))) revision_skipped
  reject (not (owner_immutable_equal current next)) immutable_changed
  reject (not (ownership_transition current.state next.state)) transition_refused

unfoldable pub validate_ownership_compaction :
    DetailedOwnership → CompactOwnership → Result VolumeError (Unit {0})
validate_ownership_compaction current next = do
  reject (not (next.revision == u64 (current.revision + 1))) revision_skipped
  reject
      (not (state_eq current.state deleting)
        && not (state_eq current.state archived)
        && not (state_eq current.state retained))
      compaction_refused
  reject (not (owner_compaction_equal current next)) immutable_changed

-- The switch over the types of both records.
unfoldable pub validate_ownership_successor :
    OwnershipRecord → OwnershipRecord → Result VolumeError (Unit {0})
validate_ownership_successor (detailed_ownership current) (detailed_ownership next) =
    validate_detailed_ownership_update current next
validate_ownership_successor (detailed_ownership current) (compact_ownership next) =
    validate_ownership_compaction current next
validate_ownership_successor (compact_ownership current) next = err tombstone_immutable

-- ValidateOwnershipUpdate
unfoldable pub validate_ownership_update :
    Sealer → OwnershipRecord → OwnershipRecord → Result VolumeError (Unit {0})
validate_ownership_update sealer current next = do
  validate_ownership sealer current
  validate_ownership sealer next
  reject (not (owner_logical_id current =? owner_logical_id next)) logical_id_changed
  validate_ownership_successor current next
