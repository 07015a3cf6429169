-- ===== src/Volume/Pairing.antt =====
-- pkg/volume/pairing.go: agreement between the allocation record and the ownership record of one
-- logical volume. A nil record is not a value of the model, and records are values: the model has no
-- aliasing between a record and its copies.
pub mod Agreement
use scaleway_file_storage_su.Prelude.{Bool, true, false, not, ◌&&◌, ◌||◌, List, length, ◌==◌}
use scaleway_file_storage_su.Prelude.Results.{Result, ok, err, reject, ◌>>=◌, ◌>>◌}
use scaleway_file_storage_su.Prelude.Texts.{Text, text_eq}
use scaleway_file_storage_su.Prelude.Equality.{◌=?◌, text_Eq, nat_eq, texts_eq}
use scaleway_file_storage_su.Volume.Request.{disposition_Eq, equal_create_parameters}
use scaleway_file_storage_su.Volume.Errors.{
  VolumeError, bad_state, pair_differs, compaction_refused,
}
use scaleway_file_storage_su.Volume.State.{AllocationState, deleted, state_eq}
use scaleway_file_storage_su.Volume.Records.{
  DetailedAllocation, CompactAllocation, compact_deleted, nodes_of,
}
use scaleway_file_storage_su.Volume.Validation.{validate_detailed, validate_compact}
use scaleway_file_storage_su.Volume.Handle.{Codec}
use scaleway_file_storage_su.Volume.OwnershipRecords.{DetailedOwnership, CompactOwnership}
use scaleway_file_storage_su.Volume.Ownership.{
  Sealer, validate_detailed_ownership, validate_compact_ownership,
}

-- The comparison of validateDetailedPair, positively, in the groups that are used for updates.
unfoldable pub paired_request : DetailedAllocation → DetailedOwnership → Bool
paired_request allocation ownership =
    (allocation.schema_version =? ownership.schema_version)
    && (allocation.driver_name =? ownership.driver_name)
    && (allocation.installation_id =? ownership.installation_id)
    && (allocation.active_cluster_uid =? ownership.active_cluster_uid)
    && (allocation.create_volume_request_name =? ownership.create_volume_request_name)
    && (allocation.request_hash =? ownership.request_hash)

unfoldable pub paired_parameters : DetailedAllocation → DetailedOwnership → Bool
paired_parameters allocation ownership =
    (allocation.original_required_bytes =? ownership.original_required_bytes)
    && (allocation.original_limit_bytes =? ownership.original_limit_bytes)
    && (allocation.selected_capacity_bytes =? ownership.selected_capacity_bytes)
    && equal_create_parameters allocation.normalized_create_parameters
        ownership.normalized_create_parameters

unfoldable pub paired_mapping : DetailedAllocation → DetailedOwnership → Bool
paired_mapping allocation ownership =
    (allocation.volume_handle =? ownership.volume_handle)
    && (allocation.volume_handle_hash =? ownership.volume_handle_hash)
    && (allocation.logical_volume_id =? ownership.logical_volume_id)
    && (allocation.mapping_hash =? ownership.mapping_hash)
    && (allocation.pool_name =? ownership.pool_name)
    && (allocation.parent_filesystem_id =? ownership.parent_filesystem_id)
    && (allocation.base_path =? ownership.base_path)
    && (allocation.base_path_hash =? ownership.base_path_hash)
    && (allocation.directory_name =? ownership.directory_name)

unfoldable pub paired_directory : DetailedAllocation → DetailedOwnership → Bool
paired_directory allocation ownership =
    (allocation.delete_policy =? ownership.delete_policy)
    && (allocation.directory_uid =? ownership.directory_uid)
    && (allocation.directory_gid =? ownership.directory_gid)
    && (allocation.directory_mode =? ownership.directory_mode)
    && (allocation.created_at =? ownership.created_at)

unfoldable pub paired_identity : DetailedAllocation → DetailedOwnership → Bool
paired_identity allocation ownership =
    paired_request allocation ownership
    && paired_parameters allocation ownership
    && paired_mapping allocation ownership
    && paired_directory allocation ownership

-- slices.Equal of the two lists of nodes, to which nil and the empty slice are equal
unfoldable pub same_nodes : DetailedAllocation → DetailedOwnership → Bool
same_nodes allocation ownership =
    texts_eq (nodes_of allocation.published_node_ids) (nodes_of ownership.published_node_ids)

-- The comparison of ValidateCompactPair, positively: the identity, then the evidence.
unfoldable pub paired_tombstone_identity : CompactAllocation → CompactOwnership → Bool
paired_tombstone_identity allocation ownership =
    (allocation.schema_version =? ownership.schema_version)
    && (allocation.driver_name =? ownership.driver_name)
    && (allocation.installation_id =? ownership.installation_id)
    && (allocation.active_cluster_uid =? ownership.active_cluster_uid)
    && (allocation.create_volume_request_name =? ownership.create_volume_request_name)
    && (allocation.logical_volume_id =? ownership.logical_volume_id)
    && (allocation.volume_handle_hash =? ownership.volume_handle_hash)
    && (allocation.mapping_hash =? ownership.mapping_hash)
    && (allocation.parent_filesystem_id =? ownership.parent_filesystem_id)
    && (allocation.directory_name =? ownership.directory_name)

unfoldable pub paired_tombstone_evidence : CompactAllocation → CompactOwnership → Bool
paired_tombstone_evidence allocation ownership =
    state_eq allocation.state ownership.state
    && (allocation.delete_result =? ownership.delete_result)
    && (allocation.deleted_at =? ownership.deleted_at)
    && (allocation.delete_operation =? ownership.delete_operation)
    && (allocation.archived_path =? ownership.archived_path)
    && (allocation.retained_path =? ownership.retained_path)
    && (allocation.quarantine_path =? ownership.quarantine_path)
    && (allocation.delete_operation_id =? ownership.delete_operation_id)
    && (allocation.delete_completed_at =? ownership.delete_completed_at)
    && (allocation.gc_operation_id =? ownership.gc_operation_id)
    && (allocation.gc_target_path =? ownership.gc_target_path)
    && (allocation.gc_quarantine_path =? ownership.gc_quarantine_path)
    && (allocation.gc_completed_at =? ownership.gc_completed_at)

-- The record that CompactDeletedProjection and compactAllocationProjection build.
abbrev pub compact_projection_of : DetailedAllocation → CompactAllocation
compact_projection_of r = record {
  schema_version = r.schema_version;
  record_kind = compact_deleted;
  record_revision = r.record_revision;
  driver_name = r.driver_name;
  installation_id = r.installation_id;
  active_cluster_uid = r.active_cluster_uid;
  create_volume_request_name = r.create_volume_request_name;
  logical_volume_id = r.logical_volume_id;
  volume_handle_hash = r.volume_handle_hash;
  mapping_hash = r.mapping_hash;
  state = deleted;
  parent_filesystem_id = r.parent_filesystem_id;
  directory_name = r.directory_name;
  reserves_capacity = false;
  delete_result = r.delete_result;
  updated_at = r.updated_at;
  deleted_at = r.deleted_at;
  delete_operation_id = r.delete_operation_id;
  delete_operation = r.delete_operation;
  archived_path = r.archived_path;
  retained_path = r.retained_path;
  quarantine_path = r.quarantine_path;
  delete_completed_at = r.delete_completed_at;
  gc_operation_id = r.gc_operation_id;
  gc_target_path = r.gc_target_path;
  gc_quarantine_path = r.gc_quarantine_path;
  gc_completed_at = r.gc_completed_at;
}

-- CompactDeletedProjection
unfoldable pub compact_deleted_projection :
    Codec → DetailedAllocation → Result VolumeError CompactAllocation
compact_deleted_projection codec r = do
  validate_detailed codec r
  reject
      (not (state_eq r.state deleted)
        || r.reserves_capacity
        || not (length (nodes_of r.published_node_ids) == 0))
      compaction_refused
  validate_compact codec (compact_projection_of r)
  ok (compact_projection_of r)

module _ (sealer : Sealer) where
  -- validateDetailedPair
  unfoldable pub validate_pair :
      DetailedAllocation
      → DetailedOwnership
      → AllocationState
      → Bool
      → Result VolumeError (Unit {0})
  validate_pair allocation ownership expected_owner_state compare_published_nodes = do
    validate_detailed sealer.codec allocation
    validate_detailed_ownership sealer ownership
    reject (not (state_eq ownership.state expected_owner_state)) bad_state
    reject
        (not (paired_identity allocation ownership)
          || (compare_published_nodes && not (same_nodes allocation ownership)))
        pair_differs

  -- ValidateDetailedPair
  unfoldable pub validate_detailed_pair :
      DetailedAllocation → DetailedOwnership → AllocationState → Result VolumeError (Unit {0})
  validate_detailed_pair allocation ownership expected_owner_state =
      validate_pair allocation ownership expected_owner_state true

  -- ValidateDetailedIdentityPair
  unfoldable pub validate_detailed_identity_pair :
      DetailedAllocation → DetailedOwnership → AllocationState → Result VolumeError (Unit {0})
  validate_detailed_identity_pair allocation ownership expected_owner_state =
      validate_pair allocation ownership expected_owner_state false

  -- ValidateCompactPair
  unfoldable pub validate_compact_pair :
      CompactAllocation → CompactOwnership → Result VolumeError (Unit {0})
  validate_compact_pair allocation ownership = do
    validate_compact sealer.codec allocation
    validate_compact_ownership sealer ownership
    reject
        (not (
          paired_tombstone_identity allocation ownership
          && paired_tombstone_evidence allocation ownership))
        pair_differs
