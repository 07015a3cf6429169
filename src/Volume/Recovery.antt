-- ===== src/Volume/Recovery.antt =====
-- pkg/volume/recovery.go: reconstruction of an allocation record from the ownership record of its
-- volume. Records are values, so the copies of slices are the slices.
pub mod Fields
pub mod Reconstruction
pub mod Restoring
mod Examples
use scaleway_file_storage_su.Prelude.{Bool, true, false, not, ◌&&◌, List, [], length}
use scaleway_file_storage_su.Prelude.Results.{Result, ok, err, reject, ◌>>=◌, ◌>>◌}
use scaleway_file_storage_su.Prelude.Texts.{Text, text}
use scaleway_file_storage_su.Volume.Errors.{VolumeError, bad_state}
use scaleway_file_storage_su.Volume.Identifiers.{validate_operation_id}
use scaleway_file_storage_su.Volume.Timestamps.{validate_required_timestamp}
use scaleway_file_storage_su.Volume.State.{
  AllocationState, ready, deleting, archived, deleted, retained, state_eq,
}
use scaleway_file_storage_su.Volume.Records.{
  DetailedAllocation, CompactAllocation, detailed, compact_deleted,
}
use scaleway_file_storage_su.Volume.Validation.{validate_detailed, validate_compact}
use scaleway_file_storage_su.Volume.OwnershipRecords.{DetailedOwnership, CompactOwnership}
use scaleway_file_storage_su.Volume.Ownership.{
  Sealer, validate_detailed_ownership, validate_compact_ownership,
}
use scaleway_file_storage_su.Volume.Pairing.{validate_compact_pair}
use scaleway_file_storage_su.Volume.Context.{ImmutableContext, validate_context_against_ownership}

-- The switch over the state that sets deleteResult.
abbrev pub result_of : AllocationState → Text
result_of archived = text "archived"
result_of retained = text "retained"
result_of _ = []

-- RecoverySourceOwnershipOnly and RecoverySourcePVAndOwnership
abbrev pub ownership_only : Text
ownership_only = text "ownership-only"

abbrev pub pv_and_ownership : Text
pv_and_ownership = text "pv-and-ownership"

-- The record that reconstructAllocationFromOwnership builds.
abbrev pub reconstructed : DetailedOwnership → Text → Text → Text → DetailedAllocation
reconstructed r source operation_id recovered_at = record {
  schema_version = r.schema_version;
  record_kind = detailed;
  record_revision = r.revision;
  driver_name = r.driver_name;
  active_cluster_uid = r.active_cluster_uid;
  state = r.state;
  installation_id = r.installation_id;
  create_volume_request_name = r.create_volume_request_name;
  request_hash = r.request_hash;
  original_required_bytes = r.original_required_bytes;
  original_limit_bytes = r.original_limit_bytes;
  selected_capacity_bytes = r.selected_capacity_bytes;
  normalized_create_parameters = r.normalized_create_parameters;
  logical_volume_id = r.logical_volume_id;
  volume_handle = r.volume_handle;
  volume_handle_hash = r.volume_handle_hash;
  mapping_hash = r.mapping_hash;
  pool_name = r.pool_name;
  parent_filesystem_id = r.parent_filesystem_id;
  base_path = r.base_path;
  base_path_hash = r.base_path_hash;
  directory_name = r.directory_name;
  reserves_capacity = true;
  delete_policy = r.delete_policy;
  delete_result = result_of r.state;
  delete_operation_id = r.delete_operation_id;
  delete_operation = r.delete_operation;
  delete_source_path = r.delete_source_path;
  delete_target_path = r.delete_target_path;
  delete_prepared_at = r.delete_prepared_at;
  delete_remove_started_at = r.delete_remove_started_at;
  delete_completed_at = r.delete_completed_at;
  directory_uid = r.directory_uid;
  directory_gid = r.directory_gid;
  directory_mode = r.directory_mode;
  created_at = r.created_at;
  updated_at = recovered_at;
  deleted_at = [];
  archived_path = r.archived_path;
  retained_path = r.retained_path;
  quarantine_path = r.quarantine_path;
  published_node_ids = r.published_node_ids;
  gc_request_id = r.gc_request_id;
  gc_requested_mode = r.gc_requested_mode;
  gc_expected_state = r.gc_expected_state;
  gc_requested_at = r.gc_requested_at;
  gc_operation_id = r.gc_operation_id;
  gc_target_path = r.gc_target_path;
  gc_quarantine_path = r.gc_quarantine_path;
  gc_started_at = r.gc_started_at;
  gc_remove_started_at = r.gc_remove_started_at;
  gc_completed_at = r.gc_completed_at;
  recovery_operation_id = operation_id;
  recovery_source = source;
  recovered_at = recovered_at;
}

-- The record that ReconstructCompactAllocationFromOwnership builds.
abbrev pub reconstructed_tombstone : CompactOwnership → CompactAllocation
reconstructed_tombstone r = record {
  schema_version = r.schema_version;
  record_kind = compact_deleted;
  record_revision = r.revision;
  driver_name = r.driver_name;
  installation_id = r.installation_id;
  active_cluster_uid = r.active_cluster_uid;
  create_volume_request_name = r.create_volume_request_name;
  logical_volume_id = r.logical_volume_id;
  volume_handle_hash = r.volume_handle_hash;
  mapping_hash = r.mapping_hash;
  state = deleted;
  parent_filesystem_id = r.parent_filesystem_id;
  directory_name = r.directory_name;
  reserves_capacity = false;
  delete_result = r.delete_result;
  updated_at = r.updated_at;
  deleted_at = r.deleted_at;
  delete_operation_id = r.delete_operation_id;
  delete_operation = r.delete_operation;
  archived_path = r.archived_path;
  retained_path = r.retained_path;
  quarantine_path = r.quarantine_path;
  delete_completed_at = r.delete_completed_at;
  gc_operation_id = r.gc_operation_id;
  gc_target_path = r.gc_target_path;
  gc_quarantine_path = r.gc_quarantine_path;
  gc_completed_at = r.gc_completed_at;
}

module _ (sealer : Sealer) where
  -- reconstructAllocationFromOwnership
  unfoldable pub reconstruct :
      DetailedOwnership → Text → Text → Text → Result VolumeError DetailedAllocation
  reconstruct ownership source operation_id recovered_at = do
    validate_detailed_ownership sealer ownership
    validate_operation_id operation_id
    validate_required_timestamp recovered_at
    reject
        (not (state_eq ownership.state ready)
          && not (state_eq ownership.state deleting)
          && not (state_eq ownership.state archived)
          && not (state_eq ownership.state retained))
        bad_state
    validate_detailed sealer.codec (reconstructed ownership source operation_id recovered_at)
    ok (reconstructed ownership source operation_id recovered_at)

  -- ReconstructAllocationFromOwnership
  unfoldable pub reconstruct_from_ownership :
      DetailedOwnership → Text → Text → Result VolumeError DetailedAllocation
  reconstruct_from_ownership ownership operation_id recovered_at =
      reconstruct ownership ownership_only operation_id recovered_at

  -- ReconstructAllocationFromPVAndOwnership
  unfoldable pub reconstruct_from_pv :
      DetailedOwnership
      → Text
      → ImmutableContext
      → Text
      → Text
      → Result VolumeError DetailedAllocation
  reconstruct_from_pv ownership handle context operation_id recovered_at = do
    validate_context_against_ownership sealer handle context ownership
    reconstruct ownership pv_and_ownership operation_id recovered_at

  -- ReconstructCompactAllocationFromOwnership
  unfoldable pub reconstruct_compact : CompactOwnership → Result VolumeError CompactAllocation
  reconstruct_compact ownership = do
    validate_compact_ownership sealer ownership
    validate_compact sealer.codec (reconstructed_tombstone ownership)
    validate_compact_pair sealer (reconstructed_tombstone ownership) ownership
    ok (reconstructed_tombstone ownership)
