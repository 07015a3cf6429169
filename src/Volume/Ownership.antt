-- ===== src/Volume/Ownership.antt =====
-- pkg/volume/ownership.go: validation and sealing of the durable ownership records. A nil record is
-- not a value of the model.
pub mod Seal
use scaleway_file_storage_su.Prelude.{
  ℕ, Bool, true, false, not, ◌&&◌, ◌||◌, List, [], ◌∷◌, ◌++◌, ◌+◌, ◌*◌, length, ◌==◌,
}
use scaleway_file_storage_su.Prelude.Results.{Result, ok, err, reject, ◌>>=◌, ◌>>◌}
use scaleway_file_storage_su.Prelude.Texts.{Text, text, text_eq}
use scaleway_file_storage_su.Prelude.Strings.{has_prefix}
use scaleway_file_storage_su.Prelude.Equality.{◌=?◌, text_Eq}
use scaleway_file_storage_su.Volume.Errors.{
  VolumeError, bad_schema, bad_revision, bad_state, identity_mismatch, bad_checksum,
}
use scaleway_file_storage_su.Volume.Identifiers.{
  schema_version_v1, validate_parent_filesystem_id, validate_base_path_hash,
}
use scaleway_file_storage_su.Volume.Timestamps.{validate_required_timestamp}
use scaleway_file_storage_su.Volume.Paths.{validate_directory_name}
use scaleway_file_storage_su.Volume.Request.{no_operation}
use scaleway_file_storage_su.Volume.Handle.{Codec, logical_volume_id_of, hex_prefix}
use scaleway_file_storage_su.Volume.State.{
  AllocationState, reserved, creating_directory, archived, retained, deleted, unsupported, state_eq,
}
use scaleway_file_storage_su.Volume.Records.{detailed, compact_deleted, kind_eq, DetailedAllocation}
use scaleway_file_storage_su.Volume.OwnershipRecords.{
  DetailedOwnership, CompactOwnership, OwnershipRecord, detailed_ownership, compact_ownership,
}
use scaleway_file_storage_su.Volume.Lifecycle.{absent}
use scaleway_file_storage_su.Volume.Validation.{
  validate_common_identity, validate_compact_audit, validate_detailed,
}

-- What a checksum stands on: the codec, and for each kind of record the canonical JSON of its fields
-- other than the checksum. They are called on a record whose checksum is cleared.
pub record Sealer : Type 0 where
  pub codec : Codec
  pub detailed_json : DetailedOwnership → Text
  pub compact_json : CompactOwnership → Text

-- The allocation that validatePayload makes up, without the sentinel of deleteResult.
abbrev pub as_allocation : DetailedOwnership → DetailedAllocation
as_allocation r = record {
  schema_version = r.schema_version;
  record_kind = detailed;
  record_revision = r.revision;
  driver_name = r.driver_name;
  active_cluster_uid = r.active_cluster_uid;
  state = r.state;
  installation_id = r.installation_id;
  create_volume_request_name = r.create_volume_request_name;
  request_hash = r.request_hash;
  original_required_bytes = r.original_required_bytes;
  original_limit_bytes = r.original_limit_bytes;
  selected_capacity_bytes = r.selected_capacity_bytes;
  normalized_create_parameters = r.normalized_create_parameters;
  logical_volume_id = r.logical_volume_id;
  volume_handle = r.volume_handle;
  volume_handle_hash = r.volume_handle_hash;
  mapping_hash = r.mapping_hash;
  pool_name = r.pool_name;
  parent_filesystem_id = r.parent_filesystem_id;
  base_path = r.base_path;
  base_path_hash = r.base_path_hash;
  directory_name = r.directory_name;
  reserves_capacity = true;
  delete_policy = r.delete_policy;
  delete_result = [];
  delete_operation_id = r.delete_operation_id;
  delete_operation = r.delete_operation;
  delete_source_path = r.delete_source_path;
  delete_target_path = r.delete_target_path;
  delete_prepared_at = r.delete_prepared_at;
  delete_remove_started_at = r.delete_remove_started_at;
  delete_completed_at = r.delete_completed_at;
  directory_uid = r.directory_uid;
  directory_gid = r.directory_gid;
  directory_mode = r.directory_mode;
  created_at = r.created_at;
  updated_at = r.created_at;
  deleted_at = [];
  archived_path = r.archived_path;
  retained_path = r.retained_path;
  quarantine_path = r.quarantine_path;
  published_node_ids = r.published_node_ids;
  gc_request_id = r.gc_request_id;
  gc_requested_mode = r.gc_requested_mode;
  gc_expected_state = r.gc_expected_state;
  gc_requested_at = r.gc_requested_at;
  gc_operation_id = r.gc_operation_id;
  gc_target_path = r.gc_target_path;
  gc_quarantine_path = r.gc_quarantine_path;
  gc_started_at = r.gc_started_at;
  gc_remove_started_at = r.gc_remove_started_at;
  gc_completed_at = r.gc_completed_at;
  recovery_operation_id = [];
  recovery_source = [];
  recovered_at = [];
}

-- "validated-by-ownership-state"
abbrev pub sentinel : Text
sentinel = text "validated-by-ownership-state"

abbrev pub sentinel_of : AllocationState → Text
sentinel_of archived = sentinel
sentinel_of retained = sentinel
sentinel_of _ = []

-- `allocation` of validatePayload
abbrev pub checked_allocation : DetailedOwnership → DetailedAllocation
checked_allocation r = record (as_allocation r) { delete_result = sentinel_of r.state }

-- "sha256:" and all digits of the digest
unfoldable pub checksum_of : Codec → Text → Text
unfolding hex_prefix
checksum_of codec payload = text "sha256:" ++ hex_prefix 32 (codec.sha256 payload)

-- validateContentChecksum
unfoldable pub validate_checksum : Text → Text → Result VolumeError (Unit {0})
validate_checksum stored wanted = do
  reject (not (has_prefix stored (text "sha256:")) || not (length stored == 7 + 32 * 2))
      bad_checksum
  reject (not (stored =? wanted)) bad_checksum

module _ (sealer : Sealer) where
  -- DetailedOwnershipRecord.validatePayload
  unfoldable pub validate_detailed_payload : DetailedOwnership → Result VolumeError (Unit {0})
  validate_detailed_payload r = do
    reject
        (not (r.schema_version =? schema_version_v1)
          || not (kind_eq r.record_kind detailed)
          || r.revision == 0)
        bad_schema
    reject
        (state_eq r.state reserved
          || state_eq r.state creating_directory
          || state_eq r.state deleted)
        bad_state
    validate_detailed sealer.codec (checked_allocation r)

  -- CompactDeletedOwnershipRecord.validatePayload
  unfoldable pub validate_compact_payload : CompactOwnership → Result VolumeError (Unit {0})
  validate_compact_payload r = do
    reject
        (not (r.schema_version =? schema_version_v1)
          || not (kind_eq r.record_kind compact_deleted)
          || r.revision == 0
          || not (state_eq r.state deleted))
        bad_schema
    reject (absent r.delete_result || absent r.create_volume_request_name) bad_revision
    validate_common_identity r.driver_name r.installation_id r.active_cluster_uid
        r.logical_volume_id r.volume_handle_hash r.mapping_hash
    wanted ← logical_volume_id_of sealer.codec r.driver_name r.create_volume_request_name
    reject (not (r.logical_volume_id =? wanted)) identity_mismatch
    validate_parent_filesystem_id r.parent_filesystem_id
    validate_base_path_hash r.base_path_hash
    validate_directory_name r.directory_name
    validate_required_timestamp r.updated_at
    validate_required_timestamp r.deleted_at
    validate_compact_audit r.delete_operation_id r.delete_operation r.delete_completed_at
        r.gc_operation_id r.gc_completed_at

  -- contentChecksum
  unfoldable pub detailed_checksum : DetailedOwnership → Text
  detailed_checksum r =
      checksum_of sealer.codec (sealer.detailed_json (record r { content_checksum = [] }))

  unfoldable pub compact_checksum : CompactOwnership → Text
  compact_checksum r =
      checksum_of sealer.codec (sealer.compact_json (record r { content_checksum = [] }))

  -- DetailedOwnershipRecord.Validate
  unfoldable pub validate_detailed_ownership : DetailedOwnership → Result VolumeError (Unit {0})
  validate_detailed_ownership r = do
    validate_detailed_payload r
    validate_checksum r.content_checksum (detailed_checksum r)

  -- CompactDeletedOwnershipRecord.Validate
  unfoldable pub validate_compact_ownership : CompactOwnership → Result VolumeError (Unit {0})
  validate_compact_ownership r = do
    validate_compact_payload r
    validate_checksum r.content_checksum (compact_checksum r)

  -- OwnershipRecord.Validate
  unfoldable pub validate_ownership : OwnershipRecord → Result VolumeError (Unit {0})
  validate_ownership (detailed_ownership r) = validate_detailed_ownership r
  validate_ownership (compact_ownership r) = validate_compact_ownership r

  -- DetailedOwnershipRecord.Seal
  unfoldable pub seal_detailed : DetailedOwnership → Result VolumeError DetailedOwnership
  seal_detailed r = do
    validate_detailed_payload (record r { content_checksum = [] })
    ok (record r { content_checksum = detailed_checksum r })

  -- CompactDeletedOwnershipRecord.Seal
  unfoldable pub seal_compact : CompactOwnership → Result VolumeError CompactOwnership
  seal_compact r = do
    validate_compact_payload (record r { content_checksum = [] })
    ok (record r { content_checksum = compact_checksum r })
