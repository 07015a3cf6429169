-- ===== src/Volume/Validation.antt =====
-- Validate of the three durable allocation records in pkg/volume/allocation.go. A nil record, which
-- the source refuses first, is not a value of the model. Where the source ranges over a map of
-- fields, the model checks the fields in the order in which the source lists them.
use scaleway_file_storage_su.Prelude.{
  Bool, true, not, ◌&&◌, ◌||◌, List, [], ◌∷◌, Option, none, some, length, ltb, ◌==◌, if◌then◌else◌,
}
use scaleway_file_storage_su.Prelude.Results.{Result, ok, err, reject, ◌>>=◌, ◌>>◌}
use scaleway_file_storage_su.Prelude.Texts.{Text, text_eq}
use scaleway_file_storage_su.Prelude.Strings.{contains_byte, text_leb}
use scaleway_file_storage_su.Prelude.Equality.{◌=?◌, text_Eq, nat_eq, bool_eq}
use scaleway_file_storage_su.Volume.Errors.{
  VolumeError, bad_schema, bad_revision, bad_reservation, bad_request_name, identity_mismatch,
  zero_capacity, capacity_out_of_range, not_canonical, bad_published_nodes, bad_compact_audit,
  bad_absence_reason,
}
use scaleway_file_storage_su.Volume.Identifiers.{
  schema_version_v1, validate_driver_name, validate_installation_id, validate_cluster_uid,
  validate_logical_volume_id, validate_volume_handle_hash, validate_mapping_hash, validate_node_id,
  validate_operation_id, validate_parent_filesystem_id,
}
use scaleway_file_storage_su.Volume.Timestamps.{
  validate_required_timestamp, validate_optional_timestamps,
}
use scaleway_file_storage_su.Volume.Paths.{validate_directory_name}
use scaleway_file_storage_su.Volume.Request.{
  Disposition, disposition_Eq, normalize, equal_create_parameters, capacity_compatible,
}
use scaleway_file_storage_su.Volume.Handle.{
  Codec, Mapping, validate_mapping, parse_handle, logical_volume_id_of, mapping_hash_of,
  base_path_hash_of, volume_handle_hash_of, request_hash_of,
}
use scaleway_file_storage_su.Volume.State.{AllocationState, deleted, state_eq, reserves}
use scaleway_file_storage_su.Volume.Records.{
  detailed, compact_deleted, deleted_unknown, kind_eq, DetailedAllocation, CompactAllocation,
  UnknownAllocation, AllocationRecord, detailed_record, compact_record, unknown_record,
}
use scaleway_file_storage_su.Volume.Lifecycle.{
  present, absent, operation_present, validate_lifecycle,
}

-- validateCommonRecordIdentity
unfoldable pub validate_common_identity :
    Text → Text → Text → Text → Text → Text → Result VolumeError (Unit {0})
validate_common_identity driver_name installation_id cluster_uid logical_id handle_hash hash = do
  validate_driver_name driver_name
  validate_installation_id installation_id
  validate_cluster_uid cluster_uid
  validate_logical_volume_id logical_id
  validate_volume_handle_hash handle_hash
  validate_mapping_hash hash

-- slices.IsSorted
unfoldable pub is_sorted : List Text → Bool
is_sorted [] = true
is_sorted (t ∷ []) = true
is_sorted (t ∷ u ∷ us) = text_leb t u && is_sorted (u ∷ us)

-- The loop of validatePublishedNodes after a first node.
unfoldable pub validate_nodes_after : Text → List Text → Result VolumeError (Unit {0})
validate_nodes_after previous [] = ok tt
validate_nodes_after previous (node ∷ nodes) = do
  validate_node_id node
  reject (text_eq previous node) bad_published_nodes
  validate_nodes_after node nodes

unfoldable pub validate_nodes : List Text → Result VolumeError (Unit {0})
validate_nodes [] = ok tt
validate_nodes (node ∷ nodes) = do validate_node_id node; validate_nodes_after node nodes

-- validatePublishedNodes
unfoldable pub validate_published_nodes : Option (List Text) → Result VolumeError (Unit {0})
validate_published_nodes none = err bad_published_nodes
validate_published_nodes (some nodes) = do
  reject (not (is_sorted nodes)) bad_published_nodes
  validate_nodes nodes

-- validateCompactAudit
unfoldable pub validate_compact_audit :
    Text → Disposition → Text → Text → Text → Result VolumeError (Unit {0})
validate_compact_audit delete_id operation delete_completed_at gc_id gc_completed_at = do
  reject (absent delete_id && absent gc_id) bad_compact_audit
  reject
      ((present delete_id || operation_present operation || present delete_completed_at)
        && (absent delete_id || not (operation_present operation) || absent delete_completed_at))
      bad_compact_audit
  if absent delete_id then ok tt else (do
    validate_operation_id delete_id
    reject (not (operation_present operation) || absent delete_completed_at) bad_compact_audit)
  reject ((present gc_id || present gc_completed_at) && (absent gc_id || absent gc_completed_at))
      bad_compact_audit
  if absent gc_id
      then ok tt
      else (do validate_operation_id gc_id; reject (absent gc_completed_at) bad_compact_audit)
  validate_optional_timestamps (delete_completed_at ∷ gc_completed_at ∷ [])

-- `reserves, err := record.State.Reserves()` and the comparison after it
unfoldable pub validate_reservation : AllocationState → Bool → Result VolumeError (Unit {0})
validate_reservation state reserves_capacity = do
  wanted ← reserves state
  reject (not (bool_eq wanted reserves_capacity)) bad_reservation

abbrev pub mapping_of : DetailedAllocation → Mapping
mapping_of r = record {
  pool_name = r.pool_name;
  parent_filesystem_id = r.parent_filesystem_id;
  base_path = r.base_path;
  directory_name = r.directory_name;
  logical_volume_id = r.logical_volume_id;
}

module _ (codec : Codec) where
  -- The request name and the logical volume ID that it determines.
  unfoldable pub validate_logical_identity : DetailedAllocation → Result VolumeError (Unit {0})
  validate_logical_identity r = do
    reject (absent r.create_volume_request_name || contains_byte 0 r.create_volume_request_name)
        bad_request_name
    wanted ← logical_volume_id_of codec r.driver_name r.create_volume_request_name
    reject (not (r.logical_volume_id =? wanted)) identity_mismatch

  -- The capacity range, the normalized parameters and the request hash.
  unfoldable pub validate_request_identity : DetailedAllocation → Result VolumeError (Unit {0})
  validate_request_identity r = do
    reject (r.selected_capacity_bytes == 0) zero_capacity
    reject
        (not (
          capacity_compatible r.selected_capacity_bytes r.original_required_bytes
            r.original_limit_bytes))
        capacity_out_of_range
    parameters ← normalize r.normalized_create_parameters
    reject (not (equal_create_parameters parameters r.normalized_create_parameters)) not_canonical
    reject
        (not (r.pool_name =? parameters.pool_name)
          || not (r.delete_policy =? parameters.delete_policy)
          || not (r.directory_uid =? parameters.directory_uid)
          || not (r.directory_gid =? parameters.directory_gid)
          || not (r.directory_mode =? parameters.directory_mode))
        identity_mismatch
    wanted ←
        request_hash_of codec r.original_required_bytes r.original_limit_bytes
          r.selected_capacity_bytes parameters
    reject (not (r.request_hash =? wanted)) identity_mismatch

  -- The mapping, the handle and their hashes.
  unfoldable pub validate_mapping_identity : DetailedAllocation → Result VolumeError (Unit {0})
  validate_mapping_identity r = do
    validate_mapping (mapping_of r)
    wanted ← mapping_hash_of codec (mapping_of r)
    reject (not (r.mapping_hash =? wanted)) identity_mismatch
    handle ← parse_handle r.volume_handle
    reject
        (not (handle.logical_volume_id =? r.logical_volume_id)
          || not (handle.mapping_hash =? r.mapping_hash))
        identity_mismatch
    handle_hash ← volume_handle_hash_of codec r.volume_handle
    reject (not (r.volume_handle_hash =? handle_hash)) identity_mismatch
    path_hash ← base_path_hash_of codec r.base_path
    reject (not (r.base_path_hash =? path_hash)) identity_mismatch

  -- DetailedAllocationRecord.Validate
  unfoldable pub validate_detailed : DetailedAllocation → Result VolumeError (Unit {0})
  validate_detailed r = do
    reject (not (r.schema_version =? schema_version_v1) || not (kind_eq r.record_kind detailed))
        bad_schema
    reject (r.record_revision == 0) bad_revision
    validate_common_identity r.driver_name r.installation_id r.active_cluster_uid
        r.logical_volume_id r.volume_handle_hash r.mapping_hash
    validate_logical_identity r
    validate_request_identity r
    validate_mapping_identity r
    validate_reservation r.state r.reserves_capacity
    validate_published_nodes r.published_node_ids
    validate_required_timestamp r.created_at
    validate_required_timestamp r.updated_at
    validate_lifecycle r

  -- CompactDeletedAllocationRecord.Validate
  unfoldable pub validate_compact : CompactAllocation → Result VolumeError (Unit {0})
  validate_compact r = do
    reject
        (not (r.schema_version =? schema_version_v1)
          || not (kind_eq r.record_kind compact_deleted)
          || not (state_eq r.state deleted)
          || r.reserves_capacity)
        bad_schema
    reject (r.record_revision == 0 || absent r.create_volume_request_name || absent r.delete_result)
        bad_revision
    validate_common_identity r.driver_name r.installation_id r.active_cluster_uid
        r.logical_volume_id r.volume_handle_hash r.mapping_hash
    validate_parent_filesystem_id r.parent_filesystem_id
    validate_directory_name r.directory_name
    wanted ← logical_volume_id_of codec r.driver_name r.create_volume_request_name
    reject (not (r.logical_volume_id =? wanted)) identity_mismatch
    validate_required_timestamp r.updated_at
    validate_required_timestamp r.deleted_at
    validate_compact_audit r.delete_operation_id r.delete_operation r.delete_completed_at
        r.gc_operation_id r.gc_completed_at

-- DeletedUnknownAllocationRecord.Validate
unfoldable pub validate_unknown : UnknownAllocation → Result VolumeError (Unit {0})
validate_unknown r = do
  reject
      (not (r.schema_version =? schema_version_v1)
        || not (kind_eq r.record_kind deleted_unknown)
        || not (state_eq r.state deleted)
        || r.reserves_capacity)
      bad_schema
  reject (r.record_revision == 0 || absent r.absence_reason || ltb 512 (length r.absence_reason))
      bad_absence_reason
  validate_common_identity r.driver_name r.installation_id r.active_cluster_uid r.logical_volume_id
      r.volume_handle_hash r.mapping_hash
  validate_required_timestamp r.created_at
  validate_required_timestamp r.updated_at
  validate_required_timestamp r.deleted_at

-- AllocationRecord.Validate
unfoldable pub validate_record : Codec → AllocationRecord → Result VolumeError (Unit {0})
validate_record codec (detailed_record r) = validate_detailed codec r
validate_record codec (compact_record r) = validate_compact codec r
validate_record codec (unknown_record r) = validate_unknown r
