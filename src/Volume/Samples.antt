-- ===== src/Volume/Samples.antt =====
-- Concrete records of one volume, on which the examples run.
use scaleway_file_storage_su.Prelude.{ℕ, Bool, false, [], ◌∷◌, ◌++◌, some}
use scaleway_file_storage_su.Prelude.Texts.{Text, text}
use scaleway_file_storage_su.Volume.Identifiers.{schema_version_v1}
use scaleway_file_storage_su.Volume.Request.{delete, no_operation}
use scaleway_file_storage_su.Volume.Handle.{Codec}
use scaleway_file_storage_su.Volume.State.{AllocationState, deleted, unsupported}
use scaleway_file_storage_su.Volume.Records.{
  detailed, compact_deleted, DetailedAllocation, CompactAllocation,
}
use scaleway_file_storage_su.Volume.OwnershipRecords.{DetailedOwnership, CompactOwnership}
use scaleway_file_storage_su.Volume.Ownership.{Sealer}

-- A stand-in for the encoder and SHA-256 whose digests are all the same.
abbrev pub constant_codec : Codec
constant_codec = record {
  marshal = λ payload. [];
  sha256 = λ bytes.
      171 ∷ 171 ∷ 171 ∷ 171 ∷ 171 ∷ 171 ∷ 171 ∷ 171 ∷ 171 ∷ 171 ∷ 171 ∷ 171 ∷ 171 ∷ 171 ∷ 171 ∷ 171
      ∷ 171 ∷ 171 ∷ 171 ∷ 171 ∷ 171 ∷ 171 ∷ 171 ∷ 171 ∷ 171 ∷ 171 ∷ 171 ∷ 171 ∷ 171 ∷ 171 ∷ 171
      ∷ 171 ∷ [];
}

abbrev pub digits : Text
digits = text "abababababababababababababababab"

abbrev pub some_uuid : Text
some_uuid = text "0b0e2f6c-3a58-4f6e-9d53-6f4f8c7a1b20"

abbrev pub day : Text
day = text "2024-02-29T12:00:00Z"

abbrev pub volume_at : AllocationState → ℕ → Bool → DetailedAllocation
volume_at state revision reserves = record {
  schema_version = schema_version_v1;
  record_kind = detailed;
  record_revision = revision;
  driver_name = text "csi.example.com";
  active_cluster_uid = text "cluster-1";
  state = state;
  installation_id = some_uuid;
  create_volume_request_name = text "pvc-1";
  request_hash = text "rh-" ++ digits;
  original_required_bytes = 100;
  original_limit_bytes = 0;
  selected_capacity_bytes = 100;
  normalized_create_parameters = record {
    pool_name = text "fast";
    delete_policy = delete;
    directory_uid = 1000;
    directory_gid = 1000;
    directory_mode = text "0770";
    access_type = text "mount";
    filesystem_type = text "virtiofs";
    access_modes = text "MULTI_NODE_MULTI_WRITER" ∷ [];
  };
  logical_volume_id = text "lv-" ++ digits;
  volume_handle = text "sfs1:lv-" ++ digits ++ text ":mh-" ++ digits;
  volume_handle_hash = text "vh-" ++ digits;
  mapping_hash = text "mh-" ++ digits;
  pool_name = text "fast";
  parent_filesystem_id = text "fs-1";
  base_path = text "/vols";
  base_path_hash = text "bp-" ++ digits;
  directory_name = text "data";
  reserves_capacity = reserves;
  delete_policy = delete;
  delete_result = [];
  delete_operation_id = [];
  delete_operation = no_operation;
  delete_source_path = [];
  delete_target_path = [];
  delete_prepared_at = [];
  delete_remove_started_at = [];
  delete_completed_at = [];
  directory_uid = 1000;
  directory_gid = 1000;
  directory_mode = text "0770";
  created_at = day;
  updated_at = day;
  deleted_at = [];
  archived_path = [];
  retained_path = [];
  quarantine_path = [];
  published_node_ids = some [];
  gc_request_id = [];
  gc_requested_mode = [];
  gc_expected_state = unsupported [];
  gc_requested_at = [];
  gc_operation_id = [];
  gc_target_path = [];
  gc_quarantine_path = [];
  gc_started_at = [];
  gc_remove_started_at = [];
  gc_completed_at = [];
  recovery_operation_id = [];
  recovery_source = [];
  recovered_at = [];
}

abbrev pub deleted_path : Text
deleted_path = text "/vols/.deleted/data-lv-" ++ digits ++ text "-20240229t120000z-" ++ some_uuid

-- The record after its delete, and the tombstone that replaces it.
abbrev pub deleted_volume : DetailedAllocation
deleted_volume = record (volume_at deleted 5 false) {
  delete_result = text "deleted";
  delete_operation_id = some_uuid;
  delete_operation = delete;
  delete_source_path = text "/vols/data";
  delete_target_path = deleted_path;
  delete_prepared_at = day;
  delete_remove_started_at = day;
  delete_completed_at = day;
  deleted_at = day;
  quarantine_path = deleted_path;
}

abbrev pub tombstone : CompactAllocation
tombstone = record {
  schema_version = schema_version_v1;
  record_kind = compact_deleted;
  record_revision = 6;
  driver_name = text "csi.example.com";
  installation_id = some_uuid;
  active_cluster_uid = text "cluster-1";
  create_volume_request_name = text "pvc-1";
  logical_volume_id = text "lv-" ++ digits;
  volume_handle_hash = text "vh-" ++ digits;
  mapping_hash = text "mh-" ++ digits;
  state = deleted;
  parent_filesystem_id = text "fs-1";
  directory_name = text "data";
  reserves_capacity = false;
  delete_result = text "deleted";
  updated_at = day;
  deleted_at = day;
  delete_operation_id = some_uuid;
  delete_operation = delete;
  archived_path = [];
  retained_path = [];
  quarantine_path = deleted_path;
  delete_completed_at = day;
  gc_operation_id = [];
  gc_target_path = [];
  gc_quarantine_path = [];
  gc_completed_at = [];
}

-- "sha256:" and the digits of the stand-in digest
abbrev pub checksum : Text
checksum = text "sha256:" ++ digits ++ digits

-- A stand-in for the canonical JSON of ownership records.
abbrev pub constant_sealer : Sealer
constant_sealer = record {
  codec = constant_codec;
  detailed_json = λ r. r.logical_volume_id;
  compact_json = λ r. r.logical_volume_id;
}

-- The ownership record of an allocation record.
abbrev pub ownership_of : DetailedAllocation → DetailedOwnership
ownership_of r = record {
  schema_version = r.schema_version;
  record_kind = r.record_kind;
  driver_name = r.driver_name;
  installation_id = r.installation_id;
  active_cluster_uid = r.active_cluster_uid;
  volume_handle = r.volume_handle;
  volume_handle_hash = r.volume_handle_hash;
  logical_volume_id = r.logical_volume_id;
  mapping_hash = r.mapping_hash;
  pool_name = r.pool_name;
  parent_filesystem_id = r.parent_filesystem_id;
  base_path = r.base_path;
  base_path_hash = r.base_path_hash;
  directory_name = r.directory_name;
  create_volume_request_name = r.create_volume_request_name;
  request_hash = r.request_hash;
  original_required_bytes = r.original_required_bytes;
  original_limit_bytes = r.original_limit_bytes;
  selected_capacity_bytes = r.selected_capacity_bytes;
  normalized_create_parameters = r.normalized_create_parameters;
  delete_policy = r.delete_policy;
  directory_uid = r.directory_uid;
  directory_gid = r.directory_gid;
  directory_mode = r.directory_mode;
  published_node_ids = r.published_node_ids;
  state = r.state;
  revision = r.record_revision;
  content_checksum = checksum;
  created_at = r.created_at;
  delete_operation_id = r.delete_operation_id;
  delete_operation = r.delete_operation;
  delete_source_path = r.delete_source_path;
  delete_target_path = r.delete_target_path;
  delete_prepared_at = r.delete_prepared_at;
  delete_remove_started_at = r.delete_remove_started_at;
  delete_completed_at = r.delete_completed_at;
  archived_path = r.archived_path;
  retained_path = r.retained_path;
  quarantine_path = r.quarantine_path;
  gc_request_id = r.gc_request_id;
  gc_requested_mode = r.gc_requested_mode;
  gc_expected_state = r.gc_expected_state;
  gc_requested_at = r.gc_requested_at;
  gc_operation_id = r.gc_operation_id;
  gc_target_path = r.gc_target_path;
  gc_quarantine_path = r.gc_quarantine_path;
  gc_started_at = r.gc_started_at;
  gc_remove_started_at = r.gc_remove_started_at;
  gc_completed_at = r.gc_completed_at;
}

-- The ownership record of a tombstone.
abbrev pub ownership_tombstone_of : CompactAllocation → CompactOwnership
ownership_tombstone_of r = record {
  schema_version = r.schema_version;
  record_kind = r.record_kind;
  revision = r.record_revision;
  driver_name = r.driver_name;
  installation_id = r.installation_id;
  active_cluster_uid = r.active_cluster_uid;
  volume_handle_hash = r.volume_handle_hash;
  logical_volume_id = r.logical_volume_id;
  create_volume_request_name = r.create_volume_request_name;
  mapping_hash = r.mapping_hash;
  parent_filesystem_id = r.parent_filesystem_id;
  base_path_hash = text "bp-" ++ digits;
  directory_name = r.directory_name;
  state = r.state;
  delete_result = r.delete_result;
  updated_at = r.updated_at;
  deleted_at = r.deleted_at;
  content_checksum = checksum;
  delete_operation = r.delete_operation;
  archived_path = r.archived_path;
  retained_path = r.retained_path;
  quarantine_path = r.quarantine_path;
  delete_operation_id = r.delete_operation_id;
  delete_completed_at = r.delete_completed_at;
  gc_operation_id = r.gc_operation_id;
  gc_target_path = r.gc_target_path;
  gc_quarantine_path = r.gc_quarantine_path;
  gc_completed_at = r.gc_completed_at;
}
