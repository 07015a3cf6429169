-- ===== src/Driver/Reservation.antt =====
-- newReservedRecord and createResponse of pkg/driver/create.go: the record that a new volume is
-- reserved with.
pub mod Replay
mod Examples
use scaleway_file_storage_su.Prelude.{ℕ, Bool, true, List, [], ◌∷◌, some}
use scaleway_file_storage_su.Prelude.Results.{Result, ok, ◌>>=◌, ◌>>◌}
use scaleway_file_storage_su.Prelude.Texts.{Text}
use scaleway_file_storage_su.Volume.Errors.{VolumeError}
use scaleway_file_storage_su.Volume.Identifiers.{schema_version_v1, validate_parent_filesystem_id}
use scaleway_file_storage_su.Volume.Paths.{validate_base_path, directory_name}
use scaleway_file_storage_su.Volume.Request.{CreateParameters, no_operation}
use scaleway_file_storage_su.Volume.Handle.{
  Handle, Mapping, Codec, print_handle, new_handle, volume_handle_hash_of, base_path_hash_of,
  request_hash_of,
}
use scaleway_file_storage_su.Volume.State.{reserved, unsupported}
use scaleway_file_storage_su.Volume.Records.{detailed, DetailedAllocation}
use scaleway_file_storage_su.Volume.Validation.{validate_detailed}
use scaleway_file_storage_su.Volume.Context.{ImmutableContext}
use scaleway_file_storage_su.Volume.WireContext.{context_map}
use scaleway_file_storage_su.Driver.World.{Controller}

-- CreateRequest and Placement
pub record CreateRequest : Type 0 where
  pub name : Text
  pub required_bytes : ℕ
  pub limit_bytes : ℕ
  pub parameters : CreateParameters
  pub pvc_namespace : Text
  pub pvc_name : Text

pub record Placement : Type 0 where
  pub parent_filesystem_id : Text
  pub base_path : Text

-- `contextValue` of createResponse
abbrev pub response_context : DetailedAllocation → ImmutableContext
response_context r = record {
  schema_version = schema_version_v1;
  installation_id = r.installation_id;
  active_cluster_uid = r.active_cluster_uid;
  pool_name = r.pool_name;
  parent_filesystem_id = r.parent_filesystem_id;
  base_path = r.base_path;
  base_path_hash = r.base_path_hash;
  directory_name = r.directory_name;
  directory_mode = r.directory_mode;
  directory_uid = r.directory_uid;
  directory_gid = r.directory_gid;
  delete_policy = r.delete_policy;
  logical_volume_id = r.logical_volume_id;
}

-- CreateResponse
pub record CreateResponse : Type 0 where
  pub volume_handle : Text
  pub volume_context : List (Text × Text)
  pub capacity_bytes : ℕ

-- createResponse
unfoldable pub create_response : Codec → DetailedAllocation → Result VolumeError CreateResponse
create_response codec r = do
  context ← context_map codec (response_context r)
  ok (record {
    volume_handle = r.volume_handle;
    volume_context = context;
    capacity_bytes = r.selected_capacity_bytes;
  })

-- `record` of newReservedRecord
abbrev pub reserved_record :
    Controller
    → CreateRequest
    → (selected : ℕ) → (logical_id : Text) → Placement
    → (name : Text) → Handle
    → (handle_hash path_hash request_hash time : Text) → DetailedAllocation
reserved_record controller request selected logical_id placement name handle handle_hash path_hash
      request_hash time =
    record {
      schema_version = schema_version_v1;
      record_kind = detailed;
      record_revision = 1;
      driver_name = controller.driver_name;
      active_cluster_uid = controller.cluster_uid;
      state = reserved;
      installation_id = controller.installation_id;
      create_volume_request_name = request.name;
      request_hash = request_hash;
      original_required_bytes = request.required_bytes;
      original_limit_bytes = request.limit_bytes;
      selected_capacity_bytes = selected;
      normalized_create_parameters = request.parameters;
      logical_volume_id = logical_id;
      volume_handle = print_handle handle;
      volume_handle_hash = handle_hash;
      mapping_hash = handle.mapping_hash;
      pool_name = request.parameters.pool_name;
      parent_filesystem_id = placement.parent_filesystem_id;
      base_path = placement.base_path;
      base_path_hash = path_hash;
      directory_name = name;
      reserves_capacity = true;
      delete_policy = request.parameters.delete_policy;
      delete_result = [];
      delete_operation_id = [];
      delete_operation = no_operation;
      delete_source_path = [];
      delete_target_path = [];
      delete_prepared_at = [];
      delete_remove_started_at = [];
      delete_completed_at = [];
      directory_uid = request.parameters.directory_uid;
      directory_gid = request.parameters.directory_gid;
      directory_mode = request.parameters.directory_mode;
      created_at = time;
      updated_at = time;
      deleted_at = [];
      archived_path = [];
      retained_path = [];
      quarantine_path = [];
      published_node_ids = some [];
      gc_request_id = [];
      gc_requested_mode = [];
      gc_expected_state = unsupported [];
      gc_requested_at = [];
      gc_operation_id = [];
      gc_target_path = [];
      gc_quarantine_path = [];
      gc_started_at = [];
      gc_remove_started_at = [];
      gc_completed_at = [];
      recovery_operation_id = [];
      recovery_source = [];
      recovered_at = [];
    }

-- newReservedRecord at the time of the clock
unfoldable pub new_reserved_record :
    Controller → CreateRequest → ℕ → Text → Placement → Text → Result VolumeError DetailedAllocation
new_reserved_record controller request selected logical_id placement time = do
  validate_parent_filesystem_id placement.parent_filesystem_id
  validate_base_path placement.base_path
  name ← directory_name request.pvc_namespace request.pvc_name logical_id
  handle ← new_handle controller.sealer.codec (record {
    pool_name = request.parameters.pool_name;
    parent_filesystem_id = placement.parent_filesystem_id;
    base_path = placement.base_path;
    directory_name = name;
    logical_volume_id = logical_id;
  })
  handle_hash ← volume_handle_hash_of controller.sealer.codec (print_handle handle)
  path_hash ← base_path_hash_of controller.sealer.codec placement.base_path
  request_hash ←
      request_hash_of controller.sealer.codec request.required_bytes request.limit_bytes selected
        request.parameters
  let r =
      reserved_record controller request selected logical_id placement name handle handle_hash
        path_hash request_hash time
  validate_detailed controller.sealer.codec r
  response ← create_response controller.sealer.codec r
  ok r
