-- ===== src/Volume/OwnershipRecords.antt =====
-- The durable ownership records of pkg/volume/ownership.go.
use scaleway_file_storage_su.Prelude.{ℕ, List, Option}
use scaleway_file_storage_su.Prelude.Texts.{Text}
use scaleway_file_storage_su.Volume.Request.{CreateParameters, Disposition}
use scaleway_file_storage_su.Volume.State.{AllocationState}
use scaleway_file_storage_su.Volume.Records.{RecordKind}

-- DetailedOwnershipRecord
pub record DetailedOwnership : Type 0 where
  pub schema_version : Text
  pub record_kind : RecordKind
  pub driver_name : Text
  pub installation_id : Text
  pub active_cluster_uid : Text
  pub volume_handle : Text
  pub volume_handle_hash : Text
  pub logical_volume_id : Text
  pub mapping_hash : Text
  pub pool_name : Text
  pub parent_filesystem_id : Text
  pub base_path : Text
  pub base_path_hash : Text
  pub directory_name : Text
  pub create_volume_request_name : Text
  pub request_hash : Text
  pub original_required_bytes : ℕ
  pub original_limit_bytes : ℕ
  pub selected_capacity_bytes : ℕ
  pub normalized_create_parameters : CreateParameters
  pub delete_policy : Disposition
  pub directory_uid : ℕ
  pub directory_gid : ℕ
  pub directory_mode : Text
  pub published_node_ids : Option (List Text)
  pub state : AllocationState
  pub revision : ℕ
  pub content_checksum : Text
  pub created_at : Text
  pub delete_operation_id : Text
  pub delete_operation : Disposition
  pub delete_source_path : Text
  pub delete_target_path : Text
  pub delete_prepared_at : Text
  pub delete_remove_started_at : Text
  pub delete_completed_at : Text
  pub archived_path : Text
  pub retained_path : Text
  pub quarantine_path : Text
  pub gc_request_id : Text
  pub gc_requested_mode : Text
  pub gc_expected_state : AllocationState
  pub gc_requested_at : Text
  pub gc_operation_id : Text
  pub gc_target_path : Text
  pub gc_quarantine_path : Text
  pub gc_started_at : Text
  pub gc_remove_started_at : Text
  pub gc_completed_at : Text

-- CompactDeletedOwnershipRecord
pub record CompactOwnership : Type 0 where
  pub schema_version : Text
  pub record_kind : RecordKind
  pub revision : ℕ
  pub driver_name : Text
  pub installation_id : Text
  pub active_cluster_uid : Text
  pub volume_handle_hash : Text
  pub logical_volume_id : Text
  pub create_volume_request_name : Text
  pub mapping_hash : Text
  pub parent_filesystem_id : Text
  pub base_path_hash : Text
  pub directory_name : Text
  pub state : AllocationState
  pub delete_result : Text
  pub updated_at : Text
  pub deleted_at : Text
  pub content_checksum : Text
  pub delete_operation : Disposition
  pub archived_path : Text
  pub retained_path : Text
  pub quarantine_path : Text
  pub delete_operation_id : Text
  pub delete_completed_at : Text
  pub gc_operation_id : Text
  pub gc_target_path : Text
  pub gc_quarantine_path : Text
  pub gc_completed_at : Text

-- OwnershipRecord: a non-nil record of one of the two variants.
pub data OwnershipRecord : Type 0 where
  detailed_ownership : DetailedOwnership → OwnershipRecord
  compact_ownership : CompactOwnership → OwnershipRecord

-- LogicalID and LifecycleState
unfoldable pub owner_logical_id : OwnershipRecord → Text
owner_logical_id (detailed_ownership r) = r.logical_volume_id
owner_logical_id (compact_ownership r) = r.logical_volume_id

unfoldable pub owner_state : OwnershipRecord → AllocationState
owner_state (detailed_ownership r) = r.state
owner_state (compact_ownership r) = r.state
