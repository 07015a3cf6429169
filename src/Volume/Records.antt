-- ===== src/Volume/Records.antt =====
-- The durable allocation records of pkg/volume/allocation.go. A nil slice of published nodes is
-- `none`.
use scaleway_file_storage_su.Prelude.{
  ℕ, Bool, true, false, List, [], Option, none, some, ◌↔◌, ◌≡◌, arith,
}
use scaleway_file_storage_su.Prelude.Texts.{Text, text_eq, text_eq_iff}
use scaleway_file_storage_su.Prelude.Equality.{Eq}
use scaleway_file_storage_su.Volume.Request.{CreateParameters, Disposition}
use scaleway_file_storage_su.Volume.State.{AllocationState}

-- AllocationRecordKind and OwnershipRecordKind, which share two texts.
pub data RecordKind : Type 0 where
  detailed compact_deleted deleted_unknown : RecordKind
  other_kind : Text → RecordKind

unfoldable pub kind_eq : RecordKind → RecordKind → Bool
kind_eq detailed detailed = true
kind_eq compact_deleted compact_deleted = true
kind_eq deleted_unknown deleted_unknown = true
kind_eq (other_kind s) (other_kind t) = text_eq s t
kind_eq _ _ = false

pub kind_eq_iff : (a b : RecordKind) → (kind_eq a b ≡ true) ↔ (a ≡ b)
unfolding kind_eq
kind_eq_iff (other_kind s) (other_kind t) = ground (arith, text_eq_iff s t)
kind_eq_iff a b = ground arith

instance abbrev pub kind_Eq : Eq RecordKind
kind_Eq = record { beq = kind_eq; beq_iff = kind_eq_iff }

-- The nodes of a slice, as `len` and `range` see them.
abbrev pub nodes_of : Option (List Text) → List Text
nodes_of none = []
nodes_of (some nodes) = nodes

-- DetailedAllocationRecord
pub record DetailedAllocation : Type 0 where
  pub schema_version : Text
  pub record_kind : RecordKind
  pub record_revision : ℕ
  pub driver_name : Text
  pub active_cluster_uid : Text
  pub state : AllocationState
  pub installation_id : Text
  pub create_volume_request_name : Text
  pub request_hash : Text
  pub original_required_bytes : ℕ
  pub original_limit_bytes : ℕ
  pub selected_capacity_bytes : ℕ
  pub normalized_create_parameters : CreateParameters
  pub logical_volume_id : Text
  pub volume_handle : Text
  pub volume_handle_hash : Text
  pub mapping_hash : Text
  pub pool_name : Text
  pub parent_filesystem_id : Text
  pub base_path : Text
  pub base_path_hash : Text
  pub directory_name : Text
  pub reserves_capacity : Bool
  pub delete_policy : Disposition
  pub delete_result : Text
  pub delete_operation_id : Text
  pub delete_operation : Disposition
  pub delete_source_path : Text
  pub delete_target_path : Text
  pub delete_prepared_at : Text
  pub delete_remove_started_at : Text
  pub delete_completed_at : Text
  pub directory_uid : ℕ
  pub directory_gid : ℕ
  pub directory_mode : Text
  pub created_at : Text
  pub updated_at : Text
  pub deleted_at : Text
  pub archived_path : Text
  pub retained_path : Text
  pub quarantine_path : Text
  pub published_node_ids : Option (List Text)
  pub gc_request_id : Text
  pub gc_requested_mode : Text
  pub gc_expected_state : AllocationState
  pub gc_requested_at : Text
  pub gc_operation_id : Text
  pub gc_target_path : Text
  pub gc_quarantine_path : Text
  pub gc_started_at : Text
  pub gc_remove_started_at : Text
  pub gc_completed_at : Text
  pub recovery_operation_id : Text
  pub recovery_source : Text
  pub recovered_at : Text

-- CompactDeletedAllocationRecord
pub record CompactAllocation : Type 0 where
  pub schema_version : Text
  pub record_kind : RecordKind
  pub record_revision : ℕ
  pub driver_name : Text
  pub installation_id : Text
  pub active_cluster_uid : Text
  pub create_volume_request_name : Text
  pub logical_volume_id : Text
  pub volume_handle_hash : Text
  pub mapping_hash : Text
  pub state : AllocationState
  pub parent_filesystem_id : Text
  pub directory_name : Text
  pub reserves_capacity : Bool
  pub delete_result : Text
  pub updated_at : Text
  pub deleted_at : Text
  pub delete_operation_id : Text
  pub delete_operation : Disposition
  pub archived_path : Text
  pub retained_path : Text
  pub quarantine_path : Text
  pub delete_completed_at : Text
  pub gc_operation_id : Text
  pub gc_target_path : Text
  pub gc_quarantine_path : Text
  pub gc_completed_at : Text

-- DeletedUnknownAllocationRecord
pub record UnknownAllocation : Type 0 where
  pub schema_version : Text
  pub record_kind : RecordKind
  pub record_revision : ℕ
  pub driver_name : Text
  pub installation_id : Text
  pub active_cluster_uid : Text
  pub logical_volume_id : Text
  pub volume_handle_hash : Text
  pub mapping_hash : Text
  pub state : AllocationState
  pub reserves_capacity : Bool
  pub absence_reason : Text
  pub created_at : Text
  pub updated_at : Text
  pub deleted_at : Text

-- AllocationRecord: a non-nil record of one of the three variants.
pub data AllocationRecord : Type 0 where
  detailed_record : DetailedAllocation → AllocationRecord
  compact_record : CompactAllocation → AllocationRecord
  unknown_record : UnknownAllocation → AllocationRecord

-- LifecycleState, LogicalID and Kind
unfoldable pub lifecycle_state : AllocationRecord → AllocationState
lifecycle_state (detailed_record r) = r.state
lifecycle_state (compact_record r) = r.state
lifecycle_state (unknown_record r) = r.state

unfoldable pub logical_id : AllocationRecord → Text
logical_id (detailed_record r) = r.logical_volume_id
logical_id (compact_record r) = r.logical_volume_id
logical_id (unknown_record r) = r.logical_volume_id

unfoldable pub kind_of : AllocationRecord → RecordKind
kind_of (detailed_record r) = r.record_kind
kind_of (compact_record r) = r.record_kind
kind_of (unknown_record r) = r.record_kind
