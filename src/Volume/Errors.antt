-- ===== src/Volume/Errors.antt =====
-- The errors of pkg/volume: the sentinels that callers test with errors.Is, and for the plain
-- errors one constructor for each group of checks.
pub data VolumeError : Type 0 where
  -- identifiers.go
  bad_driver_name bad_operation_id bad_node_id bad_installation_id bad_cluster_uid : VolumeError
  bad_pool_name bad_parent_filesystem_id bad_logical_volume_id : VolumeError
  bad_mapping_hash bad_request_hash bad_base_path_hash bad_volume_handle_hash : VolumeError
  -- path.go
  bad_base_path bad_directory_name bad_managed_directory component_too_long : VolumeError
  -- request.go, context.go, capability.go
  bad_delete_policy bad_access_mode bad_access_type bad_filesystem_type : VolumeError
  bad_directory_mode bad_directory_owner no_access_mode bad_mount_flags : VolumeError
  zero_capacity capacity_over_limit : VolumeError
  -- ErrCapacityOutOfRange, ErrCreateReplayIncompatible
  capacity_out_of_range create_replay_incompatible : VolumeError
  -- handle.go: ErrForeignHandle, ErrInvalidHandle and plain errors
  foreign_handle invalid_handle bad_request_name handle_mismatch : VolumeError
  -- timestamps
  timestamp_missing timestamp_not_canonical : VolumeError
  -- allocation.go and ownership.go: a record and its parts
  bad_schema bad_revision bad_state bad_reservation identity_mismatch not_canonical : VolumeError
  bad_published_nodes bad_persisted_path bad_recovery_audit bad_gc_fields : VolumeError
  bad_lifecycle bad_prepared_delete bad_compact_audit bad_absence_reason : VolumeError
  bad_checksum : VolumeError
  -- allocation_transition.go, ownership_transition.go and pairing.go
  logical_id_changed revision_skipped immutable_changed transition_refused : VolumeError
  tombstone_immutable kind_refused compaction_refused pair_differs : VolumeError
  -- context_match.go: ErrContextMismatch
  context_mismatch : VolumeError
  -- context.go: the wire form
  bad_context : VolumeError
