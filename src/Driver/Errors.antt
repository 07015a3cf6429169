-- ===== src/Driver/Errors.antt =====
-- The errors of the controllers in pkg/driver and of the stores behind them.
use scaleway_file_storage_su.Volume.Errors.{VolumeError}

pub data DriverError : Type 0 where
  -- an error of pkg/volume, passed on
  volume_error : VolumeError → DriverError
  -- ErrEmptyVolumeID, ErrVolumeInUse, ErrPublishedFenceBlocked
  empty_volume_id volume_in_use published_fence_blocked : DriverError
  -- k8s.ErrNotFound, k8s.ErrAlreadyExists, k8s.ErrConflict, k8s.ErrUnavailable
  not_found already_exists conflict unavailable : DriverError
  -- ErrExpectedGenerationMismatch
  generation_mismatch : DriverError
  -- driver.ErrOwnershipNotFound
  ownership_not_found : DriverError
  -- any other failure of a call to the outside
  call_failed : DriverError
  -- the plain errors of the controllers
  another_owner handle_conflict kind_unsupported state_unsupported : DriverError
  operation_unsupported evidence_differs recovery_ambiguous : DriverError
  -- the plain errors of the filesystem steps
  disposition_refused path_ambiguous source_missing : DriverError
