-- ===== src/Volume/Lifecycle.antt =====
-- The lifecycle part of DetailedAllocationRecord.Validate in pkg/volume/allocation.go: prepared
-- deletes, garbage-collection progress and the fields that each state requires.
use scaleway_file_storage_su.Prelude.{
  ℕ, suc, ◌+◌, Bool, true, false, not, ◌&&◌, ◌||◌, List, [], ◌∷◌, ◌++◌, length, ◌==◌, if◌then◌else◌,
}
use scaleway_file_storage_su.Prelude.Results.{Result, ok, err, reject, ◌>>=◌, ◌>>◌}
use scaleway_file_storage_su.Prelude.Texts.{Text, text, text_eq}
use scaleway_file_storage_su.Prelude.Strings.{has_prefix}
use scaleway_file_storage_su.Prelude.Equality.{◌=?◌, text_Eq}
use scaleway_file_storage_su.Volume.Errors.{
  VolumeError, bad_state, bad_persisted_path, bad_recovery_audit, bad_gc_fields, bad_lifecycle,
  bad_prepared_delete,
}
use scaleway_file_storage_su.Volume.Identifiers.{validate_operation_id}
use scaleway_file_storage_su.Volume.Timestamps.{validate_optional_timestamps}
use scaleway_file_storage_su.Volume.CleanPath.{clean, join}
use scaleway_file_storage_su.Volume.Paths.{managed_lifecycle_target}
use scaleway_file_storage_su.Volume.Request.{
  Disposition, archive, delete, retain, other, disposition_eq,
}
use scaleway_file_storage_su.Volume.State.{
  AllocationState, reserved, creating_directory, ready, deleting, archived, deleted, retained,
  unsupported, state_eq,
}
use scaleway_file_storage_su.Volume.Records.{DetailedAllocation, nodes_of}

-- `value != ""`
abbrev pub present : Text → Bool
present [] = false
present (b ∷ bs) = true

abbrev pub absent : Text → Bool
absent [] = true
absent (b ∷ bs) = false

abbrev pub operation_present : Disposition → Bool
operation_present (other []) = false
operation_present _ = true

-- The number of values that are not empty.
unfoldable pub count_present : List Text → ℕ
count_present [] = 0
count_present (t ∷ ts) = let rest = count_present ts in if present t then suc rest else rest

-- validatePersistedPath
unfoldable pub validate_persisted_path : Text → Text → Result VolumeError (Unit {0})
validate_persisted_path base_path candidate = do
  reject
      (absent candidate
        || not (has_prefix candidate (text "/"))
        || not (text_eq (clean candidate) candidate))
      bad_persisted_path
  reject (text_eq candidate base_path || not (has_prefix candidate (base_path ++ text "/")))
      bad_persisted_path

-- The loop over the path fields of the map: every failure is the same refusal.
unfoldable pub validate_persisted_paths : Text → List Text → Result VolumeError (Unit {0})
validate_persisted_paths base_path [] = ok tt
validate_persisted_paths base_path ([] ∷ paths) = validate_persisted_paths base_path paths
validate_persisted_paths base_path ((b ∷ bs) ∷ paths) = do
  validate_persisted_path base_path (b ∷ bs)
  validate_persisted_paths base_path paths

-- hasDeleteFields
unfoldable pub has_delete_fields : DetailedAllocation → Bool
has_delete_fields r =
    present r.delete_result
    || present r.delete_operation_id
    || operation_present r.delete_operation
    || present r.delete_source_path
    || present r.delete_target_path
    || present r.delete_prepared_at
    || present r.delete_remove_started_at
    || present r.delete_completed_at
    || present r.deleted_at
    || present r.archived_path
    || present r.retained_path
    || present r.quarantine_path

-- The paths that the operation of a prepared delete must have.
unfoldable pub validate_operation_paths :
    DetailedAllocation → Text → Disposition → Result VolumeError (Unit {0})
validate_operation_paths r source archive = do
  target ←
      managed_lifecycle_target r.base_path (text ".archived") r.directory_name r.logical_volume_id
        r.delete_prepared_at r.delete_operation_id
  reject
      (not (r.delete_target_path =? target)
        || not (r.archived_path =? target)
        || present r.retained_path
        || present r.quarantine_path)
      bad_prepared_delete
validate_operation_paths r source delete = do
  target ←
      managed_lifecycle_target r.base_path (text ".deleted") r.directory_name r.logical_volume_id
        r.delete_prepared_at r.delete_operation_id
  reject
      (not (r.delete_target_path =? target)
        || not (r.quarantine_path =? target)
        || present r.archived_path
        || present r.retained_path)
      bad_prepared_delete
validate_operation_paths r source retain =
    reject
      (not (r.delete_target_path =? source)
        || not (r.retained_path =? source)
        || present r.archived_path
        || present r.quarantine_path)
      bad_prepared_delete
validate_operation_paths r source (other s) = err bad_prepared_delete

-- validatePreparedDelete
unfoldable pub validate_prepared_delete : DetailedAllocation → Result VolumeError (Unit {0})
unfolding validate_operation_paths
validate_prepared_delete r = do
  validate_operation_id r.delete_operation_id
  reject (absent r.delete_prepared_at || absent r.delete_source_path || absent r.delete_target_path)
      bad_prepared_delete
  reject (not (disposition_eq r.delete_operation r.delete_policy)) bad_prepared_delete
  let expected_source = join (r.base_path ∷ r.directory_name ∷ [])
  reject (not (r.delete_source_path =? expected_source)) bad_prepared_delete
  validate_operation_paths r expected_source r.delete_operation
  reject (not (disposition_eq r.delete_operation delete) && present r.delete_remove_started_at)
      bad_prepared_delete

abbrev state_present : AllocationState → Bool
state_present (unsupported []) = false
state_present _ = true

-- The number of the four request fields that are not empty.
abbrev pub gc_request_count : DetailedAllocation → ℕ
gc_request_count r =
    count_present (r.gc_request_id ∷ r.gc_requested_mode ∷ r.gc_requested_at ∷ [])
    + (if state_present r.gc_expected_state then 1 else 0)

abbrev pub gc_progress_count : DetailedAllocation → ℕ
gc_progress_count r =
    count_present
      (r.gc_operation_id ∷ r.gc_target_path ∷ r.gc_quarantine_path ∷ r.gc_started_at ∷ [])

unfoldable pub validate_gc_request : DetailedAllocation → Result VolumeError (Unit {0})
validate_gc_request r = do
  validate_operation_id r.gc_request_id
  reject
      (not (state_eq r.gc_expected_state archived) && not (state_eq r.gc_expected_state retained))
      bad_gc_fields
  reject
      (not (text_eq r.gc_requested_mode (text "dry-run"))
        && not (text_eq r.gc_requested_mode (text "execute")))
      bad_gc_fields

-- The switch over the expected state, whose default leaves the empty path.
abbrev expected_gc_target : DetailedAllocation → AllocationState → Text
expected_gc_target r archived = r.archived_path
expected_gc_target r retained = r.retained_path
expected_gc_target r _ = []

unfoldable pub validate_gc_progress : DetailedAllocation → Result VolumeError (Unit {0})
validate_gc_progress r = do
  reject (gc_request_count r == 0 || not (text_eq r.gc_requested_mode (text "execute")))
      bad_gc_fields
  validate_operation_id r.gc_operation_id
  reject (not (state_eq r.state r.gc_expected_state) && not (state_eq r.state deleted))
      bad_gc_fields
  let target = expected_gc_target r r.gc_expected_state
  reject (absent target || not (r.gc_target_path =? target)) bad_gc_fields
  quarantine ←
      managed_lifecycle_target r.base_path (text ".deleted") r.directory_name r.logical_volume_id
        r.gc_started_at r.gc_operation_id
  reject (not (r.gc_quarantine_path =? quarantine)) bad_gc_fields

-- validateGCFields
unfoldable pub validate_gc_fields : DetailedAllocation → Result VolumeError (Unit {0})
validate_gc_fields r = do
  reject (not (gc_request_count r == 0) && not (gc_request_count r == 4)) bad_gc_fields
  if gc_request_count r == 0 then ok tt else validate_gc_request r
  reject (not (gc_progress_count r == 0) && not (gc_progress_count r == 4)) bad_gc_fields
  if not (gc_progress_count r == 0)
      then validate_gc_progress r
      else reject (not (gc_request_count r == 0) && not (state_eq r.state r.gc_expected_state))
          bad_gc_fields
  reject (present r.gc_remove_started_at && gc_progress_count r == 0) bad_gc_fields
  reject (present r.gc_completed_at && absent r.gc_remove_started_at) bad_gc_fields
  reject (present r.gc_completed_at && not (state_eq r.state deleted)) bad_gc_fields

-- The recovery part of validateLifecycle.
unfoldable pub validate_recovery_fields : DetailedAllocation → Result VolumeError (Unit {0})
validate_recovery_fields r = do
  let fields = count_present (r.recovery_operation_id ∷ r.recovery_source ∷ r.recovered_at ∷ [])
  reject (not (fields == 0) && not (fields == 3)) bad_recovery_audit
  if not (fields == 3) then ok tt else (do
    validate_operation_id r.recovery_operation_id
    reject
        (not (text_eq r.recovery_source (text "ownership-only"))
          && not (text_eq r.recovery_source (text "pv-and-ownership")))
        bad_recovery_audit)

-- The states before any delete.
abbrev no_progress : DetailedAllocation → Result VolumeError (Unit {0})
no_progress r = reject (has_delete_fields r || present r.gc_operation_id) bad_lifecycle

abbrev no_fences : DetailedAllocation → Result VolumeError (Unit {0})
no_fences r = reject (not (length (nodes_of r.published_node_ids) == 0)) bad_lifecycle

unfoldable pub validate_deleted : DetailedAllocation → Result VolumeError (Unit {0})
validate_deleted r = do
  reject (absent r.deleted_at || absent r.delete_result) bad_lifecycle
  if present r.gc_operation_id
      then reject (absent r.gc_completed_at || absent r.gc_remove_started_at) bad_lifecycle
      else (do
        validate_prepared_delete r
        reject
            (not (disposition_eq r.delete_operation delete)
              || absent r.quarantine_path
              || not (r.quarantine_path =? r.delete_target_path)
              || absent r.delete_remove_started_at
              || absent r.delete_completed_at)
            bad_lifecycle)

-- The switch over the state in validateLifecycle.
unfoldable pub validate_state : DetailedAllocation → AllocationState → Result VolumeError (Unit {0})
validate_state r reserved = do no_progress r; no_fences r
validate_state r creating_directory = do no_progress r; no_fences r
validate_state r ready = no_progress r
validate_state r deleting = do
  validate_prepared_delete r
  reject (present r.delete_completed_at || present r.deleted_at || present r.delete_result)
      bad_lifecycle
validate_state r archived = do
  validate_prepared_delete r
  reject
      (not (disposition_eq r.delete_operation archive)
        || absent r.archived_path
        || not (r.archived_path =? r.delete_target_path)
        || absent r.delete_completed_at
        || absent r.delete_result)
      bad_lifecycle
validate_state r retained = do
  validate_prepared_delete r
  reject
      (not (disposition_eq r.delete_operation retain)
        || absent r.retained_path
        || not (r.retained_path =? r.delete_target_path)
        || absent r.delete_completed_at
        || absent r.delete_result)
      bad_lifecycle
validate_state r deleted = validate_deleted r
validate_state r (unsupported s) = err bad_state

-- validateLifecycle
unfoldable pub validate_lifecycle : DetailedAllocation → Result VolumeError (Unit {0})
validate_lifecycle r = do
  validate_optional_timestamps (
      r.delete_prepared_at ∷ r.delete_remove_started_at ∷ r.delete_completed_at ∷ r.deleted_at
      ∷ r.gc_requested_at ∷ r.gc_started_at ∷ r.gc_remove_started_at ∷ r.gc_completed_at
      ∷ r.recovered_at ∷ [])
  validate_recovery_fields r
  validate_persisted_paths r.base_path (
      r.delete_source_path ∷ r.delete_target_path ∷ r.archived_path ∷ r.retained_path
      ∷ r.quarantine_path ∷ r.gc_target_path ∷ r.gc_quarantine_path ∷ [])
  validate_gc_fields r
  validate_state r r.state
