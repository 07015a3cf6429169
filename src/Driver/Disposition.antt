-- ===== src/Driver/Disposition.antt =====
-- pkg/driver/delete_filesystem.go and Observe of path_observer.go: the directory operations of a
-- prepared delete.
use scaleway_file_storage_su.Prelude.{Bool, true, false, not, ◌||◌, ◌∷◌, if◌then◌else◌}
use scaleway_file_storage_su.Prelude.Results.{ok}
use scaleway_file_storage_su.Volume.Request.{
  Disposition, archive, delete, retain, other, disposition_eq,
}
use scaleway_file_storage_su.Volume.State.{deleting, state_eq}
use scaleway_file_storage_su.Volume.Records.{DetailedAllocation}
use scaleway_file_storage_su.Volume.Lifecycle.{absent}
use scaleway_file_storage_su.Volume.Validation.{validate_detailed}
use scaleway_file_storage_su.Driver.Errors.{
  disposition_refused, path_ambiguous, source_missing, operation_unsupported,
}
use scaleway_file_storage_su.Driver.World.{
  DirectoryAction, archive_directory, quarantine_directory, remove_directory,
  sync_deleted_directory, Controller,
}
use scaleway_file_storage_su.Driver.Program.{Program, ◌>>=◌, ◌>>◌, done, fail, refuse_if, lift}
use scaleway_file_storage_su.Driver.Stores.{before_effect, after_effect, ask, query}

-- DeletePathObservation
pub record PathObservation : Type 0 where
  pub source_present : Bool
  pub target_present : Bool

-- A directory operation is noted with the durable records that stand when it starts.
abbrev pub note : DirectoryAction → Program (Unit {0})
note action w = (
  record w {
    effects =
        record {
          action = action;
          durable_allocation = w.allocation;
          durable_ownership = w.ownership;
        }
        ∷ w.effects;
  },
  ok tt,
)

module _ (controller : Controller) where
  -- A call of DataLifecycle, which may fail before or after its effect.
  unfoldable pub perform : DirectoryAction → Program (Unit {0})
  perform action = do note action; a ← ask controller; before_effect a.reply; after_effect a.reply

  -- FilesystemPathObserver.Observe; `yes` answers whether a directory is present.
  unfoldable pub observe_paths : DetailedAllocation → Program PathObservation
  observe_paths allocation = do
    lift (validate_detailed controller.sealer.codec allocation)
    refuse_if (not (state_eq allocation.state deleting)) disposition_refused
    source ← query controller
    if disposition_eq allocation.delete_operation retain
        then done (record { source_present = source.yes; target_present = source.yes })
        else (do
          target ← query controller
          done (record { source_present = source.yes; target_present = target.yes }))

  -- The switch over the operation and the two observations in PrepareDisposition.
  unfoldable pub dispose :
      DetailedAllocation → Disposition → (source target : Bool) → Program (Unit {0})
  dispose r archive true false =
      perform (archive_directory r.base_path r.directory_name r.delete_target_path)
  dispose r archive false true = done tt
  dispose r archive true true = fail path_ambiguous
  dispose r archive false false = fail source_missing
  dispose r delete true false =
      perform (quarantine_directory r.base_path r.directory_name r.delete_target_path)
  dispose r delete false true = done tt
  dispose r delete true true = fail path_ambiguous
  dispose r delete false false = refuse_if (absent r.delete_remove_started_at) source_missing
  dispose r retain source target = refuse_if (not source) source_missing
  dispose r (other s) source target = fail operation_unsupported

  -- StateDrivenDeleteFilesystem.PrepareDisposition
  unfoldable pub prepare_disposition : DetailedAllocation → Program (Unit {0})
  prepare_disposition r = do
    refuse_if (not (state_eq r.state deleting)) disposition_refused
    observation ← observe_paths r
    dispose r r.delete_operation observation.source_present observation.target_present

  -- StateDrivenDeleteFilesystem.RemoveQuarantine
  unfoldable pub remove_quarantine : DetailedAllocation → Program (Unit {0})
  remove_quarantine r = do
    refuse_if
        (not (state_eq r.state deleting)
          || not (disposition_eq r.delete_operation delete)
          || absent r.delete_remove_started_at)
        disposition_refused
    observation ← observe_paths r
    refuse_if observation.source_present path_ambiguous
    if observation.target_present
        then perform (remove_directory r.base_path r.delete_target_path)
        else perform (sync_deleted_directory r.base_path)
