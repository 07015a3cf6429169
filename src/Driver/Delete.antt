-- ===== src/Driver/Delete.antt =====
-- pkg/driver/delete.go: the steps of a delete of a volume that has a detailed record.
pub mod Authorized
pub mod Intent
pub mod Completion
pub mod Reconcile
pub mod Fences
use scaleway_file_storage_su.Prelude.{◌+◌, false, not, ◌||◌, [], ◌∷◌, if◌then◌else◌}
use scaleway_file_storage_su.Prelude.Words.{u64}
use scaleway_file_storage_su.Prelude.Texts.{Text, text}
use scaleway_file_storage_su.Prelude.Equality.{◌=?◌, text_Eq}
use scaleway_file_storage_su.Volume.Identifiers.{validate_operation_id}
use scaleway_file_storage_su.Volume.CleanPath.{join}
use scaleway_file_storage_su.Volume.Paths.{managed_lifecycle_target}
use scaleway_file_storage_su.Volume.Request.{Disposition, archive, delete, retain, other}
use scaleway_file_storage_su.Volume.State.{AllocationState, deleting, archived, deleted, retained}
use scaleway_file_storage_su.Volume.Records.{
  DetailedAllocation, AllocationRecord, detailed_record, compact_record, unknown_record,
}
use scaleway_file_storage_su.Volume.OwnershipRecords.{DetailedOwnership}
use scaleway_file_storage_su.Volume.Lifecycle.{present}
use scaleway_file_storage_su.Driver.Errors.{another_owner, operation_unsupported, evidence_differs}
use scaleway_file_storage_su.Driver.World.{StoredDetailed, Controller}
use scaleway_file_storage_su.Driver.Program.{
  Program, proceed, ◌>>=◌, ◌>>◌, done, fail, refuse_if, lift,
}
use scaleway_file_storage_su.Driver.Stores.{query, now, update_detailed_allocation}
use scaleway_file_storage_su.Driver.Disposition.{remove_quarantine, prepare_disposition}
use scaleway_file_storage_su.Driver.Pair.{mirror_ownership, compact_deleted_pair}

-- The target of the disposition that prepareDelete persists.
unfoldable pub disposition_target : DetailedAllocation → Disposition → Text → Text → Program Text
disposition_target r archive time operation_id = lift (
    managed_lifecycle_target r.base_path (text ".archived") r.directory_name r.logical_volume_id
      time operation_id)
disposition_target r delete time operation_id = lift (
    managed_lifecycle_target r.base_path (text ".deleted") r.directory_name r.logical_volume_id time
      operation_id)
disposition_target r retain time operation_id = done (join (r.base_path ∷ r.directory_name ∷ []))
disposition_target r (other s) time operation_id = fail operation_unsupported

-- The switch over the operation that sets one of the three paths.
abbrev pub with_target : DetailedAllocation → Disposition → Text → DetailedAllocation
with_target r archive target = record r { archived_path = target }
with_target r delete target = record r { quarantine_path = target }
with_target r retain target = record r { retained_path = target }
with_target r (other s) target = r

-- `next` of prepareDelete
abbrev pub prepared : DetailedAllocation → (operation_id time target : Text) → DetailedAllocation
prepared r operation_id time target =
    with_target
      (record r {
        record_revision = u64 (r.record_revision + 1);
        state = deleting;
        updated_at = time;
        delete_operation_id = operation_id;
        delete_operation = r.delete_policy;
        delete_source_path = join (r.base_path ∷ r.directory_name ∷ []);
        delete_target_path = target;
        delete_prepared_at = time;
      })
      r.delete_policy target

-- `next` of completeArchiveOrRetain, for an archive and for another state
abbrev pub completed : DetailedAllocation → Text → AllocationState → DetailedAllocation
completed r time archived = record r {
  record_revision = u64 (r.record_revision + 1);
  state = archived;
  updated_at = time;
  delete_completed_at = time;
  delete_result = text "archived";
  archived_path = r.delete_target_path;
}
completed r time terminal = record r {
  record_revision = u64 (r.record_revision + 1);
  state = terminal;
  updated_at = time;
  delete_completed_at = time;
  delete_result = text "retained";
  retained_path = r.delete_target_path;
}

-- `next` and `deleted` of completePhysicalDelete
abbrev pub remove_started : DetailedAllocation → Text → DetailedAllocation
remove_started r time = record r {
  record_revision = u64 (r.record_revision + 1);
  updated_at = time;
  delete_remove_started_at = time;
}

abbrev pub deleted_record : DetailedAllocation → Text → DetailedAllocation
deleted_record r time = record r {
  record_revision = u64 (r.record_revision + 1);
  state = deleted;
  reserves_capacity = false;
  updated_at = time;
  deleted_at = time;
  delete_completed_at = time;
  delete_result = text "deleted";
  quarantine_path = r.delete_target_path;
}

-- validateAllocationRuntimeIdentity of pkg/driver/runtime_identity.go
unfoldable pub validate_runtime_identity : Controller → AllocationRecord → Program (Unit {0})
validate_runtime_identity controller (detailed_record r) =
    refuse_if
      (not (r.driver_name =? controller.driver_name)
        || not (r.installation_id =? controller.installation_id)
        || not (r.active_cluster_uid =? controller.cluster_uid))
      another_owner
validate_runtime_identity controller (compact_record r) =
    refuse_if
      (not (r.driver_name =? controller.driver_name)
        || not (r.installation_id =? controller.installation_id)
        || not (r.active_cluster_uid =? controller.cluster_uid))
      another_owner
validate_runtime_identity controller (unknown_record r) =
    refuse_if
      (not (r.driver_name =? controller.driver_name)
        || not (r.installation_id =? controller.installation_id)
        || not (r.active_cluster_uid =? controller.cluster_uid))
      another_owner

module _ (controller : Controller) where
  -- The two writes of each step: Update of the allocation, then mirrorDeleteLifecycle with
  -- UpdateDetailed of the ownership record.
  unfoldable pub advance_pair :
      StoredDetailed
      → DetailedOwnership
      → DetailedAllocation
      → Program (StoredDetailed × DetailedOwnership)
  advance_pair stored ownership next = do
    updated ← update_detailed_allocation controller stored next
    mirrored_ownership ← mirror_ownership controller ownership updated.allocation
    done (updated, mirrored_ownership)

  -- prepareDelete
  unfoldable pub prepare_delete :
      StoredDetailed → DetailedOwnership → Program (StoredDetailed × DetailedOwnership)
  prepare_delete stored ownership = do
    id ← query controller
    lift (validate_operation_id id.word)
    time ← now controller
    target ← disposition_target stored.allocation stored.allocation.delete_policy time id.word
    advance_pair stored ownership (prepared stored.allocation id.word time target)

  -- completeArchiveOrRetain
  unfoldable pub complete_archive_or_retain :
      StoredDetailed → DetailedOwnership → AllocationState → Program (Unit {0})
  complete_archive_or_retain stored ownership terminal = do
    time ← now controller
    advanced ← advance_pair stored ownership (completed stored.allocation time terminal)
    done tt

  -- The first part of completePhysicalDelete: the evidence that removal has started.
  unfoldable pub write_remove_started :
      StoredDetailed → DetailedOwnership → Program (StoredDetailed × DetailedOwnership)
  write_remove_started stored ownership = do
    time ← now controller
    advance_pair stored ownership (remove_started stored.allocation time)

  unfoldable pub start_removal :
      StoredDetailed → DetailedOwnership → Program (StoredDetailed × DetailedOwnership)
  start_removal stored ownership =
      if present stored.allocation.delete_remove_started_at
      then done (stored, ownership)
      else write_remove_started stored ownership

  -- The terminal records after the removal.
  unfoldable pub write_deleted : StoredDetailed → DetailedOwnership → Program (Unit {0})
  write_deleted stored ownership = do
    time ← now controller
    updated ← update_detailed_allocation controller stored (deleted_record stored.allocation time)
    tombstone ← compact_deleted_pair controller updated.allocation ownership
    done tt

  -- The rest of it: the removal and the terminal records.
  unfoldable pub finish_removal : StoredDetailed → DetailedOwnership → Program (Unit {0})
  finish_removal stored ownership = do
    refuse_if
        (not (ownership.delete_remove_started_at =? stored.allocation.delete_remove_started_at))
        evidence_differs
    remove_quarantine controller stored.allocation
    write_deleted stored ownership

  -- completePhysicalDelete
  unfoldable pub complete_physical_delete : StoredDetailed → DetailedOwnership → Program (Unit {0})
  complete_physical_delete stored ownership = do
    (started, started_ownership) ← start_removal stored ownership
    finish_removal started started_ownership

  -- The switch over the operation at the end of deleteDetailed.
  unfoldable pub complete_delete :
      StoredDetailed → DetailedOwnership → Disposition → Program (Unit {0})
  complete_delete stored ownership archive = complete_archive_or_retain stored ownership archived
  complete_delete stored ownership retain = complete_archive_or_retain stored ownership retained
  complete_delete stored ownership delete = complete_physical_delete stored ownership
  complete_delete stored ownership (other s) = fail operation_unsupported

  -- The part of deleteDetailed in which the intent is durable in both records.
  unfoldable pub dispose_prepared : StoredDetailed → DetailedOwnership → Program (Unit {0})
  dispose_prepared stored ownership = do
    prepare_disposition controller stored.allocation
    complete_delete stored ownership stored.allocation.delete_operation
