-- ===== src/Driver/Pair.antt =====
-- pkg/driver/delete.go: the two records of a volume while it is deleted. An interrupted delete leaves
-- the ownership record one step behind the allocation record, and reconciliation moves it on.
use scaleway_file_storage_su.Prelude.{
  ◌+◌, Bool, not, ◌&&◌, ◌||◌, List, [], ◌∷◌, some, if◌then◌else◌,
}
use scaleway_file_storage_su.Prelude.Words.{u64}
use scaleway_file_storage_su.Prelude.Texts.{Text, text_eq}
use scaleway_file_storage_su.Prelude.Strings.{text_ltb}
use scaleway_file_storage_su.Prelude.Equality.{◌=?◌, text_Eq, texts_eq}
use scaleway_file_storage_su.Volume.Request.{delete, disposition_Eq, disposition_eq}
use scaleway_file_storage_su.Volume.State.{
  AllocationState, ready, deleting, archived, deleted, retained, state_eq,
}
use scaleway_file_storage_su.Volume.Records.{DetailedAllocation, compact_deleted, nodes_of}
use scaleway_file_storage_su.Volume.OwnershipRecords.{
  DetailedOwnership, CompactOwnership, OwnershipRecord, detailed_ownership, compact_ownership,
}
use scaleway_file_storage_su.Volume.Lifecycle.{present, absent}
use scaleway_file_storage_su.Volume.Ownership.{seal_detailed, seal_compact}
use scaleway_file_storage_su.Volume.Pairing.{
  validate_detailed_pair, validate_detailed_identity_pair, validate_compact_pair,
  compact_projection_of,
}
use scaleway_file_storage_su.Driver.Errors.{evidence_differs, state_unsupported}
use scaleway_file_storage_su.Driver.World.{StoredDetailed, Controller}
use scaleway_file_storage_su.Driver.Program.{Program, ◌>>=◌, ◌>>◌, done, fail, refuse_if, lift}
use scaleway_file_storage_su.Driver.Stores.{
  now, update_detailed_allocation, update_detailed_ownership, compact_ownership_record,
}

-- insertSortedUnique: slices.BinarySearch finds the first element of a sorted slice that is not less
-- than the value.
unfoldable pub insert_sorted_unique : List Text → Text → List Text
insert_sorted_unique [] value = value ∷ []
insert_sorted_unique (t ∷ ts) value =
    let rest = insert_sorted_unique ts value in
    if text_ltb t value then t ∷ rest else (if text_eq t value then t ∷ ts else value ∷ t ∷ ts)

-- sortedUnion
unfoldable pub sorted_union : List Text → List Text → List Text
sorted_union left [] = left
sorted_union left (value ∷ values) = sorted_union (insert_sorted_unique left value) values

-- The comparison of validateDeleteProgressPair, positively.
unfoldable pub same_intent : DetailedAllocation → DetailedOwnership → Bool
same_intent allocation ownership =
    (allocation.delete_operation_id =? ownership.delete_operation_id)
    && (allocation.delete_operation =? ownership.delete_operation)
    && (allocation.delete_source_path =? ownership.delete_source_path)
    && (allocation.delete_target_path =? ownership.delete_target_path)
    && (allocation.delete_prepared_at =? ownership.delete_prepared_at)

-- The comparison of validateDeleteTerminalEvidence in pkg/driver/gc.go, positively.
unfoldable pub same_terminal_evidence : DetailedAllocation → DetailedOwnership → Bool
same_terminal_evidence allocation ownership =
    (allocation.delete_operation_id =? ownership.delete_operation_id)
    && (allocation.delete_operation =? ownership.delete_operation)
    && (allocation.delete_source_path =? ownership.delete_source_path)
    && (allocation.delete_target_path =? ownership.delete_target_path)
    && (allocation.delete_prepared_at =? ownership.delete_prepared_at)
    && (allocation.delete_remove_started_at =? ownership.delete_remove_started_at)
    && (allocation.delete_completed_at =? ownership.delete_completed_at)
    && (allocation.archived_path =? ownership.archived_path)
    && (allocation.retained_path =? ownership.retained_path)
    && (allocation.quarantine_path =? ownership.quarantine_path)

-- validatePhysicalDeleteTerminalPredecessor
unfoldable pub validate_terminal_predecessor :
    DetailedAllocation → DetailedOwnership → Program (Unit {0})
validate_terminal_predecessor allocation ownership = do
  refuse_if
      (not (state_eq allocation.state deleted)
        || present allocation.gc_operation_id
        || not (disposition_eq allocation.delete_operation delete))
      evidence_differs
  refuse_if
      (absent allocation.delete_remove_started_at
        || not (ownership.delete_remove_started_at =? allocation.delete_remove_started_at))
      evidence_differs

-- The record that mirrorDeleteLifecycle seals.
abbrev pub mirrored : DetailedOwnership → DetailedAllocation → DetailedOwnership
mirrored current allocation = record current {
  revision = u64 (current.revision + 1);
  published_node_ids = allocation.published_node_ids;
  state = allocation.state;
  delete_operation_id = allocation.delete_operation_id;
  delete_operation = allocation.delete_operation;
  delete_source_path = allocation.delete_source_path;
  delete_target_path = allocation.delete_target_path;
  delete_prepared_at = allocation.delete_prepared_at;
  delete_remove_started_at = allocation.delete_remove_started_at;
  delete_completed_at = allocation.delete_completed_at;
  archived_path = allocation.archived_path;
  retained_path = allocation.retained_path;
  quarantine_path = allocation.quarantine_path;
}

-- The record that compactOwnershipFromDeleted seals.
abbrev pub compacted : DetailedAllocation → DetailedOwnership → CompactOwnership
compacted allocation current = record {
  schema_version = allocation.schema_version;
  record_kind = compact_deleted;
  revision = u64 (current.revision + 1);
  driver_name = allocation.driver_name;
  installation_id = allocation.installation_id;
  active_cluster_uid = allocation.active_cluster_uid;
  volume_handle_hash = allocation.volume_handle_hash;
  logical_volume_id = allocation.logical_volume_id;
  create_volume_request_name = allocation.create_volume_request_name;
  mapping_hash = allocation.mapping_hash;
  parent_filesystem_id = allocation.parent_filesystem_id;
  base_path_hash = allocation.base_path_hash;
  directory_name = allocation.directory_name;
  state = deleted;
  delete_result = allocation.delete_result;
  updated_at = allocation.updated_at;
  deleted_at = allocation.deleted_at;
  content_checksum = [];
  delete_operation = allocation.delete_operation;
  archived_path = allocation.archived_path;
  retained_path = allocation.retained_path;
  quarantine_path = allocation.quarantine_path;
  delete_operation_id = allocation.delete_operation_id;
  delete_completed_at = allocation.delete_completed_at;
  gc_operation_id = allocation.gc_operation_id;
  gc_target_path = allocation.gc_target_path;
  gc_quarantine_path = allocation.gc_quarantine_path;
  gc_completed_at = allocation.gc_completed_at;
}

module _ (controller : Controller) where
  -- validateDeleteProgressPair
  unfoldable pub validate_progress_pair :
      DetailedAllocation → DetailedOwnership → Program (Unit {0})
  validate_progress_pair allocation ownership = do
    lift (validate_detailed_identity_pair controller.sealer allocation ownership ownership.state)
    refuse_if (not (same_intent allocation ownership)) evidence_differs
    refuse_if
        (present ownership.delete_remove_started_at
          && not (allocation.delete_remove_started_at =? ownership.delete_remove_started_at))
        evidence_differs

  -- mirrorDeleteLifecycle and the UpdateDetailed that follows each of its calls.
  unfoldable pub mirror_ownership :
      DetailedOwnership → DetailedAllocation → Program DetailedOwnership
  mirror_ownership current allocation = do
    next ← lift (seal_detailed controller.sealer (mirrored current allocation))
    update_detailed_ownership controller current next
    done next

  -- compactOwnershipFromDeleted and the Compact that follows each of its calls.
  unfoldable pub compact_deleted_pair :
      DetailedAllocation → DetailedOwnership → Program CompactOwnership
  compact_deleted_pair allocation current = do
    next ← lift (seal_compact controller.sealer (compacted allocation current))
    compact_ownership_record controller current next
    done next

  -- The case of a Deleting allocation in reconcileDeletePair, by the state of the ownership record.
  unfoldable pub reconcile_deleting :
      DetailedAllocation → DetailedOwnership → AllocationState → Program DetailedOwnership
  reconcile_deleting allocation ownership ready = do
    lift (validate_detailed_identity_pair controller.sealer allocation ownership ready)
    mirror_ownership ownership allocation
  reconcile_deleting allocation ownership deleting = do
    validate_progress_pair allocation ownership
    if present allocation.delete_remove_started_at && absent ownership.delete_remove_started_at
        then mirror_ownership ownership allocation
        else done ownership
  reconcile_deleting allocation ownership _ = fail state_unsupported

  -- The case of an Archived or Retained allocation, by the state of the ownership record.
  unfoldable pub mirror_kept : DetailedAllocation → DetailedOwnership → Program DetailedOwnership
  mirror_kept allocation ownership = do
    validate_progress_pair allocation ownership
    mirror_ownership ownership allocation

  unfoldable pub confirm_kept : DetailedAllocation → DetailedOwnership → Program DetailedOwnership
  confirm_kept allocation ownership = do
    lift (validate_detailed_pair controller.sealer allocation ownership allocation.state)
    refuse_if (not (same_terminal_evidence allocation ownership)) evidence_differs
    done ownership

  unfoldable pub reconcile_kept : DetailedAllocation → DetailedOwnership → Program DetailedOwnership
  reconcile_kept allocation ownership =
      if state_eq ownership.state deleting
      then mirror_kept allocation ownership
      else confirm_kept allocation ownership

  -- The detailed part of finishDeletedPair.
  unfoldable pub finish_deleted : DetailedAllocation → DetailedOwnership → Program CompactOwnership
  finish_deleted allocation ownership = do
    validate_progress_pair allocation ownership
    validate_terminal_predecessor allocation ownership
    compact_deleted_pair allocation ownership

  -- The switch over the state of the allocation in reconcileDeletePair.
  unfoldable pub reconcile_detailed :
      DetailedAllocation → DetailedOwnership → AllocationState → Program OwnershipRecord
  reconcile_detailed allocation ownership ready = do
    lift (validate_detailed_pair controller.sealer allocation ownership ready)
    done (detailed_ownership ownership)
  reconcile_detailed allocation ownership deleting = do
    next ← reconcile_deleting allocation ownership ownership.state
    done (detailed_ownership next)
  reconcile_detailed allocation ownership archived = do
    next ← reconcile_kept allocation ownership
    done (detailed_ownership next)
  reconcile_detailed allocation ownership retained = do
    next ← reconcile_kept allocation ownership
    done (detailed_ownership next)
  reconcile_detailed allocation ownership deleted = do
    refuse_if (not (state_eq ownership.state deleting)) state_unsupported
    tombstone ← finish_deleted allocation ownership
    done (compact_ownership tombstone)
  reconcile_detailed allocation ownership _ = fail state_unsupported

  -- reconcileDeletePair, which returns the stored allocation that it is given
  unfoldable pub reconcile_delete_pair :
      DetailedAllocation → OwnershipRecord → Program OwnershipRecord
  reconcile_delete_pair allocation (compact_ownership tombstone) = do
    refuse_if (not (state_eq allocation.state deleted)) state_unsupported
    lift (validate_compact_pair controller.sealer (compact_projection_of allocation) tombstone)
    done (compact_ownership tombstone)
  reconcile_delete_pair allocation (detailed_ownership ownership) =
      reconcile_detailed allocation ownership allocation.state

  -- The allocation part of reconcileDeleteFenceUnion.
  unfoldable pub fence_allocation : StoredDetailed → List Text → Program StoredDetailed
  fence_allocation stored union =
      if texts_eq (nodes_of stored.allocation.published_node_ids) union then done stored else (do
        time ← now controller
        update_detailed_allocation controller stored (record stored.allocation {
          record_revision = u64 (stored.allocation.record_revision + 1);
          updated_at = time;
          published_node_ids = some union;
        }))

  -- The ownership part, with ownershipWithPublishedNodes of pkg/driver/publish.go.
  unfoldable pub fence_ownership : DetailedOwnership → List Text → Program DetailedOwnership
  fence_ownership ownership union =
      if texts_eq (nodes_of ownership.published_node_ids) union then done ownership else (do
        next ← lift (
            seal_detailed controller.sealer (record ownership {
              revision = u64 (ownership.revision + 1);
              published_node_ids = some union;
            }))
        update_detailed_ownership controller ownership next
        done next)

  -- reconcileDeleteFenceUnion
  unfoldable pub reconcile_fence_union :
      StoredDetailed → DetailedOwnership → Program (StoredDetailed × DetailedOwnership)
  reconcile_fence_union stored ownership = do
    let union =
        sorted_union (nodes_of stored.allocation.published_node_ids)
          (nodes_of ownership.published_node_ids)
    next_stored ← fence_allocation stored union
    next_ownership ← fence_ownership ownership union
    done (next_stored, next_ownership)
