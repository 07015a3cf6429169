-- ===== src/Driver/DeleteVolume.antt =====
-- pkg/driver/delete.go: DeleteVolume and its resumption. The mutation gate and the lock of the volume
-- are held from the first read to the end, so the model has one caller at a time; Acquire and Lock
-- are calls that may fail.
pub mod Safety
pub mod Calls
pub mod History
use scaleway_file_storage_su.Prelude.{
  ℕ, Bool, true, false, not, ◌&&◌, ◌||◌, [], ◌∷◌, Option, none, some, length, ◌==◌, if◌then◌else◌,
}
use scaleway_file_storage_su.Prelude.Results.{Result, ok, err}
use scaleway_file_storage_su.Prelude.Texts.{Text}
use scaleway_file_storage_su.Prelude.Equality.{◌=?◌, text_Eq}
use scaleway_file_storage_su.Volume.Errors.{VolumeError, foreign_handle, invalid_handle}
use scaleway_file_storage_su.Volume.Identifiers.{schema_version_v1, validate_logical_volume_id}
use scaleway_file_storage_su.Volume.Handle.{Handle, parse_handle, volume_handle_hash_of}
use scaleway_file_storage_su.Volume.State.{
  AllocationState, ready, deleting, archived, deleted, retained, state_eq,
}
use scaleway_file_storage_su.Volume.Records.{
  DetailedAllocation, UnknownAllocation, AllocationRecord, detailed_record, compact_record,
  unknown_record, deleted_unknown, logical_id, nodes_of,
}
use scaleway_file_storage_su.Volume.OwnershipRecords.{
  DetailedOwnership, OwnershipRecord, detailed_ownership, compact_ownership,
}
use scaleway_file_storage_su.Volume.Lifecycle.{present, absent}
use scaleway_file_storage_su.Volume.Pairing.{validate_compact_pair, compact_projection_of}
use scaleway_file_storage_su.Driver.Errors.{
  DriverError, volume_error, empty_volume_id, volume_in_use, published_fence_blocked, not_found,
  already_exists, unavailable, handle_conflict, kind_unsupported, state_unsupported,
  recovery_ambiguous,
}
use scaleway_file_storage_su.Driver.World.{World, Stored, StoredDetailed, Answer, Controller}
use scaleway_file_storage_su.Driver.Program.{
  Program, proceed, ◌>>=◌, ◌>>◌, done, fail, refuse_if, lift,
}
use scaleway_file_storage_su.Driver.Stores.{
  query, now, get_allocation, create_allocation, load_ownership,
}
use scaleway_file_storage_su.Driver.Disposition.{prepare_disposition}
use scaleway_file_storage_su.Driver.Pair.{
  finish_deleted, reconcile_delete_pair, reconcile_fence_union,
}
use scaleway_file_storage_su.Driver.Delete.{
  validate_runtime_identity, prepare_delete, dispose_prepared,
}

-- The record that resolveMissing creates for a volume that is conclusively absent.
abbrev pub absence_record :
    Controller → Handle → (handle_hash reason time : Text) → UnknownAllocation
absence_record controller handle handle_hash reason time = record {
  schema_version = schema_version_v1;
  record_kind = deleted_unknown;
  record_revision = 1;
  driver_name = controller.driver_name;
  installation_id = controller.installation_id;
  active_cluster_uid = controller.cluster_uid;
  logical_volume_id = handle.logical_volume_id;
  volume_handle_hash = handle_hash;
  mapping_hash = handle.mapping_hash;
  state = deleted;
  reserves_capacity = false;
  absence_reason = reason;
  created_at = time;
  updated_at = time;
  deleted_at = time;
}

-- The switch over the type in validateRecoveredDeleteHandle, positively.
unfoldable pub recovered_matches : AllocationRecord → Text → Handle → Text → Bool
recovered_matches (detailed_record r) volume_id handle handle_hash =
    (r.mapping_hash =? handle.mapping_hash)
    && (r.volume_handle =? volume_id)
    && (r.volume_handle_hash =? handle_hash)
recovered_matches (compact_record r) volume_id handle handle_hash =
    (r.mapping_hash =? handle.mapping_hash) && (r.volume_handle_hash =? handle_hash)
recovered_matches (unknown_record r) volume_id handle handle_hash = false

-- The errors after which the record may have been created.
abbrev pub ambiguous : DriverError → Bool
ambiguous already_exists = true
ambiguous unavailable = true
ambiguous _ = false

abbrev pub is_not_found : DriverError → Bool
is_not_found not_found = true
is_not_found _ = false

-- `errors.Is(err, target)` with another method as the handler of that error.
unfoldable pub handle_error {ℓ} :
    {A : Type ℓ}
    → World × Result DriverError A
    → (DriverError → Program A)
    → World × Result DriverError A
handle_error (w, ok a) handler = (w, ok a)
handle_error (w, err e) handler = handler e w

abbrev pub on_error {ℓ} : {A : Type ℓ} → Program A → (DriverError → Program A) → Program A
on_error first handler w = handle_error (first w) handler

module _ (controller : Controller) where
  -- The part of finishDeletedPair after Load, by the kind of the ownership record.
  unfoldable pub finish_with : DetailedAllocation → OwnershipRecord → Program (Unit {0})
  finish_with allocation (compact_ownership tombstone) =
      lift (validate_compact_pair controller.sealer (compact_projection_of allocation) tombstone)
  finish_with allocation (detailed_ownership ownership) = do
    tombstone ← finish_deleted controller allocation ownership
    done tt

  -- finishDeletedPair
  unfoldable pub finish_deleted_pair : DetailedAllocation → Program (Unit {0})
  finish_deleted_pair allocation = do
    ownership ← load_ownership controller allocation
    finish_with allocation ownership

  unfoldable pub as_detailed : OwnershipRecord → Program DetailedOwnership
  as_detailed (detailed_ownership ownership) = done ownership
  as_detailed (compact_ownership tombstone) = fail kind_unsupported

  -- prepareDelete for a Ready allocation, and nothing for one that is prepared.
  unfoldable pub choose_intent :
      StoredDetailed → DetailedOwnership → Program (StoredDetailed × DetailedOwnership)
  choose_intent stored ownership =
      if state_eq stored.allocation.state ready
      then prepare_delete controller stored ownership
      else done (stored, ownership)

  -- The part after the attachment check.
  unfoldable pub delete_unattached : StoredDetailed → DetailedOwnership → Program (Unit {0})
  delete_unattached stored ownership = do
    (fenced, fenced_ownership) ← reconcile_fence_union controller stored ownership
    refuse_if (not (length (nodes_of fenced.allocation.published_node_ids) == 0))
        published_fence_blocked
    (intended, intended_ownership) ← choose_intent fenced fenced_ownership
    dispose_prepared controller intended intended_ownership

  -- The part after reconcileDeletePair, for an allocation that is not in a final state.
  unfoldable pub delete_active : StoredDetailed → OwnershipRecord → Program (Unit {0})
  delete_active stored reconciled = do
    refuse_if
        (not (state_eq stored.allocation.state ready)
          && not (state_eq stored.allocation.state deleting))
        state_unsupported
    attached ← query controller
    refuse_if attached.yes volume_in_use
    ownership ← as_detailed reconciled
    delete_unattached stored ownership

  unfoldable pub delete_reconciled : StoredDetailed → OwnershipRecord → Program (Unit {0})
  delete_reconciled stored reconciled =
      if state_eq stored.allocation.state archived
        || state_eq stored.allocation.state retained
        || state_eq stored.allocation.state deleted
      then done tt
      else delete_active stored reconciled

  unfoldable pub delete_existing : StoredDetailed → Program (Unit {0})
  delete_existing stored = do
    ownership ← load_ownership controller stored.allocation
    reconciled ← reconcile_delete_pair controller stored.allocation ownership
    delete_reconciled stored reconciled

  -- deleteDetailed
  unfoldable pub delete_detailed : StoredDetailed → Program (Unit {0})
  delete_detailed stored =
      if state_eq stored.allocation.state deleted
      then finish_deleted_pair stored.allocation
      else delete_existing stored

  -- createResolvedAllocation
  unfoldable pub create_resolved_allocation : AllocationRecord → Program Stored
  create_resolved_allocation r = on_error (create_allocation controller r) (λ e.
      if ambiguous e
      then on_error (get_allocation controller)
          (λ read_error. fail (if is_not_found read_error then unavailable else read_error))
      else fail e)

  -- The record that a missing allocation is resolved to.
  unfoldable pub resolve_with : Text → Handle → Answer → Option AllocationRecord → Program Stored
  resolve_with volume_id handle answer (some recovered) = do
    refuse_if answer.yes recovery_ambiguous
    refuse_if (not (logical_id recovered =? handle.logical_volume_id)) handle_conflict
    handle_hash ← lift (volume_handle_hash_of controller.sealer.codec volume_id)
    refuse_if (not (recovered_matches recovered volume_id handle handle_hash)) handle_conflict
    create_resolved_allocation recovered
  resolve_with volume_id handle answer none = do
    refuse_if (not answer.yes || absent answer.word) unavailable
    handle_hash ← lift (volume_handle_hash_of controller.sealer.codec volume_id)
    time ← now controller
    create_resolved_allocation
        (unknown_record (absence_record controller handle handle_hash answer.word time))

  -- resolveMissing: `yes` answers whether absence is conclusive, with its reason in `word`.
  unfoldable pub resolve_missing : Text → Handle → Program Stored
  resolve_missing volume_id handle = do
    resolution ← query controller
    resolve_with volume_id handle resolution resolution.recovered

  -- The switch over the type of the stored record in Delete.
  unfoldable pub delete_stored : Text → Handle → Text → ℕ → AllocationRecord → Program (Unit {0})
  delete_stored volume_id handle handle_hash version (compact_record r) =
      refuse_if
        (not (r.mapping_hash =? handle.mapping_hash) || not (r.volume_handle_hash =? handle_hash))
        handle_conflict
  delete_stored volume_id handle handle_hash version (unknown_record r) =
      refuse_if
        (not (r.mapping_hash =? handle.mapping_hash) || not (r.volume_handle_hash =? handle_hash))
        handle_conflict
  delete_stored volume_id handle handle_hash version (detailed_record r) = do
    refuse_if (not (r.mapping_hash =? handle.mapping_hash) || not (r.volume_handle =? volume_id))
        handle_conflict
    delete_detailed (record { version = version; allocation = r })

  -- Get, and resolveMissing for an allocation that is not found.
  unfoldable pub find_allocation : Text → Handle → Program Stored
  find_allocation volume_id handle =
      on_error (get_allocation controller)
        (λ e. if is_not_found e then resolve_missing volume_id handle else fail e)

  -- Delete after the handle is parsed.
  unfoldable pub delete_handle : Text → Handle → Program (Unit {0})
  delete_handle volume_id handle = do
    admitted ← query controller
    locked ← query controller
    stored ← find_allocation volume_id handle
    validate_runtime_identity controller stored.value
    handle_hash ← lift (volume_handle_hash_of controller.sealer.codec volume_id)
    delete_stored volume_id handle handle_hash stored.version stored.value

  unfoldable pub delete_parsed : Text → Result VolumeError Handle → Program (Unit {0})
  delete_parsed volume_id (ok handle) = delete_handle volume_id handle
  delete_parsed volume_id (err foreign_handle) = done tt
  delete_parsed volume_id (err invalid_handle) = done tt
  delete_parsed volume_id (err e) = fail (volume_error e)

  -- DeleteController.Delete
  unfoldable pub delete_volume : Text → Program (Unit {0})
  delete_volume [] = fail empty_volume_id
  delete_volume (b ∷ bs) = delete_parsed (b ∷ bs) (parse_handle (b ∷ bs))

  -- The switch over the state in ReconcileExistingDeletion.
  unfoldable pub resumable : DetailedAllocation → AllocationState → Program (Unit {0})
  resumable r deleting = done tt
  resumable r archived = done tt
  resumable r retained = done tt
  resumable r deleted = refuse_if (present r.gc_operation_id) state_unsupported
  resumable r _ = fail state_unsupported

  unfoldable pub resume_stored : Text → ℕ → AllocationRecord → Program (Unit {0})
  resume_stored id version (detailed_record r) = do
    validate_runtime_identity controller (detailed_record r)
    refuse_if (not (r.logical_volume_id =? id)) handle_conflict
    resumable r r.state
    delete_detailed (record { version = version; allocation = r })
  resume_stored id version (compact_record r) = fail kind_unsupported
  resume_stored id version (unknown_record r) = fail kind_unsupported

  -- ReconcileExistingDeletion
  unfoldable pub reconcile_existing_deletion : Text → Program (Unit {0})
  reconcile_existing_deletion id = do
    lift (validate_logical_volume_id id)
    admitted ← query controller
    locked ← query controller
    stored ← get_allocation controller
    resume_stored id stored.version stored.value
