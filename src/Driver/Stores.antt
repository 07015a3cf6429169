-- ===== src/Driver/Stores.antt =====
-- The stores behind the controllers, for the records of one logical volume: Create, Get and Update of
-- pkg/k8s/allocation_store.go over the optimistic concurrency of the Kubernetes API, and the ownership
-- store of pkg/parentfs/backend.go over UpdateOwnership of pkg/safety/durable.go. Encoding and decoding
-- of a record in an object are inverse here, so that the stored value is the record, and the labels
-- and names that are made from a record agree with it.
pub mod Effects
use scaleway_file_storage_su.Prelude.{◌+◌, Bool, not, ◌&&◌, ◌||◌, Option, none, some, ◌==◌}
use scaleway_file_storage_su.Prelude.Results.{ok}
use scaleway_file_storage_su.Prelude.Texts.{Text}
use scaleway_file_storage_su.Prelude.Equality.{◌=?◌, text_Eq}
use scaleway_file_storage_su.Volume.Identifiers.{validate_logical_volume_id}
use scaleway_file_storage_su.Volume.Records.{
  DetailedAllocation, AllocationRecord, detailed_record, compact_record, unknown_record, logical_id,
}
use scaleway_file_storage_su.Volume.Validation.{validate_detailed, validate_record}
use scaleway_file_storage_su.Volume.Transition.{validate_allocation_update}
use scaleway_file_storage_su.Volume.OwnershipRecords.{
  DetailedOwnership, CompactOwnership, OwnershipRecord, detailed_ownership, compact_ownership,
  owner_logical_id,
}
use scaleway_file_storage_su.Volume.Ownership.{validate_ownership}
use scaleway_file_storage_su.Volume.OwnershipTransition.{validate_ownership_update}
use scaleway_file_storage_su.Driver.Errors.{
  DriverError, not_found, already_exists, conflict, generation_mismatch, ownership_not_found,
  another_owner, handle_conflict,
}
use scaleway_file_storage_su.Driver.World.{
  Stored, StoredDetailed, Reply, refused, lost, Answer, Controller,
}
use scaleway_file_storage_su.Driver.Program.{
  Program, proceed, ◌>>=◌, ◌>>◌, done, fail, refuse_if, lift,
}

-- The error of a call that is refused, before its effect, and of one whose answer is lost, after it.
abbrev pub before_effect : Reply → Program (Unit {0})
before_effect (refused e) = fail e
before_effect _ = done tt

abbrev pub after_effect : Reply → Program (Unit {0})
after_effect (lost e) = fail e
after_effect _ = done tt

abbrev pub present_or {ℓ} : {A : Type ℓ} → Option A → DriverError → Program A
present_or none e = fail e
present_or (some a) e = done a

abbrev pub durable_allocation : Program (Option Stored)
durable_allocation w = (w, ok w.allocation)

abbrev pub durable_ownership : Program (Option OwnershipRecord)
durable_ownership w = (w, ok w.ownership)

abbrev pub put_allocation : Stored → Program (Unit {0})
put_allocation stored w = (record w { allocation = some stored }, ok tt)

abbrev pub put_ownership : OwnershipRecord → Program (Unit {0})
put_ownership ownership w = (record w { ownership = some ownership }, ok tt)

module _ (controller : Controller) where
  -- The answer to the next call.
  abbrev pub ask : Program Answer
  ask w = (record w { calls = w.calls + 1 }, ok (controller.answer w.calls))

  -- A call without an effect.
  unfoldable pub query : Program Answer
  query = do a ← ask; before_effect a.reply; after_effect a.reply; done a

  -- canonicalNow(controller.clock.Now())
  unfoldable pub now : Program Text
  now = do a ← ask; done a.word

  -- The identity that objectForRecord and recordLabels require of a record of this store.
  unfoldable pub in_scope : AllocationRecord → Bool
  in_scope (detailed_record r) =
      (r.driver_name =? controller.driver_name) && (r.installation_id =? controller.installation_id)
  in_scope (compact_record r) =
      (r.driver_name =? controller.driver_name) && (r.installation_id =? controller.installation_id)
  in_scope (unknown_record r) =
      (r.driver_name =? controller.driver_name) && (r.installation_id =? controller.installation_id)

  -- objectForRecord
  unfoldable pub check_object : AllocationRecord → Program (Unit {0})
  check_object r = do
    lift (validate_record controller.sealer.codec r)
    refuse_if (not (in_scope r)) another_owner
    lift (validate_logical_volume_id (logical_id r))

  -- AllocationStore.Get
  unfoldable pub get_allocation : Program Stored
  get_allocation = do a ← query; durable ← durable_allocation; present_or durable not_found

  abbrev refuse_present : Option Stored → Program (Unit {0})
  refuse_present none = done tt
  refuse_present (some stored) = fail already_exists

  -- AllocationStore.Create
  unfoldable pub create_allocation : AllocationRecord → Program Stored
  create_allocation r = do
    check_object r
    a ← ask
    before_effect a.reply
    durable ← durable_allocation
    refuse_present durable
    put_allocation (record { version = 1; value = r })
    after_effect a.reply
    done (record { version = 1; value = r })

  -- AllocationStore.Update: the API server replaces the object at the version that it has.
  unfoldable pub update_allocation : Stored → AllocationRecord → Program Stored
  update_allocation current next = do
    lift (validate_allocation_update controller.sealer.codec current.value next)
    check_object next
    a ← ask
    before_effect a.reply
    durable ← durable_allocation
    stored ← present_or durable not_found
    refuse_if (not (stored.version == current.version)) conflict
    put_allocation (record { version = current.version + 1; value = next })
    after_effect a.reply
    done (record { version = current.version + 1; value = next })

  -- Update with the type assertion on its result.
  unfoldable pub update_detailed_allocation :
      StoredDetailed → DetailedAllocation → Program StoredDetailed
  update_detailed_allocation current next = do
    updated ←
        update_allocation
          (record { version = current.version; value = detailed_record current.allocation })
          (detailed_record next)
    done (record { version = updated.version; allocation = next })

  -- LifecycleOwnershipStore.Load
  unfoldable pub load_ownership : DetailedAllocation → Program OwnershipRecord
  load_ownership allocation = do
    lift (validate_detailed controller.sealer.codec allocation)
    a ← query
    durable ← durable_ownership
    ownership ← present_or durable ownership_not_found
    lift (validate_ownership controller.sealer ownership)
    refuse_if (not (owner_logical_id ownership =? allocation.logical_volume_id)) handle_conflict
    done ownership

  -- MetadataWriter.UpdateOwnership: the file is replaced where it has the bytes of the expected
  -- record, and a file that has the bytes of the next record already is left as it is.
  unfoldable pub update_ownership : OwnershipRecord → OwnershipRecord → Program (Unit {0})
  update_ownership expected next = do
    lift (validate_ownership_update controller.sealer expected next)
    a ← ask
    before_effect a.reply
    durable ← durable_ownership
    installed ← present_or durable generation_mismatch
    let bytes = controller.encode installed
    refuse_if (not (bytes =? controller.encode expected) && not (bytes =? controller.encode next))
        generation_mismatch
    put_ownership next
    after_effect a.reply

  -- LifecycleOwnershipStore.UpdateDetailed, with validateUpdateIdentity
  unfoldable pub update_detailed_ownership :
      DetailedOwnership → DetailedOwnership → Program (Unit {0})
  update_detailed_ownership current next = do
    refuse_if
        (not (current.parent_filesystem_id =? next.parent_filesystem_id)
          || not (current.base_path =? next.base_path))
        handle_conflict
    update_ownership (detailed_ownership current) (detailed_ownership next)

  -- LifecycleOwnershipStore.Compact
  unfoldable pub compact_ownership_record :
      DetailedOwnership → CompactOwnership → Program (Unit {0})
  compact_ownership_record current next = do
    refuse_if (not (current.parent_filesystem_id =? next.parent_filesystem_id)) handle_conflict
    update_ownership (detailed_ownership current) (compact_ownership next)
