-- ===== src/Driver/Delete/Intent.antt =====
-- How the steps of a delete keep the two durable records together.
use scaleway_file_storage_su.Prelude.{[], some, ◌≡◌, refl, arith}
use scaleway_file_storage_su.Prelude.Results.{Result, ok}
use scaleway_file_storage_su.Prelude.Texts.{Text}
use scaleway_file_storage_su.Volume.Request.{Disposition, archive, delete, retain, other}
use scaleway_file_storage_su.Volume.State.{deleting}
use scaleway_file_storage_su.Volume.Records.{DetailedAllocation, nodes_of}
use scaleway_file_storage_su.Volume.OwnershipRecords.{DetailedOwnership, detailed_ownership}
use scaleway_file_storage_su.Volume.Ownership.{seal_detailed}
use scaleway_file_storage_su.Driver.Errors.{DriverError}
use scaleway_file_storage_su.Driver.World.{World, StoredDetailed, Controller}
use scaleway_file_storage_su.Driver.Program.{proceed, refuse_if, lift}
use scaleway_file_storage_su.Driver.Stores.{
  check_object, update_allocation, update_detailed_allocation, update_ownership,
  update_detailed_ownership,
}
use scaleway_file_storage_su.Driver.Pair.{mirror_ownership}
use scaleway_file_storage_su.Driver.Delete.{advance_pair, with_target}
use scaleway_file_storage_su.Driver.Delete.Authorized.{Intent, Unfenced, stored_of}

-- What a mirrored ownership record takes over from the allocation record.
abbrev pub Mirrors : DetailedOwnership → DetailedAllocation → Type 0
Mirrors n a =
    (n.state ≡ a.state)
    × (n.published_node_ids ≡ a.published_node_ids)
    × (n.delete_operation_id ≡ a.delete_operation_id)
    × (n.delete_operation ≡ a.delete_operation)
    × (n.delete_source_path ≡ a.delete_source_path)
    × (n.delete_target_path ≡ a.delete_target_path)
    × (n.delete_prepared_at ≡ a.delete_prepared_at)
    × (n.delete_remove_started_at ≡ a.delete_remove_started_at)

module _ (controller : Controller) where
  pub mirror_ownership-ok :
      (current : DetailedOwnership) (a : DetailedAllocation) (w w' : World) {n : DetailedOwnership}
      → mirror_ownership controller current a w ≡ (w', ok n)
      → Mirrors n a
        × (w'.ownership ≡ some (detailed_ownership n))
        × (w'.allocation ≡ w.allocation)
        × (w'.effects ≡ w.effects)
  unfolding mirror_ownership update_detailed_ownership update_ownership seal_detailed proceed
      refuse_if lift
  mirror_ownership-ok current a w w' h = ground arith

  pub mirror_ownership-effects :
      (current : DetailedOwnership) (a : DetailedAllocation) (w w' : World)
      {r : Result DriverError DetailedOwnership}
      → mirror_ownership controller current a w ≡ (w', r)
      → w'.effects ≡ w.effects
  unfolding mirror_ownership update_detailed_ownership update_ownership proceed refuse_if lift
  mirror_ownership-effects current a w w' h = ground arith

  pub advance_pair-effects :
      (s : StoredDetailed) (o : DetailedOwnership) (next : DetailedAllocation) (w w' : World)
      {r : Result DriverError (StoredDetailed × DetailedOwnership)}
      → advance_pair controller s o next w ≡ (w', r)
      → w'.effects ≡ w.effects
  unfolding advance_pair mirror_ownership update_detailed_ownership update_ownership
      update_detailed_allocation update_allocation check_object proceed refuse_if lift
  advance_pair-effects s o next w w' h = ground arith

  pub advance_pair-ok :
      (s : StoredDetailed) (o : DetailedOwnership) (next : DetailedAllocation) (w w' : World)
      {s' : StoredDetailed} {o' : DetailedOwnership}
      → advance_pair controller s o next w ≡ (w', ok (s', o'))
      → (s'.allocation ≡ next)
        × Mirrors o' next
        × (w'.allocation ≡ some (stored_of s'))
        × (w'.ownership ≡ some (detailed_ownership o'))
  unfolding advance_pair mirror_ownership update_detailed_ownership update_ownership
      update_detailed_allocation update_allocation check_object seal_detailed proceed refuse_if lift
  advance_pair-ok s o next w w' h = ground arith

  -- Advancing to a record of a prepared delete gives both records its intent.
  pub advance_pair-Intent :
      (s : StoredDetailed) (o : DetailedOwnership) (next : DetailedAllocation) (w w' : World)
      {s' : StoredDetailed} {o' : DetailedOwnership}
      → advance_pair controller s o next w ≡ (w', ok (s', o'))
      → next.state ≡ deleting
      → nodes_of next.published_node_ids ≡ []
      → (w'.allocation ≡ some (stored_of s'))
        × (w'.ownership ≡ some (detailed_ownership o'))
        × Intent s'.allocation o'
        × Unfenced s'.allocation o'
        × (s'.allocation ≡ next)
  advance_pair-Intent s o next w w' h state nodes = ground (arith, advance_pair-ok s o next w w' h)

  pub prepared-deleting :
      (r : DetailedAllocation) (policy : Disposition) (target : Text)
      → r.state ≡ deleting
      → ((with_target r policy target).state ≡ deleting)
        × ((with_target r policy target).published_node_ids ≡ r.published_node_ids)
  prepared-deleting r archive target h = (h, refl)
  prepared-deleting r delete target h = (h, refl)
  prepared-deleting r retain target h = (h, refl)
  prepared-deleting r (other t) target h = (h, refl)
