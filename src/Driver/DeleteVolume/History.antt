-- ===== src/Driver/DeleteVolume/History.antt =====
-- Histories of DeleteVolume and ReconcileExistingDeletion calls on one volume, each by a controller of
-- its own: another process, other answers from the outside. A crash in a call leaves the world that a
-- lost answer at that point leaves.
use scaleway_file_storage_su.Prelude.{[], ◌∷◌, some, arith, ◌≡◌, All}
use scaleway_file_storage_su.Prelude.Results.{Result, ok, err}
use scaleway_file_storage_su.Prelude.Texts.{Text}
use scaleway_file_storage_su.Volume.Handle.{Handle, parse_handle}
use scaleway_file_storage_su.Driver.Errors.{DriverError}
use scaleway_file_storage_su.Driver.World.{World, Stored, Controller}
use scaleway_file_storage_su.Driver.Program.Rules.{Outcome}
use scaleway_file_storage_su.Driver.Delete.Authorized.{Authorized, Safe}
use scaleway_file_storage_su.Driver.DeleteVolume.{
  delete_handle, delete_parsed, delete_volume, reconcile_existing_deletion,
}
use scaleway_file_storage_su.Driver.DeleteVolume.Calls.{
  Ended, FinalRecord, delete_handle-Outcome, SafeAfter, delete_volume-Outcome,
  reconcile_existing_deletion-Outcome,
}

-- The world that a method leaves, with or without an error.
abbrev pub world_after {ℓ} : {A : Type ℓ} → World × Result DriverError A → World
world_after (w, r) = w

pub data History : World → World → Type 0 where
  start : {w : World} → History w w
  then_delete :
      {w v : World}
      → History w v
      → (controller : Controller) (volume_id : Text)
      → History w (world_after (delete_volume controller volume_id v))
  then_resume :
      {w v : World}
      → History w v
      → (controller : Controller) (logical_volume_id : Text)
      → History w (world_after (reconcile_existing_deletion controller logical_volume_id v))

after-Safe :
    (r : World × Result DriverError (Unit {0})) → Outcome SafeAfter Safe r → Safe (world_after r)
unfolding Outcome
after-Safe (w, ok u) safe = safe
after-Safe (w, err e) safe = safe

-- In every history of DeleteVolume and ReconcileExistingDeletion calls, with any failures, lost
-- answers and restarts, every directory operation since a start without operations was called while
-- both durable records were in the same prepared delete, with the same operation and paths, while no
-- record had a published node, with the paths of the records, and a removal while both records said
-- that removal had started.
pub History-Safe : {w v : World} → History w v → w.effects ≡ [] → All Authorized v.effects
History-Safe start fresh = rw fresh tt
History-Safe (then_delete {v = v} earlier controller id) fresh =
    after-Safe (delete_volume controller id v)
      (delete_volume-Outcome controller id v (History-Safe earlier fresh))
History-Safe (then_resume {v = v} earlier controller id) fresh =
    after-Safe (reconcile_existing_deletion controller id v)
      (reconcile_existing_deletion-Outcome controller id v (History-Safe earlier fresh))

final-of :
    (r : World × Result DriverError (Unit {0})) (v : World)
    → Outcome Ended Safe r
    → r ≡ (v, ok tt)
    → (s : Stored) × (v.allocation ≡ some s) × FinalRecord s.value
unfolding Outcome
final-of (w, ok u) v (safe, (s, stored, final)) e = (s, (ground arith), final)
final-of (w, err f) v safe e = cc

-- After any history since a start without operations, a DeleteVolume of a handle that succeeds leaves
-- a durable allocation record that is a tombstone, or a detailed record in the state Archived,
-- Retained or Deleted.
pub delete_handle-Final :
    {w v v' : World} (controller : Controller) (volume_id : Text) (handle : Handle)
    → History w v
    → w.effects ≡ []
    → parse_handle volume_id ≡ ok handle
    → delete_volume controller volume_id v ≡ (v', ok tt)
    → (s : Stored) × (v'.allocation ≡ some s) × FinalRecord s.value
unfolding delete_volume delete_parsed
delete_handle-Final controller [] handle earlier fresh parsed success = absurd (ground arith)
delete_handle-Final {v = v} {v' = v'} controller (b ∷ bs) handle earlier fresh parsed success =
    final-of (delete_handle controller (b ∷ bs) handle v) v'
      (delete_handle-Outcome controller (b ∷ bs) handle v (History-Safe earlier fresh))
      (ground arith)
