-- ===== src/Driver/Delete/Authorized.antt =====
-- When a directory operation of a delete is allowed, and the directory operations that keep it.
use scaleway_file_storage_su.Prelude.{
  Bool, true, false, [], ◌∷◌, All, some, ◌≡◌, ◌≢◌, refl, ◌∙◌, not, ◌||◌, if◌then◌else◌, arith,
}
use scaleway_file_storage_su.Prelude.Results.{Result, ok, err}
use scaleway_file_storage_su.Prelude.Texts.{Text}
use scaleway_file_storage_su.Volume.Request.{
  Disposition, archive, delete, retain, other, disposition_eq, disposition_eq_iff,
}
use scaleway_file_storage_su.Volume.State.{deleting, state_eq}
use scaleway_file_storage_su.Volume.Records.{DetailedAllocation, detailed_record, nodes_of}
use scaleway_file_storage_su.Volume.OwnershipRecords.{DetailedOwnership, detailed_ownership}
use scaleway_file_storage_su.Volume.Lifecycle.{absent}
use scaleway_file_storage_su.Driver.Errors.{DriverError, source_missing}
use scaleway_file_storage_su.Driver.World.{
  World, Stored, StoredDetailed, DirectoryAction, archive_directory, quarantine_directory,
  remove_directory, sync_deleted_directory, Effect, Controller,
}
use scaleway_file_storage_su.Driver.Program.{proceed, refuse_if, lift}
use scaleway_file_storage_su.Driver.Program.Rules.{
  Outcome, Outcome-intro, proceed-Outcome, refuse_if-Outcome,
}
use scaleway_file_storage_su.Driver.Stores.{query}
use scaleway_file_storage_su.Driver.Stores.Effects.{Same}
use scaleway_file_storage_su.Driver.Disposition.{
  PathObservation, perform, observe_paths, dispose, prepare_disposition, remove_quarantine,
}

-- Both records are in the prepared delete of the same operation, with the same paths.
abbrev pub Intent : DetailedAllocation → DetailedOwnership → Type 0
Intent a o =
    (a.state ≡ deleting)
    × (o.state ≡ deleting)
    × (a.delete_operation_id ≡ o.delete_operation_id)
    × (a.delete_operation ≡ o.delete_operation)
    × (a.delete_source_path ≡ o.delete_source_path)
    × (a.delete_target_path ≡ o.delete_target_path)
    × (a.delete_prepared_at ≡ o.delete_prepared_at)

-- No node has the volume published, by either record.
abbrev pub Unfenced : DetailedAllocation → DetailedOwnership → Type 0
Unfenced a o = (nodes_of a.published_node_ids ≡ []) × (nodes_of o.published_node_ids ≡ [])

-- Both records say that removal has started.
abbrev pub RemoveStarted : DetailedAllocation → DetailedOwnership → Type 0
RemoveStarted a o =
    (a.delete_remove_started_at ≢ []) × (o.delete_remove_started_at ≡ a.delete_remove_started_at)

-- The operation and the paths are those of the records, and a removal has its evidence.
abbrev pub Allowed : DirectoryAction → DetailedAllocation → DetailedOwnership → Type 0
Allowed (archive_directory base name target) a o =
    (a.delete_operation ≡ archive)
    × (base ≡ a.base_path)
    × (name ≡ a.directory_name)
    × (target ≡ a.delete_target_path)
Allowed (quarantine_directory base name target) a o =
    (a.delete_operation ≡ delete)
    × (base ≡ a.base_path)
    × (name ≡ a.directory_name)
    × (target ≡ a.delete_target_path)
Allowed (remove_directory base target) a o =
    (a.delete_operation ≡ delete)
    × RemoveStarted a o
    × (base ≡ a.base_path)
    × (target ≡ a.delete_target_path)
Allowed (sync_deleted_directory base) a o =
    (a.delete_operation ≡ delete) × RemoveStarted a o × (base ≡ a.base_path)

abbrev pub stored_of : StoredDetailed → Stored
stored_of s = record { version = s.version; value = detailed_record s.allocation }

-- The durable records that stand at the operation allow it.
abbrev pub Authorized : Effect → Type 0
Authorized e =
    (s : StoredDetailed) × (o : DetailedOwnership) × (e.durable_allocation ≡ some (stored_of s))
    × (e.durable_ownership ≡ some (detailed_ownership o))
    × Intent s.allocation o
    × Unfenced s.allocation o
    × Allowed e.action s.allocation o

abbrev pub Safe : World → Type 0
Safe w = All Authorized w.effects

-- The controller holds the durable records.
abbrev pub Held : StoredDetailed → DetailedOwnership → World → Type 0
Held s o w =
    (w.allocation ≡ some (stored_of s)) × (w.ownership ≡ some (detailed_ownership o)) × Safe w

module _ (controller : Controller) (s : StoredDetailed) (o : DetailedOwnership) where
  pub Held-Safe : (w : World) → Held s o w → Safe w
  Held-Safe w (stored, owner, safe) = safe

  abbrev Kept : Unit {0} → World → Type 0
  Kept u w = Held s o w

  perform-effects :
      (action : DirectoryAction) (w w' : World) {r : Result DriverError (Unit {0})}
      → perform controller action w ≡ (w', r)
      → (w'.allocation ≡ w.allocation)
        × (w'.ownership ≡ w.ownership)
        × (w'.effects
            ≡ record {
              action = action;
              durable_allocation = w.allocation;
              durable_ownership = w.ownership;
            }
              ∷ w.effects)
  unfolding perform proceed refuse_if lift
  perform-effects action w w' h = ground arith

  perform-Held :
      (action : DirectoryAction) (w w' : World) {r : Result DriverError (Unit {0})}
      → perform controller action w ≡ (w', r)
      → Held s o w
      → Intent s.allocation o
      → Unfenced s.allocation o
      → Allowed action s.allocation o
      → Held s o w'
  perform-Held action w w' h (stored, owner, safe) intent unfenced allowed =
      let (same_stored, same_owner, effects) = perform-effects action w w' h in
      let authorized : Authorized (record {
        action = action;
        durable_allocation = w.allocation;
        durable_ownership = w.ownership;
      }) =
        (s, o, stored, owner, intent, unfenced, allowed) in
      (same_stored ∙ stored, same_owner ∙ owner, rw effects (authorized, safe))

  perform-Outcome :
      (action : DirectoryAction) (w : World)
      → Held s o w
      → Intent s.allocation o
      → Unfenced s.allocation o
      → Allowed action s.allocation o
      → Outcome Kept Safe (perform controller action w)
  perform-Outcome action w held intent unfenced allowed =
      let after : (w' : World) (r : Result DriverError (Unit {0}))
          → perform controller action w ≡ (w', r)
          → Held s o w' =
        λ w' r e. perform-Held action w w' e held intent unfenced allowed in
      Outcome-intro Kept Safe (perform controller action w) (λ u w' e. after w' (ok u) e)
        (λ f w' e. Held-Safe w' (after w' (err f) e))

  refuse_if-Kept :
      (test : Bool) (e : DriverError) (w : World)
      → Held s o w
      → Outcome Kept Safe (refuse_if test e w)
  unfolding Outcome refuse_if
  refuse_if-Kept true e w held = Held-Safe w held
  refuse_if-Kept false e w held = held

  pub observe_paths-Same :
      (w w' : World) {r : Result DriverError PathObservation}
      → observe_paths controller s.allocation w ≡ (w', r)
      → Same w w'
  unfolding observe_paths query proceed refuse_if lift
  observe_paths-Same w w' h = ground arith

  dispose-Outcome :
      (operation : Disposition) (source target : Bool) (w : World)
      → s.allocation.delete_operation ≡ operation
      → Held s o w
      → Intent s.allocation o
      → Unfenced s.allocation o
      → Outcome Kept Safe (dispose controller s.allocation operation source target w)
  unfolding dispose Outcome
  dispose-Outcome archive true false w e held intent unfenced =
      perform-Outcome _ w held intent unfenced (e, refl, refl, refl)
  dispose-Outcome archive false true w e held intent unfenced = held
  dispose-Outcome archive true true w e (stored, owner, safe) intent unfenced = safe
  dispose-Outcome archive false false w e (stored, owner, safe) intent unfenced = safe
  dispose-Outcome delete true false w e held intent unfenced =
      perform-Outcome _ w held intent unfenced (e, refl, refl, refl)
  dispose-Outcome delete false true w e held intent unfenced = held
  dispose-Outcome delete true true w e (stored, owner, safe) intent unfenced = safe
  dispose-Outcome delete false false w e held intent unfenced =
      refuse_if-Kept (absent s.allocation.delete_remove_started_at) source_missing w held
  dispose-Outcome retain source target w e held intent unfenced =
      refuse_if-Kept (not source) source_missing w held
  dispose-Outcome (other t) source target w e (stored, owner, safe) intent unfenced = safe

  pub Same-Held : (w w' : World) → Same w w' → Held s o w → Held s o w'
  Same-Held w w' (allocation, ownership, effects) (stored, owner, safe) =
      (allocation ∙ stored, ownership ∙ owner, rw effects safe)

  observe_paths-Outcome :
      (w : World)
      → Held s o w
      → Outcome (λ seen w'. Held s o w') Safe (observe_paths controller s.allocation w)
  observe_paths-Outcome w held =
      let after : (w' : World) (r : Result DriverError PathObservation)
          → observe_paths controller s.allocation w ≡ (w', r)
          → Held s o w' =
        λ w' r e. Same-Held w w' (observe_paths-Same w w' e) held in
      Outcome-intro (λ seen w'. Held s o w') Safe (observe_paths controller s.allocation w)
        (λ seen w' e. after w' (ok seen) e) (λ f w' e. Held-Safe w' (after w' (err f) e))

  pub prepare_disposition-Outcome :
      (w : World)
      → Held s o w
      → Intent s.allocation o
      → Unfenced s.allocation o
      → Outcome Kept Safe (prepare_disposition controller s.allocation w)
  unfolding prepare_disposition
  prepare_disposition-Outcome w held intent unfenced =
      refuse_if-Outcome Kept Safe w _ _ _ (Held-Safe w held) (λ state.
        proceed-Outcome (λ seen w'. Held s o w') Kept Safe (observe_paths controller s.allocation w)
          _ (observe_paths-Outcome w held)
          (λ seen w' held'.
            dispose-Outcome s.allocation.delete_operation seen.source_present seen.target_present w'
              refl held' intent unfenced))

  absent-false : (t : Text) → absent t ≡ false → t ≢ []
  absent-false [] h = ground arith
  absent-false (b ∷ bs) h = ground arith

  removal_evidence :
      (not (state_eq s.allocation.state deleting)
          || not (disposition_eq s.allocation.delete_operation delete)
          || absent s.allocation.delete_remove_started_at)
        ≡ false
      → (s.allocation.delete_operation ≡ delete) × (s.allocation.delete_remove_started_at ≢ [])
  removal_evidence h = ground (
    arith,
    disposition_eq_iff s.allocation.delete_operation delete,
    absent-false s.allocation.delete_remove_started_at,
  )

  pub remove_quarantine-Outcome :
      (w : World)
      → Held s o w
      → Intent s.allocation o
      → Unfenced s.allocation o
      → o.delete_remove_started_at ≡ s.allocation.delete_remove_started_at
      → Outcome Kept Safe (remove_quarantine controller s.allocation w)
  unfolding remove_quarantine
  remove_quarantine-Outcome w held intent unfenced same =
      refuse_if-Outcome Kept Safe w _ _ _ (Held-Safe w held) (λ test.
        let (operation, started) = removal_evidence test in
        proceed-Outcome (λ seen w'. Held s o w') Kept Safe (observe_paths controller s.allocation w)
          _ (observe_paths-Outcome w held)
          (λ seen w' held'. refuse_if-Outcome Kept Safe w' _ _ _ (Held-Safe w' held') (λ moved.
            elim seen.target_present
              as (λ b. Outcome Kept Safe (
                (if b
                    then perform controller
                        (remove_directory s.allocation.base_path s.allocation.delete_target_path)
                    else perform controller (sync_deleted_directory s.allocation.base_path))
                  w')) [
                    | true ↦
                        perform-Outcome _ w' held' intent unfenced
                          (operation, (started, same), refl, refl)
                    | false ↦
                        perform-Outcome _ w' held' intent unfenced
                          (operation, (started, same), refl)
                  ])))
