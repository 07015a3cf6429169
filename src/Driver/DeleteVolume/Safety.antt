-- ===== src/Driver/DeleteVolume/Safety.antt =====
-- Every directory operation of DeleteVolume and of its resumption is authorized by both durable
-- records.
use scaleway_file_storage_su.Prelude.{
  false, List, [], ◌∷◌, length, ◌==◌, some, ◌⊎◌, inr, ◌≡◌, refl, ◌∙◌, sym, not, ◌||◌, arith,
}
use scaleway_file_storage_su.Prelude.Results.{Result, ok, err}
use scaleway_file_storage_su.Prelude.Texts.{Text}
use scaleway_file_storage_su.Volume.State.{
  ready, deleting, archived, deleted, retained, state_eq, state_eq_iff,
}
use scaleway_file_storage_su.Volume.Records.{DetailedAllocation, nodes_of}
use scaleway_file_storage_su.Volume.OwnershipRecords.{
  DetailedOwnership, OwnershipRecord, detailed_ownership, compact_ownership,
}
use scaleway_file_storage_su.Driver.Errors.{DriverError, kind_unsupported}
use scaleway_file_storage_su.Driver.World.{World, StoredDetailed, Controller}
use scaleway_file_storage_su.Driver.Program.{done, fail}
use scaleway_file_storage_su.Driver.Program.Rules.{
  Outcome, Outcome-intro, Outcome-done, Outcome-fail, proceed-Outcome, refuse_if-Outcome,
  if-Outcome, give-Outcome,
}
use scaleway_file_storage_su.Driver.Stores.{query, load_ownership}
use scaleway_file_storage_su.Driver.Stores.Effects.{
  Same, query-Outcome, load_ownership-ok, load_ownership-effects,
}
use scaleway_file_storage_su.Driver.Pair.{
  finish_deleted, reconcile_delete_pair, reconcile_fence_union,
}
use scaleway_file_storage_su.Driver.Delete.{prepare_delete}
use scaleway_file_storage_su.Driver.Delete.Authorized.{
  Intent, Unfenced, Held, Held-Safe, Safe, stored_of,
}
use scaleway_file_storage_su.Driver.Delete.Completion.{
  Done-Safe, Done, IsFinal, Prepared, Safe-effects, query-Held, prepare_delete-Outcome,
  dispose_prepared-Outcome,
}
use scaleway_file_storage_su.Driver.Delete.Reconcile.{
  Quiet, Reconciled, finish_deleted-Outcome, reconcile_delete_pair-Outcome,
}
use scaleway_file_storage_su.Driver.Delete.Fences.{Fenced, reconcile_fence_union-Outcome}
use scaleway_file_storage_su.Driver.DeleteVolume.{
  finish_with, finish_deleted_pair, as_detailed, choose_intent, delete_unattached, delete_active,
  delete_reconciled, delete_detailed, delete_existing,
}

no_nodes : (nodes : List Text) → not (length nodes == 0) ≡ false → nodes ≡ []
no_nodes [] h = refl
no_nodes (n ∷ ns) h = ground arith

module _ (controller : Controller) where
  delete_unattached-Outcome :
      (s : StoredDetailed) (o : DetailedOwnership) (w : World)
      → Held s o w
      → (s.allocation.state ≡ ready) ⊎ (s.allocation.state ≡ deleting)
      → (s.allocation.state ≡ deleting → Intent s.allocation o)
      → Outcome Done Safe (delete_unattached controller s o w)
  unfolding delete_unattached choose_intent
  delete_unattached-Outcome s o w held active intent =
      proceed-Outcome (Fenced s o) Done Safe (reconcile_fence_union controller s o w) _
        (reconcile_fence_union-Outcome controller s o w held)
        (λ (s', o') w' (held', nodes, kept, state).
          refuse_if-Outcome Done Safe w' _ _ _ (Held-Safe controller s' o' w' held') (λ test.
            let empty : nodes_of s'.allocation.published_node_ids ≡ [] = no_nodes _ test in
            let unfenced : Unfenced s'.allocation o' = (empty, sym nodes ∙ empty) in
            proceed-Outcome Prepared Done Safe (choose_intent controller s' o' w') _
              (if-Outcome Prepared Safe w' (state_eq s'.allocation.state ready)
                (prepare_delete controller s' o') (done (s', o'))
                (λ fresh. prepare_delete-Outcome controller s' o' w' held' unfenced)
                (λ resumed.
                  Outcome-done Prepared Safe (s', o') w'
                    (
                      held',
                      kept (intent (ground (arith, state_eq_iff s'.allocation.state ready))),
                      unfenced,
                    )))
              (λ (s'', o'') w'' ready_pair.
                dispose_prepared-Outcome controller s'' o'' w'' ready_pair)))

  delete_active-Outcome :
      (s : StoredDetailed) (o : OwnershipRecord) (w₀ w : World)
      → w₀.allocation ≡ some (stored_of s)
      → Safe w₀
      → Reconciled s.allocation w₀ o w
      → Outcome Done Safe (delete_active controller s o w)
  unfolding delete_active as_detailed
  delete_active-Outcome s (compact_ownership o) w₀ w stored safe ((allocation, effects), agreed) =
      let safe' : Safe w = Safe-effects w₀ w effects safe in
      refuse_if-Outcome Done Safe w _ _ _ safe' (λ test.
        proceed-Outcome (λ a w'. Safe w') Done Safe (query controller w) _
          (query-Outcome controller Safe Safe w
            (λ w' (same, owner, effects'). Safe-effects w w' effects' safe') (λ w' safe''. safe''))
          (λ a w' safe''. refuse_if-Outcome Done Safe w' _ _ _ safe'' (λ free.
            proceed-Outcome (λ n w''. ⊥) Done Safe (fail kind_unsupported w') _
              (Outcome-fail (λ n w''. ⊥) Safe kind_unsupported w' safe'')
              (λ n w'' impossible. absurd impossible))))
  delete_active-Outcome s (detailed_ownership o) w₀ w stored safe ((allocation, effects), agreed) =
      let safe' : Safe w = Safe-effects w₀ w effects safe in
      refuse_if-Outcome Done Safe w _ _ _ safe' (λ test.
        let active : (s.allocation.state ≡ ready) ⊎ (s.allocation.state ≡ deleting) = ground (
          arith,
          state_eq_iff s.allocation.state ready,
          state_eq_iff s.allocation.state deleting,
        ) in
        let (owner, intent) = agreed o active refl in
        let held : Held s o w = (allocation ∙ stored, owner, safe') in
        proceed-Outcome (λ a w'. Held s o w') Done Safe (query controller w) _
          (query-Held controller s o w held)
          (λ a w' held'.
            refuse_if-Outcome Done Safe w' _ _ _ (Held-Safe controller s o w' held') (λ free.
              proceed-Outcome (λ n w''. (n ≡ o) × Held s o w'') Done Safe (done o w') _
                (Outcome-done (λ n w''. (n ≡ o) × Held s o w'') Safe o w' (refl, held'))
                (λ n w'' (same, held'').
                  rw same (delete_unattached-Outcome s o w'' held'' active intent)))))

  delete_reconciled-Outcome :
      (s : StoredDetailed) (o : OwnershipRecord) (w₀ w : World)
      → w₀.allocation ≡ some (stored_of s)
      → Safe w₀
      → Reconciled s.allocation w₀ o w
      → Outcome Done Safe (delete_reconciled controller s o w)
  unfolding delete_reconciled
  delete_reconciled-Outcome s o w₀ w stored safe reconciled =
      let ((allocation, effects), agreed) = reconciled in
      if-Outcome Done Safe w
        (state_eq s.allocation.state archived
          || state_eq s.allocation.state retained
          || state_eq s.allocation.state deleted)
        (done tt) (delete_active controller s o)
        (λ test.
          let final : IsFinal s.allocation.state = ground (
            arith,
            state_eq_iff s.allocation.state archived,
            state_eq_iff s.allocation.state retained,
            state_eq_iff s.allocation.state deleted,
          ) in
          Outcome-done Done Safe tt w
            (Safe-effects w₀ w effects safe, (s, allocation ∙ stored, final)))
        (λ moving. delete_active-Outcome s o w₀ w stored safe reconciled)

  load-Outcome :
      (a : DetailedAllocation) (w : World)
      → Safe w
      → Outcome (λ o w'. (w'.ownership ≡ some o) × Same w w') Safe (load_ownership controller a w)
  load-Outcome a w safe =
      Outcome-intro (λ o w'. (w'.ownership ≡ some o) × Same w w') Safe
        (load_ownership controller a w) (λ o w' e. load_ownership-ok controller a w w' e)
        (λ f w' e. Safe-effects w w' (load_ownership-effects controller a w w' e) safe)

  Quiet-Done {ℓ} :
      {A : Type ℓ} (w : World) (r : World × Result DriverError A)
      → Done tt w
      → Outcome (λ a w'. Quiet w w') (Quiet w) r
      → Outcome (λ a w'. Done tt w') Safe r
  unfolding Outcome
  Quiet-Done w (w', ok a) (safe, (s, stored, final)) (allocation, effects) =
      (Safe-effects w w' effects safe, (s, allocation ∙ stored, final))
  Quiet-Done w (w', err e) (safe, final) (allocation, effects) = Safe-effects w w' effects safe

  Reconciled-Outcome :
      (a : DetailedAllocation) (w : World) (r : World × Result DriverError OwnershipRecord)
      → Safe w
      → Outcome (Reconciled a w) (Quiet w) r
      → Outcome (Reconciled a w) Safe r
  unfolding Outcome
  Reconciled-Outcome a w (w', ok o) safe h = h
  Reconciled-Outcome a w (w', err e) safe (allocation, effects) = Safe-effects w w' effects safe

  delete_existing-Outcome :
      (s : StoredDetailed) (w : World)
      → w.allocation ≡ some (stored_of s)
      → Safe w
      → Outcome Done Safe (delete_existing controller s w)
  unfolding delete_existing
  delete_existing-Outcome s w stored safe =
      proceed-Outcome (λ o w'. (w'.ownership ≡ some o) × Same w w') Done Safe
        (load_ownership controller s.allocation w) _ (load-Outcome s.allocation w safe)
        (λ o w' (owner, same).
          let (allocation, ownership, effects) = same in
          let safe' : Safe w' = Safe-effects w w' effects safe in
          proceed-Outcome (Reconciled s.allocation w') Done Safe
            (reconcile_delete_pair controller s.allocation o w') _
            (Reconciled-Outcome s.allocation w' _ safe'
              (reconcile_delete_pair-Outcome controller s.allocation o w' owner))
            (λ o' w'' reconciled.
              delete_reconciled-Outcome s o' w' w'' (allocation ∙ stored) safe' reconciled))

  finish_with-Outcome :
      (s : StoredDetailed) (o : OwnershipRecord) (w : World)
      → Done tt w
      → Outcome Done Safe (finish_with controller s.allocation o w)
  unfolding finish_with
  finish_with-Outcome s (compact_ownership o) w ended =
      give-Outcome Done Safe _ w (λ u. ended) (Done-Safe w ended)
  finish_with-Outcome s (detailed_ownership o) w ended =
      proceed-Outcome (λ n w'. Done tt w') Done Safe (finish_deleted controller s.allocation o w) _
        (Quiet-Done w _ ended (finish_deleted-Outcome controller s.allocation o w))
        (λ n w' ended'. Outcome-done Done Safe tt w' ended')

  pub delete_detailed-Outcome :
      (s : StoredDetailed) (w : World)
      → w.allocation ≡ some (stored_of s)
      → Safe w
      → Outcome Done Safe (delete_detailed controller s w)
  unfolding delete_detailed finish_deleted_pair
  delete_detailed-Outcome s w stored safe =
      if-Outcome Done Safe w (state_eq s.allocation.state deleted)
        (finish_deleted_pair controller s.allocation) (delete_existing controller s)
        (λ terminal.
          proceed-Outcome (λ o w'. (w'.ownership ≡ some o) × Same w w') Done Safe
            (load_ownership controller s.allocation w) _ (load-Outcome s.allocation w safe)
            (λ o w' (owner, (allocation, ownership, effects)). finish_with-Outcome s o w' (
              Safe-effects w w' effects safe,
              (
                s,
                allocation ∙ stored,
                inr (inr (ground (arith, state_eq_iff s.allocation.state deleted))),
              ),
            )))
        (λ moving. delete_existing-Outcome s w stored safe)
