-- ===== src/Driver/Delete/Reconcile.antt =====
-- How reconciliation brings the two records of an interrupted delete together.
use scaleway_file_storage_su.Prelude.{true, false, some, ◌⊎◌, ◌≡◌, refl, ap, ◌∙◌, arith}
use scaleway_file_storage_su.Prelude.Results.{Result, ok}
use scaleway_file_storage_su.Prelude.Texts.{text_eq_iff}
use scaleway_file_storage_su.Prelude.Equality.{text_Eq}
use scaleway_file_storage_su.Volume.Request.{disposition_eq_iff}
use scaleway_file_storage_su.Volume.State.{
  AllocationState, reserved, creating_directory, ready, deleting, archived, deleted, retained,
  unsupported, state_eq, state_eq_iff,
}
use scaleway_file_storage_su.Volume.Records.{DetailedAllocation}
use scaleway_file_storage_su.Volume.OwnershipRecords.{
  DetailedOwnership, CompactOwnership, OwnershipRecord, detailed_ownership, compact_ownership,
}
use scaleway_file_storage_su.Volume.Ownership.{seal_detailed}
use scaleway_file_storage_su.Volume.Pairing.{
  validate_compact_pair, compact_projection_of, validate_detailed_pair,
  validate_detailed_identity_pair,
}
use scaleway_file_storage_su.Driver.Errors.{DriverError, state_unsupported}
use scaleway_file_storage_su.Driver.World.{World, Controller}
use scaleway_file_storage_su.Driver.Program.{done, proceed, refuse_if, lift}
use scaleway_file_storage_su.Driver.Program.Rules.{
  Outcome, Outcome-intro, Outcome-done, Outcome-fail, proceed-Outcome, lift-Outcome,
  refuse_if-Outcome, if-Outcome, check-Outcome,
}
use scaleway_file_storage_su.Driver.Stores.{
  update_ownership, update_detailed_ownership, compact_ownership_record,
}
use scaleway_file_storage_su.Driver.Pair.{
  mirror_kept, confirm_kept, same_intent, mirror_ownership, compact_deleted_pair,
  validate_progress_pair, validate_terminal_predecessor, reconcile_deleting, reconcile_kept,
  finish_deleted, reconcile_detailed, reconcile_delete_pair,
}
use scaleway_file_storage_su.Driver.Delete.Authorized.{Intent}

-- The allocation record and the effects are the same.
abbrev pub Quiet : World → World → Type 0
Quiet w w' = (w'.allocation ≡ w.allocation) × (w'.effects ≡ w.effects)

Quiet-trans : (a b c : World) → Quiet a b → Quiet b c → Quiet a c
Quiet-trans a b c (allocation, effects) (allocation', effects') =
    (allocation' ∙ allocation, effects' ∙ effects)

same_intent-fields :
    (a : DetailedAllocation) (o : DetailedOwnership)
    → same_intent a o ≡ true
    → (a.delete_operation_id ≡ o.delete_operation_id)
      × (a.delete_operation ≡ o.delete_operation)
      × (a.delete_source_path ≡ o.delete_source_path)
      × (a.delete_target_path ≡ o.delete_target_path)
      × (a.delete_prepared_at ≡ o.delete_prepared_at)
unfolding same_intent
same_intent-fields a o h = ground (
  arith,
  text_eq_iff a.delete_operation_id o.delete_operation_id,
  disposition_eq_iff a.delete_operation o.delete_operation,
  text_eq_iff a.delete_source_path o.delete_source_path,
  text_eq_iff a.delete_target_path o.delete_target_path,
  text_eq_iff a.delete_prepared_at o.delete_prepared_at,
)

settled-absurd :
    (a : DetailedAllocation)
    → state_eq a.state ready ≡ false
    → state_eq a.state deleting ≡ false
    → (a.state ≡ ready) ⊎ (a.state ≡ deleting)
    → ⊥
settled-absurd a r d active =
    ground (arith, state_eq_iff a.state ready, state_eq_iff a.state deleting)

ready-deleting : (a : DetailedAllocation) → a.state ≡ ready → a.state ≡ deleting → ⊥
ready-deleting a r d = cc

-- What reconciliation of a detailed pair leaves: an allocation record that is being deleted has an
-- ownership record with its intent.
abbrev pub Reconciled : DetailedAllocation → World → OwnershipRecord → World → Type 0
Reconciled a w o' w' =
    Quiet w w'
    × ((n : DetailedOwnership)
        → (a.state ≡ ready) ⊎ (a.state ≡ deleting)
        → o' ≡ detailed_ownership n
        → (w'.ownership ≡ some (detailed_ownership n)) × (a.state ≡ deleting → Intent a n))

module _ (controller : Controller) where
  reconcile_deleting-effects :
      (a : DetailedAllocation) (o : DetailedOwnership) (state : AllocationState) (w w' : World)
      {r : Result DriverError DetailedOwnership}
      → reconcile_deleting controller a o state w ≡ (w', r)
      → (w'.allocation ≡ w.allocation) × (w'.effects ≡ w.effects)
  unfolding reconcile_deleting validate_progress_pair mirror_ownership update_detailed_ownership
      update_ownership proceed refuse_if lift
  reconcile_deleting-effects a o state w w' h = ground arith

  reconcile_deleting-ok :
      (a : DetailedAllocation) (o : DetailedOwnership) (state : AllocationState) (w w' : World)
      {o' : DetailedOwnership}
      → reconcile_deleting controller a o state w ≡ (w', ok o')
      → a.state ≡ deleting
      → o.state ≡ state
      → w.ownership ≡ some (detailed_ownership o)
      → (w'.ownership ≡ some (detailed_ownership o')) × Intent a o'
  unfolding reconcile_deleting validate_progress_pair mirror_ownership update_detailed_ownership
      update_ownership seal_detailed proceed refuse_if lift
  reconcile_deleting-ok a o state w w' h prepared same owner =
      ground (arith, same_intent-fields a o)

  predecessor-effects :
      (a : DetailedAllocation) (o : DetailedOwnership) (w w' : World)
      {r : Result DriverError (Unit {0})}
      → validate_terminal_predecessor a o w ≡ (w', r)
      → Quiet w w'
  unfolding validate_terminal_predecessor proceed refuse_if
  predecessor-effects a o w w' h = ground arith

  compact-effects :
      (a : DetailedAllocation) (o : DetailedOwnership) (w w' : World)
      {r : Result DriverError CompactOwnership}
      → compact_deleted_pair controller a o w ≡ (w', r)
      → Quiet w w'
  unfolding compact_deleted_pair compact_ownership_record update_ownership proceed refuse_if lift
  compact-effects a o w w' h = ground arith

  mirror-Quiet :
      (a : DetailedAllocation) (o : DetailedOwnership) (w w' : World)
      {r : Result DriverError DetailedOwnership}
      → mirror_ownership controller o a w ≡ (w', r)
      → Quiet w w'
  unfolding mirror_ownership update_detailed_ownership update_ownership proceed refuse_if lift
  mirror-Quiet a o w w' h = ground arith

  confirm-effects :
      (a : DetailedAllocation) (o : DetailedOwnership) (w w' : World)
      {r : Result DriverError DetailedOwnership}
      → confirm_kept controller a o w ≡ (w', r)
      → Quiet w w'
  unfolding confirm_kept proceed refuse_if lift
  confirm-effects a o w w' h = ground arith

  progress-Outcome :
      (a : DetailedAllocation) (o : DetailedOwnership) (w : World)
      → Outcome (λ u w'. Quiet w w') (Quiet w) (validate_progress_pair controller a o w)
  unfolding validate_progress_pair
  progress-Outcome a o w =
      lift-Outcome (λ u w'. Quiet w w') (Quiet w) w
        (validate_detailed_identity_pair controller.sealer a o o.state) _ (refl, refl)
        (λ u valid.
          refuse_if-Outcome (λ v w'. Quiet w w') (Quiet w) w _ _ _ (refl, refl)
            (λ intent.
              check-Outcome (λ v w'. Quiet w w') (Quiet w) _ _ w (refl, refl) (refl, refl)))

  reconcile_kept-Outcome :
      (a : DetailedAllocation) (o : DetailedOwnership) (w : World)
      → Outcome (λ n w'. Quiet w w') (Quiet w) (reconcile_kept controller a o w)
  unfolding reconcile_kept mirror_kept
  reconcile_kept-Outcome a o w =
      if-Outcome (λ n w'. Quiet w w') (Quiet w) w (state_eq o.state deleting)
        (mirror_kept controller a o) (confirm_kept controller a o)
        (λ behind.
          proceed-Outcome (λ u w'. Quiet w w') (λ n w'. Quiet w w') (Quiet w)
            (validate_progress_pair controller a o w) _ (progress-Outcome a o w)
            (λ u w' q.
              Outcome-intro (λ n w''. Quiet w w'') (Quiet w) (mirror_ownership controller o a w')
                (λ n w'' e. Quiet-trans w w' w'' q (mirror-Quiet a o w' w'' e))
                (λ f w'' e. Quiet-trans w w' w'' q (mirror-Quiet a o w' w'' e))))
        (λ level.
          Outcome-intro (λ n w'. Quiet w w') (Quiet w) (confirm_kept controller a o w)
            (λ n w' e. confirm-effects a o w w' e) (λ f w' e. confirm-effects a o w w' e))

  pub finish_deleted-Outcome :
      (a : DetailedAllocation) (o : DetailedOwnership) (w : World)
      → Outcome (λ n w'. Quiet w w') (Quiet w) (finish_deleted controller a o w)
  unfolding finish_deleted
  finish_deleted-Outcome a o w =
      proceed-Outcome (λ u w'. Quiet w w') (λ n w'. Quiet w w') (Quiet w)
        (validate_progress_pair controller a o w) _ (progress-Outcome a o w)
        (λ u w' q.
          proceed-Outcome (λ v w''. Quiet w w'') (λ n w''. Quiet w w'') (Quiet w)
            (validate_terminal_predecessor a o w') _
            (Outcome-intro (λ v w''. Quiet w w'') (Quiet w) (validate_terminal_predecessor a o w')
              (λ v w'' e. Quiet-trans w w' w'' q (predecessor-effects a o w' w'' e))
              (λ f w'' e. Quiet-trans w w' w'' q (predecessor-effects a o w' w'' e)))
            (λ v w'' q'.
              Outcome-intro (λ n w3. Quiet w w3) (Quiet w) (compact_deleted_pair controller a o w'')
                (λ n w3 e. Quiet-trans w w'' w3 q' (compact-effects a o w'' w3 e))
                (λ f w3 e. Quiet-trans w w'' w3 q' (compact-effects a o w'' w3 e))))

  settled :
      (a : DetailedAllocation) (w w' : World) (o' : OwnershipRecord)
      → state_eq a.state ready ≡ false
      → state_eq a.state deleting ≡ false
      → Quiet w w'
      → Reconciled a w o' w'
  settled a w w' o' r d q = (q, λ n active e. absurd (settled-absurd a r d active))

  reconcile_deleting-Outcome :
      (a : DetailedAllocation) (o : DetailedOwnership) (w : World)
      → a.state ≡ deleting
      → w.ownership ≡ some (detailed_ownership o)
      → Outcome
          (λ n w'. Quiet w w' × (w'.ownership ≡ some (detailed_ownership n)) × Intent a n)
          (Quiet w)
          (reconcile_deleting controller a o o.state w)
  reconcile_deleting-Outcome a o w state owner =
      Outcome-intro (λ n w'. Quiet w w' × (w'.ownership ≡ some (detailed_ownership n)) × Intent a n)
        (Quiet w) (reconcile_deleting controller a o o.state w)
        (λ n w' e.
          let (owner', intent) = reconcile_deleting-ok a o o.state w w' e state refl owner in
          (reconcile_deleting-effects a o o.state w w' e, owner', intent))
        (λ f w' e. reconcile_deleting-effects a o o.state w w' e)

  ready-Reconciled :
      (a : DetailedAllocation) (o : DetailedOwnership) (w : World)
      → a.state ≡ ready
      → w.ownership ≡ some (detailed_ownership o)
      → Reconciled a w (detailed_ownership o) w
  ready-Reconciled a o w state owner =
      ((refl, refl), λ n active e. (owner ∙ ap some e, λ d. absurd (ready-deleting a state d)))

  kept-Reconciled :
      (a : DetailedAllocation) (o : DetailedOwnership) (w : World)
      → state_eq a.state ready ≡ false
      → state_eq a.state deleting ≡ false
      → Outcome
          (Reconciled a w)
          (Quiet w)
          (proceed (reconcile_kept controller a o w) (λ n. done (detailed_ownership n)))
  kept-Reconciled a o w r d =
      proceed-Outcome (λ n w'. Quiet w w') (Reconciled a w) (Quiet w)
        (reconcile_kept controller a o w) (λ n. done (detailed_ownership n))
        (reconcile_kept-Outcome a o w)
        (λ n w' q.
          Outcome-done (Reconciled a w) (Quiet w) (detailed_ownership n) w'
            (settled a w w' (detailed_ownership n) r d q))

  reconcile_detailed-Outcome :
      (a : DetailedAllocation) (o : DetailedOwnership) (state : AllocationState) (w : World)
      → a.state ≡ state
      → w.ownership ≡ some (detailed_ownership o)
      → Outcome (Reconciled a w) (Quiet w) (reconcile_detailed controller a o state w)
  unfolding reconcile_detailed state_eq
  reconcile_detailed-Outcome a o ready w state owner =
      lift-Outcome (Reconciled a w) (Quiet w) w (validate_detailed_pair controller.sealer a o ready)
        _ (refl, refl)
        (λ u valid.
          Outcome-done (Reconciled a w) (Quiet w) (detailed_ownership o) w
            (ready-Reconciled a o w state owner))
  reconcile_detailed-Outcome a o deleting w state owner =
      proceed-Outcome
        (λ n w'. Quiet w w' × (w'.ownership ≡ some (detailed_ownership n)) × Intent a n)
        (Reconciled a w) (Quiet w) (reconcile_deleting controller a o o.state w) _
        (reconcile_deleting-Outcome a o w state owner)
        (λ n w' (q, owner', intent).
          Outcome-done (Reconciled a w) (Quiet w) (detailed_ownership n) w'
            (q, λ m active e. (owner' ∙ ap some e, λ d. ground arith)))
  reconcile_detailed-Outcome a o archived w state owner =
      kept-Reconciled a o w (rw state refl) (rw state refl)
  reconcile_detailed-Outcome a o retained w state owner =
      kept-Reconciled a o w (rw state refl) (rw state refl)
  reconcile_detailed-Outcome a o deleted w state owner =
      refuse_if-Outcome (Reconciled a w) (Quiet w) w _ _ _ (refl, refl)
        (λ behind.
          proceed-Outcome (λ n w'. Quiet w w') (Reconciled a w) (Quiet w)
            (finish_deleted controller a o w) _ (finish_deleted-Outcome a o w)
            (λ n w' q.
              Outcome-done (Reconciled a w) (Quiet w) (compact_ownership n) w'
                (settled a w w' (compact_ownership n) (rw state refl) (rw state refl) q)))
  reconcile_detailed-Outcome a o reserved w state owner =
      Outcome-fail (Reconciled a w) (Quiet w) state_unsupported w (refl, refl)
  reconcile_detailed-Outcome a o creating_directory w state owner =
      Outcome-fail (Reconciled a w) (Quiet w) state_unsupported w (refl, refl)
  reconcile_detailed-Outcome a o (unsupported t) w state owner =
      Outcome-fail (Reconciled a w) (Quiet w) state_unsupported w (refl, refl)

  -- reconcileDeletePair, for an ownership record that was read back.
  pub reconcile_delete_pair-Outcome :
      (a : DetailedAllocation) (o : OwnershipRecord) (w : World)
      → w.ownership ≡ some o
      → Outcome (Reconciled a w) (Quiet w) (reconcile_delete_pair controller a o w)
  unfolding reconcile_delete_pair
  reconcile_delete_pair-Outcome a (detailed_ownership o) w owner =
      reconcile_detailed-Outcome a o a.state w refl owner
  reconcile_delete_pair-Outcome a (compact_ownership o) w owner =
      refuse_if-Outcome (Reconciled a w) (Quiet w) w _ _ _ (refl, refl)
        (λ test.
          lift-Outcome (Reconciled a w) (Quiet w) w
            (validate_compact_pair controller.sealer (compact_projection_of a) o) _ (refl, refl)
            (λ u valid. Outcome-done (Reconciled a w) (Quiet w) (compact_ownership o) w (
              settled a w w (compact_ownership o)
                (ground (arith, state_eq_iff a.state deleted, state_eq_iff a.state ready))
                (ground (arith, state_eq_iff a.state deleted, state_eq_iff a.state deleting))
                (refl, refl))))
