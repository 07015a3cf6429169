-- ===== src/Driver/Delete/Completion.antt =====
-- The steps of a prepared delete keep every directory operation authorized.
use scaleway_file_storage_su.Prelude.{[], some, ◌⊎◌, inl, inr, ◌≡◌, refl, ap, ◌∙◌, arith}
use scaleway_file_storage_su.Prelude.Results.{Result, ok, err}
use scaleway_file_storage_su.Prelude.Texts.{Text, text_eq_iff}
use scaleway_file_storage_su.Volume.Request.{Disposition, archive, delete, retain, other}
use scaleway_file_storage_su.Volume.State.{AllocationState, deleting, archived, retained, deleted}
use scaleway_file_storage_su.Volume.Identifiers.{validate_operation_id}
use scaleway_file_storage_su.Volume.Lifecycle.{present}
use scaleway_file_storage_su.Volume.Records.{DetailedAllocation, nodes_of}
use scaleway_file_storage_su.Volume.OwnershipRecords.{DetailedOwnership, CompactOwnership}
use scaleway_file_storage_su.Driver.Errors.{DriverError}
use scaleway_file_storage_su.Driver.World.{World, StoredDetailed, Controller}
use scaleway_file_storage_su.Driver.Program.{done, proceed, refuse_if, lift}
use scaleway_file_storage_su.Driver.Program.Rules.{
  Outcome, Outcome-intro, proceed-Outcome, lift-Outcome, refuse_if-Outcome, if-Outcome,
  Outcome-done, Outcome-fail, give-Outcome,
}
use scaleway_file_storage_su.Driver.Stores.{
  now, query, update_detailed_allocation, update_ownership, compact_ownership_record,
}
use scaleway_file_storage_su.Driver.Stores.Effects.{
  query-Outcome, now-Outcome, update_detailed_allocation-ok, update_detailed_allocation-effects,
}
use scaleway_file_storage_su.Driver.Disposition.{prepare_disposition, remove_quarantine}
use scaleway_file_storage_su.Driver.Pair.{compact_deleted_pair}
use scaleway_file_storage_su.Driver.Delete.{
  advance_pair, deleted_record, prepared, remove_started, completed, disposition_target,
  prepare_delete, start_removal, write_remove_started, write_deleted, finish_removal,
  complete_archive_or_retain, complete_physical_delete, complete_delete, dispose_prepared,
}
use scaleway_file_storage_su.Driver.Errors.{operation_unsupported}
use scaleway_file_storage_su.Driver.Delete.Authorized.{
  stored_of, Intent, Unfenced, Held, Safe, Held-Safe, Same-Held, prepare_disposition-Outcome,
  remove_quarantine-Outcome,
}
use scaleway_file_storage_su.Driver.Delete.Intent.{
  advance_pair-effects, advance_pair-ok, advance_pair-Intent, prepared-deleting,
}

-- The controller holds two durable records with the same intent and without fences.
abbrev pub Prepared : StoredDetailed × DetailedOwnership → World → Type 0
Prepared (s, o) w = Held s o w × Intent s.allocation o × Unfenced s.allocation o

-- The state in which a delete is over.
abbrev pub IsFinal : AllocationState → Type 0
IsFinal state = (state ≡ archived) ⊎ (state ≡ retained) ⊎ (state ≡ deleted)

-- The durable allocation record is in a final state.
abbrev pub Final : World → Type 0
Final w = (s : StoredDetailed) × (w.allocation ≡ some (stored_of s)) × IsFinal s.allocation.state

-- What a successful delete leaves.
abbrev pub Done : Unit {0} → World → Type 0
Done u w = Safe w × Final w

-- The allocation record has been moved to `next`.
abbrev Moved : DetailedAllocation → StoredDetailed × DetailedOwnership → World → Type 0
Moved next (s, o) w = Safe w × (w.allocation ≡ some (stored_of s)) × (s.allocation ≡ next)

pub Safe-effects : (w w' : World) → w'.effects ≡ w.effects → Safe w → Safe w'
Safe-effects w w' e safe = rw e safe

pub Done-Safe : (w : World) → Done tt w → Safe w
Done-Safe w (safe, final) = safe

module _ (controller : Controller) where
  advance_pair-Prepared :
      (s : StoredDetailed) (o : DetailedOwnership) (next : DetailedAllocation) (w : World)
      → Safe w
      → next.state ≡ deleting
      → nodes_of next.published_node_ids ≡ []
      → Outcome Prepared Safe (advance_pair controller s o next w)
  advance_pair-Prepared s o next w safe state nodes =
      Outcome-intro Prepared Safe (advance_pair controller s o next w)
        (λ p w' e.
          let (stored, owner, intent, unfenced, same) =
            advance_pair-Intent controller s o next w w' e state nodes in
          let safe' : Safe w' =
            Safe-effects w w' (advance_pair-effects controller s o next w w' e) safe in
          ((stored, owner, safe'), intent, unfenced))
        (λ f w' e. Safe-effects w w' (advance_pair-effects controller s o next w w' e) safe)

  advance_pair-Moved :
      (s : StoredDetailed) (o : DetailedOwnership) (next : DetailedAllocation) (w : World)
      → Safe w
      → Outcome (Moved next) Safe (advance_pair controller s o next w)
  advance_pair-Moved s o next w safe =
      Outcome-intro (Moved next) Safe (advance_pair controller s o next w)
        (λ p w' e.
          let (same, mirrors, stored, owner) = advance_pair-ok controller s o next w w' e in
          (Safe-effects w w' (advance_pair-effects controller s o next w w' e) safe, stored, same))
        (λ f w' e. Safe-effects w w' (advance_pair-effects controller s o next w w' e) safe)

  now-Held :
      (s : StoredDetailed) (o : DetailedOwnership) (w : World)
      → Held s o w
      → Outcome (λ time w'. Held s o w') Safe (now controller w)
  now-Held s o w held =
      now-Outcome controller (λ w'. Held s o w') Safe w
        (λ w' same. Same-Held controller s o w w' same held)

  pub query-Held :
      (s : StoredDetailed) (o : DetailedOwnership) (w : World)
      → Held s o w
      → Outcome (λ a w'. Held s o w') Safe (query controller w)
  query-Held s o w held =
      query-Outcome controller (λ w'. Held s o w') Safe w
        (λ w' same. Same-Held controller s o w w' same held) (Held-Safe controller s o)

  start_removal-Outcome :
      (s : StoredDetailed) (o : DetailedOwnership) (w : World)
      → Prepared (s, o) w
      → Outcome Prepared Safe (start_removal controller s o w)
  unfolding start_removal write_remove_started
  start_removal-Outcome s o w (held, intent, unfenced) =
      if-Outcome Prepared Safe w (present s.allocation.delete_remove_started_at) (done (s, o))
        (write_remove_started controller s o)
        (λ started. Outcome-done Prepared Safe (s, o) w (held, intent, unfenced))
        (λ fresh.
          proceed-Outcome (λ time w'. Held s o w') Prepared Safe (now controller w) _
            (now-Held s o w held)
            (λ time w' held'.
              advance_pair-Prepared s o (remove_started s.allocation time) w'
                (Held-Safe controller s o w' held') (ground arith) (ground arith)))

  update_deleted-Outcome :
      (s : StoredDetailed) (next : DetailedAllocation) (w : World)
      → Safe w
      → Outcome
          (λ s' w'. Safe w' × (w'.allocation ≡ some (stored_of s')) × (s'.allocation ≡ next))
          Safe
          (update_detailed_allocation controller s next w)
  update_deleted-Outcome s next w safe =
      Outcome-intro
        (λ s' w'. Safe w' × (w'.allocation ≡ some (stored_of s')) × (s'.allocation ≡ next)) Safe
        (update_detailed_allocation controller s next w)
        (λ s' w' e.
          let (same, stored, owner, effects) =
            update_detailed_allocation-ok controller s next w w' e in
          (Safe-effects w w' effects safe, stored, same))
        (λ f w' e.
          Safe-effects w w' (update_detailed_allocation-effects controller s next w w' e) safe)

  compact_deleted_pair-Quiet :
      (a : DetailedAllocation) (o : DetailedOwnership) (w w' : World)
      {r : Result DriverError CompactOwnership}
      → compact_deleted_pair controller a o w ≡ (w', r)
      → (w'.allocation ≡ w.allocation) × (w'.effects ≡ w.effects)
  unfolding compact_deleted_pair compact_ownership_record update_ownership proceed refuse_if lift
  compact_deleted_pair-Quiet a o w w' h = ground arith

  write_deleted-Outcome :
      (s : StoredDetailed) (o : DetailedOwnership) (w : World)
      → Safe w
      → Outcome Done Safe (write_deleted controller s o w)
  unfolding write_deleted
  write_deleted-Outcome s o w safe =
      proceed-Outcome (λ time w'. Safe w') Done Safe (now controller w) _
        (now-Outcome controller Safe Safe w
          (λ w' (same, owner, effects). Safe-effects w w' effects safe))
        (λ time w₁ safe₁.
          let next = deleted_record s.allocation time in
          proceed-Outcome
            (λ s' w'. Safe w' × (w'.allocation ≡ some (stored_of s')) × (s'.allocation ≡ next)) Done
            Safe (update_detailed_allocation controller s next w₁) _
            (update_deleted-Outcome s next w₁ safe₁)
            (λ s' w₂ (safe₂, stored, same).
              let final : IsFinal s'.allocation.state = rw same (inr (inr refl)) in
              let after : (w₃ : World) (r : Result DriverError CompactOwnership)
                  → compact_deleted_pair controller s'.allocation o w₂ ≡ (w₃, r)
                  → Done tt w₃ =
                λ w₃ r e.
                  let (allocation, effects) = compact_deleted_pair-Quiet s'.allocation o w₂ w₃ e in
                  (Safe-effects w₂ w₃ effects safe₂, (s', allocation ∙ stored, final)) in
              proceed-Outcome (λ n w'. Done tt w') Done Safe
                (compact_deleted_pair controller s'.allocation o w₂) _
                (Outcome-intro (λ n w'. Done tt w') Safe
                  (compact_deleted_pair controller s'.allocation o w₂) (λ n w₃ e. after w₃ (ok n) e)
                  (λ f w₃ e. Done-Safe w₃ (after w₃ (err f) e)))
                (λ n w₃ ended. Outcome-done Done Safe tt w₃ ended)))

  finish_removal-Outcome :
      (s : StoredDetailed) (o : DetailedOwnership) (w : World)
      → Prepared (s, o) w
      → Outcome Done Safe (finish_removal controller s o w)
  unfolding finish_removal
  finish_removal-Outcome s o w (held, intent, unfenced) =
      refuse_if-Outcome Done Safe w _ _ _ (Held-Safe controller s o w held) (λ same.
        proceed-Outcome (λ u w'. Held s o w') Done Safe
          (remove_quarantine controller s.allocation w) _
          (remove_quarantine-Outcome controller s o w held intent unfenced (
            ground (
              arith,
              text_eq_iff o.delete_remove_started_at s.allocation.delete_remove_started_at,
            )))
          (λ u w' held'. write_deleted-Outcome s o w' (Held-Safe controller s o w' held')))

  complete_physical_delete-Outcome :
      (s : StoredDetailed) (o : DetailedOwnership) (w : World)
      → Prepared (s, o) w
      → Outcome Done Safe (complete_physical_delete controller s o w)
  unfolding complete_physical_delete
  complete_physical_delete-Outcome s o w held =
      proceed-Outcome Prepared Done Safe (start_removal controller s o w) _
        (start_removal-Outcome s o w held)
        (λ (s', o') w' held'. finish_removal-Outcome s' o' w' held')

  complete_archive_or_retain-Outcome :
      (s : StoredDetailed) (o : DetailedOwnership) (terminal : AllocationState) (w : World)
      → Safe w
      → ((time : Text) → IsFinal (completed s.allocation time terminal).state)
      → Outcome Done Safe (complete_archive_or_retain controller s o terminal w)
  unfolding complete_archive_or_retain
  complete_archive_or_retain-Outcome s o terminal w safe final =
      proceed-Outcome (λ time w'. Safe w') Done Safe (now controller w) _
        (now-Outcome controller Safe Safe w
          (λ w' (same, owner, effects). Safe-effects w w' effects safe))
        (λ time w' safe'.
          proceed-Outcome (Moved (completed s.allocation time terminal)) Done Safe
            (advance_pair controller s o (completed s.allocation time terminal) w') _
            (advance_pair-Moved s o (completed s.allocation time terminal) w' safe')
            (λ (s', o') w'' (safe'', stored, same).
              Outcome-done Done Safe tt w'' (safe'', (s', stored, rw same (final time)))))

  complete_delete-Outcome :
      (s : StoredDetailed) (o : DetailedOwnership) (operation : Disposition) (w : World)
      → Prepared (s, o) w
      → Outcome Done Safe (complete_delete controller s o operation w)
  unfolding complete_delete
  complete_delete-Outcome s o archive w (held, intent, unfenced) =
      complete_archive_or_retain-Outcome s o archived w (Held-Safe controller s o w held)
        (λ time. inl refl)
  complete_delete-Outcome s o retain w (held, intent, unfenced) =
      complete_archive_or_retain-Outcome s o retained w (Held-Safe controller s o w held)
        (λ time. inr (inl refl))
  complete_delete-Outcome s o delete w held = complete_physical_delete-Outcome s o w held
  complete_delete-Outcome s o (other t) w (held, intent, unfenced) =
      Outcome-fail Done Safe operation_unsupported w (Held-Safe controller s o w held)

  -- What follows once both records carry the intent.
  pub dispose_prepared-Outcome :
      (s : StoredDetailed) (o : DetailedOwnership) (w : World)
      → Prepared (s, o) w
      → Outcome Done Safe (dispose_prepared controller s o w)
  unfolding dispose_prepared
  dispose_prepared-Outcome s o w (held, intent, unfenced) =
      proceed-Outcome (λ u w'. Held s o w') Done Safe
        (prepare_disposition controller s.allocation w) _
        (prepare_disposition-Outcome controller s o w held intent unfenced)
        (λ u w' held'.
          complete_delete-Outcome s o s.allocation.delete_operation w' (held', intent, unfenced))

  disposition_target-Held :
      (s : StoredDetailed) (o : DetailedOwnership) (policy : Disposition) (time id : Text)
      (w : World)
      → Held s o w
      → Outcome (λ target w'. Held s o w') Safe (disposition_target s.allocation policy time id w)
  unfolding disposition_target
  disposition_target-Held s o archive time id w held =
      give-Outcome (λ target w'. Held s o w') Safe _ w (λ t. held) (Held-Safe controller s o w held)
  disposition_target-Held s o delete time id w held =
      give-Outcome (λ target w'. Held s o w') Safe _ w (λ t. held) (Held-Safe controller s o w held)
  disposition_target-Held s o retain time id w held =
      Outcome-done (λ target w'. Held s o w') Safe _ w held
  disposition_target-Held s o (other t) time id w held =
      Outcome-fail (λ target w'. Held s o w') Safe operation_unsupported w
        (Held-Safe controller s o w held)

  -- prepareDelete on records without fences.
  pub prepare_delete-Outcome :
      (s : StoredDetailed) (o : DetailedOwnership) (w : World)
      → Held s o w
      → Unfenced s.allocation o
      → Outcome Prepared Safe (prepare_delete controller s o w)
  unfolding prepare_delete
  prepare_delete-Outcome s o w held (nodes, owner_nodes) =
      proceed-Outcome (λ id w'. Held s o w') Prepared Safe (query controller w) _
        (query-Held s o w held)
        (λ id w' held'.
          lift-Outcome Prepared Safe w' (validate_operation_id id.word) _
            (Held-Safe controller s o w' held')
            (λ u valid.
              proceed-Outcome (λ time w''. Held s o w'') Prepared Safe (now controller w') _
                (now-Held s o w' held')
                (λ time w'' held''.
                  proceed-Outcome (λ target w3. Held s o w3) Prepared Safe
                    (disposition_target s.allocation s.allocation.delete_policy time id.word w'') _
                    (disposition_target-Held s o s.allocation.delete_policy time id.word w'' held'')
                    (λ target w3 held3.
                      let (state, kept) =
                        prepared-deleting controller _ s.allocation.delete_policy target refl in
                      advance_pair-Prepared s o (prepared s.allocation id.word time target) w3
                        (Held-Safe controller s o w3 held3) state (ap nodes_of kept ∙ nodes)))))
