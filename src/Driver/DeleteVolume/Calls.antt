-- ===== src/Driver/DeleteVolume/Calls.antt =====
-- Every method behind DeleteVolume and ReconcileExistingDeletion keeps the directory operations
-- authorized, with any answers from the outside.
use scaleway_file_storage_su.Prelude.{
  ℕ, Bool, true, false, [], ◌∷◌, Option, none, some, ◌≡◌, if◌then◌else◌,
}
use scaleway_file_storage_su.Prelude.Results.{Result, ok, err}
use scaleway_file_storage_su.Prelude.Texts.{Text}
use scaleway_file_storage_su.Volume.Errors.{VolumeError, foreign_handle, invalid_handle}
use scaleway_file_storage_su.Volume.Identifiers.{validate_logical_volume_id}
use scaleway_file_storage_su.Volume.Handle.{Handle, parse_handle, volume_handle_hash_of}
use scaleway_file_storage_su.Volume.State.{
  AllocationState, reserved, creating_directory, ready, deleting, archived, deleted, retained,
  unsupported,
}
use scaleway_file_storage_su.Volume.Records.{
  DetailedAllocation, AllocationRecord, detailed_record, compact_record, unknown_record,
}
use scaleway_file_storage_su.Driver.Errors.{
  DriverError, unavailable, kind_unsupported, empty_volume_id,
}
use scaleway_file_storage_su.Driver.World.{World, Stored, Answer, Controller}
use scaleway_file_storage_su.Driver.Program.{Program, fail}
use scaleway_file_storage_su.Driver.Program.Rules.{
  Outcome, Outcome-intro, Outcome-fail, proceed-Outcome, lift-Outcome, refuse_if-Outcome,
  check-Outcome,
}
use scaleway_file_storage_su.Driver.Stores.{query, now, get_allocation, create_allocation}
use scaleway_file_storage_su.Driver.Stores.Effects.{
  query-Outcome, now-Outcome, get_allocation-ok, get_allocation-Same, create_allocation-ok,
  create_allocation-effects,
}
use scaleway_file_storage_su.Driver.Delete.{validate_runtime_identity}
use scaleway_file_storage_su.Driver.Delete.Authorized.{stored_of, Safe}
use scaleway_file_storage_su.Driver.Delete.Completion.{Safe-effects, Done, IsFinal}
use scaleway_file_storage_su.Driver.DeleteVolume.{
  handle_error, is_not_found, ambiguous, absence_record, create_resolved_allocation, resolve_with,
  resolve_missing, find_allocation, delete_stored, delete_handle, delete_parsed, delete_volume,
  resumable, resume_stored, reconcile_existing_deletion,
}
use scaleway_file_storage_su.Driver.DeleteVolume.Safety.{delete_detailed-Outcome}

-- A stored allocation that was read or written last.
abbrev Found : Stored → World → Type 0
Found s w = (w.allocation ≡ some s) × Safe w

abbrev pub SafeAfter : Unit {0} → World → Type 0
SafeAfter u w = Safe w

-- The durable record is detailed and in a final state, or a tombstone.
abbrev pub FinalRecord : AllocationRecord → Type 0
FinalRecord (detailed_record r) = IsFinal r.state
FinalRecord (compact_record r) = Unit {0}
FinalRecord (unknown_record r) = Unit {0}

abbrev pub Ended : Unit {0} → World → Type 0
Ended u w = Safe w × ((s : Stored) × (w.allocation ≡ some s) × FinalRecord s.value)

Done-Ended :
    (r : World × Result DriverError (Unit {0})) → Outcome Done Safe r → Outcome Ended Safe r
unfolding Outcome
Done-Ended (w, ok u) (safe, (s, stored, final)) = (safe, (stored_of s, stored, final))
Done-Ended (w, err e) safe = safe

Ended-SafeAfter :
    (r : World × Result DriverError (Unit {0})) → Outcome Ended Safe r → Outcome SafeAfter Safe r
unfolding Outcome
Ended-SafeAfter (w, ok u) (safe, final) = safe
Ended-SafeAfter (w, err e) safe = safe

handle_error-Outcome {ℓ} :
    {A : Type ℓ} (good : A → World → Type 0) (bad : World → Type 0)
    (r : World × Result DriverError A) (handler : DriverError → Program A)
    → Outcome good bad r
    → ((e : DriverError) (w : World) → bad w → Outcome good bad (handler e w))
    → Outcome good bad (handle_error r handler)
unfolding handle_error Outcome
handle_error-Outcome good bad (w, ok a) handler h k = h
handle_error-Outcome good bad (w, err e) handler h k = k e w h

if_fail-Outcome {ℓ} :
    {A : Type ℓ} (good : A → World → Type 0) (bad : World → Type 0) (test : Bool)
    (first : Program A) (e : DriverError) (w : World)
    → bad w
    → Outcome good bad (first w)
    → Outcome good bad ((if test then first else fail e) w)
unfolding Outcome
if_fail-Outcome good bad true first e w b h = h
if_fail-Outcome good bad false first e w b h = b

module _ (controller : Controller) where
  query-Safe : (w : World) → Safe w → Outcome (λ a w'. Safe w') Safe (query controller w)
  query-Safe w safe =
      query-Outcome controller Safe Safe w
        (λ w' (same, owner, effects). Safe-effects w w' effects safe) (λ w' safe'. safe')

  get-Outcome : (w : World) → Safe w → Outcome Found Safe (get_allocation controller w)
  get-Outcome w safe =
      Outcome-intro Found Safe (get_allocation controller w)
        (λ s w' e.
          let (same, owner, effects) = get_allocation-Same controller w w' e in
          (get_allocation-ok controller w w' e, Safe-effects w w' effects safe))
        (λ f w' e.
          let (same, owner, effects) = get_allocation-Same controller w w' e in
          Safe-effects w w' effects safe)

  create_resolved_allocation-Outcome :
      (r : AllocationRecord) (w : World)
      → Safe w
      → Outcome Found Safe (create_resolved_allocation controller r w)
  unfolding create_resolved_allocation
  create_resolved_allocation-Outcome r w safe =
      handle_error-Outcome Found Safe (create_allocation controller r w) _
        (Outcome-intro Found Safe (create_allocation controller r w)
          (λ s w' e. (
            create_allocation-ok controller r w w' e,
            Safe-effects w w' (create_allocation-effects controller r w w' e) safe,
          ))
          (λ f w' e. Safe-effects w w' (create_allocation-effects controller r w w' e) safe))
        (λ e w' safe'. if_fail-Outcome Found Safe (ambiguous e) _ e w' safe' (
          handle_error-Outcome Found Safe (get_allocation controller w') _ (get-Outcome w' safe')
            (λ f w'' safe''.
              Outcome-fail Found Safe (if is_not_found f then unavailable else f) w'' safe'')))

  resolve_with-Outcome :
      (id : Text) (handle : Handle) (a : Answer) (recovered : Option AllocationRecord) (w : World)
      → Safe w
      → Outcome Found Safe (resolve_with controller id handle a recovered w)
  unfolding resolve_with
  resolve_with-Outcome id handle a (some r) w safe =
      refuse_if-Outcome Found Safe w _ _ _ safe (λ single.
        refuse_if-Outcome Found Safe w _ _ _ safe (λ logical.
          lift-Outcome Found Safe w (volume_handle_hash_of controller.sealer.codec id) _ safe
            (λ hash known.
              refuse_if-Outcome Found Safe w _ _ _ safe
                (λ same. create_resolved_allocation-Outcome r w safe))))
  resolve_with-Outcome id handle a none w safe =
      refuse_if-Outcome Found Safe w _ _ _ safe (λ conclusive.
        lift-Outcome Found Safe w (volume_handle_hash_of controller.sealer.codec id) _ safe
          (λ hash known.
            proceed-Outcome (λ time w'. Safe w') Found Safe (now controller w) _
              (now-Outcome controller Safe Safe w
                (λ w' (same, owner, effects). Safe-effects w w' effects safe))
              (λ time w' safe'.
                create_resolved_allocation-Outcome
                  (unknown_record (absence_record controller handle hash a.word time)) w' safe')))

  find_allocation-Outcome :
      (id : Text) (handle : Handle) (w : World)
      → Safe w
      → Outcome Found Safe (find_allocation controller id handle w)
  unfolding find_allocation resolve_missing
  find_allocation-Outcome id handle w safe =
      handle_error-Outcome Found Safe (get_allocation controller w) _ (get-Outcome w safe)
        (λ e w' safe'. if_fail-Outcome Found Safe (is_not_found e) _ e w' safe' (
          proceed-Outcome (λ a w''. Safe w'') Found Safe (query controller w') _
            (query-Safe w' safe')
            (λ a w'' safe''. resolve_with-Outcome id handle a a.recovered w'' safe'')))

  delete_stored-Outcome :
      (id : Text) (handle : Handle) (hash : Text) (version : ℕ) (r : AllocationRecord) (w : World)
      → w.allocation ≡ some (record { version = version; value = r })
      → Safe w
      → Outcome Ended Safe (delete_stored controller id handle hash version r w)
  unfolding delete_stored
  delete_stored-Outcome id handle hash version (detailed_record r) w stored safe =
      refuse_if-Outcome Ended Safe w _ _ _ safe (λ same. Done-Ended _ (
        delete_detailed-Outcome controller (record { version = version; allocation = r }) w stored
          safe))
  delete_stored-Outcome id handle hash version (compact_record r) w stored safe =
      check-Outcome Ended Safe _ _ w (safe, (_, stored, tt)) safe
  delete_stored-Outcome id handle hash version (unknown_record r) w stored safe =
      check-Outcome Ended Safe _ _ w (safe, (_, stored, tt)) safe

  identity-Outcome :
      (s : Stored) (r : AllocationRecord) (w : World)
      → Found s w
      → Outcome (λ u w'. Found s w') Safe (validate_runtime_identity controller r w)
  unfolding validate_runtime_identity
  identity-Outcome s (detailed_record r) w (stored, safe) =
      check-Outcome (λ u w'. Found s w') Safe _ _ w (stored, safe) safe
  identity-Outcome s (compact_record r) w (stored, safe) =
      check-Outcome (λ u w'. Found s w') Safe _ _ w (stored, safe) safe
  identity-Outcome s (unknown_record r) w (stored, safe) =
      check-Outcome (λ u w'. Found s w') Safe _ _ w (stored, safe) safe

  pub delete_handle-Outcome :
      (id : Text) (handle : Handle) (w : World)
      → Safe w
      → Outcome Ended Safe (delete_handle controller id handle w)
  unfolding delete_handle
  delete_handle-Outcome id handle w safe =
      proceed-Outcome (λ a w'. Safe w') Ended Safe (query controller w) _ (query-Safe w safe)
        (λ a w₁ safe₁.
          proceed-Outcome (λ b w'. Safe w') Ended Safe (query controller w₁) _ (query-Safe w₁ safe₁)
            (λ b w₂ safe₂.
              proceed-Outcome Found Ended Safe (find_allocation controller id handle w₂) _
                (find_allocation-Outcome id handle w₂ safe₂)
                (λ s w₃ found.
                  let (stored, safe₃) = found in
                  proceed-Outcome (λ u w'. Found s w') Ended Safe
                    (validate_runtime_identity controller s.value w₃) _
                    (identity-Outcome s s.value w₃ found)
                    (λ u w₄ (stored₄, safe₄).
                      lift-Outcome Ended Safe w₄ (volume_handle_hash_of controller.sealer.codec id)
                        _ safe₄
                        (λ hash known.
                          delete_stored-Outcome id handle hash s.version s.value w₄ stored₄
                            safe₄)))))

  delete_parsed-Outcome :
      (id : Text) (parsed : Result VolumeError Handle) (w : World)
      → Safe w
      → Outcome SafeAfter Safe (delete_parsed controller id parsed w)
  unfolding delete_parsed Outcome
  delete_parsed-Outcome id (ok handle) w safe =
      Ended-SafeAfter (delete_handle controller id handle w)
        (delete_handle-Outcome id handle w safe)
  delete_parsed-Outcome id (err foreign_handle) w safe = safe
  delete_parsed-Outcome id (err invalid_handle) w safe = safe
  delete_parsed-Outcome id (err e) w safe = safe

  resumable-Outcome :
      (s : Stored) (r : DetailedAllocation) (state : AllocationState) (w : World)
      → Found s w
      → Outcome (λ u w'. Found s w') Safe (resumable controller r state w)
  unfolding resumable Outcome
  resumable-Outcome s r deleting w found = found
  resumable-Outcome s r archived w found = found
  resumable-Outcome s r retained w found = found
  resumable-Outcome s r deleted w (stored, safe) =
      check-Outcome (λ u w'. Found s w') Safe _ _ w (stored, safe) safe
  resumable-Outcome s r reserved w (stored, safe) = safe
  resumable-Outcome s r creating_directory w (stored, safe) = safe
  resumable-Outcome s r ready w (stored, safe) = safe
  resumable-Outcome s r (unsupported t) w (stored, safe) = safe

  resume_stored-Outcome :
      (id : Text) (version : ℕ) (r : AllocationRecord) (w : World)
      → Found (record { version = version; value = r }) w
      → Outcome SafeAfter Safe (resume_stored controller id version r w)
  unfolding resume_stored
  resume_stored-Outcome id version (detailed_record r) w found =
      let s : Stored = record { version = version; value = detailed_record r } in
      proceed-Outcome (λ u w'. Found s w') SafeAfter Safe
        (validate_runtime_identity controller (detailed_record r) w) _
        (identity-Outcome s (detailed_record r) w found)
        (λ u w₁ (stored₁, safe₁). refuse_if-Outcome SafeAfter Safe w₁ _ _ _ safe₁ (λ same.
          proceed-Outcome (λ u w'. Found s w') SafeAfter Safe (resumable controller r r.state w₁) _
            (resumable-Outcome s r r.state w₁ (stored₁, safe₁))
            (λ u w₂ (stored₂, safe₂). Ended-SafeAfter _ (
              Done-Ended _ (
                delete_detailed-Outcome controller (record { version = version; allocation = r }) w₂
                  stored₂ safe₂)))))
  resume_stored-Outcome id version (compact_record r) w (stored, safe) =
      Outcome-fail SafeAfter Safe kind_unsupported w safe
  resume_stored-Outcome id version (unknown_record r) w (stored, safe) =
      Outcome-fail SafeAfter Safe kind_unsupported w safe

  pub delete_volume-Outcome :
      (id : Text) (w : World) → Safe w → Outcome SafeAfter Safe (delete_volume controller id w)
  unfolding delete_volume
  delete_volume-Outcome [] w safe = Outcome-fail SafeAfter Safe empty_volume_id w safe
  delete_volume-Outcome (b ∷ bs) w safe =
      delete_parsed-Outcome (b ∷ bs) (parse_handle (b ∷ bs)) w safe

  pub reconcile_existing_deletion-Outcome :
      (id : Text) (w : World)
      → Safe w
      → Outcome SafeAfter Safe (reconcile_existing_deletion controller id w)
  unfolding reconcile_existing_deletion
  reconcile_existing_deletion-Outcome id w safe =
      lift-Outcome SafeAfter Safe w (validate_logical_volume_id id) _ safe (λ u valid.
        proceed-Outcome (λ a w'. Safe w') SafeAfter Safe (query controller w) _ (query-Safe w safe)
          (λ a w₁ safe₁.
            proceed-Outcome (λ b w'. Safe w') SafeAfter Safe (query controller w₁) _
              (query-Safe w₁ safe₁)
              (λ b w₂ safe₂.
                proceed-Outcome Found SafeAfter Safe (get_allocation controller w₂) _
                  (get-Outcome w₂ safe₂)
                  (λ s w₃ found. resume_stored-Outcome id s.version s.value w₃ found))))
