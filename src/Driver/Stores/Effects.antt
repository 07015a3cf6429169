-- ===== src/Driver/Stores/Effects.antt =====
-- What the calls of the stores leave of the durable records.
use scaleway_file_storage_su.Prelude.{◌+◌, some, ◌≡◌, refl, arith}
use scaleway_file_storage_su.Prelude.Results.{Result, ok}
use scaleway_file_storage_su.Volume.Records.{DetailedAllocation, AllocationRecord, detailed_record}
use scaleway_file_storage_su.Volume.OwnershipRecords.{
  DetailedOwnership, CompactOwnership, OwnershipRecord, detailed_ownership, compact_ownership,
}
use scaleway_file_storage_su.Driver.Errors.{DriverError}
use scaleway_file_storage_su.Driver.World.{Stored, StoredDetailed, World, Answer, Controller}
use scaleway_file_storage_su.Driver.Program.{proceed, refuse_if, lift}
use scaleway_file_storage_su.Driver.Program.Rules.{Outcome, Outcome-intro}
use scaleway_file_storage_su.Driver.Stores.{
  query, now, check_object, get_allocation, create_allocation, update_allocation,
  update_detailed_allocation, load_ownership, update_ownership, update_detailed_ownership,
  compact_ownership_record,
}

-- The durable records and the effects are the same.
abbrev pub Same : World → World → Type 0
Same w w' = (w'.allocation ≡ w.allocation) × (w'.ownership ≡ w.ownership) × (w'.effects ≡ w.effects)

module _ (controller : Controller) where
  pub query-Same :
      (w w' : World) {r : Result DriverError Answer} → query controller w ≡ (w', r) → Same w w'
  unfolding query proceed refuse_if lift
  query-Same w w' h = ground arith

  pub update_allocation-ok :
      (current : Stored) (next : AllocationRecord) (w w' : World) {s : Stored}
      → update_allocation controller current next w ≡ (w', ok s)
      → (s ≡ record { version = current.version + 1; value = next })
        × (w'.allocation ≡ some (record { version = current.version + 1; value = next }))
        × (w'.ownership ≡ w.ownership)
        × (w'.effects ≡ w.effects)
  unfolding update_allocation check_object proceed refuse_if lift
  update_allocation-ok current next w w' h = ground arith

  pub update_allocation-effects :
      (current : Stored) (next : AllocationRecord) (w w' : World) {r : Result DriverError Stored}
      → update_allocation controller current next w ≡ (w', r)
      → (w'.ownership ≡ w.ownership) × (w'.effects ≡ w.effects)
  unfolding update_allocation check_object proceed refuse_if lift
  update_allocation-effects current next w w' h = ground arith

  pub update_detailed_allocation-ok :
      (current : StoredDetailed) (next : DetailedAllocation) (w w' : World) {s : StoredDetailed}
      → update_detailed_allocation controller current next w ≡ (w', ok s)
      → (s.allocation ≡ next)
        × (w'.allocation
            ≡ some (record { version = s.version; value = detailed_record s.allocation }))
        × (w'.ownership ≡ w.ownership)
        × (w'.effects ≡ w.effects)
  unfolding update_detailed_allocation update_allocation check_object proceed refuse_if lift
  update_detailed_allocation-ok current next w w' h = ground arith

  pub update_detailed_allocation-effects :
      (current : StoredDetailed) (next : DetailedAllocation) (w w' : World)
      {r : Result DriverError StoredDetailed}
      → update_detailed_allocation controller current next w ≡ (w', r)
      → w'.effects ≡ w.effects
  unfolding update_detailed_allocation update_allocation check_object proceed refuse_if lift
  update_detailed_allocation-effects current next w w' h = ground arith

  pub load_ownership-ok :
      (allocation : DetailedAllocation) (w w' : World) {o : OwnershipRecord}
      → load_ownership controller allocation w ≡ (w', ok o)
      → (w'.ownership ≡ some o) × Same w w'
  unfolding load_ownership query proceed refuse_if lift
  load_ownership-ok allocation w w' h = ground arith

  pub load_ownership-effects :
      (allocation : DetailedAllocation) (w w' : World) {r : Result DriverError OwnershipRecord}
      → load_ownership controller allocation w ≡ (w', r)
      → w'.effects ≡ w.effects
  unfolding load_ownership query proceed refuse_if lift
  load_ownership-effects allocation w w' h = ground arith

  pub update_detailed_ownership-ok :
      (current next : DetailedOwnership) (w w' : World)
      → update_detailed_ownership controller current next w ≡ (w', ok tt)
      → (w'.ownership ≡ some (detailed_ownership next))
        × (w'.allocation ≡ w.allocation)
        × (w'.effects ≡ w.effects)
  unfolding update_detailed_ownership update_ownership proceed refuse_if lift
  update_detailed_ownership-ok current next w w' h = ground arith

  pub update_detailed_ownership-effects :
      (current next : DetailedOwnership) (w w' : World) {r : Result DriverError (Unit {0})}
      → update_detailed_ownership controller current next w ≡ (w', r)
      → w'.effects ≡ w.effects
  unfolding update_detailed_ownership update_ownership proceed refuse_if lift
  update_detailed_ownership-effects current next w w' h = ground arith

  pub compact_ownership_record-ok :
      (current : DetailedOwnership) (next : CompactOwnership) (w w' : World)
      → compact_ownership_record controller current next w ≡ (w', ok tt)
      → (w'.ownership ≡ some (compact_ownership next))
        × (w'.allocation ≡ w.allocation)
        × (w'.effects ≡ w.effects)
  unfolding compact_ownership_record update_ownership proceed refuse_if lift
  compact_ownership_record-ok current next w w' h = ground arith

  pub compact_ownership_record-effects :
      (current : DetailedOwnership) (next : CompactOwnership) (w w' : World)
      {r : Result DriverError (Unit {0})}
      → compact_ownership_record controller current next w ≡ (w', r)
      → w'.effects ≡ w.effects
  unfolding compact_ownership_record update_ownership proceed refuse_if lift
  compact_ownership_record-effects current next w w' h = ground arith

  pub create_allocation-effects :
      (next : AllocationRecord) (w w' : World) {r : Result DriverError Stored}
      → create_allocation controller next w ≡ (w', r)
      → w'.effects ≡ w.effects
  unfolding create_allocation check_object proceed refuse_if lift
  create_allocation-effects next w w' h = ground arith

  pub create_allocation-ok :
      (next : AllocationRecord) (w w' : World) {s : Stored}
      → create_allocation controller next w ≡ (w', ok s)
      → w'.allocation ≡ some s
  unfolding create_allocation check_object proceed refuse_if lift
  create_allocation-ok next w w' h = ground arith

  pub get_allocation-ok :
      (w w' : World) {s : Stored}
      → get_allocation controller w ≡ (w', ok s)
      → w'.allocation ≡ some s
  unfolding get_allocation query proceed refuse_if lift
  get_allocation-ok w w' h = ground arith

  pub get_allocation-Same :
      (w w' : World) {r : Result DriverError Stored}
      → get_allocation controller w ≡ (w', r)
      → Same w w'
  unfolding get_allocation query proceed refuse_if lift
  get_allocation-Same w w' h = ground arith

  -- A call without an effect keeps what the durable records and the effects decide.
  module _ (P bad : World → Type 0) (w : World) where
    pub query-Outcome :
        ((w' : World) → Same w w' → P w')
        → ((w' : World) → P w' → bad w')
        → Outcome (λ a w'. P w') bad (query controller w)
    query-Outcome keep drop =
        Outcome-intro (λ a w'. P w') bad (query controller w)
          (λ a w' e. keep w' (query-Same w w' e)) (λ f w' e. drop w' (keep w' (query-Same w w' e)))

    pub now-Outcome :
        ((w' : World) → Same w w' → P w') → Outcome (λ a w'. P w') bad (now controller w)
    unfolding now proceed Outcome
    now-Outcome keep = keep _ (refl, refl, refl)
