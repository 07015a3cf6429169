-- ===== src/Volume/Transition/Steps.antt =====
-- What one accepted update of a durable allocation record keeps.
use scaleway_file_storage_su.Prelude.{
  ◌⊎◌, inl, inr, refl, ℕ, ◌+◌, ◌≤◌, Bool, true, false, ◌≡◌, ◌≢◌, arith, ==_iff,
}
use scaleway_file_storage_su.Prelude.Words.{u64}
use scaleway_file_storage_su.Prelude.Results.{ok}
use scaleway_file_storage_su.Prelude.Equality.{bool_eq}
use scaleway_file_storage_su.Volume.Handle.{Codec}
use scaleway_file_storage_su.Volume.State.{
  AllocationState, reserved, creating_directory, ready, deleting, archived, deleted, retained,
  unsupported, state_eq, state_eq_iff, reserves, allocation_transition,
}
use scaleway_file_storage_su.Volume.Records.{
  DetailedAllocation, CompactAllocation, UnknownAllocation, AllocationRecord, detailed_record,
  compact_record, unknown_record, lifecycle_state,
}
use scaleway_file_storage_su.Volume.Validation.{
  validate_reservation, validate_detailed, validate_compact, validate_unknown, validate_record,
}
use scaleway_file_storage_su.Volume.Transition.{
  validate_detailed_update, validate_compaction, validate_successor, validate_allocation_update,
}
use scaleway_file_storage_su.Volume.Transition.Identity.{
  creation_of, identity_of, detailed_immutable_equal-identity, compaction_equal-identity,
}

unfoldable pub revision_of : AllocationRecord → ℕ
revision_of (detailed_record r) = r.record_revision
revision_of (compact_record r) = r.record_revision
revision_of (unknown_record r) = r.record_revision

-- The stored flag that capacity accounting reads.
unfoldable pub holds_capacity : AllocationRecord → Bool
holds_capacity (detailed_record r) = r.reserves_capacity
holds_capacity (compact_record r) = r.reserves_capacity
holds_capacity (unknown_record r) = r.reserves_capacity

-- How far a state is in the lifecycle.
unfoldable pub progress : AllocationState → ℕ
progress reserved = 0
progress creating_directory = 1
progress ready = 2
progress deleting = 3
progress archived = 4
progress retained = 4
progress deleted = 5
progress (unsupported s) = 0

-- Nothing moves backward, and a state that keeps its place stays the same.
abbrev pub Forward : AllocationState → AllocationState → Type 0
Forward s t = (progress s ≤ progress t) × (progress s ≡ progress t → t ≡ s)

transition-progress : (s t : AllocationState) → allocation_transition s t ≡ true → Forward s t
unfolding allocation_transition state_eq progress
transition-progress (unsupported s) t h = ground (arith, state_eq_iff (unsupported s) t)
transition-progress s t h = ground arith

pub progress-le : (s : AllocationState) → progress s ≤ 5
unfolding progress
progress-le s = ground arith

unfoldable pub is_tombstone : AllocationRecord → Bool
is_tombstone (detailed_record r) = false
is_tombstone (compact_record r) = true
is_tombstone (unknown_record r) = true

pub reserves-progress :
    (s : AllocationState) {b : Bool}
    → reserves s ≡ ok b
    → (b ≡ false → progress s ≡ 5) × (progress s ≡ 5 → b ≡ false)
unfolding reserves progress
reserves-progress s h = ground arith

module _ (codec : Codec) where
  -- The parts of an accepted update.
  pub update-parts :
      (a b : AllocationRecord)
      → validate_allocation_update codec a b ≡ ok tt
      → (validate_record codec a ≡ ok tt)
        × (validate_record codec b ≡ ok tt)
        × (validate_successor a b ≡ ok tt)
  unfolding validate_allocation_update
  update-parts a b h = ground arith

  detailed-reservation :
      (r : DetailedAllocation)
      → validate_detailed codec r ≡ ok tt
      → (r.record_revision ≢ 0) × (reserves r.state ≡ ok r.reserves_capacity)
  unfolding validate_detailed validate_reservation bool_eq
  detailed-reservation r h = ground (arith, ==_iff r.record_revision 0)

  compact-reservation :
      (r : CompactAllocation)
      → validate_compact codec r ≡ ok tt
      → (r.record_revision ≢ 0) × (reserves r.state ≡ ok r.reserves_capacity)
  unfolding validate_compact reserves
  compact-reservation r h = ground (arith, state_eq_iff r.state deleted, ==_iff r.record_revision 0)

  unknown-reservation :
      (r : UnknownAllocation)
      → validate_unknown r ≡ ok tt
      → (r.record_revision ≢ 0) × (reserves r.state ≡ ok r.reserves_capacity)
  unfolding validate_unknown reserves
  unknown-reservation r h = ground (arith, state_eq_iff r.state deleted, ==_iff r.record_revision 0)

  record-reservation :
      (a : AllocationRecord)
      → validate_record codec a ≡ ok tt
      → (revision_of a ≢ 0) × (reserves (lifecycle_state a) ≡ ok (holds_capacity a))
  unfolding validate_record revision_of holds_capacity lifecycle_state
  record-reservation (detailed_record r) h = detailed-reservation r h
  record-reservation (compact_record r) h = compact-reservation r h
  record-reservation (unknown_record r) h = unknown-reservation r h

  -- What the switch over the two types accepts.
  successor-step :
      (a b : AllocationRecord)
      → validate_record codec b ≡ ok tt
      → validate_successor a b ≡ ok tt
      → (identity_of b ≡ identity_of a)
        × Forward (lifecycle_state a) (lifecycle_state b)
        × (revision_of b ≡ u64 (revision_of a + 1))
  unfolding validate_successor validate_detailed_update validate_compaction revision_of
      lifecycle_state validate_record validate_compact progress
  successor-step (detailed_record c) (detailed_record n) valid h = ground (
    arith,
    ==_iff n.record_revision (u64 (c.record_revision + 1)),
    detailed_immutable_equal-identity c n,
    transition-progress c.state n.state,
  )
  successor-step (detailed_record c) (compact_record n) valid h = ground (
    arith,
    ==_iff n.record_revision (u64 (c.record_revision + 1)),
    compaction_equal-identity c n,
    state_eq_iff c.state deleted,
    state_eq_iff n.state deleted,
  )
  successor-step (detailed_record c) (unknown_record n) valid h = cc
  successor-step (compact_record c) n valid h = cc
  successor-step (unknown_record c) n valid h = cc

  pub tombstone-refused :
      (a b : AllocationRecord) → is_tombstone a ≡ true → validate_successor a b ≢ ok tt
  unfolding is_tombstone validate_successor
  tombstone-refused (detailed_record r) b tombstone = cc
  tombstone-refused (compact_record r) b tombstone = cc
  tombstone-refused (unknown_record r) b tombstone = cc

  pub update-step :
      (a b : AllocationRecord)
      → validate_allocation_update codec a b ≡ ok tt
      → (identity_of b ≡ identity_of a)
        × Forward (lifecycle_state a) (lifecycle_state b)
        × (revision_of b ≡ u64 (revision_of a + 1))
        × (revision_of b ≢ 0)
        × (reserves (lifecycle_state a) ≡ ok (holds_capacity a))
        × (reserves (lifecycle_state b) ≡ ok (holds_capacity b))
  update-step a b h =
      let (before, after, successor) = update-parts a b h in
      let (identity, forward, revision) = successor-step a b after successor in
      let (positive, flag) = record-reservation a before in
      let (next_positive, next_flag) = record-reservation b after in
      (identity, forward, revision, next_positive, flag, next_flag)

  pub creation-step :
      (c : DetailedAllocation) (b : AllocationRecord)
      → validate_successor (detailed_record c) b ≡ ok tt
      → ((n : DetailedAllocation) × (b ≡ detailed_record n) × (creation_of n ≡ creation_of c))
        ⊎ (is_tombstone b ≡ true)
  unfolding validate_successor validate_detailed_update is_tombstone
  creation-step c (detailed_record n) h =
      inl (n, refl, (ground (arith, detailed_immutable_equal-identity c n)))
  creation-step c (compact_record n) h = inr refl
  creation-step c (unknown_record n) h = inr refl
