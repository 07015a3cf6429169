-- ===== src/Volume/Transition/History.antt =====
-- What a history of accepted updates of one durable allocation record keeps.
use scaleway_file_storage_su.Prelude.{
  ◌∙◌, ℕ, suc, ◌+◌, ◌≤◌, ◌<◌, false, true, ◌≡◌, refl, ◌≢◌, inl, inr, subst, ap, sym, arith,
}
use scaleway_file_storage_su.Prelude.Words.{word}
use scaleway_file_storage_su.Prelude.Results.{ok}
use scaleway_file_storage_su.Volume.Handle.{Codec}
use scaleway_file_storage_su.Volume.Records.{
  DetailedAllocation, AllocationRecord, detailed_record, lifecycle_state,
}
use scaleway_file_storage_su.Volume.Transition.{validate_allocation_update, validate_successor}
use scaleway_file_storage_su.Volume.Transition.Identity.{creation_of, identity_of}
use scaleway_file_storage_su.Volume.Transition.Steps.{
  revision_of, holds_capacity, progress, is_tombstone, reserves-progress, progress-le, update-parts,
  tombstone-refused, update-step, creation-step,
}

-- A history of accepted updates: no update, or one update and a history of its successor.
pub data History (codec : Codec) : AllocationRecord → AllocationRecord → Type 0 where
  unchanged : {a : AllocationRecord} → History codec a a
  updated :
      {a b c : AllocationRecord}
      → validate_allocation_update codec a b ≡ ok tt
      → History codec b c
      → History codec a c

unfoldable pub count_updates : {codec : Codec} {a b : AllocationRecord} → History codec a b → ℕ
count_updates unchanged = 0
count_updates (updated h rest) = suc (count_updates rest)

module _ (codec : Codec) where
  -- Every accepted history keeps the driver, the installation, the cluster, the logical volume and
  -- the hashes of its handle and mapping.
  pub History-identity :
      {a b : AllocationRecord} → History codec a b → identity_of b ≡ identity_of a
  History-identity unchanged = refl
  History-identity (updated h rest) =
      let (identity, forward, revision, positive, flag, next_flag) = update-step codec _ _ h in
      History-identity rest ∙ identity

  -- In an accepted history the lifecycle state never moves backward, and it only keeps its place in
  -- the lifecycle by staying the same, so an archived volume never becomes a retained one.
  pub History-forward :
      {a b : AllocationRecord}
      → History codec a b
      → (progress (lifecycle_state a) ≤ progress (lifecycle_state b))
        × (progress (lifecycle_state a) ≡ progress (lifecycle_state b)
            → lifecycle_state b ≡ lifecycle_state a)
  History-forward unchanged = (omega arith, λ same. refl)
  History-forward (updated {a = a} {b = b} {c = c} h rest) =
      let (identity, (le, stays), revision, positive, flag, next_flag) = update-step codec a b h in
      let (rest_le, rest_stays) = History-forward rest in
      (omega arith, λ same. rest_stays (omega arith) ∙ stays (omega arith))

  -- Every update of an accepted history adds exactly one to a uint64 revision, which therefore never
  -- wraps around.
  pub History-revision :
      {a b : AllocationRecord} (history : History codec a b)
      → revision_of a < word
      → revision_of b ≡ revision_of a + count_updates history
  unfolding count_updates
  History-revision unchanged bound = omega arith
  History-revision (updated {a = a} {b = b} {c = c} h rest) bound =
      let (identity, forward, revision, positive, flag, next_flag) = update-step codec a b h in
      let next : revision_of b ≡ revision_of a + 1 = omega arith in
      let small : revision_of b < word = omega arith in
      let more = History-revision rest small in omega arith

  -- A record that has released its capacity never holds capacity again.
  pub History-released :
      {a b : AllocationRecord}
      → History codec a b
      → holds_capacity a ≡ false
      → holds_capacity b ≡ false
  History-released unchanged released = released
  History-released (updated {a = a} {b = b} {c = c} h rest) released =
      let (identity, (le, stays), revision, positive, flag, next_flag) = update-step codec a b h in
      let (ends, ended) = reserves-progress (lifecycle_state a) flag in
      let (next_ends, next_ended) = reserves-progress (lifecycle_state b) next_flag in
      let bounded = progress-le (lifecycle_state b) in
      let at_end = ends released in History-released rest (next_ended (omega arith))

  -- A tombstone is never updated again.
  History-tombstone : {a b : AllocationRecord} → History codec a b → is_tombstone a ≡ true → b ≡ a
  History-tombstone unchanged tombstone = refl
  History-tombstone (updated h rest) tombstone =
      let (before, after, successor) = update-parts codec _ _ h in
      absurd (tombstone-refused codec _ _ tombstone successor)

  detailed-lives : (n : DetailedAllocation) → is_tombstone (detailed_record n) ≢ true
  unfolding is_tombstone
  detailed-lives n = cc

  History-creation_from :
      {a b : AllocationRecord} (c n : DetailedAllocation)
      → History codec a b
      → a ≡ detailed_record c
      → b ≡ detailed_record n
      → creation_of n ≡ creation_of c
  unfolding is_tombstone
  History-creation_from c n unchanged from to = let same : n ≡ c = cc in ap creation_of same
  History-creation_from c n (updated {a = a} {b = b} h rest) from to =
      let (before, after, successor) = update-parts codec a b h in
      let step = subst (λ x. validate_successor x b ≡ ok tt) from successor in
      elim (creation-step codec c b step) [
        | inl (m, middle, same) ↦ History-creation_from m n rest middle to ∙ same
        | inr ended ↦ absurd (
            detailed-lives n
              (subst (λ x. is_tombstone x ≡ true) (sym (History-tombstone rest ended) ∙ to) ended))
      ]

  -- Every accepted history from one detailed record to another keeps what the volume was created
  -- with: its request, capacity, parameters, mapping, handle, delete policy and creation time.
  pub History-creation :
      (c n : DetailedAllocation)
      → History codec (detailed_record c) (detailed_record n)
      → creation_of n ≡ creation_of c
  History-creation c n history = History-creation_from c n history refl refl
