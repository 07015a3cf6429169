-- ===== src/Pool/Refresh/History.antt =====
-- What a tracker holds after any history of observations.
use scaleway_file_storage_su.Prelude.{
  ℕ, ◌<◌, ◌≤◌, ◌≡◌, ◌↔◌, ◌⊎◌, max, true, false, List, [], ◌∷◌, arith, if◌then◌else◌,
}
use scaleway_file_storage_su.Prelude.Results.{is_ok}
use scaleway_file_storage_su.Pool.Refresh.{
  Snapshot, Observation, empty_snapshot, observe, placement_allowed, observe_all,
}

-- A tracker has seen nothing, or it holds a positive accepted size that the last observed size does
-- not exceed, and is healthy exactly while the two are equal.
pub record Inv (s : Snapshot) : Type 0 where
  pub observed_le : s.observed_size_bytes ≤ s.accepted_size_bytes
  pub allowed_iff :
      (placement_allowed s ≡ true)
      ↔ ((0 < s.accepted_size_bytes) × (s.observed_size_bytes ≡ s.accepted_size_bytes))

-- The sizes of the observations that a history applies: those that Observe does not refuse.
pub largest_applied : Snapshot → List Observation → ℕ
largest_applied s [] = 0
largest_applied s (o ∷ os) =
    let rest = largest_applied (observe s o).0 os in
    if is_ok (observe s o).1 then max o.size_bytes rest else rest

empty-Inv : Inv empty_snapshot
unfolding placement_allowed
empty-Inv = ground arith

observe-Inv : (s : Snapshot) (o : Observation) → Inv s → Inv (observe s o).0
unfolding observe placement_allowed
observe-Inv s o v = ground arith

observe_all-Inv : (s : Snapshot) (os : List Observation) → Inv s → Inv (observe_all s os)
unfolding observe_all
observe_all-Inv s [] v = v
observe_all-Inv s (o ∷ os) v = observe_all-Inv (observe s o).0 os (observe-Inv s o v)

-- After any history of a new tracker placement is allowed exactly if something was accepted and the
-- last observed size is the accepted size.
pub observe_all-allowed :
    (os : List Observation)
    → let s = observe_all empty_snapshot os in
      (placement_allowed s ≡ true)
      ↔ ((0 < s.accepted_size_bytes) × (s.observed_size_bytes ≡ s.accepted_size_bytes))
observe_all-allowed os = (observe_all-Inv empty_snapshot os empty-Inv).allowed_iff

accepted-step :
    (s : Snapshot) (o : Observation)
    → Inv s
    → (observe s o).0.accepted_size_bytes ≡ (
        if is_ok (observe s o).1
        then max s.accepted_size_bytes o.size_bytes
        else s.accepted_size_bytes)
unfolding observe
accepted-step s o v = ground arith

accepted-largest_from :
    (s : Snapshot) (os : List Observation)
    → Inv s
    → (observe_all s os).accepted_size_bytes ≡ max s.accepted_size_bytes (largest_applied s os)
unfolding observe_all largest_applied
accepted-largest_from s [] v = omega arith
accepted-largest_from s (o ∷ os) v =
    ground
      (arith, accepted-step s o v, accepted-largest_from (observe s o).0 os (observe-Inv s o v))

-- The accepted size of a tracker is the largest size that it was ever told without refusing it: a
-- shrink never lowers the recovery threshold.
pub accepted-largest :
    (os : List Observation)
    → (observe_all empty_snapshot os).accepted_size_bytes ≡ largest_applied empty_snapshot os
accepted-largest os = omega (arith, accepted-largest_from empty_snapshot os empty-Inv)

-- On a started tracker that satisfies the invariant a refused observation changes nothing, an applied
-- one never moves the clock back, and after it placement is allowed exactly if the new size is at
-- least the accepted one.
pub observe_lem :
    (s : Snapshot) (o : Observation)
    → Inv s
    → 0 < s.accepted_size_bytes
    → ((is_ok (observe s o).1 ≡ false) × ((observe s o).0 ≡ s))
      ⊎ ((is_ok (observe s o).1 ≡ true)
          × (s.observed_at ≤ (observe s o).0.observed_at)
          × ((observe s o).0.observed_size_bytes ≡ o.size_bytes)
          × ((placement_allowed (observe s o).0 ≡ true) ↔ (s.accepted_size_bytes ≤ o.size_bytes)))
unfolding observe placement_allowed
observe_lem s o v started = ground (arith, v.allowed_iff.0, v.allowed_iff.1)
