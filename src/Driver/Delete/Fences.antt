-- ===== src/Driver/Delete/Fences.antt =====
-- How the union of the published nodes is restored in both records.
use scaleway_file_storage_su.Prelude.{List, some, ◌≡◌, ◌∙◌, sym, arith}
use scaleway_file_storage_su.Prelude.Results.{Result, ok}
use scaleway_file_storage_su.Prelude.Texts.{Text}
use scaleway_file_storage_su.Prelude.Equality.{text_Eq, texts_eq_sound}
use scaleway_file_storage_su.Volume.Records.{DetailedAllocation, nodes_of}
use scaleway_file_storage_su.Volume.OwnershipRecords.{DetailedOwnership, detailed_ownership}
use scaleway_file_storage_su.Volume.Ownership.{seal_detailed}
use scaleway_file_storage_su.Driver.Errors.{DriverError}
use scaleway_file_storage_su.Driver.World.{World, StoredDetailed, Controller}
use scaleway_file_storage_su.Driver.Program.{proceed, refuse_if, lift}
use scaleway_file_storage_su.Driver.Program.Rules.{
  Outcome, Outcome-intro, Outcome-done, proceed-Outcome,
}
use scaleway_file_storage_su.Driver.Stores.{
  now, check_object, update_allocation, update_detailed_allocation, update_ownership,
  update_detailed_ownership,
}
use scaleway_file_storage_su.Driver.Pair.{
  fence_allocation, fence_ownership, sorted_union, reconcile_fence_union,
}
use scaleway_file_storage_su.Driver.Delete.Authorized.{Held, Safe, Intent, stored_of}
use scaleway_file_storage_su.Driver.Delete.Completion.{Safe-effects}

-- Both records keep their intent, and carry the same published nodes.
abbrev pub Fenced :
    StoredDetailed → DetailedOwnership → StoredDetailed × DetailedOwnership → World → Type 0
Fenced s o (s', o') w =
    Held s' o' w
    × (nodes_of s'.allocation.published_node_ids ≡ nodes_of o'.published_node_ids)
    × (Intent s.allocation o → Intent s'.allocation o')
    × (s'.allocation.state ≡ s.allocation.state)

module _ (controller : Controller) where
  fence_allocation-ok :
      (s : StoredDetailed) (union : List Text) (w w' : World) {s' : StoredDetailed}
      → fence_allocation controller s union w ≡ (w', ok s')
      → w.allocation ≡ some (stored_of s)
      → (w'.allocation ≡ some (stored_of s'))
        × (w'.ownership ≡ w.ownership)
        × (w'.effects ≡ w.effects)
        × (nodes_of s'.allocation.published_node_ids ≡ union)
        × ((o : DetailedOwnership) → Intent s.allocation o → Intent s'.allocation o)
        × (s'.allocation.state ≡ s.allocation.state)
  unfolding fence_allocation update_detailed_allocation update_allocation check_object now proceed
      refuse_if lift
  fence_allocation-ok s union w w' h stored =
      ground (arith, texts_eq_sound (nodes_of s.allocation.published_node_ids) union)

  fence_allocation-effects :
      (s : StoredDetailed) (union : List Text) (w w' : World)
      {r : Result DriverError StoredDetailed}
      → fence_allocation controller s union w ≡ (w', r)
      → (w'.ownership ≡ w.ownership) × (w'.effects ≡ w.effects)
  unfolding fence_allocation update_detailed_allocation update_allocation check_object now proceed
      refuse_if lift
  fence_allocation-effects s union w w' h = ground arith

  fence_ownership-ok :
      (o : DetailedOwnership) (union : List Text) (w w' : World) {o' : DetailedOwnership}
      → fence_ownership controller o union w ≡ (w', ok o')
      → w.ownership ≡ some (detailed_ownership o)
      → (w'.ownership ≡ some (detailed_ownership o'))
        × (w'.allocation ≡ w.allocation)
        × (nodes_of o'.published_node_ids ≡ union)
        × ((a : DetailedAllocation) → Intent a o → Intent a o')
  unfolding fence_ownership update_detailed_ownership update_ownership seal_detailed proceed
      refuse_if lift
  fence_ownership-ok o union w w' h owner =
      ground (arith, texts_eq_sound (nodes_of o.published_node_ids) union)

  fence_ownership-effects :
      (o : DetailedOwnership) (union : List Text) (w w' : World)
      {r : Result DriverError DetailedOwnership}
      → fence_ownership controller o union w ≡ (w', r)
      → (w'.allocation ≡ w.allocation) × (w'.effects ≡ w.effects)
  unfolding fence_ownership update_detailed_ownership update_ownership proceed refuse_if lift
  fence_ownership-effects o union w w' h = ground arith

  fence_ownership-Outcome :
      (s s' : StoredDetailed) (o : DetailedOwnership) (union : List Text) (w : World)
      → Held s' o w
      → nodes_of s'.allocation.published_node_ids ≡ union
      → (Intent s.allocation o → Intent s'.allocation o)
      → s'.allocation.state ≡ s.allocation.state
      → Outcome (λ o' w'. Fenced s o (s', o') w') Safe (fence_ownership controller o union w)
  fence_ownership-Outcome s s' o union w (stored, owner, safe) nodes intent state =
      Outcome-intro (λ o' w'. Fenced s o (s', o') w') Safe (fence_ownership controller o union w)
        (λ o' w' e.
          let (allocation, effects) = fence_ownership-effects o union w w' e in
          let (owner', same, nodes', kept) = fence_ownership-ok o union w w' e owner in
          (
            (allocation ∙ stored, owner', Safe-effects w w' effects safe),
            nodes ∙ sym nodes',
            (λ i. kept s'.allocation (intent i)),
            state,
          ))
        (λ f w' e.
          let (allocation, effects) = fence_ownership-effects o union w w' e in
          Safe-effects w w' effects safe)

  pub reconcile_fence_union-Outcome :
      (s : StoredDetailed) (o : DetailedOwnership) (w : World)
      → Held s o w
      → Outcome (Fenced s o) Safe (reconcile_fence_union controller s o w)
  unfolding reconcile_fence_union
  reconcile_fence_union-Outcome s o w (stored, owner, safe) =
      let union =
        sorted_union (nodes_of s.allocation.published_node_ids) (nodes_of o.published_node_ids) in
      proceed-Outcome
        (λ s' w'.
          Held s' o w'
          × (nodes_of s'.allocation.published_node_ids ≡ union)
          × (Intent s.allocation o → Intent s'.allocation o)
          × (s'.allocation.state ≡ s.allocation.state))
        (Fenced s o) Safe (fence_allocation controller s union w) _
        (Outcome-intro
          (λ s' w'.
            Held s' o w'
            × (nodes_of s'.allocation.published_node_ids ≡ union)
            × (Intent s.allocation o → Intent s'.allocation o)
            × (s'.allocation.state ≡ s.allocation.state))
          Safe (fence_allocation controller s union w)
          (λ s' w' e.
            let (stored', same, effects, nodes, kept, state) =
              fence_allocation-ok s union w w' e stored in
            ((stored', same ∙ owner, Safe-effects w w' effects safe), nodes, kept o, state))
          (λ f w' e.
            let (same, effects) = fence_allocation-effects s union w w' e in
            Safe-effects w w' effects safe))
        (λ s' w' (held, nodes, intent, state).
          proceed-Outcome (λ o' w''. Fenced s o (s', o') w'') (Fenced s o) Safe
            (fence_ownership controller o union w') _
            (fence_ownership-Outcome s s' o union w' held nodes intent state)
            (λ o' w'' fenced. Outcome-done (Fenced s o) Safe (s', o') w'' fenced))
