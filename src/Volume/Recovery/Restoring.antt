-- ===== src/Volume/Recovery/Restoring.antt =====
-- The recovery of a lost allocation record from the ownership record that it was paired with.
use scaleway_file_storage_su.Prelude.{true, ◌⊎◌, ◌≡◌, ◌∙◌, sym, arith}
use scaleway_file_storage_su.Prelude.Results.{ok}
use scaleway_file_storage_su.Prelude.Texts.{Text, text}
use scaleway_file_storage_su.Volume.Identifiers.{validate_operation_id}
use scaleway_file_storage_su.Volume.Timestamps.{validate_required_timestamp}
use scaleway_file_storage_su.Volume.State.{AllocationState}
use scaleway_file_storage_su.Volume.Records.{DetailedAllocation, detailed_record, nodes_of}
use scaleway_file_storage_su.Volume.OwnershipRecords.{DetailedOwnership}
use scaleway_file_storage_su.Volume.Ownership.{Sealer, validate_detailed_ownership}
use scaleway_file_storage_su.Volume.Transition.Identity.{identity_of, creation_of}
use scaleway_file_storage_su.Volume.Pairing.{validate_detailed_pair, validate_pair}
use scaleway_file_storage_su.Volume.Pairing.Agreement.{validate_detailed_pair-agree}
use scaleway_file_storage_su.Volume.Recovery.{reconstruct, reconstructed}
use scaleway_file_storage_su.Volume.Recovery.Reconstruction.{reconstruct_complete, reconstruct-pair}

-- What no update of a record changes, and the nodes that fence it.
abbrev pub Restores : DetailedAllocation → DetailedAllocation → Type 0
Restores lost r =
    (identity_of (detailed_record r) ≡ identity_of (detailed_record lost))
    × (creation_of r ≡ creation_of lost)
    × (nodes_of r.published_node_ids ≡ nodes_of lost.published_node_ids)

pair-ownership :
    (sealer : Sealer) (a : DetailedAllocation) (o : DetailedOwnership) (expected : AllocationState)
    → validate_detailed_pair sealer a o expected ≡ ok tt
    → validate_detailed_ownership sealer o ≡ ok tt
unfolding validate_detailed_pair validate_pair
pair-ownership sealer a o expected h = ground arith

pairs-Restores :
    (sealer : Sealer) (lost r : DetailedAllocation) (o : DetailedOwnership)
    (expected : AllocationState)
    → validate_detailed_pair sealer lost o expected ≡ ok tt
    → validate_detailed_pair sealer r o o.state ≡ ok tt
    → Restores lost r
pairs-Restores sealer lost r o expected was now =
    let (identity, creation, nodes, state) =
      validate_detailed_pair-agree sealer lost o expected was in
    let (identity', creation', nodes', state') =
      validate_detailed_pair-agree sealer r o o.state now in
    (identity' ∙ sym identity, creation' ∙ sym creation, nodes' ∙ sym nodes)

-- If an allocation record is lost and was an accepted pair with a detailed ownership record, then
-- reconstruction from the ownership record alone, with a valid operation ID and timestamp and either
-- recovery source, succeeds, with a record that has the identity, the creation data and the published
-- nodes of the lost one, the state of the pair, and holds capacity.
pub reconstruct-Restores :
    (sealer : Sealer) (lost : DetailedAllocation) (o : DetailedOwnership)
    (expected : AllocationState) (source id at : Text)
    → validate_detailed_pair sealer lost o expected ≡ ok tt
    → validate_operation_id id ≡ ok tt
    → validate_required_timestamp at ≡ ok tt
    → (source ≡ text "ownership-only") ⊎ (source ≡ text "pv-and-ownership")
    → (r : DetailedAllocation) × (reconstruct sealer o source id at ≡ ok r)
      × Restores lost r
      × (r.state ≡ expected)
      × (r.reserves_capacity ≡ true)
reconstruct-Restores sealer lost o expected source id at was operation timestamp known =
    let made =
      reconstruct_complete sealer o source id at (pair-ownership sealer lost o expected was)
        operation timestamp known in
    let (now, state, holds) =
      reconstruct-pair sealer o source id at {a = reconstructed o source id at} made in
    (
      reconstructed o source id at,
      made,
      pairs-Restores sealer lost (reconstructed o source id at) o expected was now,
      state ∙ (validate_detailed_pair-agree sealer lost o expected was).3,
      holds,
    )
