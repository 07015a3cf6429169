-- ===== src/Volume/Recovery/Reconstruction.antt =====
-- A reconstructed allocation record and the ownership record that it is made from.
use scaleway_file_storage_su.Prelude.{◌⊎◌, ◌||◌, ◌&&◌, true, ◌≡◌, arith}
use scaleway_file_storage_su.Prelude.Results.{ok}
use scaleway_file_storage_su.Prelude.Texts.{Text, text, text_eq_refl}
use scaleway_file_storage_su.Prelude.Equality.{text_Eq}
use scaleway_file_storage_su.Volume.Identifiers.{validate_operation_id}
use scaleway_file_storage_su.Volume.Timestamps.{validate_required_timestamp}
use scaleway_file_storage_su.Volume.Request.{disposition_eq_iff}
use scaleway_file_storage_su.Volume.State.{
  ready, deleting, archived, deleted, retained, state_eq, state_eq_iff, reserves,
}
use scaleway_file_storage_su.Volume.Records.{DetailedAllocation, compact_deleted, kind_eq_iff}
use scaleway_file_storage_su.Volume.OwnershipRecords.{DetailedOwnership, CompactOwnership}
use scaleway_file_storage_su.Volume.Validation.{
  validate_detailed, validate_compact, validate_reservation,
}
use scaleway_file_storage_su.Volume.Ownership.{
  Sealer, validate_compact_ownership, validate_compact_payload, checked_allocation,
  validate_detailed_payload, validate_detailed_ownership,
}
use scaleway_file_storage_su.Volume.Pairing.{
  paired_tombstone_identity, paired_tombstone_evidence, validate_compact_pair,
  validate_detailed_pair, validate_pair,
}
use scaleway_file_storage_su.Volume.Recovery.{
  reconstructed_tombstone, reconstruct_compact, reconstructed, reconstruct,
}
use scaleway_file_storage_su.Volume.Recovery.Fields.{detailed_kept, paired_kept}

owner-recoverable :
    (sealer : Sealer) (r : DetailedOwnership)
    → validate_detailed_ownership sealer r ≡ ok tt
    → (validate_detailed sealer.codec (checked_allocation r) ≡ ok tt)
      × ((state_eq r.state ready
            || state_eq r.state deleting
            || state_eq r.state archived
            || state_eq r.state retained)
          ≡ true)
unfolding validate_detailed_ownership validate_detailed_payload validate_detailed
    validate_reservation reserves state_eq
owner-recoverable sealer r h = ground arith

-- Every valid detailed ownership record reconstructs an allocation record, for a valid operation ID
-- and timestamp and either of the two recovery sources.
pub reconstruct_complete :
    (sealer : Sealer) (r : DetailedOwnership) (source id at : Text)
    → validate_detailed_ownership sealer r ≡ ok tt
    → validate_operation_id id ≡ ok tt
    → validate_required_timestamp at ≡ ok tt
    → (source ≡ text "ownership-only") ⊎ (source ≡ text "pv-and-ownership")
    → reconstruct sealer r source id at ≡ ok (reconstructed r source id at)
unfolding reconstruct
reconstruct_complete sealer r source id at valid operation timestamp known =
    let (payload, state) = owner-recoverable sealer r valid in
    let valid_record =
      detailed_kept r source id at sealer.codec (operation, timestamp, known) state payload in
    ground arith

-- A reconstructed allocation record and its ownership record are an accepted pair in the state of
-- the ownership record, and the reconstructed record holds capacity.
pub reconstruct-pair :
    (sealer : Sealer) (r : DetailedOwnership) (source id at : Text) {a : DetailedAllocation}
    → reconstruct sealer r source id at ≡ ok a
    → (validate_detailed_pair sealer a r r.state ≡ ok tt)
      × (a.state ≡ r.state)
      × (a.reserves_capacity ≡ true)
unfolding reconstruct validate_detailed_pair validate_pair
reconstruct-pair sealer r source id at h =
    ground (arith, paired_kept r source id at, state_eq_iff r.state r.state)

tombstone_paired :
    (r : CompactOwnership)
    → r.state ≡ deleted
    → (paired_tombstone_identity (reconstructed_tombstone r) r
        && paired_tombstone_evidence (reconstructed_tombstone r) r)
      ≡ true
unfolding paired_tombstone_identity paired_tombstone_evidence
tombstone_paired r h = ground (
  arith,
  text_eq_refl r.schema_version,
  text_eq_refl r.driver_name,
  text_eq_refl r.installation_id,
  text_eq_refl r.active_cluster_uid,
  text_eq_refl r.create_volume_request_name,
  text_eq_refl r.logical_volume_id,
  text_eq_refl r.volume_handle_hash,
  text_eq_refl r.mapping_hash,
  text_eq_refl r.parent_filesystem_id,
  text_eq_refl r.directory_name,
  state_eq_iff r.state deleted,
  state_eq_iff deleted deleted,
  text_eq_refl r.delete_result,
  text_eq_refl r.deleted_at,
  disposition_eq_iff r.delete_operation r.delete_operation,
  text_eq_refl r.archived_path,
  text_eq_refl r.retained_path,
  text_eq_refl r.quarantine_path,
  text_eq_refl r.delete_operation_id,
  text_eq_refl r.delete_completed_at,
  text_eq_refl r.gc_operation_id,
  text_eq_refl r.gc_target_path,
  text_eq_refl r.gc_quarantine_path,
  text_eq_refl r.gc_completed_at,
)

-- Every valid tombstone of an ownership record reconstructs an allocation tombstone, and the two are
-- an accepted pair.
pub reconstruct_compact_complete :
    (sealer : Sealer) (r : CompactOwnership)
    → validate_compact_ownership sealer r ≡ ok tt
    → (reconstruct_compact sealer r ≡ ok (reconstructed_tombstone r))
      × (validate_compact_pair sealer (reconstructed_tombstone r) r ≡ ok tt)
unfolding reconstruct_compact validate_compact_pair validate_compact_ownership
    validate_compact_payload validate_compact
reconstruct_compact_complete sealer r h = ground (
  arith,
  tombstone_paired r,
  kind_eq_iff compact_deleted compact_deleted,
  state_eq_iff r.state deleted,
  state_eq_iff deleted deleted,
)
