-- ===== src/Volume/Recovery/Fields.antt =====
-- The fields of a reconstructed allocation record are those that validate the ownership record.
use scaleway_file_storage_su.Prelude.{◌⊎◌, ◌||◌, true, ◌≡◌, refl, List, [], ◌∷◌, ◌++◌, arith}
use scaleway_file_storage_su.Prelude.Results.{ok, >>-eq-ok}
use scaleway_file_storage_su.Prelude.Texts.{Text, text, text_eq_iff, text_eq_refl}
use scaleway_file_storage_su.Prelude.Equality.{text_Eq, texts_eq_refl}
use scaleway_file_storage_su.Volume.Identifiers.{validate_operation_id, is_uuid}
use scaleway_file_storage_su.Prelude.Strings.{matches, repeat}
use scaleway_file_storage_su.Volume.Timestamps.{
  validate_required_timestamp, validate_optional_timestamps,
}
use scaleway_file_storage_su.Volume.Request.{disposition_eq_iff, equal_create_parameters_iff}
use scaleway_file_storage_su.Volume.State.{
  AllocationState, reserved, creating_directory, ready, deleting, archived, deleted, retained,
  unsupported, state_eq,
}
use scaleway_file_storage_su.Volume.Handle.{Codec}
use scaleway_file_storage_su.Volume.Records.{nodes_of}
use scaleway_file_storage_su.Volume.OwnershipRecords.{DetailedOwnership}
use scaleway_file_storage_su.Volume.Lifecycle.{
  present, validate_lifecycle, validate_state, validate_recovery_fields, validate_gc_fields,
  validate_gc_request, validate_gc_progress, has_delete_fields, count_present,
  validate_prepared_delete,
}
use scaleway_file_storage_su.Volume.Validation.{
  validate_detailed, validate_logical_identity, validate_request_identity,
  validate_mapping_identity,
}
use scaleway_file_storage_su.Volume.Ownership.{checked_allocation}
use scaleway_file_storage_su.Volume.Pairing.{
  paired_request, paired_parameters, paired_mapping, paired_directory, paired_identity, same_nodes,
}
use scaleway_file_storage_su.Volume.Recovery.{reconstructed}

optional_single :
    (t : Text)
    → validate_required_timestamp t ≡ ok tt
    → validate_optional_timestamps (t ∷ []) ≡ ok tt
unfolding validate_optional_timestamps
optional_single [] v = refl
optional_single (b ∷ bs) v = rw v refl

optional_kept :
    (t : Text) (ts : List Text)
    → validate_required_timestamp t ≡ ok tt
    → validate_optional_timestamps (ts ++ [] ∷ []) ≡ ok tt
    → validate_optional_timestamps (ts ++ t ∷ []) ≡ ok tt
unfolding validate_optional_timestamps
optional_kept t [] v h = optional_single t v
optional_kept t ([] ∷ ts) v h = optional_kept t ts v h
optional_kept t ((b ∷ bs) ∷ ts) v h =
    let (first, rest) =
      >>-eq-ok (validate_required_timestamp (b ∷ bs)) (validate_optional_timestamps (ts ++ [] ∷ []))
        h in
    rw first (optional_kept t ts v rest)

operation_id-present : (id : Text) → validate_operation_id id ≡ ok tt → present id ≡ true
unfolding validate_operation_id is_uuid matches repeat
operation_id-present [] h = cc
operation_id-present (b ∷ bs) h = refl

timestamp-present : (t : Text) → validate_required_timestamp t ≡ ok tt → present t ≡ true
unfolding validate_required_timestamp
timestamp-present [] h = cc
timestamp-present (b ∷ bs) h = refl

module _ (r : DetailedOwnership) (source id at : Text) where
  mapping_identity_kept :
      (codec : Codec)
      → validate_mapping_identity codec (reconstructed r source id at)
        ≡ validate_mapping_identity codec (checked_allocation r)
  unfolding validate_mapping_identity
  mapping_identity_kept codec = refl

  request_identity_kept :
      (codec : Codec)
      → validate_request_identity codec (reconstructed r source id at)
        ≡ validate_request_identity codec (checked_allocation r)
  unfolding validate_request_identity
  request_identity_kept codec = refl

  logical_identity_kept :
      (codec : Codec)
      → validate_logical_identity codec (reconstructed r source id at)
        ≡ validate_logical_identity codec (checked_allocation r)
  unfolding validate_logical_identity
  logical_identity_kept codec = refl

  gc_fields_kept :
      validate_gc_fields (reconstructed r source id at) ≡ validate_gc_fields (checked_allocation r)
  unfolding validate_gc_fields validate_gc_request validate_gc_progress
  gc_fields_kept = refl

  prepared_delete_kept :
      validate_prepared_delete (reconstructed r source id at)
      ≡ validate_prepared_delete (checked_allocation r)
  unfolding validate_prepared_delete
  prepared_delete_kept = refl

  -- The states that an ownership record can have.
  state_kept :
      (s : AllocationState)
      → r.state ≡ s
      → (state_eq s ready || state_eq s deleting || state_eq s archived || state_eq s retained)
        ≡ true
      → validate_state (checked_allocation r) s ≡ ok tt
      → validate_state (reconstructed r source id at) s ≡ ok tt
  unfolding validate_state state_eq has_delete_fields
  state_kept ready e l h = ground arith
  state_kept deleting e l h = ground (arith, prepared_delete_kept)
  state_kept archived e l h = ground (arith, prepared_delete_kept)
  state_kept retained e l h = ground (arith, prepared_delete_kept)
  state_kept reserved e l h = cc
  state_kept creating_directory e l h = cc
  state_kept deleted e l h = cc
  state_kept (unsupported t) e l h = cc

  abbrev pub Recoverable : Type 0
  Recoverable =
      (validate_operation_id id ≡ ok tt)
      × (validate_required_timestamp at ≡ ok tt)
      × (((source ≡ text "ownership-only")) ⊎ (source ≡ text "pv-and-ownership"))

  recovery_fields_valid :
      Recoverable → validate_recovery_fields (reconstructed r source id at) ≡ ok tt
  unfolding validate_recovery_fields count_present
  recovery_fields_valid h = ground (
    arith,
    text_eq_refl source,
    operation_id-present id,
    timestamp-present at,
    text_eq_iff source (text "ownership-only"),
    text_eq_iff source (text "pv-and-ownership"),
  )

  lifecycle_kept :
      Recoverable
      → (state_eq r.state ready
          || state_eq r.state deleting
          || state_eq r.state archived
          || state_eq r.state retained)
        ≡ true
      → validate_lifecycle (checked_allocation r) ≡ ok tt
      → validate_lifecycle (reconstructed r source id at) ≡ ok tt
  unfolding validate_lifecycle
  lifecycle_kept recoverable state h = ground (
    arith,
    optional_kept at (
        r.delete_prepared_at ∷ r.delete_remove_started_at ∷ r.delete_completed_at ∷ []
        ∷ r.gc_requested_at ∷ r.gc_started_at ∷ r.gc_remove_started_at ∷ r.gc_completed_at ∷ []),
    recovery_fields_valid recoverable,
    gc_fields_kept,
    state_kept r.state refl state,
  )

  pub detailed_kept :
      (codec : Codec)
      → Recoverable
      → (state_eq r.state ready
          || state_eq r.state deleting
          || state_eq r.state archived
          || state_eq r.state retained)
        ≡ true
      → validate_detailed codec (checked_allocation r) ≡ ok tt
      → validate_detailed codec (reconstructed r source id at) ≡ ok tt
  unfolding validate_detailed
  detailed_kept codec recoverable state h = ground (
    arith,
    mapping_identity_kept codec,
    request_identity_kept codec,
    logical_identity_kept codec,
    lifecycle_kept recoverable state,
  )

  pub paired_kept :
      (paired_identity (reconstructed r source id at) r ≡ true)
      × (same_nodes (reconstructed r source id at) r ≡ true)
  unfolding paired_identity paired_request paired_parameters paired_mapping paired_directory
      same_nodes
  paired_kept = ground (
    arith,
    text_eq_refl r.schema_version,
    text_eq_refl r.driver_name,
    text_eq_refl r.installation_id,
    text_eq_refl r.active_cluster_uid,
    text_eq_refl r.create_volume_request_name,
    text_eq_refl r.request_hash,
    equal_create_parameters_iff r.normalized_create_parameters r.normalized_create_parameters,
    text_eq_refl r.volume_handle,
    text_eq_refl r.volume_handle_hash,
    text_eq_refl r.logical_volume_id,
    text_eq_refl r.mapping_hash,
    text_eq_refl r.pool_name,
    text_eq_refl r.parent_filesystem_id,
    text_eq_refl r.base_path,
    text_eq_refl r.base_path_hash,
    text_eq_refl r.directory_name,
    disposition_eq_iff r.delete_policy r.delete_policy,
    text_eq_refl r.directory_mode,
    text_eq_refl r.created_at,
    texts_eq_refl (nodes_of r.published_node_ids),
  )
