-- ===== src/Volume/OwnershipTransition/Steps.antt =====
-- What an accepted update of a durable ownership record keeps.
use scaleway_file_storage_su.Prelude.{ℕ, ◌+◌, true, ◌≡◌, refl, arith, ==_iff}
use scaleway_file_storage_su.Prelude.Words.{u64}
use scaleway_file_storage_su.Prelude.Results.{ok}
use scaleway_file_storage_su.Prelude.Texts.{text_eq_iff}
use scaleway_file_storage_su.Prelude.Equality.{text_Eq, nat_eq}
use scaleway_file_storage_su.Volume.Request.{disposition_eq_iff, equal_create_parameters_iff}
use scaleway_file_storage_su.Volume.Handle.{Mapping}
use scaleway_file_storage_su.Volume.State.{
  AllocationState, deleting, archived, deleted, retained, unsupported, state_eq, state_eq_iff,
  ownership_transition,
}
use scaleway_file_storage_su.Volume.OwnershipRecords.{
  DetailedOwnership, CompactOwnership, OwnershipRecord, detailed_ownership, compact_ownership,
  owner_state,
}
use scaleway_file_storage_su.Volume.Ownership.{
  Sealer, validate_ownership, validate_compact_ownership, validate_compact_payload,
}
use scaleway_file_storage_su.Volume.OwnershipTransition.{
  owner_same_request, owner_same_parameters, owner_same_mapping, owner_same_directory,
  owner_immutable_equal, owner_same_identity, owner_compaction_equal,
  validate_detailed_ownership_update, validate_ownership_compaction, validate_ownership_successor,
  validate_ownership_update,
}
use scaleway_file_storage_su.Volume.Transition.Identity.{Creation, Identity}
use scaleway_file_storage_su.Volume.Transition.Steps.{progress, Forward}

abbrev pub owner_mapping : DetailedOwnership → Mapping
owner_mapping r = record {
  pool_name = r.pool_name;
  parent_filesystem_id = r.parent_filesystem_id;
  base_path = r.base_path;
  directory_name = r.directory_name;
  logical_volume_id = r.logical_volume_id;
}

abbrev pub owner_creation : DetailedOwnership → Creation
owner_creation r = record {
  request_name = r.create_volume_request_name;
  request_hash = r.request_hash;
  capacity = r.selected_capacity_bytes;
  parameters = r.normalized_create_parameters;
  mapping = owner_mapping r;
  handle = r.volume_handle;
  delete_policy = r.delete_policy;
  created_at = r.created_at;
}

unfoldable pub owner_identity : OwnershipRecord → Identity
owner_identity (detailed_ownership r) = record {
  driver_name = r.driver_name;
  installation_id = r.installation_id;
  cluster_uid = r.active_cluster_uid;
  logical_volume_id = r.logical_volume_id;
  volume_handle_hash = r.volume_handle_hash;
  mapping_hash = r.mapping_hash;
}
owner_identity (compact_ownership r) = record {
  driver_name = r.driver_name;
  installation_id = r.installation_id;
  cluster_uid = r.active_cluster_uid;
  logical_volume_id = r.logical_volume_id;
  volume_handle_hash = r.volume_handle_hash;
  mapping_hash = r.mapping_hash;
}

owner_same_request-fields :
    (c : DetailedOwnership) (n : DetailedOwnership)
    → owner_same_request c n ≡ true
    → (c.driver_name ≡ n.driver_name)
      × (c.installation_id ≡ n.installation_id)
      × (c.active_cluster_uid ≡ n.active_cluster_uid)
      × (c.create_volume_request_name ≡ n.create_volume_request_name)
      × (c.request_hash ≡ n.request_hash)
unfolding owner_same_request
owner_same_request-fields c n h = ground (
  arith,
  text_eq_iff c.driver_name n.driver_name,
  text_eq_iff c.installation_id n.installation_id,
  text_eq_iff c.active_cluster_uid n.active_cluster_uid,
  text_eq_iff c.create_volume_request_name n.create_volume_request_name,
  text_eq_iff c.request_hash n.request_hash,
)

owner_same_parameters-fields :
    (c : DetailedOwnership) (n : DetailedOwnership)
    → owner_same_parameters c n ≡ true
    → (c.selected_capacity_bytes ≡ n.selected_capacity_bytes)
      × (c.normalized_create_parameters ≡ n.normalized_create_parameters)
unfolding owner_same_parameters
owner_same_parameters-fields c n h = ground (
  arith,
  equal_create_parameters_iff c.normalized_create_parameters n.normalized_create_parameters,
)

owner_same_mapping-fields :
    (c : DetailedOwnership) (n : DetailedOwnership)
    → owner_same_mapping c n ≡ true
    → (c.volume_handle ≡ n.volume_handle)
      × (c.volume_handle_hash ≡ n.volume_handle_hash)
      × (c.logical_volume_id ≡ n.logical_volume_id)
      × (c.mapping_hash ≡ n.mapping_hash)
      × (c.pool_name ≡ n.pool_name)
      × (c.parent_filesystem_id ≡ n.parent_filesystem_id)
      × (c.base_path ≡ n.base_path)
      × (c.directory_name ≡ n.directory_name)
unfolding owner_same_mapping
owner_same_mapping-fields c n h = ground (
  arith,
  text_eq_iff c.volume_handle n.volume_handle,
  text_eq_iff c.volume_handle_hash n.volume_handle_hash,
  text_eq_iff c.logical_volume_id n.logical_volume_id,
  text_eq_iff c.mapping_hash n.mapping_hash,
  text_eq_iff c.pool_name n.pool_name,
  text_eq_iff c.parent_filesystem_id n.parent_filesystem_id,
  text_eq_iff c.base_path n.base_path,
  text_eq_iff c.directory_name n.directory_name,
)

owner_same_directory-fields :
    (c : DetailedOwnership) (n : DetailedOwnership)
    → owner_same_directory c n ≡ true
    → (c.delete_policy ≡ n.delete_policy) × (c.created_at ≡ n.created_at)
unfolding owner_same_directory
owner_same_directory-fields c n h = ground (
  arith,
  disposition_eq_iff c.delete_policy n.delete_policy,
  text_eq_iff c.created_at n.created_at,
)

owner_same_identity-fields :
    (c : DetailedOwnership) (n : CompactOwnership)
    → owner_same_identity c n ≡ true
    → (c.driver_name ≡ n.driver_name)
      × (c.installation_id ≡ n.installation_id)
      × (c.active_cluster_uid ≡ n.active_cluster_uid)
      × (c.logical_volume_id ≡ n.logical_volume_id)
      × (c.volume_handle_hash ≡ n.volume_handle_hash)
      × (c.mapping_hash ≡ n.mapping_hash)
unfolding owner_same_identity
owner_same_identity-fields c n h = ground (
  arith,
  text_eq_iff c.driver_name n.driver_name,
  text_eq_iff c.installation_id n.installation_id,
  text_eq_iff c.active_cluster_uid n.active_cluster_uid,
  text_eq_iff c.logical_volume_id n.logical_volume_id,
  text_eq_iff c.volume_handle_hash n.volume_handle_hash,
  text_eq_iff c.mapping_hash n.mapping_hash,
)

immutable_equal-identity :
    (c n : DetailedOwnership)
    → owner_immutable_equal c n ≡ true
    → (owner_identity (detailed_ownership n) ≡ owner_identity (detailed_ownership c))
      × (owner_creation n ≡ owner_creation c)
unfolding owner_immutable_equal owner_identity
immutable_equal-identity c n h = ground (
  arith,
  owner_same_request-fields c n,
  owner_same_parameters-fields c n,
  owner_same_mapping-fields c n,
  owner_same_directory-fields c n,
)

owner_transition-progress : (s t : AllocationState) → ownership_transition s t ≡ true → Forward s t
unfolding ownership_transition state_eq progress
owner_transition-progress (unsupported s) t h = ground (arith, state_eq_iff (unsupported s) t)
owner_transition-progress s t h = ground arith

compact-state :
    (sealer : Sealer) (n : CompactOwnership)
    → validate_compact_ownership sealer n ≡ ok tt
    → n.state ≡ deleted
unfolding validate_compact_ownership validate_compact_payload
compact-state sealer n h = ground (arith, state_eq_iff n.state deleted)

unfoldable pub owner_revision : OwnershipRecord → ℕ
owner_revision (detailed_ownership r) = r.revision
owner_revision (compact_ownership r) = r.revision

abbrev pub NextOwnership : OwnershipRecord → OwnershipRecord → Type 0
NextOwnership a b =
    (owner_identity b ≡ owner_identity a)
    × Forward (owner_state a) (owner_state b)
    × (owner_revision b ≡ u64 (owner_revision a + 1))

detailed-step :
    (c n : DetailedOwnership)
    → validate_detailed_ownership_update c n ≡ ok tt
    → NextOwnership (detailed_ownership c) (detailed_ownership n)
      × (owner_creation n ≡ owner_creation c)
unfolding validate_detailed_ownership_update owner_revision owner_state
detailed-step c n h = ground (
  arith,
  ==_iff n.revision (u64 (c.revision + 1)),
  immutable_equal-identity c n,
  owner_transition-progress c.state n.state,
)

compaction-step :
    (c : DetailedOwnership) (n : CompactOwnership)
    → n.state ≡ deleted
    → validate_ownership_compaction c n ≡ ok tt
    → NextOwnership (detailed_ownership c) (compact_ownership n)
unfolding validate_ownership_compaction owner_compaction_equal owner_revision owner_state
    owner_identity progress
compaction-step c n tombstone h = ground (
  arith,
  ==_iff n.revision (u64 (c.revision + 1)),
  owner_same_identity-fields c n,
  state_eq_iff c.state deleting,
  state_eq_iff c.state archived,
  state_eq_iff c.state retained,
)

-- An accepted update of an ownership record starts at a detailed record, keeps the owner, the logical
-- volume and the hashes of handle and mapping, never moves the lifecycle backward, keeps the state
-- where it keeps its place, and adds one to the uint64 revision.
pub validate_ownership_update-step :
    (sealer : Sealer) (a b : OwnershipRecord)
    → validate_ownership_update sealer a b ≡ ok tt
    → ((c : DetailedOwnership) × (a ≡ detailed_ownership c)) × NextOwnership a b
unfolding validate_ownership_update validate_ownership_successor validate_ownership
validate_ownership_update-step sealer (detailed_ownership c) (detailed_ownership n) h =
    ((c, refl), ground (arith, detailed-step c n))
validate_ownership_update-step sealer (detailed_ownership c) (compact_ownership n) h =
    ((c, refl), ground (arith, compact-state sealer n, compaction-step c n))
validate_ownership_update-step sealer (compact_ownership c) b h = ground arith
