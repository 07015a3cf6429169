-- ===== src/Volume/Pairing/Agreement.antt =====
-- What an accepted pair of an allocation record and an ownership record agrees on.
use scaleway_file_storage_su.Prelude.{true, ◌≡◌, arith}
use scaleway_file_storage_su.Prelude.Results.{ok}
use scaleway_file_storage_su.Prelude.Texts.{text_eq_iff}
use scaleway_file_storage_su.Prelude.Equality.{text_Eq, nat_eq, texts_Eq}
use scaleway_file_storage_su.Volume.Request.{disposition_eq_iff, equal_create_parameters_iff}
use scaleway_file_storage_su.Volume.State.{AllocationState, state_eq_iff}
use scaleway_file_storage_su.Volume.Records.{DetailedAllocation, detailed_record, nodes_of}
use scaleway_file_storage_su.Volume.OwnershipRecords.{DetailedOwnership, detailed_ownership}
use scaleway_file_storage_su.Volume.Ownership.{Sealer}
use scaleway_file_storage_su.Volume.OwnershipTransition.Steps.{owner_identity, owner_creation}
use scaleway_file_storage_su.Volume.Transition.Identity.{identity_of, creation_of}
use scaleway_file_storage_su.Volume.Pairing.{
  paired_request, paired_parameters, paired_mapping, paired_directory, paired_identity, same_nodes,
  validate_pair, validate_detailed_pair,
}

paired_request-fields :
    (a : DetailedAllocation) (o : DetailedOwnership)
    → paired_request a o ≡ true
    → (a.driver_name ≡ o.driver_name)
      × (a.installation_id ≡ o.installation_id)
      × (a.active_cluster_uid ≡ o.active_cluster_uid)
      × (a.create_volume_request_name ≡ o.create_volume_request_name)
      × (a.request_hash ≡ o.request_hash)
unfolding paired_request
paired_request-fields a o h = ground (
  arith,
  text_eq_iff a.driver_name o.driver_name,
  text_eq_iff a.installation_id o.installation_id,
  text_eq_iff a.active_cluster_uid o.active_cluster_uid,
  text_eq_iff a.create_volume_request_name o.create_volume_request_name,
  text_eq_iff a.request_hash o.request_hash,
)

paired_parameters-fields :
    (a : DetailedAllocation) (o : DetailedOwnership)
    → paired_parameters a o ≡ true
    → (a.selected_capacity_bytes ≡ o.selected_capacity_bytes)
      × (a.normalized_create_parameters ≡ o.normalized_create_parameters)
unfolding paired_parameters
paired_parameters-fields a o h = ground (
  arith,
  equal_create_parameters_iff a.normalized_create_parameters o.normalized_create_parameters,
)

paired_mapping-fields :
    (a : DetailedAllocation) (o : DetailedOwnership)
    → paired_mapping a o ≡ true
    → (a.volume_handle ≡ o.volume_handle)
      × (a.volume_handle_hash ≡ o.volume_handle_hash)
      × (a.logical_volume_id ≡ o.logical_volume_id)
      × (a.mapping_hash ≡ o.mapping_hash)
      × (a.pool_name ≡ o.pool_name)
      × (a.parent_filesystem_id ≡ o.parent_filesystem_id)
      × (a.base_path ≡ o.base_path)
      × (a.directory_name ≡ o.directory_name)
unfolding paired_mapping
paired_mapping-fields a o h = ground (
  arith,
  text_eq_iff a.volume_handle o.volume_handle,
  text_eq_iff a.volume_handle_hash o.volume_handle_hash,
  text_eq_iff a.logical_volume_id o.logical_volume_id,
  text_eq_iff a.mapping_hash o.mapping_hash,
  text_eq_iff a.pool_name o.pool_name,
  text_eq_iff a.parent_filesystem_id o.parent_filesystem_id,
  text_eq_iff a.base_path o.base_path,
  text_eq_iff a.directory_name o.directory_name,
)

paired_directory-fields :
    (a : DetailedAllocation) (o : DetailedOwnership)
    → paired_directory a o ≡ true
    → (a.delete_policy ≡ o.delete_policy) × (a.created_at ≡ o.created_at)
unfolding paired_directory
paired_directory-fields a o h = ground (
  arith,
  disposition_eq_iff a.delete_policy o.delete_policy,
  text_eq_iff a.created_at o.created_at,
)

paired_identity-agree :
    (a : DetailedAllocation) (o : DetailedOwnership)
    → paired_identity a o ≡ true
    → (identity_of (detailed_record a) ≡ owner_identity (detailed_ownership o))
      × (creation_of a ≡ owner_creation o)
unfolding paired_identity owner_identity identity_of
paired_identity-agree a o h = ground (
  arith,
  paired_request-fields a o,
  paired_parameters-fields a o,
  paired_mapping-fields a o,
  paired_directory-fields a o,
)

-- An accepted detailed pair agrees on the owner, the volume and its hashes, on the request, the
-- capacity, the parameters, the mapping, the handle, the delete policy and the creation time, and on
-- the published nodes, and the ownership record has the expected state.
pub validate_detailed_pair-agree :
    (sealer : Sealer) (a : DetailedAllocation) (o : DetailedOwnership) (expected : AllocationState)
    → validate_detailed_pair sealer a o expected ≡ ok tt
    → (identity_of (detailed_record a) ≡ owner_identity (detailed_ownership o))
      × (creation_of a ≡ owner_creation o)
      × (nodes_of a.published_node_ids ≡ nodes_of o.published_node_ids)
      × (o.state ≡ expected)
unfolding validate_detailed_pair validate_pair same_nodes
validate_detailed_pair-agree sealer a o expected h = ground (
  arith,
  paired_identity-agree a o,
  texts_Eq.beq_iff (nodes_of a.published_node_ids) (nodes_of o.published_node_ids),
  state_eq_iff o.state expected,
)
