-- ===== src/Volume/Transition/Identity.antt =====
-- The creation and mapping identity of allocation records, and the comparisons of
-- pkg/volume/allocation_transition.go that keep it.
use scaleway_file_storage_su.Prelude.{ℕ, true, ◌≡◌, &&-true, ap, arith}
use scaleway_file_storage_su.Prelude.Texts.{Text, text_eq_iff}
use scaleway_file_storage_su.Prelude.Equality.{text_Eq, nat_eq}
use scaleway_file_storage_su.Volume.Request.{
  Disposition, CreateParameters, disposition_eq_iff, equal_create_parameters_iff,
}
use scaleway_file_storage_su.Volume.Handle.{Mapping}
use scaleway_file_storage_su.Volume.Records.{
  DetailedAllocation, CompactAllocation, AllocationRecord, detailed_record, compact_record,
  unknown_record,
}
use scaleway_file_storage_su.Volume.Validation.{mapping_of}
use scaleway_file_storage_su.Volume.Transition.{
  same_request, same_parameters, same_mapping, same_directory, detailed_immutable_equal,
  same_identity, compaction_equal,
}

-- What a volume was created with: its request, its capacity and where its data is.
pub record Creation : Type 0 where
  pub request_name : Text
  pub request_hash : Text
  pub capacity : ℕ
  pub parameters : CreateParameters
  pub mapping : Mapping
  pub handle : Text
  pub delete_policy : Disposition
  pub created_at : Text

abbrev pub creation_of : DetailedAllocation → Creation
creation_of r = record {
  request_name = r.create_volume_request_name;
  request_hash = r.request_hash;
  capacity = r.selected_capacity_bytes;
  parameters = r.normalized_create_parameters;
  mapping = mapping_of r;
  handle = r.volume_handle;
  delete_policy = r.delete_policy;
  created_at = r.created_at;
}

-- What every kind of record keeps: the owner, the volume and the hash of its mapping.
pub record Identity : Type 0 where
  pub driver_name : Text
  pub installation_id : Text
  pub cluster_uid : Text
  pub logical_volume_id : Text
  pub volume_handle_hash : Text
  pub mapping_hash : Text

unfoldable pub identity_of : AllocationRecord → Identity
identity_of (detailed_record r) = record {
  driver_name = r.driver_name;
  installation_id = r.installation_id;
  cluster_uid = r.active_cluster_uid;
  logical_volume_id = r.logical_volume_id;
  volume_handle_hash = r.volume_handle_hash;
  mapping_hash = r.mapping_hash;
}
identity_of (compact_record r) = record {
  driver_name = r.driver_name;
  installation_id = r.installation_id;
  cluster_uid = r.active_cluster_uid;
  logical_volume_id = r.logical_volume_id;
  volume_handle_hash = r.volume_handle_hash;
  mapping_hash = r.mapping_hash;
}
identity_of (unknown_record r) = record {
  driver_name = r.driver_name;
  installation_id = r.installation_id;
  cluster_uid = r.active_cluster_uid;
  logical_volume_id = r.logical_volume_id;
  volume_handle_hash = r.volume_handle_hash;
  mapping_hash = r.mapping_hash;
}

same_request-fields :
    (c n : DetailedAllocation)
    → same_request c n ≡ true
    → (c.driver_name ≡ n.driver_name)
      × (c.active_cluster_uid ≡ n.active_cluster_uid)
      × (c.installation_id ≡ n.installation_id)
      × (c.create_volume_request_name ≡ n.create_volume_request_name)
      × (c.request_hash ≡ n.request_hash)
unfolding same_request
same_request-fields c n h = ground (
  arith,
  text_eq_iff c.driver_name n.driver_name,
  text_eq_iff c.active_cluster_uid n.active_cluster_uid,
  text_eq_iff c.installation_id n.installation_id,
  text_eq_iff c.create_volume_request_name n.create_volume_request_name,
  text_eq_iff c.request_hash n.request_hash,
)

same_parameters-fields :
    (c n : DetailedAllocation)
    → same_parameters c n ≡ true
    → (c.selected_capacity_bytes ≡ n.selected_capacity_bytes)
      × (c.normalized_create_parameters ≡ n.normalized_create_parameters)
unfolding same_parameters
same_parameters-fields c n h = ground (
  arith,
  equal_create_parameters_iff c.normalized_create_parameters n.normalized_create_parameters,
)

same_mapping-fields :
    (c n : DetailedAllocation)
    → same_mapping c n ≡ true
    → (mapping_of c ≡ mapping_of n)
      × (c.volume_handle ≡ n.volume_handle)
      × (c.volume_handle_hash ≡ n.volume_handle_hash)
      × (c.mapping_hash ≡ n.mapping_hash)
unfolding same_mapping
same_mapping-fields c n h = ground (
  arith,
  text_eq_iff c.logical_volume_id n.logical_volume_id,
  text_eq_iff c.volume_handle n.volume_handle,
  text_eq_iff c.volume_handle_hash n.volume_handle_hash,
  text_eq_iff c.mapping_hash n.mapping_hash,
  text_eq_iff c.pool_name n.pool_name,
  text_eq_iff c.parent_filesystem_id n.parent_filesystem_id,
  text_eq_iff c.base_path n.base_path,
  text_eq_iff c.directory_name n.directory_name,
)

same_directory-fields :
    (c n : DetailedAllocation)
    → same_directory c n ≡ true
    → (c.delete_policy ≡ n.delete_policy) × (c.created_at ≡ n.created_at)
unfolding same_directory
same_directory-fields c n h = ground (
  arith,
  disposition_eq_iff c.delete_policy n.delete_policy,
  text_eq_iff c.created_at n.created_at,
)

pub detailed_immutable_equal-identity :
    (c n : DetailedAllocation)
    → detailed_immutable_equal c n ≡ true
    → (identity_of (detailed_record n) ≡ identity_of (detailed_record c))
      × (creation_of n ≡ creation_of c)
unfolding detailed_immutable_equal identity_of
detailed_immutable_equal-identity c n h =
    let (h₁, directory) = &&-true h in
    let (h₂, mapping) = &&-true h₁ in
    let (request, parameters) = &&-true h₂ in
    let (driver, cluster, installation, name, hash) = same_request-fields c n request in
    let (capacity, normalized) = same_parameters-fields c n parameters in
    let (map, handle, handle_hash, mapping_hash) = same_mapping-fields c n mapping in
    let (policy, created) = same_directory-fields c n directory in
    let logical_id : c.logical_volume_id ≡ n.logical_volume_id = ap Mapping.logical_volume_id map in
    (cc, cc)

pub compaction_equal-identity :
    (c : DetailedAllocation) (n : CompactAllocation)
    → compaction_equal c n ≡ true
    → identity_of (compact_record n) ≡ identity_of (detailed_record c)
unfolding compaction_equal same_identity identity_of
compaction_equal-identity c n h = ground (
  arith,
  text_eq_iff c.driver_name n.driver_name,
  text_eq_iff c.active_cluster_uid n.active_cluster_uid,
  text_eq_iff c.installation_id n.installation_id,
  text_eq_iff c.logical_volume_id n.logical_volume_id,
  text_eq_iff c.volume_handle_hash n.volume_handle_hash,
  text_eq_iff c.mapping_hash n.mapping_hash,
)
