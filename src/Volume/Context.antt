-- ===== src/Volume/Context.antt =====
-- pkg/volume/context.go and context_match.go: the immutable context of a volume and its comparison
-- with the durable records.
use scaleway_file_storage_su.Prelude.{ℕ, Bool, not, ◌&&◌, ◌||◌, ltb}
use scaleway_file_storage_su.Prelude.Results.{Result, reject, ◌>>=◌, ◌>>◌}
use scaleway_file_storage_su.Prelude.Texts.{Text}
use scaleway_file_storage_su.Prelude.Equality.{◌=?◌, text_Eq, nat_eq}
use scaleway_file_storage_su.Volume.Request.{disposition_Eq}
use scaleway_file_storage_su.Volume.Errors.{
  VolumeError, bad_schema, identity_mismatch, bad_directory_owner, context_mismatch,
}
use scaleway_file_storage_su.Volume.Identifiers.{
  schema_version_v1, validate_installation_id, validate_cluster_uid, validate_pool_name,
  validate_parent_filesystem_id, validate_logical_volume_id,
}
use scaleway_file_storage_su.Volume.Paths.{validate_base_path, validate_directory_name}
use scaleway_file_storage_su.Volume.Request.{
  Disposition, validate_directory_mode, validate_policy, max_owner,
}
use scaleway_file_storage_su.Volume.Handle.{Codec, parse_handle, base_path_hash_of}
use scaleway_file_storage_su.Volume.Records.{DetailedAllocation}
use scaleway_file_storage_su.Volume.OwnershipRecords.{DetailedOwnership}
use scaleway_file_storage_su.Volume.Validation.{validate_detailed}
use scaleway_file_storage_su.Volume.Ownership.{Sealer, validate_detailed_ownership}

-- ImmutableContext
pub record ImmutableContext : Type 0 where
  pub schema_version : Text
  pub installation_id : Text
  pub active_cluster_uid : Text
  pub pool_name : Text
  pub parent_filesystem_id : Text
  pub base_path : Text
  pub base_path_hash : Text
  pub directory_name : Text
  pub directory_mode : Text
  pub directory_uid : ℕ
  pub directory_gid : ℕ
  pub delete_policy : Disposition
  pub logical_volume_id : Text

-- ImmutableContext.Validate
unfoldable pub validate_context : Codec → ImmutableContext → Result VolumeError (Unit {0})
validate_context codec context = do
  reject (not (context.schema_version =? schema_version_v1)) bad_schema
  validate_installation_id context.installation_id
  validate_cluster_uid context.active_cluster_uid
  validate_pool_name context.pool_name
  validate_parent_filesystem_id context.parent_filesystem_id
  validate_base_path context.base_path
  wanted ← base_path_hash_of codec context.base_path
  reject (not (context.base_path_hash =? wanted)) identity_mismatch
  validate_directory_name context.directory_name
  validate_directory_mode context.directory_mode
  reject (ltb max_owner context.directory_uid || ltb max_owner context.directory_gid)
      bad_directory_owner
  validate_policy context.delete_policy
  validate_logical_volume_id context.logical_volume_id

-- The comparisons of both functions, positively.
unfoldable pub matches_allocation : ImmutableContext → DetailedAllocation → Bool
matches_allocation context allocation =
    (context.schema_version =? allocation.schema_version)
    && (context.installation_id =? allocation.installation_id)
    && (context.active_cluster_uid =? allocation.active_cluster_uid)
    && (context.pool_name =? allocation.pool_name)
    && (context.parent_filesystem_id =? allocation.parent_filesystem_id)
    && (context.base_path =? allocation.base_path)
    && (context.base_path_hash =? allocation.base_path_hash)
    && (context.directory_name =? allocation.directory_name)
    && (context.directory_mode =? allocation.directory_mode)
    && (context.directory_uid =? allocation.directory_uid)
    && (context.directory_gid =? allocation.directory_gid)
    && (context.delete_policy =? allocation.delete_policy)
    && (context.logical_volume_id =? allocation.logical_volume_id)

unfoldable pub matches_ownership : ImmutableContext → DetailedOwnership → Bool
matches_ownership context ownership =
    (context.schema_version =? ownership.schema_version)
    && (context.installation_id =? ownership.installation_id)
    && (context.active_cluster_uid =? ownership.active_cluster_uid)
    && (context.pool_name =? ownership.pool_name)
    && (context.parent_filesystem_id =? ownership.parent_filesystem_id)
    && (context.base_path =? ownership.base_path)
    && (context.base_path_hash =? ownership.base_path_hash)
    && (context.directory_name =? ownership.directory_name)
    && (context.directory_mode =? ownership.directory_mode)
    && (context.directory_uid =? ownership.directory_uid)
    && (context.directory_gid =? ownership.directory_gid)
    && (context.delete_policy =? ownership.delete_policy)
    && (context.logical_volume_id =? ownership.logical_volume_id)

-- ValidateContextAgainstAllocation
unfoldable pub validate_context_against_allocation :
    Codec → Text → ImmutableContext → DetailedAllocation → Result VolumeError (Unit {0})
validate_context_against_allocation codec encoded context allocation = do
  validate_detailed codec allocation
  validate_context codec context
  handle ← parse_handle encoded
  reject
      (not (encoded =? allocation.volume_handle)
        || not (handle.logical_volume_id =? allocation.logical_volume_id)
        || not (handle.mapping_hash =? allocation.mapping_hash))
      context_mismatch
  reject (not (matches_allocation context allocation)) context_mismatch

-- ValidateContextAgainstOwnership
unfoldable pub validate_context_against_ownership :
    Sealer → Text → ImmutableContext → DetailedOwnership → Result VolumeError (Unit {0})
validate_context_against_ownership sealer encoded context ownership = do
  validate_detailed_ownership sealer ownership
  validate_context sealer.codec context
  handle ← parse_handle encoded
  reject
      (not (encoded =? ownership.volume_handle)
        || not (handle.logical_volume_id =? ownership.logical_volume_id)
        || not (handle.mapping_hash =? ownership.mapping_hash))
      context_mismatch
  reject (not (matches_ownership context ownership)) context_mismatch
