-- ===== src/Pool/Config.antt =====
-- pkg/pool/config.go: the configuration of one pool and of an installation.
pub mod Exclusive
use scaleway_file_storage_su.Prelude.{
  ℕ, Bool, true, false, not, ◌&&◌, ◌||◌, List, [], ◌∷◌, ◌++◌, Option, none, some, length, ltb, ◌==◌,
  map, if◌then◌else◌,
}
use scaleway_file_storage_su.Prelude.Results.{Result, ok, err, reject, map_err, ◌>>=◌, ◌>>◌}
use scaleway_file_storage_su.Prelude.Texts.{Text, text_eq}
use scaleway_file_storage_su.Volume.Errors.{VolumeError}
use scaleway_file_storage_su.Volume.Identifiers.{validate_pool_name, validate_parent_filesystem_id}
use scaleway_file_storage_su.Volume.Paths.{validate_base_path}
use scaleway_file_storage_su.Volume.Request.{
  Disposition, validate_policy, validate_directory_mode, max_owner, sort, compact,
}
use scaleway_file_storage_su.Pool.Errors.{PoolError}
use scaleway_file_storage_su.Pool.Ratio.{Ratio}
use scaleway_file_storage_su.Pool.Ratio

-- SelectionPolicy and ParentState: `other` holds the texts that are not a constant of the source.
pub data SelectionPolicy : Type 0 where
  least_allocated : SelectionPolicy
  other_policy : Text → SelectionPolicy

pub data ParentState : Type 0 where
  active draining : ParentState
  other_state : Text → ParentState

pub record ParentConfig : Type 0 where
  pub id : Text
  pub name : Text
  pub state : ParentState

pub record Config : Type 0 where
  pub name : Text
  pub base_path : Text
  pub selection_policy : SelectionPolicy
  pub max_parents_per_eligible_node : ℕ
  pub max_logical_overcommit_ratio : Ratio
  pub min_free_bytes : ℕ
  pub min_free_percent : ℕ
  pub delete_policy : Disposition
  pub directory_mode : Text
  pub directory_uid : ℕ
  pub directory_gid : ℕ
  pub filesystems : List ParentConfig

pub data ConfigError : Type 0 where
  -- a wrapped error of pkg/volume or of the ratio
  invalid_name invalid_base_path invalid_delete_policy invalid_directory_mode :
      VolumeError → ConfigError
  invalid_parent_id : VolumeError → ConfigError
  invalid_ratio : PoolError → ConfigError
  unsupported_policy zero_max_parents percent_outside owner_too_large : ConfigError
  no_parents too_many_parents duplicate_parent unsupported_parent_state : ConfigError
  no_pools duplicate_pool parent_in_two_pools : ConfigError

abbrev is_least_allocated : SelectionPolicy → Bool
is_least_allocated least_allocated = true
is_least_allocated (other_policy s) = false

abbrev pub is_known_state : ParentState → Bool
is_known_state active = true
is_known_state draining = true
is_known_state (other_state s) = false

-- A key of the map `seen`.
unfoldable pub member : Text → List Text → Bool
unfolding text_eq
member id [] = false
member id (key ∷ keys) = text_eq key id || member id keys

-- The loop over the parents of a pool, with the keys of `seen`.
validate_parents : List Text → List ParentConfig → Result ConfigError (Unit {0})
unfolding validate_parent_filesystem_id member
validate_parents seen [] = ok tt
validate_parents seen (parent ∷ parents) = do
  map_err invalid_parent_id (validate_parent_filesystem_id parent.id)
  reject (member parent.id seen) duplicate_parent
  reject (not (is_known_state parent.state)) unsupported_parent_state
  validate_parents (parent.id ∷ seen) parents

-- Config.Validate
unfoldable pub validate : Config → Result ConfigError (Unit {0})
unfolding validate_pool_name validate_base_path Ratio.validate validate_policy
    validate_directory_mode validate_parents
validate config = do
  map_err invalid_name (validate_pool_name config.name)
  map_err invalid_base_path (validate_base_path config.base_path)
  reject (not (is_least_allocated config.selection_policy)) unsupported_policy
  reject (config.max_parents_per_eligible_node == 0) zero_max_parents
  map_err invalid_ratio (Ratio.validate config.max_logical_overcommit_ratio)
  reject (ltb 100 config.min_free_percent) percent_outside
  map_err invalid_delete_policy (validate_policy config.delete_policy)
  map_err invalid_directory_mode (validate_directory_mode config.directory_mode)
  reject (ltb max_owner config.directory_uid || ltb max_owner config.directory_gid) owner_too_large
  reject (length config.filesystems == 0) no_parents
  reject (ltb config.max_parents_per_eligible_node (length config.filesystems)) too_many_parents
  validate_parents [] config.filesystems

-- The loop over one pool's parents, with the keys of `parentPools`.
claim_parents : List Text → List ParentConfig → Result ConfigError (List Text)
unfolding member
claim_parents claimed [] = ok claimed
claim_parents claimed (parent ∷ parents) = do
  reject (member parent.id claimed) parent_in_two_pools
  claim_parents (parent.id ∷ claimed) parents

-- The loop over the pools, with the keys of `poolNames` and `parentPools`.
claim_pools : List Text → List Text → List Config → Result ConfigError (Unit {0})
unfolding validate member claim_parents
claim_pools names claimed [] = ok tt
claim_pools names claimed (config ∷ configs) = do
  validate config
  reject (member config.name names) duplicate_pool
  claimed' ← claim_parents claimed config.filesystems
  claim_pools (config.name ∷ names) claimed' configs

-- ValidateConfigs
unfoldable pub validate_configs : List Config → Result ConfigError (Unit {0})
unfolding claim_pools
validate_configs configs = do reject (length configs == 0) no_pools; claim_pools [] [] configs

-- The identifiers of all parents in the order of the configuration.
abbrev pub all_parent_ids : List Config → List Text
all_parent_ids [] = []
all_parent_ids (config ∷ configs) =
    map (λ (p : ParentConfig). p.id) config.filesystems ++ all_parent_ids configs

-- ParentIDs
unfoldable pub parent_ids : List Config → List Text
unfolding sort compact
parent_ids configs = compact (sort (all_parent_ids configs))
