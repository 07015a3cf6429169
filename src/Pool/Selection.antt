-- ===== src/Pool/Selection.antt =====
-- pkg/pool/selection.go: the placement decision. SHA-256 is a parameter, as is the error value that
-- a provider failure carries. The length of the validated list of parents is the size of the map
-- `configured`, since Config.Validate refuses duplicates.
pub mod Sound
pub mod Best
pub mod Checks
pub mod Refusal
pub mod Complete
pub mod Safety
mod Examples
use scaleway_file_storage_su.Prelude.{
  ℕ, suc, ◌+◌, Bool, true, false, not, ◌&&◌, ◌||◌, List, [], ◌∷◌, ◌++◌, Option, none, some, length,
  ltb, ◌==◌, if◌then◌else◌,
}
use scaleway_file_storage_su.Prelude.Results.{Result, ok, err, reject, map_err, ◌>>=◌, ◌>>◌}
use scaleway_file_storage_su.Prelude.Texts.{Text, text_eq}
use scaleway_file_storage_su.Prelude.Strings.{text_ltb}
use scaleway_file_storage_su.Pool.Errors.{PoolError, is_insufficient_physical_space}
use scaleway_file_storage_su.Pool.Capacity.{Capacity, calculate_capacity}
use scaleway_file_storage_su.Pool.StatFs.{StatFsSample, PhysicalSpace, check_physical_space}
use scaleway_file_storage_su.Pool.Config.{
  ParentState, ParentConfig, Config, ConfigError, active, draining, other_state, member,
}
use scaleway_file_storage_su.Pool.Config

pub record Candidate : Type 0 where
  pub parent : ParentConfig
  pub capacity : Capacity
  pub stat_fs : StatFsSample
  pub stat_fs_fresh : Bool
  pub provider_available : Bool
  pub provider_failure : Option Text
  pub provider_failure_transient : Bool
  pub node_compatible : Bool

pub record Selection : Type 0 where
  pub parent : ParentConfig
  pub capacity : Capacity
  pub physical_space : PhysicalSpace

pub data SelectionError : Type 0 where
  invalid_config : ConfigError → SelectionError
  empty_request_name zero_request not_configured duplicate_candidate : SelectionError
  state_differs available_without_capacity partial_unknown_capacity : SelectionError
  invalid_capacity : PoolError → SelectionError
  inconsistent_capacity incomplete_snapshot : SelectionError
  -- the sentinels of the source
  no_logical_capacity no_fresh_physical_space physical_capacity_exhausted : SelectionError
  parent_inventory_unavailable no_node_compatible_parent : SelectionError
  -- a terminal provider failure, passed on as it is
  provider_terminal : Text → SelectionError

-- The map `configured`: a later parent replaces an earlier one of the same identifier.
unfoldable pub configured : Text → List ParentConfig → Option ParentConfig
unfolding text_eq
configured id [] = none
configured id (parent ∷ parents) = elim (configured id parents) [
  | some later ↦ some later
  | none ↦ if text_eq parent.id id then some parent else none
]

unfoldable pub same_state : ParentState → ParentState → Bool
unfolding text_eq
same_state active active = true
same_state draining draining = true
same_state (other_state s) (other_state t) = text_eq s t
same_state _ _ = false

abbrev pub is_active : ParentState → Bool
is_active active = true
is_active _ = false

-- `==` of two capacities
unfoldable pub same_capacity : Capacity → Capacity → Bool
same_capacity a b =
    a.observed_size_bytes == b.observed_size_bytes
    && a.reserve_bytes == b.reserve_bytes
    && a.usable_bytes == b.usable_bytes
    && a.logical_capacity_bytes == b.logical_capacity_bytes
    && a.logical_allocated_bytes == b.logical_allocated_bytes
    && a.logical_available_bytes == b.logical_available_bytes

-- The zero value Capacity{}.
abbrev pub unknown_capacity : Capacity
unknown_capacity = record {
  observed_size_bytes = 0;
  reserve_bytes = 0;
  usable_bytes = 0;
  logical_capacity_bytes = 0;
  logical_allocated_bytes = 0;
  logical_available_bytes = 0;
}

-- validateCandidateCapacity
unfoldable pub validate_candidate_capacity : Config → Capacity → Result SelectionError (Unit {0})
unfolding same_capacity
validate_candidate_capacity config capacity = do
  want ← map_err invalid_capacity (
      calculate_capacity capacity.observed_size_bytes config.min_free_bytes config.min_free_percent
        config.max_logical_overcommit_ratio (capacity.logical_allocated_bytes ∷ []))
  reject (not (same_capacity capacity want)) inconsistent_capacity

check_capacity : Config → Candidate → Result SelectionError (Unit {0})
unfolding same_capacity
check_capacity config candidate =
    if candidate.capacity.observed_size_bytes == 0
    then (do
      reject candidate.provider_available available_without_capacity
      reject (not (same_capacity candidate.capacity unknown_capacity)) partial_unknown_capacity)
    else validate_candidate_capacity config candidate.capacity

check_configured : Config → Candidate → Option ParentConfig → Result SelectionError (Unit {0})
unfolding same_state
check_configured config candidate none = err not_configured
check_configured config candidate (some parent) = ok tt

check_state : Candidate → Option ParentConfig → Result SelectionError (Unit {0})
unfolding same_state
check_state candidate none = ok tt
check_state candidate (some parent) =
    reject (not (same_state candidate.parent.state parent.state)) state_differs

-- The first loop, with the keys of `seenCandidates`, which it returns.
pub check_candidates : Config → List Text → List Candidate → Result SelectionError (List Text)
check_candidates config seen [] = ok seen
check_candidates config seen (candidate ∷ candidates) = do
  let found = configured candidate.parent.id config.filesystems
  check_configured config candidate found
  reject (member candidate.parent.id seen) duplicate_candidate
  check_state candidate found
  check_capacity config candidate
  check_candidates config (candidate.parent.id ∷ seen) candidates

-- The variables of the second loop.
pub record Tally : Type 0 where
  pub logical_candidates : ℕ
  pub physical_failures : ℕ
  pub physical_exhausted : ℕ
  pub provider_unavailable : ℕ
  pub terminal_failure : Option Text
  pub node_incompatible : ℕ
  pub selected : Option Selection

abbrev pub empty_tally : Tally
empty_tally = record {
  logical_candidates = 0;
  physical_failures = 0;
  physical_exhausted = 0;
  provider_unavailable = 0;
  terminal_failure = none;
  node_incompatible = 0;
  selected = none;
}

-- `if providerTerminal == nil { providerTerminal = failure }`
abbrev keep_first : Option Text → Text → Option Text
keep_first none failure = some failure
keep_first (some first) failure = some first

-- A candidate whose provider observation is not usable.
abbrev unavailable : Tally → Candidate → Tally
unavailable t c = elim c.provider_failure [
  | none ↦ record t { provider_unavailable = suc t.provider_unavailable }
  | some failure ↦
      if c.provider_failure_transient
      then record t { provider_unavailable = suc t.provider_unavailable }
      else record t { terminal_failure = keep_first t.terminal_failure failure }
]

abbrev is_active_config : Option ParentConfig → Bool
is_active_config none = false
is_active_config (some parent) = is_active parent.state

module _ (sha256 : Text → Text) where
  -- sha256.Sum256([]byte(requestName + "\x00" + id))
  abbrev pub tie_hash : Text → ParentConfig → Text
  tie_hash request_name parent = sha256 (request_name ++ 0 ∷ parent.id)

  -- betterCandidate
  unfoldable pub better_candidate : Text → Selection → Selection → Bool
  better_candidate request_name candidate current =
      if not
        (candidate.capacity.logical_available_bytes == current.capacity.logical_available_bytes)
      then ltb current.capacity.logical_available_bytes candidate.capacity.logical_available_bytes
      else text_ltb (tie_hash request_name candidate.parent) (tie_hash request_name current.parent)

  -- `if selected == nil || betterCandidate(requestName, current, *selected)`
  choose : Text → Selection → Option Selection → Option Selection
  unfolding better_candidate
  choose request_name current none = some current
  choose request_name current (some selected) =
      if better_candidate request_name current selected then some current else some selected

  -- The physical check of one candidate, and its effect on the tally.
  measure : Text → Tally → ParentConfig → Capacity → Result PoolError PhysicalSpace → Tally
  unfolding choose
  measure request_name t parent capacity (err e) =
      if is_insufficient_physical_space e
      then record t { physical_exhausted = suc t.physical_exhausted }
      else record t { physical_failures = suc t.physical_failures }
  measure request_name t parent capacity (ok space) =
      let current : Selection = record {
        parent = parent;
        capacity = capacity;
        physical_space = space;
      } in
      record t { selected = choose request_name current t.selected }

  -- The body of the second loop for a candidate whose configured parent is active.
  consider_active : Config → Text → ℕ → Tally → ParentConfig → Candidate → Tally
  unfolding measure
  consider_active config request_name requested t parent c =
      if c.capacity.observed_size_bytes == 0
      then unavailable t c
      else if not c.provider_available
      then unavailable t c
      else if ltb c.capacity.logical_available_bytes requested
      then t
      else if not c.node_compatible
      then record t { node_incompatible = suc t.node_incompatible }
      else (let counted = record t { logical_candidates = suc t.logical_candidates } in
          if not c.stat_fs_fresh
          then record counted { physical_failures = suc counted.physical_failures }
          else measure request_name counted parent c.capacity (
              check_physical_space c.stat_fs c.capacity.observed_size_bytes requested
                config.min_free_bytes config.min_free_percent))

  consider_found : Config → Text → ℕ → Tally → Candidate → Option ParentConfig → Tally
  unfolding consider_active
  consider_found config request_name requested t c none = t
  consider_found config request_name requested t c (some parent) =
      if not (is_active parent.state) || not (is_active c.parent.state)
      then t
      else consider_active config request_name requested t parent c

  pub consider : Config → Text → ℕ → Tally → Candidate → Tally
  unfolding consider_found
  consider config request_name requested t c =
      consider_found config request_name requested t c (configured c.parent.id config.filesystems)

  -- The second loop.
  pub tally_candidates : Config → Text → ℕ → Tally → List Candidate → Tally
  unfolding consider
  tally_candidates config request_name requested t [] = t
  tally_candidates config request_name requested t (c ∷ cs) =
      tally_candidates config request_name requested (consider config request_name requested t c) cs

-- The decision after the loop.
pub decide_failure : Tally → SelectionError
decide_failure t =
    if ltb 0 t.provider_unavailable then parent_inventory_unavailable else elim t.terminal_failure [
      | some failure ↦ provider_terminal failure
      | none ↦
          if ltb 0 t.node_incompatible
          then no_node_compatible_parent
          else if ltb 0 t.logical_candidates
              && (ltb 0 t.physical_failures
                  && t.physical_failures + t.physical_exhausted == t.logical_candidates)
          then no_fresh_physical_space
          else if ltb 0 t.logical_candidates && t.physical_exhausted == t.logical_candidates
          then physical_capacity_exhausted
          else no_logical_capacity
    ]

pub conclude : Tally → Option Selection → Result SelectionError Selection
unfolding decide_failure
conclude t (some selection) = ok selection
conclude t none = err (decide_failure t)

-- Select
unfoldable pub select :
    (Text → Text) → Config → Text → ℕ → List Candidate → Result SelectionError Selection
select sha256 config request_name requested candidates = do
  map_err invalid_config (Config.validate config)
  reject (text_eq request_name []) empty_request_name
  reject (requested == 0) zero_request
  seen ← check_candidates config [] candidates
  reject (not (length seen == length config.filesystems)) incomplete_snapshot
  let t = tally_candidates sha256 config request_name requested empty_tally candidates
  conclude t t.selected
