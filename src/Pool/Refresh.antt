-- ===== src/Pool/Refresh.antt =====
-- pkg/pool/refresh.go: the tracker of a parent's provider metadata. The mutex makes each call one
-- step on the snapshot. An instant is its number of nanoseconds; 0 is Go's zero time.
pub mod History
use scaleway_file_storage_su.Prelude.{
  ℕ, Bool, true, false, not, ◌&&◌, ◌||◌, List, [], ◌∷◌, ltb, leb, ◌==◌, if◌then◌else◌,
}
use scaleway_file_storage_su.Prelude.Results.{Result, ok, err}

pub data ParentCondition : Type 0 where
  healthy critical_size_regression : ParentCondition
  -- the zero value of the Go type
  unset : ParentCondition

pub record Observation : Type 0 where
  pub size_bytes : ℕ
  pub observed_at : ℕ

pub record Snapshot : Type 0 where
  pub accepted_size_bytes : ℕ
  pub observed_size_bytes : ℕ
  pub previous_size_bytes : ℕ
  pub condition : ParentCondition
  pub observed_at : ℕ

-- The zero value of ParentMetadataTracker.
abbrev pub empty_snapshot : Snapshot
empty_snapshot = record {
  accepted_size_bytes = 0;
  observed_size_bytes = 0;
  previous_size_bytes = 0;
  condition = unset;
  observed_at = 0;
}

pub data RefreshError : Type 0 where
  incomplete_observation stale_observation : RefreshError

abbrev store : Snapshot → Snapshot × Result RefreshError Snapshot
store s = (s, ok s)

-- Observe: the snapshot kept, and the result.
unfoldable pub observe : Snapshot → Observation → Snapshot × Result RefreshError Snapshot
observe current observation =
    if size == 0 || now == 0
    then (current, err incomplete_observation)
    else if current.accepted_size_bytes == 0
    then store (record {
      accepted_size_bytes = size;
      observed_size_bytes = size;
      previous_size_bytes = size;
      condition = healthy;
      observed_at = now;
    })
    else if now == current.observed_at && size == current.observed_size_bytes
    then (current, ok current)
    else if not (ltb current.observed_at now)
    then (current, err stale_observation)
    else if ltb size current.accepted_size_bytes
    then store (record {
      accepted_size_bytes = current.accepted_size_bytes;
      observed_size_bytes = size;
      previous_size_bytes = current.accepted_size_bytes;
      condition = critical_size_regression;
      observed_at = now;
    })
    else store (record {
      accepted_size_bytes = size;
      observed_size_bytes = size;
      previous_size_bytes = current.accepted_size_bytes;
      condition = healthy;
      observed_at = now;
    })
  where
    open observation use {size_bytes as size, observed_at as now}

abbrev is_healthy : ParentCondition → Bool
is_healthy healthy = true
is_healthy _ = false

-- PlacementAllowed
unfoldable pub placement_allowed : Snapshot → Bool
placement_allowed s =
    is_healthy s.condition
    && ltb 0 s.accepted_size_bytes
    && leb s.accepted_size_bytes s.observed_size_bytes

-- A history of calls of Observe on one tracker.
unfoldable pub observe_all : Snapshot → List Observation → Snapshot
observe_all s [] = s
observe_all s (o ∷ os) = observe_all (observe s o).0 os
