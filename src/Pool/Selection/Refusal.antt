-- ===== src/Pool/Selection/Refusal.antt =====
-- What the errors of a refused placement mean.
use scaleway_file_storage_su.Prelude.{
  ℕ, ◌+◌, ◌<◌, ◌≤◌, ◌≡◌, refl, subst, true, ◌⊎◌, inl, inr, List, [], ◌∷◌, Option, none, some, Elem,
  arith, ◌==◌, length, not,
}
use scaleway_file_storage_su.Prelude.Results.{err, reject, map_err, Result-cases}
use scaleway_file_storage_su.Prelude.Texts.{Text, text_eq}
use scaleway_file_storage_su.Pool.Config.{Config, ParentConfig, member}
use scaleway_file_storage_su.Pool.Config
use scaleway_file_storage_su.Pool.Errors.{PoolError, is_insufficient_physical_space}
use scaleway_file_storage_su.Pool.StatFs.{check_physical_space}
use scaleway_file_storage_su.Pool.Selection.{
  Candidate, Selection, Tally, SelectionError, configured, is_active, check_candidates, empty_tally,
  consider, tally_candidates, decide_failure, conclude, select, no_logical_capacity,
  physical_capacity_exhausted, invalid_config, empty_request_name, zero_request,
  incomplete_snapshot,
}
use scaleway_file_storage_su.Pool.Selection.Checks.{
  is_refusal, skip-step, reject-not_refused, map_err-not_refused, check_candidates-not_refused,
}

-- While nothing is selected, every logical candidate has failed one of the two physical checks.
Balanced : Tally → Type 0
Balanced t = (t.selected ≡ none) → t.physical_failures + t.physical_exhausted ≡ t.logical_candidates

-- A candidate that Select may place on, as far as its configured and its own state go.
abbrev pub IsPlaceable : Config → Candidate → Type 0
IsPlaceable config c =
    (is_active c.parent.state ≡ true)
    × ((p : ParentConfig) × (configured c.parent.id config.filesystems ≡ some p)
        × (is_active p.state ≡ true))

conclude-err :
    (t : Tally) (o : Option Selection) {e : SelectionError}
    → conclude t o ≡ err e
    → (o ≡ none) × (decide_failure t ≡ e)
unfolding conclude
conclude-err t none h = (refl, cc)
conclude-err t (some s) h = cc

module _ (sha256 : Text → Text) (config : Config) (request_name : Text) (requested : ℕ) where
  abbrev after : Tally → Candidate → Tally
  after = consider sha256 config request_name requested

  abbrev all_after : Tally → List Candidate → Tally
  all_after = tally_candidates sha256 config request_name requested

  consider-Balanced : (t : Tally) (c : Candidate) → Balanced t → Balanced (after t c)
  unfolding Balanced consider
  consider-Balanced t c h none_selected = ground (arith, h)

  -- The counters never fall, and a placeable candidate that has room or is unknown raises one.
  record Grows (t u : Tally) : Type 0 where
    logical : t.logical_candidates ≤ u.logical_candidates
    exhausted : t.physical_exhausted ≤ u.physical_exhausted
    unavailable : t.provider_unavailable ≤ u.provider_unavailable
    incompatible : t.node_incompatible ≤ u.node_incompatible
    failures : t.physical_failures ≤ u.physical_failures
    terminal : u.terminal_failure ≡ none → t.terminal_failure ≡ none
    unselected : u.selected ≡ none → t.selected ≡ none

  consider-Grows : (t : Tally) (c : Candidate) → Grows t (after t c)
  unfolding consider
  consider-Grows t c = ground arith

  -- A fresh sample proves that the parent's physical space does not suffice.
  abbrev pub Insufficient : Candidate → Type 0
  Insufficient c =
      (c.stat_fs_fresh ≡ true)
      × ((e : PoolError) × (check_physical_space c.stat_fs c.capacity.observed_size_bytes requested
              config.min_free_bytes config.min_free_percent
            ≡ err e)
          × (is_insufficient_physical_space e ≡ true))

  -- Why a placeable candidate has raised no counter of the first three kinds.
  record Settled (c : Candidate) (u : Tally) : Type 0 where
    known :
        u.provider_unavailable ≡ 0
        → u.terminal_failure ≡ none
        → (c.provider_available ≡ true) × (0 < c.capacity.observed_size_bytes)
    full :
        u.provider_unavailable ≡ 0
        → u.terminal_failure ≡ none
        → u.node_incompatible ≡ 0
        → u.logical_candidates ≡ 0
        → c.capacity.logical_available_bytes < requested
    compatible :
        u.provider_unavailable ≡ 0
        → u.terminal_failure ≡ none
        → u.node_incompatible ≡ 0
        → (c.capacity.logical_available_bytes < requested) ⊎ (c.node_compatible ≡ true)
    insufficient :
        u.provider_unavailable ≡ 0
        → u.terminal_failure ≡ none
        → u.node_incompatible ≡ 0
        → u.physical_failures ≡ 0
        → u.selected ≡ none
        → (c.capacity.logical_available_bytes < requested) ⊎ Insufficient c

  consider-Settled : (t : Tally) (c : Candidate) → IsPlaceable config c → Settled c (after t c)
  unfolding consider
  consider-Settled t c (own, (p, found, conf)) =
      elim (Result-cases (
        check_physical_space c.stat_fs c.capacity.observed_size_bytes requested
          config.min_free_bytes config.min_free_percent)) [
            | inl (space, e) ↦ record {
              known = ground arith;
              full = ground arith;
              compatible = ground arith;
              insufficient = ground arith;
            }
            | inr (x, e) ↦ record {
              known = ground arith;
              full = ground arith;
              compatible = ground arith;
              insufficient = ground arith;
            }
          ]

  Grows-Settled : (c : Candidate) (t u : Tally) → Grows t u → Settled c t → Settled c u
  Grows-Settled c t u g s = record {
    known = λ a b. s.known (omega (arith, g, a)) (g.terminal b);
    full = λ a b d e.
        s.full (omega (arith, g, a)) (g.terminal b) (omega (arith, g, d)) (omega (arith, g, e));
    compatible = λ a b d. s.compatible (omega (arith, g, a)) (g.terminal b) (omega (arith, g, d));
    insufficient = λ a b d e f.
        s.insufficient (omega (arith, g, a)) (g.terminal b) (omega (arith, g, d))
          (omega (arith, g, e)) (g.unselected f);
  }

  all_after-Settled_kept :
      (c : Candidate) (t : Tally) (cs : List Candidate) → Settled c t → Settled c (all_after t cs)
  unfolding tally_candidates
  all_after-Settled_kept c t [] s = s
  all_after-Settled_kept c t (d ∷ ds) s =
      all_after-Settled_kept c (after t d) ds (Grows-Settled c t (after t d) (consider-Grows t d) s)

  all_after-Settled :
      (c : Candidate) (t : Tally) (cs : List Candidate)
      → IsPlaceable config c
      → Elem c cs
      → Settled c (all_after t cs)
  unfolding tally_candidates
  all_after-Settled c t [] p m = absurd m
  all_after-Settled c t (d ∷ ds) p (inl e) =
      all_after-Settled_kept c (after t d) ds
        (subst (λ (k : Candidate). Settled c (after t k)) e (consider-Settled t c p))
  all_after-Settled c t (d ∷ ds) p (inr m) = all_after-Settled c (after t d) ds p m

  all_after-Balanced : (t : Tally) (cs : List Candidate) → Balanced t → Balanced (all_after t cs)
  unfolding tally_candidates
  all_after-Balanced t [] b = b
  all_after-Balanced t (d ∷ ds) b = all_after-Balanced (after t d) ds (consider-Balanced t d b)

  -- A refusal is the decision over the final tally, in which nothing is selected.
  select-refused :
      (candidates : List Candidate) {e : SelectionError}
      → select sha256 config request_name requested candidates ≡ err e
      → is_refusal e ≡ true
      → ((all_after empty_tally candidates).selected ≡ none)
        × (decide_failure (all_after empty_tally candidates) ≡ e)
  unfolding select
  select-refused candidates {e} h r =
      let t = all_after empty_tally candidates in
      let (v, h1) =
        skip-step (map_err invalid_config (Config.validate config)) _ {e = e}
          (map_err-not_refused invalid_config (Config.validate config) (λ x. refl)) h r in
      let (n, h2) =
        skip-step (reject (text_eq request_name []) empty_request_name) _ {e = e}
          (reject-not_refused (text_eq request_name []) empty_request_name refl) h1 r in
      let (z, h3) =
        skip-step (reject (requested == 0) zero_request) _ {e = e}
          (reject-not_refused (requested == 0) zero_request refl) h2 r in
      let (seen, h4) =
        skip-step (check_candidates config [] candidates) _ {e = e}
          (check_candidates-not_refused config [] candidates) h3 r in
      let (c, h5) =
        skip-step (reject (not (length seen == length config.filesystems)) incomplete_snapshot)
          (λ _. conclude t t.selected) {e = e}
          (reject-not_refused (not (length seen == length config.filesystems)) incomplete_snapshot
            refl)
          h4 r in
      conclude-err t t.selected h5

  decide-no_logical :
      (t : Tally)
      → Balanced t
      → t.selected ≡ none
      → decide_failure t ≡ no_logical_capacity
      → (t.provider_unavailable ≡ 0)
        × (t.terminal_failure ≡ none)
        × (t.node_incompatible ≡ 0)
        × (t.logical_candidates ≡ 0)
  unfolding decide_failure Balanced
  decide-no_logical t b n h = ground (arith, b n)

  decide-exhausted :
      (t : Tally)
      → Balanced t
      → t.selected ≡ none
      → decide_failure t ≡ physical_capacity_exhausted
      → (t.provider_unavailable ≡ 0)
        × (t.terminal_failure ≡ none)
        × (t.node_incompatible ≡ 0)
        × (t.physical_failures ≡ 0)
  unfolding decide_failure Balanced
  decide-exhausted t b n h = ground (arith, b n)

  empty-Balanced : Balanced empty_tally
  unfolding Balanced
  empty-Balanced h = refl

  -- ErrNoLogicalCapacity is conclusive: every placeable candidate has an available provider
  -- observation and fewer available bytes than requested.
  pub no_logical_capacity-conclusive :
      (candidates : List Candidate) (c : Candidate)
      → select sha256 config request_name requested candidates ≡ err no_logical_capacity
      → Elem c candidates
      → IsPlaceable config c
      → (c.provider_available ≡ true) × (c.capacity.logical_available_bytes < requested)
  no_logical_capacity-conclusive candidates c h m p =
      let t = all_after empty_tally candidates in
      let (unselected, decided) = select-refused candidates h refl in
      let (a, b, d, e) =
        decide-no_logical t (all_after-Balanced empty_tally candidates empty-Balanced) unselected
          decided in
      let s = all_after-Settled c empty_tally candidates p m in ((s.known a b).0, s.full a b d e)

  -- ErrPhysicalCapacityExhausted is conclusive: every placeable candidate has an available provider
  -- observation, and either fewer available bytes than requested or a fresh sample whose physical
  -- check fails for insufficient space.
  pub physical_capacity_exhausted-conclusive :
      (candidates : List Candidate) (c : Candidate)
      → select sha256 config request_name requested candidates ≡ err physical_capacity_exhausted
      → Elem c candidates
      → IsPlaceable config c
      → (c.provider_available ≡ true)
        × ((c.capacity.logical_available_bytes < requested) ⊎ Insufficient c)
  physical_capacity_exhausted-conclusive candidates c h m p =
      let t = all_after empty_tally candidates in
      let (unselected, decided) = select-refused candidates h refl in
      let (a, b, d, e) =
        decide-exhausted t (all_after-Balanced empty_tally candidates empty-Balanced) unselected
          decided in
      let s = all_after-Settled c empty_tally candidates p m in
      ((s.known a b).0, s.insufficient a b d e unselected)
