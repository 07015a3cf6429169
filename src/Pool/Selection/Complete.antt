-- ===== src/Pool/Selection/Complete.antt =====
-- Select of pkg/pool/selection.go on a complete and consistent snapshot of the pool.
use scaleway_file_storage_su.Prelude.{
  ℕ, ◌+◌, ◌<◌, ◌≡◌, ◌≢◌, refl, sym, ◌∙◌, subst, true, false, ◌⊎◌, inl, inr, List, [], ◌∷◌, map,
  Option, none, some, All, All-Elem, Elem, Distinct, arith, ◌==◌, ==_iff, length, Option-cases,
}
use scaleway_file_storage_su.Prelude.Results.{ok}
use scaleway_file_storage_su.Prelude.Texts.{Text, text_eq, text_eq_iff, text_eq_refl}
use scaleway_file_storage_su.Prelude.DistinctTexts.{Distinct-length-le, length-map}
use scaleway_file_storage_su.Pool.Config.{
  Config, ParentConfig, ParentState, member, active, draining, other_state,
}
use scaleway_file_storage_su.Pool.Config
use scaleway_file_storage_su.Pool.Config.Exclusive.{member_iff, validate-Distinct}
use scaleway_file_storage_su.Pool.Capacity.{Capacity, calculate_capacity}
use scaleway_file_storage_su.Pool.Selection.{
  Candidate, Selection, Tally, configured, check_candidates, check_configured, check_state,
  check_capacity, validate_candidate_capacity, same_capacity, same_state, unknown_capacity,
  empty_tally, tally_candidates, conclude, select, better_candidate,
}
use scaleway_file_storage_su.Pool.Selection.Sound.{Fits}
use scaleway_file_storage_su.Pool.Selection.Best.{Covers, tally-Covers-Elem}

abbrev pub parent_ids_of : List ParentConfig → List Text
parent_ids_of parents = map (λ (p : ParentConfig). p.id) parents

abbrev pub candidate_ids : List Candidate → List Text
candidate_ids candidates = map (λ (c : Candidate). c.parent.id) candidates

-- The candidate reports the configured state, and either the capacity that the accounting of its
-- observed size gives, or no capacity with an unavailable provider.
abbrev pub IsConsistent : Config → Candidate → Type 0
IsConsistent config c =
    ((p : ParentConfig) × (configured c.parent.id config.filesystems ≡ some p)
      × (c.parent.state ≡ p.state))
    × ((c.capacity ≡ unknown_capacity) × (c.provider_available ≡ false)
        ⊎ (0 < c.capacity.observed_size_bytes)
          × (calculate_capacity c.capacity.observed_size_bytes config.min_free_bytes
                config.min_free_percent config.max_logical_overcommit_ratio
                (c.capacity.logical_allocated_bytes ∷ [])
              ≡ ok c.capacity))

-- Every configured parent has one candidate, and every candidate is consistent.
pub record FullSnapshot (config : Config) (candidates : List Candidate) : Type 0 where
  pub once : Distinct (candidate_ids candidates)
  pub all_observed :
      All (λ id. Elem id (candidate_ids candidates)) (parent_ids_of config.filesystems)
  pub consistent : All (IsConsistent config) candidates

configured-Elem :
    (id : Text) (parents : List ParentConfig) (p : ParentConfig)
    → configured id parents ≡ some p
    → Elem id (parent_ids_of parents)
unfolding configured
configured-Elem id [] p h = absurd (cc)
configured-Elem id (q ∷ qs) p h = elim (Option-cases (configured id qs)) [
  | inl absent ↦ inl (ground (arith, text_eq_iff q.id id))
  | inr (r, found) ↦ inr (configured-Elem id qs r found)
]

same_state_refl : (s : ParentState) → same_state s s ≡ true
unfolding same_state
same_state_refl active = refl
same_state_refl draining = refl
same_state_refl (other_state s) = text_eq_refl s

same_capacity_refl : (a : Capacity) → same_capacity a a ≡ true
unfolding same_capacity
same_capacity_refl a = ground arith

-- A consistent candidate passes the checks of the first loop.
check_state-ok :
    (c : Candidate) (p : ParentConfig) → c.parent.state ≡ p.state → check_state c (some p) ≡ ok tt
unfolding check_state
check_state-ok c p same = rw same (rw (same_state_refl p.state))

check_configured-ok :
    (config : Config) (c : Candidate) (p : ParentConfig)
    → check_configured config c (some p) ≡ ok tt
unfolding check_configured
check_configured-ok config c p = refl

check_capacity-ok :
    (config : Config) (c : Candidate) → IsConsistent config c → check_capacity config c ≡ ok tt
unfolding check_capacity validate_candidate_capacity
check_capacity-ok config c (own, inl (unknown, absent)) = rw (unknown, absent)
check_capacity-ok config c (own, inr (observed, exact)) =
    ground (arith, same_capacity_refl c.capacity)

check_candidates-ok :
    (config : Config) (seen : List Text) (cs : List Candidate)
    → Distinct (candidate_ids cs)
    → ((id : Text) → Elem id (candidate_ids cs) → ¬ Elem id seen)
    → All (IsConsistent config) cs
    → (keys : List Text) × (check_candidates config seen cs ≡ ok keys)
      × (length keys ≡ length seen + length cs)
unfolding check_candidates
check_candidates-ok config seen [] d free consistent = (seen, refl, omega arith)
check_candidates-ok config seen (c ∷ cs) (apart, d) free
      (((p, found, same), capacity), consistent) =
    let fresh : member c.parent.id seen ≡ false =
      ground (arith, (member_iff c.parent.id seen).0, free c.parent.id (inl refl)) in
    let (keys, checked, size) =
      check_candidates-ok config (c.parent.id ∷ seen) cs d
        (λ id m n. elim n [
          | inl e ↦ apart (subst (λ (k : Text). Elem k (candidate_ids cs)) e m)
          | inr r ↦ free id (inr m) r
        ])
        consistent in
    let known = check_state-ok c p same in
    let exact = check_capacity-ok config c ((p, found, same), capacity) in
    (keys, rw (found, check_configured-ok config c p, fresh, known, exact) checked, omega arith)

consistent-configured :
    (config : Config) (cs : List Candidate)
    → All (IsConsistent config) cs
    → (id : Text) → Elem id (candidate_ids cs)
    → Elem id (parent_ids_of config.filesystems)
consistent-configured config [] consistent id m = absurd m
consistent-configured config (c ∷ cs) (((p, found, same), capacity), consistent) id (inl e) =
    subst (λ (k : Text). Elem k (parent_ids_of config.filesystems)) (sym e)
      (configured-Elem c.parent.id config.filesystems p found)
consistent-configured config (c ∷ cs) (now, consistent) id (inr m) =
    consistent-configured config cs consistent id m

-- A complete snapshot has as many candidates as the pool has parents.
FullSnapshot-length :
    (config : Config) (cs : List Candidate)
    → Config.validate config ≡ ok tt
    → FullSnapshot config cs
    → length cs ≡ length config.filesystems
FullSnapshot-length config cs valid k = omega (
  arith,
  Distinct-length-le (candidate_ids cs) (parent_ids_of config.filesystems) k.once
      (consistent-configured config cs k.consistent),
  Distinct-length-le (parent_ids_of config.filesystems) (candidate_ids cs)
      (validate-Distinct config valid)
      (λ id m.
        All-Elem (λ (key : Text). Elem key (candidate_ids cs)) (parent_ids_of config.filesystems)
          k.all_observed m),
  length-map (λ (c : Candidate). c.parent.id) cs,
  length-map (λ (p : ParentConfig). p.id) config.filesystems,
)

conclude-Covers :
    (sha256 : Text → Text) (request_name : Text) (s : Selection) (t : Tally) (o : Option Selection)
    → Covers sha256 request_name s o
    → (chosen : Selection) × (conclude t o ≡ ok chosen)
      × (better_candidate sha256 request_name s chosen ≡ false)
unfolding conclude
conclude-Covers sha256 request_name s t none covers = absurd covers
conclude-Covers sha256 request_name s t (some chosen) covers = (chosen, refl, covers)

named-text : (name : Text) → name ≢ [] → text_eq name [] ≡ false
unfolding text_eq
named-text [] named = absurd (named refl)
named-text (b ∷ bs) named = refl

-- Select as its conclusion, if the checks before its second loop pass.
select-concludes :
    (sha256 : Text → Text) (config : Config) (request_name : Text) (requested : ℕ)
    (candidates : List Candidate)
    → Config.validate config ≡ ok tt
    → request_name ≢ []
    → 0 < requested
    → FullSnapshot config candidates
    → let t = tally_candidates sha256 config request_name requested empty_tally candidates in
      select sha256 config request_name requested candidates ≡ conclude t t.selected
unfolding select
select-concludes sha256 config request_name requested candidates valid named positive k =
    let (keys, checked, size) =
      check_candidates-ok config [] candidates k.once (λ id m n. n) k.consistent in
    let name = named-text request_name named in
    let some_bytes : (requested == 0) ≡ false = ground arith in
    let full : (length keys == length config.filesystems) ≡ true =
      (==_iff _ _).1 (omega (arith, size, FullSnapshot-length config candidates valid k)) in
    rw (valid, name, some_bytes, checked, full)

-- For a valid configuration, a request with a name and a positive size, and a complete and consistent
-- snapshot of the pool, Select returns a parent whenever some candidate passes every filter, and what
-- that candidate yields is not better than the parent returned.
pub select_complete :
    (sha256 : Text → Text) (config : Config) (request_name : Text) (requested : ℕ)
    (candidates : List Candidate) (c : Candidate) (s : Selection)
    → Config.validate config ≡ ok tt
    → request_name ≢ []
    → 0 < requested
    → FullSnapshot config candidates
    → Elem c candidates
    → Fits config requested c s
    → (chosen : Selection) × (select sha256 config request_name requested candidates ≡ ok chosen)
      × (better_candidate sha256 request_name s chosen ≡ false)
select_complete sha256 config request_name requested candidates c s valid named positive k m fits =
    let t = tally_candidates sha256 config request_name requested empty_tally candidates in
    let (chosen, concluded, best) =
      conclude-Covers sha256 request_name s t t.selected (
        tally-Covers-Elem sha256 config request_name requested s empty_tally c candidates m fits) in
    let same =
      select-concludes sha256 config request_name requested candidates valid named positive k in
    (chosen, (same ∙ concluded), best)
