-- ===== src/Pool/Selection/Safety.antt =====
-- What a successful Select promises for the parent that it returns.
use scaleway_file_storage_su.Prelude.{
  ℕ, ◌+◌, ◌*◌, ◌/◌, ◌-◌, ◌<◌, ◌≤◌, ◌≡◌, sym, ap, subst, true, false, inl, inr, List, [], ◌∷◌,
  Option, none, some, Elem, All, All-Elem, arith, ◌==◌, length, not,
}
use scaleway_file_storage_su.Prelude.Results.{Result, ok, err, reject, map_err, >>-eq-ok, >>=-eq-ok}
use scaleway_file_storage_su.Prelude.Texts.{Text, text_eq}
use scaleway_file_storage_su.Prelude.Words.{word}
use scaleway_file_storage_su.Pool.Capacity.{Capacity}
use scaleway_file_storage_su.Pool.Capacity.Exact.{calculate_capacity_lem, exact_capacity}
use scaleway_file_storage_su.Pool.StatFs.Safety.{threshold, free_bytes, check_physical_space-safe}
use scaleway_file_storage_su.Pool.Config.{Config, ParentState, member, active}
use scaleway_file_storage_su.Pool.Config
use scaleway_file_storage_su.Pool.Selection.{
  Candidate, Selection, Tally, configured, is_active, check_candidates, check_configured,
  check_state, check_capacity, validate_candidate_capacity, same_capacity, empty_tally,
  tally_candidates, conclude, select, better_candidate, invalid_config, empty_request_name,
  zero_request, incomplete_snapshot, duplicate_candidate,
}
use scaleway_file_storage_su.Pool.Selection.Sound.{Fits, tally-selected}
use scaleway_file_storage_su.Pool.Selection.Best.{tally-Covers-Elem, Covers}

map_err-ok {ℓ κ μ} :
    {E : Type ℓ} {F : Type κ} {A : Type μ} (f : E → F) (r : Result E A) {a : A}
    → map_err f r ≡ ok a
    → r ≡ ok a
map_err-ok f (ok b) h = cc
map_err-ok f (err e) h = cc

not-zero : (n : ℕ) → reject (n == 0) zero_request ≡ ok tt → 0 < n
not-zero n h = ground arith

conclude-ok : (t : Tally) (o : Option Selection) (s : Selection) → conclude t o ≡ ok s → o ≡ some s
unfolding conclude
conclude-ok t none s h = cc
conclude-ok t (some s') s h = cc

module _ (sha256 : Text → Text) (config : Config) (request_name : Text) (requested : ℕ) where
  -- What the checks before the second loop have established when Select succeeds.
  pub record Accepted (candidates : List Candidate) (s : Selection) : Type 0 where
    pub config_valid : Config.validate config ≡ ok tt
    pub positive : 0 < requested
    pub snapshot : (seen : List Text) × (check_candidates config [] candidates ≡ ok seen)
    pub chosen :
        (tally_candidates sha256 config request_name requested empty_tally candidates).selected
        ≡ some s

  pub select-Accepted :
      (candidates : List Candidate) {s : Selection}
      → select sha256 config request_name requested candidates ≡ ok s
      → Accepted candidates s
  unfolding select
  select-Accepted candidates {s} h =
      let t = tally_candidates sha256 config request_name requested empty_tally candidates in
      let (valid, h1) = >>-eq-ok (map_err invalid_config (Config.validate config)) _ h in
      let (named, h2) = >>-eq-ok (reject (text_eq request_name []) empty_request_name) _ h1 in
      let (asked, h3) = >>-eq-ok (reject (requested == 0) zero_request) _ h2 in
      let (seen, checked, h4) = >>=-eq-ok (check_candidates config [] candidates) _ h3 in
      let (complete, h5) =
        >>-eq-ok (reject (not (length seen == length config.filesystems)) incomplete_snapshot)
          (conclude t t.selected) h4 in
      record {
        config_valid = map_err-ok invalid_config (Config.validate config) valid;
        positive = not-zero requested asked;
        snapshot = (seen, checked);
        chosen = conclude-ok t t.selected s h5;
      }

same_capacity_sound : (a b : Capacity) → same_capacity a b ≡ true → a ≡ b
unfolding same_capacity
same_capacity_sound a b h = ground arith

-- A consistent snapshot is the exact accounting of its own size and allocated sum.
validated_exact :
    (config : Config) (c : Capacity)
    → c.observed_size_bytes < word
    → validate_candidate_capacity config c ≡ ok tt
    → c
      ≡ exact_capacity c.observed_size_bytes config.min_free_bytes config.min_free_percent
          config.max_logical_overcommit_ratio
          (c.logical_allocated_bytes ∷ [])
unfolding validate_candidate_capacity
validated_exact config c bounded h = ground (
  arith,
  calculate_capacity_lem c.observed_size_bytes config.min_free_bytes config.min_free_percent
      config.max_logical_overcommit_ratio (c.logical_allocated_bytes ∷ []) bounded,
)

known_capacity :
    (config : Config) (c : Candidate)
    → 0 < c.capacity.observed_size_bytes
    → check_capacity config c ≡ ok tt
    → validate_candidate_capacity config c.capacity ≡ ok tt
unfolding check_capacity
known_capacity config c pos h = ground arith

candidate_capacity :
    (config : Config) (seen : List Text) (c : Candidate) (cs : List Candidate) {seen' : List Text}
    → check_candidates config seen cs ≡ ok seen'
    → Elem c cs
    → 0 < c.capacity.observed_size_bytes
    → validate_candidate_capacity config c.capacity ≡ ok tt
unfolding check_candidates
candidate_capacity config seen c [] h m pos = absurd m
candidate_capacity config seen c (d ∷ ds) {seen'} h m pos =
    let found = configured d.parent.id config.filesystems in
    let (known, h1) = >>-eq-ok (check_configured config d found) _ h in
    let (unseen, h2) = >>-eq-ok (reject (member d.parent.id seen) duplicate_candidate) _ h1 in
    let (stated, h3) = >>-eq-ok (check_state d found) _ h2 in
    let (sized, h4) = >>-eq-ok (check_capacity config d) _ h3 in
    elim m [
      | inl e ↦
          known_capacity config c pos
            (subst (λ (k : Candidate). check_capacity config k ≡ ok tt) (sym e) sized)
      | inr n ↦ candidate_capacity config (d.parent.id ∷ seen) c ds {seen' = seen'} h4 n pos
    ]

active_only : (p : ParentState) → is_active p ≡ true → p ≡ active
active_only p h = ground arith

-- The logical capacity that the pool's policy gives a parent of this size.
abbrev pub policy_capacity : Config → ℕ → ℕ
policy_capacity config observed =
    (observed - threshold observed config.min_free_bytes config.min_free_percent)
    * config.max_logical_overcommit_ratio.numerator
    / config.max_logical_overcommit_ratio.denominator

-- What holds of the candidate behind a selection, in exact numbers.
pub record Room (config : Config) (requested : ℕ) (c : Candidate) (s : Selection) : Type 0 where
  pub configured_parent : configured c.parent.id config.filesystems ≡ some s.parent
  pub active_parent : s.parent.state ≡ active
  pub capacity_kept : s.capacity ≡ c.capacity
  pub compatible : c.node_compatible ≡ true
  pub available : c.provider_available ≡ true
  pub logical_room :
      c.capacity.logical_allocated_bytes + requested
      ≤ policy_capacity config c.capacity.observed_size_bytes
  pub physical_room :
      requested
        + threshold c.capacity.observed_size_bytes config.min_free_bytes config.min_free_percent
      ≤ free_bytes c.stat_fs
  pub sane_sample : free_bytes c.stat_fs ≤ c.capacity.observed_size_bytes

Fits-Room :
    (config : Config) (requested : ℕ) (c : Candidate) (s : Selection)
    → c.capacity.observed_size_bytes < word
    → 0 < requested
    → validate_candidate_capacity config c.capacity ≡ ok tt
    → Fits config requested c s
    → Room config requested c s
Fits-Room config requested c s bounded pos valid f =
    let exact = validated_exact config c.capacity bounded valid in
    let space =
      check_physical_space-safe c.stat_fs c.capacity.observed_size_bytes requested
        config.min_free_bytes config.min_free_percent bounded f.checked in
    record {
      configured_parent = f.is_configured;
      active_parent = active_only s.parent.state f.configured_active;
      capacity_kept = f.same_capacity;
      compatible = f.compatible;
      available = f.available;
      logical_room = omega (arith, ap (λ (k : Capacity). k.logical_available_bytes) exact, f.room);
      physical_room = omega (arith, space);
      sane_sample = space.1;
    }

-- If Select succeeds on candidates with 64-bit sizes, the parent that it returns is the configured
-- parent of one of the candidates and active, that candidate's provider observation is available
-- and its nodes are compatible, its allocated bytes and the request stay within the capacity that
-- the reserve and overcommit policy gives its size, and its free bytes cover the request and the
-- safety threshold.
pub select-Room :
    (sha256 : Text → Text) (config : Config) (request_name : Text) (requested : ℕ)
    (candidates : List Candidate) {s : Selection}
    → All (λ (c : Candidate). c.capacity.observed_size_bytes < word) candidates
    → select sha256 config request_name requested candidates ≡ ok s
    → (c : Candidate) × Elem c candidates × Room config requested c s
select-Room sha256 config request_name requested candidates {s} bounded h =
    let a = select-Accepted sha256 config request_name requested candidates h in
    elim (tally-selected sha256 config request_name requested empty_tally candidates s a.chosen) [
      | inl e ↦ absurd (cc)
      | inr (c, m, fits) ↦ (
        c,
        m,
        Fits-Room config requested c s (All-Elem _ candidates bounded m) a.positive
            (candidate_capacity config [] c candidates {seen' = a.snapshot.0} a.snapshot.1 m
              fits.observed)
            fits,
      )
    ]

-- Select returns a best choice: no candidate that passes every filter yields a selection that
-- betterCandidate prefers to the one returned.
pub select-best :
    (sha256 : Text → Text) (config : Config) (request_name : Text) (requested : ℕ)
    (candidates : List Candidate) {s : Selection} (c : Candidate) (other : Selection)
    → select sha256 config request_name requested candidates ≡ ok s
    → Elem c candidates
    → Fits config requested c other
    → better_candidate sha256 request_name other s ≡ false
select-best sha256 config request_name requested candidates {s} c other h m fits =
    let a = select-Accepted sha256 config request_name requested candidates h in
    subst (Covers sha256 request_name other) a.chosen
      (tally-Covers-Elem sha256 config request_name requested other empty_tally c candidates m fits)
