-- ===== src/Pool/Selection/Sound.antt =====
-- A selected parent is active and has room for the request, logically and physically.
use scaleway_file_storage_su.Prelude.{
  ℕ, ◌<◌, ◌≤◌, ◌≡◌, refl, true, ◌⊎◌, inl, inr, List, [], ◌∷◌, some, Elem, arith,
}
use scaleway_file_storage_su.Prelude.Results.{ok}
use scaleway_file_storage_su.Prelude.Texts.{Text}
use scaleway_file_storage_su.Pool.StatFs.{check_physical_space}
use scaleway_file_storage_su.Pool.Config.{Config}
use scaleway_file_storage_su.Pool.Selection.{
  Candidate, Selection, Tally, configured, is_active, consider, tally_candidates,
}

module _ (config : Config) (requested : ℕ) where
  -- The candidate passes every filter, and the selection is the one that it yields.
  pub record Fits (c : Candidate) (s : Selection) : Type 0 where
    pub is_configured : configured c.parent.id config.filesystems ≡ some s.parent
    pub configured_active : is_active s.parent.state ≡ true
    pub candidate_active : is_active c.parent.state ≡ true
    pub same_capacity : s.capacity ≡ c.capacity
    pub observed : 0 < c.capacity.observed_size_bytes
    pub available : c.provider_available ≡ true
    pub room : requested ≤ c.capacity.logical_available_bytes
    pub compatible : c.node_compatible ≡ true
    pub fresh : c.stat_fs_fresh ≡ true
    pub checked :
        check_physical_space c.stat_fs c.capacity.observed_size_bytes requested
          config.min_free_bytes config.min_free_percent
        ≡ ok s.physical_space

module _ (sha256 : Text → Text) (config : Config) (request_name : Text) (requested : ℕ) where
  consider-selected :
      (t : Tally) (c : Candidate) (s : Selection)
      → (consider sha256 config request_name requested t c).selected ≡ some s
      → (t.selected ≡ some s) ⊎ Fits config requested c s
  unfolding consider
  consider-selected t c s h = ground arith

  pub tally-selected :
      (t : Tally) (cs : List Candidate) (s : Selection)
      → (tally_candidates sha256 config request_name requested t cs).selected ≡ some s
      → (t.selected ≡ some s) ⊎ ((c : Candidate) × Elem c cs × Fits config requested c s)
  unfolding tally_candidates
  tally-selected t [] s h = inl h
  tally-selected t (c ∷ cs) s h =
      elim (tally-selected (consider sha256 config request_name requested t c) cs s h) [
        | inl e ↦ elim (consider-selected t c s e) [
          | inl before ↦ inl before
          | inr fits ↦ inr (c, inl refl, fits)
        ]
        | inr (d, m, fits) ↦ inr (d, inr m, fits)
      ]
