-- ===== src/Pool/Selection/Best.antt =====
-- The selected parent is the best of all that pass the filters: most available bytes, then the
-- smallest hash.
use scaleway_file_storage_su.Prelude.{
  ℕ, ◌≡◌, true, false, ◌⊎◌, inl, inr, List, [], ◌∷◌, Option, none, some, Elem, arith, subst,
  Option-cases,
}
use scaleway_file_storage_su.Prelude.Results.{ok, Result-cases}
use scaleway_file_storage_su.Pool.StatFs.{PhysicalSpace, check_physical_space}
use scaleway_file_storage_su.Prelude.Texts.{Text}
use scaleway_file_storage_su.Prelude.Strings.{text_ltb_trans, text_ltb_asymm}
use scaleway_file_storage_su.Pool.Config.{Config, ParentConfig}
use scaleway_file_storage_su.Pool.Selection.{
  Candidate, Selection, Tally, consider, tally_candidates, configured, choose, better_candidate,
  tie_hash,
}
use scaleway_file_storage_su.Pool.Selection.Sound.{Fits}

module _ (sha256 : Text → Text) (request_name : Text) where
  better_irrefl : (s : Selection) → better_candidate sha256 request_name s s ≡ false
  unfolding better_candidate
  better_irrefl s = ground (
    arith,
    text_ltb_asymm (tie_hash sha256 request_name s.parent) (tie_hash sha256 request_name s.parent),
  )

  better_keeps :
      (x old new : Selection)
      → better_candidate sha256 request_name x old ≡ false
      → better_candidate sha256 request_name new old ≡ true
      → better_candidate sha256 request_name x new ≡ false
  unfolding better_candidate
  better_keeps x old new h k = ground (
    arith,
    text_ltb_trans (tie_hash sha256 request_name x.parent) (tie_hash sha256 request_name new.parent)
        (tie_hash sha256 request_name old.parent),
  )

  -- The choice so far is at least as good as the given selection.
  abbrev pub Covers : Selection → Option Selection → Type 0
  Covers x none = ⊥
  Covers x (some s) = better_candidate sha256 request_name x s ≡ false

  choose-Covers_new :
      (x : Selection) (o : Option Selection) → Covers x (choose sha256 request_name x o)
  unfolding choose
  choose-Covers_new x none = better_irrefl x
  choose-Covers_new x (some s) = ground (arith, better_irrefl x)

  choose-Covers :
      (x new : Selection) (o : Option Selection)
      → Covers x o
      → Covers x (choose sha256 request_name new o)
  unfolding choose
  choose-Covers x new none h = absurd h
  choose-Covers x new (some s) h = ground (arith, better_keeps x s new h)

module _ (sha256 : Text → Text) (config : Config) (request_name : Text) (requested : ℕ) where
  -- A step keeps the choice, or offers it one selection that passes the filters.
  abbrev Step : Tally → Candidate → Type 0
  Step t c =
      let after = (consider sha256 config request_name requested t c).selected in
      (after ≡ t.selected)
      ⊎ ((s : Selection) × Fits config requested c s
          × (after ≡ choose sha256 request_name s t.selected))

  Step-offer :
      (t : Tally) (c : Candidate) (parent : ParentConfig) (space : PhysicalSpace)
      → configured c.parent.id config.filesystems ≡ some parent
      → check_physical_space c.stat_fs c.capacity.observed_size_bytes requested
          config.min_free_bytes config.min_free_percent
        ≡ ok space
      → let after = (consider sha256 config request_name requested t c).selected in
        let s : Selection = record {
          parent = parent;
          capacity = c.capacity;
          physical_space = space;
        } in
        (after ≡ t.selected)
        ⊎ (Fits config requested c s × (after ≡ choose sha256 request_name s t.selected))
  unfolding consider
  Step-offer t c parent space found checked = ground arith

  Step-consider : (t : Tally) (c : Candidate) → Step t c
  unfolding consider
  Step-consider t c = elim (Option-cases (configured c.parent.id config.filesystems)) [
    | inl missing ↦ inl (ground arith)
    | inr (parent, found) ↦
        elim (Result-cases (
          check_physical_space c.stat_fs c.capacity.observed_size_bytes requested
            config.min_free_bytes config.min_free_percent)) [
              | inl (space, checked) ↦ elim (Step-offer t c parent space found checked) [
                | inl same ↦ inl same
                | inr (fits, offered) ↦ inr (
                  (record { parent = parent; capacity = c.capacity; physical_space = space }),
                  fits,
                  offered,
                )
              ]
              | inr (e, failed) ↦ inl (ground arith)
            ]
  ]

  consider-Covers :
      (x : Selection) (t : Tally) (c : Candidate)
      → Covers sha256 request_name x t.selected
      → Covers sha256 request_name x (consider sha256 config request_name requested t c).selected
  consider-Covers x t c h = elim (Step-consider t c) [
    | inl same ↦ rw same h
    | inr (s, fits, offered) ↦ rw offered (choose-Covers sha256 request_name x s t.selected h)
  ]

  -- A candidate that passes the filters is offered.
  consider-offers :
      (x : Selection) (t : Tally) (c : Candidate)
      → Fits config requested c x
      → (consider sha256 config request_name requested t c).selected
        ≡ choose sha256 request_name x t.selected
  unfolding consider
  consider-offers x t c f = ground arith

  tally-Covers :
      (x : Selection) (t : Tally) (cs : List Candidate)
      → Covers sha256 request_name x t.selected
      → Covers sha256 request_name x
          (tally_candidates sha256 config request_name requested t cs).selected
  unfolding tally_candidates
  tally-Covers x t [] h = h
  tally-Covers x t (c ∷ cs) h =
      tally-Covers x (consider sha256 config request_name requested t c) cs
        (consider-Covers x t c h)

  pub tally-Covers-Elem :
      (x : Selection) (t : Tally) (c : Candidate) (cs : List Candidate)
      → Elem c cs
      → Fits config requested c x
      → Covers sha256 request_name x
          (tally_candidates sha256 config request_name requested t cs).selected
  unfolding tally_candidates
  tally-Covers-Elem x t c [] m f = absurd m
  tally-Covers-Elem x t c (d ∷ ds) (inl e) f =
      tally-Covers x (consider sha256 config request_name requested t d) ds (
        rw (consider-offers x t d (subst (λ (k : Candidate). Fits config requested k x) e f))
          (choose-Covers_new sha256 request_name x t.selected))
  tally-Covers-Elem x t c (d ∷ ds) (inr m) f =
      tally-Covers-Elem x (consider sha256 config request_name requested t d) c ds m f
