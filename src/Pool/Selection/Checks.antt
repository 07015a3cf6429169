-- ===== src/Pool/Selection/Checks.antt =====
-- The checks of Select before its second loop return none of the errors that it decides on after
-- that loop.
use scaleway_file_storage_su.Prelude.{
  ◌≡◌, refl, Bool, true, false, List, [], ◌∷◌, Option, arith, not,
}
use scaleway_file_storage_su.Prelude.Results.{Result, ok, err, reject, map_err, ◌>>=◌}
use scaleway_file_storage_su.Prelude.Texts.{Text}
use scaleway_file_storage_su.Pool.Config.{Config, ParentConfig, member}
use scaleway_file_storage_su.Pool.Selection.{
  Candidate, SelectionError, configured, check_candidates, check_configured, check_state,
  check_capacity, validate_candidate_capacity, duplicate_candidate, no_logical_capacity,
  no_fresh_physical_space, physical_capacity_exhausted, parent_inventory_unavailable,
  no_node_compatible_parent, provider_terminal,
}

-- The errors that Select returns after the second loop.
abbrev pub is_refusal : SelectionError → Bool
is_refusal no_logical_capacity = true
is_refusal no_fresh_physical_space = true
is_refusal physical_capacity_exhausted = true
is_refusal parent_inventory_unavailable = true
is_refusal no_node_compatible_parent = true
is_refusal (provider_terminal failure) = true
is_refusal _ = false

-- The result is no refusal.
abbrev pub not_refused : {A : Type 0} → Result SelectionError A → Bool
not_refused (ok a) = true
not_refused (err e) = not (is_refusal e)

pub not_refused->>= :
    {A B : Type 0} (m : Result SelectionError A) (f : A → Result SelectionError B)
    → not_refused m ≡ true
    → ((a : A) → not_refused (f a) ≡ true)
    → not_refused (m >>= f) ≡ true
not_refused->>= (ok a) f h k = k a
not_refused->>= (err e) f h k = h

-- A refusal comes from behind the steps that never refuse.
pub skip-step :
    {A B : Type 0} (m : Result SelectionError A) (f : A → Result SelectionError B)
    {e : SelectionError}
    → not_refused m ≡ true
    → (m >>= f) ≡ err e
    → is_refusal e ≡ true
    → (a : A) × (f a ≡ err e)
skip-step (ok a) f n h r = (a, h)
skip-step (err x) f n h r = absurd (ground arith)

pub reject-not_refused :
    (b : Bool) (e : SelectionError) → is_refusal e ≡ false → not_refused (reject b e) ≡ true
reject-not_refused true e h = rw h
reject-not_refused false e h = refl

pub map_err-not_refused :
    {E A : Type 0} (f : E → SelectionError) (r : Result E A)
    → ((e : E) → is_refusal (f e) ≡ false)
    → not_refused (map_err f r) ≡ true
map_err-not_refused f (ok a) h = refl
map_err-not_refused f (err e) h = rw (h e)

-- The checks before the second loop return no refusal.
check_capacity-not_refused :
    (config : Config) (c : Candidate) → not_refused (check_capacity config c) ≡ true
unfolding check_capacity validate_candidate_capacity
check_capacity-not_refused config c = ground arith

check_configured-not_refused :
    (config : Config) (c : Candidate) (o : Option ParentConfig)
    → not_refused (check_configured config c o) ≡ true
unfolding check_configured
check_configured-not_refused config c o = ground arith

check_state-not_refused :
    (c : Candidate) (o : Option ParentConfig) → not_refused (check_state c o) ≡ true
unfolding check_state
check_state-not_refused c o = ground arith

pub check_candidates-not_refused :
    (config : Config) (seen : List Text) (cs : List Candidate)
    → not_refused (check_candidates config seen cs) ≡ true
unfolding check_candidates
check_candidates-not_refused config seen [] = refl
check_candidates-not_refused config seen (c ∷ cs) =
    let found = configured c.parent.id config.filesystems in
    let rest = check_candidates-not_refused config (c.parent.id ∷ seen) cs in
    not_refused->>= (check_configured config c found) _
      (check_configured-not_refused config c found)
      λ _.
        not_refused->>= (reject (member c.parent.id seen) duplicate_candidate) _
          (reject-not_refused (member c.parent.id seen) duplicate_candidate refl)
          λ _. not_refused->>= (check_state c found) _ (check_state-not_refused c found) λ _.
            not_refused->>= (check_capacity config c) _ (check_capacity-not_refused config c)
              λ _. rest
