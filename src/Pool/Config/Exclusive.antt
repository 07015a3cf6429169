-- ===== src/Pool/Config/Exclusive.antt =====
-- A physical parent belongs to one pool at most, and stands in it once.
use scaleway_file_storage_su.Prelude.{
  not, ◌||◌, ltb, true, List, [], ◌∷◌, ◌≡◌, refl, subst, ◌↔◌, inl, inr, map, Elem, Distinct,
  Distinct-append, Elem-append, ◌==◌, length, arith,
}
use scaleway_file_storage_su.Prelude.Results.{ok, reject, map_err, >>-eq-ok, >>=-eq-ok}
use scaleway_file_storage_su.Prelude.Texts.{Text, text_eq_iff}
use scaleway_file_storage_su.Volume.Identifiers.{validate_pool_name, validate_parent_filesystem_id}
use scaleway_file_storage_su.Volume.Paths.{validate_base_path}
use scaleway_file_storage_su.Volume.Request.{validate_policy, validate_directory_mode, max_owner}
use scaleway_file_storage_su.Pool.Ratio
use scaleway_file_storage_su.Pool.Config.{
  ParentConfig, Config, member, validate, claim_parents, claim_pools, validate_configs,
  all_parent_ids, parent_in_two_pools, validate_parents, duplicate_parent, invalid_parent_id,
  is_known_state, unsupported_parent_state, invalid_name, invalid_base_path, is_least_allocated,
  unsupported_policy, zero_max_parents, invalid_ratio, percent_outside, invalid_delete_policy,
  invalid_directory_mode, owner_too_large, no_parents, too_many_parents, duplicate_pool, no_pools,
}

pub member_iff : (id : Text) (keys : List Text) → (member id keys ≡ true) ↔ Elem id keys
unfolding member
member_iff id [] = ((λ h. cc), λ m. absurd m)
member_iff id (key ∷ keys) = ground (arith, text_eq_iff key id, member_iff id keys)

abbrev ids : List ParentConfig → List Text
ids parents = map (λ (p : ParentConfig). p.id) parents

-- What one pool's claim adds: its parents, which were free.
record Claims (claimed new claimed' : List Text) : Type 0 where
  kept : (id : Text) → Elem id claimed → Elem id claimed'
  added : (id : Text) → Elem id new → Elem id claimed'
  free : (id : Text) → Elem id new → ¬ Elem id claimed
  distinct : Distinct new

not-member :
    (id : Text) (keys : List Text)
    → reject (member id keys) parent_in_two_pools ≡ ok tt
    → ¬ Elem id keys
not-member id keys h m = ground (arith, (member_iff id keys).1 m)

claim_parents-Claims :
    (claimed : List Text) (parents : List ParentConfig) {claimed' : List Text}
    → claim_parents claimed parents ≡ ok claimed'
    → Claims claimed (ids parents) claimed'
unfolding claim_parents
claim_parents-Claims claimed [] {claimed'} h =
    let same : claimed ≡ claimed' = cc in
    record {
      kept = λ id m. subst (Elem id) same m;
      added = λ id m. absurd m;
      free = λ id m. absurd m;
      distinct = tt;
    }
claim_parents-Claims claimed (p ∷ ps) {claimed'} h =
    let (fresh, rest) =
      >>-eq-ok (reject (member p.id claimed) parent_in_two_pools)
        (claim_parents (p.id ∷ claimed) ps) h in
    let c = claim_parents-Claims (p.id ∷ claimed) ps {claimed' = claimed'} rest in
    record {
      kept = λ id m. c.kept id (inr m);
      added = λ id m. elim m [ inl e ↦ c.kept id (inl e) | inr n ↦ c.added id n ];
      free = λ id m n. elim m [
        | inl e ↦ not-member p.id claimed fresh (subst (λ (k : Text). Elem k claimed) e n)
        | inr r ↦ c.free id r (inr n)
      ];
      distinct = ((λ m. c.free p.id m (inl refl)), c.distinct);
    }

claim_pools-Distinct :
    (seen claimed : List Text) (configs : List Config)
    → claim_pools seen claimed configs ≡ ok tt
    → Distinct (all_parent_ids configs)
      × ((id : Text) → Elem id (all_parent_ids configs) → ¬ Elem id claimed)
unfolding claim_pools
claim_pools-Distinct seen claimed [] h = (tt, λ id m. absurd m)
claim_pools-Distinct seen claimed (config ∷ configs) h =
    let (valid, after_valid) = >>-eq-ok (validate config) _ h in
    let (fresh, after_name) =
      >>-eq-ok (reject (member config.name seen) duplicate_pool) _ after_valid in
    let (claimed', e, rest) =
      >>=-eq-ok (claim_parents claimed config.filesystems)
        (λ (later : List Text). claim_pools (config.name ∷ seen) later configs) after_name in
    let here = claim_parents-Claims claimed config.filesystems {claimed' = claimed'} e in
    let (apart, free) = claim_pools-Distinct (config.name ∷ seen) claimed' configs rest in
    (
      Distinct-append (ids config.filesystems) (all_parent_ids configs) here.distinct apart
          (λ id m n. free id n (here.added id m)),
      λ id m n. elim (Elem-append id (ids config.filesystems) (all_parent_ids configs) m) [
        | inl l ↦ here.free id l n
        | inr r ↦ free id r (here.kept id n)
      ],
    )

-- The parents that the loop of Validate accepts, one pool at a time.
new_parent :
    (id : Text) (keys : List Text)
    → reject (member id keys) duplicate_parent ≡ ok tt
    → ¬ Elem id keys
new_parent id keys h m = ground (arith, (member_iff id keys).1 m)

validate_parents-Distinct :
    (seen : List Text) (parents : List ParentConfig)
    → validate_parents seen parents ≡ ok tt
    → Distinct (ids parents) × ((id : Text) → Elem id (ids parents) → ¬ Elem id seen)
unfolding validate_parents
validate_parents-Distinct seen [] h = (tt, λ id m. absurd m)
validate_parents-Distinct seen (p ∷ ps) h =
    let (named, after_name) =
      >>-eq-ok (map_err invalid_parent_id (validate_parent_filesystem_id p.id)) _ h in
    let (fresh, after_fresh) = >>-eq-ok (reject (member p.id seen) duplicate_parent) _ after_name in
    let (known, rest) =
      >>-eq-ok (reject (not (is_known_state p.state)) unsupported_parent_state) _ after_fresh in
    let (apart, free) = validate_parents-Distinct (p.id ∷ seen) ps rest in
    (
      ((λ m. free p.id m (inl refl)), apart),
      λ id m n. elim m [
        | inl e ↦ new_parent p.id seen fresh (subst (λ (k : Text). Elem k seen) e n)
        | inr r ↦ free id r (inr n)
      ],
    )

validate-parents :
    (config : Config) → validate config ≡ ok tt → validate_parents [] config.filesystems ≡ ok tt
unfolding validate
validate-parents config h =
    let h1 = (>>-eq-ok (map_err invalid_name (validate_pool_name config.name)) _ h).1 in
    let h2 = (>>-eq-ok (map_err invalid_base_path (validate_base_path config.base_path)) _ h1).1 in
    let h3 =
      (>>-eq-ok (reject (not (is_least_allocated config.selection_policy)) unsupported_policy) _
        h2).1 in
    let h4 =
      (>>-eq-ok (reject (config.max_parents_per_eligible_node == 0) zero_max_parents) _ h3).1 in
    let h5 =
      (>>-eq-ok (map_err invalid_ratio (Ratio.validate config.max_logical_overcommit_ratio)) _
        h4).1 in
    let h6 = (>>-eq-ok (reject (ltb 100 config.min_free_percent) percent_outside) _ h5).1 in
    let h7 =
      (>>-eq-ok (map_err invalid_delete_policy (validate_policy config.delete_policy)) _ h6).1 in
    let h8 =
      (>>-eq-ok (map_err invalid_directory_mode (validate_directory_mode config.directory_mode)) _
        h7).1 in
    let h9 =
      (>>-eq-ok
        (reject (ltb max_owner config.directory_uid || ltb max_owner config.directory_gid)
          owner_too_large)
        _ h8).1 in
    let h10 = (>>-eq-ok (reject (length config.filesystems == 0) no_parents) _ h9).1 in
    (>>-eq-ok
      (reject (ltb config.max_parents_per_eligible_node (length config.filesystems))
        too_many_parents)
      _ h10).1

-- An accepted configuration names each of its parents once.
pub validate-Distinct :
    (config : Config) → validate config ≡ ok tt → Distinct (ids config.filesystems)
validate-Distinct config h =
    (validate_parents-Distinct [] config.filesystems (validate-parents config h)).0

-- If ValidateConfigs accepts the pools of an installation, no physical parent stands twice in the
-- configuration, neither in one pool nor in two.
pub validate_configs-exclusive :
    (configs : List Config) → validate_configs configs ≡ ok tt → Distinct (all_parent_ids configs)
unfolding validate_configs
validate_configs-exclusive configs h =
    (claim_pools-Distinct [] [] configs (>>-eq-ok (reject (length configs == 0) no_pools) _ h).1).0
