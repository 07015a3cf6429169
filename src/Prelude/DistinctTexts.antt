-- ===== src/Prelude/DistinctTexts.antt =====
-- Lengths of lists of distinct texts.
use scaleway_file_storage_su.Prelude.{
  suc, ◌≤◌, ◌≡◌, ◌≢◌, refl, ap, subst, true, false, inl, inr, List, [], ◌∷◌, map, Elem, Distinct,
  arith, length,
}
use scaleway_file_storage_su.Prelude.Texts.{Text, text_eq, text_eq_iff}

-- The keys without the first one that is equal.
erase : Text → List Text → List Text
erase id [] = []
erase id (key ∷ keys) = elim (text_eq key id) [ true ↦ keys | false ↦ key ∷ erase id keys ]

erase-length :
    (id : Text) (keys : List Text) → Elem id keys → suc (length (erase id keys)) ≡ length keys
unfolding erase
erase-length id [] m = absurd m
erase-length id (key ∷ keys) m = ground (arith, text_eq_iff key id, erase-length id keys)

erase-Elem :
    (id other : Text) (keys : List Text) → other ≢ id → Elem other keys → Elem other (erase id keys)
unfolding erase
erase-Elem id other [] differs m = m
erase-Elem id other (key ∷ keys) differs m =
    ground (arith, text_eq_iff key id, erase-Elem id other keys differs)

-- A list of distinct texts is no longer than a list that has all of them.
pub Distinct-length-le :
    (xs ys : List Text)
    → Distinct xs
    → ((id : Text) → Elem id xs → Elem id ys)
    → length xs ≤ length ys
Distinct-length-le [] ys d into = omega arith
Distinct-length-le (x ∷ xs) ys (apart, d) into =
    let shorter = Distinct-length-le xs (erase x ys) d (λ id m.
      erase-Elem x id ys (λ e. apart (subst (λ (k : Text). Elem k xs) e m)) (into id (inr m))) in
    let one = erase-length x ys (into x (inl refl)) in omega arith

pub length-map : {A : Type 0} (f : A → Text) (xs : List A) → length (map f xs) ≡ length xs
length-map f [] = refl
length-map f (x ∷ xs) = ap suc (length-map f xs)
