-- ===== src/Prelude/Splits.antt =====
-- Laws of strings.Split at one byte and of byte-class matches.
use scaleway_file_storage_su.Prelude.{
  ℕ, zero, suc, Bool, true, false, List, [], ◌∷◌, ◌++◌, All, length, ◌==◌, ◌≡◌, ◌≢◌, refl, arith,
}
use scaleway_file_storage_su.Prelude.Texts.{Text}
use scaleway_file_storage_su.Prelude.Strings.{
  contains_byte, split, extend_first, matches, repeat, has_prefix,
}

-- No class takes the byte `c`.
abbrev pub Refused : ℕ → List (ℕ → Bool) → Type 0
Refused c classes = All (λ class. class c ≡ false) classes

pub repeat-Refused : (c n : ℕ) (class : ℕ → Bool) → class c ≡ false → Refused c (repeat n class)
unfolding repeat
repeat-Refused c zero class e = tt
repeat-Refused c (suc n) class e = (e, repeat-Refused c n class e)

taken-differs : (c b : ℕ) (class : ℕ → Bool) → class c ≡ false → class b ≡ true → b ≢ c
taken-differs c b class refused taken e = cc

-- A text that matches classes without `c` does not contain `c`.
pub matches-contains_byte :
    (c : ℕ) (classes : List (ℕ → Bool)) (t : Text)
    → Refused c classes
    → matches classes t ≡ true
    → contains_byte c t ≡ false
unfolding matches contains_byte
matches-contains_byte c [] [] refused m = refl
matches-contains_byte c [] (b ∷ bs) refused m = ground arith
matches-contains_byte c (class ∷ classes) [] refused m = ground arith
matches-contains_byte c (class ∷ classes) (b ∷ bs) (here, refused) m =
    let others = matches-contains_byte c classes bs refused in
    let differs = taken-differs c b class here in ground arith

pub matches-length :
    (classes : List (ℕ → Bool)) (t : Text) → matches classes t ≡ true → length t ≡ length classes
unfolding matches
matches-length [] [] m = refl
matches-length [] (b ∷ bs) m = ground arith
matches-length (class ∷ classes) [] m = ground arith
matches-length (class ∷ classes) (b ∷ bs) m =
    let shorter = matches-length classes bs in ground arith

-- The first field of a split ends at the first separator.
pub split-first :
    (c : ℕ) (field rest : Text)
    → contains_byte c field ≡ false
    → split c (field ++ c ∷ rest) ≡ field ∷ split c rest
unfolding split contains_byte
split-first c [] rest absent = ground arith
split-first c (b ∷ bs) rest absent = let later = split-first c bs rest in ground arith

pub split-whole :
    (c : ℕ) (field : Text) → contains_byte c field ≡ false → split c field ≡ field ∷ []
unfolding split contains_byte
split-whole c [] absent = refl
split-whole c (b ∷ bs) absent = let later = split-whole c bs in ground arith

-- The fields with the separator between them.
abbrev pub rejoin : ℕ → List Text → Text
rejoin c [] = []
rejoin c (field ∷ []) = field
rejoin c (field ∷ next ∷ fields) = field ++ c ∷ rejoin c (next ∷ fields)

rejoin-extend_first :
    (c b : ℕ) (fields : List Text) → rejoin c (extend_first b fields) ≡ b ∷ rejoin c fields
rejoin-extend_first c b [] = refl
rejoin-extend_first c b (field ∷ []) = refl
rejoin-extend_first c b (field ∷ next ∷ fields) = refl

shape_after :
    (c b : ℕ) (bs field : Text) (fields : List Text)
    → split c bs ≡ field ∷ fields
    → (test : Bool) → (b == c) ≡ test
    → (first : Text) × (others : List Text) × (split c (b ∷ bs) ≡ first ∷ others)
unfolding split
shape_after c b bs field fields shape true e = ([], split c bs, rw e)
shape_after c b bs field fields shape false e = (b ∷ field, fields, rw (e, shape))

split-shape :
    (c : ℕ) (t : Text) → (field : Text) × (fields : List Text) × (split c t ≡ field ∷ fields)
unfolding split
split-shape c [] = ([], [], refl)
split-shape c (b ∷ bs) =
    let (field, fields, shape) = split-shape c bs in
    shape_after c b bs field fields shape (b == c) refl

rejoin-open :
    (c : ℕ) (field : Text) (fields : List Text)
    → rejoin c ([] ∷ field ∷ fields) ≡ c ∷ rejoin c (field ∷ fields)
rejoin-open c field fields = refl

pub split-rejoin : (c : ℕ) (t : Text) → rejoin c (split c t) ≡ t
unfolding split
split-rejoin c [] = refl
split-rejoin c (b ∷ bs) =
    let (field, fields, shape) = split-shape c bs in
    let rest = split-rejoin c bs in
    let longer = rejoin-extend_first c b (split c bs) in
    let opened = rejoin-open c field fields in ground arith

pub has_prefix-++ : (s t : Text) → has_prefix (s ++ t) s ≡ true
unfolding has_prefix
has_prefix-++ [] t = refl
has_prefix-++ (b ∷ bs) t = let rest = has_prefix-++ bs t in ground arith
