-- ===== src/Prelude/Strings.antt =====
-- What the source uses of Go's strings, unicode/utf8 and regexp packages, over bytes.
use scaleway_file_storage_su.Prelude.Tests.{ltb, leb, ◌==◌, if◌then◌else◌}
use scaleway_file_storage_su.Prelude.Texts.{Text}
use Prim.Native.Nat.{ℕ, zero, suc}
use mathlib.Core.Bool.{Bool, true, false, ◌&&◌, ◌||◌}
use mathlib.Core.List.{List, [], ◌∷◌, reverse}
use mathlib.Core.Option.{Option, none, some}
use mathlib.Core.Path.{◌≡◌, refl}
use native.Mathlib.Omega.{arith}

abbrev pub in_range : ℕ → ℕ → ℕ → Bool
in_range low high b = leb low b && leb b high

-- [a-z], [A-Z], [0-9], [0-9a-f]
abbrev pub is_lower : ℕ → Bool
is_lower b = in_range b'a' b'z' b

abbrev pub is_upper : ℕ → Bool
is_upper b = in_range b'A' b'Z' b

abbrev pub is_digit : ℕ → Bool
is_digit b = in_range b'0' b'9' b

abbrev pub is_hex : ℕ → Bool
is_hex b = is_digit b || in_range b'a' b'f' b

abbrev pub is_lower_alnum : ℕ → Bool
is_lower_alnum b = is_lower b || is_digit b

-- Every byte of a text is in the class.
unfoldable pub all_bytes : (ℕ → Bool) → Text → Bool
all_bytes class [] = true
all_bytes class (b ∷ bs) = class b && all_bytes class bs

-- strings.ContainsRune, strings.IndexByte of one ASCII character
unfoldable pub contains_byte : ℕ → Text → Bool
contains_byte c [] = false
contains_byte c (b ∷ bs) = b == c || contains_byte c bs

-- strings.ContainsAny of ASCII characters
unfoldable pub contains_any : Text → Text → Bool
unfolding contains_byte
contains_any chars [] = false
contains_any chars (b ∷ bs) = contains_byte b chars || contains_any chars bs

-- strings.HasPrefix
unfoldable pub has_prefix : Text → Text → Bool
has_prefix s [] = true
has_prefix [] (p ∷ ps) = false
has_prefix (b ∷ bs) (p ∷ ps) = b == p && has_prefix bs ps

-- strings.HasSuffix
unfoldable pub has_suffix : Text → Text → Bool
unfolding has_prefix
has_suffix s suffix = has_prefix (reverse s) (reverse suffix)

-- strings.Contains
unfoldable pub contains : Text → Text → Bool
unfolding has_prefix
contains [] part = has_prefix [] part
contains (b ∷ bs) part = has_prefix (b ∷ bs) part || contains bs part

-- The first field of a split is extended by one byte.
abbrev pub extend_first : ℕ → List Text → List Text
extend_first b [] = (b ∷ []) ∷ []
extend_first b (field ∷ fields) = (b ∷ field) ∷ fields

-- strings.Split at a one-byte separator: never the empty list.
unfoldable pub split : ℕ → Text → List Text
split separator [] = [] ∷ []
split separator (b ∷ bs) =
    let rest = split separator bs in if b == separator then [] ∷ rest else extend_first b rest

-- A regular expression of single-byte classes, one for each byte of the text.
unfoldable pub matches : List (ℕ → Bool) → Text → Bool
matches [] [] = true
matches [] (b ∷ bs) = false
matches (class ∷ classes) [] = false
matches (class ∷ classes) (b ∷ bs) = class b && matches classes bs

-- `class{count}`
unfoldable pub repeat : ℕ → (ℕ → Bool) → List (ℕ → Bool)
repeat zero class = []
repeat (suc n) class = class ∷ repeat n class

-- One literal byte.
abbrev pub literal : ℕ → ℕ → Bool
literal c b = b == c

-- A decoder between two bytes: the continuation bytes still due, and the range of the next one.
abbrev pub Pending : Type 0
Pending = ℕ × ℕ × ℕ

-- The state after a leading byte.
utf8_lead : ℕ → Option Pending
utf8_lead b =
    if ltb b 0x80
    then some (0, 0x80, 0xbf)
    else if in_range 0xc2 0xdf b
    then some (1, 0x80, 0xbf)
    else if b == 0xe0
    then some (2, 0xa0, 0xbf)
    else if b == 0xed
    then some (2, 0x80, 0x9f)
    else if in_range 0xe1 0xef b
    then some (2, 0x80, 0xbf)
    else if b == 0xf0
    then some (3, 0x90, 0xbf)
    else if in_range 0xf1 0xf3 b
    then some (3, 0x80, 0xbf)
    else if b == 0xf4
    then some (3, 0x80, 0x8f)
    else none

utf8_next : Pending → ℕ → Option Pending
unfolding utf8_lead
utf8_next (zero, low, high) b = utf8_lead b
utf8_next (suc due, low, high) b = if in_range low high b then some (due, 0x80, 0xbf) else none

utf8_from : Option Pending → Text → Bool
unfolding utf8_next
utf8_from none bs = false
utf8_from (some (due, low, high)) [] = due == 0
utf8_from (some pending) (b ∷ bs) = utf8_from (utf8_next pending b) bs

-- utf8.ValidString
unfoldable pub valid_utf8 : Text → Bool
unfolding utf8_from
valid_utf8 s = utf8_from (some (0, 0x80, 0xbf)) s

-- strings.Compare(left, right) <= 0, byte by byte
unfoldable pub text_leb : Text → Text → Bool
text_leb [] t = true
text_leb (a ∷ s) [] = false
text_leb (a ∷ s) (b ∷ t) = ltb a b || (a == b && text_leb s t)

-- bytes.Compare(left, right) < 0
unfoldable pub text_ltb : Text → Text → Bool
text_ltb [] [] = false
text_ltb [] (b ∷ t) = true
text_ltb (a ∷ s) [] = false
text_ltb (a ∷ s) (b ∷ t) = ltb a b || (a == b && text_ltb s t)

-- `<` on texts is a strict total order.
pub text_ltb_trans :
    (s t u : Text) → text_ltb s t ≡ true → text_ltb t u ≡ true → text_ltb s u ≡ true
unfolding text_ltb
text_ltb_trans s t [] h k = absurd (not_below t k)
  where
    not_below : (t : Text) → text_ltb t [] ≡ true → ⊥
    not_below [] k = cc
    not_below (b ∷ t) k = cc
text_ltb_trans [] t (c ∷ u) h k = refl
text_ltb_trans (a ∷ s) [] (c ∷ u) h k = cc
text_ltb_trans (a ∷ s) (b ∷ t) (c ∷ u) h k = ground (arith, text_ltb_trans s t u)

pub text_ltb_asymm : (s t : Text) → text_ltb s t ≡ true → text_ltb t s ≡ false
unfolding text_ltb
text_ltb_asymm [] [] h = refl
text_ltb_asymm [] (b ∷ t) h = refl
text_ltb_asymm (a ∷ s) [] h = cc
text_ltb_asymm (a ∷ s) (b ∷ t) h = ground (arith, text_ltb_asymm s t)

pub text_ltb_total : (s t : Text) → text_ltb s t ≡ false → text_ltb t s ≡ false → s ≡ t
unfolding text_ltb
text_ltb_total [] [] h k = refl
text_ltb_total [] (b ∷ t) h k = cc
text_ltb_total (a ∷ s) [] h k = cc
text_ltb_total (a ∷ s) (b ∷ t) h k = ground (arith, text_ltb_total s t)
