-- ===== src/Volume/Timestamps.antt =====
-- validateRequiredTimestamp and validateOptionalTimestampFields of pkg/volume/allocation.go.
-- time.Parse with RFC3339Nano, the suffix Z and the round trip through Format accept together
-- exactly the texts YYYY-MM-DDTHH:MM:SS[.fraction]Z of an existing day and time, whose fraction has
-- one to nine digits and does not end in 0.
use scaleway_file_storage_su.Prelude.{
  ℕ, zero, suc, ◌+◌, ◌-◌, ◌*◌, ◌%◌, Bool, true, false, not, ◌&&◌, ◌||◌, List, [], ◌∷◌, ◌++◌, leb,
  ltb, ◌==◌, if◌then◌else◌,
}
use scaleway_file_storage_su.Prelude.Results.{Result, ok, reject, ◌>>◌}
use scaleway_file_storage_su.Prelude.Texts.{Text}
use scaleway_file_storage_su.Prelude.Strings.{in_range, is_digit, literal, repeat}
use scaleway_file_storage_su.Volume.Errors.{VolumeError, timestamp_missing, timestamp_not_canonical}

-- The decimal value of `count` bytes from `offset`, read before their class is tested.
number_at : ℕ → ℕ → Text → ℕ → ℕ
number_at offset count [] acc = acc
number_at (suc offset) count (b ∷ bs) acc = number_at offset count bs acc
number_at zero zero (b ∷ bs) acc = acc
number_at zero (suc count) (b ∷ bs) acc = number_at zero count bs (acc * 10 + (b - b'0'))

is_leap : ℕ → Bool
is_leap year = (year % 4 == 0 && not (year % 100 == 0)) || year % 400 == 0

days_in : ℕ → ℕ → ℕ
unfolding is_leap
days_in year month =
    if month == 2
    then (if is_leap year then 29 else 28)
    else if month == 4 || month == 6 || month == 9 || month == 11
    then 30
    else 31

-- `[.fraction]Z` after the seconds: the digits read so far and the last of them.
fraction_rest : ℕ → ℕ → Text → Bool
fraction_rest count last [] = false
fraction_rest count last (b ∷ bs) =
    let more = fraction_rest (suc count) b bs in
    if is_digit b
    then leb (suc count) 9 && more
    else b == b'Z' && leb 1 count && not (last == b'0') && is_empty bs
  where
    is_empty : Text → Bool
    is_empty [] = true
    is_empty (c ∷ cs) = false

zone_rest : Text → Bool
unfolding fraction_rest
zone_rest [] = false
zone_rest (b ∷ []) = b == b'Z'
zone_rest (b ∷ c ∷ bs) = b == b'.' && fraction_rest 0 b'0' (c ∷ bs)

-- YYYY-MM-DDTHH:MM:SS and then the rest.
shape : List (ℕ → Bool) → Text → Bool
unfolding zone_rest
shape [] bs = zone_rest bs
shape (class ∷ classes) [] = false
shape (class ∷ classes) (b ∷ bs) = class b && shape classes bs

abbrev second_classes : List (ℕ → Bool)
second_classes =
    repeat 4 is_digit
    ++ literal b'-' ∷ repeat 2 is_digit
    ++ literal b'-' ∷ repeat 2 is_digit
    ++ literal b'T' ∷ repeat 2 is_digit
    ++ literal b':' ∷ repeat 2 is_digit
    ++ literal b':' ∷ repeat 2 is_digit

unfoldable pub is_canonical_utc : Text → Bool
unfolding shape number_at days_in repeat
is_canonical_utc s =
    let year = number_at 0 4 s 0 in
    let month = number_at 5 2 s 0 in
    let day = number_at 8 2 s 0 in
    shape second_classes s
    && in_range 1 12 month
    && in_range 1 (days_in year month) day
    && ltb (number_at 11 2 s 0) 24
    && ltb (number_at 14 2 s 0) 60
    && ltb (number_at 17 2 s 0) 60

-- validateRequiredTimestamp
unfoldable pub validate_required_timestamp : Text → Result VolumeError (Unit {0})
unfolding is_canonical_utc
validate_required_timestamp [] = reject true timestamp_missing
validate_required_timestamp (b ∷ bs) =
    reject (not (is_canonical_utc (b ∷ bs))) timestamp_not_canonical

-- validateOptionalTimestampFields, over the fields of the map in one order: every failure is the
-- same refusal.
unfoldable pub validate_optional_timestamps : List Text → Result VolumeError (Unit {0})
unfolding validate_required_timestamp
validate_optional_timestamps [] = ok tt
validate_optional_timestamps ([] ∷ values) = validate_optional_timestamps values
validate_optional_timestamps ((b ∷ bs) ∷ values) = do
  validate_required_timestamp (b ∷ bs)
  validate_optional_timestamps values
