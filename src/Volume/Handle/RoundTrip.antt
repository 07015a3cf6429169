-- ===== src/Volume/Handle/RoundTrip.antt =====
-- ParseHandle and Handle.String of pkg/volume/handle.go as inverses of each other.
use scaleway_file_storage_su.Prelude.{
  ℕ, true, false, List, [], ◌∷◌, ◌++◌, length, length-append, ◌≡◌, refl, sym, ap, ◌∙◌, arith,
}
use scaleway_file_storage_su.Prelude.Results.{ok}
use scaleway_file_storage_su.Prelude.Texts.{Text, text, text_eq, text_eq_iff}
use scaleway_file_storage_su.Prelude.Strings.{
  contains_byte, has_prefix, split, repeat, literal, is_hex,
}
use scaleway_file_storage_su.Prelude.Splits.{
  repeat-Refused, matches-contains_byte, matches-length, split-first, split-whole, rejoin,
  split-rejoin, has_prefix-++,
}
use scaleway_file_storage_su.Volume.Identifiers.{
  is_hash, validate_logical_volume_id, validate_mapping_hash,
}
use scaleway_file_storage_su.Volume.Handle.{
  Handle, parse_handle, print_handle, fields_of, handle_prefix,
}

abbrev colon : ℕ
colon = b':'

-- A hash has 35 bytes and no colon.
hash-shape :
    (c d : ℕ) (t : Text)
    → literal c colon ≡ false
    → literal d colon ≡ false
    → is_hash c d t ≡ true
    → (length t ≡ 35) × (contains_byte colon t ≡ false)
unfolding is_hash
hash-shape c d t first second valid =
    let classes = literal c ∷ literal d ∷ literal b'-' ∷ repeat 32 is_hex in
    (
      matches-length classes t valid,
      matches-contains_byte colon classes t
          (first, (second, (refl, repeat-Refused colon 32 is_hex refl))) valid,
    )

logical-shape :
    (t : Text)
    → validate_logical_volume_id t ≡ ok tt
    → (length t ≡ 35) × (contains_byte colon t ≡ false)
unfolding validate_logical_volume_id
logical-shape t valid = hash-shape b'l' b'v' t refl refl (ground arith)

mapping-shape :
    (t : Text) → validate_mapping_hash t ≡ ok tt → (length t ≡ 35) × (contains_byte colon t ≡ false)
unfolding validate_mapping_hash
mapping-shape t valid = hash-shape b'm' b'h' t refl refl (ground arith)

prefix-has_no_colon : contains_byte colon handle_prefix ≡ false
unfolding contains_byte
prefix-has_no_colon = refl

print-split :
    (handle : Handle)
    → validate_logical_volume_id handle.logical_volume_id ≡ ok tt
    → validate_mapping_hash handle.mapping_hash ≡ ok tt
    → split colon (print_handle handle)
      ≡ handle_prefix ∷ handle.logical_volume_id ∷ handle.mapping_hash ∷ []
unfolding print_handle
print-split handle logical mapping =
    split-first colon handle_prefix (handle.logical_volume_id ++ colon ∷ handle.mapping_hash)
      prefix-has_no_colon
    ∙ ap (λ fields. handle_prefix ∷ fields)
        (split-first colon handle.logical_volume_id handle.mapping_hash
            (logical-shape handle.logical_volume_id logical).1
          ∙ ap (λ fields. handle.logical_volume_id ∷ fields)
              (split-whole colon handle.mapping_hash (mapping-shape handle.mapping_hash mapping).1))

print-length :
    (handle : Handle)
    → validate_logical_volume_id handle.logical_volume_id ≡ ok tt
    → validate_mapping_hash handle.mapping_hash ≡ ok tt
    → length (print_handle handle) ≡ 76
unfolding print_handle
print-length handle logical mapping = omega (
  arith,
  length-append handle.logical_volume_id (colon ∷ handle.mapping_hash),
  (logical-shape handle.logical_volume_id logical).0,
  (mapping-shape handle.mapping_hash mapping).0,
)

print-prefix :
    (handle : Handle) → has_prefix (print_handle handle) (handle_prefix ++ text ":") ≡ true
unfolding print_handle
print-prefix handle =
    has_prefix-++ (handle_prefix ++ text ":")
      (handle.logical_volume_id ++ colon ∷ handle.mapping_hash)

fields-read :
    (handle : Handle)
    → fields_of (handle_prefix ∷ handle.logical_volume_id ∷ handle.mapping_hash ∷ []) ≡ ok handle
unfolding fields_of text_eq
fields-read handle = refl

-- Only the three fields of a handle are read as one.
fields-shape :
    (fields : List Text) (handle : Handle)
    → fields_of fields ≡ ok handle
    → fields ≡ handle_prefix ∷ handle.logical_volume_id ∷ handle.mapping_hash ∷ []
unfolding fields_of
fields-shape [] handle h = ground arith
fields-shape (a ∷ []) handle h = ground arith
fields-shape (a ∷ b ∷ []) handle h = ground arith
fields-shape (a ∷ b ∷ c ∷ []) handle h = ground (arith, text_eq_iff a handle_prefix)
fields-shape (a ∷ b ∷ c ∷ d ∷ more) handle h = ground arith

parse-fields :
    (encoded : Text) (handle : Handle)
    → parse_handle encoded ≡ ok handle
    → fields_of (split colon encoded) ≡ ok handle
unfolding parse_handle
parse-fields encoded handle parsed = ground arith

-- ParseHandle reads every valid handle back from its text.
pub parse_handle-print_handle :
    (handle : Handle)
    → validate_logical_volume_id handle.logical_volume_id ≡ ok tt
    → validate_mapping_hash handle.mapping_hash ≡ ok tt
    → parse_handle (print_handle handle) ≡ ok handle
unfolding parse_handle
parse_handle-print_handle handle logical mapping = rw (
  print-length handle logical mapping,
  print-prefix handle,
  print-split handle logical mapping,
  fields-read handle,
  logical,
  mapping,
)

-- A handle that ParseHandle accepts is written as the text that it was read from.
pub print_handle-parse_handle :
    (encoded : Text) (handle : Handle)
    → parse_handle encoded ≡ ok handle
    → print_handle handle ≡ encoded
unfolding print_handle
print_handle-parse_handle encoded handle parsed =
    let fields = fields-shape (split colon encoded) handle (parse-fields encoded handle parsed) in
    ap (rejoin colon) (sym fields) ∙ split-rejoin colon encoded
