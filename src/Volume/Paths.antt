-- ===== src/Volume/Paths.antt =====
-- pkg/volume/path.go: the base path, the directory component of a logical volume and the managed
-- archive and quarantine targets.
use mathlib.Core.List.{reverse}
use scaleway_file_storage_su.Prelude.{
  ℕ, zero, suc, ◌+◌, ◌-◌, Bool, true, false, not, ◌&&◌, ◌||◌, List, [], ◌∷◌, ◌++◌, length, ltb,
  ◌==◌, if◌then◌else◌,
}
use scaleway_file_storage_su.Prelude.Results.{Result, ok, reject, ◌>>◌}
use scaleway_file_storage_su.Prelude.Texts.{Text, text, text_eq}
use scaleway_file_storage_su.Prelude.Strings.{
  is_lower_alnum, is_upper, all_bytes, contains_byte, contains, has_prefix, split, valid_utf8,
}
use scaleway_file_storage_su.Volume.Errors.{
  VolumeError, bad_base_path, bad_directory_name, bad_managed_directory, component_too_long,
}
use scaleway_file_storage_su.Volume.CleanPath.{dot, dot_dot, clean, join}
use scaleway_file_storage_su.Volume.Timestamps.{validate_required_timestamp}
use scaleway_file_storage_su.Volume.Identifiers.{
  max_context_entry_bytes, max_directory_name_bytes, validate_logical_volume_id,
  validate_operation_id, not_bounded,
}

abbrev directory_suffix_bytes : ℕ
directory_suffix_bytes = 12

abbrev max_filesystem_component_bytes : ℕ
max_filesystem_component_bytes = 255

abbrev parent_owner_namespace : Text
parent_owner_namespace = text ".sfs-subdir-csi-owner"

abbrev is_directory_byte : ℕ → Bool
is_directory_byte b = is_lower_alnum b || b == b'.' || b == b'_' || b == b'-'

-- safeDirectoryPattern
is_safe_directory : Text → Bool
unfolding all_bytes
is_safe_directory [] = false
is_safe_directory (b ∷ bs) = is_lower_alnum b && all_bytes is_directory_byte bs

is_unsafe_component : Text → Bool
unfolding text_eq
is_unsafe_component c = text_eq c [] || text_eq c dot || text_eq c dot_dot

any_unsafe : List Text → Bool
unfolding is_unsafe_component
any_unsafe [] = false
any_unsafe (c ∷ cs) = is_unsafe_component c || any_unsafe cs

first_has_prefix : Text → List Text → Bool
unfolding has_prefix
first_has_prefix prefix [] = false
first_has_prefix prefix (c ∷ cs) = has_prefix c prefix

-- strings.TrimPrefix(path, "/")
trim_slash : Text → Text
trim_slash [] = []
trim_slash (b ∷ bs) = if b == b'/' then bs else b ∷ bs

-- ValidateBasePath
unfoldable pub validate_base_path : Text → Result VolumeError (Unit {0})
unfolding valid_utf8 text_eq has_prefix clean contains_byte split first_has_prefix any_unsafe
    trim_slash
validate_base_path base_path = do
  reject (not (valid_utf8 base_path) || text_eq base_path []) bad_base_path
  reject (not (has_prefix base_path (text "/"))) bad_base_path
  reject (text_eq base_path (text "/")) bad_base_path
  reject (not (text_eq (clean base_path) base_path)) bad_base_path
  reject (contains_byte 0 base_path) bad_base_path
  reject (ltb max_context_entry_bytes (length base_path)) bad_base_path
  let components = split b'/' (trim_slash base_path)
  reject (first_has_prefix parent_owner_namespace components) bad_base_path
  reject (any_unsafe components) bad_base_path

-- reservedDirectoryNames
is_reserved : Text → Bool
unfolding text_eq
is_reserved name =
    text_eq name (text ".archived")
    || text_eq name (text ".deleted")
    || text_eq name (text ".sfs-subdir-csi")

-- ValidateDirectoryName
unfoldable pub validate_directory_name : Text → Result VolumeError (Unit {0})
unfolding not_bounded is_safe_directory contains contains_byte is_reserved
validate_directory_name name = do
  reject (not_bounded max_directory_name_bytes name) bad_directory_name
  reject (not (is_safe_directory name)) bad_directory_name
  reject (contains name dot_dot || contains_byte b'/' name) bad_directory_name
  reject (is_reserved name) bad_directory_name

abbrev lower_byte : ℕ → ℕ
lower_byte b = if is_upper b then b + 32 else b

-- strings.ToLower. Of the runes outside ASCII only U+0130 and U+212A have an ASCII lower case, `i`
-- and `k`; the others stay outside ASCII and are left as they are: no caller tells them apart.
unfoldable pub to_lower : Text → Text
to_lower [] = []
to_lower (a ∷ []) = lower_byte a ∷ []
to_lower (a ∷ b ∷ []) =
    if a == 0xc4 && b == 0xb0 then b'i' ∷ [] else lower_byte a ∷ lower_byte b ∷ []
to_lower (a ∷ b ∷ c ∷ bs) =
    let after_one = to_lower (b ∷ c ∷ bs) in
    let after_two = to_lower (c ∷ bs) in
    let after_three = to_lower bs in
    if a == 0xc4 && b == 0xb0
    then b'i' ∷ after_two
    else if a == 0xe2 && b == 0x84 && c == 0xaa
    then b'k' ∷ after_three
    else lower_byte a ∷ after_one

-- The loop of sanitizeDirectorySegment: whether something is written, and whether a separator was
-- written last. A rune outside ASCII is unsafe; its bytes are treated one by one, which writes the
-- same single separator.
sanitize_from : Bool → Bool → Text → Text
sanitize_from written last_separator [] = []
sanitize_from written last_separator (b ∷ bs) =
    let skip = sanitize_from written last_separator bs in
    let keep = sanitize_from true (b == b'.') bs in
    let separate = sanitize_from true true bs in
    if is_directory_byte b
    then (if b == b'.' && last_separator then skip else b ∷ keep)
    else if written && not last_separator
    then b'-' ∷ separate
    else skip

abbrev is_trimmed : ℕ → Bool
is_trimmed b = b == b'.' || b == b'-' || b == b'_'

-- strings.TrimLeft, TrimRight and Trim of the characters `.-_`
trim_left : Text → Text
trim_left [] = []
trim_left (b ∷ bs) = let rest = trim_left bs in if is_trimmed b then rest else b ∷ bs

trim_right : Text → Text
unfolding trim_left
trim_right s = reverse (trim_left (reverse s))

-- sanitizeDirectorySegment
unfoldable pub sanitize_directory_segment : Text → Text
unfolding to_lower sanitize_from trim_left trim_right
sanitize_directory_segment input =
    trim_right (trim_left (sanitize_from false false (to_lower input)))

-- `s[:count]` for a count within the text
unfoldable pub first_bytes : ℕ → Text → Text
first_bytes zero s = []
first_bytes (suc n) [] = []
first_bytes (suc n) (b ∷ bs) = b ∷ first_bytes n bs

-- strings.TrimPrefix(logicalVolumeID, "lv-")
trim_lv : Text → Text
unfolding has_prefix
trim_lv [] = []
trim_lv (a ∷ []) = a ∷ []
trim_lv (a ∷ b ∷ []) = a ∷ b ∷ []
trim_lv (a ∷ b ∷ c ∷ bs) = if a == b'l' && b == b'v' && c == b'-' then bs else a ∷ b ∷ c ∷ bs

named : Text → Text
unfolding text_eq
named prefix = if text_eq prefix [] then text "volume" else prefix

-- DirectoryName
unfoldable pub directory_name : Text → Text → Text → Result VolumeError Text
unfolding validate_logical_volume_id sanitize_directory_segment first_bytes trim_lv trim_right named
    validate_directory_name
directory_name namespace pvc_name logical_volume_id = do
  validate_logical_volume_id logical_volume_id
  if text_eq namespace [] || text_eq pvc_name [] then ok logical_volume_id else (do
    let suffix = first_bytes directory_suffix_bytes (trim_lv logical_volume_id)
    let prefix =
        sanitize_directory_segment namespace ++ text "--" ++ sanitize_directory_segment pvc_name
    let max_prefix = max_directory_name_bytes - 2 - length suffix
    let kept =
        if ltb max_prefix (length prefix)
        then trim_right (first_bytes max_prefix prefix)
        else prefix
    let name = named kept ++ text "--" ++ suffix
    validate_directory_name name
    ok name)

-- strings.NewReplacer(":", "", ".", "", "-", "")
strip_punctuation : Text → Text
strip_punctuation [] = []
strip_punctuation (b ∷ bs) =
    let rest = strip_punctuation bs in
    if b == b':' || b == b'.' || b == b'-' then rest else b ∷ rest

-- The component of a managed target.
unfoldable pub lifecycle_component : Text → Text → Text → Text → Text
unfolding strip_punctuation to_lower
lifecycle_component name logical_volume_id timestamp operation_id =
    name
    ++ b'-'
      ∷ (logical_volume_id
          ++ b'-' ∷ (strip_punctuation (to_lower timestamp) ++ b'-' ∷ operation_id))

-- ManagedLifecycleTarget
unfoldable pub managed_lifecycle_target :
    Text → Text → Text → Text → Text → Text → Result VolumeError Text
unfolding validate_base_path text_eq validate_directory_name validate_logical_volume_id
    validate_required_timestamp validate_operation_id lifecycle_component join
managed_lifecycle_target base_path managed_directory name logical_volume_id timestamp operation_id =
    do
      validate_base_path base_path
      reject
          (not (text_eq managed_directory (text ".archived"))
            && not (text_eq managed_directory (text ".deleted")))
          bad_managed_directory
      validate_directory_name name
      validate_logical_volume_id logical_volume_id
      validate_required_timestamp timestamp
      validate_operation_id operation_id
      let component = lifecycle_component name logical_volume_id timestamp operation_id
      reject (ltb max_filesystem_component_bytes (length component)) component_too_long
      ok (join (base_path ∷ managed_directory ∷ component ∷ []))
