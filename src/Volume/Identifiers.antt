-- ===== src/Volume/Identifiers.antt =====
-- pkg/volume/identifiers.go: the bounded identifiers of durable records. A regular expression of
-- the source is written as a test on the bytes that it matches as a whole.
use scaleway_file_storage_su.Prelude.{
  ℕ, Bool, true, false, not, ◌&&◌, ◌||◌, List, [], ◌∷◌, ◌++◌, length, ltb, ◌==◌,
}
use scaleway_file_storage_su.Prelude.Results.{Result, reject, ◌>>◌}
use scaleway_file_storage_su.Prelude.Texts.{Text, text}
use scaleway_file_storage_su.Prelude.Strings.{
  in_range, is_lower, is_upper, is_hex, is_digit, is_lower_alnum, all_bytes, contains_any, split,
  matches, repeat, literal, valid_utf8,
}
use scaleway_file_storage_su.Volume.Errors.{
  VolumeError, bad_driver_name, bad_operation_id, bad_node_id, bad_installation_id, bad_cluster_uid,
  bad_pool_name, bad_parent_filesystem_id, bad_logical_volume_id, bad_mapping_hash,
  bad_base_path_hash, bad_volume_handle_hash,
}

abbrev pub schema_version_v1 : Text
schema_version_v1 = text "1"

abbrev pub max_handle_bytes : ℕ
max_handle_bytes = 128

abbrev pub max_context_entry_bytes : ℕ
max_context_entry_bytes = 128

abbrev pub max_directory_name_bytes : ℕ
max_directory_name_bytes = max_context_entry_bytes

abbrev is_label_byte : ℕ → Bool
is_label_byte b = is_lower_alnum b || b == b'-'

-- The bytes after the first of a label: `(?:[a-z0-9-]*[a-z0-9])?`.
label_tail : Text → Bool
label_tail [] = true
label_tail (b ∷ []) = is_lower_alnum b
label_tail (b ∷ c ∷ bs) = is_label_byte b && label_tail (c ∷ bs)

-- `[a-z0-9](?:[a-z0-9-]*[a-z0-9])?`, also poolNamePattern
unfoldable pub is_label : Text → Bool
unfolding label_tail
is_label [] = false
is_label (b ∷ bs) = is_lower_alnum b && label_tail bs

all_labels : List Text → Bool
unfolding is_label
all_labels [] = true
all_labels (l ∷ ls) = is_label l && all_labels ls

-- driverNamePattern: two labels or more, joined by dots.
is_domain : List Text → Bool
unfolding all_labels
is_domain [] = false
is_domain (l ∷ []) = false
is_domain (l ∷ m ∷ ls) = all_labels (l ∷ m ∷ ls)

-- uuidPattern
abbrev pub uuid_classes : List (ℕ → Bool)
uuid_classes =
    repeat 8 is_hex
    ++ literal b'-' ∷ repeat 4 is_hex
    ++ literal b'-' ∷ in_range b'1' b'5' ∷ repeat 3 is_hex
    ++ literal b'-' ∷ (λ b. b == b'8' || b == b'9' || b == b'a' || b == b'b') ∷ repeat 3 is_hex
    ++ literal b'-' ∷ repeat 12 is_hex

unfoldable pub is_uuid : Text → Bool
unfolding matches repeat
is_uuid = matches uuid_classes

abbrev is_provider_byte : ℕ → Bool
is_provider_byte b =
    is_lower b || is_upper b || is_digit b || b == b'.' || b == b'_' || b == b':' || b == b'-'

-- providerIDPattern
unfoldable pub is_provider_id : Text → Bool
unfolding all_bytes
is_provider_id [] = false
is_provider_id (b ∷ bs) = (is_lower b || is_upper b || is_digit b) && all_bytes is_provider_byte bs

is_zone_part : Text → Bool
unfolding all_bytes
is_zone_part [] = false
is_zone_part (b ∷ bs) = all_bytes is_lower_alnum (b ∷ bs)

all_zone_parts : List Text → Bool
unfolding is_zone_part
all_zone_parts [] = true
all_zone_parts (p ∷ ps) = is_zone_part p && all_zone_parts ps

-- nodeZonePattern
is_node_zone : Text → Bool
unfolding all_zone_parts split
is_node_zone s = all_zone_parts (split b'-' s)

-- A two-letter prefix, a dash and 32 hexadecimal digits.
unfoldable pub is_hash : ℕ → ℕ → Text → Bool
unfolding matches repeat
is_hash c d = matches (literal c ∷ literal d ∷ literal b'-' ∷ repeat 32 is_hex)

-- `!utf8.ValidString(s) || len(s) == 0 || len(s) > limit`
unfoldable pub not_bounded : ℕ → Text → Bool
unfolding valid_utf8
not_bounded limit s = not (valid_utf8 s) || length s == 0 || ltb limit (length s)

unfoldable pub validate_driver_name : Text → Result VolumeError (Unit {0})
unfolding not_bounded is_domain split
validate_driver_name name = do
  reject (not_bounded 63 name) bad_driver_name
  reject (not (is_domain (split b'.' name))) bad_driver_name

unfoldable pub validate_operation_id : Text → Result VolumeError (Unit {0})
unfolding is_uuid
validate_operation_id id = reject (not (is_uuid id)) bad_operation_id

is_zone_and_server : List Text → Bool
unfolding is_node_zone is_provider_id
is_zone_and_server (zone ∷ server ∷ []) = is_node_zone zone && is_provider_id server
is_zone_and_server _ = false

unfoldable pub validate_node_id : Text → Result VolumeError (Unit {0})
unfolding not_bounded is_zone_and_server split
validate_node_id id = do
  reject (not_bounded max_context_entry_bytes id) bad_node_id
  reject (not (is_zone_and_server (split b'/' id))) bad_node_id

unfoldable pub validate_installation_id : Text → Result VolumeError (Unit {0})
unfolding is_uuid
validate_installation_id id = reject (not (is_uuid id)) bad_installation_id

unfoldable pub validate_cluster_uid : Text → Result VolumeError (Unit {0})
unfolding not_bounded contains_any
validate_cluster_uid uid = do
  reject (not_bounded max_context_entry_bytes uid) bad_cluster_uid
  reject (contains_any (b'/' ∷ 0 ∷ 13 ∷ 10 ∷ []) uid) bad_cluster_uid

unfoldable pub validate_pool_name : Text → Result VolumeError (Unit {0})
unfolding is_label
validate_pool_name name =
    reject (length name == 0 || ltb 63 (length name) || not (is_label name)) bad_pool_name

unfoldable pub validate_parent_filesystem_id : Text → Result VolumeError (Unit {0})
unfolding not_bounded is_provider_id
validate_parent_filesystem_id id = do
  reject (not_bounded max_context_entry_bytes id) bad_parent_filesystem_id
  reject (not (is_provider_id id)) bad_parent_filesystem_id

unfoldable pub validate_logical_volume_id : Text → Result VolumeError (Unit {0})
unfolding is_hash
validate_logical_volume_id id = reject (not (is_hash b'l' b'v' id)) bad_logical_volume_id

unfoldable pub validate_mapping_hash : Text → Result VolumeError (Unit {0})
unfolding is_hash
validate_mapping_hash hash = reject (not (is_hash b'm' b'h' hash)) bad_mapping_hash

unfoldable pub validate_base_path_hash : Text → Result VolumeError (Unit {0})
unfolding is_hash
validate_base_path_hash hash = reject (not (is_hash b'b' b'p' hash)) bad_base_path_hash

unfoldable pub validate_volume_handle_hash : Text → Result VolumeError (Unit {0})
unfolding is_hash
validate_volume_handle_hash hash = reject (not (is_hash b'v' b'h' hash)) bad_volume_handle_hash
