-- ===== src/Volume/Handle.antt =====
-- pkg/volume/handle.go: logical identities, mapping hashes and the compact handle. SHA-256 and the
-- canonical JSON encoder of internal/canonicaljson, which stands on encoding/json, are parameters.
pub mod RoundTrip
mod Examples
use scaleway_file_storage_su.Prelude.{
  ℕ, zero, suc, ◌+◌, ◌-◌, ◌/◌, ◌%◌, not, ◌&&◌, List, [], ◌∷◌, ◌++◌, length, ltb, ◌==◌,
  if◌then◌else◌,
}
use scaleway_file_storage_su.Prelude.Results.{Result, ok, err, reject, map_err, ◌>>=◌, ◌>>◌}
use scaleway_file_storage_su.Prelude.Texts.{Text, text, text_eq}
use scaleway_file_storage_su.Prelude.Strings.{contains_byte, has_prefix, split}
use scaleway_file_storage_su.Volume.Errors.{
  VolumeError, bad_request_name, invalid_handle, foreign_handle, handle_mismatch, zero_capacity,
  capacity_over_limit,
}
use scaleway_file_storage_su.Volume.Identifiers.{
  max_handle_bytes, validate_driver_name, validate_pool_name, validate_parent_filesystem_id,
  validate_logical_volume_id, validate_mapping_hash,
}
use scaleway_file_storage_su.Volume.Paths.{validate_base_path, validate_directory_name}
use scaleway_file_storage_su.Volume.Request.{CreateParameters, Disposition, normalize}

-- A value of a hashed JSON object.
pub data JsonValue : Type 0 where
  string : Text → JsonValue
  number : ℕ → JsonValue
  strings : List Text → JsonValue
  disposition : Disposition → JsonValue

-- What the hashes of durable records stand on: the canonical encoding of an object with its keys in
-- order, and SHA-256.
pub record Codec : Type 0 where
  pub marshal : List (Text × JsonValue) → Text
  pub sha256 : Text → Text

-- Handle and Mapping
pub record Handle : Type 0 where
  pub logical_volume_id : Text
  pub mapping_hash : Text

pub record Mapping : Type 0 where
  pub pool_name : Text
  pub parent_filesystem_id : Text
  pub base_path : Text
  pub directory_name : Text
  pub logical_volume_id : Text

abbrev hex_digit : ℕ → ℕ
hex_digit n = if ltb n 10 then b'0' + n else b'a' + n - 10

-- hex.EncodeToString(sum[:count])
unfoldable pub hex_prefix : ℕ → Text → Text
hex_prefix zero bs = []
hex_prefix (suc count) [] = []
hex_prefix (suc count) (b ∷ bs) = hex_digit (b / 16) ∷ hex_digit (b % 16) ∷ hex_prefix count bs

-- Mapping.Validate
unfoldable pub validate_mapping : Mapping → Result VolumeError (Unit {0})
validate_mapping mapping = do
  validate_pool_name mapping.pool_name
  validate_parent_filesystem_id mapping.parent_filesystem_id
  validate_base_path mapping.base_path
  validate_directory_name mapping.directory_name
  validate_logical_volume_id mapping.logical_volume_id

abbrev handle_prefix : Text
handle_prefix = text "sfs1"

-- The three fields of a split handle. The field before the first colon is the prefix that has been
-- tested.
unfoldable fields_of : List Text → Result VolumeError Handle
unfolding text_eq
fields_of (prefix ∷ id ∷ hash ∷ []) =
    if text_eq prefix handle_prefix
    then ok (record { logical_volume_id = id; mapping_hash = hash })
    else err invalid_handle
fields_of _ = err invalid_handle

-- Both validators' errors are wrapped in ErrInvalidHandle.
abbrev as_invalid : VolumeError → VolumeError
as_invalid e = invalid_handle

-- ParseHandle
unfoldable pub parse_handle : Text → Result VolumeError Handle
unfolding has_prefix split fields_of validate_logical_volume_id validate_mapping_hash
parse_handle encoded = do
  reject (length encoded == 0) invalid_handle
  reject (ltb max_handle_bytes (length encoded)) invalid_handle
  reject (not (has_prefix encoded (handle_prefix ++ text ":"))) foreign_handle
  handle ← fields_of (split b':' encoded)
  map_err as_invalid (validate_logical_volume_id handle.logical_volume_id)
  map_err as_invalid (validate_mapping_hash handle.mapping_hash)
  ok handle

-- Handle.String
unfoldable pub print_handle : Handle → Text
print_handle handle =
    handle_prefix ++ b':' ∷ (handle.logical_volume_id ++ b':' ∷ handle.mapping_hash)

module _ (codec : Codec) where
  -- truncatedBytesHash
  unfoldable pub truncated_bytes_hash : Text → Text → Text
  unfolding hex_prefix
  truncated_bytes_hash prefix value = prefix ++ hex_prefix 16 (codec.sha256 value)

  -- truncatedCanonicalHash
  unfoldable pub truncated_canonical_hash : Text → List (Text × JsonValue) → Text
  unfolding truncated_bytes_hash
  truncated_canonical_hash prefix payload = truncated_bytes_hash prefix (codec.marshal payload)

  -- LogicalVolumeID
  unfoldable pub logical_volume_id_of : Text → Text → Result VolumeError Text
  logical_volume_id_of driver_name request_name = do
    validate_driver_name driver_name
    reject (length request_name == 0) bad_request_name
    reject (contains_byte 0 request_name) bad_request_name
    ok (truncated_bytes_hash (text "lv-") (driver_name ++ 0 ∷ request_name))

  -- MappingHash
  unfoldable pub mapping_hash_of : Mapping → Result VolumeError Text
  mapping_hash_of mapping = do
    validate_mapping mapping
    ok (
        truncated_canonical_hash (text "mh-") (
          (text "basePath", string mapping.base_path)
          ∷ (text "directoryName", string mapping.directory_name)
          ∷ (text "logicalVolumeID", string mapping.logical_volume_id)
          ∷ (text "parentFilesystemID", string mapping.parent_filesystem_id)
          ∷ (text "poolName", string mapping.pool_name)
          ∷ []))

  -- NewHandle
  unfoldable pub new_handle : Mapping → Result VolumeError Handle
  new_handle mapping = do
    hash ← mapping_hash_of mapping
    ok (record { logical_volume_id = mapping.logical_volume_id; mapping_hash = hash })

  -- Handle.ValidateMapping
  unfoldable pub validate_handle_mapping : Handle → Mapping → Result VolumeError (Unit {0})
  validate_handle_mapping handle mapping = do
    reject (not (text_eq handle.logical_volume_id mapping.logical_volume_id)) handle_mismatch
    want ← mapping_hash_of mapping
    reject (not (text_eq handle.mapping_hash want)) handle_mismatch

  -- BasePathHash
  unfoldable pub base_path_hash_of : Text → Result VolumeError Text
  base_path_hash_of base_path = do
    validate_base_path base_path
    ok (truncated_bytes_hash (text "bp-") base_path)

  -- VolumeHandleHash
  unfoldable pub volume_handle_hash_of : Text → Result VolumeError Text
  volume_handle_hash_of encoded = do
    handle ← parse_handle encoded
    ok (truncated_bytes_hash (text "vh-") encoded)

  -- RequestHash, over the fields of CreateRequestIdentity
  unfoldable pub request_hash_of : ℕ → ℕ → ℕ → CreateParameters → Result VolumeError Text
  request_hash_of required limit selected given = do
    parameters ← normalize given
    reject (selected == 0) zero_capacity
    reject (ltb 0 limit && ltb limit selected) capacity_over_limit
    ok (
        truncated_canonical_hash (text "rh-") (
          (text "accessModes", strings parameters.access_modes)
          ∷ (text "accessType", string parameters.access_type)
          ∷ (text "deletePolicy", disposition parameters.delete_policy)
          ∷ (text "directoryGid", number parameters.directory_gid)
          ∷ (text "directoryMode", string parameters.directory_mode)
          ∷ (text "directoryUid", number parameters.directory_uid)
          ∷ (text "filesystemType", string parameters.filesystem_type)
          ∷ (text "originalLimitBytes", number limit)
          ∷ (text "originalRequiredBytes", number required)
          ∷ (text "poolName", string parameters.pool_name)
          ∷ (text "selectedCapacityBytes", number selected)
          ∷ []))
