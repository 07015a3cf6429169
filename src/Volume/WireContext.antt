-- ===== src/Volume/WireContext.antt =====
-- The wire form of an immutable context in pkg/volume/context.go: Map and ValidateWireContext. The map
-- is the list of its entries in the order of the source; the keys differ.
use scaleway_file_storage_su.Prelude.{
  ℕ, zero, suc, ◌+◌, ◌/◌, ◌%◌, not, ◌||◌, List, [], ◌∷◌, length, ltb, if◌then◌else◌,
}
use scaleway_file_storage_su.Prelude.Results.{Result, ok, reject, ◌>>◌}
use scaleway_file_storage_su.Prelude.Texts.{Text, text}
use scaleway_file_storage_su.Prelude.Strings.{valid_utf8}
use scaleway_file_storage_su.Volume.Errors.{VolumeError, bad_context}
use scaleway_file_storage_su.Volume.Identifiers.{max_context_entry_bytes}
use scaleway_file_storage_su.Volume.Request.{Disposition, archive, delete, retain, other}
use scaleway_file_storage_su.Volume.Handle.{Codec}
use scaleway_file_storage_su.Volume.Context.{ImmutableContext, validate_context}

-- strconv.FormatUint in base 10: a uint64 has at most 20 digits.
unfoldable pub digits_before : ℕ → ℕ → Text → Text
digits_before zero n rest = rest
digits_before (suc fuel) n rest =
    let more = digits_before fuel (n / 10) ((b'0' + n % 10) ∷ rest) in
    if ltb n 10 then (b'0' + n) ∷ rest else more

unfoldable pub format_uint : ℕ → Text
format_uint n = digits_before 20 n []

-- string(policy)
unfoldable pub policy_text : Disposition → Text
policy_text archive = text "archive"
policy_text delete = text "delete"
policy_text retain = text "retain"
policy_text (other s) = s

abbrev pub max_context_bytes : ℕ
max_context_bytes = 4096

-- The loop of ValidateWireContext after `total` bytes.
unfoldable pub validate_entries : ℕ → List (Text × Text) → Result VolumeError (Unit {0})
validate_entries total [] = ok tt
validate_entries total ((key, value) ∷ entries) = do
  reject (not (valid_utf8 key) || not (valid_utf8 value)) bad_context
  reject (ltb max_context_entry_bytes (length key)) bad_context
  reject (ltb max_context_entry_bytes (length value)) bad_context
  reject (ltb max_context_bytes (total + length key + length value)) bad_context
  validate_entries (total + length key + length value) entries

unfoldable pub context_entries : ImmutableContext → List (Text × Text)
context_entries context =
    (text "schemaVersion", context.schema_version)
    ∷ (text "installationID", context.installation_id)
    ∷ (text "activeClusterUID", context.active_cluster_uid)
    ∷ (text "poolName", context.pool_name)
    ∷ (text "parentFilesystemID", context.parent_filesystem_id)
    ∷ (text "basePath", context.base_path)
    ∷ (text "basePathHash", context.base_path_hash)
    ∷ (text "directoryName", context.directory_name)
    ∷ (text "directoryMode", context.directory_mode)
    ∷ (text "directoryUid", format_uint context.directory_uid)
    ∷ (text "directoryGid", format_uint context.directory_gid)
    ∷ (text "onDelete", policy_text context.delete_policy)
    ∷ (text "logicalVolumeID", context.logical_volume_id)
    ∷ []

-- ImmutableContext.Map
unfoldable pub context_map : Codec → ImmutableContext → Result VolumeError (List (Text × Text))
context_map codec context = do
  validate_context codec context
  validate_entries 0 (context_entries context)
  ok (context_entries context)
