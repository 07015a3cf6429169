-- ===== src/Volume/Request.antt =====
-- pkg/volume/request.go and the directory mode of context.go: normalized create parameters, the
-- capacity range and the replay of a create request.
use scaleway_file_storage_su.Prelude.{
  ℕ, ◌<◌, Bool, true, false, not, ◌&&◌, ◌||◌, List, [], ◌∷◌, ltb, leb, ◌==◌, if◌then◌else◌, ◌≡◌,
  ◌↔◌, arith, length,
}
use scaleway_file_storage_su.Prelude.Results.{Result, ok, err, reject, ◌>>=◌, ◌>>◌}
use scaleway_file_storage_su.Prelude.Texts.{Text, text, text_eq, text_eq_iff}
use scaleway_file_storage_su.Prelude.Strings.{in_range, all_bytes, text_leb}
use scaleway_file_storage_su.Prelude.Equality.{Eq, ◌=?◌, nat_eq, text_Eq, texts_Eq}
use scaleway_file_storage_su.Volume.Errors.{
  VolumeError, bad_delete_policy, bad_access_mode, bad_access_type, bad_filesystem_type,
  bad_directory_mode, bad_directory_owner, no_access_mode, capacity_out_of_range,
}
use scaleway_file_storage_su.Volume.Identifiers.{validate_pool_name}
use scaleway_file_storage_su.Volume.Paths.{to_lower}

-- DeletePolicy, and DeleteOperation, to which the source converts it: the same three texts. `other`
-- holds any other text.
pub data Disposition : Type 0 where
  archive delete retain : Disposition
  other : Text → Disposition

unfoldable pub disposition_eq : Disposition → Disposition → Bool
disposition_eq archive archive = true
disposition_eq delete delete = true
disposition_eq retain retain = true
disposition_eq (other s) (other t) = text_eq s t
disposition_eq _ _ = false

pub disposition_eq_iff : (a b : Disposition) → (disposition_eq a b ≡ true) ↔ (a ≡ b)
unfolding disposition_eq
disposition_eq_iff (other s) (other t) = ground (arith, text_eq_iff s t)
disposition_eq_iff a b = ground arith

instance abbrev pub disposition_Eq : Eq Disposition
disposition_Eq = record { beq = disposition_eq; beq_iff = disposition_eq_iff }

-- The zero value of a DeleteOperation.
abbrev pub no_operation : Disposition
no_operation = other []

-- DeletePolicy.Validate
unfoldable pub validate_policy : Disposition → Result VolumeError (Unit {0})
validate_policy archive = ok tt
validate_policy delete = ok tt
validate_policy retain = ok tt
validate_policy (other s) = err bad_delete_policy

abbrev pub single_node_writer : Text
single_node_writer = text "SINGLE_NODE_WRITER"

abbrev pub multi_node_multi_writer : Text
multi_node_multi_writer = text "MULTI_NODE_MULTI_WRITER"

-- AccessMode.Validate
unfoldable pub validate_access_mode : Text → Result VolumeError (Unit {0})
unfolding text_eq
validate_access_mode mode =
    reject (not (text_eq mode single_node_writer || text_eq mode multi_node_multi_writer))
      bad_access_mode

-- ValidateDirectoryMode
unfoldable pub validate_directory_mode : Text → Result VolumeError (Unit {0})
unfolding all_bytes
validate_directory_mode [] = err bad_directory_mode
validate_directory_mode (b ∷ bs) =
    reject (not (length bs == 3) || not (b == b'0') || not (all_bytes (in_range b'0' b'7') bs))
      bad_directory_mode

-- slices.Sort
insert_sorted : Text → List Text → List Text
unfolding text_leb
insert_sorted t [] = t ∷ []
insert_sorted t (u ∷ us) = if text_leb t u then t ∷ u ∷ us else u ∷ insert_sorted t us

unfoldable pub sort : List Text → List Text
unfolding insert_sorted
sort [] = []
sort (t ∷ ts) = insert_sorted t (sort ts)

-- slices.Compact
unfoldable pub compact : List Text → List Text
unfolding text_eq
compact [] = []
compact (t ∷ []) = t ∷ []
compact (t ∷ u ∷ us) = let rest = compact (u ∷ us) in if text_eq t u then rest else t ∷ rest

-- CreateParameters
pub record CreateParameters : Type 0 where
  pub pool_name : Text
  pub delete_policy : Disposition
  pub directory_uid : ℕ
  pub directory_gid : ℕ
  pub directory_mode : Text
  pub access_type : Text
  pub filesystem_type : Text
  pub access_modes : List Text

-- The loop over the sorted modes.
validate_access_modes : List Text → Result VolumeError (Unit {0})
unfolding validate_access_mode
validate_access_modes [] = ok tt
validate_access_modes (mode ∷ modes) = do validate_access_mode mode; validate_access_modes modes

normalize_filesystem_type : Text → Result VolumeError Text
unfolding to_lower text_eq
normalize_filesystem_type filesystem_type = do
  let lowered = to_lower filesystem_type
  reject (not (text_eq lowered []) && not (text_eq lowered (text "virtiofs"))) bad_filesystem_type
  ok (if text_eq lowered [] then text "virtiofs" else lowered)

abbrev pub max_owner : ℕ
max_owner = 2147483647

-- CreateParameters.Normalize
unfoldable pub normalize : CreateParameters → Result VolumeError CreateParameters
unfolding validate_pool_name validate_policy validate_directory_mode text_eq
    normalize_filesystem_type sort compact validate_access_modes
normalize parameters = do
  validate_pool_name parameters.pool_name
  validate_policy parameters.delete_policy
  reject (ltb max_owner parameters.directory_uid || ltb max_owner parameters.directory_gid)
      bad_directory_owner
  validate_directory_mode parameters.directory_mode
  reject (not (text_eq parameters.access_type (text "mount"))) bad_access_type
  filesystem_type ← normalize_filesystem_type parameters.filesystem_type
  reject (length parameters.access_modes == 0) no_access_mode
  let modes = compact (sort parameters.access_modes)
  validate_access_modes modes
  ok (record parameters { filesystem_type = filesystem_type; access_modes = modes })

-- EqualCreateParameters
unfoldable pub equal_create_parameters : CreateParameters → CreateParameters → Bool
equal_create_parameters left right =
    (left.pool_name =? right.pool_name)
    && (left.delete_policy =? right.delete_policy)
    && (left.directory_uid =? right.directory_uid)
    && (left.directory_gid =? right.directory_gid)
    && (left.directory_mode =? right.directory_mode)
    && (left.access_type =? right.access_type)
    && (left.filesystem_type =? right.filesystem_type)
    && (left.access_modes =? right.access_modes)

pub equal_create_parameters_iff :
    (a b : CreateParameters) → (equal_create_parameters a b ≡ true) ↔ (a ≡ b)
unfolding equal_create_parameters
equal_create_parameters_iff a b = ground (
  arith,
  text_eq_iff a.pool_name b.pool_name,
  disposition_eq_iff a.delete_policy b.delete_policy,
  text_eq_iff a.directory_mode b.directory_mode,
  text_eq_iff a.access_type b.access_type,
  text_eq_iff a.filesystem_type b.filesystem_type,
  texts_Eq.beq_iff a.access_modes b.access_modes,
)

instance abbrev pub create_parameters_Eq : Eq CreateParameters
create_parameters_Eq = record {
  beq = equal_create_parameters;
  beq_iff = equal_create_parameters_iff;
}

-- CapacityCompatible
unfoldable pub capacity_compatible : ℕ → ℕ → ℕ → Bool
capacity_compatible selected required limit =
    if ltb selected required then false else (limit == 0 || leb selected limit)

abbrev pub default_logical_reservation_bytes : ℕ
default_logical_reservation_bytes = 1073741824

-- SelectCapacity
unfoldable pub select_capacity : ℕ → ℕ → Result VolumeError ℕ
select_capacity required limit = do
  let selected = if required == 0 then default_logical_reservation_bytes else required
  reject (ltb 0 limit && ltb limit selected) capacity_out_of_range
  ok selected

-- A selected capacity is positive and compatible with the range that it was selected for.
pub select_capacity-compatible :
    (required limit : ℕ) {selected : ℕ}
    → select_capacity required limit ≡ ok selected
    → (capacity_compatible selected required limit ≡ true) × (0 < selected)
unfolding select_capacity capacity_compatible
select_capacity-compatible required limit h = ground arith
