-- ===== src/Volume/Replay.antt =====
-- ValidateCreateReplay of pkg/volume/request.go: a create request against the record of an earlier
-- one.
use scaleway_file_storage_su.Prelude.{ℕ, not, ◌||◌}
use scaleway_file_storage_su.Prelude.Results.{Result, reject, ◌>>=◌, ◌>>◌}
use scaleway_file_storage_su.Prelude.Texts.{Text}
use scaleway_file_storage_su.Prelude.Equality.{◌=?◌, text_Eq}
use scaleway_file_storage_su.Volume.Errors.{VolumeError, create_replay_incompatible}
use scaleway_file_storage_su.Volume.Request.{
  CreateParameters, normalize, equal_create_parameters, capacity_compatible,
}
use scaleway_file_storage_su.Volume.Handle.{Codec, logical_volume_id_of}
use scaleway_file_storage_su.Volume.Records.{DetailedAllocation}
use scaleway_file_storage_su.Volume.Validation.{validate_detailed}

-- ValidateCreateReplay
unfoldable pub validate_create_replay :
    Codec
    → DetailedAllocation
    → (request_name : Text) → (required limit : ℕ) → CreateParameters
    → Result VolumeError (Unit {0})
validate_create_replay codec r request_name required limit parameters = do
  validate_detailed codec r
  logical_id ← logical_volume_id_of codec r.driver_name request_name
  reject
      (not (logical_id =? r.logical_volume_id)
        || not (request_name =? r.create_volume_request_name))
      create_replay_incompatible
  normalized ← normalize parameters
  reject (not (equal_create_parameters normalized r.normalized_create_parameters))
      create_replay_incompatible
  reject (not (capacity_compatible r.selected_capacity_bytes required limit))
      create_replay_incompatible
