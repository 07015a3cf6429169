-- ===== src/Driver/Reservation/Examples.antt =====
-- A reservation of a new volume, and a second request with a wider capacity range.
use scaleway_file_storage_su.Prelude.{true, [], ◌++◌, none, ◌≡◌, refl, false}
use scaleway_file_storage_su.Prelude.Results.{ok}
use scaleway_file_storage_su.Prelude.Texts.{text, text_eq}
use scaleway_file_storage_su.Volume.State.{ready, reserved, reserves, state_eq}
use scaleway_file_storage_su.Volume.Records.{DetailedAllocation, kind_eq, logical_id}
use scaleway_file_storage_su.Volume.Replay.{validate_create_replay}
use scaleway_file_storage_su.Volume.Samples.{constant_sealer, volume_at, some_uuid, day, digits}
use scaleway_file_storage_su.Driver.World.{answered, Controller}
use scaleway_file_storage_su.Driver.Reservation.{
  CreateRequest, Placement, reserved_record, new_reserved_record, create_response,
}
use scaleway_file_storage_su.Driver.Reservation.Replay.{new_reserved_record-replay}
use scaleway_file_storage_su.Volume.Validation.{
  validate_record, validate_detailed, validate_common_identity, validate_logical_identity,
  validate_request_identity, validate_mapping_identity, validate_reservation,
  validate_published_nodes, is_sorted, validate_nodes,
}
use scaleway_file_storage_su.Volume.Lifecycle.{
  validate_lifecycle, validate_recovery_fields, count_present, validate_persisted_paths,
  validate_persisted_path, validate_gc_fields, validate_state, has_delete_fields,
}
use scaleway_file_storage_su.Volume.Identifiers.{
  validate_driver_name, validate_installation_id, validate_cluster_uid, validate_logical_volume_id,
  validate_volume_handle_hash, validate_mapping_hash, validate_operation_id,
  validate_parent_filesystem_id, validate_pool_name, validate_base_path_hash, is_uuid,
}
use scaleway_file_storage_su.Volume.Timestamps.{
  validate_required_timestamp, validate_optional_timestamps,
}
use scaleway_file_storage_su.Volume.Paths.{
  validate_directory_name, validate_base_path, directory_name,
}
use scaleway_file_storage_su.Volume.Handle.{
  validate_mapping, logical_volume_id_of, mapping_hash_of, base_path_hash_of, volume_handle_hash_of,
  request_hash_of, truncated_bytes_hash, truncated_canonical_hash, hex_prefix, new_handle,
  print_handle, parse_handle,
}
use scaleway_file_storage_su.Volume.Request.{
  normalize, equal_create_parameters, capacity_compatible, disposition_eq, validate_directory_mode,
  validate_policy,
}
use scaleway_file_storage_su.Prelude.Strings.{contains_byte, text_leb, valid_utf8}
use scaleway_file_storage_su.Volume.CleanPath.{clean, join}
use scaleway_file_storage_su.Volume.Context.{validate_context}
use scaleway_file_storage_su.Volume.WireContext.{
  context_map, context_entries, format_uint, digits_before, policy_text, validate_entries,
}
use scaleway_file_storage_su.Prelude.Equality.{texts_eq, bool_eq}

range_holds : capacity_compatible 100 50 200 ≡ true
unfolding capacity_compatible
range_holds = refl

abbrev quiet_controller : Controller
quiet_controller = record {
  sealer = constant_sealer;
  encode = λ r. [];
  answer = λ n. record { reply = answered; word = day; yes = false; recovered = none };
  driver_name = text "csi.example.com";
  installation_id = some_uuid;
  cluster_uid = text "cluster-1";
}

abbrev claim_request : CreateRequest
claim_request = record {
  name = text "pvc-1";
  required_bytes = 100;
  limit_bytes = 0;
  parameters = (volume_at ready 1 true).normalized_create_parameters;
  pvc_namespace = text "team";
  pvc_name = text "data";
}

abbrev only_parent : Placement
only_parent = record { parent_filesystem_id = text "fs-1"; base_path = text "/vols" }

abbrev new_record : DetailedAllocation
new_record =
    reserved_record quiet_controller claim_request 100 (text "lv-" ++ digits) only_parent
      (text "team--data--abababababab")
      (record { logical_volume_id = text "lv-" ++ digits; mapping_hash = text "mh-" ++ digits })
      (text "vh-" ++ digits) (text "bp-" ++ digits) (text "rh-" ++ digits) day

reservation_made :
    new_reserved_record quiet_controller claim_request 100 (text "lv-" ++ digits) only_parent day
    ≡ ok new_record
unfolding validate_record validate_detailed validate_common_identity validate_logical_identity
    validate_request_identity validate_mapping_identity validate_reservation
    validate_published_nodes is_sorted validate_nodes validate_lifecycle validate_recovery_fields
    count_present validate_persisted_paths validate_persisted_path validate_gc_fields validate_state
    validate_driver_name validate_installation_id validate_cluster_uid validate_logical_volume_id
    validate_volume_handle_hash validate_mapping_hash validate_operation_id
    validate_parent_filesystem_id validate_required_timestamp validate_optional_timestamps
    validate_directory_name validate_mapping validate_pool_name validate_base_path normalize
    equal_create_parameters capacity_compatible logical_volume_id_of mapping_hash_of
    base_path_hash_of volume_handle_hash_of request_hash_of truncated_bytes_hash
    truncated_canonical_hash reserves contains_byte text_leb clean join kind_eq state_eq
    disposition_eq text_eq logical_id hex_prefix validate_base_path_hash is_uuid validate_context
    context_map context_entries format_uint digits_before policy_text validate_entries
    validate_directory_mode validate_policy directory_name new_handle print_handle valid_utf8
    new_reserved_record create_response parse_handle texts_eq bool_eq has_delete_fields
reservation_made = refl

new_reserved_record-replay_example :
    (validate_create_replay constant_sealer.codec new_record
        (text "pvc-1")
        50
        200
        (volume_at ready 1 true).normalized_create_parameters
      ≡ ok tt)
    × (new_record.state ≡ reserved)
    × (new_record.reserves_capacity ≡ true)
new_reserved_record-replay_example =
    new_reserved_record-replay quiet_controller claim_request 100 50 200 (text "lv-" ++ digits)
      only_parent day reservation_made range_holds
