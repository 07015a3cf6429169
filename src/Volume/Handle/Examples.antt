-- ===== src/Volume/Handle/Examples.antt =====
-- A handle and its text.
use scaleway_file_storage_su.Prelude.{◌++◌, ◌≡◌, refl}
use scaleway_file_storage_su.Prelude.Results.{ok}
use scaleway_file_storage_su.Prelude.Texts.{Text, text, text_eq}
use scaleway_file_storage_su.Volume.Identifiers.{validate_logical_volume_id, validate_mapping_hash}
use scaleway_file_storage_su.Volume.Handle.{Handle, parse_handle, print_handle, fields_of}
use scaleway_file_storage_su.Volume.Handle.RoundTrip.{
  parse_handle-print_handle, print_handle-parse_handle,
}

abbrev sample_digits : Text
sample_digits = text "0123456789abcdef0123456789abcdef"

abbrev sample_handle : Handle
sample_handle = record {
  logical_volume_id = text "lv-" ++ sample_digits;
  mapping_hash = text "mh-" ++ sample_digits;
}

abbrev sample_text : Text
sample_text = text "sfs1:lv-" ++ sample_digits ++ text ":mh-" ++ sample_digits

sample-logical : validate_logical_volume_id sample_handle.logical_volume_id ≡ ok tt
unfolding validate_logical_volume_id
sample-logical = refl

sample-mapping : validate_mapping_hash sample_handle.mapping_hash ≡ ok tt
unfolding validate_mapping_hash
sample-mapping = refl

sample-read : parse_handle sample_text ≡ ok sample_handle
unfolding parse_handle fields_of text_eq
sample-read = refl

parse_handle-print_handle_example : parse_handle (print_handle sample_handle) ≡ ok sample_handle
parse_handle-print_handle_example =
    parse_handle-print_handle sample_handle sample-logical sample-mapping

print_handle-parse_handle_example : print_handle sample_handle ≡ sample_text
print_handle-parse_handle_example = print_handle-parse_handle sample_text sample_handle sample-read
