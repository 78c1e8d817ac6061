-- ===== src/FullFeatureSet/DeviceConfiguration/Tests.antt =====
-- The configuration of src/examples/full_feature_set/Application.cpp on a small JSON library and a disk
-- of texts.
use wolk_connect_cpp.Base.{some, [], ◌∷◌, ◌≡◌, refl, lookup, emplace, replace}
use wolk_connect_cpp.FirmwareUpdateService.Tests.{Texts, no_texts, put, text_files}
use wolk_connect_cpp.FullFeatureSet.{
  ConfigurationItem, config_json_path, read_file, write_file, append_items,
}
use wolk_connect_cpp.FullFeatureSet.Samples.{sample_json, dump, letter_of, of_fields}
use wolk_connect_cpp.FullFeatureSet.DeviceConfiguration.{
  DeviceConfiguration, hb, ef, ll, device_configuration, handle_configuration, put_items,
}
use wolk_connect_cpp.FullFeatureSet.DeviceConfiguration.Restarts.{run_changes, run_changes-restart}

abbrev pub Kept : Type 0
Kept = DeviceConfiguration sample_json text_files

-- The first start, with no file.
abbrev pub first_disk : Texts
first_disk = put no_texts config_json_path "[h,e,l]"

abbrev pub started : Kept
started = record { configuration = ("EF", ef) ∷ ("HB", hb) ∷ ("LL", ll) ∷ []; disk = first_disk }

abbrev pub soon : ConfigurationItem
soon = record { values = "soon" ∷ []; reference = "HB" }

abbrev pub changed : Kept
changed = record {
  configuration = ("EF", ef) ∷ ("HB", soon) ∷ ("LL", ll) ∷ [];
  disk = put first_disk config_json_path "[e,s,l]";
}

pub first_start : device_configuration sample_json text_files no_texts ≡ some started
unfolding device_configuration read_file write_file append_items emplace dump letter_of sample_json
    of_fields
first_start = refl

pub a_change : handle_configuration sample_json text_files started (soon ∷ []) ≡ some changed
unfolding handle_configuration put_items lookup replace read_file write_file append_items dump
    letter_of sample_json of_fields
a_change = refl

run_changes-restart_example :
    device_configuration sample_json text_files changed.disk ≡ some changed
unfolding run_changes handle_configuration write_file sample_json lookup replace of_fields
run_changes-restart_example =
    run_changes-restart sample_json text_files (λ d p text. refl) no_texts started changed
      ((soon ∷ []) ∷ []) first_start a_change
