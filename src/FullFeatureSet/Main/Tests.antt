-- ===== src/FullFeatureSet/Main/Tests.antt =====
-- The application of src/examples/full_feature_set with the library behind it.
use wolk_connect_cpp.Base.{
  ℕ, String, List, ◌+◌, ◌*◌, false, none, some, [], ◌∷◌, ◌≡◌, refl, str_eq, if◌then◌else◌,
}
use wolk_connect_cpp.Sdk.Connectivity.{Message}
use wolk_connect_cpp.FileRepository.{contains}
use wolk_connect_cpp.DataService.{ActuatorStatus}
use wolk_connect_cpp.DataService.Sending.{Sends}
use wolk_connect_cpp.DataService.Tests.{sample_environment, sample_protocol}
use wolk_connect_cpp.FirmwareUpdateService.Tests.{text_files, no_texts}
use wolk_connect_cpp.Wolk.{Platform, Wolk}
use wolk_connect_cpp.Wolk.Callbacks.{of_lambda, unset}
use wolk_connect_cpp.Wolk.Commands.{data_message_received, run}
use wolk_connect_cpp.Wolk.Commands.Tests.{line, sample_platform, sample_wolk}
use wolk_connect_cpp.FullFeatureSet.Samples.{sample_json}
use wolk_connect_cpp.FullFeatureSet.DeviceConfiguration.{DeviceConfiguration}
use wolk_connect_cpp.FullFeatureSet.DeviceConfiguration.Tests.{
  started, soon, changed, first_start, a_change,
}
use wolk_connect_cpp.FullFeatureSet.DeviceConfiguration.Restarts.{run_changes}
use wolk_connect_cpp.FullFeatureSet.Main.{
  pos, info_level, Runtime, Variables, handle_actuation, get_actuator_status, heartbeat_of,
  first_value, Main, start, round,
}
use wolk_connect_cpp.FullFeatureSet.Main.Heartbeats.{bad_heartbeat-IsFatal}
use wolk_connect_cpp.FullFeatureSet.Main.Actuators.{platform, data_message_received-shows}

abbrev sample_runtime : Runtime
sample_runtime = record {
  to_lower = λ text. if str_eq text "INFO" then "info" else text;
  stoi = λ text. if str_eq text "10" then some (pos 10) else none;
  to_string = λ n. "10";
  Double = ℕ;
  tenths = λ n. n;
  thousandths = λ n. n;
  is_above_90 = λ n. false;
  double_to_string = λ n. "0.5";
  Seed = ℕ;
  rand = λ seed. (seed * 7 + 3, seed + 1);
}

bad_heartbeat-IsFatal_example :
    ((m : Main sample_runtime sample_platform sample_json text_files)
        (next : DeviceConfiguration sample_json text_files)
      → round sample_runtime sample_platform sample_json text_files
          (record m { device_configuration = changed })
          next
        ≡ none)
    × ((w : Wolk sample_platform) (seed : ℕ)
        → start sample_runtime sample_platform sample_json text_files w seed changed.disk ≡ none)
unfolding heartbeat_of first_value run_changes
bad_heartbeat-IsFatal_example =
    bad_heartbeat-IsFatal sample_runtime sample_json text_files sample_platform
      (λ d path text. refl) no_texts started started changed [] (soon ∷ []) soon first_start refl
      a_change refl refl

abbrev first_status : List ActuatorStatus → String
first_status [] = ""
first_status (s ∷ ss) = s.value

abbrev base : Platform
base = record sample_platform {
  env = record sample_environment {
    actuator_statuses = record sample_environment.actuator_statuses {
      keys = λ s. "SW" ∷ "SL" ∷ [];
    };
    make_status_message =
        λ key statuses. some (record { content = first_status statuses; channel = "d2p/status/d" });
  };
  protocol = record sample_protocol { make_actuator_set_command = λ m. some ("SW", m.content) };
}

abbrev variables : Variables sample_runtime
variables = record {
  switch_value = false;
  slider_value = pos 0;
  device_firmware_version = pos 1;
  log_level = info_level;
  heartbeat = 10;
}

abbrev device : Wolk (platform sample_runtime base)
device = record {
  device_key = "d";
  actuator_references = "SW" ∷ "SL" ∷ [];
  commands = [];
  world = sample_wolk.world;
  keep_alive_service = none;
  firmware_update_service = none;
  file_download_service = none;
  actuation_handler = of_lambda (some (handle_actuation sample_runtime));
  actuator_status_provider = of_lambda (some (get_actuator_status sample_runtime));
  configuration_handler = unset;
  configuration_provider = unset;
  application = variables;
  nanoseconds = 5_000_000;
}

abbrev set_switch : Message
set_switch = record { content = "true"; channel = "p2d/d" }

-- The message that the protocol makes of the status.
abbrev switch_status : Message
switch_status = record { content = "true"; channel = "d2p/status/d" }

data_message_received-shows_example :
    (w : Wolk (platform sample_runtime base)) × (run
        (platform sample_runtime base)
        0
        2
        (data_message_received (platform sample_runtime base) device set_switch)
      ≡ some w)
    × (w.commands ≡ [])
    × (w.application ≡ handle_actuation sample_runtime variables "SW" "true")
    × Sends switch_status (line.sent device.world.network) (line.sent w.world.network)
unfolding contains
data_message_received-shows_example =
    data_message_received-shows sample_runtime base 0 device set_switch switch_status "SW" "true"
      refl refl refl refl refl (refl, refl, refl, refl) (λ n m. refl) refl refl
