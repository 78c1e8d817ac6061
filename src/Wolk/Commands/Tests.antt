-- ===== src/Wolk/Commands/Tests.antt =====
-- Wolk with all its services, on a connection that fails once.
use wolk_connect_cpp.Base.{
  false, ℕ, String, Bool, true, none, some, List, [], ◌∷◌, ◌++◌, ◌≡◌, refl, ap, sym, ◌-◌, ◌==◌,
  length, is_some, Bool-cases, str_eq, str_eq_iff, inl, inr, ◌<◌, arith,
}
use wolk_connect_cpp.Sdk.Connectivity.{Message, Connectivity}
use wolk_connect_cpp.DataService
use wolk_connect_cpp.DataService.{ActuatorState}
use wolk_connect_cpp.DataService.Tests.{sample_environment, one_reading, switch_on}
use wolk_connect_cpp.KeepAliveService
use wolk_connect_cpp.KeepAliveService.Tests.{new_service}
use wolk_connect_cpp.FirmwareUpdateService
use wolk_connect_cpp.FileDownloadService
use wolk_connect_cpp.FileDownloadService.Tests.{sample_kit}
use wolk_connect_cpp.FirmwareUpdateService.Tests.{sample_setup}
use wolk_connect_cpp.FileDownloadService.Handlers.{DownloadProtocol}
use wolk_connect_cpp.WolkBuilder.{data_service, file_download_service}
use wolk_connect_cpp.WolkBuilder.Tests.{sample_parts}
use wolk_connect_cpp.Wolk.Facade.{
  Library, Arrives, next_message, message_received, message_received-Arrives,
}
use wolk_connect_cpp.Wolk.{Platform, Wolk, connect, disconnect, publish}
use wolk_connect_cpp.Wolk.Commands.Flushing.{publish-empties}
use wolk_connect_cpp.DataService.Separation.{Separate, Listed}
use wolk_connect_cpp.FileRepository.{contains}
use wolk_connect_cpp.Wolk.Callbacks.{unset, of_lambda}
use wolk_connect_cpp.Wolk.Commands.{
  data_message_received, notify_connected, notify_disconnected, run,
}
use wolk_connect_cpp.Wolk.Commands.Actuation.{data_message_received-actuates}
use wolk_connect_cpp.Wolk.Commands.Connection.{Announced, connect-announces, disconnect-reconnects}
use wolk_connect_cpp.Wolk.Commands.Readings.{
  Reading, Stored, add_readings, logged, add_readings-Stored,
}

-- How many attempts to connect still fail, and what went out.
pub record Line : Type 0 where
  pub failures : ℕ
  pub messages : List Message

abbrev pub line : Connectivity
line = record {
  Network = Line;
  publish = λ n m. (true, record n { messages = n.messages ++ m ∷ [] });
  sent = λ n. n.messages;
  sent-publish = λ n m e. refl;
  sent-publish_refused = λ n m e. absurd (cc e);
}

abbrev pub try_line : Line → Bool × Line
try_line n = (n.failures == 0, record n { failures = n.failures - 1 })

-- The application is the value of its switch.
abbrev pub sample_platform : Platform
sample_platform = record {
  Item = String;
  net = line;
  connect = try_line;
  disconnect = λ n. n;
  env = sample_environment;
  protocol = DataService.Tests.sample_protocol;
  status_protocol = KeepAliveService.Tests.sample_protocol;
  kit = sample_kit;
  setup = sample_setup;
  Application = String;
  zero_timestamp = "0";
  no_actuator_status = ("", ActuatorState.error);
}

abbrev pub sample_wolk : Wolk sample_platform
sample_wolk = record {
  device_key = "d";
  actuator_references = "switch" ∷ [];
  commands = [];
  world = record { store = one_reading; network = record { failures = 1; messages = [] } };
  keep_alive_service = some new_service;
  firmware_update_service = some FirmwareUpdateService.Tests.sample_service;
  file_download_service = some FileDownloadService.Tests.sample_service;
  actuation_handler = of_lambda (some (λ a reference value. value));
  actuator_status_provider = of_lambda (some (λ a reference. (a, ActuatorState.ready)));
  configuration_handler = unset;
  configuration_provider = unset;
  application = "off";
  nanoseconds = 5_000_000;
}

data_message_received-actuates_example :
    let after : Wolk sample_platform = record sample_wolk { application = "on" } in
    run sample_platform 0 2 (data_message_received sample_platform sample_wolk switch_on)
    ≡ some (record after {
      world =
          DataService.publish_actuator_statuses line sample_environment "d"
            (record sample_wolk.world {
              store =
                  DataService.add_actuator_status line sample_environment "d" one_reading "switch"
                    "on" ActuatorState.ready;
            });
    })
data_message_received-actuates_example =
    data_message_received-actuates sample_platform 0 sample_wolk switch_on "switch" "on" refl refl
      refl (refl, refl, refl, refl)

connect-announces_example :
    (w' : Wolk sample_platform) × (run sample_platform 0 2 (connect sample_platform sample_wolk)
      ≡ some w')
    × Announced sample_platform sample_wolk w' (record { failures = 0; messages = [] })
connect-announces_example =
    connect-announces sample_platform 0 1 sample_wolk (record { failures = 0; messages = [] }) refl
      (refl, refl)
      (λ s e.
        ap (λ o. elim o [ none ↦ true | some t ↦ is_some t.firmware_version_provider ]) (sym e))

disconnect-reconnects_example :
    run sample_platform 0 3 (disconnect sample_platform (connect sample_platform sample_wolk))
    ≡ notify_connected sample_platform (
        notify_disconnected sample_platform (record sample_wolk {
          world = record sample_wolk.world { network = record { failures = 0; messages = [] } };
        }))
disconnect-reconnects_example =
    disconnect-reconnects sample_platform 0 sample_wolk (record { failures = 0; messages = [] })
      refl refl refl

abbrev two_readings : List Reading
two_readings =
    record { reference = "t"; values = "21" ∷ []; rtc = 0 }
    ∷ record { reference = "t"; values = []; rtc = 9 }
    ∷ record { reference = "u"; values = "7" ∷ "8" ∷ []; rtc = 9 }
    ∷ []

add_readings-Stored_example :
    (w' : Wolk sample_platform) × (run sample_platform 0
        (length (add_readings sample_platform sample_wolk two_readings).commands)
        (add_readings sample_platform sample_wolk two_readings)
      ≡ some w')
    × Stored sample_platform sample_wolk w' (logged sample_platform 5 two_readings)
add_readings-Stored_example = add_readings-Stored sample_platform 0 sample_wolk two_readings refl

abbrev quiet_protocol : DownloadProtocol sample_kit
quiet_protocol = record {
  make_binary_data = λ m. none;
  make_file_upload_initiate = λ m. none;
  make_file_upload_abort = λ m. none;
  make_file_delete = λ m. none;
  is_file_purge = λ m. false;
  make_file_list_confirm = λ m. none;
  make_file_url_download_initiate = λ m. none;
  make_file_url_download_abort = λ m. none;
}

abbrev sample_library : Library sample_parts sample_platform quiet_protocol
sample_library = record {
  wolk = sample_wolk;
  handler = record {
    device_key = "d";
    commands = [];
    subscription_list = "p2d/d" ∷ "p2d/file" ∷ [];
    channel_handlers = ("p2d/d", data_service "json") ∷ ("p2d/file", file_download_service) ∷ [];
  };
}

message_received-Arrives_example :
    Arrives sample_parts sample_platform quiet_protocol sample_library "p2d/d" "on" (
      next_message sample_parts sample_platform quiet_protocol
        (message_received sample_parts sample_platform quiet_protocol sample_library "p2d/d" "on"))
message_received-Arrives_example =
    message_received-Arrives sample_parts sample_platform quiet_protocol sample_library "p2d/d" "on"
      refl

sample-Separate : Separate line sample_environment "d"
sample-Separate = record {
  statuses-readings = λ s k j. refl;
  alarms-readings = λ s k n j. refl;
  configurations-readings = λ s k j. refl;
  statuses-alarms = λ s k j. refl;
  statuses-keys = λ s k. refl;
  alarms-keys = λ s k n. refl;
}

sample-Listed : Listed line sample_environment "d" one_reading
unfolding Listed contains
sample-Listed j = elim (Bool-cases (str_eq j "t")) [
  | inl same ↦ inr (ground (arith, str_eq_iff j "t", str_eq_iff "t" j))
  | inr other ↦ inl (ground (arith, str_eq_iff j "t"))
]

at_most_one : (k : String) → length (one_reading.readings k) < 2
at_most_one k = ground arith

publish-empties_example :
    (w' : Wolk sample_platform) × (run sample_platform 2 1 (publish sample_platform sample_wolk)
      ≡ some w')
    × (w'.commands ≡ [])
    × ((k : String) → w'.world.store.readings k ≡ [])
publish-empties_example =
    publish-empties sample_platform sample_wolk sample-Separate (λ n m. refl) (λ xs more e. cc e)
      (λ xs more e. cc e) 2 refl at_most_one (λ k. omega arith) sample-Listed
