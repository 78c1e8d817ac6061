-- ===== src/WolkBuilder/Tests.antt =====
-- WolkBuilder with texts as the application's objects.
use wolk_connect_cpp.Base.{
  String, true, false, none, some, List, [], ◌∷◌, ◌++◌, ◌≡◌, ◌≢◌, ◌⊎◌, refl, str_eq,
}
use wolk_connect_cpp.Device.{Templates, device, get_actuator_references}
use wolk_connect_cpp.Wolk.Callbacks.{is_set}
use wolk_connect_cpp.InboundPlatformMessageHandler.{get_channels, lookup}
use wolk_connect_cpp.WolkBuilder.{
  Parts, WolkBuilder, Built, LogicError, built, logic_error, new_builder, set, build, listeners,
  actuation_handler_lambda, actuator_status_provider_object, configuration_handler_lambda,
  configuration_provider_object, library,
}
use wolk_connect_cpp.WolkBuilder.Building.{
  accepts, channels, listener_of, build-subscribes, build-mixed_configuration,
}

-- A template is the references of its actuators.
abbrev pub sample_templates : Templates
sample_templates = record {
  DeviceTemplate = List String;
  blank = [];
  add_actuator = λ t r. t ++ r ∷ [];
  actuator_references = λ t. t;
  references-blank = refl;
  references-add = λ t r. refl;
}

abbrev pub sample_parts : Parts
sample_parts = record {
  templates = sample_templates;
  ActuationHandler = String;
  ActuatorStatusProvider = String;
  ConfigurationHandler = String;
  ConfigurationProvider = String;
  Persistence = String;
  DataProtocol = String;
  FirmwareInstaller = String;
  FirmwareVersionProvider = String;
  UrlFileDownloader = String;
  in_memory_persistence = "memory";
  json_protocol = "json";
  data_channels = λ p key. "p2d/data" ∷ [];
  download_channels = λ key. "p2d/file" ∷ [];
  firmware_channels = λ key. "p2d/firmware" ∷ [];
  status_channels = λ key. "pong" ∷ [];
  mqtt_topic_match = λ topic channel. str_eq topic channel;
}

abbrev bare_builder : WolkBuilder sample_parts
bare_builder = new_builder sample_parts (device sample_templates "d" "password" ("switch" ∷ []))

abbrev ready_builder : WolkBuilder sample_parts
ready_builder =
    set sample_parts (set sample_parts bare_builder (actuation_handler_lambda (some "handle")))
      (actuator_status_provider_object (some "get"))

subscribed : channels sample_parts ready_builder "json" ≡ "p2d/data" ∷ "p2d/file" ∷ "pong" ∷ []
unfolding set new_builder device get_actuator_references
subscribed = refl

build-subscribes_example :
    (accepts sample_parts ready_builder ≡ true
      × ((p : String) × (w : Built sample_parts) × (ready_builder.data_protocol ≡ some p)
          × (build sample_parts ready_builder
              ≡ built w (record ready_builder { data_protocol = none }))
          × (get_channels (listeners sample_parts) w.inbound_message_handler
              ≡ channels sample_parts ready_builder p)
          × ((channel : String)
              → lookup (listeners sample_parts) channel w.inbound_message_handler.channel_handlers
                ≡ listener_of sample_parts ready_builder p channel)))
    ⊎ (accepts sample_parts ready_builder ≡ false
        × ((w : Built sample_parts) (b' : WolkBuilder sample_parts)
            → build sample_parts ready_builder ≢ built w b'))
build-subscribes_example = build-subscribes sample_parts ready_builder

abbrev mixed_builder : WolkBuilder sample_parts
mixed_builder =
    set sample_parts (set sample_parts ready_builder (configuration_handler_lambda (some "h")))
      (configuration_provider_object (some "p"))

build-mixed_configuration_example :
    (is_set mixed_builder.configuration_handler ≡ true)
    × (is_set mixed_builder.configuration_provider ≡ true)
    × ((e : LogicError) × (build sample_parts mixed_builder ≡ logic_error e mixed_builder))
build-mixed_configuration_example = build-mixed_configuration sample_parts ready_builder "h" "p"

abbrev emptied_builder : WolkBuilder sample_parts
emptied_builder = record ready_builder { data_protocol = none }

builds :
    build sample_parts ready_builder
    ≡ built (library sample_parts ready_builder "json") emptied_builder
unfolding build set new_builder device get_actuator_references
builds = refl
