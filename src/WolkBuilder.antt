-- ===== src/WolkBuilder.antt =====
-- src/WolkBuilder.h and WolkBuilder.cpp: collects the configuration of the library and builds it.
pub mod Building
pub mod Tests
use wolk_connect_cpp.Base.{
  ℕ, String, Bool, true, false, not, ◌&&◌, ◌||◌, Option, none, some, List, [], ◌∷◌, is_nil,
  is_empty, is_some, if◌then◌else◌,
}
use wolk_connect_cpp.Device.{Templates, Device, get_actuator_references}
use wolk_connect_cpp.Wolk.Callbacks.{Callback, unset, of_object, of_lambda, is_set}
use wolk_connect_cpp.InboundPlatformMessageHandler.{
  Listeners, InboundPlatformMessageHandler, add_listener, inbound_platform_message_handler,
}

-- The objects that the builder hands over. A listener is one of the four services.
pub record Parts : Type 1 where
  pub templates : Templates
  pub ActuationHandler : Type 0
  pub ActuatorStatusProvider : Type 0
  pub ConfigurationHandler : Type 0
  pub ConfigurationProvider : Type 0
  pub Persistence : Type 0
  pub DataProtocol : Type 0
  pub FirmwareInstaller : Type 0
  pub FirmwareVersionProvider : Type 0
  pub UrlFileDownloader : Type 0
  -- InMemoryPersistence() and JsonProtocol() of the SDK.
  pub in_memory_persistence : Persistence
  pub json_protocol : DataProtocol
  -- getInboundChannelsForDevice of the data protocol and of the SDK's other protocols.
  pub data_channels : DataProtocol → String → List String
  pub download_channels : String → List String
  pub firmware_channels : String → List String
  pub status_channels : String → List String
  pub mqtt_topic_match : String → String → Bool

-- std::logic_error
pub data LogicError : Type 0 where
  no_device_key no_actuation_handler no_actuator_status_provider : LogicError
  configuration_incomplete file_management_disabled : LogicError

module _ (parts : Parts) where
  open parts use {
    templates, ActuationHandler, ActuatorStatusProvider, ConfigurationHandler,
    ConfigurationProvider, Persistence, DataProtocol, FirmwareInstaller, FirmwareVersionProvider,
    UrlFileDownloader,
  }

  pub record WolkBuilder : Type 0 where
    pub host : String
    pub ca_cert_path : String
    pub device : Device templates
    pub actuation_handler : Callback ActuationHandler
    pub actuator_status_provider : Callback ActuatorStatusProvider
    pub configuration_handler : Callback ConfigurationHandler
    pub configuration_provider : Callback ConfigurationProvider
    -- Not null.
    pub persistence : Persistence
    -- `none` once it has been moved out, or when it is set to null.
    pub data_protocol : Option DataProtocol
    pub file_download_directory : String
    pub max_packet_size : ℕ
    pub firmware_installer : Option FirmwareInstaller
    pub firmware_version_provider : Option FirmwareVersionProvider
    pub url_file_downloader : Option UrlFileDownloader
    pub file_management_enabled : Bool
    pub keep_alive_enabled : Bool

  -- The constructor.
  pub new_builder : Device templates → WolkBuilder
  new_builder d = record {
    host = "ssl://api-demo.wolkabout.com:8883";
    ca_cert_path = "ca.crt";
    device = d;
    actuation_handler = unset;
    actuator_status_provider = unset;
    configuration_handler = unset;
    configuration_provider = unset;
    persistence = parts.in_memory_persistence;
    data_protocol = some parts.json_protocol;
    file_download_directory = "";
    max_packet_size = 0;
    firmware_installer = none;
    firmware_version_provider = none;
    url_file_downloader = none;
    file_management_enabled = false;
    keep_alive_enabled = true;
  }

  -- The setters, a lambda or an object for each callback.
  pub data Setter : Type 0 where
    host : String → Setter
    ca_cert_path : String → Setter
    actuation_handler_lambda : Option ActuationHandler → Setter
    actuation_handler_object : Option ActuationHandler → Setter
    actuator_status_provider_lambda : Option ActuatorStatusProvider → Setter
    actuator_status_provider_object : Option ActuatorStatusProvider → Setter
    configuration_handler_lambda : Option ConfigurationHandler → Setter
    configuration_handler_object : Option ConfigurationHandler → Setter
    configuration_provider_lambda : Option ConfigurationProvider → Setter
    configuration_provider_object : Option ConfigurationProvider → Setter
    with_persistence : Persistence → Setter
    with_data_protocol : Option DataProtocol → Setter
    with_file_management : String → ℕ → Option UrlFileDownloader → Setter
    with_firmware_update : Option FirmwareInstaller → Option FirmwareVersionProvider → Setter
    without_keep_alive : Setter

  pub set : WolkBuilder → Setter → WolkBuilder
  set b (Setter.host h) = record b { host = h }
  set b (Setter.ca_cert_path p) = record b { ca_cert_path = p }
  set b (actuation_handler_lambda f) = record b { actuation_handler = of_lambda f }
  set b (actuation_handler_object f) = record b { actuation_handler = of_object f }
  set b (actuator_status_provider_lambda f) = record b { actuator_status_provider = of_lambda f }
  set b (actuator_status_provider_object f) = record b { actuator_status_provider = of_object f }
  set b (configuration_handler_lambda f) = record b { configuration_handler = of_lambda f }
  set b (configuration_handler_object f) = record b { configuration_handler = of_object f }
  set b (configuration_provider_lambda f) = record b { configuration_provider = of_lambda f }
  set b (configuration_provider_object f) = record b { configuration_provider = of_object f }
  set b (with_persistence p) = record b { persistence = p }
  set b (with_data_protocol p) = record b { data_protocol = p }
  set b (with_file_management directory size downloader) = record b {
    file_download_directory = directory;
    max_packet_size = size;
    url_file_downloader = downloader;
    file_management_enabled = true;
  }
  set b (with_firmware_update installer provider) = record b {
    firmware_installer = installer;
    firmware_version_provider = provider;
  }
  set b without_keep_alive = record b { keep_alive_enabled = false }

  -- The services, as the listeners of messages.
  pub data Service : Type 0 where
    data_service : DataProtocol → Service
    file_download_service firmware_update_service keep_alive_service : Service

  abbrev pub listeners : Listeners
  listeners = record {
    Listener = Service;
    inbound_channels_for_device = channels;
    mqtt_topic_match = parts.mqtt_topic_match;
  }
    where
      channels : Service → String → List String
      channels (data_service p) key = parts.data_channels p key
      channels file_download_service key = parts.download_channels key
      channels firmware_update_service key = parts.firmware_channels key
      channels keep_alive_service key = parts.status_channels key

  -- What `build` makes of the members of the builder.
  pub record Built : Type 0 where
    pub device : Device templates
    pub data_protocol : DataProtocol
    pub persistence : Persistence
    pub host : String
    pub ca_cert_path : String
    pub inbound_message_handler : InboundPlatformMessageHandler listeners
    pub actuation_handler : Callback ActuationHandler
    pub actuator_status_provider : Callback ActuatorStatusProvider
    pub configuration_handler : Callback ConfigurationHandler
    pub configuration_provider : Callback ConfigurationProvider
    -- The arguments of the file service.
    pub file_download_directory : String
    pub max_packet_size : ℕ
    pub url_file_downloader : Option UrlFileDownloader
    -- The firmware service, if there is one, with its installer and provider.
    pub firmware : Option (FirmwareInstaller × FirmwareVersionProvider)
    pub has_keep_alive : Bool

  -- A library or an exception, with the builder that is left, or a call through a null pointer.
  pub data Outcome : Type 0 where
    built : Built → WolkBuilder → Outcome
    logic_error : LogicError → WolkBuilder → Outcome
    null_dereference : Outcome

  -- The tests of the callbacks: the first error, if there is one.
  callback_error : WolkBuilder → Option LogicError
  callback_error b =
      let has_actuators = not (is_nil (get_actuator_references templates b.device)) in
      let handler = b.configuration_handler in
      let provider = b.configuration_provider in
      if is_empty b.device.key
      then some no_device_key
      else if has_actuators && not (is_set b.actuation_handler)
      then some no_actuation_handler
      else if has_actuators && not (is_set b.actuator_status_provider)
      then some no_actuator_status_provider
      else if (not (is_some handler.lambda) && is_some provider.lambda)
          || (is_some handler.lambda && not (is_some provider.lambda))
      then some configuration_incomplete
      else if (not (is_some handler.object) && is_some provider.object)
          || (is_some handler.object && not (is_some provider.object))
      then some configuration_incomplete
      else none

  firmware_of : WolkBuilder → Option (FirmwareInstaller × FirmwareVersionProvider)
  firmware_of b = elim b.firmware_installer [
    | none ↦ none
    | some i ↦ elim b.firmware_version_provider [ none ↦ none | some p ↦ some (i, p) ]
  ]

  -- The listeners in the order in which they are added. The first time, the data service is not there.
  connected_handler : WolkBuilder → DataProtocol → InboundPlatformMessageHandler listeners
  unfolding firmware_of
  connected_handler b p =
      let h = inbound_platform_message_handler listeners b.device.key in
      let with_data =
        add_listener listeners (add_listener listeners h none) (some (data_service p)) in
      let with_files = add_listener listeners with_data (some file_download_service) in
      let with_firmware =
        if is_some (firmware_of b)
        then add_listener listeners with_files (some firmware_update_service)
        else with_files in
      if b.keep_alive_enabled
      then add_listener listeners with_firmware (some keep_alive_service)
      else with_firmware

  -- The library that is built with a data protocol.
  library : WolkBuilder → DataProtocol → Built
  unfolding firmware_of connected_handler
  library b p = record {
    device = b.device;
    data_protocol = p;
    persistence = b.persistence;
    host = b.host;
    ca_cert_path = b.ca_cert_path;
    inbound_message_handler = connected_handler b p;
    actuation_handler = b.actuation_handler;
    actuator_status_provider = b.actuator_status_provider;
    configuration_handler = b.configuration_handler;
    configuration_provider = b.configuration_provider;
    file_download_directory = b.file_download_directory;
    max_packet_size = b.max_packet_size;
    url_file_downloader = b.url_file_downloader;
    firmware = firmware_of b;
    has_keep_alive = b.keep_alive_enabled;
  }

  -- `build` from its tests: the error of the callbacks, the protocol, and whether there is a firmware
  -- service without file management.
  outcome : WolkBuilder → Option LogicError → Option DataProtocol → Bool → Outcome
  unfolding library
  outcome b (some e) protocol firmware_alone = logic_error e b
  outcome b none none firmware_alone = null_dereference
  outcome b none (some p) true =
      logic_error file_management_disabled (record b { data_protocol = none })
  outcome b none (some p) false = built (library b p) (record b { data_protocol = none })

  -- The file of the database opens: what the constructor of SQLiteFileRepository throws is left out.
  pub build : WolkBuilder → Outcome
  unfolding callback_error firmware_of outcome
  build b =
      outcome b (callback_error b) b.data_protocol
        (is_some (firmware_of b) && not b.file_management_enabled)
