-- ===== src/Wolk.antt =====
-- src/Wolk.h and Wolk.cpp: the application's view of the library. Every call pushes commands into one
-- buffer; a command that runs calls the services and may push further commands.
pub mod Callbacks
pub mod Commands
pub mod Facade
use wolk_connect_cpp.Base.{
  ℕ, ◌+◌, ◌/◌, ◌%◌, ◌^◌, String, Bool, true, false, Option, none, some, List, [], ◌∷◌, ◌++◌, map,
  is_nil, ◌==◌, if◌then◌else◌,
}
use wolk_connect_cpp.Sdk.Connectivity.{Message, Connectivity}
use wolk_connect_cpp.DataService
use wolk_connect_cpp.DataService.{Environment, World, ActuatorState}
use wolk_connect_cpp.DataService.Dispatch
use wolk_connect_cpp.DataService.Dispatch.{
  DataProtocol, Handlers, Call, actuator_get_handler, actuator_set_handler,
  configuration_get_handler, configuration_set_handler,
}
use wolk_connect_cpp.KeepAliveService
use wolk_connect_cpp.KeepAliveService.{StatusProtocol, KeepAliveService}
use wolk_connect_cpp.FileDownloadService
use wolk_connect_cpp.FileDownloadService.{Kit}
use wolk_connect_cpp.FirmwareUpdateService
use wolk_connect_cpp.FirmwareUpdateService.{
  Setup, report_firmware_update_result, publish_firmware_version,
}
use wolk_connect_cpp.Wolk.Callbacks.{Callback, chosen}

-- What the services are built with, the connection, and the application.
pub record Platform : Type 1 where
  pub Item : Type 0
  pub net : Connectivity
  pub connect : net.Network → Bool × net.Network
  pub disconnect : net.Network → net.Network
  pub env : Environment Item
  pub protocol : DataProtocol Item
  pub status_protocol : StatusProtocol
  pub kit : Kit
  pub setup : Setup
  -- The state that the application's callbacks read and change.
  pub Application : Type 0
  -- The timestamp 0.
  pub zero_timestamp : status_protocol.Timestamp
  -- ActuatorStatus() of the SDK.
  pub no_actuator_status : String × ActuatorState

module _ (platform : Platform) where
  open platform use {Item, net, env, status_protocol, kit, setup, Application}

  pub data Command : Type 0 where
    add_sensor_reading_command : String → List String → ℕ → Command
    add_alarm_command : String → Bool → ℕ → Command
    publish_actuator_status_command : String → Command
    publish_configuration_command : Command
    disconnect_command : Command
    publish_command : Command
    handle_actuation_command : String → String → Command
    handle_configuration_command : List Item → Command
    try_connect_command : Bool → Command

  pub record Wolk : Type 0 where
    pub device_key : String
    pub actuator_references : List String
    pub commands : List Command
    pub world : World net env.Store
    pub keep_alive_service : Option (KeepAliveService status_protocol)
    pub firmware_update_service : Option (FirmwareUpdateService.Service setup)
    pub file_download_service : Option (FileDownloadService.Service kit)
    pub actuation_handler : Callback (Application → String → String → Application)
    pub actuator_status_provider : Callback (Application → String → String × ActuatorState)
    pub configuration_handler : Callback (Application → List Item → Application)
    pub configuration_provider : Callback (Application → List Item)
    pub application : Application
    -- The clock since the epoch.
    pub nanoseconds : ℕ

  abbrev pub add_to_command_buffer : Wolk → Command → Wolk
  add_to_command_buffer w c = record w { commands = w.commands ++ c ∷ [] }

  -- Milliseconds.
  abbrev pub current_rtc : Wolk → ℕ
  current_rtc w = (w.nanoseconds / 1_000_000) % 2 ^ 64

  abbrev pub rtc_or_now : Wolk → ℕ → ℕ
  rtc_or_now w rtc = if rtc == 0 then current_rtc w else rtc

  -- addSensorReading of one value
  pub add_sensor_value : Wolk → String → String → ℕ → Wolk
  add_sensor_value w reference value rtc =
      add_to_command_buffer w (add_sensor_reading_command reference (value ∷ []) (rtc_or_now w rtc))

  -- addSensorReading of several values
  pub add_sensor_reading : Wolk → String → List String → ℕ → Wolk
  add_sensor_reading w reference values rtc =
      if is_nil values
      then w
      else add_to_command_buffer w (add_sensor_reading_command reference values (rtc_or_now w rtc))

  -- The templates of addSensorReading, over StringUtils::toString of the SDK.
  pub add_typed_value : {T : Type 0} → (T → String) → Wolk → String → T → ℕ → Wolk
  unfolding add_sensor_value
  add_typed_value to_string w reference value rtc =
      add_sensor_value w reference (to_string value) rtc

  pub add_typed_reading : {T : Type 0} → (T → String) → Wolk → String → List T → ℕ → Wolk
  unfolding add_sensor_reading
  add_typed_reading to_string w reference values rtc =
      add_sensor_reading w reference (map to_string values) rtc

  pub add_alarm : Wolk → String → Bool → ℕ → Wolk
  add_alarm w reference active rtc =
      add_to_command_buffer w (add_alarm_command reference active (rtc_or_now w rtc))

  abbrev pub publish_actuator_status : Wolk → String → Wolk
  publish_actuator_status w reference =
      add_to_command_buffer w (publish_actuator_status_command reference)

  abbrev pub publish_configuration : Wolk → Wolk
  publish_configuration w = add_to_command_buffer w publish_configuration_command

  -- `none` where the service has no timestamp yet, and reads an unset field.
  get_last_timestamp : Wolk → Option status_protocol.Timestamp
  get_last_timestamp w = elim w.keep_alive_service [
    | none ↦ some platform.zero_timestamp
    | some s ↦ s.last_timestamp
  ]

  pub connect : Wolk → Wolk
  connect w = add_to_command_buffer w (try_connect_command true)

  pub disconnect : Wolk → Wolk
  disconnect w = add_to_command_buffer w disconnect_command

  abbrev pub publish : Wolk → Wolk
  publish w = add_to_command_buffer w publish_command
