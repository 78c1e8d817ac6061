-- ===== src/Wolk/Commands.antt =====
-- The command buffer of src/Wolk.cpp: what each command does when it runs, and the calls that the
-- services make. `none` ends the process (a null version provider) or says that the fuel of publishing
-- is out.
pub mod Actuation
pub mod Connection
pub mod Readings
pub mod Flushing
pub mod Tests
use wolk_connect_cpp.Base.{
  ℕ, zero, suc, String, Bool, true, false, Option, none, some, List, [], ◌∷◌, ◌++◌, if◌then◌else◌,
}
use wolk_connect_cpp.Sdk.Connectivity.{Message}
use wolk_connect_cpp.DataService
use wolk_connect_cpp.DataService.{World, ActuatorState}
use wolk_connect_cpp.DataService.Dispatch
use wolk_connect_cpp.DataService.Dispatch.{
  Handlers, Call, actuator_get_handler, actuator_set_handler, configuration_get_handler,
  configuration_set_handler,
}
use wolk_connect_cpp.KeepAliveService
use wolk_connect_cpp.FileDownloadService
use wolk_connect_cpp.FirmwareUpdateService.{report_firmware_update_result, publish_firmware_version}
use wolk_connect_cpp.Wolk.Callbacks.{Callback, chosen}
use wolk_connect_cpp.Wolk.{
  Platform, Wolk, Command, add_sensor_reading_command, add_alarm_command,
  publish_actuator_status_command, publish_configuration_command, disconnect_command,
  publish_command, handle_actuation_command, handle_configuration_command, try_connect_command,
  add_to_command_buffer, publish_actuator_status, publish_configuration, publish, connect,
}

module _ (platform : Platform) where
  open platform use {Item, net, env, status_protocol, kit, setup, Application}

  -- The four callbacks that the builder gives to DataService.
  abbrev pub all_handlers : Handlers
  all_handlers = record {
    actuator_set = true;
    actuator_get = true;
    configuration_set = true;
    configuration_get = true;
  }

  abbrev pub with_store : Wolk platform → env.Store → Wolk platform
  with_store w s = record w { world = record w.world { store = s } }

  flush_actuator_statuses : Wolk platform → Wolk platform
  flush_actuator_statuses w = record w {
    world = DataService.publish_actuator_statuses net env w.device_key w.world;
  }

  flush_configuration : Wolk platform → Wolk platform
  flush_configuration w = record w {
    world = DataService.publish_configuration net env w.device_key w.world;
  }

  flush_alarms : ℕ → Wolk platform → Option (Wolk platform)
  flush_alarms fuel w = elim (DataService.publish_alarms net env w.device_key fuel w.world) [
    | none ↦ none
    | some world ↦ some (record w { world = world })
  ]

  flush_sensor_readings : ℕ → Wolk platform → Option (Wolk platform)
  flush_sensor_readings fuel w =
      elim (DataService.publish_sensor_readings net env w.device_key fuel w.world) [
        | none ↦ none
        | some world ↦ some (record w { world = world })
      ]

  -- The command that `publish` pushes.
  flush : ℕ → Wolk platform → Option (Wolk platform)
  unfolding flush_actuator_statuses flush_alarms flush_sensor_readings flush_configuration
  flush fuel w = elim (flush_alarms fuel (flush_actuator_statuses w)) [
    | none ↦ none
    | some w' ↦ elim (flush_sensor_readings fuel w') [
      | none ↦ none
      | some w'' ↦ some (flush_configuration w'')
    ]
  ]

  -- The status that the provider of the application gives.
  abbrev pub provided_status : Wolk platform → String → String × ActuatorState
  provided_status w reference = elim (chosen w.actuator_status_provider) [
    | none ↦ platform.no_actuator_status
    | some get ↦ get w.application reference
  ]

  abbrev pub provided_configuration : Wolk platform → List Item
  provided_configuration w = elim (chosen w.configuration_provider) [
    | none ↦ []
    | some get ↦ get w.application
  ]

  -- The command that publishActuatorStatus pushes.
  send_actuator_status : Wolk platform → String → Wolk platform
  unfolding flush_actuator_statuses
  send_actuator_status w reference =
      let (value, state) = provided_status w reference in
      flush_actuator_statuses (
        with_store w (
          DataService.add_actuator_status net env w.device_key w.world.store reference value state))

  -- The command that publishConfiguration pushes.
  send_configuration : Wolk platform → Wolk platform
  unfolding flush_configuration
  send_configuration w = flush_configuration (
      with_store w (
        DataService.add_configuration net env w.device_key w.world.store
          (provided_configuration w)))

  actuate : Wolk platform → String → String → Wolk platform
  actuate w reference value = elim (chosen w.actuation_handler) [
    | none ↦ w
    | some handle ↦ record w { application = handle w.application reference value }
  ]

  configure : Wolk platform → List Item → Wolk platform
  configure w values = elim (chosen w.configuration_handler) [
    | none ↦ w
    | some handle ↦ record w { application = handle w.application values }
  ]

  -- The callbacks of DataService.
  handle_actuator_set_command : Wolk platform → String → String → Wolk platform
  handle_actuator_set_command w reference value =
      publish_actuator_status platform
        (add_to_command_buffer platform w (handle_actuation_command reference value)) reference

  handle_actuator_get_command : Wolk platform → String → Wolk platform
  handle_actuator_get_command w reference = publish_actuator_status platform w reference

  handle_configuration_set_command : Wolk platform → List Item → Wolk platform
  handle_configuration_set_command w values =
      publish_configuration platform
        (add_to_command_buffer platform w (handle_configuration_command values))

  handle_configuration_get_command : Wolk platform → Wolk platform
  handle_configuration_get_command w = publish_configuration platform w

  handle_call : Wolk platform → Call Item → Wolk platform
  unfolding handle_actuator_set_command handle_actuator_get_command handle_configuration_set_command
      handle_configuration_get_command
  handle_call w (actuator_get_handler reference) = handle_actuator_get_command w reference
  handle_call w (actuator_set_handler reference value) =
      handle_actuator_set_command w reference value
  handle_call w configuration_get_handler = handle_configuration_get_command w
  handle_call w (configuration_set_handler values) = handle_configuration_set_command w values

  handle_calls : Wolk platform → List (Call Item) → Wolk platform
  unfolding handle_call
  handle_calls w [] = w
  handle_calls w (c ∷ cs) = handle_calls (handle_call w c) cs

  -- A message of the platform that reaches DataService.
  pub data_message_received : Wolk platform → Message → Wolk platform
  data_message_received w m =
      handle_calls w
        (DataService.Dispatch.message_received platform.protocol all_handlers w.device_key m)

  publish_firmware_status : Wolk platform → Option (Wolk platform)
  publish_firmware_status w = elim w.firmware_update_service [
    | none ↦ some w
    | some s ↦ elim (report_firmware_update_result setup s) [
      | none ↦ none
      | some s' ↦
          some (record w { firmware_update_service = some (publish_firmware_version setup s') })
    ]
  ]

  publish_file_list : Wolk platform → Wolk platform
  publish_file_list w = elim w.file_download_service [
    | none ↦ w
    | some s ↦ record w { file_download_service = some (FileDownloadService.send_file_list kit s) }
  ]

  -- for (const std::string& actuatorReference : m_device.getActuatorReferences())
  publish_actuator_statuses : Wolk platform → List String → Wolk platform
  publish_actuator_statuses w [] = w
  publish_actuator_statuses w (r ∷ rs) =
      publish_actuator_statuses (publish_actuator_status platform w r) rs

  keep_alive_connected : Wolk platform → Wolk platform
  keep_alive_connected w = elim w.keep_alive_service [
    | none ↦ w
    | some s ↦ record w { keep_alive_service = some (KeepAliveService.connected status_protocol s) }
  ]

  pub notify_connected : Wolk platform → Option (Wolk platform)
  unfolding keep_alive_connected publish_firmware_status publish_actuator_statuses publish_file_list
  notify_connected w = elim (publish_firmware_status (keep_alive_connected w)) [
    | none ↦ none
    | some w' ↦ some (
        publish platform (
          publish_file_list
            (publish_configuration platform (publish_actuator_statuses w' w'.actuator_references))))
  ]

  pub notify_disconnected : Wolk platform → Wolk platform
  notify_disconnected w = elim w.keep_alive_service [
    | none ↦ w
    | some s ↦ record w {
      keep_alive_service = some (KeepAliveService.disconnected status_protocol s);
    }
  ]

  -- The connection is lost: the callback that the builder gives to ConnectivityFacade.
  pub connection_lost : Wolk platform → Wolk platform
  unfolding notify_disconnected
  connection_lost w = connect platform (notify_disconnected w)

  -- The command that tryConnect pushes; it sleeps before it tries again.
  try_connect : Wolk platform → Option (Wolk platform)
  try_connect w =
      let (connected, network) = platform.connect w.world.network in
      let after = record w { world = record w.world { network = network } } in
      if connected
      then notify_connected after
      else some (add_to_command_buffer platform after (try_connect_command false))

  disconnect_now : Wolk platform → Wolk platform
  unfolding notify_disconnected
  disconnect_now w =
      notify_disconnected
        (record w { world = record w.world { network = platform.disconnect w.world.network } })

  pub execute : ℕ → Wolk platform → Command platform → Option (Wolk platform)
  execute fuel w (add_sensor_reading_command reference values rtc) = some (
      with_store w
        (DataService.add_sensor_reading net env w.device_key w.world.store reference values rtc))
  execute fuel w (add_alarm_command reference active rtc) =
      some (
        with_store w
          (DataService.add_alarm net env w.device_key w.world.store reference active rtc))
  execute fuel w (publish_actuator_status_command reference) =
      some (send_actuator_status w reference)
  execute fuel w publish_configuration_command = some (send_configuration w)
  execute fuel w disconnect_command = some (disconnect_now w)
  execute fuel w publish_command = flush fuel w
  execute fuel w (handle_actuation_command reference value) = some (actuate w reference value)
  execute fuel w (handle_configuration_command values) = some (configure w values)
  execute fuel w (try_connect_command first_time) = try_connect w

  pub next_command : ℕ → Wolk platform → Option (Wolk platform)
  next_command fuel w = elim w.commands [
    | [] ↦ some w
    | c ∷ cs ↦ execute fuel (record w { commands = cs }) c
  ]

  -- A number of commands, one after the other.
  pub run : ℕ → ℕ → Wolk platform → Option (Wolk platform)
  run fuel zero w = some w
  run fuel (suc n) w = elim (next_command fuel w) [ none ↦ none | some w' ↦ run fuel n w' ]
