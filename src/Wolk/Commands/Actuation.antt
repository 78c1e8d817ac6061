-- ===== src/Wolk/Commands/Actuation.antt =====
-- An actuation that the platform asks for, from the message to the status that is published.
use wolk_connect_cpp.Base.{
  ℕ, String, false, none, some, List, [], ◌∷◌, ◌++◌, ◌≡◌, ◌∙◌, ap, is_empty, arith,
}
use wolk_connect_cpp.Sdk.Connectivity.{Message}
use wolk_connect_cpp.DataService
use wolk_connect_cpp.DataService.Dispatch
use wolk_connect_cpp.DataService.Dispatch.{
  Call, Commands, actuator_set_handler, message_received_iff,
}
use wolk_connect_cpp.Wolk.Callbacks.{chosen}
use wolk_connect_cpp.Wolk.{
  Platform, Wolk, Command, handle_actuation_command, publish_actuator_status_command,
}
use wolk_connect_cpp.Wolk.Commands.{
  all_handlers, provided_status, flush_actuator_statuses, send_actuator_status, actuate,
  handle_actuator_set_command, handle_call, handle_calls, data_message_received, execute,
  next_command, run,
}

module _ (platform : Platform) where
  open platform use {Item, net, env, Application, protocol}

  -- The state of the application once its handler has run.
  abbrev pub acted : Wolk platform → String → String → Application
  acted w reference value = elim (chosen w.actuation_handler) [
    | none ↦ w.application
    | some handle ↦ handle w.application reference value
  ]

  actuate_lem :
      (w : Wolk platform) (reference value : String)
      → actuate platform w reference value ≡ record w { application = acted w reference value }
  unfolding actuate
  actuate_lem w reference value = ground arith

  abbrev queued : Wolk platform → List (Command platform) → Wolk platform
  queued w cs = record w { commands = cs }

  both_commands :
      (fuel : ℕ) (w : Wolk platform) (reference value : String)
      → run platform fuel 2 (
          queued w (
            handle_actuation_command reference value
            ∷ publish_actuator_status_command reference
            ∷ []))
        ≡ some (
            send_actuator_status platform
              (record w { commands = []; application = acted w reference value })
              reference)
  unfolding run next_command execute
  both_commands fuel w reference value =
      ap (run platform fuel 1)
        (actuate_lem (queued w (publish_actuator_status_command reference ∷ [])) reference value)

  received :
      (w : Wolk platform) (m : Message) (reference value : String)
      → w.commands ≡ []
      → DataService.Dispatch.message_received protocol (all_handlers platform) w.device_key m
        ≡ actuator_set_handler reference value ∷ []
      → data_message_received platform w m
        ≡ queued w (
            handle_actuation_command reference value
            ∷ publish_actuator_status_command reference
            ∷ [])
  unfolding data_message_received handle_calls handle_call handle_actuator_set_command
  received w m reference value e called =
      ap (handle_calls platform w) called
      ∙ ap
          (λ cs. queued w (
            (cs ++ handle_actuation_command reference value ∷ [])
            ++ publish_actuator_status_command reference ∷ []))
          e

  -- A message of the platform that sets an actuator, while no command waits, leads to two commands: the
  -- first gives the value to the application's handler; the second reads the status of the actuator
  -- from the application as the handler has left it, stores it and publishes what is stored.
  pub data_message_received-actuates :
      (fuel : ℕ) (w : Wolk platform) (m : Message) (reference value : String)
      → w.commands ≡ []
      → protocol.extract_device_key_from_channel m.channel ≡ w.device_key
      → is_empty w.device_key ≡ false
      → Commands protocol
          (all_handlers platform)
          w.device_key
          m
          (actuator_set_handler reference value)
      → let after : Wolk platform = record w {
        commands = [];
        application = acted w reference value;
      } in
        let status = provided_status platform after reference in
        run platform fuel 2 (data_message_received platform w m)
        ≡ some (record after {
          world = DataService.publish_actuator_statuses net env w.device_key (record w.world {
            store =
                DataService.add_actuator_status net env w.device_key w.world.store reference
                  status.0 status.1;
          });
        })
  unfolding send_actuator_status flush_actuator_statuses
  data_message_received-actuates fuel w m reference value e key present command =
      let called =
        ((message_received_iff protocol (all_handlers platform) w.device_key m).1
            (actuator_set_handler reference value)).1
          (key, present, command) in
      ap (run platform fuel 2) (received w m reference value e called)
      ∙ both_commands fuel w reference value
