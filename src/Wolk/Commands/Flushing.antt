-- ===== src/Wolk/Commands/Flushing.antt =====
-- What a call of `publish` of src/Wolk.cpp leaves to be published.
use wolk_connect_cpp.Base.{
  ℕ, String, true, none, some, List, [], ◌∷◌, ◌++◌, ◌≡◌, ◌≢◌, ◌<◌, ◌∙◌, refl, ap, length, arith,
}
use wolk_connect_cpp.Sdk.Connectivity.{Message}
use wolk_connect_cpp.DataService
use wolk_connect_cpp.DataService.{SensorReading, Alarm}
use wolk_connect_cpp.DataService.Separation.{Separate, Listed, all_kinds-empties}
use wolk_connect_cpp.Wolk.{Platform, Wolk, publish, publish_command}
use wolk_connect_cpp.Wolk.Commands.{
  flush_actuator_statuses, flush_alarms, flush_sensor_readings, flush_configuration, flush, execute,
  next_command, run,
}

module _ (platform : Platform) where
  open platform use {net, env}
  open env use {sensor_readings, alarms, make_sensor_message, make_alarm_message}

  -- Over a connection that accepts every message, with a protocol that makes a message of every batch
  -- and a persistence that keeps the kinds of items apart, and lists every key of which a reading waits: a call of `publish`
  -- while no command waits, with more fuel than readings or alarms wait under any key, runs to its end,
  -- and no sensor reading waits any more under any key.
  pub publish-empties :
      (w : Wolk platform)
      → Separate net env w.device_key
      → ((n : net.Network) (m : Message) → (net.publish n m).0 ≡ true)
      → ((xs : List SensorReading) → 0 < length xs → make_sensor_message w.device_key xs ≢ none)
      → ((xs : List Alarm) → 0 < length xs → make_alarm_message w.device_key xs ≢ none)
      → (fuel : ℕ) → w.commands ≡ []
      → ((k : String) → length (sensor_readings.items w.world.store k) < fuel)
      → ((k : String) → length (alarms.items w.world.store k) < fuel)
      → Listed net env w.device_key w.world.store
      → (w' : Wolk platform) × (run platform fuel 1 (publish platform w) ≡ some w')
        × (w'.commands ≡ [])
        × ((k : String) → sensor_readings.items w'.world.store k ≡ [])
  unfolding run next_command execute flush flush_actuator_statuses flush_alarms
      flush_sensor_readings flush_configuration
  publish-empties w separate accepts makes_readings makes_alarms fuel e r a listed =
      let (w2, e2, w3, e3, emptied) =
        all_kinds-empties net env w.device_key separate accepts makes_readings makes_alarms fuel
          w.world r a listed in
      (
        record w {
          commands = [];
          world = DataService.publish_configuration net env w.device_key w3;
        },
        ap (λ cs. run platform fuel 1 (record w { commands = cs ++ publish_command ∷ [] })) e
            ∙ ground (arith, e2, e3),
        refl,
        emptied,
      )
