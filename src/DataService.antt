-- ===== src/DataService.antt =====
-- src/service/data/DataService.h and DataService.cpp: keeps the device's data until it is published,
-- and hands the platform's commands to the device's handlers.
pub mod Batches
pub mod Publishing
pub mod Separation
pub mod Sending
pub mod Dispatch
pub mod Tests
use wolk_connect_cpp.Base.{
  ℕ, zero, suc, String, Bool, true, false, Option, none, some, List, [], ◌∷◌, is_nil, is_empty, not,
  str_eq, if◌then◌else◌,
}
use wolk_connect_cpp.Sdk.Connectivity.{Message, Connectivity}
use wolk_connect_cpp.Sdk.Persistence.{Queues, Slots}

abbrev pub publish_batch_items_count : ℕ
publish_batch_items_count = 50

-- model/SensorReading.h, Alarm.h, ActuatorStatus.h and ConfigurationItem.h of WolkSDK-Cpp, as far as
-- the service builds them.
pub record SensorReading : Type 0 where
  pub values : List String
  pub reference : String
  pub rtc : ℕ

pub record Alarm : Type 0 where
  pub active : Bool
  pub reference : String
  pub rtc : ℕ

pub data ActuatorState : Type 0 where
  ready busy error : ActuatorState

pub record ActuatorStatus : Type 0 where
  pub value : String
  pub reference : String
  pub state : ActuatorState

-- The persistence and the protocol that the service is built with.
pub record Environment (Item : Type 0) : Type 1 where
  pub Store : Type 0
  pub sensor_readings : Queues Store SensorReading
  pub alarms : Queues Store Alarm
  pub actuator_statuses : Slots Store ActuatorStatus
  pub configurations : Slots Store (List Item)
  pub make_sensor_message : String → List SensorReading → Option Message
  pub make_alarm_message : String → List Alarm → Option Message
  pub make_status_message : String → List ActuatorStatus → Option Message
  pub make_configuration_message : String → List Item → Option Message

module _ (net : Connectivity) (Store : Type 0) where
  -- What the service changes: the persistence and the connection.
  pub record World : Type 0 where
    pub store : Store
    pub network : net.Network

-- publishSensorReadingsForPersistanceKey and publishAlarmsForPersistanceKey, which differ only in the
-- kind of item. Each call of the C++ function takes one unit of fuel.
module _ (net : Connectivity) {Store A : Type 0} (queue : Queues Store A)
    (make_message : List A → Option Message) where
  pub publish_batches : ℕ → World net Store → String → Option (World net Store)
  publish_batches zero w key = none
  publish_batches (suc fuel) w key =
      let batch = queue.get w.store key publish_batch_items_count in
      let removed = queue.remove w.store key publish_batch_items_count in
      if is_nil batch then some w else elim (make_message batch) [
        | none ↦ some (record w { store = removed })
        | some m ↦
            let (published, network) = net.publish w.network m in
            elim published [
              | true ↦ publish_batches fuel (record { store = removed; network = network }) key
              | false ↦ some (record w { network = network })
            ]
      ]

-- publishActuatorStatusesForPersistanceKey and publishConfigurationForPersistanceKey, likewise.
module _ (net : Connectivity) {Store A : Type 0} (slots : Slots Store A)
    (make_message : A → Option Message) where
  pub publish_slot : World net Store → String → World net Store
  publish_slot w key = elim (slots.get w.store key) [
    | none ↦ w
    | some a ↦ elim (make_message a) [
      | none ↦ record w { store = slots.remove w.store key }
      | some m ↦
          let (published, network) = net.publish w.network m in
          elim published [
            | true ↦ record { store = slots.remove w.store key; network = network }
            | false ↦ record w { network = network }
          ]
    ]
  ]

-- for (const auto& key : keys) publish...ForPersistanceKey(key);
pub publish_keys : {W : Type 0} → (W → String → Option W) → W → List String → Option W
publish_keys publish w [] = some w
publish_keys publish w (key ∷ keys) = elim (publish w key) [
  | none ↦ none
  | some w' ↦ publish_keys publish w' keys
]

pub publish_all_slots : {W : Type 0} → (W → String → W) → W → List String → W
publish_all_slots publish w [] = w
publish_all_slots publish w (key ∷ keys) = publish_all_slots publish (publish w key) keys

module _ (net : Connectivity) {Item : Type 0} (env : Environment Item) (device_key : String) where
  open env use {
    Store, sensor_readings, alarms, actuator_statuses, configurations, make_sensor_message,
    make_alarm_message, make_status_message, make_configuration_message,
  }

  -- addSensorReading, for one value and for several.
  unfoldable pub add_sensor_reading : Store → String → List String → ℕ → Store
  add_sensor_reading s reference values rtc =
      sensor_readings.put s reference (record { values = values; reference = reference; rtc = rtc })

  pub add_alarm : Store → String → Bool → ℕ → Store
  add_alarm s reference active rtc =
      alarms.put s reference (record { active = active; reference = reference; rtc = rtc })

  unfoldable pub add_actuator_status : Store → String → String → ActuatorState → Store
  add_actuator_status s reference value state =
      actuator_statuses.put s reference
        (record { value = value; reference = reference; state = state })

  pub add_configuration : Store → List Item → Store
  add_configuration s configuration = configurations.put s device_key configuration

  pub publish_sensor_readings_for_persistance_key :
      ℕ → World net Store → String → Option (World net Store)
  unfolding publish_batches
  publish_sensor_readings_for_persistance_key =
      publish_batches net sensor_readings (make_sensor_message device_key)

  pub publish_alarms_for_persistance_key : ℕ → World net Store → String → Option (World net Store)
  unfolding publish_batches
  publish_alarms_for_persistance_key = publish_batches net alarms (make_alarm_message device_key)

  pub publish_actuator_statuses_for_persistance_key : World net Store → String → World net Store
  unfolding publish_slot
  publish_actuator_statuses_for_persistance_key =
      publish_slot net actuator_statuses (λ status. make_status_message device_key (status ∷ []))

  pub publish_configuration_for_persistance_key : World net Store → String → World net Store
  unfolding publish_slot
  publish_configuration_for_persistance_key w key =
      publish_slot net configurations (make_configuration_message key) w key

  pub publish_sensor_readings : ℕ → World net Store → Option (World net Store)
  unfolding publish_keys publish_sensor_readings_for_persistance_key
  publish_sensor_readings fuel w =
      publish_keys (publish_sensor_readings_for_persistance_key fuel) w
        (sensor_readings.keys w.store)

  pub publish_alarms : ℕ → World net Store → Option (World net Store)
  unfolding publish_keys publish_alarms_for_persistance_key
  publish_alarms fuel w =
      publish_keys (publish_alarms_for_persistance_key fuel) w (alarms.keys w.store)

  pub publish_actuator_statuses : World net Store → World net Store
  unfolding publish_all_slots publish_actuator_statuses_for_persistance_key
  publish_actuator_statuses w =
      publish_all_slots publish_actuator_statuses_for_persistance_key w
        (actuator_statuses.keys w.store)

  pub publish_configuration : World net Store → World net Store
  unfolding publish_configuration_for_persistance_key
  publish_configuration w = publish_configuration_for_persistance_key w device_key
