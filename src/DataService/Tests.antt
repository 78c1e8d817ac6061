-- ===== src/DataService/Tests.antt =====
-- DataService over a store of functions and a connection that keeps a list.
use wolk_connect_cpp.Base.{
  ℕ, ◌≡◌, refl, String, true, false, Option, none, some, List, [], ◌∷◌, ◌++◌, take, drop, arith,
  ◌≤◌, ◌↔◌, length, is_empty, str_eq, if◌then◌else◌,
}
use wolk_connect_cpp.Sdk.Connectivity.{Message, Connectivity}
use wolk_connect_cpp.Sdk.Persistence.{Queues, Slots}
use wolk_connect_cpp.DataService.{
  World, publish_batches, SensorReading, Alarm, ActuatorStatus, Environment,
}
use wolk_connect_cpp.DataService.Dispatch.{
  DataProtocol, Handlers, Call, message_received, Commands, message_received_iff,
}
use wolk_connect_cpp.DataService.Batches.{IsPublished, publish_batches-IsPublished}

abbrev accepting : Connectivity
accepting = record {
  Network = List Message;
  publish = λ n m. (true, n ++ m ∷ []);
  sent = λ n. n;
  sent-publish = λ n m e. refl;
  sent-publish_refused = λ n m e. absurd (cc e);
}

abbrev refusing : Connectivity
refusing = record {
  Network = List Message;
  publish = λ n m. (false, n);
  sent = λ n. n;
  sent-publish = λ n m e. absurd (cc e);
  sent-publish_refused = λ n m e. refl;
}

abbrev function_queues : (A : Type 0) → Queues (String → List A) A
function_queues A = record {
  put = λ s k a j. if str_eq k j then s j ++ a ∷ [] else s j;
  get = λ s k n. take n (s k);
  remove = λ s k n j. if str_eq k j then drop n (s j) else s j;
  keys = λ s. "t" ∷ [];
  items = λ s k. s k;
  get-items = λ s k n. refl;
  items-put = λ s k j a. refl;
  items-remove = λ s k j n. refl;
}

abbrev function_slots : (A : Type 0) → Slots (String → Option A) A
function_slots A = record {
  put = λ s k a j. if str_eq k j then some a else s j;
  get = λ s k. s k;
  remove = λ s k j. if str_eq k j then none else s j;
  keys = λ s. "t" ∷ [];
  get-put = λ s k j a. refl;
  get-remove = λ s k j. refl;
}

abbrev a_message : Message
a_message = record { content = "x"; channel = "d2p/t" }

abbrev one_message {ℓ} : {A : Type ℓ} → A → Option Message
one_message a = some a_message

abbrev two_numbers : String → List ℕ
two_numbers k = if str_eq k "t" then 4 ∷ 5 ∷ [] else []

abbrev numbers_world : World accepting (String → List ℕ)
numbers_world = record { store = two_numbers; network = [] }

both_sent :
    publish_batches accepting (function_queues ℕ) one_message 3 numbers_world "t"
    ≡ some (record {
      store = λ j. if str_eq "t" j then drop 50 (two_numbers j) else two_numbers j;
      network = a_message ∷ [];
    })
unfolding publish_batches
both_sent = refl

publish_batches-IsPublished_example :
    (w' : World accepting (String → List ℕ)) × (publish_batches accepting
        (function_queues ℕ)
        one_message
        3
        numbers_world
        "t"
      ≡ some w')
    × IsPublished accepting (function_queues ℕ) one_message "t" numbers_world w'
publish_batches-IsPublished_example =
    publish_batches-IsPublished accepting (function_queues ℕ) one_message 3 numbers_world "t"
      (omega arith)

abbrev number_slot : World refusing (String → Option ℕ)
number_slot = record { store = λ k. if str_eq k "t" then some 4 else none; network = [] }

-- What waits on a device, by its kind.
pub record Waiting : Type 0 where
  pub readings : String → List SensorReading
  pub alarms : String → List Alarm
  pub statuses : String → Option ActuatorStatus
  pub settings : String → Option (List String)

abbrev reading_queues : Queues (String → List SensorReading) SensorReading
reading_queues = function_queues SensorReading

abbrev alarm_queues : Queues (String → List Alarm) Alarm
alarm_queues = function_queues Alarm

abbrev status_slots : Slots (String → Option ActuatorStatus) ActuatorStatus
status_slots = function_slots ActuatorStatus

abbrev setting_slots : Slots (String → Option (List String)) (List String)
setting_slots = function_slots (List String)

abbrev pub sample_environment : Environment String
sample_environment = record {
  Store = Waiting;
  sensor_readings = record {
    put = λ s k a. record s { readings = reading_queues.put s.readings k a };
    get = λ s k n. reading_queues.get s.readings k n;
    remove = λ s k n. record s { readings = reading_queues.remove s.readings k n };
    keys = λ s. "t" ∷ [];
    items = λ s k. s.readings k;
    get-items = λ s k n. refl;
    items-put = λ s k j a. refl;
    items-remove = λ s k j n. refl;
  };
  alarms = record {
    put = λ s k a. record s { alarms = alarm_queues.put s.alarms k a };
    get = λ s k n. alarm_queues.get s.alarms k n;
    remove = λ s k n. record s { alarms = alarm_queues.remove s.alarms k n };
    keys = λ s. [];
    items = λ s k. s.alarms k;
    get-items = λ s k n. refl;
    items-put = λ s k j a. refl;
    items-remove = λ s k j n. refl;
  };
  actuator_statuses = record {
    put = λ s k a. record s { statuses = status_slots.put s.statuses k a };
    get = λ s k. s.statuses k;
    remove = λ s k. record s { statuses = status_slots.remove s.statuses k };
    keys = λ s. [];
    get-put = λ s k j a. refl;
    get-remove = λ s k j. refl;
  };
  configurations = record {
    put = λ s k a. record s { settings = setting_slots.put s.settings k a };
    get = λ s k. s.settings k;
    remove = λ s k. record s { settings = setting_slots.remove s.settings k };
    keys = λ s. [];
    get-put = λ s k j a. refl;
    get-remove = λ s k j. refl;
  };
  make_sensor_message = λ key xs. some a_message;
  make_alarm_message = λ key xs. some a_message;
  make_status_message = λ key xs. some a_message;
  make_configuration_message = λ key xs. some a_message;
}

abbrev pub one_reading : Waiting
one_reading = record {
  readings = λ k.
      if str_eq k "t" then record { values = "20" ∷ []; reference = "t"; rtc = 1 } ∷ [] else [];
  alarms = λ k. [];
  statuses = λ k. none;
  settings = λ k. none;
}

abbrev pub sample_protocol : DataProtocol String
sample_protocol = record {
  extract_device_key_from_channel = λ channel. if str_eq channel "p2d/d" then "d" else "";
  is_actuator_get_message = λ m. false;
  is_actuator_set_message = λ m. true;
  is_configuration_get_message = λ m. false;
  is_configuration_set_message = λ m. false;
  make_actuator_get_command = λ m. none;
  make_actuator_set_command = λ m. some ("switch", m.content);
  make_configuration_set_command = λ m. none;
}

abbrev all_handlers : Handlers
all_handlers = record {
  actuator_set = true;
  actuator_get = true;
  configuration_set = true;
  configuration_get = true;
}

abbrev pub switch_on : Message
switch_on = record { content = "on"; channel = "p2d/d" }

message_received_iff_example :
    (length (message_received sample_protocol all_handlers "d" switch_on) ≤ 1)
    × ((call : Call String)
        → (message_received sample_protocol all_handlers "d" switch_on ≡ call ∷ []) ↔ (
            (sample_protocol.extract_device_key_from_channel switch_on.channel ≡ "d")
            × (is_empty "d" ≡ false)
            × Commands sample_protocol all_handlers "d" switch_on call))
message_received_iff_example = message_received_iff sample_protocol all_handlers "d" switch_on
