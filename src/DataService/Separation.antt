-- ===== src/DataService/Separation.antt =====
-- What publishing one kind of item leaves of the others in the persistence.
use wolk_connect_cpp.Base.{
  ℕ, zero, suc, String, true, Option, none, some, List, [], ◌∷◌, ◌≡◌, ◌∙◌, refl, sym, ap, arith,
  inl, inr, is_nil, length, ◌<◌, ◌≤◌, ◌≢◌, ◌⊎◌, All, subst, str_eq, str_eq_iff, Option-cases,
  Bool-cases,
}
use mathlib.Core.Option.{some-injective}
use wolk_connect_cpp.Sdk.Connectivity.{Message, Connectivity}
use wolk_connect_cpp.Sdk.Persistence.{Queues, Slots}
use wolk_connect_cpp.FileRepository.{contains}
use wolk_connect_cpp.DataService.Publishing.{publish_keys-empties}
use wolk_connect_cpp.DataService.{
  World, publish_batches, publish_batch_items_count, publish_slot, publish_keys, publish_all_slots,
  Environment, SensorReading, Alarm, ActuatorStatus, publish_actuator_statuses, publish_alarms,
  publish_sensor_readings, publish_configuration, publish_configuration_for_persistance_key,
  publish_actuator_statuses_for_persistance_key, publish_alarms_for_persistance_key,
  publish_sensor_readings_for_persistance_key,
}

-- A part of the store that the removals of a kind of item do not touch.
module _ (net : Connectivity) {Store B : Type 0} (part : Store → B) where
  same_part : (w w' : World net Store) → some w ≡ some w' → part w'.store ≡ part w.store
  same_part w w' e = ap (λ (x : World net Store). part x.store) (sym (some-injective _ _ e))

  module _ {A : Type 0} (slots : Slots Store A) (make_message : A → Option Message)
      (apart : (s : Store) (k : String) → part (slots.remove s k) ≡ part s) where
    pub publish_slot-part :
        (w : World net Store) (key : String)
        → part (publish_slot net slots make_message w key).store ≡ part w.store
    unfolding publish_slot
    publish_slot-part w key = ground (arith, apart w.store key)

    pub publish_all_slots-part :
        (w : World net Store) (keys : List String)
        → part (publish_all_slots (publish_slot net slots make_message) w keys).store ≡ part w.store
    unfolding publish_all_slots
    publish_all_slots-part w [] = refl
    publish_all_slots-part w (key ∷ keys) =
        publish_all_slots-part (publish_slot net slots make_message w key) keys
        ∙ publish_slot-part w key

  module _ {A : Type 0} (queue : Queues Store A) (make_message : List A → Option Message)
      (apart : (s : Store) (k : String) (n : ℕ) → part (queue.remove s k n) ≡ part s) where
    pub publish_batches-part :
        (fuel : ℕ) (w w' : World net Store) (key : String)
        → publish_batches net queue make_message fuel w key ≡ some w'
        → part w'.store ≡ part w.store
    unfolding publish_batches
    publish_batches-part zero w w' key e = ground arith
    publish_batches-part (suc fuel) w w' key e =
        let batch = queue.get w.store key publish_batch_items_count in
        let removed = queue.remove w.store key publish_batch_items_count in
        elim (Bool-cases (is_nil batch)) [
          | inl nothing ↦ same_part w w' (rw (publish_batches, nothing) at e)
          | inr something ↦ elim (Option-cases (make_message batch)) [
            | inl bad ↦
                same_part (record w { store = removed }) w'
                  (rw (publish_batches, something, bad) at e)
                ∙ apart w.store key publish_batch_items_count
            | inr (m, made) ↦ elim (Bool-cases (net.publish w.network m).0) [
              | inl sent ↦
                  publish_batches-part fuel
                    (record { store = removed; network = (net.publish w.network m).1 }) w' key
                    (rw (publish_batches, something, made, sent) at e)
                  ∙ apart w.store key publish_batch_items_count
              | inr refused ↦
                  same_part (record w { network = (net.publish w.network m).1 }) w'
                    (rw (publish_batches, something, made, refused) at e)
            ]
          ]
        ]

    pub publish_keys-part :
        (fuel : ℕ) (w w' : World net Store) (keys : List String)
        → publish_keys (publish_batches net queue make_message fuel) w keys ≡ some w'
        → part w'.store ≡ part w.store
    unfolding publish_keys
    publish_keys-part fuel w w' [] e =
        ap (λ (x : World net Store). part x.store) (sym (some-injective _ _ e))
    publish_keys-part fuel w w' (key ∷ keys) e =
        elim (Option-cases (publish_batches net queue make_message fuel w key)) [
          | inl failed ↦ ground arith
          | inr (next, f) ↦
              publish_keys-part fuel next w' keys (ground arith)
              ∙ publish_batches-part fuel w next key f
        ]

no_items : {A : Type 0} (xs : List A) → length xs ≤ 0 → xs ≡ []
no_items [] h = refl
no_items (x ∷ xs) h = absurd (omega arith)

module _ (net : Connectivity) {Item : Type 0} (env : Environment Item) (device_key : String) where
  open env use {
    Store, sensor_readings, alarms, actuator_statuses, configurations, make_sensor_message,
    make_alarm_message,
  }

  -- The kinds of items are stored apart.
  pub record Separate : Type 0 where
    pub statuses-readings :
        (s : Store) (k j : String)
        → sensor_readings.items (actuator_statuses.remove s k) j ≡ sensor_readings.items s j
    pub alarms-readings :
        (s : Store) (k : String) (n : ℕ) (j : String)
        → sensor_readings.items (alarms.remove s k n) j ≡ sensor_readings.items s j
    pub configurations-readings :
        (s : Store) (k j : String)
        → sensor_readings.items (configurations.remove s k) j ≡ sensor_readings.items s j
    pub statuses-alarms :
        (s : Store) (k j : String)
        → alarms.items (actuator_statuses.remove s k) j ≡ alarms.items s j
    pub statuses-keys :
        (s : Store) (k : String)
        → sensor_readings.keys (actuator_statuses.remove s k) ≡ sensor_readings.keys s
    pub alarms-keys :
        (s : Store) (k : String) (n : ℕ)
        → sensor_readings.keys (alarms.remove s k n) ≡ sensor_readings.keys s

  -- A key of which a reading waits is listed.
  unfoldable pub Listed : Store → Type 0
  Listed s =
      (j : String) → (sensor_readings.items s j ≡ []) ⊎ (contains (sensor_readings.keys s) j ≡ true)

  All-contains :
      (w : World net Store) (ks : List String) (j : String)
      → All (λ k. sensor_readings.items w.store k ≡ []) ks
      → contains ks j ≡ true
      → sensor_readings.items w.store j ≡ []
  unfolding contains
  All-contains w [] j a c = ground arith
  All-contains w (k ∷ ks) j a c = elim (Bool-cases (str_eq k j)) [
    | inl same ↦ subst (λ x. sensor_readings.items w.store x ≡ []) ((str_eq_iff k j).0 same) a.0
    | inr other ↦ All-contains w ks j a.1 (ground arith)
  ]

  nothing_left :
      (w w' : World net Store) (k : String)
      → length (sensor_readings.items w'.store k) ≤ length (sensor_readings.items w.store k)
      → sensor_readings.items w.store k ≡ []
      → sensor_readings.items w'.store k ≡ []
  nothing_left w w' k l e =
      no_items (sensor_readings.items w'.store k) (omega (arith, l, ap length e))

  module _ (separate : Separate)
      (accepts : (n : net.Network) (m : Message) → (net.publish n m).0 ≡ true)
      (makes_readings : (xs : List SensorReading)
        → 0 < length xs
        → make_sensor_message device_key xs ≢ none)
      (makes_alarms : (xs : List Alarm)
        → 0 < length xs
        → make_alarm_message device_key xs ≢ none) where
    pub all_kinds-empties :
        (fuel : ℕ) (w : World net Store)
        → ((k : String) → length (sensor_readings.items w.store k) < fuel)
        → ((k : String) → length (alarms.items w.store k) < fuel)
        → Listed w.store
        → let w1 = publish_actuator_statuses net env device_key w in
          (w2 : World net Store) × (publish_alarms net env device_key fuel w1 ≡ some w2)
          × (w3 : World net Store) × (publish_sensor_readings net env device_key fuel w2 ≡ some w3)
          × ((k : String)
              → sensor_readings.items (publish_configuration net env device_key w3).store k ≡ [])
    unfolding Listed publish_actuator_statuses publish_alarms publish_sensor_readings
        publish_configuration publish_configuration_for_persistance_key
        publish_actuator_statuses_for_persistance_key publish_alarms_for_persistance_key
        publish_sensor_readings_for_persistance_key
    all_kinds-empties fuel w r a listed =
        let w1 = publish_actuator_statuses net env device_key w in
        let make_status : ActuatorStatus → Option Message =
          λ status. env.make_status_message device_key (status ∷ []) in
        let keys1 = actuator_statuses.keys w.store in
        let readings1 : (k : String)
            → sensor_readings.items w1.store k ≡ sensor_readings.items w.store k =
          λ k.
            publish_all_slots-part net (λ s. sensor_readings.items s k) actuator_statuses
              make_status (λ s j. separate.statuses-readings s j k) w keys1 in
        let alarms1 : (k : String) → alarms.items w1.store k ≡ alarms.items w.store k = λ k.
          publish_all_slots-part net (λ s. alarms.items s k) actuator_statuses make_status
            (λ s j. separate.statuses-alarms s j k) w keys1 in
        let (w2, e2, _, _) =
          publish_keys-empties net alarms (make_alarm_message device_key) accepts makes_alarms fuel
            w1 (alarms.keys w1.store) (λ k. omega (arith, a k, ap length (alarms1 k))) in
        let readings2 : (k : String)
            → sensor_readings.items w2.store k ≡ sensor_readings.items w1.store k =
          λ k.
            publish_keys-part net (λ s. sensor_readings.items s k) alarms
              (make_alarm_message device_key) (λ s j n. separate.alarms-readings s j n k) fuel w1 w2
              (alarms.keys w1.store) e2 in
        let keys2 : sensor_readings.keys w2.store ≡ sensor_readings.keys w.store =
          publish_keys-part net sensor_readings.keys alarms (make_alarm_message device_key)
            separate.alarms-keys fuel w1 w2 (alarms.keys w1.store) e2
          ∙ publish_all_slots-part net sensor_readings.keys actuator_statuses make_status
              separate.statuses-keys w keys1 in
        let (w3, e3, fewer, emptied) =
          publish_keys-empties net sensor_readings (make_sensor_message device_key) accepts
            makes_readings fuel w2 (sensor_readings.keys w2.store)
            (λ k. omega (arith, r k, ap length (readings1 k), ap length (readings2 k))) in
        (
          w2,
          e2,
          w3,
          e3,
          λ k.
              publish_slot-part net (λ s. sensor_readings.items s k) configurations
                (env.make_configuration_message device_key)
                (λ s j. separate.configurations-readings s j k) w3 device_key
              ∙ elim (listed k) [
                | inl none_waits ↦
                    nothing_left w2 w3 k (fewer k) (readings2 k ∙ readings1 k ∙ none_waits)
                | inr is_key ↦
                    All-contains w3 (sensor_readings.keys w2.store) k emptied
                      (ap (λ ks. contains ks k) keys2 ∙ is_key)
              ],
        )
