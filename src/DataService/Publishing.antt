-- ===== src/DataService/Publishing.antt =====
-- Publishing under every key, and the latest-item slots.
use wolk_connect_cpp.Base.{
  ℕ, ◌≤◌, ◌<◌, ◌≡◌, ◌≢◌, inl, inr, refl, ap, String, true, false, Option, none, some, List, [], ◌∷◌,
  ◌++◌, All, length, arith, str_eq, str_eq_iff, str_eq_refl, Bool-cases, Option-cases,
}
use wolk_connect_cpp.Sdk.Connectivity.{Message, Connectivity}
use wolk_connect_cpp.Sdk.Persistence.{Queues, Slots}
use wolk_connect_cpp.DataService.{
  World, SensorReading, Environment, publish_batches, publish_slot, publish_keys,
  publish_sensor_readings,
}
use wolk_connect_cpp.DataService.Batches.{IsPublished, publish_batches-IsPublished}

module _ (net : Connectivity) {Store A : Type 0} (queue : Queues Store A)
    (make_message : List A → Option Message)
    (accepts : (n : net.Network) (m : Message) → (net.publish n m).0 ≡ true)
    (makes : (xs : List A) → 0 < length xs → make_message xs ≢ none) where
  empty_of_length : (xs : List A) → length xs ≡ 0 → xs ≡ []
  empty_of_length [] h = refl
  empty_of_length (x ∷ xs) h = absurd (omega arith)

  all_sent :
      (key : String) (w w' : World net Store)
      → IsPublished net queue make_message key w w'
      → queue.items w'.store key ≡ []
  all_sent key w w' p = elim p.stopped [
    | inl e ↦ e
    | inr (inl (bad, some_)) ↦ absurd (makes p.lost some_ bad)
    | inr (inr (n, m, _, refused)) ↦ absurd (cc (accepts n m))
  ]

  pub fewer_items :
      (key : String) (w w' : World net Store) (j : String)
      → IsPublished net queue make_message key w w'
      → length (queue.items w'.store j) ≤ length (queue.items w.store j)
  fewer_items key w w' j p = elim (Bool-cases (str_eq key j)) [
    | inl same ↦ rw (← (str_eq_iff key j).0 same) (omega (arith, ap length (all_sent key w w' p)))
    | inr other ↦ omega (arith, ap length (p.others j other))
  ]

  -- Publishing under the keys in turn empties the queue of each of them.
  pub publish_keys-empties :
      (fuel : ℕ) (w : World net Store) (keys : List String)
      → ((k : String) → length (queue.items w.store k) < fuel)
      → (w' : World net Store) × (publish_keys (publish_batches net queue make_message fuel) w keys
          ≡ some w')
        × ((k : String) → length (queue.items w'.store k) ≤ length (queue.items w.store k))
        × All (λ k. queue.items w'.store k ≡ []) keys
  unfolding publish_keys
  publish_keys-empties fuel w [] enough = (w, refl, (λ k. omega arith), tt)
  publish_keys-empties fuel w (key ∷ keys) enough =
      let (w1, e1, p) =
        publish_batches-IsPublished net queue make_message fuel w key (enough key) in
      let (w2, e2, fewer, rest) =
        publish_keys-empties fuel w1 keys
          (λ k. omega (arith, enough k, fewer_items key w w1 k p)) in
      (
        w2,
        rw (e1, publish_keys) e2,
        λ k. omega (arith, fewer k, fewer_items key w w1 k p),
        (
          empty_of_length (queue.items w2.store key)
              (omega (arith, fewer key, ap length (all_sent key w w1 p))),
          rest,
        ),
      )

module _ (net : Connectivity) {Item : Type 0} (env : Environment Item) (device_key : String) where
  open env use {Store, sensor_readings, make_sensor_message}

  -- Over a connection that accepts every message, and with a protocol that makes a message of every
  -- batch, publishing the sensor readings with more fuel than readings wait
  -- under any key returns, and no reading is left under any key of the persistence.
  publish_sensor_readings-empties :
      ((n : net.Network) (m : Message) → (net.publish n m).0 ≡ true)
      → ((xs : List SensorReading) → 0 < length xs → make_sensor_message device_key xs ≢ none)
      → (fuel : ℕ) (w : World net Store)
      → ((k : String) → length (sensor_readings.items w.store k) < fuel)
      → (w' : World net Store) × (publish_sensor_readings net env device_key fuel w ≡ some w')
        × All (λ k. sensor_readings.items w'.store k ≡ []) (sensor_readings.keys w.store)
  unfolding publish_sensor_readings
  publish_sensor_readings-empties accepts makes fuel w enough =
      let (w', e, _, emptied) =
        publish_keys-empties net sensor_readings (make_sensor_message device_key) accepts makes fuel
          w (sensor_readings.keys w.store) enough in
      (w', e, emptied)

module _ (net : Connectivity) {Store A : Type 0} (slots : Slots Store A)
    (make_message : A → Option Message) where
  -- The four ways in which publishing the latest item under a key can end.
  pub data SlotOutcome (w w' : World net Store) (key : String) : Type 0 where
    nothing : slots.get w.store key ≡ none → w' ≡ w → SlotOutcome w w' key
    unmakeable :
        (a : A)
        → slots.get w.store key ≡ some a
        → make_message a ≡ none
        → slots.get w'.store key ≡ none
        → net.sent w'.network ≡ net.sent w.network
        → SlotOutcome w w' key
    published :
        (a : A) (m : Message)
        → slots.get w.store key ≡ some a
        → make_message a ≡ some m
        → slots.get w'.store key ≡ none
        → net.sent w'.network ≡ net.sent w.network ++ m ∷ []
        → SlotOutcome w w' key
    kept :
        (a : A) (m : Message)
        → make_message a ≡ some m
        → (net.publish w.network m).0 ≡ false
        → slots.get w'.store key ≡ some a
        → net.sent w'.network ≡ net.sent w.network
        → SlotOutcome w w' key

  removed : (s : Store) (key : String) → slots.get (slots.remove s key) key ≡ none
  removed s key = rw (slots.get-remove s key key, str_eq_refl key)

  pub publish_slot-outcome :
      (w : World net Store) (key : String)
      → SlotOutcome w (publish_slot net slots make_message w key) key
  unfolding publish_slot
  publish_slot-outcome w key = elim (Option-cases (slots.get w.store key)) [
    | inl e ↦ nothing e (rw (e, publish_slot))
    | inr (a, e) ↦ elim (Option-cases (make_message a)) [
      | inl bad ↦
          unmakeable a e bad (rw (e, publish_slot, bad) (removed w.store key))
            (rw (e, publish_slot, bad))
      | inr (m, good) ↦ elim (Bool-cases (net.publish w.network m).0) [
        | inl yes_ ↦
            published a m e good (rw (e, publish_slot, good, yes_) (removed w.store key))
              (rw (e, publish_slot, good, yes_) (net.sent-publish w.network m yes_))
        | inr no_ ↦
            kept a m good no_ (rw (e, publish_slot, good, no_) e)
              (rw (e, publish_slot, good, no_) (net.sent-publish_refused w.network m no_))
      ]
    ]
  ]

  pub publish_slot-others :
      (w : World net Store) (key j : String)
      → str_eq key j ≡ false
      → slots.get (publish_slot net slots make_message w key).store j ≡ slots.get w.store j
  unfolding publish_slot
  publish_slot-others w key j h = ground (arith, slots.get-remove w.store key j)

  -- Publishing the latest item under a key: without an item nothing changes; an item of which no
  -- message can be made is removed and nothing is sent; an item whose message the connection accepts
  -- is sent and removed; an item whose message it refuses is not sent and waits on. The items under
  -- other keys stay in every case.
  publish_slot-cases :
      (w : World net Store) (key : String)
      → SlotOutcome w (publish_slot net slots make_message w key) key
        × ((j : String)
            → str_eq key j ≡ false
            → slots.get (publish_slot net slots make_message w key).store j ≡ slots.get w.store j)
  publish_slot-cases w key = (publish_slot-outcome w key, publish_slot-others w key)
