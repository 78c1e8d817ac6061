-- ===== src/DataService/Sending.antt =====
-- What the publication of the latest items sends.
use wolk_connect_cpp.Base.{
  ◌≡◌, ◌∙◌, inl, inr, ap, sym, String, true, Option, some, List, [], ◌∷◌, ◌++◌, str_eq, str_eq_iff,
  Bool-cases,
}
use mathlib.Core.List.{append_assoc, append-nil}
use wolk_connect_cpp.Sdk.Connectivity.{Message, Connectivity}
use wolk_connect_cpp.Sdk.Persistence.{Slots}
use wolk_connect_cpp.FileRepository.{contains}
use wolk_connect_cpp.DataService.{
  World, Environment, ActuatorStatus, publish_slot, publish_all_slots, publish_actuator_statuses,
  publish_actuator_statuses_for_persistance_key,
}
use wolk_connect_cpp.DataService.Publishing.{
  nothing, unmakeable, published, kept, publish_slot-outcome, publish_slot-others,
}

-- More is sent.
abbrev Grows : List Message → List Message → Type 0
Grows before after = (more : List Message) × (after ≡ before ++ more)

-- More is sent, this message among it.
abbrev pub Sends : Message → List Message → List Message → Type 0
Sends m before after =
    (first : List Message) × (rest : List Message) × (after ≡ before ++ (first ++ m ∷ rest))

sends_first : (m : Message) (a b c : List Message) → b ≡ a ++ m ∷ [] → Grows b c → Sends m a c
sends_first m a b c e (more, e') =
    ([], more, e' ∙ ap (λ x. x ++ more) e ∙ append_assoc a (m ∷ []) more)

sends_later : (m : Message) (a b c : List Message) → Grows a b → Sends m b c → Sends m a c
sends_later m a b c (more, e) (first, rest, e') = (
  more ++ first,
  rest,
  e'
      ∙ ap (λ x. x ++ (first ++ m ∷ rest)) e
      ∙ append_assoc a more (first ++ m ∷ rest)
      ∙ ap (λ x. a ++ x) (sym (append_assoc more first (m ∷ rest))),
)

Grows-trans : (a b c : List Message) → Grows a b → Grows b c → Grows a c
Grows-trans a b c (x, e) (y, e') = (x ++ y, e' ∙ ap (λ l. l ++ y) e ∙ append_assoc a x y)

module _ (net : Connectivity) {Store A : Type 0} (slots : Slots Store A)
    (make_message : A → Option Message) where
  abbrev sent : World net Store → List Message
  sent w = net.sent w.network

  slot-Grows :
      (w : World net Store) (key : String)
      → Grows (sent w) (sent (publish_slot net slots make_message w key))
  slot-Grows w key = elim (publish_slot-outcome net slots make_message w key) [
    | nothing e same ↦ ([], ap sent same ∙ sym (append-nil (sent w)))
    | unmakeable a e bad gone s ↦ ([], s ∙ sym (append-nil (sent w)))
    | published a m e good gone s ↦ (m ∷ [], s)
    | kept a m good no_ e s ↦ ([], s ∙ sym (append-nil (sent w)))
  ]

  all_slots-Grows :
      (w : World net Store) (keys : List String)
      → Grows (sent w) (sent (publish_all_slots (publish_slot net slots make_message) w keys))
  unfolding publish_all_slots
  all_slots-Grows w [] = ([], sym (append-nil (sent w)))
  all_slots-Grows w (key ∷ keys) =
      let w1 = publish_slot net slots make_message w key in
      Grows-trans (sent w) (sent w1) _ (slot-Grows w key) (all_slots-Grows w1 keys)

  slot-sends :
      (w : World net Store) (key : String) (a : A) (m : Message)
      → slots.get w.store key ≡ some a
      → make_message a ≡ some m
      → (net.publish w.network m).0 ≡ true
      → sent (publish_slot net slots make_message w key) ≡ sent w ++ m ∷ []
  unfolding publish_slot
  slot-sends w key a m e good yes_ =
      rw (e, publish_slot, good, yes_) (net.sent-publish w.network m yes_)

  -- The item of a key that is listed is sent.
  pub all_slots-Sends :
      (accepts : (n : net.Network) (m : Message) → (net.publish n m).0 ≡ true) (w : World net Store)
      (keys : List String) (key : String) (a : A) (m : Message)
      → contains keys key ≡ true
      → slots.get w.store key ≡ some a
      → make_message a ≡ some m
      → Sends m (sent w) (sent (publish_all_slots (publish_slot net slots make_message) w keys))
  unfolding publish_all_slots contains
  all_slots-Sends accepts w [] key a m listed e good = absurd (cc listed)
  all_slots-Sends accepts w (k ∷ keys) key a m listed e good =
      let w1 = publish_slot net slots make_message w k in
      elim (Bool-cases (str_eq k key)) [
        | inl same ↦
            sends_first m (sent w) (sent w1) _
              (slot-sends w k a m (ap (slots.get w.store) ((str_eq_iff k key).0 same) ∙ e) good
                (accepts w.network m))
              (all_slots-Grows w1 keys)
        | inr other ↦ sends_later m (sent w) (sent w1) _ (slot-Grows w k) (
            all_slots-Sends accepts w1 keys key a m (rw other at listed)
              (publish_slot-others net slots make_message w k key other ∙ e) good)
      ]

module _ (net : Connectivity) {Item : Type 0} (env : Environment Item) (device_key : String) where
  open env use {Store, actuator_statuses, make_status_message}

  -- Over a connection that accepts every message, the status of a listed actuator is sent.
  pub publish_actuator_statuses-Sends :
      (accepts : (n : net.Network) (m : Message) → (net.publish n m).0 ≡ true) (w : World net Store)
      (key : String) (status : ActuatorStatus) (m : Message)
      → contains (actuator_statuses.keys w.store) key ≡ true
      → actuator_statuses.get w.store key ≡ some status
      → make_status_message device_key (status ∷ []) ≡ some m
      → Sends m
          (net.sent w.network)
          (net.sent (publish_actuator_statuses net env device_key w).network)
  unfolding publish_actuator_statuses publish_actuator_statuses_for_persistance_key
  publish_actuator_statuses-Sends accepts w key status m listed e good =
      all_slots-Sends net actuator_statuses (λ s. make_status_message device_key (s ∷ [])) accepts w
        (actuator_statuses.keys w.store) key status m listed e good
