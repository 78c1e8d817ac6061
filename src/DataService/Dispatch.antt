-- ===== src/DataService/Dispatch.antt =====
-- DataService::messageReceived: which handler of the device a message from the platform calls.
use wolk_connect_cpp.Base.{
  ◌≤◌, ◌≡◌, ◌↔◌, String, Bool, true, false, Option, none, some, List, [], ◌∷◌, is_empty, not,
  length, str_eq, str_eq_iff, str_eq_refl, inl, inr, if◌then◌else◌, arith, Bool-cases,
}
use wolk_connect_cpp.Sdk.Connectivity.{Message}

-- protocol/DataProtocol.h of WolkSDK-Cpp, as far as `messageReceived` uses it.
pub record DataProtocol (Item : Type 0) : Type 0 where
  pub extract_device_key_from_channel : String → String
  pub is_actuator_get_message : Message → Bool
  pub is_actuator_set_message : Message → Bool
  pub is_configuration_get_message : Message → Bool
  pub is_configuration_set_message : Message → Bool
  -- The reference that the command names.
  pub make_actuator_get_command : Message → Option String
  -- The reference and the value.
  pub make_actuator_set_command : Message → Option (String × String)
  pub make_configuration_set_command : Message → Option (List Item)

-- Which handlers are set.
pub record Handlers : Type 0 where
  pub actuator_set : Bool
  pub actuator_get : Bool
  pub configuration_set : Bool
  pub configuration_get : Bool

-- A call of a handler.
pub data Call (Item : Type 0) : Type 0 where
  actuator_get_handler : String → Call Item
  actuator_set_handler : String → String → Call Item
  configuration_get_handler : Call Item
  configuration_set_handler : List Item → Call Item

module _ {Item : Type 0} (protocol : DataProtocol Item) (handlers : Handlers)
    (device_key : String) where
  open protocol use {
    extract_device_key_from_channel, is_actuator_get_message, is_actuator_set_message,
    is_configuration_get_message, is_configuration_set_message, make_actuator_get_command,
    make_actuator_set_command, make_configuration_set_command,
  }

  abbrev call_if : Bool → Call Item → List (Call Item)
  call_if is_set call = if is_set then call ∷ [] else []

  -- The calls that a message makes.
  dispatch : Message → List (Call Item)
  dispatch m =
      if is_actuator_get_message m
      then (elim (make_actuator_get_command m) [
        | none ↦ []
        | some reference ↦ call_if handlers.actuator_get (actuator_get_handler reference)
      ])
      else if is_actuator_set_message m
      then (elim (make_actuator_set_command m) [
        | none ↦ []
        | some (reference, value) ↦
            call_if handlers.actuator_set (actuator_set_handler reference value)
      ])
      else if is_configuration_get_message m
      then call_if handlers.configuration_get configuration_get_handler
      else if is_configuration_set_message m
      then (elim (make_configuration_set_command m) [
        | none ↦ []
        | some values ↦ call_if handlers.configuration_set (configuration_set_handler values)
      ])
      else []

  pub message_received : Message → List (Call Item)
  message_received m =
      let key = extract_device_key_from_channel m.channel in
      if is_empty key then [] else if not (str_eq key device_key) then [] else dispatch m

  -- The message is a command that calls the handler: the first test of its kind that holds is that of
  -- the call, its content is read, and the handler is set.
  abbrev pub Commands : Message → Call Item → Type 0
  Commands m (actuator_get_handler reference) =
      (is_actuator_get_message m ≡ true)
      × (make_actuator_get_command m ≡ some reference)
      × (handlers.actuator_get ≡ true)
  Commands m (actuator_set_handler reference value) =
      (is_actuator_get_message m ≡ false)
      × (is_actuator_set_message m ≡ true)
      × (make_actuator_set_command m ≡ some (reference, value))
      × (handlers.actuator_set ≡ true)
  Commands m configuration_get_handler =
      (is_actuator_get_message m ≡ false)
      × (is_actuator_set_message m ≡ false)
      × (is_configuration_get_message m ≡ true)
      × (handlers.configuration_get ≡ true)
  Commands m (configuration_set_handler values) =
      (is_actuator_get_message m ≡ false)
      × (is_actuator_set_message m ≡ false)
      × (is_configuration_get_message m ≡ false)
      × (is_configuration_set_message m ≡ true)
      × (make_configuration_set_command m ≡ some values)
      × (handlers.configuration_set ≡ true)

  dispatch_iff : (m : Message) (call : Call Item) → (dispatch m ≡ call ∷ []) ↔ Commands m call
  unfolding dispatch
  dispatch_iff m (actuator_get_handler reference) = (λ e. ground arith, λ k. ground arith)
  dispatch_iff m (actuator_set_handler reference value) = (λ e. ground arith, λ k. ground arith)
  dispatch_iff m configuration_get_handler = (λ e. ground arith, λ k. ground arith)
  dispatch_iff m (configuration_set_handler values) = (λ e. ground arith, λ k. ground arith)

  -- The two tests on the device key of the channel let the calls through, or there are none.
  message_received-passes :
      (m : Message) (call : Call Item)
      → message_received m ≡ call ∷ []
      → (str_eq (extract_device_key_from_channel m.channel) device_key ≡ true)
        × (is_empty (extract_device_key_from_channel m.channel) ≡ false)
        × (dispatch m ≡ call ∷ [])
  unfolding message_received
  message_received-passes m call e =
      elim (Bool-cases (is_empty (extract_device_key_from_channel m.channel))) [
        | inl missing ↦ absurd (cc (rw missing at e))
        | inr present ↦
            elim (Bool-cases (str_eq (extract_device_key_from_channel m.channel) device_key)) [
              | inl same ↦ (same, present, rw (present, same) at e)
              | inr other ↦ absurd (cc (rw (present, other) at e))
            ]
      ]

  length-dispatch : (m : Message) → length (dispatch m) ≤ 1
  unfolding dispatch
  length-dispatch m = ground arith

  -- A message calls at most one handler, and it calls a given one exactly when the device key of its
  -- channel is this device's, which is not empty, and the message is a command for that handler.
  pub message_received_iff :
      (m : Message)
      → (length (message_received m) ≤ 1)
        × ((call : Call Item)
            → (message_received m ≡ call ∷ []) ↔ (
                (extract_device_key_from_channel m.channel ≡ device_key)
                × (is_empty device_key ≡ false)
                × Commands m call))
  unfolding message_received
  message_received_iff m = (
    ground (arith, length-dispatch m),
    λ call. (
      λ e.
          let (same, present, called) = message_received-passes m call e in
          let key = (str_eq_iff (extract_device_key_from_channel m.channel) device_key).0 same in
          (key, rw (← key) present, (dispatch_iff m call).0 called),
      λ k. rw (k.0, k.1, str_eq_refl device_key, message_received) ((dispatch_iff m call).1 k.2),
    ),
  )
