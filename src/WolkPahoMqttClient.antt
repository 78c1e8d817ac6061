-- ===== src/WolkPahoMqttClient.antt =====
-- src/connectivity/mqtt/WolkPahoMqttClient.h and WolkPahoMqttClient.cpp: the MQTT client that says
-- goodbye.
use wolk_connect_cpp.Base.{
  String, Bool, List, [], ◌∷◌, ◌++◌, ◌≡◌, ◌∙◌, is_empty, not, if◌then◌else◌, Bool-cases, inl, inr,
  sym,
}
use mathlib.Core.List.{append-nil}

-- connectivity/mqtt/PahoMqttClient.h of WolkSDK-Cpp; `published` is what was given to `publish`, oldest
-- first: the topic, the message and whether it is retained.
record PahoMqttClient : Type 1 where
  Client : Type 0
  get_last_will_topic : Client → String
  get_last_will_message : Client → String
  get_last_will_retain : Client → Bool
  publish : Client → String → String → Bool → Client
  disconnect : Client → Client
  published : Client → List (String × String × Bool)
  published-publish :
      (c : Client) (topic message : String) (retain : Bool)
      → published (publish c topic message retain) ≡ published c ++ (topic, message, retain) ∷ []
  published-disconnect : (c : Client) → published (disconnect c) ≡ published c

module _ (paho : PahoMqttClient) where
  open paho use {
    Client, get_last_will_topic, get_last_will_message, get_last_will_retain, publish, published,
  }

  disconnect : Client → Client
  disconnect c = paho.disconnect (
      if not (is_empty (get_last_will_topic c))
      then publish c (get_last_will_topic c) (get_last_will_message c) (get_last_will_retain c)
      else c)

  -- A client that disconnects publishes its last will first, if that has a topic, and nothing else.
  published-disconnect :
      (c : Client)
      → published (disconnect c)
        ≡ published c
          ++ (if is_empty (get_last_will_topic c)
              then []
              else (get_last_will_topic c, get_last_will_message c, get_last_will_retain c) ∷ [])
  unfolding disconnect
  published-disconnect c = elim (Bool-cases (is_empty (get_last_will_topic c))) [
    | inl none_set ↦
        rw (none_set, disconnect) (paho.published-disconnect c ∙ sym (append-nil (published c)))
    | inr set ↦
        let message = get_last_will_message c in
        rw (set, disconnect)
          (paho.published-disconnect
              (publish c (get_last_will_topic c) message (get_last_will_retain c))
            ∙ paho.published-publish c (get_last_will_topic c) message (get_last_will_retain c))
  ]
