-- ===== src/InboundPlatformMessageHandler/Tests.antt =====
-- InboundPlatformMessageHandler with two listeners.
use wolk_connect_cpp.Base.{
  Option, none, ℕ, String, some, [], ◌∷◌, ◌≡◌, ◌==◌, refl, str_eq, if◌then◌else◌, List,
}
use wolk_connect_cpp.InboundPlatformMessageHandler.{
  Listeners, InboundPlatformMessageHandler, message_received, add_listener,
  inbound_platform_message_handler,
}
use wolk_connect_cpp.InboundPlatformMessageHandler.Registrations.{
  add_listeners, owner, Delivered, message_received-Delivered,
}

-- Listener 1 listens to files, the others to data; a topic matches itself.
abbrev sample_listeners : Listeners
sample_listeners = record {
  Listener = ℕ;
  inbound_channels_for_device = λ l key. channels_of l;
  mqtt_topic_match = λ topic channel. str_eq topic channel;
}
  where
    channels_of : ℕ → List String
    channels_of l = if l == 1 then "p2d/file" ∷ "p2d/binary" ∷ [] else "p2d/data" ∷ []

abbrev no_listener : InboundPlatformMessageHandler sample_listeners
no_listener = record {
  device_key = "d";
  commands = [];
  subscription_list = [];
  channel_handlers = [];
}

abbrev two_listeners : InboundPlatformMessageHandler sample_listeners
two_listeners = record no_listener {
  subscription_list = "p2d/file" ∷ "p2d/binary" ∷ "p2d/data" ∷ [];
  channel_handlers = ("p2d/binary", 1) ∷ ("p2d/data", 2) ∷ ("p2d/file", 1) ∷ [];
}

registered :
    add_listener sample_listeners (add_listener sample_listeners no_listener (some 1)) (some 2)
    ≡ two_listeners
unfolding add_listener
registered = refl

abbrev registrations : List (Option ℕ)
registrations = some 1 ∷ none ∷ some 2 ∷ []

message_received-Delivered_example :
    let h =
      add_listeners sample_listeners
        (inbound_platform_message_handler sample_listeners "d")
        registrations in
    Delivered sample_listeners h
      (owner sample_listeners "d" none registrations)
      "p2d/data"
      "x"
      (message_received sample_listeners h "p2d/data" "x")
message_received-Delivered_example =
    message_received-Delivered sample_listeners "d" registrations "p2d/data" "x"
