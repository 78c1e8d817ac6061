-- ===== src/InboundPlatformMessageHandler.antt =====
-- src/InboundPlatformMessageHandler.h and InboundPlatformMessageHandler.cpp: hands each message of the
-- platform to the listener of its channel.
pub mod Routing
pub mod Registrations
pub mod Tests
use Prim.Native.String.{compare}
use text.Mathlib.Text.{is_le}
use wolk_connect_cpp.Base.{
  String, Bool, true, false, Option, none, some, List, [], ◌∷◌, ◌++◌, str_eq, if◌then◌else◌,
}
use wolk_connect_cpp.Sdk.Connectivity.{Message}

-- The listeners, and what the handler asks of them and of StringUtils::mqttTopicMatch.
pub record Listeners : Type 1 where
  pub Listener : Type 0
  -- getProtocol().getInboundChannelsForDevice(deviceKey)
  pub inbound_channels_for_device : Listener → String → List String
  pub mqtt_topic_match : String → String → Bool

module _ (listeners : Listeners) where
  open listeners use {Listener, inbound_channels_for_device, mqtt_topic_match}

  pub record InboundPlatformMessageHandler : Type 0 where
    pub device_key : String
    -- The commands of the buffer: a message, and the weak reference to its listener.
    pub commands : List (Listener × Message)
    pub subscription_list : List String
    -- The map in the order of its keys.
    pub channel_handlers : List (String × Listener)

  -- The constructor.
  unfoldable pub inbound_platform_message_handler : String → InboundPlatformMessageHandler
  inbound_platform_message_handler device_key = record {
    device_key = device_key;
    commands = [];
    subscription_list = [];
    channel_handlers = [];
  }

  -- m_channelHandlers[channel] = listener
  pub assign : String → Listener → List (String × Listener) → List (String × Listener)
  assign channel l [] = (channel, l) ∷ []
  assign channel l ((k, x) ∷ rest) =
      let later = assign channel l rest in
      if str_eq k channel
      then (k, l) ∷ rest
      else if is_le (compare channel k)
      then (channel, l) ∷ (k, x) ∷ rest
      else (k, x) ∷ later

  -- m_channelHandlers.find
  unfoldable pub lookup : String → List (String × Listener) → Option Listener
  lookup channel [] = none
  lookup channel ((k, x) ∷ rest) = if str_eq k channel then some x else lookup channel rest

  -- The first key that the topic matches, with its listener.
  find_if : String → List (String × Listener) → Option (String × Listener)
  find_if channel [] = none
  find_if channel ((k, x) ∷ rest) =
      if mqtt_topic_match k channel then some (k, x) else find_if channel rest

  pub message_received :
      InboundPlatformMessageHandler → String → String → InboundPlatformMessageHandler
  unfolding find_if
  message_received h channel payload = elim (find_if channel h.channel_handlers) [
    | none ↦ h
    | some (k, l) ↦ record h {
      commands = h.commands ++ (l, record { content = payload; channel = channel }) ∷ [];
    }
  ]

  abbrev pub get_channels : InboundPlatformMessageHandler → List String
  get_channels h = h.subscription_list

  -- The loop of addListener.
  pub add_channels :
      InboundPlatformMessageHandler → Listener → List String → InboundPlatformMessageHandler
  unfolding assign
  add_channels h l [] = h
  add_channels h l (channel ∷ channels) =
      add_channels
        (record h {
          channel_handlers = assign channel l h.channel_handlers;
          subscription_list = h.subscription_list ++ channel ∷ [];
        })
        l channels

  -- `none` is a weak reference whose listener is gone.
  pub add_listener : InboundPlatformMessageHandler → Option Listener → InboundPlatformMessageHandler
  unfolding add_channels
  add_listener h none = h
  add_listener h (some l) = add_channels h l (inbound_channels_for_device l h.device_key)

  -- The next command: the message goes to its listener if that is still there.
  unfoldable pub next_command :
      (Listener → Bool)
      → InboundPlatformMessageHandler
      → Option (Listener × Message) × InboundPlatformMessageHandler
  next_command alive h = elim h.commands [
    | [] ↦ (none, h)
    | (l, m) ∷ rest ↦ (if alive l then some (l, m) else none, record h { commands = rest })
  ]
