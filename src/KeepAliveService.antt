-- ===== src/KeepAliveService.antt =====
-- src/service/keep_alive/KeepAliveService.h and KeepAliveService.cpp: pings the platform while the
-- device is connected, and keeps the timestamp of the last pong.
pub mod Histories
pub mod Tests
use wolk_connect_cpp.Base.{
  String, Bool, true, false, Option, none, some, List, [], ◌∷◌, ◌++◌, if◌then◌else◌,
}
use wolk_connect_cpp.Sdk.Connectivity.{Message}

-- protocol/StatusProtocol.h of the SDK, and the JSON library.
pub record StatusProtocol : Type 1 where
  -- `long long`
  pub Timestamp : Type 0
  pub make_last_will_message : List String → Option Message
  pub make_from_ping_request : String → Option Message
  pub is_pong_message : Message → Bool
  -- parse(content)["value"], `none` where the library throws.
  pub parse_value : String → Option Timestamp

module _ (protocol : StatusProtocol) where
  open protocol use {Timestamp}

  pub record KeepAliveService : Type 0 where
    pub device_key : String
    -- The constructor leaves it unset.
    pub last_timestamp : Option Timestamp
    pub timer_running : Bool
    -- The messages given to the connection, oldest first; its answers are not used.
    pub published : List Message
    pub uncontrolled_disconnect_message : Option Message

  -- The constructor; the connection keeps its message when none is made.
  keep_alive_service : String → Option Message → KeepAliveService
  keep_alive_service device_key before = record {
    device_key = device_key;
    last_timestamp = none;
    timer_running = false;
    published = [];
    uncontrolled_disconnect_message = elim (protocol.make_last_will_message (device_key ∷ [])) [
      | none ↦ before
      | some m ↦ some m
    ];
  }

  ping : KeepAliveService → KeepAliveService
  ping s = elim (protocol.make_from_ping_request s.device_key) [
    | none ↦ s
    | some m ↦ record s { published = s.published ++ m ∷ [] }
  ]

  pub connected : KeepAliveService → KeepAliveService
  unfolding ping
  connected s = record (ping s) { timer_running = true }

  pub disconnected : KeepAliveService → KeepAliveService
  disconnected s = record s { timer_running = false }

  -- The timer calls `ping` in every interval while it runs.
  interval : KeepAliveService → KeepAliveService
  unfolding ping
  interval s = if s.timer_running then ping s else s

  -- `none` where the JSON library throws.
  pub message_received : KeepAliveService → Message → Option KeepAliveService
  message_received s m =
      if protocol.is_pong_message m
      then elim (protocol.parse_value m.content) [
        | none ↦ none
        | some value ↦ some (record s { last_timestamp = some value })
      ]
      else some s

  pub data Event : Type 0 where
    connects disconnects interval_ends : Event
    receives : Message → Event

  step : KeepAliveService → Event → Option KeepAliveService
  unfolding connected disconnected interval message_received
  step s connects = some (connected s)
  step s disconnects = some (disconnected s)
  step s interval_ends = some (interval s)
  step s (receives m) = message_received s m

  pub run : KeepAliveService → List Event → Option KeepAliveService
  unfolding step
  run s [] = some s
  run s (e ∷ es) = elim (step s e) [ none ↦ none | some s' ↦ run s' es ]
