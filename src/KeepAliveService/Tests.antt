-- ===== src/KeepAliveService/Tests.antt =====
-- KeepAliveService over a protocol whose pong is the text of its value.
use wolk_connect_cpp.Base.{String, true, none, some, [], ◌∷◌, ◌++◌, replicate, str_eq, refl, List}
use wolk_connect_cpp.Sdk.Connectivity.{Message}
use wolk_connect_cpp.KeepAliveService.{
  StatusProtocol, KeepAliveService, Event, connects, disconnects, interval_ends, receives, run,
}
use wolk_connect_cpp.KeepAliveService.Histories.{Ends, pings, last_pong, run-pings}

abbrev ping_message : Message
ping_message = record { content = ""; channel = "d2p/ping" }

abbrev pub sample_protocol : StatusProtocol
sample_protocol = record {
  Timestamp = String;
  make_last_will_message = λ keys. none;
  make_from_ping_request = λ key. some ping_message;
  is_pong_message = λ m. str_eq m.channel "p2d/pong";
  parse_value = λ content. some content;
}

abbrev pub new_service : KeepAliveService sample_protocol
new_service = record {
  device_key = "d";
  last_timestamp = none;
  timer_running = true;
  published = [];
  uncontrolled_disconnect_message = none;
}

-- Two pings, a pong, and an interval without a connection.
abbrev history : List (Event sample_protocol)
history =
    connects
    ∷ interval_ends
    ∷ receives (record { content = "12"; channel = "p2d/pong" })
    ∷ disconnects
    ∷ interval_ends
    ∷ []

run-pings_example :
    Ends sample_protocol
      (run sample_protocol new_service history)
      ([] ++ replicate (pings sample_protocol true history) ping_message)
      (last_pong sample_protocol none history)
run-pings_example =
    run-pings sample_protocol ping_message history new_service refl
      (tt, (tt, ((λ e. refl), (tt, (tt, tt)))))
