-- ===== src/KeepAliveService/Histories.antt =====
-- What a history of connections, intervals and messages leaves in KeepAliveService.cpp.
use wolk_connect_cpp.Base.{
  ℕ, suc, Bool, true, false, Option, some, List, [], ◌∷◌, ◌++◌, ◌≡◌, ◌∙◌, refl, ap, sym, inl, inr,
  All, arith, is_some, replicate, if◌then◌else◌, Bool-cases,
}
use mathlib.Core.List.{append-nil, append_assoc}
use wolk_connect_cpp.Sdk.Connectivity.{Message}
use wolk_connect_cpp.KeepAliveService.{
  StatusProtocol, KeepAliveService, Event, connects, disconnects, interval_ends, receives, step,
  run,
}

module _ (protocol : StatusProtocol) where
  open protocol use {Timestamp}

  -- A pong has a value that can be read.
  abbrev pub IsReadable : Event protocol → Type 0
  IsReadable (receives m) =
      protocol.is_pong_message m ≡ true → is_some (protocol.parse_value m.content) ≡ true
  IsReadable connects = Unit
  IsReadable disconnects = Unit
  IsReadable interval_ends = Unit

  -- The pings of a history: one for each connection, one for each interval while connected.
  abbrev pub pings : Bool → List (Event protocol) → ℕ
  pings is_connected [] = 0
  pings is_connected (connects ∷ es) = suc (pings true es)
  pings is_connected (disconnects ∷ es) = pings false es
  pings true (interval_ends ∷ es) = suc (pings true es)
  pings false (interval_ends ∷ es) = pings false es
  pings is_connected (receives m ∷ es) = pings is_connected es

  -- The value of the last pong.
  abbrev pub last_pong : Option Timestamp → List (Event protocol) → Option Timestamp
  last_pong last [] = last
  last_pong last (receives m ∷ es) =
      last_pong (if protocol.is_pong_message m then protocol.parse_value m.content else last) es
  last_pong last (connects ∷ es) = last_pong last es
  last_pong last (disconnects ∷ es) = last_pong last es
  last_pong last (interval_ends ∷ es) = last_pong last es

  -- A run that ends with what was published and with a timestamp.
  abbrev pub Ends : Option (KeepAliveService protocol) → List Message → Option Timestamp → Type 0
  Ends o published last =
      (s : KeepAliveService protocol) × (o ≡ some s)
      × (s.published ≡ published)
      × (s.last_timestamp ≡ last)

  carry :
      {o o' : Option (KeepAliveService protocol)} {p p' : List Message} {l l' : Option Timestamp}
      → o' ≡ o
      → p ≡ p'
      → l ≡ l'
      → Ends o p l
      → Ends o' p' l'
  carry eo ep el (s, e, published, last) = (s, eo ∙ e, published ∙ ep, last ∙ el)

  run-step :
      (s s' : KeepAliveService protocol) (e : Event protocol) (es : List (Event protocol))
      → step protocol s e ≡ some s'
      → run protocol s (e ∷ es) ≡ run protocol s' es
  unfolding run
  run-step s s' e es h = rw (h, run) refl

  abbrev pinged : KeepAliveService protocol → Message → KeepAliveService protocol
  pinged s m = record s { published = s.published ++ m ∷ []; timer_running = true }

  step_connects :
      (s : KeepAliveService protocol) (m : Message)
      → protocol.make_from_ping_request s.device_key ≡ some m
      → step protocol s connects ≡ some (pinged s m)
  unfolding step
  step_connects s m e = ground arith

  step_interval :
      (s : KeepAliveService protocol) (m : Message)
      → protocol.make_from_ping_request s.device_key ≡ some m
      → s.timer_running ≡ true
      → step protocol s interval_ends ≡ some (pinged s m)
  unfolding step
  step_interval s m e t = ground arith

  step_idle :
      (s : KeepAliveService protocol)
      → s.timer_running ≡ false
      → step protocol s interval_ends ≡ some s
  unfolding step
  step_idle s t = ground arith

  step_pong :
      (s : KeepAliveService protocol) (m : Message)
      → IsReadable (receives m)
      → step protocol s (receives m)
        ≡ some (record s {
          last_timestamp =
              if protocol.is_pong_message m
              then protocol.parse_value m.content
              else s.last_timestamp;
        })
  unfolding step
  step_pong s m r = ground arith

  -- While every pong is readable, a history raises no exception; it publishes one ping for each
  -- connection and for each interval while connected and nothing else, when the protocol makes a ping
  -- message; and the timestamp is that of the last pong, or the one before when there was none.
  pub run-pings :
      (ping : Message) (es : List (Event protocol)) (s : KeepAliveService protocol)
      → protocol.make_from_ping_request s.device_key ≡ some ping
      → All IsReadable es
      → Ends
          (run protocol s es)
          (s.published ++ replicate (pings s.timer_running es) ping)
          (last_pong s.last_timestamp es)
  unfolding run step
  run-pings ping [] s e r = (s, refl, sym (append-nil s.published), refl)
  run-pings ping (connects ∷ es) s e r =
      carry (run-step s (pinged s ping) connects es (step_connects s ping e))
        (append_assoc s.published (ping ∷ []) (replicate (pings true es) ping)) refl
        (run-pings ping es (pinged s ping) e r.1)
  run-pings ping (disconnects ∷ es) s e r =
      run-pings ping es (record s { timer_running = false }) e r.1
  run-pings ping (interval_ends ∷ es) s e r =
      let published = λ (b : Bool). s.published ++ replicate (pings b (interval_ends ∷ es)) ping in
      elim (Bool-cases s.timer_running) [
        | inl t ↦
            carry (run-step s (pinged s ping) interval_ends es (step_interval s ping e t))
              (append_assoc s.published (ping ∷ []) (replicate (pings true es) ping)
                ∙ ap published (sym t))
              refl (run-pings ping es (pinged s ping) e r.1)
        | inr t ↦
            carry (run-step s s interval_ends es (step_idle s t))
              (ap (λ b. s.published ++ replicate (pings b es) ping) t ∙ ap published (sym t)) refl
              (run-pings ping es s e r.1)
      ]
  run-pings ping (receives m ∷ es) s e r =
      let after : KeepAliveService protocol = record s {
        last_timestamp =
            if protocol.is_pong_message m then protocol.parse_value m.content else s.last_timestamp;
      } in
      carry (run-step s after (receives m) es (step_pong s m r.0)) refl refl
        (run-pings ping es after e r.1)
