-- ===== src/InboundPlatformMessageHandler/Routing.antt =====
-- Which listener InboundPlatformMessageHandler.cpp chooses for a message.
use wolk_connect_cpp.Base.{
  String, true, false, none, some, List, [], ◌∷◌, ◌++◌, ◌≡◌, ◌∙◌, refl, ap, sym, inl, inr, All,
  arith, str_eq, str_eq_iff, if◌then◌else◌, Bool-cases, Option-cases,
}
use mathlib.Core.List.{append-nil, append_assoc}
use mathlib.Core.Option.{some-injective}
use wolk_connect_cpp.FileRepository.{contains}
use wolk_connect_cpp.InboundPlatformMessageHandler.{
  Listeners, InboundPlatformMessageHandler, assign, lookup, find_if, message_received, get_channels,
  add_channels, add_listener,
}

module _ (listeners : Listeners) where
  open listeners use {Listener, inbound_channels_for_device, mqtt_topic_match}

  -- No key of the part of the map matches the channel.
  abbrev pub Unmatched : String → List (String × Listener) → Type 0
  Unmatched channel = All (λ (e : String × Listener). mqtt_topic_match e.0 channel ≡ false)

  -- How a message changes the handler: no key matches, or the first key that does gives the listener.
  pub data Routed (h : InboundPlatformMessageHandler listeners) (channel payload : String)
      (h' : InboundPlatformMessageHandler listeners) : Type 0 where
    dropped : Unmatched channel h.channel_handlers → h' ≡ h → Routed h channel payload h'
    routed :
        (before after : List (String × Listener)) (k : String) (l : Listener)
        → h.channel_handlers ≡ before ++ (k, l) ∷ after
        → Unmatched channel before
        → mqtt_topic_match k channel ≡ true
        → h' ≡ record h {
          commands = h.commands ++ (l, record { content = payload; channel = channel }) ∷ [];
        }
        → Routed h channel payload h'

  find_if-none :
      (channel : String) (m : List (String × Listener))
      → find_if listeners channel m ≡ none
      → Unmatched channel m
  unfolding find_if
  find_if-none channel [] e = tt
  find_if-none channel ((k, x) ∷ rest) e = elim (Bool-cases (mqtt_topic_match k channel)) [
    | inl matches ↦ absurd (cc (rw matches at e))
    | inr fails ↦ (fails, find_if-none channel rest (rw fails at e))
  ]

  find_if-some :
      (channel : String) (m : List (String × Listener)) (k : String) (l : Listener)
      → find_if listeners channel m ≡ some (k, l)
      → (before : List (String × Listener)) × (after : List (String × Listener)) × (m
          ≡ before ++ (k, l) ∷ after)
        × Unmatched channel before
        × (mqtt_topic_match k channel ≡ true)
  unfolding find_if
  find_if-some channel [] k l e = absurd (cc e)
  find_if-some channel ((j, x) ∷ rest) k l e = elim (Bool-cases (mqtt_topic_match j channel)) [
    | inl matches ↦
        let same : (j, x) ≡ (k, l) = some-injective _ _ (rw matches at e) in
        (
          [],
          rest,
          ap (λ p. p ∷ rest) same,
          tt,
          ap (λ (p : String × Listener). mqtt_topic_match p.0 channel) (sym same) ∙ matches,
        )
    | inr fails ↦
        let (before, after, split, un, matches) = find_if-some channel rest k l (rw fails at e) in
        ((j, x) ∷ before, after, ap (◌∷◌ (j, x)) split, (fails, un), matches)
  ]

  -- A message whose channel no registered topic matches changes nothing; otherwise it is queued once,
  -- for the listener of the first topic, in the order of the map, that matches its channel.
  pub message_received-Routed :
      (h : InboundPlatformMessageHandler listeners) (channel payload : String)
      → Routed h channel payload (message_received listeners h channel payload)
  unfolding message_received
  message_received-Routed h channel payload =
      elim (Option-cases (find_if listeners channel h.channel_handlers)) [
        | inl e ↦
            dropped (find_if-none channel h.channel_handlers e) (rw (e, message_received) refl)
        | inr ((k, l), e) ↦
            let (before, after, split, un, matches) =
              find_if-some channel h.channel_handlers k l e in
            routed before after k l split un matches (rw (e, message_received) refl)
      ]

  lookup-assign :
      (channel j : String) (l : Listener) (m : List (String × Listener))
      → lookup listeners j (assign listeners channel l m)
        ≡ (if str_eq channel j then some l else lookup listeners j m)
  unfolding lookup assign
  lookup-assign channel j l [] = refl
  lookup-assign channel j l ((k, x) ∷ rest) = ground (
    arith,
    lookup-assign channel j l rest,
    str_eq_iff k channel,
    str_eq_iff k j,
    str_eq_iff channel j,
  )

  pub lookup-add_channels :
      (h : InboundPlatformMessageHandler listeners) (l : Listener) (channels : List String)
      (j : String)
      → lookup listeners j (add_channels listeners h l channels).channel_handlers
        ≡ (if contains channels j then some l else lookup listeners j h.channel_handlers)
  unfolding add_channels contains
  lookup-add_channels h l [] j = refl
  lookup-add_channels h l (c ∷ cs) j =
      let next : InboundPlatformMessageHandler listeners = record h {
        channel_handlers = assign listeners c l h.channel_handlers;
        subscription_list = h.subscription_list ++ c ∷ [];
      } in
      ground (arith, lookup-add_channels next l cs j, lookup-assign c j l h.channel_handlers)

  get_channels-add_channels :
      (h : InboundPlatformMessageHandler listeners) (l : Listener) (channels : List String)
      → get_channels listeners (add_channels listeners h l channels)
        ≡ get_channels listeners h ++ channels
  unfolding add_channels
  get_channels-add_channels h l [] = sym (append-nil h.subscription_list)
  get_channels-add_channels h l (c ∷ cs) =
      let next : InboundPlatformMessageHandler listeners = record h {
        channel_handlers = assign listeners c l h.channel_handlers;
        subscription_list = h.subscription_list ++ c ∷ [];
      } in
      get_channels-add_channels next l cs ∙ append_assoc h.subscription_list (c ∷ []) cs

  pub device_key-add_channels :
      (h : InboundPlatformMessageHandler listeners) (l : Listener) (channels : List String)
      → (add_channels listeners h l channels).device_key ≡ h.device_key
  unfolding add_channels
  device_key-add_channels h l [] = refl
  device_key-add_channels h l (c ∷ cs) =
      device_key-add_channels
        (record h {
          channel_handlers = assign listeners c l h.channel_handlers;
          subscription_list = h.subscription_list ++ c ∷ [];
        })
        l cs

  pub get_channels-add_listener :
      (h : InboundPlatformMessageHandler listeners) (l : Listener)
      → (get_channels listeners (add_listener listeners h (some l))
          ≡ get_channels listeners h ++ inbound_channels_for_device l h.device_key)
        × ((add_listener listeners h (some l)).device_key ≡ h.device_key)
  unfolding add_listener
  get_channels-add_listener h l =
      let channels = inbound_channels_for_device l h.device_key in
      (get_channels-add_channels h l channels, device_key-add_channels h l channels)

  pub add_listener_gone :
      (h : InboundPlatformMessageHandler listeners) → add_listener listeners h none ≡ h
  unfolding add_listener
  add_listener_gone h = refl

  -- A listener that is there is registered for each of its channels, in place of the listener that was
  -- there, and for no other channel; its channels are appended to the subscriptions.
  pub add_listener-registers :
      (h : InboundPlatformMessageHandler listeners) (l : Listener)
      → let channels = inbound_channels_for_device l h.device_key in
        ((j : String)
          → lookup listeners j (add_listener listeners h (some l)).channel_handlers
            ≡ (if contains channels j then some l else lookup listeners j h.channel_handlers))
        × (get_channels listeners (add_listener listeners h (some l))
            ≡ get_channels listeners h ++ channels)
  unfolding add_listener
  add_listener-registers h l =
      let channels = inbound_channels_for_device l h.device_key in
      (λ j. lookup-add_channels h l channels j, get_channels-add_channels h l channels)
