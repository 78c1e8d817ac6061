-- ===== src/WolkBuilder/Building.antt =====
-- Which configurations src/WolkBuilder.cpp builds, and what the library then listens to.
use wolk_connect_cpp.Base.{
  String, Bool, true, false, not, ◌&&◌, ◌||◌, Option, none, some, List, [], ◌++◌, ◌≡◌, ◌≢◌, ◌∙◌,
  refl, ap, sym, arith, is_nil, is_empty, is_some, if◌then◌else◌, ◌⊎◌, inl, inr, Bool-cases,
  Option-cases,
}
use mathlib.Core.List.{append-nil}
use wolk_connect_cpp.FileRepository.{contains}
use wolk_connect_cpp.Device.{get_actuator_references}
use wolk_connect_cpp.Wolk.Callbacks.{is_set}
use wolk_connect_cpp.InboundPlatformMessageHandler.{
  InboundPlatformMessageHandler, lookup, get_channels, add_listener,
  inbound_platform_message_handler,
}
use wolk_connect_cpp.InboundPlatformMessageHandler.Routing.{
  get_channels-add_listener, add_listener_gone, add_listener-registers,
}
use wolk_connect_cpp.WolkBuilder.{
  Parts, Service, WolkBuilder, Built, Outcome, built, logic_error, null_dereference, LogicError,
  file_management_disabled, configuration_handler_lambda, configuration_provider_object, set, build,
  callback_error, firmware_of, connected_handler, library, outcome, listeners, data_service,
  file_download_service, firmware_update_service, keep_alive_service,
}

abbrev same : Bool → Bool → Bool
same true b = b
same false b = not b

module _ (parts : Parts) where
  open parts use {templates, DataProtocol}

  abbrev has_firmware : WolkBuilder parts → Bool
  has_firmware b = is_some b.firmware_installer && is_some b.firmware_version_provider

  -- There is a device key; a device with actuators has both of their callbacks; the configuration's
  -- handler and provider are both lambdas, both objects or both missing.
  abbrev callbacks_fit : WolkBuilder parts → Bool
  callbacks_fit b =
      not (is_empty b.device.key)
      && ((is_nil (get_actuator_references templates b.device)
            || (is_set b.actuation_handler && is_set b.actuator_status_provider))
          && (same (is_some b.configuration_handler.lambda)
                (is_some b.configuration_provider.lambda)
              && same (is_some b.configuration_handler.object)
                  (is_some b.configuration_provider.object)))

  -- The callbacks fit, the data protocol is there, and firmware update, if asked for, comes with file
  -- management.
  abbrev pub accepts : WolkBuilder parts → Bool
  accepts b =
      callbacks_fit b
      && (is_some b.data_protocol && (not (has_firmware b) || b.file_management_enabled))

  -- The channels of the data service, the file service, the firmware service if there is one, and the
  -- keep-alive service if it is enabled.
  abbrev pub channels : WolkBuilder parts → DataProtocol → List String
  channels b p =
      ((parts.data_channels p b.device.key ++ parts.download_channels b.device.key)
        ++ (if has_firmware b then parts.firmware_channels b.device.key else []))
      ++ (if b.keep_alive_enabled then parts.status_channels b.device.key else [])

  is_some-callback_error :
      (b : WolkBuilder parts) → is_some (callback_error parts b) ≡ not (callbacks_fit b)
  unfolding callback_error
  is_some-callback_error b = ground arith

  is_some-firmware_of : (b : WolkBuilder parts) → is_some (firmware_of parts b) ≡ has_firmware b
  unfolding firmware_of
  is_some-firmware_of b = ground arith

  firmware_alone : WolkBuilder parts → Bool
  unfolding firmware_of
  firmware_alone b = is_some (firmware_of parts b) && not b.file_management_enabled

  build_by :
      (b : WolkBuilder parts) {e : Option LogicError} {p : Option DataProtocol} {f : Bool}
      → callback_error parts b ≡ e
      → b.data_protocol ≡ p
      → firmware_alone b ≡ f
      → build parts b ≡ outcome parts b e p f
  unfolding build firmware_alone
  build_by b e p f = λ i. outcome parts b (e i) (p i) (f i)

  -- How `build` ends.
  data Ends (b : WolkBuilder parts) : Type 0 where
    succeeds :
        (p : DataProtocol)
        → b.data_protocol ≡ some p
        → accepts b ≡ true
        → build parts b ≡ built (library parts b p) (record b { data_protocol = none })
        → Ends b
    fails :
        accepts b ≡ false
        → ((w : Built parts) (b' : WolkBuilder parts) → build parts b ≢ built w b')
        → Ends b

  build-Ends : (b : WolkBuilder parts) → Ends b
  unfolding outcome firmware_alone
  build-Ends b = elim (Option-cases (callback_error parts b)) [
    | inr (x, e) ↦
        fails (ground (arith, is_some-callback_error b, e))
          (λ w b' f. cc (sym (build_by b e refl refl) ∙ f))
    | inl e ↦ elim (Option-cases b.data_protocol) [
      | inl gone ↦ fails (ground arith) (λ w b' f. cc (sym (build_by b e gone refl) ∙ f))
      | inr (p, there) ↦ elim (Bool-cases (firmware_alone b)) [
        | inl alone ↦
            fails (ground (arith, is_some-firmware_of b))
              (λ w b' f. cc (sym (build_by b e there alone) ∙ f))
        | inr managed ↦
            succeeds p there (ground (arith, is_some-callback_error b, is_some-firmware_of b))
              (build_by b e there managed)
      ]
    ]
  ]

  -- The service that a channel is registered for: the last of the four that has the channel.
  abbrev pub listener_of : WolkBuilder parts → DataProtocol → String → Option (Service parts)
  listener_of b p channel =
      let key = b.device.key in
      if b.keep_alive_enabled && contains (parts.status_channels key) channel
      then some keep_alive_service
      else if has_firmware b && contains (parts.firmware_channels key) channel
      then some firmware_update_service
      else if contains (parts.download_channels key) channel
      then some file_download_service
      else if contains (parts.data_channels p key) channel
      then some (data_service p)
      else none

  -- A handler for a device that subscribes to channels, each registered for a service.
  record Hears (h : InboundPlatformMessageHandler (listeners parts)) (key : String)
      (cs : List String) (of : String → Option (Service parts)) : Type 0 where
    device_key : h.device_key ≡ key
    subscribed : get_channels (listeners parts) h ≡ cs
    registered :
        (channel : String) → lookup (listeners parts) channel h.channel_handlers ≡ of channel

  Hears-add :
      (h : InboundPlatformMessageHandler (listeners parts)) (key : String) (cs : List String)
      (of : String → Option (Service parts)) (l : Service parts)
      → Hears h key cs of
      → let more = (listeners parts).inbound_channels_for_device l key in
        Hears
          (add_listener (listeners parts) h (some l))
          key
          (cs ++ more)
          (λ channel. if contains more channel then some l else of channel)
  Hears-add h key cs of l heard =
      let channels_of = (listeners parts).inbound_channels_for_device l in
      let (more, kept) = get_channels-add_listener (listeners parts) h l in
      record {
        device_key = kept ∙ heard.device_key;
        subscribed =
            more
            ∙ ap (λ xs. xs ++ channels_of h.device_key) heard.subscribed
            ∙ ap (λ k. cs ++ channels_of k) heard.device_key;
        registered = λ channel.
            (add_listener-registers (listeners parts) h l).0 channel
            ∙ ap
                (λ k.
                  if contains (channels_of k) channel
                  then some l
                  else lookup (listeners parts) channel h.channel_handlers)
                heard.device_key
            ∙ ap (λ o. if contains (channels_of key) channel then some l else o)
                (heard.registered channel);
      }

  Hears-add_if :
      (wanted : Bool) (h : InboundPlatformMessageHandler (listeners parts)) (key : String)
      (cs : List String) (of : String → Option (Service parts)) (l : Service parts)
      → Hears h key cs of
      → let more = (listeners parts).inbound_channels_for_device l key in
        Hears
          (if wanted then add_listener (listeners parts) h (some l) else h)
          key
          (cs ++ (if wanted then more else []))
          (λ channel. if wanted && contains more channel then some l else of channel)
  Hears-add_if true h key cs of l heard = Hears-add h key cs of l heard
  Hears-add_if false h key cs of l heard = record {
    device_key = heard.device_key;
    subscribed = heard.subscribed ∙ sym (append-nil cs);
    registered = heard.registered;
  }

  connected_handler-Hears :
      (b : WolkBuilder parts) (p : DataProtocol)
      → Hears (connected_handler parts b p) b.device.key (channels b p) (listener_of b p)
  unfolding connected_handler inbound_platform_message_handler lookup
  connected_handler-Hears b p =
      let key = b.device.key in
      let h = inbound_platform_message_handler (listeners parts) key in
      let none_yet : Hears (add_listener (listeners parts) h none) key [] (λ channel. none) =
        rw (add_listener_gone (listeners parts) h)
          (record { device_key = refl; subscribed = refl; registered = λ channel. refl }) in
      let with_data = Hears-add _ key _ _ (data_service p) none_yet in
      let with_files = Hears-add _ key _ _ file_download_service with_data in
      let with_firmware =
        Hears-add_if (is_some (firmware_of parts b)) _ key _ _ firmware_update_service with_files in
      let all = Hears-add_if b.keep_alive_enabled _ key _ _ keep_alive_service with_firmware in
      record {
        device_key = all.device_key;
        subscribed =
            all.subscribed
            ∙ ap
                (λ f.
                  ((parts.data_channels p key ++ parts.download_channels key)
                    ++ (if f then parts.firmware_channels key else []))
                  ++ (if b.keep_alive_enabled then parts.status_channels key else []))
                (is_some-firmware_of b);
        registered = λ channel.
            all.registered channel
            ∙ ap
                (λ f.
                  if b.keep_alive_enabled && contains (parts.status_channels key) channel
                  then some keep_alive_service
                  else if f && contains (parts.firmware_channels key) channel
                  then some firmware_update_service
                  else if contains (parts.download_channels key) channel
                  then some file_download_service
                  else if contains (parts.data_channels p key) channel
                  then some (data_service p)
                  else none)
                (is_some-firmware_of b);
      }

  -- `build` succeeds exactly when the configuration is accepted: there is a device key; a device with
  -- actuators has both of their callbacks; the configuration's handler and provider are both lambdas,
  -- both objects or both missing; the data protocol is there; and firmware update comes with file
  -- management. The library then subscribes to the channels of the data service, the file service, the
  -- firmware service if there is one and the keep-alive service if it is enabled, in this order, and
  -- each channel is registered for the last of these services that has it, and no other channel is.
  pub build-subscribes :
      (b : WolkBuilder parts)
      → (accepts b ≡ true
          × ((p : DataProtocol) × (w : Built parts) × (b.data_protocol ≡ some p)
              × (build parts b ≡ built w (record b { data_protocol = none }))
              × (get_channels (listeners parts) w.inbound_message_handler ≡ channels b p)
              × ((channel : String)
                  → lookup (listeners parts) channel w.inbound_message_handler.channel_handlers
                    ≡ listener_of b p channel)))
        ⊎ (accepts b ≡ false
            × ((w : Built parts) (b' : WolkBuilder parts) → build parts b ≢ built w b'))
  unfolding library
  build-subscribes b = elim (build-Ends b) [
    | succeeds p there accepted e ↦
        let heard = connected_handler-Hears b p in
        inl (accepted, (p, library parts b p, there, e, heard.subscribed, heard.registered))
    | fails refused never ↦ inr (refused, never)
  ]

  mixed_error :
      (b : WolkBuilder parts) (h : parts.ConfigurationHandler) (p : parts.ConfigurationProvider)
      → callback_error parts (
          set parts
            (set parts b (configuration_handler_lambda (some h)))
            (configuration_provider_object (some p)))
        ≢ none
  unfolding set callback_error
  mixed_error b h p e = ground arith

  -- A configuration handler given as a lambda and a configuration provider given as an object are both
  -- set, and yet no builder with them builds: it throws, as for a missing one.
  pub build-mixed_configuration :
      (b : WolkBuilder parts) (h : parts.ConfigurationHandler) (p : parts.ConfigurationProvider)
      → let mixed =
          set parts
            (set parts b (configuration_handler_lambda (some h)))
            (configuration_provider_object (some p)) in
        (is_set mixed.configuration_handler ≡ true)
        × (is_set mixed.configuration_provider ≡ true)
        × ((e : LogicError) × (build parts mixed ≡ logic_error e mixed))
  unfolding set outcome
  build-mixed_configuration b h p =
      let mixed =
        set parts (set parts b (configuration_handler_lambda (some h)))
          (configuration_provider_object (some p)) in
      elim (Option-cases (callback_error parts mixed)) [
        | inl e ↦ absurd (mixed_error b h p e)
        | inr (x, e) ↦ (refl, refl, (x, build_by mixed e refl refl))
      ]

  -- `build` has taken the data protocol out of the builder.
  Taken : WolkBuilder parts → WolkBuilder parts → Type 0
  Taken b b' =
      ((w : Built parts) × (build parts b ≡ built w b'))
      ⊎ (build parts b ≡ logic_error file_management_disabled b')

  callback_error-other :
      (b : WolkBuilder parts) → callback_error parts b ≢ some file_management_disabled
  unfolding callback_error
  callback_error-other b e = ground arith

  callback_error-fit : (b b' : WolkBuilder parts) → Taken b b' → callback_error parts b ≡ none
  unfolding outcome Taken
  callback_error-fit b b' t = elim (Option-cases (callback_error parts b)) [
    | inl e ↦ e
    | inr (x, e) ↦ elim t [
      | inl (w, f) ↦ absurd (cc (sym (build_by b e refl refl) ∙ f))
      | inr f ↦
          let g = sym (build_by b e refl refl) ∙ f in absurd (callback_error-other b (e ∙ (cc g)))
    ]
  ]

  -- The builder that is left.
  abbrev left : WolkBuilder parts → Outcome parts → WolkBuilder parts
  left b (built w b') = b'
  left b (logic_error e b') = b'
  left b null_dereference = b

  protocol_was_there :
      (b b' : WolkBuilder parts)
      → b.data_protocol ≡ none
      → callback_error parts b ≡ none
      → ¬ Taken b b'
  unfolding outcome Taken
  protocol_was_there b b' gone e (inl (w, f)) = cc (sym (build_by b e gone refl) ∙ f)
  protocol_was_there b b' gone e (inr f) = cc (sym (build_by b e gone refl) ∙ f)

  left-outcome :
      (b : WolkBuilder parts) (p : DataProtocol) (alone : Bool)
      → left b (outcome parts b none (some p) alone) ≡ record b { data_protocol = none }
  unfolding outcome
  left-outcome b p true = refl
  left-outcome b p false = refl

  emptied :
      (b b' : WolkBuilder parts) (p : DataProtocol)
      → b.data_protocol ≡ some p
      → callback_error parts b ≡ none
      → Taken b b'
      → record b { data_protocol = none } ≡ b'
  unfolding Taken
  emptied b b' p there e (inl (w, f)) =
      sym (left-outcome b p (firmware_alone b)) ∙ ap (left b) (sym (build_by b e there refl) ∙ f)
  emptied b b' p there e (inr f) =
      sym (left-outcome b p (firmware_alone b)) ∙ ap (left b) (sym (build_by b e there refl) ∙ f)

  build_empty :
      (b : WolkBuilder parts)
      → callback_error parts b ≡ none
      → build parts (record b { data_protocol = none }) ≡ null_dereference
  unfolding callback_error outcome
  build_empty b e = build_by (record b { data_protocol = none }) e refl refl

  -- A builder builds once: after it has built a library, or has refused firmware update without file
  -- management, its data protocol is gone, and the next `build` calls through a null pointer.
  build_again :
      (b b' : WolkBuilder parts)
      → ((w : Built parts) × (build parts b ≡ built w b'))
        ⊎ (build parts b ≡ logic_error file_management_disabled b')
      → build parts b' ≡ null_dereference
  unfolding Taken
  build_again b b' e =
      let fit = callback_error-fit b b' e in
      elim (Option-cases b.data_protocol) [
        | inl gone ↦ absurd (protocol_was_there b b' gone fit e)
        | inr (p, there) ↦ rw (← emptied b b' p there fit e) (build_empty b fit)
      ]
