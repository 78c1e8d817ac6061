-- ===== src/FullFeatureSet/Main/Actuators.antt =====
-- The switch and the slider of src/examples/full_feature_set/Application.cpp, behind the library.
use wolk_connect_cpp.Base.{
  ℕ, String, true, false, none, some, [], ◌∷◌, ◌≡◌, ◌∙◌, refl, ap, sym, is_empty, str_eq,
  str_eq_refl, if◌then◌else◌, arith,
}
use wolk_connect_cpp.Sdk.Connectivity.{Message}
use wolk_connect_cpp.DataService
use wolk_connect_cpp.DataService.{ActuatorState, ActuatorStatus, ready}
use wolk_connect_cpp.DataService.Sending.{Sends, publish_actuator_statuses-Sends}
use wolk_connect_cpp.FileRepository.{contains}
use wolk_connect_cpp.DataService.Dispatch.{Commands, actuator_set_handler}
use wolk_connect_cpp.Wolk.{Platform, Wolk}
use wolk_connect_cpp.Wolk.Callbacks.{of_lambda}
use wolk_connect_cpp.Wolk.Commands.{all_handlers, data_message_received, provided_status, run}
use wolk_connect_cpp.Wolk.Commands.Actuation.{acted, data_message_received-actuates}
use wolk_connect_cpp.FullFeatureSet.Main.{
  ℤ, pos, Runtime, Variables, handle_actuation, get_actuator_status,
}

module _ (runtime : Runtime) (base : Platform) where
  -- The platform for the application that these variables are the state of.
  abbrev pub platform : Platform
  platform = record base { Application = Variables runtime }

  open platform use {net, env, protocol}
  open env use {actuator_statuses, make_status_message}

  -- The value of std::stoi, with 0 where it throws.
  abbrev pub number : String → ℤ
  number value = elim (runtime.stoi value) [ some n ↦ n | none ↦ pos 0 ]

  -- The variables after an actuation, and the status that they then have.
  abbrev pub moved : Variables runtime → String → String → Variables runtime
  moved a reference value =
      if str_eq reference "SW"
      then record a { switch_value = str_eq value "true" }
      else if str_eq reference "SL"
      then record a { slider_value = number value }
      else a

  abbrev pub shown : Variables runtime → String → String → String
  shown a reference value =
      if str_eq reference "SW"
      then if str_eq value "true" then "true" else "false"
      else if str_eq reference "SL"
      then runtime.to_string (number value)
      else ""

  handle_actuation-moved :
      (a : Variables runtime) (reference value : String)
      → handle_actuation runtime a reference value ≡ moved a reference value
  unfolding handle_actuation
  handle_actuation-moved a reference value = ground arith

  get_actuator_status-shown :
      (a : Variables runtime) (reference value : String)
      → get_actuator_status runtime (moved a reference value) reference
        ≡ (shown a reference value, ready)
  unfolding get_actuator_status
  get_actuator_status-shown a reference value = ground arith

  -- Idle, with the variables and the status of an actuator stored and published.
  abbrev reported :
      Wolk platform → String → Variables runtime → String × ActuatorState → Wolk platform
  reported w reference a status = record w {
    commands = [];
    application = a;
    world = DataService.publish_actuator_statuses net env w.device_key (record w.world {
      store =
          DataService.add_actuator_status net env w.device_key w.world.store reference status.0
            status.1;
    });
  }

  acted_lem :
      (w : Wolk platform) (reference value : String)
      → w.actuation_handler ≡ of_lambda (some (handle_actuation runtime))
      → acted platform w reference value ≡ moved w.application reference value
  acted_lem w reference value h =
      ground (arith, handle_actuation-moved w.application reference value)

  provided_status_lem :
      (w : Wolk platform) (reference value : String)
      → w.actuator_status_provider ≡ of_lambda (some (get_actuator_status runtime))
      → provided_status platform
          (record w { commands = []; application = moved w.application reference value })
          reference
        ≡ (shown w.application reference value, ready)
  provided_status_lem w reference value p =
      ground (arith, get_actuator_status-shown w.application reference value)

  -- The status that an actuation shows: SW has the truth of the value, SL its number, or 0 where it has
  -- none, any other reference an empty text.
  abbrev pub status_shown : Variables runtime → String → String → ActuatorStatus
  status_shown a reference value = record {
    value = shown a reference value;
    reference = reference;
    state = ready;
  }

  report :
      (w : Wolk platform) (reference value : String) (m : Message)
      → ((n : net.Network) (m : Message) → (net.publish n m).0 ≡ true)
      → contains
          (actuator_statuses.keys (
            DataService.add_actuator_status net env w.device_key w.world.store reference value
              ready))
          reference
        ≡ true
      → make_status_message w.device_key
          (record { value = value; reference = reference; state = ready } ∷ [])
        ≡ some m
      → Sends m
          (net.sent w.world.network)
          (net.sent (reported w reference w.application (value, ready)).world.network)
  unfolding DataService.add_actuator_status
  report w reference value m accepts listed makes =
      let status : ActuatorStatus = record {
        value = value;
        reference = reference;
        state = ready;
      } in
      let store = actuator_statuses.put w.world.store reference status in
      publish_actuator_statuses-Sends net env w.device_key accepts
        (record w.world { store = store }) reference status m listed
        (actuator_statuses.get-put w.world.store reference reference status
          ∙ rw (str_eq_refl reference) refl)
        makes

  -- A message that sets an actuator of this device, which has a key, while no command waits and the
  -- handlers are this application's, changes the application as its handler does and sends, over a
  -- connection that accepts every message, the message that the protocol makes of what was set, when the
  -- persistence lists the actuator once its status is stored: SW with the truth of the value, SL with
  -- its number, or 0 where it has none, any other reference with an empty text. No command is left.
  pub data_message_received-shows :
      (fuel : ℕ) (w : Wolk platform) (m status : Message) (reference value : String)
      → w.commands ≡ []
      → w.actuation_handler ≡ of_lambda (some (handle_actuation runtime))
      → w.actuator_status_provider ≡ of_lambda (some (get_actuator_status runtime))
      → protocol.extract_device_key_from_channel m.channel ≡ w.device_key
      → is_empty w.device_key ≡ false
      → Commands protocol
          (all_handlers platform)
          w.device_key
          m
          (actuator_set_handler reference value)
      → ((n : net.Network) (m : Message) → (net.publish n m).0 ≡ true)
      → contains
          (actuator_statuses.keys (
            DataService.add_actuator_status net env w.device_key w.world.store reference
              (shown w.application reference value)
              ready))
          reference
        ≡ true
      → make_status_message w.device_key (status_shown w.application reference value ∷ [])
        ≡ some status
      → (w' : Wolk platform) × (run platform fuel 2 (data_message_received platform w m) ≡ some w')
        × (w'.commands ≡ [])
        × (w'.application ≡ handle_actuation runtime w.application reference value)
        × Sends status (net.sent w.world.network) (net.sent w'.world.network)
  data_message_received-shows fuel w m status reference value e h p key present command accepts
        listed makes =
      let text = shown w.application reference value in
      let after = moved w.application reference value in
      (
        reported w reference after (text, ready),
        data_message_received-actuates platform fuel w m reference value e key present command
            ∙ ap
                (λ a. some (
                  reported w reference a (
                    provided_status platform (record w { commands = []; application = a })
                      reference)))
                (acted_lem w reference value h)
            ∙ ap (λ status. some (reported w reference after status))
                (provided_status_lem w reference value p),
        refl,
        sym (handle_actuation-moved w.application reference value),
        report w reference text status accepts listed makes,
      )
