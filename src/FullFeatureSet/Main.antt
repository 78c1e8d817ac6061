-- ===== src/FullFeatureSet/Main.antt =====
-- The handlers and the loop of main in src/examples/full_feature_set/Application.cpp.
pub mod Heartbeats
pub mod Actuators
pub mod Tests
use Prim.Native.String.{◌++◌ as append}
use text.Mathlib.Text.{find?}
use wolk_connect_cpp.Base.{
  ℕ, zero, suc, ◌+◌, ◌-◌, ◌%◌, ◌^◌, ◌==◌, ltb, String, Bool, true, false, not, ◌||◌, Option, none,
  some, List, [], ◌∷◌, is_some, str_eq, if◌then◌else◌,
}
use wolk_connect_cpp.DataService.{ActuatorState, ready}
use wolk_connect_cpp.FirmwareUpdateService.{TextFiles}
use wolk_connect_cpp.Wolk.{
  Platform, Wolk, add_typed_value, add_typed_reading, add_alarm, publish, connect, disconnect,
}
use wolk_connect_cpp.FullFeatureSet.{ConfigurationItem, Json}
use wolk_connect_cpp.FullFeatureSet.DeviceConfiguration.{
  DeviceConfiguration, device_configuration, get_configuration,
}

pub data ℤ : Type 0 where
  pos negsuc : ℕ → ℤ

-- a - b
abbrev pub minus : ℕ → ℕ → ℤ
minus a b = if ltb a b then negsuc (b - a - 1) else pos (a - b)

-- ++ of an int that is not the greatest.
abbrev plus_one : ℤ → ℤ
plus_one (pos n) = pos (1 + n)
plus_one (negsuc zero) = pos 0
plus_one (negsuc (suc n)) = negsuc n

-- wolkabout::LogLevel, as far as setLogLevel names its values.
pub data LogLevel : Type 0 where
  trace_level debug_level info_level warn_level error_level : LogLevel

-- The standard library and StringUtils::toString.
pub record Runtime : Type 1 where
  -- std::transform with std::tolower
  pub to_lower : String → String
  -- std::stoi, which throws.
  pub stoi : String → Option ℤ
  pub to_string : ℤ → String
  pub Double : Type 0
  -- n * 0.1 and n * 0.001
  pub tenths : ℕ → Double
  pub thousandths : ℕ → Double
  pub is_above_90 : Double → Bool
  pub double_to_string : Double → String
  pub Seed : Type 0
  pub rand : Seed → ℕ × Seed

-- static_cast<uint16_t>
abbrev pub to_uint16 : ℤ → ℕ
to_uint16 (pos n) = n % 2 ^ 16
to_uint16 (negsuc n) = 2 ^ 16 - 1 - n % 2 ^ 16

module _ (runtime : Runtime) where
  -- The static variables of main, the level of the logger and the heartbeat.
  pub record Variables : Type 0 where
    pub switch_value : Bool
    pub slider_value : ℤ
    pub device_firmware_version : ℤ
    pub log_level : LogLevel
    pub heartbeat : ℕ

  -- The variables at the start of main.
  abbrev pub initial : Variables
  initial = record {
    switch_value = false;
    slider_value = pos 0;
    device_firmware_version = pos 1;
    log_level = info_level;
    heartbeat = 0;
  }

  -- The lambda setLogLevel.
  set_log_level : Variables → String → Variables
  set_log_level a level =
      let lower = runtime.to_lower level in
      if str_eq lower "trace"
      then record a { log_level = trace_level }
      else if str_eq lower "debug"
      then record a { log_level = debug_level }
      else if str_eq lower "info"
      then record a { log_level = info_level }
      else if str_eq lower "warn"
      then record a { log_level = warn_level }
      else if str_eq lower "error"
      then record a { log_level = error_level }
      else a

  -- The actuation handler.
  pub handle_actuation : Variables → String → String → Variables
  handle_actuation a reference value =
      if str_eq reference "SW"
      then record a { switch_value = str_eq value "true" }
      else if str_eq reference "SL"
      then elim (runtime.stoi value) [
        | some n ↦ record a { slider_value = n }
        | none ↦ record a { slider_value = pos 0 }
      ]
      else a

  -- The actuator status provider.
  pub get_actuator_status : Variables → String → String × ActuatorState
  get_actuator_status a reference =
      if str_eq reference "SW"
      then (if a.switch_value then "true" else "false", ready)
      else if str_eq reference "SL"
      then (runtime.to_string a.slider_value, ready)
      else ("", ready)

  -- FirmwareInstallerImpl; the callbacks act on the state of the one who calls install.
  install : {S : Type 0} → Variables → String → (S → S) → (S → S) → S → Variables × S
  install a firmware_file on_success on_fail s =
      (record a { device_firmware_version = plus_one a.device_firmware_version }, on_success s)

  abort : Variables → Bool × Variables
  abort a = (true, a)

  -- FirmwareVersionProviderImpl
  get_firmware_version : Variables → String
  get_firmware_version a = append (runtime.to_string a.device_firmware_version) ".0.0"

  first_value : ConfigurationItem → Option String
  first_value config = elim config.values [ [] ↦ none | v ∷ vs ↦ some v ]

  -- `none` where there is no value, or the value is no number.
  pub heartbeat_of : ConfigurationItem → Option ℕ
  unfolding first_value
  heartbeat_of config = elim (first_value config) [
    | none ↦ none
    | some v ↦ elim (runtime.stoi v) [ none ↦ none | some n ↦ some (to_uint16 n) ]
  ]

  set_heartbeat : Variables → ConfigurationItem → Option Variables
  unfolding heartbeat_of
  set_heartbeat a config =
      if str_eq config.reference "HB"
      then elim (heartbeat_of config) [ none ↦ none | some n ↦ some (record a { heartbeat = n }) ]
      else some a

  set_level : Variables → ConfigurationItem → Option Variables
  unfolding set_log_level first_value
  set_level a config =
      if str_eq config.reference "LL"
      then elim (first_value config) [ none ↦ none | some v ↦ some (set_log_level a v) ]
      else some a

  -- The loop over the configuration, which main runs at its start and in every round.
  pub apply_configuration : Variables → List ConfigurationItem → Option Variables
  unfolding set_heartbeat set_level
  apply_configuration a [] = some a
  apply_configuration a (config ∷ configuration) = elim (set_heartbeat a config) [
    | none ↦ none
    | some a' ↦ elim (set_level a' config) [
      | none ↦ none
      | some a'' ↦ apply_configuration a'' configuration
    ]
  ]

  -- std::find_if for the reference EF.
  find_ef : List ConfigurationItem → Option ConfigurationItem
  find_ef [] = none
  find_ef (config ∷ configuration) =
      let later = find_ef configuration in
      if str_eq config.reference "EF" then some config else later

  -- validConfig and configString
  filter_of : List ConfigurationItem → Bool × String
  unfolding find_ef first_value
  filter_of configuration = elim (find_ef configuration) [
    | none ↦ (false, "")
    | some config ↦ elim (first_value config) [ none ↦ (true, "") | some v ↦ (true, v) ]
  ]

  abbrev is_wanted : Bool × String → String → Bool
  is_wanted filter part = not filter.0 || is_some (find? filter.1 part)

  module _ (platform : Platform) where
    pressure : Wolk platform → runtime.Seed → Wolk platform × runtime.Seed
    pressure w seed =
        let (r, seed') = runtime.rand seed in
        (add_typed_value platform runtime.to_string w "P" (pos (r % 801 + 300)) 0, seed')

    humidity : Wolk platform → runtime.Seed → Wolk platform × runtime.Seed
    humidity w seed =
        let (r, seed') = runtime.rand seed in
        let val = runtime.tenths (r % 1000) in
        (
          add_alarm platform (add_typed_value platform runtime.double_to_string w "H" val 0) "HH"
              (runtime.is_above_90 val) 0,
          seed',
        )

    temperature : Wolk platform → runtime.Seed → Wolk platform × runtime.Seed
    temperature w seed =
        let (r, seed') = runtime.rand seed in
        (add_typed_value platform runtime.to_string w "T" (minus (r % 126) 40) 0, seed')

    abbrev axis : ℕ → runtime.Double
    axis r = runtime.thousandths (r % 100_001)

    acceleration : Wolk platform → runtime.Seed → Wolk platform × runtime.Seed
    acceleration w seed =
        let (r, seed1) = runtime.rand seed in
        let (s, seed2) = runtime.rand seed1 in
        let (t, seed3) = runtime.rand seed2 in
        (
          add_typed_reading platform runtime.double_to_string w "ACL"
              (axis r ∷ axis s ∷ axis t ∷ []) 0,
          seed3,
        )

    -- The readings of one round, and their publication.
    pub add_readings : Bool × String → Wolk platform → runtime.Seed → Wolk platform × runtime.Seed
    unfolding pressure humidity temperature acceleration
    add_readings filter w seed =
        let (w1, seed1) = if is_wanted filter "P" then pressure w seed else (w, seed) in
        let (w2, seed2) = if is_wanted filter "H" then humidity w1 seed1 else (w1, seed1) in
        let (w3, seed3) = if is_wanted filter "T" then temperature w2 seed2 else (w2, seed2) in
        let (w4, seed4) = if is_wanted filter "ACL" then acceleration w3 seed3 else (w3, seed3) in
        (publish platform w4, seed4)

    module _ (json : Json) (files : TextFiles) where
      pub record Main : Type 0 where
        pub variables : Variables
        pub device_configuration : DeviceConfiguration json files
        pub wolk : Wolk platform
        pub seed : runtime.Seed
        pub running : Bool

      -- What main does before its loop, with the library that the builder has made.
      pub start : Wolk platform → runtime.Seed → files.Disk → Option Main
      unfolding apply_configuration
      start w seed disk = elim (device_configuration json files disk) [
        | none ↦ none
        | some d ↦ elim (apply_configuration initial (get_configuration json files d)) [
          | none ↦ none
          | some a ↦ some (record {
            variables = a;
            device_configuration = d;
            wolk = connect platform w;
            seed = seed;
            running = true;
          })
        ]
      ]

      -- The lambda sigintCall, before it ends the program.
      pub sigint_call : Main → Main
      sigint_call m = record m { running = false; wolk = disconnect platform m.wolk }

      -- One round of the loop, given what the platform has changed of the configuration by the end of
      -- the pause. `none` is the end of the program by an exception.
      pub round : Main → DeviceConfiguration json files → Option Main
      unfolding apply_configuration filter_of add_readings
      round m changed =
          elim (apply_configuration m.variables
            (get_configuration json files m.device_configuration)) [
              | none ↦ none
              | some a ↦
                  let (w, seed) =
                    add_readings (filter_of (get_configuration json files changed)) m.wolk m.seed in
                  some (record m {
                    variables = a;
                    device_configuration = changed;
                    wolk = w;
                    seed = seed;
                  })
            ]
