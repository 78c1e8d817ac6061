-- ===== src/Wolk/Commands/Readings.antt =====
-- The sensor readings that the application adds through src/Wolk.cpp, as a log for each reference.
use wolk_connect_cpp.Base.{
  ℕ, String, false, some, List, [], ◌∷◌, ◌++◌, ◌≡◌, ◌∙◌, refl, ap, sym, is_nil, length, str_eq,
  if◌then◌else◌, ◌==◌, arith, inl, inr, Bool-cases,
}
use mathlib.Core.List.{append_assoc, append-nil}
use wolk_connect_cpp.DataService
use wolk_connect_cpp.DataService.{SensorReading}
use wolk_connect_cpp.Wolk.{
  Platform, Wolk, Command, add_sensor_reading_command, add_sensor_reading, current_rtc, rtc_or_now,
}
use wolk_connect_cpp.Wolk.Commands.{with_store, execute, next_command, run}

-- The arguments of a call of addSensorReading.
pub record Reading : Type 0 where
  pub reference : String
  pub values : List String
  pub rtc : ℕ

module _ (platform : Platform) where
  open platform use {net, env}
  open env use {Store, sensor_readings}

  unfoldable pub add_readings : Wolk platform → List Reading → Wolk platform
  add_readings w [] = w
  add_readings w (r ∷ rs) =
      add_readings (add_sensor_reading platform w r.reference r.values r.rtc) rs

  -- What the calls log under a reference, when the clock says `now`.
  abbrev pub logged : ℕ → List Reading → String → List SensorReading
  logged now [] key = []
  logged now (r ∷ rs) key =
      let rest = logged now rs key in
      if is_nil r.values
      then rest
      else if str_eq r.reference key
      then record {
        values = r.values;
        reference = r.reference;
        rtc = if r.rtc == 0 then now else r.rtc;
      }
        ∷ rest
      else rest

  -- The commands of the calls.
  abbrev commands_of : ℕ → List Reading → List (Command platform)
  commands_of now [] = []
  commands_of now (r ∷ rs) =
      let rest = commands_of now rs in
      if is_nil r.values
      then rest
      else add_sensor_reading_command r.reference r.values (if r.rtc == 0 then now else r.rtc)
        ∷ rest

  add_readings_lem :
      (w : Wolk platform) (rs : List Reading)
      → add_readings w rs
        ≡ record w { commands = w.commands ++ commands_of (current_rtc platform w) rs }
  unfolding add_readings add_sensor_reading
  add_readings_lem w [] = ap (λ cs. record w { commands = cs }) (sym (append-nil w.commands))
  add_readings_lem w (r ∷ rs) = elim (Bool-cases (is_nil r.values)) [
    | inl nothing ↦ rw (nothing, add_readings, add_sensor_reading) (add_readings_lem w rs)
    | inr something ↦
        let c = add_sensor_reading_command r.reference r.values (rtc_or_now platform w r.rtc) in
        rw (something, add_readings, add_sensor_reading)
          (add_readings_lem (record w { commands = w.commands ++ c ∷ [] }) rs
            ∙ ap (λ cs. record w { commands = cs })
                (append_assoc w.commands (c ∷ []) (commands_of (current_rtc platform w) rs)))
  ]

  -- What running the commands of the calls leaves.
  pub record Stored (w w' : Wolk platform) (log : String → List SensorReading) : Type 0 where
    pub commands : w'.commands ≡ []
    pub items :
        (key : String)
        → sensor_readings.items w'.world.store key
          ≡ sensor_readings.items w.world.store key ++ log key

  abbrev reading : Reading → ℕ → SensorReading
  reading r rtc = record { values = r.values; reference = r.reference; rtc = rtc }

  logged_something :
      (now : ℕ) (r : Reading) (rs : List Reading) (key : String)
      → is_nil r.values ≡ false
      → logged now (r ∷ rs) key ≡ (
          if str_eq r.reference key
          then reading r (if r.rtc == 0 then now else r.rtc) ∷ logged now rs key
          else logged now rs key)
  logged_something now r rs key e = rw e refl

  logged_first :
      (s : Store) (r : Reading) (rtc : ℕ) (key : String) (rest : List SensorReading)
      → sensor_readings.items (sensor_readings.put s r.reference (reading r rtc)) key ++ rest
        ≡ sensor_readings.items s key
          ++ (if str_eq r.reference key then reading r rtc ∷ rest else rest)
  logged_first s r rtc key rest = elim (Bool-cases (str_eq r.reference key)) [
    | inl same ↦
        rw (sensor_readings.items-put s r.reference key (reading r rtc), same)
          (append_assoc (sensor_readings.items s key) (reading r rtc ∷ []) rest)
    | inr other ↦ rw (sensor_readings.items-put s r.reference key (reading r rtc), other) refl
  ]

  run_commands :
      (fuel now : ℕ) (w : Wolk platform) (rs : List Reading)
      → (w' : Wolk platform) × (run platform fuel
            (length (commands_of now rs))
            (record w { commands = commands_of now rs })
          ≡ some w')
        × Stored w w' (logged now rs)
  unfolding run next_command execute DataService.add_sensor_reading
  run_commands fuel now w [] = (
    record w { commands = [] },
    refl,
    record {
      commands = refl;
      items = λ key. sym (append-nil (sensor_readings.items w.world.store key));
    },
  )
  run_commands fuel now w (r ∷ rs) = elim (Bool-cases (is_nil r.values)) [
    | inl nothing ↦
        let (w', runs, stored) = run_commands fuel now w rs in
        (
          w',
          rw nothing runs,
          record { commands = stored.commands; items = λ key. ground (arith, stored.items key) },
        )
    | inr something ↦
        let rtc : ℕ = if r.rtc == 0 then now else r.rtc in
        let (w', runs, stored) =
          run_commands fuel now
            (with_store platform w (
              DataService.add_sensor_reading net env w.device_key w.world.store r.reference r.values
                rtc))
            rs in
        (
          w',
          rw something runs,
          record {
            commands = stored.commands;
            items = λ key.
                stored.items key
                ∙ logged_first w.world.store r rtc key (logged now rs key)
                ∙ ap (λ log. sensor_readings.items w.world.store key ++ log)
                    (sym (logged_something now r rs key something));
          },
        )
  ]

  -- Calls of addSensorReading while no command waits, and then as many commands as they push, append to
  -- the persistence under each reference the readings of that reference that have values, in the order
  -- of the calls, each with its timestamp, or, where that is 0, with the milliseconds of the device's own
  -- clock at the calls, which stands still meanwhile.
  pub add_readings-Stored :
      (fuel : ℕ) (w : Wolk platform) (rs : List Reading)
      → w.commands ≡ []
      → (w' : Wolk platform) × (run platform fuel
            (length (add_readings w rs).commands)
            (add_readings w rs)
          ≡ some w')
        × Stored w w' (logged (current_rtc platform w) rs)
  add_readings-Stored fuel w rs e =
      let now = current_rtc platform w in
      let same : add_readings w rs ≡ record w { commands = commands_of now rs } =
        add_readings_lem w rs ∙ ap (λ cs. record w { commands = cs ++ commands_of now rs }) e in
      rw same (run_commands fuel now w rs)
