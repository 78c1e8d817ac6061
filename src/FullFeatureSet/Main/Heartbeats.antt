-- ===== src/FullFeatureSet/Main/Heartbeats.antt =====
-- What a heartbeat that is no number does to the application.
use mathlib.Core.Option.{some-injective}
use wolk_connect_cpp.Base.{
  String, true, none, some, List, [], ◌∷◌, ◌++◌, ◌≡◌, ◌∙◌, sym, ap, str_eq, str_eq_iff, lookup,
  arith, inl, inr, Option-cases, Bool-cases,
}
use wolk_connect_cpp.FirmwareUpdateService.{TextFiles}
use wolk_connect_cpp.Wolk.{Platform, Wolk}
use wolk_connect_cpp.FullFeatureSet.{ConfigurationItem, Json}
use wolk_connect_cpp.FullFeatureSet.DeviceConfiguration.{
  DeviceConfiguration, values_of, device_configuration, get_configuration, handle_configuration,
}
use wolk_connect_cpp.FullFeatureSet.DeviceConfiguration.Entries.{IsKeyed, last_of}
use wolk_connect_cpp.FullFeatureSet.DeviceConfiguration.Restarts.{
  run_changes, run_changes-append, run_changes-IsKeyed, run_changes-restart,
  handle_configuration-lookup,
}
use wolk_connect_cpp.FullFeatureSet.Main.{
  Runtime, Variables, heartbeat_of, set_heartbeat, set_level, apply_configuration, Main, initial,
  start, round,
}

module _ (runtime : Runtime) where
  step_fails :
      (a : Variables runtime) (c : ConfigurationItem) (cs : List ConfigurationItem)
      → c.reference ≡ "HB"
      → heartbeat_of runtime c ≡ none
      → apply_configuration runtime a (c ∷ cs) ≡ none
  unfolding apply_configuration set_heartbeat
  step_fails a c cs r h = ground (arith, str_eq_iff c.reference "HB")

  later_fails :
      (a : Variables runtime) (c : ConfigurationItem) (cs : List ConfigurationItem)
      → ((b : Variables runtime) → apply_configuration runtime b cs ≡ none)
      → apply_configuration runtime a (c ∷ cs) ≡ none
  unfolding apply_configuration
  later_fails a c cs h = elim (Option-cases (set_heartbeat runtime a c)) [
    | inl failed ↦ ground arith
    | inr (a1, e1) ↦ elim (Option-cases (set_level runtime a1 c)) [
      | inl failed ↦ ground arith
      | inr (a2, e2) ↦ ground (arith, h a2)
    ]
  ]

  apply_fails :
      (a : Variables runtime) (m : List (String × ConfigurationItem)) (c : ConfigurationItem)
      → IsKeyed m
      → lookup "HB" m ≡ some c
      → heartbeat_of runtime c ≡ none
      → apply_configuration runtime a (values_of m) ≡ none
  unfolding lookup
  apply_fails a [] c k u h = ground arith
  apply_fails a ((key, x) ∷ m) c k u h = elim (Bool-cases (str_eq key "HB")) [
    | inl same ↦
        step_fails a x (values_of m) (sym k.0 ∙ (str_eq_iff key "HB").0 same)
          (ap (heartbeat_of runtime) (some-injective _ _ (rw same at u)) ∙ h)
    | inr other ↦ later_fails a x (values_of m) (λ b. apply_fails b m c k.1 (rw other at u) h)
  ]

  module _ (json : Json) (files : TextFiles) where
    module _ (platform : Platform) where
      round_fails :
          (m : Main runtime platform json files) (changed : DeviceConfiguration json files)
          → apply_configuration runtime m.variables
              (get_configuration json files m.device_configuration)
            ≡ none
          → round runtime platform json files m changed ≡ none
      unfolding round
      round_fails m changed h = ground arith

      start_fails :
          (w : Wolk platform) (seed : runtime.Seed) (disk : files.Disk)
          (d : DeviceConfiguration json files)
          → device_configuration json files disk ≡ some d
          → apply_configuration runtime (initial runtime) (get_configuration json files d) ≡ none
          → start runtime platform json files w seed disk ≡ none
      unfolding start
      start_fails w seed disk d s h = ground arith

      -- Where writes succeed: once the platform has sent a heartbeat without a value, or whose value is
      -- no number, the next round ends the program by an exception or an access out of range, and so
      -- does every start from the file, which keeps the heartbeat.
      pub bad_heartbeat-IsFatal :
          ((disk : files.Disk) (path text : String)
            → (files.create_file_with_content disk path text).0 ≡ true)
          → (disk : files.Disk) (d d' d'' : DeviceConfiguration json files)
            (changes : List (List ConfigurationItem)) (items : List ConfigurationItem)
            (c : ConfigurationItem)
          → device_configuration json files disk ≡ some d
          → run_changes json files d changes ≡ some d'
          → handle_configuration json files d' items ≡ some d''
          → last_of "HB" items ≡ some c
          → heartbeat_of runtime c ≡ none
          → ((m : Main runtime platform json files) (changed : DeviceConfiguration json files)
              → round runtime platform json files (record m { device_configuration = d'' }) changed
                ≡ none)
            × ((w : Wolk platform) (seed : runtime.Seed)
                → start runtime platform json files w seed d''.disk ≡ none)
      unfolding get_configuration
      bad_heartbeat-IsFatal writes disk d d' d'' changes items c s r h l b =
          let all = run_changes-append json files d d' changes items r ∙ h in
          let fails : (a : Variables runtime)
              → apply_configuration runtime a (get_configuration json files d'') ≡ none =
            λ a.
              apply_fails a d''.configuration c
                (run_changes-IsKeyed json files writes disk d d'' (changes ++ items ∷ []) s all)
                (handle_configuration-lookup json files d' d'' items "HB" c h l) b in
          (
            λ m changed.
                round_fails (record m { device_configuration = d'' }) changed (fails m.variables),
            λ w seed.
                start_fails w seed d''.disk d''
                  (run_changes-restart json files writes disk d d'' (changes ++ items ∷ []) s all)
                  (fails (initial runtime)),
          )
