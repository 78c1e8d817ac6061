-- ===== src/FullFeatureSet/DeviceConfiguration/Restarts.antt =====
-- The configuration of src/examples/full_feature_set/Application.cpp after changes and restarts.
use mathlib.Core.Option.{some-injective}
use wolk_connect_cpp.Base.{
  String, true, false, Option, none, some, List, [], ◌∷◌, ◌++◌, ◌≡◌, ◌∙◌, refl, sym, ap, subst,
  lookup, is_nil, arith, inl, inr, Option-cases, Bool-cases,
}
use wolk_connect_cpp.FirmwareUpdateService.{TextFiles}
use wolk_connect_cpp.FullFeatureSet.{
  ConfigurationItem, Json, config_json_path, write_file, read_file,
}
use wolk_connect_cpp.FullFeatureSet.DeviceConfiguration.{
  hb, ef, ll, emplace_items, put_items, values_of, DeviceConfiguration, defaults,
  device_configuration, handle_configuration,
}
use wolk_connect_cpp.FullFeatureSet.DeviceConfiguration.Files.{read_file-write_file}
use wolk_connect_cpp.FullFeatureSet.DeviceConfiguration.Entries.{
  IsKeyed, IsSound, last_of, lookup-put_items, put_items-IsSound, emplace_items-IsSound,
  emplace_items-values_of, values_of-is_nil, put_items-is_nil, loaded-is_nil,
}

module _ (json : Json) (files : TextFiles) where
  -- The changes that the platform sends, one after the other.
  unfoldable pub run_changes :
      DeviceConfiguration json files
      → List (List ConfigurationItem)
      → Option (DeviceConfiguration json files)
  run_changes d [] = some d
  run_changes d (items ∷ changes) = elim (handle_configuration json files d items) [
    | none ↦ none
    | some d' ↦ run_changes d' changes
  ]

  abbrev of_parts :
      List (String × ConfigurationItem) → files.Disk → Option (DeviceConfiguration json files)
  of_parts m disk = some (record { configuration = m; disk = disk })

  pub handle_configuration-lookup :
      (d d' : DeviceConfiguration json files) (items : List ConfigurationItem) (key : String)
      (c : ConfigurationItem)
      → handle_configuration json files d items ≡ some d'
      → last_of key items ≡ some c
      → lookup key d'.configuration ≡ some c
  unfolding handle_configuration
  handle_configuration-lookup d d' items key c h l =
      ground (arith, lookup-put_items d.configuration items key)

  run_one :
      (d : DeviceConfiguration json files) (items : List ConfigurationItem)
      → run_changes d (items ∷ []) ≡ handle_configuration json files d items
  unfolding run_changes
  run_one d items = ground arith

  pub run_changes-append :
      (d d' : DeviceConfiguration json files) (changes : List (List ConfigurationItem))
      (items : List ConfigurationItem)
      → run_changes d changes ≡ some d'
      → run_changes d (changes ++ items ∷ []) ≡ handle_configuration json files d' items
  unfolding run_changes
  run_changes-append d d' [] items h =
      ap (λ x. run_changes x (items ∷ [])) (some-injective _ _ h) ∙ run_one d' items
  run_changes-append d d' (first ∷ changes) items h =
      elim (Option-cases (handle_configuration json files d first)) [
        | inl failed ↦ ground arith
        | inr (next, e) ↦
            ap (λ o. elim o [ none ↦ none | some x ↦ run_changes x (changes ++ items ∷ []) ]) e
            ∙ run_changes-append next d' changes items (ground arith)
      ]

  -- The file holds what the map is made of.
  IsSaved : DeviceConfiguration json files → Type 0
  IsSaved d =
      (value : List ConfigurationItem) × ((read_file json files d.disk config_json_path
          ≡ some value)
        × ((is_nil value ≡ false) × (emplace_items [] value ≡ d.configuration)))

  IsSaved-restart :
      (d : DeviceConfiguration json files)
      → IsSaved d
      → device_configuration json files d.disk ≡ some d
  unfolding IsSaved device_configuration
  IsSaved-restart d (value, (r, (n, e))) =
      rw (r, device_configuration, n) (ap (λ m. of_parts m d.disk) e)

  -- What holds after the start and after each change.
  IsKept : DeviceConfiguration json files → Type 0
  IsKept d = IsSaved d × (IsSound d.configuration × (is_nil d.configuration ≡ false))

  module _
      (writes : (d : files.Disk) (p text : String)
        → (files.create_file_with_content d p text).0 ≡ true) where
    loaded-IsKept :
        (disk : files.Disk) (value : List ConfigurationItem)
        → read_file json files disk config_json_path ≡ some value
        → is_nil value ≡ false
        → IsKept (record { configuration = emplace_items [] value; disk = disk })
    unfolding IsKept IsSaved IsSound
    loaded-IsKept disk value r n =
        ((value, (r, (n, refl))), (emplace_items-IsSound [] value (tt, tt), loaded-is_nil value n))

    written-IsKept :
        (disk disk' : files.Disk) (value : List ConfigurationItem)
        (m : List (String × ConfigurationItem))
        → write_file json files disk config_json_path value ≡ some disk'
        → is_nil value ≡ false
        → emplace_items [] value ≡ m
        → IsKept (record { configuration = m; disk = disk' })
    unfolding IsKept IsSaved IsSound
    written-IsKept disk disk' value m w n e = (
      (value, (read_file-write_file json files disk disk' config_json_path value writes w, (n, e))),
      (
        subst IsSound e (emplace_items-IsSound [] value (tt, tt)),
        ap is_nil (sym e) ∙ loaded-is_nil value n,
      ),
    )

    device_configuration-IsKept :
        (disk : files.Disk) (d : DeviceConfiguration json files)
        → device_configuration json files disk ≡ some d
        → IsKept d
    unfolding device_configuration emplace_items
    device_configuration-IsKept disk d h =
        elim (Option-cases (read_file json files disk config_json_path)) [
          | inl failed ↦ ground arith
          | inr (value, r) ↦ elim (Bool-cases (is_nil value)) [
            | inr n ↦
                subst IsKept (some-injective _ _ (sym (rw (r, device_configuration, n) refl) ∙ h))
                  (loaded-IsKept disk value r n)
            | inl n ↦
                elim (Option-cases
                  (write_file json files disk config_json_path (hb ∷ ef ∷ ll ∷ []))) [
                    | inl failed ↦ ground arith
                    | inr (disk', w) ↦
                        subst IsKept
                          (some-injective _ _ (sym (rw (r, device_configuration, n, w) refl) ∙ h))
                          (written-IsKept disk disk' (hb ∷ ef ∷ ll ∷ []) (defaults json files) w
                            refl refl)
                  ]
          ]
        ]

    handle_configuration-IsKept :
        (d d' : DeviceConfiguration json files) (items : List ConfigurationItem)
        → handle_configuration json files d items ≡ some d'
        → IsKept d
        → IsKept d'
    unfolding handle_configuration IsKept IsSound
    handle_configuration-IsKept d d' items h k =
        let m = put_items d.configuration items in
        let sound = put_items-IsSound d.configuration items k.1.0 in
        let full = put_items-is_nil d.configuration items k.1.1 in
        elim (Option-cases (write_file json files d.disk config_json_path (values_of m))) [
          | inl failed ↦ ground arith
          | inr (disk', w) ↦
              subst IsKept (some-injective _ _ (sym (rw (w, handle_configuration) refl) ∙ h)) (
                written-IsKept d.disk disk' (values_of m) m w (values_of-is_nil m ∙ full)
                  (emplace_items-values_of [] m sound.0 sound.1))
        ]

    run_changes-IsKept :
        (d d' : DeviceConfiguration json files) (changes : List (List ConfigurationItem))
        → run_changes d changes ≡ some d'
        → IsKept d
        → IsKept d'
    unfolding run_changes
    run_changes-IsKept d d' [] h k = subst IsKept (some-injective _ _ h) k
    run_changes-IsKept d d' (items ∷ changes) h k =
        elim (Option-cases (handle_configuration json files d items)) [
          | inl failed ↦ ground arith
          | inr (next, e) ↦
              run_changes-IsKept next d' changes (ground arith)
                (handle_configuration-IsKept d next items e k)
        ]

    -- The start with any file and changes that did not fail leave every item under its reference.
    pub run_changes-IsKeyed :
        (disk : files.Disk) (d d' : DeviceConfiguration json files)
        (changes : List (List ConfigurationItem))
        → device_configuration json files disk ≡ some d
        → run_changes d changes ≡ some d'
        → IsKeyed d'.configuration
    unfolding IsKept IsSound
    run_changes-IsKeyed disk d d' changes h e =
        (run_changes-IsKept d d' changes e (device_configuration-IsKept disk d h)).1.0.1

    -- Where writes succeed, a device that starts from any file, takes any changes of its configuration
    -- and starts again has the configuration that it had: the same items in the same order.
    pub run_changes-restart :
        (disk : files.Disk) (d d' : DeviceConfiguration json files)
        (changes : List (List ConfigurationItem))
        → device_configuration json files disk ≡ some d
        → run_changes d changes ≡ some d'
        → device_configuration json files d'.disk ≡ some d'
    unfolding IsKept
    run_changes-restart disk d d' changes h e =
        IsSaved-restart d'
          (run_changes-IsKept d d' changes e (device_configuration-IsKept disk d h)).0
