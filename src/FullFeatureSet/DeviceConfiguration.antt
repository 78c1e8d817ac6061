-- ===== src/FullFeatureSet/DeviceConfiguration.antt =====
-- The class DeviceConfiguration of src/examples/full_feature_set/Application.cpp: the configuration of
-- the device, in memory and in a file.
pub mod Files
pub mod Entries
pub mod Restarts
pub mod Tests
use wolk_connect_cpp.Base.{
  String, Bool, true, false, Option, none, some, List, [], ◌∷◌, ◌≡◌, map, lookup, emplace, replace,
  is_nil, if◌then◌else◌,
}
use wolk_connect_cpp.FirmwareUpdateService.{TextFiles}
use wolk_connect_cpp.FullFeatureSet.{
  ConfigurationItem, Json, config_json_path, write_file, read_file,
}

abbrev pub hb : ConfigurationItem
hb = record { values = "10" ∷ []; reference = "HB" }

abbrev pub ef : ConfigurationItem
ef = record { values = "P,T,H,ACL" ∷ []; reference = "EF" }

abbrev pub ll : ConfigurationItem
ll = record { values = "INFO" ∷ []; reference = "LL" }

-- The loop of the constructor over what the file holds.
pub emplace_items :
    List (String × ConfigurationItem) → List ConfigurationItem → List (String × ConfigurationItem)
emplace_items m [] = m
emplace_items m (config ∷ configuration) =
    emplace_items (emplace config.reference config m) configuration

-- The loop of handleConfiguration.
pub put_items :
    List (String × ConfigurationItem) → List ConfigurationItem → List (String × ConfigurationItem)
put_items m [] = m
put_items m (config ∷ configuration) =
    put_items
      (elim (lookup config.reference m) [
        | some found ↦ replace config.reference config m
        | none ↦ emplace config.reference config m
      ])
      configuration

-- The second components, in the order of the keys.
abbrev pub values_of : List (String × ConfigurationItem) → List ConfigurationItem
values_of [] = []
values_of ((key, config) ∷ m) = config ∷ values_of m

module _ (json : Json) (files : TextFiles) where
  -- The object, with the disk.
  pub record DeviceConfiguration : Type 0 where
    pub configuration : List (String × ConfigurationItem)
    pub disk : files.Disk

  abbrev pub defaults : List (String × ConfigurationItem)
  defaults = emplace "LL" ll (emplace "EF" ef (emplace "HB" hb []))

  -- The constructor.
  pub device_configuration : files.Disk → Option DeviceConfiguration
  unfolding emplace_items emplace
  device_configuration disk = elim (read_file json files disk config_json_path) [
    | none ↦ none
    | some value ↦
        if is_nil value
        then elim (write_file json files disk config_json_path (hb ∷ ef ∷ ll ∷ [])) [
          | none ↦ none
          | some disk' ↦ some (record { configuration = defaults; disk = disk' })
        ]
        else some (record { configuration = emplace_items [] value; disk = disk })
  ]

  unfoldable pub get_configuration : DeviceConfiguration → List ConfigurationItem
  get_configuration d = values_of d.configuration

  pub handle_configuration :
      DeviceConfiguration → List ConfigurationItem → Option DeviceConfiguration
  unfolding put_items
  handle_configuration d items =
      let m = put_items d.configuration items in
      elim (write_file json files d.disk config_json_path (values_of m)) [
        | none ↦ none
        | some disk' ↦ some (record { configuration = m; disk = disk' })
      ]
