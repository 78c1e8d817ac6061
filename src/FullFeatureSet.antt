-- ===== src/FullFeatureSet.antt =====
-- src/examples/full_feature_set/Application.cpp: an application of the library, with the file in which
-- it keeps its configuration. `none` stands for an exception that nothing catches, and for an access
-- out of range.
pub mod DeviceConfiguration
pub mod Main
pub mod Samples
use Prim.Native.String.{◌++◌ as append}
use wolk_connect_cpp.Base.{
  String, Bool, true, false, Option, none, some, List, [], ◌∷◌, ◌≡◌, is_nil, map, lookup,
  if◌then◌else◌,
}
use wolk_connect_cpp.FirmwareUpdateService.{TextFiles}

-- model/ConfigurationItem.h of WolkSDK-Cpp
pub record ConfigurationItem : Type 0 where
  pub values : List String
  pub reference : String

abbrev pub joined : List String → String
joined [] = ""
joined (t ∷ []) = t
joined (t ∷ u ∷ ts) = append t (append "," (joined (u ∷ ts)))

-- utilities/json.hpp, the JSON library, as far as the application uses it.
pub record Json : Type 1 where
  pub Value : Type 0
  pub of_text : String → Value
  pub of_texts : List String → Value
  -- The initializer list of pairs.
  pub of_object : List (String × Value) → Value
  pub of_array : List Value → Value
  -- dump(), which throws where a text is not UTF-8.
  pub dump : Value → Option String
  -- parse(), which throws where the text is no JSON.
  pub parse : String → Option Value
  -- The elements that a range-based loop goes through.
  pub elements : Value → List Value
  -- The constant operator[].
  pub at : Value → String → Option Value
  -- The conversions, which throw on another kind of value.
  pub to_text : Value → Option String
  pub to_texts : Value → Option (List String)
  -- The text of an array is the texts of its elements, with commas, in brackets.
  pub parse-dump :
      (values : List Value) (texts : List String)
      → map dump values ≡ map some texts
      → parse (append "[" (append (joined texts) "]")) ≡ some (of_array values)
  pub elements-of_array : (values : List Value) → elements (of_array values) ≡ values
  pub at-of_object :
      (fields : List (String × Value)) (key : String)
      → at (of_object fields) key ≡ lookup key fields
  pub to_text-of_text : (text : String) → to_text (of_text text) ≡ some text
  pub to_texts-of_texts : (texts : List String) → to_texts (of_texts texts) ≡ some texts

abbrev pub config_json_path : String
config_json_path = "./configuration.json"

module _ (json : Json) (files : TextFiles) where
  abbrev pub to_json : ConfigurationItem → json.Value
  to_json config =
      json.of_object (
        ("reference", json.of_text config.reference) ∷ ("values", json.of_texts config.values) ∷ [])

  -- The loop of writeFile.
  append_items : String → List ConfigurationItem → Option String
  append_items content [] = some content
  append_items content (config ∷ configuration) = elim (json.dump (to_json config)) [
    | none ↦ none
    | some text ↦
        let content' = append content text in
        append_items (if is_nil configuration then content' else append content' ",") configuration
  ]

  -- What createFileWithContent answers is not looked at.
  pub write_file : files.Disk → String → List ConfigurationItem → Option files.Disk
  unfolding append_items
  write_file disk path configuration = elim (append_items "[" configuration) [
    | none ↦ none
    | some content ↦ some (files.create_file_with_content disk path (append content "]")).1
  ]

  -- The two conversions in the loop of readFile.
  of_json : json.Value → Option ConfigurationItem
  of_json value = elim (json.at value "values") [
    | none ↦ none
    | some values ↦ elim (json.at value "reference") [
      | none ↦ none
      | some reference ↦ elim (json.to_texts values) [
        | none ↦ none
        | some texts ↦ elim (json.to_text reference) [
          | none ↦ none
          | some text ↦ some (record { values = texts; reference = text })
        ]
      ]
    ]
  ]

  -- The loop of readFile.
  of_elements : List json.Value → Option (List ConfigurationItem)
  unfolding of_json
  of_elements [] = some []
  of_elements (value ∷ values) = elim (of_json value) [
    | none ↦ none
    | some config ↦ elim (of_elements values) [
      | none ↦ none
      | some configuration ↦ some (config ∷ configuration)
    ]
  ]

  pub read_file : files.Disk → String → Option (List ConfigurationItem)
  unfolding of_elements
  read_file disk path =
      if files.is_file_present disk path
      then elim (files.read_file_content disk path) [
        | none ↦ none
        | some text ↦ elim (json.parse text) [
          | none ↦ none
          | some value ↦ of_elements (json.elements value)
        ]
      ]
      else some []
