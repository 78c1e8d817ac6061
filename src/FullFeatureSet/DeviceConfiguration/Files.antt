-- ===== src/FullFeatureSet/DeviceConfiguration/Files.antt =====
-- What src/examples/full_feature_set/Application.cpp writes to a file, it reads again.
use text.Mathlib.TextLemmas.{append_assoc, append-nil}
use Prim.Native.String.{◌++◌ as append}
use wolk_connect_cpp.Base.{
  String, true, some, List, [], ◌∷◌, ◌≡◌, ◌∙◌, refl, ap, map, lookup, arith, inl, inr, Option-cases,
}
use wolk_connect_cpp.FirmwareUpdateService.{TextFiles}
use wolk_connect_cpp.FullFeatureSet.{
  ConfigurationItem, Json, joined, to_json, append_items, of_json, of_elements, write_file,
  read_file,
}

module _ (json : Json) (files : TextFiles) where
  -- The texts of the items, and what the loop of writeFile makes of them.
  Dumped : String → List ConfigurationItem → String → Type 0
  Dumped content cs out =
      (texts : List String) × ((map json.dump (map (to_json json files) cs) ≡ map some texts)
        × (out ≡ append content (joined texts)))

  joined_cons :
      (content text out : String) (values : List json.Value) (value : json.Value)
      (texts : List String)
      → map json.dump (value ∷ values) ≡ map some texts
      → out ≡ append (append (append content text) ",") (joined texts)
      → out ≡ append content (joined (text ∷ texts))
  joined_cons content text out values value [] h e = cc h
  joined_cons content text out values value (u ∷ texts) h e =
      e
      ∙ append_assoc (append content text) "," (joined (u ∷ texts))
      ∙ append_assoc content text (append "," (joined (u ∷ texts)))

  append_items-Dumped :
      (content out : String) (cs : List ConfigurationItem)
      → append_items json files content cs ≡ some out
      → Dumped content cs out
  unfolding append_items Dumped
  append_items-Dumped content out [] h = ([], (refl, ground (arith, append-nil content)))
  append_items-Dumped content out (c ∷ []) h =
      elim (Option-cases (json.dump (to_json json files c))) [
        | inl none_e ↦ ground arith
        | inr (text, e) ↦ (text ∷ [], (ap (λ o. o ∷ []) e, ground arith))
      ]
  append_items-Dumped content out (c ∷ d ∷ cs) h =
      elim (Option-cases (json.dump (to_json json files c))) [
        | inl none_e ↦ ground arith
        | inr (text, e) ↦
            let rest =
              append_items-Dumped (append (append content text) ",") out (d ∷ cs) (ground arith) in
            (
              text ∷ rest.0,
              (
                ap (λ o. o ∷ map json.dump (map (to_json json files) (d ∷ cs))) e
                    ∙ ap (λ ts. some text ∷ ts) rest.1.0,
                joined_cons content text out (map (to_json json files) cs) (to_json json files d)
                    rest.0 rest.1.0 rest.1.1,
              ),
            )
      ]

  of_json-to_json : (c : ConfigurationItem) → of_json json files (to_json json files c) ≡ some c
  unfolding of_json lookup
  of_json-to_json c =
      let fields : List (String × json.Value) =
        ("reference", json.of_text c.reference) ∷ ("values", json.of_texts c.values) ∷ [] in
      ground (
        arith,
        json.at-of_object fields "values",
        json.at-of_object fields "reference",
        json.to_text-of_text c.reference,
        json.to_texts-of_texts c.values,
      )

  of_elements-to_json :
      (cs : List ConfigurationItem) → of_elements json files (map (to_json json files) cs) ≡ some cs
  unfolding of_elements
  of_elements-to_json [] = refl
  of_elements-to_json (c ∷ cs) = rw (of_elements, of_json-to_json c, of_elements-to_json cs) refl

  -- What writeFile has written, where the write succeeded, readFile reads.
  pub read_file-write_file :
      (disk disk' : files.Disk) (path : String) (cs : List ConfigurationItem)
      → ((d : files.Disk) (p text : String) → (files.create_file_with_content d p text).0 ≡ true)
      → write_file json files disk path cs ≡ some disk'
      → read_file json files disk' path ≡ some cs
  unfolding write_file read_file Dumped
  read_file-write_file disk disk' path cs writes h =
      elim (Option-cases (append_items json files "[" cs)) [
        | inl failed ↦ ground arith
        | inr (out, e) ↦
            let dumped = append_items-Dumped "[" out cs e in
            let text = append out "]" in
            let at_end : disk' ≡ (files.create_file_with_content disk path text).1 = ground arith in
            let parsed : json.parse text ≡ some (json.of_array (map (to_json json files) cs)) =
              ap (λ t. json.parse (append t "]")) dumped.1.1
              ∙ ap json.parse (append_assoc "[" (joined dumped.0) "]")
              ∙ json.parse-dump (map (to_json json files) cs) dumped.0 dumped.1.0 in
            ap (λ d. read_file json files d path) at_end
            ∙ ground (
              arith,
              files.is_file_present-create disk path text (writes disk path text),
              files.read_file_content-create disk path text (writes disk path text),
              parsed,
              json.elements-of_array (map (to_json json files) cs),
              of_elements-to_json cs,
            )
      ]
