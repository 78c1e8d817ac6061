-- ===== src/FullFeatureSet/Samples.antt =====
-- A small JSON library: it writes the configuration items of the tests as one letter each, refuses all
-- other values, and reads what it has written.
use Prim.Native.Nat.{ℕ}
use Prim.Native.Char.{Char, code}
use Prim.Native.String.append
use package.text.Mathlib.TextLemmas.{append_assoc}
use Prim.Native.String.{String, [] as end, ◌∷◌ as letter, ◌++◌ as append}
use wolk_connect_cpp.Base.{
  false, ◌&&◌, Option, none, some, List, [], ◌∷◌, ◌≡◌, ◌∙◌, refl, sym, ap, map, ◌==◌, str_eq,
  lookup, if◌then◌else◌, arith, str_eq_iff,
}
use wolk_connect_cpp.FullFeatureSet.{Json, joined}

mutual
  pub data Value : Type 0 where
    text : String → Value
    texts : List String → Value
    object : Fields → Value
    array : Values → Value

  pub data Fields : Type 0 where
    no_fields : Fields
    field : String → Value → Fields → Fields

  pub data Values : Type 0 where
    no_values : Values
    value : Value → Values → Values

unfoldable pub of_fields : List (String × Value) → Fields
of_fields [] = no_fields
of_fields ((k, v) ∷ fields) = field k v (of_fields fields)

unfoldable pub of_values : List Value → Values
of_values [] = no_values
of_values (v ∷ vs) = value v (of_values vs)

unfoldable pub to_values : Values → List Value
to_values no_values = []
to_values (value v vs) = v ∷ to_values vs

pub to_values-of_values : (vs : List Value) → to_values (of_values vs) ≡ vs
unfolding of_values to_values
to_values-of_values [] = refl
to_values-of_values (v ∷ vs) = ap (λ rest. v ∷ rest) (to_values-of_values vs)

unfoldable pub field_of : Fields → String → Option Value
field_of no_fields key = none
field_of (field k v fields) key =
    let later = field_of fields key in if str_eq k key then some v else later

pub field_of-of_fields :
    (fields : List (String × Value)) (key : String)
    → field_of (of_fields fields) key ≡ lookup key fields
unfolding field_of of_fields lookup
field_of-of_fields [] key = refl
field_of-of_fields ((k, v) ∷ fields) key = ground (arith, field_of-of_fields fields key)

-- The letter of an item.
unfoldable pub letter_of : String → String → Option String
letter_of reference v =
    if str_eq reference "HB" && str_eq v "10"
    then some "h"
    else if str_eq reference "HB" && str_eq v "soon"
    then some "s"
    else if str_eq reference "EF" && str_eq v "P,T,H,ACL"
    then some "e"
    else if str_eq reference "LL" && str_eq v "INFO"
    then some "l"
    else none

unfoldable pub item_value : String → String → Value
item_value reference v =
    object (field "reference" (text reference) (field "values" (texts (v ∷ [])) no_fields))

unfoldable pub dump : Value → Option String
unfolding letter_of
dump (object (field a (text r) (field b (texts (v ∷ [])) no_fields))) =
    if str_eq a "reference" && str_eq b "values" then letter_of r v else none
dump _ = none

unfoldable pub value_of : ℕ → Option Value
unfolding item_value
value_of n =
    if n == 104
    then some (item_value "HB" "10")
    else if n == 115
    then some (item_value "HB" "soon")
    else if n == 101
    then some (item_value "EF" "P,T,H,ACL")
    else if n == 108
    then some (item_value "LL" "INFO")
    else none

-- The values up to the closing bracket.
unfoldable pub scan : String → Option (List Value)
unfolding value_of
scan end = none
scan (letter c s) =
    let rest = scan s in
    if code c == 93 then some [] else if code c == 44 then rest else elim (value_of (code c)) [
      | none ↦ none
      | some v ↦ elim rest [ none ↦ none | some vs ↦ some (v ∷ vs) ]
    ]

unfoldable pub parse : String → Option Value
unfolding scan
parse end = none
parse (letter c s) =
    if code c == 91
    then elim (scan s) [ none ↦ none | some vs ↦ some (array (of_values vs)) ]
    else none

letter-append : (c : Char) (rest : String) → append (letter c end) rest ≡ letter c rest
letter-append c rest = append.cons c end rest ∙ ap (λ s. letter c s) (append.nil rest)

scan_item :
    (c : Char) (rest : String) (v : Value) (vs : List Value)
    → (code c == 93) ≡ false
    → (code c == 44) ≡ false
    → value_of (code c) ≡ some v
    → scan rest ≡ some vs
    → scan (append (letter c end) rest) ≡ some (v ∷ vs)
unfolding scan
scan_item c rest v vs a b e h = ap scan (letter-append c rest) ∙ ground arith

IsItem : Value → String → Type 0
IsItem v t = (r : String) × ((x : String) × ((v ≡ item_value r x) × (letter_of r x ≡ some t)))

dump-IsItem : (v : Value) (t : String) → dump v ≡ some t → IsItem v t
unfolding dump IsItem item_value
dump-IsItem (text x) t h = ground arith
dump-IsItem (texts xs) t h = ground arith
dump-IsItem (array vs) t h = ground arith
dump-IsItem (object no_fields) t h = ground arith
dump-IsItem (object (field a (texts xs) fs)) t h = ground arith
dump-IsItem (object (field a (object xs) fs)) t h = ground arith
dump-IsItem (object (field a (array xs) fs)) t h = ground arith
dump-IsItem (object (field a (text r) no_fields)) t h = ground arith
dump-IsItem (object (field a (text r) (field b (text x) fs))) t h = ground arith
dump-IsItem (object (field a (text r) (field b (object x) fs))) t h = ground arith
dump-IsItem (object (field a (text r) (field b (array x) fs))) t h = ground arith
dump-IsItem (object (field a (text r) (field b (texts []) fs))) t h = ground arith
dump-IsItem (object (field a (text r) (field b (texts (x ∷ y ∷ xs)) fs))) t h = ground arith
dump-IsItem (object (field a (text r) (field b (texts (x ∷ [])) (field c v fs)))) t h = ground arith
dump-IsItem (object (field a (text r) (field b (texts (x ∷ [])) no_fields))) t h =
    (r, (x, (ground (arith, str_eq_iff a "reference", str_eq_iff b "values"), ground arith)))

letter_of-scan :
    (r x t rest : String) (vs : List Value)
    → letter_of r x ≡ some t
    → scan rest ≡ some vs
    → scan (append t rest) ≡ some (item_value r x ∷ vs)
unfolding letter_of value_of
letter_of-scan r x t rest vs h s = ground (
  arith,
  scan_item "h" rest (item_value "HB" "10") vs refl refl refl s,
  scan_item "s" rest (item_value "HB" "soon") vs refl refl refl s,
  scan_item "e" rest (item_value "EF" "P,T,H,ACL") vs refl refl refl s,
  scan_item "l" rest (item_value "LL" "INFO") vs refl refl refl s,
  str_eq_iff r "HB",
  str_eq_iff r "EF",
  str_eq_iff r "LL",
  str_eq_iff x "10",
  str_eq_iff x "soon",
  str_eq_iff x "INFO",
  str_eq_iff x "P,T,H,ACL",
)

scan_comma :
    (rest : String) (vs : List Value) → scan rest ≡ some vs → scan (append "," rest) ≡ some vs
unfolding scan
scan_comma rest vs h = ap scan (letter-append "," rest) ∙ h

dump-scan :
    (v : Value) (t rest : String) (vs : List Value)
    → dump v ≡ some t
    → scan rest ≡ some vs
    → scan (append t rest) ≡ some (v ∷ vs)
unfolding IsItem
dump-scan v t rest vs d s =
    let (r, (x, (e, l))) = dump-IsItem v t d in
    letter_of-scan r x t rest vs l s ∙ ap (λ w. some (w ∷ vs)) (sym e)

scan-joined :
    (vs : List Value) (ts : List String)
    → map dump vs ≡ map some ts
    → scan (append (joined ts) "]") ≡ some vs
unfolding scan
scan-joined [] [] h = refl
scan-joined [] (t ∷ ts) h = ground arith
scan-joined (v ∷ vs) [] h = ground arith
scan-joined (v ∷ w ∷ vs) (t ∷ []) h = ground arith
scan-joined (v ∷ []) (t ∷ []) h = dump-scan v t "]" [] (ground arith) refl
scan-joined (v ∷ vs) (t ∷ u ∷ ts) h =
    ap scan (
      append_assoc t (append "," (joined (u ∷ ts))) "]"
      ∙ ap (append t) (append_assoc "," (joined (u ∷ ts)) "]"))
    ∙ dump-scan v t (append "," (append (joined (u ∷ ts)) "]")) vs (ground arith)
        (scan_comma (append (joined (u ∷ ts)) "]") vs (scan-joined vs (u ∷ ts) (ground arith)))

pub parse-dump :
    (vs : List Value) (ts : List String)
    → map dump vs ≡ map some ts
    → parse (append "[" (append (joined ts) "]")) ≡ some (array (of_values vs))
unfolding parse
parse-dump vs ts h =
    ap parse (letter-append "[" (append (joined ts) "]"))
    ∙ ap (λ o. elim o [ none ↦ none | some ws ↦ some (array (of_values ws)) ]) (scan-joined vs ts h)

unfoldable pub elements : Value → List Value
unfolding to_values
elements (array vs) = to_values vs
elements _ = []

unfoldable pub at : Value → String → Option Value
unfolding field_of
at (object fields) key = field_of fields key
at _ key = none

unfoldable pub to_text : Value → Option String
to_text (text t) = some t
to_text _ = none

unfoldable pub to_texts : Value → Option (List String)
to_texts (texts ts) = some ts
to_texts _ = none

unfoldable pub sample_json : Json
unfolding elements at to_text to_texts dump parse
sample_json = record {
  Value = Value;
  of_text = text;
  of_texts = texts;
  of_object = λ fields. object (of_fields fields);
  of_array = λ vs. array (of_values vs);
  dump = dump;
  parse = parse;
  elements = elements;
  at = at;
  to_text = to_text;
  to_texts = to_texts;
  parse-dump = parse-dump;
  elements-of_array = to_values-of_values;
  at-of_object = field_of-of_fields;
  to_text-of_text = λ t. refl;
  to_texts-of_texts = λ ts. refl;
}
