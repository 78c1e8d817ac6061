-- ===== src/FullFeatureSet/DeviceConfiguration/Entries.antt =====
-- The map of the configuration of src/examples/full_feature_set/Application.cpp.
use mathlib.Core.List.{append_assoc, append-nil}
use wolk_connect_cpp.Base.{
  String, true, false, Option, none, some, List, [], ◌∷◌, ◌++◌, ◌≡◌, ◌∙◌, refl, sym, ap, subst, All,
  IsAscending, keys_of, lookup, emplace, replace, lookup-replace, lookup-emplace, keys_of-replace,
  emplace-IsAscending, emplace_last, is_nil, is_some, str_eq, str_lt, if◌then◌else◌, arith, inl,
  inr, Option-cases, Bool-cases, str_eq_iff,
}
use wolk_connect_cpp.FullFeatureSet.{ConfigurationItem}
use wolk_connect_cpp.FullFeatureSet.DeviceConfiguration.{emplace_items, put_items, values_of}

-- The last item of the list with the reference.
abbrev pub last_of : String → List ConfigurationItem → Option ConfigurationItem
last_of key [] = none
last_of key (c ∷ cs) = elim (last_of key cs) [
  | some later ↦ some later
  | none ↦ if str_eq c.reference key then some c else none
]

-- Every item stands under its own reference.
abbrev pub IsKeyed : List (String × ConfigurationItem) → Type 0
IsKeyed [] = Unit
IsKeyed ((k, c) ∷ m) = (k ≡ c.reference) × IsKeyed m

put_item : List (String × ConfigurationItem) → ConfigurationItem → List (String × ConfigurationItem)
put_item m config = elim (lookup config.reference m) [
  | some found ↦ replace config.reference config m
  | none ↦ emplace config.reference config m
]

lookup-put_item :
    (m : List (String × ConfigurationItem)) (c : ConfigurationItem) (key : String)
    → lookup key (put_item m c) ≡ (if str_eq c.reference key then some c else lookup key m)
unfolding put_item
lookup-put_item m c key = elim (Option-cases (lookup c.reference m)) [
  | inl absent ↦ ground (arith, lookup-emplace c.reference key c m absent)
  | inr (old, found) ↦ ground (arith, lookup-replace c.reference key c m (ap is_some found))
]

pub lookup-put_items :
    (m : List (String × ConfigurationItem)) (cs : List ConfigurationItem) (key : String)
    → lookup key (put_items m cs)
      ≡ (elim (last_of key cs) [ some c ↦ some c | none ↦ lookup key m ])
unfolding put_items put_item
lookup-put_items m [] key = refl
lookup-put_items m (c ∷ cs) key =
    ground (arith, lookup-put_items (put_item m c) cs key, lookup-put_item m c key)

emplace-IsKeyed :
    (c : ConfigurationItem) (m : List (String × ConfigurationItem))
    → IsKeyed m
    → IsKeyed (emplace c.reference c m)
unfolding emplace
emplace-IsKeyed c [] h = (refl, tt)
emplace-IsKeyed c ((k, x) ∷ m) h = elim (Bool-cases (str_lt c.reference k)) [
  | inl lt ↦ rw lt (refl, h)
  | inr ge ↦ elim (Bool-cases (str_lt k c.reference)) [
    | inl gt ↦ rw (ge, gt) (h.0, emplace-IsKeyed c m h.1)
    | inr eq ↦ rw (ge, eq) h
  ]
]

replace-IsKeyed :
    (c : ConfigurationItem) (m : List (String × ConfigurationItem))
    → IsKeyed m
    → IsKeyed (replace c.reference c m)
unfolding replace
replace-IsKeyed c [] h = tt
replace-IsKeyed c ((k, x) ∷ m) h = elim (Bool-cases (str_eq k c.reference)) [
  | inl same ↦ rw same ((str_eq_iff k c.reference).0 same, h.1)
  | inr other ↦ rw other (h.0, replace-IsKeyed c m h.1)
]

-- The entries are in order, each under its own reference.
unfoldable pub IsSound : List (String × ConfigurationItem) → Type 0
IsSound m = IsAscending (keys_of m) × IsKeyed m

put_item-IsSound :
    (m : List (String × ConfigurationItem)) (c : ConfigurationItem)
    → IsSound m
    → IsSound (put_item m c)
unfolding put_item IsSound
put_item-IsSound m c h = elim (Option-cases (lookup c.reference m)) [
  | inl absent ↦
      rw (put_item, absent) (emplace-IsAscending c.reference c m h.0, emplace-IsKeyed c m h.1)
  | inr (old, found) ↦
      rw (put_item, found)
        (subst IsAscending (sym (keys_of-replace c.reference c m)) h.0, replace-IsKeyed c m h.1)
]

pub put_items-IsSound :
    (m : List (String × ConfigurationItem)) (cs : List ConfigurationItem)
    → IsSound m
    → IsSound (put_items m cs)
unfolding put_items put_item
put_items-IsSound m [] h = h
put_items-IsSound m (c ∷ cs) h = put_items-IsSound (put_item m c) cs (put_item-IsSound m c h)

pub emplace_items-IsSound :
    (m : List (String × ConfigurationItem)) (cs : List ConfigurationItem)
    → IsSound m
    → IsSound (emplace_items m cs)
unfolding emplace_items IsSound
emplace_items-IsSound m [] h = h
emplace_items-IsSound m (c ∷ cs) h =
    emplace_items-IsSound (emplace c.reference c m) cs
      (emplace-IsAscending c.reference c m h.0, emplace-IsKeyed c m h.1)

above_middle :
    (j k : String) (c : ConfigurationItem) (acc m : List (String × ConfigurationItem))
    → All (λ y. str_lt j y ≡ true) (keys_of (acc ++ (k, c) ∷ m))
    → str_lt j k ≡ true
above_middle j k c [] m a = a.0
above_middle j k c (x ∷ acc) m a = above_middle j k c acc m a.1

below_middle :
    (k : String) (c : ConfigurationItem) (acc m : List (String × ConfigurationItem))
    → IsAscending (keys_of (acc ++ (k, c) ∷ m))
    → All (λ j. str_lt j k ≡ true) (keys_of acc)
below_middle k c [] m a = tt
below_middle k c ((j, x) ∷ acc) m a = (above_middle j k c acc m a.0, below_middle k c acc m a.1)

-- A map is the one that its own values give.
pub emplace_items-values_of :
    (acc m : List (String × ConfigurationItem))
    → IsAscending (keys_of (acc ++ m))
    → IsKeyed m
    → emplace_items acc (values_of m) ≡ acc ++ m
unfolding emplace_items
emplace_items-values_of acc [] a h = sym (append-nil acc)
emplace_items-values_of acc ((k, c) ∷ m) a h =
    let last : emplace c.reference c acc ≡ acc ++ (k, c) ∷ [] =
      ap (λ r. emplace r c acc) (sym h.0) ∙ emplace_last k c acc (below_middle k c acc m a) in
    ap (λ x. emplace_items x (values_of m)) last
    ∙ emplace_items-values_of (acc ++ (k, c) ∷ []) m
        (subst (λ x. IsAscending (keys_of x)) (sym (append_assoc acc ((k, c) ∷ []) m)) a) h.1
    ∙ append_assoc acc ((k, c) ∷ []) m

emplace-is_nil :
    (k : String) (c : ConfigurationItem) (m : List (String × ConfigurationItem))
    → is_nil (emplace k c m) ≡ false
unfolding emplace
emplace-is_nil k c [] = refl
emplace-is_nil k c ((j, x) ∷ m) = ground arith

replace-is_nil :
    (k : String) (c : ConfigurationItem) (m : List (String × ConfigurationItem))
    → is_nil (replace k c m) ≡ is_nil m
unfolding replace
replace-is_nil k c [] = refl
replace-is_nil k c ((j, x) ∷ m) = ground arith

pub emplace_items-is_nil :
    (m : List (String × ConfigurationItem)) (cs : List ConfigurationItem)
    → is_nil m ≡ false
    → is_nil (emplace_items m cs) ≡ false
unfolding emplace_items
emplace_items-is_nil m [] h = h
emplace_items-is_nil m (c ∷ cs) h =
    emplace_items-is_nil (emplace c.reference c m) cs (emplace-is_nil c.reference c m)

pub loaded-is_nil :
    (cs : List ConfigurationItem) → is_nil cs ≡ false → is_nil (emplace_items [] cs) ≡ false
unfolding emplace_items
loaded-is_nil [] h = h
loaded-is_nil (c ∷ cs) h =
    emplace_items-is_nil (emplace c.reference c []) cs (emplace-is_nil c.reference c [])

put_item-is_nil :
    (m : List (String × ConfigurationItem)) (c : ConfigurationItem)
    → is_nil m ≡ false
    → is_nil (put_item m c) ≡ false
unfolding put_item
put_item-is_nil m c h =
    ground (arith, replace-is_nil c.reference c m, emplace-is_nil c.reference c m)

pub put_items-is_nil :
    (m : List (String × ConfigurationItem)) (cs : List ConfigurationItem)
    → is_nil m ≡ false
    → is_nil (put_items m cs) ≡ false
unfolding put_items put_item
put_items-is_nil m [] h = h
put_items-is_nil m (c ∷ cs) h = put_items-is_nil (put_item m c) cs (put_item-is_nil m c h)

pub values_of-is_nil : (m : List (String × ConfigurationItem)) → is_nil (values_of m) ≡ is_nil m
values_of-is_nil [] = refl
values_of-is_nil (x ∷ m) = refl
