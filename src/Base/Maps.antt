-- ===== src/Base/Maps.antt =====
-- `std::map` from strings, as the list of its entries in the order of the keys.
use mathlib.Core.Path.{◌≡◌, refl, sym, ◌∙◌, ap}
use mathlib.Core.Logic.{inl, inr}
use mathlib.Core.Bool.{true, true≢false}
use mathlib.Core.Option.{Option, none, some}
use mathlib.Core.List.{List, [], ◌∷◌, ◌++◌}
use Prim.Native.String.{String}
use native.Mathlib.Omega.{arith}
use wolk_connect_cpp.Base.Tests.{str_eq, str_eq_iff, is_some, if◌then◌else◌, Bool-cases}
use wolk_connect_cpp.Base.Lists.{All}
use wolk_connect_cpp.Base.Order.{str_lt, str_lt_irrefl, str_lt_trans, str_lt-cases}

-- Each string is less than those after it.
abbrev pub IsAscending : List String → Type 0
IsAscending [] = Unit
IsAscending (x ∷ xs) = All (λ y. str_lt x y ≡ true) xs × IsAscending xs

below_trans :
    (x y : String) (ys : List String)
    → str_lt x y ≡ true
    → All (λ z. str_lt y z ≡ true) ys
    → All (λ z. str_lt x z ≡ true) ys
below_trans x y [] h a = tt
below_trans x y (z ∷ zs) h a = (str_lt_trans x y z h a.0, below_trans x y zs h a.1)

module _ {V : Type 0} where
  abbrev pub keys_of : List (String × V) → List String
  keys_of [] = []
  keys_of ((k, v) ∷ m) = k ∷ keys_of m

  unfoldable pub lookup : String → List (String × V) → Option V
  lookup key [] = none
  lookup key ((k, v) ∷ m) = if str_eq k key then some v else lookup key m

  -- map::emplace, which leaves the value of a key that is there.
  unfoldable pub emplace : String → V → List (String × V) → List (String × V)
  emplace key v [] = (key, v) ∷ []
  emplace key v ((k, x) ∷ m) =
      let later = emplace key v m in
      if str_lt key k
      then (key, v) ∷ (k, x) ∷ m
      else if str_lt k key
      then (k, x) ∷ later
      else (k, x) ∷ m

  -- The assignment through an iterator to the key.
  unfoldable pub replace : String → V → List (String × V) → List (String × V)
  replace key v [] = []
  replace key v ((k, x) ∷ m) = if str_eq k key then (k, v) ∷ m else (k, x) ∷ replace key v m

  pub keys_of-replace :
      (key : String) (v : V) (m : List (String × V)) → keys_of (replace key v m) ≡ keys_of m
  unfolding replace
  keys_of-replace key v [] = refl
  keys_of-replace key v ((k, x) ∷ m) = ground (arith, keys_of-replace key v m)

  pub lookup-replace :
      (key j : String) (v : V) (m : List (String × V))
      → is_some (lookup key m) ≡ true
      → lookup j (replace key v m) ≡ (if str_eq key j then some v else lookup j m)
  unfolding lookup replace
  lookup-replace key j v [] h = ground arith
  lookup-replace key j v ((k, x) ∷ m) h =
      ground (arith, lookup-replace key j v m, str_eq_iff k key, str_eq_iff k j, str_eq_iff key j)

  pub lookup-emplace :
      (key j : String) (v : V) (m : List (String × V))
      → lookup key m ≡ none
      → lookup j (emplace key v m) ≡ (if str_eq key j then some v else lookup j m)
  unfolding lookup emplace
  lookup-emplace key j v [] h = refl
  lookup-emplace key j v ((k, x) ∷ m) h = elim (str_lt-cases key k) [
    | inl lt ↦ ground arith
    | inr (inl e) ↦ ground (arith, str_eq_iff k key)
    | inr (inr gt) ↦
        ground (arith, lookup-emplace key j v m, str_eq_iff k key, str_eq_iff k j, str_eq_iff key j)
  ]

  below-emplace :
      (x key : String) (v : V) (m : List (String × V))
      → str_lt x key ≡ true
      → All (λ y. str_lt x y ≡ true) (keys_of m)
      → All (λ y. str_lt x y ≡ true) (keys_of (emplace key v m))
  unfolding emplace
  below-emplace x key v [] h a = (h, tt)
  below-emplace x key v ((k, y) ∷ m) h a = elim (Bool-cases (str_lt key k)) [
    | inl lt ↦ rw lt (h, a)
    | inr ge ↦ elim (Bool-cases (str_lt k key)) [
      | inl gt ↦ rw (ge, gt) (a.0, below-emplace x key v m h a.1)
      | inr eq ↦ rw (ge, eq) a
    ]
  ]

  pub emplace-IsAscending :
      (key : String) (v : V) (m : List (String × V))
      → IsAscending (keys_of m)
      → IsAscending (keys_of (emplace key v m))
  unfolding emplace
  emplace-IsAscending key v [] a = (tt, tt)
  emplace-IsAscending key v ((k, x) ∷ m) a = elim (Bool-cases (str_lt key k)) [
    | inl lt ↦ rw lt ((lt, below_trans key k (keys_of m) lt a.0), a)
    | inr ge ↦ elim (Bool-cases (str_lt k key)) [
      | inl gt ↦ rw (ge, gt) (below-emplace k key v m gt a.0, emplace-IsAscending key v m a.1)
      | inr eq ↦ rw (ge, eq) a
    ]
  ]

  -- A key that is greater than the others goes to the end.
  pub emplace_last :
      (key : String) (v : V) (m : List (String × V))
      → All (λ k. str_lt k key ≡ true) (keys_of m)
      → emplace key v m ≡ m ++ (key, v) ∷ []
  unfolding emplace
  emplace_last key v [] a = refl
  emplace_last key v ((k, x) ∷ m) a = elim (Bool-cases (str_lt key k)) [
    | inl lt ↦ absurd (true≢false (sym (str_lt_trans k key k a.0 lt) ∙ str_lt_irrefl k))
    | inr ge ↦ rw (ge, a.0) (ap (λ rest. (k, x) ∷ rest) (emplace_last key v m a.1))
  ]
