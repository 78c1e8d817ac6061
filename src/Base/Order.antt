-- ===== src/Base/Order.antt =====
-- The order of `std::string`, by bytes.
use Prim.Native.Nat.{ℕ, Ordering, compare as compare_ℕ}
use Prim.Native.Char.{Char, code}
use Prim.Native.String.compare
use Prim.Native.String.{String, [], ◌∷◌, compare, then}
use mathlib.Core.Path.{subst, ◌≡◌, refl, sym, ◌∙◌, ap}
use mathlib.Core.Logic.{◌⊎◌, inl, inr}
use mathlib.Core.Bool.{Bool, true, false, true≢false}
use wolk_connect_cpp.Base.Tests.{Bool-cases, str_eq, str_eq_iff}
use native.Mathlib.Omega.{arith}
use text.Mathlib.Text.{is_le}
use text.Mathlib.TextEquality.{path_by_compare}

abbrev pub is_lt : Ordering → Bool
is_lt Ordering.lt = true
is_lt Ordering.eq = false
is_lt Ordering.gt = false

-- `operator<` of two `std::string`.
abbrev pub str_lt : String → String → Bool
str_lt a b = is_lt (compare a b)

eq_is_not-gt : Ordering.eq ≡ Ordering.gt → ⊥
eq_is_not-gt e = cc e

lt_is_not-gt : Ordering.lt ≡ Ordering.gt → ⊥
lt_is_not-gt e = cc e

gt_is_not-lt : Ordering.gt ≡ Ordering.lt → ⊥
gt_is_not-lt e = cc e

order-cases : (o : Ordering) → (o ≡ Ordering.lt) ⊎ ((o ≡ Ordering.eq) ⊎ (o ≡ Ordering.gt))
order-cases Ordering.lt = inl refl
order-cases Ordering.eq = inr (inl refl)
order-cases Ordering.gt = inr (inr refl)

numbers_refl : (m : ℕ) → compare_ℕ m m ≡ Ordering.eq
numbers_refl m = ground arith

then-lt :
    (o p : Ordering)
    → then o p ≡ Ordering.lt
    → (o ≡ Ordering.lt) ⊎ ((o ≡ Ordering.eq) × (p ≡ Ordering.lt))
then-lt Ordering.lt p h = inl refl
then-lt Ordering.eq p h = inr (refl, h)
then-lt Ordering.gt p h = ground arith

then-gt :
    (o p : Ordering)
    → then o p ≡ Ordering.gt
    → (o ≡ Ordering.gt) ⊎ ((o ≡ Ordering.eq) × (p ≡ Ordering.gt))
then-gt Ordering.lt p h = ground arith
then-gt Ordering.eq p h = inr (refl, h)
then-gt Ordering.gt p h = inl refl

first_decides :
    (c d : Char) (s t : String)
    → compare_ℕ (code c) (code d) ≡ Ordering.lt
    → compare (c ∷ s) (d ∷ t) ≡ Ordering.lt
first_decides c d s t h = compare.cons-cons c d s t ∙ ap (λ o. then o (compare s t)) h

rest_decides :
    (c d : Char) (s t : String)
    → compare_ℕ (code c) (code d) ≡ Ordering.eq
    → compare s t ≡ Ordering.lt
    → compare (c ∷ s) (d ∷ t) ≡ Ordering.lt
rest_decides c d s t h k = compare.cons-cons c d s t ∙ ap (λ o. then o (compare s t)) h ∙ k

compare_refl : (s : String) → compare s s ≡ Ordering.eq
compare_refl [] = compare.nil-nil
compare_refl (c ∷ s) =
    compare.cons-cons c c s s
    ∙ ap (λ o. then o (compare s s)) (numbers_refl (code c))
    ∙ compare_refl s

compare_flip : (s t : String) → compare s t ≡ Ordering.gt → compare t s ≡ Ordering.lt
compare_flip [] [] h = absurd (eq_is_not-gt (sym compare.nil-nil ∙ h))
compare_flip [] (d ∷ t) h = absurd (lt_is_not-gt (sym (compare.nil-cons d t) ∙ h))
compare_flip (c ∷ s) [] h = compare.nil-cons c s
compare_flip (c ∷ s) (d ∷ t) h =
    elim (then-gt (compare_ℕ (code c) (code d)) (compare s t)
      (sym (compare.cons-cons c d s t) ∙ h)) [
        | inl first ↦ first_decides d c t s (ground arith)
        | inr (same, rest) ↦ rest_decides d c t s (ground arith) (compare_flip s t rest)
      ]

compare_trans :
    (s t u : String)
    → compare s t ≡ Ordering.lt
    → compare t u ≡ Ordering.lt
    → compare s u ≡ Ordering.lt
compare_trans [] [] u h k = k
compare_trans [] (d ∷ t) [] h k = absurd (gt_is_not-lt (sym (compare.cons-nil d t) ∙ k))
compare_trans [] (d ∷ t) (e ∷ u) h k = compare.nil-cons e u
compare_trans (c ∷ s) [] u h k = absurd (gt_is_not-lt (sym (compare.cons-nil c s) ∙ h))
compare_trans (c ∷ s) (d ∷ t) [] h k = absurd (gt_is_not-lt (sym (compare.cons-nil d t) ∙ k))
compare_trans (c ∷ s) (d ∷ t) (e ∷ u) h k =
    let first =
      then-lt (compare_ℕ (code c) (code d)) (compare s t) (sym (compare.cons-cons c d s t) ∙ h) in
    let second =
      then-lt (compare_ℕ (code d) (code e)) (compare t u) (sym (compare.cons-cons d e t u) ∙ k) in
    elim first [
      | inl a ↦
          first_decides c e s u (elim second [ inl b ↦ ground arith | inr (b, y) ↦ ground arith ])
      | inr (a, x) ↦ elim second [
        | inl b ↦ first_decides c e s u (ground arith)
        | inr (b, y) ↦ rest_decides c e s u (ground arith) (compare_trans s t u x y)
      ]
    ]

is_lt→lt : (o : Ordering) → is_lt o ≡ true → o ≡ Ordering.lt
is_lt→lt Ordering.lt h = refl
is_lt→lt Ordering.eq h = ground arith
is_lt→lt Ordering.gt h = ground arith

pub str_lt_irrefl : (s : String) → str_lt s s ≡ false
str_lt_irrefl s = ap is_lt (compare_refl s)

pub str_lt_trans : (s t u : String) → str_lt s t ≡ true → str_lt t u ≡ true → str_lt s u ≡ true
str_lt_trans s t u h k =
    ap is_lt (compare_trans s t u (is_lt→lt (compare s t) h) (is_lt→lt (compare t u) k))

-- Of two strings one is less than the other or they are equal.
pub str_lt-cases : (s t : String) → (str_lt s t ≡ true) ⊎ ((s ≡ t) ⊎ (str_lt t s ≡ true))
str_lt-cases s t = elim (order-cases (compare s t)) [
  | inl lt ↦ inl (ap is_lt lt)
  | inr (inl eq) ↦ inr (inl (path_by_compare s t eq))
  | inr (inr gt) ↦ inr (inr (ap is_lt (compare_flip s t gt)))
]

pub str_lt_asym : (s t : String) → str_lt s t ≡ true → str_lt t s ≡ false
str_lt_asym s t h = elim (Bool-cases (str_lt t s)) [
  | inl back ↦ absurd (true≢false (sym (str_lt_trans s t s h back) ∙ str_lt_irrefl s))
  | inr fine ↦ fine
]

-- Less than what is not less.
pub str_lt_below : (s t u : String) → str_lt s t ≡ true → str_lt u t ≡ false → str_lt s u ≡ true
str_lt_below s t u h k = elim (str_lt-cases t u) [
  | inl lt ↦ str_lt_trans s t u h lt
  | inr (inl e) ↦ subst (λ x. str_lt s x ≡ true) e h
  | inr (inr gt) ↦ ground arith
]

pub not_less_trans : (s t u : String) → str_lt t s ≡ false → str_lt u t ≡ false → str_lt u s ≡ false
not_less_trans s t u h k = elim (Bool-cases (str_lt u s)) [
  | inl back ↦ absurd (true≢false (sym (str_lt_below u s t back h) ∙ k))
  | inr fine ↦ fine
]

-- What the comparison in std::sort says.
pub is_le-cases :
    (s t : String)
    → ((is_le (compare s t) ≡ true) × (str_lt t s ≡ false))
      ⊎ ((is_le (compare s t) ≡ false) × (str_lt t s ≡ true))
is_le-cases s t = elim (order-cases (compare s t)) [
  | inl lt ↦ inl (ap is_le lt, str_lt_asym s t (ap is_lt lt))
  | inr (inl eq) ↦
      inl (ap is_le eq, subst (λ x. str_lt x s ≡ false) (path_by_compare s t eq) (str_lt_irrefl s))
  | inr (inr gt) ↦ inr (ap is_le gt, ap is_lt (compare_flip s t gt))
]

pub apart : (x y : String) → str_lt y x ≡ false → str_eq x y ≡ false → str_lt x y ≡ true
apart x y h o = elim (str_lt-cases x y) [
  | inl lt ↦ lt
  | inr (inl e) ↦ ground (arith, str_eq_iff x y)
  | inr (inr gt) ↦ ground arith
]
