-- ===== src/FileDownloadService/FileList/Ordering.antt =====
-- The list of files is in the order of the names, each of them once.
use Prim.Native.String.{compare}
use text.Mathlib.Text.{is_le}
use wolk_connect_cpp.Base.{
  String, true, false, List, [], ◌∷◌, ◌≡◌, All, IsAscending, str_eq, str_lt, str_lt_below,
  str_lt_asym, not_less_trans, is_le-cases, inl, inr, Bool-cases, apart,
}
use wolk_connect_cpp.FileDownloadService.FileList.{insert_sorted, sort, unique_from, unique}

-- No string is less than one before it.
abbrev IsSorted : List String → Type 0
IsSorted [] = Unit
IsSorted (x ∷ xs) = All (λ y. str_lt y x ≡ false) xs × IsSorted xs

not_below_trans :
    (x y : String) (ys : List String)
    → str_lt y x ≡ false
    → All (λ z. str_lt z y ≡ false) ys
    → All (λ z. str_lt z x ≡ false) ys
not_below_trans x y [] h a = tt
not_below_trans x y (z ∷ zs) h a = (not_less_trans x y z h a.0, not_below_trans x y zs h a.1)

not_below-insert_sorted :
    (z x : String) (ys : List String)
    → str_lt x z ≡ false
    → All (λ y. str_lt y z ≡ false) ys
    → All (λ y. str_lt y z ≡ false) (insert_sorted x ys)
unfolding insert_sorted
not_below-insert_sorted z x [] h a = (h, tt)
not_below-insert_sorted z x (y ∷ ys) h a = elim (Bool-cases (is_le (compare x y))) [
  | inl le ↦ rw le (h, a)
  | inr gt ↦ rw gt (a.0, not_below-insert_sorted z x ys h a.1)
]

insert_sorted-IsSorted :
    (x : String) (ys : List String) → IsSorted ys → IsSorted (insert_sorted x ys)
unfolding insert_sorted
insert_sorted-IsSorted x [] s = (tt, tt)
insert_sorted-IsSorted x (y ∷ ys) s = elim (is_le-cases x y) [
  | inl (le, n) ↦ rw le ((n, not_below_trans x y ys n s.0), s)
  | inr (gt, n) ↦
      rw gt
        (not_below-insert_sorted y x ys (str_lt_asym y x n) s.0, insert_sorted-IsSorted x ys s.1)
]

sort-IsSorted : (xs : List String) → IsSorted (sort xs)
unfolding sort
sort-IsSorted [] = tt
sort-IsSorted (x ∷ xs) = insert_sorted-IsSorted x (sort xs) (sort-IsSorted xs)

below-unique_from :
    (z x : String) (xs : List String)
    → str_lt z x ≡ true
    → All (λ y. str_lt z y ≡ true) xs
    → All (λ y. str_lt z y ≡ true) (unique_from x xs)
unfolding unique_from
below-unique_from z x [] h a = (h, tt)
below-unique_from z x (y ∷ ys) h a = elim (Bool-cases (str_eq x y)) [
  | inl same ↦ rw same (below-unique_from z x ys h a.1)
  | inr other ↦ rw other (h, below-unique_from z y ys a.0 a.1)
]

all_below :
    (z x : String) (xs : List String)
    → str_lt z x ≡ true
    → All (λ y. str_lt y x ≡ false) xs
    → All (λ y. str_lt z y ≡ true) xs
all_below z x [] h a = tt
all_below z x (y ∷ ys) h a = (str_lt_below z x y h a.0, all_below z x ys h a.1)

unique_from-IsAscending :
    (x : String) (xs : List String)
    → All (λ y. str_lt y x ≡ false) xs
    → IsSorted xs
    → IsAscending (unique_from x xs)
unfolding unique_from
unique_from-IsAscending x [] a s = (tt, tt)
unique_from-IsAscending x (y ∷ ys) a s = elim (Bool-cases (str_eq x y)) [
  | inl same ↦ rw same (unique_from-IsAscending x ys a.1 s.1)
  | inr other ↦
      let less : str_lt x y ≡ true = apart x y a.0 (other) in
      rw other (
        below-unique_from x y ys less (all_below x y ys less s.0),
        unique_from-IsAscending y ys s.0 s.1,
      )
]

unique-IsAscending : (xs : List String) → IsSorted xs → IsAscending (unique xs)
unfolding unique
unique-IsAscending [] s = tt
unique-IsAscending (x ∷ xs) s = unique_from-IsAscending x xs s.0 s.1

pub unique-sort-IsAscending : (xs : List String) → IsAscending (unique (sort xs))
unique-sort-IsAscending xs = unique-IsAscending (sort xs) (sort-IsSorted xs)
