-- ===== src/FileRepository/Sqlite/Tests.antt =====
-- SQLiteFileRepository over an engine that keeps its table as a list.
use wolk_connect_cpp.Base.{
  ◌≡◌, ◌≢◌, refl, inl, inr, String, Bool, true, false, ◌||◌, Option, none, some, List, [], ◌∷◌,
  arith, str_eq, str_eq_iff, str_eq_refl, is_some, if◌then◌else◌, Bool-cases, Option-cases, ap, ◌∙◌,
}
use wolk_connect_cpp.FileRepository.{FileInfo, contains}
use wolk_connect_cpp.FileRepository.Sqlite.{
  Session, get_file_info, get_all_file_names, contains_info_for_file, store,
}
use wolk_connect_cpp.FileRepository.Sqlite.Recording.{
  Works, get_file_info-store_clash, store_diverges,
}
use wolk_connect_cpp.FileRepository.Sqlite.Histories.{
  Infos, Operation, stores, removes, changed_by, AllStorable, Agrees, run, run-Agrees,
}

abbrev pub found : List FileInfo → String → Option (String × String)
found [] n = none
found (i ∷ is) n = if str_eq i.name n then some (i.hash, i.path) else found is n

abbrev pub has_path : Option (String × String) → String → Bool
has_path none path = false
has_path (some (hash, p)) path = str_eq p path

-- Some name of the second list has the path in the first.
abbrev pub taken : List FileInfo → String → List FileInfo → Bool
taken t path [] = false
taken t path (i ∷ is) = has_path (found t i.name) path || taken t path is

abbrev pub without : String → List FileInfo → List FileInfo
without n [] = []
without n (i ∷ is) = let rest = without n is in if str_eq i.name n then rest else i ∷ rest

abbrev pub names : List FileInfo → List String
names [] = []
names (i ∷ is) = i.name ∷ names is

abbrev pub sample_session : Session
sample_session = record {
  Table = List FileInfo;
  select_info = λ t n. some (found t n);
  select_names = λ t. some (names t);
  select_count = λ t n. some (if is_some (found t n) then 1 else 0);
  insert = λ t info.
      if is_some (found t info.name) || taken t info.path t then none else some (info ∷ t);
  delete_name = λ t n. some (without n t);
  delete_all = λ t. some [];
}

found-without :
    (t : List FileInfo) (n m : String)
    → found (without n t) m ≡ (if str_eq n m then none else found t m)
found-without [] n m = ground arith
found-without (i ∷ is) n m =
    ground (arith, found-without is n m, str_eq_iff i.name n, str_eq_iff i.name m, str_eq_iff n m)

not_taken :
    (t is : List FileInfo) (path : String)
    → ((m hash : String) → found t m ≢ some (hash, path))
    → taken t path is ≡ false
not_taken t [] path free = refl
not_taken t (i ∷ is) path free = elim (Option-cases (found t i.name)) [
  | inl e ↦ rw e (not_taken t is path free)
  | inr ((hash, p), e) ↦ elim (Bool-cases (str_eq p path)) [
    | inl same ↦
        absurd (free i.name hash (e ∙ ap (λ q. some (hash, q)) ((str_eq_iff p path).0 same)))
    | inr other ↦ rw (e, other) (not_taken t is path free)
  ]
]

is_taken :
    (t is : List FileInfo) (m hash path : String)
    → found t m ≡ some (hash, path)
    → is_some (found is m) ≡ true
    → taken t path is ≡ true
is_taken t [] m hash path e h = absurd (cc h)
is_taken t (i ∷ is) m hash path e h = elim (Bool-cases (str_eq i.name m)) [
  | inl same ↦ rw ((str_eq_iff i.name m).0 same, e, str_eq_refl path)
  | inr other ↦ let rest = is_taken t is m hash path e (rw other at h) in ground (arith, rest)
]

contains-names_found : (t : List FileInfo) (n : String) → contains (names t) n ≡ is_some (found t n)
unfolding contains
contains-names_found [] n = refl
contains-names_found (i ∷ is) n = ground (arith, contains-names_found is n)

pub sample-Works : Works sample_session
sample-Works = record {
  row = found;
  select_info-row = λ t n. refl;
  select_count-row = λ t n. refl;
  deleted = λ t n. without n t;
  delete_name-deleted = λ t n. refl;
  row-deleted = λ t n m. found-without t n m;
  inserted = λ t info. info ∷ t;
  insert-inserted = λ t info new free. rw (new, not_taken t t info.path free);
  insert_refused =
      λ t info m hash e. let is = is_taken t t m hash info.path e (rw e refl) in ground (arith, is);
  row-inserted = λ t info m. refl;
  emptied = λ t. [];
  delete_all-emptied = λ t. refl;
  row-emptied = λ t n. refl;
  listed = names;
  select_names-listed = λ t. refl;
  contains-listed = contains-names_found;
}

abbrev first_info : FileInfo
first_info = record { name = "a"; hash = "h1"; path = "/a" }

abbrev second_info : FileInfo
second_info = record { name = "b"; hash = "h2"; path = "/b" }

abbrev clashing_info : FileInfo
clashing_info = record { name = "a"; hash = "h3"; path = "/b" }

abbrev two_files : List FileInfo
two_files = first_info ∷ second_info ∷ []

abbrev no_infos : Infos
no_infos n = none

nothing-Agrees : Agrees sample_session [] no_infos
unfolding get_file_info contains_info_for_file get_all_file_names contains
nothing-Agrees = record { info = λ n. refl; known = λ n. refl; names = ([], refl, λ n. refl) }

abbrev history : List Operation
history = stores first_info ∷ stores second_info ∷ removes "a" ∷ []

second_free :
    (m : String) (other : FileInfo)
    → (if str_eq "a" m then some first_info else none) ≡ some other
    → other.path ≢ "/b"
second_free m other e p = elim (Bool-cases (str_eq "a" m)) [
  | inl same ↦
      let it : some first_info ≡ some other = rw same at e in
      let info : first_info ≡ other = cc it in
      let apart : true ≡ false =
        ap (λ (i : FileInfo). str_eq "/a" i.path) info ∙ ap (str_eq "/a") p in
      cc apart
  | inr different ↦
      let it : ◌≡◌ {A = Option FileInfo} none (some other) = rw different at e in absurd (cc it)
]

history-AllStorable : AllStorable no_infos history
history-AllStorable =
    ((λ m other ne e. absurd (cc e)), ((λ m other ne e p. second_free m other e p), (tt, tt)))

run-Agrees_example :
    (t' : List FileInfo) × (run sample_session 2 [] history ≡ some t')
    × Agrees sample_session t' (changed_by no_infos history)
run-Agrees_example =
    run-Agrees sample_session sample-Works 0 [] no_infos history nothing-Agrees history-AllStorable

get_file_info-store_clash_example :
    (t' : List FileInfo) × (store sample_session 2 two_files clashing_info ≡ some t')
    × (get_file_info sample_session t' "a" ≡ none)
unfolding sample-Works
get_file_info-store_clash_example =
    get_file_info-store_clash sample_session sample-Works 0 two_files clashing_info ("h1", "/a") "b"
      "h2" refl refl refl

-- An engine that reads, and refuses every change.
abbrev read_only : Session
read_only = record sample_session {
  insert = λ t info. none;
  delete_name = λ t n. none;
  delete_all = λ t. none;
}

known_in_two_files : contains_info_for_file read_only two_files "a" ≡ true
unfolding contains_info_for_file
known_in_two_files = refl

store_diverges_example : store read_only 7 two_files first_info ≡ none
store_diverges_example = store_diverges read_only two_files first_info known_in_two_files refl 7
