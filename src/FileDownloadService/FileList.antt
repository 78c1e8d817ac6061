-- ===== src/FileDownloadService/FileList.antt =====
-- FileDownloadService::updateFileList and sendFileListUpdate: brings the repository up to date with
-- the files on the disk.
pub mod Agreement
pub mod Ordering
pub mod Recording
use Prim.Native.String.{compare}
use text.Mathlib.Text.{is_le}
use wolk_connect_cpp.Base.{
  String, Bool, true, false, ◌||◌, ◌&&◌, not, Option, none, some, List, [], ◌∷◌, ◌++◌, ByteArray,
  ◌≡◌, ◌∙◌, refl, ap, sym, inl, inr, str_eq, str_eq_iff, str_eq_refl, is_some, arith, if◌then◌else◌,
  Bool-cases, Option-cases,
}
use wolk_connect_cpp.FileRepository.{FileInfo, contains}
use wolk_connect_cpp.FileDownloadService.{Kit, Service, publish}

-- std::sort, which orders strings by their bytes.
insert_sorted : String → List String → List String
insert_sorted x [] = x ∷ []
insert_sorted x (y ∷ ys) = if is_le (compare x y) then x ∷ y ∷ ys else y ∷ insert_sorted x ys

pub sort : List String → List String
unfolding insert_sorted
sort [] = []
sort (x ∷ xs) = insert_sorted x (sort xs)

-- std::unique: of equal neighbours the first stays.
unique_from : String → List String → List String
unique_from x [] = x ∷ []
unique_from x (y ∷ ys) = if str_eq x y then unique_from x ys else x ∷ unique_from y ys

pub unique : List String → List String
unfolding unique_from
unique [] = []
unique (x ∷ xs) = unique_from x xs

-- The names of the first list that are on the disk.
present : List String → List String → List String
unfolding contains
present [] on_disk = []
present (x ∷ xs) on_disk =
    let rest = present xs on_disk in if contains on_disk x then x ∷ rest else rest

missing : List String → List String → List String
unfolding contains
missing [] on_disk = []
missing (x ∷ xs) on_disk =
    let rest = missing xs on_disk in if contains on_disk x then rest else x ∷ rest

module _ (kit : Kit) where
  open kit use {sys, repo}

  abbrev path_of : String → String
  path_of file = sys.compose_path file kit.file_download_directory

  -- Files on the disk that the repository does not know and that can be read, with their content.
  new_files : sys.Disk → List String → List String → List (String × ByteArray)
  unfolding contains
  new_files disk in_repo [] = []
  new_files disk in_repo (x ∷ xs) =
      let rest = new_files disk in_repo xs in
      if contains in_repo x
      then rest
      else elim (sys.content disk (path_of x)) [ none ↦ rest | some bytes ↦ (x, bytes) ∷ rest ]

  -- Files on the disk that the repository knows or that can be read.
  valid_on_disk : sys.Disk → List String → List String → List String
  unfolding contains
  valid_on_disk disk in_repo [] = []
  valid_on_disk disk in_repo (x ∷ xs) =
      let rest = valid_on_disk disk in_repo xs in
      if contains in_repo x || is_some (sys.content disk (path_of x)) then x ∷ rest else rest

  pub remove_files : repo.Repository → List String → repo.Repository
  remove_files r [] = r
  remove_files r (x ∷ xs) = remove_files (repo.remove r x) xs

  pub store_files : repo.Repository → List (String × ByteArray) → repo.Repository
  store_files r [] = r
  store_files r ((x, bytes) ∷ files) =
      store_files
        (repo.store r (record {
          name = x;
          hash = kit.base64_encode (sys.hash_sha256 bytes);
          path = sys.absolute_path (path_of x);
        }))
        files

  -- The update, given what getAllFileNames returned: the files to send, and the repository after.
  update_with : sys.Disk → repo.Repository → Option (List String) → List String × repo.Repository
  update_with disk r none = (sys.list_files disk kit.file_download_directory, r)
  update_with disk r (some files_in_repo) =
      let files_on_disk = sys.list_files disk kit.file_download_directory in
      (
        unique (
            sort (
              present files_in_repo files_on_disk
              ++ valid_on_disk disk files_in_repo files_on_disk)),
        store_files (remove_files r (missing files_in_repo files_on_disk))
            (new_files disk files_in_repo files_on_disk),
      )

  pub update_file_list : sys.Disk → repo.Repository → List String × repo.Repository
  unfolding update_with
  update_file_list disk r = update_with disk r (repo.get_all_file_names r)

  pub send_file_list_now : Service kit → Service kit
  send_file_list_now s =
      let (names, repository) = update_file_list s.disk s.repository in
      publish kit (record s { repository = repository })
        (kit.make_file_list_update_message kit.device_key names)

  pub send_file_list_now-active_downloads :
      (s : Service kit) → (send_file_list_now s).active_downloads ≡ s.active_downloads
  unfolding send_file_list_now
  send_file_list_now-active_downloads s = ground arith

contains-insert_sorted :
    (x y : String) (ys : List String)
    → contains (insert_sorted x ys) y ≡ (str_eq x y || contains ys y)
unfolding contains insert_sorted
contains-insert_sorted x y [] = refl
contains-insert_sorted x y (z ∷ zs) = ground (arith, contains-insert_sorted x y zs)

contains-sort : (xs : List String) (y : String) → contains (sort xs) y ≡ contains xs y
unfolding contains sort
contains-sort [] y = refl
contains-sort (x ∷ xs) y = ground (arith, contains-insert_sorted x y (sort xs), contains-sort xs y)

contains-unique_from :
    (x y : String) (xs : List String)
    → contains (unique_from x xs) y ≡ (str_eq x y || contains xs y)
unfolding contains unique_from
contains-unique_from x y [] = refl
contains-unique_from x y (z ∷ zs) = ground (
  arith,
  contains-unique_from x y zs,
  contains-unique_from z y zs,
  str_eq_iff x z,
  str_eq_iff x y,
  str_eq_iff z y,
)

contains-unique : (xs : List String) (y : String) → contains (unique xs) y ≡ contains xs y
unfolding contains unique
contains-unique [] y = refl
contains-unique (x ∷ xs) y = contains-unique_from x y xs

contains-append :
    (xs ys : List String) (y : String) → contains (xs ++ ys) y ≡ (contains xs y || contains ys y)
unfolding contains
contains-append [] ys y = refl
contains-append (x ∷ xs) ys y = ground (arith, contains-append xs ys y)

contains-present :
    (xs ds : List String) (y : String)
    → contains (present xs ds) y ≡ (contains xs y && contains ds y)
unfolding present
contains-present [] ds y = refl
contains-present (x ∷ xs) ds y = ground (arith, contains-present xs ds y, str_eq_iff x y)
