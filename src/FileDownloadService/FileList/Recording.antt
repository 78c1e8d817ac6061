-- ===== src/FileDownloadService/FileList/Recording.antt =====
-- What updateFileList changes in the repository: the files that it removes and those that it stores.
use wolk_connect_cpp.Base.{
  sym, String, ◌||◌, some, List, [], ◌∷◌, ByteArray, ◌≡◌, ◌≢◌, true, false, none, ◌∙◌, refl, ap,
  sym, str_eq, str_eq_iff, str_eq_refl, is_some, arith, if◌then◌else◌,
}
use wolk_connect_cpp.FileRepository.{FileInfo, Keeps, contains}
use wolk_connect_cpp.FileDownloadService.{Kit}
use wolk_connect_cpp.FileDownloadService.FileList.{remove_files, store_files, path_of}

-- The names of files with their content.
abbrev pub names_of : List (String × ByteArray) → List String
names_of [] = []
names_of ((x, bytes) ∷ files) = x ∷ names_of files

module _ (kit : Kit) where
  open kit use {sys, repo}

  -- What the repository has of a file that the directory holds: its place.
  abbrev pub located : String → String
  located y = sys.absolute_path (path_of kit y)

  -- No two names of the directory are one file by way of links.
  abbrev pub NoLinks : sys.Disk → Type 0
  NoLinks disk =
      (x y : String)
      → contains (sys.list_files disk kit.file_download_directory) x ≡ true
      → contains (sys.list_files disk kit.file_download_directory) y ≡ true
      → str_eq x y ≡ false
      → located x ≢ located y

  -- Every info has the path of its name in the directory.
  abbrev pub IsLocated : repo.Repository → Type 0
  IsLocated r =
      (y : String) (info : FileInfo) → repo.get_file_info r y ≡ some info → info.path ≡ located y

  -- The names with an info are on the disk.
  abbrev pub IsPresent : List String → repo.Repository → Type 0
  IsPresent on_disk r =
      (y : String) (info : FileInfo)
      → repo.get_file_info r y ≡ some info
      → contains on_disk y ≡ true

  abbrev pub info_of : String → ByteArray → FileInfo
  info_of x bytes = record {
    name = x;
    hash = kit.base64_encode (sys.hash_sha256 bytes);
    path = located x;
  }

  module _ (keeps : Keeps repo) where
    pub get_file_info-remove_files :
        (r : repo.Repository) (xs : List String) (y : String)
        → repo.get_file_info (remove_files kit r xs) y
          ≡ (if contains xs y then none else repo.get_file_info r y)
    unfolding remove_files contains
    get_file_info-remove_files r [] y = refl
    get_file_info-remove_files r (x ∷ xs) y =
        ground (
          arith,
          get_file_info-remove_files (repo.remove r x) xs y,
          keeps.get_file_info-remove r x y,
        )

    pub contains-some :
        (r : repo.Repository) (y : String) (info : FileInfo)
        → repo.get_file_info r y ≡ some info
        → contains (keeps.names r) y ≡ true
    contains-some r y info e =
        keeps.contains-names r y ∙ sym (keeps.get_file_info-contains r y) ∙ ap is_some e

    module _ (disk : sys.Disk) (links : NoLinks disk) where
      abbrev on_disk : List String
      on_disk = sys.list_files disk kit.file_download_directory

      -- What storing files of the disk leaves.
      pub record Recorded (r r' : repo.Repository) (stored : List (String × ByteArray))
          : Type 0 where
        pub places : IsLocated r'
        pub known :
            (y : String)
            → repo.contains_info_for_file r' y
              ≡ (repo.contains_info_for_file r y || contains (names_of stored) y)

      get_file_info-stored :
          (r : repo.Repository) (x : String) (bytes : ByteArray)
          → IsLocated r
          → IsPresent on_disk r
          → contains on_disk x ≡ true
          → (y : String)
          → repo.get_file_info (repo.store r (info_of x bytes)) y
            ≡ (if str_eq x y then some (info_of x bytes) else repo.get_file_info r y)
      get_file_info-stored r x bytes places on there y =
          keeps.get_file_info-store r (info_of x bytes)
            (λ n other ne e same. links x n there (on n other e) ne (sym same ∙ places n other e)) y

      stored-IsLocated :
          (r : repo.Repository) (x : String) (bytes : ByteArray)
          → IsLocated r
          → IsPresent on_disk r
          → contains on_disk x ≡ true
          → IsLocated (repo.store r (info_of x bytes))
      stored-IsLocated r x bytes places on there y info e =
          let reads = get_file_info-stored r x bytes places on there y in
          let before = places y info in ground (arith, reads, before, str_eq_iff x y)

      stored-IsPresent :
          (r : repo.Repository) (x : String) (bytes : ByteArray)
          → IsLocated r
          → IsPresent on_disk r
          → contains on_disk x ≡ true
          → IsPresent on_disk (repo.store r (info_of x bytes))
      stored-IsPresent r x bytes places on there y info e =
          let reads = get_file_info-stored r x bytes places on there y in
          let before = on y info in ground (arith, reads, before, str_eq_iff x y)

      contains-stored :
          (r : repo.Repository) (x : String) (bytes : ByteArray)
          → IsLocated r
          → IsPresent on_disk r
          → contains on_disk x ≡ true
          → (y : String)
          → repo.contains_info_for_file (repo.store r (info_of x bytes)) y
            ≡ (str_eq x y || repo.contains_info_for_file r y)
      contains-stored r x bytes places on there y = ground (
        arith,
        get_file_info-stored r x bytes places on there y,
        keeps.get_file_info-contains r y,
        keeps.get_file_info-contains (repo.store r (info_of x bytes)) y,
      )

      pub store_files-Recorded :
          (r : repo.Repository) (files : List (String × ByteArray))
          → IsLocated r
          → IsPresent on_disk r
          → ((y : String) → contains (names_of files) y ≡ true → contains on_disk y ≡ true)
          → Recorded r (store_files kit r files) files
      unfolding store_files contains
      store_files-Recorded r [] places on there = record {
        places = places;
        known = λ y. ground arith;
      }
      store_files-Recorded r ((x, bytes) ∷ files) places on there =
          let here = there x (rw (str_eq_refl x) refl) in
          let rest =
            store_files-Recorded (repo.store r (info_of x bytes)) files
              (stored-IsLocated r x bytes places on here)
              (stored-IsPresent r x bytes places on here) (λ y e. there y (rw e (ground arith))) in
          record {
            places = rest.places;
            known = λ y. ground (arith, rest.known y, contains-stored r x bytes places on here y);
          }
