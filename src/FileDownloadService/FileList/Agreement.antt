-- ===== src/FileDownloadService/FileList/Agreement.antt =====
-- After updateFileList the list that is sent, the repository and the disk agree.
use wolk_connect_cpp.Base.{
  IsAscending, subst, sym, String, Bool, ◌||◌, ◌&&◌, not, some, List, [], ◌∷◌, ◌++◌, ◌≡◌, true, ◌∙◌,
  refl, ap, sym, str_eq_iff, is_some, arith,
}
use wolk_connect_cpp.FileRepository.{Keeps, contains}
use wolk_connect_cpp.FileDownloadService.{Kit}
use wolk_connect_cpp.FileDownloadService.FileList.Recording.{
  names_of, NoLinks, IsLocated, IsPresent, Recorded, get_file_info-remove_files, contains-some,
  store_files-Recorded,
}
use wolk_connect_cpp.FileDownloadService.FileList.Ordering.{unique-sort-IsAscending}
use wolk_connect_cpp.FileDownloadService.FileList.{
  sort, present, missing, new_files, valid_on_disk, remove_files, store_files, update_with,
  update_file_list, contains-sort, contains-unique, contains-append, contains-present, path_of,
}

contains-missing :
    (xs ds : List String) (y : String)
    → contains (missing xs ds) y ≡ (contains xs y && not (contains ds y))
unfolding missing contains
contains-missing [] ds y = refl
contains-missing (x ∷ xs) ds y = ground (arith, contains-missing xs ds y, str_eq_iff x y)

module _ (kit : Kit) where
  open kit use {sys, repo}

  abbrev readable : sys.Disk → String → Bool
  readable disk y = is_some (sys.content disk (path_of kit y))

  contains-valid_on_disk :
      (disk : sys.Disk) (known xs : List String) (y : String)
      → contains (valid_on_disk kit disk known xs) y
        ≡ (contains xs y && (contains known y || readable disk y))
  unfolding valid_on_disk contains
  contains-valid_on_disk disk known [] y = refl
  contains-valid_on_disk disk known (x ∷ xs) y =
      ground (arith, contains-valid_on_disk disk known xs y, str_eq_iff x y)

  lists :
      (disk : sys.Disk) (r : repo.Repository) (names : List String) (y : String)
      → contains (update_with kit disk r (some names)).0 y ≡ (
          contains (sys.list_files disk kit.file_download_directory) y
          && (contains names y || readable disk y))
  unfolding update_with
  lists disk r names y =
      let on_disk = sys.list_files disk kit.file_download_directory in
      rw
        (
          contains-unique (sort (present names on_disk ++ valid_on_disk kit disk names on_disk)) y,
          contains-sort (present names on_disk ++ valid_on_disk kit disk names on_disk) y,
          contains-append (present names on_disk) (valid_on_disk kit disk names on_disk) y,
        )
        (ground
          (arith, contains-present names on_disk y, contains-valid_on_disk disk names on_disk y))

  ascends :
      (disk : sys.Disk) (r : repo.Repository) (names : List String)
      → IsAscending (update_with kit disk r (some names)).0
  unfolding update_with
  ascends disk r names =
      let on_disk = sys.list_files disk kit.file_download_directory in
      unique-sort-IsAscending (present names on_disk ++ valid_on_disk kit disk names on_disk)

  -- Where the repository can tell its names, the list that is sent is in ascending order, each name
  -- once, and holds a name exactly when the file is on the disk, and the repository knows it or it can
  -- be read.
  pub update_file_list-lists :
      (disk : sys.Disk) (r : repo.Repository) (names : List String)
      → repo.get_all_file_names r ≡ some names
      → IsAscending (update_file_list kit disk r).0
        × ((y : String)
            → contains (update_file_list kit disk r).0 y ≡ (
                contains (sys.list_files disk kit.file_download_directory) y
                && (contains names y || readable disk y)))
  unfolding update_file_list
  update_file_list-lists disk r names e = (
    subst (λ o. IsAscending (update_with kit disk r o).0) (sym e) (ascends disk r names),
    λ y. ap (λ o. contains (update_with kit disk r o).0 y) e ∙ lists disk r names y,
  )

  contains-new_files :
      (disk : sys.Disk) (known xs : List String) (y : String)
      → contains (names_of (new_files kit disk known xs)) y
        ≡ (contains xs y && (not (contains known y) && readable disk y))
  unfolding new_files contains
  contains-new_files disk known [] y = refl
  contains-new_files disk known (x ∷ xs) y =
      ground (arith, contains-new_files disk known xs y, str_eq_iff x y)

  module _ (keeps : Keeps repo) where
    module _ (disk : sys.Disk) (links : NoLinks kit disk) where
      abbrev on_disk : List String
      on_disk = sys.list_files disk kit.file_download_directory

      abbrev kept : repo.Repository → repo.Repository
      kept r = remove_files kit r (missing (keeps.names r) on_disk)

      kept-IsLocated : (r : repo.Repository) → IsLocated kit r → IsLocated kit (kept r)
      kept-IsLocated r places y info e =
          let reads = get_file_info-remove_files kit keeps r (missing (keeps.names r) on_disk) y in
          let before = places y info in ground (arith, reads, before)

      kept-IsPresent : (r : repo.Repository) → IsPresent kit on_disk (kept r)
      kept-IsPresent r y info e =
          let reads = get_file_info-remove_files kit keeps r (missing (keeps.names r) on_disk) y in
          let known = contains-some kit keeps r y info in
          ground (arith, reads, known, contains-missing (keeps.names r) on_disk y)

      new-on_disk :
          (r : repo.Repository) (y : String)
          → contains (names_of (new_files kit disk (keeps.names r) on_disk)) y ≡ true
          → contains on_disk y ≡ true
      new-on_disk r y e = ground (arith, contains-new_files disk (keeps.names r) on_disk y)

      agrees :
          (r : repo.Repository)
          → IsLocated kit r
          → IsLocated kit (update_with kit disk r (some (keeps.names r))).1
            × ((y : String)
                → repo.contains_info_for_file (update_with kit disk r (some (keeps.names r))).1 y
                  ≡ contains (update_with kit disk r (some (keeps.names r))).0 y)
      unfolding update_with
      agrees r places =
          let names = keeps.names r in
          let new = new_files kit disk names on_disk in
          let recorded : Recorded kit keeps disk links (kept r) (store_files kit (kept r) new) new =
            store_files-Recorded kit keeps disk links (kept r) new (kept-IsLocated r places)
              (kept-IsPresent r) (new-on_disk r) in
          (
            recorded.places,
            λ y. ground (
              arith,
              lists disk r names y,
              recorded.known y,
              keeps.contains-names r y,
              keeps.get_file_info-contains r y,
              keeps.get_file_info-contains (kept r) y,
              get_file_info-remove_files kit keeps r (missing names on_disk) y,
              contains-missing names on_disk y,
              contains-new_files disk names on_disk y,
            ),
          )

      -- When the repository keeps what it is told, no two names of the directory are links to one file,
      -- and every info has the path of its name in the directory, then after an update every info still
      -- has that path, and the repository knows exactly the files of the list that is sent.
      pub update_file_list-agrees :
          (r : repo.Repository)
          → IsLocated kit r
          → IsLocated kit (update_file_list kit disk r).1
            × ((y : String)
                → repo.contains_info_for_file (update_file_list kit disk r).1 y
                  ≡ contains (update_file_list kit disk r).0 y)
      unfolding update_file_list
      update_file_list-agrees r places =
          subst
            (λ o.
              IsLocated kit (update_with kit disk r o).1
              × ((y : String)
                  → repo.contains_info_for_file (update_with kit disk r o).1 y
                    ≡ contains (update_with kit disk r o).0 y))
            (sym (keeps.get_all_file_names-names r)) (agrees r places)
