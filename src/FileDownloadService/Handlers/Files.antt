-- ===== src/FileDownloadService/Handlers/Files.antt =====
-- What FileDownloadService.cpp removes: one file, and all files.
use wolk_connect_cpp.Base.{
  String, true, false, not, ◌&&◌, some, List, [], ◌∷◌, ◌++◌, ◌≡◌, refl, inl, inr, sym, ap, ◌∙◌,
  arith, str_eq, str_eq_iff, is_some, if◌then◌else◌, Option-cases, Bool-cases,
}
use wolk_connect_cpp.FileRepository.{FileInfo, Keeps, contains, contains-remove}
use wolk_connect_cpp.FileDownloadService.{Kit, Service, Command, send_file_list}
use wolk_connect_cpp.FileDownloadService.Handlers.{delete_file, purge_names, purge_files}

module _ (kit : Kit) where
  open kit use {sys, repo}

  module _ (keeps : Keeps repo) where
    -- Every file can be deleted.
    module _
        (deletes : (disk : sys.Disk) (path : String) → (sys.delete_file disk path).0 ≡ true) where
      purge_names-contains :
          (disk : sys.Disk) (r : repo.Repository) (names : List String) (y : String)
          → repo.contains_info_for_file (purge_names kit disk r names).1 y
            ≡ (repo.contains_info_for_file r y && not (contains names y))
      unfolding purge_names contains
      purge_names-contains disk r [] y = ground arith
      purge_names-contains disk r (x ∷ xs) y = elim (Option-cases (repo.get_file_info r x)) [
        | inl e ↦
            let unknown : repo.contains_info_for_file r x ≡ false =
              sym (keeps.get_file_info-contains r x) ∙ ap is_some e in
            rw (e, purge_names)
              (ground (arith, purge_names-contains disk r xs y, unknown, str_eq_iff x y))
        | inr (info, e) ↦
            rw (e, purge_names, deletes disk info.path)
              (ground (
                arith,
                contains-remove repo keeps r x y,
                purge_names-contains (sys.delete_file disk info.path).1 (repo.remove r x) xs y,
              ))
      ]

      purged-contains :
          (s : Service kit) (y : String)
          → repo.contains_info_for_file
              (purge_names kit s.disk s.repository (keeps.names s.repository)).1
              y
            ≡ false
      purged-contains s y = ground (
        arith,
        purge_names-contains s.disk s.repository (keeps.names s.repository) y,
        keeps.contains-names s.repository y,
      )

      -- Where every file can be deleted and the repository keeps what it is told, a purge leaves the
      -- repository with no file.
      purge_files-contains :
          (s : Service kit) (y : String)
          → repo.contains_info_for_file (purge_files kit s).repository y ≡ false
      unfolding purge_files
      purge_files-contains s y =
          rw (keeps.get_all_file_names-names s.repository, purge_files, send_file_list)
            (purged-contains s y)

    -- Deleting a file that the repository knows forgets exactly that file when the disk deletes it, and
    -- nothing when the disk fails; the new list is asked for either way.
    delete_file-forgets :
        (s : Service kit) (name : String) (info : FileInfo)
        → repo.get_file_info s.repository name ≡ some info
        → (s' : Service kit) × ((delete_file kit s name ≡ some s')
            × (s'.commands ≡ s.commands ++ Command.send_file_list_update ∷ [])
            × ((y : String)
                → repo.contains_info_for_file s'.repository y ≡ (
                    if (sys.delete_file s.disk info.path).0 && str_eq name y
                    then false
                    else repo.contains_info_for_file s.repository y)))
    unfolding delete_file send_file_list
    delete_file-forgets s name info e = elim (Bool-cases ((sys.delete_file s.disk info.path).0)) [
      | inl d ↦
          rw (e, delete_file, d)
            (_, (refl, refl, λ y. contains-remove repo keeps s.repository name y))
      | inr d ↦ rw (e, delete_file, d) (_, (refl, refl, λ y. refl))
    ]
