-- ===== src/FileRepository/Sqlite/Interface.antt =====
-- SQLiteFileRepository as the FileRepository that the services hold, with the laws that they rely on.
use wolk_connect_cpp.Base.{
  ◌≡◌, ◌∙◌, String, none, some, false, is_some, arith, str_eq, if◌then◌else◌, ◌≢◌, refl,
}
use wolk_connect_cpp.FileRepository.{FileInfo, FileRepository, Keeps}
use wolk_connect_cpp.FileRepository.Sqlite.{
  Session, get_file_info, get_all_file_names, contains_info_for_file, remove, remove_all, store,
}
use wolk_connect_cpp.FileRepository.Sqlite.Recording.{
  Works, PathIsFree, contains-row, get_file_info-row, get_file_info-remove, get_file_info-store,
}

module _ (session : Session) where
  open session use {Table}

  -- Two rounds of `store` and `update`; where they are not enough, the table is left as it was.
  abbrev pub store_twice : Table → FileInfo → Table
  store_twice t info = elim (store session 2 t info) [ none ↦ t | some t' ↦ t' ]

  abbrev pub sqlite_repository : FileRepository
  sqlite_repository = record {
    Repository = Table;
    get_file_info = λ t n. get_file_info session t n;
    get_all_file_names = λ t. get_all_file_names session t;
    store = λ t info. store_twice t info;
    remove = λ t n. remove session t n;
    remove_all = λ t. remove_all session t;
    contains_info_for_file = λ t n. contains_info_for_file session t n;
  }

  module _ (works : Works session) where
    open works use {row, listed, select_names-listed, contains-listed}

    is_some-info :
        (t : Table) (n : String)
        → is_some (get_file_info session t n) ≡ contains_info_for_file session t n
    is_some-info t n =
        ground (arith, get_file_info-row session works t n, contains-row session works t n)

    free_of :
        (t : Table) (info : FileInfo)
        → ((n : String) (other : FileInfo)
            → str_eq info.name n ≡ false
            → get_file_info session t n ≡ some other
            → other.path ≢ info.path)
        → PathIsFree session works t info
    free_of t info free m hash other e =
        let there : FileInfo = record { name = m; hash = hash; path = info.path } in
        free m there other (ground (arith, get_file_info-row session works t m)) refl

    store_twice-info :
        (t : Table) (info : FileInfo)
        → PathIsFree session works t info
        → (m : String)
        → get_file_info session (store_twice t info) m
          ≡ (if str_eq info.name m then some info else get_file_info session t m)
    store_twice-info t info free m =
        let (t', e, reads) = get_file_info-store session works 0 t info free in
        rw (e, store_twice) (reads m)

    -- Over a working SQL engine the repository keeps what it is told.
    pub sqlite-Keeps : Keeps sqlite_repository
    unfolding get_all_file_names
    sqlite-Keeps = record {
      names = λ t. listed t;
      get_all_file_names-names = λ t. rw (select_names-listed t, get_all_file_names) refl;
      contains-names = λ t n. contains-listed t n ∙ ground (arith, contains-row session works t n);
      get_file_info-contains = λ t n. is_some-info t n;
      get_file_info-remove = λ t n m. get_file_info-remove session works t n m;
      get_file_info-store = λ t info free m. store_twice-info t info (free_of t info free) m;
    }
