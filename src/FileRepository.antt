-- ===== src/FileRepository.antt =====
-- src/repository/FileInfo.h and FileRepository.h: what the services know of the files on the device.
-- The interface is a record; `SQLiteFileRepository` fills it.
pub mod Sqlite
use wolk_connect_cpp.Base.{
  String, Bool, true, false, ◌||◌, Option, none, some, List, [], ◌∷◌, ◌≡◌, ◌≢◌, arith, str_eq,
  is_some, if◌then◌else◌,
}

pub record FileInfo : Type 0 where
  pub name : String
  pub hash : String
  pub path : String

-- std::find over a vector of strings.
unfoldable pub contains : List String → String → Bool
contains [] x = false
contains (y ∷ ys) x = str_eq y x || contains ys x

-- The operations of a repository, over its state.
pub record FileRepository : Type 1 where
  pub Repository : Type 0
  pub get_file_info : Repository → String → Option FileInfo
  -- `none` is the null pointer.
  pub get_all_file_names : Repository → Option (List String)
  pub store : Repository → FileInfo → Repository
  pub remove : Repository → String → Repository
  pub remove_all : Repository → Repository
  pub contains_info_for_file : Repository → String → Bool

-- What a service may rely on: the names listed are those with an info; removing concerns the one
-- name; storing, while no other name has the path of the info, does so too.
pub record Keeps (repo : FileRepository) : Type 0 where
  pub names : (r : repo.Repository) → List String
  pub get_all_file_names-names : (r : repo.Repository) → repo.get_all_file_names r ≡ some (names r)
  pub contains-names :
      (r : repo.Repository) (n : String) → contains (names r) n ≡ repo.contains_info_for_file r n
  pub get_file_info-contains :
      (r : repo.Repository) (n : String)
      → is_some (repo.get_file_info r n) ≡ repo.contains_info_for_file r n
  pub get_file_info-remove :
      (r : repo.Repository) (n m : String)
      → repo.get_file_info (repo.remove r n) m
        ≡ (if str_eq n m then none else repo.get_file_info r m)
  pub get_file_info-store :
      (r : repo.Repository) (info : FileInfo)
      → ((n : String) (other : FileInfo)
          → str_eq info.name n ≡ false
          → repo.get_file_info r n ≡ some other
          → other.path ≢ info.path)
      → (m : String)
      → repo.get_file_info (repo.store r info) m
        ≡ (if str_eq info.name m then some info else repo.get_file_info r m)

pub contains-remove :
    (repo : FileRepository) (keeps : Keeps repo) (r : repo.Repository) (n m : String)
    → repo.contains_info_for_file (repo.remove r n) m
      ≡ (if str_eq n m then false else repo.contains_info_for_file r m)
contains-remove repo keeps r n m = ground (
  arith,
  keeps.get_file_info-contains (repo.remove r n) m,
  keeps.get_file_info-contains r m,
  keeps.get_file_info-remove r n m,
)
