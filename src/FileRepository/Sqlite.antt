-- ===== src/FileRepository/Sqlite.antt =====
-- src/repository/SQLiteFileRepository.h and SQLiteFileRepository.cpp. The SQL engine is an interface:
-- each statement of the source is an operation that answers `none` where the engine throws.
pub mod Recording
pub mod Histories
pub mod Interface
pub mod Tests
use wolk_connect_cpp.Base.{
  ℕ, zero, suc, String, Bool, true, false, not, Option, none, some, List, [], ◌∷◌, ◌==◌,
  if◌then◌else◌,
}
use wolk_connect_cpp.FileRepository.{FileInfo}

-- The statements over the table file_info, whose columns name and path are UNIQUE.
pub record Session : Type 1 where
  pub Table : Type 0
  -- SELECT hash, path FROM file_info WHERE file_info.name=?; `some none` where no row is found.
  pub select_info : Table → String → Option (Option (String × String))
  -- SELECT name FROM file_info;
  pub select_names : Table → Option (List String)
  -- SELECT COUNT(*) FROM file_info WHERE file_info.name=?;
  pub select_count : Table → String → Option ℕ
  -- INSERT INTO file_info (name, hash, path) VALUES(?, ?, ?);
  pub insert : Table → FileInfo → Option Table
  -- DELETE FROM file_info WHERE file_info.name=?;
  pub delete_name : Table → String → Option Table
  -- DELETE FROM file_info;
  pub delete_all : Table → Option Table

module _ (session : Session) where
  open session use {Table}

  unfoldable pub get_file_info : Table → String → Option FileInfo
  get_file_info t file_name = elim (session.select_info t file_name) [
    | none ↦ none
    | some row ↦ elim row [
      | none ↦ none
      | some (hash, path) ↦ some (record { name = file_name; hash = hash; path = path })
    ]
  ]

  -- A failed statement leaves the vector of names empty.
  pub get_all_file_names : Table → Option (List String)
  get_all_file_names t = elim (session.select_names t) [ none ↦ some [] | some names ↦ some names ]

  pub contains_info_for_file : Table → String → Bool
  contains_info_for_file t file_name = elim (session.select_count t file_name) [
    | none ↦ false
    | some count ↦ not (count == 0)
  ]

  pub remove : Table → String → Table
  remove t file_name =
      if not (contains_info_for_file t file_name)
      then t
      else (elim (session.delete_name t file_name) [ none ↦ t | some t' ↦ t' ])

  pub remove_all : Table → Table
  remove_all t = elim (session.delete_all t) [ none ↦ t | some t' ↦ t' ]

  -- `store` calls `update`, which calls `remove` and `store` again: one unit of fuel for each call of
  -- `store`, and `none` when it runs out.
  pub store : ℕ → Table → FileInfo → Option Table
  store zero t info = none
  store (suc fuel) t info =
      let updated = store fuel (remove t info.name) info in
      if contains_info_for_file t info.name
      then updated
      else (elim (session.insert t info) [ none ↦ some t | some t' ↦ some t' ])
