-- ===== src/FileRepository/Sqlite/Recording.antt =====
-- What SQLiteFileRepository::store, update and remove leave in the table, over a working SQL engine
-- and over one that cannot delete.
use wolk_connect_cpp.Base.{
  ℕ, zero, suc, ◌≡◌, ◌≢◌, ◌∙◌, refl, inl, inr, String, true, false, Option, none, some, List, arith,
  str_eq, str_eq_iff, str_eq_refl, is_some, if◌then◌else◌, Bool-cases, Option-cases,
}
use wolk_connect_cpp.FileRepository.{FileInfo, contains}
use wolk_connect_cpp.FileRepository.Sqlite.{
  Session, get_file_info, contains_info_for_file, remove, store,
}

-- An engine that executes every statement as SQL documents it, over the hash and path that a name has
-- in the table: names are unique, and a row whose path another row has is not inserted.
pub record Works (session : Session) : Type 0 where
  pub row : session.Table → String → Option (String × String)
  pub select_info-row : (t : session.Table) (n : String) → session.select_info t n ≡ some (row t n)
  pub select_count-row :
      (t : session.Table) (n : String)
      → session.select_count t n ≡ some (if is_some (row t n) then 1 else 0)
  pub deleted : session.Table → String → session.Table
  pub delete_name-deleted :
      (t : session.Table) (n : String) → session.delete_name t n ≡ some (deleted t n)
  pub row-deleted :
      (t : session.Table) (n m : String)
      → row (deleted t n) m ≡ (if str_eq n m then none else row t m)
  pub inserted : session.Table → FileInfo → session.Table
  pub insert-inserted :
      (t : session.Table) (info : FileInfo)
      → row t info.name ≡ none
      → ((m hash : String) → row t m ≢ some (hash, info.path))
      → session.insert t info ≡ some (inserted t info)
  pub insert_refused :
      (t : session.Table) (info : FileInfo) (m hash : String)
      → row t m ≡ some (hash, info.path)
      → session.insert t info ≡ none
  pub row-inserted :
      (t : session.Table) (info : FileInfo) (m : String)
      → row (inserted t info) m
        ≡ (if str_eq info.name m then some (info.hash, info.path) else row t m)
  pub emptied : session.Table → session.Table
  pub delete_all-emptied : (t : session.Table) → session.delete_all t ≡ some (emptied t)
  pub row-emptied : (t : session.Table) (n : String) → row (emptied t) n ≡ none
  pub listed : session.Table → List String
  pub select_names-listed : (t : session.Table) → session.select_names t ≡ some (listed t)
  pub contains-listed : (t : session.Table) (n : String) → contains (listed t) n ≡ is_some (row t n)

module _ (session : Session) (works : Works session) where
  open session use {Table}
  open works use {
    row, select_info-row, select_count-row, deleted, delete_name-deleted, row-deleted, inserted,
    insert-inserted, insert_refused, row-inserted,
  }

  pub contains-row :
      (t : Table) (n : String) → contains_info_for_file session t n ≡ is_some (row t n)
  unfolding contains_info_for_file
  contains-row t n = ground (arith, select_count-row t n)

  pub get_file_info-row :
      (t : Table) (n : String)
      → get_file_info session t n ≡ (elim (row t n) [
        | none ↦ none
        | some (hash, path) ↦ some (record { name = n; hash = hash; path = path })
      ])
  unfolding get_file_info
  get_file_info-row t n = ground (arith, select_info-row t n)

  row-remove :
      (t : Table) (n m : String)
      → row (remove session t n) m ≡ (if str_eq n m then none else row t m)
  unfolding remove
  row-remove t n m =
      ground (arith, contains-row t n, delete_name-deleted t n, row-deleted t n m, str_eq_iff n m)

  -- After a removal the removed name has no info, and every other name has the info it had.
  pub get_file_info-remove :
      (t : Table) (n m : String)
      → get_file_info session (remove session t n) m
        ≡ (if str_eq n m then none else get_file_info session t m)
  get_file_info-remove t n m =
      ground
        (arith, get_file_info-row (remove session t n) m, get_file_info-row t m, row-remove t n m)

  -- No other name has the path of the info.
  abbrev pub PathIsFree : Table → FileInfo → Type 0
  PathIsFree t info =
      (m hash : String) → str_eq info.name m ≡ false → row t m ≢ some (hash, info.path)

  free_of_all :
      (t : Table) (info : FileInfo)
      → row t info.name ≡ none
      → PathIsFree t info
      → (m hash : String) → row t m ≢ some (hash, info.path)
  free_of_all t info new free m hash = elim (Bool-cases (str_eq info.name m)) [
    | inl same ↦ λ e. cc ((str_eq_iff info.name m).0 same, new, e)
    | inr other ↦ free m hash other
  ]

  store-new :
      (fuel : ℕ) (t : Table) (info : FileInfo)
      → row t info.name ≡ none
      → PathIsFree t info
      → store session (suc fuel) t info ≡ some (inserted t info)
  unfolding store
  store-new fuel t info new free =
      rw (contains-row t info.name, new, insert-inserted t info new (free_of_all t info new free))

  store-old :
      (fuel : ℕ) (t : Table) (info : FileInfo) (r : String × String)
      → row t info.name ≡ some r
      → store session (suc fuel) t info ≡ store session fuel (remove session t info.name) info
  unfolding store
  store-old fuel t info r old = rw (contains-row t info.name, old)

  store-refused :
      (fuel : ℕ) (t : Table) (info : FileInfo) (other hash : String)
      → row t info.name ≡ none
      → row t other ≡ some (hash, info.path)
      → store session (suc fuel) t info ≡ some t
  unfolding store
  store-refused fuel t info other hash new clash =
      rw (contains-row t info.name, new, insert_refused t info other hash clash)

  row-remove_self : (t : Table) (n : String) → row (remove session t n) n ≡ none
  row-remove_self t n = rw (row-remove t n n, str_eq_refl n)

  remove-PathIsFree :
      (t : Table) (info : FileInfo)
      → PathIsFree t info
      → PathIsFree (remove session t info.name) info
  remove-PathIsFree t info free m hash other =
      rw (row-remove t info.name m, other) (free m hash other)

  get_file_info-inserted :
      (t : Table) (info : FileInfo) (m : String)
      → get_file_info session (inserted t info) m
        ≡ (if str_eq info.name m then some info else get_file_info session t m)
  get_file_info-inserted t info m = ground (
    arith,
    get_file_info-row (inserted t info) m,
    get_file_info-row t m,
    row-inserted t info m,
    str_eq_iff info.name m,
  )

  -- When no other name has its path, storing an info takes at most two rounds of `store` and `update`,
  -- and afterwards the repository has that info under its name, whether or not it had one before, and
  -- what it had under every other name.
  pub get_file_info-store :
      (fuel : ℕ) (t : Table) (info : FileInfo)
      → PathIsFree t info
      → (t' : Table) × (store session (suc (suc fuel)) t info ≡ some t')
        × ((m : String)
            → get_file_info session t' m
              ≡ (if str_eq info.name m then some info else get_file_info session t m))
  get_file_info-store fuel t info free = elim (Option-cases (row t info.name)) [
    | inl new ↦
        (inserted t info, store-new (suc fuel) t info new free, get_file_info-inserted t info)
    | inr (r, old) ↦
        let rest : Table = remove session t info.name in
        (
          inserted rest info,
          store-old (suc fuel) t info r old
              ∙ store-new fuel rest info (row-remove_self t info.name)
                  (remove-PathIsFree t info free),
          λ m.
              ground
                (arith, get_file_info-inserted rest info m, get_file_info-remove t info.name m),
        )
  ]

  -- Storing an info under a known name with a path that another name has loses the known name: the
  -- old row is removed, the new one is refused, and nothing is stored.
  pub get_file_info-store_clash :
      (fuel : ℕ) (t : Table) (info : FileInfo) (r : String × String) (other hash : String)
      → row t info.name ≡ some r
      → str_eq info.name other ≡ false
      → row t other ≡ some (hash, info.path)
      → (t' : Table) × (store session (suc (suc fuel)) t info ≡ some t')
        × (get_file_info session t' info.name ≡ none)
  get_file_info-store_clash fuel t info r other hash old ne clash =
      let rest : Table = remove session t info.name in
      (
        rest,
        store-old (suc fuel) t info r old
            ∙ store-refused fuel rest info other hash (row-remove_self t info.name)
                (rw (row-remove t info.name other, ne) clash),
        rw (get_file_info-remove t info.name info.name, str_eq_refl info.name),
      )

module _ (session : Session) where
  remove_stuck :
      (t : session.Table) (n : String) → session.delete_name t n ≡ none → remove session t n ≡ t
  unfolding remove
  remove_stuck t n stuck = ground arith

  -- While the engine counts a row for the name and fails to delete it, `store` and `update` call one
  -- another without end: no amount of fuel lets `store` return.
  pub store_diverges :
      (t : session.Table) (info : FileInfo)
      → contains_info_for_file session t info.name ≡ true
      → session.delete_name t info.name ≡ none
      → (fuel : ℕ) → store session fuel t info ≡ none
  unfolding store
  store_diverges t info known stuck zero = refl
  store_diverges t info known stuck (suc fuel) =
      rw (known, remove_stuck t info.name stuck) (store_diverges t info known stuck fuel)
