-- ===== src/FileRepository/Sqlite/Histories.antt =====
-- SQLiteFileRepository against the map that it stands for: what any history of stores and removals
-- leaves.
use wolk_connect_cpp.Base.{
  ℕ, suc, ◌≡◌, ◌≢◌, ◌∙◌, refl, sym, String, false, Option, none, some, List, [], ◌∷◌, arith, str_eq,
  is_some, if◌then◌else◌,
}
use wolk_connect_cpp.FileRepository.{FileInfo, contains}
use wolk_connect_cpp.FileRepository.Sqlite.{
  Session, get_file_info, get_all_file_names, contains_info_for_file, remove, remove_all, store,
}
use wolk_connect_cpp.FileRepository.Sqlite.Recording.{
  Works, PathIsFree, contains-row, get_file_info-row, get_file_info-remove, get_file_info-store,
}

-- The operations that change a repository.
pub data Operation : Type 0 where
  stores : FileInfo → Operation
  removes : String → Operation
  removes_all : Operation

-- A map from names to infos.
abbrev pub Infos : Type 0
Infos = String → Option FileInfo

abbrev pub changed : Infos → Operation → Infos
changed infos (stores info) m = if str_eq info.name m then some info else infos m
changed infos (removes n) m = if str_eq n m then none else infos m
changed infos removes_all m = none

abbrev pub changed_by : Infos → List Operation → Infos
changed_by infos [] = infos
changed_by infos (o ∷ os) = changed_by (changed infos o) os

-- An info is stored only while no other name has its path.
abbrev pub Storable : Infos → Operation → Type 0
Storable infos (stores info) =
    (m : String) (other : FileInfo)
    → str_eq info.name m ≡ false
    → infos m ≡ some other
    → other.path ≢ info.path
Storable infos (removes n) = Unit
Storable infos removes_all = Unit

abbrev pub AllStorable : Infos → List Operation → Type 0
AllStorable infos [] = Unit
AllStorable infos (o ∷ os) = Storable infos o × AllStorable (changed infos o) os

module _ (session : Session) where
  open session use {Table}

  unfoldable pub execute : ℕ → Table → Operation → Option Table
  execute fuel t (stores info) = store session fuel t info
  execute fuel t (removes n) = some (remove session t n)
  execute fuel t removes_all = some (remove_all session t)

  unfoldable pub run : ℕ → Table → List Operation → Option Table
  unfolding execute
  run fuel t [] = some t
  run fuel t (o ∷ os) = elim (execute fuel t o) [ none ↦ none | some t' ↦ run fuel t' os ]

  -- Every way to read the repository agrees with the map.
  pub record Agrees (t : Table) (infos : Infos) : Type 0 where
    pub info : (n : String) → get_file_info session t n ≡ infos n
    pub known : (n : String) → contains_info_for_file session t n ≡ is_some (infos n)
    pub names :
        (ns : List String) × (get_all_file_names session t ≡ some ns)
        × ((n : String) → contains ns n ≡ is_some (infos n))

  module _ (works : Works session) where
    open works use {
      row, emptied, delete_all-emptied, row-emptied, listed, select_names-listed, contains-listed,
    }

    is_some-row : (t : Table) (n : String) → is_some (get_file_info session t n) ≡ is_some (row t n)
    is_some-row t n = ground (arith, get_file_info-row session works t n)

    by_info :
        (t : Table) (infos : Infos)
        → ((n : String) → get_file_info session t n ≡ infos n)
        → Agrees t infos
    unfolding get_all_file_names
    by_info t infos e = record {
      info = e;
      known = λ n. ground (arith, contains-row session works t n, is_some-row t n, e n);
      names = (
        listed t,
        rw (select_names-listed t, get_all_file_names) refl,
        λ n. ground (arith, contains-listed t n, is_some-row t n, e n),
      );
    }

    free_of :
        (t : Table) (infos : Infos) (info : FileInfo)
        → Agrees t infos
        → Storable infos (stores info)
        → PathIsFree session works t info
    free_of t infos info a free m hash other e =
        let there : FileInfo = record { name = m; hash = hash; path = info.path } in
        free m there other (sym (a.info m) ∙ ground (arith, get_file_info-row session works t m))
          refl

    execute-Agrees :
        (fuel : ℕ) (t : Table) (infos : Infos) (o : Operation)
        → Agrees t infos
        → Storable infos o
        → (t' : Table) × (execute (suc (suc fuel)) t o ≡ some t') × Agrees t' (changed infos o)
    unfolding execute remove_all
    execute-Agrees fuel t infos (stores info) a free =
        let (t', e, reads) =
          get_file_info-store session works fuel t info (free_of t infos info a free) in
        (t', e, by_info t' _ (λ n. ground (arith, reads n, a.info n)))
    execute-Agrees fuel t infos (removes n) a free = (
      remove session t n,
      refl,
      by_info (remove session t n) _
          (λ m. ground (arith, get_file_info-remove session works t n m, a.info m)),
    )
    execute-Agrees fuel t infos removes_all a free = (
      emptied t,
      rw (delete_all-emptied t, execute, remove_all) refl,
      by_info (emptied t) _
          (λ m. ground (arith, get_file_info-row session works (emptied t) m, row-emptied t m)),
    )

    -- Over a working SQL engine, any history of stores and removals in which an info is stored only while
    -- no other name has its path runs to its end, with two rounds of `store` and `update` for each store,
    -- and keeps the repository equal to the map from names to infos under the same operations: the info
    -- of a name, the test whether a name is known, and the names that are listed.
    pub run-Agrees :
        (fuel : ℕ) (t : Table) (infos : Infos) (os : List Operation)
        → Agrees t infos
        → AllStorable infos os
        → (t' : Table) × (run (suc (suc fuel)) t os ≡ some t') × Agrees t' (changed_by infos os)
    unfolding run
    run-Agrees fuel t infos [] a free = (t, refl, a)
    run-Agrees fuel t infos (o ∷ os) a (free, frees) =
        let (t', e, b) = execute-Agrees fuel t infos o a free in
        let (t'', e', c) = run-Agrees fuel t' (changed infos o) os b frees in
        (t'', rw (e, run) e', c)
