-- ===== src/FileDownloadService/Handlers/Entries.antt =====
-- The map of active downloads of FileDownloadService.cpp: each entry's downloader works for the file of
-- its key, with the hash that the entry keeps, and the handlers keep it so.
use wolk_connect_cpp.Base.{
  ℕ, ◌≡◌, String, Bool, true, false, some, List, [], ◌∷◌, ◌++◌, All, arith, str_eq, str_eq_iff,
  Bool-cases, Option-cases, inl, inr, subst, sym, refl, if◌then◌else◌,
}
use wolk_connect_cpp.FileDownloader.Callbacks.{IsCleared, Dedicated, AsksFor}
use wolk_connect_cpp.FileDownloader.States.{Event}
use wolk_connect_cpp.FileDownloadService.{
  Kit, Captured, Entry, Service, Status, FileUploadInitiate, find, assign, send_status,
  flag_completed_download,
}
use wolk_connect_cpp.FileDownloadService.Handlers.{enqueue, request_of, new_entry, clear_downloads}

module _ (kit : Kit) where
  abbrev pub captured : String → String → Captured
  captured name hash = record { file_name = name; file_hash = hash }

  -- The downloader of an entry and its waiting commands are for the file `key` with the entry's hash.
  pub record EntryFits (key : String) (e : Entry kit) : Type 0 where
    pub downloader :
        Dedicated
          (captured key e.hash)
          key
          (kit.base64_decode e.hash)
          kit.file_download_directory
          e.downloader
    pub waiting :
        All
          (AsksFor
            (captured key e.hash)
            key
            (kit.base64_decode e.hash)
            kit.file_download_directory
            kit.api)
          e.waiting

  abbrev pub EntriesFit : List (String × Entry kit) → Type 0
  EntriesFit [] = Unit
  EntriesFit ((key, e) ∷ es) = EntryFits key e × EntriesFit es

  pub EntriesFit-if :
      (b : Bool) (xs ys : List (String × Entry kit))
      → (b ≡ true → EntriesFit xs)
      → EntriesFit ys
      → EntriesFit (if b then xs else ys)
  EntriesFit-if true xs ys f g = f refl
  EntriesFit-if false xs ys f g = g

  pub find-EntryFits :
      (key : String) (e : Entry kit) (es : List (String × Entry kit))
      → EntriesFit es
      → find kit key es ≡ some e
      → EntryFits key e
  unfolding find
  find-EntryFits key e [] f q = absurd (cc q)
  find-EntryFits key e ((k, x) ∷ es) (f, fs) q = elim (Bool-cases (str_eq k key)) [
    | inl same ↦
        let found : some x ≡ some e = rw same at q in
        let it : x ≡ e = cc found in
        subst (λ n. EntryFits n e) ((str_eq_iff k key).0 same) (subst (EntryFits k) it f)
    | inr other ↦ find-EntryFits key e es fs (rw (other) at q)
  ]

  pub assign-EntriesFit :
      (key : String) (e : Entry kit) (es : List (String × Entry kit))
      → EntryFits key e
      → EntriesFit es
      → EntriesFit (assign kit key e es)
  unfolding assign
  assign-EntriesFit key e [] f fs = (f, tt)
  assign-EntriesFit key e ((k, x) ∷ es) f (g, fs) =
      EntriesFit-if (str_eq k key) ((k, e) ∷ es) ((k, x) ∷ assign kit key e es)
        (λ same. (subst (λ n. EntryFits n e) (sym ((str_eq_iff k key).0 same)) f, fs))
        (g, assign-EntriesFit key e es f fs)

  pub clear_downloads-EntriesFit :
      (es : List (String × Entry kit)) → EntriesFit es → EntriesFit (clear_downloads kit es)
  unfolding clear_downloads
  clear_downloads-EntriesFit [] f = tt
  clear_downloads-EntriesFit ((k, e) ∷ es) (f, fs) =
      let rest = clear_downloads-EntriesFit es fs in
      EntriesFit-if e.flag (clear_downloads kit es) ((k, e) ∷ clear_downloads kit es) (λ over. rest)
        (f, rest)

  -- The map of a service.
  abbrev pub IsDedicated : Service kit → Type 0
  IsDedicated s = EntriesFit s.active_downloads

  pub flag-IsDedicated :
      (s : Service kit) (key : String)
      → IsDedicated s
      → IsDedicated (flag_completed_download kit s key)
  unfolding flag_completed_download
  flag-IsDedicated s key f = elim (Option-cases (find kit key s.active_downloads)) [
    | inl e ↦ rw (e, flag_completed_download) f
    | inr (x, e) ↦
        let fits = find-EntryFits key x s.active_downloads f e in
        rw (e, flag_completed_download)
          (assign-EntriesFit key (record x { flag = true }) s.active_downloads
            (record { downloader = fits.downloader; waiting = fits.waiting }) f)
  ]

  All-append :
      {A : Type 0} (P : A → Type 0) (xs ys : List A) → All P xs → All P ys → All P (xs ++ ys)
  All-append P [] ys p q = q
  All-append P (x ∷ xs) ys (a, p) q = (a, All-append P xs ys p q)

  pub enqueue-EntryFits :
      (key : String) (e : Entry kit) (event : Event kit.api Captured)
      → AsksFor
          (captured key e.hash)
          key
          (kit.base64_decode e.hash)
          kit.file_download_directory
          kit.api
          event
      → EntryFits key e
      → EntryFits key (enqueue kit e event)
  unfolding enqueue
  enqueue-EntryFits key e event a f = record {
    downloader = f.downloader;
    waiting = All-append _ e.waiting (event ∷ []) f.waiting (a, tt);
  }

  -- The downloads of a service as they are, or with other things changed.
  abbrev pub Keeps : Service kit → Service kit → Type 0
  Keeps s s' = s'.active_downloads ≡ s.active_downloads

  pub send_status-Keeps : (s : Service kit) (status : Status) → Keeps s (send_status kit s status)
  unfolding send_status
  send_status-Keeps s status = ground arith

  pub by_Keeps : (s s' : Service kit) → Keeps s s' → IsDedicated s → IsDedicated s'
  by_Keeps s s' e f = subst EntriesFit (sym e) f

  -- A new downloader has no callbacks.
  abbrev pub StartsCleared : Type 0
  StartsCleared = (n : ℕ) → IsCleared (kit.new_downloader n)

  pub new_entry-EntryFits :
      (r : FileUploadInitiate) → StartsCleared → EntryFits r.name (new_entry kit r)
  unfolding new_entry request_of
  new_entry-EntryFits r blank = record {
    downloader = inl (blank kit.max_packet_size);
    waiting = (ground arith, tt);
  }
