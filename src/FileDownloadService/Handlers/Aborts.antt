-- ===== src/FileDownloadService/Handlers/Aborts.antt =====
-- What FileDownloadService.cpp does with aborted downloads, and how the collector removes them.
use wolk_connect_cpp.Base.{
  String, Bool, true, false, not, ◌&&◌, Option, none, some, List, [], ◌∷◌, ◌≡◌, ◌==◌, refl, ap, ◌∙◌,
  inl, inr, arith, str_eq, str_eq_iff, str_eq_refl, is_empty, if◌then◌else◌, Bool-cases,
}
use wolk_connect_cpp.Sdk.{file_transfer, aborted}
use wolk_connect_cpp.FileDownloader.States.{aborts}
use wolk_connect_cpp.FileDownloadService.{
  Kit, FileUploadInitiate, Entry, Service, upload_status, find, assign, send_status, find-assign,
  flag_completed_download,
}
use wolk_connect_cpp.FileDownloadService.Handlers.{
  enqueue, download, handle_upload_initiate, abort_download, handle_upload_abort, clear_downloads,
}
use wolk_connect_cpp.FileDownloadService.Handlers.Downloads.{send_status-active_downloads}

module _ (kit : Kit) where
  open kit use {repo}

  pub flag-find :
      (s : Service kit) (name key : String) (e : Entry kit)
      → find kit name s.active_downloads ≡ some e
      → find kit key (flag_completed_download kit s name).active_downloads ≡ (
          if str_eq name key
          then some (record e { flag = true })
          else find kit key s.active_downloads)
  unfolding flag_completed_download
  flag-find s name key e h =
      rw (h, flag_completed_download)
        (find-assign kit name key (record e { flag = true }) s.active_downloads)

  told : Service kit → String → Entry kit → Service kit
  told s name e = record s {
    active_downloads = assign kit name (enqueue kit e aborts) s.active_downloads;
  }

  told-find :
      (s : Service kit) (name key : String) (e : Entry kit)
      → find kit key (told s name e).active_downloads
        ≡ (if str_eq name key then some (enqueue kit e aborts) else find kit key s.active_downloads)
  unfolding told
  told-find s name key e = find-assign kit name key (enqueue kit e aborts) s.active_downloads

  told_self :
      (s : Service kit) (name : String) (e : Entry kit)
      → find kit name (told s name e).active_downloads ≡ some (enqueue kit e aborts)
  told_self s name e = ground (arith, told-find s name name e, str_eq_refl name)

  pub abort-find :
      (s : Service kit) (name key : String) (e : Entry kit)
      → find kit name s.active_downloads ≡ some e
      → is_empty name ≡ false
      → find kit key (handle_upload_abort kit s name).active_downloads ≡ (
          if str_eq name key
          then some (record (enqueue kit e aborts) { flag = true })
          else find kit key s.active_downloads)
  unfolding handle_upload_abort abort_download told
  abort-find s name key e h n =
      let flagged = flag_completed_download kit (told s name e) name in
      rw
        (
          n,
          handle_upload_abort,
          h,
          abort_download,
          send_status-active_downloads kit flagged (upload_status name aborted),
        )
        (ground (
          arith,
          told-find s name key e,
          flag-find (told s name e) name key (enqueue kit e aborts) (told_self s name e),
        ))

  -- Names that occur once, as in a map.
  abbrev pub IsMap : List (String × Entry kit) → Type 0
  IsMap [] = Unit
  IsMap ((k, e) ∷ es) = (find kit k es ≡ none) × IsMap es

  -- The downloads that no flag marks as over.
  abbrev pub unflagged : Option (Entry kit) → Option (Entry kit)
  unflagged none = none
  unflagged (some e) = if e.flag then none else some e

  -- The collector removes exactly the downloads whose flag is set.
  pub clear_downloads-find :
      (es : List (String × Entry kit)) (key : String)
      → IsMap es
      → find kit key (clear_downloads kit es) ≡ unflagged (find kit key es)
  unfolding clear_downloads find
  clear_downloads-find [] key m = refl
  clear_downloads-find ((k, e) ∷ es) key m =
      ground (arith, clear_downloads-find es key m.1, str_eq_iff k key)

  pub clear_downloads-IsMap :
      (es : List (String × Entry kit)) → IsMap es → IsMap (clear_downloads kit es)
  unfolding clear_downloads
  clear_downloads-IsMap [] m = m
  clear_downloads-IsMap ((k, e) ∷ es) m = elim (Bool-cases e.flag) [
    | inl over ↦ rw over (clear_downloads-IsMap es m.1)
    | inr active ↦
        rw active (clear_downloads-find es k m.1 ∙ ap unflagged m.0, clear_downloads-IsMap es m.1)
  ]

  pub assign-IsMap :
      (key : String) (x : Entry kit) (es : List (String × Entry kit))
      → IsMap es
      → IsMap (assign kit key x es)
  unfolding assign find
  assign-IsMap key x [] m = (refl, tt)
  assign-IsMap key x ((k, e) ∷ es) m = elim (Bool-cases (str_eq k key)) [
    | inl same ↦ rw same m
    | inr other ↦ rw other (
      (ground (arith, find-assign kit key k x es, str_eq_iff k key, str_eq_iff key k, m.0)),
      assign-IsMap key x es m.1,
    )
  ]

  pub flag-IsMap :
      (s : Service kit) (name : String) (e : Entry kit)
      → find kit name s.active_downloads ≡ some e
      → IsMap s.active_downloads
      → IsMap (flag_completed_download kit s name).active_downloads
  unfolding flag_completed_download
  flag-IsMap s name e h m =
      rw (h, flag_completed_download)
        (assign-IsMap name (record e { flag = true }) s.active_downloads m)

  -- What an upload command must hold for a file transfer.
  abbrev pub is_complete : FileUploadInitiate → Bool
  is_complete r =
      not (kit.max_packet_size == 0)
      && (not (is_empty r.name) && (not (r.size == 0) && not (is_empty r.hash)))

  download_again :
      (s : Service kit) (r : FileUploadInitiate) (e : Entry kit)
      → find kit r.name s.active_downloads ≡ some e
      → e.hash ≡ r.hash
      → download kit s r ≡ send_status kit s (upload_status r.name file_transfer)
  unfolding download
  download_again s r e f h = rw (f, download, h, str_eq_refl r.hash) refl

  -- A complete upload command whose download is active is only answered.
  initiate_again :
      (s : Service kit) (r : FileUploadInitiate) (e : Entry kit)
      → is_complete r ≡ true
      → repo.get_file_info s.repository r.name ≡ none
      → find kit r.name s.active_downloads ≡ some e
      → e.hash ≡ r.hash
      → handle_upload_initiate kit s r ≡ send_status kit s (upload_status r.name file_transfer)
  unfolding handle_upload_initiate
  initiate_again s r e c n f h = ground (arith, download_again s r e f h)

  abort-IsMap :
      (s : Service kit) (name : String) (e : Entry kit)
      → find kit name s.active_downloads ≡ some e
      → is_empty name ≡ false
      → IsMap s.active_downloads
      → IsMap (handle_upload_abort kit s name).active_downloads
  unfolding handle_upload_abort abort_download told
  abort-IsMap s name e h n m =
      let flagged = flag_completed_download kit (told s name e) name in
      rw
        (
          n,
          handle_upload_abort,
          h,
          abort_download,
          send_status-active_downloads kit flagged (upload_status name aborted),
        )
        (flag-IsMap (told s name e) name (enqueue kit e aborts) (told_self s name e)
          (assign-IsMap name (enqueue kit e aborts) s.active_downloads m))

  abort-repository :
      (s : Service kit) (name : String) → (handle_upload_abort kit s name).repository ≡ s.repository
  unfolding handle_upload_abort abort_download send_status flag_completed_download
  abort-repository s name = ground arith

  abort-found :
      (s : Service kit) (name : String) (e : Entry kit)
      → find kit name s.active_downloads ≡ some e
      → is_empty name ≡ false
      → find kit name (handle_upload_abort kit s name).active_downloads
        ≡ some (record (enqueue kit e aborts) { flag = true })
  abort-found s name e h n = ground (arith, abort-find s name name e h n, str_eq_refl name)

  -- In a map of downloads, with a packet size that is not 0, a complete upload command that has the name
  -- and hash of an aborted download and is for a file that the repository does not know, when it is
  -- handled next after the abort and before the collector has removed that download, is answered with
  -- FILE_TRANSFER and changes nothing else: no entry, no command of a downloader and no command of the
  -- service is added. A pass of the collector then leaves no download of the name.
  pub initiate_after_abort-IsLost :
      (s : Service kit) (r : FileUploadInitiate) (e : Entry kit)
      → IsMap s.active_downloads
      → find kit r.name s.active_downloads ≡ some e
      → e.hash ≡ r.hash
      → repo.get_file_info s.repository r.name ≡ none
      → is_complete r ≡ true
      → handle_upload_initiate kit (handle_upload_abort kit s r.name) r
          ≡ send_status kit (handle_upload_abort kit s r.name) (upload_status r.name file_transfer)
        × find kit r.name (
            clear_downloads kit
              (handle_upload_initiate kit (handle_upload_abort kit s r.name) r).active_downloads)
          ≡ none
  unfolding enqueue
  initiate_after_abort-IsLost s r e m f h n c =
      let aborted_s = handle_upload_abort kit s r.name in
      let named : is_empty r.name ≡ false = ground arith in
      let found = abort-found s r.name e f named in
      let again =
        initiate_again aborted_s r (record (enqueue kit e aborts) { flag = true }) c
          (ap (λ x. repo.get_file_info x r.name) (abort-repository s r.name) ∙ n) found h in
      (
        again,
        rw
            (
              again,
              send_status-active_downloads kit aborted_s (upload_status r.name file_transfer),
              clear_downloads-find aborted_s.active_downloads r.name
                  (abort-IsMap s r.name e f named m),
              found,
            )
            refl,
      )
