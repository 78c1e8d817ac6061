-- ===== src/FileDownloadService/Handlers/Diversion.antt =====
-- What a second command of the platform does to the packets of a download that is under way, since
-- FileDownloadService.cpp hands packets to m_activeDownload alone.
use wolk_connect_cpp.Base.{
  String, Bool, true, false, not, ◌&&◌, some, List, [], ◌∷◌, ◌≡◌, ◌∙◌, refl, ap, str_eq, str_eq_iff,
  is_some, is_empty, if◌then◌else◌, arith, inl, inr, Option-cases,
}
use wolk_connect_cpp.FileDownloader.States.{packet}
use wolk_connect_cpp.FileDownloadService.{
  Kit, FileUploadInitiate, Entry, Service, find, send_status, find-assign,
}
use wolk_connect_cpp.FileDownloadService.Handlers.{
  enqueue, handle_binary_data, download, handle_upload_initiate, abort_download,
  handle_upload_abort,
}
use wolk_connect_cpp.FileDownloadService.Handlers.Downloads.{accepts, upload_initiate-find}
use wolk_connect_cpp.FileDownloadService.Handlers.Aborts.{abort-find}

module _ (kit : Kit) where
  open kit use {api}

  pub data Interruption : Type 0 where
    uploads : FileUploadInitiate → Interruption
    stops : String → Interruption

  abbrev pub interrupt : Service kit → Interruption → Service kit
  interrupt s (uploads r) = handle_upload_initiate kit s r
  interrupt s (stops name) = handle_upload_abort kit s name

  -- An upload command for another file that starts a download, or the abort of another download.
  abbrev pub is_other : Service kit → String → Interruption → Bool
  is_other s file (uploads r) = accepts kit s r && not (str_eq r.name file)
  is_other s file (stops name) =
      is_some (find kit name s.active_downloads) && (not (is_empty name) && not (str_eq name file))

  abbrev pub receive_all : Service kit → List api.BinaryData → Service kit
  receive_all s [] = s
  receive_all s (b ∷ bs) = receive_all (handle_binary_data kit s b) bs

  received-active :
      (s : Service kit) (b : api.BinaryData)
      → (handle_binary_data kit s b).active_download ≡ s.active_download
  unfolding handle_binary_data
  received-active s b = ground arith

  received-find :
      (s : Service kit) (b : api.BinaryData) (file : String)
      → str_eq s.active_download file ≡ false
      → find kit file (handle_binary_data kit s b).active_downloads
        ≡ find kit file s.active_downloads
  unfolding handle_binary_data
  received-find s b file o = elim (Option-cases (find kit s.active_download s.active_downloads)) [
    | inl absent ↦ rw (absent, handle_binary_data) refl
    | inr (x, found) ↦
        rw (found, handle_binary_data)
          (find-assign kit s.active_download file (enqueue kit x (packet b)) s.active_downloads
            ∙ ap
                (λ c.
                  if c then some (enqueue kit x (packet b)) else find kit file s.active_downloads)
                o)
  ]

  all_received-find :
      (s : Service kit) (bs : List api.BinaryData) (file : String)
      → str_eq s.active_download file ≡ false
      → find kit file (receive_all s bs).active_downloads ≡ find kit file s.active_downloads
  all_received-find s [] file o = refl
  all_received-find s (b ∷ bs) file o =
      all_received-find (handle_binary_data kit s b) bs file
        (ap (λ x. str_eq x file) (received-active s b) ∙ o)
      ∙ received-find s b file o

  upload_initiate-active :
      (s : Service kit) (r : FileUploadInitiate)
      → accepts kit s r ≡ true
      → (handle_upload_initiate kit s r).active_download ≡ r.name
  unfolding handle_upload_initiate download send_status
  upload_initiate-active s r h = ground arith

  upload_abort-active :
      (s : Service kit) (name : String)
      → is_some (find kit name s.active_downloads) ≡ true
      → is_empty name ≡ false
      → (handle_upload_abort kit s name).active_download ≡ ""
  unfolding handle_upload_abort abort_download
  upload_abort-active s name h n = ground arith

  upload_starves :
      (s : Service kit) (file : String) (e : Entry kit) (r : FileUploadInitiate)
      (bs : List api.BinaryData)
      → find kit file s.active_downloads ≡ some e
      → accepts kit s r ≡ true
      → str_eq r.name file ≡ false
      → find kit file (receive_all (handle_upload_initiate kit s r) bs).active_downloads ≡ some e
  upload_starves s file e r bs f a o =
      all_received-find (handle_upload_initiate kit s r) bs file
        (ap (λ x. str_eq x file) (upload_initiate-active s r a) ∙ o)
      ∙ upload_initiate-find kit s r file
      ∙ rw (a, o) f

  abort_starves :
      (s : Service kit) (file name : String) (e x : Entry kit) (bs : List api.BinaryData)
      → is_empty file ≡ false
      → find kit file s.active_downloads ≡ some e
      → find kit name s.active_downloads ≡ some x
      → is_empty name ≡ false
      → str_eq name file ≡ false
      → find kit file (receive_all (handle_upload_abort kit s name) bs).active_downloads ≡ some e
  abort_starves s file name e x bs n f g m o =
      all_received-find (handle_upload_abort kit s name) bs file (
        ap (λ y. str_eq y file) (upload_abort-active s name (ap is_some g) m)
        ∙ (ground (arith, str_eq_iff "" file, str_eq_iff file "")))
      ∙ abort-find kit s name file x g m
      ∙ rw o f

  -- While a file is downloaded, an upload command that starts the download of another file, or the abort
  -- of another download, takes all packets that follow from the first download: however many arrive,
  -- nothing is handed to its downloader.
  pub first_download-IsStarved :
      (s : Service kit) (file : String) (e : Entry kit) (i : Interruption)
      (bs : List api.BinaryData)
      → is_empty file ≡ false
      → find kit file s.active_downloads ≡ some e
      → is_other s file i ≡ true
      → find kit file (receive_all (interrupt s i) bs).active_downloads ≡ some e
  first_download-IsStarved s file e (uploads r) bs n f o =
      upload_starves s file e r bs f (ground arith) (ground arith)
  first_download-IsStarved s file e (stops name) bs n f o =
      elim (Option-cases (find kit name s.active_downloads)) [
        | inl absent ↦ ground arith
        | inr (x, found) ↦ abort_starves s file name e x bs n f found (ground arith) (ground arith)
      ]
