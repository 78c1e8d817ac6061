-- ===== src/FileDownloadService/Execution/Deliveries.antt =====
-- What one command of a downloader does to FileDownloadService.cpp, in any order of the threads.
use wolk_connect_cpp.Base.{
  String, true, Option, none, some, List, [], ◌∷◌, ◌++◌, ◌≡◌, ◌∙◌, ByteArray, arith, subst, sym,
  refl, ap, All, str_eq_refl,
}
use wolk_connect_cpp.Sdk.{FileTransferError, FilePacketRequest}
use wolk_connect_cpp.FileDownloader.States.{Event, step}
use wolk_connect_cpp.FileDownloader.Callbacks.{
  IsCleared, AsksFor, silent, faults, asks, gives_up, saves,
}
use wolk_connect_cpp.FileDownloader.Replies.{step-Reply}
use wolk_connect_cpp.FileDownloader.Faults.{step-fault}
use wolk_connect_cpp.FileDownloadService.{
  Kit, Captured, Command, Entry, Service, find, find-assign, request_packet, send_status,
  send_file_list, flag_completed_download, upload_error,
}
use wolk_connect_cpp.FileDownloadService.Handlers.{
  DownloadProtocol, download_completed, download_failed,
}
use wolk_connect_cpp.FileDownloadService.Handlers.Entries.{
  captured, EntryFits, find-EntryFits, StartsCleared,
}
use wolk_connect_cpp.FileDownloadService.Execution.{react, react_all, happens, next_event}
use wolk_connect_cpp.FileDownloadService.Execution.Interleavings.{Reach, Reach-IsDedicated}
use wolk_connect_cpp.FileDownloadService.Execution.Reactions.{stepped}

module _ (kit : Kit) where
  open kit use {api, sys, doubles}

  -- Where the file of a name is saved.
  abbrev pub saved_at : String → String
  saved_at name = sys.compose_path name kit.file_download_directory

  -- The entry of a key is flagged as over.
  abbrev pub IsOver : Service kit → String → Type 0
  IsOver s key = (x : Entry kit) × (find kit key s.active_downloads ≡ some x) × (x.flag ≡ true)

  -- What a command of the downloader of `key` leaves, for an entry of the service.
  pub data Delivery (s : Service kit) (key : String) (x : Entry kit) (o : Option (Service kit))
      : Type 0 where
    process_ends : IsCleared x.downloader → o ≡ none → Delivery s key x o
    waits :
        (s' : Service kit)
        → o ≡ some s'
        → s'.commands ≡ s.commands
        → s'.published ≡ s.published
        → Delivery s key x o
    requests :
        (s' : Service kit) (r : FilePacketRequest)
        → o ≡ some s'
        → r.file_name ≡ key
        → s'.commands ≡ s.commands
        → s'.published ≡ (request_packet kit s r).published
        → Delivery s key x o
    fails :
        (s' : Service kit) (code : FileTransferError)
        → o ≡ some s'
        → s'.commands ≡ s.commands ++ Command.send_file_list_update ∷ []
        → s'.published ≡ (send_status kit s (upload_error key code)).published
        → IsOver s' key
        → Delivery s key x o
    delivers :
        (s' : Service kit) (bytes : ByteArray)
        → o ≡ some s'
        → s'.commands
          ≡ (s.commands
              ++ Command.store_downloaded key (sys.absolute_path (saved_at key)) x.hash ∷ [])
            ++ Command.send_file_list_update ∷ []
        → sys.content s'.disk (saved_at key) ≡ some bytes
        → sys.hash_sha256 bytes ≡ kit.base64_decode x.hash
        → IsOver s' key
        → Delivery s key x o

  flag-IsOver :
      (s : Service kit) (key : String) (x : Entry kit)
      → find kit key s.active_downloads ≡ some x
      → IsOver (flag_completed_download kit s key) key
  unfolding flag_completed_download
  flag-IsOver s key x e = (
    record x { flag = true },
    rw
        (
          e,
          flag_completed_download,
          find-assign kit key key (record x { flag = true }) s.active_downloads,
          str_eq_refl key,
        )
        refl,
    refl,
  )

  flag-same :
      (s : Service kit) (key : String)
      → (flag_completed_download kit s key).commands ≡ s.commands
        × (flag_completed_download kit s key).published ≡ s.published
        × (flag_completed_download kit s key).disk ≡ s.disk
  unfolding flag_completed_download
  flag-same s key = (ground arith, ground arith, ground arith)

  -- The callbacks of a download that ends.
  failed_lem :
      (s : Service kit) (key : String) (code : FileTransferError)
      → ((download_failed kit s key code).commands
          ≡ s.commands ++ Command.send_file_list_update ∷ [])
        × ((download_failed kit s key code).published
            ≡ (send_status kit s (upload_error key code)).published)
        × ((download_failed kit s key code).active_downloads
            ≡ (flag_completed_download kit s key).active_downloads)
  unfolding download_failed send_file_list send_status flag_completed_download
  failed_lem s key code = (ground arith, ground arith, ground arith)

  completed_lem :
      (s : Service kit) (key path hash : String)
      → ((download_completed kit s key path hash).commands
          ≡ (s.commands ++ Command.store_downloaded key path hash ∷ [])
            ++ Command.send_file_list_update ∷ [])
        × ((download_completed kit s key path hash).disk ≡ s.disk)
        × ((download_completed kit s key path hash).active_downloads
            ≡ (flag_completed_download kit s key).active_downloads)
  unfolding download_completed send_file_list flag_completed_download
  completed_lem s key path hash = (ground arith, ground arith, ground arith)

  found :
      (s : Service kit) (key : String) (x : Entry kit) (event : Event api Captured)
      → (y : Entry kit) × (find kit key (stepped kit s key x event).active_downloads ≡ some y)
  found s key x event =
      let y = record x { downloader = (step api sys doubles x.downloader s.disk event).1 } in
      (y, rw (find-assign kit key key y s.active_downloads, str_eq_refl key) refl)

  over :
      (s : Service kit) (key : String) (x : Entry kit) (event : Event api Captured)
      (s' : Service kit)
      → s'.active_downloads
        ≡ (flag_completed_download kit (stepped kit s key x event) key).active_downloads
      → IsOver s' key
  over s key x event s' e =
      let (y, there) = found s key x event in
      subst (λ es. (z : Entry kit) × (find kit key es ≡ some z) × (z.flag ≡ true)) (sym e)
        (flag-IsOver (stepped kit s key x event) key y there)

  asked_lem :
      (s : Service kit) (r : FilePacketRequest) → (request_packet kit s r).commands ≡ s.commands
  unfolding request_packet
  asked_lem s r = ground arith

  requested_lem :
      (s t : Service kit) (r : FilePacketRequest)
      → t.published ≡ s.published
      → (request_packet kit t r).published ≡ (request_packet kit s r).published
  unfolding request_packet
  requested_lem s t r e = ground arith

  told_lem :
      (s t : Service kit) (key : String) (code : FileTransferError)
      → t.published ≡ s.published
      → (send_status kit t (upload_error key code)).published
        ≡ (send_status kit s (upload_error key code)).published
  unfolding send_status
  told_lem s t key code e = ground arith

  happens-Delivery :
      (s : Service kit) (key : String) (x : Entry kit) (event : Event api Captured)
      (events : List (Event api Captured))
      → EntryFits kit key x
      → AsksFor
          (captured kit key x.hash)
          key
          (kit.base64_decode x.hash)
          kit.file_download_directory
          api
          event
      → Delivery s key x (happens kit s key (record x { waiting = events }) event)
  unfolding happens react_all react
  happens-Delivery s key x event events fits asked =
      let taken : Entry kit = record x { waiting = events } in
      let after = stepped kit s key taken event in
      elim (step-Reply (captured kit key x.hash) key (kit.base64_decode x.hash)
        kit.file_download_directory sys api doubles x.downloader s.disk event fits.downloader
        asked) [
          | silent e k ↦ waits after (ap (react_all kit after) e) refl refl
          | faults e k ↦
              process_ends
                (step-fault (captured kit key x.hash) key (kit.base64_decode x.hash)
                  kit.file_download_directory sys api doubles x.downloader s.disk event
                  fits.downloader asked e)
                (ap (react_all kit after) e)
          | asks r n e k ↦
              requests (request_packet kit after r) r (ap (react_all kit after) e) n
                (asked_lem after r) (requested_lem s after r refl)
          | gives_up code e k ↦
              let (commands, published, downloads) = failed_lem after key code in
              fails (download_failed kit after key code) code (ap (react_all kit after) e) commands
                (published ∙ told_lem s after key code refl)
                (over s key taken event (download_failed kit after key code) downloads)
          | saves bytes e content hash k ↦
              let path = sys.absolute_path (saved_at key) in
              let (commands, disk, downloads) = completed_lem after key path x.hash in
              delivers (download_completed kit after key path x.hash) bytes
                (ap (react_all kit after) e) commands
                (ap (λ d. sys.content d (saved_at key)) disk ∙ content) hash
                (over s key taken event (download_completed kit after key path x.hash) downloads)
        ]

  next_event_lem :
      (s : Service kit) (key : String) (x : Entry kit) (event : Event api Captured)
      (events : List (Event api Captured))
      → find kit key s.active_downloads ≡ some x
      → x.waiting ≡ event ∷ events
      → next_event kit s key ≡ happens kit s key (record x { waiting = events }) event
  unfolding next_event
  next_event_lem s key x event events e w = rw (e, w, next_event) refl

  -- When a service has started without downloads, and a new downloader has no callbacks, then however
  -- the threads interleave, a command of the downloader of an active file has one of five ends. It calls
  -- an empty function, which ends the process, and the downloader had no callbacks; or the service gets
  -- no command and nothing is published; or one packet of this file is requested; or the download fails,
  -- its error is published, the file list is to be sent and the entry is over; or the file is delivered:
  -- it lies in the download directory, its SHA-256 hash is the one that the entry was made with, the
  -- commands to store it under its name and that hash and to send the file list are pushed, and the
  -- entry is over.
  pub next_event-Delivery :
      (protocol : DownloadProtocol kit) (s : Service kit) (key : String) (x : Entry kit)
      (event : Event api Captured) (events : List (Event api Captured))
      → StartsCleared kit
      → Reach kit protocol s
      → find kit key s.active_downloads ≡ some x
      → x.waiting ≡ event ∷ events
      → Delivery s key x (next_event kit s key)
  next_event-Delivery protocol s key x event events blank r e w =
      let fits =
        find-EntryFits kit key x s.active_downloads (Reach-IsDedicated kit protocol blank r) e in
      let asked = subst (All _) w fits.waiting in
      subst (Delivery s key x) (sym (next_event_lem s key x event events e w))
        (happens-Delivery s key x event events fits asked.0)
