-- ===== src/FileDownloadService/Execution/Integrity.antt =====
-- What becomes of a download that ends well: downloadCompleted and the command that it pushes.
use wolk_connect_cpp.Base.{
  String, Option, some, List, [], ◌∷◌, ◌++◌, ◌≡◌, ◌∙◌, ByteArray, refl, ap, sym, subst, arith, true,
}
use wolk_connect_cpp.Sdk.{file_ready}
use wolk_connect_cpp.FileDownloader.States.{Event}
use wolk_connect_cpp.FileDownloadService.{
  Kit, Captured, Command, Entry, Service, find, upload_status, send_status,
}
use wolk_connect_cpp.FileDownloadService.Handlers.{DownloadProtocol, store_downloaded}
use wolk_connect_cpp.FileDownloadService.Handlers.Entries.{StartsCleared}
use wolk_connect_cpp.FileDownloadService.Execution.{next_command, execute, next_event}
use wolk_connect_cpp.FileDownloadService.Execution.Interleavings.{Reach}
use wolk_connect_cpp.FileDownloadService.Execution.Deliveries.{
  saved_at, IsOver, Delivery, process_ends, waits, requests, fails, delivers, next_event-Delivery,
}

module _ (kit : Kit) where
  open kit use {api, sys, repo}

  -- From `s` to `s'` the file of an entry is stored.
  pub record StoresVerified (s : Service kit) (key : String) (x : Entry kit) (s' : Service kit)
      : Type 0 where
    pub repository :
        s'.repository
        ≡ repo.store s.repository
            (record { name = key; hash = x.hash; path = sys.absolute_path (saved_at kit key) })
    pub verified :
        (bytes : ByteArray) × (sys.content s'.disk (saved_at kit key) ≡ some bytes)
        × (sys.hash_sha256 bytes ≡ kit.base64_decode x.hash)
    pub published : s'.published ≡ (send_status kit s (upload_status key file_ready)).published
    pub commands : s'.commands ≡ Command.send_file_list_update ∷ []
    pub over : IsOver kit s' key

  store_same :
      (s : Service kit) (name path hash : String)
      → ((store_downloaded kit s name path hash).disk ≡ s.disk)
        × ((store_downloaded kit s name path hash).active_downloads ≡ s.active_downloads)
  unfolding store_downloaded send_status
  store_same s name path hash = (ground arith, ground arith)

  store_command :
      (s : Service kit) (key : String) (x : Entry kit) (bytes : ByteArray)
      → s.commands
        ≡ Command.store_downloaded key (sys.absolute_path (saved_at kit key)) x.hash
          ∷ Command.send_file_list_update
          ∷ []
      → sys.content s.disk (saved_at kit key) ≡ some bytes
      → sys.hash_sha256 bytes ≡ kit.base64_decode x.hash
      → IsOver kit s key
      → (s' : Service kit) × (next_command kit s ≡ some s') × StoresVerified s key x s'
  unfolding next_command execute store_downloaded send_status
  store_command s key x bytes c content hash over =
      let path = sys.absolute_path (saved_at kit key) in
      let waiting : Service kit = record s { commands = Command.send_file_list_update ∷ [] } in
      let (disk, downloads) = store_same waiting key path x.hash in
      (
        store_downloaded kit waiting key path x.hash,
        rw (c, next_command) refl,
        record {
          repository = ground arith;
          verified = (bytes, ap (λ d. sys.content d (saved_at kit key)) disk ∙ content, hash);
          published = ground arith;
          commands = ground arith;
          over =
              subst (λ es. (y : Entry kit) × (find kit key es ≡ some y) × (y.flag ≡ true))
                (sym downloads) over;
        },
      )

  stored_after :
      (s s' : Service kit) (key : String) (x : Entry kit) (o : Option (Service kit))
      (name path hash : String) (rest : List (Command kit))
      → s.commands ≡ []
      → o ≡ some s'
      → s'.commands ≡ Command.store_downloaded name path hash ∷ rest
      → Delivery kit s key x o
      → (s'' : Service kit) × (next_command kit s' ≡ some s'') × StoresVerified s' key x s''
  stored_after s s' key x o name path hash rest n e c (process_ends k e1) = absurd (cc)
  stored_after s s' key x o name path hash rest n e c (waits t e1 k p) = absurd (cc)
  stored_after s s' key x o name path hash rest n e c (requests t r e1 m k p) = absurd (cc)
  stored_after s s' key x o name path hash rest n e c (fails t code e1 k p v) =
      absurd (ground arith)
  stored_after s s' key x o name path hash rest n e c (delivers t bytes e1 k content h v) =
      let same : t ≡ s' = cc (sym e1 ∙ e) in
      subst
        (λ u. (s'' : Service kit) × (next_command kit u ≡ some s'') × StoresVerified u key x s'')
        same
        (store_command t key x bytes
          (k
            ∙ ap
                (λ cs.
                  (cs
                    ++ Command.store_downloaded key (sys.absolute_path (saved_at kit key)) x.hash
                      ∷ [])
                  ++ Command.send_file_list_update ∷ [])
                n)
          content h v)

  -- When a service has started without downloads, and a new downloader has no callbacks, then however
  -- the threads interleave: where a command of the downloader of an active file, with no command of the
  -- service waiting, makes a command to store a download the first one, that command runs without a
  -- fault. It stores in the repository the name of this file, the hash that its entry was made with and
  -- the path in the download directory; the bytes at that place have that SHA-256 hash; FILE_READY is
  -- published for the file, the file list is still to be sent, and the entry is over.
  pub delivered-IsStored :
      (protocol : DownloadProtocol kit) (s s' : Service kit) (key : String) (x : Entry kit)
      (event : Event api Captured) (events : List (Event api Captured)) (name path hash : String)
      (rest : List (Command kit))
      → StartsCleared kit
      → Reach kit protocol s
      → find kit key s.active_downloads ≡ some x
      → x.waiting ≡ event ∷ events
      → s.commands ≡ []
      → next_event kit s key ≡ some s'
      → s'.commands ≡ Command.store_downloaded name path hash ∷ rest
      → (s'' : Service kit) × (next_command kit s' ≡ some s'') × StoresVerified s' key x s''
  delivered-IsStored protocol s s' key x event events name path hash rest blank r e w n next c =
      stored_after s s' key x (next_event kit s key) name path hash rest n next c
        (next_event-Delivery kit protocol s key x event events blank r e w)
