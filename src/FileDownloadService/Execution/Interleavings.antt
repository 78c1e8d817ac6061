-- ===== src/FileDownloadService/Execution/Interleavings.antt =====
-- Every order in which the threads of FileDownloadService.cpp can run, and what it keeps.
use wolk_connect_cpp.Base.{
  String, some, List, [], ◌∷◌, ◌≡◌, ◌⊎◌, arith, subst, Option-cases, All, inl, inr, sym, refl,
}
use wolk_connect_cpp.Sdk.{FileTransferError}
use wolk_connect_cpp.Sdk.Connectivity.{Message}
use wolk_connect_cpp.FileDownloader.States.{timer_ends}
use wolk_connect_cpp.FileDownloadService.{Kit, Command, Service, find, send_file_list}
use wolk_connect_cpp.FileDownloadService.FileList.{
  send_file_list_now, send_file_list_now-active_downloads,
}
use wolk_connect_cpp.FileDownloadService.Handlers.{
  DownloadProtocol, message_received, url_download_completed, url_download_failed,
  handle_url_initiate, handle_url_abort, purge_files, store_downloaded, store_url_downloaded,
}
use wolk_connect_cpp.FileDownloadService.Handlers.Entries.{
  EntriesFit, find-EntryFits, clear_downloads-EntriesFit, IsDedicated, StartsCleared, by_Keeps,
}
use wolk_connect_cpp.FileDownloadService.Handlers.Dedication.{
  handle_binary_data-IsDedicated, upload_initiate-IsDedicated, upload_abort-IsDedicated,
  store_downloaded-Keeps, store_url_downloaded-Keeps, purge_files-Keeps, url_initiate-Keeps,
  url_abort-Keeps, handle_delete-Keeps, message_received-Keeps, url_download_completed-Keeps,
  url_download_failed-Keeps, send_file_list-Keeps,
}
use wolk_connect_cpp.FileDownloadService.Execution.{
  execute, next_command, next_event, timer_event, collect,
}
use wolk_connect_cpp.FileDownloadService.Execution.Reactions.{the_same, happens-IsDedicated}

-- What can happen to the service next: a message of the platform, a request for the file list, a
-- command, a command or the timer of a downloader, a pass of the collector, a call of the url downloader.
pub data Step (kit : Kit) (protocol : DownloadProtocol kit) (s : Service kit)
    : Service kit → Type 0 where
  message : (m : Message) → Step kit protocol s (message_received kit protocol s m)
  list_wanted : Step kit protocol s (send_file_list kit s)
  command : {s' : Service kit} → next_command kit s ≡ some s' → Step kit protocol s s'
  downloader :
      {s' : Service kit} (key : String) → next_event kit s key ≡ some s' → Step kit protocol s s'
  timer :
      {s' : Service kit} (key : String) → timer_event kit s key ≡ some s' → Step kit protocol s s'
  collector : Step kit protocol s (collect kit s)
  url_completed :
      (url name path : String) → Step kit protocol s (url_download_completed kit s url name path)
  url_failed :
      (url : String) (code : FileTransferError)
      → Step kit protocol s (url_download_failed kit s url code)

-- The services that start without downloads.
pub data Reach (kit : Kit) (protocol : DownloadProtocol kit) : Service kit → Type 0 where
  starts : {s : Service kit} → s.active_downloads ≡ [] → Reach kit protocol s
  goes :
      {s s' : Service kit} → Reach kit protocol s → Step kit protocol s s' → Reach kit protocol s'

module _ (kit : Kit) where
  open kit use {api, sys, doubles}

  execute-IsDedicated :
      (s s' : Service kit) (c : Command kit)
      → StartsCleared kit
      → IsDedicated kit s
      → execute kit s c ≡ some s'
      → IsDedicated kit s'
  unfolding execute
  execute-IsDedicated s s' (Command.handle_binary_data b) blank f e =
      the_same kit _ s' refl e (handle_binary_data-IsDedicated kit s b f)
  execute-IsDedicated s s' (Command.handle_upload_initiate r) blank f e =
      the_same kit _ s' refl e (upload_initiate-IsDedicated kit s r blank f)
  execute-IsDedicated s s' (Command.handle_upload_abort name) blank f e =
      the_same kit _ s' refl e (upload_abort-IsDedicated kit s name f)
  execute-IsDedicated s s' (Command.handle_delete name) blank f e =
      by_Keeps kit s s' (handle_delete-Keeps kit s s' name e) f
  execute-IsDedicated s s' Command.handle_purge blank f e =
      the_same kit (purge_files kit s) s' refl e
        (by_Keeps kit s (purge_files kit s) (purge_files-Keeps kit s) f)
  execute-IsDedicated s s' (Command.handle_url_initiate url) blank f e =
      the_same kit (handle_url_initiate kit s url) s' refl e
        (by_Keeps kit s (handle_url_initiate kit s url) (url_initiate-Keeps kit s url) f)
  execute-IsDedicated s s' (Command.handle_url_abort url) blank f e =
      the_same kit (handle_url_abort kit s url) s' refl e
        (by_Keeps kit s (handle_url_abort kit s url) (url_abort-Keeps kit s url) f)
  execute-IsDedicated s s' Command.send_file_list_update blank f e =
      the_same kit (send_file_list_now kit s) s' refl e
        (by_Keeps kit s (send_file_list_now kit s) (send_file_list_now-active_downloads kit s) f)
  execute-IsDedicated s s' (Command.store_downloaded name path hash) blank f e =
      the_same kit (store_downloaded kit s name path hash) s' refl e (
        by_Keeps kit s (store_downloaded kit s name path hash)
          (store_downloaded-Keeps kit s name path hash) f)
  execute-IsDedicated s s' (Command.store_url_downloaded url name path) blank f e =
      the_same kit (store_url_downloaded kit s url name path) s' refl e (
        by_Keeps kit s (store_url_downloaded kit s url name path)
          (store_url_downloaded-Keeps kit s url name path) f)

  pub List-cases :
      {A : Type 0} (xs : List A) → (xs ≡ []) ⊎ ((y : A) × (ys : List A) × (xs ≡ y ∷ ys))
  List-cases [] = inl refl
  List-cases (y ∷ ys) = inr (y, ys, refl)

  next_command-IsDedicated :
      (s s' : Service kit)
      → StartsCleared kit
      → IsDedicated kit s
      → next_command kit s ≡ some s'
      → IsDedicated kit s'
  unfolding next_command
  next_command-IsDedicated s s' blank f e = elim (List-cases s.commands) [
    | inl q ↦ the_same kit s s' (ground arith) e f
    | inr (c, cs, q) ↦
        execute-IsDedicated (record s { commands = cs }) s' c blank f (rw (q, next_command) at e)
  ]

  next_event-IsDedicated :
      (s s' : Service kit) (key : String)
      → IsDedicated kit s
      → next_event kit s key ≡ some s'
      → IsDedicated kit s'
  unfolding next_event
  next_event-IsDedicated s s' key f e = elim (Option-cases (find kit key s.active_downloads)) [
    | inl q ↦ the_same kit s s' (rw (q, next_event) refl) e f
    | inr (x, q) ↦
        let fits = find-EntryFits kit key x s.active_downloads f q in
        elim (List-cases x.waiting) [
          | inl empty ↦ the_same kit s s' (rw (q, empty, next_event) refl) e f
          | inr (event, events, w) ↦
              let asked = subst (All _) w fits.waiting in
              happens-IsDedicated kit s s' key (record x { waiting = events }) event f
                (record { downloader = fits.downloader; waiting = asked.1 }) asked.0
                (rw (q, w, next_event) at e)
        ]
  ]

  timer_event-IsDedicated :
      (s s' : Service kit) (key : String)
      → IsDedicated kit s
      → timer_event kit s key ≡ some s'
      → IsDedicated kit s'
  unfolding timer_event
  timer_event-IsDedicated s s' key f e = elim (Option-cases (find kit key s.active_downloads)) [
    | inl q ↦ the_same kit s s' (rw (q, timer_event) refl) e f
    | inr (x, q) ↦
        happens-IsDedicated kit s s' key x timer_ends f
          (find-EntryFits kit key x s.active_downloads f q) tt (rw (q, timer_event) at e)
  ]

  module _ (protocol : DownloadProtocol kit) (blank : StartsCleared kit) where
    invariance :
        (s s' : Service kit) → IsDedicated kit s → Step kit protocol s s' → IsDedicated kit s'
    unfolding collect
    invariance s s' f (message m) =
        by_Keeps kit s (message_received kit protocol s m) (message_received-Keeps kit protocol s m)
          f
    invariance s s' f list_wanted =
        by_Keeps kit s (send_file_list kit s) (send_file_list-Keeps kit s) f
    invariance s s' f (command e) = next_command-IsDedicated s s' blank f e
    invariance s s' f (downloader key e) = next_event-IsDedicated s s' key f e
    invariance s s' f (timer key e) = timer_event-IsDedicated s s' key f e
    invariance s s' f collector = clear_downloads-EntriesFit kit s.active_downloads f
    invariance s s' f (url_completed url name path) =
        by_Keeps kit s (url_download_completed kit s url name path)
          (url_download_completed-Keeps kit s url name path) f
    invariance s s' f (url_failed url code) =
        by_Keeps kit s (url_download_failed kit s url code)
          (url_download_failed-Keeps kit s url code) f

    -- However the threads interleave, the downloader of each entry and the commands that wait for it are
    -- for the file of the entry's key, with the entry's hash.
    pub Reach-IsDedicated : {s : Service kit} → Reach kit protocol s → IsDedicated kit s
    Reach-IsDedicated (starts e) = subst (EntriesFit kit) (sym e) tt
    Reach-IsDedicated (goes {s} {s'} r e) = invariance s s' (Reach-IsDedicated r) e
