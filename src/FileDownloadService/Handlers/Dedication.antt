-- ===== src/FileDownloadService/Handlers/Dedication.antt =====
-- Each handler of FileDownloadService.cpp keeps every downloader at the file of its key.
use wolk_connect_cpp.Base.{
  ◌≡◌, String, some, arith, is_empty, Bool-cases, Option-cases, inl, inr, subst, sym, refl,
  if◌then◌else◌,
}
use wolk_connect_cpp.Sdk.{FileTransferError, FilePacketRequest, aborted, unspecified_error}
use wolk_connect_cpp.Sdk.Connectivity.{Message}
use wolk_connect_cpp.FileDownloader.States.{packet, aborts}
use wolk_connect_cpp.FileDownloadService.{
  Kit, Service, upload_status, upload_error, url_error, FileUploadInitiate, find, assign,
  send_status, send_file_list, request_packet, flag_completed_download,
}
use wolk_connect_cpp.FileDownloadService.Handlers.Downloads.{accepts}
use wolk_connect_cpp.FileDownloadService.Handlers.{
  DownloadProtocol, message_received, enqueue, handle_binary_data, new_entry, download,
  handle_upload_initiate, abort_download, handle_upload_abort, handle_delete, delete_file,
  purge_files, handle_url_initiate, handle_url_abort, url_download, abort_url_download,
  download_completed, download_failed, url_download_completed, url_download_failed,
  store_downloaded, store_url_downloaded,
}
use wolk_connect_cpp.FileDownloadService.Handlers.Entries.{
  EntriesFit, find-EntryFits, assign-EntriesFit, EntriesFit-if, IsDedicated, flag-IsDedicated,
  enqueue-EntryFits, send_status-Keeps, new_entry-EntryFits, Keeps, by_Keeps, StartsCleared,
}

module _ (kit : Kit) where
  pub handle_binary_data-IsDedicated :
      (s : Service kit) (b : kit.api.BinaryData)
      → IsDedicated kit s
      → IsDedicated kit (handle_binary_data kit s b)
  unfolding handle_binary_data
  handle_binary_data-IsDedicated s b f =
      elim (Option-cases (find kit s.active_download s.active_downloads)) [
        | inl e ↦ rw (e, handle_binary_data) f
        | inr (x, e) ↦
            rw (e, handle_binary_data)
              (assign-EntriesFit kit s.active_download (enqueue kit x (packet b)) s.active_downloads
                (enqueue-EntryFits kit s.active_download x (packet b) tt
                  (find-EntryFits kit s.active_download x s.active_downloads f e))
                f)
      ]

  upload_initiate-active_downloads :
      (s : Service kit) (r : FileUploadInitiate)
      → (handle_upload_initiate kit s r).active_downloads ≡ (
          if accepts kit s r
          then assign kit r.name (new_entry kit r) s.active_downloads
          else s.active_downloads)
  unfolding handle_upload_initiate download send_status
  upload_initiate-active_downloads s r = ground arith

  pub upload_initiate-IsDedicated :
      (s : Service kit) (r : FileUploadInitiate)
      → StartsCleared kit
      → IsDedicated kit s
      → IsDedicated kit (handle_upload_initiate kit s r)
  upload_initiate-IsDedicated s r blank f =
      subst (EntriesFit kit) (sym (upload_initiate-active_downloads s r)) (
        EntriesFit-if kit (accepts kit s r) (assign kit r.name (new_entry kit r) s.active_downloads)
          s.active_downloads
          (λ accepted.
            assign-EntriesFit kit r.name (new_entry kit r) s.active_downloads
              (new_entry-EntryFits kit r blank) f)
          f)

  abort_download-IsDedicated :
      (s : Service kit) (name : String)
      → IsDedicated kit s
      → IsDedicated kit (abort_download kit s name)
  unfolding abort_download
  abort_download-IsDedicated s name f = elim (Option-cases (find kit name s.active_downloads)) [
    | inl e ↦ rw (e, abort_download) f
    | inr (x, e) ↦
        let told : Service kit = record s {
          active_downloads = assign kit name (enqueue kit x aborts) s.active_downloads;
        } in
        let flagged = flag_completed_download kit told name in
        rw (e, abort_download)
          (by_Keeps kit flagged (send_status kit flagged (upload_status name aborted))
            (send_status-Keeps kit flagged (upload_status name aborted))
            (flag-IsDedicated kit told name (
              assign-EntriesFit kit name (enqueue kit x aborts) s.active_downloads
                (enqueue-EntryFits kit name x aborts tt
                  (find-EntryFits kit name x s.active_downloads f e))
                f)))
  ]

  pub upload_abort-IsDedicated :
      (s : Service kit) (name : String)
      → IsDedicated kit s
      → IsDedicated kit (handle_upload_abort kit s name)
  unfolding handle_upload_abort
  upload_abort-IsDedicated s name f = elim (Bool-cases (is_empty name)) [
    | inl e ↦ rw e (
        by_Keeps kit s (send_status kit s (upload_error name unspecified_error))
          (send_status-Keeps kit s (upload_error name unspecified_error)) f)
    | inr e ↦ rw e (abort_download-IsDedicated s name f)
  ]

  -- The other commands leave the downloads as they are.
  pub store_downloaded-Keeps :
      (s : Service kit) (name path hash : String)
      → Keeps kit s (store_downloaded kit s name path hash)
  unfolding store_downloaded send_status
  store_downloaded-Keeps s name path hash = ground arith

  pub store_url_downloaded-Keeps :
      (s : Service kit) (url name path : String)
      → Keeps kit s (store_url_downloaded kit s url name path)
  unfolding store_url_downloaded send_status
  store_url_downloaded-Keeps s url name path = ground arith

  pub purge_files-Keeps : (s : Service kit) → Keeps kit s (purge_files kit s)
  unfolding purge_files send_file_list
  purge_files-Keeps s = ground arith

  pub url_initiate-Keeps :
      (s : Service kit) (url : String) → Keeps kit s (handle_url_initiate kit s url)
  unfolding handle_url_initiate url_download send_status
  url_initiate-Keeps s url = ground arith

  pub url_abort-Keeps : (s : Service kit) (url : String) → Keeps kit s (handle_url_abort kit s url)
  unfolding handle_url_abort abort_url_download send_status
  url_abort-Keeps s url = ground arith

  pub handle_delete-Keeps :
      (s s' : Service kit) (name : String) → handle_delete kit s name ≡ some s' → Keeps kit s s'
  unfolding handle_delete delete_file send_file_list
  handle_delete-Keeps s s' name e = ground arith

  pub message_received-Keeps :
      (protocol : DownloadProtocol kit) (s : Service kit) (m : Message)
      → Keeps kit s (message_received kit protocol s m)
  unfolding message_received
  message_received-Keeps protocol s m = ground arith

  -- The callbacks of a download.
  pub download_completed-IsDedicated :
      (s : Service kit) (name path hash : String)
      → IsDedicated kit s
      → IsDedicated kit (download_completed kit s name path hash)
  unfolding download_completed send_file_list
  download_completed-IsDedicated s name path hash f = flag-IsDedicated kit s name f

  pub download_failed-IsDedicated :
      (s : Service kit) (name : String) (code : FileTransferError)
      → IsDedicated kit s
      → IsDedicated kit (download_failed kit s name code)
  unfolding download_failed send_file_list
  download_failed-IsDedicated s name code f =
      by_Keeps kit (flag_completed_download kit s name)
        (send_status kit (flag_completed_download kit s name) (upload_error name code))
        (send_status-Keeps kit (flag_completed_download kit s name) (upload_error name code))
        (flag-IsDedicated kit s name f)

  pub request_packet-Keeps :
      (s : Service kit) (r : FilePacketRequest) → Keeps kit s (request_packet kit s r)
  unfolding request_packet
  request_packet-Keeps s r = ground arith

  pub send_file_list-Keeps : (s : Service kit) → Keeps kit s (send_file_list kit s)
  unfolding send_file_list
  send_file_list-Keeps s = refl

  pub url_download_completed-Keeps :
      (s : Service kit) (url name path : String)
      → Keeps kit s (url_download_completed kit s url name path)
  unfolding url_download_completed send_file_list
  url_download_completed-Keeps s url name path = refl

  pub url_download_failed-Keeps :
      (s : Service kit) (url : String) (code : FileTransferError)
      → Keeps kit s (url_download_failed kit s url code)
  unfolding url_download_failed send_file_list
  url_download_failed-Keeps s url code = send_status-Keeps kit s (url_error url code)
