-- ===== src/FileDownloadService/Handlers/Downloads.antt =====
-- When FileDownloadService.cpp starts a download, and what it answers.
use wolk_connect_cpp.Base.{
  String, Bool, not, ◌&&◌, some, ◌≡◌, ◌==◌, refl, inl, inr, arith, str_eq, is_empty, is_some,
  if◌then◌else◌, Option-cases,
}
use wolk_connect_cpp.Sdk.{
  file_transfer, file_ready, transfer_protocol_disabled, unspecified_error, file_hash_mismatch,
}
use wolk_connect_cpp.FileDownloadService.{
  Kit, FileUploadInitiate, Service, Status, upload_status, upload_error, find, send_status,
  find-assign,
}
use wolk_connect_cpp.FileDownloadService.Handlers.{new_entry, download, handle_upload_initiate}

module _ (kit : Kit) where
  open kit use {repo}

  -- What a message that is published changes.
  pub send_status-active_downloads :
      (s : Service kit) (status : Status)
      → (send_status kit s status).active_downloads ≡ s.active_downloads
  unfolding send_status
  send_status-active_downloads s status =
      elim (Option-cases (kit.make_status_message kit.device_key status)) [
        | inl e ↦ rw e refl
        | inr (m, e) ↦ rw e refl
      ]

  -- The request is complete, its file is unknown, and no download of it is active.
  abbrev pub accepts : Service kit → FileUploadInitiate → Bool
  accepts s r =
      not (kit.max_packet_size == 0)
      && (not (is_empty r.name)
          && (not (r.size == 0)
              && (not (is_empty r.hash)
                  && (not (is_some (repo.get_file_info s.repository r.name))
                      && not (is_some (find kit r.name s.active_downloads))))))

  download-find :
      (s : Service kit) (r : FileUploadInitiate) (key : String)
      → find kit key (download kit s r).active_downloads ≡ (
          if not (is_some (find kit r.name s.active_downloads)) && str_eq r.name key
          then some (new_entry kit r)
          else find kit key s.active_downloads)
  unfolding download
  download-find s r key =
      let told = send_status kit s (upload_status r.name file_transfer) in
      elim (Option-cases (find kit r.name s.active_downloads)) [
        | inl e ↦
            rw (e, download, send_status-active_downloads s (upload_status r.name file_transfer))
              (find-assign kit r.name key (new_entry kit r) s.active_downloads)
        | inr (x, e) ↦
            rw (e, download)
              (ground (
                arith,
                send_status-active_downloads s (upload_status r.name file_transfer),
                send_status-active_downloads s (upload_error r.name unspecified_error),
              ))
      ]

  -- An upload command changes the active downloads exactly when it is accepted (the transfer is
  -- enabled, its name, size and hash are given, the repository has no info of the file and no download
  -- of that name is active); then the new download, unflagged, with one command to start it, is the
  -- only change.
  pub upload_initiate-find :
      (s : Service kit) (r : FileUploadInitiate) (key : String)
      → find kit key (handle_upload_initiate kit s r).active_downloads ≡ (
          if accepts s r && str_eq r.name key
          then some (new_entry kit r)
          else find kit key s.active_downloads)
  unfolding handle_upload_initiate
  upload_initiate-find s r key = ground (
    arith,
    download-find s r key,
    send_status-active_downloads s (upload_error r.name transfer_protocol_disabled),
    send_status-active_downloads s (upload_error r.name unspecified_error),
    send_status-active_downloads s (upload_error r.name file_hash_mismatch),
    send_status-active_downloads s (upload_status r.name file_ready),
  )
