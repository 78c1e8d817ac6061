-- ===== src/FileDownloadService/Handlers.antt =====
-- The handlers of FileDownloadService.cpp: what the service does with the platform's commands, and
-- what its downloads do to it. `none` stands for a dereference of a null pointer.
pub mod Downloads
pub mod Aborts
pub mod Files
pub mod Entries
pub mod Dedication
pub mod Diversion
use wolk_connect_cpp.Base.{
  ℕ, String, Bool, true, false, Option, none, some, List, [], ◌∷◌, ◌++◌, ◌==◌, str_eq, is_empty,
  if◌then◌else◌,
}
use wolk_connect_cpp.Sdk.{
  FileTransferError, transfer_protocol_disabled, unspecified_error, file_hash_mismatch,
  file_system_error, file_transfer, aborted, file_ready,
}
use wolk_connect_cpp.Sdk.Connectivity.{Message}
use wolk_connect_cpp.FileDownloader.{Request}
use wolk_connect_cpp.FileDownloader.States.{Event, downloads, packet, aborts}
use wolk_connect_cpp.FileDownloadService
use wolk_connect_cpp.FileDownloadService.{
  Kit, Captured, Status, upload_status, upload_error, url_status, url_error, url_downloaded,
  FileUploadInitiate, Command, Entry, UrlCall, Service, find, assign, push, send_status,
  send_file_list, flag_completed_download,
}

-- protocol/json/JsonDownloadProtocol.h of the SDK.
pub record DownloadProtocol (kit : Kit) : Type 0 where
  pub make_binary_data : Message → Option kit.api.BinaryData
  pub make_file_upload_initiate : Message → Option FileUploadInitiate
  pub make_file_upload_abort : Message → Option String
  pub make_file_delete : Message → Option String
  pub is_file_purge : Message → Bool
  pub make_file_list_confirm : Message → Option String
  pub make_file_url_download_initiate : Message → Option String
  pub make_file_url_download_abort : Message → Option String

module _ (kit : Kit) where
  open kit use {api, sys, repo}

  module _ (protocol : DownloadProtocol kit) where
    unfoldable pub message_received : Service kit → Message → Service kit
    message_received s m = elim (protocol.make_binary_data m) [
      | some b ↦ push kit s (Command.handle_binary_data b)
      | none ↦ elim (protocol.make_file_upload_initiate m) [
        | some r ↦ push kit s (Command.handle_upload_initiate r)
        | none ↦ elim (protocol.make_file_upload_abort m) [
          | some name ↦ push kit s (Command.handle_upload_abort name)
          | none ↦ elim (protocol.make_file_delete m) [
            | some name ↦ push kit s (Command.handle_delete name)
            | none ↦
                if protocol.is_file_purge m
                then push kit s Command.handle_purge
                else elim (protocol.make_file_list_confirm m) [
                  | some confirmed ↦ s
                  | none ↦ elim (protocol.make_file_url_download_initiate m) [
                    | some url ↦ push kit s (Command.handle_url_initiate url)
                    | none ↦ elim (protocol.make_file_url_download_abort m) [
                      | some url ↦ push kit s (Command.handle_url_abort url)
                      | none ↦ s
                    ]
                  ]
                ]
          ]
        ]
      ]
    ]

  -- The command that a downloader is given is appended to its buffer.
  pub enqueue : Entry kit → Event api Captured → Entry kit
  enqueue e event = record e { waiting = e.waiting ++ event ∷ [] }

  unfoldable pub handle_binary_data : Service kit → api.BinaryData → Service kit
  unfolding find assign enqueue
  handle_binary_data s b = elim (find kit s.active_download s.active_downloads) [
    | none ↦ s
    | some e ↦ record s {
      active_downloads = assign kit s.active_download (enqueue e (packet b)) s.active_downloads;
    }
  ]

  request_of : FileUploadInitiate → Request Captured
  request_of r =
      let captured = some (record { file_name = r.name; file_hash = r.hash }) in
      record {
        file_name = r.name;
        file_size = r.size;
        file_hash = kit.base64_decode r.hash;
        download_directory = kit.file_download_directory;
        packet_provider = captured;
        on_success_callback = captured;
        on_fail_callback = captured;
      }

  -- A new downloader with its first command.
  pub new_entry : FileUploadInitiate → Entry kit
  unfolding request_of
  new_entry r = record {
    hash = r.hash;
    downloader = kit.new_downloader kit.max_packet_size;
    waiting = downloads (request_of r) ∷ [];
    flag = false;
  }

  pub download : Service kit → FileUploadInitiate → Service kit
  unfolding find assign send_status new_entry
  download s r = elim (find kit r.name s.active_downloads) [
    | some e ↦
        if str_eq e.hash r.hash
        then send_status kit s (upload_status r.name file_transfer)
        else send_status kit s (upload_error r.name unspecified_error)
    | none ↦
        let answered = send_status kit s (upload_status r.name file_transfer) in
        record answered {
          active_downloads = assign kit r.name (new_entry r) answered.active_downloads;
          active_download = r.name;
        }
  ]

  unfoldable pub handle_upload_initiate : Service kit → FileUploadInitiate → Service kit
  unfolding send_status download
  handle_upload_initiate s r =
      if kit.max_packet_size == 0
      then send_status kit s (upload_error r.name transfer_protocol_disabled)
      else if is_empty r.name
      then send_status kit s (upload_error r.name unspecified_error)
      else if r.size == 0
      then send_status kit s (upload_error r.name unspecified_error)
      else if is_empty r.hash
      then send_status kit s (upload_error r.name unspecified_error)
      else elim (repo.get_file_info s.repository r.name) [
        | none ↦ download s r
        | some info ↦
            if str_eq info.hash r.hash
            then send_status kit s (upload_status r.name file_ready)
            else send_status kit s (upload_error r.name file_hash_mismatch)
      ]

  abort_download : Service kit → String → Service kit
  unfolding find assign enqueue flag_completed_download send_status
  abort_download s name = elim (find kit name s.active_downloads) [
    | none ↦ s
    | some e ↦
        let told = record s {
          active_downloads = assign kit name (enqueue e aborts) s.active_downloads;
        } in
        let flagged = flag_completed_download kit told name in
        record (send_status kit flagged (upload_status name aborted)) { active_download = "" }
  ]

  pub handle_upload_abort : Service kit → String → Service kit
  unfolding abort_download send_status
  handle_upload_abort s name =
      if is_empty name
      then send_status kit s (upload_error name unspecified_error)
      else abort_download s name

  url_download : Service kit → String → Service kit
  url_download s url = record s {
    url_calls = s.url_calls ++ UrlCall.download_url url kit.file_download_directory ∷ [];
  }

  pub handle_url_initiate : Service kit → String → Service kit
  unfolding url_download send_status
  handle_url_initiate s url =
      if kit.url_file_downloader
      then if is_empty url
        then send_status kit s (url_error url unspecified_error)
        else url_download s url
      else send_status kit s (url_error url transfer_protocol_disabled)

  abort_url_download : Service kit → String → Service kit
  unfolding send_status
  abort_url_download s url =
      send_status kit (record s { url_calls = s.url_calls ++ UrlCall.abort_url url ∷ [] })
        (url_status url aborted)

  pub handle_url_abort : Service kit → String → Service kit
  unfolding abort_url_download send_status
  handle_url_abort s url =
      if kit.url_file_downloader
      then if is_empty url
        then send_status kit s (url_error url unspecified_error)
        else abort_url_download s url
      else send_status kit s (url_error url transfer_protocol_disabled)

  unfoldable pub delete_file : Service kit → String → Option (Service kit)
  unfolding send_file_list
  delete_file s name = elim (repo.get_file_info s.repository name) [
    | none ↦ none
    | some info ↦
        let (deleted, disk) = sys.delete_file s.disk info.path in
        let after = record s { disk = disk } in
        if deleted
        then some
            (send_file_list kit (record after { repository = repo.remove after.repository name }))
        else some (send_file_list kit after)
  ]

  unfoldable pub handle_delete : Service kit → String → Option (Service kit)
  unfolding delete_file send_file_list
  handle_delete s name = if is_empty name then some (send_file_list kit s) else delete_file s name

  -- The loop of purgeFiles.
  purge_names : sys.Disk → repo.Repository → List String → sys.Disk × repo.Repository
  purge_names disk r [] = (disk, r)
  purge_names disk r (name ∷ names) = elim (repo.get_file_info r name) [
    | none ↦ purge_names disk r names
    | some info ↦
        let (deleted, disk') = sys.delete_file disk info.path in
        purge_names disk' (if deleted then repo.remove r name else r) names
  ]

  pub purge_files : Service kit → Service kit
  unfolding purge_names send_file_list
  purge_files s = elim (repo.get_all_file_names s.repository) [
    | none ↦ send_file_list kit s
    | some names ↦
        let (disk, repository) = purge_names s.disk s.repository names in
        send_file_list kit (record s { disk = disk; repository = repository })
  ]

  unfoldable pub download_completed : Service kit → String → String → String → Service kit
  unfolding flag_completed_download send_file_list
  download_completed s name path hash =
      send_file_list kit
        (push kit (flag_completed_download kit s name) (Command.store_downloaded name path hash))

  unfoldable pub download_failed : Service kit → String → FileTransferError → Service kit
  unfolding flag_completed_download send_status send_file_list
  download_failed s name code =
      send_file_list kit
        (send_status kit (flag_completed_download kit s name) (upload_error name code))

  pub url_download_completed : Service kit → String → String → String → Service kit
  unfolding send_file_list
  url_download_completed s url name path =
      send_file_list kit (push kit s (Command.store_url_downloaded url name path))

  pub url_download_failed : Service kit → String → FileTransferError → Service kit
  unfolding send_status send_file_list
  url_download_failed s url code = send_file_list kit (send_status kit s (url_error url code))

  -- The command that downloadCompleted pushes.
  unfoldable pub store_downloaded : Service kit → String → String → String → Service kit
  unfolding send_status
  store_downloaded s name path hash =
      send_status kit
        (record s {
          repository = repo.store s.repository (record { name = name; hash = hash; path = path });
        })
        (upload_status name file_ready)

  -- The command that urlDownloadCompleted pushes.
  pub store_url_downloaded : Service kit → String → String → String → Service kit
  unfolding send_status
  store_url_downloaded s url name path = elim (sys.content s.disk path) [
    | none ↦
        send_status kit (record s { disk = (sys.delete_file s.disk path).1 })
          (url_error url file_system_error)
    | some bytes ↦
        send_status kit
          (record s {
            repository = repo.store s.repository (record {
              name = name;
              hash = kit.base64_encode (sys.hash_sha256 bytes);
              path = path;
            });
          })
          (url_downloaded url name)
  ]

  -- One pass of the loop of clearDownloads.
  pub clear_downloads : List (String × Entry kit) → List (String × Entry kit)
  clear_downloads [] = []
  clear_downloads ((k, e) ∷ es) =
      let rest = clear_downloads es in if e.flag then rest else (k, e) ∷ rest
