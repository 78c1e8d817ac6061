-- ===== src/FileDownloadService.antt =====
-- src/service/file/FileDownloadService.h and FileDownloadService.cpp: the platform's commands on the
-- files of the device. The commands that the service pushes into its command buffer are data; each
-- entry of the map of active downloads has the commands that wait in its downloader's buffer.
pub mod FileList
pub mod Handlers
pub mod Execution
pub mod Collector
pub mod Tests
use wolk_connect_cpp.Base.{
  ℕ, String, Bool, true, false, Option, none, some, List, [], ◌∷◌, ◌++◌, ByteArray, str_eq, ◌≡◌,
  refl, str_eq_iff, arith, if◌then◌else◌,
}
use wolk_connect_cpp.Sdk.{
  BinaryDataApi, FileSystem, Doubles, FileTransferError, FileTransferStatus, FilePacketRequest,
}
use wolk_connect_cpp.Sdk.Connectivity.{Message}
use wolk_connect_cpp.FileRepository.{FileRepository}
use wolk_connect_cpp.FileDownloader.{FileDownloader}
use wolk_connect_cpp.FileDownloader.States.{Event}

-- model/FileUploadStatus.h and FileUrlDownloadStatus.h, as far as the service builds them.
pub data Status : Type 0 where
  upload_status : String → FileTransferStatus → Status
  upload_error : String → FileTransferError → Status
  url_status : String → FileTransferStatus → Status
  url_error : String → FileTransferError → Status
  -- The url and the name of the file.
  url_downloaded : String → String → Status

-- What the callbacks of a download capture.
pub record Captured : Type 0 where
  pub file_name : String
  pub file_hash : String

-- What the service is built with, and the parts of the SDK that it uses.
pub record Kit : Type 1 where
  pub api : BinaryDataApi
  pub sys : FileSystem
  pub doubles : Doubles
  pub repo : FileRepository
  pub device_key : String
  pub file_download_directory : String
  pub max_packet_size : ℕ
  -- Whether a UrlFileDownloader was given.
  pub url_file_downloader : Bool
  pub base64_encode : ByteArray → String
  pub base64_decode : String → ByteArray
  -- What FileDownloader(maxPacketSize) makes: its numbers are not set before the first command.
  pub new_downloader : ℕ → FileDownloader Captured
  pub make_status_message : String → Status → Option Message
  pub make_file_list_update_message : String → List String → Option Message
  pub make_packet_request_message : String → FilePacketRequest → Option Message

-- model/FileUploadInitiate.h
pub record FileUploadInitiate : Type 0 where
  pub name : String
  pub size : ℕ
  pub hash : String

module _ (kit : Kit) where
  open kit use {api, sys, repo}

  -- The commands that the service pushes into its own command buffer.
  pub data Command : Type 0 where
    handle_binary_data : api.BinaryData → Command
    handle_upload_initiate : FileUploadInitiate → Command
    handle_upload_abort : String → Command
    handle_delete : String → Command
    handle_purge : Command
    handle_url_initiate : String → Command
    handle_url_abort : String → Command
    send_file_list_update : Command
    -- The lambdas of downloadCompleted and of urlDownloadCompleted.
    store_downloaded : String → String → String → Command
    store_url_downloaded : String → String → String → Command

  -- A value of m_activeDownloads: the hash, the downloader with its waiting commands, the flag.
  pub record Entry : Type 0 where
    pub hash : String
    pub downloader : FileDownloader Captured
    pub waiting : List (Event api Captured)
    pub flag : Bool

  -- A call of the UrlFileDownloader.
  pub data UrlCall : Type 0 where
    download_url : String → String → UrlCall
    abort_url : String → UrlCall

  pub record Service : Type 0 where
    pub active_download : String
    pub active_downloads : List (String × Entry)
    pub commands : List Command
    pub repository : repo.Repository
    pub disk : sys.Disk
    -- The messages given to the connection, oldest first; their results are not used.
    pub published : List Message
    pub url_calls : List UrlCall

  -- m_activeDownloads.find
  pub find : String → List (String × Entry) → Option Entry
  find key [] = none
  find key ((k, e) ∷ es) = if str_eq k key then some e else find key es

  -- m_activeDownloads[key] = entry, where the key is new or old.
  pub assign : String → Entry → List (String × Entry) → List (String × Entry)
  assign key entry [] = (key, entry) ∷ []
  assign key entry ((k, e) ∷ es) =
      if str_eq k key then (k, entry) ∷ es else (k, e) ∷ assign key entry es

  abbrev pub push : Service → Command → Service
  push s c = record s { commands = s.commands ++ c ∷ [] }

  abbrev publish : Service → Option Message → Service
  publish s none = s
  publish s (some m) = record s { published = s.published ++ m ∷ [] }

  pub send_status : Service → Status → Service
  send_status s status = publish s (kit.make_status_message kit.device_key status)

  pub send_file_list : Service → Service
  send_file_list s = push s send_file_list_update

  pub request_packet : Service → FilePacketRequest → Service
  request_packet s r = publish s (kit.make_packet_request_message kit.device_key r)

  pub flag_completed_download : Service → String → Service
  unfolding find assign
  flag_completed_download s key = elim (find key s.active_downloads) [
    | none ↦ s
    | some e ↦ record s {
      active_downloads = assign key (record e { flag = true }) s.active_downloads;
    }
  ]

  pub find-assign :
      (key j : String) (e : Entry) (es : List (String × Entry))
      → find j (assign key e es) ≡ (if str_eq key j then some e else find j es)
  unfolding find assign
  find-assign key j e [] = refl
  find-assign key j e ((k, x) ∷ es) =
      ground (arith, find-assign key j e es, str_eq_iff k key, str_eq_iff k j, str_eq_iff key j)
