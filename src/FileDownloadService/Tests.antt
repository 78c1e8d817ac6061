-- ===== src/FileDownloadService/Tests.antt =====
-- FileDownloadService on a concrete device.
use wolk_connect_cpp.Base.{
  IsAscending, String, ℕ, ◌≡◌, refl, ◌&&◌, ◌||◌, true, false, none, some, [], ◌∷◌, is_some, str_eq,
  str_eq_iff, arith, if◌then◌else◌,
}
use wolk_connect_cpp.Samples.{
  first_packet, second_packet, sample_api, sample_sys, sample_doubles, sample_repo, empty_disk,
  erase, write,
}
use wolk_connect_cpp.Sdk.{FileSystem, file_transfer}
use wolk_connect_cpp.Sdk.Connectivity.{Message}
use wolk_connect_cpp.FileHandler.{empty}
use wolk_connect_cpp.FileDownloader.{FileDownloader}
use wolk_connect_cpp.FileRepository.{FileInfo, contains}
use wolk_connect_cpp.FileRepository.Sqlite.{get_file_info}
use wolk_connect_cpp.FileRepository.Sqlite.Interface.{sqlite_repository, sqlite-Keeps}
use wolk_connect_cpp.FileRepository.Sqlite.Tests.{sample_session, sample-Works}
use wolk_connect_cpp.FileDownloadService.{
  Kit, Captured, Entry, Service, FileUploadInitiate, upload_status, find, send_status,
}
use wolk_connect_cpp.FileDownloadService.Handlers.{
  new_entry, handle_upload_initiate, handle_upload_abort, clear_downloads,
}
use wolk_connect_cpp.FileDownloadService.Handlers.Downloads.{accepts, upload_initiate-find}
use wolk_connect_cpp.FileDownloadService.Handlers.Diversion.{
  uploads, interrupt, receive_all, first_download-IsStarved,
}
use wolk_connect_cpp.FileDownloadService.Handlers.Aborts.{initiate_after_abort-IsLost}
use wolk_connect_cpp.FileDownloadService.FileList.{update_file_list}
use wolk_connect_cpp.FileDownloadService.FileList.Recording.{NoLinks, IsLocated}
use wolk_connect_cpp.FileDownloadService.FileList.Agreement.{
  update_file_list-lists, update_file_list-agrees,
}

abbrev a_message : Message
a_message = record { content = "x"; channel = "d2p/d" }

-- A disk on which every deletion succeeds.
abbrev deleting_sys : FileSystem
deleting_sys = record sample_sys { delete_file = λ disk path. (true, erase disk path) }

abbrev new_downloader : ℕ → FileDownloader Captured
new_downloader n = record {
  max_packet_size = n;
  file_handler = empty;
  timer_running = false;
  current_file_name = "";
  current_file_size = 0;
  current_packet_size = 0;
  current_packet_count = 0;
  current_packet_index = 0;
  current_file_hash = [];
  current_download_directory = "";
  packet_provider = none;
  current_on_success_callback = none;
  current_on_fail_callback = none;
  retry_count = 0;
}

abbrev pub sample_kit : Kit
sample_kit = record {
  api = sample_api;
  sys = deleting_sys;
  doubles = sample_doubles;
  repo = sample_repo;
  device_key = "d";
  file_download_directory = "files";
  max_packet_size = 66;
  url_file_downloader = false;
  base64_encode = λ bytes. "hash";
  base64_decode = λ text. 1 ∷ 2 ∷ 3 ∷ [];
  new_downloader = λ n. new_downloader n;
  make_status_message = λ key status. some a_message;
  make_file_list_update_message = λ key names. some a_message;
  make_packet_request_message = λ key request. some a_message;
}

abbrev g_info : FileInfo
g_info = record { name = "g"; hash = "hash"; path = "g" }

-- It knows the file g, which is not listed on the disk; the file f is there.
abbrev pub sample_service : Service sample_kit
sample_service = record {
  active_download = "";
  active_downloads = [];
  commands = [];
  repository = g_info ∷ [];
  disk = write empty_disk "f" (1 ∷ []);
  published = [];
  url_calls = [];
}

abbrev initiate : FileUploadInitiate
initiate = record { name = "f"; size = 3; hash = "hash" }

upload_initiate-find_example :
    find sample_kit "f" (handle_upload_initiate sample_kit sample_service initiate).active_downloads
    ≡ (if accepts sample_kit sample_service initiate && str_eq "f" "f"
        then some (new_entry sample_kit initiate)
        else find sample_kit "f" sample_service.active_downloads)
upload_initiate-find_example = upload_initiate-find sample_kit sample_service initiate "f"

accepted : accepts sample_kit sample_service initiate ≡ true
unfolding find
accepted = refl

abbrev pub f_entry : Entry sample_kit
f_entry = record { hash = "hash"; downloader = new_downloader 66; waiting = []; flag = false }

-- A service that downloads f.
abbrev pub downloading : Service sample_kit
downloading = record sample_service {
  active_download = "f";
  active_downloads = ("f", f_entry) ∷ [];
}

initiate_after_abort-IsLost_example :
    let s = handle_upload_abort sample_kit downloading "f" in
    handle_upload_initiate sample_kit s initiate
      ≡ send_status sample_kit s (upload_status "f" file_transfer)
    × find sample_kit "f"
        (clear_downloads sample_kit (handle_upload_initiate sample_kit s initiate).active_downloads)
      ≡ none
unfolding find
initiate_after_abort-IsLost_example =
    initiate_after_abort-IsLost sample_kit downloading initiate f_entry (refl, tt) refl refl refl
      refl

update_file_list-lists_example :
    let sent = (update_file_list sample_kit sample_service.disk (g_info ∷ [])).0 in
    IsAscending sent
    × ((y : String)
        → contains sent y ≡ (
            contains (sample_sys.list_files sample_service.disk "files") y
            && (contains ("g" ∷ []) y || is_some (sample_sys.content sample_service.disk y))))
update_file_list-lists_example =
    update_file_list-lists sample_kit sample_service.disk (g_info ∷ []) ("g" ∷ []) refl

-- The same kit over the SQLite repository, whose table knows the file g.
abbrev sqlite_kit : Kit
sqlite_kit = record sample_kit { repo = sqlite_repository sample_session }

disk-NoLinks : NoLinks sqlite_kit sample_service.disk
disk-NoLinks x y on_x on_y ne e = ground (arith, str_eq_iff x y)

g_info-IsLocated : IsLocated sqlite_kit (g_info ∷ [])
unfolding get_file_info
g_info-IsLocated y info e = ground (arith, str_eq_iff "g" y)

update_file_list-agrees_example :
    IsLocated sqlite_kit (update_file_list sqlite_kit sample_service.disk (g_info ∷ [])).1
    × ((y : String)
        → (sqlite_repository sample_session).contains_info_for_file
            (update_file_list sqlite_kit sample_service.disk (g_info ∷ [])).1
            y
          ≡ contains (update_file_list sqlite_kit sample_service.disk (g_info ∷ [])).0 y)
update_file_list-agrees_example =
    update_file_list-agrees sqlite_kit (sqlite-Keeps sample_session sample-Works)
      sample_service.disk disk-NoLinks (g_info ∷ []) g_info-IsLocated

-- An upload of g, which the service without g in its repository takes while f is downloaded.
abbrev busy : Service sample_kit
busy = record downloading { repository = [] }

first_download-IsStarved_example :
    find sample_kit "f"
      (receive_all sample_kit
        (interrupt sample_kit busy (uploads (record { name = "g"; size = 3; hash = "hash" })))
        (first_packet ∷ second_packet ∷ [])).active_downloads
    ≡ some f_entry
unfolding find
first_download-IsStarved_example =
    first_download-IsStarved sample_kit busy "f" f_entry
      (uploads (record { name = "g"; size = 3; hash = "hash" })) (first_packet ∷ second_packet ∷ [])
      refl refl refl
