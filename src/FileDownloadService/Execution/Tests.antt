-- ===== src/FileDownloadService/Execution/Tests.antt =====
-- FileDownloadService downloads a file of one packet.
use wolk_connect_cpp.Base.{false, Option, none, some, [], ◌∷◌, ◌≡◌, refl, bytes_eq}
use wolk_connect_cpp.Samples.{Packet, empty_disk}
use wolk_connect_cpp.FileHandler
use wolk_connect_cpp.FileDownloader.{packets}
use wolk_connect_cpp.FileDownloader.States.{packet, step}
use wolk_connect_cpp.FileDownloadService.{Kit, Service, Entry, find, request_packet, Command}
use wolk_connect_cpp.FileDownloadService.Handlers.{
  DownloadProtocol, message_received, handle_upload_initiate, handle_binary_data,
  download_completed,
}
use wolk_connect_cpp.Sdk.Connectivity.{Message}
use wolk_connect_cpp.FileRepository.{FileInfo}
use wolk_connect_cpp.FileRepository.Sqlite.{get_file_info}
use wolk_connect_cpp.FileRepository.Sqlite.Interface.{sqlite_repository, sqlite-Keeps}
use wolk_connect_cpp.FileRepository.Sqlite.Tests.{sample_session, sample-Works}
use wolk_connect_cpp.FileDownloadService.Execution.Deletions.{repeated_delete-Faults}
use wolk_connect_cpp.FileDownloadService.Tests.{sample_kit}
use wolk_connect_cpp.FileDownloadService.Execution.{next_command, execute, next_event}
use wolk_connect_cpp.FileDownloadService.Execution.Interleavings.{
  Reach, starts, goes, command, downloader,
}
use wolk_connect_cpp.FileDownloadService.Execution.Deliveries.{Delivery, next_event-Delivery}
use wolk_connect_cpp.FileDownloadService.Execution.Integrity.{StoresVerified, delivered-IsStored}

-- Packets have room for the whole file.
abbrev roomy_kit : Kit
roomy_kit = record sample_kit { max_packet_size = 100 }

abbrev silent_protocol : DownloadProtocol roomy_kit
silent_protocol = record {
  make_binary_data = λ m. none;
  make_file_upload_initiate = λ m. none;
  make_file_upload_abort = λ m. none;
  make_file_delete = λ m. none;
  is_file_purge = λ m. false;
  make_file_list_confirm = λ m. none;
  make_file_url_download_initiate = λ m. none;
  make_file_url_download_abort = λ m. none;
}

-- The file of one packet, with the hash that the samples decode.
abbrev whole_file : Packet
whole_file = record { payload = 1 ∷ 2 ∷ 3 ∷ []; before = [] }

abbrev empty_service : Service roomy_kit
empty_service = record {
  active_download = "";
  active_downloads = [];
  commands = [];
  repository = [];
  disk = empty_disk;
  published = [];
  url_calls = [];
}

abbrev commanded : Service roomy_kit
commanded = record empty_service {
  commands =
      Command.handle_upload_initiate (record { name = "f"; size = 3; hash = "hash" })
      ∷ Command.handle_binary_data whole_file
      ∷ [];
}

abbrev or_commanded : Option (Service roomy_kit) → Service roomy_kit
or_commanded none = commanded
or_commanded (some s) = s

abbrev initiated : Service roomy_kit
initiated = or_commanded (next_command roomy_kit commanded)

abbrev fed : Service roomy_kit
fed = or_commanded (next_command roomy_kit initiated)

abbrev requested : Service roomy_kit
requested = or_commanded (next_event roomy_kit fed "f")

-- The entry of the file, once its packet is requested and has come.
abbrev waiting_entry : Option (Entry roomy_kit) → Entry roomy_kit
waiting_entry none = record {
  hash = "";
  downloader = roomy_kit.new_downloader 0;
  waiting = [];
  flag = false;
}
waiting_entry (some x) = x

abbrev f_entry : Entry roomy_kit
f_entry = waiting_entry (find roomy_kit "f" requested.active_downloads)

reached : Reach roomy_kit silent_protocol requested
unfolding next_command execute handle_upload_initiate handle_binary_data next_event step
    request_packet
reached =
    goes {s = fed} {s' = requested}
      (goes {s = initiated} {s' = fed}
        (goes {s = commanded} {s' = initiated} (starts refl) (command refl)) (command refl))
      (downloader "f" refl)

there : find roomy_kit "f" requested.active_downloads ≡ some f_entry
unfolding find next_command execute handle_upload_initiate handle_binary_data next_event step
    request_packet
there = refl

waits : f_entry.waiting ≡ packet whole_file ∷ []
unfolding find next_command execute handle_upload_initiate handle_binary_data next_event step
    request_packet
waits = refl

next_event-Delivery_example :
    Delivery roomy_kit requested "f" f_entry (next_event roomy_kit requested "f")
next_event-Delivery_example =
    next_event-Delivery roomy_kit silent_protocol requested "f" f_entry (packet whole_file) []
      (λ n. record { provider = refl; success = refl; fail = refl }) reached there waits

delivered :
    (or_commanded (next_event roomy_kit requested "f")).commands
    ≡ Command.store_downloaded "f" "f" "hash" ∷ Command.send_file_list_update ∷ []
unfolding next_command execute handle_upload_initiate handle_binary_data next_event step
    request_packet download_completed packets FileHandler.handle_data FileHandler.validate_file
    bytes_eq FileHandler.save_file
delivered = refl

abbrev stored : Service roomy_kit
stored = or_commanded (next_event roomy_kit requested "f")

no_command_waits : requested.commands ≡ []
unfolding next_command execute handle_upload_initiate handle_binary_data next_event step
    request_packet
no_command_waits = refl

ends_well : next_event roomy_kit requested "f" ≡ some stored
unfolding next_command execute handle_upload_initiate handle_binary_data next_event step
    request_packet download_completed packets FileHandler.handle_data FileHandler.validate_file
    bytes_eq FileHandler.save_file
ends_well = refl

delivered-IsStored_example :
    (s : Service roomy_kit) × (next_command roomy_kit stored ≡ some s)
    × StoresVerified roomy_kit stored "f" f_entry s
delivered-IsStored_example =
    delivered-IsStored roomy_kit silent_protocol requested stored "f" f_entry (packet whole_file) []
      "f" "f" "hash" (Command.send_file_list_update ∷ [])
      (λ n. record { provider = refl; success = refl; fail = refl }) reached there waits
      no_command_waits ends_well delivered

-- The kit over the SQLite repository, whose table knows the file g.
abbrev sqlite_kit : Kit
sqlite_kit = record sample_kit { repo = sqlite_repository sample_session }

abbrev g_info : FileInfo
g_info = record { name = "g"; hash = "hash"; path = "g" }

abbrev with_g : Service sqlite_kit
with_g = record {
  active_download = "";
  active_downloads = [];
  commands = [];
  repository = g_info ∷ [];
  disk = empty_disk;
  published = [];
  url_calls = [];
}

-- Every message deletes the file that it names.
abbrev deleting_protocol : DownloadProtocol sqlite_kit
deleting_protocol = record {
  make_binary_data = λ m. none;
  make_file_upload_initiate = λ m. none;
  make_file_upload_abort = λ m. none;
  make_file_delete = λ m. some m.content;
  is_file_purge = λ m. false;
  make_file_list_confirm = λ m. none;
  make_file_url_download_initiate = λ m. none;
  make_file_url_download_abort = λ m. none;
}

abbrev delete_g : Message
delete_g = record { content = "g"; channel = "p2d/file_delete/d" }

g_is_known : get_file_info sample_session (g_info ∷ []) "g" ≡ some g_info
unfolding get_file_info
g_is_known = refl

repeated_delete-Faults_example :
    (s1 : Service sqlite_kit) × (next_command sqlite_kit (
        message_received sqlite_kit deleting_protocol
          (message_received sqlite_kit deleting_protocol with_g delete_g)
          delete_g)
      ≡ some s1)
    × (get_file_info sample_session s1.repository "g" ≡ none)
    × (next_command sqlite_kit s1 ≡ none)
repeated_delete-Faults_example =
    repeated_delete-Faults sqlite_kit deleting_protocol (sqlite-Keeps sample_session sample-Works)
      with_g delete_g "g" g_info refl (refl, refl, refl, refl) refl g_is_known refl
