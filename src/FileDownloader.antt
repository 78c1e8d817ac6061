-- ===== src/FileDownloader.antt =====
-- src/service/file/FileDownloader.h and FileDownloader.cpp: downloads one file packet by packet.
-- The bodies of the commands that `download`, `handleData` and `abort` push run one after the other;
-- what they do to the outside is a list of effects. `C` is what the callbacks capture.
pub mod Packets
pub mod States
pub mod Retry
pub mod Soundness
pub mod Success
pub mod Callbacks
pub mod Replies
pub mod Faults
pub mod Transfer
pub mod Tests
use wolk_connect_cpp.Base.{
  ℕ, ◌+◌, ◌-◌, ◌*◌, ◌%◌, ◌^◌, String, Bool, true, false, Option, none, some, List, [], ◌∷◌, ◌++◌,
  ByteArray, leb, ◌==◌, if◌then◌else◌,
}
use wolk_connect_cpp.Sdk.{
  BinaryDataApi, FileSystem, Doubles, FileTransferError, unspecified_error, file_system_error,
  retry_count_exceeded, FilePacketRequest, sha_256_hash_byte_length,
}
use wolk_connect_cpp.FileHandler
use wolk_connect_cpp.FileHandler.{
  FileHandler, StatusCode, package_hash_not_valid, previous_package_hash_not_valid,
  file_handling_error, validate_file, save_file,
}

abbrev pub u16_mod : ℕ
u16_mod = 2 ^ 16

abbrev pub u32_mod : ℕ
u32_mod = 2 ^ 32

abbrev pub u64_mod : ℕ
u64_mod = 2 ^ 64

abbrev pub max_retry_count : ℕ
max_retry_count = 3

-- 2 * ByteUtils::SHA_256_HASH_BYTE_LENGTH
abbrev pub hashes_length : ℕ
hashes_length = 2 * sha_256_hash_byte_length

pub record FileDownloader (C : Type 0) : Type 0 where
  pub max_packet_size : ℕ
  pub file_handler : FileHandler
  -- Whether the one-shot timer of PACKET_REQUEST_TIMEOUT is running.
  pub timer_running : Bool
  pub current_file_name : String
  pub current_file_size : ℕ
  pub current_packet_size : ℕ
  pub current_packet_count : ℕ
  pub current_packet_index : ℕ
  pub current_file_hash : ByteArray
  pub current_download_directory : String
  pub packet_provider : Option C
  pub current_on_success_callback : Option C
  pub current_on_fail_callback : Option C
  pub retry_count : ℕ

-- The arguments of `download`.
pub record Request (C : Type 0) : Type 0 where
  pub file_name : String
  pub file_size : ℕ
  pub file_hash : ByteArray
  pub download_directory : String
  pub packet_provider : Option C
  pub on_success_callback : Option C
  pub on_fail_callback : Option C

pub data Effect (C : Type 0) : Type 0 where
  provide_packet : C → FilePacketRequest → Effect C
  on_success : C → String → Effect C
  on_fail : C → FileTransferError → Effect C
  -- The call of an empty `std::function`.
  bad_function_call : Effect C

pub clear : {C : Type 0} → FileDownloader C → FileDownloader C
unfolding FileHandler.clear
clear d = record d {
  current_file_name = "";
  current_file_size = 0;
  current_packet_size = 0;
  current_packet_count = 0;
  current_packet_index = 0;
  current_file_hash = [];
  current_download_directory = "";
  packet_provider = none;
  current_on_success_callback = none;
  current_on_fail_callback = none;
  retry_count = 0;
  file_handler = FileHandler.clear d.file_handler;
}

pub request_packet : {C : Type 0} → FileDownloader C → ℕ → ℕ → List (Effect C) × FileDownloader C
request_packet d index size = elim d.packet_provider [
  | none ↦ (bad_function_call ∷ [], record d { retry_count = (d.retry_count + 1) % u16_mod })
  | some c ↦ (
    provide_packet c
          (record { file_name = d.current_file_name; chunk_index = index; chunk_size = size })
        ∷ [],
    record d { retry_count = (d.retry_count + 1) % u16_mod; timer_running = true },
  )
]

-- if (m_currentOnFailCallback) m_currentOnFailCallback(errorCode)
pub call_on_fail : {C : Type 0} → FileDownloader C → FileTransferError → List (Effect C)
call_on_fail d code = elim d.current_on_fail_callback [ none ↦ [] | some c ↦ on_fail c code ∷ [] ]

pub call_on_success : {C : Type 0} → FileDownloader C → String → List (Effect C)
call_on_success d path = elim d.current_on_success_callback [
  | none ↦ []
  | some c ↦ on_success c path ∷ []
]

pub packet_failed : {C : Type 0} → FileDownloader C → List (Effect C) × FileDownloader C
unfolding request_packet call_on_fail clear
packet_failed d =
    if d.retry_count == max_retry_count
    then (call_on_fail d retry_count_exceeded, clear d)
    else request_packet d d.current_packet_index d.current_packet_size

abort : {C : Type 0} → FileDownloader C → FileDownloader C
unfolding clear
abort d = clear (record d { timer_running = false })

-- The timer calls `packetFailed` once, if it is running.
timeout : {C : Type 0} → FileDownloader C → List (Effect C) × FileDownloader C
unfolding packet_failed
timeout d = if d.timer_running then packet_failed (record d { timer_running = false }) else ([], d)

module _ (doubles : Doubles) where
  -- The packet count and the packet size that `download` chooses.
  unfoldable pub packets : ℕ → ℕ → ℕ × ℕ
  packets max_packet_size file_size =
      let room : ℕ = (max_packet_size + u64_mod - hashes_length) % u64_mod in
      if leb file_size room
      then (1, (file_size + hashes_length) % u64_mod)
      else (doubles.to_unsigned (doubles.ceil_quotient file_size room), max_packet_size)

  pub download : {C : Type 0} → FileDownloader C → Request C → List (Effect C) × FileDownloader C
  unfolding clear request_packet
  download d r =
      let (count, size) = packets d.max_packet_size r.file_size in
      let stopped = clear (record d { timer_running = false }) in
      let started = record stopped {
        current_packet_count = count;
        current_packet_size = size;
        current_file_name = r.file_name;
        current_file_size = r.file_size;
        current_file_hash = r.file_hash;
        current_download_directory = r.download_directory;
        packet_provider = r.packet_provider;
        current_on_success_callback = r.on_success_callback;
        current_on_fail_callback = r.on_fail_callback;
      } in
      request_packet started started.current_packet_index started.current_packet_size

-- The effects, the state and the disk after a command.
abbrev pub Outcome : Type 0 → FileSystem → Type 0
Outcome C sys = List (Effect C) × FileDownloader C × sys.Disk

module _ (sys : FileSystem) {C : Type 0} where
  open sys use {Disk, compose_path, absolute_path}

  abbrev fail_with : FileDownloader C → FileTransferError → Disk → Outcome C sys
  fail_with d code disk = (call_on_fail d code, clear d, disk)

  -- The nested switches once the last packet is there.
  complete : FileDownloader C → Disk → Outcome C sys
  unfolding clear call_on_success call_on_fail
  complete d disk =
      let (saved, disk') =
        save_file sys d.file_handler disk d.current_file_name d.current_download_directory in
      elim (validate_file sys d.file_handler d.current_file_hash) [
        | StatusCode.ok ↦ elim saved [
          | StatusCode.ok ↦ (
            call_on_success d
                (absolute_path (compose_path d.current_file_name d.current_download_directory)),
            clear d,
            disk',
          )
          | file_handling_error ↦ fail_with d file_system_error disk'
          | _ ↦ fail_with d unspecified_error disk'
        ]
        | _ ↦ fail_with d unspecified_error disk
      ]

  -- The packet was appended to the file.
  packet_accepted : FileDownloader C → Disk → Outcome C sys
  unfolding complete request_packet
  packet_accepted d disk =
      let next = record d { current_packet_index = (d.current_packet_index + 1) % u32_mod } in
      let again =
        request_packet (record next { retry_count = 0 }) next.current_packet_index
          next.current_packet_size in
      if next.current_packet_index == next.current_packet_count
      then complete next disk
      else (again.0, again.1, disk)

  -- switch (result)
  on_status : StatusCode → FileDownloader C → Disk → Outcome C sys
  unfolding packet_accepted packet_failed
  on_status StatusCode.ok d disk = packet_accepted d disk
  on_status package_hash_not_valid d disk =
      let failed = packet_failed d in (failed.0, failed.1, disk)
  on_status previous_package_hash_not_valid d disk =
      let failed = packet_failed d in (failed.0, failed.1, disk)
  on_status _ d disk = fail_with d unspecified_error disk

-- The timer is stopped and the handler has seen the packet.
abbrev received : {C : Type 0} → FileDownloader C → FileHandler → FileDownloader C
received d handler = record d { timer_running = false; file_handler = handler }

module _ (api : BinaryDataApi) (sys : FileSystem) {C : Type 0} where
  pub handle_data : FileDownloader C → sys.Disk → api.BinaryData → Outcome C sys
  unfolding on_status
  handle_data d disk b =
      let (code, handler) = FileHandler.handle_data api d.file_handler b in
      on_status sys code (received d handler) disk
