-- ===== src/FileDownloader/Replies.antt =====
-- What a FileDownloader calls for each of its events, once its callbacks are those of one file.
use wolk_connect_cpp.Base.{
  ℕ, ◌+◌, ◌%◌, ◌≡◌, inl, inr, String, Bool, false, List, ByteArray, arith, ◌==◌, Bool-cases, sym,
  ◌∙◌, refl,
}
use wolk_connect_cpp.Sdk.{
  BinaryDataApi, FileSystem, Doubles, retry_count_exceeded, unspecified_error, file_system_error,
}
use wolk_connect_cpp.FileHandler.{FileHandler, StatusCode, validate_file, save_file}
use wolk_connect_cpp.FileHandler.Laws.{
  handle_data-cases, append, validate_file-ok_iff, save_file-ok,
}
use wolk_connect_cpp.FileDownloader.{
  FileDownloader, Request, Effect, Outcome, clear, packets, request_packet, packet_failed, download,
  abort, timeout, handle_data, complete, packet_accepted, received, u32_mod,
}
use wolk_connect_cpp.FileDownloader.States.{Event, downloads, packet, aborts, timer_ends, step}
use wolk_connect_cpp.FileDownloader.Callbacks.{
  IsCleared, Serves, Dedicated, Asks, AsksFor, Reply, silent, faults, asks, gives_up, saves,
}

abort-IsCleared : {C : Type 0} (d : FileDownloader C) → IsCleared (abort d)
unfolding abort
abort-IsCleared d = ground arith

module _ {C : Type 0} (c : C) (name : String) (hash : ByteArray) (directory : String) where
  module _ (sys : FileSystem) where
    abbrev undisturbed : List (Effect C) × FileDownloader C → sys.Disk → Outcome C sys
    undisturbed (es, d) disk = (es, d, disk)

    request_packet-Reply :
        (d : FileDownloader C) (disk : sys.Disk) (index size : ℕ)
        → Dedicated c name hash directory d
        → Reply c name hash directory sys (undisturbed (request_packet d index size) disk)
    unfolding request_packet
    request_packet-Reply d disk index size (inl k) = faults (ground arith) (ground arith)
    request_packet-Reply d disk index size (inr k) =
        asks (record { file_name = d.current_file_name; chunk_index = index; chunk_size = size })
          k.served_name (ground arith) (ground arith)

    packet_failed-Reply :
        (d : FileDownloader C) (disk : sys.Disk)
        → Dedicated c name hash directory d
        → Reply c name hash directory sys (undisturbed (packet_failed d) disk)
    unfolding packet_failed
    packet_failed-Reply d disk k = elim (Bool-cases (d.retry_count == 3)) [
      | inl last ↦ elim k [
        | inl free ↦ silent (ground arith) (inl (ground arith))
        | inr serves ↦ gives_up retry_count_exceeded (ground arith) (ground arith)
      ]
      | inr more ↦
          rw more (request_packet-Reply d disk d.current_packet_index d.current_packet_size k)
    ]

    complete-IsCleared :
        (d : FileDownloader C) (disk : sys.Disk) → IsCleared (complete sys d disk).1
    unfolding complete
    complete-IsCleared d disk = ground arith

    -- The last packet is there, and the file is valid and saved, or not.
    complete-by :
        (d : FileDownloader C) (disk : sys.Disk) (valid saved : StatusCode)
        → Serves c name hash directory d
        → validate_file sys d.file_handler d.current_file_hash ≡ valid
        → (save_file sys d.file_handler disk d.current_file_name d.current_download_directory).0
          ≡ saved
        → Reply c name hash directory sys (complete sys d disk)
    unfolding complete
    complete-by d disk StatusCode.ok StatusCode.ok k v f =
        saves d.file_handler.current_packet_data (ground arith)
          (rw (v, f, complete, ← k.served_name, ← k.served_directory)
            (save_file-ok sys d.file_handler disk d.current_file_name d.current_download_directory
              f))
          (sym ((validate_file-ok_iff sys d.file_handler d.current_file_hash).0 v) ∙ k.served_hash)
          (complete-IsCleared d disk)
    complete-by d disk StatusCode.ok StatusCode.file_handling_error k v f =
        gives_up file_system_error (ground arith) (complete-IsCleared d disk)
    complete-by d disk StatusCode.ok _ k v f =
        gives_up unspecified_error (ground arith) (complete-IsCleared d disk)
    complete-by d disk _ saved k v f =
        gives_up unspecified_error (ground arith) (complete-IsCleared d disk)

    complete-Reply :
        (d : FileDownloader C) (disk : sys.Disk)
        → Dedicated c name hash directory d
        → Reply c name hash directory sys (complete sys d disk)
    unfolding complete
    complete-Reply d disk (inl free) = silent (ground arith) (inl (complete-IsCleared d disk))
    complete-Reply d disk (inr serves) = complete-by d disk _ _ serves refl refl

    -- The timer, the index, the data and the retries do not matter.
    Dedicated-same :
        (d : FileDownloader C) (timer : Bool) (index : ℕ) (handler : FileHandler) (retries : ℕ)
        → Dedicated c name hash directory d
        → Dedicated c name hash directory (record d {
          timer_running = timer;
          current_packet_index = index;
          file_handler = handler;
          retry_count = retries;
        })
    Dedicated-same d timer index handler retries (inl k) = inl (ground arith)
    Dedicated-same d timer index handler retries (inr k) = inr (ground arith)

    packet_accepted-Reply :
        (d : FileDownloader C) (disk : sys.Disk)
        → Dedicated c name hash directory d
        → Reply c name hash directory sys (packet_accepted sys d disk)
    unfolding packet_accepted
    packet_accepted-Reply d disk k =
        let index : ℕ = (d.current_packet_index + 1) % u32_mod in
        let next : FileDownloader C = record d { current_packet_index = index } in
        elim (Bool-cases (index == d.current_packet_count)) [
          | inl last ↦ rw last (
              complete-Reply next disk
                (Dedicated-same d d.timer_running index d.file_handler d.retry_count k))
          | inr more ↦ rw more (
              request_packet-Reply (record next { retry_count = 0 }) disk index
                d.current_packet_size (Dedicated-same d d.timer_running index d.file_handler 0 k))
        ]

    received-Dedicated :
        (d : FileDownloader C) (handler : FileHandler)
        → Dedicated c name hash directory d
        → Dedicated c name hash directory (received d handler)
    received-Dedicated d handler k =
        Dedicated-same d false d.current_packet_index handler d.retry_count k

    handle_data-Reply :
        (api : BinaryDataApi) (d : FileDownloader C) (disk : sys.Disk) (b : api.BinaryData)
        → Dedicated c name hash directory d
        → Reply c name hash directory sys (handle_data api sys d disk b)
    unfolding handle_data
    handle_data-Reply api d disk b k = elim (handle_data-cases api d.file_handler b) [
      | inl (_, e) ↦
          rw (e, handle_data)
            (packet_accepted-Reply (received d (append api d.file_handler b)) disk
              (received-Dedicated d (append api d.file_handler b) k))
      | inr (_, inl e) ↦
          rw (e, handle_data)
            (packet_failed-Reply (received d d.file_handler) disk
              (received-Dedicated d d.file_handler k))
      | inr (_, inr e) ↦
          rw (e, handle_data)
            (packet_failed-Reply (received d d.file_handler) disk
              (received-Dedicated d d.file_handler k))
    ]

    timeout-Reply :
        (d : FileDownloader C) (disk : sys.Disk)
        → Dedicated c name hash directory d
        → Reply c name hash directory sys (undisturbed (timeout d) disk)
    unfolding timeout
    timeout-Reply d disk k = elim (Bool-cases d.timer_running) [
      | inl on ↦ rw on (
          packet_failed-Reply (record d { timer_running = false }) disk
            (received-Dedicated d d.file_handler k))
      | inr off ↦ rw off (silent refl (received-Dedicated d d.file_handler k))
    ]

    download-Reply :
        (doubles : Doubles) (d : FileDownloader C) (r : Request C) (disk : sys.Disk)
        → Asks c name hash directory r
        → Reply c name hash directory sys (undisturbed (download doubles d r) disk)
    unfolding download
    download-Reply doubles d r disk k =
        let (count, size) = packets doubles d.max_packet_size r.file_size in
        let started = record (clear (record d { timer_running = false })) {
          current_packet_count = count;
          current_packet_size = size;
          current_file_name = r.file_name;
          current_file_size = r.file_size;
          current_file_hash = r.file_hash;
          current_download_directory = r.download_directory;
          packet_provider = r.packet_provider;
          current_on_success_callback = r.on_success_callback;
          current_on_fail_callback = r.on_fail_callback;
        } in
        request_packet-Reply started disk started.current_packet_index started.current_packet_size
          (inr (ground arith))

    pub step-Reply :
        (api : BinaryDataApi) (doubles : Doubles) (d : FileDownloader C) (disk : sys.Disk)
        (event : Event api C)
        → Dedicated c name hash directory d
        → AsksFor c name hash directory api event
        → Reply c name hash directory sys (step api sys doubles d disk event)
    unfolding step
    step-Reply api doubles d disk (downloads r) k a = download-Reply doubles d r disk a
    step-Reply api doubles d disk (packet b) k a = handle_data-Reply api d disk b k
    step-Reply api doubles d disk aborts k a = silent refl (inl (abort-IsCleared d))
    step-Reply api doubles d disk timer_ends k a = timeout-Reply d disk k
