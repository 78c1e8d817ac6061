-- ===== src/FileDownloader/Transfer.antt =====
-- A transfer in which every packet arrives intact and in order ends in success.
use mathlib.Core.List.{append_assoc, append-nil}
use wolk_connect_cpp.Base.{
  ℕ, ◌+◌, ◌%◌, ◌<◌, ◌≡◌, refl, true, false, String, some, List, [], ◌∷◌, ◌++◌, map, ByteArray,
  length, arith, ◌==◌, ap, ◌∙◌, zero, suc,
}
use wolk_connect_cpp.Sdk.{BinaryDataApi, FileSystem, Doubles}
use wolk_connect_cpp.FileHandler.{StatusCode, validate_file, save_file}
use wolk_connect_cpp.FileHandler.Laws.{
  Follows, Chain, contents, handle_data-Follows, append, validate_file-ok_iff, save_file-ok,
  save_file-create,
}
use wolk_connect_cpp.FileDownloader.{
  FileDownloader, Effect, on_success, provide_packet, handle_data, complete, packet_accepted,
  received, u32_mod,
}
use wolk_connect_cpp.FileDownloader.States.{IsRunning, IsIdle, packet, run, run_packet, run_done}

module _ {C : Type 0} (c : C) where
  request_at : FileDownloader C → ℕ → Effect C
  request_at d index = provide_packet c (record {
    file_name = d.current_file_name;
    chunk_index = index;
    chunk_size = d.current_packet_size;
  })

  -- The requests of `n` packets from the index on.
  pub requests : FileDownloader C → ℕ → ℕ → List (Effect C)
  unfolding request_at
  requests d index zero = []
  requests d index (suc n) = request_at d index ∷ requests d (index + 1) n

  module _ (api : BinaryDataApi) (sys : FileSystem) where
    abbrev path_of : FileDownloader C → String
    path_of d = sys.compose_path d.current_file_name d.current_download_directory

    -- The packets complete the file of the download: they continue it, their number is what is
    -- missing, the whole has the expected hash, and the disk takes it.
    pub record Completes (d : FileDownloader C) (disk : sys.Disk) (bs : List api.BinaryData)
        : Type 0 where
      pub chain : Chain api d.file_handler.previous_packet_hash bs
      pub number : d.current_packet_index + length bs ≡ d.current_packet_count
      pub hash :
          d.current_file_hash
          ≡ sys.hash_sha256 (d.file_handler.current_packet_data ++ contents api bs)
      pub written :
          (sys.create_binary_file_with_content disk
            (path_of d)
            (d.file_handler.current_packet_data ++ contents api bs)).0
          ≡ true

    -- The state after an accepted packet that is not the last.
    waits_next : FileDownloader C → api.BinaryData → FileDownloader C
    waits_next d b = record d {
      file_handler = append api d.file_handler b;
      timer_running = true;
      current_packet_index = d.current_packet_index + 1;
      retry_count = 1;
    }

    accept_more :
        (d : FileDownloader C) (disk : sys.Disk) (b : api.BinaryData)
        → IsRunning c d
        → Follows api d.file_handler.previous_packet_hash b
        → d.current_packet_index + 1 < d.current_packet_count
        → handle_data api sys d disk b
          ≡ (request_at d (d.current_packet_index + 1) ∷ [], waits_next d b, disk)
    unfolding handle_data request_at waits_next
    accept_more d disk b a f more =
        let exact : (d.current_packet_index + 1) % u32_mod ≡ d.current_packet_index + 1 =
          omega (arith, a.count) in
        rw (handle_data-Follows api d.file_handler b f, handle_data) (ground arith)

    complete_ok :
        (d : FileDownloader C) (disk : sys.Disk)
        → d.timer_running ≡ false
        → d.current_on_success_callback ≡ some c
        → validate_file sys d.file_handler d.current_file_hash ≡ StatusCode.ok
        → (save_file sys d.file_handler disk d.current_file_name d.current_download_directory).0
          ≡ StatusCode.ok
        → let o = complete sys d disk in
          (o.0 ≡ on_success c (sys.absolute_path (path_of d)) ∷ [])
          × IsIdle o.1
          × (o.2
              ≡ (save_file sys d.file_handler disk d.current_file_name
                  d.current_download_directory).1)
    unfolding complete
    complete_ok d disk t s v w = ground arith

    accept_last :
        (d : FileDownloader C) (disk : sys.Disk) (b : api.BinaryData)
        → IsRunning c d
        → Completes d disk (b ∷ [])
        → let o = handle_data api sys d disk b in
          (o.0 ≡ on_success c (sys.absolute_path (path_of d)) ∷ [])
          × IsIdle o.1
          × (sys.content o.2 (path_of d)
              ≡ some (d.file_handler.current_packet_data ++ contents api (b ∷ [])))
    unfolding handle_data append packet_accepted
    accept_last d disk b a k =
        let whole : ByteArray = d.file_handler.current_packet_data ++ api.get_data b in
        let bytes : contents api (b ∷ []) ≡ api.get_data b = append-nil (api.get_data b) in
        let next : FileDownloader C = record (received d (append api d.file_handler b)) {
          current_packet_index = (d.current_packet_index + 1) % u32_mod;
        } in
        let last : ((d.current_packet_index + 1) % u32_mod == d.current_packet_count) ≡ true =
          ground (arith, k.number, a.count) in
        let written = rw bytes at k.written in
        let ok =
          save_file-create sys next.file_handler disk d.current_file_name
            d.current_download_directory written in
        let valid =
          (validate_file-ok_iff sys next.file_handler d.current_file_hash).1 (rw bytes at k.hash) in
        let (effects, idle, saved) = complete_ok next disk refl a.success valid ok in
        rw (handle_data-Follows api d.file_handler b k.chain.0, handle_data, last)
          (
            effects,
            idle,
            rw (saved, bytes)
                (save_file-ok sys next.file_handler disk d.current_file_name
                  d.current_download_directory ok),
          )

    requests-waits_next :
        (d : FileDownloader C) (b : api.BinaryData) (i n : ℕ)
        → requests (waits_next d b) i n ≡ requests d i n
    unfolding requests waits_next
    requests-waits_next d b i zero = refl
    requests-waits_next d b i (suc n) =
        ap (◌∷◌ (request_at d i)) (requests-waits_next d b (i + 1) n)

    waits_next-IsRunning :
        (d : FileDownloader C) (b : api.BinaryData)
        → IsRunning c d
        → d.current_packet_index + 1 < d.current_packet_count
        → IsRunning c (waits_next d b)
    unfolding waits_next
    waits_next-IsRunning d b a more = ground arith

    waits_next-Completes :
        (d : FileDownloader C) (disk : sys.Disk) (b : api.BinaryData) (bs : List api.BinaryData)
        → Completes d disk (b ∷ bs)
        → Completes (waits_next d b) disk bs
    unfolding waits_next append
    waits_next-Completes d disk b bs k =
        let regroup : (d.file_handler.current_packet_data ++ api.get_data b) ++ contents api bs
            ≡ d.file_handler.current_packet_data ++ contents api (b ∷ bs) =
          append_assoc d.file_handler.current_packet_data (api.get_data b) (contents api bs) in
        record {
          chain = k.chain.1;
          number = omega (arith, k.number);
          hash = rw regroup k.hash;
          written = rw regroup k.written;
        }

    module _ (doubles : Doubles) where
      -- When the packets that arrive complete the file, the downloader asks for each further packet
      -- once and in order, then reports success with the absolute path, is idle again, and the disk
      -- has the whole file.
      pub transfer_succeeds :
          (d : FileDownloader C) (disk : sys.Disk) (b : api.BinaryData) (bs : List api.BinaryData)
          → IsRunning c d
          → Completes d disk (b ∷ bs)
          → let o = run api sys doubles d disk (map packet (b ∷ bs)) in
            (o.0
              ≡ requests d (d.current_packet_index + 1) (length bs)
                ++ on_success c (sys.absolute_path (path_of d)) ∷ [])
            × IsIdle o.1
            × (sys.content o.2 (path_of d)
                ≡ some (d.file_handler.current_packet_data ++ contents api (b ∷ bs)))
      unfolding requests waits_next append
      transfer_succeeds d disk b [] a k =
          let (effects, idle, saved) = accept_last d disk b a k in
          rw (run_packet api sys doubles d disk b [], run_done)
            (append-nil _ ∙ effects, idle, saved)
      transfer_succeeds d disk b (b' ∷ bs) a k =
          let more : d.current_packet_index + 1 < d.current_packet_count =
            omega (arith, k.number) in
          let (effects, idle, saved) =
            transfer_succeeds (waits_next d b) disk b' bs (waits_next-IsRunning d b a more)
              (waits_next-Completes d disk b (b' ∷ bs) k) in
          rw
            (
              run_packet api sys doubles d disk b (map packet (b' ∷ bs)),
              accept_more d disk b a k.chain.0 more,
            )
            (
              ap (◌∷◌ (request_at d (d.current_packet_index + 1))) (
                  effects
                  ∙ ap (λ es. es ++ on_success c (sys.absolute_path (path_of d)) ∷ [])
                      (requests-waits_next d b (d.current_packet_index + 1 + 1) (length bs))),
              idle,
              saved
                  ∙ ap some (
                      append_assoc d.file_handler.current_packet_data (api.get_data b)
                        (contents api (b' ∷ bs))),
            )
