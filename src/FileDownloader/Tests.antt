-- ===== src/FileDownloader/Tests.antt =====
-- FileDownloader on concrete files.
use wolk_connect_cpp.Base.{
  ◌+◌, ◌-◌, ◌*◌, ◌^◌, ◌≤◌, ◌<◌, ◌≡◌, refl, inl, inr, true, false, none, some, [], ◌∷◌, ◌++◌, map,
  replicate, arith, bytes_eq, String,
}
use wolk_connect_cpp.Sdk.{retry_count_exceeded}
use wolk_connect_cpp.Samples.{
  sample_api, sample_sys, sample_doubles, first_packet, second_packet, stray_packet, empty_disk,
}
use wolk_connect_cpp.FileHandler
use wolk_connect_cpp.FileHandler.{FileHandler, empty, StatusCode}
use wolk_connect_cpp.FileDownloader.{
  FileDownloader, Request, provide_packet, on_success, on_fail, bad_function_call, packets,
  handle_data,
}
use wolk_connect_cpp.FileDownloader.Packets.{Fits, packets-cover, packets_undersized}
use wolk_connect_cpp.FileDownloader.States.{
  IsIdle, IsActive, IsSafe, downloads, packet, timer_ends, step, run, step-IsSafe, packet_when_idle,
}
use wolk_connect_cpp.FileDownloader.Retry.{retries_then_fails, request_again}
use wolk_connect_cpp.FileDownloader.Soundness.{Reach}
use wolk_connect_cpp.FileDownloader.Success.{IsVerified, success-IsVerified}
use wolk_connect_cpp.FileDownloader.Transfer.{requests, Completes, transfer_succeeds}

-- A file of three bytes in packets of two.
abbrev idle_downloader : FileDownloader String
idle_downloader = record {
  max_packet_size = 66;
  file_handler = empty;
  timer_running = false;
  current_file_name = "";
  current_file_size = 0;
  current_packet_size = 0;
  current_packet_count = 0;
  current_packet_index = 0;
  current_file_hash = [];
  current_download_directory = "";
  packet_provider = none;
  current_on_success_callback = none;
  current_on_fail_callback = none;
  retry_count = 0;
}

abbrev sample_request : Request String
sample_request = record {
  file_name = "f";
  file_size = 3;
  file_hash = 1 ∷ 2 ∷ 3 ∷ [];
  download_directory = "files";
  packet_provider = some "f";
  on_success_callback = some "f";
  on_fail_callback = some "f";
}

abbrev waiting : FileDownloader String
waiting = record idle_downloader {
  timer_running = true;
  current_file_name = "f";
  current_file_size = 3;
  current_packet_size = 66;
  current_packet_count = 2;
  current_file_hash = 1 ∷ 2 ∷ 3 ∷ [];
  current_download_directory = "files";
  packet_provider = some "f";
  current_on_success_callback = some "f";
  current_on_fail_callback = some "f";
  retry_count = 1;
}

download_waits :
    step sample_api sample_sys sample_doubles idle_downloader empty_disk (downloads sample_request)
    ≡ (
      provide_packet "f" (record { file_name = "f"; chunk_index = 0; chunk_size = 66 }) ∷ [],
      waiting,
      empty_disk,
    )
unfolding step packets
download_waits = refl

sample-Fits : Fits 66 3
sample-Fits = omega arith

waiting-IsActive : IsActive "f" waiting
waiting-IsActive = record {
  timer = refl;
  running = record {
    provider = refl;
    success = refl;
    fail = refl;
    index = omega arith;
    count = omega arith;
    requested = omega arith;
    retries = omega arith;
  };
}

idle_downloader-IsIdle : IsIdle idle_downloader
idle_downloader-IsIdle = record {
  no_timer = refl;
  no_provider = refl;
  no_success = refl;
  no_fail = refl;
  no_count = refl;
  no_index = refl;
  no_retry = refl;
  no_data = refl;
}

packets-cover_example :
    (3 ≤ (packets sample_doubles 66 3).0 * (66 - 64))
    × (((packets sample_doubles 66 3).0 - 1) * (66 - 64) < 3)
    × ((packets sample_doubles 66 3).1 ≤ 66)
    × (0 < (packets sample_doubles 66 3).0)
    × ((packets sample_doubles 66 3).0 < 2 ^ 32)
packets-cover_example = packets-cover sample_doubles 66 3 sample-Fits

packets_undersized_example :
    (packets sample_doubles 10 3 ≡ (1, 3 + 64)) × (10 < (packets sample_doubles 10 3).1)
packets_undersized_example = packets_undersized sample_doubles 10 3 (omega arith) (omega arith)

step-IsSafe_example :
    let o = step sample_api sample_sys sample_doubles waiting empty_disk timer_ends in
    IsSafe o.0 o.1
step-IsSafe_example =
    step-IsSafe sample_api sample_sys sample_doubles waiting empty_disk timer_ends
      (inr ("f", waiting-IsActive)) tt

packet_when_idle_example :
    (handle_data sample_api sample_sys idle_downloader empty_disk second_packet).0
    ≡ bad_function_call ∷ []
packet_when_idle_example =
    packet_when_idle sample_api sample_sys idle_downloader empty_disk second_packet
      idle_downloader-IsIdle

-- The download of `sample_request` after its first packet.
abbrev half_way : FileDownloader String
half_way = record waiting {
  current_packet_index = 1;
  file_handler = record { current_packet_data = 1 ∷ 2 ∷ []; previous_packet_hash = 1 ∷ 2 ∷ [] };
}

half_way-IsActive : IsActive "f" half_way
half_way-IsActive = record {
  timer = refl;
  running = record {
    provider = refl;
    success = refl;
    fail = refl;
    index = omega arith;
    count = omega arith;
    requested = omega arith;
    retries = omega arith;
  };
}

half_way-step :
    step sample_api sample_sys sample_doubles waiting empty_disk (packet first_packet) ≡ (
      provide_packet "f" (record { file_name = "f"; chunk_index = 1; chunk_size = 66 }) ∷ [],
      half_way,
      empty_disk,
    )
unfolding step FileHandler.handle_data
half_way-step = refl

half_way-Reach : Reach sample_api sample_sys sample_doubles half_way empty_disk
half_way-Reach =
    Reach.event (packet first_packet)
      (Reach.event (downloads sample_request) (Reach.idle idle_downloader-IsIdle)
        ("f", record { provider = refl; success = refl; fail = refl; fits = sample-Fits })
        download_waits)
      ("f", waiting-IsActive) half_way-step

last_packet :
    (handle_data sample_api sample_sys half_way empty_disk second_packet).0
    ≡ on_success "f" "f" ∷ []
unfolding handle_data FileHandler.handle_data FileHandler.validate_file FileHandler.save_file
    bytes_eq
last_packet = refl

success-IsVerified_example :
    IsVerified sample_api sample_sys half_way "f" "f"
      (handle_data sample_api sample_sys half_way empty_disk second_packet)
success-IsVerified_example =
    success-IsVerified sample_api sample_sys sample_doubles half_way empty_disk second_packet "f"
      "f" "f" half_way-Reach half_way-IsActive last_packet

two_packets-Completes :
    Completes "f" sample_api sample_sys waiting empty_disk (first_packet ∷ second_packet ∷ [])
unfolding bytes_eq
two_packets-Completes = record {
  chain = ((refl, inl (refl, refl)), ((refl, inr ((λ e. cc), refl)), tt));
  number = refl;
  hash = refl;
  written = refl;
}

transfer_succeeds_example :
    let o =
      run sample_api sample_sys sample_doubles waiting empty_disk
        (map packet (first_packet ∷ second_packet ∷ [])) in
    (o.0 ≡ requests "f" waiting 1 1 ++ on_success "f" "f" ∷ [])
    × IsIdle o.1
    × (o.2 "f" ≡ some (1 ∷ 2 ∷ 3 ∷ []))
transfer_succeeds_example =
    transfer_succeeds "f" sample_api sample_sys sample_doubles waiting empty_disk first_packet
      (second_packet ∷ []) waiting-IsActive.running two_packets-Completes

retries_then_fails_example :
    let o =
      run sample_api sample_sys sample_doubles half_way empty_disk
        (timer_ends ∷ packet stray_packet ∷ timer_ends ∷ []) in
    (o.0
      ≡ replicate 2 (request_again sample_api sample_sys sample_doubles "f" half_way)
        ++ on_fail "f" retry_count_exceeded ∷ [])
    × IsIdle o.1
unfolding bytes_eq
retries_then_fails_example =
    retries_then_fails sample_api sample_sys sample_doubles "f" half_way empty_disk 2
      (timer_ends ∷ packet stray_packet ∷ timer_ends ∷ []) half_way-IsActive refl refl
      (tt, ((λ f. ground arith), (tt, tt)))
