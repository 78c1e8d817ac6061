-- ===== src/FileDownloadService/Collector/Tests.antt =====
-- The threads of FileDownloadService on a concrete device.
use wolk_connect_cpp.Base.{
  ◌≡◌, ◌≢◌, ◌⊎◌, refl, true, false, none, some, List, [], ◌∷◌, map, if◌then◌else◌,
}
use wolk_connect_cpp.FileDownloadService.{find}
use wolk_connect_cpp.FileDownloadService.Tests.{sample_kit, sample_service, downloading, f_entry}
use wolk_connect_cpp.FileDownloadService.Collector.{
  Directories, Threads, waiting, passing, joined, file_download_service, collects, flags, destroys,
  wakes, run_events, flag, destroy, collect, turn,
}
use wolk_connect_cpp.FileDownloadService.Collector.Shutdown.{Thread, goes_on, is_busy, shutdown}
use wolk_connect_cpp.FileDownloadService.Collector.Flags.{collecting, misses, flag-collected}
use wolk_connect_cpp.FileDownloadService.Collector.Passes.{run_events-keeps}

abbrev directories : Directories sample_kit.sys.Disk
directories = record {
  is_directory_present = λ disk path. false;
  create_directory = λ disk path. (true, disk);
}

abbrev started : Threads sample_kit
started = file_download_service sample_kit directories sample_service.disk sample_service.repository

-- The collector has removed nothing and waits.
abbrev resting : Threads sample_kit
resting = record started { service = downloading; collector = waiting }

-- The destructor has stored to m_run while the collector was in its first pass.
abbrev stopping : Threads sample_kit
stopping = run_events sample_kit started (collects ∷ destroys ∷ [])

a_pass_is_running : stopping.collector ≡ passing
unfolding run_events turn collect destroy file_download_service
a_pass_is_running = refl

shutdown_example :
    ((is_busy stopping.collector ≡ false)
      × ((run_events sample_kit (destroy sample_kit stopping) (collects ∷ destroys ∷ [])).destructor
          ≡ joined))
    ⊎ ((is_busy stopping.collector ≡ true)
        × ((threads : List Thread)
            → (run_events sample_kit
                (destroy sample_kit stopping)
                (map (goes_on sample_kit) threads)).destructor
              ≢ joined))
unfolding run_events turn collect destroy file_download_service
shutdown_example = shutdown sample_kit stopping refl refl

flag-collected_example :
    find sample_kit "f"
      (run_events sample_kit
        (flag sample_kit resting "f")
        (collecting sample_kit 2)).service.active_downloads
    ≡ (if misses sample_kit resting.collector then some (record f_entry { flag = true }) else none)
unfolding find file_download_service
flag-collected_example = flag-collected sample_kit resting "f" f_entry 0 refl (refl, tt) refl

run_events-keeps_example :
    find sample_kit "f"
      (run_events sample_kit resting
        (wakes ∷ collects ∷ flags "g" ∷ collects ∷ destroys ∷ [])).service.active_downloads
    ≡ some f_entry
unfolding find
run_events-keeps_example =
    run_events-keeps sample_kit resting (wakes ∷ collects ∷ flags "g" ∷ collects ∷ destroys ∷ [])
      "f" f_entry (refl, tt) (refl, (refl, (refl, (refl, (refl, tt))))) refl refl
