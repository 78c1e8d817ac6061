-- ===== src/FileDownloadService/Collector.antt =====
-- The constructor and the destructor of FileDownloadService.cpp, and the thread of its collector with
-- the condition variable. Each event is what one thread does between two points at which another can
-- run.
pub mod Shutdown
pub mod Passes
pub mod Flags
pub mod Tests
use wolk_connect_cpp.Base.{
  ℕ, zero, suc, String, Bool, true, false, Option, none, some, List, [], ◌∷◌, if◌then◌else◌,
}
use wolk_connect_cpp.FileDownloadService.{Kit, Service, flag_completed_download}
use wolk_connect_cpp.FileDownloadService.Handlers.{clear_downloads}

-- utilities/FileSystemUtils.h of WolkSDK-Cpp, as far as the constructor uses it.
pub record Directories (Disk : Type 0) : Type 0 where
  pub is_directory_present : Disk → String → Bool
  pub create_directory : Disk → String → Bool × Disk

-- Where the collector is: at the test of m_run, at its pass over the downloads, between the pass and
-- the wait, in the wait, or at its end.
pub data Stage : Type 0 where
  testing passing leaving waiting ended : Stage

-- Where the destructor is: not called, past the store to m_run, past notifyCleanup, past the join.
pub data Destructor : Type 0 where
  uncalled stopped notified joined : Destructor

module _ (kit : Kit) where
  open kit use {sys, repo}

  pub record Threads : Type 0 where
    pub service : Service kit
    pub run : Bool
    pub collector : Stage
    pub destructor : Destructor

  -- FileDownloadService()
  pub file_download_service : Directories sys.Disk → sys.Disk → repo.Repository → Threads
  file_download_service directories disk repository =
      let disk' =
        if directories.is_directory_present disk kit.file_download_directory
        then disk
        else (directories.create_directory disk kit.file_download_directory).1 in
      record {
        service = record {
          active_download = "";
          active_downloads = [];
          commands = [];
          repository = repository;
          disk = disk';
          published = [];
          url_calls = [];
        };
        run = true;
        collector = testing;
        destructor = uncalled;
      }

  -- m_condition.notify_one(): it wakes the collector where that waits, and is lost where it does not.
  pub notify_cleanup : Threads → Threads
  notify_cleanup t = elim t.collector [ waiting ↦ record t { collector = testing } | _ ↦ t ]

  -- The collector goes on until the next point; it stays in its wait and at its end.
  pub collect : Threads → Threads
  collect t = elim t.collector [
    | testing ↦ record t { collector = if t.run then passing else ended }
    | passing ↦ record t {
      service = record t.service {
        active_downloads = clear_downloads kit t.service.active_downloads;
      };
      collector = leaving;
    }
    | leaving ↦ record t { collector = waiting }
    | waiting ↦ t
    | ended ↦ t
  ]

  -- flagCompletedDownload, which notifies whether or not it finds the download.
  pub flag : Threads → String → Threads
  unfolding notify_cleanup
  flag t key = notify_cleanup (record t { service = flag_completed_download kit t.service key })

  -- The destructor goes on; it can join the collector only at its end.
  pub destroy : Threads → Threads
  unfolding notify_cleanup
  destroy t = elim t.destructor [
    | uncalled ↦ record t { run = false; destructor = stopped }
    | stopped ↦ notify_cleanup (record t { destructor = notified })
    | notified ↦ elim t.collector [ ended ↦ record t { destructor = joined } | _ ↦ t ]
    | joined ↦ t
  ]

  pub data Event : Type 0 where
    collects : Event
    flags : String → Event
    destroys : Event
    -- A wake-up of the condition variable without a notification.
    wakes : Event

  pub turn : Threads → Event → Threads
  unfolding collect flag destroy notify_cleanup
  turn t collects = collect t
  turn t (flags key) = flag t key
  turn t destroys = destroy t
  turn t wakes = notify_cleanup t

  pub run_events : Threads → List Event → Threads
  unfolding turn
  run_events t [] = t
  run_events t (e ∷ es) = run_events (turn t e) es
