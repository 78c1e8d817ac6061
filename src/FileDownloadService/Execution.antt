-- ===== src/FileDownloadService/Execution.antt =====
-- The threads around FileDownloadService.cpp as steps: the command buffer of the service, the buffers
-- and timers of its downloaders, the collector of finished downloads. `none` ends the process: a null
-- dereference or an exception that a command lets out.
pub mod Integrity
pub mod Reactions
pub mod Interleavings
pub mod Deliveries
pub mod Deletions
pub mod Tests
use wolk_connect_cpp.Base.{
  String, Bool, true, false, Option, none, some, List, [], ◌∷◌, ◌++◌, if◌then◌else◌,
}
use wolk_connect_cpp.Sdk.Connectivity.{Message}
use wolk_connect_cpp.FileDownloader.{Effect, provide_packet, on_success, on_fail, bad_function_call}
use wolk_connect_cpp.FileDownloader.States.{Event, timer_ends, step}
use wolk_connect_cpp.FileDownloadService
use wolk_connect_cpp.FileDownloadService.{
  Kit, Captured, Command, Entry, Service, find, assign, request_packet,
}
use wolk_connect_cpp.FileDownloadService.FileList.{send_file_list_now}
use wolk_connect_cpp.FileDownloadService.Handlers.{
  handle_binary_data, handle_upload_initiate, handle_upload_abort, handle_delete,
  handle_url_initiate, handle_url_abort, purge_files, download_completed, download_failed,
  store_downloaded, store_url_downloaded, clear_downloads,
}

module _ (kit : Kit) where
  open kit use {api, sys, doubles}

  -- The body of a command.
  pub execute : Service kit → Command kit → Option (Service kit)
  execute s (Command.handle_binary_data b) = some (handle_binary_data kit s b)
  execute s (Command.handle_upload_initiate r) = some (handle_upload_initiate kit s r)
  execute s (Command.handle_upload_abort name) = some (handle_upload_abort kit s name)
  execute s (Command.handle_delete name) = handle_delete kit s name
  execute s Command.handle_purge = some (purge_files kit s)
  execute s (Command.handle_url_initiate url) = some (handle_url_initiate kit s url)
  execute s (Command.handle_url_abort url) = some (handle_url_abort kit s url)
  execute s Command.send_file_list_update = some (send_file_list_now kit s)
  execute s (Command.store_downloaded name path hash) = some (store_downloaded kit s name path hash)
  execute s (Command.store_url_downloaded url name path) =
      some (store_url_downloaded kit s url name path)

  -- The command buffer takes its first command.
  pub next_command : Service kit → Option (Service kit)
  next_command s = elim s.commands [ [] ↦ some s | c ∷ cs ↦ execute (record s { commands = cs }) c ]

  -- The callbacks of a download.
  pub react : Service kit → Effect Captured → Option (Service kit)
  react s (provide_packet c r) = some (request_packet kit s r)
  react s (on_success c path) = some (download_completed kit s c.file_name path c.file_hash)
  react s (on_fail c code) = some (download_failed kit s c.file_name code)
  react s bad_function_call = none

  pub react_all : Service kit → List (Effect Captured) → Option (Service kit)
  unfolding react
  react_all s [] = some s
  react_all s (e ∷ es) = elim (react s e) [ none ↦ none | some s' ↦ react_all s' es ]

  -- The downloader of a file handles an event, and its callbacks run.
  pub happens : Service kit → String → Entry kit → Event api Captured → Option (Service kit)
  unfolding assign react_all
  happens s key e event =
      let (effects, d, disk) = step api sys doubles e.downloader s.disk event in
      react_all
        (record s {
          active_downloads = assign kit key (record e { downloader = d }) s.active_downloads;
          disk = disk;
        })
        effects

  -- The buffer of a downloader takes its first command.
  pub next_event : Service kit → String → Option (Service kit)
  unfolding find happens
  next_event s key = elim (find kit key s.active_downloads) [
    | none ↦ some s
    | some e ↦ elim e.waiting [
      | [] ↦ some s
      | event ∷ events ↦ happens s key (record e { waiting = events }) event
    ]
  ]

  -- The timer of a downloader ends.
  pub timer_event : Service kit → String → Option (Service kit)
  unfolding find happens
  timer_event s key = elim (find kit key s.active_downloads) [
    | none ↦ some s
    | some e ↦ happens s key e timer_ends
  ]

  -- One pass of the collector.
  pub collect : Service kit → Service kit
  collect s = record s { active_downloads = clear_downloads kit s.active_downloads }
