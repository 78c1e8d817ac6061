-- ===== src/Wolk/Commands/Connection.antt =====
-- How src/Wolk.cpp connects: it tries until the connection is there, and then announces the device.
use wolk_connect_cpp.Base.{
  ℕ, zero, suc, String, Bool, true, false, Option, none, some, List, [], ◌∷◌, ◌++◌, map, ◌≡◌, ◌∙◌,
  refl, ap, sym, is_some, arith, inl, inr, Option-cases,
}
use mathlib.Core.Option
use mathlib.Core.List.{append_assoc, append-nil}
use wolk_connect_cpp.KeepAliveService.{KeepAliveService}
use wolk_connect_cpp.FirmwareUpdateService.{report_firmware_update_result, publish_firmware_version}
use wolk_connect_cpp.KeepAliveService
use wolk_connect_cpp.FileDownloadService
use wolk_connect_cpp.FirmwareUpdateService
use wolk_connect_cpp.FirmwareUpdateService.Report.{report-provided}
use wolk_connect_cpp.Wolk.{
  Platform, Wolk, Command, try_connect_command, publish_actuator_status_command,
  publish_configuration_command, publish_command, disconnect_command, connect, disconnect, publish,
  publish_configuration,
}
use wolk_connect_cpp.Wolk.Commands.{
  keep_alive_connected, publish_firmware_status, publish_actuator_statuses, publish_file_list,
  notify_connected, notify_disconnected, disconnect_now, try_connect, execute, next_command, run,
}

module _ (platform : Platform) where
  open platform use {net, env, setup, kit, status_protocol}

  abbrev linked : Wolk platform → net.Network → List (Command platform) → Wolk platform
  linked w network cs = record w { world = record w.world { network = network }; commands = cs }

  -- The connection fails a number of times, and then succeeds.
  abbrev pub ConnectsAfter : ℕ → net.Network → net.Network → Type 0
  ConnectsAfter zero n n' = platform.connect n ≡ (true, n')
  ConnectsAfter (suc k) n n' =
      ((platform.connect n).0 ≡ false) × ConnectsAfter k (platform.connect n).1 n'

  attempt_fails :
      (w : Wolk platform)
      → (platform.connect w.world.network).0 ≡ false
      → try_connect platform w
        ≡ some (
            linked w
              (platform.connect w.world.network).1
              (w.commands ++ try_connect_command false ∷ []))
  unfolding try_connect
  attempt_fails w e = rw (e, try_connect) refl

  attempt_succeeds :
      (w : Wolk platform) (n' : net.Network)
      → platform.connect w.world.network ≡ (true, n')
      → try_connect platform w ≡ notify_connected platform (linked w n' w.commands)
  unfolding try_connect
  attempt_succeeds w n' e = rw (e, try_connect) refl

  unchanged :
      (o : Option (Wolk platform))
      → ◌≡◌ {A = Option (Wolk platform)} (elim o [ none ↦ none | some w ↦ some w ]) o
  unchanged none = refl
  unchanged (some w) = refl

  retries :
      (fuel k : ℕ) (first_time : Bool) (w : Wolk platform) (n n' : net.Network)
      → ConnectsAfter k n n'
      → run platform fuel (suc k) (linked w n (try_connect_command first_time ∷ []))
        ≡ notify_connected platform (linked w n' [])
  unfolding run next_command execute
  retries fuel zero first_time w n n' c =
      rw (attempt_succeeds (linked w n []) n' c, run)
        (unchanged (notify_connected platform (linked w n' [])))
  retries fuel (suc k) first_time w n n' c =
      rw (attempt_fails (linked w n []) c.0, run)
        (retries fuel k false w (platform.connect n).1 n' c.1)

  -- The commands that announce the device: a status of each actuator, the configuration, and all that
  -- waits to be published.
  abbrev pub announcements : List String → List (Command platform)
  announcements references =
      map publish_actuator_status_command references
      ++ publish_configuration_command ∷ publish_command ∷ []

  publish_actuator_statuses-commands :
      (w : Wolk platform) (rs : List String)
      → publish_actuator_statuses platform w rs
        ≡ record w { commands = w.commands ++ map publish_actuator_status_command rs }
  unfolding publish_actuator_statuses
  publish_actuator_statuses-commands w [] =
      ap (λ cs. record w { commands = cs }) (sym (append-nil w.commands))
  publish_actuator_statuses-commands w (r ∷ rs) =
      let next = record w { commands = w.commands ++ publish_actuator_status_command r ∷ [] } in
      publish_actuator_statuses-commands next rs
      ∙ ap (λ cs. record w { commands = cs })
          (append_assoc w.commands (publish_actuator_status_command r ∷ [])
            (map publish_actuator_status_command rs))

  -- The services as the connection leaves them.
  abbrev pub pinging : Wolk platform → Option (KeepAliveService status_protocol)
  pinging w = Option.map (KeepAliveService.connected status_protocol) w.keep_alive_service

  abbrev pub listing : Wolk platform → Option (FileDownloadService.Service kit)
  listing w = Option.map (FileDownloadService.send_file_list kit) w.file_download_service

  keep_alive_connected_lem :
      (w : Wolk platform)
      → keep_alive_connected platform w ≡ record w { keep_alive_service = pinging w }
  unfolding keep_alive_connected
  keep_alive_connected_lem w = ground arith

  publish_file_list_lem :
      (w : Wolk platform)
      → publish_file_list platform w ≡ record w { file_download_service = listing w }
  unfolding publish_file_list
  publish_file_list_lem w = ground arith

  -- The firmware service can tell its version.
  abbrev pub Versioned : Wolk platform → Type 0
  Versioned w =
      (s : FirmwareUpdateService.Service setup)
      → w.firmware_update_service ≡ some s
      → is_some s.firmware_version_provider ≡ true

  publish_firmware_status_lem :
      (w : Wolk platform)
      → Versioned w
      → (f : Option (FirmwareUpdateService.Service setup)) × (publish_firmware_status platform w
          ≡ some (record w { firmware_update_service = f }))
  unfolding publish_firmware_status
  publish_firmware_status_lem w v = elim (Option-cases w.firmware_update_service) [
    | inl e ↦ (w.firmware_update_service, ground arith)
    | inr (s, e) ↦
        let (s', reported) = report-provided setup s (v s e) in
        (some (publish_firmware_version setup s'), ground arith)
  ]

  -- The device as it is announced on a connection.
  pub record Announced (w w' : Wolk platform) (network : net.Network) : Type 0 where
    pub commands : w'.commands ≡ w.commands ++ announcements w.actuator_references
    pub world : w'.world ≡ record w.world { network = network }
    pub keep_alive_service : w'.keep_alive_service ≡ pinging w
    pub file_download_service : w'.file_download_service ≡ listing w

  announce_lem :
      (w : Wolk platform)
      → publish platform (
          publish_file_list platform (
            publish_configuration platform
              (publish_actuator_statuses platform w w.actuator_references)))
        ≡ record w {
          file_download_service = listing w;
          commands =
              ((w.commands ++ map publish_actuator_status_command w.actuator_references)
                ++ publish_configuration_command ∷ [])
              ++ publish_command ∷ [];
        }
  announce_lem w =
      ap (λ x. publish platform (publish_file_list platform (publish_configuration platform x)))
        (publish_actuator_statuses-commands w w.actuator_references)
      ∙ ap (publish platform) (
          publish_file_list_lem (record w {
            commands =
                (w.commands ++ map publish_actuator_status_command w.actuator_references)
                ++ publish_configuration_command ∷ [];
          }))

  notify_connected-Announced :
      (w : Wolk platform)
      → Versioned w
      → (w' : Wolk platform) × (notify_connected platform w ≡ some w')
        × Announced w w' w.world.network
  unfolding notify_connected
  notify_connected-Announced w v =
      let pinged : Wolk platform = record w { keep_alive_service = pinging w } in
      let (f, told) = publish_firmware_status_lem pinged v in
      let reported : Wolk platform = record pinged { firmware_update_service = f } in
      let statuses = map publish_actuator_status_command w.actuator_references in
      let announced : Wolk platform = record reported {
        file_download_service = listing w;
        commands =
            ((w.commands ++ statuses) ++ publish_configuration_command ∷ [])
            ++ publish_command ∷ [];
      } in
      (
        announced,
        rw
            (
              ap (publish_firmware_status platform) (keep_alive_connected_lem w) ∙ told,
              notify_connected,
            )
            (ap some (announce_lem reported)),
        record {
          commands =
              append_assoc (w.commands ++ statuses) (publish_configuration_command ∷ [])
                (publish_command ∷ [])
              ∙ append_assoc w.commands statuses
                  (publish_configuration_command ∷ publish_command ∷ []);
          world = refl;
          keep_alive_service = refl;
          file_download_service = refl;
        },
      )

  -- A call of `connect` while no command waits tries until the connection is there. When the attempts
  -- fail any number of times and then succeed, and the firmware service, if there is one, has a version
  -- provider, the pings run, the file list is asked for, and exactly these commands wait: a status of
  -- each actuator in the order of the device, the configuration, and everything that is stored.
  pub connect-announces :
      (fuel k : ℕ) (w : Wolk platform) (n' : net.Network)
      → w.commands ≡ []
      → ConnectsAfter k w.world.network n'
      → Versioned w
      → (w' : Wolk platform) × (run platform fuel (suc k) (connect platform w) ≡ some w')
        × Announced (record w { commands = [] }) w' n'
  unfolding connect
  connect-announces fuel k w n' e c v =
      let (w', announced, state) = notify_connected-Announced (linked w n' []) v in
      (
        w',
        ap
              (λ cs.
                run platform fuel (suc k)
                  (record w { commands = cs ++ try_connect_command true ∷ [] }))
              e
            ∙ retries fuel k true w w.world.network n' c
            ∙ announced,
        record {
          commands = state.commands;
          world = state.world;
          keep_alive_service = state.keep_alive_service;
          file_download_service = state.file_download_service;
        },
      )

  abbrev unpinging : Wolk platform → Option (KeepAliveService status_protocol)
  unpinging w = Option.map (KeepAliveService.disconnected status_protocol) w.keep_alive_service

  notify_disconnected_lem :
      (w : Wolk platform)
      → notify_disconnected platform w ≡ record w { keep_alive_service = unpinging w }
  unfolding notify_disconnected
  notify_disconnected_lem w = ground arith

  disconnect_now_lem :
      (w : Wolk platform) (n : net.Network) (cs : List (Command platform))
      → disconnect_now platform (linked w n cs)
        ≡ linked (record w { keep_alive_service = unpinging w }) (platform.disconnect n) cs
  unfolding disconnect_now
  disconnect_now_lem w n cs = notify_disconnected_lem (linked w (platform.disconnect n) cs)

  -- A call of `disconnect` does not end the attempts to connect. When the first attempt fails, the call
  -- runs, and the next attempt succeeds, the device goes on as on any connection.
  pub disconnect-reconnects :
      (fuel : ℕ) (w : Wolk platform) (n' : net.Network)
      → w.commands ≡ []
      → (platform.connect w.world.network).0 ≡ false
      → platform.connect (platform.disconnect (platform.connect w.world.network).1) ≡ (true, n')
      → run platform fuel 3 (disconnect platform (connect platform w))
        ≡ notify_connected platform (
            notify_disconnected platform
              (record w { commands = []; world = record w.world { network = n' } }))
  unfolding connect disconnect run next_command execute
  disconnect-reconnects fuel w n' e fails succeeds =
      let after_failure = (platform.connect w.world.network).1 in
      ap
        (λ cs. run platform fuel 3 (record w {
          commands = (cs ++ try_connect_command true ∷ []) ++ disconnect_command ∷ [];
        }))
        e
      ∙ rw (attempt_fails (linked w w.world.network (disconnect_command ∷ [])) fails, run)
          (ap (run platform fuel 1)
              (disconnect_now_lem w after_failure (try_connect_command false ∷ []))
            ∙ retries fuel 0 false (record w { keep_alive_service = unpinging w })
                (platform.disconnect after_failure) n' succeeds
            ∙ ap (notify_connected platform) (sym (notify_disconnected_lem (linked w n' []))))
