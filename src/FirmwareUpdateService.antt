-- ===== src/FirmwareUpdateService.antt =====
-- src/service/firmware/FirmwareUpdateService.h and FirmwareUpdateService.cpp: installs a firmware file
-- that the repository knows, and reports the outcome after the restart from the version that it has
-- written to a file. `none` stands for a call through a null pointer.
pub mod Installation
pub mod Report
pub mod Tests
use wolk_connect_cpp.Base.{
  ℕ, String, Bool, true, false, Option, none, some, List, [], ◌∷◌, ◌++◌, ◌≡◌, str_eq, is_empty,
  if◌then◌else◌,
}
use wolk_connect_cpp.Sdk.Connectivity.{Message}
use wolk_connect_cpp.FileRepository.{FileRepository}

-- FileSystemUtils on text files.
pub record TextFiles : Type 1 where
  pub Disk : Type 0
  pub is_file_present : Disk → String → Bool
  -- readFileContent: `none` leaves the string that the caller passes as it is.
  pub read_file_content : Disk → String → Option String
  pub create_file_with_content : Disk → String → String → Bool × Disk
  pub delete_file : Disk → String → Bool × Disk
  -- A write that reports success has written the file.
  pub is_file_present-create :
      (d : Disk) (path text : String)
      → (create_file_with_content d path text).0 ≡ true
      → is_file_present (create_file_with_content d path text).1 path ≡ true
  pub read_file_content-create :
      (d : Disk) (path text : String)
      → (create_file_with_content d path text).0 ≡ true
      → read_file_content (create_file_with_content d path text).1 path ≡ some text
  -- A deletion that reports success has deleted the file.
  pub is_file_present-delete :
      (d : Disk) (path : String)
      → (delete_file d path).0 ≡ true
      → is_file_present (delete_file d path).1 path ≡ false

-- src/api/FirmwareInstaller.h, over the state of an installer of the application.
pub record FirmwareInstaller : Type 1 where
  pub Installer : Type 0
  pub install : Installer → String → Installer
  pub abort : Installer → Bool × Installer

-- src/api/FirmwareVersionProvider.h
pub record FirmwareVersionProvider : Type 1 where
  pub Provider : Type 0
  pub get_firmware_version : Provider → String

-- model/FirmwareUpdateStatus.h: the statuses and errors that the service builds.
pub data FirmwareUpdateStatus : Type 0 where
  installation completed aborted : FirmwareUpdateStatus
  installation_failed file_system_error file_not_present unspecified_error : FirmwareUpdateStatus

-- model/FirmwareUpdateInstall.h and FirmwareUpdateAbort.h
pub record FirmwareUpdateInstall : Type 0 where
  pub device_keys : List String
  pub file_name : String

pub record FirmwareUpdateAbort : Type 0 where
  pub device_keys : List String

abbrev pub firmware_version_file : String
firmware_version_file = ".dfu-version"

-- What the service is built with; JsonDFUProtocol.h and StringUtils.h are the SDK's.
pub record Setup : Type 1 where
  pub files : TextFiles
  pub installers : FirmwareInstaller
  pub providers : FirmwareVersionProvider
  pub repo : FileRepository
  pub device_key : String
  pub make_firmware_update_install : Message → Option FirmwareUpdateInstall
  pub make_firmware_update_abort : Message → Option FirmwareUpdateAbort
  pub make_status_message : String → FirmwareUpdateStatus → Option Message
  pub make_version_message : String → String → Option Message
  -- removeTrailingWhitespace, which changes its argument.
  pub remove_trailing_whitespace : String → String

pub data Command : Type 0 where
  handle_install : FirmwareUpdateInstall → Command
  handle_abort : FirmwareUpdateAbort → Command
  send_firmware_version : Command

module _ (setup : Setup) where
  open setup use {files, installers, providers, repo, device_key}

  pub record Service : Type 0 where
    pub firmware_installer : Option installers.Installer
    pub firmware_version_provider : Option providers.Provider
    pub repository : repo.Repository
    pub disk : files.Disk
    pub commands : List Command
    -- The messages given to the connection, oldest first; its answers are only logged.
    pub published : List Message

  abbrev pub publish : Service → Option Message → Service
  publish s none = s
  publish s (some m) = record s { published = s.published ++ m ∷ [] }

  pub send_status : Service → FirmwareUpdateStatus → Service
  send_status s status = publish s (setup.make_status_message device_key status)

  pub message_received : Service → Message → Service
  message_received s m = elim (setup.make_firmware_update_install m) [
    | some c ↦ record s { commands = s.commands ++ handle_install c ∷ [] }
    | none ↦ elim (setup.make_firmware_update_abort m) [
      | some c ↦ record s { commands = s.commands ++ handle_abort c ∷ [] }
      | none ↦ s
    ]
  ]

  -- The comparison of the versions, once both are there.
  report : Service → String → String → Service
  unfolding send_status
  report s current stored =
      let told = send_status s (if str_eq current stored then installation_failed else completed) in
      record told { disk = (files.delete_file told.disk firmware_version_file).1 }

  pub report_firmware_update_result : Service → Option Service
  report_firmware_update_result s =
      let stored : String = elim (files.read_file_content s.disk firmware_version_file) [
        | none ↦ ""
        | some t ↦ t
      ] in
      if files.is_file_present s.disk firmware_version_file
      then elim s.firmware_version_provider [
        | none ↦ none
        | some provider ↦
            let current = providers.get_firmware_version provider in
            if is_empty current
            then some s
            else some (report s current (setup.remove_trailing_whitespace stored))
      ]
      else some s

  pub publish_firmware_version : Service → Service
  publish_firmware_version s = record s { commands = s.commands ++ send_firmware_version ∷ [] }

  -- The command that publishFirmwareVersion pushes.
  send_version : Service → Option Service
  send_version s = elim s.firmware_version_provider [
    | none ↦ none
    | some provider ↦
        let version = providers.get_firmware_version provider in
        if is_empty version
        then some s
        else some (publish s (setup.make_version_message device_key version))
  ]

  -- The part of install after the checks and the version.
  install_version : Service → installers.Installer → String → String → Service
  unfolding send_status
  install_version s installer file version =
      let (written, disk) = files.create_file_with_content s.disk firmware_version_file version in
      let after = record s { disk = disk } in
      if written
      then elim (repo.get_file_info after.repository file) [
        | none ↦ send_status after file_system_error
        | some info ↦ record (send_status after installation) {
          firmware_installer = some (installers.install installer info.path);
        }
      ]
      else send_status after file_not_present

  pub install : Service → String → Service
  unfolding send_status
  install s file = elim s.firmware_installer [
    | none ↦ send_status s unspecified_error
    | some installer ↦ elim s.firmware_version_provider [
      | none ↦ send_status s unspecified_error
      | some provider ↦
          let version = providers.get_firmware_version provider in
          if is_empty version then s else install_version s installer file version
    ]
  ]

  pub install_succeeded : Service → Service
  unfolding send_status publish_firmware_version
  install_succeeded s = publish_firmware_version (send_status s completed)

  pub install_failed : Service → Service
  unfolding send_status
  install_failed s = send_status s installation_failed

  abort : Service → Option Service
  unfolding send_status
  abort s = elim s.firmware_installer [
    | none ↦ none
    | some installer ↦
        let (stopped, installer') = installers.abort installer in
        let after = record s { firmware_installer = some installer' } in
        if stopped then some (send_status after aborted) else some after
  ]

  -- Whether a command is for this device alone.
  is_addressed : List String → Bool
  is_addressed [] = false
  is_addressed (key ∷ []) = if is_empty key then false else str_eq key device_key
  is_addressed (key ∷ other ∷ keys) = false

  pub handle_firmware_update_install : Service → FirmwareUpdateInstall → Service
  unfolding is_addressed send_status install
  handle_firmware_update_install s c =
      if is_addressed c.device_keys
      then if is_empty c.file_name
        then send_status s file_system_error
        else if files.is_file_present s.disk c.file_name
        then install s c.file_name
        else send_status s file_system_error
      else s

  pub handle_firmware_update_abort : Service → FirmwareUpdateAbort → Option Service
  unfolding is_addressed abort
  handle_firmware_update_abort s c = if is_addressed c.device_keys then abort s else some s

  -- The body of a command.
  execute : Service → Command → Option Service
  unfolding handle_firmware_update_install handle_firmware_update_abort send_version
  execute s (handle_install c) = some (handle_firmware_update_install s c)
  execute s (handle_abort c) = handle_firmware_update_abort s c
  execute s send_firmware_version = send_version s
