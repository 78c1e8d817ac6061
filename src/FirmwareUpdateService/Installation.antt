-- ===== src/FirmwareUpdateService/Installation.antt =====
-- When FirmwareUpdateService.cpp hands a file to the installer.
use wolk_connect_cpp.Base.{
  String, Bool, true, false, not, ◌&&◌, Option, none, some, List, [], ◌∷◌, ◌≡◌, refl, ap, arith,
  str_eq, is_empty, is_some, if◌then◌else◌, inl, inr, Option-cases,
}
use wolk_connect_cpp.FirmwareUpdateService.{
  Setup, Service, FirmwareUpdateInstall, FirmwareUpdateStatus, send_status, install,
  install_version, is_addressed, handle_firmware_update_install, firmware_version_file,
}

module _ (setup : Setup) where
  open setup use {files, installers, providers, repo, device_key}

  send_status-installer :
      (s : Service setup) (status : FirmwareUpdateStatus)
      → (send_status setup s status).firmware_installer ≡ s.firmware_installer
  unfolding send_status
  send_status-installer s status = ground arith

  abbrev pub version_of : Option providers.Provider → String
  version_of none = ""
  version_of (some p) = providers.get_firmware_version p

  -- The version of the device, empty where nothing tells it.
  abbrev pub version : Service setup → String
  version s = version_of s.firmware_version_provider

  -- The keys are this device's alone.
  abbrev pub for_device : List String → Bool
  for_device [] = false
  for_device (k ∷ []) = not (is_empty k) && str_eq k device_key
  for_device (k ∷ j ∷ ks) = false

  is_addressed-for_device : (ks : List String) → is_addressed setup ks ≡ for_device ks
  unfolding is_addressed
  is_addressed-for_device [] = refl
  is_addressed-for_device (k ∷ []) = ground arith
  is_addressed-for_device (k ∷ j ∷ ks) = refl

  -- The command is for this device alone and names a file that is present; there is an installer and a
  -- version; the version file is written and the repository knows the file.
  abbrev pub ready : Service setup → FirmwareUpdateInstall → Bool
  ready s c =
      for_device c.device_keys
      && (not (is_empty c.file_name)
          && (files.is_file_present s.disk c.file_name
              && (not (is_empty (version s))
                  && ((files.create_file_with_content s.disk firmware_version_file (version s)).0
                      && is_some (repo.get_file_info s.repository c.file_name)))))

  -- The installer once it is told to install a file that the repository knows.
  abbrev pub told : Service setup → String → Option installers.Installer
  told s file = elim s.firmware_installer [
    | none ↦ none
    | some i ↦ elim (repo.get_file_info s.repository file) [
      | none ↦ some i
      | some info ↦ some (installers.install i info.path)
    ]
  ]

  install_version-told :
      (s : Service setup) (i : installers.Installer) (file v : String)
      → s.firmware_installer ≡ some i
      → (install_version setup s i file v).firmware_installer ≡ (
          if (files.create_file_with_content s.disk firmware_version_file v).0
            && is_some (repo.get_file_info s.repository file)
          then told s file
          else s.firmware_installer)
  unfolding install_version send_status
  install_version-told s i file v e = ground arith

  pub install-told :
      (s : Service setup) (file : String)
      → (install setup s file).firmware_installer ≡ (
          if not (is_empty (version s))
            && ((files.create_file_with_content s.disk firmware_version_file (version s)).0
                && is_some (repo.get_file_info s.repository file))
          then told s file
          else s.firmware_installer)
  unfolding install send_status
  install-told s file = elim (Option-cases s.firmware_installer) [
    | inl e ↦ ground arith
    | inr (i, e) ↦ elim (Option-cases s.firmware_version_provider) [
      | inl p ↦
          let unknown : is_empty (version s) ≡ true = ap (λ o. is_empty (version_of o)) p in
          ground (arith, unknown)
      | inr (q, p) ↦ ground (
        arith,
        install_version-told s i file (providers.get_firmware_version q) e,
        ap version_of p,
      )
    ]
  ]

  -- An installer, where there is one, is told to install the path that the repository has for the file
  -- exactly when the
  -- command is for this device alone, its file is present and known, there is a version and the version
  -- file is written; otherwise nothing reaches the installer.
  pub install-ready :
      (s : Service setup) (c : FirmwareUpdateInstall)
      → (handle_firmware_update_install setup s c).firmware_installer
        ≡ (if ready s c then told s c.file_name else s.firmware_installer)
  unfolding handle_firmware_update_install send_status
  install-ready s c =
      ground (arith, install-told s c.file_name, is_addressed-for_device c.device_keys)
