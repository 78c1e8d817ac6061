-- ===== src/FirmwareUpdateService/Report.antt =====
-- The report of FirmwareUpdateService.cpp after a restart.
use wolk_connect_cpp.Base.{
  ◌≢◌, is_some, Option-cases, inl, inr, String, true, false, none, some, ◌≡◌, refl, ap, sym, subst,
  ◌∙◌, arith, str_eq, is_empty, if◌then◌else◌,
}
use mathlib.Core.Option.{map, some-injective}
use wolk_connect_cpp.FirmwareUpdateService.{
  Setup, Service, FirmwareUpdateStatus, installation_failed, completed, send_status, install,
  install_succeeded, install_failed, publish_firmware_version, install_version, report,
  report_firmware_update_result, firmware_version_file,
}

-- What an installer has called back by the time of a restart.
pub data Answer : Type 0 where
  silence success failure : Answer

module _ (setup : Setup) where
  open setup use {files, installers, providers, repo, device_key}

  abbrev pub answered : Service setup → Answer → Service setup
  answered s silence = s
  answered s success = install_succeeded setup s
  answered s failure = install_failed setup s

  -- The version file holds a version.
  pub record IsPending (v : String) (s : Service setup) : Type 0 where
    pub present : files.is_file_present s.disk firmware_version_file ≡ true
    pub content : files.read_file_content s.disk firmware_version_file ≡ some v

  -- A service that can tell its version.
  pub record HasVersion (v : String) (s : Service setup) : Type 0 where
    pub provider : providers.Provider
    pub provided : s.firmware_version_provider ≡ some provider
    pub version : providers.get_firmware_version provider ≡ v
    pub known : is_empty v ≡ false

  never :
      (s : Service setup)
      → is_some s.firmware_version_provider ≡ true
      → report_firmware_update_result setup s ≢ none
  unfolding report_firmware_update_result
  never s e fault = ground arith

  -- With a version provider, a report calls nothing through a null pointer.
  pub report-provided :
      (s : Service setup)
      → is_some s.firmware_version_provider ≡ true
      → (s' : Service setup) × (report_firmware_update_result setup s ≡ some s')
  report-provided s e = elim (Option-cases (report_firmware_update_result setup s)) [
    | inl fault ↦ absurd (never s e fault)
    | inr found ↦ found
  ]

  send_status-disk :
      (s : Service setup) (status : FirmwareUpdateStatus)
      → (send_status setup s status).disk ≡ s.disk
  unfolding send_status
  send_status-disk s status = ground arith

  install_version-disk :
      (v : String) (s : Service setup) (i : installers.Installer) (file : String)
      → (files.create_file_with_content s.disk firmware_version_file v).0 ≡ true
      → (install_version setup s i file v).disk
        ≡ (files.create_file_with_content s.disk firmware_version_file v).1
  unfolding install_version send_status
  install_version-disk v s i file w = ground arith

  -- Once an installer and a version are there and the version file is written, it holds the version of
  -- before the installation, whether or not the repository knows the file.
  install-IsPending :
      (v : String) (s : Service setup) (i : installers.Installer) (file : String)
      → s.firmware_installer ≡ some i
      → HasVersion v s
      → (files.create_file_with_content s.disk firmware_version_file v).0 ≡ true
      → IsPending v (install setup s file)
  unfolding install
  install-IsPending v s i file h p w =
      let disk = (files.create_file_with_content s.disk firmware_version_file v).1 in
      let same : (install setup s file).disk ≡ disk =
        rw (h, install, p.provided, p.version, p.known) (install_version-disk v s i file w) in
      record {
        present =
            ap (λ d. files.is_file_present d firmware_version_file) same
            ∙ files.is_file_present-create s.disk firmware_version_file v w;
        content =
            ap (λ d. files.read_file_content d firmware_version_file) same
            ∙ files.read_file_content-create s.disk firmware_version_file v w;
      }

  -- A pending version is compared with the current one.
  report-lem :
      (v w : String) (s : Service setup)
      → IsPending v s
      → HasVersion w s
      → report_firmware_update_result setup s
        ≡ some (report setup s w (setup.remove_trailing_whitespace v))
  unfolding report_firmware_update_result
  report-lem v w s p h =
      simp (p.present, report_firmware_update_result, h.provided, h.version, h.known, p.content)

  answered-disk : (s : Service setup) (answer : Answer) → (answered s answer).disk ≡ s.disk
  unfolding install_succeeded install_failed publish_firmware_version
  answered-disk s silence = refl
  answered-disk s success = send_status-disk s completed
  answered-disk s failure = send_status-disk s installation_failed

  -- After an installation has begun (there are an installer and a version, and the version file is
  -- written), whether the installer has answered with success, with failure or not at all, the first
  -- report on the same disk publishes COMPLETED when the version is another than the one before, without
  -- its trailing whitespace, and INSTALLATION_FAILED when it is the same.
  pub report-after_install :
      (v w : String) (s s' : Service setup) (i : installers.Installer) (file : String)
      (answer : Answer)
      → s.firmware_installer ≡ some i
      → HasVersion v s
      → (files.create_file_with_content s.disk firmware_version_file v).0 ≡ true
      → s'.disk ≡ (answered (install setup s file) answer).disk
      → HasVersion w s'
      → map (λ (x : Service setup). x.published) (report_firmware_update_result setup s')
        ≡ some
            (send_status setup s' (
              if str_eq w (setup.remove_trailing_whitespace v)
              then installation_failed
              else completed)).published
  unfolding report
  report-after_install v w s s' i file answer h p written e q =
      let before = install-IsPending v s i file h p written in
      let d = e ∙ answered-disk (install setup s file) answer in
      let pending : IsPending v s' = record {
        present = ap (λ x. files.is_file_present x firmware_version_file) d ∙ before.present;
        content = ap (λ x. files.read_file_content x firmware_version_file) d ∙ before.content;
      } in
      rw (report-lem v w s' pending q) refl

  report_gone :
      (s : Service setup) (w stored : String)
      → (files.delete_file s.disk firmware_version_file).0 ≡ true
      → report_firmware_update_result setup (report setup s w stored)
        ≡ some (report setup s w stored)
  unfolding report_firmware_update_result report
  report_gone s w stored deleted =
      let told = send_status setup s (if str_eq w stored then installation_failed else completed) in
      rw
        (
          send_status-disk s (if str_eq w stored then installation_failed else completed),
          files.is_file_present-delete s.disk firmware_version_file deleted,
        )
        refl

  -- A report that deletes the version file is the last: the next one changes nothing.
  report_twice :
      (v w : String) (s s' : Service setup)
      → IsPending v s
      → HasVersion w s
      → (files.delete_file s.disk firmware_version_file).0 ≡ true
      → report_firmware_update_result setup s ≡ some s'
      → report_firmware_update_result setup s' ≡ some s'
  report_twice v w s s' p q deleted e =
      let stored = setup.remove_trailing_whitespace v in
      subst (λ x. report_firmware_update_result setup x ≡ some x)
        (some-injective _ _ (sym (report-lem v w s p q) ∙ e)) (report_gone s w stored deleted)
