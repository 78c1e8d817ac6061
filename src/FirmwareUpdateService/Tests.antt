-- ===== src/FirmwareUpdateService/Tests.antt =====
-- FirmwareUpdateService on a device with one version file.
use wolk_connect_cpp.Base.{
  ℕ, suc, ◌≡◌, refl, String, true, Option, none, some, [], ◌∷◌, str_eq, str_eq_refl, is_some,
  if◌then◌else◌,
}
use mathlib.Core.Option.{map}
use wolk_connect_cpp.Samples.{sample_repo}
use wolk_connect_cpp.FileRepository.{FileInfo}
use wolk_connect_cpp.FirmwareUpdateService.{
  TextFiles, Setup, Service, FirmwareUpdateInstall, installation_failed, completed, send_status,
  install, handle_firmware_update_install, report_firmware_update_result,
}
use wolk_connect_cpp.FirmwareUpdateService.Installation.{ready, told, install-ready}
use wolk_connect_cpp.FirmwareUpdateService.Report.{
  answered, success, HasVersion, report-after_install,
}

abbrev pub Texts : Type 0
Texts = String → Option String

abbrev pub put : Texts → String → String → Texts
put disk path text other = if str_eq path other then some text else disk other

abbrev pub drop_file : Texts → String → Texts
drop_file disk path other = if str_eq path other then none else disk other

abbrev pub text_files : TextFiles
text_files = record {
  Disk = Texts;
  is_file_present = λ d path. is_some (d path);
  read_file_content = λ d path. d path;
  create_file_with_content = λ d path text. (true, put d path text);
  delete_file = λ d path. (true, drop_file d path);
  is_file_present-create = λ d path text e. rw (str_eq_refl path);
  read_file_content-create = λ d path text e. rw (str_eq_refl path);
  is_file_present-delete = λ d path e. rw (str_eq_refl path);
}

abbrev pub sample_setup : Setup
sample_setup = record {
  files = text_files;
  installers = record { Installer = ℕ; install = λ i path. suc i; abort = λ i. (true, i) };
  providers = record { Provider = String; get_firmware_version = λ p. p };
  repo = sample_repo;
  device_key = "d";
  make_firmware_update_install = λ m. none;
  make_firmware_update_abort = λ m. none;
  make_status_message = λ key status. some (record { content = "x"; channel = key });
  make_version_message = λ key version. none;
  remove_trailing_whitespace = λ text. if str_eq text "1 " then "1" else text;
}

abbrev fw_info : FileInfo
fw_info = record { name = "fw"; hash = "hash"; path = "/fw" }

abbrev pub no_texts : Texts
no_texts path = none

abbrev pub sample_service : Service sample_setup
sample_service = record {
  firmware_installer = some 0;
  firmware_version_provider = some "1";
  repository = fw_info ∷ [];
  disk = put no_texts "fw" "new firmware";
  commands = [];
  published = [];
}

abbrev install_fw : FirmwareUpdateInstall
install_fw = record { device_keys = "d" ∷ []; file_name = "fw" }

install-ready_example :
    (handle_firmware_update_install sample_setup sample_service install_fw).firmware_installer ≡ (
      if ready sample_setup sample_service install_fw
      then told sample_setup sample_service "fw"
      else some 0)
install-ready_example = install-ready sample_setup sample_service install_fw

installer_is_told :
    (if ready sample_setup sample_service install_fw
      then told sample_setup sample_service "fw"
      else some 0)
    ≡ some 1
installer_is_told = refl

version_one :
    (s : Service sample_setup)
    → s.firmware_version_provider ≡ some "1"
    → HasVersion sample_setup "1" s
version_one s e = record { provider = "1"; provided = e; version = refl; known = refl }

-- The device after the installer has answered with success, and after a restart with the new firmware.
abbrev restarted : Service sample_setup
restarted = record sample_service {
  firmware_version_provider = some "2";
  disk = (answered sample_setup (install sample_setup sample_service "fw") success).disk;
}

report-after_install_example :
    map
      (λ (x : Service sample_setup). x.published)
      (report_firmware_update_result sample_setup restarted)
    ≡ some
        (send_status sample_setup restarted
          (if str_eq "2" "1" then installation_failed else completed)).published
report-after_install_example =
    report-after_install sample_setup "1" "2" sample_service restarted 0 "fw" success refl
      (version_one sample_service refl) refl refl
      (record { provider = "2"; provided = refl; version = refl; known = refl })
