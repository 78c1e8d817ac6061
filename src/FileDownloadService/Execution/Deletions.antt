-- ===== src/FileDownloadService/Execution/Deletions.antt =====
-- The command to delete a file, from its message to what it leaves.
use wolk_connect_cpp.Base.{
  String, true, false, none, some, [], ◌∷◌, ◌++◌, ◌≡◌, ◌∙◌, refl, ap, arith, is_empty, str_eq_refl,
}
use wolk_connect_cpp.Sdk.Connectivity.{Message}
use wolk_connect_cpp.FileRepository.{FileInfo, Keeps}
use wolk_connect_cpp.FileDownloadService.{Kit, Service, Command, send_file_list}
use wolk_connect_cpp.FileDownloadService.Handlers.{
  DownloadProtocol, message_received, handle_delete, delete_file,
}
use wolk_connect_cpp.FileDownloadService.Execution.{next_command, execute}

module _ (kit : Kit) (protocol : DownloadProtocol kit) where
  open kit use {sys, repo}

  -- The protocol reads the message as the command to delete this file.
  abbrev pub IsDelete : Message → String → Type 0
  IsDelete m name =
      (protocol.make_binary_data m ≡ none)
      × (protocol.make_file_upload_initiate m ≡ none)
      × (protocol.make_file_upload_abort m ≡ none)
      × (protocol.make_file_delete m ≡ some name)

  received :
      (s : Service kit) (m : Message) (name : String)
      → IsDelete m name
      → message_received kit protocol s m
        ≡ record s { commands = s.commands ++ Command.handle_delete name ∷ [] }
  unfolding message_received
  received s m name (b, i, a, d) = rw (b, message_received, i, a, d) refl

  twice :
      (s : Service kit) (m : Message) (name : String)
      → s.commands ≡ []
      → IsDelete m name
      → message_received kit protocol (message_received kit protocol s m) m
        ≡ record s { commands = Command.handle_delete name ∷ Command.handle_delete name ∷ [] }
  twice s m name idle command =
      received (message_received kit protocol s m) m name command
      ∙ ap
          (λ (x : Service kit). record x {
            commands = x.commands ++ Command.handle_delete name ∷ [];
          })
          (received s m name command)
      ∙ ap
          (λ cs. record s {
            commands = (cs ++ Command.handle_delete name ∷ []) ++ Command.handle_delete name ∷ [];
          })
          idle

  -- The service after the first of two commands to delete a file.
  abbrev deleted_once : Service kit → String → FileInfo → Service kit
  deleted_once s name info = record s {
    commands = Command.handle_delete name ∷ Command.send_file_list_update ∷ [];
    repository = repo.remove s.repository name;
    disk = (sys.delete_file s.disk info.path).1;
  }

  first_delete :
      (s : Service kit) (name : String) (info : FileInfo)
      → is_empty name ≡ false
      → repo.get_file_info s.repository name ≡ some info
      → (sys.delete_file s.disk info.path).0 ≡ true
      → next_command kit
          (record s { commands = Command.handle_delete name ∷ Command.handle_delete name ∷ [] })
        ≡ some (deleted_once s name info)
  unfolding next_command execute handle_delete delete_file send_file_list
  first_delete s name info named e d = rw (named, handle_delete, e, delete_file, d) refl

  unknown_delete :
      (s : Service kit) (name : String)
      → is_empty name ≡ false
      → repo.get_file_info s.repository name ≡ none
      → handle_delete kit s name ≡ none
  unfolding handle_delete delete_file
  unknown_delete s name named e = ground arith

  -- When a command to delete a file, by a name that is not empty, comes twice before the first is
  -- handled, while no other command waits, the repository keeps what it is told and has the file, and
  -- the disk deletes it: the first command makes the repository forget the file, and the second ends the
  -- process by a null dereference.
  pub repeated_delete-Faults :
      (keeps : Keeps repo) (s : Service kit) (m : Message) (name : String) (info : FileInfo)
      → s.commands ≡ []
      → IsDelete m name
      → is_empty name ≡ false
      → repo.get_file_info s.repository name ≡ some info
      → (sys.delete_file s.disk info.path).0 ≡ true
      → (s1 : Service kit) × (next_command kit
            (message_received kit protocol (message_received kit protocol s m) m)
          ≡ some s1)
        × (repo.get_file_info s1.repository name ≡ none)
        × (next_command kit s1 ≡ none)
  unfolding next_command execute
  repeated_delete-Faults keeps s m name info idle command named e d =
      let forgotten : repo.get_file_info (repo.remove s.repository name) name ≡ none =
        keeps.get_file_info-remove s.repository name name ∙ rw (str_eq_refl name) refl in
      (
        deleted_once s name info,
        ap (next_command kit) (twice s m name idle command) ∙ first_delete s name info named e d,
        forgotten,
        unknown_delete
            (record (deleted_once s name info) { commands = Command.send_file_list_update ∷ [] })
            name named forgotten,
      )
