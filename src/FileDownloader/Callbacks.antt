-- ===== src/FileDownloader/Callbacks.antt =====
-- Which callbacks a FileDownloader has, and what it calls when an event reaches it.
use wolk_connect_cpp.Base.{◌≡◌, ◌⊎◌, inl, inr, String, none, some, [], ◌∷◌, ByteArray}
use wolk_connect_cpp.Sdk.{BinaryDataApi, FileSystem, FileTransferError, FilePacketRequest}
use wolk_connect_cpp.FileDownloader.{
  FileDownloader, Request, provide_packet, on_success, on_fail, bad_function_call, Outcome,
}
use wolk_connect_cpp.FileDownloader.States.{Event, downloads, packet, aborts, timer_ends}

-- No callback is set.
pub record IsCleared {C : Type 0} (d : FileDownloader C) : Type 0 where
  pub provider : d.packet_provider ≡ none
  pub success : d.current_on_success_callback ≡ none
  pub fail : d.current_on_fail_callback ≡ none

module _ {C : Type 0} (c : C) (name : String) (hash : ByteArray) (directory : String) where
  -- The callbacks capture `c`, and the file has this name, hash and directory.
  pub record Serves (d : FileDownloader C) : Type 0 where
    pub provider : d.packet_provider ≡ some c
    pub success : d.current_on_success_callback ≡ some c
    pub fail : d.current_on_fail_callback ≡ some c
    pub served_name : d.current_file_name ≡ name
    pub served_hash : d.current_file_hash ≡ hash
    pub served_directory : d.current_download_directory ≡ directory

  abbrev pub Dedicated : FileDownloader C → Type 0
  Dedicated d = IsCleared d ⊎ Serves d

  -- The same for the arguments of `download`.
  pub record Asks (r : Request C) : Type 0 where
    pub provider : r.packet_provider ≡ some c
    pub success : r.on_success_callback ≡ some c
    pub fail : r.on_fail_callback ≡ some c
    pub asked_name : r.file_name ≡ name
    pub asked_hash : r.file_hash ≡ hash
    pub asked_directory : r.download_directory ≡ directory

  -- An event of a downloader for this file.
  abbrev pub AsksFor : (api : BinaryDataApi) → Event api C → Type 0
  AsksFor api (downloads r) = Asks r
  AsksFor api (packet b) = Unit
  AsksFor api aborts = Unit
  AsksFor api timer_ends = Unit

  module _ (sys : FileSystem) where
    -- What a downloader calls for one event, and its state after it.
    pub data Reply (o : Outcome C sys) : Type 0 where
      silent : o.0 ≡ [] → Dedicated o.1 → Reply o
      faults : o.0 ≡ bad_function_call ∷ [] → IsCleared o.1 → Reply o
      asks :
          (r : FilePacketRequest)
          → r.file_name ≡ name
          → o.0 ≡ provide_packet c r ∷ []
          → Serves o.1
          → Reply o
      gives_up : (code : FileTransferError) → o.0 ≡ on_fail c code ∷ [] → IsCleared o.1 → Reply o
      saves :
          (bytes : ByteArray)
          → o.0 ≡ on_success c (sys.absolute_path (sys.compose_path name directory)) ∷ []
          → sys.content o.2 (sys.compose_path name directory) ≡ some bytes
          → sys.hash_sha256 bytes ≡ hash
          → IsCleared o.1
          → Reply o

    pub Reply-Dedicated : (o : Outcome C sys) → Reply o → Dedicated o.1
    Reply-Dedicated o (silent e k) = k
    Reply-Dedicated o (faults e k) = inl k
    Reply-Dedicated o (asks r n e k) = inr k
    Reply-Dedicated o (gives_up code e k) = inl k
    Reply-Dedicated o (saves bytes e w h k) = inl k
