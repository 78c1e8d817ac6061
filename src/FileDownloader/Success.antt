-- ===== src/FileDownloader/Success.antt =====
-- A success that a FileDownloader reports, and the file behind it.
use wolk_connect_cpp.Base.{
  ℕ, ◌+◌, ◌%◌, ◌^◌, ◌<◌, ◌≡◌, inl, inr, Bool, String, some, List, [], ◌∷◌, ◌++◌, length, arith,
  ◌==◌, Bool-cases, sym, ap, ◌∙◌, subst,
}
use wolk_connect_cpp.Sdk.{BinaryDataApi, FileSystem, Doubles}
use wolk_connect_cpp.FileHandler.{FileHandler, StatusCode, validate_file, save_file}
use wolk_connect_cpp.FileHandler.Laws.{
  Chain, contents, handle_data-cases, append, validate_file-ok_iff, save_file-ok,
}
use wolk_connect_cpp.FileDownloader.{
  FileDownloader, on_success, Outcome, packet_failed, handle_data, complete, packet_accepted,
  received, u32_mod,
}
use wolk_connect_cpp.FileDownloader.States.{IsActive}
use wolk_connect_cpp.FileDownloader.Soundness.{Holds, Holds-append, Reach, Reach-IsValid}

module _ (api : BinaryDataApi) (sys : FileSystem) {C : Type 0} where
  -- What a reported success means.
  pub record IsVerified (d : FileDownloader C) (c : C) (path : String) (o : Outcome C sys)
      : Type 0 where
    pub packets : List api.BinaryData
    pub chain : Chain api [] packets
    pub all_there : length packets ≡ d.current_packet_count
    pub hash : d.current_file_hash ≡ sys.hash_sha256 (contents api packets)
    pub callback : d.current_on_success_callback ≡ some c
    pub where_saved :
        path ≡ sys.absolute_path (sys.compose_path d.current_file_name d.current_download_directory)
    pub saved :
        sys.content o.2 (sys.compose_path d.current_file_name d.current_download_directory)
        ≡ some (contents api packets)

  -- The facts that `complete` establishes before it calls the success callback.
  complete_success :
      (d : FileDownloader C) (disk : sys.Disk) (c : C) (path : String)
      → (complete sys d disk).0 ≡ on_success c path ∷ []
      → (d.current_on_success_callback ≡ some c)
        × (path
            ≡ sys.absolute_path (sys.compose_path d.current_file_name d.current_download_directory))
        × (validate_file sys d.file_handler d.current_file_hash ≡ StatusCode.ok)
        × ((save_file sys d.file_handler disk d.current_file_name d.current_download_directory).0
            ≡ StatusCode.ok)
        × ((complete sys d disk).2
            ≡ (save_file sys d.file_handler disk d.current_file_name
                d.current_download_directory).1)
  unfolding complete
  complete_success d disk c path e = ground arith

  no_success_failed :
      (d : FileDownloader C) (c : C) (path : String)
      → (packet_failed d).0 ≡ on_success c path ∷ []
      → ⊥
  unfolding packet_failed
  no_success_failed d c path e = ground arith

  -- An accepted packet leads to a success only as the last one.
  accepted_success :
      (d : FileDownloader C) (disk : sys.Disk) (c : C) (path : String)
      → (packet_accepted sys d disk).0 ≡ on_success c path ∷ []
      → let next = record d { current_packet_index = (d.current_packet_index + 1) % u32_mod } in
        (next.current_packet_index ≡ d.current_packet_count)
        × (packet_accepted sys d disk ≡ complete sys next disk)
  unfolding packet_accepted
  accepted_success d disk c path e =
      elim (Bool-cases ((d.current_packet_index + 1) % u32_mod == d.current_packet_count)) [
        | inl last ↦ (ground arith, rw last)
        | inr more ↦ absurd (ground arith)
      ]

  -- Neither the index, the data nor the timer of the state matters to what was verified.
  IsVerified-same :
      {d : FileDownloader C} {index : ℕ} {handler : FileHandler} {timer : Bool} {c : C}
      {path : String} {o : Outcome C sys}
      → IsVerified
          (record d { current_packet_index = index; file_handler = handler; timer_running = timer })
          c
          path
          o
      → IsVerified d c path o
  IsVerified-same v = record {
    packets = v.packets;
    chain = v.chain;
    all_there = v.all_there;
    hash = v.hash;
    callback = v.callback;
    where_saved = v.where_saved;
    saved = v.saved;
  }

  complete-IsVerified :
      (d : FileDownloader C) (disk : sys.Disk) (ps : List api.BinaryData) (c : C) (path : String)
      → Holds api ps d.current_packet_index d.file_handler
      → d.current_packet_index ≡ d.current_packet_count
      → (complete sys d disk).0 ≡ on_success c path ∷ []
      → IsVerified d c path (complete sys d disk)
  complete-IsVerified d disk ps c path k last e =
      let (callback, where_saved, valid, ok, saved) = complete_success d disk c path e in
      record {
        packets = ps;
        chain = k.chain;
        all_there = sym k.number ∙ last;
        hash =
            (validate_file-ok_iff sys d.file_handler d.current_file_hash).0 valid
            ∙ ap sys.hash_sha256 k.bytes;
        callback = callback;
        where_saved = where_saved;
        saved = rw saved (
            save_file-ok sys d.file_handler disk d.current_file_name d.current_download_directory ok
            ∙ ap some k.bytes);
      }

  accepted-IsVerified :
      (d : FileDownloader C) (disk : sys.Disk) (ps : List api.BinaryData) (c : C) (path : String)
      → d.current_packet_index + 1 < 2 ^ 32
      → Holds api ps (d.current_packet_index + 1) d.file_handler
      → (packet_accepted sys d disk).0 ≡ on_success c path ∷ []
      → IsVerified d c path (packet_accepted sys d disk)
  accepted-IsVerified d disk ps c path small k e =
      let next : FileDownloader C = record d {
        current_packet_index = (d.current_packet_index + 1) % u32_mod;
      } in
      let exact : next.current_packet_index ≡ d.current_packet_index + 1 = omega arith in
      let (last, completes) = accepted_success d disk c path e in
      let v =
        complete-IsVerified next disk ps c path (rw exact k) last
          (sym (ap (λ (o : Outcome C sys). o.0) completes) ∙ e) in
      subst (λ o. IsVerified d c path o) (sym completes) (IsVerified-same v)

  -- In any history of allowed events, when a packet makes a waiting downloader report success, then
  -- the file on the disk is the concatenation of an unbroken chain of intact packets, as many as were
  -- planned, its SHA-256 hash is the one that the download was given, and the path and the callback
  -- are those of that download.
  pub success-IsVerified :
      (doubles : Doubles) (d : FileDownloader C) (disk : sys.Disk) (b : api.BinaryData)
      (waiting c : C) (path : String)
      → Reach api sys doubles d disk
      → IsActive waiting d
      → (handle_data api sys d disk b).0 ≡ on_success c path ∷ []
      → IsVerified d c path (handle_data api sys d disk b)
  unfolding handle_data
  success-IsVerified doubles d disk b waiting c path r a e =
      let (ps, k) = (Reach-IsValid api sys doubles r).1 in
      elim (handle_data-cases api d.file_handler b) [
        | inl (f, q) ↦
            rw (q, handle_data)
              (IsVerified-same (
                accepted-IsVerified (received d (append api d.file_handler b)) disk (ps ++ b ∷ []) c
                  path (omega (arith, a.running.index, a.running.count))
                  (Holds-append api ps d.current_packet_index d.file_handler b k f)
                  (rw (q, handle_data) at e)))
        | inr (_, inl q) ↦
            absurd (no_success_failed (received d d.file_handler) c path (rw (q, handle_data) at e))
        | inr (_, inr q) ↦
            absurd (no_success_failed (received d d.file_handler) c path (rw (q, handle_data) at e))
      ]
