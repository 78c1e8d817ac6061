-- ===== src/FileDownloader/Faults.antt =====
-- When a FileDownloader calls an empty function.
use wolk_connect_cpp.Base.{
  ◌≡◌, inl, inr, String, false, none, [], ◌∷◌, ByteArray, arith, Bool-cases,
}
use wolk_connect_cpp.Sdk.{BinaryDataApi, FileSystem, Doubles}
use wolk_connect_cpp.FileHandler.Laws.{handle_data-cases, append}
use wolk_connect_cpp.FileDownloader.{
  FileDownloader, bad_function_call, request_packet, packet_failed, download, timeout, handle_data,
  complete, packet_accepted, received,
}
use wolk_connect_cpp.FileDownloader.States.{Event, downloads, packet, aborts, timer_ends, step}
use wolk_connect_cpp.FileDownloader.Callbacks.{IsCleared, Dedicated, AsksFor}

module _ {C : Type 0} (sys : FileSystem) where
  packet_failed-fault :
      (d : FileDownloader C)
      → (packet_failed d).0 ≡ bad_function_call ∷ []
      → d.packet_provider ≡ none
  unfolding packet_failed request_packet
  packet_failed-fault d e = ground arith

  packet_accepted-fault :
      (d : FileDownloader C) (disk : sys.Disk)
      → (packet_accepted sys d disk).0 ≡ bad_function_call ∷ []
      → d.packet_provider ≡ none
  unfolding packet_accepted complete request_packet
  packet_accepted-fault d disk e = ground arith

  handle_data-fault :
      (api : BinaryDataApi) (d : FileDownloader C) (disk : sys.Disk) (b : api.BinaryData)
      → (handle_data api sys d disk b).0 ≡ bad_function_call ∷ []
      → d.packet_provider ≡ none
  unfolding handle_data
  handle_data-fault api d disk b e = elim (handle_data-cases api d.file_handler b) [
    | inl (_, q) ↦
        packet_accepted-fault (received d (append api d.file_handler b)) disk
          (rw (q, handle_data) at e)
    | inr (_, inl q) ↦ packet_failed-fault (received d d.file_handler) (rw (q, handle_data) at e)
    | inr (_, inr q) ↦ packet_failed-fault (received d d.file_handler) (rw (q, handle_data) at e)
  ]

  timeout-fault :
      (d : FileDownloader C) → (timeout d).0 ≡ bad_function_call ∷ [] → d.packet_provider ≡ none
  unfolding timeout
  timeout-fault d e = elim (Bool-cases d.timer_running) [
    | inl on ↦ packet_failed-fault (record d { timer_running = false }) (rw on at e)
    | inr off ↦ absurd (ground arith)
  ]

module _ {C : Type 0} (c : C) (name : String) (hash : ByteArray) (directory : String) where
  module _ (sys : FileSystem) where
    -- An event of this file calls an empty function only while no callback is set.
    pub step-fault :
        (api : BinaryDataApi) (doubles : Doubles) (d : FileDownloader C) (disk : sys.Disk)
        (event : Event api C)
        → Dedicated c name hash directory d
        → AsksFor c name hash directory api event
        → (step api sys doubles d disk event).0 ≡ bad_function_call ∷ []
        → IsCleared d
    unfolding step download request_packet timeout
    step-fault api doubles d disk event (inl k) a e = k
    step-fault api doubles d disk (downloads r) (inr k) a e = absurd (ground arith)
    step-fault api doubles d disk (packet b) (inr k) a e =
        absurd (ground (arith, handle_data-fault sys api d disk b e))
    step-fault api doubles d disk aborts (inr k) a e = absurd (cc e)
    step-fault api doubles d disk timer_ends (inr k) a e =
        absurd (ground (arith, timeout-fault sys d e))
