-- ===== src/FileDownloader/Retry.antt =====
-- How often a FileDownloader asks for a packet before it gives up.
use wolk_connect_cpp.Base.{
  ℕ, zero, suc, ◌+◌, ◌≤◌, ◌≡◌, inl, inr, refl, true, List, [], ◌∷◌, ◌++◌, ap, length, replicate,
  All, arith,
}
use wolk_connect_cpp.Sdk.{BinaryDataApi, FileSystem, Doubles, retry_count_exceeded}
use wolk_connect_cpp.FileHandler.{FileHandler}
use wolk_connect_cpp.FileHandler.Laws.{Follows, handle_data-cases}
use wolk_connect_cpp.FileDownloader.{
  FileDownloader, Effect, provide_packet, on_fail, packet_failed, handle_data, timeout, received,
}
use wolk_connect_cpp.FileDownloader.States.{
  IsRunning, IsActive, IsIdle, Event, downloads, packet, aborts, timer_ends, step, run, run_event,
  run_done,
}

-- The event brings no packet that continues the file: the timer ends, or a bad packet arrives.
abbrev pub IsFailure : (api : BinaryDataApi) {C : Type 0} → FileHandler → Event api C → Type 0
IsFailure api h (downloads r) = ⊥
IsFailure api h (packet b) = ¬ Follows api h.previous_packet_hash b
IsFailure api h aborts = ⊥
IsFailure api h timer_ends = Unit

module _ (api : BinaryDataApi) (sys : FileSystem) (doubles : Doubles) {C : Type 0} (c : C) where
  pub request_again : FileDownloader C → Effect C
  request_again d = provide_packet c (record {
    file_name = d.current_file_name;
    chunk_index = d.current_packet_index;
    chunk_size = d.current_packet_size;
  })

  IsFailure-step :
      (d : FileDownloader C) (disk : sys.Disk) (e : Event api C)
      → IsActive c d
      → IsFailure api d.file_handler e
      → step api sys doubles d disk e
        ≡ (let o = packet_failed (received d d.file_handler) in (o.0, o.1, disk))
  unfolding step handle_data timeout
  IsFailure-step d disk (packet b) a f = elim (handle_data-cases api d.file_handler b) [
    | inl (g, _) ↦ absurd (f g)
    | inr (_, inl e) ↦ rw (e, handle_data)
    | inr (_, inr e) ↦ rw (e, handle_data)
  ]
  IsFailure-step d disk timer_ends a f = rw a.timer
  IsFailure-step d disk (downloads r) a f = elim f [ ]
  IsFailure-step d disk aborts a f = elim f [ ]

  asked_again : FileDownloader C → FileDownloader C
  asked_again d = record d { timer_running = true; retry_count = d.retry_count + 1 }

  failed_before_last :
      (d : FileDownloader C)
      → IsRunning c d
      → d.retry_count + 1 ≤ 3
      → packet_failed (received d d.file_handler) ≡ (request_again d ∷ [], asked_again d)
  unfolding packet_failed request_again asked_again
  failed_before_last d a h = ground arith

  failed_last :
      (d : FileDownloader C)
      → IsRunning c d
      → d.retry_count ≡ 3
      → let o = packet_failed (received d d.file_handler) in
        (o.0 ≡ on_fail c retry_count_exceeded ∷ []) × IsIdle o.1
  unfolding packet_failed
  failed_last d a h = ground arith

  asked_again-IsActive :
      (d : FileDownloader C) → IsRunning c d → d.retry_count + 1 ≤ 3 → IsActive c (asked_again d)
  unfolding asked_again
  asked_again-IsActive d a h = ground arith

  -- While no good packet comes, a downloader that has asked `r` times for its packet asks again
  -- 3 - r times, with the same request; the next failure reports RETRY_COUNT_EXCEEDED once, and
  -- leaves it idle.
  pub retries_then_fails :
      (d : FileDownloader C) (disk : sys.Disk) (more : ℕ) (es : List (Event api C))
      → IsActive c d
      → d.retry_count + more ≡ 3
      → length es ≡ suc more
      → All (IsFailure api d.file_handler) es
      → let o = run api sys doubles d disk es in
        (o.0 ≡ replicate more (request_again d) ++ on_fail c retry_count_exceeded ∷ []) × IsIdle o.1
  unfolding asked_again request_again
  retries_then_fails d disk more [] a r n f = absurd (omega arith)
  retries_then_fails d disk zero (e ∷ []) a r n f =
      let (effects, idle) = failed_last d a.running (omega arith) in
      rw (run_event api sys doubles d disk e [], IsFailure-step d disk e a f.0, run_done)
        (rw effects refl, idle)
  retries_then_fails d disk zero (e ∷ e' ∷ es) a r n f = absurd (omega arith)
  retries_then_fails d disk (suc more) (e ∷ es) a r n f =
      let (effects, idle) =
        retries_then_fails (asked_again d) disk more es
          (asked_again-IsActive d a.running (omega arith)) (omega arith) (omega arith) f.1 in
      rw
        (
          run_event api sys doubles d disk e es,
          IsFailure-step d disk e a f.0,
          failed_before_last d a.running (omega arith),
        )
        (ap (◌∷◌ (request_again d)) effects, idle)
