-- ===== src/FileDownloader/States.antt =====
-- The commands and timeouts that reach a FileDownloader, and the states between them.
use wolk_connect_cpp.Base.{
  ℕ, ◌+◌, ◌%◌, ◌^◌, ◌≤◌, ◌<◌, ◌≡◌, ◌≢◌, ◌⊎◌, inl, inr, refl, true, false, none, some, List, [], ◌∷◌,
  ◌++◌, All, arith, ◌==◌, Bool-cases,
}
use wolk_connect_cpp.Sdk.{BinaryDataApi, FileSystem, Doubles}
use wolk_connect_cpp.FileHandler.{empty}
use wolk_connect_cpp.FileHandler.Laws.{handle_data-cases, append}
use wolk_connect_cpp.FileDownloader.{
  FileDownloader, Request, Effect, bad_function_call, Outcome, packet_failed, download, abort,
  timeout, handle_data, complete, packet_accepted, received, u32_mod,
}
use wolk_connect_cpp.FileDownloader.Packets.{Fits, packets-cover}

-- No download: the state that `clear` leaves, with no timer.
pub record IsIdle {C : Type 0} (d : FileDownloader C) : Type 0 where
  pub no_timer : d.timer_running ≡ false
  pub no_provider : d.packet_provider ≡ none
  pub no_success : d.current_on_success_callback ≡ none
  pub no_fail : d.current_on_fail_callback ≡ none
  pub no_count : d.current_packet_count ≡ 0
  pub no_index : d.current_packet_index ≡ 0
  pub no_retry : d.retry_count ≡ 0
  pub no_data : d.file_handler ≡ empty

-- A download of packet `current_packet_index`, for the callbacks with captures `c`.
pub record IsRunning {C : Type 0} (c : C) (d : FileDownloader C) : Type 0 where
  pub provider : d.packet_provider ≡ some c
  pub success : d.current_on_success_callback ≡ some c
  pub fail : d.current_on_fail_callback ≡ some c
  pub index : d.current_packet_index < d.current_packet_count
  pub count : d.current_packet_count < 2 ^ 32
  pub requested : 1 ≤ d.retry_count
  pub retries : d.retry_count ≤ 3

-- It waits for the packet with the timer running.
pub record IsActive {C : Type 0} (c : C) (d : FileDownloader C) : Type 0 where
  pub timer : d.timer_running ≡ true
  pub running : IsRunning c d

abbrev pub IsValid : {C : Type 0} → FileDownloader C → Type 0
IsValid {C} d = IsIdle d ⊎ ((c : C) × IsActive c d)

-- All three callbacks are set, with the same captures, and the file fits the packet limit.
pub record IsGood {C : Type 0} (c : C) (max_packet_size : ℕ) (r : Request C) : Type 0 where
  pub provider : r.packet_provider ≡ some c
  pub success : r.on_success_callback ≡ some c
  pub fail : r.on_fail_callback ≡ some c
  pub fits : Fits max_packet_size r.file_size

abbrev pub IsQuiet : {C : Type 0} → List (Effect C) → Type 0
IsQuiet {C} = All (λ (e : Effect C). e ≢ bad_function_call)

abort-IsIdle : {C : Type 0} (d : FileDownloader C) → IsIdle (abort d)
unfolding abort
abort-IsIdle d = ground arith

download-IsActive :
    {C : Type 0} (doubles : Doubles) (c : C) (d : FileDownloader C) (r : Request C)
    → IsGood c d.max_packet_size r
    → IsActive c (download doubles d r).1
unfolding download
download-IsActive doubles c d r g =
    ground (arith, packets-cover doubles d.max_packet_size r.file_size)

-- The effects of a command raise nothing, and the state after it is valid.
abbrev pub IsSafe : {C : Type 0} → List (Effect C) → FileDownloader C → Type 0
IsSafe es d = IsQuiet es × IsValid d

module _ {C : Type 0} (c : C) where
  packet_failed-IsSafe :
      (d : FileDownloader C)
      → d.timer_running ≡ false
      → IsRunning c d
      → IsSafe (packet_failed d).0 (packet_failed d).1
  unfolding packet_failed
  packet_failed-IsSafe d t a = elim (Bool-cases (d.retry_count == 3)) [
    | inl last ↦ (ground arith, inl (ground arith))
    | inr more ↦ (ground arith, inr (c, ground arith))
  ]

  timeout-IsSafe : (d : FileDownloader C) → IsActive c d → IsSafe (timeout d).0 (timeout d).1
  unfolding timeout
  timeout-IsSafe d a =
      rw a.timer (packet_failed-IsSafe (record d { timer_running = false }) refl (ground arith))

  module _ (sys : FileSystem) where
    complete-IsSafe :
        (d : FileDownloader C) (disk : sys.Disk)
        → d.timer_running ≡ false
        → d.current_on_fail_callback ≡ some c
        → d.current_on_success_callback ≡ some c
        → IsQuiet (complete sys d disk).0 × IsIdle (complete sys d disk).1
    unfolding complete
    complete-IsSafe d disk t f s = ground arith

    packet_accepted-IsSafe :
        (d : FileDownloader C) (disk : sys.Disk)
        → d.timer_running ≡ false
        → IsRunning c d
        → IsSafe (packet_accepted sys d disk).0 (packet_accepted sys d disk).1
    unfolding packet_accepted
    packet_accepted-IsSafe d disk t a =
        let next : FileDownloader C = record d {
          current_packet_index = (d.current_packet_index + 1) % u32_mod;
        } in
        let small : next.current_packet_index ≡ d.current_packet_index + 1 = omega arith in
        elim (Bool-cases (next.current_packet_index == d.current_packet_count)) [
          | inl last ↦
              let safe = complete-IsSafe next disk t a.fail a.success in
              rw last (safe.0, inl safe.1)
          | inr more ↦ rw more (ground arith, inr (c, ground arith))
        ]

    module _ (api : BinaryDataApi) where
      -- While a download is active, a packet raises nothing and leaves a valid state.
      handle_data-IsSafe :
          (d : FileDownloader C) (disk : sys.Disk) (b : api.BinaryData)
          → IsActive c d
          → IsSafe (handle_data api sys d disk b).0 (handle_data api sys d disk b).1
      unfolding handle_data
      handle_data-IsSafe d disk b a = elim (handle_data-cases api d.file_handler b) [
        | inl (_, e) ↦
            rw (e, handle_data)
              (packet_accepted-IsSafe (received d (append api d.file_handler b)) disk refl
                (ground arith))
        | inr (_, inl e) ↦
            rw (e, handle_data)
              (packet_failed-IsSafe (received d d.file_handler) refl (ground arith))
        | inr (_, inr e) ↦
            rw (e, handle_data)
              (packet_failed-IsSafe (received d d.file_handler) refl (ground arith))
      ]

-- What reaches a downloader: its three commands and the end of its timer.
pub data Event (api : BinaryDataApi) (C : Type 0) : Type 0 where
  downloads : Request C → Event api C
  packet : api.BinaryData → Event api C
  aborts : Event api C
  timer_ends : Event api C

module _ (api : BinaryDataApi) (sys : FileSystem) (doubles : Doubles) {C : Type 0} where
  unfoldable pub step : FileDownloader C → sys.Disk → Event api C → Outcome C sys
  unfolding download handle_data abort timeout
  step d disk (downloads r) = let started = download doubles d r in (started.0, started.1, disk)
  step d disk (packet b) = handle_data api sys d disk b
  step d disk aborts = ([], abort d, disk)
  step d disk timer_ends = let ended = timeout d in (ended.0, ended.1, disk)

  -- The events of a history, with their effects in order.
  unfoldable pub run : FileDownloader C → sys.Disk → List (Event api C) → Outcome C sys
  unfolding step
  run d disk [] = ([], d, disk)
  run d disk (e ∷ es) =
      let (effects, d', disk') = step d disk e in
      let (effects', d'', disk'') = run d' disk' es in (effects ++ effects', d'', disk'')

  -- What may reach a downloader in a state: a good download, a packet while a download is active.
  abbrev pub Allowed : FileDownloader C → Event api C → Type 0
  Allowed d (downloads r) = (c : C) × IsGood c d.max_packet_size r
  Allowed d (packet b) = (c : C) × IsActive c d
  Allowed d aborts = Unit
  Allowed d timer_ends = Unit

  download-IsSafe :
      (c : C) (d : FileDownloader C) (r : Request C)
      → IsGood c d.max_packet_size r
      → IsQuiet (download doubles d r).0
  unfolding download
  download-IsSafe c d r g = ground arith

  idle_timeout-IsSafe : (d : FileDownloader C) → IsIdle d → timeout d ≡ ([], d)
  unfolding timeout
  idle_timeout-IsSafe d i = ground arith

  -- In a valid state (idle, or waiting for a packet with 1 to 3 requests made and the timer running),
  -- an allowed event raises no exception and leads to a valid state.
  pub step-IsSafe :
      (d : FileDownloader C) (disk : sys.Disk) (e : Event api C)
      → IsValid d
      → Allowed d e
      → IsSafe (step d disk e).0 (step d disk e).1
  unfolding step
  step-IsSafe d disk (downloads r) v (c, g) =
      (download-IsSafe c d r g, inr (c, download-IsActive doubles c d r g))
  step-IsSafe d disk (packet b) v (c, a) = handle_data-IsSafe c sys api d disk b a
  step-IsSafe d disk aborts v t = (tt, inl (abort-IsIdle d))
  step-IsSafe d disk timer_ends (inl i) t = rw (idle_timeout-IsSafe d i) (tt, inl i)
  step-IsSafe d disk timer_ends (inr (c, a)) t = timeout-IsSafe c d a

  pub run_done : (d : FileDownloader C) (disk : sys.Disk) → run d disk [] ≡ ([], d, disk)
  unfolding run
  run_done d disk = refl

  pub run_packet :
      (d : FileDownloader C) (disk : sys.Disk) (b : api.BinaryData) (es : List (Event api C))
      → run d disk (packet b ∷ es) ≡ (
          let o = handle_data api sys d disk b in
          let o' = run o.1 o.2 es in (o.0 ++ o'.0, o'.1, o'.2))
  unfolding run
  run_packet d disk b es = refl

  pub run_event :
      (d : FileDownloader C) (disk : sys.Disk) (e : Event api C) (es : List (Event api C))
      → run d disk (e ∷ es)
        ≡ (let o = step d disk e in let o' = run o.1 o.2 es in (o.0 ++ o'.0, o'.1, o'.2))
  unfolding run
  run_event d disk e es = refl

module _ (api : BinaryDataApi) (sys : FileSystem) {C : Type 0} where
  -- A packet that reaches a downloader with no download calls the empty packet provider, whatever
  -- the packet holds: the command ends with `std::bad_function_call`.
  pub packet_when_idle :
      (d : FileDownloader C) (disk : sys.Disk) (b : api.BinaryData)
      → IsIdle d
      → (handle_data api sys d disk b).0 ≡ bad_function_call ∷ []
  unfolding handle_data
  packet_when_idle d disk b i = elim (handle_data-cases api d.file_handler b) [
    | inl (_, e) ↦ rw (e, handle_data) (ground arith)
    | inr (_, inl e) ↦ rw (e, handle_data) (ground arith)
    | inr (_, inr e) ↦ rw (e, handle_data) (ground arith)
  ]
