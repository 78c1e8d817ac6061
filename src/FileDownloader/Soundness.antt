-- ===== src/FileDownloader/Soundness.antt =====
-- A reported success is a verified file: what the states of a FileDownloader know of its packets.
use mathlib.Core.List.{append_assoc, append-nil}
use wolk_connect_cpp.Base.{
  ℕ, ◌+◌, ◌%◌, ◌^◌, ◌<◌, ◌≡◌, inl, inr, refl, false, List, [], ◌∷◌, ◌++◌, ByteArray, length,
  length-append, arith, ◌==◌, Bool-cases, sym, ap, ◌∙◌, subst,
}
use wolk_connect_cpp.Sdk.{BinaryDataApi, FileSystem, Doubles}
use wolk_connect_cpp.FileHandler.{FileHandler, empty}
use wolk_connect_cpp.FileHandler.Laws.{Follows, Chain, contents, handle_data-cases, append}
use wolk_connect_cpp.FileDownloader.{
  FileDownloader, Request, Effect, Outcome, packet_failed, download, abort, timeout, handle_data,
  complete, packet_accepted, received, u32_mod,
}
use wolk_connect_cpp.FileDownloader.States.{
  IsIdle, IsActive, IsValid, Event, downloads, packet, aborts, timer_ends, step, Allowed,
  step-IsSafe,
}

module _ (api : BinaryDataApi) where
  open api use {BinaryData, get_hash, get_data}

  abbrev pub last_hash : ByteArray → List BinaryData → ByteArray
  last_hash previous [] = previous
  last_hash previous (b ∷ bs) = last_hash (get_hash b) bs

  Chain-append :
      (previous : ByteArray) (bs : List BinaryData) (b : BinaryData)
      → Chain api previous bs
      → Follows api (last_hash previous bs) b
      → Chain api previous (bs ++ b ∷ [])
  Chain-append previous [] b c f = (f, tt)
  Chain-append previous (x ∷ bs) b (g, c) f = (g, Chain-append (get_hash x) bs b c f)

  last_hash-append :
      (previous : ByteArray) (bs : List BinaryData) (b : BinaryData)
      → last_hash previous (bs ++ b ∷ []) ≡ get_hash b
  last_hash-append previous [] b = refl
  last_hash-append previous (x ∷ bs) b = last_hash-append (get_hash x) bs b

  contents-append :
      (bs : List BinaryData) (b : BinaryData)
      → contents api (bs ++ b ∷ []) ≡ contents api bs ++ get_data b
  contents-append [] b = append-nil (get_data b)
  contents-append (x ∷ bs) b =
      ap (◌++◌ (get_data x)) (contents-append bs b)
      ∙ sym (append_assoc (get_data x) (contents api bs) (get_data b))

  -- The handler holds the contents of a chain of packets, as many as the number given.
  pub record Holds (ps : List BinaryData) (n : ℕ) (h : FileHandler) : Type 0 where
    pub chain : Chain api [] ps
    pub bytes : h.current_packet_data ≡ contents api ps
    pub hash : h.previous_packet_hash ≡ last_hash [] ps
    pub number : n ≡ length ps

  Holds-empty : Holds [] 0 empty
  Holds-empty = ground arith

  pub Holds-append :
      (ps : List BinaryData) (n : ℕ) (h : FileHandler) (b : BinaryData)
      → Holds ps n h
      → Follows api h.previous_packet_hash b
      → Holds (ps ++ b ∷ []) (n + 1) (append api h b)
  unfolding append
  Holds-append ps n h b k f = record {
    chain = Chain-append [] ps b k.chain (rw (← k.hash) f);
    bytes = rw (contents-append ps b) (ap (λ x. x ++ get_data b) k.bytes);
    hash = sym (last_hash-append [] ps b);
    number = omega (arith, k.number, length-append {0} ps (b ∷ []));
  }

  Holds-eq :
      (ps : List BinaryData) (n m : ℕ) (h k : FileHandler)
      → n ≡ m
      → h ≡ k
      → Holds ps m k
      → Holds ps n h
  Holds-eq ps n m h k e f x = rw (e, f) x

-- The packets behind the data of a downloader: its index counts them.
abbrev pub Assembled : (api : BinaryDataApi) {C : Type 0} → FileDownloader C → Type 0
Assembled api d = (ps : List api.BinaryData) × Holds api ps d.current_packet_index d.file_handler

module _ (api : BinaryDataApi) {C : Type 0} where
  cleared-Assembled :
      (d : FileDownloader C) → d.current_packet_index ≡ 0 → d.file_handler ≡ empty → Assembled api d
  cleared-Assembled d i h = ([], Holds-eq api [] _ 0 _ empty i h (Holds-empty api))

  kept-Assembled :
      (d d' : FileDownloader C)
      → d'.current_packet_index ≡ d.current_packet_index
      → d'.file_handler ≡ d.file_handler
      → Assembled api d
      → Assembled api d'
  kept-Assembled d d' i h (ps, k) = (ps, Holds-eq api ps _ _ _ _ i h k)

  packet_failed-Assembled :
      (d : FileDownloader C) → Assembled api d → Assembled api (packet_failed d).1
  unfolding packet_failed
  packet_failed-Assembled d a = elim (Bool-cases (d.retry_count == 3)) [
    | inl last ↦ cleared-Assembled (packet_failed d).1 (ground arith) (ground arith)
    | inr more ↦ kept-Assembled d (packet_failed d).1 (ground arith) (ground arith) a
  ]

  timeout-Assembled : (d : FileDownloader C) → Assembled api d → Assembled api (timeout d).1
  unfolding timeout
  timeout-Assembled d a = elim (Bool-cases d.timer_running) [
    | inl on ↦ rw on (packet_failed-Assembled (record d { timer_running = false }) a)
    | inr off ↦ rw off a
  ]

  abort-Assembled : (d : FileDownloader C) → Assembled api (abort d)
  unfolding abort
  abort-Assembled d = cleared-Assembled (abort d) (ground arith) (ground arith)

  download-Assembled :
      (doubles : Doubles) (d : FileDownloader C) (r : Request C)
      → Assembled api (download doubles d r).1
  unfolding download
  download-Assembled doubles d r =
      cleared-Assembled (download doubles d r).1 (ground arith) (ground arith)

  module _ (sys : FileSystem) where
    complete-Assembled :
        (d : FileDownloader C) (disk : sys.Disk) → Assembled api (complete sys d disk).1
    unfolding complete
    complete-Assembled d disk =
        cleared-Assembled (complete sys d disk).1 (ground arith) (ground arith)

    packet_accepted-Assembled :
        (d : FileDownloader C) (disk : sys.Disk) (ps : List api.BinaryData)
        → d.current_packet_index + 1 < 2 ^ 32
        → Holds api ps (d.current_packet_index + 1) d.file_handler
        → Assembled api (packet_accepted sys d disk).1
    unfolding packet_accepted
    packet_accepted-Assembled d disk ps small k =
        let next : FileDownloader C = record d {
          current_packet_index = (d.current_packet_index + 1) % u32_mod;
        } in
        let exact : next.current_packet_index ≡ d.current_packet_index + 1 = omega arith in
        elim (Bool-cases (next.current_packet_index == d.current_packet_count)) [
          | inl last ↦ rw last (complete-Assembled next disk)
          | inr more ↦ (
            ps,
            Holds-eq api ps _ (d.current_packet_index + 1) _ d.file_handler (ground arith)
                (ground arith) k,
          )
        ]

    handle_data-Assembled :
        (d : FileDownloader C) (disk : sys.Disk) (b : api.BinaryData) (c : C)
        → IsActive c d
        → Assembled api d
        → Assembled api (handle_data api sys d disk b).1
    unfolding handle_data
    handle_data-Assembled d disk b c a (ps, k) = elim (handle_data-cases api d.file_handler b) [
      | inl (f, e) ↦
          rw (e, handle_data)
            (packet_accepted-Assembled (received d (append api d.file_handler b)) disk
              (ps ++ b ∷ []) (omega (arith, a.running.index, a.running.count))
              (Holds-append api ps d.current_packet_index d.file_handler b k f))
      | inr (_, inl e) ↦
          rw (e, handle_data) (packet_failed-Assembled (received d d.file_handler) (ps, k))
      | inr (_, inr e) ↦
          rw (e, handle_data) (packet_failed-Assembled (received d d.file_handler) (ps, k))
    ]

-- The histories of a downloader that starts idle: each event is allowed in its state.
pub data Reach (api : BinaryDataApi) (sys : FileSystem) (doubles : Doubles) {C : Type 0}
    : FileDownloader C → sys.Disk → Type 0 where
  idle : {d : FileDownloader C} {disk : sys.Disk} → IsIdle d → Reach api sys doubles d disk
  event :
      {d d' : FileDownloader C} {disk disk' : sys.Disk} {es : List (Effect C)} (e : Event api C)
      → Reach api sys doubles d disk
      → Allowed api sys doubles d e
      → step api sys doubles d disk e ≡ (es, d', disk')
      → Reach api sys doubles d' disk'

module _ (api : BinaryDataApi) (sys : FileSystem) (doubles : Doubles) {C : Type 0} where
  step-Assembled :
      (d : FileDownloader C) (disk : sys.Disk) (e : Event api C)
      → Allowed api sys doubles d e
      → Assembled api d
      → Assembled api (step api sys doubles d disk e).1
  unfolding step
  step-Assembled d disk (downloads r) t a = download-Assembled api doubles d r
  step-Assembled d disk (packet b) (c, t) a = handle_data-Assembled api sys d disk b c t a
  step-Assembled d disk aborts t a = abort-Assembled api d
  step-Assembled d disk timer_ends t a = timeout-Assembled api d a

  pub Reach-IsValid :
      {d : FileDownloader C} {disk : sys.Disk}
      → Reach api sys doubles d disk
      → IsValid d × Assembled api d
  Reach-IsValid (idle {d = d} i) = (inl i, cleared-Assembled api d i.no_index i.no_data)
  Reach-IsValid (event {d = d} {disk = disk} e r t q) =
      let (v, a) = Reach-IsValid r in
      (
        subst (λ (o : Outcome C sys). IsValid o.1) q (step-IsSafe api sys doubles d disk e v t).1,
        subst (λ (o : Outcome C sys). Assembled api o.1) q (step-Assembled d disk e t a),
      )
