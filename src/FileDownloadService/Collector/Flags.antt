-- ===== src/FileDownloadService/Collector/Flags.antt =====
-- How the collector of FileDownloadService.cpp removes a download that is flagged.
use wolk_connect_cpp.Base.{
  ℕ, zero, suc, String, Bool, true, false, none, some, List, [], ◌∷◌, ◌≡◌, ◌⊎◌, ◌∙◌, inl, inr, refl,
  if◌then◌else◌, arith, ap, ◌≢◌, str_eq_refl,
}
use wolk_connect_cpp.FileDownloadService.{Kit, Entry, Service, find, flag_completed_download}
use wolk_connect_cpp.FileDownloadService.Handlers.{clear_downloads}
use wolk_connect_cpp.FileDownloadService.Handlers.Aborts.{
  IsMap, clear_downloads-find, unflagged, flag-find,
}
use wolk_connect_cpp.FileDownloadService.Collector.{
  Stage, testing, passing, leaving, waiting, ended, Threads, collect, flag, notify_cleanup, Event,
  collects, flags, turn, run_events,
}
use wolk_connect_cpp.FileDownloadService.Collector.Passes.{
  notify-service, collect-service, turn-IsMap,
}

module _ (kit : Kit) where
  pub collecting : ℕ → List (Event kit)
  collecting zero = []
  collecting (suc n) = collects ∷ collecting n

  -- The collector goes to its wait, or to its end, with no pass before it.
  abbrev pub is_late : Stage → Bool
  is_late leaving = true
  is_late waiting = true
  is_late ended = true
  is_late _ = false

  late-cases : (s : Stage) → is_late s ≡ true → (s ≡ leaving) ⊎ ((s ≡ waiting) ⊎ (s ≡ ended))
  late-cases testing l = ground arith
  late-cases passing l = ground arith
  late-cases leaving l = inl refl
  late-cases waiting l = inr (inl refl)
  late-cases ended l = inr (inr refl)

  late-collect :
      (t : Threads kit)
      → is_late t.collector ≡ true
      → ((collect kit t).service ≡ t.service) × (is_late (collect kit t).collector ≡ true)
  unfolding collect
  late-collect t l = elim (late-cases t.collector l) [
    | inl s ↦ (ground arith, ground arith)
    | inr (inl s) ↦ (ground arith, ground arith)
    | inr (inr s) ↦ (ground arith, ground arith)
  ]

  late-service :
      (t : Threads kit) (n : ℕ)
      → is_late t.collector ≡ true
      → (run_events kit t (collecting n)).service ≡ t.service
  unfolding collecting run_events turn
  late-service t zero l = refl
  late-service t (suc n) l =
      late-service (collect kit t) n (late-collect t l).1 ∙ (late-collect t l).0

  -- The stages at which a notification comes too late.
  abbrev pub misses : Stage → Bool
  misses leaving = true
  misses ended = true
  misses _ = false

  stage_is :
      (s : Stage) → (misses s ≡ true) ⊎ ((s ≡ passing) ⊎ ((misses s ≡ false) × (s ≢ passing)))
  stage_is testing = inr (inr (refl, ground arith))
  stage_is passing = inr (inl refl)
  stage_is leaving = inl refl
  stage_is waiting = inr (inr (refl, ground arith))
  stage_is ended = inl refl

  passing_collect :
      (t : Threads kit)
      → t.collector ≡ passing
      → (collect kit t).service.active_downloads ≡ clear_downloads kit t.service.active_downloads
  unfolding collect
  passing_collect t p = ground arith

  passing-late :
      (t : Threads kit) (n : ℕ)
      → t.collector ≡ passing
      → (run_events kit (collect kit t) (collecting n)).service.active_downloads
        ≡ clear_downloads kit t.service.active_downloads
  unfolding collect
  passing-late t n p =
      ap (λ (z : Service kit). z.active_downloads) (late-service (collect kit t) n (ground arith))
      ∙ passing_collect t p

  testing-late :
      (t : Threads kit) (n : ℕ)
      → t.run ≡ true
      → t.collector ≡ testing
      → (run_events kit (collect kit t) (collecting (suc n))).service.active_downloads
        ≡ clear_downloads kit t.service.active_downloads
  unfolding collect collecting run_events turn
  testing-late t n r p =
      passing-late (collect kit t) n (ground arith)
      ∙ ap (λ (z : Service kit). clear_downloads kit z.active_downloads)
          (collect-service kit t (ground arith))

  flag-service :
      (t : Threads kit) (key : String)
      → (flag kit t key).service ≡ flag_completed_download kit t.service key
  unfolding flag
  flag-service t key =
      notify-service kit (record t { service = flag_completed_download kit t.service key })

  flag-marks :
      (t : Threads kit) (key : String) (x : Entry kit)
      → find kit key t.service.active_downloads ≡ some x
      → find kit key (flag kit t key).service.active_downloads ≡ some (record x { flag = true })
  flag-marks t key x u =
      ap (λ (z : Service kit). find kit key z.active_downloads) (flag-service t key)
      ∙ (flag-find kit t.service key key x u
          ∙ ap
              (λ b.
                if b
                then some (record x { flag = true })
                else find kit key t.service.active_downloads)
              (str_eq_refl key))

  flag-cleared :
      (t : Threads kit) (key : String) (x : Entry kit)
      → IsMap kit t.service.active_downloads
      → find kit key t.service.active_downloads ≡ some x
      → find kit key (clear_downloads kit (flag kit t key).service.active_downloads) ≡ none
  unfolding turn
  flag-cleared t key x m u =
      clear_downloads-find kit (flag kit t key).service.active_downloads key
        (turn-IsMap kit t (flags key) m)
      ∙ ap (unflagged kit) (flag-marks t key x u)

  -- While the service runs, a download that is flagged is out of the map after two or more goes of the
  -- collector, unless the collector is between its pass and its wait, or at its end, when the flag is
  -- set: then the notification is lost, and the flagged download stays however often the collector goes
  -- on.
  pub flag-collected :
      (t : Threads kit) (key : String) (x : Entry kit) (n : ℕ)
      → t.run ≡ true
      → IsMap kit t.service.active_downloads
      → find kit key t.service.active_downloads ≡ some x
      → find kit key
          (run_events kit (flag kit t key) (collecting (suc (suc n)))).service.active_downloads
        ≡ (if misses t.collector then some (record x { flag = true }) else none)
  unfolding flag notify_cleanup collect collecting run_events turn
  flag-collected t key x n r m u = elim (stage_is t.collector) [
    | inl s ↦
        ap (λ (z : Service kit). find kit key z.active_downloads)
          (late-service (flag kit t key) (suc (suc n)) (ground arith))
        ∙ (flag-marks t key x u ∙ ground arith)
    | inr (inl s) ↦
        ap (find kit key) (passing-late (flag kit t key) (suc n) (ground arith))
        ∙ (flag-cleared t key x m u ∙ ground arith)
    | inr (inr s) ↦
        ap (find kit key) (testing-late (flag kit t key) n (ground arith) (ground arith))
        ∙ (flag-cleared t key x m u ∙ ground arith)
  ]
