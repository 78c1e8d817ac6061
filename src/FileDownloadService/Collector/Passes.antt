-- ===== src/FileDownloadService/Collector/Passes.antt =====
-- What the passes of the collector of FileDownloadService.cpp leave of the active downloads, whatever
-- the threads do in between.
use wolk_connect_cpp.Base.{
  String, Bool, true, false, some, List, [], ◌∷◌, ◌≡◌, ◌⊎◌, ◌∙◌, inl, inr, refl, arith, ap, All,
  not, ◌≢◌, Option-cases, str_eq,
}
use wolk_connect_cpp.FileDownloadService.{Kit, Entry, Service, find, flag_completed_download}
use wolk_connect_cpp.FileDownloadService.Handlers.Aborts.{
  IsMap, clear_downloads-IsMap, clear_downloads-find, flag-find, flag-IsMap,
}
use wolk_connect_cpp.FileDownloadService.Collector.{
  Stage, testing, passing, leaving, waiting, ended, Threads, collect, destroy, flag, notify_cleanup,
  Event, collects, flags, destroys, wakes, turn, run_events,
}

stage-cases : (s : Stage) → (s ≡ passing) ⊎ (s ≢ passing)
stage-cases testing = inr (ground arith)
stage-cases passing = inl refl
stage-cases leaving = inr (ground arith)
stage-cases waiting = inr (ground arith)
stage-cases ended = inr (ground arith)

module _ (kit : Kit) where
  pub notify-service : (t : Threads kit) → (notify_cleanup kit t).service ≡ t.service
  unfolding notify_cleanup
  notify-service t = ground arith

  destroy-service : (t : Threads kit) → (destroy kit t).service ≡ t.service
  unfolding destroy notify_cleanup
  destroy-service t = ground arith

  -- The event flags no download of the key.
  abbrev pub spares : String → Event kit → Bool
  spares key (flags name) = not (str_eq name key)
  spares key _ = true

  flag_any-IsMap :
      (s : Service kit) (name : String)
      → IsMap kit s.active_downloads
      → IsMap kit (flag_completed_download kit s name).active_downloads
  unfolding flag_completed_download
  flag_any-IsMap s name m = elim (Option-cases (find kit name s.active_downloads)) [
    | inl absent ↦ rw (absent, flag_completed_download) m
    | inr (e, found) ↦ flag-IsMap kit s name e found m
  ]

  -- Neither the collector nor the destructor, nor a flag on another download, changes a download that
  -- is not over.
  turn-keeps :
      (t : Threads kit) (event : Event kit) (key : String) (x : Entry kit)
      → IsMap kit t.service.active_downloads
      → spares key event ≡ true
      → x.flag ≡ false
      → find kit key t.service.active_downloads ≡ some x
      → find kit key (turn kit t event).service.active_downloads ≡ some x
  unfolding turn collect flag flag_completed_download
  turn-keeps t collects key x m o f u =
      ground (arith, clear_downloads-find kit t.service.active_downloads key m)
  turn-keeps t (flags name) key x m o f u =
      elim (Option-cases (find kit name t.service.active_downloads)) [
        | inl absent ↦
            ap (λ (z : Service kit). find kit key z.active_downloads)
              (notify-service (record t { service = flag_completed_download kit t.service name }))
            ∙ rw (absent, flag_completed_download) u
        | inr (e, found) ↦
            ap (λ (z : Service kit). find kit key z.active_downloads)
              (notify-service (record t { service = flag_completed_download kit t.service name }))
            ∙ ground (arith, flag-find kit t.service name key e found)
      ]
  turn-keeps t destroys key x m o f u =
      ap (λ (z : Service kit). find kit key z.active_downloads) (destroy-service t) ∙ u
  turn-keeps t wakes key x m o f u =
      ap (λ (z : Service kit). find kit key z.active_downloads) (notify-service t) ∙ u

  pub collect-service :
      (t : Threads kit) → t.collector ≢ passing → (collect kit t).service ≡ t.service
  unfolding collect
  collect-service t o = ground arith

  pub turn-IsMap :
      (t : Threads kit) (event : Event kit)
      → IsMap kit t.service.active_downloads
      → IsMap kit (turn kit t event).service.active_downloads
  unfolding turn collect flag
  turn-IsMap t collects m = elim (stage-cases t.collector) [
    | inl p ↦ rw (p, collect) (clear_downloads-IsMap kit t.service.active_downloads m)
    | inr o ↦ rw (collect-service t o) m
  ]
  turn-IsMap t (flags name) m =
      rw (notify-service (record t { service = flag_completed_download kit t.service name }))
        (flag_any-IsMap t.service name m)
  turn-IsMap t destroys m = rw (destroy-service t) m
  turn-IsMap t wakes m = rw (notify-service t) m

  -- Through every interleaving of the collector, the destructor, wake-ups and flags on other downloads,
  -- a download whose flag is not set stays as it is, where the names in the map are distinct.
  pub run_events-keeps :
      (t : Threads kit) (events : List (Event kit)) (key : String) (x : Entry kit)
      → IsMap kit t.service.active_downloads
      → All (λ event. spares key event ≡ true) events
      → x.flag ≡ false
      → find kit key t.service.active_downloads ≡ some x
      → find kit key (run_events kit t events).service.active_downloads ≡ some x
  unfolding run_events
  run_events-keeps t [] key x m o f u = u
  run_events-keeps t (e ∷ es) key x m o f u =
      run_events-keeps (turn kit t e) es key x (turn-IsMap t e m) o.1 f
        (turn-keeps t e key x m o.0 f u)
