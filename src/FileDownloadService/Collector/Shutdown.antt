-- ===== src/FileDownloadService/Collector/Shutdown.antt =====
-- When the destructor of FileDownloadService.cpp ends.
use wolk_connect_cpp.Base.{
  Bool, true, false, List, [], ◌∷◌, ◌≡◌, ◌≢◌, ◌⊎◌, inl, inr, refl, map, arith, Bool-cases,
}
use wolk_connect_cpp.FileDownloadService.{Kit}
use wolk_connect_cpp.FileDownloadService.Collector.{
  Stage, testing, passing, leaving, waiting, ended, stopped, notified, joined, Threads, collect,
  destroy, notify_cleanup, Event, collects, destroys, turn, run_events,
}

-- The collector has tested m_run and does not wait yet.
abbrev pub is_busy : Stage → Bool
is_busy passing = true
is_busy leaving = true
is_busy _ = false

-- The two threads of a shutdown.
pub data Thread : Type 0 where
  the_collector the_destructor : Thread

abbrev pub goes_on : (kit : Kit) → Thread → Event kit
goes_on kit the_collector = collects
goes_on kit the_destructor = destroys

busy-cases : (s : Stage) → is_busy s ≡ true → (s ≡ passing) ⊎ (s ≡ leaving)
busy-cases testing b = ground arith
busy-cases passing b = inl refl
busy-cases leaving b = inr refl
busy-cases waiting b = ground arith
busy-cases ended b = ground arith

module _ (kit : Kit) where
  -- The destructor joins a collector that is before its end, with no notification to come.
  IsStuck : Threads kit → Type 0
  IsStuck t =
      (t.destructor ≡ notified)
      × ((t.collector ≡ passing) ⊎ ((t.collector ≡ leaving) ⊎ (t.collector ≡ waiting)))

  turn-IsStuck :
      (t : Threads kit) (thread : Thread) → IsStuck t → IsStuck (turn kit t (goes_on kit thread))
  unfolding turn collect destroy IsStuck
  turn-IsStuck t the_collector (d, inl s) = (ground arith, inr (inl (ground arith)))
  turn-IsStuck t the_collector (d, inr (inl s)) = (ground arith, inr (inr (ground arith)))
  turn-IsStuck t the_collector (d, inr (inr s)) = (ground arith, inr (inr (ground arith)))
  turn-IsStuck t the_destructor (d, inl s) = (ground arith, inl (ground arith))
  turn-IsStuck t the_destructor (d, inr (inl s)) = (ground arith, inr (inl (ground arith)))
  turn-IsStuck t the_destructor (d, inr (inr s)) = (ground arith, inr (inr (ground arith)))

  run-IsStuck :
      (t : Threads kit) (threads : List Thread)
      → IsStuck t
      → (run_events kit t (map (goes_on kit) threads)).destructor ≢ joined
  unfolding run_events IsStuck
  run-IsStuck t [] stuck = λ e. ground arith
  run-IsStuck t (x ∷ xs) s = run-IsStuck (turn kit t (goes_on kit x)) xs (turn-IsStuck t x s)

  destroy-IsStuck :
      (t : Threads kit)
      → t.destructor ≡ stopped
      → is_busy t.collector ≡ true
      → IsStuck (destroy kit t)
  unfolding destroy notify_cleanup IsStuck
  destroy-IsStuck t d b = elim (busy-cases t.collector b) [
    | inl s ↦ (ground arith, inl (ground arith))
    | inr s ↦ (ground arith, inr (inl (ground arith)))
  ]

  destroy-joins :
      (t : Threads kit)
      → t.run ≡ false
      → t.destructor ≡ stopped
      → is_busy t.collector ≡ false
      → (run_events kit (destroy kit t) (collects ∷ destroys ∷ [])).destructor ≡ joined
  unfolding run_events turn collect destroy notify_cleanup
  destroy-joins t r d b = ground arith

  -- After the store to m_run, the destructor's only notification ends the collector where it waits or
  -- tests m_run; where the collector is between the test and the wait, the notification is lost, and
  -- the destructor never returns, however the two threads go on.
  pub shutdown :
      (t : Threads kit)
      → t.run ≡ false
      → t.destructor ≡ stopped
      → ((is_busy t.collector ≡ false)
          × ((run_events kit (destroy kit t) (collects ∷ destroys ∷ [])).destructor ≡ joined))
        ⊎ ((is_busy t.collector ≡ true)
            × ((threads : List Thread)
                → (run_events kit (destroy kit t) (map (goes_on kit) threads)).destructor ≢ joined))
  shutdown t r d = elim (Bool-cases (is_busy t.collector)) [
    | inl busy ↦
        inr (busy, λ threads. run-IsStuck (destroy kit t) threads (destroy-IsStuck t d busy))
    | inr idle ↦ inl (idle, destroy-joins t r d idle)
  ]
