-- ===== src/FileDownloadService/Execution/Reactions.antt =====
-- The callbacks of a downloader of FileDownloadService.cpp, while the map of downloads stays as it should.
use wolk_connect_cpp.Base.{
  String, Option, none, some, List, [], ◌∷◌, ◌≡◌, ◌∙◌, subst, Option-cases, inl, inr, sym, refl,
}
use wolk_connect_cpp.FileDownloader.{Effect, provide_packet, on_success, on_fail, bad_function_call}
use wolk_connect_cpp.FileDownloader.States.{Event, step}
use wolk_connect_cpp.FileDownloader.Callbacks.{Reply-Dedicated, AsksFor}
use wolk_connect_cpp.FileDownloadService.{Kit, Captured, Entry, Service, assign, request_packet}
use wolk_connect_cpp.FileDownloadService.Handlers.Entries.{
  captured, EntryFits, assign-EntriesFit, IsDedicated, by_Keeps,
}
use wolk_connect_cpp.FileDownloadService.Handlers.Dedication.{
  download_completed-IsDedicated, download_failed-IsDedicated, request_packet-Keeps,
}
use wolk_connect_cpp.FileDownloader.Replies.{step-Reply}
use wolk_connect_cpp.FileDownloadService.Execution.{react, react_all, happens}

module _ (kit : Kit) where
  open kit use {api, sys, doubles}

  pub the_same :
      (s s' : Service kit) {o : Option (Service kit)}
      → o ≡ some s
      → o ≡ some s'
      → IsDedicated kit s
      → IsDedicated kit s'
  the_same s s' e e' f = let it : s ≡ s' = cc (sym e ∙ e') in subst (IsDedicated kit) it f

  react-IsDedicated :
      (s s' : Service kit) (effect : Effect Captured)
      → IsDedicated kit s
      → react kit s effect ≡ some s'
      → IsDedicated kit s'
  unfolding react
  react-IsDedicated s s' (provide_packet c r) f e =
      the_same (request_packet kit s r) s' refl e
        (by_Keeps kit s (request_packet kit s r) (request_packet-Keeps kit s r) f)
  react-IsDedicated s s' (on_success c path) f e =
      the_same _ s' refl e (download_completed-IsDedicated kit s c.file_name path c.file_hash f)
  react-IsDedicated s s' (on_fail c code) f e =
      the_same _ s' refl e (download_failed-IsDedicated kit s c.file_name code f)
  react-IsDedicated s s' bad_function_call f e = absurd (cc e)

  react_all-IsDedicated :
      (s s' : Service kit) (effects : List (Effect Captured))
      → IsDedicated kit s
      → react_all kit s effects ≡ some s'
      → IsDedicated kit s'
  unfolding react_all
  react_all-IsDedicated s s' [] f e = the_same s s' refl e f
  react_all-IsDedicated s s' (effect ∷ effects) f e = elim (Option-cases (react kit s effect)) [
    | inl q ↦
        let ended : ◌≡◌ {A = Option (Service kit)} none (some s') = rw (q, react_all) at e in
        absurd (cc ended)
    | inr (x, q) ↦
        react_all-IsDedicated x s' effects (react-IsDedicated s x effect f q)
          (rw (q, react_all) at e)
  ]

  -- The service once the downloader of a key has handled an event, before its callbacks run.
  abbrev pub stepped : Service kit → String → Entry kit → Event api Captured → Service kit
  stepped s key x event =
      let outcome = step api sys doubles x.downloader s.disk event in
      record s {
        active_downloads = assign kit key (record x { downloader = outcome.1 }) s.active_downloads;
        disk = outcome.2;
      }

  stepped-IsDedicated :
      (s : Service kit) (key : String) (x : Entry kit) (event : Event api Captured)
      → IsDedicated kit s
      → EntryFits kit key x
      → AsksFor
          (captured kit key x.hash)
          key
          (kit.base64_decode x.hash)
          kit.file_download_directory
          api
          event
      → IsDedicated kit (stepped s key x event)
  stepped-IsDedicated s key x event f fits asked =
      let outcome = step api sys doubles x.downloader s.disk event in
      assign-EntriesFit kit key (record x { downloader = outcome.1 }) s.active_downloads
        (record {
          downloader =
              Reply-Dedicated _ _ _ _ sys outcome (
                step-Reply _ _ _ _ sys api doubles x.downloader s.disk event fits.downloader asked);
          waiting = fits.waiting;
        })
        f

  pub happens-IsDedicated :
      (s s' : Service kit) (key : String) (x : Entry kit) (event : Event api Captured)
      → IsDedicated kit s
      → EntryFits kit key x
      → AsksFor
          (captured kit key x.hash)
          key
          (kit.base64_decode x.hash)
          kit.file_download_directory
          api
          event
      → happens kit s key x event ≡ some s'
      → IsDedicated kit s'
  unfolding happens
  happens-IsDedicated s s' key x event f fits asked e =
      react_all-IsDedicated (stepped s key x event) s'
        (step api sys doubles x.downloader s.disk event).0
        (stepped-IsDedicated s key x event f fits asked) e
