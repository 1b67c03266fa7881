-- ===== src/Smm/Worker/Searches/Conservation.antt =====
-- The searches of a whole run: src/smm/smm.cpp.
use mathlib.Core.List.{Perm}
use fss_smm_mav.Prelude.{subst, List, [], ◌∷◌, ◌++◌}
use fss_smm_mav.Prelude.Double.{Double}
use fss_smm_mav.Smm.Worker.{request, stop_smm, Smm, Request, Entry, requested}
use fss_smm_mav.Smm.Worker.Run.{Step, asks, works, stops, Run, start, next}
use fss_smm_mav.Smm.Worker.Searches.{given, gone, nothing-Balances, append-Balances, Balances}
use fss_smm_mav.Smm.Worker.Searches.Acquire.{TaskBalances, held}
use fss_smm_mav.Smm.Worker.Searches.Rounds.{noted-Balances, request-held}
use fss_smm_mav.Smm.Worker.Searches.Tasks.{task-Balances}

module _ {Conn Asset Handle : Type 0} (tan : Double → Double) where
  Step-Balances :
      {s t : Smm Conn Asset Handle} {es : List (Entry Conn Asset Handle)}
      → Step tan s es t
      → Balances (held s) es (held t)
  unfolding stop_smm
  Step-Balances (asks s r) = noted_request s r
    where
      noted_request :
          (s : Smm Conn Asset Handle) (r : Request)
          → Balances {Conn = Conn} {Asset = Asset} (held s) (requested r ∷ []) (held (request s r))
      noted_request s r = rw (request-held s r) (noted-Balances (held s) (r ∷ []))
  Step-Balances (works a fuel task rest {s} {t} {es} front e) =
      subst (TaskBalances (held s)) e
        (task-Balances tan fuel a task (record s { task_queue = rest }))
  Step-Balances (stops s) = nothing-Balances (held s)

  run-Balances :
      {s t : Smm Conn Asset Handle} {es : List (Entry Conn Asset Handle)}
      → Run tan s es t
      → Balances (held s) es (held t)
  run-Balances {s} start = nothing-Balances (held s)
  run-Balances (next {es} {fs} r st) = append-Balances es fs (run-Balances r) (Step-Balances st)

  -- Over any run of the worker among the calls of other threads: the searches that SMM has given
  -- out, with the one held at the start, are exactly those destroyed or let go, each once, with the
  -- one held at the end.
  pub searches_are_conserved :
      (s : Smm Conn Asset Handle) {t : Smm Conn Asset Handle} {es : List (Entry Conn Asset Handle)}
      → Run tan s es t
      → Perm (gone es ++ held t) (given es ++ held s)
  searches_are_conserved s r = (run-Balances r).balance
