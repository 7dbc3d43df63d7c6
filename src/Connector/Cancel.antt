-- ===== src/Connector/Cancel.antt =====
-- `cancel` of apps/orchestrator/src/wuzzuf-tool-service.ts, the function that its `idempotent` runs.
use extension_jobs.Common.{String, Option, none, some, Result, ok, err, is_some, if◌then◌else◌}
use extension_jobs.Application.{PreparedApplication, terminal}
use extension_jobs.Connector.{
  Env, Tables, Failure, Outcome, find_application, save, disallow, Attempting, continue, fine,
  throw, try_advance,
}
use extension_jobs.Workflow.{cancelled}

-- What closing the browser session throws, if anything.
unfoldable pub close_session : Option Failure → Tables → PreparedApplication → Attempting
close_session closing t a = closed (if is_some a.adapter_session_id then closing else none)
  where
    closed : Option Failure → Attempting
    closed none = fine t a
    closed (some e) = throw e t a

abbrev pub saved : Env → Tables → PreparedApplication → Attempting
saved env t a = fine (save env a t) a

unfoldable pub cancel_open : Env → Option Failure → PreparedApplication → Tables → Attempting
unfolding close_session continue try_advance disallow save
cancel_open env closing a t =
    continue
      (continue (continue (close_session closing t a) (try_advance env cancelled)) (disallow env))
      (saved env)

abbrev pub ended : Attempting → Outcome PreparedApplication
ended s = (s.tables, outcome s.thrown)
  where
    outcome : Option Failure → Result Failure PreparedApplication
    outcome none = ok s.application
    outcome (some e) = err e

unfoldable pub cancel : Env → Option Failure → String → Tables → Outcome PreparedApplication
unfolding cancel_open find_application
cancel env closing application_id t = found (find_application application_id t)
  where
    found : Result Failure PreparedApplication → Outcome PreparedApplication
    found (err e) = (t, err e)
    found (ok a) =
        let live = ended (cancel_open env closing a t) in
        if terminal a.state then (t, ok a) else live
