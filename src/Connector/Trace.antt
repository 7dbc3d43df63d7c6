-- ===== src/Connector/Trace.antt =====
-- Any history of apps/orchestrator/src/wuzzuf-tool-service.ts: its operations on the tables, and
-- the three parts of any number of submissions that wait for the browser at the same time.
use extension_jobs.Common.{
  ℕ, zero, suc, String, Bool, Option, none, some, List, [], ◌∷◌, if◌then◌else◌,
}
use extension_jobs.Application.{PreparedApplication}
use extension_jobs.Connector.{Hashes, Env, Tables, Failure, save, invalidate}
use extension_jobs.Connector.Approval.{request_submission_approval, decide_approval}
use extension_jobs.Connector.Cancel.{cancel}
use extension_jobs.Connector.Submit.{
  SubmitInput, Flight, Progress, returned, thrown, waiting, submit_begin,
}
use extension_jobs.Connector.Click.{Page, Click, submit_reserve, submit_finish}

-- A submission waits for the page, or for the answer to its click.
pub data Phase : Type 0 where
  reading : Flight → Phase
  clicking : Flight → Phase

-- `clicks` has the ids of the applications whose submit button was clicked.
pub record World : Type 0 where
  pub tables : Tables
  pub phases : List Phase
  pub clicks : List String

-- `saves` is a write of a record by any other operation, as `prepare` and `fill`, with whatever
-- record it holds by then; `invalidates` is what they do to the approvals.
pub data Op : Type 0 where
  saves : Env → PreparedApplication → Op
  invalidates : Env → String → Option String → Op
  requests : Env → String → String → Option ℕ → String → Op
  decides : Env → Bool → String → String → Op
  cancels : Env → Option Failure → String → Op
  begins : Env → SubmitInput → Op
  reads : Env → Page → ℕ → Op
  answers : Env → Click → ℕ → Op

unfoldable pub nth : ℕ → List Phase → Option Phase
nth n [] = none
nth zero (p ∷ ps) = some p
nth (suc n) (p ∷ ps) = nth n ps

unfoldable pub drop_nth : ℕ → List Phase → List Phase
drop_nth n [] = []
drop_nth zero (p ∷ ps) = ps
drop_nth (suc n) (p ∷ ps) = p ∷ drop_nth n ps

abbrev pub added : (Flight → Phase) → Progress → List Phase → List Phase
added make (returned r) ps = ps
added make (thrown e) ps = ps
added make (waiting f) ps = make f ∷ ps

-- The n-th waiting submission goes on: one that reads the page clicks or ends, one that clicked ends.
unfoldable pub read_page : Hashes → Env → Page → ℕ → Option Phase → World → World
read_page h env page n (some (reading f)) w =
    let (t, progress) = submit_reserve h env page f w.tables in
    record w { tables = t; phases = added clicking progress (drop_nth n w.phases) }
read_page h env page n _ w = w

unfoldable pub answer_click : Env → Click → ℕ → Option Phase → World → World
answer_click env click n (some (clicking f)) w =
    let (t, progress) = submit_finish env click f w.tables in
    record {
      tables = t;
      phases = drop_nth n w.phases;
      clicks = if click.started then f.application.id ∷ w.clicks else w.clicks;
    }
answer_click env click n _ w = w

unfoldable pub step : Hashes → World → Op → World
unfolding nth drop_nth read_page answer_click
step h w (saves env a) = record w { tables = save env a w.tables }
step h w (invalidates env id except) = record w { tables = (invalidate env id except w.tables).0 }
step h w (requests env id nonce seconds application_id) = record w {
  tables = (request_submission_approval h env id nonce seconds application_id w.tables).0;
}
step h w (decides env agreed token id) = record w {
  tables = (decide_approval h env agreed token id w.tables).0;
}
step h w (cancels env closing id) = record w { tables = (cancel env closing id w.tables).0 }
step h w (begins env input) =
    let (t, progress) = submit_begin h env input w.tables in
    record w { tables = t; phases = added reading progress w.phases }
step h w (reads env page n) = read_page h env page n (nth n w.phases) w
step h w (answers env click n) = answer_click env click n (nth n w.phases) w

unfoldable pub run : Hashes → World → List Op → World
run h w [] = w
run h w (op ∷ ops) = run h (step h w op) ops

-- An empty database, and nothing going on.
abbrev pub nothing : World
nothing = record {
  tables = record {
    submissions = record { applications = []; attempts = [] };
    approvals = record { requests = []; approvals = [] };
    locks = [];
  };
  phases = [];
  clicks = [];
}
