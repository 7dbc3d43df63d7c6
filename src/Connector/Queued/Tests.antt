-- ===== src/Connector/Queued/Tests.antt =====
-- An operation as a job of the queue, at concrete queues.
use extension_jobs.Common.{◌≡◌, refl, false, some, List, [], ◌∷◌, ok}
use extension_jobs.Connector.Queued.{
  inline, Next, runs_inline, begin_queued, end_queued, returned, poll, Turn, wait_for_worker,
}
use extension_jobs.Queue.{Queue, wuzzuf_search, empty, enqueue, new_row, claim_by_id, get}
use extension_jobs.Queue.Operations.{
  complete_with_result, complete, put_result, completed_row, result,
}

abbrev begun : Queue × Next
begun = begin_queued 1 "q" "u" inline wuzzuf_search "{}" "w" false empty

claimed_inline : begun.1 ≡ runs_inline "q"
unfolding begin_queued enqueue new_row claim_by_id get
claimed_inline = refl

abbrev finished : Queue
finished = end_queued 2 "q" "w" (ok "[]") begun.0

abbrev turns : List Turn
turns =
    record { now = 3; aborted = false; queue = begun.0 }
    ∷ record { now = 4; aborted = false; queue = finished }
    ∷ []

waits_for_result : wait_for_worker 100 "q" turns ≡ returned (some "[]")
unfolding wait_for_worker poll begin_queued end_queued enqueue new_row claim_by_id get
    complete_with_result complete put_result completed_row result
waits_for_result = refl
