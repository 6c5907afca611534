-- ===== src/Tests/Runs.antt =====
-- The theorems on the loop of a worker at a concrete run.
use tick.Base.{◌≡◌, refl, false, List, [], ◌∷◌, arith, ap, ◌=?◌, select, update, take}
use tick.Domain.{Task, Result, ok}
use tick.Database.{Db, up, exec}
use tick.Database.Order.{plain_postgres, insertion_sort}
use tick.Store.Claim.{
  claim, claim_statement, claimable, chosen, chosen_ids, is_chosen, contains, stamp,
}
use tick.Worker.{dispatch}
use tick.Worker.Loop.{add, remove, available_batch}
use tick.Worker.Run.{
  Config, State, new, starting, start, Reach, see_slot, ask, receive, launch, end_dispatch,
  leave_slot, leave_group, started, later,
}
use tick.Samples.{store, alice, default_queue, waiting}
use tick.Tests.Workers.{format, more_handlers, panics}

abbrev pub cfg : Config
cfg = record { queue = default_queue; claim_batch = 5; concurrency = 2 }

abbrev single : Db
single = record store { tasks = waiting ∷ [] }

-- At 400, the claim of alice.
abbrev answer : Db × Result (List Task)
answer = claim plain_postgres (λ i. false) 400 default_queue alice 2 up single

abbrev claimed_task : Task
claimed_task = stamp alice 400 waiting

answered : answer.1 ≡ ok (claimed_task ∷ [])
unfolding claim exec claim_statement claimable chosen chosen_ids is_chosen contains stamp
    insertion_sort select update take ◌=?◌
answered = refl

abbrev Reached : Db × State → Type 0
Reached x = Reach plain_postgres format more_handlers cfg alice single x

-- The worker claims the task and starts it.
abbrev busy : Db × State
busy = (answer.0, start claimed_task [] (record new { phase = starting (claimed_task ∷ []) }))

begun : Reached busy
unfolding available_batch
begun =
    later
      (later (later (later started (see_slot refl (omega arith))) (ask refl))
        (receive 2 (claimed_task ∷ []) (λ i. false) 400 up refl (ap (λ r. (answer.0, r)) answered)))
      (launch claimed_task [] refl (omega arith))

-- The task's handler panics.
abbrev ended : Db
ended =
    dispatch plain_postgres format panics more_handlers up 500 (λ x. x) (λ d. d) alice claimed_task
      answer.0

abbrev idle : State
idle = record new { phase = starting [] }

over : Reached (ended, idle)
unfolding add remove available_batch select stamp
over =
    later
      (later (later begun (end_dispatch claimed_task [] [] panics up 500 (λ x. x) refl))
        (leave_slot 0 refl))
      (leave_group 0 refl)
