-- ===== src/Worker/Run.antt =====
-- internal/worker/worker.go and heartbeat.go: Run, with its dispatches and its heartbeats, as steps that
-- interleave.
--
-- A step is what happens between two points at which another goroutine or another process can get in
-- between: a send or a receive on the semaphore, one statement, one dispatch's outcome. A heartbeat
-- reads the in-flight set together with its statement. What a handler returns is a choice of the step,
-- so it may depend on whether its context was cancelled.
pub mod Capacity
pub mod Database
pub mod InFlight
pub mod Shutdown
use tick.Base.{ℕ, ◌+◌, ◌-◌, ◌*◌, ◌<◌, ◌≡◌, Bool, true, false, List, [], ◌∷◌, ◌++◌, Text, some}
use tick.Domain.{Task, Result, ok, err, Error}
use tick.Database.{Db, Postgres, Link}
use tick.Store.Backoff.{Jitter}
use tick.Store.Claim.{claim}
use tick.Store.Finish.{fail}
use tick.Store.History.Runs.{IsHistory}
use tick.Worker.{Registry, Outcome, Format, dispatch, heartbeat_once, shutdown_message}
use tick.Worker.Loop.{available_batch, next_backoff, idle_backoff_floor, add, remove}

-- The configuration's fields that Run reads and that are not times.
pub record Config : Type 0 where
  pub queue : Text
  pub claim_batch : ℕ
  pub concurrency : ℕ

-- Where the goroutine of Run is: at the head of the loop, behind the test of the semaphore, waiting for
-- the answer to a claim of `limit` tasks, starting what it got, waiting out the back-off, waiting for
-- dispatches to end, releasing the rest, or returned.
pub data Phase : Type 0 where
  polling slot_seen waiting draining returned : Phase
  claiming : (limit : ℕ) → Phase
  starting : (tasks : List Task) → Phase
  releasing : (ids : List ℕ) → Phase

abbrev pub is_returned : Phase → Bool
is_returned returned = true
is_returned _ = false

-- `sem` is the number of values in the semaphore. A dispatch is in `dispatching` until its outcome is
-- recorded and its id removed from the in-flight set, then one of the `leaving` until it gives its slot
-- back, then one of the `ending` until it leaves the wait group.
pub record State : Type 0 where
  pub phase : Phase
  pub backoff : ℕ
  pub sem : ℕ
  pub wait_group : ℕ
  pub in_flight : List ℕ
  pub dispatching : List Task
  pub leaving : ℕ
  pub ending : ℕ

abbrev pub new : State
new = record {
  phase = polling;
  backoff = idle_backoff_floor;
  sem = 0;
  wait_group = 0;
  in_flight = [];
  dispatching = [];
  leaving = 0;
  ending = 0;
}

-- What Run makes of the tasks of an answer.
abbrev pub claimed : List Task → State → State
claimed [] s = record s { phase = waiting }
claimed (t ∷ ts) s = record s { phase = starting (t ∷ ts); backoff = idle_backoff_floor }

abbrev pub start : Task → List Task → State → State
start t ts s = record s {
  phase = starting ts;
  sem = s.sem + 1;
  wait_group = s.wait_group + 1;
  in_flight = add t.id s.in_flight;
  dispatching = t ∷ s.dispatching;
}

module _ {Handler : Type 0} (pg : Postgres) (fmt : Format) (registry : Registry Handler)
    (cfg : Config) (worker_id : Text) where
  pub data Step : Db × State → Db × State → Type 0 where
    -- Any other process.
    elsewhere : {db db' : Db} {s : State} → IsHistory pg db db' → Step (db, s) (db', s)
    -- `w.sem <- struct{}{}` and `<-w.sem`.
    see_slot :
        {db : Db} {s : State}
        → s.phase ≡ polling
        → s.sem < cfg.concurrency
        → Step (db, s) (db, record s { phase = slot_seen })
    ask :
        {db : Db} {s : State}
        → s.phase ≡ slot_seen
        → Step
            (db, s)
            (
              db,
              record s { phase = claiming (available_batch cfg.claim_batch cfg.concurrency s.sem) },
            )
    receive :
        {db db' : Db} {s : State} (limit : ℕ) (tasks : List Task) (locked : ℕ → Bool) (now : ℕ)
        (link : Link)
        → s.phase ≡ claiming limit
        → claim pg locked now cfg.queue worker_id limit link db ≡ (db', ok tasks)
        → Step (db, s) (db', claimed tasks s)
    claim_failed :
        {db db' : Db} {s : State} (limit : ℕ) (e : Error) (locked : ℕ → Bool) (now : ℕ)
        (link : Link)
        → s.phase ≡ claiming limit
        → claim pg locked now cfg.queue worker_id limit link db ≡ (db', err e)
        → Step (db, s) (db', record s { phase = polling })
    back_off :
        {db : Db} {s : State}
        → s.phase ≡ waiting
        → Step (db, s) (db, record s { phase = polling; backoff = next_backoff s.backoff 0 })
    -- The send on the semaphore goes through only below its capacity.
    launch :
        {db : Db} {s : State} (t : Task) (ts : List Task)
        → s.phase ≡ starting (t ∷ ts)
        → s.sem < cfg.concurrency
        → Step (db, s) (db, start t ts s)
    all_started :
        {db : Db} {s : State}
        → s.phase ≡ starting []
        → Step (db, s) (db, record s { phase = polling })
    end_dispatch :
        {db : Db} {s : State} (t : Task) (before after : List Task)
        (call : Handler → Task → Outcome × Bool) (link : Link) (now : ℕ) (jitter : Jitter)
        → s.dispatching ≡ before ++ t ∷ after
        → Step
            (db, s)
            (
              dispatch pg fmt call registry link now jitter (λ d. d) worker_id t db,
              record s {
                in_flight = remove t.id s.in_flight;
                dispatching = before ++ after;
                leaving = s.leaving + 1;
              },
            )
    leave_slot :
        {db : Db} {s : State} (n : ℕ)
        → s.leaving ≡ n + 1
        → Step (db, s) (db, record s { sem = s.sem - 1; leaving = n; ending = s.ending + 1 })
    leave_group :
        {db : Db} {s : State} (n : ℕ)
        → s.ending ≡ n + 1
        → Step (db, s) (db, record s { wait_group = s.wait_group - 1; ending = n })
    -- A tick of the heartbeat loop.
    send_beats :
        {db : Db} {s : State} (link : Link) (links : ℕ → Link) (held_now : ℕ → Bool) (now : ℕ)
        → is_returned s.phase ≡ false
        → Step (db, s) ((heartbeat_once pg link links held_now now s.in_flight worker_id db).0, s)
    -- The context is cancelled: seen at the head of the loop, after a claim that failed, or while waiting.
    stop_polling :
        {db : Db} {s : State} → s.phase ≡ polling → Step (db, s) (db, record s { phase = draining })
    stop_claiming :
        {db db' : Db} {s : State} (limit : ℕ) (e : Error) (locked : ℕ → Bool) (now : ℕ)
        (link : Link)
        → s.phase ≡ claiming limit
        → claim pg locked now cfg.queue worker_id limit link db ≡ (db', err e)
        → Step (db, s) (db', record s { phase = draining })
    stop_waiting :
        {db : Db} {s : State} → s.phase ≡ waiting → Step (db, s) (db, record s { phase = draining })
    drained :
        {db : Db} {s : State}
        → s.phase ≡ draining
        → s.wait_group ≡ 0
        → Step (db, s) (db, record s { phase = returned })
    -- The grace period is over.
    give_up :
        {db : Db} {s : State}
        → s.phase ≡ draining
        → Step (db, s) (db, record s { phase = releasing s.in_flight })
    release :
        {db : Db} {s : State} (i : ℕ) (ids : List ℕ) (link : Link) (now : ℕ) (jitter : Jitter)
        → s.phase ≡ releasing (i ∷ ids)
        → Step
            (db, s)
            (
              (fail pg link now jitter i worker_id (some shutdown_message) db).0,
              record s { phase = releasing ids },
            )
    all_released :
        {db : Db} {s : State}
        → s.phase ≡ releasing []
        → Step (db, s) (db, record s { phase = returned })

  -- What a call of Run that finds the database `db` can reach.
  pub data Reach (db : Db) : Db × State → Type 0 where
    started : Reach db (db, new)
    later : {x y : Db × State} → Reach db x → Step x y → Reach db y
