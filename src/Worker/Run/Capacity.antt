-- ===== src/Worker/Run/Capacity.antt =====
-- The claims of a run against its capacity.
use tick.Base.{ℕ, ◌+◌, ◌≤◌, ◌≡◌, refl, ap, subst, List, [], ◌∷◌, Text, arith, length, length-append}
use tick.Domain.{Task}
use tick.Database.{Db, Postgres}
use tick.Store.Claim.Returned.{claim-le}
use tick.Store.History.Valid.{IsValid, run-IsValid}
use tick.Worker.{Registry, Format}
use tick.Worker.Loop.{available_batch, idle_backoff_floor}
use tick.Worker.Run.Database.{run-IsHistory}
use tick.Worker.Run.{
  Config, Phase, polling, slot_seen, waiting, draining, returned, claiming, starting, releasing,
  State, claimed, start, Step, Reach, elsewhere, see_slot, ask, receive, claim_failed, back_off,
  launch, all_started, end_dispatch, leave_slot, leave_group, send_beats, stop_polling,
  stop_claiming, stop_waiting, drained, give_up, release, all_released, started, later,
}

-- The tasks that are claimed, or are being claimed, and not yet started.
abbrev pub promised : Phase → ℕ
promised (claiming limit) = limit
promised (starting tasks) = length tasks
promised _ = 0

-- The counters of a state agree, and no slot is promised twice.
pub record Counts (concurrency : ℕ) (s : State) : Type 0 where
  pub slots : s.sem ≡ length s.dispatching + s.leaving
  pub group : s.wait_group ≡ s.sem + s.ending
  pub room : promised s.phase + s.sem ≤ concurrency

Counts-move :
    (concurrency : ℕ) (s : State) (phase : Phase) (backoff : ℕ)
    → promised phase + s.sem ≤ concurrency
    → Counts concurrency s
    → Counts concurrency (record s { phase = phase; backoff = backoff })
Counts-move concurrency s phase backoff h c = record { slots = c.slots; group = c.group; room = h }

Counts-rest :
    (concurrency : ℕ) (s : State) (phase : Phase) (backoff : ℕ)
    → promised phase ≡ 0
    → Counts concurrency s
    → Counts concurrency (record s { phase = phase; backoff = backoff })
Counts-rest concurrency s phase backoff h c =
    Counts-move concurrency s phase backoff (omega (arith, h, c.room)) c

Counts-claimed :
    (concurrency : ℕ) (s : State) (limit : ℕ) (ts : List Task)
    → s.phase ≡ claiming limit
    → length ts ≤ limit
    → Counts concurrency s
    → Counts concurrency (claimed ts s)
Counts-claimed concurrency s limit [] p h c = Counts-rest concurrency s waiting s.backoff refl c
Counts-claimed concurrency s limit (t ∷ ts) p h c =
    Counts-move concurrency s (starting (t ∷ ts)) idle_backoff_floor
      (omega (arith, h, c.room, ap promised p)) c

Counts-start :
    (concurrency : ℕ) (s : State) (t : Task) (ts : List Task)
    → s.phase ≡ starting (t ∷ ts)
    → Counts concurrency s
    → Counts concurrency (start t ts s)
Counts-start concurrency s t ts p c = record {
  slots = omega (arith, c.slots);
  group = omega (arith, c.group);
  room = omega (arith, c.room, ap promised p);
}

module _ {Handler : Type 0} (pg : Postgres) (fmt : Format) (registry : Registry Handler)
    (cfg : Config) (worker_id : Text) where
  pub Step-Counts :
      {x y : Db × State}
      → Step pg fmt registry cfg worker_id x y
      → IsValid x.0
      → Counts cfg.concurrency x.1
      → Counts cfg.concurrency y.1
  unfolding available_batch
  Step-Counts (elsewhere h) v c = c
  Step-Counts (see_slot {s} p q) v c = Counts-rest cfg.concurrency s slot_seen s.backoff refl c
  Step-Counts (ask {s} p) v c = Counts-move cfg.concurrency s _ s.backoff (omega (arith, c.room)) c
  Step-Counts (receive {db} {db'} {s} limit tasks locked now link p e) v c =
      Counts-claimed cfg.concurrency s limit tasks p
        (claim-le pg locked now cfg.queue worker_id limit link db db' db.next_task_id tasks v e) c
  Step-Counts (claim_failed {s} limit e locked now link p h) v c =
      Counts-rest cfg.concurrency s polling s.backoff refl c
  Step-Counts (back_off {s} p) v c = Counts-rest cfg.concurrency s polling _ refl c
  Step-Counts (launch {s} t ts p q) v c = Counts-start cfg.concurrency s t ts p c
  Step-Counts (all_started {s} p) v c = Counts-rest cfg.concurrency s polling s.backoff refl c
  Step-Counts (end_dispatch {s} t before after call link now jitter p) v c = record {
    slots =
        omega (
          arith,
          c.slots,
          ap length p,
          length-append before (t ∷ after),
          length-append before after,
        );
    group = c.group;
    room = c.room;
  }
  Step-Counts (leave_slot n p) v c = record {
    slots = omega (arith, c.slots, p);
    group = omega (arith, c.slots, c.group, p);
    room = omega (arith, c.room);
  }
  Step-Counts (leave_group n p) v c = record {
    slots = c.slots;
    group = omega (arith, c.group, p);
    room = c.room;
  }
  Step-Counts (send_beats link links held_now now p) v c = c
  Step-Counts (stop_polling {s} p) v c = Counts-rest cfg.concurrency s draining s.backoff refl c
  Step-Counts (stop_claiming {s} limit e locked now link p h) v c =
      Counts-rest cfg.concurrency s draining s.backoff refl c
  Step-Counts (stop_waiting {s} p) v c = Counts-rest cfg.concurrency s draining s.backoff refl c
  Step-Counts (drained {s} p q) v c = Counts-rest cfg.concurrency s returned s.backoff refl c
  Step-Counts (give_up {s} p) v c =
      Counts-rest cfg.concurrency s (releasing s.in_flight) s.backoff refl c
  Step-Counts (release {s} i ids link now jitter p) v c =
      Counts-rest cfg.concurrency s (releasing ids) s.backoff refl c
  Step-Counts (all_released {s} p) v c = Counts-rest cfg.concurrency s returned s.backoff refl c

  Reach-IsValid :
      (db : Db) {x : Db × State}
      → IsValid db
      → Reach pg fmt registry cfg worker_id db x
      → IsValid x.0
  Reach-IsValid db v r =
      let (es, e) = run-IsHistory pg fmt registry cfg worker_id db r in
      subst IsValid e (run-IsValid pg es db v)

  pub Reach-Counts :
      (db : Db) {x : Db × State}
      → IsValid db
      → Reach pg fmt registry cfg worker_id db x
      → Counts cfg.concurrency x.1
  Reach-Counts db v started = record { slots = refl; group = refl; room = omega arith }
  Reach-Counts db v (later r st) = Step-Counts st (Reach-IsValid db v r) (Reach-Counts db v r)

  -- From a valid database, a run of a worker never holds more than its concurrency: the tasks that it dispatches, the
  -- dispatches that still hold a slot, and the tasks that it has claimed, or asked for, and not yet
  -- started are together at most that many.
  pub run_within_capacity :
      (db : Db) {x : Db × State}
      → IsValid db
      → Reach pg fmt registry cfg worker_id db x
      → length x.1.dispatching + x.1.leaving + promised x.1.phase ≤ cfg.concurrency
  run_within_capacity db v r = let c = Reach-Counts db v r in omega (arith, c.slots, c.room)
