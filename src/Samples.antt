-- ===== src/Samples.antt =====
-- Small databases, tasks and histories on which the theorems are applied.
use tick.Base.{◌*◌, false, some, none, List, [], ◌∷◌, arith, bytes, find, Text, ◌=?◌}
use tick.Base.Int.{pos}
use tick.Domain.{Task, pending, running, dead, second}
use tick.Database.{Db, up, down, lost}
use tick.Database.Checks.{checks}
use tick.Store.History.{Event, enqueues, claims, completes, fails, recovers, cancels}
use tick.Store.History.Valid.{IsValid}

abbrev pub alice : Text
alice = bytes "host/1/aa"

abbrev pub bob : Text
bob = bytes "host/2/bb"

abbrev pub default_queue : Text
default_queue = bytes "default"

-- A submission.
abbrev pub email : Task
email = record {
  id = 0;
  queue = default_queue;
  handler = bytes "email";
  payload = bytes "{}";
  priority = pos 3;
  status = pending;
  run_at = 0;
  attempts = 0;
  max_attempts = 2;
  claimed_by = none;
  heartbeat_at = none;
  idempotency_key = some (bytes "k1");
  schedule_id = none;
  last_error = none;
  created_at = 0;
}

-- Rows in three states.
abbrev pub waiting : Task
waiting = record email { id = 1; run_at = 100; created_at = 50 }

abbrev pub held_row : Task
held_row = record email {
  id = 2;
  run_at = 100;
  status = running;
  attempts = 2;
  claimed_by = some alice;
  heartbeat_at = some 1000;
  idempotency_key = none;
}

abbrev pub buried : Task
buried = record email {
  id = 3;
  status = dead;
  attempts = 2;
  idempotency_key = none;
  last_error = some (bytes "boom");
}

abbrev pub urgent : Task
urgent = record waiting { id = 4; priority = pos 9; idempotency_key = none }

abbrev pub store : Db
store = record {
  tasks = waiting ∷ held_row ∷ buried ∷ urgent ∷ [];
  next_task_id = 5;
  schedules = [];
  next_schedule_id = 1;
}

abbrev pub empty : Db
empty = record { tasks = []; next_task_id = 1; schedules = []; next_schedule_id = 1 }

pub store-IsValid : IsValid store
unfolding checks find ◌=?◌
store-IsValid = ground arith

-- Two workers, a lost reply, a sweep and a cancellation.
abbrev pub day : List Event
day =
    record { link = up; now = 200; op = claims (λ _. false) default_queue bob 1 }
    ∷ record { link = lost; now = 300; op = enqueues email }
    ∷ record { link = up; now = 400; op = fails (λ x. x) 4 bob (some (bytes "no route")) }
    ∷ record { link = up; now = 200 * second; op = recovers }
    ∷ record { link = up; now = 201 * second; op = completes 2 alice }
    ∷ record { link = down; now = 202 * second; op = cancels 1 }
    ∷ []
