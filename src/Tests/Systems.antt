-- ===== src/Tests/Systems.antt =====
-- The theorems on the whole system at a concrete run.
use tick.Base.{ℕ, ◌+◌, ◌*◌, arith, ◌≤◌, ◌≡◌, refl, some, [], ◌∷◌, bytes, find, ◌=?◌}
use tick.Base.Int.{negsuc}
use tick.Domain.{Task, cancelled, second}
use tick.Database.{Db, up, exec}
use tick.Database.Checks.{checks, conflict, references}
use tick.Database.Order.{plain_postgres}
use tick.Store.{row}
use tick.Store.Enqueue.{enqueue, new_row, sound, insert_statement, insert_task}
use tick.Worker.Loop.{available_batch}
use tick.Worker.Run.{new, claiming, slot_seen, see_slot, ask}
use tick.Sweeper.{sweep_once}
use tick.Api.{
  submit_task, submitted_task, created_task, validate_submission, handler_errors, payload_errors,
  number_errors, is_handler_name, is_letter, all_name_bytes, is_name_byte, is_json_object,
  priority_ok, max_attempts_ok,
}
use tick.Api.Resources.{body, empty, get_task, cancel_task}
use tick.Api.Resources.Laws.{cancel_task_lem}
use tick.System.{Node, World, Setting, Reach, here, later, boot, sweep, work}
use tick.System.Reached.{workers_within_capacity}
use tick.System.Promises.{deleted_for_good, accepted_is_kept}
use tick.Cron.{Zone}
use tick.Samples.{store, store-IsValid, alice}
use tick.Tests.Fires.{tens, clockwork}
use tick.Tests.Requests.{rfc3339, greeting}
use tick.Tests.Routes.{parse_int}
use tick.Tests.Runs.{cfg}
use tick.Tests.Workers.{format, more_handlers}

abbrev setting : Setting Zone (Unit {0}) ℕ
setting = record {
  pg = plain_postgres;
  go = clockwork;
  zone = λ z. z;
  cron = tens;
  cron_error = λ s. s;
  rfc3339 = rfc3339;
  parse_int = parse_int;
  fmt = format;
  registry = more_handlers;
}

abbrev quiet : World
quiet = record { db = store; nodes = [] }

abbrev deleted_db : Db
deleted_db = (cancel_task parse_int up up (λ d. d) (bytes "1") store).0

deleted_run : (cancel_task parse_int up up (λ d. d) (bytes "1") store).1 ≡ empty 204
unfolding find
deleted_run = (cancel_task_lem parse_int (bytes "1") 1 store 5 store-IsValid refl).0

-- A sweep follows, and a worker starts.
abbrev evening : World
evening = record {
  db = (sweep_once up (200 * second) deleted_db).0;
  nodes = record { worker_id = alice; cfg = cfg; state = new } ∷ [];
}

evening_comes : Reach setting (record quiet { db = deleted_db }) evening
evening_comes = later (later here (sweep up (200 * second))) (boot alice cfg)

deleted_for_good_example :
    (t : Task) × (row 1 store ≡ some t)
    × ((get_task parse_int up (bytes "1") evening.db).1
        ≡ body 200 (record t { status = cancelled }))
deleted_for_good_example =
    deleted_for_good setting quiet evening (bytes "1") 1 store-IsValid refl deleted_run
      evening_comes

abbrev posted : Db
posted = (submit_task plain_postgres up up (λ d. d) 800 rfc3339 [] greeting store).0

abbrev greeting_row : Task
greeting_row = new_row 800 (bytes " {}") (submitted_task rfc3339 [] greeting) 5

posted_run :
    (submit_task plain_postgres up up (λ d. d) 800 rfc3339 [] greeting store).1
    ≡ created_task greeting_row
unfolding submit_task validate_submission submitted_task handler_errors payload_errors number_errors
    is_handler_name is_letter all_name_bytes is_name_byte is_json_object priority_ok max_attempts_ok
    ◌=?◌ enqueue insert_statement insert_task exec sound checks new_row conflict references find
posted_run = refl

abbrev night : World
night = record { db = (sweep_once up (200 * second) posted).0; nodes = [] }

accepted_is_kept_example :
    (u : Task) × ((get_task parse_int up (bytes "5") night.db).1 ≡ body 200 u)
    × (u.handler ≡ bytes "email.v2")
    × (u.priority ≡ negsuc 2)
    × (u.payload ≡ greeting_row.payload)
    × (u.attempts ≤ u.max_attempts)
unfolding new_row
accepted_is_kept_example =
    accepted_is_kept setting quiet night 800 [] greeting greeting_row (bytes "5") store-IsValid
      posted_run refl (later here (sweep up (200 * second)))

-- A worker starts, finds a free slot and asks for as many tasks as it has slots.
abbrev asking : Node
asking = record { worker_id = alice; cfg = cfg; state = record new { phase = claiming 2 } }

abbrev morning : World
morning = record quiet { nodes = asking ∷ [] }

morning_comes : Reach setting quiet morning
unfolding available_batch
morning_comes =
    later
      (later (later here (boot alice cfg)) (
        work [] [] (record { worker_id = alice; cfg = cfg; state = new }) _ refl
          (see_slot refl (omega arith))))
      (work [] [] (record asking { state = record new { phase = slot_seen } }) _ refl (ask refl))

workers_within_capacity_example : (0 + 0 + 2 ≤ 2) × Unit {0}
workers_within_capacity_example = workers_within_capacity setting store-IsValid refl morning_comes
