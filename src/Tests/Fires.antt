-- ===== src/Tests/Fires.antt =====
-- The theorems on fire times and on the materializer at concrete inputs.
use tick.Base.{
  ℕ, suc, ◌+◌, ◌*◌, ◌≤◌, ◌≡◌, refl, true, Option, some, none, List, [], ◌∷◌, ◌++◌, All, arith, Text,
  ltb, map, bytes, find, length, if◌then◌else◌, ◌=?◌, select,
}
use tick.Domain.{ok, Task, Result}
use tick.Domain.Operations.{Clockwork, location, task_for}
use tick.Database.{Db, up, lost, exec}
use tick.Database.Checks.{checks, conflict, references}
use tick.Store.Enqueue.{new_row, sound, insert_statement, insert_task, select_by_key}
use tick.Store.Bulk.{enqueue_bulk, insert_all, fill_all, rollback}
use tick.Store.History.{perform, enqueues_bulk}
use tick.Store.History.Valid.{IsValid, perform-IsValid}
use tick.Cron.Resume.{next_n-resume, last_fire}
use tick.Materializer.Once.{materialize_once}
use tick.Samples.{store-IsValid}
use tick.Store.{read}
use tick.Store.Schedules.{list_enabled_schedules}
use tick.Database.Order.{plain_postgres}
use tick.Cron.{Robfig, Zone, parse, next_n, fires, skipped, round_trips, trim_space, fields}
use tick.Cron.Fires.{IsRising, IsGenuine, Advances}
use tick.Cron.Ends.{settles, next_n-returns}
use tick.Store.History.Runs.{IsHistory-refl}
use tick.Materializer.{
  Trip, plan, plan_at, plan_in, start, up_to, run_once, run_listed, materialize_each,
  materialize_one, materialize,
}
use tick.Materializer.Plans.{plan_lem}
use tick.Tests.Submissions.{nightly, planned_store}

-- Every ten ticks, until 50.
abbrev next_ten : ℕ → Option ℕ
next_ten t = if ltb t 50 then some (t + 10) else none

abbrev pub tens : Robfig (Unit {0})
tens = record {
  parse_fields = λ _. some tt;
  parse_descriptor = λ _. none;
  next = λ _ t. next_ten t;
}

-- A zone whose clock reads 30 twice, at 30 and at 40.
abbrev reading : ℕ → Text
reading t = if ltb 35 t then (if ltb t 45 then 30 ∷ [] else t ∷ []) else t ∷ []

abbrev fall_back : Zone
fall_back = record { wall_clock = reading; rebuild = λ t. t }

abbrev pub clockwork : Clockwork Zone
clockwork = record {
  decimal = λ n. n ∷ [];
  rfc3339 = λ n. n ∷ [];
  load_location = λ _. some fall_back;
}

tens-Advances : Advances tens tt
tens-Advances t u e = ground arith

abbrev two_fires : List ℕ
two_fires = 30 ∷ 50 ∷ []

abbrev one_fire : List ℕ
one_fire = 30 ∷ []

fires_run : fires tens fall_back tt 10 3 20 (20 ∷ []) ≡ some two_fires
unfolding fires skipped round_trips ◌=?◌
fires_run = refl

plan_run : plan clockwork tens (λ z. z) 10 nightly 25 15 ≡ some (ok one_fire)
unfolding plan plan_at plan_in location parse trim_space fields next_n fires skipped round_trips
    up_to ◌=?◌
plan_run = refl

plan_lem_example :
    (length one_fire ≤ 10000)
    × IsRising (start 25 (some 20)) one_fire
    × All (λ t. t ≤ 25 + 15) one_fire
    × (loc : Zone) × (location clockwork nightly ≡ ok loc)
    × IsGenuine loc (loc.wall_clock (start 25 (some 20))) one_fire
plan_lem_example =
    plan_lem clockwork tens (λ z. z) 10 nightly 25 15 one_fire (λ _. tens-Advances) plan_run

-- A schedule of one fire time.
abbrev once : Robfig (Unit {0})
once = record {
  parse_fields = λ _. some tt;
  parse_descriptor = λ _. none;
  next = λ _ t. if ltb t 50 then some 50 else none;
}

once-settles : (t : ℕ) (last : Text) → settles once fall_back tt 2 t last ≡ true
unfolding settles
once-settles t last = ground arith

next_n-returns_example : (out : List ℕ) × (next_n once fall_back tt (suc (3 * 2)) 20 3 ≡ some out)
next_n-returns_example = next_n-returns once fall_back tt 2 3 20 once-settles

abbrev trip : ℕ → Trip
trip _ = record { begin = up; commit = up; advance = up; clock = 25 }

abbrev after_pass : Option Db → Db
after_pass none = planned_store
after_pass (some db) = db

abbrev pass : Option Db
pass = run_once clockwork tens (λ z. z) plain_postgres up trip 10 25 15 planned_store

pass_run : pass ≡ some (after_pass pass)
unfolding run_once run_listed list_enabled_schedules exec read materialize_each materialize_one
    select plan plan_at plan_in location parse trim_space fields next_n fires skipped round_trips
    up_to ◌=?◌
pass_run = refl

two_fires_run : next_n tens fall_back tt 10 20 2 ≡ some two_fires
unfolding next_n fires skipped round_trips ◌=?◌
two_fires_run = refl

one_fire_run : next_n tens fall_back tt 10 20 1 ≡ some one_fire
unfolding next_n fires skipped round_trips ◌=?◌
one_fire_run = refl

next_n-resume_example :
    (ys : List ℕ) × (next_n tens fall_back tt 10 (last_fire 20 one_fire) 1 ≡ some ys)
    × (two_fires ≡ one_fire ++ ys)
next_n-resume_example =
    next_n-resume tens fall_back tt 10 1 1 20 one_fire two_fires two_fires_run one_fire_run refl

abbrev first_pass : Db × Result (List Task)
first_pass =
    materialize clockwork tens (λ z. z) plain_postgres (trip 0) nightly one_fire planned_store

abbrev fire_row : Task
fire_row = new_row 25 (bytes "{}") (task_for clockwork nightly 30) 5

first_pass_run : first_pass ≡ (first_pass.0, ok (fire_row ∷ []))
unfolding materialize enqueue_bulk insert_all insert_statement insert_task exec sound checks new_row
    conflict references find ◌=?◌ fill_all select_by_key read rollback task_for
first_pass_run = refl

first_pass-IsValid : IsValid first_pass.0
unfolding materialize perform
first_pass-IsValid =
    perform-IsValid plain_postgres up 25
      (enqueues_bulk up (map (task_for clockwork nightly) one_fire)) planned_store store-IsValid

materialize_once_example :
    (materialize clockwork tens
      (λ z. z)
      plain_postgres
      (record { begin = up; commit = lost; advance = up; clock = 99 })
      nightly
      one_fire
      first_pass.0).0.tasks
    ≡ first_pass.0.tasks
materialize_once_example =
    materialize_once clockwork tens (λ z. z) plain_postgres (trip 0)
      (record { begin = up; commit = lost; advance = up; clock = 99 }) nightly one_fire
      planned_store first_pass.0 first_pass.0 (fire_row ∷ []) first_pass_run first_pass-IsValid
      (IsHistory-refl plain_postgres first_pass.0)
