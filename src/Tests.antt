-- ===== src/Tests.antt =====
-- The theorems at concrete inputs: histories and the backoff curve.
pub mod Claims
pub mod Submissions
pub mod Fires
pub mod Workers
pub mod Requests
pub mod Routes
pub mod Runs
pub mod Systems
pub mod Settings
pub mod Migrations
pub mod Processes
use tick.Base.{
  ℕ, ◌+◌, ◌*◌, ◌≤◌, ◌<◌, ◌≡◌, refl, Bool, true, false, Option, some, none, List, [], ◌∷◌, arith,
  bytes, find,
}
use tick.Base.Int.{pos, negsuc, ◌≤ℤ◌}
use tick.Domain.{Task, terminal, dead, pending}
use tick.Database.{up}
use tick.Database.Order.{plain_postgres}
use tick.Retry.{ceiling, backoff_with, default_config}
use tick.Retry.Curve.{backoff_bounds}
use tick.Store.{row}
use tick.Store.Rows.Identity.{IsSameTask}
use tick.Store.History.{run, perform, Event, claims}
use tick.Store.History.Valid.{IsValid, run-IsValid}
use tick.Store.History.LifeCycle.{
  Edge, handouts, handouts-le-max_attempts, terminal_is_final, perform-Edge,
}
use tick.Samples.{store, store-IsValid, day, waiting, buried, held_row, bob, default_queue}

run-IsValid_example : IsValid (run plain_postgres day store)
run-IsValid_example = run-IsValid plain_postgres day store store-IsValid

pub row-waiting : row 1 store ≡ some waiting
unfolding find
row-waiting = refl

pub row-held : row 2 store ≡ some held_row
unfolding find
row-held = refl

pub row-buried : row 3 store ≡ some buried
unfolding find
row-buried = refl

handouts-le-max_attempts_example :
    (u : Task) × (row 2 (run plain_postgres day store) ≡ some u)
    × IsSameTask held_row u
    × (2 + handouts plain_postgres 2 day store ≤ 2)
handouts-le-max_attempts_example =
    handouts-le-max_attempts plain_postgres day store 2 held_row store-IsValid row-held

terminal_is_final_example : row 3 (run plain_postgres day store) ≡ some buried
unfolding terminal
terminal_is_final_example =
    terminal_is_final plain_postgres day store 3 buried store-IsValid row-buried refl

abbrev claim_one : Event
claim_one = record { link = up; now = 200; op = claims (λ _. false) default_queue bob 5 }

perform-Edge_example :
    (u : Task) × (row 1 (perform plain_postgres up 200 claim_one.op store) ≡ some u)
    × Edge pending u.status
perform-Edge_example =
    perform-Edge plain_postgres claim_one store 1 waiting store-IsValid row-waiting
