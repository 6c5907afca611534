-- ===== src/Tests/Claims.antt =====
-- The theorems on claims at concrete inputs.
use tick.Base.{
  ℕ, ◌*◌, ◌≤◌, ◌≡◌, refl, Bool, true, false, ◌||◌, some, none, List, [], ◌∷◌, All, arith, bytes,
  length, select, take, ◌=?◌, if◌then◌else◌,
}
use tick.Base.Members.{In}
use tick.Domain.{Task, running, claim_lost, err, rejected, second}
use tick.Database.{up, Precedes, IsOrdered}
use tick.Database.Order.{plain_postgres, insertion_sort}
use tick.Store.{row}
use tick.Store.Claim.{is_chosen, chosen_ids, chosen, claimable, claim_statement, contains, stamp}
use tick.Store.Claim.Exclusive.{claims_exclude}
use tick.Store.Claim.Choice.{passed_over_only_for_better}
use tick.Store.Claim.Returned.{claim_returns, reply_rows}
use tick.Store.Finish.{complete, fail, retry_or_bury, message}
use tick.Store.Finish.Laws.{fail_lem, settle}
use tick.Store.Heartbeat.{heartbeat, beat}
use tick.Store.Recover.{recover_orphans, orphaned, reclaim}
use tick.Store.Recover.Redelivery.{redelivered}
use tick.Store.History.Valid.{IsValid}
use tick.Store.{write}
use tick.Store.Claim.{claim}
use tick.Database.{Db, exec}
use tick.Database.Checks.{checks}
use tick.Base.{find, update}
use tick.Store.Backoff.{capped_seconds}
use tick.Domain.{ok}
use tick.Samples.{buried, urgent}
use tick.Store.Recover.Laws.{heartbeat_protects, reclaim_locks_out}
use tick.Samples.{store, store-IsValid, waiting, held_row, alice, bob, default_queue}
use tick.Tests.{row-waiting, row-held}

abbrev free : ℕ → Bool
free _ = false

abbrev chosen_by_alice : ℕ → Task → Bool
chosen_by_alice limit t = is_chosen plain_postgres free 200 default_queue alice limit store t

waiting_chosen : chosen_by_alice 2 waiting ≡ true
unfolding is_chosen chosen_ids chosen claimable contains select take insertion_sort ◌=?◌
waiting_chosen = refl

waiting_passed_over : chosen_by_alice 1 waiting ≡ false
unfolding is_chosen chosen_ids chosen claimable contains select take insertion_sort ◌=?◌
waiting_passed_over = refl

claims_exclude_example :
    (is_chosen plain_postgres
        (λ j. free j || contains (chosen_ids plain_postgres free 200 default_queue alice 2 store) j)
        300
        default_queue
        bob
        5
        store
        waiting
      ≡ false)
    × (row 1 (claim_statement plain_postgres free 200 default_queue alice 2 store).0
        ≡ some (stamp alice 200 waiting))
    × (is_chosen plain_postgres free 300 default_queue bob 5
          (claim_statement plain_postgres free 200 default_queue alice 2 store).0
          (stamp alice 200 waiting)
        ≡ false)
claims_exclude_example =
    claims_exclude plain_postgres free free 200 300 default_queue default_queue alice bob 2 5 store
      5 1 waiting store-IsValid row-waiting waiting_chosen

waiting_due : claimable default_queue 200 waiting ≡ true
unfolding claimable ◌=?◌
waiting_due = refl

passed_over_only_for_better_example :
    (length (chosen plain_postgres free 200 default_queue alice 1 store) ≡ 1)
    × All (λ c. Precedes c waiting) (chosen plain_postgres free 200 default_queue alice 1 store)
passed_over_only_for_better_example =
    passed_over_only_for_better plain_postgres free 200 default_queue alice 1 store 1 waiting
      row-waiting waiting_due refl waiting_passed_over

abbrev reply : List Task
reply = reply_rows plain_postgres free 200 default_queue alice 2 store 5 store-IsValid

claim_returns_example :
    (length reply ≤ 2)
    × IsOrdered reply
    × All
        (λ u.
          (u.status ≡ running)
          × (u.claimed_by ≡ some alice)
          × (row u.id (claim_statement plain_postgres free 200 default_queue alice 2 store).0
              ≡ some u))
        reply
    × In (stamp alice 200 waiting) reply
claim_returns_example =
    claim_returns plain_postgres free 200 default_queue alice 2 store 5 store-IsValid 1 waiting
      row-waiting waiting_chosen

fail_lem_example : fail plain_postgres up 400 (λ x. x) 2 bob (some (bytes "no route")) store ≡ (
    if plain_postgres.text_ok (message (some (bytes "no route")))
    then settle 2 bob (retry_or_bury 400 (λ x. x) (message (some (bytes "no route")))) store
    else (store, err rejected))
fail_lem_example =
    fail_lem plain_postgres 2 bob store 5 store-IsValid refl 400 (λ x. x) (some (bytes "no route"))

in_batch : contains (2 ∷ []) 2 ≡ true
unfolding contains
in_batch = refl

heartbeat_protects_example :
    row 2 (recover_orphans up 5000 (heartbeat plain_postgres up 1500 (2 ∷ []) alice store).0).0
    ≡ some (beat 1500 held_row)
heartbeat_protects_example =
    heartbeat_protects plain_postgres 1500 5000 2 [] alice store 2 held_row refl row-held in_batch
      refl refl (omega arith)

held_orphaned : orphaned (200 * second) held_row ≡ true
unfolding orphaned
held_orphaned = refl

reclaim_locks_out_example :
    (complete plain_postgres up 2 alice (recover_orphans up (200 * second) store).0
      ≡ ((recover_orphans up (200 * second) store).0, err claim_lost))
    × (fail plain_postgres up 5 (λ x. x) 2 alice none (recover_orphans up (200 * second) store).0
        ≡ (
          (recover_orphans up (200 * second) store).0,
          err (if plain_postgres.text_ok (message none) then claim_lost else rejected),
        ))
reclaim_locks_out_example =
    reclaim_locks_out plain_postgres (200 * second) 5 (λ x. x) none alice store 2 held_row
      store-IsValid refl row-held held_orphaned

-- A task with an attempt left, whose owner is silent.
abbrev fallen : Task
fallen = record held_row { attempts = 1 }

abbrev fallen_store : Db
fallen_store = record store { tasks = waiting ∷ fallen ∷ buried ∷ urgent ∷ [] }

fallen_store-IsValid : IsValid fallen_store
unfolding checks find ◌=?◌
fallen_store-IsValid = ground arith

row-fallen : row 2 fallen_store ≡ some fallen
unfolding find
row-fallen = refl

fallen-orphaned : orphaned (200 * second) fallen ≡ true
unfolding orphaned
fallen-orphaned = refl

three_due :
    length (
      select
        (claimable default_queue (300 * second))
        (recover_orphans up (200 * second) fallen_store).0.tasks)
    ≡ 3
unfolding recover_orphans exec write update select claimable ◌=?◌
three_due = refl

redelivered_example :
    (tasks : List Task) × ((claim plain_postgres free
        (300 * second)
        default_queue
        bob
        5
        up
        (recover_orphans up (200 * second) fallen_store).0).1
      ≡ ok tasks)
    × In (stamp bob (300 * second) (reclaim (200 * second) fallen)) tasks
redelivered_example =
    redelivered plain_postgres free (200 * second) (300 * second) 5 bob fallen_store 2 fallen
      fallen_store-IsValid refl refl row-fallen fallen-orphaned (omega arith)
      (unfold capped_seconds in omega arith) refl (omega (arith, three_due))
