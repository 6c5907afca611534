-- ===== src/Sweeper/Latency.antt =====
-- How long a task whose owner is gone can stay running.
use tick.Base.{
  ℕ, zero, suc, ◌+◌, ◌*◌, ◌%◌, ◌≤◌, ◌<◌, ◌≡◌, refl, ◌∙◌, subst, inl, inr, arith, true, false, some,
  List, [], ◌∷◌, ◌++◌, map, All, ltb, Bool-cases, ◌==◌, update,
}
use native.Mathlib.Nat.{mod-lt}
use tick.Base.Members.{In}
use tick.Base.Int.{ℤ, pos, negsuc}
use tick.Domain.{Task, running, second}
use tick.Database.{Db, up, exec}
use tick.Store.{row, write}
use tick.Store.Recover.{recover_orphans, orphaned, reclaim}
use tick.Store.Recover.Laws.{recover_orphans-row}
use tick.Sweeper.{sweep_once, interval_or_default}
use tick.Sweeper.Loop.{Tick, sweep_at, run, new, first_delay}
use tick.Ticker.{going, tick_times, run_body, tick_loop-running}

pub interval_or_default-pos : (i : ℤ) → 0 < interval_or_default i
unfolding interval_or_default
interval_or_default-pos (pos zero) = omega arith
interval_or_default-pos (pos (suc n)) = omega arith
interval_or_default-pos (negsuc n) = omega arith

reclaimed-not_orphaned : (now : ℕ) (t : Task) → orphaned now (reclaim now t) ≡ false
unfolding orphaned reclaim
reclaimed-not_orphaned now t = ground arith

update-not_orphaned :
    (now : ℕ) (ts : List Task)
    → All (λ t. orphaned now t ≡ false) (update (orphaned now) (reclaim now) ts)
unfolding update
update-not_orphaned now [] = tt
update-not_orphaned now (t ∷ ts) = elim (Bool-cases (orphaned now t)) [
  | inl y ↦ rw y (reclaimed-not_orphaned now t, update-not_orphaned now ts)
  | inr n ↦ rw n (n, update-not_orphaned now ts)
]

swept :
    (last : Tick) (before : Db)
    → last.link ≡ up
    → All (λ t. orphaned last.now t ≡ false) (sweep_once last.link last.now before).0.tasks
unfolding sweep_once recover_orphans exec write
swept last before answered = rw answered (update-not_orphaned last.now before.tasks)

run_body-last :
    (ticks : List Tick) (last : Tick) (db : Db)
    → run_body sweep_at (ticks ++ last ∷ []) db ≡ sweep_at last (run_body sweep_at ticks db)
run_body-last [] last db = refl
run_body-last (t ∷ ticks) last db = run_body-last ticks last (sweep_at t db)

-- A sweeper of any configured interval runs without a panic until its context ends, and whenever its
-- last sweep was answered, the database that this sweep left has no running task whose heartbeat was
-- more than 90 seconds old then, whatever the other processes did between its ticks.
pub no_orphan_left :
    (interval : ℤ) (ticks : List Tick) (last : Tick) (db : Db)
    → last.link ≡ up
    → (db' : Db) × (run (new interval) (map some (ticks ++ last ∷ [])) db ≡ going (db', false))
      × All (λ t. orphaned last.now t ≡ false) db'.tasks
unfolding run sweep_at
no_orphan_left interval ticks last db answered =
    let before = last.others (run_body sweep_at ticks db) in
    let positive : (new interval == 0) ≡ false = ground (arith, interval_or_default-pos interval) in
    (
      sweep_at last (run_body sweep_at ticks db),
      rw (positive, tick_loop-running sweep_at (ticks ++ last ∷ []) db, run_body-last ticks last db)
          refl,
      swept last before answered,
    )

tick_within :
    (first interval n deadline : ℕ)
    → first ≤ deadline + interval
    → deadline < first + n * interval
    → (now : ℕ) × In now (tick_times first interval (suc n))
      × (deadline < now)
      × (now ≤ deadline + interval)
tick_within first interval zero deadline soon enough = (first, inl refl, ground arith, soon)
tick_within first interval (suc n) deadline soon enough = elim (Bool-cases (ltb deadline first)) [
  | inl past ↦ (first, inl refl, ground arith, soon)
  | inr early ↦
      let (now, member, after, before) =
        tick_within (first + interval) interval n deadline (ground arith) (grind arith) in
      (now, inr member, after, before)
]

-- A task that its owner leaves running, and no other process touches, is reclaimed by a sweeper that
-- is up at the end of the 90 seconds, whose sweeps are answered and take no time, within one
-- interval: at one of the sweeper's ticks, after these 90 seconds and at most one interval after.
pub reclaimed_within_interval :
    (interval : ℤ) (started draw n : ℕ) (dbs : ℕ → Db) (i : ℕ) (t : Task) (beat : ℕ)
    → ((now : ℕ) → row i (dbs now) ≡ some t)
    → t.status ≡ running
    → t.heartbeat_at ≡ some beat
    → started ≤ beat + 90 * second
    → beat + 90 * second < started + first_delay draw (new interval) + n * new interval
    → (now : ℕ) × In now
        (tick_times (started + first_delay draw (new interval)) (new interval) (n + 1))
      × (beat + 90 * second < now)
      × (now ≤ beat + 90 * second + new interval)
      × (row i (sweep_once up now (dbs now)).0 ≡ some (reclaim now t))
unfolding sweep_once first_delay
reclaimed_within_interval interval started draw n dbs i t beat stays runs last up_then long =
    let gap = new interval in
    let positive = interval_or_default-pos interval in
    let (now, member, after, before) =
      tick_within (started + draw % gap) gap n (beat + 90 * second)
        (omega (arith, mod-lt draw positive)) long in
    let one : suc n ≡ n + 1 = omega arith in
    let orphan : orphaned now t ≡ true = unfold orphaned in rw (runs, last) (ground arith) in
    (
      now,
      subst (λ k. In now (tick_times (started + draw % gap) gap k)) one member,
      after,
      before,
      recover_orphans-row now (dbs now) i t (stays now) ∙ rw orphan refl,
    )
