-- ===== src/Store/History/ResumePoints.antt =====
-- A schedule through every history.
use mathlib.Core.Option
use tick.Base.{
  ℕ, ◌≤◌, ◌≡◌, refl, ◌∙◌, ap, inl, inr, Bool, true, false, Option, none, some, List, [], ◌∷◌, Text,
  find, update, arith, ◌&&◌, if◌then◌else◌, Bool-cases, Option-cases,
}
use tick.Base.Rows.{find-update, find-append}
use tick.Domain.{Schedule, Result, err, rejected}
use tick.Database.{Db, Postgres, Link, up, down, lost, exec}
use tick.Database.Checks.{has_schedule_id, schedule_checks}
use tick.Store.Schedules.{
  create_schedule, insert_schedule, sound_schedule, new_schedule, set_schedule_enabled, set_enabled,
  advance_last_materialized_at, behind, advance_to, is_behind,
}
use tick.Store.History.{
  Op, Event, perform, run, enqueues, enqueues_bulk, claims, heartbeats, completes, fails, recovers,
  cancels, creates_schedule, enables, advances,
}
use tick.Store.History.Untouched.{
  enqueue-SameSchedules, enqueue_bulk-SameSchedules, claim-SameSchedules, heartbeat-SameSchedules,
  complete-SameSchedules, fail-SameSchedules, recover_orphans-SameSchedules, cancel-SameSchedules,
}

-- An instant that is set stays set, and does not fall.
abbrev pub NotBefore : Option ℕ → Option ℕ → Type 0
NotBefore none b = Unit
NotBefore (some a) none = ⊥
NotBefore (some a) (some b) = a ≤ b

-- The same schedule later on: it may be enabled or disabled, and its resume point may move forward.
pub record IsLaterOf (s s' : Schedule) : Type 0 where
  pub same : s' ≡ record s { enabled = s'.enabled; last_materialized_at = s'.last_materialized_at }
  pub resume : NotBefore s.last_materialized_at s'.last_materialized_at

NotBefore-refl : (a : Option ℕ) → NotBefore a a
NotBefore-refl none = tt
NotBefore-refl (some n) = omega arith

NotBefore-trans : (a b c : Option ℕ) → NotBefore a b → NotBefore b c → NotBefore a c
NotBefore-trans none b c h k = tt
NotBefore-trans (some m) none c h k = absurd h
NotBefore-trans (some m) (some n) none h k = k
NotBefore-trans (some m) (some n) (some o) h k = omega (arith, h, k)

IsLaterOf-refl : (s : Schedule) → IsLaterOf s s
IsLaterOf-refl s = record { same = refl; resume = NotBefore-refl s.last_materialized_at }

IsLaterOf-trans : (s t u : Schedule) → IsLaterOf s t → IsLaterOf t u → IsLaterOf s u
IsLaterOf-trans s t u h k = record {
  same =
      k.same
      ∙ ap
          (λ (x : Schedule). record x {
            enabled = u.enabled;
            last_materialized_at = u.last_materialized_at;
          })
          h.same;
  resume = NotBefore-trans _ t.last_materialized_at _ h.resume k.resume;
}

moved : (a : Option ℕ) (instant : ℕ) → is_behind instant a ≡ true → NotBefore a (some instant)
moved none instant h = tt
moved (some last) instant h = ground arith

and_right : (x y : Bool) → (x && y) ≡ true → y ≡ true
and_right x y h = ground arith

-- What a schedule of one database has become in another.
abbrev Becomes : ℕ → Schedule → List Schedule → Type 0
Becomes i s ss = (s' : Schedule) × (find (has_schedule_id i) ss ≡ some s') × IsLaterOf s s'

module _ (i : ℕ) (db : Db) (s : Schedule) (e : find (has_schedule_id i) db.schedules ≡ some s) where
  unchanged : {ss : List Schedule} → ss ≡ db.schedules → Becomes i s ss
  unchanged h = (s, ap (find (has_schedule_id i)) h ∙ e, IsLaterOf-refl s)

  exec-Becomes {ℓ} :
      {A : Type ℓ} (link : Link) (fine : Bool) (statement : Db → Db × Result A)
      → Becomes i s (statement db).0.schedules
      → Becomes i s (exec link fine statement db).0.schedules
  unfolding exec
  exec-Becomes up true statement h = h
  exec-Becomes up false statement h = unchanged refl
  exec-Becomes down fine statement h = unchanged refl
  exec-Becomes lost true statement h = h
  exec-Becomes lost false statement h = unchanged refl

  -- An UPDATE that only makes schedules later.
  update-Becomes :
      (p : Schedule → Bool) (f : Schedule → Schedule)
      → ((r : Schedule) → has_schedule_id i (f r) ≡ has_schedule_id i r)
      → (p s ≡ true → IsLaterOf s (f s))
      → Becomes i s (update p f db.schedules)
  update-Becomes p f same later_one =
      let found =
        find-update (has_schedule_id i) p f db.schedules same
        ∙ ap (Option.map (λ r. if p r then f r else r)) e in
      elim (Bool-cases (p s)) [
        | inl y ↦ (f s, found ∙ ap some (rw y refl), later_one y)
        | inr n ↦ (s, found ∙ ap some (rw n refl), IsLaterOf-refl s)
      ]

  inserted :
      (now : ℕ) (document : Text) (sc : Schedule)
      → Becomes i s (insert_schedule now document sc db).0.schedules
  unfolding insert_schedule
  inserted now document sc =
      let row = new_schedule now document sc db.next_schedule_id in
      elim (Bool-cases (schedule_checks row)) [
        | inl y ↦
            rw y (s, find-append (has_schedule_id i) db.schedules (row ∷ []) s e, IsLaterOf-refl s)
        | inr n ↦ rw n (unchanged refl)
      ]

  create_schedule-Becomes :
      (pg : Postgres) (link : Link) (now : ℕ) (sc : Schedule)
      → Becomes i s (create_schedule pg link now sc db).0.schedules
  unfolding create_schedule
  create_schedule-Becomes pg link now sc = elim (Option-cases (pg.to_jsonb sc.payload)) [
    | inl n ↦
        rw (n, create_schedule) (exec-Becomes link false (λ d. (d, err rejected)) (unchanged refl))
    | inr (document, fine) ↦
        rw (fine, create_schedule)
          (exec-Becomes link (sound_schedule pg sc) (insert_schedule now document sc)
            (inserted now document sc))
  ]

  enables-Becomes :
      (link : Link) (j : ℕ) (enabled : Bool)
      → Becomes i s (set_schedule_enabled link j enabled db).0.schedules
  unfolding set_schedule_enabled set_enabled
  enables-Becomes link j enabled = exec-Becomes link true (set_enabled j enabled) (
      update-Becomes (has_schedule_id j) (λ r. record r { enabled = enabled }) (λ r. refl)
        (λ _. record { same = refl; resume = NotBefore-refl s.last_materialized_at }))

  advances-Becomes :
      (link : Link) (j instant : ℕ)
      → Becomes i s (advance_last_materialized_at link j instant db).0.schedules
  unfolding advance_last_materialized_at advance_to behind
  advances-Becomes link j instant = exec-Becomes link true _ (
      update-Becomes (behind j instant) (advance_to instant) (λ r. refl)
        (λ b. record {
          same = refl;
          resume = moved s.last_materialized_at instant (and_right _ _ b);
        }))

  perform-Becomes :
      (pg : Postgres) (link : Link) (now : ℕ) (op : Op)
      → Becomes i s (perform pg link now op db).schedules
  unfolding perform
  perform-Becomes pg link now (enqueues t) = unchanged (enqueue-SameSchedules pg link up now t db)
  perform-Becomes pg link now (enqueues_bulk commit ts) =
      unchanged (enqueue_bulk-SameSchedules pg link commit now ts db)
  perform-Becomes pg link now (claims locked queue worker_id limit) =
      unchanged (claim-SameSchedules pg locked now queue worker_id limit link db)
  perform-Becomes pg link now (heartbeats ids worker_id) =
      unchanged (heartbeat-SameSchedules pg link now ids worker_id db)
  perform-Becomes pg link now (completes id worker_id) =
      unchanged (complete-SameSchedules pg link id worker_id db)
  perform-Becomes pg link now (fails jitter id worker_id exec_err) =
      unchanged (fail-SameSchedules pg link now jitter id worker_id exec_err db)
  perform-Becomes pg link now recovers = unchanged (recover_orphans-SameSchedules link now db)
  perform-Becomes pg link now (cancels id) = unchanged (cancel-SameSchedules link up id db)
  perform-Becomes pg link now (creates_schedule sc) = create_schedule-Becomes pg link now sc
  perform-Becomes pg link now (enables id enabled) = enables-Becomes link id enabled
  perform-Becomes pg link now (advances id instant) = advances-Becomes link id instant

-- Through every history, whatever becomes of its statements and replies, a schedule stays in its
-- table with all its columns but the flag, and its resume point, once set, stays set and never moves
-- back.
pub schedules_never_rewind :
    (pg : Postgres) (es : List Event) (db : Db) (i : ℕ) (s : Schedule)
    → find (has_schedule_id i) db.schedules ≡ some s
    → (s' : Schedule) × (find (has_schedule_id i) (run pg es db).schedules ≡ some s')
      × IsLaterOf s s'
unfolding run
schedules_never_rewind pg [] db i s e = (s, e, IsLaterOf-refl s)
schedules_never_rewind pg (x ∷ es) db i s e =
    let (t, f, h) = perform-Becomes i db s e pg x.link x.now x.op in
    let (u, g, k) = schedules_never_rewind pg es (perform pg x.link x.now x.op db) i t f in
    (u, g, IsLaterOf-trans s t u h k)
