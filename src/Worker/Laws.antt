-- ===== src/Worker/Laws.antt =====
-- What the registry, the claim loop and the calls of the store do.
use tick.Base.{
  ℕ, suc, ◌*◌, ◌≤◌, ◌≡◌, ◌≢◌, refl, sym, subst, inl, inr, Bool, false, Option, none, some, List, [],
  ◌∷◌, Text, arith, =?-refl, =?-eq, ◌=?◌, Bool-cases, Option-cases,
}
use tick.Domain.{Task, Result, ok, err, second}
use tick.Database.{Db, Postgres, Link}
use tick.Store.Backoff.{Jitter}
use tick.Store.History.{Event, perform, completes, fails, heartbeats}
use tick.Store.History.Runs.{IsHistory, IsHistory-trans, IsHistory-one, IsHistory-refl}
use tick.Worker.{
  Registry, entry, register, lookup, Outcome, Format, failure, safe_handle, settle, dispatch,
  dispatch_to, no_handler, heartbeat_once, release_remaining, shutdown_message,
}
use tick.Worker.Loop.{backoff_after, next_backoff}

different : (a b : Text) → b ≢ a → (a =? b) ≡ false
different a b ne = elim (Bool-cases (a =? b)) [
  | inl e ↦ absurd (ne (sym (=?-eq a b e)))
  | inr e ↦ e
]

registered :
    {Handler : Type 0} (name other : Text) (h h' : Handler) (r : Registry Handler)
    → other ≢ name
    → let r' = (name, h) ∷ r in
      (lookup r' name ≡ ok h) × (lookup r' other ≡ lookup r other) × (register name h' r' ≡ none)
unfolding lookup entry register
registered name other h h' r ne = (
  rw (=?-refl name, lookup, entry) refl,
  rw (different name other ne, lookup, entry) refl,
  rw (=?-refl name, register, entry) refl,
)

-- After a name is registered it finds its handler, every other name finds what it found before, and
-- the name cannot be registered again.
pub register_lem :
    {Handler : Type 0} (name other : Text) (h h' : Handler) (r r' : Registry Handler)
    → register name h r ≡ some r'
    → other ≢ name
    → (lookup r' name ≡ ok h) × (lookup r' other ≡ lookup r other) × (register name h' r' ≡ none)
unfolding register lookup entry
register_lem name other h h' r r' e ne = elim (Option-cases (entry name r)) [
  | inl free ↦
      subst
        (λ x.
          (lookup x name ≡ ok h) × (lookup x other ≡ lookup r other) × (register name h' x ≡ none))
        {x = (name, h) ∷ r} (ground (arith, rw (free, register) at e))
        (registered name other h h' r ne)
  | inr (f, taken) ↦ absurd (cc (rw (taken, register) at e))
]

-- Whatever the answers to a worker's claims were, its delay before the next one is at least 50
-- milliseconds and at most 2 seconds, one more empty answer does not shorten it, and an answer with
-- tasks brings it back to 50 milliseconds.
pub backoff_after_lem :
    (answers : List ℕ) (n : ℕ)
    → (50000 ≤ backoff_after answers)
      × (backoff_after answers ≤ 2 * second)
      × (backoff_after answers ≤ backoff_after (0 ∷ answers))
      × (backoff_after (suc n ∷ answers) ≡ 50000)
unfolding backoff_after next_backoff
backoff_after_lem [] n = ground arith
backoff_after_lem (m ∷ answers) n = ground (arith, backoff_after_lem answers n)

module _ {Handler : Type 0} (pg : Postgres) (fmt : Format)
    (call : Handler → Task → Outcome × Bool) where
  settle-IsHistory :
      (link : Link) (now : ℕ) (jitter : Jitter) (worker_id : Text) (t : Task) (e : Option Text)
      (db : Db)
      → IsHistory pg db (settle pg fmt call link now jitter worker_id t e db)
  unfolding settle
  settle-IsHistory link now jitter worker_id t none db =
      unfold perform in
      IsHistory-one pg record { link = link; now = now; op = completes t.id worker_id } db
  settle-IsHistory link now jitter worker_id t (some e) db =
      unfold perform in
      IsHistory-one pg record { link = link; now = now; op = fails jitter t.id worker_id (some e) }
        db

  dispatch_to-IsHistory :
      (found : Result Handler) (link : Link) (now : ℕ) (jitter : Jitter) (world : Db → Db)
      (worker_id : Text) (t : Task) (db : Db)
      → IsHistory pg db (world db)
      → IsHistory pg db (dispatch_to pg fmt call found link now jitter world worker_id t db)
  unfolding dispatch_to
  dispatch_to-IsHistory (err _) link now jitter world worker_id t db h =
      settle-IsHistory link now jitter worker_id t (some (no_handler fmt t.handler)) db
  dispatch_to-IsHistory (ok f) link now jitter world worker_id t db h =
      let (outcome, timed_out) = call f t in
      IsHistory-trans pg db (world db) _ h (
        settle-IsHistory link now jitter worker_id t (failure fmt timed_out (safe_handle outcome))
          (world db))

  -- If what happens while the handler runs is a history of store operations, then so is what a
  -- dispatch does to the database, whatever the handler does.
  pub dispatch-IsHistory :
      (registry : Registry Handler) (link : Link) (now : ℕ) (jitter : Jitter) (world : Db → Db)
      (worker_id : Text) (t : Task) (db : Db)
      → IsHistory pg db (world db)
      → IsHistory pg db (dispatch pg fmt call registry link now jitter world worker_id t db)
  unfolding dispatch
  dispatch-IsHistory registry link now jitter world worker_id t db h =
      dispatch_to-IsHistory (lookup registry t.handler) link now jitter world worker_id t db h

module _ (pg : Postgres) where
  pub heartbeat_once-IsHistory :
      (link : Link) (links : ℕ → Link) (held_now : ℕ → Bool) (now : ℕ) (ids : List ℕ)
      (worker_id : Text) (db : Db)
      → IsHistory pg db (heartbeat_once pg link links held_now now ids worker_id db).0
  unfolding heartbeat_once
  heartbeat_once-IsHistory link links held_now now [] worker_id db = IsHistory-refl pg db
  heartbeat_once-IsHistory link links held_now now (i ∷ ids) worker_id db =
      unfold perform in
      IsHistory-one pg record { link = link; now = now; op = heartbeats (i ∷ ids) worker_id } db

  pub release_remaining-IsHistory :
      (links : ℕ → Link) (now : ℕ) (jitter : Jitter) (ids : List ℕ) (worker_id : Text) (db : Db)
      → IsHistory pg db (release_remaining pg links now jitter ids worker_id db)
  unfolding release_remaining perform
  release_remaining-IsHistory links now jitter [] worker_id db = IsHistory-refl pg db
  release_remaining-IsHistory links now jitter (i ∷ ids) worker_id db =
      let e : Event = record {
        link = links i;
        now = now;
        op = fails jitter i worker_id (some shutdown_message);
      } in
      IsHistory-trans pg db (perform pg e.link e.now e.op db) _ (IsHistory-one pg e db)
        (release_remaining-IsHistory links now jitter ids worker_id _)
