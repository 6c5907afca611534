-- ===== src/Worker.antt =====
-- internal/worker: the registry of handlers (registry.go), one dispatch (worker.go, dispatch.go), the
-- heartbeat of the claims in flight (heartbeat.go), the release at shutdown, and the numbers of the
-- claim loop (worker.go).
--
-- A registered handler is third-party code: what a call of it does is an argument. Errors are their
-- texts.
pub mod Loop
pub mod Laws
pub mod LostClaims
pub mod Identity
pub mod Run
use tick.Base.{
  ℕ, ◌-◌, ◌*◌, ◌≡◌, Bool, true, false, not, Option, none, some, List, [], ◌∷◌, ◌++◌, Text, bytes,
  ◌=?◌, ◌==◌, ◌=??◌, length, if◌then◌else◌, min, is_some,
}
use tick.Domain.{Task, Result, ok, err, unknown_handler, second}
use tick.Database.{Db, Postgres, Link}
use tick.Store.Backoff.{Jitter}
use tick.Store.Finish.{complete, fail}
use tick.Store.Heartbeat.{heartbeat}
use tick.Store.Cancel.{get}

-- The map of the registry, as an association list with one entry for a name.
abbrev pub Registry : Type 0 → Type 0
Registry Handler = List (Text × Handler)

unfoldable pub entry : {Handler : Type 0} → Text → Registry Handler → Option Handler
entry name [] = none
entry name ((n, h) ∷ rest) = let found = entry name rest in if n =? name then some h else found

-- `none` is the panic on a duplicate name.
unfoldable pub register :
    {Handler : Type 0} → Text → Handler → Registry Handler → Option (Registry Handler)
unfolding entry
register name h r = elim (entry name r) [ none ↦ some ((name, h) ∷ r) | some _ ↦ none ]

unfoldable pub lookup : {Handler : Type 0} → Registry Handler → Text → Result Handler
unfolding entry
lookup r name = elim (entry name r) [ none ↦ err unknown_handler | some h ↦ ok h ]

-- What a call of a handler comes to: it returns an error or nil, or it panics with a value and a stack.
pub data Outcome : Type 0 where
  returned : (error : Option Text) → Outcome
  panicked : (value stack : Text) → Outcome

unfoldable pub safe_handle : Outcome → Option Text
safe_handle (returned e) = e
safe_handle (panicked value stack) = some (bytes "handler panicked: " ++ value ++ 10 ∷ stack)

-- The prints of the fmt package: `%q` of a name and `%s` of the timeout.
pub record Format : Type 0 where
  pub quote : Text → Text
  pub timeout : Text

-- `errors.Is(hCtx.Err(), context.DeadlineExceeded)` is `timed_out`.
unfoldable pub failure : Format → Bool → Option Text → Option Text
failure fmt timed_out none = none
failure fmt timed_out (some e) =
    some
      (if timed_out then bytes "handler timed out after " ++ fmt.timeout ++ bytes ": " ++ e else e)

abbrev pub no_handler : Format → Text → Text
no_handler fmt name = bytes "unknown handler: " ++ fmt.quote name

-- A dispatch; an error of Complete or Fail is only logged. `world` is what happens to the database
-- while the handler runs.
module _ {Handler : Type 0} (pg : Postgres) (fmt : Format)
    (call : Handler → Task → Outcome × Bool) where
  unfoldable pub settle : Link → ℕ → Jitter → Text → Task → Option Text → Db → Db
  unfolding complete fail
  settle link now jitter worker_id t none db = (complete pg link t.id worker_id db).0
  settle link now jitter worker_id t (some e) db =
      (fail pg link now jitter t.id worker_id (some e) db).0

  unfoldable pub dispatch_to :
      Result Handler → Link → ℕ → Jitter → (Db → Db) → Text → Task → Db → Db
  unfolding settle safe_handle failure
  dispatch_to (err _) link now jitter world worker_id t db =
      (fail pg link now jitter t.id worker_id (some (no_handler fmt t.handler)) db).0
  dispatch_to (ok h) link now jitter world worker_id t db =
      let (outcome, timed_out) = call h t in
      settle link now jitter worker_id t (failure fmt timed_out (safe_handle outcome)) (world db)

  unfoldable pub dispatch : Registry Handler → Link → ℕ → Jitter → (Db → Db) → Text → Task → Db → Db
  unfolding lookup dispatch_to
  dispatch registry link now jitter world worker_id t db =
      dispatch_to (lookup registry t.handler) link now jitter world worker_id t db

-- The batched heartbeat. Other connections are idle between the heartbeat and the reads. `held_now` is
-- what the in-flight set holds when it is asked again; the answer lists the ids whose dispatch is
-- cancelled.
abbrev pub keeps : Text → Result Task → Bool
keeps worker_id (err e) = true
keeps worker_id (ok t) = t.claimed_by =?? worker_id

unfoldable pub lost_ids : (ℕ → Link) → (ℕ → Bool) → Text → List ℕ → Db → List ℕ
unfolding get
lost_ids links held_now worker_id [] db = []
lost_ids links held_now worker_id (i ∷ ids) db =
    let rest = lost_ids links held_now worker_id ids db in
    if keeps worker_id (get (links i) i db).1 then rest else if held_now i then i ∷ rest else rest

unfoldable pub after_heartbeat : (ℕ → Link) → (ℕ → Bool) → Text → List ℕ → Db → Result ℕ → List ℕ
unfolding lost_ids
after_heartbeat links held_now worker_id ids db (err e) = []
after_heartbeat links held_now worker_id ids db (ok refreshed) =
    if refreshed == length ids then [] else lost_ids links held_now worker_id ids db

unfoldable pub heartbeat_once :
    Postgres → Link → (ℕ → Link) → (ℕ → Bool) → ℕ → List ℕ → Text → Db → Db × List ℕ
unfolding heartbeat after_heartbeat
heartbeat_once pg link links held_now now [] worker_id db = (db, [])
heartbeat_once pg link links held_now now (i ∷ ids) worker_id db =
    let (db', refreshed) = heartbeat pg link now (i ∷ ids) worker_id db in
    (db', after_heartbeat links held_now worker_id (i ∷ ids) db' refreshed)

abbrev pub shutdown_message : Text
shutdown_message = bytes "worker: shutdown grace period elapsed before task finished"

-- Every claim that is still in flight is failed back; errors are ignored or logged.
unfoldable pub release_remaining : Postgres → (ℕ → Link) → ℕ → Jitter → List ℕ → Text → Db → Db
unfolding fail
release_remaining pg links now jitter [] worker_id db = db
release_remaining pg links now jitter (i ∷ ids) worker_id db =
    release_remaining pg links now jitter ids worker_id
      (fail pg (links i) now jitter i worker_id (some shutdown_message) db).0
