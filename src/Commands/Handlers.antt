-- ===== src/Commands/Handlers.antt =====
-- cmd/tick-worker/handlers.go, and how main.go registers the three handlers.
--
-- A handler's outcome is returned with whether its deadline passed, as a dispatch takes it.
-- json.Unmarshal of a payload is a parameter: none is an error, and a field that is missing is 0.
use tick.Base.{
  ℕ, ◌*◌, ◌≡◌, Bool, false, Option, none, some, [], ◌∷◌, Text, bytes, if◌then◌else◌, refl, inl, inr,
  Bool-cases, ◌=?◌,
}
use tick.Base.Int.{ℤ, pos, pos_part, ltb_ℤ}
use tick.Domain.{Task, ok}
use tick.Config.{millisecond}
use tick.Config.Load.{wrap64}
use tick.Database.{Db, Postgres, Link}
use tick.Store.Backoff.{Jitter}
use tick.Store.Finish.{complete, fail}
use tick.Worker.{
  Registry, register, Outcome, returned, Format, dispatch, lookup, entry, dispatch_to, settle,
  failure, safe_handle,
}

pub data Demo : Type 0 where
  noop sleep flaky : Demo

pub record Json : Type 0 where
  pub duration_ms : Text → Option ℤ
  pub fail_times : Text → Option ℤ

abbrev pub unmarshal : (Text → Option ℤ) → Text → Option ℤ
unmarshal field [] = none
unmarshal field (c ∷ cs) = field (c ∷ cs)

abbrev pub positive_ms : Option ℤ → ℤ
positive_ms none = pos (100 * millisecond)
positive_ms (some ms) =
    if ltb_ℤ (pos 0) ms then wrap64 (pos_part ms * millisecond) else pos (100 * millisecond)

-- sleepHandler's wait in nanoseconds, an int64.
unfoldable pub sleep_duration : Json → Text → ℤ
unfolding wrap64
sleep_duration json payload = positive_ms (unmarshal json.duration_ms payload)

-- The select of sleepHandler: `none` if the timer comes first, else ctx.Err() and whether that is
-- the deadline.
abbrev pub slept : Option (Text × Bool) → Outcome × Bool
slept none = (returned none, false)
slept (some (e, timed_out)) = (returned (some e), timed_out)

abbrev pub times_or_two : Option ℤ → ℤ
times_or_two none = pos 2
times_or_two (some n) = n

unfoldable pub flaky_error : Json → Task → Option Text
flaky_error json t =
    if ltb_ℤ (times_or_two (unmarshal json.fail_times t.payload)) (pos t.attempts)
    then none
    else some (bytes "flaky: simulated failure")

-- `ends` tells whether the context ends within a wait.
unfoldable pub demo_call : Json → (ℤ → Option (Text × Bool)) → Demo → Task → Outcome × Bool
unfolding sleep_duration flaky_error
demo_call json ends noop t = (returned none, false)
demo_call json ends sleep t = slept (ends (sleep_duration json t.payload))
demo_call json ends flaky t = (returned (flaky_error json t), false)

abbrev pub or_failed : {A : Type 0} → Option A → (A → Option A) → Option A
or_failed none f = none
or_failed (some a) f = f a

-- NewRegistry and the three calls of Register; none is a panic.
unfoldable pub demo_registry : Option (Registry Demo)
unfolding register
demo_registry =
    or_failed (register (bytes "noop") noop [])
      λ r1. or_failed (register (bytes "sleep") sleep r1) λ r2. register (bytes "flaky") flaky r2

-- No name is registered twice, so the registration does not panic.
abbrev three_handlers : Registry Demo
three_handlers = (bytes "flaky", flaky) ∷ (bytes "sleep", sleep) ∷ (bytes "noop", noop) ∷ []

demo_registry_lem : demo_registry ≡ some three_handlers
unfolding demo_registry register entry ◌=?◌
demo_registry_lem = refl

lookup-flaky : (name : Text) → name ≡ bytes "flaky" → lookup three_handlers name ≡ ok flaky
unfolding lookup entry ◌=?◌
lookup-flaky name e = rw e refl

-- A dispatch of a task for the flaky handler by a worker with this registry completes the task where
-- the claim's attempt is above its payload's fail_times, which is 2 without one that parses, and
-- else fails it with the handler's message; whatever happens to the database meanwhile.
pub flaky_dispatch :
    (pg : Postgres) (fmt : Format) (json : Json) (ends : ℤ → Option (Text × Bool))
    (registry : Registry Demo) (link : Link) (now : ℕ) (jitter : Jitter) (world : Db → Db)
    (worker_id : Text) (t : Task) (db : Db)
    → demo_registry ≡ some registry
    → t.handler ≡ bytes "flaky"
    → dispatch pg fmt (demo_call json ends) registry link now jitter world worker_id t db ≡ (
        if ltb_ℤ (times_or_two (unmarshal json.fail_times t.payload)) (pos t.attempts)
        then (complete pg link t.id worker_id (world db)).0
        else (fail pg link now jitter t.id worker_id
            (some (bytes "flaky: simulated failure"))
            (world db)).0)
unfolding dispatch demo_call dispatch_to settle failure safe_handle
flaky_dispatch pg fmt json ends registry link now jitter world worker_id t db built name =
    let same : registry ≡ three_handlers = cc (built, demo_registry_lem) in
    let found : lookup registry t.handler ≡ ok flaky = rw same (lookup-flaky t.handler name) in
    elim (Bool-cases
      (ltb_ℤ (times_or_two (unmarshal json.fail_times t.payload)) (pos t.attempts))) [
        | inl past ↦ rw (found, past) refl
        | inr early ↦ rw (found, early) refl
      ]
