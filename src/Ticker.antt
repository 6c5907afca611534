-- ===== src/Ticker.antt =====
-- The loop `for { select { case <-ctx.Done(): return; case <-ticker.C: … } }` of
-- internal/sweeper/sweeper.go and internal/materializer/run.go.
--
-- What select takes is a list: `none` is the end of the context, `some e` a tick, with what the body
-- of the loop meets at it. A list without an end is a loop that still runs.
use tick.Base.{
  ℕ, zero, suc, ◌+◌, ◌≡◌, refl, Bool, true, false, Option, none, some, List, [], ◌∷◌, ◌++◌, map,
  ◌==◌, if◌then◌else◌,
}

module _ {S E : Type 0} (body : E → S → S) where
  -- The state that the loop leaves, and whether it has returned.
  unfoldable pub tick_loop : List (Option E) → S → S × Bool
  tick_loop [] s = (s, false)
  tick_loop (none ∷ wakes) s = (s, true)
  tick_loop (some e ∷ wakes) s = tick_loop wakes (body e s)

  -- The body's runs at the given ticks.
  abbrev pub run_body : List E → S → S
  run_body [] s = s
  run_body (e ∷ es) s = run_body es (body e s)

  -- The body runs once for each tick before the end of the context, and never after it.
  pub tick_loop-until :
      (es : List E) (wakes : List (Option E)) (s : S)
      → tick_loop (map some es ++ none ∷ wakes) s ≡ (run_body es s, true)
  unfolding tick_loop
  tick_loop-until [] wakes s = refl
  tick_loop-until (e ∷ es) wakes s = tick_loop-until es wakes (body e s)

  pub tick_loop-running : (es : List E) (s : S) → tick_loop (map some es) s ≡ (run_body es s, false)
  unfolding tick_loop
  tick_loop-running [] s = refl
  tick_loop-running (e ∷ es) s = tick_loop-running es (body e s)

-- time.NewTicker and rand.Int64N panic unless their argument is positive; `before` is the state at
-- that call.
pub data Started (S : Type 0) : Type 0 where
  panicked going : (state : S) → Started S

abbrev pub if_positive : {S : Type 0} → ℕ → S → S → Started S
if_positive interval before s = if interval == 0 then panicked before else going s

-- The times of the first ticks: the first one, and then one after each interval.
abbrev pub tick_times : ℕ → ℕ → ℕ → List ℕ
tick_times first interval zero = []
tick_times first interval (suc n) = first ∷ tick_times (first + interval) interval n
