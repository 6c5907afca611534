-- ===== src/Tests/Settings.antt =====
-- The theorems on configuration at concrete inputs.
use tick.Base.{
  ◌+◌, ◌-◌, ◌*◌, ◌≤◌, ◌<◌, ◌≡◌, ◌≢◌, refl, Bool, true, false, ◌&&◌, Option, some, none, List, [],
  ◌∷◌, arith, bytes, Text, ◌=?◌, All, if◌then◌else◌,
}
use tick.Base.Int.{ℤ, pos}
use tick.Base.Members.{In}
use tick.Base.Sorting
use tick.Cron.{trim_space}
use tick.Config.{
  Config, postgres, Problem, GoText, Sorter, IsSorted, Lookup, text_le, get_variable, int_in_range,
  duration, backend_value, log_level_value, second_ns, minute_ns,
}
use tick.Config.Load.{
  loaded, invalid_config, load, resolve_fields, redis_rule, ttl_rule, wrap64, claim_timeout,
}
use tick.Config.Laws.{load_lem, IsUsable}
use tick.Config.Errors.{load-invalid}
use tick.Database.Order.{plain_postgres}
use tick.Store.Pool.{opened}
use tick.Worker.{Format}
use tick.Worker.Run.{new, started}
use tick.Samples.{alice, store, store-IsValid}
use tick.Commands.{start, process, WorkerProcess, worker_process}
use tick.Commands.Starts.{started_worker_lem}

-- The order of the keys.
text_le-turns : (s t : Text) → text_le s t ≡ false → text_le t s ≡ true
unfolding text_le
text_le-turns [] t h = absurd (cc)
text_le-turns (x ∷ xs) [] h = refl
text_le-turns (x ∷ xs) (y ∷ ys) h = ground (arith, text_le-turns xs ys, h)

text_le-trans : (s t u : Text) → text_le s t ≡ true → text_le t u ≡ true → text_le s u ≡ true
unfolding text_le
text_le-trans [] t u h k = refl
text_le-trans (x ∷ xs) [] u h k = absurd (cc)
text_le-trans (x ∷ xs) (y ∷ ys) [] h k = absurd (cc)
text_le-trans (x ∷ xs) (y ∷ ys) (z ∷ zs) h k = ground (arith, text_le-trans xs ys zs, h, k)

abbrev by_key : Problem → Problem → Bool
by_key p q = text_le p.key q.key

abbrev Before : Problem → Problem → Type 0
Before p q = by_key p q ≡ true

abbrev sort_problems : List Problem → List Problem
sort_problems = Sorting.insertion_sort by_key

from_IsSorted :
    (ps : List Problem)
    → Sorting.IsSorted by_key Before
        (λ p q h. h)
        (λ p q. text_le-turns p.key q.key)
        (λ p q r. text_le-trans p.key q.key r.key)
        ps
    → IsSorted ps
from_IsSorted [] h = tt
from_IsSorted (p ∷ ps) h = (h.0, from_IsSorted ps h.1)

abbrev sorter : Sorter
sorter = record {
  sort = sort_problems;
  sort-perm = Sorting.insertion_sort-perm by_key;
  sort-IsSorted = λ ps. from_IsSorted (sort_problems ps) (
      Sorting.insertion_sort-IsSorted by_key Before (λ p q h. h) (λ p q. text_le-turns p.key q.key)
        (λ p q r. text_le-trans p.key q.key r.key) ps);
}

-- Numbers of one or two digits; durations are in seconds.
abbrev digits : Text → Option ℤ
digits (a ∷ []) = some (pos (a - 48))
digits (a ∷ b ∷ []) = some (pos ((a - 48) * 10 + (b - 48)))
digits _ = none

abbrev seconds : Option ℤ → Option ℤ
seconds (some (pos n)) = some (pos (n * second_ns))
seconds _ = none

abbrev plain_go : GoText
plain_go = record {
  atoi = digits;
  parse_duration = λ v. seconds (digits v);
  parse_level = λ v. none;
  to_lower = λ v. v;
  quote = λ v. v;
  print_int = λ n. [];
  print_duration = λ n. [];
  print_level = λ n. [];
}

abbrev formats : Format
formats = record { quote = λ t. t; timeout = bytes "5m" }

abbrev good_env : Lookup
good_env key =
    if key =? bytes "TICK_DATABASE_URL"
    then some (bytes " postgres://db ")
    else if key =? bytes "TICK_CLAIM_BATCH"
    then some (bytes "25")
    else none

abbrev good_config : Config
good_config = record {
  backend = postgres;
  database_url = bytes "postgres://db";
  redis_url = [];
  queue = bytes "default";
  claim_batch = 25;
  concurrency = 10;
  http_addr = bytes ":8080";
  log_level = pos 0;
  sweep_interval = 30 * second_ns;
  materializer_interval = 30 * second_ns;
  materializer_horizon = 5 * minute_ns;
  heartbeat_interval = 10 * second_ns;
  heartbeat_ttl = 90 * second_ns;
  task_timeout = 5 * minute_ns;
  shutdown_grace = 30 * second_ns;
}

good_loads : load plain_go sorter good_env ≡ loaded good_config
unfolding load resolve_fields get_variable trim_space int_in_range duration backend_value
    log_level_value redis_rule ttl_rule wrap64 ◌=?◌
good_loads = refl

load_lem_example :
    IsUsable good_config
    × ((false && [] =? []) ≡ false)
    × (3 * (10 * second_ns) ≤ 90 * second_ns)
    × (2050000000 ≤ claim_timeout good_config)
    × (claim_timeout good_config ≤ 52000000000)
load_lem_example = load_lem plain_go sorter good_env good_config good_loads (omega arith)

-- No database, an empty batch, no address of Redis, and a TTL of one heartbeat and a half.
abbrev bad_env : Lookup
bad_env key =
    if key =? bytes "TICK_CLAIM_BATCH"
    then some (bytes "0")
    else if key =? bytes "TICK_BACKEND"
    then some (bytes "redis")
    else if key =? bytes "TICK_HEARTBEAT_TTL"
    then some (bytes "15")
    else none

abbrev complaints : List Problem
complaints =
    record { key = bytes "TICK_CLAIM_BATCH"; problem = bytes "must be between  and , got " }
    ∷ record { key = bytes "TICK_DATABASE_URL"; problem = bytes "is required but not set" }
    ∷ record {
      key = bytes "TICK_HEARTBEAT_TTL";
      problem = bytes "must be at least 3x TICK_HEARTBEAT_INTERVAL (), got ";
    }
    ∷ record { key = bytes "TICK_REDIS_URL"; problem = bytes "required when TICK_BACKEND is redis" }
    ∷ []

bad_refused : load plain_go sorter bad_env ≡ invalid_config complaints
unfolding load resolve_fields get_variable trim_space int_in_range duration backend_value
    log_level_value redis_rule ttl_rule wrap64 Sorting.insertion_sort text_le ◌=?◌
bad_refused = refl

load-invalid_example :
    (complaints ≢ [])
    × IsSorted complaints
    × All
        (λ key. (p : Problem) × In p complaints × (p.key ≡ key))
        (bytes "TICK_DATABASE_URL"
          ∷ bytes "TICK_CLAIM_BATCH"
          ∷ bytes "TICK_REDIS_URL"
          ∷ bytes "TICK_HEARTBEAT_TTL"
          ∷ [])
unfolding get_variable trim_space ◌=?◌
load-invalid_example = load-invalid plain_go sorter bad_env complaints bad_refused

good_start :
    start plain_go sorter (λ _. opened) worker_process good_env
    ≡ process (worker_process good_config)
unfolding start
good_start = rw good_loads refl

abbrev good_worker : WorkerProcess
good_worker = worker_process good_config

started_worker_lem_example :
    (0 < good_worker.heartbeat_interval)
    × (0 < good_worker.task_timeout)
    × (0 < good_worker.shutdown_grace)
    × (0 + 0 + 0 ≤ good_worker.cfg.concurrency)
    × (good_worker.cfg.concurrency ≤ 1000)
started_worker_lem_example =
    started_worker_lem {Handler = Unit {0}} plain_postgres formats [] alice plain_go sorter
      (λ _. opened) good_env good_worker store {x = (store, new)} good_start store-IsValid started
