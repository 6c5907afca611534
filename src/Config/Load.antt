-- ===== src/Config/Load.antt =====
-- internal/config/config.go: Load, String and ClaimTimeout.
use tick.Base.{
  ℕ, ◌+◌, ◌-◌, ◌*◌, ◌%◌, ◌^◌, Bool, true, false, ◌&&◌, List, [], ◌∷◌, ◌++◌, Text, bytes, ◌=?◌, ltb,
  if◌then◌else◌,
}
use tick.Base.Int.{ℤ, pos, negsuc, ltb_ℤ}
use tick.Config.{
  Config, Backend, postgres, redis, Problem, GoText, Sorter, Lookup, Read, get_variable,
  required_value, optional_value, int_in_range, duration, backend_value, log_level_value,
  millisecond, second_ns, minute_ns,
}

abbrev pub max_claim_batch : ℕ
max_claim_batch = 1000

abbrev pub max_concurrency : ℕ
max_concurrency = 1000

abbrev pub min_heartbeat_ttl_ratio : ℕ
min_heartbeat_ttl_ratio = 3

-- An int64 from a product of int64s.
unfoldable pub wrap64 : ℕ → ℤ
wrap64 n = let r = n % 2 ^ 64 in if ltb r (2 ^ 63) then pos r else negsuc (2 ^ 64 - r - 1)

pub data Loaded : Type 0 where
  loaded : (cfg : Config) → Loaded
  invalid_config : (fields : List Problem) → Loaded

abbrev pub is_redis : Backend → Bool
is_redis postgres = false
is_redis redis = true

abbrev pub problem_when : Bool → Text → Text → List Problem
problem_when false key problem = []
problem_when true key problem = record { key = key; problem = problem } ∷ []

-- The Redis backend needs its URL.
unfoldable pub redis_rule : Config → List Problem
redis_rule cfg =
    problem_when (is_redis cfg.backend && cfg.redis_url =? []) (bytes "TICK_REDIS_URL")
      (bytes "required when TICK_BACKEND is redis")

module _ (go : GoText) where
  unfoldable pub ttl_rule : Config → List Problem
  unfolding wrap64
  ttl_rule cfg =
      problem_when
        (ltb_ℤ (pos cfg.heartbeat_ttl) (wrap64 (min_heartbeat_ttl_ratio * cfg.heartbeat_interval)))
        (bytes "TICK_HEARTBEAT_TTL")
        (bytes "must be at least 3x TICK_HEARTBEAT_INTERVAL ("
          ++ go.print_duration cfg.heartbeat_interval
          ++ bytes "), got "
          ++ go.print_duration cfg.heartbeat_ttl)

  -- The field readers, in the order of the struct literal.
  unfoldable pub resolve_fields : Lookup → Read Config
  unfolding get_variable int_in_range duration backend_value log_level_value
  resolve_fields env =
      let (database_url, a) =
        required_value (bytes "TICK_DATABASE_URL") (get_variable env (bytes "TICK_DATABASE_URL")) in
      let (claim_batch, b) =
        int_in_range go (bytes "TICK_CLAIM_BATCH") 10 1 max_claim_batch
          (get_variable env (bytes "TICK_CLAIM_BATCH")) in
      let (concurrency, c) =
        int_in_range go (bytes "TICK_CONCURRENCY") 10 1 max_concurrency
          (get_variable env (bytes "TICK_CONCURRENCY")) in
      let (backend, d) =
        backend_value go (bytes "TICK_BACKEND") postgres
          (get_variable env (bytes "TICK_BACKEND")) in
      let (log_level, e) =
        log_level_value go (bytes "TICK_LOG_LEVEL") (pos 0)
          (get_variable env (bytes "TICK_LOG_LEVEL")) in
      let (sweep, f) =
        duration go (bytes "TICK_SWEEP_INTERVAL") (30 * second_ns)
          (get_variable env (bytes "TICK_SWEEP_INTERVAL")) in
      let (interval, g) =
        duration go (bytes "TICK_MATERIALIZER_INTERVAL") (30 * second_ns)
          (get_variable env (bytes "TICK_MATERIALIZER_INTERVAL")) in
      let (horizon, h) =
        duration go (bytes "TICK_MATERIALIZER_HORIZON") (5 * minute_ns)
          (get_variable env (bytes "TICK_MATERIALIZER_HORIZON")) in
      let (heartbeat, i) =
        duration go (bytes "TICK_HEARTBEAT_INTERVAL") (10 * second_ns)
          (get_variable env (bytes "TICK_HEARTBEAT_INTERVAL")) in
      let (ttl, j) =
        duration go (bytes "TICK_HEARTBEAT_TTL") (90 * second_ns)
          (get_variable env (bytes "TICK_HEARTBEAT_TTL")) in
      let (timeout, k) =
        duration go (bytes "TICK_TASK_TIMEOUT") (5 * minute_ns)
          (get_variable env (bytes "TICK_TASK_TIMEOUT")) in
      let (grace, l) =
        duration go (bytes "TICK_SHUTDOWN_GRACE") (30 * second_ns)
          (get_variable env (bytes "TICK_SHUTDOWN_GRACE")) in
      (
        record {
          backend = backend;
          database_url = database_url;
          redis_url = optional_value [] (get_variable env (bytes "TICK_REDIS_URL"));
          queue = optional_value (bytes "default") (get_variable env (bytes "TICK_QUEUE"));
          claim_batch = claim_batch;
          concurrency = concurrency;
          http_addr = optional_value (bytes ":8080") (get_variable env (bytes "TICK_HTTP_ADDR"));
          log_level = log_level;
          sweep_interval = sweep;
          materializer_interval = interval;
          materializer_horizon = horizon;
          heartbeat_interval = heartbeat;
          heartbeat_ttl = ttl;
          task_timeout = timeout;
          shutdown_grace = grace;
        },
        a ++ (b ++ (c ++ (d ++ (e ++ (f ++ (g ++ (h ++ (i ++ (j ++ (k ++ l)))))))))),
      )

  abbrev pub verdict : Sorter → Config → List Problem → Loaded
  verdict sorter cfg [] = loaded cfg
  verdict sorter cfg (p ∷ ps) = invalid_config (sorter.sort (p ∷ ps))

  -- Both rules that relate fields, after all fields are read.
  unfoldable pub load : Sorter → Lookup → Loaded
  unfolding resolve_fields redis_rule ttl_rule
  load sorter env =
      let (cfg, problems) = resolve_fields env in
      verdict sorter cfg (problems ++ (redis_rule cfg ++ ttl_rule cfg))

  unfoldable pub redacted : Text → Text
  redacted url = if url =? [] then bytes "<unset>" else bytes "<set>"

  abbrev pub backend_text : Backend → Text
  backend_text postgres = bytes "postgres"
  backend_text redis = bytes "redis"

  -- String.
  unfoldable pub render : Config → Text
  unfolding redacted
  render c =
      bytes "backend="
      ++ (backend_text c.backend
          ++ (bytes " queue="
              ++ (c.queue
                  ++ (bytes " claim_batch="
                      ++ (go.print_int (pos c.claim_batch)
                          ++ (bytes " concurrency="
                              ++ (go.print_int (pos c.concurrency)
                                  ++ (bytes " http_addr="
                                      ++ (c.http_addr
                                          ++ (bytes " log_level="
                                              ++ (go.print_level c.log_level
                                                  ++ (bytes " sweep_interval="
                                                      ++ (go.print_duration c.sweep_interval
                                                          ++ (bytes " heartbeat_interval="
                                                            ++ (go.print_duration
                                                            c.heartbeat_interval
                                                            ++ (bytes " heartbeat_ttl="
                                                            ++ (go.print_duration c.heartbeat_ttl
                                                            ++ (bytes " task_timeout="
                                                            ++ (go.print_duration c.task_timeout
                                                            ++ (bytes " shutdown_grace="
                                                            ++ (go.print_duration c.shutdown_grace
                                                            ++ (bytes " materializer_interval="
                                                            ++ (go.print_duration
                                                            c.materializer_interval
                                                            ++ (bytes " materializer_horizon="
                                                            ++ (go.print_duration
                                                            c.materializer_horizon
                                                            ++ (bytes " database_url="
                                                            ++ (redacted c.database_url
                                                            ++ (bytes " redis_url="
                                                            ++ redacted
                                                            c.redis_url))))))))))))))))))))))))))))

unfoldable pub claim_timeout : Config → ℕ
claim_timeout c = c.claim_batch * (50 * millisecond) + 2 * second_ns
