-- ===== src/Config/Faults.antt =====
-- What the variables of the environment may hold, apart from the readers that the code has for them.
use tick.Base.{
  ℕ, suc, ◌*◌, ◌%◌, ◌^◌, ltb, Bool, true, false, not, ◌&&◌, ◌||◌, Option, none, some, List, [], ◌∷◌,
  ◌++◌, Text, bytes, ◌=?◌, is_some,
}
use tick.Base.Int.{ℤ, pos, ltb_ℤ}
use tick.Config.{GoText, second_ns}

abbrev pub is_int : ℕ → ℕ → Option ℤ → Bool
is_int low high none = false
is_int low high (some n) = not (ltb_ℤ n (pos low)) && not (ltb_ℤ (pos high) n)

abbrev pub is_period : Option ℤ → Bool
is_period (some (pos (suc n))) = true
is_period _ = false

abbrev pub blame : Text → Bool → List Text
blame key true = []
blame key false = key ∷ []

abbrev pub period_or : ℕ → Option ℤ → ℕ
period_or def (some (pos (suc n))) = suc n
period_or def _ = def

abbrev pub is_given : Option Text → Bool
is_given none = false
is_given (some v) = not (v =? [])

-- `ttl < 3 * interval` on int64s, for a ttl that is positive: three intervals wrap around at 2^64, and
-- are negative from 2^63 on.
abbrev pub is_short : ℕ → ℕ → Bool
is_short ttl interval = let three = 3 * interval % 2 ^ 64 in ltb three (2 ^ 63) && ltb ttl three

module _ (go : GoText) where
  abbrev pub int_fits : ℕ → ℕ → Option Text → Bool
  int_fits low high none = true
  int_fits low high (some v) = is_int low high (go.atoi v)

  abbrev pub duration_fits : Option Text → Bool
  duration_fits none = true
  duration_fits (some v) = is_period (go.parse_duration v)

  abbrev pub backend_fits : Option Text → Bool
  backend_fits none = true
  backend_fits (some v) = go.to_lower v =? bytes "postgres" || go.to_lower v =? bytes "redis"

  abbrev pub level_fits : Option Text → Bool
  level_fits none = true
  level_fits (some v) = is_some (go.parse_level v)

  -- The variables that are missing or hold what they may not, each taken by itself.
  abbrev pub bad_fields : (Text → Option Text) → List Text
  bad_fields v =
      blame (bytes "TICK_DATABASE_URL") (is_some (v (bytes "TICK_DATABASE_URL")))
      ++ (blame (bytes "TICK_CLAIM_BATCH") (int_fits 1 1000 (v (bytes "TICK_CLAIM_BATCH")))
          ++ (blame (bytes "TICK_CONCURRENCY") (int_fits 1 1000 (v (bytes "TICK_CONCURRENCY")))
              ++ (blame (bytes "TICK_BACKEND") (backend_fits (v (bytes "TICK_BACKEND")))
                  ++ (blame (bytes "TICK_LOG_LEVEL") (level_fits (v (bytes "TICK_LOG_LEVEL")))
                      ++ (blame (bytes "TICK_SWEEP_INTERVAL")
                            (duration_fits (v (bytes "TICK_SWEEP_INTERVAL")))
                          ++ (blame (bytes "TICK_MATERIALIZER_INTERVAL")
                                (duration_fits (v (bytes "TICK_MATERIALIZER_INTERVAL")))
                              ++ (blame (bytes "TICK_MATERIALIZER_HORIZON")
                                    (duration_fits (v (bytes "TICK_MATERIALIZER_HORIZON")))
                                  ++ (blame (bytes "TICK_HEARTBEAT_INTERVAL")
                                        (duration_fits (v (bytes "TICK_HEARTBEAT_INTERVAL")))
                                      ++ (blame (bytes "TICK_HEARTBEAT_TTL")
                                            (duration_fits (v (bytes "TICK_HEARTBEAT_TTL")))
                                          ++ (blame (bytes "TICK_TASK_TIMEOUT")
                                                (duration_fits (v (bytes "TICK_TASK_TIMEOUT")))
                                              ++ blame (bytes "TICK_SHUTDOWN_GRACE") (
                                                  duration_fits
                                                    (v (bytes "TICK_SHUTDOWN_GRACE")))))))))))))

  -- The durations in force: a variable that is unset, or badly set, leaves the default.
  abbrev pub duration_or_default : ℕ → Option Text → ℕ
  duration_or_default def none = def
  duration_or_default def (some v) = period_or def (go.parse_duration v)

  abbrev pub names_redis : Option Text → Bool
  names_redis none = false
  names_redis (some v) = go.to_lower v =? bytes "redis"

  -- The variables that are wrong together with another one: the Redis backend without its address, and
  -- a TTL of less than three heartbeats.
  abbrev pub bad_pairs : (Text → Option Text) → List Text
  bad_pairs v =
      blame (bytes "TICK_REDIS_URL")
        (not (names_redis (v (bytes "TICK_BACKEND"))) || is_given (v (bytes "TICK_REDIS_URL")))
      ++ blame (bytes "TICK_HEARTBEAT_TTL") (
          not (
            is_short (duration_or_default (90 * second_ns) (v (bytes "TICK_HEARTBEAT_TTL")))
              (duration_or_default (10 * second_ns) (v (bytes "TICK_HEARTBEAT_INTERVAL")))))

  -- All of them.
  abbrev pub bad_variables : (Text → Option Text) → List Text
  bad_variables v = bad_fields v ++ bad_pairs v
