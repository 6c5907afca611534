-- ===== src/Store/Pool.antt =====
-- internal/store/postgres/postgres.go: New, with the bounded retries of the first ping. What pgxpool
-- answers is an argument; a time is a number of microseconds.
use tick.Base.{
  ℕ, zero, suc, ◌+◌, ◌*◌, ◌^◌, ◌≤◌, ◌<◌, ◌≡◌, inl, inr, Bool, true, false, ◌&&◌, arith, ltb,
  Bool-cases, if◌then◌else◌, Text,
}
use tick.Domain.{second}

abbrev pub ping_attempts : ℕ
ping_attempts = 5

abbrev pub ping_base_delay : ℕ
ping_base_delay = 200000

-- What becomes of the pings: one answers, the context ends while one is waited for, or none answers.
pub data Pinged : Type 0 where
  answered interrupted unanswered : Pinged

abbrev pub delay_before : ℕ → ℕ
delay_before zero = 0
delay_before (suc n) = ping_base_delay * 2 ^ n

-- `pings` tells which attempts are answered, `done` before which the context ends. The result has the
-- sum of the delays that have passed.
module _ (pings done : ℕ → Bool) where
  unfoldable pub ping_from : ℕ → ℕ → ℕ → Pinged × ℕ
  ping_from zero attempt waited = (unanswered, waited)
  ping_from (suc left) attempt waited =
      let later = waited + delay_before attempt in
      let rest = ping_from left (attempt + 1) later in
      if ltb 0 attempt && done attempt
      then (interrupted, waited)
      else if pings attempt
      then (answered, later)
      else rest

  unfoldable pub ping_with_retry : Pinged × ℕ
  unfolding ping_from
  ping_with_retry = ping_from ping_attempts 0 0

  -- The delays that pass between the pings add up to three seconds at most.
  pub ping_with_retry-le : ping_with_retry.1 ≤ 3000000
  unfolding ping_with_retry ping_from
  ping_with_retry-le = ground arith

  ping_from-answered :
      (left attempt waited k : ℕ)
      → ((j : ℕ) → done j ≡ false)
      → attempt ≤ k
      → k < attempt + left
      → pings k ≡ true
      → (ping_from left attempt waited).0 ≡ answered
  unfolding ping_from
  ping_from-answered zero attempt waited k stays lo hi e = absurd (omega (arith, lo, hi))
  ping_from-answered (suc left) attempt waited k stays lo hi e = elim (Bool-cases (pings attempt)) [
    | inl yes_now ↦ ground (arith, stays attempt, yes_now)
    | inr not_now ↦
        let rest =
          ping_from-answered left (attempt + 1) (waited + delay_before attempt) k stays
            (ground (arith, lo, e, not_now)) (omega (arith, hi)) e in
        ground (arith, stays attempt, not_now, rest)
  ]

  -- If the context stays open and one of the first five pings would be answered, one is.
  pub ping_with_retry-answered :
      (k : ℕ) → ((j : ℕ) → done j ≡ false) → k < 5 → pings k ≡ true → ping_with_retry.0 ≡ answered
  unfolding ping_with_retry
  ping_with_retry-answered k stays few e =
      ping_from-answered ping_attempts 0 0 k stays (omega arith) (omega (arith, few)) e

-- Config, in the order of its fields; durations in microseconds.
pub record PoolConfig : Type 0 where
  pub max_conns : ℕ
  pub min_conns : ℕ
  pub max_conn_lifetime : ℕ
  pub health_check_period : ℕ

abbrev pub default_config : PoolConfig
default_config = record {
  max_conns = 20;
  min_conns = 2;
  max_conn_lifetime = 30 * 60 * second;
  health_check_period = 60 * second;
}

-- What New comes to: the URL does not parse, pgxpool builds no pool, the pool is closed again because
-- no ping was answered, or the store is open.
pub data Opened : Type 0 where
  refused_url no_pool opened : Opened
  closed : (ping : Pinged) → Opened

abbrev pub after_ping : Pinged → Opened
after_ping answered = opened
after_ping interrupted = closed interrupted
after_ping unanswered = closed unanswered

-- `parses` and `builds` are pgxpool.ParseConfig and pgxpool.NewWithConfig.
unfoldable pub new_store :
    (Text → Bool)
    → (Text → PoolConfig → Bool)
    → (ℕ → Bool)
    → (ℕ → Bool)
    → Text
    → PoolConfig
    → Opened
unfolding ping_with_retry
new_store parses builds pings done url cfg =
    if parses url
    then (if builds url cfg then after_ping (ping_with_retry pings done).0 else no_pool)
    else refused_url
