-- ===== src/Config/Laws.antt =====
-- What a configuration that Load returns is good for.
use tick.Base.{
  ℕ, ◌*◌, ◌%◌, ◌^◌, ◌≤◌, ◌<◌, ◌≡◌, ◌≢◌, refl, subst, inl, inr, true, false, ◌&&◌, Option, none,
  some, List, [], ◌∷◌, Text, bytes, ◌=?◌, ltb, arith, Option-cases,
}
use tick.Base.Rows.{append-eq-nil}
use tick.Base.Int.{ℤ, pos, negsuc}
use tick.Cron.{trim_space}
use tick.Config.{
  Config, Problem, GoText, Sorter, Lookup, get_variable, non_empty, required_value, int_in_range,
  duration, second_ns, minute_ns, checked_int, checked_duration,
}
use tick.Config.Load.{
  loaded, wrap64, redis_rule, ttl_rule, resolve_fields, verdict, load, claim_timeout, is_redis,
}

-- A configuration with which every process can start.
pub record IsUsable (c : Config) : Type 0 where
  pub url : c.database_url ≢ []
  pub batch : (1 ≤ c.claim_batch) × (c.claim_batch ≤ 1000)
  pub slots : (1 ≤ c.concurrency) × (c.concurrency ≤ 1000)
  pub sweeps : 0 < c.sweep_interval
  pub materializes : (0 < c.materializer_interval) × (0 < c.materializer_horizon)
  pub beats : (0 < c.heartbeat_interval) × (0 < c.heartbeat_ttl)
  pub limits : (0 < c.task_timeout) × (0 < c.shutdown_grace)

non_empty-ne : (s v : Text) → non_empty s ≡ some v → v ≢ []
non_empty-ne [] v e = absurd (cc)
non_empty-ne (c ∷ cs) v e = λ h. cc (e, h)

get_variable-non_empty : (env : Lookup) (key v : Text) → get_variable env key ≡ some v → v ≢ []
unfolding get_variable
get_variable-non_empty env key v e = elim (Option-cases (env key)) [
  | inl unset ↦ absurd (cc (rw (unset, get_variable) at e))
  | inr (raw, set) ↦ non_empty-ne (trim_space raw) v (rw (set, get_variable) at e)
]

required_value-ok :
    (key : Text) (o : Option Text)
    → ((v : Text) → o ≡ some v → v ≢ [])
    → (required_value key o).1 ≡ []
    → (required_value key o).0 ≢ []
required_value-ok key none h e = absurd (cc)
required_value-ok key (some v) h e = h v refl

module _ (go : GoText) where
  int_in_range-ok :
      (key : Text) (def low high : ℕ) (o : Option Text)
      → low ≤ def
      → def ≤ high
      → (int_in_range go key def low high o).1 ≡ []
      → (low ≤ (int_in_range go key def low high o).0)
        × ((int_in_range go key def low high o).0 ≤ high)
  unfolding int_in_range
  int_in_range-ok key def low high none p q e = (p, q)
  int_in_range-ok key def low high (some v) p q e = checked (go.atoi v) e
    where
      checked :
          (n : Option ℤ)
          → (checked_int go key def low high v n).1 ≡ []
          → (low ≤ (checked_int go key def low high v n).0)
            × ((checked_int go key def low high v n).0 ≤ high)
      checked none f = absurd (cc)
      checked (some (pos n)) f = ground arith
      checked (some (negsuc n)) f = ground arith

  duration-ok :
      (key : Text) (def : ℕ) (o : Option Text)
      → 0 < def
      → (duration go key def o).1 ≡ []
      → 0 < (duration go key def o).0
  unfolding duration
  duration-ok key def none p e = p
  duration-ok key def (some v) p e = checked (go.parse_duration v) e
    where
      checked :
          (n : Option ℤ)
          → (checked_duration go key def v n).1 ≡ []
          → 0 < (checked_duration go key def v n).0
      checked none f = absurd (cc)
      checked (some (pos n)) f = ground arith
      checked (some (negsuc n)) f = ground arith

  resolve_fields-IsUsable :
      (env : Lookup) → (resolve_fields go env).1 ≡ [] → IsUsable (resolve_fields go env).0
  unfolding resolve_fields
  resolve_fields-IsUsable env e =
      let (a, e1) = append-eq-nil _ _ e in
      let (b, e2) = append-eq-nil _ _ e1 in
      let (c, e3) = append-eq-nil _ _ e2 in
      let (d, e4) = append-eq-nil _ _ e3 in
      let (level, e5) = append-eq-nil _ _ e4 in
      let (f, e6) = append-eq-nil _ _ e5 in
      let (g, e7) = append-eq-nil _ _ e6 in
      let (h, e8) = append-eq-nil _ _ e7 in
      let (i, e9) = append-eq-nil _ _ e8 in
      let (j, e10) = append-eq-nil _ _ e9 in
      let (k, l) = append-eq-nil _ _ e10 in
      record {
        url =
            required_value-ok _ _ (λ v. get_variable-non_empty env (bytes "TICK_DATABASE_URL") v) a;
        batch = int_in_range-ok _ 10 1 1000 _ (omega arith) (omega arith) b;
        slots = int_in_range-ok _ 10 1 1000 _ (omega arith) (omega arith) c;
        sweeps = duration-ok _ (30 * second_ns) _ (omega arith) f;
        materializes = (
          duration-ok _ (30 * second_ns) _ (omega arith) g,
          duration-ok _ (5 * minute_ns) _ (omega arith) h,
        );
        beats = (
          duration-ok _ (10 * second_ns) _ (omega arith) i,
          duration-ok _ (90 * second_ns) _ (omega arith) j,
        );
        limits = (
          duration-ok _ (5 * minute_ns) _ (omega arith) k,
          duration-ok _ (30 * second_ns) _ (omega arith) l,
        );
      }

  verdict-loaded :
      (sorter : Sorter) (cfg c : Config) (ps : List Problem)
      → verdict go sorter c ps ≡ loaded cfg
      → (c ≡ cfg) × (ps ≡ [])
  verdict-loaded sorter cfg c [] e = (ground arith, refl)
  verdict-loaded sorter cfg c (p ∷ ps) e = absurd (cc)

  redis_rule-ok :
      (c : Config) → redis_rule c ≡ [] → (is_redis c.backend && c.redis_url =? []) ≡ false
  unfolding redis_rule
  redis_rule-ok c e = ground arith

  ttl_rule-ok :
      (c : Config)
      → ttl_rule go c ≡ []
      → c.heartbeat_interval < 2 ^ 61
      → 3 * c.heartbeat_interval ≤ c.heartbeat_ttl
  unfolding ttl_rule wrap64
  ttl_rule-ok c e h =
      let small : (3 * c.heartbeat_interval) % 2 ^ 64 ≡ 3 * c.heartbeat_interval = omega arith in
      let below : ltb (3 * c.heartbeat_interval) (2 ^ 63) ≡ true = ground arith in ground arith

  pub loaded-IsUsable :
      (sorter : Sorter) (env : Lookup) (cfg : Config)
      → load go sorter env ≡ loaded cfg
      → IsUsable cfg
  unfolding load
  loaded-IsUsable sorter env cfg e =
      let (same, clean) = verdict-loaded sorter cfg (resolve_fields go env).0 _ e in
      let (fields, rules) = append-eq-nil (resolve_fields go env).1 _ clean in
      subst IsUsable same (resolve_fields-IsUsable env fields)

  -- A configuration that Load returns names a database, has its numbers in range and its durations
  -- positive, and names a Redis server if that is its backend; a claim with it is given between 2.05
  -- and 52 seconds. If its heartbeat interval is below 2^61 nanoseconds, 73 years, its heartbeat TTL
  -- is at least three intervals.
  pub load_lem :
      (sorter : Sorter) (env : Lookup) (cfg : Config)
      → load go sorter env ≡ loaded cfg
      → cfg.heartbeat_interval < 2 ^ 61
      → IsUsable cfg
        × ((is_redis cfg.backend && cfg.redis_url =? []) ≡ false)
        × (3 * cfg.heartbeat_interval ≤ cfg.heartbeat_ttl)
        × (2050000000 ≤ claim_timeout cfg)
        × (claim_timeout cfg ≤ 52000000000)
  unfolding load claim_timeout
  load_lem sorter env cfg e h =
      let (same, clean) = verdict-loaded sorter cfg (resolve_fields go env).0 _ e in
      let (fields, rules) = append-eq-nil (resolve_fields go env).1 _ clean in
      let (no_redis, no_ttl) = append-eq-nil (redis_rule (resolve_fields go env).0) _ rules in
      let usable = loaded-IsUsable sorter env cfg e in
      let batch = usable.batch in
      (
        usable,
        redis_rule-ok cfg (subst (λ c. redis_rule c ≡ []) same no_redis),
        ttl_rule-ok cfg (subst (λ c. ttl_rule go c ≡ []) same no_ttl) h,
        omega (arith, batch),
        omega (arith, batch),
      )
