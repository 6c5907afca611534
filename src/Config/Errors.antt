-- ===== src/Config/Errors.antt =====
-- What an error of Load names.
use tick.Base.{
  ℕ, zero, suc, ltb, ◌*◌, ◌≡◌, ◌≢◌, refl, subst, inl, inr, Option, none, some, List, [], ◌∷◌, ◌++◌,
  Text, bytes, ◌=?◌, arith, All, Bool, true, false, not, ◌∙◌, is_some, Bool-cases,
}
use tick.Base.Rows.{All-append}
use tick.Base.Members.{In, In-perm}
use tick.Base.Int.{ℤ, pos, negsuc, ltb_ℤ}
use tick.Config.{
  Config, Backend, postgres, second_ns, minute_ns, Problem, GoText, Sorter, IsSorted, Lookup,
  get_variable, required_value, int_in_range, duration, backend_value, log_level_value, checked_int,
  checked_duration, checked_level,
}
use tick.Config.Load.{
  invalid_config, resolve_fields, verdict, load, redis_rule, ttl_rule, problem_when,
}
use tick.Config.Rules.{redis_url-given, ttl-short, backend-names_redis, duration-value}
use tick.Config.Faults.{
  is_int, is_period, int_fits, duration_fits, backend_fits, level_fits, blame, bad_variables,
  bad_fields, bad_pairs,
}

not-eq-false : (b : Bool) → false ≡ not b → b ≡ true
not-eq-false true e = refl
not-eq-false false e = cc

double_negation : (b : Bool) → b ≡ not (not b)
double_negation true = refl
double_negation false = refl

module _ (go : GoText) where
  abbrev Names : Text → List Problem → Type 0
  Names key ps = (p : Problem) × In p ps × (p.key ≡ key)

  record Reports (keys : List Text) (ps : List Problem) : Type 0 where
    named : All (λ key. Names key ps) keys

  first_named :
      {key problem : Text} → Reports (key ∷ []) (record { key = key; problem = problem } ∷ [])
  first_named = record { named = ((_, inl refl, refl), tt) }

  nothing_named : (ps : List Problem) → Reports [] ps
  nothing_named ps = record { named = tt }

  Reports-required :
      (key : Text) (o : Option Text) → Reports (blame key (is_some o)) (required_value key o).1
  Reports-required key none = first_named
  Reports-required key (some v) = nothing_named _

  Reports-int :
      (key : Text) (def low high : ℕ) (o : Option Text)
      → Reports (blame key (int_fits go low high o)) (int_in_range go key def low high o).1
  unfolding int_in_range
  Reports-int key def low high none = nothing_named _
  Reports-int key def low high (some v) = checked (go.atoi v)
    where
      checked :
          (n : Option ℤ)
          → Reports (blame key (is_int low high n)) (checked_int go key def low high v n).1
      checked none = first_named
      checked (some n) = elim (Bool-cases (ltb_ℤ n (pos low))) [
        | inl few ↦ rw few first_named
        | inr no_few ↦ elim (Bool-cases (ltb_ℤ (pos high) n)) [
          | inl many ↦ rw (no_few, many) first_named
          | inr no_many ↦ rw (no_few, no_many) (nothing_named _)
        ]
      ]

  Reports-duration :
      (key : Text) (def : ℕ) (o : Option Text)
      → Reports (blame key (duration_fits go o)) (duration go key def o).1
  unfolding duration
  Reports-duration key def none = nothing_named _
  Reports-duration key def (some v) = checked (go.parse_duration v)
    where
      checked :
          (d : Option ℤ) → Reports (blame key (is_period d)) (checked_duration go key def v d).1
      checked none = first_named
      checked (some (pos zero)) = first_named
      checked (some (pos (suc n))) =
          let positive : ltb 0 (suc n) ≡ true = ground arith in rw positive (nothing_named _)
      checked (some (negsuc n)) = first_named

  Reports-backend :
      (key : Text) (def : Backend) (o : Option Text)
      → Reports (blame key (backend_fits go o)) (backend_value go key def o).1
  unfolding backend_value
  Reports-backend key def none = nothing_named _
  Reports-backend key def (some v) = elim (Bool-cases (go.to_lower v =? bytes "postgres")) [
    | inl first ↦ rw first (nothing_named _)
    | inr not_first ↦ elim (Bool-cases (go.to_lower v =? bytes "redis")) [
      | inl second ↦ rw (not_first, second) (nothing_named _)
      | inr bad ↦ rw (not_first, bad) first_named
    ]
  ]

  Reports-level :
      (key : Text) (def : ℤ) (o : Option Text)
      → Reports (blame key (level_fits go o)) (log_level_value go key def o).1
  unfolding log_level_value
  Reports-level key def none = nothing_named _
  Reports-level key def (some v) = checked (go.parse_level v)
    where
      checked : (l : Option ℤ) → Reports (blame key (is_some l)) (checked_level go key def v l).1
      checked none = first_named
      checked (some l) = nothing_named _

  In-left : (p : Problem) (ps qs : List Problem) → In p ps → In p (ps ++ qs)
  In-left p [] qs m = elim m [ ]
  In-left p (x ∷ ps) qs (inl e) = inl e
  In-left p (x ∷ ps) qs (inr m) = inr (In-left p ps qs m)

  In-right : (p : Problem) (ps qs : List Problem) → In p qs → In p (ps ++ qs)
  In-right p [] qs m = m
  In-right p (x ∷ ps) qs m = inr (In-right p ps qs m)

  All-Names :
      (keys : List Text) (ps qs : List Problem)
      → ((p : Problem) → In p ps → In p qs)
      → All (λ key. Names key ps) keys
      → All (λ key. Names key qs) keys
  All-Names [] ps qs f h = tt
  All-Names (k ∷ keys) ps qs f h = ((h.0.0, f h.0.0 h.0.1, h.0.2), All-Names keys ps qs f h.1)

  Reports-append :
      (ks bs : List Text) (ps qs : List Problem)
      → Reports ks ps
      → Reports bs qs
      → Reports (ks ++ bs) (ps ++ qs)
  Reports-append ks bs ps qs h k = record {
    named =
        All-append _ ks bs (All-Names ks ps (ps ++ qs) (λ p. In-left p ps qs) h.named)
          (All-Names bs qs (ps ++ qs) (λ p. In-right p ps qs) k.named);
  }

  Reports-fields :
      (env : Lookup) → Reports (bad_fields go (get_variable env)) (resolve_fields go env).1
  unfolding resolve_fields
  Reports-fields env =
      let v = get_variable env in
      Reports-append _ _ _ _
        (Reports-required (bytes "TICK_DATABASE_URL") (v (bytes "TICK_DATABASE_URL")))
        (Reports-append _ _ _ _
          (Reports-int (bytes "TICK_CLAIM_BATCH") 10 1 1000 (v (bytes "TICK_CLAIM_BATCH")))
          (Reports-append _ _ _ _
            (Reports-int (bytes "TICK_CONCURRENCY") 10 1 1000 (v (bytes "TICK_CONCURRENCY")))
            (Reports-append _ _ _ _
              (Reports-backend (bytes "TICK_BACKEND") postgres (v (bytes "TICK_BACKEND")))
              (Reports-append _ _ _ _
                (Reports-level (bytes "TICK_LOG_LEVEL") (pos 0) (v (bytes "TICK_LOG_LEVEL")))
                (Reports-append _ _ _ _
                  (Reports-duration (bytes "TICK_SWEEP_INTERVAL") (30 * second_ns)
                    (v (bytes "TICK_SWEEP_INTERVAL")))
                  (Reports-append _ _ _ _
                    (Reports-duration (bytes "TICK_MATERIALIZER_INTERVAL") (30 * second_ns)
                      (v (bytes "TICK_MATERIALIZER_INTERVAL")))
                    (Reports-append _ _ _ _
                      (Reports-duration (bytes "TICK_MATERIALIZER_HORIZON") (5 * minute_ns)
                        (v (bytes "TICK_MATERIALIZER_HORIZON")))
                      (Reports-append _ _ _ _
                        (Reports-duration (bytes "TICK_HEARTBEAT_INTERVAL") (10 * second_ns)
                          (v (bytes "TICK_HEARTBEAT_INTERVAL")))
                        (Reports-append _ _ _ _
                          (Reports-duration (bytes "TICK_HEARTBEAT_TTL") (90 * second_ns)
                            (v (bytes "TICK_HEARTBEAT_TTL")))
                          (Reports-append _ _ _ _
                            (Reports-duration (bytes "TICK_TASK_TIMEOUT") (5 * minute_ns)
                              (v (bytes "TICK_TASK_TIMEOUT")))
                            (Reports-duration (bytes "TICK_SHUTDOWN_GRACE") (30 * second_ns)
                              (v (bytes "TICK_SHUTDOWN_GRACE")))))))))))))

  Reports-when :
      (key problem : Text) (wrong right : Bool)
      → wrong ≡ not right
      → Reports (blame key right) (problem_when wrong key problem)
  Reports-when key problem true true e = absurd (cc)
  Reports-when key problem true false e = first_named
  Reports-when key problem false right e = rw (not-eq-false right e) (nothing_named _)

  Reports-pairs :
      (env : Lookup)
      → let cfg = (resolve_fields go env).0 in
        Reports (bad_pairs go (get_variable env)) (redis_rule cfg ++ ttl_rule go cfg)
  unfolding resolve_fields redis_rule ttl_rule
  Reports-pairs env =
      let v = get_variable env in
      let named = backend-names_redis go (bytes "TICK_BACKEND") (v (bytes "TICK_BACKEND")) in
      let given = redis_url-given (v (bytes "TICK_REDIS_URL")) in
      let ttl =
        duration-value go (bytes "TICK_HEARTBEAT_TTL") (90 * second_ns)
          (v (bytes "TICK_HEARTBEAT_TTL")) in
      let interval =
        duration-value go (bytes "TICK_HEARTBEAT_INTERVAL") (10 * second_ns)
          (v (bytes "TICK_HEARTBEAT_INTERVAL")) in
      Reports-append _ _ _ _
        (Reports-when (bytes "TICK_REDIS_URL") _ _ _ (rw (named, given) (ground arith)))
        (Reports-when (bytes "TICK_HEARTBEAT_TTL") _ _ _
          (rw (ttl, interval) (ttl-short _ _ ∙ double_negation _)))

  verdict-invalid :
      (sorter : Sorter) (c : Config) (ps es : List Problem)
      → verdict go sorter c ps ≡ invalid_config es
      → (es ≡ sorter.sort ps) × (ps ≢ [])
  verdict-invalid sorter c [] es e = absurd (cc)
  verdict-invalid sorter c (p ∷ ps) es e = (ground arith, λ h. cc h)

  sorted-ne : (sorter : Sorter) (ps : List Problem) → ps ≢ [] → sorter.sort ps ≢ []
  sorted-ne sorter [] h = absurd (h refl)
  sorted-ne sorter (p ∷ ps) h =
      λ e. subst (λ qs. In p qs) e (In-perm p (sorter.sort-perm (p ∷ ps)) (inl refl))

  -- When Load fails, its one error is not empty, is sorted by key, and has an entry for every variable
  -- that is missing or badly set, by itself or together with another one: the address of Redis when
  -- the backend asks for it, and a TTL of less than three heartbeats on int64s.
  pub load-invalid :
      (sorter : Sorter) (env : Lookup) (es : List Problem)
      → load go sorter env ≡ invalid_config es
      → (es ≢ [])
        × IsSorted es
        × All (λ key. (p : Problem) × In p es × (p.key ≡ key)) (bad_variables go (get_variable env))
  unfolding load
  load-invalid sorter env es e =
      let (cfg, fields) = resolve_fields go env in
      let problems = fields ++ (redis_rule cfg ++ ttl_rule go cfg) in
      let (sorted, some_problem) = verdict-invalid sorter cfg problems es e in
      rw sorted (
        sorted-ne sorter problems some_problem,
        sorter.sort-IsSorted problems,
        All-Names (bad_variables go (get_variable env)) problems (sorter.sort problems)
            (λ p m. In-perm p (sorter.sort-perm problems) m)
            (Reports-append _ _ _ _ (Reports-fields env) (Reports-pairs env)).named,
      )
