-- ===== src/Migrate/Atomic.antt =====
-- What Apply does to the database.
use tick.Base.{
  ℕ, ◌≡◌, ◌≢◌, refl, sym, ap, subst, inl, inr, Bool, true, ◌&&◌, Option, some, List, [], ◌∷◌, ◌++◌,
  Text, arith, length, select, Bool-cases,
}
use tick.Database.{up, lost}
use tick.Store.Claim.{contains}
use tick.Migrate.{
  File, Migration, Loading, fine, failed, Sorter, load_from, Catalog, Connection, Applied, applied,
  apply_failed, apply_missing, apply_all, apply,
}
use tick.Migrate.Runs.{
  missing, versions, run_sql, apply_missing-Ran, missing-recorded, finish-applied, finish-failed,
}

-- Every statement that a run needs arrives.
abbrev pub is_ready : Connection → Bool
is_ready conn = conn.begins && conn.locks && conn.creates && conn.lists

module _ {Schema : Type 0} (exec_sql : Text → Schema → Option Schema) (conn : Connection)
    (sorter : Sorter) (files : List File) where
  apply_all-applied :
      (ms : List Migration) (cat cat' : Catalog Schema) (n : ℕ)
      → apply_all exec_sql conn ms cat ≡ (cat', applied n)
      → (ms ≢ []) × (apply_missing exec_sql conn cat.versions ms 0 cat ≡ (n, some cat'))
  apply_all-applied [] cat cat' n e = absurd (cc (ap (λ (m : Catalog Schema × Applied). m.1) e))
  apply_all-applied (m ∷ ms) cat cat' n e = elim (Bool-cases (is_ready conn)) [
    | inl ready ↦
        let (k, o) = apply_missing exec_sql conn cat.versions (m ∷ ms) 0 cat in
        let (same, done) = finish-applied conn.commits cat cat' n k o (rw ready at e) in
        (λ h. cc h, cc (same, done))
    | inr f ↦ absurd (cc (ap (λ (x : Catalog Schema × Applied). x.1) (rw f at e)))
  ]

  apply-applied :
      (cat cat' : Catalog Schema) (n : ℕ)
      → apply exec_sql conn sorter files cat ≡ (cat', applied n)
      → (ms : List Migration) × (load_from sorter files ≡ fine ms)
        × (apply_all exec_sql conn ms cat ≡ (cat', applied n))
  unfolding apply
  apply-applied cat cat' n e = by_load (load_from sorter files) refl e
    where
      by_load :
          (r : Loading (List Migration))
          → load_from sorter files ≡ r
          → elim r [ fine ms ↦ apply_all exec_sql conn ms cat | failed x ↦ (cat, apply_failed 0) ]
            ≡ (cat', applied n)
          → (ms : List Migration) × (load_from sorter files ≡ fine ms)
            × (apply_all exec_sql conn ms cat ≡ (cat', applied n))
      by_load (fine ms) h k = (ms, h, k)
      by_load (failed x) h k = absurd (cc (ap (λ (m : Catalog Schema × Applied). m.1) k))

  -- When Apply succeeds, the migrations load, and it has executed, in the order in which they load, the
  -- SQL of exactly those that were not recorded, has recorded these after what was recorded, and
  -- reports their number.
  pub apply_lem :
      (cat cat' : Catalog Schema) (n : ℕ)
      → apply exec_sql conn sorter files cat ≡ (cat', applied n)
      → (ms : List Migration) × (load_from sorter files ≡ fine ms)
        × (run_sql exec_sql (missing cat.versions ms) cat.schema ≡ some cat'.schema)
        × (cat'.versions ≡ cat.versions ++ versions (missing cat.versions ms))
        × (n ≡ length (missing cat.versions ms))
  apply_lem cat cat' n e =
      let (ms, loads, all) = apply-applied cat cat' n e in
      let ran =
        apply_missing-Ran exec_sql conn cat.versions ms 0 n cat cat'
          (apply_all-applied ms cat cat' n all).1 in
      (ms, loads, ran.schema, ran.recorded, omega (arith, ran.number))

  apply_all-failed :
      (ms : List Migration) (cat cat' : Catalog Schema) (n : ℕ)
      → conn.commits ≢ lost
      → apply_all exec_sql conn ms cat ≡ (cat', apply_failed n)
      → cat' ≡ cat
  apply_all-failed [] cat cat' n arrives e = sym (ap (λ (m : Catalog Schema × Applied). m.0) e)
  apply_all-failed (m ∷ ms) cat cat' n arrives e = elim (Bool-cases (is_ready conn)) [
    | inl ready ↦
        finish-failed conn.commits cat cat' n
          (apply_missing exec_sql conn cat.versions (m ∷ ms) 0 cat) arrives (rw ready at e)
    | inr f ↦ sym (ap (λ (x : Catalog Schema × Applied). x.0) (rw f at e))
  ]

  -- When Apply fails, whatever count it returns, and its commit's reply is not lost, the schema and the
  -- records are as they were.
  pub apply_atomic :
      (cat cat' : Catalog Schema) (n : ℕ)
      → conn.commits ≢ lost
      → apply exec_sql conn sorter files cat ≡ (cat', apply_failed n)
      → cat' ≡ cat
  unfolding apply
  apply_atomic cat cat' n arrives e = by_load (load_from sorter files) e
    where
      by_load :
          (r : Loading (List Migration))
          → elim r [ fine ms ↦ apply_all exec_sql conn ms cat | failed x ↦ (cat, apply_failed 0) ]
            ≡ (cat', apply_failed n)
          → cat' ≡ cat
      by_load (fine ms) k = apply_all-failed ms cat cat' n arrives k
      by_load (failed x) k = sym (ap (λ (m : Catalog Schema × Applied). m.0) k)

module _ {Schema : Type 0} (exec_sql : Text → Schema → Option Schema) (conn : Connection) where
  apply_missing-none :
      (done : List ℕ) (ms : List Migration) (n : ℕ) (cat : Catalog Schema)
      → missing done ms ≡ []
      → apply_missing exec_sql conn done ms n cat ≡ (n, some cat)
  unfolding apply_missing select
  apply_missing-none done [] n cat h = refl
  apply_missing-none done (m ∷ ms) n cat h = elim (Bool-cases (contains done m.version)) [
    | inl old ↦ rw old (apply_missing-none done ms n cat (rw old at h))
    | inr new ↦ absurd (cc (rw new at h))
  ]

  apply_all-none :
      (ms : List Migration) (cat : Catalog Schema)
      → is_ready conn ≡ true
      → conn.commits ≡ up
      → ms ≢ []
      → missing cat.versions ms ≡ []
      → apply_all exec_sql conn ms cat ≡ (cat, applied 0)
  apply_all-none [] cat ready commits some_ms h = absurd (some_ms refl)
  apply_all-none (m ∷ ms) cat ready commits some_ms h =
      rw (ready, apply_missing-none cat.versions (m ∷ ms) 0 cat h, commits) refl

-- A process that starts after an Apply that succeeded, and whose statements all arrive, applies
-- nothing and leaves the schema and the records alone.
pub apply_again :
    {Schema : Type 0} (exec_sql : Text → Schema → Option Schema) (conn conn' : Connection)
    (sorter : Sorter) (files : List File) (cat cat' : Catalog Schema) (n : ℕ)
    → apply exec_sql conn sorter files cat ≡ (cat', applied n)
    → is_ready conn' ≡ true
    → conn'.commits ≡ up
    → apply exec_sql conn' sorter files cat' ≡ (cat', applied 0)
unfolding apply
apply_again exec_sql conn conn' sorter files cat cat' n e ready commits =
    let (ms, loads, all) = apply-applied exec_sql conn sorter files cat cat' n e in
    let (some_ms, runs) = apply_all-applied exec_sql conn sorter files ms cat cat' n all in
    let ran = apply_missing-Ran exec_sql conn cat.versions ms 0 n cat cat' runs in
    let none_left : missing cat'.versions ms ≡ [] =
      subst (λ vs. missing vs ms ≡ []) (sym ran.recorded) (missing-recorded cat.versions ms) in
    rw (loads, apply) (apply_all-none exec_sql conn' ms cat' ready commits some_ms none_left)
