-- ===== src/Migrate/Runs.antt =====
-- The loop of Apply over the migrations, and the end of its transaction.
use tick.Base.{
  ℕ, ◌+◌, ◌≡◌, ◌≢◌, refl, sym, ◌∙◌, ap, subst, inl, inr, true, not, ◌&&◌, ◌||◌, Option, none, some,
  List, [], ◌∷◌, ◌++◌, Text, arith, length, map, select, Bool-cases, Option-cases,
}
use mathlib.Core.List.{append_assoc, append-nil}
use tick.Database.{Link, up, down, lost}
use tick.Store.Claim.{contains}
use tick.Migrate.{
  Migration, Catalog, Connection, Applied, applied, apply_failed, record_version, apply_one,
  apply_missing, finish,
}

-- The migrations that are not recorded yet.
abbrev pub missing : List ℕ → List Migration → List Migration
missing done ms = select (λ m. not (contains done m.version)) ms

abbrev pub versions : List Migration → List ℕ
versions ms = map (λ m. m.version) ms

module _ {Schema : Type 0} (exec_sql : Text → Schema → Option Schema) where
  -- The SQL of the migrations, one after the other.
  pub run_sql : List Migration → Schema → Option Schema
  run_sql [] s = some s
  run_sql (m ∷ ms) s = elim (exec_sql m.sql s) [ none ↦ none | some s' ↦ run_sql ms s' ]

  module _ (conn : Connection) where
    record_version-some :
        (v : ℕ) (o : Option Schema) (done : List ℕ) (cat : Catalog Schema)
        → record_version exec_sql conn v o done ≡ some cat
        → (o ≡ some cat.schema) × (cat.versions ≡ done ++ v ∷ [])
    record_version-some v none done cat e = absurd (cc)
    record_version-some v (some s) done cat e =
        elim (Bool-cases (conn.records v && not (contains done v))) [
          | inl new ↦
              subst
                (λ (c : Catalog Schema). (some s ≡ some c.schema) × (c.versions ≡ done ++ v ∷ []))
                (cc (rw new at e)) (refl, refl)
          | inr again ↦ absurd (cc (rw again at e))
        ]

    apply_one-some :
        (m : Migration) (cat cat' : Catalog Schema)
        → apply_one exec_sql conn m cat ≡ some cat'
        → (exec_sql m.sql cat.schema ≡ some cat'.schema)
          × (cat'.versions ≡ cat.versions ++ m.version ∷ [])
    unfolding apply_one
    apply_one-some m cat cat' e = elim (Bool-cases (conn.executes m.version)) [
      | inl t ↦
          record_version-some m.version (exec_sql m.sql cat.schema) cat.versions cat' (rw t at e)
      | inr f ↦ absurd (cc (rw f at e))
    ]

    -- The migrations of a run and what it leaves.
    pub record Ran (done : List ℕ) (ms : List Migration) (n k : ℕ) (cat cat' : Catalog Schema)
        : Type 0 where
      pub number : k ≡ n + length (missing done ms)
      pub schema : run_sql (missing done ms) cat.schema ≡ some cat'.schema
      pub recorded : cat'.versions ≡ cat.versions ++ versions (missing done ms)

    pub apply_missing-Ran :
        (done : List ℕ) (ms : List Migration) (n k : ℕ) (cat cat' : Catalog Schema)
        → apply_missing exec_sql conn done ms n cat ≡ (k, some cat')
        → Ran done ms n k cat cat'
    unfolding apply_missing run_sql select
    apply_missing-Ran done [] n k cat cat' e =
        let same : cat ≡ cat' = cc (ap (λ (m : ℕ × Option (Catalog Schema)). m.1) e) in
        record {
          number = omega (arith, ap (λ (m : ℕ × Option (Catalog Schema)). m.0) e);
          schema = ap (λ (c : Catalog Schema). some c.schema) same;
          recorded =
              ap (λ (c : Catalog Schema). c.versions) (sym same) ∙ sym (append-nil cat.versions);
        }
    apply_missing-Ran done (m ∷ ms) n k cat cat' e = elim (Bool-cases (contains done m.version)) [
      | inl old ↦
          let r = apply_missing-Ran done ms n k cat cat' (rw old at e) in
          record {
            number = rw old r.number;
            schema = rw old r.schema;
            recorded = rw old r.recorded;
          }
      | inr new ↦ elim (Option-cases (apply_one exec_sql conn m cat)) [
        | inl f ↦ absurd (cc (rw (new, f) at e))
        | inr (c, f) ↦
            let r = apply_missing-Ran done ms (n + 1) k c cat' (rw (new, f) at e) in
            let (ran, grown) = apply_one-some m cat c f in
            record {
              number = rw new (omega (arith, r.number));
              schema = rw new (rw ran r.schema);
              recorded = rw new (
                  r.recorded
                  ∙ ap (λ vs. vs ++ versions (missing done ms)) grown
                  ∙ append_assoc cat.versions (m.version ∷ []) (versions (missing done ms)));
            }
      ]
    ]

contains-append :
    (vs ws : List ℕ) (v : ℕ) → contains (vs ++ ws) v ≡ (contains vs v || contains ws v)
unfolding contains
contains-append [] ws v = refl
contains-append (u ∷ vs) ws v = ground (arith, contains-append vs ws v)

contains-cons : (u : ℕ) (vs : List ℕ) (v : ℕ) → contains vs v ≡ true → contains (u ∷ vs) v ≡ true
unfolding contains
contains-cons u vs v h = ground (arith, h)

contains-head : (u : ℕ) (vs : List ℕ) → contains (u ∷ vs) u ≡ true
unfolding contains
contains-head u vs = ground arith

-- Nothing is missing once the missing migrations are recorded.
pub missing-recorded :
    (done : List ℕ) (ms : List Migration) → missing (done ++ versions (missing done ms)) ms ≡ []
unfolding select
missing-recorded done ms = by_all ms (versions (missing done ms)) (λ v h. h)
  where
    by_all :
        (xs : List Migration) (vs : List ℕ)
        → ((v : ℕ) → contains (versions (missing done xs)) v ≡ true → contains vs v ≡ true)
        → missing (done ++ vs) xs ≡ []
    by_all [] vs h = refl
    by_all (x ∷ xs) vs h = elim (Bool-cases (contains done x.version)) [
      | inl old ↦ rw (contains-append done vs x.version, old) (by_all xs vs (λ v k. h v (rw old k)))
      | inr new ↦
          let here : contains vs x.version ≡ true =
            h x.version (rw new (contains-head x.version (versions (missing done xs)))) in
          rw (contains-append done vs x.version, new, here)
            (by_all xs vs
              (λ v k. h v (rw new (contains-cons x.version (versions (missing done xs)) v k))))
    ]

module _ {Schema : Type 0} where
  pub finish-applied :
      (link : Link) (cat cat' : Catalog Schema) (n k : ℕ) (o : Option (Catalog Schema))
      → finish link cat (k, o) ≡ (cat', applied n)
      → (k ≡ n) × (o ≡ some cat')
  finish-applied link cat cat' n k none e =
      absurd (cc (ap (λ (m : Catalog Schema × Applied). m.1) e))
  finish-applied up cat cat' n k (some c) e = (
    cc (ap (λ (m : Catalog Schema × Applied). m.1) e),
    ap some (ap (λ (m : Catalog Schema × Applied). m.0) e),
  )
  finish-applied down cat cat' n k (some c) e =
      absurd (cc (ap (λ (m : Catalog Schema × Applied). m.1) e))
  finish-applied lost cat cat' n k (some c) e =
      absurd (cc (ap (λ (m : Catalog Schema × Applied). m.1) e))

  pub finish-failed :
      (link : Link) (cat cat' : Catalog Schema) (n : ℕ) (r : ℕ × Option (Catalog Schema))
      → link ≢ lost
      → finish link cat r ≡ (cat', apply_failed n)
      → cat' ≡ cat
  finish-failed link cat cat' n (k, none) arrives e =
      sym (ap (λ (m : Catalog Schema × Applied). m.0) e)
  finish-failed up cat cat' n (k, some c) arrives e =
      absurd (cc (ap (λ (m : Catalog Schema × Applied). m.1) e))
  finish-failed down cat cat' n (k, some c) arrives e =
      sym (ap (λ (m : Catalog Schema × Applied). m.0) e)
  finish-failed lost cat cat' n (k, some c) arrives e = absurd (arrives refl)
