-- ===== src/Worker/Run/InFlight.antt =====
-- The in-flight set of a run against its dispatches.
use tick.Base.{
  ℕ, ◌≡◌, refl, subst, true, not, ◌||◌, List, [], ◌∷◌, ◌++◌, Text, All, arith, length, map, ◌==◌,
  select,
}
use tick.Base.Rows.{All-map, All-select, select-All, All-both}
use tick.Domain.{Task}
use tick.Database.{Db, Postgres}
use tick.Store.Claim.{contains}
use tick.Store.History.Valid.{IsValid}
use tick.Worker.{Registry, Format}
use tick.Worker.Loop.{add, remove}
use tick.Worker.Run.Capacity.{Reach-Counts}
use tick.Worker.Run.{
  Config, State, claimed, Step, Reach, receive, launch, end_dispatch, started, later,
}

abbrev ids : List Task → List ℕ
ids ts = map (λ t. t.id) ts

-- Every id in flight is the id of a task that is being dispatched.
abbrev Tracks : List ℕ → List Task → Type 0
Tracks in_flight ts = All (λ i. contains (ids ts) i ≡ true) in_flight

contains-append :
    (i : ℕ) (t : Task) (before after : List Task)
    → contains (ids (before ++ t ∷ after)) i ≡ (i == t.id || contains (ids (before ++ after)) i)
unfolding contains
contains-append i t [] after = refl
contains-append i t (b ∷ before) after = ground (arith, contains-append i t before after)

Tracks-add :
    (t : Task) (in_flight : List ℕ) (ts : List Task)
    → Tracks in_flight ts
    → Tracks (add t.id in_flight) (t ∷ ts)
unfolding add contains
Tracks-add t in_flight ts h = (
  ground arith,
  All-map _ (select (λ i. not (i == t.id)) in_flight) (λ i k. ground (arith, k))
      (All-select _ (λ i. not (i == t.id)) in_flight h),
)

Tracks-remove :
    (t : Task) (in_flight : List ℕ) (before after : List Task)
    → Tracks in_flight (before ++ t ∷ after)
    → Tracks (remove t.id in_flight) (before ++ after)
unfolding remove
Tracks-remove t in_flight before after h =
    All-map _ (select (λ i. not (i == t.id)) in_flight)
      (λ i (k : (not (i == t.id) ≡ true) × (contains (ids (before ++ t ∷ after)) i ≡ true)).
        ground (arith, k.0, k.1, contains-append i t before after))
      (All-both _ _ (select (λ i. not (i == t.id)) in_flight) (select-All _ in_flight)
        (All-select _ (λ i. not (i == t.id)) in_flight h))

Tracks-claimed :
    (ts : List Task) (s : State)
    → Tracks s.in_flight s.dispatching
    → Tracks (claimed ts s).in_flight (claimed ts s).dispatching
Tracks-claimed [] s h = h
Tracks-claimed (t ∷ ts) s h = h

Tracks-nil : (in_flight : List ℕ) → Tracks in_flight [] → in_flight ≡ []
unfolding contains
Tracks-nil [] h = refl
Tracks-nil (i ∷ in_flight) h = absurd (cc (h.0))

length-nil {ℓ} : {A : Type ℓ} (xs : List A) → length xs ≡ 0 → xs ≡ []
length-nil [] h = refl
length-nil (x ∷ xs) h = absurd (omega (arith, h))

module _ {Handler : Type 0} (pg : Postgres) (fmt : Format) (registry : Registry Handler)
    (cfg : Config) (worker_id : Text) where
  Step-Tracks :
      {x y : Db × State}
      → Step pg fmt registry cfg worker_id x y
      → Tracks x.1.in_flight x.1.dispatching
      → Tracks y.1.in_flight y.1.dispatching
  Step-Tracks (receive {s} limit tasks locked now link p e) h = Tracks-claimed tasks s h
  Step-Tracks (launch {s} t ts p q) h = Tracks-add t s.in_flight s.dispatching h
  Step-Tracks (end_dispatch {s} t before after call link now jitter p) h =
      Tracks-remove t s.in_flight before after (subst (Tracks s.in_flight) p h)
  Step-Tracks _ h = h

  Reach-Tracks :
      (db : Db) {x : Db × State}
      → Reach pg fmt registry cfg worker_id db x
      → Tracks x.1.in_flight x.1.dispatching
  Reach-Tracks db started = tt
  Reach-Tracks db (later r st) = Step-Tracks st (Reach-Tracks db r)

  -- When the wait group of a run from a valid database is empty, which is what a shutdown waits for, no task is
  -- being dispatched, no slot is taken, and no id is in flight.
  pub run_drained :
      (db : Db) {x : Db × State}
      → IsValid db
      → Reach pg fmt registry cfg worker_id db x
      → x.1.wait_group ≡ 0
      → (x.1.dispatching ≡ []) × (x.1.sem ≡ 0) × (x.1.in_flight ≡ [])
  run_drained db {x} v r e =
      let c = Reach-Counts pg fmt registry cfg worker_id db v r in
      let quiet : x.1.dispatching ≡ [] =
        length-nil x.1.dispatching (omega (arith, e, c.slots, c.group)) in
      (
        quiet,
        omega (arith, e, c.group),
        Tracks-nil x.1.in_flight (subst (Tracks x.1.in_flight) quiet (Reach-Tracks db r)),
      )
