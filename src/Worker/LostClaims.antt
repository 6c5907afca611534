-- ===== src/Worker/LostClaims.antt =====
-- Which dispatches a heartbeat cancels.
use tick.Base.{
  ℕ, ◌≡◌, refl, inl, inr, subst, Bool, not, ◌&&◌, ◌||◌, List, [], ◌∷◌, true, false, Text, arith,
  ◌==◌, ◌=?◌, ◌=??◌, Option, none, some, Bool-cases, length,
}
use tick.Domain.{Task, Result, ok, err}
use tick.Database.{Db, Postgres, Link}
use tick.Store.Claim.{contains}
use tick.Store.Cancel.{get}
use tick.Store.Heartbeat.{heartbeat}
use tick.Worker.{keeps, lost_ids, after_heartbeat, heartbeat_once}

module _ (links : ℕ → Link) (held_now : ℕ → Bool) (worker_id : Text) where
  -- The row can be read, and has another owner or none.
  abbrev pub is_taken : Result Task → Bool
  is_taken (err e) = false
  is_taken (ok t) = elim t.claimed_by [ none ↦ true | some owner ↦ not (owner =? worker_id) ]

  -- The dispatch of a task is to be cancelled: its row is taken, and it is still in flight.
  abbrev pub is_lost : Db → ℕ → Bool
  is_lost db i = is_taken (get (links i) i db).1 && held_now i

  keeps-taken : (r : Result Task) → keeps worker_id r ≡ not (is_taken r)
  keeps-taken (err e) = refl
  keeps-taken (ok t) = owned t.claimed_by
    where
      owned :
          (owner : Option Text)
          → (owner =?? worker_id) ≡ not (elim owner [ none ↦ true | some o ↦ not (o =? worker_id) ])
      owned none = refl
      owned (some o) = ground arith

  lost_ids-cons :
      (i j : ℕ) (ids : List ℕ) (db : Db)
      → contains (lost_ids links held_now worker_id (j ∷ ids) db) i
        ≡ ((i == j && is_lost db j) || contains (lost_ids links held_now worker_id ids db) i)
  unfolding lost_ids contains
  lost_ids-cons i j ids db = ground (arith, keeps-taken (get (links j) j db).1)

  at_self : (i j : ℕ) (db : Db) → (i == j && is_lost db j) ≡ (i == j && is_lost db i)
  at_self i j db = elim (Bool-cases (i == j)) [
    | inl e ↦
        subst (λ x. (i == x && is_lost db x) ≡ (i == x && is_lost db i)) {x = i} (ground arith) refl
    | inr e ↦ ground (arith, e)
  ]

  contains-lost_ids :
      (i : ℕ) (ids : List ℕ) (db : Db)
      → contains (lost_ids links held_now worker_id ids db) i ≡ (contains ids i && is_lost db i)
  unfolding lost_ids contains
  contains-lost_ids i [] db = refl
  contains-lost_ids i (j ∷ ids) db =
      ground (arith, lost_ids-cons i j ids db, at_self i j db, contains-lost_ids i ids db)

-- When a heartbeat of the claims in flight is answered, the dispatches that are cancelled are, if fewer
-- rows were refreshed than ids were sent, those of the sent ids whose row can be read, has not the
-- worker as its owner, and is still in flight; otherwise none.
pub heartbeat_once_lem :
    (pg : Postgres) (link : Link) (links : ℕ → Link) (held_now : ℕ → Bool) (now : ℕ) (ids : List ℕ)
    (worker_id : Text) (db : Db) (refreshed i : ℕ)
    → (heartbeat pg link now ids worker_id db).1 ≡ ok refreshed
    → contains (heartbeat_once pg link links held_now now ids worker_id db).1 i ≡ (
        not (refreshed == length ids)
        && (contains ids i
            && is_lost links held_now worker_id (heartbeat pg link now ids worker_id db).0 i))
unfolding heartbeat_once heartbeat after_heartbeat contains
heartbeat_once_lem pg link links held_now now [] worker_id db refreshed i e = ground (arith, e)
heartbeat_once_lem pg link links held_now now (j ∷ ids) worker_id db refreshed i e =
    rw (e, heartbeat_once)
      (ground (
        arith,
        contains-lost_ids links held_now worker_id i (j ∷ ids)
            (heartbeat pg link now (j ∷ ids) worker_id db).0,
      ))
