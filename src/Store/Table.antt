-- ===== src/Store/Table.antt =====
-- The invariant of the tasks table, and that an UPDATE which keeps its rows sound, and what was
-- submitted, keeps it.
use tick.Base.{
  ℕ, ◌+◌, ◌≤◌, ◌<◌, ◌≡◌, refl, inl, inr, Bool, true, false, Option, some, none, List, [], ◌∷◌, ◌++◌,
  Text, arith, All, update, find, ◌∙◌, ap, ◌==◌, Bool-cases, ◌=?◌, Option-cases, if◌then◌else◌,
}
use mathlib.Core.Option
use tick.Base.Rows.{find-update, All-append, All-update_in, All-map, All-of, All-both}
use tick.Domain.{Task}
use tick.Database.Checks.{has_key, conflict}
use tick.Store.{has_id}
use tick.Store.Rows.{IsSoundRow}
use tick.Store.Rows.Identity.{IsSameTask, IsSameTask-refl}

-- The ids ascend from `lo` and stay below `next`.
abbrev pub IsAscending : ℕ → ℕ → List Task → Type 0
IsAscending lo next [] = lo ≤ next
IsAscending lo next (t ∷ ts) = lo ≤ t.id × (t.id < next) × IsAscending (t.id + 1) next ts

-- Two rows with the same queue and the same key, which the unique index forbids.
abbrev pub clashes : Option Text → Text → Task → Bool
clashes none queue u = false
clashes (some key) queue u = has_key queue key u

abbrev pub IsApart : Task → Task → Type 0
IsApart t u = clashes t.idempotency_key t.queue u ≡ false

abbrev pub IsUnique : List Task → Type 0
IsUnique [] = Unit
IsUnique (t ∷ ts) = All (IsApart t) ts × IsUnique ts

pub record IsTable (next : ℕ) (ts : List Task) : Type 0 where
  pub rows : All IsSoundRow ts
  pub ascending : IsAscending 0 next ts
  pub unique : IsUnique ts

IsAscending-update :
    (p : Task → Bool) (f : Task → Task) (lo next : ℕ) (ts : List Task)
    → ((t : Task) → IsSameTask t (f t))
    → IsAscending lo next ts
    → IsAscending lo next (update p f ts)
unfolding update
IsAscending-update p f lo next [] keep h = h
IsAscending-update p f lo next (t ∷ ts) keep h = elim (Bool-cases (p t)) [
  | inl e ↦ rw (e, (keep t).same_id) (h.0, h.1, IsAscending-update p f (t.id + 1) next ts keep h.2)
  | inr e ↦ rw e (h.0, h.1, IsAscending-update p f (t.id + 1) next ts keep h.2)
]

IsApart-same : (t t' u u' : Task) → IsSameTask t t' → IsSameTask u u' → IsApart t u → IsApart t' u'
IsApart-same t t' u u' p q h = ground arith

changed-IsSameTask :
    (p : Task → Bool) (f : Task → Task) (t : Task)
    → ((t : Task) → IsSameTask t (f t))
    → IsSameTask t (if p t then f t else t)
changed-IsSameTask p f t keep = elim (Bool-cases (p t)) [
  | inl e ↦ rw e (keep t)
  | inr e ↦ rw e (IsSameTask-refl t)
]

All-IsApart-update :
    (p : Task → Bool) (f : Task → Task) (t t' : Task) (ts : List Task)
    → ((u : Task) → IsSameTask u (f u))
    → IsSameTask t t'
    → All (IsApart t) ts
    → All (IsApart t') (update p f ts)
unfolding update
All-IsApart-update p f t t' [] keep k h = tt
All-IsApart-update p f t t' (u ∷ us) keep k h = (
  IsApart-same t t' u (if p u then f u else u) k (changed-IsSameTask p f u keep) h.0,
  All-IsApart-update p f t t' us keep k h.1,
)

IsUnique-update :
    (p : Task → Bool) (f : Task → Task) (ts : List Task)
    → ((t : Task) → IsSameTask t (f t))
    → IsUnique ts
    → IsUnique (update p f ts)
unfolding update
IsUnique-update p f [] keep h = tt
IsUnique-update p f (t ∷ ts) keep h = (
  All-IsApart-update p f t (if p t then f t else t) ts keep (changed-IsSameTask p f t keep) h.0,
  IsUnique-update p f ts keep h.1,
)

-- The rule for every UPDATE of the store.
pub update-IsTable_in :
    (p : Task → Bool) (f : Task → Task) (next : ℕ) (ts : List Task)
    → ((t : Task) → IsSameTask t (f t))
    → All (λ t. p t ≡ true → IsSoundRow t → IsSoundRow (f t)) ts
    → IsTable next ts
    → IsTable next (update p f ts)
update-IsTable_in p f next ts keep sound h = record {
  rows = All-update_in IsSoundRow p f ts sound h.rows;
  ascending = IsAscending-update p f 0 next ts keep h.ascending;
  unique = IsUnique-update p f ts keep h.unique;
}

pub update-IsTable :
    (p : Task → Bool) (f : Task → Task) (next : ℕ) (ts : List Task)
    → ((t : Task) → IsSameTask t (f t))
    → ((t : Task) → p t ≡ true → IsSoundRow t → IsSoundRow (f t))
    → IsTable next ts
    → IsTable next (update p f ts)
update-IsTable p f next ts keep sound h = update-IsTable_in p f next ts keep (All-of _ ts sound) h

IsAscending-snoc :
    (lo next : ℕ) (ts : List Task) (r : Task)
    → r.id ≡ next
    → IsAscending lo next ts
    → IsAscending lo (next + 1) (ts ++ r ∷ [])
IsAscending-snoc lo next [] r e h = omega arith
IsAscending-snoc lo next (t ∷ ts) r e h =
    (h.0, omega arith, IsAscending-snoc (t.id + 1) next ts r e h.2)

IsAscending-le :
    (lo next next' : ℕ) (ts : List Task)
    → next ≤ next'
    → IsAscending lo next ts
    → IsAscending lo next' ts
IsAscending-le lo next next' [] le h = omega arith
IsAscending-le lo next next' (t ∷ ts) le h =
    (h.0, omega arith, IsAscending-le (t.id + 1) next next' ts le h.2)

find-none :
    (q : Task → Bool) (t : Task) (ts : List Task)
    → find q (t ∷ ts) ≡ none
    → (q t ≡ false) × (find q ts ≡ none)
unfolding find
find-none q t ts h = ground arith

keyless-IsApart : (t r : Task) → r.idempotency_key ≡ none → IsApart t r
keyless-IsApart t r e = ground arith

=?-comm : (s t : Text) → (s =? t) ≡ (t =? s)
unfolding ◌=?◌
=?-comm [] [] = refl
=?-comm [] (y ∷ ys) = refl
=?-comm (x ∷ xs) [] = refl
=?-comm (x ∷ xs) (y ∷ ys) = ground (arith, =?-comm xs ys)

has_key-IsApart :
    (t r : Task) (key : Text)
    → r.idempotency_key ≡ some key
    → has_key r.queue key t ≡ false
    → IsApart t r
has_key-IsApart t r key e h = elim (Option-cases t.idempotency_key) [
  | inl n ↦ rw n refl
  | inr (key', n) ↦ rw (n, e) (ground (arith, =?-comm r.queue t.queue, =?-comm key key', h, n))
]

-- A row without a conflict is apart from every row.
conflict-IsApart :
    (r t : Task) (ts : List Task)
    → conflict r (t ∷ ts) ≡ none
    → IsApart t r × (conflict r ts ≡ none)
unfolding conflict find
conflict-IsApart r t ts h = elim (Option-cases r.idempotency_key) [
  | inl e ↦ (keyless-IsApart t r e, rw e)
  | inr (key, e) ↦
      let (apart, rest) = find-none (has_key r.queue key) t ts (rw e at h) in
      (has_key-IsApart t r key e apart, rw e rest)
]

IsUnique-snoc :
    (ts : List Task) (r : Task) → conflict r ts ≡ none → IsUnique ts → IsUnique (ts ++ r ∷ [])
IsUnique-snoc [] r c h = (tt, tt)
IsUnique-snoc (t ∷ ts) r c h =
    let (apart, rest) = conflict-IsApart r t ts c in
    (All-append (IsApart t) ts (r ∷ []) h.0 (apart, tt), IsUnique-snoc ts r rest h.1)

pub insert-IsTable :
    (next : ℕ) (ts : List Task) (r : Task)
    → r.id ≡ next
    → IsSoundRow r
    → conflict r ts ≡ none
    → IsTable next ts
    → IsTable (next + 1) (ts ++ r ∷ [])
insert-IsTable next ts r e s c h = record {
  rows = All-append IsSoundRow ts (r ∷ []) h.rows (s, tt);
  ascending = IsAscending-snoc 0 next ts r e h.ascending;
  unique = IsUnique-snoc ts r c h.unique;
}

-- Ids that are drawn and not used leave gaps.
pub IsTable-le :
    (next next' : ℕ) (ts : List Task) → next ≤ next' → IsTable next ts → IsTable next' ts
IsTable-le next next' ts le h = record {
  rows = h.rows;
  ascending = IsAscending-le 0 next next' ts le h.ascending;
  unique = h.unique;
}

pub IsAscending-lo :
    (lo lo' next : ℕ) (ts : List Task)
    → lo' ≤ lo
    → IsAscending lo next ts
    → All (λ t. lo' ≤ t.id) ts
IsAscending-lo lo lo' next [] le h = tt
IsAscending-lo lo lo' next (t ∷ ts) le h =
    (omega arith, IsAscending-lo (t.id + 1) lo' next ts (omega arith) h.2)

find-later :
    (t u : Task) (ts : List Task)
    → t.id + 1 ≤ u.id
    → find (has_id u.id) ts ≡ some u
    → find (has_id u.id) (t ∷ ts) ≡ some u
unfolding find
find-later t u ts le h = ground arith

-- The id of a row finds that row.
pub find-row :
    (lo next : ℕ) (ts : List Task)
    → IsAscending lo next ts
    → All (λ t. find (has_id t.id) ts ≡ some t) ts
find-row lo next [] h = tt
find-row lo next (t ∷ ts) h = (
  unfold find in ground arith,
  All-map _ ts
      (λ u (both : (t.id + 1 ≤ u.id) × (find (has_id u.id) ts ≡ some u)).
        find-later t u ts both.0 both.1)
      (All-both _ _ ts (IsAscending-lo (t.id + 1) (t.id + 1) next ts (omega arith) h.2)
        (find-row (t.id + 1) next ts h.2)),
)

-- An UPDATE changes the row in place, if its test holds of the row.
pub row-update :
    (p : Task → Bool) (f : Task → Task) (ts : List Task) (i : ℕ) (t : Task)
    → ((u : Task) → IsSameTask u (f u))
    → find (has_id i) ts ≡ some t
    → find (has_id i) (update p f ts) ≡ some (if p t then f t else t)
row-update p f ts i t keep e =
    find-update (has_id i) p f ts (λ a. ap (λ (n : ℕ). n == i) (keep a).same_id)
    ∙ ap (Option.map (λ a. if p a then f a else a)) e
