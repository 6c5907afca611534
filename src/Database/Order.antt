-- ===== src/Database/Order.antt =====
-- An insertion sort that meets what the claim statement asks of ORDER BY priority DESC, run_at: the
-- parameter of the model can be given.
use tick.Base.{◌+◌, ◌≡◌, Bool, true, false, ◌||◌, ◌&&◌, some, List, [], ◌∷◌, arith, Permᴰ, leb}
use tick.Base.Sorting
use tick.Base.Int.{ℤ, ltb_ℤ, leb_ℤ, pos_part, neg_part}
use tick.Domain.{Task}
use tick.Database.{Precedes, IsOrdered, Postgres}

precedes : Task → Task → Bool
precedes t u = ltb_ℤ u.priority t.priority || (leb_ℤ u.priority t.priority && leb t.run_at u.run_at)

ℤ-eq : (a b : ℤ) → pos_part a + neg_part b ≡ pos_part b + neg_part a → a ≡ b
ℤ-eq a b h = ground arith

precedes-true : (t u : Task) → precedes t u ≡ true → Precedes t u
unfolding precedes
precedes-true t u h = ground (arith, ℤ-eq t.priority u.priority)

precedes-false : (t u : Task) → precedes t u ≡ false → Precedes u t
unfolding precedes
precedes-false t u h = ground (arith, ℤ-eq u.priority t.priority)

pub Precedes-trans : (t u v : Task) → Precedes t u → Precedes u v → Precedes t v
Precedes-trans t u v p q = ground (arith, ℤ-eq t.priority v.priority)

-- By priority, highest first, then by run_at; rows with equal keys keep their order.
unfoldable pub insertion_sort : List Task → List Task
unfolding precedes Sorting.insertion_sort
insertion_sort ts = Sorting.insertion_sort precedes ts

from_sorted :
    (ts : List Task)
    → Sorting.IsSorted precedes Precedes precedes-true precedes-false Precedes-trans ts
    → IsOrdered ts
from_sorted [] h = tt
from_sorted (t ∷ ts) h = (h.0, from_sorted ts h.1)

pub insertion_sort-IsOrdered : (ts : List Task) → IsOrdered (insertion_sort ts)
unfolding insertion_sort
insertion_sort-IsOrdered ts = from_sorted (Sorting.insertion_sort precedes ts) (
    Sorting.insertion_sort-IsSorted precedes Precedes precedes-true precedes-false Precedes-trans
      ts)

pub insertion_sort-perm : (ts : List Task) → Permᴰ (insertion_sort ts) ts
unfolding insertion_sort
insertion_sort-perm ts = Sorting.insertion_sort-perm precedes ts

-- A database that takes every text and stores documents as they are.
abbrev pub plain_postgres : Postgres
plain_postgres = record {
  text_ok = λ _. true;
  to_jsonb = λ p. some p;
  order_by = insertion_sort;
  order_by-perm = insertion_sort-perm;
  order_by-IsOrdered = insertion_sort-IsOrdered;
}
