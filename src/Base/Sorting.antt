-- ===== src/Base/Sorting.antt =====
-- An insertion sort by a test that decides a transitive relation or its converse.
use tick.Base.{
  ◌≡◌, refl, inl, inr, Bool, true, false, List, [], ◌∷◌, Permᴰ, All, if◌then◌else◌, Bool-cases,
}
use mathlib.Core.List.Permᴰ

module _ {A : Type 0} (test : A → A → Bool) where
  unfoldable pub insert : A → List A → List A
  insert t [] = t ∷ []
  insert t (u ∷ us) = let rest = insert t us in if test t u then t ∷ u ∷ us else u ∷ rest

  -- Elements with equal keys keep their order.
  unfoldable pub insertion_sort : List A → List A
  unfolding insert
  insertion_sort [] = []
  insertion_sort (t ∷ ts) = insert t (insertion_sort ts)

  insert-perm : (t : A) (us : List A) → Permᴰ (insert t us) (t ∷ us)
  unfolding insert
  insert-perm t [] = Permᴰ.refl (t ∷ [])
  insert-perm t (u ∷ us) = elim (Bool-cases (test t u)) [
    | inl e ↦ rw e (Permᴰ.refl (t ∷ u ∷ us))
    | inr e ↦ rw e (Permᴰ.trans (Permᴰ.cons refl (insert-perm t us)) (Permᴰ.swap refl refl))
  ]

  pub insertion_sort-perm : (ts : List A) → Permᴰ (insertion_sort ts) ts
  unfolding insertion_sort
  insertion_sort-perm [] = Permᴰ.refl []
  insertion_sort-perm (t ∷ ts) =
      Permᴰ.trans (insert-perm t (insertion_sort ts)) (Permᴰ.cons refl (insertion_sort-perm ts))

  All-insert {κ} : (P : A → Type κ) (t : A) (us : List A) → P t → All P us → All P (insert t us)
  unfolding insert
  All-insert P t [] p h = (p, tt)
  All-insert P t (u ∷ us) p h = elim (Bool-cases (test t u)) [
    | inl e ↦ rw e (p, h)
    | inr e ↦ rw e (h.0, All-insert P t us p h.1)
  ]

  module _ (R : A → A → Type 0) (keeps : (t u : A) → test t u ≡ true → R t u)
      (turns : (t u : A) → test t u ≡ false → R u t)
      (trans : (t u v : A) → R t u → R u v → R t v) where
    abbrev pub IsSorted : List A → Type 0
    IsSorted [] = Unit
    IsSorted (t ∷ ts) = All (R t) ts × IsSorted ts

    All-trans : (t u : A) (us : List A) → R t u → All (R u) us → All (R t) us
    All-trans t u [] p h = tt
    All-trans t u (v ∷ vs) p h = (trans t u v p h.0, All-trans t u vs p h.1)

    insert-IsSorted : (t : A) (us : List A) → IsSorted us → IsSorted (insert t us)
    unfolding insert
    insert-IsSorted t [] h = (tt, tt)
    insert-IsSorted t (u ∷ us) h = elim (Bool-cases (test t u)) [
      | inl e ↦ let p = keeps t u e in rw e ((p, All-trans t u us p h.0), h)
      | inr e ↦ rw e (All-insert (R u) t us (turns t u e) h.0, insert-IsSorted t us h.1)
    ]

    pub insertion_sort-IsSorted : (ts : List A) → IsSorted (insertion_sort ts)
    unfolding insertion_sort
    insertion_sort-IsSorted [] = tt
    insertion_sort-IsSorted (t ∷ ts) =
        insert-IsSorted t (insertion_sort ts) (insertion_sort-IsSorted ts)
