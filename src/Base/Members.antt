-- ===== src/Base/Members.antt =====
-- Membership in a list as a sum, and how it passes through the list operations of a query.
use tick.Base.{
  ◌+◌, ◌≤◌, ◌≡◌, refl, sym, ◌∙◌, ◌⊎◌, inl, inr, Bool, true, ◌||◌, some, List, [], ◌∷◌, arith, Permᴰ,
  All, subst, select, find, Bool-cases, length,
}

module _ {A : Type 0} where
  abbrev pub In : A → List A → Type 0
  In a [] = ⊥
  In a (x ∷ xs) = (a ≡ x) ⊎ In a xs

  pub All-In {κ} : (P : A → Type κ) (a : A) (xs : List A) → All P xs → In a xs → P a
  All-In P a [] h m = absurd m
  All-In P a (x ∷ xs) h (inl e) = subst P (sym e) h.0
  All-In P a (x ∷ xs) h (inr m) = All-In P a xs h.1 m

  pub In-perm : (a : A) {xs ys : List A} → Permᴰ xs ys → In a ys → In a xs
  In-perm a Permᴰ.nil m = m
  In-perm a (Permᴰ.cons e q) (inl f) = inl (f ∙ sym e)
  In-perm a (Permᴰ.cons e q) (inr m) = inr (In-perm a q m)
  In-perm a (Permᴰ.swap e e') (inl f) = inr (inl (f ∙ sym e'))
  In-perm a (Permᴰ.swap e e') (inr (inl f)) = inl (f ∙ sym e)
  In-perm a (Permᴰ.swap e e') (inr (inr m)) = inr (inr m)
  In-perm a (Permᴰ.trans q q') m = In-perm a q (In-perm a q' m)

  pub length-perm : {xs ys : List A} → Permᴰ xs ys → length xs ≡ length ys
  length-perm Permᴰ.nil = refl
  length-perm (Permᴰ.cons e q) = omega (arith, length-perm q)
  length-perm (Permᴰ.swap e e') = refl
  length-perm (Permᴰ.trans q q') = length-perm q ∙ length-perm q'

  pub In-select : (q : A → Bool) (a : A) (xs : List A) → q a ≡ true → In a xs → In a (select q xs)
  unfolding select
  In-select q a [] h m = m
  In-select q a (x ∷ xs) h (inl e) = rw (← e, h) (inl refl)
  In-select q a (x ∷ xs) h (inr m) = elim (Bool-cases (q x)) [
    | inl t ↦ rw t (inr (In-select q a xs h m))
    | inr t ↦ rw t (In-select q a xs h m)
  ]

  pub In-find : (q : A → Bool) (a : A) (xs : List A) → find q xs ≡ some a → In a xs
  unfolding find
  In-find q a [] e = cc
  In-find q a (x ∷ xs) e = elim (Bool-cases (q x)) [
    | inl t ↦ inl (cc (t, e))
    | inr t ↦ inr (In-find q a xs (rw t at e))
  ]

  pub length-select_or :
      (p q : A → Bool) (xs : List A)
      → length (select (λ x. p x || q x) xs) ≤ length (select p xs) + length (select q xs)
  unfolding select
  length-select_or p q [] = omega arith
  length-select_or p q (x ∷ xs) = ground (arith, length-select_or p q xs)
