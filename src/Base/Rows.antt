-- ===== src/Base/Rows.antt =====
-- Laws of SELECT, UPDATE and of a query on a unique column.
use tick.Base.{
  ℕ, zero, suc, take, Permᴰ, sym, ◌≡◌, refl, ◌≤◌, Bool, true, some, List, [], ◌∷◌, ◌++◌, subst,
  arith, length, All, select, update, find, if◌then◌else◌, Bool-cases, inl, inr,
}
use mathlib.Core.Option

module _ {ℓ κ} {A : Type ℓ} (P : A → Type κ) where
  pub All-append : (xs ys : List A) → All P xs → All P ys → All P (xs ++ ys)
  All-append [] ys hx hy = hy
  All-append (x ∷ xs) ys hx hy = (hx.0, All-append xs ys hx.1 hy)

  pub All-update :
      (p : A → Bool) (f : A → A) (xs : List A)
      → ((a : A) → p a ≡ true → P a → P (f a))
      → All P xs
      → All P (update p f xs)
  unfolding update
  All-update p f [] keep h = tt
  All-update p f (x ∷ xs) keep h = elim (Bool-cases (p x)) [
    | inl e ↦ rw e (keep x e h.0, All-update p f xs keep h.1)
    | inr e ↦ rw e (h.0, All-update p f xs keep h.1)
  ]

  pub All-map {μ} : {Q : A → Type μ} (xs : List A) → ((a : A) → P a → Q a) → All P xs → All Q xs
  All-map [] f h = tt
  All-map (x ∷ xs) f h = (f x h.0, All-map xs f h.1)

  pub All-of : (xs : List A) → ((a : A) → P a) → All P xs
  All-of [] f = tt
  All-of (x ∷ xs) f = (f x, All-of xs f)

  pub All-take : (n : ℕ) (xs : List A) → All P xs → All P (take n xs)
  unfolding take
  All-take zero xs h = tt
  All-take (suc n) [] h = tt
  All-take (suc n) (x ∷ xs) h = (h.0, All-take n xs h.1)

  pub All-perm : {xs ys : List A} → Permᴰ xs ys → All P ys → All P xs
  All-perm Permᴰ.nil h = tt
  All-perm (Permᴰ.cons e q) h = (subst P (sym e) h.0, All-perm q h.1)
  All-perm (Permᴰ.swap e e') h = (subst P (sym e) h.1.0, (subst P (sym e') h.0, h.1.1))
  All-perm (Permᴰ.trans q q') h = All-perm q (All-perm q' h)

  pub All-select : (p : A → Bool) (xs : List A) → All P xs → All P (select p xs)
  unfolding select
  All-select p [] h = tt
  All-select p (x ∷ xs) h = elim (Bool-cases (p x)) [
    | inl e ↦ rw e (h.0, All-select p xs h.1)
    | inr e ↦ rw e (All-select p xs h.1)
  ]

  pub All-find : (p : A → Bool) (xs : List A) {a : A} → All P xs → find p xs ≡ some a → P a
  unfolding find
  All-find p [] h e = ground arith
  All-find p (x ∷ xs) {a} h e = elim (Bool-cases (p x)) [
    | inl t ↦ let same : x ≡ a = cc (t, e) in subst P same h.0
    | inr t ↦ All-find p xs h.1 (rw t at e)
  ]

module _ {ℓ} {A : Type ℓ} where
  pub select-All : (p : A → Bool) (xs : List A) → All (λ a. p a ≡ true) (select p xs)
  unfolding select
  select-All p [] = tt
  select-All p (x ∷ xs) = elim (Bool-cases (p x)) [
    | inl e ↦ rw e (e, select-All p xs)
    | inr e ↦ rw e (select-All p xs)
  ]

  pub length-select : (p : A → Bool) (xs : List A) → length (select p xs) ≤ length xs
  unfolding select
  length-select p [] = omega arith
  length-select p (x ∷ xs) = ground (arith, length-select p xs)

  pub length-update : (p : A → Bool) (f : A → A) (xs : List A) → length (update p f xs) ≡ length xs
  unfolding update
  length-update p f [] = refl
  length-update p f (x ∷ xs) = ground (arith, length-update p f xs)

  -- An UPDATE that leaves the column alone that `q` reads changes the row that `q` finds in place.
  pub find-update :
      (q p : A → Bool) (f : A → A) (xs : List A)
      → ((a : A) → q (f a) ≡ q a)
      → find q (update p f xs) ≡ Option.map (λ a. if p a then f a else a) (find q xs)
  unfolding find update
  find-update q p f [] keep = refl
  find-update q p f (x ∷ xs) keep = ground (arith, keep x, find-update q p f xs keep)

  pub find_self : (q : A → Bool) (xs : List A) (a : A) → find q xs ≡ some a → q a ≡ true
  unfolding find
  find_self q [] a e = ground arith
  find_self q (x ∷ xs) a e = ground (arith, find_self q xs a)

  -- A row that still satisfies the test after an UPDATE is one that the UPDATE wrote.
  pub update-marks {κ} :
      (P : A → Type κ) (p : A → Bool) (f : A → A) (xs : List A)
      → ((a : A) → P (f a))
      → All (λ a. p a ≡ true → P a) (update p f xs)
  unfolding update
  update-marks P p f [] h = tt
  update-marks P p f (x ∷ xs) h = elim (Bool-cases (p x)) [
    | inl e ↦ rw e ((λ _. h x), update-marks P p f xs h)
    | inr e ↦ rw e ((λ t. cc), update-marks P p f xs h)
  ]

  -- An UPDATE that matches no row changes nothing.
  pub update-select_nil :
      (p : A → Bool) (f : A → A) (xs : List A) → select p xs ≡ [] → update p f xs ≡ xs
  unfolding select update
  update-select_nil p f [] h = refl
  update-select_nil p f (x ∷ xs) h = ground (arith, update-select_nil p f xs)

  pub All-both {κ μ} :
      (P : A → Type κ) (Q : A → Type μ) (xs : List A)
      → All P xs
      → All Q xs
      → All (λ a. P a × Q a) xs
  All-both P Q [] h k = tt
  All-both P Q (x ∷ xs) h k = ((h.0, k.0), All-both P Q xs h.1 k.1)

  pub All-update_in {κ} :
      (P : A → Type κ) (p : A → Bool) (f : A → A) (xs : List A)
      → All (λ a. p a ≡ true → P a → P (f a)) xs
      → All P xs
      → All P (update p f xs)
  unfolding update
  All-update_in P p f [] keep h = tt
  All-update_in P p f (x ∷ xs) keep h = elim (Bool-cases (p x)) [
    | inl e ↦ rw e (keep.0 e h.0, All-update_in P p f xs keep.1 h.1)
    | inr e ↦ rw e (h.0, All-update_in P p f xs keep.1 h.1)
  ]

  -- Rows that are appended do not hide a row that was found.
  pub find-append :
      (q : A → Bool) (xs ys : List A) (a : A) → find q xs ≡ some a → find q (xs ++ ys) ≡ some a
  unfolding find
  find-append q [] ys a e = ground arith
  find-append q (x ∷ xs) ys a e = ground (arith, find-append q xs ys a)

  pub find_another :
      (p q : A → Bool) (xs : List A) (a : A)
      → find p xs ≡ some a
      → q a ≡ true
      → (b : A) × (find q xs ≡ some b)
  unfolding find
  find_another p q [] a e h = absurd (cc)
  find_another p q (x ∷ xs) a e h = elim (Bool-cases (q x)) [
    | inl t ↦ (x, rw t refl)
    | inr n ↦ elim (Bool-cases (p x)) [
      | inl t ↦ absurd (cc (rw t at e, h, n))
      | inr m ↦ let (b, f) = find_another p q xs a (rw m at e) h in (b, rw n f)
    ]
  ]

module _ {ℓ} {A : Type ℓ} where
  pub append-eq-nil : (xs ys : List A) → xs ++ ys ≡ [] → (xs ≡ []) × (ys ≡ [])
  append-eq-nil [] ys e = (refl, e)
  append-eq-nil (x ∷ xs) ys e = absurd (cc)
