-- ===== src/Base/Tests.antt =====
-- Boolean tests on the native numbers and on texts, and the conditional.
use Prim.Native.Nat.{ℕ, ◌≤◌, compare, Ordering}
use Prim.Native.Char.{code}
use Prim.Native.String.{String}
use mathlib.Core.Path.{◌≡◌, refl, ap}
use mathlib.Core.Logic.{◌≢◌, ◌↔◌, ◌⊎◌, inl, inr}
use mathlib.Core.Bool.{Bool, true, false, ◌&&◌}
use mathlib.Core.Option.{Option, none, some}
use mathlib.Core.List.{List, [], ◌∷◌}
use native.Mathlib.Omega.{arith}

abbrev pub ltb : ℕ → ℕ → Bool
ltb a b = elim (compare a b) [ Ordering.lt ↦ true | _ ↦ false ]

abbrev pub leb : ℕ → ℕ → Bool
leb a b = elim (compare a b) [ Ordering.gt ↦ false | _ ↦ true ]

infix 50 ◌==◌
abbrev pub ◌==◌ : ℕ → ℕ → Bool
a == b = elim (compare a b) [ Ordering.eq ↦ true | _ ↦ false ]

infix 1 if◌then◌else◌
abbrev pub if◌then◌else◌ {ℓ} : {A : Type ℓ} → Bool → A → A → A
if true then x else y = x
if false then x else y = y

pub ==_iff : (a b : ℕ) → ((a == b) ≡ true) ↔ (a ≡ b)
==_iff a b = ground arith

pub leb→le : (a b : ℕ) → leb a b ≡ true → a ≤ b
leb→le a b h = ground arith

-- To split on a computed value and keep the equation.
pub Bool-cases : (b : Bool) → (b ≡ true) ⊎ (b ≡ false)
Bool-cases true = inl refl
Bool-cases false = inr refl

pub Option-cases {ℓ} : {A : Type ℓ} (o : Option A) → (o ≡ none) ⊎ ((a : A) × (o ≡ some a))
Option-cases none = inl refl
Option-cases (some a) = inr (a, refl)

abbrev pub is_some {ℓ} : {A : Type ℓ} → Option A → Bool
is_some none = false
is_some (some a) = true

-- A Go string: its bytes.
abbrev pub Text : Type 0
Text = List ℕ

-- The bytes of an ASCII literal.
abbrev pub bytes : String → Text
bytes String.[] = []
bytes (String.◌∷◌ c s) = code c ∷ bytes s

infix 50 ◌=?◌ ◌=??◌
unfoldable pub ◌=?◌ : Text → Text → Bool
[] =? [] = true
[] =? (y ∷ ys) = false
(x ∷ xs) =? [] = false
(x ∷ xs) =? (y ∷ ys) = x == y && xs =? ys

pub =?-refl : (s : Text) → (s =? s) ≡ true
unfolding ◌=?◌
=?-refl [] = refl
=?-refl (x ∷ xs) = ground (arith, =?-refl xs)

pub =?-eq : (s t : Text) → (s =? t) ≡ true → s ≡ t
unfolding ◌=?◌
=?-eq [] [] h = refl
=?-eq [] (y ∷ ys) h = ground arith
=?-eq (x ∷ xs) [] h = ground arith
=?-eq (x ∷ xs) (y ∷ ys) h = ground (arith, =?-eq xs ys)

pub =?_iff : (s t : Text) → ((s =? t) ≡ true) ↔ (s ≡ t)
=?_iff s t = (=?-eq s t, λ e. rw e (=?-refl t))

-- SQL's `column = $n` on a nullable text column: NULL equals nothing.
abbrev pub ◌=??◌ : Option Text → Text → Bool
none =?? t = false
(some s) =?? t = s =? t

pub =??-some : (o : Option Text) (t : Text) → o ≡ some t → (o =?? t) ≡ true
=??-some o t e = rw e (=?-refl t)

pub =??-ne : (o : Option Text) (t : Text) → o ≢ some t → (o =?? t) ≡ false
=??-ne none t h = refl
=??-ne (some s) t h = elim (Bool-cases (s =? t)) [
  | inl e ↦ absurd (h (ap some (=?-eq s t e)))
  | inr e ↦ e
]
