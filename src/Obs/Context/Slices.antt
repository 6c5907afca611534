-- ===== src/Obs/Context/Slices.antt =====
-- Go slices of attributes: arrays, make, append and reading.
use mathlib.Core.List.{append_assoc}
use tick.Base.{
  ℕ, zero, suc, ◌+◌, ◌-◌, ◌≤◌, ◌≡◌, refl, ap, arith, leb, List, [], ◌∷◌, ◌++◌, length, take,
  if◌then◌else◌, length-append, length-take, Bool-cases, ◌⊎◌, inl, inr,
}
use tick.Obs.{Attr, nil_value}

abbrev pub Memory : Type 0
Memory = List (List Attr)

pub record Slice : Type 0 where
  pub base : ℕ
  pub start : ℕ
  pub len : ℕ
  pub cap : ℕ

abbrev pub drop : ℕ → List Attr → List Attr
drop zero xs = xs
drop (suc n) [] = []
drop (suc n) (x ∷ xs) = drop n xs

abbrev pub blank : ℕ → List Attr
blank zero = []
blank (suc n) = record { key = []; value = nil_value } ∷ blank n

-- The cells of an array.
abbrev pub cells : ℕ → Memory → List Attr
cells i [] = []
cells zero (a ∷ mem) = a
cells (suc i) (a ∷ mem) = cells i mem

abbrev pub set_cells : ℕ → List Attr → Memory → Memory
set_cells i v [] = []
set_cells zero v (a ∷ mem) = v ∷ mem
set_cells (suc i) v (a ∷ mem) = a ∷ set_cells i v mem

unfoldable pub read : Slice → Memory → List Attr
unfolding take
read s mem = take s.len (drop s.start (cells s.base mem))

-- `xs` written over the cells from an index on.
unfoldable pub overwrite : ℕ → List Attr → List Attr → List Attr
overwrite i xs [] = []
overwrite zero [] (c ∷ cs) = c ∷ cs
overwrite zero (x ∷ xs) (c ∷ cs) = x ∷ overwrite zero xs cs
overwrite (suc i) xs (c ∷ cs) = c ∷ overwrite i xs cs

unfoldable pub make : ℕ → Memory → Slice × Memory
make cap mem = (record { base = length mem; start = 0; len = 0; cap = cap }, mem ++ blank cap ∷ [])

-- append writes in place where the capacity allows, and else moves the slice.
unfoldable pub append : (ℕ → ℕ) → Slice → List Attr → Memory → Slice × Memory
unfolding read overwrite
append spare s xs mem =
    let n = s.len + length xs in
    if leb n s.cap
    then (
      record s { len = n },
      set_cells s.base (overwrite (s.start + s.len) xs (cells s.base mem)) mem,
    )
    else (
      record { base = length mem; start = 0; len = n; cap = n + spare n },
      mem ++ (read s mem ++ (xs ++ blank (spare n))) ∷ [],
    )

-- The slice lies in its array.
pub record IsSlice (s : Slice) (mem : Memory) : Type 0 where
  pub fits : s.len ≤ s.cap
  pub lies : s.start + s.cap ≤ length (cells s.base mem)

pub cells-append_at : (mem : Memory) (a : List Attr) → cells (length mem) (mem ++ a ∷ []) ≡ a
cells-append_at [] a = refl
cells-append_at (b ∷ mem) a = cells-append_at mem a

pub set_cells-append_at :
    (mem : Memory) (a v : List Attr) → set_cells (length mem) v (mem ++ a ∷ []) ≡ mem ++ v ∷ []
set_cells-append_at [] a v = refl
set_cells-append_at (b ∷ mem) a v = ap (λ t. b ∷ t) (set_cells-append_at mem a v)

pub take_all : (xs : List Attr) → take (length xs) xs ≡ xs
unfolding take
take_all [] = refl
take_all (x ∷ xs) = ap (λ t. x ∷ t) (take_all xs)

length-drop : (n : ℕ) (xs : List Attr) → length (drop n xs) ≡ length xs - n
length-drop zero xs = omega arith
length-drop (suc n) [] = omega arith
length-drop (suc n) (x ∷ xs) = omega (arith, length-drop n xs)

pub length-read : (s : Slice) (mem : Memory) → IsSlice s mem → length (read s mem) ≡ s.len
unfolding read
length-read s mem v = omega (
  arith,
  length-take s.len (drop s.start (cells s.base mem)),
  length-drop s.start (cells s.base mem),
  v.fits,
  v.lies,
)

blank-add : (m n : ℕ) → blank (m + n) ≡ blank m ++ blank n
blank-add zero n = let e : 0 + n ≡ n = omega arith in rw e refl
blank-add (suc m) n =
    let e : suc m + n ≡ suc (m + n) = omega arith in
    rw e (ap (λ t. record { key = []; value = nil_value } ∷ t) (blank-add m n))

length-blank : (n : ℕ) → length (blank n) ≡ n
length-blank zero = omega arith
length-blank (suc n) = omega (arith, length-blank n)

overwrite_same_length :
    (xs ys zs ws : List Attr)
    → length zs ≡ length ys
    → overwrite (length xs) ys (xs ++ (zs ++ ws)) ≡ xs ++ (ys ++ ws)
unfolding overwrite
overwrite_same_length [] [] [] [] e = refl
overwrite_same_length [] [] [] (w ∷ ws) e = refl
overwrite_same_length [] [] (z ∷ zs) ws e = absurd (omega arith)
overwrite_same_length [] (y ∷ ys) [] ws e = absurd (omega arith)
overwrite_same_length [] (y ∷ ys) (z ∷ zs) ws e =
    ap (λ t. y ∷ t) (overwrite_same_length [] ys zs ws (omega arith))
overwrite_same_length (x ∷ xs) ys zs ws e = ap (λ t. x ∷ t) (overwrite_same_length xs ys zs ws e)

-- Writing over the blanks that follow `xs`.
pub overwrite-blank :
    (xs ys : List Attr) (m : ℕ)
    → overwrite (length xs) ys (xs ++ blank (length ys + m)) ≡ xs ++ (ys ++ blank m)
overwrite-blank xs ys m =
    rw (blank-add (length ys) m)
      (overwrite_same_length xs ys (blank (length ys)) (blank m) (length-blank (length ys)))

cells_past :
    (i : ℕ) (mem extra : Memory) → (cells i (mem ++ extra) ≡ cells i mem) ⊎ (cells i mem ≡ [])
cells_past i [] extra = inr refl
cells_past zero (a ∷ mem) extra = inl refl
cells_past (suc i) (a ∷ mem) extra = cells_past i mem extra

-- New arrays change no slice.
pub read-append :
    (s : Slice) (mem extra : Memory) → IsSlice s mem → read s (mem ++ extra) ≡ read s mem
unfolding read take
read-append s mem extra v = elim (cells_past s.base mem extra) [
  | inl e ↦ rw e refl
  | inr e ↦ empty_slice e
]
  where
    empty_slice : cells s.base mem ≡ [] → read s (mem ++ extra) ≡ read s mem
    empty_slice e = let n : s.len ≡ 0 = omega (arith, v.fits, v.lies, ap length e) in rw n refl

-- A memory that has grown by new arrays.
abbrev pub Extends : Memory → Memory → Type 0
Extends mem mem' = (extra : Memory) × (mem' ≡ mem ++ extra)

pub Extends-trans : (a b c : Memory) → Extends a b → Extends b c → Extends a c
Extends-trans a b c (x, e) (y, f) = (x ++ y, rw (f, e) (append_assoc a x y))

set_cells_past :
    (i : ℕ) (v : List Attr) (mem extra : Memory)
    → length mem ≤ i
    → Extends mem (set_cells i v (mem ++ extra))
set_cells_past i v [] extra h = (set_cells i v extra, refl)
set_cells_past zero v (a ∷ mem) extra h = absurd (omega arith)
set_cells_past (suc i) v (a ∷ mem) extra h =
    let (more, e) = set_cells_past i v mem extra (omega arith) in (more, ap (λ t. a ∷ t) e)

-- Whatever is appended to a slice whose array is new, the arrays before stay as they were.
pub append-Extends :
    (spare : ℕ → ℕ) (s : Slice) (xs : List Attr) (mem mem' : Memory)
    → length mem ≤ s.base
    → Extends mem mem'
    → Extends mem (append spare s xs mem').1 × (length mem ≤ (append spare s xs mem').0.base)
unfolding append
append-Extends spare s xs mem mem' b (extra, e) =
    elim (Bool-cases (leb (s.len + length xs) s.cap)) [
      | inl t ↦ rw (t, e) (set_cells_past s.base _ mem extra b, b)
      | inr f ↦
          rw (f, e)
            (
              (
                extra ++ (read s (mem ++ extra) ++ (xs ++ blank (spare (s.len + length xs)))) ∷ [],
                append_assoc mem extra _,
              ),
              omega (arith, length-append mem extra),
            )
    ]
