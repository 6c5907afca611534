-- ===== src/Obs/Context/Siblings.antt =====
-- Contexts that are derived from one another by With.
use mathlib.Core.List.{append-nil}
use tick.Base.{
  ℕ, ◌+◌, ◌≡◌, refl, ap, sym, ◌∙◌, arith, leb, some, List, [], ◌∷◌, ◌++◌, length, take,
  length-append, ◌==◌, Bool-cases, inl, inr, true,
}
use tick.Obs.{Attr}
use tick.Obs.Context.{Context, attrs_from_context, merged, with}
use tick.Obs.Context.Slices.{
  Memory, Slice, Extends, Extends-trans, append-Extends, IsSlice, read, make, append, blank,
  cells-append_at, set_cells-append_at, overwrite-blank, read-append, take_all, length-read,
}

-- The attributes that a context shows.
abbrev pub shown : Context → Memory → List Attr
shown ctx mem = read (attrs_from_context (some ctx)) mem

read_none : (s : Slice) (mem : Memory) → (s.len == 0) ≡ true → read s mem ≡ []
unfolding read take
read_none s mem t = let n : s.len ≡ 0 = ground arith in rw n refl

module _ (spare : ℕ → ℕ) where
  -- A slice at the end of the memory, with room for what is appended.
  append_in_place :
      (mem : Memory) (xs ys : List Attr) (m k len cap : ℕ)
      → len ≡ length xs
      → k ≡ length ys + m
      → cap ≡ len + k
      → append spare
          (record { base = length mem; start = 0; len = len; cap = cap })
          ys
          (mem ++ (xs ++ blank k) ∷ [])
        ≡ (
          record { base = length mem; start = 0; len = len + length ys; cap = cap },
          mem ++ (xs ++ (ys ++ blank m)) ∷ [],
        )
  unfolding append
  append_in_place mem xs ys m k len cap l e c =
      let fits : leb (len + length ys) cap ≡ true = ground arith in
      let at : 0 + len ≡ length xs = omega (arith, l) in
      rw (fits, at, e, cells-append_at mem, overwrite-blank xs ys m, set_cells-append_at mem) refl

  module _ (existing attrs : Slice) (mem : Memory) (old : IsSlice existing mem)
      (new : IsSlice attrs mem) where
    abbrev total : ℕ
    total = existing.len + attrs.len

    -- With copies: it adds one array, which holds the old attributes and the new ones.
    merged_lem : merged spare existing attrs mem ≡ (
      record {
        base = length mem;
        start = 0;
        len = 0 + length (read existing mem) + length (read attrs mem);
        cap = total;
      },
      mem ++ (read existing mem ++ (read attrs mem ++ [])) ∷ [],
    )
    unfolding merged make
    merged_lem =
        let m = length-read existing mem old in
        let n = length-read attrs mem new in
        let first =
          append_in_place mem [] (read existing mem) attrs.len total 0 total refl (omega (arith, m))
            (omega arith) in
        let second =
          append_in_place mem (read existing mem) (read attrs mem) 0 attrs.len
            (0 + length (read existing mem)) total (omega arith) (omega (arith, n))
            (omega (arith, m)) in
        rw (read-append existing mem _ old, first, read-append attrs mem _ new, second) refl

    abbrev all : List Attr
    all = read existing mem ++ (read attrs mem ++ [])

    length-all : length all ≡ 0 + length (read existing mem) + length (read attrs mem)
    length-all = omega (
      arith,
      length-append (read existing mem) (read attrs mem ++ []),
      length-append (read attrs mem) [],
    )

    -- The new slice lies in its array, and reads as the old attributes and the new ones.
    merged-IsSlice : IsSlice (merged spare existing attrs mem).0 (merged spare existing attrs mem).1
    merged-IsSlice =
        let m = length-read existing mem old in
        let n = length-read attrs mem new in
        rw merged_lem (record {
          fits = omega (arith, m, n);
          lies = rw (cells-append_at mem all) (omega (arith, m, n, length-all));
        })

    read-merged :
        read (merged spare existing attrs mem).0 (merged spare existing attrs mem).1
        ≡ read existing mem ++ read attrs mem
    unfolding read
    read-merged =
        rw (merged_lem, cells-append_at mem all, ← length-all, take_all all, append-nil) refl

  merged-Extends :
      (existing attrs : Slice) (mem : Memory) → Extends mem (merged spare existing attrs mem).1
  unfolding merged make
  merged-Extends existing attrs mem =
      let (empty, mem1) = make (existing.len + attrs.len) mem in
      let (half, base) =
        append-Extends spare empty (read existing mem1) mem mem1 (omega arith) (_, refl) in
      (append-Extends spare _ _ mem _ base half).0

  with-Extends :
      (ctx : Context) (attrs : Slice) (mem : Memory) → Extends mem (with spare ctx attrs mem).1
  unfolding with
  with-Extends ctx attrs mem = elim (Bool-cases (attrs.len == 0)) [
    | inl none_given ↦ rw none_given ([], sym (append-nil mem))
    | inr given ↦ rw given (merged-Extends (attrs_from_context (some ctx)) attrs mem)
  ]

  -- Calls of With, by whichever goroutines, in the order in which they are made.
  unfoldable pub withs : List (Context × Slice) → Memory → Memory
  unfolding with
  withs [] mem = mem
  withs ((ctx, attrs) ∷ calls) mem = withs calls (with spare ctx attrs mem).1

  withs-Extends : (calls : List (Context × Slice)) (mem : Memory) → Extends mem (withs calls mem)
  unfolding withs
  withs-Extends [] mem = ([], sym (append-nil mem))
  withs-Extends ((ctx, attrs) ∷ calls) mem =
      Extends-trans mem _ _ (with-Extends ctx attrs mem) (withs-Extends calls _)

  read-Extends :
      (s : Slice) {mem mem' : Memory} → IsSlice s mem → Extends mem mem' → read s mem' ≡ read s mem
  read-Extends s {mem} v (extra, e) = rw e (read-append s mem extra v)

  -- A context that With derives shows the attributes of its parent followed by those given, and the
  -- parent shows what it did, both as they were when With was called, after any further calls of
  -- With from whatever contexts. The slices of the parent and of the call must lie in their arrays.
  pub siblings_are_isolated :
      (parent : Context) (attrs : Slice) (calls : List (Context × Slice)) (mem : Memory)
      → IsSlice (attrs_from_context (some parent)) mem
      → IsSlice attrs mem
      → let (child, mem') = with spare parent attrs mem in
        (shown child (withs calls mem') ≡ shown parent mem ++ read attrs mem)
        × (shown parent (withs calls mem') ≡ shown parent mem)
  unfolding with
  siblings_are_isolated parent attrs calls mem old new =
      let existing = attrs_from_context (some parent) in
      elim (Bool-cases (attrs.len == 0)) [
        | inl t ↦ rw t (
            let same = read-Extends existing old (withs-Extends calls mem) in
            (
              same
                  ∙ sym (append-nil _)
                  ∙ ap (λ x. read existing mem ++ x) (sym (read_none attrs mem t)),
              same,
            ))
        | inr f ↦ rw f (
            let (s, mem') = merged spare existing attrs mem in
            (
              read-Extends s (merged-IsSlice existing attrs mem old new) (withs-Extends calls mem')
                  ∙ read-merged existing attrs mem old new,
              read-Extends existing old (
                  Extends-trans mem mem' _ (merged-Extends existing attrs mem)
                    (withs-Extends calls mem')),
            ))
      ]
