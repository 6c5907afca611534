-- ===== src/Obs/Context.antt =====
-- internal/obs/log.go: With and attrsFromContext, over the memory that their slices share.
--
-- Memory is a list of arrays that are never freed; a slice is an array's index, a length and a
-- capacity. What append leaves free when it has to move a slice is the parameter `spare`.
pub mod Slices
pub mod Siblings
use tick.Base.{
  ℕ, zero, suc, ◌+◌, ◌-◌, ◌==◌, leb, Option, none, some, List, [], ◌∷◌, ◌++◌, length, take,
  if◌then◌else◌,
}
use tick.Obs.{Attr}
use tick.Obs.Context.Slices.{Memory, Slice, make, append, read}

-- A context: context.Background, a value under this package's key, or one that another key, a
-- deadline or a cancellation wraps.
pub data Context : Type 0 where
  background : Context
  with_value : (attrs : Slice) (parent : Context) → Context
  wrapped : (parent : Context) → Context

unfoldable pub nil_slice : Slice
nil_slice = record { base = 0; start = 0; len = 0; cap = 0 }

-- ctx.Value: the innermost value of the key.
unfoldable pub context_value : Context → Option Slice
context_value background = none
context_value (with_value attrs parent) = some attrs
context_value (wrapped parent) = context_value parent

abbrev pub or_nil : Option Slice → Slice
or_nil none = nil_slice
or_nil (some s) = s

-- `none` is a nil context.
unfoldable pub attrs_from_context : Option Context → Slice
unfolding context_value nil_slice
attrs_from_context none = nil_slice
attrs_from_context (some ctx) = or_nil (context_value ctx)

module _ (spare : ℕ → ℕ) where
  -- The slice that With makes.
  unfoldable pub merged : Slice → Slice → Memory → Slice × Memory
  unfolding make append
  merged existing attrs mem =
      let (empty, mem1) = make (existing.len + attrs.len) mem in
      let (half, mem2) = append spare empty (read existing mem1) mem1 in
      append spare half (read attrs mem2) mem2

  unfoldable pub with : Context → Slice → Memory → Context × Memory
  unfolding merged attrs_from_context
  with ctx attrs mem =
      if attrs.len == 0
      then (ctx, mem)
      else let (s, mem') = merged (attrs_from_context (some ctx)) attrs mem in
        (with_value s ctx, mem')
