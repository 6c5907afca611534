-- ===== src/Cron/Fires.antt =====
-- The fire times that NextN returns.
use tick.Base.{
  ℕ, zero, suc, ◌≤◌, ◌<◌, ◌≡◌, ◌≢◌, refl, inl, inr, false, Option, none, some, List, [], ◌∷◌, Text,
  arith, length, Bool-cases, Option-cases, ==_iff, =?_iff,
}
use tick.Cron.{Robfig, Zone, fires, skipped, round_trips, cons_fire}

-- Strictly later than `t`, and strictly ascending.
abbrev pub IsRising : ℕ → List ℕ → Type 0
IsRising t [] = Unit
IsRising t (u ∷ us) = (t < u) × IsRising u us

-- Every instant exists in the zone, and no two in a row, from the text `last` on, read the same.
abbrev pub IsGenuine : Zone → Text → List ℕ → Type 0
IsGenuine zone last [] = Unit
IsGenuine zone last (u ∷ us) =
    (zone.rebuild u ≡ u) × (zone.wall_clock u ≢ last) × IsGenuine zone (zone.wall_clock u) us

-- `Next` returns a later instant.
abbrev pub Advances : {Spec : Type 0} → Robfig Spec → Spec → Type 0
Advances cron spec = (t u : ℕ) → cron.next spec t ≡ some u → t < u

module _ {Spec : Type 0} (cron : Robfig Spec) (zone : Zone) (spec : Spec) where
  cons_fire-inverse :
      (t : ℕ) (o : Option (List ℕ)) (out : List ℕ)
      → cons_fire cron zone spec t o ≡ some out
      → (rest : List ℕ) × (o ≡ some rest) × (out ≡ t ∷ rest)
  cons_fire-inverse t none out e = absurd (cc)
  cons_fire-inverse t (some ts) out e = (ts, refl, ground arith)

  IsRising-later : (t u : ℕ) (out : List ℕ) → t < u → IsRising u out → IsRising t out
  IsRising-later t u [] h r = tt
  IsRising-later t u (x ∷ xs) h r = (omega (arith, r.0), r.1)

  nothing :
      (n t : ℕ) (last : Text) (out : List ℕ)
      → some [] ≡ some out
      → (length out ≤ n) × IsRising t out × IsGenuine zone last out
  nothing n t last [] e = (omega arith, tt, tt)
  nothing n t last (x ∷ xs) e = ground arith

  genuine :
      (last : Text) (u : ℕ)
      → skipped cron zone spec last u ≡ false
      → (zone.rebuild u ≡ u) × (zone.wall_clock u ≢ last)
  unfolding skipped round_trips
  genuine last u h = ground (arith, ==_iff (zone.rebuild u) u, =?_iff (zone.wall_clock u) last)

  -- Whatever the loop of NextN returns, started at an instant with n fire times to go, has at most n
  -- of them, strictly ascending and strictly after the instant; each exists in the zone, and none reads
  -- the same on the wall clock as the one before it, nor the first as the text that the loop started
  -- with. The schedule is assumed to advance.
  pub fires_lem :
      (fuel n t : ℕ) (last : Text) (out : List ℕ)
      → Advances cron spec
      → fires cron zone spec fuel n t last ≡ some out
      → (length out ≤ n) × IsRising t out × IsGenuine zone last out
  unfolding fires
  fires_lem zero n t last out adv e = absurd (cc)
  fires_lem (suc fuel) zero t last out adv e = nothing zero t last out e
  fires_lem (suc fuel) (suc n) t last out adv e = elim (Option-cases (cron.next spec t)) [
    | inl stop ↦ nothing (suc n) t last out (rw (stop, fires) at e)
    | inr (u, next) ↦ elim (Bool-cases (skipped cron zone spec last u)) [
      | inl skip ↦
          let (short, rising, kept) =
            fires_lem fuel (suc n) u last out adv (rw (next, skip, fires) at e) in
          (short, IsRising-later t u out (adv t u next) rising, kept)
      | inr keep ↦
          let (rest, more, out_eq) =
            cons_fire-inverse u (fires cron zone spec fuel n u (zone.wall_clock u)) out
              (rw (next, keep, fires) at e) in
          let (short, rising, kept) = fires_lem fuel n u (zone.wall_clock u) rest adv more in
          let (exists, fresh) = genuine last u keep in
          rw out_eq (omega (arith, short), (adv t u next, rising), (exists, fresh, kept))
    ]
  ]
