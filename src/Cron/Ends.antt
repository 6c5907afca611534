-- ===== src/Cron/Ends.antt =====
-- The fuel that the loop of NextN needs.
use tick.Base.{
  ℕ, zero, suc, ◌+◌, ◌*◌, ◌≤◌, ◌<◌, ◌≡◌, refl, inl, inr, Bool, true, false, Option, none, some,
  List, [], ◌∷◌, Text, arith, Bool-cases, Option-cases, if◌then◌else◌,
}
use tick.Cron.{Robfig, Zone, fires, next_n, skipped, cons_fire}

module _ {Spec : Type 0} (cron : Robfig Spec) (zone : Zone) (spec : Spec) where
  -- Among the next `k` candidates after `t` one is kept, or the schedule ends.
  unfoldable pub settles : ℕ → ℕ → Text → Bool
  settles zero t last = false
  settles (suc k) t last = elim (cron.next spec t) [
    | none ↦ true
    | some u ↦ if skipped cron zone spec last u then settles k u last else true
  ]

  Ends : ℕ → ℕ → ℕ → Text → Type 0
  Ends fuel n t last = (out : List ℕ) × (fires cron zone spec fuel n t last ≡ some out)

  cons_fire-returns :
      (t : ℕ) (o : Option (List ℕ))
      → (out : List ℕ) × (o ≡ some out)
      → (out : List ℕ) × (cons_fire cron zone spec t o ≡ some out)
  cons_fire-returns t o (out, e) = (t ∷ out, rw e refl)

  scan :
      (n need : ℕ)
      → ((fuel t : ℕ) (last : Text) → need ≤ fuel → Ends fuel n t last)
      → (j fuel t : ℕ) (last : Text) → settles j t last ≡ true
      → j + need ≤ fuel
      → Ends fuel (suc n) t last
  unfolding settles Ends fires
  scan n need later zero fuel t last s h = ground arith
  scan n need later (suc j) zero t last s h = ground arith
  scan n need later (suc j) (suc fuel) t last s h = elim (Option-cases (cron.next spec t)) [
    | inl stop ↦ ([], rw (stop, fires) refl)
    | inr (u, next) ↦ elim (Bool-cases (skipped cron zone spec last u)) [
      | inl skip ↦
          let (out, e) =
            scan n need later j fuel u last (rw (next, skip, settles) at s) (omega (arith, h)) in
          (out, rw (next, skip, fires) e)
      | inr keep ↦
          let (out, e) =
            cons_fire-returns u (fires cron zone spec fuel n u (zone.wall_clock u))
              (later fuel u (zone.wall_clock u) (omega (arith, h))) in
          (out, rw (next, keep, fires) e)
    ]
  ]

  enough :
      (k : ℕ)
      → ((t : ℕ) (last : Text) → settles k t last ≡ true)
      → (n fuel t : ℕ) (last : Text) → n * k < fuel
      → Ends fuel n t last
  unfolding Ends fires
  enough k s zero zero t last h = ground arith
  enough k s zero (suc fuel) t last h = ([], refl)
  enough k s (suc n) fuel t last h =
      scan n (suc (n * k)) (λ f t' l h'. enough k s n f t' l h') k fuel t last (s t last)
        (omega (arith, h))

  -- NextN returns on n * k + 1 rounds of its loop when, from any instant on, one of the next k
  -- candidates is kept or the schedule ends.
  pub next_n-returns :
      (k n after : ℕ)
      → ((t : ℕ) (last : Text) → settles k t last ≡ true)
      → (out : List ℕ) × (next_n cron zone spec (suc (n * k)) after n ≡ some out)
  unfolding next_n Ends
  next_n-returns k n after s =
      enough k s n (suc (n * k)) after (zone.wall_clock after) (omega arith)
