-- ===== src/Materializer/Plans.antt =====
-- What a plan of a schedule holds.
use tick.Base.{
  ℕ, ◌+◌, ◌≤◌, ◌≡◌, refl, some, List, [], ◌∷◌, Text, length, All, subst, ltb, arith, inl, inr,
  Bool-cases, Option-cases,
}
use tick.Domain.{Schedule, Result, ok, err}
use tick.Domain.Operations.{Clockwork, location}
use tick.Cron.{Robfig, Zone, parse, next_n}
use tick.Cron.Fires.{IsRising, IsGenuine, Advances, fires_lem}
use tick.Materializer.{up_to, start, plan, plan_in, plan_at}

module _ (until : ℕ) where
  length-up_to : (cs : List ℕ) → length (up_to until cs) ≤ length cs
  unfolding up_to
  length-up_to [] = omega arith
  length-up_to (c ∷ cs) = ground (arith, length-up_to cs)

  up_to-IsRising : (t : ℕ) (cs : List ℕ) → IsRising t cs → IsRising t (up_to until cs)
  unfolding up_to
  up_to-IsRising t [] h = tt
  up_to-IsRising t (c ∷ cs) h = elim (Bool-cases (ltb until c)) [
    | inl e ↦ rw e tt
    | inr e ↦ rw e (h.0, up_to-IsRising c cs h.1)
  ]

  up_to-IsGenuine :
      (zone : Zone) (last : Text) (cs : List ℕ)
      → IsGenuine zone last cs
      → IsGenuine zone last (up_to until cs)
  unfolding up_to
  up_to-IsGenuine zone last [] h = tt
  up_to-IsGenuine zone last (c ∷ cs) (exists, fresh, h) = elim (Bool-cases (ltb until c)) [
    | inl e ↦ rw e tt
    | inr e ↦ rw e (exists, fresh, up_to-IsGenuine zone (zone.wall_clock c) cs h)
  ]

  up_to-All : (cs : List ℕ) → All (λ c. c ≤ until) (up_to until cs)
  unfolding up_to
  up_to-All [] = tt
  up_to-All (c ∷ cs) = elim (Bool-cases (ltb until c)) [
    | inl e ↦ rw e tt
    | inr e ↦ rw e (ground arith, up_to-All cs)
  ]

module _ {Location Spec : Type 0} (go : Clockwork Location) (cron : Robfig Spec)
    (zone : Location → Zone) where
  -- What the plan of a schedule in one zone is.
  abbrev IsPlan : ℕ → ℕ → Location → List ℕ → Type 0
  IsPlan after until loc ts =
      (length ts ≤ 10000)
      × IsRising after ts
      × All (λ t. t ≤ until) ts
      × IsGenuine (zone loc) ((zone loc).wall_clock after) ts

  candidates-IsPlan :
      (fuel after until : ℕ) (loc : Location) (spec : Spec) (cs : List ℕ)
      → Advances cron spec
      → next_n cron (zone loc) spec fuel after 10000 ≡ some cs
      → IsPlan after until loc (up_to until cs)
  unfolding next_n
  candidates-IsPlan fuel after until loc spec cs adv e =
      let (short, rising, kept) =
        fires_lem cron (zone loc) spec fuel 10000 after ((zone loc).wall_clock after) cs adv e in
      (
        omega (arith, short, length-up_to until cs),
        up_to-IsRising until after cs rising,
        up_to-All until cs,
        up_to-IsGenuine until (zone loc) ((zone loc).wall_clock after) cs kept,
      )

  plan_in-IsPlan :
      (fuel : ℕ) (s : Schedule) (now horizon : ℕ) (ts : List ℕ) (loc : Location) (r : Result Spec)
      → ((spec : Spec) → Advances cron spec)
      → plan_in go cron zone fuel s now horizon loc r ≡ some (ok ts)
      → IsPlan (start now s.last_materialized_at) (now + horizon) loc ts
  unfolding plan_in
  plan_in-IsPlan fuel s now horizon ts loc (err x) adv e = absurd (cc e)
  plan_in-IsPlan fuel s now horizon ts loc (ok spec) adv e =
      let after = start now s.last_materialized_at in
      elim (Option-cases (next_n cron (zone loc) spec fuel after 10000)) [
        | inl out_of_fuel ↦ absurd (cc (rw (out_of_fuel, plan_in) at e))
        | inr (cs, c) ↦
            subst (IsPlan after (now + horizon) loc) (ground (arith, rw (c, plan_in) at e))
              (candidates-IsPlan fuel after (now + horizon) loc spec cs (adv spec) c)
      ]

  plan_at-IsPlan :
      (fuel : ℕ) (s : Schedule) (now horizon : ℕ) (ts : List ℕ) (r : Result Location)
      → ((spec : Spec) → Advances cron spec)
      → plan_at go cron zone fuel s now horizon r ≡ some (ok ts)
      → (loc : Location) × (r ≡ ok loc)
        × IsPlan (start now s.last_materialized_at) (now + horizon) loc ts
  unfolding plan_at
  plan_at-IsPlan fuel s now horizon ts (err x) adv e = absurd (cc e)
  plan_at-IsPlan fuel s now horizon ts (ok loc) adv e =
      (loc, refl, plan_in-IsPlan fuel s now horizon ts loc (parse cron s.cron) adv e)

  -- A plan has at most ten thousand fire times, strictly ascending, strictly after the resume point (or
  -- after now, when there is none) and none after now + horizon; each exists in the schedule's zone and
  -- none reads the same on its wall clock as the one before it, the resume point included. Every cron
  -- schedule is assumed to advance.
  pub plan_lem :
      (fuel : ℕ) (s : Schedule) (now horizon : ℕ) (ts : List ℕ)
      → ((spec : Spec) → Advances cron spec)
      → plan go cron zone fuel s now horizon ≡ some (ok ts)
      → (length ts ≤ 10000)
        × IsRising (start now s.last_materialized_at) ts
        × All (λ t. t ≤ now + horizon) ts
        × (loc : Location) × (location go s ≡ ok loc)
        × IsGenuine (zone loc) ((zone loc).wall_clock (start now s.last_materialized_at)) ts
  unfolding plan
  plan_lem fuel s now horizon ts adv e =
      let (loc, at, (short, rising, timely, kept)) =
        plan_at-IsPlan fuel s now horizon ts (location go s) adv e in
      (short, rising, timely, loc, at, kept)
