-- ===== src/Cron/Resume.antt =====
-- NextN from the last fire time that an earlier call of it gave.
use tick.Base.{
  ℕ, zero, suc, ◌+◌, ◌≤◌, ◌≡◌, refl, sym, ◌∙◌, ap, subst, inl, inr, Option, none, some, List, [],
  ◌∷◌, ◌++◌, Text, arith, length, Bool-cases, Option-cases,
}
use tick.Cron.{Robfig, Zone, fires, next_n, skipped, cons_fire}

abbrev pub last_fire : ℕ → List ℕ → ℕ
last_fire t [] = t
last_fire t (u ∷ us) = last_fire u us

module _ {Spec : Type 0} (cron : Robfig Spec) (zone : Zone) (spec : Spec) where
  -- The wall clock text that the loop compares with after it has kept these.
  abbrev last_text : Text → List ℕ → Text
  last_text text [] = text
  last_text text (u ∷ us) = last_text (zone.wall_clock u) us

  last_text-wall :
      (t : ℕ) (us : List ℕ) → last_text (zone.wall_clock t) us ≡ zone.wall_clock (last_fire t us)
  last_text-wall t [] = refl
  last_text-wall t (u ∷ us) = last_text-wall u us

  cons_fire-some :
      (t : ℕ) (o : Option (List ℕ)) (out : List ℕ)
      → cons_fire cron zone spec t o ≡ some out
      → (rest : List ℕ) × (o ≡ some rest) × (out ≡ t ∷ rest)
  cons_fire-some t none out e = absurd (cc)
  cons_fire-some t (some ts) out e = (ts, refl, ground arith)

  -- More fuel gives the same answer.
  fires_more :
      (fuel more n t : ℕ) (last : Text) (out : List ℕ)
      → fires cron zone spec fuel n t last ≡ some out
      → fuel ≤ more
      → fires cron zone spec more n t last ≡ some out
  unfolding fires
  fires_more zero more n t last out e h = absurd (cc)
  fires_more (suc fuel) zero n t last out e h = absurd (omega arith)
  fires_more (suc fuel) (suc more) zero t last out e h = e
  fires_more (suc fuel) (suc more) (suc n) t last out e h = elim (Option-cases (cron.next spec t)) [
    | inl stop ↦ rw (stop, fires) (rw (stop, fires) at e)
    | inr (u, next) ↦ elim (Bool-cases (skipped cron zone spec last u)) [
      | inl skip ↦
          rw (next, skip, fires)
            (fires_more fuel more (suc n) u last out (rw (next, skip, fires) at e)
              (omega (arith, h)))
      | inr keep ↦
          let (rest, deeper, whole) =
            cons_fire-some u (fires cron zone spec fuel n u (zone.wall_clock u)) out
              (rw (next, keep, fires) at e) in
          let same = fires_more fuel more n u (zone.wall_clock u) rest deeper (omega (arith, h)) in
          rw (next, keep, fires) (rw same (ap some (sym whole)))
    ]
  ]

  abbrev Resumes : ℕ → ℕ → ℕ → Text → List ℕ → List ℕ → Type 0
  Resumes fuel m t last xs zs =
      (ys : List ℕ) × (fires cron zone spec fuel m (last_fire t xs) (last_text last xs) ≡ some ys)
      × (zs ≡ xs ++ ys)

  Resumes-start :
      (fuel m t u : ℕ) (last : Text) (xs zs : List ℕ) (n : ℕ)
      → length xs ≡ suc n
      → Resumes fuel m u last xs zs
      → Resumes fuel m t last xs zs
  Resumes-start fuel m t u last [] zs n h r = absurd (omega (arith, h))
  Resumes-start fuel m t u last (x ∷ xs) zs n h r = r

  no_more : (o : List ℕ) → ◌≡◌ {A = Option (List ℕ)} (some []) (some o) → o ≡ []
  no_more [] e = refl
  no_more (x ∷ xs) e = absurd (cc)

  fires-resume :
      (fuel n m k t : ℕ) (last : Text) (xs zs : List ℕ)
      → k ≡ n + m
      → fires cron zone spec fuel k t last ≡ some zs
      → fires cron zone spec fuel n t last ≡ some xs
      → length xs ≡ n
      → Resumes fuel m t last xs zs
  unfolding fires
  fires-resume zero n m k t last xs zs s e f h = absurd (cc)
  fires-resume (suc fuel) zero m k t last xs zs s e f h =
      let none_yet = no_more xs f in
      let same : k ≡ m = omega (arith, s) in
      rw none_yet
        (zs, subst (λ (j : ℕ). fires cron zone spec (suc fuel) j t last ≡ some zs) same e, refl)
  fires-resume (suc fuel) (suc n) m zero t last xs zs s e f h = absurd (omega (arith, s))
  fires-resume (suc fuel) (suc n) m (suc k) t last xs zs s e f h =
      elim (Option-cases (cron.next spec t)) [
        | inl stop ↦
            let none_left = no_more xs (rw (stop, fires) at f) in
            absurd (omega (arith, h, ap length none_left))
        | inr (u, next) ↦ elim (Bool-cases (skipped cron zone spec last u)) [
          | inl skip ↦
              let (ys, g, split) = Resumes-start fuel m t u last xs zs n h (
                fires-resume fuel (suc n) m (suc k) u last xs zs s (rw (next, skip, fires) at e)
                  (rw (next, skip, fires) at f) h) in
              (ys, fires_more fuel (suc fuel) m _ _ ys g (omega arith), split)
          | inr keep ↦
              let (zs', e', whole) =
                cons_fire-some u (fires cron zone spec fuel k u (zone.wall_clock u)) zs
                  (rw (next, keep, fires) at e) in
              let (xs', f', first) =
                cons_fire-some u (fires cron zone spec fuel n u (zone.wall_clock u)) xs
                  (rw (next, keep, fires) at f) in
              let (ys, g, split) =
                fires-resume fuel n m k u (zone.wall_clock u) xs' zs' (omega (arith, s)) e' f'
                  (omega (arith, h, ap length first)) in
              rw first (
                ys,
                fires_more fuel (suc fuel) m _ _ ys g (omega arith),
                whole ∙ ap (λ (r : List ℕ). u ∷ r) split,
              )
        ]
      ]

  -- If NextN gives n fire times, then asking for n + m gives these followed by the m that a call
  -- from the last of them on gives.
  pub next_n-resume :
      (fuel n m after : ℕ) (xs zs : List ℕ)
      → next_n cron zone spec fuel after (n + m) ≡ some zs
      → next_n cron zone spec fuel after n ≡ some xs
      → length xs ≡ n
      → (ys : List ℕ) × (next_n cron zone spec fuel (last_fire after xs) m ≡ some ys)
        × (zs ≡ xs ++ ys)
  unfolding next_n
  next_n-resume fuel n m after xs zs e f h =
      let (ys, g, split) =
        fires-resume fuel n m (n + m) after (zone.wall_clock after) xs zs refl e f h in
      (ys, rw (last_text-wall after xs) at g, split)
