-- ===== src/Config/Rules.antt =====
-- The two rules of Load that relate variables, on the values that the readers have made of them.
use tick.Base.{
  ℕ, zero, suc, ◌*◌, ◌%◌, ◌^◌, ◌≡◌, refl, subst, inl, inr, true, false, not, Option, none, some, [],
  Text, bytes, ◌=?◌, =?_iff, ltb, arith, Bool-cases, sym,
}
use tick.Base.Int.{ℤ, pos, negsuc, ltb_ℤ}
use tick.Config.{postgres, GoText, optional_value, duration, checked_duration, backend_value}
use tick.Config.Load.{wrap64, is_redis}
use tick.Config.Faults.{is_given, is_short, period_or, duration_or_default, names_redis}

postgres_no_redis : (t : Text) → (t =? bytes "postgres") ≡ true → (t =? bytes "redis") ≡ false
postgres_no_redis t e =
    subst (λ s. (s =? bytes "redis") ≡ false) (sym ((=?_iff t (bytes "postgres")).0 e))
      (unfold ◌=?◌ in refl)

pub redis_url-given : (o : Option Text) → (optional_value [] o =? []) ≡ not (is_given o)
redis_url-given none = unfold ◌=?◌ in refl
redis_url-given (some v) = ground arith

pub ttl-short : (ttl interval : ℕ) → ltb_ℤ (pos ttl) (wrap64 (3 * interval)) ≡ is_short ttl interval
unfolding wrap64
ttl-short ttl interval = elim (Bool-cases (ltb (3 * interval % 2 ^ 64) (2 ^ 63))) [
  | inl small ↦ rw small (ground arith)
  | inr large ↦ rw large (ground arith)
]

module _ (go : GoText) where
  pub backend-names_redis :
      (key : Text) (o : Option Text)
      → is_redis (backend_value go key postgres o).0 ≡ names_redis go o
  unfolding backend_value
  backend-names_redis key none = refl
  backend-names_redis key (some v) = elim (Bool-cases (go.to_lower v =? bytes "postgres")) [
    | inl first ↦ rw (first, postgres_no_redis (go.to_lower v) first) refl
    | inr not_first ↦ elim (Bool-cases (go.to_lower v =? bytes "redis")) [
      | inl second ↦ rw (not_first, second) refl
      | inr bad ↦ rw (not_first, bad) refl
    ]
  ]

  pub duration-value :
      (key : Text) (def : ℕ) (o : Option Text)
      → (duration go key def o).0 ≡ duration_or_default go def o
  unfolding duration
  duration-value key def none = refl
  duration-value key def (some v) = checked (go.parse_duration v)
    where
      checked : (d : Option ℤ) → (checked_duration go key def v d).0 ≡ period_or def d
      checked none = refl
      checked (some (pos zero)) = refl
      checked (some (pos (suc n))) = ground arith
      checked (some (negsuc n)) = refl
