-- ===== src/Migrate/Ascending.antt =====
-- Lists of migrations by version.
use tick.Base.{
  ℕ, ◌≤◌, ◌<◌, ◌≡◌, refl, ◌∙◌, Bool, List, [], ◌∷◌, arith, length, ◌==◌, All, Permᴰ, select,
}
use tick.Base.Rows.{All-map, All-both}
use tick.Migrate.{Migration, IsSorted}

abbrev pub has_version : ℕ → Migration → Bool
has_version v m = v == m.version

unfoldable pub uses : ℕ → List Migration → ℕ
uses v ms = length (select (has_version v) ms)

pub uses-perm : (v : ℕ) {xs ys : List Migration} → Permᴰ xs ys → uses v xs ≡ uses v ys
unfolding uses select
uses-perm v Permᴰ.nil = refl
uses-perm v (Permᴰ.cons e q) = rw e (ground (arith, uses-perm v q))
uses-perm v (Permᴰ.swap e e') = rw (e, e') (ground arith)
uses-perm v (Permᴰ.trans q q') = uses-perm v q ∙ uses-perm v q'

-- The versions ascend.
abbrev pub IsAscending : List Migration → Type 0
IsAscending [] = Unit
IsAscending (m ∷ ms) = All (λ n. m.version < n.version) ms × IsAscending ms

counted : (ms : List Migration) → All (λ n. 1 ≤ uses n.version ms) ms
unfolding uses select
counted [] = tt
counted (m ∷ ms) = (ground arith, All-map _ ms (λ n h. ground (arith, h)) (counted ms))

pub sorted-IsAscending :
    (ms : List Migration) → IsSorted ms → ((v : ℕ) → uses v ms ≤ 1) → IsAscending ms
unfolding uses select
sorted-IsAscending [] h c = tt
sorted-IsAscending (m ∷ ms) h c = (
  All-map _ ms
      (λ n (k : (m.version ≤ n.version) × (1 ≤ uses n.version ms)).
        ground (arith, k.0, k.1, c n.version))
      (All-both _ _ ms h.0 (counted ms)),
  sorted-IsAscending ms h.1 (λ v. ground (arith, c v)),
)
