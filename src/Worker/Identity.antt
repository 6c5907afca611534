-- ===== src/Worker/Identity.antt =====
-- internal/worker/identity.go.
--
-- os.Hostname, os.Getpid and crypto/rand are parameters: `none` is an error.
use tick.Base.{
  ℕ, ◌+◌, ◌%◌, ◌<◌, ◌≡◌, ◌≢◌, refl, arith, Option, none, some, List, [], ◌∷◌, ◌++◌, Text, bytes,
  length, All, ltb, if◌then◌else◌,
}
use Prim.Native.Nat.{◌/◌}
use tick.Base.Decimal.{decimal}

-- A digit of hex.EncodeToString.
abbrev pub hex_digit : ℕ → ℕ
hex_digit d = if ltb d 10 then 48 + d else 87 + d

unfoldable pub hex_encode : List ℕ → Text
hex_encode [] = []
hex_encode (b ∷ bs) = hex_digit (b / 16) ∷ hex_digit (b % 16) ∷ hex_encode bs

-- `random` is what rand.Read puts into the four bytes.
unfoldable pub short_id : Option (List ℕ) → Text
unfolding hex_encode
short_id none = bytes "00000000"
short_id (some random) = hex_encode random

abbrev pub host_or_unknown : Option Text → Text
host_or_unknown none = bytes "unknown-host"
host_or_unknown (some []) = bytes "unknown-host"
host_or_unknown (some (c ∷ cs)) = c ∷ cs

unfoldable pub identity : Option Text → ℕ → Option (List ℕ) → Text
unfolding short_id decimal
identity hostname pid random =
    host_or_unknown hostname ++ (47 ∷ decimal 19 pid ++ (47 ∷ short_id random))

hex_digit-injective : (a b : ℕ) → a < 16 → b < 16 → hex_digit a ≡ hex_digit b → a ≡ b
hex_digit-injective a b p q e = ground arith

hex_encode-injective :
    (bs cs : List ℕ)
    → All (λ b. b < 256) bs
    → All (λ c. c < 256) cs
    → length bs ≡ length cs
    → hex_encode bs ≡ hex_encode cs
    → bs ≡ cs
unfolding hex_encode
hex_encode-injective [] [] p q l e = refl
hex_encode-injective [] (c ∷ cs) p q l e = absurd (omega arith)
hex_encode-injective (b ∷ bs) [] p q l e = absurd (omega arith)
hex_encode-injective (b ∷ bs) (c ∷ cs) p q l e =
    let high : hex_digit (b / 16) ≡ hex_digit (c / 16) = cc e in
    let low : hex_digit (b % 16) ≡ hex_digit (c % 16) = cc e in
    let h = hex_digit-injective (b / 16) (c / 16) (omega (arith, p.0)) (omega (arith, q.0)) high in
    let l' = hex_digit-injective (b % 16) (c % 16) (omega arith) (omega arith) low in
    let same : b ≡ c = omega (arith, h, l') in
    cc (same, hex_encode-injective bs cs p.1 q.1 (omega (arith, l)) (cc e))

append_cancel : (xs : Text) {ys zs : Text} → xs ++ ys ≡ xs ++ zs → ys ≡ zs
append_cancel [] e = e
append_cancel (x ∷ xs) {ys} {zs} e = let rest : xs ++ ys ≡ xs ++ zs = cc e in append_cancel xs rest

-- Two processes on one host, the second of which has been given the first one's process id, have
-- different identities unless rand.Read gave both the same four bytes.
pub identity_differs :
    (hostname : Option Text) (pid : ℕ) (bs cs : List ℕ)
    → All (λ b. b < 256) bs
    → All (λ c. c < 256) cs
    → length bs ≡ 4
    → length cs ≡ 4
    → bs ≢ cs
    → identity hostname pid (some bs) ≢ identity hostname pid (some cs)
unfolding identity short_id
identity_differs hostname pid bs cs p q l m different e =
    let behind_host = append_cancel (host_or_unknown hostname) e in
    let behind_pid = append_cancel (47 ∷ decimal 19 pid) behind_host in
    different
      (hex_encode-injective bs cs p q (omega (arith, l, m)) (append_cancel (47 ∷ []) behind_pid))
