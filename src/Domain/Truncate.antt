-- ===== src/Domain/Truncate.antt =====
-- internal/domain/task.go: TruncateError, which bounds last_error.
use tick.Base.{
  ℕ, ◌+◌, ◌-◌, ◌≤◌, ◌<◌, ◌≡◌, inl, inr, false, ◌++◌, arith, Text, bytes, length, take,
  length-append, length-take, leb, if◌then◌else◌, Bool-cases, leb→le,
}

abbrev pub max_last_error_bytes : ℕ
max_last_error_bytes = 4096

abbrev pub suffix : Text
suffix = bytes " ...[truncated]"

-- `msg[:n]` with n ≤ len(msg).
unfoldable pub truncate_error : Text → Text
truncate_error msg =
    if leb (length msg) max_last_error_bytes
    then msg
    else take (max_last_error_bytes - length suffix) msg ++ suffix

pub truncate_error-short : (msg : Text) → length msg ≤ 4096 → truncate_error msg ≡ msg
unfolding truncate_error
truncate_error-short msg h = ground arith

pub truncate_error-long :
    (msg : Text) → 4096 < length msg → truncate_error msg ≡ take 4081 msg ++ suffix
unfolding truncate_error
truncate_error-long msg h = let e : leb (length msg) 4096 ≡ false = ground arith in rw e

length-cut : (n : ℕ) (msg : Text) → length (take n msg ++ suffix) ≤ n + 15
length-cut n msg = omega (arith, length-append (take n msg) suffix, length-take n msg)

-- The result never exceeds 4096 bytes.
pub length-truncate_error : (msg : Text) → length (truncate_error msg) ≤ 4096
unfolding truncate_error
length-truncate_error msg = elim (Bool-cases (leb (length msg) 4096)) [
  | inl h ↦ rw h (leb→le (length msg) 4096 h)
  | inr h ↦ rw h (length-cut 4081 msg)
]
