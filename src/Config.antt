-- ===== src/Config.antt =====
-- internal/config/config.go: the settings of a process from its environment.
--
-- A Duration is a number of nanoseconds. What the code gets from strconv, time, log/slog, strings and
-- fmt is the parameter `go`; sort.Slice is the parameter `sorter`. TrimSpace is that of Cron.
pub mod Load
pub mod Laws
pub mod Faults
pub mod Rules
pub mod Errors
pub mod Printed
use tick.Base.{
  ℕ, suc, ◌+◌, ◌-◌, ◌*◌, ◌%◌, ◌^◌, ◌≤◌, ◌≡◌, Bool, true, false, not, ◌&&◌, ◌||◌, Option, none, some,
  List, [], ◌∷◌, ◌++◌, Text, bytes, ◌=?◌, leb, ltb, map, Permᴰ, All, if◌then◌else◌,
}
use tick.Base.Int.{ℤ, pos, negsuc, pos_part, ltb_ℤ}
use tick.Cron.{trim_space}

pub data Backend : Type 0 where
  postgres redis : Backend

pub record Config : Type 0 where
  pub backend : Backend
  pub database_url : Text
  pub redis_url : Text
  pub queue : Text
  pub claim_batch : ℕ
  pub concurrency : ℕ
  pub http_addr : Text
  pub log_level : ℤ
  pub sweep_interval : ℕ
  pub materializer_interval : ℕ
  pub materializer_horizon : ℕ
  pub heartbeat_interval : ℕ
  pub heartbeat_ttl : ℕ
  pub task_timeout : ℕ
  pub shutdown_grace : ℕ

-- FieldError, with the name that sets it apart from the API's.
pub record Problem : Type 0 where
  pub key : Text
  pub problem : Text

-- Parsers and prints of the Go library.
pub record GoText : Type 0 where
  pub atoi : Text → Option ℤ
  pub parse_duration : Text → Option ℤ
  pub parse_level : Text → Option ℤ
  pub to_lower : Text → Text
  pub quote : Text → Text
  pub print_int : ℤ → Text
  pub print_duration : ℕ → Text
  pub print_level : ℤ → Text

-- The order of Go strings.
unfoldable pub text_le : Text → Text → Bool
text_le [] t = true
text_le (x ∷ xs) [] = false
text_le (x ∷ xs) (y ∷ ys) = let rest = text_le xs ys in ltb x y || (leb x y && rest)

abbrev pub IsSorted : List Problem → Type 0
IsSorted [] = Unit
IsSorted (p ∷ ps) = All (λ q. text_le p.key q.key ≡ true) ps × IsSorted ps

-- A sort by key; the order of problems with one key is not specified.
pub record Sorter : Type 0 where
  pub sort : List Problem → List Problem
  pub sort-perm : (ps : List Problem) → Permᴰ (sort ps) ps
  pub sort-IsSorted : (ps : List Problem) → IsSorted (sort ps)

abbrev pub Lookup : Type 0
Lookup = Text → Option Text

abbrev pub millisecond : ℕ
millisecond = 1000000

abbrev pub second_ns : ℕ
second_ns = 1000 * millisecond

abbrev pub minute_ns : ℕ
minute_ns = 60 * second_ns

-- A value, and the problems that reading it has added.
abbrev pub Read : Type 0 → Type 0
Read A = A × List Problem

abbrev pub complain : {A : Type 0} → Text → Text → A → Read A
complain key problem def = (def, record { key = key; problem = problem } ∷ [])

abbrev pub non_empty : Text → Option Text
non_empty [] = none
non_empty (c ∷ cs) = some (c ∷ cs)

-- The loader's get: a variable that is set to blanks counts as unset.
unfoldable pub get_variable : Lookup → Text → Option Text
unfolding trim_space
get_variable lookup key = elim (lookup key) [ none ↦ none | some raw ↦ non_empty (trim_space raw) ]

abbrev pub required_value : Text → Option Text → Read Text
required_value key none = complain key (bytes "is required but not set") []
required_value key (some v) = (v, [])

abbrev pub optional_value : Text → Option Text → Text
optional_value def none = def
optional_value def (some v) = v

-- `d <= 0`.
abbrev pub is_positive : ℤ → Bool
is_positive (pos n) = ltb 0 n
is_positive (negsuc n) = false

module _ (go : GoText) where
  abbrev pub checked_int : Text → ℕ → ℕ → ℕ → Text → Option ℤ → Read ℕ
  checked_int key def low high v none =
      complain key (bytes "must be an integer, got " ++ go.quote v) def
  checked_int key def low high v (some n) =
      if ltb_ℤ n (pos low) || ltb_ℤ (pos high) n
      then complain key
          (bytes "must be between "
            ++ go.print_int (pos low)
            ++ bytes " and "
            ++ go.print_int (pos high)
            ++ bytes ", got "
            ++ go.print_int n)
          def
      else (pos_part n, [])

  unfoldable pub int_in_range : Text → ℕ → ℕ → ℕ → Option Text → Read ℕ
  int_in_range key def low high none = (def, [])
  int_in_range key def low high (some v) = checked_int key def low high v (go.atoi v)

  abbrev pub checked_duration : Text → ℕ → Text → Option ℤ → Read ℕ
  checked_duration key def v none =
      complain key (bytes "must be a duration like \"30s\", got " ++ go.quote v) def
  checked_duration key def v (some d) =
      if is_positive d
      then (pos_part d, [])
      else complain key (bytes "must be positive, got " ++ go.quote v) def

  unfoldable pub duration : Text → ℕ → Option Text → Read ℕ
  duration key def none = (def, [])
  duration key def (some v) = checked_duration key def v (go.parse_duration v)

  unfoldable pub backend_value : Text → Backend → Option Text → Read Backend
  backend_value key def none = (def, [])
  backend_value key def (some v) =
      if go.to_lower v =? bytes "postgres"
      then (postgres, [])
      else if go.to_lower v =? bytes "redis"
      then (redis, [])
      else complain key (bytes "must be \"postgres\" or \"redis\", got " ++ go.quote v) def

  abbrev pub checked_level : Text → ℤ → Text → Option ℤ → Read ℤ
  checked_level key def v none =
      complain key (bytes "must be one of debug, info, warn, error, got " ++ go.quote v) def
  checked_level key def v (some level) = (level, [])

  unfoldable pub log_level_value : Text → ℤ → Option Text → Read ℤ
  log_level_value key def none = (def, [])
  log_level_value key def (some v) = checked_level key def v (go.parse_level v)
