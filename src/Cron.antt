-- ===== src/Cron.antt =====
-- internal/cron: fire times of a cron expression (cron.go, nextn.go).
--
-- The parser and its schedules are robfig/cron's, and the zones are Go's: both are parameters. Of the
-- white space that TrimSpace and Fields know the model has ASCII's.
pub mod Fires
pub mod Ends
pub mod Resume
pub mod Errors
use tick.Base.{
  ℕ, zero, suc, ◌≡◌, Bool, true, false, not, ◌&&◌, ◌||◌, Option, none, some, List, [], ◌∷◌, Text,
  bytes, ◌==◌, ◌=?◌, leb, length, if◌then◌else◌,
}
use tick.Domain.{Result, ok, err, invalid_cron}

-- The two parsers, and the `Next` of the schedules they return: `none` is the zero time.
pub record Robfig (Spec : Type 0) : Type 0 where
  pub parse_fields : Text → Option Spec
  pub parse_descriptor : Text → Option Spec
  pub next : Spec → ℕ → Option ℕ

-- What the code asks of a location: the wall clock text of an instant, and the instant that
-- time.Date builds from the wall clock fields of an instant.
pub record Zone : Type 0 where
  pub wall_clock : ℕ → Text
  pub rebuild : ℕ → ℕ

is_space : ℕ → Bool
is_space c = c == 32 || (leb 9 c && leb c 13)

trim_left : Text → Text
unfolding is_space
trim_left [] = []
trim_left (c ∷ cs) = let rest = trim_left cs in if is_space c then rest else c ∷ cs

-- A trailing run of spaces goes: a space stays only before something that stays.
trim_right : Text → Text
unfolding is_space
trim_right [] = []
trim_right (c ∷ cs) = elim (trim_right cs) [
  | [] ↦ if is_space c then [] else c ∷ []
  | d ∷ ds ↦ c ∷ d ∷ ds
]

unfoldable pub trim_space : Text → Text
unfolding trim_left trim_right
trim_space s = trim_right (trim_left s)

-- `word` is what is open, its last byte first.
abbrev reverse_onto : Text → Text → Text
reverse_onto [] out = out
reverse_onto (c ∷ cs) out = reverse_onto cs (c ∷ out)

abbrev close_word : Text → List Text → List Text
close_word [] ws = ws
close_word (c ∷ cs) ws = reverse_onto (c ∷ cs) [] ∷ ws

fields_from : Text → Text → List Text
unfolding is_space
fields_from word [] = close_word word []
fields_from word (c ∷ cs) = elim (is_space c) [
  | true ↦ close_word word (fields_from [] cs)
  | false ↦ fields_from (c ∷ word) cs
]

unfoldable pub fields : Text → List Text
unfolding fields_from
fields s = fields_from [] s

abbrev is_descriptor : Text → Bool
is_descriptor [] = false
is_descriptor (c ∷ cs) = c == b'@'

abbrev or_invalid : {Spec : Type 0} → Option Spec → Result Spec
or_invalid none = err invalid_cron
or_invalid (some spec) = ok spec

module _ {Spec : Type 0} (cron : Robfig Spec) where
  -- Which error it is, and the field that it names, is in Errors.
  unfoldable pub parse : Text → Result Spec
  unfolding trim_space fields
  parse expr =
      let trimmed = trim_space expr in
      if is_descriptor trimmed
      then or_invalid (cron.parse_descriptor trimmed)
      else if length (fields trimmed) == 5
      then or_invalid (cron.parse_fields trimmed)
      else err invalid_cron

module _ {Spec : Type 0} (cron : Robfig Spec) (zone : Zone) (spec : Spec) where
  unfoldable pub round_trips : ℕ → Bool
  round_trips t = zone.rebuild t == t

  -- The candidate is no fire time: its local time does not exist, or its wall clock is the one before
  -- it again.
  unfoldable pub skipped : Text → ℕ → Bool
  unfolding round_trips
  skipped last t = not (round_trips t) || zone.wall_clock t =? last

  abbrev pub cons_fire : ℕ → Option (List ℕ) → Option (List ℕ)
  cons_fire t none = none
  cons_fire t (some ts) = some (t ∷ ts)

  -- The loop, with `n` fire times to go; `none` means that the fuel ran out.
  unfoldable pub fires : ℕ → ℕ → ℕ → Text → Option (List ℕ)
  unfolding skipped
  fires zero n t last = none
  fires (suc fuel) zero t last = some []
  fires (suc fuel) (suc n) t last = elim (cron.next spec t) [
    | none ↦ some []
    | some t' ↦ elim (skipped last t') [
      | true ↦ fires fuel (suc n) t' last
      | false ↦ cons_fire t' (fires fuel n t' (zone.wall_clock t'))
    ]
  ]

  unfoldable pub next_n : ℕ → ℕ → ℕ → Option (List ℕ)
  unfolding fires
  next_n fuel after n = fires fuel n after (zone.wall_clock after)
