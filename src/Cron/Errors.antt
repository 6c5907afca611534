-- ===== src/Cron/Errors.antt =====
-- internal/cron/cron.go: which error Parse returns, and locateBadField.
use tick.Base.{
  ℕ, zero, suc, ◌+◌, ◌≡◌, refl, inl, inr, ap, ◌∙◌, arith, ◌≢◌, ==_iff, Bool, true, false, Option,
  none, some, List, [], ◌∷◌, ◌++◌, Text, bytes, ◌==◌, length, is_some, if◌then◌else◌, Bool-cases,
}
use tick.Domain.{Result, ok, err, invalid_cron}
use tick.Cron.{Robfig, parse, trim_space, fields, is_descriptor, or_invalid}

-- All wrap ErrInvalidCron; an error's text quotes the expression, and the parser's own error.
pub data ParseError : Type 0 where
  bad_descriptor bad_combination : ParseError
  field_count : (got : ℕ) → ParseError
  bad_field : (name : Text) → ParseError

pub data Parsed (Spec : Type 0) : Type 0 where
  parsed : (spec : Spec) → Parsed Spec
  refused : (error : ParseError) → Parsed Spec

abbrev pub field_names : List Text
field_names =
    bytes "minute" ∷ bytes "hour" ∷ bytes "day-of-month" ∷ bytes "month" ∷ bytes "day-of-week" ∷ []

-- The five stars with one field put in at an index.
abbrev pub put_at : ℕ → Text → List Text → List Text
put_at i field [] = []
put_at zero field (t ∷ ts) = field ∷ ts
put_at (suc i) field (t ∷ ts) = t ∷ put_at i field ts

abbrev pub trial : ℕ → Text → List Text
trial i field = put_at i field (bytes "*" ∷ bytes "*" ∷ bytes "*" ∷ bytes "*" ∷ bytes "*" ∷ [])

-- strings.Join with a space.
abbrev pub join_spaces : List Text → Text
join_spaces [] = []
join_spaces (t ∷ []) = t
join_spaces (t ∷ u ∷ ts) = t ++ 32 ∷ join_spaces (u ∷ ts)

module _ {Spec : Type 0} (cron : Robfig Spec) where
  abbrev pub field_parses : ℕ → Text → Bool
  field_parses i field = is_some (cron.parse_fields (join_spaces (trial i field)))

  -- The loop of locateBadField, from an index on; none is its nil error.
  unfoldable pub locate_from : ℕ → List Text → List Text → Option Text
  locate_from i [] fs = none
  locate_from i (name ∷ names) [] = none
  locate_from i (name ∷ names) (f ∷ fs) =
      let rest = locate_from (i + 1) names fs in if field_parses i f then rest else some name

  unfoldable pub locate_bad_field : List Text → Option Text
  unfolding locate_from
  locate_bad_field fs = locate_from 0 field_names fs

  abbrev pub or_error : ParseError → Option Spec → Parsed Spec
  or_error e none = refused e
  or_error e (some spec) = parsed spec

  abbrev pub blame_field : Option Text → ParseError
  blame_field none = bad_combination
  blame_field (some name) = bad_field name

  -- Parse, with the error that it builds.
  unfoldable pub parse_or_error : Text → Parsed Spec
  unfolding trim_space fields locate_bad_field
  parse_or_error expr =
      let trimmed = trim_space expr in
      if is_descriptor trimmed
      then or_error bad_descriptor (cron.parse_descriptor trimmed)
      else if length (fields trimmed) == 5
      then or_error (blame_field (locate_bad_field (fields trimmed))) (cron.parse_fields trimmed)
      else refused (field_count (length (fields trimmed)))

  abbrev pub without_text : Parsed Spec → Result Spec
  without_text (parsed spec) = ok spec
  without_text (refused e) = err invalid_cron

  -- The expression parses.
  abbrev pub Parses : Text → Type 0
  Parses t = (spec : Spec) × (cron.parse_fields t ≡ some spec)

  -- Which of five fields is the first that does not parse with stars in place of the others.
  pub data FirstBad (a b c d e name : Text) : Type 0 where
    bad_minute :
        cron.parse_fields (a ++ bytes " * * * *") ≡ none
        → name ≡ bytes "minute"
        → FirstBad a b c d e name
    bad_hour :
        Parses (a ++ bytes " * * * *")
        → cron.parse_fields (bytes "* " ++ b ++ bytes " * * *") ≡ none
        → name ≡ bytes "hour"
        → FirstBad a b c d e name
    bad_day :
        Parses (a ++ bytes " * * * *")
        → Parses (bytes "* " ++ b ++ bytes " * * *")
        → cron.parse_fields (bytes "* * " ++ c ++ bytes " * *") ≡ none
        → name ≡ bytes "day-of-month"
        → FirstBad a b c d e name
    bad_month :
        Parses (a ++ bytes " * * * *")
        → Parses (bytes "* " ++ b ++ bytes " * * *")
        → Parses (bytes "* * " ++ c ++ bytes " * *")
        → cron.parse_fields (bytes "* * * " ++ d ++ bytes " *") ≡ none
        → name ≡ bytes "month"
        → FirstBad a b c d e name
    bad_weekday :
        Parses (a ++ bytes " * * * *")
        → Parses (bytes "* " ++ b ++ bytes " * * *")
        → Parses (bytes "* * " ++ c ++ bytes " * *")
        → Parses (bytes "* * * " ++ d ++ bytes " *")
        → cron.parse_fields (bytes "* * * * " ++ e) ≡ none
        → name ≡ bytes "day-of-week"
        → FirstBad a b c d e name

  some_of : (o : Option Spec) → is_some o ≡ true → (spec : Spec) × (o ≡ some spec)
  some_of none h = absurd (cc)
  some_of (some spec) h = (spec, refl)

  none_of : (o : Option Spec) → is_some o ≡ false → o ≡ none
  none_of none h = refl
  none_of (some spec) h = absurd (cc)

  locate-FirstBad :
      (a b c d e bad : Text)
      → locate_bad_field (a ∷ b ∷ c ∷ d ∷ e ∷ []) ≡ some bad
      → FirstBad a b c d e bad
  unfolding locate_bad_field locate_from
  locate-FirstBad a b c d e bad h = elim (Bool-cases (field_parses 0 a)) [
    | inr m ↦ bad_minute (none_of _ m) (cc (rw m at h))
    | inl m ↦ elim (Bool-cases (field_parses 1 b)) [
      | inr n ↦ bad_hour (some_of _ m) (none_of _ n) (cc (rw (m, n) at h))
      | inl n ↦ elim (Bool-cases (field_parses 2 c)) [
        | inr p ↦ bad_day (some_of _ m) (some_of _ n) (none_of _ p) (cc (rw (m, n, p) at h))
        | inl p ↦ elim (Bool-cases (field_parses 3 d)) [
          | inr q ↦
              bad_month (some_of _ m) (some_of _ n) (some_of _ p) (none_of _ q)
                (cc (rw (m, n, p, q) at h))
          | inl q ↦ elim (Bool-cases (field_parses 4 e)) [
            | inr r ↦
                bad_weekday (some_of _ m) (some_of _ n) (some_of _ p) (some_of _ q) (none_of _ r)
                  (cc (rw (m, n, p, q, r) at h))
            | inl r ↦ absurd (cc (rw (m, n, p, q, r) at h))
          ]
        ]
      ]
    ]
  ]

  five_of : (fs : List Text) → length fs ≡ 5 → (a b c d e : Text) × (fs ≡ a ∷ b ∷ c ∷ d ∷ e ∷ [])
  five_of [] h = absurd (omega (arith, h))
  five_of (a ∷ []) h = absurd (omega (arith, h))
  five_of (a ∷ b ∷ []) h = absurd (omega (arith, h))
  five_of (a ∷ b ∷ c ∷ []) h = absurd (omega (arith, h))
  five_of (a ∷ b ∷ c ∷ d ∷ []) h = absurd (omega (arith, h))
  five_of (a ∷ b ∷ c ∷ d ∷ e ∷ []) h = (a, b, c, d, e, refl)
  five_of (a ∷ b ∷ c ∷ d ∷ e ∷ f ∷ fs) h = absurd (omega (arith, h))

  without_text-or_error :
      (e : ParseError) (o : Option Spec) → or_invalid o ≡ without_text (or_error e o)
  without_text-or_error e none = refl
  without_text-or_error e (some spec) = refl

  -- Apart from its text, the error is what Parse says.
  pub parse_or_error-eq-parse : (expr : Text) → parse cron expr ≡ without_text (parse_or_error expr)
  unfolding parse parse_or_error
  parse_or_error-eq-parse expr = elim (Bool-cases (is_descriptor (trim_space expr))) [
    | inl t ↦ rw t (without_text-or_error bad_descriptor (cron.parse_descriptor (trim_space expr)))
    | inr n ↦ elim (Bool-cases (length (fields (trim_space expr)) == 5)) [
      | inl five ↦
          rw (n, five)
            (without_text-or_error (blame_field (locate_bad_field (fields (trim_space expr))))
              (cron.parse_fields (trim_space expr)))
      | inr other ↦ rw (n, other) refl
    ]
  ]

  or_error-bad_field :
      (o : Option Spec) (located : Option Text) (bad : Text)
      → or_error (blame_field located) o ≡ refused (bad_field bad)
      → (located ≡ some bad) × (o ≡ none)
  or_error-bad_field none none bad e = absurd (cc)
  or_error-bad_field none (some name) bad e = (cc e, refl)
  or_error-bad_field (some spec) located bad e = absurd (cc)

  or_error-descriptor :
      (o : Option Spec) (bad : Text) → or_error bad_descriptor o ≢ refused (bad_field bad)
  or_error-descriptor none bad e = cc e
  or_error-descriptor (some spec) bad e = cc e

  -- An expression whose error blames a field is refused with ErrInvalidCron and has five fields, and
  -- the field is the first of the five that does not parse with stars in place of the others.
  pub blamed_field_is_first :
      (expr bad : Text)
      → parse_or_error expr ≡ refused (bad_field bad)
      → (parse cron expr ≡ err invalid_cron)
        × (a b c d e : Text) × (fields (trim_space expr) ≡ a ∷ b ∷ c ∷ d ∷ e ∷ [])
        × FirstBad a b c d e bad
  unfolding parse_or_error
  blamed_field_is_first expr bad h =
      let invalid = parse_or_error-eq-parse expr ∙ ap without_text h in
      elim (Bool-cases (is_descriptor (trim_space expr))) [
        | inl t ↦ absurd (or_error-descriptor _ bad (rw t at h))
        | inr n ↦ elim (Bool-cases (length (fields (trim_space expr)) == 5)) [
          | inl five ↦
              let (located, _) =
                or_error-bad_field (cron.parse_fields (trim_space expr))
                  (locate_bad_field (fields (trim_space expr))) bad (rw (n, five) at h) in
              let (a, b, c, d, e, split) =
                five_of (fields (trim_space expr)) ((==_iff _ 5).0 five) in
              (invalid, a, b, c, d, e, split, locate-FirstBad a b c d e bad (rw split at located))
          | inr other ↦ absurd (cc (rw (n, other) at h))
        ]
      ]
