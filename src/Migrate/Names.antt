-- ===== src/Migrate/Names.antt =====
-- How a migration prints, and the name of its file.
use tick.Base.{
  ℕ, zero, suc, ◌+◌, ◌-◌, ◌*◌, ◌%◌, ◌≤◌, ◌<◌, ◌≡◌, ◌≢◌, refl, ap, ◌∙◌, arith, Bool, true, ◌&&◌,
  some, [], ◌∷◌, ◌++◌, Text, bytes, ◌=?◌, =?-eq, ==_iff, ltb, ◌==◌, length, All, Bool-cases, inl,
  inr, ◌⊎◌, ◌↔◌,
}
use Prim.Native.Nat.{◌/◌}
use tick.Base.Decimal.{decimal, decimal-digit, decimal-digits}
use tick.Migrate.{Migration, is_digit, is_word_byte, split_words, described, match_filename}

abbrev pub zeros : ℕ → Text
zeros zero = []
zeros (suc n) = 48 ∷ zeros n

-- `%04d` of an int, which has 19 digits at most.
unfoldable pub padded : ℕ → Text
padded n = let digits = decimal 19 n in zeros (4 - length digits) ++ digits

-- Migration.String.
unfoldable pub migration_text : Migration → Text
unfolding padded
migration_text m = padded m.version ++ 95 ∷ m.name

le-lt : (a b : ℕ) → (a < b) ⊎ (b ≤ a)
le-lt a b = elim (Bool-cases (ltb a b)) [ inl t ↦ inl (ground arith) | inr f ↦ inr (ground arith) ]

abbrev four_digits : ℕ → Text
four_digits n = (48 + n / 1000) ∷ (48 + n / 100 % 10) ∷ (48 + n / 10 % 10) ∷ (48 + n % 10) ∷ []

padded_lem : (n : ℕ) → n < 10000 → padded n ≡ four_digits n
unfolding padded
padded_lem n h = elim (le-lt n 10) [
  | inl a ↦ rw (decimal-digit 18 n a) (ground arith)
  | inr a ↦ elim (le-lt (n / 10) 10) [
    | inl b ↦ rw (decimal-digits 18 n a, decimal-digit 17 (n / 10) b) (ground arith)
    | inr b ↦ elim (le-lt (n / 10 / 10) 10) [
      | inl c ↦
          rw (decimal-digits 18 n a, decimal-digits 17 (n / 10) b, decimal-digit 16 (n / 10 / 10) c)
            (ground arith)
      | inr c ↦
          rw
            (
              decimal-digits 18 n a,
              decimal-digits 17 (n / 10) b,
              decimal-digits 16 (n / 10 / 10) c,
              decimal-digit 15 (n / 10 / 10 / 10) (omega arith),
            )
            (ground arith)
    ]
  ]
]

abbrev AllWord : Text → Type 0
AllWord = All (λ c. is_word_byte c ≡ true)

split_words-append : (cs rest : Text) → AllWord cs → split_words (cs ++ 46 ∷ rest) ≡ (cs, 46 ∷ rest)
unfolding split_words is_word_byte
split_words-append [] rest h = refl
split_words-append (c ∷ cs) rest h = rw (h.0, split_words-append cs rest h.1) refl

is_digit-add : (x : ℕ) → x < 10 → is_digit (48 + x) ≡ true
unfolding is_digit
is_digit-add x h = ground arith

described-words :
    (version : ℕ) (cs : Text) → cs ≢ [] → described version (cs, bytes ".sql") ≡ some (version, cs)
unfolding ◌=?◌
described-words version [] h = absurd (h refl)
described-words version (c ∷ cs) h = refl

four_digits_value :
    (n : ℕ)
    → n < 10000
    → (48 + n / 1000 - 48) * 1000
        + (48 + n / 100 % 10 - 48) * 100
        + (48 + n / 10 % 10 - 48) * 10
        + (48 + n % 10 - 48)
      ≡ n
four_digits_value n h = omega arith

-- The file that is named as a migration prints, with .sql behind, is read as that migration's version
-- and name, if the version has at most four digits and the name is not empty and of the pattern's
-- bytes.
pub match_filename-migration_text :
    (m : Migration)
    → m.version < 10000
    → m.name ≢ []
    → All (λ c. is_word_byte c ≡ true) m.name
    → match_filename (migration_text m ++ bytes ".sql") ≡ some (m.version, m.name)
unfolding match_filename migration_text
match_filename-migration_text m four named words =
    let n = m.version in
    rw
      (
        padded_lem n four,
        is_digit-add (n / 1000) (omega arith),
        is_digit-add (n / 100 % 10) (omega arith),
        is_digit-add (n / 10 % 10) (omega arith),
        is_digit-add (n % 10) (omega arith),
        split_words-append m.name (115 ∷ 113 ∷ 108 ∷ []) words,
      )
      (ap (λ v. described v (m.name, bytes ".sql")) (four_digits_value n four)
        ∙ described-words n m.name named)

split_words_lem :
    (cs : Text) → let (words, rest) = split_words cs in AllWord words × (cs ≡ words ++ rest)
unfolding split_words
split_words_lem [] = (tt, refl)
split_words_lem (c ∷ cs) =
    let (all, e) = split_words_lem cs in
    elim (Bool-cases (is_word_byte c)) [
      | inl t ↦ rw t ((t, all), ap (λ x. c ∷ x) e)
      | inr f ↦ rw f (tt, refl)
    ]

described_lem :
    (version v : ℕ) (words rest name : Text)
    → described version (words, rest) ≡ some (v, name)
    → (version ≡ v) × (words ≡ name) × (rest ≡ bytes ".sql") × (name ≢ [])
described_lem version v [] rest name e = absurd (cc)
described_lem version v (c ∷ cs) rest name e = elim (Bool-cases (rest =? bytes ".sql")) [
  | inl t ↦ let same = rw t at e in (cc same, cc same, =?-eq rest _ t, λ h. cc (same, h))
  | inr f ↦ absurd (cc (rw f at e))
]

is_digit_bounds : (c : ℕ) → is_digit c ≡ true → (48 ≤ c) × (c ≤ 57)
unfolding is_digit
is_digit_bounds c h = ground arith

four_digits-value :
    (a b c d : ℕ)
    → is_digit a ≡ true
    → is_digit b ≡ true
    → is_digit c ≡ true
    → is_digit d ≡ true
    → let v = (a - 48) * 1000 + (b - 48) * 100 + (c - 48) * 10 + (d - 48) in
      (v < 10000) × (padded v ≡ a ∷ b ∷ c ∷ d ∷ [])
four_digits-value a b c d ha hb hc hd =
    let v = (a - 48) * 1000 + (b - 48) * 100 + (c - 48) * 10 + (d - 48) in
    let pa = is_digit_bounds a ha in
    let pb = is_digit_bounds b hb in
    let pc = is_digit_bounds c hc in
    let pd = is_digit_bounds d hd in
    let small : v < 10000 = omega (arith, pa, pb, pc, pd) in
    let ea : 48 + v / 1000 ≡ a = omega (arith, pa, pb, pc, pd) in
    let eb : 48 + v / 100 % 10 ≡ b = omega (arith, pa, pb, pc, pd) in
    let ec : 48 + v / 10 % 10 ≡ c = omega (arith, pa, pb, pc, pd) in
    let ed : 48 + v % 10 ≡ d = omega (arith, pa, pb, pc, pd) in
    (small, padded_lem v small ∙ cc (ea, eb, ec, ed))

all_true :
    (a b c d e : Bool)
    → a && b && c && d && e ≡ true
    → (a ≡ true) × (b ≡ true) × (c ≡ true) × (d ≡ true) × (e ≡ true)
all_true a b c d e h = ground arith

-- A name that the pattern matches is that of the file that the migration prints, with .sql behind.
pub match_filename-eq :
    (s : Text) (m : Migration)
    → match_filename s ≡ some (m.version, m.name)
    → s ≡ migration_text m ++ bytes ".sql"
unfolding match_filename migration_text
match_filename-eq (a ∷ b ∷ c ∷ d ∷ e ∷ cs) m h =
    elim (Bool-cases (is_digit a && is_digit b && is_digit c && is_digit d && e == 95)) [
      | inr f ↦ absurd (cc (rw f at h))
      | inl t ↦
          let (ta, tb, tc, td, te) = all_true _ _ _ _ _ t in
          let (words, rest) = split_words cs in
          let (version, name, suffix, _) =
            described_lem _ m.version words rest m.name (rw t at h) in
          let (_, digits) = four_digits-value a b c d ta tb tc td in
          let (_, split) = split_words_lem cs in
          let tail : cs ≡ m.name ++ bytes ".sql" = split ∙ rw (name, suffix) refl in
          let dash : e ≡ 95 = (==_iff e 95).0 te in rw (← version, digits) (cc (dash, tail))
    ]
match_filename-eq [] m h = absurd (cc)
match_filename-eq (a ∷ []) m h = absurd (cc)
match_filename-eq (a ∷ b ∷ []) m h = absurd (cc)
match_filename-eq (a ∷ b ∷ c ∷ []) m h = absurd (cc)
match_filename-eq (a ∷ b ∷ c ∷ d ∷ []) m h = absurd (cc)

-- For a version of at most four digits and a name that is not empty and of the pattern's bytes, the
-- file whose name is read as that version and name is the one that is named as the migration prints,
-- with .sql behind, and no other.
pub match_filename_iff :
    (m : Migration) (s : Text)
    → m.version < 10000
    → m.name ≢ []
    → All (λ c. is_word_byte c ≡ true) m.name
    → (match_filename s ≡ some (m.version, m.name)) ↔ (s ≡ migration_text m ++ bytes ".sql")
match_filename_iff m s four named words = (
  match_filename-eq s m,
  λ e. ap match_filename e ∙ match_filename-migration_text m four named words,
)
