-- ===== src/Migrate.antt =====
-- internal/migrate/migrate.go: loadFrom and Apply.
--
-- A schema is whatever the SQL of a migration works on: what Postgres makes of it is the parameter
-- `exec_sql`. The advisory lock makes the runs of several processes follow one another. A missing
-- table schema_migrations is one without rows. An error is told apart by what failed, not by its
-- text.
pub mod Ascending
pub mod Versions
pub mod Runs
pub mod Atomic
pub mod Names
use tick.Base.{
  ℕ, ◌+◌, ◌-◌, ◌*◌, ◌≤◌, ◌≡◌, Bool, true, false, not, ◌&&◌, ◌||◌, Option, none, some, List, [], ◌∷◌,
  ◌++◌, Text, bytes, map, ◌=?◌, ◌==◌, leb, All, Permᴰ, if◌then◌else◌,
}
use tick.Cron.{trim_space}
use tick.Database.{Link, up, down, lost}
use tick.Store.Claim.{contains}

-- An entry of the directory; `none` is a body that cannot be read.
pub record File : Type 0 where
  pub name : Text
  pub is_dir : Bool
  pub body : Option Text

pub record Migration : Type 0 where
  pub version : ℕ
  pub name : Text
  pub sql : Text

unfoldable pub is_digit : ℕ → Bool
is_digit c = leb 48 c && leb c 57

-- `[a-z0-9_]`.
unfoldable pub is_word_byte : ℕ → Bool
unfolding is_digit
is_word_byte c = (leb 97 c && leb c 122) || is_digit c || c == 95

-- The bytes of the description, and what follows them.
unfoldable pub split_words : Text → Text × Text
unfolding is_word_byte
split_words [] = ([], [])
split_words (c ∷ cs) =
    let (words, rest) = split_words cs in if is_word_byte c then (c ∷ words, rest) else ([], c ∷ cs)

abbrev pub described : ℕ → Text × Text → Option (ℕ × Text)
described version ([], rest) = none
described version (c ∷ cs, rest) = if rest =? bytes ".sql" then some (version, c ∷ cs) else none

-- filenamePattern, with Atoi of the four digits.
unfoldable pub match_filename : Text → Option (ℕ × Text)
unfolding split_words is_digit
match_filename (a ∷ b ∷ c ∷ d ∷ e ∷ rest) =
    if is_digit a && is_digit b && is_digit c && is_digit d && e == 95
    then described ((a - 48) * 1000 + (b - 48) * 100 + (c - 48) * 10 + (d - 48)) (split_words rest)
    else none
match_filename _ = none

unfoldable pub has_suffix : Text → Text → Bool
has_suffix suffix [] = [] =? suffix
has_suffix suffix (c ∷ cs) = let rest = has_suffix suffix cs in (c ∷ cs) =? suffix || rest

unfoldable pub is_migration : File → Bool
unfolding has_suffix
is_migration f = not f.is_dir && has_suffix (bytes ".sql") f.name

pub data LoadError : Type 0 where
  bad_name shared_version unreadable empty_body : LoadError

pub data Loading (A : Type 0) : Type 0 where
  fine : (value : A) → Loading A
  failed : (error : LoadError) → Loading A

abbrev pub checked_body : ℕ × Text → Text → Loading Migration
checked_body (version, name) body =
    if trim_space body =? []
    then failed empty_body
    else fine (record { version = version; name = name; sql = body })

abbrev pub read_body : ℕ × Text → Option Text → Loading Migration
read_body header none = failed unreadable
read_body header (some body) = checked_body header body

-- `seen` has the versions of the files before.
abbrev pub read_named : List ℕ → File → Option (ℕ × Text) → Loading Migration
read_named seen f none = failed bad_name
read_named seen f (some (version, name)) =
    if contains seen version then failed shared_version else read_body (version, name) f.body

unfoldable pub read_file : List ℕ → File → Loading Migration
unfolding match_filename
read_file seen f = read_named seen f (match_filename f.name)

abbrev pub cons_loaded : Migration → Loading (List Migration) → Loading (List Migration)
cons_loaded m (fine ms) = fine (m ∷ ms)
cons_loaded m (failed e) = failed e

-- The loop of loadFrom.
unfoldable pub read_files : List ℕ → List File → Loading (List Migration)
unfolding is_migration read_file
read_files seen [] = fine []
read_files seen (f ∷ fs) =
    if is_migration f
    then elim (read_file seen f) [
      | fine m ↦ cons_loaded m (read_files (m.version ∷ seen) fs)
      | failed e ↦ failed e
    ]
    else read_files seen fs

abbrev pub IsSorted : List Migration → Type 0
IsSorted [] = Unit
IsSorted (m ∷ ms) = All (λ n. m.version ≤ n.version) ms × IsSorted ms

-- sort.Slice by the version.
pub record Sorter : Type 0 where
  pub sort : List Migration → List Migration
  pub sort-perm : (ms : List Migration) → Permᴰ (sort ms) ms
  pub sort-IsSorted : (ms : List Migration) → IsSorted (sort ms)

unfoldable pub load_from : Sorter → List File → Loading (List Migration)
unfolding read_files
load_from sorter files = elim (read_files [] files) [
  | fine ms ↦ fine (sorter.sort ms)
  | failed e ↦ failed e
]

-- The schema, and the versions that schema_migrations records.
pub record Catalog (Schema : Type 0) : Type 0 where
  pub schema : Schema
  pub versions : List ℕ

-- Which statements of a run arrive; those of a migration by its version.
pub record Connection : Type 0 where
  pub begins : Bool
  pub locks : Bool
  pub creates : Bool
  pub lists : Bool
  pub executes : ℕ → Bool
  pub records : ℕ → Bool
  pub commits : Link

-- The count that Apply returns, without and with an error.
pub data Applied : Type 0 where
  applied apply_failed : (count : ℕ) → Applied

-- The end of the transaction.
abbrev pub finish :
    {Schema : Type 0}
    → Link
    → Catalog Schema
    → ℕ × Option (Catalog Schema)
    → Catalog Schema × Applied
finish link cat (n, none) = (cat, apply_failed n)
finish up cat (n, some cat') = (cat', applied n)
finish down cat (n, some cat') = (cat, apply_failed n)
finish lost cat (n, some cat') = (cat', apply_failed n)

module _ {Schema : Type 0} (exec_sql : Text → Schema → Option Schema) (conn : Connection) where
  abbrev pub record_version : ℕ → Option Schema → List ℕ → Option (Catalog Schema)
  record_version version none versions = none
  record_version version (some schema) versions =
      if conn.records version && not (contains versions version)
      then some (record { schema = schema; versions = versions ++ version ∷ [] })
      else none

  unfoldable pub apply_one : Migration → Catalog Schema → Option (Catalog Schema)
  apply_one m cat =
      if conn.executes m.version
      then record_version m.version (exec_sql m.sql cat.schema) cat.versions
      else none

  -- The loop of Apply: the number of migrations applied, and the tables unless one failed.
  unfoldable pub apply_missing :
      List ℕ → List Migration → ℕ → Catalog Schema → ℕ × Option (Catalog Schema)
  unfolding apply_one
  apply_missing done [] n cat = (n, some cat)
  apply_missing done (m ∷ ms) n cat =
      if contains done m.version then apply_missing done ms n cat else elim (apply_one m cat) [
        | none ↦ (n, none)
        | some cat' ↦ apply_missing done ms (n + 1) cat'
      ]

  abbrev pub apply_all : List Migration → Catalog Schema → Catalog Schema × Applied
  apply_all [] cat = (cat, apply_failed 0)
  apply_all (m ∷ ms) cat =
      if conn.begins && conn.locks && conn.creates && conn.lists
      then finish conn.commits cat (apply_missing cat.versions (m ∷ ms) 0 cat)
      else (cat, apply_failed 0)

  unfoldable pub apply : Sorter → List File → Catalog Schema → Catalog Schema × Applied
  unfolding load_from apply_missing
  apply sorter files cat = elim (load_from sorter files) [
    | fine ms ↦ apply_all ms cat
    | failed e ↦ (cat, apply_failed 0)
  ]
