-- ===== src/Tests/Migrations.antt =====
-- The theorems on migrations at concrete inputs.
use tick.Base.{
  ◌≤◌, ◌≡◌, refl, Bool, true, false, Option, some, none, List, [], ◌∷◌, ◌++◌, arith, bytes, Text,
  length, ◌=?◌, select, leb, All,
}
use tick.Base.Members.{In}
use tick.Base.Sorting
use tick.Cron.{trim_space}
use tick.Database.{up}
use tick.Store.Claim.{contains}
use tick.Migrate.{
  File, Migration, fine, Sorter, IsSorted, Catalog, Connection, applied, apply_failed, load_from,
  read_files, read_file, match_filename, split_words, is_migration, has_suffix, is_digit,
  is_word_byte, apply, apply_missing, apply_one,
}
use tick.Migrate.Ascending.{IsAscending}
use tick.Migrate.Versions.{load_from_lem}
use tick.Migrate.Runs.{run_sql, missing, versions}
use tick.Migrate.Atomic.{apply_lem, apply_atomic, apply_again}

abbrev before : Migration → Migration → Bool
before m n = leb m.version n.version

abbrev Before : Migration → Migration → Type 0
Before m n = m.version ≤ n.version

in_order : (m n : Migration) → before m n ≡ true → Before m n
in_order m n h = ground (arith, h)

turns : (m n : Migration) → before m n ≡ false → Before n m
turns m n h = ground (arith, h)

le_trans : (m n o : Migration) → Before m n → Before n o → Before m o
le_trans m n o h k = omega (arith, h, k)

from_IsSorted :
    (ms : List Migration) → Sorting.IsSorted before Before in_order turns le_trans ms → IsSorted ms
from_IsSorted [] h = tt
from_IsSorted (m ∷ ms) h = (h.0, from_IsSorted ms h.1)

abbrev sorter : Sorter
sorter = record {
  sort = Sorting.insertion_sort before;
  sort-perm = Sorting.insertion_sort-perm before;
  sort-IsSorted = λ ms.
      from_IsSorted (Sorting.insertion_sort before ms)
        (Sorting.insertion_sort-IsSorted before Before in_order turns le_trans ms);
}

abbrev files : List File
files =
    record { name = bytes "0002_schedules.sql"; is_dir = false; body = some (bytes "b") }
    ∷ record { name = bytes "README.md"; is_dir = false; body = none }
    ∷ record { name = bytes "0001_tasks.sql"; is_dir = false; body = some (bytes "a") }
    ∷ []

abbrev tasks_table : Migration
tasks_table = record { version = 1; name = bytes "tasks"; sql = bytes "a" }

abbrev schedules_table : Migration
schedules_table = record { version = 2; name = bytes "schedules"; sql = bytes "b" }

files_load : load_from sorter files ≡ fine (tasks_table ∷ schedules_table ∷ [])
unfolding load_from read_files read_file match_filename split_words is_migration has_suffix is_digit
    is_word_byte contains trim_space Sorting.insertion_sort ◌=?◌
files_load = refl

load_from_lem_example :
    IsAscending (tasks_table ∷ schedules_table ∷ [])
    × (2 ≡ length (select is_migration files))
    × All
        (λ f.
          (m : Migration) × In m (tasks_table ∷ schedules_table ∷ [])
          × (match_filename f.name ≡ some (m.version, m.name))
          × (f.body ≡ some m.sql)
          × ((trim_space m.sql =? []) ≡ false))
        (select is_migration files)
load_from_lem_example = load_from_lem sorter files (tasks_table ∷ schedules_table ∷ []) files_load

-- A schema is the text of the statements that have run.
abbrev execute : Text → Text → Option Text
execute sql schema = some (schema ++ sql)

abbrev ready : Connection
ready = record {
  begins = true;
  locks = true;
  creates = true;
  lists = true;
  executes = λ v. true;
  records = λ v. true;
  commits = up;
}

-- The first migration is already there.
abbrev old : Catalog Text
old = record { schema = bytes "a"; versions = 1 ∷ [] }

abbrev migrated : Catalog Text
migrated = record { schema = bytes "ab"; versions = 1 ∷ 2 ∷ [] }

runs : apply execute ready sorter files old ≡ (migrated, applied 1)
unfolding apply apply_missing apply_one load_from read_files read_file match_filename split_words
    is_migration has_suffix is_digit is_word_byte contains trim_space Sorting.insertion_sort ◌=?◌
runs = refl

apply_lem_example :
    (ms : List Migration) × (load_from sorter files ≡ fine ms)
    × (run_sql execute (missing (1 ∷ []) ms) (bytes "a") ≡ some (bytes "ab"))
    × (1 ∷ 2 ∷ [] ≡ (1 ∷ []) ++ versions (missing (1 ∷ []) ms))
    × (1 ≡ length (missing (1 ∷ []) ms))
apply_lem_example = apply_lem execute ready sorter files old migrated 1 runs

apply_again_example : apply execute ready sorter files migrated ≡ (migrated, applied 0)
apply_again_example = apply_again execute ready ready sorter files old migrated 1 runs refl refl

-- The second migration is applied and cannot be recorded.
abbrev broken : Connection
broken = record ready { records = λ v. false }

breaks : apply execute broken sorter files old ≡ (old, apply_failed 0)
unfolding apply apply_missing apply_one load_from read_files read_file match_filename split_words
    is_migration has_suffix is_digit is_word_byte contains trim_space Sorting.insertion_sort ◌=?◌
breaks = refl

apply_atomic_example : ◌≡◌ {A = Catalog Text} old old
apply_atomic_example = apply_atomic execute broken sorter files old old 0 (λ h. cc h) breaks
