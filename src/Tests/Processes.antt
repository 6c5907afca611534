-- ===== src/Tests/Processes.antt =====
-- The theorems on processes, their logs, their files and their middleware at concrete inputs.
use tick.Base.{
  ℕ, ◌+◌, ◌*◌, ◌≤◌, ◌<◌, ◌≡◌, refl, false, ◌↔◌, Option, some, none, List, [], ◌∷◌, ◌++◌, arith,
  bytes, Text, if◌then◌else◌, find,
}
use tick.Base.Int.{pos}
use tick.Base.Members.{In}
use tick.Domain.{second, err, invalid_cron}
use tick.Database.{up}
use tick.Obs.{Attr, string_value, nil_value}
use tick.Obs.Context.{Context, with_value, background, with, attrs_from_context, context_value}
use tick.Obs.Context.Slices.{Memory, Slice, read}
use tick.Obs.Context.Siblings.{shown, withs, siblings_are_isolated}
use tick.Migrate.{Migration, is_word_byte, match_filename}
use tick.Migrate.Names.{migration_text, match_filename_iff}
use tick.Cron.{Robfig, parse, trim_space, fields}
use tick.Cron.Errors.{
  parse_or_error, refused, bad_field, FirstBad, locate_bad_field, blamed_field_is_first,
}
use tick.Store.{row}
use tick.Store.Claim.{contains}
use tick.Store.Recover.{reclaim}
use tick.Samples.{store, held_row}
use tick.Sweeper.{sweep_once, interval_or_default}
use tick.Sweeper.Loop.{first_delay, new}
use tick.Sweeper.Latency.{reclaimed_within_interval}
use tick.Ticker.{tick_times}
use tick.Api.Server.{
  Request, Action, write_header, write, panicked, returned, Handler, default_config, serve,
  max_body_bytes,
}
use tick.Api.Server.Panics.{Answers, serve_lem}

-- The array of the parent has room for two attributes more.
abbrev task_attr : Attr
task_attr = record { key = bytes "task_id"; value = string_value (bytes "7") }

abbrev worker_attr : Attr
worker_attr = record { key = bytes "worker"; value = string_value (bytes "a") }

abbrev no_attr : Attr
no_attr = record { key = []; value = nil_value }

abbrev arrays : Memory
arrays =
    (task_attr ∷ no_attr ∷ no_attr ∷ []) ∷ (worker_attr ∷ []) ∷ (no_attr ∷ worker_attr ∷ []) ∷ []

abbrev parent : Context
parent = with_value (record { base = 0; start = 0; len = 1; cap = 3 }) background

abbrev given : Slice
given = record { base = 1; start = 0; len = 1; cap = 1 }

abbrev sibling_calls : List (Context × Slice)
sibling_calls = (parent, record { base = 2; start = 1; len = 1; cap = 1 }) ∷ []

abbrev double : ℕ → ℕ
double n = n

siblings_are_isolated_example :
    let later = withs double sibling_calls (with double parent given arrays).1 in
    (shown (with double parent given arrays).0 later ≡ shown parent arrays ++ read given arrays)
    × (shown parent later ≡ shown parent arrays)
unfolding attrs_from_context context_value
siblings_are_isolated_example =
    siblings_are_isolated double parent given sibling_calls arrays
      (record { fits = omega arith; lies = omega arith })
      (record { fits = omega arith; lies = omega arith })

abbrev tasks_migration : Migration
tasks_migration = record { version = 12; name = bytes "tasks"; sql = bytes "SELECT 1" }

match_filename_iff_example :
    (match_filename (bytes "0012_tasks.sql") ≡ some (12, bytes "tasks"))
    ↔ (bytes "0012_tasks.sql" ≡ migration_text tasks_migration ++ bytes ".sql")
unfolding is_word_byte
match_filename_iff_example =
    match_filename_iff tasks_migration (bytes "0012_tasks.sql") (omega arith) (λ e. cc e)
      (refl, (refl, (refl, (refl, (refl, tt)))))

-- A parser that refuses every expression with an x.
abbrev without_x : Text → Option (Unit {0})
without_x t = if contains t 120 then none else some tt

abbrev no_x : Robfig (Unit {0})
no_x = record { parse_fields = without_x; parse_descriptor = λ _. none; next = λ _ t. none }

bad_hour : parse_or_error no_x (bytes " 0 x * * x") ≡ refused (bad_field (bytes "hour"))
unfolding parse_or_error trim_space fields locate_bad_field contains
bad_hour = refl

blamed_field_is_first_example :
    (parse no_x (bytes " 0 x * * x") ≡ err invalid_cron)
    × (a b c d e : Text) × (fields (trim_space (bytes " 0 x * * x")) ≡ a ∷ b ∷ c ∷ d ∷ e ∷ [])
    × FirstBad no_x a b c d e (bytes "hour")
blamed_field_is_first_example =
    blamed_field_is_first no_x (bytes " 0 x * * x") (bytes "hour") bad_hour

row-held : row 2 store ≡ some held_row
unfolding find
row-held = refl

-- The first delay is seven microseconds, and the fifth tick comes after the 90 seconds.
abbrev half_minute : ℕ
half_minute = 30 * second

interval-half_minute : new (pos half_minute) ≡ half_minute
unfolding interval_or_default
interval-half_minute = refl

reclaimed_within_interval_example :
    (now : ℕ) × In now
      (tick_times (0 + first_delay 7 (new (pos half_minute))) (new (pos half_minute)) (4 + 1))
    × (1000 + 90 * second < now)
    × (now ≤ 1000 + 90 * second + new (pos half_minute))
    × (row 2 (sweep_once up now store).0 ≡ some (reclaim now held_row))
unfolding first_delay interval_or_default
reclaimed_within_interval_example =
    reclaimed_within_interval (pos half_minute) 0 7 4 (λ _. store) 2 held_row 1000 (λ _. row-held)
      refl refl (omega arith) (omega arith)

-- A handler that has sent its status when it panics.
abbrev half_done : Handler
half_done r = record {
  actions = write_header 201 ∷ write (bytes "{") ∷ [];
  ending = panicked (bytes "nil map");
  logs = [];
}

abbrev post : Request
post = record {
  id = bytes "r1";
  method = bytes "POST";
  path = bytes "/tasks";
  body = record { content = bytes "{}"; fails = false };
}

abbrev no_count : List Action → ℕ
no_count _ = 0

abbrev no_timeout : ℕ → Handler → Handler
no_timeout _ next = next

serve_lem_example :
    ((serve no_count no_count no_timeout default_config half_done post).ending ≡ returned)
    × Answers no_count no_count post
        (half_done post)
        (serve no_count no_count no_timeout default_config half_done post)
        (panicked (bytes "nil map"))
unfolding max_body_bytes
serve_lem_example = serve_lem no_count no_count no_timeout default_config half_done post
