-- ===== src/Database/Checks.antt =====
-- The constraints of 0001_tasks.sql and 0002_schedules.sql that the database holds rows to.
use tick.Base.{
  ℕ, ◌^◌, Bool, true, not, ◌&&◌, ◌||◌, Option, none, some, List, [], Text, ltb, ◌==◌, ◌=?◌, ◌=??◌,
  is_some, find,
}
use tick.Base.Int.{ℤ, pos, negsuc}
use tick.Domain.{Task, Schedule, is_running}

-- The CHECK constraints of `tasks`. The status and attempts constraints hold by the types.
unfoldable pub checks : Task → Bool
checks t =
    ltb 0 t.max_attempts
    && not (t.handler =? [])
    && not (t.queue =? [])
    && (not (is_running t.status) || (is_some t.claimed_by && is_some t.heartbeat_at))

unfoldable pub schedule_checks : Schedule → Bool
schedule_checks s =
    not (s.cron =? [])
    && not (s.handler =? [])
    && not (s.queue =? [])
    && not (s.timezone =? [])
    && ltb 0 s.max_attempts

-- An INT column holds 32-bit numbers.
abbrev pub int4_ok : ℕ → Bool
int4_ok n = ltb n (2 ^ 31)

abbrev pub int4_ok_ℤ : ℤ → Bool
int4_ok_ℤ (pos n) = ltb n (2 ^ 31)
int4_ok_ℤ (negsuc n) = ltb n (2 ^ 31)

-- The index tasks_queue_idempotency_key_uniq: a row that a new one with this queue and key would meet.
abbrev pub has_key : Text → Text → Task → Bool
has_key queue key t = t.queue =? queue && t.idempotency_key =?? key

-- A row without a key is not in the index.
unfoldable pub conflict : Task → List Task → Option Task
conflict t ts = elim t.idempotency_key [ none ↦ none | some key ↦ find (has_key t.queue key) ts ]

-- The foreign key tasks_schedule_id_fkey.
abbrev pub has_schedule_id : ℕ → Schedule → Bool
has_schedule_id i s = s.id == i

unfoldable pub references : Task → List Schedule → Bool
references t ss = elim t.schedule_id [
  | none ↦ true
  | some i ↦ is_some (find (has_schedule_id i) ss)
]
