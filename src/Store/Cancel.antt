-- ===== src/Store/Cancel.antt =====
-- internal/store/postgres/get_cancel.go.
pub mod Laws
use tick.Base.{ℕ, zero, suc, Bool, true, ◌&&◌, Option, none, some, ◌==◌, find}
use tick.Domain.{Task, cancelled, is_pending, Result, ok, err, not_found, not_cancellable, no_rows}
use tick.Database.{Db, Link, exec}
use tick.Store.{has_id, write, read}

-- QueryRow and scanTask: no row is the error pgx.ErrNoRows.
abbrev pub scan_task : Option Task → Result Task
scan_task none = err no_rows
scan_task (some t) = ok t

-- `if errors.Is(err, pgx.ErrNoRows) { return ErrNotFound }`.
abbrev pub no_rows_as_not_found {ℓ} : {A : Type ℓ} → Result A → Result A
no_rows_as_not_found (err no_rows) = err not_found
no_rows_as_not_found r = r

unfoldable pub get : Link → ℕ → Db → Db × Result Task
unfolding exec read
get link id db =
    let (db', r) = exec link true (read (λ d. scan_task (find (has_id id) d.tasks))) db in
    (db', no_rows_as_not_found r)

-- `WHERE id = $1 AND status = 'pending'`.
abbrev pub cancellable_row : ℕ → Task → Bool
cancellable_row id t = t.id == id && is_pending t.status

unfoldable pub set_cancelled : Task → Task
set_cancelled t = record t { status = cancelled }

-- What Get's answer makes of a Cancel that matched nothing.
abbrev pub refusal : Result Task → Result (Unit {0})
refusal (err e) = err e
refusal (ok t) = err not_cancellable

-- What Cancel does after the UPDATE. `meanwhile` is what other connections do before the Get.
abbrev pub after_update : Link → (Db → Db) → ℕ → Db → Result ℕ → Db × Result (Unit {0})
unfolding get
after_update link meanwhile id db (err e) = (db, err e)
after_update link meanwhile id db (ok (suc n)) = (db, ok tt)
after_update link meanwhile id db (ok zero) =
    let later = meanwhile db in (later, refusal (get link id later).1)

unfoldable pub cancel : Link → Link → (Db → Db) → ℕ → Db → Db × Result (Unit {0})
unfolding exec write set_cancelled get after_update
cancel link link' meanwhile id db =
    let (db', tag) = exec link true (write (cancellable_row id) set_cancelled) db in
    after_update link' meanwhile id db' tag
