-- ===== src/System/Promises.antt =====
-- What an answer of the API promises, whatever the system does after it.
use tick.Base.{
  ℕ, ◌≤◌, ◌≡◌, refl, sym, ◌∙◌, ap, subst, inl, inr, true, Option, none, some, List, [], ◌∷◌, Text,
  Bool-cases,
}
use tick.Base.Int.{pos}
use tick.Domain.{Task, cancelled, is_pending, terminal}
use tick.Database.{Db, up}
use tick.Store.{row}
use tick.Store.Enqueue.{Enqueued, created, duplicate, refused, enqueue, new_row}
use tick.Store.Enqueue.Created.{enqueue-created, IsNew}
use tick.Store.History.Valid.{IsValid}
use tick.Store.History.LifeCycle.{terminal_is_final, handouts-le-max_attempts, row-IsSoundRow}
use tick.Api.{
  TaskSubmission, FieldError, validate_submission, submitted_task, submit_task, created_task,
  respond,
}
use tick.Api.Resources.{body, empty, get_task, cancel_task}
use tick.Api.Resources.Laws.{cancel_task_lem, deleted, shown, shown_row, get_task-row}
use tick.System.{World, Setting, Reach, here, later, delete_task, post_task}
use tick.System.Reached.{system-IsHistory, Reach-IsValid}

shown_row-inverse : (o : Option Task) (t : Task) → shown_row o ≡ body 200 t → o ≡ some t
unfolding shown_row
shown_row-inverse none t e = absurd (cc)
shown_row-inverse (some u) t e = ap some (cc e)

-- Only a pending task is deleted with 204.
deleted-empty :
    (o : Option Task)
    → deleted o ≡ empty 204
    → (t : Task) × (o ≡ some t) × (is_pending t.status ≡ true)
deleted-empty none e = absurd (cc)
deleted-empty (some t) e = elim (Bool-cases (is_pending t.status)) [
  | inl p ↦ (t, refl, p)
  | inr n ↦ absurd (cc (rw n at e))
]

module _ {Location Spec Handler : Type 0} (env : Setting Location Spec Handler) where
  -- A terminal row is the same in every later world.
  terminal_stays :
      (w x : World) (i : ℕ) (t : Task)
      → IsValid w.db
      → Reach env w x
      → row i w.db ≡ some t
      → terminal t.status ≡ true
      → row i x.db ≡ some t
  terminal_stays w x i t v r e h =
      let (es, same) = system-IsHistory env r in
      subst (λ (d : Db). row i d ≡ some t) same (terminal_is_final env.pg es w.db i t v e h)

  -- Once a DELETE of a task is answered 204, every later GET of it shows the task as it was, but
  -- cancelled, whatever workers, sweepers, schedulers and other clients do in between.
  pub deleted_for_good :
      (w x : World) (raw : Text) (i : ℕ)
      → IsValid w.db
      → env.parse_int raw ≡ some (pos i)
      → (cancel_task env.parse_int up up (λ d. d) raw w.db).1 ≡ empty 204
      → Reach env (record w { db = (cancel_task env.parse_int up up (λ d. d) raw w.db).0 }) x
      → (t : Task) × (row i w.db ≡ some t)
        × ((get_task env.parse_int up raw x.db).1 ≡ body 200 (record t { status = cancelled }))
  deleted_for_good w x raw i v p gone r =
      let after = (cancel_task env.parse_int up up (λ d. d) raw w.db).0 in
      let first : Reach env w (record w { db = after }) = later here (delete_task up up raw) in
      let (reply, shows) = cancel_task_lem env.parse_int raw i w.db w.db.next_task_id v p in
      let (t, found, waits) = deleted-empty (row i w.db) (sym reply ∙ gone) in
      let now : row i after ≡ some (record t { status = cancelled }) =
        shown_row-inverse (row i after) (record t { status = cancelled })
          (sym (get_task-row env.parse_int raw i after p)
            ∙ shows
            ∙ ap shown found
            ∙ rw waits refl) in
      let stays =
        terminal_stays (record w { db = after }) x i (record t { status = cancelled })
          (Reach-IsValid env v first) r now (unfold terminal in refl) in
      (
        t,
        found,
        get_task-row env.parse_int raw i x.db p ∙ ap shown_row stays ∙ (unfold shown_row in refl),
      )

  respond-created : (a : Enqueued) (t : Task) → respond a ≡ created_task t → a ≡ created t
  respond-created (created u) t e = ap created (cc e)
  respond-created (duplicate u) t e = absurd (cc)
  respond-created (refused x) t e = absurd (cc)

  -- What a POST that is answered 201 has done.
  submit_task-created :
      (now : ℕ) (header : Text) (sub : TaskSubmission) (db : Db) (t : Task)
      → IsValid db
      → (submit_task env.pg up up (λ d. d) now env.rfc3339 header sub db).1 ≡ created_task t
      → let after = (submit_task env.pg up up (λ d. d) now env.rfc3339 header sub db).0 in
        IsNew now (submitted_task env.rfc3339 header sub) db after t × (row t.id after ≡ some t)
  unfolding submit_task
  submit_task-created now header sub db t v e = by_errors (validate_submission env.rfc3339 sub) refl
    where
      by_errors :
          (errs : List FieldError)
          → validate_submission env.rfc3339 sub ≡ errs
          → let after = (submit_task env.pg up up (λ d. d) now env.rfc3339 header sub db).0 in
            IsNew now (submitted_task env.rfc3339 header sub) db after t × (row t.id after ≡ some t)
      by_errors [] clean =
          let task = submitted_task env.rfc3339 header sub in
          rw (clean, submit_task)
            (enqueue-created env.pg now task db t v (
              respond-created (enqueue env.pg up up (λ d. d) now task db).1 t
                (rw (clean, submit_task) at e)))
      by_errors (x ∷ errs) bad = absurd (cc (rw (bad, submit_task) at e))

  -- Once a POST of a task is answered 201 with it, every later GET of its id shows a task with what
  -- was submitted, which has been attempted at most as often as it may be, whatever workers, sweepers,
  -- schedulers and other clients do in between.
  pub accepted_is_kept :
      (w x : World) (now : ℕ) (header : Text) (sub : TaskSubmission) (t : Task) (raw : Text)
      → IsValid w.db
      → (submit_task env.pg up up (λ d. d) now env.rfc3339 header sub w.db).1 ≡ created_task t
      → env.parse_int raw ≡ some (pos t.id)
      → Reach env
          (record w { db = (submit_task env.pg up up (λ d. d) now env.rfc3339 header sub w.db).0 })
          x
      → (u : Task) × ((get_task env.parse_int up raw x.db).1 ≡ body 200 u)
        × (u.handler ≡ sub.handler)
        × (u.priority ≡ sub.priority)
        × (u.payload ≡ t.payload)
        × (u.attempts ≤ u.max_attempts)
  unfolding submitted_task new_row
  accepted_is_kept w x now header sub t raw v made p r =
      let (new, there) = submit_task-created now header sub w.db t v made in
      let (es, same) = system-IsHistory env r in
      let after = (submit_task env.pg up up (λ d. d) now env.rfc3339 header sub w.db).0 in
      let first : Reach env w (record w { db = after }) =
        later here (post_task up up now header sub) in
      let valid = Reach-IsValid env v first in
      let (u, found, kept, few) =
        handouts-le-max_attempts env.pg es
          (submit_task env.pg up up (λ d. d) now env.rfc3339 header sub w.db).0 t.id t valid
          there in
      let stored : row t.id x.db ≡ some u = subst (λ (d : Db). row t.id d ≡ some u) same found in
      (
        u,
        get_task-row env.parse_int raw t.id x.db p
            ∙ ap shown_row stored
            ∙ (unfold shown_row in refl),
        kept.same_handler ∙ ap (λ (y : Task). y.handler) new.1,
        kept.same_priority ∙ ap (λ (y : Task). y.priority) new.1,
        kept.same_payload,
        (row-IsSoundRow x.db t.id u (Reach-IsValid env valid r) stored).counted,
      )
