-- ===== src/Api/Laws.antt =====
-- Validation against the constraints of the tables, and a submission that is sent again.
use tick.Base.{
  ℕ, ◌≤◌, ◌≡◌, refl, ap, Bool, true, false, Option, none, some, [], ◌∷◌, ◌++◌, Text, arith, find,
  bytes, ◌=?◌, if◌then◌else◌, ltb,
}
use tick.Base.Rows.{append-eq-nil}
use tick.Base.Int.{ℤ, pos, negsuc}
use tick.Domain.{Task}
use tick.Database.{Db, Postgres, Link, up, lost, all_ok}
use tick.Database.Checks.{checks, int4_ok, int4_ok_ℤ, has_key, references}
use tick.Store.Enqueue.{new_row, sound, max_attempts_or_default, key_texts, enqueue}
use tick.Store.Enqueue.Laws.{IsAccepted, resubmission_is_idempotent}
use tick.Api.{
  TaskSubmission, validate_submission, handler_errors, payload_errors, number_errors, priority_ok,
  max_attempts_ok, submitted_task, submit_task, replayed_task, respond, to_nat,
}

pub handler_required : (handler : Text) → handler_errors handler ≡ [] → (handler =? []) ≡ false
unfolding handler_errors
handler_required handler e = ground arith

pub numbers_fit :
    (p m : ℤ)
    → number_errors p m ≡ []
    → (int4_ok_ℤ p ≡ true)
      × (int4_ok (max_attempts_or_default (to_nat m)) ≡ true)
      × (max_attempts_or_default (to_nat m) ≤ 100)
      × (m ≡ pos (to_nat m))
unfolding number_errors priority_ok max_attempts_ok
numbers_fit (pos p) (pos m) e = ground arith
numbers_fit (pos p) (negsuc m) e = ground arith
numbers_fit (negsuc p) (pos m) e = ground arith
numbers_fit (negsuc p) (negsuc m) e = ground arith

pub limit_positive : (m : ℕ) → ltb 0 (max_attempts_or_default m) ≡ true
limit_positive m = ground arith

queue_named : (queue : Text) → ((if queue =? [] then bytes "default" else queue) =? []) ≡ false
unfolding ◌=?◌
queue_named [] = refl
queue_named (c ∷ cs) = refl

checks-submitted :
    (rfc3339 : Text → Option ℕ) (header document : Text) (sub : TaskSubmission) (now id : ℕ)
    → (sub.handler =? []) ≡ false
    → checks (new_row now document (submitted_task rfc3339 header sub) id) ≡ true
unfolding submitted_task checks new_row
checks-submitted rfc3339 header document sub now id named =
    ground (arith, named, limit_positive (to_nat sub.max_attempts), queue_named sub.queue)

-- A submission without validation errors makes a row that satisfies the CHECK constraints of tasks,
-- and its numbers fit the INT columns; the number of attempts that it asks for is passed on as it is,
-- and the row's is at most 100.
pub validate_submission_lem :
    (rfc3339 : Text → Option ℕ) (header document : Text) (sub : TaskSubmission) (now id : ℕ)
    → validate_submission rfc3339 sub ≡ []
    → let t = submitted_task rfc3339 header sub in
      (checks (new_row now document t id) ≡ true)
      × (int4_ok_ℤ t.priority ≡ true)
      × (int4_ok (max_attempts_or_default t.max_attempts) ≡ true)
      × (max_attempts_or_default t.max_attempts ≤ 100)
      × (sub.max_attempts ≡ pos t.max_attempts)
unfolding validate_submission submitted_task
validate_submission_lem rfc3339 header document sub now id e =
    let (no_handler_error, rest) = append-eq-nil (handler_errors sub.handler) _ e in
    let rest' = (append-eq-nil (payload_errors sub.payload) _ rest).1 in
    let fit =
      numbers_fit sub.priority sub.max_attempts
        (append-eq-nil (number_errors sub.priority sub.max_attempts) _ rest').0 in
    let named = handler_required sub.handler no_handler_error in
    (checks-submitted rfc3339 header document sub now id named, fit.0, fit.1, fit.2, fit.3)

submitted-sound :
    (pg : Postgres) (t : Task)
    → all_ok pg.text_ok (t.queue ∷ t.handler ∷ key_texts t.idempotency_key) ≡ true
    → int4_ok_ℤ t.priority ≡ true
    → int4_ok (max_attempts_or_default t.max_attempts) ≡ true
    → sound pg t ≡ true
unfolding sound
submitted-sound pg t texts p m = ground (arith, texts, p, m)

submit-valid :
    (pg : Postgres) (link : Link) (rfc3339 : Text → Option ℕ) (header : Text) (sub : TaskSubmission)
    (now : ℕ) (db : Db)
    → validate_submission rfc3339 sub ≡ []
    → let answer = enqueue pg link up (λ d. d) now (submitted_task rfc3339 header sub) db in
      submit_task pg link up (λ d. d) now rfc3339 header sub db ≡ (answer.0, respond answer.1)
unfolding submit_task
submit-valid pg link rfc3339 header sub now db valid = rw (valid, submit_task) refl

-- A client that sends an accepted submission with a fresh idempotency key again, whether or not the
-- reply to the first one arrived, gets 200 with the task that the first one inserted, and no second
-- task is inserted. It is accepted if it has no validation errors, the database takes its texts and
-- stores its payload.
pub resubmission_lem :
    (pg : Postgres) (rfc3339 : Text → Option ℕ) (header document key : Text) (sub : TaskSubmission)
    (dropped : Bool) (now now' : ℕ) (db : Db)
    → let t = submitted_task rfc3339 header sub in
      validate_submission rfc3339 sub ≡ []
      → all_ok pg.text_ok (t.queue ∷ t.handler ∷ key_texts t.idempotency_key) ≡ true
      → pg.to_jsonb sub.payload ≡ some document
      → t.idempotency_key ≡ some key
      → find (has_key t.queue key) db.tasks ≡ none
      → let r = new_row now document t db.next_task_id in
        let first =
          submit_task pg (if dropped then lost else up) up (λ d. d) now rfc3339 header sub db in
        let second = submit_task pg up up (λ d. d) now' rfc3339 header sub first.0 in
        (first.0.tasks ≡ db.tasks ++ r ∷ [])
        × (second.0.tasks ≡ first.0.tasks)
        × (second.1 ≡ replayed_task r)
resubmission_lem pg rfc3339 header document key sub dropped now now' db valid texts json keyed
      fresh =
    let t = submitted_task rfc3339 header sub in
    let fit = validate_submission_lem rfc3339 header document sub 0 0 valid in
    let accepted : IsAccepted pg t document db = record {
      parameters = submitted-sound pg t texts fit.1 fit.2;
      json = unfold submitted_task in json;
      constraints = fit.0;
      known_schedule = unfold submitted_task references in refl;
    } in
    let (inserted, kept, replayed) =
      resubmission_is_idempotent pg t document key keyed dropped now now' db accepted fresh in
    let first = enqueue pg (if dropped then lost else up) up (λ d. d) now t db in
    rw (submit-valid pg (if dropped then lost else up) rfc3339 header sub now db valid) (
      rw (submit-valid pg up rfc3339 header sub now' first.0 valid)
        (inserted, kept, ap respond replayed))
