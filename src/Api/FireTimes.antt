-- ===== src/Api/FireTimes.antt =====
-- The next fire times that POST /schedules answers with (internal/api/schedules_create.go), and NextN
-- of a zone's name (internal/cron/nextn.go).
use tick.Base.{
  ℕ, ◌≡◌, refl, inl, inr, ap, ◌∙◌, sym, Bool, true, false, not, ◌&&◌, Option, none, some, List, [],
  ◌∷◌, Text, bytes, ◌=?◌, is_some, Bool-cases, Option-cases, arith,
}
use tick.Base.Rows.{append-eq-nil}
use tick.Domain.{Schedule, Result, ok, err, invalid_timezone, rejected, default_timezone}
use tick.Domain.Operations.{Clockwork}
use tick.Cron.{Robfig, Zone, parse, next_n}
use tick.Database.{Db, Postgres, Link, up, down, lost, exec}
use tick.Database.Checks.{schedule_checks}
use tick.Store.Schedules.{
  create_schedule, insert_schedule, new_schedule, sound_schedule, or_default,
}
use tick.Api.{
  ScheduleSubmission, FieldError, validate_schedule_submission, cron_errors, parses, error_when,
}
use tick.Api.ScheduleSubmissions.{
  submit_schedule, submitted_schedule, created_schedule, respond_schedule, ScheduleResponse,
}

abbrev pub next_fire_times_shown : ℕ
next_fire_times_shown = 5

module _ {Location Spec : Type 0} (go : Clockwork Location) (cron : Robfig Spec)
    (zone : Location → Zone) where
  abbrev pub at_location : ℕ → ℕ → ℕ → Result Spec → Option Location → Result (Option (List ℕ))
  at_location fuel after n (err e) loc = err e
  at_location fuel after n (ok spec) none = err invalid_timezone
  at_location fuel after n (ok spec) (some loc) = ok (next_n cron (zone loc) spec fuel after n)

  -- The function NextN; inside, none is the loop out of fuel.
  unfoldable pub next_n_in : ℕ → Text → Text → ℕ → ℕ → Result (Option (List ℕ))
  unfolding parse next_n
  next_n_in fuel expr tz after n = at_location fuel after n (parse cron expr) (go.load_location tz)

  -- `next, _ := cron.NextN(…)`.
  abbrev pub ignoring_error : Result (Option (List ℕ)) → Option (List ℕ)
  ignoring_error (err e) = some []
  ignoring_error (ok times) = times

  unfoldable pub shown_fire_times : ℕ → ℕ → Schedule → Option (List ℕ)
  unfolding next_n_in
  shown_fire_times fuel now sc =
      ignoring_error (next_n_in fuel sc.cron sc.timezone now next_fire_times_shown)

insert_schedule-ok :
    (now : ℕ) (document : Text) (sc s : Schedule) (db db' : Db)
    → insert_schedule now document sc db ≡ (db', ok s)
    → (s.cron ≡ sc.cron) × (s.timezone ≡ or_default sc.timezone default_timezone)
unfolding insert_schedule new_schedule
insert_schedule-ok now document sc s db db' e =
    let row = new_schedule now document sc db.next_schedule_id in
    elim (Bool-cases (schedule_checks row)) [
      | inl t ↦
          let same : row ≡ s = cc (rw t at e) in
          (ap (λ (x : Schedule). x.cron) (sym same), ap (λ (x : Schedule). x.timezone) (sym same))
      | inr f ↦ absurd (cc (rw f at e))
    ]

exec-ok {ℓ} :
    {A : Type ℓ} (link : Link) (sound : Bool) (statement : Db → Db × Result A) (db db' : Db) (a : A)
    → exec link sound statement db ≡ (db', ok a)
    → statement db ≡ (db', ok a)
unfolding exec
exec-ok up true statement db db' a e = e
exec-ok up false statement db db' a e = absurd (cc)
exec-ok down sound statement db db' a e = absurd (cc)
exec-ok lost true statement db db' a e = absurd (cc)
exec-ok lost false statement db db' a e = absurd (cc)

create_schedule-ok :
    (pg : Postgres) (link : Link) (now : ℕ) (sc s : Schedule) (db db' : Db)
    → create_schedule pg link now sc db ≡ (db', ok s)
    → (s.cron ≡ sc.cron) × (s.timezone ≡ or_default sc.timezone default_timezone)
unfolding create_schedule
create_schedule-ok pg link now sc s db db' e = elim (Option-cases (pg.to_jsonb sc.payload)) [
  | inl bad ↦
      absurd
        (cc (exec-ok link false (λ d. (d, err rejected)) db db' s (rw (bad, create_schedule) at e)))
  | inr (document, fine) ↦ insert_schedule-ok now document sc s db db' (
      exec-ok link (sound_schedule pg sc) (insert_schedule now document sc) db db' s
        (rw (fine, create_schedule) at e))
]

parses-ok : {Spec : Type 0} (r : Result Spec) → parses r ≡ true → (spec : Spec) × (r ≡ ok spec)
parses-ok (ok spec) e = (spec, refl)
parses-ok (err x) e = absurd (cc)

is_some-some : {A : Type 0} (o : Option A) → is_some o ≡ true → (a : A) × (o ≡ some a)
is_some-some none e = absurd (cc)
is_some-some (some a) e = (a, refl)

error_when-nil : (b : Bool) (field message : Text) → error_when b field message ≡ [] → b ≡ false
error_when-nil true field message e = absurd (cc)
error_when-nil false field message e = refl

not-false : (b : Bool) → not b ≡ false → b ≡ true
not-false true e = refl
not-false false e = absurd (cc)

module _ {Location Spec : Type 0} (go : Clockwork Location) (cron : Robfig Spec)
    (cron_error : Text → Text) where
  respond_schedule-created :
      (r : Result Schedule) (sc : Schedule) → respond_schedule r ≡ created_schedule sc → r ≡ ok sc
  respond_schedule-created (ok s) sc e = cc e
  respond_schedule-created (err x) sc e = absurd (cc)

  submit_schedule-created :
      (pg : Postgres) (link : Link) (now : ℕ) (sub : ScheduleSubmission) (db db' : Db)
      (sc : Schedule) (errs : List FieldError)
      → validate_schedule_submission go cron cron_error sub ≡ errs
      → submit_schedule go cron cron_error pg link now sub db ≡ (db', created_schedule sc)
      → (errs ≡ []) × (create_schedule pg link now (submitted_schedule sub) db ≡ (db', ok sc))
  unfolding submit_schedule
  submit_schedule-created pg link now sub db db' sc [] clean e =
      let h = rw (clean, submit_schedule) at e in
      let answer = create_schedule pg link now (submitted_schedule sub) db in
      (
        refl,
        ap (λ (r : Result Schedule). let p : Db × Result Schedule = (answer.0, r) in p)
              (respond_schedule-created answer.1 sc (ap (λ (p : Db × ScheduleResponse). p.1) h))
            ∙ ap (λ (d : Db). let p : Db × Result Schedule = (d, ok sc) in p)
                (ap (λ (p : Db × ScheduleResponse). p.0) h),
      )
  submit_schedule-created pg link now sub db db' sc (x ∷ errs) dirty e =
      absurd (cc (ap (λ (p : Db × ScheduleResponse). p.1) (rw (dirty, submit_schedule) at e)))

  cron_parses :
      (expr : Text) → cron_errors go cron cron_error expr ≡ [] → parses (parse cron expr) ≡ true
  unfolding cron_errors
  cron_parses expr e = elim (Bool-cases (expr =? [])) [
    | inl empty ↦
        absurd (cc (error_when-nil true (bytes "cron") (bytes "is required") (rw empty at e)))
    | inr given ↦ not-false _ (error_when-nil _ (bytes "cron") (cron_error expr) (rw given at e))
  ]

  validated :
      (sub : ScheduleSubmission)
      → validate_schedule_submission go cron cron_error sub ≡ []
      → (parses (parse cron sub.cron) ≡ true)
        × ((not (sub.timezone =? []) && not (is_some (go.load_location sub.timezone))) ≡ false)
  unfolding validate_schedule_submission
  validated sub e =
      let (no_cron_error, rest) = append-eq-nil (cron_errors go cron cron_error sub.cron) _ e in
      let (no_zone_error, _) = append-eq-nil _ _ rest in
      (cron_parses sub.cron no_cron_error, error_when-nil _ _ _ no_zone_error)

  -- The default zone is one that loads: that is all that is needed for a zone that is left out.
  module _ (utc : is_some (go.load_location default_timezone) ≡ true) where
    zone_loads :
        (tz : Text)
        → (not (tz =? []) && not (is_some (go.load_location tz))) ≡ false
        → (loc : Location) × (go.load_location (or_default tz default_timezone) ≡ some loc)
    zone_loads tz e = elim (Bool-cases (tz =? [])) [
      | inl empty ↦ rw empty (is_some-some (go.load_location default_timezone) utc)
      | inr given ↦ rw given (is_some-some (go.load_location tz) (ground (arith, e, given)))
    ]

    -- Where POST /schedules answers 201, NextN has no error to ignore: the schedule that was created
    -- parses and its zone loads, and the fire times that the answer shows are those of NextN on the
    -- parsed expression in that zone. The one condition is that the default zone loads.
    pub created_schedule_fires :
        (zone : Location → Zone) (pg : Postgres) (link : Link) (now node_now fuel : ℕ)
        (sub : ScheduleSubmission) (db db' : Db) (sc : Schedule)
        → submit_schedule go cron cron_error pg link now sub db ≡ (db', created_schedule sc)
        → (spec : Spec) × (loc : Location) × (parse cron sub.cron ≡ ok spec)
          × (go.load_location sc.timezone ≡ some loc)
          × (shown_fire_times go cron zone fuel node_now sc
              ≡ next_n cron (zone loc) spec fuel node_now 5)
    unfolding shown_fire_times next_n_in submitted_schedule
    created_schedule_fires zone pg link now node_now fuel sub db db' sc e =
        let (clean, made) =
          submit_schedule-created pg link now sub db db' sc
            (validate_schedule_submission go cron cron_error sub) refl e in
        let (same_cron, same_zone) =
          create_schedule-ok pg link now (submitted_schedule sub) sc db db' made in
        let (parsed, zoned) = validated sub clean in
        let (spec, p) = parses-ok (parse cron sub.cron) parsed in
        let (loc, l) = zone_loads sub.timezone zoned in
        let l' : go.load_location sc.timezone ≡ some loc = rw same_zone l in
        (spec, loc, p, l', rw (same_cron, p, l') refl)
