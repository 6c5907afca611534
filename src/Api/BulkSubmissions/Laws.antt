-- ===== src/Api/BulkSubmissions/Laws.antt =====
-- The answer to a bulk submission, item by item.
use tick.Base.{ℕ, ◌+◌, Option, List, [], ◌∷◌, Text}
use tick.Domain.{Task}
use tick.Api.{TaskSubmission, FieldError, validate_submission}
use tick.Api.BulkSubmissions.{BulkItemResult, zero_item, invalid_item, task_item}

-- One result for each submission, in order: its validation errors, or the next of the stored tasks.
abbrev pub item_for : ℕ → ℕ → List FieldError → List Task → BulkItemResult × List Task
unfolding task_item
item_for start i (e ∷ errs) out = (invalid_item i (e ∷ errs), out)
item_for start i [] [] = (zero_item, [])
item_for start i [] (t ∷ out) = (task_item start i t, out)

module _ (rfc3339 : Text → Option ℕ) (start : ℕ) where
  pub expected : ℕ → List TaskSubmission → List Task → List BulkItemResult
  unfolding item_for
  expected i [] out = []
  expected i (sub ∷ subs) out =
      let (item, rest) = item_for start i (validate_submission rfc3339 sub) out in
      item ∷ expected (i + 1) subs rest
