-- ===== src/Tests/Routes.antt =====
-- The theorems on the routes of one task and one schedule at concrete inputs.
use tick.Base.{◌-◌, ◌≡◌, refl, Option, none, some, [], ◌∷◌, Text, bytes, find, ltb, if◌then◌else◌}
use tick.Base.Int.{ℤ, pos}
use tick.Database.{up}
use tick.Api.Resources.{get_task, cancel_task}
use tick.Api.Resources.Laws.{cancel_task_lem, deleted, shown}
use tick.Samples.{store, store-IsValid, waiting}

-- One decimal digit.
abbrev pub parse_int : Text → Option ℤ
parse_int (c ∷ []) = if ltb c 58 then some (pos (c - 48)) else none
parse_int _ = none

cancel_task_lem_example :
    let (after, reply) = cancel_task parse_int up up (λ d. d) (bytes "1") store in
    (reply ≡ deleted (some waiting))
    × ((get_task parse_int up (bytes "1") after).1 ≡ shown (some waiting))
unfolding find
cancel_task_lem_example = cancel_task_lem parse_int (bytes "1") 1 store 5 store-IsValid refl
