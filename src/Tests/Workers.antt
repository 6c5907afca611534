-- ===== src/Tests/Workers.antt =====
-- The theorems on workers and sweepers at concrete inputs.
use tick.Base.{ℕ, ◌≡◌, refl, Bool, true, false, not, ◌&&◌, some, [], ◌∷◌, bytes, ◌=?◌, ◌==◌, select}
use tick.Domain.{Task, ok}
use tick.Database.{up, exec}
use tick.Database.Order.{plain_postgres}
use tick.Store.{write}
use tick.Store.Claim.{contains}
use tick.Store.Heartbeat.{heartbeat, beating}
use tick.Worker.{Registry, register, entry, Outcome, panicked, Format, heartbeat_once}
use tick.Worker.LostClaims.{heartbeat_once_lem, is_lost}
use tick.Samples.{store, alice}

abbrev handlers : Registry ℕ
handlers = (bytes "report", 7) ∷ []

abbrev pub more_handlers : Registry ℕ
more_handlers = (bytes "email", 8) ∷ handlers

registered_email : register (bytes "email") 8 handlers ≡ some more_handlers
unfolding register entry ◌=?◌
registered_email = refl

abbrev pub format : Format
format = record { quote = λ s. s; timeout = bytes "1m0s" }

-- Every handler panics.
abbrev pub panics : ℕ → Task → Outcome × Bool
panics _ _ = (panicked (bytes "boom") [], false)

-- Alice still owns task 2 and has lost task 4.
one_refreshed : (heartbeat plain_postgres up 400 (2 ∷ 4 ∷ []) alice store).1 ≡ ok 1
unfolding heartbeat exec write beating contains select ◌=?◌
one_refreshed = refl

heartbeat_once_lem_example :
    contains
      (heartbeat_once plain_postgres up (λ _. up) (λ _. true) 400 (2 ∷ 4 ∷ []) alice store).1
      4
    ≡ (not (1 == 2)
        && (contains (2 ∷ 4 ∷ []) 4
            && is_lost
                (λ _. up)
                (λ _. true)
                alice
                (heartbeat plain_postgres up 400 (2 ∷ 4 ∷ []) alice store).0
                4))
heartbeat_once_lem_example =
    heartbeat_once_lem plain_postgres up (λ _. up) (λ _. true) 400 (2 ∷ 4 ∷ []) alice store 1 4
      one_refreshed
