-- ===== src/Worker/Run/Shutdown.antt =====
-- The steps that lead a run to its return.
use tick.Base.{◌≡◌, true, Text}
use tick.Database.{Db, Postgres}
use tick.Worker.{Registry, Format}
use tick.Worker.Run.{Config, State, is_returned, Step}

module _ {Handler : Type 0} (pg : Postgres) (fmt : Format) (registry : Registry Handler)
    (cfg : Config) (worker_id : Text) where
  -- Steps of the run that begin in the state `x`.
  pub data Leads (x : Db × State) : Db × State → Type 0 where
    at_once : Leads x x
    onward : {y z : Db × State} → Leads x y → Step pg fmt registry cfg worker_id y z → Leads x z

  -- The state leads to one in which the run has returned.
  abbrev pub MayReturn : Db × State → Type 0
  MayReturn x = (y : Db × State) × Leads x y × (is_returned y.1.phase ≡ true)
