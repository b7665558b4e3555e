-- ===== src/Schedules/Runs/Marker/Locked.antt =====
-- A set marker: the runs, the restarts and the acknowledgement that meet it.
use wendougee_data_ha.Base.{List, [], ◌∷◌, Bool, Result}
use wendougee_data_ha.Coordinator.{Coordinator}
use wendougee_data_ha.Schedules.{Boiler, Both, put, Home, Plant, P}
use wendougee_data_ha.Schedules
use wendougee_data_ha.Schedules.Runs.{attempt, restart}

module _ {W : Type 0} (home : Home W) (boiler : Boiler) where
  -- a marked boiler's run leaves the plant to its handlers
  data Refused (p : Plant W) : Result (Unit {0}) × Plant W → Type 0 where
    refused : (r : Result (Unit {0})) → Refused p (r, p)

  -- what may meet a marked boiler: a run of its on or off edge, or a new process
  pub data Event : Type 0 where
    tried : (enabled : Bool) → Event
    restarted : (c : Coordinator) → Event

  unfoldable pub driven : List Event → Plant W → Plant W
  unfolding attempt restart
  driven [] p = p
  driven (tried enabled ∷ events) p = driven events (attempt home boiler enabled p).1
  driven (restarted c ∷ events) p = driven events (restart home c p)
