-- ===== src/Tests/Locks.antt =====
-- A coordinator whose executor times out, and one whose store cannot save.
use wendougee_data_ha.Base.{
  ℕ, suc, [], ◌∷◌, true, false, none, Error, err, ok, Result, timeout_error, home_assistant_error,
  ◌≡◌, refl,
}
use wendougee_data_ha.Controls.{brew_enabled}
use wendougee_data_ha.Activity
use wendougee_data_ha.Coordinator.{
  Coordinator, Locks, Backend, Running, start_profile, prepare_profile, any_locked,
}
use wendougee_data_ha.Coordinator.Guards.{
  IsGuarded, IsReady, uncertain_start_blocks, unsaved_start_sends_nothing, restarted,
}
use wendougee_data_ha.Coordinator.Invariant.{
  boiler, starting, cleaning, restarting, run, run-IsGuarded,
}

abbrev free : Locks
free = record {
  profile_start_locked = false;
  profile_preparation_locked = false;
  cleaning_start_locked = false;
}

abbrev pub coordinator : Coordinator
coordinator = record {
  stopped = false;
  options = record {
    allow_boiler_control = true;
    allow_profile_start = true;
    allow_cleaning_control = true;
  };
  connection_locked = false;
  locks = free;
  saved = free;
  schedule_pending = false;
  configuration = none;
  operating_state = none;
  latest = none;
  available = true;
  activity = Activity.new;
}

-- the world counts the calls of executors
abbrev backend : Result (Unit {0}) → Backend ℕ
backend saving = record {
  save = λ locks w. (saving, w);
  execute_boiler = λ setting enabled w. (err timeout_error, suc w);
  execute_profile = λ w. (err timeout_error, suc w);
  execute_preparation = λ w. (err timeout_error, suc w);
  execute_cleaning = λ w. (err timeout_error, ([], suc w));
  verify_idle = λ w. (ok tt, suc w);
  save_activity = λ t w. (ok tt, w);
  now = λ w. 0;
}

abbrev idle : Running ℕ
idle = record { c = coordinator; world = 0 }

ready : (saving : Result (Unit {0})) → IsReady (backend saving) idle
unfolding any_locked
ready saving = record { enabled = refl; running = refl; free = refl; unlocked = refl }

uncertain_start_blocks_example :
    let b = backend (ok tt) in
    let after = (start_profile b idle).1 in
    ((start_profile b after).1 ≡ after)
    × ((prepare_profile b after).1 ≡ after)
    × ((start_profile b (restarted b after)).1 ≡ restarted b after)
    × ((prepare_profile b (restarted b after)).1 ≡ restarted b after)
uncertain_start_blocks_example =
    uncertain_start_blocks (backend (ok tt)) idle timeout_error (ready (ok tt)) refl refl refl

abbrev disk_full : Error
disk_full = home_assistant_error "disk full"

unsaved_start_sends_nothing_example :
    ((start_profile (backend (err disk_full)) idle).1.world ≡ 0)
    × ((start_profile (backend (err disk_full)) idle).1.c.locks.profile_start_locked ≡ true)
unsaved_start_sends_nothing_example =
    unsaved_start_sends_nothing (backend (err disk_full)) idle disk_full (ready (err disk_full))
      refl refl

guarded : IsGuarded coordinator
guarded = record { profile = refl; preparation = refl; cleaning = refl }

run-IsGuarded_example :
    IsGuarded
      (run
        (backend (ok tt))
        (starting ∷ boiler brew_enabled true ∷ restarting ∷ cleaning ∷ [])
        idle).c
run-IsGuarded_example =
    run-IsGuarded (backend (ok tt))
      (starting ∷ boiler brew_enabled true ∷ restarting ∷ cleaning ∷ []) idle guarded
