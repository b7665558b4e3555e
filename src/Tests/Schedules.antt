-- ===== src/Tests/Schedules.antt =====
-- A brew boiler whose schedule is due, at home with a machine that answers, twice on one date.
use wendougee_data_ha.Base.{
  ℕ, suc, List, [], ◌∷◌, true, false, none, some, ok, ◌≡◌, ◌⊎◌, ◌↔◌, refl, arith,
}
use wendougee_data_ha.State.{Configuration, pulse}
use wendougee_data_ha.Schedules
use wendougee_data_ha.Schedules.{
  brew, attempt_at, from_keys, no_attempts, not_run, ClockTime, Home, Plant, Saved, P,
}
use wendougee_data_ha.Schedules.Edges.{times, timers_of, listens, at_edge, refresh, status, armed}
use wendougee_data_ha.Schedules.Edges.Armed.{IsReady, status-armed_iff}
use wendougee_data_ha.Schedules.Runs.Marker.Acknowledged.{
  IsAcknowledged, acknowledge-IsAcknowledged,
}
use wendougee_data_ha.Schedules.Runs.Marker.Admitted.{Course, run-Course}
use wendougee_data_ha.Schedules.Runs.Marker.Started.{acquire, armed-executed}
use wendougee_data_ha.Schedules.Runs.{acknowledge, attempted, attempt, run, restart}
use wendougee_data_ha.Schedules.Runs.Once.{Distinct}
use wendougee_data_ha.Schedules.Runs.Once.Steps.{
  IsForward, here, next, runs, restarts, executed_once,
}
use wendougee_data_ha.Schedules.Runs.Marker.Pending.{Fate, attempt-marker}
use wendougee_data_ha.Schedules.Runs.Marker.Locked.{Event, tried, restarted}
use wendougee_data_ha.Schedules.Runs.Marker.Permitted.{Permitted, attempt-Permitted}
use wendougee_data_ha.Tests.Locks.{coordinator}

abbrev heated : Configuration
heated = record {
  cleaning_time_seconds = 100;
  cleaning_rest_seconds = 50;
  cleaning_repetitions = 5;
  steam_heating_enabled = some false;
  brew_heating_enabled = some true;
  steam_target_celsius = 130;
  brew_target_celsius = 93;
  manual_time_seconds = 300;
  manual_pressure_bar = 90;
  heating_mode = some pulse;
  raw_registers = [];
}

abbrev at_time : ℕ → ClockTime
at_time micros = record { micros = micros; aware = false }

-- the world counts the calls of the executor
abbrev home : Home ℕ
home = record {
  enabled = λ boiler w. true;
  on_time = λ boiler w. some (at_time 0);
  off_time = λ boiler w. some (at_time 3600000000);
  entries = λ w. 1;
  now = λ w. record { day = 7; micros = 30000000 };
  utcnow = λ w. w;
  save = λ saved w. (ok tt, w);
  execute_boiler = λ setting enabled w. (ok heated, suc w);
  verify_idle = λ w. (ok tt, w);
  notify = λ boiler w. w;
  dismiss = λ boiler w. w;
  turn_off = λ boiler w. (ok tt, w);
}

abbrev plant : Plant ℕ
plant = record { c = coordinator; s = Schedules.new none; executed = []; world = 0 }

forward : IsForward home
forward = record {
  save = λ saved w. ground arith;
  execute_boiler = λ boiler enabled w. ground arith;
  verify_idle = λ w. ground arith;
  notify = λ boiler w. ground arith;
  dismiss = λ boiler w. ground arith;
  turn_off = λ boiler w. ground arith;
}

abbrev ran : Plant ℕ
ran = (attempt home brew true plant).1

executed_once_example : Distinct (attempt home brew true (restart home coordinator ran)).1.executed
executed_once_example =
    executed_once home forward coordinator 0
      (attempt home brew true (restart home coordinator ran)).1
      (next (next (next here (runs brew true)) (restarts coordinator)) (runs brew true))

abbrev free_lock : P ℕ (Unit {0})
free_lock p = (ok tt, p)

run-Course_example : Course home brew true free_lock plant (run home brew true free_lock plant)
run-Course_example = run-Course home brew true free_lock plant

reported : status home brew (refresh home plant).1 ≡ armed
unfolding status refresh times timers_of listens Schedules.new
reported = refl

is_due : at_edge home brew true plant.world ≡ true
unfolding at_edge times
is_due = refl

is_fresh : attempted (attempt_at plant.s.last_attempts brew true) (home.now plant.world).day ≡ false
unfolding attempted Schedules.new
is_fresh = refl

armed-executed_example :
    (run home brew true acquire plant).1.executed
    ≡ (record { boiler = brew; enabled = true; day = 7 }) ∷ []
armed-executed_example = armed-executed home brew true plant reported refl is_due is_fresh refl

attempt-marker_example : Fate home brew true [] ran
attempt-marker_example = attempt-marker home brew true plant

attempt-Permitted_example : (ran.executed ≡ []) ⊎ Permitted home brew true plant
attempt-Permitted_example = attempt-Permitted home brew true plant

-- a plant whose last run was not verified
abbrev marked : Plant ℕ
marked = record {
  c = coordinator;
  s = record (Schedules.new none) {
    pending = from_keys true;
    disk = some (record {
      pending = from_keys true;
      last_attempts = no_attempts;
      last_result = from_keys not_run;
      last_verified = from_keys none;
    });
  };
  executed = [];
  world = 0;
}

-- a run, a new process and a run again
abbrev events : List (Event home brew)
events = tried true ∷ restarted coordinator ∷ tried true ∷ []

status-armed_iff_example :
    (status home brew (refresh home plant).1 ≡ armed) ↔ IsReady home brew plant
status-armed_iff_example = status-armed_iff home brew plant

acknowledge-IsAcknowledged_example :
    ((acknowledge home brew marked).1.s.pending ≡ marked.s.pending)
    ⊎ IsAcknowledged home brew marked
acknowledge-IsAcknowledged_example = acknowledge-IsAcknowledged home brew marked
