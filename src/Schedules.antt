-- ===== src/Schedules.antt =====
-- src/custom_components/wendougee_data/schedules.py: daily edges of the two boilers. Home
-- Assistant (the helpers, the clock, the store, the notifications) and the executors are the
-- parameter `Home`. A local time of day is a number of microseconds, a date a number of days.
pub mod Edges
pub mod Runs
use wendougee_data_ha.Base.{
  ℕ, ◌+◌, List, [], ◌∷◌, Bool, true, false, ◌&&◌, ◌||◌, not, Option, none, some, Error, Result, ok,
  err, ltb, leb, ◌==◌, if◌then◌else◌,
}
use wendougee_data_ha.State.{Configuration}
use wendougee_data_ha.Controls.{BoilerSetting, brew_enabled, steam_enabled}
use wendougee_data_ha.Journal.{Instant}
use wendougee_data_ha.Coordinator.{Coordinator}

pub data Boiler : Type 0 where
  brew steam : Boiler

-- `BOILERS`
abbrev pub setting_of : Boiler → BoilerSetting
setting_of brew = brew_enabled
setting_of steam = steam_enabled

-- a dictionary with the two boilers for keys
pub record Both (A : Type 0) : Type 0 where
  pub of_brew : A
  pub of_steam : A

module _ {A : Type 0} where
  abbrev pub at : Both A → Boiler → A
  at d brew = d.of_brew
  at d steam = d.of_steam

  abbrev pub put : Boiler → A → Both A → Both A
  put brew a d = record d { of_brew = a }
  put steam a d = record d { of_steam = a }

  abbrev pub from_keys : A → Both A
  from_keys a = record { of_brew = a; of_steam = a }

abbrev pub Day : Type 0
Day = ℕ

-- `last_attempts`, with a field for each of its keys
pub record Attempts : Type 0 where
  pub brew_on : Option Day
  pub brew_off : Option Day
  pub steam_on : Option Day
  pub steam_off : Option Day

abbrev pub no_attempts : Attempts
no_attempts = record { brew_on = none; brew_off = none; steam_on = none; steam_off = none }

-- by the boiler and by whether the edge switches it on
abbrev pub attempt_at : Attempts → Boiler → Bool → Option Day
attempt_at a brew true = a.brew_on
attempt_at a brew false = a.brew_off
attempt_at a steam true = a.steam_on
attempt_at a steam false = a.steam_off

abbrev pub put_attempt : Boiler → Bool → Day → Attempts → Attempts
put_attempt brew true day a = record a { brew_on = some day }
put_attempt brew false day a = record a { brew_off = some day }
put_attempt steam true day a = record a { steam_on = some day }
put_attempt steam false day a = record a { steam_off = some day }

pub data Outcome : Type 0 where
  not_run paused_check_machine verified_on verified_off acknowledged_still_disabled : Outcome

-- what `_save` writes
pub record Saved : Type 0 where
  pub pending : Both Bool
  pub last_attempts : Attempts
  pub last_result : Both Outcome
  pub last_verified : Both (Option Instant)

-- a helper's time, and whether it carries a time zone
pub record ClockTime : Type 0 where
  pub micros : ℕ
  pub aware : Bool

-- the local date and time
pub record Now : Type 0 where
  pub day : Day
  pub micros : ℕ

pub record Schedules : Type 0 where
  pub pending : Both Bool
  pub last_attempts : Attempts
  pub last_result : Both Outcome
  pub last_verified : Both (Option Instant)
  -- `_timers`: the two times of a boiler whose edges are listened to
  pub timers : Both (Option (ClockTime × ClockTime))
  pub running : Both Bool
  pub stopped : Bool
  -- what the store holds
  pub disk : Option Saved

-- `__init__`
unfoldable pub new : Option Saved → Schedules
new disk = record {
  pending = from_keys false;
  last_attempts = no_attempts;
  last_result = from_keys not_run;
  last_verified = from_keys none;
  timers = from_keys none;
  running = from_keys false;
  stopped = false;
  disk = disk;
}

-- one call of `execute_boiler`, with the date under which its run marked the edge, before the save
pub record Attempt : Type 0 where
  pub boiler : Boiler
  pub enabled : Bool
  pub day : Day

pub record Home (W : Type 0) : Type 0 where
  -- the state of the helper `schedule_enabled`, and the helpers' times where they parse
  pub enabled : Boiler → W → Bool
  pub on_time : Boiler → W → Option ClockTime
  pub off_time : Boiler → W → Option ClockTime
  -- the number of configured entries of the integration
  pub entries : W → ℕ
  pub now : W → Now
  pub utcnow : W → Instant
  pub save : Saved → W → Result (Unit {0}) × W
  pub execute_boiler : BoilerSetting → Bool → W → Result Configuration × W
  pub verify_idle : W → Result (Unit {0}) × W
  pub notify : Boiler → W → W
  pub dismiss : Boiler → W → W
  pub turn_off : Boiler → W → Result (Unit {0}) × W

-- The coordinator and the schedules that share a machine, with the calls of `execute_boiler`,
-- the latest first.
pub record Plant (W : Type 0) : Type 0 where
  pub c : Coordinator
  pub s : Schedules
  pub executed : List Attempt
  pub world : W

abbrev pub P : Type 0 → Type 0 → Type 0
P W A = Plant W → Result A × Plant W

-- the fields that `async_load` takes from a stored document
unfoldable pub loaded : Option Saved → Schedules → Schedules
loaded none s = s
loaded (some saved) s = record s {
  pending = saved.pending;
  last_attempts = saved.last_attempts;
  last_result = saved.last_result;
  last_verified = saved.last_verified;
}

-- `async_load`
unfoldable pub load : Schedules → Schedules
unfolding loaded
load s = loaded s.disk s

unfoldable pub to_save : Both Bool → Schedules → Saved
to_save pending s = record {
  pending = pending;
  last_attempts = s.last_attempts;
  last_result = s.last_result;
  last_verified = s.last_verified;
}

-- the pending markers follow a save that succeeds
saved_as : {W : Type 0} → Result (Unit {0}) → Saved → Plant W → Plant W
saved_as (err e) saved p = p
saved_as (ok _) saved p = record p {
  s = record (p.s) { pending = saved.pending; disk = some saved };
}

module _ {W : Type 0} (home : Home W) where
  -- `_save`
  unfoldable pub save : Both Bool → P W (Unit {0})
  unfolding saved_as to_save
  save pending p =
      let (result, world') = home.save (to_save pending p.s) p.world in
      (result, saved_as result (to_save pending p.s) (record p { world = world' }))
