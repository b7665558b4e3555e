-- ===== src/Schedules/Edges.antt =====
-- The times of the helpers, the timers and what the scheduler reports.
pub mod Armed
use wendougee_data_ha.Base.{
  ℕ, ◌+◌, List, [], ◌∷◌, ◌++◌, Bool, true, false, ◌&&◌, ◌||◌, not, Option, none, some, is_some, ltb,
  leb, ◌==◌, if◌then◌else◌,
}
use wendougee_data_ha.Schedules.{
  Boiler, brew, steam, at, Outcome, paused_check_machine, ClockTime, Now, Home, Plant,
}

-- two naive times that differ
valid_times : Option ClockTime → Option ClockTime → Option (ClockTime × ClockTime)
valid_times (some on) (some off) =
    if (not (on.aware || off.aware)) && not (on.micros == off.micros) then some (on, off) else none
valid_times _ _ = none

-- `0 <= (now - edge).total_seconds() < 60`, on the date of `now`
within_minute : ℕ → ℕ → Bool
within_minute edge now = leb edge now && ltb now (edge + 60000000)

edge_of : Bool → ClockTime × ClockTime → ClockTime
edge_of true times = times.0
edge_of false times = times.1

due : Bool → Option (ClockTime × ClockTime) → Now → Bool
unfolding within_minute edge_of
due enabled none now = false
due enabled (some times) now = within_minute (edge_of enabled times).micros now.micros

module _ {W : Type 0} (home : Home W) where
  -- `_times`
  unfoldable pub times : Boiler → W → Option (ClockTime × ClockTime)
  unfolding valid_times
  times boiler w = valid_times (home.on_time boiler w) (home.off_time boiler w)

  -- `_at_edge`
  unfoldable pub at_edge : Boiler → Bool → W → Bool
  unfolding times due
  at_edge boiler enabled w = due enabled (times boiler w) (home.now w)

  -- the timers of a boiler after `_refresh`, and whether `_pause` is spawned for it
  unfoldable pub listens : Boiler → Plant W → Bool
  listens boiler p =
      not (p.s.stopped || not p.c.options.allow_boiler_control) && home.enabled boiler p.world

  unfoldable pub timers_of : Boiler → Plant W → Option (ClockTime × ClockTime)
  unfolding listens times
  timers_of boiler p =
      if listens boiler p && not (at p.s.pending boiler) then times boiler p.world else none

  spawned : Boiler → Plant W → List Boiler
  unfolding listens
  spawned boiler p = if listens boiler p && at p.s.pending boiler then boiler ∷ [] else []

  -- `_refresh`: the plant with the new timers, and the boilers whose `_pause` is spawned
  unfoldable pub refresh : Plant W → List Boiler × Plant W
  unfolding timers_of spawned
  refresh p = (
    spawned brew p ++ spawned steam p,
    record p {
      s = record (p.s) {
        timers = record { of_brew = timers_of brew p; of_steam = timers_of steam p };
      };
    },
  )

-- the texts that `status` returns
pub data Status : Type 0 where
  executing check_machine paused disabled control_disabled invalid_times blocked armed : Status
  not_listening : Status

is_paused : Outcome → Bool
is_paused paused_check_machine = true
is_paused _ = false

module _ {W : Type 0} (home : Home W) where
  -- `status`
  unfoldable pub status : Boiler → Plant W → Status
  unfolding is_paused times
  status boiler p =
      if at p.s.running boiler
      then executing
      else if at p.s.pending boiler
      then check_machine
      else if not (home.enabled boiler p.world) && is_paused (at p.s.last_result boiler)
      then paused
      else if not (home.enabled boiler p.world)
      then disabled
      else if not p.c.options.allow_boiler_control
      then control_disabled
      else if not (is_some (times home boiler p.world))
      then invalid_times
      else if p.c.locks.profile_start_locked || p.c.locks.cleaning_start_locked
      then blocked
      else if not (home.entries p.world == 1)
      then blocked
      else if is_some (at p.s.timers boiler)
      then armed
      else not_listening
