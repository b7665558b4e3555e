-- ===== src/Execute/Watch.antt =====
-- `execute_cleaning` of src/custom_components/wendougee_data/control.py: the start of a cleaning
-- and its observation. A time is a number of microseconds. The loop has as many passes as its
-- timeout leaves room for, since each ends with half a second of sleep.
pub mod Observed
use wendougee_data_ha.Base.{
  ℕ, zero, suc, ◌+◌, ◌*◌, ◌/◌, ◌-◌, ◌≤◌, arith, ◌≡◌, refl, Bool, true, false, ◌&&◌, ◌||◌, not,
  Error, Result, ok, err, value_error, timeout_error, cancelled_error, ltb, leb, inl, inr,
  Bool-cases, if◌then◌else◌,
}
use wendougee_data_ha.Base.Bytes.{bytes_eq}
use wendougee_data_ha.Telemetry.{Telemetry, Tenths, parse_telemetry_response}
use wendougee_data_ha.State
use wendougee_data_ha.State.{Configuration, OperatingState, is_idle, is_cleaning}
use wendougee_data_ha.Command
use wendougee_data_ha.Link.{
  Transport, Link, M, pure, lift, raise, check, continue, ◌>>=◌, transact, sleep,
}
use wendougee_data_ha.Link.Traces.{
  Grows, Grows-refl, Emits, Emits-bind, Emits-lift, Emits-if, Emits-raise, Emits-check, Emits-pure,
  Emits-sleep, Emits-transact, emits_rules,
}
use wendougee_data_ha.Press.{read_state}
use wendougee_data_ha.Control.Boiler.{read_configuration}
use wendougee_data_ha.Control.Cleaning.{cleaning_duration, start_cleaning}
use wendougee_data_ha.Control.Rejections.{is_read, Emits-read_state, Emits-read_configuration}
use wendougee_data_ha.Coordinator.{Seen}
use wendougee_data_ha.Lifecycle.{Route, Ended}
use wendougee_data_ha.Execute.{run, cleaning_commands}

-- what `execute_cleaning` returns; its observed states are cleaning, and idle where it was seen
pub record CleaningResult : Type 0 where
  pub cleaning_time_seconds : Tenths
  pub standing_time_seconds : Tenths
  pub cleaning_count : ℕ
  pub observed : ℕ
  pub sample_count : ℕ
  pub peak_pressure_bar : Tenths
  pub saw_idle : Bool

-- the variables of the loop
pub record Progress : Type 0 where
  pub idle_samples : ℕ
  pub sample_count : ℕ
  pub pressure_max : Tenths
  pub saw_idle : Bool

abbrev max : Tenths → Tenths → Tenths
max a b = if ltb a b then b else a

unfoldable pub advance : Telemetry → Bool → Progress → Progress
advance t idle p = record {
  idle_samples = if idle then p.idle_samples + 1 else 0;
  sample_count = p.sample_count + 1;
  pressure_max = max p.pressure_max t.pressure_bar;
  saw_idle = p.saw_idle || idle;
}

unfoldable pub result_of : Configuration → ℕ → Progress → CleaningResult
result_of c elapsed p = record {
  cleaning_time_seconds = c.cleaning_time_seconds;
  standing_time_seconds = c.cleaning_rest_seconds;
  cleaning_count = c.cleaning_repetitions;
  observed = elapsed;
  sample_count = p.sample_count;
  peak_pressure_bar = p.pressure_max;
  saw_idle = p.saw_idle;
}

-- a duration of the configuration, and the passes that a timeout of 20 seconds more leaves
abbrev micros : Tenths → ℕ
micros duration = duration * 100000

abbrev passes : Tenths → ℕ
passes duration = (duration + 200) / 5 + 1

-- `asyncio.timeout` turns its own cancellation into a timeout
is_cancelled : Error → Bool
is_cancelled cancelled_error = true
is_cancelled _ = false

cut : {A : Type 0} → Bool → Result A → Result A
unfolding is_cancelled
cut expired (ok a) = ok a
cut expired (err e) = err (if expired && is_cancelled e then timeout_error else e)

-- The monotonic clock, the callback `observe`, and whether the timeout has expired.
pub record Watcher (W : Type 0) : Type 0 where
  pub time : W → ℕ
  pub observe : Seen → W → W
  pub expired : W → Bool

module _ {W : Type 0} (watcher : Watcher W) (tr : Transport W) where
  unfoldable pub read_telemetry : M W Telemetry
  read_telemetry = do frame ← transact tr Command.telemetry; lift (parse_telemetry_response frame)

  -- `loop.time()`
  now : M W ℕ
  now l = (ok (watcher.time l.world), l)

  note : Seen → M W (Unit {0})
  note s l = (ok tt, record l { world = watcher.observe s l.world })

  with_timeout : {A : Type 0} → M W A → M W A
  unfolding cut
  with_timeout m l = let (r, l') = m l in (cut (watcher.expired l'.world) r, l')

  -- the end of a cleaning that was observed
  unfoldable pub conclude : Configuration → ℕ → Progress → M W CleaningResult
  conclude before elapsed p = do
    after ← read_configuration tr
    _ ←
        check (bytes_eq after.raw_registers before.raw_registers)
          (value_error "Cleaning configuration changed during observation")
    pure (result_of before elapsed p)

  -- the `while` loop
  unfoldable pub watch : ℕ → Configuration → ℕ → ℕ → Progress → M W CleaningResult
  unfolding note now advance conclude
  watch zero before duration started p = raise timeout_error
  watch (suc n) before duration started p = do
    t ← read_telemetry
    s ← read_state tr
    _ ←
        check ((is_cleaning (State.state s) || is_idle (State.state s)) && not t.water_level_alarm)
          (value_error "Unexpected state or water alarm during cleaning")
    _ ← note (record { telemetry = t; state = s; configuration = before })
    let p' = advance t (is_idle (State.state s)) p
    time ← now
    if leb duration (time - started) && leb 2 p'.idle_samples
        then conclude before (time - started) p'
        else (do _ ← sleep tr 500; watch n before duration started p')

  -- what follows the confirmed start
  unfoldable pub observe : Configuration × OperatingState → M W CleaningResult
  unfolding watch with_timeout
  observe (before, s) = do
    duration ← lift (cleaning_duration before)
    t ← read_telemetry
    _ ← note (record { telemetry = t; state = s; configuration = before })
    started ← now
    with_timeout (
        watch (passes duration) before (micros duration) started (record {
          idle_samples = 0;
          sample_count = 1;
          pressure_max = t.pressure_bar;
          saw_idle = false;
        }))

  unfoldable pub start_and_observe : M W CleaningResult
  unfolding observe
  start_and_observe = do confirmed ← start_cleaning tr; observe confirmed

module _ {W : Type 0} (watcher : Watcher W) (route : Route W) where
  -- `execute_cleaning`
  unfoldable pub execute_cleaning : W → Result CleaningResult × Ended W
  unfolding start_and_observe
  execute_cleaning world = run route cleaning_commands (start_and_observe watcher) world
