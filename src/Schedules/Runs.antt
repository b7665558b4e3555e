-- ===== src/Schedules/Runs.antt =====
-- The operations of `BoilerSchedules`: a pause, the run of an edge, the acknowledgement and the
-- shutdown. A run is cut at its wait for the connection lock: what other tasks do meanwhile is a
-- parameter.
pub mod Marker
pub mod Once
use wendougee_data_ha.Base.{
  ℕ, ◌+◌, List, [], ◌∷◌, Bool, true, false, ◌&&◌, ◌||◌, not, Option, none, some, Error, Result, ok,
  err, home_assistant_error, cancelled_error, is_os_error, is_home_assistant_error, ltb, leb, ◌==◌,
  if◌then◌else◌,
}
use wendougee_data_ha.State.{Configuration}
use wendougee_data_ha.Journal.{Instant}
use wendougee_data_ha.Coordinator.{Coordinator, require_control}
use wendougee_data_ha.Schedules
use wendougee_data_ha.Schedules.{
  Boiler, brew, steam, setting_of, Both, at, put, Day, Attempts, attempt_at, put_attempt, Outcome,
  paused_check_machine, verified_on, verified_off, acknowledged_still_disabled, Saved, Now,
  Schedules, Attempt, Home, Plant, P, loaded, load, save,
}
use wendougee_data_ha.Schedules.Edges.{times, at_edge, refresh}

abbrev one_machine : Error
one_machine = home_assistant_error "Shared helpers require exactly one machine"

abbrev uncertain : Error
uncertain = home_assistant_error "Previous control is uncertain"

abbrev unverified : Error
unverified = home_assistant_error "Requested state not verified"

-- `self.last_attempts.get(edge_key) == day`
unfoldable pub attempted : Option Day → Day → Bool
attempted none day = false
attempted (some d) day = d == day

-- `getattr(configuration, ...) is not enabled`, negated
pub is_state : Option Bool → Bool → Bool
is_state none enabled = false
is_state (some true) enabled = enabled
is_state (some false) enabled = not enabled

abbrev pub heating_of : Boiler → Configuration → Option Bool
heating_of brew configuration = configuration.brew_heating_enabled
heating_of steam configuration = configuration.steam_heating_enabled

-- an error that `suppress` lets through
unsuppressed : (Error → Bool) → Result (Unit {0}) → Result (Unit {0})
unsuppressed kind (ok _) = ok tt
unsuppressed kind (err e) = if kind e then ok tt else err e

is_cancelled : Error → Bool
is_cancelled cancelled_error = true
is_cancelled _ = false

module _ {W : Type 0} where
  -- the next step where there is no error
  unfoldable pub and_then : {A B : Type 0} → Result A → (A → P W B) → P W B
  and_then (ok a) f p = f a p
  and_then (err e) f p = (err e, p)

  set_running : Boiler → Bool → Plant W → Plant W
  set_running boiler running p = record p {
    s = record (p.s) { running = put boiler running p.s.running };
  }

  -- the marks before the hardware is touched: running, pending and the date of the edge
  unfoldable pub mark : Boiler → Bool → Day → Plant W → Plant W
  mark boiler enabled day p = record p {
    s = record (p.s) {
      running = put boiler true p.s.running;
      pending = put boiler true p.s.pending;
      last_attempts = put_attempt boiler enabled day p.s.last_attempts;
    };
  }

  -- what a verified state changes before it is saved
  confirm : Boiler → Bool → Configuration → Instant → Plant W → Plant W
  confirm boiler enabled configuration now p = record p {
    c = record (p.c) { configuration = some configuration; available = true };
    s = record (p.s) {
      last_result = put boiler (if enabled then verified_on else verified_off) p.s.last_result;
      last_verified = put boiler (some now) p.s.last_verified;
    };
  }

  -- whether an earlier control is uncertain
  unfoldable pub is_uncertain : Boiler → Plant W → Bool
  is_uncertain boiler p =
      at p.s.pending boiler || (p.c.locks.profile_start_locked || p.c.locks.cleaning_start_locked)

  unfoldable pub is_stopped : Plant W → Bool
  is_stopped p = p.s.stopped || p.c.stopped

module _ {W : Type 0} (home : Home W) where
  switch_off : Boiler → P W (Unit {0})
  unfolding unsuppressed
  switch_off boiler p =
      let (result, world') = home.turn_off boiler (home.notify boiler p.world) in
      (unsuppressed is_home_assistant_error result, record p { world = world' })

  -- `_pause`
  unfoldable pub pause : Boiler → P W (Unit {0})
  unfolding save unsuppressed and_then switch_off
  pause boiler p =
      let noted : Plant W = record p {
        s = record (p.s) {
          running = put boiler false p.s.running;
          last_result = put boiler paused_check_machine p.s.last_result;
        };
      } in
      let (result, p') = save home noted.s.pending noted in
      and_then (unsuppressed is_os_error result) (λ _ q. switch_off boiler q) p'

  -- the save of a verified state
  save_verified : Boiler → P W (Unit {0})
  unfolding save and_then
  save_verified boiler p =
      let (result, p') = save home (put boiler false p.s.pending) p in
      and_then result (λ _ q. (ok tt, record q { world = home.dismiss boiler q.world })) p'

  -- after the executor's result
  verify : Boiler → Bool → Configuration → P W (Unit {0})
  unfolding save_verified confirm is_state
  verify boiler enabled configuration p =
      if not (is_state (heating_of boiler configuration) enabled)
      then (err unverified, p)
      else save_verified boiler (confirm boiler enabled configuration (home.utcnow p.world) p)

  -- the call of the executor; what is noted of it has the date of the marks, which the local date
  -- may have left behind during the save
  unfoldable pub execute : Boiler → Bool → Day → P W (Unit {0})
  unfolding verify and_then
  execute boiler enabled day p =
      let (result, world') = home.execute_boiler (setting_of boiler) enabled p.world in
      and_then result (λ configuration q. verify boiler enabled configuration q)
        (record p {
          executed = (record { boiler = boiler; enabled = enabled; day = day }) ∷ p.executed;
          world = world';
        })

  -- from the marks on
  unfoldable pub act : Boiler → Bool → Day → P W (Unit {0})
  unfolding mark save and_then execute
  act boiler enabled day p =
      let marked = mark boiler enabled day p in
      let (result, p') = save home marked.s.pending marked in
      and_then result (λ _ q. execute boiler enabled day q) p'

  -- the tests on the marker and on the date, and what follows them
  proceed : Boiler → Bool → P W (Unit {0})
  unfolding act attempted is_uncertain
  proceed boiler enabled p =
      if is_uncertain boiler p
      then (err uncertain, p)
      else if attempted (attempt_at p.s.last_attempts boiler enabled) (home.now p.world).day
      then (ok tt, p)
      else act boiler enabled (home.now p.world).day p

  -- the body of `async_run` once the connection lock is held
  unfoldable pub body : Boiler → Bool → P W (Unit {0})
  unfolding proceed is_stopped at_edge and_then
  body boiler enabled p =
      if is_stopped p
        || (not (home.enabled boiler p.world) || not (at_edge home boiler enabled p.world))
      then (ok tt, p)
      else and_then (require_control p.c.options.allow_boiler_control p.c)
          (λ _ q. proceed boiler enabled q) p

  mark_unavailable : Boiler → Plant W → Plant W
  mark_unavailable boiler p =
      if at p.s.pending boiler then record p { c = record (p.c) { available = false } } else p

  paused_then : Result (Unit {0}) → Error → Result (Unit {0})
  paused_then (ok _) e = err e
  paused_then (err other) e = err other

  -- the handler of a cancellation, and the one of every other error
  handle : Bool → Boiler → Error → P W (Unit {0})
  unfolding pause mark_unavailable paused_then
  handle true boiler e p = let (result, p') = pause boiler p in (paused_then result e, p')
  handle false boiler e p = pause boiler (mark_unavailable boiler p)

  -- the handlers of `async_run`
  unfoldable pub settle : Boiler → Result (Unit {0}) → P W (Unit {0})
  unfolding handle is_cancelled
  settle boiler (ok _) p = (ok tt, p)
  settle boiler (err e) p = handle (is_cancelled e) boiler e p

  -- the `finally` of `async_run`
  unfoldable pub leave : Boiler → Bool → Plant W → Plant W
  unfolding set_running
  leave boiler acquired p =
      let left = set_running boiler false p in
      if acquired then record left { c = record (left.c) { connection_locked = false } } else left

  -- a result of a part of the body, with its handlers and the `finally`
  unfoldable pub finish : Boiler → Bool → Result (Unit {0}) × Plant W → Result (Unit {0}) × Plant W
  unfolding settle leave
  finish boiler acquired (r, p) =
      let (result, p') = settle boiler r p in (result, leave boiler acquired p')

  -- the run after the wait, from the acquired lock to the end
  unfoldable pub attempt : Boiler → Bool → P W (Unit {0})
  unfolding body finish
  attempt boiler enabled p = finish boiler true (body boiler enabled p)

  -- the guards before the wait; `false` means a return
  unfoldable pub guards : Boiler → Bool → Plant W → Result Bool
  unfolding is_uncertain at_edge
  guards boiler enabled p = elim (require_control p.c.options.allow_boiler_control p.c) [
    | err e ↦ err e
    | ok _ ↦
        if not (home.entries p.world == 1)
        then err one_machine
        else if is_uncertain boiler p
        then err uncertain
        else ok (at_edge home boiler enabled p.world)
  ]

  -- the result of the wait for the connection lock
  acquired_then : Boiler → Bool → Result (Unit {0}) × Plant W → Result (Unit {0}) × Plant W
  unfolding attempt finish
  acquired_then boiler enabled (ok _, p) = attempt boiler enabled p
  acquired_then boiler enabled (err e, p) = finish boiler false (err e, p)

  guarded : Boiler → Bool → P W (Unit {0}) → Result Bool → P W (Unit {0})
  unfolding acquired_then finish
  guarded boiler enabled wait (err e) p = finish boiler false (err e, p)
  guarded boiler enabled wait (ok false) p = finish boiler false (ok tt, p)
  guarded boiler enabled wait (ok true) p = acquired_then boiler enabled (wait p)

  -- `async_run`
  unfoldable pub run : Boiler → Bool → P W (Unit {0}) → P W (Unit {0})
  unfolding guarded guards is_stopped
  run boiler enabled wait p =
      if is_stopped p || not (home.enabled boiler p.world)
      then (ok tt, p)
      else guarded boiler enabled wait (guards boiler enabled p) p

  locked : Result (Unit {0}) → Result (Unit {0})
  locked (ok _) = ok tt
  locked (err cancelled_error) = err cancelled_error
  locked (err e) = err (home_assistant_error "Unable to verify idle; schedule remains locked")

  -- the `try` of `async_acknowledge`
  confirm_idle : Boiler → P W (Unit {0})
  unfolding save and_then locked
  confirm_idle boiler p =
      let (idle, world') = home.verify_idle p.world in
      let (result, p') =
        and_then idle (λ _ q. save home (put boiler false q.s.pending) q)
          (record p { world = world' }) in
      (locked result, p')

  -- the end of `async_acknowledge`
  note_acknowledged : Boiler → P W (Unit {0})
  unfolding save
  note_acknowledged boiler p =
      let noted : Plant W = record p {
        s = record (p.s) { last_result = put boiler acknowledged_still_disabled p.s.last_result };
      } in
      save home noted.s.pending noted

  acknowledge_free : Boiler → P W (Unit {0})
  unfolding confirm_idle note_acknowledged and_then
  acknowledge_free boiler p =
      let (result, p') = confirm_idle boiler p in
      and_then result (λ _ q. note_acknowledged boiler q) p'

  -- `async_acknowledge`
  unfoldable pub acknowledge : Boiler → P W (Unit {0})
  unfolding acknowledge_free and_then
  acknowledge boiler p =
      and_then (require_control p.c.options.allow_boiler_control p.c)
        (λ _ q.
          if q.c.connection_locked
          then (err (home_assistant_error "Bluetooth operation busy"), q)
          else acknowledge_free boiler q)
        p

  -- `async_shutdown`, up to the cancellation of the tasks
  unfoldable pub shutdown : Plant W → List Boiler × Plant W
  unfolding refresh
  shutdown p = refresh home (record p { s = record (p.s) { stopped = true } })

  -- a new process, which loads the store
  unfoldable pub restart : Coordinator → Plant W → Plant W
  unfolding load
  restart c p = record p { c = c; s = load (Schedules.new p.s.disk) }
