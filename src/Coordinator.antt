-- ===== src/Coordinator.antt =====
-- The guarded controls of src/custom_components/wendougee_data/coordinator.py: three locks in
-- memory and on disk, and what each operation does to them.
pub mod Guards
pub mod Invariant
pub mod Polling
pub mod Sampling
use wendougee_data_ha.Base.{
  ℕ, suc, ◌+◌, List, [], ◌∷◌, Bool, true, false, ◌&&◌, ◌||◌, not, Option, none, some, String, Error,
  Result, ok, err, home_assistant_error, if◌then◌else◌,
}
use wendougee_data_ha.Telemetry.{Telemetry}
use wendougee_data_ha.State.{Configuration, OperatingState}
use wendougee_data_ha.Journal.{Instant, poll}
use wendougee_data_ha.Activity
use wendougee_data_ha.Activity.{ActivityTracker}
use wendougee_data_ha.Controls.{BoilerSetting}
use wendougee_data_ha.Control.Preparation.{Prepared}

pub record Options : Type 0 where
  pub allow_boiler_control : Bool
  pub allow_profile_start : Bool
  pub allow_cleaning_control : Bool

-- the three locks, as they are in memory and as the store keeps them
pub record Locks : Type 0 where
  pub profile_start_locked : Bool
  pub profile_preparation_locked : Bool
  pub cleaning_start_locked : Bool

pub record Coordinator : Type 0 where
  pub stopped : Bool
  pub options : Options
  -- whether another task holds `_connection_lock`
  pub connection_locked : Bool
  pub locks : Locks
  -- what `_control_store` would load
  pub saved : Locks
  -- `any(self.schedules.pending.values())`
  pub schedule_pending : Bool
  pub configuration : Option Configuration
  pub operating_state : Option OperatingState
  pub latest : Option Telemetry
  -- `last_update_success`
  pub available : Bool
  pub activity : ActivityTracker

-- what the source calls a cleaning's samples: the arguments of `observe`
pub record Seen : Type 0 where
  pub telemetry : Telemetry
  pub state : OperatingState
  pub configuration : Configuration

-- The parts that the coordinator calls: the executors of `control.py` under their timeouts, the
-- store (a save that raises leaves what was stored), and the clock.
pub record Backend (W : Type 0) : Type 0 where
  pub save : Locks → W → Result (Unit {0}) × W
  pub execute_boiler : BoilerSetting → Bool → W → Result Configuration × W
  pub execute_profile : W → Result (Telemetry × OperatingState) × W
  pub execute_preparation : W → Result Prepared × W
  pub execute_cleaning : W → Result (Unit {0}) × (List Seen × W)
  pub verify_idle : W → Result (Unit {0}) × W
  pub save_activity : ActivityTracker → W → Result (Unit {0}) × W
  pub now : W → Instant

pub record Running (W : Type 0) : Type 0 where
  pub c : Coordinator
  pub world : W

abbrev pub H : Type 0 → Type 0 → Type 0
H W A = Running W → Result A × Running W

-- `async_load_control_state`
unfoldable pub load_control_state : Coordinator → Coordinator
load_control_state c = record c { locks = c.saved }

abbrev not_enabled : Error
not_enabled = home_assistant_error "This control is not enabled in integration options"

abbrev stopped_error : Error
stopped_error = home_assistant_error "Integration stopped"

abbrev uncertain : Error
uncertain = home_assistant_error "Previous control uncertain; blocked"

abbrev busy : Error
busy = home_assistant_error "Bluetooth operation busy"

-- `_require_control`
unfoldable pub require_control : Bool → Coordinator → Result (Unit {0})
require_control option c =
    if not option then err not_enabled else if c.stopped then err stopped_error else ok tt

-- a lock is set in memory before the save, and follows the save only if that succeeds
after_save : {W : Type 0} → Result (Unit {0}) → Locks → Running W → Result (Unit {0}) × Running W
after_save (ok _) locks r = (ok tt, record r { c = record (r.c) { locks = locks; saved = locks } })
after_save (err e) locks r = (err e, r)

pub data Lock : Type 0 where
  profile_lock preparation_lock cleaning_lock : Lock

abbrev pub with_lock : Lock → Bool → Locks → Locks
with_lock profile_lock b l = record l { profile_start_locked = b }
with_lock preparation_lock b l = record l { profile_preparation_locked = b }
with_lock cleaning_lock b l = record l { cleaning_start_locked = b }

raised : Lock → Bool → Locks → Locks
raised lock true l = with_lock lock true l
raised lock false l = l

module _ {W : Type 0} (b : Backend W) where
  -- `_save_profile_lock`, `_save_preparation_lock` and `_save_cleaning_lock`
  unfoldable pub save_lock : Lock → Bool → H W (Unit {0})
  unfolding after_save raised
  save_lock lock locked r =
      let c = r.c in
      let (saved, world') = b.save (with_lock lock locked c.locks) r.world in
      after_save saved (with_lock lock locked c.locks)
        (record { c = record c { locks = raised lock locked c.locks }; world = world' })

  rejected_text : {A : Type 0} → String → Result (Unit {0}) → Result A
  rejected_text text (ok _) = err (home_assistant_error text)
  rejected_text text (err e) = err e

  -- `except ControlRejected`: the lock is taken back, then the text is raised again; an error
  -- of the saving is raised as it is
  unfoldable pub on_rejected : {A : Type 0} → Lock → String → H W A
  unfolding save_lock rejected_text
  on_rejected lock text r =
      let (saved, r') = save_lock lock false r in (rejected_text text saved, r')

  -- the handlers round the body of a guarded control
  unfoldable pub handle : {A : Type 0} → Lock → String → Result A → H W A
  unfolding on_rejected
  handle lock text (ok a) r = (ok a, r)
  handle lock text (err (Error.control_rejected why)) r = on_rejected lock why r
  handle lock text (err Error.cancelled_error) r = (err Error.cancelled_error, r)
  handle lock text (err e) r = (err (home_assistant_error text), r)

  -- the steps after a result that is there; an error goes to the handlers
  unfoldable pub and_then : {A B : Type 0} → Result A → (A → H W B) → H W B
  and_then (ok a) f r = f a r
  and_then (err e) f r = (err e, r)

  unfoldable pub any_locked : Coordinator → Bool
  any_locked c =
      c.locks.profile_start_locked
      || (c.locks.profile_preparation_locked
          || (c.locks.cleaning_start_locked || c.schedule_pending))

  -- what follows a confirmed start
  unfoldable pub note_start : Telemetry × OperatingState → H W (Unit {0})
  unfolding save_lock
  note_start (t, s) r =
      let observed =
        Activity.observe (record { telemetry = t; state = s; now = b.now r.world; source = poll })
          r.c.activity in
      let noted : Running W = record r {
        c = record (r.c) { operating_state = some s; activity = observed.0 };
      } in
      let (saved, r') = save_lock profile_lock false noted in
      and_then saved
        (λ _ q. (ok tt, record q { c = record (q.c) { latest = some t; available = true } })) r'

  unfoldable pub start_body : H W (Unit {0})
  unfolding save_lock and_then note_start
  start_body r =
      let (saved, r1) = save_lock profile_lock true r in
      and_then saved
        (λ _ q.
          let (result, world') = b.execute_profile q.world in
          and_then result note_start (record q { world = world' }))
        r1

  -- `async_start_profile`
  unfoldable pub start_profile : H W (Unit {0})
  unfolding require_control any_locked start_body handle
  start_profile r = elim (require_control r.c.options.allow_profile_start r.c) [
    | err e ↦ (err e, r)
    | ok _ ↦
        if r.c.connection_locked
        then (err busy, r)
        else if any_locked r.c
        then (err uncertain, r)
        else (let (result, r') = start_body r in
            handle profile_lock "Profile start result uncertain; further starts are locked." result
              r')
  ]

  unfoldable pub prepare_body : H W Prepared
  unfolding save_lock and_then
  prepare_body r =
      let (saved, r1) = save_lock preparation_lock true r in
      and_then saved
        (λ _ q.
          let (result, world') = b.execute_preparation q.world in
          and_then result
            (λ prepared p.
              let (unlocked, p') = save_lock preparation_lock false p in
              and_then unlocked (λ _ o. (ok prepared, o)) p')
            (record q { world = world' }))
        r1

  -- `async_prepare_profile`
  unfoldable pub prepare_profile : H W Prepared
  unfolding require_control any_locked prepare_body handle
  prepare_profile r = elim (require_control r.c.options.allow_profile_start r.c) [
    | err e ↦ (err e, r)
    | ok _ ↦
        if r.c.connection_locked
        then (err busy, r)
        else if any_locked r.c
        then (err uncertain, r)
        else (let (result, r') = prepare_body r in
            handle preparation_lock "Profile preparation uncertain; starts locked." result r')
  ]

  -- `async_acknowledge_profile_uncertainty` and `async_acknowledge_cleaning_uncertainty`, once
  -- the connection lock is theirs; the handler catches every `Exception`
  acknowledged : Result (Unit {0}) → H W (Unit {0})
  acknowledged (ok _) r = (ok tt, r)
  acknowledged (err Error.cancelled_error) r = (err Error.cancelled_error, r)
  acknowledged (err e) r =
      (err (home_assistant_error "Unable to verify idle; start remains locked"), r)

  unfoldable pub confirm_idle : Lock → H W (Unit {0})
  unfolding and_then save_lock acknowledged
  confirm_idle lock r =
      let (idle, world') = b.verify_idle r.world in
      let (result, r') =
        and_then idle (λ _ q. save_lock lock false q) (record r { world = world' }) in
      acknowledged result r'

  unfoldable pub acknowledge_profile : H W (Unit {0})
  unfolding require_control confirm_idle
  acknowledge_profile r = elim (require_control r.c.options.allow_profile_start r.c) [
    | err e ↦ (err e, r)
    | ok _ ↦ confirm_idle profile_lock r
  ]

  unfoldable pub acknowledge_cleaning : H W (Unit {0})
  unfolding require_control confirm_idle
  acknowledge_cleaning r = elim (require_control r.c.options.allow_cleaning_control r.c) [
    | err e ↦ (err e, r)
    | ok _ ↦ if r.c.connection_locked then (err busy, r) else confirm_idle cleaning_lock r
  ]

  -- `_observe_cleaning`
  unfoldable pub observe_cleaning : Seen → Running W → Running W
  observe_cleaning s r = record r {
    c = record (r.c) {
      configuration = some s.configuration;
      operating_state = some s.state;
      activity =
          (Activity.observe
            (record {
              telemetry = s.telemetry;
              state = s.state;
              now = b.now r.world;
              source = poll;
            })
            r.c.activity).0;
      latest = some s.telemetry;
      available = true;
    };
  }

  unfoldable pub observe_all : List Seen → Running W → Running W
  unfolding observe_cleaning
  observe_all [] r = r
  observe_all (s ∷ ss) r = observe_all ss (observe_cleaning s r)

  unfoldable pub finish_cleaning : H W (Unit {0})
  unfolding and_then save_lock
  finish_cleaning r =
      let (stored, world') = b.save_activity r.c.activity r.world in
      and_then stored (λ _ q. save_lock cleaning_lock false q) (record r { world = world' })

  unfoldable pub clean_body : H W (Unit {0})
  unfolding save_lock and_then observe_all finish_cleaning
  clean_body r =
      let (saved, r1) = save_lock cleaning_lock true r in
      and_then saved
        (λ _ q.
          let (result, (seen, world')) = b.execute_cleaning q.world in
          and_then result (λ _ p. finish_cleaning p)
            (observe_all seen (record q { world = world' })))
        r1

  -- `async_set_update_error`, where the handler is the one for uncertain results
  unfoldable pub mark_unavailable : Result (Unit {0}) → Running W → Running W
  mark_unavailable (ok _) r = r
  mark_unavailable (err (Error.control_rejected _)) r = r
  mark_unavailable (err Error.cancelled_error) r = r
  mark_unavailable (err e) r = record r { c = record (r.c) { available = false } }

  -- `async_start_cleaning`
  unfoldable pub start_cleaning : H W (Unit {0})
  unfolding require_control clean_body handle mark_unavailable
  start_cleaning r = elim (require_control r.c.options.allow_cleaning_control r.c) [
    | err e ↦ (err e, r)
    | ok _ ↦
        if r.c.connection_locked
        then (err busy, r)
        else if r.c.locks.cleaning_start_locked || r.c.locks.profile_start_locked
        then (err uncertain, r)
        else (let (result, r') = clean_body r in
            handle cleaning_lock "Cleaning result uncertain; further starts are locked." result
              (mark_unavailable result r'))
  ]

  -- the handlers of `async_set_boiler`
  boiler_result : Result Configuration → H W (Unit {0})
  boiler_result (ok configuration) r = (
    ok tt,
    record r { c = record (r.c) { configuration = some configuration; available = true } },
  )
  boiler_result (err (Error.control_rejected why)) r = (err (home_assistant_error why), r)
  boiler_result (err Error.cancelled_error) r = (err Error.cancelled_error, r)
  boiler_result (err e) r = (
    err (home_assistant_error "Boiler result uncertain; refresh and check the machine"),
    record r { c = record (r.c) { available = false } },
  )

  -- `async_set_boiler`, from the second check on, with the connection lock held
  unfoldable pub set_boiler : BoilerSetting → Bool → H W (Unit {0})
  unfolding require_control boiler_result
  set_boiler setting enabled r = elim (require_control r.c.options.allow_boiler_control r.c) [
    | err e ↦ (err e, r)
    | ok _ ↦
        (let (result, world') = b.execute_boiler setting enabled r.world in
          boiler_result result (record r { world = world' }))
  ]
