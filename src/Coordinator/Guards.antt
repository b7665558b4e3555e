-- ===== src/Coordinator/Guards.antt =====
-- The locks of the coordinator: memory is never laxer than the disk, and an uncertain control
-- blocks every later start, across a reload too.
use wendougee_data_ha.Base.{
  Bool, true, false, ◌||◌, not, Error, Result, ok, err, is_control_rejected, ◌≡◌, arith,
}
use wendougee_data_ha.Telemetry.{Telemetry}
use wendougee_data_ha.State.{OperatingState}
use wendougee_data_ha.Coordinator.{
  Coordinator, Lock, profile_lock, with_lock, Backend, Running, save_lock, any_locked,
  start_profile, prepare_profile, load_control_state,
}

-- a lock on disk is a lock in memory
abbrev implies : Bool → Bool → Bool
implies a b = not a || b

pub record IsGuarded (c : Coordinator) : Type 0 where
  pub profile : implies c.saved.profile_start_locked c.locks.profile_start_locked ≡ true
  pub preparation :
      implies c.saved.profile_preparation_locked c.locks.profile_preparation_locked ≡ true
  pub cleaning : implies c.saved.cleaning_start_locked c.locks.cleaning_start_locked ≡ true

module _ {W : Type 0} (b : Backend W) where
  -- what a save of a lock does, by whether the store took it
  pub save_lock-IsGuarded :
      (lock : Lock) (locked : Bool) (r : Running W)
      → IsGuarded r.c
      → IsGuarded (save_lock b lock locked r).1.c
  unfolding save_lock
  save_lock-IsGuarded lock locked r g = ground arith

  -- the start of a profile whose first save succeeds and whose executor gives the result
  abbrev pub attempt : (r : Running W) → Result (Telemetry × OperatingState)
  attempt r = (b.execute_profile (b.save (with_lock profile_lock true r.c.locks) r.world).1).0

  -- ready to start: enabled, running, free and without a lock
  pub record IsReady (r : Running W) : Type 0 where
    pub enabled : r.c.options.allow_profile_start ≡ true
    pub running : r.c.stopped ≡ false
    pub free : r.c.connection_locked ≡ false
    pub unlocked : any_locked b r.c ≡ false

  uncertain_start :
      (r : Running W) (e : Error)
      → IsReady r
      → (b.save (with_lock profile_lock true r.c.locks) r.world).0 ≡ ok tt
      → attempt r ≡ err e
      → is_control_rejected e ≡ false
      → ((start_profile b r).1.c.locks.profile_start_locked ≡ true)
        × ((start_profile b r).1.c.saved.profile_start_locked ≡ true)
  unfolding start_profile
  uncertain_start r e i s x n = ground arith

  -- a start under a lock does nothing
  blocked : (r : Running W) → r.c.locks.profile_start_locked ≡ true → (start_profile b r).1 ≡ r
  unfolding start_profile any_locked
  blocked r p = ground arith

  blocked_preparation :
      (r : Running W) → r.c.locks.profile_start_locked ≡ true → (prepare_profile b r).1 ≡ r
  unfolding prepare_profile any_locked
  blocked_preparation r p = ground arith

  -- the running integration after a restart of the process, which loads the locks
  abbrev pub restarted : Running W → Running W
  restarted r = record r { c = load_control_state r.c }

  -- A start that was let through, whose lock was saved and whose executor then failed with
  -- anything but `ControlRejected` leaves every later start and preparation without any effect, at
  -- once and after a restart.
  pub uncertain_start_blocks :
      (r : Running W) (e : Error)
      → IsReady r
      → (b.save (with_lock profile_lock true r.c.locks) r.world).0 ≡ ok tt
      → attempt r ≡ err e
      → is_control_rejected e ≡ false
      → let after = (start_profile b r).1 in
        ((start_profile b after).1 ≡ after)
        × ((prepare_profile b after).1 ≡ after)
        × ((start_profile b (restarted after)).1 ≡ restarted after)
        × ((prepare_profile b (restarted after)).1 ≡ restarted after)
  uncertain_start_blocks r e i s x n =
      let after = (start_profile b r).1 in
      let (memory, disk) = uncertain_start r e i s x n in
      (
        blocked after memory,
        blocked_preparation after memory,
        blocked (restarted after) (unfold load_control_state in disk),
        blocked_preparation (restarted after) (unfold load_control_state in disk),
      )

  -- A start that was let through and whose first save fails, with anything but `ControlRejected`,
  -- never runs the executor, and stays locked in memory.
  pub unsaved_start_sends_nothing :
      (r : Running W) (e : Error)
      → IsReady r
      → (b.save (with_lock profile_lock true r.c.locks) r.world).0 ≡ err e
      → is_control_rejected e ≡ false
      → ((start_profile b r).1.world ≡ (b.save (with_lock profile_lock true r.c.locks) r.world).1)
        × ((start_profile b r).1.c.locks.profile_start_locked ≡ true)
  unfolding start_profile
  unsaved_start_sends_nothing r e i s n = ground arith
