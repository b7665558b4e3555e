-- ===== src/Coordinator/Invariant.antt =====
-- The invariant of the locks: every guarded operation keeps what is locked on disk locked in
-- memory.
use wendougee_data_ha.Base.{List, [], ◌∷◌, Bool, true, false, String, Result, ok, err, arith}
use wendougee_data_ha.Telemetry.{Telemetry}
use wendougee_data_ha.State.{OperatingState}
use wendougee_data_ha.Controls.{BoilerSetting}
use wendougee_data_ha.Coordinator.{
  Coordinator, Lock, profile_lock, preparation_lock, cleaning_lock, Backend, Running, H, Seen,
  save_lock, on_rejected, handle, and_then, note_start, start_body, start_profile, prepare_body,
  prepare_profile, confirm_idle, acknowledge_profile, acknowledge_cleaning, observe_cleaning,
  observe_all, finish_cleaning, clean_body, mark_unavailable, start_cleaning, set_boiler,
  load_control_state,
}
use wendougee_data_ha.Coordinator.Guards.{IsGuarded, save_lock-IsGuarded}

module _ {W : Type 0} (b : Backend W) where
  -- the result and the state after a step, where the state is guarded
  pub record Keeps {A : Type 0} (f : H W A) : Type 0 where
    pub at : (r : Running W) → IsGuarded r.c → IsGuarded (f r).1.c

  and_then-IsGuarded :
      {A B : Type 0} (x : Result A) (f : A → H W B) (r : Running W)
      → ((a : A) → Keeps (f a))
      → IsGuarded r.c
      → IsGuarded (and_then b x f r).1.c
  unfolding and_then
  and_then-IsGuarded (ok a) f r k g = (k a).at r g
  and_then-IsGuarded (err e) f r k g = g

  handle-IsGuarded :
      {A : Type 0} (lock : Lock) (text : String) (x : Result A) (r : Running W)
      → IsGuarded r.c
      → IsGuarded (handle b lock text x r).1.c
  unfolding handle on_rejected
  handle-IsGuarded lock text x r g = ground (arith, save_lock-IsGuarded b lock false r g)

  note_start-Keeps : (x : Telemetry × OperatingState) → Keeps (note_start b x)
  unfolding note_start and_then save_lock
  note_start-Keeps x = record { at = λ r g. ground arith }

  start_body-Keeps : Keeps (start_body b)
  unfolding start_body
  start_body-Keeps = record {
    at = λ r g.
        and_then-IsGuarded (save_lock b profile_lock true r).0
          (λ _ q.
            let (result, world') = b.execute_profile q.world in
            and_then b result (note_start b) (record q { world = world' }))
          (save_lock b profile_lock true r).1
          (λ _. record {
            at = λ q h.
                and_then-IsGuarded (b.execute_profile q.world).0 (note_start b)
                  (record q { world = (b.execute_profile q.world).1 }) note_start-Keeps h;
          })
          (save_lock-IsGuarded b profile_lock true r g);
  }

  prepare_body-Keeps : Keeps (prepare_body b)
  unfolding prepare_body and_then
  prepare_body-Keeps = record { at = λ r g. ground (arith, save_lock-IsGuarded b) }

  -- `async_start_profile` keeps what is locked on disk locked in memory, however the store and
  -- the executor behave.
  pub start_profile-IsGuarded : (r : Running W) → IsGuarded r.c → IsGuarded (start_profile b r).1.c
  unfolding start_profile
  start_profile-IsGuarded r g = ground (
    arith,
    handle-IsGuarded profile_lock "Profile start result uncertain; further starts are locked."
        (start_body b r).0 (start_body b r).1 (start_body-Keeps.at r g),
  )

  -- `async_prepare_profile` does so too
  pub prepare_profile-IsGuarded :
      (r : Running W) → IsGuarded r.c → IsGuarded (prepare_profile b r).1.c
  unfolding prepare_profile
  prepare_profile-IsGuarded r g = ground (
    arith,
    handle-IsGuarded preparation_lock "Profile preparation uncertain; starts locked."
        (prepare_body b r).0 (prepare_body b r).1 (prepare_body-Keeps.at r g),
  )

  confirm_idle-IsGuarded :
      (lock : Lock) (r : Running W) → IsGuarded r.c → IsGuarded (confirm_idle b lock r).1.c
  unfolding confirm_idle and_then
  confirm_idle-IsGuarded lock r g =
      ground
        (arith, save_lock-IsGuarded b lock false (record r { world = (b.verify_idle r.world).1 }) g)

  pub acknowledge_profile-IsGuarded :
      (r : Running W) → IsGuarded r.c → IsGuarded (acknowledge_profile b r).1.c
  unfolding acknowledge_profile
  acknowledge_profile-IsGuarded r g = ground (arith, confirm_idle-IsGuarded profile_lock r g)

  pub acknowledge_cleaning-IsGuarded :
      (r : Running W) → IsGuarded r.c → IsGuarded (acknowledge_cleaning b r).1.c
  unfolding acknowledge_cleaning
  acknowledge_cleaning-IsGuarded r g = ground (arith, confirm_idle-IsGuarded cleaning_lock r g)

  observe_cleaning-IsGuarded :
      (s : Seen) (r : Running W) → IsGuarded r.c → IsGuarded (observe_cleaning b s r).c
  unfolding observe_cleaning
  observe_cleaning-IsGuarded s r g = ground arith

  observe_all-IsGuarded :
      (ss : List Seen) (r : Running W) → IsGuarded r.c → IsGuarded (observe_all b ss r).c
  unfolding observe_all
  observe_all-IsGuarded [] r g = g
  observe_all-IsGuarded (s ∷ ss) r g =
      observe_all-IsGuarded ss (observe_cleaning b s r) (observe_cleaning-IsGuarded s r g)

  finish_cleaning-Keeps : Keeps (finish_cleaning b)
  unfolding finish_cleaning and_then
  finish_cleaning-Keeps = record {
    at = λ r g. ground (
      arith,
      save_lock-IsGuarded b cleaning_lock false
          (record r { world = (b.save_activity r.c.activity r.world).1 }) g,
    );
  }

  clean_body-Keeps : Keeps (clean_body b)
  unfolding clean_body
  clean_body-Keeps = record {
    at = λ r g.
        and_then-IsGuarded (save_lock b cleaning_lock true r).0
          (λ _ q.
            let (result, (seen, world')) = b.execute_cleaning q.world in
            and_then b result (λ _ p. finish_cleaning b p)
              (observe_all b seen (record q { world = world' })))
          (save_lock b cleaning_lock true r).1
          (λ _. record {
            at = λ q h.
                and_then-IsGuarded (b.execute_cleaning q.world).0 (λ _ p. finish_cleaning b p)
                  (observe_all b (b.execute_cleaning q.world).1.0
                    (record q { world = (b.execute_cleaning q.world).1.1 }))
                  (λ _. finish_cleaning-Keeps)
                  (observe_all-IsGuarded (b.execute_cleaning q.world).1.0
                    (record q { world = (b.execute_cleaning q.world).1.1 }) h);
          })
          (save_lock-IsGuarded b cleaning_lock true r g);
  }

  mark_unavailable-IsGuarded :
      (x : Result (Unit {0})) (r : Running W) → IsGuarded r.c → IsGuarded (mark_unavailable b x r).c
  unfolding mark_unavailable
  mark_unavailable-IsGuarded x r g = ground arith

  pub start_cleaning-IsGuarded :
      (r : Running W) → IsGuarded r.c → IsGuarded (start_cleaning b r).1.c
  unfolding start_cleaning
  start_cleaning-IsGuarded r g =
      let (x, r') = clean_body b r in
      ground (
        arith,
        handle-IsGuarded cleaning_lock "Cleaning result uncertain; further starts are locked."
            (clean_body b r).0 (mark_unavailable b (clean_body b r).0 (clean_body b r).1)
            (mark_unavailable-IsGuarded (clean_body b r).0 (clean_body b r).1
              (clean_body-Keeps.at r g)),
      )

  pub set_boiler-IsGuarded :
      (setting : BoilerSetting) (enabled : Bool) (r : Running W)
      → IsGuarded r.c
      → IsGuarded (set_boiler b setting enabled r).1.c
  unfolding set_boiler
  set_boiler-IsGuarded setting enabled r g = ground arith

-- the guarded operations of the coordinator
pub data Request : Type 0 where
  boiler : BoilerSetting → Bool → Request
  starting preparing cleaning acknowledging acknowledging_cleaning restarting : Request

module _ {W : Type 0} (b : Backend W) where
  -- one request after another, a restart of the process among them
  unfoldable pub run : List Request → Running W → Running W
  unfolding start_profile prepare_profile start_cleaning acknowledge_profile acknowledge_cleaning
      set_boiler load_control_state
  run [] r = r
  run (boiler setting enabled ∷ qs) r = run qs (set_boiler b setting enabled r).1
  run (starting ∷ qs) r = run qs (start_profile b r).1
  run (preparing ∷ qs) r = run qs (prepare_profile b r).1
  run (cleaning ∷ qs) r = run qs (start_cleaning b r).1
  run (acknowledging ∷ qs) r = run qs (acknowledge_profile b r).1
  run (acknowledging_cleaning ∷ qs) r = run qs (acknowledge_cleaning b r).1
  run (restarting ∷ qs) r = run qs (record r { c = load_control_state r.c })

  load-IsGuarded : (c : Coordinator) → IsGuarded (load_control_state c)
  unfolding load_control_state
  load-IsGuarded c = ground arith

  -- From a state where each lock that is locked on disk is locked in memory, every sequence of
  -- boiler changes, starts, preparations, cleanings, acknowledgements and restarts leads to such
  -- a state, whatever the store and the machine do.
  pub run-IsGuarded : (qs : List Request) (r : Running W) → IsGuarded r.c → IsGuarded (run qs r).c
  unfolding run
  run-IsGuarded [] r g = g
  run-IsGuarded (boiler setting enabled ∷ qs) r g =
      run-IsGuarded qs (set_boiler b setting enabled r).1
        (set_boiler-IsGuarded b setting enabled r g)
  run-IsGuarded (starting ∷ qs) r g =
      run-IsGuarded qs (start_profile b r).1 (start_profile-IsGuarded b r g)
  run-IsGuarded (preparing ∷ qs) r g =
      run-IsGuarded qs (prepare_profile b r).1 (prepare_profile-IsGuarded b r g)
  run-IsGuarded (cleaning ∷ qs) r g =
      run-IsGuarded qs (start_cleaning b r).1 (start_cleaning-IsGuarded b r g)
  run-IsGuarded (acknowledging ∷ qs) r g =
      run-IsGuarded qs (acknowledge_profile b r).1 (acknowledge_profile-IsGuarded b r g)
  run-IsGuarded (acknowledging_cleaning ∷ qs) r g =
      run-IsGuarded qs (acknowledge_cleaning b r).1 (acknowledge_cleaning-IsGuarded b r g)
  run-IsGuarded (restarting ∷ qs) r g =
      run-IsGuarded qs (record r { c = load_control_state r.c }) (load-IsGuarded r.c)
