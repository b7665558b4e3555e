-- ===== src/Schedules/Edges/Armed.antt =====
-- When the scheduler reports a boiler as armed, after its timers were refreshed.
use wendougee_data_ha.Base.{
  ◌≡◌, refl, sym, ap, ◌∙◌, arith, Bool, true, false, ◌&&◌, ◌||◌, not, is_some, ◌↔◌, ◌==◌,
  if◌then◌else◌, Bool-cases, inl, inr,
}
use wendougee_data_ha.Schedules.{Boiler, brew, steam, at, Home, Plant}
use wendougee_data_ha.Schedules.Edges.{
  times, listens, timers_of, refresh, Status, executing, check_machine, paused, disabled,
  control_disabled, invalid_times, blocked, not_listening, armed, status, is_paused,
}

module _ {W : Type 0} (home : Home W) (boiler : Boiler) where
  pub record IsReady (p : Plant W) : Type 0 where
    pub active : p.s.stopped ≡ false
    pub at_rest : at p.s.running boiler ≡ false
    pub certain : at p.s.pending boiler ≡ false
    pub switched_on : home.enabled boiler p.world ≡ true
    pub permitted : p.c.options.allow_boiler_control ≡ true
    pub timed : is_some (times home boiler p.world) ≡ true
    pub unlocked : (p.c.locks.profile_start_locked || p.c.locks.cleaning_start_locked) ≡ false
    pub single : (home.entries p.world == 1) ≡ true

unfoldable pub is_armed : Status → Bool
is_armed armed = true
is_armed _ = false

-- what the chain of tests of `status` says when its answer is `armed`
record Passed (running pending enabled allowed valid locked sole heard : Bool) : Type 0 where
  at_rest : running ≡ false
  certain : pending ≡ false
  switched_on : enabled ≡ true
  permitted : allowed ≡ true
  timed : valid ≡ true
  unlocked : locked ≡ false
  single : sole ≡ true
  listening : heard ≡ true

abbrev chain : Bool → Bool → Bool → Bool → Bool → Bool → Bool → Bool → Bool → Status
chain running pending enabled halted allowed timed locked single listening =
    if running
    then executing
    else if pending
    then check_machine
    else if not enabled && halted
    then paused
    else if not enabled
    then disabled
    else if not allowed
    then control_disabled
    else if not timed
    then invalid_times
    else if locked
    then blocked
    else if not single
    then blocked
    else if listening
    then armed
    else not_listening

chain-Passed :
    (running pending enabled halted allowed timed locked single listening : Bool)
    → is_armed (chain running pending enabled halted allowed timed locked single listening) ≡ true
    → Passed running pending enabled allowed timed locked single listening
unfolding is_armed
chain-Passed true p e g a t l s n h = absurd (cc)
chain-Passed false true e g a t l s n h = absurd (cc)
chain-Passed false false false true a t l s n h = absurd (cc)
chain-Passed false false false false a t l s n h = absurd (cc)
chain-Passed false false true g false t l s n h = absurd (cc)
chain-Passed false false true g true false l s n h = absurd (cc)
chain-Passed false false true g true true true s n h = absurd (cc)
chain-Passed false false true g true true false false n h = absurd (cc)
chain-Passed false false true g true true false true false h = absurd (cc)
chain-Passed false false true g true true false true true h = record {
  at_rest = refl;
  certain = refl;
  switched_on = refl;
  permitted = refl;
  timed = refl;
  unlocked = refl;
  single = refl;
  listening = refl;
}

module _ {W : Type 0} (home : Home W) where
  -- the timers of a boiler after a refresh
  refreshed :
      (boiler : Boiler) (p : Plant W)
      → at (refresh home p).1.s.timers boiler ≡ timers_of home boiler p
  unfolding refresh
  refreshed brew p = refl
  refreshed steam p = refl

  -- a boiler has timers only while the scheduler is not stopped
  active_timers :
      (boiler : Boiler) (p : Plant W)
      → is_some (timers_of home boiler p) ≡ true
      → p.s.stopped ≡ false
  unfolding timers_of listens
  active_timers boiler p h = elim (Bool-cases p.s.stopped) [
    | inr k ↦ k
    | inl k ↦ absurd (ground (arith, h, k))
  ]

  pub armed-IsReady :
      (boiler : Boiler) (p : Plant W)
      → is_armed (status home boiler (refresh home p).1) ≡ true
      → IsReady home boiler p
  unfolding status refresh
  armed-IsReady boiler p h =
      let q =
        chain-Passed (at p.s.running boiler) (at p.s.pending boiler) (home.enabled boiler p.world)
          (is_paused (at p.s.last_result boiler)) p.c.options.allow_boiler_control
          (is_some (times home boiler p.world))
          (p.c.locks.profile_start_locked || p.c.locks.cleaning_start_locked)
          (home.entries p.world == 1) (is_some (at (refresh home p).1.s.timers boiler)) h in
      record {
        active = active_timers boiler p (ap is_some (sym (refreshed boiler p)) ∙ q.listening);
        at_rest = q.at_rest;
        certain = q.certain;
        switched_on = q.switched_on;
        permitted = q.permitted;
        timed = q.timed;
        unlocked = q.unlocked;
        single = q.single;
      }

  ready_timers :
      (boiler : Boiler) (p : Plant W)
      → IsReady home boiler p
      → is_some (timers_of home boiler p) ≡ true
  unfolding timers_of listens
  ready_timers boiler p r = simp (r.active, r.permitted, r.switched_on, r.certain) r.timed

  IsReady-armed :
      (boiler : Boiler) (p : Plant W)
      → IsReady home boiler p
      → chain
          (at p.s.running boiler)
          (at p.s.pending boiler)
          (home.enabled boiler p.world)
          (is_paused (at p.s.last_result boiler))
          p.c.options.allow_boiler_control
          (is_some (times home boiler p.world))
          (p.c.locks.profile_start_locked || p.c.locks.cleaning_start_locked)
          (home.entries p.world == 1)
          (is_some (timers_of home boiler p))
        ≡ armed
  IsReady-armed boiler p r =
      simp
        (
          r.at_rest,
          r.certain,
          r.switched_on,
          r.permitted,
          r.timed,
          r.unlocked,
          r.single,
          ready_timers boiler p r,
        )
        refl

  -- After a refresh of the timers the status of a boiler is `armed` exactly where the scheduler is
  -- not stopped, the boiler's schedule is enabled with valid times and is not running, control is
  -- permitted, no marker or lock is set, and there is one machine.
  pub status-armed_iff :
      (boiler : Boiler) (p : Plant W)
      → (status home boiler (refresh home p).1 ≡ armed) ↔ IsReady home boiler p
  unfolding status refresh is_armed
  status-armed_iff boiler p = (
    (λ e. armed-IsReady boiler p (ap is_armed e)),
    (λ r.
        ap
          (λ timers.
            chain (at p.s.running boiler) (at p.s.pending boiler) (home.enabled boiler p.world)
              (is_paused (at p.s.last_result boiler)) p.c.options.allow_boiler_control
              (is_some (times home boiler p.world))
              (p.c.locks.profile_start_locked || p.c.locks.cleaning_start_locked)
              (home.entries p.world == 1) (is_some timers))
          (refreshed boiler p)
        ∙ IsReady-armed boiler p r),
  )
