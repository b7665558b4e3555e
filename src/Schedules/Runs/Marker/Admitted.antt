-- ===== src/Schedules/Runs/Marker/Admitted.antt =====
-- The guards of a run before its wait for the connection lock, and those after it, together.
use wendougee_data_ha.Base.{
  ◌≡◌, refl, sym, ap, arith, ◌∙◌, Bool, true, false, Result, ok, err, ◌⊎◌, inl, inr, not, ◌==◌,
  if◌then◌else◌, Bool-cases,
}
use mathlib.Core.Path.{subst}
use wendougee_data_ha.Coordinator.{require_control}
use wendougee_data_ha.Schedules.{Boiler, Home, Plant, P}
use wendougee_data_ha.Schedules.Edges.{at_edge}
use wendougee_data_ha.Schedules.Runs.{
  finish, is_stopped, is_uncertain, guards, guarded, acquired_then, run, one_machine, uncertain,
  leave,
}
use wendougee_data_ha.Schedules.Runs.Marker.Pending.{finish-executed, settle-executed}
use wendougee_data_ha.Schedules.Runs.Marker.Permitted.{Permitted, attempt-Permitted}

module _ {W : Type 0} (home : Home W) (boiler : Boiler) (enabled : Bool) where
  -- every guard before the wait, on the plant the run starts from
  pub record IsAdmitted (p : Plant W) : Type 0 where
    pub active : is_stopped p ≡ false
    pub switched_on : home.enabled boiler p.world ≡ true
    pub control : require_control p.c.options.allow_boiler_control p.c ≡ ok tt
    pub single : (home.entries p.world == 1) ≡ true
    pub certain : is_uncertain boiler p ≡ false
    pub edge : at_edge home boiler enabled p.world ≡ true

  module _ (wait : P W (Unit {0})) (p : Plant W) where
    -- how the wait of a run ended, and what the run did after it
    pub data Waited (x : Result (Unit {0}) × Plant W) : Type 0 where
      unchanged : x.1.executed ≡ (wait p).1.executed → Waited x
      permitted : (wait p).0 ≡ ok tt → Permitted home boiler enabled (wait p).1 → Waited x

    -- a run that is not admitted executes nothing
    abbrev pub Course : Result (Unit {0}) × Plant W → Type 0
    Course x = (x.1.executed ≡ p.executed) ⊎ (IsAdmitted p × Waited x)

    finish_executed :
        (acquired : Bool) (x : Result (Unit {0}) × Plant W)
        → (finish home boiler acquired x).1.executed ≡ x.1.executed
    unfolding finish leave
    finish_executed true x = finish-executed home boiler x
    finish_executed false (r, q) = settle-executed home boiler r q

    acquired_then-Waited :
        (x : Result (Unit {0}) × Plant W)
        → wait p ≡ x
        → Waited (acquired_then home boiler enabled x)
    unfolding acquired_then
    acquired_then-Waited (err e, q) w =
        unchanged (finish_executed false (err e, q) ∙ sym (ap (λ x. x.1.executed) w))
    acquired_then-Waited (ok _, q) w = elim (attempt-Permitted home boiler enabled q) [
      | inl same ↦ unchanged (same ∙ sym (ap (λ x. x.1.executed) w))
      | inr h ↦
          permitted (ap (λ x. x.0) w)
            (subst (Permitted home boiler enabled) (sym (ap (λ x. x.1) w)) h)
    ]

    guarded-Course :
        (g : Result Bool)
        → (g ≡ ok true → IsAdmitted p)
        → Course (guarded home boiler enabled wait g p)
    unfolding guarded
    guarded-Course (err e) h = inl (finish_executed false (err e, p))
    guarded-Course (ok false) h = inl (finish_executed false (ok tt, p))
    guarded-Course (ok true) h = inr (h refl, acquired_then-Waited (wait p) refl)

    controlled-IsAdmitted :
        (r : Result (Unit {0}))
        → require_control p.c.options.allow_boiler_control p.c ≡ r
        → is_stopped p ≡ false
        → home.enabled boiler p.world ≡ true
        → elim r as (λ x. Result Bool) [
          | err e ↦ err e
          | ok _ ↦
              if not (home.entries p.world == 1)
              then err one_machine
              else if is_uncertain boiler p
              then err uncertain
              else ok (at_edge home boiler enabled p.world)
        ]
          ≡ ok true
        → IsAdmitted p
    controlled-IsAdmitted (err e) c a s g = absurd (cc)
    controlled-IsAdmitted (ok _) c a s g = elim (Bool-cases (home.entries p.world == 1)) [
      | inr n ↦ absurd (ground (arith, n, g))
      | inl n ↦ elim (Bool-cases (is_uncertain boiler p)) [
        | inl u ↦ absurd (ground (arith, n, u, g))
        | inr u ↦ record {
          active = a;
          switched_on = s;
          control = c;
          single = n;
          certain = u;
          edge = ground (arith, n, u, g);
        }
      ]
    ]

    guards-IsAdmitted :
        is_stopped p ≡ false
        → home.enabled boiler p.world ≡ true
        → guards home boiler enabled p ≡ ok true
        → IsAdmitted p
    unfolding guards
    guards-IsAdmitted a s g =
        controlled-IsAdmitted (require_control p.c.options.allow_boiler_control p.c) refl a s g

    -- A run leaves the executions as they were, unless all guards before its wait for the connection
    -- lock hold: neither side is stopped, the schedule is enabled, control is permitted, there is
    -- exactly one machine, no marker or lock is set and the edge is due. Where they hold, it leaves
    -- the executions as the wait did, unless the wait succeeded and all guards after it hold too.
    pub run-Course : Course (run home boiler enabled wait p)
    unfolding run
    run-Course = elim (Bool-cases (is_stopped p)) [
      | inl a ↦ rw (a) (inl refl)
      | inr a ↦ elim (Bool-cases (home.enabled boiler p.world)) [
        | inr s ↦ rw (a, s) (inl refl)
        | inl s ↦
            rw (a, s) (guarded-Course (guards home boiler enabled p) (λ g. guards-IsAdmitted a s g))
      ]
    ]
