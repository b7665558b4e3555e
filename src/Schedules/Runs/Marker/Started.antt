-- ===== src/Schedules/Runs/Marker/Started.antt =====
-- The run of a boiler that the scheduler reports as armed.
use wendougee_data_ha.Base.{
  ◌≡◌, refl, ap, ◌∙◌, ◌∷◌, Bool, true, false, Result, ok, err, not, ◌==◌, if◌then◌else◌,
}
use wendougee_data_ha.Coordinator.{Coordinator, require_control}
use wendougee_data_ha.Schedules.{Boiler, Day, attempt_at, Home, Plant, P, save, to_save, saved_as}
use wendougee_data_ha.Schedules.Edges.{at_edge, refresh, status, armed}
use wendougee_data_ha.Schedules.Edges.Armed.{IsReady, is_armed, armed-IsReady}
use wendougee_data_ha.Schedules.Runs.{
  proceed, and_then, mark, execute, act, body, attempt, guards, guarded, acquired_then, run,
  attempted, is_stopped, is_uncertain, one_machine, uncertain,
}
use wendougee_data_ha.Schedules.Runs.Marker.Pending.{
  attempted_on, execute-executed, finish-executed,
}

-- the wait for a free connection lock, during which nothing else happens
unfoldable pub acquire : {W : Type 0} → P W (Unit {0})
acquire p = (ok tt, record p { c = record (p.c) { connection_locked = true } })

module _ {W : Type 0} (home : Home W) (boiler : Boiler) (enabled : Bool) where
  saved_then-executed :
      (day : Day) (p : Plant W) (r : Result (Unit {0})) (w : W)
      → r ≡ ok tt
      → (and_then r
          (λ _ q. execute home boiler enabled day q)
          (saved_as r (to_save p.s.pending p.s) (record p { world = w }))).1.executed
        ≡ attempted_on home boiler enabled day ∷ p.executed
  unfolding and_then saved_as
  saved_then-executed day p (err e) w s = absurd (cc)
  saved_then-executed day p (ok _) w s = execute-executed home boiler enabled day _

  -- the run's save of its marks succeeds
  abbrev pub Saves : Plant W → Type 0
  Saves p =
      let marked = mark boiler enabled (home.now p.world).day p in
      (home.save (to_save marked.s.pending marked.s) p.world).0 ≡ ok tt

  act-executed :
      (p : Plant W)
      → Saves p
      → (act home boiler enabled (home.now p.world).day p).1.executed
        ≡ attempted_on home boiler enabled (home.now p.world).day ∷ p.executed
  unfolding act save mark
  act-executed p s =
      saved_then-executed (home.now p.world).day (mark boiler enabled (home.now p.world).day p) _ _
        s

  proceed-executed :
      (p : Plant W)
      → is_uncertain boiler p ≡ false
      → attempted (attempt_at p.s.last_attempts boiler enabled) (home.now p.world).day ≡ false
      → Saves p
      → (proceed home boiler enabled p).1.executed
        ≡ attempted_on home boiler enabled (home.now p.world).day ∷ p.executed
  unfolding proceed
  proceed-executed p u f s = rw (u, f) (act-executed p s)

  attempt-executed :
      (p : Plant W)
      → is_stopped p ≡ false
      → home.enabled boiler p.world ≡ true
      → at_edge home boiler enabled p.world ≡ true
      → require_control p.c.options.allow_boiler_control p.c ≡ ok tt
      → is_uncertain boiler p ≡ false
      → attempted (attempt_at p.s.last_attempts boiler enabled) (home.now p.world).day ≡ false
      → Saves p
      → (attempt home boiler enabled p).1.executed
        ≡ attempted_on home boiler enabled (home.now p.world).day ∷ p.executed
  unfolding attempt body and_then
  attempt-executed p a s e c u f k =
      finish-executed home boiler (body home boiler enabled p)
      ∙ rw (a, s, e, c) (proceed-executed p u f k)

  ready_stopped : (p : Plant W) → IsReady home boiler p → p.c.stopped ≡ false → is_stopped p ≡ false
  unfolding is_stopped
  ready_stopped p r a = simp (r.active, a) refl

  ready_uncertain : (p : Plant W) → IsReady home boiler p → is_uncertain boiler p ≡ false
  unfolding is_uncertain
  ready_uncertain p r = simp (r.certain, r.unlocked) refl

  ready_control :
      (c : Coordinator)
      → c.options.allow_boiler_control ≡ true
      → c.stopped ≡ false
      → require_control c.options.allow_boiler_control c ≡ ok tt
  unfolding require_control
  ready_control c k a = simp (k, a) refl

  controlled_guards :
      (p : Plant W) (r : Result (Unit {0}))
      → r ≡ ok tt
      → (home.entries p.world == 1) ≡ true
      → is_uncertain boiler p ≡ false
      → at_edge home boiler enabled p.world ≡ true
      → elim r as (λ x. Result Bool) [
        | err e ↦ err e
        | ok _ ↦
            if not (home.entries p.world == 1)
            then err one_machine
            else if is_uncertain boiler p
            then err uncertain
            else ok (at_edge home boiler enabled p.world)
      ]
        ≡ ok true
  controlled_guards p (err e) c n u k = absurd (cc)
  controlled_guards p (ok _) c n u k = rw (n, u, k) refl

  ready_guards :
      (p : Plant W)
      → IsReady home boiler p
      → p.c.stopped ≡ false
      → at_edge home boiler enabled p.world ≡ true
      → guards home boiler enabled p ≡ ok true
  unfolding guards
  ready_guards p r a e =
      controlled_guards p (require_control p.c.options.allow_boiler_control p.c)
        (ready_control p.c r.permitted a) r.single (ready_uncertain p r) e

  acquired-executed :
      (p : Plant W)
      → IsReady home boiler p
      → p.c.stopped ≡ false
      → at_edge home boiler enabled p.world ≡ true
      → attempted (attempt_at p.s.last_attempts boiler enabled) (home.now p.world).day ≡ false
      → Saves p
      → (attempt home boiler enabled (acquire p).1).1.executed
        ≡ attempted_on home boiler enabled (home.now p.world).day ∷ p.executed
  unfolding acquire is_stopped is_uncertain mark
  acquired-executed p r a e f k =
      attempt-executed (acquire p).1 (ready_stopped p r a) r.switched_on e
        (ready_control (acquire p).1.c r.permitted a) (ready_uncertain p r) f k

  ready-executed :
      (p : Plant W)
      → IsReady home boiler p
      → p.c.stopped ≡ false
      → at_edge home boiler enabled p.world ≡ true
      → attempted (attempt_at p.s.last_attempts boiler enabled) (home.now p.world).day ≡ false
      → Saves p
      → (run home boiler enabled acquire p).1.executed
        ≡ attempted_on home boiler enabled (home.now p.world).day ∷ p.executed
  unfolding run guarded acquired_then acquire
  ready-executed p r a e f k =
      rw (ready_stopped p r a, r.switched_on, ready_guards p r a e) (acquired-executed p r a e f k)

  -- A boiler that is reported as armed is executed when its time comes: where its edge is due, the
  -- coordinator is not stopped, the edge was not attempted on this date, the save of the marks
  -- succeeds, and the connection lock is free and nothing else happens in the wait for it, the run
  -- of the edge calls the executor, for this boiler, edge and date, exactly once.
  pub armed-executed :
      (p : Plant W)
      → status home boiler (refresh home p).1 ≡ armed
      → p.c.stopped ≡ false
      → at_edge home boiler enabled p.world ≡ true
      → attempted (attempt_at p.s.last_attempts boiler enabled) (home.now p.world).day ≡ false
      → Saves p
      → (run home boiler enabled acquire p).1.executed
        ≡ attempted_on home boiler enabled (home.now p.world).day ∷ p.executed
  unfolding is_armed
  armed-executed p h a e f k =
      ready-executed p (armed-IsReady home boiler p (ap is_armed h)) a e f k
