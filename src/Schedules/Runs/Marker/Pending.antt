-- ===== src/Schedules/Runs/Marker/Pending.antt =====
-- What a run of an edge leaves of the pending marker: nothing but a verified state clears it, and
-- a set marker keeps the boiler from being driven.
use wendougee_data_ha.Base.{
  ◌≡◌, refl, ap, ◌∙◌, List, ◌∷◌, Bool, true, false, some, Error, Result, ok, err, ◌||◌, not,
  if-Holds,
}
use wendougee_data_ha.State.{Configuration}
use wendougee_data_ha.Coordinator.{require_control}
use wendougee_data_ha.Schedules.{
  Boiler, paused_check_machine, Both, put, at, setting_of, Day, attempt_at, Attempt, Home, Plant, P,
  save, to_save, saved_as,
}
use wendougee_data_ha.Schedules.Edges.{at_edge}
use wendougee_data_ha.Schedules.Runs.{
  proceed, save_verified, attempted, and_then, mark, confirm, switch_off, pause, verify, execute,
  act, body, mark_unavailable, settle, is_cancelled, handle, leave, finish, attempt, is_stopped,
  is_uncertain, is_state, heating_of, uncertain, set_running,
}
use wendougee_data_ha.Schedules.Runs.Marker.{
  pending_on_disk, IsMarked, Ended, kept, verified, verify-Ended, settle-IsMarked, leave-IsMarked,
  at-put,
}

module _ {W : Type 0} (home : Home W) (boiler : Boiler) where
  saved_as-executed :
      (r : Result (Unit {0})) (pending : Both Bool) (p : Plant W) (w : W)
      → (saved_as r (to_save pending p.s) (record p { world = w })).executed ≡ p.executed
  unfolding saved_as
  saved_as-executed (ok _) pending p w = refl
  saved_as-executed (err e) pending p w = refl

  and_then-executed :
      {A B : Type 0} (r : Result A) (f : A → P W B) (p : Plant W)
      → ((a : A) (q : Plant W) → (f a q).1.executed ≡ q.executed)
      → (and_then r f p).1.executed ≡ p.executed
  unfolding and_then
  and_then-executed (ok a) f p h = h a p
  and_then-executed (err e) f p h = refl

  pause-executed : (p : Plant W) → (pause home boiler p).1.executed ≡ p.executed
  unfolding pause save switch_off
  pause-executed p =
      and_then-executed _ (λ _ q. switch_off home boiler q) _ (λ _ q. refl)
      ∙ saved_as-executed _ p.s.pending
          (record p {
            s = record (p.s) {
              running = put boiler false p.s.running;
              last_result = put boiler paused_check_machine p.s.last_result;
            };
          })
          _

  handle-executed :
      (cancelled : Bool) (e : Error) (p : Plant W)
      → (handle home cancelled boiler e p).1.executed ≡ p.executed
  unfolding handle mark_unavailable
  handle-executed true e p = pause-executed p
  handle-executed false e p =
      pause-executed _
      ∙ if-Holds (λ q. q.executed ≡ p.executed) (at p.s.pending boiler)
          (record p { c = record (p.c) { available = false } }) p refl refl

  pub settle-executed :
      (r : Result (Unit {0})) (p : Plant W) → (settle home boiler r p).1.executed ≡ p.executed
  unfolding settle
  settle-executed (ok _) p = refl
  settle-executed (err e) p = handle-executed (is_cancelled e) e p

  leave-executed : (p : Plant W) → (leave home boiler true p).executed ≡ p.executed
  unfolding leave set_running
  leave-executed p = refl

  pub finish-executed :
      (x : Result (Unit {0}) × Plant W) → (finish home boiler true x).1.executed ≡ x.1.executed
  unfolding finish
  finish-executed (r, p) = leave-executed (settle home boiler r p).1 ∙ settle-executed r p

  save_verified-executed : (p : Plant W) → (save_verified home boiler p).1.executed ≡ p.executed
  unfolding save_verified save
  save_verified-executed p = and_then-executed _ _ _ (λ _ q. refl) ∙ saved_as-executed _ _ p _

  verify-executed :
      (enabled : Bool) (configuration : Configuration) (p : Plant W)
      → (verify home boiler enabled configuration p).1.executed ≡ p.executed
  unfolding verify confirm
  verify-executed enabled configuration p =
      if-Holds {A = Result (Unit {0}) × Plant W} (λ x. x.1.executed ≡ p.executed) _ _ _ refl
        (save_verified-executed _)

  abbrev pub attempted_on : Bool → Day → Attempt
  attempted_on enabled day = record { boiler = boiler; enabled = enabled; day = day }

  pub execute-executed :
      (enabled : Bool) (day : Day) (p : Plant W)
      → (execute home boiler enabled day p).1.executed ≡ attempted_on enabled day ∷ p.executed
  unfolding execute
  execute-executed enabled day p =
      and_then-executed (home.execute_boiler (setting_of boiler) enabled p.world).0
        (λ configuration q. verify home boiler enabled configuration q) _
        (λ configuration q. verify-executed enabled configuration q)

  -- what the part of a run that holds the lock did
  pub data Fate (enabled : Bool) (xs : List Attempt) (q : Plant W) : Type 0 where
    unexecuted : q.executed ≡ xs → Fate enabled xs q
    uncertain_after :
        (day : Day)
        → q.executed ≡ attempted_on enabled day ∷ xs
        → IsMarked boiler q
        → Fate enabled xs q
    verified_after :
        (day : Day)
        → q.executed ≡ attempted_on enabled day ∷ xs
        → at q.s.pending boiler ≡ false
        → pending_on_disk boiler q.s.disk ≡ false
        → (configuration : Configuration) → q.c.configuration ≡ some configuration
        → is_state (heating_of boiler configuration) enabled ≡ true
        → Fate enabled xs q

  leave-pending :
      (q : Plant W) → at (leave home boiler true q).s.pending boiler ≡ at q.s.pending boiler
  unfolding leave set_running
  leave-pending q = refl

  -- from the executor's call to the end of the run
  finished-Fate :
      (enabled : Bool) (day : Day) (xs : List Attempt) (r : Result (Unit {0})) (q : Plant W)
      → q.executed ≡ attempted_on enabled day ∷ xs
      → Ended home boiler enabled r q
      → Fate enabled xs (finish home boiler true (r, q)).1
  unfolding finish settle leave set_running
  finished-Fate enabled day xs r q x (kept e h m) =
      uncertain_after day (finish-executed (r, q) ∙ x)
        (leave-IsMarked home boiler boiler true _ (settle-IsMarked home boiler boiler r q m))
  finished-Fate enabled day xs r q x (verified h p d configuration c s) =
      rw (h) (verified_after day x p d configuration c s)

  -- what the rest of a run is judged by
  abbrev Ends : Bool → List Attempt → Result (Unit {0}) × Plant W → Type 0
  Ends enabled xs x = Fate enabled xs (finish home boiler true x).1

  verified-Ends :
      (enabled : Bool) (day : Day) (xs : List Attempt) (r : Result Configuration) (q : Plant W)
      → q.executed ≡ attempted_on enabled day ∷ xs
      → IsMarked boiler q
      → Ends enabled xs
          (and_then r (λ configuration q'. verify home boiler enabled configuration q') q)
  unfolding and_then
  verified-Ends enabled day xs (ok configuration) q x m =
      finished-Fate enabled day xs _ _ (verify-executed enabled configuration q ∙ x)
        (verify-Ended home boiler enabled configuration q m)
  verified-Ends enabled day xs (err e) q x m =
      finished-Fate enabled day xs (err e) q x (kept e refl m)

  execute-Ends :
      (enabled : Bool) (day : Day) (xs : List Attempt) (p : Plant W)
      → p.executed ≡ xs
      → IsMarked boiler p
      → Ends enabled xs (execute home boiler enabled day p)
  unfolding execute
  execute-Ends enabled day xs p x m =
      verified-Ends enabled day xs (home.execute_boiler (setting_of boiler) enabled p.world).0
        (record p {
          executed = attempted_on enabled day ∷ p.executed;
          world = (home.execute_boiler (setting_of boiler) enabled p.world).1;
        })
        (ap (λ ys. attempted_on enabled day ∷ ys) x)
        (record { in_memory = m.in_memory; on_disk = m.on_disk })

  -- the executor is called on a marked plant, if at all
  saved-Ends :
      (enabled : Bool) (day : Day) (xs : List Attempt) (p : Plant W) (r : Result (Unit {0})) (w : W)
      → p.executed ≡ xs
      → at p.s.pending boiler ≡ true
      → Ends enabled xs (
          and_then r
            (λ _ q. execute home boiler enabled day q)
            (saved_as r (to_save p.s.pending p.s) (record p { world = w })))
  unfolding and_then saved_as to_save
  saved-Ends enabled day xs p (ok _) w x k =
      execute-Ends enabled day xs _ x (record { in_memory = k; on_disk = k })
  saved-Ends enabled day xs p (err e) w x k = unexecuted (finish-executed (err e, _) ∙ x)

  act-Ends :
      (enabled : Bool) (day : Day) (p : Plant W)
      → Ends enabled p.executed (act home boiler enabled day p)
  unfolding act mark save
  act-Ends enabled day p =
      saved-Ends enabled day p.executed (mark boiler enabled day p) (home.save _ p.world).0
        (home.save _ p.world).1 refl (at-put boiler true p.s.pending)

  idle-Ends :
      (enabled : Bool) (r : Result (Unit {0})) (p : Plant W) → Ends enabled p.executed (r, p)
  idle-Ends enabled r p = unexecuted (finish-executed (r, p))

  proceed-Ends :
      (enabled : Bool) (p : Plant W) → Ends enabled p.executed (proceed home boiler enabled p)
  unfolding proceed
  proceed-Ends enabled p =
      if-Holds {A = Result (Unit {0}) × Plant W} (Ends enabled p.executed) (is_uncertain boiler p) _
        _ (idle-Ends enabled (err uncertain) p)
        (if-Holds {A = Result (Unit {0}) × Plant W} (Ends enabled p.executed)
          (attempted (attempt_at p.s.last_attempts boiler enabled) (home.now p.world).day) _ _
          (idle-Ends enabled (ok tt) p) (act-Ends enabled (home.now p.world).day p))

  controlled-Ends :
      (enabled : Bool) (r : Result (Unit {0})) (p : Plant W)
      → Ends enabled p.executed (and_then r (λ _ q. proceed home boiler enabled q) p)
  unfolding and_then
  controlled-Ends enabled (ok _) p = proceed-Ends enabled p
  controlled-Ends enabled (err e) p = idle-Ends enabled (err e) p

  -- A run that has the connection lock either does not call the executor; or it calls it once and
  -- leaves the pending marker set, in memory and in the store; or it calls it once and the
  -- machine's configuration, which the coordinator now shows, has the state that was asked for, and
  -- the marker is cleared in both places.
  pub attempt-marker :
      (enabled : Bool) (p : Plant W) → Fate enabled p.executed (attempt home boiler enabled p).1
  unfolding attempt body
  attempt-marker enabled p =
      if-Holds {A = Result (Unit {0}) × Plant W} (Ends enabled p.executed)
        (is_stopped p
          || (not (home.enabled boiler p.world) || not (at_edge home boiler enabled p.world)))
        _ _ (idle-Ends enabled (ok tt) p)
        (controlled-Ends enabled (require_control p.c.options.allow_boiler_control p.c) p)
