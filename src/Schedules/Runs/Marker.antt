-- ===== src/Schedules/Runs/Marker.antt =====
-- The pending markers: they are on disk before the hardware is touched, an action that was not
-- verified leaves them set, and a set marker keeps its boiler from running.
pub mod Acknowledged
pub mod Admitted
pub mod Locked
pub mod Pending
pub mod Permitted
pub mod Started
use wendougee_data_ha.Base.{
  ℕ, suc, ◌+◌, ◌≤◌, ◌≡◌, ◌≢◌, refl, sym, ap, ◌∙◌, arith, List, [], ◌∷◌, Bool, true, false, Option,
  none, some, Error, Result, ok, err, ◌⊎◌, inl, inr, Result-cases, Bool-cases, home_assistant_error,
  ◌||◌, not, if◌then◌else◌, if-Holds,
}
use wendougee_data_ha.State.{Configuration}
use wendougee_data_ha.Coordinator.{Coordinator, require_control}
use wendougee_data_ha.Schedules.{
  Boiler, brew, steam, Both, put, at, setting_of, Day, Attempts, attempt_at, Saved, Attempt,
  Schedules, Home, Plant, P, save, to_save, saved_as, load, loaded,
}
use wendougee_data_ha.Journal.{Instant}
use wendougee_data_ha.Schedules
use wendougee_data_ha.Schedules.Edges.{refresh, at_edge}
use wendougee_data_ha.Schedules.Runs.{
  proceed, save_verified, attempted, and_then, mark, confirm, switch_off, pause, verify, execute,
  act, body, mark_unavailable, settle, is_cancelled, handle, leave, finish, attempt, restart,
  is_stopped, is_uncertain, is_state, heating_of, unverified, uncertain, set_running,
}

abbrev pending_on_disk : Boiler → Option Saved → Bool
pending_on_disk boiler none = false
pending_on_disk boiler (some saved) = at saved.pending boiler

-- the marker of a boiler, in memory and on disk
pub record IsMarked {W : Type 0} (boiler : Boiler) (p : Plant W) : Type 0 where
  pub in_memory : at p.s.pending boiler ≡ true
  pub on_disk : pending_on_disk boiler p.s.disk ≡ true

at-put : {A : Type 0} (boiler : Boiler) (a : A) (d : Both A) → at (put boiler a d) boiler ≡ a
at-put brew a d = refl
at-put steam a d = refl

module _ {W : Type 0} (home : Home W) (boiler : Boiler) where
  saved_as-IsMarked :
      (r : Result (Unit {0})) (pending : Both Bool) (p : Plant W) (w : W)
      → at pending boiler ≡ true
      → IsMarked boiler p
      → IsMarked boiler (saved_as r (to_save pending p.s) (record p { world = w }))
  unfolding saved_as to_save
  saved_as-IsMarked (ok _) pending p w k m = record { in_memory = k; on_disk = k }
  saved_as-IsMarked (err e) pending p w k m = record {
    in_memory = m.in_memory;
    on_disk = m.on_disk;
  }

  and_then-IsMarked :
      {A B : Type 0} (r : Result A) (f : A → P W B) (p : Plant W)
      → IsMarked boiler p
      → ((a : A) (q : Plant W) → IsMarked boiler q → IsMarked boiler (f a q).1)
      → IsMarked boiler (and_then r f p).1
  unfolding and_then
  and_then-IsMarked (ok a) f p m h = h a p m
  and_then-IsMarked (err e) f p m h = m

  save-IsMarked :
      (pending : Both Bool) (p : Plant W)
      → at pending boiler ≡ true
      → IsMarked boiler p
      → IsMarked boiler (save home pending p).1
  unfolding save
  save-IsMarked pending p k m =
      saved_as-IsMarked (home.save (to_save pending p.s) p.world).0 pending p
        (home.save (to_save pending p.s) p.world).1 k m

  switch_off-IsMarked :
      (b : Boiler) (p : Plant W) → IsMarked boiler p → IsMarked boiler (switch_off home b p).1
  unfolding switch_off
  switch_off-IsMarked b p m = record { in_memory = m.in_memory; on_disk = m.on_disk }

  pause-IsMarked :
      (b : Boiler) (p : Plant W) → IsMarked boiler p → IsMarked boiler (pause home b p).1
  unfolding pause
  pause-IsMarked b p m =
      and_then-IsMarked _ (λ _ q. switch_off home b q) _
        (save-IsMarked p.s.pending _ m.in_memory
          (record { in_memory = m.in_memory; on_disk = m.on_disk }))
        (λ _ q. switch_off-IsMarked b q)

  handle-IsMarked :
      (cancelled : Bool) (b : Boiler) (e : Error) (p : Plant W)
      → IsMarked boiler p
      → IsMarked boiler (handle home cancelled b e p).1
  unfolding handle mark_unavailable
  handle-IsMarked true b e p m = pause-IsMarked b p m
  handle-IsMarked false b e p m = pause-IsMarked b _ (
      if-Holds (IsMarked boiler) (at p.s.pending b)
        (record p { c = record (p.c) { available = false } }) p
        (record { in_memory = m.in_memory; on_disk = m.on_disk }) m)

  settle-IsMarked :
      (b : Boiler) (r : Result (Unit {0})) (p : Plant W)
      → IsMarked boiler p
      → IsMarked boiler (settle home b r p).1
  unfolding settle
  settle-IsMarked b (ok _) p m = m
  settle-IsMarked b (err e) p m = handle-IsMarked (is_cancelled e) b e p m

  leave-IsMarked :
      (b : Boiler) (acquired : Bool) (p : Plant W)
      → IsMarked boiler p
      → IsMarked boiler (leave home b acquired p)
  unfolding leave set_running
  leave-IsMarked b true p m = record { in_memory = m.in_memory; on_disk = m.on_disk }
  leave-IsMarked b false p m = record { in_memory = m.in_memory; on_disk = m.on_disk }

  -- an execution on a marked plant: the marker is kept, or the state was verified
  data Ended (enabled : Bool) (r : Result (Unit {0})) (q : Plant W) : Type 0 where
    kept : (e : Error) → r ≡ err e → IsMarked boiler q → Ended enabled r q
    verified :
        r ≡ ok tt
        → at q.s.pending boiler ≡ false
        → pending_on_disk boiler q.s.disk ≡ false
        → (configuration : Configuration) → q.c.configuration ≡ some configuration
        → is_state (heating_of boiler configuration) enabled ≡ true
        → Ended enabled r q

  -- the end of `save_verified`, by the result of its save
  dismissed-Ended :
      (enabled : Bool) (configuration : Configuration) (p : Plant W) (r : Result (Unit {0})) (w : W)
      (f : Unit {0} → P W (Unit {0}))
      → IsMarked boiler p
      → p.c.configuration ≡ some configuration
      → is_state (heating_of boiler configuration) enabled ≡ true
      → ((q : Plant W) → f tt q ≡ (ok tt, record q { world = home.dismiss boiler q.world }))
      → (let d = to_save (put boiler false p.s.pending) p.s in
          let e = and_then r f (saved_as r d (record p { world = w })) in Ended enabled e.0 e.1)
  unfolding and_then saved_as to_save
  dismissed-Ended enabled configuration p (ok _) w f m c s h = rw (h) (
      verified refl (at-put boiler false p.s.pending) (at-put boiler false p.s.pending)
        configuration c s)
  dismissed-Ended enabled configuration p (err e) w f m c s h =
      kept e refl (record { in_memory = m.in_memory; on_disk = m.on_disk })

  save_verified-Ended :
      (enabled : Bool) (configuration : Configuration) (p : Plant W)
      → IsMarked boiler p
      → p.c.configuration ≡ some configuration
      → is_state (heating_of boiler configuration) enabled ≡ true
      → Ended enabled (save_verified home boiler p).0 (save_verified home boiler p).1
  unfolding save_verified save
  save_verified-Ended enabled configuration p m c s =
      dismissed-Ended enabled configuration p
        (home.save (to_save (put boiler false p.s.pending) p.s) p.world).0
        (home.save (to_save (put boiler false p.s.pending) p.s) p.world).1
        (λ _ q. (ok tt, record q { world = home.dismiss boiler q.world })) m c s (λ q. refl)

  confirm-IsMarked :
      (enabled : Bool) (configuration : Configuration) (now : Instant) (p : Plant W)
      → IsMarked boiler p
      → IsMarked boiler (confirm boiler enabled configuration now p)
  unfolding confirm
  confirm-IsMarked enabled configuration now p m = record {
    in_memory = m.in_memory;
    on_disk = m.on_disk;
  }

  confirm-configuration :
      (enabled : Bool) (configuration : Configuration) (now : Instant) (p : Plant W)
      → (confirm boiler enabled configuration now p).c.configuration ≡ some configuration
  unfolding confirm
  confirm-configuration enabled configuration now p = refl

  verify-Ended :
      (enabled : Bool) (configuration : Configuration) (p : Plant W)
      → IsMarked boiler p
      → Ended enabled
          (verify home boiler enabled configuration p).0
          (verify home boiler enabled configuration p).1
  unfolding verify
  verify-Ended enabled configuration p m =
      elim (Bool-cases (is_state (heating_of boiler configuration) enabled)) [
        | inl e ↦ rw (e) (
            save_verified-Ended enabled configuration _
              (confirm-IsMarked enabled configuration (home.utcnow p.world) p m)
              (confirm-configuration enabled configuration (home.utcnow p.world) p) e)
        | inr e ↦ rw (e) (kept unverified refl m)
      ]
