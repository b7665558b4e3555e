-- ===== src/Schedules/Runs/Once/Steps.antt =====
-- The steps of the schedules, and that each keeps the ledger.
use wendougee_data_ha.Base.{
  ◌≤◌, ◌≡◌, refl, ◌∙◌, List, [], ◌∷◌, Bool, true, false, Option, none, some, Error, Result, ok, err,
  ◌⊎◌, inl, inr, Bool-cases, home_assistant_error, ◌||◌, not, if◌then◌else◌, if-Holds,
}
use native.Mathlib.Nat.{le_refl, le_trans}
use wendougee_data_ha.State.{Configuration}
use wendougee_data_ha.Coordinator.{Coordinator, require_control}
use wendougee_data_ha.Schedules.{
  Boiler, brew, steam, Both, put, at, setting_of, Day, Attempts, no_attempts, attempt_at,
  put_attempt, Saved, Now, Attempt, Schedules, Home, Plant, P, save, to_save, saved_as, load,
  loaded,
}
use wendougee_data_ha.Schedules
use wendougee_data_ha.Schedules.Edges.{refresh}
use wendougee_data_ha.Schedules.Runs.{
  proceed, note_acknowledged, acknowledge_free, save_verified, attempted, and_then, mark, confirm,
  switch_off, pause, verify, execute, act, body, mark_unavailable, settle, is_cancelled, handle,
  leave, finish, attempt, guards, run, acknowledge, confirm_idle, shutdown, restart, is_stopped,
  is_uncertain, uncertain, set_running, guarded, acquired_then,
}
use wendougee_data_ha.Schedules.Runs.Once.{
  Ledger, Distinct, later-Ledger, saved-Ledger, loaded-Ledger, marked-Ledger, executed-Ledger,
}

abbrev dates_of : Option Saved → Attempts
dates_of none = no_attempts
dates_of (some saved) = saved.last_attempts

-- a ledger against what is on disk, after the load
loaded_dates-Ledger :
    (memory : Attempts) (disk : Option Saved) (xs : List Attempt) (day : Day)
    → Ledger memory (dates_of disk) xs day
    → let s = loaded disk (Schedules.new disk) in Ledger s.last_attempts (dates_of s.disk) xs day
unfolding loaded Schedules.new
loaded_dates-Ledger memory none xs day l = loaded-Ledger _ _ _ _ l
loaded_dates-Ledger memory (some saved) xs day l = loaded-Ledger _ _ _ _ l

module _ {W : Type 0} (home : Home W) where
  abbrev day_of : W → Day
  day_of w = (home.now w).day

  -- no call takes the local date back
  pub record IsForward : Type 0 where
    pub save : (saved : Saved) (w : W) → day_of w ≤ day_of (home.save saved w).1
    pub execute_boiler :
        (boiler : Boiler) (enabled : Bool) (w : W)
        → day_of w ≤ day_of (home.execute_boiler (setting_of boiler) enabled w).1
    pub verify_idle : (w : W) → day_of w ≤ day_of (home.verify_idle w).1
    pub notify : (boiler : Boiler) (w : W) → day_of w ≤ day_of (home.notify boiler w)
    pub dismiss : (boiler : Boiler) (w : W) → day_of w ≤ day_of (home.dismiss boiler w)
    pub turn_off : (boiler : Boiler) (w : W) → day_of w ≤ day_of (home.turn_off boiler w).1

  -- the ledger of a plant
  abbrev pub HasLedger : Plant W → Type 0
  HasLedger p = Ledger p.s.last_attempts (dates_of p.s.disk) p.executed (day_of p.world)

  -- a step that executes nothing and marks nothing
  record Kept (p q : Plant W) : Type 0 where
    executed : q.executed ≡ p.executed
    memory : q.s.last_attempts ≡ p.s.last_attempts
    disk : (dates_of q.s.disk ≡ dates_of p.s.disk) ⊎ (dates_of q.s.disk ≡ p.s.last_attempts)
    forward : day_of p.world ≤ day_of q.world

  Kept-trans : {p q r : Plant W} → Kept p q → Kept q r → Kept p r
  Kept-trans a b = record {
    executed = b.executed ∙ a.executed;
    memory = b.memory ∙ a.memory;
    disk = elim b.disk [
      | inl same ↦ elim a.disk [ inl e ↦ inl (same ∙ e) | inr e ↦ inr (same ∙ e) ]
      | inr e ↦ inr (e ∙ a.memory)
    ];
    forward = le_trans a.forward b.forward;
  }

  Kept-HasLedger : (p q : Plant W) → Kept p q → HasLedger p → HasLedger q
  Kept-HasLedger p q k l =
      let l' = later-Ledger _ _ _ _ l (day_of q.world) k.forward in
      rw (k.executed, k.memory)
        (elim k.disk [ inl e ↦ rw e l' | inr e ↦ rw e (saved-Ledger _ _ _ _ l') ])

  Kept-refl : (p : Plant W) → Kept p p
  Kept-refl p = record {
    executed = refl;
    memory = refl;
    disk = inl refl;
    forward = le_refl (day_of p.world);
  }

  saved_as-Kept :
      (r : Result (Unit {0})) (pending : Both Bool) (p : Plant W) (w : W)
      → day_of p.world ≤ day_of w
      → Kept p (saved_as r (to_save pending p.s) (record p { world = w }))
  unfolding saved_as to_save
  saved_as-Kept (err e) pending p w h = record {
    executed = refl;
    memory = refl;
    disk = inl refl;
    forward = h;
  }
  saved_as-Kept (ok _) pending p w h = record {
    executed = refl;
    memory = refl;
    disk = inr refl;
    forward = h;
  }

  and_then-Kept :
      {A B : Type 0} (r : Result A) (f : A → P W B) (p q : Plant W)
      → Kept p q
      → ((a : A) (q' : Plant W) → Kept q' (f a q').1)
      → Kept p (and_then r f q).1
  unfolding and_then
  and_then-Kept (ok a) f p q k h = Kept-trans k (h a q)
  and_then-Kept (err e) f p q k h = k

  module _ (fwd : IsForward) where
    save-Kept : (pending : Both Bool) (p : Plant W) → Kept p (save home pending p).1
    unfolding save
    save-Kept pending p =
        saved_as-Kept (home.save (to_save pending p.s) p.world).0 pending p
          (home.save (to_save pending p.s) p.world).1 (fwd.save (to_save pending p.s) p.world)

    switch_off-Kept : (boiler : Boiler) (p : Plant W) → Kept p (switch_off home boiler p).1
    unfolding switch_off
    switch_off-Kept boiler p = record {
      executed = refl;
      memory = refl;
      disk = inl refl;
      forward =
          le_trans (fwd.notify boiler p.world) (fwd.turn_off boiler (home.notify boiler p.world));
    }

    pause-Kept : (boiler : Boiler) (p : Plant W) → Kept p (pause home boiler p).1
    unfolding pause
    pause-Kept boiler p =
        and_then-Kept _ _ p _
          (Kept-trans
            (record { executed = refl; memory = refl; disk = inl refl; forward = le_refl _ })
            (save-Kept _ _))
          (λ _ q. switch_off-Kept boiler q)

    dismissed-Kept :
        (boiler : Boiler) (q : Plant W) → Kept q (record q { world = home.dismiss boiler q.world })
    dismissed-Kept boiler q = record {
      executed = refl;
      memory = refl;
      disk = inl refl;
      forward = fwd.dismiss boiler q.world;
    }

    save_verified-Kept : (boiler : Boiler) (p : Plant W) → Kept p (save_verified home boiler p).1
    unfolding save_verified
    save_verified-Kept boiler p =
        and_then-Kept _ _ p _ (save-Kept _ p) (λ _ q. dismissed-Kept boiler q)

    verify-Kept :
        (boiler : Boiler) (enabled : Bool) (configuration : Configuration) (p : Plant W)
        → Kept p (verify home boiler enabled configuration p).1
    unfolding verify confirm
    verify-Kept boiler enabled configuration p =
        if-Holds {A = Result (Unit {0}) × Plant W} (λ x. Kept p x.1) _ _ _ (Kept-refl p)
          (Kept-trans
            (record { executed = refl; memory = refl; disk = inl refl; forward = le_refl _ })
            (save_verified-Kept boiler _))

    execute-HasLedger :
        (boiler : Boiler) (enabled : Bool) (day : Day) (dates : Attempts) (p : Plant W)
        → Ledger p.s.last_attempts
            (dates_of p.s.disk)
            ((record { boiler = boiler; enabled = enabled; day = day }) ∷ p.executed)
            (day_of p.world)
        → HasLedger (execute home boiler enabled day p).1
    unfolding execute
    execute-HasLedger boiler enabled day dates p l =
        let (result, world') = home.execute_boiler (setting_of boiler) enabled p.world in
        let new : Attempt = record { boiler = boiler; enabled = enabled; day = day } in
        let q : Plant W = record p { executed = new ∷ p.executed; world = world' } in
        Kept-HasLedger q _
          (and_then-Kept result (λ configuration q'. verify home boiler enabled configuration q') q
            q (Kept-refl q) (λ configuration q'. verify-Kept boiler enabled configuration q'))
          (later-Ledger _ _ _ _ l (day_of world') (fwd.execute_boiler boiler enabled p.world))

    -- the plant after the save of the marks
    marked_then-HasLedger :
        (r : Result (Unit {0})) (boiler : Boiler) (enabled : Bool) (p : Plant W) (w : W)
        → attempted (attempt_at p.s.last_attempts boiler enabled) (day_of p.world) ≡ false
        → HasLedger p
        → day_of p.world ≤ day_of w
        → let marked = mark boiler enabled (day_of p.world) p in
          HasLedger
            (and_then r
              (λ _ q. execute home boiler enabled (day_of p.world) q)
              (saved_as r (to_save marked.s.pending marked.s) (record marked { world = w }))).1
    unfolding and_then saved_as to_save mark
    marked_then-HasLedger (err e) boiler enabled p w n l h =
        later-Ledger _ _ _ _ (marked-Ledger _ _ _ _ l boiler enabled) (day_of w) h
    marked_then-HasLedger (ok _) boiler enabled p w n l h =
        execute-HasLedger boiler enabled (day_of p.world) p.s.last_attempts _
          (later-Ledger _ _ _ _ (executed-Ledger _ _ _ _ l boiler enabled n) (day_of w) h)

    act-HasLedger :
        (boiler : Boiler) (enabled : Bool) (p : Plant W)
        → attempted (attempt_at p.s.last_attempts boiler enabled) (day_of p.world) ≡ false
        → HasLedger p
        → HasLedger (act home boiler enabled (day_of p.world) p).1
    unfolding act save mark
    act-HasLedger boiler enabled p n l =
        let marked = mark boiler enabled (day_of p.world) p in
        let saved = to_save marked.s.pending marked.s in
        marked_then-HasLedger (home.save saved p.world).0 boiler enabled p
          (home.save saved p.world).1 n l (fwd.save saved p.world)

    proceed-HasLedger :
        (boiler : Boiler) (enabled : Bool) (p : Plant W)
        → HasLedger p
        → HasLedger (proceed home boiler enabled p).1
    unfolding proceed
    proceed-HasLedger boiler enabled p l =
        if-Holds {A = Result (Unit {0}) × Plant W} (λ x. HasLedger x.1) (is_uncertain boiler p)
          (err uncertain, p)
          (if attempted (attempt_at p.s.last_attempts boiler enabled) (day_of p.world)
            then (ok tt, p)
            else act home boiler enabled (day_of p.world) p)
          l
          (elim (Bool-cases
            (attempted (attempt_at p.s.last_attempts boiler enabled) (day_of p.world))) [
              | inl e ↦ rw e l
              | inr e ↦ rw e (act-HasLedger boiler enabled p e l)
            ])

    and_then-HasLedger :
        {A B : Type 0} (r : Result A) (f : A → P W B) (p : Plant W)
        → HasLedger p
        → ((a : A) (q : Plant W) → HasLedger q → HasLedger (f a q).1)
        → HasLedger (and_then r f p).1
    unfolding and_then
    and_then-HasLedger (ok a) f p l h = h a p l
    and_then-HasLedger (err e) f p l h = l

    body-HasLedger :
        (boiler : Boiler) (enabled : Bool) (p : Plant W)
        → HasLedger p
        → HasLedger (body home boiler enabled p).1
    unfolding body
    body-HasLedger boiler enabled p l =
        if-Holds {A = Result (Unit {0}) × Plant W} (λ x. HasLedger x.1) _ _ _ l
          (and_then-HasLedger (require_control p.c.options.allow_boiler_control p.c) _ p l
            (λ _ q. proceed-HasLedger boiler enabled q))

    mark_unavailable-Kept :
        (boiler : Boiler) (p : Plant W) → Kept p (mark_unavailable home boiler p)
    unfolding mark_unavailable
    mark_unavailable-Kept boiler p =
        if-Holds (λ q. Kept p q) (at p.s.pending boiler)
          (record p { c = record (p.c) { available = false } }) p
          (record { executed = refl; memory = refl; disk = inl refl; forward = le_refl _ })
          (Kept-refl p)

    handle-Kept :
        (cancelled : Bool) (boiler : Boiler) (e : Error) (p : Plant W)
        → Kept p (handle home cancelled boiler e p).1
    unfolding handle
    handle-Kept true boiler e p = pause-Kept boiler p
    handle-Kept false boiler e p = Kept-trans (mark_unavailable-Kept boiler p) (pause-Kept boiler _)

    settle-Kept :
        (boiler : Boiler) (r : Result (Unit {0})) (p : Plant W) → Kept p (settle home boiler r p).1
    unfolding settle
    settle-Kept boiler (ok _) p = Kept-refl p
    settle-Kept boiler (err e) p = handle-Kept (is_cancelled e) boiler e p

    leave-Kept :
        (boiler : Boiler) (acquired : Bool) (p : Plant W) → Kept p (leave home boiler acquired p)
    unfolding leave set_running
    leave-Kept boiler true p = record {
      executed = refl;
      memory = refl;
      disk = inl refl;
      forward = le_refl _;
    }
    leave-Kept boiler false p = record {
      executed = refl;
      memory = refl;
      disk = inl refl;
      forward = le_refl _;
    }

    finish-Kept :
        (boiler : Boiler) (acquired : Bool) (x : Result (Unit {0}) × Plant W)
        → Kept x.1 (finish home boiler acquired x).1
    unfolding finish
    finish-Kept boiler acquired (r, p) =
        Kept-trans (settle-Kept boiler r p) (leave-Kept boiler acquired _)

    attempt-HasLedger :
        (boiler : Boiler) (enabled : Bool) (p : Plant W)
        → HasLedger p
        → HasLedger (attempt home boiler enabled p).1
    unfolding attempt
    attempt-HasLedger boiler enabled p l =
        Kept-HasLedger (body home boiler enabled p).1 _
          (finish-Kept boiler true (body home boiler enabled p)) (body-HasLedger boiler enabled p l)

    confirm_idle-Kept : (boiler : Boiler) (p : Plant W) → Kept p (confirm_idle home boiler p).1
    unfolding confirm_idle
    confirm_idle-Kept boiler p =
        and_then-Kept (home.verify_idle p.world).0
          (λ _ q. save home (put boiler false q.s.pending) q) p
          (record p { world = (home.verify_idle p.world).1 })
          (record {
            executed = refl;
            memory = refl;
            disk = inl refl;
            forward = fwd.verify_idle p.world;
          })
          (λ _ q. save-Kept (put boiler false q.s.pending) q)

    note_acknowledged-Kept :
        (boiler : Boiler) (p : Plant W) → Kept p (note_acknowledged home boiler p).1
    unfolding note_acknowledged
    note_acknowledged-Kept boiler p =
        Kept-trans (record { executed = refl; memory = refl; disk = inl refl; forward = le_refl _ })
          (save-Kept _ _)

    acknowledge_free-Kept :
        (boiler : Boiler) (p : Plant W) → Kept p (acknowledge_free home boiler p).1
    unfolding acknowledge_free
    acknowledge_free-Kept boiler p =
        and_then-Kept _ (λ _ q. note_acknowledged home boiler q) p _ (confirm_idle-Kept boiler p)
          (λ _ q. note_acknowledged-Kept boiler q)

    acknowledge-Kept : (boiler : Boiler) (p : Plant W) → Kept p (acknowledge home boiler p).1
    unfolding acknowledge
    acknowledge-Kept boiler p =
        and_then-Kept (require_control p.c.options.allow_boiler_control p.c) _ p p (Kept-refl p)
          (λ _ q.
            if-Holds {A = Result (Unit {0}) × Plant W} (λ x. Kept q x.1) q.c.connection_locked
              (err (home_assistant_error "Bluetooth operation busy"), q)
              (acknowledge_free home boiler q) (Kept-refl q) (acknowledge_free-Kept boiler q))

    restart-HasLedger : (c : Coordinator) (p : Plant W) → HasLedger p → HasLedger (restart home c p)
    unfolding restart load Schedules.new
    restart-HasLedger c p l =
        loaded_dates-Ledger p.s.last_attempts p.s.disk p.executed (day_of p.world) l

  -- What may happen to a plant, in any order: the two ends of a run, a pause, an acknowledgement,
  -- a refresh of the timers, a shutdown, a new process, and whatever else changes the coordinator
  -- and Home Assistant, the date going forward.
  pub data Step (p : Plant W) : Plant W → Type 0 where
    runs : (boiler : Boiler) (enabled : Bool) → Step p (attempt home boiler enabled p).1
    refuses : (boiler : Boiler) (r : Result (Unit {0})) → Step p (finish home boiler false (r, p)).1
    pauses : (boiler : Boiler) → Step p (pause home boiler p).1
    acknowledges : (boiler : Boiler) → Step p (acknowledge home boiler p).1
    refreshes : Step p (refresh home p).1
    stops : Step p (shutdown home p).1
    restarts : (c : Coordinator) → Step p (restart home c p)
    moves :
        (c : Coordinator) (w : W)
        → day_of p.world ≤ day_of w
        → Step p (record p { c = c; world = w })

  pub data Reach (p : Plant W) : Plant W → Type 0 where
    here : Reach p p
    next : {q r : Plant W} → Reach p q → Step q r → Reach p r

  Step-HasLedger : IsForward → {p q : Plant W} → Step p q → HasLedger p → HasLedger q
  unfolding refresh shutdown
  Step-HasLedger fwd (runs boiler enabled) l = attempt-HasLedger fwd boiler enabled _ l
  Step-HasLedger fwd (refuses boiler r) l =
      Kept-HasLedger _ _ (finish-Kept fwd boiler false (r, _)) l
  Step-HasLedger fwd (pauses boiler) l = Kept-HasLedger _ _ (pause-Kept fwd boiler _) l
  Step-HasLedger fwd (acknowledges boiler) l = Kept-HasLedger _ _ (acknowledge-Kept fwd boiler _) l
  Step-HasLedger fwd refreshes l = l
  Step-HasLedger fwd stops l = l
  Step-HasLedger fwd (restarts c) l = restart-HasLedger fwd c _ l
  Step-HasLedger fwd (moves c w h) l = later-Ledger _ _ _ _ l (day_of w) h

  Reach-HasLedger : IsForward → {p q : Plant W} → HasLedger p → Reach p q → HasLedger q
  Reach-HasLedger fwd l here = l
  Reach-HasLedger fwd l (next r s) = Step-HasLedger fwd s (Reach-HasLedger fwd l r)

  -- From a new installation on, whatever happens in whatever order, no edge of a boiler is
  -- executed twice on one local date, the date of an execution being that of its run's marks,
  -- provided that no call takes the local date back.
  pub executed_once :
      IsForward
      → (c : Coordinator) (w : W) (p : Plant W)
      → Reach (record { c = c; s = Schedules.new none; executed = []; world = w }) p
      → Distinct p.executed
  unfolding Schedules.new
  executed_once fwd c w p r = (Reach-HasLedger fwd start r).distinct
    where
      start : Ledger no_attempts no_attempts [] (day_of w)
      start = record {
        in_memory = tt;
        on_disk = tt;
        recent = (tt, tt, tt, tt);
        stored = (tt, tt, tt, tt);
        distinct = tt;
      }

module _ {W : Type 0} (home : Home W) where
  acquired_then-Reach :
      (boiler : Boiler) (enabled : Bool) (p : Plant W) (x : Result (Unit {0}) × Plant W)
      → Reach home p x.1
      → Reach home p (acquired_then home boiler enabled x).1
  unfolding acquired_then
  acquired_then-Reach boiler enabled p (ok _, q) r = next r (runs boiler enabled)
  acquired_then-Reach boiler enabled p (err e, q) r = next r (refuses boiler (err e))

  guarded-Reach :
      (boiler : Boiler) (enabled : Bool) (wait : P W (Unit {0})) (g : Result Bool) (p : Plant W)
      → Reach home p (wait p).1
      → Reach home p (guarded home boiler enabled wait g p).1
  unfolding guarded
  guarded-Reach boiler enabled wait (err e) p r = next here (refuses boiler (err e))
  guarded-Reach boiler enabled wait (ok false) p r = next here (refuses boiler (ok tt))
  guarded-Reach boiler enabled wait (ok true) p r = acquired_then-Reach boiler enabled p (wait p) r

  -- A run of an edge, up to the state it leaves, is a sequence of the steps, if what happens while it
  -- waits for the lock is.
  run-Reach :
      (boiler : Boiler) (enabled : Bool) (wait : P W (Unit {0})) (p : Plant W)
      → Reach home p (wait p).1
      → Reach home p (run home boiler enabled wait p).1
  unfolding run
  run-Reach boiler enabled wait p r =
      if-Holds {A = Result (Unit {0}) × Plant W} (λ x. Reach home p x.1)
        (is_stopped p || not (home.enabled boiler p.world)) (ok tt, p)
        (guarded home boiler enabled wait (guards home boiler enabled p) p) here
        (guarded-Reach boiler enabled wait (guards home boiler enabled p) p r)
