-- ===== src/Schedules/Runs/Marker/Acknowledged.antt =====
-- When an acknowledgement clears a marker.
use wendougee_data_ha.Base.{
  ◌≡◌, refl, ap, ◌∙◌, false, Error, Result, ok, err, cancelled_error, home_assistant_error, ◌⊎◌,
  inl, inr, Bool-cases, Result-cases, if◌then◌else◌,
}
use wendougee_data_ha.Coordinator.{require_control}
use wendougee_data_ha.Schedules.{Boiler, put, Home, Plant, P, save}
use wendougee_data_ha.Schedules.Runs.{
  and_then, locked, confirm_idle, note_acknowledged, acknowledge_free, acknowledge,
}

module _ {W : Type 0} (home : Home W) (boiler : Boiler) where
  -- the conditions of an acknowledgement
  pub record IsAcknowledged (p : Plant W) : Type 0 where
    pub control : require_control p.c.options.allow_boiler_control p.c ≡ ok tt
    pub free : p.c.connection_locked ≡ false
    pub idle : (home.verify_idle p.world).0 ≡ ok tt

  stopped_at :
      {A : Type 0} (e : Error) (f : Unit {0} → P W A) (q : Plant W)
      → (and_then (locked home (err e)) f q).1 ≡ q
  unfolding locked and_then
  stopped_at cancelled_error f q = refl
  stopped_at _ f q = refl

  -- the rest of an acknowledgement, by the result of the reading
  read_then : Result (Unit {0}) → Plant W → Result (Unit {0}) × Plant W
  read_then idle q =
      let (result, p') = and_then idle (λ _ q'. save home (put boiler false q'.s.pending) q') q in
      and_then (locked home result) (λ _ q'. note_acknowledged home boiler q') p'

  read_then-err : (e : Error) (q : Plant W) → (read_then (err e) q).1 ≡ q
  unfolding read_then and_then
  read_then-err e q = stopped_at e _ q

  unverified-pending :
      (e : Error) (p : Plant W)
      → (home.verify_idle p.world).0 ≡ err e
      → (acknowledge_free home boiler p).1.s.pending ≡ p.s.pending
  unfolding acknowledge_free confirm_idle read_then
  unverified-pending e p h =
      ap (λ r. (read_then r (record p { world = (home.verify_idle p.world).1 })).1.s.pending) h
      ∙ ap (λ q. q.s.pending) (read_then-err e (record p { world = (home.verify_idle p.world).1 }))

  controlled-IsAcknowledged :
      (p : Plant W) (r : Result (Unit {0}))
      → require_control p.c.options.allow_boiler_control p.c ≡ r
      → ((and_then r
            (λ _ q.
              if q.c.connection_locked
              then (err (home_assistant_error "Bluetooth operation busy"), q)
              else acknowledge_free home boiler q)
            p).1.s.pending
          ≡ p.s.pending)
        ⊎ IsAcknowledged p
  unfolding and_then
  controlled-IsAcknowledged p (err e) c = inl refl
  controlled-IsAcknowledged p (ok _) c = elim (Bool-cases p.c.connection_locked) [
    | inl k ↦ simp (k) (inl refl)
    | inr k ↦ elim (Result-cases (home.verify_idle p.world).0) [
      | inl (_, v) ↦ inr (record { control = c; free = k; idle = v })
      | inr (e, v) ↦ simp (k) (inl (unverified-pending e p v))
    ]
  ]

  -- An acknowledgement leaves every marker as it was, unless boiler control is permitted, no other
  -- operation holds the connection, and the machine has been read and was idle.
  pub acknowledge-IsAcknowledged :
      (p : Plant W) → ((acknowledge home boiler p).1.s.pending ≡ p.s.pending) ⊎ IsAcknowledged p
  unfolding acknowledge
  acknowledge-IsAcknowledged p =
      controlled-IsAcknowledged p (require_control p.c.options.allow_boiler_control p.c) refl
