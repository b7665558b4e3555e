-- ===== src/Schedules/Runs/Marker/Permitted.antt =====
-- When a run of an edge calls the executor at all.
use wendougee_data_ha.Base.{
  ◌≡◌, refl, Bool, true, false, Result, ok, err, ◌⊎◌, inl, inr, Bool-cases,
}
use wendougee_data_ha.Coordinator.{require_control}
use wendougee_data_ha.Schedules.{Boiler, attempt_at, Home, Plant}
use wendougee_data_ha.Schedules.Edges.{at_edge}
use wendougee_data_ha.Schedules.Runs.{
  proceed, and_then, body, finish, attempt, is_stopped, is_uncertain, attempted, uncertain,
}
use wendougee_data_ha.Schedules.Runs.Marker.Pending.{finish-executed}

module _ {W : Type 0} (home : Home W) (boiler : Boiler) where
  -- every guard of the run, on the plant it finds
  pub record Permitted (enabled : Bool) (p : Plant W) : Type 0 where
    pub active : is_stopped p ≡ false
    pub switched_on : home.enabled boiler p.world ≡ true
    pub edge : at_edge home boiler enabled p.world ≡ true
    pub control : require_control p.c.options.allow_boiler_control p.c ≡ ok tt
    pub certain : is_uncertain boiler p ≡ false
    pub fresh :
        attempted (attempt_at p.s.last_attempts boiler enabled) (home.now p.world).day ≡ false

  -- the executor was not called, or every guard let the run through
  abbrev Judged : Bool → Plant W → Result (Unit {0}) × Plant W → Type 0
  Judged enabled p x = ((finish home boiler true x).1.executed ≡ p.executed) ⊎ Permitted enabled p

  proceed-Judged :
      (enabled : Bool) (p : Plant W)
      → is_stopped p ≡ false
      → home.enabled boiler p.world ≡ true
      → at_edge home boiler enabled p.world ≡ true
      → require_control p.c.options.allow_boiler_control p.c ≡ ok tt
      → Judged enabled p (proceed home boiler enabled p)
  unfolding proceed
  proceed-Judged enabled p a s e c = elim (Bool-cases (is_uncertain boiler p)) [
    | inl u ↦ rw (u) (inl (finish-executed home boiler (err uncertain, p)))
    | inr u ↦
        elim (Bool-cases
          (attempted (attempt_at p.s.last_attempts boiler enabled) (home.now p.world).day)) [
            | inl f ↦ rw (u, f) (inl (finish-executed home boiler (ok tt, p)))
            | inr f ↦ inr (record {
              active = a;
              switched_on = s;
              edge = e;
              control = c;
              certain = u;
              fresh = f;
            })
          ]
  ]

  controlled-Judged :
      (enabled : Bool) (p : Plant W)
      → is_stopped p ≡ false
      → home.enabled boiler p.world ≡ true
      → at_edge home boiler enabled p.world ≡ true
      → (r : Result (Unit {0})) → require_control p.c.options.allow_boiler_control p.c ≡ r
      → Judged enabled p (and_then r (λ _ q. proceed home boiler enabled q) p)
  unfolding and_then
  controlled-Judged enabled p a s e (ok _) c = proceed-Judged enabled p a s e c
  controlled-Judged enabled p a s e (err _) c = inl (finish-executed home boiler (_, p))

  -- A run that has the connection lock calls the executor only where nothing was shut down, the
  -- boiler's schedule is enabled, its edge is due now, boiler control is permitted, no marker or
  -- lock makes an earlier control uncertain, and the edge was not attempted on this date.
  pub attempt-Permitted :
      (enabled : Bool) (p : Plant W)
      → ((attempt home boiler enabled p).1.executed ≡ p.executed) ⊎ Permitted enabled p
  unfolding attempt body
  attempt-Permitted enabled p = elim (Bool-cases (is_stopped p)) [
    | inl a ↦ rw (a) (inl (finish-executed home boiler (ok tt, p)))
    | inr a ↦ elim (Bool-cases (home.enabled boiler p.world)) [
      | inr s ↦ rw (a, s) (inl (finish-executed home boiler (ok tt, p)))
      | inl s ↦ elim (Bool-cases (at_edge home boiler enabled p.world)) [
        | inr e ↦ rw (a, s, e) (inl (finish-executed home boiler (ok tt, p)))
        | inl e ↦
            rw (a, s, e)
              (controlled-Judged enabled p a s e
                (require_control p.c.options.allow_boiler_control p.c) refl)
      ]
    ]
  ]
