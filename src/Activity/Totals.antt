-- ===== src/Activity/Totals.antt =====
-- The durable totals of `ActivityTracker.observe` against what the samples say.
use wendougee_data_ha.Base.{
  ℕ, suc, ◌+◌, ◌≡◌, refl, ap, ◌∙◌, arith, List, [], ◌∷◌, Bool, true, false, ◌&&◌, not, some,
  if◌then◌else◌, ltb, inl, inr, Bool-cases,
}
use wendougee_data_ha.Activity.{
  ActivityTracker, Sample, Observed, observe, update, locals, note_sample, is_shot_active,
  water_delta, count_shot, close_tail, add_water, follow_shot, refine, note_refinement,
  end_cleaning, carry_over,
}

-- the samples one after the other
unfoldable pub observe_all : List Sample → ActivityTracker → ActivityTracker
observe_all [] t = t
observe_all (s ∷ ss) t = observe_all ss (observe s t).0

-- the volume that the last sample shows, or the volume before the samples where there is none
unfoldable pub last_shown : ℕ → List Sample → ℕ
last_shown volume [] = volume
last_shown volume (s ∷ ss) = last_shown s.telemetry.dispensed_volume_ml ss

-- the volumes that the pump's counter stood at before each of its falls
unfoldable pub before_falls : ℕ → List Sample → ℕ
before_falls volume [] = 0
before_falls volume (s ∷ ss) =
    (if ltb s.telemetry.dispensed_volume_ml volume then volume else 0)
    + before_falls s.telemetry.dispensed_volume_ml ss

-- the samples that show a shot where the one before did not
unfoldable pub shots_begun : Bool → List Sample → ℕ
shots_begun active [] = 0
shots_begun active (s ∷ ss) =
    let rest = shots_begun (is_shot_active s.state) ss in
    if is_shot_active s.state && not active then suc rest else rest

-- the fields that most steps leave alone
record Same (t t' : ActivityTracker) : Type 0 where
  water : t'.observed_pumped_water_ml ≡ t.observed_pumped_water_ml
  shots : t'.observed_shots_total ≡ t.observed_shots_total
  active : t'.shot_active ≡ t.shot_active
  initialized : t'.initialized ≡ t.initialized

Same-trans : {a b c : ActivityTracker} → Same a b → Same b c → Same a c
Same-trans p q = record {
  water = q.water ∙ p.water;
  shots = q.shots ∙ p.shots;
  active = q.active ∙ p.active;
  initialized = q.initialized ∙ p.initialized;
}

module _ (o : Observed) where
  close_tail-Same : (p : ActivityTracker × Bool) → Same p.0 (close_tail o p).0
  unfolding close_tail
  close_tail-Same (t, b) = record { water = refl; shots = refl; active = refl; initialized = refl }

  follow_shot-Same : (p : ActivityTracker × Bool) → Same p.0 (follow_shot o p).0
  unfolding follow_shot
  follow_shot-Same (t, b) = ground arith

  refine-Same : (p : ActivityTracker × Bool) → Same p.0 (refine o p).0
  unfolding refine
  refine-Same (t, b) = ground arith

  note_refinement-Same :
      (s : Sample) (p : ActivityTracker × Bool) → Same p.0 (note_refinement s o p).0
  unfolding note_refinement
  note_refinement-Same s (t, b) = ground arith

  end_cleaning-Same : (p : ActivityTracker × Bool) → Same p.0 (end_cleaning o p).0
  unfolding end_cleaning
  end_cleaning-Same (t, b) = ground arith

  after_water-Same :
      (s : Sample) (p : ActivityTracker × Bool)
      → Same p.0 (end_cleaning o (note_refinement s o (refine o (follow_shot o p)))).0
  after_water-Same s p = Same-trans (follow_shot-Same p) (
      Same-trans (refine-Same (follow_shot o p)) (
        Same-trans (note_refinement-Same s (refine o (follow_shot o p)))
          (end_cleaning-Same (note_refinement s o (refine o (follow_shot o p))))))

  add_water_lem :
      (p : ActivityTracker × Bool)
      → let t' = (add_water o p).0 in
        (t'.observed_pumped_water_ml
          ≡ p.0.observed_pumped_water_ml + water_delta o.previous_volume o.volume_ml)
        × (t'.observed_shots_total ≡ p.0.observed_shots_total)
        × (t'.shot_active ≡ p.0.shot_active)
        × (t'.initialized ≡ p.0.initialized)
  unfolding add_water
  add_water_lem (t, b) = ground arith

  count_shot_lem :
      (p : ActivityTracker × Bool)
      → let t' = (count_shot o p).0 in
        (t'.observed_pumped_water_ml ≡ p.0.observed_pumped_water_ml)
        × (t'.observed_shots_total ≡ (
            if o.shot_active && not p.0.shot_active
            then p.0.observed_shots_total + 1
            else p.0.observed_shots_total))
        × (t'.shot_active ≡ p.0.shot_active)
        × (t'.initialized ≡ p.0.initialized)
  unfolding count_shot
  count_shot_lem (t, b) = ground arith

-- what one sample does to an initialized tracker
record Counted (s : Sample) (t t' : ActivityTracker) : Type 0 where
  water :
      t'.observed_pumped_water_ml
      ≡ t.observed_pumped_water_ml
        + water_delta t.previous_volume_ml s.telemetry.dispensed_volume_ml
  shots : t'.observed_shots_total ≡ (
      if is_shot_active s.state && not t.shot_active
      then t.observed_shots_total + 1
      else t.observed_shots_total)
  volume : t'.previous_volume_ml ≡ some s.telemetry.dispensed_volume_ml
  active : t'.shot_active ≡ is_shot_active s.state
  initialized : t'.initialized ≡ t.initialized

update-Counted :
    (s : Sample) (t : ActivityTracker) → Counted s t (update s (locals s t) (note_sample s t)).0
unfolding update carry_over note_sample locals
update-Counted s t =
    let o = locals s t in
    let p = count_shot o (note_sample s t, false) in
    let q = add_water o (close_tail o p) in
    let first = count_shot_lem o (note_sample s t, false) in
    let tail = close_tail-Same o p in
    let wet = add_water_lem o (close_tail o p) in
    let rest = after_water-Same o s q in
    record {
      water =
          rest.water
          ∙ (wet.0
              ∙ ap (λ n. n + water_delta o.previous_volume o.volume_ml) (tail.water ∙ first.0));
      shots = rest.shots ∙ (wet.1 ∙ (tail.shots ∙ first.1));
      volume = refl;
      active = refl;
      initialized = rest.initialized ∙ (wet.3 ∙ (tail.initialized ∙ first.3));
    }

observe-Counted :
    (s : Sample) (t : ActivityTracker) → t.initialized ≡ true → Counted s t (observe s t).0
unfolding observe
observe-Counted s t i = elim (Bool-cases (not t.initialized)) [
  | inl e ↦ absurd (cc)
  | inr e ↦ rw e (update-Counted s t)
]

water_delta_lem :
    (previous volume : ℕ)
    → water_delta (some previous) volume + previous
      ≡ volume + (if ltb volume previous then previous else 0)
unfolding water_delta
water_delta_lem previous volume = ground arith

-- Over any samples, the water total of an initialized tracker that has seen a volume grows by the
-- last volume shown, less the volume it started from, plus what the pump's counter stood at
-- before each of its falls.
pub observe_all-water :
    (ss : List Sample) (t : ActivityTracker) (volume : ℕ)
    → t.initialized ≡ true
    → t.previous_volume_ml ≡ some volume
    → (observe_all ss t).observed_pumped_water_ml + volume
      ≡ t.observed_pumped_water_ml + last_shown volume ss + before_falls volume ss
unfolding observe_all last_shown before_falls
observe_all-water [] t volume i p = omega arith
observe_all-water (s ∷ ss) t volume i p =
    let c = observe-Counted s t i in
    let shown = s.telemetry.dispensed_volume_ml in
    omega (
      arith,
      c.water,
      ap (λ v. water_delta v shown) p,
      water_delta_lem volume shown,
      observe_all-water ss (observe s t).0 shown (c.initialized ∙ i) c.volume,
    )

-- Over any samples, an initialized tracker adds to its count of shots exactly the samples that
-- show a shot where the sample before showed none.
pub observe_all-shots :
    (ss : List Sample) (t : ActivityTracker)
    → t.initialized ≡ true
    → (observe_all ss t).observed_shots_total
      ≡ t.observed_shots_total + shots_begun t.shot_active ss
unfolding observe_all shots_begun
observe_all-shots [] t i = omega arith
observe_all-shots (s ∷ ss) t i =
    let c = observe-Counted s t i in
    ground (
      arith,
      c.shots,
      ap (λ v. shots_begun v ss) c.active,
      observe_all-shots ss (observe s t).0 (c.initialized ∙ i),
    )
