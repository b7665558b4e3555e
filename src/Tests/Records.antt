-- ===== src/Tests/Records.antt =====
-- A shot seen by an initialized tracker, and a journal that takes its samples.
use wendougee_data_ha.Base.{
  ℕ, List, [], ◌∷◌, Bool, true, false, some, ◌≡◌, ◌+◌, ◌*◌, if◌then◌else◌, refl, map,
}
use wendougee_data_ha.Telemetry.{Telemetry}
use wendougee_data_ha.State.{OperatingState}
use wendougee_data_ha.Journal
use wendougee_data_ha.Journal.{capture}
use wendougee_data_ha.Journal.Bounds.{IsBounded, new-IsBounded, observe-IsBounded}
use wendougee_data_ha.Activity
use wendougee_data_ha.Activity.{ActivityTracker}
use wendougee_data_ha.Activity.Totals.{
  observe_all, last_shown, before_falls, shots_begun, observe_all-water, observe_all-shots,
}

abbrev pub telemetry_at : ℕ → ℕ → Telemetry
telemetry_at tenths volume = record {
  elapsed_brew_time_seconds = tenths;
  water_level_alarm = false;
  steam_boiler_temperature_celsius = 0;
  brew_boiler_temperature_celsius = 930;
  pressure_bar = 90;
  dispensed_volume_ml = volume;
  scale_weight_grams = 0;
  pump_active_time_seconds = 0;
  instantaneous_flow_ml_per_second = 0;
  weight_rate_grams_per_second = 0;
}

abbrev pub brewing : Bool → OperatingState
brewing active = record {
  raw_bits = if active then 1 else 0;
  profile_active = active;
  manual_active = false;
  cleaning_active = false;
  free_variable_active = false;
  unknown_bits = 0;
}

abbrev sample : ℕ → Bool → ℕ → Activity.Sample
sample now active volume = record {
  telemetry = telemetry_at now volume;
  state = brewing active;
  now = now * 100000;
  source = capture;
}

abbrev samples : List Activity.Sample
samples = sample 1 true 5 ∷ sample 2 true 20 ∷ sample 3 false 30 ∷ sample 4 true 3 ∷ []

abbrev tracker : ActivityTracker
tracker = record Activity.new { initialized = true; previous_volume_ml = some 0 }

-- the counter falls from 30 ml
fallen : before_falls 0 samples ≡ 30
unfolding before_falls
fallen = refl

begun : shots_begun false samples ≡ 2
unfolding shots_begun Activity.is_shot_active
begun = refl

observe_all-water_example :
    (observe_all samples tracker).observed_pumped_water_ml + 0
    ≡ tracker.observed_pumped_water_ml + last_shown 0 samples + before_falls 0 samples
observe_all-water_example = observe_all-water samples tracker 0 refl refl

observe_all-shots_example :
    (observe_all samples tracker).observed_shots_total
    ≡ tracker.observed_shots_total + shots_begun tracker.shot_active samples
observe_all-shots_example = observe_all-shots samples tracker refl

abbrev journal_sample : Journal.Sample
journal_sample = record {
  telemetry = telemetry_at 10 20;
  state = brewing true;
  now = 1000000;
  source = capture;
  previous_active = false;
  initialized = true;
}

observe-IsBounded_example : IsBounded (Journal.observe journal_sample Journal.new)
observe-IsBounded_example = observe-IsBounded journal_sample Journal.new new-IsBounded

abbrev finished_shot : Journal.Shot
finished_shot = record {
  ended_at = some 1000000;
  duration_s = 250;
  peak_bar = 90;
  pumped_ml = 20;
  scale_at_stop_g = some 0;
  source = capture;
  coverage = Journal.observed_start;
  samples = 40;
}

abbrev last_point : Journal.Point
last_point = record {
  started = 0;
  now = 900000;
  pressure_bar = 90;
  volume_ml = 19;
  scale_weight_grams = 0;
}

-- a journal whose latest shot was captured
abbrev recorded : Journal.ShotJournal
recorded = record Journal.new {
  records = finished_shot ∷ finished_shot ∷ [];
  latest_curve = last_point ∷ [];
}

refined_volume : ℕ → List ℕ
refined_volume volume =
    map (λ shot. shot.pumped_ml)
      (Journal.refine_volume 1000000 volume (telemetry_at 10 20) 2000000 capture recorded).records

corrected : refined_volume 21 ≡ 20 ∷ 21 ∷ []
unfolding refined_volume Journal.refine_volume Journal.new
corrected = refl
