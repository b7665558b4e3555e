-- ===== src/Activity.antt =====
-- src/custom_components/wendougee_data/activity.py: durable totals from observed samples.
-- Instants are microseconds. The water total is a float in the source, of whole millilitres.
pub mod Totals
use wendougee_data_ha.Base.{
  ℕ, ◌+◌, ◌-◌, List, [], ◌∷◌, Bool, true, false, ◌&&◌, ◌||◌, not, Option, none, some, is_some, ltb,
  leb, ◌==◌, if◌then◌else◌,
}
use wendougee_data_ha.Telemetry.{Telemetry, Tenths}
use wendougee_data_ha.State.{OperatingState, state, is_idle}
use wendougee_data_ha.Journal
use wendougee_data_ha.Journal.{ShotJournal, Instant, Source, within, max, at_least, fell}

abbrev pub shot_tail_microseconds : ℕ
shot_tail_microseconds = 5000000

abbrev pub shot_tail_max_sample_gap : ℕ
shot_tail_max_sample_gap = 2000000

pub record ActivityTracker : Type 0 where
  pub observed_shots_total : ℕ
  pub observed_pumped_water_ml : ℕ
  pub last_shot_utc : Option Instant
  pub last_shot_volume_ml : Option ℕ
  pub last_cleaning_utc : Option Instant
  pub shot_active : Bool
  pub cleaning_active : Bool
  pub journal : ShotJournal
  pub initialized : Bool
  pub previous_volume_ml : Option ℕ
  pub current_shot_peak_volume_ml : ℕ
  pub previous_observed_at : Option Instant
  pub previous_brew_time_seconds : Option Tenths
  pub shot_tail_started_at : Option Instant
  pub shot_tail_brew_time_seconds : Option Tenths

unfoldable pub new : ActivityTracker
unfolding Journal.new
new = record {
  observed_shots_total = 0;
  observed_pumped_water_ml = 0;
  last_shot_utc = none;
  last_shot_volume_ml = none;
  last_cleaning_utc = none;
  shot_active = false;
  cleaning_active = false;
  journal = Journal.new;
  initialized = false;
  previous_volume_ml = none;
  current_shot_peak_volume_ml = 0;
  previous_observed_at = none;
  previous_brew_time_seconds = none;
  shot_tail_started_at = none;
  shot_tail_brew_time_seconds = none;
}

-- the arguments of `observe`
pub record Sample : Type 0 where
  pub telemetry : Telemetry
  pub state : OperatingState
  pub now : Instant
  pub source : Source

-- the local variables of `observe`
pub record Observed : Type 0 where
  pub shot_active : Bool
  pub cleaning_active : Bool
  pub volume_ml : ℕ
  pub brew_time : Tenths
  pub now : Instant
  pub previous_volume : Option ℕ
  pub previous_brew_time : Option Tenths
  pub continuous_idle : Bool

-- `sample_gap is not None and 0 <= sample_gap <= limit`
abbrev pub gap_within : Option Instant → Instant → Bool
gap_within none now = false
gap_within (some before) now = within shot_tail_max_sample_gap before now

unfoldable pub is_shot_active : OperatingState → Bool
is_shot_active s = s.profile_active || (s.manual_active || s.free_variable_active)

unfoldable pub is_continuous_idle : Sample → ActivityTracker → Bool
is_continuous_idle s t =
    is_idle (state s.state)
    && (not s.telemetry.water_level_alarm
        && (gap_within t.previous_observed_at s.now
            && at_least t.previous_volume_ml s.telemetry.dispensed_volume_ml))

unfoldable pub locals : Sample → ActivityTracker → Observed
unfolding is_shot_active is_continuous_idle
locals s t = record {
  shot_active = is_shot_active s.state;
  cleaning_active = s.state.cleaning_active;
  volume_ml = s.telemetry.dispensed_volume_ml;
  brew_time = s.telemetry.elapsed_brew_time_seconds;
  now = s.now;
  previous_volume = t.previous_volume_ml;
  previous_brew_time = t.previous_brew_time_seconds;
  continuous_idle = is_continuous_idle s t;
}

-- the journal's observation and the two remembered values
unfoldable pub note_sample : Sample → ActivityTracker → ActivityTracker
note_sample s t = record t {
  journal =
      Journal.observe
        (record {
          telemetry = s.telemetry;
          state = s.state;
          now = s.now;
          source = s.source;
          previous_active = t.shot_active;
          initialized = t.initialized;
        })
        t.journal;
  previous_observed_at = some s.now;
  previous_brew_time_seconds = some s.telemetry.elapsed_brew_time_seconds;
}

-- `if not self._initialized:`
unfoldable pub initialize : Observed → ActivityTracker → ActivityTracker
initialize o t = record t {
  initialized = true;
  shot_active = o.shot_active;
  cleaning_active = o.cleaning_active;
  previous_volume_ml = some o.volume_ml;
  current_shot_peak_volume_ml = if o.shot_active then o.volume_ml else 0;
}

-- a shot begins
unfoldable pub count_shot : Observed → ActivityTracker × Bool → ActivityTracker × Bool
count_shot o (t, changed) =
    if o.shot_active && not t.shot_active
    then (
      (record t {
        observed_shots_total = t.observed_shots_total + 1;
        current_shot_peak_volume_ml = o.volume_ml;
      }),
      true,
    )
    else (t, changed)

abbrev same_time : Option Tenths → Tenths → Bool
same_time none b = false
same_time (some a) b = a == b

keep_tail : Observed → Option Tenths → Option Instant → Option Instant
keep_tail o tail_time none = none
keep_tail o tail_time (some started) =
    if not o.continuous_idle
      || (not (within shot_tail_microseconds started o.now)
          || not (same_time tail_time o.brew_time))
    then none
    else some started

-- the tail of the last shot is closed at any discontinuity
unfoldable pub close_tail : Observed → ActivityTracker × Bool → ActivityTracker × Bool
unfolding keep_tail
close_tail o (t, changed) = (
  (record t {
    shot_tail_started_at = keep_tail o t.shot_tail_brew_time_seconds t.shot_tail_started_at;
  }),
  changed,
)

-- the volume since the previous sample, or since the counter was reset
unfoldable pub water_delta : Option ℕ → ℕ → ℕ
water_delta none volume = 0
water_delta (some previous) volume = if leb previous volume then volume - previous else volume

unfoldable pub add_water : Observed → ActivityTracker × Bool → ActivityTracker × Bool
unfolding water_delta
add_water o (t, changed) =
    let delta = water_delta o.previous_volume o.volume_ml in
    if ltb 0 delta
    then ((record t { observed_pumped_water_ml = t.observed_pumped_water_ml + delta }), true)
    else (t, changed)

-- the peak of the running shot
unfoldable pub track_peak : Observed → ActivityTracker → ActivityTracker
track_peak o t =
    let reset =
      t.shot_active
      && (is_some o.previous_volume
          && (fell o.previous_volume o.volume_ml || fell o.previous_brew_time o.brew_time)) in
    record t {
      current_shot_peak_volume_ml =
          max (if reset then 0 else t.current_shot_peak_volume_ml) o.volume_ml;
    }

-- the first sample after a shot
unfoldable pub end_shot : Observed → ActivityTracker → ActivityTracker
end_shot o t =
    let opens = o.continuous_idle && at_least o.previous_brew_time o.brew_time in
    record t {
      last_shot_utc = some o.now;
      last_shot_volume_ml = some t.current_shot_peak_volume_ml;
      current_shot_peak_volume_ml = 0;
      shot_tail_started_at = if opens then some o.now else t.shot_tail_started_at;
      shot_tail_brew_time_seconds =
          if opens then some o.brew_time else t.shot_tail_brew_time_seconds;
    }

-- `if shot_active: … elif self.shot_active: …`
unfoldable pub follow_shot : Observed → ActivityTracker × Bool → ActivityTracker × Bool
unfolding track_peak end_shot
follow_shot o (t, changed) =
    if o.shot_active
    then (track_peak o t, changed)
    else if t.shot_active
    then (end_shot o t, true)
    else (t, changed)

refined : Option Instant → Option ℕ → ℕ → Bool
refined none last volume = false
refined (some _) none volume = false
refined (some _) (some last) volume = ltb last volume

-- the tail's volume, counted already in the water total
unfoldable pub refine : Observed → ActivityTracker × Bool → ActivityTracker × Bool
unfolding refined
refine o (t, changed) =
    if refined t.shot_tail_started_at t.last_shot_volume_ml o.volume_ml
    then ((record t { last_shot_volume_ml = some o.volume_ml }), true)
    else (t, changed)

-- the journal's refinement, when there is something to refine
refine_journal :
    Option Instant → Option ℕ → Sample → Observed → ActivityTracker × Bool → ActivityTracker
refine_journal (some ended) (some volume) s o (t, changed) =
    if changed
      && (not o.shot_active
          && ((leb ended o.now && leb o.now ended) || is_some t.shot_tail_started_at))
    then (record t {
      journal = Journal.refine_volume ended volume s.telemetry o.now s.source t.journal;
    })
    else t
refine_journal _ _ s o (t, changed) = t

unfoldable pub note_refinement : Sample → Observed → ActivityTracker × Bool → ActivityTracker × Bool
unfolding refine_journal
note_refinement s o (t, changed) =
    (refine_journal t.last_shot_utc t.last_shot_volume_ml s o (t, changed), changed)

unfoldable pub end_cleaning : Observed → ActivityTracker × Bool → ActivityTracker × Bool
end_cleaning o (t, changed) =
    if t.cleaning_active && not o.cleaning_active
    then ((record t { last_cleaning_utc = some o.now }), true)
    else (t, changed)

unfoldable pub carry_over : Observed → ActivityTracker × Bool → ActivityTracker × Bool
carry_over o (t, changed) = (
  (record t {
    shot_active = o.shot_active;
    cleaning_active = o.cleaning_active;
    previous_volume_ml = some o.volume_ml;
  }),
  changed,
)

-- the part of `observe` from the test of `_initialized` on
unfoldable pub update : Sample → Observed → ActivityTracker → ActivityTracker × Bool
unfolding count_shot close_tail add_water follow_shot refine note_refinement end_cleaning carry_over
update s o t = carry_over o (
    end_cleaning o (
      note_refinement s o
        (refine o (follow_shot o (add_water o (close_tail o (count_shot o (t, false))))))))

unfoldable pub observe : Sample → ActivityTracker → ActivityTracker × Bool
unfolding note_sample initialize locals update
observe s t =
    let o = locals s t in
    let noted = note_sample s t in
    if not t.initialized then (initialize o noted, false) else update s o noted
