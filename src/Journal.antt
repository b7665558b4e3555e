-- ===== src/Journal.antt =====
-- src/custom_components/wendougee_data/shot_journal.py: the bounded journal of observed shots.
-- An instant is a number of microseconds. A point keeps the two instants whose difference the
-- source rounds to milliseconds; no decision rests on the rounded value.
pub mod Bounds
pub mod Refinement
use wendougee_data_ha.Base.{
  ℕ, zero, suc, ◌+◌, ◌-◌, List, [], ◌∷◌, ◌++◌, Bool, true, false, ◌&&◌, ◌||◌, not, Option, none,
  some, ltb, leb, if◌then◌else◌, length, drop,
}
use wendougee_data_ha.Telemetry.{Telemetry, Tenths}
use wendougee_data_ha.State.{OperatingState, Mode, profile, manual, free_variable, state, is_idle}

abbrev pub max_records : ℕ
max_records = 30

abbrev pub max_points : ℕ
max_points = 600

abbrev pub Instant : Type 0
Instant = ℕ

pub data Source : Type 0 where
  poll capture : Source

pub data Coverage : Type 0 where
  observed_start partial sparse truncated : Coverage

-- `final_yield_g` is always `None`.
pub record Shot : Type 0 where
  pub ended_at : Option Instant
  pub duration_s : Tenths
  pub peak_bar : Tenths
  pub pumped_ml : ℕ
  pub scale_at_stop_g : Option Tenths
  pub source : Source
  pub coverage : Coverage
  pub samples : ℕ

pub record Point : Type 0 where
  pub started : Instant
  pub now : Instant
  pub pressure_bar : Tenths
  pub volume_ml : ℕ
  pub scale_weight_grams : Tenths

-- `started` is read only while `current` is there, after `begin` has set it
pub record ShotJournal : Type 0 where
  pub records : List Shot
  pub latest_curve : List Point
  pub curve_updated_at : Option Instant
  pub current : Option Shot
  pub points : List Point
  pub started : Instant
  pub last_at : Option Instant
  pub last_timer : Option Tenths
  pub last_volume : Option ℕ

unfoldable pub new : ShotJournal
new = record {
  records = [];
  latest_curve = [];
  curve_updated_at = none;
  current = none;
  points = [];
  started = 0;
  last_at = none;
  last_timer = none;
  last_volume = none;
}

-- one call of `observe`
pub record Sample : Type 0 where
  pub telemetry : Telemetry
  pub state : OperatingState
  pub now : Instant
  pub source : Source
  pub previous_active : Bool
  pub initialized : Bool

-- `state.state in {"profile", "manual", "free_variable"}`
unfoldable pub is_brewing : Mode → Bool
is_brewing profile = true
is_brewing manual = true
is_brewing free_variable = true
is_brewing _ = false

unfoldable pub is_capture : Source → Bool
is_capture capture = true
is_capture poll = false

-- `0 <= gap <= limit`, in microseconds
abbrev pub within : ℕ → Instant → Instant → Bool
within limit before now = leb before now && leb now (before + limit)

-- `gap is not None and 0 <= gap <= 2`
unfoldable pub is_close : Option Instant → Instant → Bool
is_close none now = false
is_close (some before) now = within 2000000 before now

-- `gap is not None and not 0 <= gap <= 2`
unfoldable pub is_far : Option Instant → Instant → Bool
is_far none now = false
is_far (some before) now = not (within 2000000 before now)

-- `self._last_timer is not None and timer >= self._last_timer`
abbrev pub at_least : Option ℕ → ℕ → Bool
at_least none n = false
at_least (some before) n = leb before n

-- `value < previous`, where the previous value is there
abbrev pub fell : Option ℕ → ℕ → Bool
fell none n = false
fell (some before) n = ltb n before

abbrev pub max : ℕ → ℕ → ℕ
max a b = if ltb a b then b else a

first_shot : Sample → Shot
first_shot s = record {
  ended_at = none;
  duration_s = s.telemetry.elapsed_brew_time_seconds;
  peak_bar = 0;
  pumped_ml = s.telemetry.dispensed_volume_ml;
  scale_at_stop_g = none;
  source = s.source;
  coverage = if s.initialized && not s.previous_active then observed_start else partial;
  samples = 0;
}

begin_if : Bool → Option Shot → Sample → ShotJournal → ShotJournal
unfolding first_shot
begin_if true none s j = record j { current = some (first_shot s); started = s.now; points = [] }
begin_if _ _ s j = j

-- `if active and self._current is None:`
unfoldable pub begin : Sample → ShotJournal → ShotJournal
unfolding begin_if is_brewing
begin s j = begin_if (is_brewing (state s.state)) j.current s j

mark_shot : Bool → Source → Shot → Shot
unfolding is_capture
mark_shot far source shot =
    let spaced = if far then record shot { coverage = sparse } else shot in
    if is_capture source then spaced else record spaced { source = poll }

-- the gap and the source of the sample, on the shot in progress
unfoldable pub mark : Sample → ShotJournal → ShotJournal
unfolding mark_shot is_far
mark s j = elim j.current [
  | none ↦ j
  | some shot ↦ record j { current = some (mark_shot (is_far j.last_at s.now) s.source shot) }
]

-- the counters of the machine were reset under an active shot
unfoldable pub was_reset : Sample → ShotJournal → Bool
was_reset s j =
    s.previous_active
    && (fell j.last_timer s.telemetry.elapsed_brew_time_seconds
        || fell j.last_volume s.telemetry.dispensed_volume_ml)

count_sample : Sample → Shot → Shot
count_sample s shot = record shot {
  duration_s = s.telemetry.elapsed_brew_time_seconds;
  peak_bar = max shot.peak_bar s.telemetry.pressure_bar;
  pumped_ml = max shot.pumped_ml s.telemetry.dispensed_volume_ml;
  samples = shot.samples + 1;
}

-- `if current is not None and active:`
unfoldable pub accumulate : Sample → ShotJournal → ShotJournal
unfolding count_sample was_reset is_brewing
accumulate s j = elim j.current [
  | none ↦ j
  | some shot ↦
      if not (is_brewing (state s.state))
      then j
      else if was_reset s j
      then (record j {
        current = some (count_sample s (record shot { peak_bar = 0; pumped_ml = 0; samples = 0 }));
        started = s.now;
        points = [];
      })
      else (record j { current = some (count_sample s shot) })
]

abbrev pub point_of : Sample → ShotJournal → Point
point_of s j = record {
  started = j.started;
  now = s.now;
  pressure_bar = s.telemetry.pressure_bar;
  volume_ml = s.telemetry.dispensed_volume_ml;
  scale_weight_grams = s.telemetry.scale_weight_grams;
}

-- the point of a capture, or the mark that there was no room for it
unfoldable pub plot : Sample → Shot → ShotJournal → ShotJournal
unfolding is_capture
plot s shot j =
    if not (is_capture s.source && is_capture shot.source)
    then j
    else if ltb (length j.points) max_points
    then (record j { points = j.points ++ (point_of s j ∷ []) })
    else (record j { current = some (record shot { coverage = truncated }) })

abbrev pub last_records : List Shot → List Shot
last_records rs = drop (length rs - max_records) rs

abbrev closed_shot : Bool → Sample → Shot → Shot
closed_shot timed s shot = record shot {
  duration_s = if timed then s.telemetry.elapsed_brew_time_seconds else shot.duration_s;
  ended_at = some s.now;
  scale_at_stop_g = some s.telemetry.scale_weight_grams;
}

-- `if not active:`, on the first idle sample of a shot
unfoldable pub close : Sample → Shot → ShotJournal → ShotJournal
unfolding is_close is_capture
close s shot j = record j {
  records = last_records (
      j.records
      ++ (closed_shot
            (is_close j.last_at s.now
              && at_least j.last_timer s.telemetry.elapsed_brew_time_seconds)
            s shot
          ∷ []));
  latest_curve = if is_capture shot.source then j.points else [];
  curve_updated_at = some s.now;
  current = none;
}

close_if : Bool → Option Shot → Sample → ShotJournal → ShotJournal
unfolding close
close_if true current s j = j
close_if false none s j = j
close_if false (some shot) s j = close s shot j

conclude_shot : Option Shot → Sample → ShotJournal → ShotJournal
unfolding plot close_if is_brewing is_idle
conclude_shot none s j = j
conclude_shot (some shot) s j =
    let active = is_brewing (state s.state) in
    let plotted = plot s shot j in
    if active || is_idle (state s.state)
    then close_if active plotted.current s plotted
    else (record j { current = none; points = [] })

-- the sample that ends the shot, goes on with it or discards it
unfoldable pub conclude : Sample → ShotJournal → ShotJournal
unfolding conclude_shot
conclude s j = conclude_shot j.current s j

unfoldable pub remember : Sample → ShotJournal → ShotJournal
remember s j = record j {
  last_at = some s.now;
  last_timer = some s.telemetry.elapsed_brew_time_seconds;
  last_volume = some s.telemetry.dispensed_volume_ml;
}

unfoldable pub observe : Sample → ShotJournal → ShotJournal
unfolding begin mark accumulate conclude remember
observe s j = remember s (conclude s (accumulate s (mark s (begin s j))))

with_first : Shot → Option (List Shot) → Option (List Shot)
with_first r none = none
with_first r (some rs) = some (r ∷ rs)

-- the last record, with a new volume, if it ended at the instant
refine_last : Instant → ℕ → List Shot → Option (List Shot)
unfolding with_first
refine_last at volume [] = none
refine_last at volume (r ∷ []) = elim r.ended_at [
  | none ↦ none
  | some ended ↦
      if leb ended at && leb at ended then some (record r { pumped_ml = volume } ∷ []) else none
]
refine_last at volume (r ∷ r' ∷ rs) = with_first r (refine_last at volume (r' ∷ rs))

-- the tail of the curve: only on a captured curve that is there and has room
extend_curve : Source → Instant → ℕ → Telemetry → ShotJournal → ShotJournal
extend_curve poll now volume t j = j
extend_curve capture now volume t j =
    if ltb 0 (length j.latest_curve) && ltb (length j.latest_curve) max_points
    then (record j {
      latest_curve =
          j.latest_curve
          ++ (record {
            started = j.started;
            now = now;
            pressure_bar = t.pressure_bar;
            volume_ml = volume;
            scale_weight_grams = t.scale_weight_grams;
          }
              ∷ []);
      curve_updated_at = some now;
    })
    else j

refine_with : Option (List Shot) → ℕ → Telemetry → Instant → Source → ShotJournal → ShotJournal
unfolding extend_curve
refine_with none volume t now source j = j
refine_with (some refined) volume t now source j =
    extend_curve source now volume t (record j { records = refined })

unfoldable pub refine_volume :
    Instant → ℕ → Telemetry → Instant → Source → ShotJournal → ShotJournal
unfolding refine_last refine_with
refine_volume ended_at volume t now source j =
    refine_with (refine_last ended_at volume j.records) volume t now source j
