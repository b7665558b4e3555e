-- ===== src/Journal/Bounds.antt =====
-- The bounds of the shot journal: at most `_MAX_RECORDS` shots and `_MAX_POINTS` points.
use wendougee_data_ha.Base.{
  ◌-◌, ◌≤◌, List, [], ◌∷◌, ◌++◌, Bool, true, false, ◌&&◌, Option, none, some, arith, length,
  length-append, length-drop,
}
use wendougee_data_ha.State.{state}
use wendougee_data_ha.Journal.{
  ShotJournal, Shot, Sample, max_records, max_points, new, begin, begin_if, mark, accumulate, plot,
  point_of, last_records, closed_shot, is_close, at_least, is_brewing, conclude_shot, close,
  close_if, conclude, remember, observe,
}

pub record IsBounded (j : ShotJournal) : Type 0 where
  pub records : length j.records ≤ max_records
  pub latest_curve : length j.latest_curve ≤ max_points
  pub points : length j.points ≤ max_points

pub new-IsBounded : IsBounded new
unfolding new
new-IsBounded = ground arith

begin-IsBounded : (s : Sample) (j : ShotJournal) → IsBounded j → IsBounded (begin s j)
unfolding begin begin_if
begin-IsBounded s j k = ground arith

mark-IsBounded : (s : Sample) (j : ShotJournal) → IsBounded j → IsBounded (mark s j)
unfolding mark
mark-IsBounded s j k = ground arith

accumulate-IsBounded : (s : Sample) (j : ShotJournal) → IsBounded j → IsBounded (accumulate s j)
unfolding accumulate
accumulate-IsBounded s j k = ground arith

plot-IsBounded :
    (s : Sample) (shot : Shot) (j : ShotJournal) → IsBounded j → IsBounded (plot s shot j)
unfolding plot
plot-IsBounded s shot j k = ground (arith, length-append j.points (point_of s j ∷ []))

length-last_records : (rs : List Shot) → length (last_records rs) ≤ max_records
length-last_records rs = omega (arith, length-drop (length rs - max_records) rs)

close-IsBounded :
    (s : Sample) (shot : Shot) (j : ShotJournal) → IsBounded j → IsBounded (close s shot j)
unfolding close
close-IsBounded s shot j k = record {
  records = length-last_records (
      j.records
      ++ (closed_shot
            (is_close j.last_at s.now
              && at_least j.last_timer s.telemetry.elapsed_brew_time_seconds)
            s shot
          ∷ []));
  latest_curve = ground arith;
  points = k.points;
}

close_if-IsBounded :
    (active : Bool) (current : Option Shot) (s : Sample) (j : ShotJournal)
    → IsBounded j
    → IsBounded (close_if active current s j)
unfolding close_if
close_if-IsBounded true current s j k = k
close_if-IsBounded false none s j k = k
close_if-IsBounded false (some shot) s j k = close-IsBounded s shot j k

conclude_shot-IsBounded :
    (current : Option Shot) (s : Sample) (j : ShotJournal)
    → IsBounded j
    → IsBounded (conclude_shot current s j)
unfolding conclude_shot
conclude_shot-IsBounded none s j k = k
conclude_shot-IsBounded (some shot) s j k =
    let p = plot-IsBounded s shot j k in
    let c =
      close_if-IsBounded (is_brewing (state s.state)) (plot s shot j).current s (plot s shot j) p in
    ground (arith, p, c, k)

conclude-IsBounded : (s : Sample) (j : ShotJournal) → IsBounded j → IsBounded (conclude s j)
unfolding conclude
conclude-IsBounded s j k = conclude_shot-IsBounded j.current s j k

-- Whatever is observed, the journal keeps at most 30 shots, and at most 600 points in the curve
-- of the shot in progress and in the latest curve.
pub observe-IsBounded : (s : Sample) (j : ShotJournal) → IsBounded j → IsBounded (observe s j)
unfolding observe remember
observe-IsBounded s j k =
    let b = begin-IsBounded s j k in
    let m = mark-IsBounded s _ b in
    let a = accumulate-IsBounded s _ m in
    let c = conclude-IsBounded s _ a in
    record { records = c.records; latest_curve = c.latest_curve; points = c.points }
