-- ===== src/Journal/Refinement.antt =====
-- What `ShotJournal.refine_volume` changes: the volume of the last shot and the tail of its curve.
use wendougee_data_ha.Base.{ℕ, List, [], ◌∷◌, ◌++◌, true, ◌&&◌, Option, none, some, ◌≡◌, ◌⊎◌, leb}
use wendougee_data_ha.Telemetry.{Telemetry}
use wendougee_data_ha.Journal.{ShotJournal, Shot, Point, Instant}

-- the last shot, which ended at the instant, has a new volume; the shots before it are the same
pub data Corrected (at : Instant) (volume : ℕ) : List Shot → List Shot → Type 0 where
  last :
      (r : Shot) (ended : Instant)
      → r.ended_at ≡ some ended
      → (leb ended at && leb at ended) ≡ true
      → Corrected at volume (r ∷ []) ((record r { pumped_ml = volume }) ∷ [])
  later :
      (r : Shot) {rs rs' : List Shot}
      → Corrected at volume rs rs'
      → Corrected at volume (r ∷ rs) (r ∷ rs')

-- a curve and the same curve, with one more point or not
pub data Extended : List Point → List Point → Type 0 where
  same : (xs : List Point) → Extended xs xs
  one_more : (xs : List Point) (x : Point) → Extended xs (xs ++ (x ∷ []))

pub record IsRefined (at : Instant) (volume : ℕ) (j j' : ShotJournal) : Type 0 where
  pub records : (j'.records ≡ j.records) ⊎ Corrected at volume j.records j'.records
  pub latest_curve : Extended j.latest_curve j'.latest_curve
  pub current : j'.current ≡ j.current
  pub points : j'.points ≡ j.points

data Outcome (at : Instant) (volume : ℕ) (rs : List Shot) : Option (List Shot) → Type 0 where
  missed : Outcome at volume rs none
  hit : (rs' : List Shot) → Corrected at volume rs rs' → Outcome at volume rs (some rs')

module _ (at volume : ℕ) (j : ShotJournal) (rs : List Shot) where
  abbrev with_records : ShotJournal
  with_records = record j { records = rs }
