-- ===== src/Schedules/Runs/Once.antt =====
-- Each edge runs at most once a day: the executed edges against the dates of the attempts that
-- memory and store hold.
pub mod Steps
use wendougee_data_ha.Base.{
  ℕ, ◌≤◌, ◌==◌, ◌≡◌, ◌≢◌, refl, sym, ap, ◌∙◌, arith, List, [], ◌∷◌, Bool, true, false, Option, none,
  some, leb, All, ◌⊎◌, inl, inr,
}
use mathlib.Core.Path.{subst}
use native.Mathlib.Nat.{le_refl}
use wendougee_data_ha.Schedules.{
  Boiler, brew, steam, Day, Attempts, no_attempts, attempt_at, put_attempt, Saved, Attempt,
}
use wendougee_data_ha.Schedules.Runs.{attempted}

-- a date of an attempt that is not before the day
abbrev IsCovered : Option Day → Day → Type 0
IsCovered none day = ⊥
IsCovered (some d) day = day ≤ d

abbrev IsRecent : Option Day → Day → Type 0
IsRecent none day = Unit {0}
IsRecent (some d) day = d ≤ day

abbrev Covers : Attempts → Attempt → Type 0
Covers dates x = IsCovered (attempt_at dates x.boiler x.enabled) x.day

abbrev AtMost : Attempts → Day → Type 0
AtMost dates day =
    IsRecent dates.brew_on day
    × IsRecent dates.brew_off day
    × IsRecent dates.steam_on day
    × IsRecent dates.steam_off day

-- no attempt stands in the list twice
abbrev pub Distinct : List Attempt → Type 0
Distinct [] = Unit
Distinct (x ∷ xs) = All (λ y. x ≢ y) xs × Distinct xs

-- the dates in memory and on disk, the executed edges and the date
pub record Ledger (memory disk : Attempts) (xs : List Attempt) (day : Day) : Type 0 where
  pub in_memory : All (Covers memory) xs
  pub on_disk : All (Covers disk) xs
  pub recent : AtMost memory day
  pub stored : AtMost disk day
  pub distinct : Distinct xs

All-map :
    {F G : Attempt → Type 0} (xs : List Attempt) → ((x : Attempt) → F x → G x) → All F xs → All G xs
All-map [] f h = tt
All-map (x ∷ xs) f h = (f x h.0, All-map xs f h.1)

IsRecent-le : (o : Option Day) (d d' : Day) → d ≤ d' → IsRecent o d → IsRecent o d'
IsRecent-le none d d' h k = tt
IsRecent-le (some x) d d' h k = omega arith

AtMost-le : (dates : Attempts) (d d' : Day) → d ≤ d' → AtMost dates d → AtMost dates d'
AtMost-le dates d d' h k = (
  IsRecent-le dates.brew_on d d' h k.0,
  IsRecent-le dates.brew_off d d' h k.1,
  IsRecent-le dates.steam_on d d' h k.2,
  IsRecent-le dates.steam_off d d' h k.3,
)

IsCovered-day : (o : Option Day) (x day : Day) → IsRecent o day → IsCovered o x → x ≤ day
IsCovered-day none x day h k = absurd k
IsCovered-day (some d) x day h k = omega arith

attempt_at-IsRecent :
    (dates : Attempts) (boiler : Boiler) (enabled : Bool) (day : Day)
    → AtMost dates day
    → IsRecent (attempt_at dates boiler enabled) day
attempt_at-IsRecent dates brew true day k = k.0
attempt_at-IsRecent dates brew false day k = k.1
attempt_at-IsRecent dates steam true day k = k.2
attempt_at-IsRecent dates steam false day k = k.3

-- a date put in for an edge covers what the date before it covers
put_attempt-Covers :
    (dates : Attempts) (boiler : Boiler) (enabled : Bool) (day : Day) (x : Attempt)
    → AtMost dates day
    → Covers dates x
    → Covers (put_attempt boiler enabled day dates) x
put_attempt-Covers dates boiler enabled day x k c =
    go boiler enabled x.boiler x.enabled x.day c
      (IsCovered-day _ x.day day (attempt_at-IsRecent dates x.boiler x.enabled day k) c)
  where
    go :
        (b : Boiler) (e : Bool) (b' : Boiler) (e' : Bool) (d : Day)
        → IsCovered (attempt_at dates b' e') d
        → d ≤ day
        → IsCovered (attempt_at (put_attempt b e day dates) b' e') d
    go brew true brew true d h i = i
    go brew true brew false d h i = h
    go brew true steam true d h i = h
    go brew true steam false d h i = h
    go brew false brew true d h i = h
    go brew false brew false d h i = i
    go brew false steam true d h i = h
    go brew false steam false d h i = h
    go steam true brew true d h i = h
    go steam true brew false d h i = h
    go steam true steam true d h i = i
    go steam true steam false d h i = h
    go steam false brew true d h i = h
    go steam false brew false d h i = h
    go steam false steam true d h i = h
    go steam false steam false d h i = i

put_attempt-AtMost :
    (dates : Attempts) (boiler : Boiler) (enabled : Bool) (day : Day)
    → AtMost dates day
    → AtMost (put_attempt boiler enabled day dates) day
put_attempt-AtMost dates brew true day k = (le_refl day, k.1, k.2, k.3)
put_attempt-AtMost dates brew false day k = (k.0, le_refl day, k.2, k.3)
put_attempt-AtMost dates steam true day k = (k.0, k.1, le_refl day, k.3)
put_attempt-AtMost dates steam false day k = (k.0, k.1, k.2, le_refl day)

attempt_at-put :
    (dates : Attempts) (boiler : Boiler) (enabled : Bool) (day : Day)
    → attempt_at (put_attempt boiler enabled day dates) boiler enabled ≡ some day
attempt_at-put dates brew true day = refl
attempt_at-put dates brew false day = refl
attempt_at-put dates steam true day = refl
attempt_at-put dates steam false day = refl

fresh_day :
    (o : Option Day) (day : Day) → IsRecent o day → attempted o day ≡ false → IsCovered o day → ⊥
unfolding attempted
fresh_day none day k n c = c
fresh_day (some d) day k n c = ground arith

module _ (memory disk : Attempts) (xs : List Attempt) (day : Day)
    (l : Ledger memory disk xs day) where
  pub later-Ledger : (day' : Day) → day ≤ day' → Ledger memory disk xs day'
  later-Ledger day' h = record {
    in_memory = l.in_memory;
    on_disk = l.on_disk;
    recent = AtMost-le memory day day' h l.recent;
    stored = AtMost-le disk day day' h l.stored;
    distinct = l.distinct;
  }

  pub saved-Ledger : Ledger memory memory xs day
  saved-Ledger = record {
    in_memory = l.in_memory;
    on_disk = l.in_memory;
    recent = l.recent;
    stored = l.recent;
    distinct = l.distinct;
  }

  pub loaded-Ledger : Ledger disk disk xs day
  loaded-Ledger = record {
    in_memory = l.on_disk;
    on_disk = l.on_disk;
    recent = l.stored;
    stored = l.stored;
    distinct = l.distinct;
  }

  module _ (boiler : Boiler) (enabled : Bool) where
    pub marked-Ledger : Ledger (put_attempt boiler enabled day memory) disk xs day
    marked-Ledger = record {
      in_memory =
          All-map xs (λ x. put_attempt-Covers memory boiler enabled day x l.recent) l.in_memory;
      on_disk = l.on_disk;
      recent = put_attempt-AtMost memory boiler enabled day l.recent;
      stored = l.stored;
      distinct = l.distinct;
    }

    -- an edge that was not attempted on the day, executed after its mark is on disk
    pub executed-Ledger :
        attempted (attempt_at memory boiler enabled) day ≡ false
        → let dates = put_attempt boiler enabled day memory in
          Ledger dates dates ((record { boiler = boiler; enabled = enabled; day = day }) ∷ xs) day
    executed-Ledger n =
        let dates = put_attempt boiler enabled day memory in
        let new : Attempt = record { boiler = boiler; enabled = enabled; day = day } in
        let here : Covers dates new =
          subst (λ o. IsCovered o day) (sym (attempt_at-put memory boiler enabled day))
            (le_refl day) in
        let m = marked-Ledger in
        let differ : All (λ y. new ≢ y) xs =
          All-map xs
            (λ y c e.
              fresh_day (attempt_at memory boiler enabled) day
                (attempt_at-IsRecent memory boiler enabled day l.recent) n
                (subst (Covers memory) (sym e) c))
            l.in_memory in
        record {
          in_memory = (here, m.in_memory);
          on_disk = (here, m.in_memory);
          recent = m.recent;
          stored = m.recent;
          distinct = (differ, l.distinct);
        }
