-- ===== src/Execute/Watch/Observed/Samples.antt =====
-- What may be on the list of the samples that the callback of a cleaning was shown.
use wendougee_data_ha.Base.{
  ℕ, suc, ◌+◌, arith, List, [], ◌∷◌, ◌++◌, length, ◌≡◌, refl, ap, Bool, true, false, ◌&&◌, ◌||◌,
  not, leb,
}
use wendougee_data_ha.Base.Bytes.{Bytes}
use wendougee_data_ha.Telemetry.{Telemetry}
use wendougee_data_ha.State
use wendougee_data_ha.State.{Configuration, OperatingState, is_idle, is_cleaning}
use wendougee_data_ha.Link.{Transport}
use wendougee_data_ha.Coordinator.{Seen}
use wendougee_data_ha.Execute.Watch.{CleaningResult, Progress, Watcher, advance}

-- only the callback adds to the list, and it adds the sample it is called with
pub record IsLogged {W : Type 0} (watcher : Watcher W) (tr : Transport W) (seen : W → List Seen)
    : Type 0 where
  pub observe : (s : Seen) (w : W) → seen (watcher.observe s w) ≡ s ∷ seen w
  pub wire : (request : Bytes) (w : W) → seen (tr.wire request w).1 ≡ seen w
  pub rest : (milliseconds : ℕ) (w : W) → seen (tr.rest milliseconds w).1 ≡ seen w

-- the conditions of the loop on a sample
pub record IsSample (before : Configuration) (s : Seen) : Type 0 where
  pub active :
      ((is_cleaning (State.state s.state) || is_idle (State.state s.state))
        && not s.telemetry.water_level_alarm)
      ≡ true
  pub configuration : s.configuration ≡ before

pub data Samples (before : Configuration) : List Seen → Type 0 where
  none_yet : Samples before []
  one_more :
      (s : Seen) {ss : List Seen} → IsSample before s → Samples before ss → Samples before (s ∷ ss)

-- the latest `n` samples are idle
pub data Latest : ℕ → List Seen → Type 0 where
  unknown : (ss : List Seen) → Latest 0 ss
  idle_too :
      (m n : ℕ) (s : Seen) {ss : List Seen}
      → m ≡ n + 1
      → is_idle (State.state s.state) ≡ true
      → Latest n ss
      → Latest m (s ∷ ss)

-- the two latest samples are idle
pub data IsIdleTwice : List Seen → Type 0 where
  idle_twice :
      (last previous : Seen) (ss : List Seen)
      → is_idle (State.state last.state) ≡ true
      → is_idle (State.state previous.state) ≡ true
      → IsIdleTwice (last ∷ previous ∷ ss)

pub Latest-IsIdleTwice : (m : ℕ) (ss : List Seen) → Latest m ss → leb 2 m ≡ true → IsIdleTwice ss
Latest-IsIdleTwice _ ss (unknown _) h = absurd (ground (arith, h))
Latest-IsIdleTwice m _ (idle_too _ _ s e i (unknown ss)) h = absurd (ground (arith, e, h))
Latest-IsIdleTwice m _ (idle_too _ _ s e i (idle_too _ _ s' {ss} e' i' l)) h =
    idle_twice s s' ss i i'

-- what the list has after the passes of the loop so far
pub record Logged (before : Configuration) (start : List Seen) (p : Progress) (log : List Seen)
    : Type 0 where
  pub samples : List Seen
  pub shown : log ≡ samples ++ start
  pub each : Samples before samples
  pub count : p.sample_count ≡ suc (length samples)
  pub latest : Latest p.idle_samples samples

-- The callback was shown a first sample and then those of the loop. Each of these is of a machine
-- that cleans or is idle and has water, the two latest are idle, and the result counts all of them.
pub record IsShown (before : Configuration) (log log' : List Seen) (r : CleaningResult)
    : Type 0 where
  pub first : Seen
  pub samples : List Seen
  pub shown : log' ≡ samples ++ (first ∷ log)
  pub each : Samples before samples
  pub count : r.sample_count ≡ suc (length samples)
  pub idle_at_last : IsIdleTwice samples

advance-Latest :
    (t : Telemetry) (s : Seen) (idle : Bool) (p : Progress) (ss : List Seen)
    → is_idle (State.state s.state) ≡ idle
    → Latest p.idle_samples ss
    → Latest (advance t idle p).idle_samples (s ∷ ss)
unfolding advance
advance-Latest t s true p ss i l = idle_too _ _ s refl i l
advance-Latest t s false p ss i l = unknown (s ∷ ss)

pub advance-Logged :
    (before : Configuration) (start : List Seen) (s : Seen) (p : Progress) (log : List Seen)
    → IsSample before s
    → Logged before start p log
    → Logged before start (advance s.telemetry (is_idle (State.state s.state)) p) (s ∷ log)
unfolding advance
advance-Logged before start s p log i k = record {
  samples = s ∷ k.samples;
  shown = ap (λ ss. s ∷ ss) k.shown;
  each = one_more s i k.each;
  count = omega (arith, k.count);
  latest = advance-Latest s.telemetry s (is_idle (State.state s.state)) p k.samples refl k.latest;
}
