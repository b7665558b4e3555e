-- ===== src/Capture/Benchmark/Selection.antt =====
-- The rate that a benchmark selects.
use wendougee_data_ha.Base.{
  ℕ, ◌*◌, ◌<◌, ◌≤◌, arith, ◌≡◌, refl, List, [], ◌∷◌, ◌++◌, true, false, Option, none, some, Error,
  Result, ok, err, cancelled_error, Bool-cases, length, All, inl, inr,
}
use wendougee_data_ha.Link.{Interrupt, send_failed, refused, deadline, cancel}
use wendougee_data_ha.Lifecycle.{primary}
use wendougee_data_ha.Journal.{Instant}
use wendougee_data_ha.Capture.{
  Paced, RuntimeSample, RuntimeTrace, period, second, Looped, trace_of, mapped, closed, in_session,
  admitted, validate_capture, validate_limit, capture_runtime_trace,
}
use wendougee_data_ha.Capture.Bounds.{Finished, finished, broken, Wakes, capture_loop-Finished}
use wendougee_data_ha.Capture.Benchmark.{
  benchmark_stage_seconds, benchmark_rates_hz, stage_fuel, SamplingStage, SamplingBenchmark,
  stage_of, failed_stage, caught, staged, judged, run_sampling_stage, sweep,
  benchmark_runtime_sampling,
}

-- a rate that divides a second, within the bounds of a capture
record IsRate (target_hz : ℕ) : Type 0 where
  divides : second ≤ target_hz * period target_hz
  valid : validate_capture benchmark_stage_seconds target_hz ≡ ok tt

module _ {W : Type 0} (loop : Paced W) where
  -- a trace with a sample, or an error
  data Traced : Option (Result RuntimeTrace × W) → Type 0 where
    traced : (trace : RuntimeTrace) (w : W) → 0 < length trace.samples → Traced (some (ok trace, w))
    failed : (e : Error) (w : W) → Traced (some (err e, w))

  primary-Traced :
      (trace : RuntimeTrace) (raised : Option Interrupt) (w : W)
      → 0 < length trace.samples
      → Traced (some (primary (ok trace) raised, w))
  unfolding primary
  primary-Traced trace none w h = traced trace w h
  primary-Traced trace (some cancel) w h = failed _ w
  primary-Traced trace (some (send_failed text)) w h = failed _ w
  primary-Traced trace (some (refused text)) w h = failed _ w
  primary-Traced trace (some deadline) w h = failed _ w

  primary_failed :
      (e : Error) (raised : Option Interrupt) (w : W) → Traced (some (primary (err e) raised, w))
  unfolding primary
  primary_failed e none w = failed e w
  primary_failed e (some cancel) w = failed _ w
  primary_failed e (some (send_failed text)) w = failed e w
  primary_failed e (some (refused text)) w = failed e w
  primary_failed e (some deadline) w = failed e w

  closed-Traced :
      (started : ℕ) (started_at : Instant) (duration target_hz : ℕ) (x : Looped loop)
      → Finished loop duration target_hz none x
      → Traced (closed loop started started_at target_hz x)
  unfolding closed mapped trace_of
  closed-Traced started started_at duration target_hz _ (finished samples w d b l s) =
      primary-Traced (trace_of loop started started_at target_hz w samples) (loop.close_session w).0
        (loop.close_session w).1 s
  closed-Traced started started_at duration target_hz _ (broken e w) =
      primary_failed e (loop.close_session w).0 (loop.close_session w).1

  session-Traced :
      Wakes loop
      → (target_hz : ℕ) (x : Result (Unit {0}) × W) → IsRate target_hz
      → Traced (in_session loop (stage_fuel target_hz) benchmark_stage_seconds target_hz none x)
  unfolding in_session
  session-Traced wakes target_hz (err e, w) rate = failed e w
  session-Traced wakes target_hz (ok _, w) rate =
      closed-Traced (loop.time w) (loop.utcnow w) (benchmark_stage_seconds * second) target_hz _ (
        capture_loop-Finished loop (benchmark_stage_seconds * second) target_hz none wakes
          (omega arith) (loop.time w) (stage_fuel target_hz) w (omega (arith, rate.divides)))

  capture-Traced :
      Wakes loop
      → (target_hz : ℕ) (w : W) → IsRate target_hz
      → Traced (
          capture_runtime_trace loop
            (stage_fuel target_hz)
            benchmark_stage_seconds
            target_hz
            none
            w)
  unfolding capture_runtime_trace admitted validate_limit
  capture-Traced wakes target_hz w rate =
      rw (rate.valid) (session-Traced wakes target_hz (loop.open_session w) rate)

  -- a stage at a rate, or a cancellation
  data Staged (target_hz : ℕ) : Option (Result SamplingStage × W) → Type 0 where
    at_rate :
        (stage : SamplingStage) (w : W)
        → stage.target_hz ≡ target_hz
        → Staged target_hz (some (ok stage, w))
    cancelled : (w : W) → Staged target_hz (some (err cancelled_error, w))

  caught-Staged :
      (target_hz : ℕ) (e : Error) (w : W) → Staged target_hz (some (caught target_hz e, w))
  unfolding caught failed_stage
  caught-Staged target_hz cancelled_error w = cancelled w
  caught-Staged target_hz _ w = at_rate _ w refl

  stage-Staged :
      (target_hz : ℕ) (trace : RuntimeTrace) (samples : List RuntimeSample) (w : W)
      → 0 < length samples
      → Staged target_hz (some (stage_of target_hz trace samples, w))
  unfolding stage_of
  stage-Staged target_hz trace [] w h = absurd (omega (arith, h))
  stage-Staged target_hz trace (s ∷ ss) w h = at_rate _ w refl

  staged-Staged :
      (target_hz : ℕ) (x : Option (Result RuntimeTrace × W))
      → Traced x
      → Staged target_hz (staged target_hz x)
  unfolding staged
  staged-Staged target_hz _ (traced trace w h) = stage-Staged target_hz trace trace.samples w h
  staged-Staged target_hz _ (failed e w) = caught-Staged target_hz e w

  -- a stage ends, without a division by zero
  run-Staged :
      Wakes loop
      → (target_hz : ℕ) (w : W) → IsRate target_hz
      → Staged target_hz (run_sampling_stage loop target_hz w)
  unfolding run_sampling_stage
  run-Staged wakes target_hz w rate =
      staged-Staged target_hz _ (capture-Traced wakes target_hz w rate)

-- a successful stage at a rate
pub data Demonstrated (target_hz : ℕ) : List SamplingStage → Type 0 where
  here :
      (stage : SamplingStage) (stages : List SamplingStage)
      → stage.target_hz ≡ target_hz
      → stage.successful ≡ true
      → Demonstrated target_hz (stage ∷ stages)
  there :
      (stage : SamplingStage) (stages : List SamplingStage)
      → Demonstrated target_hz stages
      → Demonstrated target_hz (stage ∷ stages)

-- nothing above the selected rate
abbrev pub AtMost : ℕ → Option ℕ → Type 0
AtMost target_hz none = target_hz ≡ 0
AtMost target_hz (some selected) = target_hz ≤ selected

abbrev pub IsDemonstrated : Option ℕ → List SamplingStage → Type 0
IsDemonstrated none stages = Unit
IsDemonstrated (some selected) stages = Demonstrated selected stages

-- the selected rate was reached, and no higher one was
pub record IsFastest (selected : Option ℕ) (stages : List SamplingStage) : Type 0 where
  pub reached : IsDemonstrated selected stages
  pub highest : All (λ stage. stage.successful ≡ true → AtMost stage.target_hz selected) stages

abbrev IsAbove : Option ℕ → ℕ → Type 0
IsAbove none hz = Unit
IsAbove (some selected) hz = selected ≤ hz

abbrev IsSweep : Option ℕ → List ℕ → Type 0
IsSweep selected [] = Unit
IsSweep selected (hz ∷ rates) = (IsAbove selected hz × IsRate hz) × IsSweep (some hz) rates

-- all rates of the source
benchmark_rates_hz-IsSweep : IsSweep none benchmark_rates_hz
unfolding validate_capture
benchmark_rates_hz-IsSweep = (
  (tt, record { divides = omega arith; valid = refl }),
  (
    (omega arith, record { divides = omega arith; valid = refl }),
    (
      (omega arith, record { divides = omega arith; valid = refl }),
      ((omega arith, record { divides = omega arith; valid = refl }), tt),
    ),
  ),
)

last-Demonstrated :
    (hz : ℕ) (stages : List SamplingStage) (stage : SamplingStage)
    → stage.target_hz ≡ hz
    → stage.successful ≡ true
    → Demonstrated hz (stages ++ (stage ∷ []))
last-Demonstrated hz [] stage e h = here stage [] e h
last-Demonstrated hz (s ∷ ss) stage e h = there s _ (last-Demonstrated hz ss stage e h)

append-Demonstrated :
    (hz : ℕ) (stages : List SamplingStage) (stage : SamplingStage)
    → Demonstrated hz stages
    → Demonstrated hz (stages ++ (stage ∷ []))
append-Demonstrated hz _ stage (here s ss e h) = here s _ e h
append-Demonstrated hz _ stage (there s ss d) = there s _ (append-Demonstrated hz ss stage d)

append-IsDemonstrated :
    (selected : Option ℕ) (stages : List SamplingStage) (stage : SamplingStage)
    → IsDemonstrated selected stages
    → IsDemonstrated selected (stages ++ (stage ∷ []))
append-IsDemonstrated none stages stage d = tt
append-IsDemonstrated (some hz) stages stage d = append-Demonstrated hz stages stage d

raise-AtMost : (selected : Option ℕ) (hz t : ℕ) → IsAbove selected hz → AtMost t selected → t ≤ hz
raise-AtMost none hz t a m = omega (arith, m)
raise-AtMost (some selected) hz t a m = omega (arith, a, m)

-- a failed stage leaves the selection
failed-highest :
    (selected : Option ℕ) (stages : List SamplingStage) (stage : SamplingStage)
    → stage.successful ≡ false
    → All (λ s. s.successful ≡ true → AtMost s.target_hz selected) stages
    → All (λ s. s.successful ≡ true → AtMost s.target_hz selected) (stages ++ (stage ∷ []))
failed-highest selected [] stage f h = ((λ e. absurd (cc)), tt)
failed-highest selected (s ∷ ss) stage f (m, h) = (m, failed-highest selected ss stage f h)

-- a clean stage becomes the selection
clean-highest :
    (selected : Option ℕ) (hz : ℕ) (stages : List SamplingStage) (stage : SamplingStage)
    → IsAbove selected hz
    → stage.target_hz ≡ hz
    → All (λ s. s.successful ≡ true → AtMost s.target_hz selected) stages
    → All (λ s. s.successful ≡ true → s.target_hz ≤ hz) (stages ++ (stage ∷ []))
clean-highest selected hz [] stage a e h = ((λ _. omega (arith, e)), tt)
clean-highest selected hz (s ∷ ss) stage a e (m, h) =
    ((λ k. raise-AtMost selected hz s.target_hz a (m k)), clean-highest selected hz ss stage a e h)

module _ {W : Type 0} (loop : Paced W) where
  -- a benchmark that ends, or is cancelled
  pub data Swept : Option (Result SamplingBenchmark × W) → Type 0 where
    swept :
        (b : SamplingBenchmark) (w : W) → IsFastest b.selected_hz b.stages → Swept (some (ok b, w))
    interrupted : (w : W) → Swept (some (err cancelled_error, w))

  judged-Swept :
      (selected : Option ℕ) (hz : ℕ) (stages : List SamplingStage)
      (next : List SamplingStage → W → Option (Result SamplingBenchmark × W))
      (x : Option (Result SamplingStage × W))
      → Staged loop hz x
      → IsAbove selected hz
      → IsFastest selected stages
      → ((stages' : List SamplingStage) (w' : W)
          → IsFastest (some hz) stages'
          → Swept (next stages' w'))
      → Swept (judged selected stages next x)
  unfolding judged
  judged-Swept selected hz stages next _ (cancelled w) a f h = interrupted w
  judged-Swept selected hz stages next _ (at_rate stage w e) a f h =
      elim (Bool-cases stage.successful) [
        | inr k ↦ simp (k) (
            swept _ w (record {
              reached = append-IsDemonstrated selected stages stage f.reached;
              highest = failed-highest selected stages stage k f.highest;
            }))
        | inl k ↦ simp (k) (
            h (stages ++ (stage ∷ [])) w (record {
              reached = last-Demonstrated hz stages stage e k;
              highest = clean-highest selected hz stages stage a e f.highest;
            }))
      ]

  sweep-Swept :
      Wakes loop
      → (rates : List ℕ) (selected : Option ℕ) (stages : List SamplingStage) (w : W)
      → IsSweep selected rates
      → IsFastest selected stages
      → Swept (sweep loop rates selected stages w)
  unfolding sweep
  sweep-Swept wakes [] selected stages w s f = swept _ w f
  sweep-Swept wakes (hz ∷ rates) selected stages w ((a, rate), s) f =
      judged-Swept selected hz stages _ _ (run-Staged loop wakes hz w rate) a f
        (λ stages' w' f'. sweep-Swept wakes rates (some hz) stages' w' s f')

  -- Where a pause takes at least its time, the benchmark ends: it is cancelled, or it selects the
  -- highest rate of its successful stages, if there is one.
  pub benchmark_runtime_sampling-IsFastest :
      Wakes loop → (w : W) → Swept (benchmark_runtime_sampling loop w)
  unfolding benchmark_runtime_sampling
  benchmark_runtime_sampling-IsFastest wakes w =
      sweep-Swept wakes benchmark_rates_hz none [] w benchmark_rates_hz-IsSweep
        (record { reached = tt; highest = tt })
