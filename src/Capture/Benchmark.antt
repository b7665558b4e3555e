-- ===== src/Capture/Benchmark.antt =====
-- The benchmark of src/custom_components/wendougee_data/fast_capture.py: its stages and its sweep.
pub mod Selection
use wendougee_data_ha.Base.{
  ℕ, suc, ◌+◌, ◌*◌, List, [], ◌∷◌, ◌++◌, Bool, true, false, ◌&&◌, not, Option, none, some, Error,
  Result, ok, err, cancelled_error, zero_division_error, ltb, leb, length, if◌then◌else◌,
}
use wendougee_data_ha.Capture.{
  Paced, Rate, RuntimeSample, RuntimeTrace, second, capture_runtime_trace,
}

abbrev benchmark_stage_seconds : ℕ
benchmark_stage_seconds = 3

abbrev pub benchmark_rates_hz : List ℕ
benchmark_rates_hz = 1 ∷ 2 ∷ 5 ∷ 10 ∷ []

-- passes enough for the seconds of a stage
abbrev stage_fuel : ℕ → ℕ
stage_fuel target_hz = benchmark_stage_seconds * target_hz + 1

pub data FailureKind : Type 0 where
  transport_or_protocol_failure insufficient_cadence : FailureKind

pub record SamplingStage : Type 0 where
  pub target_hz : ℕ
  pub sample_count : ℕ
  pub elapsed : ℕ
  pub achieved : Rate
  -- the sum of the round trips and their number
  pub mean_round_trip : Option (ℕ × ℕ)
  pub max_round_trip : Option ℕ
  pub successful : Bool
  pub failure_kind : Option FailureKind

pub record SamplingBenchmark : Type 0 where
  pub selected_hz : Option ℕ
  pub stages : List SamplingStage

-- `achieved_hz >= target_hz * 0.85`
reaches : Rate → ℕ → Bool
reaches rate target_hz =
    ltb 0 rate.span && leb (85 * target_hz * rate.span) (100 * (rate.count * second))

sum_of : List RuntimeSample → ℕ
sum_of [] = 0
sum_of (s ∷ ss) = s.round_trip + sum_of ss

max_of : ℕ → List RuntimeSample → ℕ
max_of m [] = m
max_of m (s ∷ ss) = max_of (if ltb m s.round_trip then s.round_trip else m) ss

failed_stage : ℕ → SamplingStage
failed_stage target_hz = record {
  target_hz = target_hz;
  sample_count = 0;
  elapsed = 0;
  achieved = record { count = 0; span = 0 };
  mean_round_trip = none;
  max_round_trip = none;
  successful = false;
  failure_kind = some transport_or_protocol_failure;
}

-- the stage of a trace: the mean of no samples is a division by zero
stage_of : ℕ → RuntimeTrace → List RuntimeSample → Result SamplingStage
unfolding reaches sum_of max_of
stage_of target_hz trace [] = err zero_division_error
stage_of target_hz trace (s ∷ ss) =
    let successful = reaches trace.achieved target_hz in
    ok (record {
      target_hz = target_hz;
      sample_count = suc (length ss);
      elapsed = trace.elapsed;
      achieved = trace.achieved;
      mean_round_trip = some (s.round_trip + sum_of ss, suc (length ss));
      max_round_trip = some (max_of s.round_trip ss);
      successful = successful;
      failure_kind = if successful then none else some insufficient_cadence;
    })

-- `except Exception`, which a cancellation passes
caught : ℕ → Error → Result SamplingStage
unfolding failed_stage
caught target_hz cancelled_error = err cancelled_error
caught target_hz _ = ok (failed_stage target_hz)

module _ {W : Type 0} where
  staged : ℕ → Option (Result RuntimeTrace × W) → Option (Result SamplingStage × W)
  unfolding caught stage_of
  staged target_hz none = none
  staged target_hz (some (err e, w)) = some (caught target_hz e, w)
  staged target_hz (some (ok trace, w)) = some (stage_of target_hz trace trace.samples, w)

  -- what a stage decides: the end of the sweep, or its next rate
  judged :
      Option ℕ
      → List SamplingStage
      → (List SamplingStage → W → Option (Result SamplingBenchmark × W))
      → Option (Result SamplingStage × W)
      → Option (Result SamplingBenchmark × W)
  judged selected stages next none = none
  judged selected stages next (some (err e, w)) = some (err e, w)
  judged selected stages next (some (ok stage, w)) =
      if not stage.successful
      then some (ok (record { selected_hz = selected; stages = stages ++ (stage ∷ []) }), w)
      else next (stages ++ (stage ∷ [])) w

module _ {W : Type 0} (loop : Paced W) where
  -- `_run_sampling_stage`
  unfoldable pub run_sampling_stage : ℕ → W → Option (Result SamplingStage × W)
  unfolding staged capture_runtime_trace
  run_sampling_stage target_hz w =
      staged target_hz
        (capture_runtime_trace loop (stage_fuel target_hz) benchmark_stage_seconds target_hz none w)

  -- the `for` loop of `benchmark_runtime_sampling`
  unfoldable pub sweep :
      List ℕ → Option ℕ → List SamplingStage → W → Option (Result SamplingBenchmark × W)
  unfolding judged run_sampling_stage
  sweep [] selected stages w = some (ok (record { selected_hz = selected; stages = stages }), w)
  sweep (target_hz ∷ rates) selected stages w =
      judged selected stages (λ stages' w'. sweep rates (some target_hz) stages' w')
        (run_sampling_stage target_hz w)

  -- `benchmark_runtime_sampling`
  unfoldable pub benchmark_runtime_sampling : W → Option (Result SamplingBenchmark × W)
  unfolding sweep
  benchmark_runtime_sampling w = sweep benchmark_rates_hz none [] w
