-- ===== src/Coordinator/Sampling.antt =====
-- `async_benchmark_sampling` and `async_capture_runtime_trace` of
-- src/custom_components/wendougee_data/coordinator.py. What other tasks do during the wait for the
-- connection lock is a parameter; a cancellation by `asyncio.timeout` is a timeout error.
use wendougee_data_ha.Base.{
  ℕ, ◌+◌, ◌*◌, List, [], ◌∷◌, Bool, true, false, Option, none, some, Error, Result, ok, err,
  runtime_error, type_error, timeout_error, cancelled_error, if◌then◌else◌, if-Holds,
}
use wendougee_data_ha.Journal.{capture}
use wendougee_data_ha.Activity
use wendougee_data_ha.Coordinator.Polling.{Poller}
use wendougee_data_ha.Capture.{Paced, RuntimeSample, RuntimeTrace, capture_runtime_trace}
use wendougee_data_ha.Capture.Bounds.{Wakes}
use wendougee_data_ha.Capture.Benchmark.{SamplingBenchmark, benchmark_runtime_sampling}
use wendougee_data_ha.Capture.Benchmark.Selection.{
  IsFastest, Swept, swept, interrupted, benchmark_runtime_sampling-IsFastest,
}

-- the coordinator with the two fields of its sampling
pub record Sampler : Type 0 where
  pub poller : Poller
  pub last_sampling_benchmark : Option SamplingBenchmark
  pub fast_sample_hz : Option ℕ

abbrev stopped_error : Error
stopped_error = runtime_error "Integration stopped"

-- `self.activity.observe(…, source="capture")`
observe_sample : RuntimeSample → Sampler → Sampler
observe_sample s r = record r {
  poller = record (r.poller) {
    c = record (r.poller.c) {
      activity =
          (Activity.observe
            (record {
              telemetry = s.telemetry;
              state = s.operating_state;
              now = s.observed_at_utc;
              source = capture;
            })
            r.poller.c.activity).0;
    };
  };
}

observe_samples : List RuntimeSample → Sampler → Sampler
unfolding observe_sample
observe_samples [] r = r
observe_samples (s ∷ ss) r = observe_samples ss (observe_sample s r)

-- what the last sample of a capture becomes
show_latest : List RuntimeSample → Sampler → Sampler
show_latest [] r = r
show_latest (s ∷ []) r = record r {
  poller = record (r.poller) {
    read_failed = false;
    c = record (r.poller.c) {
      operating_state = some s.operating_state;
      latest = some s.telemetry;
      available = true;
    };
  };
}
show_latest (s ∷ s' ∷ ss) r = show_latest (s' ∷ ss) r

-- the result of an operation, the coordinator and the rest; `none` is a lack of fuel
abbrev pub Sampled : Type 0 → Type 0 → Type 0
Sampled W A = Option ((Result A × Sampler) × W)

-- `asyncio.timeout`
timed : {A : Type 0} → Bool → Result A → Result A
timed true (err cancelled_error) = err timeout_error
timed _ r = r

module _ {W : Type 0} where
  benchmarked :
      (W → Bool) → Sampler → Option (Result SamplingBenchmark × W) → Sampled W SamplingBenchmark
  unfolding timed
  benchmarked expired r none = none
  benchmarked expired r (some (err e, w)) = some ((timed (expired w) (err e), r), w)
  benchmarked expired r (some (ok b, w)) =
      some
        ((ok b, record r { last_sampling_benchmark = some b; fast_sample_hz = b.selected_hz }), w)

  captured : (W → Bool) → Sampler → Option (Result RuntimeTrace × W) → Sampled W RuntimeTrace
  unfolding timed observe_samples show_latest
  captured expired r none = none
  captured expired r (some (err e, w)) = some ((timed (expired w) (err e), r), w)
  captured expired r (some (ok trace, w)) =
      some ((ok trace, show_latest trace.samples (observe_samples trace.samples r)), w)

module _ {W : Type 0} (loop : Paced W) (expired : W → Bool) where
  benchmark_locked : Sampler × W → Sampled W SamplingBenchmark
  unfolding benchmarked
  benchmark_locked (r, w) =
      if r.poller.c.stopped
      then some ((err stopped_error, r), w)
      else benchmarked expired r (benchmark_runtime_sampling loop w)

  -- `async_benchmark_sampling`
  unfoldable pub benchmark_sampling :
      (Sampler × W → Sampler × W) → Sampler → W → Sampled W SamplingBenchmark
  unfolding benchmark_locked
  benchmark_sampling wait r w = benchmark_locked (wait (r, w))

  -- a rate that is missing by then is no number
  capture_at : ℕ → Option ℕ → Sampler → W → Sampled W RuntimeTrace
  unfolding captured
  capture_at duration none r w = some ((err type_error, r), w)
  capture_at duration (some hz) r w =
      captured expired r (capture_runtime_trace loop (duration * hz + 1) duration hz none w)

  capture_locked : ℕ → Sampler × W → Sampled W RuntimeTrace
  unfolding capture_at
  capture_locked duration (r, w) =
      if r.poller.c.stopped
      then some ((err stopped_error, r), w)
      else capture_at duration r.fast_sample_hz r w

  captured_if : ℕ → (Sampler × W → Sampler × W) → Option ℕ → Sampler → W → Sampled W RuntimeTrace
  unfolding capture_locked
  captured_if duration wait none r w =
      some ((err (runtime_error "Run the read-only sampling benchmark first"), r), w)
  captured_if duration wait (some hz) r w = capture_locked duration (wait (r, w))

  -- `async_capture_runtime_trace`
  unfoldable pub capture_trace :
      ℕ → (Sampler × W → Sampler × W) → Sampler → W → Sampled W RuntimeTrace
  unfolding captured_if
  capture_trace duration wait r w = captured_if duration wait r.fast_sample_hz r w

-- the rate of the captures is the one that the last benchmark demonstrated
pub data IsSound : Option SamplingBenchmark → Option ℕ → Type 0 where
  untested : IsSound none none
  tested :
      (b : SamplingBenchmark) → IsFastest b.selected_hz b.stages → IsSound (some b) b.selected_hz

abbrev pub SoundSampler : Sampler → Type 0
SoundSampler r = IsSound r.last_sampling_benchmark r.fast_sample_hz

-- an operation's result has a property of its coordinator
pub data Ends {W A : Type 0} (P : Sampler → Type 0) : Sampled W A → Type 0 where
  ends : (result : Result A) (r : Sampler) (w : W) → P r → Ends P (some ((result, r), w))

module _ {W : Type 0} (loop : Paced W) (expired : W → Bool) where
  benchmarked-Ends :
      (r : Sampler) (x : Option (Result SamplingBenchmark × W))
      → SoundSampler r
      → Swept loop x
      → Ends SoundSampler (benchmarked expired r x)
  unfolding benchmarked
  benchmarked-Ends r _ s (swept b w f) = ends _ _ w (tested b f)
  benchmarked-Ends r _ s (interrupted w) = ends _ r w s

  benchmark_locked-Ends :
      Wakes loop
      → (r : Sampler) (w : W) → SoundSampler r
      → Ends SoundSampler (benchmark_locked loop expired (r, w))
  unfolding benchmark_locked
  benchmark_locked-Ends wakes r w s =
      if-Holds (Ends SoundSampler) r.poller.c.stopped (some ((err stopped_error, r), w))
        (benchmarked expired r (benchmark_runtime_sampling loop w)) (ends _ r w s)
        (benchmarked-Ends r _ s (benchmark_runtime_sampling-IsFastest loop wakes w))

  -- Where a pause takes at least its time, the sampling benchmark of the coordinator ends, and
  -- whether it succeeds or fails, the rate that captures will use is the one that the last
  -- completed benchmark demonstrated, or there is none, provided that this held when it got the
  -- connection lock.
  pub benchmark_sampling-SoundSampler :
      Wakes loop
      → (wait : Sampler × W → Sampler × W) (r : Sampler) (w : W) → SoundSampler (wait (r, w)).0
      → Ends SoundSampler (benchmark_sampling loop expired wait r w)
  unfolding benchmark_sampling
  benchmark_sampling-SoundSampler wakes wait r w s =
      benchmark_locked-Ends wakes (wait (r, w)).0 (wait (r, w)).1 s
