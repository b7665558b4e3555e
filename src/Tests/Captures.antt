-- ===== src/Tests/Captures.antt =====
-- Captures of a machine that answers each read in 60 milliseconds.
use wendougee_data_ha.Base.{ℕ, ◌+◌, arith, [], ◌∷◌, ◌++◌, false, none, ok, zero, suc}
use wendougee_data_ha.Base.Bytes.{Bytes}
use wendougee_data_ha.Crc.{append_crc}
use wendougee_data_ha.Reads.{ReadOperation, operating_state}
use wendougee_data_ha.Capture.{Paced, capture_loop}
use wendougee_data_ha.Capture.Bounds.{Wakes, Finished, capture_loop-Finished}
use wendougee_data_ha.Capture.Benchmark.{benchmark_runtime_sampling}
use wendougee_data_ha.Capture.Benchmark.Selection.{Swept, benchmark_runtime_sampling-IsFastest}
use wendougee_data_ha.Coordinator.Sampling.{
  Sampler, benchmark_sampling, untested, Ends, SoundSampler, benchmark_sampling-SoundSampler,
}
use wendougee_data_ha.Tests.Machine.{state_frame}
use wendougee_data_ha.Tests.Polls.{poller}

zeros : ℕ → Bytes
zeros zero = []
zeros (suc n) = 0 ∷ zeros n

unfoldable answer : ReadOperation → Bytes
unfolding zeros
answer operating_state = state_frame 0
answer _ = append_crc ((1 ∷ 3 ∷ 44 ∷ []) ++ zeros 44)

-- the world is the time
abbrev camera : Paced ℕ
camera = record {
  time = λ w. w;
  utcnow = λ w. w;
  sleep = λ d w. (ok tt, w + d);
  open_session = λ w. (ok tt, w);
  read = λ op w. (ok (answer op), w + 60000);
  close_session = λ w. (none, w);
}

wakes : Wakes camera
unfolding Wakes
wakes d w = omega arith

capture_loop-Finished_example :
    Finished camera 3000000 2 none (capture_loop camera 7 none 0 3000000 2 [] 0)
capture_loop-Finished_example =
    capture_loop-Finished camera 3000000 2 none wakes (ground arith) 0 7 0 (ground arith)

benchmark_runtime_sampling-IsFastest_example : Swept camera (benchmark_runtime_sampling camera 0)
benchmark_runtime_sampling-IsFastest_example = benchmark_runtime_sampling-IsFastest camera wakes 0

abbrev sampler : Sampler
sampler = record { poller = poller; last_sampling_benchmark = none; fast_sample_hz = none }

benchmark_sampling-SoundSampler_example :
    Ends SoundSampler (benchmark_sampling camera (λ w. false) (λ x. x) sampler 0)
benchmark_sampling-SoundSampler_example =
    benchmark_sampling-SoundSampler camera (λ w. false) wakes (λ x. x) sampler 0 untested
