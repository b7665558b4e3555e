-- ===== src/Capture.antt =====
-- src/custom_components/wendougee_data/fast_capture.py: paced reads through one session. A time
-- is a number of microseconds, a rate a whole number of samples in a second; the rates of the
-- source divide a second. A measured rate is a fraction, which is 0 where its span is 0.
pub mod Bounds
pub mod Benchmark
use wendougee_data_ha.Base.{
  ℕ, zero, suc, ◌+◌, ◌-◌, ◌*◌, ◌/◌, List, [], ◌∷◌, ◌++◌, map, Bool, true, false, ◌&&◌, ◌||◌, not,
  Option, none, some, String, Error, Result, ok, err, value_error, ltb, leb, length, ◌>>◌, ◌>>=◌,
  if◌then◌else◌,
}
use wendougee_data_ha.Base.Bytes.{Bytes}
use wendougee_data_ha.Reads.{ReadOperation, telemetry, operating_state}
use wendougee_data_ha.Telemetry.{Telemetry, parse_telemetry_response}
use wendougee_data_ha.State.{OperatingState, decode_operating_state}
use wendougee_data_ha.Journal.{Instant}
use wendougee_data_ha.Link.{Interrupt}
use wendougee_data_ha.Lifecycle.{primary}

abbrev pub second : ℕ
second = 1000000

abbrev min_capture_hz : ℕ
min_capture_hz = 1

abbrev max_capture_hz : ℕ
max_capture_hz = 10

abbrev inter_request_delay : ℕ
inter_request_delay = 30000

-- The clocks, the pauses and a `ReadSession` of the machine's address: its opening, its reads and
-- its close, with what it raises, if it raises.
pub record Paced (W : Type 0) : Type 0 where
  pub time : W → ℕ
  pub utcnow : W → Instant
  pub sleep : ℕ → W → Result (Unit {0}) × W
  pub open_session : W → Result (Unit {0}) × W
  pub read : ReadOperation → W → Result Bytes × W
  pub close_session : W → Option Interrupt × W

pub record RuntimeSample : Type 0 where
  pub observed_at_utc : Instant
  pub offset : ℕ
  pub round_trip : ℕ
  pub telemetry_frame : Bytes
  pub operating_state_frame : Bytes
  pub telemetry : Telemetry
  pub operating_state : OperatingState

-- so many in so many microseconds
pub record Rate : Type 0 where
  pub count : ℕ
  pub span : ℕ

pub record RuntimeTrace : Type 0 where
  pub started_at_utc : Instant
  pub ended_at_utc : Instant
  pub target_hz : ℕ
  pub elapsed : ℕ
  pub achieved : Rate
  pub samples : List RuntimeSample

-- `_validate_capture`
unfoldable pub validate_capture : ℕ → ℕ → Result (Unit {0})
validate_capture duration target_hz =
    if leb duration 0
    then err (value_error "duration_seconds must be finite and positive")
    else if ltb target_hz min_capture_hz || ltb max_capture_hz target_hz
    then err (value_error "target_hz must be between 1 and 10")
    else ok tt

-- the time between two samples
abbrev pub period : ℕ → ℕ
period target_hz = second / target_hz

abbrev pub is_empty : List RuntimeSample → Bool
is_empty [] = true
is_empty (s ∷ ss) = false

abbrev pub is_limit : Option ℕ → ℕ → Bool
is_limit none taken = false
is_limit (some limit) taken = not (ltb taken limit)

last_offset : ℕ → List RuntimeSample → ℕ
last_offset offset [] = offset
last_offset offset (s ∷ ss) = last_offset s.offset ss

-- `achieved_hz`
achieved_of : List RuntimeSample → ℕ → Rate
unfolding last_offset
achieved_of [] elapsed = record { count = 0; span = 0 }
achieved_of (s ∷ []) elapsed = record { count = 1; span = elapsed }
achieved_of (s ∷ s' ∷ ss) elapsed = record {
  count = suc (length ss);
  span = last_offset s'.offset ss - s.offset;
}

module _ {W : Type 0} where
  unfoldable pub then_on : {A B : Type 0} → (A → W → Result B × W) → Result A × W → Result B × W
  then_on f (ok a, w) = f a w
  then_on f (err e, w) = (err e, w)

  -- a result without effects
  lift : {A : Type 0} → Result A → W → Result A × W
  lift r w = (r, w)

module _ {W : Type 0} (loop : Paced W) where
  -- the decoding of two frames
  unfoldable pub sample_of : ℕ → ℕ → Bytes → Bytes → W → Result RuntimeSample
  sample_of started requested telemetry_frame state_frame w = do
    t ← parse_telemetry_response telemetry_frame
    s ← decode_operating_state state_frame
    ok (record {
      observed_at_utc = loop.utcnow w;
      offset = loop.time w - started;
      round_trip = loop.time w - requested;
      telemetry_frame = telemetry_frame;
      operating_state_frame = state_frame;
      telemetry = t;
      operating_state = s;
    })

  -- one pass of the loop, from `request_started` on
  unfoldable pub take_sample : ℕ → W → Result RuntimeSample × W
  unfolding then_on lift sample_of
  take_sample started w =
      then_on
        (λ telemetry_frame w1.
          then_on
            (λ _ w2.
              then_on
                (λ state_frame w3.
                  lift (sample_of started (loop.time w) telemetry_frame state_frame w3) w3)
                (loop.read operating_state w2))
            (loop.sleep inter_request_delay w1))
        (loop.read telemetry w)

  -- `if remaining > 0: await asyncio.sleep(remaining)`
  unfoldable pub pace : ℕ → W → Result (Unit {0}) × W
  pace target_time w =
      if ltb (loop.time w) target_time then loop.sleep (target_time - loop.time w) w else (ok tt, w)

  -- whether the duration is over
  abbrev pub is_over : ℕ → ℕ → List RuntimeSample → W → Bool
  is_over started duration samples w =
      not (is_empty samples) && leb (started + duration) (loop.time w)

  abbrev pub Looped : Type 0
  Looped = Option (Result (List RuntimeSample) × W)

  -- the end of a pass, by its sample
  unfoldable pub sampled :
      List RuntimeSample → (List RuntimeSample → W → Looped) → Result RuntimeSample × W → Looped
  sampled samples rest (err e, w) = some (err e, w)
  sampled samples rest (ok s, w) = rest (samples ++ (s ∷ [])) w

  -- the rest of a pass, by the result of its wait
  unfoldable pub paced :
      ℕ
      → ℕ
      → List RuntimeSample
      → (List RuntimeSample → W → Looped)
      → Result (Unit {0}) × W
      → Looped
  unfolding sampled take_sample
  paced started duration samples rest (err e, w) = some (err e, w)
  paced started duration samples rest (ok _, w) =
      if is_over started duration samples w
      then some (ok samples, w)
      else sampled samples rest (take_sample started w)

  -- the `while` loop; `none` is a lack of fuel
  unfoldable pub capture_loop : ℕ → Option ℕ → ℕ → ℕ → ℕ → List RuntimeSample → W → Looped
  unfolding paced pace
  capture_loop zero limit started duration target_hz samples w = none
  capture_loop (suc n) limit started duration target_hz samples w =
      if is_limit limit (length samples)
      then some (ok samples, w)
      else paced started duration samples
          (λ samples' w'. capture_loop n limit started duration target_hz samples' w')
          (pace (started + length samples * period target_hz) w)

  -- the trace of the samples, when the loop has ended
  trace_of : ℕ → Instant → ℕ → W → List RuntimeSample → RuntimeTrace
  unfolding achieved_of
  trace_of started started_at target_hz w samples = record {
    started_at_utc = started_at;
    ended_at_utc = loop.utcnow w;
    target_hz = target_hz;
    elapsed = loop.time w - started;
    achieved = achieved_of samples (loop.time w - started);
    samples = samples;
  }

  mapped : {A B : Type 0} → (A → B) → Result A → Result B
  mapped f (ok a) = ok (f a)
  mapped f (err e) = err e

  -- the end of the loop and the close of the session
  closed : ℕ → Instant → ℕ → Looped → Option (Result RuntimeTrace × W)
  unfolding trace_of mapped primary
  closed started started_at target_hz none = none
  closed started started_at target_hz (some (r, w)) =
      let (failed, w') = loop.close_session w in
      some (primary (mapped (trace_of started started_at target_hz w) r) failed, w')

  -- the loop in its session
  in_session : ℕ → ℕ → ℕ → Option ℕ → Result (Unit {0}) × W → Option (Result RuntimeTrace × W)
  unfolding closed capture_loop
  in_session fuel duration target_hz limit (err e, w) = some (err e, w)
  in_session fuel duration target_hz limit (ok _, w) =
      closed (loop.time w) (loop.utcnow w) target_hz
        (capture_loop fuel limit (loop.time w) (duration * second) target_hz [] w)

  admitted : ℕ → ℕ → ℕ → Option ℕ → Result (Unit {0}) → W → Option (Result RuntimeTrace × W)
  unfolding in_session
  admitted fuel duration target_hz limit (err e) w = some (err e, w)
  admitted fuel duration target_hz limit (ok _) w =
      in_session fuel duration target_hz limit (loop.open_session w)

  -- `sample_limit is not None and sample_limit <= 0`
  validate_limit : Option ℕ → Result (Unit {0})
  validate_limit none = ok tt
  validate_limit (some limit) =
      if leb limit 0 then err (value_error "sample_limit must be positive") else ok tt

  -- `capture_runtime_trace`, for a duration in seconds
  unfoldable pub capture_runtime_trace : ℕ → ℕ → ℕ → Option ℕ → W → Option (Result RuntimeTrace × W)
  unfolding admitted validate_capture validate_limit
  capture_runtime_trace fuel duration target_hz limit w =
      admitted fuel duration target_hz limit
        (validate_capture duration target_hz >> validate_limit limit) w
