-- ===== src/Coordinator/Polling.antt =====
-- The polls of src/custom_components/wendougee_data/coordinator.py: `_async_update_data`,
-- `_apply_baseline`, the health counters and `async_read_baseline`.
pub mod Health
use wendougee_data_ha.Base.{
  ℕ, zero, suc, ◌+◌, ◌<◌, List, [], ◌∷◌, Bool, true, false, ◌&&◌, ◌||◌, not, Option, none, some,
  is_some, Error, Result, ok, err, home_assistant_error, runtime_error, cancelled_error, ◌>>=◌, leb,
  if◌then◌else◌, ◌≡◌, refl, arith,
}
use wendougee_data_ha.Base.Bytes.{Bytes}
use wendougee_data_ha.Reads.{
  ReadOperation, telemetry, configuration, water_alarm_enabled, operating_state,
}
use wendougee_data_ha.Telemetry.{Telemetry, parse_telemetry_response}
use wendougee_data_ha.State.{
  Configuration, OperatingState, decode_configuration, decode_water_alarm_enabled,
  decode_operating_state,
}
use wendougee_data_ha.Journal.{Instant, poll}
use wendougee_data_ha.Activity
use wendougee_data_ha.Coordinator.{Coordinator}

abbrev pub configuration_refresh_polls : ℕ
configuration_refresh_polls = 20

-- one frame for each operation
abbrev pub Baseline : Type 0
Baseline = ReadOperation → Bytes

-- The coordinator with the fields that its polls use; `last_error` is either missing or
-- "read_failed".
pub record Poller : Type 0 where
  pub c : Coordinator
  pub water_alarm : Option Bool
  pub runtime_polls_since_configuration : ℕ
  pub cache_initial_baseline : Bool
  pub cached_baseline_frames : Option Baseline
  pub last_successful_poll_utc : Option Instant
  pub last_failed_poll_utc : Option Instant
  pub successful_polls_since_load : ℕ
  pub failed_polls_since_load : ℕ
  pub consecutive_failed_polls : ℕ
  pub read_failed : Bool

-- `read_baseline` and `read_runtime` under their timeouts, and the clock
pub record Reader (W : Type 0) : Type 0 where
  pub read_baseline : W → Result Baseline × W
  pub read_runtime : W → Result (Telemetry × OperatingState) × W
  pub now : W → Instant

unfoldable pub record_poll_success : Instant → Poller → Poller
record_poll_success now p = record p {
  last_successful_poll_utc = some now;
  successful_polls_since_load = p.successful_polls_since_load + 1;
  consecutive_failed_polls = 0;
  read_failed = false;
}

unfoldable pub record_poll_failure : Instant → Poller → Poller
record_poll_failure now p = record p {
  last_failed_poll_utc = some now;
  failed_polls_since_load = p.failed_polls_since_load + 1;
  consecutive_failed_polls = p.consecutive_failed_polls + 1;
  read_failed = true;
}

-- what the four frames decode to
pub record Decoded : Type 0 where
  pub reading : Telemetry
  pub config : Configuration
  pub alarm : Option Bool
  pub mode : OperatingState

unfoldable pub decode_baseline : Baseline → Result Decoded
decode_baseline frames = do
  t ← parse_telemetry_response (frames telemetry)
  c ← decode_configuration (frames configuration)
  w ← decode_water_alarm_enabled (frames water_alarm_enabled)
  s ← decode_operating_state (frames operating_state)
  ok (record { reading = t; config = c; alarm = w; mode = s })

store_baseline : Result Decoded → Poller → Result Telemetry × Poller
store_baseline (err e) p = (err e, p)
store_baseline (ok d) p = (
  ok d.reading,
  record p {
    c = record (p.c) { configuration = some d.config; operating_state = some d.mode };
    water_alarm = d.alarm;
    runtime_polls_since_configuration = 0;
  },
)

-- `_apply_baseline`
unfoldable pub apply_baseline : Baseline → Poller → Result Telemetry × Poller
unfolding store_baseline decode_baseline
apply_baseline frames p = store_baseline (decode_baseline frames) p

-- `take_cached_baseline_frames`
unfoldable pub take_cached_baseline_frames : Poller → Option Baseline × Poller
take_cached_baseline_frames p =
    (p.cached_baseline_frames, record p { cached_baseline_frames = none })

cache_if : Bool → Baseline → Result Telemetry × Poller → Result Telemetry × Poller
cache_if initial frames (err e, p) = (err e, p)
cache_if initial frames (ok t, p) = (
  ok t,
  if initial && p.cache_initial_baseline
      then (record p { cached_baseline_frames = some frames })
      else p,
)

from_baseline : Bool → Result Baseline → Poller → Result Telemetry × Poller
unfolding apply_baseline cache_if
from_baseline initial (err e) p = (err e, p)
from_baseline initial (ok frames) p = cache_if initial frames (apply_baseline frames p)

from_runtime : Result (Telemetry × OperatingState) → Poller → Result Telemetry × Poller
from_runtime (err e) p = (err e, p)
from_runtime (ok (t, s)) p = (
  ok t,
  record p {
    c = record (p.c) { operating_state = some s };
    runtime_polls_since_configuration = p.runtime_polls_since_configuration + 1;
  },
)

-- `self.activity.observe(data, self.operating_state)`
unfoldable pub observe_poll : Telemetry → Instant → Poller → Poller
observe_poll t now p = elim p.c.operating_state [
  | none ↦ p
  | some s ↦ record p {
    c = record (p.c) {
      activity =
          (Activity.observe (record { telemetry = t; state = s; now = now; source = poll })
            p.c.activity).0;
    };
  }
]

-- the end of the `try` and its handlers
settle_poll : Instant → Result Telemetry × Poller → Result Telemetry × Poller
unfolding record_poll_success record_poll_failure observe_poll
settle_poll now (ok t, p) = (ok t, observe_poll t now (record_poll_success now p))
settle_poll now (err cancelled_error, p) = (err cancelled_error, p)
settle_poll now (err e, p) = (
  err (home_assistant_error "Unable to obtain a valid telemetry sample"),
  record_poll_failure now p,
)

-- whether this poll reads the whole baseline
unfoldable pub needs_baseline : Poller → Bool
needs_baseline p =
    not (is_some p.c.configuration)
    || leb configuration_refresh_polls (p.runtime_polls_since_configuration + 1)

module _ {W : Type 0} (b : Reader W) where
  -- one reading, of the whole baseline or of the runtime values
  sample : Bool → Poller → W → (Result Telemetry × Poller) × W
  unfolding from_baseline from_runtime
  sample true p w =
      let (frames, w') = b.read_baseline w in
      (from_baseline (not (is_some p.c.configuration)) frames p, w')
  sample false p w = let (got, w') = b.read_runtime w in (from_runtime got p, w')

  update_unless : Bool → Poller → W → (Result Telemetry × Poller) × W
  unfolding sample settle_poll needs_baseline
  update_unless true p w = ((err (home_assistant_error "Integration stopped"), p), w)
  update_unless false p w =
      let (got, w') = sample (needs_baseline p) p w in (settle_poll (b.now w') got, w')

  -- `_async_update_data`
  unfoldable pub update_data : Poller → W → (Result Telemetry × Poller) × W
  unfolding update_unless
  update_data p w = update_unless p.c.stopped p w

  -- the frames of an explicit baseline, where all of them decode
  settle_baseline : Instant → Baseline → Result Telemetry × Poller → Result Baseline × Poller
  unfolding observe_poll
  settle_baseline now frames (err e, p) = (err e, p)
  settle_baseline now frames (ok t, p) =
      let q = observe_poll t now (record p { read_failed = false }) in
      (ok frames, record q { c = record (q.c) { latest = some t; available = true } })

  explicit_baseline : Bool → Poller → W → (Result Baseline × Poller) × W
  unfolding settle_baseline apply_baseline
  explicit_baseline true p w = ((err (runtime_error "Integration stopped"), p), w)
  explicit_baseline false p w =
      let (got, w') = b.read_baseline w in
      elim got [
        | err e ↦ ((err e, p), w')
        | ok frames ↦ (settle_baseline (b.now w') frames (apply_baseline frames p), w')
      ]

  -- `async_read_baseline`
  unfoldable pub read_baseline_now : Poller → W → (Result Baseline × Poller) × W
  unfolding explicit_baseline
  read_baseline_now p w = explicit_baseline p.c.stopped p w

  -- polls one after the other
  unfoldable pub poll_all : ℕ → Poller → W → Poller × W
  poll_all zero p w = (p, w)
  poll_all (suc n) p w = let (got, w') = update_data p w in poll_all n got.1 w'
