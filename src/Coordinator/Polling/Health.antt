-- ===== src/Coordinator/Polling/Health.antt =====
-- What polls keep: the age of the configuration, and the data of a machine that cannot be read.
use wendougee_data_ha.Base.{
  ℕ, zero, suc, ◌<◌, Bool, true, false, Error, Result, ok, err, ◌≡◌, refl, ◌∙◌, arith, is_some, not,
  ◌+◌, ◌⊎◌, inl,
}
use mathlib.Core.Path.{subst}
use wendougee_data_ha.Telemetry.{Telemetry}
use wendougee_data_ha.State.{OperatingState}
use wendougee_data_ha.Journal.{Instant}
use wendougee_data_ha.Coordinator.Polling.{
  Poller, Reader, Baseline, Decoded, configuration_refresh_polls, store_baseline, apply_baseline,
  decode_baseline, cache_if, from_baseline, from_runtime, observe_poll, settle_poll,
  record_poll_success, record_poll_failure, needs_baseline, sample, update_unless, update_data,
  poll_all,
}

IsFresh : Poller → Type 0
IsFresh p = p.runtime_polls_since_configuration < configuration_refresh_polls

store_baseline-IsFresh :
    (r : Result Decoded) (p : Poller) → IsFresh p → IsFresh (store_baseline r p).1
unfolding store_baseline IsFresh
store_baseline-IsFresh r p k = ground arith

from_baseline-IsFresh :
    (initial : Bool) (r : Result Baseline) (p : Poller)
    → IsFresh p
    → IsFresh (from_baseline initial r p).1
unfolding from_baseline cache_if apply_baseline IsFresh
from_baseline-IsFresh initial (err e) p k = k
from_baseline-IsFresh initial (ok frames) p k =
    ground (arith, store_baseline-IsFresh (decode_baseline frames) p k)

observe_poll-IsFresh :
    (t : Telemetry) (now : Instant) (p : Poller) → IsFresh p → IsFresh (observe_poll t now p)
unfolding observe_poll IsFresh
observe_poll-IsFresh t now p k = ground arith

settle_poll-IsFresh :
    (now : Instant) (x : Result Telemetry × Poller) → IsFresh x.1 → IsFresh (settle_poll now x).1
unfolding settle_poll record_poll_success record_poll_failure IsFresh
settle_poll-IsFresh now (ok t, p) k = observe_poll-IsFresh t now (record_poll_success now p) k
settle_poll-IsFresh now (err e, p) k = ground arith

from_runtime-IsFresh :
    (r : Result (Telemetry × OperatingState)) (p : Poller)
    → needs_baseline p ≡ false
    → IsFresh (from_runtime r p).1
unfolding from_runtime needs_baseline IsFresh
from_runtime-IsFresh r p n = ground arith

store_baseline_failed :
    (r : Result Decoded) (p : Poller) (e : Error)
    → (store_baseline r p).0 ≡ err e
    → (store_baseline r p).1 ≡ p
unfolding store_baseline
store_baseline_failed (ok d) p e h = absurd (cc)
store_baseline_failed (err x) p e h = refl

cache_if_failed :
    (initial : Bool) (frames : Baseline) (x : Result Telemetry × Poller) (e : Error)
    → (cache_if initial frames x).0 ≡ err e
    → (x.0 ≡ err e) × ((cache_if initial frames x).1 ≡ x.1)
unfolding cache_if
cache_if_failed initial frames (ok t, p) e h = absurd (cc)
cache_if_failed initial frames (err x, p) e h = (h, refl)

from_baseline_failed :
    (initial : Bool) (r : Result Baseline) (p : Poller) (e : Error)
    → (from_baseline initial r p).0 ≡ err e
    → (from_baseline initial r p).1 ≡ p
unfolding from_baseline apply_baseline
from_baseline_failed initial (err x) p e h = refl
from_baseline_failed initial (ok frames) p e h =
    let (stored, same) =
      cache_if_failed initial frames (store_baseline (decode_baseline frames) p) e h in
    same ∙ store_baseline_failed (decode_baseline frames) p e stored

from_runtime_failed :
    (r : Result (Telemetry × OperatingState)) (p : Poller) (e : Error)
    → (from_runtime r p).0 ≡ err e
    → (from_runtime r p).1 ≡ p
unfolding from_runtime
from_runtime_failed (ok (t, s)) p e h = absurd (cc)
from_runtime_failed (err x) p e h = refl

-- what a poll that raised leaves: the data are kept, no success is counted, and at most one failure
pub record Same (p p' : Poller) : Type 0 where
  pub c : p'.c ≡ p.c
  pub water_alarm : p'.water_alarm ≡ p.water_alarm
  pub polls : p'.runtime_polls_since_configuration ≡ p.runtime_polls_since_configuration
  pub cached : p'.cached_baseline_frames ≡ p.cached_baseline_frames
  pub last_success : p'.last_successful_poll_utc ≡ p.last_successful_poll_utc
  pub successes : p'.successful_polls_since_load ≡ p.successful_polls_since_load
  pub failures :
      ((p'.failed_polls_since_load ≡ p.failed_polls_since_load)
        × (p'.consecutive_failed_polls ≡ p.consecutive_failed_polls))
      ⊎ ((p'.failed_polls_since_load ≡ p.failed_polls_since_load + 1)
          × (p'.consecutive_failed_polls ≡ p.consecutive_failed_polls + 1))

settle_poll_failed :
    (now : Instant) (p : Poller) (x : Result Telemetry × Poller) (e : Error)
    → ((x' : Error) → x.0 ≡ err x' → x.1 ≡ p)
    → (settle_poll now x).0 ≡ err e
    → Same p (settle_poll now x).1
unfolding settle_poll record_poll_failure
settle_poll_failed now p (ok t, q) e same h = absurd (cc)
settle_poll_failed now p (err x, q) e same h =
    let s : q ≡ p = same x refl in
    subst (λ p'. Same p' (settle_poll now (err x, q)).1) s (settled x)
  where
    settled : (y : Error) → Same q (settle_poll now (err y, q)).1
    settled y = ground arith

module _ {W : Type 0} (b : Reader W) where
  sample-IsFresh :
      (whole : Bool) (p : Poller) (w : W)
      → needs_baseline p ≡ whole
      → IsFresh p
      → IsFresh (sample b whole p w).0.1
  unfolding sample
  sample-IsFresh true p w n k =
      from_baseline-IsFresh (not (is_some p.c.configuration)) (b.read_baseline w).0 p k
  sample-IsFresh false p w n k = from_runtime-IsFresh (b.read_runtime w).0 p n

  update_unless-IsFresh :
      (stopped : Bool) (p : Poller) (w : W) → IsFresh p → IsFresh (update_unless b stopped p w).0.1
  unfolding update_unless
  update_unless-IsFresh true p w k = k
  update_unless-IsFresh false p w k =
      let got = sample b (needs_baseline p) p w in
      settle_poll-IsFresh (b.now got.1) got.0 (sample-IsFresh (needs_baseline p) p w refl k)

  update_data-IsFresh : (p : Poller) (w : W) → IsFresh p → IsFresh (update_data b p w).0.1
  unfolding update_data
  update_data-IsFresh p w k = update_unless-IsFresh p.c.stopped p w k

  -- However many polls follow, and whatever they read, the counter of runtime polls since the
  -- latest configuration stays below 20, if it was below 20 at the start.
  pub poll_all-lt :
      (n : ℕ) (p : Poller) (w : W)
      → p.runtime_polls_since_configuration < configuration_refresh_polls
      → (poll_all b n p w).0.runtime_polls_since_configuration < configuration_refresh_polls
  unfolding poll_all IsFresh
  poll_all-lt zero p w k = k
  poll_all-lt (suc n) p w k =
      poll_all-lt n (update_data b p w).0.1 (update_data b p w).1 (update_data-IsFresh p w k)

  sample_failed :
      (whole : Bool) (p : Poller) (w : W) (e : Error)
      → (sample b whole p w).0.0 ≡ err e
      → (sample b whole p w).0.1 ≡ p
  unfolding sample
  sample_failed true p w e h =
      from_baseline_failed (not (is_some p.c.configuration)) (b.read_baseline w).0 p e h
  sample_failed false p w e h = from_runtime_failed (b.read_runtime w).0 p e h

  update_unless_failed :
      (stopped : Bool) (p : Poller) (w : W) (e : Error)
      → (update_unless b stopped p w).0.0 ≡ err e
      → Same p (update_unless b stopped p w).0.1
  unfolding update_unless
  update_unless_failed true p w e h = record {
    c = refl;
    water_alarm = refl;
    polls = refl;
    cached = refl;
    last_success = refl;
    successes = refl;
    failures = inl (refl, refl);
  }
  update_unless_failed false p w e h =
      let got = sample b (needs_baseline p) p w in
      settle_poll_failed (b.now got.1) p got.0 e (λ x. sample_failed (needs_baseline p) p w x) h

  -- A poll that raises, at the transport or in decoding, leaves the coordinator's record (with the
  -- configuration, the operating state and the totals), the alarm setting, the counter of runtime
  -- polls, the cached baseline, and the instant and the number of the successful polls as they
  -- were; it adds one to the failed polls and to the consecutive failed polls, or leaves both.
  pub update_data_failed :
      (p : Poller) (w : W) (e : Error)
      → (update_data b p w).0.0 ≡ err e
      → Same p (update_data b p w).0.1
  unfolding update_data
  update_data_failed p w e h = update_unless_failed p.c.stopped p w e h
