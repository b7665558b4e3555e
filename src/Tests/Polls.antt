-- ===== src/Tests/Polls.antt =====
-- Polls of a machine that cannot be read, and an audit of one that is silent.
use wendougee_data_ha.Base.{
  ℕ, [], ◌∷◌, true, false, none, err, ◌≡◌, ◌<◌, refl, arith, home_assistant_error, timeout_error,
}
use wendougee_data_ha.Coordinator.Polling.{
  Poller, Reader, configuration_refresh_polls, update_data, poll_all,
}
use wendougee_data_ha.Coordinator.Polling.Health.{Same, poll_all-lt, update_data_failed}
use wendougee_data_ha.Link.Traces.{Grows}
use wendougee_data_ha.Control.Rejections.{is_read}
use wendougee_data_ha.Control.Audit.{audit_profile_reads, audit_profile_reads_only_reads}
use wendougee_data_ha.Tests.Machine.{machine, link, state_frame}
use wendougee_data_ha.Tests.Locks.{coordinator}

abbrev pub poller : Poller
poller = record {
  c = coordinator;
  water_alarm = none;
  runtime_polls_since_configuration = 19;
  cache_initial_baseline = true;
  cached_baseline_frames = none;
  last_successful_poll_utc = none;
  last_failed_poll_utc = none;
  successful_polls_since_load = 0;
  failed_polls_since_load = 0;
  consecutive_failed_polls = 0;
  read_failed = false;
}

abbrev unreachable : Reader ℕ
unreachable = record {
  read_baseline = λ w. (err timeout_error, w);
  read_runtime = λ w. (err timeout_error, w);
  now = λ w. w;
}

fails :
    (update_data unreachable poller 5).0.0
    ≡ err (home_assistant_error "Unable to obtain a valid telemetry sample")
unfolding update_data
fails = refl

update_data_failed_example : Same poller (update_data unreachable poller 5).0.1
update_data_failed_example =
    update_data_failed unreachable poller 5
      (home_assistant_error "Unable to obtain a valid telemetry sample") fails

poll_all-lt_example :
    (poll_all unreachable 3 poller 5).0.runtime_polls_since_configuration
    < configuration_refresh_polls
poll_all-lt_example = poll_all-lt unreachable 3 poller 5 (ground arith)

audit_profile_reads_only_reads_example :
    Grows is_read [] (audit_profile_reads machine (link (state_frame 0 ∷ []))).1.history
audit_profile_reads_only_reads_example =
    audit_profile_reads_only_reads machine (link (state_frame 0 ∷ []))
