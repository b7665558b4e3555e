-- ===== src/Tests/Controls.antt =====
-- Control transactions that are rejected, and a session that is quarantined.
use wendougee_data_ha.Base.{List, [], ◌∷◌, false, err, ok, refl, timeout_error, ◌≡◌}
use wendougee_data_ha.Base.Bytes.{Bytes}
use wendougee_data_ha.Crc.{append_crc}
use wendougee_data_ha.Reads
use wendougee_data_ha.State.{
  operating_state_of, active_modes, is_idle, decode_configuration, configuration_of,
  decode_operating_state,
}
use wendougee_data_ha.State
use wendougee_data_ha.Base.Bytes.{words}
use wendougee_data_ha.Reads.{crc_matches, validate_read_response}
use wendougee_data_ha.Session.{read, command, new, request_of, check_command}
use wendougee_data_ha.Session.Exchange.{Accepted}
use wendougee_data_ha.Command.{configuration, state, command_request}
use wendougee_data_ha.Controls.{brew_enabled, build_boiler_setting_request}
use wendougee_data_ha.Link.{Link, M, pure, exchange, transact, check, ◌>>=◌}
use wendougee_data_ha.Link.Traces.{Grows, Emits-pure}
use wendougee_data_ha.Link.Quarantine.{exchange_all, exchange_ok, exchange_quarantines}
use wendougee_data_ha.Press.{busy, require_idle, read_state}
use wendougee_data_ha.Control.Boiler.{set_boiler, read_configuration}
use wendougee_data_ha.Control.Profile.{start_stored_profile, brew_is_off}
use wendougee_data_ha.Control.Cleaning.{start_cleaning, outside_envelope}
use wendougee_data_ha.Control.Preparation.{Backup, prepare_pilot_profile}
use wendougee_data_ha.Control.Rejections.{is_read}
use wendougee_data_ha.Control.Attempts.{
  set_boiler_rejected, start_stored_profile_rejected, start_cleaning_rejected,
  prepare_pilot_profile_rejected,
}
use wendougee_data_ha.Tests.Machine.{
  machine, link, configuration_frame, state_frame, words_with_brew,
}

abbrev brewing : Link (List Bytes)
brewing = link (configuration_frame (words_with_brew 0) ∷ state_frame 1 ∷ [])

boiler_stops : (set_boiler machine brew_enabled false brewing).0 ≡ err busy
unfolding set_boiler machine configuration_frame state_frame read_configuration
    build_boiler_setting_request require_idle read_state decode_operating_state operating_state_of
    active_modes is_idle State.state ◌>>=◌ transact check new command_request request_of
    check_command crc_matches decode_configuration validate_read_response configuration_of words
boiler_stops = refl

set_boiler_rejected_example :
    Grows is_read [] (set_boiler machine brew_enabled false brewing).1.history
set_boiler_rejected_example =
    set_boiler_rejected machine brew_enabled false brewing busy boiler_stops refl

abbrev cold : Link (List Bytes)
cold = link (configuration_frame (words_with_brew 1) ∷ [])

profile_stops : (start_stored_profile machine cold).0 ≡ err brew_is_off
unfolding start_stored_profile machine configuration_frame read_configuration ◌>>=◌ transact check
    new command_request request_of check_command crc_matches decode_configuration
    validate_read_response configuration_of words
profile_stops = refl

start_stored_profile_rejected_example :
    Grows is_read [] (start_stored_profile machine cold).1.history
start_stored_profile_rejected_example =
    start_stored_profile_rejected machine cold brew_is_off profile_stops refl

cleaning_stops : (start_cleaning machine cold).0 ≡ err outside_envelope
unfolding start_cleaning machine configuration_frame read_configuration ◌>>=◌ transact check new
    command_request request_of check_command crc_matches decode_configuration validate_read_response
    configuration_of words
cleaning_stops = refl

start_cleaning_rejected_example : Grows is_read [] (start_cleaning machine cold).1.history
start_cleaning_rejected_example =
    start_cleaning_rejected machine cold outside_envelope cleaning_stops refl

abbrev running : Link (List Bytes)
running = link (state_frame 1 ∷ [])

abbrev no_backup : Backup → M (List Bytes) (Unit {0})
no_backup b = pure tt

preparation_stops : (prepare_pilot_profile machine no_backup running).0 ≡ err busy
unfolding prepare_pilot_profile machine state_frame require_idle read_state decode_operating_state
    operating_state_of active_modes is_idle State.state ◌>>=◌ transact check new command_request
    request_of check_command crc_matches decode_configuration validate_read_response
    configuration_of words
preparation_stops = refl

prepare_pilot_profile_rejected_example :
    Grows is_read [] (prepare_pilot_profile machine no_backup running).1.history
prepare_pilot_profile_rejected_example =
    prepare_pilot_profile_rejected machine no_backup running busy (λ b. Emits-pure is_read tt)
      preparation_stops refl

silent_fails : (exchange machine (command state) (link [])).0 ≡ err timeout_error
unfolding exchange machine new command_request request_of append_crc
silent_fails = refl

-- three more requests after a timeout
exchange_quarantines_example :
    exchange_all machine
      (command state ∷ read Reads.telemetry ∷ command configuration ∷ [])
      (exchange machine (command state) (link [])).1
    ≡ (exchange machine (command state) (link [])).1
exchange_quarantines_example =
    exchange_quarantines machine (command state) (link []) timeout_error
      (command state ∷ read Reads.telemetry ∷ command configuration ∷ []) silent_fails

answered : (exchange machine (command state) running).0 ≡ ok (state_frame 1)
unfolding exchange machine state_frame new command_request request_of check_command crc_matches
answered = refl

exchange_ok_example :
    Accepted (command state) (state_frame 1)
    × ((exchange machine (command state) running).1.history ≡ command state ∷ [])
exchange_ok_example = exchange_ok machine (command state) running (state_frame 1) answered
