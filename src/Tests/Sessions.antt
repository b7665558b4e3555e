-- ===== src/Tests/Sessions.antt =====
-- A profile start on a machine whose brew boiler is off.
use wendougee_data_ha.Base.{List, [], ◌∷◌, none, err, ◌≡◌, refl}
use wendougee_data_ha.Base.Bytes.{Bytes, words}
use wendougee_data_ha.Reads.{crc_matches, validate_read_response}
use wendougee_data_ha.Session.{new, request_of, check_command}
use wendougee_data_ha.Command.{command_request}
use wendougee_data_ha.State.{decode_configuration, configuration_of}
use wendougee_data_ha.Link.{transact, check, ◌>>=◌}
use wendougee_data_ha.Link.Traces.{Grows}
use wendougee_data_ha.Lifecycle.{Route, transport, with_session}
use wendougee_data_ha.Control.Boiler.{read_configuration}
use wendougee_data_ha.Control.Profile.{start_stored_profile, brew_is_off}
use wendougee_data_ha.Control.Rejections.{is_read}
use wendougee_data_ha.Execute.{execute_profile, start_and_read, requests}
use wendougee_data_ha.Execute.Attempts.{execute_profile_rejected}
use wendougee_data_ha.Tests.Machine.{machine, configuration_frame, words_with_brew}

abbrev route : Route (List Bytes)
route = record {
  open_route = λ w. (record { events = []; interrupt = none }, w);
  close_route = λ w. (none, w);
  wire = machine.wire;
  rest = machine.rest;
  cancelled = machine.cancelled;
}

abbrev cold : List Bytes
cold = configuration_frame (words_with_brew 1) ∷ []

stops : (execute_profile route cold).0 ≡ err brew_is_off
unfolding execute_profile start_and_read requests transport with_session start_stored_profile
    machine configuration_frame read_configuration ◌>>=◌ transact check new command_request
    request_of check_command crc_matches decode_configuration validate_read_response
    configuration_of words
stops = refl

execute_profile_rejected_example : Grows is_read [] (execute_profile route cold).1.history
execute_profile_rejected_example = execute_profile_rejected route cold brew_is_off stops refl
