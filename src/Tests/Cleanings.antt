-- ===== src/Tests/Cleanings.antt =====
-- A cleaning of two seconds that is idle in two samples, and one whose machine falls silent.
use wendougee_data_ha.Base.{ℕ, ◌*◌, ◌-◌, List, [], ◌∷◌, ◌++◌, true, false, ok, ◌≡◌, refl, length}
use wendougee_data_ha.Base.Bytes.{Bytes, words}
use wendougee_data_ha.Crc.{append_crc, crc16_modbus}
use wendougee_data_ha.State.{
  Configuration, configuration_of, operating_state_of, decode_operating_state, decode_configuration,
  state, is_cleaning, is_idle,
}
use wendougee_data_ha.Command.{command_request}
use wendougee_data_ha.Session.{new, request_of, check_command}
use wendougee_data_ha.Reads.{crc_matches, validate_read_response}
use wendougee_data_ha.Telemetry.{parse_telemetry_response, decode_registers}
use wendougee_data_ha.Link.{Link, Transport, ◌>>=◌, transact, check, pure, sleep}
use wendougee_data_ha.Press.{read_state}
use wendougee_data_ha.Control.Boiler.{read_configuration}
use wendougee_data_ha.Control.Cleaning.{cleaning_duration}
use wendougee_data_ha.Coordinator.{Seen}
use wendougee_data_ha.Link.Traces.{Grows}
use wendougee_data_ha.Control.Rejections.{is_read}
use wendougee_data_ha.Execute.Watch.{
  CleaningResult, Watcher, observe, read_telemetry, conclude, advance, result_of, watch,
}
use wendougee_data_ha.Execute.Watch.Observed.{IsObservedFor, observe_only_reads}
use wendougee_data_ha.Execute.Watch.Observed.Samples.{IsLogged, IsShown}
use wendougee_data_ha.Execute.Watch.Observed.Shown.{observe-IsShown}
use wendougee_data_ha.Tests.Machine.{machine, opened, state_frame, configuration_frame}

abbrev zeros : List ℕ
zeros = 0 ∷ 0 ∷ 0 ∷ 0 ∷ 0 ∷ 0 ∷ 0 ∷ 0 ∷ 0 ∷ 0 ∷ 0 ∷ []

abbrev program : List ℕ
program = (10 ∷ 10 ∷ 1 ∷ 0 ∷ []) ++ (zeros ++ (zeros ++ zeros))

abbrev before : Configuration
before = configuration_of program

unfoldable telemetry_frame : Bytes
unfolding append_crc
telemetry_frame = append_crc ((1 ∷ 3 ∷ 44 ∷ []) ++ (zeros ++ (zeros ++ (zeros ++ zeros))))

-- the answers to come, and the samples that were shown, the latest first
abbrev World : Type 0
World = List Bytes × List Seen

-- every answer takes a second
abbrev watcher : Watcher World
watcher = record {
  time = λ w. (100 - length w.0) * 1000000;
  observe = λ s w. (w.0, s ∷ w.1);
  expired = λ w. false;
}

unfoldable logging : Transport World
unfolding machine
logging = record {
  allowed = machine.allowed;
  wire = λ request w. let (answer, frames) = machine.wire request w.0 in (answer, (frames, w.1));
  rest = λ n w. let (answer, frames) = machine.rest n w.0 in (answer, (frames, w.1));
  cancelled = λ w. false;
}

abbrev fresh : List Bytes → Link World
fresh frames = record { session = opened; history = []; world = (frames, []) }

logging-IsLogged : IsLogged watcher logging (λ w. w.1)
unfolding logging
logging-IsLogged = record { observe = λ s w. refl; wire = λ request w. refl; rest = λ n w. refl }

observe_only_reads_example :
    Grows is_read [] (observe watcher logging (before, operating_state_of 32) (fresh [])).1.history
observe_only_reads_example =
    observe_only_reads watcher logging before (operating_state_of 32) (fresh [])

abbrev answers : List Bytes
answers =
    telemetry_frame
    ∷ telemetry_frame
    ∷ state_frame 0
    ∷ telemetry_frame
    ∷ state_frame 0
    ∷ configuration_frame program
    ∷ []

abbrev shown : CleaningResult
shown = record {
  cleaning_time_seconds = 10;
  standing_time_seconds = 10;
  cleaning_count = 1;
  observed = 4000000;
  sample_count = 3;
  peak_pressure_bar = 0;
  saw_idle = true;
}

observed : (observe watcher logging (before, operating_state_of 32) (fresh answers)).0 ≡ ok shown
unfolding observe ◌>>=◌ cleaning_duration configuration_of read_telemetry transact new logging
    machine command_request append_crc request_of telemetry_frame check_command crc_matches
    parse_telemetry_response read_state state_frame decode_operating_state operating_state_of state
    validate_read_response read_configuration decode_configuration configuration_frame check pure
    conclude advance result_of crc16_modbus watch sleep is_cleaning is_idle decode_registers words
observed = refl

observe-IsShown_example :
    IsObservedFor before shown
    × IsShown before []
        (observe watcher logging (before, operating_state_of 32) (fresh answers)).1.world.1
        shown
observe-IsShown_example =
    observe-IsShown watcher logging (λ w. w.1) logging-IsLogged before (operating_state_of 32)
      (fresh answers) shown observed
