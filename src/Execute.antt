-- ===== src/Execute.antt =====
-- src/custom_components/wendougee_data/control.py: each control runs in a session of its own,
-- whose transport lets through a fixed set of requests.
pub mod Attempts
pub mod Watch
use wendougee_data_ha.Base.{
  ℕ, ◌-◌, List, [], ◌∷◌, ◌++◌, Bool, true, not, Option, none, some, Error, Result, ok, err,
  control_rejected, runtime_error, cancelled_error, ltb, leb, if◌then◌else◌, map, length,
}
use wendougee_data_ha.Base.Bytes.{Bytes}
use wendougee_data_ha.Telemetry.{Telemetry, parse_telemetry_response}
use wendougee_data_ha.Controls.{BoilerSetting, flag, is_enable, build_boiler_setting_request}
use wendougee_data_ha.Command.{
  Command, commands, command_request, find_command, active_chunks, profile_chunk_commands,
}
use wendougee_data_ha.State
use wendougee_data_ha.State.{Configuration, OperatingState, is_idle, is_cleaning}
use wendougee_data_ha.Link.{Transport, M, pure, lift, check, ◌>>=◌, transact}
use wendougee_data_ha.Lifecycle.{Route, Ended, transport, with_session}
use wendougee_data_ha.Press.{read_state}
use wendougee_data_ha.Control.Boiler.{set_boiler}
use wendougee_data_ha.Control.Audit.{Report, unconnected, failure_kind, audit_profile_reads}
use wendougee_data_ha.Control.Profile.{start_stored_profile}
use wendougee_data_ha.Control.Preparation.{Backup, Prepared, prepare_pilot_profile}

abbrev pub read_commands : List Command
read_commands = Command.configuration ∷ Command.telemetry ∷ Command.state ∷ []

abbrev pub profile_commands : List Command
profile_commands =
    read_commands
    ++ (Command.profile_mode ∷ Command.profile_press ∷ Command.profile_release ∷ active_chunks)

abbrev pub preparation_commands : List Command
preparation_commands =
    read_commands
    ++ (Command.profile_modes
        ∷ (profile_chunk_commands ++ (Command.pilot_header ∷ Command.pilot_stage ∷ [])))

abbrev pub cleaning_commands : List Command
cleaning_commands = read_commands ++ (Command.cleaning_press ∷ Command.cleaning_release ∷ [])

-- `frozenset(command_request(c) for c in commands)`
unfoldable pub requests : List Command → List Bytes
requests cs = map command_request cs

-- what the negotiated link allows: `mtu_size`, and the size limit of unacknowledged writes
-- where the characteristic has them
pub record Limits : Type 0 where
  pub mtu_size : ℕ
  pub max_write : Option ℕ

-- `max(len(command_request(c)) for c in commands)`
unfoldable pub largest : List Command → ℕ
largest [] = 0
largest (c ∷ cs) =
    let rest = largest cs in
    if ltb rest (length (command_request c)) then length (command_request c) else rest

write_fits : Option ℕ → ℕ → Bool
write_fits none size = true
write_fits (some limit) size = leb size limit

module _ {W : Type 0} (route : Route W) where
  pub run : {A : Type 0} → List Command → (Transport W → M W A) → W → Result A × Ended W
  run cs program world = with_session route (program (transport route (requests cs))) world

  nothing_sent : {A : Type 0} → Error → W → Result A × Ended W
  nothing_sent e world = (err e, record { history = []; world = world })

  boiler_run : BoilerSetting → Bool → Option Command → W → Result Configuration × Ended W
  unfolding run nothing_sent
  boiler_run setting enabled none world =
      nothing_sent (runtime_error "coroutine raised StopIteration") world
  boiler_run setting enabled (some write) world =
      run (write ∷ read_commands) (λ tr. set_boiler tr setting enabled) world

  boiler_request : BoilerSetting → Bool → Result Bytes → W → Result Configuration × Ended W
  unfolding boiler_run
  boiler_request setting enabled (err e) world = nothing_sent e world
  boiler_request setting enabled (ok request) world =
      boiler_run setting enabled (find_command commands request) world

  unfoldable pub execute_boiler : BoilerSetting → Bool → W → Result Configuration × Ended W
  unfolding boiler_request
  execute_boiler setting enabled world =
      if not (is_enable setting)
      then nothing_sent (control_rejected "Only boiler enable settings are supported") world
      else boiler_request setting enabled (build_boiler_setting_request setting (flag enabled))
          world

  -- the program of `execute_profile`
  unfoldable pub start_and_read : Transport W → M W (Telemetry × OperatingState)
  start_and_read tr = do
    s ← start_stored_profile tr
    frame ← transact tr Command.telemetry
    t ← lift (parse_telemetry_response frame)
    pure (t, s)

  unfoldable pub execute_profile : W → Result (Telemetry × OperatingState) × Ended W
  unfolding run start_and_read
  execute_profile world = run profile_commands start_and_read world

  -- the program of `execute_profile_preparation`, with the limits of the link
  unfoldable pub prepare_within : Limits → (Backup → M W (Unit {0})) → Transport W → M W Prepared
  unfolding largest write_fits
  prepare_within limits backup tr = do
    let size = largest preparation_commands
    _ ←
        check (leb size (limits.mtu_size - 3))
          (control_rejected "Negotiated Bluetooth payload too small for profile")
    _ ←
        check (write_fits limits.max_write size)
          (control_rejected "Bluetooth write limit too small for profile")
    prepare_pilot_profile tr backup

  unfoldable pub execute_profile_preparation :
      Limits → (Backup → M W (Unit {0})) → W → Result Prepared × Ended W
  unfolding run prepare_within
  execute_profile_preparation limits backup world =
      run preparation_commands (prepare_within limits backup) world

  unfoldable pub check_idle : Transport W → M W (Unit {0})
  check_idle tr = do
    s ← read_state tr
    check (is_idle (State.state s))
        (control_rejected "Machine must report idle before clearing uncertainty")

  unfoldable pub verify_idle : W → Result (Unit {0}) × Ended W
  unfolding run check_idle
  verify_idle world = run (Command.state ∷ []) check_idle world

  -- `except Exception` round the session of an audit
  audited : Result Report × Ended W → Result Report × Ended W
  audited (ok report, ended) = (ok report, ended)
  audited (err cancelled_error, ended) = (err cancelled_error, ended)
  audited (err e, ended) = (ok (unconnected (failure_kind e)), ended)

  unfoldable pub execute_profile_read_audit : W → Result Report × Ended W
  unfolding run audited
  execute_profile_read_audit world = audited (
      run (Command.state ∷ Command.profile_modes ∷ profile_chunk_commands) audit_profile_reads
        world)
