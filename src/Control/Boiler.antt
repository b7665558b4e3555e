-- ===== src/Control/Boiler.antt =====
-- `set_boiler` of src/wendougee_data/control_session.py.
use wendougee_data_ha.Base.{
  ℕ, List, Bool, true, false, ◌||◌, Option, none, some, Error, value_error, control_rejected,
  runtime_error, ◌==◌, if◌then◌else◌, get_or, set, not,
}
use wendougee_data_ha.Base.Bytes.{Bytes, bytes_eq}
use wendougee_data_ha.Telemetry.{Telemetry, parse_telemetry_response}
use wendougee_data_ha.Controls.{
  BoilerSetting, flag, register, is_enable, build_boiler_setting_request,
}
use wendougee_data_ha.Command.{Command, configuration, telemetry, commands, find_command}
use wendougee_data_ha.State.{Configuration, decode_configuration}
use wendougee_data_ha.Link.{Transport, M, pure, lift, raise, check, ◌>>=◌, ◌>>◌, transact}
use wendougee_data_ha.Press.{require_idle}

-- `0 if enabled else 1`
abbrev pub encoding : Bool → ℕ
encoding true = 0
encoding false = 1

abbrev pub alarm_active : Error
alarm_active = control_rejected "Water shortage alarm is active"

module _ {W : Type 0} (tr : Transport W) where
  unfoldable pub read_configuration : M W Configuration
  read_configuration = do frame ← transact tr configuration; lift (decode_configuration frame)

  -- the reading of the telemetry and the test of the alarm
  unfoldable pub require_water : M W Telemetry
  require_water = do
    frame ← transact tr telemetry
    t ← lift (parse_telemetry_response frame)
    check (not t.water_level_alarm) alarm_active
    pure t

  -- `if enabled:`
  unfoldable pub require_safe : Bool → M W (Unit {0})
  unfolding require_water
  require_safe false = pure tt
  require_safe true = do _ ← require_water; _ ← require_idle tr; pure tt

  -- the search for the command
  unfoldable pub command_for : Option Command → M W Command
  command_for none = raise (runtime_error "coroutine raised StopIteration")
  command_for (some c) = pure c

  -- from the write on
  unfoldable pub write_and_verify : Command → List ℕ → M W Configuration
  write_and_verify c expected = do
    _ ← transact tr c
    after ← read_configuration
    check (bytes_eq after.raw_registers expected)
        (value_error "Boiler configuration readback mismatch")
    pure after

  -- from the comparison with the requested state on
  unfoldable pub change_boiler : BoilerSetting → Bool → Bytes → Configuration → M W Configuration
  unfolding require_safe command_for write_and_verify
  change_boiler setting enabled request before =
      if get_or before.raw_registers (register setting) 0 == encoding enabled
      then pure before
      else do
        _ ← require_safe enabled
        c ← command_for (find_command commands request)
        write_and_verify c (set before.raw_registers (register setting) (encoding enabled))

  unfoldable pub set_boiler : BoilerSetting → Bool → M W Configuration
  unfolding change_boiler read_configuration
  set_boiler setting enabled = do
    _ ← check (is_enable setting) (control_rejected "Only boiler enable settings are supported")
    request ← lift (build_boiler_setting_request setting (flag enabled))
    before ← read_configuration
    _ ← require_idle tr
    _ ←
        check
          ((get_or before.raw_registers (register setting) 0 == 0)
            || (get_or before.raw_registers (register setting) 0 == 1))
          (control_rejected "Unknown boiler enable encoding")
    change_boiler setting enabled request before
