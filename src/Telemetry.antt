-- ===== src/Telemetry.antt =====
-- src/wendougee_data/telemetry.py. A float that is a register divided by ten is kept as the
-- register, that is in tenths of its unit; no arithmetic is done on it but comparison.
use wendougee_data_ha.Base.{
  ℕ, ◌+◌, ◌-◌, ◌*◌, List, [], ◌++◌, Bool, not, Option, none, some, Result, ok, err, value_error,
  ltb, ◌==◌, if◌then◌else◌, length, drop, get_or,
}
use wendougee_data_ha.Base.Bytes.{Bytes, words, but_last_two, last_two, from_little}
use wendougee_data_ha.Crc.{crc16_modbus}
use wendougee_data_ha.Modbus.{default_slave_address, read_holding_registers}

abbrev pub Tenths : Type 0
Tenths = ℕ

abbrev pub telemetry_start_register : ℕ
telemetry_start_register = 1404

abbrev pub telemetry_register_count : ℕ
telemetry_register_count = 22

abbrev pub telemetry_byte_count : ℕ
telemetry_byte_count = telemetry_register_count * 2

abbrev pub telemetry_response_length : ℕ
telemetry_response_length = telemetry_byte_count + 5

pub record Telemetry : Type 0 where
  pub elapsed_brew_time_seconds : Tenths
  pub water_level_alarm : Bool
  pub steam_boiler_temperature_celsius : Tenths
  pub brew_boiler_temperature_celsius : Tenths
  pub pressure_bar : Tenths
  pub dispensed_volume_ml : ℕ
  pub scale_weight_grams : Tenths
  pub pump_active_time_seconds : ℕ
  pub instantaneous_flow_ml_per_second : ℕ
  pub weight_rate_grams_per_second : Tenths

-- the returned value, from the tuple of registers
unfoldable pub decode_registers : List ℕ → Telemetry
decode_registers registers =
    let at = λ (register : ℕ). get_or registers (register - telemetry_start_register) 0 in
    record {
      elapsed_brew_time_seconds = at 1405;
      water_level_alarm = not (at 1406 == 0);
      steam_boiler_temperature_celsius = at 1408;
      brew_boiler_temperature_celsius = at 1409;
      pressure_bar = at 1410;
      dispensed_volume_ml = at 1411;
      scale_weight_grams = at 1412;
      pump_active_time_seconds = at 1417;
      instantaneous_flow_ml_per_second = at 1422;
      weight_rate_grams_per_second = at 1423;
    }

unfoldable pub parse_telemetry_response : Bytes → Result Telemetry
unfolding but_last_two last_two
parse_telemetry_response frame =
    if not (length frame == telemetry_response_length)
    then err (value_error "telemetry response length must be 49 bytes")
    else if not (get_or frame 0 0 == default_slave_address)
    then err (value_error "unexpected Modbus slave address")
    else if not (get_or frame 1 0 == read_holding_registers)
    then err (value_error "unexpected Modbus function")
    else if not (get_or frame 2 0 == telemetry_byte_count)
    then err (value_error "telemetry byte count must be 44")
    else if not (crc16_modbus (but_last_two frame) == from_little (last_two frame))
    then err (value_error "telemetry response CRC mismatch")
    else ok (decode_registers (words (drop 3 (but_last_two frame))))

-- the assembler's buffer
pub record TelemetryResponseAssembler : Type 0 where
  pub buffer : Bytes

unfoldable pub new : TelemetryResponseAssembler
new = record { buffer = [] }

map_some : Result Telemetry → Result (Option Telemetry)
map_some (ok t) = ok (some t)
map_some (err e) = err e

unfoldable pub feed :
    TelemetryResponseAssembler → Bytes → Result (Option Telemetry) × TelemetryResponseAssembler
unfolding map_some
feed assembler fragment =
    let buffer = assembler.buffer ++ fragment in
    (
      (if ltb telemetry_response_length (length buffer)
          then err (value_error "telemetry response is longer than one expected frame")
          else if ltb (length buffer) telemetry_response_length
          then ok none
          else map_some (parse_telemetry_response buffer)),
      record { buffer = buffer },
    )
