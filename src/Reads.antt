-- ===== src/Reads.antt =====
-- src/wendougee_data/reads.py: the four allowlisted reads, the check of one response and the
-- reassembly of a stream of fragments.
pub mod Frames
pub mod Stream
use wendougee_data_ha.Base.{
  ℕ, zero, suc, ◌+◌, ◌-◌, ◌*◌, ◌/◌, ◌%◌, List, [], ◌∷◌, ◌++◌, Bool, true, false, ◌&&◌, ◌||◌, not,
  Result, ok, err, value_error, device_exception, ◌>>=◌, ◌>>◌, require, ltb, leb, ◌==◌,
  if◌then◌else◌, length, take, drop, get_or, bit_and, bit_or,
}
use wendougee_data_ha.Base.Bytes.{Bytes, to_big, from_little, but_last_two, last_two}
use wendougee_data_ha.Crc.{append_crc, crc16_modbus}

pub data ReadOperation : Type 0 where
  telemetry configuration water_alarm_enabled operating_state : ReadOperation

-- `function`, `address` and `count` of the operation's value
abbrev pub function : ReadOperation → ℕ
function telemetry = 3
function configuration = 3
function water_alarm_enabled = 3
function operating_state = 1

abbrev pub address : ReadOperation → ℕ
address telemetry = 1404
address configuration = 0
address water_alarm_enabled = 396
address operating_state = 182

abbrev pub count : ReadOperation → ℕ
count telemetry = 22
count configuration = 37
count water_alarm_enabled = 1
count operating_state = 24

unfoldable pub byte_count : ReadOperation → ℕ
byte_count op = if function op == 3 then count op * 2 else (count op + 7) / 8

abbrev pub read_operations : List ReadOperation
read_operations = telemetry ∷ configuration ∷ water_alarm_enabled ∷ operating_state ∷ []

unfoldable pub build_read_request : ReadOperation → Bytes
build_read_request op =
    append_crc ((1 ∷ function op ∷ []) ++ to_big (address op) ++ to_big (count op))

-- the test of `_validate_crc`
unfoldable pub crc_matches : Bytes → Bool
unfolding but_last_two last_two
crc_matches frame = crc16_modbus (but_last_two frame) == from_little (last_two frame)

unfoldable pub validate_crc : Bytes → Result (Unit {0})
validate_crc frame = require (crc_matches frame) "response CRC mismatch"

unfoldable pub validate_read_response : Bytes → ReadOperation → Result Bytes
unfolding validate_crc byte_count but_last_two
validate_read_response frame op =
    if ltb (length frame) 5
    then err (value_error "response is too short")
    else if not (get_or frame 0 0 == 1)
    then err (value_error "unexpected slave address")
    else if get_or frame 1 0 == bit_or (function op) 0x80
    then (if not (length frame == 5)
        then err (value_error "invalid exception response length")
        else do validate_crc frame; err (device_exception (get_or frame 2 0)))
    else if not (get_or frame 1 0 == function op)
    then err (value_error "unexpected function")
    else if not (get_or frame 2 0 == byte_count op)
    then err (value_error "unexpected response byte count")
    else if not (length frame == byte_count op + 5)
    then err (value_error "unexpected response length")
    else do validate_crc frame; ok (drop 3 (but_last_two frame))
