-- ===== src/Tests/Frames.antt =====
-- A response of the operating state, whole, damaged and in two fragments.
use wendougee_data_ha.Base.{
  [], ◌∷◌, ◌++◌, false, ok, ◌≡◌, ◌≢◌, ◌↔◌, ◌<◌, ◌≤◌, ◌+◌, ◌^◌, refl, arith, length,
}
use wendougee_data_ha.Base.Bytes.{Bytes}
use wendougee_data_ha.Crc.{crc16_modbus}
use wendougee_data_ha.Crc.Bounds.{crc16_modbus-lt, crc16_modbus_detects_one_byte}
use wendougee_data_ha.Reads
use wendougee_data_ha.Reads.{validate_read_response, byte_count, crc_matches}
use wendougee_data_ha.Reads.Frames.{
  validate_read_response_iff, validate_read_response_detects, response, framed,
}
use wendougee_data_ha.Reads.Stream.{feed, new, extract_loop, extract, next_frame}
use wendougee_data_ha.Reads.Stream.Coalescing.{feed-append, extract_loop_fuel}

abbrev header : Bytes
header = 1 ∷ 1 ∷ 3 ∷ []

crc16_modbus-lt_example : crc16_modbus header < 2 ^ 16
crc16_modbus-lt_example = crc16_modbus-lt header (ground arith)

crc16_modbus_detects_one_byte_example :
    crc16_modbus (1 ∷ 1 ∷ 3 ∷ 5 ∷ []) ≢ crc16_modbus (1 ∷ 1 ∷ 4 ∷ 5 ∷ [])
crc16_modbus_detects_one_byte_example =
    crc16_modbus_detects_one_byte (1 ∷ 1 ∷ []) (5 ∷ []) 3 4 (ground arith) (ground arith)
      (ground arith) (ground arith) (ground arith)

abbrev payload : Bytes
payload = 5 ∷ 0 ∷ 0 ∷ []

abbrev frame : Bytes
frame = framed (1 ∷ 1 ∷ 3 ∷ []) 5 (0 ∷ 0 ∷ []) 0x2C 0x4F

validate_read_response_iff_example :
    (validate_read_response frame Reads.operating_state ≡ ok payload) ↔ (
      (length payload ≡ byte_count Reads.operating_state)
      × (frame ≡ response Reads.operating_state payload))
validate_read_response_iff_example =
    validate_read_response_iff frame Reads.operating_state payload (ground arith)

accepts : validate_read_response frame Reads.operating_state ≡ ok payload
unfolding validate_read_response crc_matches crc16_modbus
accepts = refl

-- the first payload byte, 5, read as 4
validate_read_response_detects_example :
    validate_read_response (framed (1 ∷ 1 ∷ 3 ∷ []) 4 (0 ∷ 0 ∷ []) 0x2C 0x4F) Reads.operating_state
    ≢ ok (4 ∷ 0 ∷ 0 ∷ [])
validate_read_response_detects_example =
    validate_read_response_detects Reads.operating_state (1 ∷ 1 ∷ 3 ∷ []) (0 ∷ 0 ∷ []) 5 4 0x2C 0x4F
      payload (4 ∷ 0 ∷ 0 ∷ []) (ground arith) (ground arith) (ground arith) (ground arith)
      (ground arith) accepts

abbrev rest : Bytes
rest = 5 ∷ 0 ∷ 0 ∷ 0x2C ∷ 0x4F ∷ []

fresh : new.failed ≡ false
unfolding new
fresh = refl

room : length new.buffer + length (header ++ rest) ≤ 512
unfolding new
room = ground arith

waits : (feed new header).0 ≡ ok []
unfolding feed extract extract_loop new next_frame
waits = refl

completes : (feed (feed new header).1 rest).0 ≡ ok (frame ∷ [])
unfolding feed extract extract_loop new next_frame crc_matches crc16_modbus
completes = refl

feed-append_example :
    feed new (header ++ rest) ≡ (ok (frame ∷ []), (feed (feed new header).1 rest).1)
feed-append_example = feed-append new header rest [] (frame ∷ []) fresh room waits completes

extract_loop_fuel_example : extract_loop 8 frame [] ≡ extract_loop 100 frame []
extract_loop_fuel_example = extract_loop_fuel 8 100 frame [] (ground arith) (ground arith)
