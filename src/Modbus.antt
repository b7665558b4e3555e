-- ===== src/Modbus.antt =====
-- src/wendougee_data/modbus.py: the bounded function-03 request.
-- The arguments are natural numbers, so the lower bounds on addresses hold by their type.
use wendougee_data_ha.Base.{ℕ, ◌+◌, [], ◌∷◌, ◌++◌, Result, ok, err, value_error, ltb, if◌then◌else◌}
use wendougee_data_ha.Base.Bytes.{Bytes, to_big}
use wendougee_data_ha.Crc.{append_crc}

abbrev pub read_holding_registers : ℕ
read_holding_registers = 0x03

abbrev pub default_slave_address : ℕ
default_slave_address = 0x01

abbrev pub max_read_register_count : ℕ
max_read_register_count = 125

unfoldable pub build_read_holding_registers_request : ℕ → ℕ → ℕ → Result Bytes
build_read_holding_registers_request start_address count slave_address =
    if ltb 0xFF slave_address
    then err (value_error "slave address must fit in one byte")
    else if ltb 0xFFFF start_address
    then err (value_error "start address must fit in two bytes")
    else if ltb count 1
    then err (value_error "count must be between 1 and 125 registers")
    else if ltb max_read_register_count count
    then err (value_error "count must be between 1 and 125 registers")
    else if ltb 0x10000 (start_address + count)
    then err (value_error "requested address range exceeds the register address space")
    else ok (
        append_crc
          ((slave_address ∷ read_holding_registers ∷ []) ++ to_big start_address ++ to_big count))
