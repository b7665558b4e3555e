-- ===== src/Crc.antt =====
-- src/wendougee_data/crc.py
pub mod Bounds
use wendougee_data_ha.Base.{
  ℕ, zero, suc, ◌/◌, List, [], ◌∷◌, ◌++◌, Bool, ◌==◌, if◌then◌else◌, bit_and, bit_xor,
}
use wendougee_data_ha.Base.Bytes.{Bytes, to_little}

-- one round of the inner loop
unfoldable pub crc_bit : ℕ → ℕ
crc_bit crc = if bit_and crc 1 == 0 then crc / 2 else bit_xor (crc / 2) 0xA001

-- the inner loop, with the rounds left
unfoldable pub crc_bits : ℕ → ℕ → ℕ
unfolding crc_bit
crc_bits zero crc = crc
crc_bits (suc n) crc = crc_bits n (crc_bit crc)

-- one round of the outer loop
unfoldable pub crc_byte : ℕ → ℕ → ℕ
unfolding crc_bits
crc_byte crc byte = crc_bits 8 (bit_xor crc byte)

-- the outer loop
unfoldable pub crc_loop : ℕ → Bytes → ℕ
unfolding crc_byte
crc_loop crc [] = crc
crc_loop crc (byte ∷ rest) = crc_loop (crc_byte crc byte) rest

unfoldable pub crc16_modbus : Bytes → ℕ
unfolding crc_loop
crc16_modbus bytes = crc_loop 0xFFFF bytes

unfoldable pub append_crc : Bytes → Bytes
unfolding crc16_modbus
append_crc bytes = bytes ++ to_little (crc16_modbus bytes)
