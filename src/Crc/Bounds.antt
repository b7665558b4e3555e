-- ===== src/Crc/Bounds.antt =====
-- The CRC register never leaves 16 bits, and no round forgets anything of it.
use wendougee_data_ha.Base.{ℕ, zero, suc, ◌/◌, ◌^◌, ◌<◌, ◌≡◌, ◌≢◌, arith, [], ◌∷◌, ◌++◌, bit_xor}
use wendougee_data_ha.Base.Bytes.{Bytes, IsBytes}
use wendougee_data_ha.Base.Bits.{
  bit_and-one, bit_xor-lt, bit_xor-top, bit_xor-left_injective, bit_xor-right_injective,
}
use wendougee_data_ha.Crc.{crc_bit, crc_bits, crc_byte, crc_loop, crc16_modbus}

crc_bit-lt : (c : ℕ) → c < 2 ^ 16 → crc_bit c < 2 ^ 16
unfolding crc_bit
crc_bit-lt c h = ground (arith, bit_xor-lt 16 (c / 2) 0xA001)

crc_bits-lt : (n c : ℕ) → c < 2 ^ 16 → crc_bits n c < 2 ^ 16
unfolding crc_bits
crc_bits-lt zero c h = h
crc_bits-lt (suc n) c h = crc_bits-lt n (crc_bit c) (crc_bit-lt c h)

pub crc_byte-lt : (c b : ℕ) → c < 2 ^ 16 → b < 256 → crc_byte c b < 2 ^ 16
unfolding crc_byte
crc_byte-lt c b h k = crc_bits-lt 8 (bit_xor c b) (bit_xor-lt 16 c b h (omega arith))

pub crc_loop-lt : (c : ℕ) (bytes : Bytes) → c < 2 ^ 16 → IsBytes bytes → crc_loop c bytes < 2 ^ 16
unfolding crc_loop
crc_loop-lt c [] h k = h
crc_loop-lt c (b ∷ bs) h k = crc_loop-lt (crc_byte c b) bs (crc_byte-lt c b h k.0) k.1

-- The CRC of a byte string fits two bytes, so `to_bytes(2)` never overflows.
pub crc16_modbus-lt : (bytes : Bytes) → IsBytes bytes → crc16_modbus bytes < 2 ^ 16
unfolding crc16_modbus
crc16_modbus-lt bytes h = crc_loop-lt 0xFFFF bytes (omega arith) h

crc_bit-injective : (c d : ℕ) → c < 2 ^ 16 → d < 2 ^ 16 → crc_bit c ≡ crc_bit d → c ≡ d
unfolding crc_bit
crc_bit-injective c d h k e = ground (
  arith,
  bit_and-one c,
  bit_and-one d,
  bit_xor-top 15 (c / 2) 0x2001,
  bit_xor-top 15 (d / 2) 0x2001,
  bit_xor-left_injective (c / 2) (d / 2) 0xA001,
)

crc_bits-injective : (n c d : ℕ) → c < 2 ^ 16 → d < 2 ^ 16 → crc_bits n c ≡ crc_bits n d → c ≡ d
unfolding crc_bits
crc_bits-injective zero c d h k e = e
crc_bits-injective (suc n) c d h k e =
    crc_bit-injective c d h k
      (crc_bits-injective n (crc_bit c) (crc_bit d) (crc_bit-lt c h) (crc_bit-lt d k) e)

crc_byte-injective_state :
    (c d b : ℕ) → c < 2 ^ 16 → d < 2 ^ 16 → b < 256 → crc_byte c b ≡ crc_byte d b → c ≡ d
unfolding crc_byte
crc_byte-injective_state c d b h k l e = bit_xor-left_injective c d b (
    crc_bits-injective 8 (bit_xor c b) (bit_xor d b) (bit_xor-lt 16 c b h (omega arith))
      (bit_xor-lt 16 d b k (omega arith)) e)

crc_byte-injective_byte :
    (c a b : ℕ) → c < 2 ^ 16 → a < 256 → b < 256 → crc_byte c a ≡ crc_byte c b → a ≡ b
unfolding crc_byte
crc_byte-injective_byte c a b h k l e = bit_xor-right_injective a b c (
    crc_bits-injective 8 (bit_xor c a) (bit_xor c b) (bit_xor-lt 16 c a h (omega arith))
      (bit_xor-lt 16 c b h (omega arith)) e)

crc_loop-injective_state :
    (bytes : Bytes) (c d : ℕ)
    → c < 2 ^ 16
    → d < 2 ^ 16
    → IsBytes bytes
    → crc_loop c bytes ≡ crc_loop d bytes
    → c ≡ d
unfolding crc_loop
crc_loop-injective_state [] c d h k l e = e
crc_loop-injective_state (b ∷ bs) c d h k l e = crc_byte-injective_state c d b h k l.0 (
    crc_loop-injective_state bs (crc_byte c b) (crc_byte d b) (crc_byte-lt c b h l.0)
      (crc_byte-lt d b k l.0) l.1 e)

-- Two texts that differ in one byte have different CRCs, whatever stands before and after it.
crc_loop_one_byte :
    (before after : Bytes) (c a b : ℕ)
    → c < 2 ^ 16
    → IsBytes before
    → a < 256
    → b < 256
    → IsBytes after
    → crc_loop c (before ++ a ∷ after) ≡ crc_loop c (before ++ b ∷ after)
    → a ≡ b
unfolding crc_loop
crc_loop_one_byte [] after c a b h p ha hb q e = crc_byte-injective_byte c a b h ha hb (
    crc_loop-injective_state after (crc_byte c a) (crc_byte c b) (crc_byte-lt c a h ha)
      (crc_byte-lt c b h hb) q e)
crc_loop_one_byte (x ∷ before) after c a b h p ha hb q e =
    crc_loop_one_byte before after (crc_byte c x) a b (crc_byte-lt c x h p.0) p.1 ha hb q e

pub crc16_modbus_byte_injective :
    (before after : Bytes) (a b : ℕ)
    → IsBytes before
    → a < 256
    → b < 256
    → IsBytes after
    → crc16_modbus (before ++ a ∷ after) ≡ crc16_modbus (before ++ b ∷ after)
    → a ≡ b
unfolding crc16_modbus
crc16_modbus_byte_injective before after a b p ha hb q e =
    crc_loop_one_byte before after 0xFFFF a b (omega arith) p ha hb q e

-- The CRCs of two byte strings that differ in one byte differ, at every place in strings of every
-- length.
pub crc16_modbus_detects_one_byte :
    (before after : Bytes) (a b : ℕ)
    → IsBytes before
    → a < 256
    → b < 256
    → IsBytes after
    → a ≢ b
    → crc16_modbus (before ++ a ∷ after) ≢ crc16_modbus (before ++ b ∷ after)
crc16_modbus_detects_one_byte before after a b p ha hb q ne e =
    ne (crc16_modbus_byte_injective before after a b p ha hb q e)
