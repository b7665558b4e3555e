-- ===== src/Reads/Stream.antt =====
-- `ReadResponseStream` of src/wendougee_data/reads.py.
pub mod Coalescing
use wendougee_data_ha.Base.{
  ℕ, zero, suc, ◌+◌, ◌%◌, List, [], ◌∷◌, ◌++◌, Bool, true, false, ◌&&◌, ◌||◌, not, Result, ok, err,
  value_error, ◌>>=◌, ltb, leb, ◌==◌, if◌then◌else◌, length, take, drop, get_or, bit_and,
}
use wendougee_data_ha.Base.Bytes.{Bytes}
use wendougee_data_ha.Reads.{crc_matches}

pub record Stream : Type 0 where
  pub buffer : Bytes
  pub failed : Bool

unfoldable pub new : Stream
new = record { buffer = []; failed = false }

unfoldable pub pending_bytes : Stream → ℕ
pending_bytes s = length s.buffer

-- the length that the header asks for, or the error
unfoldable pub expected_length : ℕ → ℕ → Result ℕ
expected_length function count =
    if not (bit_and function 0x80 == 0)
    then ok 5
    else if not (leb 1 count && leb count 250) || ((function == 3) && not (count % 2 == 0))
    then err (value_error "invalid response byte count")
    else ok (count + 5)

-- `function in (1, 3, 0x81, 0x83)`
unfoldable pub is_read_function : ℕ → Bool
is_read_function f = (f == 1) || ((f == 3) || ((f == 0x81) || (f == 0x83)))

-- the rest of a round once the length is known
complete_frame : Bytes → ℕ → Result (Bool × ℕ)
complete_frame buffer size =
    if ltb (length buffer) size
    then ok (false, 0)
    else if not (crc_matches (take size buffer))
    then err (value_error "response CRC mismatch")
    else ok (true, size)

-- `false` is `break`; `true` comes with the length of a frame of that length to check and to take off
unfoldable pub next_frame : Bytes → Result (Bool × ℕ)
unfolding expected_length is_read_function complete_frame
next_frame buffer =
    if not (get_or buffer 0 0 == 1)
    then err (value_error "unexpected slave address in stream")
    else if ltb (length buffer) 2
    then ok (false, 0)
    else if not (is_read_function (get_or buffer 1 0))
    then err (value_error "unexpected function in stream")
    else if ltb (length buffer) 3
    then ok (false, 0)
    else expected_length (get_or buffer 1 0) (get_or buffer 2 0) >>= complete_frame buffer

-- the `while` loop, with fuel for the rounds; a round that goes on takes off 5 bytes at least
unfoldable pub extract_loop : ℕ → Bytes → List Bytes → Result (List Bytes × Bytes)
extract_loop fuel [] frames = ok (frames, [])
extract_loop zero (b ∷ bs) frames = ok (frames, b ∷ bs)
extract_loop (suc fuel) (b ∷ bs) frames = elim (next_frame (b ∷ bs)) [
  | err e ↦ err e
  | ok (false, _) ↦ ok (frames, b ∷ bs)
  | ok (true, size) ↦ extract_loop fuel (drop size (b ∷ bs)) (frames ++ (take size (b ∷ bs) ∷ []))
]

unfoldable pub extract : Bytes → Bytes → Result (List Bytes × Bytes)
unfolding extract_loop
extract buffer fragment =
    if ltb 512 (length buffer + length fragment)
    then err (value_error "response buffer limit exceeded")
    else extract_loop (length (buffer ++ fragment)) (buffer ++ fragment) []

unfoldable pub feed : Stream → Bytes → Result (List Bytes) × Stream
feed s fragment =
    if s.failed
    then (err (value_error "response stream has failed"), s)
    else elim (extract s.buffer fragment) [
      | ok (frames, rest) ↦ (ok frames, record { buffer = rest; failed = false })
      | err e ↦ (err e, record { buffer = []; failed = true })
    ]
