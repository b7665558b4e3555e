-- ===== src/Events.antt =====
-- src/wendougee_data/events.py: passive decoding of the FF55 event channel.
pub mod Heartbeats
use wendougee_data_ha.Base.{
  ℕ, ◌+◌, ◌-◌, ◌%◌, [], ◌∷◌, Bool, true, false, ◌&&◌, ◌||◌, not, Option, none, some, Result, ok,
  err, value_error, ◌>>=◌, ltb, ◌==◌, if◌then◌else◌, length, take, drop, get_or,
}
use wendougee_data_ha.Base.Bytes.{Bytes}

abbrev pub ff55_magic : Bytes
ff55_magic = 0xFF ∷ 0x55 ∷ []

abbrev pub opcode_prefix : Bytes
opcode_prefix = 0xFF ∷ 0x55 ∷ 0xFF ∷ 0xFF ∷ []

abbrev pub data_prefix : Bytes
data_prefix = 0xFF ∷ 0x55 ∷ 0x02 ∷ 0x59 ∷ 0x20 ∷ 0x00 ∷ []

abbrev pub heartbeat_opcode : ℕ
heartbeat_opcode = 0x83

pub data Ff55Variant : Type 0 where
  opcode_variant data_variant : Ff55Variant

pub record Ff55Frame : Type 0 where
  pub variant : Ff55Variant
  pub payload : Bytes
  pub opcode : Option ℕ

pub record HeartbeatEvent : Type 0 where
  pub marker : ℕ

-- `sum(body)`
unfoldable pub sum : Bytes → ℕ
sum [] = 0
sum (b ∷ bs) = b + sum bs

unfoldable pub ff55_checksum : Bytes → ℕ
unfolding sum
ff55_checksum body = (sum body + 1) % 256

-- `frame.startswith(prefix)`
abbrev pub starts_with : Bytes → Bytes → Bool
starts_with [] frame = true
starts_with (p ∷ ps) [] = false
starts_with (p ∷ ps) (b ∷ bs) = (b == p) && starts_with ps bs

-- `frame[:-1]` and `frame[-1]`
unfoldable pub but_last : Bytes → Bytes
but_last frame = take (length frame - 1) frame

unfoldable pub last : Bytes → ℕ
last frame = get_or frame (length frame - 1) 0

unfoldable pub parse_ff55_frame : Bytes → Result Ff55Frame
unfolding ff55_checksum but_last last
parse_ff55_frame frame =
    if ltb (length frame) 8
    then err (value_error "FF55 frame is too short")
    else if not (starts_with ff55_magic frame)
    then err (value_error "FF55 magic mismatch")
    else if not (last frame == ff55_checksum (but_last frame))
    then err (value_error "FF55 checksum mismatch")
    else if starts_with opcode_prefix frame
    then (if not (get_or frame 5 0 == 0)
        then err (value_error "FF55 opcode reserved byte must be zero")
        else if not (length frame == 8 + get_or frame 6 0)
        then err (value_error "FF55 opcode length mismatch")
        else ok (record {
          variant = opcode_variant;
          payload = drop 7 (but_last frame);
          opcode = some (get_or frame 4 0);
        }))
    else if starts_with data_prefix frame
    then (if not (length frame == 8 + get_or frame 6 0)
        then err (value_error "FF55 data length mismatch")
        else ok
            (record { variant = data_variant; payload = drop 7 (but_last frame); opcode = none }))
    else err (value_error "unknown FF55 framing variant")

is_heartbeat : Ff55Variant → Option ℕ → Bytes → Bool
is_heartbeat data_variant opcode payload = false
is_heartbeat opcode_variant none payload = false
is_heartbeat opcode_variant (some opcode) payload =
    (opcode == heartbeat_opcode) && (length payload == 1)

unfoldable pub decode_heartbeat : Ff55Frame → Result HeartbeatEvent
unfolding is_heartbeat
decode_heartbeat parsed =
    if not (is_heartbeat parsed.variant parsed.opcode parsed.payload)
    then err (value_error "not an FF55 heartbeat event")
    else if not ((get_or parsed.payload 0 0 == 0) || (get_or parsed.payload 0 0 == 1))
    then err (value_error "FF55 heartbeat marker is not binary")
    else ok (record { marker = get_or parsed.payload 0 0 })

unfoldable pub parse_heartbeat_event : Bytes → Result HeartbeatEvent
unfolding decode_heartbeat
parse_heartbeat_event frame = do parsed ← parse_ff55_frame frame; decode_heartbeat parsed
