-- ===== src/Session.antt =====
-- The state of a session and its callbacks: `ReadSession` of src/wendougee_data/session.py and
-- `ControlSession` of src/wendougee_data/control_session.py, which share one record.
pub mod Exchange
use wendougee_data_ha.Base.{
  ℕ, ◌+◌, ◌*◌, ◌/◌, List, [], ◌∷◌, ◌++◌, Bool, true, false, ◌&&◌, ◌||◌, not, Option, none, some,
  Error, Result, ok, err, value_error, device_exception, session_unavailable, ◌>>=◌, ltb, ◌==◌,
  if◌then◌else◌, length, take, get_or, bit_or,
}
use wendougee_data_ha.Base.Bytes.{Bytes, bytes_eq}
use wendougee_data_ha.Crc.{append_crc}
use wendougee_data_ha.Reads
use wendougee_data_ha.Reads.{ReadOperation, crc_matches, build_read_request, validate_read_response}
use wendougee_data_ha.Reads.Stream
use wendougee_data_ha.Reads.Stream.{Stream}
use wendougee_data_ha.Command.{Command, Operand, number, tuple, value, command_request}

-- `_operation`: the members of the two enumerations that an exchange can stand for
pub data Operation : Type 0 where
  read : ReadOperation → Operation
  command : Command → Operation

-- the request that each caller of `_exchange` passes with its operation
unfoldable pub request_of : Operation → Bytes
request_of (read op) = build_read_request op
request_of (command c) = command_request c

-- `_pending`: no future, an open one, and one that is done
pub data Pending : Type 0 where
  absent waiting : Pending
  resolved : Bytes → Pending
  failed : Error → Pending

pub record Session : Type 0 where
  pub active : Bool
  pub used : Bool
  pub failure : Option Error
  pub pending : Pending
  pub operation : Option Operation
  pub stream : Stream
  pub command_buffer : Bytes

unfoldable pub new : Session
unfolding Stream.new
new = record {
  active = false;
  used = false;
  failure = none;
  pending = absent;
  operation = none;
  stream = Stream.new;
  command_buffer = [];
}

abbrev keep_first : Option Error → Error → Option Error
keep_first none e = some e
keep_first (some first) e = some first

abbrev pub fail_pending : Pending → Error → Pending
fail_pending waiting e = failed e
fail_pending p e = p

-- `_invalidate`
unfoldable pub invalidate : Error → Session → Session
invalidate e s = record s { failure = keep_first s.failure e; pending = fail_pending s.pending e }

-- `_on_disconnect`
unfoldable pub on_disconnect : Session → Session
unfolding invalidate
on_disconnect s = invalidate (session_unavailable "transport disconnected") s

-- `_require_active`
unfoldable pub is_usable : Session → Bool
is_usable s = s.active && elim s.failure [ none ↦ true | some _ ↦ false ]

abbrev pub is_waiting : Pending → Bool
is_waiting waiting = true
is_waiting _ = false

-- the frames of a fed stream, when there are any
unfoldable pub check_frames : List Bytes → ℕ → ReadOperation → Result Bytes
check_frames [] pending_bytes op =
    err (value_error "multiple responses or unexpected trailing data")
check_frames (frame ∷ []) pending_bytes op =
    if not (pending_bytes == 0)
    then err (value_error "multiple responses or unexpected trailing data")
    else do _ ← validate_read_response frame op; ok frame
check_frames (frame ∷ _ ∷ _) pending_bytes op =
    err (value_error "multiple responses or unexpected trailing data")

-- the `except` and `else` of `ReadSession._on_data`
unfoldable pub settle_read : Result Bytes → Session → Session
unfolding invalidate
settle_read (err e) s = invalidate e s
settle_read (ok response) s = record s { pending = resolved response }

-- what follows the feeding of the stream
unfoldable pub on_frames : ReadOperation → Result (List Bytes) × Stream → Session → Session
unfolding settle_read check_frames
on_frames op (err e, stream) s = invalidate e (record s { stream = stream })
on_frames op (ok [], stream) s = record s { stream = stream }
on_frames op (ok (frame ∷ more), stream) s =
    settle_read (check_frames (frame ∷ more) (Stream.pending_bytes stream) op)
      (record s { stream = stream })

-- the `try` of `ReadSession._on_data`, on a fragment that the open read `op` waits for
unfoldable pub accept_read : ReadOperation → Bytes → Session → Session
unfolding on_frames
accept_read op fragment s = on_frames op (Stream.feed s.stream fragment) s

-- the size of a command's response, when it is no exception
unfoldable pub payload_size : ℕ → Operand → ℕ
payload_size function (tuple ws) = 0
payload_size function (number count) =
    if function == 1 then (count + 7) / 8 else if function == 3 then count * 2 else 0

abbrev pub is_read_function : ℕ → Bool
is_read_function function = (function == 1) || (function == 3)

unfoldable pub response_length : Command → Bool → ℕ
unfolding payload_size value
response_length c true = 5
response_length c false =
    if is_read_function (value c).function
    then payload_size (value c).function (value c).operand + 5
    else 8

-- the last tests, on a complete response with a valid CRC
unfoldable pub check_content : Command → Bool → Bytes → Result (Option Bytes)
unfolding payload_size value
check_content c true frame = err (device_exception (get_or frame 2 0))
check_content c false frame =
    let function = (value c).function in
    if (function == 5) || (function == 6)
    then (if bytes_eq frame (command_request c)
        then ok (some frame)
        else err (value_error "Control response echo mismatch"))
    else if function == 16
    then (if bytes_eq frame (append_crc (take 6 (command_request c)))
        then ok (some frame)
        else err (value_error "Profile write echo mismatch"))
    else if get_or frame 2 0 == payload_size function (value c).operand
    then ok (some frame)
    else err (value_error "Control response byte count mismatch")

-- The `try` of `ControlSession._on_data` on the bytes so far; `none` waits for more.
unfoldable pub check_command : Command → Bytes → Result (Option Bytes)
unfolding response_length check_content value
check_command c frame =
    let function = (value c).function in
    let exception = get_or frame 1 0 == bit_or function 0x80 in
    if ltb (length frame) 2
    then ok none
    else if not (get_or frame 0 0 == 1) || not ((get_or frame 1 0 == function) || exception)
    then err (value_error "Unexpected control response identity")
    else if ltb (response_length c exception) (length frame)
    then err (value_error "Extra command response bytes")
    else if ltb (length frame) (response_length c exception)
    then ok none
    else if not (crc_matches frame)
    then err (value_error "Control response CRC mismatch")
    else check_content c exception frame

-- the `except` and `else` of `ControlSession._on_data`
unfoldable pub settle_command : Result (Option Bytes) → Session → Session
unfolding invalidate
settle_command (err e) s = invalidate e s
settle_command (ok none) s = s
settle_command (ok (some response)) s = record s {
  command_buffer = [];
  pending = resolved response;
}

unfoldable pub accept_command : Command → Bytes → Session → Session
unfolding settle_command
accept_command c fragment s =
    let frame = s.command_buffer ++ fragment in
    settle_command (check_command c frame) (record s { command_buffer = frame })

abbrev pub accept : Option Operation → Bytes → Session → Session
accept none fragment s = invalidate (value_error "unsolicited or duplicate response") s
accept (some (read op)) fragment s = accept_read op fragment s
accept (some (command c)) fragment s = accept_command c fragment s

-- `_on_data` on a fragment, by the failure, by whether a future is open, and by the operation
unfoldable pub receive : Option Error → Bool → Option Operation → Bytes → Session → Session
unfolding invalidate accept_read accept_command
receive (some _) is_open op fragment s = s
receive none true op fragment s = accept op fragment s
receive none false op fragment s = invalidate (value_error "unsolicited or duplicate response") s

-- `_on_data`; the two classes differ here in nothing but the text of the error
unfoldable pub on_data : Bytes → Session → Session
unfolding receive
on_data [] s = s
on_data (b ∷ fragment) s = receive s.failure (is_waiting s.pending) s.operation (b ∷ fragment) s
