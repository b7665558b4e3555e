-- ===== src/Session/Exchange.antt =====
-- What the callbacks keep while an exchange waits: the operation, the active flag, and that a
-- future that is done holds a checked response or an error that is no `ControlRejected`.
use wendougee_data_ha.Base.{
  ℕ, zero, suc, ◌+◌, length, ltb, List, [], ◌∷◌, ◌++◌, Bool, true, false, Option, none, some, Error,
  Result, ok, err, is_control_rejected, ◌≡◌, refl, sym, arith, inl, inr, Bool-cases, Result-cases,
}
use wendougee_data_ha.Base.Bytes.{Bytes}
use wendougee_data_ha.Reads.{ReadOperation, validate_read_response}
use wendougee_data_ha.Reads.Stream
use wendougee_data_ha.Reads.Stream.{Stream}
use wendougee_data_ha.Command.{Command}
use wendougee_data_ha.Session.{
  Session, Operation, Pending, read, command, absent, waiting, resolved, failed, invalidate,
  on_data, on_disconnect, accept, receive, is_waiting, accept_read, accept_command, settle_read,
  settle_command, on_frames, fail_pending, check_frames, check_command, check_content,
}
use mathlib.Core.Path.{subst}

abbrev pub Accepted : Operation → Bytes → Type 0
Accepted (read op) frame = (payload : Bytes) × (validate_read_response frame op ≡ ok payload)
Accepted (command c) frame = check_command c frame ≡ ok (some frame)

abbrev pub IsGoodPending : Operation → Pending → Type 0
IsGoodPending op absent = Unit
IsGoodPending op waiting = Unit
IsGoodPending op (resolved frame) = Accepted op frame
IsGoodPending op (failed e) = is_control_rejected e ≡ false

pub record Waits (op : Operation) (a : Bool) (s : Session) : Type 0 where
  pub operation : s.operation ≡ some op
  pub active : s.active ≡ a
  pub pending : IsGoodPending op s.pending

-- The checks of responses raise `ValueError` and `DeviceException` only.
abbrev pub IsPlain : {A : Type 0} → Result A → Type 0
IsPlain (ok a) = Unit
IsPlain (err e) = is_control_rejected e ≡ false

pub validate_read_response-IsPlain :
    (frame : Bytes) (op : ReadOperation) → IsPlain (validate_read_response frame op)
unfolding validate_read_response
validate_read_response-IsPlain frame op = ground arith

check_content-IsPlain : (c : Command) (x : Bool) (frame : Bytes) → IsPlain (check_content c x frame)
unfolding check_content
check_content-IsPlain c true frame = refl
check_content-IsPlain c false frame = ground arith

pub check_command-IsPlain : (c : Command) (frame : Bytes) → IsPlain (check_command c frame)
unfolding check_command
check_command-IsPlain c frame =
    ground (arith, check_content-IsPlain c true frame, check_content-IsPlain c false frame)

expected_length-IsPlain : (f c : ℕ) → IsPlain (Stream.expected_length f c)
unfolding Stream.expected_length
expected_length-IsPlain f c = ground arith

next_frame-IsPlain : (buffer : Bytes) → IsPlain (Stream.next_frame buffer)
unfolding Stream.next_frame
next_frame-IsPlain buffer = ground arith

extract_loop-IsPlain :
    (fuel : ℕ) (buffer : Bytes) (frames : List Bytes)
    → IsPlain (Stream.extract_loop fuel buffer frames)
unfolding Stream.extract_loop
extract_loop-IsPlain zero [] frames = tt
extract_loop-IsPlain (suc fuel) [] frames = tt
extract_loop-IsPlain zero (b ∷ bs) frames = tt
extract_loop-IsPlain (suc fuel) (b ∷ bs) frames = elim (Result-cases (Stream.next_frame (b ∷ bs))) [
  | inl ((false, size), e) ↦ rw (e, Stream.extract_loop, IsPlain) tt
  | inl ((true, size), e) ↦ rw (e, Stream.extract_loop, IsPlain) (extract_loop-IsPlain fuel _ _)
  | inr (x, e) ↦ rw (e, Stream.extract_loop, IsPlain) (rw e at (next_frame-IsPlain (b ∷ bs)))
]

extract-IsPlain : (buffer fragment : Bytes) → IsPlain (Stream.extract buffer fragment)
unfolding Stream.extract
extract-IsPlain buffer fragment = elim (Bool-cases (ltb 512 (length buffer + length fragment))) [
  | inl e ↦ rw e refl
  | inr e ↦ rw e (extract_loop-IsPlain (length (buffer ++ fragment)) (buffer ++ fragment) [])
]

feed-IsPlain : (s : Stream) (fragment : Bytes) → IsPlain (Stream.feed s fragment).0
unfolding Stream.feed
feed-IsPlain s fragment = ground (arith, extract-IsPlain s.buffer fragment)

check_frames_ok :
    (frames : List Bytes) (n : ℕ) (op : ReadOperation) (frame : Bytes)
    → check_frames frames n op ≡ ok frame
    → Accepted (read op) frame
unfolding check_frames
check_frames_ok [] n op frame h = cc
check_frames_ok (f ∷ []) n op frame h = elim (Result-cases (validate_read_response f op)) [
  | inl (payload, e) ↦ (payload, ground arith)
  | inr (x, e) ↦ absurd (ground arith)
]
check_frames_ok (f ∷ g ∷ fs) n op frame h = cc

check_frames-IsPlain :
    (frames : List Bytes) (n : ℕ) (op : ReadOperation) → IsPlain (check_frames frames n op)
unfolding check_frames
check_frames-IsPlain [] n op = refl
check_frames-IsPlain (f ∷ []) n op = ground (arith, validate_read_response-IsPlain f op)
check_frames-IsPlain (f ∷ g ∷ fs) n op = refl

check_content_same :
    (c : Command) (x : Bool) (frame f : Bytes) → check_content c x frame ≡ ok (some f) → f ≡ frame
unfolding check_content
check_content_same c true frame f h = cc
check_content_same c false frame f h = ground arith

pub check_command_same :
    (c : Command) (frame f : Bytes) → check_command c frame ≡ ok (some f) → f ≡ frame
unfolding check_command
check_command_same c frame f h =
    ground (arith, check_content_same c true frame f, check_content_same c false frame f)

fail_pending-good :
    (op : Operation) (p : Pending) (e : Error)
    → is_control_rejected e ≡ false
    → IsGoodPending op p
    → IsGoodPending op (fail_pending p e)
fail_pending-good op absent e h g = g
fail_pending-good op waiting e h g = h
fail_pending-good op (resolved frame) e h g = g
fail_pending-good op (failed x) e h g = g

invalidate-Waits :
    (op : Operation) (a : Bool) (e : Error) (s : Session)
    → is_control_rejected e ≡ false
    → Waits op a s
    → Waits op a (invalidate e s)
unfolding invalidate
invalidate-Waits op a e s p w = record {
  operation = w.operation;
  active = w.active;
  pending = fail_pending-good op s.pending e p w.pending;
}

settle_read-Waits :
    (op : ReadOperation) (a : Bool) (r : Result Bytes) (s : Session)
    → IsPlain r
    → ((frame : Bytes) → r ≡ ok frame → Accepted (read op) frame)
    → Waits (read op) a s
    → Waits (read op) a (settle_read r s)
unfolding settle_read
settle_read-Waits op a (err e) s p good w = invalidate-Waits (read op) a e s p w
settle_read-Waits op a (ok frame) s p good w = record {
  operation = w.operation;
  active = w.active;
  pending = good frame refl;
}

on_frames-Waits :
    (op : ReadOperation) (a : Bool) (r : Result (List Bytes) × Stream) (s : Session)
    → IsPlain r.0
    → Waits (read op) a s
    → Waits (read op) a (on_frames op r s)
unfolding on_frames
on_frames-Waits op a (err e, t) s p w =
    invalidate-Waits (read op) a e (record s { stream = t }) p
      (record { operation = w.operation; active = w.active; pending = w.pending })
on_frames-Waits op a (ok [], t) s p w = record {
  operation = w.operation;
  active = w.active;
  pending = w.pending;
}
on_frames-Waits op a (ok (f ∷ fs), t) s p w =
    settle_read-Waits op a (check_frames (f ∷ fs) (Stream.pending_bytes t) op)
      (record s { stream = t }) (check_frames-IsPlain (f ∷ fs) (Stream.pending_bytes t) op)
      (check_frames_ok (f ∷ fs) (Stream.pending_bytes t) op)
      (record { operation = w.operation; active = w.active; pending = w.pending })

settle_command-Waits :
    (c : Command) (a : Bool) (r : Result (Option Bytes)) (s : Session)
    → IsPlain r
    → ((frame : Bytes) → r ≡ ok (some frame) → Accepted (command c) frame)
    → Waits (command c) a s
    → Waits (command c) a (settle_command r s)
unfolding settle_command
settle_command-Waits c a (err e) s p good w = invalidate-Waits (command c) a e s p w
settle_command-Waits c a (ok none) s p good w = w
settle_command-Waits c a (ok (some frame)) s p good w = record {
  operation = w.operation;
  active = w.active;
  pending = good frame refl;
}

check_command_ok :
    (c : Command) (bytes frame : Bytes)
    → check_command c bytes ≡ ok (some frame)
    → Accepted (command c) frame
check_command_ok c bytes frame e =
    subst (λ t. check_command c t ≡ ok (some frame)) (sym (check_command_same c bytes frame e)) e

accept-Waits :
    (op : Operation) (a : Bool) (fragment : Bytes) (s : Session)
    → Waits op a s
    → Waits op a (accept (some op) fragment s)
unfolding accept_read accept_command
accept-Waits (read op) a fragment s w =
    on_frames-Waits op a (Stream.feed s.stream fragment) s (feed-IsPlain s.stream fragment) w
accept-Waits (command c) a fragment s w =
    settle_command-Waits c a (check_command c (s.command_buffer ++ fragment))
      (record s { command_buffer = s.command_buffer ++ fragment })
      (check_command-IsPlain c (s.command_buffer ++ fragment))
      (check_command_ok c (s.command_buffer ++ fragment))
      (record { operation = w.operation; active = w.active; pending = w.pending })

receive-Waits :
    (op : Operation) (a : Bool) (failure : Option Error) (is_open : Bool) (o : Option Operation)
    (fragment : Bytes) (s : Session)
    → o ≡ some op
    → Waits op a s
    → Waits op a (receive failure is_open o fragment s)
unfolding receive
receive-Waits op a (some e) is_open o fragment s p w = w
receive-Waits op a none true o fragment s p w = rw p (accept-Waits op a fragment s w)
receive-Waits op a none false o fragment s p w = invalidate-Waits op a _ s refl w

pub on_data-Waits :
    (op : Operation) (a : Bool) (fragment : Bytes) (s : Session)
    → Waits op a s
    → Waits op a (on_data fragment s)
unfolding on_data
on_data-Waits op a [] s w = w
on_data-Waits op a (b ∷ fragment) s w =
    receive-Waits op a s.failure (is_waiting s.pending) s.operation (b ∷ fragment) s w.operation w

pub on_disconnect-Waits :
    (op : Operation) (a : Bool) (s : Session) → Waits op a s → Waits op a (on_disconnect s)
unfolding on_disconnect
on_disconnect-Waits op a s w = invalidate-Waits op a _ s refl w
