-- ===== src/Reads/Frames.antt =====
-- The check of a response accepts exactly the frames that a device would build, and no frame in
-- which one byte was changed.
use wendougee_data_ha.Base.{
  ℕ, zero, suc, ◌+◌, ◌-◌, ◌/◌, ◌%◌, ◌≤◌, ◌<◌, ◌≡◌, ◌≢◌, refl, sym, ap, ◌∙◌, ◌↔◌, arith, [], ◌∷◌,
  ◌++◌, true, ok, ==_iff, length, take, drop, length-append, length-take, get_or,
}
use wendougee_data_ha.Base.Bytes.{
  Bytes, IsBytes, to_little, from_little, but_last_two, last_two, but_last_two-append,
  last_two-append, but_last_two-append-last_two, length-last_two,
}
use wendougee_data_ha.Crc.{crc16_modbus, append_crc}
use wendougee_data_ha.Crc.Bounds.{crc16_modbus_byte_injective}
use wendougee_data_ha.Reads.{
  ReadOperation, telemetry, configuration, water_alarm_enabled, operating_state, function,
  byte_count, crc_matches, validate_read_response,
}

-- the response of a device to the operation, with its payload
unfoldable pub response : ReadOperation → Bytes → Bytes
response op payload = append_crc (1 ∷ function op ∷ byte_count op ∷ payload)

pub crc_matches-append_crc : (body : Bytes) → crc_matches (append_crc body) ≡ true
unfolding crc_matches append_crc
crc_matches-append_crc body =
    let n = crc16_modbus body in
    rw (but_last_two-append body (n % 256) (n / 256), last_two-append body (n % 256) (n / 256))
      ((==_iff n (from_little (to_little n))).1 (omega arith))

two_bytes : (l : Bytes) → length l ≡ 2 → IsBytes l → l ≡ to_little (from_little l)
two_bytes [] h k = absurd (omega arith)
two_bytes (a ∷ []) h k = absurd (omega arith)
two_bytes (a ∷ b ∷ []) h k = ground arith
two_bytes (a ∷ b ∷ c ∷ l) h k = absurd (omega arith)

All-drop : (n : ℕ) (l : Bytes) → IsBytes l → IsBytes (drop n l)
All-drop zero l k = k
All-drop (suc n) [] k = k
All-drop (suc n) (x ∷ l) k = All-drop n l k.1

All-take : (n : ℕ) (l : Bytes) → IsBytes l → IsBytes (take n l)
All-take zero l k = tt
All-take (suc n) [] k = tt
All-take (suc n) (x ∷ l) k = (k.0, All-take n l k.1)

pub crc_matches_split :
    (frame : Bytes)
    → 2 ≤ length frame
    → IsBytes frame
    → crc_matches frame ≡ true
    → frame ≡ append_crc (but_last_two frame)
unfolding crc_matches append_crc
crc_matches_split frame h k m =
    let e : crc16_modbus (but_last_two frame) ≡ from_little (last_two frame) = (==_iff _ _).0 m in
    let l : last_two frame ≡ to_little (from_little (last_two frame)) =
      two_bytes (last_two frame) (length-last_two frame h)
        (unfold last_two in All-drop _ frame k) in
    sym (but_last_two-append-last_two frame)
    ∙ ap (λ t. but_last_two frame ++ t) (l ∙ ap to_little (sym e))

but_last_two-cons :
    (x : ℕ) (rest : Bytes) → 2 ≤ length rest → but_last_two (x ∷ rest) ≡ x ∷ but_last_two rest
unfolding but_last_two
but_last_two-cons x rest h =
    let e : suc (length rest) - 2 ≡ suc (length rest - 2) = omega arith in rw e

crc_matches_trailer :
    (body : Bytes) (u v : ℕ)
    → crc_matches (body ++ (u ∷ v ∷ [])) ≡ true
    → crc16_modbus body ≡ from_little (u ∷ v ∷ [])
unfolding crc_matches
crc_matches_trailer body u v m =
    (==_iff _ _).0 (rw (but_last_two-append body u v, last_two-append body u v) at m)

-- the tests of `validate_read_response` that an accepted frame passed
accepted :
    (frame : Bytes) (op : ReadOperation) (payload : Bytes)
    → validate_read_response frame op ≡ ok payload
    → (get_or frame 0 0 ≡ 1)
      × (get_or frame 1 0 ≡ function op)
      × (get_or frame 2 0 ≡ byte_count op)
      × (length frame ≡ byte_count op + 5)
      × (crc_matches frame ≡ true)
      × (payload ≡ drop 3 (but_last_two frame))
unfolding validate_read_response
accepted frame op payload h = ground arith

header_split :
    (frame : Bytes)
    → 5 ≤ length frame
    → but_last_two frame
      ≡ get_or frame 0 0 ∷ get_or frame 1 0 ∷ get_or frame 2 0 ∷ drop 3 (but_last_two frame)
header_split [] h = absurd (omega arith)
header_split (a ∷ []) h = absurd (omega arith)
header_split (a ∷ b ∷ []) h = absurd (omega arith)
header_split (a ∷ b ∷ c ∷ rest) h =
    let e : but_last_two (a ∷ b ∷ c ∷ rest) ≡ a ∷ b ∷ c ∷ but_last_two rest =
      but_last_two-cons a (b ∷ c ∷ rest) (omega arith)
      ∙ ap (◌∷◌ a) (
          but_last_two-cons b (c ∷ rest) (omega arith)
          ∙ ap (◌∷◌ b) (but_last_two-cons c rest (omega arith))) in
    rw e

length-but_last_two : (frame : Bytes) → length (but_last_two frame) ≡ length frame - 2
unfolding but_last_two
length-but_last_two frame = omega (arith, length-take (length frame - 2) frame)

accepted_frame :
    (frame : Bytes) (op : ReadOperation) (payload : Bytes)
    → IsBytes frame
    → validate_read_response frame op ≡ ok payload
    → (length payload ≡ byte_count op) × (frame ≡ response op payload)
unfolding response
accepted_frame frame op payload k h =
    let (slave, fn, count, size, crc, content) = accepted frame op payload h in
    let head = header_split frame (omega arith) in
    (
      omega (arith, ap length content, ap length head, length-but_last_two frame),
      crc_matches_split frame (omega arith) k crc
          ∙ ap append_crc (head ∙ (rw (slave, fn, count, sym content) refl)),
    )

passes :
    (op : ReadOperation) (frame : Bytes)
    → get_or frame 0 0 ≡ 1
    → get_or frame 1 0 ≡ function op
    → get_or frame 2 0 ≡ byte_count op
    → length frame ≡ byte_count op + 5
    → crc_matches frame ≡ true
    → validate_read_response frame op ≡ ok (drop 3 (but_last_two frame))
unfolding validate_read_response
passes telemetry frame a b c d e = ground arith
passes configuration frame a b c d e = ground arith
passes water_alarm_enabled frame a b c d e = ground arith
passes operating_state frame a b c d e = ground arith

pub length-append_crc : (body : Bytes) → length (append_crc body) ≡ length body + 2
unfolding append_crc
length-append_crc body = length-append body (crc16_modbus body % 256 ∷ crc16_modbus body / 256 ∷ [])

pub but_last_two-append_crc : (body : Bytes) → but_last_two (append_crc body) ≡ body
unfolding append_crc
but_last_two-append_crc body =
    but_last_two-append body (crc16_modbus body % 256) (crc16_modbus body / 256)

module _ (a b c : ℕ) (payload : Bytes) where
  head_of_append_crc :
      let frame = append_crc (a ∷ b ∷ c ∷ payload) in
      (get_or frame 0 0 ≡ a) × (get_or frame 1 0 ≡ b) × (get_or frame 2 0 ≡ c)
  unfolding append_crc
  head_of_append_crc = (refl, refl, refl)

response_accepted :
    (op : ReadOperation) (payload : Bytes)
    → length payload ≡ byte_count op
    → validate_read_response (response op payload) op ≡ ok payload
unfolding response
response_accepted op payload h =
    let body : Bytes = 1 ∷ function op ∷ byte_count op ∷ payload in
    let head = head_of_append_crc 1 (function op) (byte_count op) payload in
    passes op (append_crc body) head.0 head.1 head.2 (omega (arith, length-append_crc body))
      (crc_matches-append_crc body)
    ∙ ap (λ t. ok (drop 3 t)) (but_last_two-append_crc body)

-- For a frame of bytes, the check of a response returns a payload exactly when the payload has the
-- length of the operation and the frame is slave address, function, byte count, payload and CRC.
pub validate_read_response_iff :
    (frame : Bytes) (op : ReadOperation) (payload : Bytes)
    → IsBytes frame
    → (validate_read_response frame op ≡ ok payload)
      ↔ ((length payload ≡ byte_count op) × (frame ≡ response op payload))
validate_read_response_iff frame op payload k =
    (accepted_frame frame op payload k, λ p. rw p.1 (response_accepted op payload p.0))

-- A frame whose body has one byte `x`, with a trailer of two bytes.
abbrev pub framed : Bytes → ℕ → Bytes → ℕ → ℕ → Bytes
framed before x after u v = (before ++ x ∷ after) ++ (u ∷ v ∷ [])

-- An accepted frame is refused, with whatever error, once a single byte before its CRC is
-- replaced by another byte.
pub validate_read_response_detects :
    (op : ReadOperation) (before after : Bytes) (x y u v : ℕ) (payload other : Bytes)
    → IsBytes before
    → IsBytes after
    → x < 256
    → y < 256
    → x ≢ y
    → validate_read_response (framed before x after u v) op ≡ ok payload
    → validate_read_response (framed before y after u v) op ≢ ok other
validate_read_response_detects op before after x y u v payload other hb ha hx hy ne p q = ne (
    crc16_modbus_byte_injective before after x y hb hx hy ha
      (crc_of x payload p ∙ sym (crc_of y other q)))
  where
    crc_of :
        (z : ℕ) (content : Bytes)
        → validate_read_response (framed before z after u v) op ≡ ok content
        → crc16_modbus (before ++ z ∷ after) ≡ from_little (u ∷ v ∷ [])
    crc_of z content r =
        crc_matches_trailer (before ++ z ∷ after) u v
          (accepted (framed before z after u v) op content r).4
