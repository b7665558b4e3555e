-- ===== src/Events/Heartbeats.antt =====
-- The heartbeats that src/wendougee_data/events.py accepts.
use wendougee_data_ha.Base.{ℕ, zero, suc, ◌+◌, ◌<◌, [], ◌∷◌, ok, ◌≡◌, ◌↔◌, refl, arith}
use wendougee_data_ha.Base.Bytes.{Bytes}
use wendougee_data_ha.Events.{
  HeartbeatEvent, parse_heartbeat_event, parse_ff55_frame, decode_heartbeat, ff55_checksum, sum,
  but_last, last, is_heartbeat,
}

abbrev pub heartbeat : ℕ → Bytes
heartbeat marker = 0xFF ∷ 0x55 ∷ 0xFF ∷ 0xFF ∷ 0x83 ∷ 0 ∷ 1 ∷ marker ∷ (215 + marker) ∷ []

heartbeat_accepted :
    (m : ℕ) → m < 2 → parse_heartbeat_event (heartbeat m) ≡ ok (record { marker = m })
unfolding parse_heartbeat_event parse_ff55_frame decode_heartbeat ff55_checksum sum but_last last
    is_heartbeat
heartbeat_accepted zero h = refl
heartbeat_accepted (suc zero) h = refl
heartbeat_accepted (suc (suc m)) h = absurd (omega arith)

accepted_heartbeat :
    (frame : Bytes) (e : HeartbeatEvent)
    → parse_heartbeat_event frame ≡ ok e
    → (frame ≡ heartbeat e.marker) × (e.marker < 2)
unfolding parse_heartbeat_event parse_ff55_frame decode_heartbeat ff55_checksum sum but_last last
    is_heartbeat
accepted_heartbeat [] e h = absurd (cc)
accepted_heartbeat (a ∷ []) e h = absurd (cc)
accepted_heartbeat (a ∷ b ∷ []) e h = absurd (cc)
accepted_heartbeat (a ∷ b ∷ c ∷ []) e h = absurd (cc)
accepted_heartbeat (a ∷ b ∷ c ∷ d ∷ []) e h = absurd (cc)
accepted_heartbeat (a ∷ b ∷ c ∷ d ∷ f ∷ []) e h = absurd (cc)
accepted_heartbeat (a ∷ b ∷ c ∷ d ∷ f ∷ g ∷ []) e h = absurd (cc)
accepted_heartbeat (a ∷ b ∷ c ∷ d ∷ f ∷ g ∷ i ∷ []) e h = absurd (cc)
accepted_heartbeat (a ∷ b ∷ c ∷ d ∷ f ∷ g ∷ i ∷ j ∷ []) e h = ground arith
accepted_heartbeat (a ∷ b ∷ c ∷ d ∷ f ∷ g ∷ i ∷ j ∷ k ∷ []) e h = ground arith
accepted_heartbeat (a ∷ b ∷ c ∷ d ∷ f ∷ g ∷ i ∷ j ∷ k ∷ l ∷ rest) e h = ground arith

-- A frame decodes to a heartbeat event exactly when it is the nine bytes of that heartbeat, with
-- the checksum 215 more than the marker, and the marker is 0 or 1.
pub parse_heartbeat_event_iff :
    (frame : Bytes) (e : HeartbeatEvent)
    → (parse_heartbeat_event frame ≡ ok e) ↔ ((frame ≡ heartbeat e.marker) × (e.marker < 2))
parse_heartbeat_event_iff frame e =
    (accepted_heartbeat frame e, λ p. rw p.0 (heartbeat_accepted e.marker p.1))
