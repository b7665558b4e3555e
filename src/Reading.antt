-- ===== src/Reading.antt =====
-- The three readings of src/custom_components/wendougee_data/bluetooth.py, each in a `ReadSession`
-- of its own (src/wendougee_data/session.py) whose transport lets through its operations only.
use wendougee_data_ha.Base.{List, [], ◌∷◌, Result, ok, err, map}
use wendougee_data_ha.Base.Bytes.{Bytes}
use wendougee_data_ha.Reads.{
  ReadOperation, telemetry, operating_state, read_operations, build_read_request,
}
use wendougee_data_ha.Telemetry.{Telemetry, parse_telemetry_response}
use wendougee_data_ha.State.{OperatingState, decode_operating_state}
use wendougee_data_ha.Session
use wendougee_data_ha.Link.{Transport, M, pure, lift, exchange, ◌>>=◌}
use wendougee_data_ha.Lifecycle.{Route, Ended, transport, with_session}

module _ {W : Type 0} (tr : Transport W) where
  -- `ReadSession.read`
  unfoldable pub read : ReadOperation → M W Bytes
  read op = exchange tr (Session.read op)

  unfoldable pub read_and_parse : M W Telemetry
  unfolding read
  read_and_parse = do frame ← read telemetry; lift (parse_telemetry_response frame)

  unfoldable pub read_two : M W (Bytes × Bytes)
  unfolding read
  read_two = do t ← read telemetry; s ← read operating_state; pure (t, s)

  -- the operations in their order, with their frames
  unfoldable pub read_all : List ReadOperation → M W (List (ReadOperation × Bytes))
  unfolding read
  read_all [] = pure []
  read_all (op ∷ ops) = do frame ← read op; rest ← read_all ops; pure ((op, frame) ∷ rest)

-- the decoding after the session of `read_runtime`
decoded : Result Telemetry → Result OperatingState → Result (Telemetry × OperatingState)
decoded (err e) s = err e
decoded (ok t) (err e) = err e
decoded (ok t) (ok s) = ok (t, s)

decoded_frames :
    {W : Type 0} → Result (Bytes × Bytes) × Ended W → Result (Telemetry × OperatingState) × Ended W
unfolding decoded
decoded_frames (err e, ended) = (err e, ended)
decoded_frames (ok (t, s), ended) =
    (decoded (parse_telemetry_response t) (decode_operating_state s), ended)

module _ {W : Type 0} (route : Route W) where
  -- a program in a read session whose transport allows the operations
  within : {A : Type 0} → List ReadOperation → (Transport W → M W A) → W → Result A × Ended W
  within ops program world =
      with_session route (program (transport route (map build_read_request ops))) world

  -- the default of the transport allows the telemetry only
  unfoldable pub read_telemetry : W → Result Telemetry × Ended W
  unfolding within read_and_parse
  read_telemetry world = within (telemetry ∷ []) read_and_parse world

  unfoldable pub read_runtime : W → Result (Telemetry × OperatingState) × Ended W
  unfolding within read_two decoded_frames
  read_runtime world = decoded_frames (within (telemetry ∷ operating_state ∷ []) read_two world)

  unfoldable pub read_baseline : W → Result (List (ReadOperation × Bytes)) × Ended W
  unfolding within read_all
  read_baseline world = within read_operations (λ tr. read_all tr read_operations) world
