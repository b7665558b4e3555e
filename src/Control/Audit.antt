-- ===== src/Control/Audit.antt =====
-- `audit_profile_reads` and `failure_kind` of src/wendougee_data/control_session.py.
use wendougee_data_ha.Base.{
  List, [], ◌∷◌, ◌++◌, Bool, true, false, Error, Result, ok, err, value_error, device_exception,
  control_rejected, timeout_error, cancelled_error, if◌then◌else◌, ◌≡◌, refl, All,
}
use wendougee_data_ha.Base.Bytes.{Bytes, bytes_eq}
use wendougee_data_ha.Command.{Command, state, profile_modes, profile_chunk_commands}
use wendougee_data_ha.Session.{command}
use wendougee_data_ha.State
use wendougee_data_ha.State.{is_idle, decode_operating_state}
use wendougee_data_ha.Link.{Transport, Link, M, pure, lift, check, ◌>>=◌, transact}
use wendougee_data_ha.Link.Traces.{
  Grows, Emits, Emits-pure, Emits-lift, Emits-bind, Emits-if, Emits-transact, Emits-check,
}
use wendougee_data_ha.Control.Rejections.{is_read, all_reads, all_reads-All}

pub data FailureKind : Type 0 where
  timeout refused protocol_or_validation transport_or_internal : FailureKind

-- `failure_kind`, by the subclasses of the built-in exceptions
unfoldable pub failure_kind : Error → FailureKind
failure_kind timeout_error = timeout
failure_kind (device_exception _) = refused
failure_kind (value_error _) = protocol_or_validation
failure_kind (control_rejected _) = protocol_or_validation
failure_kind _ = transport_or_internal

-- the returned dictionaries
pub data Report : Type 0 where
  complete : Report
  readback_changed : Command → Report
  failed : Command → FailureKind → Report
  unconnected : FailureKind → Report

is_state : Command → Bool
is_state state = true
is_state _ = false

abbrev pub audit_commands : List Command
audit_commands = (state ∷ profile_modes ∷ profile_chunk_commands) ++ (state ∷ [])

-- `except Exception` on the result of a step; a cancellation is no `Exception`
caught : {A : Type 0} → Result A → Result (Result A)
caught (err cancelled_error) = err cancelled_error
caught r = ok r

module _ {W : Type 0} (tr : Transport W) where
  attempt : {A : Type 0} → M W A → M W (Result A)
  unfolding caught
  attempt m l = let (r, l') = m l in (caught r, l')

  -- the test of a state frame
  require_idle_frame : Command → Bytes → M W Bytes
  unfolding is_state
  require_idle_frame c frame =
      if is_state c
      then (do
        s ← lift (decode_operating_state frame)
        _ ← check (is_idle (State.state s)) (control_rejected "Machine is not idle")
        pure frame)
      else pure frame

  visit : Command → M W Bytes
  unfolding require_idle_frame
  visit c = do frame ← transact tr c; require_idle_frame c frame

  -- `if pass_number == 0: first[command] = frame elif first[command] != frame`: the frames of
  -- the first pass, in the order of the commands
  same_frames : List Bytes → Bytes → Bool
  same_frames [] frame = false
  same_frames (first ∷ _) frame = bytes_eq first frame

  rest_of : Command → List Bytes → List Bytes
  unfolding is_state
  rest_of c [] = []
  rest_of c (first ∷ frames) = if is_state c then first ∷ frames else frames

  -- the second pass, with the frames still to be compared
  second_step : Command → List Bytes → (List Bytes → M W Report) → Result Bytes → M W Report
  unfolding failure_kind same_frames rest_of is_state
  second_step c frames k (err e) = pure (failed c (failure_kind e))
  second_step c frames k (ok frame) =
      if is_state c
      then k frames
      else if same_frames frames frame
      then k (rest_of c frames)
      else pure (readback_changed c)

  unfoldable pub second_pass : List Command → List Bytes → M W Report
  unfolding attempt visit second_step
  second_pass [] frames = pure complete
  second_pass (c ∷ cs) frames =
      attempt (visit c) >>= second_step c frames (λ rest. second_pass cs rest)

  first_step : Command → List Bytes → (List Bytes → M W Report) → Result Bytes → M W Report
  unfolding failure_kind is_state
  first_step c frames k (err e) = pure (failed c (failure_kind e))
  first_step c frames k (ok frame) = if is_state c then k frames else k (frames ++ (frame ∷ []))

  unfoldable pub first_pass : List Command → List Bytes → M W Report
  unfolding attempt visit first_step second_pass
  first_pass [] frames = second_pass audit_commands frames
  first_pass (c ∷ cs) frames =
      attempt (visit c) >>= first_step c frames (λ more. first_pass cs more)

  unfoldable pub audit_profile_reads : M W Report
  unfolding first_pass
  audit_profile_reads = first_pass audit_commands []

  Emits-attempt : {A : Type 0} (m : M W A) → Emits is_read m → Emits is_read (attempt m)
  unfolding attempt
  Emits-attempt m k = record { at = k.at }

  Emits-visit : (c : Command) → is_read (command c) ≡ true → Emits is_read (visit c)
  unfolding visit require_idle_frame
  Emits-visit c g = Emits-bind is_read _ _ (Emits-transact tr is_read c g) λ frame.
      Emits-if is_read (is_state c) _ _
        (Emits-bind is_read _ _ (Emits-lift is_read (decode_operating_state frame)) λ s.
          Emits-bind is_read _ _ (Emits-check is_read (is_idle (State.state s)) _)
            λ _. Emits-pure is_read frame)
        (Emits-pure is_read frame)

  Emits-second_step :
      (c : Command) (frames : List Bytes) (k : List Bytes → M W Report) (r : Result Bytes)
      → ((rest : List Bytes) → Emits is_read (k rest))
      → Emits is_read (second_step c frames k r)
  unfolding second_step
  Emits-second_step c frames k (err e) h = Emits-pure is_read _
  Emits-second_step c frames k (ok frame) h = Emits-if is_read (is_state c) _ _ (h frames) (
      Emits-if is_read (same_frames frames frame) _ _ (h (rest_of c frames))
        (Emits-pure is_read (readback_changed c)))

  Emits-second_pass :
      (cs : List Command) (frames : List Bytes)
      → All (λ c. is_read (command c) ≡ true) cs
      → Emits is_read (second_pass cs frames)
  unfolding second_pass
  Emits-second_pass [] frames k = Emits-pure is_read complete
  Emits-second_pass (c ∷ cs) frames k =
      Emits-bind is_read _ _ (Emits-attempt (visit c) (Emits-visit c k.0))
        λ r. Emits-second_step c frames _ r (λ rest. Emits-second_pass cs rest k.1)

  Emits-first_step :
      (c : Command) (frames : List Bytes) (k : List Bytes → M W Report) (r : Result Bytes)
      → ((rest : List Bytes) → Emits is_read (k rest))
      → Emits is_read (first_step c frames k r)
  unfolding first_step
  Emits-first_step c frames k (err e) h = Emits-pure is_read _
  Emits-first_step c frames k (ok frame) h =
      Emits-if is_read (is_state c) _ _ (h frames) (h (frames ++ (frame ∷ [])))

  audit_reads : All (λ c. is_read (command c) ≡ true) audit_commands
  unfolding all_reads is_read
  audit_reads = all_reads-All audit_commands refl

  Emits-first_pass :
      (cs : List Command) (frames : List Bytes)
      → All (λ c. is_read (command c) ≡ true) cs
      → Emits is_read (first_pass cs frames)
  unfolding first_pass
  Emits-first_pass [] frames k = Emits-second_pass audit_commands frames audit_reads
  Emits-first_pass (c ∷ cs) frames k =
      Emits-bind is_read _ _ (Emits-attempt (visit c) (Emits-visit c k.0))
        λ r. Emits-first_step c frames _ r (λ more. Emits-first_pass cs more k.1)

  -- The audit of the profile reads writes read requests only, whatever it reports or raises.
  pub audit_profile_reads_only_reads :
      (l : Link W) → Grows is_read l.history (audit_profile_reads l).1.history
  unfolding audit_profile_reads
  audit_profile_reads_only_reads = (Emits-first_pass audit_commands [] audit_reads).at
