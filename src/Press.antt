-- ===== src/Press.antt =====
-- The steps that the control transactions share, from src/wendougee_data/control_session.py:
-- the idle check, the guarded press of a momentary coil and the reading of a profile bank.
pub mod Release
use wendougee_data_ha.Base.{
  ℕ, zero, suc, ◌+◌, ◌-◌, ◌*◌, ◌/◌, List, [], ◌∷◌, ◌++◌, Bool, true, false, Option, none, some,
  Error, err, value_error, control_rejected, if◌then◌else◌, length, drop,
}
use wendougee_data_ha.Base.Bytes.{Bytes}
use wendougee_data_ha.Command.{
  Command, state, profile_release, cleaning_release, active_chunks, bound_chunks,
}
use wendougee_data_ha.State.{OperatingState, Mode, decode_operating_state, is_idle}
use wendougee_data_ha.State
use wendougee_data_ha.Link.{
  Transport, M, pure, lift, check, ◌>>=◌, ◌>>◌, try_finally, transact, sleep, send, shield,
}

abbrev pub busy : Error
busy = control_rejected "Machine must be idle with no unknown operating flags"

-- `command in (Command.PROFILE_RELEASE, Command.CLEANING_RELEASE)`
unfoldable pub is_release : Command → Bool
is_release profile_release = true
is_release cleaning_release = true
is_release _ = false

-- the words of the last bytes of a frame, as many as the rounds of the comprehension
registers_loop : ℕ → Bytes → List ℕ
registers_loop zero rest = []
registers_loop (suc n) [] = 0 ∷ registers_loop n []
registers_loop (suc n) (a ∷ []) = a ∷ registers_loop n []
registers_loop (suc n) (a ∷ b ∷ rest) = (a * 256 + b) ∷ registers_loop n rest

-- `_registers`: `range(3, len(frame) - 2, 2)` has this many rounds
unfoldable pub registers : Bytes → List ℕ
unfolding registers_loop
registers frame = registers_loop ((length frame - 5 + 1) / 2) (drop 3 frame)

module _ {W : Type 0} (tr : Transport W) where
  unfoldable pub read_state : M W OperatingState
  read_state = do frame ← transact tr state; lift (decode_operating_state frame)

  -- `_idle`
  unfoldable pub require_idle : M W OperatingState
  require_idle = do s ← read_state; check (is_idle (State.state s)) busy; pure s

  -- the branches of `release_press` on the session's failure
  unfoldable pub release_after : Option Error → Command → M W (Unit {0})
  release_after none c = do _ ← transact tr c; pure tt
  release_after (some _) c = send tr c

  unfoldable pub release_press : Command → M W (Unit {0})
  unfolding release_after
  release_press c l =
      if is_release c
      then release_after l.session.failure c l
      else (err (value_error "Only a momentary release is allowed"), l)

  -- the pulse of `start_stored_profile` and `start_cleaning`
  unfoldable pub pulse : Command → Command → M W (Unit {0})
  pulse press release =
      try_finally (do _ ← transact tr press; sleep tr 100) (shield tr (release_press release))

  unfoldable pub read_chunks : List Command → List ℕ → M W (List ℕ)
  read_chunks [] ws = pure ws
  read_chunks (c ∷ cs) ws = transact tr c >>= λ frame. read_chunks cs (ws ++ registers frame)

  -- `read_profile_bank`
  unfoldable pub read_profile_bank : Bool → M W (List ℕ)
  unfolding read_chunks
  read_profile_bank true = read_chunks bound_chunks []
  read_profile_bank false = read_chunks active_chunks []
