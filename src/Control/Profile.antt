-- ===== src/Control/Profile.antt =====
-- `start_stored_profile` and `validate_pilot` of src/wendougee_data/control_session.py.
use wendougee_data_ha.Base.{
  ℕ, zero, suc, List, [], ◌∷◌, Bool, true, false, ◌&&◌, Option, some, Error, value_error,
  control_rejected, ◌==◌, if◌then◌else◌, length, take, drop,
}
use wendougee_data_ha.Base.Bytes.{bytes_eq, from_big}
use wendougee_data_ha.Command.{profile_mode, profile_press, profile_release}
use wendougee_data_ha.State
use wendougee_data_ha.State.{OperatingState, Configuration, is_idle, is_profile}
use wendougee_data_ha.Link.{Transport, M, pure, raise, check, ◌>>=◌, transact, sleep}
use wendougee_data_ha.Press.{read_state, require_idle, pulse, read_profile_bank}
use wendougee_data_ha.Control.Boiler.{read_configuration, require_water}

abbrev pub pilot_header_words : List ℕ
pilot_header_words = 1 ∷ 1 ∷ 1 ∷ 1 ∷ 65 ∷ 0 ∷ 0 ∷ []

abbrev pub pilot_stage_words : List ℕ
pilot_stage_words = 28 ∷ 90 ∷ 0 ∷ 0 ∷ 1 ∷ 0 ∷ []

unfoldable pub is_pilot : List ℕ → Bool
is_pilot bank =
    (length bank == 167)
    && (bytes_eq (take 7 bank) pilot_header_words
        && bytes_eq (take 6 (drop 8 bank)) pilot_stage_words)

abbrev pub not_pilot : Error
not_pilot = control_rejected "Stored profile is not the verified 9 bar pilot recipe"

-- `configuration.brew_heating_enabled is not True`
abbrev pub is_on : Option Bool → Bool
is_on (some true) = true
is_on _ = false

abbrev pub brew_is_off : Error
brew_is_off = control_rejected "Brew boiler must already be enabled"

module _ {W : Type 0} (tr : Transport W) where
  unfoldable pub validate_pilot : List ℕ → M W (Unit {0})
  unfolding is_pilot
  validate_pilot bank = check (is_pilot bank) not_pilot

  -- everything before the pulse
  unfoldable pub ready_to_start : M W (Unit {0})
  unfolding validate_pilot
  ready_to_start = do
    c ← read_configuration tr
    _ ← check (is_on c.brew_heating_enabled) brew_is_off
    _ ← require_water tr
    mode ← transact tr profile_mode
    _ ←
        check (from_big (take 2 (drop 3 mode)) == 2)
          (control_rejected "Only an already selected stored mode-2 profile is supported")
    bank ← read_profile_bank tr false
    _ ← validate_pilot bank
    _ ← require_idle tr
    pure tt

  -- the loop after the pulse, with the rounds left; the body's test is on a state that was read
  unfoldable pub confirm_profile : ℕ → M W OperatingState
  confirm_profile zero =
      raise (value_error "Profile start was not confirmed; do not repeat the pulse")
  confirm_profile (suc n) = do
    s ← read_state tr
    if is_profile (State.state s)
        then pure s
        else if is_idle (State.state s)
        then (do _ ← sleep tr 200; confirm_profile n)
        else raise (value_error "Unexpected state after profile pulse")

  unfoldable pub start_stored_profile : M W OperatingState
  unfolding ready_to_start confirm_profile
  start_stored_profile = do
    _ ← ready_to_start
    _ ← pulse tr profile_press profile_release
    confirm_profile 5
