-- ===== src/Control/Cleaning.antt =====
-- src/wendougee_data/cleaning.py. Times are in tenths of a second, as the registers hold them.
use wendougee_data_ha.Base.{
  ℕ, zero, suc, ◌+◌, ◌*◌, Bool, ◌&&◌, Error, Result, ok, err, value_error, control_rejected, leb,
  if◌then◌else◌,
}
use wendougee_data_ha.Base.Bytes.{bytes_eq}
use wendougee_data_ha.Telemetry.{Tenths}
use wendougee_data_ha.Command.{cleaning_press, cleaning_release}
use wendougee_data_ha.State
use wendougee_data_ha.State.{OperatingState, Configuration, is_idle, is_cleaning}
use wendougee_data_ha.Link.{Transport, M, pure, lift, raise, check, ◌>>=◌, sleep}
use wendougee_data_ha.Press.{read_state, require_idle, pulse}
use wendougee_data_ha.Control.Boiler.{read_configuration, require_water}
use wendougee_data_ha.Control.Profile.{is_on, brew_is_off}

abbrev pub outside_envelope : Error
outside_envelope =
    control_rejected
      "Stored cleaning program is outside the attended pilot envelope (maximum 120 seconds)"

unfoldable pub total_duration : Configuration → Tenths
total_duration c = (c.cleaning_time_seconds + c.cleaning_rest_seconds) * c.cleaning_repetitions

-- The limits of the pilot in seconds are ten times as many tenths.
unfoldable pub in_envelope : Configuration → Bool
unfolding total_duration
in_envelope c =
    leb 10 c.cleaning_time_seconds
    && (leb c.cleaning_time_seconds 600
        && (leb 10 c.cleaning_rest_seconds
            && (leb c.cleaning_rest_seconds 600
                && (leb 1 c.cleaning_repetitions
                    && (leb c.cleaning_repetitions 10 && leb (total_duration c) 1200)))))

unfoldable pub cleaning_duration : Configuration → Result Tenths
unfolding in_envelope
cleaning_duration c = if in_envelope c then ok (total_duration c) else err outside_envelope

module _ {W : Type 0} (tr : Transport W) where
  unfoldable pub ready_to_clean : M W Configuration
  unfolding cleaning_duration
  ready_to_clean = do
    before ← read_configuration tr
    _ ← lift (cleaning_duration before)
    _ ← check (is_on before.brew_heating_enabled) brew_is_off
    _ ← require_water tr
    _ ← require_idle tr
    pure before

  unfoldable pub confirm_cleaning : Configuration → ℕ → M W (Configuration × OperatingState)
  confirm_cleaning before zero =
      raise (value_error "Cleaning start was not confirmed; do not repeat the pulse")
  confirm_cleaning before (suc n) = do
    s ← read_state tr
    if is_cleaning (State.state s)
        then pure (before, s)
        else if is_idle (State.state s)
        then (do _ ← sleep tr 200; confirm_cleaning before n)
        else raise (value_error "Unexpected operating state after cleaning pulse")

  unfoldable pub start_cleaning : M W (Configuration × OperatingState)
  unfolding ready_to_clean confirm_cleaning
  start_cleaning = do
    before ← ready_to_clean
    _ ← pulse tr cleaning_press cleaning_release
    after ← read_configuration tr
    _ ←
        check (bytes_eq after.raw_registers before.raw_registers)
          (value_error "Cleaning configuration changed unexpectedly")
    confirm_cleaning before 5
