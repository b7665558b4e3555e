-- ===== src/State.antt =====
-- src/wendougee_data/state.py: the decoding of settings and of the operating flags.
-- Floats in tenths are kept as their registers, as in `Telemetry`.
use wendougee_data_ha.Base.{
  ℕ, ◌-◌, List, [], ◌∷◌, ◌++◌, Bool, true, false, not, Option, none, some, Result, ok, ◌>>=◌, ltb,
  ◌==◌, if◌then◌else◌, length, get_or, bit_and,
}
use wendougee_data_ha.Base.Bytes.{Bytes, words, from_big, from_little}
use wendougee_data_ha.Telemetry.{Tenths}
use wendougee_data_ha.Reads.{
  configuration, water_alarm_enabled, operating_state, validate_read_response,
}

pub data HeatingMode : Type 0 where
  pulse full_speed : HeatingMode

pub record Configuration : Type 0 where
  pub cleaning_time_seconds : Tenths
  pub cleaning_rest_seconds : Tenths
  pub cleaning_repetitions : ℕ
  pub steam_heating_enabled : Option Bool
  pub brew_heating_enabled : Option Bool
  pub steam_target_celsius : ℕ
  pub brew_target_celsius : ℕ
  pub manual_time_seconds : Tenths
  pub manual_pressure_bar : Tenths
  pub heating_mode : Option HeatingMode
  pub raw_registers : List ℕ

-- `{0: True, 1: False}.get(word)`
unfoldable pub heating_enabled : ℕ → Option Bool
heating_enabled word = if word == 0 then some true else if word == 1 then some false else none

-- `{0: "pulse", 1: "full_speed"}.get(word)`
unfoldable pub mode_of : ℕ → Option HeatingMode
mode_of word = if word == 0 then some pulse else if word == 1 then some full_speed else none

unfoldable pub configuration_of : List ℕ → Configuration
unfolding heating_enabled mode_of
configuration_of ws = record {
  cleaning_time_seconds = get_or ws 0 0;
  cleaning_rest_seconds = get_or ws 1 0;
  cleaning_repetitions = get_or ws 2 0;
  steam_heating_enabled = heating_enabled (get_or ws 6 0);
  brew_heating_enabled = heating_enabled (get_or ws 7 0);
  steam_target_celsius = get_or ws 8 0;
  brew_target_celsius = get_or ws 9 0;
  manual_time_seconds = get_or ws 17 0;
  manual_pressure_bar = get_or ws 19 0;
  heating_mode = mode_of (get_or ws 22 0);
  raw_registers = ws;
}

unfoldable pub decode_configuration : Bytes → Result Configuration
decode_configuration frame = do
  payload ← validate_read_response frame configuration
  ok (configuration_of (words payload))

-- `{0: False, 1: True}.get(word)`
unfoldable pub alarm_enabled : ℕ → Option Bool
alarm_enabled word = if word == 0 then some false else if word == 1 then some true else none

unfoldable pub decode_water_alarm_enabled : Bytes → Result (Option Bool)
decode_water_alarm_enabled frame = do
  payload ← validate_read_response frame water_alarm_enabled
  ok (alarm_enabled (from_big payload))

pub record OperatingState : Type 0 where
  pub raw_bits : ℕ
  pub profile_active : Bool
  pub manual_active : Bool
  pub cleaning_active : Bool
  pub free_variable_active : Bool
  pub unknown_bits : ℕ

-- the names that the property `state` returns
pub data Mode : Type 0 where
  idle profile manual cleaning free_variable ambiguous unknown : Mode

pub Mode-discrete : Discrete Mode
Mode-discrete = hlevel

-- one item of the comprehension that builds `active`
abbrev pub when : Bool → Mode → List Mode
when true name = name ∷ []
when false name = []

unfoldable pub active_modes : OperatingState → List Mode
active_modes s =
    when s.profile_active profile
    ++ (when s.manual_active manual
        ++ (when s.cleaning_active cleaning ++ when s.free_variable_active free_variable))

first_mode : List Mode → Mode
first_mode [] = idle
first_mode (m ∷ ms) = m

unfoldable pub state : OperatingState → Mode
unfolding active_modes first_mode
state s =
    if ltb 1 (length (active_modes s))
    then ambiguous
    else if not (s.unknown_bits == 0)
    then unknown
    else first_mode (active_modes s)

-- `state.state == "idle"`
unfoldable pub is_idle : Mode → Bool
is_idle idle = true
is_idle _ = false

unfoldable pub is_profile : Mode → Bool
is_profile profile = true
is_profile _ = false

unfoldable pub is_cleaning : Mode → Bool
is_cleaning cleaning = true
is_cleaning _ = false

abbrev pub has_flag : ℕ → ℕ → Bool
has_flag bits mask = not (bit_and bits mask == 0)

-- `bits & ~0x833` on a number that is not negative takes the bits of the mask away
unfoldable pub operating_state_of : ℕ → OperatingState
operating_state_of bits = record {
  raw_bits = bits;
  profile_active = has_flag bits 0x03;
  manual_active = has_flag bits 0x10;
  cleaning_active = has_flag bits 0x20;
  free_variable_active = has_flag bits 0x800;
  unknown_bits = bits - bit_and bits 0x833;
}

unfoldable pub decode_operating_state : Bytes → Result OperatingState
decode_operating_state frame = do
  payload ← validate_read_response frame operating_state
  ok (operating_state_of (from_little payload))
