-- ===== src/Controls.antt =====
-- src/wendougee_data/controls.py: boiler setting frames and the check of their echo.
use wendougee_data_ha.Base.{
  ℕ, [], ◌∷◌, ◌++◌, Bool, true, false, ◌||◌, not, Result, ok, err, value_error, device_exception,
  ◌>>=◌, ltb, ◌==◌, if◌then◌else◌, length, get_or, bit_or,
}
use wendougee_data_ha.Base.Bytes.{Bytes, to_big, bytes_eq}
use wendougee_data_ha.Crc.{append_crc}
use wendougee_data_ha.Reads.{crc_matches}

abbrev pub write_single_register : ℕ
write_single_register = 0x06

pub data BoilerSetting : Type 0 where
  steam_enabled brew_enabled steam_target_celsius brew_target_celsius : BoilerSetting

abbrev pub register : BoilerSetting → ℕ
register steam_enabled = 6
register brew_enabled = 7
register steam_target_celsius = 8
register brew_target_celsius = 9

abbrev pub minimum : BoilerSetting → ℕ
minimum _ = 0

abbrev pub maximum : BoilerSetting → ℕ
maximum steam_enabled = 1
maximum brew_enabled = 1
maximum steam_target_celsius = 140
maximum brew_target_celsius = 110

-- `setting in {STEAM_ENABLED, BREW_ENABLED}`
abbrev pub is_enable : BoilerSetting → Bool
is_enable steam_enabled = true
is_enable brew_enabled = true
is_enable _ = false

-- the two types that `value` may have
pub data SettingValue : Type 0 where
  flag : Bool → SettingValue
  whole : ℕ → SettingValue

unfoldable pub encode : BoilerSetting → SettingValue → Result ℕ
encode steam_enabled (flag value) = ok (if value then 0 else 1)
encode steam_enabled (whole value) = err (value_error "boiler enabled value must be a boolean")
encode brew_enabled (flag value) = ok (if value then 0 else 1)
encode brew_enabled (whole value) = err (value_error "boiler enabled value must be a boolean")
encode setting (flag value) = err (value_error "temperature must be a whole number")
encode setting (whole value) =
    if ltb value (minimum setting) || ltb (maximum setting) value
    then err (value_error "temperature must be between the limits")
    else ok value

unfoldable pub build_boiler_setting_request : BoilerSetting → SettingValue → Result Bytes
unfolding encode
build_boiler_setting_request setting value = do
  encoded ← encode setting value
  ok (append_crc ((1 ∷ write_single_register ∷ []) ++ to_big (register setting) ++ to_big encoded))

unfoldable pub validate_write_echo : Bytes → Bytes → Result (Unit {0})
validate_write_echo response request =
    if ltb (length response) 5
    then err (value_error "write response is too short")
    else if not (get_or response 0 0 == 1)
    then err (value_error "unexpected slave address")
    else if not (crc_matches response)
    then err (value_error "write response CRC mismatch")
    else if get_or response 1 0 == bit_or write_single_register 0x80
    then (if not (length response == 5)
        then err (value_error "invalid write exception response length")
        else err (device_exception (get_or response 2 0)))
    else if not (get_or response 1 0 == write_single_register) || not (length response == 8)
    then err (value_error "unexpected write response shape")
    else if not (bytes_eq response request)
    then err (value_error "write response does not match the request")
    else ok tt
