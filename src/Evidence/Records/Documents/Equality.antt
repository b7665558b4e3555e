-- ===== src/Evidence/Records/Documents/Equality.antt =====
-- The values of the documents equal themselves.
use wendougee_data_ha.Base.{
  ◌≡◌, refl, List, [], ◌∷◌, map, Bool, true, false, Option, none, some, String, Result-cases, inl,
  inr, OnOk, eq_self, text_eq_self,
}
use wendougee_data_ha.Base.Bytes.{Bytes}
use wendougee_data_ha.Reads.{
  ReadOperation, telemetry, configuration, water_alarm_enabled, operating_state,
}
use wendougee_data_ha.Telemetry.{Telemetry, parse_telemetry_response}
use wendougee_data_ha.State.{
  Configuration, HeatingMode, pulse, full_speed, OperatingState, Mode, idle, profile, manual,
  cleaning, free_variable, ambiguous, unknown, decode_configuration, decode_water_alarm_enabled,
  decode_operating_state,
}
use wendougee_data_ha.Evidence.{words, scalar_eq, scalars_eq, dict_eq}
use wendougee_data_ha.Evidence.Records.{
  maybe_flag, mode_text, state_text, telemetry_values, configuration_values, state_values, units_of,
  decoded_values,
}

maybe_flag_self : (o : Option Bool) → scalar_eq (maybe_flag o) (maybe_flag o) ≡ true
unfolding maybe_flag
maybe_flag_self none = refl
maybe_flag_self (some true) = refl
maybe_flag_self (some false) = refl

mode_text_self : (o : Option HeatingMode) → scalar_eq (mode_text o) (mode_text o) ≡ true
unfolding mode_text
mode_text_self none = refl
mode_text_self (some pulse) = refl
mode_text_self (some full_speed) = refl

state_text_self : (m : Mode) → scalar_eq (state_text m) (state_text m) ≡ true
unfolding state_text
state_text_self idle = refl
state_text_self profile = refl
state_text_self manual = refl
state_text_self cleaning = refl
state_text_self free_variable = refl
state_text_self ambiguous = refl
state_text_self unknown = refl

pub units_of_self : (op : ReadOperation) → dict_eq (units_of op) (units_of op) ≡ true
unfolding units_of
units_of_self telemetry = refl
units_of_self configuration = refl
units_of_self water_alarm_enabled = refl
units_of_self operating_state = refl

telemetry_values_self : (t : Telemetry) → dict_eq (telemetry_values t) (telemetry_values t) ≡ true
unfolding telemetry_values
telemetry_values_self t = simp (eq_self) refl

configuration_values_self :
    (c : Configuration) → dict_eq (configuration_values c) (configuration_values c) ≡ true
unfolding configuration_values
configuration_values_self c = simp (eq_self, maybe_flag_self, mode_text_self) refl

state_values_self : (s : OperatingState) → dict_eq (state_values s) (state_values s) ≡ true
unfolding state_values
state_values_self s = simp (eq_self, state_text_self) refl

pub texts_self : (ss : List String) → scalars_eq (map words ss) (map words ss) ≡ true
texts_self [] = refl
texts_self (s ∷ ss) = simp (text_eq_self, texts_self ss) refl

-- what a response decodes to equals itself
pub decoded_values_self :
    (op : ReadOperation) (frame : Bytes) → OnOk (λ d. dict_eq d d ≡ true) (decoded_values op frame)
unfolding decoded_values
decoded_values_self telemetry frame = elim (Result-cases (parse_telemetry_response frame)) [
  | inl (t, e) ↦ rw (e) (telemetry_values_self t)
  | inr (x, e) ↦ rw (e) tt
]
decoded_values_self configuration frame = elim (Result-cases (decode_configuration frame)) [
  | inl (c, e) ↦ rw (e) (configuration_values_self c)
  | inr (x, e) ↦ rw (e) tt
]
decoded_values_self water_alarm_enabled frame =
    elim (Result-cases (decode_water_alarm_enabled frame)) [
      | inl (o, e) ↦ rw (e) (simp (maybe_flag_self) refl)
      | inr (x, e) ↦ rw (e) tt
    ]
decoded_values_self operating_state frame = elim (Result-cases (decode_operating_state frame)) [
  | inl (s, e) ↦ rw (e) (state_values_self s)
  | inr (x, e) ↦ rw (e) tt
]
