-- ===== src/Evidence/Records.antt =====
-- The records and the bundles of src/wendougee_data/evidence.py, from the bytes of the responses.
pub mod Documents
use wendougee_data_ha.Base.{
  ℕ, ◌*◌, List, [], ◌∷◌, ◌++◌, Bool, true, false, ◌&&◌, ◌||◌, not, Option, none, some, is_some,
  String, Error, Result, ok, err, value_error, ◌>>=◌, length, ltb, leb, ◌==◌, text_eq, require,
  if◌then◌else◌,
}
use wendougee_data_ha.Base.Bytes.{Bytes}
use wendougee_data_ha.Journal.{Instant}
use wendougee_data_ha.Reads.{
  ReadOperation, telemetry, configuration, water_alarm_enabled, operating_state, read_operations,
  build_read_request, validate_read_response,
}
use wendougee_data_ha.Telemetry.{Telemetry, parse_telemetry_response}
use wendougee_data_ha.State
use wendougee_data_ha.State.{
  Configuration, HeatingMode, pulse, full_speed, OperatingState, Mode, idle, profile, manual,
  cleaning, free_variable, ambiguous, unknown, decode_configuration, decode_water_alarm_enabled,
  decode_operating_state,
}
use wendougee_data_ha.Evidence.{
  EvidenceSource, PrivacyStatus, private_unreviewed, public_sanitized, Scalar, null, unlike, flag,
  number, words, Timestamp, naive, zoned, Texts, Dict,
}
use Prim.Native.Char.{Char, code}
use Prim.Native.String.{count, [] as empty, ◌∷◌ as cons}

pub record EvidenceRecord : Type 0 where
  pub operation : ReadOperation
  pub capability_ids : List String
  pub request : Bytes
  pub response : Bytes
  pub decoded : Dict
  pub units : Dict
  pub known_limitations : List String
  pub physical_comparison : String

pub record EvidenceBundle : Type 0 where
  pub source : EvidenceSource
  pub privacy_status : PrivacyStatus
  pub captured_at : Instant
  pub model : String
  pub firmware : String
  pub official_app_version : String
  pub records : List EvidenceRecord
  pub notes : String
  pub privacy_reviewed_at : Option Instant
  pub privacy_reviewer : Option String

-- `_CAPABILITIES`
abbrev pub capabilities_of : ReadOperation → List String
capabilities_of telemetry =
    "T02" ∷ "S01" ∷ "S02" ∷ "S03" ∷ "S04" ∷ "S05" ∷ "S06" ∷ "S07" ∷ "S08" ∷ "S09" ∷ "S10" ∷ []
capabilities_of configuration = "T03" ∷ "B01" ∷ "B02" ∷ "B03" ∷ "B04" ∷ "B05" ∷ []
capabilities_of water_alarm_enabled = "B06" ∷ []
capabilities_of operating_state = "T04" ∷ "S11" ∷ []

-- `_LIMITATIONS`
abbrev pub limitations_of : ReadOperation → List String
limitations_of telemetry =
    "CRC and decoding do not independently validate units or physical meaning."
    ∷ "Flow, scale, elapsed-time, and pump-time semantics require comparison." ∷ []
limitations_of configuration =
    "Unknown registers are retained only in the private response frame."
    ∷ "Upstream ranges are not manufacturer-validated safety limits." ∷ []
limitations_of water_alarm_enabled =
    "This setting is distinct from the current water-shortage alarm state." ∷ []
limitations_of operating_state =
    "Bit meanings are provisional and conflicting flags remain ambiguous." ∷ []

-- `_check_text`
unfoldable pub check_text : Texts → Scalar → Result String
check_text texts (words s) =
    if (count s == 0) || ltb 500 (count s)
    then err (value_error "must be a non-empty bounded string")
    else if texts.is_sensitive s
    then err (value_error "contains likely sensitive data")
    else ok s
check_text texts _ = err (value_error "must be a non-empty bounded string")

-- `_require_timestamp`
unfoldable pub require_timestamp : Timestamp → Result Instant
require_timestamp (naive t) = err (value_error "must include a timezone")
require_timestamp (zoned t offset) = ok t

maybe_flag : Option Bool → Scalar
maybe_flag none = null
maybe_flag (some b) = flag b

mode_text : Option HeatingMode → Scalar
mode_text none = null
mode_text (some pulse) = words "pulse"
mode_text (some full_speed) = words "full_speed"

state_text : Mode → Scalar
state_text idle = words "idle"
state_text profile = words "profile"
state_text manual = words "manual"
state_text cleaning = words "cleaning"
state_text free_variable = words "free_variable"
state_text ambiguous = words "ambiguous"
state_text unknown = words "unknown"

telemetry_values : Telemetry → Dict
telemetry_values t =
    ("elapsed_brew_time_seconds", number t.elapsed_brew_time_seconds)
    ∷ ("water_level_alarm", flag t.water_level_alarm)
    ∷ ("steam_temperature_celsius", number t.steam_boiler_temperature_celsius)
    ∷ ("brew_temperature_celsius", number t.brew_boiler_temperature_celsius)
    ∷ ("pressure_bar", number t.pressure_bar)
    ∷ ("pumped_volume_ml", number (10 * t.dispensed_volume_ml))
    ∷ ("scale_weight_grams", number t.scale_weight_grams)
    ∷ ("pump_active_time_seconds", number (10 * t.pump_active_time_seconds))
    ∷ ("flow_ml_per_second", number (10 * t.instantaneous_flow_ml_per_second))
    ∷ ("weight_rate_grams_per_second", number t.weight_rate_grams_per_second)
    ∷ []

-- `asdict(configuration)` without its registers
configuration_values : Configuration → Dict
unfolding maybe_flag mode_text
configuration_values c =
    ("cleaning_time_seconds", number c.cleaning_time_seconds)
    ∷ ("cleaning_rest_seconds", number c.cleaning_rest_seconds)
    ∷ ("cleaning_repetitions", number (10 * c.cleaning_repetitions))
    ∷ ("steam_heating_enabled", maybe_flag c.steam_heating_enabled)
    ∷ ("brew_heating_enabled", maybe_flag c.brew_heating_enabled)
    ∷ ("steam_target_celsius", number (10 * c.steam_target_celsius))
    ∷ ("brew_target_celsius", number (10 * c.brew_target_celsius))
    ∷ ("manual_time_seconds", number c.manual_time_seconds)
    ∷ ("manual_pressure_bar", number c.manual_pressure_bar)
    ∷ ("heating_mode", mode_text c.heating_mode)
    ∷ []

state_values : OperatingState → Dict
unfolding state_text
state_values s =
    ("state", state_text (State.state s))
    ∷ ("profile_active", flag s.profile_active)
    ∷ ("manual_active", flag s.manual_active)
    ∷ ("cleaning_active", flag s.cleaning_active)
    ∷ ("free_variable_active", flag s.free_variable_active)
    ∷ ("unknown_bits", number (10 * s.unknown_bits))
    ∷ []

pub units_of : ReadOperation → Dict
units_of telemetry =
    ("elapsed_brew_time_seconds", words "s")
    ∷ ("steam_temperature_celsius", words "°C")
    ∷ ("brew_temperature_celsius", words "°C")
    ∷ ("pressure_bar", words "bar")
    ∷ ("pumped_volume_ml", words "mL")
    ∷ ("scale_weight_grams", words "g")
    ∷ ("pump_active_time_seconds", words "s")
    ∷ ("flow_ml_per_second", words "mL/s")
    ∷ ("weight_rate_grams_per_second", words "g/s")
    ∷ []
units_of configuration =
    ("cleaning_time_seconds", words "s")
    ∷ ("cleaning_rest_seconds", words "s")
    ∷ ("steam_target_celsius", words "°C")
    ∷ ("brew_target_celsius", words "°C")
    ∷ ("manual_time_seconds", words "s")
    ∷ ("manual_pressure_bar", words "bar")
    ∷ []
units_of _ = []

-- `_decoded_values`
unfoldable pub decoded_values : ReadOperation → Bytes → Result Dict
unfolding telemetry_values configuration_values state_values maybe_flag
decoded_values telemetry frame = do t ← parse_telemetry_response frame; ok (telemetry_values t)
decoded_values configuration frame = do c ← decode_configuration frame; ok (configuration_values c)
decoded_values water_alarm_enabled frame = do
  alarm ← decode_water_alarm_enabled frame
  ok (("water_alarm_enabled", maybe_flag alarm) ∷ [])
decoded_values operating_state frame = do s ← decode_operating_state frame; ok (state_values s)

-- `_CAPABILITY_PATTERN.fullmatch`
is_digit : Char → Bool
is_digit c = leb 48 (code c) && leb (code c) 57

is_capability : String → Bool
unfolding is_digit
is_capability (cons c (cons d (cons e empty))) =
    (leb 65 (code c) && leb (code c) 90) && (is_digit d && is_digit e)
is_capability _ = false

all_capabilities : List String → Bool
unfolding is_capability
all_capabilities [] = true
all_capabilities (s ∷ ss) = is_capability s && all_capabilities ss

-- `create_evidence_record`
unfoldable pub create_evidence_record : ReadOperation → Bytes → Result EvidenceRecord
unfolding decoded_values units_of all_capabilities
create_evidence_record op frame = do
  _ ← validate_read_response frame op
  decoded ← decoded_values op frame
  _ ← require (all_capabilities (capabilities_of op)) "invalid capability identifier"
  ok (record {
    operation = op;
    capability_ids = capabilities_of op;
    request = build_read_request op;
    response = frame;
    decoded = decoded;
    units = units_of op;
    known_limitations = limitations_of op;
    physical_comparison = "not_performed";
  })

abbrev pub Frames : Type 0
Frames = ReadOperation → Option Bytes

with_record :
    ReadOperation → Option Bytes → Result (List EvidenceRecord) → Result (List EvidenceRecord)
unfolding create_evidence_record
with_record op none rest = rest
with_record op (some frame) rest = do r ← create_evidence_record op frame; rs ← rest; ok (r ∷ rs)

-- the records of the operations in the frames, in their order
unfoldable pub create_records : Frames → List ReadOperation → Result (List EvidenceRecord)
unfolding with_record
create_records frames [] = ok []
create_records frames (op ∷ ops) = with_record op (frames op) (create_records frames ops)

pub has_frame : Frames → List ReadOperation → Bool
has_frame frames [] = false
has_frame frames (op ∷ ops) = is_some (frames op) || has_frame frames ops

-- the review metadata of a public bundle; a private one has none
review : Texts → PrivacyStatus → Option Timestamp → Scalar → Result (Option Instant × Option String)
unfolding check_text require_timestamp
review texts public_sanitized (some at) null =
    err (value_error "public evidence requires privacy review metadata")
review texts public_sanitized (some at) reviewer = do
  t ← require_timestamp at
  name ← check_text texts reviewer
  ok (some t, some name)
review texts public_sanitized none reviewer =
    err (value_error "public evidence requires privacy review metadata")
review texts private_unreviewed none null = ok (none, none)
review texts private_unreviewed _ _ =
    err (value_error "private evidence must not claim completed privacy review")

-- the arguments of `create_evidence_bundle`
pub record Provenance : Type 0 where
  pub source : EvidenceSource
  pub privacy_status : PrivacyStatus
  pub captured_at : Timestamp
  pub model : Scalar
  pub firmware : Scalar
  pub official_app_version : Scalar
  pub frames : Frames
  pub notes : Scalar
  pub privacy_reviewed_at : Option Timestamp
  pub privacy_reviewer : Scalar

-- `create_evidence_bundle`
unfoldable pub create_evidence_bundle : Texts → Provenance → Result EvidenceBundle
unfolding check_text require_timestamp has_frame review create_records
create_evidence_bundle texts p = do
  captured_at ← require_timestamp p.captured_at
  model ← check_text texts p.model
  firmware ← check_text texts p.firmware
  version ← check_text texts p.official_app_version
  notes ← check_text texts p.notes
  _ ← require (has_frame p.frames read_operations) "at least one evidence record is required"
  (reviewed_at, reviewer) ← review texts p.privacy_status p.privacy_reviewed_at p.privacy_reviewer
  records ← create_records p.frames read_operations
  ok (record {
    source = p.source;
    privacy_status = p.privacy_status;
    captured_at = captured_at;
    model = model;
    firmware = firmware;
    official_app_version = version;
    records = records;
    notes = notes;
    privacy_reviewed_at = reviewed_at;
    privacy_reviewer = reviewer;
  })
