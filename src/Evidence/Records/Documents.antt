-- ===== src/Evidence/Records/Documents.antt =====
-- `bundle_to_dict` and `bundle_from_dict` of src/wendougee_data/evidence.py. A value that is not a
-- dictionary with exactly the expected keys is `malformed`.
pub mod Accepted
pub mod Collection
pub mod Equality
pub mod RoundTrip
use wendougee_data_ha.Base.{
  ℕ, List, [], ◌∷◌, map, Bool, true, false, ◌&&◌, not, Option, none, some, is_some, String, Error,
  Result, ok, err, value_error, ◌>>=◌, ◌>>◌, text_eq, require, if◌then◌else◌,
}
use wendougee_data_ha.Base.Bytes.{Bytes}
use wendougee_data_ha.Journal.{Instant}
use wendougee_data_ha.Reads.{
  ReadOperation, telemetry, configuration, water_alarm_enabled, operating_state,
}
use wendougee_data_ha.Evidence.{
  EvidenceSource, synthetic, hardware_capture, PrivacyStatus, private_unreviewed, public_sanitized,
  Scalar, null, unlike, flag, number, words, Timestamp, Texts, Dict, scalar_eq, scalars_eq, dict_eq,
}
use wendougee_data_ha.Evidence.Hex.{hex, from_hex}
use wendougee_data_ha.Evidence.Records.{
  EvidenceRecord, EvidenceBundle, Frames, Provenance, create_evidence_bundle, require_timestamp,
}

pub data DictValue : Type 0 where
  no_dict : DictValue
  dict : Dict → DictValue

pub data ListValue : Type 0 where
  no_list : ListValue
  list : List Scalar → ListValue

pub record RecordDocument : Type 0 where
  pub operation : Scalar
  pub capability_ids : ListValue
  pub request_hex : Scalar
  pub response_hex : Scalar
  pub decoded : DictValue
  pub units : DictValue
  pub known_limitations : ListValue
  pub physical_comparison : Scalar

pub data RecordValue : Type 0 where
  malformed : RecordValue
  supplied : RecordDocument → RecordValue

pub data RecordsValue : Type 0 where
  no_records : RecordsValue
  records : List RecordValue → RecordsValue

pub record BundleDocument : Type 0 where
  pub schema : Scalar
  pub source : Scalar
  pub privacy_status : Scalar
  pub captured_at : Scalar
  pub model : Scalar
  pub firmware : Scalar
  pub official_app_version : Scalar
  pub notes : Scalar
  pub privacy_reviewed_at : Scalar
  pub privacy_reviewer : Scalar
  pub records : RecordsValue

pub data Value : Type 0 where
  malformed : Value
  document : BundleDocument → Value

abbrev schema : String
schema = "wendougee-data-evidence/v1"

-- the values of the two enumerations
source_text : EvidenceSource → String
source_text synthetic = "synthetic"
source_text hardware_capture = "hardware_capture"

status_text : PrivacyStatus → String
status_text private_unreviewed = "private_unreviewed"
status_text public_sanitized = "public_sanitized"

-- `EvidenceSource(value)` and `PrivacyStatus(value)`
source_of : Scalar → Result EvidenceSource
source_of (words s) =
    if text_eq s "synthetic"
    then ok synthetic
    else if text_eq s "hardware_capture"
    then ok hardware_capture
    else err (value_error "not a valid EvidenceSource")
source_of _ = err (value_error "not a valid EvidenceSource")

status_of : Scalar → Result PrivacyStatus
status_of (words s) =
    if text_eq s "private_unreviewed"
    then ok private_unreviewed
    else if text_eq s "public_sanitized"
    then ok public_sanitized
    else err (value_error "not a valid PrivacyStatus")
status_of _ = err (value_error "not a valid PrivacyStatus")

-- `operation.name.lower()`
operation_text : ReadOperation → String
operation_text telemetry = "telemetry"
operation_text configuration = "configuration"
operation_text water_alarm_enabled = "water_alarm_enabled"
operation_text operating_state = "operating_state"

-- `ReadOperation[name]`
operation_of : String → Result ReadOperation
operation_of s =
    if text_eq s "TELEMETRY"
    then ok telemetry
    else if text_eq s "CONFIGURATION"
    then ok configuration
    else if text_eq s "WATER_ALARM_ENABLED"
    then ok water_alarm_enabled
    else if text_eq s "OPERATING_STATE"
    then ok operating_state
    else err (value_error "invalid operation or response hex")

maybe_words : Option String → Scalar
maybe_words none = null
maybe_words (some s) = words s

-- the text of a time in UTC, with `Z` for its offset
time_text : Texts → Instant → String
time_text texts t = texts.replace (texts.isoformat t) "+00:00" "Z"

-- `_format_timestamp`
maybe_time : Texts → Option Instant → Scalar
unfolding time_text
maybe_time texts none = null
maybe_time texts (some t) = words (time_text texts t)

pub record_to_dict : EvidenceRecord → RecordDocument
unfolding operation_text
record_to_dict r = record {
  operation = words (operation_text r.operation);
  capability_ids = list (map words r.capability_ids);
  request_hex = words (hex r.request);
  response_hex = words (hex r.response);
  decoded = dict r.decoded;
  units = dict r.units;
  known_limitations = list (map words r.known_limitations);
  physical_comparison = words r.physical_comparison;
}

-- `bundle_to_dict`
unfoldable pub bundle_to_dict : Texts → EvidenceBundle → Value
unfolding source_text status_text maybe_words maybe_time record_to_dict
bundle_to_dict texts b = document (record {
  schema = words schema;
  source = words (source_text b.source);
  privacy_status = words (status_text b.privacy_status);
  captured_at = maybe_time texts (some b.captured_at);
  model = words b.model;
  firmware = words b.firmware;
  official_app_version = words b.official_app_version;
  notes = words b.notes;
  privacy_reviewed_at = maybe_time texts b.privacy_reviewed_at;
  privacy_reviewer = maybe_words b.privacy_reviewer;
  records = records (map (λ r. supplied (record_to_dict r)) b.records);
})

-- the two dictionaries `frames` and `supplied_records`, in one
abbrev pub Collected : Type 0
Collected = ReadOperation → Option (Bytes × RecordDocument)

same_operation : ReadOperation → ReadOperation → Bool
same_operation telemetry telemetry = true
same_operation configuration configuration = true
same_operation water_alarm_enabled water_alarm_enabled = true
same_operation operating_state operating_state = true
same_operation _ _ = false

enter : ReadOperation → Bytes × RecordDocument → Collected → Collected
unfolding same_operation
enter op entry c op' = if same_operation op op' then some entry else c op'

-- the operation and the response of a supplied record
operation_named : Texts → Scalar → Result ReadOperation
unfolding operation_of
operation_named texts (words s) = operation_of (texts.upper s)
operation_named texts _ = err (value_error "invalid operation or response hex")

parsed : Option Bytes → Result Bytes
parsed none = err (value_error "invalid operation or response hex")
parsed (some bs) = ok bs

response_of : Scalar → Result Bytes
unfolding parsed
response_of (words s) = parsed (from_hex s)
response_of _ = err (value_error "invalid operation or response hex")

-- the loop over the supplied records
unfoldable pub collect : Texts → List RecordValue → Collected → Result Collected
unfolding operation_named response_of enter
collect texts [] c = ok c
collect texts (malformed ∷ rest) c = err (value_error "unexpected evidence record fields")
collect texts (supplied r ∷ rest) c = do
  op ← operation_named texts r.operation
  response ← response_of r.response_hex
  _ ← require (not (is_some (c op))) "duplicate evidence operation"
  collect texts rest (enter op (response, r) c)

-- `_parse_timestamp`
with_zone : Option Timestamp → Result (Option Instant)
with_zone none = err (value_error "must be an RFC 3339 string")
with_zone (some t) = do at ← require_timestamp t; ok (some at)

parse_timestamp : Texts → Scalar → Result (Option Instant)
unfolding with_zone
parse_timestamp texts null = ok none
parse_timestamp texts (words s) = with_zone (texts.from_iso (texts.replace s "Z" "+00:00"))
parse_timestamp texts _ = err (value_error "must be an RFC 3339 string")

is_dict : DictValue → Dict → Bool
is_dict no_dict d = false
is_dict (dict e) d = dict_eq e d

is_list : ListValue → List String → Bool
is_list no_list ss = false
is_list (list vs) ss = scalars_eq vs (map words ss)

-- the claims of a supplied record against those of its response
check_claims : RecordDocument → EvidenceRecord → Result (Unit {0})
unfolding is_dict is_list
check_claims s r = do
  require (scalar_eq s.request_hex (words (hex r.request)))
      "request does not match allowlisted operation"
  require (is_dict s.decoded r.decoded) "decoded claims do not match response"
  require (is_dict s.units r.units) "units do not match the schema"
  require (is_list s.capability_ids r.capability_ids)
      "capability identifiers do not match the operation"
  require (is_list s.known_limitations r.known_limitations)
      "known limitations do not match the schema"
  require (scalar_eq s.physical_comparison (words r.physical_comparison))
      "unsupported physical comparison claim"

check_record : Option (Bytes × RecordDocument) → EvidenceRecord → Result (Unit {0})
unfolding check_claims
check_record none r = err (value_error "missing")
check_record (some (_, s)) r = check_claims s r

unfoldable pub check_records : Collected → List EvidenceRecord → Result (Unit {0})
unfolding check_record
check_records c [] = ok tt
check_records c (r ∷ rs) = check_record (c r.operation) r >> check_records c rs

pub response_in : Option (Bytes × RecordDocument) → Option Bytes
response_in none = none
response_in (some (response, _)) = some response

abbrev frames_of : Collected → Frames
frames_of c op = response_in (c op)

listed_records : RecordsValue → Result (List RecordValue)
listed_records no_records = err (value_error "records must be a list")
listed_records (records rs) = ok rs

present : Option Instant → Result Instant
present none = err (value_error "captured_at is required")
present (some t) = ok t

zoned_utc : Option Instant → Option Timestamp
zoned_utc none = none
zoned_utc (some t) = some (Timestamp.zoned t 0)

-- `bundle_from_dict`
unfoldable pub bundle_from_dict : Texts → Value → Result EvidenceBundle
unfolding source_of status_of parse_timestamp listed_records present zoned_utc collect check_records
bundle_from_dict texts malformed = err (value_error "unexpected evidence document fields")
bundle_from_dict texts (document d) = do
  _ ← require (scalar_eq d.schema (words schema)) "unsupported evidence schema"
  rs ← listed_records d.records
  c ← collect texts rs (λ op. none)
  at ← parse_timestamp texts d.captured_at
  captured_at ← present at
  source ← source_of d.source
  status ← status_of d.privacy_status
  reviewed_at ← parse_timestamp texts d.privacy_reviewed_at
  b ← create_evidence_bundle texts (record {
    source = source;
    privacy_status = status;
    captured_at = Timestamp.zoned captured_at 0;
    model = d.model;
    firmware = d.firmware;
    official_app_version = d.official_app_version;
    frames = frames_of c;
    notes = d.notes;
    privacy_reviewed_at = zoned_utc reviewed_at;
    privacy_reviewer = d.privacy_reviewer;
  })
  _ ← check_records c b.records
  ok b
