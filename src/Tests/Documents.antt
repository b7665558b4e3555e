-- ===== src/Tests/Documents.antt =====
-- A bundle with one response, written and read back.
use wendougee_data_ha.Base.{
  ℕ, zero, suc, ◌+◌, ◌-◌, Bool, ◌&&◌, ◌==◌, ◌≡◌, refl, ap, ◌∙◌, arith, [], ◌∷◌, true, false, Option,
  none, some, String, ok, text_eq, if◌then◌else◌,
}
use mathlib.Core.Path.{subst}
use wendougee_data_ha.Base.Bytes.{Bytes, IsBytes}
use wendougee_data_ha.Crc.{crc16_modbus}
use wendougee_data_ha.Reads.{
  ReadOperation, telemetry, configuration, water_alarm_enabled, operating_state, build_read_request,
  validate_read_response, crc_matches,
}
use wendougee_data_ha.State
use wendougee_data_ha.State.{decode_operating_state, operating_state_of}
use wendougee_data_ha.Evidence.{
  synthetic, private_unreviewed, null, flag, number, words, zoned, Texts,
}
use wendougee_data_ha.Evidence.Records.{EvidenceBundle, Frames, Provenance, create_evidence_bundle}
use wendougee_data_ha.Evidence.Records.Documents.{bundle_to_dict, bundle_from_dict}
use wendougee_data_ha.Evidence.Records.Documents.RoundTrip.{
  IsLawful, AreBytes, bundle_from_dict-bundle_to_dict,
}
use wendougee_data_ha.Evidence.Records.Documents.Accepted.{IsClean, bundle_from_dict-IsClean}
use Prim.Native.String.{count, [] as empty, ◌∷◌ as cons}
use Prim.Native.String
use Prim.Native.Char.{Char, code}
use Prim.Native.String.count

abbrev frame : Bytes
frame = 1 ∷ 1 ∷ 3 ∷ 5 ∷ 0 ∷ 0 ∷ 0x2C ∷ 0x4F ∷ []

abbrev stroke : Char
stroke = String.char_at "|" 0

-- a time as that many strokes, with an offset after them
with_offset : String → ℕ → String
with_offset offset zero = offset
with_offset offset (suc n) = cons stroke (with_offset offset n)

count-with_offset : (n : ℕ) → count (with_offset "+00:00" n) ≡ n + 6
unfolding with_offset
count-with_offset zero = refl
count-with_offset (suc n) =
    count.cons _ (with_offset "+00:00" n) ∙ ap suc (count-with_offset n) ∙ omega arith

starts : String → String → Bool
starts empty s = true
starts (cons c old) empty = false
starts (cons c old) (cons d s) = (code c == code d) && starts old s

-- the replacement after as many characters as are to be skipped
replace_after : ℕ → String → String → String → String
unfolding starts
replace_after skipped empty old new = empty
replace_after (suc n) (cons c s) old new = replace_after n s old new
replace_after zero (cons c s) old new =
    let replaced = String.◌++◌ new (replace_after (count old - 1) s old new) in
    let kept = cons c (replace_after zero s old new) in
    if starts old (cons c s) then replaced else kept

replace : String → String → String → String
unfolding replace_after
replace s old new = replace_after zero s old new

replace-with_offset :
    (n : ℕ)
    → (replace (with_offset "+00:00" n) "+00:00" "Z" ≡ with_offset "Z" n)
      × (replace (with_offset "Z" n) "Z" "+00:00" ≡ with_offset "+00:00" n)
unfolding with_offset replace starts replace_after
replace-with_offset zero = (refl, refl)
replace-with_offset (suc n) =
    let (there, back) = replace-with_offset n in (ap (cons stroke) there, ap (cons stroke) back)

upper : String → String
upper s =
    if text_eq s "telemetry"
    then "TELEMETRY"
    else if text_eq s "configuration"
    then "CONFIGURATION"
    else if text_eq s "water_alarm_enabled"
    then "WATER_ALARM_ENABLED"
    else if text_eq s "operating_state"
    then "OPERATING_STATE"
    else s

unfoldable texts : Texts
unfolding with_offset replace upper
texts = record {
  is_sensitive = λ s. text_eq s "secret: 1";
  isoformat = with_offset "+00:00";
  from_iso = λ s. some (zoned (count s - 6) 0);
  replace = replace;
  upper = upper;
}

lawful : IsLawful texts
unfolding texts
lawful = record {
  upper = record {
    telemetry = refl;
    configuration = refl;
    water_alarm_enabled = refl;
    operating_state = refl;
  };
  restored = λ t.
      let (there, back) = replace-with_offset t in ap (λ s. replace s "Z" "+00:00") there ∙ back;
  times = λ t.
      ap (λ n. some (zoned (n - 6) 0)) (count-with_offset t)
      ∙ ap (λ m. some (zoned m 0)) (omega arith);
}

abbrev frames : Frames
frames operating_state = some frame
frames _ = none

abbrev BytesOf : Option Bytes → Type 0
BytesOf none = Unit
BytesOf (some bs) = IsBytes bs

frames-AreBytes : AreBytes frames
frames-AreBytes op bs e = subst BytesOf e (held op)
  where
    held : (op : ReadOperation) → BytesOf (frames op)
    held telemetry = tt
    held configuration = tt
    held water_alarm_enabled = tt
    held operating_state = ground arith

abbrev provenance : Provenance
provenance = record {
  source = synthetic;
  privacy_status = private_unreviewed;
  captured_at = zoned 5 3600;
  model = words "DATA S";
  firmware = words "1.0";
  official_app_version = words "2.0";
  frames = frames;
  notes = words "one response";
  privacy_reviewed_at = none;
  privacy_reviewer = null;
}

abbrev bundle : EvidenceBundle
bundle = record {
  source = synthetic;
  privacy_status = private_unreviewed;
  captured_at = 5;
  model = "DATA S";
  firmware = "1.0";
  official_app_version = "2.0";
  records =
      (record {
        operation = operating_state;
        capability_ids = "T04" ∷ "S11" ∷ [];
        request = build_read_request operating_state;
        response = frame;
        decoded =
            ("state", words "unknown")
            ∷ ("profile_active", flag true)
            ∷ ("manual_active", flag false)
            ∷ ("cleaning_active", flag false)
            ∷ ("free_variable_active", flag false)
            ∷ ("unknown_bits", number 40)
            ∷ [];
        units = [];
        known_limitations =
            "Bit meanings are provisional and conflicting flags remain ambiguous." ∷ [];
        physical_comparison = "not_performed";
      })
      ∷ [];
  notes = "one response";
  privacy_reviewed_at = none;
  privacy_reviewer = none;
}

created : create_evidence_bundle texts provenance ≡ ok bundle
unfolding create_evidence_bundle texts validate_read_response crc_matches crc16_modbus
    decode_operating_state State.state operating_state_of
created = refl

bundle_from_dict-bundle_to_dict_example :
    bundle_from_dict texts (bundle_to_dict texts bundle) ≡ ok bundle
bundle_from_dict-bundle_to_dict_example =
    bundle_from_dict-bundle_to_dict texts lawful provenance bundle frames-AreBytes created

bundle_from_dict-IsClean_example : IsClean texts bundle
bundle_from_dict-IsClean_example =
    bundle_from_dict-IsClean texts (bundle_to_dict texts bundle) bundle
      bundle_from_dict-bundle_to_dict_example
