-- ===== src/Evidence/Records/Documents/Collection.antt =====
-- The records that were created, collected again from their documents.
use wendougee_data_ha.Base.{
  ◌≡◌, refl, ◌∙◌, List, [], ◌∷◌, map, true, false, none, some, ok, All, text_eq_self,
}
use wendougee_data_ha.Base.Bytes.{Bytes, IsBytes}
use wendougee_data_ha.Reads.{
  ReadOperation, telemetry, configuration, water_alarm_enabled, operating_state, read_operations,
  build_read_request,
}
use wendougee_data_ha.Evidence.{words, Texts, Dict, dict_eq}
use wendougee_data_ha.Evidence.Hex.{from_hex-hex}
use wendougee_data_ha.Evidence.Records.{
  EvidenceRecord, Frames, capabilities_of, limitations_of, units_of, create_evidence_record,
  with_record, create_records, has_frame,
}
use wendougee_data_ha.Evidence.Records.Documents.{
  RecordDocument, RecordValue, supplied, Collected, operation_text, operation_of, operation_named,
  parsed, response_in, response_of, same_operation, enter, record_to_dict, collect, frames_of,
  check_claims, check_record, check_records, is_dict, is_list,
}
use wendougee_data_ha.Evidence.Records.Documents.Equality.{units_of_self, texts_self}

-- upper case, on the names that the documents have
pub record UpperLaw (texts : Texts) : Type 0 where
  pub telemetry : texts.upper "telemetry" ≡ "TELEMETRY"
  pub configuration : texts.upper "configuration" ≡ "CONFIGURATION"
  pub water_alarm_enabled : texts.upper "water_alarm_enabled" ≡ "WATER_ALARM_ENABLED"
  pub operating_state : texts.upper "operating_state" ≡ "OPERATING_STATE"

-- the record that is created for a response
abbrev pub record_of : ReadOperation → Bytes → Dict → EvidenceRecord
record_of op frame decoded = record {
  operation = op;
  capability_ids = capabilities_of op;
  request = build_read_request op;
  response = frame;
  decoded = decoded;
  units = units_of op;
  known_limitations = limitations_of op;
  physical_comparison = "not_performed";
}

-- the records of some operations, one for each frame
pub data Created (frames : Frames) : List ReadOperation → List EvidenceRecord → Type 0 where
  nothing : Created frames [] []
  skip :
      (op : ReadOperation) (ops : List ReadOperation) (rs : List EvidenceRecord)
      → frames op ≡ none
      → Created frames ops rs
      → Created frames (op ∷ ops) rs
  take :
      (op : ReadOperation) (ops : List ReadOperation) (rs : List EvidenceRecord) (frame : Bytes)
      (decoded : Dict)
      → frames op ≡ some frame
      → create_evidence_record op frame ≡ ok (record_of op frame decoded)
      → dict_eq decoded decoded ≡ true
      → IsBytes frame
      → Created frames ops rs
      → Created frames (op ∷ ops) (record_of op frame decoded ∷ rs)

abbrev pub entry_of : EvidenceRecord → Bytes × RecordDocument
entry_of r = (r.response, record_to_dict r)

pub entries : List EvidenceRecord → Collected → Collected
unfolding enter
entries [] c = c
entries (r ∷ rs) c = entries rs (enter r.operation (entry_of r) c)

abbrev pub documents_of : List EvidenceRecord → List RecordValue
documents_of rs = map (λ r. supplied (record_to_dict r)) rs

pub IsApart : List ReadOperation → Type 0
IsApart [] = Unit
IsApart (op ∷ ops) =
    All (λ op'. (same_operation op op' ≡ false) × (same_operation op' op ≡ false)) ops × IsApart ops

abbrev pub IsFree : Collected → List ReadOperation → Type 0
IsFree c ops = All (λ op. c op ≡ none) ops

pub read_operations-IsApart : IsApart read_operations
unfolding IsApart same_operation
read_operations-IsApart = (
  ((refl, refl), ((refl, refl), ((refl, refl), tt))),
  (((refl, refl), ((refl, refl), tt)), (((refl, refl), tt), (tt, tt))),
)

same_operation_self : (op : ReadOperation) → same_operation op op ≡ true
unfolding same_operation
same_operation_self telemetry = refl
same_operation_self configuration = refl
same_operation_self water_alarm_enabled = refl
same_operation_self operating_state = refl

operation_named-text :
    (texts : Texts)
    → UpperLaw texts
    → (op : ReadOperation) → operation_named texts (words (operation_text op)) ≡ ok op
unfolding operation_named operation_text operation_of
operation_named-text texts law telemetry = rw (law.telemetry) refl
operation_named-text texts law configuration = rw (law.configuration) refl
operation_named-text texts law water_alarm_enabled = rw (law.water_alarm_enabled) refl
operation_named-text texts law operating_state = rw (law.operating_state) refl

response_of-hex :
    (r : EvidenceRecord)
    → IsBytes r.response
    → response_of (record_to_dict r).response_hex ≡ ok r.response
unfolding response_of record_to_dict parsed
response_of-hex r b = rw (from_hex-hex r.response b) refl

enter-IsFree :
    (op : ReadOperation) (e : Bytes × RecordDocument) (c : Collected) (ops : List ReadOperation)
    → All (λ op'. (same_operation op op' ≡ false) × (same_operation op' op ≡ false)) ops
    → IsFree c ops
    → IsFree (enter op e c) ops
unfolding enter
enter-IsFree op e c [] a f = tt
enter-IsFree op e c (op' ∷ ops) ((s, _), a) (h, f) = (simp (s, h) refl, enter-IsFree op e c ops a f)

-- The loop over the documents of created records enters each of them.
pub collect-documents_of :
    (texts : Texts)
    → UpperLaw texts
    → (frames : Frames) (ops : List ReadOperation) (rs : List EvidenceRecord) (c : Collected)
    → Created frames ops rs
    → IsApart ops
    → IsFree c ops
    → collect texts (documents_of rs) c ≡ ok (entries rs c)
unfolding collect entries IsApart response_of record_to_dict
collect-documents_of texts law frames _ _ c nothing a f = refl
collect-documents_of texts law frames _ rs c (skip op ops _ n k) (_, a) (_, f) =
    collect-documents_of texts law frames ops rs c k a f
collect-documents_of texts law frames _ _ c (take op ops rs frame d n e s b k) (p, a) (h, f) =
    simp (operation_named-text texts law op, response_of-hex (record_of op frame d) b, h)
      (collect-documents_of texts law frames ops rs (enter op (entry_of (record_of op frame d)) c) k
        a (enter-IsFree op (entry_of (record_of op frame d)) c ops p f))

-- an operation apart from the others keeps its entry
entries-apart :
    (frames : Frames) (op : ReadOperation) (ops : List ReadOperation) (rs : List EvidenceRecord)
    (c : Collected)
    → Created frames ops rs
    → All (λ op'. (same_operation op op' ≡ false) × (same_operation op' op ≡ false)) ops
    → entries rs c op ≡ c op
unfolding entries enter
entries-apart frames op _ _ c nothing a = refl
entries-apart frames op _ rs c (skip op' ops _ n k) (_, a) = entries-apart frames op ops rs c k a
entries-apart frames op _ _ c (take op' ops rs frame d n e s b k) ((_, q), a) =
    entries-apart frames op ops rs _ k a ∙ simp (q) refl

-- the entry of an operation whose record was entered
entries-own :
    (frames : Frames) (op : ReadOperation) (ops : List ReadOperation) (rs : List EvidenceRecord)
    (e : Bytes × RecordDocument) (c : Collected)
    → Created frames ops rs
    → All (λ op'. (same_operation op op' ≡ false) × (same_operation op' op ≡ false)) ops
    → entries rs (enter op e c) op ≡ some e
unfolding enter
entries-own frames op ops rs e c k a =
    entries-apart frames op ops rs _ k a ∙ rw (same_operation_self op) refl

-- a created record's claims are those of its document
check_claims_self :
    (op : ReadOperation) (frame : Bytes) (decoded : Dict)
    → dict_eq decoded decoded ≡ true
    → check_claims (record_to_dict (record_of op frame decoded)) (record_of op frame decoded)
      ≡ ok tt
unfolding check_claims record_to_dict is_dict is_list
check_claims_self op frame decoded s =
    simp
      (
        s,
        units_of_self op,
        texts_self (capabilities_of op),
        texts_self (limitations_of op),
        text_eq_self,
      )
      refl

-- The frames of the entries give the same records, and every record meets its claims.
pub record Recreated (frames : Frames) (c : Collected) (ops : List ReadOperation)
    (rs : List EvidenceRecord) : Type 0 where
  pub created : create_records (frames_of c) ops ≡ ok rs
  pub checked : check_records c rs ≡ ok tt
  pub same : has_frame (frames_of c) ops ≡ has_frame frames ops

pub Created-Recreated :
    (frames : Frames) (ops : List ReadOperation) (rs : List EvidenceRecord) (c : Collected)
    → Created frames ops rs
    → IsApart ops
    → IsFree c ops
    → Recreated frames (entries rs c) ops rs
unfolding create_records with_record has_frame IsApart entries check_records check_record
    response_in
Created-Recreated frames _ _ c nothing a f = record { created = refl; checked = refl; same = refl }
Created-Recreated frames _ rs c (skip op ops _ n k) (p, a) (h, f) =
    let rest = Created-Recreated frames ops rs c k a f in
    let own = entries-apart frames op ops rs c k p ∙ h in
    record {
      created = simp (own) rest.created;
      checked = rest.checked;
      same = simp (own, n) rest.same;
    }
Created-Recreated frames _ _ c (take op ops rs frame d n e s b k) (p, a) (h, f) =
    let entry = entry_of (record_of op frame d) in
    let rest =
      Created-Recreated frames ops rs (enter op entry c) k a (enter-IsFree op entry c ops p f) in
    let own = entries-own frames op ops rs entry c k p in
    record {
      created = simp (own, e, rest.created) refl;
      checked = simp (own, check_claims_self op frame d s) rest.checked;
      same = simp (own, n) refl;
    }
