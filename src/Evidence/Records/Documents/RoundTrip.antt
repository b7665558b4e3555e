-- ===== src/Evidence/Records/Documents/RoundTrip.antt =====
-- A bundle that was created is read back from its document.
use wendougee_data_ha.Base.{
  ◌≡◌, refl, sym, ap, ◌∙◌, List, [], ◌∷◌, Bool, true, false, ◌||◌, Option, none, some, String,
  Result, ok, err, inl, inr, Bool-cases, OnOk, of-OnOk, bind-OnOk, ◌>>=◌, ltb, ◌==◌, require,
}
use mathlib.Core.Path.{subst}
use wendougee_data_ha.Base.Bytes.{Bytes, IsBytes}
use wendougee_data_ha.Journal.{Instant}
use wendougee_data_ha.Reads.{
  ReadOperation, telemetry, configuration, water_alarm_enabled, operating_state, read_operations,
  validate_read_response,
}
use wendougee_data_ha.Evidence.{
  EvidenceSource, synthetic, hardware_capture, PrivacyStatus, private_unreviewed, public_sanitized,
  Scalar, null, unlike, flag, number, words, Timestamp, zoned, Texts, Dict, dict_eq,
}
use wendougee_data_ha.Evidence.Records.{
  EvidenceBundle, EvidenceRecord, Frames, Provenance, capabilities_of, all_capabilities,
  decoded_values, create_evidence_record, with_record, create_records, has_frame, check_text,
  require_timestamp, review, create_evidence_bundle,
}
use wendougee_data_ha.Evidence.Records.Documents.{
  bundle_to_dict, bundle_from_dict, maybe_words, time_text, maybe_time, source_text, source_of,
  status_text, status_of, zoned_utc, parse_timestamp, with_zone, present, listed_records,
}
use wendougee_data_ha.Evidence.Records.Documents.Equality.{decoded_values_self}
use wendougee_data_ha.Evidence.Records.Documents.Collection.{
  UpperLaw, record_of, Created, nothing, skip, take, read_operations-IsApart, Created-Recreated,
  collect-documents_of,
}
use Prim.Native.String.{count}

all_capabilities-true : (op : ReadOperation) → all_capabilities (capabilities_of op) ≡ true
unfolding all_capabilities
all_capabilities-true telemetry = refl
all_capabilities-true configuration = refl
all_capabilities-true water_alarm_enabled = refl
all_capabilities-true operating_state = refl

-- what a created record is
record IsRecord (op : ReadOperation) (frame : Bytes) (r : EvidenceRecord) : Type 0 where
  decoded : Dict
  same : r ≡ record_of op frame decoded
  self : dict_eq decoded decoded ≡ true

create_evidence_record-IsRecord :
    (op : ReadOperation) (frame : Bytes)
    → OnOk (IsRecord op frame) (create_evidence_record op frame)
unfolding create_evidence_record
create_evidence_record-IsRecord op frame =
    bind-OnOk (IsRecord op frame) (validate_read_response frame op) _ (λ _ _.
      bind-OnOk (IsRecord op frame) (decoded_values op frame) _ (λ d e.
        simp (all_capabilities-true op) (record {
          decoded = d;
          same = refl;
          self = of-OnOk (λ d'. dict_eq d' d' ≡ true) (decoded_values_self op frame) e;
        })))

-- the bytes of the frames
abbrev pub AreBytes : Frames → Type 0
AreBytes frames = (op : ReadOperation) (frame : Bytes) → frames op ≡ some frame → IsBytes frame

with_record-Created :
    (frames : Frames)
    → AreBytes frames
    → (op : ReadOperation) (ops : List ReadOperation) (o : Option Bytes)
      (rest : Result (List EvidenceRecord))
    → frames op ≡ o
    → OnOk (Created frames ops) rest
    → OnOk (Created frames (op ∷ ops)) (with_record op o rest)
unfolding with_record
with_record-Created frames bytes op ops none (ok rs) n k = skip op ops rs n k
with_record-Created frames bytes op ops none (err e) n k = tt
with_record-Created frames bytes op ops (some frame) rest n k =
    bind-OnOk (Created frames (op ∷ ops)) (create_evidence_record op frame) _ (λ r e.
      bind-OnOk (Created frames (op ∷ ops)) rest _ (λ rs h.
        let i = of-OnOk (IsRecord op frame) (create_evidence_record-IsRecord op frame) e in
        subst (λ x. Created frames (op ∷ ops) (x ∷ rs)) (sym i.same)
          (take op ops rs frame i.decoded n (e ∙ ap ok i.same) i.self (bytes op frame n)
            (of-OnOk (Created frames ops) k h))))

create_records-Created :
    (frames : Frames)
    → AreBytes frames
    → (ops : List ReadOperation) → OnOk (Created frames ops) (create_records frames ops)
unfolding create_records
create_records-Created frames bytes [] = nothing
create_records-Created frames bytes (op ∷ ops) =
    with_record-Created frames bytes op ops (frames op) (create_records frames ops) refl
      (create_records-Created frames bytes ops)

-- the ISO text of a time in UTC is restored after its offset became `Z`, and is read back
pub record IsLawful (texts : Texts) : Type 0 where
  pub upper : UpperLaw texts
  pub restored :
      (t : Instant)
      → texts.replace (texts.replace (texts.isoformat t) "+00:00" "Z") "Z" "+00:00"
        ≡ texts.isoformat t
  pub times : (t : Instant) → texts.from_iso (texts.isoformat t) ≡ some (zoned t 0)

-- what a created bundle keeps of the tests that it passed
record IsWellFormed (texts : Texts) (frames : Frames) (b : EvidenceBundle) : Type 0 where
  model : check_text texts (words b.model) ≡ ok b.model
  firmware : check_text texts (words b.firmware) ≡ ok b.firmware
  version : check_text texts (words b.official_app_version) ≡ ok b.official_app_version
  notes : check_text texts (words b.notes) ≡ ok b.notes
  filled : has_frame frames read_operations ≡ true
  reviewed :
      review texts b.privacy_status
        (zoned_utc b.privacy_reviewed_at)
        (maybe_words b.privacy_reviewer)
      ≡ ok (b.privacy_reviewed_at, b.privacy_reviewer)
  created : Created frames read_operations b.records

check_text-words :
    (texts : Texts) (v : Scalar)
    → OnOk (λ s. check_text texts (words s) ≡ ok s) (check_text texts v)
unfolding check_text
check_text-words texts null = tt
check_text-words texts unlike = tt
check_text-words texts (flag b) = tt
check_text-words texts (number n) = tt
check_text-words texts (words s) = elim (Bool-cases ((count s == 0) || ltb 500 (count s))) [
  | inl e ↦ rw (e) tt
  | inr e ↦ elim (Bool-cases (texts.is_sensitive s)) [
    | inl k ↦ rw (e, k) tt
    | inr k ↦ rw (e, k) (rw (e, k) refl)
  ]
]

source_of-text : (s : EvidenceSource) → source_of (words (source_text s)) ≡ ok s
unfolding source_of source_text
source_of-text synthetic = refl
source_of-text hardware_capture = refl

status_of-text : (s : PrivacyStatus) → status_of (words (status_text s)) ≡ ok s
unfolding status_of status_text
status_of-text private_unreviewed = refl
status_of-text public_sanitized = refl

parse_timestamp-maybe :
    (texts : Texts)
    → IsLawful texts
    → (o : Option Instant) → parse_timestamp texts (maybe_time texts o) ≡ ok o
unfolding parse_timestamp maybe_time time_text with_zone require_timestamp
parse_timestamp-maybe texts law none = refl
parse_timestamp-maybe texts law (some t) = rw (law.restored t, law.times t) refl

abbrev IsReviewed : Texts → PrivacyStatus → Option Instant × Option String → Type 0
IsReviewed texts status x = review texts status (zoned_utc x.0) (maybe_words x.1) ≡ ok x

reviewed-IsReviewed :
    (texts : Texts) (at : Timestamp) (v : Scalar)
    → OnOk
        (IsReviewed texts public_sanitized)
        (require_timestamp at >>= (λ t. check_text texts v >>= (λ name. ok (some t, some name))))
unfolding review zoned_utc maybe_words require_timestamp
reviewed-IsReviewed texts at v =
    bind-OnOk (IsReviewed texts public_sanitized) (require_timestamp at) _ (λ t _.
      bind-OnOk (IsReviewed texts public_sanitized) (check_text texts v) _ (λ name e.
        simp (of-OnOk (λ s. check_text texts (words s) ≡ ok s) (check_text-words texts v) e) refl))

review-IsReviewed :
    (texts : Texts) (status : PrivacyStatus) (at : Option Timestamp) (v : Scalar)
    → OnOk (IsReviewed texts status) (review texts status at v)
unfolding review zoned_utc maybe_words
review-IsReviewed texts public_sanitized none v = tt
review-IsReviewed texts public_sanitized (some at) null = tt
review-IsReviewed texts public_sanitized (some at) unlike = reviewed-IsReviewed texts at unlike
review-IsReviewed texts public_sanitized (some at) (flag b) = reviewed-IsReviewed texts at (flag b)
review-IsReviewed texts public_sanitized (some at) (number n) =
    reviewed-IsReviewed texts at (number n)
review-IsReviewed texts public_sanitized (some at) (words s) =
    reviewed-IsReviewed texts at (words s)
review-IsReviewed texts private_unreviewed none null = refl
review-IsReviewed texts private_unreviewed none unlike = tt
review-IsReviewed texts private_unreviewed none (flag b) = tt
review-IsReviewed texts private_unreviewed none (number n) = tt
review-IsReviewed texts private_unreviewed none (words s) = tt
review-IsReviewed texts private_unreviewed (some at) v = tt

require-true : (b : Bool) (m : String) → require b m ≡ ok tt → b ≡ true
require-true true m h = refl
require-true false m h = absurd (cc)

create-IsWellFormed :
    (texts : Texts) (p : Provenance)
    → AreBytes p.frames
    → OnOk (IsWellFormed texts p.frames) (create_evidence_bundle texts p)
unfolding create_evidence_bundle
create-IsWellFormed texts p bytes =
    let F = IsWellFormed texts p.frames in
    let read = λ (v : Scalar) (s : String) (e : check_text texts v ≡ ok s).
      of-OnOk (λ s'. check_text texts (words s') ≡ ok s') (check_text-words texts v) e in
    bind-OnOk F (require_timestamp p.captured_at) _ (λ at _.
      bind-OnOk F (check_text texts p.model) _ (λ model e1.
        bind-OnOk F (check_text texts p.firmware) _ (λ firmware e2.
          bind-OnOk F (check_text texts p.official_app_version) _ (λ version e3.
            bind-OnOk F (check_text texts p.notes) _ (λ notes e4.
              bind-OnOk F (require (has_frame p.frames read_operations) _) _ (λ _ e5.
                bind-OnOk F (review texts p.privacy_status p.privacy_reviewed_at p.privacy_reviewer)
                  _
                  (λ x e6. bind-OnOk F (create_records p.frames read_operations) _ (λ rs e7.
                    record {
                      model = read p.model model e1;
                      firmware = read p.firmware firmware e2;
                      version = read p.official_app_version version e3;
                      notes = read p.notes notes e4;
                      filled = require-true _ _ e5;
                      reviewed =
                          of-OnOk (IsReviewed texts p.privacy_status)
                            (review-IsReviewed texts p.privacy_status p.privacy_reviewed_at
                              p.privacy_reviewer)
                            e6;
                      created =
                          of-OnOk (Created p.frames read_operations)
                            (create_records-Created p.frames bytes read_operations) e7;
                    }))))))))

from_dict-to_dict :
    (texts : Texts)
    → IsLawful texts
    → (frames : Frames) (b : EvidenceBundle) → IsWellFormed texts frames b
    → bundle_from_dict texts (bundle_to_dict texts b) ≡ ok b
unfolding bundle_from_dict bundle_to_dict listed_records present create_evidence_bundle
    require_timestamp
from_dict-to_dict texts law frames b f =
    let c =
      Created-Recreated frames read_operations b.records (λ op. none) f.created
        read_operations-IsApart (refl, (refl, (refl, (refl, tt)))) in
    simp
      (
        collect-documents_of texts law.upper frames read_operations b.records (λ op. none) f.created
            read_operations-IsApart (refl, (refl, (refl, (refl, tt)))),
        parse_timestamp-maybe texts law (some b.captured_at),
        parse_timestamp-maybe texts law b.privacy_reviewed_at,
        source_of-text b.source,
        status_of-text b.privacy_status,
        f.model,
        f.firmware,
        f.version,
        f.notes,
        f.reviewed,
        c.same,
        f.filled,
        c.created,
        c.checked,
      )
      refl

-- A bundle that was created, from any frames of bytes, is read back from its document, where upper
-- case works on the four names of the operations, and the ISO text of a time in UTC is read back and
-- is restored when `Z` takes the place of its `+00:00` and is replaced again.
pub bundle_from_dict-bundle_to_dict :
    (texts : Texts)
    → IsLawful texts
    → (p : Provenance) (b : EvidenceBundle) → AreBytes p.frames
    → create_evidence_bundle texts p ≡ ok b
    → bundle_from_dict texts (bundle_to_dict texts b) ≡ ok b
bundle_from_dict-bundle_to_dict texts law p b bytes e =
    from_dict-to_dict texts law p.frames b
      (of-OnOk (IsWellFormed texts p.frames) (create-IsWellFormed texts p bytes) e)
