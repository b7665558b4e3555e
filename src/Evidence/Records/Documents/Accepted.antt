-- ===== src/Evidence/Records/Documents/Accepted.antt =====
-- What the bundles that are created, or read from documents, have to be.
use wendougee_data_ha.Base.{
  ◌≡◌, refl, List, [], ◌∷◌, false, ◌||◌, Option, none, some, String, Result, ok, All, inl, inr,
  Bool-cases, OnOk, of-OnOk, bind-OnOk, ◌>>=◌, ltb, ◌==◌, require,
}
use wendougee_data_ha.Base.Bytes.{Bytes}
use wendougee_data_ha.Journal.{Instant}
use wendougee_data_ha.Reads.{
  ReadOperation, read_operations, build_read_request, validate_read_response,
}
use wendougee_data_ha.Evidence.{
  PrivacyStatus, private_unreviewed, public_sanitized, Scalar, null, unlike, flag, number, words,
  Timestamp, Texts, scalar_eq,
}
use wendougee_data_ha.Evidence.Records.{
  EvidenceRecord, EvidenceBundle, Frames, Provenance, decoded_values, capabilities_of,
  all_capabilities, create_evidence_record, with_record, create_records, check_text,
  require_timestamp, review, has_frame, create_evidence_bundle,
}
use wendougee_data_ha.Evidence.Records.Documents.{
  Value, malformed, document, bundle_from_dict, listed_records, collect, parse_timestamp, present,
  source_of, status_of, check_records, schema,
}
use Prim.Native.String.{count}

-- a record whose claims are those of its response
pub record IsDerived (r : EvidenceRecord) : Type 0 where
  pub request : r.request ≡ build_read_request r.operation
  pub decoded : decoded_values r.operation r.response ≡ ok r.decoded
  pub valid : (payload : Bytes) × (validate_read_response r.response r.operation ≡ ok payload)

-- the metadata of a review, exactly where the bundle is public
pub data IsReviewed (texts : Texts) : PrivacyStatus → Option Instant × Option String → Type 0 where
  unreviewed : IsReviewed texts private_unreviewed (none, none)
  reviewed :
      (t : Instant) (name : String)
      → texts.is_sensitive name ≡ false
      → IsReviewed texts public_sanitized (some t, some name)

pub record IsClean (texts : Texts) (b : EvidenceBundle) : Type 0 where
  pub model : texts.is_sensitive b.model ≡ false
  pub firmware : texts.is_sensitive b.firmware ≡ false
  pub version : texts.is_sensitive b.official_app_version ≡ false
  pub notes : texts.is_sensitive b.notes ≡ false
  pub review : IsReviewed texts b.privacy_status (b.privacy_reviewed_at, b.privacy_reviewer)
  pub records : All IsDerived b.records

create_evidence_record-IsDerived :
    (op : ReadOperation) (frame : Bytes) → OnOk IsDerived (create_evidence_record op frame)
unfolding create_evidence_record
create_evidence_record-IsDerived op frame =
    bind-OnOk IsDerived (validate_read_response frame op) _ (λ payload v.
      bind-OnOk IsDerived (decoded_values op frame) _ (λ d e.
        bind-OnOk IsDerived (require (all_capabilities (capabilities_of op)) _) _
          (λ _ _. record { request = refl; decoded = e; valid = (payload, v) })))

with_record-IsDerived :
    (op : ReadOperation) (o : Option Bytes) (rest : Result (List EvidenceRecord))
    → OnOk (All IsDerived) rest
    → OnOk (All IsDerived) (with_record op o rest)
unfolding with_record
with_record-IsDerived op none rest h = h
with_record-IsDerived op (some frame) rest h =
    bind-OnOk (All IsDerived) (create_evidence_record op frame) _ (λ r e.
      bind-OnOk (All IsDerived) rest _ (λ rs k. (
        of-OnOk IsDerived (create_evidence_record-IsDerived op frame) e,
        of-OnOk (All IsDerived) h k,
      )))

create_records-IsDerived :
    (frames : Frames) (ops : List ReadOperation) → OnOk (All IsDerived) (create_records frames ops)
unfolding create_records
create_records-IsDerived frames [] = tt
create_records-IsDerived frames (op ∷ ops) =
    with_record-IsDerived op (frames op) _ (create_records-IsDerived frames ops)

check_text-clean :
    (texts : Texts) (v : Scalar) → OnOk (λ s. texts.is_sensitive s ≡ false) (check_text texts v)
unfolding check_text
check_text-clean texts null = tt
check_text-clean texts unlike = tt
check_text-clean texts (flag b) = tt
check_text-clean texts (number n) = tt
check_text-clean texts (words s) = elim (Bool-cases ((count s == 0) || ltb 500 (count s))) [
  | inl e ↦ rw (e) tt
  | inr e ↦ elim (Bool-cases (texts.is_sensitive s)) [
    | inl k ↦ rw (e, k) tt
    | inr k ↦ simp (e, k) refl
  ]
]

public-IsReviewed :
    (texts : Texts) (at : Timestamp) (v : Scalar)
    → OnOk
        (IsReviewed texts public_sanitized)
        (require_timestamp at >>= (λ t. check_text texts v >>= (λ name. ok (some t, some name))))
public-IsReviewed texts at v =
    bind-OnOk (IsReviewed texts public_sanitized) (require_timestamp at) _ (λ t _.
      bind-OnOk (IsReviewed texts public_sanitized) (check_text texts v) _ (λ name e.
        reviewed t name (of-OnOk (λ s. texts.is_sensitive s ≡ false) (check_text-clean texts v) e)))

review-IsReviewed :
    (texts : Texts) (status : PrivacyStatus) (at : Option Timestamp) (v : Scalar)
    → OnOk (IsReviewed texts status) (review texts status at v)
unfolding review
review-IsReviewed texts public_sanitized none v = tt
review-IsReviewed texts public_sanitized (some at) null = tt
review-IsReviewed texts public_sanitized (some at) unlike = public-IsReviewed texts at unlike
review-IsReviewed texts public_sanitized (some at) (flag b) = public-IsReviewed texts at (flag b)
review-IsReviewed texts public_sanitized (some at) (number n) =
    public-IsReviewed texts at (number n)
review-IsReviewed texts public_sanitized (some at) (words s) = public-IsReviewed texts at (words s)
review-IsReviewed texts private_unreviewed none null = unreviewed
review-IsReviewed texts private_unreviewed none unlike = tt
review-IsReviewed texts private_unreviewed none (flag b) = tt
review-IsReviewed texts private_unreviewed none (number n) = tt
review-IsReviewed texts private_unreviewed none (words s) = tt
review-IsReviewed texts private_unreviewed (some at) v = tt

create-IsClean :
    (texts : Texts) (p : Provenance) → OnOk (IsClean texts) (create_evidence_bundle texts p)
unfolding create_evidence_bundle
create-IsClean texts p =
    let F = IsClean texts in
    let clean = λ (v : Scalar) (s : String) (e : check_text texts v ≡ ok s).
      of-OnOk (λ s'. texts.is_sensitive s' ≡ false) (check_text-clean texts v) e in
    bind-OnOk F (require_timestamp p.captured_at) _ (λ at _.
      bind-OnOk F (check_text texts p.model) _ (λ model e1.
        bind-OnOk F (check_text texts p.firmware) _ (λ firmware e2.
          bind-OnOk F (check_text texts p.official_app_version) _ (λ version e3.
            bind-OnOk F (check_text texts p.notes) _ (λ notes e4.
              bind-OnOk F (require (has_frame p.frames read_operations) _) _ (λ _ _.
                bind-OnOk F (review texts p.privacy_status p.privacy_reviewed_at p.privacy_reviewer)
                  _
                  (λ x e6. bind-OnOk F (create_records p.frames read_operations) _ (λ rs e7.
                    record {
                      model = clean p.model model e1;
                      firmware = clean p.firmware firmware e2;
                      version = clean p.official_app_version version e3;
                      notes = clean p.notes notes e4;
                      review =
                          of-OnOk (IsReviewed texts p.privacy_status)
                            (review-IsReviewed texts p.privacy_status p.privacy_reviewed_at
                              p.privacy_reviewer)
                            e6;
                      records =
                          of-OnOk (All IsDerived)
                            (create_records-IsDerived p.frames read_operations) e7;
                    }))))))))

from_dict-IsClean : (texts : Texts) (v : Value) → OnOk (IsClean texts) (bundle_from_dict texts v)
unfolding bundle_from_dict
from_dict-IsClean texts malformed = tt
from_dict-IsClean texts (document d) =
    let F = IsClean texts in
    bind-OnOk F (require (scalar_eq d.schema (words schema)) _) _ (λ _ _.
      bind-OnOk F (listed_records d.records) _ (λ rs _.
        bind-OnOk F (collect texts rs (λ op. none)) _ (λ c _.
          bind-OnOk F (parse_timestamp texts d.captured_at) _ (λ at _.
            bind-OnOk F (present at) _ (λ captured_at _.
              bind-OnOk F (source_of d.source) _ (λ source _.
                bind-OnOk F (status_of d.privacy_status) _ (λ status _.
                  bind-OnOk F (parse_timestamp texts d.privacy_reviewed_at) _ (λ reviewed_at _.
                    bind-OnOk F (create_evidence_bundle texts _) _ (λ b e.
                      bind-OnOk F (check_records c b.records) _
                        (λ _ _. of-OnOk F (create-IsClean texts _) e))))))))))

-- A bundle that is read from a document has no sensitive text in its fields, the metadata of a
-- review exactly where it is public, and only records with a valid response, whose request is the
-- one of the operation and whose values are those that the response decodes to.
pub bundle_from_dict-IsClean :
    (texts : Texts) (v : Value) (b : EvidenceBundle)
    → bundle_from_dict texts v ≡ ok b
    → IsClean texts b
bundle_from_dict-IsClean texts v b e = of-OnOk (IsClean texts) (from_dict-IsClean texts v) e
