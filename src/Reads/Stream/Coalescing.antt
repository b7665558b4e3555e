-- ===== src/Reads/Stream/Coalescing.antt =====
-- The stream of fragments: enough fuel, and independence of how the bytes were cut.
use wendougee_data_ha.Base.{
  ℕ, zero, suc, ◌+◌, ◌≤◌, ◌<◌, ◌≡◌, refl, sym, ap, ◌∙◌, arith, List, [], ◌∷◌, ◌++◌, true, false,
  Result, ok, err, Error, length, take, drop, get_or, length-append, length-drop, Result-cases, inl,
  inr,
}
use wendougee_data_ha.Base.Bytes.{Bytes}
use wendougee_data_ha.Reads.{crc_matches}
use wendougee_data_ha.Reads.Stream.{
  Stream, expected_length, complete_frame, next_frame, extract_loop, extract, feed,
}
use mathlib.Core.Path.{ap₂}
use native.Mathlib.Nat.{le_refl}
use mathlib.Core.List.{append_assoc, append-nil}

take-append_le : (n : ℕ) (xs ys : Bytes) → n ≤ length xs → take n (xs ++ ys) ≡ take n xs
take-append_le zero xs ys h = refl
take-append_le (suc n) [] ys h = absurd (omega arith)
take-append_le (suc n) (x ∷ xs) ys h = ap (◌∷◌ x) (take-append_le n xs ys (omega arith))

drop-append_le : (n : ℕ) (xs ys : Bytes) → n ≤ length xs → drop n (xs ++ ys) ≡ drop n xs ++ ys
drop-append_le zero xs ys h = refl
drop-append_le (suc n) [] ys h = absurd (omega arith)
drop-append_le (suc n) (x ∷ xs) ys h = drop-append_le n xs ys (omega arith)

get_or-append_lt : (i : ℕ) (xs ys : Bytes) → i < length xs → get_or (xs ++ ys) i 0 ≡ get_or xs i 0
get_or-append_lt i [] ys h = absurd (omega arith)
get_or-append_lt zero (x ∷ xs) ys h = refl
get_or-append_lt (suc i) (x ∷ xs) ys h = get_or-append_lt i xs ys (omega arith)

expected_length-ge : (f c n : ℕ) → expected_length f c ≡ ok n → 5 ≤ n
unfolding expected_length
expected_length-ge f c n h = ground arith

complete_frame_size :
    (buffer : Bytes) (size n : ℕ)
    → complete_frame buffer size ≡ ok (true, n)
    → (n ≡ size) × (size ≤ length buffer) × (crc_matches (take size buffer) ≡ true)
unfolding complete_frame
complete_frame_size buffer size n h = ground arith

-- A frame that is taken off has 5 bytes at least, and they are there.
next_frame_size :
    (buffer : Bytes) (n : ℕ) → next_frame buffer ≡ ok (true, n) → (5 ≤ n) × (n ≤ length buffer)
unfolding next_frame
next_frame_size buffer n h =
    elim (Result-cases (expected_length (get_or buffer 1 0) (get_or buffer 2 0))) [
      | inl (size, e) ↦ ground (
        arith,
        expected_length-ge (get_or buffer 1 0) (get_or buffer 2 0) size,
        complete_frame_size buffer size n,
      )
      | inr (x, e) ↦ absurd (ground arith)
    ]

-- More bytes behind do not change a frame that is complete.
next_frame-append :
    (buffer more : Bytes) (n : ℕ)
    → next_frame buffer ≡ ok (true, n)
    → next_frame (buffer ++ more) ≡ ok (true, n)
unfolding next_frame complete_frame
next_frame-append buffer more n h =
    let s = next_frame_size buffer n h in
    ground (
      arith,
      get_or-append_lt 0 buffer more,
      get_or-append_lt 1 buffer more,
      get_or-append_lt 2 buffer more,
      take-append_le n buffer more,
      length-append buffer more,
    )

step :
    (g b n : ℕ) (bs : Bytes) (frames : List Bytes)
    → next_frame (b ∷ bs) ≡ ok (true, n)
    → extract_loop (suc g) (b ∷ bs) frames
      ≡ extract_loop g (drop n (b ∷ bs)) (frames ++ (take n (b ∷ bs) ∷ []))
unfolding extract_loop
step g b n bs frames e = rw (e, extract_loop)

halt :
    (g b n : ℕ) (bs : Bytes) (frames : List Bytes)
    → next_frame (b ∷ bs) ≡ ok (false, n)
    → extract_loop (suc g) (b ∷ bs) frames ≡ ok (frames, b ∷ bs)
unfolding extract_loop
halt g b n bs frames e = rw (e, extract_loop)

fails :
    (g b : ℕ) (bs : Bytes) (frames : List Bytes) (x : Error)
    → next_frame (b ∷ bs) ≡ err x
    → extract_loop (suc g) (b ∷ bs) frames ≡ err x
unfolding extract_loop
fails g b bs frames x e = rw (e, extract_loop)

-- With fuel for every byte the loop never stops for want of it: the fuel does not matter.
pub extract_loop_fuel :
    (f g : ℕ) (buffer : Bytes) (frames : List Bytes)
    → length buffer ≤ f
    → length buffer ≤ g
    → extract_loop f buffer frames ≡ extract_loop g buffer frames
unfolding extract_loop
extract_loop_fuel zero zero [] frames p q = refl
extract_loop_fuel zero (suc g) [] frames p q = refl
extract_loop_fuel (suc f) zero [] frames p q = refl
extract_loop_fuel (suc f) (suc g) [] frames p q = refl
extract_loop_fuel zero g (b ∷ bs) frames p q = absurd (omega arith)
extract_loop_fuel (suc f) zero (b ∷ bs) frames p q = absurd (omega arith)
extract_loop_fuel (suc f) (suc g) (b ∷ bs) frames p q = elim (Result-cases (next_frame (b ∷ bs))) [
  | inl ((false, n), e) ↦ rw (e, extract_loop)
  | inl ((true, n), e) ↦
      rw (e, extract_loop)
        (extract_loop_fuel f g (drop n (b ∷ bs)) (frames ++ (take n (b ∷ bs) ∷ []))
          (omega (arith, next_frame_size (b ∷ bs) n e, length-drop n (b ∷ bs)))
          (omega (arith, next_frame_size (b ∷ bs) n e, length-drop n (b ∷ bs))))
  | inr (x, e) ↦ rw (e, extract_loop)
]

-- The frames that are there already are kept in front.
extract_loop-prefix :
    (f : ℕ) (buffer : Bytes) (before frames fs : List Bytes) (rest : Bytes)
    → extract_loop f buffer frames ≡ ok (fs, rest)
    → extract_loop f buffer (before ++ frames) ≡ ok (before ++ fs, rest)
unfolding extract_loop
extract_loop-prefix zero [] before frames fs rest h = ground arith
extract_loop-prefix (suc f) [] before frames fs rest h = ground arith
extract_loop-prefix zero (b ∷ bs) before frames fs rest h = ground arith
extract_loop-prefix (suc f) (b ∷ bs) before frames fs rest h =
    elim (Result-cases (next_frame (b ∷ bs))) [
      | inl ((false, n), e) ↦ rw (e, extract_loop) (ground (arith, rw (e, extract_loop) at h))
      | inl ((true, n), e) ↦
          rw (e, extract_loop)
            (rw (append_assoc before frames (take n (b ∷ bs) ∷ [])) (
              extract_loop-prefix f (drop n (b ∷ bs)) before (frames ++ (take n (b ∷ bs) ∷ [])) fs
                rest (rw (e, extract_loop) at h)))
      | inr (x, e) ↦ absurd (cc (rw (e, extract_loop) at h))
    ]

-- where the loop stops at once, more bytes start it from the same place
stopped :
    (g k : ℕ) (buffer more : Bytes) (frames fs : List Bytes) (rest : Bytes)
    → ◌≡◌ {A = Result (List Bytes × Bytes)} (ok (frames, buffer)) (ok (fs, rest))
    → length (buffer ++ more) ≤ g
    → length (rest ++ more) ≤ k
    → extract_loop g (buffer ++ more) frames ≡ extract_loop k (rest ++ more) fs
stopped g k buffer more frames fs rest h q r =
    let same : (frames ≡ fs) × (buffer ≡ rest) = ground arith in
    extract_loop_fuel g k (buffer ++ more) frames q (rw same.1 r)
    ∙ ap₂ (λ b f. extract_loop k (b ++ more) f) same.1 same.0

-- Extracting from a first part, and then from what is left with more bytes behind it, is
-- extracting from the whole.
extract_loop-coalesce :
    (f g k : ℕ) (buffer more : Bytes) (frames fs : List Bytes) (rest : Bytes)
    → length buffer ≤ f
    → length (buffer ++ more) ≤ g
    → length (rest ++ more) ≤ k
    → extract_loop f buffer frames ≡ ok (fs, rest)
    → extract_loop g (buffer ++ more) frames ≡ extract_loop k (rest ++ more) fs
extract_loop-coalesce zero g k [] more frames fs rest p q r h =
    stopped g k [] more frames fs rest (unfold extract_loop in h) q r
extract_loop-coalesce (suc f) g k [] more frames fs rest p q r h =
    stopped g k [] more frames fs rest (unfold extract_loop in h) q r
extract_loop-coalesce zero g k (b ∷ bs) more frames fs rest p q r h = absurd (omega arith)
extract_loop-coalesce (suc f) zero k (b ∷ bs) more frames fs rest p q r h = absurd (omega arith)
extract_loop-coalesce (suc f) (suc g) k (b ∷ bs) more frames fs rest p q r h =
    elim (Result-cases (next_frame (b ∷ bs))) [
      | inl ((false, n), e) ↦
          stopped (suc g) k (b ∷ bs) more frames fs rest (sym (halt f b n bs frames e) ∙ h) q r
      | inl ((true, n), e) ↦
          let s = next_frame_size (b ∷ bs) n e in
          step g b n (bs ++ more) frames (next_frame-append (b ∷ bs) more n e)
          ∙ rw (take-append_le n (b ∷ bs) more s.1, drop-append_le n (b ∷ bs) more s.1)
              (extract_loop-coalesce f g k (drop n (b ∷ bs)) more (frames ++ (take n (b ∷ bs) ∷ []))
                fs rest (omega (arith, length-drop n (b ∷ bs)))
                (omega (
                  arith,
                  length-append (drop n (b ∷ bs)) more,
                  length-append bs more,
                  length-drop n (b ∷ bs),
                ))
                r (sym (step f b n bs frames e) ∙ h))
      | inr (x, e) ↦ absurd (cc (h, fails f b bs frames x e))
    ]

extract_within :
    (buffer fragment : Bytes)
    → length buffer + length fragment ≤ 512
    → extract buffer fragment ≡ extract_loop (length (buffer ++ fragment)) (buffer ++ fragment) []
unfolding extract
extract_within buffer fragment h = ground arith

extract_ok :
    (buffer fragment : Bytes) (p : List Bytes × Bytes)
    → extract buffer fragment ≡ ok p
    → extract_loop (length (buffer ++ fragment)) (buffer ++ fragment) [] ≡ ok p
unfolding extract
extract_ok buffer fragment p h = ground arith

alive_eq : (s : Stream) → s.failed ≡ false → s ≡ record { buffer = s.buffer; failed = false }
alive_eq s h = ground arith

feed_ok :
    (s : Stream) (fragment : Bytes) (fs : List Bytes)
    → s.failed ≡ false
    → (feed s fragment).0 ≡ ok fs
    → (extract s.buffer fragment ≡ ok (fs, (feed s fragment).1.buffer))
      × ((feed s fragment).1.failed ≡ false)
unfolding feed
feed_ok s fragment fs h e = ground arith

feed_of_extract :
    (s : Stream) (fragment rest : Bytes) (fs : List Bytes)
    → s.failed ≡ false
    → extract s.buffer fragment ≡ ok (fs, rest)
    → feed s fragment ≡ (ok fs, record { buffer = rest; failed = false })
unfolding feed
feed_of_extract s fragment rest fs h e = ground arith

-- A stream that takes two fragments one after the other takes them at once, with the same frames
-- in the same order and the same state after, as long as the bytes fit the buffer of 512.
pub feed-append :
    (s : Stream) (a b : Bytes) (fa fb : List Bytes)
    → s.failed ≡ false
    → length s.buffer + length (a ++ b) ≤ 512
    → (feed s a).0 ≡ ok fa
    → (feed (feed s a).1 b).0 ≡ ok fb
    → feed s (a ++ b) ≡ (ok (fa ++ fb), (feed (feed s a).1 b).1)
feed-append s a b fa fb alive fits ea eb =
    let t = (feed s a).1 in
    let u = (feed t b).1 in
    let first = feed_ok s a fa alive ea in
    let second = feed_ok t b fb first.1 eb in
    let k = length (t.buffer ++ b) in
    let whole : extract s.buffer (a ++ b) ≡ ok (fa ++ fb, u.buffer) =
      extract_within s.buffer (a ++ b) fits
      ∙ ap (λ l. extract_loop (length l) l []) (sym (append_assoc s.buffer a b))
      ∙ extract_loop-coalesce (length (s.buffer ++ a)) (length ((s.buffer ++ a) ++ b)) k
          (s.buffer ++ a) b [] fa t.buffer (le_refl _) (le_refl _) (le_refl _)
          (extract_ok s.buffer a (fa, t.buffer) first.0)
      ∙ ap (extract_loop k (t.buffer ++ b)) (sym (append-nil fa))
      ∙ extract_loop-prefix k (t.buffer ++ b) fa [] fb u.buffer
          (extract_ok t.buffer b (fb, u.buffer) second.0) in
    feed_of_extract s (a ++ b) u.buffer (fa ++ fb) alive whole
    ∙ ap (λ x. (ok (fa ++ fb), x)) (sym (alive_eq u second.1))
