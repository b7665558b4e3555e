-- ===== src/Capture/Bounds.antt =====
-- The loop of a capture ends, and what it returns.
use wendougee_data_ha.Base.{
  ℕ, zero, suc, ◌+◌, ◌-◌, ◌*◌, ◌<◌, ◌≤◌, arith, ◌≡◌, List, [], ◌∷◌, ◌++◌, Bool, true, false, ◌&&◌,
  not, Option, none, some, Error, Result, ok, err, Result-cases, Bool-cases, ltb, leb, length,
  length-append, All, inl, inr, OnOk,
}
use wendougee_data_ha.Base.Bytes.{Bytes}
use wendougee_data_ha.Telemetry.{parse_telemetry_response}
use wendougee_data_ha.State.{decode_operating_state}
use wendougee_data_ha.Capture.{
  Paced, RuntimeSample, period, is_limit, is_over, is_empty, then_on, lift, sample_of, take_sample,
  pace, paced, sampled, Looped, capture_loop,
}

-- a sample's values are those of its frames
pub record IsDecoded (s : RuntimeSample) : Type 0 where
  pub telemetry : parse_telemetry_response s.telemetry_frame ≡ ok s.telemetry
  pub operating_state : decode_operating_state s.operating_state_frame ≡ ok s.operating_state

abbrev pub IsWithin : Option ℕ → ℕ → Type 0
IsWithin none n = Unit
IsWithin (some limit) n = n ≤ limit

-- without a limit there is a sample
abbrev pub IsSampled : Option ℕ → ℕ → Type 0
IsSampled none n = 0 < n
IsSampled (some limit) n = Unit

limited-IsSampled : (limit : Option ℕ) (n : ℕ) → is_limit limit n ≡ true → IsSampled limit n
limited-IsSampled none n h = absurd (cc)
limited-IsSampled (some limit) n h = tt

nonempty-IsSampled :
    (limit : Option ℕ) (samples : List RuntimeSample) (over : Bool)
    → (not (is_empty samples) && over) ≡ true
    → IsSampled limit (length samples)
nonempty-IsSampled limit [] over h = absurd (cc)
nonempty-IsSampled none (s ∷ ss) over h = omega arith
nonempty-IsSampled (some limit) (s ∷ ss) over h = tt

All-append :
    {A : Type 0} (P : A → Type 0) (xs : List A) (a : A) → All P xs → P a → All P (xs ++ (a ∷ []))
All-append P [] a h p = (p, tt)
All-append P (x ∷ xs) a (q, h) p = (q, All-append P xs a h p)

length-snoc : {A : Type 0} (xs : List A) (a : A) → length (xs ++ (a ∷ [])) ≡ suc (length xs)
length-snoc xs a = omega (arith, length-append xs (a ∷ []))

IsWithin-suc : (limit : Option ℕ) (n : ℕ) → is_limit limit n ≡ false → IsWithin limit (suc n)
IsWithin-suc none n h = tt
IsWithin-suc (some limit) n h = ground (arith, h)

next-bound : (k p d : ℕ) → k * p < d → suc k * p < d + p
next-bound k p d h = omega (arith, h)

module _ {W : Type 0} where
  then_on-OnOk :
      {A B : Type 0} (P : B → Type 0) (f : A → W → Result B × W) (x : Result A × W)
      → ((a : A) (w : W) → OnOk P (f a w).0)
      → OnOk P (then_on f x).0
  unfolding then_on
  then_on-OnOk P f (ok a, w) h = h a w
  then_on-OnOk P f (err e, w) h = tt

module _ {W : Type 0} (loop : Paced W) where
  sample_of-IsDecoded :
      (started requested : ℕ) (telemetry_frame state_frame : Bytes) (w : W)
      → OnOk IsDecoded (sample_of loop started requested telemetry_frame state_frame w)
  unfolding sample_of
  sample_of-IsDecoded started requested telemetry_frame state_frame w =
      elim (Result-cases (parse_telemetry_response telemetry_frame)) [
        | inr (e, p) ↦ rw (p) tt
        | inl (t, p) ↦ elim (Result-cases (decode_operating_state state_frame)) [
          | inr (e, q) ↦ rw (p, q) tt
          | inl (s, q) ↦ rw (p, q) (record { telemetry = p; operating_state = q })
        ]
      ]

  take_sample-IsDecoded : (started : ℕ) (w : W) → OnOk IsDecoded (take_sample loop started w).0
  unfolding take_sample lift
  take_sample-IsDecoded started w = then_on-OnOk IsDecoded _ (loop.read _ w) (λ telemetry_frame w1.
      then_on-OnOk IsDecoded _ (loop.sleep _ w1) (λ _ w2.
        then_on-OnOk IsDecoded _ (loop.read _ w2) (λ state_frame w3.
          sample_of-IsDecoded started (loop.time w) telemetry_frame state_frame w3)))

  -- a pause takes at least its time
  unfoldable pub Wakes : Type 0
  Wakes = (d : ℕ) (w : W) → loop.time w + d ≤ loop.time (loop.sleep d w).1

  pace-time : Wakes → (target : ℕ) (w : W) → target ≤ loop.time (pace loop target w).1
  unfolding pace Wakes
  pace-time wakes target w = elim (Bool-cases (ltb (loop.time w) target)) [
    | inl e ↦ rw (e) (ground (arith, wakes (target - loop.time w) w))
    | inr e ↦ rw (e) (ground arith)
  ]

  -- what a loop leaves: decoded samples, few enough for the duration and the limit, or an error
  pub data Finished (duration target_hz : ℕ) (limit : Option ℕ) : Looped loop → Type 0 where
    finished :
        (samples : List RuntimeSample) (w : W)
        → All IsDecoded samples
        → length samples * period target_hz < duration + period target_hz
        → IsWithin limit (length samples)
        → IsSampled limit (length samples)
        → Finished duration target_hz limit (some (ok samples, w))
    broken : (e : Error) (w : W) → Finished duration target_hz limit (some (err e, w))

  module _ (duration target_hz : ℕ) (limit : Option ℕ) where
    sampled-Finished :
        (samples : List RuntimeSample) (rest : List RuntimeSample → W → Looped loop)
        (x : Result RuntimeSample × W)
        → OnOk IsDecoded x.0
        → ((s : RuntimeSample) (w : W)
            → IsDecoded s
            → Finished duration target_hz limit (rest (samples ++ (s ∷ [])) w))
        → Finished duration target_hz limit (sampled loop samples rest x)
    unfolding sampled
    sampled-Finished samples rest (err e, w) d h = broken e w
    sampled-Finished samples rest (ok s, w) d h = h s w d

    -- a pass that may go on does so within the duration
    over-bound :
        (started : ℕ) (samples : List RuntimeSample) (w : W)
        → 0 < duration
        → started + length samples * period target_hz ≤ loop.time w
        → is_over loop started duration samples w ≡ false
        → length samples * period target_hz < duration
    over-bound started [] w pos h o = omega (arith, pos)
    over-bound started (s ∷ ss) w pos h o = ground (arith, h, o)

    more-fuel :
        (samples : List RuntimeSample) (k n : ℕ)
        → length samples ≡ suc k
        → duration + period target_hz ≤ (k + suc n) * period target_hz
        → duration + period target_hz ≤ (length samples + n) * period target_hz
    more-fuel samples k n h fuel = rw (h) (omega (arith, fuel))

    -- what the loop goes on with
    record IsGoing (samples : List RuntimeSample) : Type 0 where
      decoded : All IsDecoded samples
      bound : length samples * period target_hz < duration + period target_hz
      within : IsWithin limit (length samples)

    paced-Finished :
        (started : ℕ) (samples : List RuntimeSample) (rest : List RuntimeSample → W → Looped loop)
        (x : Result (Unit {0}) × W)
        → 0 < duration
        → IsGoing samples
        → is_limit limit (length samples) ≡ false
        → started + length samples * period target_hz ≤ loop.time x.1
        → ((samples' : List RuntimeSample) (w' : W)
            → length samples' ≡ suc (length samples)
            → IsGoing samples'
            → Finished duration target_hz limit (rest samples' w'))
        → Finished duration target_hz limit (paced loop started duration samples rest x)
    unfolding paced
    paced-Finished started samples rest (err e, w) pos g k h next = broken e w
    paced-Finished started samples rest (ok _, w) pos g k h next =
        elim (Bool-cases (is_over loop started duration samples w)) [
          | inl o ↦ rw (o) (
              finished samples w g.decoded g.bound g.within
                (nonempty-IsSampled limit samples (leb (started + duration) (loop.time w)) o))
          | inr o ↦ rw (o) (
              sampled-Finished samples rest (take_sample loop started w)
                (take_sample-IsDecoded started w)
                (λ s w' d. next (samples ++ (s ∷ [])) w' (length-snoc samples s) (record {
                  decoded = All-append IsDecoded samples s g.decoded d;
                  bound = rw (length-snoc samples s) (
                      next-bound (length samples) (period target_hz) duration
                        (over-bound started samples w pos h o));
                  within = rw (length-snoc samples s) (IsWithin-suc limit (length samples) k);
                })))
        ]

    -- the fuel is enough for the passes that are left
    loop-Finished :
        Wakes
        → 0 < duration
        → (started n : ℕ) (samples : List RuntimeSample) (w : W)
        → duration + period target_hz ≤ (length samples + n) * period target_hz
        → IsGoing samples
        → Finished duration target_hz limit
            (capture_loop loop n limit started duration target_hz samples w)
    unfolding capture_loop
    loop-Finished wakes pos started zero samples w fuel g = absurd (omega (arith, fuel, g.bound))
    loop-Finished wakes pos started (suc n) samples w fuel g =
        elim (Bool-cases (is_limit limit (length samples))) [
          | inl e ↦ rw (e) (
              finished samples w g.decoded g.bound g.within
                (limited-IsSampled limit (length samples) e))
          | inr e ↦ rw (e) (
              paced-Finished started samples _
                (pace loop (started + length samples * period target_hz) w) pos g e
                (pace-time wakes (started + length samples * period target_hz) w)
                (λ samples' w' k.
                  loop-Finished wakes pos started n samples' w'
                    (more-fuel samples' (length samples) n k fuel)))
        ]

    starts : 0 < duration → IsGoing []
    starts pos = record { decoded = tt; bound = omega (arith, pos); within = none_taken limit }
      where
        none_taken : (limit : Option ℕ) → IsWithin limit 0
        none_taken none = tt
        none_taken (some limit) = omega arith

    -- Where a pause takes at least its time, the loop of a capture ends: it raises an error, or it
    -- returns samples whose values are those of their frames, at most as many as the limit, at
    -- least one where there is no limit, and so few that the periods between them take less than
    -- the duration. Fuel for one pass more than
    -- the periods of the duration is enough.
    pub capture_loop-Finished :
        Wakes
        → 0 < duration
        → (started n : ℕ) (w : W) → duration + period target_hz ≤ n * period target_hz
        → Finished duration target_hz limit
            (capture_loop loop n limit started duration target_hz [] w)
    capture_loop-Finished wakes pos started n w fuel =
        loop-Finished wakes pos started n [] w (omega (arith, fuel)) (starts pos)
