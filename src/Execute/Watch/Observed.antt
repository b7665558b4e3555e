-- ===== src/Execute/Watch/Observed.antt =====
-- What the observation of a cleaning writes, and what it returns.
pub mod Samples
pub mod Shown
pub mod Triples
use wendougee_data_ha.Base.{
  ℕ, zero, suc, ◌-◌, ◌≤◌, arith, ◌≡◌, refl, Bool, true, false, ◌&&◌, Result, ok, err, OnOk, of-OnOk,
  leb, inl, inr, Bool-cases, if◌then◌else◌, timeout_error,
}
use wendougee_data_ha.Base.Bytes.{bytes_eq}
use wendougee_data_ha.Telemetry.{Telemetry, Tenths, parse_telemetry_response}
use wendougee_data_ha.State
use wendougee_data_ha.State.{Configuration, OperatingState, is_idle, is_cleaning}
use wendougee_data_ha.Command
use wendougee_data_ha.Link.{Transport, Link, M, pure, lift, raise, check, continue, ◌>>=◌, sleep}
use wendougee_data_ha.Link.Traces.{
  Grows, Grows-refl, Emits, Emits-bind, Emits-lift, Emits-if, Emits-raise, Emits-check, Emits-pure,
  Emits-sleep, Emits-transact,
}
use wendougee_data_ha.Press.{read_state}
use wendougee_data_ha.Control.Boiler.{read_configuration}
use wendougee_data_ha.Control.Cleaning.{cleaning_duration}
use wendougee_data_ha.Control.Rejections.{is_read, Emits-read_state, Emits-read_configuration}
use wendougee_data_ha.Coordinator.{Seen}
use wendougee_data_ha.Execute.Watch.{
  CleaningResult, Progress, Watcher, advance, result_of, micros, passes, cut, read_telemetry, now,
  note, with_timeout, conclude, watch, observe,
}

module _ {W : Type 0} (watcher : Watcher W) (tr : Transport W) where
  Emits-read_telemetry : Emits is_read (read_telemetry watcher tr)
  unfolding read_telemetry is_read
  Emits-read_telemetry =
      Emits-bind is_read _ _ (Emits-transact tr is_read Command.telemetry refl)
        λ frame. Emits-lift is_read (parse_telemetry_response frame)

  Emits-now : Emits is_read (now watcher tr)
  unfolding now
  Emits-now = record { at = λ l. Grows-refl is_read l.history }

  Emits-note : (s : Seen) → Emits is_read (note watcher tr s)
  unfolding note
  Emits-note s = record { at = λ l. Grows-refl is_read l.history }

  Emits-with_timeout :
      {A : Type 0} (m : M W A) → Emits is_read m → Emits is_read (with_timeout watcher tr m)
  unfolding with_timeout
  Emits-with_timeout m k = record { at = k.at }

  Emits-conclude :
      (before : Configuration) (elapsed : ℕ) (p : Progress)
      → Emits is_read (conclude watcher tr before elapsed p)
  unfolding conclude
  Emits-conclude before elapsed p = Emits-bind is_read _ _ (Emits-read_configuration tr) λ after.
      Emits-bind is_read _ _
        (Emits-check is_read (bytes_eq after.raw_registers before.raw_registers) _)
        λ _. Emits-pure is_read (result_of before elapsed p)

  Emits-watch :
      (n : ℕ) (before : Configuration) (duration started : ℕ) (p : Progress)
      → Emits is_read (watch watcher tr n before duration started p)
  unfolding watch
  Emits-watch zero before duration started p = Emits-raise is_read timeout_error
  Emits-watch (suc n) before duration started p = Emits-bind is_read _ _ Emits-read_telemetry λ t.
      Emits-bind is_read _ _ (Emits-read_state tr) λ s.
        Emits-bind is_read _ _ (Emits-check is_read _ _) λ _.
          Emits-bind is_read _ _ (Emits-note _) λ _. Emits-bind is_read _ _ Emits-now λ time.
            Emits-if is_read _ _ _ (Emits-conclude before (time - started) _) (
              Emits-bind is_read _ _ (Emits-sleep tr is_read 500)
                λ _. Emits-watch n before duration started _)

  -- From its confirmed start on, a cleaning is observed by read requests only, whatever the machine
  -- answers and however the observation ends: no press is repeated, and no stop is sent.
  pub observe_only_reads :
      (before : Configuration) (s : OperatingState) (l : Link W)
      → Grows is_read l.history (observe watcher tr (before, s) l).1.history
  unfolding observe
  observe_only_reads before s =
      (Emits-bind is_read _ _ (Emits-lift is_read (cleaning_duration before)) λ duration.
        Emits-bind is_read _ _ Emits-read_telemetry λ t. Emits-bind is_read _ _ (Emits-note _) λ _.
          Emits-bind is_read _ _ Emits-now λ started.
            Emits-with_timeout _
              (Emits-watch (passes duration) before (micros duration) started _)).at

-- a property of what a program returns
record Returns {W A : Type 0} (P : A → Type 0) (m : M W A) : Type 0 where
  at : (l : Link W) → OnOk P (m l).0

module _ {W A B : Type 0} (P : B → Type 0) where
  continue-Returns :
      (r : Result A) (f : A → M W B) (l : Link W)
      → ((a : A) → Returns P (f a))
      → OnOk P (continue r f l).0
  unfolding continue
  continue-Returns (ok a) f l h = (h a).at l
  continue-Returns (err e) f l h = tt

  Returns-bind : (m : M W A) (f : A → M W B) → ((a : A) → Returns P (f a)) → Returns P (m >>= f)
  unfolding ◌>>=◌
  Returns-bind m f h = record { at = λ l. continue-Returns (m l).0 f (m l).1 h }

  Returns-lift :
      (r : Result A) (f : A → M W B)
      → ((a : A) → r ≡ ok a → Returns P (f a))
      → Returns P (lift r >>= f)
  unfolding ◌>>=◌ lift continue
  Returns-lift (ok a) f h = record { at = λ l. (h a refl).at l }
  Returns-lift (err e) f h = record { at = λ l. tt }

-- what a cleaning that was observed shows
pub record IsObserved (before : Configuration) (duration : Tenths) (r : CleaningResult)
    : Type 0 where
  pub long_enough : micros duration ≤ r.observed
  pub seen_idle : r.saw_idle ≡ true
  pub time : r.cleaning_time_seconds ≡ before.cleaning_time_seconds
  pub rest : r.standing_time_seconds ≡ before.cleaning_rest_seconds
  pub count : r.cleaning_count ≡ before.cleaning_repetitions

-- two idle samples in a row end with one that was seen
advance-idle :
    (t : Telemetry) (idle : Bool) (p : Progress)
    → leb 2 (advance t idle p).idle_samples ≡ true
    → (advance t idle p).saw_idle ≡ true
unfolding advance
advance-idle t true p h = ground arith
advance-idle t false p h = absurd (ground (arith, h))

module _ {W : Type 0} (watcher : Watcher W) (tr : Transport W) (before : Configuration)
    (duration : Tenths) where
  conclude-Returns :
      (elapsed : ℕ) (p : Progress)
      → micros duration ≤ elapsed
      → p.saw_idle ≡ true
      → Returns (IsObserved before duration) (conclude watcher tr before elapsed p)
  unfolding conclude pure result_of
  conclude-Returns elapsed p h k = Returns-bind _ (read_configuration tr) _ λ after.
      Returns-bind _ (check (bytes_eq after.raw_registers before.raw_registers) _) _ λ _. record {
        at = λ l. record { long_enough = h; seen_idle = k; time = refl; rest = refl; count = refl };
      }

  passed-Returns :
      (t : Telemetry) (idle : Bool) (p : Progress) (elapsed : ℕ) (rest : M W CleaningResult)
      → Returns (IsObserved before duration) rest
      → Returns (IsObserved before duration) (
          if leb (micros duration) elapsed && leb 2 (advance t idle p).idle_samples
          then conclude watcher tr before elapsed (advance t idle p)
          else rest)
  passed-Returns t idle p elapsed rest h = elim (Bool-cases (leb (micros duration) elapsed)) [
    | inr a ↦ rw (a) h
    | inl a ↦ elim (Bool-cases (leb 2 (advance t idle p).idle_samples)) [
      | inr b ↦ rw (a, b) h
      | inl b ↦
          rw (a, b)
            (conclude-Returns elapsed (advance t idle p) (ground (arith, a))
              (advance-idle t idle p b))
    ]
  ]

  watch-Returns :
      (n started : ℕ) (p : Progress)
      → Returns (IsObserved before duration) (watch watcher tr n before (micros duration) started p)
  unfolding watch raise
  watch-Returns zero started p = record { at = λ l. tt }
  watch-Returns (suc n) started p = Returns-bind _ (read_telemetry watcher tr) _ λ t.
      Returns-bind _ (read_state tr) _ λ s. Returns-bind _ (check _ _) _ λ _.
        Returns-bind _ (note watcher tr _) _ λ _. Returns-bind _ (now watcher tr) _ λ time.
          passed-Returns t (is_idle (State.state s)) p (time - started) _ (
            Returns-bind _ (sleep tr 500) _
              λ _. watch-Returns n started (advance t (is_idle (State.state s)) p))

OnOk-map :
    {A : Type 0} (P Q : A → Type 0) (r : Result A) → ((a : A) → P a → Q a) → OnOk P r → OnOk Q r
OnOk-map P Q (ok a) f h = f a h
OnOk-map P Q (err e) f h = tt

cut-OnOk :
    {A : Type 0} (P : A → Type 0) (expired : Bool) (r : Result A)
    → OnOk P r
    → OnOk P (cut expired r)
unfolding cut
cut-OnOk P expired (ok a) h = h
cut-OnOk P expired (err e) h = tt

-- the same for the duration that the configuration has
abbrev pub IsObservedFor : Configuration → CleaningResult → Type 0
IsObservedFor before r =
    (duration : Tenths) × (cleaning_duration before ≡ ok duration) × IsObserved before duration r

module _ {W : Type 0} (watcher : Watcher W) (tr : Transport W) where
  Returns-with_timeout :
      (P : CleaningResult → Type 0) (m : M W CleaningResult)
      → Returns P m
      → Returns P (with_timeout watcher tr m)
  unfolding with_timeout
  Returns-with_timeout P m h = record {
    at = λ l. cut-OnOk P (watcher.expired (m l).1.world) (m l).0 (h.at l);
  }

  observe-Returns :
      (before : Configuration) (s : OperatingState)
      → Returns (IsObservedFor before) (observe watcher tr (before, s))
  unfolding observe
  observe-Returns before s = Returns-lift _ (cleaning_duration before) _ λ duration e.
      Returns-bind _ (read_telemetry watcher tr) _ λ t. Returns-bind _ (note watcher tr _) _ λ _.
        Returns-bind _ (now watcher tr) _ λ started. Returns-with_timeout _ _ (record {
          at = λ l.
              OnOk-map (IsObserved before duration) (IsObservedFor before) _
                (λ r o. (duration, e, o))
                ((watch-Returns watcher tr before duration (passes duration) started _).at l);
        })

  -- A cleaning whose observation returns a result was observed for at least the duration of its
  -- stored program, was seen idle, and the result has the settings of that program.
  pub observe-IsObserved :
      (before : Configuration) (s : OperatingState) (l : Link W) (r : CleaningResult)
      → (observe watcher tr (before, s) l).0 ≡ ok r
      → IsObservedFor before r
  observe-IsObserved before s l r e =
      of-OnOk (IsObservedFor before) ((observe-Returns before s).at l) e
