-- ===== src/Execute/Watch/Observed/Shown.antt =====
-- What the callback of a cleaning was shown when its observation returns a result.
use wendougee_data_ha.Base.{
  ℕ, zero, suc, ◌-◌, List, [], ◌∷◌, ◌≡◌, refl, sym, ap, Bool, true, false, ◌&&◌, ok, of-OnOk, leb,
  inl, inr, Bool-cases, if◌then◌else◌,
}
use mathlib.Core.Path.{subst}
use wendougee_data_ha.Base.Bytes.{bytes_eq}
use wendougee_data_ha.Telemetry.{parse_telemetry_response}
use wendougee_data_ha.State
use wendougee_data_ha.State.{Configuration, OperatingState, is_idle, is_cleaning}
use wendougee_data_ha.Session.{Operation, is_usable, request_of}
use wendougee_data_ha.Command.{Command}
use wendougee_data_ha.Link.{
  Transport, Link, M, lift, raise, continue, ◌>>=◌, sleep, transact, exchange, converse, is_allowed,
}
use wendougee_data_ha.Press.{read_state}
use wendougee_data_ha.Control.Boiler.{read_configuration}
use wendougee_data_ha.Control.Cleaning.{cleaning_duration}
use wendougee_data_ha.Coordinator.{Seen}
use wendougee_data_ha.Execute.Watch.{
  CleaningResult, Progress, Watcher, advance, result_of, micros, passes, read_telemetry, now, note,
  with_timeout, conclude, watch, observe,
}
use wendougee_data_ha.Execute.Watch.Observed.Samples.{
  IsLogged, none_yet, unknown, Latest-IsIdleTwice, Logged, IsShown, advance-Logged,
}
use wendougee_data_ha.Execute.Watch.Observed.Triples.{
  Keeps, Triple, Keeps-bind, Keeps-lift, after_step, after_check, at_end,
}
use wendougee_data_ha.Execute.Watch.Observed.{IsObservedFor, observe-IsObserved, cut-OnOk}

module _ {W : Type 0} (watcher : Watcher W) (tr : Transport W) (seen : W → List Seen)
    (law : IsLogged watcher tr seen) where
  exchange-Keeps : (op : Operation) → Keeps seen (exchange tr op)
  unfolding exchange converse
  exchange-Keeps op = record {
    at = λ l. elim (Bool-cases (is_usable l.session)) [
      | inr u ↦ rw (u) refl
      | inl u ↦ elim (Bool-cases (is_allowed tr.allowed (request_of op))) [
        | inr a ↦ rw (u, a) refl
        | inl a ↦ rw (u, a) (law.wire (request_of op) l.world)
      ]
    ];
  }

  transact-Keeps : (c : Command) → Keeps seen (transact tr c)
  unfolding transact
  transact-Keeps c = exchange-Keeps _

  sleep-Keeps : (milliseconds : ℕ) → Keeps seen (sleep tr milliseconds)
  unfolding sleep
  sleep-Keeps milliseconds = record { at = λ l. law.rest milliseconds l.world }

  read_telemetry-Keeps : Keeps seen (read_telemetry watcher tr)
  unfolding read_telemetry
  read_telemetry-Keeps =
      Keeps-bind seen _ _ (transact-Keeps Command.telemetry)
        λ frame. Keeps-lift seen (parse_telemetry_response frame)

  read_state-Keeps : Keeps seen (read_state tr)
  unfolding read_state
  read_state-Keeps = Keeps-bind seen _ _ (transact-Keeps _) λ frame. Keeps-lift seen _

  read_configuration-Keeps : Keeps seen (read_configuration tr)
  unfolding read_configuration
  read_configuration-Keeps = Keeps-bind seen _ _ (transact-Keeps _) λ frame. Keeps-lift seen _

  after_note :
      {B : Type 0} (P P' : List Seen → Type 0) (Q : B → List Seen → Type 0) (s : Seen)
      (f : Unit {0} → M W B)
      → ((log : List Seen) → P log → P' (s ∷ log))
      → Triple seen P' (f tt) Q
      → Triple seen P (note watcher tr s >>= f) Q
  unfolding ◌>>=◌ continue note
  after_note P P' Q s f step h = record {
    at = λ l p.
        h.at (record l { world = watcher.observe s l.world })
          (subst P' (sym (law.observe s l.world)) (step (seen l.world) p));
  }

  after_now :
      {B : Type 0} (P : List Seen → Type 0) (Q : B → List Seen → Type 0) (f : ℕ → M W B)
      → ((time : ℕ) → Triple seen P (f time) Q)
      → Triple seen P (now watcher tr >>= f) Q
  unfolding ◌>>=◌ continue now
  after_now P Q f h = record { at = λ l p. (h (watcher.time l.world)).at l p }

  module _ (before : Configuration) (log : List Seen) (first : Seen) where
    abbrev LoggedSoFar : Progress → List Seen → Type 0
    LoggedSoFar p = Logged before (first ∷ log) p

    abbrev Done : CleaningResult → List Seen → Type 0
    Done r log' = IsShown before log log' r

    conclude-Triple :
        (elapsed : ℕ) (p : Progress)
        → leb 2 p.idle_samples ≡ true
        → Triple seen (LoggedSoFar p) (conclude watcher tr before elapsed p) Done
    unfolding conclude result_of
    conclude-Triple elapsed p h =
        after_step seen _ _ (read_configuration tr) _ read_configuration-Keeps λ after.
          after_check seen _ _ (bytes_eq after.raw_registers before.raw_registers) _ _ λ _.
            at_end seen _ _ (result_of before elapsed p) λ log' k. record {
              first = first;
              samples = k.samples;
              shown = k.shown;
              each = k.each;
              count = k.count;
              idle_at_last = Latest-IsIdleTwice p.idle_samples k.samples k.latest h;
            }

    passed-Triple :
        (long : Bool) (elapsed : ℕ) (p : Progress) (rest : M W CleaningResult)
        → Triple seen (LoggedSoFar p) rest Done
        → Triple seen
            (LoggedSoFar p)
            (if long && leb 2 p.idle_samples then conclude watcher tr before elapsed p else rest)
            Done
    passed-Triple false elapsed p rest h = h
    passed-Triple true elapsed p rest h = elim (Bool-cases (leb 2 p.idle_samples)) [
      | inl b ↦ rw (b) (conclude-Triple elapsed p b)
      | inr b ↦ rw (b) h
    ]

    watch-Triple :
        (n duration started : ℕ) (p : Progress)
        → Triple seen (LoggedSoFar p) (watch watcher tr n before duration started p) Done
    unfolding watch raise
    watch-Triple zero duration started p = record { at = λ l k. tt }
    watch-Triple (suc n) duration started p =
        after_step seen _ _ (read_telemetry watcher tr) _ read_telemetry-Keeps λ t.
          after_step seen _ _ (read_state tr) _ read_state-Keeps λ s.
            after_check seen _ _ _ _ _ λ active.
              after_note _ (LoggedSoFar (advance t (is_idle (State.state s)) p)) _ _ _
                (λ log' k.
                  advance-Logged before (first ∷ log)
                    (record { telemetry = t; state = s; configuration = before }) p log'
                    (record { active = active; configuration = refl }) k)
                (after_now _ _ _ λ time. passed-Triple _ (time - started) _ _ (
                  after_step seen _ _ (sleep tr 500) _ (sleep-Keeps 500)
                    λ _. watch-Triple n duration started _))

    with_timeout-Triple :
        (P : List Seen → Type 0) (Q : CleaningResult → List Seen → Type 0) (m : M W CleaningResult)
        → Triple seen P m Q
        → Triple seen P (with_timeout watcher tr m) Q
    unfolding with_timeout
    with_timeout-Triple P Q m h = record {
      at = λ l p.
          cut-OnOk (λ a. Q a (seen (m l).1.world)) (watcher.expired (m l).1.world) (m l).0
            (h.at l p);
    }

  observe-Triple :
      (before : Configuration) (s : OperatingState) (log : List Seen)
      → Triple seen
          (λ log'. log' ≡ log)
          (observe watcher tr (before, s))
          (λ r log'. IsShown before log log' r)
  unfolding observe
  observe-Triple before s log =
      after_step seen _ _ (lift (cleaning_duration before)) _ (Keeps-lift seen _) λ duration.
        after_step seen _ _ (read_telemetry watcher tr) _ read_telemetry-Keeps λ t.
          (let first : Seen = record { telemetry = t; state = s; configuration = before } in
            let start : Progress = record {
              idle_samples = 0;
              sample_count = 1;
              pressure_max = t.pressure_bar;
              saw_idle = false;
            } in
            after_note _ (Logged before (first ∷ log) start) _ first _
              (λ log' e. record {
                samples = [];
                shown = ap (λ xs. first ∷ xs) e;
                each = none_yet;
                count = refl;
                latest = unknown [];
              })
              (after_now _ _ _ λ started.
                with_timeout-Triple before log first _ _ _ (
                  watch-Triple before log first (passes duration) (micros duration) started start)))

  -- A cleaning whose observation returns a result was observed for at least the duration of its
  -- stored program, and the result has the settings of that program. The callback was shown a first
  -- sample and then others, which the result counts, each of a machine that cleans or is idle and
  -- has water; and the two latest of these samples were idle. The list of what the callback was
  -- shown is a function of the world to which only the callback adds.
  pub observe-IsShown :
      (before : Configuration) (s : OperatingState) (l : Link W) (r : CleaningResult)
      → (observe watcher tr (before, s) l).0 ≡ ok r
      → IsObservedFor before r
        × IsShown before (seen l.world) (seen (observe watcher tr (before, s) l).1.world) r
  observe-IsShown before s l r e = (
    observe-IsObserved watcher tr before s l r e,
    of-OnOk (λ a. IsShown before (seen l.world) (seen (observe watcher tr (before, s) l).1.world) a)
        ((observe-Triple before s (seen l.world)).at l refl) e,
  )
