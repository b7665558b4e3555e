-- ===== src/Link/Quarantine.antt =====
-- What one exchange does: to the session, to the history, and which results it can have.
use wendougee_data_ha.Base.{
  List, [], ◌∷◌, Bool, true, false, Option, none, some, Error, Result, ok, err, is_control_rejected,
  ◌≡◌, refl, ◌∙◌, arith, ◌⊎◌, inl, inr, Bool-cases,
}
use mathlib.Core.Path.{subst}
use wendougee_data_ha.Base.Bytes.{Bytes}
use wendougee_data_ha.Session.{
  Session, Operation, Pending, absent, waiting, resolved, failed, request_of, invalidate, on_data,
  on_disconnect, is_usable,
}
use wendougee_data_ha.Session.Exchange.{
  Waits, Accepted, IsGoodPending, on_data-Waits, on_disconnect-Waits,
}
use wendougee_data_ha.Link.{
  Event, Transport, Link, received, disconnected, Interrupt, interrupt_error, deliver, is_allowed,
  settle, outcome, finish, converse, exchange, not_usable, not_enabled,
}

pub deliver-Waits :
    (op : Operation) (a : Bool) (es : List Event) (s : Session)
    → Waits op a s
    → Waits op a (deliver es s)
unfolding deliver
deliver-Waits op a [] s w = w
deliver-Waits op a (received fragment ∷ es) s w =
    deliver-Waits op a es (on_data fragment s) (on_data-Waits op a fragment s w)
deliver-Waits op a (disconnected ∷ es) s w =
    deliver-Waits op a es (on_disconnect s) (on_disconnect-Waits op a s w)

-- A good result: an accepted frame, or an error that is no `ControlRejected`.
abbrev pub IsGood : Operation → Result Bytes → Type 0
IsGood op (ok frame) = Accepted op frame
IsGood op (err e) = is_control_rejected e ≡ false

settle-IsGood :
    (op : Operation) (p : Pending) (b : Bool) → IsGoodPending op p → IsGood op (settle p b)
unfolding settle
settle-IsGood op absent b g = refl
settle-IsGood op waiting b g = refl
settle-IsGood op (failed e) b g = g
settle-IsGood op (resolved frame) true g = g
settle-IsGood op (resolved frame) false g = refl

interrupt_error-plain : (i : Interrupt) → is_control_rejected (interrupt_error i) ≡ false
interrupt_error-plain i = ground arith

outcome-IsGood :
    (op : Operation) (a : Bool) (i : Option Interrupt) (s : Session)
    → Waits op a s
    → IsGood op (outcome i s)
unfolding outcome
outcome-IsGood op a none s w = settle-IsGood op s.pending (is_usable s) w.pending
outcome-IsGood op a (some i) s w = interrupt_error-plain i

-- A session whose exchange failed is never usable again; a success keeps it active.
finish-active : (r : Result Bytes) (s : Session) → (finish r s).active ≡ s.active
unfolding finish
finish-active (ok f) s = refl
finish-active (err e) s = refl

finish-err : (e : Error) (s : Session) → is_usable (finish (err e) s) ≡ false
unfolding finish is_usable invalidate
finish-err e s = ground arith

module _ {W : Type 0} (tr : Transport W) where
  pub converse_lem :
      (op : Operation) (s : Session) (h : List Operation) (w : W)
      → s.operation ≡ some op
      → s.pending ≡ waiting
      → let (r, l) = converse tr op s h w in
        IsGood op r
        × (l.history ≡ op ∷ h)
        × (l.session.active ≡ s.active)
        × ((e : Error) → r ≡ err e → is_usable l.session ≡ false)
  unfolding converse
  converse_lem op s h w p q =
      let es = (tr.wire (request_of op) w).0.events in
      let i = (tr.wire (request_of op) w).0.interrupt in
      let good : Waits op s.active (deliver es s) =
        deliver-Waits op s.active es s
          (record { operation = p; active = refl; pending = rw q tt }) in
      (
        outcome-IsGood op s.active i (deliver es s) good,
        refl,
        finish-active (outcome i (deliver es s)) (deliver es s) ∙ good.active,
        λ e h. rw h (finish-err e (deliver es s)),
      )

  -- What an exchange can do, in the three ways that its guards give.
  pub record Exchanged (op : Operation) (l : Link W) (r : Result Bytes) (l' : Link W) : Type 0 where
    pub good : IsGood op r
    pub written :
        ((l'.history ≡ l.history) × ((e : Error) × (r ≡ err e))) ⊎ (l'.history ≡ op ∷ l.history)
    pub active : l'.session.active ≡ l.session.active
    pub quarantined : (e : Error) → r ≡ err e → is_usable l'.session ≡ false
    pub sends :
        is_usable l.session ≡ true
        → is_allowed tr.allowed (request_of op) ≡ true
        → l'.history ≡ op ∷ l.history

  pub exchange-Exchanged :
      (op : Operation) (l : Link W) → Exchanged op l (exchange tr op l).0 (exchange tr op l).1
  unfolding exchange
  exchange-Exchanged op l =
      let opened : Session = record (l.session) { operation = some op; pending = waiting } in
      let c = converse_lem op opened l.history l.world refl refl in
      elim (Bool-cases (is_usable l.session)) [
        | inl u ↦ elim (Bool-cases (is_allowed tr.allowed (request_of op))) [
          | inl a ↦
              rw (u, a)
                (record {
                  good = c.0;
                  written = inr c.1;
                  active = c.2;
                  quarantined = c.3;
                  sends = λ _ _. c.1;
                })
          | inr a ↦
              rw (u, a)
                (record {
                  good = refl;
                  written = inl (refl, (not_enabled, refl));
                  active = refl;
                  quarantined = λ e _. finish-err not_enabled opened;
                  sends = λ _ p. absurd (cc);
                })
        ]
        | inr u ↦ rw u (record {
          good = refl;
          written = inl (refl, (not_usable, refl));
          active = refl;
          quarantined = λ e _. u;
          sends = λ p _. absurd (cc);
        })
      ]

  -- An exchange that returns a frame wrote its request once and nothing else, and the frame is a
  -- response that the checks of its operation accept.
  pub exchange_ok :
      (op : Operation) (l : Link W) (frame : Bytes)
      → (exchange tr op l).0 ≡ ok frame
      → Accepted op frame × ((exchange tr op l).1.history ≡ op ∷ l.history)
  exchange_ok op l frame h =
      let x = exchange-Exchanged op l in
      (
        subst (IsGood op) h x.good,
        elim x.written [ inl (same, (e, q)) ↦ absurd (cc) | inr new ↦ new ],
      )

  -- `transact` for each of a list of operations in turn, whatever the results
  unfoldable pub exchange_all : List Operation → Link W → Link W
  exchange_all [] l = l
  exchange_all (op ∷ ops) l = exchange_all ops (exchange tr op l).1

  unusable_writes_nothing :
      (ops : List Operation) (l : Link W) → is_usable l.session ≡ false → exchange_all ops l ≡ l
  unfolding exchange_all exchange
  unusable_writes_nothing [] l u = refl
  unusable_writes_nothing (op ∷ ops) l u = rw u (unusable_writes_nothing ops l u)

  -- After an exchange that failed, for any cause, no further exchange of the session writes
  -- anything or changes anything: the session is quarantined.
  pub exchange_quarantines :
      (op : Operation) (l : Link W) (e : Error) (later : List Operation)
      → (exchange tr op l).0 ≡ err e
      → exchange_all later (exchange tr op l).1 ≡ (exchange tr op l).1
  exchange_quarantines op l e later h =
      unusable_writes_nothing later (exchange tr op l).1 ((exchange-Exchanged op l).quarantined e h)
