-- ===== src/Press/Release.antt =====
-- The guarded press of src/wendougee_data/control_session.py: what a pulse writes.
use wendougee_data_ha.Base.{
  List, [], ◌∷◌, true, Option, none, some, Error, Result, ok, err, ◌≡◌, refl, ap, ◌∙◌, arith, inl,
  inr, Bool-cases, and→both,
}
use wendougee_data_ha.Base.Bytes.{Bytes}
use wendougee_data_ha.Command.{Command}
use wendougee_data_ha.Session.{
  Session, Operation, command, absent, waiting, request_of, invalidate, on_data, on_disconnect,
  receive, is_usable,
}
use wendougee_data_ha.Link.{
  pure, not_enabled, Event, received, disconnected, Transport, Link, deliver, is_allowed, finish,
  converse, exchange, transact, sleep, send, shield, continue, ◌>>=◌, try_finally,
}
use wendougee_data_ha.Link.Quarantine.{exchange-Exchanged}
use wendougee_data_ha.Press.{is_release, release_after, release_press, pulse}

-- an active session without an open exchange
record Rests (s : Session) : Type 0 where
  active : s.active ≡ true
  pending : s.pending ≡ absent

on_data-Rests : (fragment : Bytes) (s : Session) → Rests s → Rests (on_data fragment s)
unfolding on_data receive invalidate
on_data-Rests [] s k = k
on_data-Rests (x ∷ fragment) s k = ground arith

on_disconnect-Rests : (s : Session) → Rests s → Rests (on_disconnect s)
unfolding on_disconnect invalidate
on_disconnect-Rests s k = ground arith

deliver-Rests : (es : List Event) (s : Session) → Rests s → Rests (deliver es s)
unfolding deliver
deliver-Rests [] s k = k
deliver-Rests (received fragment ∷ es) s k =
    deliver-Rests es (on_data fragment s) (on_data-Rests fragment s k)
deliver-Rests (disconnected ∷ es) s k = deliver-Rests es (on_disconnect s) (on_disconnect-Rests s k)

finish-absent : (r : Result Bytes) (s : Session) → (finish r s).pending ≡ absent
unfolding finish
finish-absent (ok frame) s = refl
finish-absent (err e) s = refl

module _ {W : Type 0} (tr : Transport W) where
  converse-absent :
      (op : Operation) (s : Session) (h : List Operation) (w : W)
      → (converse tr op s h w).1.session.pending ≡ absent
  unfolding converse
  converse-absent op s h w = finish-absent _ _

  sent :
      (c : Command) (l : Link W)
      → is_allowed tr.allowed (request_of (command c)) ≡ true
      → (send tr c l).1.history ≡ command c ∷ l.history
  unfolding send
  sent c l k = rw k refl

  exchange-absent :
      (op : Operation) (l : Link W)
      → is_usable l.session ≡ true
      → (exchange tr op l).1.session.pending ≡ absent
  unfolding exchange
  exchange-absent op l u = elim (Bool-cases (is_allowed tr.allowed (request_of op))) [
    | inl a ↦ rw (u, a) (converse-absent op _ l.history l.world)
    | inr a ↦
        rw (u, a)
          (finish-absent (err not_enabled)
            (record (l.session) { pending = waiting; operation = some op }))
  ]

  usable : (s : Session) → s.active ≡ true → s.failure ≡ none → is_usable s ≡ true
  unfolding is_usable
  usable s a f = ground arith

  exchange-Rests :
      (op : Operation) (l : Link W)
      → is_usable l.session ≡ true
      → Rests (exchange tr op l).1.session
  unfolding is_usable
  exchange-Rests op l u = record {
    active = (exchange-Exchanged tr op l).active ∙ (and→both _ _ u).0;
    pending = exchange-absent op l u;
  }

  then_tt :
      {A : Type 0} (r : Result A) (l : Link W) → (continue r (λ _. pure tt) l).1.history ≡ l.history
  unfolding continue pure
  then_tt (ok a) l = refl
  then_tt (err e) l = refl

  release_after-writes :
      (o : Option Error) (c : Command) (l : Link W)
      → l.session.failure ≡ o
      → l.session.active ≡ true
      → is_allowed tr.allowed (request_of (command c)) ≡ true
      → (release_after tr o c l).1.history ≡ command c ∷ l.history
  unfolding release_after transact ◌>>=◌
  release_after-writes none c l f a k =
      then_tt (exchange tr (command c) l).0 (exchange tr (command c) l).1
      ∙ (exchange-Exchanged tr (command c) l).sends (usable l.session a f) k
  release_after-writes (some e) c l f a k = sent c l k

  release_press-writes :
      (c : Command) (l : Link W)
      → is_release c ≡ true
      → l.session.active ≡ true
      → is_allowed tr.allowed (request_of (command c)) ≡ true
      → (release_press tr c l).1.history ≡ command c ∷ l.history
  unfolding release_press
  release_press-writes c l i a k = rw i (release_after-writes l.session.failure c l refl a k)

  -- the wait between the press and the release
  hold : Result Bytes → Link W → Link W
  hold r l = (continue r (λ _. sleep tr 100) l).1

  hold-Rests : (r : Result Bytes) (l : Link W) → Rests l.session → Rests (hold r l).session
  unfolding hold continue sleep
  hold-Rests (err e) l k = k
  hold-Rests (ok frame) l k = deliver-Rests (tr.rest 100 l.world).0.events l.session k

  hold-history : (r : Result Bytes) (l : Link W) → (hold r l).history ≡ l.history
  unfolding hold continue sleep
  hold-history (err e) l = refl
  hold-history (ok frame) l = refl

  -- On a usable session whose transport lets both requests through, a pulse with one of the two
  -- momentary releases writes the press once and then the release once, and nothing else, however
  -- the machine answers, and also when the press fails, the link drops or the task is cancelled.
  pub pulse_releases :
      (press release : Command) (l : Link W)
      → is_usable l.session ≡ true
      → is_release release ≡ true
      → is_allowed tr.allowed (request_of (command press)) ≡ true
      → is_allowed tr.allowed (request_of (command release)) ≡ true
      → (pulse tr press release l).1.history ≡ command release ∷ command press ∷ l.history
  unfolding pulse try_finally shield transact ◌>>=◌ hold
  pulse_releases press release l u i p q =
      let pressed = exchange tr (command press) l in
      let held = hold-Rests pressed.0 pressed.1 (exchange-Rests (command press) l u) in
      release_press-writes release (hold pressed.0 pressed.1) i held.active q
      ∙ ap (λ h. command release ∷ h)
          (hold-history pressed.0 pressed.1 ∙ (exchange-Exchanged tr (command press) l).sends u p)
