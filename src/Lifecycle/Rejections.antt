-- ===== src/Lifecycle/Rejections.antt =====
-- A program that rejects only after reads, run in a session of its own.
use wendougee_data_ha.Base.{
  [], Bool, true, Option, none, some, Error, Result, ok, err, is_control_rejected, ◌≡◌, arith,
}
use wendougee_data_ha.Session.{Operation}
use wendougee_data_ha.Link.{Interrupt, send_failed, refused, deadline, cancel, Link, M}
use wendougee_data_ha.Link.Traces.{Grows, Grows-refl, Rejects}
use wendougee_data_ha.Lifecycle.{Route, primary, leave, enter_with, with_session}

module _ {A : Type 0} where
  primary_rejected :
      (r : Result A) (failed : Option Interrupt) (e : Error)
      → primary r failed ≡ err e
      → is_control_rejected e ≡ true
      → r ≡ err e
  unfolding primary
  primary_rejected r none e p q = p
  primary_rejected r (some cancel) e p q = absurd (ground (arith, p, q))
  primary_rejected (err x) (some (send_failed text)) e p q = p
  primary_rejected (err x) (some (refused text)) e p q = p
  primary_rejected (err x) (some deadline) e p q = p
  primary_rejected (ok a) (some (send_failed text)) e p q = absurd (ground (arith, p, q))
  primary_rejected (ok a) (some (refused text)) e p q = absurd (ground (arith, p, q))
  primary_rejected (ok a) (some deadline) e p q = absurd (ground (arith, p, q))

module _ {W A : Type 0} (route : Route W) (G : Operation → Bool) where
  enter_with-Rejects :
      (r : Result (Unit {0})) (body : M W A) (l : Link W) (e : Error)
      → Rejects G body
      → (enter_with route r body l).0 ≡ err e
      → is_control_rejected e ≡ true
      → Grows G l.history (enter_with route r body l).1.history
  unfolding enter_with leave
  enter_with-Rejects (err x) body l e k p q = Grows-refl G l.history
  enter_with-Rejects (ok _) body l e k p q = k.at l e (primary_rejected (body l).0 _ e p q) q

  -- the session starts without a history
  pub with_session-Rejects :
      (body : M W A) (world : W) (e : Error)
      → Rejects G body
      → (with_session route body world).0 ≡ err e
      → is_control_rejected e ≡ true
      → Grows G [] (with_session route body world).1.history
  unfolding with_session
  with_session-Rejects body world e k p q = enter_with-Rejects _ body _ e k p q
