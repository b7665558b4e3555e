-- ===== src/Lifecycle.antt =====
-- One session from its opening to its close: `__aenter__`, `__aexit__` and `_close` of
-- src/wendougee_data/session.py, round a program that uses the session.
pub mod Rejections
use wendougee_data_ha.Base.{
  ℕ, List, [], Bool, true, false, Option, none, some, String, Error, Result, ok, err,
  cancelled_error, session_unavailable, if◌then◌else◌,
}
use wendougee_data_ha.Base.Bytes.{Bytes}
use wendougee_data_ha.Session
use wendougee_data_ha.Session.{Session, Operation, invalidate, is_usable}
use wendougee_data_ha.Link.{Interrupt, cancel, interrupt_error, Answer, Transport, Link, M, deliver}

-- The Bluetooth route to a machine: opening (connection, checks of the GATT layout and both
-- subscriptions), closing (with what it raises, if it raises), and the rest as in `Transport`.
pub record Route (W : Type 0) : Type 0 where
  pub open_route : W → Answer × W
  pub close_route : W → Option Interrupt × W
  pub wire : Bytes → W → Answer × W
  pub rest : ℕ → W → Answer × W
  pub cancelled : W → Bool

-- what a session leaves behind
pub record Ended (W : Type 0) : Type 0 where
  pub history : List Operation
  pub world : W

abbrev closed_error : Error
closed_error = session_unavailable "session closed"

-- `_close` on the session
unfoldable pub close_session : Session → Session
unfolding invalidate
close_session s = invalidate closed_error (record s { active = false })

-- `SessionUnavailable` where the session was used before, or what opening gives
opened : Option Interrupt → Session → Result (Unit {0})
opened (some i) s = err (interrupt_error i)
opened none s =
    if is_usable s
    then ok tt
    else err (session_unavailable "session unavailable; use a fresh connection")

-- an error of the cleanup is raised only where there is no other, but a cancellation of the cleanup
-- is no `Exception`: it is raised in any case
unfoldable pub primary : {A : Type 0} → Result A → Option Interrupt → Result A
primary r none = r
primary r (some cancel) = err cancelled_error
primary (err e) (some i) = err e
primary (ok a) (some i) = err (interrupt_error i)

module _ {W : Type 0} (route : Route W) where
  unfoldable pub transport : List Bytes → Transport W
  transport allowed = record {
    allowed = allowed;
    wire = route.wire;
    rest = route.rest;
    cancelled = route.cancelled;
  }

module _ {W A : Type 0} (route : Route W) where
  -- `__aexit__`, and the close of `__aenter__` on a failure
  unfoldable pub leave : Result A → Link W → Result A × Ended W
  unfolding primary
  leave r l =
      let (failed, world') = route.close_route l.world in
      (primary r failed, record { history = l.history; world = world' })

  enter_with : Result (Unit {0}) → M W A → Link W → Result A × Ended W
  enter_with (ok _) body l = let (r, l') = body l in leave r l'
  enter_with (err e) body l = leave (err e) l

  -- `async with Session(transport) as session: body`, with a fresh session
  unfoldable pub with_session : M W A → W → Result A × Ended W
  unfolding enter_with leave opened deliver Session.new is_usable
  with_session body world =
      let (answer, world') = route.open_route world in
      let s : Session = record (deliver answer.events (record Session.new { used = true })) {
        active = true;
      } in
      enter_with (opened answer.interrupt s) body
        (record { session = s; history = []; world = world' })
