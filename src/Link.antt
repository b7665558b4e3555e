-- ===== src/Link.antt =====
-- A session on its transport: `_exchange` and what runs on it. The transport, the machine and
-- the event loop are the parameter `Transport`: they say what reaches the callbacks while a
-- task waits, and whether the wait is cut short.
use wendougee_data_ha.Base.{
  ℕ, List, [], ◌∷◌, Bool, true, false, Option, none, some, String, Error, Result, ok, err,
  value_error, connection_error, session_unavailable, timeout_error, cancelled_error, ltb,
  if◌then◌else◌, ◌||◌, not,
}
pub mod Traces
pub mod Quarantine
use wendougee_data_ha.Base.Bytes.{Bytes, bytes_eq}
use wendougee_data_ha.Command.{Command}
use wendougee_data_ha.Session
use wendougee_data_ha.Session.{
  Session, Operation, Pending, command, absent, waiting, resolved, failed, request_of, invalidate,
  on_data, on_disconnect, is_usable,
}

-- a callback of the transport
pub data Event : Type 0 where
  received : Bytes → Event
  disconnected : Event

-- what ends a wait from outside: the link fails, the transport refuses what it finds or is asked
-- for, the timeout expires, the task is cancelled
pub data Interrupt : Type 0 where
  send_failed refused : String → Interrupt
  deadline cancel : Interrupt

abbrev pub interrupt_error : Interrupt → Error
interrupt_error (send_failed text) = connection_error text
interrupt_error (refused text) = value_error text
interrupt_error deadline = timeout_error
interrupt_error cancel = cancelled_error

-- the callbacks that run before the waiting task goes on, and why it goes on
pub record Answer : Type 0 where
  pub events : List Event
  pub interrupt : Option Interrupt

pub record Transport (W : Type 0) : Type 0 where
  -- the requests that the transport's `send` lets through
  pub allowed : List Bytes
  -- `write_gatt_char` of a request, and what happens until its exchange goes on
  pub wire : Bytes → W → Answer × W
  -- `asyncio.sleep`, by its milliseconds
  pub rest : ℕ → W → Answer × W
  -- whether the task was cancelled while it waited for a shielded one
  pub cancelled : W → Bool

-- The session, the requests written to the machine, the latest first, and the outside world.
pub record Link (W : Type 0) : Type 0 where
  pub session : Session
  pub history : List Operation
  pub world : W

abbrev pub M : Type 0 → Type 0 → Type 0
M W A = Link W → Result A × Link W

-- callbacks in their order
unfoldable pub deliver : List Event → Session → Session
unfolding on_data on_disconnect
deliver [] s = s
deliver (received fragment ∷ es) s = deliver es (on_data fragment s)
deliver (disconnected ∷ es) s = deliver es (on_disconnect s)

-- `request in self._requests`
unfoldable pub is_allowed : List Bytes → Bytes → Bool
is_allowed [] request = false
is_allowed (r ∷ rs) request = bytes_eq r request || is_allowed rs request

-- what `await pending` and the check after it give, when nothing cuts the wait short
settle : Pending → Bool → Result Bytes
settle absent usable = err timeout_error
settle waiting usable = err timeout_error
settle (failed e) usable = err e
settle (resolved frame) true = ok frame
settle (resolved frame) false =
    err (session_unavailable "session unavailable; use a fresh connection")

unfoldable pub outcome : Option Interrupt → Session → Result Bytes
unfolding settle is_usable
outcome (some i) s = err (interrupt_error i)
outcome none s = settle s.pending (is_usable s)

-- the `except` and `finally` of `_exchange`
unfoldable pub finish : Result Bytes → Session → Session
unfolding invalidate
finish (ok frame) s = record s { pending = absent; operation = none }
finish (err e) s = record (invalidate e s) { pending = absent; operation = none }

abbrev pub not_enabled : Error
not_enabled = value_error "Request is not enabled for this control transaction"

abbrev not_usable : Error
not_usable = session_unavailable "session unavailable; use a fresh connection"

-- an error of the cleanup takes the place of what the body gave
after_cleanup : {A : Type 0} → Result (Unit {0}) → Result A → Result A
after_cleanup (ok _) r = r
after_cleanup (err e) r = err e

-- what a wait gives, by what ended it
wake : Option Interrupt → Result (Unit {0})
wake none = ok tt
wake (some i) = err (interrupt_error i)

-- a shielded task, by its result and by whether the waiting task was cancelled
shielded : Result (Unit {0}) → Bool → Result (Unit {0})
shielded (err e) cancelled = err e
shielded (ok _) true = err cancelled_error
shielded (ok _) false = ok tt

module _ {W : Type 0} where
  unfoldable pub pure : {A : Type 0} → A → M W A
  pure a l = (ok a, l)

  unfoldable pub lift : {A : Type 0} → Result A → M W A
  lift r l = (r, l)

  unfoldable pub raise : {A : Type 0} → Error → M W A
  raise e l = (err e, l)

  -- the rest of a program after a step
  unfoldable pub continue : {A B : Type 0} → Result A → (A → M W B) → M W B
  continue (ok a) f l = f a l
  continue (err e) f l = (err e, l)

  infixl 5 ◌>>=◌ ◌>>◌
  -- opening this opens `pure`, `lift` and `raise` too
  unfoldable pub ◌>>=◌ : {A B : Type 0} → M W A → (A → M W B) → M W B
  unfolding pure lift raise continue
  ◌>>=◌ m f l = let (r, l') = m l in continue r f l'

  abbrev pub ◌>>◌ : {A B : Type 0} → M W A → M W B → M W B
  m >> n = m >>= λ _. n

  -- `if not condition: raise error`
  unfoldable pub check : Bool → Error → M W (Unit {0})
  check true e l = (ok tt, l)
  check false e l = (err e, l)

  -- `try: body finally: cleanup`
  unfoldable pub try_finally : {A : Type 0} → M W A → M W (Unit {0}) → M W A
  unfolding after_cleanup
  try_finally body cleanup l =
      let (r, l1) = body l in let (f, l2) = cleanup l1 in (after_cleanup f r, l2)

module _ {W : Type 0} (tr : Transport W) where
  -- the wait of an exchange whose request was let through
  unfoldable pub converse : Operation → Session → List Operation → W → Result Bytes × Link W
  unfolding deliver outcome finish
  converse op s history world =
      let (answer, world') = tr.wire (request_of op) world in
      let s' = deliver answer.events s in
      let r = outcome answer.interrupt s' in
      (r, record { session = finish r s'; history = op ∷ history; world = world' })

  -- `_exchange`. The lock is free: one task drives the session.
  unfoldable pub exchange : Operation → M W Bytes
  unfolding converse is_allowed finish is_usable
  exchange op l =
      let opened = record (l.session) { operation = some op; pending = waiting } in
      if not (is_usable l.session)
      then (err not_usable, l)
      else if not (is_allowed tr.allowed (request_of op))
      then (err not_enabled, record l { session = finish (err not_enabled) opened })
      else converse op opened l.history l.world

  -- `ControlSession.transact`
  unfoldable pub transact : Command → M W Bytes
  unfolding exchange
  transact c = exchange (command c)

  -- `asyncio.sleep`: callbacks may run, and the task may be cancelled
  unfoldable pub sleep : ℕ → M W (Unit {0})
  unfolding deliver wake
  sleep milliseconds l =
      let (answer, world') = tr.rest milliseconds l.world in
      (
        wake answer.interrupt,
        record l { session = deliver answer.events l.session; world = world' },
      )

  -- `self._transport.send(request)`, outside any exchange
  unfoldable pub send : Command → M W (Unit {0})
  unfolding deliver is_allowed wake
  send c l =
      let (answer, world') = tr.wire (request_of (command c)) l.world in
      if not (is_allowed tr.allowed (request_of (command c))) then (err not_enabled, l) else (
        wake answer.interrupt,
        record {
          session = deliver answer.events l.session;
          history = command c ∷ l.history;
          world = world';
        },
      )

  -- `await asyncio.shield(task)` and the wait for the task after a cancellation
  unfoldable pub shield : M W (Unit {0}) → M W (Unit {0})
  unfolding shielded
  shield task l = let (r, l') = task l in (shielded r (tr.cancelled l'.world), l')
