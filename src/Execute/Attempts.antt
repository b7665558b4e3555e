-- ===== src/Execute/Attempts.antt =====
-- The executors of src/custom_components/wendougee_data/control.py that end in `ControlRejected`.
use wendougee_data_ha.Base.{
  List, [], Bool, true, Error, Result, ok, err, is_control_rejected, ◌≡◌, refl, arith,
}
use wendougee_data_ha.Base.Bytes.{Bytes}
use wendougee_data_ha.Command.{Command}
use wendougee_data_ha.Telemetry.{parse_telemetry_response}
use wendougee_data_ha.Session.{Operation}
use wendougee_data_ha.Link.{Transport, Link, M, continue, ◌>>=◌}
use wendougee_data_ha.Link.Traces.{
  Grows, Rejects, NeverRejects, NeverRejects-bind, NeverRejects-transact, NeverRejects-lift,
  NeverRejects-pure,
}
use wendougee_data_ha.Session.Exchange.{IsPlain}
use wendougee_data_ha.Lifecycle.{Route, transport}
use wendougee_data_ha.Lifecycle.Rejections.{with_session-Rejects}
use wendougee_data_ha.Control.Rejections.{is_read, start_stored_profile-Rejects}
use wendougee_data_ha.Execute.{run, requests, profile_commands, start_and_read, execute_profile}

parse_telemetry_response-IsPlain : (frame : Bytes) → IsPlain (parse_telemetry_response frame)
unfolding parse_telemetry_response
parse_telemetry_response-IsPlain frame = ground arith

module _ {W A B : Type 0} (G : Operation → Bool) where
  continue_rejected :
      (r : Result A) (f : A → M W B) (h : List Operation) (l : Link W) (e : Error)
      → ((x : Error) → r ≡ err x → is_control_rejected x ≡ true → Grows G h l.history)
      → ((a : A) → NeverRejects (f a))
      → (continue r f l).0 ≡ err e
      → is_control_rejected e ≡ true
      → Grows G h (continue r f l).1.history
  unfolding continue
  continue_rejected (ok a) f h l e k n p q = absurd (cc ((n a).at l e p))
  continue_rejected (err x) f h l e k n p q = k x refl (same p)
    where
      same : ◌≡◌ {A = Result B} (err x) (err e) → is_control_rejected x ≡ true
      same s = ground arith

  Rejects-NeverRejects :
      (m : M W A) (f : A → M W B)
      → Rejects G m
      → ((a : A) → NeverRejects (f a))
      → Rejects G (m >>= f)
  unfolding ◌>>=◌
  Rejects-NeverRejects m f k n = record {
    at = λ l e p q. continue_rejected (m l).0 f l.history (m l).1 e (k.at l) n p q;
  }

module _ {W : Type 0} (route : Route W) where
  start_and_read-Rejects : (tr : Transport W) → Rejects is_read (start_and_read route tr)
  unfolding start_and_read
  start_and_read-Rejects tr =
      Rejects-NeverRejects is_read _ _ (start_stored_profile-Rejects tr) λ s.
        NeverRejects-bind _ _ (NeverRejects-transact tr Command.telemetry) λ frame.
          NeverRejects-bind _ _
            (NeverRejects-lift (parse_telemetry_response frame)
              (parse_telemetry_response-IsPlain frame))
            λ t. NeverRejects-pure (t, s)

  -- If a profile start on a session of its own ends in `ControlRejected`, the session, from its
  -- opening to its close, wrote read requests only.
  pub execute_profile_rejected :
      (world : W) (e : Error)
      → (execute_profile route world).0 ≡ err e
      → is_control_rejected e ≡ true
      → Grows is_read [] (execute_profile route world).1.history
  unfolding execute_profile run
  execute_profile_rejected world e p q =
      with_session-Rejects route is_read
        (start_and_read route (transport route (requests profile_commands))) world e
        (start_and_read-Rejects (transport route (requests profile_commands))) p q
