-- ===== src/Control/Attempts.antt =====
-- `ControlRejected` of the four transactions of control_session.py and cleaning.py: what was
-- written before it was raised.
use wendougee_data_ha.Base.{Bool, true, Error, err, is_control_rejected, ◌≡◌}
use wendougee_data_ha.Controls.{BoilerSetting}
use wendougee_data_ha.Link.{Transport, Link, M}
use wendougee_data_ha.Link.Traces.{Grows, Emits}
use wendougee_data_ha.Control.Boiler.{set_boiler}
use wendougee_data_ha.Control.Profile.{start_stored_profile}
use wendougee_data_ha.Control.Cleaning.{start_cleaning}
use wendougee_data_ha.Control.Preparation.{Backup, prepare_pilot_profile}
use wendougee_data_ha.Control.Rejections.{
  is_read, set_boiler-Rejects, start_stored_profile-Rejects, start_cleaning-Rejects,
  prepare_pilot_profile-Rejects,
}

module _ {W : Type 0} (tr : Transport W) where
  -- If a boiler change ends in `ControlRejected`, every request that it wrote is a read: no
  -- boiler register was written. This holds for every answer of the machine, every interruption
  -- and every session that the change starts from.
  pub set_boiler_rejected :
      (setting : BoilerSetting) (enabled : Bool) (l : Link W) (e : Error)
      → (set_boiler tr setting enabled l).0 ≡ err e
      → is_control_rejected e ≡ true
      → Grows is_read l.history (set_boiler tr setting enabled l).1.history
  set_boiler_rejected setting enabled = (set_boiler-Rejects tr setting enabled).at

  -- If the start of the stored profile ends in `ControlRejected`, every request that it wrote is
  -- a read: the start was neither pressed nor released.
  pub start_stored_profile_rejected :
      (l : Link W) (e : Error)
      → (start_stored_profile tr l).0 ≡ err e
      → is_control_rejected e ≡ true
      → Grows is_read l.history (start_stored_profile tr l).1.history
  start_stored_profile_rejected = (start_stored_profile-Rejects tr).at

  -- If the start of a cleaning ends in `ControlRejected`, every request that it wrote is a read.
  pub start_cleaning_rejected :
      (l : Link W) (e : Error)
      → (start_cleaning tr l).0 ≡ err e
      → is_control_rejected e ≡ true
      → Grows is_read l.history (start_cleaning tr l).1.history
  start_cleaning_rejected = (start_cleaning-Rejects tr).at

  -- If the preparation of the pilot profile ends in `ControlRejected`, every request that it
  -- wrote is a read, given a backup callback that itself writes reads at most.
  pub prepare_pilot_profile_rejected :
      (backup : Backup → M W (Unit {0})) (l : Link W) (e : Error)
      → ((b : Backup) → Emits is_read (backup b))
      → (prepare_pilot_profile tr backup l).0 ≡ err e
      → is_control_rejected e ≡ true
      → Grows is_read l.history (prepare_pilot_profile tr backup l).1.history
  prepare_pilot_profile_rejected backup l e local =
      (prepare_pilot_profile-Rejects tr backup local).at l e
