-- ===== src/Control/Rejections.antt =====
-- `ControlRejected` means that no control was attempted: a transaction that raises it has
-- written reads only. The callers rely on this when they clear a lock.
use wendougee_data_ha.Base.{
  ℕ, zero, suc, List, [], ◌∷◌, Bool, true, false, ◌||◌, ◌&&◌, not, and→both, Option, none, some,
  Error, ◌≡◌, refl, ◌==◌, arith, All,
}
use wendougee_data_ha.Base.Bytes.{Bytes, bytes_eq}
use wendougee_data_ha.Command.{
  Command, value, profile_modes, configuration, pilot_stage, pilot_header, commands, find_command,
  active_chunks, bound_chunks, profile_press, profile_release, cleaning_press, cleaning_release,
}
use wendougee_data_ha.Reads
use wendougee_data_ha.Session.{Operation, read, command}
use wendougee_data_ha.Session.Exchange.{IsPlain, validate_read_response-IsPlain}
use wendougee_data_ha.State.{
  Configuration, state, is_idle, is_profile, is_cleaning, decode_operating_state,
  decode_configuration,
}
use wendougee_data_ha.Controls.{BoilerSetting}
use wendougee_data_ha.Link.{Transport, M}
use wendougee_data_ha.Link.Traces.{
  Emits, Rejects, NeverRejects, Emits-Rejects, NeverRejects-Rejects, Rejects-if, Rejects-bind,
  Emits-bind, Emits-if, NeverRejects-bind, NeverRejects-if, NeverRejects-pure, NeverRejects-sleep,
  NeverRejects-transact, NeverRejects-check, Emits-check, Emits-transact, Emits-pure, emits_rules,
  never_rules, NeverRejects-lift,
}
use wendougee_data_ha.Press.{
  read_state, require_idle, release_after, release_press, pulse, read_chunks, read_profile_bank,
}
use wendougee_data_ha.Control.Boiler.{
  read_configuration, require_water, require_safe, command_for, write_and_verify, change_boiler,
  set_boiler,
}
use wendougee_data_ha.Control.Profile.{
  ready_to_start, confirm_profile, start_stored_profile, validate_pilot,
}
use wendougee_data_ha.Control.Cleaning.{ready_to_clean, confirm_cleaning, start_cleaning}
use wendougee_data_ha.Control.Preparation.{
  Backup, Snapshot, take_snapshot, still_same, compare_frames, write_pilot, read_back,
  prepare_pilot_profile, with_pilot, report, changed_before, mismatch,
}

-- functions 1 and 3 read
unfoldable pub is_read : Operation → Bool
unfolding value
is_read (read op) = true
is_read (command c) = ((value c).function == 1) || ((value c).function == 3)

unfoldable pub all_reads : List Command → Bool
all_reads [] = true
all_reads (c ∷ cs) = is_read (command c) && all_reads cs

pub all_reads-All :
    (cs : List Command) → all_reads cs ≡ true → All (λ c. is_read (command c) ≡ true) cs
unfolding all_reads
all_reads-All [] h = tt
all_reads-All (c ∷ cs) h = let (first, rest) = and→both _ _ h in (first, all_reads-All cs rest)

module _ {W : Type 0} (tr : Transport W) where
  decode_operating_state-IsPlain : (frame : Bytes) → IsPlain (decode_operating_state frame)
  unfolding decode_operating_state
  decode_operating_state-IsPlain frame =
      ground (arith, validate_read_response-IsPlain frame Reads.operating_state)

  decode_configuration-IsPlain : (frame : Bytes) → IsPlain (decode_configuration frame)
  unfolding decode_configuration
  decode_configuration-IsPlain frame =
      ground (arith, validate_read_response-IsPlain frame Reads.configuration)

  pub Emits-read_state : Emits is_read (read_state tr)
  unfolding read_state is_read
  Emits-read_state = search emits_rules

  NeverRejects-read_state : NeverRejects (read_state tr)
  unfolding read_state
  NeverRejects-read_state = search (never_rules, NeverRejects-lift, decode_operating_state-IsPlain)

  Emits-require_idle : Emits is_read (require_idle tr)
  unfolding require_idle
  Emits-require_idle = search (emits_rules, Emits-read_state)

  pub Emits-read_configuration : Emits is_read (read_configuration tr)
  unfolding read_configuration is_read
  Emits-read_configuration = search emits_rules

  NeverRejects-read_configuration : NeverRejects (read_configuration tr)
  unfolding read_configuration
  NeverRejects-read_configuration =
      search (never_rules, NeverRejects-lift, decode_configuration-IsPlain)

  Emits-require_water : Emits is_read (require_water tr)
  unfolding require_water is_read
  Emits-require_water = search emits_rules

  Emits-require_safe : (enabled : Bool) → Emits is_read (require_safe tr enabled)
  unfolding require_safe
  Emits-require_safe false = search emits_rules
  Emits-require_safe true = search (emits_rules, Emits-require_water, Emits-require_idle)

  write_and_verify-NeverRejects :
      (c : Command) (expected : List ℕ) → NeverRejects (write_and_verify tr c expected)
  unfolding write_and_verify
  write_and_verify-NeverRejects c expected = search (never_rules, NeverRejects-read_configuration)

  Emits-command_for : (o : Option Command) → Emits is_read (command_for tr o)
  unfolding command_for
  Emits-command_for none = search emits_rules
  Emits-command_for (some c) = search emits_rules

  change_boiler-Rejects :
      (setting : BoilerSetting) (enabled : Bool) (request : Bytes) (before : Configuration)
      → Rejects is_read (change_boiler tr setting enabled request before)
  unfolding change_boiler
  change_boiler-Rejects setting enabled request before =
      Rejects-if is_read _ _ _ (Emits-Rejects is_read _ (Emits-pure is_read before)) (
        Rejects-bind is_read _ _ (Emits-require_safe enabled) λ _.
          Rejects-bind is_read _ _ (Emits-command_for (find_command commands request))
            λ c. NeverRejects-Rejects is_read _ (write_and_verify-NeverRejects c _))

  -- A boiler transaction that raises `ControlRejected` has written reads only.
  pub set_boiler-Rejects :
      (setting : BoilerSetting) (enabled : Bool) → Rejects is_read (set_boiler tr setting enabled)
  unfolding set_boiler
  set_boiler-Rejects setting enabled =
      search
        (
          Rejects-bind, emits_rules, Emits-read_configuration, Emits-require_idle,
          change_boiler-Rejects,
        )
        depth 9

  Emits-read_chunks :
      (cs : List Command) (ws : List ℕ)
      → All (λ c. is_read (command c) ≡ true) cs
      → Emits is_read (read_chunks tr cs ws)
  unfolding read_chunks
  Emits-read_chunks [] ws k = Emits-pure is_read ws
  Emits-read_chunks (c ∷ cs) ws k =
      Emits-bind is_read _ _ (Emits-transact tr is_read c k.0) λ frame. Emits-read_chunks cs _ k.1

  Emits-read_profile_bank : (bound : Bool) → Emits is_read (read_profile_bank tr bound)
  unfolding read_profile_bank is_read all_reads
  Emits-read_profile_bank true = Emits-read_chunks bound_chunks [] (all_reads-All bound_chunks refl)
  Emits-read_profile_bank false =
      Emits-read_chunks active_chunks [] (all_reads-All active_chunks refl)

  NeverRejects-read_chunks : (cs : List Command) (ws : List ℕ) → NeverRejects (read_chunks tr cs ws)
  unfolding read_chunks
  NeverRejects-read_chunks [] ws = NeverRejects-pure ws
  NeverRejects-read_chunks (c ∷ cs) ws =
      NeverRejects-bind _ _ (NeverRejects-transact tr c) λ frame. NeverRejects-read_chunks cs _

  NeverRejects-read_profile_bank : (bound : Bool) → NeverRejects (read_profile_bank tr bound)
  unfolding read_profile_bank
  NeverRejects-read_profile_bank true = NeverRejects-read_chunks bound_chunks []
  NeverRejects-read_profile_bank false = NeverRejects-read_chunks active_chunks []

  Emits-ready_to_start : Emits is_read (ready_to_start tr)
  unfolding ready_to_start validate_pilot is_read
  Emits-ready_to_start =
      search
        (
          emits_rules, Emits-read_configuration, Emits-require_water, Emits-read_profile_bank,
          Emits-require_idle,
        )
        depth 12

  release_after-NeverRejects :
      (o : Option Error) (c : Command) → NeverRejects (release_after tr o c)
  unfolding release_after
  release_after-NeverRejects none c = search never_rules
  release_after-NeverRejects (some x) c = search never_rules

  release_press-NeverRejects : (c : Command) → NeverRejects (release_press tr c)
  unfolding release_press
  release_press-NeverRejects c = record {
    at = λ l e p. ground (arith, (release_after-NeverRejects l.session.failure c).at l e);
  }

  pulse-NeverRejects : (press release : Command) → NeverRejects (pulse tr press release)
  unfolding pulse
  pulse-NeverRejects press release = search (never_rules, release_press-NeverRejects)

  confirm_profile-NeverRejects : (n : ℕ) → NeverRejects (confirm_profile tr n)
  unfolding confirm_profile
  confirm_profile-NeverRejects zero = search never_rules
  confirm_profile-NeverRejects (suc n) = NeverRejects-bind _ _ NeverRejects-read_state λ s.
      NeverRejects-if (is_profile (state s)) _ _ (search never_rules) (
        NeverRejects-if (is_idle (state s)) _ _
          (NeverRejects-bind _ _ (NeverRejects-sleep tr 200) (λ _. confirm_profile-NeverRejects n))
          (search never_rules))

  -- A profile start that raises `ControlRejected` has written reads only: no press.
  pub start_stored_profile-Rejects : Rejects is_read (start_stored_profile tr)
  unfolding start_stored_profile
  start_stored_profile-Rejects = Rejects-bind is_read _ _ Emits-ready_to_start λ _.
      NeverRejects-Rejects is_read _ (
        NeverRejects-bind _ _ (pulse-NeverRejects profile_press profile_release)
          λ _. confirm_profile-NeverRejects 5)

  Emits-ready_to_clean : Emits is_read (ready_to_clean tr)
  unfolding ready_to_clean
  Emits-ready_to_clean =
      search (emits_rules, Emits-read_configuration, Emits-require_water, Emits-require_idle) depth
        9

  confirm_cleaning-NeverRejects :
      (before : Configuration) (n : ℕ) → NeverRejects (confirm_cleaning tr before n)
  unfolding confirm_cleaning
  confirm_cleaning-NeverRejects before zero = search never_rules
  confirm_cleaning-NeverRejects before (suc n) = NeverRejects-bind _ _ NeverRejects-read_state λ s.
      NeverRejects-if (is_cleaning (state s)) _ _ (search never_rules) (
        NeverRejects-if (is_idle (state s)) _ _
          (NeverRejects-bind _ _ (NeverRejects-sleep tr 200)
            (λ _. confirm_cleaning-NeverRejects before n))
          (search never_rules))

  -- A cleaning start that raises `ControlRejected` has written reads only: no press.
  pub start_cleaning-Rejects : Rejects is_read (start_cleaning tr)
  unfolding start_cleaning
  start_cleaning-Rejects = Rejects-bind is_read _ _ Emits-ready_to_clean λ before.
      NeverRejects-Rejects is_read _ (
        NeverRejects-bind _ _ (pulse-NeverRejects cleaning_press cleaning_release)
          λ _. search (never_rules, NeverRejects-read_configuration, confirm_cleaning-NeverRejects))

module _ {W : Type 0} (tr : Transport W) (backup : Backup → M W (Unit {0}))
    (local : (b : Backup) → Emits is_read (backup b)) where
  Emits-take_snapshot : Emits is_read (take_snapshot tr backup)
  unfolding take_snapshot validate_pilot is_read
  Emits-take_snapshot =
      search (emits_rules, Emits-require_idle, Emits-require_water, Emits-read_profile_bank) depth
        12

  Emits-compare_frames : (s : Snapshot) → Emits is_read (compare_frames tr backup s)
  unfolding compare_frames is_read
  Emits-compare_frames s =
      Emits-bind is_read _ _ (Emits-transact tr is_read profile_modes refl) λ modes.
        Emits-if is_read (not (bytes_eq s.modes modes)) _ _ (Emits-pure is_read false) (
          Emits-bind is_read _ _ (Emits-transact tr is_read configuration refl)
            λ config. Emits-pure is_read (bytes_eq s.config config))

  Emits-still_same : (s : Snapshot) → Emits is_read (still_same tr backup s)
  unfolding still_same
  Emits-still_same s = Emits-bind is_read _ _ (Emits-read_profile_bank tr false) λ active.
      Emits-if is_read (not (bytes_eq s.active active)) _ _ (Emits-pure is_read false) (
        Emits-bind is_read _ _ (Emits-read_profile_bank tr true) λ bound.
          Emits-if is_read (not (bytes_eq s.bound bound)) _ _ (Emits-pure is_read false)
            (Emits-compare_frames s))

  NeverRejects-compare_frames : (s : Snapshot) → NeverRejects (compare_frames tr backup s)
  unfolding compare_frames
  NeverRejects-compare_frames s =
      NeverRejects-bind _ _ (NeverRejects-transact tr profile_modes) λ modes.
        NeverRejects-if (not (bytes_eq s.modes modes)) _ _ (NeverRejects-pure false) (
          NeverRejects-bind _ _ (NeverRejects-transact tr configuration)
            λ config. NeverRejects-pure (bytes_eq s.config config))

  NeverRejects-read_back : (s : Snapshot) → NeverRejects (read_back tr backup s)
  unfolding read_back
  NeverRejects-read_back s =
      NeverRejects-bind _ _ (NeverRejects-read_profile_bank tr false) λ after.
        NeverRejects-bind _ _ (NeverRejects-read_profile_bank tr true) λ unchanged.
          NeverRejects-if (not (bytes_eq after (with_pilot s.active) && bytes_eq unchanged s.bound))
            _ _ (NeverRejects-pure false) (NeverRejects-compare_frames s)

  NeverRejects-write_pilot : (active : List ℕ) → NeverRejects (write_pilot tr backup active)
  unfolding write_pilot
  NeverRejects-write_pilot active =
      NeverRejects-if (bytes_eq (with_pilot active) active) _ _ (NeverRejects-pure 0) (
        NeverRejects-bind _ _ (NeverRejects-transact tr pilot_stage) λ _.
          NeverRejects-bind _ _ (NeverRejects-transact tr pilot_header) λ _. NeverRejects-pure 2)

  -- A preparation that raises `ControlRejected` has written reads only, if the backup writes
  -- nothing to the machine but reads.
  pub prepare_pilot_profile-Rejects : Rejects is_read (prepare_pilot_profile tr backup)
  unfolding prepare_pilot_profile
  prepare_pilot_profile-Rejects = Rejects-bind is_read _ _ Emits-take_snapshot λ s.
      Rejects-bind is_read _ _ (local _) λ _. Rejects-bind is_read _ _ (Emits-still_same s) λ same.
        Rejects-bind is_read _ _ (Emits-check is_read same changed_before) λ _.
          Rejects-bind is_read _ _ (Emits-require_idle tr) λ _. NeverRejects-Rejects is_read _ (
            NeverRejects-bind _ _ (NeverRejects-write_pilot s.active) λ writes.
              NeverRejects-bind _ _ (NeverRejects-read_back s) λ verified.
                NeverRejects-bind _ _ (NeverRejects-check verified mismatch refl) λ _.
                  NeverRejects-bind _ _ (NeverRejects-read_state tr) λ final.
                    NeverRejects-bind _ _ (NeverRejects-check (is_idle (state final)) _ refl)
                      λ _. NeverRejects-pure (report writes))
