-- ===== src/Control/Preparation.antt =====
-- `prepare_pilot_profile` of src/wendougee_data/control_session.py.
use wendougee_data_ha.Base.{
  ℕ, List, [], ◌∷◌, ◌++◌, Bool, true, false, ◌&&◌, not, Error, value_error, control_rejected,
  if◌then◌else◌, take, drop,
}
use wendougee_data_ha.Base.Bytes.{Bytes, bytes_eq}
use wendougee_data_ha.Command.{profile_modes, configuration, pilot_header, pilot_stage}
use wendougee_data_ha.State
use wendougee_data_ha.State.{is_idle}
use wendougee_data_ha.Link.{Transport, M, pure, check, ◌>>=◌, transact}
use wendougee_data_ha.Press.{read_state, require_idle, read_profile_bank, registers}
use wendougee_data_ha.Control.Boiler.{require_water}
use wendougee_data_ha.Control.Profile.{pilot_header_words, pilot_stage_words, validate_pilot}

-- the snapshot that the backup stores
pub record Backup : Type 0 where
  pub active : List ℕ
  pub bound : List ℕ
  pub configuration : List ℕ
  pub modes : List ℕ

-- What was read before the backup: both banks and the two raw frames.
pub record Snapshot : Type 0 where
  pub active : List ℕ
  pub bound : List ℕ
  pub modes : Bytes
  pub config : Bytes

pub record Prepared : Type 0 where
  pub prepared : Bool
  pub started : Bool
  pub write_count : ℕ
  pub bound_bank_unchanged : Bool
  pub configuration_unchanged : Bool
  pub target_ml : ℕ
  pub pressure_bar : ℕ
  pub stage_seconds : ℕ

-- `expected[:7] = header` and `expected[8:14] = stage`
unfoldable pub with_pilot : List ℕ → List ℕ
with_pilot active =
    let headed = pilot_header_words ++ drop 7 active in
    take 8 headed ++ (pilot_stage_words ++ drop 14 headed)

unfoldable pub report : ℕ → Prepared
report writes = record {
  prepared = true;
  started = false;
  write_count = writes;
  bound_bank_unchanged = true;
  configuration_unchanged = true;
  target_ml = 65;
  pressure_bar = 9;
  stage_seconds = 28;
}

abbrev pub changed_before : Error
changed_before = control_rejected "Profile or configuration changed before preparation"

abbrev pub mismatch : Error
mismatch = value_error "Profile preparation full readback mismatch; do not retry"

module _ {W : Type 0} (tr : Transport W) (backup : Backup → M W (Unit {0})) where
  -- the two selectors and the configuration, compared with the snapshot, each read only if
  -- the comparisons before it held
  unfoldable pub compare_frames : Snapshot → M W Bool
  compare_frames s = do
    modes ← transact tr profile_modes
    if not (bytes_eq s.modes modes)
        then pure false
        else (do config ← transact tr configuration; pure (bytes_eq s.config config))

  -- the condition of the check before the writes
  unfoldable pub still_same : Snapshot → M W Bool
  unfolding compare_frames
  still_same s = do
    active ← read_profile_bank tr false
    if not (bytes_eq s.active active) then pure false else (do
      bound ← read_profile_bank tr true
      if not (bytes_eq s.bound bound) then pure false else compare_frames s)

  -- the reads up to the backup
  unfoldable pub take_snapshot : M W Snapshot
  take_snapshot = do
    _ ← require_idle tr
    config ← transact tr configuration
    _ ← require_water tr
    modes ← transact tr profile_modes
    _ ←
        check (bytes_eq (registers modes) (2 ∷ 2 ∷ []))
          (control_rejected "Both profile selectors must already be mode 2")
    active ← read_profile_bank tr false
    bound ← read_profile_bank tr true
    _ ← validate_pilot tr bound
    pure (record { active = active; bound = bound; modes = modes; config = config })

  -- the two writes, the stage before the header, unless the bank is right already
  unfoldable pub write_pilot : List ℕ → M W ℕ
  unfolding with_pilot
  write_pilot active =
      if bytes_eq (with_pilot active) active
      then pure 0
      else (do _ ← transact tr pilot_stage; _ ← transact tr pilot_header; pure 2)

  -- the full readback after the writes
  unfoldable pub read_back : Snapshot → M W Bool
  unfolding compare_frames
  read_back s = do
    after ← read_profile_bank tr false
    unchanged ← read_profile_bank tr true
    if not (bytes_eq after (with_pilot s.active) && bytes_eq unchanged s.bound)
        then pure false
        else compare_frames s

  unfoldable pub prepare_pilot_profile : M W Prepared
  unfolding still_same take_snapshot write_pilot read_back report
  prepare_pilot_profile = do
    s ← take_snapshot
    _ ← backup (record {
      active = s.active;
      bound = s.bound;
      configuration = registers s.config;
      modes = 2 ∷ 2 ∷ [];
    })
    same ← still_same s
    _ ← check same changed_before
    _ ← require_idle tr
    writes ← write_pilot s.active
    verified ← read_back s
    _ ← check verified mismatch
    final ← read_state tr
    _ ← check (is_idle (State.state final)) (value_error "Machine left idle during preparation")
    pure (report writes)
