-- ===== src/ProfileReads.antt =====
-- src/wendougee_data/profile_reads.py: the research-only profile reads.
use wendougee_data_ha.Base.{
  ℕ, zero, suc, ◌+◌, ◌*◌, List, [], ◌∷◌, ◌++◌, Bool, true, false, ◌&&◌, ◌||◌, not, Result, ok, err,
  value_error, ◌>>◌, require, leb, ◌==◌, if◌then◌else◌, length, get_or,
}
use wendougee_data_ha.Base.Bytes.{Bytes}
use wendougee_data_ha.Telemetry.{Tenths}
use wendougee_data_ha.Modbus.{default_slave_address, build_read_holding_registers_request}

abbrev pub banks : List ℕ
banks = 2048 ∷ 2560 ∷ []

-- `[(base + 8 + 9 * stage, 6) for stage in range(…)]`, from a first stage
stage_reads : ℕ → ℕ → ℕ → List (ℕ × ℕ)
stage_reads zero stage base = []
stage_reads (suc n) stage base = (base + 8 + 9 * stage, 6) ∷ stage_reads n (stage + 1) base

unfoldable pub profile_reads : List (ℕ × ℕ)
unfolding stage_reads
profile_reads = (87, 2) ∷ (2048, 7) ∷ (2560, 7) ∷ (stage_reads 18 0 2048 ++ stage_reads 18 0 2560)

unfoldable pub allowed : ℕ → ℕ → List (ℕ × ℕ) → Bool
allowed address count [] = false
allowed address count ((a, c) ∷ rest) =
    ((a == address) && (c == count)) || allowed address count rest

unfoldable pub profile_request : ℕ → ℕ → Result Bytes
unfolding allowed profile_reads
profile_request address count =
    if not (allowed address count profile_reads)
    then err (value_error "Not an allowlisted profile read")
    else build_read_holding_registers_request address count default_slave_address

-- `all(0 <= w <= 65535 for w in words)`
unfoldable pub all_words : List ℕ → Bool
all_words [] = true
all_words (w ∷ ws) = leb w 65535 && all_words ws

unfoldable pub check_words : List ℕ → ℕ → Result (Unit {0})
unfolding all_words
check_words ws count = require ((length ws == count) && all_words ws) "Invalid register words"

pub data FinishKind : Type 0 where
  volume weight : FinishKind

pub record Header : Type 0 where
  pub finish_kind : FinishKind
  pub target_ml : ℕ
  pub target_g : ℕ
  pub mode_flag : ℕ
  pub variable_flow_flag : ℕ
  pub auto_link_flag : ℕ

abbrev pub is_flag : ℕ → Bool
is_flag w = (w == 0) || (w == 1)

unfoldable pub decode_header : List ℕ → Result Header
unfolding check_words
decode_header ws = do
  check_words ws 7
  require
      (is_flag (get_or ws 0 0)
        && (is_flag (get_or ws 1 0)
            && (is_flag (get_or ws 2 0)
                && (is_flag (get_or ws 3 0) && (is_flag (get_or ws 6 0) && (get_or ws 2 0 == 1))))))
      "Unsupported profile header/layout"
  ok (record {
    finish_kind = if get_or ws 0 0 == 0 then weight else volume;
    target_ml = get_or ws 4 0;
    target_g = get_or ws 5 0;
    mode_flag = get_or ws 1 0;
    variable_flow_flag = get_or ws 3 0;
    auto_link_flag = get_or ws 6 0;
  })

pub data Priority : Type 0 where
  flow pressure : Priority

pub record Stage : Type 0 where
  pub time_seconds : ℕ
  pub pressure_bar : Tenths
  pub flow_ml_s : Tenths
  pub wait_seconds : ℕ
  pub last : Bool
  pub priority : Priority

unfoldable pub decode_stage : List ℕ → Result Stage
unfolding check_words
decode_stage ws = do
  check_words ws 6
  require (is_flag (get_or ws 4 0) && is_flag (get_or ws 5 0)) "Unknown stage flags"
  ok (record {
    time_seconds = get_or ws 0 0;
    pressure_bar = get_or ws 1 0;
    flow_ml_s = get_or ws 2 0;
    wait_seconds = get_or ws 3 0;
    last = not (get_or ws 4 0 == 0);
    priority = if get_or ws 5 0 == 0 then pressure else flow;
  })
