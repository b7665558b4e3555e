-- ===== src/Command.antt =====
-- `Command` and `command_request` of src/wendougee_data/control_session.py: the finite set of
-- requests that a control session can send.
use wendougee_data_ha.Base.{ℕ, ◌*◌, List, [], ◌∷◌, ◌++◌, Option, none, some, if◌then◌else◌, length}
use wendougee_data_ha.Base.Bytes.{Bytes, to_big, from_words, bytes_eq}
use wendougee_data_ha.Crc.{append_crc}

pub data Command : Type 0 where
  configuration telemetry state profile_mode profile_modes : Command
  active_head active_tail bound_head bound_tail : Command
  active_chunk_0 active_chunk_1 active_chunk_2 active_chunk_3 active_chunk_4 : Command
  active_chunk_5 active_chunk_6 active_chunk_7 active_chunk_8 active_chunk_9 : Command
  active_chunk_10 : Command
  bound_chunk_0 bound_chunk_1 bound_chunk_2 bound_chunk_3 bound_chunk_4 : Command
  bound_chunk_5 bound_chunk_6 bound_chunk_7 bound_chunk_8 bound_chunk_9 : Command
  bound_chunk_10 : Command
  pilot_header pilot_stage : Command
  steam_on steam_off brew_on brew_off : Command
  profile_press profile_release cleaning_press cleaning_release : Command

-- the third part of a command's value: a count or a single value, or the words to write
pub data Operand : Type 0 where
  number : ℕ → Operand
  tuple : List ℕ → Operand

pub record Value : Type 0 where
  pub function : ℕ
  pub address : ℕ
  pub operand : Operand

abbrev single : ℕ → ℕ → ℕ → Value
single f a v = record { function = f; address = a; operand = number v }

unfoldable pub value : Command → Value
value configuration = single 3 0 37
value telemetry = single 3 1404 22
value state = single 1 182 24
value profile_mode = single 3 87 1
value profile_modes = single 3 87 2
value active_head = single 3 2048 125
value active_tail = single 3 2173 42
value bound_head = single 3 2560 125
value bound_tail = single 3 2685 42
value active_chunk_0 = single 3 2048 16
value active_chunk_1 = single 3 2064 16
value active_chunk_2 = single 3 2080 16
value active_chunk_3 = single 3 2096 16
value active_chunk_4 = single 3 2112 16
value active_chunk_5 = single 3 2128 16
value active_chunk_6 = single 3 2144 16
value active_chunk_7 = single 3 2160 16
value active_chunk_8 = single 3 2176 16
value active_chunk_9 = single 3 2192 16
value active_chunk_10 = single 3 2208 7
value bound_chunk_0 = single 3 2560 16
value bound_chunk_1 = single 3 2576 16
value bound_chunk_2 = single 3 2592 16
value bound_chunk_3 = single 3 2608 16
value bound_chunk_4 = single 3 2624 16
value bound_chunk_5 = single 3 2640 16
value bound_chunk_6 = single 3 2656 16
value bound_chunk_7 = single 3 2672 16
value bound_chunk_8 = single 3 2688 16
value bound_chunk_9 = single 3 2704 16
value bound_chunk_10 = single 3 2720 7
value pilot_header = record {
  function = 16;
  address = 2048;
  operand = tuple (1 ∷ 1 ∷ 1 ∷ 1 ∷ 65 ∷ 0 ∷ 0 ∷ []);
}
value pilot_stage = record {
  function = 16;
  address = 2056;
  operand = tuple (28 ∷ 90 ∷ 0 ∷ 0 ∷ 1 ∷ 0 ∷ []);
}
value steam_on = single 6 6 0
value steam_off = single 6 6 1
value brew_on = single 6 7 0
value brew_off = single 6 7 1
value profile_press = single 5 150 0xFF00
value profile_release = single 5 150 0
value cleaning_press = single 5 155 0xFF00
value cleaning_release = single 5 155 0

abbrev pub active_chunks : List Command
active_chunks =
    active_chunk_0 ∷ active_chunk_1 ∷ active_chunk_2 ∷ active_chunk_3 ∷ active_chunk_4
    ∷ active_chunk_5 ∷ active_chunk_6 ∷ active_chunk_7 ∷ active_chunk_8 ∷ active_chunk_9
    ∷ active_chunk_10 ∷ []

abbrev pub bound_chunks : List Command
bound_chunks =
    bound_chunk_0 ∷ bound_chunk_1 ∷ bound_chunk_2 ∷ bound_chunk_3 ∷ bound_chunk_4 ∷ bound_chunk_5
    ∷ bound_chunk_6 ∷ bound_chunk_7 ∷ bound_chunk_8 ∷ bound_chunk_9 ∷ bound_chunk_10 ∷ []

-- `PROFILE_CHUNK_COMMANDS`, in the order of the enumeration
abbrev pub profile_chunk_commands : List Command
profile_chunk_commands = active_chunks ++ bound_chunks

-- every member, in the order of the enumeration
abbrev pub commands : List Command
commands =
    configuration
    ∷ telemetry
    ∷ state
    ∷ profile_mode
    ∷ profile_modes
    ∷ active_head
    ∷ active_tail
    ∷ bound_head
    ∷ bound_tail
    ∷ (profile_chunk_commands
        ++ (pilot_header ∷ pilot_stage ∷ steam_on ∷ steam_off ∷ brew_on ∷ brew_off ∷ profile_press
            ∷ profile_release ∷ cleaning_press ∷ cleaning_release ∷ []))

unfoldable pub operand_bytes : Operand → Bytes
operand_bytes (number v) = to_big v
operand_bytes (tuple ws) = to_big (length ws) ++ ((2 * length ws) ∷ from_words ws)

-- Function 16 is the one whose value is a tuple.
unfoldable pub command_request : Command → Bytes
unfolding value operand_bytes from_words
command_request c =
    append_crc (
      ((1 ∷ (value c).function ∷ []) ++ to_big (value c).address)
      ++ operand_bytes (value c).operand)

-- `next(c for c in Command if command_request(c) == request)`
unfoldable pub find_command : List Command → Bytes → Option Command
find_command [] request = none
find_command (c ∷ cs) request =
    if bytes_eq (command_request c) request then some c else find_command cs request
