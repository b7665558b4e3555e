-- ===== src/Tests/Machine.antt =====
-- A machine that answers each request with the next of a list of frames, and one that is silent.
use wendougee_data_ha.Base.{ℕ, List, [], ◌∷◌, ◌++◌, true, false, none, some, map}
use wendougee_data_ha.Base.Bytes.{Bytes, from_words}
use wendougee_data_ha.Crc.{append_crc}
use wendougee_data_ha.Reads.{read_operations, build_read_request}
use wendougee_data_ha.Command.{commands, command_request}
use wendougee_data_ha.Session
use wendougee_data_ha.Session.{Session}
use wendougee_data_ha.Link.{Answer, Transport, Link, received, deadline}

answer : Bytes → List Bytes → Answer × List Bytes
answer request [] = (record { events = []; interrupt = some deadline }, [])
answer request (frame ∷ frames) =
    (record { events = received frame ∷ []; interrupt = none }, frames)

unfoldable pub machine : Transport (List Bytes)
unfolding answer
machine = record {
  allowed = map command_request commands ++ map build_read_request read_operations;
  wire = answer;
  rest = λ n w. (record { events = []; interrupt = none }, w);
  cancelled = λ w. false;
}

abbrev pub opened : Session
opened = record Session.new { active = true; used = true }

-- an open session on the machine with the answers
abbrev pub link : List Bytes → Link (List Bytes)
link frames = record { session = opened; history = []; world = frames }

unfoldable pub configuration_frame : List ℕ → Bytes
unfolding append_crc
configuration_frame ws = append_crc ((1 ∷ 3 ∷ 74 ∷ []) ++ from_words ws)

unfoldable pub state_frame : ℕ → Bytes
unfolding append_crc
state_frame bits = append_crc (1 ∷ 1 ∷ 3 ∷ bits ∷ 0 ∷ 0 ∷ [])

-- the words of a configuration, with the brew word as given
abbrev pub words_with_brew : ℕ → List ℕ
words_with_brew brew =
    (0 ∷ 0 ∷ 0 ∷ 0 ∷ 0 ∷ 0 ∷ 0 ∷ brew ∷ 0 ∷ 0 ∷ [])
    ++ ((0 ∷ 0 ∷ 0 ∷ 0 ∷ 0 ∷ 0 ∷ 0 ∷ 0 ∷ 0 ∷ 0 ∷ [])
        ++ ((0 ∷ 0 ∷ 0 ∷ 0 ∷ 0 ∷ 0 ∷ 0 ∷ 0 ∷ 0 ∷ 0 ∷ []) ++ (0 ∷ 0 ∷ 0 ∷ 0 ∷ 0 ∷ 0 ∷ 0 ∷ [])))
