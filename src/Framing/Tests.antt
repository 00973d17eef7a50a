-- ===== src/Framing/Tests.antt =====
-- The assembler's theorems on two responses whose frames come interleaved.
use ferricstore_python.Base.{ℕ, ◌≡◌, none, some, List, [], ◌∷◌}
use ferricstore_python.Base.Assoc.{lookup}
use ferricstore_python.Framing.{Identity, identity_eq, Frame, Assembler, add}
use ferricstore_python.Framing.Isolation.{Streams, spec_add, Refines, Agrees}
use ferricstore_python.Framing.Reassembly.{add-spec_add}
use ferricstore_python.Framing.Histories.{
  replies, spec_replies, own, replies-spec_replies, replies-own,
}

abbrev left : Identity
left = record { lane_id = 1; opcode = 2; request_id = 3 }

abbrev right : Identity
right = record { lane_id = 1; opcode = 2; request_id = 4 }

-- `more` is 0x20 for a frame that is not the last.
abbrev frame : Identity → ℕ → List ℕ → Frame
frame id more body = record { identity = id; flags = more; body = body; read_started_ns = 7 }

abbrev interleaved : List Frame
interleaved =
    frame left 0x20 (1 ∷ [])
    ∷ frame right 0x20 (9 ∷ [])
    ∷ frame left 0 (2 ∷ [])
    ∷ frame right 0 (8 ∷ [])
    ∷ []

abbrev empty_assembler : Assembler
empty_assembler = record { max_body_bytes = some 10; max_chunks = some 3; pending = [] }

abbrev no_streams : Streams
no_streams = λ j. none

empty-Refines : Refines empty_assembler no_streams
unfolding lookup
empty-Refines = record { at = λ j. tt }

add-spec_add_example :
    Agrees
      (add (frame left 0x20 (1 ∷ [])) empty_assembler)
      (spec_add (some 10) (some 3) (frame left 0x20 (1 ∷ [])) no_streams)
add-spec_add_example = add-spec_add empty-Refines (frame left 0x20 (1 ∷ []))

replies-spec_replies_example :
    replies left interleaved empty_assembler
    ≡ spec_replies (some 10) (some 3) left interleaved no_streams
replies-spec_replies_example =
    replies-spec_replies left interleaved empty_assembler no_streams empty-Refines

replies-own_example :
    replies left interleaved empty_assembler ≡ replies left (own left interleaved) empty_assembler
replies-own_example = replies-own left interleaved empty_assembler no_streams empty-Refines
