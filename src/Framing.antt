-- ===== src/Framing.antt =====
-- `protocol_framing.py`: the writes of a frame, and the assembly of responses from interleaved chunks.
pub mod Isolation
pub mod Reassembly
pub mod Histories
mod Tests
use ferricstore_python.Base.{
  ℕ, zero, suc, ◌+◌, ◌-◌, Bool, true, false, ◌&&◌, Option, none, some, List, [], ◌∷◌, ◌++◌, length,
  ltb, ◌==◌, bit_and, bit_or, if◌then◌else◌, ◌≡◌, ◌↔◌, ◌*◌, arith,
}
use ferricstore_python.Base.Exec.{Outcome, ok, err, Exec}
use ferricstore_python.Base.Assoc.{Eq, lookup, insert, erase}

-- The fields that identify a response; `may_mutate` takes no part in comparisons.
pub record Identity : Type 0 where
  pub lane_id : ℕ
  pub opcode : ℕ
  pub request_id : ℕ

abbrev pub same_identity : Identity → Identity → Bool
same_identity a b = a.lane_id == b.lane_id && (a.opcode == b.opcode && a.request_id == b.request_id)

pub same_identity_iff : (a b : Identity) → (same_identity a b ≡ true) ↔ (a ≡ b)
same_identity_iff a b = ground arith

instance abbrev pub identity_eq : Eq Identity
identity_eq = record { beq = same_identity; beq_iff = same_identity_iff }

pub data Error : Type 0 where
  identity_mismatch too_many_chunks too_many_bytes limits_pending : Error

unfoldable pub validate_response_identity : Identity → Identity → Option Error
validate_response_identity expected actual =
    if same_identity actual expected then none else some identity_mismatch

abbrev pub frame_body_split_bytes : ℕ
frame_body_split_bytes = 64 * 1024

-- The chunks handed to the socket, in order.
unfoldable pub frame_parts : List ℕ → List ℕ → List (List ℕ)
frame_parts header body =
    if length body == 0
    then header ∷ []
    else if ltb (length body) frame_body_split_bytes
    then (header ++ body) ∷ []
    else header ∷ body ∷ []

-- `_first` until a second chunk comes, the stream from then on.
pub record Accumulator : Type 0 where
  pub first : List ℕ
  pub stream : Option (List ℕ)

unfoldable pub accumulator : List ℕ → Accumulator
accumulator first = record { first = first; stream = none }

unfoldable pub append_chunk : List ℕ → Accumulator → Accumulator
append_chunk chunk a = elim a.stream [
  | none ↦ record { first = []; stream = some (a.first ++ chunk) }
  | some s ↦ record a { stream = some (s ++ chunk) }
]

unfoldable pub finish : Accumulator → List ℕ
finish a = elim a.stream [ none ↦ a.first | some s ↦ s ]

pub record FrameBudget : Type 0 where
  pub max_body_bytes : Option ℕ
  pub max_chunks : Option ℕ
  pub body_bytes : ℕ
  pub chunks : ℕ

abbrev pub over : Option ℕ → ℕ → Bool
over none n = false
over (some m) n = ltb m n

-- The error beside the budget as it is left: the chunk is counted before the test that fails.
unfoldable pub add_chunk : ℕ → FrameBudget → Option Error × FrameBudget
add_chunk n b =
    let counted = record b { chunks = b.chunks + 1 } in
    let sized = record b { chunks = b.chunks + 1; body_bytes = b.body_bytes + n } in
    if over b.max_chunks (b.chunks + 1)
    then (some too_many_chunks, counted)
    else if over b.max_body_bytes (b.body_bytes + n)
    then (some too_many_bytes, sized)
    else (none, sized)

pub record Frame : Type 0 where
  pub identity : Identity
  pub flags : ℕ
  pub body : List ℕ
  pub read_started_ns : ℕ

pub record Pending : Type 0 where
  pub acc : Accumulator
  pub budget : FrameBudget
  pub flags : ℕ
  pub read_started_ns : ℕ

pub record Assembler : Type 0 where
  pub max_body_bytes : Option ℕ
  pub max_chunks : Option ℕ
  pub pending : List (Identity × Pending)

abbrev pub flag_more_chunks : ℕ
flag_more_chunks = 0x20

abbrev pub has_more : ℕ → Bool
has_more flags = if bit_and flags flag_more_chunks == 0 then false else true

-- `flags & ~_FLAG_MORE_CHUNKS`
abbrev pub logical_flags : ℕ → ℕ
logical_flags flags = flags - bit_and flags flag_more_chunks

unfoldable pub new_budget : Assembler → FrameBudget
new_budget s = record {
  max_body_bytes = s.max_body_bytes;
  max_chunks = s.max_chunks;
  body_bytes = 0;
  chunks = 0;
}

unfoldable pub clear : Assembler → Assembler
clear s = record s { pending = [] }

unfoldable pub reconfigure : Option ℕ → Option ℕ → Exec Error Assembler (Unit {0})
reconfigure max_body max_chunks s = elim s.pending [
  | [] ↦ ok tt (record s { max_body_bytes = max_body; max_chunks = max_chunks })
  | _ ∷ _ ↦ err limits_pending s
]

-- A response in one frame.
unfoldable pub add_single : Frame → Exec Error Assembler (Option Frame)
unfolding add_chunk new_budget
add_single f s = elim (add_chunk (length f.body) (new_budget s)).0 [
  | some e ↦ err e s
  | none ↦ ok (some (record f { flags = logical_flags f.flags })) s
]

-- The first of several frames.
unfoldable pub add_first : Frame → Exec Error Assembler (Option Frame)
unfolding add_chunk new_budget accumulator
add_first f s =
    let counted = add_chunk (length f.body) (new_budget s) in
    let entry : Pending = record {
      acc = accumulator f.body;
      budget = counted.1;
      flags = logical_flags f.flags;
      read_started_ns = f.read_started_ns;
    } in
    elim counted.0 [
      | some e ↦ err e s
      | none ↦ ok none (record s { pending = insert f.identity entry s.pending })
    ]

-- The pending entry after one more chunk.
unfoldable pub extend : Frame → Pending → Pending
unfolding append_chunk add_chunk
extend f p = record p {
  acc = append_chunk f.body p.acc;
  budget = (add_chunk (length f.body) p.budget).1;
  flags = bit_or p.flags (logical_flags f.flags);
}

unfoldable pub assembled : Identity → Pending → Frame
unfolding finish
assembled id p = record {
  identity = id;
  flags = p.flags;
  body = finish p.acc;
  read_started_ns = p.read_started_ns;
}

-- A later frame; an error drops what was pending.
unfoldable pub add_later : Frame → Pending → Exec Error Assembler (Option Frame)
unfolding extend assembled
add_later f p s = elim (add_chunk (length f.body) p.budget).0 [
  | some e ↦ err e (record s { pending = erase f.identity s.pending })
  | none ↦
      if has_more f.flags
      then ok none (record s { pending = insert f.identity (extend f p) s.pending })
      else ok (some (assembled f.identity (extend f p)))
          (record s { pending = erase f.identity s.pending })
]

unfoldable pub add : Frame → Exec Error Assembler (Option Frame)
unfolding add_single add_first add_later
add f s = elim (lookup f.identity s.pending) [
  | some p ↦ add_later f p s
  | none ↦ if has_more f.flags then add_first f s else add_single f s
]
