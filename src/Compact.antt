-- ===== src/Compact.antt =====
-- `protocol_compact_budget.py`: how many bytes a compact request may take, counted before they are made. Sizes
-- are natural numbers. The policy that a context variable holds is an argument, and the pending limit, which
-- only an error's message shows, is left out.
pub mod Sizes
pub mod Exact
mod Tests
use ferricstore_python.Base.{
  ℕ, zero, suc, ◌+◌, ◌-◌, ◌*◌, Bool, true, false, not, ◌&&◌, Option, none, some, List, [], ◌∷◌,
  length, ltb, leb, if◌then◌else◌,
}
use ferricstore_python.Codec.Value.{Value, text, binary, str_encode}
use ferricstore_python.Codec.Encode.{is_ascii}

-- PendingRequestCapacityError and UnicodeEncodeError.
pub data Error : Type 0 where
  over_capacity no_encoding : Error

pub record Policy : Type 0 where
  pub enabled : Bool
  pub max_payload_bytes : Option ℕ

-- `_HEADER.size`
abbrev pub header_size : ℕ
header_size = 24

pub data Planned : Type 0 where
  planned : Bool → Option ℕ → Planned
  refused : Error → Planned

-- `_compact_payload_budget`; `zlib` tells whether the compression is zlib.
unfoldable pub compact_payload_budget : Option ℕ → Bool → Planned
compact_payload_budget none zlib = planned true none
compact_payload_budget (some n) zlib =
    if zlib
    then planned false none
    else if ltb n header_size
    then refused over_capacity
    else planned true (some (n - header_size))

-- The loop of `_binary_wire_size`.
unfoldable pub measure : List ℕ → ℕ → Option ℕ
measure [] size = some size
measure (c ∷ cs) size =
    let one = measure cs (size + 1) in
    let two = measure cs (size + 2) in
    let three = measure cs (size + 3) in
    let four = measure cs (size + 4) in
    if leb c 0x7f
    then one
    else if leb c 0x7ff
    then two
    else if leb 0xd800 c && leb c 0xdfff
    then none
    else if leb c 0xffff
    then three
    else four

unfoldable pub binary_wire_size : Value → Option ℕ
unfolding measure is_ascii
binary_wire_size (binary bs) = some (4 + length bs)
binary_wire_size (text cs) = if is_ascii cs then some (4 + length cs) else measure cs 4
binary_wire_size _ = none

-- `_CompactPayloadBudget`
pub record Budget : Type 0 where
  pub max_payload_bytes : Option ℕ
  pub size : ℕ

-- The limits that a call counts against: a budget, a limit of its own, or the policy.
pub data Limits : Type 0 where
  budgeted : Budget → Limits
  limited : ℕ → Limits
  by_policy : Policy → Limits

-- What is returned, or raised, and the limits afterwards.
pub data Outcome : Type 0 where
  returns : Option (List ℕ) → Limits → Outcome
  raises : Error → Limits → Outcome

abbrev pub exceeds : ℕ → Option ℕ → Bool
exceeds n none = false
exceeds n (some m) = ltb m n

-- `_CompactPayloadBudget.can_reserve`
unfoldable pub can_reserve : ℕ → Budget → Bool
can_reserve size b = not (exceeds (size + b.size) b.max_payload_bytes)

-- `_CompactPayloadBudget.reserve`
unfoldable pub reserve : ℕ → Budget → Option Budget
reserve size b =
    if exceeds (size + b.size) b.max_payload_bytes
    then none
    else some (record b { size = b.size + size })

-- `_CompactPayloadBudget.__init__`
unfoldable pub budget : Option ℕ → ℕ → Policy → Option Budget
unfolding reserve
budget max_payload_bytes initial_size p = reserve initial_size (record {
  max_payload_bytes = elim max_payload_bytes [ none ↦ p.max_payload_bytes | some m ↦ some m ];
  size = 0;
})

-- Whether a text is encoded before its size is known; `none` where the policy forbids compact requests.
abbrev pub encode_first : ℕ → Limits → Option Bool
encode_first n (budgeted b) = some (can_reserve n b)
encode_first n (limited m) = some (leb n m)
encode_first n (by_policy p) =
    if not p.enabled then none else some (not (exceeds n p.max_payload_bytes))

-- The last part of `_bounded_maybe_bytes`: counting the size, then the bytes.
abbrev pub reserved : Option Budget → Option (List ℕ) → Limits → Outcome
reserved none bs l = raises over_capacity l
reserved (some b) bs l = returns bs (budgeted b)

abbrev pub count_bytes : ℕ → Option (List ℕ) → Limits → Outcome
count_bytes n bs (budgeted b) = reserved (reserve n b) bs (budgeted b)
count_bytes n bs (limited m) =
    if ltb m n then raises over_capacity (limited m) else returns bs (limited m)
count_bytes n bs (by_policy p) =
    if not p.enabled
    then returns none (by_policy p)
    else if exceeds n p.max_payload_bytes
    then raises over_capacity (by_policy p)
    else returns bs (by_policy p)

abbrev pub count_encoded : Option (List ℕ) → Limits → Outcome
count_encoded none l = raises no_encoding l
count_encoded (some bs) l = count_bytes (4 + length bs) (some bs) l

abbrev pub count_measured : Option ℕ → Option (List ℕ) → Limits → Outcome
count_measured none bs l = raises no_encoding l
count_measured (some n) bs l = count_bytes n bs l

abbrev pub text_bytes : Option Bool → List ℕ → Limits → Outcome
text_bytes none cs l = returns none l
text_bytes (some true) cs l = count_encoded (str_encode cs) l
text_bytes (some false) cs l = count_measured (binary_wire_size (text cs)) (str_encode cs) l

unfoldable pub bounded_maybe_bytes : Value → Limits → Outcome
unfolding reserve can_reserve binary_wire_size
bounded_maybe_bytes (binary bs) l = count_bytes (4 + length bs) (some bs) l
bounded_maybe_bytes (text cs) l = text_bytes (encode_first (4 + 4 * length cs) l) cs l
bounded_maybe_bytes _ l = returns none l
