-- ===== src/Commands/Retry.antt =====
-- `protocol_retry.py`: whether a request that may have been sent can have changed anything.
-- A payload is a wire value: a mapping is `dict`, bytes are `binary`, and None is `null`. `fold` stands for
-- `str.strip().upper()`. A pipeline at depth d is read with the 4 - d levels that are left.
use Prim.Native.String.{String}
use Prim.Native.Char.{code}
use ferricstore_python.Base.{
  ℕ, zero, suc, Bool, true, false, ◌&&◌, not, Option, none, some, List, [], ◌∷◌, ◌==◌, leb,
  if◌then◌else◌,
}
use ferricstore_python.Codec.Value.{
  ℤ, pos, negsuc, Value, null, integer, text, binary, list, tuple, dict, Items, nil, cons, Fields,
  end, field, text_key, bytes_key, bytes_eq,
}
use ferricstore_python.Commands.Tables.{non_mutating_commands, opcodes}
use ferricstore_python.Commands.Keys.{string_eq, member}

-- The code points of a name, which are its bytes.
abbrev pub codes : String → List ℕ
codes String.[] = []
codes (String.◌∷◌ c s) = code c ∷ codes s

abbrev pub op_pipeline : ℕ
op_pipeline = 14

abbrev pub op_command_exec : ℕ
op_command_exec = 256

abbrev pub is_opcode : ℤ → ℕ → Bool
is_opcode (pos n) op = n == op
is_opcode (negsuc n) op = false

-- `_NON_MUTATING_OPCODES`: the opcodes of the commands that do not mutate.
unfoldable pub opcode_in : ℤ → List (String × ℕ) → Bool
unfolding member
opcode_in op [] = false
opcode_in op ((name, n) ∷ rest) =
    if is_opcode op n && member name non_mutating_commands then true else opcode_in op rest

unfoldable pub find_text : List ℕ → Fields → Option Value
find_text name end = none
find_text name (field (text_key cs) v fs) = if bytes_eq cs name then some v else find_text name fs
find_text name (field k v fs) = find_text name fs

unfoldable pub find_bytes : List ℕ → Fields → Option Value
find_bytes name end = none
find_bytes name (field (bytes_key bs) v fs) =
    if bytes_eq bs name then some v else find_bytes name fs
find_bytes name (field k v fs) = find_bytes name fs

-- `_mapping_value`: the field under its text, else under its bytes, else None.
unfoldable pub mapping_value : Fields → List ℕ → Value
unfolding find_text find_bytes
mapping_value fs name = elim (find_text name fs) [
  | some v ↦ v
  | none ↦ elim (find_bytes name fs) [ some v ↦ v | none ↦ null ]
]

unfoldable pub is_ascii : List ℕ → Bool
is_ascii [] = true
is_ascii (b ∷ bs) = leb b 0x7f && is_ascii bs

-- `commands`, where it is a list or a tuple.
abbrev pub commands_in : Value → Option Items
commands_in (list vs) = some vs
commands_in (tuple vs) = some vs
commands_in _ = none

-- A mapping or bytes.
abbrev pub is_body : Value → Bool
is_body (dict fs) = true
is_body (binary bs) = true
is_body _ = false

-- The opcode and the body of a pipelined command, where it has both.
abbrev pub opcode_body : Value → Value → Option (ℤ × Value)
opcode_body (integer op) body = if is_body body then some (op, body) else none
opcode_body _ body = none

unfoldable pub nested : Value → Option (ℤ × Value)
unfolding mapping_value
nested (dict fs) = opcode_body (mapping_value fs (codes "opcode")) (mapping_value fs (codes "body"))
nested _ = none

-- The loop over the commands of a pipeline; `next` reads one command a level further down.
unfoldable pub any_mutates : (ℤ → Value → Bool) → Items → Bool
unfolding nested
any_mutates next nil = false
any_mutates next (cons c cs) = elim (nested c) [
  | none ↦ true
  | some request ↦ if next request.0 request.1 then true else any_mutates next cs
]

abbrev pub pipeline_commands : Value → Option Items
pipeline_commands (dict fs) = commands_in (mapping_value fs (codes "commands"))
pipeline_commands _ = none

abbrev pub nonempty_mutates : (ℤ → Value → Bool) → Option Items → Bool
nonempty_mutates next none = true
nonempty_mutates next (some nil) = true
nonempty_mutates next (some (cons c cs)) = any_mutates next (cons c cs)

module _ (fold : List ℕ → String) where
  -- The branch for COMMAND_EXEC, `none` where the test goes on behind it.
  unfoldable pub raw_command : Value → Option Bool
  unfolding is_ascii member
  raw_command (text cs) = some (not (member (fold cs) non_mutating_commands))
  raw_command (binary bs) =
      if is_ascii bs then some (not (member (fold bs) non_mutating_commands)) else some true
  raw_command _ = none

  unfoldable pub command_exec : ℤ → Value → Option Bool
  unfolding raw_command mapping_value
  command_exec op (dict fs) =
      if is_opcode op op_command_exec
      then raw_command (mapping_value fs (codes "command"))
      else none
  command_exec op _ = none

  -- The answer for a command that is no pipeline.
  unfoldable pub command_mutates : ℤ → Value → Bool
  unfolding command_exec opcode_in
  command_mutates op payload = elim (command_exec op payload) [
    | some answer ↦ answer
    | none ↦ not (opcode_in op opcodes)
  ]

  unfoldable pub may_mutate : ℕ → ℤ → Value → Bool
  unfolding command_mutates any_mutates mapping_value
  may_mutate zero op payload = if is_opcode op op_pipeline then true else command_mutates op payload
  may_mutate (suc levels) op payload =
      if is_opcode op op_pipeline
      then nonempty_mutates (may_mutate levels) (pipeline_commands payload)
      else command_mutates op payload

  unfoldable pub request_may_mutate : ℤ → Value → Bool
  unfolding may_mutate
  request_may_mutate op payload = may_mutate 4 op payload
