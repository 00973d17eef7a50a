-- ===== src/Flow/Arguments.antt =====
-- `command_grammar.py`: counted arguments, the marker of the items and the keys of stream reads.
-- `as_text` is `str`, and the lossy decoding of bytes; `upper` is `str.upper` and `to_int` is `int`, `none`
-- where it raises. An index into the arguments is the suffix that starts there, with the index beside it.
use Prim.Native.String.{String}
use package.text.Mathlib.Text as Text
use ferricstore_python.Base.{
  ℕ, zero, suc, ◌+◌, ◌-◌, ◌*◌, ◌/◌, ◌%◌, Bool, true, false, ◌&&◌, ◌||◌, not, Option, none, some,
  List, [], ◌∷◌, length, take, drop, ltb, ◌==◌, get_elem?, if◌then◌else◌,
}
use ferricstore_python.Codec.Value.{ℤ, pos, Value, integer}
use ferricstore_python.Commands.Keys.{string_eq, member}
use ferricstore_python.Flow.Options.{items_tokens, token, option_width}

-- `CountedArguments`
pub record CountedArguments : Type 0 where
  pub values : List Value
  pub next_index : ℕ
  pub count : ℕ

-- The InvalidCommandError of each guard.
pub data CountError : Type 0 where
  no_count bad_count too_many : CountError

pub data Consumed : Type 0 where
  consumed : CountedArguments → Consumed
  refused : CountError → Consumed

-- `require_nonnegative_count`
unfoldable pub require_nonnegative_count : Value → Option ℕ
require_nonnegative_count (integer (pos n)) = some n
require_nonnegative_count _ = none

abbrev pub consume_count : Option ℕ → List Value → ℕ → ℕ → Consumed
consume_count none args start width = refused bad_count
consume_count (some count) args start width =
    if ltb (length args) (start + count * width)
    then refused too_many
    else consumed (record {
      values = take (count * width) (drop start args);
      next_index = start + count * width;
      count = count;
    })

abbrev pub consume_at : Option Value → List Value → ℕ → ℕ → Consumed
consume_at none args start width = refused no_count
consume_at (some value) args start width =
    consume_count (require_nonnegative_count value) args start width

unfoldable pub consume_counted_arguments : List Value → ℕ → ℕ → Consumed
unfolding require_nonnegative_count
consume_counted_arguments args count_index width =
    consume_at (get_elem? args count_index) args (suc count_index) width

-- `StreamReadGrammar`
pub record StreamReadGrammar : Type 0 where
  pub keys : List Value
  pub block : Option Value
  pub is_valid : Bool

abbrev pub invalid_read : Option Value → StreamReadGrammar
invalid_read block = record { keys = []; block = block; is_valid = false }

-- What STREAMS does with the arguments behind it.
abbrev pub stream_pairs : List Value → Option Value → StreamReadGrammar
stream_pairs remaining block =
    if length remaining == 0 || not (length remaining % 2 == 0)
    then invalid_read block
    else record { keys = take (length remaining / 2) remaining; block = block; is_valid = true }

module _ (as_text : Value → String) (upper : String → String) (to_int : Value → Option ℤ) where
  -- `command_token`
  abbrev pub command_token : Value → String
  command_token value = upper (as_text value)

  abbrev pub max_bytes_tokens : List String
  max_bytes_tokens = "MAX_BYTES" ∷ "MAXBYTES" ∷ []

  abbrev pub is_integer : Value → Bool
  is_integer (integer z) = true
  is_integer _ = false

  -- `split_flow_value_mget`, which looks at the last two arguments.
  unfoldable pub split_flow_value_mget : List Value → List Value × Option Value
  unfolding member
  split_flow_value_mget [] = ([], none)
  split_flow_value_mget (x ∷ []) = (x ∷ [], none)
  split_flow_value_mget (x ∷ y ∷ []) =
      if member (command_token x) max_bytes_tokens && is_integer y
      then ([], some y)
      else (x ∷ y ∷ [], none)
  split_flow_value_mget (x ∷ y ∷ z ∷ rest) =
      let (refs, max_bytes) = split_flow_value_mget (y ∷ z ∷ rest) in (x ∷ refs, max_bytes)

  -- The loop of `find_flow_many_item_marker`, with how many arguments the index has still to pass.
  unfoldable pub find_marker : ℕ → ℕ → List Value → Option (ℕ × String)
  unfolding option_width token member
  find_marker skip index [] = none
  find_marker (suc skip) index (v ∷ vs) = find_marker skip (suc index) vs
  find_marker zero index (v ∷ vs) =
      if member (command_token v) items_tokens
      then some (index, command_token v)
      else elim (option_width as_text upper to_int (token as_text upper to_int v) vs) [
        | none ↦ none
        | some width ↦ elim (ltb (suc (length vs)) width) [
          | true ↦ none
          | false ↦ find_marker (width - 1) (suc index) vs
        ]
      ]

  unfoldable pub find_flow_many_item_marker : List Value → ℕ → Option (ℕ × String)
  unfolding find_marker
  find_flow_many_item_marker args start = find_marker start 0 args

  -- The count of the items behind a marker: the given one, or what their width divides.
  abbrev pub items_behind : List Value → ℕ → Option (ℕ × String) → Option ℕ
  items_behind values width none = none
  items_behind values width (some (index, marker)) =
      if Text.◌==◌ marker "ITEMS_EXT" || Text.◌==◌ marker "ITEMS_EXT_V2"
      then elim (get_elem? values (suc index)) [
        | none ↦ none
        | some count ↦ require_nonnegative_count count
      ]
      else if (length values - index - 1) % width == 0
      then some ((length values - index - 1) / width)
      else none

  unfoldable pub flow_create_many_item_count : List Value → Option ℕ
  unfolding find_flow_many_item_marker require_nonnegative_count
  flow_create_many_item_count [] = none
  flow_create_many_item_count (first ∷ rest) =
      items_behind (first ∷ rest) (if Text.◌==◌ (command_token first) "MIXED" then 3 else 2)
        (find_flow_many_item_marker (first ∷ rest) 1)

  -- The loop of `parse_stream_read`.
  unfoldable pub stream_options : List Value → Option Value → StreamReadGrammar
  stream_options [] block = invalid_read block
  stream_options (v ∷ []) block =
      if Text.◌==◌ (command_token v) "STREAMS" then stream_pairs [] block else invalid_read block
  stream_options (v ∷ x ∷ rest) block =
      let next = stream_options (x ∷ rest) block in
      let behind_block = stream_options rest (some x) in
      let behind_count = stream_options rest block in
      if Text.◌==◌ (command_token v) "STREAMS"
      then stream_pairs (x ∷ rest) block
      else if Text.◌==◌ (command_token v) "NOACK"
      then next
      else if Text.◌==◌ (command_token v) "BLOCK"
      then behind_block
      else if Text.◌==◌ (command_token v) "COUNT"
      then behind_count
      else invalid_read block

  unfoldable pub parse_stream_read : List Value → Bool → StreamReadGrammar
  unfolding stream_options
  parse_stream_read values false = stream_options values none
  parse_stream_read (group ∷ name ∷ consumer ∷ rest) true =
      if Text.◌==◌ (command_token group) "GROUP"
      then stream_options rest none
      else invalid_read none
  parse_stream_read values true = invalid_read none

  -- `_stream_keys` of `command_core.py`
  abbrev pub stream_keys : Bool → List Value → List Value
  stream_keys read_group args =
      if (parse_stream_read args read_group).is_valid
      then (parse_stream_read args read_group).keys
      else []
