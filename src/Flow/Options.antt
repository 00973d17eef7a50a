-- ===== src/Flow/Options.antt =====
-- `flow_options.py`: the grammar of Flow options, as `FlowOptionPlan` analyses it.
-- `as_text` is `str` and `upper` is `str.upper`; `to_int` is `int`, `none` where it raises. The array
-- `valid` from an index on is the list of tests of the suffixes from there, which the loop of the source
-- fills from its end; an index into the arguments is the suffix that starts there.
use Prim.Native.String.{String}
use package.text.Mathlib.Text as Text
use ferricstore_python.Base.{
  ℕ, zero, suc, ◌+◌, ◌-◌, Bool, true, false, ◌&&◌, ◌||◌, not, Option, none, some, List, [], ◌∷◌,
  ◌++◌, map, length, ltb, leb, if◌then◌else◌,
}
use ferricstore_python.Codec.Value.{ℤ, pos, negsuc, Value, boolean, text, binary, bytes_eq}
use ferricstore_python.Commands.Keys.{string_eq, member}
use ferricstore_python.Commands.Retry.{codes}
use ferricstore_python.Flow.Tables.{
  flow_option_field_names, flow_three_value_options, other_option_tokens,
}

abbrev pub names : List (String × String) → List String
names [] = []
names ((token, field) ∷ rest) = token ∷ names rest

-- `FLOW_OPTION_TOKENS`
abbrev pub flow_option_tokens : List String
flow_option_tokens = names flow_option_field_names ++ other_option_tokens

-- `_MAX_FLOW_OPTION_TOKEN_BYTES`, the length of HALF_OPEN_SUCCESS_THRESHOLD.
abbrev pub max_flow_option_token_bytes : ℕ
max_flow_option_token_bytes = 27

-- `bytes.upper`, which changes ASCII letters only.
unfoldable pub byte_upper : ℕ → ℕ
byte_upper b = if leb b'a' b && leb b b'z' then b - 32 else b

unfoldable pub find_bytes_token : List ℕ → List String → Option String
find_bytes_token bs [] = none
find_bytes_token bs (t ∷ ts) = if bytes_eq bs (codes t) then some t else find_bytes_token bs ts

abbrev pub is : Option String → String → Bool
is none name = false
is (some token) name = Text.◌==◌ token name

abbrev pub one_of : Option String → List String → Bool
one_of none tokens = false
one_of (some token) tokens = member token tokens

-- `_suffix`
unfoldable pub suffix : List Bool → ℕ → Bool
suffix [] i = false
suffix (b ∷ bs) zero = b
suffix (b ∷ bs) (suc i) = suffix bs i

abbrev pub items_tokens : List String
items_tokens = "ITEMS" ∷ "ITEMS_EXT" ∷ "ITEMS_EXT_V2" ∷ []

abbrev pub is_text : Value → Bool
is_text (text cs) = true
is_text _ = false

module _ (as_text : Value → String) (upper : String → String) (to_int : Value → Option ℤ) where
  unfoldable pub token : Value → Option String
  unfolding byte_upper find_bytes_token member
  token (binary bs) =
      if ltb max_flow_option_token_bytes (length bs)
      then none
      else find_bytes_token (map byte_upper bs) flow_option_tokens
  token (text cs) =
      if ltb max_flow_option_token_bytes (length cs)
      then none
      else if member (upper (as_text (text cs))) flow_option_tokens
      then some (upper (as_text (text cs)))
      else none
  token _ = none

  abbrev pub natural : Option ℤ → Option ℕ
  natural none = none
  natural (some (pos n)) = some n
  natural (some (negsuc n)) = none

  -- `_non_negative_int` of an argument that may not be there. `to_int` is none where `int` raises TypeError or
  -- ValueError; an infinite float, at which it raises OverflowError that the source lets through, is not
  -- among the arguments.
  unfoldable pub non_negative_int : List Value → Option ℕ
  non_negative_int [] = none
  non_negative_int (boolean b ∷ vs) = none
  non_negative_int (v ∷ vs) = natural (to_int v)

  abbrev pub is_option : Value → Bool
  is_option v = one_of (token v) flow_option_tokens

  -- PAYLOAD before the arguments `vs`, whose tests are `rest`.
  unfoldable pub payload_valid : List Value → List Bool → Bool
  unfolding token suffix
  payload_valid [] rest = true
  payload_valid (next ∷ vs) rest =
      if is_text next && is_option next
      then suffix rest 0
      else if is_option next
      then suffix rest 0 || suffix rest 1
      else suffix rest 1

  abbrev pub partitions_valid : Option ℕ → List Bool → Bool
  partitions_valid none rest = false
  partitions_valid (some count) rest = suffix rest (suc count)

  -- The test of one suffix, from those of the shorter ones.
  unfoldable pub entry : Option String → List Value → List Bool → Bool
  unfolding payload_valid non_negative_int suffix member
  entry t vs rest =
      if one_of t items_tokens
      then true
      else if not (one_of t flow_option_tokens)
      then false
      else if is t "NOPAYLOAD"
      then suffix rest 0
      else if is t "PAYLOAD"
      then payload_valid vs rest
      else if is t "PARTITIONS"
      then partitions_valid (non_negative_int vs) rest
      else if one_of t flow_three_value_options
      then suffix rest 2
      else suffix rest 1

  -- `FlowOptionPlan.__init__`
  unfoldable pub valid : List Value → List Bool
  unfolding entry token
  valid [] = true ∷ []
  valid (v ∷ vs) = entry (token v) vs (valid vs) ∷ valid vs

  unfoldable pub suffix_is_valid : List Value → ℕ → Bool
  unfolding valid suffix
  suffix_is_valid args start = suffix (valid args) start

  -- `payload_is_flag`, of PAYLOAD before the arguments `vs`.
  unfoldable pub payload_is_flag : List Value → Bool
  unfolding suffix_is_valid token
  payload_is_flag [] = true
  payload_is_flag (next ∷ vs) =
      if not (is_option next)
      then false
      else if is_text next
      then true
      else suffix_is_valid (next ∷ vs) 0 && not (suffix_is_valid (next ∷ vs) 1)

  abbrev pub partitions_width : Option ℕ → Option ℕ
  partitions_width none = none
  partitions_width (some count) = some (2 + count)

  -- `option_width`, of the token `t` before the arguments `vs`.
  unfoldable pub option_width : Option String → List Value → Option ℕ
  unfolding payload_is_flag non_negative_int member
  option_width t vs =
      if not (one_of t flow_option_tokens) || (is t "ITEMS" || is t "ITEMS_EXT")
      then none
      else if is t "NOPAYLOAD" || (is t "PAYLOAD" && payload_is_flag vs)
      then some 1
      else if is t "PARTITIONS"
      then partitions_width (non_negative_int vs)
      else if one_of t flow_three_value_options
      then some 3
      else some 2
