-- ===== src/Flow/Tests.antt =====
-- The theorems on Flow commands, on small commands.
use Prim.Native.String.{String}
use ferricstore_python.Base.{
  append_assoc, append_nil, ℕ, suc, ◌+◌, ◌≡◌, ◌↔◌, refl, ap, true, false, Option, none, some, List,
  [], ◌∷◌, ◌++◌, ◌<◌,
}
use ferricstore_python.Codec.Value.{ℤ, pos, Value, text, binary, integer, str_encode, utf8_point}
use ferricstore_python.Commands.Retry.{codes}
use ferricstore_python.Commands.Keys.{member, command_route_keys, normalize_command_name}
use ferricstore_python.Flow.Options.{
  suffix_is_valid, token, option_width, one_of, items_tokens, find_bytes_token, byte_upper,
}
use ferricstore_python.Flow.Grammar.{skip, Valid, done, behind, rule, values}
use ferricstore_python.Flow.Recognition.{suffix_is_valid-Valid}
use ferricstore_python.Flow.Widths.{option_width-Valid}
use ferricstore_python.Flow.Arguments.{consume_counted_arguments, stream_keys}
use ferricstore_python.Flow.Segments.{Outcome, consume_counted_arguments-Outcome}
use ferricstore_python.Flow.Hashing.{
  auto_bucket, decimal, auto_partition_prefix, flow_logical_partition_routing_key,
  flow_auto_id_routing_key,
}
use ferricstore_python.Flow.Pieces.{routing_keys-text}
use ferricstore_python.Flow.Buckets.{auto_bucket_iff}
use ferricstore_python.Flow.Routing.{flow_command_route_keys}
use ferricstore_python.Flow.Physical.{KeysArePhysical}
use ferricstore_python.Flow.Routes.{flow_command_route_keys-ArePhysical}
use ferricstore_python.Flow.Streams.{
  Reader, in_group, no_ack, command_of, behind_reader, read_args, command_route_keys-stream_keys,
}

abbrev no_text : Value → String
no_text v = "XREAD"

abbrev itself : String → String
itself s = s

abbrev no_number : Value → Option ℤ
no_number v = none

abbrev count_option : List Value
count_option = binary (codes "count") ∷ integer (pos 5) ∷ []

suffix_is_valid-Valid_example : (suffix_is_valid no_text itself no_number count_option 0 ≡ true) ↔ (
    (rest : List Value) × (skip 0 count_option ≡ some rest) × Valid no_text itself no_number rest)
suffix_is_valid-Valid_example = suffix_is_valid-Valid no_text itself no_number count_option 0

count_token : token no_text itself no_number (binary (codes "count")) ≡ some "COUNT"
unfolding token find_bytes_token byte_upper
count_token = refl

count_rule : rule (some "COUNT") ≡ values 1
unfolding member
count_rule = refl

count_option-Valid : Valid no_text itself no_number count_option
count_option-Valid = behind 1 (rw (count_token, count_rule) refl) refl done

count_no_items :
    one_of (token no_text itself no_number (binary (codes "count"))) items_tokens ≡ false
unfolding member
count_no_items = ap (λ t. one_of t items_tokens) count_token

option_width-Valid_example :
    (w : ℕ) × (rest : List Value) × (option_width no_text itself no_number
        (token no_text itself no_number (binary (codes "count")))
        (integer (pos 5) ∷ [])
      ≡ some (suc w))
    × (skip w (integer (pos 5) ∷ []) ≡ some rest)
    × Valid no_text itself no_number rest
option_width-Valid_example =
    option_width-Valid no_text itself no_number (binary (codes "count")) (integer (pos 5) ∷ [])
      count_option-Valid count_no_items

consume_counted_arguments-Outcome_example :
    Outcome
      (integer (pos 3) ∷ count_option)
      0
      1
      (consume_counted_arguments (integer (pos 3) ∷ count_option) 0 1)
consume_counted_arguments-Outcome_example =
    consume_counted_arguments-Outcome (integer (pos 3) ∷ count_option) 0 1

auto_bucket_iff_example :
    (auto_bucket (codes "__flow_auto__:17") ≡ some 17)
    ↔ ((17 < 256) × (codes "__flow_auto__:17" ≡ auto_partition_prefix ++ decimal 17))
auto_bucket_iff_example = auto_bucket_iff (codes "__flow_auto__:17") 17

-- A hash that keeps all it is given, and a sum in place of a CRC.
abbrev keep : List ℕ → List ℕ → List ℕ
keep state piece = state ++ piece

abbrev total : List ℕ → ℕ → ℕ
total [] n = n
total (b ∷ bs) n = total bs (n + b)

abbrev all_of : List ℕ → List ℕ
all_of state = state

total-append : (n : ℕ) (xs ys : List ℕ) → total ys (total xs n) ≡ total (xs ++ ys) n
total-append n [] ys = refl
total-append n (x ∷ xs) ys = total-append (n + x) xs ys

queue_encoded : str_encode (codes "queue") ≡ some (codes "queue")
unfolding str_encode utf8_point
queue_encoded = refl

routing_keys-text_example :
    (flow_logical_partition_routing_key total [] keep all_of (text (codes "queue"))
      ≡ flow_logical_partition_routing_key total [] keep all_of (binary (codes "queue")))
    × (flow_auto_id_routing_key total [] keep all_of (text (codes "queue"))
        ≡ flow_auto_id_routing_key total [] keep all_of (binary (codes "queue")))
routing_keys-text_example =
    routing_keys-text total [] keep all_of (append_assoc, append_nil) (total-append, λ n. refl)
      (codes "queue") (codes "queue") queue_encoded

abbrev no_options : Value → Option (Option Value)
no_options v = none

flow_command_route_keys-ArePhysical_example : KeysArePhysical total [] keep all_of (
    flow_command_route_keys no_text itself no_number total [] keep all_of no_options "FLOW.GET"
      (text (codes "queue") ∷ []))
flow_command_route_keys-ArePhysical_example =
    flow_command_route_keys-ArePhysical no_text itself no_number total [] keep all_of no_options
      "FLOW.GET" (text (codes "queue") ∷ []) refl refl

abbrev no_keys : String → List Value → List Value
no_keys name args = []

-- The name of the command is in bytes, GROUP a number, NOACK the empty text and STREAMS any other.
abbrev spelled : Value → String
spelled (text []) = "NOACK"
spelled (text (c ∷ cs)) = "STREAMS"
spelled (integer z) = "GROUP"
spelled _ = "XREADGROUP"

abbrev reader : Reader
reader = in_group (integer (pos 0)) (text []) (text [])

reader_name :
    normalize_command_name spelled itself no_number (binary (codes "xreadgroup"))
    ≡ command_of reader
unfolding normalize_command_name
reader_name = refl

command_route_keys-stream_keys_example :
    command_route_keys spelled itself no_number no_keys
      (stream_keys spelled itself no_number)
      (binary (codes "xreadgroup"))
      (behind_reader reader (
        read_args (no_ack (text []) ∷ []) (text (codes "STREAMS")) (
          (binary (codes "s"), binary (codes "0"))
          ∷ (binary (codes "t"), binary (codes "1"))
          ∷ [])))
    ≡ binary (codes "s") ∷ binary (codes "t") ∷ []
command_route_keys-stream_keys_example =
    command_route_keys-stream_keys spelled itself no_number no_keys (binary (codes "xreadgroup"))
      reader (no_ack (text []) ∷ []) (text (codes "STREAMS")) (binary (codes "s"))
      (binary (codes "0")) ((binary (codes "t"), binary (codes "1")) ∷ []) reader_name refl
      (refl, tt) refl
