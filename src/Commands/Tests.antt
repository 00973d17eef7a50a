-- ===== src/Commands/Tests.antt =====
-- The theorems on commands, on ZUNIONSTORE and on a pipeline in a pipeline.
use Prim.Native.String.{String}
use ferricstore_python.Base.{ℕ, ◌≡◌, ◌↔◌, Bool, false, Option, none, some, List, [], ◌∷◌}
use ferricstore_python.Codec.Value.{
  ℤ, pos, Value, binary, integer, dict, list, cons, nil, field, end, text_key,
}
use ferricstore_python.Commands.Calls.{Call, destination}
use ferricstore_python.Commands.Retry.{codes, request_may_mutate}
use ferricstore_python.Commands.ReadOnly.{AllRead, flatten, request_may_mutate-AllRead}

abbrev itself : String → String
itself s = s

abbrev no_number : String → Option ℤ
no_number s = none

abbrev no_flow : String → List String → List String
no_flow name args = []

abbrev no_stream : Bool → List String → List String
no_stream group args = []

abbrev two : String → Option ℤ
two s = some (pos 2)

abbrev union : Call String
union = destination "all" "2" ("a" ∷ "b" ∷ []) ("AGGREGATE" ∷ "MAX" ∷ [])

abbrev always_get : List ℕ → String
always_get cs = "GET"

-- A request of one GET inside two pipelines.
abbrev request : ℕ → Value → Value
request op body = dict (
    field (text_key (codes "opcode")) (integer (pos op)) (field (text_key (codes "body")) body end))

abbrev pipeline : Value → Value
pipeline command = dict (field (text_key (codes "commands")) (list (cons command nil)) end)

request_may_mutate-AllRead_example :
    (request_may_mutate always_get
        (pos 14)
        (pipeline (request 14 (pipeline (request 257 (binary [])))))
      ≡ false)
    ↔ AllRead always_get
        (flatten 4 (pos 14) (pipeline (request 14 (pipeline (request 257 (binary []))))))
request_may_mutate-AllRead_example =
    request_may_mutate-AllRead always_get (pos 14)
      (pipeline (request 14 (pipeline (request 257 (binary [])))))
