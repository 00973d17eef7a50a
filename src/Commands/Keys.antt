-- ===== src/Commands/Keys.antt =====
-- `command_core.py`: the keys of a command that decide its route. An argument is any Python value;
-- `as_text` is `str` or the lossy decoding of bytes, `upper` is `str.upper` and `to_int` is `int`, `none`
-- where it raises the TypeError or ValueError that `_non_negative_int` expects. The keys of Flow commands
-- and of stream reads come from other modules, as arguments.
use Prim.Native.String.{String}
use text.Mathlib.Text as Text
use text.Mathlib.Text.{starts_with}
use text.Mathlib.TextEquality.{eq_iff}
use ferricstore_python.Base.{
  ℕ, zero, suc, Bool, true, false, ◌&&◌, ◌||◌, Option, none, some, List, [], ◌∷◌, ◌++◌, take, drop,
  get_elem?, if◌then◌else◌,
}
use ferricstore_python.Base.Assoc.{Eq}
use ferricstore_python.Codec.Value.{ℤ, pos, negsuc}
use ferricstore_python.Commands.Tables.{
  control_commands, all_keys_commands, pair_keys_commands, counted_keys_commands,
  destination_counted_keys_commands, two_keys_commands, first_key_commands,
}

instance abbrev pub string_eq : Eq String
string_eq = record { beq = Text.◌==◌; beq_iff = eq_iff }

module _ {K : Type 0} ⦃e : Eq K⦄ where
  unfoldable pub member : K → List K → Bool
  member k [] = false
  member k (j ∷ js) = if e.beq j k then true else member k js

abbrev pub blocking_pops : List String
blocking_pops = "BLPOP" ∷ "BRPOP" ∷ "BZPOPMIN" ∷ "BZPOPMAX" ∷ []

abbrev pub timeout_first_commands : List String
timeout_first_commands = "BLMPOP" ∷ "BZMPOP" ∷ []

abbrev pub stream_reads : List String
stream_reads = "XREAD" ∷ "XREADGROUP" ∷ []

abbrev pub second_argument_commands : List String
second_argument_commands = "OBJECT" ∷ "XGROUP" ∷ "XINFO" ∷ []

module _ {A : Type 0} where
  -- `values[0::2]`
  unfoldable pub evens : List A → List A
  evens [] = []
  evens (x ∷ []) = x ∷ []
  evens (x ∷ y ∷ xs) = x ∷ evens xs

  -- `values[:-1]`
  unfoldable pub but_last : List A → List A
  but_last [] = []
  but_last (x ∷ []) = []
  but_last (x ∷ y ∷ xs) = x ∷ but_last (y ∷ xs)

  abbrev pub counted : Option ℕ → (ℕ → List A) → List A
  counted none keys = []
  counted (some n) keys = keys n

  module _ (as_text : A → String) (upper : String → String) (to_int : A → Option ℤ) where
    unfoldable pub normalize_command_name : A → String
    normalize_command_name value = upper (as_text value)

    unfoldable pub non_negative_int : Option A → Option ℕ
    non_negative_int none = none
    non_negative_int (some value) = elim (to_int value) [
      | none ↦ none
      | some n ↦ elim n [ pos m ↦ some m | negsuc m ↦ none ]
    ]

    -- The loop of `_sort_keys`, with how many arguments `index` has still to pass.
    unfoldable pub sort_options : ℕ → List A → List A
    unfolding normalize_command_name
    sort_options skip [] = []
    sort_options (suc skip) (x ∷ xs) = sort_options skip xs
    sort_options zero (x ∷ xs) =
        let token = normalize_command_name x in
        let one = sort_options 1 xs in
        let two = sort_options 2 xs in
        let next = sort_options 0 xs in
        if Text.◌==◌ token "STORE" && (elim xs [ [] ↦ false | _ ∷ _ ↦ true ])
        then take 1 xs ++ one
        else if Text.◌==◌ token "BY" || Text.◌==◌ token "GET"
        then one
        else if Text.◌==◌ token "LIMIT"
        then two
        else next

    unfoldable pub sort_keys : List A → List A
    unfolding sort_options
    sort_keys [] = []
    sort_keys (x ∷ xs) = x ∷ sort_options 0 xs

    -- The branch for MEMORY.
    abbrev pub memory_keys : List A → List A
    memory_keys [] = []
    memory_keys (v ∷ vs) = if Text.◌==◌ (upper (as_text v)) "USAGE" then take 1 vs else []

    module _ (flow_keys : String → List A → List A) (stream_keys : Bool → List A → List A) where
      -- `command_route_keys` behind the normalization of the name.
      unfoldable pub keys_of : String → List A → List A
      unfolding member evens but_last non_negative_int sort_keys normalize_command_name
      keys_of name values =
          if starts_with name "FLOW."
          then flow_keys name values
          else if member name control_commands
          then []
          else if member name pair_keys_commands
          then evens values
          else if member name all_keys_commands
          then values
          else if member name two_keys_commands
          then take 2 values
          else if member name blocking_pops
          then but_last values
          else if Text.◌==◌ name "BITOP"
          then drop 1 values
          else if member name counted_keys_commands
          then if member name timeout_first_commands
            then counted (non_negative_int (get_elem? values 1)) (λ n. take n (drop 2 values))
            else counted (non_negative_int (get_elem? values 0)) (λ n. take n (drop 1 values))
          else if member name stream_reads
          then stream_keys (Text.◌==◌ name "XREADGROUP") values
          else if member name destination_counted_keys_commands
          then counted (non_negative_int (get_elem? values 1))
              (λ n. take 1 values ++ take n (drop 2 values))
          else if member name second_argument_commands
          then take 1 (drop 1 values)
          else if Text.◌==◌ name "MEMORY"
          then memory_keys values
          else if Text.◌==◌ name "SORT"
          then sort_keys values
          else if member name first_key_commands
          then take 1 values
          else []

      unfoldable pub command_route_keys : A → List A → List A
      unfolding keys_of
      command_route_keys name args = keys_of (normalize_command_name name) args
