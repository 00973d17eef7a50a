-- ===== src/Commands/Calls.antt =====
-- `command_route_keys` of `command_core.py`: the calls of commands, by how they lay out their keys.
use Prim.Native.String.{String}
use text.Mathlib.Text as Text
use text.Mathlib.Text.{starts_with}
use ferricstore_python.Base.{◌≡◌, true, false, ◌||◌, Option, some, List, [], ◌∷◌, ◌++◌, length}
use ferricstore_python.Codec.Value.{ℤ, pos}
use ferricstore_python.Commands.Tables.{
  control_commands, all_keys_commands, pair_keys_commands, counted_keys_commands,
  destination_counted_keys_commands, two_keys_commands, first_key_commands,
}
use ferricstore_python.Commands.Keys.{
  string_eq, member, blocking_pops, timeout_first_commands, second_argument_commands,
}

-- The options of SORT, each with the argument that names it.
pub data SortOption (A : Type 0) : Type 0 where
  stores matches : A → A → SortOption A
  limits : A → A → A → SortOption A
  alone : A → SortOption A

-- The arguments of a call: its keys and what stands between and behind them.
pub data Call (A : Type 0) : Type 0 where
  no_keys all_keys : List A → Call A
  pairs : List (A × A) → Call A
  two_keys : A → A → List A → Call A
  blocking : List A → A → Call A
  bit_operation : A → List A → Call A
  counted_keys : A → List A → List A → Call A
  timed_keys : A → A → List A → List A → Call A
  destination : A → A → List A → List A → Call A
  second_key : A → A → List A → Call A
  memory_usage : A → A → List A → Call A
  sorts : A → List (SortOption A) → Call A
  first_key : A → List A → Call A

module _ {A : Type 0} where
  abbrev pub flat : List (A × A) → List A
  flat [] = []
  flat ((k, v) ∷ ps) = k ∷ v ∷ flat ps

  abbrev pub firsts : List (A × A) → List A
  firsts [] = []
  firsts ((k, v) ∷ ps) = k ∷ firsts ps

  abbrev pub sort_args : List (SortOption A) → List A
  sort_args [] = []
  sort_args (stores t d ∷ os) = t ∷ d ∷ sort_args os
  sort_args (matches t p ∷ os) = t ∷ p ∷ sort_args os
  sort_args (limits t m n ∷ os) = t ∷ m ∷ n ∷ sort_args os
  sort_args (alone t ∷ os) = t ∷ sort_args os

  abbrev pub destinations : List (SortOption A) → List A
  destinations [] = []
  destinations (stores t d ∷ os) = d ∷ destinations os
  destinations (matches t p ∷ os) = destinations os
  destinations (limits t m n ∷ os) = destinations os
  destinations (alone t ∷ os) = destinations os

  abbrev pub args_of : Call A → List A
  args_of (no_keys xs) = xs
  args_of (all_keys ks) = ks
  args_of (pairs ps) = flat ps
  args_of (two_keys k j xs) = k ∷ j ∷ xs
  args_of (blocking ks timeout) = ks ++ timeout ∷ []
  args_of (bit_operation operation ks) = operation ∷ ks
  args_of (counted_keys count ks xs) = count ∷ (ks ++ xs)
  args_of (timed_keys timeout count ks xs) = timeout ∷ count ∷ (ks ++ xs)
  args_of (destination d count ks xs) = d ∷ count ∷ (ks ++ xs)
  args_of (second_key subcommand k xs) = subcommand ∷ k ∷ xs
  args_of (memory_usage usage k xs) = usage ∷ k ∷ xs
  args_of (sorts k os) = k ∷ sort_args os
  args_of (first_key k xs) = k ∷ xs

  abbrev pub keys_in : Call A → List A
  keys_in (no_keys xs) = []
  keys_in (all_keys ks) = ks
  keys_in (pairs ps) = firsts ps
  keys_in (two_keys k j xs) = k ∷ j ∷ []
  keys_in (blocking ks timeout) = ks
  keys_in (bit_operation operation ks) = ks
  keys_in (counted_keys count ks xs) = ks
  keys_in (timed_keys timeout count ks xs) = ks
  keys_in (destination d count ks xs) = d ∷ ks
  keys_in (second_key subcommand k xs) = k ∷ []
  keys_in (memory_usage usage k xs) = k ∷ []
  keys_in (sorts k os) = k ∷ destinations os
  keys_in (first_key k xs) = k ∷ []

  module _ (as_text : A → String) (upper : String → String) (to_int : A → Option ℤ) where
    abbrev pub Spells : A → String → Type 0
    Spells t word = Text.◌==◌ (upper (as_text t)) word ≡ true

    abbrev pub IsOption : SortOption A → Type 0
    IsOption (stores t d) = Spells t "STORE"
    IsOption (matches t p) =
        (Text.◌==◌ (upper (as_text t)) "BY" || Text.◌==◌ (upper (as_text t)) "GET") ≡ true
    IsOption (limits t m n) = Spells t "LIMIT"
    IsOption (alone t) = member (upper (as_text t)) ("STORE" ∷ "BY" ∷ "GET" ∷ "LIMIT" ∷ []) ≡ false

    abbrev pub AreOptions : List (SortOption A) → Type 0
    AreOptions [] = Unit
    AreOptions (o ∷ os) = IsOption o × AreOptions os

    abbrev pub Counts : A → List A → Type 0
    Counts count ks = to_int count ≡ some (pos (length ks))

    -- The commands that are called so, and what the counts and the words among the arguments say.
    abbrev pub Names : String → Call A → Type 0
    Names n (no_keys xs) = member n control_commands ≡ true
    Names n (all_keys ks) = member n all_keys_commands ≡ true
    Names n (pairs ps) = member n pair_keys_commands ≡ true
    Names n (two_keys k j xs) = member n two_keys_commands ≡ true
    Names n (blocking ks timeout) = member n blocking_pops ≡ true
    Names n (bit_operation operation ks) = n ≡ "BITOP"
    Names n (counted_keys count ks xs) =
        (member n counted_keys_commands ≡ true)
        × (member n timeout_first_commands ≡ false)
        × Counts count ks
    Names n (timed_keys timeout count ks xs) =
        (member n timeout_first_commands ≡ true) × Counts count ks
    Names n (destination d count ks xs) =
        (member n destination_counted_keys_commands ≡ true) × Counts count ks
    Names n (second_key subcommand k xs) = member n second_argument_commands ≡ true
    Names n (memory_usage usage k xs) = (n ≡ "MEMORY") × Spells usage "USAGE"
    Names n (sorts k os) = (n ≡ "SORT") × AreOptions os
    Names n (first_key k xs) = member n first_key_commands ≡ true
