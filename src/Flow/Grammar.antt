-- ===== src/Flow/Grammar.antt =====
-- The option grammar that `FlowOptionPlan` of `flow_options.py` is to recognise, and its uses agree on.
use Prim.Native.String.{String}
use ferricstore_python.Base.{
  ℕ, zero, suc, ◌+◌, ◌≡◌, ◌⊎◌, refl, ap, Bool, true, false, ◌&&◌, not, Option, none, some, List, [],
  ◌∷◌, length, if◌then◌else◌, arith,
}
use ferricstore_python.Codec.Value.{ℤ, Value}
use ferricstore_python.Commands.Keys.{string_eq}
use ferricstore_python.Flow.Tables.{flow_three_value_options}
use ferricstore_python.Flow.Options.{
  flow_option_tokens, is, one_of, suffix, items_tokens, is_text, token, non_negative_int, is_option,
  payload_valid, partitions_valid, entry, valid,
}

-- What is left behind `n` arguments, where there are so many.
abbrev pub skip {ℓ} : {A : Type ℓ} → ℕ → List A → Option (List A)
skip zero xs = some xs
skip (suc n) [] = none
skip (suc n) (x ∷ xs) = skip n xs

-- Which rule of the grammar an option falls under; `values n` takes `n` arguments.
pub data Rule : Type 0 where
  items no_option flag payload partitions : Rule
  values : ℕ → Rule

abbrev pub rule : Option String → Rule
rule t =
    if one_of t items_tokens
    then items
    else if not (one_of t flow_option_tokens)
    then no_option
    else if is t "NOPAYLOAD"
    then flag
    else if is t "PAYLOAD"
    then payload
    else if is t "PARTITIONS"
    then partitions
    else if one_of t flow_three_value_options
    then values 2
    else values 1

pub skip-length :
    {A : Type 0} (n : ℕ) (xs ys : List A) → skip n xs ≡ some ys → length ys + n ≡ length xs
skip-length zero xs ys h = let e : xs ≡ ys = cc in omega (arith, ap length e)
skip-length (suc n) [] ys h = cc
skip-length (suc n) (x ∷ xs) ys h = omega (arith, skip-length n xs ys h)

module _ (as_text : Value → String) (upper : String → String) (to_int : Value → Option ℤ) where
  -- PAYLOAD may stand alone at the end or before an option, and takes a value that is not a text which
  -- spells an option.
  abbrev pub CanStandAlone : List Value → Type 0
  CanStandAlone [] = Unit
  CanStandAlone (x ∷ vs) = is_option as_text upper to_int x ≡ true

  abbrev pub CanTakeValue : List Value → Type 0
  CanTakeValue [] = ⊥
  CanTakeValue (x ∷ vs) = (is_text x && is_option as_text upper to_int x) ≡ false

  -- How many of the arguments behind it an option may take.
  abbrev pub Takes : Rule → List Value → ℕ → Type 0
  Takes items vs n = ⊥
  Takes no_option vs n = ⊥
  Takes flag vs n = n ≡ 0
  Takes payload vs n = (n ≡ 0 × CanStandAlone vs) ⊎ (n ≡ 1 × CanTakeValue vs)
  Takes partitions vs n =
      (count : ℕ) × (non_negative_int as_text upper to_int vs ≡ some count) × (n ≡ suc count)
  Takes (values k) vs n = n ≡ k

  -- Options up to the end or to the items, which are not read.
  pub data Valid : List Value → Type 0 where
    done : Valid []
    at_items :
        {v : Value} {vs : List Value} → rule (token as_text upper to_int v) ≡ items → Valid (v ∷ vs)
    behind :
        {v : Value} {vs rest : List Value} (n : ℕ)
        → Takes (rule (token as_text upper to_int v)) vs n
        → skip n vs ≡ some rest
        → Valid rest
        → Valid (v ∷ vs)

  abbrev pub starts_valid : List Value → Bool
  starts_valid l = suffix (valid as_text upper to_int l) 0

  abbrev pub skipped : Option (List Value) → Bool
  skipped none = false
  skipped (some rest) = starts_valid rest

  pub suffix-valid :
      (n : ℕ) (l : List Value) → suffix (valid as_text upper to_int l) n ≡ skipped (skip n l)
  unfolding suffix valid
  suffix-valid zero [] = refl
  suffix-valid zero (v ∷ vs) = refl
  suffix-valid (suc zero) [] = refl
  suffix-valid (suc (suc n)) [] = refl
  suffix-valid (suc n) (v ∷ vs) = suffix-valid n vs

  abbrev pub by_rule : Rule → List Value → List Bool → Bool
  by_rule items vs rest = true
  by_rule no_option vs rest = false
  by_rule flag vs rest = suffix rest 0
  by_rule payload vs rest = payload_valid as_text upper to_int vs rest
  by_rule partitions vs rest =
      partitions_valid as_text upper to_int (non_negative_int as_text upper to_int vs) rest
  by_rule (values n) vs rest = suffix rest n

  -- The two chains of tests agree, one arm at a time.
  by_rule-chain :
      (i o n p q w : Bool) (vs : List Value) (rest : List Bool)
      → (if i
          then true
          else if not o
          then false
          else if n
          then suffix rest 0
          else if p
          then payload_valid as_text upper to_int vs rest
          else if q
          then partitions_valid as_text upper to_int (non_negative_int as_text upper to_int vs) rest
          else if w
          then suffix rest 2
          else suffix rest 1)
        ≡ by_rule
            (if i
              then items
              else if not o
              then no_option
              else if n
              then flag
              else if p
              then payload
              else if q
              then partitions
              else if w
              then values 2
              else values 1)
            vs
            rest
  by_rule-chain true o n p q w vs rest = refl
  by_rule-chain false false n p q w vs rest = refl
  by_rule-chain false true true p q w vs rest = refl
  by_rule-chain false true false true q w vs rest = refl
  by_rule-chain false true false false true w vs rest = refl
  by_rule-chain false true false false false true vs rest = refl
  by_rule-chain false true false false false false vs rest = refl

  entry-by_rule :
      (t : Option String) (vs : List Value) (rest : List Bool)
      → entry as_text upper to_int t vs rest ≡ by_rule (rule t) vs rest
  unfolding entry
  entry-by_rule t vs rest =
      by_rule-chain (one_of t items_tokens) (one_of t flow_option_tokens) (is t "NOPAYLOAD")
        (is t "PAYLOAD") (is t "PARTITIONS") (one_of t flow_three_value_options) vs rest

  -- The test of a suffix, by the rule of its first argument.
  pub starts_valid-rule :
      (v : Value) (vs : List Value)
      → starts_valid (v ∷ vs)
        ≡ by_rule (rule (token as_text upper to_int v)) vs (valid as_text upper to_int vs)
  unfolding valid suffix
  starts_valid-rule v vs =
      entry-by_rule (token as_text upper to_int v) vs (valid as_text upper to_int vs)
