-- ===== src/Flow/Segments.antt =====
-- `command_grammar.py`: what the counted segments are of their arguments.
use ferricstore_python.Base.{
  ℕ, zero, suc, ◌+◌, ◌*◌, ◌≡◌, ◌≤◌, ◌<◌, refl, sym, ap, ◌∙◌, Bool, true, false, Option, none, some,
  List, [], ◌∷◌, ◌++◌, length, take, drop, ltb, ltb→lt, ltb_false→le, drop-add, get_elem?,
  if◌then◌else◌, arith, length-drop, length-take, take-drop,
}
use ferricstore_python.Codec.Value.{pos, negsuc, Value, integer}
use ferricstore_python.Commands.Keys.{string_eq}
use ferricstore_python.Flow.Arguments.{
  CountedArguments, no_count, bad_count, too_many, Consumed, consumed, refused, consume_at,
  consume_count, require_nonnegative_count, consume_counted_arguments,
}

-- The arguments are cut in three: those before the count, the segment that it counts, and what is left.
abbrev pub IsCut : List Value → ℕ → ℕ → CountedArguments → Type 0
IsCut args count_index width c =
    (args ≡ take (suc count_index) args ++ (c.values ++ drop c.next_index args))
    × (get_elem? args count_index ≡ some (integer (pos c.count)))
    × (length c.values ≡ c.count * width)
    × (c.next_index ≡ suc count_index + c.count * width)
    × (c.next_index ≤ length args)

-- The outcome that the arguments decide.
abbrev pub Outcome : List Value → ℕ → ℕ → Consumed → Type 0
Outcome args count_index width (consumed c) = IsCut args count_index width c
Outcome args count_index width (refused no_count) = length args ≤ count_index
Outcome args count_index width (refused bad_count) =
    (value : Value) × (get_elem? args count_index ≡ some value)
    × ¬ ((n : ℕ) × (value ≡ integer (pos n)))
Outcome args count_index width (refused too_many) =
    (count : ℕ) × (get_elem? args count_index ≡ some (integer (pos count)))
    × (length args < suc count_index + count * width)

counted_by :
    (value : Value) (count : ℕ)
    → require_nonnegative_count value ≡ some count
    → value ≡ integer (pos count)
unfolding require_nonnegative_count
counted_by (integer (pos n)) count h = cc
counted_by _ count h = absurd cc

not_counted :
    (value : Value)
    → require_nonnegative_count value ≡ none
    → ¬ ((n : ℕ) × (value ≡ integer (pos n)))
unfolding require_nonnegative_count
not_counted (integer (pos m)) h (n, e) = absurd cc
not_counted (integer (negsuc m)) h (n, e) = absurd cc
not_counted _ h (n, e) = absurd cc

cut : (m n : ℕ) (xs : List Value) → xs ≡ take m xs ++ (take n (drop m xs) ++ drop (m + n) xs)
cut m n xs = rw drop-add (sym (ap (λ r. take m xs ++ r) (take-drop n (drop m xs)) ∙ take-drop m xs))

get_elem?-length : (xs : List Value) (i : ℕ) → get_elem? xs i ≡ none → length xs ≤ i
get_elem?-length [] i h = omega arith
get_elem?-length (x ∷ xs) zero h = absurd cc
get_elem?-length (x ∷ xs) (suc i) h = omega (arith, get_elem?-length xs i h)

consume-Outcome :
    (args : List Value) (count_index width : ℕ) (value : Value) (o : Option ℕ)
    → get_elem? args count_index ≡ some value
    → require_nonnegative_count value ≡ o
    → Outcome args count_index width (consume_count o args (suc count_index) width)
consume-Outcome args i w value none e h = (value, e, not_counted value h)
consume-Outcome args i w value (some count) e h = go (ltb (length args) (suc i + count * w)) refl
  where
    at : get_elem? args i ≡ some (integer (pos count))
    at = e ∙ ap some (counted_by value count h)

    go :
        (b : Bool)
        → ltb (length args) (suc i + count * w) ≡ b
        → Outcome args i w (
            if b
            then refused too_many
            else consumed (record {
              values = take (count * w) (drop (suc i) args);
              next_index = suc i + count * w;
              count = count;
            }))
    go true b = (count, at, ltb→lt _ _ b)
    go false b =
        let le = ltb_false→le _ _ b in
        (
          cut (suc i) (count * w) args,
          at,
          length-take (count * w) (drop (suc i) args) (omega (arith, le, length-drop (suc i) args)),
          refl,
          le,
        )

-- Every outcome of `consume_counted_arguments` is the one its arguments call for: it refuses a count that is
-- not there, one that is no non-negative integer and one that the arguments do not cover, and else cuts the
-- arguments in those up to the count, the counted segment and the rest from the next index on.
pub consume_counted_arguments-Outcome :
    (args : List Value) (count_index width : ℕ)
    → Outcome args count_index width (consume_counted_arguments args count_index width)
unfolding consume_counted_arguments
consume_counted_arguments-Outcome args count_index width = go (get_elem? args count_index) refl
  where
    go :
        (o : Option Value)
        → get_elem? args count_index ≡ o
        → Outcome args count_index width (consume_at o args (suc count_index) width)
    go none e = get_elem?-length args count_index e
    go (some value) e =
        consume-Outcome args count_index width value (require_nonnegative_count value) e refl
