-- ===== src/Flow/Streams.antt =====
-- `command_core.py` with `command_grammar.py`: the routing keys of the stream reads, XREAD and XREADGROUP.
use Prim.Native.String.{String}
use ferricstore_python.Base.{
  ℕ, suc, ◌*◌, ◌/◌, ◌%◌, ◌≡◌, refl, ap, Bool, true, false, ◌||◌, not, Option, none, some, List, [],
  ◌∷◌, ◌++◌, length, take, ◌==◌, if◌then◌else◌, length-append, take-append, arith,
}
use ferricstore_python.Codec.Value.{ℤ, Value}
use ferricstore_python.Commands.Keys.{
  string_eq, member, normalize_command_name, keys_of, command_route_keys,
}
use ferricstore_python.Commands.Calls.{firsts, Spells}
use ferricstore_python.Commands.Exact.{other_word}
use ferricstore_python.Flow.Arguments.{
  StreamReadGrammar, invalid_read, stream_pairs, stream_options, parse_stream_read, stream_keys,
}

-- The options of a stream read, each with the argument that names it.
pub data ReadOption : Type 0 where
  no_ack : Value → ReadOption
  blocks counts : Value → Value → ReadOption

abbrev pub seconds : List (Value × Value) → List Value
seconds [] = []
seconds ((k, i) ∷ ps) = i ∷ seconds ps

-- Options, the word STREAMS, the keys and as many ids.
abbrev pub read_args : List ReadOption → Value → List (Value × Value) → List Value
read_args [] streams ps = streams ∷ (firsts ps ++ seconds ps)
read_args (no_ack t ∷ os) streams ps = t ∷ read_args os streams ps
read_args (blocks t v ∷ os) streams ps = t ∷ v ∷ read_args os streams ps
read_args (counts t v ∷ os) streams ps = t ∷ v ∷ read_args os streams ps

-- The value of the last BLOCK.
abbrev pub last_block : List ReadOption → Option Value → Option Value
last_block [] block = block
last_block (no_ack t ∷ os) block = last_block os block
last_block (blocks t v ∷ os) block = last_block os (some v)
last_block (counts t v ∷ os) block = last_block os block

-- What stands in front of the options: XREADGROUP has the word GROUP, a group and a consumer.
pub data Reader : Type 0 where
  alone : Reader
  in_group : Value → Value → Value → Reader

abbrev pub command_of : Reader → String
command_of alone = "XREAD"
command_of (in_group word group consumer) = "XREADGROUP"

abbrev pub in_a_group : Reader → Bool
in_a_group alone = false
in_a_group (in_group word group consumer) = true

abbrev pub behind_reader : Reader → List Value → List Value
behind_reader alone xs = xs
behind_reader (in_group word group consumer) xs = word ∷ group ∷ consumer ∷ xs

length-seconds : (ps : List (Value × Value)) → length (seconds ps) ≡ length (firsts ps)
length-seconds [] = refl
length-seconds ((k, i) ∷ ps) = ap suc (length-seconds ps)

module _ (as_text : Value → String) (upper : String → String) (to_int : Value → Option ℤ) where
  abbrev pub IsReadOption : ReadOption → Type 0
  IsReadOption (no_ack t) = Spells as_text upper to_int t "NOACK"
  IsReadOption (blocks t v) = Spells as_text upper to_int t "BLOCK"
  IsReadOption (counts t v) = Spells as_text upper to_int t "COUNT"

  abbrev pub AreReadOptions : List ReadOption → Type 0
  AreReadOptions [] = Unit
  AreReadOptions (o ∷ os) = IsReadOption o × AreReadOptions os

  abbrev pub IsReader : Reader → Type 0
  IsReader alone = Unit
  IsReader (in_group word group consumer) = Spells as_text upper to_int word "GROUP"

  abbrev found : List Value → Option Value → StreamReadGrammar
  found keys block = record { keys = keys; block = block; is_valid = true }

  stream_pairs-found :
      (k i : Value) (ps : List (Value × Value)) (block : Option Value)
      → stream_pairs ((k ∷ firsts ps) ++ (i ∷ seconds ps)) block ≡ found (k ∷ firsts ps) block
  stream_pairs-found k i ps block = go (length all_args) twice
    where
      all_args : List Value
      all_args = (k ∷ firsts ps) ++ (i ∷ seconds ps)

      twice : length all_args ≡ 2 * suc (length (firsts ps))
      twice = omega (arith, length-append (k ∷ firsts ps) (i ∷ seconds ps), length-seconds ps)

      go :
          (n : ℕ)
          → n ≡ 2 * suc (length (firsts ps))
          → (if n == 0 || not (n % 2 == 0)
              then invalid_read block
              else record { keys = take (n / 2) all_args; block = block; is_valid = true })
            ≡ found (k ∷ firsts ps) block
      go n e =
          let half : n / 2 ≡ length (k ∷ firsts ps) = omega (arith, e) in
          let even : n % 2 ≡ 0 = omega (arith, e) in
          let some_args : (n == 0) ≡ false = ground (arith, e) in
          rw (some_args, even, half)
            (ap (λ ks. found ks block) (take-append (k ∷ firsts ps) (i ∷ seconds ps)))

  skip_no_ack :
      (t : Value) (xs : List Value) (block : Option Value) (keys : List Value) (b : Option Value)
      → Spells as_text upper to_int t "NOACK"
      → stream_options as_text upper to_int xs block ≡ found keys b
      → stream_options as_text upper to_int (t ∷ xs) block ≡ found keys b
  unfolding stream_options
  skip_no_ack t [] block keys b h e =
      let invalid : false ≡ true = ap (λ (g : StreamReadGrammar). g.is_valid) e in absurd cc
  skip_no_ack t (x ∷ xs) block keys b h e =
      rw (other_word as_text upper to_int t "NOACK" "STREAMS" h refl, h) e

  stream_options-found :
      (os : List ReadOption) (streams k i : Value) (ps : List (Value × Value))
      (block : Option Value)
      → AreReadOptions os
      → Spells as_text upper to_int streams "STREAMS"
      → stream_options as_text upper to_int (read_args os streams ((k, i) ∷ ps)) block
        ≡ found (k ∷ firsts ps) (last_block os block)
  unfolding stream_options
  stream_options-found [] streams k i ps block h s = rw s (stream_pairs-found k i ps block)
  stream_options-found (no_ack t ∷ os) streams k i ps block (h, hs) s =
      skip_no_ack t (read_args os streams ((k, i) ∷ ps)) block (k ∷ firsts ps) (last_block os block)
        h (stream_options-found os streams k i ps block hs s)
  stream_options-found (blocks t v ∷ os) streams k i ps block (h, hs) s =
      rw
        (
          other_word as_text upper to_int t "BLOCK" "STREAMS" h refl,
          other_word as_text upper to_int t "BLOCK" "NOACK" h refl,
          h,
        )
        (stream_options-found os streams k i ps (some v) hs s)
  stream_options-found (counts t v ∷ os) streams k i ps block (h, hs) s =
      rw
        (
          other_word as_text upper to_int t "COUNT" "STREAMS" h refl,
          other_word as_text upper to_int t "COUNT" "NOACK" h refl,
          other_word as_text upper to_int t "COUNT" "BLOCK" h refl,
          h,
        )
        (stream_options-found os streams k i ps block hs s)

  parse_stream_read-found :
      (reader : Reader) (os : List ReadOption) (streams k i : Value) (ps : List (Value × Value))
      → IsReader reader
      → AreReadOptions os
      → Spells as_text upper to_int streams "STREAMS"
      → parse_stream_read as_text upper to_int
          (behind_reader reader (read_args os streams ((k, i) ∷ ps)))
          (in_a_group reader)
        ≡ found (k ∷ firsts ps) (last_block os none)
  unfolding parse_stream_read
  parse_stream_read-found alone os streams k i ps r h s =
      stream_options-found os streams k i ps none h s
  parse_stream_read-found (in_group word group consumer) os streams k i ps r h s =
      rw r (stream_options-found os streams k i ps none h s)

  keys_found :
      (g : StreamReadGrammar) (keys : List Value) (block : Option Value)
      → g ≡ found keys block
      → (if g.is_valid then g.keys else []) ≡ keys
  keys_found g keys block e = ap (λ (g : StreamReadGrammar). if g.is_valid then g.keys else []) e

  module _ (flow_keys : String → List Value → List Value) where
    -- The routing keys of a stream read, by XREAD or XREADGROUP, whatever its options and whatever stands as
    -- group, consumer, key or id: they are its keys, and the ids behind them are none.
    pub command_route_keys-stream_keys :
        (name : Value) (reader : Reader) (os : List ReadOption) (streams k i : Value)
        (ps : List (Value × Value))
        → normalize_command_name as_text upper to_int name ≡ command_of reader
        → IsReader reader
        → AreReadOptions os
        → Spells as_text upper to_int streams "STREAMS"
        → command_route_keys as_text upper to_int flow_keys
            (stream_keys as_text upper to_int)
            name
            (behind_reader reader (read_args os streams ((k, i) ∷ ps)))
          ≡ k ∷ firsts ps
    unfolding command_route_keys keys_of member
    command_route_keys-stream_keys name alone os streams k i ps n r h s = rw n (
        keys_found
          (parse_stream_read as_text upper to_int (read_args os streams ((k, i) ∷ ps)) false)
          (k ∷ firsts ps) (last_block os none)
          (parse_stream_read-found alone os streams k i ps r h s))
    command_route_keys-stream_keys name (in_group word group consumer) os streams k i ps n r h s =
        rw n (
          keys_found
            (parse_stream_read as_text upper to_int
              (word ∷ group ∷ consumer ∷ read_args os streams ((k, i) ∷ ps)) true)
            (k ∷ firsts ps) (last_block os none)
            (parse_stream_read-found (in_group word group consumer) os streams k i ps r h s))
