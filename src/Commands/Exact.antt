-- ===== src/Commands/Exact.antt =====
-- `command_route_keys` of `command_core.py`, on the calls that name their keys.
use Prim.Native.String.{String}
use text.Mathlib.Text as Text
use text.Mathlib.Text.{starts_with}
use text.Mathlib.TextEquality.{eq_iff}
use ferricstore_python.Base.{
  ℕ, ◌≡◌, refl, sym, ap, ◌∙◌, Bool, true, false, not, ◌&&◌, ◌||◌, Option, List, [], ◌∷◌, ◌++◌, take,
  if◌then◌else◌, All, take-append,
}
use ferricstore_python.Codec.Value.{ℤ}
use ferricstore_python.Commands.Tables.{
  control_commands, all_keys_commands, pair_keys_commands, counted_keys_commands,
  destination_counted_keys_commands, two_keys_commands, first_key_commands,
}
use ferricstore_python.Commands.Keys.{
  string_eq, member, blocking_pops, timeout_first_commands, stream_reads, second_argument_commands,
  evens, but_last, normalize_command_name, non_negative_int, sort_options, sort_keys, keys_of,
}
use ferricstore_python.Commands.Calls.{
  SortOption, stores, matches, limits, alone, Call, no_keys, all_keys, pairs, two_keys, blocking,
  bit_operation, counted_keys, timed_keys, destination, second_key, memory_usage, sorts, first_key,
  flat, firsts, sort_args, destinations, args_of, keys_in, Spells, AreOptions, Names,
}

-- The tests of `command_route_keys`, in order.
abbrev pub tests : List (String → Bool)
tests =
    (λ n. starts_with n "FLOW.")
    ∷ (λ n. member n control_commands)
    ∷ (λ n. member n pair_keys_commands)
    ∷ (λ n. member n all_keys_commands)
    ∷ (λ n. member n two_keys_commands)
    ∷ (λ n. member n blocking_pops)
    ∷ (λ n. Text.◌==◌ n "BITOP")
    ∷ (λ n. member n counted_keys_commands)
    ∷ (λ n. member n stream_reads)
    ∷ (λ n. member n destination_counted_keys_commands)
    ∷ (λ n. member n second_argument_commands)
    ∷ (λ n. Text.◌==◌ n "MEMORY")
    ∷ (λ n. Text.◌==◌ n "SORT")
    ∷ []

abbrev pub passes : List (String → Bool) → String → Bool
passes [] n = true
passes (p ∷ ps) n = not (p n) && passes ps n

abbrev pub all_names : (String → Bool) → List String → Bool
all_names p [] = true
all_names p (n ∷ ns) = p n && all_names p ns

and-left : (a b : Bool) → (a && b) ≡ true → a ≡ true
and-left true b h = refl
and-left false b h = h

and-right : (a b : Bool) → (a && b) ≡ true → b ≡ true
and-right true b h = h
and-right false b h = absurd cc

not-true : (b : Bool) → not b ≡ true → b ≡ false
not-true false h = refl
not-true true h = absurd cc

all_names-member :
    (p : String → Bool) (n : String) (ns : List String)
    → all_names p ns ≡ true
    → member n ns ≡ true
    → p n ≡ true
unfolding member
all_names-member p n [] h m = absurd cc
all_names-member p n (j ∷ ns) h m =
    go (Text.◌==◌ j n) refl (all_names-member p n ns (and-right (p j) (all_names p ns) h)) m
  where
    go :
        (b : Bool)
        → Text.◌==◌ j n ≡ b
        → (member n ns ≡ true → p n ≡ true)
        → (if b then true else member n ns) ≡ true
        → p n ≡ true
    go true e rest k = ap p (sym ((eq_iff j n).0 e)) ∙ and-left (p j) (all_names p ns) h
    go false e rest k = rest k

passes-All :
    (ps : List (String → Bool)) (n : String) → passes ps n ≡ true → All (λ p. p n ≡ false) ps
passes-All [] n h = tt
passes-All (p ∷ ps) n h = (
  not-true (p n) (and-left (not (p n)) (passes ps n) h),
  passes-All ps n (and-right (not (p n)) (passes ps n) h),
)

-- A name of a table that fails the first tests.
pub fails_first :
    (k : ℕ) (ns : List String) (n : String)
    → all_names (passes (take k tests)) ns ≡ true
    → member n ns ≡ true
    → All (λ p. p n ≡ false) (take k tests)
fails_first k ns n h m =
    passes-All (take k tests) n (all_names-member (passes (take k tests)) n ns h m)

module _ {A : Type 0} where
  evens-flat : (ps : List (A × A)) → evens (flat ps) ≡ firsts ps
  unfolding evens
  evens-flat [] = refl
  evens-flat ((k, v) ∷ ps) = ap (λ ks. k ∷ ks) (evens-flat ps)

  but_last-append : (ks : List A) (x : A) → but_last (ks ++ x ∷ []) ≡ ks
  unfolding but_last
  but_last-append [] x = refl
  but_last-append (k ∷ []) x = refl
  but_last-append (k ∷ j ∷ ks) x = ap (λ js. k ∷ js) (but_last-append (j ∷ ks) x)

  module _ (as_text : A → String) (upper : String → String) (to_int : A → Option ℤ) where
    pub other_word :
        (t : A) (v w : String)
        → Spells as_text upper to_int t v
        → Text.◌==◌ v w ≡ false
        → Text.◌==◌ (upper (as_text t)) w ≡ false
    other_word t v w h e = ap (λ u. Text.◌==◌ u w) ((eq_iff _ _).0 h) ∙ e

    absent :
        (k : String) (js : List String) → member k js ≡ false → All (λ j. Text.◌==◌ k j ≡ false) js
    unfolding member
    absent k [] h = tt
    absent k (j ∷ js) h = go (Text.◌==◌ j k) (Text.◌==◌ k j) refl refl (absent k js) h
      where
        go :
            (b c : Bool)
            → Text.◌==◌ j k ≡ b
            → Text.◌==◌ k j ≡ c
            → (member k js ≡ false → All (λ i. Text.◌==◌ k i ≡ false) js)
            → (if b then true else member k js) ≡ false
            → (c ≡ false) × All (λ i. Text.◌==◌ k i ≡ false) js
        go true c e f rest i = absurd cc
        go false false e f rest i = (refl, rest i)
        go false true e f rest i =
            let same : Text.◌==◌ j k ≡ true = (eq_iff j k).1 (sym ((eq_iff k j).0 f)) in absurd cc

    sort_options-destinations :
        (os : List (SortOption A))
        → AreOptions as_text upper to_int os
        → sort_options as_text upper to_int 0 (sort_args os) ≡ destinations os
    unfolding sort_options normalize_command_name
    sort_options-destinations [] h = refl
    sort_options-destinations (stores t d ∷ os) (h, hs) =
        rw h (ap (λ ks. d ∷ ks) (sort_options-destinations os hs))
    sort_options-destinations (matches t p ∷ os) (h, hs) =
        rw (word (Text.◌==◌ (upper (as_text t)) "BY") refl, h) (sort_options-destinations os hs)
      where
        word :
            (b : Bool)
            → Text.◌==◌ (upper (as_text t)) "BY" ≡ b
            → Text.◌==◌ (upper (as_text t)) "STORE" ≡ false
        word true e = other_word t "BY" "STORE" e refl
        word false e =
            other_word t "GET" "STORE"
              (ap (λ b. b || Text.◌==◌ (upper (as_text t)) "GET") (sym e) ∙ h) refl
    sort_options-destinations (limits t m n ∷ os) (h, hs) =
        rw
          (
            other_word t "LIMIT" "STORE" h refl,
            other_word t "LIMIT" "BY" h refl,
            other_word t "LIMIT" "GET" h refl,
            h,
          )
          (sort_options-destinations os hs)
    sort_options-destinations (alone t ∷ os) (h, hs) =
        let w = absent (upper (as_text t)) ("STORE" ∷ "BY" ∷ "GET" ∷ "LIMIT" ∷ []) h in
        rw (w.0, w.1.0, w.1.1.0, w.1.1.1.0) (sort_options-destinations os hs)

    module _ (flow_keys : String → List A → List A) (stream_keys : Bool → List A → List A) where
      pub keys_of-keys_in :
          (n : String) (c : Call A)
          → Names as_text upper to_int n c
          → keys_of as_text upper to_int flow_keys stream_keys n (args_of c) ≡ keys_in c
      unfolding keys_of
      keys_of-keys_in n (no_keys xs) h =
          let f = fails_first 1 control_commands n (unfold member in refl) h in rw (f.0, h) refl
      keys_of-keys_in n (pairs ps) h =
          let f = fails_first 2 pair_keys_commands n (unfold member in refl) h in
          rw (f.0, f.1.0, h) (evens-flat ps)
      keys_of-keys_in n (all_keys ks) h =
          let f = fails_first 3 all_keys_commands n (unfold member in refl) h in
          rw (f.0, f.1.0, f.1.1.0, h) refl
      keys_of-keys_in n (two_keys k j xs) h =
          let f = fails_first 4 two_keys_commands n (unfold member in refl) h in
          rw (f.0, f.1.0, f.1.1.0, f.1.1.1.0, h) refl
      keys_of-keys_in n (blocking ks timeout) h =
          let f = fails_first 5 blocking_pops n (unfold member in refl) h in
          rw (f.0, f.1.0, f.1.1.0, f.1.1.1.0, f.1.1.1.1.0, h) (but_last-append ks timeout)
      keys_of-keys_in n (bit_operation operation ks) h = rw h (unfold member in refl)
      keys_of-keys_in n (counted_keys count ks xs) (h, untimed, counts) =
          let f = fails_first 7 counted_keys_commands n (unfold member in refl) h in
          rw
            (
              f.0, f.1.0, f.1.1.0, f.1.1.1.0, f.1.1.1.1.0, f.1.1.1.1.1.0, f.1.1.1.1.1.1.0, h,
              untimed,
            )
            (unfold non_negative_int in rw counts (take-append ks xs))
      keys_of-keys_in n (timed_keys timeout count ks xs) (h, counts) =
          let f = fails_first 7 timeout_first_commands n (unfold member in refl) h in
          let c : member n counted_keys_commands ≡ true =
            all_names-member (λ m. member m counted_keys_commands) n timeout_first_commands
              (unfold member in refl) h in
          rw (f.0, f.1.0, f.1.1.0, f.1.1.1.0, f.1.1.1.1.0, f.1.1.1.1.1.0, f.1.1.1.1.1.1.0, c, h)
            (unfold non_negative_int in rw counts (take-append ks xs))
      keys_of-keys_in n (destination d count ks xs) (h, counts) =
          let f = fails_first 9 destination_counted_keys_commands n (unfold member in refl) h in
          rw
            (
              f.0, f.1.0, f.1.1.0, f.1.1.1.0, f.1.1.1.1.0, f.1.1.1.1.1.0, f.1.1.1.1.1.1.0,
              f.1.1.1.1.1.1.1.0, f.1.1.1.1.1.1.1.1.0, h,
            )
            (unfold non_negative_int in rw counts (ap (λ js. d ∷ js) (take-append ks xs)))
      keys_of-keys_in n (second_key subcommand k xs) h =
          let f = fails_first 10 second_argument_commands n (unfold member in refl) h in
          rw
            (
              f.0, f.1.0, f.1.1.0, f.1.1.1.0, f.1.1.1.1.0, f.1.1.1.1.1.0, f.1.1.1.1.1.1.0,
              f.1.1.1.1.1.1.1.0, f.1.1.1.1.1.1.1.1.0, f.1.1.1.1.1.1.1.1.1.0, h,
            )
            refl
      keys_of-keys_in n (memory_usage usage k xs) (h, u) = rw h (unfold member in rw u refl)
      keys_of-keys_in n (sorts k os) (h, options) =
          rw h (unfold member sort_keys in ap (λ ks. k ∷ ks) (sort_options-destinations os options))
      keys_of-keys_in n (first_key k xs) h =
          let f = fails_first 13 first_key_commands n (unfold member in refl) h in
          rw
            (
              f.0, f.1.0, f.1.1.0, f.1.1.1.0, f.1.1.1.1.0, f.1.1.1.1.1.0, f.1.1.1.1.1.1.0,
              f.1.1.1.1.1.1.1.0, f.1.1.1.1.1.1.1.1.0, f.1.1.1.1.1.1.1.1.1.0,
              f.1.1.1.1.1.1.1.1.1.1.0, f.1.1.1.1.1.1.1.1.1.1.1.0, f.1.1.1.1.1.1.1.1.1.1.1.1.0, h,
            )
            refl
