-- ===== src/Flow/Widths.antt =====
-- `FlowOptionPlan.option_width` of `flow_options.py`, against the grammar of Flow options.
use Prim.Native.String.{String}
use package.text.Mathlib.Text as Text
use text.Mathlib.TextEquality.{eq_iff}
use ferricstore_python.Base.{
  ℕ, zero, suc, ◌+◌, ◌≡◌, refl, sym, ◌∙◌, Bool, true, false, ◌&&◌, ◌||◌, not, Option, none, some,
  List, [], ◌∷◌, if◌then◌else◌, arith, length,
}
use ferricstore_python.Codec.Value.{ℤ, Value}
use ferricstore_python.Commands.Keys.{string_eq, member}
use ferricstore_python.Flow.Tables.{flow_three_value_options}
use ferricstore_python.Flow.Options.{
  suffix, items_tokens, is, one_of, is_text, token, non_negative_int, is_option, payload_valid,
  partitions_valid, valid, suffix_is_valid, payload_is_flag, partitions_width, option_width, entry,
  flow_option_tokens,
}
use ferricstore_python.Flow.Grammar.{skip, Valid, suffix-valid}
use ferricstore_python.Flow.Recognition.{skipped-some, Valid-valid, valid-Valid}

not_items :
    (t : Option String) → one_of t items_tokens ≡ false → (is t "ITEMS" || is t "ITEMS_EXT") ≡ false
unfolding member
not_items none h = refl
not_items (some s) h =
    go (Text.◌==◌ s "ITEMS") (Text.◌==◌ "ITEMS" s) (Text.◌==◌ s "ITEMS_EXT")
      (Text.◌==◌ "ITEMS_EXT" s) _ (same "ITEMS") (same "ITEMS_EXT") h
  where
    same : (t : String) → Text.◌==◌ s t ≡ true → Text.◌==◌ t s ≡ true
    same t e = (eq_iff t s).1 (sym ((eq_iff s t).0 e))

    go :
        (a a' b b' c : Bool)
        → (a ≡ true → a' ≡ true)
        → (b ≡ true → b' ≡ true)
        → (if a' then true else if b' then true else c) ≡ false
        → (a || b) ≡ false
    go true true b b' c ka kb h = absurd cc
    go true false b b' c ka kb h = absurd (let e = ka refl in cc)
    go false true b b' c ka kb h = absurd cc
    go false false true true c ka kb h = absurd cc
    go false false true false c ka kb h = absurd (let e = kb refl in cc)
    go false false false b' c ka kb h = refl

-- PAYLOAD is no other option with arguments of its own.
payload_alone :
    (t : Option String)
    → is t "PAYLOAD" ≡ true
    → (is t "PARTITIONS" ≡ false) × (one_of t flow_three_value_options ≡ false)
unfolding member
payload_alone none h = absurd cc
payload_alone (some s) h = let e : s ≡ "PAYLOAD" = (eq_iff s "PAYLOAD").0 h in rw e (refl, refl)

abbrev after_payload : Bool → ℕ
after_payload true = 0
after_payload false = 1

module _ (as_text : Value → String) (upper : String → String) (to_int : Value → Option ℤ) where
  payload_choice :
      (tx ox s0 s1 : Bool) (l : List Bool)
      → suffix l 0 ≡ s0
      → suffix l 1 ≡ s1
      → (if tx && ox then s0 else if ox then s0 || s1 else s1) ≡ true
      → suffix l (after_payload (if not ox then false else if tx then true else s0 && not s1))
        ≡ true
  payload_choice true false s0 s1 l e0 e1 h = e1 ∙ h
  payload_choice false false s0 s1 l e0 e1 h = e1 ∙ h
  payload_choice true true s0 s1 l e0 e1 h = e0 ∙ h
  payload_choice false true true true l e0 e1 h = e1
  payload_choice false true true false l e0 e1 h = e0
  payload_choice false true false s1 l e0 e1 h = e1 ∙ h

  payload_is_flag-suffix :
      (vs : List Value)
      → payload_valid as_text upper to_int vs (valid as_text upper to_int vs) ≡ true
      → suffix
          (valid as_text upper to_int vs)
          (after_payload (payload_is_flag as_text upper to_int vs))
        ≡ true
  unfolding payload_valid payload_is_flag suffix_is_valid valid suffix
  payload_is_flag-suffix [] h = refl
  payload_is_flag-suffix (x ∷ vs) h =
      payload_choice (is_text x) (is_option as_text upper to_int x) _ _
        (valid as_text upper to_int (x ∷ vs)) refl refl h

  abbrev Advances : Option ℕ → List Value → Type 0
  Advances none vs = ⊥
  Advances (some zero) vs = ⊥
  Advances (some (suc w)) vs = suffix (valid as_text upper to_int vs) w ≡ true

  Advances-payload :
      (f : Bool) (other : Option ℕ) (vs : List Value)
      → other ≡ some 2
      → suffix (valid as_text upper to_int vs) (after_payload f) ≡ true
      → Advances (if f then some 1 else other) vs
  Advances-payload true other vs e h = h
  Advances-payload false other vs e h = rw e h

  Advances-partitions :
      (o : Option ℕ) (vs : List Value)
      → partitions_valid as_text upper to_int o (valid as_text upper to_int vs) ≡ true
      → Advances (partitions_width as_text upper to_int o) vs
  Advances-partitions none vs h = absurd cc
  Advances-partitions (some count) vs h =
      let e : (2 + count) ≡ suc (suc count) = omega arith in rw e h

  Advances-chain :
      (i a o n p q w : Bool) (vs : List Value)
      → i ≡ false
      → a ≡ false
      → (p ≡ true → (q ≡ false) × (w ≡ false))
      → (if i
          then true
          else if not o
          then false
          else if n
          then suffix (valid as_text upper to_int vs) 0
          else if p
          then payload_valid as_text upper to_int vs (valid as_text upper to_int vs)
          else if q
          then partitions_valid as_text upper to_int
              (non_negative_int as_text upper to_int vs)
              (valid as_text upper to_int vs)
          else if w
          then suffix (valid as_text upper to_int vs) 2
          else suffix (valid as_text upper to_int vs) 1)
        ≡ true
      → Advances
          (if not o || a
            then none
            else if n || (p && payload_is_flag as_text upper to_int vs)
            then some 1
            else if q
            then partitions_width as_text upper to_int (non_negative_int as_text upper to_int vs)
            else if w
            then some 3
            else some 2)
          vs
  Advances-chain true a o n p q w vs hi ha k h = absurd cc
  Advances-chain false true o n p q w vs hi ha k h = absurd cc
  Advances-chain false false false n p q w vs hi ha k h = absurd cc
  Advances-chain false false true true p q w vs hi ha k h = h
  Advances-chain false false true false true q w vs hi ha k h =
      let (eq, ew) = k refl in
      Advances-payload _ _ vs (rw (eq, ew) refl) (payload_is_flag-suffix vs h)
  Advances-chain false false true false false true w vs hi ha k h = Advances-partitions _ vs h
  Advances-chain false false true false false false true vs hi ha k h = h
  Advances-chain false false true false false false false vs hi ha k h = h

  Advances-some :
      (o : Option ℕ) (vs : List Value)
      → Advances o vs
      → (w : ℕ) × (rest : List Value) × (o ≡ some (suc w))
        × (skip w vs ≡ some rest)
        × Valid as_text upper to_int rest
  Advances-some none vs h = absurd h
  Advances-some (some zero) vs h = absurd h
  Advances-some (some (suc w)) vs h =
      let (rest, e, k) =
        skipped-some as_text upper to_int (skip w vs)
          (sym (suffix-valid as_text upper to_int w vs) ∙ h) in
      (w, rest, refl, e, valid-Valid as_text upper to_int (length rest) rest (omega arith) k)

  -- In a suffix of the grammar that does not start at the items, `option_width` gives its first option at
  -- least one argument and not more than there are, and what is behind them is in the grammar again.
  pub option_width-Valid :
      (v : Value) (vs : List Value)
      → Valid as_text upper to_int (v ∷ vs)
      → one_of (token as_text upper to_int v) items_tokens ≡ false
      → (w : ℕ) × (rest : List Value) × (option_width as_text upper to_int
            (token as_text upper to_int v)
            vs
          ≡ some (suc w))
        × (skip w vs ≡ some rest)
        × Valid as_text upper to_int rest
  unfolding option_width valid suffix entry
  option_width-Valid v vs g i =
      let t = token as_text upper to_int v in
      Advances-some _ vs (
        Advances-chain (one_of t items_tokens) (is t "ITEMS" || is t "ITEMS_EXT")
          (one_of t flow_option_tokens) (is t "NOPAYLOAD") (is t "PAYLOAD") (is t "PARTITIONS")
          (one_of t flow_three_value_options) vs i (not_items t i) (payload_alone t)
          (Valid-valid as_text upper to_int (v ∷ vs) g))
