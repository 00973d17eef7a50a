-- ===== src/Flow/Recognition.antt =====
-- `FlowOptionPlan.suffix_is_valid` of `flow_options.py`, against the grammar of Flow options.
use Prim.Native.String.{String}
use ferricstore_python.Base.{
  ℕ, zero, suc, ◌≡◌, ◌↔◌, ◌≤◌, ◌⊎◌, refl, sym, ap, ◌∙◌, Bool, true, false, ◌&&◌, ◌||◌, Option, none,
  some, List, [], ◌∷◌, length, if◌then◌else◌, arith, inl, inr,
}
use ferricstore_python.Codec.Value.{ℤ, Value}
use ferricstore_python.Flow.Options.{
  suffix, is_text, token, non_negative_int, is_option, payload_valid, partitions_valid, valid,
  suffix_is_valid,
}
use ferricstore_python.Flow.Grammar.{
  skip, Rule, items, no_option, flag, payload, partitions, values, rule, skip-length, Takes, Valid,
  done, at_items, behind, starts_valid, skipped, suffix-valid, by_rule, starts_valid-rule,
}

module _ (as_text : Value → String) (upper : String → String) (to_int : Value → Option ℤ) where
  -- What stands behind the arguments of an option: a suffix that passes the test.
  abbrev After : Rule → List Value → Type 0
  After r vs =
      (n : ℕ) × (rest : List Value) × Takes as_text upper to_int r vs n
      × (skip n vs ≡ some rest)
      × (starts_valid as_text upper to_int rest ≡ true)

  pub skipped-some :
      (o : Option (List Value))
      → skipped as_text upper to_int o ≡ true
      → (rest : List Value) × (o ≡ some rest) × (starts_valid as_text upper to_int rest ≡ true)
  skipped-some none h = absurd cc
  skipped-some (some rest) h = (rest, refl, h)

  suffix-After :
      (n : ℕ) (r : Rule) (vs : List Value)
      → Takes as_text upper to_int r vs n
      → suffix (valid as_text upper to_int vs) n ≡ true
      → After r vs
  suffix-After n r vs t h =
      let (rest, e, v) =
        skipped-some (skip n vs) (sym (suffix-valid as_text upper to_int n vs) ∙ h) in
      (n, rest, t, e, v)

  both_false : (a b : Bool) {x y : Bool} → x ≡ a → y ≡ b → (a && b) ≡ false → (x && y) ≡ false
  both_false a b ea eb h = cc

  -- PAYLOAD before an option that is no text: it stands alone where the grammar goes on, and takes a value otherwise.
  payload-After-either :
      (x : Value) (vs : List Value) (alone : Bool)
      → is_text x ≡ false
      → is_option as_text upper to_int x ≡ true
      → suffix (valid as_text upper to_int (x ∷ vs)) 0 ≡ alone
      → (alone || suffix (valid as_text upper to_int (x ∷ vs)) 1) ≡ true
      → After payload (x ∷ vs)
  payload-After-either x vs true et eo h k = suffix-After 0 payload (x ∷ vs) (inl (refl, eo)) h
  payload-After-either x vs false et eo h k =
      suffix-After 1 payload (x ∷ vs) (inr (refl, both_false false true et eo refl)) k

  payload-After :
      (x : Value) (vs : List Value) (text_there option_there : Bool)
      → is_text x ≡ text_there
      → is_option as_text upper to_int x ≡ option_there
      → (if text_there && option_there
          then suffix (valid as_text upper to_int (x ∷ vs)) 0
          else if option_there
          then suffix (valid as_text upper to_int (x ∷ vs)) 0
            || suffix (valid as_text upper to_int (x ∷ vs)) 1
          else suffix (valid as_text upper to_int (x ∷ vs)) 1)
        ≡ true
      → After payload (x ∷ vs)
  payload-After x vs true true et eo h = suffix-After 0 payload (x ∷ vs) (inl (refl, eo)) h
  payload-After x vs true false et eo h =
      suffix-After 1 payload (x ∷ vs) (inr (refl, both_false true false et eo refl)) h
  payload-After x vs false false et eo h =
      suffix-After 1 payload (x ∷ vs) (inr (refl, both_false false false et eo refl)) h
  payload-After x vs false true et eo h =
      payload-After-either x vs (suffix (valid as_text upper to_int (x ∷ vs)) 0) et eo refl h

  valid-end : suffix (valid as_text upper to_int []) 0 ≡ true
  unfolding suffix valid
  valid-end = refl

  partitions-After :
      (vs : List Value) (o : Option ℕ)
      → non_negative_int as_text upper to_int vs ≡ o
      → partitions_valid as_text upper to_int o (valid as_text upper to_int vs) ≡ true
      → After partitions vs
  partitions-After vs none e h = absurd cc
  partitions-After vs (some count) e h = suffix-After (suc count) partitions vs (count, e, refl) h

  by_rule-After :
      (r : Rule) (vs : List Value)
      → by_rule as_text upper to_int r vs (valid as_text upper to_int vs) ≡ true
      → (r ≡ items) ⊎ After r vs
  unfolding payload_valid
  by_rule-After items vs h = inl refl
  by_rule-After no_option vs h = absurd cc
  by_rule-After flag vs h = inr (suffix-After 0 flag vs refl h)
  by_rule-After payload [] h = inr (0, [], inl (refl, tt), refl, valid-end)
  by_rule-After payload (x ∷ vs) h =
      inr (payload-After x vs (is_text x) (is_option as_text upper to_int x) refl refl h)
  by_rule-After partitions vs h =
      inr (partitions-After vs (non_negative_int as_text upper to_int vs) refl h)
  by_rule-After (values n) vs h = inr (suffix-After n (values n) vs refl h)

  suffix-skip :
      (n : ℕ) (vs rest : List Value)
      → skip n vs ≡ some rest
      → starts_valid as_text upper to_int rest ≡ true
      → suffix (valid as_text upper to_int vs) n ≡ true
  suffix-skip n vs rest e h =
      suffix-valid as_text upper to_int n vs ∙ ap (skipped as_text upper to_int) e ∙ h

  at_width : (n : ℕ) (l : List Bool) (k : ℕ) → n ≡ k → suffix l n ≡ true → suffix l k ≡ true
  at_width n l k e h = cc

  or_left : (x y : Bool) → x ≡ true → (x || y) ≡ true
  or_left x y h = ap (λ c. c || y) h

  or_right : (x y : Bool) → y ≡ true → (x || y) ≡ true
  or_right true y h = refl
  or_right false y h = h

  payload-Takes :
      (n : ℕ) (x : Value) (vs rest : List Value) (text_there option_there : Bool)
      → is_text x ≡ text_there
      → is_option as_text upper to_int x ≡ option_there
      → Takes as_text upper to_int payload (x ∷ vs) n
      → suffix (valid as_text upper to_int (x ∷ vs)) n ≡ true
      → (if text_there && option_there
          then suffix (valid as_text upper to_int (x ∷ vs)) 0
          else if option_there
          then suffix (valid as_text upper to_int (x ∷ vs)) 0
            || suffix (valid as_text upper to_int (x ∷ vs)) 1
          else suffix (valid as_text upper to_int (x ∷ vs)) 1)
        ≡ true
  payload-Takes n x vs rest true true et eo (inl (e, a)) h = at_width _ _ 0 e h
  payload-Takes n x vs rest true true et eo (inr (e, a)) h = absurd cc
  payload-Takes n x vs rest true false et eo (inl (e, a)) h = absurd cc
  payload-Takes n x vs rest false false et eo (inl (e, a)) h = absurd cc
  payload-Takes n x vs rest true false et eo (inr (e, a)) h = at_width _ _ 1 e h
  payload-Takes n x vs rest false false et eo (inr (e, a)) h = at_width _ _ 1 e h
  payload-Takes n x vs rest false true et eo (inl (e, a)) h = or_left _ _ (at_width _ _ 0 e h)
  payload-Takes n x vs rest false true et eo (inr (e, a)) h = or_right _ _ (at_width _ _ 1 e h)

  by_rule-Takes :
      (r : Rule) (n : ℕ) (vs rest : List Value)
      → Takes as_text upper to_int r vs n
      → skip n vs ≡ some rest
      → starts_valid as_text upper to_int rest ≡ true
      → by_rule as_text upper to_int r vs (valid as_text upper to_int vs) ≡ true
  unfolding payload_valid
  by_rule-Takes items n vs rest t e h = absurd t
  by_rule-Takes no_option n vs rest t e h = absurd t
  by_rule-Takes flag n vs rest t e h = at_width _ _ 0 t (suffix-skip n vs rest e h)
  by_rule-Takes payload n [] rest t e h = refl
  by_rule-Takes payload n (x ∷ vs) rest t e h =
      payload-Takes n x vs rest (is_text x) (is_option as_text upper to_int x) refl refl t
        (suffix-skip n (x ∷ vs) rest e h)
  by_rule-Takes partitions n vs rest (count, e', w) e h =
      ap (λ o. partitions_valid as_text upper to_int o (valid as_text upper to_int vs)) e'
      ∙ at_width _ _ (suc count) w (suffix-skip n vs rest e h)
  by_rule-Takes (values k) n vs rest t e h = at_width _ _ k t (suffix-skip n vs rest e h)

  -- Suffixes of at most `fuel` arguments that pass the test are in the grammar.
  pub valid-Valid :
      (fuel : ℕ) (l : List Value)
      → length l ≤ fuel
      → starts_valid as_text upper to_int l ≡ true
      → Valid as_text upper to_int l
  valid-Valid fuel [] b h = done
  valid-Valid zero (v ∷ vs) b h = absurd (omega (arith, b))
  valid-Valid (suc fuel) (v ∷ vs) b h =
      elim (by_rule-After (rule (token as_text upper to_int v)) vs
        (sym (starts_valid-rule as_text upper to_int v vs) ∙ h)) [
          | inl e ↦ at_items e
          | inr (n, rest, t, e, k) ↦
              behind n t e (valid-Valid fuel rest (omega (arith, b, skip-length n vs rest e)) k)
        ]

  pub Valid-valid :
      (l : List Value) → Valid as_text upper to_int l → starts_valid as_text upper to_int l ≡ true
  Valid-valid [] v = valid-end
  Valid-valid (v ∷ vs) (at_items e) =
      starts_valid-rule as_text upper to_int v vs
      ∙ ap (λ r. by_rule as_text upper to_int r vs (valid as_text upper to_int vs)) e
  Valid-valid (v ∷ vs) (behind {rest = rest} n t e k) =
      starts_valid-rule as_text upper to_int v vs
      ∙ by_rule-Takes (rule (token as_text upper to_int v)) n vs rest t e (Valid-valid rest k)

  -- `suffix_is_valid` holds exactly where so many arguments are there and those behind them are in the grammar:
  -- options, each with the arguments it takes, up to the end or to the items.
  pub suffix_is_valid-Valid :
      (args : List Value) (start : ℕ)
      → (suffix_is_valid as_text upper to_int args start ≡ true)
        ↔ ((rest : List Value) × (skip start args ≡ some rest) × Valid as_text upper to_int rest)
  unfolding suffix_is_valid
  suffix_is_valid-Valid args start = (
    λ h.
        let (rest, e, k) =
          skipped-some (skip start args) (sym (suffix-valid as_text upper to_int start args) ∙ h) in
        (rest, e, valid-Valid (length rest) rest (omega arith) k),
    λ (rest, e, k). suffix-skip start args rest e (Valid-valid rest k),
  )
