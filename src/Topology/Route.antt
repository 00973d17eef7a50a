-- ===== src/Topology/Route.antt =====
-- Shard routing of `topology_core.py`: `RouteDecision`, `route_for_keys` and `validate_single_slot`.
-- `slot_for_key` is an argument, as it is in the source. A key is any Python value; only `str` and
-- `bytes` count.
use ferricstore_python.Base.{
  ℕ, ◌≡◌, ◌↔◌, refl, sym, ap, ◌∙◌, Bool, true, false, Option, none, some, List, [], ◌∷◌, ◌==◌,
  if◌then◌else◌, All, ◌⊎◌, Bool-cases, inl, inr, ==_iff,
}
use ferricstore_python.Codec.Value.{Value, Items, nil, cons, text, binary}

-- `RouteDecision`, by its `kind`, with the fields that the kind sets.
pub data Decision : Type 0 where
  control : Decision
  single_shard : Value → ℕ → Decision
  cross_shard : ℕ → ℕ → Decision

pub data Error : Type 0 where
  cross_slot : Error

pub data Result : Type 0 where
  routable : Option Value → Result
  raised : Error → Result

-- `isinstance(key, (str, bytes))`
abbrev pub is_key : Value → Bool
is_key (text s) = true
is_key (binary b) = true
is_key _ = false

-- `RouteDecision.require_routable_key`
unfoldable pub require_routable_key : Decision → Result
require_routable_key control = routable none
require_routable_key (single_shard k slot) = routable (some k)
require_routable_key (cross_shard a b) = raised cross_slot

module _ (slot_for_key : Value → ℕ) where
  -- The loop, with `first_key` and `first_slot`.
  unfoldable pub scan : Items → Option Value → ℕ → Decision
  scan nil none first_slot = control
  scan nil (some k) first_slot = single_shard k first_slot
  scan (cons key keys) none first_slot =
      if is_key key then scan keys (some key) (slot_for_key key) else scan keys none first_slot
  scan (cons key keys) (some first_key) first_slot =
      if is_key key
      then if slot_for_key key == first_slot
        then scan keys (some first_key) first_slot
        else cross_shard first_slot (slot_for_key key)
      else scan keys (some first_key) first_slot

  unfoldable pub route_for_keys : Items → Decision
  unfolding scan
  route_for_keys keys = scan keys none 0

  unfoldable pub validate_single_slot : Items → Result
  unfolding route_for_keys require_routable_key
  validate_single_slot keys = require_routable_key (route_for_keys keys)

-- The keys that count, in order.
abbrev pub textual : Items → List Value
textual nil = []
textual (cons v vs) = if is_key v then v ∷ textual vs else textual vs

abbrev pub first : List Value → Option Value
first [] = none
first (k ∷ ks) = some k

module _ (slot_for_key : Value → ℕ) where
  -- All keys have the slot of the first.
  abbrev pub OneSlot : List Value → Type 0
  OneSlot [] = Unit
  OneSlot (k ∷ ks) = All (λ j. slot_for_key j ≡ slot_for_key k) ks

  scan-cases :
      (keys : Items) (k : Value) (s : ℕ)
      → (All (λ j. slot_for_key j ≡ s) (textual keys)
          × (scan slot_for_key keys (some k) s ≡ single_shard k s))
        ⊎ (¬ All (λ j. slot_for_key j ≡ s) (textual keys)
            × ((t : ℕ) × (scan slot_for_key keys (some k) s ≡ cross_shard s t)))
  unfolding scan
  scan-cases nil k s = inl (tt, refl)
  scan-cases (cons v vs) k s = elim (Bool-cases (is_key v)) [
    | inl key ↦ elim (Bool-cases (slot_for_key v == s)) [
      | inl same ↦
          rw (key, same, scan)
            (elim (scan-cases vs k s) [
              | inl (all, e) ↦ inl (((==_iff _ _).0 same, all), e)
              | inr (not_all, e) ↦ inr ((λ all. not_all all.1), e)
            ])
      | inr other ↦
          rw (key, other, scan)
            (inr (
              (λ all. let impossible : false ≡ true = sym other ∙ (==_iff _ _).1 all.0 in cc),
              (slot_for_key v, refl),
            ))
    ]
    | inr skipped ↦ rw (skipped, scan) (scan-cases vs k s)
  ]

  first-cases :
      (keys : Items) (s : ℕ)
      → (OneSlot (textual keys)
          × (require_routable_key (scan slot_for_key keys none s)
              ≡ routable (first (textual keys))))
        ⊎ (¬ OneSlot (textual keys)
            × (require_routable_key (scan slot_for_key keys none s) ≡ raised cross_slot))
  unfolding scan require_routable_key
  first-cases nil s = inl (tt, refl)
  first-cases (cons v vs) s = elim (Bool-cases (is_key v)) [
    | inl key ↦
        rw (key, scan)
          (elim (scan-cases vs v (slot_for_key v)) [
            | inl (all, e) ↦ inl (all, ap require_routable_key e)
            | inr (not_all, (t, e)) ↦ inr (not_all, ap require_routable_key e)
          ])
    | inr skipped ↦ rw (skipped, scan) (first-cases vs s)
  ]

  -- `validate_single_slot` returns a value exactly if all the text and bytes keys have one slot and the
  -- value is the first of them, or None where there is none; and it raises exactly if two of them differ
  -- in their slot. Other values among the keys are skipped.
  pub validate_single_slot-exact :
      (keys : Items)
      → ((o : Option Value)
          → (validate_single_slot slot_for_key keys ≡ routable o)
            ↔ (OneSlot (textual keys) × (first (textual keys) ≡ o)))
        × ((validate_single_slot slot_for_key keys ≡ raised cross_slot) ↔ ¬ OneSlot (textual keys))
  unfolding validate_single_slot
  validate_single_slot-exact keys = elim (first-cases keys 0) [
    | inl (one, e) ↦ (
      λ o. ((λ h. (one, routable-inj (sym e ∙ h))), λ h. e ∙ ap routable h.1),
      ((λ h. absurd (routable-raised (sym e ∙ h))), λ not_one. absurd (not_one one)),
    )
    | inr (not_one, e) ↦ (
      λ o. ((λ h. absurd (routable-raised (sym h ∙ e))), λ h. absurd (not_one h.0)),
      ((λ h. not_one), λ h. e),
    )
  ]
    where
      routable-inj : {a b : Option Value} → routable a ≡ routable b → a ≡ b
      routable-inj e = cc

      routable-raised : {a : Option Value} {e : Error} → ¬ (routable a ≡ raised e)
      routable-raised e = cc
