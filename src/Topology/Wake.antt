-- ===== src/Topology/Wake.antt =====
-- `FlowWakeSubscriptionRegistry` of `topology_core.py`: the one wake filter that is active. Lists are objects
-- that their owners may change in place, so they stand in a store, and a keyword argument that is a list is
-- an address in it. What else an argument may be is a value, as are the positional arguments, which the
-- source does not copy. The elements of lists are values.
pub mod Copies
pub mod Kept
use ferricstore_python.Base.{
  ℕ, zero, suc, Bool, true, false, not, ◌&&◌, Option, none, some, List, [], ◌∷◌, length, ◌==◌,
  if◌then◌else◌,
}
use ferricstore_python.Base.Assoc.{Eq, lookup}

pub record Store (V : Type 0) : Type 0 where
  pub next : ℕ
  pub lists : ℕ → List V

pub data Argument (V : Type 0) : Type 0 where
  plain : V → Argument V
  listed : ℕ → Argument V

-- What an argument is at one moment.
pub data Content (V : Type 0) : Type 0 where
  one : V → Content V
  many : List V → Content V

-- `FlowWakeSubscription`
pub record Subscription (A K V : Type 0) : Type 0 where
  pub args : A
  pub kwargs : List (K × Argument V)

pub record Registry (A K V : Type 0) : Type 0 where
  pub item : Option (Subscription A K V)

module _ {V : Type 0} where
  abbrev pub put : ℕ → List V → (ℕ → List V) → ℕ → List V
  put a vs f b = if a == b then vs else f b

  -- `list(value) if isinstance(value, list) else value`
  unfoldable pub copy_value : Argument V → Store V → Argument V × Store V
  copy_value (plain v) s = (plain v, s)
  copy_value (listed a) s =
      (listed s.next, record { next = suc s.next; lists = put s.next (s.lists a) s.lists })

  abbrev pub content : (ℕ → List V) → Argument V → Content V
  content lists (plain v) = one v
  content lists (listed a) = many (lists a)

  module _ {K : Type 0} where
    unfoldable pub copy_kwargs : List (K × Argument V) → Store V → List (K × Argument V) × Store V
    unfolding copy_value
    copy_kwargs [] s = ([], s)
    copy_kwargs ((k, x) ∷ kwargs) s =
        let copied = copy_value x s in
        let rest = copy_kwargs kwargs copied.1 in ((k, copied.0) ∷ rest.0, rest.1)

    abbrev pub contents : (ℕ → List V) → List (K × Argument V) → List (K × Content V)
    contents lists [] = []
    contents lists ((k, x) ∷ kwargs) = (k, content lists x) ∷ contents lists kwargs

    module _ {A : Type 0} where
      unfoldable pub snapshot : Registry A K V → List (Subscription A K V)
      snapshot r = elim r.item [ none ↦ [] | some i ↦ i ∷ [] ]

module _ {V : Type 0} ⦃e : Eq V⦄ where
  -- `==` on what the arguments are.
  unfoldable pub same_list : List V → List V → Bool
  same_list [] [] = true
  same_list (v ∷ vs) (w ∷ ws) = e.beq v w && same_list vs ws
  same_list _ _ = false

  unfoldable pub same_content : Content V → Option (Content V) → Bool
  unfolding same_list
  same_content (one v) (some (one w)) = e.beq v w
  same_content (many vs) (some (many ws)) = same_list vs ws
  same_content _ _ = false

  module _ {K : Type 0} ⦃k : Eq K⦄ where
    abbrev pub all_in : List (K × Content V) → List (K × Content V) → Bool
    all_in [] ys = true
    all_in ((key, x) ∷ xs) ys = same_content x (lookup key ys) && all_in xs ys

    unfoldable pub same_dict : List (K × Content V) → List (K × Content V) → Bool
    unfolding same_content lookup
    same_dict xs ys = length xs == length ys && all_in xs ys

    module _ {A : Type 0} ⦃a : Eq A⦄ where
      abbrev pub same : A × List (K × Content V) → A × List (K × Content V) → Bool
      same (args, xs) (brgs, ys) = a.beq args brgs && same_dict xs ys

      abbrev pub described : (ℕ → List V) → Subscription A K V → A × List (K × Content V)
      described lists i = (i.args, contents lists i.kwargs)

      -- `item != self._item`
      abbrev pub differs : (ℕ → List V) → Subscription A K V → Option (Subscription A K V) → Bool
      differs lists i none = true
      differs lists i (some j) = not (same (described lists i) (described lists j))

      unfoldable pub remember :
          A → List (K × Argument V) → Registry A K V → Store V → Bool × Registry A K V × Store V
      unfolding copy_kwargs same_dict
      remember args kwargs r s =
          let copied = copy_kwargs kwargs s in
          let i : Subscription A K V = record { args = args; kwargs = copied.0 } in
          (differs copied.1.lists i r.item, record { item = some i }, copied.1)
