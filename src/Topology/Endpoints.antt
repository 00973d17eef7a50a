-- ===== src/Topology/Endpoints.antt =====
-- `ControlEndpointSelector` of `topology_core.py`: the order in which control endpoints are tried.
-- Addresses are any type with a test of equality.
use ferricstore_python.Base.{
  ◌≡◌, refl, ◌∙◌, Bool, true, false, Option, none, some, List, [], ◌∷◌, ◌++◌, if◌then◌else◌, arith,
  Bool-cases, inl, inr,
}
use ferricstore_python.Base.Assoc.{Eq, beq_refl}

pub record Selector (U : Type 0) : Type 0 where
  pub seed_urls : List U
  pub last_good_url : Option U

module _ {U : Type 0} ⦃e : Eq U⦄ where
  unfoldable pub contains : U → List U → Bool
  contains u [] = false
  contains u (x ∷ xs) = if e.beq x u then true else contains u xs

  unfoldable pub remove : U → List U → List U
  remove u [] = []
  remove u (x ∷ xs) = let rest = remove u xs in if e.beq x u then rest else x ∷ rest

  -- `dict.fromkeys`: the first occurrence of each, in order.
  unfoldable pub fromkeys : List U → List U
  unfolding remove
  fromkeys [] = []
  fromkeys (x ∷ xs) = x ∷ remove x (fromkeys xs)

  unfoldable pub selector : List U → Selector U
  unfolding fromkeys
  selector urls = record { seed_urls = fromkeys urls; last_good_url = none }

  unfoldable pub mark_success : U → Selector U → Selector U
  mark_success u s = record s { last_good_url = some u }

  abbrev pub preferred : Option U → List U
  preferred none = []
  preferred (some u) = u ∷ []

  unfoldable pub candidates : Selector U → List U → List U
  unfolding fromkeys
  candidates s discovered = fromkeys (preferred s.last_good_url ++ (s.seed_urls ++ discovered))

  abbrev pub IsNodup : List U → Type 0
  IsNodup [] = Unit
  IsNodup (x ∷ xs) = (contains x xs ≡ false) × IsNodup xs

  contains-remove :
      (u v : U) (xs : List U)
      → contains v (remove u xs) ≡ (if e.beq u v then false else contains v xs)
  unfolding contains remove
  contains-remove u v [] = ground arith
  contains-remove u v (x ∷ xs) =
      ground (arith, e.beq_iff u v, e.beq_iff x u, e.beq_iff x v, contains-remove u v xs)

  contains-fromkeys : (v : U) (xs : List U) → contains v (fromkeys xs) ≡ contains v xs
  unfolding contains fromkeys
  contains-fromkeys v [] = refl
  contains-fromkeys v (x ∷ xs) =
      ground (arith, contains-remove x v (fromkeys xs), contains-fromkeys v xs)

  remove-IsNodup : (u : U) (xs : List U) → IsNodup xs → IsNodup (remove u xs)
  unfolding remove
  remove-IsNodup u [] h = tt
  remove-IsNodup u (x ∷ xs) h = elim (Bool-cases (e.beq x u)) [
    | inl same ↦ rw same (remove-IsNodup u xs h.1)
    | inr other ↦ rw other (absent x h.0, remove-IsNodup u xs h.1)
  ]
    where
      absent : (x : U) → contains x xs ≡ false → contains x (remove u xs) ≡ false
      absent x h = contains-remove u x xs ∙ ground arith

  fromkeys-IsNodup : (xs : List U) → IsNodup (fromkeys xs)
  unfolding fromkeys
  fromkeys-IsNodup [] = tt
  fromkeys-IsNodup (x ∷ xs) = (
    contains-remove x x (fromkeys xs) ∙ rw beq_refl refl,
    remove-IsNodup x (fromkeys xs) (fromkeys-IsNodup xs),
  )

  -- Where a call has succeeded, its endpoint is the first candidate, each candidate stands once, and the
  -- candidates are exactly that endpoint, the seeds and the discovered endpoints.
  pub candidates-mark_success :
      (s : Selector U) (u : U) (discovered : List U)
      → ((rest : List U) × (candidates (mark_success u s) discovered ≡ u ∷ rest))
        × IsNodup (candidates (mark_success u s) discovered)
        × ((v : U)
            → contains v (candidates (mark_success u s) discovered)
              ≡ contains v (u ∷ (s.seed_urls ++ discovered)))
  unfolding candidates mark_success
  candidates-mark_success s u discovered = (
    (unfold fromkeys in (_, refl)),
    fromkeys-IsNodup (u ∷ (s.seed_urls ++ discovered)),
    λ v. contains-fromkeys v (u ∷ (s.seed_urls ++ discovered)),
  )
