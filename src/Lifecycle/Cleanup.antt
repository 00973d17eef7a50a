-- ===== src/Lifecycle/Cleanup.antt =====
-- `lifecycle_core.py`: closing several resources, of which any may raise. A resource's close is a function on a
-- state of any type, with the error that it raises; the cause of an error is kept beside it.
use ferricstore_python.Base.{
  ◌≡◌, refl, sym, ap, ◌∙◌, Option, none, some, List, [], ◌∷◌, ◌++◌, append_assoc, append_nil,
}

-- An error and the errors that are its cause, one of the other.
pub data Chained (E : Type 0) : Type 0 where
  alone : E → Chained E
  caused : E → Chained E → Chained E

abbrev pub Close : Type 0 → Type 0 → Type 0
Close S E = S → S × Option E

module _ {E : Type 0} where
  -- `_chain_cleanup_errors`, which walks the errors from the last to the first.
  abbrev pub chain : E → List E → Chained E
  chain e [] = alone e
  chain e (f ∷ fs) = caused e (chain f fs)

  abbrev pub chain_errors : List E → Option (Chained E)
  chain_errors [] = none
  chain_errors (e ∷ es) = some (chain e es)

  abbrev pub present : List (Option E) → List E
  present [] = []
  present (none ∷ os) = present os
  present (some e ∷ os) = e ∷ present os

  -- `chain_cleanup_errors`
  unfoldable pub chain_cleanup_errors : List (Option E) → Option (Chained E)
  chain_cleanup_errors errors = chain_errors (present errors)

  -- `raise_primary_with_cleanup`
  unfoldable pub raise_primary_with_cleanup : E → Option (Chained E) → Chained E
  raise_primary_with_cleanup primary none = alone primary
  raise_primary_with_cleanup primary (some cleanup) = caused primary cleanup

  -- `_raise_cleanup_errors`
  unfoldable pub raise_cleanup_errors : List E → Option (Chained E)
  unfolding raise_primary_with_cleanup
  raise_cleanup_errors [] = none
  raise_cleanup_errors (e ∷ es) = some (raise_primary_with_cleanup e (chain_errors es))

  abbrev pub add_error : List E → Option E → List E
  add_error errors none = errors
  add_error errors (some e) = errors ++ e ∷ []

  -- The errors of a raised one, from itself to the last cause.
  abbrev pub causes : Option (Chained E) → List E
  causes none = []
  causes (some (alone e)) = e ∷ []
  causes (some (caused e c)) = e ∷ causes (some c)

  add_error-present :
      (errors : List E) (o : Option E) (os : List (Option E))
      → add_error errors o ++ present os ≡ errors ++ present (o ∷ os)
  add_error-present errors none os = refl
  add_error-present errors (some e) os = append_assoc errors (e ∷ []) (present os)

  causes-chain : (e : E) (es : List E) → causes (some (chain e es)) ≡ e ∷ es
  causes-chain e [] = refl
  causes-chain e (f ∷ fs) = ap (λ (l : List E). e ∷ l) (causes-chain f fs)

  causes-raise : (es : List E) → causes (raise_cleanup_errors es) ≡ es
  unfolding raise_cleanup_errors raise_primary_with_cleanup
  causes-raise [] = refl
  causes-raise (e ∷ []) = refl
  causes-raise (e ∷ f ∷ fs) = ap (λ (l : List E). e ∷ l) (causes-chain f fs)

module _ {S E : Type 0} where
  -- The loop of `close_resources_sync`.
  unfoldable pub close_loop : List (Close S E) → S → List E → S × List E
  close_loop [] s errors = (s, errors)
  close_loop (close ∷ closes) s errors =
      close_loop closes (close s).0 (add_error errors (close s).1)

  unfoldable pub close_resources_sync : List (Close S E) → S → S × Option (Chained E)
  unfolding close_loop raise_cleanup_errors
  close_resources_sync closes s =
      ((close_loop closes s []).0, raise_cleanup_errors (close_loop closes s []).1)

  -- All the resources closed one after another, and what each raised.
  abbrev pub all_closed : List (Close S E) → S → S
  all_closed [] s = s
  all_closed (close ∷ closes) s = all_closed closes (close s).0

  abbrev pub all_raised : List (Close S E) → S → List (Option E)
  all_raised [] s = []
  all_raised (close ∷ closes) s = (close s).1 ∷ all_raised closes (close s).0

  close_loop-all :
      (closes : List (Close S E)) (s : S) (errors : List E)
      → close_loop closes s errors ≡ (all_closed closes s, errors ++ present (all_raised closes s))
  unfolding close_loop
  close_loop-all [] s errors = ap (λ (l : List E). (s, l)) (sym (append_nil errors))
  close_loop-all (close ∷ closes) s errors =
      close_loop-all closes (close s).0 (add_error errors (close s).1)
      ∙ ap (λ (l : List E). (all_closed closes (close s).0, l))
          (add_error-present errors (close s).1 (all_raised closes (close s).0))

  -- `close_resources_sync` closes every resource, in order, whichever of them raise, and raises the errors of
  -- all that did, the first one with the others as its chain of causes in the order of the attempts.
  pub close_resources_sync-all :
      (closes : List (Close S E)) (s : S)
      → ((close_resources_sync closes s).0 ≡ all_closed closes s)
        × (causes (close_resources_sync closes s).1 ≡ present (all_raised closes s))
  unfolding close_resources_sync
  close_resources_sync-all closes s =
      let e = close_loop-all closes s [] in
      (
        ap (λ (r : S × List E). r.0) e,
        ap (λ (r : S × List E). causes (raise_cleanup_errors r.1)) e
            ∙ causes-raise (present (all_raised closes s)),
      )
