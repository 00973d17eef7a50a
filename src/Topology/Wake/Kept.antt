-- ===== src/Topology/Wake/Kept.antt =====
-- `FlowWakeSubscriptionRegistry` of `topology_core.py`: what it remembers, however lists change behind it.
use ferricstore_python.Base.{ℕ, ◌≡◌, ◌≤◌, ap, ◌∙◌, not, List, [], ◌∷◌, arith}
use ferricstore_python.Base.Assoc.{Eq}
use ferricstore_python.Topology.Wake.{
  Store, Argument, Content, Subscription, Registry, copy_kwargs, contents, snapshot, same,
  described, remember,
}
use ferricstore_python.Topology.Wake.Copies.{
  AllBelow, Copied, write_all, Outside, write_all-other, contents-agree, copy_kwargs-Copied,
}

module _ {V : Type 0} where
  -- The store after the callers have set lists of theirs and made new ones.
  abbrev pub rewritten : List (ℕ × List V) → ℕ → Store V → Store V
  rewritten ws next s = record { next = next; lists = write_all ws s.lists }

module _ {A K V : Type 0} ⦃a : Eq A⦄ ⦃k : Eq K⦄ ⦃v : Eq V⦄ where
  -- The store after `remember`.
  abbrev pub behind : A → List (K × Argument V) → Registry A K V → Store V → Store V
  behind args kwargs r s = (remember args kwargs r s).2

  abbrev pub describe_all :
      (ℕ → List V) → List (Subscription A K V) → List (A × List (K × Content V))
  describe_all lists [] = []
  describe_all lists (i ∷ is) = described lists i ∷ describe_all lists is

  -- The filter that is remembered stays as it was when it was given, whatever lists the callers change or make
  -- afterwards: it is the whole snapshot, with the contents that its lists had then. And the next
  -- `remember` reports a change exactly if the filter given now is not the same as that one. The lists
  -- that are given exist, and the registry's own copies are not handed out.
  pub remember-snapshot :
      (r : Registry A K V) (s : Store V) (args brgs : A) (kwargs lwargs : List (K × Argument V))
      (ws : List (ℕ × List V)) (next : ℕ)
      → AllBelow s.next kwargs
      → Outside s.next (behind args kwargs r s).next ws
      → (behind args kwargs r s).next ≤ next
      → AllBelow next lwargs
      → (describe_all
            (rewritten ws next (behind args kwargs r s)).lists
            (snapshot (remember args kwargs r s).1)
          ≡ (args, contents s.lists kwargs) ∷ [])
        × ((remember brgs lwargs
              (remember args kwargs r s).1
              (rewritten ws next (behind args kwargs r s))).0
            ≡ not (
                same
                  (brgs, contents (rewritten ws next (behind args kwargs r s)).lists lwargs)
                  (args, contents s.lists kwargs)))
  unfolding remember snapshot
  remember-snapshot r s args brgs kwargs lwargs ws next below outside grown below' = (
    ap (λ (xs : List (K × Content V)). (args, xs) ∷ []) written,
    ap (λ (xs : List (K × Content V)). not (same (brgs, xs) (args, contents u.lists copy)))
          d.content_kept
        ∙ ap
            (λ (xs : List (K × Content V)).
              not (same (brgs, contents (write_all ws t.lists) lwargs) (args, xs)))
            (later ∙ written),
  )
    where
      copy : List (K × Argument V)
      copy = (copy_kwargs kwargs s).0

      t : Store V
      t = (copy_kwargs kwargs s).1

      w : Store V
      w = rewritten ws next t

      u : Store V
      u = (copy_kwargs lwargs w).1

      c : Copied kwargs copy s t
      c = copy_kwargs-Copied kwargs s below

      d : Copied lwargs (copy_kwargs lwargs w).0 w u
      d = copy_kwargs-Copied lwargs w below'

      written : contents (write_all ws t.lists) copy ≡ contents s.lists kwargs
      written =
          contents-agree s.next t.next (write_all ws t.lists) t.lists copy c.new c.ended
            (λ b from less. write_all-other s.next t.next b ws t.lists outside from less)
          ∙ c.content_kept

      later : contents u.lists copy ≡ contents (write_all ws t.lists) copy
      later =
          contents-agree s.next t.next u.lists (write_all ws t.lists) copy c.new c.ended
            (λ b from less. d.old_kept b (omega (arith, less, grown)))
