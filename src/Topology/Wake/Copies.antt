-- ===== src/Topology/Wake/Copies.antt =====
-- `FlowWakeSubscriptionRegistry` of `topology_core.py`: its filter, while the callers change their lists.
use ferricstore_python.Base.{
  ℕ, suc, ◌≡◌, ◌≢◌, ◌≤◌, ◌<◌, ◌⊎◌, inl, inr, refl, ap, ◌∙◌, Bool, true, false, List, [], ◌∷◌, ◌==◌,
  ==_iff, ==_refl, if◌then◌else◌, if_true, All, arith,
}
use ferricstore_python.Topology.Wake.{
  Store, Argument, plain, listed, Content, one, many, put, copy_kwargs, contents,
}

module _ {V : Type 0} where
  -- An argument whose list is at an address below `n`, and one whose list is at one from `m` on.
  abbrev pub Below : ℕ → Argument V → Type 0
  Below n (plain v) = Unit
  Below n (listed a) = a < n

  abbrev pub From : ℕ → Argument V → Type 0
  From m (plain v) = Unit
  From m (listed a) = m ≤ a

  -- The callers set lists, new ones included.
  abbrev pub write_all : List (ℕ × List V) → (ℕ → List V) → ℕ → List V
  write_all [] lists = lists
  write_all ((a, vs) ∷ ws) lists = write_all ws (put a vs lists)

  -- None of the lists between.
  abbrev pub Outside : ℕ → ℕ → List (ℕ × List V) → Type 0
  Outside m n [] = Unit
  Outside m n ((a, vs) ∷ ws) = ((a < m) ⊎ (n ≤ a)) × Outside m n ws

  put-other : (a b : ℕ) (vs : List V) (f : ℕ → List V) → a ≢ b → put a vs f b ≡ f b
  put-other a b vs f h = go (a == b) refl
    where
      go : (c : Bool) → (a == b) ≡ c → (if c then vs else f b) ≡ f b
      go true e = absurd (h ((==_iff a b).0 e))
      go false e = refl

  put-same : (a : ℕ) (vs : List V) (f : ℕ → List V) → put a vs f a ≡ vs
  put-same a vs f = if_true (a == a) vs (f a) (==_refl a)

  pub write_all-other :
      (m n b : ℕ) (ws : List (ℕ × List V)) (f : ℕ → List V)
      → Outside m n ws
      → m ≤ b
      → b < n
      → write_all ws f b ≡ f b
  write_all-other m n b [] f h from below = refl
  write_all-other m n b ((a, vs) ∷ ws) f (h, hs) from below =
      write_all-other m n b ws (put a vs f) hs from below ∙ put-other a b vs f (apart h)
    where
      apart : (a < m) ⊎ (n ≤ a) → a ≢ b
      apart (inl l) e = absurd (omega (arith, l, from, e))
      apart (inr l) e = absurd (omega (arith, l, below, e))

  abbrev with_copy : ℕ → Store V → Store V
  with_copy a s = record { next = suc s.next; lists = put s.next (s.lists a) s.lists }

  module _ {K : Type 0} where
    abbrev pub AllBelow : ℕ → List (K × Argument V) → Type 0
    AllBelow n kwargs = All (λ p. Below n p.1) kwargs

    abbrev pub AllFrom : ℕ → List (K × Argument V) → Type 0
    AllFrom m kwargs = All (λ p. From m p.1) kwargs

    -- Arguments are the same under stores that agree on their lists.
    pub contents-agree :
        (m n : ℕ) (f g : ℕ → List V) (kwargs : List (K × Argument V))
        → AllFrom m kwargs
        → AllBelow n kwargs
        → ((b : ℕ) → m ≤ b → b < n → f b ≡ g b)
        → contents f kwargs ≡ contents g kwargs
    contents-agree m n f g [] from below h = refl
    contents-agree m n f g ((k, plain v) ∷ kwargs) (l, from) (b, below) h =
        ap (λ (xs : List (K × Content V)). (k, one v) ∷ xs)
          (contents-agree m n f g kwargs from below h)
    contents-agree m n f g ((k, listed a) ∷ kwargs) (l, from) (b, below) h =
        ap (λ (vs : List V). (k, many vs) ∷ contents f kwargs) (h a l b)
        ∙ ap (λ (xs : List (K × Content V)). (k, many (g a)) ∷ xs)
            (contents-agree m n f g kwargs from below h)

    AllFrom-zero : (kwargs : List (K × Argument V)) → AllFrom 0 kwargs
    AllFrom-zero [] = tt
    AllFrom-zero ((k, plain v) ∷ kwargs) = (tt, AllFrom-zero kwargs)
    AllFrom-zero ((k, listed a) ∷ kwargs) = (omega arith, AllFrom-zero kwargs)

    AllFrom-less :
        (m n : ℕ) (kwargs : List (K × Argument V)) → m ≤ n → AllFrom n kwargs → AllFrom m kwargs
    AllFrom-less m n [] h l = tt
    AllFrom-less m n ((k, plain v) ∷ kwargs) h (l, ls) = (tt, AllFrom-less m n kwargs h ls)
    AllFrom-less m n ((k, listed a) ∷ kwargs) h (l, ls) =
        (omega (arith, l, h), AllFrom-less m n kwargs h ls)

    pub AllBelow-more :
        (m n : ℕ) (kwargs : List (K × Argument V)) → m ≤ n → AllBelow m kwargs → AllBelow n kwargs
    AllBelow-more m n [] h l = tt
    AllBelow-more m n ((k, plain v) ∷ kwargs) h (l, ls) = (tt, AllBelow-more m n kwargs h ls)
    AllBelow-more m n ((k, listed a) ∷ kwargs) h (l, ls) =
        (omega (arith, l, h), AllBelow-more m n kwargs h ls)

    -- The copy is what was copied, in new lists, and the old lists stay.
    pub record Copied (kwargs copy : List (K × Argument V)) (s t : Store V) : Type 0 where
      pub content_kept : contents t.lists copy ≡ contents s.lists kwargs
      pub new : AllFrom s.next copy
      pub ended : AllBelow t.next copy
      pub grown : s.next ≤ t.next
      pub old_kept : (b : ℕ) → b < s.next → t.lists b ≡ s.lists b

    cons-Copied :
        (k : K) (a : ℕ) (kwargs : List (K × Argument V)) (s : Store V)
        → AllBelow s.next kwargs
        → Copied kwargs
            (copy_kwargs kwargs (with_copy a s)).0
            (with_copy a s)
            (copy_kwargs kwargs (with_copy a s)).1
        → Copied
            ((k, listed a) ∷ kwargs)
            ((k, listed s.next) ∷ (copy_kwargs kwargs (with_copy a s)).0)
            s
            (copy_kwargs kwargs (with_copy a s)).1
    cons-Copied k a kwargs s hs c = record {
      content_kept =
          ap (λ (vs : List V). (k, many vs) ∷ contents t.lists rest) first
          ∙ ap (λ (xs : List (K × Content V)). (k, many (s.lists a)) ∷ xs)
              (c.content_kept
                ∙ contents-agree 0 s.next s1.lists s.lists kwargs (AllFrom-zero kwargs) hs
                    (λ b z l. kept b l));
      new = (omega arith, AllFrom-less s.next (suc s.next) rest (omega arith) c.new);
      ended = (omega (arith, c.grown), c.ended);
      grown = omega (arith, c.grown);
      old_kept = λ b l. c.old_kept b (omega (arith, l)) ∙ kept b l;
    }
      where
        s1 : Store V
        s1 = with_copy a s

        rest : List (K × Argument V)
        rest = (copy_kwargs kwargs s1).0

        t : Store V
        t = (copy_kwargs kwargs s1).1

        kept : (b : ℕ) → b < s.next → s1.lists b ≡ s.lists b
        kept b l = put-other s.next b (s.lists a) s.lists (λ e. absurd (omega (arith, l, e)))

        first : t.lists s.next ≡ s.lists a
        first = c.old_kept s.next (omega arith) ∙ put-same s.next (s.lists a) s.lists

    pub copy_kwargs-Copied :
        (kwargs : List (K × Argument V)) (s : Store V)
        → AllBelow s.next kwargs
        → Copied kwargs (copy_kwargs kwargs s).0 s (copy_kwargs kwargs s).1
    unfolding copy_kwargs
    copy_kwargs-Copied [] s h = record {
      content_kept = refl;
      new = tt;
      ended = tt;
      grown = omega arith;
      old_kept = λ b l. refl;
    }
    copy_kwargs-Copied ((k, plain v) ∷ kwargs) s (h, hs) =
        let c = copy_kwargs-Copied kwargs s hs in
        record {
          content_kept = ap (λ (xs : List (K × Content V)). (k, one v) ∷ xs) c.content_kept;
          new = (tt, c.new);
          ended = (tt, c.ended);
          grown = c.grown;
          old_kept = c.old_kept;
        }
    copy_kwargs-Copied ((k, listed a) ∷ kwargs) s (h, hs) = cons-Copied k a kwargs s hs (
        copy_kwargs-Copied kwargs (with_copy a s)
          (AllBelow-more s.next (suc s.next) kwargs (omega arith) hs))
