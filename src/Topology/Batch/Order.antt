-- ===== src/Topology/Batch/Order.antt =====
-- `RouteBatchPlan` of `topology_core.py`: the order of the results.
use ferricstore_python.Base.{
  ℕ, zero, suc, ◌+◌, ◌<◌, ◌≡◌, refl, sym, ap, ◌∙◌, Option, none, some, List, [], ◌∷◌, ◌++◌, length,
  set, replicate, ◌==◌, map, All, length-append, arith, Bool-cases, inl, inr, ==_refl,
}
use mathlib.Core.List.{map-append, append_assoc}
use ferricstore_python.Topology.Batch.{Group, join, build_from, build, scatter, merge_groups, merge}

module _ {A : Type 0} where
  set_comm : (xs : List A) (i j : ℕ) (v w : A) → i < j → set (set xs i v) j w ≡ set (set xs j w) i v
  set_comm [] i j v w h = refl
  set_comm (x ∷ xs) zero zero v w h = absurd (omega arith)
  set_comm (x ∷ xs) zero (suc j) v w h = refl
  set_comm (x ∷ xs) (suc i) zero v w h = absurd (omega arith)
  set_comm (x ∷ xs) (suc i) (suc j) v w h =
      ap (λ (l : List A). x ∷ l) (set_comm xs i j v w (omega arith))

  set-append : (xs ys : List A) (y v : A) → set (xs ++ y ∷ ys) (length xs) v ≡ xs ++ v ∷ ys
  set-append [] ys y v = refl
  set-append (x ∷ xs) ys y v = ap (λ (l : List A). x ∷ l) (set-append xs ys y v)

module _ {V : Type 0} where
  scatter-set :
      (is : List ℕ) (vs : List V) (r : List (Option V)) (n : ℕ) (v : Option V)
      → All (λ i. i < n) is
      → scatter is vs (set r n v) ≡ set (scatter is vs r) n v
  unfolding scatter
  scatter-set [] vs r n v h = refl
  scatter-set (i ∷ is) [] r n v h = refl
  scatter-set (i ∷ is) (w ∷ vs) r n v (hi, h) =
      ap (scatter is vs) (sym (set_comm r i n (some w) v hi))
      ∙ scatter-set is vs (set r i (some w)) n v h

  scatter-append :
      (is : List ℕ) (vs : List V) (r : List (Option V)) (n : ℕ) (v : V)
      → length is ≡ length vs
      → scatter (is ++ n ∷ []) (vs ++ v ∷ []) r ≡ set (scatter is vs r) n (some v)
  unfolding scatter
  scatter-append [] [] r n v h = refl
  scatter-append [] (w ∷ vs) r n v h = absurd (omega arith)
  scatter-append (i ∷ is) [] r n v h = absurd (omega arith)
  scatter-append (i ∷ is) (w ∷ vs) r n v h =
      scatter-append is vs (set r i (some w)) n v (omega arith)

-- As many indexes as commands, and every index below the next one.
abbrev Fits : {C : Type 0} → ℕ → List (Group C) → Type 0
Fits n [] = Unit
Fits n (g ∷ gs) = (length g.indexes ≡ length g.commands) × All (λ i. i < n) g.indexes × Fits n gs

module _ {C V : Type 0} (run : C → V) where
  -- What the targets return, group by group.
  abbrev pub answers : List (Group C) → List (List V)
  answers [] = []
  answers (g ∷ gs) = map run g.commands ∷ answers gs

  -- The merge without its checks.
  fill : List (Group C) → List (Option V) → List (Option V)
  fill [] r = r
  fill (g ∷ gs) r = fill gs (scatter g.indexes (map run g.commands) r)

  fill-set :
      (gs : List (Group C)) (r : List (Option V)) (n : ℕ) (v : Option V)
      → Fits n gs
      → fill gs (set r n v) ≡ set (fill gs r) n v
  unfolding fill
  fill-set [] r n v h = refl
  fill-set (g ∷ gs) r n v (e, below, h) =
      ap (fill gs) (scatter-set g.indexes (map run g.commands) r n v below) ∙ fill-set gs _ n v h

  length-run : (cs : List C) → length (map run cs) ≡ length cs
  length-run [] = refl
  length-run (c ∷ cs) = ap suc (length-run cs)

  scatter-joined :
      (g : Group C) (n : ℕ) (c : C) (r : List (Option V))
      → length g.indexes ≡ length g.commands
      → scatter (g.indexes ++ n ∷ []) (map run (g.commands ++ c ∷ [])) r
        ≡ set (scatter g.indexes (map run g.commands) r) n (some (run c))
  scatter-joined g n c r e =
      rw map-append (
        scatter-append g.indexes (map run g.commands) r n (run c) (e ∙ sym (length-run g.commands)))

  fill-join :
      (gs : List (Group C)) (key n : ℕ) (c : C) (r : List (Option V))
      → Fits n gs
      → fill (join key n c gs) r ≡ set (fill gs r) n (some (run c))
  unfolding fill join scatter
  fill-join [] key n c r h = refl
  fill-join (g ∷ gs) key n c r (e, below, h) = elim (Bool-cases (g.target == key)) [
    | inl same ↦ rw same (ap (fill gs) (scatter-joined g n c r e) ∙ fill-set gs _ n _ h)
    | inr other ↦ rw other (fill-join gs key n c _ h)
  ]

  All-below : (is : List ℕ) (n : ℕ) → All (λ i. i < n) is → All (λ i. i < n + 1) is
  All-below [] n h = tt
  All-below (i ∷ is) n h = (omega arith, All-below is n h.1)

  All-snoc : (is : List ℕ) (n : ℕ) → All (λ i. i < n) is → All (λ i. i < n + 1) (is ++ n ∷ [])
  All-snoc [] n h = (omega arith, tt)
  All-snoc (i ∷ is) n h = (omega arith, All-snoc is n h.1)

  Fits-suc : (gs : List (Group C)) (n : ℕ) → Fits n gs → Fits (n + 1) gs
  Fits-suc [] n h = tt
  Fits-suc (g ∷ gs) n (e, below, h) = (e, All-below g.indexes n below, Fits-suc gs n h)

  Fits-join : (gs : List (Group C)) (key n : ℕ) (c : C) → Fits n gs → Fits (n + 1) (join key n c gs)
  unfolding join
  Fits-join [] key n c h = (refl, (omega arith, tt), tt)
  Fits-join (g ∷ gs) key n c (e, below, h) = elim (Bool-cases (g.target == key)) [
    | inl same ↦ rw same (
      omega (arith, e, length-append g.indexes (n ∷ []), length-append g.commands (c ∷ [])),
      All-snoc g.indexes n below,
      Fits-suc gs n h,
    )
    | inr other ↦ rw other (e, All-below g.indexes n below, Fits-join gs key n c h)
  ]

  -- The checks of `merge_groups` pass on the answers, which leaves `fill`.
  merge_groups-fill :
      (gs : List (Group C)) (n : ℕ) (r : List (Option V))
      → Fits n gs
      → merge_groups gs (answers gs) r ≡ (none, fill gs r)
  unfolding merge_groups fill
  merge_groups-fill [] n r h = refl
  merge_groups-fill (g ∷ gs) n r (e, below, h) =
      rw (length-run g.commands ∙ sym e, ==_refl)
        (merge_groups-fill gs n (scatter g.indexes (map run g.commands) r) h)

  length-answers : (gs : List (Group C)) → length (answers gs) ≡ length gs
  length-answers [] = refl
  length-answers (g ∷ gs) = ap suc (length-answers gs)

  -- The result of each command.
  abbrev pub results : List (ℕ × C) → List (Option V)
  results [] = []
  results ((key, command) ∷ rest) = some (run command) ∷ results rest

  add_suc : (n rest : ℕ) → n + 1 + rest ≡ n + suc rest
  add_suc n rest = omega arith

  -- What `build_from` has promised so far: the slots before `n` are `done`, the rest are empty.
  merge-from :
      (routed : List (ℕ × C)) (n : ℕ) (gs : List (Group C)) (done : List (Option V))
      → Fits n gs
      → length done ≡ n
      → ((rest : ℕ) → fill gs (replicate (n + rest) none) ≡ done ++ replicate rest none)
      → merge (build_from routed n gs) (answers (build_from routed n gs).groups)
        ≡ (none, done ++ results routed)
  unfolding build_from merge
  merge-from [] n gs done fits len filled =
      rw (length-answers, ==_refl, merge_groups-fill gs n (replicate n none) fits)
        (ap (λ (l : List (Option V)). (none, l))
          (ap (λ m. fill gs (replicate m none)) (omega arith) ∙ filled 0))
  merge-from ((key, c) ∷ routed) n gs done fits len filled = rw append_assoc at (
      merge-from routed (n + 1) (join key n c gs) (done ++ some (run c) ∷ [])
        (Fits-join gs key n c fits) (omega (arith, length-append done (some (run c) ∷ [])))
        (λ rest. fill-join gs key n c _ fits ∙ next rest))
    where
      next :
          (rest : ℕ)
          → set (fill gs (replicate (n + 1 + rest) none)) n (some (run c))
            ≡ (done ++ some (run c) ∷ []) ++ replicate rest none
      next rest =
          rw (append_assoc, add_suc n rest, filled (suc rest), sym len) (set-append done _ none _)

  -- A batch that is built from routed commands and whose groups are answered command by command, in the
  -- order the group holds them, merges without an error into the results of all its commands, each at
  -- the position of its command.
  pub merge-build :
      (routed : List (ℕ × C))
      → merge (build routed) (answers (build routed).groups) ≡ (none, results routed)
  unfolding build
  merge-build routed =
      merge-from routed 0 [] [] tt refl
        (λ rest. unfold fill in ap (λ m. replicate m none) (omega arith))
