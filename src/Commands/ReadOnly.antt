-- ===== src/Commands/ReadOnly.antt =====
-- `request_may_mutate` of `protocol_retry.py` against the commands that a request comes apart into.
use Prim.Native.String.{String}
use ferricstore_python.Base.{
  ℕ, zero, suc, ◌≡◌, ◌↔◌, refl, Bool, true, false, Option, none, some, List, [], ◌∷◌, ◌++◌,
  if◌then◌else◌, All, Bool-cases, inl, inr,
}
use ferricstore_python.Codec.Value.{ℤ, Value, Items, nil, cons}
use ferricstore_python.Commands.Retry.{
  op_pipeline, is_opcode, nested, command_mutates, any_mutates, pipeline_commands, nonempty_mutates,
  may_mutate, request_may_mutate,
}

-- The commands of a request in order, pipelines taken apart; `none` where a pipeline is not well formed,
-- has no commands, or stands below four others.
abbrev pub both : Option (List (ℤ × Value)) → Option (List (ℤ × Value)) → Option (List (ℤ × Value))
both (some xs) (some ys) = some (xs ++ ys)
both _ _ = none

abbrev pub request_of :
    (ℤ → Value → Option (List (ℤ × Value))) → Option (ℤ × Value) → Option (List (ℤ × Value))
request_of next none = none
request_of next (some (op, body)) = next op body

abbrev pub commands_of : (ℤ → Value → Option (List (ℤ × Value))) → Items → Option (List (ℤ × Value))
commands_of next nil = some []
commands_of next (cons c cs) = both (request_of next (nested c)) (commands_of next cs)

abbrev pub nonempty_commands :
    (ℤ → Value → Option (List (ℤ × Value))) → Option Items → Option (List (ℤ × Value))
nonempty_commands next none = none
nonempty_commands next (some nil) = none
nonempty_commands next (some (cons c cs)) = commands_of next (cons c cs)

unfoldable pub flatten : ℕ → ℤ → Value → Option (List (ℤ × Value))
flatten zero op payload = if is_opcode op op_pipeline then none else some ((op, payload) ∷ [])
flatten (suc levels) op payload =
    let inner = nonempty_commands (flatten levels) (pipeline_commands payload) in
    if is_opcode op op_pipeline then inner else some ((op, payload) ∷ [])

All-append :
    {A : Type 0} (P : A → Type 0) (xs ys : List A) → All P (xs ++ ys) ↔ (All P xs × All P ys)
All-append P [] ys = ((λ h. (tt, h)), λ h. h.1)
All-append P (x ∷ xs) ys =
    let (split, merge) = All-append P xs ys in
    ((λ h. ((h.0, (split h.1).0), (split h.1).1)), λ h. (h.0.0, merge (h.0.1, h.1)))

module _ (fold : List ℕ → String) where
  abbrev pub AllRead : Option (List (ℤ × Value)) → Type 0
  AllRead none = ⊥
  AllRead (some cs) = All (λ c. command_mutates fold c.0 c.1 ≡ false) cs

  AllRead-both : (a b : Option (List (ℤ × Value))) → AllRead (both a b) ↔ (AllRead a × AllRead b)
  AllRead-both none b = ((λ h. absurd h), λ h. absurd h.0)
  AllRead-both (some xs) none = ((λ h. absurd h), λ h. absurd h.1)
  AllRead-both (some xs) (some ys) = All-append _ xs ys

  one-AllRead :
      (op : ℤ) (payload : Value)
      → (command_mutates fold op payload ≡ false) ↔ AllRead (some ((op, payload) ∷ []))
  one-AllRead op payload = ((λ h. (h, tt)), λ h. h.0)

  -- A loop over commands, where `reads` and `next` agree on each.
  record Agree (reads : ℤ → Value → Bool) (next : ℤ → Value → Option (List (ℤ × Value)))
      : Type 0 where
    at : (op : ℤ) (payload : Value) → (reads op payload ≡ false) ↔ AllRead (next op payload)

  module _ {reads : ℤ → Value → Bool} {next : ℤ → Value → Option (List (ℤ × Value))}
      (agree : Agree reads next) where
    any_mutates-AllRead :
        (cs : Items) → (any_mutates reads cs ≡ false) ↔ AllRead (commands_of next cs)
    unfolding any_mutates
    any_mutates-AllRead nil = ((λ h. tt), λ h. refl)
    any_mutates-AllRead (cons c cs) = step (nested c) (any_mutates-AllRead cs)
      where
        choice :
            (b : Bool)
            → ((if b then true else any_mutates reads cs) ≡ false)
              ↔ ((b ≡ false) × (any_mutates reads cs ≡ false))
        choice true = ((λ h. cc), λ h. cc)
        choice false = ((λ h. (refl, h)), λ h. h.1)

        step :
            (o : Option (ℤ × Value))
            → ((any_mutates reads cs ≡ false) ↔ AllRead (commands_of next cs))
            → ((elim o [
              | none ↦ true
              | some request ↦ if reads request.0 request.1 then true else any_mutates reads cs
            ])
                ≡ false)
              ↔ AllRead (both (request_of next o) (commands_of next cs))
        step none rest = ((λ h. let impossible : true ≡ false = h in cc), λ h. absurd h)
        step (some (op, body)) rest =
            let (split, join) = AllRead-both (next op body) (commands_of next cs) in
            let (go, back) = choice (reads op body) in
            (
              (λ h. join ((agree.at op body).0 (go h).0, rest.0 (go h).1)),
              λ h. back ((agree.at op body).1 (split h).0, rest.1 (split h).1),
            )

    nonempty_mutates-AllRead :
        (o : Option Items) → (nonempty_mutates reads o ≡ false) ↔ AllRead (nonempty_commands next o)
    nonempty_mutates-AllRead none = ((λ h. let impossible : true ≡ false = h in cc), λ h. absurd h)
    nonempty_mutates-AllRead (some nil) =
        ((λ h. let impossible : true ≡ false = h in cc), λ h. absurd h)
    nonempty_mutates-AllRead (some (cons c cs)) = any_mutates-AllRead (cons c cs)

  may_mutate-AllRead :
      (levels : ℕ) (op : ℤ) (payload : Value)
      → (may_mutate fold levels op payload ≡ false) ↔ AllRead (flatten levels op payload)
  unfolding may_mutate flatten
  may_mutate-AllRead zero op payload = elim (Bool-cases (is_opcode op op_pipeline)) [
    | inl pipeline ↦ rw pipeline ((λ h. let impossible : true ≡ false = h in cc), λ h. absurd h)
    | inr single ↦ rw single (one-AllRead op payload)
  ]
  may_mutate-AllRead (suc levels) op payload = elim (Bool-cases (is_opcode op op_pipeline)) [
    | inl pipeline ↦ rw pipeline (
        nonempty_mutates-AllRead (record { at = may_mutate-AllRead levels })
          (pipeline_commands payload))
    | inr single ↦ rw single (one-AllRead op payload)
  ]

  -- A request is taken for one that cannot mutate exactly if it comes apart into commands, through
  -- well-formed pipelines that are not empty and at most four deep, none of which mutates by itself.
  pub request_may_mutate-AllRead :
      (op : ℤ) (payload : Value)
      → (request_may_mutate fold op payload ≡ false) ↔ AllRead (flatten 4 op payload)
  unfolding request_may_mutate
  request_may_mutate-AllRead op payload = may_mutate-AllRead 4 op payload
