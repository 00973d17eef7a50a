-- ===== src/Framing/Reassembly.antt =====
-- `ResponseFrameAssembler.add` of `protocol_framing.py` against its specification, frame by frame.
use mathlib.Core.Path.{subst}
use mathlib.Core.List.{append-nil}
use ferricstore_python.Base.{
  ℕ, ◌≡◌, refl, sym, ap, ◌∙◌, true, false, Option, none, some, Bool-cases, Option-cases, inl, inr,
  length,
}
use ferricstore_python.Base.Assoc.{lookup}
use ferricstore_python.Framing.{
  identity_eq, Frame, Pending, Assembler, has_more, add_chunk, new_budget, add_single, add_first,
  add_later, extend, add,
}
use ferricstore_python.Framing.Isolation.{
  Stream, Streams, receive, verdict, settle, spec_add, IsView, Views, Refines, Agrees,
  Refines-insert, Refines-erase, Refines-absent, IsView-extend, later_error, assembled-complete,
  first_error, first-IsView,
}

Views-none : (mb mc : Option ℕ) (o : Option Stream) → Views mb mc none o → o ≡ none
Views-none mb mc none h = refl
Views-none mb mc (some st) h = absurd h

Views-some :
    (mb mc : Option ℕ) (p : Pending) (o : Option Stream)
    → Views mb mc (some p) o
    → (st : Stream) × (o ≡ some st) × IsView mb mc p st
Views-some mb mc p none h = absurd h
Views-some mb mc p (some st) h = (st, refl, h)

module _ {s : Assembler} {m : Streams} (h : Refines s m) (f : Frame) where
  later-Agrees :
      (p : Pending) (st : Stream)
      → IsView s.max_body_bytes s.max_chunks p st
      → Agrees (add_later f p s) (settle s.max_body_bytes s.max_chunks f (receive (some st) f) m)
  unfolding add_later settle
  later-Agrees p st v = elim (Option-cases (add_chunk (length f.body) p.budget).0) [
    | inl fine ↦
        let allowed : verdict s.max_body_bytes s.max_chunks (receive (some st) f).chunks ≡ none =
          sym (later_error f p st v) ∙ fine in
        rw (fine, allowed, settle, add_later)
          (elim (Bool-cases (has_more f.flags)) [
            | inl more ↦ rw more (
              refl,
              Refines-insert h f.identity (extend f p) (receive (some st) f)
                  (IsView-extend f p st v fine),
            )
            | inr last ↦ rw last (
              ap some (
                  assembled-complete f f.identity (extend f p) (receive (some st) f)
                    (IsView-extend f p st v fine)),
              Refines-erase h f.identity,
            )
          ])
    | inr (x, wrong) ↦
        let refused : verdict s.max_body_bytes s.max_chunks (receive (some st) f).chunks ≡ some x =
          sym (later_error f p st v) ∙ wrong in
        rw (wrong, refused, settle, add_later) (refl, Refines-erase h f.identity)
  ]

  first-Agrees :
      lookup f.identity s.pending ≡ none
      → has_more f.flags ≡ true
      → Agrees (add_first f s) (settle s.max_body_bytes s.max_chunks f (receive none f) m)
  unfolding add_first settle
  first-Agrees absent more = elim (Option-cases (add_chunk (length f.body) (new_budget s)).0) [
    | inl fine ↦
        let allowed : verdict s.max_body_bytes s.max_chunks (receive none f).chunks ≡ none =
          sym (first_error s f) ∙ fine in
        rw (fine, allowed, more, settle, add_first)
          (refl, Refines-insert h f.identity _ (receive none f) (first-IsView s f fine))
    | inr (x, wrong) ↦
        let refused : verdict s.max_body_bytes s.max_chunks (receive none f).chunks ≡ some x =
          sym (first_error s f) ∙ wrong in
        rw (wrong, refused, settle, add_first) (refl, Refines-absent h f.identity absent)
  ]

  single-Agrees :
      lookup f.identity s.pending ≡ none
      → has_more f.flags ≡ false
      → Agrees (add_single f s) (settle s.max_body_bytes s.max_chunks f (receive none f) m)
  unfolding add_single settle
  single-Agrees absent last = elim (Option-cases (add_chunk (length f.body) (new_budget s)).0) [
    | inl fine ↦
        let allowed : verdict s.max_body_bytes s.max_chunks (receive none f).chunks ≡ none =
          sym (first_error s f) ∙ fine in
        rw (fine, allowed, last, settle, add_single)
          (rw append-nil refl, Refines-absent h f.identity absent)
    | inr (x, wrong) ↦
        let refused : verdict s.max_body_bytes s.max_chunks (receive none f).chunks ≡ some x =
          sym (first_error s f) ∙ wrong in
        rw (wrong, refused, settle, add_single) (refl, Refines-absent h f.identity absent)
  ]

  -- From states that correspond, `add` gives the reply of the specification and states that correspond.
  pub add-spec_add : Agrees (add f s) (spec_add s.max_body_bytes s.max_chunks f m)
  unfolding add
  add-spec_add = elim (Option-cases (lookup f.identity s.pending)) [
    | inl absent ↦ elim (Bool-cases (has_more f.flags)) [
      | inl more ↦
          subst (Agrees (add f s)) (spec_is none (view_none absent))
            (rw (absent, more, add) (first-Agrees absent more))
      | inr last ↦
          subst (Agrees (add f s)) (spec_is none (view_none absent))
            (rw (absent, last, add) (single-Agrees absent last))
    ]
    | inr (p, found) ↦
        let (st, e, v) = view_some p found in
        subst (Agrees (add f s)) (spec_is (some st) e) (rw (found, add) (later-Agrees p st v))
  ]
    where
      spec_is :
          (o : Option Stream)
          → m f.identity ≡ o
          → settle s.max_body_bytes s.max_chunks f (receive o f) m
            ≡ spec_add s.max_body_bytes s.max_chunks f m
      spec_is o e =
          unfold spec_add in
          ap (λ (x : Option Stream). settle s.max_body_bytes s.max_chunks f (receive x f) m) (sym e)

      view_none : lookup f.identity s.pending ≡ none → m f.identity ≡ none
      view_none e =
          Views-none s.max_body_bytes s.max_chunks (m f.identity) (rw e at (h.at f.identity))

      view_some :
          (p : Pending)
          → lookup f.identity s.pending ≡ some p
          → (st : Stream) × (m f.identity ≡ some st) × IsView s.max_body_bytes s.max_chunks p st
      view_some p e =
          Views-some s.max_body_bytes s.max_chunks p (m f.identity) (rw e at (h.at f.identity))
