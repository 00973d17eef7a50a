-- ===== src/Framing/Isolation.antt =====
-- The specification of `ResponseFrameAssembler`: one stream of chunks for each identity, whatever the
-- order in which the frames of different identities arrive.
use mathlib.Core.List.{append-nil, append_assoc}
use ferricstore_python.Base.{
  ℕ, ◌+◌, ◌≡◌, refl, sym, ap, ◌∙◌, Option, none, some, List, [], ◌∷◌, ◌++◌, length, length-append,
  bit_or, if◌then◌else◌, arith, Bool-cases, inl, inr,
}
use ferricstore_python.Base.Exec.{Outcome, ok, err}
use ferricstore_python.Base.Assoc.{lookup, insert, erase, lookup-insert, lookup-erase}
use ferricstore_python.Framing.{
  Identity, identity_eq, same_identity, FrameBudget, same_identity_iff, Error, too_many_chunks,
  too_many_bytes, Frame, Pending, Assembler, has_more, logical_flags, over, finish, append_chunk,
  accumulator, add_chunk, new_budget, extend, assembled,
}

abbrev pub concat : List (List ℕ) → List ℕ
concat [] = []
concat (c ∷ cs) = c ++ concat cs

pub concat-append : (cs : List (List ℕ)) (c : List ℕ) → concat (cs ++ c ∷ []) ≡ concat cs ++ c
concat-append [] c = append-nil c
concat-append (d ∷ cs) c = rw (concat-append cs c) (sym (append_assoc d (concat cs) c))

-- What has come in for one identity.
pub record Stream : Type 0 where
  pub chunks : List (List ℕ)
  pub flags : ℕ
  pub read_started_ns : ℕ

abbrev pub Streams : Type 0
Streams = Identity → Option Stream

abbrev pub update : Identity → Option Stream → Streams → Streams
update id v m = λ j. if same_identity id j then v else m j

-- The stream with one more chunk.
abbrev pub receive : Option Stream → Frame → Stream
receive none f = record {
  chunks = f.body ∷ [];
  flags = logical_flags f.flags;
  read_started_ns = f.read_started_ns;
}
receive (some st) f = record st {
  chunks = st.chunks ++ f.body ∷ [];
  flags = bit_or st.flags (logical_flags f.flags);
}

abbrev pub complete : Identity → Stream → Frame
complete id st = record {
  identity = id;
  flags = st.flags;
  body = concat st.chunks;
  read_started_ns = st.read_started_ns;
}

-- The limits on the number of chunks and on their bytes, in this order.
abbrev pub verdict : Option ℕ → Option ℕ → List (List ℕ) → Option Error
verdict max_body max_chunks chunks =
    if over max_chunks (length chunks)
    then some too_many_chunks
    else if over max_body (length (concat chunks))
    then some too_many_bytes
    else none

-- Past a limit the stream of the frame's identity is dropped; the last chunk gives the response.
unfoldable pub settle :
    Option ℕ → Option ℕ → Frame → Stream → Streams → Outcome Error Streams (Option Frame)
settle max_body max_chunks f st m = elim (verdict max_body max_chunks st.chunks) [
  | some e ↦ err e (update f.identity none m)
  | none ↦
      if has_more f.flags
      then ok none (update f.identity (some st) m)
      else ok (some (complete f.identity st)) (update f.identity none m)
]

-- One frame: its chunk joins the stream of its identity.
unfoldable pub spec_add :
    Option ℕ → Option ℕ → Frame → Streams → Outcome Error Streams (Option Frame)
unfolding settle
spec_add max_body max_chunks f m = settle max_body max_chunks f (receive (m f.identity) f) m

-- A pending entry stands for a stream, under the limits that the response began with.
pub record IsView (max_body max_chunks : Option ℕ) (p : Pending) (st : Stream) : Type 0 where
  pub body : finish p.acc ≡ concat st.chunks
  pub size : p.budget.body_bytes ≡ length (concat st.chunks)
  pub number : p.budget.chunks ≡ length st.chunks
  pub flags : p.flags ≡ st.flags
  pub started : p.read_started_ns ≡ st.read_started_ns
  pub body_limit : p.budget.max_body_bytes ≡ max_body
  pub chunk_limit : p.budget.max_chunks ≡ max_chunks

module _ (max_body max_chunks : Option ℕ) where
  abbrev pub Views : Option Pending → Option Stream → Type 0
  Views none none = Unit
  Views none (some st) = ⊥
  Views (some p) none = ⊥
  Views (some p) (some st) = IsView max_body max_chunks p st

pub record Refines (s : Assembler) (m : Streams) : Type 0 where
  pub at : (j : Identity) → Views s.max_body_bytes s.max_chunks (lookup j s.pending) (m j)

-- The same reply, and states that still correspond.
abbrev pub Agrees :
    Outcome Error Assembler (Option Frame) → Outcome Error Streams (Option Frame) → Type 0
Agrees (ok a s) (ok b m) = (a ≡ b) × Refines s m
Agrees (err e s) (err f m) = (e ≡ f) × Refines s m
Agrees (ok a s) (err f m) = ⊥
Agrees (err e s) (ok b m) = ⊥

module _ {s : Assembler} {m : Streams} (h : Refines s m) (id : Identity) where
  pub Refines-insert :
      (p : Pending) (st : Stream)
      → IsView s.max_body_bytes s.max_chunks p st
      → Refines (record s { pending = insert id p s.pending }) (update id (some st) m)
  Refines-insert p st v = record {
    at = λ j.
        rw lookup-insert
          (elim (Bool-cases (same_identity id j)) [ inl e ↦ rw e v | inr e ↦ rw e (h.at j) ]);
  }

  pub Refines-erase : Refines (record s { pending = erase id s.pending }) (update id none m)
  Refines-erase = record {
    at = λ j.
        rw lookup-erase
          (elim (Bool-cases (same_identity id j)) [ inl e ↦ rw e tt | inr e ↦ rw e (h.at j) ]);
  }

  pub Refines-absent : lookup id s.pending ≡ none → Refines s (update id none m)
  Refines-absent absent = record {
    at = λ j. elim (Bool-cases (same_identity id j)) [
      | inl e ↦ rw (e, ← (same_identity_iff id j).0 e, absent) tt
      | inr e ↦ rw e (h.at j)
    ];
  }

add_chunk-error :
    (n : ℕ) (b : FrameBudget)
    → (add_chunk n b).0 ≡ (
        if over b.max_chunks (b.chunks + 1)
        then some too_many_chunks
        else if over b.max_body_bytes (b.body_bytes + n)
        then some too_many_bytes
        else none)
unfolding add_chunk
add_chunk-error n b = ground arith

add_chunk-counts :
    (n : ℕ) (b : FrameBudget)
    → (add_chunk n b).0 ≡ none
    → (add_chunk n b).1 ≡ record b { chunks = b.chunks + 1; body_bytes = b.body_bytes + n }
unfolding add_chunk
add_chunk-counts n b h = ground arith

finish-append_chunk : (c : List ℕ) (p : Pending) → finish (append_chunk c p.acc) ≡ finish p.acc ++ c
unfolding finish append_chunk
finish-append_chunk c p = ground arith

module _ {mb mc : Option ℕ} (f : Frame) where
  pub IsView-extend :
      (p : Pending) (st : Stream)
      → IsView mb mc p st
      → (add_chunk (length f.body) p.budget).0 ≡ none
      → IsView mb mc (extend f p) (receive (some st) f)
  unfolding extend
  IsView-extend p st v e =
      let counts = add_chunk-counts (length f.body) p.budget e in
      record {
        body =
            finish-append_chunk f.body p
            ∙ ap (λ (l : List ℕ). l ++ f.body) v.body
            ∙ sym (concat-append st.chunks f.body);
        size =
            ap (λ (b : FrameBudget). b.body_bytes) counts
            ∙ rw concat-append (omega (arith, v.size, length-append (concat st.chunks) f.body));
        number =
            ap (λ (b : FrameBudget). b.chunks) counts
            ∙ omega (arith, v.number, length-append st.chunks (f.body ∷ []));
        flags = ap (λ (n : ℕ). bit_or n (logical_flags f.flags)) v.flags;
        started = v.started;
        body_limit = ap (λ (b : FrameBudget). b.max_body_bytes) counts ∙ v.body_limit;
        chunk_limit = ap (λ (b : FrameBudget). b.max_chunks) counts ∙ v.chunk_limit;
      }

  -- A later chunk is refused by the code exactly where the specification refuses it.
  pub later_error :
      (p : Pending) (st : Stream)
      → IsView mb mc p st
      → (add_chunk (length f.body) p.budget).0 ≡ verdict mb mc (receive (some st) f).chunks
  later_error p st v =
      let number : length (st.chunks ++ f.body ∷ []) ≡ length st.chunks + 1 =
        length-append st.chunks (f.body ∷ []) in
      let size : length (concat (st.chunks ++ f.body ∷ []))
          ≡ length (concat st.chunks) + length f.body =
        rw concat-append (length-append (concat st.chunks) f.body) in
      add_chunk-error (length f.body) p.budget
      ∙ rw (v.chunk_limit, v.body_limit, v.number, v.size, number, size)

  pub assembled-complete :
      (id : Identity) (p : Pending) (st : Stream)
      → IsView mb mc p st
      → assembled id p ≡ complete id st
  unfolding assembled
  assembled-complete id p st v = cc

-- What the code does for the first chunk of a stream, and for a response in one chunk.
module _ (s : Assembler) (f : Frame) where
  pub first_error :
      (add_chunk (length f.body) (new_budget s)).0
      ≡ verdict s.max_body_bytes s.max_chunks (f.body ∷ [])
  unfolding new_budget
  first_error = add_chunk-error (length f.body) (new_budget s) ∙ ground (arith, append-nil f.body)

  pub first-IsView :
      (add_chunk (length f.body) (new_budget s)).0 ≡ none
      → IsView s.max_body_bytes s.max_chunks
          (record {
            acc = accumulator f.body;
            budget = (add_chunk (length f.body) (new_budget s)).1;
            flags = logical_flags f.flags;
            read_started_ns = f.read_started_ns;
          })
          (receive none f)
  unfolding new_budget accumulator finish
  first-IsView e =
      let counts = add_chunk-counts (length f.body) (new_budget s) e in
      record {
        body = sym (append-nil f.body);
        size = ap (λ (b : FrameBudget). b.body_bytes) counts ∙ rw append-nil (omega arith);
        number = ap (λ (b : FrameBudget). b.chunks) counts ∙ omega arith;
        flags = refl;
        started = refl;
        body_limit = ap (λ (b : FrameBudget). b.max_body_bytes) counts;
        chunk_limit = ap (λ (b : FrameBudget). b.max_chunks) counts;
      }
