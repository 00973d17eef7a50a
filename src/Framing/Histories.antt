-- ===== src/Framing/Histories.antt =====
-- `ResponseFrameAssembler` of `protocol_framing.py` on histories of frames.
use mathlib.Core.Path.{ap₂}
use ferricstore_python.Base.{
  ℕ, ◌≡◌, refl, sym, ap, ◌∙◌, true, false, Option, List, [], ◌∷◌, if◌then◌else◌, arith, Bool-cases,
  inl, inr,
}
use ferricstore_python.Base.Exec.{Outcome, ok, err}
use ferricstore_python.Framing.{
  Identity, identity_eq, same_identity, same_identity_iff, Error, Frame, Assembler, add, add_single,
  add_first, add_later,
}
use ferricstore_python.Framing.Isolation.{
  Stream, Streams, settle, receive, spec_add, Refines, Agrees,
}
use ferricstore_python.Framing.Reassembly.{add-spec_add}

pub data Reply : Type 0 where
  returned : Option Frame → Reply
  raised : Error → Reply

module _ {S : Type 0} where
  abbrev pub reply : Outcome Error S (Option Frame) → Reply
  reply (ok o s) = returned o
  reply (err e s) = raised e

  abbrev pub after : Outcome Error S (Option Frame) → S
  after (ok o s) = s
  after (err e s) = s

-- The replies to the frames of `id` in a history.
unfoldable pub replies : Identity → List Frame → Assembler → List Reply
replies id [] s = []
replies id (f ∷ fs) s =
    let rest = replies id fs (after (add f s)) in
    if same_identity f.identity id then reply (add f s) ∷ rest else rest

unfoldable pub spec_replies : Option ℕ → Option ℕ → Identity → List Frame → Streams → List Reply
spec_replies mb mc id [] m = []
spec_replies mb mc id (f ∷ fs) m =
    let rest = spec_replies mb mc id fs (after (spec_add mb mc f m)) in
    if same_identity f.identity id then reply (spec_add mb mc f m) ∷ rest else rest

-- The frames of one identity.
unfoldable pub own : Identity → List Frame → List Frame
own id [] = []
own id (f ∷ fs) = if same_identity f.identity id then f ∷ own id fs else own id fs

record SameLimits (s t : Assembler) : Type 0 where
  body : t.max_body_bytes ≡ s.max_body_bytes
  chunks : t.max_chunks ≡ s.max_chunks

add-SameLimits : (f : Frame) (s : Assembler) → SameLimits s (after (add f s))
unfolding add add_single add_first add_later
add-SameLimits f s = ground arith

agree_replies :
    (x : Outcome Error Assembler (Option Frame)) (y : Outcome Error Streams (Option Frame))
    → Agrees x y
    → (reply x ≡ reply y) × Refines (after x) (after y)
agree_replies (ok a s) (ok b m) h = (ap returned h.0, h.1)
agree_replies (err e s) (err f m) h = (ap raised h.0, h.1)
agree_replies (ok a s) (err f m) h = absurd h
agree_replies (err e s) (ok b m) h = absurd h

-- Every history from states that correspond has the replies of the specification.
pub replies-spec_replies :
    (id : Identity) (fs : List Frame) (s : Assembler) (m : Streams)
    → Refines s m
    → replies id fs s ≡ spec_replies s.max_body_bytes s.max_chunks id fs m
unfolding replies spec_replies
replies-spec_replies id [] s m h = refl
replies-spec_replies id (f ∷ fs) s m h =
    let (same, next) =
      agree_replies (add f s) (spec_add s.max_body_bytes s.max_chunks f m) (add-spec_add h f) in
    let limits = add-SameLimits f s in
    let rest =
      replies-spec_replies id fs (after (add f s))
        (after (spec_add s.max_body_bytes s.max_chunks f m)) next in
    rw (rest, limits.body, limits.chunks, same) refl

-- A frame of another identity leaves the stream of `id` as it was; one of `id` depends on nothing else.
spec_add-ne :
    (mb mc : Option ℕ) (f : Frame) (m : Streams) (id : Identity)
    → same_identity f.identity id ≡ false
    → after (spec_add mb mc f m) id ≡ m id
unfolding spec_add settle
spec_add-ne mb mc f m id h = ground arith

spec_add-eq :
    (mb mc : Option ℕ) (f : Frame) (m n : Streams) (id : Identity)
    → same_identity f.identity id ≡ true
    → m id ≡ n id
    → (reply (spec_add mb mc f m) ≡ reply (spec_add mb mc f n))
      × (after (spec_add mb mc f m) id ≡ after (spec_add mb mc f n) id)
unfolding spec_add
spec_add-eq mb mc f m n id h e =
    let i : f.identity ≡ id = (same_identity_iff f.identity id).0 h in
    let k : m f.identity ≡ n f.identity = rw i e in rw k (settled (receive (n f.identity) f))
  where
    settled :
        (st : Stream)
        → (reply (settle mb mc f st m) ≡ reply (settle mb mc f st n))
          × (after (settle mb mc f st m) id ≡ after (settle mb mc f st n) id)
    settled st = unfold settle in ground (arith, h)

own-cons :
    (id : Identity) (f : Frame) (fs : List Frame)
    → same_identity f.identity id ≡ true
    → own id (f ∷ fs) ≡ f ∷ own id fs
unfolding own
own-cons id f fs h = rw h

spec_replies-cons :
    (mb mc : Option ℕ) (id : Identity) (f : Frame) (fs : List Frame) (m : Streams)
    → same_identity f.identity id ≡ true
    → spec_replies mb mc id (f ∷ fs) m
      ≡ reply (spec_add mb mc f m) ∷ spec_replies mb mc id fs (after (spec_add mb mc f m))
unfolding spec_replies
spec_replies-cons mb mc id f fs m h = rw h

spec_replies-skip :
    (mb mc : Option ℕ) (id : Identity) (f : Frame) (fs : List Frame) (m : Streams)
    → same_identity f.identity id ≡ false
    → spec_replies mb mc id (f ∷ fs) m ≡ spec_replies mb mc id fs (after (spec_add mb mc f m))
unfolding spec_replies
spec_replies-skip mb mc id f fs m h = rw h

own-skip :
    (id : Identity) (f : Frame) (fs : List Frame)
    → same_identity f.identity id ≡ false
    → own id (f ∷ fs) ≡ own id fs
unfolding own
own-skip id f fs h = rw h

spec_replies-own :
    (mb mc : Option ℕ) (id : Identity) (fs : List Frame) (m n : Streams)
    → m id ≡ n id
    → spec_replies mb mc id fs m ≡ spec_replies mb mc id (own id fs) n
spec_replies-own mb mc id [] m n e = unfold spec_replies own in refl
spec_replies-own mb mc id (f ∷ fs) m n e = elim (Bool-cases (same_identity f.identity id)) [
  | inl h ↦
      let (same, next) = spec_add-eq mb mc f m n id h e in
      spec_replies-cons mb mc id f fs m h
      ∙ ap₂ (λ (r : Reply) (l : List Reply). r ∷ l) same
          (spec_replies-own mb mc id fs (after (spec_add mb mc f m)) (after (spec_add mb mc f n))
            next)
      ∙ sym (
          ap (λ (l : List Frame). spec_replies mb mc id l n) (own-cons id f fs h)
          ∙ spec_replies-cons mb mc id f (own id fs) n h)
  | inr h ↦
      spec_replies-skip mb mc id f fs m h
      ∙ spec_replies-own mb mc id fs (after (spec_add mb mc f m)) n (spec_add-ne mb mc f m id h ∙ e)
      ∙ ap (λ (l : List Frame). spec_replies mb mc id l n) (sym (own-skip id f fs h))
]

-- The replies to the frames of one identity in any history, from any corresponding states, are those
-- to its own frames alone: responses that arrive interleaved do not disturb one another.
pub replies-own :
    (id : Identity) (fs : List Frame) (s : Assembler) (m : Streams)
    → Refines s m
    → replies id fs s ≡ replies id (own id fs) s
replies-own id fs s m h =
    replies-spec_replies id fs s m h
    ∙ spec_replies-own s.max_body_bytes s.max_chunks id fs m m refl
    ∙ sym (replies-spec_replies id (own id fs) s m h)
