-- ===== src/Codec/Encode/Writes.antt =====
-- A calculus for writers: what a block writes, and exactly when it returns.
use ferricstore_python.Base.{
  ℕ, ◌+◌, ◌≤◌, ◌≡◌, refl, sym, ap, ◌∙◌, Bool, true, false, ◌&&◌, not, Option, none, some, List, [],
  ◌++◌, length, length-append, if◌then◌else◌, arith,
}
use ferricstore_python.Base.Exec.{ok, raise, pure, continue-eq-ok, ◌>>◌}
use ferricstore_python.Codec.Value.{Error}
use ferricstore_python.Codec.Encode.{Writer, Write, ensure_capacity, write}
use mathlib.Core.Path.{subst₂}
use mathlib.Core.List.{append-nil, append_assoc}

abbrev pub advance : List ℕ → Writer → Writer
advance bs w = record w { size = w.size + length bs; out = w.out ++ bs }

-- `n` more bytes stay within the limit.
abbrev pub Fits : Option ℕ → ℕ → ℕ → Type 0
Fits none size n = Unit
Fits (some m) size n = n + size ≤ m

-- With `p` false the block never returns; with `p` true it returns exactly when `bs` fits, and then
-- it has written `bs` and nothing else. A writer starts, and stays, within its limit.
pub record Writes (p : Bool) (m : Write) (bs : List ℕ) : Type 0 where
  pub does :
      (w : Writer) → p ≡ true → Fits w.max_bytes w.size (length bs) → m w ≡ ok tt (advance bs w)
  pub only :
      (w w' : Writer)
      → Fits w.max_bytes w.size 0
      → m w ≡ ok tt w'
      → (p ≡ true) × Fits w.max_bytes w.size (length bs) × (w' ≡ advance bs w)

pub Writes-cast :
    {p q : Bool} {m : Write} {cs bs : List ℕ} → Writes p m cs → p ≡ q → cs ≡ bs → Writes q m bs
Writes-cast {m = m} h e f = subst₂ (λ (p : Bool) (l : List ℕ). Writes p m l) e f h

advance-nil : (w : Writer) → advance [] w ≡ w
advance-nil w = ground (arith, append-nil w.out)

pub Writes-pure : Writes true (pure tt) []
Writes-pure = record {
  does = λ w h f. ap (λ (v : Writer). ok tt v) (sym (advance-nil w));
  only = λ w w' g h. (refl, g, ground (arith, advance-nil w));
}

pub Writes-raise : (e : Error) → Writes false (raise e) []
Writes-raise e = record { does = λ w h. cc; only = λ w w' g h. cc }

pub Writes-write : (bs : List ℕ) → Writes true (write bs) bs
unfolding write ensure_capacity
Writes-write bs = record { does = λ w h f. ground arith; only = λ w w' g h. ground arith }

advance-append : (w : Writer) (cs bs : List ℕ) → advance bs (advance cs w) ≡ advance (cs ++ bs) w
advance-append w cs bs = ground (arith, append_assoc w.out cs bs, length-append cs bs)

Fits-append :
    (m : Option ℕ) (size : ℕ) (cs bs : List ℕ)
    → Fits m size (length (cs ++ bs))
    → Fits m size (length cs) × Fits m (size + length cs) (length bs)
Fits-append none size cs bs f = (tt, tt)
Fits-append (some m) size cs bs f = omega (arith, length-append cs bs)

Fits-join :
    (m : Option ℕ) (size : ℕ) (cs bs : List ℕ)
    → Fits m (size + length cs) (length bs)
    → Fits m size (length (cs ++ bs))
Fits-join none size cs bs f = tt
Fits-join (some m) size cs bs f = omega (arith, length-append cs bs)

Fits-after :
    (m : Option ℕ) (size : ℕ) (cs : List ℕ) → Fits m size (length cs) → Fits m (size + length cs) 0
Fits-after none size cs f = tt
Fits-after (some m) size cs f = omega arith

and-true : (p q : Bool) → (p && q) ≡ true → (p ≡ true) × (q ≡ true)
and-true true true h = (refl, refl)
and-true true false h = cc
and-true false q h = cc

module _ {p q : Bool} {m k : Write} {cs bs : List ℕ} where
  pub Writes-seq : Writes p m cs → Writes q k bs → Writes (p && q) (m >> k) (cs ++ bs)
  Writes-seq hm hk = record {
    does = λ w h f.
        let (f₁, f₂) = Fits-append w.max_bytes w.size cs bs f in
        let (h₁, h₂) = and-true p q h in
        rw (hm.does w h₁ f₁)
          (hk.does (advance cs w) h₂ f₂ ∙ ap (λ (v : Writer). ok tt v) (advance-append w cs bs));
    only = λ w w' g h.
        let (a, t, e₁, e₂) = continue-eq-ok (m w) (λ _. k) h in
        let (h₁, f₁, t₁) = hm.only w t g e₁ in
        let e₃ : k (advance cs w) ≡ ok tt w' = rw t₁ at e₂ in
        let (h₂, f₂, t₂) = hk.only (advance cs w) w' (Fits-after w.max_bytes w.size cs f₁) e₃ in
        (rw (h₁, h₂), Fits-join w.max_bytes w.size cs bs f₂, t₂ ∙ advance-append w cs bs);
  }

-- A test that raises in front of a block.
pub Writes-guard :
    {q : Bool} {k : Write} {bs : List ℕ} (b : Bool) (e : Error)
    → Writes q k bs
    → Writes (not b && q) (if b then raise e else k) bs
Writes-guard true e h = record { does = λ w i. cc; only = λ w w' g i. cc }
Writes-guard false e h = h

-- A choice between two blocks.
pub Writes-if :
    {p q : Bool} {m k : Write} {cs bs : List ℕ} (b : Bool)
    → Writes p m cs
    → Writes q k bs
    → Writes (if b then p else q) (if b then m else k) (if b then cs else bs)
Writes-if true hm hk = hm
Writes-if false hm hk = hk

-- A block that never returns, whatever is said of its bytes.
pub Writes-false : {m : Write} {cs : List ℕ} (bs : List ℕ) → Writes false m cs → Writes false m bs
Writes-false bs h = record {
  does = λ w i. cc;
  only = λ w w' g i. absurd (cc ((h.only w w' g i).0));
}
