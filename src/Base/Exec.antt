-- ===== src/Base/Exec.antt =====
-- Operations that change a state and may raise. What was written before a raise stays written, so
-- the state comes back beside the error too.
use mathlib.Core.Path.{◌≡◌, refl}

pub data Outcome (E S A : Type 0) : Type 0 where
  ok : A → S → Outcome E S A
  err : E → S → Outcome E S A

abbrev pub Exec : Type 0 → Type 0 → Type 0 → Type 0
Exec E S A = S → Outcome E S A

module _ {E S : Type 0} where
  abbrev pub pure : {A : Type 0} → A → Exec E S A
  pure a s = ok a s

  abbrev pub raise : {A : Type 0} → E → Exec E S A
  raise e s = err e s

module _ {E S A B : Type 0} where
  abbrev pub continue : Outcome E S A → (A → Exec E S B) → Outcome E S B
  continue (ok a s) f = f a s
  continue (err e s) f = err e s

  infixl 5 ◌>>=◌
  abbrev pub ◌>>=◌ : Exec E S A → (A → Exec E S B) → Exec E S B
  ◌>>=◌ m f s = continue (m s) f

module _ {E S B : Type 0} where
  infixl 5 ◌>>◌
  abbrev pub ◌>>◌ : Exec E S (Unit {0}) → Exec E S B → Exec E S B
  ◌>>◌ m k s = continue (m s) (λ _. k)

module _ {E S A B : Type 0} where
  -- A block that returns has a first part that returned, and a rest that returned from there.
  pub continue-eq-ok :
      (o : Outcome E S A) (f : A → Exec E S B) {b : B} {s : S}
      → continue o f ≡ ok b s
      → (a : A) × (t : S) × (o ≡ ok a t) × (f a t ≡ ok b s)
  continue-eq-ok (ok a t) f h = (a, t, refl, h)
  continue-eq-ok (err e t) f h = cc
