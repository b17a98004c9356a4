-- ===== src/Base/Effects.antt =====
-- How a C++ call ends: it returns, it throws, it sleeps on a condition variable, or it does what the
-- language leaves undefined, such as a use of a destroyed object. A throw keeps the state reached.

use mathlib.Core.Path.{◌≡◌, refl, ap}

pub data Outcome (E A : Type 0) : Type 0 where
  returns : A → Outcome E A
  throws : E → Outcome E A
  sleeps undefined : Outcome E A

-- A computation that changes a state `S`.
abbrev pub M : Type 0 → Type 0 → Type 0 → Type 0
M E S A = S → Outcome E A × S

module _ {E S : Type 0} where
  abbrev pub pure : {A : Type 0} → A → M E S A
  pure a s = (returns a, s)

  abbrev pub throw : {A : Type 0} → E → M E S A
  throw e s = (throws e, s)

  -- Goes on from where a computation returned.
  abbrev pub after : {A B : Type 0} → (A → M E S B) → Outcome E A × S → Outcome E B × S
  after f (returns a, s) = f a s
  after f (throws e, s) = (throws e, s)
  after f (sleeps, s) = (sleeps, s)
  after f (undefined, s) = (undefined, s)

  infixl 5 ◌>>=◌ ◌>>◌
  abbrev pub ◌>>=◌ : {A B : Type 0} → M E S A → (A → M E S B) → M E S B
  ◌>>=◌ m f s = after f (m s)

  abbrev pub ◌>>◌ : {B : Type 0} → M E S (Unit {0}) → M E S B → M E S B
  m >> k = m >>= λ _. k

  pub >>=-returns :
      {A B : Type 0} (m : M E S A) (f : A → M E S B) (s : S) {a : A} {s' : S}
      → m s ≡ (returns a, s')
      → (m >>= f) s ≡ f a s'
  >>=-returns m f s e = ap (after f) e

  -- What returns at the end returned on the way.
  pub after-returns :
      {A B : Type 0} (f : A → M E S B) (r : Outcome E A) (s : S) {b : B}
      → (after f (r, s)).0 ≡ returns b
      → (a : A) × (r ≡ returns a) × ((f a s).0 ≡ returns b)
  after-returns f (returns a) s h = (a, refl, h)
  after-returns f (throws e) s h = cc
  after-returns f sleeps s h = cc
  after-returns f undefined s h = cc

pub returns-inj : {E A : Type 0} {a b : A} → ◌≡◌ {A = Outcome E A} (returns a) (returns b) → a ≡ b
returns-inj h = cc
