-- ===== src/Base/Lists.antt =====
-- Lists over the native numbers, and what holds of every entry.
use Prim.Native.Nat.{ℕ, zero, suc, ◌+◌}
use mathlib.Core.Path.{◌≡◌, refl, ap}
use mathlib.Core.List.{List, [], ◌∷◌, ◌++◌}
use mathlib.Core.List
use mathlib.Core.List.{Perm}
use mathlib.Core.List.Perm
use native.Mathlib.Bridge.{from_ℕ}
use mathlib.Core.Option.{Option, none, some}
use mathlib.Core.Logic.{◌⊎◌, inl, inr}
use rtl.Base.Options.{Option-cases}
use native.Mathlib.Omega.{arith}

-- A predicate on every entry, by recursion.
abbrev pub All {ℓ κ} : {A : Type ℓ} → (A → Type κ) → List A → Type κ
All P [] = Unit
All P (x ∷ xs) = P x × All P xs

module _ {ℓ} {A : Type ℓ} where
  abbrev pub length : List A → ℕ
  length [] = 0
  length (x ∷ xs) = suc (length xs)

  abbrev pub get_elem? : List A → ℕ → Option A
  get_elem? [] i = none
  get_elem? (x ∷ xs) zero = some x
  get_elem? (x ∷ xs) (suc i) = get_elem? xs i

  -- A write out of bounds changes nothing.
  abbrev pub set : List A → ℕ → A → List A
  set [] i v = []
  set (x ∷ xs) zero v = v ∷ xs
  set (x ∷ xs) (suc i) v = x ∷ set xs i v

  abbrev pub take : ℕ → List A → List A
  take zero xs = []
  take (suc n) [] = []
  take (suc n) (x ∷ xs) = x ∷ take n xs

  abbrev pub drop : ℕ → List A → List A
  drop zero xs = xs
  drop (suc n) [] = []
  drop (suc n) (x ∷ xs) = drop n xs

  pub List-cases : (xs : List A) → (xs ≡ []) ⊎ ((x : A) × (ys : List A) × (xs ≡ x ∷ ys))
  List-cases [] = inl refl
  List-cases (x ∷ xs) = inr (x, xs, refl)

  abbrev pub replicate : ℕ → A → List A
  replicate zero a = []
  replicate (suc n) a = a ∷ replicate n a

  pub length-replicate : (n : ℕ) (a : A) → length (replicate n a) ≡ n
  length-replicate zero a = refl
  length-replicate (suc n) a = ap suc (length-replicate n a)

  pub length-append : (xs ys : List A) → length (xs ++ ys) ≡ length xs + length ys
  length-append [] ys = omega arith
  length-append (x ∷ xs) ys = omega (arith, length-append xs ys)

  -- The library's length, as a native number.
  from_ℕ-length : (xs : List A) → from_ℕ (List.length xs) ≡ length xs
  from_ℕ-length [] = refl
  from_ℕ-length (x ∷ xs) = ap suc (from_ℕ-length xs)

  pub length-perm : {xs ys : List A} → Perm xs ys → length xs ≡ length ys
  length-perm {xs} {ys} p =
      omega (arith, ap from_ℕ (Perm.length-eq p), from_ℕ-length xs, from_ℕ-length ys)

  -- The last entry of a vector and the rest, as `back` and `pop_back` give them.
  unfoldable pub pop_back : List A → Option (A × List A)
  pop_back [] = none
  pop_back (x ∷ xs) = elim (pop_back xs) [
    | none ↦ some (x, [])
    | some (last, rest) ↦ some (last, x ∷ rest)
  ]

  pub pop_back-none : (xs : List A) → pop_back xs ≡ none → xs ≡ []
  unfolding pop_back
  pop_back-none [] h = refl
  pop_back-none (x ∷ xs) h = ground arith

  -- The last entry comes off the end.
  pub pop_back-some :
      (xs : List A) (t : A) (rest : List A) → pop_back xs ≡ some (t, rest) → xs ≡ rest ++ t ∷ []
  unfolding pop_back
  pop_back-some [] t rest h = cc
  pop_back-some (x ∷ xs) t rest h = elim (Option-cases (pop_back xs)) [
    | inl e ↦ ground (arith, pop_back-none xs e)
    | inr ((last, front), e) ↦ ground (arith, pop_back-some xs last front e)
  ]

  pub length-pop_back :
      (xs : List A) (t : A) (rest : List A)
      → pop_back xs ≡ some (t, rest)
      → length xs ≡ length rest + 1
  length-pop_back xs t rest h =
      omega (arith, ap length (pop_back-some xs t rest h), length-append rest (t ∷ []))

  pub pop_back-append : (xs : List A) (t : A) → pop_back (xs ++ t ∷ []) ≡ some (t, xs)
  unfolding pop_back
  pop_back-append [] t = refl
  pop_back-append (x ∷ xs) t = rw (pop_back-append xs t)
