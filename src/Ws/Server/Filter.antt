-- ===== src/Ws/Server/Filter.antt =====
-- `std::erase_if` as ws/server/WsServer.hpp uses it.
use rtl.Base.{ℕ, ◌≡◌, refl, inl, inr, Bool, ◌||◌, List, [], ◌∷◌, ◌++◌, arith, Bool-cases}
use rtl.Ws.Server.{erase_if}

pub erase_if-append :
    (p : ℕ → Bool) (xs ys : List ℕ) → erase_if p (xs ++ ys) ≡ erase_if p xs ++ erase_if p ys
unfolding erase_if
erase_if-append p [] ys = refl
erase_if-append p (x ∷ xs) ys = elim (Bool-cases (p x)) [
  | inl e ↦ ground (arith, erase_if-append p xs ys)
  | inr e ↦ ground (arith, erase_if-append p xs ys)
]

-- Twice is once, with either reason.
pub erase_if-erase_if :
    (p q r : ℕ → Bool)
    → ((x : ℕ) → r x ≡ (q x || p x))
    → (xs : List ℕ) → erase_if p (erase_if q xs) ≡ erase_if r xs
unfolding erase_if
erase_if-erase_if p q r h [] = refl
erase_if-erase_if p q r h (x ∷ xs) =
    let rest = erase_if-erase_if p q r h xs in
    let here = h x in
    elim (Bool-cases (q x)) [
      | inl e ↦ ground arith
      | inr e ↦ elim (Bool-cases (p x)) [ inl f ↦ ground arith | inr f ↦ ground arith ]
    ]
