-- ===== src/Stp/Container/Sorted.antt =====
-- Heap algorithms that have the laws of Stp/Container/Heaps: a heap that stays sorted.
use mathlib.Core.Bool.{Bool-set}
use mathlib.Core.List.{Perm, Mem, eq-or-mem_of_mem-cons, not-mem-nil}
use mathlib.Core.List.Perm
use mathlib.Core.Logic.Or
use rtl.Base.{
  ◌≡◌, refl, sym, subst, ℕ, Bool, true, false, inl, inr, Option, List, [], ◌∷◌, some, none,
  pop_back, pop_back-none, pop_back-append, All, ltb, arith, if◌then◌else◌, Option-cases,
  Bool-cases,
}
use rtl.Stp.Container.{HeapAlgorithms, push_back}
use rtl.Stp.Container.Laws.{pop_back-perm}
use rtl.Stp.Container.Heaps.{HeapLaws}

unfoldable pub insert : {T : Type 0} → (T → T → Bool) → T → List T → List T
insert compare t [] = t ∷ []
insert compare t (x ∷ xs) =
    let rest = insert compare t xs in if compare x t then t ∷ x ∷ xs else x ∷ rest

abbrev pub insert_popped : {T : Type 0} → (T → T → Bool) → Option (T × List T) → List T
insert_popped compare none = []
insert_popped compare (some (t, rest)) = insert compare t rest

-- The last entry moves to its place among those before it.
abbrev pub insert_last : {T : Type 0} → (T → T → Bool) → List T → List T
insert_last compare xs = insert_popped compare (pop_back xs)

abbrev pub front_to_back : {T : Type 0} → List T → List T
front_to_back [] = []
front_to_back (x ∷ xs) = push_back xs x

abbrev pub sorted : (T : Type 0) → HeapAlgorithms T
sorted T = record { push_heap = insert_last; pop_heap = λ compare. front_to_back }

insert-perm : (t : ℕ) (xs : List ℕ) → Perm (insert ltb t xs) (t ∷ xs)
unfolding insert
insert-perm t [] = Perm.refl _
insert-perm t (x ∷ xs) = elim (Bool-cases (ltb x t)) [
  | inl e ↦ rw e (Perm.refl _)
  | inr e ↦ rw e (Perm.trans (Perm.cons x (insert-perm t xs)) (Perm.swap t x xs))
]

pub insert_last-perm : (xs : List ℕ) → Perm (insert_last ltb xs) xs
insert_last-perm xs = elim (Option-cases (pop_back xs)) [
  | inl e ↦
      subst (λ p. Perm (insert_popped ltb p) xs) (sym e) (rw (pop_back-none xs e) (Perm.refl _))
  | inr ((t, rest), e) ↦
      subst (λ p. Perm (insert_popped ltb p) xs) (sym e)
        (Perm.trans (insert-perm t rest) (Perm.symm (pop_back-perm xs t rest e)))
]

pub front_to_back-perm : (xs : List ℕ) → Perm (front_to_back xs) xs
front_to_back-perm [] = Perm.refl _
front_to_back-perm (x ∷ xs) = pop_back-perm (push_back xs x) x xs (pop_back-append xs x)

-- No entry is above one before it.
abbrev pub Descends : List ℕ → Type 0
Descends [] = Unit
Descends (x ∷ xs) = All (λ y. ltb x y ≡ false) xs × Descends xs

insert-All :
    (x t : ℕ) (xs : List ℕ)
    → ltb x t ≡ false
    → All (λ y. ltb x y ≡ false) xs
    → All (λ y. ltb x y ≡ false) (insert ltb t xs)
unfolding insert
insert-All x t [] h hs = (h, tt)
insert-All x t (z ∷ zs) h (k, hs) = elim (Bool-cases (ltb z t)) [
  | inl e ↦ rw e (h, (k, hs))
  | inr e ↦ rw e (k, insert-All x t zs h hs)
]

All-below :
    (t x : ℕ) (xs : List ℕ)
    → ltb x t ≡ true
    → All (λ y. ltb x y ≡ false) xs
    → All (λ y. ltb t y ≡ false) xs
All-below t x [] h hs = tt
All-below t x (z ∷ zs) h (k, hs) = (ground arith, All-below t x zs h hs)

insert-Descends : (t : ℕ) (xs : List ℕ) → Descends xs → Descends (insert ltb t xs)
unfolding insert
insert-Descends t [] h = (tt, tt)
insert-Descends t (x ∷ xs) (above, h) = elim (Bool-cases (ltb x t)) [
  | inl e ↦ rw e ((ground arith, All-below t x xs e above), (above, h))
  | inr e ↦ rw e (insert-All x t xs e above, insert-Descends t xs h)
]

pub insert_last-Descends :
    (xs : List ℕ) (t : ℕ) → Descends xs → Descends (insert_last ltb (push_back xs t))
insert_last-Descends xs t h =
    subst (λ p. Descends (insert_popped ltb p)) (sym (pop_back-append xs t))
      (insert-Descends t xs h)

pub mem-All :
    (x : ℕ) (xs : List ℕ) → All (λ y. ltb x y ≡ false) xs → (y : ℕ) → Mem y xs → ltb x y ≡ false
mem-All x [] h y m = absurd (not-mem-nil m)
mem-All x (z ∷ zs) (h, hs) y m =
    Or.elim (Bool-set _ _) (eq-or-mem_of_mem-cons m) (λ e. subst (λ w. ltb x w ≡ false) (sym e) h)
      (λ m'. mem-All x zs hs y m')

pub ltb_self : (x : ℕ) → ltb x x ≡ false
ltb_self x = ground arith

abbrev pub sorted_laws : HeapLaws (sorted ℕ) ltb
sorted_laws = record {
  IsHeap = Descends;
  heap_nil = tt;
  heap_front = λ x xs h y m. mem-All x (x ∷ xs) (ltb_self x, h.0) y m;
  push_heap_perm = insert_last-perm;
  pop_heap_perm = front_to_back-perm;
  push_heap_heap = insert_last-Descends;
  pop_heap_back = λ x xs h. (xs, refl, h.1);
}
