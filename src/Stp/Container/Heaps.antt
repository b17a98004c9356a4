-- ===== src/Stp/Container/Heaps.antt =====
-- `MovablePriorityQueue` over the documented behaviour of `std::push_heap` and `std::pop_heap`.
use mathlib.Core.List.{Perm, Mem, mem-cons_of_mem}
use mathlib.Core.List.Perm
use rtl.Base.{
  ◌∙◌, ◌≡◌, refl, sym, subst, Bool, false, List, [], ◌∷◌, some, none, pop_back, pop_back-none,
  pop_back-append, arith, length, length-perm, some-inj, ap,
}
use rtl.Stp.Container.{HeapAlgorithms, push_back, priority_ops, emplace, pop_move}
use rtl.Stp.Container.Laws.{ContainerLaws, pop_back-perm}

-- What the standard says of them: both only rearrange their range; the front of a heap is one of its
-- largest entries; `push_heap` makes a heap of a heap with an entry behind it; and `pop_heap` puts
-- the front of a heap at the back, with a heap before it.
pub record HeapLaws {T : Type 0} (std : HeapAlgorithms T) (compare : T → T → Bool) : Type 1 where
  pub IsHeap : List T → Type 0
  pub heap_nil : IsHeap []
  pub heap_front :
      (x : T) (xs : List T) → IsHeap (x ∷ xs) → (y : T) → Mem y (x ∷ xs) → compare x y ≡ false
  pub push_heap_perm : (xs : List T) → Perm (std.push_heap compare xs) xs
  pub pop_heap_perm : (xs : List T) → Perm (std.pop_heap compare xs) xs
  pub push_heap_heap :
      (xs : List T) (t : T) → IsHeap xs → IsHeap (std.push_heap compare (push_back xs t))
  pub pop_heap_back :
      (x : T) (xs : List T)
      → IsHeap (x ∷ xs)
      → (rest : List T) × (std.pop_heap compare (x ∷ xs) ≡ push_back rest x) × IsHeap rest

module _ {T : Type 0} (std : HeapAlgorithms T) (compare : T → T → Bool)
    (laws : HeapLaws std compare) where
  abbrev pub AtLeast : T → List T → Type 0
  AtLeast t xs = (y : T) → Mem y xs → compare t y ≡ false

  pub pop_move-none : (xs : List T) → pop_move std compare xs ≡ none → xs ≡ []
  unfolding pop_move
  pop_move-none [] h = refl
  pop_move-none (x ∷ xs) h =
      let p = laws.pop_heap_perm (x ∷ xs) in
      absurd (omega (arith, length-perm p, ap length (pop_back-none _ h)))

  pub pop_move-perm :
      (xs : List T) (t : T) (rest : List T)
      → pop_move std compare xs ≡ some (t, rest)
      → Perm xs (t ∷ rest)
  unfolding pop_move
  pop_move-perm [] t rest h = cc
  pop_move-perm (x ∷ xs) t rest h =
      Perm.trans (Perm.symm (laws.pop_heap_perm (x ∷ xs))) (pop_back-perm _ t rest h)

  -- What comes out of a heap is at least what stays, which is a heap.
  pub pop_move-AtLeast :
      (xs : List T) (t : T) (rest : List T)
      → laws.IsHeap xs
      → pop_move std compare xs ≡ some (t, rest)
      → AtLeast t rest × laws.IsHeap rest
  unfolding pop_move
  pop_move-AtLeast [] t rest heap h = cc
  pop_move-AtLeast (x ∷ xs) t rest heap h =
      let (left, e, heap') = laws.pop_heap_back x xs heap in
      let out : some (x, left) ≡ some (t, rest) =
        sym (pop_back-append left x) ∙ ap pop_back (sym e) ∙ h in
      let p : Perm (x ∷ left) (x ∷ xs) =
        Perm.trans (Perm.symm (pop_back-perm _ x left (ap pop_back e ∙ pop_back-append left x)))
          (laws.pop_heap_perm (x ∷ xs)) in
      let above : AtLeast x left =
        λ y m. laws.heap_front x xs heap y ((Perm.mem_iff p).0 (mem-cons_of_mem x m)) in
      subst (λ p. AtLeast p.0 p.1 × laws.IsHeap p.1) (some-inj out) (above, heap')

  abbrev pub priority_laws : ContainerLaws (priority_ops T std compare)
  unfolding emplace
  priority_laws = record {
    contents = λ b. b;
    size_contents = λ b. refl;
    empty_contents = λ b. refl;
    push_contents = λ b t. laws.push_heap_perm (push_back b t);
    pop_none = pop_move-none;
    pop_some = pop_move-perm;
    clear_contents = λ b. refl;
  }
