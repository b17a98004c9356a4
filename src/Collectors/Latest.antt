-- ===== src/Collectors/Latest.antt =====
-- What the buffer of collectors/BufferCollectorTemplate.h holds.
use rtl.Base.{
  if◌then◌else◌, append-nil, ℕ, suc, ◌-◌, ◌≤◌, ◌≡◌, refl, sym, ap, ◌∙◌, subst, inl, inr, Bool, true,
  List, [], ◌∷◌, ◌++◌, arith, length, length-append, drop, pop_back, length-pop_back, Option-cases,
  Bool-cases, All, ltb, ltb→lt, append_assoc,
}
use rtl.Collectors.{
  BufferCollector, make_collector, pop_front, shrink, Call, takes, clears, pops_first, pops_last,
  sets_max_size, step, run,
}

module _ {T : Type 0} (has_value : T → Bool) (no_value : T) (max_size : ℕ) where
  abbrev pub IsWithin : BufferCollector T → Type 0
  IsWithin c = length c.buffer ≤ c.max_buffer_size

  length-shrink :
      (limit : ℕ) (xs : List T) → length (shrink has_value no_value max_size limit xs) ≤ limit
  length-shrink limit [] = omega arith
  length-shrink limit (x ∷ xs) = ground (arith, length-shrink limit xs)

  length-pop_front :
      (xs : List T) → length (pop_front has_value no_value max_size xs) ≤ length xs - 1
  length-pop_front [] = omega arith
  length-pop_front (x ∷ xs) = omega arith

  step-IsWithin :
      (call : Call has_value no_value max_size) (c : BufferCollector T)
      → IsWithin c
      → IsWithin (step has_value no_value max_size c call)
  unfolding step
  step-IsWithin (takes x) c h =
      ground (arith, length-append c.buffer (x ∷ []), length-pop_front (c.buffer ++ x ∷ []))
  step-IsWithin clears c h = omega arith
  step-IsWithin pops_first c h = ground (arith, length-pop_front c.buffer)
  step-IsWithin pops_last c h = elim (Option-cases (pop_back c.buffer)) [
    | inl e ↦ ground arith
    | inr ((x, rest), e) ↦ ground (arith, length-pop_back c.buffer x rest e)
  ]
  step-IsWithin (sets_max_size n) c h = length-shrink _ c.buffer

  run-IsWithin_from :
      (calls : List (Call has_value no_value max_size)) (c : BufferCollector T)
      → IsWithin c
      → IsWithin (run has_value no_value max_size c calls)
  unfolding run
  run-IsWithin_from [] c h = h
  run-IsWithin_from (call ∷ calls) c h =
      run-IsWithin_from calls (step has_value no_value max_size c call) (step-IsWithin call c h)

  -- Over any calls on a fresh collector, its buffer never holds more than its maximum.
  pub run-IsWithin_max :
      (calls : List (Call has_value no_value max_size))
      → IsWithin
          (run has_value no_value max_size (make_collector has_value no_value max_size) calls)
  run-IsWithin_max calls = run-IsWithin_from calls _ (omega arith)

  drop_tail :
      (m : ℕ) (y : T) (z : List T)
      → m ≤ length z
      → drop (length z - m) z ≡ drop (suc (length z) - m) (y ∷ z)
  drop_tail m y z h =
      let counts : suc (length z - m) ≡ suc (length z) - m = omega arith in
      ap (λ k. drop k (y ∷ z)) counts

  -- One entry more, and the entries that follow.
  abbrev added : List T → ℕ → T → List T
  added b m x =
      if ltb m (length (b ++ x ∷ []))
      then pop_front has_value no_value max_size (b ++ x ∷ [])
      else b ++ x ∷ []

  added-latest :
      (b xs : List T) (m : ℕ) (x : T)
      → length b ≤ m
      → drop (length (added b m x ++ xs) - m) (added b m x ++ xs)
        ≡ drop (length (b ++ x ∷ xs) - m) (b ++ x ∷ xs)
  added-latest b xs m x h = elim (Bool-cases (ltb m (length (b ++ x ∷ [])))) [
    | inr e ↦ rw (e, append_assoc b (x ∷ []) xs) refl
    | inl e ↦ rw e (full b (omega (arith, ltb→lt _ _ e, length-append b (x ∷ []))))
  ]
    where
      full :
          (b : List T)
          → m ≤ length b
          → let kept = pop_front has_value no_value max_size (b ++ x ∷ []) ++ xs in
            drop (length kept - m) kept ≡ drop (length (b ++ x ∷ xs) - m) (b ++ x ∷ xs)
      full [] k = drop_tail m x xs (omega arith)
      full (y ∷ ys) k =
          rw (append_assoc ys (x ∷ []) xs)
            (drop_tail m y (ys ++ x ∷ xs) (omega (arith, length-append ys (x ∷ xs))))

  take_data-added :
      (x : T) (c : BufferCollector T)
      → has_value x ≡ true
      → step has_value no_value max_size c (takes x)
        ≡ record c { buffer = added c.buffer c.max_buffer_size x }
  unfolding step
  take_data-added x c h = ground arith

  -- The entries that are taken, one call each.
  abbrev pub takes_all : List T → List (Call has_value no_value max_size)
  takes_all [] = []
  takes_all (x ∷ xs) = takes x ∷ takes_all xs

  -- For a buffer within its maximum that takes entries with a value: it holds the latest of its
  -- entries and of those, in their order, as many as the maximum allows.
  pub run-takes_all :
      (xs : List T) (c : BufferCollector T)
      → All (λ x. has_value x ≡ true) xs
      → IsWithin c
      → let all = c.buffer ++ xs in
        (run has_value no_value max_size c (takes_all xs)).buffer
        ≡ drop (length all - c.max_buffer_size) all
  unfolding run
  run-takes_all [] c valid h =
      let all_fit : length (c.buffer ++ []) - c.max_buffer_size ≡ 0 =
        omega (arith, length-append c.buffer []) in
      sym (ap (λ k. drop k (c.buffer ++ [])) all_fit ∙ append-nil c.buffer)
  run-takes_all (x ∷ xs) c (first, valid) h =
      let now = take_data-added x c first in
      let c' : BufferCollector T = record c { buffer = added c.buffer c.max_buffer_size x } in
      ap (λ d. (run has_value no_value max_size d (takes_all xs)).buffer) now
      ∙ run-takes_all xs c' valid (subst IsWithin now (step-IsWithin (takes x) c h))
      ∙ added-latest c.buffer xs c.max_buffer_size x h
