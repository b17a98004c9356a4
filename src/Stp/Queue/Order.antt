-- ===== src/Stp/Queue/Order.antt =====
-- The order in which the queue of stp/UnbMpMcTemplateQueue.hpp gives back what it accepted, over any
-- interleaving of producers and consumers.
use mathlib.Core.List.{Perm}
use mathlib.Core.List.Perm
use rtl.Base.{
  ◌≡◌, sym, ◌∙◌, ap, inl, inr, List, [], ◌∷◌, ◌++◌, some, All, arith, append-nil, append_assoc,
  Option-cases,
}
use rtl.Stp.Container.{ContainerOps}
use rtl.Stp.Container.Laws.{ContainerLaws, FifoLaws}
use rtl.Stp.Queue.{
  Queue, Event, puts, put_waits, put_resumes, put_for_resumes, takes, try_takes, take_resumes,
  clears, closes, resizes, Response, take_result, Progress, TakeResult, take_locked, step,
  accepted_by, taken_by, run,
}

-- `clear` throws entries away; the laws below are about histories without it.
abbrev pub IsKept : {T : Type 0} → Event T → Type 0
IsKept clears = ⊥
IsKept _ = Unit

-- What a step takes out and leaves, against what was there and what it put in: related by `R`,
-- where `R` holds of equal lists and of every single `push` and `pop`.
module _ {T : Type 0} (ops : ContainerOps T) (laws : ContainerLaws ops)
    (R : List T → List T → Type 0) (of_eq : (xs ys : List T) → xs ≡ ys → R xs ys)
    (of_push : (b : ops.Buffer) (t : T)
      → R (laws.contents (ops.push b t)) (laws.contents b ++ t ∷ []))
    (of_pop : (b : ops.Buffer) (t : T) (b' : ops.Buffer)
      → ops.pop b ≡ some (t, b')
      → R (t ∷ laws.contents b') (laws.contents b)) where
  abbrev contents : Queue ops.Buffer → List T
  contents q = laws.contents q.buffer

  abbrev Balanced : Queue ops.Buffer → Response T × Queue ops.Buffer → Type 0
  Balanced q (r, q') = R (taken_by r ++ contents q') (contents q ++ accepted_by r)

  abbrev answer : Progress (TakeResult T) × Queue ops.Buffer → Response T × Queue ops.Buffer
  answer (r, q) = (take_result r, q)

  unchanged : (q : Queue ops.Buffer) → R (contents q) (contents q ++ [])
  unchanged q = of_eq _ _ (sym (append-nil _))

  take_locked-Balanced : (q : Queue ops.Buffer) → Balanced q (answer (take_locked ops q))
  take_locked-Balanced q = elim (Option-cases (ops.pop q.buffer)) [
    | inl e ↦ rw (e, take_locked) (unchanged q)
    | inr ((t, rest), e) ↦ rw (e, take_locked, append-nil (contents q)) (of_pop q.buffer t rest e)
  ]

  step-Balanced : (q : Queue ops.Buffer) (e : Event T) → IsKept e → Balanced q (step ops q e)
  unfolding step
  step-Balanced q (puts t) _ = ground (arith, unchanged q, of_push q.buffer t)
  step-Balanced q (put_waits t) _ = ground (arith, unchanged q, of_push q.buffer t)
  step-Balanced q (put_resumes t) _ = ground (arith, unchanged q, of_push q.buffer t)
  step-Balanced q (put_for_resumes t late) _ = ground (arith, unchanged q, of_push q.buffer t)
  step-Balanced q takes _ = ground (arith, unchanged q, take_locked-Balanced q)
  step-Balanced q try_takes _ = ground (arith, unchanged q, take_locked-Balanced q)
  step-Balanced q (take_resumes late) _ = ground (arith, unchanged q, take_locked-Balanced q)
  step-Balanced q clears h = absurd h
  step-Balanced q closes _ = unchanged q
  step-Balanced q (resizes n) _ = unchanged q

module _ {T : Type 0} (ops : ContainerOps T) (laws : ContainerLaws ops) where
  -- With a container that keeps the order of arrival: over any history of puts, takes, waits that
  -- return, resizes and closes, on any number of threads, what was taken out, in order, followed
  -- by what is still queued is what was queued at the start followed by what was accepted, in
  -- order.
  pub run-in_order :
      (fifo : FifoLaws ops laws) (q : Queue ops.Buffer) (es : List (Event T))
      → All IsKept es
      → let (accepted, taken, end) = run ops q es in
        taken ++ laws.contents end.buffer ≡ laws.contents q.buffer ++ accepted
  unfolding run
  run-in_order fifo q [] h = sym (append-nil _)
  run-in_order fifo q (e ∷ es) (k, h) =
      let (r, q') = step ops q e in
      let (later_in, later_out, end) = run ops q' es in
      append_assoc (taken_by r) later_out (laws.contents end.buffer)
      ∙ ap (◌++◌ (taken_by r)) (run-in_order fifo q' es h)
      ∙ sym (append_assoc (taken_by r) (laws.contents q'.buffer) later_in)
      ∙ ap (λ xs. xs ++ later_in)
          (step-Balanced ops laws ◌≡◌ (λ _ _ p. p) fifo.push_last
            (λ b t b' p. sym (fifo.pop_first b t b' p)) q e k)
      ∙ append_assoc (laws.contents q.buffer) (accepted_by r) later_in

  -- With any of the containers: over any such history what was taken out together with what is
  -- still queued is a permutation of what was queued at the start together with what was accepted.
  pub run-perm :
      (q : Queue ops.Buffer) (es : List (Event T))
      → All IsKept es
      → let (accepted, taken, end) = run ops q es in
        Perm (taken ++ laws.contents end.buffer) (laws.contents q.buffer ++ accepted)
  unfolding run
  run-perm q [] h = rw (append-nil (laws.contents q.buffer)) (Perm.refl _)
  run-perm q (e ∷ es) (k, h) =
      let (r, q') = step ops q e in
      let (later_in, later_out, end) = run ops q' es in
      rw (append_assoc (taken_by r) later_out, ← append_assoc (laws.contents q.buffer))
        (Perm.trans (Perm.append_left (taken_by r) (run-perm q' es h)) (
          rw (← append_assoc (taken_by r)) (
            Perm.append_right later_in (
              step-Balanced ops laws Perm (λ _ _ p. rw p (Perm.refl _)) laws.push_contents
                (λ b t b' p. Perm.symm (laws.pop_some b t b' p)) q e k))))
