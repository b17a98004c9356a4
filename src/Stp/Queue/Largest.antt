-- ===== src/Stp/Queue/Largest.antt =====
-- What comes out of the queue of stp/UnbMpMcTemplateQueue.hpp where its container is
-- `MovablePriorityQueue`, over any interleaving of producers and consumers.
use rtl.Base.{◌≡◌, refl, subst, Bool, false, List, [], ◌∷◌, inl, inr, arith, Option-cases}
use rtl.Stp.Container.{HeapAlgorithms, ContainerOps, priority_ops, emplace}
use rtl.Stp.Container.Heaps.{HeapLaws, AtLeast, pop_move-AtLeast}
use rtl.Stp.Queue.{
  silent, done, waiting, put_result, PutResultErrorCode, TakeResultErrorCode, without_item, Queue,
  Event, puts, put_waits, put_resumes, put_for_resumes, takes, try_takes, take_resumes, clears,
  closes, resizes, Response, take_result, Progress, take_locked, step, taken_by, run,
}

module _ {T : Type 0} (std : HeapAlgorithms T) (compare : T → T → Bool)
    (laws : HeapLaws std compare) where
  abbrev ops : ContainerOps T
  ops = priority_ops T std compare

  -- After a step there is a heap, and no entry in it is above one that the step took out.
  unfoldable pub TakesLargest : Response T × Queue (List T) → Type 0
  TakesLargest (r, q) =
      laws.IsHeap q.buffer × ((t : T) → taken_by r ≡ t ∷ [] → AtLeast std compare laws t q.buffer)

  push-heap : (xs : List T) (t : T) → laws.IsHeap xs → laws.IsHeap (emplace std compare xs t)
  unfolding emplace
  push-heap xs t h = laws.push_heap_heap xs t h

  idle-TakesLargest :
      (r : Response T) (q : Queue (List T))
      → laws.IsHeap q.buffer
      → taken_by r ≡ []
      → TakesLargest (r, q)
  unfolding TakesLargest
  idle-TakesLargest r q h none_out = (h, λ t out. cc)

  take_locked-TakesLargest :
      (q : Queue (List T))
      → laws.IsHeap q.buffer
      → let (r, q') = take_locked ops q in TakesLargest (take_result r, q')
  unfolding TakesLargest
  take_locked-TakesLargest q h = elim (Option-cases (ops.pop q.buffer)) [
    | inl e ↦ rw (e, take_locked) (h, λ t none_out. cc)
    | inr ((t, rest), e) ↦
        let (above, heap) = pop_move-AtLeast std compare laws q.buffer t rest h e in
        rw (e, take_locked)
          (
            heap,
            λ t' out y m.
                let same : t ≡ t' = cc in subst (λ x. compare x y ≡ false) same (above y m),
          )
  ]

  put-TakesLargest :
      (q q' : Queue (List T)) (t : T) (r : Progress PutResultErrorCode)
      → laws.IsHeap q'.buffer
      → TakesLargest (put_result t r, q')
  unfolding TakesLargest
  put-TakesLargest q q' t r h = (h, λ t' none_out. cc)

  step-TakesLargest :
      (q : Queue (List T)) (e : Event T) → laws.IsHeap q.buffer → TakesLargest (step ops q e)
  unfolding step
  step-TakesLargest q (puts t) h =
      put-TakesLargest q _ t _ (ground (arith, h, push-heap q.buffer t h))
  step-TakesLargest q (put_waits t) h =
      put-TakesLargest q _ t _ (ground (arith, h, push-heap q.buffer t h))
  step-TakesLargest q (put_resumes t) h =
      put-TakesLargest q _ t _ (ground (arith, h, push-heap q.buffer t h))
  step-TakesLargest q (put_for_resumes t late) h =
      put-TakesLargest q _ t _ (ground (arith, h, push-heap q.buffer t h))
  step-TakesLargest q takes h =
      ground (arith, idle-TakesLargest (take_result waiting) q h refl, take_locked-TakesLargest q h)
  step-TakesLargest q try_takes h =
      ground (arith, idle-TakesLargest (take_result waiting) q h refl, take_locked-TakesLargest q h)
  step-TakesLargest q (take_resumes late) h = ground (
    arith,
    idle-TakesLargest (take_result waiting) q h refl,
    idle-TakesLargest (take_result (done (without_item ops TakeResultErrorCode.timeout))) q h refl,
    idle-TakesLargest (take_result (done (without_item ops TakeResultErrorCode.closed))) q h refl,
    take_locked-TakesLargest q h,
  )
  step-TakesLargest q clears h = idle-TakesLargest silent _ laws.heap_nil refl
  step-TakesLargest q closes h = idle-TakesLargest silent _ h refl
  step-TakesLargest q (resizes n) h = idle-TakesLargest silent _ h refl

  TakesLargest-heap : (r : Response T × Queue (List T)) → TakesLargest r → laws.IsHeap r.1.buffer
  unfolding TakesLargest
  TakesLargest-heap r h = h.0

  run-heap :
      (q : Queue (List T)) (es : List (Event T))
      → laws.IsHeap q.buffer
      → laws.IsHeap (run ops q es).2.buffer
  unfolding run
  run-heap q [] h = h
  run-heap q (e ∷ es) h =
      run-heap (step ops q e).1 es (TakesLargest-heap _ (step-TakesLargest q e h))

  -- A queue of a `MovablePriorityQueue` that begins with a heap, such as none, after any history of
  -- any calls on any threads: the next step leaves a heap, and if it takes an entry out, no entry
  -- that stays is above it in the order of `Compare`.
  pub run-TakesLargest :
      (q : Queue (List T)) (es : List (Event T)) (e : Event T)
      → laws.IsHeap q.buffer
      → TakesLargest (step ops (run ops q es).2 e)
  run-TakesLargest q es e h = step-TakesLargest (run ops q es).2 e (run-heap q es h)
