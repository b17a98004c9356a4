-- ===== src/Stp/Queue/Bounds.antt =====
-- The bound of the queue, and what a closed queue does: `put*`, `tryTake` and `close` of
-- stp/UnbMpMcTemplateQueue.hpp.
use rtl.Base.{
  ◌+◌, ◌≤◌, ◌≡◌, ◌≢◌, ap, ◌⊎◌, inl, inr, false, List, [], ◌∷◌, some, All, arith, length,
  length-append, length-perm, Option-cases,
}
use rtl.Stp.Container.{ContainerOps}
use rtl.Stp.Container.Laws.{ContainerLaws}
use rtl.Stp.Queue.{
  Queue, Event, puts, put_waits, put_resumes, put_for_resumes, takes, try_takes, take_resumes,
  clears, closes, resizes, take_result, undefined, take_locked, step, run,
}

module _ {T : Type 0} (ops : ContainerOps T) (laws : ContainerLaws ops) where
  open ops use {Buffer}

  -- The measure of a container that a `pop` lowers.
  size-pop :
      (b : Buffer) (t : T) (b' : Buffer) → ops.pop b ≡ some (t, b') → ops.size b ≡ ops.size b' + 1
  size-pop b t b' e =
      omega
        (arith, laws.size_contents b, laws.size_contents b', length-perm (laws.pop_some b t b' e))

  size-push : (b : Buffer) (t : T) → ops.size (ops.push b t) ≡ ops.size b + 1
  size-push b t = omega (
    arith,
    laws.size_contents b,
    laws.size_contents (ops.push b t),
    length-perm (laws.push_contents b t),
    length-append (laws.contents b) (t ∷ []),
  )

  size-clear : (b : Buffer) → ops.size (ops.clear b) ≡ 0
  size-clear b = omega (arith, laws.size_contents (ops.clear b), ap length (laws.clear_contents b))

  -- The queue holds no more than its bound, where it has one.
  abbrev pub IsWithin : Queue Buffer → Type 0
  IsWithin q = (q.max_queue_size ≡ 0) ⊎ (ops.size q.buffer ≤ q.max_queue_size)

  abbrev pub KeepsBound : Event T → Type 0
  KeepsBound (resizes n) = ⊥
  KeepsBound _ = Unit

  take_locked-IsWithin : (q : Queue Buffer) → IsWithin q → IsWithin (take_locked ops q).1
  take_locked-IsWithin q h = elim (Option-cases (ops.pop q.buffer)) [
    | inl e ↦ rw (e, take_locked) h
    | inr ((t, rest), e) ↦ rw (e, take_locked) (omega (arith, size-pop q.buffer t rest e))
  ]

  step-IsWithin :
      (q : Queue Buffer) (e : Event T) → KeepsBound e → IsWithin q → IsWithin (step ops q e).1
  unfolding step
  step-IsWithin q (puts t) k h = ground (arith, size-push q.buffer t)
  step-IsWithin q (put_waits t) k h = ground (arith, size-push q.buffer t)
  step-IsWithin q (put_resumes t) k h = ground (arith, size-push q.buffer t)
  step-IsWithin q (put_for_resumes t late) k h = ground (arith, size-push q.buffer t)
  step-IsWithin q takes k h = ground (arith, take_locked-IsWithin q h)
  step-IsWithin q try_takes k h = ground (arith, take_locked-IsWithin q h)
  step-IsWithin q (take_resumes late) k h = ground (arith, take_locked-IsWithin q h)
  step-IsWithin q clears k h = omega (arith, size-clear q.buffer)
  step-IsWithin q closes k h = h
  step-IsWithin q (resizes n) k h = absurd k

  -- Over any history in which the bound is not changed, whatever the interleaving and however
  -- many producers were asleep, a queue that was within its bound stays within it.
  pub run-IsWithin :
      (q : Queue Buffer) (es : List (Event T))
      → All KeepsBound es
      → IsWithin q
      → IsWithin (run ops q es).2
  unfolding run
  run-IsWithin q [] k h = h
  run-IsWithin q (e ∷ es) (k, ks) h = run-IsWithin (step ops q e).1 es ks (step-IsWithin q e k h)

  -- The result of a take is never that of a `front` or `back` on an empty container.
  take_locked-ne-undefined :
      (q : Queue Buffer) → ops.empty q.buffer ≡ false → (take_locked ops q).0 ≢ undefined
  take_locked-ne-undefined q full = elim (Option-cases (ops.pop q.buffer)) [
    | inl e ↦ ground (arith, laws.empty_contents q.buffer, laws.pop_none q.buffer e)
    | inr ((t, rest), e) ↦ rw (e, take_locked) (λ h. cc)
  ]

  -- No step of any thread, in any state of the queue, calls `front` or `back` of an empty
  -- container.
  pub step-ne-undefined :
      (q : Queue Buffer) (e : Event T) → (step ops q e).0 ≢ take_result undefined
  unfolding step
  step-ne-undefined q (puts t) = ground arith
  step-ne-undefined q (put_waits t) = ground arith
  step-ne-undefined q (put_resumes t) = ground arith
  step-ne-undefined q (put_for_resumes t late) = ground arith
  step-ne-undefined q takes = ground (arith, take_locked-ne-undefined q)
  step-ne-undefined q try_takes = ground (arith, take_locked-ne-undefined q)
  step-ne-undefined q (take_resumes late) = ground (arith, take_locked-ne-undefined q)
  step-ne-undefined q clears = ground arith
  step-ne-undefined q closes = ground arith
  step-ne-undefined q (resizes n) = ground arith
