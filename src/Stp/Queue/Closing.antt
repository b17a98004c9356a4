-- ===== src/Stp/Queue/Closing.antt =====
-- `close` of stp/UnbMpMcTemplateQueue.hpp, and the producers and consumers that sleep.
use rtl.Base.{◌≡◌, ◌≢◌, refl, ◌⊎◌, inl, inr, Bool, List, [], ◌∷◌, some, arith, Option-cases}
use rtl.Stp.Container.{ContainerOps}
use rtl.Stp.Container.Laws.{ContainerLaws, empty-pop}
use rtl.Stp.Queue.{
  Queue, Event, puts, put_waits, put_resumes, put_for_resumes, takes, try_takes, take_resumes,
  clears, closes, resizes, done, waiting, opened, closing, PutResultErrorCode, TakeResultErrorCode,
  item, put, put_wait, put_wait_resume, put_wait_for_resume, take_locked, try_take_resume, close,
  without_item, step, accepted_by, run,
}

module _ {T : Type 0} (ops : ContainerOps T) (laws : ContainerLaws ops) where
  open ops use {Buffer}

  abbrev Refuses : Queue Buffer → Event T → Type 0
  Refuses q e = let (r, q') = step ops q e in (accepted_by r ≡ []) × (q'.state ≡ closing)

  take_locked-state : (q : Queue Buffer) → (take_locked ops q).1.state ≡ q.state
  take_locked-state q = elim (Option-cases (ops.pop q.buffer)) [
    | inl e ↦ rw (e, take_locked)
    | inr (_, e) ↦ rw (e, take_locked)
  ]

  step-Refuses : (q : Queue Buffer) (e : Event T) → q.state ≡ closing → Refuses q e
  unfolding step
  step-Refuses q (puts t) h = ground arith
  step-Refuses q (put_waits t) h = ground arith
  step-Refuses q (put_resumes t) h = ground arith
  step-Refuses q (put_for_resumes t late) h = ground arith
  step-Refuses q takes h = ground (arith, take_locked-state q)
  step-Refuses q try_takes h = ground (arith, take_locked-state q)
  step-Refuses q (take_resumes late) h = ground (arith, take_locked-state q)
  step-Refuses q clears h = ground arith
  step-Refuses q closes h = ground arith
  step-Refuses q (resizes n) h = ground arith

  run-closing :
      (q : Queue Buffer) (es : List (Event T))
      → q.state ≡ closing
      → let (accepted, _, end) = run ops q es in (accepted ≡ []) × (end.state ≡ closing)
  unfolding run
  run-closing q [] h = (refl, h)
  run-closing q (e ∷ es) h =
      let (none_now, still) = step-Refuses q e h in
      let (none_later, end) = run-closing (step ops q e).1 es still in
      (rw (none_now, none_later) refl, end)

  -- After `close` the queue accepts nothing more and never opens again, whatever any thread does.
  pub run-close :
      (q : Queue Buffer) (es : List (Event T))
      → let (accepted, _, end) = run ops (close ops q) es in (accepted ≡ []) × (end.state ≡ closing)
  unfolding close
  run-close q es = run-closing _ es refl

  -- Once the queue is closed, every sleeper whose wait returns also returns from its call: a
  -- producer with `closed`; a consumer with the next item while one is left, and with `closed`
  -- only when none is.
  pub close_releases :
      (q : Queue Buffer) (task : T) (timed_out : Bool)
      → q.state ≡ closing
      → (put_wait_resume ops q task ≡ (done PutResultErrorCode.closed, q))
        × (put_wait_for_resume ops q task timed_out ≡ (done PutResultErrorCode.closed, q))
        × (((laws.contents q.buffer ≡ [])
              × (try_take_resume ops q timed_out
                  ≡ (done (without_item ops TakeResultErrorCode.closed), q)))
            ⊎ ((t : T) × (rest : Buffer) × (ops.pop q.buffer ≡ some (t, rest))
                × (try_take_resume ops q timed_out
                    ≡ (done (record { result = some t; erc = item }), record q { buffer = rest }))))
  unfolding put_wait_resume put_wait_for_resume try_take_resume
  close_releases q task late h = (ground arith, ground arith, consumer)
    where
      consumer :
          ((laws.contents q.buffer ≡ [])
            × (try_take_resume ops q late
                ≡ (done (without_item ops TakeResultErrorCode.closed), q)))
          ⊎ ((t : T) × (rest : Buffer) × (ops.pop q.buffer ≡ some (t, rest))
              × (try_take_resume ops q late
                  ≡ (done (record { result = some t; erc = item }), record q { buffer = rest })))
      consumer = elim (Option-cases (ops.pop q.buffer)) [
        | inl e ↦
            let nothing = laws.pop_none q.buffer e in
            inl (nothing, ground (arith, laws.empty_contents q.buffer))
        | inr ((t, rest), e) ↦
            inr (t, rest, e, ground (arith, empty-pop ops laws q.buffer t rest e))
      ]

  -- `put` and `put_wait` agree but for a full queue: either `put` answers `full` and `put_wait`
  -- sleeps, both leaving the queue as it is, or both give the same answer and leave the same queue,
  -- and `put_wait` does not sleep.
  pub put-put_wait :
      (q : Queue Buffer) (task : T)
      → ((put ops q task ≡ (done PutResultErrorCode.full, q))
          × (put_wait ops q task ≡ (waiting, q)))
        ⊎ ((put ops q task ≡ put_wait ops q task) × ((put_wait ops q task).0 ≢ waiting))
  unfolding put put_wait
  put-put_wait q task = ground arith

  -- On an open queue whose bound was taken away by `set_queue_max_size(0)`: a producer that was
  -- asleep sleeps on when its wait looks at the queue, though `put` accepts the same task at once.
  pub unbounded_sleeps :
      (q : Queue Buffer) (task : T)
      → q.state ≡ opened
      → q.max_queue_size ≡ 0
      → (put_wait_resume ops q task ≡ (waiting, q))
        × ((put ops q task).0 ≡ done PutResultErrorCode.accepted)
  unfolding put put_wait_resume
  unbounded_sleeps q task h e = ground arith
