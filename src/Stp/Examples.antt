-- ===== src/Stp/Examples.antt =====
-- The queue and its containers on concrete inputs.
use mathlib.Core.List.{Perm}
use rtl.Base.{ℕ, ◌≡◌, refl, ◌⊎◌, inr, false, List, [], ◌∷◌, ◌++◌, some, arith, ltb, pop_back}
use rtl.Stp.Container.{deque_ops, priority_ops, emplace, pop_move}
use rtl.Stp.Container.Sorted.{insert, sorted, sorted_laws}
use rtl.Stp.Container.Laws.{deque_laws, deque-FifoLaws}
use rtl.Stp.Queue.{
  Queue, Event, puts, put_waits, put_resumes, takes, try_takes, take_resumes, closes, done, opened,
  closing, PutResultErrorCode, TakeResultErrorCode, item, take, try_take, put, put_wait,
  put_wait_resume, put_wait_for_resume, try_take_resume, close, without_item, step, run,
}
use rtl.Stp.Queue.Order.{run-in_order, run-perm}
use rtl.Stp.Queue.Largest.{TakesLargest, run-TakesLargest}
use rtl.Stp.Queue.Bounds.{IsWithin, run-IsWithin}
use rtl.Stp.Queue.Closing.{run-close, close_releases}

abbrev ops : rtl.Stp.Container.ContainerOps ℕ
ops = deque_ops ℕ

-- A queue of at most two entries, with one in it.
abbrev one_of_two : Queue (List ℕ)
one_of_two = record { state = opened; max_queue_size = 2; buffer = 7 ∷ [] }

abbrev closed_queue : Queue (List ℕ)
closed_queue = record { state = closing; max_queue_size = 2; buffer = 7 ∷ [] }

-- Two producers and a consumer: the second producer sleeps until the consumer has taken an entry.
abbrev history : List (Event ℕ)
history =
    puts 8 ∷ put_waits 9 ∷ try_takes ∷ put_resumes 9 ∷ takes ∷ closes ∷ take_resumes false ∷ []

run-in_order_example :
    let (accepted, taken, end) = run ops one_of_two history in
    taken ++ end.buffer ≡ (7 ∷ []) ++ accepted
run-in_order_example =
    run-in_order ops (deque_laws ℕ) (deque-FifoLaws ℕ) one_of_two history
      (tt, (tt, (tt, (tt, (tt, (tt, (tt, tt)))))))

run-perm_example :
    let (accepted, taken, end) = run ops one_of_two history in
    Perm (taken ++ end.buffer) ((7 ∷ []) ++ accepted)
run-perm_example =
    run-perm ops (deque_laws ℕ) one_of_two history (tt, (tt, (tt, (tt, (tt, (tt, (tt, tt)))))))

-- What the history comes to.
history_test :
    run ops one_of_two history ≡ (8 ∷ 9 ∷ [], 7 ∷ 8 ∷ 9 ∷ [], record closed_queue { buffer = [] })
unfolding run step put put_wait put_wait_resume take try_take try_take_resume close
history_test = refl

run-IsWithin_example : IsWithin ops (deque_laws ℕ) (run ops one_of_two history).2
run-IsWithin_example =
    run-IsWithin ops (deque_laws ℕ) one_of_two history (tt, (tt, (tt, (tt, (tt, (tt, (tt, tt)))))))
      (inr (omega arith))

run-close_example :
    let (accepted, _, end) = run ops (close ops one_of_two) history in
    (accepted ≡ []) × (end.state ≡ closing)
run-close_example = run-close ops (deque_laws ℕ) one_of_two history

close_releases_example :
    (put_wait_resume ops closed_queue 8 ≡ (done PutResultErrorCode.closed, closed_queue))
    × (put_wait_for_resume ops closed_queue 8 false
        ≡ (done PutResultErrorCode.closed, closed_queue))
    × (((closed_queue.buffer ≡ [])
          × (try_take_resume ops closed_queue false
              ≡ (done (without_item ops TakeResultErrorCode.closed), closed_queue)))
        ⊎ ((t : ℕ) × (rest : List ℕ) × (ops.pop closed_queue.buffer ≡ some (t, rest))
            × (try_take_resume ops closed_queue false ≡ (
              done (record { result = some t; erc = item }),
              record closed_queue { buffer = rest },
            ))))
close_releases_example = close_releases ops (deque_laws ℕ) closed_queue 8 false refl

-- A queue of a priority queue, with one entry in it, and two entries that are put in.
abbrev prioritised : Queue (List ℕ)
prioritised = record { state = opened; max_queue_size = 0; buffer = 3 ∷ [] }

abbrev urgent_last : List (Event ℕ)
urgent_last = puts 7 ∷ puts 9 ∷ []

run-TakesLargest_example : TakesLargest (sorted ℕ) ltb sorted_laws (
    step
      (priority_ops ℕ (sorted ℕ) ltb)
      (run (priority_ops ℕ (sorted ℕ) ltb) prioritised urgent_last).2
      try_takes)
run-TakesLargest_example =
    run-TakesLargest (sorted ℕ) ltb sorted_laws prioritised urgent_last try_takes (tt, tt)

urgent_test :
    (run
      (priority_ops ℕ (sorted ℕ) ltb)
      prioritised
      (puts 7 ∷ puts 9 ∷ try_takes ∷ try_takes ∷ [])).1
    ≡ 9 ∷ 7 ∷ []
unfolding run step put try_take emplace pop_move insert pop_back
urgent_test = refl
