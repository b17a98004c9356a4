-- ===== src/Stp/Queue.antt =====
-- stp/UnbMpMcTemplateQueue.hpp: the bounded queue of many producers and consumers. A function is
-- what one thread does while it holds the mutex: from its call, or from a return of its wait on a
-- condition variable, to its return or its next wait. Other threads act between two such steps.
-- `notify` has no counterpart: a wait may return at any time, and evaluates its predicate then.
pub mod Largest
pub mod Order
pub mod Bounds
pub mod Closing
use rtl.Base.{
  ℕ, ◌+◌, Bool, true, false, not, ◌&&◌, ◌||◌, List, [], ◌∷◌, ◌++◌, Option, none, some, ltb, ◌==◌,
  if◌then◌else◌,
}
use rtl.Stp.Container.{ContainerOps}

pub data TakeResultErrorCode : Type 0 where
  item timeout closed : TakeResultErrorCode

pub record TakeResult (T : Type 0) : Type 0 where
  pub result : Option T
  pub erc : TakeResultErrorCode

pub data PutResultErrorCode : Type 0 where
  accepted closed full timeout : PutResultErrorCode

pub data ContainerState : Type 0 where
  opened closing : ContainerState

abbrev pub is_open : ContainerState → Bool
is_open opened = true
is_open closing = false

pub record Queue (Buffer : Type 0) : Type 0 where
  pub state : ContainerState
  pub max_queue_size : ℕ
  pub buffer : Buffer

-- A call that returns, one that sleeps on a condition variable, or one whose behaviour C++ leaves
-- undefined: `front` or `back` of an empty container.
pub data Progress (A : Type 0) : Type 0 where
  done : A → Progress A
  waiting undefined : Progress A

module _ {T : Type 0} (ops : ContainerOps T) where
  open ops use {Buffer, push, pop, empty, size, clear as clear_buffer}

  -- `max_queue_size` 0 is no bound.
  abbrev pub is_full : Queue Buffer → Bool
  is_full q = ltb q.max_queue_size (size q.buffer + 1) && not (q.max_queue_size == 0)

  abbrev pub accept : Queue Buffer → T → Progress PutResultErrorCode × Queue Buffer
  accept q task = (done PutResultErrorCode.accepted, record q { buffer = push q.buffer task })

  unfoldable pub put : Queue Buffer → T → Progress PutResultErrorCode × Queue Buffer
  put q task =
      if not (is_open q.state)
      then (done PutResultErrorCode.closed, q)
      else if is_full q
      then (done PutResultErrorCode.full, q)
      else accept q task

  -- The loop of `put_wait` and `put_wait_for`, up to its wait.
  abbrev pub put_loop : Queue Buffer → T → Progress PutResultErrorCode × Queue Buffer
  put_loop q task =
      if is_full q
      then if not (is_open q.state) then (done PutResultErrorCode.closed, q) else (waiting, q)
      else accept q task

  unfoldable pub put_wait : Queue Buffer → T → Progress PutResultErrorCode × Queue Buffer
  put_wait q task =
      if not (is_open q.state) then (done PutResultErrorCode.closed, q) else put_loop q task

  -- What a sleeping producer waits for.
  abbrev pub can_put : Queue Buffer → Bool
  can_put q = not (is_open q.state) || ltb (size q.buffer) q.max_queue_size

  -- The wait of `put_wait` returns.
  unfoldable pub put_wait_resume : Queue Buffer → T → Progress PutResultErrorCode × Queue Buffer
  put_wait_resume q task =
      if can_put q
      then if not (is_open q.state) then (done PutResultErrorCode.closed, q) else put_loop q task
      else (waiting, q)

  -- The wait of `put_wait_for` returns, before or at its deadline.
  unfoldable pub put_wait_for_resume :
      Queue Buffer → T → Bool → Progress PutResultErrorCode × Queue Buffer
  put_wait_for_resume q task timed_out =
      if can_put q
      then if not (is_open q.state) then (done PutResultErrorCode.closed, q) else put_loop q task
      else if timed_out
      then (done PutResultErrorCode.timeout, q)
      else (waiting, q)

  abbrev take_locked_from :
      Queue Buffer → Option (T × Buffer) → Progress (TakeResult T) × Queue Buffer
  take_locked_from q none = (undefined, q)
  take_locked_from q (some (task, rest)) =
      (done (record { result = some task; erc = item }), record q { buffer = rest })

  -- `takeLocked`, with the result that its callers build.
  abbrev pub take_locked : Queue Buffer → Progress (TakeResult T) × Queue Buffer
  take_locked q = take_locked_from q (pop q.buffer)

  abbrev pub without_item : TakeResultErrorCode → TakeResult T
  without_item erc = record { result = none; erc = erc }

  -- The deprecated `take`, from its call or from a return of its wait.
  unfoldable pub take : Queue Buffer → Progress (TakeResult T) × Queue Buffer
  take q = if empty q.buffer then (waiting, q) else take_locked q

  unfoldable pub try_take : Queue Buffer → Progress (TakeResult T) × Queue Buffer
  try_take q = if not (empty q.buffer) then take_locked q else (waiting, q)

  -- What a sleeping consumer waits for.
  abbrev pub can_take : Queue Buffer → Bool
  can_take q = not (is_open q.state) || not (empty q.buffer)

  -- The wait of `tryTake` returns, before or at its time limit.
  unfoldable pub try_take_resume : Queue Buffer → Bool → Progress (TakeResult T) × Queue Buffer
  try_take_resume q timed_out =
      if not (can_take q)
      then if timed_out then (done (without_item TakeResultErrorCode.timeout), q) else (waiting, q)
      else if not (is_open q.state) && empty q.buffer
      then (done (without_item TakeResultErrorCode.closed), q)
      else if empty q.buffer
      then (waiting, q)
      else take_locked q

  unfoldable pub clear : Queue Buffer → Queue Buffer
  clear q = record q { buffer = clear_buffer q.buffer }

  unfoldable pub close : Queue Buffer → Queue Buffer
  close q = record q { state = closing }

  unfoldable pub set_queue_max_size : Queue Buffer → ℕ → Queue Buffer
  set_queue_max_size q n = record q { max_queue_size = n }

-- One step of some thread.
pub data Event (T : Type 0) : Type 0 where
  puts put_waits put_resumes : T → Event T
  put_for_resumes : T → Bool → Event T
  takes try_takes : Event T
  take_resumes : Bool → Event T
  clears closes : Event T
  resizes : ℕ → Event T

pub data Response (T : Type 0) : Type 0 where
  put_result : T → Progress PutResultErrorCode → Response T
  take_result : Progress (TakeResult T) → Response T
  silent : Response T

module _ {T : Type 0} (ops : ContainerOps T) where
  open ops use {Buffer}

  unfoldable pub step : Queue Buffer → Event T → Response T × Queue Buffer
  unfolding put put_wait put_wait_resume put_wait_for_resume take try_take try_take_resume clear
      close set_queue_max_size
  step q (puts t) = let (r, q') = put ops q t in (put_result t r, q')
  step q (put_waits t) = let (r, q') = put_wait ops q t in (put_result t r, q')
  step q (put_resumes t) = let (r, q') = put_wait_resume ops q t in (put_result t r, q')
  step q (put_for_resumes t late) =
      let (r, q') = put_wait_for_resume ops q t late in (put_result t r, q')
  step q takes = let (r, q') = take ops q in (take_result r, q')
  step q try_takes = let (r, q') = try_take ops q in (take_result r, q')
  step q (take_resumes late) = let (r, q') = try_take_resume ops q late in (take_result r, q')
  step q clears = (silent, clear ops q)
  step q closes = (silent, close ops q)
  step q (resizes n) = (silent, set_queue_max_size ops q n)

-- What a step put into the queue, and what it took out.
module _ {T : Type 0} where
  abbrev pub accepted_by : Response T → List T
  accepted_by (put_result t (done PutResultErrorCode.accepted)) = t ∷ []
  accepted_by (put_result t _) = []
  accepted_by (take_result r) = []
  accepted_by silent = []

  abbrev pub some_to_list : Option T → List T
  some_to_list none = []
  some_to_list (some t) = t ∷ []

  abbrev pub taken_by : Response T → List T
  taken_by (take_result (done r)) = some_to_list r.result
  taken_by (take_result waiting) = []
  taken_by (take_result undefined) = []
  taken_by (put_result t r) = []
  taken_by silent = []

-- A history of steps: what was put in and what was taken out, in order, and the queue at its end.
module _ {T : Type 0} (ops : ContainerOps T) where
  unfoldable pub run : Queue ops.Buffer → List (Event T) → List T × List T × Queue ops.Buffer
  run q [] = ([], [], q)
  run q (e ∷ es) =
      let (r, q') = step ops q e in
      let (later_in, later_out, end) = run q' es in
      (accepted_by r ++ later_in, taken_by r ++ later_out, end)
