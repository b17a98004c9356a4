-- ===== src/Stp/Timer.antt =====
-- stp/RtlTimer.hpp: the timer. A step is a call, or what the timer's thread does from a return of one
-- of its waits to the next; the executor takes what it is given. Times are numbers of clock ticks.
pub mod Handed
pub mod Past
pub mod Punctual
mod Examples
use rtl.Base.{
  ℕ, Bool, true, false, not, ◌||◌, Option, none, some, List, [], ◌∷◌, ◌++◌, leb, ◌==◌, add64,
  if◌then◌else◌,
}

pub data Result : Type 0 where
  expired cancelled : Result

-- Where the thread is: in the outer wait, in the inner one with the deadline and the version that it
-- has read, or at its end.
pub data TimerThread : Type 0 where
  idle : TimerThread
  armed : ℕ → ℕ → TimerThread
  ended : TimerThread

pub record RtlTimer (Handler : Type 0) : Type 0 where
  pub handler : Option Handler
  pub expiry : ℕ
  pub pending : Bool
  pub cancel_requested : Bool
  pub stopping : Bool
  pub version : ℕ
  pub thread : TimerThread

module _ {Handler : Type 0} where
  unfoldable pub make_timer : ℕ → RtlTimer Handler
  make_timer now = record {
    handler = none;
    expiry = now;
    pending = false;
    cancel_requested = false;
    stopping = false;
    version = 0;
    thread = idle;
  }

  unfoldable pub expires_at : RtlTimer Handler → ℕ → RtlTimer Handler
  expires_at m time_point = record m { expiry = time_point; version = add64 m.version 1 }

  -- A handler is an `std::function`, which may be empty: `none`.
  unfoldable pub async_wait : RtlTimer Handler → Option Handler → Bool × RtlTimer Handler
  async_wait m handler = if m.stopping || m.pending then (false, m) else (
    true,
    record m {
      handler = handler;
      pending = true;
      cancel_requested = false;
      version = add64 m.version 1;
    },
  )

  unfoldable pub cancel : RtlTimer Handler → Bool × RtlTimer Handler
  cancel m =
      if not m.pending
      then (false, m)
      else (true, record m { cancel_requested = true; version = add64 m.version 1 })

  unfoldable pub shutdown : RtlTimer Handler → RtlTimer Handler
  shutdown m = if m.stopping then m else record m {
    stopping = true;
    pending = false;
    handler = none;
    version = add64 m.version 1;
  }

  -- What the thread hands to the executor: `none` for nothing, and for an empty handler.
  abbrev pub with_result : Option Handler → Result → Option (Handler × Result)
  with_result none result = none
  with_result (some handler) result = some (handler, result)

  -- The top of the inner loop, up to its wait.
  abbrev pub arm : RtlTimer Handler → RtlTimer Handler
  arm m = record m { thread = armed m.expiry m.version }

  -- The predicate of the inner wait.
  abbrev pub state_changed : RtlTimer Handler → ℕ → Bool
  state_changed m version =
      m.stopping || not m.pending || m.cancel_requested || not (m.version == version)

  -- What follows the inner wait. Where the inner loop is left with no handler, the outer wait is
  -- next.
  unfoldable pub after_wait :
      RtlTimer Handler → ℕ → ℕ → Bool → (Option (Handler × Result)) × RtlTimer Handler
  after_wait m deadline version woke_by_state_change =
      if m.stopping
      then (none, record m { thread = ended })
      else if not m.pending
      then (none, record m { thread = idle })
      else if m.cancel_requested
      then (
        with_result m.handler cancelled,
        record m { pending = false; cancel_requested = false; handler = none; thread = idle },
      )
      else if not (version == m.version)
      then (none, arm m)
      else if not woke_by_state_change
      then (
        with_result m.handler expired,
        record m { pending = false; handler = none; thread = idle },
      )
      else (none, arm m)

  -- A wait of the thread returns, at some time; it goes on unless its predicate holds or its
  -- deadline has come.
  abbrev pub run_timer_from :
      TimerThread → RtlTimer Handler → ℕ → (Option (Handler × Result)) × RtlTimer Handler
  run_timer_from idle m now =
      if not (m.stopping || m.pending)
      then (none, m)
      else if m.stopping
      then (none, record m { thread = ended })
      else (none, arm m)
  run_timer_from (armed deadline version) m now =
      if state_changed m version
      then after_wait m deadline version true
      else if leb deadline now
      then after_wait m deadline version false
      else (none, m)
  run_timer_from ended m now = (none, m)

  unfoldable pub run_timer : RtlTimer Handler → ℕ → (Option (Handler × Result)) × RtlTimer Handler
  unfolding after_wait
  run_timer m now = run_timer_from m.thread m now

pub data TimerEvent (Handler : Type 0) : Type 0 where
  sets_expiry : ℕ → TimerEvent Handler
  waits : Option Handler → TimerEvent Handler
  cancels shuts_down : TimerEvent Handler
  wakes : ℕ → TimerEvent Handler

module _ {Handler : Type 0} where
  unfoldable pub step : RtlTimer Handler → TimerEvent Handler → RtlTimer Handler
  unfolding expires_at async_wait cancel shutdown run_timer
  step m (sets_expiry time_point) = expires_at m time_point
  step m (waits handler) = (async_wait m handler).1
  step m cancels = (cancel m).1
  step m shuts_down = shutdown m
  step m (wakes now) = (run_timer m now).1

  -- A handler that `async_wait` took.
  abbrev pub taken_if : Bool → Option Handler → List Handler
  taken_if true (some handler) = handler ∷ []
  taken_if taken handler = []

  unfoldable pub taken_by : RtlTimer Handler → TimerEvent Handler → List Handler
  taken_by m (waits handler) = taken_if (async_wait m handler).0 handler
  taken_by m other = []

  abbrev pub handlers_of : Option (Handler × Result) → List Handler
  handlers_of none = []
  handlers_of (some (handler, result)) = handler ∷ []

  -- What the thread handed to the executor.
  unfoldable pub handed_by : RtlTimer Handler → TimerEvent Handler → Option (Handler × Result)
  handed_by m (wakes now) = (run_timer m now).0
  handed_by m other = none

  -- A history: the handlers that were taken and those that were handed on, each in order.
  unfoldable pub run :
      RtlTimer Handler → List (TimerEvent Handler) → List Handler × List Handler × RtlTimer Handler
  run m [] = ([], [], m)
  run m (e ∷ es) =
      let (taken_later, handed_later, end) = run (step m e) es in
      (taken_by m e ++ taken_later, handlers_of (handed_by m e) ++ handed_later, end)
