-- ===== src/Stp/Timer/Past.antt =====
-- What a history of stp/RtlTimer.hpp says of the handler that is pending, apart from the timer's state.
use rtl.Base.{
  ℕ, ◌≡◌, refl, sym, ◌∙◌, inl, inr, ◌||◌, Bool, true, false, Option, none, List, [], ◌∷◌, arith,
  Bool-cases, if◌then◌else◌,
}
use rtl.Stp.Timer.{
  RtlTimer, TimerThread, idle, armed, ended, make_timer, expires_at, async_wait, cancel, shutdown,
  after_wait, run_timer, run_timer_from, TimerEvent, sets_expiry, waits, cancels, shuts_down, wakes,
  step, run,
}

-- The handler that was taken last, whether a `cancel` was accepted since, and the expiry that was set
-- last.
pub record Past (Handler : Type 0) : Type 0 where
  pub last : Option Handler
  pub asked : Bool
  pub set : ℕ

module _ {Handler : Type 0} where
  unfoldable pub past_after : Past Handler → RtlTimer Handler → TimerEvent Handler → Past Handler
  past_after past m (waits handler) =
      if (async_wait m handler).0 then record past { last = handler; asked = false } else past
  past_after past m cancels = if (cancel m).0 then record past { asked = true } else past
  past_after past m (sets_expiry time_point) = record past { set = time_point }
  past_after past m other = past

  unfoldable pub past_from :
      Past Handler → RtlTimer Handler → List (TimerEvent Handler) → Past Handler
  past_from past m [] = past
  past_from past m (e ∷ es) = past_from (past_after past m e) (step m e) es

  abbrev pub past_of : ℕ → List (TimerEvent Handler) → Past Handler
  past_of start es =
      past_from (record { last = none; asked = false; set = start }) (make_timer start) es

  -- The timer remembers it: the handler and the cancellation while a handler is pending.
  abbrev pub Recalls : Past Handler → RtlTimer Handler → Type 0
  Recalls past m =
      (past.set ≡ m.expiry)
      × (m.pending ≡ true → (past.asked ≡ m.cancel_requested) × (past.last ≡ m.handler))

  -- What changes no expiry, and neither of the others while a handler is pending.
  Recalls-kept :
      (past : Past Handler) (m m' : RtlTimer Handler)
      → m'.expiry ≡ m.expiry
      → (m'.pending ≡ true
          → (m.pending ≡ true)
            × (m'.cancel_requested ≡ m.cancel_requested)
            × (m'.handler ≡ m.handler))
      → Recalls past m
      → Recalls past m'
  Recalls-kept past m m' x same c = (
    c.0 ∙ sym x,
    λ on.
        let (was, flag, held) = same on in
        let (asked, last) = c.1 was in (asked ∙ sym flag, last ∙ sym held),
  )

  run_timer_from-Recalls :
      (th : TimerThread) (past : Past Handler) (m : RtlTimer Handler) (now : ℕ)
      → Recalls past m
      → Recalls past (run_timer_from th m now).1
  unfolding after_wait
  run_timer_from-Recalls idle past m now c =
      Recalls-kept past m (run_timer_from idle m now).1 (ground arith)
        (λ on. (ground arith, ground arith, ground arith)) c
  run_timer_from-Recalls (armed d r) past m now c =
      Recalls-kept past m (run_timer_from (armed d r) m now).1 (ground arith)
        (λ on. (ground arith, ground arith, ground arith)) c
  run_timer_from-Recalls ended past m now c = c

  step-Recalls :
      (past : Past Handler) (m : RtlTimer Handler) (e : TimerEvent Handler)
      → Recalls past m
      → Recalls (past_after past m e) (step m e)
  unfolding step past_after expires_at async_wait cancel shutdown run_timer
  step-Recalls past m (sets_expiry time_point) c = (refl, c.1)
  step-Recalls past m (waits handler) c = elim (Bool-cases (m.stopping || m.pending)) [
    | inl h ↦ rw (h, step) c
    | inr h ↦ rw (h, step) (c.0, λ on. (refl, refl))
  ]
  step-Recalls past m cancels c = elim (Bool-cases m.pending) [
    | inl h ↦ rw (h, step) (c.0, λ on. (refl, (c.1 h).1))
    | inr h ↦ rw (h, step) (c.0, λ on. cc)
  ]
  step-Recalls past m shuts_down c = elim (Bool-cases m.stopping) [
    | inl h ↦ rw (h, step) c
    | inr h ↦ rw (h, step) (c.0, λ on. cc)
  ]
  step-Recalls past m (wakes now) c = run_timer_from-Recalls m.thread past m now c

  pub run-Recalls :
      (past : Past Handler) (m : RtlTimer Handler) (es : List (TimerEvent Handler))
      → Recalls past m
      → Recalls (past_from past m es) (run m es).2
  unfolding run past_from
  run-Recalls past m [] c = c
  run-Recalls past m (e ∷ es) c =
      run-Recalls (past_after past m e) (step m e) es (step-Recalls past m e c)
