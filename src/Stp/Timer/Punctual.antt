-- ===== src/Stp/Timer/Punctual.antt =====
-- When a handler of stp/RtlTimer.hpp expires.
use rtl.Base.{
  ℕ, false, some, ◌∙◌, ◌+◌, ◌≤◌, ◌<◌, ◌≡◌, refl, ◌⊎◌, inl, inr, ◌||◌, Bool-cases, List, [], ◌∷◌,
  length, arith, u64_mod, add64, add64-eq-add, true, none,
}
use rtl.Stp.Timer.Past.{past_of, run-Recalls}
use rtl.Stp.Timer.{
  RtlTimer, TimerThread, expired, idle, armed, ended, make_timer, expires_at, async_wait, cancel,
  shutdown, after_wait, run_timer, run_timer_from, TimerEvent, sets_expiry, waits, cancels,
  shuts_down, wakes, step, handed_by, run,
}

-- What the thread has read is the present expiry unless the version has moved on.
abbrev IsCurrent : TimerThread → ℕ → ℕ → Type 0
IsCurrent idle expiry version = Unit {0}
IsCurrent (armed deadline read) expiry version =
    (read < version) ⊎ ((read ≡ version) × (deadline ≡ expiry))
IsCurrent ended expiry version = Unit {0}

-- A call that changes the expiry moves the version on.
moved_on :
    (th : TimerThread) (expiry expiry' version version' : ℕ)
    → version' ≡ version + 1
    → IsCurrent th expiry version
    → IsCurrent th expiry' version'
moved_on idle x x' v v' e c = tt
moved_on (armed d r) x x' v v' e (inl old) = inl (omega (arith, e, old))
moved_on (armed d r) x x' v v' e (inr (same, d')) = inl (omega (arith, e, same))
moved_on ended x x' v v' e c = tt

module _ {Handler : Type 0} where
  abbrev Current : RtlTimer Handler → Type 0
  Current m = IsCurrent m.thread m.expiry m.version

  step-version :
      (m : RtlTimer Handler) (e : TimerEvent Handler)
      → m.version + 1 < u64_mod
      → (step m e).version ≤ m.version + 1
  unfolding step expires_at async_wait cancel shutdown run_timer after_wait add64
  step-version m (sets_expiry time_point) b = ground arith
  step-version m (waits handler) b = ground arith
  step-version m cancels b = ground arith
  step-version m shuts_down b = ground arith
  step-version m (wakes now) b = ground arith

  run_timer_from-Current :
      (th : TimerThread) (m : RtlTimer Handler) (now : ℕ)
      → m.thread ≡ th
      → IsCurrent th m.expiry m.version
      → Current (run_timer_from th m now).1
  unfolding after_wait
  run_timer_from-Current idle m now e c = ground arith
  run_timer_from-Current (armed d r) m now e c = ground arith
  run_timer_from-Current ended m now e c = ground arith

  step-Current :
      (m : RtlTimer Handler) (e : TimerEvent Handler)
      → m.version + 1 < u64_mod
      → Current m
      → Current (step m e)
  unfolding step expires_at async_wait cancel shutdown run_timer
  step-Current m (sets_expiry time_point) b c =
      moved_on m.thread m.expiry time_point m.version _ (add64-eq-add m.version 1 b) c
  step-Current m (waits handler) b c = elim (Bool-cases (m.stopping || m.pending)) [
    | inl h ↦ rw (h, step) c
    | inr h ↦
        rw (h, step)
          (moved_on m.thread m.expiry m.expiry m.version _ (add64-eq-add m.version 1 b) c)
  ]
  step-Current m cancels b c = elim (Bool-cases m.pending) [
    | inl h ↦
        rw (h, step)
          (moved_on m.thread m.expiry m.expiry m.version _ (add64-eq-add m.version 1 b) c)
    | inr h ↦ rw (h, step) c
  ]
  step-Current m shuts_down b c = elim (Bool-cases m.stopping) [
    | inl h ↦ rw (h, step) c
    | inr h ↦
        rw (h, step)
          (moved_on m.thread m.expiry m.expiry m.version _ (add64-eq-add m.version 1 b) c)
  ]
  step-Current m (wakes now) b c = run_timer_from-Current m.thread m now refl c

  run-Current :
      (m : RtlTimer Handler) (es : List (TimerEvent Handler))
      → m.version + length es < u64_mod
      → Current m
      → Current (run m es).2
  unfolding run
  run-Current m [] b c = c
  run-Current m (e ∷ es) b c =
      let small : m.version + 1 < u64_mod = omega (arith, b) in
      run-Current (step m e) es (omega (arith, b, step-version m e small))
        (step-Current m e small c)

  expired_from :
      (th : TimerThread) (m : RtlTimer Handler) (now : ℕ) (handler : Handler)
      → IsCurrent th m.expiry m.version
      → (run_timer_from th m now).0 ≡ some (handler, expired)
      → (m.pending ≡ true)
        × (m.handler ≡ some handler)
        × (m.expiry ≤ now)
        × (m.cancel_requested ≡ false)
  unfolding after_wait
  expired_from idle m now handler c h = ground arith
  expired_from (armed d r) m now handler c h = ground arith
  expired_from ended m now handler c h = ground arith

  -- Over any history of fewer than 2^64 steps since the constructor: when the thread hands a
  -- handler to the executor as expired, it is the one that was taken last, the expiry that was set
  -- last (at first the time of the constructor) has come, and no `cancel` was accepted since the
  -- handler was taken.
  pub make_timer-run-expired :
      (start : ℕ) (es : List (TimerEvent Handler)) (now : ℕ) (handler : Handler)
      → length es < u64_mod
      → handed_by (run (make_timer start) es).2 (wakes now) ≡ some (handler, expired)
      → let past = past_of start es in
        (past.last ≡ some handler) × (past.set ≤ now) × (past.asked ≡ false)
  unfolding make_timer handed_by run_timer
  make_timer-run-expired start es now handler b h =
      let m = (run (make_timer start) es).2 in
      let (on, held, come, kept) =
        expired_from m.thread m now handler
          (run-Current (make_timer start) es (omega (arith, b)) tt) h in
      let (set, pending) =
        run-Recalls (record { last = none; asked = false; set = start }) (make_timer start) es
          (refl, λ on. cc) in
      let (asked, last) = pending on in (last ∙ held, omega (arith, set, come), asked ∙ kept)
