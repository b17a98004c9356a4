-- ===== src/Stp/Timer/Handed.antt =====
-- What becomes of the handlers of stp/RtlTimer.hpp.
use rtl.Base.{
  ℕ, ◌≤◌, ◌≡◌, refl, sym, ap, ◌⊎◌, ◌∙◌, inl, inr, true, false, not, Option, none, some, List, [],
  ◌∷◌, ◌++◌, append-nil, append_assoc, length, has_value, implies, arith, Bool-cases,
}
use rtl.Stp.Timer.{
  RtlTimer, make_timer, expires_at, async_wait, cancel, shutdown, after_wait, run_timer, TimerEvent,
  sets_expiry, waits, cancels, shuts_down, wakes, step, taken_by, handed_by, handlers_of, run,
}

module _ {Handler : Type 0} where
  abbrev pub held : Option Handler → List Handler
  held none = []
  held (some handler) = handler ∷ []

  -- A handler is kept only while it is pending, and nothing is pending after a shutdown.
  record IsConsistent (m : RtlTimer Handler) : Type 0 where
    kept : implies (has_value m.handler) m.pending ≡ true
    over : implies m.stopping (not m.pending) ≡ true

  step-IsConsistent :
      (m : RtlTimer Handler) (e : TimerEvent Handler) → IsConsistent m → IsConsistent (step m e)
  unfolding step expires_at async_wait cancel shutdown run_timer after_wait
  step-IsConsistent m (sets_expiry time_point) c = ground arith
  step-IsConsistent m (waits handler) c = ground arith
  step-IsConsistent m cancels c = ground arith
  step-IsConsistent m shuts_down c = ground arith
  step-IsConsistent m (wakes now) c = ground arith

  -- After a shutdown nothing is taken and nothing handed on.
  stopping-step :
      (m : RtlTimer Handler) (e : TimerEvent Handler)
      → m.stopping ≡ true
      → ((step m e).stopping ≡ true) × (taken_by m e ≡ []) × (handlers_of (handed_by m e) ≡ [])
  unfolding step taken_by handed_by expires_at async_wait cancel shutdown run_timer after_wait
  stopping-step m (sets_expiry time_point) h = ground arith
  stopping-step m (waits handler) h = ground arith
  stopping-step m cancels h = ground arith
  stopping-step m shuts_down h = ground arith
  stopping-step m (wakes now) h = ground arith

  -- Before, a step passes on what was held and what it took.
  step-balanced :
      (m : RtlTimer Handler) (e : TimerEvent Handler)
      → IsConsistent m
      → (step m e).stopping ≡ false
      → held m.handler ++ taken_by m e ≡ handlers_of (handed_by m e) ++ held (step m e).handler
  unfolding step taken_by handed_by expires_at async_wait cancel shutdown run_timer after_wait
  step-balanced m (sets_expiry time_point) c h = append-nil _
  step-balanced m (waits none) c h = ground (arith, append-nil (held m.handler))
  step-balanced m (waits (some handler)) c h = ground (arith, append-nil (held m.handler))
  step-balanced m cancels c h = ground (arith, append-nil (held m.handler))
  step-balanced m shuts_down c h = ground (arith, append-nil (held m.handler))
  step-balanced m (wakes now) c h = ground (arith, append-nil (held m.handler))

  stopping-run :
      (m : RtlTimer Handler) (es : List (TimerEvent Handler))
      → m.stopping ≡ true
      → let (taken, handed, end) = run m es in (taken ≡ []) × (handed ≡ []) × (end.stopping ≡ true)
  unfolding run
  stopping-run m [] h = (refl, refl, h)
  stopping-run m (e ∷ es) h =
      let (still, no_taken, no_handed) = stopping-step m e h in
      let (no_more, none_handed, end) = stopping-run (step m e) es still in
      (rw (no_taken, no_more) refl, rw (no_handed, none_handed) refl, end)

  held-le : (o : Option Handler) → length (held o) ≤ 1
  held-le none = omega arith
  held-le (some handler) = omega arith

  -- At a shutdown, nothing is taken or handed on.
  stopping_now :
      (m : RtlTimer Handler) (e : TimerEvent Handler)
      → m.stopping ≡ false
      → (step m e).stopping ≡ true
      → (taken_by m e ≡ []) × (handlers_of (handed_by m e) ≡ [])
  unfolding step taken_by handed_by expires_at async_wait cancel shutdown run_timer after_wait
  stopping_now m (sets_expiry time_point) h k = ground arith
  stopping_now m (waits handler) h k = ground arith
  stopping_now m cancels h k = ground arith
  stopping_now m shuts_down h k = ground arith
  stopping_now m (wakes now) h k = ground arith

  -- What was taken is handed on, up to at most one handler that is left: the one that is held, or
  -- that was held at the shutdown.
  abbrev Accounted : RtlTimer Handler → List (TimerEvent Handler) → Type 0
  Accounted m es =
      let (taken, handed, end) = run m es in
      (left : List Handler) × (held m.handler ++ taken ≡ handed ++ left)
      × (length left ≤ 1)
      × ((end.stopping ≡ true) ⊎ (left ≡ held end.handler))

  run-Accounted :
      (m : RtlTimer Handler) (es : List (TimerEvent Handler))
      → IsConsistent m
      → m.stopping ≡ false
      → Accounted m es
  unfolding run
  run-Accounted m [] c h = (held m.handler, append-nil _, held-le m.handler, inr refl)
  run-Accounted m (e ∷ es) c h = elim (Bool-cases (step m e).stopping) [
    | inl now ↦
        let (no_taken, no_handed) = stopping_now m e h now in
        let (no_more, none_handed, end) = stopping-run (step m e) es now in
        (
          held m.handler,
          rw (no_taken, no_more, no_handed, none_handed) (append-nil (held m.handler)),
          held-le m.handler,
          inl end,
        )
    | inr on ↦
        let (left, all, few, which) = run-Accounted (step m e) es (step-IsConsistent m e c) on in
        let (taken, handed, end) = run (step m e) es in
        (
          left,
          sym (append_assoc (held m.handler) (taken_by m e) taken)
              ∙ ap (λ xs. xs ++ taken) (step-balanced m e c on)
              ∙ append_assoc (handlers_of (handed_by m e)) (held (step m e).handler) taken
              ∙ ap (λ xs. handlers_of (handed_by m e) ++ xs) all
              ∙ sym (append_assoc (handlers_of (handed_by m e)) handed left),
          few,
          which,
        )
  ]

  -- Over any history of a timer: the handlers that `async_wait` took are handed to the executor in
  -- the order in which they were taken and each at most once, and at most one of them is left: the
  -- one that is still held, or, after a shutdown, the one that it dropped.
  pub make_timer-run-handed :
      (now : ℕ) (es : List (TimerEvent Handler))
      → let (taken, handed, end) = run (make_timer now) es in
        (left : List Handler) × (taken ≡ handed ++ left)
        × (length left ≤ 1)
        × ((end.stopping ≡ true) ⊎ (left ≡ held end.handler))
  unfolding make_timer
  make_timer-run-handed now es =
      run-Accounted (make_timer now) es (record { kept = refl; over = refl }) refl

  -- After a shutdown, nothing is taken and nothing is handed to the executor, whatever happens.
  pub shutdown-run :
      (m : RtlTimer Handler) (es : List (TimerEvent Handler))
      → let (taken, handed, end) = run (shutdown m) es in
        (taken ≡ []) × (handed ≡ []) × (end.stopping ≡ true)
  unfolding shutdown
  shutdown-run m es = stopping-run (shutdown m) es (ground arith)
