-- ===== src/Stp/Timer/Examples.antt =====
-- The timer on a concrete history.
use rtl.Base.{ℕ, ◌≤◌, ◌≡◌, refl, ◌⊎◌, true, false, List, [], ◌∷◌, ◌++◌, some, arith, length, add64}
use rtl.Stp.Timer.{
  expired, make_timer, expires_at, async_wait, cancel, shutdown, run_timer, TimerEvent, sets_expiry,
  waits, cancels, wakes, step, taken_by, handed_by, run,
}
use rtl.Stp.Timer.Handed.{held, make_timer-run-handed}
use rtl.Stp.Timer.Past.{past_of}
use rtl.Stp.Timer.Punctual.{make_timer-run-expired}

-- A wait that is cancelled, and one whose expiry is put off while the thread waits for it.
abbrev history : List (TimerEvent ℕ)
history =
    waits (some 1)
    ∷ wakes 0
    ∷ cancels
    ∷ wakes 1
    ∷ sets_expiry 5
    ∷ waits (some 2)
    ∷ wakes 2
    ∷ sets_expiry 9
    ∷ wakes 5
    ∷ []

history_test : (run (make_timer 3) history).1 ≡ 1 ∷ []
unfolding run step taken_by handed_by make_timer expires_at async_wait cancel shutdown run_timer
    add64
history_test = refl

make_timer-run-handed_example :
    let (taken, handed, end) = run (make_timer 3) history in
    (left : List ℕ) × (taken ≡ handed ++ left)
    × (length left ≤ 1)
    × ((end.stopping ≡ true) ⊎ (left ≡ held end.handler))
make_timer-run-handed_example = make_timer-run-handed 3 history

expires : handed_by (run (make_timer 3) history).2 (wakes 9) ≡ some (2, expired)
unfolding run step handed_by make_timer expires_at async_wait cancel shutdown run_timer add64
expires = refl

make_timer-run-expired_example :
    let past = past_of 3 history in (past.last ≡ some 2) × (past.set ≤ 9) × (past.asked ≡ false)
make_timer-run-expired_example = make_timer-run-expired 3 history 9 2 (omega arith) expires
