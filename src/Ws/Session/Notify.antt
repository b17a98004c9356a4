-- ===== src/Ws/Session/Notify.antt =====
-- How often ws/server/WsSession.hpp tells the router that a session is closed.
use rtl.Base.{ℕ, ◌+◌, ◌≤◌, ◌≡◌, Bool, true, false, List, [], ◌∷◌, ◌++◌, arith, ap, ◌∙◌}
use rtl.Ws.Session.{
  WriteMessage, idle, drain, Session, Posted, post_enqueue, post_close, post_shutdown,
  post_forceful, post_ping, Effect, router_close, Step, begin_closing, mark_closed_and_notify_once,
  do_drain_queue, do_write_next, do_enqueue_message,
}
use rtl.Ws.Session.Handlers.{
  Event, starts, http_read_done, accept_done, rejection_done, read_done, write_done,
  drain_write_done, close_done, timer_done, heartbeat_done, ping_done, pong_read, runs, sends,
  closes, closes_for_shutdown, closes_forcefully, step, run,
}

abbrev pub bit : Bool → ℕ
bit true = 1
bit false = 0

-- How many of the effects call the router's close handler.
abbrev pub close_calls : List Effect → ℕ
close_calls [] = 0
close_calls (router_close ∷ es) = 1 + close_calls es
close_calls (e ∷ es) = close_calls es

close_calls-append :
    (es fs : List Effect) → close_calls (es ++ fs) ≡ close_calls es + close_calls fs
close_calls-append [] fs = omega arith
close_calls-append (router_close ∷ es) fs = omega (arith, close_calls-append es fs)
close_calls-append (e ∷ es) fs = close_calls-append es fs

-- Every call of the handler sets the flag that was clear, and nothing clears the flag.
pub record Notifies (s : Session) (r : Step) : Type 0 where
  pub router : r.1.has_router ≡ s.has_router
  pub counted : close_calls r.0 + bit s.close_notified ≡ bit r.1.close_notified

begin_closing-same :
    (s : Session)
    → ((begin_closing s).1.has_router ≡ s.has_router)
      × ((begin_closing s).1.close_notified ≡ s.close_notified)
unfolding begin_closing
begin_closing-same s = ground arith

mark_closed-Notifies :
    (s : Session) → s.has_router ≡ true → Notifies s (mark_closed_and_notify_once s)
unfolding mark_closed_and_notify_once
mark_closed-Notifies s h = ground arith

drain-Notifies : (s : Session) → Notifies s (do_drain_queue s)
unfolding do_drain_queue
drain-Notifies s = ground arith

write_next-Notifies : (s : Session) → Notifies s (do_write_next s)
unfolding do_write_next
write_next-Notifies s = ground arith

enqueue-Notifies :
    (m : WriteMessage) (s : Session) → s.has_router ≡ true → Notifies s (do_enqueue_message m s)
unfolding do_enqueue_message
enqueue-Notifies m s h = ground arith

runs-Notifies : (p : Posted) (s : Session) → s.has_router ≡ true → Notifies s (step (runs p) s)
unfolding step
runs-Notifies (post_enqueue m) s h = enqueue-Notifies m s h
runs-Notifies (post_close reason) s h = ground arith
runs-Notifies post_shutdown s h = ground arith
runs-Notifies post_forceful s h = ground arith
runs-Notifies post_ping s h = ground arith

step-Notifies : (e : Event) (s : Session) → s.has_router ≡ true → Notifies s (step e s)
unfolding step
step-Notifies starts s h = ground arith
step-Notifies (http_read_done ec auth accept) s h = ground arith
step-Notifies (accept_done ec) s h = ground arith
step-Notifies rejection_done s h = ground arith
step-Notifies (read_done ec bytes) s h = ground arith
step-Notifies (write_done ec n) s h = ground arith
step-Notifies (drain_write_done ec n) s h = ground arith
step-Notifies (close_done ec) s h = ground arith
step-Notifies (timer_done idle ec) s h = ground arith
step-Notifies (timer_done drain ec) s h = ground arith
step-Notifies (heartbeat_done ec) s h = ground arith
step-Notifies (ping_done ec) s h = ground arith
step-Notifies pong_read s h = ground arith
step-Notifies (runs p) s h = runs-Notifies p s h
step-Notifies (sends m) s h = ground arith
step-Notifies (closes reason) s h = ground arith
step-Notifies closes_for_shutdown s h = ground arith
step-Notifies closes_forcefully s h = ground arith

run-Notifies : (es : List Event) (s : Session) → s.has_router ≡ true → Notifies s (run es s)
unfolding run
run-Notifies [] s h = ground arith
run-Notifies (e ∷ es) s h =
    let first = step-Notifies e s h in
    let later = run-Notifies es (step e s).1 (first.router ∙ h) in
    let together = close_calls-append (step e s).0 (run es (step e s).1).0 in
    let counted_first = first.counted in
    let counted_later = later.counted in
    record { router = later.router ∙ first.router; counted = omega arith }

bit-≤ : (b : Bool) → bit b ≤ 1
bit-≤ true = omega arith
bit-≤ false = omega arith

-- Over any sequence of events, for a session with a router that has not told it of a close: the
-- router's close handler is called at most once, and exactly once if and only if the session has
-- recorded that it told it.
pub run-close_calls :
    (es : List Event) (s : Session)
    → s.has_router ≡ true
    → s.close_notified ≡ false
    → (close_calls (run es s).0 ≡ bit (run es s).1.close_notified) × (close_calls (run es s).0 ≤ 1)
run-close_calls es s h fresh =
    let counted = (run-Notifies es s h).counted in
    let unset = ap bit fresh in
    let at_most = bit-≤ (run es s).1.close_notified in (omega arith, omega arith)
