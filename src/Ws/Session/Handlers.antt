-- ===== src/Ws/Session/Handlers.antt =====
-- The handlers of ws/server/WsSession.hpp that the event loop calls, as events of one session.
use rtl.Base.{ℕ, Bool, true, false, not, ◌&&◌, List, [], ◌∷◌, ltb, if◌then◌else◌}
use rtl.Ws.Router.{WsAcceptingDecision}
use rtl.Ws.Session.{
  opening, opened, closing, closed, shutdown, ErrorCode, operation_aborted, CloseCode, normal,
  going_away, policy_error, WriteMessage, TimerUse, idle, drain, Session, Posted, post_enqueue,
  post_close, post_shutdown, post_forceful, post_ping, Effect, async_http_read, async_accept,
  async_close, write_rejection, router_open, router_error, router_message, Step, and_then, is_ok,
  is_open, is_closed, begin_closing, mark_closed_and_notify_once, decrement_message_counters, close,
  close_forcefully, send, close_for_shutdown, do_drain_queue, do_write_next, do_enqueue_message,
  run_idle_timer, run_drain_timer, cancel_idle_timer, do_heartbeat_next, do_read,
}

unfoldable pub do_accept : Session → Step
do_accept s = (async_http_read ∷ [], record s { state = opening })

abbrev told : Session → Effect → List Effect
told s effect = if s.has_router then effect ∷ [] else []

abbrev start_heartbeat : Session → Step
start_heartbeat s = if ltb 0 s.config.ping_interval then do_heartbeat_next s else ([], s)

unfoldable pub on_accept : ErrorCode → Session → Step
unfolding do_heartbeat_next run_idle_timer do_read
on_accept ec s =
    if not (is_ok ec)
    then (told s (router_error ec), record s { state = closed })
    else and_then (told s router_open, record s { state = opened })
        λ s'. and_then (start_heartbeat s') λ s''. do_read (run_idle_timer s'')

-- The decisions are those of the router's two handlers, if there is a router: the second is asked
-- only where the first accepts.
unfoldable pub validate_handshake_request :
    ErrorCode → WsAcceptingDecision → WsAcceptingDecision → Session → Bool × Step
unfolding on_accept
validate_handshake_request ec auth accept s =
    if not (is_ok ec)
    then (false, on_accept ec s)
    else if not s.has_router
    then (true, ([], s))
    else if not auth.accept
    then (false, (write_rejection auth.status auth.message ∷ [], record s { state = closing }))
    else if not accept.accept
    then (false, (write_rejection accept.status accept.message ∷ [], record s { state = closing }))
    else (true, ([], s))

-- The read of the handshake completes.
unfoldable pub on_http_read : ErrorCode → WsAcceptingDecision → WsAcceptingDecision → Session → Step
unfolding validate_handshake_request
on_http_read ec auth accept s =
    let (valid, answer) = validate_handshake_request ec auth accept s in
    if not valid then answer else and_then answer λ s'. (async_accept ∷ [], s')

-- The rejection was written: the socket is shut down and closed.
unfoldable pub on_rejected : Session → Step
on_rejected s = ([], record s { state = closed })

-- `bytes` is what was read into the buffer.
unfoldable pub on_read : ErrorCode → List ℕ → Session → Step
unfolding begin_closing mark_closed_and_notify_once run_idle_timer do_read
on_read ec bytes s =
    let s' = cancel_idle_timer s in
    if not (is_ok ec)
    then mark_closed_and_notify_once (begin_closing s').1
    else and_then (told s' (router_message bytes), s')
        λ s''. if is_open s'' then do_read (run_idle_timer s'') else ([], s'')

abbrev pop_front : List WriteMessage → List WriteMessage
pop_front [] = []
pop_front (m ∷ ms) = ms

abbrev is_nil : List WriteMessage → Bool
is_nil [] = true
is_nil (m ∷ ms) = false

-- The first lines of both completion handlers of a write of `to_write` bytes.
abbrev pub pop_written : ErrorCode → ℕ → Session → Session
pop_written ec to_write s =
    if is_ok ec && not (is_nil s.write_queue)
    then decrement_message_counters to_write (record s { write_queue = pop_front s.write_queue })
    else s

unfoldable pub on_write_complete : ErrorCode → Session → Step
unfolding begin_closing mark_closed_and_notify_once do_write_next
on_write_complete ec s =
    if not (is_ok ec) then mark_closed_and_notify_once (begin_closing s).1 else do_write_next s

unfoldable pub on_drain_message_complete : ErrorCode → Session → Step
unfolding do_drain_queue
on_drain_message_complete ec s =
    if not (is_ok ec) then close_forcefully s else do_drain_queue (record s { writing = false })

-- The posted part of `close`.
unfoldable pub run_close : CloseCode → Session → Step
unfolding begin_closing
run_close reason s =
    let (first, s') = begin_closing s in
    if not first then ([], s') else (async_close reason ∷ [], s')

-- The posted part of `close_for_shutdown`.
unfoldable pub run_shutdown : Session → Step
unfolding run_drain_timer do_drain_queue
run_shutdown s =
    do_drain_queue (run_drain_timer (record (cancel_idle_timer s) { state = shutdown }))

-- The posted part of `close_forcefully`.
unfoldable pub run_forceful : Session → Step
run_forceful s =
    if is_closed s
    then ([], s)
    else (async_close going_away ∷ [], record (cancel_idle_timer s) { state = closing })

-- The completion of either `async_close`.
unfoldable pub on_closed : ErrorCode → Session → Step
unfolding mark_closed_and_notify_once
on_closed operation_aborted s = ([], s)
on_closed ec s = mark_closed_and_notify_once s

-- The timer has run out, or its wait was cancelled or failed.
unfoldable pub on_idle_timeout : ErrorCode → Session → Step
on_idle_timeout ec s = if not (is_ok ec) then ([], s) else close normal s

unfoldable pub on_drain_timeout : ErrorCode → Session → Step
on_drain_timeout ec s = if not (is_ok ec) then ([], s) else close_forcefully s

unfoldable pub on_heartbeat_timeout : ErrorCode → Session → Step
on_heartbeat_timeout ec s = if not (is_ok ec) then ([], s) else close normal s

unfoldable pub on_ping : ErrorCode → Session → Step
on_ping ec s = if not (is_ok ec) then close policy_error s else ([], s)

-- A pong has come: the control callback, which `setup_ws` sets if there are pings.
unfoldable pub on_pong : Session → Step
unfolding do_heartbeat_next
on_pong s =
    if ltb 0 s.config.ping_interval
    then do_heartbeat_next (record s { heartbeat_timer = false })
    else ([], s)

-- What the event loop, the peer and the session's users may do next.
pub data Event : Type 0 where
  starts : Event
  http_read_done : ErrorCode → WsAcceptingDecision → WsAcceptingDecision → Event
  accept_done : ErrorCode → Event
  rejection_done : Event
  read_done : ErrorCode → List ℕ → Event
  write_done drain_write_done : ErrorCode → ℕ → Event
  close_done : ErrorCode → Event
  timer_done : TimerUse → ErrorCode → Event
  heartbeat_done ping_done : ErrorCode → Event
  pong_read : Event
  runs : Posted → Event
  sends : WriteMessage → Event
  closes : CloseCode → Event
  closes_for_shutdown closes_forcefully : Event

-- `ping` is synchronous; its outcome is an event of its own.
abbrev run_posted : Posted → Session → Step
run_posted (post_enqueue message) s = do_enqueue_message message s
run_posted (post_close reason) s = run_close reason s
run_posted post_shutdown s = run_shutdown s
run_posted post_forceful s = run_forceful s
run_posted post_ping s = ([], s)

unfoldable pub step : Event → Session → Step
unfolding do_accept on_http_read on_accept on_rejected on_read on_write_complete
    on_drain_message_complete on_closed on_idle_timeout on_drain_timeout on_heartbeat_timeout
    on_ping on_pong run_close run_shutdown run_forceful do_enqueue_message send close_for_shutdown
step starts s = do_accept s
step (http_read_done ec auth accept) s = on_http_read ec auth accept s
step (accept_done ec) s = on_accept ec s
step rejection_done s = on_rejected s
step (read_done ec bytes) s = on_read ec bytes s
step (write_done ec to_write) s = on_write_complete ec (pop_written ec to_write s)
step (drain_write_done ec to_write) s = on_drain_message_complete ec (pop_written ec to_write s)
step (close_done ec) s = on_closed ec s
step (timer_done idle ec) s = on_idle_timeout ec s
step (timer_done drain ec) s = on_drain_timeout ec s
step (heartbeat_done ec) s = on_heartbeat_timeout ec (record s { heartbeat_timer = false })
step (ping_done ec) s = on_ping ec s
step pong_read s = on_pong s
step (runs posted) s = run_posted posted s
step (sends message) s = send message s
step (closes reason) s = close reason s
step closes_for_shutdown s = close_for_shutdown s
step closes_forcefully s = close_forcefully s

unfoldable pub run : List Event → Session → Step
run [] s = ([], s)
run (e ∷ es) s = and_then (step e s) (run es)
