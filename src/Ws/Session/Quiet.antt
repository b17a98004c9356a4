-- ===== src/Ws/Session/Quiet.antt =====
-- The handlers of ws/server/WsSession.hpp that start no write, and those of a session that is no
-- longer open.
use rtl.Base.{ℕ, ◌≡◌, refl, true, false, ◌≢◌, [], arith, ◌⊎◌, length}
use rtl.Ws.Session.{
  ErrorCode, success, operation_aborted, websocket_closed, failed, WriteMessage, idle, drain,
  Session, Posted, post_enqueue, post_close, post_shutdown, post_forceful, post_ping, Step, is_open,
}
use rtl.Ws.Session.Handlers.{
  Event, starts, http_read_done, accept_done, rejection_done, read_done, write_done,
  drain_write_done, close_done, timer_done, heartbeat_done, ping_done, pong_read, runs, sends,
  closes, closes_for_shutdown, closes_forcefully, step,
}
use rtl.Ws.Session.Writer.{Write, ordinary, draining, writes_of, completed}

-- An event that starts no write of an open session, keeps the queue and its counters or leaves the
-- open state.
pub record Rests (s : Session) (r : Step) : Type 0 where
  pub same_config : r.1.config ≡ s.config
  pub rests :
      (is_open r.1 ≡ false)
      ⊎ ((writes_of r.0 ≡ [])
          × (is_open s ≡ true)
          × (r.1.write_queue ≡ s.write_queue)
          × (r.1.writing ≡ s.writing)
          × (r.1.queued_messages ≡ s.queued_messages)
          × (r.1.queued_bytes ≡ s.queued_bytes))

abbrev pub IsQuiet : Event → Type 0
IsQuiet starts = ⊥
IsQuiet (http_read_done ec auth accept) = ⊥
IsQuiet (accept_done ec) = ⊥
IsQuiet rejection_done = ⊥
IsQuiet (write_done ec n) = ⊥
IsQuiet (drain_write_done ec n) = ⊥
IsQuiet (runs (post_enqueue m)) = ⊥
IsQuiet _ = Unit

runs-Rests : (p : Posted) (s : Session) → IsQuiet (runs p) → Rests s (step (runs p) s)
unfolding step
runs-Rests (post_enqueue m) s q = elim q [ ]
runs-Rests (post_close reason) s q = ground arith
runs-Rests post_shutdown s q = ground arith
runs-Rests post_forceful s q = ground arith
runs-Rests post_ping s q = ground arith

pub step-Rests : (e : Event) (s : Session) → IsQuiet e → Rests s (step e s)
unfolding step
step-Rests starts s q = elim q [ ]
step-Rests (http_read_done ec auth accept) s q = elim q [ ]
step-Rests (accept_done ec) s q = elim q [ ]
step-Rests rejection_done s q = elim q [ ]
step-Rests (write_done ec n) s q = elim q [ ]
step-Rests (drain_write_done ec n) s q = elim q [ ]
step-Rests (read_done ec bytes) s q = ground arith
step-Rests (close_done ec) s q = ground arith
step-Rests (timer_done idle ec) s q = ground arith
step-Rests (timer_done drain ec) s q = ground arith
step-Rests (heartbeat_done ec) s q = ground arith
step-Rests (ping_done ec) s q = ground arith
step-Rests pong_read s q = ground arith
step-Rests (runs p) s q = runs-Rests p s q
step-Rests (sends m) s q = ground arith
step-Rests (closes reason) s q = ground arith
step-Rests closes_for_shutdown s q = ground arith
step-Rests closes_forcefully s q = ground arith

-- Once it is not open, an accepted session never opens again.
shut-completes :
    (ec : ErrorCode) (n : ℕ) (s : Session)
    → is_open s ≡ false
    → (is_open (step (write_done ec n) s).1 ≡ false)
      × (is_open (step (drain_write_done ec n) s).1 ≡ false)
unfolding step
shut-completes ec n s h = ground arith

pub shut-enqueue :
    (m : WriteMessage) (s : Session)
    → is_open s ≡ false
    → is_open (step (runs (post_enqueue m)) s).1 ≡ false
unfolding step
shut-enqueue m s h = ground arith

completes-config :
    (ec : ErrorCode) (n : ℕ) (s : Session)
    → ((step (write_done ec n) s).1.config ≡ s.config)
      × ((step (drain_write_done ec n) s).1.config ≡ s.config)
unfolding step
completes-config ec n s = ground arith

pub enqueue-config :
    (m : WriteMessage) (s : Session) → (step (runs (post_enqueue m)) s).1.config ≡ s.config
unfolding step
enqueue-config m s = ground arith

pub failed-write :
    (ec : ErrorCode) (n : ℕ) (s : Session)
    → ec ≢ success
    → is_open (step (write_done ec n) s).1 ≡ false
unfolding step
failed-write success n s h = elim (h refl) [ ]
failed-write operation_aborted n s h = ground arith
failed-write websocket_closed n s h = ground arith
failed-write failed n s h = ground arith

pub completed-config :
    (ec : ErrorCode) (e : Write) (s : Session) → (step (completed ec e) s).1.config ≡ s.config
completed-config ec (ordinary m) s = (completes-config ec (length m.payload) s).0
completed-config ec (draining m) s = (completes-config ec (length m.payload) s).1

pub completed-shut :
    (ec : ErrorCode) (e : Write) (s : Session)
    → is_open s ≡ false
    → is_open (step (completed ec e) s).1 ≡ false
completed-shut ec (ordinary m) s h = (shut-completes ec (length m.payload) s h).0
completed-shut ec (draining m) s h = (shut-completes ec (length m.payload) s h).1
