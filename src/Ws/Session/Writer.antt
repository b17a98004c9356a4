-- ===== src/Ws/Session/Writer.antt =====
-- The one writer of ws/server/WsSession.hpp: the session's handlers, together with the asynchronous
-- writes that the event loop has under way and will complete.
use rtl.Base.{ℕ, ◌+◌, ◌≤◌, ◌<◌, ◌≡◌, Bool, true, false, List, [], ◌∷◌, ◌++◌, arith, length, u64_mod}
use rtl.Ws.Session.{
  ErrorCode, success, WriteMessage, WsConfig, Session, post_enqueue, Effect, async_write,
  drain_write, Step, make_session,
}
use rtl.Ws.Session.Handlers.{
  Event, starts, http_read_done, accept_done, rejection_done, write_done, drain_write_done, runs,
  step,
}

-- An asynchronous write that is under way, by its completion handler.
pub data Write : Type 0 where
  ordinary draining : WriteMessage → Write

-- The writes among the effects, in the order in which they are started.
abbrev pub writes_of : List Effect → List Write
writes_of [] = []
writes_of (async_write m ∷ es) = ordinary m ∷ writes_of es
writes_of (drain_write m ∷ es) = draining m ∷ writes_of es
writes_of (e ∷ es) = writes_of es

-- The session, and its writes that have not completed.
pub record Writer : Type 0 where
  pub session : Session
  pub outstanding : List Write

-- What happens next: the oldest write completes, or something else happens to an accepted session.
pub data Happening : Type 0 where
  write_completes : ErrorCode → Happening
  happens : Event → Happening

abbrev pub after_step : List Write → Step → Writer
after_step rest (effects, s) = record { session = s; outstanding = rest ++ writes_of effects }

-- The completion handler captured how many bytes it wrote.
abbrev pub completed : ErrorCode → Write → Event
completed ec (ordinary m) = write_done ec (length m.payload)
completed ec (draining m) = drain_write_done ec (length m.payload)

unfoldable pub write_step : Happening → Writer → Writer
write_step (write_completes ec) w = elim w.outstanding [
  | [] ↦ w
  | e ∷ rest ↦ after_step rest (step (completed ec e) w.session)
]
write_step (happens e) w = after_step w.outstanding (step e w.session)

unfoldable pub write_run : List Happening → Writer → Writer
write_run [] w = w
write_run (h ∷ hs) w = write_run hs (write_step h w)

-- The accepted session: the handshake is over, a write completes only if it is under way, and the
-- sizes of the messages do not overflow the counter of bytes.
abbrev pub IsPossible : WsConfig → Happening → Type 0
IsPossible c (happens starts) = ⊥
IsPossible c (happens (http_read_done ec auth accept)) = ⊥
IsPossible c (happens (accept_done ec)) = ⊥
IsPossible c (happens rejection_done) = ⊥
IsPossible c (happens (write_done ec n)) = ⊥
IsPossible c (happens (drain_write_done ec n)) = ⊥
IsPossible c (happens (runs (post_enqueue m))) = c.max_queued_bytes + length m.payload < u64_mod
IsPossible c _ = Unit

abbrev pub total_bytes : List WriteMessage → ℕ
total_bytes [] = 0
total_bytes (m ∷ ms) = length m.payload + total_bytes ms

pub total_bytes-append :
    (ms : List WriteMessage) (m : WriteMessage)
    → total_bytes (ms ++ m ∷ []) ≡ total_bytes ms + length m.payload
total_bytes-append [] m = omega arith
total_bytes-append (n ∷ ms) m = omega (arith, total_bytes-append ms m)

-- What is under way: nothing if the queue is empty, and else the front of the queue.
abbrev pub front_write : List WriteMessage → List Write
front_write [] = []
front_write (m ∷ ms) = ordinary m ∷ []

abbrev pub is_busy : List WriteMessage → Bool
is_busy [] = false
is_busy (m ∷ ms) = true

pub record IsOrderly (w : Writer) : Type 0 where
  pub one_writer : w.outstanding ≡ front_write w.session.write_queue
  pub flag : w.session.writing ≡ is_busy w.session.write_queue
  pub messages : w.session.queued_messages ≡ length w.session.write_queue
  pub bytes : w.session.queued_bytes ≡ total_bytes w.session.write_queue
  pub messages_within : length w.session.write_queue ≤ w.session.config.max_queued_messages
  pub bytes_within : total_bytes w.session.write_queue ≤ w.session.config.max_queued_bytes

-- A session that was accepted, and that nothing has happened to.
unfoldable pub accepted : WsConfig → Bool → Writer
unfolding step
accepted c router = after_step [] (step (accept_done success) (make_session c router))
