-- ===== src/Ws/Session.antt =====
-- ws/server/WsSession.hpp: the state machine of one WebSocket session. A function is one handler, run
-- by the session's executor: it returns the operations that it starts or posts, and the new state.
-- A timer's field records what the timer is armed for. Its handlers are events that may come at any
-- time, with any error code: also after a cancellation that came too late.
pub mod Request
pub mod Handlers
pub mod Notify
pub mod Quiet
pub mod Shutdown
pub mod Handshake
pub mod Written
pub mod Writer
pub mod Orderly
use rtl.Base.{
  ℕ, ◌+◌, Bool, true, false, not, ◌&&◌, ◌||◌, List, [], ◌∷◌, ◌++◌, String, Option, none, some,
  length, ltb, if◌then◌else◌, add64, sub64,
}

pub data SessionState : Type 0 where
  opening opened closing closed shutdown : SessionState

-- `boost::system::error_code`, as far as the handlers tell errors apart.
pub data ErrorCode : Type 0 where
  success operation_aborted websocket_closed failed : ErrorCode

pub data CloseCode : Type 0 where
  no_code normal going_away policy_error : CloseCode

pub record WriteMessage : Type 0 where
  pub is_binary : Bool
  pub payload : List ℕ

-- The fields of `WsConfig` that a session reads; times in their units.
pub record WsConfig : Type 0 where
  pub idle_timeout : ℕ
  pub ping_interval : ℕ
  pub max_queued_messages : ℕ
  pub max_queued_bytes : ℕ

-- What the one timer object `m_idleTimer` is armed for.
pub data TimerUse : Type 0 where
  idle drain : TimerUse

pub record Session : Type 0 where
  pub config : WsConfig
  pub has_router : Bool
  pub state : SessionState
  pub writing : Bool
  pub close_notified : Bool
  pub write_queue : List WriteMessage
  pub queued_bytes : ℕ
  pub queued_messages : ℕ
  pub idle_timer : Option TimerUse
  pub heartbeat_timer : Bool

abbrev pub make_session : WsConfig → Bool → Session
make_session config has_router = record {
  config = config;
  has_router = has_router;
  state = opening;
  writing = false;
  close_notified = false;
  write_queue = [];
  queued_bytes = 0;
  queued_messages = 0;
  idle_timer = none;
  heartbeat_timer = false;
}

-- What is posted to the executor, to be run later.
pub data Posted : Type 0 where
  post_enqueue : WriteMessage → Posted
  post_close : CloseCode → Posted
  post_shutdown post_forceful post_ping : Posted

-- An operation that is started, or a call of the router. `async_write` and `drain_write` complete
-- with different handlers.
pub data Effect : Type 0 where
  async_http_read async_accept async_read : Effect
  async_write drain_write : WriteMessage → Effect
  async_close : CloseCode → Effect
  write_rejection : ℕ → String → Effect
  post : Posted → Effect
  router_open router_close : Effect
  router_error : ErrorCode → Effect
  router_message : List ℕ → Effect

abbrev pub Step : Type 0
Step = List Effect × Session

-- One handler part after another.
abbrev pub and_then : Step → (Session → Step) → Step
and_then (effects, s) f = let (later, s') = f s in (effects ++ later, s')

abbrev pub is_ok : ErrorCode → Bool
is_ok success = true
is_ok operation_aborted = false
is_ok websocket_closed = false
is_ok failed = false

abbrev pub is_open : Session → Bool
is_open s = elim s.state [ opened ↦ true | _ ↦ false ]

abbrev pub is_shutdown : Session → Bool
is_shutdown s = elim s.state [ shutdown ↦ true | _ ↦ false ]

abbrev pub is_closed : Session → Bool
is_closed s = elim s.state [ closed ↦ true | _ ↦ false ]

abbrev pub is_closing_or_closed : Session → Bool
is_closing_or_closed s = elim s.state [ opening ↦ false | opened ↦ false | _ ↦ true ]

-- Whether it was this call that began to close, and the state.
unfoldable pub begin_closing : Session → Bool × Session
begin_closing s = if is_closing_or_closed s then (false, s) else (
  true,
  record s {
    state = closing;
    writing = false;
    write_queue = [];
    queued_bytes = 0;
    queued_messages = 0;
    idle_timer = none;
    heartbeat_timer = false;
  },
)

unfoldable pub mark_closed_and_notify_once : Session → Step
mark_closed_and_notify_once s =
    let s' = record s { state = closed } in
    if s.close_notified
    then ([], s')
    else (if s.has_router then router_close ∷ [] else [], record s' { close_notified = true })

abbrev pub adjust_message_counters : ℕ → Session → Session
adjust_message_counters bytes s = record s {
  queued_bytes = add64 s.queued_bytes bytes;
  queued_messages = add64 s.queued_messages 1;
}

abbrev pub decrement_message_counters : ℕ → Session → Session
decrement_message_counters bytes s = record s {
  queued_bytes = sub64 s.queued_bytes bytes;
  queued_messages = sub64 s.queued_messages 1;
}

-- Whether a message of this size is let in, and the counters after that.
unfoldable pub check_message_size : ℕ → Session → Bool × Session
check_message_size bytes s =
    if ltb s.config.max_queued_messages (add64 s.queued_messages 1)
      || ltb s.config.max_queued_bytes (add64 s.queued_bytes bytes)
    then (false, s)
    else (true, adjust_message_counters bytes s)

-- `close` and `close_forcefully` only post.
abbrev pub close : CloseCode → Session → Step
close reason s = (post (post_close reason) ∷ [], s)

abbrev pub close_forcefully : Session → Step
close_forcefully s = (post post_forceful ∷ [], s)

-- `send_text` and `send_binary`.
unfoldable pub send : WriteMessage → Session → Step
send message s = if not (is_open s) then ([], s) else (post (post_enqueue message) ∷ [], s)

unfoldable pub close_for_shutdown : Session → Step
close_for_shutdown s = if is_closing_or_closed s then ([], s) else (post post_shutdown ∷ [], s)

abbrev start_drain_write : List WriteMessage → Session → Step
start_drain_write [] s = close_forcefully (record s { writing = false })
start_drain_write (next_msg ∷ rest) s = (drain_write next_msg ∷ [], record s { writing = true })

unfoldable pub do_drain_queue : Session → Step
do_drain_queue s = if s.writing then ([], s) else start_drain_write s.write_queue s

abbrev start_write : List WriteMessage → Session → Step
start_write [] s = ([], record s { writing = false })
start_write (next_msg ∷ rest) s = (async_write next_msg ∷ [], record s { writing = true })

unfoldable pub do_write_next : Session → Step
unfolding do_drain_queue
do_write_next s =
    if is_shutdown s
    then do_drain_queue (record s { writing = false })
    else if not (is_open s)
    then ([], record s { write_queue = []; writing = false })
    else start_write s.write_queue s

-- The posted part of `send_text` and `send_binary`.
unfoldable pub do_enqueue_message : WriteMessage → Session → Step
unfolding do_write_next check_message_size
do_enqueue_message message s =
    if is_shutdown s
    then do_write_next s
    else if not (is_open s)
    then ([], s)
    else let (fits, s') = check_message_size (length message.payload) s in
      let queued = record s' { write_queue = s'.write_queue ++ message ∷ [] } in
      if not fits
      then close no_code s'
      else if not s'.writing
      then do_write_next queued
      else ([], queued)

unfoldable pub run_idle_timer : Session → Session
run_idle_timer s =
    if not (ltb 0 s.config.idle_timeout) then s else record s { idle_timer = some idle }

-- `run_drain_timer` for one second.
unfoldable pub run_drain_timer : Session → Session
run_drain_timer s = record s { idle_timer = some drain }

-- `cancel_idle_timer` and `cancel_drain_timeout`: the same timer.
abbrev pub cancel_idle_timer : Session → Session
cancel_idle_timer s = record s { idle_timer = none }

unfoldable pub run_heartbeat_timer : Session → Session
run_heartbeat_timer s =
    if not (ltb 0 s.config.ping_interval) then s else record s { heartbeat_timer = true }

unfoldable pub do_heartbeat_next : Session → Step
unfolding run_heartbeat_timer
do_heartbeat_next s = (post post_ping ∷ [], run_heartbeat_timer s)

unfoldable pub do_read : Session → Step
do_read s = if not (is_open s) then ([], s) else (async_read ∷ [], s)
