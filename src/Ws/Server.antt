-- ===== src/Ws/Server.antt =====
-- ws/server/WsServer.hpp: the sessions of a server, its start and stop, and what it makes of a message.
-- A function is what one thread does while it holds the mutex, or between two such regions; an event
-- is one of them, by any thread. A weak pointer is the number of its session.
mod Filter
mod Current
mod Examples
use rtl.Base.{
  ℕ, Bool, true, false, not, ◌&&◌, ◌||◌, String, Option, none, some, List, [], ◌∷◌, ◌++◌, map, ◌==◌,
  if◌then◌else◌,
}
use rtl.Ws.Json.{Json}
use rtl.Ws.Message.{JsonMessage, string_to_message}

pub data ServerState : Type 0 where
  init running stopping stopped : ServerState

pub record Server : Type 0 where
  pub state : ServerState
  pub sessions : List ℕ
  pub stop_wait : Bool
  -- The sessions that were destroyed, whose weak pointers are expired.
  pub destroyed : List ℕ

-- What a server asks of a session; `send_text` and `send_binary` with their bytes.
pub data Request : Type 0 where
  send_text : List ℕ → Request
  send_binary : List ℕ → Request
  close_for_shutdown close_forcefully : Request

unfoldable pub make_server : Server
make_server = record { state = init; sessions = []; stop_wait = false; destroyed = [] }

abbrev pub is_running : ServerState → Bool
is_running running = true
is_running other = false

-- `std::erase_if`.
unfoldable pub erase_if : (ℕ → Bool) → List ℕ → List ℕ
erase_if p [] = []
erase_if p (x ∷ xs) = let rest = erase_if p xs in if p x then rest else x ∷ rest

unfoldable pub is_among : ℕ → List ℕ → Bool
is_among x [] = false
is_among x (y ∷ ys) = x == y || is_among x ys

abbrev pub expired : Server → ℕ → Bool
expired m session = is_among session m.destroyed

unfoldable pub register_session : Server → ℕ → Server
register_session m session = record m { sessions = m.sessions ++ session ∷ [] }

unfoldable pub unregister_session : Server → ℕ → Server
unfolding erase_if is_among
unregister_session m session = record m {
  sessions = erase_if (λ s. expired m s || s == session) m.sessions;
}

unfoldable pub remove_invalid_sessions_unlocked : Server → Server
unfolding erase_if is_among
remove_invalid_sessions_unlocked m = record m { sessions = erase_if (expired m) m.sessions }

-- The loop over the sessions whose weak pointers can be locked.
unfoldable pub locked : Server → List ℕ
unfolding erase_if is_among
locked m = erase_if (expired m) m.sessions

unfoldable pub get_live_sessions : Server → List ℕ × Server
unfolding locked remove_invalid_sessions_unlocked
get_live_sessions m = let m' = remove_invalid_sessions_unlocked m in (locked m', m')

-- The same request to each of some sessions.
abbrev pub each : Request → List ℕ → List (ℕ × Request)
each r sessions = map (λ s. (s, r)) sessions

unfoldable pub broadcast : Request → Server → List (ℕ × Request) × Server
unfolding locked remove_invalid_sessions_unlocked
broadcast r m =
    if not (is_running m.state)
    then ([], m)
    else let m' = remove_invalid_sessions_unlocked m in (each r (locked m'), m')

unfoldable pub broadcast_text : List ℕ → Server → List (ℕ × Request) × Server
unfolding broadcast
broadcast_text text m = broadcast (send_text text) m

unfoldable pub broadcast_binary : List ℕ → Server → List (ℕ × Request) × Server
unfolding broadcast
broadcast_binary bytes m = broadcast (send_binary bytes) m

-- The check of `start`: whether it goes on.
unfoldable pub start_check : Server → Bool
start_check m = not (is_running m.state)

-- Its end, after `m_engine.run()`.
unfoldable pub start_finish : Server → Server
start_finish m = record m { state = running }

abbrev pub is_stopping_or_stopped : ServerState → Bool
is_stopping_or_stopped stopping = true
is_stopping_or_stopped stopped = true
is_stopping_or_stopped other = false

-- The first region of `stop`: whether it goes on.
unfoldable pub stop_begin : Server → Bool × Server
stop_begin m =
    if is_stopping_or_stopped m.state then (false, m) else (true, record m { state = stopping })

abbrev pub is_stopped : ServerState → Bool
is_stopped stopped = true
is_stopped other = false

-- The check of `stop_active_sessions`: whether it goes on.
unfoldable pub stop_active_check : Server → Bool
stop_active_check m = not (is_stopped m.state)

-- Its loop.
unfoldable pub stop_active_sessions : Server → List (ℕ × Request) × Server
unfolding get_live_sessions
stop_active_sessions m =
    let (sessions, m') = get_live_sessions m in (each close_for_shutdown sessions, m')

-- The start of the wait that follows.
unfoldable pub start_wait_timer : Server → Server
start_wait_timer m = record m { stop_wait = false }

abbrev pub is_empty : List ℕ → Bool
is_empty [] = true
is_empty (x ∷ xs) = false

-- The predicate of the wait: whether it is over.
unfoldable pub sessions_stopped : Server → Bool × Server
unfolding remove_invalid_sessions_unlocked
sessions_stopped m =
    let m' = remove_invalid_sessions_unlocked m in (is_empty m'.sessions || m'.stop_wait, m')

unfoldable pub on_wait_timer_timeout : Server → List (ℕ × Request) × Server
unfolding get_live_sessions
on_wait_timer_timeout m =
    let (sessions, m') = get_live_sessions (record m { stop_wait = true }) in
    (each close_forcefully sessions, m')

-- The last region of `stop`.
unfoldable pub stop_finish : Server → Server
stop_finish m = record m { state = stopped }

pub data Event : Type 0 where
  -- The router's `handle_open` and `handle_close`, and the end of the object.
  opens closes destroys : ℕ → Event
  broadcasts : Request → Event
  starts stop_begins stop_closes stop_waits stop_looks times_out stop_ends : Event

-- What an event asks of the sessions, and the server after it.
unfoldable pub step : Server → Event → List (ℕ × Request) × Server
unfolding register_session unregister_session broadcast start_finish stop_begin stop_active_sessions
    start_wait_timer sessions_stopped on_wait_timer_timeout stop_finish
step m (opens s) = ([], register_session m s)
step m (closes s) = ([], unregister_session m s)
step m (destroys s) = ([], record m { destroyed = s ∷ m.destroyed })
step m (broadcasts r) = broadcast r m
step m starts = ([], start_finish m)
step m stop_begins = ([], (stop_begin m).1)
step m stop_closes = stop_active_sessions m
step m stop_waits = ([], start_wait_timer m)
step m stop_looks = ([], (sessions_stopped m).1)
step m times_out = on_wait_timer_timeout m
step m stop_ends = ([], stop_finish m)

unfoldable pub run : Server → List Event → Server
run m [] = m
run m (e ∷ es) = run (step m e).1 es

-- The handler that the user set: an empty one is refused, and the one before is kept.
unfoldable pub set_handler {ℓ} :
    {Handler : Type ℓ} → Option Handler → Option Handler → Option Handler
set_handler old none = old
set_handler old (some handler) = some handler

-- Whether the user set a handler for raw messages, for protocol errors, and for typed messages.
pub record Handlers : Type 0 where
  pub usr_on_message : Bool
  pub usr_on_proto_err : Bool
  pub usr_on_typed : Bool

module _ (json : Json) where
  open json use {Value}

  pub data Call : Type 0 where
    calls_message calls_protocol_error : String → Call
    calls_typed : JsonMessage json → Call

  abbrev call_if : Bool → Call → List Call
  call_if true c = c ∷ []
  call_if false c = []

  -- The handler of the router's messages, with `json::parse` as a parameter.
  unfoldable pub on_message : (String → Option Value) → Handlers → String → List Call
  on_message parse h payload =
      call_if h.usr_on_message (calls_message payload)
      ++ elim (string_to_message json parse payload) [
        | none ↦
            call_if h.usr_on_proto_err (calls_protocol_error "Failed to parse protocol message")
        | some typed_message ↦ call_if h.usr_on_typed (calls_typed typed_message)
      ]
