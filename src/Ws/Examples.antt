-- ===== src/Ws/Examples.antt =====
-- WebSocket sessions on concrete inputs.
use rtl.Base.{add64, sub64, ◌≤◌, ◌≡◌, refl, true, false, List, [], ◌∷◌, arith, map, All}
use rtl.Ws.Session.{
  opened, success, failed, normal, WriteMessage, WsConfig, make_session, post_enqueue, post_close,
  post_shutdown,
}
use rtl.Ws.Session.Request.{parse_raw_endpoint}
use rtl.Ws.Session.Handlers.{Event, accept_done, read_done, close_done, runs, pong_read, step, run}
use rtl.Ws.Session.Writer.{
  ordinary, Writer, Happening, write_completes, happens, write_step, write_run, IsPossible,
  IsOrderly, accepted,
}
use rtl.Ws.Session.Orderly.{write_run-IsOrderly}
use rtl.Ws.Session.Shutdown.{message, replicate, shutdown_drains}
use rtl.Ws.Session.Notify.{bit, close_calls, run-close_calls}

abbrev config : WsConfig
config = record {
  idle_timeout = 30;
  ping_interval = 10;
  max_queued_messages = 4;
  max_queued_bytes = 100;
}

abbrev hello : WriteMessage
hello = record { is_binary = false; payload = 104 ∷ 105 ∷ [] }

abbrev bytes : WriteMessage
bytes = record { is_binary = true; payload = 1 ∷ 2 ∷ 3 ∷ [] }

-- Three messages are sent, and the first is written meanwhile.
abbrev happenings : List Happening
happenings =
    happens (runs (post_enqueue hello))
    ∷ happens (runs (post_enqueue bytes))
    ∷ write_completes success
    ∷ happens (runs (post_enqueue hello))
    ∷ happens pong_read
    ∷ []

abbrev happenings_IsPossible : All (IsPossible config) happenings
happenings_IsPossible = (omega arith, (omega arith, (tt, (omega arith, (tt, tt)))))

write_run-IsOrderly_example : IsOrderly (write_run happenings (accepted config true))
unfolding write_run write_step accepted step add64 sub64
write_run-IsOrderly_example =
    write_run-IsOrderly config true happenings happenings_IsPossible (omega arith) (omega arith)
      refl

-- After them the second message is under way, and the third waits.
happenings_test : (write_run happenings (accepted config true)).outstanding ≡ ordinary bytes ∷ []
unfolding write_run write_step accepted step add64 sub64
happenings_test = refl

-- A session that has two messages queued, and writes the first.
abbrev writing_two : Writer
writing_two = record {
  session = record (make_session config true) {
    state = opened;
    writing = true;
    write_queue = hello ∷ bytes ∷ [];
    queued_bytes = 5;
    queued_messages = 2;
  };
  outstanding = ordinary hello ∷ [];
}

abbrev writing_two_IsOrderly : IsOrderly writing_two
writing_two_IsOrderly = record {
  one_writer = refl;
  flag = refl;
  messages = refl;
  bytes = refl;
  messages_within = omega arith;
  bytes_within = omega arith;
}

shutdown_drains_example :
    let v =
      write_run
        (happens (runs post_shutdown) ∷ replicate 1 (write_completes success))
        writing_two in
    (v.session.write_queue ≡ bytes ∷ []) × (map message v.outstanding ≡ bytes ∷ [])
shutdown_drains_example = shutdown_drains 1 writing_two writing_two_IsOrderly

-- A session is accepted, asked to close, and its close completes twice, with a failed read between.
abbrev closing_events : List Event
closing_events =
    accept_done success
    ∷ runs (post_close normal)
    ∷ close_done success
    ∷ read_done failed []
    ∷ close_done success
    ∷ []

run-close_calls_example :
    (close_calls (run closing_events (make_session config true)).0
      ≡ bit (run closing_events (make_session config true)).1.close_notified)
    × (close_calls (run closing_events (make_session config true)).0 ≤ 1)
run-close_calls_example = run-close_calls closing_events (make_session config true) refl refl

closing_events_test : close_calls (run closing_events (make_session config true)).0 ≡ 1
unfolding run step
closing_events_test = refl

parse_raw_endpoint_test : parse_raw_endpoint "/chat?room=1?2" ≡ ("/chat", "room=1?2")
unfolding parse_raw_endpoint
parse_raw_endpoint_test = refl

no_query_test : parse_raw_endpoint "/chat" ≡ ("/chat", "")
unfolding parse_raw_endpoint
no_query_test = refl
