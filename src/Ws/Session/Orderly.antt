-- ===== src/Ws/Session/Orderly.antt =====
-- An open session of ws/server/WsSession.hpp has one write under way, and its counters are right.
use rtl.Base.{
  ◌+◌, ◌≤◌, ◌<◌, ◌≡◌, ap, ◌∙◌, sym, Bool, true, false, subst, List, [], ◌∷◌, ◌++◌, arith, inl, inr,
  ◌⊎◌, length, All, u64_mod, append-nil, Bool-cases,
}
use rtl.Ws.Session.{
  ErrorCode, success, operation_aborted, websocket_closed, failed, WriteMessage, WsConfig,
  post_enqueue, post_close, post_shutdown, post_forceful, post_ping, is_open,
}
use rtl.Ws.Session.Handlers.{
  Event, starts, http_read_done, accept_done, rejection_done, read_done, write_done,
  drain_write_done, close_done, timer_done, heartbeat_done, ping_done, pong_read, runs, sends,
  closes, closes_for_shutdown, closes_forcefully, step,
}
use rtl.Ws.Session.Writer.{
  Write, ordinary, Writer, Happening, write_completes, happens, after_step, completed, write_step,
  write_run, accepted, IsPossible, total_bytes, front_write, is_busy, IsOrderly,
}
use rtl.Ws.Session.Quiet.{IsQuiet, step-Rests, shut-enqueue, completed-shut, failed-write}
use rtl.Ws.Session.Written.{written-IsOrderly, queue_cases, enqueued-IsOrderly, write_step-config}

-- Orderly, or no longer open.
abbrev Keeps : Writer → Type 0
Keeps w = (is_open w.session ≡ false) ⊎ IsOrderly w

completes-shut :
    (ec : ErrorCode) (w : Writer)
    → is_open w.session ≡ false
    → is_open (write_step (write_completes ec) w).session ≡ false
unfolding write_step
completes-shut ec w h =
    elim w.outstanding
      as (λ o.
        is_open (write_step (write_completes ec) (record w { outstanding = o })).session ≡ false) [
          | [] ↦ h
          | e ∷ rest ↦ completed-shut ec e w.session h
        ]

front-Keeps :
    (ec : ErrorCode) (w : Writer) (m : WriteMessage) (ms : List WriteMessage)
    → w.session.write_queue ≡ m ∷ ms
    → is_open w.session ≡ true
    → w.session.config.max_queued_messages + 1 < u64_mod
    → w.session.config.max_queued_bytes < u64_mod
    → IsOrderly w
    → Keeps (after_step [] (step (write_done ec (length m.payload)) w.session))
front-Keeps success w m ms e o b b' k = inr (written-IsOrderly w m ms e o b b' k)
front-Keeps operation_aborted w m ms e o b b' k =
    inl (failed-write operation_aborted (length m.payload) w.session (λ x. cc))
front-Keeps websocket_closed w m ms e o b b' k =
    inl (failed-write websocket_closed (length m.payload) w.session (λ x. cc))
front-Keeps failed w m ms e o b b' k =
    inl (failed-write failed (length m.payload) w.session (λ x. cc))

-- With nothing under way nothing completes, and otherwise the oldest write does.
pub write_step-idle :
    (ec : ErrorCode) (w : Writer) → w.outstanding ≡ [] → write_step (write_completes ec) w ≡ w
unfolding write_step
write_step-idle ec w h = ground arith

pub write_step-oldest :
    (ec : ErrorCode) (w : Writer) (e : Write) (rest : List Write)
    → w.outstanding ≡ e ∷ rest
    → write_step (write_completes ec) w ≡ after_step rest (step (completed ec e) w.session)
unfolding write_step
write_step-oldest ec w e rest h = ground arith

completes-Keeps :
    (ec : ErrorCode) (w : Writer)
    → w.session.config.max_queued_messages + 1 < u64_mod
    → w.session.config.max_queued_bytes < u64_mod
    → Keeps w
    → Keeps (write_step (write_completes ec) w)
unfolding write_step
completes-Keeps ec w b b' (inl shut) = inl (completes-shut ec w shut)
completes-Keeps ec w b b' (inr k) = elim (Bool-cases (is_open w.session)) [
  | inr shut ↦ inl (completes-shut ec w shut)
  | inl o ↦ elim (queue_cases w.session.write_queue) [
    | inl e ↦ subst Keeps (sym (write_step-idle ec w (k.one_writer ∙ ap front_write e))) (inr k)
    | inr ((m, ms), e) ↦
        subst Keeps (sym (write_step-oldest ec w (ordinary m) [] (k.one_writer ∙ ap front_write e)))
          (front-Keeps ec w m ms e o b b' k)
  ]
]

quiet-Keeps : (e : Event) (w : Writer) → IsQuiet e → Keeps w → Keeps (write_step (happens e) w)
unfolding write_step
quiet-Keeps e w q k = elim (step-Rests e w.session q).rests [
  | inl shut ↦ inl shut
  | inr (none_started, o, queue, flag, messages, bytes) ↦ elim k [
    | inl shut ↦ cc
    | inr orderly ↦
        let config = (step-Rests e w.session q).same_config in
        let messages_within =
          subst (λ q. length q ≤ w.session.config.max_queued_messages) (sym queue)
            orderly.messages_within in
        let bytes_within =
          subst (λ q. total_bytes q ≤ w.session.config.max_queued_bytes) (sym queue)
            orderly.bytes_within in
        inr (record {
          one_writer =
              ap (λ ws. w.outstanding ++ ws) none_started
              ∙ append-nil w.outstanding
              ∙ orderly.one_writer
              ∙ ap front_write (sym queue);
          flag = flag ∙ orderly.flag ∙ ap is_busy (sym queue);
          messages = messages ∙ orderly.messages ∙ ap length (sym queue);
          bytes = bytes ∙ orderly.bytes ∙ ap total_bytes (sym queue);
          messages_within =
              subst (λ c. length (step e w.session).1.write_queue ≤ c.max_queued_messages)
                (sym config) messages_within;
          bytes_within =
              subst (λ c. total_bytes (step e w.session).1.write_queue ≤ c.max_queued_bytes)
                (sym config) bytes_within;
        })
  ]
]

enqueue-Keeps :
    (m : WriteMessage) (w : Writer)
    → w.session.config.max_queued_messages + 1 < u64_mod
    → w.session.config.max_queued_bytes + length m.payload < u64_mod
    → Keeps w
    → Keeps (write_step (happens (runs (post_enqueue m))) w)
unfolding write_step
enqueue-Keeps m w b b' (inl shut) = inl (shut-enqueue m w.session shut)
enqueue-Keeps m w b b' (inr k) = elim (Bool-cases (is_open w.session)) [
  | inr shut ↦ inl (shut-enqueue m w.session shut)
  | inl o ↦ inr (enqueued-IsOrderly m w o b b' k)
]

write_step-Keeps :
    (h : Happening) (w : Writer)
    → IsPossible w.session.config h
    → w.session.config.max_queued_messages + 1 < u64_mod
    → w.session.config.max_queued_bytes < u64_mod
    → Keeps w
    → Keeps (write_step h w)
write_step-Keeps (write_completes ec) w p b b' k = completes-Keeps ec w b b' k
write_step-Keeps (happens (runs (post_enqueue m))) w p b b' k = enqueue-Keeps m w b p k
write_step-Keeps (happens starts) w p b b' k = elim p [ ]
write_step-Keeps (happens (http_read_done ec auth accept)) w p b b' k = elim p [ ]
write_step-Keeps (happens (accept_done ec)) w p b b' k = elim p [ ]
write_step-Keeps (happens rejection_done) w p b b' k = elim p [ ]
write_step-Keeps (happens (write_done ec n)) w p b b' k = elim p [ ]
write_step-Keeps (happens (drain_write_done ec n)) w p b b' k = elim p [ ]
write_step-Keeps (happens (read_done ec bytes)) w p b b' k = quiet-Keeps (read_done ec bytes) w p k
write_step-Keeps (happens (close_done ec)) w p b b' k = quiet-Keeps (close_done ec) w p k
write_step-Keeps (happens (timer_done armed ec)) w p b b' k =
    quiet-Keeps (timer_done armed ec) w p k
write_step-Keeps (happens (heartbeat_done ec)) w p b b' k = quiet-Keeps (heartbeat_done ec) w p k
write_step-Keeps (happens (ping_done ec)) w p b b' k = quiet-Keeps (ping_done ec) w p k
write_step-Keeps (happens pong_read) w p b b' k = quiet-Keeps pong_read w p k
write_step-Keeps (happens (runs (post_close reason))) w p b b' k =
    quiet-Keeps (runs (post_close reason)) w p k
write_step-Keeps (happens (runs post_shutdown)) w p b b' k = quiet-Keeps (runs post_shutdown) w p k
write_step-Keeps (happens (runs post_forceful)) w p b b' k = quiet-Keeps (runs post_forceful) w p k
write_step-Keeps (happens (runs post_ping)) w p b b' k = quiet-Keeps (runs post_ping) w p k
write_step-Keeps (happens (sends m)) w p b b' k = quiet-Keeps (sends m) w p k
write_step-Keeps (happens (closes reason)) w p b b' k = quiet-Keeps (closes reason) w p k
write_step-Keeps (happens closes_for_shutdown) w p b b' k = quiet-Keeps closes_for_shutdown w p k
write_step-Keeps (happens closes_forcefully) w p b b' k = quiet-Keeps closes_forcefully w p k

write_run-Keeps :
    (c : WsConfig) (hs : List Happening) (w : Writer)
    → w.session.config ≡ c
    → All (IsPossible c) hs
    → c.max_queued_messages + 1 < u64_mod
    → c.max_queued_bytes < u64_mod
    → Keeps w
    → Keeps (write_run hs w)
unfolding write_run
write_run-Keeps c [] w e p b b' k = k
write_run-Keeps c (h ∷ hs) w e (first, later) b b' k =
    write_run-Keeps c hs (write_step h w) (write_step-config h w ∙ e) later b b' (
      write_step-Keeps h w (subst (λ c. IsPossible c h) (sym e) first)
        (subst (λ c. c.max_queued_messages + 1 < u64_mod) (sym e) b)
        (subst (λ c. c.max_queued_bytes < u64_mod) (sym e) b') k)

accepted-Keeps :
    (c : WsConfig) (router : Bool)
    → ((accepted c router).session.config ≡ c) × Keeps (accepted c router)
unfolding accepted
accepted-Keeps c router = ground arith

-- For any sequence of events and completions of a session that has just been accepted, with limits
-- below 2^64 and no message that would overflow the counter of bytes: if the session is open
-- afterwards, then exactly the front of its queue is being written (nothing, if the queue is empty),
-- `m_writing` says so, both counters agree with the queue, and both are within the limits.
pub write_run-IsOrderly :
    (c : WsConfig) (router : Bool) (hs : List Happening)
    → All (IsPossible c) hs
    → c.max_queued_messages + 1 < u64_mod
    → c.max_queued_bytes < u64_mod
    → is_open (write_run hs (accepted c router)).session ≡ true
    → IsOrderly (write_run hs (accepted c router))
write_run-IsOrderly c router hs p b b' o =
    elim (write_run-Keeps c hs (accepted c router) (accepted-Keeps c router).0 p b b'
      (accepted-Keeps c router).1) [ inl shut ↦ cc | inr orderly ↦ orderly ]
