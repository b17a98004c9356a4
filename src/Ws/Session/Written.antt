-- ===== src/Ws/Session/Written.antt =====
-- One message in, and one message written: how each keeps the session of ws/server/WsSession.hpp in
-- order, and that no handler changes its configuration.
use rtl.Base.{
  ◌+◌, ◌≤◌, ◌<◌, ◌≡◌, refl, ap, ◌∙◌, true, subst, List, [], ◌∷◌, arith, inl, inr, ◌⊎◌, length,
  u64_mod, add64, add64-eq-add, sub64-eq-sub, length-append, ltb→le,
}
use rtl.Ws.Session.{
  success, WriteMessage, idle, drain, Session, Posted, post_enqueue, post_close, post_shutdown,
  post_forceful, post_ping, is_open, check_message_size,
}
use rtl.Ws.Session.Handlers.{
  Event, starts, http_read_done, accept_done, rejection_done, read_done, write_done,
  drain_write_done, close_done, timer_done, heartbeat_done, ping_done, pong_read, runs, sends,
  closes, closes_for_shutdown, closes_forcefully, step,
}
use rtl.Ws.Session.Writer.{
  Writer, Happening, write_completes, happens, after_step, completed, write_step, total_bytes,
  total_bytes-append, IsOrderly,
}

-- The front of the queue was written.
pub written-IsOrderly :
    (w : Writer) (m : WriteMessage) (ms : List WriteMessage)
    → w.session.write_queue ≡ m ∷ ms
    → is_open w.session ≡ true
    → w.session.config.max_queued_messages + 1 < u64_mod
    → w.session.config.max_queued_bytes < u64_mod
    → IsOrderly w
    → IsOrderly (after_step [] (step (write_done success (length m.payload)) w.session))
unfolding step
written-IsOrderly w m ms e o b b' k =
    let bytes = k.bytes ∙ ap total_bytes e in
    let messages = k.messages ∙ ap length e in
    let bytes_within =
      subst (λ q. total_bytes q ≤ w.session.config.max_queued_bytes) e k.bytes_within in
    let messages_within =
      subst (λ q. length q ≤ w.session.config.max_queued_messages) e k.messages_within in
    let sub_bytes =
      sub64-eq-sub w.session.queued_bytes (length m.payload) (omega arith) (omega arith) in
    let sub_messages = sub64-eq-sub w.session.queued_messages 1 (omega arith) (omega arith) in
    elim ms
        as (λ ms.
          w.session.write_queue ≡ m ∷ ms
          → w.session.queued_bytes ≡ total_bytes (m ∷ ms)
          → w.session.queued_messages ≡ length (m ∷ ms)
          → total_bytes (m ∷ ms) ≤ w.session.config.max_queued_bytes
          → length (m ∷ ms) ≤ w.session.config.max_queued_messages
          → IsOrderly (after_step [] (step (write_done success (length m.payload)) w.session))) [
            | [] ↦ λ e bytes messages bytes_within messages_within. ground arith
            | n ∷ ns ↦ λ e bytes messages bytes_within messages_within. ground arith
          ]
      e bytes messages bytes_within messages_within

pub queue_cases :
    (q : List WriteMessage) → (q ≡ []) ⊎ ((x : WriteMessage × List WriteMessage) × (q ≡ x.0 ∷ x.1))
queue_cases [] = inl refl
queue_cases (m ∷ ms) = inr ((m, ms), refl)

-- A message is let in, or the session asks to be closed and its queue stays as it is.
pub enqueued-IsOrderly :
    (m : WriteMessage) (w : Writer)
    → is_open w.session ≡ true
    → w.session.config.max_queued_messages + 1 < u64_mod
    → w.session.config.max_queued_bytes + length m.payload < u64_mod
    → IsOrderly w
    → IsOrderly (write_step (happens (runs (post_enqueue m))) w)
unfolding write_step step check_message_size
enqueued-IsOrderly m w o b b' k =
    let fits_bytes =
      add64-eq-add w.session.queued_bytes (length m.payload)
        (omega (arith, k.bytes, k.bytes_within)) in
    let fits_messages =
      add64-eq-add w.session.queued_messages 1 (omega (arith, k.messages, k.messages_within)) in
    let longer = length-append w.session.write_queue (m ∷ []) in
    let larger = total_bytes-append w.session.write_queue m in
    let within_messages =
      ltb→le w.session.config.max_queued_messages (add64 w.session.queued_messages 1) in
    let within_bytes =
      ltb→le w.session.config.max_queued_bytes (add64 w.session.queued_bytes (length m.payload)) in
    elim (queue_cases w.session.write_queue) [
      | inl e ↦ ground arith
      | inr ((n, ns), e) ↦ ground arith
    ]

runs-config : (p : Posted) (s : Session) → (step (runs p) s).1.config ≡ s.config
unfolding step
runs-config (post_enqueue m) s = ground arith
runs-config (post_close reason) s = ground arith
runs-config post_shutdown s = ground arith
runs-config post_forceful s = ground arith
runs-config post_ping s = ground arith

step-config : (e : Event) (s : Session) → (step e s).1.config ≡ s.config
unfolding step
step-config starts s = refl
step-config (http_read_done ec auth accept) s = ground arith
step-config (accept_done ec) s = ground arith
step-config rejection_done s = refl
step-config (read_done ec bytes) s = ground arith
step-config (write_done ec n) s = ground arith
step-config (drain_write_done ec n) s = ground arith
step-config (close_done ec) s = ground arith
step-config (timer_done idle ec) s = ground arith
step-config (timer_done drain ec) s = ground arith
step-config (heartbeat_done ec) s = ground arith
step-config (ping_done ec) s = ground arith
step-config pong_read s = ground arith
step-config (runs p) s = runs-config p s
step-config (sends m) s = ground arith
step-config (closes reason) s = refl
step-config closes_for_shutdown s = ground arith
step-config closes_forcefully s = refl

pub write_step-config :
    (h : Happening) (w : Writer) → (write_step h w).session.config ≡ w.session.config
unfolding write_step
write_step-config (happens e) w = step-config e w.session
write_step-config (write_completes ec) w =
    elim w.outstanding
      as (λ o.
        (write_step (write_completes ec) (record w { outstanding = o })).session.config
        ≡ w.session.config) [ [] ↦ refl | e ∷ rest ↦ step-config (completed ec e) w.session ]
