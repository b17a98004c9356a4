-- ===== src/Ws/Session/Shutdown.antt =====
-- How a session of ws/server/WsSession.hpp that is asked to shut down writes what it has queued.
use rtl.Base.{
  zero, suc, take, drop, map, ℕ, ◌≡◌, refl, ap, ◌∙◌, sym, subst, List, [], ◌∷◌, arith, inl, inr,
  ◌⊎◌, length,
}
use rtl.Ws.Session.{shutdown, success, WriteMessage, Session, post_enqueue, post_shutdown}
use rtl.Ws.Session.Handlers.{write_done, drain_write_done, runs, step}
use rtl.Ws.Session.Written.{queue_cases}
use rtl.Ws.Session.Orderly.{write_step-idle, write_step-oldest}
use rtl.Ws.Session.Writer.{
  Write, ordinary, draining, Writer, write_completes, happens, after_step, completed, write_step,
  write_run, is_busy, IsOrderly,
}

abbrev pub message : Write → WriteMessage
message (ordinary m) = m
message (draining m) = m

abbrev pub replicate {ℓ} : {A : Type ℓ} → ℕ → A → List A
replicate zero x = []
replicate (suc n) x = x ∷ replicate n x

-- The front of the queue, and only that, is being written by a session that is shutting down.
pub record IsDraining (w : Writer) : Type 0 where
  pub shut : w.session.state ≡ shutdown
  pub flag : w.session.writing ≡ is_busy w.session.write_queue
  pub under_way : map message w.outstanding ≡ take 1 w.session.write_queue

-- Either everything was written, or the front of the queue is under way.
pub under_way_cases :
    (os : List Write) (q : List WriteMessage)
    → map message os ≡ take 1 q
    → ((os ≡ []) × (q ≡ []))
      ⊎ ((x : Write) × (ms : List WriteMessage) × (os ≡ x ∷ []) × (q ≡ message x ∷ ms))
under_way_cases [] [] h = inl (refl, refl)
under_way_cases [] (m ∷ ms) h = cc
under_way_cases (x ∷ os) [] h = cc
under_way_cases (x ∷ []) (m ∷ ms) h = inr (x, ms, refl, cc)
under_way_cases (x ∷ y ∷ os) (m ∷ ms) h = cc

-- The front was written, whichever handler it completes with: the next message is started.
front_written :
    (s : Session) (x m : WriteMessage) (ms : List WriteMessage)
    → s.state ≡ shutdown
    → s.write_queue ≡ m ∷ ms
    → (IsDraining (after_step [] (step (write_done success (length x.payload)) s))
        × ((step (write_done success (length x.payload)) s).1.write_queue ≡ ms))
      × (IsDraining (after_step [] (step (drain_write_done success (length x.payload)) s))
          × ((step (drain_write_done success (length x.payload)) s).1.write_queue ≡ ms))
unfolding step
front_written s x m [] shut e = ground arith
front_written s x m (n ∷ ns) shut e = ground arith

completed_one :
    (x : Write) (s : Session) (m : WriteMessage) (ms : List WriteMessage)
    → s.state ≡ shutdown
    → s.write_queue ≡ m ∷ ms
    → IsDraining (after_step [] (step (completed success x) s))
      × ((step (completed success x) s).1.write_queue ≡ ms)
completed_one (ordinary x) s m ms shut e = (front_written s x m ms shut e).0
completed_one (draining x) s m ms shut e = (front_written s x m ms shut e).1

completes_one :
    (w : Writer)
    → IsDraining w
    → IsDraining (write_step (write_completes success) w)
      × ((write_step (write_completes success) w).session.write_queue
          ≡ drop 1 w.session.write_queue)
completes_one w d = elim (under_way_cases w.outstanding w.session.write_queue d.under_way) [
  | inl (none_left, e) ↦
      subst (λ v. IsDraining v × (v.session.write_queue ≡ drop 1 w.session.write_queue))
        (sym (write_step-idle success w none_left)) (d, e ∙ sym (ap (drop 1) e))
  | inr (x, ms, one, e) ↦
      subst (λ v. IsDraining v × (v.session.write_queue ≡ drop 1 w.session.write_queue))
        (sym (write_step-oldest success w x [] one))
        (
          (completed_one x w.session (message x) ms d.shut e).0,
          (completed_one x w.session (message x) ms d.shut e).1 ∙ sym (ap (drop 1) e),
        )
]

drop-one : {A : Type 0} (k : ℕ) (xs : List A) → drop k (drop 1 xs) ≡ drop (suc k) xs
drop-one zero [] = refl
drop-one (suc k) [] = refl
drop-one k (x ∷ xs) = refl

write_run-IsDraining :
    (k : ℕ) (w : Writer)
    → IsDraining w
    → IsDraining (write_run (replicate k (write_completes success)) w)
      × ((write_run (replicate k (write_completes success)) w).session.write_queue
          ≡ drop k w.session.write_queue)
unfolding write_run
write_run-IsDraining zero w d = (d, refl)
write_run-IsDraining (suc k) w d =
    let (first, queue) = completes_one w d in
    let (later, left) = write_run-IsDraining k (write_step (write_completes success) w) first in
    (later, left ∙ ap (drop k) queue ∙ drop-one k w.session.write_queue)

-- An open session whose front message is under way starts to shut down: nothing is written twice.
shutdown_starts :
    (w : Writer)
    → IsOrderly w
    → IsDraining (write_step (happens (runs post_shutdown)) w)
      × ((write_step (happens (runs post_shutdown)) w).session.write_queue ≡ w.session.write_queue)
unfolding write_step step
shutdown_starts w k = elim (queue_cases w.session.write_queue) [
  | inl e ↦ ground (arith, k.one_writer, k.flag)
  | inr ((m, ms), e) ↦ ground (arith, k.one_writer, k.flag)
]

-- A session in order (exactly the front of its queue is being written, and its counters are right)
-- that starts to shut down writes its queue in order, and each message once: after `k` writes have
-- succeeded, and nothing else has happened, the first `k` messages are gone from the queue, and
-- exactly the next one, if there is one, is under way.
pub shutdown_drains :
    (k : ℕ) (w : Writer)
    → IsOrderly w
    → let v = write_run (happens (runs post_shutdown) ∷ replicate k (write_completes success)) w in
      (v.session.write_queue ≡ drop k w.session.write_queue)
      × (map message v.outstanding ≡ take 1 (drop k w.session.write_queue))
unfolding write_run
shutdown_drains k w o =
    let (started, same) = shutdown_starts w o in
    let (d, left) = write_run-IsDraining k (write_step (happens (runs post_shutdown)) w) started in
    let queue = left ∙ ap (drop k) same in (queue, d.under_way ∙ ap (take 1) queue)

-- A message that is enqueued while a session that shuts down is writing the front of its queue
-- starts a second write of that same front.
pub enqueue_doubles :
    (m : WriteMessage) (w : Writer) (x : Write) (ms : List WriteMessage)
    → IsDraining w
    → w.outstanding ≡ x ∷ []
    → w.session.write_queue ≡ message x ∷ ms
    → (write_step (happens (runs (post_enqueue m))) w).outstanding ≡ x ∷ draining (message x) ∷ []
unfolding write_step step
enqueue_doubles m w x ms d one e = ground (arith, d.shut)
