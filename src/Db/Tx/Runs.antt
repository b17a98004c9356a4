-- ===== src/Db/Tx/Runs.antt =====
-- Whole lives of a transaction of db/tx/Transaction.cpp, from its constructor to its destructor.
use rtl.Base.{
  subst, if◌then◌else◌, ◌≡◌, ◌≢◌, refl, sym, ap, ◌∙◌, ◌⊎◌, inl, inr, false, List, [], ◌∷◌, none,
  some, Bool-cases, Outcome, returns, throws, sleeps, undefined, M, after, ◌>>◌,
}
use rtl.Db.Errors.{Exception}
use rtl.Db.Pqxx.{Pqxx, Reply}
use rtl.Db.Session.{
  on_work, on_conn, ConnectionState, S, finish, rollback as session_rollback,
  construct as begin_on_connection, exec as session_exec, exec_params as session_exec_params,
  exec_prepared as session_exec_prepared, commit as session_commit,
}
use rtl.Db.Session.Connection.{ensure_open}
use rtl.Db.Session.Consistent.{IsConsistent, Sound, construct-Sound}
use rtl.Db.Session.Autocommit.{ensure_open-ne-undefined, construct-outcome}
use rtl.Db.Tx.{
  Impl, Transaction, on_impl, release, destroy, Call, made, made_open, construct, execs,
  execs_params, execs_prepared, sets, commits, rollbacks, step, run, forget, or_stop,
}
use rtl.Db.Tx.Leases.{IsReturned, IsLost, IsSettled, handled, released}
use rtl.Db.Tx.Settles.{
  Settles, exec-Settles, prepared-Settles, params-Settles, commit-Settles, rollback-Settles,
}
use rtl.Db.Tx.Endings.{IsReady, destroy-held, destroy-lost, dead, finish-dead}

module _ (pq : Pqxx) where
  open pq use {Config, Conn, Rows, Param}

  forget-IsSettled :
      {A : Type 0} (r : Outcome Exception A) (t : Transaction pq)
      → IsSettled pq (r, t)
      → IsSettled pq (forget pq (r, t))
  forget-IsSettled (returns a) t (inl h) = inl ((λ c. cc), h.1)
  forget-IsSettled (throws e) t (inl h) = inl ((λ c. cc), h.1)
  forget-IsSettled sleeps t (inl h) = inl ((λ c. cc), h.1)
  forget-IsSettled undefined t (inl h) = absurd (h.0 refl)
  forget-IsSettled (returns a) t (inr h) = inr h
  forget-IsSettled (throws e) t (inr h) = inr h
  forget-IsSettled sleeps t (inr h) = inr h
  forget-IsSettled undefined t (inr h) = inr h

  -- A call, in a transaction that holds its connection or is over.
  call-IsSettled :
      {A : Type 0} (call : M Exception (S pq) A) (t : Transaction pq)
      → ((s : S pq) → IsConsistent s → Settles pq (call s))
      → IsReady pq t
      → IsSettled pq (on_impl pq call t t.impl)
  call-IsSettled call t settles (inl (i, held, h, none_back)) =
      rw held (
        handled pq (call i.session).0 (call i.session).1 i.broken t (settles i.session h) none_back)
  call-IsSettled call t settles (inr over) = rw (over.0) (inl ((λ c. cc), inr (refl, over.1)))

  ended :
      (r : Outcome Exception (Unit {0})) (s : S pq) (i : Impl pq) (t : Transaction pq)
      → Settles pq (r, s)
      → t.returned ≡ []
      → IsSettled pq (after (λ _. release pq) (on_impl pq (λ _. (r, s)) t (some i)))
  ended (returns a) s i t h none_back =
      let v =
        released pq (record { session = s; broken = i.broken })
          (record t { impl = some (record { session = s; broken = i.broken }) }) refl h.sound.1
          none_back in
      inl ((λ c. let e = sym v.0 ∙ c in cc), inr v.1)
  ended (throws e) s i t h none_back = handled pq (throws e) s i.broken t h none_back
  ended sleeps s i t h none_back = handled pq sleeps s i.broken t h none_back
  ended undefined s i t h none_back = absurd (h.sound.0 refl)

  -- A call that ends the transaction.
  end-IsSettled :
      (call : M Exception (S pq) (Unit {0})) (t : Transaction pq)
      → ((s : S pq) → IsConsistent s → Settles pq (call s))
      → IsReady pq t
      → IsSettled pq (after (λ _. release pq) (on_impl pq call t t.impl))
  end-IsSettled call t settles (inl (i, held, h, none_back)) =
      rw held (ended (call i.session).0 (call i.session).1 i t (settles i.session h) none_back)
  end-IsSettled call t settles (inr over) = rw (over.0) (inl ((λ c. cc), inr (refl, over.1)))

  step-IsSettled :
      (call : Call pq) (t : Transaction pq) → IsReady pq t → IsSettled pq (step pq t call)
  unfolding step
  step-IsSettled (execs sql) t h =
      forget-IsSettled _ _ (call-IsSettled (session_exec pq sql) t (exec-Settles pq sql) h)
  step-IsSettled (execs_params sql params) t h =
      forget-IsSettled _ _
        (call-IsSettled (session_exec_params pq sql params) t (params-Settles pq sql params) h)
  step-IsSettled (execs_prepared name params) t h =
      forget-IsSettled _ _ (
        call-IsSettled (session_exec_prepared pq name params) t (prepared-Settles pq name params) h)
  step-IsSettled (sets level) t h =
      forget-IsSettled _ _ (call-IsSettled (session_exec pq _) t (exec-Settles pq _) h)
  step-IsSettled commits t h = end-IsSettled (session_commit pq) t (commit-Settles pq) h
  step-IsSettled rollbacks t h = end-IsSettled (session_rollback pq) t (rollback-Settles pq) h

  on_work-dead :
      {A : Type 0} (f : Conn → Reply A × Conn) (s : S pq)
      → s.shared.connection ≡ none
      → on_work pq f s ≡ (undefined, s)
  on_work-dead f s closed = ap (on_conn pq f s) closed

  step-lost : (call : Call pq) (t : Transaction pq) → IsLost pq t → step pq t call ≡ (undefined, t)
  unfolding step session_exec session_exec_params session_exec_prepared session_commit
      session_rollback
  step-lost (execs sql) t h =
      ap (forget pq)
        (dead pq (on_work pq (pq.exec sql)) t h (λ s closed _. on_work-dead (pq.exec sql) s closed))
  step-lost (execs_params sql params) t h = ap (forget pq) (
      dead pq
        (if pq.no_params params
          then on_work pq (pq.exec sql)
          else on_work pq (pq.exec_with sql params))
        t h
        (λ s closed _. elim (Bool-cases (pq.no_params params)) [
          | inl e ↦ rw e (on_work-dead (pq.exec sql) s closed)
          | inr e ↦ rw e (on_work-dead (pq.exec_with sql params) s closed)
        ]))
  step-lost (execs_prepared name params) t h = ap (forget pq) (
      dead pq (on_work pq (pq.exec_prepped name params)) t h
        (λ s closed _. on_work-dead (pq.exec_prepped name params) s closed))
  step-lost (sets level) t h =
      ap (forget pq)
        (dead pq (on_work pq (pq.exec _)) t h (λ s closed _. on_work-dead (pq.exec _) s closed))
  step-lost commits t h = ap (after (λ _. release pq)) (
      dead pq (on_work pq pq.commit >> finish pq) t h
        (λ s closed _. ap (after (λ _. finish pq)) (on_work-dead pq.commit s closed)))
  step-lost rollbacks t h =
      ap (after (λ _. release pq))
        (dead pq (finish pq) t h (λ s closed impl. finish-dead pq s closed impl))

  run-IsLost :
      (calls : List (Call pq)) (t : Transaction pq) → IsLost pq t → IsLost pq (run pq calls t).1
  unfolding run
  run-IsLost [] t h = h
  run-IsLost (call ∷ calls) t h =
      subst (λ p. IsLost pq p.1) (sym (ap (or_stop pq (run pq calls)) (step-lost call t h))) h

  goes_on :
      (calls : List (Call pq)) (r : Outcome Exception (Unit {0})) (t : Transaction pq)
      → IsSettled pq (r, t)
      → (IsReady pq t → IsSettled pq (run pq calls t))
      → IsSettled pq (or_stop pq (run pq calls) (r, t))
  goes_on calls (returns a) t (inl h) k = k h.1
  goes_on calls (throws e) t (inl h) k = k h.1
  goes_on calls sleeps t (inl h) k = k h.1
  goes_on calls undefined t (inl h) k = absurd (h.0 refl)
  goes_on calls (returns a) t (inr h) k = inr (run-IsLost calls t h)
  goes_on calls (throws e) t (inr h) k = inr (run-IsLost calls t h)
  goes_on calls sleeps t (inr h) k = inr (run-IsLost calls t h)
  goes_on calls undefined t (inr h) k = inr h

  run-IsSettled :
      (calls : List (Call pq)) (t : Transaction pq) → IsReady pq t → IsSettled pq (run pq calls t)
  unfolding run
  run-IsSettled [] t h = inl ((λ c. cc), h)
  run-IsSettled (call ∷ calls) t h =
      goes_on calls (step pq t call).0 (step pq t call).1 (step-IsSettled call t h)
        (run-IsSettled calls (step pq t call).1)

  made-IsReady :
      (r : Outcome Exception (Unit {0})) (s : S pq)
      → Sound pq (r, s)
      → (r ≡ returns tt) ⊎ (s.shared.transaction_active ≡ false)
      → IsReady pq (made pq (r, s)).1
  made-IsReady (returns a) s h k = inl (record { session = s; broken = false }, refl, h.1, refl)
  made-IsReady (throws e) s h (inl k) = cc
  made-IsReady (throws e) s h (inr k) = inr (refl, (s.shared, refl, k))
  made-IsReady sleeps s h (inl k) = cc
  made-IsReady sleeps s h (inr k) = inr (refl, (s.shared, refl, k))
  made-IsReady undefined s h k = absurd (h.0 refl)

  made_open-IsReady :
      (r : Outcome Exception (Unit {0})) (shared : ConnectionState Config Conn)
      → shared.transaction_active ≡ false
      → IsReady pq (made_open pq r shared).1
  made_open-IsReady (returns a) shared idle =
      made-IsReady (begin_on_connection pq shared).0 (begin_on_connection pq shared).1
        (construct-Sound pq shared idle) (construct-outcome pq shared idle)
  made_open-IsReady (throws e) shared idle = inr (refl, (shared, refl, idle))
  made_open-IsReady sleeps shared idle = inr (refl, (shared, refl, idle))
  made_open-IsReady undefined shared idle = inr (refl, (shared, refl, idle))

  made-ne-undefined :
      (r : Outcome Exception (Unit {0})) (s : S pq) → r ≢ undefined → (made pq (r, s)).0 ≢ undefined
  made-ne-undefined (returns a) s h = λ c. cc
  made-ne-undefined (throws e) s h = λ c. cc
  made-ne-undefined sleeps s h = λ c. cc
  made-ne-undefined undefined s h = h

  made_open-ne-undefined :
      (r : Outcome Exception (Unit {0})) (shared : ConnectionState Config Conn)
      → shared.transaction_active ≡ false
      → r ≢ undefined
      → (made_open pq r shared).0 ≢ undefined
  made_open-ne-undefined (returns a) shared idle h =
      made-ne-undefined (begin_on_connection pq shared).0 (begin_on_connection pq shared).1
        (construct-Sound pq shared idle).0
  made_open-ne-undefined (throws e) shared idle h = λ c. cc
  made_open-ne-undefined sleeps shared idle h = λ c. cc
  made_open-ne-undefined undefined shared idle h = h

  construct-ne-undefined :
      (shared : ConnectionState Config Conn)
      → shared.transaction_active ≡ false
      → (construct pq shared).0 ≢ undefined
  unfolding construct
  construct-ne-undefined shared idle =
      made_open-ne-undefined (ensure_open pq (some shared)) shared idle
        (ensure_open-ne-undefined pq (some shared))

  -- A transaction on a connection of the pool with no transaction on it, whatever libpqxx answers:
  -- over its constructor, any calls and its destructor, either nothing is undefined, and the pool
  -- gets the connection back exactly once and with no transaction on it; or the calls end with the
  -- connection closed under the live work of the transaction, and the destructor is undefined.
  pub construct-run-destroy :
      (shared : ConnectionState Config Conn) (calls : List (Call pq))
      → shared.transaction_active ≡ false
      → let (r, t) = run pq calls (construct pq shared).1 in
        let (d, end) = destroy pq t in
        (((construct pq shared).0 ≢ undefined)
          × (r ≢ undefined)
          × (d ≡ returns tt)
          × IsReturned pq end)
        ⊎ (IsLost pq t × (d ≡ undefined))
  unfolding construct
  construct-run-destroy shared calls idle =
      let ready = made_open-IsReady (ensure_open pq (some shared)) shared idle in
      let t = (run pq calls (construct pq shared).1).1 in
      elim (run-IsSettled calls (construct pq shared).1 ready) [
        | inl (defined, held) ↦
            let (d, back) = destroy-held pq t held in
            inl (construct-ne-undefined shared idle, defined, d, back)
        | inr lost ↦ inr (lost, destroy-lost pq t lost)
      ]
