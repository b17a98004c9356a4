-- ===== src/Db/Session/Consistent.antt =====
-- What db/core/ConnectionTransaction.cpp keeps true of a transaction and its connection.
use rtl.Base.{
  implies, implied, implies-true, ◌≡◌, ◌≢◌, refl, true, false, List, [], ◌∷◌, String, Option, none,
  some, arith, Bool-cases, has_value, Outcome, returns, throws, sleeps, undefined, inl, inr, M,
  ◌>>=◌, ◌>>◌, if◌then◌else◌,
}
use rtl.Db.Errors.{Exception}
use rtl.Db.Pqxx.{Pqxx, Reply, got, failed}
use rtl.Db.Session.{
  from_reply, on_conn, on_work, begin_on, finish_on, ConnectionState, Session, null_transaction, S,
  begin, ensure_active, finish, exec, exec_params, exec_prepared, commit, rollback, construct, Call,
  execs, execs_params, execs_prepared, commits, rollbacks, finishes, forget, or_stop, step, run,
}

-- A transaction that is active has a state, a live `pqxx::work` and a connection, and its connection
-- is marked as busy; one that is not has no `pqxx::work`.
pub record IsConsistent {Config Conn : Type 0} (s : Session Config Conn) : Type 0 where
  pub same : s.txn.impl ≡ s.txn.active
  pub stated : implies s.txn.active s.txn.state ≡ true
  pub busy : s.shared.transaction_active ≡ s.txn.active
  pub owned : implies s.txn.active (has_value s.shared.connection) ≡ true

module _ (pq : Pqxx) where
  open pq use {Config, Conn, Rows, Param}

  -- The state after a call, and that the call is defined.
  abbrev pub Sound : {A : Type 0} → Outcome Exception A × S pq → Type 0
  Sound (r, s) = (r ≢ undefined) × IsConsistent s

  pub after_bind :
      {A B : Type 0} (f : A → M Exception (S pq) B) (r : Outcome Exception A) (s : S pq)
      → Sound (r, s)
      → ((a : A) → r ≡ returns a → Sound (f a s))
      → Sound (((λ _. (r, s)) >>= f) s)
  after_bind f (returns a) s h k = k a refl
  after_bind f (throws e) s h k = ((λ c. cc), h.1)
  after_bind f sleeps s h k = ((λ c. cc), h.1)
  after_bind f undefined s h k = absurd (h.0 refl)

  -- A step in front of others: the others are sound from where it returns to.
  pub bind-Sound :
      {A B : Type 0} (m : M Exception (S pq) A) (f : A → M Exception (S pq) B) (s : S pq)
      → Sound (m s)
      → ((a : A) → (m s).0 ≡ returns a → Sound (f a (m s).1))
      → Sound ((m >>= f) s)
  bind-Sound m f s h k = after_bind f (m s).0 (m s).1 h k

  ensure_active-Sound : (s : S pq) → IsConsistent s → Sound (ensure_active pq s)
  unfolding ensure_active
  ensure_active-Sound s h = ground arith

  ensure_active_returns :
      (s : S pq) (a : Unit {0})
      → (ensure_active pq s).0 ≡ returns a
      → (s.txn.active ≡ true) × ((ensure_active pq s).1 ≡ s)
  unfolding ensure_active
  ensure_active_returns s a e = ground arith

  from_reply-ne-undefined : {A : Type 0} (r : Reply A) → from_reply r ≢ undefined
  from_reply-ne-undefined (got a) = λ c. cc
  from_reply-ne-undefined (failed ex) = λ c. cc

  on_conn-Sound :
      {A : Type 0} (f : Conn → Reply A × Conn) (s : S pq) (held : Option Conn)
      → IsConsistent s
      → has_value held ≡ true
      → Sound (on_conn pq f s held)
  on_conn-Sound f s none h k = cc
  on_conn-Sound f s (some c) h k = (
    from_reply-ne-undefined (f c).0,
    record { same = h.same; stated = h.stated; busy = h.busy; owned = implies-true s.txn.active },
  )

  -- A call on the `pqxx::work`, once the transaction is known to be active.
  guarded :
      {A : Type 0} (m : M Exception (S pq) A) (s : S pq)
      → IsConsistent s
      → ((s' : S pq) → IsConsistent s' → s'.txn.active ≡ true → Sound (m s'))
      → Sound ((ensure_active pq >> m) s)
  guarded m s h k =
      bind-Sound (ensure_active pq) (λ _. m) s (ensure_active-Sound s h)
        λ a e. let (on, same) = ensure_active_returns s a e in rw same (k s h on)

  pub exec-Sound : (sql : String) (s : S pq) → IsConsistent s → Sound (exec pq sql s)
  unfolding exec
  exec-Sound sql s h =
      guarded _ s h λ s' h' on. on_conn-Sound (pq.exec sql) s' _ h' (implied h'.owned on)

  pub exec_prepared-Sound :
      (name : String) (params : Param) (s : S pq)
      → IsConsistent s
      → Sound (exec_prepared pq name params s)
  unfolding exec_prepared
  exec_prepared-Sound name params s h =
      guarded _ s h
        λ s' h' on. on_conn-Sound (pq.exec_prepped name params) s' _ h' (implied h'.owned on)

  pub exec_params-Sound :
      (sql : String) (params : Param) (s : S pq)
      → IsConsistent s
      → Sound (exec_params pq sql params s)
  unfolding exec_params
  exec_params-Sound sql params s h =
      guarded
        (if pq.no_params params
          then on_work pq (pq.exec sql)
          else on_work pq (pq.exec_with sql params))
        s h
        λ s' h' on. elim (Bool-cases (pq.no_params params)) [
          | inl e ↦ rw e (on_conn-Sound (pq.exec sql) s' _ h' (implied h'.owned on))
          | inr e ↦ rw e (on_conn-Sound (pq.exec_with sql params) s' _ h' (implied h'.owned on))
        ]

  finish_on-Sound :
      (s : S pq) (held : Option Conn)
      → IsConsistent s
      → s.shared.connection ≡ held
      → Sound (finish_on pq s held)
  finish_on-Sound s none h e = ground arith
  finish_on-Sound s (some c) h e = ground arith

  pub finish-Sound : (s : S pq) → IsConsistent s → Sound (finish pq s)
  unfolding finish
  finish-Sound s h = finish_on-Sound s s.shared.connection h refl

  pub commit-Sound : (s : S pq) → IsConsistent s → Sound (commit pq s)
  unfolding commit
  commit-Sound s h = guarded (on_work pq pq.commit >> finish pq) s h λ s' h' on.
      let at_commit = on_conn-Sound pq.commit s' _ h' (implied h'.owned on) in
      bind-Sound (on_work pq pq.commit) (λ _. finish pq) s' at_commit
        λ a e. finish-Sound _ at_commit.1

  pub rollback-Sound : (s : S pq) → IsConsistent s → Sound (rollback pq s)
  unfolding rollback
  rollback-Sound s h = guarded (finish pq) s h λ s' h' on. finish-Sound s' h'

  construct_on-Sound :
      (shared : ConnectionState Config Conn) (held : Option Conn)
      → shared.connection ≡ held
      → shared.transaction_active ≡ false
      → Sound (
          begin_on pq
            (record { shared = shared; txn = record null_transaction { state = true } })
            held)
  construct_on-Sound shared none e f = ground arith
  construct_on-Sound shared (some c) e f = ground arith

  pub construct-Sound :
      (shared : ConnectionState Config Conn)
      → shared.transaction_active ≡ false
      → Sound (construct pq shared)
  unfolding construct begin
  construct-Sound shared f = construct_on-Sound shared shared.connection refl f

  forget-Sound :
      {A : Type 0} (r : Outcome Exception A) (s : S pq) → Sound (r, s) → Sound (forget pq (r, s))
  forget-Sound (returns a) s h = ((λ c. cc), h.1)
  forget-Sound (throws e) s h = ((λ c. cc), h.1)
  forget-Sound sleeps s h = ((λ c. cc), h.1)
  forget-Sound undefined s h = absurd (h.0 refl)

  step-Sound : (s : S pq) (call : Call pq) → IsConsistent s → Sound (step pq s call)
  unfolding step
  step-Sound s (execs sql) h = forget-Sound _ _ (exec-Sound sql s h)
  step-Sound s (execs_params sql params) h = forget-Sound _ _ (exec_params-Sound sql params s h)
  step-Sound s (execs_prepared name params) h =
      forget-Sound _ _ (exec_prepared-Sound name params s h)
  step-Sound s commits h = commit-Sound s h
  step-Sound s rollbacks h = rollback-Sound s h
  step-Sound s finishes h = finish-Sound s h

  or_stop-Sound :
      (rest : S pq → Outcome Exception (Unit {0}) × S pq) (r : Outcome Exception (Unit {0}))
      (s : S pq)
      → Sound (r, s)
      → Sound (rest s)
      → Sound (or_stop pq rest (r, s))
  or_stop-Sound rest (returns a) s h k = k
  or_stop-Sound rest (throws e) s h k = k
  or_stop-Sound rest sleeps s h k = k
  or_stop-Sound rest undefined s h k = absurd (h.0 refl)

  run-Sound : (calls : List (Call pq)) (s : S pq) → IsConsistent s → Sound (run pq calls s)
  unfolding run
  run-Sound [] s h = ((λ c. cc), h)
  run-Sound (call ∷ calls) s h =
      let now = step-Sound s call h in
      or_stop-Sound (run pq calls) (step pq s call).0 (step pq s call).1 now
        (run-Sound calls (step pq s call).1 now.1)

  -- On a connection with no transaction, whatever libpqxx answers to each call: neither the
  -- constructor of a transaction nor any sequence of calls on it, failed ones, repeated ones and
  -- the destructor's `finish` included, is undefined behaviour, and after them the transaction has
  -- a `pqxx::work` exactly while it is active, and the connection is marked busy exactly then.
  pub construct-run-Sound :
      (shared : ConnectionState Config Conn) (calls : List (Call pq))
      → shared.transaction_active ≡ false
      → Sound (construct pq shared) × Sound (run pq calls (construct pq shared).1)
  construct-run-Sound shared calls f =
      let made = construct-Sound shared f in (made, run-Sound calls _ made.1)
