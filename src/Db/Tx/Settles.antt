-- ===== src/Db/Tx/Settles.antt =====
-- The calls of a connection's transaction, where they throw a `ConnectionError`: what
-- db/tx/Transaction.cpp handles.
use rtl.Base.{
  ◌≡◌, ◌≢◌, refl, sym, ap, ◌∙◌, ◌⊎◌, inl, inr, true, String, Option, none, some, arith,
  Option-cases, Bool-cases, Outcome, returns, throws, sleeps, undefined, M, after, >>=-returns,
  ◌>>◌,
}
use rtl.Db.Errors.{Exception, db_error, logic_error, runtime_error, out_of_range, foreign}
use rtl.Db.Pqxx.{Pqxx, Reply}
use rtl.Db.Session.{
  S, ensure_active, on_work, on_conn, finish, exec as session_exec,
  exec_params as session_exec_params, exec_prepared as session_exec_prepared,
  commit as session_commit, rollback as session_rollback,
}
use rtl.Db.Session.Consistent.{
  IsConsistent, Sound, exec-Sound, exec_params-Sound, exec_prepared-Sound, commit-Sound,
  rollback-Sound,
}
use rtl.Db.Tx.{is_connection_error}

module _ (pq : Pqxx) where
  open pq use {Config, Conn, Rows, Param}

  -- A call on a session that is defined, and throws a `ConnectionError` only while the work is alive.
  pub record Settles {A : Type 0} (p : Outcome Exception A × S pq) : Type 0 where
    pub sound : Sound pq p
    pub alive :
        (e : Exception) → p.0 ≡ throws e → is_connection_error e ≡ true → p.1.txn.active ≡ true

  pub ensure_active-cases :
      (s : S pq)
      → ((s.txn.active ≡ true) × (ensure_active pq s ≡ (returns tt, s)))
        ⊎ ((message : String) × (ensure_active pq s ≡ (throws (logic_error message), s)))
  unfolding ensure_active
  ensure_active-cases s = elim (Bool-cases s.txn.state) [
    | inr e ↦ inr ("Invalid transaction handle", ground arith)
    | inl e ↦ elim (Bool-cases s.txn.active) [
      | inr f ↦ inr ("Transaction is not active", ground arith)
      | inl f ↦ elim (Bool-cases s.txn.impl) [
        | inr g ↦ inr ("Transaction is not active", ground arith)
        | inl g ↦ inl (f, ground arith)
      ]
    ]
  ]

  on_conn-active :
      {A : Type 0} (f : Conn → Reply A × Conn) (s : S pq) (held : Option Conn)
      → (on_conn pq f s held).1.txn.active ≡ s.txn.active
  on_conn-active f s none = refl
  on_conn-active f s (some c) = refl

  logic-ne-lost :
      {A : Type 0} (message : String) (e : Exception)
      → ◌≡◌ {A = Outcome Exception A} (throws (logic_error message)) (throws e)
      → is_connection_error e ≡ true
      → ⊥
  logic-ne-lost message (logic_error m) same lost = cc
  logic-ne-lost message (db_error code m state) same lost = cc
  logic-ne-lost message (runtime_error m) same lost = cc
  logic-ne-lost message (out_of_range m) same lost = cc
  logic-ne-lost message (foreign m) same lost = cc

  -- A guarded call whose body keeps an active transaction active where it throws.
  guarded-alive :
      {A : Type 0} (m : M Exception (S pq) A) (s : S pq)
      → ((e : Exception) → (m s).0 ≡ throws e → (m s).1.txn.active ≡ s.txn.active)
      → (e : Exception) → ((ensure_active pq >> m) s).0 ≡ throws e
      → is_connection_error e ≡ true
      → ((ensure_active pq >> m) s).1.txn.active ≡ true
  guarded-alive m s k e thrown lost = elim (ensure_active-cases s) [
    | inl (on, same) ↦
        let p = >>=-returns (ensure_active pq) (λ _. m) s same in
        ap (λ q. q.1.txn.active) p ∙ k e (sym (ap (λ q. q.0) p) ∙ thrown) ∙ on
    | inr (message, refused) ↦
        let p = ap (after (λ _. m)) refused in
        absurd (logic-ne-lost message e (sym (ap (λ q. q.0) p) ∙ thrown) lost)
  ]

  pub exec-Settles : (sql : String) (s : S pq) → IsConsistent s → Settles (session_exec pq sql s)
  unfolding session_exec
  exec-Settles sql s h = record {
    sound = exec-Sound pq sql s h;
    alive =
        guarded-alive (on_work pq (pq.exec sql)) s
          (λ e _. on_conn-active (pq.exec sql) s s.shared.connection);
  }

  pub prepared-Settles :
      (name : String) (params : Param) (s : S pq)
      → IsConsistent s
      → Settles (session_exec_prepared pq name params s)
  unfolding session_exec_prepared
  prepared-Settles name params s h = record {
    sound = exec_prepared-Sound pq name params s h;
    alive =
        guarded-alive (on_work pq (pq.exec_prepped name params)) s
          (λ e _. on_conn-active (pq.exec_prepped name params) s s.shared.connection);
  }

  pub params-Settles :
      (sql : String) (params : Param) (s : S pq)
      → IsConsistent s
      → Settles (session_exec_params pq sql params s)
  unfolding session_exec_params
  params-Settles sql params s h = record {
    sound = exec_params-Sound pq sql params s h;
    alive = elim (Bool-cases (pq.no_params params)) [
      | inl e ↦ rw e (
          guarded-alive (on_work pq (pq.exec sql)) s
            (λ e _. on_conn-active (pq.exec sql) s s.shared.connection))
      | inr e ↦ rw e (
          guarded-alive (on_work pq (pq.exec_with sql params)) s
            (λ e _. on_conn-active (pq.exec_with sql params) s s.shared.connection))
    ];
  }

  finish-ne-throws : (s : S pq) (e : Exception) → (finish pq s).0 ≢ throws e
  unfolding finish
  finish-ne-throws s e = elim (Option-cases s.shared.connection) [
    | inl none_held ↦ ground arith
    | inr (c, held) ↦ ground arith
  ]

  finish_unless_thrown :
      (r : Outcome Exception (Unit {0})) (s : S pq) (e : Exception)
      → (after (λ _. finish pq) (r, s)).0 ≡ throws e
      → (after (λ _. finish pq) (r, s)).1 ≡ s
  finish_unless_thrown (returns a) s e h = absurd (finish-ne-throws s e h)
  finish_unless_thrown (throws x) s e h = refl
  finish_unless_thrown sleeps s e h = refl
  finish_unless_thrown undefined s e h = refl

  pub commit-Settles : (s : S pq) → IsConsistent s → Settles (session_commit pq s)
  unfolding session_commit
  commit-Settles s h = record {
    sound = commit-Sound pq s h;
    alive = guarded-alive (on_work pq pq.commit >> finish pq) s (λ e thrown.
        ap (λ q. q.txn.active)
          (finish_unless_thrown (on_work pq pq.commit s).0 (on_work pq pq.commit s).1 e thrown)
        ∙ on_conn-active pq.commit s s.shared.connection);
  }

  pub rollback-Settles : (s : S pq) → IsConsistent s → Settles (session_rollback pq s)
  unfolding session_rollback
  rollback-Settles s h = record {
    sound = rollback-Sound pq s h;
    alive = guarded-alive (finish pq) s (λ e thrown. absurd (finish-ne-throws s e thrown));
  }
