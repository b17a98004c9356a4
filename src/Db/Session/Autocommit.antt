-- ===== src/Db/Session/Autocommit.antt =====
-- The calls of db/core/Connection.cpp that open and commit a transaction of their own.
use rtl.Base.{
  ◌≡◌, ◌≢◌, refl, ◌∙◌, true, false, String, Option, none, some, arith, Bool-cases, Outcome, returns,
  throws, sleeps, undefined, M, pure, ◌>>◌, ◌⊎◌, inl, inr,
}
use rtl.Db.Errors.{Exception}
use rtl.Db.Pqxx.{Pqxx}
use rtl.Db.Session.{
  ConnectionState, S, finish, finish_on, begin_on, null_transaction, begin, construct, commit,
  exec as tx_exec, exec_params as tx_exec_params, exec_prepared as tx_exec_prepared,
}
use rtl.Db.Session.Consistent.{
  IsConsistent, Sound, bind-Sound, commit-Sound, finish-Sound, construct-Sound, exec-Sound,
  exec_params-Sound, exec_prepared-Sound,
}
use rtl.Db.Session.Connection.{
  Connection, ensure_open, destroyed, scoped, in_transaction_on, opened, in_transaction, committed,
  exec, exec_params, exec_prepared,
}

module _ (pq : Pqxx) where
  open pq use {Config, Conn, Rows, Param}

  -- No transaction is left open on a connection.
  abbrev pub IsIdle : Connection pq → Type 0
  IsIdle none = Unit
  IsIdle (some shared) = shared.transaction_active ≡ false

  -- A call that is defined and leaves no transaction open.
  abbrev pub Clean : {A : Type 0} → Outcome Exception A × Connection pq → Type 0
  Clean (r, conn) = (r ≢ undefined) × IsIdle conn

  finish_on-idle :
      (s : S pq) (held : Option Conn)
      → (finish_on pq s held).0 ≢ undefined
      → (finish_on pq s held).1.txn.active ≡ false
  finish_on-idle s none h = ground arith
  finish_on-idle s (some c) h = ground arith

  pub finish-idle : (s : S pq) → (finish pq s).0 ≢ undefined → (finish pq s).1.txn.active ≡ false
  unfolding finish
  finish-idle s h = finish_on-idle s s.shared.connection h

  destroyed-ne-undefined :
      {A : Type 0} (r : Outcome Exception A) (d : Outcome Exception (Unit {0}))
      → r ≢ undefined
      → d ≢ undefined
      → destroyed pq r d ≢ undefined
  destroyed-ne-undefined r (returns a) h k = h
  destroyed-ne-undefined r (throws e) h k = h
  destroyed-ne-undefined r sleeps h k = h
  destroyed-ne-undefined r undefined h k = absurd (k refl)

  -- A statement that is sound in every state that is.
  abbrev IsSafe : {A : Type 0} → M Exception (S pq) A → Type 0
  IsSafe body = (s : S pq) → IsConsistent s → Sound pq (body s)

  committed-IsSafe :
      {A : Type 0} (statement : M Exception (S pq) A)
      → IsSafe statement
      → IsSafe (committed pq statement)
  committed-IsSafe statement safe s h =
      bind-Sound pq statement (λ result. commit pq >> pure result) s (safe s h)
        λ result e.
          let after = commit-Sound pq _ (safe s h).1 in
          bind-Sound pq (commit pq) (λ _. pure result) _ after λ _ _. ((λ c. cc), after.1)

  scoped-Clean :
      {A : Type 0} (body : M Exception (S pq) A) (s : S pq)
      → IsSafe body
      → IsConsistent s
      → ((scoped pq body s).0 ≢ undefined)
        × ((scoped pq body s).1.shared.transaction_active ≡ false)
  unfolding scoped
  scoped-Clean body s safe h =
      let at_end = safe s h in
      let ended = finish-Sound pq (body s).1 at_end.1 in
      (
        destroyed-ne-undefined (body s).0 _ at_end.0 ended.0,
        ended.1.busy ∙ finish-idle (body s).1 ended.0,
      )

  begun-Clean :
      {A : Type 0} (body : M Exception (S pq) A) (r : Outcome Exception (Unit {0})) (s : S pq)
      → IsSafe body
      → Sound pq (r, s)
      → (r ≡ returns tt) ⊎ (s.shared.transaction_active ≡ false)
      → Clean (in_transaction_on pq body (r, s))
  begun-Clean body (returns _) s safe h k = scoped-Clean body s safe h.1
  begun-Clean body (throws e) s safe h (inl k) = cc
  begun-Clean body (throws e) s safe h (inr k) = ((λ c. cc), k)
  begun-Clean body sleeps s safe h (inl k) = cc
  begun-Clean body sleeps s safe h (inr k) = ((λ c. cc), k)
  begun-Clean body undefined s safe h k = absurd (h.0 refl)

  construct_on-outcome :
      (shared : ConnectionState Config Conn) (held : Option Conn)
      → shared.transaction_active ≡ false
      → let p =
          begin_on pq
            (record { shared = shared; txn = record null_transaction { state = true } })
            held in
        (p.0 ≡ returns tt) ⊎ (p.1.shared.transaction_active ≡ false)
  construct_on-outcome shared none f = inr f
  construct_on-outcome shared (some c) f = ground arith

  pub construct-outcome :
      (shared : ConnectionState Config Conn)
      → shared.transaction_active ≡ false
      → ((construct pq shared).0 ≡ returns tt)
        ⊎ ((construct pq shared).1.shared.transaction_active ≡ false)
  unfolding construct begin
  construct-outcome shared f = construct_on-outcome shared shared.connection f

  opened-Clean :
      {A : Type 0} (f : ConnectionState Config Conn → Outcome Exception A × Connection pq)
      (r : Outcome Exception (Unit {0})) (conn : Connection pq)
      → IsIdle conn
      → r ≢ undefined
      → ((shared : ConnectionState Config Conn)
          → shared.transaction_active ≡ false
          → Clean (f shared))
      → ((r ≡ returns tt) → conn ≢ none)
      → Clean (opened pq f r conn)
  opened-Clean f (returns tt) (some shared) h d k n = k shared h
  opened-Clean f (returns tt) none h d k n = absurd (n refl refl)
  opened-Clean f (throws e) conn h d k n = ((λ c. cc), h)
  opened-Clean f sleeps conn h d k n = ((λ c. cc), h)
  opened-Clean f undefined conn h d k n = absurd (d refl)

  pub ensure_open-ne-undefined : (conn : Connection pq) → ensure_open pq conn ≢ undefined
  unfolding ensure_open
  ensure_open-ne-undefined none = λ c. cc
  ensure_open-ne-undefined (some shared) = ground arith

  ensure_open-held : (conn : Connection pq) → ensure_open pq conn ≡ returns tt → conn ≢ none
  unfolding ensure_open
  ensure_open-held none h = cc
  ensure_open-held (some shared) h = λ c. cc

  in_transaction-Clean :
      {A : Type 0} (body : M Exception (S pq) A) (conn : Connection pq)
      → IsSafe body
      → IsIdle conn
      → Clean (in_transaction pq body conn)
  unfolding in_transaction
  in_transaction-Clean body conn safe h =
      opened-Clean (λ shared. in_transaction_on pq body (construct pq shared)) (ensure_open pq conn)
        conn h (ensure_open-ne-undefined conn)
        (λ shared f.
          begun-Clean body (construct pq shared).0 (construct pq shared).1 safe
            (construct-Sound pq shared f) (construct-outcome shared f))
        (ensure_open-held conn)

  exec-Clean : (sql : String) (conn : Connection pq) → IsIdle conn → Clean (exec pq sql conn)
  unfolding exec
  exec-Clean sql conn h =
      in_transaction-Clean _ conn (committed-IsSafe (tx_exec pq sql) (exec-Sound pq sql)) h

  params-Clean :
      (sql : String) (params : Param) (conn : Connection pq)
      → IsIdle conn
      → Clean (exec_params pq sql params conn)
  unfolding exec_params
  params-Clean sql params conn h =
      opened-Clean _ (ensure_open pq conn) conn h (ensure_open-ne-undefined conn)
        (λ shared f. elim (Bool-cases (pq.no_params params)) [
          | inl e ↦ rw e (exec-Clean sql (some shared) f)
          | inr e ↦ rw e (
              in_transaction-Clean (committed pq (tx_exec_params pq sql params)) (some shared)
                (committed-IsSafe (tx_exec_params pq sql params) (exec_params-Sound pq sql params))
                f)
        ])
        (ensure_open-held conn)

  -- On a connection with no open transaction, valid or moved from, open or not, and whatever
  -- libpqxx answers at each step: `exec`, `exec_params` and `exec_prepared` are defined, and leave
  -- no transaction open, also when they throw.
  pub autocommit-Clean :
      (text : String) (params : Param) (conn : Connection pq)
      → IsIdle conn
      → Clean (exec pq text conn)
        × Clean (exec_params pq text params conn)
        × Clean (exec_prepared pq text params conn)
  unfolding exec_prepared
  autocommit-Clean text params conn h = (
    exec-Clean text conn h,
    params-Clean text params conn h,
    in_transaction-Clean _ conn
        (committed-IsSafe (tx_exec_prepared pq text params) (exec_prepared-Sound pq text params)) h,
  )
