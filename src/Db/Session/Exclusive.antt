-- ===== src/Db/Session/Exclusive.antt =====
-- One transaction at a time on a connection: db/core/ConnectionTransaction.cpp.
use rtl.Base.{◌≡◌, true, some, arith, Option-cases, returns, throws, inl, inr}
use rtl.Db.Errors.{logic_error}
use rtl.Db.Pqxx.{Pqxx}
use rtl.Db.Session.{S, begin, ensure_active, finish, construct, move_construct}

module _ (pq : Pqxx) where
  open pq use {Config, Conn}

  -- While a transaction is active on an open connection, another one cannot be begun on it: the
  -- constructor throws and leaves the connection as it was, so that the first goes on.
  pub construct_twice :
      (s : S pq) (c : Conn)
      → s.shared.transaction_active ≡ true
      → s.shared.connection ≡ some c
      → pq.is_open c ≡ true
      → ((construct pq s.shared).0
          ≡ throws (logic_error "Connection already has an active transaction"))
        × ((construct pq s.shared).1.shared ≡ s.shared)
  unfolding construct begin
  construct_twice s c busy e fit = rw e (ground arith)

  -- A transaction that was moved from is inert: its destructor neither frees the connection nor
  -- ends the work that the new handle goes on with.
  pub finish-moved :
      (s : S pq)
      → let (fresh, old) = move_construct pq s.txn in
        (finish pq (record { shared = s.shared; txn = old })
          ≡ (returns tt, record { shared = s.shared; txn = old }))
        × (fresh ≡ s.txn)
  unfolding finish move_construct
  finish-moved s = elim (Option-cases s.shared.connection) [
    | inl e ↦ ground arith
    | inr (c, e) ↦ ground arith
  ]

  pub active_passes :
      (s : S pq)
      → s.txn.state ≡ true
      → s.txn.active ≡ true
      → s.txn.impl ≡ true
      → ensure_active pq s ≡ (returns tt, s)
  unfolding ensure_active
  active_passes s a b c = ground arith
