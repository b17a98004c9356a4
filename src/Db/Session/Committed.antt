-- ===== src/Db/Session/Committed.antt =====
-- A statement of db/core/Connection.cpp that returns rows has been committed.
use mathlib.Core.Path.{fst_path}
use rtl.Base.{
  sym, ◌∙◌, ap, subst, some-inj, returns-inj, >>=-returns, ◌≡◌, refl, true, String, Option, none,
  some, arith, Outcome, returns, throws, sleeps, undefined, M, pure, ◌>>◌, after-returns,
}
use rtl.Db.Errors.{Exception}
use rtl.Db.Pqxx.{Pqxx, Reply, got, failed}
use rtl.Db.Session.{
  ConnectionState, S, from_reply, null_transaction, begin_on, begin, construct, on_conn, on_work,
  ensure_active, finish, commit, exec as tx_exec,
}
use rtl.Db.Session.Connection.{
  Connection, ensure_open, destroyed, scoped, in_transaction_on, opened, in_transaction, committed,
  exec,
}

module _ (pq : Pqxx) where
  open pq use {Config, Conn, Rows, Param}

  from_reply-returns : {A : Type 0} (r : Reply A) {a : A} → from_reply r ≡ returns a → r ≡ got a
  from_reply-returns (got b) h = ground arith
  from_reply-returns (failed ex) h = cc

  -- A call on the `pqxx::work` that returns was answered by an open connection.
  on_conn-returns :
      {A : Type 0} (f : Conn → Reply A × Conn) (s : S pq) (held : Option Conn) {a : A}
      → (on_conn pq f s held).0 ≡ returns a
      → (c : Conn) × (held ≡ some c)
        × ((f c).0 ≡ got a)
        × ((on_conn pq f s held).1.shared.connection ≡ some (f c).1)
  on_conn-returns f s none h = cc
  on_conn-returns f s (some c) h = (c, refl, from_reply-returns (f c).0 h, refl)

  ensure_active-same : (s : S pq) → (ensure_active pq s).1 ≡ s
  unfolding ensure_active
  ensure_active-same s = ground arith

  -- A guarded call that returns is the call itself.
  guarded-eq :
      {A : Type 0} (m : M Exception (S pq) A) (s : S pq) {a : A}
      → ((ensure_active pq >> m) s).0 ≡ returns a
      → (ensure_active pq >> m) s ≡ m s
  guarded-eq m s h =
      let (_, e, _) = after-returns (λ _. m) (ensure_active pq s).0 (ensure_active pq s).1 h in
      >>=-returns (ensure_active pq) (λ _. m) s (λ i. (e i, ensure_active-same s i))

  -- A statement that returned, and a commit that returned after it: what libpqxx answered.
  abbrev pub Committed : String → Conn → Rows → Type 0
  Committed sql c rows = let (r, c') = pq.exec sql c in (r ≡ got rows) × ((pq.commit c').0 ≡ got tt)

  commit-returns :
      (s : S pq) (c : Conn)
      → s.shared.connection ≡ some c
      → (commit pq s).0 ≡ returns tt
      → (pq.commit c).0 ≡ got tt
  unfolding commit
  commit-returns s c held h =
      let at_commit = fst_path (guarded-eq (on_work pq pq.commit >> finish pq) s h) in
      let (_, done, _) =
        after-returns (λ _. finish pq) (on_work pq pq.commit s).0 _ (sym at_commit ∙ h) in
      let (d, same, answer, _) = on_conn-returns pq.commit s s.shared.connection done in
      subst (λ x. (pq.commit x).0 ≡ got tt) (some-inj (sym same ∙ held)) answer

  committed-returns :
      (sql : String) (s : S pq) (rows : Rows)
      → (committed pq (tx_exec pq sql) s).0 ≡ returns rows
      → (c : Conn) × (s.shared.connection ≡ some c) × Committed sql c rows
  unfolding tx_exec
  committed-returns sql s rows h =
      let (first, e, rest) =
        after-returns (λ result. commit pq >> pure result) (tx_exec pq sql s).0 (tx_exec pq sql s).1
          h in
      let same = guarded-eq (on_work pq (pq.exec sql)) s e in
      let (c, held, answer, now) =
        on_conn-returns (pq.exec sql) s s.shared.connection (sym (fst_path same) ∙ e) in
      let (_, at_commit, last) =
        after-returns (λ _. pure first) (commit pq (tx_exec pq sql s).1).0
          (commit pq (tx_exec pq sql s).1).1 rest in
      (
        c,
        held,
        (
          answer ∙ ap got (returns-inj last),
          commit-returns (tx_exec pq sql s).1 (pq.exec sql c).1
              (ap (λ p. p.1.shared.connection) same ∙ now) at_commit,
        ),
      )

  destroyed-returns :
      {A : Type 0} (r : Outcome Exception A) (d : Outcome Exception (Unit {0})) {a : A}
      → destroyed pq r d ≡ returns a
      → r ≡ returns a
  destroyed-returns r (returns b) h = h
  destroyed-returns r (throws e) h = h
  destroyed-returns r sleeps h = h
  destroyed-returns r undefined h = cc

  begun-returns :
      {A : Type 0} (body : M Exception (S pq) A) (r : Outcome Exception (Unit {0})) (s : S pq)
      {a : A}
      → (in_transaction_on pq body (r, s)).0 ≡ returns a
      → (r ≡ returns tt) × ((body s).0 ≡ returns a)
  unfolding scoped
  begun-returns body (returns tt) s h = (refl, destroyed-returns (body s).0 _ h)
  begun-returns body (throws e) s h = cc
  begun-returns body sleeps s h = cc
  begun-returns body undefined s h = cc

  opened-returns :
      {A : Type 0} (f : ConnectionState Config Conn → Outcome Exception A × Connection pq)
      (r : Outcome Exception (Unit {0})) (shared : ConnectionState Config Conn) {a : A}
      → (opened pq f r (some shared)).0 ≡ returns a
      → (f shared).0 ≡ returns a
  opened-returns f (returns x) shared h = h
  opened-returns f (throws e) shared h = cc
  opened-returns f sleeps shared h = cc
  opened-returns f undefined shared h = cc

  -- What a transaction that was begun works on.
  begin_on-returns :
      (s : S pq) (held : Option Conn)
      → (begin_on pq s held).0 ≡ returns tt
      → (c : Conn) × (held ≡ some c)
        × ((pq.begin_work c).0 ≡ got tt)
        × ((begin_on pq s held).1.shared.connection ≡ some (pq.begin_work c).1)
  begin_on-returns s none h = cc
  begin_on-returns s (some c) h = (c, refl, ground arith, ground arith)

  -- Where `exec` returns rows, the connection was there; libpqxx began a transaction on it,
  -- answered the statement with these rows, and then confirmed the commit.
  pub exec-Committed :
      (sql : String) (shared : ConnectionState Config Conn) (rows : Rows)
      → (exec pq sql (some shared)).0 ≡ returns rows
      → (c : Conn) × (shared.connection ≡ some c)
        × ((pq.begin_work c).0 ≡ got tt)
        × Committed sql (pq.begin_work c).1 rows
  unfolding exec in_transaction construct begin
  exec-Committed sql shared rows h =
      let fresh : S pq = record {
        shared = shared;
        txn = record null_transaction { state = true };
      } in
      let run =
        opened-returns
          (λ st. in_transaction_on pq (committed pq (tx_exec pq sql)) (construct pq st))
          (ensure_open pq (some shared)) shared h in
      let (begun, answered) =
        begun-returns (committed pq (tx_exec pq sql)) (begin pq fresh).0 (begin pq fresh).1 run in
      let (c, held, work, now) = begin_on-returns fresh shared.connection begun in
      let (d, is_d, done) = committed-returns sql (begin pq fresh).1 rows answered in
      (c, held, work, subst (λ x. Committed sql x rows) (some-inj (sym is_d ∙ now)) done)
