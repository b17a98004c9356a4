-- ===== src/Db/Tx/Endings.antt =====
-- The destructor of db/tx/Transaction.cpp, and the calls after a lost connection.
use rtl.Base.{
  subst, if◌then◌else◌, implied, ◌≡◌, refl, sym, ap, ◌∙◌, ◌⊎◌, inl, inr, true, false, none, some,
  arith, Bool-cases, Outcome, returns, undefined, M, after, >>=-returns, ◌>>◌,
}
use rtl.Db.Errors.{Exception}
use rtl.Db.Pqxx.{Pqxx}
use rtl.Db.Session.{S, ensure_active, finish, rollback as session_rollback}
use rtl.Db.Session.Exclusive.{active_passes}
use rtl.Db.Tx.{Impl, Transaction, on_impl, release, destroy, caught, rolled_back, handle_lost}
use rtl.Db.Tx.Leases.{finish-returns, IsHeld, IsReturned, IsLost, released}
use rtl.Db.Tx.Settles.{rollback-Settles}

module _ (pq : Pqxx) where
  open pq use {Config, Conn, Rows, Param}

  abbrev pub IsReady : Transaction pq → Type 0
  IsReady t = IsHeld pq t ⊎ IsReturned pq t

  -- A rollback of an active transaction is the end of its work.
  rollback-active :
      (s : S pq)
      → s.txn.state ≡ true
      → s.txn.active ≡ true
      → s.txn.impl ≡ true
      → (session_rollback pq s).0 ≡ (finish pq s).0
  unfolding session_rollback
  rollback-active s state on impl =
      ap (λ q. q.0)
        (>>=-returns (ensure_active pq) (λ _. finish pq) s (active_passes pq s state on impl))

  -- The transaction after the rollback of its destructor.
  abbrev rolled : Transaction pq → Impl pq → Transaction pq
  rolled t i = record t {
    impl = some (record { session = (session_rollback pq i.session).1; broken = i.broken });
  }

  destroy-active :
      (t : Transaction pq) (i : Impl pq) (r : Outcome Exception (Unit {0}))
      → t.impl ≡ some i
      → i.session.txn.active ≡ true
      → (session_rollback pq i.session).0 ≡ r
      → destroy pq t ≡ after (λ _. release pq) (caught pq (r, rolled t i))
  unfolding destroy
  destroy-active t i r held on e =
      ap (λ o. after (λ _. release pq) (caught pq (rolled_back pq t o))) held
      ∙ ap
          (λ b.
            after (λ _. release pq)
              (caught pq
                (if b then ((session_rollback pq i.session).0, rolled t i) else (returns tt, t))))
          on
      ∙ ap (λ x. after (λ _. release pq) (caught pq (x, rolled t i))) e

  destroy-inactive :
      (t : Transaction pq) (i : Impl pq)
      → t.impl ≡ some i
      → i.session.txn.active ≡ false
      → destroy pq t ≡ release pq t
  unfolding destroy
  destroy-inactive t i held off =
      ap (λ o. after (λ _. release pq) (caught pq (rolled_back pq t o))) held
      ∙ ap
          (λ b.
            after (λ _. release pq)
              (caught pq
                (if b then ((session_rollback pq i.session).0, rolled t i) else (returns tt, t))))
          off

  pub destroy-held :
      (t : Transaction pq)
      → IsReady t
      → ((destroy pq t).0 ≡ returns tt) × IsReturned pq (destroy pq t).1
  unfolding destroy
  destroy-held t (inr over) = rw (over.0) (refl, (refl, over.1))
  destroy-held t (inl (i, held, h, none_back)) = elim (Bool-cases i.session.txn.active) [
    | inr off ↦
        subst (λ p. (p.0 ≡ returns tt) × IsReturned pq p.1) (sym (destroy-inactive t i held off))
          (released pq i t held h none_back)
    | inl on ↦
        let over =
          rollback-active i.session (implied h.stated on) on (h.same ∙ on)
          ∙ finish-returns pq i.session h in
        let left : Impl pq = record {
          session = (session_rollback pq i.session).1;
          broken = i.broken;
        } in
        subst (λ p. (p.0 ≡ returns tt) × IsReturned pq p.1)
          (sym (destroy-active t i (returns tt) held on over))
          (released pq left (rolled t i) refl (rollback-Settles pq i.session h).sound.1 none_back)
  ]

  pub finish-dead :
      (s : S pq) → s.shared.connection ≡ none → s.txn.impl ≡ true → finish pq s ≡ (undefined, s)
  unfolding finish
  finish-dead s closed impl = ground arith

  pub destroy-lost : (t : Transaction pq) → IsLost pq t → (destroy pq t).0 ≡ undefined
  destroy-lost t (i, held, closed, on, impl, state) =
      ap (λ q. q.0)
        (destroy-active t i undefined held on (
          rollback-active i.session state on impl
          ∙ ap (λ q. q.0) (finish-dead i.session closed impl)))

  -- Once the connection is lost, every call is undefined, and the transaction stays as it is.
  pub dead :
      {A : Type 0} (m : M Exception (S pq) A) (t : Transaction pq)
      → IsLost pq t
      → ((s : S pq) → s.shared.connection ≡ none → s.txn.impl ≡ true → m s ≡ (undefined, s))
      → on_impl pq (ensure_active pq >> m) t t.impl ≡ (undefined, t)
  dead m t (i, held, closed, on, impl, state) k =
      let stopped =
        >>=-returns (ensure_active pq) (λ _. m) i.session (active_passes pq i.session state on impl)
        ∙ k i.session closed impl in
      ap (λ o. on_impl pq (ensure_active pq >> m) t o) held
      ∙ ap
          (λ q. (
            q.0,
            record t {
              impl = some (handle_lost pq q.0 (record { session = q.1; broken = i.broken }));
            },
          ))
          stopped
      ∙ ap (λ o. (undefined, record t { impl = o })) (sym held)
