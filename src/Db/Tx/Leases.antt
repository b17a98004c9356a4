-- ===== src/Db/Tx/Leases.antt =====
-- What becomes of the connection that a transaction of db/tx/Transaction.cpp holds.
use rtl.Base.{
  ◌≡◌, ◌≢◌, refl, ◌∙◌, ◌⊎◌, inl, inr, Bool, true, false, [], ◌∷◌, none, some, arith, Option-cases,
  Bool-cases, Outcome, returns, throws, sleeps, undefined, implied,
}
use rtl.Db.Errors.{Exception}
use rtl.Db.Pqxx.{Pqxx}
use rtl.Db.Session.{ConnectionState, S, finish}
use rtl.Db.Session.Consistent.{IsConsistent, finish-Sound}
use rtl.Db.Session.Autocommit.{finish-idle}
use rtl.Db.Tx.{handle_lost, is_connection_error, Impl, Transaction, mark_broken, release}
use rtl.Db.Tx.Settles.{Settles}

module _ (pq : Pqxx) where
  open pq use {Config, Conn, Rows, Param}

  pub finish-returns : (s : S pq) → IsConsistent s → (finish pq s).0 ≡ returns tt
  unfolding finish
  finish-returns s h = elim (Option-cases s.shared.connection) [
    | inl none_held ↦ ground arith
    | inr (c, held) ↦ ground arith
  ]

  -- The transaction holds its connection, and nothing was given back.
  abbrev pub IsHeld : Transaction pq → Type 0
  IsHeld t = (i : Impl pq) × (t.impl ≡ some i) × IsConsistent i.session × (t.returned ≡ [])

  -- The transaction is over, and its connection is given back, once, with no transaction on it.
  abbrev pub IsReturned : Transaction pq → Type 0
  IsReturned t =
      (t.impl ≡ none)
      × ((c : ConnectionState Config Conn) × (t.returned ≡ c ∷ []) × (c.transaction_active ≡ false))

  -- The connection was closed under the live `pqxx::work` of the transaction.
  abbrev pub IsLost : Transaction pq → Type 0
  IsLost t =
      (i : Impl pq) × (t.impl ≡ some i)
      × (i.session.shared.connection ≡ none)
      × (i.session.txn.active ≡ true)
      × (i.session.txn.impl ≡ true)
      × (i.session.txn.state ≡ true)

  abbrev pub IsSettled : {A : Type 0} → Outcome Exception A × Transaction pq → Type 0
  IsSettled (r, t) = ((r ≢ undefined) × (IsHeld t ⊎ IsReturned t)) ⊎ IsLost t

  -- The handler of `ConnectionError` settles what a call on the session left.
  pub handled :
      {A : Type 0} (r : Outcome Exception A) (s : S pq) (broken : Bool) (t : Transaction pq)
      → Settles pq (r, s)
      → t.returned ≡ []
      → IsSettled
          (r, record t { impl = some (handle_lost pq r (record { session = s; broken = broken })) })
  handled (returns a) s broken t h none_back =
      inl ((λ c. cc), inl (record { session = s; broken = broken }, refl, h.sound.1, none_back))
  handled sleeps s broken t h none_back =
      inl ((λ c. cc), inl (record { session = s; broken = broken }, refl, h.sound.1, none_back))
  handled undefined s broken t h none_back = absurd (h.sound.0 refl)
  handled (throws e) s broken t h none_back = elim (Bool-cases (is_connection_error e)) [
    | inl lost ↦
        let on = h.alive e refl lost in
        let k = h.sound.1 in
        inr (
          rw lost (
            mark_broken pq (record { session = s; broken = broken }),
            refl,
            refl,
            on,
            k.same ∙ on,
            implied k.stated on,
          ))
    | inr other ↦ inl (
      (λ c. cc),
      inl (rw other (record { session = s; broken = broken }, refl, h.sound.1, none_back)),
    )
  ]

  pub released :
      (i : Impl pq) (t : Transaction pq)
      → t.impl ≡ some i
      → IsConsistent i.session
      → t.returned ≡ []
      → ((release pq t).0 ≡ returns tt) × IsReturned (release pq t).1
  unfolding release
  released i t e h none_back =
      let over = finish-returns i.session h in
      let ended = finish-Sound pq i.session h in
      rw (e, none_back)
        (
          over,
          (
            refl,
            ((finish pq i.session).1.shared, refl, ended.1.busy ∙ finish-idle pq i.session ended.0),
          ),
        )
