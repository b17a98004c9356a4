-- ===== src/Db/Tx/Savepoint/Settled.antt =====
-- How often a savepoint of db/tx/Savepoint.cpp is settled.
use rtl.Base.{
  subst, returns-inj, ◌≡◌, ◌≢◌, refl, sym, ap, ◌∙◌, ◌⊎◌, inl, inr, true, false, not, String, List,
  [], ◌∷◌, ◌++◌, none, some, if◌then◌else◌, Outcome, returns, throws, sleeps, undefined, arith,
  Bool-cases,
}
use rtl.Db.Errors.{Exception, logic_error}
use rtl.Db.Tx.Savepoint.{
  Statement, savepoint, rollback_to, release_savepoint, SavepointOps, Impl, Savepoint, made,
  construct, sent, send, caught, destroy, Call, rollbacks, releases, step, run, noted, recorded,
}

module _ {W : Type 0} (ops : SavepointOps W) (name : String) where
  -- The statements of a savepoint that was settled once.
  abbrev pub IsOnce : List Statement → Type 0
  IsOnce log =
      (log ≡ savepoint name ∷ rollback_to name ∷ [])
      ⊎ (log ≡ savepoint name ∷ release_savepoint name ∷ [])

  -- A savepoint is active exactly until it is settled.
  abbrev IsTracked : Savepoint → W × List Statement → Type 0
  IsTracked none x = ⊥
  IsTracked (some i) x =
      (i.savepoint_name ≡ name)
      × (((i.active ≡ true) × (x.1 ≡ savepoint name ∷ [])) ⊎ ((i.active ≡ false) × IsOnce x.1))

  made-IsTracked :
      (r : Outcome Exception (Unit {0})) (w : W) (sp : Savepoint)
      → (made (recorded ops) name (noted (savepoint name) [] (r, w))).0 ≡ returns sp
      → IsTracked sp (made (recorded ops) name (noted (savepoint name) [] (r, w))).1
  made-IsTracked (returns a) w sp h =
      subst (λ sp. IsTracked sp (w, savepoint name ∷ [])) (returns-inj h) (refl, inl (refl, refl))
  made-IsTracked (throws e) w sp h = cc
  made-IsTracked sleeps w sp h = cc
  made-IsTracked undefined w sp h = cc

  construct-IsTracked :
      (w : W) (sp : Savepoint)
      → (construct (recorded ops) name (w, [])).0 ≡ returns sp
      → IsTracked sp (construct (recorded ops) name (w, [])).1
  unfolding construct
  construct-IsTracked w sp h = elim (Bool-cases (ops.active w)) [
    | inr off ↦ absurd (ground arith)
    | inl on ↦
        subst (λ p. p.0 ≡ returns sp → IsTracked sp p.1)
          (sym (
            ap
              (λ b.
                if not b
                then (throws (logic_error "Transaction is inactive"), (w, []))
                else made (recorded ops) name
                    (noted (savepoint name) [] (ops.exec (savepoint name) w)))
              on))
          (made-IsTracked (ops.exec (savepoint name) w).0 (ops.exec (savepoint name) w).1 sp) h
  ]

  sent-IsTracked :
      (i : Impl) (st : Statement) (log : List Statement) (r : Outcome Exception (Unit {0})) (w : W)
      → i.savepoint_name ≡ name
      → i.active ≡ true
      → log ≡ savepoint name ∷ []
      → IsOnce (savepoint name ∷ st ∷ [])
      → let (_, sp, x) = sent (recorded ops) i (noted st log (r, w)) in IsTracked sp x
  sent-IsTracked i st log (returns a) w same on held once =
      (same, inr (refl, subst IsOnce (ap (λ l. l ++ st ∷ []) (sym held)) once))
  sent-IsTracked i st log (throws e) w same on held once = (same, inl (on, held))
  sent-IsTracked i st log sleeps w same on held once = (same, inl (on, held))
  sent-IsTracked i st log undefined w same on held once = (same, inl (on, held))

  send-IsTracked :
      (make : String → Statement) (sp : Savepoint) (x : W × List Statement)
      → IsOnce (savepoint name ∷ make name ∷ [])
      → IsTracked sp x
      → let (_, sp', x') = send (recorded ops) make sp x in IsTracked sp' x'
  send-IsTracked make none x once h = absurd h
  send-IsTracked make (some i) x once (same, inr (off, done)) = rw off (same, inr (refl, done))
  send-IsTracked make (some i) x once (same, inl (on, held)) =
      let st = make i.savepoint_name in
      subst (λ p. IsTracked p.1 p.2)
        (sym (
          ap
            (λ b.
              if not b
              then (throws (logic_error "Savepoint is not active"), some i, x)
              else sent (recorded ops) i (noted st x.1 (ops.exec st x.0)))
            on))
        (sent-IsTracked i st x.1 (ops.exec st x.0).0 (ops.exec st x.0).1 same on held
          (subst (λ n. IsOnce (savepoint name ∷ make n ∷ [])) (sym same) once))

  step-IsTracked :
      (call : Call (recorded ops)) (sp : Savepoint) (x : W × List Statement)
      → IsTracked sp x
      → let (r, sp', x') = step (recorded ops) call sp x in IsTracked sp' x'
  unfolding step
  step-IsTracked rollbacks sp x h = send-IsTracked rollback_to sp x (inl refl) h
  step-IsTracked releases sp x h = send-IsTracked release_savepoint sp x (inr refl) h

  run-IsTracked :
      (calls : List (Call (recorded ops))) (sp : Savepoint) (x : W × List Statement)
      → IsTracked sp x
      → let (sp', x') = run (recorded ops) calls sp x in IsTracked sp' x'
  unfolding run
  run-IsTracked [] sp x h = h
  run-IsTracked (call ∷ calls) sp x h =
      let (_, sp', x') = step (recorded ops) call sp x in
      run-IsTracked calls sp' x' (step-IsTracked call sp x h)

  -- What the destructor leaves: settled once, or refused by the server.
  abbrev pub IsOver : W → W × List Statement → Type 0
  IsOver w x =
      IsOnce x.1 ⊎ ((x.1 ≡ savepoint name ∷ []) × ((ops.exec (rollback_to name) w).0 ≢ returns tt))

  caught-IsOver :
      (i : Impl) (log : List Statement) (w : W) (r : Outcome Exception (Unit {0})) (w' : W)
      → i.savepoint_name ≡ name
      → log ≡ savepoint name ∷ []
      → (ops.exec (rollback_to name) w).0 ≡ r
      → IsOver w
          (caught
            (recorded ops)
            (sent (recorded ops) i (noted (rollback_to i.savepoint_name) log (r, w')))).1
  caught-IsOver i log w (returns a) w' same held e = inl (
      inl (
        ap (λ l. l ++ rollback_to i.savepoint_name ∷ []) held
        ∙ ap (λ n. savepoint name ∷ rollback_to n ∷ []) same))
  caught-IsOver i log w (throws x) w' same held e = inr (held, λ c. cc)
  caught-IsOver i log w sleeps w' same held e = inr (held, λ c. cc)
  caught-IsOver i log w undefined w' same held e = inr (held, λ c. cc)

  destroy-IsOver :
      (sp : Savepoint) (x : W × List Statement)
      → IsTracked sp x
      → IsOver x.0 (destroy (recorded ops) sp x).1
  unfolding destroy
  destroy-IsOver none x h = absurd h
  destroy-IsOver (some i) x (same, inr (off, done)) = rw off (inl done)
  destroy-IsOver (some i) x (same, inl (on, held)) =
      let st = rollback_to i.savepoint_name in
      let sending = sent (recorded ops) i (noted st x.1 (ops.exec st x.0)) in
      subst (λ p. IsOver x.0 p.1)
        (sym (
          ap
            (λ b.
              if b
              then caught (recorded ops) (
                  if not b
                  then (throws (logic_error "Savepoint is not active"), some i, x)
                  else sending)
              else (returns tt, x))
            on))
        (caught-IsOver i x.1 x.0 (ops.exec st x.0).0 (ops.exec st x.0).1 same held
          (ap (λ n. (ops.exec (rollback_to n) x.0).0) (sym same)))

  -- A savepoint whose constructor returned, over any calls of `rollback` and `release` and its
  -- destructor, and whatever the server answers: it is settled exactly once, by one rollback to it or
  -- one release of it; or, if it never was, the server refused the rollback of the destructor.
  pub construct-run-settled :
      (calls : List (Call (recorded ops))) (w : W) (sp : Savepoint)
      → (construct (recorded ops) name (w, [])).0 ≡ returns sp
      → let (sp', x) = run (recorded ops) calls sp (construct (recorded ops) name (w, [])).1 in
        IsOver x.0 (destroy (recorded ops) sp' x).1
  construct-run-settled calls w sp h =
      let start = (construct (recorded ops) name (w, [])).1 in
      let (sp', x) = run (recorded ops) calls sp start in
      destroy-IsOver sp' x (run-IsTracked calls sp start (construct-IsTracked w sp h))
