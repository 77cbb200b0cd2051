-- ===== src/Publication/Ledger/Transaction.antt =====
-- What a transaction of the ledger leaves behind.
use ro_repo.Base.{
  ℕ, ◌≡◌, refl, ap, Option, none, List, [], ◌∷◌, ◌++◌, Result, ok, arith, ◌⊎◌, inl, inr, Bool-cases,
  Result-cases,
}
use ro_repo.Base.Text.{Text, text_eq, text_eq_refl}
use ro_repo.Publication.Records.{Tables, Row, Db, Checkpoint}
use ro_repo.Publication.Ledger.{Audit, IsSound, Clock, digest_of, integrity, next_event, execute}
use ro_repo.Publication.Ledger.Chain.{checkpoint_of}
use ro_repo.Publication.Ledger.Intact.{
  Intact, integrity-Intact, Intact-integrity, Intact-weaken, append_event-eq, append_event-Intact,
  new_row, audited_of,
}

module _ (a : Audit) where
  -- How a transaction ended: the digest of the state was the same and nothing was written to the
  -- audit, or the guard passed three times and one event was added.
  data Ended {A : Type 0} (operation : Text) (attempt : Option Text)
      (checkpoint : Option Checkpoint) (guard : A → ℕ → Result (Unit {0})) (clock : Clock) (v : A)
      (receipt : Checkpoint) (changed db' : Db) : Type 0 where
    quiet :
        db' ≡ changed
        → integrity a changed checkpoint ≡ ok receipt
        → Ended operation attempt checkpoint guard clock v receipt changed db'
    audited :
        guard v clock.before_audit ≡ ok tt
        → guard v clock.after_audit ≡ ok tt
        → guard v clock.at_commit ≡ ok tt
        → db' ≡ audited_of a operation attempt clock.audit changed
        → receipt ≡ checkpoint_of a (new_row a operation attempt clock.audit changed)
        → Ended operation attempt checkpoint guard clock v receipt changed db'

  record Ran {A : Type 0} (operation : Text) (attempt : Option Text)
      (change : List Row → Tables → Result (A × Tables)) (checkpoint : Option Checkpoint)
      (guard : A → ℕ → Result (Unit {0})) (clock : Clock) (db db' : Db) (v : A)
      (receipt : Checkpoint) : Type 0 where
    before : Checkpoint
    checked : integrity a db checkpoint ≡ ok before
    tables : Tables
    changes : change db.events db.tables ≡ ok (v, tables)
    ended :
        Ended operation attempt checkpoint guard clock v receipt
          (record { tables = tables; events = db.events })
          db'

  module _ {A : Type 0} (s : IsSound a) (operation : Text) (attempt : Option Text)
      (change : List Row → Tables → Result (A × Tables)) (checkpoint : Option Checkpoint)
      (guard : A → ℕ → Result (Unit {0})) (clock : Clock) (db db' : Db) (v : A)
      (receipt : Checkpoint)
      (h : execute a operation attempt change checkpoint guard clock db
        ≡ ok ((v, receipt), db')) where
    execute-Ran : Ran operation attempt change checkpoint guard clock db db' v receipt
    unfolding execute
    execute-Ran = elim (Result-cases (integrity a db checkpoint)) [
      | inl (e, u) ↦ ground arith
      | inr (r, u) ↦ elim (Result-cases (change db.events db.tables)) [
        | inl (e, u') ↦ ground arith
        | inr ((w, t), u') ↦
            let changed : Db = record { tables = t; events = db.events } in
            let same : w ≡ v =
              ground (arith, append_event-eq a s operation attempt clock.audit changed) in
            record {
              before = r;
              checked = u;
              tables = t;
              changes = rw (← same) u';
              ended = elim (Bool-cases (text_eq (digest_of a changed) (digest_of a db))) [
                | inl b ↦ quiet (ground arith) (ground arith)
                | inr b ↦
                    audited
                      (ground (arith, append_event-eq a s operation attempt clock.audit changed))
                      (ground (arith, append_event-eq a s operation attempt clock.audit changed))
                      (ground (arith, append_event-eq a s operation attempt clock.audit changed))
                      (ground (arith, append_event-eq a s operation attempt clock.audit changed))
                      (ground (arith, append_event-eq a s operation attempt clock.audit changed))
              ];
            }
      ]
    ]

    -- If the signer's signatures verify then the audit after a committed transaction verifies, and
    -- its tip is the receipt.
    pub execute-integrity : integrity a db' none ≡ ok receipt
    execute-integrity =
        let r = execute-Ran in
        let i = integrity-Intact a db checkpoint r.before r.checked in by_end r i r.ended
      where
        by_end :
            (r : Ran operation attempt change checkpoint guard clock db db' v receipt)
            → Intact a db checkpoint r.before
            → Ended operation attempt checkpoint guard clock v receipt
                (record { tables = r.tables; events = db.events })
                db'
            → integrity a db' none ≡ ok receipt
        by_end r i (quiet e same) =
            let changed : Db = record { tables = r.tables; events = db.events } in
            rw e (
              Intact-integrity a changed none receipt (
                Intact-weaken a changed checkpoint receipt
                  (integrity-Intact a changed checkpoint receipt same)))
        by_end r i (audited g₁ g₂ g₃ e tip) =
            let changed : Db = record { tables = r.tables; events = db.events } in
            rw (e, tip)
              (Intact-integrity a (audited_of a operation attempt clock.audit changed) none
                (checkpoint_of a (new_row a operation attempt clock.audit changed))
                (append_event-Intact a s operation attempt clock.audit changed i.seen i.first
                  i.others i.rows i.chain))

    -- The tables after it are those of the change.
    pub execute_change : change db.events db.tables ≡ ok (v, db'.tables)
    execute_change = let r = execute-Ran in by_end r r.ended
      where
        by_end :
            (r : Ran operation attempt change checkpoint guard clock db db' v receipt)
            → Ended operation attempt checkpoint guard clock v receipt
                (record { tables = r.tables; events = db.events })
                db'
            → change db.events db.tables ≡ ok (v, db'.tables)
        by_end r (quiet e same) = rw e r.changes
        by_end r (audited g₁ g₂ g₃ e tip) = rw e (unfold audited_of in r.changes)

    -- If the signer's signatures verify then a committed transaction leaves the events as they were,
    -- or adds one at the end, with the digest of the new state, its operation and its attempt.
    pub execute-events :
        (db'.events ≡ db.events)
        ⊎ ((row : Row) × (db'.events ≡ db.events ++ row ∷ [])
            × (row.event.state_sha256 ≡ digest_of a db')
            × (row.event.operation ≡ operation)
            × (row.event.attempt_id ≡ attempt))
    execute-events = let r = execute-Ran in by_end r r.ended
      where
        by_end :
            (r : Ran operation attempt change checkpoint guard clock db db' v receipt)
            → Ended operation attempt checkpoint guard clock v receipt
                (record { tables = r.tables; events = db.events })
                db'
            → (db'.events ≡ db.events)
              ⊎ ((row : Row) × (db'.events ≡ db.events ++ row ∷ [])
                  × (row.event.state_sha256 ≡ digest_of a db')
                  × (row.event.operation ≡ operation)
                  × (row.event.attempt_id ≡ attempt))
        by_end r (quiet e same) = inl (ap (λ (d : Db). d.events) e)
        by_end r (audited g₁ g₂ g₃ e tip) =
            let changed : Db = record { tables = r.tables; events = db.events } in
            inr (
              new_row a operation attempt clock.audit changed,
              rw e (unfold audited_of in refl),
              rw e (unfold audited_of new_row next_event digest_of in refl),
              unfold new_row next_event in refl,
              unfold new_row next_event in refl,
            )

    -- If the signer's signatures verify then a committed transaction leaves the events as they were,
    -- or its guard passed on its value at the time of the commit.
    pub execute-guard : (db'.events ≡ db.events) ⊎ (guard v clock.at_commit ≡ ok tt)
    execute-guard = let r = execute-Ran in by_end r r.ended
      where
        by_end :
            (r : Ran operation attempt change checkpoint guard clock db db' v receipt)
            → Ended operation attempt checkpoint guard clock v receipt
                (record { tables = r.tables; events = db.events })
                db'
            → (db'.events ≡ db.events) ⊎ (guard v clock.at_commit ≡ ok tt)
        by_end r (quiet e same) = inl (ap (λ (d : Db). d.events) e)
        by_end r (audited g₁ g₂ g₃ e tip) = inr g₃

    -- A change that leaves the tables as they were leaves the database as it was.
    pub execute-unchanged : db'.tables ≡ db.tables → db' ≡ db
    unfolding execute
    execute-unchanged e =
        let c : change db.events db.tables ≡ ok (v, db.tables) = rw e at execute_change in
        let same = text_eq_refl (digest_of a db) in
        elim (Result-cases (integrity a db checkpoint)) [
          | inl (x, u) ↦ ground arith
          | inr (r, u) ↦ ground arith
        ]
