-- ===== src/Publication/Backend/Taken.antt =====
-- What a stage of an attempt leaves behind: it was taken before, or it is taken now.
use ro_repo.Base.{
  ℕ, ◌≡◌, none, some, List, Result, ok, arith, ◌⊎◌, inl, inr, Bool-cases, Option-cases,
  Result-cases,
}
use ro_repo.Base.Text.{Text}
use ro_repo.Base.Dict.{text_key, lookup}
use ro_repo.Publication.Records.{
  State, Proof, Attempt, Tables, Row, Db, Checkpoint, Proof-discrete, State-discrete, state_key,
  same_by, same_by_iff,
}
use ro_repo.Publication.Ledger.{Audit, IsSound, Clock, attempt_of, put_attempt}
use ro_repo.Publication.Ledger.Transaction.{execute_change, execute-unchanged}
use ro_repo.Publication.Backend.{before_state, Validate, reached, advance, change_to, transition}

-- A stage that is taken now: the attempt stood one place before it in `STATES`.
pub record Taken (expected target : State) (proof : Proof) (validate : Validate) (attempt : Text)
    (events : List Row) (t : Tables) (v : Attempt) (t' : Tables) : Type 0 where
  pub stored : Attempt
  pub found : lookup attempt t.attempts ≡ some stored
  pub absent : lookup target stored.proofs ≡ none
  pub stood : stored.state ≡ expected
  pub checked : Tables
  pub valid : validate events t stored ≡ ok checked
  pub value : v ≡ reached target proof stored
  pub after : t' ≡ put_attempt checked v

-- A stage that was taken before with the same proof: nothing changes, in no table and no event.
pub record Replayed (target : State) (proof : Proof) (attempt : Text) (db : Db) (v : Attempt)
    (db' : Db) : Type 0 where
  pub found : lookup attempt db.tables.attempts ≡ some v
  pub proved : lookup target v.proofs ≡ some proof
  pub unchanged : db' ≡ db

-- The same of the tables alone
pub record SameTables (target : State) (proof : Proof) (attempt : Text) (t : Tables) (v : Attempt)
    (t' : Tables) : Type 0 where
  pub found : lookup attempt t.attempts ≡ some v
  pub proved : lookup target v.proofs ≡ some proof
  pub unchanged : t' ≡ t

module _ (expected target : State) (proof : Proof) (validate : Validate) (attempt : Text)
    (events : List Row) (t : Tables) (v : Attempt) (t' : Tables) where
  advance-Taken :
      (stored : Attempt)
      → lookup attempt t.attempts ≡ some stored
      → lookup target stored.proofs ≡ none
      → advance expected target proof validate events t stored ≡ ok (v, t')
      → Taken expected target proof validate attempt events t v t'
  unfolding advance
  advance-Taken stored f n h = elim (Bool-cases (same_by State-discrete stored.state expected)) [
    | inr b ↦ ground arith
    | inl b ↦ elim (Result-cases (validate events t stored)) [
      | inl (e, u) ↦ ground arith
      | inr (checked, u) ↦ record {
        stored = stored;
        found = f;
        absent = n;
        stood = (same_by_iff State-discrete stored.state expected).0 b;
        checked = checked;
        valid = u;
        value = ground arith;
        after = ground arith;
      }
    ]
  ]

  pub change_to-Taken :
      change_to expected target proof validate attempt events t ≡ ok (v, t')
      → SameTables target proof attempt t v t'
        ⊎ Taken expected target proof validate attempt events t v t'
  unfolding change_to attempt_of
  change_to-Taken h = elim (Option-cases (lookup attempt t.attempts)) [
    | inl n ↦ ground arith
    | inr (stored, f) ↦ elim (Option-cases (lookup target stored.proofs)) [
      | inl n ↦ inr (advance-Taken stored f n (ground arith))
      | inr (old, p) ↦ elim (Bool-cases (same_by Proof-discrete old proof)) [
        | inr b ↦ ground arith
        | inl b ↦
            let same = (same_by_iff Proof-discrete old proof).0 b in
            let is : stored ≡ v = ground arith in
            inl (record {
              found = rw (← is) f;
              proved = rw (← is, ← same) p;
              unchanged = ground arith;
            })
      ]
    ]
  ]

module _ (a : Audit) (s : IsSound a) (attempt : Text) (target : State) (proof : Proof)
    (validate : Validate) (guard : Attempt → ℕ → Result (Unit {0})) (clock : Clock) (db db' : Db)
    (v : Attempt) (receipt : Checkpoint) where
  -- If the signer's signatures verify: a committed stage is one of STATES with a predecessor, and
  -- it was taken before with the same proof and the whole database stays as it is, or the attempt
  -- stood exactly one place before it in STATES, had no proof of it, and passed its checks.
  pub transition-Taken :
      transition a attempt target proof validate guard clock db ≡ ok ((v, receipt), db')
      → (expected : State) × (before_state target ≡ some expected)
        × (Replayed target proof attempt db v db'
            ⊎ Taken expected target proof validate attempt db.events db.tables v db'.tables)
  unfolding transition
  transition-Taken h = elim (Option-cases (before_state target)) [
    | inl n ↦ ground arith
    | inr (expected, e) ↦
        let run = rw e at h in
        let taken =
          change_to-Taken expected target proof validate attempt db.events db.tables v db'.tables
            (execute_change a s _ _ _ _ _ _ _ _ _ _ run) in
        elim taken [
          | inl same ↦ (
            expected,
            e,
            inl (record {
              found = same.found;
              proved = same.proved;
              unchanged = execute-unchanged a s _ _ _ _ _ _ _ _ _ _ run same.unchanged;
            }),
          )
          | inr t ↦ (expected, e, inr t)
        ]
  ]
