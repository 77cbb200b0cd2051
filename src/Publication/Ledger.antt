-- ===== src/Publication/Ledger.antt =====
-- `Ledger` of tools/v3_backend_ledger.py: a signed, hash-chained audit over the tables.
-- A transaction returns the new database; where it raises there is none, and the rows stay as they
-- were. The hooks `inject` and `before_commit` are absent: the publication code passes none.
mod Chain
pub mod Intact
pub mod Transaction
use ro_repo.Base.{
  ℕ, suc, ◌+◌, ◌≡◌, ◌||◌, ◌&&◌, not, Bool, true, false, Option, none, some, List, [], ◌∷◌, ◌++◌,
  Result, ok, err, ◌>>=◌, ◌>>◌, raise_if, or_raise, ◌==◌, if◌then◌else◌, is_empty,
}
use ro_repo.Base.Text.{Text, text_eq}
use ro_repo.Base.Dict.{text_key, pair_key, lookup, insert, contains}
use ro_repo.Publication.Records.{Head, Attempt, Tables, Event, Row, Db, Checkpoint, option_text_eq}

-- What the ledger is built with: SHA-256 of canonical JSON, and the audit key.
pub record Audit : Type 0 where
  pub state_digest : Tables → Text
  pub event_digest : Event → Text
  pub sign : Event → Text
  pub verifies : Event → Text → Bool
  pub audit_key_sha256 : Text
  pub audit_key_identity : Text

-- The signer's own signatures verify.
pub record IsSound (a : Audit) : Type 0 where
  pub signs : (e : Event) → a.verifies e (a.sign e) ≡ true

-- The clock where a transaction reads it: before it begins, in the change, at the three guards,
-- and for the audit event.
pub record Clock : Type 0 where
  pub entry : ℕ
  pub inside : ℕ
  pub before_audit : ℕ
  pub audit : ℕ
  pub after_audit : ℕ
  pub at_commit : ℕ

module _ (a : Audit) where
  -- `state_digest`
  unfoldable pub digest_of : Db → Text
  digest_of db = a.state_digest db.tables

  unfoldable pub row_is_bad : ℕ → Option Text → Row → Bool
  row_is_bad index previous row =
      not (row.seq == index)
      || not (row.event.seq == row.seq)
      || not (option_text_eq row.event.parent_sha256 previous)
      || not (text_eq row.event.audit_key_sha256 a.audit_key_sha256)

  -- The loop of `_integrity`: it returns the digests by sequence number, latest first.
  unfoldable pub check_rows :
      ℕ → Option Text → List Row → List Checkpoint → Result (List Checkpoint)
  check_rows index previous [] seen = ok seen
  check_rows index previous (row ∷ rows) seen =
      let digest = a.event_digest row.event in
      let rest =
        check_rows (suc index) (some digest) rows
          (record { seq = row.seq; sha256 = digest } ∷ seen) in
      if row_is_bad index previous row
      then err "audit sequence/domain/identity corruption"
      else if not (a.verifies row.event row.signature)
      then err "invalid asymmetric signature"
      else rest

  -- `checkpoints.get(checkpoint["seq"]) == checkpoint["sha256"]`
  abbrev pub has_checkpoint : Checkpoint → List Checkpoint → Bool
  has_checkpoint c [] = false
  has_checkpoint c (d ∷ ds) =
      if d.seq == c.seq then text_eq d.sha256 c.sha256 else has_checkpoint c ds

  abbrev pub violates : Option Checkpoint → List Checkpoint → Bool
  violates none seen = false
  violates (some c) seen = not (has_checkpoint c seen)

  abbrev pub last_state : List Row → Text → Text
  last_state [] s = s
  last_state (row ∷ rows) s = last_state rows row.event.state_sha256

  -- The newest checkpoint is the result.
  abbrev pub newest : List Checkpoint → Result Checkpoint
  newest [] = err "missing independently signed audit history"
  newest (c ∷ cs) = ok c

  -- `_integrity`
  unfoldable pub integrity : Db → Option Checkpoint → Result Checkpoint
  integrity db checkpoint = do
    raise_if (is_empty db.events) "missing independently signed audit history"
    seen ← check_rows 1 none db.events []
    raise_if (not (text_eq (last_state db.events []) (digest_of db)))
        "state differs from authenticated audit"
    raise_if (violates checkpoint seen) "ledger rollback violates independent checkpoint"
    newest seen

  -- The last row, as `ORDER BY seq DESC LIMIT 1` finds it in a database of good integrity.
  unfoldable pub last_row : List Row → Option Row
  last_row [] = none
  last_row (row ∷ []) = some row
  last_row (row ∷ next ∷ rows) = last_row (next ∷ rows)

  unfoldable pub next_event : Text → Option Text → ℕ → Db → Event
  next_event operation attempt at db = record {
    seq = elim (last_row db.events) [ none ↦ 1 | some row ↦ row.seq + 1 ];
    parent_sha256 = elim (last_row db.events) [
      | none ↦ none
      | some row ↦ some (a.event_digest row.event)
    ];
    operation = operation;
    attempt_id = attempt;
    at = at;
    state_sha256 = digest_of db;
    audit_key_sha256 = a.audit_key_sha256;
  }

  -- `_append`
  unfoldable pub append_event : Text → Option Text → ℕ → Db → Result (Checkpoint × Db)
  append_event operation attempt at db =
      let event = next_event operation attempt at db in
      let row : Row = record { seq = event.seq; event = event; signature = a.sign event } in
      if a.verifies event (a.sign event)
      then ok (
          (
            record { seq = event.seq; sha256 = a.event_digest event },
            record db { events = db.events ++ row ∷ [] },
          ))
      else err "invalid asymmetric signature"

  -- `execute`; the change reads the events and rewrites the tables.
  unfoldable pub execute :
      {A : Type 0}
      → Text
      → Option Text
      → (List Row → Tables → Result (A × Tables))
      → Option Checkpoint
      → (A → ℕ → Result (Unit {0}))
      → Clock
      → Db
      → Result ((A × Checkpoint) × Db)
  execute operation attempt change checkpoint guard clock db = do
    before ← integrity db checkpoint
    (value, tables) ← change db.events db.tables
    let changed : Db = record { tables = tables; events = db.events }
    if text_eq (digest_of changed) (digest_of db)
        then (do receipt ← integrity changed checkpoint; ok ((value, receipt), changed))
        else do
          guard value clock.before_audit
          (receipt, audited) ← append_event operation attempt clock.audit changed
          guard value clock.after_audit
          guard value clock.at_commit
          ok ((value, receipt), audited)

-- `Ledger.attempt`
unfoldable pub attempt_of : Tables → Text → Result Attempt
attempt_of tables attempt = or_raise (lookup attempt tables.attempts) "unknown immutable attempt"

-- `UPDATE attempts SET body=? WHERE id=?`: a row that is not there is not made.
unfoldable pub put_attempt : Tables → Attempt → Tables
put_attempt tables value =
    if contains value.attempt_id tables.attempts
    then record tables { attempts = insert value.attempt_id value tables.attempts }
    else tables

-- `consume`
unfoldable pub consume : Tables → Text → Text → Text → Result Tables
consume tables kind identity attempt =
    if contains (kind, identity) tables.consumed
    then err "consumed authorization/workload replay"
    else ok (record tables { consumed = insert (kind, identity) attempt tables.consumed })

-- `inspect`
pub record Inspection : Type 0 where
  pub checkpoint : Checkpoint
  pub head : Head
  pub attempt : Option Attempt

abbrev pub attempt_if : Tables → Option Text → Result (Option Attempt)
attempt_if tables none = ok none
attempt_if tables (some id) = do value ← attempt_of tables id; ok (some value)

unfoldable pub inspect : Audit → Option Text → Option Checkpoint → Db → Result Inspection
inspect a attempt checkpoint db = do
  c ← integrity a db checkpoint
  value ← attempt_if db.tables attempt
  ok (record { checkpoint = c; head = db.tables.head; attempt = value })
