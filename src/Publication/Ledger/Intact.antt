-- ===== src/Publication/Ledger/Intact.antt =====
-- The parts of a passed `_integrity`, and an event appended to an intact chain.
use ro_repo.Base.{
  ℕ, ◌+◌, ◌≡◌, refl, true, false, Option, none, some, List, [], ◌∷◌, ◌++◌, ok, arith, inl, inr,
  Result-cases, length, is_empty, ◌∙◌,
}
use ro_repo.Base.Text.{Text, text_eq_iff, text_eq_refl}
use ro_repo.Base.Dict.{In}
use ro_repo.Publication.Records.{Row, Db, Checkpoint, option_text_eq_iff}
use ro_repo.Publication.Ledger.{
  Audit, IsSound, digest_of, row_is_bad, check_rows, has_checkpoint, violates, last_state, newest,
  integrity, last_row, next_event, append_event,
}
use ro_repo.Publication.Ledger.Chain.{
  parent_after, checkpoint_of, check_rows-append, last_row-chain, last_row-some,
  check_rows_checkpoint,
}

module _ (a : Audit) where
  -- The parts of a passed `integrity`.
  pub record Intact (db : Db) (checkpoint : Option Checkpoint) (r : Checkpoint) : Type 0 where
    pub seen : List Checkpoint
    pub first : Row
    pub others : List Row
    pub rows : db.events ≡ first ∷ others
    pub chain : check_rows a 1 none db.events [] ≡ ok seen
    pub state : last_state a db.events [] ≡ digest_of a db
    pub honoured : violates a checkpoint seen ≡ false
    pub tip : newest a seen ≡ ok r

  intact_rows :
      (rows : List Row) → is_empty rows ≡ false → (x : Row) × ((xs : List Row) × (rows ≡ x ∷ xs))
  intact_rows [] h = ground arith
  intact_rows (x ∷ xs) h = (x, (xs, refl))

  pub integrity-Intact :
      (db : Db) (c : Option Checkpoint) (r : Checkpoint) → integrity a db c ≡ ok r → Intact db c r
  unfolding integrity
  integrity-Intact db c r h = elim (Result-cases (check_rows a 1 none db.events [])) [
    | inl (e, u) ↦ ground arith
    | inr (seen, u) ↦
        let (x, t) = intact_rows db.events (ground arith) in
        record {
          seen = seen;
          first = x;
          others = t.0;
          rows = t.1;
          chain = u;
          state = ground (arith, text_eq_iff (last_state a db.events []) (digest_of a db));
          honoured = ground arith;
          tip = ground arith;
        }
  ]

  pub Intact-integrity :
      (db : Db) (c : Option Checkpoint) (r : Checkpoint) → Intact db c r → integrity a db c ≡ ok r
  unfolding integrity
  Intact-integrity db c r i =
      ground (arith, i.rows, i.chain, i.state, i.honoured, i.tip, text_eq_refl (digest_of a db))

  last_state-append :
      (rows : List Row) (row : Row) (s : Text)
      → last_state a (rows ++ row ∷ []) s ≡ row.event.state_sha256
  last_state-append [] row s = refl
  last_state-append (x ∷ rows) row s = last_state-append rows row x.event.state_sha256

  unfoldable pub new_row : Text → Option Text → ℕ → Db → Row
  new_row operation attempt at db =
      let event = next_event a operation attempt at db in
      record { seq = event.seq; event = event; signature = a.sign event }

  unfoldable pub audited_of : Text → Option Text → ℕ → Db → Db
  audited_of operation attempt at db = record db {
    events = db.events ++ new_row operation attempt at db ∷ [];
  }

  pub append_event-eq :
      (s : IsSound a) (operation : Text) (attempt : Option Text) (at : ℕ) (db : Db)
      → append_event a operation attempt at db
        ≡ ok (checkpoint_of a (new_row operation attempt at db), audited_of operation attempt at db)
  unfolding append_event new_row audited_of
  append_event-eq s operation attempt at db = rw (s.signs (next_event a operation attempt at db))

  new_row_is_good :
      (operation : Text) (attempt : Option Text) (at : ℕ) (db : Db) (l : Row)
      → last_row a db.events ≡ some l
      → l.seq + 1 ≡ 1 + length db.events
      → parent_after a none db.events ≡ some (a.event_digest l.event)
      → row_is_bad a
          (1 + length db.events)
          (parent_after a none db.events)
          (new_row operation attempt at db)
        ≡ false
  unfolding row_is_bad new_row next_event
  new_row_is_good operation attempt at db l found seq parent = ground (
    arith,
    found,
    seq,
    parent,
    option_text_eq_iff (next_event a operation attempt at db).parent_sha256
        (parent_after a none db.events),
    text_eq_refl a.audit_key_sha256,
  )

  -- An event that is appended to a chain that verifies is its new tip.
  pub append_event-Intact :
      (s : IsSound a) (operation : Text) (attempt : Option Text) (at : ℕ) (db : Db)
      (seen : List Checkpoint) (x : Row) (xs : List Row)
      → db.events ≡ x ∷ xs
      → check_rows a 1 none db.events [] ≡ ok seen
      → Intact
          (audited_of operation attempt at db)
          none
          (checkpoint_of a (new_row operation attempt at db))
  unfolding audited_of
  append_event-Intact s operation attempt at db seen x xs rows chain =
      let (l, el) = last_row-some a x xs in
      let found : last_row a db.events ≡ some l = rw rows el in
      let t = last_row-chain a 1 none db.events [] seen l chain found in
      let row = new_row operation attempt at db in
      record {
        seen = checkpoint_of a row ∷ seen;
        first = x;
        others = xs ++ row ∷ [];
        rows = rw rows refl;
        chain =
            check_rows-append a 1 none db.events [] seen row (1 + length db.events) refl chain
              (new_row_is_good operation attempt at db l found t.0 t.1)
              (unfold new_row in s.signs (next_event a operation attempt at db));
        state = last_state-append db.events row [] ∙ (unfold new_row next_event digest_of in refl);
        honoured = refl;
        tip = refl;
      }

  pub Intact-weaken :
      (db : Db) (c : Option Checkpoint) (r : Checkpoint) → Intact db c r → Intact db none r
  Intact-weaken db c r i = record {
    seen = i.seen;
    first = i.first;
    others = i.others;
    rows = i.rows;
    chain = i.chain;
    state = i.state;
    honoured = refl;
    tip = i.tip;
  }

  -- If the integrity check with a checkpoint passes then an event of the audit has the sequence
  -- number and the digest of that checkpoint.
  pub integrity_checkpoint :
      (db : Db) (c r : Checkpoint)
      → integrity a db (some c) ≡ ok r
      → (row : Row) × In row db.events × (row.seq ≡ c.seq) × (a.event_digest row.event ≡ c.sha256)
  integrity_checkpoint db c r h =
      let i = integrity-Intact db (some c) r h in
      let held : has_checkpoint a c i.seen ≡ true = ground (arith, i.honoured) in
      elim (check_rows_checkpoint a c 1 none db.events [] i.seen i.chain held) [
        | inl t ↦ t
        | inr e ↦ ground arith
      ]
