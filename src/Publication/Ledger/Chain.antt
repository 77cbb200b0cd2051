-- ===== src/Publication/Ledger/Chain.antt =====
-- A transaction leaves an audit chain that verifies, and only adds to it.
use ro_repo.Base.{
  ℕ, suc, ◌+◌, ◌≡◌, refl, true, false, Option, some, List, [], ◌∷◌, ◌++◌, ok, arith, ◌⊎◌, inl, inr,
  Bool-cases, ◌==◌, ==_iff, length,
}
use ro_repo.Base.Text.{Text, text_eq_iff}
use ro_repo.Base.Dict.{In}
use ro_repo.Publication.Records.{Row, Checkpoint}
use ro_repo.Publication.Ledger.{Audit, row_is_bad, check_rows, has_checkpoint, last_row}

module _ (a : Audit) where
  -- The digest that the row after `rows` must name as its parent.
  abbrev pub parent_after : Option Text → List Row → Option Text
  parent_after p [] = p
  parent_after p (row ∷ rows) = parent_after (some (a.event_digest row.event)) rows

  abbrev pub checkpoint_of : Row → Checkpoint
  checkpoint_of row = record { seq = row.seq; sha256 = a.event_digest row.event }

  good_row :
      (i : ℕ) (p : Option Text) (row : Row) (rows : List Row) (seen out : List Checkpoint)
      → check_rows a i p (row ∷ rows) seen ≡ ok out
      → (row_is_bad a i p row ≡ false)
        × (a.verifies row.event row.signature ≡ true)
        × (check_rows a (suc i) (some (a.event_digest row.event)) rows (checkpoint_of row ∷ seen)
            ≡ ok out)
  unfolding check_rows
  good_row i p row rows seen out h = ground arith

  check_rows_good :
      (i : ℕ) (p : Option Text) (row : Row) (rows : List Row) (seen : List Checkpoint)
      → row_is_bad a i p row ≡ false
      → a.verifies row.event row.signature ≡ true
      → check_rows a i p (row ∷ rows) seen
        ≡ check_rows a (suc i) (some (a.event_digest row.event)) rows (checkpoint_of row ∷ seen)
  unfolding check_rows
  check_rows_good i p row rows seen b v = ground arith

  pub check_rows-append :
      (i : ℕ) (p : Option Text) (rows : List Row) (seen out : List Checkpoint) (row : Row) (j : ℕ)
      → i + length rows ≡ j
      → check_rows a i p rows seen ≡ ok out
      → row_is_bad a j (parent_after p rows) row ≡ false
      → a.verifies row.event row.signature ≡ true
      → check_rows a i p (rows ++ row ∷ []) seen ≡ ok (checkpoint_of row ∷ out)
  check_rows-append i p [] seen out row j e h b v =
      let same : i ≡ j = omega arith in
      let done : seen ≡ out = unfold check_rows in ground arith in
      rw (check_rows_good i p row [] seen (rw same b) v, ← done) (unfold check_rows in refl)
  check_rows-append i p (x ∷ rows) seen out row j e h b v =
      let (bx, vx, hx) = good_row i p x rows seen out h in
      rw (check_rows_good i p x (rows ++ row ∷ []) seen bx vx) (
        check_rows-append (suc i) (some (a.event_digest x.event)) rows (checkpoint_of x ∷ seen) out
          row j (omega arith) hx b v)

  -- The last row of a chain that verifies has the last number, and is the parent of what comes next.
  pub last_row-chain :
      (i : ℕ) (p : Option Text) (rows : List Row) (seen out : List Checkpoint) (r : Row)
      → check_rows a i p rows seen ≡ ok out
      → last_row a rows ≡ some r
      → (r.seq + 1 ≡ i + length rows) × (parent_after p rows ≡ some (a.event_digest r.event))
  unfolding last_row
  last_row-chain i p [] seen out r h l = ground arith
  last_row-chain i p (x ∷ []) seen out r h l =
      let (bx, vx, hx) = good_row i p x [] seen out h in
      unfold row_is_bad in ground (arith, ==_iff x.seq i)
  last_row-chain i p (x ∷ y ∷ rows) seen out r h l =
      let (bx, vx, hx) = good_row i p x (y ∷ rows) seen out h in
      let t =
        last_row-chain (suc i) (some (a.event_digest x.event)) (y ∷ rows) (checkpoint_of x ∷ seen)
          out r hx l in
      (omega (arith, t.0), t.1)

  pub last_row-some : (x : Row) (rows : List Row) → (r : Row) × (last_row a (x ∷ rows) ≡ some r)
  unfolding last_row
  last_row-some x [] = (x, refl)
  last_row-some x (y ∷ rows) = last_row-some y rows

  -- What is found among the checkpoints of a chain comes from one of its rows.
  pub check_rows_checkpoint :
      (c : Checkpoint) (i : ℕ) (p : Option Text) (rows : List Row) (seen out : List Checkpoint)
      → check_rows a i p rows seen ≡ ok out
      → has_checkpoint a c out ≡ true
      → ((row : Row) × In row rows × (row.seq ≡ c.seq) × (a.event_digest row.event ≡ c.sha256))
        ⊎ (has_checkpoint a c seen ≡ true)
  check_rows_checkpoint c i p [] seen out h m = inr (unfold check_rows in ground arith)
  check_rows_checkpoint c i p (x ∷ rows) seen out h m =
      let (b, v, k) = good_row i p x rows seen out h in
      elim (check_rows_checkpoint c (suc i) (some (a.event_digest x.event)) rows
        (checkpoint_of x ∷ seen) out k m) [
          | inl (row, n, e, d) ↦ inl (row, inr n, e, d)
          | inr n ↦ elim (Bool-cases (x.seq == c.seq)) [
            | inl same ↦ inl (
              x,
              inl refl,
              ground arith,
              (text_eq_iff (a.event_digest x.event) c.sha256).0 (ground arith),
            )
            | inr differs ↦ inr (ground arith)
          ]
        ]
