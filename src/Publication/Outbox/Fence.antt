-- ===== src/Publication/Outbox/Fence.antt =====
-- Leases and fences of tools/v3_publication_outbox.py.
use ro_repo.Base.{
  ℕ, ◌+◌, ◌≤◌, ◌≡◌, Bool, not, ◌||◌, none, some, List, ok, err, arith, inl, inr, Option-cases,
  Result-cases, ==_iff, after_raise, leb,
}
use ro_repo.Base.Text.{Text, codes}
use ro_repo.Base.Dict.{text_key, lookup}
use ro_repo.Publication.Records.{Attempt, Tables, Row, Db, Checkpoint, Job, option_text_eq_iff}
use ro_repo.Publication.Ledger.{Audit, IsSound, Clock, attempt_of, execute}
use ro_repo.Publication.Ledger.Transaction.{execute_change}
use ro_repo.Publication.Backend.{authorized_of}
use ro_repo.Publication.Outbox.{change_claim, claim, is_owner, leased, put_job, guard, is_stale}

-- A lease that was given: the one before it had run out, and the fence has grown by one.
pub record Leased (k owner : Text) (seconds now fence : ℕ) (t t' : Tables) : Type 0 where
  pub value : Attempt
  pub found : lookup k t.attempts ≡ some value
  pub job : Job
  pub queued : value.outbox ≡ some job
  pub expired : job.lease_until ≤ now
  pub grown : fence ≡ job.fence + 1
  pub after : t' ≡ put_job t value (leased job owner now seconds)
  -- every fence that was given before is refused from then on
  pub refused :
      (other : Text) (old : ℕ) (allow : Bool) (later : ℕ)
      → old ≤ job.fence
      → guard (record value { outbox = some (leased job owner now seconds) }) other old allow later
        ≡ err "stale outbox worker/fence"

change_claim-Leased :
    (k owner : Text) (seconds now : ℕ) (events : List Row) (t t' : Tables) (fence : ℕ)
    → change_claim k owner seconds now events t ≡ ok (fence, t')
    → Leased k owner seconds now fence t t'
unfolding change_claim attempt_of
change_claim-Leased k owner seconds now events t t' fence h =
    elim (Option-cases (lookup k t.attempts)) [
      | inl n ↦ ground arith
      | inr (value, f) ↦ elim (Option-cases value.outbox) [
        | inl n ↦ ground arith
        | inr (job, q) ↦ elim (Result-cases (authorized_of value)) [
          | inl (e, u) ↦ ground arith
          | inr ((x, n), u) ↦ record {
            value = value;
            found = f;
            job = job;
            queued = q;
            expired = ground arith;
            grown = ground arith;
            after = ground arith;
            refused = λ other old allow later le.
                unfold guard leased is_stale in ground (arith, ==_iff (job.fence + 1) old);
          }
        ]
      ]
    ]

module _ (a : Audit) (s : IsSound a) (k owner : Text) (seconds : ℕ) (clock : Clock) (db db' : Db)
    (fence : ℕ) (receipt : Checkpoint) where
  -- If the signer's signatures verify: a committed claim is of a job whose lease had run out, its
  -- fence is the job's plus one, and for the attempt that it stores every smaller fence is refused.
  pub claim-Leased :
      claim a k owner seconds clock db ≡ ok ((fence, receipt), db')
      → Leased k owner seconds clock.inside fence db.tables db'.tables
  unfolding claim
  claim-Leased h =
      let (n, ran) =
        after_raise (not (is_owner owner) || not (leb 1 seconds) || not (leb seconds 60))
          "invalid worker lease"
          (execute a (codes "outbox-claim") (some k) (change_claim k owner seconds clock.inside)
            none (λ v now. ok tt) clock db)
          ((fence, receipt), db') h in
      change_claim-Leased k owner seconds clock.inside db.events db.tables db'.tables fence (
        execute_change a s (codes "outbox-claim") (some k)
          (change_claim k owner seconds clock.inside) none (λ v now. ok tt) clock db db' fence
          receipt ran)

-- At one state of an attempt the guard accepts one owner with one fence, whenever it is asked.
pub guard_unique :
    (value : Attempt) (o o' : Text) (f f' : ℕ) (c c' : Bool) (now now' : ℕ)
    → guard value o f c now ≡ ok tt
    → guard value o' f' c' now' ≡ ok tt
    → (o ≡ o') × (f ≡ f')
unfolding guard is_stale
guard_unique value o o' f f' c c' now now' h h' = elim (Option-cases value.outbox) [
  | inl n ↦ ground arith
  | inr (job, q) ↦ (
    ground (arith, option_text_eq_iff job.owner (some o), option_text_eq_iff job.owner (some o')),
    ground (arith, ==_iff job.fence f, ==_iff job.fence f'),
  )
]
