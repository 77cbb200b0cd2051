-- ===== src/Publication/Outbox.antt =====
-- `Outbox` of tools/v3_publication_outbox.py: the jobs of the attempts, their leases and fences.
-- The receipts of a job and the operations that run under `locked` are absent.
pub mod Fence
use ro_repo.Base.{
  ℕ, ◌+◌, ◌||◌, ◌&&◌, not, Bool, true, false, Option, none, some, List, [], ◌∷◌, Result, ok, err,
  leb, ltb, ◌>>=◌, ◌>>◌, raise_if, or_raise, ◌==◌, if◌then◌else◌, all, length, is_empty,
}
use ro_repo.Base.Text.{Text, codes, text_eq, is_digit, is_alpha}
use ro_repo.Publication.Records.{
  State, staged, failed, Attempt, Tables, Row, Db, Checkpoint, Job, JobKey, JobStatus, pending,
  complete, job_failed, JobKey-discrete, JobStatus-discrete, State-discrete, same_by,
  option_text_eq,
}
use ro_repo.Publication.Ledger.{Audit, Clock, attempt_of, put_attempt, execute}
use ro_repo.Publication.Backend.{fresh, authorized_of, signed_of}
use ro_repo.Publication.Backend.Stages.{Approval, StagedView}

-- `[0-9a-f]{40}`
unfoldable pub is_commit : Text → Bool
is_commit t = (length t == 40) && all (λ (c : ℕ). is_digit c || (leb b'a' c && leb c b'f')) t

abbrev pub is_base : Option Text → Bool
is_base none = true
is_base (some t) = is_commit t

-- `[A-Za-z0-9_-]{1,64}`
unfoldable pub is_owner : Text → Bool
is_owner t =
    leb 1 (length t)
    && leb (length t) 64
    && all (λ (c : ℕ). is_alpha c || is_digit c || (c == b'_') || (c == b'-')) t

unfoldable pub new_job : JobKey → Job
new_job immutable = record {
  immutable = immutable;
  fence = 0;
  owner = none;
  lease_until = 0;
  status = pending;
}

unfoldable pub job_key : StagedView → Approval → Option Text → JobKey
job_key view approval expected_git = record {
  result_sha256 = view.sha256;
  publication_sha256 = view.envelope_sha256;
  authorization_sha256 = approval.sha256;
  expected_git = expected_git;
}

unfoldable pub put_job : Tables → Attempt → Job → Tables
put_job tables value job = put_attempt tables (record value { outbox = some job })

unfoldable pub insert_job :
    StagedView → Approval → Option Text → ℕ → Tables → Attempt → Result (Job × Tables)
insert_job view approval expected_git now tables value = do
  raise_if (not (same_by State-discrete value.state staged))
      "outbox requires exact authorized signed staging"
  (sha256, expires_at) ← authorized_of value
  raise_if (not (text_eq approval.sha256 sha256)) "outbox requires exact authorized signed staging"
  envelope ← signed_of value
  raise_if (not (text_eq view.envelope_sha256 envelope))
      "outbox requires exact authorized signed staging"
  fresh approval.expiry now
  let job = new_job (job_key view approval expected_git)
  ok (job, put_job tables value job)

-- `change` of `enqueue`
unfoldable pub change_enqueue :
    Text → StagedView → Approval → Option Text → ℕ → List Row → Tables → Result (Job × Tables)
change_enqueue attempt view approval expected_git now events tables = do
  value ← attempt_of tables attempt
  elim value.outbox [
    | none ↦ insert_job view approval expected_git now tables value
    | some old ↦
        if same_by JobKey-discrete old.immutable (job_key view approval expected_git)
        then ok (old, tables)
        else err "conflicting outbox idempotency key"
  ]

-- `enqueue`; the attempt is the one that the view's descriptor names.
unfoldable pub enqueue :
    Audit
    → Text
    → StagedView
    → Approval
    → Option Text
    → Clock
    → Db
    → Result ((Job × Checkpoint) × Db)
enqueue a attempt view approval expected_git clock db = do
  raise_if (not view.intact) "immutable staged view changed"
  raise_if (not (is_base expected_git)) "exact Git base required"
  execute a (codes "outbox-enqueue") (some attempt)
      (change_enqueue attempt view approval expected_git clock.inside) none (λ v now. ok tt) clock
      db

unfoldable pub is_over : Job → Bool
is_over job =
    same_by JobStatus-discrete job.status complete
    || same_by JobStatus-discrete job.status job_failed

unfoldable pub leased : Job → Text → ℕ → ℕ → Job
leased job owner now seconds = record job {
  fence = job.fence + 1;
  owner = some owner;
  lease_until = now + seconds;
}

-- `change` of `claim`
unfoldable pub change_claim : Text → Text → ℕ → ℕ → List Row → Tables → Result (ℕ × Tables)
change_claim attempt owner seconds now events tables = do
  value ← attempt_of tables attempt
  job ← or_raise value.outbox "no runnable outbox job"
  raise_if (is_over job || same_by State-discrete value.state failed) "no runnable outbox job"
  raise_if (ltb now job.lease_until) "outbox is leased; no concurrent worker"
  (sha256, expires_at) ← authorized_of value
  fresh expires_at now
  ok (job.fence + 1, put_job tables value (leased job owner now seconds))

-- `claim`
unfoldable pub claim : Audit → Text → Text → ℕ → Clock → Db → Result ((ℕ × Checkpoint) × Db)
claim a attempt owner seconds clock db = do
  raise_if (not (is_owner owner) || not (leb 1 seconds) || not (leb seconds 60))
      "invalid worker lease"
  execute a (codes "outbox-claim") (some attempt) (change_claim attempt owner seconds clock.inside)
      none (λ v now. ok tt) clock db

unfoldable pub is_stale : Attempt → Job → Text → ℕ → Bool → ℕ → Bool
is_stale value job owner fence allow_complete now =
    not (option_text_eq job.owner (some owner))
    || not (job.fence == fence)
    || leb job.lease_until now
    || same_by JobStatus-discrete job.status job_failed
    || (same_by JobStatus-discrete job.status complete && not allow_complete)
    || same_by State-discrete value.state failed

-- `_guard`
unfoldable pub guard : Attempt → Text → ℕ → Bool → ℕ → Result (Unit {0})
guard value owner fence allow_complete now = do
  job ← or_raise value.outbox "KeyError: 'OUTBOX'"
  raise_if (is_stale value job owner fence allow_complete now) "stale outbox worker/fence"
  (sha256, expires_at) ← authorized_of value
  fresh expires_at now
