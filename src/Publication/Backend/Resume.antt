-- ===== src/Publication/Backend/Resume.antt =====
-- `reauthorize_first` of tools/v3_publication_backend.py: a child attempt that goes on with a first
-- publication. `ledger.inspect` reads the state that the transaction then starts from.
use ro_repo.Base.{
  ℕ, ◌+◌, ◌||◌, ◌&&◌, not, Bool, true, false, Option, none, some, List, [], ◌∷◌, Result, ok, ◌>>=◌,
  ◌>>◌, raise_if, or_raise, ltb, if◌then◌else◌,
}
use ro_repo.Base.Text.{Text, codes, text_eq}
use ro_repo.Base.Dict.{text_key, pair_key, lookup, insert, contains}
use ro_repo.Trust.{Crypto, Codec, verify_envelope}
use ro_repo.Publication.Records.{
  State, verified, composed, tested, awaiting_approval, authorized, signed, staged, remote_verified,
  published, failed, evidence, result, gate, authorization, signature, verification, Attempt,
  Tables, Row, Db, Checkpoint, Immutable, Head, Resume, Resume-discrete, Request-discrete,
  Bindings-discrete, Immutable-discrete, resume_first, same_by, option_text_eq, state_key,
}
use ro_repo.Publication.Ledger.{Audit, Clock, integrity, execute, attempt_of, consume}
use ro_repo.Publication.Authorization.{request, is_id, is_none}
use ro_repo.Publication.Backend.{fresh, authorized_of}
use ro_repo.Publication.Backend.Stages.{Evidence, VerifiedResult, Approval}
use ro_repo.Publication.Backend.Publish.{is_resumed, is_own_intent, consume_approval}

-- The payload of a recovery observation
pub record Observation : Type 0 where
  pub resume : Resume
  pub writers_fenced : Bool
  pub requests_drained : Bool
  pub issued_at : ℕ
  pub expires_at : ℕ

-- The arguments `observation_raw`, `observation_key` and `observation_pin`, with the identity of the
-- key and the digest of the envelope
pub record Observer : Type 0 where
  pub crypto : Crypto
  pub codec : Codec Observation
  pub raw : Text
  pub key : Text
  pub pin : Text
  pub key_identity : Text
  pub sha256 : Text

-- The states from which a first publication can go on
abbrev pub is_resumable : State → Bool
is_resumable authorized = true
is_resumable signed = true
is_resumable staged = true
is_resumable remote_verified = true
is_resumable published = true
is_resumable failed = true
is_resumable _ = false

abbrev pub inherited : Attempt → Option Resume
inherited value = if is_resumed value then value.immutable.resume else none

-- Its own publication, or the intent that it inherits
unfoldable pub owns_intent : Attempt → Bool
owns_intent value = elim (inherited value) [
  | none ↦ contains published value.proofs
  | some r ↦ not (is_none value.reauthorized)
]

unfoldable pub intent_of : Attempt → Option Text
intent_of value = elim (lookup signed value.proofs) [
  | some (signature publication_sha256 key) ↦ some publication_sha256
  | _ ↦ elim (inherited value) [ some r ↦ some r.publication_sha256 | none ↦ none ]
]

unfoldable pub storage_of : Attempt → Option Text
storage_of value = elim (lookup remote_verified value.proofs) [
  | some (verification seen) ↦ some seen.git_commit
  | _ ↦ elim (inherited value) [ some r ↦ some r.storage_commit | none ↦ none ]
]

-- `_first_resume_binding`
unfoldable pub first_resume_binding : Attempt → Head → Checkpoint → Result Resume
first_resume_binding value head checkpoint = do
  raise_if
      (not (is_none value.immutable.proposal.previous_stable_sha256)
        || not (is_resumable value.state)
        || not (owns_intent value)
        || not (is_own_intent value head))
      "only an unfinished first-publication intent can be reauthorized"
  (authorization_sha256, expires_at) ← authorized_of value
  publication_sha256 ← or_raise (intent_of value) "TypeError"
  storage_commit ← or_raise (storage_of value) "TypeError"
  ok (record {
    predecessor = value.attempt_id;
    checkpoint = checkpoint;
    authorization_sha256 = authorization_sha256;
    publication_sha256 = publication_sha256;
    storage_commit = storage_commit;
  })

-- The child, which stands where its approval leaves it, on the base of its predecessor
unfoldable pub resumed_attempt :
    Text → Immutable → Resume → Evidence → VerifiedResult → Approval → Text → ℕ → Attempt
resumed_attempt attempt immutable resume seen whole approval observed generation = record {
  attempt_id = attempt;
  state = authorized;
  immutable = immutable;
  base_generation = generation;
  proofs =
      (verified, evidence seen.sha256)
      ∷ (composed, result whole.sha256 whole.receipt)
      ∷ (tested, evidence seen.sha256)
      ∷ (awaiting_approval, gate)
      ∷ (authorized, authorization approval.sha256 approval.expiry)
      ∷ [];
  reauthorized = some (record { observation_sha256 = observed; resume = resume });
  outbox = none;
  failure = none;
}

unfoldable pub consume_resume : Tables → Approval → Resume → Text → Result Tables
consume_resume tables approval resume attempt = do
  spent ← consume_approval tables approval attempt
  consume spent (codes "first-resume-parent") resume.predecessor attempt

-- The checks of the predecessor inside of the transaction
unfoldable pub check_predecessor : Audit → Resume → ℕ → List Row → Tables → Result Attempt
check_predecessor a resume now events tables = do
  predecessor ← attempt_of tables resume.predecessor
  checkpoint ← integrity a (record { tables = tables; events = events }) none
  bound ← first_resume_binding predecessor tables.head checkpoint
  raise_if (not (same_by Resume-discrete bound resume)) "stale/substituted recovery checkpoint"
  (sha256, expires_at) ← authorized_of predecessor
  raise_if (ltb now expires_at) "original authority still active; do not fork publication authority"
  ok predecessor

unfoldable pub insert_resumed :
    Audit
    → Text
    → Immutable
    → Resume
    → Evidence
    → VerifiedResult
    → Approval
    → Text
    → ℕ
    → List Row
    → Tables
    → Result (Attempt × Tables)
insert_resumed a attempt immutable resume seen whole approval observed now events tables = do
  predecessor ← check_predecessor a resume now events tables
  spent ← consume_resume tables approval resume attempt
  let value =
      resumed_attempt attempt immutable resume seen whole approval observed
        predecessor.base_generation
  ok (value, record spent { attempts = insert attempt value spent.attempts })

unfoldable pub replay_resumed : Immutable → Approval → Attempt → Tables → Result (Attempt × Tables)
replay_resumed immutable approval old tables = do
  raise_if (not (same_by Immutable-discrete old.immutable immutable))
      "conflicting reauthorization replay"
  (sha256, expires_at) ← authorized_of old
  raise_if (not (text_eq sha256 approval.sha256)) "conflicting reauthorization replay"
  ok (old, tables)

-- `change` of `reauthorize_first`
unfoldable pub change_resumed :
    Audit
    → Text
    → Immutable
    → Resume
    → Evidence
    → VerifiedResult
    → Approval
    → Text
    → ℕ
    → List Row
    → Tables
    → Result (Attempt × Tables)
change_resumed a attempt immutable resume seen whole approval observed now events tables =
    elim (lookup attempt tables.attempts) [
      | none ↦
          insert_resumed a attempt immutable resume seen whole approval observed now events tables
      | some old ↦ replay_resumed immutable approval old tables
    ]

abbrev pub is_observed : Resume → Observation → Bool
is_observed resume seen =
    same_by Resume-discrete seen.resume resume && seen.writers_fenced && seen.requests_drained

-- The checks before the transaction: the predecessor's attempt, and the observation
unfoldable pub check_resumption :
    Audit
    → Text
    → Resume
    → Evidence
    → VerifiedResult
    → Approval
    → Observer
    → ℕ
    → Db
    → Result (Attempt × Observation)
check_resumption a attempt resume seen whole approval observer now db = do
  tip ← integrity a db none
  old ← attempt_of db.tables resume.predecessor
  raise_if (not (same_by Bindings-discrete seen.bindings old.immutable.proposal.bindings))
      "authenticated evidence required before approval"
  asked ← request old.immutable.proposal attempt resume_first none (some resume)
  raise_if
      (not (same_by Request-discrete approval.request asked)
        || not (text_eq approval.authenticated_evidence_sha256 seen.sha256)
        || not (option_text_eq (some whole.sha256) old.immutable.proposal.result_stable_sha256)
        || not (text_eq whole.plan_sha256 old.immutable.plan_sha256))
      "reauthorization changed exact tested result"
  raise_if
      (text_eq approval.approval_key_identity approval.witness_key_identity
        || text_eq approval.approval_key_identity a.audit_key_identity
        || text_eq approval.witness_key_identity a.audit_key_identity
        || text_eq observer.key_identity approval.approval_key_identity
        || text_eq observer.key_identity approval.witness_key_identity
        || text_eq observer.key_identity a.audit_key_identity)
      "independent recovery observer/approval/witness/audit roots required"
  observed ←
      verify_envelope observer.crypto observer.codec observer.raw (codes "restore-observation")
        observer.key observer.pin (is_observed resume) now
  raise_if (ltb now observed.issued_at || ltb (observed.issued_at + 60) now)
      "stale first-publication recovery observation"
  raise_if (not whole.intact) "verified result changed"
  ok (old, observed)

-- The guard of the transaction
unfoldable pub guard_resumed :
    Evidence → VerifiedResult → Approval → Observation → Attempt → ℕ → Result (Unit {0})
guard_resumed seen whole approval observed value now = do
  fresh seen.expiry now
  fresh approval.expiry now
  fresh observed.expires_at now
  raise_if (not whole.intact) "verified result changed"

-- `reauthorize_first`
unfoldable pub reauthorize_first :
    Audit
    → Text
    → Evidence
    → VerifiedResult
    → Approval
    → Observer
    → Clock
    → Db
    → Result ((Attempt × Checkpoint) × Db)
reauthorize_first a attempt seen whole approval observer clock db = do
  raise_if (not (is_id attempt))
      "fresh verified first-publication reauthorization prerequisites required"
  fresh seen.expiry clock.entry
  fresh approval.expiry clock.entry
  resume ← or_raise approval.request.resume "explicit resume-first protected authorization required"
  (old, observed) ← check_resumption a attempt resume seen whole approval observer clock.entry db
  let immutable : Immutable = record {
    proposal = old.immutable.proposal;
    plan_sha256 = whole.plan_sha256;
    operation = resume_first;
    resume = some resume;
  }
  execute a (codes "reauthorize-first") (some attempt)
      (change_resumed a attempt immutable resume seen whole approval observer.sha256 clock.inside)
      none (guard_resumed seen whole approval observed) clock db
