-- ===== src/Publication/Backend.antt =====
-- `Backend` of tools/v3_publication_backend.py: the stages of a publication attempt.
-- A change reads the clock once, where the source may read it again for each of its checks.
pub mod Publish
pub mod Resume
pub mod Taken
pub mod Sound
pub mod Kept
pub mod Checks
pub mod Reach
pub mod Advertise
pub mod Approve
pub mod Stages
use ro_repo.Base.{
  ℕ, ◌+◌, ◌||◌, ◌&&◌, not, Bool, true, false, Option, none, some, List, [], ◌∷◌, Result, ok, err,
  ◌>>=◌, ◌>>◌, raise_if, or_raise, leb, all, length, ◌==◌, if◌then◌else◌,
}
use ro_repo.Base.Text.{is_blank, Text, codes, text_eq}
use ro_repo.Base.Dict.{text_key, pair_key, lookup, insert, contains}
use ro_repo.Publication.Records.{
  State, proposed, verified, composed, tested, awaiting_approval, authorized, signed, staged,
  remote_verified, published, post_verified, failed, Proof, evidence, result, gate, authorization,
  signature, staging, verification, publication, Attempt, Tables, Row, Db, Checkpoint, Verification,
  Failure, Proof-discrete, State-discrete, state_key, same_by,
}
use ro_repo.Publication.Ledger.{Audit, Clock, attempt_of, put_attempt, execute}

-- The place before a state in `STATES`
unfoldable pub before_state : State → Option State
before_state proposed = none
before_state verified = some proposed
before_state composed = some verified
before_state tested = some composed
before_state awaiting_approval = some tested
before_state authorized = some awaiting_approval
before_state signed = some authorized
before_state staged = some signed
before_state remote_verified = some staged
before_state published = some remote_verified
before_state post_verified = some published
before_state failed = none

abbrev pub state_name : State → Text
state_name proposed = codes "PROPOSED"
state_name verified = codes "VERIFIED"
state_name composed = codes "COMPOSED"
state_name tested = codes "TESTED"
state_name awaiting_approval = codes "AWAITING_APPROVAL"
state_name authorized = codes "AUTHORIZED"
state_name signed = codes "SIGNED"
state_name staged = codes "STAGED"
state_name remote_verified = codes "REMOTE_VERIFIED"
state_name published = codes "PUBLISHED"
state_name post_verified = codes "POST_VERIFIED"
state_name failed = codes "FAILED"

-- What a stage checks of the stored attempt, and the tables with its own changes.
abbrev pub Validate : Type 0
Validate = List Row → Tables → Attempt → Result Tables

-- The new attempt of a stage that is taken for the first time.
unfoldable pub reached : State → Proof → Attempt → Attempt
reached target proof value = record value {
  state = target;
  proofs = insert target proof value.proofs;
}

unfoldable pub advance :
    State → State → Proof → Validate → List Row → Tables → Attempt → Result (Attempt × Tables)
advance expected target proof validate events tables value = do
  raise_if (not (same_by State-discrete value.state expected)) "illegal publication transition"
  checked ← validate events tables value
  ok (reached target proof value, put_attempt checked (reached target proof value))

-- `change` of `_transition`
unfoldable pub change_to :
    State → State → Proof → Validate → Text → List Row → Tables → Result (Attempt × Tables)
change_to expected target proof validate attempt events tables = do
  value ← attempt_of tables attempt
  elim (lookup target value.proofs) [
    | none ↦ advance expected target proof validate events tables value
    | some old ↦
        if same_by Proof-discrete old proof
        then ok (value, tables)
        else err "conflicting transition replay"
  ]

-- `_transition`
unfoldable pub transition :
    Audit
    → Text
    → State
    → Proof
    → Validate
    → (Attempt → ℕ → Result (Unit {0}))
    → Clock
    → Db
    → Result ((Attempt × Checkpoint) × Db)
transition a attempt target proof validate guard clock db = do
  expected ← or_raise (before_state target) "unsupported transition"
  execute a (state_name target) (some attempt) (change_to expected target proof validate attempt)
      none guard clock db

-- `_fresh`
unfoldable pub fresh : ℕ → ℕ → Result (Unit {0})
fresh expires_at now =
    raise_if (leb expires_at now) "authority expired before transaction completion"

-- `0 <= now - verified_at <= 60`
unfoldable pub is_recent : ℕ → ℕ → Bool
is_recent verified_at now = leb verified_at now && leb now (verified_at + 60)

-- `_fresh_remote`
unfoldable pub fresh_remote : Verification → ℕ → Result (Unit {0})
fresh_remote remote now =
    raise_if (not (is_recent remote.verified_at now)) "stale remote verification at advertisement"

-- `value["proofs"]["AUTHORIZED"]`
abbrev pub authorized_of : Attempt → Result (Text × ℕ)
authorized_of value = elim (lookup authorized value.proofs) [
  | some (authorization sha256 expires_at) ↦ ok (sha256, expires_at)
  | _ ↦ err "KeyError: 'AUTHORIZED'"
]

-- `value["proofs"]["SIGNED"]["publication_sha256"]`
abbrev pub signed_of : Attempt → Result Text
signed_of value = elim (lookup signed value.proofs) [
  | some (signature publication_sha256 key) ↦ ok publication_sha256
  | _ ↦ err "KeyError: 'SIGNED'"
]

-- `value["proofs"]["REMOTE_VERIFIED"]["verification"]`
abbrev pub remote_of : Attempt → Result Verification
remote_of value = elim (lookup remote_verified value.proofs) [
  | some (verification seen) ↦ ok seen
  | _ ↦ err "KeyError: 'REMOTE_VERIFIED'"
]

-- `value["proofs"][state]["evidence_sha256"]`
abbrev pub evidence_of : State → Attempt → Result Text
evidence_of state value = elim (lookup state value.proofs) [
  | some (evidence sha256) ↦ ok sha256
  | _ ↦ err "KeyError: 'evidence_sha256'"
]

unfoldable pub failed_attempt : Text → Attempt → Attempt
failed_attempt reason value = record value {
  state = failed;
  failure = some (record {
    stage = value.state;
    reason = reason;
    needs_fresh_recovery = same_by State-discrete value.state published;
  });
}

unfoldable pub change_fail : Text → Text → List Row → Tables → Result (Attempt × Tables)
change_fail attempt reason events tables = do
  value ← attempt_of tables attempt
  raise_if
      (same_by State-discrete value.state post_verified
        || same_by State-discrete value.state failed)
      "terminal attempt cannot be rewritten"
  ok (failed_attempt reason value, put_attempt tables (failed_attempt reason value))

-- `fail`
unfoldable pub fail : Audit → Text → Text → Clock → Db → Result ((Attempt × Checkpoint) × Db)
fail a attempt reason clock db = do
  raise_if (is_blank reason || leb 1025 (length reason)) "invalid failure diagnosis"
  execute a (codes "FAILED") (some attempt) (change_fail attempt reason) none (λ v now. ok tt) clock
      db
