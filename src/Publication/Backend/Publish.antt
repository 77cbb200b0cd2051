-- ===== src/Publication/Backend/Publish.antt =====
-- The later stages of `Backend` in tools/v3_publication_backend.py, from the approval on.
use ro_repo.Base.{
  ℕ, ◌+◌, ◌||◌, ◌&&◌, not, Bool, false, Option, none, some, Result, ok, ◌>>=◌, ◌>>◌, raise_if, leb,
  ◌==◌, if◌then◌else◌,
}
use ro_repo.Base.Text.{Text, codes, text_eq}
use ro_repo.Base.Dict.{text_key, pair_key, insert, contains}
use ro_repo.Publication.Records.{
  authorized, signed, staged, tested, remote_verified, published, post_verified, authorization,
  signature, staging, verification, publication, Attempt, Tables, Db, Checkpoint, Verification,
  Head, View, Operation, promote, recover, resume_first, pre, post, Request-discrete,
  Operation-discrete, Phase-discrete, same_by, option_text_eq,
}
use ro_repo.Publication.Ledger.{Audit, Clock, integrity, consume}
use ro_repo.Publication.Authorization.{request, is_none}
use ro_repo.Publication.Backend.{
  Validate, transition, fresh, is_recent, fresh_remote, authorized_of, signed_of, remote_of,
  evidence_of,
}
use ro_repo.Publication.Backend.Stages.{Approval, StagedView}

-- `target` in `authorized`
abbrev pub recovery_target : Operation → Option Text → Option Text
recovery_target promote digest = none
recovery_target recover digest = digest
recovery_target resume_first digest = none

-- The head is the one that the attempt was created on.
unfoldable pub is_at_base : Attempt → Head → Bool
is_at_base value head =
    option_text_eq head.digest value.immutable.proposal.previous_stable_sha256
    && (head.generation == value.base_generation)

-- The loop that consumes the four identities of an approval
unfoldable pub consume_approval : Tables → Approval → Text → Result Tables
consume_approval tables approval attempt = do
  first ← consume tables (codes "approval") approval.approval_sha256 attempt
  second ← consume first (codes "witness") approval.witness_sha256 attempt
  third ← consume second (codes "jwt-jti") approval.jti attempt
  consume third (codes "authorization") approval.sha256 attempt

unfoldable pub check_approval : Audit → Text → Approval → Attempt → Result (Unit {0})
check_approval a attempt approval value = do
  raise_if
      (text_eq a.audit_key_identity approval.approval_key_identity
        || text_eq a.audit_key_identity approval.witness_key_identity)
      "canonical audit/authorization key role collision"
  asked ←
      request value.immutable.proposal attempt value.immutable.operation
        (recovery_target value.immutable.operation value.immutable.proposal.result_stable_sha256)
        none
  seen ← evidence_of tested value
  raise_if
      (not (same_by Request-discrete approval.request asked)
        || not (text_eq approval.authenticated_evidence_sha256 seen))
      "approval does not bind this tested attempt"

unfoldable pub validate_approval : Audit → Text → Approval → Validate
validate_approval a attempt approval events tables value = do
  check_approval a attempt approval value
  raise_if (not (is_at_base value tables.head)) "stale CAS conflict before approval consumption"
  consume_approval tables approval attempt

-- `authorized`
unfoldable pub to_authorized :
    Audit → Text → Approval → Clock → Db → Result ((Attempt × Checkpoint) × Db)
to_authorized a attempt approval clock db = do
  raise_if (leb approval.expiry clock.entry) "fresh verified protected authorization required"
  transition a attempt authorized (authorization approval.sha256 approval.expiry)
      (validate_approval a attempt approval) (λ value now. fresh approval.expiry now) clock db

-- `validate` of `signed`
unfoldable pub validate_signature : Audit → StagedView → ℕ → Validate
validate_signature a view now events tables value = do
  (sha256, expires_at) ← authorized_of value
  raise_if
      (not (option_text_eq (some view.sha256) value.immutable.proposal.result_stable_sha256)
        || text_eq view.signing_key_identity a.audit_key_identity
        || not (text_eq view.authorization_sha256 sha256)
        || leb expires_at now)
      "signing result/approval substitution or expiry"
  ok tables

-- `signed`
unfoldable pub to_signed :
    Audit → Text → StagedView → Clock → Db → Result ((Attempt × Checkpoint) × Db)
to_signed a attempt view clock db = do
  raise_if (not view.intact) "immutable staged view changed"
  transition a attempt signed (signature view.envelope_sha256 view.signing_key_sha256)
      (validate_signature a view clock.inside) (λ value now. fresh view.expires_at now) clock db

-- `validate` of `staged`
unfoldable pub validate_staging : StagedView → ℕ → Validate
validate_staging view now events tables value = do
  (sha256, expires_at) ← authorized_of value
  fresh expires_at now
  envelope ← signed_of value
  raise_if (not (text_eq envelope view.envelope_sha256)) "staged envelope substitution"
  ok tables

-- `staged`
unfoldable pub to_staged :
    Audit → Text → StagedView → Clock → Db → Result ((Attempt × Checkpoint) × Db)
to_staged a attempt view clock db = do
  raise_if (not view.intact) "immutable staged view changed"
  transition a attempt staged (staging view.envelope_sha256 view.sha256)
      (validate_staging view clock.inside) (λ value now. fresh view.expires_at now) clock db

unfoldable pub check_remote : Verification → ℕ → Attempt → Result (Unit {0})
check_remote remote now value = do
  (sha256, expires_at) ← authorized_of value
  fresh expires_at now
  envelope ← signed_of value
  raise_if
      (not (
          option_text_eq (some remote.result_stable_sha256)
            value.immutable.proposal.result_stable_sha256)
        || not (text_eq remote.publication_sha256 envelope)
        || not (is_recent remote.verified_at now))
      "stale/substituted remote verification"

-- `validate` of `_remote` before the publication
unfoldable pub validate_pre : Verification → ℕ → Validate
validate_pre remote now events tables value = do
  check_remote remote now value
  raise_if (not (same_by Phase-discrete remote.phase pre))
      "pre-publication byte verification required"
  ok tables

-- The row of `views` is made once, and the head is marked.
unfoldable pub mark_verified : Text → Verification → Tables → Tables
mark_verified attempt remote tables =
    let head = record tables.head { last_verified = tables.head.digest } in
    let digest = remote.result_stable_sha256 in
    let view : View = record {
      result_stable_sha256 = digest;
      first_attempt = attempt;
      seen = remote;
    } in
    record tables {
      head = head;
      views =
          if contains digest tables.views then tables.views else insert digest view tables.views;
    }

abbrev pub has_generation : Option ℕ → Head → Bool
has_generation none head = false
has_generation (some n) head = n == head.generation

-- `validate` of `_remote` after the publication; the digest of the head is then that of the remote.
unfoldable pub validate_post : Audit → Text → Verification → ℕ → Validate
validate_post a attempt remote now events tables value = do
  check_remote remote now value
  seen ← integrity a (record { tables = tables; events = events }) remote.advertisement_checkpoint
  raise_if
      (not (same_by Phase-discrete remote.phase post)
        || not (has_generation remote.advertised_generation tables.head)
        || not (option_text_eq tables.head.digest (some remote.result_stable_sha256))
        || not (tables.head.generation == value.base_generation + 1))
      "publication changed before post-verification"
  ok (mark_verified attempt remote tables)

-- `guard` of `_remote`
unfoldable pub guard_remote : Verification → Attempt → ℕ → Result (Unit {0})
guard_remote remote value now = do
  fresh_remote remote now
  (sha256, expires_at) ← authorized_of value
  fresh expires_at now

-- `remotely_verified`
unfoldable pub remotely_verified :
    Audit → Text → Verification → Clock → Db → Result ((Attempt × Checkpoint) × Db)
remotely_verified a attempt remote clock db =
    transition a attempt remote_verified (verification remote) (validate_pre remote clock.inside)
      (guard_remote remote) clock db

-- `post_verified`
unfoldable pub to_post_verified :
    Audit → Text → Verification → Clock → Db → Result ((Attempt × Checkpoint) × Db)
to_post_verified a attempt remote clock db =
    transition a attempt post_verified (verification remote)
      (validate_post a attempt remote clock.inside) (guard_remote remote) clock db

unfoldable pub is_resumed : Attempt → Bool
is_resumed value = same_by Operation-discrete value.immutable.operation resume_first

-- The head that a resumed attempt adopts is its own, and not yet verified.
unfoldable pub is_own_intent : Attempt → Head → Bool
is_own_intent value head =
    option_text_eq head.digest value.immutable.proposal.result_stable_sha256
    && (head.generation == value.base_generation + 1)
    && is_none head.last_verified

unfoldable pub advertised : Attempt → Head → Head
advertised value head = record {
  digest = value.immutable.proposal.result_stable_sha256;
  generation = if is_resumed value then head.generation else head.generation + 1;
  last_verified = head.last_verified;
}

-- `validate` of `publish`
unfoldable pub validate_publish : Approval → ℕ → Validate
validate_publish approval now events tables value = do
  remote ← remote_of value
  fresh_remote remote now
  (sha256, expires_at) ← authorized_of value
  raise_if (not (text_eq approval.sha256 sha256)) "publication approval substitution"
  raise_if (is_resumed value && not (is_own_intent value tables.head))
      "first-publication intent changed before authorized resume"
  raise_if (not (is_resumed value) && not (is_at_base value tables.head))
      "stable CAS conflict at advertisement"
  ok (record tables { head = advertised value tables.head })

unfoldable pub guard_publish : Approval → Attempt → ℕ → Result (Unit {0})
guard_publish approval value now = do
  fresh approval.expiry now
  remote ← remote_of value
  fresh_remote remote now

-- `publish`
unfoldable pub publish : Audit → Text → Approval → Clock → Db → Result ((Attempt × Checkpoint) × Db)
publish a attempt approval clock db = do
  raise_if (leb approval.expiry clock.entry)
      "fresh protected authorization required at advertisement"
  transition a attempt published (publication approval.sha256)
      (validate_publish approval clock.inside) (guard_publish approval) clock db
