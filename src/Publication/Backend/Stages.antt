-- ===== src/Publication/Backend/Stages.antt =====
-- The operations of `Backend` in tools/v3_publication_backend.py, one for each stage.
-- An argument that is no sealed capability is refused by its type. `create` begins where its
-- proposal, plan and registry have been checked against each other; the schema check is absent.
use ro_repo.Base.{
  ℕ, ◌||◌, ◌&&◌, not, Bool, false, Option, none, some, List, [], Result, ok, err, ◌>>=◌, ◌>>◌,
  raise_if, leb, if◌then◌else◌,
}
use ro_repo.Base.Text.{Text, codes, text_eq}
use ro_repo.Base.Dict.{text_key, pair_key, lookup, insert, contains}
use ro_repo.Publication.Records.{
  proposed, verified, composed, tested, awaiting_approval, evidence, result, gate, Attempt, Tables,
  Row, Db, Checkpoint, Immutable, Request, Bindings, Operation, promote, recover, resume_first,
  Immutable-discrete, Bindings-discrete, Operation-discrete, same_by, option_text_eq,
}
use ro_repo.Publication.Ledger.{Audit, Clock, execute}
use ro_repo.Publication.Authorization.{is_id}
use ro_repo.Publication.Backend.{Validate, transition, fresh, evidence_of}

-- The capabilities that the stages take; `intact` is what `check()` finds in the files.
pub record Evidence : Type 0 where
  pub bindings : Bindings
  pub sha256 : Text
  pub expiry : ℕ

pub record VerifiedResult : Type 0 where
  pub sha256 : Text
  pub plan_sha256 : Text
  pub receipt : Text
  pub intact : Bool

pub record Approval : Type 0 where
  pub sha256 : Text
  pub expiry : ℕ
  pub request : Request
  pub authenticated_evidence_sha256 : Text
  pub approval_key_identity : Text
  pub witness_key_identity : Text
  pub approval_sha256 : Text
  pub witness_sha256 : Text
  pub jti : Text

pub record StagedView : Type 0 where
  pub sha256 : Text
  pub envelope_sha256 : Text
  pub authorization_sha256 : Text
  pub signing_key_identity : Text
  pub signing_key_sha256 : Text
  pub expires_at : ℕ
  pub intact : Bool

-- A new attempt
unfoldable pub new_attempt : Text → Immutable → ℕ → Attempt
new_attempt attempt immutable generation = record {
  attempt_id = attempt;
  state = proposed;
  immutable = immutable;
  base_generation = generation;
  proofs = [];
  reauthorized = none;
  outbox = none;
  failure = none;
}

-- The row of `views` that `create` looks for
abbrev pub seen_before : Option Text → Tables → Bool
seen_before none tables = false
seen_before (some digest) tables = contains digest tables.views

abbrev pub create_name : Operation → Text
create_name promote = codes "create-promote"
create_name recover = codes "create-recover"
create_name resume_first = codes "create-resume-first"

unfoldable pub insert_attempt : Text → Immutable → Tables → Result (Attempt × Tables)
insert_attempt attempt immutable tables = do
  let head = tables.head
  raise_if (not (option_text_eq immutable.proposal.previous_stable_sha256 head.digest))
      "stale stable base"
  raise_if
      (same_by Operation-discrete immutable.operation promote
        && not (option_text_eq head.digest head.last_verified))
      "unverified advertisement requires recovery before another promotion"
  raise_if
      (same_by Operation-discrete immutable.operation recover
        && not (seen_before immutable.proposal.result_stable_sha256 tables))
      "recovery requires previously verified immutable history"
  let value = new_attempt attempt immutable head.generation
  ok (value, record tables { attempts = insert attempt value tables.attempts })

-- `change` of `create`
unfoldable pub change_create : Text → Immutable → List Row → Tables → Result (Attempt × Tables)
change_create attempt immutable events tables = elim (lookup attempt tables.attempts) [
  | none ↦ insert_attempt attempt immutable tables
  | some old ↦
      if same_by Immutable-discrete old.immutable immutable
      then ok (old, tables)
      else err "conflicting immutable attempt replay"
]

-- `create`
unfoldable pub create : Audit → Text → Immutable → Clock → Db → Result ((Attempt × Checkpoint) × Db)
create a attempt immutable clock db = do
  raise_if (not (is_id attempt) || same_by Operation-discrete immutable.operation resume_first)
      "invalid immutable attempt"
  execute a (create_name immutable.operation) (some attempt) (change_create attempt immutable) none
      (λ v now. ok tt) clock db

-- `validate` of `verified`
unfoldable pub validate_evidence : Evidence → Validate
validate_evidence seen events tables value = do
  raise_if (not (same_by Bindings-discrete seen.bindings value.immutable.proposal.bindings))
      "evidence substitution"
  ok tables

-- `validate` of `composed`
unfoldable pub validate_result : VerifiedResult → Validate
validate_result whole events tables value = do
  raise_if
      (not (option_text_eq (some whole.sha256) value.immutable.proposal.result_stable_sha256)
        || not (text_eq whole.plan_sha256 value.immutable.plan_sha256))
      "complete result substitution"
  ok tables

-- `validate` of `tested`
unfoldable pub validate_test : Evidence → Validate
validate_test seen events tables value = do
  sha256 ← evidence_of verified value
  raise_if (not (text_eq sha256 seen.sha256)) "test evidence substitution"
  ok tables

-- `awaiting_approval` checks nothing.
unfoldable pub validate_nothing : Validate
validate_nothing events tables value = ok tables

module _ (a : Audit) where
  -- `verified`
  unfoldable pub to_verified : Text → Evidence → Clock → Db → Result ((Attempt × Checkpoint) × Db)
  to_verified attempt seen clock db = do
    raise_if (leb seen.expiry clock.entry) "fresh authenticated evidence required"
    transition a attempt verified (evidence seen.sha256) (validate_evidence seen)
        (λ value now. fresh seen.expiry now) clock db

  -- `composed`
  unfoldable pub to_composed :
      Text → VerifiedResult → Clock → Db → Result ((Attempt × Checkpoint) × Db)
  to_composed attempt whole clock db = do
    raise_if (not whole.intact) "verified result changed"
    transition a attempt composed (result whole.sha256 whole.receipt) (validate_result whole)
        (λ value now. ok tt) clock db

  -- `tested`
  unfoldable pub to_tested : Text → Evidence → Clock → Db → Result ((Attempt × Checkpoint) × Db)
  to_tested attempt seen clock db = do
    raise_if (leb seen.expiry clock.entry) "fresh authenticated acceptance required"
    transition a attempt tested (evidence seen.sha256) (validate_test seen)
        (λ value now. fresh seen.expiry now) clock db

  -- `awaiting_approval`
  unfoldable pub to_awaiting_approval : Text → Clock → Db → Result ((Attempt × Checkpoint) × Db)
  to_awaiting_approval attempt clock db =
      transition a attempt awaiting_approval gate validate_nothing (λ value now. ok tt) clock db
