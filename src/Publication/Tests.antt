-- ===== src/Publication/Tests.antt =====
-- A first publication on an empty ledger, as the publication tests of tests run it: one attempt
-- that passes every stage.
mod Witnesses
use ro_repo.Base.{
  ℕ, ◌≡◌, refl, Bool, true, false, Option, none, some, List, [], ◌∷◌, Result, ok, err, length, ◌+◌,
  String, ◌++◌, suc,
}
use ro_repo.Base.Text.{Text, codes, text_eq}
use ro_repo.Base.Dict.{Dict, values, text_key, lookup}
use ro_repo.Publication.Records.{
  Job, pending, Attempt, Tables, Event, Row, Db, Checkpoint, Proposal, Immutable, Request,
  Verification, Bindings, Reasons, promote, pre, State, Proof, proposed, verified, composed, tested,
  awaiting_approval, authorized, signed, staged, remote_verified, published, evidence, result, gate,
  authorization, signature, staging, verification, publication,
}
use ro_repo.Publication.Ledger.{Audit, IsSound, Clock, integrity}
use ro_repo.Publication.Backend.Stages.{
  Evidence, VerifiedResult, Approval, StagedView, new_attempt, create, to_verified, to_composed,
  to_tested, to_awaiting_approval,
}
use ro_repo.Publication.Backend.Publish.{
  to_authorized, to_signed, to_staged, remotely_verified, to_post_verified, publish,
}

abbrev job_count : Option Job → ℕ
job_count none = 0
job_count (some job) = 1 + job.fence

abbrev proof_count : Dict Text Attempt → ℕ
proof_count [] = 0
proof_count ((k, v) ∷ d) = length v.proofs + job_count v.outbox + proof_count d

-- A digest that tells the states of the run apart
abbrev pub audit : Audit
audit = record {
  state_digest =
      λ t. t.head.generation ∷ length t.attempts ∷ proof_count t.attempts ∷ length t.views ∷ [];
  event_digest = λ e. e.seq ∷ e.state_sha256;
  sign = λ e. e.seq ∷ e.state_sha256;
  verifies = λ e s. text_eq s (e.seq ∷ e.state_sha256);
  audit_key_sha256 = codes "audit";
  audit_key_identity = codes "audit";
}

abbrev pub clock : Clock
clock = record {
  entry = 100;
  inside = 100;
  before_audit = 100;
  audit = 100;
  after_audit = 100;
  at_commit = 100;
}

abbrev bindings : Bindings
bindings = record {
  proposal_sha256 = codes "p";
  candidate_sha256 = codes "c";
  promotion_group = codes "g";
  policy_sha256 = codes "policy";
  previous_stable_sha256 = none;
  result_stable_sha256 = some (codes "r");
  stable_set_sha256 = codes "s";
  evidence_sha256 = (codes "group-validation-claim", codes "e") ∷ [];
}

abbrev reasons : Reasons
reasons = record {
  mode = codes "normal";
  reason = none;
  previous_stable_snapshot_id = none;
  policy_version = 1;
  first_seen = codes "2026";
}

abbrev pub immutable : Immutable
immutable = record {
  proposal = record { bindings = bindings; reasons = reasons; dwell_met = true; others = [] };
  plan_sha256 = codes "plan";
  operation = promote;
  resume = none;
}

abbrev pub evidence_seen : Evidence
evidence_seen = record { bindings = bindings; sha256 = codes "e"; expiry = 200 }

abbrev pub whole : VerifiedResult
whole = record {
  sha256 = codes "r";
  plan_sha256 = codes "plan";
  receipt = codes "x";
  intact = true;
}

abbrev pub approval : Approval
approval = record {
  sha256 = codes "auth";
  expiry = 200;
  request = record {
    bindings = bindings;
    reasons = reasons;
    attempt_id = codes "a1";
    operation = promote;
    target_verified_sha256 = none;
    resume = none;
  };
  authenticated_evidence_sha256 = codes "e";
  approval_key_identity = codes "ka";
  witness_key_identity = codes "kw";
  approval_sha256 = codes "aa";
  witness_sha256 = codes "ww";
  jti = codes "j";
}

abbrev pub view : StagedView
view = record {
  sha256 = codes "r";
  envelope_sha256 = codes "env";
  authorization_sha256 = codes "auth";
  signing_key_identity = codes "ks";
  signing_key_sha256 = codes "kss";
  expires_at = 200;
  intact = true;
}

abbrev pub remote : Verification
remote = record {
  result_stable_sha256 = codes "r";
  publication_sha256 = codes "env";
  deployment_sha256 = codes "d";
  deployment_id = codes "i";
  git_commit = codes "git";
  verified_at = 90;
  phase = pre;
  advertised_generation = none;
  advertisement_checkpoint = none;
}

abbrev pub start : Db
start = record {
  tables = record {
    head = record { digest = none; generation = 0; last_verified = none };
    attempts = [];
    consumed = [];
    views = [];
  };
  events =
      record {
        seq = 1;
        event = record {
          seq = 1;
          parent_sha256 = none;
          operation = codes "initialize";
          attempt_id = none;
          at = 100;
          state_sha256 = 0 ∷ 0 ∷ 0 ∷ 0 ∷ [];
          audit_key_sha256 = codes "audit";
        };
        signature = 1 ∷ 0 ∷ 0 ∷ 0 ∷ 0 ∷ [];
      }
      ∷ [];
}

abbrev pub id : Text
id = codes "a1"

-- The audit row after `n` others: the digest before it, its operation, the digest after it
abbrev row_after : ℕ → Text → String → Text → Row
row_after n before operation after =
    let e : Event = record {
      seq = suc n;
      parent_sha256 = some (n ∷ before);
      operation = codes operation;
      attempt_id = some id;
      at = 100;
      state_sha256 = after;
      audit_key_sha256 = codes "audit";
    } in
    record { seq = suc n; event = e; signature = suc n ∷ after }

-- The attempt in a state, with its proofs
abbrev pub in_state : State → Dict State Proof → Attempt
in_state state proofs = record {
  attempt_id = id;
  reauthorized = none;
  state = state;
  immutable = immutable;
  base_generation = 0;
  proofs = proofs;
  outbox = none;
  failure = none;
}

abbrev stage_db : Attempt → List Row → Db
stage_db attempt rows = record {
  tables = record start.tables { attempts = (id, attempt) ∷ [] };
  events = start.events ++ rows;
}

-- The database with what the authorization has consumed
abbrev spent_db : Attempt → List Row → Db
spent_db attempt rows = record (stage_db attempt rows) {
  tables = record (stage_db attempt rows).tables {
    consumed =
        ((codes "approval", codes "aa"), id)
        ∷ ((codes "witness", codes "ww"), id)
        ∷ ((codes "jwt-jti", codes "j"), id)
        ∷ ((codes "authorization", codes "auth"), id)
        ∷ [];
  };
}

abbrev created_rows : List Row
created_rows = [] ++ row_after 1 (0 ∷ 0 ∷ 0 ∷ 0 ∷ []) "create-promote" (0 ∷ 1 ∷ 0 ∷ 0 ∷ []) ∷ []

abbrev pub created : Db
created = stage_db (in_state proposed []) created_rows

abbrev verified_proofs : Dict State Proof
verified_proofs = [] ++ (verified, evidence (codes "e")) ∷ []

abbrev verified_rows : List Row
verified_rows =
    created_rows ++ row_after 2 (0 ∷ 1 ∷ 0 ∷ 0 ∷ []) "VERIFIED" (0 ∷ 1 ∷ 1 ∷ 0 ∷ []) ∷ []

abbrev pub verified_db : Db
verified_db = stage_db (in_state verified verified_proofs) verified_rows

abbrev composed_proofs : Dict State Proof
composed_proofs = verified_proofs ++ (composed, result (codes "r") (codes "x")) ∷ []

abbrev composed_rows : List Row
composed_rows =
    verified_rows ++ row_after 3 (0 ∷ 1 ∷ 1 ∷ 0 ∷ []) "COMPOSED" (0 ∷ 1 ∷ 2 ∷ 0 ∷ []) ∷ []

abbrev pub composed_db : Db
composed_db = stage_db (in_state composed composed_proofs) composed_rows

abbrev tested_proofs : Dict State Proof
tested_proofs = composed_proofs ++ (tested, evidence (codes "e")) ∷ []

abbrev tested_rows : List Row
tested_rows = composed_rows ++ row_after 4 (0 ∷ 1 ∷ 2 ∷ 0 ∷ []) "TESTED" (0 ∷ 1 ∷ 3 ∷ 0 ∷ []) ∷ []

abbrev pub tested_db : Db
tested_db = stage_db (in_state tested tested_proofs) tested_rows

abbrev awaiting_proofs : Dict State Proof
awaiting_proofs = tested_proofs ++ (awaiting_approval, gate) ∷ []

abbrev awaiting_rows : List Row
awaiting_rows =
    tested_rows ++ row_after 5 (0 ∷ 1 ∷ 3 ∷ 0 ∷ []) "AWAITING_APPROVAL" (0 ∷ 1 ∷ 4 ∷ 0 ∷ []) ∷ []

abbrev pub awaiting_db : Db
awaiting_db = stage_db (in_state awaiting_approval awaiting_proofs) awaiting_rows

abbrev authorized_proofs : Dict State Proof
authorized_proofs = awaiting_proofs ++ (authorized, authorization (codes "auth") 200) ∷ []

abbrev authorized_rows : List Row
authorized_rows =
    awaiting_rows ++ row_after 6 (0 ∷ 1 ∷ 4 ∷ 0 ∷ []) "AUTHORIZED" (0 ∷ 1 ∷ 5 ∷ 0 ∷ []) ∷ []

abbrev pub authorized_db : Db
authorized_db = spent_db (in_state authorized authorized_proofs) authorized_rows

abbrev signed_proofs : Dict State Proof
signed_proofs = authorized_proofs ++ (signed, signature (codes "env") (codes "kss")) ∷ []

abbrev signed_rows : List Row
signed_rows = authorized_rows ++ row_after 7 (0 ∷ 1 ∷ 5 ∷ 0 ∷ []) "SIGNED" (0 ∷ 1 ∷ 6 ∷ 0 ∷ []) ∷ []

abbrev pub signed_db : Db
signed_db = spent_db (in_state signed signed_proofs) signed_rows

abbrev staged_proofs : Dict State Proof
staged_proofs = signed_proofs ++ (staged, staging (codes "env") (codes "r")) ∷ []

abbrev staged_rows : List Row
staged_rows = signed_rows ++ row_after 8 (0 ∷ 1 ∷ 6 ∷ 0 ∷ []) "STAGED" (0 ∷ 1 ∷ 7 ∷ 0 ∷ []) ∷ []

abbrev pub staged_db : Db
staged_db = spent_db (in_state staged staged_proofs) staged_rows

abbrev remote_proofs : Dict State Proof
remote_proofs = staged_proofs ++ (remote_verified, verification remote) ∷ []

abbrev remote_rows : List Row
remote_rows =
    staged_rows ++ row_after 9 (0 ∷ 1 ∷ 7 ∷ 0 ∷ []) "REMOTE_VERIFIED" (0 ∷ 1 ∷ 8 ∷ 0 ∷ []) ∷ []

abbrev pub remote_db : Db
remote_db = spent_db (in_state remote_verified remote_proofs) remote_rows

abbrev published_proofs : Dict State Proof
published_proofs = remote_proofs ++ (published, publication (codes "auth")) ∷ []

abbrev published_rows : List Row
published_rows =
    remote_rows ++ row_after 10 (0 ∷ 1 ∷ 8 ∷ 0 ∷ []) "PUBLISHED" (1 ∷ 1 ∷ 9 ∷ 0 ∷ []) ∷ []

abbrev pub published_db : Db
published_db =
    let db = spent_db (in_state published published_proofs) published_rows in
    record db {
      tables = record db.tables {
        head = record { digest = some (codes "r"); generation = 1; last_verified = none };
      };
    }

-- The staged attempt with its job, and with a lease of it
abbrev job : Job
job = record {
  immutable = record {
    result_sha256 = codes "r";
    publication_sha256 = codes "env";
    authorization_sha256 = codes "auth";
    expected_git = none;
  };
  fence = 0;
  owner = none;
  lease_until = 0;
  status = pending;
}

abbrev queued_rows : List Row
queued_rows =
    staged_rows ++ row_after 9 (0 ∷ 1 ∷ 7 ∷ 0 ∷ []) "outbox-enqueue" (0 ∷ 1 ∷ 8 ∷ 0 ∷ []) ∷ []

abbrev pub queued_db : Db
queued_db = spent_db (record (in_state staged staged_proofs) { outbox = some job }) queued_rows

abbrev pub claimed_db : Db
claimed_db =
    spent_db
      (record (in_state staged staged_proofs) {
        outbox = some (record job { fence = 1; owner = some (codes "w"); lease_until = 130 });
      })
      (queued_rows ++ row_after 10 (0 ∷ 1 ∷ 8 ∷ 0 ∷ []) "outbox-claim" (0 ∷ 1 ∷ 9 ∷ 0 ∷ []) ∷ [])

-- The attempt and the tip of a database of the run
abbrev pub at : Db → Attempt
at db = elim (lookup id db.tables.attempts) [ none ↦ new_attempt id immutable 0 | some v ↦ v ]

abbrev newest_row : List Row → Checkpoint
newest_row [] = record { seq = 0; sha256 = [] }
newest_row (row ∷ []) = record { seq = row.seq; sha256 = row.signature }
newest_row (row ∷ next ∷ rows) = newest_row (next ∷ rows)

abbrev pub tip : Db → Checkpoint
tip db = newest_row db.events
