-- ===== src/Publication/Records.antt =====
-- The rows of the publication ledger of tools/v3_backend_ledger.py, with the attempts of
-- tools/v3_publication_backend.py; an attempt's `proofs` are those of its stages. A row's JSON is a
-- record; a key that may be absent is an option.
use native.Mathlib.Decide.{ℕ_discrete}
use ro_repo.Base.{refl, ℕ, ◌≡◌, ◌↔◌, Bool, true, false, Option, none, some, List, arith}
use ro_repo.Base.Text.{Text, text_eq, text_eq_iff}
use ro_repo.Base.Dict.{Dict, Key}

-- `STATES`, and `FAILED`
pub data State : Type 0 where
  proposed verified composed tested awaiting_approval authorized : State
  signed staged remote_verified published post_verified failed : State

-- The row of the table `head`
pub record Head : Type 0 where
  pub digest : Option Text
  pub generation : ℕ
  pub last_verified : Option Text

pub data Phase : Type 0 where
  pre post : Phase

pub record Checkpoint : Type 0 where
  pub seq : ℕ
  pub sha256 : Text

-- `RemoteVerification.data`
pub record Verification : Type 0 where
  pub result_stable_sha256 : Text
  pub publication_sha256 : Text
  pub deployment_sha256 : Text
  pub deployment_id : Text
  pub git_commit : Text
  pub verified_at : ℕ
  pub phase : Phase
  pub advertised_generation : Option ℕ
  pub advertisement_checkpoint : Option Checkpoint

-- What `proofs[state]` holds.
pub data Proof : Type 0 where
  evidence : Text → Proof
  result : Text → Text → Proof
  gate : Proof
  authorization : Text → ℕ → Proof
  signature : Text → Text → Proof
  staging : Text → Text → Proof
  verification : Verification → Proof
  publication : Text → Proof

pub data Operation : Type 0 where
  promote recover resume_first : Operation

-- What `bindings` takes from a proposal.
pub record Bindings : Type 0 where
  pub proposal_sha256 : Text
  pub candidate_sha256 : Text
  pub promotion_group : Text
  pub policy_sha256 : Text
  pub previous_stable_sha256 : Option Text
  pub result_stable_sha256 : Option Text
  pub stable_set_sha256 : Text
  pub evidence_sha256 : Dict Text Text

-- The other keys of `BINDINGS` in tools/v3_authorization.py
pub record Reasons : Type 0 where
  pub mode : Text
  pub reason : Option Text
  pub previous_stable_snapshot_id : Option Text
  pub policy_version : ℕ
  pub first_seen : Text

pub record Proposal : Type 0 where
  pub bindings : Bindings
  pub open bindings use *
  pub reasons : Reasons
  pub open reasons use *
  pub dwell_met : Bool
  -- the other keys, which the backend only compares
  pub others : Text

-- What `_first_resume_binding` says of the attempt that is resumed.
pub record Resume : Type 0 where
  pub predecessor : Text
  pub checkpoint : Checkpoint
  pub authorization_sha256 : Text
  pub publication_sha256 : Text
  pub storage_commit : Text

pub record Immutable : Type 0 where
  pub proposal : Proposal
  pub plan_sha256 : Text
  pub operation : Operation
  pub resume : Option Resume

pub record Failure : Type 0 where
  pub stage : State
  pub reason : Text
  pub needs_fresh_recovery : Bool

-- What `request` of tools/v3_authorization.py returns.
pub record Request : Type 0 where
  pub bindings : Bindings
  pub reasons : Reasons
  pub attempt_id : Text
  pub operation : Operation
  pub target_verified_sha256 : Option Text
  pub resume : Option Resume

pub data JobStatus : Type 0 where
  pending advertised complete job_failed : JobStatus

-- `job["immutable"]`
pub record JobKey : Type 0 where
  pub result_sha256 : Text
  pub publication_sha256 : Text
  pub authorization_sha256 : Text
  pub expected_git : Option Text

-- `proofs["OUTBOX"]`, without its receipts
pub record Job : Type 0 where
  pub immutable : JobKey
  pub fence : ℕ
  pub owner : Option Text
  pub lease_until : ℕ
  pub status : JobStatus

-- `proofs["REAUTHORIZED"]`
pub record Reauthorized : Type 0 where
  pub observation_sha256 : Text
  pub resume : Resume

pub record Attempt : Type 0 where
  pub attempt_id : Text
  pub state : State
  pub immutable : Immutable
  pub base_generation : ℕ
  pub proofs : Dict State Proof
  -- `proofs["REAUTHORIZED"]`, which is no stage
  pub reauthorized : Option Reauthorized
  pub outbox : Option Job
  pub failure : Option Failure

-- A row of `views`; its state is always POST_VERIFIED
pub record View : Type 0 where
  pub result_stable_sha256 : Text
  pub first_attempt : Text
  pub seen : Verification

-- What the state digest covers.
pub record Tables : Type 0 where
  pub head : Head
  pub attempts : Dict Text Attempt
  pub consumed : Dict (Text × Text) Text
  pub views : Dict Text View

pub record Event : Type 0 where
  pub seq : ℕ
  pub parent_sha256 : Option Text
  pub operation : Text
  pub attempt_id : Option Text
  pub at : ℕ
  pub state_sha256 : Text
  pub audit_key_sha256 : Text

-- A row of `events`
pub record Row : Type 0 where
  pub seq : ℕ
  pub event : Event
  pub signature : Text

pub record Db : Type 0 where
  pub tables : Tables
  pub events : List Row

abbrev pub Text-discrete : Discrete Text
Text-discrete = hlevel ℕ_discrete

abbrev pub State-discrete : Discrete State
State-discrete = hlevel

abbrev pub Proof-discrete : Discrete Proof
Proof-discrete = hlevel ℕ_discrete

abbrev pub Immutable-discrete : Discrete Immutable
Immutable-discrete = hlevel ℕ_discrete

abbrev pub Resume-discrete : Discrete Resume
Resume-discrete = hlevel ℕ_discrete

abbrev pub Request-discrete : Discrete Request
Request-discrete = hlevel ℕ_discrete

abbrev pub Bindings-discrete : Discrete Bindings
Bindings-discrete = hlevel ℕ_discrete

abbrev pub Phase-discrete : Discrete Phase
Phase-discrete = hlevel

abbrev pub Operation-discrete : Discrete Operation
Operation-discrete = hlevel

abbrev pub JobKey-discrete : Discrete JobKey
JobKey-discrete = hlevel ℕ_discrete

abbrev pub JobStatus-discrete : Discrete JobStatus
JobStatus-discrete = hlevel

abbrev pub Verification-discrete : Discrete Verification
Verification-discrete = hlevel ℕ_discrete

abbrev is_yes {ℓ} : {P : Type ℓ} → Dec P → Bool
is_yes (yes h) = true
is_yes (no h) = false

is_yes_iff {ℓ} : {P : Type ℓ} (d : Dec P) → (is_yes d ≡ true) ↔ P
is_yes_iff (yes h) = (λ e. h, λ p. refl)
is_yes_iff (no h) = (λ e. cc, λ p. absurd (h p))

-- `==` of JSON values whose equality is decided
abbrev pub same_by {ℓ} : {A : Type ℓ} → Discrete A → A → A → Bool
same_by d a b = is_yes (d a b)

pub same_by_iff {ℓ} : {A : Type ℓ} (d : Discrete A) (a b : A) → (same_by d a b ≡ true) ↔ (a ≡ b)
same_by_iff d a b = is_yes_iff (d a b)

instance abbrev pub state_key : Key State
state_key = record { same = same_by State-discrete; same_iff = same_by_iff State-discrete }

abbrev pub option_text_eq : Option Text → Option Text → Bool
option_text_eq none none = true
option_text_eq none (some t) = false
option_text_eq (some s) none = false
option_text_eq (some s) (some t) = text_eq s t

pub option_text_eq_iff : (s t : Option Text) → (option_text_eq s t ≡ true) ↔ (s ≡ t)
option_text_eq_iff none none = ground arith
option_text_eq_iff none (some t) = ground arith
option_text_eq_iff (some s) none = ground arith
option_text_eq_iff (some s) (some t) = ground (arith, text_eq_iff s t)
