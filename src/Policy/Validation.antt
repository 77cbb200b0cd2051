-- ===== src/Policy/Validation.antt =====
-- tools/v3_group_validation.py: the claims that a group was tested, checked against its plan.
pub mod Consistent
mod Tests
use ro_repo.Base.{
  ℕ, Bool, true, false, Option, none, some, List, [], ◌∷◌, Result, ok, err, ◌>>=◌, ◌>>◌, raise_if,
  or_raise, not, all, any, leb, ◌==◌, ◌&&◌, ◌||◌, if◌then◌else◌, is_empty, length,
}
use ro_repo.Base.Text.{
  Text, codes, text_eq, has_text, ends_with, rsplit, is_digit, is_blank, add_text, add_texts,
}
use ro_repo.Base.Dict.{text_key, contains}
use ro_repo.Planner.Nevra.{Package}
use ro_repo.Planner.Registry.{policies}
use ro_repo.Planner.Plan.{Plan}
use ro_repo.Policy.Dwell.{is_sha, is_run, offset_for_z}
use ro_repo.Policy.Profile.{
  RequiredTests, no_list, tests, texts_of, Registry, planner_view, producers_of, Found, find_group,
  profile, is_risk, base_tests, desktop_tests, system_tests,
}

-- A JSON value where a text or `null` is compared
pub data Value : Type 0 where
  null other : Value
  text : Text → Value

-- An entry of `baselines`; a field that is no text is absent.
pub data Baseline : Type 0 where
  malformed : Baseline
  baseline : Option Text → Option Text → Option Text → Baseline

pub record CheckFields : Type 0 where
  pub architecture : Option Text
  pub name : Option Text
  pub result : Option Text
  pub candidate_sha256 : Option Text
  pub stable_set_sha256 : Option Text
  pub runner_image_digest : Option Text
  pub log_sha256 : Option Text

-- An entry of `checks`
pub data Check : Type 0 where
  no_check : Check
  check : CheckFields → Check

-- A claim with the expected keys, the version 3 and the scope `v3-group-validation-claim`
pub record ClaimFields : Type 0 where
  pub promotion_group : Value
  pub candidate_sha256 : Value
  pub beta_snapshot_id : Value
  pub stable_base_snapshot_id : Value
  pub stable_set_sha256 : Value
  pub validation_run : Value
  pub workflow_identity : Value
  pub tested_at : Value
  -- none where it is no list
  pub baselines : Option (List Baseline)
  pub checks : Option (List Check)

pub data Claim : Type 0 where
  no_claim invalid : Claim
  claim : ClaimFields → Claim

-- The digest of the packages, of the registry, and `datetime.fromisoformat`
pub record Readers : Type 0 where
  pub sha_packages : List Package → Text
  pub sha_registry : Registry → Text
  pub is_iso_time : Text → Bool

abbrev pub is_text : Value → Text → Bool
is_text (text t) s = text_eq t s
is_text _ s = false

-- What the plan has under a key that may hold `None`
abbrev pub is_option : Value → Option Text → Bool
is_option null none = true
is_option (text t) (some s) = text_eq t s
is_option _ _ = false

-- `repo-f44-[0-9]{8}-[0-9]{3}`
unfoldable pub is_snapshot : Text → Bool
is_snapshot t = elim (rsplit b'-' t) [
  | none ↦ false
  | some (head, serial) ↦ elim (rsplit b'-' head) [
    | none ↦ false
    | some (repo, date) ↦
        text_eq repo (codes "repo-f44")
        && (length date == 8)
        && all is_digit date
        && (length serial == 3)
        && all is_digit serial
  ]
]

abbrev pub passes : (Text → Bool) → Value → Bool
passes p (text t) = p t
passes p _ = false

abbrev pub passes_option : (Text → Bool) → Option Text → Bool
passes_option p (some t) = p t
passes_option p none = false

-- The identity of what was tested
unfoldable pub check_identity : Text → Plan → ClaimFields → Result (Unit {0})
check_identity stable_set plan c = do
  raise_if
      (not (is_text c.promotion_group plan.promotion_group)
        || not (is_text c.candidate_sha256 plan.candidate_sha256)
        || not (is_option c.beta_snapshot_id plan.candidate_snapshot_id)
        || not (is_option c.stable_base_snapshot_id plan.stable_base_snapshot_id)
        || not (is_text c.stable_set_sha256 stable_set))
      "test evidence identity mismatch"
  raise_if (not (passes is_sha c.candidate_sha256)) "bad candidate digest"
  raise_if (not (passes is_snapshot c.beta_snapshot_id)) "bad beta snapshot ID"

-- The run, the workflow and the time
unfoldable pub check_run : Readers → ClaimFields → Result (Unit {0})
check_run w c = do
  raise_if (not (passes is_run c.validation_run)) "bad validation run"
  raise_if (not (passes (λ (t : Text). not (is_blank t)) c.workflow_identity))
      "missing workflow identity"
  raise_if (not (passes (ends_with (codes "Z")) c.tested_at)) "missing UTC validation timestamp"
  raise_if (not (passes (λ (t : Text). w.is_iso_time (offset_for_z t)) c.tested_at)) "bad tested_at"

-- `ARCH`
abbrev pub binary_arches : List Text
binary_arches = codes "x86_64" ∷ codes "aarch64" ∷ []

-- `source_arches`: the binary architectures that the packages are for
unfoldable pub arches_of : List Package → List Text
arches_of [] = []
arches_of (p ∷ ps) =
    let rest = arches_of ps in
    if has_text p.architecture binary_arches
    then add_text p.architecture rest
    else if text_eq p.architecture (codes "noarch")
    then add_texts binary_arches rest
    else rest

-- The loop over the baselines
unfoldable pub check_baselines : List Text → List Text → List Baseline → Result (Unit {0})
check_baselines arches seen [] = ok tt
check_baselines arches seen (malformed ∷ bs) = err "malformed baseline"
check_baselines arches seen (baseline none source digest ∷ bs) =
    err "unexpected baseline architecture"
check_baselines arches seen (baseline (some a) source digest ∷ bs) = do
  raise_if (not (has_text a arches) || has_text a seen) "unexpected baseline architecture"
  raise_if
      (not (passes_option (λ (t : Text). not (is_blank t)) source)
        || not (passes_option is_sha digest))
      "missing pinned baseline source/digest"
  check_baselines arches (a ∷ seen) bs

-- `sha256:[0-9a-f]{64}`
abbrev pub is_image : Text → Bool
is_image (c1 ∷ c2 ∷ c3 ∷ c4 ∷ c5 ∷ c6 ∷ c7 ∷ t) =
    text_eq (c1 ∷ c2 ∷ c3 ∷ c4 ∷ c5 ∷ c6 ∷ c7 ∷ []) (codes "sha256:") && is_sha t
is_image _ = false

abbrev pub has_pair : Text → Text → List (Text × Text) → Bool
has_pair a n [] = false
has_pair a n ((b, m) ∷ ps) = (text_eq a b && text_eq n m) || has_pair a n ps

-- One entry of the checks, with its architecture and its name
unfoldable pub check_fields :
    Plan → Text → List Text → List Text → List (Text × Text) → Check → Result (Text × Text)
check_fields plan stable_set arches allowed seen no_check = err "malformed test evidence"
check_fields plan stable_set arches allowed seen (check c) = do
  a ← or_raise c.architecture "unexpected or duplicate test evidence"
  name ← or_raise c.name "unexpected or duplicate test evidence"
  raise_if (not (has_text a arches) || not (has_text name allowed) || has_pair a name seen)
      "unexpected or duplicate test evidence"
  raise_if
      (not (passes_option (text_eq (codes "pass")) c.result)
        || not (passes_option (text_eq plan.candidate_sha256) c.candidate_sha256)
        || not (passes_option (text_eq stable_set) c.stable_set_sha256))
      "failed or mismatched test evidence"
  raise_if (not (passes_option is_image c.runner_image_digest)) "unpinned test environment"
  raise_if (not (passes_option is_sha c.log_sha256)) "missing test-log hash"
  ok (a, name)

-- The loop over the checks; it returns what `seen` holds at its end.
unfoldable pub check_checks :
    Plan
    → Text
    → List Text
    → List Text
    → List (Text × Text)
    → List Check
    → Result (List (Text × Text))
check_checks plan stable_set arches allowed seen [] = ok seen
check_checks plan stable_set arches allowed seen (c ∷ cs) = do
  pair ← check_fields plan stable_set arches allowed seen c
  check_checks plan stable_set arches allowed (pair ∷ seen) cs

-- No required test is missing on any architecture.
abbrev pub covers : List Text → List Text → List (Text × Text) → Bool
covers arches required seen =
    all (λ (a : Text). all (λ (t : Text). has_pair a t seen) required) arches

pub record Assessment : Type 0 where
  pub promotion_group : Text
  pub candidate_sha256 : Text
  pub stable_set_sha256 : Text
  pub required_tests : List Text
  pub architectures : List Text
  pub claim_consistent : Bool
  pub evidence_authenticity_verified : Bool
  pub approval_granted : Bool
  pub publishable : Bool

-- `set(policy.get("required_tests", []))`, of a list that the profile has checked
abbrev pub listed_tests : RequiredTests → List Text
listed_tests no_list = []
listed_tests (tests ts) = elim (texts_of ts) [ none ↦ [] | some l ↦ l ]

abbrev pub allowed_tests : Found → List Text
allowed_tests found = add_texts base_tests (
    add_texts desktop_tests
      (add_texts system_tests (add_texts (listed_tests found.component.required_tests) [])))

-- The tests that the policy requires of the group, and those that it allows; no two components of a
-- registry that is accepted have one group, so the last one is the first.
unfoldable pub policy_tests : Readers → Registry → Plan → Result (List Text × List Text)
policy_tests w r plan = do
  raise_if plan.publishable "plan is missing or wrongly marked publishable"
  s ← policies (planner_view r)
  raise_if (not (contains plan.promotion_group s.groups)) "unknown promotion group"
  found ← or_raise (find_group plan.promotion_group (producers_of r)) "missing group policy"
  p ← profile w.sha_registry r plan.promotion_group
  raise_if (not (passes_option is_risk found.component.risk_class)) "invalid risk class"
  ok (p.required_tests, allowed_tests found)

-- The baselines and the checks of a claim, for the architectures of the plan
unfoldable pub check_evidence :
    Plan → Text → List Text → List Text → List Text → ClaimFields → Result (Unit {0})
check_evidence plan stable_set arches required allowed c = do
  raise_if (is_empty arches) "candidate has no binary architecture"
  bs ← or_raise c.baselines "missing or duplicate architecture baseline"
  raise_if (not (length bs == length arches)) "missing or duplicate architecture baseline"
  check_baselines arches [] bs
  cs ← or_raise c.checks "missing tests"
  raise_if (is_empty cs) "missing tests"
  seen ← check_checks plan stable_set arches allowed [] cs
  raise_if (not (covers arches required seen)) "required architecture tests missing"

-- `validate_claim`
unfoldable pub validate_claim : Readers → Plan → Registry → Claim → Result Assessment
validate_claim w plan r no_claim = do both ← policy_tests w r plan; err "missing validation claim"
validate_claim w plan r invalid = do both ← policy_tests w r plan; err "invalid evidence contract"
validate_claim w plan r (claim c) = do
  (required, allowed) ← policy_tests w r plan
  let stable_set = w.sha_packages plan.resulting_stable_packages
  let arches = arches_of plan.resulting_stable_packages
  check_identity stable_set plan c
  check_run w c
  check_evidence plan stable_set arches required allowed c
  ok (record {
    promotion_group = plan.promotion_group;
    candidate_sha256 = plan.candidate_sha256;
    stable_set_sha256 = stable_set;
    required_tests = required;
    architectures = arches;
    claim_consistent = true;
    evidence_authenticity_verified = false;
    approval_granted = false;
    publishable = false;
  })
