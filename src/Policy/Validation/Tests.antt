-- ===== src/Policy/Validation/Tests.antt =====
-- A claim with a passed check of every test that its one package needs.
use native.Mathlib.Decide.{ℕ_discrete}
use ro_repo.Base.{refl, true, false, none, some, List, [], ◌∷◌, ◌++◌, map}
use ro_repo.Base.Text.{Text, codes}
use ro_repo.Base.Dict.{lookup, contains, insert}
use ro_repo.Planner.Nevra.{Package}
use ro_repo.Planner.Registry.{typed}
use ro_repo.Planner.Plan.{Plan}
use ro_repo.Policy.Profile.{tests, Component, registry, Registry}
use ro_repo.Policy.Validation.{null, text, baseline, Check, check, ClaimFields, Readers, Assessment}
use ro_repo.Policy.Validation.Consistent.{Consistent, validate_claim-Consistent}
use ro_repo.Base.Text.{is_digit, is_alpha, rsplit, is_space, add_text, add_texts}
use ro_repo.Planner.Nevra.{
  is_hex, is_digest, name_char, version_char, is_word, in_block, is_decimal, digit_in, int_from,
  int, split_nevra, well_formed, has_empty_field, has_digests, fits, parse_package,
}
use ro_repo.Planner.Registry.{add_names, add_component, add_components, add_producers, policies}
use ro_repo.Planner.Packages.{
  add_package, add_entry, add_entries, has_binary, has_orphan, snapshot_packages, packages,
  group_of,
}
use ro_repo.Planner.Candidate.{select_by, parse_all}
use ro_repo.Policy.Dwell.{offset_for_z, is_sha, is_run}
use ro_repo.Policy.Profile.{
  planner_view, floor_of, find_in, find_group, texts_of, check_tests, is_risk, profile_of, profile,
  groups_in, check_arches, check_member_groups, require_complete,
}
use ro_repo.Policy.Validation.{
  is_snapshot, check_identity, check_run, arches_of, check_baselines, check_fields, check_checks,
  policy_tests, check_evidence, validate_claim,
}

abbrev digest : Text
digest = codes "0123456789abcdef0123456789abcdef0123456789abcdef0123456789abcdef"

abbrev app : Package
app = record {
  nevra = codes "app-0:1.0-1.x86_64";
  filename = codes "app-1.0-1.x86_64.rpm";
  architecture = codes "x86_64";
  producer_manifest_digest = digest;
  producer_artifact_sha256 = digest;
  published_signed_artifact_sha256 = digest;
  extra = [];
}

abbrev component : Component
component = record {
  fields = typed (record {
    promotion_group = codes "apps";
    package_names = codes "app" ∷ [];
    architectures = codes "x86_64" ∷ [];
    component = codes "app";
    require_complete_architecture_set = true;
  });
  risk_class = some (codes "critical-system");
  required_tests = tests (some (codes "open") ∷ []);
  trusted_signer_workflow = none;
}

abbrev the_registry : Registry
the_registry = registry (record {
  fedora_release = 44;
  producers = record { repository = some (codes "r"); components = component ∷ [] } ∷ [];
})

abbrev the_plan : Plan
the_plan = record {
  schema_version = 1;
  scope = codes "offline";
  promotion_group = codes "apps";
  candidate_sha256 = digest;
  candidate_snapshot_id = some (codes "repo-f44-20260101-001");
  stable_base_snapshot_id = none;
  replaced_group_packages = [];
  selected_group_packages = app ∷ [];
  resulting_stable_packages = app ∷ [];
  unchanged_stable_package_count = 0;
  requires_signature_validation = true;
  requires_dnf_dependency_validation = true;
  publishable = false;
}

abbrev sha : Registry → Text
sha r = codes "s"

abbrev required : List Text
required =
    codes "boot"
    ∷ codes "clean-install"
    ∷ codes "dependency-solve"
    ∷ codes "file-conflict"
    ∷ codes "open"
    ∷ codes "qemu"
    ∷ codes "reboot"
    ∷ codes "recovery"
    ∷ codes "rpmlint"
    ∷ codes "smoke"
    ∷ codes "upgrade"
    ∷ []

abbrev readers : Readers
readers = record { sha_packages = λ ps. codes "set"; sha_registry = sha; is_iso_time = λ t. true }

abbrev check_of : Text → Check
check_of name = check (record {
  architecture = some (codes "x86_64");
  name = some name;
  result = some (codes "pass");
  candidate_sha256 = some digest;
  stable_set_sha256 = some (codes "set");
  runner_image_digest = some (codes "sha256:" ++ digest);
  log_sha256 = some digest;
})

abbrev the_claim : ClaimFields
the_claim = record {
  promotion_group = text (codes "apps");
  candidate_sha256 = text digest;
  beta_snapshot_id = text (codes "repo-f44-20260101-001");
  stable_base_snapshot_id = null;
  stable_set_sha256 = text (codes "set");
  validation_run = text (codes "7");
  workflow_identity = text (codes "w");
  tested_at = text (codes "2026-01-01T00:00:00Z");
  baselines = some (baseline (some (codes "x86_64")) (some (codes "f44")) (some digest) ∷ []);
  checks = some (map check_of required);
}

abbrev assessment : Assessment
assessment = record {
  promotion_group = codes "apps";
  candidate_sha256 = digest;
  stable_set_sha256 = codes "set";
  required_tests = required;
  architectures = codes "x86_64" ∷ [];
  claim_consistent = true;
  evidence_authenticity_verified = false;
  approval_granted = false;
  publishable = false;
}

validate_claim-Consistent_example : Consistent readers the_plan the_registry the_claim
unfolding ℕ_discrete lookup contains insert is_digit is_alpha rsplit is_space add_text add_texts
    is_hex is_digest name_char version_char is_word in_block is_decimal digit_in int_from int
    split_nevra well_formed has_empty_field has_digests fits parse_package add_names add_component
    add_components add_producers policies add_package add_entry add_entries has_binary has_orphan
    snapshot_packages packages group_of select_by parse_all offset_for_z is_sha is_run planner_view
    floor_of find_in find_group texts_of check_tests is_risk profile_of profile groups_in
    check_arches check_member_groups require_complete is_snapshot check_identity check_run arches_of
    check_baselines check_fields check_checks policy_tests check_evidence validate_claim
validate_claim-Consistent_example =
    validate_claim-Consistent readers the_plan the_registry the_claim assessment refl
