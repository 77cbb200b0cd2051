-- ===== src/Planner/Tests.antt =====
-- A small registry with two groups, a stable snapshot and a candidate; the theorems at these inputs.
use ro_repo.Base.{
  ◌≡◌, ◌↔◌, ◌≢◌, refl, true, false, none, some, List, [], ◌∷◌, Result, ok, err, ◌⊎◌, inl, inr,
  arith,
}
use ro_repo.Base.Text.{Text, codes}
use ro_repo.Base.Text.{is_digit, is_alpha, rsplit}
use ro_repo.Planner.Version.{
  Sign, less, more, flip, is_mark, strip, starts, rest, head_is_digit, compare_segments, wanted,
  cut, segments, marked, round, version_loop, version_compare,
}
use ro_repo.Planner.Nevra.{
  Package, well_typed, is_hex, is_digest, name_char, version_char, is_word, in_block, is_decimal,
  digit_in, int_from, int, split_nevra, well_formed, has_empty_field, has_digests, fits,
  parse_package, evr_order, evr_compare,
}
use ro_repo.Planner.Registry.{
  Component, typed, Registry, producers, Policies, no_policies, GroupPolicy, add_names,
  add_component, add_components, add_producers, policies,
}
use ro_repo.Planner.Packages.{
  Packages, Manifest, manifest, Identity, add_package, add_entry, add_entries, has_binary,
  has_orphan, snapshot_packages, packages, group_of,
}
use ro_repo.Planner.Candidate.{
  select_by, parse_all, is_incomplete, from_source, check_source, check_group, verify_candidate,
}
use ro_repo.Planner.Plan.{
  Plan, groups_of, verify_retained, index_from, without, add_all, package_eq, holds,
  check_unrelated, check_update, check_previous, check_updates, key_lt, place, sorted, promote,
  plan,
}
use ro_repo.Planner.Plan.Promotion.{resulting_iff, selected_iff, no_downgrade}
use ro_repo.Planner.Packages.Index.{HasKey, IsIndexed, packages-IsIndexed}
use ro_repo.Planner.Registry.Owners.{IsPartition, policies-IsPartition}
use ro_repo.Planner.Candidate.Release.{IsRelease, verify_candidate-IsRelease}
use ro_repo.Planner.Nevra.RoundTrip.{render, parse_package_iff}
use ro_repo.Planner.Nevra.Order.{evr_compare-flip}
use ro_repo.Planner.Version.Loop.{version_compare-total, version_compare-flip}
use ro_repo.Planner.Nevra.{Nevra}
use ro_repo.Base.Dict.{In, values, lookup, contains, insert}

abbrev sha : Text
sha = codes "0123456789abcdef0123456789abcdef0123456789abcdef0123456789abcdef"

abbrev other_sha : Text
other_sha = codes "fedcba9876543210fedcba9876543210fedcba9876543210fedcba9876543210"

abbrev package_of : Text → Text → Text → Package
package_of nevra filename arch = record {
  nevra = nevra;
  filename = filename;
  architecture = arch;
  producer_manifest_digest = sha;
  producer_artifact_sha256 = sha;
  published_signed_artifact_sha256 = sha;
  extra = [];
}

abbrev app_1 : Package
app_1 = package_of (codes "app-0:1.0-1.x86_64") (codes "app-1.0-1.x86_64.rpm") (codes "x86_64")

abbrev app_1_src : Package
app_1_src = package_of (codes "app-0:1.0-1.src") (codes "app-1.0-1.src.rpm") (codes "src")

abbrev app_2 : Package
app_2 = package_of (codes "app-0:1.10-1.x86_64") (codes "app-1.10-1.x86_64.rpm") (codes "x86_64")

abbrev app_2_src : Package
app_2_src = package_of (codes "app-0:1.10-1.src") (codes "app-1.10-1.src.rpm") (codes "src")

abbrev lib_1 : Package
lib_1 = package_of (codes "lib-2:3-1.noarch") (codes "lib-3-1.noarch.rpm") (codes "noarch")

abbrev lib_1_src : Package
lib_1_src = package_of (codes "lib-2:3-1.src") (codes "lib-3-1.src.rpm") (codes "src")

abbrev component_of : Text → Text → Text → Component
component_of group name arch = typed (record {
  promotion_group = group;
  package_names = name ∷ [];
  architectures = arch ∷ [];
  component = name;
  require_complete_architecture_set = true;
})

abbrev registry : Registry
registry = producers (
    (component_of (codes "apps") (codes "app") (codes "x86_64") ∷ [])
    ∷ (component_of (codes "libs") (codes "lib") (codes "noarch") ∷ [])
    ∷ [])

abbrev stable_snapshot : Manifest
stable_snapshot = manifest (record {
  fedora_release = 44;
  packages = well_typed app_1 ∷ well_typed app_1_src ∷ well_typed lib_1 ∷ well_typed lib_1_src ∷ [];
  snapshot_id = some (codes "repo-f44-20260101-001");
})

abbrev candidate_snapshot : Manifest
candidate_snapshot = manifest (record {
  fedora_release = 44;
  packages = well_typed app_2 ∷ well_typed app_2_src ∷ [];
  snapshot_id = some (codes "repo-f44-20260102-001");
})

-- The result's value where there is one.
abbrev or_else {ℓ} : {A : Type ℓ} → A → Result A → A
or_else d (ok a) = a
or_else d (err e) = d

abbrev no_digest : List Package → Text
no_digest ps = sha

-- The runs open every function of the planner.
run_policies : Result Policies
unfolding add_names add_component add_components add_producers policies lookup contains insert
run_policies = policies registry

run : Result Plan
unfolding run_policies is_digit is_alpha rsplit flip is_mark strip starts rest head_is_digit
    compare_segments wanted cut segments marked round version_loop version_compare is_hex is_digest
    name_char version_char is_word in_block is_decimal digit_in int_from int split_nevra well_formed
    has_empty_field has_digests fits parse_package evr_order evr_compare add_names add_component
    add_components add_producers policies add_package add_entry add_entries has_binary has_orphan
    snapshot_packages packages group_of select_by parse_all is_incomplete from_source check_source
    check_group verify_candidate groups_of verify_retained index_from without add_all package_eq
    holds check_unrelated check_update check_previous check_updates key_lt place sorted promote plan
run = plan no_digest candidate_snapshot stable_snapshot registry (codes "apps")

run_result :
    or_else [] (elim run [ ok r ↦ ok r.resulting_stable_packages | err e ↦ err e ])
    ≡ app_2_src ∷ app_2 ∷ lib_1 ∷ lib_1_src ∷ []
unfolding run
run_result = refl

abbrev no_plan : Plan
no_plan = record {
  schema_version = 0;
  scope = [];
  promotion_group = [];
  candidate_sha256 = [];
  candidate_snapshot_id = none;
  stable_base_snapshot_id = none;
  replaced_group_packages = [];
  selected_group_packages = [];
  resulting_stable_packages = [];
  unchanged_stable_package_count = 0;
  requires_signature_validation = false;
  requires_dnf_dependency_validation = false;
  publishable = false;
}

planned : Plan
unfolding run
planned = or_else no_plan run

the_policies : Policies
unfolding run_policies
the_policies = or_else no_policies run_policies

the_stable : Packages
unfolding run the_policies
the_stable = or_else [] (packages the_policies.owner true stable_snapshot)

the_candidate : Packages
unfolding run the_policies
the_candidate = or_else [] (packages the_policies.owner false candidate_snapshot)

planned_ok : plan no_digest candidate_snapshot stable_snapshot registry (codes "apps") ≡ ok planned
unfolding planned
planned_ok = refl

policies_ok : policies registry ≡ ok the_policies
unfolding the_policies
policies_ok = refl

stable_ok : packages the_policies.owner true stable_snapshot ≡ ok the_stable
unfolding the_stable
stable_ok = refl

candidate_ok : packages the_policies.owner false candidate_snapshot ≡ ok the_candidate
unfolding the_candidate
candidate_ok = refl

resulting_iff_example : In lib_1 planned.resulting_stable_packages ↔ (
    In lib_1 planned.selected_group_packages
    ⊎ (In lib_1 (values the_stable) × (¬ (group_of the_policies.owner lib_1 ≡ ok (codes "apps")))))
resulting_iff_example =
    resulting_iff no_digest candidate_snapshot stable_snapshot registry (codes "apps") planned
      the_policies planned_ok policies_ok the_stable stable_ok lib_1

selected_iff_example :
    In app_2 planned.selected_group_packages
    ↔ (In app_2 (values the_candidate) × (group_of the_policies.owner app_2 ≡ ok (codes "apps")))
selected_iff_example =
    selected_iff no_digest candidate_snapshot stable_snapshot registry (codes "apps") planned
      the_policies planned_ok policies_ok the_candidate candidate_ok app_2

app_2_selected : In app_2 planned.selected_group_packages
unfolding planned
app_2_selected = inr (inl refl)

app_1_stable : In app_1 (values the_stable)
unfolding the_stable
app_1_stable = inl refl

app_1_group : group_of the_policies.owner app_1 ≡ ok (codes "apps")
unfolding the_stable
app_1_group = refl

abbrev app_key : Identity
app_key = (codes "app", codes "x86_64")

abbrev nevra_of : Text → Text → Nevra
nevra_of version arch = record {
  name = codes "app";
  epoch = codes "0";
  version = version;
  release = codes "1";
  arch = arch;
}

app_2_key : HasKey app_key app_2
unfolding run
app_2_key = record { parsed = nevra_of (codes "1.10") (codes "x86_64"); parses = refl; key = refl }

app_1_key : HasKey app_key app_1
unfolding run
app_1_key = record { parsed = nevra_of (codes "1.0") (codes "x86_64"); parses = refl; key = refl }

no_downgrade_example :
    ((s : Sign) × (evr_compare app_2 app_1 ≡ ok s) × (s ≢ less))
    × (app_1.nevra ≡ app_2.nevra
        → app_1.published_signed_artifact_sha256 ≡ app_2.published_signed_artifact_sha256)
no_downgrade_example =
    no_downgrade no_digest candidate_snapshot stable_snapshot registry (codes "apps") planned
      the_policies planned_ok policies_ok the_stable app_key app_2 app_1 stable_ok app_2_selected
      app_1_stable app_1_group app_2_key app_1_key

policies-IsPartition_example : IsPartition the_policies
policies-IsPartition_example = policies-IsPartition registry the_policies policies_ok

abbrev app_policy : GroupPolicy
app_policy = record {
  names = codes "app" ∷ [];
  arches = codes "x86_64" ∷ [];
  component = codes "app";
  complete = true;
}

candidate_verified :
    verify_candidate the_candidate app_policy the_policies.owner (codes "apps")
    ≡ ok (app_2 ∷ app_2_src ∷ [])
unfolding the_candidate
candidate_verified = refl

verify_candidate-IsRelease_example : IsRelease app_policy (app_2 ∷ app_2_src ∷ [])
verify_candidate-IsRelease_example =
    verify_candidate-IsRelease the_candidate app_policy the_policies.owner (codes "apps")
      (app_2 ∷ app_2_src ∷ []) candidate_verified

packages-IsIndexed_example : IsIndexed stable_snapshot the_stable
packages-IsIndexed_example =
    packages-IsIndexed the_policies.owner true stable_snapshot the_stable stable_ok

parse_package_iff_example :
    (parse_package app_2 ≡ ok (nevra_of (codes "1.10") (codes "x86_64"))) ↔ (
      (has_empty_field app_2 ≡ false)
      × (has_digests app_2 ≡ true)
      × (app_2.nevra ≡ render (nevra_of (codes "1.10") (codes "x86_64")))
      × (well_formed (nevra_of (codes "1.10") (codes "x86_64")) ≡ true)
      × (fits (nevra_of (codes "1.10") (codes "x86_64")) app_2 ≡ true))
parse_package_iff_example = parse_package_iff app_2 (nevra_of (codes "1.10") (codes "x86_64"))

newer : evr_compare app_2 app_1 ≡ ok more
unfolding run
newer = refl

evr_compare-flip_example : evr_compare app_1 app_2 ≡ ok (flip more)
evr_compare-flip_example = evr_compare-flip app_2 app_1 newer

version_compare-total_example :
    version_loop 9 (codes "1.10") (codes "1.9")
    ≡ some (version_compare (codes "1.10") (codes "1.9"))
version_compare-total_example = version_compare-total 9 (codes "1.10") (codes "1.9") (omega arith)

version_compare-flip_example :
    version_compare (codes "1.10") (codes "1.9")
    ≡ flip (version_compare (codes "1.9") (codes "1.10"))
version_compare-flip_example = version_compare-flip (codes "1.10") (codes "1.9")
