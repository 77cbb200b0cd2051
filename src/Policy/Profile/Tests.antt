-- ===== src/Policy/Profile/Tests.antt =====
-- A plan whose result has the one registered package of its group.
use native.Mathlib.Decide.{ℕ_discrete}
use ro_repo.Base.{◌≡◌, refl, true, false, none, some, [], ◌∷◌, ok}
use ro_repo.Base.Text.{Text, codes}
use ro_repo.Base.Dict.{In, lookup, contains, insert}
use ro_repo.Planner.Nevra.{Package}
use ro_repo.Planner.Registry.{typed, Policies}
use ro_repo.Planner.Plan.{Plan}
use ro_repo.Policy.Profile.{tests, Component, registry, Registry, Profile}
use ro_repo.Policy.Profile.Floor.{Floor, profile-Floor}
use ro_repo.Policy.Profile.Complete.{GroupComplete, require_complete-GroupComplete}
use ro_repo.Base.Text.{is_digit, is_alpha, rsplit, is_space, add_text, add_texts}
use ro_repo.Planner.Nevra.{
  is_hex, is_digest, name_char, version_char, is_word, in_block, is_decimal, digit_in, int_from,
  int, split_nevra, well_formed, has_empty_field, has_digests, fits, parse_package, evr_order,
  evr_compare,
}
use ro_repo.Planner.Registry.{add_names, add_component, add_components, add_producers, policies}
use ro_repo.Planner.Packages.{
  add_package, add_entry, add_entries, has_binary, has_orphan, snapshot_packages, packages,
  group_of,
}
use ro_repo.Planner.Candidate.{
  select_by, parse_all, is_incomplete, from_source, check_source, check_group, verify_candidate,
}
use ro_repo.Policy.Profile.{
  planner_view, floor_of, find_in, find_group, texts_of, check_tests, is_risk, profile_of, profile,
  groups_in, check_arches, check_member_groups, require_complete,
}

abbrev digest : Text
digest = codes "0123456789abcdef0123456789abcdef0123456789abcdef0123456789abcdef"

abbrev app : Package
app = record {
  nevra = codes "app-0:1.0-1.x86_64";
  filename = codes "app-1.0-1.x86_64.rpm";
  architecture = codes "x86_64";
  producer_manifest_digest = digest;
  producer_artifact_sha256 = digest;
  published_signed_artifact_sha256 = digest;
  extra = [];
}

abbrev component : Component
component = record {
  fields = typed (record {
    promotion_group = codes "apps";
    package_names = codes "app" ∷ [];
    architectures = codes "x86_64" ∷ [];
    component = codes "app";
    require_complete_architecture_set = true;
  });
  risk_class = some (codes "critical-system");
  required_tests = tests (some (codes "open") ∷ []);
  trusted_signer_workflow = none;
}

abbrev the_registry : Registry
the_registry = registry (record {
  fedora_release = 44;
  producers = record { repository = some (codes "r"); components = component ∷ [] } ∷ [];
})

abbrev the_plan : Plan
the_plan = record {
  schema_version = 1;
  scope = codes "offline";
  promotion_group = codes "apps";
  candidate_sha256 = digest;
  candidate_snapshot_id = none;
  stable_base_snapshot_id = none;
  replaced_group_packages = [];
  selected_group_packages = app ∷ [];
  resulting_stable_packages = app ∷ [];
  unchanged_stable_package_count = 0;
  requires_signature_validation = true;
  requires_dnf_dependency_validation = true;
  publishable = false;
}

abbrev sha : Registry → Text
sha r = codes "s"

abbrev the_profile : Profile
the_profile = record {
  registry_sha256 = codes "s";
  promotion_group = codes "apps";
  repository = some (codes "r");
  component = codes "app";
  trusted_signer_workflow = none;
  architectures = codes "x86_64" ∷ [];
  package_names = codes "app" ∷ [];
  risk_class = codes "critical-system";
  minimum_beta_days = 14;
  required_tests =
      codes "boot"
      ∷ codes "clean-install"
      ∷ codes "dependency-solve"
      ∷ codes "file-conflict"
      ∷ codes "open"
      ∷ codes "qemu"
      ∷ codes "reboot"
      ∷ codes "recovery"
      ∷ codes "rpmlint"
      ∷ codes "smoke"
      ∷ codes "upgrade"
      ∷ [];
}

profile-Floor_example : Floor the_registry (codes "apps") the_profile
unfolding ℕ_discrete lookup contains insert is_digit is_alpha rsplit is_space add_text add_texts
    is_hex is_digest name_char version_char is_word in_block is_decimal digit_in int_from int
    split_nevra well_formed has_empty_field has_digests fits parse_package evr_order evr_compare
    add_names add_component add_components add_producers policies add_package add_entry add_entries
    has_binary has_orphan snapshot_packages packages group_of select_by parse_all is_incomplete
    from_source check_source check_group verify_candidate planner_view floor_of find_in find_group
    texts_of check_tests is_risk profile_of profile groups_in check_arches check_member_groups
    require_complete
profile-Floor_example = profile-Floor sha the_registry (codes "apps") the_profile refl

require_complete-GroupComplete_example :
    (profile sha the_registry (codes "apps") ≡ ok the_profile)
    × (s : Policies) × (policies (planner_view the_registry) ≡ ok s)
    × GroupComplete sha the_registry s.owner (app ∷ []) (codes "apps")
    × ((q : Package) (g : Text)
        → In q (app ∷ [])
        → group_of s.owner q ≡ ok g
        → GroupComplete sha the_registry s.owner (app ∷ []) g)
unfolding ℕ_discrete lookup contains insert is_digit is_alpha rsplit is_space add_text add_texts
    is_hex is_digest name_char version_char is_word in_block is_decimal digit_in int_from int
    split_nevra well_formed has_empty_field has_digests fits parse_package evr_order evr_compare
    add_names add_component add_components add_producers policies add_package add_entry add_entries
    has_binary has_orphan snapshot_packages packages group_of select_by parse_all is_incomplete
    from_source check_source check_group verify_candidate planner_view floor_of find_in find_group
    texts_of check_tests is_risk profile_of profile groups_in check_arches check_member_groups
    require_complete
require_complete-GroupComplete_example =
    require_complete-GroupComplete sha the_plan the_registry the_profile refl
