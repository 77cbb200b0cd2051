-- ===== src/Policy/Profile.antt =====
-- tools/v3_policy_profile.py: the policy of a group, and the completeness of a plan.
pub mod Floor
pub mod Members
pub mod Complete
mod Tests
use ro_repo.Base.{
  ℕ, Bool, true, false, Option, none, some, List, [], ◌∷◌, Result, ok, err, ◌>>=◌, ◌>>◌, raise_if,
  or_raise, not, all, any, keep, map, ◌==◌, ◌&&◌, ◌||◌, if◌then◌else◌, is_empty,
}
use ro_repo.Base.Text.{Text, codes, text_eq, has_text, is_blank, add_text, add_texts}
use ro_repo.Base.Dict.{Dict, text_key, lookup, contains}
use ro_repo.Planner.Nevra.{Package, Nevra, parse_package}
use ro_repo.Planner.Registry.{ComponentFields, malformed, typed, is_distinct, Policies, policies}
use ro_repo.Planner.Packages.{group_of}
use ro_repo.Planner.Candidate.{Parsed, select, parse_all, names_of, same_set}
use ro_repo.Planner.Plan.{Plan}

-- `required_tests`: no list, or a list whose entries may be no texts
pub data RequiredTests : Type 0 where
  no_list : RequiredTests
  tests : List (Option Text) → RequiredTests

-- A component as the planner reads it, and what the profile reads beside; `get` may find nothing.
pub record Component : Type 0 where
  pub fields : ro_repo.Planner.Registry.Component
  pub risk_class : Option Text
  pub required_tests : RequiredTests
  pub trusted_signer_workflow : Option Text

pub record Producer : Type 0 where
  pub repository : Option Text
  pub components : List Component

pub record Producers : Type 0 where
  -- `registry.get("fedora_release", 44)`
  pub fedora_release : ℕ
  pub producers : List Producer

pub data Registry : Type 0 where
  invalid : Registry
  registry : Producers → Registry

abbrev pub component_fields : List Component → List ro_repo.Planner.Registry.Component
component_fields cs = map (λ (c : Component). c.fields) cs

-- The registry as `_policies` reads it
unfoldable pub planner_view : Registry → ro_repo.Planner.Registry.Registry
planner_view invalid = ro_repo.Planner.Registry.Registry.invalid
planner_view (registry r) =
    ro_repo.Planner.Registry.Registry.producers
      (map (λ (p : Producer). component_fields p.components) r.producers)

-- `BASE`, `DESKTOP` and `SYSTEM`
abbrev pub base_tests : List Text
base_tests =
    codes "dependency-solve"
    ∷ codes "clean-install"
    ∷ codes "upgrade"
    ∷ codes "file-conflict"
    ∷ codes "rpmlint"
    ∷ codes "smoke"
    ∷ []

abbrev pub desktop_tests : List Text
desktop_tests = codes "plasma-integration" ∷ codes "login-session" ∷ []

abbrev pub system_tests : List Text
system_tests = codes "boot" ∷ codes "reboot" ∷ codes "recovery" ∷ codes "qemu" ∷ []

unfoldable pub floor_of : Text → List Text
floor_of risk =
    if text_eq risk (codes "critical-desktop")
    then desktop_tests
    else if text_eq risk (codes "critical-system")
    then system_tests
    else []

-- The component of a group, with its producer
pub record Found : Type 0 where
  pub producer : Producer
  pub component : Component
  pub fields : ComponentFields

-- `c["promotion_group"] == group`; a malformed component has been refused before.
unfoldable pub find_in : Text → Producer → List Component → Option Found
find_in group p [] = none
find_in group p (c ∷ cs) =
    let rest = find_in group p cs in
    elim c.fields [
      | malformed ↦ rest
      | typed f ↦
          if text_eq f.promotion_group group
          then some (record { producer = p; component = c; fields = f })
          else rest
    ]

unfoldable pub find_group : Text → List Producer → Option Found
find_group group [] = none
find_group group (p ∷ ps) = elim (find_in group p p.components) [
  | none ↦ find_group group ps
  | some found ↦ some found
]

-- The texts of a list that has nothing else and no blank one
unfoldable pub texts_of : List (Option Text) → Option (List Text)
texts_of [] = some []
texts_of (none ∷ ts) = none
texts_of (some t ∷ ts) =
    let rest = texts_of ts in
    if is_blank t then none else elim rest [ none ↦ none | some l ↦ some (t ∷ l) ]

unfoldable pub check_tests : RequiredTests → Result (List Text)
check_tests no_list = err "invalid canonical required-test profile"
check_tests (tests ts) = do
  l ← or_raise (texts_of ts) "invalid canonical required-test profile"
  raise_if (is_empty l || not (is_distinct l)) "invalid canonical required-test profile"
  ok l

pub record Profile : Type 0 where
  pub registry_sha256 : Text
  pub promotion_group : Text
  pub repository : Option Text
  pub component : Text
  pub trusted_signer_workflow : Option Text
  pub architectures : List Text
  pub package_names : List Text
  pub risk_class : Text
  pub minimum_beta_days : ℕ
  pub required_tests : List Text

unfoldable pub is_risk : Text → Bool
is_risk t =
    has_text t (codes "normal-app" ∷ codes "critical-desktop" ∷ codes "critical-system" ∷ [])

-- The dictionary that `profile` returns
unfoldable pub profile_of : Text → Text → Found → Text → List Text → Profile
profile_of sha group found risk required = record {
  registry_sha256 = sha;
  promotion_group = group;
  repository = found.producer.repository;
  component = found.fields.component;
  trusted_signer_workflow = found.component.trusted_signer_workflow;
  architectures = add_texts found.fields.architectures [];
  package_names = add_texts found.fields.package_names [];
  risk_class = risk;
  minimum_beta_days = if text_eq risk (codes "critical-system") then 14 else 7;
  required_tests = add_texts (floor_of risk) (add_texts base_tests (add_texts required []));
}

abbrev pub fedora_of : Registry → ℕ
fedora_of invalid = 44
fedora_of (registry r) = r.fedora_release

abbrev pub producers_of : Registry → List Producer
producers_of invalid = []
producers_of (registry r) = r.producers

-- `profile` without an expected one; the digest of the registry is an argument.
unfoldable pub profile : (Registry → Text) → Registry → Text → Result Profile
profile sha r group = do
  s ← policies (planner_view r)
  raise_if (not (fedora_of r == 44) || not (contains group s.groups))
      "unsupported registry or promotion group"
  found ← or_raise (find_group group (producers_of r)) "StopIteration"
  risk ← or_raise found.component.risk_class "invalid risk class"
  raise_if (not (is_risk risk)) "invalid risk class"
  required ← check_tests found.component.required_tests
  ok (profile_of (sha r) group found risk required)

-- `{owners[_parse(rpm)[0]] for rpm in packages}`
unfoldable pub groups_in : Dict Text Text → List Package → List Text → Result (List Text)
groups_in owner [] groups = ok groups
groups_in owner (p ∷ ps) groups = do g ← group_of owner p; groups_in owner ps (add_text g groups)

abbrev pub on_arch : Text → List Parsed → List Parsed
on_arch arch members = keep (λ (q : Parsed). text_eq q.entry.architecture arch) members

-- The loop over the architectures of a policy
unfoldable pub check_arches : Profile → List Parsed → List Text → Result (Unit {0})
check_arches policy members [] = ok tt
check_arches policy members (arch ∷ arches) = do
  raise_if (not (same_set (names_of (on_arch arch members)) policy.package_names))
      "incomplete registered architecture set"
  check_arches policy members arches

unfoldable pub check_member_groups :
    (Registry → Text) → Registry → Dict Text Text → List Package → List Text → Result (Unit {0})
check_member_groups sha r owner packages [] = ok tt
check_member_groups sha r owner packages (g ∷ gs) = do
  policy ← profile sha r g
  members ← select owner g packages
  parsed ← parse_all members
  check_arches policy parsed policy.architectures
  check_member_groups sha r owner packages gs

-- `require_complete`, of a plan that `plan` returned
unfoldable pub require_complete : (Registry → Text) → Plan → Registry → Result Profile
require_complete sha plan r = do
  p ← profile sha r plan.promotion_group
  s ← policies (planner_view r)
  groups ← groups_in s.owner plan.resulting_stable_packages []
  check_member_groups sha r s.owner plan.resulting_stable_packages
      (add_text plan.promotion_group groups)
  ok p
