-- ===== src/Site/Policies.antt =====
-- The component policies of tools/ro_repo.py, from a producer registry of either version.
use ro_repo.Base.{
  Bool, false, Option, none, some, List, [], ◌∷◌, ◌++◌, Result, ok, err, keep, ◌&&◌, map, String,
}
use ro_repo.Base.Text.{Text, text_eq, has_text}

-- What `component_policies` yields; what `get` may not find is an option.
pub record Policy : Type 0 where
  pub repository : Option Text
  pub owner : Option Text
  pub component : Option Text
  pub package_names : List Text
  pub architectures : List Text
  pub risk_class : Option Text
  pub promotion_group : Option Text
  pub required_tests : List Text
  pub srpm_required : Bool
  pub sbom_required : Bool
  pub allow_fedora_override : Bool
  pub trusted_signer_workflow : Option Text
  pub require_complete_architecture_set : Bool

-- A producer of version 2, with its components
pub record Component : Type 0 where
  pub component : Option Text
  pub package_names : List Text
  pub architectures : List Text
  pub risk_class : Option Text
  pub promotion_group : Option Text
  pub required_tests : List Text
  pub srpm_required : Bool
  pub sbom_required : Bool
  pub allow_fedora_override : Bool
  pub trusted_signer_workflow : Option Text
  pub require_complete_architecture_set : Bool

pub record Producer : Type 0 where
  pub repository : Option Text
  pub owner : Option Text
  pub components : List Component

-- A producer of version 1
pub record OldProducer : Type 0 where
  pub repository : Option Text
  pub owner : Option Text
  pub allowed_package_names : List Text
  pub architectures : List Text
  pub risk_class : Option Text
  pub promotion_group : Option Text
  pub required_tests : List Text
  pub srpm_required : Bool
  pub sbom_required : Bool
  pub allow_fedora_override : Bool
  pub trusted_signer_workflow : Option Text

pub data Config : Type 0 where
  version_1 : List OldProducer → Config
  version_2 : List Producer → Config
  other_version : Config

-- `load_producer_registry`, of a file that was read and, in version 2, met its schema
unfoldable pub load_producer_registry : Config → Result Config
load_producer_registry (version_1 ps) = ok (version_1 ps)
load_producer_registry (version_2 ps) = ok (version_2 ps)
load_producer_registry other_version = err "unsupported producer registry schema"

unfoldable pub policy_of : Producer → Component → Policy
policy_of p c = record {
  repository = p.repository;
  owner = p.owner;
  component = c.component;
  package_names = c.package_names;
  architectures = c.architectures;
  risk_class = c.risk_class;
  promotion_group = c.promotion_group;
  required_tests = c.required_tests;
  srpm_required = c.srpm_required;
  sbom_required = c.sbom_required;
  allow_fedora_override = c.allow_fedora_override;
  trusted_signer_workflow = c.trusted_signer_workflow;
  require_complete_architecture_set = c.require_complete_architecture_set;
}

unfoldable pub old_policy : OldProducer → Text → Policy
old_policy p name = record {
  repository = p.repository;
  owner = p.owner;
  component = some name;
  package_names = p.allowed_package_names;
  architectures = p.architectures;
  risk_class = p.risk_class;
  promotion_group = p.promotion_group;
  required_tests = p.required_tests;
  srpm_required = p.srpm_required;
  sbom_required = p.sbom_required;
  allow_fedora_override = p.allow_fedora_override;
  trusted_signer_workflow = p.trusted_signer_workflow;
  require_complete_architecture_set = false;
}

unfoldable pub new_policies : List Producer → List Policy
new_policies [] = []
new_policies (p ∷ ps) = map (policy_of p) p.components ++ new_policies ps

unfoldable pub old_policies : List OldProducer → List Policy
old_policies [] = []
old_policies (p ∷ ps) = map (old_policy p) p.allowed_package_names ++ old_policies ps

-- `component_policies`; another version has no producers that it could read.
unfoldable pub component_policies : Config → List Policy
component_policies (version_1 ps) = old_policies ps
component_policies (version_2 ps) = new_policies ps
component_policies other_version = []

abbrev names : Option Text → Text → Bool
names none t = false
names (some s) t = text_eq s t

-- `matches[0]` where it is the only one
abbrev only : List Policy → String → Result Policy
only [] e = err e
only (p ∷ []) e = ok p
only (p ∷ q ∷ ps) e = err e

-- `resolve_component_policy`
unfoldable pub resolve_component_policy : Config → Text → Text → Result Policy
resolve_component_policy config repository component =
    only
      (keep (λ (p : Policy). names p.repository repository && names p.component component)
        (component_policies config))
      "component policy missing or ambiguous"

-- `resolve_package_policy`
unfoldable pub resolve_package_policy : Config → Text → Result Policy
resolve_package_policy config name =
    only (keep (λ (p : Policy). has_text name p.package_names) (component_policies config))
      "promotion package policy missing or ambiguous"
