-- ===== src/Planner/Registry.antt =====
-- `_policies` of tools/v3_promotion_planner.py: the producer registry as groups and owners.
pub mod Owners
use ro_repo.Base.{
  ◌||◌, Bool, true, false, not, List, [], ◌∷◌, Result, ok, err, ◌>>=◌, ◌>>◌, raise_if, all,
  is_empty, if◌then◌else◌,
}
use ro_repo.Base.Text.{Text, has_text}
use ro_repo.Base.Dict.{Dict, text_key, contains, insert}
use ro_repo.Planner.Nevra.{arches}

pub record ComponentFields : Type 0 where
  pub promotion_group : Text
  pub package_names : List Text
  pub architectures : List Text
  pub component : Text
  pub require_complete_architecture_set : Bool

-- A component whose fields have other types is `malformed`.
pub data Component : Type 0 where
  malformed : Component
  typed : ComponentFields → Component

pub data Registry : Type 0 where
  invalid : Registry
  producers : List (List Component) → Registry

-- The value of `groups[group]`; the two lists stand for sets.
pub record GroupPolicy : Type 0 where
  pub names : List Text
  pub arches : List Text
  pub component : Text
  pub complete : Bool

pub record Policies : Type 0 where
  pub groups : Dict Text GroupPolicy
  pub owner : Dict Text Text

-- `len(xs) == len(set(xs))`
abbrev pub is_distinct : List Text → Bool
is_distinct [] = true
is_distinct (x ∷ xs) = if has_text x xs then false else is_distinct xs

-- `for name in names`
unfoldable pub add_names : Text → List Text → Dict Text Text → Result (Dict Text Text)
add_names group [] owner = ok owner
add_names group (name ∷ names) owner =
    if is_empty name || contains name owner
    then err "ambiguous package owner"
    else add_names group names (insert name group owner)

-- The policy that is stored for a component.
abbrev pub policy_of : ComponentFields → GroupPolicy
policy_of c = record {
  names = c.package_names;
  arches = c.architectures;
  component = c.component;
  complete = c.require_complete_architecture_set;
}

unfoldable pub add_component : Policies → Component → Result Policies
add_component s malformed = err "invalid component policy"
add_component s (typed c) = do
  raise_if (is_empty c.promotion_group || is_empty c.package_names || is_empty c.architectures)
      "invalid component policy"
  raise_if (contains c.promotion_group s.groups) "ambiguous promotion group"
  raise_if
      (not (is_distinct c.package_names)
        || not (all (λ a. has_text a arches) c.architectures)
        || not (is_distinct c.architectures))
      "invalid policy names or architectures"
  owner ← add_names c.promotion_group c.package_names s.owner
  ok (record { groups = insert c.promotion_group (policy_of c) s.groups; owner = owner })

unfoldable pub add_components : Policies → List Component → Result Policies
add_components s [] = ok s
add_components s (c ∷ cs) = do s' ← add_component s c; add_components s' cs

unfoldable pub add_producers : Policies → List (List Component) → Result Policies
add_producers s [] = ok s
add_producers s (p ∷ ps) = do s' ← add_components s p; add_producers s' ps

abbrev pub no_policies : Policies
no_policies = record { groups = []; owner = [] }

-- `_policies`
unfoldable pub policies : Registry → Result Policies
policies invalid = err "invalid producer registry"
policies (producers ps) = add_producers no_policies ps
