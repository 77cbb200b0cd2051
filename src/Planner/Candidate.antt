-- ===== src/Planner/Candidate.antt =====
-- `_verify_candidate` of tools/v3_promotion_planner.py: a group of packages, complete and from one source.
-- `_parse` is pure: where the code parses an entry again, the model keeps the first result.
pub mod Select
pub mod Release
use ro_repo.Base.{
  ℕ, ◌||◌, ◌&&◌, Bool, true, false, not, List, [], ◌∷◌, map, Result, ok, err, ◌>>=◌, ◌>>◌, raise_if,
  ◌==◌, if◌then◌else◌, any, all, keep, length, is_empty,
}
use ro_repo.Base.Text.{Text, has_text, text_eq}
use ro_repo.Base.Dict.{Dict, values}
use ro_repo.Planner.Nevra.{Package, Nevra, parse_package}
use ro_repo.Planner.Registry.{GroupPolicy}
use ro_repo.Planner.Packages.{Packages, group_of, is_source_arch}

abbrev pub is_source : Package → Bool
is_source p = is_source_arch p.architecture

-- The elements whose package belongs to the group.
unfoldable pub select_by :
    {A : Type 0} → (A → Package) → Dict Text Text → Text → List A → Result (List A)
select_by entry owner group [] = ok []
select_by entry owner group (x ∷ xs) = do
  g ← group_of owner (entry x)
  rest ← select_by entry owner group xs
  ok (if text_eq g group then x ∷ rest else rest)

-- `[v for v in packages.values() if _group_of(v, owner) == group]`
abbrev pub select : Dict Text Text → Text → List Package → Result (List Package)
select = select_by (λ p. p)

-- A package with its parsed NEVRA.
pub record Parsed : Type 0 where
  pub entry : Package
  pub nevra : Nevra

unfoldable pub parse_all : List Package → Result (List Parsed)
parse_all [] = ok []
parse_all (p ∷ ps) = do
  n ← parse_package p
  rest ← parse_all ps
  ok (record { entry = p; nevra = n } ∷ rest)

abbrev pub names_of : List Parsed → List Text
names_of ps = map (λ q. q.nevra.name) ps

-- Equality of two sets
abbrev pub same_set : List Text → List Text → Bool
same_set xs ys = all (λ x. has_text x ys) xs && all (λ y. has_text y xs) ys

-- The names that an architecture is advertised for.
abbrev pub names_on : Text → List Parsed → List Text
names_on arch ps = names_of (keep (λ q. text_eq q.entry.architecture arch) ps)

unfoldable pub is_incomplete : GroupPolicy → List Parsed → Bool
is_incomplete policy ps =
    policy.complete && any (λ arch. not (same_set (names_on arch ps) policy.names)) policy.arches

-- Epoch, version, release and producer manifest are those of the source.
unfoldable pub from_source : Package → Nevra → Parsed → Bool
from_source source s q =
    text_eq q.nevra.epoch s.epoch
    && text_eq q.nevra.version s.version
    && text_eq q.nevra.release s.release
    && text_eq q.entry.producer_manifest_digest source.producer_manifest_digest

unfoldable pub check_source : GroupPolicy → List Package → List Package → Result (Unit {0})
check_source policy selected (source ∷ []) = do
  s ← parse_package source
  ps ← parse_all selected
  raise_if (not (all (from_source source s) ps)) "candidate source/provenance mismatch"
  raise_if (not (has_text s.name policy.names)) "unexpected source package name"
  ok tt
check_source policy selected _ = err "candidate must contain one source RPM"

unfoldable pub check_group : GroupPolicy → List Package → Result (Unit {0})
check_group policy selected = do
  raise_if (is_empty selected) "candidate group absent"
  let binaries = keep (λ p. not (is_source p)) selected
  let sources = keep is_source selected
  raise_if (is_empty binaries || is_empty sources) "candidate missing binary or SRPM"
  ps ← parse_all binaries
  raise_if (not (same_set (names_of ps) policy.names))
      "candidate has incomplete binary package names"
  raise_if (any (λ p. not (has_text p.architecture policy.arches)) binaries)
      "candidate contains forbidden architecture"
  raise_if (is_incomplete policy ps) "candidate has incomplete architecture set"
  check_source policy selected sources

-- `_verify_candidate`
unfoldable pub verify_candidate :
    Packages → GroupPolicy → Dict Text Text → Text → Result (List Package)
verify_candidate packages policy owner group = do
  selected ← select owner group (values packages)
  check_group policy selected
  ok selected
