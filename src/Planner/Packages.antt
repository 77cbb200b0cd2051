-- ===== src/Planner/Packages.antt =====
-- `_packages` and `_group_of` of tools/v3_promotion_planner.py: a snapshot manifest by identity.
pub mod Index
use ro_repo.Base.{
  ℕ, ◌||◌, ◌&&◌, Bool, true, false, not, Option, none, some, List, [], ◌∷◌, Result, ok, err, ◌>>=◌,
  ◌>>◌, raise_if, ◌==◌, if◌then◌else◌, any, or_raise,
}
use ro_repo.Base.Text.{Text, has_text, codes, text_eq}
use ro_repo.Base.Dict.{Dict, text_key, pair_key, contains, insert, lookup}
use ro_repo.Planner.Nevra.{Package, Entry, malformed, well_typed, Nevra, parse_package}

pub record SnapshotManifest : Type 0 where
  pub fedora_release : ℕ
  pub packages : List Entry
  pub snapshot_id : Option Text

-- `None`, a value that is no manifest, or a manifest.
pub data Manifest : Type 0 where
  absent : Manifest
  invalid : Manifest
  manifest : SnapshotManifest → Manifest

-- `(name, arch)`
abbrev pub Identity : Type 0
Identity = Text × Text

abbrev pub Packages : Type 0
Packages = Dict Identity Package

-- `arch in {"src", "nosrc"}`
abbrev pub is_source_arch : Text → Bool
is_source_arch a = has_text a (codes "src" ∷ codes "nosrc" ∷ [])

-- One entry of the loop; the parse has already succeeded.
unfoldable pub add_package : Dict Text Text → Package → Nevra → Packages → Result Packages
add_package owner p n result =
    if not (contains n.name owner)
    then err "unregistered package in snapshot"
    else if contains (n.name, n.arch) result
    then err "duplicate name/architecture in snapshot"
    else ok (insert (n.name, n.arch) p result)

unfoldable pub add_entry : Dict Text Text → Entry → Packages → Result Packages
add_entry owner malformed result = err "missing or malformed package metadata"
add_entry owner (well_typed p) result = do n ← parse_package p; add_package owner p n result

unfoldable pub add_entries : Dict Text Text → List Entry → Packages → Result Packages
add_entries owner [] result = ok result
add_entries owner (e ∷ es) result = do
  result' ← add_entry owner e result
  add_entries owner es result'

-- `name in binary_names`, which holds the names of the identities that are no sources
unfoldable pub has_binary : Text → Packages → Bool
has_binary name [] = false
has_binary name (((n, a), p) ∷ d) = (text_eq n name && not (is_source_arch a)) || has_binary name d

unfoldable pub has_orphan : Packages → Packages → Bool
has_orphan all_of [] = false
has_orphan all_of (((n, a), p) ∷ d) =
    (is_source_arch a && not (has_binary n all_of)) || has_orphan all_of d

unfoldable pub snapshot_packages : Dict Text Text → SnapshotManifest → Result Packages
snapshot_packages owner m = do
  raise_if (not (m.fedora_release == 44)) "invalid snapshot manifest"
  result ← add_entries owner m.packages []
  raise_if (has_orphan result result) "orphan source package"
  ok result

-- `_packages`; the flag is `empty`
unfoldable pub packages : Dict Text Text → Bool → Manifest → Result Packages
packages owner empty absent = if empty then ok [] else err "invalid snapshot manifest"
packages owner empty invalid = err "invalid snapshot manifest"
packages owner empty (manifest m) = snapshot_packages owner m

-- `_group_of`
unfoldable pub group_of : Dict Text Text → Package → Result Text
group_of owner p = do n ← parse_package p; or_raise (lookup n.name owner) "KeyError"
