-- ===== src/Planner/Plan.antt =====
-- `plan` of tools/v3_promotion_planner.py: the promotion of one group into the stable set.
-- `digest` stands for the SHA-256 of the selected packages' canonical JSON.
mod Parts
mod Lists
mod Updates
mod Exact
pub mod Promotion
use ro_repo.Base.{
  ℕ, ◌-◌, ◌||◌, ◌&&◌, Bool, true, false, not, Option, none, some, List, [], ◌∷◌, Result, ok, err,
  ◌>>=◌, ◌>>◌, raise_if, or_raise, if◌then◌else◌, length,
}
use ro_repo.Base.Text.{codes, Text, has_text, text_eq, text_lt}
use ro_repo.Base.Dict.{Dict, text_key, pair_key, values, contains, insert, lookup}
use ro_repo.Planner.Version.{Sign, less, same, more}
use ro_repo.Planner.Nevra.{Package, Nevra, parse_package, evr_compare}
use ro_repo.Planner.Registry.{GroupPolicy, Policies, Registry, policies}
use ro_repo.Planner.Packages.{Packages, Manifest, absent, invalid, manifest, packages, group_of}
use ro_repo.Planner.Candidate.{select, verify_candidate, select_by}

pub record Plan : Type 0 where
  pub schema_version : ℕ
  pub scope : Text
  pub promotion_group : Text
  pub candidate_sha256 : Text
  pub candidate_snapshot_id : Option Text
  pub stable_base_snapshot_id : Option Text
  pub replaced_group_packages : List Package
  pub selected_group_packages : List Package
  pub resulting_stable_packages : List Package
  pub unchanged_stable_package_count : ℕ
  pub requires_signature_validation : Bool
  pub requires_dnf_dependency_validation : Bool
  pub publishable : Bool

-- The groups of some packages, each once.
unfoldable pub groups_of : Dict Text Text → List Package → Result (List Text)
groups_of owner [] = ok []
groups_of owner (p ∷ ps) = do
  g ← group_of owner p
  rest ← groups_of owner ps
  ok (if has_text g rest then rest else g ∷ rest)

-- `for retained_group in …`
unfoldable pub verify_retained : Packages → Policies → List Text → Result (Unit {0})
verify_retained stable pol [] = ok tt
verify_retained stable pol (g ∷ gs) = do
  policy ← or_raise (lookup g pol.groups) "KeyError"
  kept ← verify_candidate stable policy pol.owner g
  verify_retained stable pol gs

-- The items of a dict whose group is the given one.
abbrev pub select_items : Dict Text Text → Text → Packages → Result Packages
select_items = select_by (λ item. item.1)

-- `{(_parse(p)[0], p["architecture"]): p for p in chosen}`
unfoldable pub index_from : Packages → List Package → Result Packages
index_from d [] = ok d
index_from d (p ∷ ps) = do n ← parse_package p; index_from (insert (n.name, p.architecture) p d) ps

-- `{key: p for key, p in stable.items() if key not in old_group}`
unfoldable pub without : Packages → Packages → Packages
without old [] = []
without old ((k, p) ∷ d) = if contains k old then without old d else (k, p) ∷ without old d

-- `for key, p in additions.items()`: a key that is taken raises.
unfoldable pub add_all : Packages → Packages → Result Packages
add_all [] result = ok result
add_all ((k, p) ∷ additions) result =
    if contains k result
    then err "candidate collides with another stable group"
    else add_all additions (insert k p result)

-- Equality of two entries, as dicts
unfoldable pub package_eq : Package → Package → Bool
package_eq p q =
    text_eq p.nevra q.nevra
    && text_eq p.filename q.filename
    && text_eq p.architecture q.architecture
    && text_eq p.producer_manifest_digest q.producer_manifest_digest
    && text_eq p.producer_artifact_sha256 q.producer_artifact_sha256
    && text_eq p.published_signed_artifact_sha256 q.published_signed_artifact_sha256
    && text_eq p.extra q.extra

-- `result.get(key) == p`
unfoldable pub holds : Packages → Text × Text → Package → Bool
holds result k p = elim (lookup k result) [ none ↦ false | some q ↦ package_eq q p ]

unfoldable pub check_unrelated : Dict Text Text → Text → Packages → Packages → Result (Unit {0})
check_unrelated owner group result [] = ok tt
check_unrelated owner group result ((k, p) ∷ stable) = do
  g ← group_of owner p
  raise_if (not (text_eq g group) && not (holds result k p)) "unrelated stable package changed"
  check_unrelated owner group result stable

abbrev pub is_less : Sign → Bool
is_less less = true
is_less same = false
is_less more = false

-- A package that takes the place of another.
unfoldable pub check_update : Package → Package → Result (Unit {0})
check_update p prev = do
  s ← evr_compare p prev
  raise_if (is_less s) "unapproved package downgrade"
  raise_if
      (text_eq prev.nevra p.nevra
        && not (text_eq prev.published_signed_artifact_sha256 p.published_signed_artifact_sha256))
      "same NEVRA has different signed bytes"
  ok tt

unfoldable pub check_previous : Package → Option Package → Result (Unit {0})
check_previous p none = ok tt
check_previous p (some prev) = check_update p prev

unfoldable pub check_updates : Packages → Packages → Result (Unit {0})
unfolding check_previous
check_updates old [] = ok tt
check_updates old ((k, p) ∷ additions) = do
  check_previous p (lookup k old)
  check_updates old additions

-- `sorted(…, key=lambda p: (p["nevra"], p["filename"]))`
unfoldable pub key_lt : Package → Package → Bool
key_lt p q = text_lt p.nevra q.nevra || (text_eq p.nevra q.nevra && text_lt p.filename q.filename)

unfoldable pub place : Package → List Package → List Package
place p [] = p ∷ []
place p (q ∷ qs) = if key_lt q p then q ∷ place p qs else p ∷ q ∷ qs

unfoldable pub sorted : List Package → List Package
sorted [] = []
sorted (p ∷ ps) = place p (sorted ps)

abbrev pub snapshot_id_of : Manifest → Option Text
snapshot_id_of (manifest m) = m.snapshot_id
snapshot_id_of _ = none

-- The parts of the computation that the result is read from.
pub record Outcome : Type 0 where
  pub policy : GroupPolicy
  pub retained : List Text
  pub candidate : Packages
  pub stable : Packages
  pub old_group : Packages
  pub chosen : List Package
  pub additions : Packages
  pub result : Packages

unfoldable pub promote : Policies → Manifest → Manifest → Text → Result Outcome
promote pol candidate_snapshot stable_snapshot group = do
  policy ← or_raise (lookup group pol.groups) "unknown promotion group"
  candidate ← packages pol.owner false candidate_snapshot
  stable ← packages pol.owner true stable_snapshot
  retained ← groups_of pol.owner (values stable)
  verify_retained stable pol retained
  chosen ← verify_candidate candidate policy pol.owner group
  old_group ← select_items pol.owner group stable
  additions ← index_from [] chosen
  result ← add_all additions (without old_group stable)
  check_unrelated pol.owner group result stable
  check_updates old_group additions
  ok (record {
    policy = policy;
    retained = retained;
    candidate = candidate;
    stable = stable;
    old_group = old_group;
    chosen = chosen;
    additions = additions;
    result = result;
  })

-- `plan`
unfoldable pub plan : (List Package → Text) → Manifest → Manifest → Registry → Text → Result Plan
plan digest candidate_snapshot stable_snapshot registry group = do
  pol ← policies registry
  o ← promote pol candidate_snapshot stable_snapshot group
  ok (record {
    schema_version = 1;
    scope = codes "offline-v3-untrusted-plan";
    promotion_group = group;
    candidate_sha256 = digest (sorted o.chosen);
    candidate_snapshot_id = snapshot_id_of candidate_snapshot;
    stable_base_snapshot_id = snapshot_id_of stable_snapshot;
    replaced_group_packages = sorted (values o.old_group);
    selected_group_packages = sorted o.chosen;
    resulting_stable_packages = sorted (values o.result);
    unchanged_stable_package_count = length o.stable - length o.old_group;
    requires_signature_validation = true;
    requires_dnf_dependency_validation = true;
    publishable = false;
  })
