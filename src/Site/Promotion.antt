-- ===== src/Site/Promotion.antt =====
-- `prepare_remote_stable_promotion` of tools/ro_repo.py: the manifest that promotes the current beta.
pub mod Counts
pub mod Cleared
use ro_repo.Base.{
  ℕ, ◌+◌, ◌*◌, Bool, true, false, Option, none, some, List, [], ◌∷◌, ◌++◌, Result, ok, err, ◌>>=◌,
  ◌>>◌, raise_if, or_raise, not, all, ltb, ◌||◌, ◌&&◌, if◌then◌else◌, is_empty, leb, ◌==◌, length,
}
use ro_repo.Base.Text.{
  Text, codes, text_eq, has_text, rsplit, is_blank, is_digit, strip, add_text, add_texts,
}
use ro_repo.Base.Dict.{text_key, lookup}
use ro_repo.Site.Tree.{Node, child, bytes_of, is_plain_file}
use ro_repo.Site.Records.{
  World, Channel, beta, Publication, Package, Manifest, Lane, Site, is_run, load_publication,
  load_manifest, digest, channel_eq,
}
use ro_repo.Site.Policies.{Policy, Config, load_producer_registry, resolve_package_policy}

-- An entry of `evidence["tests"]`
pub data Check : Type 0 where
  no_object : Check
  check : Option Text → Option Text → Check

-- `promotion-validation-v1`
pub record Validation : Type 0 where
  pub validation_run : Text
  pub snapshot_id : Text
  pub beta_publication_run : Text
  pub beta_started_at : Text
  pub tested_at : Text
  pub result : Text
  pub tests : List Check

pub record EvidenceEntry : Type 0 where
  pub name : Text
  pub snapshot_id : Text
  pub timestamp : Text
  pub reference : Text
  pub digest : Text

-- `promotion-manifest-v1`, from beta to stable and no emergency
pub record Promotion : Type 0 where
  pub snapshot_id : Text
  pub risk_class : Text
  pub promotion_groups : List Text
  pub beta_started_at : Text
  pub evidence : List EvidenceEntry
  pub approved_by : Text
  pub approved_at : Text

-- The clock as a number of microseconds and as `timestamp()` writes it, and the libraries that read
-- the validation and an ISO time
pub record Now : Type 0 where
  pub micros : ℕ
  pub text : Text
  pub read_time : Text → Option ℕ
  pub read_validation : Text → Option Validation

-- What is asked for
pub record Request : Type 0 where
  pub snapshot_id : Text
  pub validation_run : Text
  pub approved_by : Text
  -- the file of the validation
  pub validation : Text
  pub config : Config

-- `repo-f44-[0-9]{8}-[0-9]{3}`
unfoldable pub is_snapshot_id : Text → Bool
is_snapshot_id t = elim (rsplit b'-' t) [
  | none ↦ false
  | some (head, serial) ↦ elim (rsplit b'-' head) [
    | none ↦ false
    | some (repo, date) ↦
        text_eq repo (codes "repo-f44")
        && (length date == 8)
        && all is_digit date
        && (length serial == 3)
        && all is_digit serial
  ]
]

-- `risk_rank`
unfoldable pub risk_rank : Option Text → Result ℕ
risk_rank none = err "KeyError"
risk_rank (some t) =
    if text_eq t (codes "normal-app")
    then ok 0
    else if text_eq t (codes "critical-desktop")
    then ok 1
    else if text_eq t (codes "critical-system")
    then ok 2
    else err "KeyError"

abbrev pub risk_name : ℕ → Text
risk_name n =
    if n == 0
    then codes "normal-app"
    else if n == 1
    then codes "critical-desktop"
    else codes "critical-system"

-- `nevra.rsplit("-", 2)[0]`
unfoldable pub name_of : Text → Text
name_of nevra = elim (rsplit b'-' nevra) [
  | none ↦ nevra
  | some (head, release) ↦ elim (rsplit b'-' head) [ none ↦ head | some (name, version) ↦ name ]
]

abbrev pub is_source : Package → Bool
is_source p = text_eq p.architecture (codes "src") || text_eq p.architecture (codes "nosrc")

-- `package_names`
unfoldable pub package_names : List Package → List Text → List Text
package_names [] seen = seen
package_names (p ∷ ps) seen =
    package_names ps (if is_source p then seen else add_text (name_of p.nevra) seen)

-- What the loop over the names gathers
pub record Gathered : Type 0 where
  pub rank : ℕ
  pub groups : List Text
  pub tests : List Text

unfoldable pub gather_name : Config → Text → Gathered → Result Gathered
gather_name config name g = do
  producer ← resolve_package_policy config name
  rank ← risk_rank producer.risk_class
  group ← or_raise producer.promotion_group "promotion_group missing for package"
  raise_if (is_empty group) "promotion_group missing for package"
  ok (record {
    rank = if ltb g.rank rank then rank else g.rank;
    groups = add_text group g.groups;
    tests = add_texts producer.required_tests g.tests;
  })

unfoldable pub gather : Config → List Text → Gathered → Result Gathered
gather config [] g = ok g
gather config (name ∷ names) g = do g' ← gather_name config name g; gather config names g'

-- `provided_tests`
unfoldable pub provided : List Check → List Text
provided [] = []
provided (no_object ∷ cs) = provided cs
provided (check none result ∷ cs) = provided cs
provided (check (some name) none ∷ cs) = provided cs
provided (check (some name) (some result) ∷ cs) =
    let rest = provided cs in if text_eq result (codes "pass") then name ∷ rest else rest

-- The evidence belongs to this run, this snapshot and the current beta, and it passed.
unfoldable pub check_validation : Request → Publication → Validation → Result (Unit {0})
check_validation r beta_publication e = do
  raise_if (not (text_eq e.validation_run r.validation_run))
      "promotion validation run identity mismatch"
  raise_if (not (text_eq e.snapshot_id r.snapshot_id)) "promotion validation snapshot mismatch"
  raise_if (not (text_eq e.beta_publication_run beta_publication.publication_run))
      "promotion validation is not for the current beta publication"
  raise_if (not (text_eq e.beta_started_at beta_publication.published_at))
      "promotion validation beta start time mismatch"
  raise_if (not (text_eq e.result (codes "pass"))) "promotion validation did not pass"

-- The current beta, and its snapshot
unfoldable pub find_beta : World → Request → Site → Result (Publication × Manifest)
find_beta w r site = do
  let beta_path = child (codes "publication-v1.json") site.beta_lane.current
  raise_if (not (is_plain_file beta_path)) "current remote beta publication is missing"
  publication ← load_publication w beta_path
  raise_if (not (channel_eq publication.channel beta)) "current remote publication is not beta"
  raise_if (not (text_eq publication.snapshot_id r.snapshot_id))
      "requested snapshot is not the current beta snapshot"
  let path = child (codes "repository-snapshot-v1.json") (lookup r.snapshot_id site.snapshots)
  raise_if (not (is_plain_file path)) "promotion snapshot is missing from immutable Pages storage"
  manifest ← load_manifest w path
  raise_if (not (text_eq manifest.snapshot_id r.snapshot_id)) "promotion snapshot identity mismatch"
  ok (publication, manifest)

abbrev pub minimum_days : ℕ → ℕ
minimum_days rank = if rank == 2 then 14 else 7

abbrev pub day : ℕ
day = 86400000000

-- The entries for the tests
unfoldable pub entries : Request → Validation → Text → List Text → List EvidenceEntry
entries r e sha [] = []
entries r e sha (name ∷ names) =
    record {
      name = name;
      snapshot_id = r.snapshot_id;
      timestamp = e.tested_at;
      reference =
          codes "evidence/promotions/"
          ++ (r.snapshot_id
              ++ (codes "/" ++ (r.validation_run ++ codes "/promotion-validation-v1.json")));
      digest = sha;
    }
    ∷ entries r e sha names

-- What is checked of the policies, the tests and the time
unfoldable pub check_policies :
    Now → Request → Publication → Manifest → Validation → Result Gathered
check_policies now r publication manifest e = do
  config ← load_producer_registry r.config
  g ←
      gather config (package_names manifest.packages [])
        (record { rank = 0; groups = []; tests = [] })
  raise_if (not (all (λ (t : Text). has_text t (provided e.tests)) g.tests))
      "promotion validation evidence missing"
  started ← or_raise (now.read_time publication.published_at) "ValueError"
  raise_if (ltb now.micros (started + minimum_days g.rank * day))
      "minimum beta duration not reached"
  ok g

-- `prepare_remote_stable_promotion`; the manifest is the file that it saves.
unfoldable pub prepare_remote_stable_promotion : World → Now → Request → Site → Result Promotion
prepare_remote_stable_promotion w now r site = do
  raise_if (not (is_snapshot_id r.snapshot_id)) "invalid snapshot ID schema"
  raise_if (not (is_run r.validation_run)) "validation run must be a positive numeric identifier"
  raise_if (is_blank r.approved_by) "approved_by must be non-empty"
  (publication, manifest) ← find_beta w r site
  e ← or_raise (now.read_validation r.validation) "cannot read JSON or schema validation failed"
  check_validation r publication e
  g ← check_policies now r publication manifest e
  ok (record {
    snapshot_id = r.snapshot_id;
    risk_class = risk_name g.rank;
    promotion_groups = g.groups;
    beta_started_at = publication.published_at;
    evidence = entries r e (digest w r.validation) g.tests;
    approved_by = strip r.approved_by;
    approved_at = now.text;
  })
