-- ===== src/Site/Tests.antt =====
-- A small remote site: a snapshot, two publications of it on beta, a rollback, and a promotion.
mod Witnesses
use ro_repo.Base.{
  ℕ, Bool, true, false, Option, none, some, List, [], ◌∷◌, if◌then◌else◌, ◌≡◌, refl, ok, err, ◌*◌,
  ◌==◌,
}
use ro_repo.Base.Text.{Text, codes, text_eq}
use ro_repo.Site.Tree.{Node, file, dir, link, Entries, empty, entry}
use ro_repo.Site.Records.{
  World, Channel, beta, stable, Publication, Package, Repository, Manifest, Lane, Site, Evidence,
  is_run, verify_gpg_signature,
}
use ro_repo.Site.Stage.{Staged, Stored, stage_pages_snapshot, stage_remote_channel}
use ro_repo.Site.Local.{Local, Tools, link_to, absent}
use ro_repo.Site.Rollback.{Request, rollback_remote_channel}
use ro_repo.Site.Policies.{Component, Producer, version_2, Config}
use ro_repo.Site.Promotion.{
  Check, check, Validation, Promotion, EvidenceEntry, Now, prepare_remote_stable_promotion,
}

abbrev pub snapshot_id : Text
snapshot_id = codes "repo-f44-20260101-001"

abbrev publication_of : Text → Text → Publication
publication_of run published_at = record {
  channel = beta;
  snapshot_id = snapshot_id;
  published_at = published_at;
  publication_run = run;
  store_tree_sha256 = none;
}

abbrev pub hello : Package
hello = record {
  nevra = codes "hello-0:1-2.fc44.x86_64";
  architecture = codes "x86_64";
  filename = codes "hello.rpm";
  published_signed_artifact_sha256 = codes "s";
}

abbrev pub manifest : Manifest
manifest = record {
  snapshot_id = snapshot_id;
  packages = hello ∷ [];
  repositories = [];
  rpm_signing_fingerprint = codes "R";
  metadata_signing_fingerprint = codes "M";
}

-- A JSON file is written as one letter here.
abbrev read_publication : Text → Option Publication
read_publication t =
    if text_eq t (codes "1")
    then some (publication_of (codes "1") (codes "t1"))
    else if text_eq t (codes "2")
    then some (publication_of (codes "2") (codes "t2"))
    else none

abbrev pub world : World
world = record {
  sha256 = λ t. t;
  read_publication = read_publication;
  read_manifest = λ t. if text_eq t (codes "m") then some manifest else none;
  read_catalog = λ t. none;
  is_digit_char = λ c. c == b'0';
  gpg_verify = λ sig t. some (codes "M" ∷ []);
  checksig = λ keys t. true;
}

abbrev arch_dir : Node
arch_dir = dir (entry (codes "p") (file (codes "x")) empty)

abbrev pub snapshot : Node
snapshot = dir (
    entry (codes "repository-snapshot-v1.json") (file (codes "m")) (
      entry (codes "rpm")
        (dir (
          entry (codes "x86_64") arch_dir
            (entry (codes "aarch64") arch_dir (entry (codes "source") arch_dir empty))))
        empty))

abbrev publication_dir : Text → Node
publication_dir t = dir (
    entry (codes "publication-v1.json") (file t)
      (entry (codes "publication-v1.json.asc") (file (codes "a")) empty))

abbrev pub first_dir : Node
first_dir = publication_dir (codes "1")

abbrev pub second_dir : Node
second_dir = publication_dir (codes "2")

abbrev no_lane : Lane
no_lane = record { current = none; history = []; rollbacks = [] }

abbrev pub empty_site : Site
empty_site = record { snapshots = []; beta_lane = no_lane; stable_lane = no_lane }

-- The channel as it stands with one of the two publications
abbrev tree_of : Text → Node
tree_of t = dir (
    entry (codes "x86_64") arch_dir (
      entry (codes "aarch64") arch_dir (
        entry (codes "source") arch_dir (
          entry (codes "publication-v1.json") (file t)
            (entry (codes "publication-v1.json.asc") (file (codes "a")) empty)))))

abbrev pub stored_site : Site
stored_site = record empty_site { snapshots = (snapshot_id, snapshot) ∷ [] }

abbrev pub first_site : Site
first_site = record stored_site {
  beta_lane = record {
    current = some (tree_of (codes "1"));
    history = (codes "1", first_dir) ∷ [];
    rollbacks = [];
  };
}

abbrev pub second_site : Site
second_site = record stored_site {
  beta_lane = record {
    current = some (tree_of (codes "2"));
    history = (codes "1", first_dir) ∷ (codes "2", second_dir) ∷ [];
    rollbacks = [];
  };
}

abbrev pub evidence : Evidence
evidence = record {
  channel = beta;
  rollback_run = codes "7";
  rolled_back_at = codes "t7";
  reason = codes "bad";
  from_publication_run = codes "2";
  from_snapshot_id = snapshot_id;
  from_publication_sha256 = codes "2";
  to_publication_run = codes "1";
  to_snapshot_id = snapshot_id;
  to_publication_sha256 = codes "1";
}

abbrev pub rolled_site : Site
rolled_site = record stored_site {
  beta_lane = record {
    current = some (tree_of (codes "1"));
    history = (codes "1", first_dir) ∷ (codes "2", second_dir) ∷ [];
    rollbacks = (codes "7", evidence) ∷ [];
  };
}

abbrev pub stored_result : Text → Stored
stored_result digest = record { snapshot_id = snapshot_id; tree_sha256 = digest; created = true }

abbrev pub staged_second : Staged
staged_second = record {
  snapshot_id = snapshot_id;
  publication_run = codes "2";
  previous = some (snapshot_id, codes "1");
  changed = true;
}

abbrev pub rollback_request : Request
rollback_request = record {
  channel = beta;
  target_run = codes "1";
  rollback_run = codes "7";
  reason = codes " bad ";
  now = codes "t7";
  production_key = codes "R";
}

abbrev component : Component
component = record {
  component = some (codes "hello");
  package_names = codes "hello" ∷ [];
  architectures = [];
  risk_class = some (codes "critical-system");
  promotion_group = some (codes "base");
  required_tests = codes "boot" ∷ [];
  srpm_required = true;
  sbom_required = true;
  allow_fedora_override = false;
  trusted_signer_workflow = none;
  require_complete_architecture_set = false;
}

abbrev config : Config
config = version_2 (
    record { repository = some (codes "r"); owner = some (codes "o"); components = component ∷ [] }
    ∷ [])

abbrev validation : Validation
validation = record {
  validation_run = codes "9";
  snapshot_id = snapshot_id;
  beta_publication_run = codes "2";
  beta_started_at = codes "t2";
  tested_at = codes "t8";
  result = codes "pass";
  tests = check (some (codes "boot")) (some (codes "pass")) ∷ [];
}

-- Fourteen days after the beta
abbrev pub now : Now
now = record {
  micros = 14 * 86400000000;
  text = codes "t9";
  read_time = λ t. some 0;
  read_validation = λ t. if text_eq t (codes "v") then some validation else none;
}

abbrev pub promotion_request : ro_repo.Site.Promotion.Request
promotion_request = record {
  snapshot_id = snapshot_id;
  validation_run = codes "9";
  approved_by = codes "ada";
  validation = codes "v";
  config = config;
}

abbrev pub promotion : Promotion
promotion = record {
  snapshot_id = snapshot_id;
  risk_class = codes "critical-system";
  promotion_groups = codes "base" ∷ [];
  beta_started_at = codes "t2";
  evidence =
      record {
        name = codes "boot";
        snapshot_id = snapshot_id;
        timestamp = codes "t8";
        reference =
            codes "evidence/promotions/repo-f44-20260101-001/9/promotion-validation-v1.json";
        digest = codes "v";
      }
      ∷ [];
  approved_by = codes "ada";
  approved_at = codes "t9";
}

abbrev repodata : Entries
repodata =
    entry (codes "repodata")
      (dir (
        entry (codes "repomd.xml") (file (codes "r"))
          (entry (codes "repomd.xml.asc") (file (codes "a")) empty)))
      empty

-- A snapshot with its one package
abbrev pub whole_snapshot : Node
whole_snapshot = dir (
    entry (codes "repository-snapshot-v1.json") (file (codes "m")) (
      entry (codes "repository-snapshot-v1.json.asc") (file (codes "a")) (
        entry (codes "rpm")
          (dir (
            entry (codes "x86_64") (dir (entry (codes "hello.rpm") (file (codes "s")) repodata)) (
              entry (codes "aarch64") (dir repodata)
                (entry (codes "source") (dir repodata) empty))))
          empty)))

abbrev pub tools : Tools
tools = record { print = λ p. codes "1"; meets_schema = λ p. true; sign = λ key content. none }

abbrev pub the_publication : Publication
the_publication = publication_of (codes "local") (codes "t3")

abbrev pub local_before : Local
local_before = record { current = link_to (codes "d1"); previous = absent; published = [] }

abbrev data_dir : Node
data_dir = dir (
    entry (codes "x86_64") (dir (entry (codes "hello.rpm") (file (codes "s")) repodata)) (
      entry (codes "aarch64") (dir repodata) (
        entry (codes "source") (dir repodata)
          (entry (codes "publication-v1.json") (file (codes "1")) empty))))

abbrev pub local_after : Local
local_after = record {
  current = link_to (codes "d2");
  previous = link_to (codes "d1");
  published = (codes "d2", data_dir) ∷ [];
}
