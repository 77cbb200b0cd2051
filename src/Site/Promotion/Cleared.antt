-- ===== src/Site/Promotion/Cleared.antt =====
-- What `prepare_remote_stable_promotion` of tools/ro_repo.py lets to stable.
use ro_repo.Base.{ℕ, ◌+◌, ◌*◌, ◌≤◌, ◌≡◌, true, false, some, [], ok, all, if◌then◌else◌}
use ro_repo.Base.Text.{Text, codes, text_eq, has_text}
use ro_repo.Base.Dict.{In, lookup, text_key}
use ro_repo.Site.Tree.{child}
use ro_repo.Site.Records.{
  World, beta, Publication, Package, Manifest, Site, load_publication, load_manifest, digest,
  channel_eq,
}
use ro_repo.Site.Policies.{Policy, resolve_package_policy}
use ro_repo.Site.Promotion.{
  check, Validation, EvidenceEntry, Promotion, Now, Request, risk_rank, name_of, is_source,
  package_names, Gathered, gather, provided, minimum_days, day,
}

-- The beta that is promoted
pub record Current (w : World) (r : Request) (site : Site) (b : Publication) (m : Manifest)
    : Type 0 where
  pub read : load_publication w (child (codes "publication-v1.json") site.beta_lane.current) ≡ ok b
  pub on_beta : channel_eq b.channel beta ≡ true
  pub snapshot : b.snapshot_id ≡ r.snapshot_id
  pub stored :
      load_manifest w
        (child (codes "repository-snapshot-v1.json") (lookup r.snapshot_id site.snapshots))
      ≡ ok m
  pub named : m.snapshot_id ≡ r.snapshot_id

-- The validation that it was asked with
pub record Valid (r : Request) (b : Publication) (e : Validation) : Type 0 where
  pub run : e.validation_run ≡ r.validation_run
  pub snapshot : e.snapshot_id ≡ r.snapshot_id
  pub publication : e.beta_publication_run ≡ b.publication_run
  pub started : e.beta_started_at ≡ b.published_at
  pub passed : e.result ≡ codes "pass"

-- What is cleared of one package: its only policy, whose tests all passed and are all in evidence,
-- whose group is promoted and whose risk is at most that of the promotion
pub record PackageCleared (w : World) (r : Request) (e : Validation) (p : Promotion) (q : Package)
    : Type 0 where
  pub policy : Policy
  pub resolved : resolve_package_policy r.config (name_of q.nevra) ≡ ok policy
  pub group : Text
  pub group_named : policy.promotion_group ≡ some group
  pub group_promoted : has_text group p.promotion_groups ≡ true
  pub tested :
      (t : Text)
      → has_text t policy.required_tests ≡ true
      → In (check (some t) (some (codes "pass"))) e.tests
        × (x : EvidenceEntry) × In x p.evidence
        × (x.name ≡ t)
        × (x.digest ≡ digest w r.validation)
  pub risk : ℕ
  pub risk_known : risk_rank policy.risk_class ≡ ok risk
  pub highest : ℕ
  pub highest_known : risk_rank (some p.risk_class) ≡ ok highest
  pub risk_covered : risk ≤ highest

-- A promotion that is cleared
pub record Cleared (w : World) (now : Now) (r : Request) (site : Site) (p : Promotion)
    : Type 0 where
  pub publication : Publication
  pub manifest : Manifest
  pub current : Current w r site publication manifest
  pub validation : Validation
  pub validation_read : now.read_validation r.validation ≡ some validation
  pub valid : Valid r publication validation
  pub packages :
      (q : Package)
      → In q manifest.packages
      → is_source q ≡ false
      → PackageCleared w r validation p q
  pub started : ℕ
  pub started_known : now.read_time publication.published_at ≡ some started
  pub dwelt :
      started + (if text_eq p.risk_class (codes "critical-system") then 14 else 7) * 86400000000
      ≤ now.micros

record Checked (now : Now) (r : Request) (b : Publication) (m : Manifest) (e : Validation)
    (g : Gathered) : Type 0 where
  gathered :
      gather r.config (package_names m.packages []) (record { rank = 0; groups = []; tests = [] })
      ≡ ok g
  complete : all (λ (t : Text). has_text t (provided e.tests)) g.tests ≡ true
  started : ℕ
  started_known : now.read_time b.published_at ≡ some started
  dwelt : started + minimum_days g.rank * day ≤ now.micros
