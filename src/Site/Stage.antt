-- ===== src/Site/Stage.antt =====
-- `stage_pages_snapshot` and `stage_remote_channel` of tools/ro_repo.py. An operation returns the
-- site with its result: what it had written before an error stays. A rename does not fail, and the
-- temporary directory leaves nothing behind.
use ro_repo.Base.{
  Bool, true, false, Option, none, some, Result, ok, err, ◌>>=◌, ◌>>◌, raise_if, or_raise, not,
  if◌then◌else◌,
}
use ro_repo.Base.Text.{Text, codes, text_eq}
use ro_repo.Base.Dict.{text_key, lookup, insert}
use ro_repo.Site.Tree.{Node, file, dir, Entries, empty, entry, child, bytes_of, is_plain_dir, copy}
use ro_repo.Site.Records.{
  World, Channel, Publication, Lane, Site, lane, set_lane, load_publication, load_manifest,
  tree_digest,
}
use ro_repo.Site.Verify.{verify_signed_remote_publication}

pub record Stored : Type 0 where
  pub snapshot_id : Text
  pub tree_sha256 : Text
  pub created : Bool

-- The snapshot that is already stored has the same bytes.
unfoldable pub check_stored : World → Node → Text → Text → Result Stored
check_stored w target snapshot_id candidate = do
  raise_if (not (is_plain_dir (some target)))
      "immutable Pages snapshot target is not a regular directory"
  stored ← tree_digest w (some target)
  raise_if (not (text_eq stored candidate))
      "immutable Pages snapshot already exists with different bytes"
  ok (record { snapshot_id = snapshot_id; tree_sha256 = candidate; created = false })

-- The copy of the snapshot, whose digest is checked before it is moved into place
unfoldable pub new_snapshot : World → Node → Text → Text → Site → Result (Stored × Site)
new_snapshot w snapshot snapshot_id candidate site = do
  copied ← tree_digest w (some (copy snapshot))
  raise_if (not (text_eq copied candidate)) "Pages snapshot copy digest mismatch"
  ok (
    record { snapshot_id = snapshot_id; tree_sha256 = candidate; created = true },
    record site { snapshots = insert snapshot_id (copy snapshot) site.snapshots },
  )

-- `stage_pages_snapshot`, of a snapshot directory with its name
unfoldable pub stage_pages_snapshot : World → Text → Node → Site → Result (Stored × Site)
stage_pages_snapshot w name snapshot site = do
  manifest ← load_manifest w (child (codes "repository-snapshot-v1.json") (some snapshot))
  raise_if (not (text_eq name manifest.snapshot_id))
      "snapshot directory name does not match signed snapshot identity"
  candidate ← tree_digest w (some snapshot)
  elim (lookup manifest.snapshot_id site.snapshots) [
    | none ↦ new_snapshot w snapshot manifest.snapshot_id candidate site
    | some target ↦ do
      stored ← check_stored w target manifest.snapshot_id candidate
      ok (stored, site)
  ]

pub record Staged : Type 0 where
  pub snapshot_id : Text
  pub publication_run : Text
  pub previous : Option (Text × Text)
  pub changed : Bool

-- The entry of the history: a run that is there must have the same bytes.
unfoldable pub keep_history : World → Node → Text → Lane → Result Lane
keep_history w publication_dir run l = elim (lookup run l.history) [
  | none ↦ ok (record l { history = insert run (copy publication_dir) l.history })
  | some old ↦ do
    raise_if (not (is_plain_dir (some old))) "publication history entry is not a regular directory"
    expected ← tree_digest w (some publication_dir)
    actual ← tree_digest w (some old)
    raise_if (not (text_eq actual expected))
        "publication history run already exists with different bytes"
    ok l
]

-- A repository of the snapshot is copied, and its digest checked.
unfoldable pub copy_arch : World → Text → Option Node → Result Node
copy_arch w arch rpm = do
  source ← or_raise (child arch rpm) "snapshot repository missing"
  raise_if (not (is_plain_dir (some source))) "snapshot repository missing"
  before ← tree_digest w (some source)
  after ← tree_digest w (some (copy source))
  raise_if (not (text_eq before after)) "remote channel copy mismatch"
  ok (copy source)

unfoldable pub copy_file : Text → Node → Result Node
copy_file name publication_dir = do
  content ← or_raise (bytes_of (child name (some publication_dir))) "FileNotFoundError"
  ok (file content)

-- The store of the publication, as the last entry
unfoldable pub copy_store : World → Node → Option Text → Result Entries
copy_store w publication_dir none = ok empty
copy_store w publication_dir (some expected) = do
  source ←
      or_raise (child (codes "store") (some publication_dir))
        "signed Ro-Store publication is missing"
  raise_if (not (is_plain_dir (some source))) "signed Ro-Store publication is missing"
  copied ← tree_digest w (some (copy source))
  raise_if (not (text_eq copied expected)) "remote Ro-Store channel copy mismatch"
  ok (entry (codes "store") (copy source) empty)

-- `new_tree`
unfoldable pub new_tree : World → Node → Option Node → Publication → Result Node
new_tree w publication_dir snapshot publication = do
  let rpm = child (codes "rpm") snapshot
  x86_64 ← copy_arch w (codes "x86_64") rpm
  aarch64 ← copy_arch w (codes "aarch64") rpm
  source ← copy_arch w (codes "source") rpm
  manifest ← copy_file (codes "publication-v1.json") publication_dir
  signature ← copy_file (codes "publication-v1.json.asc") publication_dir
  store ← copy_store w publication_dir publication.store_tree_sha256
  ok (
      dir (
        entry (codes "x86_64") x86_64 (
          entry (codes "aarch64") aarch64 (
            entry (codes "source") source (
              entry (codes "publication-v1.json") manifest
                (entry (codes "publication-v1.json.asc") signature store))))))

-- The result, and the node that stands in the channel's place then
unfoldable pub swap : World → Publication → Node → Option Node → Result (Staged × Node)
swap w publication new none = ok (
  record {
    snapshot_id = publication.snapshot_id;
    publication_run = publication.publication_run;
    previous = none;
    changed = true;
  },
  new,
)
swap w publication new (some target) = do
  raise_if (not (is_plain_dir (some target))) "remote channel target is not a regular directory"
  old ← load_publication w (child (codes "publication-v1.json") (some target))
  before ← tree_digest w (some target)
  after ← tree_digest w (some new)
  ok (
    record {
      snapshot_id = publication.snapshot_id;
      publication_run = publication.publication_run;
      previous = some (old.snapshot_id, old.publication_run);
      changed = not (text_eq before after);
    },
    if text_eq before after then target else new,
  )

-- The checks before anything is written: the publication and its snapshot
unfoldable pub check_publication : World → Node → Channel → Site → Result (Publication × Node)
check_publication w publication_dir channel site = do
  publication ← load_publication w (child (codes "publication-v1.json") (some publication_dir))
  snapshot ←
      or_raise (lookup publication.snapshot_id site.snapshots)
        "referenced immutable snapshot is missing from Pages storage"
  raise_if (not (is_plain_dir (some snapshot)))
      "referenced immutable snapshot is missing from Pages storage"
  verified ← verify_signed_remote_publication w (some publication_dir) (some snapshot) channel
  ok (publication, snapshot)

-- What follows once the history has its entry
unfoldable pub stage_tree : World → Node → Node → Publication → Lane → Result (Staged × Lane)
stage_tree w publication_dir snapshot publication l = do
  new ← new_tree w publication_dir (some snapshot) publication
  (staged, place) ← swap w publication new l.current
  ok (staged, record l { current = some place })

-- `stage_remote_channel`
unfoldable pub stage_remote_channel : World → Node → Channel → Site → Site × Result Staged
stage_remote_channel w publication_dir channel site =
    elim (check_publication w publication_dir channel site) [
      | err e ↦ (site, err e)
      | ok (publication, snapshot) ↦
          elim (keep_history w publication_dir publication.publication_run (lane channel site)) [
            | err e ↦ (site, err e)
            | ok kept ↦ elim (stage_tree w publication_dir snapshot publication kept) [
              | err e ↦ (set_lane channel kept site, err e)
              | ok (staged, l) ↦ (set_lane channel l site, ok staged)
            ]
          ]
    ]
