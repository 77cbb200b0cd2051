-- ===== src/Site/Rollback.antt =====
-- `rollback_remote_channel` of tools/ro_repo.py: a channel goes back to a publication of its history.
use ro_repo.Base.{
  Option, some, Result, ok, err, ◌>>=◌, ◌>>◌, raise_if, or_raise, not, if◌then◌else◌,
}
use ro_repo.Base.Text.{Text, codes, text_eq, is_blank, strip}
use ro_repo.Base.Dict.{text_key, lookup, insert, contains}
use ro_repo.Site.Tree.{Node, child, bytes_of, is_plain_dir}
use ro_repo.Site.Records.{
  World, Channel, beta, stable, Publication, Lane, Site, Evidence, lane, set_lane, is_run,
  load_publication, digest, channel_eq,
}
use ro_repo.Site.Verify.{verify_signed_remote_publication}
use ro_repo.Site.Snapshot.{verify_snapshot, verify_signed_rpms}
use ro_repo.Site.Stage.{Staged, stage_remote_channel}

-- A rollback that is asked for; the runs are texts.
pub record Request : Type 0 where
  pub channel : Channel
  pub target_run : Text
  pub rollback_run : Text
  pub reason : Text
  -- the clock when the evidence is written, and the production key of the packages
  pub now : Text
  pub production_key : Text

-- The publications that a rollback goes from and to, with the digests of their manifests
pub record Route : Type 0 where
  pub target_dir : Node
  pub from_publication : Publication
  pub from_sha256 : Text
  pub to_publication : Publication
  pub to_sha256 : Text

unfoldable pub check_request : Request → Result (Unit {0})
check_request r = do
  raise_if (not (is_run r.target_run))
      "target publication run must be a positive numeric identifier"
  raise_if (not (is_run r.rollback_run))
      "rollback workflow run must be a positive numeric identifier"
  raise_if (is_blank r.reason) "rollback reason must be non-empty"

abbrev pub sha_of : World → Option Node → Result Text
sha_of w n = do content ← or_raise (bytes_of n) "FileNotFoundError"; ok (digest w content)

-- The current publication, and the one of the history
unfoldable pub find_route : World → Request → Lane → Result Route
find_route w r l = do
  current ← or_raise l.current "current remote beta publication is missing"
  raise_if (not (is_plain_dir (some current))) "current remote beta publication is missing"
  let current_path = child (codes "publication-v1.json") (some current)
  from_publication ← load_publication w current_path
  from_sha256 ← sha_of w current_path
  raise_if (not (channel_eq from_publication.channel r.channel))
      "current remote beta channel mismatch"
  target ←
      or_raise (lookup r.target_run l.history) "target beta publication history entry is missing"
  raise_if (not (is_plain_dir (some target))) "target beta publication history entry is missing"
  let target_path = child (codes "publication-v1.json") (some target)
  to_publication ← load_publication w target_path
  to_sha256 ← sha_of w target_path
  raise_if (not (channel_eq to_publication.channel r.channel))
      "target publication history channel mismatch"
  raise_if (not (text_eq to_publication.publication_run r.target_run))
      "target publication history run identity mismatch"
  raise_if (text_eq from_publication.publication_run r.target_run)
      "target publication is already the current beta"
  ok (record {
    target_dir = target;
    from_publication = from_publication;
    from_sha256 = from_sha256;
    to_publication = to_publication;
    to_sha256 = to_sha256;
  })

unfoldable pub check_stable : World → Request → Text → Node → Result (Unit {0})
check_stable w r snapshot_id snapshot = do
  manifest ← verify_snapshot w snapshot_id (some snapshot)
  verify_signed_rpms w r.production_key (child (codes "rpm") (some snapshot)) manifest.packages

abbrev pub check_channel : World → Request → Channel → Text → Node → Result (Unit {0})
check_channel w r beta snapshot_id snapshot = ok tt
check_channel w r stable snapshot_id snapshot = check_stable w r snapshot_id snapshot

-- All that is checked before the channel is staged again
unfoldable pub check_rollback : World → Request → Site → Result Route
check_rollback w r site = do
  check_request r
  let l = lane r.channel site
  route ← find_route w r l
  snapshot ←
      or_raise (lookup route.to_publication.snapshot_id site.snapshots)
        "rollback target immutable snapshot is missing"
  raise_if (not (is_plain_dir (some snapshot))) "rollback target immutable snapshot is missing"
  verified ← verify_signed_remote_publication w (some route.target_dir) (some snapshot) r.channel
  check_channel w r r.channel route.to_publication.snapshot_id snapshot
  raise_if (contains r.rollback_run l.rollbacks) "rollback evidence run already exists"
  ok route

unfoldable pub evidence_of : Request → Route → Evidence
evidence_of r route = record {
  channel = r.channel;
  rollback_run = r.rollback_run;
  rolled_back_at = r.now;
  reason = strip r.reason;
  from_publication_run = route.from_publication.publication_run;
  from_snapshot_id = route.from_publication.snapshot_id;
  from_publication_sha256 = route.from_sha256;
  to_publication_run = route.to_publication.publication_run;
  to_snapshot_id = route.to_publication.snapshot_id;
  to_publication_sha256 = route.to_sha256;
}

-- The evidence is written where there is none.
unfoldable pub record_evidence : Request → Evidence → Site → Site × Result Evidence
record_evidence r evidence site =
    let l = lane r.channel site in
    if contains r.rollback_run l.rollbacks
    then (site, err "rollback evidence run already exists")
    else (
      set_lane r.channel (record l { rollbacks = insert r.rollback_run evidence l.rollbacks }) site,
      ok evidence,
    )

-- What follows the staging
unfoldable pub finish_rollback : Request → Route → Site → Result Staged → Site × Result Evidence
finish_rollback r route site (err e) = (site, err e)
finish_rollback r route site (ok staged) =
    if staged.changed
    then record_evidence r (evidence_of r route) site
    else (site, err "rollback did not change the beta publication")

-- `rollback_remote_channel`; the schema of the evidence is one that it meets.
unfoldable pub rollback_remote_channel : World → Request → Site → Site × Result Evidence
rollback_remote_channel w r site = elim (check_rollback w r site) [
  | err e ↦ (site, err e)
  | ok route ↦
      let after = stage_remote_channel w route.target_dir r.channel site in
      finish_rollback r route after.0 after.1
]
