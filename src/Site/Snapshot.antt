-- ===== src/Site/Snapshot.antt =====
-- `verify_snapshot` and `verify_signed_rpms` of tools/ro_repo.py: a stored snapshot, its repositories
-- and its signed packages.
use ro_repo.Base.{
  Bool, true, false, Option, none, some, List, [], ◌∷◌, Result, ok, ◌>>=◌, ◌>>◌, raise_if, or_raise,
  not, if◌then◌else◌, ◌||◌, ◌&&◌,
}
use ro_repo.Base.Text.{Text, codes, text_eq}
use ro_repo.Base.Dict.{Dict, text_key, insert}
use ro_repo.Site.Tree.{Node, Entries, empty, entry, child, bytes_of, entries_of}
use ro_repo.Site.Records.{
  World, Package, Repository, Manifest, load_manifest, verify_gpg_signature, digest,
}

-- `digest(path)` of a file that may be missing
abbrev digest_at : World → Option Node → Result Text
digest_at w n = do content ← or_raise (bytes_of n) "FileNotFoundError"; ok (digest w content)

unfoldable pub check_repository :
    World → Manifest → Option Node → Text → Repository → Result (Unit {0})
check_repository w manifest rpm arch info = do
  let repodata = child (codes "repodata") (child arch rpm)
  let repomd = child (codes "repomd.xml") repodata
  let signature = child (codes "repomd.xml.asc") repodata
  actual ← digest_at w repomd
  raise_if (not (text_eq actual info.repomd_sha256)) "repodata digest mismatch"
  signed ← digest_at w signature
  raise_if (not (text_eq signed info.repomd_signature_sha256)) "repodata digest mismatch"
  verify_gpg_signature w repomd signature manifest.metadata_signing_fingerprint

unfoldable pub check_repositories :
    World → Manifest → Option Node → Dict Text Repository → Result (Unit {0})
check_repositories w manifest rpm [] = ok tt
check_repositories w manifest rpm ((arch, info) ∷ infos) = do
  check_repository w manifest rpm arch info
  check_repositories w manifest rpm infos

-- The folder of a package: a `nosrc` one is not the folder `source` here.
unfoldable pub folder_of : Text → Text
folder_of arch =
    if text_eq arch (codes "src")
    then codes "source"
    else if text_eq arch (codes "noarch")
    then codes "x86_64"
    else arch

unfoldable pub check_package : World → List Text → Option Node → Package → Result Text
check_package w keys rpm item = do
  content ←
      or_raise (bytes_of (child item.filename (child (folder_of item.architecture) rpm)))
        "FileNotFoundError"
  raise_if (not (text_eq (digest w content) item.published_signed_artifact_sha256))
      "signed RPM digest mismatch"
  raise_if (not (w.checksig keys content)) "RPM signature validation failed"
  ok (digest w content)

-- The loop over the packages; it returns the digests of the `noarch` ones by their file names.
unfoldable pub check_packages :
    World → List Text → Option Node → List Package → Dict Text Text → Result (Dict Text Text)
check_packages w keys rpm [] noarch = ok noarch
check_packages w keys rpm (item ∷ items) noarch = do
  d ← check_package w keys rpm item
  check_packages w keys rpm items
      (if text_eq item.architecture (codes "noarch") then insert item.filename d noarch else noarch)

unfoldable pub check_copies : World → Option Node → Dict Text Text → Result (Unit {0})
check_copies w rpm [] = ok tt
check_copies w rpm ((filename, d) ∷ rest) = do
  content ←
      or_raise (bytes_of (child filename (child (codes "aarch64") rpm)))
        "noarch aarch64 copy mismatch"
  raise_if (not (text_eq (digest w content) d)) "noarch aarch64 copy mismatch"
  check_copies w rpm rest

abbrev starts_with : Text → Text → Bool
starts_with [] t = true
starts_with (p ∷ ps) [] = false
starts_with (p ∷ ps) (c ∷ cs) = text_eq (p ∷ []) (c ∷ []) && starts_with ps cs

-- `keys/RPM-GPG-KEY-*`
unfoldable pub keys_of : Entries → List Text
keys_of empty = []
keys_of (entry name n es) =
    let rest = keys_of es in
    if starts_with (codes "RPM-GPG-KEY-") name
    then elim (bytes_of (some n)) [ none ↦ rest | some content ↦ content ∷ rest ]
    else rest

abbrev keys_in : Option Node → List Text
keys_in n = elim (entries_of n) [ none ↦ [] | some es ↦ keys_of es ]

-- `verify_snapshot`, of a stored snapshot with its name; the manifest's schema has no
-- `target_channel`.
unfoldable pub verify_snapshot : World → Text → Option Node → Result Manifest
verify_snapshot w name snapshot = do
  let path = child (codes "repository-snapshot-v1.json") snapshot
  manifest ← load_manifest w path
  raise_if (not (text_eq manifest.snapshot_id name))
      "snapshot identity/lifecycle separation invalid"
  verify_gpg_signature w path (child (codes "repository-snapshot-v1.json.asc") snapshot)
      manifest.metadata_signing_fingerprint
  let rpm = child (codes "rpm") snapshot
  check_repositories w manifest rpm manifest.repositories
  noarch ← check_packages w (keys_in (child (codes "keys") snapshot)) rpm manifest.packages []
  check_copies w rpm noarch
  ok manifest

-- The folder of a package in `rollback_remote_channel`
unfoldable pub rollback_folder : Text → Text
rollback_folder arch =
    if text_eq arch (codes "src") || text_eq arch (codes "nosrc")
    then codes "source"
    else if text_eq arch (codes "noarch")
    then codes "x86_64"
    else arch

-- `verify_signed_rpms` of the packages of a snapshot under the production key
unfoldable pub verify_signed_rpms : World → Text → Option Node → List Package → Result (Unit {0})
verify_signed_rpms w key rpm [] = ok tt
verify_signed_rpms w key rpm (item ∷ items) = do
  content ←
      or_raise (bytes_of (child item.filename (child (rollback_folder item.architecture) rpm)))
        "rpmkeys failed"
  raise_if (not (w.checksig (key ∷ []) content)) "rpmkeys failed"
  verify_signed_rpms w key rpm items
