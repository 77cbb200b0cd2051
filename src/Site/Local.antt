-- ===== src/Site/Local.antt =====
-- The local `publish` and `rollback` of tools/ro_repo.py: a channel is a symbolic link to a directory
-- of data, and a second link keeps the one before. The JSON printer, the schema and `gpg --detach-sign`
-- are parameters; writes and replaced links do not fail, but over a directory.
pub mod Undone
use ro_repo.Base.{
  Bool, true, false, Option, none, some, List, Result, ok, err, ◌>>=◌, ◌>>◌, raise_if, or_raise,
  not, if◌then◌else◌,
}
use ro_repo.Base.Text.{Text, codes}
use ro_repo.Base.Dict.{Dict, text_key, lookup, insert}
use ro_repo.Site.Tree.{Node, file, dir, Entries, empty, entry, child, bytes_of, copy}
use ro_repo.Site.Records.{World, Channel, Publication, Manifest, load_publication}
use ro_repo.Site.Snapshot.{verify_snapshot}
use ro_repo.Site.Promotion.{is_snapshot_id}

-- What stands at a channel's path
pub data Target : Type 0 where
  absent directory : Target
  link_to : Text → Target

-- publication/rpm/fedora/44: a channel with its previous link, and the directories of data
pub record Local : Type 0 where
  pub current : Target
  pub previous : Target
  pub published : Dict Text Node

-- The JSON printer and the signing
pub record Tools : Type 0 where
  -- the JSON of a publication
  pub print : Publication → Text
  -- `validate_schema` with publication-v1
  pub meets_schema : Publication → Bool
  -- `sign_file` with a key, if a home of `gpg` is given
  pub sign : Text → Text → Option Text

-- `shutil.copytree` of a repository; its `repomd.xml` and signature are written again as they are.
unfoldable pub copy_repository : Option Node → Text → Result Node
copy_repository rpm arch = do
  source ← or_raise (child arch rpm) "FileNotFoundError"
  content ←
      or_raise
        (bytes_of (child (codes "repomd.xml") (child (codes "repodata") (some (copy source)))))
        "FileNotFoundError"
  signature ←
      or_raise
        (bytes_of (child (codes "repomd.xml.asc") (child (codes "repodata") (some (copy source)))))
        "FileNotFoundError"
  ok (copy source)

unfoldable pub signature_of : Tools → Option Text → Text → Result Entries
signature_of tools none content = ok empty
signature_of tools (some fingerprint) content = do
  signature ← or_raise (tools.sign fingerprint content) "gpg failed"
  ok (entry (codes "publication-v1.json.asc") (file signature) empty)

-- The new directory of data
unfoldable pub make_stage : Tools → Bool → Manifest → Publication → Option Node → Result Node
make_stage tools is_signed manifest publication rpm = do
  x86_64 ← copy_repository rpm (codes "x86_64")
  aarch64 ← copy_repository rpm (codes "aarch64")
  source ← copy_repository rpm (codes "source")
  raise_if (not (tools.meets_schema publication)) "schema validation failed"
  let content = tools.print publication
  let key = if is_signed then some manifest.metadata_signing_fingerprint else none
  signature ← signature_of tools key content
  ok (
      dir (
        entry (codes "x86_64") x86_64 (
          entry (codes "aarch64") aarch64 (
            entry (codes "source") source
              (entry (codes "publication-v1.json") (file content) signature)))))

-- A channel that was a link: the previous link is written first, and neither over a directory.
unfoldable pub move_link : Text → Text → Target → Local → Local × Result (Unit {0})
move_link name old directory l = (l, err "IsADirectoryError")
move_link name old _ l = (record l { current = link_to name; previous = link_to old }, ok tt)

-- The two links, once the data is there
unfoldable pub swap_links : Text → Node → Local → Local × Result (Unit {0})
swap_links name stage l = elim l.current [
  | absent ↦ (record l { current = link_to name; published = insert name stage l.published }, ok tt)
  | directory ↦ (record l { published = insert name stage l.published }, err "IsADirectoryError")
  | link_to old ↦
      move_link name old l.previous (record l { published = insert name stage l.published })
]

-- `publish`, with the name that `uuid4` gives to the data; data that is left incomplete by an error is
-- named by no link, and is absent.
unfoldable pub publish :
    World → Tools → Text → Publication → Option Node → Bool → Local → Local × Result (Unit {0})
publish w tools name publication snapshot is_signed l =
    let stage = (do
      raise_if (not (is_snapshot_id publication.snapshot_id)) "invalid snapshot ID schema"
      manifest ← verify_snapshot w publication.snapshot_id snapshot
      make_stage tools is_signed manifest publication (child (codes "rpm") snapshot)) in
    elim stage [ err e ↦ (l, err e) | ok node ↦ swap_links name node l ]

-- `rollback`; the two links are swapped before the publication is read.
unfoldable pub rollback : World → Local → Local × Result Text
rollback w l = elim l.current [
  | link_to now ↦ elim l.previous [
    | link_to old ↦ (
      record l { current = link_to old; previous = link_to now },
      (do
        p ← load_publication w (child (codes "publication-v1.json") (lookup old l.published))
        ok p.snapshot_id),
    )
    | _ ↦ (l, err "no previous publication or not symlink")
  ]
  | _ ↦ (l, err "no previous publication or not symlink")
]
