-- ===== src/Site/Verify.antt =====
-- `verify_signed_remote_publication` of tools/ro_repo.py.
use ro_repo.Base.{
  ℕ, Bool, true, false, Option, none, some, List, [], ◌∷◌, Result, ok, err, ◌>>=◌, ◌>>◌, raise_if,
  or_raise, not, if◌then◌else◌, is_empty, all, ◌&&◌, ◌||◌, leb, ◌==◌, length,
}
use ro_repo.Base.Text.{Text, codes, text_eq, has_text, rsplit, is_blank, is_digit}
use ro_repo.Base.Paths.{parts_of, starts_with_slash}
use ro_repo.Site.Tree.{Node, child, bytes_of, is_plain_dir, is_plain_file, is_link}
use ro_repo.Site.Records.{
  World, Channel, Publication, Package, Manifest, App, no_object, app, channel_eq, is_run,
  load_publication, load_manifest, verify_gpg_signature, tree_digest, digest,
}

-- `_parse_snapshot_nevra`, which the caller takes the name of
unfoldable pub parse_snapshot_nevra : World → Text → Result Text
parse_snapshot_nevra w nevra = do
  (without_arch, arch) ← or_raise (rsplit b'.' nevra) "invalid snapshot NEVRA"
  (name_epoch_version, release) ← or_raise (rsplit b'-' without_arch) "invalid snapshot NEVRA"
  (name_epoch, version) ← or_raise (rsplit b':' name_epoch_version) "invalid snapshot NEVRA"
  (name, epoch) ← or_raise (rsplit b'-' name_epoch) "invalid snapshot NEVRA"
  raise_if
      (is_empty name
        || is_empty epoch
        || not (all w.is_digit_char epoch)
        || is_empty version
        || is_empty release
        || is_empty arch)
      "invalid snapshot NEVRA"
  ok name

-- The walk of `_safe_store_asset` to the asset, whose bytes are the result
unfoldable pub walk_asset : Option Node → List Text → Result Text
walk_asset here [] = or_raise (bytes_of here) "store asset missing or unsafe"
walk_asset here (part ∷ parts) =
    let rest = walk_asset (child part here) parts in
    if is_link (child part here) then err "symlink forbidden in store asset path" else rest

-- `_safe_store_asset`: without links and `..` the asset cannot lie outside its root.
unfoldable pub safe_store_asset : Option Node → Text → Result Text
safe_store_asset root relative = do
  raise_if (is_blank relative) "store asset path must be non-empty"
  raise_if (starts_with_slash relative || has_text (codes "..") (parts_of relative))
      "unsafe store asset path"
  raise_if (not (is_plain_dir root)) "store asset root is missing or unsafe"
  walk_asset root (parts_of relative)

-- `snapshot_packages`
unfoldable pub snapshot_packages : World → List Package → Result (List Text)
snapshot_packages w [] = ok []
snapshot_packages w (item ∷ items) =
    let rest = snapshot_packages w items in
    let first = parse_snapshot_nevra w item.nevra in
    if text_eq item.architecture (codes "src") || text_eq item.architecture (codes "nosrc")
    then rest
    else (do name ← first; names ← rest; ok (name ∷ names))

-- `[0-9a-f]{64}`
unfoldable pub is_sha256 : Option Text → Bool
is_sha256 none = false
is_sha256 (some t) = (length t == 64) && all (λ (c : ℕ). is_digit c || (leb b'a' c && leb c b'f')) t

abbrev is_version_2 : Option ℕ → Bool
is_version_2 none = false
is_version_2 (some n) = n == 2

abbrev equals : Option Text → Text → Bool
equals none t = false
equals (some s) t = text_eq s t

unfoldable pub check_icon : World → Option Node → Text → Option Text → Result (Unit {0})
check_icon w store icon expected = do
  raise_if (not (is_sha256 expected)) "Ro-Store icon digest missing"
  content ← safe_store_asset store icon
  raise_if (not (equals expected (digest w content))) "Ro-Store icon digest mismatch"

abbrev check_icon_if : World → Option Node → Option Text → Option Text → Result (Unit {0})
check_icon_if w store none expected = ok tt
check_icon_if w store (some []) expected = ok tt
check_icon_if w store (some (c ∷ cs)) expected = check_icon w store (c ∷ cs) expected

-- The loop over the applications of the catalog
unfoldable pub check_apps :
    World → Option Node → List Text → List Text → List App → Result (Unit {0})
check_apps w store known seen [] = ok tt
check_apps w store known seen (no_object ∷ apps) = err "invalid Ro-Store catalog application entry"
check_apps w store known seen (app none icon sha ∷ apps) =
    err "Ro-Store catalog contains unknown package"
check_apps w store known seen (app (some name) icon sha ∷ apps) = do
  raise_if (is_empty name || not (has_text name known)) "Ro-Store catalog contains unknown package"
  raise_if (has_text name seen) "duplicate Ro-Store catalog package"
  check_icon_if w store icon sha
  check_apps w store known (name ∷ seen) apps

-- A signed store: its tree, its catalog, and the packages and icons that the catalog names
unfoldable pub check_store : World → Option Node → Text → Manifest → Result (Unit {0})
check_store w store expected manifest = do
  raise_if (not (is_plain_dir store)) "signed Ro-Store publication is missing"
  actual ← tree_digest w store
  raise_if (not (text_eq actual expected)) "Ro-Store publication tree digest mismatch"
  let catalog_path = child (codes "catalog.json") store
  let catalog_signature = child (codes "catalog.json.asc") store
  raise_if (not (is_plain_file catalog_path)) "Ro-Store catalog is missing"
  raise_if (not (is_plain_file catalog_signature)) "Ro-Store catalog signature is missing"
  verify_gpg_signature w catalog_path catalog_signature manifest.metadata_signing_fingerprint
  content ← or_raise (bytes_of catalog_path) "cannot read JSON"
  catalog ← or_raise (w.read_catalog content) "cannot read JSON"
  raise_if (not (is_version_2 catalog.schema_version)) "unsupported Ro-Store catalog schema"
  raise_if (not (equals catalog.snapshot_id manifest.snapshot_id))
      "Ro-Store catalog snapshot mismatch"
  apps ← or_raise catalog.apps "Ro-Store catalog apps must be an array"
  known ← snapshot_packages w manifest.packages
  check_apps w store known [] apps

abbrev exists : Option Node → Bool
exists none = false
exists (some n) = true

abbrev pub check_store_if : World → Option Node → Option Text → Manifest → Result (Unit {0})
check_store_if w store none manifest =
    raise_if (exists store) "legacy publication contains unbound Ro-Store metadata"
check_store_if w store (some expected) manifest = check_store w store expected manifest

-- `verify_signed_remote_publication`
unfoldable pub verify_signed_remote_publication :
    World → Option Node → Option Node → Channel → Result Publication
verify_signed_remote_publication w publication_dir snapshot channel = do
  manifest ← load_manifest w (child (codes "repository-snapshot-v1.json") snapshot)
  let publication_path = child (codes "publication-v1.json") publication_dir
  let signature_path = child (codes "publication-v1.json.asc") publication_dir
  raise_if (not (is_plain_file publication_path)) "remote publication manifest missing"
  raise_if (not (is_plain_file signature_path)) "remote publication signature missing"
  publication ← load_publication w publication_path
  raise_if (not (channel_eq publication.channel channel)) "remote publication channel mismatch"
  raise_if (not (text_eq publication.snapshot_id manifest.snapshot_id))
      "remote publication snapshot mismatch"
  raise_if (not (is_run publication.publication_run))
      "remote publication run is not an exact numeric identity"
  verify_gpg_signature w publication_path signature_path manifest.metadata_signing_fingerprint
  check_store_if w (child (codes "store") publication_dir) publication.store_tree_sha256 manifest
  ok publication
