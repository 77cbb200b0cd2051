-- ===== src/Site/Records.antt =====
-- What the remote site of tools/ro_repo.py holds, and the programs and libraries it is read with.
use ro_repo.Base.{
  ℕ, Bool, true, false, Option, none, some, List, [], ◌∷◌, Result, ◌>>=◌, raise_if, or_raise, not,
  any, all, ◌&&◌, leb,
}
use ro_repo.Base.Text.{Text, codes, text_eq, is_digit}
use ro_repo.Base.Dict.{Dict}
use ro_repo.Site.Tree.{Node, bytes_of, directory_tree_digest}

pub data Channel : Type 0 where
  beta stable : Channel

abbrev pub channel_name : Channel → Text
channel_name beta = codes "beta"
channel_name stable = codes "stable"

-- `publication-v1.json`
pub record Publication : Type 0 where
  pub channel : Channel
  pub snapshot_id : Text
  pub published_at : Text
  pub publication_run : Text
  pub store_tree_sha256 : Option Text

-- A package of `repository-snapshot-v1.json`
pub record Package : Type 0 where
  pub nevra : Text
  pub architecture : Text
  pub filename : Text
  pub published_signed_artifact_sha256 : Text

-- A repository of it
pub record Repository : Type 0 where
  pub repomd_sha256 : Text
  pub repomd_signature_sha256 : Text

-- `repository-snapshot-v1.json`
pub record Manifest : Type 0 where
  pub snapshot_id : Text
  pub packages : List Package
  pub repositories : Dict Text Repository
  pub rpm_signing_fingerprint : Text
  pub metadata_signing_fingerprint : Text

-- `store/catalog.json`, as far as the code reads it; a value of another type is absent.
pub data App : Type 0 where
  no_object : App
  app : Option Text → Option Text → Option Text → App

pub record Catalog : Type 0 where
  pub schema_version : Option ℕ
  pub snapshot_id : Option Text
  pub apps : Option (List App)

-- `rollback-evidence-v1`
pub record Evidence : Type 0 where
  pub channel : Channel
  pub rollback_run : Text
  pub rolled_back_at : Text
  pub reason : Text
  pub from_publication_run : Text
  pub from_snapshot_id : Text
  pub from_publication_sha256 : Text
  pub to_publication_run : Text
  pub to_snapshot_id : Text
  pub to_publication_sha256 : Text

-- SHA-256, the JSON and schema libraries, the character table of Python, and the programs `gpg` and
-- `rpmkeys`.
pub record World : Type 0 where
  pub sha256 : Text → Text
  pub read_publication : Text → Option Publication
  pub read_manifest : Text → Option Manifest
  pub read_catalog : Text → Option Catalog
  -- `str.isdigit` of a character
  pub is_digit_char : ℕ → Bool
  -- the fingerprints of the VALIDSIG lines of `gpg --verify`, if it succeeds
  pub gpg_verify : Text → Text → Option (List Text)
  -- `rpmkeys --checksig` of an RPM under keys
  pub checksig : List Text → Text → Bool

-- `digest`
abbrev pub digest : World → Text → Text
digest w content = w.sha256 content

abbrev pub tree_digest : World → Option Node → Result Text
tree_digest w n = directory_tree_digest w.sha256 n

-- A channel: rpm/fedora/44/<channel>, publications/fedora/44/<channel> and
-- rollbacks/fedora/44/<channel>
pub record Lane : Type 0 where
  pub current : Option Node
  pub history : Dict Text Node
  pub rollbacks : Dict Text Evidence

pub record Site : Type 0 where
  -- snapshots/fedora/44
  pub snapshots : Dict Text Node
  pub beta_lane : Lane
  pub stable_lane : Lane

abbrev pub lane : Channel → Site → Lane
lane beta s = s.beta_lane
lane stable s = s.stable_lane

abbrev pub set_lane : Channel → Lane → Site → Site
set_lane beta l s = record s { beta_lane = l }
set_lane stable l s = record s { stable_lane = l }

abbrev pub channel_eq : Channel → Channel → Bool
channel_eq beta beta = true
channel_eq beta stable = false
channel_eq stable beta = false
channel_eq stable stable = true

-- `_normalize_numeric_identity` of a text: the number that it writes is printed as the same text.
unfoldable pub is_run : Text → Bool
is_run [] = false
is_run (c ∷ cs) = leb b'1' c && leb c b'9' && all is_digit cs

-- `load` of a file, and `validate_schema`
abbrev pub load_publication : World → Option Node → Result Publication
load_publication w n = do
  content ← or_raise (bytes_of n) "cannot read JSON"
  or_raise (w.read_publication content) "cannot read JSON or schema validation failed"

abbrev pub load_manifest : World → Option Node → Result Manifest
load_manifest w n = do
  content ← or_raise (bytes_of n) "cannot read JSON"
  or_raise (w.read_manifest content) "cannot read JSON or schema validation failed"

abbrev pub has_fingerprint : Text → Option (List Text) → Bool
has_fingerprint expected none = false
has_fingerprint expected (some found) = any (text_eq expected) found

-- `verify_gpg_signature`
unfoldable pub verify_gpg_signature : World → Option Node → Option Node → Text → Result (Unit {0})
verify_gpg_signature w path signature expected = do
  content ← or_raise (bytes_of path) "gpg failed"
  sig ← or_raise (bytes_of signature) "gpg failed"
  raise_if (not (has_fingerprint expected (w.gpg_verify sig content)))
      "GPG signature verification error: wrong key used"
