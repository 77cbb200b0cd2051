-- ===== src/Client.antt =====
-- tools/v3_client_update.py: a client that follows the stable view that is advertised. HTTP, the JSON
-- library with its schemas, `gpg`, `dnf5` and the resolution of paths are parameters; the files that
-- the client writes are its state, and what was written before an error stays.
pub mod Compare
pub mod Checks
pub mod Update
pub mod Forward
pub mod Verified
pub mod Failed
mod Tests
use ro_repo.Base.{ℕ, ◌+◌, Bool, true, false, Option, none, some, List, Result}
use ro_repo.Base.Text.{Text}
use ro_repo.Base.Dict.{Dict}
use ro_repo.Trust.{Crypto, Codec}

pub record Checkpoint : Type 0 where
  pub seq : ℕ
  pub sha256 : Text

-- The payload of a discovery, whose keys and types are the expected ones
pub record Payload : Type 0 where
  pub nonce : Text
  pub origin : Text
  pub generation : ℕ
  pub result_stable_sha256 : Text
  pub publication_sha256 : Text
  pub attempt_id : Text
  pub checkpoint : Checkpoint
  pub post_verification_sha256 : Text
  pub publishable : Bool
  pub issued_at : ℕ
  pub expires_at : ℕ

pub record Item : Type 0 where
  pub path : Text
  pub sha256 : Text

-- `immutable-publication-v3`
pub record Descriptor : Type 0 where
  pub result_stable_sha256 : Text
  pub inventory : List Item
  pub attempt_id : Text
  pub signing_key_sha256 : Text
  pub baseurls : Dict Text Text
  -- the keys that the client does not look at, as the canonical text of their values
  pub others : Text
  pub issued_at : ℕ

-- `client-state.json`
pub record Selected : Type 0 where
  pub generation : ℕ
  pub result_stable_sha256 : Text
  pub checkpoint : Checkpoint

pub data StateFile : Type 0 where
  absent linked unreadable : StateFile
  state : Selected → StateFile

-- A file that the client replaces
pub data File : Type 0 where
  no_file a_link : File
  content : Text → File

-- The files of a client
pub record Disk : Type 0 where
  pub selected : StateFile
  -- repos is a link
  pub repos_linked : Bool
  pub repo : File
  pub bundle : File

-- The HTTPS reader of one publication; a path that cannot be read is an `OSError`.
pub record Reader : Type 0 where
  pub publication : Option Text
  pub read : Text → Option Text

pub record Client : Type 0 where
  pub origin : Text
  pub discovery_key : Text
  pub discovery_pin : Text
  pub publication_key : Text
  pub publication_pin : Text
  pub rpm_key_url : Text
  pub metadata_key_url : Text
  pub rpm_key_sha256 : Option Text
  pub metadata_key_sha256 : Option Text
  -- root / "signing-roots.asc"
  pub bundle_path : Text

-- What an update finds outside: its nonce, the two readings of the clock, and the answers
pub record Outside : Type 0 where
  pub nonce : Text
  pub clock : ℕ
  pub later_clock : ℕ
  -- `discovery(nonce)`
  pub discovery : Text → Text
  pub reader : Text → Text → Text → Result Reader
  -- the key file that a URL names, if it is a plain one
  pub key_file : Text → Option Text
  -- `gpg --import` and `gpg --export` of the two keys
  pub merge_keys : List Text → Option Text
  -- a directory below the root of the client, once resolved
  pub is_private_root : Text → Bool
  -- whether `dnf5` succeeds
  pub dnf_succeeds : Bool

-- The JSON library
pub record Documents : Type 0 where
  pub crypto : Crypto
  -- the payload, without a look at the signature; none where keys or types are others
  pub discovery_payload : Text → Option Payload
  pub discovery_codec : Codec Payload
  pub descriptor : Text → Option Descriptor
  pub publication_codec : Codec Descriptor
  -- `sha` of an inventory
  pub sha_inventory : List Item → Text
  -- `urlsplit` accepts an HTTPS origin with nothing but a host
  pub is_https_origin : Text → Bool
