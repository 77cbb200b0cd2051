-- ===== src/Client/Checks.antt =====
-- The checks of `Client.update` of tools/v3_client_update.py before anything is written.
use ro_repo.Base.{
  ℕ, ◌+◌, ◌-◌, Bool, true, false, Option, none, some, List, [], ◌∷◌, ◌++◌, Result, ok, err, ◌>>=◌,
  ◌>>◌, raise_if, or_raise, not, any, ltb, leb, ◌==◌, ◌&&◌, ◌||◌, if◌then◌else◌, is_empty, length,
}
use ro_repo.Base.Text.{Text, codes, text_eq, has_text, has_char}
use ro_repo.Base.Paths.{parts_of, starts_with_slash, as_posix, name_of_path}
use ro_repo.Base.Dict.{Dict}
use ro_repo.Trust.{Crypto, is_hex_digest, verify_envelope}
use ro_repo.Client.Compare.{same_payload, same_descriptor, has_url}
use ro_repo.Client.{
  Payload, Item, Descriptor, Selected, StateFile, absent, linked, unreadable, state, Client,
  Outside, Documents,
}

abbrev pub starts_with : Text → Text → Bool
starts_with [] t = true
starts_with (p ∷ ps) [] = false
starts_with (p ∷ ps) (c ∷ cs) = (p == c) && starts_with ps cs

-- `p in t`
abbrev has_part : Text → Text → Bool
has_part p [] = is_empty p
has_part p (c ∷ cs) = starts_with p (c ∷ cs) || has_part p cs

abbrev drop_text : ℕ → Text → Text
drop_text n [] = []
drop_text n (c ∷ cs) = if n == 0 then c ∷ cs else drop_text (n - 1) cs

-- `arg.split("=", 1)[1]` of the arguments that start with `--installroot=`
unfoldable pub installroots : List Text → List Text
installroots [] = []
installroots (a ∷ rest) =
    let others = installroots rest in
    if starts_with (codes "--installroot=") a then drop_text 14 a ∷ others else others

abbrev has_private_root : Outside → List Text → Bool
has_private_root o (root ∷ []) = starts_with_slash root && o.is_private_root root
has_private_root o _ = false

abbrev is_override : Text → Bool
is_override arg =
    has_part (codes "gpgcheck") arg
    || has_part (codes "sslverify") arg
    || starts_with (codes "--no-gpg") arg
    || starts_with (codes "--config") arg
    || starts_with (codes "--setopt=reposdir") arg

abbrev is_dnf5 : List Text → Bool
is_dnf5 [] = false
is_dnf5 (program ∷ arguments) = text_eq (name_of_path program) (codes "dnf5")

-- `_command`
unfoldable pub check_command : Outside → List Text → Result (Unit {0})
check_command o command = do
  raise_if (not (is_dnf5 command)) "reviewed DNF5 command required"
  raise_if (not (has_private_root o (installroots command)))
      "DNF writes require a private disposable installroot"
  raise_if (any is_override command) "client verification configuration cannot be overridden"

abbrev pub check_command_if : Outside → Option (List Text) → Result (Unit {0})
check_command_if o none = ok tt
check_command_if o (some command) = check_command o command

-- `origin.rstrip("/")`
abbrev pub strip_slashes : Text → Text
strip_slashes [] = []
strip_slashes (c ∷ cs) =
    let rest = strip_slashes cs in if (c == b'/') && is_empty rest then [] else c ∷ rest

-- `immutable_url` of tools/v3_immutable_view.py, without its disposable project
unfoldable pub immutable_url : Documents → Text → Text → Text → Result Text
immutable_url w origin digest arch = do
  raise_if (not (w.is_https_origin origin)) "independently pinned HTTPS origin required"
  raise_if
      (not (is_hex_digest digest)
        || not (has_text arch (codes "x86_64" ∷ codes "aarch64" ∷ codes "source" ∷ [])))
      "invalid immutable view identity"
  ok (strip_slashes origin ++ (codes "/v3/views/" ++ (digest ++ (codes "/rpm/" ++ arch))))

-- The contract of a discovery
unfoldable pub check_discovery : Documents → Client → Outside → Text → Result Payload
check_discovery w client o raw = do
  p ← or_raise (w.discovery_payload raw) "invalid current stable discovery contract"
  raise_if
      (not (text_eq p.nonce o.nonce)
        || not (text_eq p.origin client.origin)
        || ltb p.generation 1
        || p.publishable
        || ltb p.checkpoint.seq 1)
      "invalid current stable discovery contract"
  attested ←
      verify_envelope w.crypto w.discovery_codec raw (codes "client-discovery") client.discovery_key
        client.discovery_pin (same_payload p) o.clock
  raise_if (ltb (p.issued_at + 3600) p.expires_at) "discovery exceeds bounded freshness"
  ok p

-- `descriptor["baseurls"] == {arch: immutable_url(...)}`
unfoldable pub check_baseurls : Documents → Client → Text → Dict Text Text → Result Bool
check_baseurls w client digest urls = do
  x86_64 ← immutable_url w client.origin digest (codes "x86_64")
  aarch64 ← immutable_url w client.origin digest (codes "aarch64")
  source ← immutable_url w client.origin digest (codes "source")
  ok (
      (length urls == 3)
      && has_url urls (codes "x86_64") x86_64
      && has_url urls (codes "aarch64") aarch64
      && has_url urls (codes "source") source)

-- The publication that the discovery names
unfoldable pub check_publication : Documents → Client → Payload → Option Text → Result Descriptor
check_publication w client p answer = do
  publication ← or_raise answer "OSError"
  raise_if (not (text_eq (w.crypto.sha256 publication) p.publication_sha256))
      "discovery/publication substitution"
  d ← or_raise (w.descriptor publication) "invalid immutable publication"
  attested ←
      verify_envelope w.crypto w.publication_codec publication (codes "publication")
        client.publication_key client.publication_pin (same_descriptor d) d.issued_at
  urls ← check_baseurls w client p.result_stable_sha256 d.baseurls
  raise_if
      (not (text_eq d.result_stable_sha256 p.result_stable_sha256)
        || not (text_eq (w.sha_inventory d.inventory) p.result_stable_sha256)
        || not (text_eq d.attempt_id p.attempt_id)
        || not (text_eq d.signing_key_sha256 client.publication_pin)
        || not urls)
      "immutable discovery view binding mismatch"
  ok d

abbrev pub is_unsafe : Text → Bool
is_unsafe path =
    starts_with_slash path
    || has_text (codes "..") (parts_of path)
    || not (text_eq (as_posix path) path)
    || has_char 92 path

-- The loop over the inventory
unfoldable pub check_items : Crypto → (Text → Option Text) → List Item → Result (Unit {0})
check_items crypto read [] = ok tt
check_items crypto read (item ∷ items) = do
  raise_if (is_unsafe item.path) "unsafe immutable client member"
  raw ←
      or_raise (read item.path)
        "selected immutable public view unavailable; client transaction blocked"
  raise_if (not (text_eq (crypto.sha256 raw) item.sha256)) "incomplete/mixed client view"
  check_items crypto read items

-- The view that a discovery selects, before the state of the client is looked at
unfoldable pub check_view : Documents → Client → Outside → Result Payload
check_view w client o = do
  p ← check_discovery w client o (o.discovery o.nonce)
  reader ← o.reader client.origin p.result_stable_sha256 p.attempt_id
  d ← check_publication w client p reader.publication
  check_items w.crypto reader.read d.inventory
  raise_if (leb p.expires_at o.later_clock) "discovery expired during complete-view verification"
  ok p

-- What stands against a selected state
abbrev pub regresses : Payload → Selected → Bool
regresses p previous =
    ltb p.generation previous.generation
    || ltb p.checkpoint.seq previous.checkpoint.seq
    || ((p.generation == previous.generation)
        && not (text_eq p.result_stable_sha256 previous.result_stable_sha256))
    || ((p.checkpoint.seq == previous.checkpoint.seq)
        && not (text_eq p.checkpoint.sha256 previous.checkpoint.sha256))

unfoldable pub check_selected : Payload → StateFile → Result (Unit {0})
check_selected p absent = ok tt
check_selected p linked = err "unsafe client state"
check_selected p unreadable = err "invalid JSON"
check_selected p (state previous) =
    raise_if (regresses p previous) "client stable rollback/equivocation"
