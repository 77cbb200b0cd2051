-- ===== src/Trust.antt =====
-- tools/v3_backend_trust.py: base64url, and the verification of a signed envelope. SHA-256, `openssl`
-- and the JSON library with its schemas are parameters.
mod Tests
pub mod Base64
pub mod Attested
use ro_repo.Base.{
  ℕ, ◌+◌, Bool, true, false, Option, none, some, List, [], ◌∷◌, Result, ok, err, ◌>>=◌, ◌>>◌,
  raise_if, or_raise, not, all, ltb, leb, ◌==◌, ◌&&◌, ◌||◌, length,
}
use ro_repo.Base.Text.{Text, codes, text_eq, is_digit}
use ro_repo.Trust.Base64.{b64}

-- SHA-256 and the two uses of `openssl`
pub record Crypto : Type 0 where
  pub sha256 : Text → Text
  -- `openssl pkey`: the key is an RSA key of 2048 to 8192 bits
  pub is_rsa_key : Text → Bool
  -- `openssl dgst -sha256 -verify`: key, data, signature
  pub verifies : Text → Text → Text → Bool

-- `HEX`
unfoldable pub is_hex_digest : Text → Bool
is_hex_digest t = (length t == 64) && all (λ (c : ℕ). is_digit c || (leb b'a' c && leb c b'f')) t

-- `verify_bytes`
unfoldable pub verify_bytes : Crypto → Text → Text → Text → Text → Result (Unit {0})
verify_bytes crypto public_key expected_sha256 content signature = do
  raise_if
      (not (is_hex_digest expected_sha256)
        || not (text_eq (crypto.sha256 public_key) expected_sha256))
      "independent signing key pin mismatch"
  raise_if (not (crypto.is_rsa_key public_key)) "pinned RSA signing key must be 2048..8192 bits"
  raise_if (not (crypto.verifies public_key content signature)) "invalid asymmetric signature"

-- An envelope, as the JSON library reads it with exactly its four keys and as its schema wants it
pub record Envelope (P : Type 0) : Type 0 where
  pub domain : Text
  pub role : Text
  pub payload : P
  pub signature : Text

-- The JSON library for the payloads of one kind: `strict_json`, with the schema; `canonical` of what is
-- signed; and the two times of a payload, where they are integers. None of them is negative.
pub record Codec (P : Type 0) : Type 0 where
  pub read : Text → Option (Envelope P)
  pub canonical : Text → Text → P → Text
  pub issued_at : P → Option ℕ
  pub expires_at : P → Option ℕ

-- How long an attestation may be valid
unfoldable pub check_times : ℕ → ℕ → ℕ → Result (Unit {0})
check_times issued expires now =
    raise_if
      (not (leb issued now)
        || not (ltb now expires)
        || not (ltb issued expires)
        || not (leb expires (issued + 86400)))
      "expired attestation"

-- The checks of the payload: the expected bindings, and the times
unfoldable pub check_payload : {P : Type 0} → Codec P → (P → Bool) → ℕ → P → Result (Unit {0})
check_payload codec matches now payload = do
  raise_if (not (matches payload)) "altered attestation bindings"
  issued ← or_raise (codec.issued_at payload) "expired attestation"
  expires ← or_raise (codec.expires_at payload) "expired attestation"
  check_times issued expires now

-- The signature of an envelope
unfoldable pub check_signature :
    {P : Type 0} → Crypto → Codec P → Text → Text → Envelope P → Result (Unit {0})
check_signature crypto codec public_key key_sha256 envelope = do
  signature ← b64 envelope.signature
  verify_bytes crypto public_key key_sha256
      (codec.canonical envelope.domain envelope.role envelope.payload) signature

abbrev pub backend_domain : Text
backend_domain = codes "ro-repo-v3-backend-1"

-- `verify_envelope`; `matches` compares the payload with the expected bindings. It returns the payload.
unfoldable pub verify_envelope :
    {P : Type 0} → Crypto → Codec P → Text → Text → Text → Text → (P → Bool) → ℕ → Result P
verify_envelope crypto codec raw role public_key key_sha256 matches now = do
  envelope ← or_raise (codec.read raw) "invalid JSON or invalid signed backend envelope schema"
  raise_if (not (text_eq envelope.domain backend_domain) || not (text_eq envelope.role role))
      "attestation domain/role substitution"
  check_signature crypto codec public_key key_sha256 envelope
  check_payload codec matches now envelope.payload
  ok envelope.payload
