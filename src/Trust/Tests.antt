-- ===== src/Trust/Tests.antt =====
-- An envelope with an empty payload, and two bytes in base64url.
use native.Mathlib.Decide.{ℕ_discrete}
use ro_repo.Base.{ℕ, ◌≡◌, ◌↔◌, refl, true, false, some, List, [], ◌∷◌, ok}
use ro_repo.Base.Text.{Text, codes, is_digit, is_alpha}
use ro_repo.Trust.Base64.{letter, bits, encode, decode, is_letter, b64}
use ro_repo.Trust.Base64.RoundTrip.{IsBytes, b64_iff}
use ro_repo.Trust.{
  Crypto, is_hex_digest, verify_bytes, Envelope, Codec, check_times, check_payload, check_signature,
  verify_envelope,
}
use ro_repo.Base.{is_empty}
use ro_repo.Trust.Attested.{Attested, verify_envelope-Attested}

abbrev two_bytes : List ℕ
two_bytes = 0 ∷ 255 ∷ []

b64_iff_example :
    (b64 (codes "AP8") ≡ ok two_bytes)
    ↔ (IsBytes two_bytes × (is_empty two_bytes ≡ false) × (codes "AP8" ≡ encode two_bytes))
b64_iff_example = b64_iff (codes "AP8") two_bytes

abbrev pin : Text
pin = codes "0123456789abcdef0123456789abcdef0123456789abcdef0123456789abcdef"

abbrev crypto : Crypto
crypto = record {
  sha256 = λ t. pin;
  is_rsa_key = λ k. true;
  verifies = λ k content signature. true;
}

abbrev envelope : Envelope ℕ
envelope = record {
  domain = codes "ro-repo-v3-backend-1";
  role = codes "publication";
  payload = 5;
  signature = codes "AP8";
}

abbrev codec : Codec ℕ
codec = record {
  read = λ raw. some envelope;
  canonical = λ domain role p. domain;
  issued_at = λ p. some 10;
  expires_at = λ p. some 20;
}

verify_envelope-Attested_example :
    Attested crypto codec (codes "e") (codes "publication") (codes "k") pin (λ p. true) 15 5
unfolding ℕ_discrete is_digit is_alpha letter bits encode decode is_letter b64 is_hex_digest
    verify_bytes check_times check_payload check_signature verify_envelope
verify_envelope-Attested_example =
    verify_envelope-Attested crypto codec (codes "e") (codes "publication") (codes "k") pin
      (λ p. true) 15 5 refl
