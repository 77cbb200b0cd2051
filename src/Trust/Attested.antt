-- ===== src/Trust/Attested.antt =====
-- What an envelope that tools/v3_backend_trust.py verifies is.
use ro_repo.Base.{
  ℕ, ◌+◌, ◌≤◌, ◌<◌, ◌≡◌, Bool, true, false, not, some, List, ok, arith, inl, inr, Bool-cases,
  Option-cases, Result-cases, ◌||◌,
}
use ro_repo.Base.Text.{Text, text_eq, text_eq_iff}
use ro_repo.Trust.Base64.{b64, encode}
use ro_repo.Trust.Base64.RoundTrip.{b64_iff}
use ro_repo.Trust.{
  Crypto, verify_bytes, Envelope, Codec, check_times, check_payload, check_signature,
  backend_domain, verify_envelope,
}

-- A signature of an envelope by the pinned key
pub record Signed {P : Type 0} (crypto : Crypto) (codec : Codec P) (public_key key_sha256 : Text)
    (envelope : Envelope P) : Type 0 where
  pub pinned : crypto.sha256 public_key ≡ key_sha256
  pub signature : List ℕ
  pub written : envelope.signature ≡ encode signature
  pub verifies :
      crypto.verifies public_key
        (codec.canonical envelope.domain envelope.role envelope.payload)
        signature
      ≡ true

-- The bindings and the times of a payload
pub record Current {P : Type 0} (codec : Codec P) (matches : P → Bool) (now : ℕ) (p : P)
    : Type 0 where
  pub bound : matches p ≡ true
  pub issued : ℕ
  pub issued_known : codec.issued_at p ≡ some issued
  pub expires : ℕ
  pub expires_known : codec.expires_at p ≡ some expires
  pub begun : issued ≤ now
  pub not_over : now < expires
  pub bounded : expires ≤ issued + 86400

-- An attestation: the pinned key signed the payload in its role, and it is valid now.
pub record Attested {P : Type 0} (crypto : Crypto) (codec : Codec P)
    (raw role public_key key_sha256 : Text) (matches : P → Bool) (now : ℕ) (p : P) : Type 0 where
  pub envelope : Envelope P
  pub read : codec.read raw ≡ some envelope
  pub payload : envelope.payload ≡ p
  pub in_domain : envelope.domain ≡ backend_domain
  pub in_role : envelope.role ≡ role
  pub signed : Signed crypto codec public_key key_sha256 envelope
  pub current : Current codec matches now p

verify_bytes_sound :
    (crypto : Crypto) (public_key key_sha256 content signature : Text)
    → verify_bytes crypto public_key key_sha256 content signature ≡ ok tt
    → (crypto.sha256 public_key ≡ key_sha256)
      × (crypto.verifies public_key content signature ≡ true)
unfolding verify_bytes
verify_bytes_sound crypto public_key key_sha256 content signature h =
    (ground (arith, text_eq_iff (crypto.sha256 public_key) key_sha256), ground arith)

check_times_sound :
    (issued expires now : ℕ)
    → check_times issued expires now ≡ ok tt
    → (issued ≤ now) × (now < expires) × (expires ≤ issued + 86400)
unfolding check_times
check_times_sound issued expires now h = (ground arith, ground arith, ground arith)

check_signature-Signed :
    {P : Type 0} (crypto : Crypto) (codec : Codec P) (public_key key_sha256 : Text)
    (envelope : Envelope P)
    → check_signature crypto codec public_key key_sha256 envelope ≡ ok tt
    → Signed crypto codec public_key key_sha256 envelope
unfolding check_signature
check_signature-Signed crypto codec public_key key_sha256 envelope h =
    elim (Result-cases (b64 envelope.signature)) [
      | inl (e, q) ↦ ground arith
      | inr (signature, q) ↦
          let content = codec.canonical envelope.domain envelope.role envelope.payload in
          let done : verify_bytes crypto public_key key_sha256 content signature ≡ ok tt =
            ground arith in
          let (pinned, verifies) =
            verify_bytes_sound crypto public_key key_sha256 content signature done in
          let (bytes, filled, written) = (b64_iff envelope.signature signature).0 q in
          record { pinned = pinned; signature = signature; written = written; verifies = verifies }
    ]

check_payload-Current :
    {P : Type 0} (codec : Codec P) (matches : P → Bool) (now : ℕ) (p : P)
    → check_payload codec matches now p ≡ ok tt
    → Current codec matches now p
unfolding check_payload
check_payload-Current codec matches now p h = elim (Option-cases (codec.issued_at p)) [
  | inl u ↦ ground arith
  | inr (issued, u) ↦ elim (Option-cases (codec.expires_at p)) [
    | inl v ↦ ground arith
    | inr (expires, v) ↦
        let done : check_times issued expires now ≡ ok tt = ground arith in
        let (begun, not_over, bounded) = check_times_sound issued expires now done in
        record {
          bound = ground arith;
          issued = issued;
          issued_known = u;
          expires = expires;
          expires_known = v;
          begun = begun;
          not_over = not_over;
          bounded = bounded;
        }
  ]
]

in_role_sound :
    (domain expected role r : Text)
    → (not (text_eq domain expected) || not (text_eq role r)) ≡ false
    → (domain ≡ expected) × (role ≡ r)
in_role_sound domain expected role r h =
    (ground (arith, text_eq_iff domain expected), ground (arith, text_eq_iff role r))

-- A verified envelope carries a canonical signature of its payload, its role and the one domain by the
-- key whose digest is pinned; its payload has the expected bindings, and the time lies in its
-- validity, which is a day at most.
pub verify_envelope-Attested :
    {P : Type 0} (crypto : Crypto) (codec : Codec P) (raw role public_key key_sha256 : Text)
    (matches : P → Bool) (now : ℕ) (p : P)
    → verify_envelope crypto codec raw role public_key key_sha256 matches now ≡ ok p
    → Attested crypto codec raw role public_key key_sha256 matches now p
unfolding verify_envelope
verify_envelope-Attested crypto codec raw role public_key key_sha256 matches now p h =
    elim (Option-cases (codec.read raw)) [
      | inl q ↦ ground arith
      | inr (envelope, q) ↦
          let b =
            not (text_eq envelope.domain backend_domain) || not (text_eq envelope.role role) in
          elim (Bool-cases b) [
            | inl t ↦ ground arith
            | inr t ↦
                elim (Result-cases (check_signature crypto codec public_key key_sha256 envelope)) [
                  | inl (e, u) ↦ ground arith
                  | inr (tt, u) ↦
                      elim (Result-cases (check_payload codec matches now envelope.payload)) [
                        | inl (e, v) ↦ ground arith
                        | inr (tt, v) ↦
                            let is : envelope.payload ≡ p = ground arith in
                            let (in_domain, in_role) =
                              in_role_sound envelope.domain backend_domain envelope.role role t in
                            record {
                              envelope = envelope;
                              read = q;
                              payload = is;
                              in_domain = in_domain;
                              in_role = in_role;
                              signed =
                                  check_signature-Signed crypto codec public_key key_sha256 envelope
                                    u;
                              current =
                                  rw (← is)
                                    (check_payload-Current codec matches now envelope.payload v);
                            }
                      ]
                ]
          ]
    ]
