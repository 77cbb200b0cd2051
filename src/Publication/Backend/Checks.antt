-- ===== src/Publication/Backend/Checks.antt =====
-- The checks of each stage of `Backend` in tools/v3_publication_backend.py write no attempt.
use ro_repo.Base.{ℕ, ◌≡◌, refl, ap, ok, arith, inl, inr, Bool-cases, Result-cases, ==_iff}
use ro_repo.Base.Text.{Text, codes}
use ro_repo.Base.Dict.{text_key}
use ro_repo.Publication.Records.{
  verified, composed, tested, awaiting_approval, authorized, signed, staged, remote_verified,
  published, post_verified, Tables, Verification, Head,
}
use ro_repo.Publication.Ledger.{Audit, consume, integrity}
use ro_repo.Publication.Backend.{
  evidence_of, authorized_of, signed_of, remote_of, fresh, fresh_remote,
}
use ro_repo.Publication.Backend.Stages.{
  Evidence, VerifiedResult, Approval, StagedView, validate_evidence, validate_result, validate_test,
  validate_nothing,
}
use ro_repo.Publication.Backend.Publish.{
  validate_approval, validate_signature, validate_staging, validate_pre, validate_post,
  validate_publish, is_at_base, check_approval, check_remote, consume_approval, mark_verified,
  advertised, is_resumed,
}
use ro_repo.Publication.Backend.Kept.{Keeps, Held, same-Held}

pub evidence-Keeps : (e : Evidence) → Keeps verified (validate_evidence e)
unfolding Keeps validate_evidence
evidence-Keeps e events t stored checked h = same-Held verified stored t checked refl (ground arith)

pub result-Keeps : (r : VerifiedResult) → Keeps composed (validate_result r)
unfolding Keeps validate_result
result-Keeps r events t stored checked h = same-Held composed stored t checked refl (ground arith)

pub test-Keeps : (e : Evidence) → Keeps tested (validate_test e)
unfolding Keeps validate_test
test-Keeps e events t stored checked h =
    same-Held tested stored t checked refl (elim (Result-cases (evidence_of verified stored)) [
      | inl (x, p) ↦ ground arith
      | inr (x, p) ↦ ground arith
    ])

pub nothing-Keeps : Keeps awaiting_approval validate_nothing
unfolding Keeps validate_nothing
nothing-Keeps events t stored checked h =
    same-Held awaiting_approval stored t checked refl (ground arith)

pub consume-Same :
    (t t' : Tables) (kind identity attempt : Text)
    → consume t kind identity attempt ≡ ok t'
    → (t'.attempts ≡ t.attempts) × (t'.head ≡ t.head)
unfolding consume
consume-Same t t' kind identity attempt h = ground arith

pub consume_approval-Same :
    (t t' : Tables) (p : Approval) (attempt : Text)
    → consume_approval t p attempt ≡ ok t'
    → (t'.attempts ≡ t.attempts) × (t'.head ≡ t.head)
unfolding consume_approval
consume_approval-Same t t' p attempt h =
    elim (Result-cases (consume t (codes "approval") p.approval_sha256 attempt)) [
      | inl (y, r) ↦ ground arith
      | inr (t₁, r) ↦ elim (Result-cases (consume t₁ (codes "witness") p.witness_sha256 attempt)) [
        | inl (y, r₂) ↦ ground arith
        | inr (t₂, r₂) ↦ elim (Result-cases (consume t₂ (codes "jwt-jti") p.jti attempt)) [
          | inl (y, r₃) ↦ ground arith
          | inr (t₃, r₃) ↦
              let last : consume t₃ (codes "authorization") p.sha256 attempt ≡ ok t' =
                ground arith in
              let (e₁, d₁) = consume-Same t t₁ _ _ _ r in
              let (e₂, d₂) = consume-Same t₁ t₂ _ _ _ r₂ in
              let (e₃, d₃) = consume-Same t₂ t₃ _ _ _ r₃ in
              let (e₄, d₄) = consume-Same t₃ t' _ _ _ last in
              (rw (e₄, e₃, e₂) e₁, rw (d₄, d₃, d₂) d₁)
        ]
      ]
    ]

pub approval-Keeps :
    (a : Audit) (attempt : Text) (p : Approval) → Keeps authorized (validate_approval a attempt p)
unfolding Keeps Held validate_approval
approval-Keeps a attempt p events t stored checked h =
    elim (Result-cases (check_approval a attempt p stored)) [
      | inl (x, q) ↦ ground arith
      | inr (x, q) ↦
          let (e, d) = consume_approval-Same t checked p attempt (ground arith) in
          (e, inl (ap (λ (w : Head). w.generation) d, inl refl))
    ]

pub signature-Keeps :
    (a : Audit) (v : StagedView) (now : ℕ) → Keeps signed (validate_signature a v now)
unfolding Keeps validate_signature
signature-Keeps a v now events t stored checked h =
    same-Held signed stored t checked refl (elim (Result-cases (authorized_of stored)) [
      | inl (x, p) ↦ ground arith
      | inr ((x, n), p) ↦ ground arith
    ])

pub staging-Keeps : (v : StagedView) (now : ℕ) → Keeps staged (validate_staging v now)
unfolding Keeps validate_staging
staging-Keeps v now events t stored checked h =
    same-Held staged stored t checked refl (elim (Result-cases (authorized_of stored)) [
      | inl (x, p) ↦ ground arith
      | inr ((x, n), p) ↦ elim (Result-cases (fresh n now)) [
        | inl (y, q) ↦ ground arith
        | inr (y, q) ↦ elim (Result-cases (signed_of stored)) [
          | inl (z, r) ↦ ground arith
          | inr (z, r) ↦ ground arith
        ]
      ]
    ])

pub pre-Keeps : (r : Verification) (now : ℕ) → Keeps remote_verified (validate_pre r now)
unfolding Keeps validate_pre
pre-Keeps r now events t stored checked h =
    same-Held remote_verified stored t checked refl
      (elim (Result-cases (check_remote r now stored)) [
        | inl (x, p) ↦ ground arith
        | inr (x, p) ↦ ground arith
      ])

pub post-Keeps :
    (a : Audit) (attempt : Text) (r : Verification) (now : ℕ)
    → Keeps post_verified (validate_post a attempt r now)
unfolding Keeps Held validate_post mark_verified
post-Keeps a attempt r now events t stored checked h =
    elim (Result-cases (check_remote r now stored)) [
      | inl (x, p) ↦ ground arith
      | inr (x, p) ↦
          elim (Result-cases
            (integrity a (record { tables = t; events = events }) r.advertisement_checkpoint)) [
              | inl (y, q) ↦ ground arith
              | inr (y, q) ↦
                  let is : mark_verified attempt r t ≡ checked = ground arith in
                  (rw (← is) refl, inl (rw (← is) refl, inl refl))
            ]
    ]

pub publish-Keeps : (p : Approval) (now : ℕ) → Keeps published (validate_publish p now)
unfolding Keeps Held validate_publish advertised is_at_base
publish-Keeps p now events t stored checked h = elim (Result-cases (remote_of stored)) [
  | inl (x, q) ↦ ground arith
  | inr (x, q) ↦ elim (Result-cases (fresh_remote x now)) [
    | inl (y, r) ↦ ground arith
    | inr (y, r) ↦ elim (Result-cases (authorized_of stored)) [
      | inl (z, u) ↦ ground arith
      | inr ((z, n), u) ↦ elim (Bool-cases (is_resumed stored)) [
        | inl b ↦ (ground arith, inl (ground arith, inr b))
        | inr b ↦ (
          ground arith,
          inr (ground (arith, ==_iff t.head.generation stored.base_generation), ground arith),
        )
      ]
    ]
  ]
]
