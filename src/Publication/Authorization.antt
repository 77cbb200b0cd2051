-- ===== src/Publication/Authorization.antt =====
-- `request` of tools/v3_authorization.py: what an approval has to say of a proposal.
-- `verify_proposal` is absent: it is a pure check of the proposal, and a stored one has passed it.
use ro_repo.Base.{
  ℕ, ◌||◌, ◌&&◌, not, Bool, true, false, Option, none, some, [], ◌∷◌, Result, ok, ◌>>◌, raise_if,
  leb, ◌==◌, length, all,
}
use ro_repo.Base.Text.{Text, codes, text_eq, is_digit, is_alpha}
use ro_repo.Base.Dict.{text_key, contains}
use ro_repo.Publication.Records.{
  Operation, promote, recover, resume_first, Proposal, Request, option_text_eq, same_by,
  Operation-discrete, Resume,
}

-- `ID`
unfoldable pub is_id : Text → Bool
is_id [] = false
is_id (c ∷ cs) =
    (is_alpha c || is_digit c)
    && all
        (λ (d : ℕ).
          is_alpha d || is_digit d || text_eq (d ∷ []) (codes "_") || text_eq (d ∷ []) (codes "-"))
        cs
    && leb (length cs) 127

abbrev pub is_none {ℓ} : {A : Type ℓ} → Option A → Bool
is_none none = true
is_none (some a) = false

-- `operation in {"promote", "resume-first"}`
abbrev pub promotes : Operation → Bool
promotes promote = true
promotes recover = false
promotes resume_first = true

abbrev is_hex : ℕ → Text → Bool
is_hex size t = (length t == size) && all (λ (c : ℕ). is_digit c || (leb b'a' c && leb c b'f')) t

-- What a resumption says of its predecessor
unfoldable pub is_resumption : Proposal → Text → Option Text → Option Resume → Bool
is_resumption value attempt target none = false
is_resumption value attempt target (some r) =
    is_none value.previous_stable_sha256
    && is_none target
    && is_id r.predecessor
    && not (text_eq r.predecessor attempt)
    && is_hex 64 r.authorization_sha256
    && is_hex 64 r.publication_sha256
    && is_hex 40 r.storage_commit
    && leb 1 r.checkpoint.seq
    && is_hex 64 r.checkpoint.sha256

unfoldable pub request : Proposal → Text → Operation → Option Text → Option Resume → Result Request
request value attempt operation target resume = do
  raise_if (not (is_id attempt)) "invalid publication attempt identity"
  raise_if (is_none value.result_stable_sha256)
      "approval requires exact complete resulting snapshot digest"
  raise_if (promotes operation && text_eq value.mode (codes "normal") && not value.dwell_met)
      "insufficient normal dwell"
  raise_if
      (promotes operation && not (contains (codes "group-validation-claim") value.evidence_sha256))
      "mandatory component tests missing; fast-track waives only dwell"
  raise_if (not (promotes operation) && not (option_text_eq target value.result_stable_sha256))
      "recovery target was not previously verified"
  raise_if
      (same_by Operation-discrete operation resume_first
        && not (is_resumption value attempt target resume))
      "exact first-publication predecessor/checkpoint required"
  raise_if (not (same_by Operation-discrete operation resume_first) && not (is_none resume))
      "resume binding is restricted to first-publication reauthorization"
  ok (record {
    bindings = value.bindings;
    reasons = value.reasons;
    attempt_id = attempt;
    operation = operation;
    target_verified_sha256 = target;
    resume = resume;
  })
