-- ===== src/Policy/Validation/Consistent.antt =====
-- What a claim that tools/v3_group_validation.py accepts has evidence of.
use ro_repo.Base.{
  ◌≡◌, refl, ap, sym, true, Option, none, some, List, [], ◌∷◌, ok, arith, ◌⊎◌, inl, inr, Bool-cases,
  Option-cases, Result-cases, all, ◌&&◌,
}
use ro_repo.Base.Text.{
  all-has_text, Text, codes, text_eq, text_eq_iff, has_text, has_text-add_text, has_text-add_texts,
}
use ro_repo.Base.Dict.{In, text_key}
use ro_repo.Planner.Nevra.{Package}
use ro_repo.Planner.Registry.{policies}
use ro_repo.Planner.Plan.{Plan}
use ro_repo.Policy.Profile.{Registry, planner_view, producers_of, find_group, Profile, profile}
use ro_repo.Policy.Validation.{
  CheckFields, Check, no_check, check, ClaimFields, claim, Readers, check_identity, check_run,
  binary_arches, arches_of, check_baselines, passes_option, has_pair, check_fields, check_checks,
  covers, Assessment, policy_tests, check_evidence, validate_claim,
}

-- A check of the claim that passed, of the candidate and of exactly the packages that would be stable
pub record Passed (plan : Plan) (stable_set : Text) (cs : List Check) (a t : Text) : Type 0 where
  pub fields : CheckFields
  pub listed : In (check fields) cs
  pub architecture : fields.architecture ≡ some a
  pub name : fields.name ≡ some t
  pub result : fields.result ≡ some (codes "pass")
  pub candidate : fields.candidate_sha256 ≡ some plan.candidate_sha256
  pub stable : fields.stable_set_sha256 ≡ some stable_set

passes_option_sound : (s : Text) (o : Option Text) → passes_option (text_eq s) o ≡ true → o ≡ some s
passes_option_sound s none h = ground arith
passes_option_sound s (some t) h = ap some (sym ((text_eq_iff s t).0 h))

check_fields-Passed :
    (plan : Plan) (stable_set : Text) (arches allowed : List Text) (seen : List (Text × Text))
    (c : Check) (cs : List Check) (a t : Text)
    → check_fields plan stable_set arches allowed seen c ≡ ok (a, t)
    → Passed plan stable_set (c ∷ cs) a t
unfolding check_fields
check_fields-Passed plan stable_set arches allowed seen no_check cs a t h = ground arith
check_fields-Passed plan stable_set arches allowed seen (check c) cs a t h =
    elim (Option-cases c.architecture) [
      | inl q ↦ ground arith
      | inr (b, q) ↦ elim (Option-cases c.name) [
        | inl u ↦ ground arith
        | inr (n, u) ↦
            let one : b ≡ a = ground arith in
            let two : n ≡ t = ground arith in
            record {
              fields = c;
              listed = inl refl;
              architecture = rw (← one) q;
              name = rw (← two) u;
              result = passes_option_sound (codes "pass") c.result (ground arith);
              candidate =
                  passes_option_sound plan.candidate_sha256 c.candidate_sha256 (ground arith);
              stable = passes_option_sound stable_set c.stable_set_sha256 (ground arith);
            }
      ]
    ]

later :
    (plan : Plan) (stable_set : Text) (c : Check) (cs : List Check) (a t : Text)
    → Passed plan stable_set cs a t
    → Passed plan stable_set (c ∷ cs) a t
later plan stable_set c cs a t p = record {
  fields = p.fields;
  listed = inr p.listed;
  architecture = p.architecture;
  name = p.name;
  result = p.result;
  candidate = p.candidate;
  stable = p.stable;
}

check_checks-Passed :
    (plan : Plan) (stable_set : Text) (arches allowed : List Text) (seen seen' : List (Text × Text))
    (cs : List Check) (a t : Text)
    → check_checks plan stable_set arches allowed seen cs ≡ ok seen'
    → has_pair a t seen' ≡ true
    → (has_pair a t seen ≡ true) ⊎ Passed plan stable_set cs a t
unfolding check_checks
check_checks-Passed plan stable_set arches allowed seen seen' [] a t h m = inl (ground arith)
check_checks-Passed plan stable_set arches allowed seen seen' (c ∷ cs) a t h m =
    elim (Result-cases (check_fields plan stable_set arches allowed seen c)) [
      | inl (e, q) ↦ ground arith
      | inr ((b, n), q) ↦
          elim (check_checks-Passed plan stable_set arches allowed ((b, n) ∷ seen) seen' cs a t
            (ground arith) m) [
              | inr p ↦ inr (later plan stable_set c cs a t p)
              | inl k ↦ elim (Bool-cases (text_eq a b && text_eq t n)) [
                | inr d ↦ inl (ground arith)
                | inl d ↦
                    let one : b ≡ a = ground (arith, text_eq_iff a b) in
                    let two : n ≡ t = ground (arith, text_eq_iff t n) in
                    inr (
                      check_fields-Passed plan stable_set arches allowed seen c cs a t
                        (rw (one, two) at q))
              ]
            ]
    ]

covers_sound :
    (arches required : List Text) (seen : List (Text × Text)) (a t : Text)
    → covers arches required seen ≡ true
    → has_text a arches ≡ true
    → has_text t required ≡ true
    → has_pair a t seen ≡ true
covers_sound arches required seen a t h m n =
    let on =
      all-has_text (λ (b : Text). all (λ (u : Text). has_pair b u seen) required) arches a h m in
    all-has_text (λ (u : Text). has_pair a u seen) required t on n

-- A package is for its own architecture, or for both binary ones.
arches_of-In :
    (ps : List Package) (q : Package) (a : Text)
    → In q ps
    → has_text a binary_arches ≡ true
    → (q.architecture ≡ a) ⊎ (q.architecture ≡ codes "noarch")
    → has_text a (arches_of ps) ≡ true
unfolding arches_of
arches_of-In [] q a m b e = absurd m
arches_of-In (p ∷ ps) q a (inr m) b e =
    let rest = arches_of-In ps q a m b e in
    ground (
      arith,
      has_text-add_text a p.architecture (arches_of ps),
      has_text-add_texts a binary_arches (arches_of ps),
    )
arches_of-In (p ∷ ps) q a (inl same) b (inl e) =
    let is : p.architecture ≡ a = rw same at e in
    rw (is, b) (ground (arith, has_text-add_text a a (arches_of ps), text_eq_iff a a))
arches_of-In (p ∷ ps) q a (inl same) b (inr e) =
    let is : p.architecture ≡ codes "noarch" = rw same at e in
    rw is (ground (arith, has_text-add_texts a binary_arches (arches_of ps), b))

check_evidence-Passed :
    (plan : Plan) (stable_set : Text) (arches required allowed : List Text) (c : ClaimFields)
    (a t : Text)
    → check_evidence plan stable_set arches required allowed c ≡ ok tt
    → has_text a arches ≡ true
    → has_text t required ≡ true
    → (cs : List Check) × (c.checks ≡ some cs) × Passed plan stable_set cs a t
unfolding check_evidence
check_evidence-Passed plan stable_set arches required allowed c a t h m n =
    elim (Option-cases c.baselines) [
      | inl q ↦ ground arith
      | inr (bs, q) ↦ elim (Result-cases (check_baselines arches [] bs)) [
        | inl (e, u) ↦ ground arith
        | inr (tt, u) ↦ elim (Option-cases c.checks) [
          | inl v ↦ ground arith
          | inr (cs, v) ↦ elim (Result-cases (check_checks plan stable_set arches allowed [] cs)) [
            | inl (e, x) ↦ ground arith
            | inr (seen, x) ↦
                let here = covers_sound arches required seen a t (ground arith) m n in
                elim (check_checks-Passed plan stable_set arches allowed [] seen cs a t x here) [
                  | inl k ↦ ground arith
                  | inr p ↦ (cs, v, p)
                ]
          ]
        ]
      ]
    ]

policy_tests-profile :
    (w : Readers) (r : Registry) (plan : Plan) (required allowed : List Text)
    → policy_tests w r plan ≡ ok (required, allowed)
    → (p : Profile) × (profile w.sha_registry r plan.promotion_group ≡ ok p)
      × (required ≡ p.required_tests)
unfolding policy_tests
policy_tests-profile w r plan required allowed h = elim (Result-cases (policies (planner_view r))) [
  | inl (e, q) ↦ ground arith
  | inr (s, q) ↦ elim (Option-cases (find_group plan.promotion_group (producers_of r))) [
    | inl t ↦ ground arith
    | inr (found, t) ↦ elim (Result-cases (profile w.sha_registry r plan.promotion_group)) [
      | inl (e, u) ↦ ground arith
      | inr (p, u) ↦ (p, u, ground arith)
    ]
  ]
]

-- A claim that is consistent: every required test passed wherever a package would be stable.
pub record Consistent (w : Readers) (plan : Plan) (r : Registry) (c : ClaimFields) : Type 0 where
  pub policy : Profile
  pub registered : profile w.sha_registry r plan.promotion_group ≡ ok policy
  pub tested :
      (q : Package) (a t : Text)
      → In q plan.resulting_stable_packages
      → has_text a binary_arches ≡ true
      → (q.architecture ≡ a) ⊎ (q.architecture ≡ codes "noarch")
      → has_text t policy.required_tests ≡ true
      → (cs : List Check) × (c.checks ≡ some cs)
        × Passed plan (w.sha_packages plan.resulting_stable_packages) cs a t

-- A claim is accepted only if, for every package of the plan's result and each binary architecture
-- that the package is for, it has a check of every test that the profile of the promoted group
-- requires, which passed for the plan's candidate and for the digest of exactly that result.
pub validate_claim-Consistent :
    (w : Readers) (plan : Plan) (r : Registry) (c : ClaimFields) (x : Assessment)
    → validate_claim w plan r (claim c) ≡ ok x
    → Consistent w plan r c
unfolding validate_claim
validate_claim-Consistent w plan r c x h =
    let stable_set = w.sha_packages plan.resulting_stable_packages in
    let arches = arches_of plan.resulting_stable_packages in
    elim (Result-cases (policy_tests w r plan)) [
      | inl (e, q) ↦ ground arith
      | inr ((required, allowed), q) ↦ elim (Result-cases (check_identity stable_set plan c)) [
        | inl (e, t) ↦ ground arith
        | inr (tt, t) ↦ elim (Result-cases (check_run w c)) [
          | inl (e, u) ↦ ground arith
          | inr (tt, u) ↦
              elim (Result-cases (check_evidence plan stable_set arches required allowed c)) [
                | inl (e, v) ↦ ground arith
                | inr (tt, v) ↦
                    let (p, registered, same) = policy_tests-profile w r plan required allowed q in
                    record {
                      policy = p;
                      registered = registered;
                      tested = λ k a n at binary for_it needed.
                          check_evidence-Passed plan stable_set arches required allowed c a n v
                            (arches_of-In plan.resulting_stable_packages k a at binary for_it)
                            (rw same needed);
                    }
              ]
        ]
      ]
    ]
