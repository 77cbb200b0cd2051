-- ===== src/Policy/Profile/Complete.antt =====
-- What `require_complete` of tools/v3_policy_profile.py lets through.
use ro_repo.Base.{
  ◌∙◌, ◌≡◌, ◌↔◌, sym, true, List, [], ◌∷◌, ok, arith, inl, inr, Bool-cases, Result-cases,
}
use ro_repo.Base.Text.{
  Text, text_eq, text_eq_iff, has_text, add_text, has_text-add_text, all-has_text,
}
use ro_repo.Base.Dict.{Dict, In}
use ro_repo.Planner.Nevra.{Package}
use ro_repo.Planner.Registry.{Policies, policies}
use ro_repo.Planner.Packages.{group_of}
use ro_repo.Planner.Candidate.{Parsed, select, parse_all, names_of, same_set}
use ro_repo.Planner.Plan.{Plan}
use ro_repo.Policy.Profile.{
  Registry, planner_view, Profile, profile, groups_in, on_arch, check_arches, check_member_groups,
  require_complete,
}
use ro_repo.Policy.Profile.Members.{Member, names_of-In, Member-iff}

same_set_sound :
    (xs ys : List Text) (n : Text) → same_set xs ys ≡ true → has_text n xs ≡ has_text n ys
same_set_sound xs ys n h = elim (Bool-cases (has_text n xs)) [
  | inl b ↦
      let at = all-has_text (λ (x : Text). has_text x ys) xs n (ground arith) b in ground arith
  | inr b ↦ elim (Bool-cases (has_text n ys)) [
    | inr c ↦ ground arith
    | inl c ↦
        let at = all-has_text (λ (y : Text). has_text y xs) ys n (ground arith) c in ground arith
  ]
]

groups_in-keep :
    (owner : Dict Text Text) (ps : List Package) (gs gs' : List Text) (g : Text)
    → groups_in owner ps gs ≡ ok gs'
    → has_text g gs ≡ true
    → has_text g gs' ≡ true
unfolding groups_in
groups_in-keep owner [] gs gs' g h m = ground arith
groups_in-keep owner (p ∷ ps) gs gs' g h m = elim (Result-cases (group_of owner p)) [
  | inl (e, q) ↦ ground arith
  | inr (x, q) ↦
      groups_in-keep owner ps (add_text x gs) gs' g (ground arith)
        (ground (arith, has_text-add_text g x gs))
]

groups_in-In :
    (owner : Dict Text Text) (ps : List Package) (gs gs' : List Text) (p : Package) (g : Text)
    → groups_in owner ps gs ≡ ok gs'
    → In p ps
    → group_of owner p ≡ ok g
    → has_text g gs' ≡ true
unfolding groups_in
groups_in-In owner [] gs gs' p g h m k = absurd m
groups_in-In owner (x ∷ ps) gs gs' p g h (inl e) k =
    let here : group_of owner x ≡ ok g = rw (← e) k in
    groups_in-keep owner ps (add_text g gs) gs' g (ground arith)
      (ground (arith, has_text-add_text g g gs, text_eq_iff g g))
groups_in-In owner (x ∷ ps) gs gs' p g h (inr m) k = elim (Result-cases (group_of owner x)) [
  | inl (e, q) ↦ ground arith
  | inr (y, q) ↦ groups_in-In owner ps (add_text y gs) gs' p g (ground arith) m k
]

-- What is complete of a group: on each registered architecture it has packages of exactly the
-- registered names.
pub record GroupComplete (sha : Registry → Text) (r : Registry) (owner : Dict Text Text)
    (packages : List Package) (group : Text) : Type 0 where
  pub policy : Profile
  pub registered : profile sha r group ≡ ok policy
  pub complete :
      (arch name : Text)
      → has_text arch policy.architectures ≡ true
      → (has_text name policy.package_names ≡ true) ↔ Member owner packages group arch name

check_arches_sound :
    (policy : Profile) (members : List Parsed) (arches : List Text) (arch : Text)
    → check_arches policy members arches ≡ ok tt
    → has_text arch arches ≡ true
    → same_set (names_of (on_arch arch members)) policy.package_names ≡ true
unfolding check_arches
check_arches_sound policy members [] arch h m = ground arith
check_arches_sound policy members (a ∷ arches) arch h m = elim (Bool-cases (text_eq arch a)) [
  | inr b ↦ check_arches_sound policy members arches arch (ground arith) (ground arith)
  | inl b ↦
      let same : a ≡ arch = ground (arith, text_eq_iff arch a) in
      let here : same_set (names_of (on_arch a members)) policy.package_names ≡ true =
        ground arith in
      rw (← same) here
]

check_member_groups_sound :
    (sha : Registry → Text) (r : Registry) (owner : Dict Text Text) (packages : List Package)
    (gs : List Text) (g : Text)
    → check_member_groups sha r owner packages gs ≡ ok tt
    → has_text g gs ≡ true
    → GroupComplete sha r owner packages g
unfolding check_member_groups
check_member_groups_sound sha r owner packages [] g h m = ground arith
check_member_groups_sound sha r owner packages (x ∷ gs) g h m =
    elim (Result-cases (profile sha r x)) [
      | inl (e, q) ↦ ground arith
      | inr (policy, q) ↦ elim (Result-cases (select owner x packages)) [
        | inl (e, t) ↦ ground arith
        | inr (members, t) ↦ elim (Result-cases (parse_all members)) [
          | inl (e, u) ↦ ground arith
          | inr (parsed, u) ↦
              elim (Result-cases (check_arches policy parsed policy.architectures)) [
                | inl (e, v) ↦ ground arith
                | inr (tt, v) ↦ elim (Bool-cases (text_eq g x)) [
                  | inr b ↦
                      check_member_groups_sound sha r owner packages gs g (ground arith)
                        (ground arith)
                  | inl b ↦
                      let same : x ≡ g = ground (arith, text_eq_iff g x) in
                      rw (← same) (record {
                        policy = policy;
                        registered = q;
                        complete = λ arch name on.
                            let sets =
                              check_arches_sound policy parsed policy.architectures arch v on in
                            let one =
                              same_set_sound (names_of (on_arch arch parsed)) policy.package_names
                                name sets in
                            let two = names_of-In arch name parsed in
                            let three = Member-iff owner packages members parsed x arch name t u in
                            (λ h. three.0 (two.0 (one ∙ h)), λ k. sym one ∙ two.1 (three.1 k));
                      })
                ]
              ]
        ]
      ]
    ]

-- A plan that is complete has, of the promoted group and of every group that a package of its result
-- belongs to, on every registered architecture packages of exactly the registered names.
pub require_complete-GroupComplete :
    (sha : Registry → Text) (plan : Plan) (r : Registry) (p : Profile)
    → require_complete sha plan r ≡ ok p
    → (profile sha r plan.promotion_group ≡ ok p)
      × (s : Policies) × (policies (planner_view r) ≡ ok s)
      × GroupComplete sha r s.owner plan.resulting_stable_packages plan.promotion_group
      × ((q : Package) (g : Text)
          → In q plan.resulting_stable_packages
          → group_of s.owner q ≡ ok g
          → GroupComplete sha r s.owner plan.resulting_stable_packages g)
unfolding require_complete
require_complete-GroupComplete sha plan r p h =
    let packages = plan.resulting_stable_packages in
    elim (Result-cases (profile sha r plan.promotion_group)) [
      | inl (e, q) ↦ ground arith
      | inr (x, q) ↦ elim (Result-cases (policies (planner_view r))) [
        | inl (e, t) ↦ ground arith
        | inr (s, t) ↦ elim (Result-cases (groups_in s.owner packages [])) [
          | inl (e, u) ↦ ground arith
          | inr (gs, u) ↦
              let all_of = add_text plan.promotion_group gs in
              elim (Result-cases (check_member_groups sha r s.owner packages all_of)) [
                | inl (e, v) ↦ ground arith
                | inr (tt, v) ↦
                    let is : x ≡ p = ground arith in
                    (
                      rw (← is) q,
                      s,
                      t,
                      check_member_groups_sound sha r s.owner packages all_of plan.promotion_group v
                          (ground (
                            arith,
                            has_text-add_text plan.promotion_group plan.promotion_group gs,
                            text_eq_iff plan.promotion_group plan.promotion_group,
                          )),
                      λ k g m of_g. check_member_groups_sound sha r s.owner packages all_of g v (
                          ground (
                            arith,
                            has_text-add_text g plan.promotion_group gs,
                            groups_in-In s.owner packages [] gs k g u m of_g,
                          )),
                    )
              ]
        ]
      ]
    ]
