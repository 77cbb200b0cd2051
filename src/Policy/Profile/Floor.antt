-- ===== src/Policy/Profile/Floor.antt =====
-- What a profile of tools/v3_policy_profile.py requires.
use ro_repo.Base.{
  ◌≡◌, ◌↔◌, refl, ap, true, Option, none, some, List, [], ◌∷◌, ok, arith, inl, inr, ◌⊎◌, Bool-cases,
  Option-cases, Result-cases, ◌||◌, if◌then◌else◌,
}
use ro_repo.Base.Text.{
  Text, codes, text_eq, text_eq_iff, text_eq_refl, has_text, add_texts, has_text-add_texts,
}
use ro_repo.Base.Dict.{In}
use ro_repo.Planner.Registry.{policies, ComponentFields, malformed, typed}
use ro_repo.Policy.Profile.{
  Registry, planner_view, producers_of, Found, Producer, Component, RequiredTests, no_list, tests,
  find_in, find_group, texts_of, check_tests, Profile, is_risk, base_tests, floor_of, profile_of,
  profile,
}

-- What a profile requires, of the component that the registry has for its group
pub record Floor (r : Registry) (group : Text) (p : Profile) : Type 0 where
  pub producer : Producer
  pub registered : In producer (producers_of r)
  pub component : Component
  pub component_listed : In component producer.components
  pub fields : ComponentFields
  pub fields_typed : component.fields ≡ typed fields
  pub of_group : fields.promotion_group ≡ group
  pub risk : component.risk_class ≡ some p.risk_class
  pub risk_known :
      (p.risk_class ≡ codes "normal-app")
      ⊎ (p.risk_class ≡ codes "critical-desktop")
      ⊎ (p.risk_class ≡ codes "critical-system")
  pub given : List (Option Text)
  pub tests_given : component.required_tests ≡ tests given
  pub required :
      (t : Text)
      → (has_text t p.required_tests ≡ true) ↔ (
          In (some t) given
          ⊎ (has_text t (
                codes "dependency-solve"
                ∷ codes "clean-install"
                ∷ codes "upgrade"
                ∷ codes "file-conflict"
                ∷ codes "rpmlint"
                ∷ codes "smoke"
                ∷ [])
              ≡ true)
          ⊎ ((p.risk_class ≡ codes "critical-desktop")
              × (has_text t (codes "plasma-integration" ∷ codes "login-session" ∷ []) ≡ true))
          ⊎ ((p.risk_class ≡ codes "critical-system")
              × (has_text t (codes "boot" ∷ codes "reboot" ∷ codes "recovery" ∷ codes "qemu" ∷ [])
                  ≡ true)))
  pub names : (n : Text) → has_text n p.package_names ≡ has_text n fields.package_names
  pub arches : (a : Text) → has_text a p.architectures ≡ has_text a fields.architectures
  pub days :
      p.minimum_beta_days ≡ (if text_eq p.risk_class (codes "critical-system") then 14 else 7)

-- A component that is found is one of the group, of a producer that has it.
record IsOf (group : Text) (p : Producer) (cs : List Component) (f : Found) : Type 0 where
  producer : f.producer ≡ p
  listed : In f.component cs
  fields : f.component.fields ≡ typed f.fields
  group_of : f.fields.promotion_group ≡ group

find_in-IsOf :
    (group : Text) (p : Producer) (cs : List Component) (f : Found)
    → find_in group p cs ≡ some f
    → IsOf group p cs f
unfolding find_in
find_in-IsOf group p [] f h = ground arith
find_in-IsOf group p (c ∷ cs) f h = elim (fields_cases c.fields) [
  | inl m ↦ behind (find_in-IsOf group p cs f (rw m at h))
  | inr (x, m) ↦
      let g : (if text_eq x.promotion_group group
            then some (record { producer = p; component = c; fields = x })
            else find_in group p cs)
          ≡ some f =
        rw m at h in
      elim (Bool-cases (text_eq x.promotion_group group)) [
        | inr b ↦ behind (find_in-IsOf group p cs f (rw b at g))
        | inl b ↦
            let is : record { producer = p; component = c; fields = x } ≡ f = ground arith in
            rw (← is) (record {
              producer = refl;
              listed = inl refl;
              fields = m;
              group_of = (text_eq_iff x.promotion_group group).0 b;
            })
      ]
]
  where
    fields_cases :
        (x : ro_repo.Planner.Registry.Component)
        → (x ≡ malformed) ⊎ ((f : ComponentFields) × (x ≡ typed f))
    fields_cases malformed = inl refl
    fields_cases (typed f) = inr (f, refl)

    behind : IsOf group p cs f → IsOf group p (c ∷ cs) f
    behind k = record {
      producer = k.producer;
      listed = inr k.listed;
      fields = k.fields;
      group_of = k.group_of;
    }

record IsAmong (group : Text) (ps : List Producer) (f : Found) : Type 0 where
  producer : In f.producer ps
  component : In f.component f.producer.components
  fields : f.component.fields ≡ typed f.fields
  group_of : f.fields.promotion_group ≡ group

find_group-IsAmong :
    (group : Text) (ps : List Producer) (f : Found)
    → find_group group ps ≡ some f
    → IsAmong group ps f
unfolding find_group
find_group-IsAmong group [] f h = ground arith
find_group-IsAmong group (p ∷ ps) f h = elim (Option-cases (find_in group p p.components)) [
  | inl q ↦
      let k = find_group-IsAmong group ps f (ground arith) in
      record {
        producer = inr k.producer;
        component = k.component;
        fields = k.fields;
        group_of = k.group_of;
      }
  | inr (g, q) ↦
      let is : g ≡ f = ground arith in
      let k = find_in-IsOf group p p.components g q in
      rw (← is) (record {
        producer = inl k.producer;
        component = rw k.producer k.listed;
        fields = k.fields;
        group_of = k.group_of;
      })
]

-- The texts of a list are its entries.
texts_of-In :
    (t : Text) (ts : List (Option Text)) (l : List Text)
    → texts_of ts ≡ some l
    → (has_text t l ≡ true) ↔ In (some t) ts
unfolding texts_of
texts_of-In t [] l h =
    let is : [] ≡ l = ground arith in rw (← is) (λ e. ground arith, λ m. absurd m)
texts_of-In t (none ∷ ts) l h = ground arith
texts_of-In t (some x ∷ ts) l h = elim (Option-cases (texts_of ts)) [
  | inl q ↦ ground arith
  | inr (k, q) ↦
      let is : x ∷ k ≡ l = ground arith in
      let (to, from) = texts_of-In t ts k q in
      rw (← is) (
        λ e. elim (Bool-cases (text_eq t x)) [
          | inl b ↦ inl (ap some ((text_eq_iff t x).0 b))
          | inr b ↦ inr (to (ground arith))
        ],
        λ m. elim m [
          | inl e ↦ let same : t ≡ x = ground arith in rw (same, text_eq_refl x) refl
          | inr n ↦ let here = from n in ground arith
        ],
      )
]

record AreGiven (l : List Text) (rs : RequiredTests) : Type 0 where
  given : List (Option Text)
  tests_given : rs ≡ tests given
  exact : (t : Text) → (has_text t l ≡ true) ↔ In (some t) given

check_tests-AreGiven : (rs : RequiredTests) (l : List Text) → check_tests rs ≡ ok l → AreGiven l rs
unfolding check_tests
check_tests-AreGiven no_list l h = ground arith
check_tests-AreGiven (tests ts) l h = elim (Option-cases (texts_of ts)) [
  | inl q ↦ ground arith
  | inr (k, q) ↦
      let is : k ≡ l = ground arith in
      record { given = ts; tests_given = refl; exact = λ t. texts_of-In t ts l (rw is at q) }
]

-- The tests of a risk class, of the three that there are
floor_of_iff :
    (risk t : Text)
    → (has_text t (floor_of risk) ≡ true) ↔ (
        ((risk ≡ codes "critical-desktop")
          × (has_text t (codes "plasma-integration" ∷ codes "login-session" ∷ []) ≡ true))
        ⊎ ((risk ≡ codes "critical-system")
            × (has_text t (codes "boot" ∷ codes "reboot" ∷ codes "recovery" ∷ codes "qemu" ∷ [])
                ≡ true)))
unfolding floor_of
floor_of_iff risk t = elim (Bool-cases (text_eq risk (codes "critical-desktop"))) [
  | inl b ↦
      let is = (text_eq_iff risk (codes "critical-desktop")).0 b in
      rw is (λ h. inl (refl, h), λ m. elim m [ inl (e, h) ↦ h | inr (e, h) ↦ ground arith ])
  | inr b ↦ elim (Bool-cases (text_eq risk (codes "critical-system"))) [
    | inl c ↦
        let is = (text_eq_iff risk (codes "critical-system")).0 c in
        rw is (λ h. inr (refl, h), λ m. elim m [ inl (e, h) ↦ ground arith | inr (e, h) ↦ h ])
    | inr c ↦
        rw (b, c)
          (
            λ h. ground arith,
            λ m. elim m [
              | inl (e, h) ↦ ground (arith, text_eq_iff risk (codes "critical-desktop"))
              | inr (e, h) ↦ ground (arith, text_eq_iff risk (codes "critical-system"))
            ],
          )
  ]
]

is_risk-cases :
    (t : Text)
    → is_risk t ≡ true
    → (t ≡ codes "normal-app") ⊎ (t ≡ codes "critical-desktop") ⊎ (t ≡ codes "critical-system")
unfolding is_risk
is_risk-cases t h = elim (Bool-cases (text_eq t (codes "normal-app"))) [
  | inl b ↦ inl ((text_eq_iff t _).0 b)
  | inr b ↦ elim (Bool-cases (text_eq t (codes "critical-desktop"))) [
    | inl c ↦ inr (inl ((text_eq_iff t _).0 c))
    | inr c ↦ inr (inr ((text_eq_iff t (codes "critical-system")).0 (ground arith)))
  ]
]

required_iff :
    (risk x : Text) (l : List Text) {rs : RequiredTests}
    → (g : AreGiven l rs)
    → (has_text x (add_texts (floor_of risk) (add_texts base_tests (add_texts l []))) ≡ true) ↔ (
        In (some x) g.given
        ⊎ (has_text x base_tests ≡ true)
        ⊎ ((risk ≡ codes "critical-desktop")
            × (has_text x (codes "plasma-integration" ∷ codes "login-session" ∷ []) ≡ true))
        ⊎ ((risk ≡ codes "critical-system")
            × (has_text x (codes "boot" ∷ codes "reboot" ∷ codes "recovery" ∷ codes "qemu" ∷ [])
                ≡ true)))
required_iff risk x l g =
    let whole : has_text x (add_texts (floor_of risk) (add_texts base_tests (add_texts l [])))
        ≡ (has_text x (floor_of risk) || has_text x base_tests || has_text x l) =
      ground (
        arith,
        has_text-add_texts x (floor_of risk) (add_texts base_tests (add_texts l [])),
        has_text-add_texts x base_tests (add_texts l []),
        has_text-add_texts x l [],
      ) in
    let (to, from) = floor_of_iff risk x in
    rw whole (
      λ h. elim (Bool-cases (has_text x (floor_of risk))) [
        | inl b ↦ inr (inr (to b))
        | inr b ↦ elim (Bool-cases (has_text x base_tests)) [
          | inl c ↦ inr (inl c)
          | inr c ↦ inl ((g.exact x).0 (ground arith))
        ]
      ],
      λ m. elim m [
        | inl n ↦ (let yes = (g.exact x).1 n in ground arith)
        | inr (inl c) ↦ ground arith
        | inr (inr f) ↦ (let yes = from f in ground arith)
      ],
    )

-- A profile is of a component that the registry lists for the group. It requires exactly the tests
-- listed there, the six of every group, `plasma-integration` and `login-session` where the risk is
-- `critical-desktop`, and `boot`, `reboot`, `recovery` and `qemu` where it is `critical-system`; it
-- has exactly the registered names and architectures, and a beta of 14 days for `critical-system`,
-- 7 for the others.
pub profile-Floor :
    (sha : Registry → Text) (r : Registry) (group : Text) (p : Profile)
    → profile sha r group ≡ ok p
    → Floor r group p
unfolding profile profile_of
profile-Floor sha r group p h = elim (Result-cases (policies (planner_view r))) [
  | inl (e, q) ↦ ground arith
  | inr (s, q) ↦ elim (Option-cases (find_group group (producers_of r))) [
    | inl t ↦ ground arith
    | inr (found, t) ↦ elim (Option-cases found.component.risk_class) [
      | inl u ↦ ground arith
      | inr (risk, u) ↦ elim (Result-cases (check_tests found.component.required_tests)) [
        | inl (e, v) ↦ ground arith
        | inr (l, v) ↦
            let is : profile_of (sha r) group found risk l ≡ p = ground arith in
            let k = find_group-IsAmong group (producers_of r) found t in
            let g = check_tests-AreGiven found.component.required_tests l v in
            rw (← is) (record {
              producer = found.producer;
              registered = k.producer;
              component = found.component;
              component_listed = k.component;
              fields = found.fields;
              fields_typed = k.fields;
              of_group = k.group_of;
              risk = u;
              risk_known = is_risk-cases risk (ground arith);
              given = g.given;
              tests_given = g.tests_given;
              required = λ x. required_iff risk x l g;
              names = λ n. ground (arith, has_text-add_texts n found.fields.package_names []);
              arches = λ a. ground (arith, has_text-add_texts a found.fields.architectures []);
              days = refl;
            })
      ]
    ]
  ]
]
