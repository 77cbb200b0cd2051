-- ===== src/Policy/Profile/Members.antt =====
-- The members of a group on an architecture, as tools/v3_policy_profile.py collects them.
use ro_repo.Base.{
  ◌≡◌, ◌↔◌, refl, sym, Bool, true, List, [], ◌∷◌, ok, arith, inl, inr, Bool-cases, Result-cases,
}
use ro_repo.Base.Text.{Text, text_eq, text_eq_iff, has_text}
use ro_repo.Base.Dict.{Dict, In}
use ro_repo.Planner.Nevra.{Package, Nevra, parse_package}
use ro_repo.Planner.Packages.{group_of}
use ro_repo.Planner.Candidate.{Parsed, select, parse_all, names_of}
use ro_repo.Planner.Candidate.Select.{select_by-In}
use ro_repo.Policy.Profile.{on_arch}

-- A package of a group on an architecture, with its name
pub record Member (owner : Dict Text Text) (packages : List Package) (group arch name : Text)
    : Type 0 where
  pub entry : Package
  pub listed : In entry packages
  pub of_group : group_of owner entry ≡ ok group
  pub nevra : Nevra
  pub parsed : parse_package entry ≡ ok nevra
  pub named : nevra.name ≡ name
  pub on : entry.architecture ≡ arch

parse_all-In :
    (ps : List Package) (l : List Parsed) (x : Parsed)
    → parse_all ps ≡ ok l
    → In x l
    → In x.entry ps × (parse_package x.entry ≡ ok x.nevra)
unfolding parse_all
parse_all-In [] l x h m = ground arith
parse_all-In (p ∷ ps) l x h m = elim (Result-cases (parse_package p)) [
  | inl (e, q) ↦ ground arith
  | inr (n, q) ↦ elim (Result-cases (parse_all ps)) [
    | inl (e, t) ↦ ground arith
    | inr (rest, t) ↦
        let is : l ≡ record { entry = p; nevra = n } ∷ rest = ground arith in
        let k = rw is at m in
        elim k [
          | inl e ↦ rw e (inl refl, q)
          | inr k ↦ let (at, parsed) = parse_all-In ps rest x t k in (inr at, parsed)
        ]
  ]
]

In-parse_all :
    (ps : List Package) (l : List Parsed) (p : Package)
    → parse_all ps ≡ ok l
    → In p ps
    → (n : Nevra) × (parse_package p ≡ ok n) × In (record { entry = p; nevra = n }) l
unfolding parse_all
In-parse_all [] l p h m = absurd m
In-parse_all (x ∷ ps) l p h m = elim (Result-cases (parse_package x)) [
  | inl (e, q) ↦ ground arith
  | inr (n, q) ↦ elim (Result-cases (parse_all ps)) [
    | inl (e, t) ↦ ground arith
    | inr (rest, t) ↦
        let is : record { entry = x; nevra = n } ∷ rest ≡ l = ground arith in
        let found : (n' : Nevra) × (parse_package p ≡ ok n')
            × In (record { entry = p; nevra = n' }) (record { entry = x; nevra = n } ∷ rest) =
          elim m [
            | inl e ↦ (n, rw e q, inl (rw e refl))
            | inr k ↦ let (n', parsed, at) = In-parse_all ps rest p t k in (n', parsed, inr at)
          ] in
        rw (← is) found
  ]
]

-- The names on an architecture
abbrev pub Named : Text → Text → List Parsed → Type 0
Named arch name l = (x : Parsed) × In x l × (x.entry.architecture ≡ arch) × (x.nevra.name ≡ name)

abbrev pub has_name : Text → Text → List Parsed → Bool
has_name arch name l = has_text name (names_of (on_arch arch l))

has_name-Named :
    (arch name : Text) (p : Parsed) (l : List Parsed)
    → (has_name arch name l ≡ true → Named arch name l)
    → has_name arch name (p ∷ l) ≡ true
    → Named arch name (p ∷ l)
has_name-Named arch name p l rest h = elim (Bool-cases (text_eq p.entry.architecture arch)) [
  | inr b ↦ let (x, m, a, n) = rest (ground arith) in (x, inr m, a, n)
  | inl b ↦ elim (Bool-cases (text_eq name p.nevra.name)) [
    | inl c ↦ (
      p,
      inl refl,
      ground (arith, text_eq_iff p.entry.architecture arch),
      ground (arith, text_eq_iff name p.nevra.name),
    )
    | inr c ↦ let (x, m, a, n) = rest (ground arith) in (x, inr m, a, n)
  ]
]

Named-has_name :
    (arch name : Text) (p : Parsed) (l : List Parsed)
    → (Named arch name l → has_name arch name l ≡ true)
    → Named arch name (p ∷ l)
    → has_name arch name (p ∷ l) ≡ true
Named-has_name arch name p l rest (x, inl e, a, n) =
    let on : text_eq p.entry.architecture arch ≡ true =
      (text_eq_iff p.entry.architecture arch).1 (rw e at a) in
    let named : text_eq name p.nevra.name ≡ true =
      (text_eq_iff name p.nevra.name).1 (sym (rw e at n)) in
    ground arith
Named-has_name arch name p l rest (x, inr m, a, n) =
    let here = rest (x, m, a, n) in
    elim (Bool-cases (text_eq p.entry.architecture arch)) [
      | inl b ↦ ground arith
      | inr b ↦ ground arith
    ]

-- The names on an architecture
pub names_of-In :
    (arch name : Text) (l : List Parsed) → (has_name arch name l ≡ true) ↔ Named arch name l
names_of-In arch name [] = (λ h. ground arith, λ (x, m, a, n). absurd m)
names_of-In arch name (p ∷ l) =
    let rest = names_of-In arch name l in
    (has_name-Named arch name p l rest.0, Named-has_name arch name p l rest.1)

pub Member-iff :
    (owner : Dict Text Text) (packages members : List Package) (parsed : List Parsed)
    (group arch name : Text)
    → select owner group packages ≡ ok members
    → parse_all members ≡ ok parsed
    → ((x : Parsed) × In x parsed × (x.entry.architecture ≡ arch) × (x.nevra.name ≡ name))
      ↔ Member owner packages group arch name
Member-iff owner packages members parsed group arch name h k = (to, from)
  where
    to :
        (x : Parsed) × In x parsed × (x.entry.architecture ≡ arch) × (x.nevra.name ≡ name)
        → Member owner packages group arch name
    to (x, m, a, n) =
        let (at, read) = parse_all-In members parsed x k m in
        let (listed, of_group) =
          (select_by-In (λ p. p) owner group packages members x.entry h).0 at in
        record {
          entry = x.entry;
          listed = listed;
          of_group = of_group;
          nevra = x.nevra;
          parsed = read;
          named = n;
          on = a;
        }

    from :
        Member owner packages group arch name
        → (x : Parsed) × In x parsed × (x.entry.architecture ≡ arch) × (x.nevra.name ≡ name)
    from m =
        let at =
          (select_by-In (λ p. p) owner group packages members m.entry h).1 (m.listed, m.of_group) in
        let (n, read, here) = In-parse_all members parsed m.entry k at in
        let same : n ≡ m.nevra = ground (arith, m.parsed) in
        (record { entry = m.entry; nevra = n }, here, m.on, rw same (m.named))
