-- ===== src/Planner/Candidate/Release.antt =====
-- What `_verify_candidate` accepts: one source RPM, its binaries, all names, from one build.
use ro_repo.Base.{
  ◌≡◌, refl, sym, Bool, true, false, not, ◌&&◌, ◌||◌, List, [], ◌∷◌, ok, arith, inl, inr,
  Bool-cases, Result-cases, keep, any, all,
}
use ro_repo.Base.Text.{Text, text_eq, text_eq_iff, has_text}
use ro_repo.Base.Dict.{Dict, In}
use ro_repo.Planner.Nevra.{Package, Nevra, parse_package}
use ro_repo.Planner.Registry.{GroupPolicy}
use ro_repo.Planner.Candidate.{
  Parsed, parse_all, names_of, same_set, from_source, check_source, check_group, is_source,
  verify_candidate, Packages,
}

-- `q` was built by the source: epoch, version, release and producer manifest agree.
pub record SameBuild (source : Package) (s : Nevra) (q : Package) : Type 0 where
  pub parsed : Nevra
  pub parses : parse_package q ≡ ok parsed
  pub epoch : parsed.epoch ≡ s.epoch
  pub version : parsed.version ≡ s.version
  pub release : parsed.release ≡ s.release
  pub manifest : q.producer_manifest_digest ≡ source.producer_manifest_digest

pub record IsRelease (policy : GroupPolicy) (selected : List Package) : Type 0 where
  pub source : Package
  pub source_nevra : Nevra
  pub only_source : keep is_source selected ≡ source ∷ []
  pub source_parses : parse_package source ≡ ok source_nevra
  pub source_name : has_text source_nevra.name policy.names ≡ true
  pub same_build : (q : Package) → In q selected → SameBuild source source_nevra q
  pub architectures :
      (q : Package)
      → In q selected
      → is_source q ≡ false
      → has_text q.architecture policy.arches ≡ true
  pub names :
      (name : Text)
      → has_text name policy.names ≡ true
      → (q : Package) × In q selected
        × (is_source q ≡ false)
        × ((n : Nevra) × (parse_package q ≡ ok n) × (n.name ≡ name))

keep_head :
    (f : Package → Bool) (p q : Package) (ps : List Package)
    → f p ≡ true
    → (In q (keep f ps) → In q ps × (f q ≡ true))
    → In q (p ∷ keep f ps)
    → In q (p ∷ ps) × (f q ≡ true)
keep_head f p q ps b i (inl e) = (inl e, rw e b)
keep_head f p q ps b i (inr n) = (inr (i n).0, (i n).1)

keep-In :
    (f : Package → Bool) (ps : List Package) (q : Package)
    → In q (keep f ps)
    → In q ps × (f q ≡ true)
keep-In f [] q m = absurd m
keep-In f (p ∷ ps) q m = elim (Bool-cases (f p)) [
  | inl b ↦ keep_head f p q ps b (keep-In f ps q) (rw b at m)
  | inr b ↦ let i = keep-In f ps q (rw b at m) in (inr i.0, i.1)
]

In-keep :
    (f : Package → Bool) (ps : List Package) (q : Package) → In q ps → f q ≡ true → In q (keep f ps)
In-keep f [] q m b = absurd m
In-keep f (p ∷ ps) q (inl e) b = rw e (rw (rw e at b) (inl refl))
In-keep f (p ∷ ps) q (inr m) b = elim (Bool-cases (f p)) [
  | inl c ↦ rw c (inr (In-keep f ps q m b))
  | inr c ↦ rw c (In-keep f ps q m b)
]

at_first :
    (f : Parsed → Bool) (x : Package) (n : Nevra) (t : List Parsed) (ps : List Package)
    (p : Package)
    → parse_package x ≡ ok n
    → f (record { entry = x; nevra = n }) && all f t ≡ true
    → (In p ps
        → (m : Nevra) × (parse_package p ≡ ok m) × (f (record { entry = p; nevra = m }) ≡ true))
    → In p (x ∷ ps)
    → (m : Nevra) × (parse_package p ≡ ok m) × (f (record { entry = p; nevra = m }) ≡ true)
at_first f x n t ps p u here go (inl e) = (n, rw e u, rw e (ground arith))
at_first f x n t ps p u here go (inr m) = go m

-- The list with the parses has the packages in their order.
parse_all-all :
    (f : Parsed → Bool) (ps : List Package) (qs : List Parsed) (p : Package)
    → parse_all ps ≡ ok qs
    → all f qs ≡ true
    → In p ps
    → (n : Nevra) × (parse_package p ≡ ok n) × (f (record { entry = p; nevra = n }) ≡ true)
unfolding parse_all
parse_all-all f [] qs p h a m = absurd m
parse_all-all f (x ∷ ps) qs p h a m = elim (Result-cases (parse_package x)) [
  | inl (e, u) ↦ ground arith
  | inr (n, u) ↦ elim (Result-cases (parse_all ps)) [
    | inl (e, v) ↦ ground arith
    | inr (t, v) ↦
        let out : record { entry = x; nevra = n } ∷ t ≡ qs = ground arith in
        let here : f (record { entry = x; nevra = n }) && all f t ≡ true = rw (← out) at a in
        at_first f x n t ps p u here (parse_all-all f ps t p v (ground arith)) m
  ]
]

-- A name of the set belongs to one of the packages.
names_of-has :
    (name : Text) (ps : List Package) (qs : List Parsed)
    → parse_all ps ≡ ok qs
    → has_text name (names_of qs) ≡ true
    → (q : Package) × In q ps × ((n : Nevra) × (parse_package q ≡ ok n) × (n.name ≡ name))
unfolding parse_all
names_of-has name [] qs h m = ground arith
names_of-has name (x ∷ ps) qs h m = elim (Result-cases (parse_package x)) [
  | inl (e, u) ↦ ground arith
  | inr (n, u) ↦ elim (Result-cases (parse_all ps)) [
    | inl (e, v) ↦ ground arith
    | inr (t, v) ↦
        let out : record { entry = x; nevra = n } ∷ t ≡ qs = ground arith in
        let here : text_eq name n.name || has_text name (names_of t) ≡ true = rw (← out) at m in
        elim (Bool-cases (text_eq name n.name)) [
          | inl b ↦ (x, inl refl, (n, u, sym ((text_eq_iff name n.name).0 b)))
          | inr b ↦ let (q, i, k) = names_of-has name ps t v (rw b at here) in (q, inr i, k)
        ]
  ]
]

all-has :
    (f : Text → Bool) (ts : List Text) (t : Text)
    → all f ts ≡ true
    → has_text t ts ≡ true
    → f t ≡ true
all-has f [] t a h = ground arith
all-has f (x ∷ ts) t a h = elim (Bool-cases (text_eq t x)) [
  | inl b ↦ rw ((text_eq_iff t x).0 b) (ground arith)
  | inr b ↦ all-has f ts t (ground arith) (ground arith)
]

not_any :
    (f : Package → Bool) (ps : List Package) (p : Package)
    → any f ps ≡ false
    → In p ps
    → f p ≡ false
not_any f [] p a m = absurd m
not_any f (x ∷ ps) p a (inl e) = rw e (ground arith)
not_any f (x ∷ ps) p a (inr m) = not_any f ps p (ground arith) m

record Sourced (policy : GroupPolicy) (selected sources : List Package) : Type 0 where
  source : Package
  nevra : Nevra
  parsed : List Parsed
  only : sources ≡ source ∷ []
  parses : parse_package source ≡ ok nevra
  all_parse : parse_all selected ≡ ok parsed
  built : all (from_source source nevra) parsed ≡ true
  named : has_text nevra.name policy.names ≡ true

check_source-Sourced :
    (policy : GroupPolicy) (selected sources : List Package)
    → check_source policy selected sources ≡ ok tt
    → Sourced policy selected sources
unfolding check_source
check_source-Sourced policy selected (source ∷ []) h = elim (Result-cases (parse_package source)) [
  | inl (e, u) ↦ ground arith
  | inr (n, u) ↦ elim (Result-cases (parse_all selected)) [
    | inl (e, v) ↦ ground arith
    | inr (ps, v) ↦ record {
      source = source;
      nevra = n;
      parsed = ps;
      only = refl;
      parses = u;
      all_parse = v;
      built = ground arith;
      named = ground arith;
    }
  ]
]
check_source-Sourced policy selected [] h = ground arith
check_source-Sourced policy selected (x ∷ y ∷ l) h = ground arith

record Complete (policy : GroupPolicy) (selected : List Package) : Type 0 where
  parsed : List Parsed
  parses : parse_all (keep (λ p. not (is_source p)) selected) ≡ ok parsed
  named : same_set (names_of parsed) policy.names ≡ true
  allowed :
      any
        (λ p. not (has_text p.architecture policy.arches))
        (keep (λ p. not (is_source p)) selected)
      ≡ false
  sourced : check_source policy selected (keep is_source selected) ≡ ok tt

check_group-Complete :
    (policy : GroupPolicy) (selected : List Package)
    → check_group policy selected ≡ ok tt
    → Complete policy selected
unfolding check_group
check_group-Complete policy selected h =
    elim (Result-cases (parse_all (keep (λ p. not (is_source p)) selected))) [
      | inl (e, u) ↦ ground arith
      | inr (ps, u) ↦ record {
        parsed = ps;
        parses = u;
        named = ground arith;
        allowed = ground arith;
        sourced = ground arith;
      }
    ]

SameBuild-of :
    (source : Package) (s : Nevra) (q : Package) (n : Nevra)
    → parse_package q ≡ ok n
    → from_source source s (record { entry = q; nevra = n }) ≡ true
    → SameBuild source s q
unfolding from_source
SameBuild-of source s q n u b = record {
  parsed = n;
  parses = u;
  epoch = ground (arith, text_eq_iff n.epoch s.epoch);
  version = ground (arith, text_eq_iff n.version s.version);
  release = ground (arith, text_eq_iff n.release s.release);
  manifest = ground (arith, text_eq_iff q.producer_manifest_digest source.producer_manifest_digest);
}

-- An accepted group has one source RPM, all its packages come from that build, the binaries are on
-- allowed architectures, and each name of the policy has a binary.
pub check_group-IsRelease :
    (policy : GroupPolicy) (selected : List Package)
    → check_group policy selected ≡ ok tt
    → IsRelease policy selected
check_group-IsRelease policy selected h =
    let c = check_group-Complete policy selected h in
    let d = check_source-Sourced policy selected (keep is_source selected) c.sourced in
    record {
      source = d.source;
      source_nevra = d.nevra;
      only_source = d.only;
      source_parses = d.parses;
      source_name = d.named;
      same_build = λ q m.
          let (n, u, b) =
            parse_all-all (from_source d.source d.nevra) selected d.parsed q d.all_parse d.built
              m in
          SameBuild-of d.source d.nevra q n u b;
      architectures = λ q m s.
          let kept = In-keep (λ p. not (is_source p)) selected q m (rw s) in
          let fine =
            not_any (λ p. not (has_text p.architecture policy.arches))
              (keep (λ p. not (is_source p)) selected) q c.allowed kept in
          ground arith;
      names = λ name m.
          let listed =
            all-has (λ y. has_text y (names_of c.parsed)) policy.names name
              (ground (arith, c.named)) m in
          let (q, i, k) =
            names_of-has name (keep (λ p. not (is_source p)) selected) c.parsed c.parses listed in
          let (inside, binary) = keep-In (λ p. not (is_source p)) selected q i in
          (q, inside, ground arith, k);
    }

-- `_verify_candidate` returns a release of the group's policy.
pub verify_candidate-IsRelease :
    (packages : Packages) (policy : GroupPolicy) (owner : Dict Text Text) (group : Text)
    (selected : List Package)
    → verify_candidate packages policy owner group ≡ ok selected
    → IsRelease policy selected
unfolding verify_candidate
verify_candidate-IsRelease packages policy owner group selected h =
    check_group-IsRelease policy selected (ground arith)
