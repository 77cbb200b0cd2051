-- ===== src/Planner/Plan/Updates.antt =====
-- The additions of a plan, indexed by identity, and what each replaces.
use ro_repo.Base.{
  ◌≡◌, ◌≢◌, refl, ap, some, List, [], ◌∷◌, ok, arith, ◌⊎◌, inl, inr, Bool-cases, Result-cases, sym,
}
use ro_repo.Base.Text.{text_eq_iff}
use ro_repo.Base.Dict.{In-insert, In, pair_key, pair_eq, lookup, insert, lookup-insert}
use ro_repo.Planner.Version.{Sign, less}
use ro_repo.Planner.Nevra.{Package, parse_package, evr_compare}
use ro_repo.Planner.Packages.{Packages, Identity}
use ro_repo.Planner.Packages.Index.{HasKey}
use ro_repo.Planner.Plan.{index_from, check_updates, check_update, check_previous}

-- Under `k` the dict holds one of `ps` that has the key, or `q`.
abbrev Held : Identity → List Package → Package → Packages → Type 0
Held k ps q r = (p : Package) × (lookup k r ≡ some p) × ((p ≡ q) ⊎ (In p ps × HasKey k p))

Held-weaken :
    (k : Identity) (ps : List Package) (q x : Package) (r : Packages)
    → Held k ps q r
    → Held k (x ∷ ps) q r
Held-weaken k ps q x r (p, e, inl s) = (p, e, inl s)
Held-weaken k ps q x r (p, e, inr (m, h)) = (p, e, inr (inr m, h))

Held-move :
    (k : Identity) (ps : List Package) (q x : Package) (r : Packages)
    → HasKey k x
    → Held k ps x r
    → Held k (x ∷ ps) q r
Held-move k ps q x r h (p, e, inl s) = (p, e, inr (inl s, rw s h))
Held-move k ps q x r h (p, e, inr (m, i)) = (p, e, inr (inr m, i))

index_from-keeps :
    (k : Identity) (q : Package) (ps : List Package) (d r : Packages)
    → index_from d ps ≡ ok r
    → lookup k d ≡ some q
    → Held k ps q r
unfolding index_from
index_from-keeps k q [] d r h l = let e : d ≡ r = ground arith in (q, rw (← e) l, inl refl)
index_from-keeps k q (p ∷ ps) d r h l = elim (Result-cases (parse_package p)) [
  | inl (e, x) ↦ ground arith
  | inr (n, x) ↦ elim (Bool-cases (pair_eq (n.name, p.architecture) k)) [
    | inl b ↦
        let same : (n.name, p.architecture) ≡ k =
          (pair_key.same_iff (n.name, p.architecture) k).0 b in
        Held-move k ps q p r (record { parsed = n; parses = x; key = sym same })
          (index_from-keeps k p ps (insert (n.name, p.architecture) p d) r (ground arith)
            (rw (lookup-insert, b)))
    | inr b ↦ Held-weaken k ps q p r (
        index_from-keeps k q ps (insert (n.name, p.architecture) p d) r (ground arith)
          (rw (lookup-insert, b) l))
  ]
]

abbrev Found : Identity → List Package → Packages → Type 0
Found k ps r = (p : Package) × (lookup k r ≡ some p) × In p ps × HasKey k p

Found-head :
    (k : Identity) (ps : List Package) (p : Package) (r : Packages)
    → HasKey k p
    → Held k ps p r
    → Found k (p ∷ ps) r
Found-head k ps p r y (q, l, inl s) = (q, l, inl s, rw s y)
Found-head k ps p r y (q, l, inr (m, i)) = (q, l, inr m, i)

-- Each of the packages is held under its key, unless a later one has the same key.
pub index_from-holds :
    (k : Identity) (a : Package) (ps : List Package) (d r : Packages)
    → index_from d ps ≡ ok r
    → In a ps
    → HasKey k a
    → Found k ps r
unfolding index_from
index_from-holds k a [] d r h m x = absurd m
index_from-holds k a (p ∷ ps) d r h (inl e) x =
    let y : HasKey k p = rw e at x in
    let start : k ≡ (y.parsed.name, p.architecture) = y.key in
    Found-head k ps p r y (
      index_from-keeps k p ps (insert (y.parsed.name, p.architecture) p d) r
        (ground (arith, y.parses))
        (rw (
          lookup-insert,
          start,
          (pair_key.same_iff (y.parsed.name, p.architecture) (y.parsed.name, p.architecture)).1
              refl,
        )))
index_from-holds k a (p ∷ ps) d r h (inr m) x = elim (Result-cases (parse_package p)) [
  | inl (e, u) ↦ ground arith
  | inr (n, u) ↦
      let (q, l, i, y) =
        index_from-holds k a ps (insert (n.name, p.architecture) p d) r (ground arith) m x in
      (q, l, inr i, y)
]

-- Nothing but the packages comes into the index.
pub index_from-In :
    (ps : List Package) (d r : Packages) (k : Identity) (p : Package)
    → index_from d ps ≡ ok r
    → In (k, p) r
    → In p ps ⊎ In (k, p) d
unfolding index_from
index_from-In [] d r k p h m = let e : d ≡ r = ground arith in inr (rw (← e) at m)
index_from-In (q ∷ ps) d r k p h m = elim (Result-cases (parse_package q)) [
  | inl (e, x) ↦ ground arith
  | inr (n, x) ↦
      elim (index_from-In ps (insert (n.name, q.architecture) q d) r k p (ground arith) m) [
        | inl i ↦ inl (inr i)
        | inr i ↦ elim (In-insert (n.name, q.architecture) q d (k, p) i) [
          | inl same ↦ inl (inl (ap (λ (t : Identity × Package). t.1) same))
          | inr j ↦ inr j
        ]
      ]
]

-- `check_updates` passed: a package that replaces another of its identity passed `check_update`.
pub check_updates_sound :
    (old additions : Packages) (k : Identity) (p prev : Package)
    → check_updates old additions ≡ ok tt
    → In (k, p) additions
    → lookup k old ≡ some prev
    → check_update p prev ≡ ok tt
unfolding check_updates check_previous
check_updates_sound old [] k p prev h m l = absurd m
check_updates_sound old ((j, q) ∷ d) k p prev h (inl e) l =
    let key : k ≡ j = ap (λ (i : Identity × Package). i.0) e in
    let val : p ≡ q = ap (λ (i : Identity × Package). i.1) e in rw val (ground (arith, rw key at l))
check_updates_sound old ((j, q) ∷ d) k p prev h (inr m) l =
    check_updates_sound old d k p prev (ground arith) m l

pub check_update_sound :
    (p prev : Package)
    → check_update p prev ≡ ok tt
    → (s : Sign) × (evr_compare p prev ≡ ok s) × (s ≢ less)
unfolding check_update
check_update_sound p prev h = elim (Result-cases (evr_compare p prev)) [
  | inl (e, x) ↦ ground arith
  | inr (s, x) ↦ (s, x, ground arith)
]

pub check_update_bytes :
    (p prev : Package)
    → check_update p prev ≡ ok tt
    → prev.nevra ≡ p.nevra
    → prev.published_signed_artifact_sha256 ≡ p.published_signed_artifact_sha256
unfolding check_update
check_update_bytes p prev h e = ground (
  arith,
  text_eq_iff prev.nevra p.nevra,
  text_eq_iff prev.published_signed_artifact_sha256 p.published_signed_artifact_sha256,
)
