-- ===== src/Planner/Packages/Index.antt =====
-- The index of a snapshot's packages by their own identities.
use ro_repo.Base.{
  ◌≡◌, refl, ap, sym, suc, ◌++◌, length, Bool, true, false, some, List, [], ◌∷◌, ok, arith, ◌⊎◌,
  inl, inr, Bool-cases, Result-cases,
}
use ro_repo.Base.Text.{Text, text_eq_iff}
use ro_repo.Base.Dict.{
  Dict, In, text_key, pair_key, pair_eq, lookup, insert, contains, lookup-insert, insert_new,
  In-append, contains-In,
}
use ro_repo.Planner.Nevra.{Package, Nevra, Entry, malformed, well_typed, fits, parse_package}
use ro_repo.Planner.Nevra.RoundTrip.{parse_package_iff}
use ro_repo.Planner.Packages.{
  Packages, Identity, Manifest, absent, invalid, manifest, add_package, add_entry, add_entries,
  packages, snapshot_packages,
}

abbrev Item : Type 0
Item = Identity × Package

-- The package's identity is `k`.
pub record HasKey (k : Identity) (p : Package) : Type 0 where
  pub parsed : Nevra
  pub parses : parse_package p ≡ ok parsed
  pub key : k ≡ (parsed.name, p.architecture)

pub record IsKeyed (d : Packages) : Type 0 where
  pub keyed : (k : Identity) (p : Package) → In (k, p) d → HasKey k p
  pub found : (k : Identity) (p : Package) → In (k, p) d → lookup k d ≡ some p

parsed_key : (p : Package) (n : Nevra) → parse_package p ≡ ok n → HasKey (n.name, n.arch) p
unfolding fits
parsed_key p n h =
    let f = ((parse_package_iff p n).0 h).4 in
    let same : n.arch ≡ p.architecture = ground (arith, text_eq_iff n.arch p.architecture) in
    record { parsed = n; parses = h; key = rw same refl }

keyed_after :
    (d : Packages) (n : Identity) (p : Package)
    → HasKey n p
    → IsKeyed d
    → (k : Identity) (q : Package) → In (k, q) d ⊎ In {A = Item} (k, q) ((n, p) ∷ [])
    → HasKey k q
keyed_after d n p h i k q (inl m) = i.keyed k q m
keyed_after d n p h i k q (inr (inl e)) =
    let key : k ≡ n = ap (λ (x : Item). x.0) e in
    let val : q ≡ p = ap (λ (x : Item). x.1) e in rw (key, val) h
keyed_after d n p h i k q (inr (inr m)) = absurd m

found_after :
    (d : Packages) (n : Identity) (p : Package)
    → contains n d ≡ false
    → IsKeyed d
    → (k : Identity) (q : Package) → In (k, q) d ⊎ In {A = Item} (k, q) ((n, p) ∷ [])
    → lookup k (insert n p d) ≡ some q
found_after d n p c i k q (inl m) = elim (Bool-cases (pair_eq n k)) [
  | inl b ↦
      let same : n ≡ k = (pair_key.same_iff n k).0 b in
      let there : contains k d ≡ true = contains-In k q d m in ground (arith, rw same at c)
  | inr b ↦ rw (lookup-insert, b) (i.found k q m)
]
found_after d n p c i k q (inr (inl e)) =
    let key : k ≡ n = ap (λ (x : Item). x.0) e in
    let val : q ≡ p = ap (λ (x : Item). x.1) e in
    rw (key, val, lookup-insert, (pair_key.same_iff n n).1 refl)
found_after d n p c i k q (inr (inr m)) = absurd m

insert-IsKeyed :
    (d : Packages) (n : Identity) (p : Package)
    → HasKey n p
    → contains n d ≡ false
    → IsKeyed d
    → IsKeyed (insert n p d)
insert-IsKeyed d n p h c i =
    let grow = insert_new n p d c in
    record {
      keyed = λ k q m. keyed_after d n p h i k q (In-append (k, q) d ((n, p) ∷ []) (rw grow at m));
      found = λ k q m. found_after d n p c i k q (In-append (k, q) d ((n, p) ∷ []) (rw grow at m));
    }

add_entry-IsKeyed :
    (owner : Dict Text Text) (e : Entry) (d r : Packages)
    → add_entry owner e d ≡ ok r
    → IsKeyed d
    → IsKeyed r
unfolding add_entry add_package
add_entry-IsKeyed owner malformed d r h i = ground arith
add_entry-IsKeyed owner (well_typed p) d r h i = elim (Result-cases (parse_package p)) [
  | inl (e, x) ↦ ground arith
  | inr (n, x) ↦ elim (Bool-cases (contains n.name owner)) [
    | inr b ↦ ground arith
    | inl b ↦ elim (Bool-cases (contains (n.name, n.arch) d)) [
      | inl c ↦ ground arith
      | inr c ↦
          let out : insert (n.name, n.arch) p d ≡ r = ground arith in
          rw (← out) (insert-IsKeyed d (n.name, n.arch) p (parsed_key p n x) c i)
    ]
  ]
]

add_entries-IsKeyed :
    (owner : Dict Text Text) (es : List Entry) (d r : Packages)
    → add_entries owner es d ≡ ok r
    → IsKeyed d
    → IsKeyed r
unfolding add_entries
add_entries-IsKeyed owner [] d r h i = let e : d ≡ r = ground arith in rw (← e) i
add_entries-IsKeyed owner (e ∷ es) d r h i = elim (Result-cases (add_entry owner e d)) [
  | inl (x, y) ↦ ground arith
  | inr (d', y) ↦
      add_entries-IsKeyed owner es d' r (ground arith) (add_entry-IsKeyed owner e d d' y i)
]

empty-IsKeyed : IsKeyed []
empty-IsKeyed = record { keyed = λ k p m. absurd m; found = λ k p m. absurd m }

-- The packages are those of the entries, in their order, after those that were there.
add_entry-exact :
    (owner : Dict Text Text) (e : Entry) (d r : Packages)
    → add_entry owner e d ≡ ok r
    → (k : Identity) × (p : Package) × (e ≡ well_typed p) × (r ≡ d ++ (k, p) ∷ [])
unfolding add_entry add_package
add_entry-exact owner malformed d r h = ground arith
add_entry-exact owner (well_typed p) d r h = elim (Result-cases (parse_package p)) [
  | inl (e, x) ↦ ground arith
  | inr (n, x) ↦ elim (Bool-cases (contains n.name owner)) [
    | inr b ↦ ground arith
    | inl b ↦ elim (Bool-cases (contains (n.name, n.arch) d)) [
      | inl c ↦ ground arith
      | inr c ↦
          let out : insert (n.name, n.arch) p d ≡ r = ground arith in
          let key : Identity = (n.name, n.arch) in (key, p, refl, rw (← out) (insert_new key p d c))
    ]
  ]
]

abbrev entries_of : Packages → List Entry
entries_of [] = []
entries_of ((k, p) ∷ d) = well_typed p ∷ entries_of d

entries_of-append : (c d : Packages) → entries_of (c ++ d) ≡ entries_of c ++ entries_of d
entries_of-append [] d = refl
entries_of-append ((k, p) ∷ c) d = ap (λ es. well_typed p ∷ es) (entries_of-append c d)

append_one : (xs : List Entry) (y : Entry) (zs : List Entry) → (xs ++ y ∷ []) ++ zs ≡ xs ++ y ∷ zs
append_one [] y zs = refl
append_one (x ∷ xs) y zs = ap (λ es. x ∷ es) (append_one xs y zs)

append_none : (xs : List Entry) → xs ++ [] ≡ xs
append_none [] = refl
append_none (x ∷ xs) = ap (λ es. x ∷ es) (append_none xs)

add_entries-exact :
    (owner : Dict Text Text) (es : List Entry) (d r : Packages)
    → add_entries owner es d ≡ ok r
    → entries_of r ≡ entries_of d ++ es
unfolding add_entries
add_entries-exact owner [] d r h =
    let is : d ≡ r = ground arith in rw (← is) (sym (append_none (entries_of d)))
add_entries-exact owner (e ∷ es) d r h = elim (Result-cases (add_entry owner e d)) [
  | inl (x, y) ↦ ground arith
  | inr (d', y) ↦
      let rest = add_entries-exact owner es d' r (ground arith) in
      let (k, p, is, grown) = add_entry-exact owner e d d' y in
      rw (rest, grown, entries_of-append d ((k, p) ∷ []), is)
        (append_one (entries_of d) (well_typed p) es)
]

-- The entries of a manifest; `None` has none.
abbrev pub listed_in : Manifest → List Entry
listed_in absent = []
listed_in invalid = []
listed_in (manifest m) = m.packages

-- Every entry of the manifest is found under the identity that it parses to, and as many packages
-- are in the index as the manifest has entries.
pub record IsIndexed (m : Manifest) (d : Packages) : Type 0 where
  pub unique : IsKeyed d
  pub whole :
      (e : Entry)
      → In e (listed_in m)
      → (p : Package) × (e ≡ well_typed p)
        × (n : Nevra) × (parse_package p ≡ ok n)
        × (lookup (n.name, p.architecture) d ≡ some p)
  pub count : length d ≡ length (listed_in m)

count_of : (d : Packages) → length (entries_of d) ≡ length d
count_of [] = refl
count_of ((k, p) ∷ d) = ap suc (count_of d)

In-entries_of :
    (e : Entry) (d : Packages)
    → In e (entries_of d)
    → (k : Identity) × (p : Package) × (e ≡ well_typed p) × In {A = Item} (k, p) d
In-entries_of e [] m = absurd m
In-entries_of e ((k, p) ∷ d) (inl h) = (k, p, h, inl refl)
In-entries_of e ((k, p) ∷ d) (inr m) =
    let (l, q, is, at) = In-entries_of e d m in (l, q, is, inr at)

exact-IsIndexed :
    (m : Manifest) (d : Packages) → IsKeyed d → entries_of d ≡ listed_in m → IsIndexed m d
exact-IsIndexed m d i h = record {
  unique = i;
  whole = λ e at.
      let (k, p, is, here) = In-entries_of e d (rw (← h) at at) in
      let key = i.keyed k p here in
      (p, is, key.parsed, key.parses, rw (← key.key) (i.found k p here));
  count = rw (← h) (sym (count_of d));
}

-- Every entry of a snapshot that is read is a package which stands under its own identity, and
-- is the only one there: there are as many packages as entries, so that none is dropped.
pub packages-IsIndexed :
    (owner : Dict Text Text) (empty : Bool) (m : Manifest) (d : Packages)
    → packages owner empty m ≡ ok d
    → IsIndexed m d
unfolding packages snapshot_packages
packages-IsIndexed owner true absent d h =
    let e : ◌≡◌ {A = Packages} [] d = ground arith in
    rw (← e) (exact-IsIndexed absent [] empty-IsKeyed refl)
packages-IsIndexed owner false absent d h = ground arith
packages-IsIndexed owner b invalid d h = ground arith
packages-IsIndexed owner b (manifest m) d h =
    elim (Result-cases (add_entries owner m.packages [])) [
      | inl (x, y) ↦ ground arith
      | inr (d', y) ↦
          let e : d' ≡ d = ground arith in
          rw (← e) (
            exact-IsIndexed (manifest m) d'
              (add_entries-IsKeyed owner m.packages [] d' y empty-IsKeyed)
              (add_entries-exact owner m.packages [] d' y))
    ]
