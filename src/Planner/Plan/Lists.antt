-- ===== src/Planner/Plan/Lists.antt =====
-- What the list passes of the plan keep and drop.
use ro_repo.Base.{
  ◌≡◌, ◌≢◌, ap, true, false, some, List, [], ◌∷◌, ◌++◌, ok, arith, ◌⊎◌, inl, inr, ◌↔◌, Bool-cases,
  Result-cases, Option-cases,
}
use ro_repo.Base.Text.{Text, text_eq_iff}
use ro_repo.Base.Dict.{
  Dict, In, text_key, pair_key, lookup, contains, insert, insert_new, In-append_left,
  In-append_right, In-append,
}
use ro_repo.Planner.Nevra.{Package}
use ro_repo.Planner.Packages.{Identity, Packages, group_of}
use ro_repo.Planner.Plan.{
  without, add_all, check_unrelated, holds, package_eq, key_lt, place, sorted,
}

abbrev Item : Type 0
Item = Identity × Package

place-In : (a p : Package) (ps : List Package) → In a (place p ps) ↔ ((a ≡ p) ⊎ In a ps)
unfolding place
place-In a p [] = (λ h. h, λ h. h)
place-In a p (q ∷ qs) = elim (Bool-cases (key_lt q p)) [
  | inl e ↦ rw e (grind (arith, place-In a p qs))
  | inr e ↦ rw e (λ h. h, λ h. h)
]

-- Sorting keeps exactly the members.
pub sorted-In : (a : Package) (ps : List Package) → In a (sorted ps) ↔ In a ps
unfolding sorted
sorted-In a [] = (λ h. h, λ h. h)
sorted-In a (p ∷ ps) = grind (arith, place-In a p (sorted ps), sorted-In a ps)

-- What goes to the end of the base may as well stand at the head of the additions.
regroup :
    (additions base : Packages) (x y : Item)
    → (In x additions ⊎ In x (base ++ y ∷ [])) ↔ (In x (y ∷ additions) ⊎ In x base)
regroup additions base x y = (to, from)
  where
    last : In x base ⊎ In x (y ∷ []) → In x (y ∷ additions) ⊎ In x base
    last (inl m) = inr m
    last (inr (inl e)) = inl (inl e)
    last (inr (inr m)) = absurd m

    to : In x additions ⊎ In x (base ++ y ∷ []) → In x (y ∷ additions) ⊎ In x base
    to (inl m) = inl (inr m)
    to (inr m) = last (In-append x base (y ∷ []) m)

    from : In x (y ∷ additions) ⊎ In x base → In x additions ⊎ In x (base ++ y ∷ [])
    from (inl (inl e)) = inr (In-append_right x base (y ∷ []) (inl e))
    from (inl (inr m)) = inl m
    from (inr m) = inr (In-append_left x base (y ∷ []) m)

-- The additions and the base, when no key collides.
pub add_all-In :
    (additions base r : Packages) (x : Item)
    → add_all additions base ≡ ok r
    → In x r ↔ (In x additions ⊎ In x base)
unfolding add_all
add_all-In [] base r x h = let e : base ≡ r = ground arith in rw (← e) (λ m. inr m, back)
  where
    back : ⊥ ⊎ In x base → In x base
    back (inl m) = absurd m
    back (inr m) = m
add_all-In ((k, p) ∷ additions) base r x h = elim (Bool-cases (contains k base)) [
  | inl b ↦ ground arith
  | inr b ↦
      let i = add_all-In additions (insert k p base) r x (ground arith) in
      let grow : insert k p base ≡ base ++ (k, p) ∷ [] = insert_new k p base b in
      let j : In x r ↔ (In x additions ⊎ In x (base ++ (k, p) ∷ [])) = rw grow at i in
      let t = regroup additions base x (k, p) in (λ m. t.0 (j.0 m), λ m. j.1 (t.1 m))
]

keeps_head :
    (old d : Packages) (x y : Item)
    → contains x.0 old ≡ false
    → (In y (without old d) → In y d × (contains y.0 old ≡ false))
    → In y (x ∷ without old d)
    → In y (x ∷ d) × (contains y.0 old ≡ false)
keeps_head old d x y b i (inl e) = (inl e, rw e b)
keeps_head old d x y b i (inr m) = (inr (i m).0, (i m).1)

-- What is left of a dict once the keys of another are taken out.
pub without-In :
    (old d : Packages) (x : Item) → In x (without old d) → In x d × (contains x.0 old ≡ false)
unfolding without
without-In old [] x m = absurd m
without-In old ((j, q) ∷ d) x m = elim (Bool-cases (contains j old)) [
  | inl b ↦ let i = without-In old d x (rw b at m) in (inr i.0, i.1)
  | inr b ↦ keeps_head old d (j, q) x b (without-In old d x) (rw b at m)
]

-- `check_unrelated` passed: the result holds each package of another group as it was.
pub check_unrelated_sound :
    (owner : Dict Text Text) (group g : Text) (result stable : Packages) (k : Identity)
    (p : Package)
    → check_unrelated owner group result stable ≡ ok tt
    → In (k, p) stable
    → group_of owner p ≡ ok g
    → g ≢ group
    → holds result k p ≡ true
unfolding check_unrelated
check_unrelated_sound owner group g result [] k p h m x n = absurd m
check_unrelated_sound owner group g result ((j, q) ∷ d) k p h (inl e) x n =
    let key : k ≡ j = ap (λ (i : Item). i.0) e in
    let val : p ≡ q = ap (λ (i : Item). i.1) e in
    rw (key, val) (ground (arith, rw val at x, text_eq_iff g group))
check_unrelated_sound owner group g result ((j, q) ∷ d) k p h (inr m) x n =
    check_unrelated_sound owner group g result d k p (ground arith) m x n

package_eq_sound : (p q : Package) → package_eq p q ≡ true → p ≡ q
unfolding package_eq
package_eq_sound p q h = ground (
  arith,
  text_eq_iff p.nevra q.nevra,
  text_eq_iff p.filename q.filename,
  text_eq_iff p.architecture q.architecture,
  text_eq_iff p.producer_manifest_digest q.producer_manifest_digest,
  text_eq_iff p.producer_artifact_sha256 q.producer_artifact_sha256,
  text_eq_iff p.published_signed_artifact_sha256 q.published_signed_artifact_sha256,
  text_eq_iff p.extra q.extra,
)

pub holds-lookup :
    (result : Packages) (k : Identity) (p : Package)
    → holds result k p ≡ true
    → lookup k result ≡ some p
unfolding holds
holds-lookup result k p h = elim (Option-cases (lookup k result)) [
  | inl e ↦ ground arith
  | inr (q, e) ↦ ground (arith, package_eq_sound q p)
]

pub check_unrelated-group :
    (owner : Dict Text Text) (group : Text) (result stable : Packages) (k : Identity) (p : Package)
    → check_unrelated owner group result stable ≡ ok tt
    → In (k, p) stable
    → (g : Text) × (group_of owner p ≡ ok g)
unfolding check_unrelated
check_unrelated-group owner group result [] k p h m = absurd m
check_unrelated-group owner group result ((j, q) ∷ d) k p h (inl e) =
    let val : p ≡ q = ap (λ (i : Item). i.1) e in
    elim (Result-cases (group_of owner q)) [
      | inl (x, y) ↦ ground arith
      | inr (g, y) ↦ (g, rw val y)
    ]
check_unrelated-group owner group result ((j, q) ∷ d) k p h (inr m) =
    check_unrelated-group owner group result d k p (ground arith) m
