-- ===== src/Planner/Plan/Exact.antt =====
-- What a plan holds, exactly: the selected group, and every other package as it was.
use ro_repo.Base.{◌≡◌, ◌≢◌, ◌↔◌, true, false, some, List, [], ok, arith, ◌⊎◌, inl, inr}
use ro_repo.Base.Text.{Text}
use ro_repo.Base.Dict.{
  Dict, In, pair_key, lookup, values, contains-In, lookup-In, lookup-contains, In-values, values-In,
}
use ro_repo.Planner.Nevra.{Package}
use ro_repo.Planner.Registry.{Policies}
use ro_repo.Planner.Packages.{Packages, Identity, Manifest, group_of}
use ro_repo.Planner.Packages.Index.{HasKey, IsKeyed, packages-IsIndexed}
use ro_repo.Planner.Candidate.{select, verify_candidate, check_group}
use ro_repo.Planner.Candidate.Select.{select_by-In}
use ro_repo.Planner.Plan.{Outcome, without, check_update}
use ro_repo.Planner.Plan.Parts.{Promoted}
use ro_repo.Planner.Plan.Lists.{
  add_all-In, without-In, check_unrelated_sound, check_unrelated-group, holds-lookup,
}
use ro_repo.Planner.Plan.Updates.{index_from-In, index_from-holds, check_updates_sound}

abbrev Item : Type 0
Item = Identity × Package

verify_candidate-select :
    (c : Packages) (policy : _) (owner : Dict Text Text) (g : Text) (s : List Package)
    → verify_candidate c policy owner g ≡ ok s
    → (select owner g (values c) ≡ ok s) × (check_group policy s ≡ ok tt)
unfolding verify_candidate
verify_candidate-select c policy owner g s h = ground arith

HasKey-functional : (k l : Identity) (p : Package) → HasKey k p → HasKey l p → k ≡ l
HasKey-functional k l p x y =
    let same : x.parsed ≡ y.parsed = ground (arith, x.parses, y.parses) in
    let a : k ≡ (x.parsed.name, p.architecture) = x.key in
    let b : l ≡ (y.parsed.name, p.architecture) = y.key in rw (a, b, same)

-- A package of an indexed snapshot is found under its key.
found_at :
    (d : Packages) (k : Identity) (p : Package)
    → IsKeyed d
    → In p (values d)
    → HasKey k p
    → lookup k d ≡ some p
found_at d k p i m x =
    let (l, n) = values-In p d m in
    let same : k ≡ l = HasKey-functional k l p x (i.keyed l p n) in rw same (i.found l p n)

some_unique :
    (d : Packages) (k : Identity) (p q : Package)
    → lookup k d ≡ some p
    → lookup k d ≡ some q
    → p ≡ q
some_unique d k p q x y = ground arith

module _ (pol : Policies) (cm sm : Manifest) (g : Text) (o : Outcome)
    (h : Promoted pol cm sm g o) where
  stable-IsKeyed : IsKeyed o.stable
  stable-IsKeyed = (packages-IsIndexed pol.owner true sm o.stable h.stable_of).unique

  candidate-IsKeyed : IsKeyed o.candidate
  candidate-IsKeyed = (packages-IsIndexed pol.owner false cm o.candidate h.candidate_of).unique

  pub chosen-In :
      (p : Package) → In p o.chosen ↔ (In p (values o.candidate) × (group_of pol.owner p ≡ ok g))
  chosen-In p =
      select_by-In (λ (q : Package). q) pol.owner g (values o.candidate) o.chosen p
        (verify_candidate-select o.candidate o.policy pol.owner g o.chosen h.chosen_of).0

  pub old-In : (x : Item) → In x o.old_group ↔ (In x o.stable × (group_of pol.owner x.1 ≡ ok g))
  old-In x = select_by-In (λ (i : Item). i.1) pol.owner g o.stable o.old_group x h.old_of

  chosen-In_additions :
      (k : Identity) (p : Package) → In p o.chosen → HasKey k p → In (k, p) o.additions
  chosen-In_additions k p m x =
      let (q, e, mq, y) = index_from-holds k p o.chosen [] o.additions h.additions_of m x in
      let same : p ≡ q =
        some_unique o.candidate k p q
          (found_at o.candidate k p candidate-IsKeyed ((chosen-In p).0 m).0 x)
          (found_at o.candidate k q candidate-IsKeyed ((chosen-In q).0 mq).0 y) in
      lookup-In k o.additions p (rw same e)

  -- Each chosen package is in the result.
  chosen-In_result : (p : Package) → In p o.chosen → In p (values o.result)
  chosen-In_result p m =
      let (l, n) = values-In p o.candidate ((chosen-In p).0 m).0 in
      let x = candidate-IsKeyed.keyed l p n in
      In-values l p o.result (
        (add_all-In o.additions (without o.old_group o.stable) o.result (l, p) h.result_of).1
          (inl (chosen-In_additions l p m x)))

  -- Each stable package of another group is in the result.
  unrelated-In_result :
      (p : Package)
      → In p (values o.stable)
      → ¬ (group_of pol.owner p ≡ ok g)
      → In p (values o.result)
  unrelated-In_result p m n =
      let (k, i) = values-In p o.stable m in
      let (g', e) = check_unrelated-group pol.owner g o.result o.stable k p h.unrelated i in
      let differs : g' ≢ g = λ same. n (rw same at e) in
      let keeps =
        check_unrelated_sound pol.owner g g' o.result o.stable k p h.unrelated i e differs in
      In-values k p o.result (lookup-In k o.result p (holds-lookup o.result k p keeps))

  from_base :
      (k : Identity) (p : Package)
      → In {A = Item} (k, p) (without o.old_group o.stable)
      → In p (values o.stable) × (¬ (group_of pol.owner p ≡ ok g))
  from_base k p m =
      let (i, c) = without-In o.old_group o.stable (k, p) m in
      (
        In-values k p o.stable i,
        λ e. cc (c, contains-In k p o.old_group ((old-In (k, p)).1 (i, e))),
      )

  pub result-In :
      (p : Package)
      → In p (values o.result)
        ↔ (In p o.chosen ⊎ (In p (values o.stable) × (¬ (group_of pol.owner p ≡ ok g))))
  result-In p = (to, from)
    where
      split :
          (k : Identity)
          → In {A = Item} (k, p) o.additions ⊎ In {A = Item} (k, p) (without o.old_group o.stable)
          → In p o.chosen ⊎ (In p (values o.stable) × (¬ (group_of pol.owner p ≡ ok g)))
      split k (inl a) = elim (index_from-In o.chosen [] o.additions k p h.additions_of a) [
        | inl m ↦ inl m
        | inr m ↦ absurd m
      ]
      split k (inr b) = inr (from_base k p b)

      to :
          In p (values o.result)
          → In p o.chosen ⊎ (In p (values o.stable) × (¬ (group_of pol.owner p ≡ ok g)))
      to m =
          let (k, i) = values-In p o.result m in
          split k (
            (add_all-In o.additions (without o.old_group o.stable) o.result (k, p) h.result_of).0 i)

      from :
          In p o.chosen ⊎ (In p (values o.stable) × (¬ (group_of pol.owner p ≡ ok g)))
          → In p (values o.result)
      from (inl c) = chosen-In_result p c
      from (inr (a, b)) = unrelated-In_result p a b

  -- A replaced package is found among the old ones under its key.
  old_at :
      (k : Identity) (prev : Package)
      → In prev (values o.stable)
      → group_of pol.owner prev ≡ ok g
      → HasKey k prev
      → lookup k o.old_group ≡ some prev
  old_at k prev n e y =
      let at_key = found_at o.stable k prev stable-IsKeyed n y in
      let inside = (old-In (k, prev)).1 (lookup-In k o.stable prev at_key, e) in
      let (q, l) = lookup-contains k o.old_group (contains-In k prev o.old_group inside) in
      let there = stable-IsKeyed.found k q ((old-In (k, q)).0 (lookup-In k o.old_group q l)).0 in
      rw (some_unique o.stable k prev q at_key there) l

  -- A chosen package passed the comparison with the one that it replaces.
  pub replaces_checked :
      (k : Identity) (p prev : Package)
      → In p o.chosen
      → In prev (values o.stable)
      → group_of pol.owner prev ≡ ok g
      → HasKey k p
      → HasKey k prev
      → check_update p prev ≡ ok tt
  replaces_checked k p prev m n e x y =
      check_updates_sound o.old_group o.additions k p prev h.updates (chosen-In_additions k p m x)
        (old_at k prev n e y)
