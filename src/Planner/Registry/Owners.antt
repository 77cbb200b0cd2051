-- ===== src/Planner/Registry/Owners.antt =====
-- `_policies` gives each package name one owner: the group that lists it.
use ro_repo.Base.{
  ◌≡◌, refl, true, false, ◌||◌, some, List, [], ◌∷◌, ok, arith, ◌⊎◌, inl, inr, Bool-cases,
  Result-cases, is_empty,
}
use ro_repo.Base.Text.{Text, text_eq, text_eq_iff, text_eq_refl, has_text}
use ro_repo.Base.Dict.{Dict, text_key, lookup, insert, contains, lookup-insert, contains-eq-lookup}
use ro_repo.Planner.Registry.{
  Component, malformed, typed, Registry, invalid, producers, GroupPolicy, Policies, add_names,
  add_component, add_components, add_producers, policies, policy_of, no_policies,
}

-- A known owner is kept by `add_names`, since a name that has one is refused.
add_names-keeps :
    (group : Text) (names : List Text) (owner o : Dict Text Text) (n g : Text)
    → add_names group names owner ≡ ok o
    → lookup n owner ≡ some g
    → lookup n o ≡ some g
unfolding add_names
add_names-keeps group [] owner o n g h l = ground arith
add_names-keeps group (x ∷ names) owner o n g h l =
    elim (Bool-cases (is_empty x || contains x owner)) [
      | inl b ↦ ground arith
      | inr b ↦
          add_names-keeps group names (insert x group owner) o n g (ground arith)
            (rw lookup-insert (ground (arith, contains-eq-lookup x owner, text_eq_iff x n)))
    ]

-- Each name that was added is owned by the group.
add_names-owns :
    (group : Text) (names : List Text) (owner o : Dict Text Text) (n : Text)
    → add_names group names owner ≡ ok o
    → has_text n names ≡ true
    → lookup n o ≡ some group
unfolding add_names
add_names-owns group [] owner o n h m = ground arith
add_names-owns group (x ∷ names) owner o n h m =
    elim (Bool-cases (is_empty x || contains x owner)) [
      | inl b ↦ ground arith
      | inr b ↦ elim (Bool-cases (text_eq n x)) [
        | inl c ↦
            let same = (text_eq_iff n x).0 c in
            add_names-keeps group names (insert x group owner) o n group (ground arith)
              (rw (lookup-insert, same, text_eq_refl x))
        | inr c ↦
            add_names-owns group names (insert x group owner) o n (ground arith) (ground arith)
      ]
    ]

-- An owner after `add_names` is an old one, or the group of an added name.
add_names-only :
    (group : Text) (names : List Text) (owner o : Dict Text Text) (n g : Text)
    → add_names group names owner ≡ ok o
    → lookup n o ≡ some g
    → (lookup n owner ≡ some g) ⊎ ((has_text n names ≡ true) × (g ≡ group))
unfolding add_names
add_names-only group [] owner o n g h l = inl (ground arith)
add_names-only group (x ∷ names) owner o n g h l =
    elim (Bool-cases (is_empty x || contains x owner)) [
      | inl b ↦ ground arith
      | inr b ↦ elim (add_names-only group names (insert x group owner) o n g (ground arith) l) [
        | inl k ↦
            let e = rw lookup-insert at k in
            elim (Bool-cases (text_eq x n)) [
              | inl c ↦
                  let same = (text_eq_iff x n).0 c in inr (rw (same, text_eq_refl n), ground arith)
              | inr c ↦ inl (rw c at e)
            ]
        | inr (k, e) ↦ inr (ground arith, e)
      ]
    ]

-- A name is owned by a group exactly when the group's policy lists it.
pub record IsPartition (pol : Policies) : Type 0 where
  pub owned :
      (n g : Text) (p : GroupPolicy)
      → lookup g pol.groups ≡ some p
      → has_text n p.names ≡ true
      → lookup n pol.owner ≡ some g
  pub listed :
      (n g : Text)
      → lookup n pol.owner ≡ some g
      → (p : GroupPolicy) × (lookup g pol.groups ≡ some p) × (has_text n p.names ≡ true)

-- The policies before and after one group is added.
module _ (pol : Policies) (group : Text) (policy : GroupPolicy) (owner : Dict Text Text)
    (i : IsPartition pol) (fresh : contains group pol.groups ≡ false)
    (added : add_names group policy.names pol.owner ≡ ok owner) where
  owned_after :
      (n g : Text) (p : GroupPolicy)
      → lookup g (insert group policy pol.groups) ≡ some p
      → has_text n p.names ≡ true
      → lookup n owner ≡ some g
  owned_after n g p l m =
      let e = rw lookup-insert at l in
      elim (Bool-cases (text_eq group g)) [
        | inl c ↦
            let same = (text_eq_iff group g).0 c in
            let val : policy ≡ p = ground arith in
            rw (← same)
              (add_names-owns group policy.names pol.owner owner n added (rw (← val) at m))
        | inr c ↦
            add_names-keeps group policy.names pol.owner owner n g added
              (i.owned n g p (rw c at e) m)
      ]

  listed_after :
      (n g : Text)
      → lookup n owner ≡ some g
      → (p : GroupPolicy) × (lookup g (insert group policy pol.groups) ≡ some p)
        × (has_text n p.names ≡ true)
  listed_after n g l = elim (add_names-only group policy.names pol.owner owner n g added l) [
    | inl k ↦
        let (p, e, m) = i.listed n g k in
        (
          p,
          rw lookup-insert
              (ground (arith, contains-eq-lookup group pol.groups, text_eq_iff group g)),
          m,
        )
    | inr (k, e) ↦ (policy, rw (lookup-insert, e, text_eq_refl group) refl, k)
  ]

add_component-IsPartition :
    (pol r : Policies) (c : Component)
    → add_component pol c ≡ ok r
    → IsPartition pol
    → IsPartition r
unfolding add_component
add_component-IsPartition pol r malformed h i = ground arith
add_component-IsPartition pol r (typed c) h i =
    elim (Bool-cases (contains c.promotion_group pol.groups)) [
      | inl b ↦ ground arith
      | inr b ↦ elim (Result-cases (add_names c.promotion_group c.package_names pol.owner)) [
        | inl (e, u) ↦ ground arith
        | inr (owner, u) ↦
            let policy : GroupPolicy = policy_of c in
            let out : record { groups = insert c.promotion_group policy pol.groups; owner = owner }
                ≡ r =
              ground arith in
            rw (← out) (record {
              owned = owned_after pol c.promotion_group policy owner i b u;
              listed = listed_after pol c.promotion_group policy owner i b u;
            })
      ]
    ]

add_components-IsPartition :
    (cs : List Component) (pol r : Policies)
    → add_components pol cs ≡ ok r
    → IsPartition pol
    → IsPartition r
unfolding add_components
add_components-IsPartition [] pol r h i = let e : pol ≡ r = ground arith in rw (← e) i
add_components-IsPartition (c ∷ cs) pol r h i = elim (Result-cases (add_component pol c)) [
  | inl (e, u) ↦ ground arith
  | inr (q, u) ↦
      add_components-IsPartition cs q r (ground arith) (add_component-IsPartition pol q c u i)
]

add_producers-IsPartition :
    (ps : List (List Component)) (pol r : Policies)
    → add_producers pol ps ≡ ok r
    → IsPartition pol
    → IsPartition r
unfolding add_producers
add_producers-IsPartition [] pol r h i = let e : pol ≡ r = ground arith in rw (← e) i
add_producers-IsPartition (c ∷ cs) pol r h i = elim (Result-cases (add_components pol c)) [
  | inl (e, u) ↦ ground arith
  | inr (q, u) ↦
      add_producers-IsPartition cs q r (ground arith) (add_components-IsPartition c pol q u i)
]

no_policies-IsPartition : IsPartition no_policies
unfolding lookup
no_policies-IsPartition = record {
  owned = λ n g p l m. ground arith;
  listed = λ n g l. ground arith;
}

-- In an accepted registry a package name has at most one owner: the group that lists it.
pub policies-IsPartition :
    (registry : Registry) (pol : Policies) → policies registry ≡ ok pol → IsPartition pol
unfolding policies
policies-IsPartition invalid pol h = ground arith
policies-IsPartition (producers ps) pol h =
    add_producers-IsPartition ps no_policies pol h no_policies-IsPartition
