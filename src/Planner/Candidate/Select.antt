-- ===== src/Planner/Candidate/Select.antt =====
-- Filtering by group keeps exactly the elements of the group.
use ro_repo.Base.{
  ◌≡◌, ◌≢◌, List, [], ◌∷◌, Result, ok, arith, inl, inr, ◌↔◌, Bool-cases, Result-cases,
}
use ro_repo.Base.Text.{Text, text_eq, text_eq_iff}
use ro_repo.Base.Dict.{Dict, In}
use ro_repo.Planner.Nevra.{Package}
use ro_repo.Planner.Packages.{group_of}
use ro_repo.Planner.Candidate.{select_by}

module _ {A : Type 0} (entry : A → Package) (owner : Dict Text Text) (g : Text) where
  Selects : A → List A → List A → Type 0
  Selects a xs s = In a s ↔ (In a xs × (group_of owner (entry a) ≡ ok g))

  Selects-take :
      (a x : A) (xs s : List A)
      → group_of owner (entry x) ≡ ok g
      → Selects a xs s
      → Selects a (x ∷ xs) (x ∷ s)
  unfolding Selects
  Selects-take a x xs s e i = (to, from)
    where
      to : In a (x ∷ s) → In a (x ∷ xs) × (group_of owner (entry a) ≡ ok g)
      to (inl same) = (inl same, rw same e)
      to (inr m) = (inr (i.0 m).0, (i.0 m).1)

      from : In a (x ∷ xs) × (group_of owner (entry a) ≡ ok g) → In a (x ∷ s)
      from (inl same, y) = inl same
      from (inr m, y) = inr (i.1 (m, y))

  ok_injective : (q : Text) (r : Result Text) → r ≡ ok q → r ≡ ok g → q ≡ g
  ok_injective q r x y = ground arith

  Selects-pass :
      (q : Text) (a x : A) (xs s : List A)
      → group_of owner (entry x) ≡ ok q
      → q ≢ g
      → Selects a xs s
      → Selects a (x ∷ xs) s
  unfolding Selects
  Selects-pass q a x xs s e n i = (λ m. (inr (i.0 m).0, (i.0 m).1), from)
    where
      from : In a (x ∷ xs) × (group_of owner (entry a) ≡ ok g) → In a s
      from (inl same, y) = absurd (n (ok_injective q (group_of owner (entry x)) e (rw same at y)))
      from (inr m, y) = i.1 (m, y)

  pub select_by-In :
      (xs s : List A) (a : A)
      → select_by entry owner g xs ≡ ok s
      → In a s ↔ (In a xs × (group_of owner (entry a) ≡ ok g))
  unfolding select_by Selects
  select_by-In [] s a h = ground arith
  select_by-In (x ∷ xs) s a h = elim (Result-cases (group_of owner (entry x))) [
    | inl (e, u) ↦ ground arith
    | inr (q, u) ↦ elim (Result-cases (select_by entry owner g xs)) [
      | inl (e, v) ↦ ground arith
      | inr (t, v) ↦ elim (Bool-cases (text_eq q g)) [
        | inl b ↦
            let same : q ≡ g = (text_eq_iff q g).0 b in
            let out : x ∷ t ≡ s = ground arith in
            rw (← out) (Selects-take a x xs t (rw same at u) (select_by-In xs t a v))
        | inr b ↦
            let out : t ≡ s = ground arith in
            let differs : q ≢ g = ground (arith, text_eq_iff q g) in
            rw (← out) (Selects-pass q a x xs t u differs (select_by-In xs t a v))
      ]
    ]
  ]
