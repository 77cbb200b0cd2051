-- ===== src/Base/Dict.antt =====
-- Python's `dict` in insertion order, its keys compared through an instance.
use mathlib.Core.Path.{◌≡◌, refl, ap}
use mathlib.Core.Logic.{◌↔◌, ◌⊎◌, inl, inr}
use mathlib.Core.Bool.{Bool, true, false, ◌&&◌}
use mathlib.Core.Option.{Option, none, some}
use mathlib.Core.List.{List, [], ◌∷◌, ◌++◌}
use native.Mathlib.Omega.{arith}
use ro_repo.Base.Tests.{if◌then◌else◌, Bool-cases}
use ro_repo.Base.Text.{Text, text_eq, text_eq_iff}

pub record Key {ℓ} (A : Type ℓ) : Type ℓ where
  pub same : A → A → Bool
  pub same_iff : (x y : A) → (same x y ≡ true) ↔ (x ≡ y)

instance abbrev pub text_key : Key Text
text_key = record { same = text_eq; same_iff = text_eq_iff }

abbrev pub pair_eq : Text × Text → Text × Text → Bool
pair_eq (a, b) (c, d) = text_eq a c && text_eq b d

pub pair_eq_iff : (s t : Text × Text) → (pair_eq s t ≡ true) ↔ (s ≡ t)
pair_eq_iff (a, b) (c, d) = ground (arith, text_eq_iff a c, text_eq_iff b d)

instance abbrev pub pair_key : Key (Text × Text)
pair_key = record { same = pair_eq; same_iff = pair_eq_iff }

abbrev pub Dict {ℓ κ} : Type ℓ → Type κ → Type (ℓ ⊔ κ)
Dict K V = List (K × V)

-- `a in xs`, with the place
abbrev pub In : {A : Type 0} → A → List A → Type 0
In a [] = ⊥
In a (x ∷ xs) = (a ≡ x) ⊎ In a xs

module _ {K V : Type 0} where
  abbrev pub values : Dict K V → List V
  values [] = []
  values ((k, v) ∷ d) = v ∷ values d

module _ {K V : Type 0} ⦃e : Key K⦄ where
  unfoldable pub lookup : K → Dict K V → Option V
  lookup k [] = none
  lookup k ((j, v) ∷ d) = if e.same j k then some v else lookup k d

  -- `k in d`
  unfoldable pub contains : K → Dict K V → Bool
  contains k [] = false
  contains k ((j, v) ∷ d) = if e.same j k then true else contains k d

  -- `d[k] = v`: an old key keeps its place
  unfoldable pub insert : K → V → Dict K V → Dict K V
  insert k v [] = (k, v) ∷ []
  insert k v ((j, w) ∷ d) = if e.same j k then (k, v) ∷ d else (j, w) ∷ insert k v d

  pub lookup-insert :
      (k j : K) (v : V) (d : Dict K V)
      → lookup j (insert k v d) ≡ (if e.same k j then some v else lookup j d)
  unfolding lookup insert
  lookup-insert k j v [] = refl
  lookup-insert k j v ((i, w) ∷ d) =
      ground (arith, lookup-insert k j v d, e.same_iff i k, e.same_iff i j, e.same_iff k j)

  pub contains-eq-lookup : (k : K) (d : Dict K V) → contains k d ≡ false → lookup k d ≡ none
  unfolding lookup contains
  contains-eq-lookup k [] h = refl
  contains-eq-lookup k ((j, v) ∷ d) h = ground (arith, contains-eq-lookup k d)

  -- A key that is not there is added at the end.
  pub insert_new :
      (k : K) (v : V) (d : Dict K V) → contains k d ≡ false → insert k v d ≡ d ++ (k, v) ∷ []
  unfolding insert contains
  insert_new k v [] h = refl
  insert_new k v ((j, w) ∷ d) h = ground (arith, insert_new k v d)

  pub lookup-In : (k : K) (d : Dict K V) (v : V) → lookup k d ≡ some v → In (k, v) d
  unfolding lookup
  lookup-In k [] v h = ground arith
  lookup-In k ((j, w) ∷ d) v h = elim (Bool-cases (e.same j k)) [
    | inl b ↦ inl (ground (arith, e.same_iff j k))
    | inr b ↦ inr (lookup-In k d v (ground arith))
  ]

module _ {K V : Type 0} ⦃e : Key K⦄ where
  pub contains-In : (k : K) (v : V) (d : Dict K V) → In (k, v) d → contains k d ≡ true
  unfolding contains
  contains-In k v [] m = absurd m
  contains-In k v ((j, w) ∷ d) (inl here) =
      let key : k ≡ j = ap (λ (i : K × V). i.0) here in rw (← key, (e.same_iff k k).1 refl)
  contains-In k v ((j, w) ∷ d) (inr m) = ground (arith, contains-In k v d m)

  pub contains-insert :
      (k j : K) (v : V) (d : Dict K V)
      → contains j (insert k v d) ≡ (if e.same k j then true else contains j d)
  unfolding contains insert
  contains-insert k j v [] = refl
  contains-insert k j v ((i, w) ∷ d) =
      ground (arith, contains-insert k j v d, e.same_iff i k, e.same_iff i j, e.same_iff k j)

  -- A key with a value is in the dict.
  pub contains-lookup : (k : K) (v : V) (d : Dict K V) → lookup k d ≡ some v → contains k d ≡ true
  unfolding contains lookup
  contains-lookup k v [] h = ground arith
  contains-lookup k v ((j, w) ∷ d) h = ground (arith, contains-lookup k v d)

  -- A key that is in the dict has a value.
  pub lookup-contains :
      (k : K) (d : Dict K V) → contains k d ≡ true → (v : V) × (lookup k d ≡ some v)
  unfolding contains lookup
  lookup-contains k [] h = ground arith
  lookup-contains k ((j, v) ∷ d) h = elim (Bool-cases (e.same j k)) [
    | inl b ↦ (v, rw b refl)
    | inr b ↦ let t = lookup-contains k d (rw b at h) in (t.0, rw b t.1)
  ]

  pub In-insert :
      (k : K) (v : V) (d : Dict K V) (x : K × V) → In x (insert k v d) → (x ≡ (k, v)) ⊎ In x d
  unfolding insert
  In-insert k v [] x (inl here) = inl here
  In-insert k v [] x (inr m) = absurd m
  In-insert k v ((j, w) ∷ d) x m = elim (Bool-cases (e.same j k)) [
    | inl b ↦ at_head (rw b at m)
    | inr b ↦ behind (rw b at m) (In-insert k v d x)
  ]
    where
      at_head : In x ((k, v) ∷ d) → (x ≡ (k, v)) ⊎ In x ((j, w) ∷ d)
      at_head (inl here) = inl here
      at_head (inr n) = inr (inr n)

      behind :
          In x ((j, w) ∷ insert k v d)
          → (In x (insert k v d) → (x ≡ (k, v)) ⊎ In x d)
          → (x ≡ (k, v)) ⊎ In x ((j, w) ∷ d)
      behind (inl here) f = inr (inl here)
      behind (inr n) f = elim (f n) [ inl here ↦ inl here | inr q ↦ inr (inr q) ]

module _ {A : Type 0} where
  pub In-append_left : (a : A) (xs ys : List A) → In a xs → In a (xs ++ ys)
  In-append_left a [] ys h = absurd h
  In-append_left a (x ∷ xs) ys (inl h) = inl h
  In-append_left a (x ∷ xs) ys (inr h) = inr (In-append_left a xs ys h)

  pub In-append_right : (a : A) (xs ys : List A) → In a ys → In a (xs ++ ys)
  In-append_right a [] ys h = h
  In-append_right a (x ∷ xs) ys h = inr (In-append_right a xs ys h)

  pub In-append : (a : A) (xs ys : List A) → In a (xs ++ ys) → In a xs ⊎ In a ys
  In-append a [] ys h = inr h
  In-append a (x ∷ xs) ys (inl h) = inl (inl h)
  In-append a (x ∷ xs) ys (inr h) = elim (In-append a xs ys h) [
    | inl p ↦ inl (inr p)
    | inr p ↦ inr p
  ]

module _ {K V : Type 0} where
  pub In-values : (k : K) (v : V) (d : Dict K V) → In (k, v) d → In v (values d)
  In-values k v [] h = absurd h
  In-values k v ((j, w) ∷ d) (inl h) = inl (ap (λ p. p.1) h)
  In-values k v ((j, w) ∷ d) (inr h) = inr (In-values k v d h)

  pub values-In : (v : V) (d : Dict K V) → In v (values d) → (k : K) × In (k, v) d
  values-In v [] h = absurd h
  values-In v ((j, w) ∷ d) (inl h) = (j, inl (ap (λ (x : V). (j, x)) h))
  values-In v ((j, w) ∷ d) (inr h) = let (k, i) = values-In v d h in (k, inr i)
