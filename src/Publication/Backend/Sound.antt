-- ===== src/Publication/Backend/Sound.antt =====
-- The generations that published attempts own, as the backend of
-- tools/v3_publication_backend.py keeps them.
use ro_repo.Base.{
  suc, ◌+◌, ◌≤◌, ◌≡◌, refl, sym, Bool, true, false, some, arith, ◌⊎◌, inl, inr, Bool-cases,
}
use ro_repo.Base.Text.{Text, text_eq, text_eq_iff}
use ro_repo.Base.Dict.{text_key, Dict, lookup, insert, contains, lookup-insert}
use ro_repo.Publication.Records.{published, Attempt, Tables, state_key}
use ro_repo.Publication.Backend.Publish.{is_resumed}

-- `"PUBLISHED" in value["proofs"]`
abbrev pub was_published : Attempt → Bool
was_published v = contains published v.proofs

-- Every attempt stands under its own id; a published one that resumes no other owns the generation
-- after its base, which is not in the future, and which no other such one owns.
pub record Sound (t : Tables) : Type 0 where
  pub keyed : (k : Text) (v : Attempt) → lookup k t.attempts ≡ some v → v.attempt_id ≡ k
  pub spent :
      (k : Text) (v : Attempt)
      → lookup k t.attempts ≡ some v
      → was_published v ≡ true
      → is_resumed v ≡ false
      → suc v.base_generation ≤ t.head.generation
  pub distinct :
      (k j : Text) (v w : Attempt)
      → lookup k t.attempts ≡ some v
      → lookup j t.attempts ≡ some w
      → was_published v ≡ true
      → was_published w ≡ true
      → is_resumed v ≡ false
      → is_resumed w ≡ false
      → v.base_generation ≡ w.base_generation
      → k ≡ j

-- What a published row of an attempt stands on: it was published before on the same base, or it
-- takes the generation that follows the head's.
unfoldable pub Earned : Text → Attempt → Tables → Tables → Type 0
Earned k new t t' =
    ((old : Attempt) × (lookup k t.attempts ≡ some old)
      × (was_published old ≡ true)
      × (is_resumed old ≡ false)
      × (old.base_generation ≡ new.base_generation))
    ⊎ (new.base_generation ≡ t.head.generation) × (t'.head.generation ≡ t.head.generation + 1)

found-insert :
    (k j : Text) (new v : Attempt) (d : Dict Text Attempt)
    → lookup j (insert k new d) ≡ some v
    → (k ≡ j) × (v ≡ new) ⊎ (lookup j d ≡ some v)
found-insert k j new v d h = elim (Bool-cases (text_eq k j)) [
  | inl b ↦ inl ((text_eq_iff k j).0 b, ground (arith, lookup-insert k j new d))
  | inr b ↦ inr (ground (arith, lookup-insert k j new d))
]

module _ (t t' : Tables) (k : Text) (new : Attempt) (s : Sound t) (named : new.attempt_id ≡ k)
    (placed : t'.attempts ≡ insert k new t.attempts)
    (later : t.head.generation ≤ t'.head.generation)
    (earned : was_published new ≡ true → is_resumed new ≡ false → Earned k new t t') where
  was :
      (j : Text) (v : Attempt)
      → lookup j t'.attempts ≡ some v
      → (k ≡ j) × (v ≡ new) ⊎ (lookup j t.attempts ≡ some v)
  was j v h = found-insert k j new v t.attempts (rw placed at h)

  new-spent :
      was_published new ≡ true
      → is_resumed new ≡ false
      → suc new.base_generation ≤ t'.head.generation
  unfolding Earned
  new-spent p n = elim (earned p n) [
    | inl (old, f, q, o, e) ↦ ground (arith, s.spent k old f q o)
    | inr (e, g) ↦ ground arith
  ]

  -- Another published attempt does not have the base of the new row.
  apart :
      (j : Text) (w : Attempt)
      → lookup j t.attempts ≡ some w
      → was_published w ≡ true
      → is_resumed w ≡ false
      → was_published new ≡ true
      → is_resumed new ≡ false
      → new.base_generation ≡ w.base_generation
      → k ≡ j
  unfolding Earned
  apart j w f p m q n e = elim (earned q n) [
    | inl (old, g, r, o, b) ↦ s.distinct k j old w g f r p o m (ground arith)
    | inr (b, g) ↦ ground (arith, s.spent j w f p m)
  ]

  pub insert-Sound : Sound t'
  insert-Sound = record {
    keyed = λ j v h. elim (was j v h) [ inl (a, b) ↦ rw (b, named) a | inr f ↦ s.keyed j v f ];
    spent = λ j v h p n. elim (was j v h) [
      | inl (a, b) ↦ rw b (new-spent (rw b at p) (rw b at n))
      | inr f ↦ ground (arith, s.spent j v f p n)
    ];
    distinct = λ i j v w f g p q m n e. elim (was i v f) [
      | inl (a, b) ↦ elim (was j w g) [
        | inl (c, d) ↦ rw (← a, ← c) refl
        | inr g' ↦ rw (← a) (apart j w g' q n (rw b at p) (rw b at m) (rw b at e))
      ]
      | inr f' ↦ elim (was j w g) [
        | inl (c, d) ↦ rw (← c) (sym (apart i v f' p m (rw d at q) (rw d at n) (sym (rw d at e))))
        | inr g' ↦ s.distinct i j v w f' g' p q m n e
      ]
    ];
  }
