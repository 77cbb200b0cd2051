-- ===== src/Publication/Backend/Kept.antt =====
-- What the stages of `Backend` in tools/v3_publication_backend.py keep of the generations.
use ro_repo.Base.{ℕ, ◌+◌, ◌≡◌, refl, true, false, some, List, Result, ok, arith, ◌⊎◌, inl, inr, ap}
use ro_repo.Base.Text.{Text}
use ro_repo.Base.Dict.{text_key, lookup, insert, contains, contains-insert, contains-lookup}
use ro_repo.Publication.Records.{
  State, published, Proof, Attempt, Tables, Row, Db, Checkpoint, state_key, same_by, State-discrete,
}
use ro_repo.Publication.Ledger.{Audit, IsSound, Clock, put_attempt}
use ro_repo.Publication.Backend.{Validate, transition, reached}
use ro_repo.Publication.Backend.Taken.{Taken, transition-Taken}
use ro_repo.Publication.Backend.Sound.{Sound, Earned, insert-Sound, was_published}
use ro_repo.Publication.Backend.Publish.{is_resumed}

-- What the checks of a stage leave alone: they write no attempt, and the generation changes only
-- where the stage is the publication of an attempt that resumes no other, which takes the one
-- after the attempt's base.
unfoldable pub Held : State → Attempt → Tables → Tables → Type 0
Held target stored t checked =
    (checked.attempts ≡ t.attempts)
    × (((checked.head.generation ≡ t.head.generation)
          × ((same_by State-discrete target published ≡ false) ⊎ (is_resumed stored ≡ true)))
        ⊎ (stored.base_generation ≡ t.head.generation)
          × (checked.head.generation ≡ t.head.generation + 1))

unfoldable pub Keeps : State → Validate → Type 0
Keeps target validate =
    (events : List Row) (t : Tables) (stored : Attempt) (checked : Tables)
    → validate events t stored ≡ ok checked
    → Held target stored t checked

-- A stage whose checks change no table.
pub same-Held :
    (target : State) (stored : Attempt) (t checked : Tables)
    → same_by State-discrete target published ≡ false
    → t ≡ checked
    → Held target stored t checked
unfolding Held
same-Held target stored t checked n e = (rw e refl, inl (rw e refl, inl n))

pub put_attempt-insert :
    (t : Tables) (k : Text) (old new : Attempt)
    → lookup k t.attempts ≡ some old
    → new.attempt_id ≡ k
    → (put_attempt t new).attempts ≡ insert k new t.attempts
unfolding put_attempt
put_attempt-insert t k old new f e =
    let here : contains new.attempt_id t.attempts ≡ true =
      rw e (contains-lookup k old t.attempts f) in
    rw (here, e) refl

pub put_attempt-head : (t : Tables) (new : Attempt) → (put_attempt t new).head ≡ t.head
unfolding put_attempt
put_attempt-head t new = ground arith

-- A stage that is not the publication does not make an attempt published.
republished :
    (target : State) (proof : Proof) (stored v : Attempt)
    → v ≡ reached target proof stored
    → same_by State-discrete target published ≡ false
    → was_published v ≡ true
    → was_published stored ≡ true
unfolding reached
republished target proof stored v e n p =
    let q : contains published (insert target proof stored.proofs) ≡ true = rw e at p in
    ground (arith, contains-insert target published proof stored.proofs)

module _ (target : State) (proof : Proof) (validate : Validate)
    (keeps : Keeps target validate) where
  Taken-Sound :
      (expected : State) (attempt : Text) (events : List Row) (t t' : Tables) (v : Attempt)
      → Sound t
      → Taken expected target proof validate attempt events t v t'
      → Sound t'
  unfolding Keeps Held Earned reached is_resumed
  Taken-Sound expected attempt events t t' v s r =
      let kept = keeps events t r.stored r.checked r.valid in
      let id = s.keyed attempt r.stored r.found in
      let named : v.attempt_id ≡ attempt = rw r.value id in
      let held : lookup attempt r.checked.attempts ≡ some r.stored = rw kept.0 r.found in
      let heads : t'.head ≡ r.checked.head = rw r.after (put_attempt-head r.checked v) in
      insert-Sound t t' attempt v s named
        (rw (r.after, ← kept.0) (put_attempt-insert r.checked attempt r.stored v held named))
        (rw heads (elim kept.1 [ inl (g, n) ↦ ground arith | inr (b, g) ↦ ground arith ]))
        (λ p plain. elim kept.1 [
          | inl (g, inl n) ↦ inl (
            r.stored,
            r.found,
            republished target proof r.stored v r.value n p,
            rw r.value at plain,
            rw r.value refl,
          )
          | inl (g, inr y) ↦
              let no : is_resumed r.stored ≡ false = rw r.value at plain in ground arith
          | inr (b, g) ↦ inr (rw r.value b, rw heads g)
        ])

  pub transition-Sound :
      (a : Audit) (i : IsSound a) (attempt : Text) (guard : Attempt → ℕ → Result (Unit {0}))
      (clock : Clock) (db db' : Db) (r : Attempt × Checkpoint)
      → Sound db.tables
      → transition a attempt target proof validate guard clock db ≡ ok (r, db')
      → Sound db'.tables
  transition-Sound a i attempt guard clock db db' r s h =
      let (expected, e, c) =
        transition-Taken a i attempt target proof validate guard clock db db' r.0 r.1 h in
      elim c [
        | inl same ↦ rw (ap (λ (d : Db). d.tables) same.unchanged) s
        | inr taken ↦ Taken-Sound expected attempt db.events db.tables db'.tables r.0 s taken
      ]
