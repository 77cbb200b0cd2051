-- ===== src/Publication/Backend/Reach.antt =====
-- The committed operations of `Backend` in tools/v3_publication_backend.py as steps.
use ro_repo.Base.{
  ◌≡◌, refl, true, not, ◌||◌, none, some, List, ok, arith, inl, inr, Option-cases, after_raise, ℕ,
  ◌⊎◌, Bool-cases, Result-cases, leb, length, [],
}
use ro_repo.Base.Text.{Text, codes, is_blank}
use ro_repo.Base.Dict.{text_key, lookup, insert, contains}
use ro_repo.Publication.Records.{
  verified, composed, tested, awaiting_approval, authorized, signed, staged, remote_verified,
  published, post_verified, evidence, result, gate, authorization, signature, staging, verification,
  publication, Attempt, Tables, Row, Db, Checkpoint, Immutable, Verification, Resume, same_by,
  Operation-discrete, resume_first,
}
use ro_repo.Publication.Ledger.{Audit, IsSound, Clock, attempt_of, consume}
use ro_repo.Publication.Ledger.Transaction.{execute_change}
use ro_repo.Publication.Authorization.{is_id}
use ro_repo.Publication.Backend.{
  authorized_of, fresh, fail, change_fail, failed_attempt, put_attempt, execute,
}
use ro_repo.Publication.Backend.Stages.{
  validate_evidence, validate_result, validate_test, validate_nothing, Evidence, VerifiedResult,
  Approval, StagedView, create, change_create, insert_attempt, new_attempt, to_verified,
  to_composed, to_tested, to_awaiting_approval, create_name,
}
use ro_repo.Publication.Backend.Publish.{
  validate_approval, validate_signature, validate_staging, validate_pre, validate_post,
  validate_publish, guard_remote, guard_publish, to_authorized, to_signed, to_staged,
  remotely_verified, to_post_verified, publish, is_resumed, consume_approval,
}
use ro_repo.Publication.Backend.Resume.{
  Observer, reauthorize_first, check_resumption, check_predecessor, guard_resumed, change_resumed,
  insert_resumed, replay_resumed, consume_resume, resumed_attempt,
}
use ro_repo.Publication.Backend.Sound.{Sound, Earned, insert-Sound, was_published}
use ro_repo.Publication.Backend.Kept.{transition-Sound, put_attempt-insert, put_attempt-head}
use ro_repo.Publication.Backend.Checks.{
  consume-Same, consume_approval-Same, evidence-Keeps, result-Keeps, test-Keeps, nothing-Keeps,
  approval-Keeps, signature-Keeps, staging-Keeps, pre-Keeps, post-Keeps, publish-Keeps,
}

-- One committed operation, at any time and with any capability
pub data Step (a : Audit) (db db' : Db) : Type 0 where
  step_created :
      (k : Text) (i : Immutable) (c : Clock) (r : Attempt × Checkpoint)
      → create a k i c db ≡ ok (r, db')
      → Step a db db'
  step_verified :
      (k : Text) (e : Evidence) (c : Clock) (r : Attempt × Checkpoint)
      → to_verified a k e c db ≡ ok (r, db')
      → Step a db db'
  step_composed :
      (k : Text) (e : VerifiedResult) (c : Clock) (r : Attempt × Checkpoint)
      → to_composed a k e c db ≡ ok (r, db')
      → Step a db db'
  step_tested :
      (k : Text) (e : Evidence) (c : Clock) (r : Attempt × Checkpoint)
      → to_tested a k e c db ≡ ok (r, db')
      → Step a db db'
  step_awaiting :
      (k : Text) (c : Clock) (r : Attempt × Checkpoint)
      → to_awaiting_approval a k c db ≡ ok (r, db')
      → Step a db db'
  step_authorized :
      (k : Text) (p : Approval) (c : Clock) (r : Attempt × Checkpoint)
      → to_authorized a k p c db ≡ ok (r, db')
      → Step a db db'
  step_signed :
      (k : Text) (v : StagedView) (c : Clock) (r : Attempt × Checkpoint)
      → to_signed a k v c db ≡ ok (r, db')
      → Step a db db'
  step_staged :
      (k : Text) (v : StagedView) (c : Clock) (r : Attempt × Checkpoint)
      → to_staged a k v c db ≡ ok (r, db')
      → Step a db db'
  step_pre_verified :
      (k : Text) (v : Verification) (c : Clock) (r : Attempt × Checkpoint)
      → remotely_verified a k v c db ≡ ok (r, db')
      → Step a db db'
  step_published :
      (k : Text) (p : Approval) (c : Clock) (r : Attempt × Checkpoint)
      → publish a k p c db ≡ ok (r, db')
      → Step a db db'
  step_post_verified :
      (k : Text) (v : Verification) (c : Clock) (r : Attempt × Checkpoint)
      → to_post_verified a k v c db ≡ ok (r, db')
      → Step a db db'
  step_reauthorized :
      (k : Text) (e : Evidence) (w : VerifiedResult) (p : Approval) (o : Observer) (c : Clock)
      (r : Attempt × Checkpoint)
      → reauthorize_first a k e w p o c db ≡ ok (r, db')
      → Step a db db'
  step_failed :
      (k reason : Text) (c : Clock) (r : Attempt × Checkpoint)
      → fail a k reason c db ≡ ok (r, db')
      → Step a db db'

pub data Reach (a : Audit) (db : Db) : Db → Type 0 where
  here : Reach a db db
  after : {mid last : Db} → Reach a db mid → Step a mid last → Reach a db last

insert_attempt-Sound :
    (k : Text) (i : Immutable) (t t' : Tables) (v : Attempt)
    → Sound t
    → insert_attempt k i t ≡ ok (v, t')
    → Sound t'
unfolding insert_attempt new_attempt is_resumed contains
insert_attempt-Sound k i t t' v s h =
    let new = new_attempt k i t.head.generation in
    let is : t' ≡ record t { attempts = insert k new t.attempts } = ground arith in
    insert-Sound t t' k new s refl (rw is refl) (rw is (ground arith)) (λ p n. ground arith)

change_create-Sound :
    (k : Text) (i : Immutable) (events : List Row) (t t' : Tables) (v : Attempt)
    → Sound t
    → change_create k i events t ≡ ok (v, t')
    → Sound t'
unfolding change_create
change_create-Sound k i events t t' v sound h = elim (Option-cases (lookup k t.attempts)) [
  | inl q ↦ insert_attempt-Sound k i t t' v sound (ground arith)
  | inr (old, q) ↦ let is : t ≡ t' = ground arith in rw (← is) sound
]

change_fail-Sound :
    (k reason : Text) (events : List Row) (t t' : Tables) (v : Attempt)
    → Sound t
    → change_fail k reason events t ≡ ok (v, t')
    → Sound t'
unfolding change_fail attempt_of failed_attempt is_resumed Earned
change_fail-Sound k reason events t t' v s h = elim (Option-cases (lookup k t.attempts)) [
  | inl q ↦ ground arith
  | inr (old, q) ↦
      let is : t' ≡ put_attempt t (failed_attempt reason old) = ground arith in
      rw is (failing old q)
]
  where
    failing :
        (old : Attempt)
        → lookup k t.attempts ≡ some old
        → Sound (put_attempt t (failed_attempt reason old))
    failing old q =
        let new = failed_attempt reason old in
        let id = s.keyed k old q in
        insert-Sound t (put_attempt t new) k new s id (put_attempt-insert t k old new q id)
          (rw (put_attempt-head t new) (ground arith)) (λ p n. inl (old, q, p, n, refl))

insert_resumed-Sound :
    (a : Audit) (k : Text) (i : Immutable) (x : Resume) (e : Evidence) (w : VerifiedResult)
    (p : Approval) (sha : Text) (now : ℕ) (events : List Row) (t t' : Tables) (v : Attempt)
    → Sound t
    → insert_resumed a k i x e w p sha now events t ≡ ok (v, t')
    → Sound t'
unfolding insert_resumed consume_resume resumed_attempt
insert_resumed-Sound a k i x e w p sha now events t t' v s h =
    elim (Result-cases (check_predecessor a x now events t)) [
      | inl (y, q) ↦ ground arith
      | inr (old, q) ↦ elim (Result-cases (consume_approval t p k)) [
        | inl (y, u) ↦ ground arith
        | inr (t₁, u) ↦
            elim (Result-cases (consume t₁ (codes "first-resume-parent") x.predecessor k)) [
              | inl (y, z) ↦ ground arith
              | inr (t₂, z) ↦
                  let (e₁, d₁) = consume_approval-Same t t₁ p k u in
                  let (e₂, d₂) = consume-Same t₁ t₂ _ _ _ z in
                  let new = resumed_attempt k i x e w p sha old.base_generation in
                  let is : record t₂ { attempts = insert k new t₂.attempts } ≡ t' = ground arith in
                  insert-Sound t t' k new s refl (rw (← is, e₂, e₁) refl)
                    (rw (← is, d₂, d₁) (omega arith)) (λ y n. unfold contains in ground arith)
            ]
      ]
    ]

change_resumed-Sound :
    (a : Audit) (k : Text) (i : Immutable) (x : Resume) (e : Evidence) (w : VerifiedResult)
    (p : Approval) (sha : Text) (now : ℕ) (events : List Row) (t t' : Tables) (v : Attempt)
    → Sound t
    → change_resumed a k i x e w p sha now events t ≡ ok (v, t')
    → Sound t'
unfolding change_resumed replay_resumed
change_resumed-Sound a k i x e w p sha now events t t' v s h =
    elim (Option-cases (lookup k t.attempts)) [
      | inl q ↦ insert_resumed-Sound a k i x e w p sha now events t t' v s (ground arith)
      | inr (old, q) ↦ elim (Result-cases (authorized_of old)) [
        | inl (y, u) ↦ ground arith
        | inr ((y, n), u) ↦ let is : t ≡ t' = ground arith in rw (← is) s
      ]
    ]

module _ (a : Audit) (s : IsSound a) (db db' : Db) (r : Attempt × Checkpoint) (c : Clock)
    (sound : Sound db.tables) where
  create-Sound : (k : Text) (i : Immutable) → create a k i c db ≡ ok (r, db') → Sound db'.tables
  unfolding create
  create-Sound k i h =
      let (n, ran) =
        after_raise (not (is_id k) || same_by Operation-discrete i.operation resume_first)
          "invalid immutable attempt"
          (execute a (create_name i.operation) (some k) (change_create k i) none (λ v now. ok tt) c
            db)
          (r, db') h in
      change_create-Sound k i db.events db.tables db'.tables r.0 sound (
        execute_change a s (create_name i.operation) (some k) (change_create k i) none
          (λ v now. ok tt) c db db' r.0 r.1 ran)

  resumed-Sound :
      (k : Text) (e : Evidence) (w : VerifiedResult) (p : Approval) (o : Observer)
      → reauthorize_first a k e w p o c db ≡ ok (r, db')
      → Sound db'.tables
  unfolding reauthorize_first
  resumed-Sound k e w p o h = elim (Option-cases p.request.resume) [
    | inl q ↦ ground arith
    | inr (x, q) ↦ elim (Result-cases (check_resumption a k x e w p o c.entry db)) [
      | inl (y, u) ↦ ground arith
      | inr ((old, seen), u) ↦
          let i : Immutable = record {
            proposal = old.immutable.proposal;
            plan_sha256 = w.plan_sha256;
            operation = resume_first;
            resume = some x;
          } in
          let ran : execute a (codes "reauthorize-first") (some k)
                (change_resumed a k i x e w p o.sha256 c.inside) none (guard_resumed e w p seen) c
                db
              ≡ ok (r, db') =
            ground arith in
          change_resumed-Sound a k i x e w p o.sha256 c.inside db.events db.tables db'.tables r.0
            sound
            (execute_change a s (codes "reauthorize-first") (some k)
              (change_resumed a k i x e w p o.sha256 c.inside) none (guard_resumed e w p seen) c db
              db' r.0 r.1 ran)
    ]
  ]

  fail-Sound : (k reason : Text) → fail a k reason c db ≡ ok (r, db') → Sound db'.tables
  unfolding fail
  fail-Sound k reason h =
      let (n, ran) =
        after_raise (is_blank reason || leb 1025 (length reason)) "invalid failure diagnosis"
          (execute a (codes "FAILED") (some k) (change_fail k reason) none (λ v now. ok tt) c db)
          (r, db') h in
      change_fail-Sound k reason db.events db.tables db'.tables r.0 sound (
        execute_change a s (codes "FAILED") (some k) (change_fail k reason) none (λ v now. ok tt) c
          db db' r.0 r.1 ran)

empty-Sound : (t : Tables) → t.attempts ≡ [] → Sound t
unfolding lookup
empty-Sound t e = record {
  keyed = λ k v h. absurd (no_attempt k v h);
  spent = λ k v h p n. absurd (no_attempt k v h);
  distinct = λ k j v w h g p q m n b. absurd (no_attempt k v h);
}
  where
    no_attempt : (k : Text) (v : Attempt) → lookup k t.attempts ≡ some v → ⊥
    no_attempt k v h = ground (arith, (rw e at h))

module _ (a : Audit) (s : IsSound a) where
  Step-Sound : (db db' : Db) → Sound db.tables → Step a db db' → Sound db'.tables
  unfolding to_verified to_composed to_tested to_awaiting_approval to_authorized to_signed to_staged
      remotely_verified publish to_post_verified
  Step-Sound db db' sound (step_created k i c r h) = create-Sound a s db db' r c sound k i h
  Step-Sound db db' sound (step_verified k e c r h) =
      transition-Sound verified (evidence e.sha256) (validate_evidence e) (evidence-Keeps e) a s k
        (λ v now. fresh e.expiry now) c db db' r sound (ground arith)
  Step-Sound db db' sound (step_composed k e c r h) =
      transition-Sound composed (result e.sha256 e.receipt) (validate_result e) (result-Keeps e) a s
        k (λ v now. ok tt) c db db' r sound (ground arith)
  Step-Sound db db' sound (step_tested k e c r h) =
      transition-Sound tested (evidence e.sha256) (validate_test e) (test-Keeps e) a s k
        (λ v now. fresh e.expiry now) c db db' r sound (ground arith)
  Step-Sound db db' sound (step_awaiting k c r h) =
      transition-Sound awaiting_approval gate validate_nothing nothing-Keeps a s k (λ v now. ok tt)
        c db db' r sound h
  Step-Sound db db' sound (step_authorized k p c r h) =
      transition-Sound authorized (authorization p.sha256 p.expiry) (validate_approval a k p)
        (approval-Keeps a k p) a s k (λ v now. fresh p.expiry now) c db db' r sound (ground arith)
  Step-Sound db db' sound (step_signed k v c r h) =
      transition-Sound signed (signature v.envelope_sha256 v.signing_key_sha256)
        (validate_signature a v c.inside) (signature-Keeps a v c.inside) a s k
        (λ x now. fresh v.expires_at now) c db db' r sound (ground arith)
  Step-Sound db db' sound (step_staged k v c r h) =
      transition-Sound staged (staging v.envelope_sha256 v.sha256) (validate_staging v c.inside)
        (staging-Keeps v c.inside) a s k (λ x now. fresh v.expires_at now) c db db' r sound
        (ground arith)
  Step-Sound db db' sound (step_pre_verified k v c r h) =
      transition-Sound remote_verified (verification v) (validate_pre v c.inside)
        (pre-Keeps v c.inside) a s k (guard_remote v) c db db' r sound h
  Step-Sound db db' sound (step_published k p c r h) =
      transition-Sound published (publication p.sha256) (validate_publish p c.inside)
        (publish-Keeps p c.inside) a s k (guard_publish p) c db db' r sound (ground arith)
  Step-Sound db db' sound (step_post_verified k v c r h) =
      transition-Sound post_verified (verification v) (validate_post a k v c.inside)
        (post-Keeps a k v c.inside) a s k (guard_remote v) c db db' r sound h
  Step-Sound db db' sound (step_reauthorized k e w p o c r h) =
      resumed-Sound a s db db' r c sound k e w p o h
  Step-Sound db db' sound (step_failed k reason c r h) = fail-Sound a s db db' r c sound k reason h

  Reach-Sound : (db db' : Db) → Sound db.tables → Reach a db db' → Sound db'.tables
  Reach-Sound db db' sound here = sound
  Reach-Sound db db' sound (after {mid} r step) =
      Step-Sound mid db' (Reach-Sound db mid sound r) step

  -- If the signer's signatures verify: from tables without an attempt, however the operations follow
  -- one another, two published attempts of the same base generation are one attempt, or one of the
  -- two resumes a first publication.
  pub publish_once :
      (db db' : Db)
      → db.tables.attempts ≡ []
      → Reach a db db'
      → (k j : Text) (v w : Attempt) → lookup k db'.tables.attempts ≡ some v
      → lookup j db'.tables.attempts ≡ some w
      → was_published v ≡ true
      → was_published w ≡ true
      → v.base_generation ≡ w.base_generation
      → (k ≡ j) ⊎ (is_resumed v ≡ true) ⊎ (is_resumed w ≡ true)
  publish_once db db' e r k j v w f g p q b = elim (Bool-cases (is_resumed v)) [
    | inl y ↦ inr (inl y)
    | inr m ↦ elim (Bool-cases (is_resumed w)) [
      | inl y ↦ inr (inr y)
      | inr n ↦
          inl ((Reach-Sound db db' (empty-Sound db.tables e) r).distinct k j v w f g p q m n b)
    ]
  ]
