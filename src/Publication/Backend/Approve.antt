-- ===== src/Publication/Backend/Approve.antt =====
-- What `authorized` of tools/v3_publication_backend.py consumes.
use ro_repo.Base.{◌≡◌, refl, false, some, ok, arith, ◌⊎◌, inl, inr, Result-cases, String}
use ro_repo.Base.Text.{Text, codes}
use ro_repo.Base.Dict.{
  Dict, text_key, pair_key, pair_eq, lookup, insert, contains, lookup-insert, contains-insert,
  pair_eq_iff,
}
use ro_repo.Publication.Records.{authorized, authorization, Attempt, Tables, Db, Checkpoint}
use ro_repo.Publication.Ledger.{Audit, IsSound, Clock, put_attempt, consume}
use ro_repo.Publication.Backend.{fresh}
use ro_repo.Publication.Backend.Stages.{Approval}
use ro_repo.Publication.Backend.Publish.{
  to_authorized, validate_approval, check_approval, consume_approval,
}
use ro_repo.Publication.Backend.Taken.{Replayed, transition-Taken}

-- An identity that nobody had consumed, and that the attempt has consumed now
pub Consumed : String → Text → Text → Tables → Tables → Type 0
Consumed kind identity k t t' =
    (contains (codes kind, identity) t.consumed ≡ false)
    × (lookup (codes kind, identity) t'.consumed ≡ some k)

pub record Spent (p : Approval) (k : Text) (t t' : Tables) : Type 0 where
  pub approval : Consumed "approval" p.approval_sha256 k t t'
  pub witness : Consumed "witness" p.witness_sha256 k t t'
  pub token : Consumed "jwt-jti" p.jti k t t'
  pub authorized_by : Consumed "authorization" p.sha256 k t t'

consume-eq :
    (t t' : Tables) (kind identity k : Text)
    → consume t kind identity k ≡ ok t'
    → (contains (kind, identity) t.consumed ≡ false)
      × (t'.consumed ≡ insert (kind, identity) k t.consumed)
unfolding consume
consume-eq t t' kind identity k h = (ground arith, ground arith)

put_attempt-consumed : (t : Tables) (new : Attempt) → (put_attempt t new).consumed ≡ t.consumed
unfolding put_attempt
put_attempt-consumed t new = ground arith

-- A key that is absent after an insertion was absent before it.
absent_before :
    (x y : Text × Text) (k : Text) (d : Dict (Text × Text) Text)
    → contains y (insert x k d) ≡ false
    → contains y d ≡ false
absent_before x y k d h = ground (arith, contains-insert x y k d)

-- A value stays where another key is set.
still :
    (x y : Text × Text) (k j : Text) (d : Dict (Text × Text) Text)
    → pair_eq x y ≡ false
    → lookup y d ≡ some j
    → lookup y (insert x k d) ≡ some j
still x y k j d n h = ground (arith, lookup-insert x y k d)

now : (x : Text × Text) (k : Text) (d : Dict (Text × Text) Text) → lookup x (insert x k d) ≡ some k
now x k d = ground (arith, lookup-insert x x k d, pair_eq_iff x x)

consume_approval-Spent :
    (p : Approval) (k : Text) (t t' : Tables) → consume_approval t p k ≡ ok t' → Spent p k t t'
unfolding consume_approval Consumed
consume_approval-Spent p k t t' h =
    let A : Text × Text = (codes "approval", p.approval_sha256) in
    let B : Text × Text = (codes "witness", p.witness_sha256) in
    let C : Text × Text = (codes "jwt-jti", p.jti) in
    let D : Text × Text = (codes "authorization", p.sha256) in
    elim (Result-cases (consume t (codes "approval") p.approval_sha256 k)) [
      | inl (y, r) ↦ ground arith
      | inr (t₁, r) ↦ elim (Result-cases (consume t₁ (codes "witness") p.witness_sha256 k)) [
        | inl (y, r₂) ↦ ground arith
        | inr (t₂, r₂) ↦ elim (Result-cases (consume t₂ (codes "jwt-jti") p.jti k)) [
          | inl (y, r₃) ↦ ground arith
          | inr (t₃, r₃) ↦
              let last : consume t₃ (codes "authorization") p.sha256 k ≡ ok t' = ground arith in
              let (a₁, e₁) = consume-eq t t₁ _ _ _ r in
              let (a₂, e₂) = consume-eq t₁ t₂ _ _ _ r₂ in
              let (a₃, e₃) = consume-eq t₂ t₃ _ _ _ r₃ in
              let (a₄, e₄) = consume-eq t₃ t' _ _ _ last in
              let d = t.consumed in
              let whole : t'.consumed ≡ insert D k (insert C k (insert B k (insert A k d))) =
                rw (e₄, e₃, e₂, e₁) refl in
              record {
                approval = (
                  a₁,
                  rw whole (
                      still D A k k _ refl
                        (still C A k k _ refl (still B A k k _ refl (now A k d)))),
                );
                witness = (
                  absent_before A B k d (rw e₁ at a₂),
                  rw whole (still D B k k _ refl (still C B k k _ refl (now B k (insert A k d)))),
                );
                token = (
                  absent_before A C k d (absent_before B C k _ (rw (e₂, e₁) at a₃)),
                  rw whole (still D C k k _ refl (now C k (insert B k (insert A k d)))),
                );
                authorized_by = (
                  absent_before A D k d
                      (absent_before B D k _ (absent_before C D k _ (rw (e₃, e₂, e₁) at a₄))),
                  rw whole (now D k (insert C k (insert B k (insert A k d)))),
                );
              }
        ]
      ]
    ]

module _ (a : Audit) (s : IsSound a) (k : Text) (p : Approval) (clock : Clock) (db db' : Db)
    (v : Attempt) (receipt : Checkpoint) where
  -- If the signer's signatures verify: a committed authorization is a replay that leaves the whole database as it is, or
  -- none of its four identities had
  -- been consumed by any attempt and all four are now consumed by this one.
  pub to_authorized-Spent :
      to_authorized a k p clock db ≡ ok ((v, receipt), db')
      → Replayed authorized (authorization p.sha256 p.expiry) k db v db'
        ⊎ Spent p k db.tables db'.tables
  unfolding to_authorized validate_approval Consumed
  to_authorized-Spent h =
      let (expected, e, c) =
        transition-Taken a s k authorized (authorization p.sha256 p.expiry)
          (validate_approval a k p) (λ x now. fresh p.expiry now) clock db db' v receipt
          (ground arith) in
      elim c [
        | inl same ↦ inl same
        | inr r ↦ elim (Result-cases (check_approval a k p r.stored)) [
          | inl (x, q) ↦ ground (arith, r.valid)
          | inr (x, q) ↦
              let spent : consume_approval db.tables p k ≡ ok r.checked = ground (arith, r.valid) in
              let done = consume_approval-Spent p k db.tables r.checked spent in
              let same : db'.tables.consumed ≡ r.checked.consumed =
                rw r.after (put_attempt-consumed r.checked v) in
              inr (record {
                approval = rw same done.approval;
                witness = rw same done.witness;
                token = rw same done.token;
                authorized_by = rw same done.authorized_by;
              })
        ]
      ]
