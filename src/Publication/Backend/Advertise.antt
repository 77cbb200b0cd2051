-- ===== src/Publication/Backend/Advertise.antt =====
-- What `publish` and `authorized` of tools/v3_publication_backend.py commit.
use ro_repo.Base.{
  ℕ, ◌+◌, ◌≤◌, ◌≡◌, refl, true, false, ◌&&◌, Option, some, List, ok, arith, ◌⊎◌, inl, inr, ◌==◌,
  ==_iff, Result-cases,
}
use ro_repo.Base.Text.{Text, text_eq_iff}
use ro_repo.Base.Dict.{text_key, pair_key, lookup}
use ro_repo.Publication.Records.{
  published, remote_verified, publication, Attempt, Tables, Row, Db, Checkpoint, Verification,
  option_text_eq, option_text_eq_iff,
}
use ro_repo.Publication.Ledger.{Audit, IsSound, Clock}
use ro_repo.Publication.Backend.{before_state, fresh_remote, is_recent, authorized_of, remote_of}
use ro_repo.Publication.Backend.Stages.{Approval}
use ro_repo.Publication.Backend.Publish.{
  publish, validate_publish, guard_publish, advertised, is_at_base, is_resumed,
}
use ro_repo.Publication.Backend.Taken.{Replayed, Taken, transition-Taken}
use ro_repo.Publication.Backend.Kept.{put_attempt-head}

-- A first publication: the attempt was verified remotely, its approval is the one that publishes it,
-- and the head was moved from exactly the base of the attempt.
pub record Advertised (k : Text) (p : Approval) (now : ℕ) (t : Tables) (v : Attempt) (t' : Tables)
    : Type 0 where
  pub stored : Attempt
  pub found : lookup k t.attempts ≡ some stored
  pub stood : stored.state ≡ remote_verified
  pub remote : Verification
  pub verified : remote_of stored ≡ ok remote
  pub not_ahead : remote.verified_at ≤ now
  pub recent : now ≤ remote.verified_at + 60
  pub until : ℕ
  pub approved : authorized_of stored ≡ ok (p.sha256, until)
  pub compared :
      is_resumed stored ≡ false
      → (t.head.digest ≡ stored.immutable.proposal.previous_stable_sha256)
        × (t.head.generation ≡ stored.base_generation)
        × (t'.head.generation ≡ t.head.generation + 1)
  pub moved : t'.head.digest ≡ stored.immutable.proposal.result_stable_sha256

at_base_sound :
    (d e : Option Text) (m n : ℕ) → (option_text_eq d e && (m == n)) ≡ true → (d ≡ e) × (m ≡ n)
at_base_sound d e m n h = (ground (arith, option_text_eq_iff d e), ground (arith, ==_iff m n))

module _ (k : Text) (p : Approval) (now : ℕ) (events : List Row) (t t' : Tables) (v : Attempt) where
  Taken-Advertised :
      Taken remote_verified published
        (publication p.sha256)
        (validate_publish p now)
        k
        events
        t
        v
        t'
      → Advertised k p now t v t'
  unfolding is_recent validate_publish advertised is_at_base fresh_remote
  Taken-Advertised r =
      let s = r.stored in
      let heads : t'.head ≡ r.checked.head = rw r.after (put_attempt-head r.checked v) in
      elim (Result-cases (remote_of s)) [
        | inl (e, q) ↦ ground (arith, r.valid)
        | inr (x, q) ↦ elim (Result-cases (authorized_of s)) [
          | inl (e, u) ↦ ground (arith, r.valid)
          | inr ((sha256, n), u) ↦
              let head : r.checked.head ≡ advertised s t.head = ground (arith, r.valid) in
              let same : sha256 ≡ p.sha256 = ground (arith, r.valid, text_eq_iff p.sha256 sha256) in
              record {
                stored = s;
                found = r.found;
                stood = r.stood;
                remote = x;
                verified = q;
                not_ahead = ground (arith, r.valid);
                recent = ground (arith, r.valid);
                until = n;
                approved = rw (← same) u;
                compared = λ plain.
                    let base =
                      at_base_sound t.head.digest s.immutable.proposal.previous_stable_sha256
                        t.head.generation s.base_generation (ground (arith, r.valid)) in
                    (base.0, base.1, rw (heads, head, plain) refl);
                moved = rw (heads, head) refl;
              }
        ]
      ]

module _ (a : Audit) (s : IsSound a) (k : Text) (p : Approval) (clock : Clock) (db db' : Db)
    (v : Attempt) (receipt : Checkpoint) where
  -- If the signer's signatures verify: a committed publish is a replay that leaves the whole database as it is, or its
  -- attempt was verified remotely at most 60 seconds ago and authorized by the given approval, and
  -- the head's digest becomes the attempt's result; unless it resumes a first publication, the head
  -- stood at the attempt's base before, and its generation grows by one.
  pub publish-Advertised :
      publish a k p clock db ≡ ok ((v, receipt), db')
      → Replayed published (publication p.sha256) k db v db'
        ⊎ Advertised k p clock.inside db.tables v db'.tables
  unfolding publish
  publish-Advertised h =
      let (expected, e, c) =
        transition-Taken a s k published (publication p.sha256) (validate_publish p clock.inside)
          (guard_publish p) clock db db' v receipt (ground arith) in
      let is : expected ≡ remote_verified = unfold before_state in ground (arith, e) in
      elim c [
        | inl same ↦ inl same
        | inr taken ↦
            inr
              (Taken-Advertised k p clock.inside db.events db.tables db'.tables v (rw is at taken))
      ]
