-- ===== src/Publication/Tests/Witnesses.antt =====
-- The run of the publication tests, as the tests of the backend take it.
use native.Mathlib.Decide.{ℕ_discrete}
use ro_repo.Base.{◌≡◌, refl, ◌⊎◌, ◌++◌, [], ◌∷◌, none, some, ok, false, true, ℕ}
use ro_repo.Base.Text.{codes, text_eq_refl}
use ro_repo.Base.Dict.{In}
use ro_repo.Publication.Records.{
  Row, proposed, verified, published, authorized, evidence, publication, authorization, State,
}
use ro_repo.Publication.Ledger.{IsSound}
use ro_repo.Publication.Ledger.Intact.{integrity_checkpoint}
use ro_repo.Publication.Ledger.Transaction.{execute-integrity, execute-events, execute-guard}
use ro_repo.Publication.Backend.Taken.{Replayed, Taken, transition-Taken}
use ro_repo.Publication.Backend.Advertise.{Advertised, publish-Advertised}
use ro_repo.Publication.Backend.Approve.{Spent, to_authorized-Spent}
use ro_repo.Publication.Outbox.{
  claim, change_claim, is_owner, leased, put_job, is_over, guard, is_stale,
}
use ro_repo.Publication.Outbox.Fence.{Leased, claim-Leased, guard_unique}
use ro_repo.Publication.Backend.Reach.{
  Reach, here, after, publish_once, step_created, step_verified, step_composed, step_tested,
  step_awaiting, step_authorized, step_signed, step_staged, step_pre_verified, step_published,
}
use ro_repo.Publication.Tests.{
  queued_db, claimed_db, audit, clock, immutable, evidence_seen, whole, approval, view, remote,
  start, id, at, tip, created, verified_db, composed_db, tested_db, awaiting_db, authorized_db,
  signed_db, staged_db, remote_db, published_db,
}
use ro_repo.Base.Dict.{lookup, contains, insert}
use ro_repo.Base.Text.{is_digit, is_alpha}
use ro_repo.Publication.Ledger.{
  digest_of, row_is_bad, check_rows, integrity, last_row, next_event, append_event, execute,
  attempt_of, put_attempt, consume,
}
use ro_repo.Publication.Authorization.{is_id, request}
use ro_repo.Publication.Backend.{
  before_state, reached, advance, change_to, transition, fresh, is_recent, fresh_remote,
}
use ro_repo.Publication.Backend.Stages.{
  new_attempt, insert_attempt, change_create, create, validate_evidence, validate_result,
  validate_test, validate_nothing, to_verified, to_composed, to_tested, to_awaiting_approval,
}
use ro_repo.Publication.Backend.Publish.{
  is_at_base, consume_approval, check_approval, validate_approval, to_authorized,
  validate_signature, to_signed, validate_staging, to_staged, check_remote, validate_pre,
  mark_verified, validate_post, guard_remote, remotely_verified, to_post_verified, is_resumed,
  is_own_intent, advertised, validate_publish, guard_publish, publish,
}

audit-IsSound : IsSound audit
audit-IsSound = record { signs = λ e. text_eq_refl (e.seq ∷ e.state_sha256) }

execute-integrity_example : integrity audit created none ≡ ok (tip created)
unfolding ℕ_discrete lookup contains insert is_digit is_alpha digest_of row_is_bad check_rows
    integrity last_row next_event append_event execute attempt_of put_attempt consume is_id request
    before_state reached advance change_to transition fresh is_recent fresh_remote new_attempt
    insert_attempt change_create create validate_evidence validate_result validate_test
    validate_nothing to_verified to_composed to_tested to_awaiting_approval is_at_base
    consume_approval check_approval validate_approval to_authorized validate_signature to_signed
    validate_staging to_staged check_remote validate_pre mark_verified validate_post guard_remote
    remotely_verified to_post_verified is_resumed is_own_intent advertised validate_publish
    guard_publish publish
execute-integrity_example =
    execute-integrity audit audit-IsSound (codes "create-promote") (some id)
      (change_create id immutable) none (λ v now. ok tt) clock start created (at created)
      (tip created) refl

execute-events_example :
    (created.events ≡ start.events)
    ⊎ ((row : Row) × (created.events ≡ start.events ++ row ∷ [])
        × (row.event.state_sha256 ≡ digest_of audit created)
        × (row.event.operation ≡ codes "create-promote")
        × (row.event.attempt_id ≡ some id))
unfolding ℕ_discrete lookup contains insert is_digit is_alpha digest_of row_is_bad check_rows
    integrity last_row next_event append_event execute attempt_of put_attempt consume is_id request
    before_state reached advance change_to transition fresh is_recent fresh_remote new_attempt
    insert_attempt change_create create validate_evidence validate_result validate_test
    validate_nothing to_verified to_composed to_tested to_awaiting_approval is_at_base
    consume_approval check_approval validate_approval to_authorized validate_signature to_signed
    validate_staging to_staged check_remote validate_pre mark_verified validate_post guard_remote
    remotely_verified to_post_verified is_resumed is_own_intent advertised validate_publish
    guard_publish publish
execute-events_example =
    execute-events audit audit-IsSound (codes "create-promote") (some id)
      (change_create id immutable) none (λ v now. ok tt) clock start created (at created)
      (tip created) refl

execute-guard_example : (verified_db.events ≡ created.events) ⊎ (fresh 200 100 ≡ ok tt)
unfolding ℕ_discrete lookup contains insert is_digit is_alpha digest_of row_is_bad check_rows
    integrity last_row next_event append_event execute attempt_of put_attempt consume is_id request
    before_state reached advance change_to transition fresh is_recent fresh_remote new_attempt
    insert_attempt change_create create validate_evidence validate_result validate_test
    validate_nothing to_verified to_composed to_tested to_awaiting_approval is_at_base
    consume_approval check_approval validate_approval to_authorized validate_signature to_signed
    validate_staging to_staged check_remote validate_pre mark_verified validate_post guard_remote
    remotely_verified to_post_verified is_resumed is_own_intent advertised validate_publish
    guard_publish publish
execute-guard_example =
    execute-guard audit audit-IsSound (codes "VERIFIED") (some id)
      (change_to proposed verified (evidence (codes "e")) (validate_evidence evidence_seen) id) none
      (λ v now. fresh 200 now) clock created verified_db (at verified_db) (tip verified_db) refl

integrity_checkpoint_example :
    (row : Row) × In row created.events
    × (row.seq ≡ 1)
    × (audit.event_digest row.event ≡ 1 ∷ 0 ∷ 0 ∷ 0 ∷ 0 ∷ [])
unfolding ℕ_discrete lookup contains insert is_digit is_alpha digest_of row_is_bad check_rows
    integrity last_row next_event append_event execute attempt_of put_attempt consume is_id request
    before_state reached advance change_to transition fresh is_recent fresh_remote new_attempt
    insert_attempt change_create create validate_evidence validate_result validate_test
    validate_nothing to_verified to_composed to_tested to_awaiting_approval is_at_base
    consume_approval check_approval validate_approval to_authorized validate_signature to_signed
    validate_staging to_staged check_remote validate_pre mark_verified validate_post guard_remote
    remotely_verified to_post_verified is_resumed is_own_intent advertised validate_publish
    guard_publish publish
integrity_checkpoint_example =
    integrity_checkpoint audit created (record { seq = 1; sha256 = 1 ∷ 0 ∷ 0 ∷ 0 ∷ 0 ∷ [] })
      (tip created) refl

transition-Taken_example :
    (expected : State) × (before_state verified ≡ some expected)
    × (Replayed verified (evidence (codes "e")) id created (at verified_db) verified_db
        ⊎ Taken expected verified
            (evidence (codes "e"))
            (validate_evidence evidence_seen)
            id
            created.events
            created.tables
            (at verified_db)
            verified_db.tables)
unfolding ℕ_discrete lookup contains insert is_digit is_alpha digest_of row_is_bad check_rows
    integrity last_row next_event append_event execute attempt_of put_attempt consume is_id request
    before_state reached advance change_to transition fresh is_recent fresh_remote new_attempt
    insert_attempt change_create create validate_evidence validate_result validate_test
    validate_nothing to_verified to_composed to_tested to_awaiting_approval is_at_base
    consume_approval check_approval validate_approval to_authorized validate_signature to_signed
    validate_staging to_staged check_remote validate_pre mark_verified validate_post guard_remote
    remotely_verified to_post_verified is_resumed is_own_intent advertised validate_publish
    guard_publish publish
transition-Taken_example =
    transition-Taken audit audit-IsSound id verified (evidence (codes "e"))
      (validate_evidence evidence_seen) (λ v now. fresh 200 now) clock created verified_db
      (at verified_db) (tip verified_db) refl

publish-Advertised_example :
    Replayed published (publication (codes "auth")) id remote_db (at published_db) published_db
    ⊎ Advertised id approval 100 remote_db.tables (at published_db) published_db.tables
unfolding ℕ_discrete lookup contains insert is_digit is_alpha digest_of row_is_bad check_rows
    integrity last_row next_event append_event execute attempt_of put_attempt consume is_id request
    before_state reached advance change_to transition fresh is_recent fresh_remote new_attempt
    insert_attempt change_create create validate_evidence validate_result validate_test
    validate_nothing to_verified to_composed to_tested to_awaiting_approval is_at_base
    consume_approval check_approval validate_approval to_authorized validate_signature to_signed
    validate_staging to_staged check_remote validate_pre mark_verified validate_post guard_remote
    remotely_verified to_post_verified is_resumed is_own_intent advertised validate_publish
    guard_publish publish
publish-Advertised_example =
    publish-Advertised audit audit-IsSound id approval clock remote_db published_db
      (at published_db) (tip published_db) refl

to_authorized-Spent_example :
    Replayed authorized
      (authorization (codes "auth") 200)
      id
      awaiting_db
      (at authorized_db)
      authorized_db
    ⊎ Spent approval id awaiting_db.tables authorized_db.tables
unfolding ℕ_discrete lookup contains insert is_digit is_alpha digest_of row_is_bad check_rows
    integrity last_row next_event append_event execute attempt_of put_attempt consume is_id request
    before_state reached advance change_to transition fresh is_recent fresh_remote new_attempt
    insert_attempt change_create create validate_evidence validate_result validate_test
    validate_nothing to_verified to_composed to_tested to_awaiting_approval is_at_base
    consume_approval check_approval validate_approval to_authorized validate_signature to_signed
    validate_staging to_staged check_remote validate_pre mark_verified validate_post guard_remote
    remotely_verified to_post_verified is_resumed is_own_intent advertised validate_publish
    guard_publish publish
to_authorized-Spent_example =
    to_authorized-Spent audit audit-IsSound id approval clock awaiting_db authorized_db
      (at authorized_db) (tip authorized_db) refl

run : Reach audit start published_db
unfolding ℕ_discrete lookup contains insert is_digit is_alpha digest_of row_is_bad check_rows
    integrity last_row next_event append_event execute attempt_of put_attempt consume is_id request
    before_state reached advance change_to transition fresh is_recent fresh_remote new_attempt
    insert_attempt change_create create validate_evidence validate_result validate_test
    validate_nothing to_verified to_composed to_tested to_awaiting_approval is_at_base
    consume_approval check_approval validate_approval to_authorized validate_signature to_signed
    validate_staging to_staged check_remote validate_pre mark_verified validate_post guard_remote
    remotely_verified to_post_verified is_resumed is_own_intent advertised validate_publish
    guard_publish publish
run =
    after
      (after
        (after
          (after
            (after
              (after
                (after
                  (after
                    (after
                      (after here (step_created id immutable clock (at created, tip created) refl))
                      (step_verified id evidence_seen clock (at verified_db, tip verified_db) refl))
                    (step_composed id whole clock (at composed_db, tip composed_db) refl))
                  (step_tested id evidence_seen clock (at tested_db, tip tested_db) refl))
                (step_awaiting id clock (at awaiting_db, tip awaiting_db) refl))
              (step_authorized id approval clock (at authorized_db, tip authorized_db) refl))
            (step_signed id view clock (at signed_db, tip signed_db) refl))
          (step_staged id view clock (at staged_db, tip staged_db) refl))
        (step_pre_verified id remote clock (at remote_db, tip remote_db) refl))
      (step_published id approval clock (at published_db, tip published_db) refl)

publish_once_example :
    (id ≡ id) ⊎ (is_resumed (at published_db) ≡ true) ⊎ (is_resumed (at published_db) ≡ true)
unfolding ℕ_discrete lookup contains insert is_digit is_alpha digest_of row_is_bad check_rows
    integrity last_row next_event append_event execute attempt_of put_attempt consume is_id request
    before_state reached advance change_to transition fresh is_recent fresh_remote new_attempt
    insert_attempt change_create create validate_evidence validate_result validate_test
    validate_nothing to_verified to_composed to_tested to_awaiting_approval is_at_base
    consume_approval check_approval validate_approval to_authorized validate_signature to_signed
    validate_staging to_staged check_remote validate_pre mark_verified validate_post guard_remote
    remotely_verified to_post_verified is_resumed is_own_intent advertised validate_publish
    guard_publish publish
publish_once_example =
    publish_once audit audit-IsSound start published_db refl run id id (at published_db)
      (at published_db) refl refl refl refl refl

claim-Leased_example : Leased id (codes "w") 30 100 1 queued_db.tables claimed_db.tables
unfolding ℕ_discrete lookup contains insert is_digit is_alpha digest_of row_is_bad check_rows
    integrity last_row next_event append_event execute attempt_of put_attempt consume is_id request
    before_state reached advance change_to transition fresh is_recent fresh_remote new_attempt
    insert_attempt change_create create validate_evidence validate_result validate_test
    validate_nothing to_verified to_composed to_tested to_awaiting_approval is_at_base
    consume_approval check_approval validate_approval to_authorized validate_signature to_signed
    validate_staging to_staged check_remote validate_pre mark_verified validate_post guard_remote
    remotely_verified to_post_verified is_resumed is_own_intent advertised validate_publish
    guard_publish publish claim change_claim is_owner leased put_job is_over guard is_stale
claim-Leased_example =
    claim-Leased audit audit-IsSound id (codes "w") 30 clock queued_db claimed_db 1 (tip claimed_db)
      refl

guard_unique_example : (codes "w" ≡ codes "w") × (◌≡◌ {A = ℕ} 1 1)
unfolding ℕ_discrete lookup contains insert is_digit is_alpha digest_of row_is_bad check_rows
    integrity last_row next_event append_event execute attempt_of put_attempt consume is_id request
    before_state reached advance change_to transition fresh is_recent fresh_remote new_attempt
    insert_attempt change_create create validate_evidence validate_result validate_test
    validate_nothing to_verified to_composed to_tested to_awaiting_approval is_at_base
    consume_approval check_approval validate_approval to_authorized validate_signature to_signed
    validate_staging to_staged check_remote validate_pre mark_verified validate_post guard_remote
    remotely_verified to_post_verified is_resumed is_own_intent advertised validate_publish
    guard_publish publish claim change_claim is_owner leased put_job is_over guard is_stale
guard_unique_example =
    guard_unique (at claimed_db) (codes "w") (codes "w") 1 1 false true 100 110 refl refl
