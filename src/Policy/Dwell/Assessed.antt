-- ===== src/Policy/Dwell/Assessed.antt =====
-- What an assessment of tools/v3_promotion_policy.py says about the history.
use ro_repo.Base.{
  ℕ, ◌+◌, ◌*◌, ◌≤◌, ◌≡◌, ◌↔◌, refl, true, false, Option, some, List, [], ok, arith, ◌⊎◌, inl, inr,
  Bool-cases, Option-cases, Result-cases, if◌then◌else◌,
}
use ro_repo.Base.Text.{Text, codes, text_eq, text_eq_iff}
use ro_repo.Base.Dict.{In}
use ro_repo.Policy.Dwell.{
  Calendar, time, Candidate, identity, Publication, Row, malformed, row, Seen, check_history, is_of,
  earliest, first_seen, Assessment, Reason, check_mode, is_fast, is_blank_reason, required_days,
  assess, evaluate,
}
use ro_repo.Policy.Dwell.History.{Says, check_history_sound, earliest-First}

-- A time up to the last one is read back when it is printed, and no later one is ever read.
pub record PrintsTimes (calendar : Calendar) : Type 0 where
  pub in_range : (value : Option Text) (t : ℕ) → time calendar value ≡ ok t → t ≤ calendar.latest
  pub reads : (t : ℕ) → t ≤ calendar.latest → time calendar (some (calendar.print t)) ≡ ok t

-- What an assessment says of the history and of the time
pub record Assessed (calendar : Calendar) (c : Candidate) (history : List Row)
    (risk_class mode : Text) (now : Option Text) (r : Reason) (a : Assessment) : Type 0 where
  pub of_candidate : identity c ≡ ok (a.promotion_group, a.candidate_sha256)
  pub moment : ℕ
  pub moment_read : time calendar now ≡ ok moment
  pub first : Publication
  pub first_listed : In (row first) history
  pub first_group : first.promotion_group ≡ some a.promotion_group
  pub first_digest : first.candidate_sha256 ≡ some a.candidate_sha256
  pub first_run : first.publication_run ≡ some a.first_publication_run
  pub start : ℕ
  pub start_read : time calendar first.published_at ≡ ok start
  pub start_printed : a.first_published_at ≡ calendar.print start
  pub start_past : start ≤ moment
  pub oldest :
      (p : Publication) (t : ℕ)
      → In (row p) history
      → p.promotion_group ≡ some a.promotion_group
      → p.candidate_sha256 ≡ some a.candidate_sha256
      → time calendar p.published_at ≡ ok t
      → start ≤ t
  pub met : (a.dwell_met ≡ true) ↔ (
      start + (if text_eq risk_class (codes "critical-system") then 14 else 7) * 86400000000
      ≤ moment)
  pub ready : (a.ready_for_review ≡ true) ↔ ((a.dwell_met ≡ true) ⊎ (is_fast mode ≡ true))
  pub reasoned : is_fast mode ≡ true → is_blank_reason r ≡ false
  pub unapproved : a.approval_granted ≡ false
  pub unpublishable : a.publishable ≡ false

record Oldest (calendar : Calendar) (history : List Row) (moment : ℕ) (group digest : Text)
    (f : Seen) : Type 0 where
  row_of : Publication
  listed : In (row row_of) history
  says : Says calendar (row row_of) f
  past : f.at ≤ moment
  named : is_of group digest f ≡ true
  oldest :
      (p : Publication) (t : ℕ)
      → In (row p) history
      → p.promotion_group ≡ some group
      → p.candidate_sha256 ≡ some digest
      → time calendar p.published_at ≡ ok t
      → f.at ≤ t

row_sound :
    (calendar : Calendar) (r : Row) (s : Seen)
    → Says calendar r s
    → (p : Publication) × (r ≡ row p) × (Says calendar (row p) s)
row_sound calendar malformed s h = absurd h
row_sound calendar (row p) s h = (p, refl, h)

earliest-Oldest :
    (calendar : Calendar) (history : List Row) (moment : ℕ) (group digest : Text) (seen : List Seen)
    (f : Seen)
    → check_history calendar moment [] history ≡ ok seen
    → earliest group digest seen ≡ some f
    → Oldest calendar history moment group digest f
earliest-Oldest calendar history moment group digest seen f h k =
    let (back, forth) = check_history_sound calendar moment [] history seen h in
    let first = earliest-First group digest seen f k in
    let ((r, at, says), past) = back f first.listed in
    let (p, is, said) = row_sound calendar r f says in
    record {
      row_of = p;
      listed = rw (← is) at;
      says = said;
      past = past;
      named = first.of_identity;
      oldest = λ q t m g d e.
          let (s, at_s, (run, group_s, digest_s, time_s)) = forth (row q) m in
          let same : s.at ≡ t = ground arith in
          let named : is_of group digest s ≡ true =
            ground (arith, text_eq_iff s.group group, text_eq_iff s.digest digest) in
          rw (← same) (first.least s at_s named);
    }

check_mode-reason :
    (risk_class mode : Text) (r : Reason)
    → check_mode risk_class mode r ≡ ok tt
    → is_fast mode ≡ true
    → is_blank_reason r ≡ false
unfolding check_mode
check_mode-reason risk_class mode r h f = elim (Bool-cases (is_blank_reason r)) [
  | inl b ↦ ground arith
  | inr b ↦ b
]

-- If no time is read past the last one and one up to it is read back from its print, an assessment names the oldest publication of exactly its
-- candidate in the history; it calls the dwell met exactly when 14 days for `critical-system`, 7 for the others, have passed since
-- then, is ready for review exactly when that is so or the fast track was asked for, which has a
-- reason, and is never an approval.
pub evaluate-Assessed :
    (calendar : Calendar)
    → PrintsTimes calendar
    → (c : Candidate) (history : List Row) (risk_class mode : Text) (now : Option Text) (r : Reason)
      (a : Assessment)
    → evaluate calendar c history risk_class mode now r ≡ ok a
    → Assessed calendar c history risk_class mode now r a
unfolding required_days evaluate first_seen assess
evaluate-Assessed calendar prints c history risk_class mode now r a h =
    elim (Result-cases (identity c)) [
      | inl (e, q) ↦ ground arith
      | inr ((group, digest), q) ↦ elim (Result-cases (check_mode risk_class mode r)) [
        | inl (e, t) ↦ ground arith
        | inr (tt, t) ↦ elim (Result-cases (time calendar now)) [
          | inl (e, u) ↦ ground arith
          | inr (moment, u) ↦ elim (Result-cases (check_history calendar moment [] history)) [
            | inl (e, v) ↦ ground arith
            | inr (seen, v) ↦ elim (Option-cases (earliest group digest seen)) [
              | inl x ↦ ground arith
              | inr (f, x) ↦
                  let k = earliest-Oldest calendar history moment group digest seen f v x in
                  let (run, in_group, of_digest, at) = k.says in
                  let back = prints.reads f.at (prints.in_range k.row_of.published_at f.at at) in
                  let n : Assessment =
                    assess calendar (group, digest) risk_class mode r (calendar.print f.at, f.run)
                      f.at moment in
                  let is : n ≡ a = ground arith in
                  rw (← is) (record {
                    of_candidate = q;
                    moment = moment;
                    moment_read = u;
                    first = k.row_of;
                    first_listed = k.listed;
                    first_group = ground (arith, k.named, text_eq_iff f.group group);
                    first_digest = ground (arith, k.named, text_eq_iff f.digest digest);
                    first_run = run;
                    start = f.at;
                    start_read = at;
                    start_printed = refl;
                    start_past = k.past;
                    oldest = k.oldest;
                    met = ground arith;
                    ready = ground arith;
                    reasoned = check_mode-reason risk_class mode r t;
                    unapproved = refl;
                    unpublishable = refl;
                  })
            ]
          ]
        ]
      ]
    ]
