-- ===== src/Policy/Dwell.antt =====
-- tools/v3_promotion_policy.py: how long a candidate has stood on beta, and what may be reviewed.
pub mod History
pub mod Assessed
pub mod Total
use ro_repo.Base.{
  ℕ, ◌+◌, ◌*◌, Bool, true, false, Option, none, some, List, [], ◌∷◌, ◌++◌, Result, ok, err, ◌>>=◌,
  ◌>>◌, raise_if, or_raise, not, all, ltb, leb, ◌==◌, ◌&&◌, ◌||◌, if◌then◌else◌, is_empty, length,
}
use ro_repo.Base.Text.{
  Text, codes, text_eq, text_lt, has_text, ends_with, is_digit, is_blank, strip,
}

-- A Python `datetime`: microseconds since a first one, and whether its offset is that of UTC
pub record Moment : Type 0 where
  pub micros : ℕ
  pub is_utc : Bool

-- `datetime.fromisoformat`, `isoformat` of a UTC time with its `+00:00` as `Z`, and `datetime.max`
pub record Calendar : Type 0 where
  pub read : Text → Option Moment
  pub print : ℕ → Text
  pub latest : ℕ

-- `value.replace("Z", "+00:00")`
unfoldable pub offset_for_z : Text → Text
offset_for_z [] = []
offset_for_z (c ∷ cs) =
    let rest = offset_for_z cs in if c == b'Z' then codes "+00:00" ++ rest else c ∷ rest

-- `_time`, of what may be no text
unfoldable pub time : Calendar → Option Text → Result ℕ
time calendar none = err "timestamps must be canonical UTC Z"
time calendar (some value) = do
  raise_if (not (ends_with (codes "Z") value)) "timestamps must be canonical UTC Z"
  parsed ← or_raise (calendar.read (offset_for_z value)) "invalid UTC timestamp"
  raise_if (not parsed.is_utc) "non-UTC timestamp"
  ok parsed.micros

-- `SHA` and `RUN`
unfoldable pub is_sha : Text → Bool
is_sha t = (length t == 64) && all (λ (c : ℕ). is_digit c || (leb b'a' c && leb c b'f')) t

unfoldable pub is_run : Text → Bool
is_run [] = false
is_run (c ∷ cs) = leb b'1' c && leb c b'9' && all is_digit cs

-- A candidate; a field that is no text is absent.
pub data Candidate : Type 0 where
  no_dict : Candidate
  candidate : Option Text → Option Text → Candidate

-- `_identity`: the group and the digest; a digest of another type is a `TypeError`.
unfoldable pub identity : Candidate → Result (Text × Text)
identity no_dict = err "invalid candidate digest"
identity (candidate group none) = err "TypeError"
identity (candidate none (some digest)) = do
  raise_if (not (is_sha digest)) "invalid candidate digest"
  err "missing promotion group"
identity (candidate (some group) (some digest)) = do
  raise_if (not (is_sha digest)) "invalid candidate digest"
  raise_if (is_empty group) "missing promotion group"
  ok (group, digest)

-- An entry of the beta history; a field that is no text is absent.
pub record Publication : Type 0 where
  pub publication_run : Option Text
  pub published_at : Option Text
  pub promotion_group : Option Text
  pub candidate_sha256 : Option Text

pub data Row : Type 0 where
  malformed : Row
  row : Publication → Row

-- A row of the history that passed its checks
pub record Seen : Type 0 where
  pub at : ℕ
  pub run : Text
  pub group : Text
  pub digest : Text

-- The checks of one row, after the runs that were seen before
unfoldable pub check_row : Calendar → ℕ → List Text → Row → Result Seen
check_row calendar moment runs malformed = err "malformed beta history entry"
check_row calendar moment runs (row r) = do
  run ← or_raise r.publication_run "duplicate or invalid publication run"
  raise_if (not (is_run run) || has_text run runs) "duplicate or invalid publication run"
  group ← or_raise r.promotion_group "invalid publication identity"
  raise_if (is_empty group) "invalid publication identity"
  digest ← or_raise r.candidate_sha256 "invalid publication identity"
  raise_if (not (is_sha digest)) "invalid publication identity"
  t ← time calendar r.published_at
  raise_if (ltb moment t) "future-dated beta history"
  ok (record { at = t; run = run; group = group; digest = digest })

-- The loop over the history: all its rows
unfoldable pub check_history : Calendar → ℕ → List Text → List Row → Result (List Seen)
check_history calendar moment runs [] = ok []
check_history calendar moment runs (r ∷ rows) = do
  first ← check_row calendar moment runs r
  rest ← check_history calendar moment (first.run ∷ runs) rows
  ok (first ∷ rest)

abbrev pub is_of : Text → Text → Seen → Bool
is_of group digest s = text_eq s.group group && text_eq s.digest digest

-- `min` of the times with their runs
abbrev pub precedes : Seen → Seen → Bool
precedes a b = ltb a.at b.at || ((a.at == b.at) && text_lt a.run b.run)

unfoldable pub earliest : Text → Text → List Seen → Option Seen
earliest group digest [] = none
earliest group digest (s ∷ rest) =
    let later = earliest group digest rest in
    if is_of group digest s
    then elim later [ none ↦ some s | some l ↦ if precedes l s then some l else some s ]
    else later

-- `first_seen`: the printed time and the run of the first publication
unfoldable pub first_seen : Calendar → Candidate → List Row → Option Text → Result (Text × Text)
first_seen calendar c history now = do
  (group, digest) ← identity c
  moment ← time calendar now
  raise_if (is_empty history) "missing beta history"
  seen ← check_history calendar moment [] history
  first ← or_raise (earliest group digest seen) "candidate has no beta publication evidence"
  ok (calendar.print first.at, first.run)

-- What is assessed
pub record Assessment : Type 0 where
  pub promotion_group : Text
  pub candidate_sha256 : Text
  pub risk_class : Text
  pub mode : Text
  pub reason : Option Text
  pub first_published_at : Text
  pub first_publication_run : Text
  pub minimum_beta_days : ℕ
  pub earliest_normal_promotion : Text
  pub dwell_met : Bool
  pub dwell_exception_requested : Bool
  pub ready_for_review : Bool
  pub approval_granted : Bool
  pub test_evidence_verified : Bool
  pub signature_verified : Bool
  pub publishable : Bool

-- The argument `reason`
pub data Reason : Type 0 where
  no_reason no_text : Reason
  reason : Text → Reason

abbrev pub is_no_text : Reason → Bool
is_no_text no_text = true
is_no_text _ = false

-- `not reason or not reason.strip()`
abbrev pub is_blank_reason : Reason → Bool
is_blank_reason (reason t) = is_blank t
is_blank_reason _ = true

abbrev pub has_reason : Reason → Bool
has_reason no_reason = false
has_reason _ = true

abbrev pub stripped : Reason → Option Text
stripped (reason t) = some (strip t)
stripped _ = none

abbrev pub is_fast : Text → Bool
is_fast mode = text_eq mode (codes "fast-track")

unfoldable pub check_mode : Text → Text → Reason → Result (Unit {0})
check_mode risk_class mode r = do
  raise_if
      (not (
        has_text risk_class
          (codes "normal-app" ∷ codes "critical-desktop" ∷ codes "critical-system" ∷ [])))
      "unsupported risk class"
  raise_if (not (has_text mode (codes "normal" ∷ codes "fast-track" ∷ [])))
      "unsupported promotion mode"
  raise_if (is_no_text r) "invalid reason"
  raise_if (is_fast mode && is_blank_reason r) "fast-track requires a non-empty reason"
  raise_if (text_eq mode (codes "normal") && has_reason r)
      "normal promotion cannot request an override reason"

abbrev pub day : ℕ
day = 86400000000

unfoldable pub required_days : Text → ℕ
required_days risk_class = if text_eq risk_class (codes "critical-system") then 14 else 7

-- The dictionary that `evaluate` returns
unfoldable pub assess :
    Calendar → Text × Text → Text → Text → Reason → Text × Text → ℕ → ℕ → Assessment
assess calendar (group, digest) risk_class mode r (first_at, first_run) start current =
    let required = required_days risk_class in
    let dwell_met = leb (start + required * day) current in
    record {
      promotion_group = group;
      candidate_sha256 = digest;
      risk_class = risk_class;
      mode = mode;
      reason = if is_fast mode then stripped r else none;
      first_published_at = first_at;
      first_publication_run = first_run;
      minimum_beta_days = required;
      earliest_normal_promotion = calendar.print (start + required * day);
      dwell_met = dwell_met;
      dwell_exception_requested = is_fast mode && not dwell_met;
      ready_for_review = dwell_met || is_fast mode;
      approval_granted = false;
      test_evidence_verified = false;
      signature_verified = false;
      publishable = false;
    }

-- `evaluate`; the printed time is read again, and the sum of times is at most `datetime.max`.
unfoldable pub evaluate :
    Calendar → Candidate → List Row → Text → Text → Option Text → Reason → Result Assessment
evaluate calendar c history risk_class mode now r = do
  who ← identity c
  check_mode risk_class mode r
  (first_at, first_run) ← first_seen calendar c history now
  start ← time calendar (some first_at)
  current ← time calendar now
  raise_if (ltb calendar.latest (start + required_days risk_class * day)) "OverflowError"
  ok (assess calendar who risk_class mode r (first_at, first_run) start current)
