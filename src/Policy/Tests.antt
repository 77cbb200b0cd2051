-- ===== src/Policy/Tests.antt =====
-- A candidate that stood on beta for fourteen days, as the theorems on the policy take it.
use native.Mathlib.Decide.{ℕ_discrete}
use ro_repo.Base.{
  ℕ, ◌+◌, ◌-◌, ◌≤◌, leb, if◌then◌else◌, Option-cases, ◌≡◌, refl, true, Option, none, some, List, [],
  ◌∷◌, ok, arith, inl, inr,
}
use ro_repo.Base.Text.{Text, codes, is_digit}
use ro_repo.Policy.Dwell.{
  Moment, Calendar, offset_for_z, time, is_sha, is_run, candidate, identity, Publication, Row, row,
  Seen, check_row, check_history, earliest, first_seen, Assessment, no_reason, check_mode,
  required_days, assess, evaluate,
}
use ro_repo.Policy.Dwell.Assessed.{PrintsTimes, Assessed, evaluate-Assessed}
use ro_repo.Policy.Dwell.Total.{IsValid, evaluate-total}

abbrev last_time : ℕ
last_time = 9000000000000

abbrev read_code : Text → Option Moment
read_code [] = none
read_code (c ∷ cs) =
    if leb (c - 1000) last_time then some (record { micros = c - 1000; is_utc = true }) else none

-- A calendar that writes a time as one character
abbrev calendar : Calendar
calendar = record { read = read_code; print = λ t. (t + 1000) ∷ codes "Z"; latest = last_time }

calendar-in_range : (value : Option Text) (t : ℕ) → time calendar value ≡ ok t → t ≤ last_time
unfolding time
calendar-in_range none t h = ground arith
calendar-in_range (some v) t h = elim (Option-cases (read_code (offset_for_z v))) [
  | inl q ↦ ground arith
  | inr (m, q) ↦ let is : m.micros ≡ t = ground arith in rw (← is) (bound (offset_for_z v) m q)
]
  where
    bound : (cs : Text) (m : Moment) → read_code cs ≡ some m → m.micros ≤ last_time
    bound [] m q = ground arith
    bound (c ∷ cs) m q = ground arith

calendar-PrintsTimes : PrintsTimes calendar
unfolding time offset_for_z
calendar-PrintsTimes = record {
  in_range = λ value t h. calendar-in_range value t h;
  reads = λ t l. ground arith;
}

abbrev digest : Text
digest = codes "0123456789abcdef0123456789abcdef0123456789abcdef0123456789abcdef"

abbrev entry_of : Text → ℕ → Row
entry_of run t = row (record {
  publication_run = some run;
  published_at = some ((t + 1000) ∷ codes "Z");
  promotion_group = some (codes "g");
  candidate_sha256 = some digest;
})

abbrev history : List Row
history = entry_of (codes "8") 9 ∷ entry_of (codes "7") 5 ∷ []

abbrev now : Option Text
now = some (1209600001005 ∷ codes "Z")

abbrev system : Text
system = codes "critical-system"

abbrev normal : Text
normal = codes "normal"

abbrev assessment : Assessment
assessment =
    assess calendar (codes "g", digest) system normal no_reason (calendar.print 5, codes "7") 5
      1209600000005

evaluate-Assessed_example :
    Assessed calendar
      (candidate (some (codes "g")) (some digest))
      history
      system
      normal
      now
      no_reason
      assessment
unfolding ℕ_discrete is_digit offset_for_z time is_sha is_run identity check_row check_history
    earliest first_seen check_mode required_days assess evaluate
evaluate-Assessed_example =
    evaluate-Assessed calendar calendar-PrintsTimes (candidate (some (codes "g")) (some digest))
      history system normal now no_reason assessment refl

abbrev oldest : Publication
oldest = record {
  publication_run = some (codes "7");
  published_at = some (1005 ∷ codes "Z");
  promotion_group = some (codes "g");
  candidate_sha256 = some digest;
}

abbrev seen : Text → ℕ → Seen
seen run at = record { at = at; run = run; group = codes "g"; digest = digest }

history-IsValid : IsValid calendar 1209600000005 [] history
unfolding ℕ_discrete is_digit offset_for_z time is_sha is_run identity check_row check_history
    earliest first_seen check_mode required_days assess evaluate
history-IsValid = (
  seen (codes "8") 9,
  (refl, refl, refl, refl),
  refl,
  refl,
  refl,
  refl,
  omega arith,
  (seen (codes "7") 5, (refl, refl, refl, refl), refl, refl, refl, refl, omega arith, tt),
)

evaluate-total_example :
    (a : Assessment) × (evaluate calendar
        (candidate (some (codes "g")) (some digest))
        history
        system
        normal
        now
        no_reason
      ≡ ok a)
unfolding ℕ_discrete is_digit offset_for_z time is_sha is_run identity check_row check_history
    earliest first_seen check_mode required_days assess evaluate
evaluate-total_example =
    evaluate-total calendar calendar-PrintsTimes (candidate (some (codes "g")) (some digest))
      (codes "g") digest history oldest system normal now 1209600000005 no_reason refl refl refl
      (omega arith) history-IsValid (inr (inl refl)) refl refl
