-- ===== src/Policy/Dwell/Total.antt =====
-- When an assessment of tools/v3_promotion_policy.py is reached.
use ro_repo.Base.{
  ℕ, ◌+◌, ◌*◌, ltb, ◌≤◌, ◌≡◌, refl, true, false, Option, some, List, [], ◌∷◌, ok, arith, inl, inr,
  Option-cases, is_empty,
}
use ro_repo.Base.Text.{Text, text_eq_iff, has_text}
use ro_repo.Base.Dict.{In}
use ro_repo.Policy.Dwell.{
  Calendar, time, Candidate, identity, Publication, Row, malformed, row, Seen, check_row,
  check_history, is_of, earliest, first_seen, Assessment, Reason, check_mode, is_run, is_sha,
  assess, evaluate, required_days, day,
}
use ro_repo.Policy.Dwell.Assessed.{PrintsTimes}
use ro_repo.Policy.Dwell.History.{Says, check_history_sound, earliest-none, earliest-First}

-- A history whose rows have valid fields and times that have passed, and no run twice
abbrev pub IsValid : Calendar → ℕ → List Text → List Row → Type 0
IsValid calendar moment runs [] = Unit
IsValid calendar moment runs (r ∷ rows) =
    (s : Seen) × (Says calendar r s)
    × (is_run s.run ≡ true)
    × (has_text s.run runs ≡ false)
    × (is_empty s.group ≡ false)
    × (is_sha s.digest ≡ true)
    × (s.at ≤ moment)
    × IsValid calendar moment (s.run ∷ runs) rows

check_row-total :
    (calendar : Calendar) (moment : ℕ) (runs : List Text) (r : Row) (s : Seen)
    → Says calendar r s
    → is_run s.run ≡ true
    → has_text s.run runs ≡ false
    → is_empty s.group ≡ false
    → is_sha s.digest ≡ true
    → s.at ≤ moment
    → check_row calendar moment runs r ≡ ok s
unfolding check_row
check_row-total calendar moment runs malformed s said a b c d l = absurd said
check_row-total calendar moment runs (row p) s (x, y, z, t) a b c d l =
    rw (x, y, z, t, a, b, c, d) (ground arith)

check_history-total :
    (calendar : Calendar) (moment : ℕ) (runs : List Text) (rows : List Row)
    → IsValid calendar moment runs rows
    → (seen : List Seen) × (check_history calendar moment runs rows ≡ ok seen)
unfolding check_history
check_history-total calendar moment runs [] v = ([], refl)
check_history-total calendar moment runs (r ∷ rows) (s, said, a, b, c, d, l, v) =
    let (seen, q) = check_history-total calendar moment (s.run ∷ runs) rows v in
    (s ∷ seen, rw (check_row-total calendar moment runs r s said a b c d l, q) refl)

earliest-total :
    (group digest : Text) (seen : List Seen) (s : Seen)
    → In s seen
    → is_of group digest s ≡ true
    → (f : Seen) × (earliest group digest seen ≡ some f)
earliest-total group digest seen s m h = elim (Option-cases (earliest group digest seen)) [
  | inl q ↦ let no = earliest-none group digest seen s q m in ground arith
  | inr found ↦ found
]

-- If no time is read past the last one and one up to it is read back from its print then, of a candidate with an identity, in a mode that is asked for
-- as it must be, at a time that is read, the assessment is reached whenever the history is valid up
-- to that time and has a publication of that identity, and the required days after that time are
-- not past the last one.
pub evaluate-total :
    (calendar : Calendar)
    → PrintsTimes calendar
    → (c : Candidate) (group digest : Text) (history : List Row) (p : Publication)
      (risk_class mode : Text) (now : Option Text) (moment : ℕ) (r : Reason)
    → identity c ≡ ok (group, digest)
    → check_mode risk_class mode r ≡ ok tt
    → time calendar now ≡ ok moment
    → moment + required_days risk_class * day ≤ calendar.latest
    → IsValid calendar moment [] history
    → In (row p) history
    → p.promotion_group ≡ some group
    → p.candidate_sha256 ≡ some digest
    → (a : Assessment) × (evaluate calendar c history risk_class mode now r ≡ ok a)
unfolding evaluate first_seen
evaluate-total calendar prints c group digest history p risk_class mode now moment r q t u l v m g
      d =
    let (seen, w) = check_history-total calendar moment [] history v in
    let (back, forth) = check_history_sound calendar moment [] history seen w in
    let (s, at, (run, group_s, digest_s, time_s)) = forth (row p) m in
    let named : is_of group digest s ≡ true =
      ground (arith, text_eq_iff s.group group, text_eq_iff s.digest digest) in
    let (f, x) = earliest-total group digest seen s at named in
    let listed = (earliest-First group digest seen f x).listed in
    let ((o, o_at, says), past) = back f listed in
    let readable : f.at ≤ calendar.latest = omega (arith, l, past) in
    let fits : ltb calendar.latest (f.at + required_days risk_class * day) ≡ false =
      ground (arith, l, past) in
    let some_row : is_empty history ≡ false = In-is_empty history m in
    (
      assess calendar (group, digest) risk_class mode r (calendar.print f.at, f.run) f.at moment,
      rw (q, t, u, some_row, w, x, prints.reads f.at readable, fits) refl,
    )
  where
    In-is_empty : (rows : List Row) → In (row p) rows → is_empty rows ≡ false
    In-is_empty [] n = absurd n
    In-is_empty (y ∷ ys) n = refl
