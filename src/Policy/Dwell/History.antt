-- ===== src/Policy/Dwell/History.antt =====
-- The history of tools/v3_promotion_policy.py once it is checked, and its first publication.
use ro_repo.Base.{
  ℕ, ◌≤◌, ◌≡◌, refl, true, false, none, some, List, [], ◌∷◌, ok, arith, inl, inr, Bool-cases,
  Option-cases, Result-cases,
}
use ro_repo.Base.Text.{Text}
use ro_repo.Base.Dict.{In}
use ro_repo.Policy.Dwell.{
  Calendar, time, Row, malformed, row, Seen, check_row, check_history, is_of, precedes, earliest,
}

-- What a row of the history says, once it is checked
abbrev pub Says : Calendar → Row → Seen → Type 0
Says calendar malformed s = ⊥
Says calendar (row p) s =
    (p.publication_run ≡ some s.run)
    × (p.promotion_group ≡ some s.group)
    × (p.candidate_sha256 ≡ some s.digest)
    × (time calendar p.published_at ≡ ok s.at)

check_row_sound :
    (calendar : Calendar) (moment : ℕ) (runs : List Text) (r : Row) (s : Seen)
    → check_row calendar moment runs r ≡ ok s
    → (s.at ≤ moment) × (Says calendar r s)
unfolding check_row
check_row_sound calendar moment runs malformed s h = ground arith
check_row_sound calendar moment runs (row p) s h = elim (Option-cases p.publication_run) [
  | inl q ↦ ground arith
  | inr (run, q) ↦ elim (Option-cases p.promotion_group) [
    | inl t ↦ ground arith
    | inr (group, t) ↦ elim (Option-cases p.candidate_sha256) [
      | inl u ↦ ground arith
      | inr (digest, u) ↦ elim (Result-cases (time calendar p.published_at)) [
        | inl (e, v) ↦ ground arith
        | inr (at, v) ↦
            let n : Seen = record { at = at; run = run; group = group; digest = digest } in
            let is : n ≡ s = ground arith in rw (← is) (ground arith, (q, t, u, v))
      ]
    ]
  ]
]

-- Every row that is checked is a row of the history, and the other way round.
pub check_history_sound :
    (calendar : Calendar) (moment : ℕ) (runs : List Text) (rows : List Row) (seen : List Seen)
    → check_history calendar moment runs rows ≡ ok seen
    → ((s : Seen) → In s seen → ((r : Row) × In r rows × (Says calendar r s)) × (s.at ≤ moment))
      × ((r : Row) → In r rows → (s : Seen) × In s seen × (Says calendar r s))
unfolding check_history
check_history_sound calendar moment runs [] seen h =
    let is : [] ≡ seen = ground arith in rw (← is) (λ s m. absurd m, λ r m. absurd m)
check_history_sound calendar moment runs (r ∷ rows) seen h =
    elim (Result-cases (check_row calendar moment runs r)) [
      | inl (e, q) ↦ ground arith
      | inr (first, q) ↦
          elim (Result-cases (check_history calendar moment (first.run ∷ runs) rows)) [
            | inl (e, t) ↦ ground arith
            | inr (rest, t) ↦
                let is : first ∷ rest ≡ seen = ground arith in
                let (past, here) = check_row_sound calendar moment runs r first q in
                let (back, forth) =
                  check_history_sound calendar moment (first.run ∷ runs) rows rest t in
                rw (← is) (
                  λ s m. elim m [
                    | inl e ↦ rw e ((r, inl refl, here), past)
                    | inr n ↦ let ((x, at, d), l) = back s n in ((x, inr at, d), l)
                  ],
                  λ x m. elim m [
                    | inl e ↦ rw e (first, inl refl, here)
                    | inr n ↦ let (s, at, d) = forth x n in (s, inr at, d)
                  ],
                )
          ]
    ]

pub earliest-none :
    (group digest : Text) (seen : List Seen) (x : Seen)
    → earliest group digest seen ≡ none
    → In x seen
    → is_of group digest x ≡ false
unfolding earliest
earliest-none group digest [] x h m = absurd m
earliest-none group digest (s ∷ rest) x h m = elim (Option-cases (earliest group digest rest)) [
  | inr (l, q) ↦ ground arith
  | inl q ↦ elim m [ inl e ↦ rw e (ground arith) | inr n ↦ earliest-none group digest rest x q n ]
]

-- The first of an identity
pub record First (group digest : Text) (seen : List Seen) (f : Seen) : Type 0 where
  pub listed : In f seen
  pub of_identity : is_of group digest f ≡ true
  pub least : (s : Seen) → In s seen → is_of group digest s ≡ true → f.at ≤ s.at

pub earliest-First :
    (group digest : Text) (seen : List Seen) (f : Seen)
    → earliest group digest seen ≡ some f
    → First group digest seen f
unfolding earliest
earliest-First group digest [] f h = ground arith
earliest-First group digest (s ∷ rest) f h = elim (Bool-cases (is_of group digest s)) [
  | inr b ↦
      let k = earliest-First group digest rest f (ground arith) in
      record {
        listed = inr k.listed;
        of_identity = k.of_identity;
        least = λ x n o. elim n [
          | inl e ↦ let no : is_of group digest x ≡ false = rw e b in ground arith
          | inr m ↦ k.least x m o
        ];
      }
  | inl b ↦ elim (Option-cases (earliest group digest rest)) [
    | inl q ↦
        let is : s ≡ f = ground arith in
        rw (← is) (record {
          listed = inl refl;
          of_identity = b;
          least = λ x n o. elim n [
            | inl e ↦ rw e (omega arith)
            | inr m ↦ let no = earliest-none group digest rest x q m in ground arith
          ];
        })
    | inr (l, q) ↦
        let k = earliest-First group digest rest l q in
        elim (Bool-cases (precedes l s)) [
          | inl c ↦
              let is : l ≡ f = ground arith in
              let le : l.at ≤ s.at = ground arith in
              rw (← is) (record {
                listed = inr k.listed;
                of_identity = k.of_identity;
                least = λ x n o. elim n [ inl e ↦ rw e le | inr m ↦ k.least x m o ];
              })
          | inr c ↦
              let is : s ≡ f = ground arith in
              let le : s.at ≤ l.at = ground arith in
              rw (← is) (record {
                listed = inl refl;
                of_identity = b;
                least = λ x n o. elim n [
                  | inl e ↦ rw e (omega arith)
                  | inr m ↦ omega (arith, k.least x m o, le)
                ];
              })
        ]
  ]
]
