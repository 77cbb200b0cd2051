-- ===== src/Planner/Version/Order.antt =====
-- The order of versions: the loop ends, and swapping the sides flips the sign.
use ro_repo.Base.{
  ℕ, ◌+◌, ◌≤◌, ◌<◌, ◌≡◌, refl, Bool, true, false, not, [], ◌∷◌, arith, inl, inr, Bool-cases, ◌==◌,
  length, is_empty, take_while, drop_while, length-drop_while, drop_while-lt,
}
use ro_repo.Base.Text.{Text, is_digit, is_alpha, text_lt_trichotomy, text_eq_comm}
use ro_repo.Planner.Version.{
  flip, Round, done, again, is_mark, strip, compare_segments, segments, marked, round, cut, wanted,
}

-- What `strip` leaves is empty or begins with a mark.
abbrev StartsMark : Text → Type 0
StartsMark [] = Unit
StartsMark (x ∷ xs) = is_mark x ≡ true

strip-StartsMark : (s : Text) → StartsMark (strip s)
unfolding strip
strip-StartsMark [] = tt
strip-StartsMark (x ∷ xs) = elim (Bool-cases (is_mark x)) [
  | inl e ↦ rw (e) e
  | inr e ↦ rw (e) (strip-StartsMark xs)
]

length-strip : (s : Text) → length (strip s) ≤ length s
unfolding strip
length-strip s = length-drop_while (λ c. not (is_mark c)) s

unfoldable pub flip_round : Round → Round
flip_round (done s) = done (flip s)
flip_round (again l r) = again r l

compare_segments-flip :
    (n : Bool) (a b l r : Text)
    → compare_segments n a b l r ≡ flip_round (compare_segments n b a r l)
unfolding compare_segments flip_round flip
compare_segments-flip true a b l r = ground (
  arith,
  text_lt_trichotomy (drop_while (λ c. c == b'0') a) (drop_while (λ c. c == b'0') b),
  text_eq_comm (drop_while (λ c. c == b'0') a) (drop_while (λ c. c == b'0') b),
)
compare_segments-flip false a b l r = ground (arith, text_lt_trichotomy a b, text_eq_comm a b)

is_digit-of-not-alpha :
    (x : ℕ)
    → is_mark x ≡ true
    → (x == b'~') ≡ false
    → (x == b'^') ≡ false
    → is_digit x ≡ not (is_alpha x)
unfolding is_mark is_digit is_alpha
is_digit-of-not-alpha x m t c = ground arith

-- Two segments that begin with a letter or a digit.
segments-flip :
    (x y : ℕ) (xs ys : Text)
    → is_digit x ≡ not (is_alpha x)
    → is_digit y ≡ not (is_alpha y)
    → segments (x ∷ xs) (y ∷ ys) ≡ flip_round (segments (y ∷ ys) (x ∷ xs))
unfolding segments cut wanted flip_round flip
segments-flip x y xs ys hx hy = ground (
  arith,
  compare_segments-flip true (x ∷ take_while is_digit xs) (y ∷ take_while is_digit ys)
      (drop_while is_digit xs) (drop_while is_digit ys),
  compare_segments-flip false (x ∷ take_while is_alpha xs) (y ∷ take_while is_alpha ys)
      (drop_while is_alpha xs) (drop_while is_alpha ys),
)

marked-flip : (l r : Text) → StartsMark l → StartsMark r → marked l r ≡ flip_round (marked r l)
unfolding marked flip_round flip
marked-flip [] [] hl hr = refl
marked-flip [] (y ∷ ys) hl hr = ground arith
marked-flip (x ∷ xs) [] hl hr = ground arith
marked-flip (x ∷ xs) (y ∷ ys) hl hr =
    ground (arith, is_digit-of-not-alpha x hl, is_digit-of-not-alpha y hr, segments-flip x y xs ys)

pub round-flip : (left right : Text) → round left right ≡ flip_round (round right left)
unfolding round
round-flip left right =
    marked-flip (strip left) (strip right) (strip-StartsMark left) (strip-StartsMark right)

-- The two texts that a round goes on with are together shorter than `n`.
abbrev pub Shrinks : ℕ → Round → Type 0
Shrinks n (done s) = Unit
Shrinks n (again l r) = length l + length r < n

compare_segments-Shrinks :
    (b : Bool) (x y l r : Text) (n : ℕ)
    → length l + length r < n
    → Shrinks n (compare_segments b x y l r)
unfolding compare_segments
compare_segments-Shrinks b x y l r n h = ground arith

cut-Shrinks :
    (b : Bool) (x : ℕ) (xs r : Text)
    → wanted b x ≡ true
    → Shrinks (length (x ∷ xs) + length r) (cut b (x ∷ xs) r)
unfolding cut
cut-Shrinks b x xs r h = elim (Bool-cases (is_empty (take_while (wanted b) r))) [
  | inl e ↦ rw e tt
  | inr e ↦ rw e (
      compare_segments-Shrinks b (take_while (wanted b) (x ∷ xs)) (take_while (wanted b) r)
        (drop_while (wanted b) (x ∷ xs)) (drop_while (wanted b) r) (length (x ∷ xs) + length r)
        (omega (arith, drop_while-lt (wanted b) x xs h, length-drop_while (wanted b) r)))
]

segments-Shrinks :
    (x : ℕ) (xs r : Text)
    → is_digit x ≡ not (is_alpha x)
    → Shrinks (length (x ∷ xs) + length r) (segments (x ∷ xs) r)
unfolding segments
segments-Shrinks x xs r hx = elim (Bool-cases (is_digit x)) [
  | inl d ↦ rw d (cut-Shrinks true x xs r (unfold wanted in d))
  | inr a ↦ rw a (cut-Shrinks false x xs r (unfold wanted in ground arith))
]

marked-Shrinks : (l r : Text) → StartsMark l → Shrinks (length l + length r) (marked l r)
unfolding marked
marked-Shrinks [] [] h = tt
marked-Shrinks [] (y ∷ ys) h = ground arith
marked-Shrinks (x ∷ xs) [] h = ground arith
marked-Shrinks (x ∷ xs) (y ∷ ys) h =
    ground (arith, is_digit-of-not-alpha x h, segments-Shrinks x xs (y ∷ ys))

Shrinks-weaken : (m n : ℕ) (x : Round) → m ≤ n → Shrinks m x → Shrinks n x
Shrinks-weaken m n (done s) le h = tt
Shrinks-weaken m n (again l r) le h = omega arith

pub round-Shrinks : (left right : Text) → Shrinks (length left + length right) (round left right)
unfolding round
round-Shrinks left right =
    Shrinks-weaken _ _ _ (omega (arith, length-strip left, length-strip right))
      (marked-Shrinks (strip left) (strip right) (strip-StartsMark left))
