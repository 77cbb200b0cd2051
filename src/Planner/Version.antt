-- ===== src/Planner/Version.antt =====
-- `version_compare` of tools/v3_promotion_planner.py: RPM segment ordering.
mod Order
pub mod Loop
mod Tests
use ro_repo.Base.{
  ℕ, zero, suc, ◌+◌, ◌≡◌, Bool, true, false, ◌&&◌, ◌||◌, not, Option, none, some, List, [], ◌∷◌,
  ltb, ◌==◌, if◌then◌else◌, length, is_empty, take_while, drop_while,
}
use ro_repo.Base.Text.{Text, text_eq, text_lt, is_digit, is_alpha}

-- -1, 0 and 1
pub data Sign : Type 0 where
  less same more : Sign

unfoldable pub flip : Sign → Sign
flip less = more
flip same = same
flip more = less

-- One pass of the `while` body: it returns, or it goes on with what is left of both sides.
pub data Round : Type 0 where
  done : Sign → Round
  again : Text → Text → Round

unfoldable pub is_mark : ℕ → Bool
is_mark c = is_digit c || is_alpha c || (c == b'~') || (c == b'^')

-- `re.sub(r"^[^A-Za-z0-9~^]+", "", s)`
unfoldable pub strip : Text → Text
strip s = drop_while (λ c. not (is_mark c)) s

unfoldable pub starts : ℕ → Text → Bool
starts c [] = false
starts c (x ∷ xs) = x == c

unfoldable pub rest : Text → Text
rest [] = []
rest (x ∷ xs) = xs

unfoldable pub head_is_digit : Text → Bool
head_is_digit [] = false
head_is_digit (x ∷ xs) = is_digit x

-- Two segments that are both there; `l` and `r` are what follows them.
unfoldable pub compare_segments : Bool → Text → Text → Text → Text → Round
compare_segments numeric a b l r =
    let x = if numeric then drop_while (λ c. c == b'0') a else a in
    let y = if numeric then drop_while (λ c. c == b'0') b else b in
    if numeric && not (length x == length y)
    then done (if ltb (length y) (length x) then more else less)
    else if text_eq x y
    then again l r
    else done (if text_lt y x then more else less)

-- The class that the segment's pattern repeats: `[0-9]` or `[A-Za-z]`.
unfoldable pub wanted : Bool → ℕ → Bool
wanted true c = is_digit c
wanted false c = is_alpha c

unfoldable pub cut : Bool → Text → Text → Round
cut numeric l r =
    if is_empty (take_while (wanted numeric) r)
    then done (if numeric then more else less)
    else compare_segments numeric (take_while (wanted numeric) l) (take_while (wanted numeric) r)
        (drop_while (wanted numeric) l) (drop_while (wanted numeric) r)

unfoldable pub segments : Text → Text → Round
unfolding head_is_digit
segments l r = cut (head_is_digit l) l r

unfoldable pub marked : Text → Text → Round
unfolding starts rest
marked l r =
    if starts b'~' l || starts b'~' r
    then (if not (starts b'~' l)
        then done more
        else if not (starts b'~' r)
        then done less
        else again (rest l) (rest r))
    else if starts b'^' l || starts b'^' r
    then (if is_empty l
        then done less
        else if is_empty r
        then done more
        else if not (starts b'^' l)
        then done more
        else if not (starts b'^' r)
        then done less
        else again (rest l) (rest r))
    else if is_empty l || is_empty r
    then done (if is_empty l then (if is_empty r then same else less) else more)
    else segments l r

unfoldable pub round : Text → Text → Round
round left right = marked (strip left) (strip right)

-- The `while` loop with fuel; `none` means that the fuel ran out.
unfoldable pub version_loop : ℕ → Text → Text → Option Sign
version_loop zero left right = none
version_loop (suc fuel) left right = elim (is_empty left && is_empty right) [
  | true ↦ some same
  | false ↦ elim (round left right) [ done s ↦ some s | again l r ↦ version_loop fuel l r ]
]

-- Each pass shortens both sides, so this much fuel is enough (`version_loop-total`).
unfoldable pub version_compare : Text → Text → Sign
version_compare left right = elim (version_loop (suc (length left + length right)) left right) [
  | none ↦ same
  | some s ↦ s
]
