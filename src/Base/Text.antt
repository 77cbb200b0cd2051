-- ===== src/Base/Text.antt =====
-- Python's `str` as the list of its code points, and the character classes of the patterns.
use Prim.Native.Char.{code}
use Prim.Native.Nat.{ℕ}
use Prim.Native.String.{String}
use mathlib.Core.Path.{◌≡◌, refl, ap}
use mathlib.Core.Logic.{◌↔◌, ◌≢◌, inl, inr}
use mathlib.Core.Bool.{Bool, true, false, ◌&&◌, ◌||◌}
use mathlib.Core.List.{List, [], ◌∷◌, ◌++◌}
use mathlib.Core.Option.{Option, none, some}
use native.Mathlib.Omega.{arith}
use ro_repo.Base.Lists.{all}
use ro_repo.Base.Tests.{leb, ltb, ◌==◌, if◌then◌else◌, Bool-cases}

abbrev pub Text : Type 0
Text = List ℕ

-- The code points of a literal.
abbrev pub codes : String → Text
codes String.[] = []
codes (String.◌∷◌ c s) = code c ∷ codes s

abbrev pub text_eq : Text → Text → Bool
text_eq [] [] = true
text_eq [] (y ∷ ys) = false
text_eq (x ∷ xs) [] = false
text_eq (x ∷ xs) (y ∷ ys) = (x == y) && text_eq xs ys

-- Python's `<` on `str` goes by code points.
abbrev pub text_lt : Text → Text → Bool
text_lt [] [] = false
text_lt [] (y ∷ ys) = true
text_lt (x ∷ xs) [] = false
text_lt (x ∷ xs) (y ∷ ys) = ltb x y || ((x == y) && text_lt xs ys)

pub text_eq_sound : (s t : Text) → text_eq s t ≡ true → s ≡ t
text_eq_sound [] [] h = refl
text_eq_sound [] (y ∷ ys) h = ground arith
text_eq_sound (x ∷ xs) [] h = ground arith
text_eq_sound (x ∷ xs) (y ∷ ys) h = ground (arith, text_eq_sound xs ys)

pub text_eq_refl : (s : Text) → text_eq s s ≡ true
text_eq_refl [] = refl
text_eq_refl (x ∷ xs) = ground (arith, text_eq_refl xs)

pub text_eq_iff : (s t : Text) → (text_eq s t ≡ true) ↔ (s ≡ t)
text_eq_iff s t = (text_eq_sound s t, λ e. rw e (text_eq_refl t))

unfoldable pub is_digit : ℕ → Bool
is_digit c = leb b'0' c && leb c b'9'

unfoldable pub is_alpha : ℕ → Bool
is_alpha c = (leb b'A' c && leb c b'Z') || (leb b'a' c && leb c b'z')

pub text_eq_comm : (s t : Text) → text_eq s t ≡ text_eq t s
text_eq_comm [] [] = refl
text_eq_comm [] (y ∷ ys) = refl
text_eq_comm (x ∷ xs) [] = refl
text_eq_comm (x ∷ xs) (y ∷ ys) = ground (arith, text_eq_comm xs ys)

-- Two different texts are ordered one way, and only one.
pub text_lt_trichotomy : (s t : Text) → text_eq s t ≡ false → text_lt s t ≢ text_lt t s
text_lt_trichotomy [] [] h = ground arith
text_lt_trichotomy [] (y ∷ ys) h = ground arith
text_lt_trichotomy (x ∷ xs) [] h = ground arith
text_lt_trichotomy (x ∷ xs) (y ∷ ys) h = ground (arith, text_lt_trichotomy xs ys)

-- `c in s`
abbrev pub has_char : ℕ → Text → Bool
has_char c [] = false
has_char c (x ∷ xs) = (x == c) || has_char c xs

-- `s in ts`
abbrev pub has_text : Text → List Text → Bool
has_text s [] = false
has_text s (t ∷ ts) = text_eq s t || has_text s ts

-- `s.endswith(suffix)`
abbrev pub ends_with : Text → Text → Bool
ends_with suffix [] = text_eq suffix []
ends_with suffix (x ∷ xs) = text_eq suffix (x ∷ xs) || ends_with suffix xs

-- `s.rsplit(c, 1)` where it has two parts: the text is cut at the last `c`.
abbrev pub cut_before : ℕ → ℕ → Text → Option (Text × Text) → Option (Text × Text)
cut_before c x xs (some (a, b)) = some (x ∷ a, b)
cut_before c x xs none = if x == c then some ([], xs) else none

unfoldable pub rsplit : ℕ → Text → Option (Text × Text)
rsplit c [] = none
rsplit c (x ∷ xs) = cut_before c x xs (rsplit c xs)

cut_before_sound :
    (c x : ℕ) (xs : Text) (r : Option (Text × Text)) (a b : Text)
    → ((p q : Text) → r ≡ some (p, q) → xs ≡ p ++ c ∷ q)
    → cut_before c x xs r ≡ some (a, b)
    → x ∷ xs ≡ a ++ c ∷ b
cut_before_sound c x xs (some (p, q)) a b ih h =
    let e : x ∷ xs ≡ x ∷ p ++ c ∷ q = ap (λ t. x ∷ t) (ih p q refl) in
    let first : x ∷ p ≡ a = ground arith in
    let second : q ≡ b = ground arith in rw (← first, ← second) e
cut_before_sound c x xs none a b ih h = elim (Bool-cases (x == c)) [
  | inl e ↦
      let g : ◌≡◌ {A = Option (Text × Text)} (some ([], xs)) (some (a, b)) = rw e at h in
      let first : ◌≡◌ {A = Text} [] a = ground arith in
      let second : xs ≡ b = ground arith in
      let same : x ≡ c = ground arith in rw (← first, ← second, same) refl
  | inr e ↦ ground arith
]

pub rsplit_sound : (c : ℕ) (s a b : Text) → rsplit c s ≡ some (a, b) → s ≡ a ++ c ∷ b
unfolding rsplit
rsplit_sound c [] a b h = cc
rsplit_sound c (x ∷ xs) a b h = cut_before_sound c x xs (rsplit c xs) a b (rsplit_sound c xs) h

rsplit-none : (c : ℕ) (s : Text) → has_char c s ≡ false → rsplit c s ≡ none
unfolding rsplit
rsplit-none c [] h = refl
rsplit-none c (x ∷ xs) h = ground (arith, rsplit-none c xs)

pub rsplit-join : (c : ℕ) (a b : Text) → has_char c b ≡ false → rsplit c (a ++ c ∷ b) ≡ some (a, b)
unfolding rsplit
rsplit-join c [] b h = rw (rsplit-none c b h) (ground arith)
rsplit-join c (x ∷ a) b h = rw (rsplit-join c a b h)

-- `str.isspace` of a character
unfoldable pub is_space : ℕ → Bool
is_space c =
    (leb 9 c && leb c 13)
    || (leb 28 c && leb c 32)
    || (c == 133)
    || (c == 160)
    || (c == 5760)
    || (leb 8192 c && leb c 8202)
    || (c == 8232)
    || (c == 8233)
    || (c == 8239)
    || (c == 8287)
    || (c == 12288)

-- `not s.strip()`
abbrev pub is_blank : Text → Bool
is_blank [] = true
is_blank (c ∷ cs) = is_space c && is_blank cs

-- `s.strip()`
abbrev pub strip_left : Text → Text
strip_left [] = []
strip_left (c ∷ cs) = if is_space c then strip_left cs else c ∷ cs

abbrev pub strip_right : Text → Text
strip_right [] = []
strip_right (c ∷ cs) = let rest = strip_right cs in if is_blank (c ∷ cs) then [] else c ∷ rest

abbrev pub strip : Text → Text
strip t = strip_right (strip_left t)

-- `set.add`, on a set that is kept as `sorted` lists it
unfoldable pub add_text : Text → List Text → List Text
add_text x [] = x ∷ []
add_text x (y ∷ ys) =
    let rest = add_text x ys in
    if text_eq x y then y ∷ ys else if text_lt x y then x ∷ y ∷ ys else y ∷ rest

-- `set.update`
unfoldable pub add_texts : List Text → List Text → List Text
add_texts [] s = s
add_texts (x ∷ xs) s = add_texts xs (add_text x s)

pub has_text-add_text :
    (x y : Text) (s : List Text) → has_text x (add_text y s) ≡ (text_eq x y || has_text x s)
unfolding add_text
has_text-add_text x y [] = refl
has_text-add_text x y (z ∷ s) =
    ground (arith, has_text-add_text x y s, text_eq_iff x y, text_eq_iff x z, text_eq_iff y z)

pub has_text-add_texts :
    (x : Text) (ys s : List Text) → has_text x (add_texts ys s) ≡ (has_text x ys || has_text x s)
unfolding add_texts
has_text-add_texts x [] s = refl
has_text-add_texts x (y ∷ ys) s =
    ground (arith, has_text-add_texts x ys (add_text y s), has_text-add_text x y s)

-- `all` of the names that a list holds
pub all-has_text :
    (p : Text → Bool) (ts : List Text) (t : Text)
    → all p ts ≡ true
    → has_text t ts ≡ true
    → p t ≡ true
all-has_text p [] t h m = ground arith
all-has_text p (x ∷ ts) t h m = elim (Bool-cases (text_eq t x)) [
  | inl e ↦
      let same : x ≡ t = ground (arith, text_eq_iff t x) in
      let here : p x ≡ true = ground arith in rw (← same) here
  | inr e ↦ all-has_text p ts t (ground arith) (ground arith)
]
