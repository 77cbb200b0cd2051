-- ===== src/Trust/Base64.antt =====
-- `b64` and `encode` of tools/v3_backend_trust.py, on Python's base64url.
pub mod RoundTrip
use ro_repo.Base.{
  ℕ, ◌+◌, ◌-◌, ◌*◌, ◌/◌, ◌%◌, Bool, true, false, Option, none, some, List, [], ◌∷◌, Result, ok, err,
  ◌>>=◌, ◌>>◌, raise_if, or_raise, not, all, ltb, leb, ◌==◌, ◌&&◌, ◌||◌, if◌then◌else◌, is_empty,
}
use ro_repo.Base.Text.{Text, text_eq, is_digit, is_alpha}

-- The character of six bits
unfoldable pub letter : ℕ → ℕ
letter n =
    if ltb n 26
    then b'A' + n
    else if ltb n 52
    then b'a' + (n - 26)
    else if ltb n 62
    then b'0' + (n - 52)
    else if n == 62
    then b'-'
    else b'_'

-- The six bits of a character of the alphabet
unfoldable pub bits : ℕ → ℕ
bits c =
    if leb b'A' c && leb c b'Z'
    then c - b'A'
    else if leb b'a' c && leb c b'z'
    then c - b'a' + 26
    else if leb b'0' c && leb c b'9'
    then c - b'0' + 52
    else if c == b'-'
    then 62
    else 63

-- `base64.urlsafe_b64encode(raw).decode().rstrip("=")`
unfoldable pub encode : List ℕ → Text
encode [] = []
encode (a ∷ []) = letter (a / 4) ∷ letter (a % 4 * 16) ∷ []
encode (a ∷ b ∷ []) = letter (a / 4) ∷ letter (a % 4 * 16 + b / 16) ∷ letter (b % 16 * 4) ∷ []
encode (a ∷ b ∷ c ∷ raw) =
    letter (a / 4)
    ∷ letter (a % 4 * 16 + b / 16)
    ∷ letter (b % 16 * 4 + c / 64)
    ∷ letter (c % 64)
    ∷ encode raw

-- `base64.b64decode` of characters of the alphabet and the padding that is added to them: bits that
-- are left over are dropped, and a single character is an error.
unfoldable pub decode : Text → Option (List ℕ)
decode [] = some []
decode (x ∷ []) = none
decode (x ∷ y ∷ []) = some ((bits x * 4 + bits y / 16) ∷ [])
decode (x ∷ y ∷ z ∷ []) = some ((bits x * 4 + bits y / 16) ∷ (bits y % 16 * 16 + bits z / 4) ∷ [])
decode (x ∷ y ∷ z ∷ w ∷ text) = elim (decode text) [
  | none ↦ none
  | some raw ↦ some (
      (bits x * 4 + bits y / 16)
      ∷ (bits y % 16 * 16 + bits z / 4)
      ∷ (bits z % 4 * 64 + bits w)
      ∷ raw)
]

-- `[A-Za-z0-9_-]`
unfoldable pub is_letter : ℕ → Bool
is_letter c = is_alpha c || is_digit c || (c == b'_') || (c == b'-')

-- `b64`, of a text
unfoldable pub b64 : Text → Result (List ℕ)
b64 value = do
  raise_if (is_empty value || not (all is_letter value)) "invalid base64url"
  raw ← or_raise (decode value) "invalid base64url"
  raise_if (not (text_eq (encode raw) value)) "noncanonical base64url"
  ok raw
