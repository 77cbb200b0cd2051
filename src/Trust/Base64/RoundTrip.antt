-- ===== src/Trust/Base64/RoundTrip.antt =====
-- base64url of tools/v3_backend_trust.py reads back what it writes.
use ro_repo.Base.{
  ℕ, ◌+◌, ◌*◌, ◌/◌, ◌%◌, ◌<◌, ◌≡◌, ◌↔◌, refl, sym, true, false, some, List, [], ◌∷◌, ok, all,
  is_empty, arith, inl, inr, Option-cases,
}
use ro_repo.Base.Text.{Text, text_eq_iff, text_eq_refl, is_digit, is_alpha}
use ro_repo.Trust.Base64.{letter, bits, encode, decode, is_letter, b64}

bits-letter : (n : ℕ) → n < 64 → bits (letter n) ≡ n
unfolding bits letter
bits-letter n h = ground arith

letter_sound : (n : ℕ) → is_letter (letter n) ≡ true
unfolding is_letter letter is_alpha is_digit
letter_sound n = ground arith

bits_bound : (c : ℕ) → bits c < 64
unfolding bits
bits_bound c = ground arith

abbrev pub IsBytes : List ℕ → Type 0
IsBytes [] = Unit
IsBytes (b ∷ bs) = (b < 256) × IsBytes bs

decode-encode : (raw : List ℕ) → IsBytes raw → decode (encode raw) ≡ some raw
unfolding decode encode
decode-encode [] h = refl
decode-encode (a ∷ []) (la, h) =
    let x = bits-letter (a / 4) (omega arith) in
    let y = bits-letter (a % 4 * 16) (omega arith) in
    let e : a / 4 * 4 + a % 4 * 16 / 16 ≡ a = omega arith in rw (x, y, e) refl
decode-encode (a ∷ b ∷ []) (la, (lb, h)) =
    let x = bits-letter (a / 4) (omega arith) in
    let y = bits-letter (a % 4 * 16 + b / 16) (omega arith) in
    let z = bits-letter (b % 16 * 4) (omega arith) in
    let d : a / 4 * 4 + (a % 4 * 16 + b / 16) / 16 ≡ a = omega arith in
    let e : (a % 4 * 16 + b / 16) % 16 * 16 + b % 16 * 4 / 4 ≡ b = omega arith in
    rw (x, y, z, d, e) refl
decode-encode (a ∷ b ∷ c ∷ raw) (la, (lb, (lc, h))) =
    let x = bits-letter (a / 4) (omega arith) in
    let y = bits-letter (a % 4 * 16 + b / 16) (omega arith) in
    let z = bits-letter (b % 16 * 4 + c / 64) (omega arith) in
    let w = bits-letter (c % 64) (omega arith) in
    let d : a / 4 * 4 + (a % 4 * 16 + b / 16) / 16 ≡ a = omega arith in
    let e : (a % 4 * 16 + b / 16) % 16 * 16 + (b % 16 * 4 + c / 64) / 4 ≡ b = omega arith in
    let f : (b % 16 * 4 + c / 64) % 4 * 64 + c % 64 ≡ c = omega arith in
    rw (decode-encode raw h, x, y, z, w, d, e, f) refl

all-encode : (raw : List ℕ) → all is_letter (encode raw) ≡ true
unfolding encode
all-encode [] = refl
all-encode (a ∷ []) = rw (letter_sound (a / 4), letter_sound (a % 4 * 16)) refl
all-encode (a ∷ b ∷ []) =
    rw (letter_sound (a / 4), letter_sound (a % 4 * 16 + b / 16), letter_sound (b % 16 * 4)) refl
all-encode (a ∷ b ∷ c ∷ raw) =
    rw
      (
        letter_sound (a / 4),
        letter_sound (a % 4 * 16 + b / 16),
        letter_sound (b % 16 * 4 + c / 64),
        letter_sound (c % 64),
        all-encode raw,
      )
      refl

is_empty-encode : (raw : List ℕ) → is_empty (encode raw) ≡ is_empty raw
unfolding encode
is_empty-encode [] = refl
is_empty-encode (a ∷ []) = refl
is_empty-encode (a ∷ b ∷ []) = refl
is_empty-encode (a ∷ b ∷ c ∷ raw) = refl

decode-IsBytes : (text : Text) (raw : List ℕ) → decode text ≡ some raw → IsBytes raw
unfolding decode
decode-IsBytes [] raw h = let e : [] ≡ raw = ground arith in rw (← e) tt
decode-IsBytes (x ∷ []) raw h = ground arith
decode-IsBytes (x ∷ y ∷ []) raw h =
    let e : (bits x * 4 + bits y / 16) ∷ [] ≡ raw = ground arith in
    rw (← e) (omega (arith, bits_bound x, bits_bound y), tt)
decode-IsBytes (x ∷ y ∷ z ∷ []) raw h =
    let e : (bits x * 4 + bits y / 16) ∷ (bits y % 16 * 16 + bits z / 4) ∷ [] ≡ raw =
      ground arith in
    rw (← e)
      (omega (arith, bits_bound x, bits_bound y), (omega (arith, bits_bound y, bits_bound z), tt))
decode-IsBytes (x ∷ y ∷ z ∷ w ∷ text) raw h = elim (Option-cases (decode text)) [
  | inl q ↦ ground arith
  | inr (rest, q) ↦
      let e : (bits x * 4 + bits y / 16)
            ∷ (bits y % 16 * 16 + bits z / 4)
            ∷ (bits z % 4 * 64 + bits w)
            ∷ rest
          ≡ raw =
        ground arith in
      rw (← e) (
        omega (arith, bits_bound x, bits_bound y),
        (
          omega (arith, bits_bound y, bits_bound z),
          (omega (arith, bits_bound z, bits_bound w), decode-IsBytes text rest q),
        ),
      )
]

-- The reader returns given bytes exactly when there are some and the text is what the writer makes
-- of them: every text that it accepts is canonical, and every text that is written is accepted.
pub b64_iff :
    (value : Text) (raw : List ℕ)
    → (b64 value ≡ ok raw) ↔ (IsBytes raw × (is_empty raw ≡ false) × (value ≡ encode raw))
unfolding b64
b64_iff value raw = (to, from)
  where
    to : b64 value ≡ ok raw → IsBytes raw × (is_empty raw ≡ false) × (value ≡ encode raw)
    to h = elim (Option-cases (decode value)) [
      | inl q ↦ ground arith
      | inr (r, q) ↦
          let same : r ≡ raw = ground arith in
          let canonical : encode r ≡ value = ground (arith, text_eq_iff (encode r) value) in
          let some_text : is_empty value ≡ false = ground arith in
          rw (← same)
            (decode-IsBytes value r q, rw (← is_empty-encode r, canonical) some_text, sym canonical)
    ]

    from : IsBytes raw × (is_empty raw ≡ false) × (value ≡ encode raw) → b64 value ≡ ok raw
    from (bytes, some_bytes, e) =
        rw
          (
            e,
            is_empty-encode raw,
            some_bytes,
            all-encode raw,
            decode-encode raw bytes,
            text_eq_refl (encode raw),
          )
          refl
