-- ===== src/Planner/Nevra/RoundTrip.antt =====
-- `_parse` against the printed form of a NEVRA.
use ro_repo.Base.{
  ℕ, ◌≡◌, ◌↔◌, refl, Bool, true, false, not, List, [], ◌∷◌, ◌++◌, arith, ok, all, inl, inr,
  Bool-cases, Option-cases, ◌==◌,
}
use ro_repo.Base.Text.{
  Text, text_eq, has_char, has_text, rsplit, rsplit_sound, rsplit-join, text_eq_sound, is_alpha,
  is_digit,
}
use ro_repo.Planner.Nevra.{
  Package, Nevra, arches, is_word, version_char, is_decimal, split_nevra, well_formed,
  has_empty_field, has_digests, fits, parse_package, in_block,
}

-- `name-epoch:version-release.arch`
abbrev pub render : Nevra → Text
render n = (((n.name ++ b'-' ∷ n.epoch) ++ b':' ∷ n.version) ++ b'-' ∷ n.release) ++ b'.' ∷ n.arch

-- A split that succeeds took the text apart where `render` joins it.
split_nevra_sound : (s : Text) (n : Nevra) → split_nevra s ≡ ok n → s ≡ render n
unfolding split_nevra
split_nevra_sound s n h = elim (Option-cases (rsplit b'.' s)) [
  | inl e ↦ ground arith
  | inr ((head, arch), e₁) ↦ elim (Option-cases (rsplit b'-' head)) [
    | inl e ↦ ground arith
    | inr ((prefix, release), e₂) ↦ elim (Option-cases (rsplit b':' prefix)) [
      | inl e ↦ ground arith
      | inr ((name_epoch, version), e₃) ↦ elim (Option-cases (rsplit b'-' name_epoch)) [
        | inl e ↦ ground arith
        | inr ((name, epoch), e₄) ↦ ground (
          arith,
          rsplit_sound b'.' s head arch e₁,
          rsplit_sound b'-' head prefix release e₂,
          rsplit_sound b':' prefix name_epoch version e₃,
          rsplit_sound b'-' name_epoch name epoch e₄,
        )
      ]
    ]
  ]
]

has_char_of_all :
    (p : ℕ → Bool) (c : ℕ) (s : Text) → p c ≡ false → all p s ≡ true → has_char c s ≡ false
has_char_of_all p c [] h a = refl
has_char_of_all p c (x ∷ s) h a = elim (Bool-cases (x == c)) [
  | inl e ↦ let same : x ≡ c = ground arith in let g : p c ≡ true = rw (← same) (ground arith) in cc
  | inr e ↦ ground (arith, has_char_of_all p c s h)
]

has_char_of_word :
    (p : ℕ → Bool) (c : ℕ) (s : Text) → p c ≡ false → is_word p s ≡ true → has_char c s ≡ false
unfolding is_word
has_char_of_word p c s h w = has_char_of_all p c s h (ground arith)

has_char_of_text :
    (c : ℕ) (s : Text) (ts : List Text)
    → all (λ t. not (has_char c t)) ts ≡ true
    → has_text s ts ≡ true
    → has_char c s ≡ false
has_char_of_text c s [] a h = ground arith
has_char_of_text c s (t ∷ ts) a h = elim (Bool-cases (text_eq s t)) [
  | inl e ↦ rw (text_eq_sound s t e) (ground arith)
  | inr e ↦ has_char_of_text c s ts (ground arith) (ground arith)
]

-- A well-formed NEVRA, printed, is split into its parts.
split_nevra-render : (n : Nevra) → well_formed n ≡ true → split_nevra (render n) ≡ ok n
unfolding split_nevra well_formed
split_nevra-render n h = rw (
  rsplit-join b'.' (((n.name ++ b'-' ∷ n.epoch) ++ b':' ∷ n.version) ++ b'-' ∷ n.release) n.arch
      (has_char_of_text b'.' n.arch arches refl (ground arith)),
  rsplit-join b'-' ((n.name ++ b'-' ∷ n.epoch) ++ b':' ∷ n.version) n.release (
      has_char_of_word version_char b'-' n.release (unfold version_char is_alpha is_digit in refl)
        (ground arith)),
  rsplit-join b':' (n.name ++ b'-' ∷ n.epoch) n.version (
      has_char_of_word version_char b':' n.version (unfold version_char is_alpha is_digit in refl)
        (ground arith)),
  rsplit-join b'-' n.name n.epoch (
      has_char_of_word is_decimal b'-' n.epoch (unfold is_decimal in_block in refl) (ground arith)),
)

-- `_parse` accepts a package exactly when its fields are there, its digests are digests, its NEVRA
-- is the printed form of the parts that it returns, and the filename and architecture fit them.
pub parse_package_iff :
    (p : Package) (n : Nevra)
    → (parse_package p ≡ ok n) ↔ (
        (has_empty_field p ≡ false)
        × (has_digests p ≡ true)
        × (p.nevra ≡ render n)
        × (well_formed n ≡ true)
        × (fits n p ≡ true))
unfolding parse_package
parse_package_iff p n =
    (λ h. ground (arith, split_nevra_sound p.nevra n), λ h. ground (arith, split_nevra-render n))
