-- ===== src/Planner/Nevra.antt =====
-- `_parse` and `evr_compare` of tools/v3_promotion_planner.py: package metadata and NEVRA texts.
-- A value that is no dict, or lacks one of FIELDS as a text, is `malformed`.
pub mod RoundTrip
pub mod Order
use ro_repo.Base.{
  ℕ, ◌+◌, ◌-◌, ◌*◌, Bool, true, false, ◌&&◌, ◌||◌, not, Option, none, some, List, [], ◌∷◌, ◌++◌,
  ltb, leb, ◌==◌, if◌then◌else◌, length, is_empty, all, any, Result, ok, err, ◌>>=◌, ◌>>◌, raise_if,
  String, or_raise,
}
use ro_repo.Base.Text.{
  Text, codes, text_eq, has_char, has_text, ends_with, rsplit, is_digit, is_alpha,
}
use ro_repo.Planner.Version.{Sign, less, same, more, version_compare}

pub record Package : Type 0 where
  pub nevra : Text
  pub filename : Text
  pub architecture : Text
  pub producer_manifest_digest : Text
  pub producer_artifact_sha256 : Text
  pub published_signed_artifact_sha256 : Text
  -- what else the dict holds, unread by the planner
  pub extra : Text

pub data Entry : Type 0 where
  malformed : Entry
  well_typed : Package → Entry

pub record Nevra : Type 0 where
  pub name : Text
  pub epoch : Text
  pub version : Text
  pub release : Text
  pub arch : Text

-- `ARCHES`
abbrev pub arches : List Text
arches = codes "x86_64" ∷ codes "aarch64" ∷ codes "noarch" ∷ codes "src" ∷ codes "nosrc" ∷ []

-- The code points of the zeros of Unicode's decimal digits; the nine digits follow each.
abbrev pub decimal_zeros : List ℕ
decimal_zeros =
    0x30 ∷ 0x660 ∷ 0x6f0 ∷ 0x7c0 ∷ 0x966 ∷ 0x9e6 ∷ 0xa66 ∷ 0xae6 ∷ 0xb66 ∷ 0xbe6 ∷ 0xc66 ∷ 0xce6
    ∷ 0xd66 ∷ 0xde6 ∷ 0xe50 ∷ 0xed0 ∷ 0xf20 ∷ 0x1040 ∷ 0x1090 ∷ 0x17e0 ∷ 0x1810 ∷ 0x1946 ∷ 0x19d0
    ∷ 0x1a80 ∷ 0x1a90 ∷ 0x1b50 ∷ 0x1bb0 ∷ 0x1c40 ∷ 0x1c50 ∷ 0xa620 ∷ 0xa8d0 ∷ 0xa900 ∷ 0xa9d0
    ∷ 0xa9f0 ∷ 0xaa50 ∷ 0xabf0 ∷ 0xff10 ∷ 0x104a0 ∷ 0x10d30 ∷ 0x11066 ∷ 0x110f0 ∷ 0x11136 ∷ 0x111d0
    ∷ 0x112f0 ∷ 0x11450 ∷ 0x114d0 ∷ 0x11650 ∷ 0x116c0 ∷ 0x11730 ∷ 0x118e0 ∷ 0x11950 ∷ 0x11c50
    ∷ 0x11d50 ∷ 0x11da0 ∷ 0x16a60 ∷ 0x16ac0 ∷ 0x16b50 ∷ 0x1d7ce ∷ 0x1d7d8 ∷ 0x1d7e2 ∷ 0x1d7ec
    ∷ 0x1d7f6 ∷ 0x1e140 ∷ 0x1e2f0 ∷ 0x1e950 ∷ 0x1fbf0 ∷ []

unfoldable pub is_hex : ℕ → Bool
is_hex c = (leb b'a' c && leb c b'f') || is_digit c

-- `DIGEST.fullmatch`
unfoldable pub is_digest : Text → Bool
is_digest s = (length s == 64) && all is_hex s

-- `[A-Za-z0-9_+.-]+`
unfoldable pub name_char : ℕ → Bool
name_char c = is_alpha c || is_digit c || (c == b'_') || (c == b'+') || (c == b'.') || (c == b'-')

-- `[A-Za-z0-9._+~^]+`
unfoldable pub version_char : ℕ → Bool
version_char c =
    is_alpha c
    || is_digit c
    || (c == b'.')
    || (c == b'_')
    || (c == b'+')
    || (c == b'~')
    || (c == b'^')

unfoldable pub is_word : (ℕ → Bool) → Text → Bool
is_word p s = not (is_empty s) && all p s

unfoldable pub in_block : ℕ → ℕ → Bool
in_block c z = leb z c && ltb c (z + 10)

-- `str.isdecimal` of one character
unfoldable pub is_decimal : ℕ → Bool
is_decimal c = any (in_block c) decimal_zeros

-- The value of a decimal digit.
unfoldable pub digit_in : ℕ → List ℕ → ℕ
digit_in c [] = 0
digit_in c (z ∷ zs) = if in_block c z then c - z else digit_in c zs

unfoldable pub int_from : ℕ → Text → ℕ
int_from n [] = n
int_from n (c ∷ s) = int_from (n * 10 + digit_in c decimal_zeros) s

-- `int(s)` of a text of decimal digits
unfoldable pub int : Text → ℕ
int s = int_from 0 s

-- The four splits, from the right.
unfoldable pub split_nevra : Text → Result Nevra
split_nevra s = do
  (head, arch) ← or_raise (rsplit b'.' s) "malformed NEVRA"
  (prefix, release) ← or_raise (rsplit b'-' head) "malformed NEVRA"
  (name_epoch, version) ← or_raise (rsplit b':' prefix) "malformed NEVRA"
  (name, epoch) ← or_raise (rsplit b'-' name_epoch) "malformed NEVRA"
  ok (record { name = name; epoch = epoch; version = version; release = release; arch = arch })

-- The patterns that the parts must match.
unfoldable pub well_formed : Nevra → Bool
well_formed n =
    is_word name_char n.name
    && is_word is_decimal n.epoch
    && is_word version_char n.version
    && is_word version_char n.release
    && has_text n.arch arches

unfoldable pub has_empty_field : Package → Bool
has_empty_field p =
    is_empty p.nevra
    || is_empty p.filename
    || is_empty p.architecture
    || is_empty p.producer_manifest_digest
    || is_empty p.producer_artifact_sha256
    || is_empty p.published_signed_artifact_sha256

unfoldable pub has_digests : Package → Bool
has_digests p =
    is_digest p.producer_manifest_digest
    && is_digest p.producer_artifact_sha256
    && is_digest p.published_signed_artifact_sha256

-- The filename is a plain RPM name, and the architecture is that of the NEVRA.
unfoldable pub fits : Nevra → Package → Bool
fits n p =
    text_eq n.arch p.architecture
    && ends_with (codes ".rpm") p.filename
    && not (has_char b'/' p.filename)
    && not (has_char b'\\' p.filename)

-- `_parse` of a well-typed entry
unfoldable pub parse_package : Package → Result Nevra
parse_package p = do
  raise_if (has_empty_field p) "missing or malformed package metadata"
  raise_if (not (has_digests p)) "invalid package digest"
  n ← split_nevra p.nevra
  raise_if (not (well_formed n)) "malformed NEVRA"
  raise_if (not (fits n p)) "invalid filename or architecture"
  ok n

abbrev or_else : Sign → Sign → Sign
or_else same t = t
or_else s t = s

-- The comparison of two parsed entries: epoch, then version, then release.
unfoldable pub evr_order : Nevra → Nevra → Sign
evr_order a b =
    if not (int a.epoch == int b.epoch)
    then (if ltb (int b.epoch) (int a.epoch) then more else less)
    else or_else (version_compare a.version b.version) (version_compare a.release b.release)

-- `evr_compare`
unfoldable pub evr_compare : Package → Package → Result Sign
evr_compare left right = do a ← parse_package left; b ← parse_package right; ok (evr_order a b)
