-- ===== src/Site/Tree/Stream.antt =====
-- The stream that `directory_tree_digest` of tools/ro_repo.py hashes, and copies of a tree.
use ro_repo.Base.{
  ℕ, suc, zero, ◌^◌, ◌<◌, ◌≡◌, refl, ap, sym, ◌≢◌, length-append, List, [], ◌∷◌, ◌++◌, ok, length,
  arith, Result-cases, inl, inr,
}
use ro_repo.Base.Text.{Text}
use ro_repo.Site.Tree.{
  Node, file, dir, link, Entries, empty, entry, walk, walk_all, copy, copy_all, big_endian,
  to_bytes, stream,
}

-- A tree whose walk meets no link is its own copy.
mutual
  unfolding walk walk_all copy copy_all

  pub copy-walk : (p : Text) (n : Node) (fs : List (Text × Text)) → walk p n ≡ ok fs → copy n ≡ n
  copy-walk p (file b) fs h = refl
  copy-walk p (dir es) fs h = ap dir (copy_all-walk (p ++ b'/' ∷ []) es fs h)
  copy-walk p (link n) fs h = ground arith

  pub copy_all-walk :
      (p : Text) (es : Entries) (fs : List (Text × Text)) → walk_all p es ≡ ok fs → copy_all es ≡ es
  copy_all-walk p empty fs h = refl
  copy_all-walk p (entry name n es) fs h = elim (Result-cases (walk (p ++ name) n)) [
    | inl (e, q) ↦ ground arith
    | inr (a, q) ↦ elim (Result-cases (walk_all p es)) [
      | inl (e, r) ↦ ground arith
      | inr (b, r) ↦ ground (arith, copy-walk (p ++ name) n a q, copy_all-walk p es b r)
    ]
  ]

append_split : (a b c d : Text) → length a ≡ length b → a ++ c ≡ b ++ d → (a ≡ b) × (c ≡ d)
append_split [] [] c d l h = (refl, h)
append_split [] (y ∷ b) c d l h = ground arith
append_split (x ∷ a) [] c d l h = ground arith
append_split (x ∷ a) (y ∷ b) c d l h = ground (arith, append_split a b c d)

length-big_endian : (k n : ℕ) → length (big_endian k n) ≡ k
length-big_endian zero n = refl
length-big_endian (suc k) n = ap suc (length-big_endian k n)

big_endian_8 : (m n : ℕ) → m < 256 ^ 8 → n < 256 ^ 8 → big_endian 8 m ≡ big_endian 8 n → m ≡ n
big_endian_8 m n h k e = ground arith

to_bytes_eq : (n : ℕ) (a : Text) → to_bytes n ≡ ok a → (n < 256 ^ 8) × (a ≡ big_endian 8 n)
unfolding to_bytes
to_bytes_eq n a h = (ground arith, ground arith)

length-to_bytes : (n : ℕ) (a : Text) → to_bytes n ≡ ok a → length a ≡ 8
length-to_bytes n a h = rw (to_bytes_eq n a h).1 (length-big_endian 8 n)

to_bytes_injective : (m n : ℕ) (a : Text) → to_bytes m ≡ ok a → to_bytes n ≡ ok a → m ≡ n
to_bytes_injective m n a h k =
    let (l, e) = to_bytes_eq m a h in
    let (l', e') = to_bytes_eq n a k in
    let same : big_endian 8 m ≡ big_endian 8 n = rw (← e) e' in big_endian_8 m n l l' same

-- Two fields that are written with their sizes, and what follows them.
sized_split :
    (p q a a' r r' : Text)
    → to_bytes (length p) ≡ ok a
    → to_bytes (length q) ≡ ok a'
    → a ++ (p ++ r) ≡ a' ++ (q ++ r')
    → (p ≡ q) × (r ≡ r')
sized_split p q a a' r r' h k e =
    let l : length a ≡ length a' =
      rw (length-to_bytes (length p) a h) (sym (length-to_bytes (length q) a' k)) in
    let (same, rest) = append_split a a' (p ++ r) (q ++ r') l e in
    append_split p q r r' (to_bytes_injective (length p) (length q) a h (rw same k)) rest

record Parts (p b : Text) (fs : List (Text × Text)) (s : Text) : Type 0 where
  name_size : Text
  size : Text
  rest : Text
  named : to_bytes (length p) ≡ ok name_size
  sized : to_bytes (length b) ≡ ok size
  later : stream fs ≡ ok rest
  whole : s ≡ name_size ++ (p ++ (size ++ (b ++ rest)))

stream-Parts :
    (p b : Text) (fs : List (Text × Text)) (s : Text) → stream ((p, b) ∷ fs) ≡ ok s → Parts p b fs s
unfolding stream
stream-Parts p b fs s h = elim (Result-cases (to_bytes (length p))) [
  | inl (e, q) ↦ ground arith
  | inr (m, q) ↦ elim (Result-cases (to_bytes (length b))) [
    | inl (e, r) ↦ ground arith
    | inr (n, r) ↦ elim (Result-cases (stream fs)) [
      | inl (e, t) ↦ ground arith
      | inr (x, t) ↦ record {
        name_size = m;
        size = n;
        rest = x;
        named = q;
        sized = r;
        later = t;
        whole = ground arith;
      }
    ]
  ]
]

-- A file in the stream leaves it longer than nothing.
stream-nonempty : (p b : Text) (fs : List (Text × Text)) → stream ((p, b) ∷ fs) ≢ ok []
stream-nonempty p b fs h =
    let t = stream-Parts p b fs [] h in
    let l = length-to_bytes (length p) t.name_size t.named in
    let e = ap length t.whole in
    omega (arith, e, l, length-append t.name_size (p ++ (t.size ++ (b ++ t.rest))))

-- Two lists of files that give one stream are the same list, byte for byte.
pub stream_injective :
    (fs gs : List (Text × Text)) (s : Text) → stream fs ≡ ok s → stream gs ≡ ok s → fs ≡ gs
unfolding stream
stream_injective [] [] s h k = refl
stream_injective [] ((q, c) ∷ gs) s h k =
    let e : [] ≡ s = ground arith in absurd (stream-nonempty q c gs (rw e k))
stream_injective ((p, b) ∷ fs) [] s h k =
    let e : [] ≡ s = ground arith in absurd (stream-nonempty p b fs (rw e h))
stream_injective ((p, b) ∷ fs) ((q, c) ∷ gs) s h k =
    let t = stream-Parts p b fs s h in
    let u = stream-Parts q c gs s k in
    let (name, one) =
      sized_split p q t.name_size u.name_size _ _ t.named u.named (rw (← t.whole) u.whole) in
    let (content, two) = sized_split b c t.size u.size t.rest u.rest t.sized u.sized one in
    let files = stream_injective fs gs t.rest t.later (rw two u.later) in
    rw (name, content, files) refl
