-- ===== src/Planner/Nevra/Order.antt =====
-- `evr_compare` is the sign of an order: swapping the entries flips it.
use ro_repo.Base.{ℕ, Result-cases, inl, inr, ◌≡◌, refl, arith, ok, ltb, ◌==◌, if◌then◌else◌, not}
use ro_repo.Planner.Version.{Sign, less, same, more, flip}
use ro_repo.Planner.Version.Loop.{version_compare-flip}
use ro_repo.Planner.Nevra.{
  Package, Nevra, int, or_else, evr_order, evr_compare, parse_package, version_compare,
}

or_else-flip : (s t : Sign) → or_else (flip s) (flip t) ≡ flip (or_else s t)
unfolding flip
or_else-flip less t = refl
or_else-flip same t = refl
or_else-flip more t = refl

epochs-flip :
    (m n : ℕ) (s : Sign)
    → (if not (m == n) then (if ltb n m then more else less) else flip s)
      ≡ flip (if not (n == m) then (if ltb m n then more else less) else s)
unfolding flip
epochs-flip m n s = ground arith

pub evr_order-flip : (a b : Nevra) → evr_order a b ≡ flip (evr_order b a)
unfolding evr_order
evr_order-flip a b = ground (
  arith,
  epochs-flip (int a.epoch) (int b.epoch)
      (or_else (version_compare b.version a.version) (version_compare b.release a.release)),
  or_else-flip (version_compare b.version a.version) (version_compare b.release a.release),
  version_compare-flip a.version b.version,
  version_compare-flip a.release b.release,
)

-- Swapping two entries that can be compared flips the sign.
pub evr_compare-flip :
    (p q : Package) {s : Sign} → evr_compare p q ≡ ok s → evr_compare q p ≡ ok (flip s)
unfolding evr_compare
evr_compare-flip p q h = elim (Result-cases (parse_package p)) [
  | inl (e, x) ↦ ground arith
  | inr (a, x) ↦ elim (Result-cases (parse_package q)) [
    | inl (e, y) ↦ ground arith
    | inr (b, y) ↦ ground (arith, evr_order-flip b a)
  ]
]
