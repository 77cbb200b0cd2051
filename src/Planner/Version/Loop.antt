-- ===== src/Planner/Version/Loop.antt =====
-- The `while` loop of `version_compare`: enough fuel, the equation without fuel, and its laws.
use ro_repo.Base.{
  ℕ, zero, suc, ◌+◌, ◌≤◌, ◌<◌, ◌≡◌, refl, true, false, ◌&&◌, Option, none, some, arith, inl, inr,
  Bool-cases, length, is_empty,
}
use ro_repo.Base.Text.{Text}
use ro_repo.Planner.Version.{
  Sign, less, same, more, flip, Round, done, again, round, version_loop, version_compare,
}
use ro_repo.Planner.Version.Order.{flip_round, round-flip, Shrinks, round-Shrinks}

-- What a round's result means for the loop, given what the next passes return.
abbrev continue : (Text → Text → Option Sign) → Round → Option Sign
continue go (done s) = some s
continue go (again l r) = go l r

continue-total :
    (go : Text → Text → Option Sign) (n : ℕ) (x : Round)
    → ((l r : Text) → length l + length r < n → (s : Sign) × (go l r ≡ some s))
    → Shrinks n x
    → (s : Sign) × (continue go x ≡ some s)
continue-total go n (done s) h k = (s, refl)
continue-total go n (again l r) h k = h l r k

version_loop-suc :
    (f : ℕ) (l r : Text)
    → version_loop (suc f) l r ≡ (elim (is_empty l && is_empty r) [
      | true ↦ some same
      | false ↦ continue (version_loop f) (round l r)
    ])
unfolding version_loop
version_loop-suc f l r = ground arith

-- Fuel above the sizes of both sides is enough.
pub version_loop-total :
    (f : ℕ) (l r : Text) → length l + length r < f → (s : Sign) × (version_loop f l r ≡ some s)
version_loop-total zero l r h = absurd (omega arith)
version_loop-total (suc f) l r h = elim (Bool-cases (is_empty l && is_empty r)) [
  | inl e ↦ (same, rw (version_loop-suc, e) refl)
  | inr e ↦
      let t : (s : Sign) × (continue (version_loop f) (round l r) ≡ some s) =
        continue-total (version_loop f) (length l + length r) (round l r)
          (λ x y k. version_loop-total f x y (omega arith)) (round-Shrinks l r) in
      (t.0, rw (version_loop-suc, e) t.1)
]

map_flip : Option Sign → Option Sign
map_flip none = none
map_flip (some s) = some (flip s)

-- More fuel gives the same answer.
continue-more :
    (p q : Text → Text → Option Sign) (x : Round) (s : Sign)
    → ((l r : Text) → p l r ≡ some s → q l r ≡ some s)
    → continue p x ≡ some s
    → continue q x ≡ some s
continue-more p q (done t) s h e = e
continue-more p q (again l r) s h e = h l r e

version_loop-more :
    (f g : ℕ) (l r : Text) (s : Sign)
    → f ≤ g
    → version_loop f l r ≡ some s
    → version_loop g l r ≡ some s
version_loop-more zero g l r s h e = unfold version_loop in (ground arith)
version_loop-more (suc f) zero l r s h e = absurd (omega arith)
version_loop-more (suc f) (suc g) l r s h e = elim (Bool-cases (is_empty l && is_empty r)) [
  | inl b ↦ rw (version_loop-suc, b) (rw (version_loop-suc, b) at e)
  | inr b ↦
      rw (version_loop-suc, b)
        (continue-more (version_loop f) (version_loop g) (round l r) s
          (λ x y. version_loop-more f g x y s (omega arith)) (rw (version_loop-suc, b) at e))
]

-- Swapping the sides flips the sign, whatever the fuel.
continue-flip :
    (p q : Text → Text → Option Sign) (x : Round)
    → ((l r : Text) → p l r ≡ map_flip (q r l))
    → continue p x ≡ map_flip (continue q (flip_round x))
unfolding map_flip flip_round flip
continue-flip p q (done less) h = refl
continue-flip p q (done same) h = refl
continue-flip p q (done more) h = refl
continue-flip p q (again l r) h = h l r

version_loop-flip : (f : ℕ) (l r : Text) → version_loop f l r ≡ map_flip (version_loop f r l)
unfolding map_flip flip
version_loop-flip zero l r = unfold version_loop in refl
version_loop-flip (suc f) l r = ground (
  arith,
  version_loop-suc f l r,
  version_loop-suc f r l,
  round-flip r l,
  continue-flip (version_loop f) (version_loop f) (round l r) (version_loop-flip f),
)

-- The fuel that `version_compare` gives is enough, and any more gives its answer.
pub version_compare-total :
    (f : ℕ) (l r : Text) → length l + length r < f → version_loop f l r ≡ some (version_compare l r)
unfolding version_compare
version_compare-total f l r h =
    let t = version_loop-total (suc (length l + length r)) l r (omega arith) in
    ground (arith, t.1, version_loop-more (suc (length l + length r)) f l r t.0 (omega arith) t.1)

-- Swapping the versions flips the sign.
pub version_compare-flip :
    (left right : Text) → version_compare left right ≡ flip (version_compare right left)
unfolding map_flip
version_compare-flip left right = ground (
  arith,
  version_compare-total (suc (length left + length right)) left right,
  version_compare-total (suc (length left + length right)) right left,
  version_loop-flip (suc (length left + length right)) left right,
)

-- A version is not newer or older than itself.
pub version_compare_self : (v : Text) → version_compare v v ≡ same
unfolding flip
version_compare_self v = ground (arith, version_compare-flip v v)
