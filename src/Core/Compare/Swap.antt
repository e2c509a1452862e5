-- ===== src/Core/Compare/Swap.antt =====
-- core/compare.go: comparing two values the other way round.
use zenodb.Prelude.{
  ℕ, ◌≡◌, refl, ap, Bool, true, false, Option, none, some, arith, ◌==◌, if◌then◌else◌, Bool-cases,
  inl, inr,
}
use zenodb.Prelude.Int.{ℤ, ltb_ℤ}
use zenodb.Core.Compare.{
  number, asserted, Order, before, same, after, Scalars, Value, absent, truth, whole, single,
  double, text, instant, other, by_less, by_truth, compare,
}

unfoldable pub flip : Order → Order
flip before = after
flip same = same
flip after = before

by_less-flip :
    {A : Type 0} (less : A → A → Bool)
    → ((a b : A) → less a b ≡ true → less b a ≡ false)
    → (a b : A) → by_less less b a ≡ flip (by_less less a b)
unfolding by_less flip
by_less-flip less h a b = elim (Bool-cases (less a b)) [
  | inl p ↦ rw (p, h a b p) refl
  | inr p ↦ elim (Bool-cases (less b a)) [ inl q ↦ rw (p, q) refl | inr q ↦ rw (p, q) refl ]
]

by_truth-flip : (a b : Bool) → by_truth b a ≡ flip (by_truth a b)
unfolding by_truth flip
by_truth-flip true true = refl
by_truth-flip true false = refl
by_truth-flip false true = refl
by_truth-flip false false = refl

pub ltb_ℤ_asym : (a b : ℤ) → ltb_ℤ a b ≡ true → ltb_ℤ b a ≡ false
ltb_ℤ_asym a b h = ground (arith, h)

==-swap : (m n : ℕ) → (m == n) ≡ (n == m)
==-swap m n = ground arith

flipped_if :
    (c : Bool) (o p : Order)
    → p ≡ flip o
    → (if c then some p else none) ≡ (elim (if c then some o else none) as (λ _. Option Order) [
      | none ↦ none
      | some o ↦ some (flip o)
    ])
flipped_if true o p h = ap some h
flipped_if false o p h = refl

-- A `uint` is asserted to be what it is not.
unfoldable pub IsComparable : {x : Scalars} → Value x → Type 0
IsComparable absent = Unit {0}
IsComparable (truth a) = Unit {0}
IsComparable (whole k a) = number (asserted k) ≡ number k
IsComparable (single a) = Unit {0}
IsComparable (double a) = Unit {0}
IsComparable (text a) = Unit {0}
IsComparable (instant a) = Unit {0}
IsComparable (other a) = ⊥

module _ (x : Scalars) where
  -- Values that are no uint, and of types that the switch has, compare the other way round as the
  -- opposite, or panic both ways.
  pub compare_swap :
      (a b : Value x)
      → IsComparable a
      → IsComparable b
      → compare x b a
        ≡ (elim (compare x a b) as (λ _. Option Order) [ none ↦ none | some o ↦ some (flip o) ])
  unfolding compare IsComparable
  compare_swap absent absent h k = unfold flip in refl
  compare_swap (whole i a) (whole j b) h k =
      let h' : number (asserted i) ≡ number i = h in
      let k' : number (asserted j) ≡ number j = k in
      rw (h', k', ==-swap (number j) (number i))
        (flipped_if (number i == number j) _ _ (by_less-flip ltb_ℤ ltb_ℤ_asym a b))
  compare_swap (truth a) (truth b) h k = ap some (by_truth-flip a b)
  compare_swap (single a) (single b) h k = ap some (by_less-flip x.less_32 x.asym_32 a b)
  compare_swap (double a) (double b) h k = ap some (by_less-flip x.less_64 x.asym_64 a b)
  compare_swap (text a) (text b) h k = ap some (by_less-flip x.less_text x.asym_text a b)
  compare_swap (instant a) (instant b) h k = ap some (by_less-flip ltb_ℤ ltb_ℤ_asym a b)
  compare_swap (other a) b h k = absurd h
  compare_swap a (other b) h k = absurd k
  compare_swap a b h k = unfold flip in refl
