-- ===== src/Core/Sort/Strict.antt =====
-- core/sort.go: where the order of rows is strict, and where it is not.
use Prim.Native.String.{String}
use zenodb.Prelude.{◌≡◌, refl, Bool, true, false, Option, none, some, List, [], ◌∷◌, arith}
use zenodb.Prelude.Int.{ltb_ℤ}
use zenodb.Core.Compare.{Scalars, Order, before, same, after, compare}
use zenodb.Core.Compare.Swap.{flip, IsComparable, compare_swap, ltb_ℤ_asym}
use zenodb.Core.Sort.{by_result, SortField, time, named, OrderBy, FlatRow, less}

abbrev IsNamed : {x : Scalars} → SortField → FlatRow x → Type 0
IsNamed time a = ⊥
IsNamed (named name) a = IsComparable (a.get name)

-- Orders by fields and dimensions alone, whose values in a row can be compared both ways.
abbrev pub IsOrdered : {x : Scalars} → List OrderBy → FlatRow x → Type 0
IsOrdered [] a = Unit {0}
IsOrdered (o ∷ by) a = IsNamed o.field a × IsOrdered by a

abbrev flipped : Option Order → Option Order
flipped o = elim o as (λ _. Option Order) [ none ↦ none | some p ↦ some (flip p) ]

by_result_asym :
    (o : Option Order) (r s : Option Bool)
    → (r ≡ some true → s ≡ some false)
    → by_result o r ≡ some true
    → by_result (flipped o) s ≡ some false
unfolding by_result flip
by_result_asym none r s h e = ground (arith, e)
by_result_asym (some before) r s h e = refl
by_result_asym (some same) r s h e = h e
by_result_asym (some after) r s h e = ground (arith, e)

module _ (x : Scalars) where
  asym_step :
      (f : SortField) (d : Bool) (by : List OrderBy) (a b : FlatRow x)
      → IsNamed f a
      → IsNamed f b
      → (less x by a b ≡ some true → less x by b a ≡ some false)
      → less x (record { field = f; descending = d } ∷ by) a b ≡ some true
      → less x (record { field = f; descending = d } ∷ by) b a ≡ some false
  unfolding less
  asym_step time d by a b h k r e = absurd h
  asym_step (named name) false by a b h k r e =
      rw (compare_swap x (a.get name) (b.get name) h k)
        (by_result_asym (compare x (a.get name) (b.get name)) (less x by a b) (less x by b a) r e)
  asym_step (named name) true by a b h k r e =
      rw (compare_swap x (b.get name) (a.get name) k h)
        (by_result_asym (compare x (b.get name) (a.get name)) (less x by a b) (less x by b a) r e)

  -- By fields and dimensions alone, whose values are no uint and of types that `compare` has, the order
  -- of rows is asymmetric.
  pub less_asym :
      (by : List OrderBy) (a b : FlatRow x)
      → IsOrdered by a
      → IsOrdered by b
      → less x by a b ≡ some true
      → less x by b a ≡ some false
  unfolding less
  less_asym [] a b h k e = ground (arith, e)
  less_asym (o ∷ by) a b h k e =
      asym_step o.field o.descending by a b h.0 k.0 (less_asym by a b h.1 k.1) e

  -- By time and then by a field, the order of rows is not asymmetric: of two rows the earlier one, if it
  -- comes second by the field, is less than the later one and greater too.
  less_both_ways :
      (name : String) (a b : FlatRow x)
      → ltb_ℤ a.ts b.ts ≡ true
      → compare x (b.get name) (a.get name) ≡ some before
      → (less x
            (record { field = time; descending = false }
              ∷ record { field = named name; descending = false }
              ∷ [])
            a
            b
          ≡ some true)
        × (less x
              (record { field = time; descending = false }
                ∷ record { field = named name; descending = false }
                ∷ [])
              b
              a
            ≡ some true)
  unfolding less
  less_both_ways name a b h k = (rw h refl, rw (ltb_ℤ_asym a.ts b.ts h, k) refl)
