-- ===== src/Core/Sort.antt =====
-- core/sort.go: the order by which `sorter` sorts rows.
pub mod Strict
use Prim.Native.String.{String}
use zenodb.Prelude.{Bool, true, false, Option, none, some, List, [], ◌∷◌, if◌then◌else◌}
use zenodb.Prelude.Int.{ℤ, ltb_ℤ}
use zenodb.Core.Compare.{Scalars, Value, Order, before, same, after, compare}

-- `OrderBy.Field`: "_time", or the name of a field or dimension.
pub data SortField : Type 0 where
  time : SortField
  named : String → SortField

-- `OrderBy`.
pub record OrderBy : Type 0 where
  pub field : SortField
  pub descending : Bool

-- A `FlatRow`, with its timestamp and its `Get`.
pub record FlatRow (x : Scalars) : Type 0 where
  pub ts : ℤ
  pub get : String → Value x

-- What a comparison decides, or else the orders that follow.
unfoldable pub by_result : Option Order → Option Bool → Option Bool
by_result none rest = none
by_result (some before) rest = some true
by_result (some after) rest = some false
by_result (some same) rest = rest

module _ (x : Scalars) where
  -- `orderedRows.Less`. Where `compare` panics there is none.
  unfoldable pub less : List OrderBy → FlatRow x → FlatRow x → Option Bool
  unfolding by_result
  less [] a b = some false
  less (order ∷ by) a b =
      let rest = less by a b in
      elim order.field [
        | time ↦
            let ta = if order.descending then b.ts else a.ts in
            let tb = if order.descending then a.ts else b.ts in
            if ltb_ℤ ta tb then some true else rest
        | named name ↦
            let va = if order.descending then b.get name else a.get name in
            let vb = if order.descending then a.get name else b.get name in
            by_result (compare x va vb) rest
      ]
