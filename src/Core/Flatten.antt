-- ===== src/Core/Flatten.antt =====
-- core/flatten.go: a row of sequences becomes a flat row for each of its periods.
pub mod Periods
pub mod Rows
mod Tests
use Prim.Native.String.{String}
use zenodb.Prelude.{
  ℕ, zero, suc, ◌+◌, ◌-◌, ◌/◌, ◌^◌, Bool, true, false, not, ◌&&◌, ◌||◌, Option, none, some, List,
  [], ◌∷◌, ltb, ◌==◌, if◌then◌else◌, ◌>>=◌, map,
}
use zenodb.Prelude.Int.{ℤ}
use zenodb.Encoding.Binary.{to_word, to_int64}
use zenodb.Encoding.Time.{Time, unix_nano}
use zenodb.Encoding.Until.{Quotients}
use zenodb.Expr.{Outside, Expr, field, encoded_width, is_constant}
use zenodb.Sequence.{Sequence, quotient, until, num_periods, as_of}
use zenodb.Sequence.Values.{value_at_time}
use zenodb.Core.{OnRow, Guard, proceed, is_some}

-- `Field`.
pub record Field (x : Outside) : Type 0 where
  pub name : String
  pub expr : Expr x

-- `FlatRow`.
pub record FlatRow (x : Outside) : Type 0 where
  pub ts : ℤ
  pub key : List ℕ
  pub values : List x.Float
  pub fields : List (Field x)

-- The times of a row: the latest end, and the earliest start, which is zero before there is one.
pub record Range : Type 0 where
  pub until : Time
  pub as_of : Time

pub widened_by : Time → Time → Range → Range
widened_by new_until new_as_of r = record {
  until = if ltb r.until new_until then new_until else r.until;
  as_of = if r.as_of == 0 || ltb new_as_of r.as_of then new_as_of else r.as_of;
}

module _ (x : Outside) where
  -- The fields that `onFields` is called with.
  pub flat_fields : List (Field x) → List (Field x)
  flat_fields fields = map (λ f. record { name = f.name; expr = field f.name }) fields

  -- A round of the loop for the time range.
  pub widened : ℕ → Expr x → Sequence → Range → Option Range
  unfolding widened_by
  widened resolution e val r = do
    n ← num_periods (encoded_width x e) val
    if n == 0 then some r else do
      new_until ← until val
      new_as_of ← as_of (encoded_width x e) resolution val
      some (widened_by new_until new_as_of r)

  -- The loop over the fields. A row with fewer values than fields panics.
  pub range_of : ℕ → List (Field x) → List Sequence → Range → Option Range
  unfolding widened
  range_of resolution [] vals r = some r
  range_of resolution (f ∷ fields) [] r = none
  range_of resolution (f ∷ fields) (val ∷ vals) r =
      widened resolution f.expr val r >>= λ r'. range_of resolution fields vals r'

  module _ (q : Quotients) (resolution : ℕ) where
    -- `row.Values`, and `anyNonConstantValueFound`.
    pub values_at : Time → List (Field x) → List Sequence → Option (List x.Float × Bool)
    values_at ts [] vals = some ([], false)
    values_at ts (f ∷ fields) [] = none
    values_at ts (f ∷ fields) (val ∷ vals) = do
      v ← value_at_time x q ts f.expr resolution val
      rest ← values_at ts fields vals
      some (v.0 ∷ rest.0, (v.1 && not (is_constant x f.expr)) || rest.1)

    abbrev pub flat_row : Time → List (Field x) → List ℕ → List x.Float → FlatRow x
    flat_row ts fields key values = record {
      ts = to_int64 (to_word (2 ^ 64) (unix_nano ts));
      key = key;
      values = values;
      fields = fields;
    }

    module _ {S E : Type 0} (now : S → ℕ) (exceeded : E) (guard : Guard) (fields : List (Field x))
        (on_row : OnRow S E (FlatRow x)) where
      -- The callback for the row of a time, if a value was found.
      pub show : Time → List ℕ → List x.Float × Bool → S → S × Bool × Option E
      show ts key vs s = if vs.1 then on_row s (flat_row ts fields key vs.0) else (s, true, none)

      -- The loop over the times. It runs on fuel.
      pub show_periods : ℕ → Time → Time → List ℕ → List Sequence → S → Option (S × Bool × Option E)
      unfolding show values_at proceed
      show_periods zero ts to key vals s = none
      show_periods (suc fuel) ts to key vals s =
          if ltb to ts
          then (let p = proceed now exceeded guard s in some (s, p.0, p.1))
          else (values_at ts fields vals >>= λ vs.
              let a = show ts key vs s in
              elim (not a.1 || is_some a.2) [
                | true ↦ some a
                | false ↦ show_periods fuel (ts + resolution) to key vals a.0
              ])

      -- The callback of `flatten.Iterate`, with one more round than there are times. At a resolution
      -- of zero Go's loop does not end, which is none as well.
      pub flatten_row : List ℕ → List Sequence → S → Option (S × Bool × Option E)
      unfolding range_of show_periods
      flatten_row key vals s = do
        r ← range_of resolution fields vals (record { until = 0; as_of = 0 })
        n ← quotient (r.until - r.as_of) resolution
        show_periods (suc (suc n)) r.as_of r.until key vals s
