-- ===== src/Rowstore/Iterate/Ends.antt =====
-- row_store.go: the loop over the rows of a file ends.
use zenodb.Prelude.{
  ℕ, zero, suc, ◌<◌, ◌≡◌, refl, Bool, true, false, ◌&&◌, not, Option, none, some, List, [], ◌∷◌,
  arith, length, ◌⊎◌, replicate, inl, inr, Option-cases, Bool-cases,
}
use zenodb.Bytetree.Walk.{is_some}
use zenodb.Encoding.Time.{Time}
use zenodb.Encoding.Until.{Quotients}
use zenodb.Expr.{Outside, Expr}
use zenodb.Sequence.{Sequence}
use zenodb.Rowstore.Rows.{
  Row, next_row, Columns, columns, columns_error, columns_panic, read_columns,
}
use zenodb.Rowstore.Rows.Remaining.{next_row-nil, left_of-row, left_of-next_row, Next-cases}
use zenodb.Rowstore.Fields.{map_columns}
use zenodb.Rowstore.Iterate.{
  Rows, Reply, Ending, finished, returned, crashed, out_of_fuel, Step, go_on, stop, remove_from,
  or_none, answered, combine, report, after_columns, row_step, rows_from,
}

module _ {S E : Type 0} where
  unfoldable pub IsFueled : Ending S E → Type 0
  IsFueled (finished memory s) = Unit {0}
  IsFueled (returned memory s p) = Unit {0}
  IsFueled crashed = Unit {0}
  IsFueled out_of_fuel = ⊥

  IsFueledStep : Step S E → Type 0
  IsFueledStep (go_on memory s) = Unit {0}
  IsFueledStep (stop e) = IsFueled e

  pub Step-cases :
      (m : Step S E)
      → ((memory : Option Rows) × (s : S) × (m ≡ go_on memory s))
        ⊎ ((e : Ending S E) × (m ≡ stop e))
  Step-cases (go_on memory s) = inl (memory, s, refl)
  Step-cases (stop e) = inr (e, refl)

  module _ (on_row : S → List ℕ → List Sequence → Option (List ℕ) → Reply S E) (x : Outside)
      (q : Quotients) (exprs : List (Expr x)) (resolution : ℕ) (before : Time)
      (file_idxs memory_idxs : List (Option ℕ)) (ctx : ℕ) (raw_okay : Bool) where
    answered-fueled :
        (memory : Option Rows) (reply : Reply S E) → IsFueledStep (answered on_row memory reply)
    unfolding answered IsFueledStep IsFueled
    answered-fueled memory reply = ground arith

    report-fueled :
        (memory : Option Rows) (s : S) (key : List ℕ) (cs in_memory : List Sequence)
        → IsFueledStep (
            report on_row x q exprs resolution before file_idxs memory_idxs memory s key cs
              in_memory)
    unfolding report IsFueledStep IsFueled
    report-fueled memory s key cs in_memory =
        elim (Option-cases
          (combine on_row x q exprs resolution before file_idxs memory_idxs cs in_memory)) [
            | inl e ↦ rw (report, e) tt
            | inr ((out, false), e) ↦ rw (report, e) tt
            | inr ((out, true), e) ↦ rw (report, e) (answered-fueled memory (on_row s key out none))
          ]

    after_columns-fueled :
        (memory : Option Rows) (s : S) (key : List ℕ) (cs : Columns) (in_memory : List Sequence)
        → IsFueledStep (
            after_columns on_row x q exprs resolution before file_idxs memory_idxs memory s key cs
              in_memory)
    unfolding after_columns IsFueledStep IsFueled
    after_columns-fueled memory s key (columns cs) in_memory =
        report-fueled memory s key cs in_memory
    after_columns-fueled memory s key (columns_panic cs) in_memory = tt
    after_columns-fueled memory s key (columns_error p cs) in_memory =
        elim (Option-cases (map_columns file_idxs 0 cs (replicate (length exprs) [], false))) [
          | inl e ↦ rw (after_columns, e) tt
          | inr (out, e) ↦ rw (after_columns, e) tt
        ]

    row_step-fueled :
        (memory : Option Rows) (s : S) (r : Row)
        → IsFueledStep (
            row_step on_row x q exprs resolution before file_idxs memory_idxs ctx raw_okay memory s
              r)
    unfolding row_step IsFueledStep
    row_step-fueled memory s r =
        let (memory', found) = remove_from ctx memory r.key in
        elim (Bool-cases (not (is_some found) && raw_okay)) [
          | inl e ↦ rw (row_step, e) (answered-fueled memory' (on_row s r.key [] (some r.raw)))
          | inr e ↦
              rw (row_step, e)
                (after_columns-fueled memory' s r.key (read_columns r.behind_key) (or_none found))
        ]

    -- With more fuel than the file has bytes, the loop ends otherwise than for lack of fuel.
    pub rows_from-ends :
        (fuel : ℕ) (file : List ℕ) (memory : Option Rows) (s : S)
        → length file < fuel
        → IsFueled (
            rows_from on_row x q exprs resolution before file_idxs memory_idxs ctx raw_okay fuel
              file memory s)
    unfolding rows_from IsFueled IsFueledStep
    rows_from-ends zero file memory s h = absurd (omega arith)
    rows_from-ends (suc fuel) [] memory s h = rw (rows_from, next_row-nil) tt
    rows_from-ends (suc fuel) (b ∷ file) memory s h = elim (Next-cases (next_row (b ∷ file))) [
      | inl e ↦ rw (rows_from, e) tt
      | inr (inl (p, e)) ↦ rw (rows_from, e) tt
      | inr (inr (inl e)) ↦ rw (rows_from, e) tt
      | inr (inr (inr (r, rest, e))) ↦
          (let l : length rest < fuel =
              omega (arith, rw (e, left_of-row r rest) at (left_of-next_row b file)) in
            elim (Step-cases (
              row_step on_row x q exprs resolution before file_idxs memory_idxs ctx raw_okay memory
                s r)) [
                  | inl (memory', s', f) ↦
                      rw (rows_from, e, f) (rows_from-ends fuel rest memory' s' l)
                  | inr (ending, f) ↦
                      rw (rows_from, e, f) (rw (f, IsFueledStep) at (row_step-fueled memory s r))
                ])
    ]
