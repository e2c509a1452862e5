-- ===== src/Rowstore/Iterate/Written.antt =====
-- row_store.go: the loop over a file of rows that were written, as a loop over these rows.
use zenodb.Prelude.{
  ℕ, zero, suc, ◌^◌, ◌<◌, ◌≡◌, refl, Bool, ◌&&◌, not, Option, some, List, [], ◌∷◌, ◌++◌, arith,
  length, length-append, if◌then◌else◌, inl, inr,
}
use zenodb.Bytetree.Walk.{is_some}
use zenodb.Encoding.Time.{Time}
use zenodb.Encoding.Until.{Quotients}
use zenodb.Expr.{Outside, Expr}
use zenodb.Sequence.{Sequence}
use zenodb.Rowstore.Rows.{row_length, columns, read_columns, row_bytes}
use zenodb.Rowstore.Rows.Remaining.{next_row-nil}
use zenodb.Rowstore.Rows.RoundTrip.{
  AreShort, length-row_bytes, row_length-least, written_row, next_row-row_bytes,
}
use zenodb.Rowstore.Iterate.Ends.{Step-cases}
use zenodb.Rowstore.Iterate.{
  Rows, Reply, Ending, finished, Step, go_on, stop, remove_from, or_none, answered, report,
  after_columns, row_step, rows_from,
}

-- A key and its columns.
abbrev pub Entry : Type 0
Entry = List ℕ × List Sequence

unfoldable pub rows_bytes : List Entry → List ℕ
rows_bytes [] = []
rows_bytes ((key, cs) ∷ rows) = row_bytes key cs ++ rows_bytes rows

-- The key and the number of columns fit into 16 bits, the lengths of the columns into 63, and that of the row
-- into 64.
abbrev pub AreRows : List Entry → Type 0
AreRows [] = Unit {0}
AreRows ((key, cs) ∷ rows) =
    (length key < 2 ^ 16)
    × (length cs < 2 ^ 16)
    × AreShort cs
    × (row_length key cs < 2 ^ 64)
    × AreRows rows

module _ {S E : Type 0} (on_row : S → List ℕ → List Sequence → Option (List ℕ) → Reply S E)
    (x : Outside) (q : Quotients) (exprs : List (Expr x)) (resolution : ℕ) (before : Time)
    (file_idxs memory_idxs : List (Option ℕ)) (ctx : ℕ) (raw_okay : Bool) where
  -- A round on a row that was written.
  unfoldable pub entry_step : Option Rows → S → Entry → Step S E
  entry_step memory s (key, cs) =
      let (memory', found) = remove_from ctx memory key in
      if not (is_some found) && raw_okay
      then answered on_row memory' (on_row s key [] (some (row_bytes key cs)))
      else report on_row x q exprs resolution before file_idxs memory_idxs memory' s key cs
          (or_none found)

  -- The loop over rows that are no bytes.
  unfoldable pub over_rows : List Entry → Option Rows → S → Ending S E
  over_rows [] memory s = finished memory s
  over_rows (r ∷ rows) memory s = elim (entry_step memory s r) [
    | go_on memory' s' ↦ over_rows rows memory' s'
    | stop ending ↦ ending
  ]

  pub row_step-written_row :
      (memory : Option Rows) (s : S) (key : List ℕ) (cs : List Sequence)
      → read_columns (written_row key cs).behind_key ≡ columns cs
      → row_step on_row x q exprs resolution before file_idxs memory_idxs ctx raw_okay memory s
          (written_row key cs)
        ≡ entry_step memory s (key, cs)
  unfolding row_step entry_step after_columns written_row
  row_step-written_row memory s key cs e = rw (row_step, e) refl

  -- The loop over the bytes of rows that were written, with more fuel than there are bytes, is the loop over
  -- these rows.
  pub rows_from-rows_bytes :
      (fuel : ℕ) (rows : List Entry) (memory : Option Rows) (s : S)
      → AreRows rows
      → length (rows_bytes rows) < fuel
      → rows_from on_row x q exprs resolution before file_idxs memory_idxs ctx raw_okay fuel
          (rows_bytes rows)
          memory
          s
        ≡ over_rows rows memory s
  unfolding rows_from over_rows rows_bytes
  rows_from-rows_bytes zero rows memory s h l = absurd (omega arith)
  rows_from-rows_bytes (suc fuel) [] memory s h l = rw (rows_from, next_row-nil) refl
  rows_from-rows_bytes (suc fuel) ((key, cs) ∷ rows) memory s (k, n, c, b, h) l =
      let (e, f) = next_row-row_bytes key cs (rows_bytes rows) k n c b in
      let l' : length (rows_bytes rows) < fuel = omega (
        arith,
        length-append (row_bytes key cs) (rows_bytes rows),
        length-row_bytes key cs,
        row_length-least key cs,
      ) in
      rw (rows_from, e, row_step-written_row memory s key cs f)
        (elim (Step-cases (entry_step memory s (key, cs))) [
          | inl (memory', s', g) ↦
              rw (over_rows, g) (rows_from-rows_bytes fuel rows memory' s' h l')
          | inr (ending, g) ↦ rw (over_rows, g) refl
        ])
