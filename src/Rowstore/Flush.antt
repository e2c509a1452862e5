-- ===== src/Rowstore/Flush.antt =====
-- row_store.go: `fileStore.flush`, which writes the rows of a file and of memory to a new file, and
-- `doProcessFlush` and `processFlush` around it.
pub mod Raw
use mathlib.Core.Option
use zenodb.Prelude.{
  ℕ, zero, suc, ◌+◌, ◌++◌, is_nil, ◌%◌, ◌==◌, ◌≡◌, Bool, true, false, ◌&&◌, ◌||◌, not, Option, none,
  some, List, [], ◌∷◌, ltb, length, replicate, if◌then◌else◌, ◌>>=◌,
}
use zenodb.Prelude.Int.{ℤ, pos, ltb_ℤ}
use zenodb.Prelude.Assoc.{Assoc}
use zenodb.Bytetree.{Edges, Tree, remove_edges}
use zenodb.Bytetree.Walk.{Answer, is_some, walk}
use zenodb.Encoding.Time.{Time}
use zenodb.Encoding.Until.{Quotients}
use zenodb.Expr.{Outside, Expr, encoded_width}
use zenodb.Offsets.{WalOffset, OffsetsBySource, advance}
use zenodb.Sequence.{Sequence}
use zenodb.Rowstore.Header.{write_header}
use zenodb.Rowstore.Rows.{
  do_write, RowError, Row, Next, end_of_file, row, broken, panicked, next_row, Columns, columns,
  columns_error, columns_panic, read_columns,
}
use zenodb.Rowstore.Fields.{out_idxs_for, same_fields, map_columns, merge_columns}
use zenodb.Rowstore.Iterate.{
  Rows, Reply, Problem, header_problem, file_problem, row_problem, Ending, finished, returned,
  crashed, out_of_fuel, rows_from,
}
use zenodb.Rowstore.Store.{Field, Memstore, texts_of, exprs_of, iterate}

-- What was written so far: the rows, the high-water mark, and how many rows the callback was given.
pub record Output : Type 0 where
  pub chunks : List (List ℕ)
  pub high : ℤ
  pub count : ℕ

-- The end of `flush`. The marks that come with an error are only logged, and left out.
pub data Flushed : Type 0 where
  flushed : List ℕ → ℤ → ℕ → Flushed
  flush_failed : Flushed

pub widths_of : {x : Outside} → List (Field x) → List ℕ
widths_of [] = []
widths_of {x} (f ∷ fs) = encoded_width x f.expr ∷ widths_of fs

pub concat_chunks : List (List ℕ) → List ℕ
concat_chunks [] = []
concat_chunks (c ∷ cs) = c ++ concat_chunks cs

pub no_output : Output
no_output = record { chunks = []; high = pos 0; count = 0 }

-- A row that is dropped is no chunk.
pub add_chunk : List ℕ → ℤ → Output → Output
add_chunk bytes h o = record {
  chunks = o.chunks ++ (if is_nil bytes then [] else bytes ∷ []);
  high = if ltb_ℤ o.high h then h else o.high;
  count = o.count + 1;
}

-- `write`. The state is none once Go panics in it, which ends the iteration.
module _ (q : Quotients) (resolution : ℕ) (before : Time) (widths : List ℕ)
    (passes : Option (List ℕ → Option Bool)) (should_sort : Bool) where
  pub write :
      Option Output → List ℕ → List Sequence → Option (List ℕ) → Reply (Option Output) (Unit {0})
  unfolding add_chunk
  write none key cs raw = record { state = none; more = false; error = none }
  write (some o) key cs raw =
      elim (do_write q resolution before widths passes should_sort key cs raw) [
        | none ↦ record { state = none; more = false; error = none }
        | some (bytes, h) ↦ record { state = some (add_chunk bytes h o); more = true; error = none }
      ]

-- What is behind the header, once the writer is closed. `sort` is the external sort's, of rows as byte strings.
pub out_rows : (List (List ℕ) → List (List ℕ)) → Bool → List (List ℕ) → List ℕ
unfolding concat_chunks
out_rows sort should_sort chunks = concat_chunks (if should_sort then sort chunks else chunks)

-- The end of `flush`, by the end of the iteration, for a header that was written.
unfoldable pub close :
    (List (List ℕ) → List (List ℕ)) → Bool → List ℕ → Ending (Option Output) (Unit {0}) → Flushed
unfolding out_rows
close sort should_sort header (finished m none) = flush_failed
close sort should_sort header (finished m (some o)) =
    flushed (header ++ out_rows sort should_sort o.chunks) o.high o.count
close sort should_sort header (returned m none none) = flush_failed
close sort should_sort header (returned m (some o) none) =
    flushed (header ++ out_rows sort should_sort o.chunks) o.high o.count
close sort should_sort header (returned m s (some p)) = flush_failed
close sort should_sort header crashed = flush_failed
close sort should_sort header out_of_fuel = flush_failed

module _ (w : WalOffset) (offset_of : List ℕ → w.Offset) (offset_size : ℕ) (x : Outside)
    (q : Quotients) (resolution : ℕ) (blank : List ℕ) (sort : List (List ℕ) → List (List ℕ)) where
  -- `fileStore.flush`, to the fields `asked` from a file store of the fields `fields`.
  unfoldable pub flush :
      Time
      → ℕ
      → ℕ
      → List (Field x)
      → Option (List ℕ → Option Bool)
      → List (Field x)
      → Assoc ℤ (List ℕ)
      → Memstore
      → Bool
      → Bool
      → Option (List ℕ)
      → Option (List ℕ)
      → Flushed
  unfolding close write widths_of no_output
  flush before ctx version fields passes asked offsets ms should_sort disallow_raw file
        offset_file =
      close sort should_sort (write_header offset_size offsets (texts_of asked))
        (iterate w offset_of offset_size
          (write q resolution before (widths_of asked) passes should_sort) x q resolution before ctx
          version blank fields asked (some ms) (not disallow_raw) file offset_file
          (some no_output)).1
