-- ===== src/Rowstore/Flush/Raw.antt =====
-- row_store.go: `flush` of rows that may go from file to file as they stand.
use zenodb.Prelude.{
  ℕ, suc, ◌+◌, ◌++◌, is_nil, ◌≡◌, ◌<◌, ◌≤◌, refl, ap, sym, ◌∙◌, arith, Bool, true, false, Option,
  none, some, List, [], ◌∷◌, length, if◌then◌else◌,
}
use zenodb.Prelude.Int.{pos, ltb_ℤ}
use zenodb.Bytetree.{remove_edges}
use zenodb.Encoding.Time.{Time}
use zenodb.Encoding.Until.{Quotients}
use zenodb.Expr.{Outside, Expr}
use zenodb.Sequence.{Sequence}
use zenodb.Rowstore.Rows.{meets_filter, write_row, do_write, row_bytes, truncate_columns}
use zenodb.Rowstore.Iterate.{Rows, finished, rows_from}
use mathlib.Core.List.{append_assoc, append-nil}
use zenodb.Bytetree.Contexts.{seen, seen-remove_edges, remove_edges-found}
use zenodb.Rowstore.Rows.RoundTrip.{length-row_bytes, row_length-least}
use zenodb.Rowstore.Iterate.{remove_from, answered}
use zenodb.Rowstore.Iterate.Written.{
  Entry, rows_bytes, AreRows, entry_step, over_rows, rows_from-rows_bytes,
}
use zenodb.Rowstore.Flush.{Output, concat_chunks, no_output, add_chunk, write}

-- The iteration sees none of the keys of the rows in memory.
abbrev pub AreUnseen : ℕ → Rows → List Entry → Type 0
AreUnseen ctx es [] = Unit {0}
AreUnseen ctx es ((key, cs) ∷ rows) = (seen ctx es key ≡ none) × AreUnseen ctx es rows

AreUnseen-remove :
    (ctx : ℕ) (es : Rows) (key : List ℕ) (rows : List Entry)
    → AreUnseen ctx es rows
    → AreUnseen ctx (remove_edges ctx es key).0 rows
AreUnseen-remove ctx es key [] h = tt
AreUnseen-remove ctx es key ((j, cs) ∷ rows) h =
    (seen-remove_edges ctx ctx es key j ∙ ground (arith, h.0), AreUnseen-remove ctx es key rows h.1)

-- Memory after `Remove` of the keys of the rows.
unfoldable pub remove_keys : ℕ → Rows → List Entry → Rows
remove_keys ctx es [] = es
remove_keys ctx es ((key, cs) ∷ rows) = remove_keys ctx (remove_edges ctx es key).0 rows

pub chunks_of : List Entry → List (List ℕ)
chunks_of [] = []
chunks_of ((key, cs) ∷ rows) = row_bytes key cs ∷ chunks_of rows

concat_chunks-of : (rows : List Entry) → concat_chunks (chunks_of rows) ≡ rows_bytes rows
unfolding concat_chunks chunks_of rows_bytes
concat_chunks-of [] = refl
concat_chunks-of ((key, cs) ∷ rows) = ap (λ l. row_bytes key cs ++ l) (concat_chunks-of rows)

wrote : List (List ℕ) → ℕ → Output
wrote chunks count = record { chunks = chunks; high = pos 0; count = count }

is_nil-long : (l : List ℕ) → 8 ≤ length l → is_nil l ≡ false
is_nil-long [] h = absurd (omega arith)
is_nil-long (b ∷ l) h = refl

is_nil-row_bytes : (key : List ℕ) (cs : List Sequence) → is_nil (row_bytes key cs) ≡ false
is_nil-row_bytes key cs =
    is_nil-long (row_bytes key cs) (omega (arith, length-row_bytes key cs, row_length-least key cs))

add_chunk-wrote :
    (bytes : List ℕ) (chunks : List (List ℕ)) (count : ℕ)
    → add_chunk bytes (pos 0) (wrote chunks count)
      ≡ wrote (chunks ++ (if is_nil bytes then [] else bytes ∷ [])) (count + 1)
unfolding add_chunk wrote ltb_ℤ
add_chunk-wrote bytes chunks count = refl

-- The chunks after the rows: those of the rows, but not when sorting.
kept : Bool → List (List ℕ) → List (List ℕ) → List (List ℕ)
kept should_sort chunks more = if should_sort then chunks else chunks ++ more

kept-nil : (should_sort : Bool) (chunks : List (List ℕ)) → kept should_sort chunks [] ≡ chunks
unfolding kept
kept-nil true chunks = refl
kept-nil false chunks = append-nil chunks

kept-kept :
    (should_sort : Bool) (chunks : List (List ℕ)) (c : List ℕ) (cs : List (List ℕ))
    → kept should_sort (kept should_sort chunks (c ∷ [])) cs ≡ kept should_sort chunks (c ∷ cs)
unfolding kept
kept-kept true chunks c cs = refl
kept-kept false chunks c cs = append_assoc chunks (c ∷ []) cs

module _ (x : Outside) (q : Quotients) (resolution : ℕ) (before : Time) (widths : List ℕ)
    (ctx : ℕ) where
  -- The callback on a row that comes raw: it copies the row, but when sorting it drops the row.
  write-raw :
      (should_sort : Bool) (chunks : List (List ℕ)) (count : ℕ) (key : List ℕ) (cs : List Sequence)
      → write q resolution before widths none should_sort
          (some (wrote chunks count))
          key
          []
          (some (row_bytes key cs))
        ≡ record {
          state = some (wrote (kept should_sort chunks (row_bytes key cs ∷ [])) (count + 1));
          more = true;
          error = none;
        }
  unfolding write do_write write_row meets_filter truncate_columns kept
  write-raw true chunks count key cs = rw (add_chunk-wrote [] chunks count, append-nil) refl
  write-raw false chunks count key cs =
      rw (add_chunk-wrote (row_bytes key cs) chunks count, is_nil-row_bytes key cs) refl

  module _ (exprs : List (Expr x)) (file_idxs memory_idxs : List (Option ℕ))
      (should_sort : Bool) where
    over_rows-write :
        (rows : List Entry) (es : Rows) (chunks : List (List ℕ)) (count : ℕ)
        → AreUnseen ctx es rows
        → over_rows
            (write q resolution before widths none should_sort)
            x
            q
            exprs
            resolution
            before
            file_idxs
            memory_idxs
            ctx
            true
            rows
            (some es)
            (some (wrote chunks count))
          ≡ finished
              (some (remove_keys ctx es rows))
              (some (wrote (kept should_sort chunks (chunks_of rows)) (count + length rows)))
    unfolding over_rows entry_step remove_keys chunks_of remove_from answered
    over_rows-write [] es chunks count h =
        let n : count ≡ count + 0 = omega arith in
        ap (λ o. finished (some es) (some o))
          (ap (λ c. wrote c count) (sym (kept-nil should_sort chunks)) ∙ ap (wrote _) n)
    over_rows-write ((key, cs) ∷ rows) es chunks count (h, g) =
        let n : count + 1 + length rows ≡ count + suc (length rows) = omega arith in
        rw
          (
            over_rows,
            entry_step,
            remove_from,
            remove_edges-found,
            h,
            answered,
            write-raw should_sort chunks count key cs,
          )
          (over_rows-write rows (remove_edges ctx es key).0 _ (count + 1)
              (AreUnseen-remove ctx es key rows g)
            ∙ ap (λ o. finished (some (remove_keys ctx (remove_edges ctx es key).0 rows)) (some o))
                (ap (λ c. wrote c (count + 1 + length rows))
                    (kept-kept should_sort chunks (row_bytes key cs) (chunks_of rows))
                  ∙ ap (wrote _) n))

    -- Where raw rows are allowed and the iteration sees none of their keys in memory, the loop of a flush
    -- without a filter, over a file of rows that were written, writes each row as it stands, in order, and
    -- counts it; but if the flush sorts, it counts the rows and writes none of them.
    pub rows_from-write :
        (fuel : ℕ) (rows : List Entry) (es : Rows)
        → AreUnseen ctx es rows
        → AreRows rows
        → length (rows_bytes rows) < fuel
        → rows_from
            (write q resolution before widths none should_sort)
            x
            q
            exprs
            resolution
            before
            file_idxs
            memory_idxs
            ctx
            true
            fuel
            (rows_bytes rows)
            (some es)
            (some no_output)
          ≡ finished (some (remove_keys ctx es rows)) (
              some (record {
                chunks = if should_sort then [] else chunks_of rows;
                high = pos 0;
                count = length rows;
              }))
    unfolding no_output wrote kept
    rows_from-write fuel rows es u r l =
        let n : 0 + length rows ≡ length rows = omega arith in
        rows_from-rows_bytes (write q resolution before widths none should_sort) x q exprs
          resolution before file_idxs memory_idxs ctx true fuel rows (some es) (some no_output) r l
        ∙ over_rows-write rows es [] 0 u
        ∙ ap
            (λ c.
              finished (some (remove_keys ctx es rows))
                (some (wrote (kept should_sort [] (chunks_of rows)) c)))
            n
