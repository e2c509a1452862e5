-- ===== src/Rowstore/Store.antt =====
-- row_store.go: `fileStore.iterate`, which reports the rows of a file and then what is left in memory.
pub mod Read
use mathlib.Core.Option
use zenodb.Prelude.{
  ℕ, zero, suc, ◌+◌, ◌≡◌, Bool, true, false, ◌&&◌, ◌||◌, not, Option, none, some, List, [], ◌∷◌,
  ltb, length, replicate, if◌then◌else◌, ◌>>=◌,
}
use zenodb.Prelude.Int.{ℤ}
use zenodb.Prelude.Assoc.{Assoc}
use zenodb.Bytetree.{Edges, Tree, remove_edges}
use zenodb.Bytetree.Walk.{Answer, is_some, walk}
use zenodb.Encoding.Time.{Time}
use zenodb.Encoding.Until.{Quotients}
use zenodb.Expr.{Outside, Expr}
use zenodb.Offsets.{WalOffset, OffsetsBySource, advance}
use zenodb.Sequence.{Sequence}
use zenodb.Rowstore.Header.{source_key, read_offsets, info}
use zenodb.Rowstore.Rows.{
  RowError, Row, Next, end_of_file, row, broken, panicked, next_row, Columns, columns,
  columns_error, columns_panic, read_columns,
}
use zenodb.Rowstore.Fields.{out_idxs_for, same_fields, map_columns, merge_columns}
use zenodb.Rowstore.Iterate.{
  Rows, Reply, Problem, header_problem, file_problem, row_problem, Ending, finished, returned,
  crashed, out_of_fuel, rows_from,
}

-- A field: its text, and its expression.
pub record Field (x : Outside) : Type 0 where
  pub text : List ℕ
  pub expr : Expr x

-- `memstore`. The offsets are bytes, as they are written.
pub record Memstore : Type 0 where
  pub fields : List (List ℕ)
  pub tree : Tree (List Sequence)
  pub offsets : Option (Assoc ℤ (List ℕ))
  pub offset_changed : Bool

-- What follows the file.
module _ {S E : Type 0} (on_row : S → List ℕ → List Sequence → Option (List ℕ) → Reply S E) where
  -- The rest of memory. An error of the callback ends the walk and is dropped. A panic of `Merge` also
  -- ends the walk, as the error `some none`.
  module _ (x : Outside) (q : Quotients) (exprs : List (Expr x)) (resolution : ℕ) (before : Time)
      (memory_idxs : List (Option ℕ)) where
    unfoldable pub rest_row : S → List ℕ → List Sequence → Answer S (Option E)
    rest_row s key in_memory =
        elim (merge_columns x q exprs resolution before memory_idxs 0 in_memory
          (replicate (length exprs) [], false)) [
            | none ↦ record { state = s; more = false; keep = false; error = some none }
            | some out ↦
                (let reply = on_row s key out.0 none in
                  record {
                    state = reply.state;
                    more = reply.more;
                    keep = false;
                    error = Option.map some reply.error;
                  })
          ]

    unfoldable pub rest_of_memory : ℕ → Tree (List Sequence) → S → Ending S E
    unfolding rest_row
    rest_of_memory ctx tree s = elim (walk ctx rest_row tree s) [
      | none ↦ out_of_fuel
      | some (root, s', none) ↦ finished (some root) s'
      | some (root, s', some none) ↦ crashed
      | some (root, s', some (some e)) ↦ finished (some root) s'
    ]

-- The fields asked for, or else those of the store.
unfoldable pub or_default : {A : Type 0} → List A → List A → List A
or_default default [] = default
or_default default (f ∷ fs) = f ∷ fs

unfoldable pub texts_of : {x : Outside} → List (Field x) → List (List ℕ)
texts_of [] = []
texts_of (f ∷ fs) = f.text ∷ texts_of fs

pub exprs_of : {x : Outside} → List (Field x) → List (Expr x)
exprs_of [] = []
exprs_of (f ∷ fs) = f.expr ∷ exprs_of fs

-- The bytes of the offsets, as offsets.
module _ (w : WalOffset) (offset_of : List ℕ → w.Offset) (offset_size : ℕ) where
  pub offsets_of : Assoc ℤ (List ℕ) → Assoc ℤ w.Offset
  offsets_of [] = []
  offsets_of ((source, bytes) ∷ entries) = (source, offset_of bytes) ∷ offsets_of entries

  -- Without a file, the offsets of the file of offsets, if it can be used. `none` is a panic.
  unfoldable pub saved_offsets : Option (List ℕ) → Option (OffsetsBySource w ℤ)
  unfolding offsets_of
  saved_offsets none = some none
  saved_offsets (some o) =
      if ltb (length o) offset_size
      then some none
      else (read_offsets offset_size (if ltb offset_size (length o) then 5 else 4) o >>= λ r.
          some (some (offsets_of r.0)))

  -- The offsets returned at the end of memory.
  pub advanced : Option Memstore → OffsetsBySource w ℤ → OffsetsBySource w ℤ
  unfolding offsets_of
  advanced none offsets = offsets
  advanced (some ms) offsets = advance w offsets (Option.map offsets_of ms.offsets)

  -- `fileStore.iterate`: the offsets and the end. `file` and `offset_file` are the contents of the files
  -- that are there; `ms` is the memstore, if it takes part.
  module _ {S E : Type 0} (on_row : S → List ℕ → List Sequence → Option (List ℕ) → Reply S E)
      (x : Outside) (q : Quotients) (resolution : ℕ) (before : Time) (ctx : ℕ) (version : ℕ)
      (blank : List ℕ) (fields : List (Field x)) where
    -- What follows the file.
    unfoldable pub after_file :
        List (Field x)
        → Option Memstore
        → OffsetsBySource w ℤ
        → Ending S E
        → OffsetsBySource w ℤ × Ending S E
    unfolding advanced rest_of_memory exprs_of texts_of
    after_file outs (some ms) offsets (finished (some root) s) = (
      advanced (some ms) offsets,
      rest_of_memory on_row x q (exprs_of outs) resolution before
          (out_idxs_for (texts_of outs) ms.fields) ctx (record ms.tree { root = root }) s,
    )
    after_file outs ms offsets ending = (offsets, ending)

    unfoldable pub iterate :
        List (Field x)
        → Option Memstore
        → Bool
        → Option (List ℕ)
        → Option (List ℕ)
        → S
        → OffsetsBySource w ℤ × Ending S E
    unfolding after_file saved_offsets or_default texts_of exprs_of
    iterate asked ms raw_okay none offset_file s = elim (saved_offsets offset_file) [
      | none ↦ (none, crashed)
      | some offsets ↦
          after_file (or_default fields asked) ms offsets
            (finished (Option.map (λ m. m.tree.root) ms) s)
    ]
    iterate asked ms raw_okay (some file) offset_file s =
        let outs = or_default fields asked in
        elim (info offset_size version blank (texts_of fields) file) [
          | none ↦ (none, returned (Option.map (λ m. m.tree.root) ms) s (some header_problem))
          | some i ↦
              (let offsets = some (offsets_of i.offsets) in
                after_file outs ms offsets (
                  rows_from on_row x q (exprs_of outs) resolution before
                    (out_idxs_for (texts_of outs) i.fields)
                    (out_idxs_for (texts_of outs) (elim ms [ none ↦ [] | some m ↦ m.fields ])) ctx
                    (raw_okay && same_fields i.fields (texts_of outs)) (1 + length i.rows) i.rows
                    (Option.map (λ m. m.tree.root) ms) s))
        ]
