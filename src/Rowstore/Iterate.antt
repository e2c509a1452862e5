-- ===== src/Rowstore/Iterate.antt =====
-- row_store.go: the loop of `fileStore.iterate` over the rows of a file, each of which is reported with what
-- is in memory for its key.
pub mod Ends
pub mod Written
pub mod Reports
pub mod Memory
pub mod Merged
use mathlib.Core.Option
use zenodb.Prelude.{
  ℕ, zero, suc, ◌+◌, ◌≡◌, Bool, true, false, ◌&&◌, ◌||◌, not, Option, none, some, List, [], ◌∷◌,
  ltb, length, replicate, if◌then◌else◌, ◌>>=◌,
}
use zenodb.Prelude.Int.{ℤ}
use zenodb.Prelude.Assoc.{Assoc}
use zenodb.Bytetree.{Edges, Tree, remove_edges}
use zenodb.Bytetree.Walk.{Answer, is_some, walk}
use zenodb.Encoding.Time.{Time}
use zenodb.Encoding.Until.{Quotients}
use zenodb.Expr.{Outside, Expr}
use zenodb.Offsets.{WalOffset, OffsetsBySource, advance}
use zenodb.Sequence.{Sequence}
use zenodb.Rowstore.Header.{source_key, read_offsets, info}
use zenodb.Rowstore.Rows.{
  RowError, Row, Next, end_of_file, row, broken, panicked, next_row, Columns, columns,
  columns_error, columns_panic, read_columns,
}
use zenodb.Rowstore.Fields.{out_idxs_for, same_fields, map_columns, merge_columns}

-- The rows in memory.
abbrev pub Rows : Type 0
Rows = Edges (List Sequence)

-- What `onRow` returns, beside its new state.
pub record Reply (S E : Type 0) : Type 0 where
  pub state : S
  pub more : Bool
  pub error : Option E

-- Why the iteration returns an error. In the header, it may also be that Go panics.
pub data Problem (E : Type 0) : Type 0 where
  header_problem : Problem E
  file_problem : RowError → Problem E
  row_problem : E → Problem E

-- How the loop over the file goes on after a row, and how it ends: `finished` at the end of the file,
-- `returned` before it.
pub data Ending (S E : Type 0) : Type 0 where
  finished : Option Rows → S → Ending S E
  returned : Option Rows → S → Option (Problem E) → Ending S E
  crashed : Ending S E
  out_of_fuel : Ending S E

pub data Step (S E : Type 0) : Type 0 where
  go_on : Option Rows → S → Step S E
  stop : Ending S E → Step S E

-- What is shown in memory at a key, removed there for the context.
unfoldable pub remove_from : ℕ → Option Rows → List ℕ → Option Rows × Option (List Sequence)
remove_from ctx none key = (none, none)
remove_from ctx (some es) key = let (es', found) = remove_edges ctx es key in (some es', found)

pub or_none : Option (List Sequence) → List Sequence
or_none none = []
or_none (some cs) = cs

-- `ctx` is the time at the start, which stands for this iteration in the tree.
module _ {S E : Type 0} (on_row : S → List ℕ → List Sequence → Option (List ℕ) → Reply S E) where
  unfoldable pub answered : Option Rows → Reply S E → Step S E
  answered memory reply =
      if not reply.more || is_some reply.error
      then stop (returned memory reply.state (Option.map row_problem reply.error))
      else go_on memory reply.state

  module _ (x : Outside) (q : Quotients) (exprs : List (Expr x)) (resolution : ℕ) (before : Time)
      (file_idxs memory_idxs : List (Option ℕ)) where
    -- The columns of the file, and then those in memory.
    pub combine : List Sequence → List Sequence → Option (List Sequence × Bool)
    combine cs in_memory = do
      out ← map_columns file_idxs 0 cs (replicate (length exprs) [], false)
      merge_columns x q exprs resolution before memory_idxs 0 in_memory out

    -- The end of a round, when the columns of the row were read: a row without an included column ends the
    -- loop.
    pub report : Option Rows → S → List ℕ → List Sequence → List Sequence → Step S E
    unfolding combine answered
    report memory s key cs in_memory = elim (combine cs in_memory) [
      | none ↦ stop crashed
      | some (out, false) ↦ stop (returned memory s none)
      | some (out, true) ↦ answered memory (on_row s key out none)
    ]

    -- An error comes after the columns before it, which may make Go panic first.
    pub after_columns : Option Rows → S → List ℕ → Columns → List Sequence → Step S E
    unfolding report
    after_columns memory s key (columns cs) in_memory = report memory s key cs in_memory
    after_columns memory s key (columns_panic cs) in_memory = stop crashed
    after_columns memory s key (columns_error e cs) in_memory =
        elim (map_columns file_idxs 0 cs (replicate (length exprs) [], false)) [
          | none ↦ stop crashed
          | some out ↦ stop (returned memory s (some (file_problem e)))
        ]

    -- A round of the loop behind the key of the row.
    pub row_step : ℕ → Bool → Option Rows → S → Row → Step S E
    unfolding remove_from or_none answered after_columns
    row_step ctx raw_okay memory s r =
        let (memory', found) = remove_from ctx memory r.key in
        if not (is_some found) && raw_okay
        then answered memory' (on_row s r.key [] (some r.raw))
        else after_columns memory' s r.key (read_columns r.behind_key) (or_none found)

    -- The loop.
    pub rows_from : ℕ → Bool → ℕ → List ℕ → Option Rows → S → Ending S E
    rows_from ctx raw_okay zero file memory s = out_of_fuel
    rows_from ctx raw_okay (suc fuel) file memory s = elim (next_row file) [
      | end_of_file ↦ finished memory s
      | broken e ↦ returned memory s (some (file_problem e))
      | panicked ↦ crashed
      | row r rest ↦ elim (row_step ctx raw_okay memory s r) [
        | go_on memory' s' ↦ rows_from ctx raw_okay fuel rest memory' s'
        | stop ending ↦ ending
      ]
    ]
