-- ===== src/Rowstore/Process.antt =====
-- row_store.go: `processInserts`, which keeps the rows in memory and flushes them to files.
pub mod Steps
pub mod InMemory
pub mod Restart
mod Tests
use mathlib.Core.Option
use zenodb.Prelude.{
  ℕ, zero, suc, ◌+◌, ◌%◌, ◌==◌, ◌≡◌, Bool, true, false, ◌&&◌, Option, none, some, List, [], ◌∷◌,
  length, replicate, if◌then◌else◌, ◌>>=◌,
}
use zenodb.Prelude.Int.{ℤ, pos, ltb_ℤ}
use zenodb.Prelude.Assoc.{Assoc, put}
use zenodb.Bytetree.{Tree, empty, update}
use zenodb.Bytetree.Lookup.{at_path}
use zenodb.Encoding.Time.{Time}
use zenodb.Encoding.Until.{Quotients}
use zenodb.Expr.{Outside, Expr, Params}
use zenodb.Offsets.{WalOffset}
use zenodb.Sequence.{Sequence}
use zenodb.Sequence.Values.{update_value}
use zenodb.Rowstore.Header.{source_key, write_offsets}
use zenodb.Rowstore.Store.{Field, Memstore, texts_of, exprs_of}
use zenodb.Rowstore.Flush.{Flushed, flushed, flush_failed, flush}

-- `rowStore`, with its `fileStore`: the fields, the version and the contents of its file, if there is one.
-- `disk` is the table's high-water mark on disk, which a flush raises.
pub record RowStore (x : Outside) : Type 0 where
  pub fields : List (Field x)
  pub memory : Memstore
  pub file_fields : List (Field x)
  pub version : ℕ
  pub file : Option (List ℕ)
  pub offset_file : Option (List ℕ)
  pub flush_count : ℕ
  pub disk : ℤ

-- `insert`: the time and the values that `vals` holds, and the key, which is none if there is no row.
pub record Insert (x : Outside) : Type 0 where
  pub key : Option (List ℕ)
  pub ts : Time
  pub params : Params x
  pub metadata : Option x.Metadata
  pub offset : List ℕ
  pub source : ℤ

-- What an attempt at a flush finds outside: `truncateBefore`, the time that is the context of its
-- iteration, and whether it is the table's turn to sort.
pub record Clock : Type 0 where
  pub before : Time
  pub ctx : ℕ
  pub turn : Bool

-- The clocks of the attempts that `processFlush` makes.
pub record Clocks : Type 0 where
  pub first : Clock
  pub second : Clock
  pub third : Clock

-- What comes over the channels of `processInserts`, with the clocks of the attempts at a flush.
pub data Event (x : Outside) : Type 0 where
  inserted : Insert x → Event x
  due : Clocks → Event x
  forced : Clocks → Event x
  fields_changed : Clocks → List (Field x) → Event x

pub new_memstore : {x : Outside} → List (Field x) → Option (Assoc ℤ (List ℕ)) → Memstore
new_memstore fields offsets = record {
  fields = texts_of fields;
  tree = empty;
  offsets = offsets;
  offset_changed = false;
}

pub or_empty : Option (Assoc ℤ (List ℕ)) → Assoc ℤ (List ℕ)
or_empty none = []
or_empty (some offsets) = offsets

-- `added` counts the bytes that a change of a row adds, by the capacities of its columns.
module _ (x : Outside) (q : Quotients) (resolution : ℕ)
    (added : List Sequence → List Sequence → ℤ) where
  -- The loop of `node.doUpdate` over the columns, where nothing is cut off at `asOf`.
  pub update_columns : Insert x → List (Expr x) → List Sequence → Option (List Sequence)
  update_columns i [] cs = some []
  update_columns i (e ∷ es) [] = none
  update_columns i (e ∷ es) (c ∷ cs) = do
    u ← update_value x i.params i.metadata q i.ts e resolution 0 c
    us ← update_columns i es cs
    some (u ∷ us)

  pub columns_or_blank : List (Expr x) → Option (List Sequence) → List Sequence
  columns_or_blank es none = replicate (length es) []
  columns_or_blank es (some cs) = cs

  -- `ms.tree.Update`: the new columns are those of the row that is at the key. `none` is a panic.
  pub update_tree :
      List (Expr x) → Insert x → List ℕ → Tree (List Sequence) → Option (Tree (List Sequence))
  unfolding update_columns columns_or_blank
  update_tree es i key tree = do
    let old = columns_or_blank es (at_path tree.root key)
    cs ← update_columns i es old
    some (update (λ d. (cs, added old cs)) key tree).0

  -- The first case of the loop. A write to a nil map panics. The tree has the expressions of the fields
  -- that the memstore was made with, `es`.
  pub insert : List (Expr x) → Insert x → Memstore → Option Memstore
  unfolding update_tree
  insert es i ms = do
    offsets ← ms.offsets
    let ms' = record ms { offsets = some (put i.source i.offset offsets); offset_changed = true }
    elim i.key [
      | none ↦ some ms'
      | some key ↦ (update_tree es i key ms.tree >>= λ t. some (record ms' { tree = t }))
    ]

module _ (w : WalOffset) (offset_of : List ℕ → w.Offset) (offset_size : ℕ) (x : Outside)
    (q : Quotients) (resolution : ℕ) (blank : List ℕ) (sort : List (List ℕ) → List (List ℕ)) where
  -- `doProcessFlush`, where the files can be written: `none` is the failure that it allows.
  pub do_process_flush : Clock → Bool → RowStore x → Option (RowStore x)
  unfolding new_memstore or_empty
  do_process_flush clock allow_sort rs =
      elim (flush w offset_of offset_size x q resolution blank sort clock.before clock.ctx
        rs.version rs.file_fields none rs.fields (or_empty rs.memory.offsets) rs.memory
        (allow_sort && clock.turn) (rs.flush_count % 10 == 9) rs.file rs.offset_file) [
          | flush_failed ↦ none
          | flushed bytes high count ↦ some (record rs {
            file_fields = rs.fields;
            version = 5;
            file = some bytes;
            memory = new_memstore rs.fields rs.memory.offsets;
            flush_count = rs.flush_count + 1;
            disk = if ltb_ℤ rs.disk high then high else rs.disk;
          })
        ]

  -- The loop of `processFlush`, with the clocks of the attempts that are left. When the last fails, the store
  -- panics. What a failed attempt removed in memory is left out, since it was for its context only.
  pub attempts : List Clock → Bool → RowStore x → Option (RowStore x)
  unfolding do_process_flush
  attempts [] allow_sort rs = none
  attempts (clock ∷ clocks) allow_sort rs =
      let again = attempts clocks allow_sort (record rs { flush_count = rs.flush_count + 1 }) in
      elim (do_process_flush clock allow_sort rs) [ some rs' ↦ some rs' | none ↦ again ]

  -- `processFlush`, which makes three attempts.
  pub process_flush : Clocks → Bool → RowStore x → Option (RowStore x)
  unfolding attempts
  process_flush clocks = attempts (clocks.first ∷ clocks.second ∷ clocks.third ∷ [])

  -- `flush` in `processInserts`, where the file of offsets can be written; the second part says whether there
  -- is a new memstore.
  pub flush_memory : Clocks → Bool → RowStore x → Option (RowStore x × Bool)
  unfolding process_flush or_empty
  flush_memory clocks allow_sort rs =
      if rs.memory.tree.size == 0
      then some (
        (if rs.memory.offset_changed
            then record rs {
              offset_file = some (write_offsets (or_empty rs.memory.offsets));
              memory = record rs.memory { offset_changed = false };
            }
            else rs),
        false,
      )
      else (process_flush clocks allow_sort rs >>= λ rs'. some (rs', true))

  -- `fields := <-rs.fieldUpdates`.
  pub update_fields : Clocks → List (Field x) → RowStore x → Option (RowStore x)
  unfolding flush_memory new_memstore
  update_fields clocks fields rs = do
    r ← flush_memory clocks false (record rs { fields = fields })
    some (if r.1 then r.0 else record r.0 { memory = new_memstore fields r.0.memory.offsets })

  module _ (added : List Sequence → List Sequence → ℤ) where
    -- A round of the loop: which channel had something. Stopping flushes as `forced` does, and ends the loop.
    pub step : Event x → RowStore x → Option (RowStore x)
    unfolding insert flush_memory update_fields
    step (inserted i) rs = do
      ms ← insert x q resolution added (exprs_of rs.fields) i rs.memory
      some (record rs { memory = ms })
    step (due clocks) rs = (flush_memory clocks false rs >>= λ r. some r.0)
    step (forced clocks) rs = (flush_memory clocks true rs >>= λ r. some r.0)
    step (fields_changed clocks fields) rs = update_fields clocks fields rs

    -- Round after round.
    pub run : List (Event x) → RowStore x → Option (RowStore x)
    unfolding step
    run [] rs = some rs
    run (e ∷ es) rs = step e rs >>= λ rs'. run es rs'
