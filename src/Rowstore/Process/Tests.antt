-- ===== src/Rowstore/Process/Tests.antt =====
-- row_store.go: a small row store, and the theorems at concrete inputs.
use zenodb.Prelude.{
  ℕ, ◌+◌, ◌-◌, ◌/◌, ◌≡◌, refl, true, false, none, some, List, [], ◌∷◌, arith, list_eq, length,
  if◌then◌else◌,
}
use zenodb.Prelude.Int.{ℤ, pos}
use zenodb.Prelude.Assoc.{Assoc, get, put}
use zenodb.Bytetree.{node, none_left, edge, empty}
use zenodb.Bytetree.Prefix.{strip}
use zenodb.Bytetree.Contexts.{seen}
use zenodb.Bytetree.Walk.{walk, walk_from, count_edges, targets, shown}
use zenodb.Encoding.Binary.{put_uint64}
use zenodb.Encoding.Until.{Quotients}
use zenodb.Expr.Samples.{words, sum_a, point}
use zenodb.Offsets.Samples.{numbers}
use zenodb.Sequence.{Sequence}
use zenodb.Rowstore.Header.{same_source, source_key, write_offsets, join, known_field}
use zenodb.Rowstore.Header.Offsets.{AreOffsets}
use zenodb.Rowstore.Header.Fields.{AreFields}
use zenodb.Rowstore.Rows.{row_length, lengths_bytes, columns_bytes}
use zenodb.Rowstore.Iterate.{Rows, rows_from, finished}
use zenodb.Rowstore.Iterate.Written.{Entry, AreRows, rows_bytes}
use zenodb.Rowstore.Iterate.Memory.{listed_key, rows_from-seen}
use zenodb.Rowstore.Store.{
  Field, texts_of, rest_of_memory, after_file, iterate, saved_offsets, or_default,
}
use zenodb.Rowstore.Flush.{close, flush, write, no_output}
use zenodb.Rowstore.Flush.Raw.{AreUnseen, remove_keys, rows_from-write}
use zenodb.Rowstore.Process.{
  RowStore, Insert, Clock, Clocks, inserted, due, new_memstore, or_empty, insert, do_process_flush,
  attempts, process_flush, flush_memory, step, run,
}
use zenodb.Rowstore.Process.Steps.{IsStored, run-IsStored}
use zenodb.Rowstore.Process.Restart.{IsRestartable, process_flush-restart}

abbrev quotients : Quotients
quotients = record {
  floor = λ a b. a / b;
  ceil = λ a b. (a + (b - 1)) / b;
  floor_exact = λ a b h i j. refl;
  ceil_exact = λ a b h i j. refl;
}

abbrev first_byte : List ℕ → ℕ
first_byte [] = 0
first_byte (b ∷ bytes) = b

abbrev same_order : List (List ℕ) → List (List ℕ)
same_order chunks = chunks

abbrev no_bytes : List Sequence → List Sequence → ℤ
no_bytes old new = pos 0

abbrev field_a : Field words
field_a = record { text = b'a' ∷ []; expr = sum_a }

abbrev offsets : Assoc ℤ (List ℕ)
offsets = (pos 3, 1 ∷ 2 ∷ []) ∷ []

abbrev rows : List Entry
rows = (7 ∷ [], (9 ∷ 9 ∷ []) ∷ []) ∷ []

-- A row of the key 1 in memory.
abbrev in_memory : Rows
in_memory = edge (1 ∷ []) (node (1 ∷ []) none_left (some ((4 ∷ []) ∷ [])) []) none_left

abbrev new_store : RowStore words
new_store = record {
  fields = field_a ∷ [];
  memory = new_memstore (field_a ∷ []) (some offsets);
  file_fields = field_a ∷ [];
  version = 5;
  file = none;
  offset_file = none;
  flush_count = 0;
  disk = pos 0;
}

abbrev clock : Clock
clock = record { before = 0; ctx = 5; turn = false }

abbrev clocks : Clocks
clocks = record { first = clock; second = clock; third = clock }

rows-AreRows : AreRows rows
unfolding row_length lengths_bytes columns_bytes put_uint64
rows-AreRows = (omega arith, omega arith, (omega arith, tt), omega arith, tt)

rows-AreUnseen : AreUnseen 5 in_memory rows
unfolding seen strip
rows-AreUnseen = (refl, tt)

rows_from-write_example :
    rows_from
      (write quotients 1 0 (9 ∷ []) none true)
      words
      quotients
      (sum_a ∷ [])
      1
      0
      (some 0 ∷ [])
      (some 0 ∷ [])
      5
      true
      (1 + length (rows_bytes rows))
      (rows_bytes rows)
      (some in_memory)
      (some no_output)
    ≡ finished
        (some (remove_keys 5 in_memory rows))
        (some (record { chunks = []; high = pos 0; count = 1 }))
rows_from-write_example =
    rows_from-write words quotients 1 0 (9 ∷ []) 5 (sum_a ∷ []) (some 0 ∷ []) (some 0 ∷ []) true
      (1 + length (rows_bytes rows)) rows in_memory rows-AreUnseen rows-AreRows (omega arith)

rows_from-seen_example :
    (es' : Rows) × (some (remove_keys 5 in_memory rows) ≡ some es')
    × ((j : List ℕ) → seen 5 es' j ≡ (if listed_key j rows then none else seen 5 in_memory j))
rows_from-seen_example =
    rows_from-seen (write quotients 1 0 (9 ∷ []) none true) words quotients (sum_a ∷ []) 1 0
      (some 0 ∷ []) (some 0 ∷ []) 5 true (1 + length (rows_bytes rows)) rows in_memory
      (some no_output) (some (remove_keys 5 in_memory rows))
      (some (record { chunks = []; high = pos 0; count = 1 })) refl rows-AreRows (omega arith)
      (rows_from-write words quotients 1 0 (9 ∷ []) 5 (sum_a ∷ []) (some 0 ∷ []) (some 0 ∷ []) true
        (1 + length (rows_bytes rows)) rows in_memory rows-AreUnseen rows-AreRows (omega arith))

new_store-IsStored : IsStored new_store
unfolding new_memstore empty
new_store-IsStored = (refl, tt)

offsets-AreOffsets : AreOffsets 2 offsets
unfolding get same_source
offsets-AreOffsets = (refl, omega arith, refl, tt)

texts-AreFields : AreFields ((b'a' ∷ []) ∷ []) ((b'a' ∷ []) ∷ [])
unfolding known_field list_eq
texts-AreFields = ((refl, tt), (λ blank. refl), tt)

-- An insert without a row moves the offset on, and the flush that is due writes it down.
abbrev keyless : Insert words
keyless = record {
  key = none;
  ts = 0;
  params = point;
  metadata = none;
  offset = 1 ∷ 9 ∷ [];
  source = pos 3;
}

abbrev moved : RowStore words
moved = record new_store {
  memory = record (new_memstore (field_a ∷ []) (some offsets)) {
    offsets = some ((pos 3, 1 ∷ 9 ∷ []) ∷ []);
  };
  offset_file = some (write_offsets ((pos 3, 1 ∷ 9 ∷ []) ∷ []));
}

run-moved :
    run numbers first_byte 2 words quotients 1 [] same_order no_bytes
      (inserted keyless ∷ due clocks ∷ [])
      new_store
    ≡ some moved
unfolding run step insert new_memstore put same_source flush_memory empty or_empty
run-moved = refl

run-IsStored_example : IsStored moved
run-IsStored_example =
    run-IsStored numbers first_byte 2 words quotients 1 [] same_order no_bytes
      (inserted keyless ∷ due clocks ∷ []) new_store moved new_store-IsStored run-moved

process_flush_once :
    (rs' : RowStore words) × (process_flush numbers first_byte 2 words quotients 1 [] same_order
        clocks false new_store
      ≡ some rs')
unfolding process_flush attempts do_process_flush flush iterate saved_offsets after_file
    rest_of_memory walk walk_from count_edges targets close new_memstore empty or_empty or_default
    shown
process_flush_once = (_, refl)

process_flush-restart_example : IsRestartable 2 [] offsets process_flush_once.0
unfolding texts_of join new_memstore
process_flush-restart_example =
    process_flush-restart numbers first_byte 2 words quotients 1 [] same_order clocks false
      new_store process_flush_once.0 offsets field_a [] refl refl offsets-AreOffsets texts-AreFields
      (omega arith) process_flush_once.1
