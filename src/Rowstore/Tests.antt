-- ===== src/Rowstore/Tests.antt =====
-- row_store.go: a small file and a small memstore, and the theorems at concrete inputs.
use zenodb.Prelude.{
  ℕ, ◌+◌, ◌-◌, ◌*◌, ◌/◌, ◌^◌, ◌<◌, ◌≡◌, refl, true, false, Option, none, some, List, [], ◌∷◌, ◌++◌,
  arith, list_eq, length,
}
use zenodb.Prelude.Int.{ℤ, pos}
use zenodb.Prelude.Assoc.{Assoc, get}
use zenodb.Encoding.Until.{Quotients}
use zenodb.Expr.Samples.{words, sum_a}
use zenodb.Offsets.Samples.{numbers}
use zenodb.Sequence.{Sequence}
use zenodb.Bytetree.{node, none_left, edge, remove_edges, was_removed_for, listed}
use zenodb.Bytetree.Prefix.{strip}
use zenodb.Bytetree.Contexts.{seen}
use zenodb.Sequence.Merging.{merge_sequences}
use zenodb.Rowstore.Rows.{row_bytes}
use zenodb.Rowstore.Fields.{out_idxs_for}
use zenodb.Rowstore.Fields.Merged.{zip_merge}
use zenodb.Rowstore.Iterate.Merged.{rows_from-merged}
use zenodb.Rowstore.Header.{join, known_field, write_header, info}
use zenodb.Encoding.Binary.{put_uint64}
use zenodb.Rowstore.Header.Offsets.{AreOffsets}
use zenodb.Rowstore.Header.Fields.{AreFields, info-write_header}
use zenodb.Rowstore.Rows.{row_length, lengths_bytes, columns_bytes}
use zenodb.Rowstore.Iterate.{Rows, Reply, rows_from}
use zenodb.Rowstore.Iterate.Ends.{IsFueled}
use zenodb.Rowstore.Iterate.Written.{Entry, AreRows, rows_bytes, over_rows, rows_from-rows_bytes}
use zenodb.Rowstore.Iterate.Reports.{each_entry}
use zenodb.Rowstore.Store.{Field, texts_of, offsets_of, iterate}
use zenodb.Rowstore.Store.Read.{iterate-ends, iterate-written}

abbrev quotients : Quotients
quotients = record {
  floor = λ a b. a / b;
  ceil = λ a b. (a + (b - 1)) / b;
  floor_exact = λ a b h i j. refl;
  ceil_exact = λ a b h i j. refl;
}

-- An offset is its first byte.
abbrev first_byte : List ℕ → ℕ
first_byte [] = 0
first_byte (b ∷ bytes) = b

abbrev field_a : Field words
field_a = record { text = b'a' ∷ []; expr = sum_a }

abbrev field_z : Field words
field_z = record { text = b'z' ∷ []; expr = sum_a }

abbrev offsets : Assoc ℤ (List ℕ)
offsets = (pos 3, 1 ∷ 2 ∷ []) ∷ []

abbrev rows : List Entry
rows = (7 ∷ [], (9 ∷ 9 ∷ []) ∷ []) ∷ (8 ∷ [], (5 ∷ []) ∷ []) ∷ []

-- A callback that lists the keys, backwards.
abbrev list_keys :
    List (List ℕ) → List ℕ → List Sequence → Option (List ℕ) → Reply (List (List ℕ)) (Unit {0})
list_keys keys key cs raw = record { state = key ∷ keys; more = true; error = none }

-- A row of the key 1 in memory.
abbrev in_memory : Rows
in_memory = edge (1 ∷ []) (node (1 ∷ []) none_left (some ((4 ∷ []) ∷ [])) []) none_left

offsets-AreOffsets : AreOffsets 2 offsets
unfolding get
offsets-AreOffsets = (refl, omega arith, refl, tt)

texts-AreFields : AreFields ((b'a' ∷ []) ∷ []) ((b'a' ∷ []) ∷ [])
unfolding known_field list_eq
texts-AreFields = ((refl, tt), (λ blank. refl), tt)

header_fits : 8 + length offsets * (8 + 2) + length (join b'|' ((b'a' ∷ []) ∷ [])) < 2 ^ 32
unfolding join
header_fits = omega arith

rows-AreRows : AreRows rows
unfolding row_length lengths_bytes columns_bytes put_uint64
rows-AreRows = (
  omega arith,
  omega arith,
  (omega arith, tt),
  omega arith,
  (omega arith, omega arith, (omega arith, tt), omega arith, tt),
)

info-write_header_example :
    info 2 5 [] ((b'a' ∷ []) ∷ []) (write_header 2 offsets ((b'a' ∷ []) ∷ []) ++ (6 ∷ []))
    ≡ some (record { offsets = offsets; fields = (b'a' ∷ []) ∷ []; rows = 6 ∷ [] })
info-write_header_example =
    info-write_header 2 [] ((b'a' ∷ []) ∷ []) offsets (b'a' ∷ []) [] (6 ∷ []) offsets-AreOffsets
      texts-AreFields header_fits

rows_from-rows_bytes_example :
    rows_from list_keys words quotients
      (sum_a ∷ [])
      1
      0
      (some 0 ∷ [])
      (some 0 ∷ [])
      5
      false
      (1 + length (rows_bytes rows))
      (rows_bytes rows)
      (some in_memory)
      []
    ≡ over_rows list_keys words quotients
        (sum_a ∷ [])
        1
        0
        (some 0 ∷ [])
        (some 0 ∷ [])
        5
        false
        rows
        (some in_memory)
        []
rows_from-rows_bytes_example =
    rows_from-rows_bytes list_keys words quotients (sum_a ∷ []) 1 0 (some 0 ∷ []) (some 0 ∷ []) 5
      false (1 + length (rows_bytes rows)) rows (some in_memory) [] rows-AreRows (omega arith)

iterate-written_example :
    iterate numbers first_byte 2 list_keys words quotients 1 0 5 5 []
      (field_a ∷ [])
      []
      none
      false
      (some (write_header 2 offsets (texts_of (field_a ∷ [])) ++ rows_bytes rows))
      none
      []
    ≡ (some (offsets_of numbers first_byte 2 offsets), each_entry list_keys rows [])
unfolding texts_of
iterate-written_example =
    iterate-written list_keys words quotients numbers first_byte 2 1 0 5 [] field_a [] offsets rows
      none [] offsets-AreOffsets texts-AreFields (tt, tt) header_fits rows-AreRows
      (refl, (refl, tt))

iterate-ends_example :
    IsFueled
      (iterate numbers first_byte 2 list_keys words quotients 1 0 5 5 []
        (field_a ∷ [])
        []
        none
        false
        (some (0 ∷ 0 ∷ []))
        none
        []).1
iterate-ends_example =
    iterate-ends list_keys words quotients numbers first_byte 2 1 0 5 5 [] (field_a ∷ []) [] none
      false (some (0 ∷ 0 ∷ [])) none []

-- Two fields, of which the file has a column for the second, and memory for the first.
abbrev both_fields : List (List ℕ)
both_fields = (b'a' ∷ []) ∷ (b'z' ∷ []) ∷ []

abbrev key_in_memory : Rows
key_in_memory = edge (7 ∷ []) (node (7 ∷ []) none_left (some ((4 ∷ []) ∷ [] ∷ [])) []) none_left

rows_from-merged_example :
    (let idxs = out_idxs_for both_fields both_fields in
      rows_from list_keys words quotients
        (sum_a ∷ sum_a ∷ [])
        1
        0
        idxs
        idxs
        5
        true
        3
        (row_bytes (7 ∷ []) ([] ∷ (9 ∷ 9 ∷ []) ∷ []) ++ [])
        (some key_in_memory)
        []
      ≡ rows_from list_keys words quotients
          (sum_a ∷ sum_a ∷ [])
          1
          0
          idxs
          idxs
          5
          true
          2
          []
          (some (remove_edges 5 key_in_memory (7 ∷ [])).0)
          ((7 ∷ []) ∷ []))
unfolding list_eq row_length lengths_bytes columns_bytes put_uint64 seen was_removed_for listed
    strip zip_merge merge_sequences
rows_from-merged_example =
    rows_from-merged list_keys words quotients (sum_a ∷ sum_a ∷ []) 1 0 (b'a' ∷ [])
      ((b'z' ∷ []) ∷ []) 5 true 2 (7 ∷ []) ([] ∷ (9 ∷ 9 ∷ []) ∷ []) ((4 ∷ []) ∷ [] ∷ [])
      ((4 ∷ []) ∷ (9 ∷ 9 ∷ []) ∷ []) [] key_in_memory [] ((refl, tt), (tt, tt)) refl refl refl
      (omega arith) (omega arith) (omega arith, (omega arith, tt)) (omega arith) refl refl refl refl
