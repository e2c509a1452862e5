-- ===== src/Rowstore/Rows.antt =====
-- row_store.go: a row as the bytes rowLength|keylength|key|numcolumns|col1len|...|lastcollen|col1|...|lastcol,
-- as `doWrite` writes it and `fileStore.iterate` reads it.

pub mod RoundTrip
pub mod Remaining
use zenodb.Prelude.{
  ℕ, zero, suc, ◌+◌, ◌-◌, ◌*◌, ◌^◌, ◌<◌, ◌≡◌, Bool, true, false, ◌&&◌, ◌||◌, not, Option, none,
  some, List, [], ◌∷◌, ◌++◌, leb, ltb, if◌then◌else◌, length, take, drop, is_nil, ◌>>=◌,
}
use zenodb.Prelude.Int.{ℤ, pos, negsuc, ltb_ℤ}
use zenodb.Encoding.Binary.{
  put_uint16, put_uint64, uint16, uint64, to_int64, read_int16, read_int64, read,
}
use zenodb.Encoding.Time.{Time}
use zenodb.Encoding.Until.{Quotients}
use zenodb.Sequence.{Sequence, until_int, truncate}

-- What `doWrite` writes of a row. The lengths wrap at 16 and 64 bits.
unfoldable pub lengths_bytes : List Sequence → List ℕ
lengths_bytes [] = []
lengths_bytes (c ∷ cs) = put_uint64 (length c) ++ lengths_bytes cs

unfoldable pub columns_bytes : List Sequence → List ℕ
columns_bytes [] = []
columns_bytes (c ∷ cs) = c ++ columns_bytes cs

unfoldable pub row_length : List ℕ → List Sequence → ℕ
unfolding lengths_bytes columns_bytes
row_length key columns =
    8 + 2 + length key + 2 + length (lengths_bytes columns) + length (columns_bytes columns)

unfoldable pub row_bytes : List ℕ → List Sequence → List ℕ
unfolding row_length
row_bytes key columns =
    put_uint64 (row_length key columns)
    ++ (put_uint16 (length key)
        ++ (key
            ++ (put_uint16 (length columns) ++ (lengths_bytes columns ++ columns_bytes columns))))

-- The highest of zero and the ends of the columns.
pub high_water_mark : ℤ → List Sequence → Option ℤ
high_water_mark high [] = some high
high_water_mark high (c ∷ cs) = do
  ts ← until_int c
  high_water_mark (if ltb_ℤ high ts then ts else high) cs

-- The loop over the columns that truncates them: the columns, and whether one is left that is not nil.
-- There are as many fields as columns.
unfoldable pub truncate_columns :
    Quotients → ℕ → Time → List ℕ → List Sequence → Option (List Sequence × Bool)
truncate_columns q resolution before widths [] = some ([], false)
truncate_columns q resolution before [] (c ∷ cs) = none
truncate_columns q resolution before (w ∷ widths) (c ∷ cs) = do
  t ← truncate q w resolution before 0 c
  r ← truncate_columns q resolution before widths cs
  some (t.result ∷ r.0, not (is_nil t.result) || r.1)

-- `doWrite`: the bytes that it writes, none for a row that is dropped, and the high-water mark. `passes` is
-- the filter, if there is one; `raw` is the row as it stands in the old file, if it may be used.
module _ (q : Quotients) (resolution : ℕ) (before : Time) (widths : List ℕ)
    (passes : Option (List ℕ → Option Bool)) where
  unfoldable pub meets_filter : List ℕ → Option Bool
  meets_filter key = elim passes [ none ↦ some true | some p ↦ p key ]

  unfoldable pub write_row : List ℕ → List Sequence → Option (List ℕ × ℤ)
  unfolding meets_filter truncate_columns row_bytes high_water_mark
  write_row key cs = do
    ok ← meets_filter key
    if not ok then some ([], pos 0) else do
      t ← truncate_columns q resolution before widths cs
      if not t.1
          then some ([], pos 0)
          else do h ← high_water_mark (pos 0) t.0; some (row_bytes key t.0, h)

  unfoldable pub do_write : Bool → List ℕ → List Sequence → Option (List ℕ) → Option (List ℕ × ℤ)
  unfolding write_row
  do_write should_sort key cs none = write_row key cs
  do_write should_sort key cs (some raw) =
      if should_sort then write_row key cs else some (raw, pos 0)

-- How the file goes on: at its end, with a row, or with an error, or so that Go panics. A length that is more
-- than the file holds counts as an error, also where Go could not allocate it. The reuse of the buffer of
-- the row before is left out.
pub data RowError : Type 0 where
  row_length_error row_error column_length_error column_error : RowError

pub record Row : Type 0 where
  pub key : List ℕ
  pub raw : List ℕ
  pub behind_key : List ℕ

pub data Next : Type 0 where
  end_of_file : Next
  row : Row → List ℕ → Next
  broken : RowError → Next
  panicked : Next

-- `ReadInt16` and `ReadByteMap`: the key, and what is behind it.
pub read_key : List ℕ → Option (List ℕ × List ℕ)
read_key b = elim (read_int16 b) [
  | none ↦ none
  | some (negsuc l, rest) ↦ none
  | some (pos l, rest) ↦ read rest l
]

-- The start of a round of the loop of `fileStore.iterate`: the row as far as its key, and the file
-- behind it.
pub row_of : ℕ → List ℕ → Next
row_of n file = elim (read_key (drop 8 (take n file))) [
  | none ↦ panicked
  | some (key, rest) ↦
      row (record { key = key; raw = take n file; behind_key = rest }) (drop n file)
]

pub next_row : List ℕ → Next
next_row [] = end_of_file
next_row (b ∷ file) = elim (uint64 (b ∷ file)) [
  | none ↦ broken row_length_error
  | some n ↦
      if ltb n 8
      then panicked
      else if ltb (length (b ∷ file)) n
      then broken row_error
      else row_of n (b ∷ file)
]

-- The columns of a row, by their lengths: all of them, or those before an error or before Go panics.
pub data Columns : Type 0 where
  columns : List Sequence → Columns
  columns_error : RowError → List Sequence → Columns
  columns_panic : List Sequence → Columns

pub data Lengths : Type 0 where
  lengths : List ℤ → List ℕ → Lengths
  lengths_error : RowError → Lengths

pub with_length : ℤ → Lengths → Lengths
with_length l (lengths ls rest) = lengths (l ∷ ls) rest
with_length l (lengths_error e) = lengths_error e

pub read_lengths : ℕ → List ℕ → Lengths
unfolding with_length
read_lengths zero b = lengths [] b
read_lengths (suc n) b = elim (read_int64 b) [
  | none ↦ lengths_error column_length_error
  | some (l, rest) ↦ with_length l (read_lengths n rest)
]

pub with_column : Sequence → Columns → Columns
with_column c (columns cs) = columns (c ∷ cs)
with_column c (columns_error e cs) = columns_error e (c ∷ cs)
with_column c (columns_panic cs) = columns_panic (c ∷ cs)

-- A negative length passes the test on the length, and Go panics at the slice.
pub read_each : List ℤ → List ℕ → Columns
unfolding with_column
read_each [] b = columns []
read_each (negsuc l ∷ ls) b = columns_panic []
read_each (pos l ∷ ls) b = elim (read b l) [
  | none ↦ columns_error column_error []
  | some (c, rest) ↦ with_column c (read_each ls rest)
]

pub read_columns : List ℕ → Columns
unfolding read_lengths read_each
read_columns b = elim (read_int16 b) [
  | none ↦ columns_panic []
  | some (negsuc n, rest) ↦ columns []
  | some (pos n, rest) ↦ elim (read_lengths n rest) [
    | lengths_error e ↦ columns_error e []
    | lengths ls cs ↦ read_each ls cs
  ]
]
