-- ===== src/Rowstore/Rows/RoundTrip.antt =====
-- row_store.go: a row that was written is read back.
use mathlib.Core.List.{append_assoc}
use zenodb.Prelude.{
  ℕ, suc, ◌^◌, ◌<◌, ◌≤◌, ◌≡◌, refl, ap, sym, ◌∙◌, some, List, [], ◌∷◌, ◌++◌, arith, length,
  length-append, take, drop, take-append_left, drop-append_left,
}
use zenodb.Prelude.Int.{ℤ, pos}
use zenodb.Encoding.Binary.{
  put_uint16, put_uint64, uint64, uint64-put, length-put_uint16, length-put_uint64, read_int16-put,
  read_int64-put_pos, read-append,
}
use zenodb.Sequence.{Sequence}
use zenodb.Rowstore.Rows.{
  lengths_bytes, columns_bytes, row_length, row_bytes, Row, row, read_key, row_of, next_row,
  columns, lengths, read_lengths, read_each, read_columns,
}

-- Columns whose lengths are ints.
abbrev pub AreShort : List Sequence → Type 0
AreShort [] = Unit {0}
AreShort (c ∷ cs) = (length c < 2 ^ 63) × AreShort cs

lengths_of : List Sequence → List ℤ
lengths_of [] = []
lengths_of (c ∷ cs) = pos (length c) ∷ lengths_of cs

read_lengths_lem :
    (cs : List Sequence) (rest : List ℕ)
    → AreShort cs
    → read_lengths (length cs) (lengths_bytes cs ++ rest) ≡ lengths (lengths_of cs) rest
unfolding read_lengths lengths_bytes lengths_of
read_lengths_lem [] rest h = refl
read_lengths_lem (c ∷ cs) rest h =
    let shape : lengths_bytes (c ∷ cs) ++ rest
        ≡ put_uint64 (length c) ++ (lengths_bytes cs ++ rest) =
      simp append_assoc in
    ap (read_lengths (suc (length cs))) shape
    ∙ rw
        (
          read_lengths,
          read_int64-put_pos (length c) (lengths_bytes cs ++ rest) h.0,
          read_lengths_lem cs rest h.1,
        )
        refl

read_each_lem : (cs : List Sequence) → read_each (lengths_of cs) (columns_bytes cs) ≡ columns cs
unfolding read_each columns_bytes lengths_of
read_each_lem [] = refl
read_each_lem (c ∷ cs) = rw (read_each, read-append c (columns_bytes cs), read_each_lem cs) refl

read_columns_lem :
    (cs : List Sequence)
    → length cs < 2 ^ 16
    → AreShort cs
    → read_columns (put_uint16 (length cs) ++ (lengths_bytes cs ++ columns_bytes cs)) ≡ columns cs
unfolding read_columns
read_columns_lem cs n h =
    rw
      (
        read_columns,
        read_int16-put (length cs) (lengths_bytes cs ++ columns_bytes cs) n,
        read_lengths_lem cs (columns_bytes cs) h,
      )
      (read_each_lem cs)

-- What stands behind the length of a row.
body : List ℕ → List Sequence → List ℕ
body key cs =
    put_uint16 (length key)
    ++ (key ++ (put_uint16 (length cs) ++ (lengths_bytes cs ++ columns_bytes cs)))

pub length-row_bytes :
    (key : List ℕ) (cs : List Sequence) → length (row_bytes key cs) ≡ row_length key cs
unfolding row_bytes row_length
length-row_bytes key cs =
    let d = lengths_bytes cs ++ columns_bytes cs in
    omega (
      arith,
      length-append (put_uint64 (row_length key cs))
          (put_uint16 (length key) ++ (key ++ (put_uint16 (length cs) ++ d))),
      length-append (put_uint16 (length key)) (key ++ (put_uint16 (length cs) ++ d)),
      length-append key (put_uint16 (length cs) ++ d),
      length-append (put_uint16 (length cs)) d,
      length-append (lengths_bytes cs) (columns_bytes cs),
      length-put_uint64 (row_length key cs),
      length-put_uint16 (length key),
      length-put_uint16 (length cs),
    )

read_key_lem :
    (key : List ℕ) (cs : List Sequence)
    → length key < 2 ^ 16
    → read_key (drop 8 (row_bytes key cs))
      ≡ some (key, put_uint16 (length cs) ++ (lengths_bytes cs ++ columns_bytes cs))
unfolding row_bytes read_key
read_key_lem key cs k =
    let d = put_uint16 (length cs) ++ (lengths_bytes cs ++ columns_bytes cs) in
    let w = put_uint64 (row_length key cs) in
    let e : drop 8 (w ++ (put_uint16 (length key) ++ (key ++ d)))
        ≡ put_uint16 (length key) ++ (key ++ d) =
      ap (λ i. drop i (w ++ (put_uint16 (length key) ++ (key ++ d))))
        (sym (length-put_uint64 (row_length key cs)))
      ∙ drop-append_left w (put_uint16 (length key) ++ (key ++ d)) in
    ap read_key e ∙ rw (read_key, read_int16-put (length key) (key ++ d) k) (read-append key d)

-- The row as `iterate` finds it.
unfoldable pub written_row : List ℕ → List Sequence → Row
written_row key cs = record {
  key = key;
  raw = row_bytes key cs;
  behind_key = put_uint16 (length cs) ++ (lengths_bytes cs ++ columns_bytes cs);
}

row_of_found :
    (n : ℕ) (file raw rest key behind : List ℕ)
    → take n file ≡ raw
    → drop n file ≡ rest
    → read_key (drop 8 raw) ≡ some (key, behind)
    → row_of n file ≡ row (record { key = key; raw = raw; behind_key = behind }) rest
unfolding row_of
row_of_found n file raw rest key behind t d e =
    rw (row_of, ap (λ w. read_key (drop 8 w)) t ∙ e, t, d) refl

row_of_lem :
    (key : List ℕ) (cs : List Sequence) (rest : List ℕ)
    → length key < 2 ^ 16
    → row_of (row_length key cs) (row_bytes key cs ++ rest) ≡ row (written_row key cs) rest
unfolding written_row
row_of_lem key cs rest k =
    let n = length-row_bytes key cs in
    let t : take (row_length key cs) (row_bytes key cs ++ rest) ≡ row_bytes key cs =
      ap (λ i. take i (row_bytes key cs ++ rest)) (sym n)
      ∙ take-append_left (row_bytes key cs) rest in
    let d : drop (row_length key cs) (row_bytes key cs ++ rest) ≡ rest =
      ap (λ i. drop i (row_bytes key cs ++ rest)) (sym n)
      ∙ drop-append_left (row_bytes key cs) rest in
    row_of_found (row_length key cs) (row_bytes key cs ++ rest) (row_bytes key cs) rest key _ t d
      (read_key_lem key cs k)

uint64-row_bytes :
    (key : List ℕ) (cs : List Sequence) (rest : List ℕ)
    → row_length key cs < 2 ^ 64
    → uint64 (row_bytes key cs ++ rest) ≡ some (row_length key cs)
unfolding row_bytes body
uint64-row_bytes key cs rest l =
    let w = put_uint64 (row_length key cs) in
    ap uint64 (append_assoc w (body key cs) rest)
    ∙ (uint64-put (row_length key cs) (body key cs ++ rest) l).0

pub row_length-least : (key : List ℕ) (cs : List Sequence) → 8 ≤ row_length key cs
unfolding row_length
row_length-least key cs = omega arith

-- A file that goes on with a row length.
next_row_lem :
    (n : ℕ) (file : List ℕ)
    → uint64 file ≡ some n
    → 8 ≤ n
    → n ≤ length file
    → next_row file ≡ row_of n file
unfolding next_row
next_row_lem n [] e h l = absurd (omega arith)
next_row_lem n (b ∷ file) e h l = rw (next_row, e) (ground arith)

-- A row that was written is the next row of the file, and its columns are read as they were written. The
-- key and the number of columns fit into 16 bits, the lengths of the columns into 63, and that of the row
-- into 64.
pub next_row-row_bytes :
    (key : List ℕ) (cs : List Sequence) (rest : List ℕ)
    → length key < 2 ^ 16
    → length cs < 2 ^ 16
    → AreShort cs
    → row_length key cs < 2 ^ 64
    → (next_row (row_bytes key cs ++ rest) ≡ row (written_row key cs) rest)
      × (read_columns (written_row key cs).behind_key ≡ columns cs)
unfolding written_row
next_row-row_bytes key cs rest k n h l = (
  next_row_lem (row_length key cs) (row_bytes key cs ++ rest) (uint64-row_bytes key cs rest l)
        (row_length-least key cs)
        (omega (arith, length-append (row_bytes key cs) rest, length-row_bytes key cs))
      ∙ row_of_lem key cs rest k,
  read_columns_lem cs n h,
)
