-- ===== src/Rowstore/Header.antt =====
-- row_store.go: the header of a file of rows, with the offsets that the rows go up to and the fields
-- of their columns. A field is the text that it prints as, which is all that is compared; the files
-- are read and written through snappy, which is left out.
pub mod Offsets
pub mod Fields
use zenodb.Prelude.{
  ℕ, zero, suc, ◌+◌, ◌*◌, ◌^◌, ◌<◌, ◌≤◌, ◌≡◌, ◌↔◌, refl, ap, Bool, true, false, ◌&&◌, Option, none,
  some, List, [], ◌∷◌, ◌++◌, ◌==◌, ==_iff, arith, leb, ltb, if◌then◌else◌, length, take, drop,
  list_eq, ◌>>=◌,
}
use zenodb.Prelude.Int.{ℤ, pos, negsuc}
use zenodb.Prelude.Assoc.{Key, Assoc, put}
use zenodb.Encoding.Binary.{put_uint32, put_uint64, uint32, to_word, read_int64, read}

-- Sources are ints.
unfoldable pub same_source : ℤ → ℤ → Bool
same_source (pos m) (pos n) = m == n
same_source (negsuc m) (negsuc n) = m == n
same_source _ _ = false

pub same_source_iff : (i j : ℤ) → (same_source i j ≡ true) ↔ (i ≡ j)
unfolding same_source
same_source_iff (pos m) (pos n) = ground (arith, ==_iff m n)
same_source_iff (pos m) (negsuc n) = ground arith
same_source_iff (negsuc m) (pos n) = ground arith
same_source_iff (negsuc m) (negsuc n) = ground (arith, ==_iff m n)

instance abbrev pub source_key : Key ℤ
source_key = record { same = same_source; same_iff = same_source_iff }

-- `WriteInt64` into eight new bytes.
pub int_bytes : ℤ → List ℕ
int_bytes i = put_uint64 (to_word (2 ^ 64) i)

-- The loop of `writeOffsets`, and all that it writes.
pub entries_bytes : Assoc ℤ (List ℕ) → List ℕ
unfolding int_bytes
entries_bytes [] = []
entries_bytes ((source, offset) ∷ entries) = int_bytes source ++ (offset ++ entries_bytes entries)

pub write_offsets : Assoc ℤ (List ℕ) → List ℕ
unfolding int_bytes entries_bytes
write_offsets offsets = int_bytes (pos (length offsets)) ++ entries_bytes offsets

-- `wal.OffsetSize` is the write-ahead log's.
module _ (offset_size : ℕ) where
  -- The loop of `readOffsets`, on the rounds left.
  pub read_entries : ℕ → Assoc ℤ (List ℕ) → List ℕ → Option (Assoc ℤ (List ℕ) × List ℕ)
  read_entries zero offsets header = some (offsets, header)
  read_entries (suc n) offsets header = do
    s ← read_int64 header
    o ← read s.1 offset_size
    read_entries n (put s.0 o.0 offsets) o.1

  rounds : ℤ → ℕ
  rounds (pos n) = n
  rounds (negsuc n) = 0

  -- `readOffsets`: before version 5 a header has the offset of source 0 alone.
  pub read_offsets : ℕ → List ℕ → Option (Assoc ℤ (List ℕ) × List ℕ)
  unfolding read_entries rounds
  read_offsets version header =
      if ltb version 5
      then (read header offset_size >>= λ o. some (put (pos 0) o.0 [], o.1))
      else (read_int64 header >>= λ n. read_entries (rounds n.0) [] n.1)

-- `strings.Join` and `strings.Split` with a delimiter of one byte.
unfoldable pub join : ℕ → List (List ℕ) → List ℕ
join c [] = []
join c (s ∷ []) = s
join c (s ∷ t ∷ ss) = s ++ (c ∷ join c (t ∷ ss))

-- Behind the first part, which came to `s` so far, backwards.
unfoldable pub split_from : ℕ → List ℕ → List (List ℕ)
split_from c [] = [] ∷ []
split_from c (x ∷ xs) = elim (split_from c xs) [
  | [] ↦ []
  | s ∷ ss ↦ if x == c then [] ∷ s ∷ ss else (x ∷ s) ∷ ss
]

-- The header length and the header, as `createOutWriter` writes them, for offsets of the offset size.
unfoldable pub write_header : ℕ → Assoc ℤ (List ℕ) → List (List ℕ) → List ℕ
unfolding write_offsets join
write_header offset_size offsets fields =
    let texts = join b'|' fields in
    put_uint32 (8 + length offsets * (8 + offset_size) + length texts)
    ++ (write_offsets offsets ++ texts)

-- The fields of a file by their texts: those of the store, or else the field of no text.
unfoldable pub known_field : List ℕ → List (List ℕ) → List ℕ → List ℕ
known_field blank [] text = blank
known_field blank (f ∷ fields) text = if list_eq text f then f else known_field blank fields text

pub file_fields : List ℕ → List (List ℕ) → List (List ℕ) → List (List ℕ)
unfolding known_field
file_fields blank fields [] = []
file_fields blank fields (t ∷ texts) = known_field blank fields t ∷ file_fields blank fields texts

-- What `info` reads: the offsets, the fields, and the file behind the header. An error of the file or
-- a panic is none.
pub record Info : Type 0 where
  pub offsets : Assoc ℤ (List ℕ)
  pub fields : List (List ℕ)
  pub rows : List ℕ

pub info : ℕ → ℕ → List ℕ → List (List ℕ) → List ℕ → Option Info
unfolding read_offsets split_from file_fields
info offset_size version blank fields file = do
  n ← uint32 file
  header ← read (drop 4 file) n
  o ← read_offsets offset_size version header.0
  some (record {
    offsets = o.0;
    fields = file_fields blank fields (split_from b'|' o.1);
    rows = header.1;
  })
