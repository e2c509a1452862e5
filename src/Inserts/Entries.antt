-- ===== src/Inserts/Entries.antt =====
-- insert.go: what `InsertRaw` writes to the log is what `table.insert` reads.
use mathlib.Core.List.{append_assoc, append-nil}
use zenodb.Prelude.{
  ℕ, ◌^◌, ◌%◌, ◌<◌, ◌≤◌, ◌≡◌, refl, ap, sym, ◌∙◌, true, false, Option, none, some, List, [], ◌++◌,
  arith, ltb, length, replicate,
}
use zenodb.Prelude.Int.{ℤ}
use zenodb.Encoding.Binary.{IsInt64, put_uint32, read_int32-put, read-append, read-append_of}
use zenodb.Encoding.Time.{
  Time, unix_nano, header, length-header, encode_time-header, time_from_bytes,
  time_from_bytes-header,
}
use zenodb.Following.{Hashing}
use zenodb.Inserts.{
  to_wal, sized, wal_entry, insert_raw, Val, Table, Follower, read_sized, do_insert, relevant,
  insert,
}

read_sized-sized :
    (b rest : List ℕ) → length b < 2 ^ 32 → read_sized (sized b ++ rest) ≡ some (b, rest)
unfolding read_sized sized
read_sized-sized b rest h =
    let n : length b % 2 ^ 32 ≡ length b = omega arith in
    ap (λ k. read_sized ((put_uint32 k ++ b) ++ rest)) n
    ∙ ap read_sized (append_assoc (put_uint32 (length b)) b rest)
    ∙ rw (read_sized, read_int32-put (length b) (b ++ rest) h) (read-append b rest)

wal_entry_lem :
    (ts : Time) (dims vals : List ℕ)
    → wal_entry ts dims vals ≡ some (header ts ++ (sized dims ++ sized vals))
unfolding wal_entry
wal_entry_lem ts dims vals =
    rw (wal_entry, encode_time-header (replicate 8 0) ts (omega arith), append-nil (header ts)) refl

-- The bytes that `InsertRaw` gives to the log of a stream, on a node that follows none and with the
-- dimensions as they are, are read by `table.insert` as the point that they were made of, which it hands on,
-- where the point is not before the table's time and in the follower's partition, if the table is a
-- follower's. The time is within 2 ^ 63 nanoseconds of the start of 1970, and the lengths are below 2 ^ 32.
pub insert-insert_raw :
    {Name F O : Type 0} (h : Hashing Name) (dims_of : List ℕ → h.Dims) (float64 : ℤ → F)
    (values_of : List ℕ → List (List ℕ × Val F)) (t : Table Name) (follower : Option Follower)
    (ts : Time) (dims vals : List ℕ) (offset : O) (source : ℤ)
    → IsInt64 (unix_nano ts)
    → length dims < 2 ^ 32
    → length vals < 2 ^ 32
    → t.before ≤ ts
    → relevant h dims_of t follower dims ≡ some true
    → (entry : List ℕ) × (insert_raw false true none ts dims vals ≡ some (to_wal entry))
      × (insert h dims_of float64 values_of t follower entry offset source
          ≡ do_insert h dims_of float64 values_of t ts dims vals offset source)
unfolding insert_raw insert
insert-insert_raw h dims_of float64 values_of t follower ts dims vals offset source i d v b r =
    let late : ltb ts t.before ≡ false = ground arith in
    let rest = sized dims ++ sized vals in
    (
      header ts ++ rest,
      rw (insert_raw, wal_entry_lem ts dims vals) refl,
      rw
          (
            insert,
            read-append_of (header ts) rest 8 (length-header ts),
            ap time_from_bytes (sym (append-nil (header ts))) ∙ time_from_bytes-header ts [] i,
            late,
            read_sized-sized dims (sized vals) d,
            r,
            ap read_sized (sym (append-nil (sized vals))) ∙ read_sized-sized vals [] v,
          )
          refl,
    )
