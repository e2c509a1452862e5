-- ===== src/Rowstore/Header/Fields.antt =====
-- row_store.go: what `info` reads of a file is what `createOutWriter` wrote.
use mathlib.Core.List.{append_assoc}
use zenodb.Prelude.{
  ℕ, suc, ◌+◌, ◌*◌, ◌^◌, ◌<◌, ◌≤◌, ◌≡◌, refl, ap, ◌∙◌, true, false, some, List, [], ◌∷◌, ◌++◌, ◌==◌,
  arith, length, length-append,
}
use zenodb.Prelude.Int.{ℤ, pos}
use zenodb.Prelude.Assoc.{Assoc}
use zenodb.Encoding.Binary.{put_uint32, uint32-put, read-append_of}
use zenodb.Rowstore.Header.{
  int_bytes, entries_bytes, write_offsets, join, split_from, write_header, known_field, file_fields,
  info,
}
use zenodb.Rowstore.Header.Offsets.{AreOffsets, read_offsets-write_offsets, length-int_bytes}

-- A text without the delimiter.
abbrev pub IsFree : ℕ → List ℕ → Type 0
IsFree c [] = Unit {0}
IsFree c (x ∷ xs) = ((x == c) ≡ false) × IsFree c xs

-- Texts without the delimiter that are fields of the store.
abbrev pub AreFields : List (List ℕ) → List (List ℕ) → Type 0
AreFields fields [] = Unit {0}
AreFields fields (t ∷ texts) =
    IsFree b'|' t × ((blank : List ℕ) → known_field blank fields t ≡ t) × AreFields fields texts

split_from-free : (c : ℕ) (s : List ℕ) → IsFree c s → split_from c s ≡ s ∷ []
unfolding split_from
split_from-free c [] h = refl
split_from-free c (x ∷ xs) h = rw (split_from-free c xs h.1, h.0) refl

split_from-part :
    (c : ℕ) (s rest : List ℕ) (t : List ℕ) (ts : List (List ℕ))
    → IsFree c s
    → split_from c rest ≡ t ∷ ts
    → split_from c (s ++ (c ∷ rest)) ≡ s ∷ t ∷ ts
unfolding split_from
split_from-part c [] rest t ts h e = let k : (c == c) ≡ true = ground arith in rw (e, k) refl
split_from-part c (x ∷ xs) rest t ts h e = rw (split_from-part c xs rest t ts h.1 e, h.0) refl

split_from-join :
    (fields : List (List ℕ)) (t : List ℕ) (texts : List (List ℕ))
    → AreFields fields (t ∷ texts)
    → split_from b'|' (join b'|' (t ∷ texts)) ≡ t ∷ texts
unfolding join
split_from-join fields t [] h = split_from-free b'|' t h.0
split_from-join fields t (u ∷ texts) h =
    split_from-part b'|' t (join b'|' (u ∷ texts)) u texts h.0 (split_from-join fields u texts h.2)

file_fields_lem :
    (blank : List ℕ) (fields texts : List (List ℕ))
    → AreFields fields texts
    → file_fields blank fields texts ≡ texts
unfolding file_fields
file_fields_lem blank fields [] h = refl
file_fields_lem blank fields (t ∷ texts) h =
    rw (h.1 blank, file_fields_lem blank fields texts h.2) refl

length-entries_bytes :
    (size : ℕ) (entries : Assoc ℤ (List ℕ))
    → AreOffsets size entries
    → length (entries_bytes entries) ≡ length entries * (8 + size)
unfolding entries_bytes
length-entries_bytes size [] h = omega arith
length-entries_bytes size ((source, offset) ∷ entries) (g, i, l, h) =
    let e : suc (length entries) * (8 + size) ≡ 8 + size + length entries * (8 + size) =
      grind arith in
    omega (
      arith,
      length-append (int_bytes source) (offset ++ entries_bytes entries),
      length-append offset (entries_bytes entries),
      length-entries_bytes size entries h,
      l,
      e,
      length-int_bytes source,
    )

pub length-header :
    (size : ℕ) (offsets : Assoc ℤ (List ℕ)) (text : List ℕ)
    → AreOffsets size offsets
    → length (write_offsets offsets ++ text) ≡ 8 + length offsets * (8 + size) + length text
unfolding write_offsets
length-header size offsets text h = omega (
  arith,
  length-append (write_offsets offsets) text,
  length-append (int_bytes (pos (length offsets))) (entries_bytes offsets),
  length-int_bytes (pos (length offsets)),
  length-entries_bytes size offsets h,
)

-- `info` of a file whose header `createOutWriter` wrote gives the offsets and the fields, and the rows
-- behind the header. Each source has one offset, which has the offset size, and each field is one of the
-- store, of a text without the delimiter; the header fits into four bytes with its length.
pub info-write_header :
    (size : ℕ) (blank : List ℕ) (fields : List (List ℕ)) (offsets : Assoc ℤ (List ℕ)) (t : List ℕ)
    (texts : List (List ℕ)) (rows : List ℕ)
    → AreOffsets size offsets
    → AreFields fields (t ∷ texts)
    → 8 + length offsets * (8 + size) + length (join b'|' (t ∷ texts)) < 2 ^ 32
    → info size 5 blank fields (write_header size offsets (t ∷ texts) ++ rows)
      ≡ some (record { offsets = offsets; fields = t ∷ texts; rows = rows })
unfolding info write_header
info-write_header size blank fields offsets t texts rows h g l =
    let header = write_offsets offsets ++ join b'|' (t ∷ texts) in
    let n = 8 + length offsets * (8 + size) + length (join b'|' (t ∷ texts)) in
    let shape : write_header size offsets (t ∷ texts) ++ rows ≡ put_uint32 n ++ (header ++ rows) =
      simp append_assoc in
    let (a, b) = uint32-put n (header ++ rows) l in
    let e : length header ≡ n = length-header size offsets (join b'|' (t ∷ texts)) h in
    let c : length offsets ≤ length offsets * (8 + size) = grind arith in
    ap (info size 5 blank fields) shape
    ∙ rw
        (
          a,
          b,
          read-append_of header rows n e,
          read_offsets-write_offsets size offsets (join b'|' (t ∷ texts)) h (omega (arith, c, l)),
          split_from-join fields t texts g,
          file_fields_lem blank fields (t ∷ texts) g,
        )
        refl
