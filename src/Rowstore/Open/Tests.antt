-- ===== src/Rowstore/Open/Tests.antt =====
-- row_store.go: opening a directory with a file that is cut off and one that is whole.
use zenodb.Prelude.{
  ℕ, ◌+◌, ◌*◌, ◌^◌, ◌<◌, ◌≡◌, refl, false, Option, none, some, List, [], ◌∷◌, ◌++◌, arith, list_eq,
  if◌then◌else◌, length,
}
use zenodb.Prelude.Int.{ℤ, pos}
use zenodb.Prelude.Assoc.{Assoc, get}
use zenodb.Encoding.Binary.{uint32}
use zenodb.Offsets.{advance}
use zenodb.Offsets.Samples.{numbers}
use zenodb.Rowstore.Header.{source_key, join, split_from, write_header, write_offsets}
use zenodb.Rowstore.Header.Offsets.{AreOffsets}
use zenodb.Rowstore.Store.{offsets_of}
use zenodb.Rowstore.Open.{
  StoredFile, offset_filename, version_for, header_of, opened, open_row_store,
}
use zenodb.Rowstore.Open.Newest.{AreCutOff, names_of, open_row_store-whole}

-- "5" alone is a number.
abbrev atoi : List ℕ → Option ℕ
atoi text = if list_eq text (b'5' ∷ []) then some 5 else none

abbrev first_byte : List ℕ → ℕ
first_byte [] = 0
first_byte (b ∷ bytes) = b

-- "f_1_5.d" and "f_2_5.d"
abbrev first_name : List ℕ
first_name = b'f' ∷ b'_' ∷ b'1' ∷ b'_' ∷ b'5' ∷ b'.' ∷ b'd' ∷ []

abbrev second_name : List ℕ
second_name = b'f' ∷ b'_' ∷ b'2' ∷ b'_' ∷ b'5' ∷ b'.' ∷ b'd' ∷ []

abbrev file_offsets : Assoc ℤ (List ℕ)
file_offsets = (pos 3, 1 ∷ 2 ∷ []) ∷ []

abbrev newer_offsets : Assoc ℤ (List ℕ)
newer_offsets = (pos 3, 4 ∷ 2 ∷ []) ∷ []

abbrev texts : List (List ℕ)
texts = (b'a' ∷ []) ∷ []

file_offsets-AreOffsets : AreOffsets 2 file_offsets
unfolding get
file_offsets-AreOffsets = (refl, omega arith, refl, tt)

newer_offsets-AreOffsets : AreOffsets 2 newer_offsets
unfolding get
newer_offsets-AreOffsets = (refl, omega arith, refl, tt)

abbrev cut_off : List StoredFile
cut_off = record { name = second_name; contents = some (0 ∷ 0 ∷ []) } ∷ []

cut_off-AreCutOff : AreCutOff atoi cut_off
unfolding AreCutOff version_for split_from header_of uint32 list_eq
cut_off-AreCutOff = (refl, (0 ∷ 0 ∷ [], refl, refl), (5, refl), tt)

header_fits : 8 + length file_offsets * (8 + 2) + length (join b'|' texts) < 2 ^ 32
unfolding join
header_fits = omega arith

first_name_version : version_for atoi (split_from b'_' first_name) ≡ some 5
unfolding version_for split_from list_eq
first_name_version = refl

first_name_other : list_eq first_name offset_filename ≡ false
unfolding list_eq
first_name_other = refl

open_row_store-whole_example :
    open_row_store numbers first_byte 2 atoi (
      record { name = offset_filename; contents = some (write_offsets newer_offsets) }
      ∷ (cut_off
          ++ (record {
            name = first_name;
            contents = some (write_header 2 file_offsets texts ++ (6 ∷ []));
          }
              ∷ [])))
    ≡ opened
        (some first_name)
        (advance numbers
          (some (offsets_of numbers first_byte 2 file_offsets))
          (some (offsets_of numbers first_byte 2 newer_offsets)))
        (names_of cut_off)
open_row_store-whole_example =
    open_row_store-whole numbers first_byte 2 atoi texts (6 ∷ []) file_offsets first_name
      newer_offsets cut_off [] newer_offsets-AreOffsets (omega arith) (omega arith)
      cut_off-AreCutOff first_name_other file_offsets-AreOffsets header_fits first_name_version
