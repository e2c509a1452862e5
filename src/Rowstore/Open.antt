-- ===== src/Rowstore/Open.antt =====
-- row_store.go: `openRowStore`, which chooses the file that a row store starts with.
pub mod Newest
mod Tests
use zenodb.Prelude.{
  ℕ, Bool, true, false, Option, none, some, List, [], ◌∷◌, ltb, if◌then◌else◌, ◌>>=◌, length, drop,
  list_eq,
}
use zenodb.Prelude.Int.{ℤ}
use zenodb.Prelude.Assoc.{Assoc}
use zenodb.Encoding.Binary.{uint32, read}
use zenodb.Offsets.{WalOffset, OffsetsBySource, advance}
use zenodb.Rowstore.Header.{source_key, read_offsets, split_from}
use zenodb.Rowstore.Store.{offsets_of}

-- A file of the directory. The contents are none where it cannot be read.
pub record StoredFile : Type 0 where
  pub name : List ℕ
  pub contents : Option (List ℕ)

-- `offsetFilename`.
abbrev pub offset_filename : List ℕ
offset_filename = b'o' ∷ b'f' ∷ b'f' ∷ b's' ∷ b'e' ∷ b't' ∷ []

-- `versionFor`, by the parts of the name of a file. `atoi` is `strconv.Atoi`, of no negative number; where
-- it fails the database panics.
pub version_for : (List ℕ → Option ℕ) → List (List ℕ) → Option ℕ
unfolding split_from
version_for atoi (a ∷ b ∷ c ∷ []) = elim (split_from b'.' c) [ [] ↦ none | s ∷ ss ↦ atoi s ]
version_for atoi _ = some 0

-- The header that `readWALOffsets` reads, without the length in front of it.
pub header_of : List ℕ → Option (List ℕ)
header_of file = do n ← uint32 file; h ← read (drop 4 file) n; some h.0

-- How the loop over the files ends: with the file to start with, if there is one, the offsets, and the
-- files that were removed; or with an error; or with a panic.
pub data Opening (w : WalOffset) : Type 0 where
  opened : Option (List ℕ) → OffsetsBySource w ℤ → List (List ℕ) → Opening w
  could_not_open : Opening w
  panicked : Opening w

module _ (w : WalOffset) (offset_of : List ℕ → w.Offset) (offset_size : ℕ)
    (atoi : List ℕ → Option ℕ) where
  pub after_removal : List ℕ → Opening w → Opening w
  after_removal name (opened file offsets removed) = opened file offsets (name ∷ removed)
  after_removal name could_not_open = could_not_open
  after_removal name panicked = panicked

  -- The offsets after the file of offsets.
  pub from_offset_file : Option (List ℕ) → OffsetsBySource w ℤ → Option (OffsetsBySource w ℤ)
  from_offset_file none offsets = some offsets
  from_offset_file (some o) offsets =
      if ltb (length o) offset_size
      then some offsets
      else (read_offsets offset_size (if ltb offset_size (length o) then 5 else 4) o >>= λ r.
          some (some (offsets_of w offset_of offset_size r.0)))

  -- The end of `readWALOffsets`, and what follows it.
  pub from_file : List ℕ → ℕ → List ℕ → OffsetsBySource w ℤ → Opening w
  from_file name version header offsets = elim (read_offsets offset_size version header) [
    | none ↦ panicked
    | some o ↦
        opened (some name) (advance w (some (offsets_of w offset_of offset_size o.0)) offsets) []
  ]

  -- `readWALOffsets` of a file that can be read: the version and the header, which is none where the
  -- file ends before.
  pub version_and_header : List ℕ → List ℕ → Option (ℕ × Option (List ℕ))
  unfolding version_for split_from header_of
  version_and_header name file = do
    version ← version_for atoi (split_from b'_' name)
    some (version, header_of file)

  -- The loop over the files, those whose names are greater first. `existing` is the file of the round
  -- before, if that was removed.
  pub open_newest : List StoredFile → Option (List ℕ) → OffsetsBySource w ℤ → Opening w
  unfolding after_removal from_offset_file from_file version_and_header
  open_newest [] existing offsets = opened existing offsets []
  open_newest (f ∷ files) existing offsets = elim (list_eq f.name offset_filename) [
    | true ↦ elim (from_offset_file f.contents offsets) [
      | none ↦ panicked
      | some offsets' ↦ open_newest files none offsets'
    ]
    | false ↦ elim f.contents [
      | none ↦ could_not_open
      | some file ↦ elim (version_and_header f.name file) [
        | none ↦ panicked
        | some (version, none) ↦ after_removal f.name (open_newest files (some f.name) offsets)
        | some (version, some header) ↦ from_file f.name version header offsets
      ]
    ]
  ]

  -- `openRowStore`, on the regular files of the directory, the last one first.
  pub open_row_store : List StoredFile → Opening w
  unfolding open_newest
  open_row_store files = open_newest files none (some [])
