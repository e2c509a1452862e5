-- ===== src/Rowstore/Open/Newest.antt =====
-- row_store.go: a row store starts with the newest file that is whole, and goes on from its offsets.
use zenodb.Prelude.{
  ℕ, ◌+◌, ◌*◌, ◌^◌, ◌≤◌, ◌<◌, ◌≡◌, refl, sym, ap, ◌∙◌, true, false, Option, none, some, List, [],
  ◌∷◌, ◌++◌, arith, ltb, length, list_eq, list_eq_refl,
}
use mathlib.Core.List.{append_assoc}
use zenodb.Prelude.Int.{ℤ}
use zenodb.Prelude.Assoc.{Assoc}
use zenodb.Encoding.Binary.{put_uint32, uint32-put, read-append_of}
use zenodb.Offsets.{WalOffset, OffsetsBySource, advance}
use zenodb.Rowstore.Header.{source_key, split_from, join, write_header, write_offsets}
use zenodb.Rowstore.Header.Offsets.{AreOffsets, read_offsets-write_offsets}
use zenodb.Rowstore.Header.Fields.{length-header}
use zenodb.Rowstore.Store.{offsets_of}
use zenodb.Rowstore.Open.{
  StoredFile, offset_filename, version_for, header_of, opened, after_removal, from_offset_file,
  from_file, version_and_header, open_newest, open_row_store,
}

-- Files of rows, with a version in their names, that end within their header, as when the process stopped while it wrote them.
unfoldable pub AreCutOff : (List ℕ → Option ℕ) → List StoredFile → Type 0
AreCutOff atoi [] = Unit {0}
AreCutOff atoi (f ∷ files) =
    (list_eq f.name offset_filename ≡ false)
    × ((file : List ℕ) × (f.contents ≡ some file) × (header_of file ≡ none))
    × ((version : ℕ) × (version_for atoi (split_from b'_' f.name) ≡ some version))
    × AreCutOff atoi files

pub names_of : List StoredFile → List (List ℕ)
names_of [] = []
names_of (f ∷ files) = f.name ∷ names_of files

header_of-write_header :
    (size : ℕ) (offsets : Assoc ℤ (List ℕ)) (texts : List (List ℕ)) (rows : List ℕ)
    → AreOffsets size offsets
    → 8 + length offsets * (8 + size) + length (join b'|' texts) < 2 ^ 32
    → header_of (write_header size offsets texts ++ rows)
      ≡ some (write_offsets offsets ++ join b'|' texts)
unfolding header_of write_header
header_of-write_header size offsets texts rows h l =
    let header = write_offsets offsets ++ join b'|' texts in
    let n = 8 + length offsets * (8 + size) + length (join b'|' texts) in
    let shape : write_header size offsets texts ++ rows ≡ put_uint32 n ++ (header ++ rows) =
      simp append_assoc in
    let (a, b) = uint32-put n (header ++ rows) l in
    ap header_of shape
    ∙ rw (a, b, read-append_of header rows n (length-header size offsets (join b'|' texts) h)) refl

append-nil : (xs : List ℕ) → xs ++ [] ≡ xs
append-nil [] = refl
append-nil (x ∷ xs) = ap (λ l. x ∷ l) (append-nil xs)

module _ (w : WalOffset) (offset_of : List ℕ → w.Offset) (size : ℕ) (atoi : List ℕ → Option ℕ) where
  abbrev bytes_of : Assoc ℤ (List ℕ) → OffsetsBySource w ℤ
  bytes_of offsets = some (offsets_of w offset_of size offsets)

  from_offset_file-write_offsets :
      (saved : Assoc ℤ (List ℕ)) (before : OffsetsBySource w ℤ)
      → AreOffsets size saved
      → 1 ≤ length saved
      → length saved < 2 ^ 63
      → from_offset_file w offset_of size atoi (some (write_offsets saved)) before
        ≡ some (bytes_of saved)
  unfolding from_offset_file
  from_offset_file-write_offsets saved before h l m =
      let e = length-header size saved [] h in
      let n : write_offsets saved ++ [] ≡ write_offsets saved = append-nil (write_offsets saved) in
      let e' : length (write_offsets saved) ≡ 8 + length saved * (8 + size) + 0 =
        ap length (sym n) ∙ e in
      let g : 8 + size ≤ length saved * (8 + size) = grind (arith, l) in
      let c : ltb (length (write_offsets saved)) size ≡ false = ground (arith, e', g) in
      let d : ltb size (length (write_offsets saved)) ≡ true = ground (arith, e', g) in
      let r = read_offsets-write_offsets size saved [] h m in
      let r' = rw n at r in rw (c, d, r') refl

  module _ (texts : List (List ℕ)) (rows : List ℕ) (offsets : Assoc ℤ (List ℕ))
      (name : List ℕ) where
    from_file-header :
        (before : OffsetsBySource w ℤ)
        → AreOffsets size offsets
        → length offsets < 2 ^ 63
        → from_file w offset_of size atoi name 5 (write_offsets offsets ++ join b'|' texts) before
          ≡ opened (some name) (advance w (bytes_of offsets) before) []
    unfolding from_file
    from_file-header before h l =
        rw (from_file, read_offsets-write_offsets size offsets (join b'|' texts) h l) refl

    abbrev whole : StoredFile
    whole = record { name = name; contents = some (write_header size offsets texts ++ rows) }

    open_newest-whole :
        (cut_off older : List StoredFile) (existing : Option (List ℕ))
        (before : OffsetsBySource w ℤ)
        → AreCutOff atoi cut_off
        → list_eq name offset_filename ≡ false
        → AreOffsets size offsets
        → 8 + length offsets * (8 + size) + length (join b'|' texts) < 2 ^ 32
        → version_for atoi (split_from b'_' name) ≡ some 5
        → open_newest w offset_of size atoi (cut_off ++ (whole ∷ older)) existing before
          ≡ opened (some name) (advance w (bytes_of offsets) before) (names_of cut_off)
    unfolding open_newest AreCutOff names_of after_removal
    open_newest-whole [] older existing before c n h l v =
        let k : length offsets ≤ length offsets * (8 + size) = grind arith in
        rw
          (
            open_newest,
            n,
            version_and_header,
            v,
            header_of-write_header size offsets texts rows h l,
          )
          (from_file-header before h (omega (arith, k, l)))
    open_newest-whole (f ∷ files) older existing before (g, (file, e, t), (u, i), c) n h l v =
        rw
          (
            open_newest,
            g,
            e,
            version_and_header,
            i,
            t,
            open_newest-whole files older (some f.name) before c n h l v,
          )
          refl

    -- Where the file of offsets comes first, with the offsets that `writeOffsets` wrote, then files that
    -- have a version in their names and end within their header, then a file of version 5 with a header that `createOutWriter` wrote, and
    -- any others: `openRowStore` removes the files that are cut off, starts with the whole file, and
    -- its offsets are those of the file, each raised to that of the file of offsets.
    pub open_row_store-whole :
        (saved : Assoc ℤ (List ℕ)) (cut_off older : List StoredFile)
        → AreOffsets size saved
        → 1 ≤ length saved
        → length saved < 2 ^ 63
        → AreCutOff atoi cut_off
        → list_eq name offset_filename ≡ false
        → AreOffsets size offsets
        → 8 + length offsets * (8 + size) + length (join b'|' texts) < 2 ^ 32
        → version_for atoi (split_from b'_' name) ≡ some 5
        → open_row_store w offset_of size atoi (
            record { name = offset_filename; contents = some (write_offsets saved) }
            ∷ (cut_off ++ (whole ∷ older)))
          ≡ opened (some name) (advance w (bytes_of offsets) (bytes_of saved)) (names_of cut_off)
    unfolding open_row_store open_newest
    open_row_store-whole saved cut_off older a b d c n h l v =
        rw
          (
            open_row_store,
            open_newest,
            list_eq_refl offset_filename,
            from_offset_file-write_offsets saved (some []) a b d,
            open_newest-whole cut_off older none (bytes_of saved) c n h l v,
          )
          refl
