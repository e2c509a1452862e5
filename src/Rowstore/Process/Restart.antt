-- ===== src/Rowstore/Process/Restart.antt =====
-- row_store.go: what a flush leaves for the next start.
use zenodb.Prelude.{
  ℕ, ◌+◌, ◌%◌, ◌*◌, ◌^◌, ◌<◌, ◌++◌, ◌==◌, ◌≡◌, refl, ap, sym, ◌∙◌, Bool, ◌&&◌, Option, none, some,
  List, [], ◌∷◌, length, inl, inr, Option-cases,
}
use zenodb.Prelude.Int.{ℤ}
use zenodb.Prelude.Assoc.{Assoc}
use zenodb.Bytetree.{empty}
use zenodb.Encoding.Until.{Quotients}
use zenodb.Expr.{Outside}
use zenodb.Offsets.{WalOffset}
use zenodb.Rowstore.Header.{source_key, join, write_header, info}
use zenodb.Rowstore.Store.{Field, texts_of}
use zenodb.Rowstore.Flush.{Flushed, flushed, flush_failed, flush}
use zenodb.Rowstore.Process.Steps.{Stays, Flushed-cases}
use zenodb.Rowstore.Process.{
  RowStore, Clock, new_memstore, or_empty, do_process_flush, attempts, process_flush, Clocks,
}
use zenodb.Rowstore.Header.Offsets.{AreOffsets}
use zenodb.Rowstore.Header.Fields.{AreFields, info-write_header}
use zenodb.Rowstore.Iterate.{Ending, finished, returned, crashed, out_of_fuel}
use zenodb.Rowstore.Flush.{Output, close, out_rows}

IsFlushed : Flushed → Type 0
IsFlushed (flushed bytes high count) = Unit {0}
IsFlushed flush_failed = ⊥

bytes_of : Flushed → List ℕ
bytes_of (flushed bytes high count) = bytes
bytes_of flush_failed = []

-- What is flushed is the header and some rows.
close-flushed :
    (sort : List (List ℕ) → List (List ℕ)) (should_sort : Bool) (header : List ℕ)
    (ending : Ending (Option Output) (Unit {0}))
    → IsFlushed (close sort should_sort header ending)
    → (rows : List ℕ) × (bytes_of (close sort should_sort header ending) ≡ header ++ rows)
unfolding close IsFlushed bytes_of
close-flushed sort should_sort header (finished m none) h = absurd h
close-flushed sort should_sort header (finished m (some o)) h =
    (out_rows sort should_sort o.chunks, refl)
close-flushed sort should_sort header (returned m none none) h = absurd h
close-flushed sort should_sort header (returned m (some o) none) h =
    (out_rows sort should_sort o.chunks, refl)
close-flushed sort should_sort header (returned m none (some p)) h = absurd h
close-flushed sort should_sort header (returned m (some o) (some p)) h = absurd h
close-flushed sort should_sort header crashed h = absurd h
close-flushed sort should_sort header out_of_fuel h = absurd h

close-header :
    (sort : List (List ℕ) → List (List ℕ)) (should_sort : Bool) (header : List ℕ)
    (ending : Ending (Option Output) (Unit {0})) (bytes : List ℕ) (high : ℤ) (count : ℕ)
    → close sort should_sort header ending ≡ flushed bytes high count
    → (rows : List ℕ) × (bytes ≡ header ++ rows)
unfolding IsFlushed bytes_of
close-header sort should_sort header ending bytes high count e =
    let (rows, p) = close-flushed sort should_sort header ending (rw e tt) in
    (rows, sym (ap bytes_of e) ∙ p)

-- After a flush the memstore is empty and has the offsets that it had, the file holds these offsets and the
-- fields of the store, and a start that reads its header finds both.
abbrev pub IsRestartable : {x : Outside} → ℕ → List ℕ → Assoc ℤ (List ℕ) → RowStore x → Type 0
IsRestartable size blank offsets rs' =
    (rs'.memory.tree ≡ empty)
    × (rs'.memory.offsets ≡ some offsets)
    × ((file rows : List ℕ) × (rs'.file ≡ some file)
        × (info size rs'.version blank (texts_of rs'.file_fields) file
            ≡ some (record { offsets = offsets; fields = texts_of rs'.fields; rows = rows })))

module _ (w : WalOffset) (offset_of : List ℕ → w.Offset) (offset_size : ℕ) (x : Outside)
    (q : Quotients) (resolution : ℕ) (blank : List ℕ) (sort : List (List ℕ) → List (List ℕ)) where
  do_process_flush-restart :
      (clock : Clock) (allow_sort : Bool) (rs : RowStore x) (offsets : Assoc ℤ (List ℕ))
      (f : Field x) (fs : List (Field x))
      → rs.memory.offsets ≡ some offsets
      → rs.fields ≡ f ∷ fs
      → AreOffsets offset_size offsets
      → AreFields (texts_of (f ∷ fs)) (texts_of (f ∷ fs))
      → 8 + length offsets * (8 + offset_size) + length (join b'|' (texts_of (f ∷ fs))) < 2 ^ 32
      → Stays
          (do_process_flush w offset_of offset_size x q resolution blank sort clock allow_sort rs)
          (IsRestartable offset_size blank offsets)
  unfolding do_process_flush new_memstore or_empty flush texts_of
  do_process_flush-restart clock allow_sort rs offsets f fs o e a t l =
      let m =
        flush w offset_of offset_size x q resolution blank sort clock.before clock.ctx rs.version
          rs.file_fields none rs.fields (or_empty rs.memory.offsets) rs.memory
          (allow_sort && clock.turn) (rs.flush_count % 10 == 9) rs.file rs.offset_file in
      elim (Flushed-cases m) [
        | inl (bytes, high, count, g) ↦
            (let (rows, p) =
                close-header sort (allow_sort && clock.turn)
                  (write_header offset_size (or_empty rs.memory.offsets) (texts_of rs.fields)) _
                  bytes high count g in
              let file : bytes ≡ write_header offset_size offsets (texts_of (f ∷ fs)) ++ rows =
                rw (o, e) at p in
              rw (do_process_flush, g)
                (
                  refl,
                  o,
                  (
                    bytes,
                    rows,
                    refl,
                    rw (file, e)
                        (info-write_header offset_size blank (texts_of (f ∷ fs)) offsets f.text
                          (texts_of fs) rows a t l),
                  ),
                ))
        | inr g ↦ rw (do_process_flush, g) tt
      ]

  attempts-stays :
      (clocks : List Clock) (allow_sort : Bool) (rs : RowStore x) (offsets : Assoc ℤ (List ℕ))
      (f : Field x) (fs : List (Field x))
      → rs.memory.offsets ≡ some offsets
      → rs.fields ≡ f ∷ fs
      → AreOffsets offset_size offsets
      → AreFields (texts_of (f ∷ fs)) (texts_of (f ∷ fs))
      → 8 + length offsets * (8 + offset_size) + length (join b'|' (texts_of (f ∷ fs))) < 2 ^ 32
      → Stays
          (attempts w offset_of offset_size x q resolution blank sort clocks allow_sort rs)
          (IsRestartable offset_size blank offsets)
  unfolding attempts
  attempts-stays [] allow_sort rs offsets f fs o e a t l = tt
  attempts-stays (clock ∷ clocks) allow_sort rs offsets f fs o e a t l =
      elim (Option-cases
        (do_process_flush w offset_of offset_size x q resolution blank sort clock allow_sort rs)) [
          | inl g ↦
              rw (attempts, g)
                (attempts-stays clocks allow_sort (record rs { flush_count = rs.flush_count + 1 })
                  offsets f fs o e a t l)
          | inr (rs', g) ↦
              rw (attempts, g)
                (rw g at (do_process_flush-restart clock allow_sort rs offsets f fs o e a t l))
        ]

  -- When a flush comes through, at whatever attempt, the memstore is empty and keeps its offsets, and `info` of
  -- the new file gives these offsets and the fields of the store, so that a start from this file goes on where
  -- the memstore was. The offsets are of the offset size and one for each source, the texts of the fields are
  -- free of the delimiter, and the header fits into four bytes with its length.
  pub process_flush-restart :
      (clocks : Clocks) (allow_sort : Bool) (rs rs' : RowStore x) (offsets : Assoc ℤ (List ℕ))
      (f : Field x) (fs : List (Field x))
      → rs.memory.offsets ≡ some offsets
      → rs.fields ≡ f ∷ fs
      → AreOffsets offset_size offsets
      → AreFields (texts_of (f ∷ fs)) (texts_of (f ∷ fs))
      → 8 + length offsets * (8 + offset_size) + length (join b'|' (texts_of (f ∷ fs))) < 2 ^ 32
      → process_flush w offset_of offset_size x q resolution blank sort clocks allow_sort rs
        ≡ some rs'
      → IsRestartable offset_size blank offsets rs'
  unfolding process_flush
  process_flush-restart clocks allow_sort rs rs' offsets f fs o e a t l g = rw g at (
      attempts-stays (clocks.first ∷ clocks.second ∷ clocks.third ∷ []) allow_sort rs offsets f fs o
        e a t l)
