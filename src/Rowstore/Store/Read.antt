-- ===== src/Rowstore/Store/Read.antt =====
-- row_store.go: `fileStore.iterate` ends, and it reports the rows of a file that was written.
use mathlib.Core.Option
use zenodb.Prelude.{
  ℕ, suc, ◌+◌, ◌<◌, ◌≤◌, ◌^◌, ◌*◌, ◌++◌, arith, Option-cases, inl, inr, ◌≡◌, refl, ap, ◌∙◌, Bool,
  false, Option, none, some, List, [], ◌∷◌, length,
}
use zenodb.Prelude.Int.{ℤ}
use zenodb.Prelude.Assoc.{Assoc}
use zenodb.Bytetree.{Tree}
use zenodb.Encoding.Time.{Time}
use zenodb.Encoding.Until.{Quotients}
use zenodb.Expr.{Outside, Expr}
use zenodb.Offsets.{WalOffset, OffsetsBySource}
use zenodb.Sequence.{Sequence}
use zenodb.Rowstore.Header.{source_key, info}
use zenodb.Rowstore.Fields.{out_idxs_for}
use zenodb.Rowstore.Iterate.{
  remove_from, Rows, Reply, Problem, Ending, finished, returned, crashed, out_of_fuel,
}
use zenodb.Bytetree.Walk.{call_each, walk_lem}
use zenodb.Rowstore.Header.{join, write_header}
use zenodb.Rowstore.Header.Offsets.{AreOffsets}
use zenodb.Rowstore.Header.Fields.{AreFields, info-write_header}
use zenodb.Rowstore.Fields.Same.{AreApart}
use zenodb.Rowstore.Fields.Strange.{AreStrange}
use zenodb.Rowstore.Iterate.Ends.{IsFueled, rows_from-ends}
use zenodb.Rowstore.Iterate.Written.{Entry, rows_bytes, AreRows, rows_from-rows_bytes}
use zenodb.Rowstore.Iterate.Reports.{each_entry, AreWide, over_rows-same, over_rows-strange}
use zenodb.Rowstore.Store.{
  Field, Memstore, rest_row, rest_of_memory, or_default, texts_of, exprs_of, offsets_of,
  saved_offsets, after_file, iterate,
}

length-exprs_of : {x : Outside} (fs : List (Field x)) → length (exprs_of fs) ≡ length (texts_of fs)
unfolding exprs_of texts_of
length-exprs_of [] = refl
length-exprs_of (f ∷ fs) = ap suc (length-exprs_of fs)

module _ {S E : Type 0} (on_row : S → List ℕ → List Sequence → Option (List ℕ) → Reply S E)
    (x : Outside) (q : Quotients) where
  rest_of_memory-ends :
      (exprs : List (Expr x)) (resolution : ℕ) (before : Time) (idxs : List (Option ℕ)) (ctx : ℕ)
      (tree : Tree (List Sequence)) (s : S)
      → IsFueled (rest_of_memory on_row x q exprs resolution before idxs ctx tree s)
  unfolding rest_of_memory IsFueled
  rest_of_memory-ends exprs resolution before idxs ctx tree s =
      let f = rest_row on_row x q exprs resolution before idxs in
      let (calls, p, e) = walk_lem ctx f tree s in
      rw (rest_of_memory, e)
        (elim (Option-cases (call_each ctx f tree.root s calls).2) [
          | inl g ↦ rw g tt
          | inr (none, g) ↦ rw g tt
          | inr (some p, g) ↦ rw g tt
        ])

  module _ (w : WalOffset) (offset_of : List ℕ → w.Offset) (offset_size : ℕ) (resolution : ℕ)
      (before : Time) (ctx : ℕ) (version : ℕ) (blank : List ℕ) (fields : List (Field x)) where
    after_file-none :
        (outs : List (Field x)) (offsets : OffsetsBySource w ℤ) (ending : Ending S E)
        → after_file w offset_of offset_size on_row x q resolution before ctx version blank fields
            outs none offsets ending
          ≡ (offsets, ending)
    unfolding after_file
    after_file-none outs offsets (finished m s) = refl
    after_file-none outs offsets (returned m s p) = refl
    after_file-none outs offsets crashed = refl
    after_file-none outs offsets out_of_fuel = refl

    after_file-returned :
        (outs : List (Field x)) (ms : Option Memstore) (offsets : OffsetsBySource w ℤ)
        (m : Option Rows) (s : S) (p : Option (Problem E))
        → after_file w offset_of offset_size on_row x q resolution before ctx version blank fields
            outs ms offsets
            (returned m s p)
          ≡ (offsets, returned m s p)
    unfolding after_file
    after_file-returned outs none offsets m s p = refl
    after_file-returned outs (some ms) offsets m s p = refl

    after_file-ends :
        (outs : List (Field x)) (ms : Option Memstore) (offsets : OffsetsBySource w ℤ)
        (ending : Ending S E)
        → IsFueled ending
        → IsFueled
            (after_file w offset_of offset_size on_row x q resolution before ctx version blank
              fields outs ms offsets ending).1
    unfolding after_file
    after_file-ends outs (some ms) offsets (finished (some root) s) h =
        rest_of_memory-ends (exprs_of outs) resolution before _ ctx (record ms.tree { root = root })
          s
    after_file-ends outs (some ms) offsets (finished none s) h = h
    after_file-ends outs none offsets (finished m s) h = h
    after_file-ends outs none offsets (returned m s p) h = h
    after_file-ends outs (some ms) offsets (returned m s p) h = h
    after_file-ends outs none offsets crashed h = h
    after_file-ends outs (some ms) offsets crashed h = h
    after_file-ends outs none offsets out_of_fuel h = h
    after_file-ends outs (some ms) offsets out_of_fuel h = h

    -- `iterate` ends: neither the loop over the file nor the walk of what is left in memory runs out of fuel,
    -- whatever the bytes of the file are.
    pub iterate-ends :
        (asked : List (Field x)) (ms : Option Memstore) (raw_okay : Bool)
        (file offset_file : Option (List ℕ)) (s : S)
        → IsFueled
            (iterate w offset_of offset_size on_row x q resolution before ctx version blank fields
              asked ms raw_okay file offset_file s).1
    unfolding iterate IsFueled
    iterate-ends asked ms raw_okay none offset_file s =
        elim (Option-cases (saved_offsets w offset_of offset_size offset_file)) [
          | inl e ↦ rw (iterate, e) tt
          | inr (offsets, e) ↦
              rw (iterate, e)
                (after_file-ends (or_default fields asked) ms offsets
                  (finished (Option.map (λ m. m.tree.root) ms) s) tt)
        ]
    iterate-ends asked ms raw_okay (some file) offset_file s =
        elim (Option-cases (info offset_size version blank (texts_of fields) file)) [
          | inl e ↦ rw (iterate, e) tt
          | inr (i, e) ↦
              rw (iterate, e)
                (after_file-ends (or_default fields asked) ms _ _ (
                  rows_from-ends on_row x q _ resolution before _ _ ctx _ _ i.rows _ s
                    (omega arith)))
        ]

  -- `iterate` of a file that was written with the fields of the store, without memory and with the columns
  -- read, gives the offsets that were written, and the callback gets each row that was written, in order and
  -- with its columns, for as long as it asks for more. The bounds are those of the header and the rows.
  pub iterate-written :
      (w : WalOffset) (offset_of : List ℕ → w.Offset) (offset_size : ℕ) (resolution : ℕ)
      (before : Time) (ctx : ℕ) (blank : List ℕ) (f : Field x) (fs : List (Field x))
      (offsets : Assoc ℤ (List ℕ)) (rows : List Entry) (offset_file : Option (List ℕ)) (s : S)
      → AreOffsets offset_size offsets
      → AreFields (texts_of (f ∷ fs)) (texts_of (f ∷ fs))
      → AreApart (texts_of (f ∷ fs))
      → 8 + length offsets * (8 + offset_size) + length (join b'|' (texts_of (f ∷ fs))) < 2 ^ 32
      → AreRows rows
      → AreWide (length (texts_of (f ∷ fs))) rows
      → iterate w offset_of offset_size on_row x q resolution before ctx 5 blank
          (f ∷ fs)
          []
          none
          false
          (some (write_header offset_size offsets (texts_of (f ∷ fs)) ++ rows_bytes rows))
          offset_file
          s
        ≡ (some (offsets_of w offset_of offset_size offsets), each_entry on_row rows s)
  unfolding iterate or_default texts_of exprs_of
  iterate-written w offset_of offset_size resolution before ctx blank f fs offsets rows offset_file
        s o t a l r d =
      let e =
        info-write_header offset_size blank (texts_of (f ∷ fs)) offsets f.text (texts_of fs)
          (rows_bytes rows) o t l in
      let p =
        rows_from-rows_bytes on_row x q (exprs_of (f ∷ fs)) resolution before
          (out_idxs_for (texts_of (f ∷ fs)) (texts_of (f ∷ fs)))
          (out_idxs_for (texts_of (f ∷ fs)) []) ctx false (1 + length (rows_bytes rows)) rows none s
          r (omega arith) in
      rw (iterate, e)
        (after_file-none w offset_of offset_size resolution before ctx 5 blank (f ∷ fs) (f ∷ fs) _ _
          ∙ ap (λ ending. (some (offsets_of w offset_of offset_size offsets), ending))
              (p
                ∙ over_rows-same on_row x q (exprs_of (f ∷ fs)) resolution before f.text
                    (texts_of fs) (out_idxs_for (texts_of (f ∷ fs)) []) ctx rows s a
                    (length-exprs_of (f ∷ fs)) d))

  -- Where none of the fields asked for is a field of the file, and there is nothing in memory for the key of its
  -- first row, `iterate` returns at that row without an error and without a report, whatever rows come behind it
  -- and whatever else is in memory, and the offsets are those of the file alone.
  iterate-strange :
      (w : WalOffset) (offset_of : List ℕ → w.Offset) (offset_size : ℕ) (resolution : ℕ)
      (before : Time) (ctx : ℕ) (blank : List ℕ) (f : Field x) (fs : List (Field x)) (o : Field x)
      (os : List (Field x)) (ms : Option Memstore) (offsets : Assoc ℤ (List ℕ)) (key : List ℕ)
      (cs : List Sequence) (rows : List Entry) (offset_file : Option (List ℕ)) (s : S)
      → AreOffsets offset_size offsets
      → AreFields (texts_of (f ∷ fs)) (texts_of (f ∷ fs))
      → AreStrange (texts_of (o ∷ os)) (texts_of (f ∷ fs))
      → 8 + length offsets * (8 + offset_size) + length (join b'|' (texts_of (f ∷ fs))) < 2 ^ 32
      → AreRows ((key, cs) ∷ rows)
      → length cs ≤ length (texts_of (f ∷ fs))
      → (remove_from ctx (Option.map (λ m. m.tree.root) ms) key).1 ≡ none
      → iterate w offset_of offset_size on_row x q resolution before ctx 5 blank
          (f ∷ fs)
          (o ∷ os)
          ms
          false
          (some
            (write_header offset_size offsets (texts_of (f ∷ fs)) ++ rows_bytes ((key, cs) ∷ rows)))
          offset_file
          s
        ≡ (
          some (offsets_of w offset_of offset_size offsets),
          returned (remove_from ctx (Option.map (λ m. m.tree.root) ms) key).0 s none,
        )
  unfolding iterate or_default texts_of exprs_of
  iterate-strange w offset_of offset_size resolution before ctx blank f fs o os ms offsets key cs
        rows offset_file s a t g l r n m =
      let file = rows_bytes ((key, cs) ∷ rows) in
      let e =
        info-write_header offset_size blank (texts_of (f ∷ fs)) offsets f.text (texts_of fs) file a
          t l in
      let ins = out_idxs_for (texts_of (o ∷ os)) (texts_of (f ∷ fs)) in
      let mems = out_idxs_for (texts_of (o ∷ os)) (elim ms [ none ↦ [] | some m ↦ m.fields ]) in
      let memory = Option.map (λ m. m.tree.root) ms in
      let p =
        rows_from-rows_bytes on_row x q (exprs_of (o ∷ os)) resolution before ins mems ctx false
          (1 + length file) ((key, cs) ∷ rows) memory s r (omega arith) in
      let stops =
        over_rows-strange on_row x q (exprs_of (o ∷ os)) resolution before (texts_of (o ∷ os))
          (texts_of (f ∷ fs)) mems ctx key cs rows memory s g n m in
      rw (iterate, e)
        (ap
            (after_file w offset_of offset_size on_row x q resolution before ctx 5 blank (f ∷ fs)
              (o ∷ os) ms (some (offsets_of w offset_of offset_size offsets)))
            (p ∙ stops)
          ∙ after_file-returned w offset_of offset_size resolution before ctx 5 blank (f ∷ fs)
              (o ∷ os) ms _ _ s none)
