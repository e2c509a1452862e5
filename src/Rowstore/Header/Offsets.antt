-- ===== src/Rowstore/Header/Offsets.antt =====
-- row_store.go: the offsets and the fields of a header are read as they were written.
use zenodb.Prelude.{
  ℕ, suc, ◌^◌, ◌<◌, ◌≡◌, refl, ap, sym, ◌∙◌, false, none, some, List, [], ◌∷◌, ◌++◌, arith, length,
}
use mathlib.Core.List.{append_assoc, append-nil}
use zenodb.Prelude.Int.{ℤ, pos}
use zenodb.Prelude.Assoc.{Assoc, get, put}
use zenodb.Encoding.Binary.{
  length-put_uint64, read_int64-put, IsInt64, to_word, read_int64, read-append_of,
}
use zenodb.Rowstore.Header.{
  source_key, int_bytes, entries_bytes, write_offsets, read_entries, rounds, read_offsets,
}
open source_key use {same, same_iff}

-- Offsets that a Go map can have and that fit: each source once, and each offset of the offset size.
abbrev pub AreOffsets : ℕ → Assoc ℤ (List ℕ) → Type 0
AreOffsets size [] = Unit {0}
AreOffsets size ((source, offset) ∷ entries) =
    (get source entries ≡ none) × IsInt64 source × (length offset ≡ size) × AreOffsets size entries

-- A new key is put at the end.
put-absent :
    (k : ℤ) (v : List ℕ) (entries : Assoc ℤ (List ℕ))
    → get k entries ≡ none
    → put k v entries ≡ entries ++ ((k, v) ∷ [])
unfolding get put
put-absent k v [] h = refl
put-absent k v ((i, w) ∷ entries) h = ground (arith, h, put-absent k v entries)

-- No source of the one is a source of the other.
abbrev AreApart : Assoc ℤ (List ℕ) → Assoc ℤ (List ℕ) → Type 0
AreApart known [] = Unit {0}
AreApart known ((source, offset) ∷ entries) = (get source known ≡ none) × AreApart known entries

get-append-absent :
    (i k : ℤ) (v : List ℕ) (known : Assoc ℤ (List ℕ))
    → get i known ≡ none
    → same k i ≡ false
    → get i (known ++ ((k, v) ∷ [])) ≡ none
unfolding get
get-append-absent i k v [] g h = ground (arith, h)
get-append-absent i k v ((j, w) ∷ known) g h = ground (arith, g, h, get-append-absent i k v known)

apart_after :
    (k : ℤ) (v : List ℕ) (known entries : Assoc ℤ (List ℕ))
    → AreApart known entries
    → get k entries ≡ none
    → AreApart (known ++ ((k, v) ∷ [])) entries
unfolding get
apart_after k v known [] a g = tt
apart_after k v known ((i, w) ∷ entries) a g =
    let d : same k i ≡ false = ground (arith, g, same_iff k i, same_iff i k, same_iff i i) in
    (get-append-absent i k v known a.0 d, apart_after k v known entries a.1 (ground (arith, g)))

AreApart-nil : (entries : Assoc ℤ (List ℕ)) → AreApart [] entries
unfolding get
AreApart-nil [] = tt
AreApart-nil ((i, w) ∷ entries) = (refl, AreApart-nil entries)

pub length-int_bytes : (i : ℤ) → length (int_bytes i) ≡ 8
unfolding int_bytes
length-int_bytes i = length-put_uint64 (to_word (2 ^ 64) i)

read_int_bytes : (i : ℤ) (r : List ℕ) → IsInt64 i → read_int64 (int_bytes i ++ r) ≡ some (i, r)
unfolding int_bytes
read_int_bytes i r h = read_int64-put i r h

module _ (size : ℕ) where
  read_entries_lem :
      (known entries : Assoc ℤ (List ℕ)) (rest : List ℕ)
      → AreOffsets size entries
      → AreApart known entries
      → read_entries size (length entries) known (entries_bytes entries ++ rest)
        ≡ some (known ++ entries, rest)
  unfolding read_entries entries_bytes
  read_entries_lem known [] rest h a = ap (λ l. some (l, rest)) (sym (append-nil known))
  read_entries_lem known ((source, offset) ∷ entries) rest (g, i, l, h) a =
      let shape : entries_bytes ((source, offset) ∷ entries) ++ rest
          ≡ int_bytes source ++ (offset ++ (entries_bytes entries ++ rest)) =
        simp append_assoc in
      let tail = entries_bytes entries ++ rest in
      ap (read_entries size (suc (length entries)) known) shape
      ∙ rw (read_int_bytes source (offset ++ tail) i, read-append_of offset tail size l)
          (ap (λ k. read_entries size (length entries) k tail) (put-absent source offset known a.0)
            ∙ read_entries_lem (known ++ ((source, offset) ∷ [])) entries rest h
                (apart_after source offset known entries a.1 g)
            ∙ ap (λ k. some (k, rest)) (append_assoc known ((source, offset) ∷ []) entries))

  -- `readOffsets` reads what `writeOffsets` wrote, at the front of a header.
  pub read_offsets-write_offsets :
      (offsets : Assoc ℤ (List ℕ)) (rest : List ℕ)
      → AreOffsets size offsets
      → length offsets < 2 ^ 63
      → read_offsets size 5 (write_offsets offsets ++ rest) ≡ some (offsets, rest)
  unfolding read_offsets write_offsets rounds
  read_offsets-write_offsets offsets rest h l =
      let n = pos (length offsets) in
      let shape : write_offsets offsets ++ rest ≡ int_bytes n ++ (entries_bytes offsets ++ rest) =
        simp append_assoc in
      ap (read_offsets size 5) shape
      ∙ rw (read_int_bytes n (entries_bytes offsets ++ rest) l)
          (read_entries_lem [] offsets rest h (AreApart-nil offsets))
