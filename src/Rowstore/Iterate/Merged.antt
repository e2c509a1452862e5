-- ===== src/Rowstore/Iterate/Merged.antt =====
-- row_store.go: a row of the file that is also in memory.
use zenodb.Prelude.{
  ℕ, suc, ◌++◌, ◌<◌, ◌^◌, ◌≡◌, refl, ap, ◌∙◌, Bool, true, Option, none, some, List, [], ◌∷◌, arith,
  length, replicate,
}
use zenodb.Bytetree.{remove_edges}
use zenodb.Bytetree.Contexts.{seen, remove_edges-found}
use zenodb.Encoding.Time.{Time}
use zenodb.Encoding.Until.{Quotients}
use zenodb.Expr.{Outside, Expr}
use zenodb.Sequence.{Sequence}
use zenodb.Rowstore.Rows.{row_length, row_bytes}
use zenodb.Rowstore.Rows.RoundTrip.{AreShort, next_row-row_bytes}
use zenodb.Rowstore.Fields.{out_idxs_for}
use zenodb.Rowstore.Fields.Same.{AreApart, map_columns-same}
use zenodb.Rowstore.Fields.Merged.{zip_merge, merge_columns-same}
use zenodb.Rowstore.Iterate.{
  Rows, Reply, go_on, remove_from, or_none, answered, combine, report, rows_from,
}
use zenodb.Rowstore.Iterate.Written.{entry_step, row_step-written_row}

module _ {S E : Type 0} (on_row : S → List ℕ → List Sequence → Option (List ℕ) → Reply S E)
    (x : Outside) (q : Quotients) (exprs : List (Expr x)) (resolution : ℕ) (before : Time)
    (f : List ℕ) (fs : List (List ℕ)) where
  combine-merged :
      (cs ms out : List Sequence)
      → AreApart (f ∷ fs)
      → length exprs ≡ length (f ∷ fs)
      → length cs ≡ length (f ∷ fs)
      → length ms ≡ length (f ∷ fs)
      → zip_merge x q resolution before exprs cs ms ≡ some out
      → combine on_row x q exprs resolution before
          (out_idxs_for (f ∷ fs) (f ∷ fs))
          (out_idxs_for (f ∷ fs) (f ∷ fs))
          cs
          ms
        ≡ some (out, true)
  unfolding combine
  combine-merged [] ms out a n l m z = absurd (omega arith)
  combine-merged (c ∷ cs) ms out a n l m z =
      rw (ap (λ k. replicate {A = Sequence} k []) n, map_columns-same (f ∷ fs) (c ∷ cs) a l)
        (merge_columns-same x q resolution before (f ∷ fs) exprs (c ∷ cs) ms a n l m ∙ rw z refl)

  entry_step-merged :
      (ctx : ℕ) (raw_okay : Bool) (key : List ℕ) (cs ms out : List Sequence) (es : Rows) (s : S)
      → combine on_row x q exprs resolution before
          (out_idxs_for (f ∷ fs) (f ∷ fs))
          (out_idxs_for (f ∷ fs) (f ∷ fs))
          cs
          ms
        ≡ some (out, true)
      → seen ctx es key ≡ some ms
      → (on_row s key out none).more ≡ true
      → (on_row s key out none).error ≡ none
      → entry_step on_row x q exprs resolution before
          (out_idxs_for (f ∷ fs) (f ∷ fs))
          (out_idxs_for (f ∷ fs) (f ∷ fs))
          ctx
          raw_okay
          (some es)
          s
          (key, cs)
        ≡ go_on (some (remove_edges ctx es key).0) (on_row s key out none).state
  unfolding entry_step remove_from or_none report answered
  entry_step-merged ctx raw_okay key cs ms out es s d v p e =
      rw (entry_step, remove_from, remove_edges-found ctx es key, v, report, d, answered, p, e) refl

  -- Where the file and memory have the fields asked for, and the iteration sees columns in memory at the key
  -- of the next row, the callback gets the row with each of its columns merged with that in memory, also
  -- where raw rows are allowed. If it then asks for more, the loop goes on behind the row, and the key
  -- is removed from memory for this iteration. The merges do not panic, and key, columns and row fit.
  pub rows_from-merged :
      (ctx : ℕ) (raw_okay : Bool) (fuel : ℕ) (key : List ℕ) (cs ms out : List Sequence)
      (rest : List ℕ) (es : Rows) (s : S)
      → AreApart (f ∷ fs)
      → length exprs ≡ length (f ∷ fs)
      → length cs ≡ length (f ∷ fs)
      → length ms ≡ length (f ∷ fs)
      → length key < 2 ^ 16
      → length cs < 2 ^ 16
      → AreShort cs
      → row_length key cs < 2 ^ 64
      → seen ctx es key ≡ some ms
      → zip_merge x q resolution before exprs cs ms ≡ some out
      → (on_row s key out none).more ≡ true
      → (on_row s key out none).error ≡ none
      → rows_from on_row x q exprs resolution before
          (out_idxs_for (f ∷ fs) (f ∷ fs))
          (out_idxs_for (f ∷ fs) (f ∷ fs))
          ctx
          raw_okay
          (suc fuel)
          (row_bytes key cs ++ rest)
          (some es)
          s
        ≡ rows_from on_row x q exprs resolution before
            (out_idxs_for (f ∷ fs) (f ∷ fs))
            (out_idxs_for (f ∷ fs) (f ∷ fs))
            ctx
            raw_okay
            fuel
            rest
            (some (remove_edges ctx es key).0)
            (on_row s key out none).state
  unfolding rows_from
  rows_from-merged ctx raw_okay fuel key cs ms out rest es s a n l m k c h b v z p e =
      let idxs = out_idxs_for (f ∷ fs) (f ∷ fs) in
      let (u, t) = next_row-row_bytes key cs rest k c h b in
      rw
        (
          rows_from,
          u,
          row_step-written_row on_row x q exprs resolution before idxs idxs ctx raw_okay (some es) s
              key cs t,
          entry_step-merged ctx raw_okay key cs ms out es s (combine-merged cs ms out a n l m z) v p
              e,
        )
        refl
