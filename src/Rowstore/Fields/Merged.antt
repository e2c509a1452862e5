-- ===== src/Rowstore/Fields/Merged.antt =====
-- row_store.go: columns in memory of the fields asked for are merged each into its own.
use mathlib.Core.List.{append_assoc}
use zenodb.Prelude.{
  ℕ, ◌+◌, ◌<◌, ◌≤◌, ◌≡◌, refl, ap, sym, ◌∙◌, true, Option, none, some, List, [], ◌∷◌, ◌++◌, arith,
  length, length-append, get_elem?, ◌>>=◌, Option-cases, inl, inr,
}
use zenodb.Encoding.Time.{Time}
use zenodb.Encoding.Until.{Quotients}
use zenodb.Expr.{Outside, Expr}
use zenodb.Sequence.{Sequence}
use zenodb.Sequence.Merging.{merge_sequences}
use zenodb.Rowstore.Fields.{Out, out_idxs_for, merge_at, merge_column, merge_columns}
use zenodb.Rowstore.Fields.Same.{
  AreApart, indices, out_idxs_for-indices, get_elem?-indices_zero, put_at-append,
}

get_elem?-append :
    {A : Type 0} (xs : List A) (y : A) (ys : List A)
    → get_elem? (xs ++ (y ∷ ys)) (length xs) ≡ some y
get_elem?-append [] y ys = refl
get_elem?-append (x ∷ xs) y ys = get_elem?-append xs y ys

shift :
    (done : List Sequence) (s : Sequence) (m : Option (List Sequence))
    → ◌>>=◌ {B = Out} m (λ out. some ((done ++ (s ∷ [])) ++ out, true))
      ≡ ◌>>=◌ {B = Out} (m >>= λ rest. some (s ∷ rest)) (λ out. some (done ++ out, true))
shift done s none = refl
shift done s (some out) = ap (λ l. some (l, true)) (append_assoc done (s ∷ []) out)

module _ (x : Outside) (q : Quotients) (resolution : ℕ) (before : Time) where
  -- Each column of the file merged with that in memory.
  unfoldable pub zip_merge : List (Expr x) → List Sequence → List Sequence → Option (List Sequence)
  zip_merge (e ∷ es) (c ∷ cs) (m ∷ ms) = do
    s ← merge_sequences x q e resolution before c m
    rest ← zip_merge es cs ms
    some (s ∷ rest)
  zip_merge es cs ms = some []

  merge_column-indices :
      (fs : List (List ℕ)) (des es : List (Expr x)) (e : Expr x) (done cs : List Sequence)
      (c m : Sequence)
      → length des ≡ length done
      → length done < length fs
      → merge_column x q
          (des ++ (e ∷ es))
          resolution
          before
          (indices 0 fs)
          (length done)
          m
          (done ++ (c ∷ cs), true)
        ≡ (merge_sequences x q e resolution before c m >>= λ s. some (done ++ (s ∷ cs), true))
  unfolding merge_column merge_at
  merge_column-indices fs des es e done cs c m d l =
      let at : get_elem? (des ++ (e ∷ es)) (length done) ≡ some e =
        ap (get_elem? (des ++ (e ∷ es))) (sym d) ∙ get_elem?-append des e es in
      elim (Option-cases (merge_sequences x q e resolution before c m)) [
        | inl f ↦
            rw
              (
                merge_column,
                get_elem?-indices_zero fs (length done) l,
                merge_at,
                at,
                get_elem?-append done c cs,
                f,
              )
              refl
        | inr (s, f) ↦
            rw
              (
                merge_column,
                get_elem?-indices_zero fs (length done) l,
                merge_at,
                at,
                get_elem?-append done c cs,
                f,
                put_at-append done s c cs,
              )
              refl
      ]

  merge_columns-indices :
      (fs : List (List ℕ)) (des es : List (Expr x)) (done cs ms : List Sequence)
      → length des ≡ length done
      → length done + length ms ≤ length fs
      → length es ≡ length ms
      → length cs ≡ length ms
      → merge_columns x q
          (des ++ es)
          resolution
          before
          (indices 0 fs)
          (length done)
          ms
          (done ++ cs, true)
        ≡ (zip_merge es cs ms >>= λ out. some (done ++ out, true))
  unfolding merge_columns zip_merge
  merge_columns-indices fs des [] done [] [] d l a b = refl
  merge_columns-indices fs des [] done (c ∷ cs) ms d l a b = absurd (omega arith)
  merge_columns-indices fs des (e ∷ es) done [] ms d l a b = absurd (omega arith)
  merge_columns-indices fs des [] done [] (m ∷ ms) d l a b = absurd (omega arith)
  merge_columns-indices fs des (e ∷ es) done (c ∷ cs) [] d l a b = absurd (omega arith)
  merge_columns-indices fs des (e ∷ es) done (c ∷ cs) (m ∷ ms) d l a b =
      let now = merge_column-indices fs des es e done cs c m d (omega arith) in
      elim (Option-cases (merge_sequences x q e resolution before c m)) [
        | inl f ↦ rw (merge_columns, now, zip_merge, f) refl
        | inr (s, f) ↦
            (let n : length (done ++ (s ∷ [])) ≡ 1 + length done =
                omega (arith, length-append done (s ∷ [])) in
              let later =
                merge_columns-indices fs (des ++ (e ∷ [])) es (done ++ (s ∷ [])) cs ms
                  (omega (arith, length-append des (e ∷ []), n)) (omega (arith, n)) (omega arith)
                  (omega arith) in
              rw (merge_columns, now, zip_merge, f)
                (rw (n, append_assoc des (e ∷ []) es, append_assoc done (s ∷ []) cs) at later
                  ∙ shift done s (zip_merge es cs ms)))
      ]

  -- Where memory has the fields asked for, each of the columns is merged with its own.
  pub merge_columns-same :
      (fs : List (List ℕ)) (es : List (Expr x)) (cs ms : List Sequence)
      → AreApart fs
      → length es ≡ length fs
      → length cs ≡ length fs
      → length ms ≡ length fs
      → merge_columns x q es resolution before (out_idxs_for fs fs) 0 ms (cs, true)
        ≡ (zip_merge es cs ms >>= λ out. some (out, true))
  merge_columns-same fs es cs ms a k l m =
      rw (out_idxs_for-indices fs a)
        (merge_columns-indices fs [] es [] cs ms refl (omega arith) (omega arith) (omega arith))
