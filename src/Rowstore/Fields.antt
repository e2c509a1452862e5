-- ===== src/Rowstore/Fields.antt =====
-- row_store.go: the fields of a file or of the rows in memory, brought to the places that they have among
-- the fields asked for.
pub mod Same
pub mod Strange
pub mod Merged
use zenodb.Prelude.{
  ℕ, zero, suc, ◌+◌, ◌<◌, ◌≡◌, Bool, true, false, ◌&&◌, ◌||◌, Option, none, some, List, [], ◌∷◌,
  ◌++◌, length, take, drop, get_elem?, replicate, list_eq, if◌then◌else◌, ◌>>=◌, map,
}
use zenodb.Encoding.Time.{Time}
use zenodb.Encoding.Until.{Quotients}
use zenodb.Expr.{Outside, Expr}
use zenodb.Sequence.{Sequence}
use zenodb.Sequence.Merging.{merge_sequences}

-- The first of the texts, counted from `i`, that is this one: the inner loop of `outIdxsFor`. `none` is -1.
unfoldable pub out_index : List ℕ → ℕ → List (List ℕ) → Option ℕ
out_index text i [] = none
out_index text i (t ∷ texts) = if list_eq text t then some i else out_index text (1 + i) texts

-- `outIdxsFor`.
pub out_idxs_for : List (List ℕ) → List (List ℕ) → List (Option ℕ)
unfolding out_index
out_idxs_for outs [] = []
out_idxs_for outs (i ∷ ins) = out_index i 0 outs ∷ out_idxs_for outs ins

-- `Fields.Equals`.
unfoldable pub same_fields : List (List ℕ) → List (List ℕ) → Bool
same_fields [] [] = true
same_fields [] (g ∷ gs) = false
same_fields (f ∷ fs) [] = false
same_fields (f ∷ fs) (g ∷ gs) = list_eq f g && same_fields fs gs

-- `out[o] = seq`.
unfoldable pub put_at : ℕ → Sequence → List Sequence → List Sequence
put_at n s [] = []
put_at zero s (c ∷ cs) = s ∷ cs
put_at (suc n) s (c ∷ cs) = c ∷ put_at n s cs

-- The columns that go out, and whether one was included.
abbrev pub Out : Type 0
Out = List Sequence × Bool

-- What `rowMapper` returns, in the loop over the columns of a file. Behind the fields of the file Go
-- panics, which is none.
pub map_column : List (Option ℕ) → ℕ → Sequence → Out → Option Out
map_column idxs i seq out = elim (get_elem? idxs i) [
  | none ↦ none
  | some none ↦ some out
  | some (some o) ↦ some (put_at o seq out.0, true)
]

pub map_columns : List (Option ℕ) → ℕ → List Sequence → Out → Option Out
unfolding map_column
map_columns idxs i [] out = some out
map_columns idxs i (c ∷ cs) out = map_column idxs i c out >>= λ o. map_columns idxs (1 + i) cs o

-- What `rowMerger` returns, in the loop over the columns in memory, where an error of `Merge` is none.
module _ (x : Outside) (q : Quotients) (exprs : List (Expr x)) (resolution : ℕ)
    (before : Time) where
  pub merge_at : ℕ → Sequence → Out → Option Out
  merge_at o seq out = do
    e ← get_elem? exprs o
    c ← get_elem? out.0 o
    m ← merge_sequences x q e resolution before c seq
    some (put_at o m out.0, true)

  pub merge_column : List (Option ℕ) → ℕ → Sequence → Out → Option Out
  unfolding merge_at
  merge_column idxs i seq out = elim (get_elem? idxs i) [
    | none ↦ some out
    | some none ↦ some out
    | some (some o) ↦ merge_at o seq out
  ]

  pub merge_columns : List (Option ℕ) → ℕ → List Sequence → Out → Option Out
  unfolding merge_column
  merge_columns idxs i [] out = some out
  merge_columns idxs i (c ∷ cs) out =
      merge_column idxs i c out >>= λ o. merge_columns idxs (1 + i) cs o
