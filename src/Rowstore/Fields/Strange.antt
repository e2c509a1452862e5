-- ===== src/Rowstore/Fields/Strange.antt =====
-- row_store.go: the columns of a file that has none of the fields asked for go nowhere.
use zenodb.Prelude.{
  ℕ, zero, suc, ◌+◌, ◌<◌, ◌≤◌, ◌≡◌, refl, ap, ◌∙◌, Option, none, some, List, [], ◌∷◌, arith, length,
  get_elem?,
}
use zenodb.Sequence.{Sequence}
use zenodb.Rowstore.Fields.{out_index, out_idxs_for, Out, map_column, map_columns}
use zenodb.Rowstore.Fields.Same.{IsNew, out_idxs_from, out_idxs_for-from, out_idxs_from-new}

-- None of the fields asked for is among the fields of the file.
abbrev pub AreStrange : List (List ℕ) → List (List ℕ) → Type 0
AreStrange [] ins = Unit {0}
AreStrange (o ∷ outs) ins = IsNew o ins × AreStrange outs ins

nowhere : List (List ℕ) → List (Option ℕ)
nowhere [] = []
nowhere (i ∷ ins) = none ∷ nowhere ins

out_idxs_from-strange :
    (k : ℕ) (outs ins : List (List ℕ))
    → AreStrange outs ins
    → out_idxs_from k outs ins ≡ nowhere ins
unfolding out_idxs_from nowhere out_index
out_idxs_from-strange k [] [] h = refl
out_idxs_from-strange k [] (i ∷ ins) h = ap (λ l. none ∷ l) (out_idxs_from-strange k [] ins h)
out_idxs_from-strange k (o ∷ outs) ins h =
    out_idxs_from-new k o outs ins h.0 ∙ out_idxs_from-strange (1 + k) outs ins h.1

get_elem?-nowhere :
    (ins : List (List ℕ)) (i : ℕ) → i < length ins → get_elem? (nowhere ins) i ≡ some none
unfolding nowhere
get_elem?-nowhere [] i h = absurd (omega arith)
get_elem?-nowhere (f ∷ ins) zero h = refl
get_elem?-nowhere (f ∷ ins) (suc i) h = get_elem?-nowhere ins i (omega arith)

map_columns-nowhere :
    (ins : List (List ℕ)) (i : ℕ) (cs : List Sequence) (out : Out)
    → i + length cs ≤ length ins
    → map_columns (nowhere ins) i cs out ≡ some out
unfolding map_columns map_column
map_columns-nowhere ins i [] out h = refl
map_columns-nowhere ins i (c ∷ cs) out h =
    rw (map_columns, map_column, get_elem?-nowhere ins i (omega arith))
      (map_columns-nowhere ins (1 + i) cs out (omega arith))

pub map_columns-strange :
    (outs ins : List (List ℕ)) (cs : List Sequence) (out : Out)
    → AreStrange outs ins
    → length cs ≤ length ins
    → map_columns (out_idxs_for outs ins) 0 cs out ≡ some out
map_columns-strange outs ins cs out h l =
    rw (out_idxs_for-from outs ins, out_idxs_from-strange 0 outs ins h)
      (map_columns-nowhere ins 0 cs out (omega arith))
