-- ===== src/Rowstore/Fields/Same.antt =====
-- row_store.go: the columns of a file that has the fields asked for stay where they are.
use mathlib.Core.List.{append_assoc}
use zenodb.Prelude.{
  ℕ, zero, suc, ◌+◌, ◌<◌, ◌≤◌, ◌≡◌, refl, ap, ◌∙◌, Bool, true, false, Option, some, List, [], ◌∷◌,
  ◌++◌, arith, length, length-append, get_elem?, replicate, length-replicate, list_eq, list_eq_refl,
  ◌||◌, not, is_nil,
}
use zenodb.Encoding.Time.{Time}
use zenodb.Encoding.Until.{Quotients}
use zenodb.Expr.{Outside, Expr}
use zenodb.Sequence.{Sequence}
use zenodb.Rowstore.Fields.{
  out_index, out_idxs_for, put_at, Out, map_column, map_columns, merge_columns, same_fields,
}

-- A text that is none of these.
abbrev pub IsNew : List ℕ → List (List ℕ) → Type 0
IsNew f [] = Unit {0}
IsNew f (g ∷ gs) = (list_eq g f ≡ false) × IsNew f gs

-- No two texts of the list are the same.
abbrev pub AreApart : List (List ℕ) → Type 0
AreApart [] = Unit {0}
AreApart (f ∷ fs) = IsNew f fs × AreApart fs

-- The indices from `i` on, as many as there are fields.
pub indices : ℕ → List (List ℕ) → List (Option ℕ)
indices i [] = []
indices i (f ∷ fs) = some i ∷ indices (1 + i) fs

length-indices : (i : ℕ) (fs : List (List ℕ)) → length (indices i fs) ≡ length fs
unfolding indices
length-indices i [] = refl
length-indices i (f ∷ fs) = ap suc (length-indices (1 + i) fs)

pub put_at-append :
    (done : List Sequence) (s c : Sequence) (rest : List Sequence)
    → put_at (length done) s (done ++ (c ∷ rest)) ≡ done ++ (s ∷ rest)
unfolding put_at
put_at-append [] s c rest = refl
put_at-append (d ∷ done) s c rest = ap (λ l. d ∷ l) (put_at-append done s c rest)

unfoldable pub out_idxs_from : ℕ → List (List ℕ) → List (List ℕ) → List (Option ℕ)
out_idxs_from k outs [] = []
out_idxs_from k outs (f ∷ fs) = out_index f k outs ∷ out_idxs_from k outs fs

pub out_idxs_for-from :
    (outs ins : List (List ℕ)) → out_idxs_for outs ins ≡ out_idxs_from 0 outs ins
unfolding out_idxs_for out_idxs_from
out_idxs_for-from outs [] = refl
out_idxs_for-from outs (f ∷ fs) = ap (λ l. out_index f 0 outs ∷ l) (out_idxs_for-from outs fs)

pub out_idxs_from-new :
    (k : ℕ) (f : List ℕ) (outs ins : List (List ℕ))
    → IsNew f ins
    → out_idxs_from k (f ∷ outs) ins ≡ out_idxs_from (1 + k) outs ins
unfolding out_idxs_from out_index
out_idxs_from-new k f outs [] h = refl
out_idxs_from-new k f outs (g ∷ ins) h = rw (h.0, out_idxs_from-new k f outs ins h.1) refl

out_idxs_from_self :
    (k : ℕ) (fs : List (List ℕ)) → AreApart fs → out_idxs_from k fs fs ≡ indices k fs
unfolding out_idxs_from out_index indices
out_idxs_from_self k [] h = refl
out_idxs_from_self k (f ∷ fs) h =
    rw (list_eq_refl f, out_idxs_from-new k f fs fs h.0, out_idxs_from_self (1 + k) fs h.1) refl

get_elem?-indices :
    (k : ℕ) (fs : List (List ℕ)) (i : ℕ)
    → i < length fs
    → get_elem? (indices k fs) i ≡ some (some (k + i))
unfolding indices
get_elem?-indices k [] i h = absurd (omega arith)
get_elem?-indices k (f ∷ fs) zero h = ap (λ n. some (some n)) (omega arith)
get_elem?-indices k (f ∷ fs) (suc i) h =
    get_elem?-indices (1 + k) fs i (omega arith) ∙ ap (λ n. some (some n)) (omega arith)

pub get_elem?-indices_zero :
    (fs : List (List ℕ)) (i : ℕ) → i < length fs → get_elem? (indices 0 fs) i ≡ some (some i)
get_elem?-indices_zero fs i h =
    let e : 0 + i ≡ i = omega arith in get_elem?-indices 0 fs i h ∙ ap (λ n. some (some n)) e

map_column-indices :
    (fs : List (List ℕ)) (done : List Sequence) (c blank : Sequence) (blanks : List Sequence)
    (b : Bool)
    → length done < length fs
    → map_column (indices 0 fs) (length done) c (done ++ (blank ∷ blanks), b)
      ≡ some (done ++ (c ∷ blanks), true)
unfolding map_column
map_column-indices fs done c blank blanks b h =
    rw (map_column, get_elem?-indices_zero fs (length done) h, put_at-append done c blank blanks)
      refl

map_columns-indices :
    (fs : List (List ℕ)) (done cs blanks : List Sequence) (b : Bool)
    → length done + length cs ≤ length fs
    → length blanks ≡ length cs
    → map_columns (indices 0 fs) (length done) cs (done ++ blanks, b)
      ≡ some (done ++ cs, b || not (is_nil cs))
unfolding map_columns
map_columns-indices fs done [] [] b h l = ground arith
map_columns-indices fs done [] (blank ∷ blanks) b h l = absurd (omega arith)
map_columns-indices fs done (c ∷ cs) [] b h l = absurd (omega arith)
map_columns-indices fs done (c ∷ cs) (blank ∷ blanks) b h l =
    let e : length (done ++ (c ∷ [])) ≡ 1 + length done =
      omega (arith, length-append done (c ∷ [])) in
    let after =
      map_columns-indices fs (done ++ (c ∷ [])) cs blanks true (omega (arith, e)) (omega arith) in
    rw (map_column-indices fs done c blank blanks b (omega arith)) (
      rw (e, append_assoc done (c ∷ []) blanks, append_assoc done (c ∷ []) cs) at after
      ∙ ap (λ w. some (done ++ (c ∷ cs), w)) (ground arith))

-- The columns of a file that has the fields asked for go out as they stand.
pub map_columns-same :
    (fs : List (List ℕ)) (cs : List Sequence)
    → AreApart fs
    → length cs ≡ length fs
    → map_columns (out_idxs_for fs fs) 0 cs (replicate (length fs) [], false)
      ≡ some (cs, not (is_nil cs))
map_columns-same fs cs a l =
    rw (out_idxs_for-from fs fs, out_idxs_from_self 0 fs a)
      (map_columns-indices fs [] cs (replicate (length fs) []) false (omega arith)
        (omega (arith, l, length-replicate {A = Sequence} (length fs) [])))

pub same_fields_refl : (fs : List (List ℕ)) → same_fields fs fs ≡ true
unfolding same_fields
same_fields_refl [] = refl
same_fields_refl (f ∷ fs) = rw (list_eq_refl f) (same_fields_refl fs)

pub merge_columns-nil :
    (x : Outside) (q : Quotients) (exprs : List (Expr x)) (resolution : ℕ) (before : Time)
    (idxs : List (Option ℕ)) (i : ℕ) (out : Out)
    → merge_columns x q exprs resolution before idxs i [] out ≡ some out
unfolding merge_columns
merge_columns-nil x q exprs resolution before idxs i out = refl

pub out_idxs_for-indices : (fs : List (List ℕ)) → AreApart fs → out_idxs_for fs fs ≡ indices 0 fs
out_idxs_for-indices fs a = out_idxs_for-from fs fs ∙ out_idxs_from_self 0 fs a
