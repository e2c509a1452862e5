-- ===== src/Expr/Tests.antt =====
-- expr: tests, and the theorems at concrete expressions and buffers.
use zenodb.Prelude.{
  ℕ, ◌≤◌, ◌≡◌, refl, true, false, none, some, List, [], ◌++◌, arith, length, replicate, Yields,
}
use zenodb.Expr.{merge_fn, Expr, sum, field, aggregate, avg, constant, binary, plus, encoded_width}
use zenodb.Expr.Samples.{word, words, point, sum_a, sum_a-IsSound}
use zenodb.Expr.Cell.{load, saved, load-saved, length-saved}
use zenodb.Expr.Buffer.{update}
use zenodb.Expr.Buffer.Width.{IsSound}
use zenodb.Expr.Buffer.Reads.{get-update, ReadsBack}
use zenodb.Expr.Merge.{merge, merge_total, MergeTook}
use zenodb.Expr.Merge.Cells.{load-merge}

-- SUM(a) + AVG(a)
abbrev total : Expr words
total = binary plus (aggregate sum (field "a")) (avg (field "a") (constant (word 1))) false

abbrev empty_buffer : List ℕ
empty_buffer = replicate 26 0

long_enough : encoded_width words total ≤ length empty_buffer
unfolding encoded_width
long_enough = omega arith

total-IsSound : IsSound words total
unfolding encoded_width
total-IsSound = ((refl, tt), (refl, refl, tt, tt))

one_cell : encoded_width words sum_a ≤ length (saved words (word 7))
unfolding encoded_width
one_cell = rw (length-saved words (word 7)) (omega arith)

get-update_example :
    Yields (update words point none sum_a (saved words (word 7))) (ReadsBack words sum_a [])
get-update_example =
    get-update words point none sum_a (saved words (word 7)) [] sum_a-IsSound tt one_cell

merge_total_example :
    Yields
      (merge words total empty_buffer empty_buffer empty_buffer)
      (MergeTook words (encoded_width words total) empty_buffer empty_buffer empty_buffer)
merge_total_example =
    merge_total words total empty_buffer empty_buffer empty_buffer total-IsSound long_enough
      long_enough long_enough

load-merge_example :
    Yields
      (merge words
        (aggregate sum (field "a"))
        (replicate 9 0)
        (saved words (word 7) ++ [])
        (saved words (word 3) ++ []))
      (λ m. load words (m.written ++ []) ≡ some (word 10, true, []))
unfolding merge_fn
load-merge_example =
    load-merge words sum (field "a") (replicate 9 0) (saved words (word 7) ++ [])
      (saved words (word 3) ++ []) [] [] [] [] (word 7) true (word 3) true (omega arith)
      (load-saved words (word 7) []) (load-saved words (word 3) [])
      (λ h k. absurd (ground (arith, h)))
