-- ===== src/Rowstore/Iterate/Reports.antt =====
-- row_store.go: which rows the loop over a file reports, and what it leaves in memory.
use mathlib.Core.Option
use zenodb.Prelude.{
  ℕ, ◌⊎◌, ◌≤◌, ◌≡◌, refl, true, false, ◌||◌, not, Option, none, some, List, [], ◌∷◌, arith, length,
  replicate, inl, inr, Bool-cases,
}
use zenodb.Bytetree.Walk.{is_some}
use zenodb.Encoding.Time.{Time}
use zenodb.Encoding.Until.{Quotients}
use zenodb.Expr.{Outside, Expr}
use zenodb.Sequence.{Sequence}
use zenodb.Rowstore.Fields.{out_idxs_for}
use zenodb.Rowstore.Iterate.Written.{Entry, entry_step, over_rows}
use zenodb.Rowstore.Fields.Same.{AreApart, map_columns-same, merge_columns-nil}
use zenodb.Rowstore.Fields.Strange.{AreStrange, map_columns-strange}
use zenodb.Rowstore.Iterate.{
  Rows, Reply, row_problem, Ending, finished, returned, go_on, stop, remove_from, or_none, answered,
  combine, report,
}

-- Rows of as many columns as there are fields.
abbrev pub AreWide : ℕ → List Entry → Type 0
AreWide n [] = Unit {0}
AreWide n ((key, cs) ∷ rows) = (length cs ≡ n) × AreWide n rows

module _ {S E : Type 0} (on_row : S → List ℕ → List Sequence → Option (List ℕ) → Reply S E) where
  -- The loop goes on with the memory that it has, or stops.
  pub answered-cases :
      (memory : Option Rows) (reply : Reply S E)
      → (answered on_row memory reply ≡ go_on memory reply.state)
        ⊎ (answered on_row memory reply
            ≡ stop (returned memory reply.state (Option.map row_problem reply.error)))
  unfolding answered
  answered-cases memory reply = elim (Bool-cases (not reply.more || is_some reply.error)) [
    | inl e ↦ inr (rw (answered, e) refl)
    | inr e ↦ inl (rw (answered, e) refl)
  ]

  -- The callback on row after row, for as long as it asks for more.
  pub each_entry : List Entry → S → Ending S E
  each_entry [] s = finished none s
  each_entry ((key, cs) ∷ rows) s = elim (answered on_row none (on_row s key cs none)) [
    | go_on memory s' ↦ each_entry rows s'
    | stop ending ↦ ending
  ]

  module _ (x : Outside) (q : Quotients) (exprs : List (Expr x)) (resolution : ℕ)
      (before : Time) where
    combine-same :
        (memory_idxs : List (Option ℕ)) (f : List ℕ) (fs : List (List ℕ)) (cs : List Sequence)
        → AreApart (f ∷ fs)
        → length exprs ≡ length (f ∷ fs)
        → length cs ≡ length (f ∷ fs)
        → combine on_row x q exprs resolution before
            (out_idxs_for (f ∷ fs) (f ∷ fs))
            memory_idxs
            cs
            []
          ≡ some (cs, true)
    unfolding combine
    combine-same memory_idxs f fs [] a n l = absurd (omega arith)
    combine-same memory_idxs f fs (c ∷ cs) a n l =
        rw (n, map_columns-same (f ∷ fs) (c ∷ cs) a l)
          (merge_columns-nil x q exprs resolution before memory_idxs 0 (c ∷ cs, true))

    -- Where the file has the fields asked for and there is no memory, each row is reported as it stands.
    pub over_rows-same :
        (f : List ℕ) (fs : List (List ℕ)) (memory_idxs : List (Option ℕ)) (ctx : ℕ)
        (rows : List Entry) (s : S)
        → AreApart (f ∷ fs)
        → length exprs ≡ length (f ∷ fs)
        → AreWide (length (f ∷ fs)) rows
        → over_rows on_row x q exprs resolution before
            (out_idxs_for (f ∷ fs) (f ∷ fs))
            memory_idxs
            ctx
            false
            rows
            none
            s
          ≡ each_entry rows s
    unfolding over_rows entry_step each_entry remove_from or_none report
    over_rows-same f fs memory_idxs ctx [] s a n w = refl
    over_rows-same f fs memory_idxs ctx ((key, cs) ∷ rows) s a n (l, w) =
        rw (over_rows, entry_step, combine-same memory_idxs f fs cs a n l)
          (elim (answered-cases none (on_row s key cs none)) [
            | inl g ↦
                rw (each_entry, g)
                  (over_rows-same f fs memory_idxs ctx rows (on_row s key cs none).state a n w)
            | inr g ↦ rw (each_entry, g) refl
          ])

    -- Where the file has none of the fields asked for and there is nothing in memory for the key of a row, the
    -- loop ends at that row, without an error and without a report, whatever rows come behind it.
    pub over_rows-strange :
        (outs ins : List (List ℕ)) (memory_idxs : List (Option ℕ)) (ctx : ℕ) (key : List ℕ)
        (cs : List Sequence) (rows : List Entry) (memory : Option Rows) (s : S)
        → AreStrange outs ins
        → length cs ≤ length ins
        → (remove_from ctx memory key).1 ≡ none
        → over_rows on_row x q exprs resolution before
            (out_idxs_for outs ins)
            memory_idxs
            ctx
            false
            ((key, cs) ∷ rows)
            memory
            s
          ≡ returned (remove_from ctx memory key).0 s none
    unfolding over_rows entry_step report combine or_none
    over_rows-strange outs ins memory_idxs ctx key cs rows memory s h l e =
        rw
          (
            over_rows,
            entry_step,
            e,
            report,
            combine,
            map_columns-strange outs ins cs (replicate (length exprs) [], false) h l,
            merge_columns-nil x q exprs resolution before memory_idxs 0
                (replicate (length exprs) [], false),
          )
          refl
