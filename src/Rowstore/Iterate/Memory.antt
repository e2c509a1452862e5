-- ===== src/Rowstore/Iterate/Memory.antt =====
-- row_store.go: what the loop over a file leaves in memory.
use mathlib.Core.Option
use zenodb.Prelude.{
  ℕ, ◌==◌, ◌⊎◌, ◌<◌, ◌≡◌, refl, ap, sym, ◌∙◌, Bool, true, false, ◌&&◌, ◌||◌, not, Option, none,
  some, List, [], ◌∷◌, arith, list_eq, length, if◌then◌else◌, inl, inr, Option-cases, Bool-cases,
}
use zenodb.Bytetree.Walk.{is_some}
use zenodb.Bytetree.{remove_edges}
use zenodb.Bytetree.Contexts.{seen, seen-remove_edges}
use zenodb.Encoding.Time.{Time}
use zenodb.Encoding.Until.{Quotients}
use zenodb.Expr.{Outside, Expr}
use zenodb.Sequence.{Sequence}
use zenodb.Rowstore.Rows.{row_bytes}
use zenodb.Rowstore.Iterate.Written.{
  Entry, rows_bytes, AreRows, entry_step, over_rows, rows_from-rows_bytes,
}
use zenodb.Rowstore.Iterate.Reports.{answered-cases}
use zenodb.Rowstore.Iterate.{
  Rows, Reply, row_problem, Ending, finished, returned, crashed, Step, go_on, stop, remove_from,
  or_none, answered, combine, report, rows_from,
}

-- A key of the rows.
unfoldable pub listed_key : List ℕ → List Entry → Bool
listed_key j [] = false
listed_key j ((key, cs) ∷ rows) = list_eq j key || listed_key j rows

module _ {S E : Type 0} where
  memory_of : Ending S E → Option Rows
  memory_of (finished memory s) = memory
  memory_of e = none

  -- The loop ended before the end of the file.
  IsCut : Ending S E → Type 0
  IsCut (finished memory s) = ⊥
  IsCut e = Unit {0}

  module _ (on_row : S → List ℕ → List Sequence → Option (List ℕ) → Reply S E) (x : Outside)
      (q : Quotients) (exprs : List (Expr x)) (resolution : ℕ) (before : Time)
      (file_idxs memory_idxs : List (Option ℕ)) (ctx : ℕ) (raw_okay : Bool) where
    -- A round goes on with what `Remove` left in memory, or the loop ends before the end of the file.
    GoesOn : Option Rows → Step S E → Type 0
    GoesOn memory m = ((s : S) × (m ≡ go_on memory s)) ⊎ ((e : Ending S E) × (m ≡ stop e) × IsCut e)

    answered-GoesOn :
        (memory : Option Rows) (reply : Reply S E) → GoesOn memory (answered on_row memory reply)
    unfolding GoesOn IsCut
    answered-GoesOn memory reply = elim (answered-cases on_row memory reply) [
      | inl e ↦ inl (reply.state, e)
      | inr e ↦ inr (returned memory reply.state (Option.map row_problem reply.error), e, tt)
    ]

    report-GoesOn :
        (memory : Option Rows) (s : S) (key : List ℕ) (cs in_memory : List Sequence)
        → GoesOn memory (
            report on_row x q exprs resolution before file_idxs memory_idxs memory s key cs
              in_memory)
    unfolding report GoesOn IsCut
    report-GoesOn memory s key cs in_memory =
        elim (Option-cases
          (combine on_row x q exprs resolution before file_idxs memory_idxs cs in_memory)) [
            | inl e ↦ inr (crashed, rw (report, e) refl, tt)
            | inr ((out, false), e) ↦ inr (returned memory s none, rw (report, e) refl, tt)
            | inr ((out, true), e) ↦ rw (report, e) (answered-GoesOn memory (on_row s key out none))
          ]

    entry_step-GoesOn :
        (memory : Option Rows) (s : S) (key : List ℕ) (cs : List Sequence)
        → GoesOn (remove_from ctx memory key).0 (
            entry_step on_row x q exprs resolution before file_idxs memory_idxs ctx raw_okay memory
              s
              (key, cs))
    unfolding entry_step
    entry_step-GoesOn memory s key cs =
        let (memory', found) = remove_from ctx memory key in
        elim (Bool-cases (not (is_some found) && raw_okay)) [
          | inl e ↦
              rw (entry_step, e)
                (answered-GoesOn memory' (on_row s key [] (some (row_bytes key cs))))
          | inr e ↦ rw (entry_step, e) (report-GoesOn memory' s key cs (or_none found))
        ]

    -- What the loop over rows that are no bytes leaves: the iteration sees in memory what it saw
    -- before, but for the keys of the rows.
    over_rows-seen :
        (rows : List Entry) (es : Rows) (s : S) (memory : Option Rows) (s' : S)
        → (ctx == 0) ≡ false
        → over_rows on_row x q exprs resolution before file_idxs memory_idxs ctx raw_okay rows
            (some es)
            s
          ≡ finished memory s'
        → (es' : Rows) × (memory ≡ some es')
          × ((j : List ℕ) → seen ctx es' j ≡ (if listed_key j rows then none else seen ctx es j))
    unfolding over_rows listed_key GoesOn remove_from memory_of IsCut
    over_rows-seen [] es s memory s' c h = (es, sym (ap memory_of h), λ j. refl)
    over_rows-seen ((key, cs) ∷ rows) es s memory s' c h =
        elim (entry_step-GoesOn (some es) s key cs) [
          | inl (s'', e) ↦
              (let (es', m, f) =
                  over_rows-seen rows (remove_edges ctx es key).0 s'' memory s' c
                    (rw (over_rows, e) at h) in
                (es', m, λ j. f j ∙ ground (arith, seen-remove_edges ctx ctx es key j, c)))
          | inr (ending, e, cut) ↦ absurd (rw (rw (over_rows, e) at h) at cut)
        ]

    -- When the loop over a file of rows that were written comes to the end, the iteration, which has a context
    -- that is not 0, sees in memory what it saw before, and no more the keys of the rows of the file: so what
    -- it reports of memory then are the other keys.
    pub rows_from-seen :
        (fuel : ℕ) (rows : List Entry) (es : Rows) (s : S) (memory : Option Rows) (s' : S)
        → (ctx == 0) ≡ false
        → AreRows rows
        → length (rows_bytes rows) < fuel
        → rows_from on_row x q exprs resolution before file_idxs memory_idxs ctx raw_okay fuel
            (rows_bytes rows)
            (some es)
            s
          ≡ finished memory s'
        → (es' : Rows) × (memory ≡ some es')
          × ((j : List ℕ) → seen ctx es' j ≡ (if listed_key j rows then none else seen ctx es j))
    rows_from-seen fuel rows es s memory s' c r l h = over_rows-seen rows es s memory s' c (
        sym (
          rows_from-rows_bytes on_row x q exprs resolution before file_idxs memory_idxs ctx raw_okay
            fuel rows (some es) s r l)
        ∙ h)
