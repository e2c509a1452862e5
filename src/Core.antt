-- ===== src/Core.antt =====
-- core/core.go, core/filter.go, core/limit.go, core/offset.go: callbacks that a source of flat rows
-- calls, and the guards against timeouts. The state S is all that the callbacks change, and the clock.
pub mod Compare
pub mod Paging
pub mod Sort
pub mod Flatten
mod Tests
use zenodb.Prelude.{
  ℕ, suc, ◌+◌, ◌≡◌, Bool, true, false, not, ◌||◌, Option, none, some, List, [], ◌∷◌, ltb,
  if◌then◌else◌,
}

-- `OnRow` and `OnFlatRow`: the new state beside `more` and `err`.
abbrev pub OnRow : Type 0 → Type 0 → Type 0 → Type 0
OnRow S E R = S → R → S × Bool × Option E

abbrev pub is_some : {E : Type 0} → Option E → Bool
is_some none = false
is_some (some e) = true

-- `noopTimeoutGuard` and `timeoutGuard`.
pub data Guard : Type 0 where
  noop : Guard
  timeout : ℕ → Guard

-- `Guard`, on the deadline that the context has or not.
pub guard_for : Option ℕ → Guard
guard_for none = noop
guard_for (some deadline) = timeout deadline

-- What a row filter makes of a row: an error, nil, or a row.
pub data Included (E R : Type 0) : Type 0 where
  failed : E → Included E R
  left_out : Included E R
  kept : R → Included E R

-- `now` reads the clock, and `exceeded` is ErrDeadlineExceeded.
module _ {S E : Type 0} (now : S → ℕ) (exceeded : E) where
  -- `TimedOut`.
  pub timed_out : Guard → S → Bool
  timed_out noop s = false
  timed_out (timeout deadline) s = ltb deadline (now s)

  -- `Proceed`.
  pub proceed : Guard → S → Bool × Option E
  proceed noop s = (true, none)
  proceed (timeout deadline) s =
      if timed_out (timeout deadline) s then (false, some exceeded) else (true, none)

  -- `ProceedAfter`.
  pub proceed_after : Guard → S → Bool → Option E → Bool × Option E
  proceed_after noop s more err = (more, err)
  proceed_after (timeout deadline) s more err =
      if not more || is_some err then (more, err) else proceed (timeout deadline) s

  -- The callback of `limit.Iterate`, with its counter.
  pub limit_row : {R : Type 0} → ℕ → OnRow S E R → OnRow (ℕ × S) E R
  limit_row lim on_row (idx, s) row =
      if ltb idx lim
      then (let a = on_row s row in ((suc idx, a.0), a.1, a.2))
      else ((suc idx, s), false, none)

  -- The callback of `offset.Iterate`, with its counter.
  pub offset_row : {R : Type 0} → Guard → ℕ → OnRow S E R → OnRow (ℕ × S) E R
  unfolding proceed
  offset_row guard off on_row (idx, s) row =
      if ltb idx off
      then (let p = proceed guard s in ((suc idx, s), p.0, p.1))
      else (let a = on_row s row in ((suc idx, a.0), a.1, a.2))

  -- The callback of `flatRowFilter.Iterate`.
  unfoldable pub filter_row : {R : Type 0} → Guard → (R → Included E R) → OnRow S E R → OnRow S E R
  unfolding proceed
  filter_row guard include on_row s row = elim (include row) [
    | failed e ↦ (s, false, some e)
    | left_out ↦ (let p = proceed guard s in (s, p.0, p.1))
    | kept row' ↦ on_row s row'
  ]
