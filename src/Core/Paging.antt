-- ===== src/Core/Paging.antt =====
-- core: what the callbacks of limit, offset and filter hand on of the rows of a source.
use zenodb.Prelude.{
  ℕ, suc, ◌-◌, ◌≡◌, refl, ◌∙◌, ap, sym, take_nil, drop_nil, Bool, true, false, Option, none, some,
  List, [], ◌∷◌, take, drop, arith, ltb, ◌⊎◌, Bool-cases, inl, inr,
}
use zenodb.Core.{
  OnRow, noop, Included, failed, left_out, kept, limit_row, offset_row, filter_row, proceed,
}

-- What a source does after a call of the callback, where `rest` is what calling on would come to.
unfoldable pub call_on :
    {S E : Type 0} → S × Bool × Option E → S × Bool × Option E → S × Bool × Option E
call_on (s, more, some e) rest = (s, false, some e)
call_on (s, true, none) rest = rest
call_on (s, false, none) rest = (s, false, none)

-- A source that has these rows: it calls the callback on each in turn, until the callback returns
-- false or an error. It tells whether the callback wanted to go on at the end.
unfoldable pub feed : {S E R : Type 0} → OnRow S E R → List R → S → S × Bool × Option E
unfolding call_on
feed on_row [] s = (s, true, none)
feed on_row (row ∷ rows) s = let a = on_row s row in call_on a (feed on_row rows a.0)

Included-cases :
    {E R : Type 0} (i : Included E R)
    → ((e : E) × (i ≡ failed e)) ⊎ (i ≡ left_out) ⊎ ((row : R) × (i ≡ kept row))
Included-cases (failed e) = inl (e, refl)
Included-cases left_out = inr (inl refl)
Included-cases (kept row) = inr (inr (row, refl))

module _ {S E R : Type 0} (now : S → ℕ) (exceeded : E) (on_row : OnRow S E R) where
  -- What becomes of the state below the counter, and the error.
  abbrev pub outcome : (ℕ × S) × Bool × Option E → S × Option E
  outcome r = (r.0.1, r.2)

  abbrev pub end_of : S × Bool × Option E → S × Option E
  end_of r = (r.0, r.2)

  -- One call on both sides, then what follows it.
  same_call :
      (n : ℕ) (a : S × Bool × Option E) (f : (ℕ × S) × Bool × Option E) (g : S × Bool × Option E)
      → outcome f ≡ end_of g
      → outcome (call_on ((n, a.0), a.1, a.2) f) ≡ end_of (call_on a g)
  unfolding call_on
  same_call n (s, more, some e) f g h = refl
  same_call n (s, true, none) f g h = h
  same_call n (s, false, none) f g h = refl

  pub limit_row_lem :
      (lim idx : ℕ) (rows : List R) (s : S)
      → outcome (feed (limit_row now exceeded lim on_row) rows (idx, s))
        ≡ end_of (feed on_row (take (lim - idx) rows) s)
  unfolding feed limit_row
  limit_row_lem lim idx [] s = ap (λ l. end_of (feed on_row l s)) (sym (take_nil (lim - idx)))
  limit_row_lem lim idx (row ∷ rows) s = elim (Bool-cases (ltb idx lim)) [
    | inl h ↦
        let n : lim - idx ≡ suc (lim - suc idx) = ground (arith, h) in
        rw (n, h)
          (same_call (suc idx) (on_row s row) _ _
            (limit_row_lem lim (suc idx) rows (on_row s row).0))
    | inr h ↦ let n : lim - idx ≡ 0 = ground (arith, h) in rw (n, h) refl
  ]

  pub offset_row_lem :
      (off idx : ℕ) (rows : List R) (s : S)
      → outcome (feed (offset_row now exceeded noop off on_row) rows (idx, s))
        ≡ end_of (feed on_row (drop (off - idx) rows) s)
  unfolding feed offset_row proceed
  offset_row_lem off idx [] s = ap (λ l. end_of (feed on_row l s)) (sym (drop_nil (off - idx)))
  offset_row_lem off idx (row ∷ rows) s = elim (Bool-cases (ltb idx off)) [
    | inl h ↦
        let n : off - idx ≡ suc (off - suc idx) = ground (arith, h) in
        rw (n, h) (offset_row_lem off (suc idx) rows s)
    | inr h ↦
        let n : off - idx ≡ 0 = ground (arith, h) in
        let m : off - suc idx ≡ 0 = ground (arith, h) in
        let i = offset_row_lem off (suc idx) rows (on_row s row).0 in
        let j = rw m at i in rw (n, h) (same_call (suc idx) (on_row s row) _ _ j)
  ]

  -- The rows that a filter keeps before the first one that it fails on, and that failure.
  pub screened : (R → Included E R) → List R → List R × Option E
  screened include [] = ([], none)
  screened include (row ∷ rows) =
      let rest = screened include rows in
      elim (include row) [
        | failed e ↦ ([], some e)
        | left_out ↦ rest
        | kept row' ↦ (row' ∷ rest.0, rest.1)
      ]

  -- An iteration that wants to go on ends with the failure that comes next.
  pub failing : S × Bool × Option E → Option E → S × Bool × Option E
  failing (s, true, none) (some e) = (s, false, some e)
  failing r _ = r

  failing-none : (r : S × Bool × Option E) → failing r none ≡ r
  unfolding failing
  failing-none (s, true, none) = refl
  failing-none (s, true, some e) = refl
  failing-none (s, false, e) = refl

  failing-some : (s : S) (e : E) → failing (s, true, none) (some e) ≡ (s, false, some e)
  unfolding failing
  failing-some s e = refl

  call_on-failing :
      (a f : S × Bool × Option E) (e : Option E) → call_on a (failing f e) ≡ failing (call_on a f) e
  unfolding call_on failing
  call_on-failing (s, true, none) f e = refl
  call_on-failing (s, false, none) f e = refl
  call_on-failing (s, true, some d) f e = refl
  call_on-failing (s, false, some d) f e = refl

  -- A filter hands on the rows that it keeps, until it fails on one, which ends the iteration with its
  -- error unless it had ended before; the context has no deadline.
  pub filter_row_lem :
      (include : R → Included E R) (rows : List R) (s : S)
      → feed (filter_row now exceeded noop include on_row) rows s
        ≡ failing (feed on_row (screened include rows).0 s) (screened include rows).1
  unfolding feed proceed filter_row screened
  filter_row_lem include [] s = sym (failing-none (s, true, none))
  filter_row_lem include (row ∷ rows) s = elim (Included-cases (include row)) [
    | inl (e, p) ↦ rw (filter_row, screened, p) (sym (failing-some s e))
    | inr (inl p) ↦ rw (filter_row, screened, p) (filter_row_lem include rows s)
    | inr (inr (row', p)) ↦
        rw (filter_row, screened, p)
          (ap (call_on (on_row s row')) (filter_row_lem include rows (on_row s row').0)
            ∙ call_on-failing (on_row s row') _ _)
  ]

module _ {S E R : Type 0} (now : S → ℕ) (exceeded : E) (on_row : OnRow S E R) where
  -- What becomes of the state below both counters, and the error.
  abbrev pub below_both : (ℕ × (ℕ × S)) × Bool × Option E → S × Option E
  below_both r = (r.0.1.1, r.2)

  abbrev below : (ℕ × S) × Option E → S × Option E
  below p = (p.0.1, p.1)

  -- Where a source has rows and the context has no deadline, Limit above Offset calls back on the rows
  -- of one page, `lim` rows after the first `off`, in their order, with the same state and error in
  -- the end as a source that had just these rows.
  pub page_lem :
      (off lim : ℕ) (rows : List R) (s : S)
      → below_both (
          feed
            (offset_row (λ t. now t.1) exceeded noop off (limit_row now exceeded lim on_row))
            rows
            (0, (0, s)))
        ≡ end_of now exceeded on_row (feed on_row (take lim (drop off rows)) s)
  page_lem off lim rows s =
      let o : off - 0 ≡ off = omega arith in
      let l : lim - 0 ≡ lim = omega arith in
      let a = ap below (
        offset_row_lem (λ t. now t.1) exceeded (limit_row now exceeded lim on_row) off 0 rows
          (0, s)) in
      let b = limit_row_lem now exceeded on_row lim 0 (drop off rows) s in
      let c = rw o at a in let d = rw l at b in c ∙ d
