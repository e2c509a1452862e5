-- ===== src/Core/Flatten/Periods.antt =====
-- core/flatten.go: the flat rows of a row are those of its times, from the earliest start on to the
-- latest end.
use zenodb.Prelude.{
  ℕ, zero, suc, ◌+◌, ◌*◌, ◌≤◌, ◌<◌, ◌≡◌, refl, sym, Bool, true, false, not, ◌||◌, Option, none,
  some, List, [], ◌∷◌, arith, ltb, if◌then◌else◌, ◌>>=◌, inl, inr, Option-cases, Yields,
}
use zenodb.Encoding.Time.{Time}
use zenodb.Encoding.Until.{Quotients}
use zenodb.Expr.{Outside}
use zenodb.Sequence.{Sequence}
use zenodb.Core.{OnRow, Guard, proceed, is_some}
use zenodb.Core.Paging.{feed, call_on}
use zenodb.Core.Flatten.{Field, FlatRow, values_at, flat_row, show, show_periods}

-- The times from this one on.
unfoldable pub times : ℕ → ℕ → Time → List Time
times resolution zero ts = []
times resolution (suc n) ts = ts ∷ times resolution n (ts + resolution)

module _ (x : Outside) (q : Quotients) (resolution : ℕ) (fields : List (Field x)) (key : List ℕ)
    (vals : List Sequence) where
  -- The flat rows of these times: those at which a field that is not constant has a value.
  unfoldable pub rows_at : List Time → Option (List (FlatRow x))
  rows_at [] = some []
  rows_at (ts ∷ tss) = do
    vs ← values_at x q resolution ts fields vals
    rest ← rows_at tss
    some (if vs.1 then flat_row x q resolution ts fields key vs.0 ∷ rest else rest)

  rows_at-cons :
      (ts : Time) (tss : List Time) (rows : List (FlatRow x))
      → rows_at (ts ∷ tss) ≡ some rows
      → (vs : List x.Float × Bool) × (rest : List (FlatRow x)) × (values_at x q resolution ts fields
            vals
          ≡ some vs)
        × (rows_at tss ≡ some rest)
        × ((if vs.1 then flat_row x q resolution ts fields key vs.0 ∷ rest else rest) ≡ rows)
  unfolding rows_at
  rows_at-cons ts tss rows h = elim (Option-cases (values_at x q resolution ts fields vals)) [
    | inl e ↦ absurd (let k = rw e at h in ground (arith, k))
    | inr (vs, e) ↦ elim (Option-cases (rows_at tss)) [
      | inl g ↦ absurd (let k = rw (e, g) at h in ground (arith, k))
      | inr (rest, g) ↦ (vs, rest, e, g, let k = rw (e, g) at h in ground (arith, k))
    ]
  ]

  module _ {S E : Type 0} (now : S → ℕ) (exceeded : E) (guard : Guard)
      (on_row : OnRow S E (FlatRow x)) where
    -- What follows a source's rows: the guard, if the callback wanted to go on.
    pub guarded : S × Bool × Option E → S × Option E
    unfolding proceed
    guarded (s, true, err) = (s, (proceed now exceeded guard s).1)
    guarded (s, false, err) = (s, err)

    abbrev pub end_of : S × Bool × Option E → S × Option E
    end_of a = (a.0, a.2)

    -- After a call, the rest of the loop and the rest of the source.
    same_after :
        (a : S × Bool × Option E) (o : Option (S × Bool × Option E)) (b : S × Bool × Option E)
        → Yields o (λ r. end_of r ≡ guarded b)
        → Yields
            (elim (not a.1 || is_some a.2) [ true ↦ some a | false ↦ o ])
            (λ r. end_of r ≡ guarded (call_on a b))
    unfolding guarded call_on
    same_after (s, true, none) o b h = h
    same_after (s, false, none) o b h = refl
    same_after (s, true, some e) o b h = refl
    same_after (s, false, some e) o b h = refl

    after_show :
        (ts : Time) (vs : List x.Float × Bool) (s : S) (f : S → Option (S × Bool × Option E))
        (rest rows : List (FlatRow x))
        → (if vs.1 then flat_row x q resolution ts fields key vs.0 ∷ rest else rest) ≡ rows
        → ((s' : S) → Yields (f s') (λ r. end_of r ≡ guarded (feed on_row rest s')))
        → Yields
            (let a = show x q resolution now exceeded guard fields on_row ts key vs s in
              elim (not a.1 || is_some a.2) [ true ↦ some a | false ↦ f a.0 ])
            (λ r. end_of r ≡ guarded (feed on_row rows s))
    unfolding show feed
    after_show ts (values, true) s f rest rows e h =
        let a = on_row s (flat_row x q resolution ts fields key values) in
        rw (sym e) (same_after a (f a.0) (feed on_row rest a.0) (h a.0))
    after_show ts (values, false) s f rest rows e h = rw (sym e) (h s)

    pub show_periods_lem :
        (n : ℕ) (ts to : Time) (rows : List (FlatRow x)) (s : S)
        → to < ts + n * resolution
        → ts + n * resolution ≤ to + resolution
        → rows_at (times resolution n ts) ≡ some rows
        → Yields
            (show_periods x q resolution now exceeded guard fields on_row (suc n) ts to key vals s)
            (λ r. end_of r ≡ guarded (feed on_row rows s))
    unfolding show_periods times rows_at guarded feed show
    show_periods_lem zero ts to rows s h k e =
        let z : ltb to ts ≡ true = ground (arith, h) in
        let r : rows ≡ [] = ground (arith, e) in rw (z, r) refl
    show_periods_lem (suc n) ts to rows s h k e =
        let m : suc n * resolution ≡ resolution + n * resolution = omega arith in
        let z : ltb to ts ≡ false = ground (arith, k, m) in
        let (vs, rest, ve, re, le) =
          rows_at-cons ts (times resolution n (ts + resolution)) rows e in
        let h' : to < ts + resolution + n * resolution = omega (arith, h, m) in
        let k' : ts + resolution + n * resolution ≤ to + resolution = omega (arith, k, m) in
        rw (z, ve)
          (after_show ts vs s
            (λ s'.
              show_periods x q resolution now exceeded guard fields on_row (suc n) (ts + resolution)
                to key vals s')
            rest rows le (λ s'. show_periods_lem n (ts + resolution) to rest s' h' k' re))
