-- ===== src/Core/Flatten/Rows.antt =====
-- core/flatten.go: the times of a row are those of all its columns, and its flat rows are what
-- `flatten.Iterate` hands on.
use zenodb.Prelude.{
  ℕ, zero, suc, ◌+◌, ◌-◌, ◌*◌, ◌/◌, ◌^◌, ◌≤◌, ◌<◌, ◌≡◌, sym, false, some, List, [], ◌∷◌, arith,
  ◌==◌, inl, inr, Option-cases, Yields,
}
use native.Mathlib.Nat.{div-add-mod, mod-lt}
use zenodb.Encoding.Duration.{add_back_lem}
use zenodb.Encoding.Time.{Time}
use zenodb.Encoding.Until.{Quotients}
use zenodb.Expr.{Outside, Expr, encoded_width}
use zenodb.Sequence.{Sequence, quotient, until, num_periods, as_of}
use zenodb.Core.{OnRow, Guard}
use zenodb.Core.Paging.{feed}
use zenodb.Core.Flatten.{Field, FlatRow, Range, widened_by, widened, range_of, flatten_row}
use zenodb.Core.Flatten.Periods.{times, rows_at, guarded, end_of, show_periods_lem}

-- A start that is no duration too long before the end.
as_of_lem :
    (width resolution : ℕ) (v : Sequence) (n u a : ℕ)
    → num_periods width v ≡ some (suc n)
    → until v ≡ some u
    → suc n * resolution < 2 ^ 63
    → as_of width resolution v ≡ some a
    → a ≡ u - suc n * resolution
unfolding as_of num_periods
as_of_lem width resolution [] n u a h k l m = ground (arith, h)
as_of_lem width resolution (b ∷ bs) n u a h k l m =
    let g = rw (k, h, add_back_lem u (suc n * resolution) l) at m in ground (arith, g)

-- The range has become wider.
Widens : Range → Range → Type 0
Widens r r' =
    (r.until ≤ r'.until)
    × (r.as_of ≤ r.until → r'.as_of ≤ r'.until)
    × (0 < r.as_of → (0 < r'.as_of) × (r'.as_of ≤ r.as_of))

steps :
    (r r1 r2 : Range)
    → (0 < r1.as_of) × (r1.as_of ≤ r.as_of)
    → (0 < r1.as_of → (0 < r2.as_of) × (r2.as_of ≤ r1.as_of))
    → (0 < r2.as_of) × (r2.as_of ≤ r.as_of)
steps r r1 r2 (i, j) f = let (k, l) = f i in (k, omega (arith, j, l))

grown :
    (u a : Time) (r : Range)
    → a ≤ u
    → 0 < a
    → Widens r (widened_by u a r)
      × (u ≤ (widened_by u a r).until)
      × ((widened_by u a r).as_of ≤ a)
      × (0 < (widened_by u a r).as_of)
unfolding Widens widened_by
grown u a r h k = (
  (ground arith, λ g. ground (arith, g, h, k), λ g. (ground (arith, g, k), ground (arith, g))),
  ground arith,
  ground (arith, h),
  ground (arith, k),
)

module _ (x : Outside) (resolution : ℕ) where
  unfoldable pub IsLate : Expr x → Sequence → Type 0
  IsLate e v =
      (n u : ℕ)
      → num_periods (encoded_width x e) v ≡ some (suc n)
      → until v ≡ some u
      → (suc n * resolution < u) × (suc n * resolution < 2 ^ 63)

  -- A column that has periods starts and ends at these times.
  Spans : Expr x → Sequence → Time → Time → Type 0
  Spans e v a u =
      (n : ℕ) × (num_periods (encoded_width x e) v ≡ some (suc n))
      × (until v ≡ some u)
      × (as_of (encoded_width x e) resolution v ≡ some a)

  -- No column reaches back to the zero time, or 2 ^ 63 nanoseconds or more.
  unfoldable pub StartLate : List (Field x) → List Sequence → Type 0
  StartLate [] vals = Unit {0}
  StartLate (f ∷ fields) [] = Unit {0}
  StartLate (f ∷ fields) (v ∷ vals) = IsLate f.expr v × StartLate fields vals

  -- Every column that has periods is within the range.
  pub Within : Range → List (Field x) → List Sequence → Type 0
  unfolding Spans
  Within r [] vals = Unit {0}
  Within r (f ∷ fields) [] = Unit {0}
  Within r (f ∷ fields) (v ∷ vals) =
      ((a u : Time) → Spans f.expr v a u → (u ≤ r.until) × (r.as_of ≤ a)) × Within r fields vals

  widened_lem :
      (e : Expr x) (v : Sequence) (r r' : Range)
      → IsLate e v
      → widened x resolution e v r ≡ some r'
      → Widens r r'
        × ((a u : Time) → Spans e v a u → (u ≤ r'.until) × (r'.as_of ≤ a) × (0 < r'.as_of))
  unfolding Spans IsLate Widens widened
  widened_lem e v r r' late h = elim (Option-cases (num_periods (encoded_width x e) v)) [
    | inl n ↦ absurd (let g = rw n at h in ground (arith, g))
    | inr (zero, n) ↦
        let g : r ≡ r' = let g' = rw n at h in ground (arith, g') in
        rw (sym g) (
          (omega arith, λ k. k, λ k. (k, omega arith)),
          λ a u (m, k, i, j). absurd (let k' = rw n at k in ground (arith, k')),
        )
    | inr (suc n, nh) ↦ elim (Option-cases (until v)) [
      | inl k ↦ absurd (let g = rw (nh, k) at h in ground (arith, g))
      | inr (u, uh) ↦ elim (Option-cases (as_of (encoded_width x e) resolution v)) [
        | inl k ↦ absurd (let g = rw (nh, uh, k) at h in ground (arith, g))
        | inr (a, ah) ↦
            let g : widened_by u a r ≡ r' = let g' = rw (nh, uh, ah) at h in ground (arith, g') in
            let (b, o) = late n u nh uh in
            let start = as_of_lem (encoded_width x e) resolution v n u a nh uh o ah in
            let (w, i, j, l) = grown u a r (omega (arith, start)) (omega (arith, start, b)) in
            rw (sym g) (
              w,
              λ a' u' (m, k, uk, ak).
                  let ue : u ≡ u' = ground (arith, uh, uk) in
                  let ae : a ≡ a' = ground (arith, ah, ak) in
                  (omega (arith, i, ue), omega (arith, j, ae), l),
            )
      ]
    ]
  ]

  range_of_lem :
      (fields : List (Field x)) (vals : List Sequence) (r r' : Range)
      → StartLate fields vals
      → range_of x resolution fields vals r ≡ some r'
      → Widens r r' × Within r' fields vals
  unfolding Widens StartLate Within range_of
  range_of_lem [] vals r r' late h =
      let g : r ≡ r' = ground (arith, h) in
      rw (sym g) ((omega arith, λ k. k, λ k. (k, omega arith)), tt)
  range_of_lem (f ∷ fields) [] r r' late h = ground (arith, h)
  range_of_lem (f ∷ fields) (v ∷ vals) r r' (late, lates) h =
      elim (Option-cases (widened x resolution f.expr v r)) [
        | inl e ↦ absurd (let g = rw e at h in ground (arith, g))
        | inr (r1, e) ↦
            let g = rw e at h in
            let ((w, o, s), c) = widened_lem f.expr v r r1 late e in
            let ((w', o', s'), cs) = range_of_lem fields vals r1 r' lates g in
            (
              (omega (arith, w, w'), λ k. o' (o k), λ k. steps r r1 r' (s k) s'),
              (
                λ a u p.
                    let (i, j, l) = c a u p in
                    let (l', m) = s' l in (omega (arith, i, w'), omega (arith, j, m)),
                cs,
              ),
            )
      ]

  module _ (q : Quotients) (fields : List (Field x)) (key : List ℕ) (vals : List Sequence)
      {S E : Type 0} (now : S → ℕ) (exceeded : E) (guard : Guard)
      (on_row : OnRow S E (FlatRow x)) where
    -- Where no column reaches back to the zero time, or 2 ^ 63 nanoseconds or more, and the resolution is
    -- not zero: the times of a row reach from the start of each of its columns with periods to its end,
    -- and, where no read of a value panics, the callback of `flatten.Iterate` ends, and calls on with the
    -- rows of exactly those times at which a field that is not constant has a value, in order, as a source
    -- of these rows does; if the callback wants them all, the guard decides.
    pub flatten_row_lem :
        (r : Range) (rows : List (FlatRow x)) (s : S)
        → 0 < resolution
        → StartLate fields vals
        → range_of x resolution fields vals (record { until = 0; as_of = 0 }) ≡ some r
        → rows_at x q resolution fields key vals
            (times resolution (suc ((r.until - r.as_of) / resolution)) r.as_of)
          ≡ some rows
        → Within r fields vals
          × Yields (flatten_row x q resolution now exceeded guard fields on_row key vals s) (λ o.
            end_of x q resolution fields key vals now exceeded guard on_row o
            ≡ guarded x q resolution fields key vals now exceeded guard on_row (feed on_row rows s))
    unfolding flatten_row Widens quotient
    flatten_row_lem r rows s h late e k =
        let ((w, o, i), c) = range_of_lem fields vals (record { until = 0; as_of = 0 }) r late e in
        let d = r.until - r.as_of in
        let z : (resolution == 0) ≡ false = ground (arith, h) in
        let dm = div-add-mod d resolution in
        let ml = mod-lt d h in
        let sc : suc (d / resolution) * resolution ≡ resolution + resolution * (d / resolution) =
          omega arith in
        let l : r.as_of ≤ r.until = o (omega arith) in
        (
          c,
          rw (e, z)
              (show_periods_lem x q resolution fields key vals now exceeded guard on_row
                (suc (d / resolution)) r.as_of r.until rows s (omega (arith, dm, ml, l, sc))
                (omega (arith, dm, ml, l, sc)) k),
        )
