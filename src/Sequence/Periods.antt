-- ===== src/Sequence/Periods.antt =====
-- encoding/seq.go: a sequence as what it stands for, the accumulators at the times of its periods.
use zenodb.Prelude.{
  ℕ, ◌+◌, ◌-◌, ◌*◌, ◌/◌, ◌≤◌, ◌<◌, ◌≡◌, refl, Option, none, some, List, [], ◌++◌, arith, length,
  take, drop, leb, ltb, if◌then◌else◌, ◌>>=◌, length-drop, length-take, drop-drop, take-drop-take,
  ltb→lt, Bool-cases, inl, inr,
}
use native.Mathlib.Nat.{mul-le-mul_right}
use zenodb.Encoding.Time.{header}
use zenodb.Sequence.Header.{IsStorable, until-header, drop-header}
use zenodb.Sequence.{Sequence, until}

-- The accumulator of a period, counted back from the newest.
unfoldable pub period : ℕ → ℕ → List ℕ → Option (List ℕ)
period width p d =
    if leb (p * width + width) (length d) then some (take width (drop (p * width) d)) else none

-- The accumulator at a time, which is the end of its period.
pub cell_at : ℕ → ℕ → ℕ → Sequence → Option (List ℕ)
unfolding period
cell_at width resolution t seq = do
  u ← until seq
  if ltb u t then none else period width ((u - t) / resolution) (drop 8 seq)

-- Periods that are dropped in front.
pub period-drop :
    (width n p : ℕ) (d : List ℕ)
    → n * width ≤ length d
    → period width p (drop (n * width) d) ≡ period width (n + p) d
unfolding period
period-drop width n p d h =
    let e : n * width + p * width ≡ (n + p) * width = grind arith in
    rw (drop-drop (n * width) (p * width) d, e) (ground (arith, length-drop (n * width) d, e))

-- Periods that are left, of which all else is cut.
pub period-take :
    (width m p : ℕ) (d : List ℕ)
    → 0 < width
    → period width p (take (m * width) d) ≡ (if ltb p m then period width p d else none)
unfolding period
period-take width m p d h = elim (Bool-cases (ltb p m)) [
  | inl e ↦
      let l : p * width + width ≤ m * width =
        grind (arith, mul-le-mul_right width (ltb→lt p m e)) in
      rw (e, take-drop-take width (p * width) (m * width) d l)
        (ground (arith, length-take (m * width) d))
  | inr e ↦
      let g : m ≤ p = ground (arith, e) in
      let l : m * width < p * width + width = omega (arith, mul-le-mul_right width g) in
      rw e (ground (arith, length-take (m * width) d))
]

-- A sequence has no periods but those that it has room for.
pub period-short :
    (width m p : ℕ) (d : List ℕ)
    → 0 < width
    → length d ≤ m * width
    → period width p d ≡ (if ltb p m then period width p d else none)
unfolding period
period-short width m p d h l = elim (Bool-cases (ltb p m)) [
  | inl e ↦ rw e refl
  | inr e ↦
      let g : m ≤ p = ground (arith, e) in
      let k : m * width < p * width + width = omega (arith, mul-le-mul_right width g) in
      rw e (ground (arith, k, l))
]

-- At any time but the zero time: nothing in nil, and in a sequence with its end the period that ends
-- there.
pub cell_at-nil : (width resolution t : ℕ) → 0 < t → cell_at width resolution t [] ≡ none
unfolding cell_at until
cell_at-nil width resolution t h = ground arith

pub cell_at-header :
    (width resolution u t : ℕ) (d : List ℕ)
    → IsStorable u
    → cell_at width resolution t (header u ++ d)
      ≡ (if ltb u t then none else period width ((u - t) / resolution) d)
unfolding cell_at
cell_at-header width resolution u t d s = rw (until-header u d s, drop-header 0 u d) refl
