-- ===== src/Sequence/Slices.antt =====
-- encoding/seq.go: the periods that the two halves of `Truncate` leave.
use zenodb.Prelude.{
  ℕ, zero, suc, ◌+◌, ◌-◌, ◌*◌, ◌/◌, ◌^◌, ◌≤◌, ◌<◌, ◌≡◌, refl, ap, sym, ◌∙◌, Bool, true, false, ◌&&◌,
  Option, none, some, List, [], ◌++◌, arith, length, take, drop, leb, ltb, ◌==◌, if◌then◌else◌,
  length-drop, drop-drop, Bool-cases, inl, inr, Yields, Yields-map, not, ◌||◌, ◌⊎◌,
}
use mathlib.Core.Path.{ap₂}
use native.Mathlib.Nat.{
  mul-div_left, mul-sub, mul_comm, suc-mul, mul-le-mul_right, div-lt_iff_lt-mul,
}
use zenodb.Encoding.Duration.{since, since_lem}
use zenodb.Encoding.Time.{header}
use zenodb.Sequence.{Sequence, quotient, cut_newer, cut_older}
use zenodb.Sequence.Header.{
  IsStorable, until-header, set_until_lem, drop-header, take-header, length-header_append,
}
use zenodb.Sequence.Periods.{
  period, cell_at, period-drop, period-take, period-short, cell_at-nil, cell_at-header,
}

sub_mul : (m n k : ℕ) → (m - n) * k ≡ m * k - n * k
sub_mul m n k = rw (mul_comm (m - n) k, mul_comm m k, mul_comm n k) (mul-sub k m n)

module _ (width resolution : ℕ) (w : 0 < width) (r : 0 < resolution) where
  -- A whole number of resolutions divides into that number.
  pub quotient_exact : (k : ℕ) → quotient (k * resolution) resolution ≡ some k
  unfolding quotient
  quotient_exact k = ground (arith, mul-div_left k r)

  quotient-since :
      (a b k : ℕ)
      → a - b ≡ k * resolution
      → a - b < 2 ^ 63
      → quotient (since a b) resolution ≡ some k
  quotient-since a b k e h = rw (since_lem a b h, e) (quotient_exact k)

  -- How many resolutions it takes to cover x.
  pub covers : (x p : ℕ) → leb ((x + (resolution - 1)) / resolution) p ≡ leb x (p * resolution)
  covers x p =
      ground (arith, div-lt_iff_lt-mul {x = x + (resolution - 1)} {y = suc p} r, mul-comm_suc)
    where
      mul-comm_suc : suc p * resolution ≡ p * resolution + resolution
      mul-comm_suc = grind arith

  -- What is left of data d that ended at `old` when n periods are cut in front.
  abbrev pub IsRest : ℕ → ℕ → List ℕ → Sequence → Type 0
  IsRest old n d s =
      ((s ≡ []) × (length d ≤ n * width))
      ⊎ ((s ≡ header (old - n * resolution) ++ drop (n * width) d) × (n * width ≤ length d))

  pub whole-IsRest : (old : ℕ) (d : List ℕ) → IsRest old 0 d (header old ++ d)
  whole-IsRest old d =
      let a : old ≡ old - 0 * resolution = omega arith in
      let b : ◌≡◌ {A = ℕ} 0 (0 * width) = omega arith in
      inr (ap₂ (λ t k. header t ++ drop k d) a b, omega arith)

  pub cut_newer-zero :
      (old : ℕ) (s : Sequence)
      → cut_newer width resolution old 0 s ≡ some (record { result = s; array = s })
  unfolding cut_newer
  cut_newer-zero old s = refl

  pub cut_newer-IsRest :
      (old to n : ℕ) (d : List ℕ)
      → 0 < to
      → old - to ≡ n * resolution
      → old - to < 2 ^ 63
      → Yields (cut_newer width resolution old to (header old ++ d)) (λ t. IsRest old n d t.result)
  unfolding cut_newer
  cut_newer-IsRest old to zero d h e o =
      let f : (to == 0) ≡ false = ground arith in
      rw (f, quotient-since old to zero e o) (whole-IsRest old d)
  cut_newer-IsRest old to (suc n) d h e o =
      let f : (to == 0) ≡ false = ground arith in
      let l = length-header_append old d in
      let z : (suc n == 0) ≡ false = ground arith in
      let x : suc n * resolution ≡ n * resolution + resolution = grind arith in
      let a : to ≡ old - suc n * resolution = omega (arith, e, x, r, h) in
      elim (Bool-cases (leb (length d) (suc n * width))) [
        | inl c ↦
            let c' : leb (length (header old ++ d)) (suc n * width + 8) ≡ true =
              ground (arith, l, c) in
            rw (f, quotient-since old to (suc n) e o, z, c') (inl (refl, ground (arith, c)))
        | inr c ↦
            let c' : leb (length (header old ++ d)) (suc n * width + 8) ≡ false =
              ground (arith, l, c) in
            let k : 8 ≤ length (drop (suc n * width) (header old ++ d)) =
              ground (arith, l, c, length-drop (suc n * width) (header old ++ d)) in
            let g = set_until_lem (drop (suc n * width) (header old ++ d)) to k in
            rw (f, quotient-since old to (suc n) e o, z, c', g)
              (inr (
                ap₂ (λ t y. header t ++ y) a
                    (drop-drop (suc n * width) 8 (header old ++ d)
                      ∙ drop-header (suc n * width) old d),
                ground (arith, c),
              ))
      ]

  guarded :
      {A : Type 0} (c k : Bool) (y : Option A)
      → (if c then none else if k then y else none) ≡ (if not c && k then y else none)
  guarded true k y = refl
  guarded false k y = refl

  nothing :
      {A : Type 0} (c : Bool) (p : ℕ) (y : Option A) → none ≡ (if not c && ltb p 0 then y else none)
  nothing true p y = refl
  nothing false p y = ground arith

  cut_older_none :
      (u from : ℕ) (d : List ℕ)
      → (from == 0) ≡ true
      → cut_older width resolution from (header u ++ d) ≡ some (header u ++ d)
  unfolding cut_older
  cut_older_none u from d z = rw z refl

  cut_older_some :
      (u from m : ℕ) (d : List ℕ)
      → IsStorable u
      → (from == 0) ≡ false
      → u - from ≡ m * resolution
      → u - from < 2 ^ 63
      → Yields (cut_older width resolution from (header u ++ d)) (λ s.
        (t : ℕ)
        → 0 < t
        → cell_at width resolution t s ≡ (
            if not (ltb u t) && ltb ((u - t) / resolution) m
            then period width ((u - t) / resolution) d
            else none))
  unfolding cut_older
  cut_older_some u from zero d s z e o =
      rw (z, until-header u d s, quotient-since u from zero e o)
        (λ t p. cell_at-nil width resolution t p ∙ nothing (ltb u t) ((u - t) / resolution) _)
  cut_older_some u from (suc m) d s z e o =
      let y : (suc m == 0) ≡ false = ground arith in
      elim (Bool-cases (leb (length (header u ++ d)) (8 + suc m * width))) [
        | inl c ↦
            let l : length d ≤ suc m * width = ground (arith, c, length-header_append u d) in
            rw (z, until-header u d s, quotient-since u from (suc m) e o, y, c)
              (λ t p.
                cell_at-header width resolution u t d s
                ∙ (ap (λ k. if ltb u t then none else k)
                      (period-short width (suc m) ((u - t) / resolution) d w l)
                    ∙ guarded (ltb u t) (ltb ((u - t) / resolution) (suc m)) _))
        | inr c ↦
            rw
              (
                z,
                until-header u d s,
                quotient-since u from (suc m) e o,
                y,
                c,
                take-header (suc m * width) u d,
              )
              (λ t p.
                cell_at-header width resolution u t (take (suc m * width) d) s
                ∙ (ap (λ k. if ltb u t then none else k)
                      (period-take width (suc m) ((u - t) / resolution) d w)
                    ∙ guarded (ltb u t) (ltb ((u - t) / resolution) (suc m)) _))
      ]

  -- What is left when all but m periods are cut.
  cut_older_lem :
      (u from m : ℕ) (d : List ℕ)
      → IsStorable u
      → (from ≡ 0) ⊎ (u - from ≡ m * resolution) × (u - from < 2 ^ 63)
      → Yields (cut_older width resolution from (header u ++ d)) (λ s.
        (t : ℕ)
        → 0 < t
        → cell_at width resolution t s ≡ (
            if not (ltb u t) && (from == 0 || ltb ((u - t) / resolution) m)
            then period width ((u - t) / resolution) d
            else none))
  cut_older_lem u from m d s h = elim (Bool-cases (from == 0)) [
    | inl z ↦
        rw (cut_older_none u from d z, z)
          (λ t p. cell_at-header width resolution u t d s ∙ guarded (ltb u t) true _)
    | inr z ↦
        let (e, o) : (u - from ≡ m * resolution) × (u - from < 2 ^ 63) = elim h [
          | inl y ↦ absurd (ground (arith, y, z))
          | inr y ↦ y
        ] in
        rw z (cut_older_some u from m d s z e o)
  ]

  -- What the periods n to m, m not included, of data d that ended at `old` come to.
  abbrev pub IsSlice : (old n : ℕ) (kept : ℕ → Bool) (d : List ℕ) → Sequence → Type 0
  IsSlice old n kept d s =
      (p : ℕ)
      → p * resolution < old
      → cell_at width resolution (old - p * resolution) s
        ≡ (if leb n p && kept p then period width p d else none)

  slice_at :
      (old n m p from : ℕ) (d : List ℕ)
      → n * resolution < old
      → p * resolution < old
      → n * width ≤ length d
      → (let u = old - n * resolution in
          let t = old - p * resolution in
          if not (ltb u t) && (from == 0 || ltb ((u - t) / resolution) (m - n))
          then period width ((u - t) / resolution) (drop (n * width) d)
          else none)
        ≡ (if leb n p && (from == 0 || ltb p m) then period width p d else none)
  slice_at old n m p from d h i l = elim (Bool-cases (leb n p)) [
    | inl e ↦
        let g : n ≤ p = ground (arith, e) in
        let a : (p - n) * resolution ≡ p * resolution - n * resolution = sub_mul p n resolution in
        let b : old - n * resolution - (old - p * resolution) ≡ (p - n) * resolution =
          omega (arith, a, i, mul-le-mul_right resolution g) in
        let c : ltb (old - n * resolution) (old - p * resolution) ≡ false =
          ground (arith, mul-le-mul_right resolution g) in
        let x : n + (p - n) ≡ p = omega arith in
        let y : ltb (p - n) (m - n) ≡ ltb p m = ground (arith, g) in
        rw (b, mul-div_left (p - n) r, c, e, period-drop width n (p - n) d l, x, y) refl
    | inr e ↦
        let g : suc p ≤ n = ground (arith, e) in
        let c : ltb (old - n * resolution) (old - p * resolution) ≡ true =
          ground (arith, mul-le-mul_right resolution g, suc-mul p resolution) in
        rw (c, e) refl
  ]

  -- Of what is left behind n periods, the periods that are left in front of m.
  pub rest-IsSlice :
      (old n m from : ℕ) (d : List ℕ)
      → n * resolution < old
      → n * width ≤ length d
      → IsStorable (old - n * resolution)
      → (from ≡ 0) ⊎ ((from == 0) ≡ false) × (old - from ≡ m * resolution) × (old - from < 2 ^ 63)
      → Yields
          (cut_older width resolution from (header (old - n * resolution) ++ drop (n * width) d))
          (IsSlice old n (λ p. from == 0 || ltb p m) d)
  rest-IsSlice old n m from d h l s k =
      Yields-map
        (cut_older width resolution from (header (old - n * resolution) ++ drop (n * width) d)) _ _
        (cut_older_lem (old - n * resolution) from (m - n) (drop (n * width) d) s (elim k [
          | inl z ↦ inl z
          | inr (z, e, o) ↦ inr (omega (arith, e, sub_mul m n resolution), omega (arith, o))
        ]))
        (λ s' f p i. f (old - p * resolution) (omega arith) ∙ slice_at old n m p from d h i l)

  either_way : {A : Type 0} (c : Bool) → ◌≡◌ {A = Option A} (if c then none else none) none
  either_way true = refl
  either_way false = refl

  pub empty-IsSlice :
      (old n : ℕ) (kept : ℕ → Bool) (d : List ℕ) → length d ≤ n * width → IsSlice old n kept d []
  empty-IsSlice old n kept d l p h =
      cell_at-nil width resolution (old - p * resolution) (omega arith)
      ∙ sym (elim (Bool-cases (leb n p)) [
        | inl e ↦
            let f : ltb p n ≡ false = ground (arith, e) in
            let g = period-short width n p d w l in
            let k : period width p d ≡ none = g ∙ (rw f refl) in rw (e, k) (either_way (kept p))
        | inr e ↦ rw e refl
      ])
