-- ===== src/Sequence/Merging/Extent.antt =====
-- encoding/seq.go: the end and the number of periods of a merge.
use native.Mathlib.Nat.{mul-le-mul_right, mul-div_cancel}
use zenodb.Prelude.{
  ℕ, suc, ◌+◌, ◌-◌, ◌*◌, ◌%◌, ◌^◌, ◌≤◌, ◌<◌, ◌≡◌, refl, ap, sym, ◌∙◌, Bool, true, false, some, List,
  [], ◌∷◌, ◌++◌, arith, ltb, leb, ◌==◌, max, if◌then◌else◌, length, length-append, length-take,
  length-drop, length-replicate, take-append_left, is_nil, take, drop, replicate, Bool-cases, inl,
  inr, Yields, Yields-map, Yields-bind,
}
use zenodb.Expr.{Outside, Expr, encoded_width}
use zenodb.Expr.Buffer.Width.{IsSound}
use zenodb.Prelude.Int.{pos, pos_part, ◌-ℤ◌}
use zenodb.Encoding.Binary.{to_int64}
use zenodb.Encoding.Duration.{since_lem, add_back, add_back_lem}
use zenodb.Encoding.Time.{Time}
use zenodb.Encoding.Until.{Quotients, round_time_until_up}
use zenodb.Sequence.{Sequence, num_periods, until}
use zenodb.Sequence.Merging.{
  Window, lead_window, gap_window, tail_window, overlap_window, middle_window, merge_windows,
  merge_sequences, periods_between, slice_size, as_size, lead_size,
}
use zenodb.Sequence.Merging.Windows.{
  Spans, num_periods-whole, lead-Spans, gap-Spans, length-tail_window, overlap-Spans,
}

-- Of two times that are whole periods before another, the earlier one is more periods before it.
before_lem : (u r m n : ℕ) → 0 < r → m * r ≤ u → n * r ≤ u → ltb (u - m * r) (u - n * r) ≡ ltb n m
before_lem u r m n p h k = elim (Bool-cases (ltb n m)) [
  | inl e ↦
      let s : suc n * r ≡ n * r + r = grind arith in
      let l : suc n ≤ m = ground (arith, e) in
      rw e (ground (arith, p, h, k, s, mul-le-mul_right r l))
  | inr e ↦ let l : m ≤ n = ground (arith, e) in rw e (ground (arith, h, k, mul-le-mul_right r l))
]

-- Periods to a whole number of periods before, or chosen by a test.
between_lem :
    (u r m : ℕ)
    → 0 < r
    → m * r ≤ u
    → m * r < 2 ^ 63
    → periods_between u (u - m * r) r ≡ some (pos m)
unfolding periods_between
between_lem u r m p h k =
    let e : u - (u - m * r) ≡ m * r = omega (arith, h) in
    let z : (r == 0) ≡ false = ground (arith, p) in
    let f : leb (u - m * r) u ≡ true = ground arith in
    rw (z, f, since_lem u (u - m * r) (omega (arith, k)), e, mul-div_cancel m p) refl

periods_before :
    (u r m n : ℕ) (b : Bool)
    → 0 < r
    → m * r ≤ u
    → n * r ≤ u
    → m * r < 2 ^ 63
    → n * r < 2 ^ 63
    → periods_between u (if b then u - m * r else u - n * r) r ≡ some (pos (if b then m else n))
periods_before u r m n true p h k i j = between_lem u r m p h i
periods_before u r m n false p h k i j = between_lem u r n p k j

slice_size_lem : (n w : ℕ) → 8 + n * w < 2 ^ 63 → slice_size (pos n) w ≡ some (n * w)
unfolding slice_size as_size
slice_size_lem n w h =
    let a : to_int64 (n * w % 2 ^ 64) ≡ pos (n * w) = unfold to_int64 in ground (arith, h) in
    let b : ltb (8 + n * w) (2 ^ 63) ≡ true = ground (arith, h) in rw (slice_size, a, b) refl

lead_size_lem : (n w : ℕ) → 8 + n * w < 2 ^ 63 → lead_size (pos n) w ≡ some (n * w)
unfolding lead_size
lead_size_lem n w h = slice_size_lem n w h

less_lem : (m n : ℕ) → pos_part (pos m -ℤ pos n) ≡ m - n
unfolding ◌-ℤ◌
less_lem m n = ground arith

-- What is left behind some of the periods.
periods_left : (m l w : ℕ) {y : ℕ} → l ≤ m → l * w + y ≡ m * w → y ≡ (m - l) * w
periods_left m l w h e =
    let d = m - l in
    let t : (l + d) * w ≡ l * w + d * w = grind arith in
    let t' : l + d ≡ m = omega (arith, h) in omega (arith, t, ap (λ n. n * w) t', e)

not_nil : (s : Sequence) (n : ℕ) → length s ≡ 8 + n → is_nil s ≡ false
not_nil [] n h = absurd (omega (arith, h))
not_nil (c ∷ s) n h = refl

-- The greater and the lesser number of periods, as they are compared in a merge.
later_of : ℕ → ℕ → ℕ
later_of m n = if ltb n m then m else n

sooner_of : ℕ → ℕ → ℕ
sooner_of m n = if ltb m n then m else n

module _ (x : Outside) (e : Expr x) (i : IsSound x e) (u r na k nb : ℕ) (p : 0 < r) (a : na * r ≤ u)
    (c : k * r ≤ u) (b : (k + nb) * r ≤ u) (a' : na * r < 2 ^ 63) (b' : (k + nb) * r < 2 ^ 63)
    (v : 8 + max na (k + nb) * encoded_width x e < 2 ^ 63) where
  middle-Spans :
      (s : Window)
      → length s.rest ≡ (later_of na (k + nb) - sooner_of na k) * encoded_width x e
      → length s.left_a ≡ (na - sooner_of na k) * encoded_width x e
      → length s.left_b ≡ nb * encoded_width x e
      → Yields
          (middle_window x e r u
            (u - na * r)
            (u - k * r)
            (u - (k + nb) * r)
            (pos (sooner_of na k))
            s)
          (λ o. length o.written + length o.rest ≡ length s.rest)
  unfolding middle_window
  middle-Spans s h j l = elim (Bool-cases (ltb k na)) [
    | inl f ↦
        let w = encoded_width x e in
        let n = if ltb (k + nb) na then k + nb else na in
        let g : n - sooner_of na k ≤ later_of na (k + nb) - sooner_of na k =
          unfold later_of sooner_of in ground (arith, f) in
        let g' : n - sooner_of na k ≤ na - sooner_of na k = ground (arith, f) in
        let g'' : n - sooner_of na k ≤ nb = unfold sooner_of in ground (arith, f) in
        rw
          (
            before_lem u r na k p a c,
            f,
            before_lem u r na (k + nb) p a b,
            periods_before u r (k + nb) na (ltb (k + nb) na) p b a b' a',
            less_lem n (sooner_of na k),
          )
          (Yields-map (overlap_window x e (n - sooner_of na k) s.rest s.left_a s.left_b) _ _
            (overlap-Spans x e i (n - sooner_of na k) s.rest s.left_a s.left_b
              (omega (arith, h, mul-le-mul_right w g)) (omega (arith, j, mul-le-mul_right w g'))
              (omega (arith, l, mul-le-mul_right w g'')))
            (λ o t. omega (arith, t.length_written, t.length_rest)))
    | inr f ↦
        rw (before_lem u r na k p a c, f, before_lem u r k na p c a)
          (elim (Bool-cases (ltb na k)) [
            | inl g ↦
                let w = encoded_width x e in
                let d = k - na in
                let t : (na + d) * r ≡ na * r + d * r = grind arith in
                let t' : na + d ≡ k = ground (arith, g) in
                let d' : u - k * r ≡ u - na * r - d * r = omega (arith, t, ap (λ m. m * r) t') in
                let kn : k ≤ k + nb = omega arith in
                let kr = mul-le-mul_right r kn in
                let o' : d ≤ max na (k + nb) = ground arith in
                let q : periods_between (u - na * r) (u - k * r) r ≡ some (pos d) = rw d' (
                  between_lem (u - na * r) r d p (omega (arith, t, ap (λ m. m * r) t', a, c))
                    (omega (arith, t, ap (λ m. m * r) t', kr, b'))) in
                let o : d ≤ later_of na (k + nb) - sooner_of na k =
                  unfold later_of sooner_of in ground (arith, g) in
                rw (g, q, slice_size_lem d w (omega (arith, v, mul-le-mul_right w o')))
                  (Yields-map (gap_window (d * w) s.rest s.left_a s.left_b) _ _
                    (gap-Spans (d * w) s.rest s.left_a s.left_b
                      (omega (arith, h, mul-le-mul_right w o)))
                    (λ v t. omega (arith, t.length_written, t.length_rest)))
            | inr g ↦ rw g (omega arith)
          ])
  ]

  -- The sum of the windows.
  sum_windows :
      (n l : ℕ) (head written lead rest tail : List ℕ)
      → l ≤ n
      → length written ≡ l
      → length lead + length rest ≡ n - l
      → length tail ≡ length rest
      → length (head ++ (written ++ (lead ++ tail))) ≡ length head + n
  sum_windows n l head written lead rest tail h i j k = omega (
    arith,
    length-append head (written ++ (lead ++ tail)),
    length-append written (lead ++ tail),
    length-append lead tail,
    h,
    i,
    j,
    k,
  )

  -- The bytes behind the windows of a merge: none is lost, be the tail of the one or of the other.
  length-tail_if :
      (f g : Bool) (sout sa sb : List ℕ)
      → length (if f then tail_window sout sa else (if g then tail_window sout sb else sout))
        ≡ length sout
  length-tail_if true g sout sa sb = length-tail_window sout sa
  length-tail_if false true sout sa sb = length-tail_window sout sb
  length-tail_if false false sout sa sb = refl

  -- After the switch of `Merge`: two sequences of whole periods, the second of which ends k periods before
  -- the first, give a sequence with the end of the first and as many periods as go back to the earlier of
  -- their starts. What aggregates and averages wrap has no bytes, and no duration or size is cut.
  pub merge_windows_lem :
      (sa sb : Sequence)
      → 0 < encoded_width x e
      → length sa ≡ 8 + na * encoded_width x e
      → length sb ≡ 8 + nb * encoded_width x e
      → Yields (merge_windows x e r u sa (u - k * r) sb) (λ out.
        (take 8 out ≡ take 8 sa) × (num_periods (encoded_width x e) out ≡ some (max na (k + nb))))
  unfolding merge_windows later_of sooner_of
  merge_windows_lem sa sb z h j =
      let w = encoded_width x e in
      let kt : (k + nb) * r ≡ k * r + nb * r = grind arith in
      let end_a_lem : add_back u (na * r) ≡ u - na * r = add_back_lem u (na * r) a' in
      let end_b : add_back (u - k * r) (nb * r) ≡ u - (k + nb) * r =
        add_back_lem (u - k * r) (nb * r) (omega (arith, kt, b')) ∙ omega (arith, kt) in
      let total = later_of na (k + nb) in
      let lead = sooner_of na k in
      let zeros : List ℕ = replicate (total * w) 0 in
      let zl : length zeros ≡ total * w = length-replicate (total * w) 0 in
      let lead_total : lead ≤ total = unfold later_of sooner_of in ground arith in
      let greater : total ≡ max na (k + nb) = ground arith in
      let lead_na : lead ≤ na = unfold sooner_of in ground arith in
      let da : length (drop 8 sa) ≡ na * w = omega (arith, length-drop 8 sa, h) in
      let db : length (drop 8 sb) ≡ nb * w = omega (arith, length-drop 8 sb, j) in
      let end_a = u - na * r in
      let end = u - (k + nb) * r in
      let start_b = u - k * r in
      let size : 8 + total * w < 2 ^ 63 = omega (arith, v, ap (λ n. n * w) greater) in
      let q : periods_between u (if ltb end_a end then end_a else end) r ≡ some (pos total) =
        periods_before u r na (k + nb) (ltb end_a end) p a b a' b'
        ∙ ap (λ t. some (pos (if t then na else k + nb))) (before_lem u r na (k + nb) p a b) in
      let q' : periods_between u (if ltb start_b end_a then end_a else start_b) r
          ≡ some (pos lead) =
        periods_before u r na k (ltb start_b end_a) p a c a' (omega (arith, kt, b'))
        ∙ ap (λ t. some (pos (if t then na else k))) (before_lem u r k na p c a) in
      rw
        (
          num_periods-whole w na sa z h,
          num_periods-whole w nb sb z j,
          end_a_lem,
          end_b,
          q,
          slice_size_lem total w size,
          q',
          lead_size_lem lead w (omega (arith, size, mul-le-mul_right w lead_total)),
        )
        (Yields-bind (lead_window (lead * w) zeros (drop 8 sa) (drop 8 sb)) _
          (Spans (lead * w) (lead * w) 0 zeros (drop 8 sa) (drop 8 sb)) _
          (lead-Spans (lead * w) zeros (drop 8 sa) (drop 8 sb)
            (omega (arith, zl, mul-le-mul_right w lead_total))
            (omega (arith, da, mul-le-mul_right w lead_na)))
          (λ s sp.
            Yields-bind (middle_window x e r u end_a start_b end (pos lead) s) _
              (λ o. length o.written + length o.rest ≡ length s.rest) _
              (middle-Spans s (periods_left total lead w lead_total (sp.length_rest ∙ zl))
                (periods_left na lead w lead_na (sp.length_a ∙ da))
                (omega (arith, sp.length_b, db)))
              (λ o op.
                let tail =
                  if ltb end_a end
                  then tail_window o.rest o.left_a
                  else (if ltb end end_a then tail_window o.rest o.left_b else o.rest) in
                let head : length (take 8 sa) ≡ 8 = omega (arith, length-take 8 sa, h) in
                let whole =
                  sum_windows (total * w) (lead * w) (take 8 sa) s.written o.written o.rest tail
                    (mul-le-mul_right w lead_total) sp.length_written
                    (omega (arith, op, sp.length_rest, zl))
                    (length-tail_if (ltb end_a end) (ltb end end_a) o.rest o.left_a o.left_b) in
                let more = s.written ++ (o.written ++ tail) in
                (
                  ap (λ n. take n (take 8 sa ++ more)) (sym head)
                      ∙ take-append_left (take 8 sa) more,
                  num_periods-whole w total (take 8 sa ++ more) z (omega (arith, whole, head))
                      ∙ ap some greater,
                ))))

  -- `Merge` of two sequences of whole periods, the second of which ends a whole number of periods before the
  -- first, or with it, and not before the truncation, does not panic; the result has the end of the first, and
  -- as many periods as go back to the earlier of the two starts. What aggregates and averages wrap has no
  -- bytes, the expression has some, the resolution is positive, the starts are not before the zero time and
  -- less than 2 ^ 63 nanoseconds before the end of the first, and the result has fewer than 2 ^ 63 bytes.
  pub merge_sequences_lem :
      (q : Quotients) (before : Time) (sa sb : Sequence)
      → 0 < encoded_width x e
      → length sa ≡ 8 + na * encoded_width x e
      → length sb ≡ 8 + nb * encoded_width x e
      → until sa ≡ some u
      → until sb ≡ some (u - k * r)
      → round_time_until_up q before r u ≤ u - k * r
      → Yields (merge_sequences x q e r before sa sb) (λ out.
        (take 8 out ≡ take 8 sa) × (num_periods (encoded_width x e) out ≡ some (max na (k + nb))))
  unfolding merge_sequences
  merge_sequences_lem q before sa sb z h j ua ub t =
      let f : ltb u (u - k * r) ≡ false = ground arith in
      let g : ltb (u - k * r) (round_time_until_up q before r u) ≡ false = ground (arith, t) in
      rw
        (not_nil sa (na * encoded_width x e) h, not_nil sb (nb * encoded_width x e) j, ua, ub, f, g)
        (merge_windows_lem sa sb z h j)
