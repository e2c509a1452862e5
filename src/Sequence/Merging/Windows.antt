-- ===== src/Sequence/Merging/Windows.antt =====
-- encoding/seq.go: the windows of a merge have the bytes of their periods.
use native.Mathlib.Nat.{mul-div_cancel}
use zenodb.Prelude.{
  ℕ, zero, suc, ◌+◌, ◌-◌, ◌*◌, ◌≤◌, ◌<◌, ◌≡◌, ap, ◌∙◌, true, some, List, [], ◌∷◌, arith, leb, min,
  length, length-append, length-take, length-drop, take, drop, Yields, Yields-bind,
}
use zenodb.Expr.{Outside, Expr, encoded_width}
use zenodb.Expr.Merge.{merge, merge_total, MergeTook}
use zenodb.Expr.Buffer.Width.{IsSound}
use zenodb.Sequence.{Sequence, quotient, num_periods, data_length}
use zenodb.Sequence.Merging.{Window, lead_window, gap_window, tail_window, overlap_window}

pub quotient-mul : (n r : ℕ) → 0 < r → quotient (n * r) r ≡ some n
unfolding quotient
quotient-mul n r h = ground (arith, h, mul-div_cancel n h)

pub num_periods-whole :
    (w n : ℕ) (s : Sequence) → 0 < w → length s ≡ 8 + n * w → num_periods w s ≡ some n
unfolding num_periods data_length
num_periods-whole w n [] z h = absurd (omega (arith, h))
num_periods-whole w n (c ∷ s) z h =
    let e : length (c ∷ s) - 8 ≡ n * w = omega (arith, h) in rw e (quotient-mul n w z)

-- A window of n bytes in front of three buffers.
pub record Spans (n a b : ℕ) (sout sa sb : List ℕ) (o : Window) : Type 0 where
  pub length_written : length o.written ≡ n
  pub length_rest : n + length o.rest ≡ length sout
  pub length_a : a + length o.left_a ≡ length sa
  pub length_b : b + length o.left_b ≡ length sb

pub lead-Spans :
    (l : ℕ) (sout sa sb : List ℕ)
    → l ≤ length sout
    → l ≤ length sa
    → Yields (lead_window l sout sa sb) (Spans l l 0 sout sa sb)
unfolding lead_window
lead-Spans l sout sa sb h k =
    let f : leb l (length sa) ≡ true = ground (arith, k) in
    let g : leb l (length sout) ≡ true = ground (arith, h) in
    rw (f, g)
      (record {
        length_written = omega (arith, length-take l sa);
        length_rest = omega (arith, length-drop l sout);
        length_a = omega (arith, length-drop l sa);
        length_b = omega arith;
      })

pub gap-Spans :
    (l : ℕ) (sout sa sb : List ℕ)
    → l ≤ length sout
    → Yields (gap_window l sout sa sb) (Spans l 0 0 sout sa sb)
unfolding gap_window
gap-Spans l sout sa sb h =
    let g : leb l (length sout) ≡ true = ground (arith, h) in
    rw g (record {
      length_written = omega (arith, length-take l sout);
      length_rest = omega (arith, length-drop l sout);
      length_a = omega arith;
      length_b = omega arith;
    })

pub length-tail_window : (sout src : List ℕ) → length (tail_window sout src) ≡ length sout
unfolding tail_window
length-tail_window sout src =
    let n = min (length sout) (length src) in
    omega (arith, length-append (take n src) (drop n sout), length-take n src, length-drop n sout)

module _ (x : Outside) (e : Expr x) (i : IsSound x e) where
  pub overlap-Spans :
      (n : ℕ) (sout sa sb : List ℕ)
      → n * encoded_width x e ≤ length sout
      → n * encoded_width x e ≤ length sa
      → n * encoded_width x e ≤ length sb
      → Yields
          (overlap_window x e n sout sa sb)
          (Spans (n * encoded_width x e) (n * encoded_width x e) (n * encoded_width x e) sout sa sb)
  unfolding overlap_window
  overlap-Spans zero sout sa sb h j k = record {
    length_written = omega arith;
    length_rest = omega arith;
    length_a = omega arith;
    length_b = omega arith;
  }
  overlap-Spans (suc n) sout sa sb h j k =
      let w = encoded_width x e in
      let s : suc n * w ≡ w + n * w = grind arith in
      Yields-bind (merge x e sout sa sb) _ (MergeTook x w sout sa sb) _
        (merge_total x e sout sa sb i (omega (arith, s)) (omega (arith, s)) (omega (arith, s)))
        (λ m t.
          let a : length m.remain ≡ length sout - w = ap length t.left ∙ length-drop w sout in
          let b : length m.remain_x ≡ length sa - w = ap length t.left_x ∙ length-drop w sa in
          let c : length m.remain_y ≡ length sb - w = ap length t.left_y ∙ length-drop w sb in
          Yields-bind (overlap_window x e n m.remain m.remain_x m.remain_y) _
            (Spans (n * w) (n * w) (n * w) m.remain m.remain_x m.remain_y) _
            (overlap-Spans n m.remain m.remain_x m.remain_y (omega (arith, s, a))
              (omega (arith, s, b)) (omega (arith, s, c)))
            (λ o p. record {
              length_written =
                  omega (arith, length-append m.written o.written, t.took, p.length_written, s);
              length_rest = omega (arith, p.length_rest, a, s, h);
              length_a = omega (arith, p.length_a, b, s, j);
              length_b = omega (arith, p.length_b, c, s, k);
            }))
