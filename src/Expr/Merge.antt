-- ===== src/Expr/Merge.antt =====
-- expr: `Merge` of each expression, which puts what two buffers hold into a third one. A slice that Go
-- would find too short gives `none`. `Merge` reads a cell of x and y before it writes that of b, so b
-- may be x, as it is in `subMerge`.
pub mod Cells
use zenodb.Prelude.{
  ℕ, suc, ◌+◌, ◌≤◌, ◌≡◌, refl, sym, Bool, true, false, Option, none, some, List, [], ◌∷◌, ◌++◌,
  arith, if◌then◌else◌, length, length-append, length-drop, length-take, take, drop, drop-drop, ap,
  ◌∙◌, ◌>>=◌, Yields, Yields-bind, leb, Bool-cases, inl, inr,
}
use zenodb.Expr.{
  Outside, Expr, Aggregate, constant, field, bounded, aggregate, if_expr, avg, binary, shift,
  unary_math, encoded_width, merge_fn,
}
use zenodb.Expr.Cell.{
  load, saved, load_avg, saved_avg, load_total, load_avg_total, length-saved, length-saved_avg,
}
use zenodb.Expr.Buffer.{Got, get, mean}
use zenodb.Expr.Buffer.Width.{IsSound}

-- What `Merge` leaves: the bytes of b that it consumed as they are now, and what is behind them in b,
-- x and y.
pub record Merged : Type 0 where
  pub written : List ℕ
  pub remain : List ℕ
  pub remain_x : List ℕ
  pub remain_y : List ℕ

module _ (x : Outside) where
  open x use {Float, add}

  -- The cell that `aggregate.Merge` leaves at the front of b, on what it loads of x and y.
  unfoldable pub cell_merged : Aggregate → List ℕ → Float → Bool → Float → Bool → List ℕ
  cell_merged a b value_x x_was_set value_y y_was_set =
      if x_was_set
      then saved x (if y_was_set then merge_fn x a true value_x value_y else value_x)
      else (if y_was_set then saved x value_y else take 9 b)

  -- The same of `avg.Merge`.
  unfoldable pub avg_merged : List ℕ → Float × Float × Bool → Float × Float × Bool → List ℕ
  avg_merged b (count_x, total_x, x_was_set) (count_y, total_y, y_was_set) =
      if x_was_set
      then saved_avg x (if y_was_set then add count_x count_y else count_x)
          (if y_was_set then add total_x total_y else total_x)
      else (if y_was_set then saved_avg x count_y total_y else take 17 b)

  -- `Merge`.
  pub merge : Expr x → List ℕ → List ℕ → List ℕ → Option Merged
  merge (constant v) b p q = some (record { written = []; remain = b; remain_x = p; remain_y = q })
  merge (field name) b p q = some (record { written = []; remain = b; remain_x = p; remain_y = q })
  merge (bounded e low high) b p q = merge e b p q
  merge (aggregate a e) b p q = do
    l ← load x p
    m ← load x q
    if leb 9 (length b)
        then some (record {
          written = cell_merged a b l.0 l.1 m.0 m.1;
          remain = drop 9 b;
          remain_x = l.2;
          remain_y = m.2;
        })
        else none
  merge (if_expr c e) b p q = merge e b p q
  merge (avg v w) b p q = do
    l ← load_avg x p
    m ← load_avg x q
    if leb 17 (length b)
        then some (record {
          written = avg_merged b (l.0, l.1, l.2) (m.0, m.1, m.2);
          remain = drop 17 b;
          remain_x = l.3;
          remain_y = m.3;
        })
        else none
  merge (binary op l r d) b p q = do
    m ← merge l b p q
    n ← merge r m.remain m.remain_x m.remain_y
    some (record n { written = m.written ++ n.written })
  merge (shift e offset) b p q = merge e b p q
  merge (unary_math f e) b p q = merge e b p q

  -- What a merge of n bytes leaves.
  pub record MergeTook (n : ℕ) (b p q : List ℕ) (m : Merged) : Type 0 where
    pub took : length m.written ≡ n
    pub left : m.remain ≡ drop n b
    pub left_x : m.remain_x ≡ drop n p
    pub left_y : m.remain_y ≡ drop n q

  length-cell_merged :
      (a : Aggregate) (b : List ℕ) (v : Float) (s : Bool) (w : Float) (t : Bool)
      → 9 ≤ length b
      → length (cell_merged a b v s w t) ≡ 9
  unfolding cell_merged
  length-cell_merged a b v true w t h = length-saved x _
  length-cell_merged a b v false w true h = length-saved x w
  length-cell_merged a b v false w false h = omega (arith, length-take 9 b)

  length-avg_merged :
      (b : List ℕ) (c d : Float) (s : Bool) (c' d' : Float) (t : Bool)
      → 17 ≤ length b
      → length (avg_merged b (c, d, s) (c', d', t)) ≡ 17
  unfolding avg_merged
  length-avg_merged b c d true c' d' t h = length-saved_avg x _ _
  length-avg_merged b c d false c' d' true h = length-saved_avg x c' d'
  length-avg_merged b c d false c' d' false h = omega (arith, length-take 17 b)

  -- Behind the n bytes of a cell, those of what it wraps are none.
  width_eq : (n : ℕ) {k : ℕ} → k ≡ 0 → n ≡ n + k
  width_eq n h = omega arith

  pub fits : {m n : ℕ} → m ≤ n → leb m n ≡ true
  fits h = ground arith

  left_eq : (n : ℕ) {k : ℕ} (b : List ℕ) → k ≡ 0 → drop n b ≡ drop (n + k) b
  left_eq n b h = ap (λ i. drop i b) (width_eq n h)

  behind : (m n : ℕ) (b : List ℕ) {r : List ℕ} → r ≡ drop m b → m + n ≤ length b → n ≤ length r
  behind m n b h k = rw h (omega (arith, length-drop m b))

  dropped : (m n : ℕ) (b : List ℕ) {r : List ℕ} → r ≡ drop m b → drop n r ≡ drop (m + n) b
  dropped m n b h = rw h (drop-drop m n b)

  -- On three buffers of `EncodedWidth` bytes or more `Merge` does not panic, rewrites `EncodedWidth`
  -- bytes of the first and leaves the rest of each, where what aggregates and averages wrap has no
  -- bytes.
  pub merge_total :
      (e : Expr x) (b p q : List ℕ)
      → IsSound x e
      → encoded_width x e ≤ length b
      → encoded_width x e ≤ length p
      → encoded_width x e ≤ length q
      → Yields (merge e b p q) (MergeTook (encoded_width x e) b p q)
  unfolding merge encoded_width
  merge_total (constant v) b p q s h i j = record {
    took = refl;
    left = refl;
    left_x = refl;
    left_y = refl;
  }
  merge_total (field name) b p q s h i j = record {
    took = refl;
    left = refl;
    left_x = refl;
    left_y = refl;
  }
  merge_total (bounded e low high) b p q s h i j = merge_total e b p q s h i j
  merge_total (aggregate a e) b p q s h i j =
      let (v, f, k) = load_total x p (omega arith) in
      let (w, g, l) = load_total x q (omega arith) in
      let t : 9 ≤ length b = omega arith in
      rw (k, l, fits t)
        record {
          took = length-cell_merged a b v f w g t ∙ width_eq 9 s.0;
          left = left_eq 9 b s.0;
          left_x = left_eq 9 p s.0;
          left_y = left_eq 9 q s.0;
        }
  merge_total (if_expr c e) b p q s h i j = merge_total e b p q s h i j
  merge_total (avg v w) b p q s h i j =
      let (c, d, f, k) = load_avg_total x p (omega arith) in
      let (c', d', g, l) = load_avg_total x q (omega arith) in
      let t : 17 ≤ length b = omega arith in
      rw (k, l, fits t)
        record {
          took = length-avg_merged b c d f c' d' g t ∙ width_eq 17 s.0;
          left = left_eq 17 b s.0;
          left_x = left_eq 17 p s.0;
          left_y = left_eq 17 q s.0;
        }
  merge_total (binary op l r d) b p q s h i j =
      Yields-bind (merge l b p q) _ (MergeTook (encoded_width x l) b p q) _
        (merge_total l b p q s.0 (omega arith) (omega arith) (omega arith))
        (λ m t.
          Yields-bind (merge r m.remain m.remain_x m.remain_y) _
            (MergeTook (encoded_width x r) m.remain m.remain_x m.remain_y) _
            (merge_total r m.remain m.remain_x m.remain_y s.1 (behind _ _ b t.left (omega arith))
              (behind _ _ p t.left_x (omega arith)) (behind _ _ q t.left_y (omega arith)))
            (λ n u. record {
              took = length-append m.written n.written ∙ omega (arith, t.took, u.took);
              left = u.left ∙ dropped _ _ b t.left;
              left_x = u.left_x ∙ dropped _ _ p t.left_x;
              left_y = u.left_y ∙ dropped _ _ q t.left_y;
            }))
  merge_total (shift e offset) b p q s h i j = merge_total e b p q s h i j
  merge_total (unary_math f e) b p q s h i j = merge_total e b p q s h i j
