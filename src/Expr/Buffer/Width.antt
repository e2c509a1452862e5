-- ===== src/Expr/Buffer/Width.antt =====
-- expr: `Update` and `Get` take `EncodedWidth` bytes of the buffer, and no more, so they do not
-- panic on a buffer that has them.
use zenodb.Prelude.{
  ℕ, ◌+◌, ◌-◌, ◌≤◌, ◌≡◌, refl, Bool, true, false, Option, List, ◌++◌, arith, if◌then◌else◌, length,
  length-append, ap, ◌∙◌, length-take, length-drop, drop-drop, take, drop, Yields, Yields-bind,
  Yields-if,
}
use zenodb.Expr.{
  Outside, Expr, Aggregate, constant, field, bounded, aggregate, if_expr, avg, binary, shift,
  unary_math, Params, include, encoded_width,
}
use zenodb.Expr.Cell.{load_total, load_avg_total, length-saved, length-saved_avg}
use zenodb.Expr.Buffer.{Updated, Got, get, update, aggregated, averaged}

module _ (x : Outside) where
  -- Aggregates and averages keep their values at the front of their bytes and nothing behind them:
  -- what they wrap has no bytes of its own. `Validate` asks this of an aggregate.
  abbrev pub IsSound : Expr x → Type 0
  IsSound (constant v) = Unit {0}
  IsSound (field name) = Unit {0}
  IsSound (bounded e low high) = IsSound e
  IsSound (aggregate a e) = (encoded_width x e ≡ 0) × IsSound e
  IsSound (if_expr c e) = IsSound e
  IsSound (avg v w) = (encoded_width x v ≡ 0) × (encoded_width x w ≡ 0) × IsSound v × IsSound w
  IsSound (binary op l r d) = IsSound l × IsSound r
  IsSound (shift e offset) = IsSound e
  IsSound (unary_math f e) = IsSound e

  -- what `Get` leaves behind
  abbrev pub Leaves : ℕ → List ℕ → Got x → Type 0
  Leaves n b g = g.remain ≡ drop n b

  -- On a buffer of `EncodedWidth` bytes or more `Get` does not panic and leaves what is behind those,
  -- where what aggregates and averages wrap has no bytes.
  pub get_total :
      (e : Expr x) (b : List ℕ)
      → IsSound e
      → encoded_width x e ≤ length b
      → Yields (get x e b) (Leaves (encoded_width x e) b)
  unfolding get encoded_width
  get_total (constant v) b s h = refl
  get_total (field name) b s h = refl
  get_total (bounded e low high) b s h =
      Yields-bind (get x e b) _ (Leaves (encoded_width x e) b) _ (get_total e b s h)
        (λ g p. ground (arith, p))
  get_total (aggregate a e) b s h =
      let (v, t, p) = load_total x b (omega arith) in
      let n : ◌≡◌ {A = ℕ} 9 (9 + encoded_width x e) = omega (arith, s.0) in
      rw p (ap (λ k. drop k b) n)
  get_total (if_expr c e) b s h = get_total e b s h
  get_total (avg v w) b s h =
      let (c, t, f, p) = load_avg_total x b (omega arith) in
      let n : ◌≡◌ {A = ℕ} 17 (17 + encoded_width x v) = omega (arith, s.0) in
      rw p (ap (λ k. drop k b) n)
  get_total (binary op l r d) b s h =
      Yields-bind (get x l b) _ (Leaves (encoded_width x l) b) _ (get_total l b s.0 (omega arith))
        (λ g p.
          Yields-bind (get x r g.remain) _ (Leaves (encoded_width x r) g.remain) _
            (get_total r g.remain s.1 (rw p (omega (arith, length-drop (encoded_width x l) b))))
            (λ k q. ground (arith, p, q, drop-drop (encoded_width x l) (encoded_width x r) b)))
  get_total (shift e offset) b s h = get_total e b s h
  get_total (unary_math f e) b s h =
      Yields-bind (get x e b) _ (Leaves (encoded_width x e) b) _ (get_total e b s h) (λ g p. p)

  -- what `Update` leaves: the bytes that it took, as many as before, and those behind them
  pub record Took (n : ℕ) (b : List ℕ) (u : Updated x) : Type 0 where
    pub took : length u.written ≡ n
    pub left : u.remain ≡ drop n b

  length-taken :
      {n : ℕ} (b : List ℕ) (g : Got x)
      → Leaves n b g
      → n ≤ length b
      → length (take (length b - length g.remain) b) ≡ n
  length-taken {n = n} b g p h =
      rw p (omega (arith, length-take (length b - length (drop n b)) b, length-drop n b))

  -- The cell in front of what an expression wrote, rewritten or as it was.
  length-cell :
      (n : ℕ) (c : Bool) (cell b w : List ℕ)
      → length cell ≡ n
      → n ≤ length b
      → length ((if c then cell else take n b) ++ w) ≡ n + length w
  length-cell n true cell b w h k = omega (arith, length-append cell w)
  length-cell n false cell b w h k = omega (arith, length-append (take n b) w, length-take n b)

  none_dropped : {n : ℕ} (b : List ℕ) → n ≡ 0 → drop n b ≡ b
  none_dropped b h = ap (λ k. drop k b) h

  aggregated-Took :
      (a : Aggregate) (e : Expr x) (b : List ℕ) (u : Updated x) (v : x.Float) (t : Bool)
      → 9 + encoded_width x e ≤ length b
      → Took (encoded_width x e) (drop 9 b) u
      → Took (9 + encoded_width x e) b (aggregated x a b v t u)
  unfolding aggregated
  aggregated-Took a e b u v t h q = record {
    took =
        length-cell 9 u.updated _ b u.written (length-saved x _) (omega arith)
        ∙ ap (λ k. 9 + k) q.took;
    left = q.left ∙ drop-drop 9 (encoded_width x e) b;
  }

  averaged-Took :
      (e f : Expr x) (b : List ℕ) (u y : Updated x) (c t : x.Float)
      → 17 + encoded_width x e ≤ length b
      → encoded_width x f ≡ 0
      → Took (encoded_width x e) (drop 17 b) u
      → Took (encoded_width x f) u.remain y
      → Took (17 + encoded_width x e) b (averaged x b c t u y)
  unfolding averaged
  averaged-Took e f b u y c t h z q k = record {
    took =
        length-cell 17 u.updated _ b (u.written ++ y.written) (length-saved_avg x _ _) (omega arith)
        ∙ omega (arith, length-append u.written y.written, q.took, k.took, z);
    left = k.left ∙ none_dropped u.remain z ∙ q.left ∙ drop-drop 17 (encoded_width x e) b;
  }

  module _ (params : Params x) (metadata : Option x.Metadata) where
    -- On a buffer of `EncodedWidth` bytes or more `Update` does not panic, rewrites `EncodedWidth`
    -- bytes and leaves the rest, where what aggregates and averages wrap has no bytes.
    pub update_total :
        (e : Expr x) (b : List ℕ)
        → IsSound e
        → encoded_width x e ≤ length b
        → Yields (update x params metadata e b) (Took (encoded_width x e) b)
    unfolding update encoded_width
    update_total (constant v) b s h = record { took = refl; left = refl }
    update_total (field name) b s h = record { took = refl; left = refl }
    update_total (bounded e low high) b s h =
        Yields-bind (update x params metadata e b) _ (Took (encoded_width x e) b) _
          (update_total e b s h) (λ u p. ground (arith, p))
    update_total (aggregate a e) b s h =
        let (v, t, p) = load_total x b (omega arith) in
        let n : encoded_width x e ≤ length (drop 9 b) = omega (arith, s.0, length-drop 9 b) in
        rw p (
          Yields-bind (update x params metadata e (drop 9 b)) _
            (Took (encoded_width x e) (drop 9 b)) _ (update_total e (drop 9 b) s.1 n)
            (λ u q. aggregated-Took a e b u v t h q))
    update_total (if_expr c e) b s h =
        Yields-if (include x c metadata) (update x params metadata e b) _
          (Took (encoded_width x e) b) (update_total e b s h)
          (Yields-bind (get x e b) _ (Leaves (encoded_width x e) b) _ (get_total e b s h)
            (λ g p. record { took = length-taken b g p h; left = p }))
    update_total (avg v w) b s h =
        let (c, t, f, p) = load_avg_total x b (omega arith) in
        let n : encoded_width x v ≤ length (drop 17 b) = omega (arith, s.0, length-drop 17 b) in
        let m : (u : Updated x) → encoded_width x w ≤ length u.remain = λ u. omega (arith, s.1) in
        rw p (
          Yields-bind (update x params metadata v (drop 17 b)) _
            (Took (encoded_width x v) (drop 17 b)) _ (update_total v (drop 17 b) s.2 n)
            (λ u q.
              Yields-bind (update x params metadata w u.remain) _
                (Took (encoded_width x w) u.remain) _ (update_total w u.remain s.3 (m u))
                (λ y k. averaged-Took v w b u y c t h s.1 q k)))
    update_total (binary op l r d) b s h =
        Yields-bind (update x params metadata l b) _ (Took (encoded_width x l) b) _
          (update_total l b s.0 (omega arith))
          (λ u p.
            Yields-bind (update x params metadata r u.remain) _ (Took (encoded_width x r) u.remain)
              _
              (update_total r u.remain s.1
                (rw p.left (omega (arith, length-drop (encoded_width x l) b))))
              (λ t q. record {
                took = omega (arith, length-append u.written t.written, p.took, q.took);
                left = q.left ∙ (rw p.left (drop-drop (encoded_width x l) (encoded_width x r) b));
              }))
    update_total (shift e offset) b s h = update_total e b s h
    update_total (unary_math f e) b s h = update_total e b s h
