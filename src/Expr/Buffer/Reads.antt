-- ===== src/Expr/Buffer/Reads.antt =====
-- expr: what `Get` reads from the bytes that `Update` has written.
use mathlib.Core.List.{append_assoc}
use zenodb.Prelude.{
  ℕ, ◌≤◌, ◌<◌, ◌≡◌, refl, Bool, true, false, Option, some, List, [], ◌∷◌, ◌++◌, arith,
  if◌then◌else◌, length, length-drop, drop, ◌∙◌, Yields, Yields-bind, Yields-if, Bool-cases, inl,
  inr,
}
use zenodb.Expr.{
  Outside, Expr, Aggregate, constant, field, bounded, aggregate, if_expr, avg, binary, shift,
  unary_math, Params, include, encoded_width, test, update_fn,
}
use zenodb.Expr.Cell.{load_total, load_avg_total, saved, saved_avg, load-saved, load_avg-saved}
use zenodb.Expr.Buffer.{Updated, get, update, aggregated, averaged}
use zenodb.Expr.Buffer.Width.{IsSound, Took, Leaves, update_total, get_total}

module _ (x : Outside) where
  -- An aggregate or an average, which may be bounded, conditional or shifted.
  abbrev pub IsStored : Expr x → Type 0
  IsStored (bounded e low high) = IsStored e
  IsStored (aggregate a e) = Unit {0}
  IsStored (if_expr c e) = IsStored e
  IsStored (avg v w) = Unit {0}
  IsStored (shift e offset) = IsStored e
  IsStored (constant v) = ⊥
  IsStored (field name) = ⊥
  IsStored (binary op l r d) = ⊥
  IsStored (unary_math f e) = ⊥

  -- Such an expression has bytes.
  pub stored_pos : (e : Expr x) → IsStored e → 0 < encoded_width x e
  unfolding encoded_width
  stored_pos (constant v) i = absurd i
  stored_pos (field name) i = absurd i
  stored_pos (bounded e low high) i = stored_pos e i
  stored_pos (aggregate a e) i = omega arith
  stored_pos (if_expr c e) i = stored_pos e i
  stored_pos (avg v w) i = omega arith
  stored_pos (binary op l r d) i = absurd i
  stored_pos (shift e offset) i = stored_pos e i
  stored_pos (unary_math f e) i = absurd i

  -- `Get` gives the value that an update has returned, if it has updated.
  abbrev pub ReadsBack : Expr x → List ℕ → Updated x → Type 0
  ReadsBack e r u =
      u.updated ≡ true
      → get x e (u.written ++ r) ≡ some (record { value = u.value; was_set = true; remain = r })

  nil_of_length : (l r : List ℕ) → length l ≡ 0 → l ++ r ≡ r
  nil_of_length [] r h = refl
  nil_of_length (y ∷ ys) r h = absurd (omega arith)

  aggregated-ReadsBack :
      (a : Aggregate) (e : Expr x) (b r : List ℕ) (v : x.Float) (t : Bool) (u : Updated x)
      → length u.written ≡ 0
      → ReadsBack (aggregate a e) r (aggregated x a b v t u)
  unfolding get aggregated
  aggregated-ReadsBack a e b r v t u z h =
      rw
        (
          h,
          append_assoc (saved x (update_fn x a t v u.value)) u.written r,
          nil_of_length u.written r z,
          load-saved x (update_fn x a t v u.value) r,
        )
        refl

  averaged-ReadsBack :
      (e f : Expr x) (b r : List ℕ) (c t : x.Float) (u y : Updated x)
      → length u.written ≡ 0
      → length y.written ≡ 0
      → ReadsBack (avg e f) r (averaged x b c t u y)
  unfolding get averaged
  averaged-ReadsBack e f b r c t u y z k h =
      rw
        (
          h,
          append_assoc (saved_avg x (x.add c y.value) (x.add t (x.multiply u.value y.value)))
              (u.written ++ y.written) r,
          append_assoc u.written y.written r,
          nil_of_length u.written (y.written ++ r) z,
          nil_of_length y.written r k,
          load_avg-saved x (x.add c y.value) (x.add t (x.multiply u.value y.value)) r,
        )
        refl

  bounded-ReadsBack :
      (e : Expr x) (low high : x.Float) (r : List ℕ) (u : Updated x)
      → ReadsBack e r u
      → ReadsBack (bounded e low high) r (
          if test x low high u.value then u else record u { value = x.zero_float; updated = false })
  unfolding get
  bounded-ReadsBack e low high r u p = elim (Bool-cases (test x low high u.value)) [
    | inl t ↦ rw t (λ h. rw (p h, t) refl)
    | inr t ↦ rw t (λ h. absurd (ground (arith, h)))
  ]

  module _ (params : Params x) (metadata : Option x.Metadata) where
    -- On a buffer of `EncodedWidth` bytes or more, when `Update` of an aggregate or an average, which may
    -- be bounded, conditional or shifted, has updated, `Get` on the bytes that it leaves gives the value
    -- that it returned, as set; what aggregates and averages wrap has no bytes.
    pub get-update :
        (e : Expr x) (b r : List ℕ)
        → IsSound x e
        → IsStored e
        → encoded_width x e ≤ length b
        → Yields (update x params metadata e b) (ReadsBack e r)
    unfolding update encoded_width get
    get-update (constant v) b r s i h = absurd i
    get-update (field name) b r s i h = absurd i
    get-update (bounded e low high) b r s i h =
        Yields-bind (update x params metadata e b) _ (ReadsBack e r) _ (get-update e b r s i h)
          (λ u p. bounded-ReadsBack e low high r u p)
    get-update (aggregate a e) b r s i h =
        let (v, t, p) = load_total x b (omega arith) in
        let n : encoded_width x e ≤ length (drop 9 b) = omega (arith, s.0, length-drop 9 b) in
        rw p (
          Yields-bind (update x params metadata e (drop 9 b)) _
            (Took x (encoded_width x e) (drop 9 b)) _
            (update_total x params metadata e (drop 9 b) s.1 n)
            (λ u q. aggregated-ReadsBack a e b r v t u (q.took ∙ s.0)))
    get-update (if_expr c e) b r s i h =
        Yields-if (include x c metadata) (update x params metadata e b) _ (ReadsBack e r)
          (get-update e b r s i h)
          (Yields-bind (get x e b) _ (Leaves x (encoded_width x e) b) _ (get_total x e b s h)
            (λ g p w. absurd (ground (arith, w))))
    get-update (avg v w) b r s i h =
        let (c, t, f, p) = load_avg_total x b (omega arith) in
        let n : encoded_width x v ≤ length (drop 17 b) = omega (arith, s.0, length-drop 17 b) in
        let m : (u : Updated x) → encoded_width x w ≤ length u.remain = λ u. omega (arith, s.1) in
        rw p (
          Yields-bind (update x params metadata v (drop 17 b)) _
            (Took x (encoded_width x v) (drop 17 b)) _
            (update_total x params metadata v (drop 17 b) s.2 n)
            (λ u q.
              Yields-bind (update x params metadata w u.remain) _
                (Took x (encoded_width x w) u.remain) _
                (update_total x params metadata w u.remain s.3 (m u))
                (λ y k. averaged-ReadsBack v w b r c t u y (q.took ∙ s.0) (k.took ∙ s.1))))
    get-update (binary op l r' d) b r s i h = absurd i
    get-update (shift e offset) b r s i h = get-update e b r s i h
    get-update (unary_math f e) b r s i h = absurd i
