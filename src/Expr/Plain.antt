-- ===== src/Expr/Plain.antt =====
-- expr: `DeAggregate`, which leaves an expression on the values of one point.
use mathlib.Core.Path.{ap₂}
use zenodb.Prelude.{◌≡◌, refl, ◌&&◌, arith}
use zenodb.Expr.{
  Outside, Expr, constant, field, bounded, aggregate, if_expr, avg, binary, shift, unary_math,
  encoded_width, is_constant, de_aggregate,
}

module _ (x : Outside) where
  -- What `DeAggregate` returns needs no bytes, and is constant exactly where the expression was.
  pub de_aggregate_lem :
      (e : Expr x)
      → (encoded_width x (de_aggregate x e) ≡ 0)
        × (is_constant x (de_aggregate x e) ≡ is_constant x e)
  unfolding de_aggregate encoded_width is_constant
  de_aggregate_lem (constant v) = (refl, refl)
  de_aggregate_lem (field name) = (refl, refl)
  de_aggregate_lem (bounded e low high) = de_aggregate_lem e
  de_aggregate_lem (aggregate a e) = de_aggregate_lem e
  de_aggregate_lem (if_expr c e) = de_aggregate_lem e
  de_aggregate_lem (avg v w) = de_aggregate_lem v
  de_aggregate_lem (binary op l r d) =
      let (p, i) = de_aggregate_lem l in
      let (q, j) = de_aggregate_lem r in (omega (arith, p, q), ap₂ (λ a b. a && b) i j)
  de_aggregate_lem (shift e offset) = de_aggregate_lem e
  de_aggregate_lem (unary_math f e) = de_aggregate_lem e
