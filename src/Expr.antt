-- ===== src/Expr.antt =====
-- expr: expressions that keep a running value in a byte buffer. This file has the expressions, what
-- is a parameter of them, and the functions that do not touch a buffer.
pub mod Cell
pub mod Buffer
pub mod Merge
pub mod Plain
pub mod Samples
mod Tests
use Prim.Native.String.{String}
use zenodb.Prelude.{
  ℕ, ◌+◌, ◌*◌, ◌^◌, ◌<◌, ◌≡◌, Bool, true, false, not, ◌&&◌, ◌||◌, Option, none, some, List, [], ◌∷◌,
  ◌==◌, if◌then◌else◌,
}
use zenodb.Prelude.Int.{ℤ, pos, ◌+ℤ◌, ltb_ℤ}

-- What the package takes from outside: float64 with Go's operations and the bit patterns of
-- `math.Float64bits`, the logarithms of package math, and the conditions of goexpr.
pub record Outside : Type 1 where
  pub Float : Type 0
  pub zero_float : Float
  pub one_float : Float
  pub max_float : Float
  pub add : Float → Float → Float
  pub subtract : Float → Float → Float
  pub multiply : Float → Float → Float
  pub divide : Float → Float → Float
  pub less : Float → Float → Bool
  pub equal : Float → Float → Bool
  pub bits : Float → ℕ
  pub from_bits : ℕ → Float
  pub ln : Float → Float
  pub log2 : Float → Float
  pub log10 : Float → Float
  pub Metadata : Type 0
  pub Cond : Type 0
  pub eval : Cond → Metadata → Option (Option Bool)
  -- a float64 has 64 bits, and `Float64frombits` undoes `Float64bits`
  pub bits_lt : (f : Float) → bits f < 2 ^ 64
  pub from_bits-bits : (f : Float) → from_bits (bits f) ≡ f
  pub zero_equal : equal zero_float zero_float ≡ true

-- The names under which `init` registers aggregates, binary operations and conditions.
pub data Aggregate : Type 0 where
  sum minimum maximum count : Aggregate

pub data Op : Type 0 where
  plus minus times over lt lte eq neq gte gt and or : Op

-- The keys of `unaryMathFNs`.
pub data MathFn : Type 0 where
  ln_fn log2_fn log10_fn : MathFn

module _ (x : Outside) where
  open x use {
    Float, zero_float, one_float, max_float, add, subtract, multiply, divide, less, equal, ln, log2,
    log10, Metadata, Cond, eval,
  }

  -- The types that implement `Expr`, but for the two of percentiles. `ifExpr`, `shift` and
  -- `unaryMathExpr` store the width of what they wrap, which is computed here.
  pub data Expr : Type 0 where
    constant : Float → Expr
    field : String → Expr
    bounded : Expr → Float → Float → Expr
    aggregate : Aggregate → Expr → Expr
    if_expr : Option Cond → Expr → Expr
    avg : Expr → Expr → Expr
    binary : Op → Expr → Expr → Bool → Expr
    shift : Expr → ℤ → Expr
    unary_math : MathFn → Expr → Expr

  -- The values of a point: `Get` gives a value, and whether it was found.
  abbrev pub Params : Type 0
  Params = String → Float × Bool

  -- The two functions of each registered aggregate, `update` and `merge`.
  pub smaller : Bool → Float → Float → Float
  smaller was_set current next =
      if not was_set then next else if less next current then next else current

  pub greater : Bool → Float → Float → Float
  greater was_set current next =
      if not was_set then next else if less current next then next else current

  pub update_fn : Aggregate → Bool → Float → Float → Float
  unfolding smaller greater
  update_fn sum was_set current next = add current next
  update_fn minimum was_set current next = smaller was_set current next
  update_fn maximum was_set current next = greater was_set current next
  update_fn count was_set current next = add current one_float

  pub merge_fn : Aggregate → Bool → Float → Float → Float
  unfolding smaller greater
  merge_fn sum was_set current next = add current next
  merge_fn minimum was_set current next = smaller was_set current next
  merge_fn maximum was_set current next = greater was_set current next
  merge_fn count was_set current next = add current next

  -- `registerCond`: a comparison as 1 or 0.
  pub as_float : Bool → Float
  as_float b = if b then one_float else zero_float

  positive : Float → Bool
  positive f = less zero_float f

  -- The division of "/".
  pub quotient : Float → Float → Float
  quotient left right =
      if equal right zero_float
      then (if equal left zero_float then zero_float else max_float)
      else divide left right

  -- The `calc` that is registered for each operation. Go's `a <= b` is false where a or b is NaN, so
  -- it is "less or equal".
  pub calc : Op → Float → Float → Float
  unfolding as_float quotient positive
  calc plus left right = add left right
  calc minus left right = subtract left right
  calc times left right = multiply left right
  calc over left right = quotient left right
  calc lt left right = as_float (less left right)
  calc lte left right = as_float (less left right || equal left right)
  calc eq left right = as_float (equal left right)
  calc neq left right = as_float (not (equal left right))
  calc gte left right = as_float (less right left || equal left right)
  calc gt left right = as_float (less right left)
  calc and left right = as_float (positive left && positive right)
  calc or left right = as_float (positive left || positive right)

  -- `unaryMathFNs`.
  pub math_fn : MathFn → Float → Float
  math_fn ln_fn = ln
  math_fn log2_fn = log2
  math_fn log10_fn = log10

  -- `bounded.test`.
  unfoldable pub test : Float → Float → Float → Bool
  test low high val = (less low val || equal low val) && (less val high || equal val high)

  -- `ifExpr.include`. `eval` gives none for nil, and `some none` for what is not a bool.
  pub include : Option Cond → Option Metadata → Bool
  include none metadata = true
  include (some c) none = true
  include (some c) (some metadata) = elim (eval c metadata) [
    | none ↦ false
    | some v ↦ elim v [ none ↦ false | some b ↦ b ]
  ]

  -- `EncodedWidth`.
  unfoldable pub encoded_width : Expr → ℕ
  encoded_width (constant v) = 0
  encoded_width (field name) = 0
  encoded_width (bounded e low high) = encoded_width e
  encoded_width (aggregate a e) = 1 + 8 + encoded_width e
  encoded_width (if_expr c e) = encoded_width e
  encoded_width (avg v w) = 8 * 2 + 1 + encoded_width v
  encoded_width (binary op l r d) = encoded_width l + encoded_width r
  encoded_width (shift e offset) = encoded_width e
  encoded_width (unary_math f e) = encoded_width e

  -- `Shift`, in nanoseconds.
  lesser : ℤ → ℤ → ℤ
  lesser a b = if ltb_ℤ a b then a else b

  pub total_shift : Expr → ℤ
  unfolding lesser
  total_shift (constant v) = pos 0
  total_shift (field name) = pos 0
  total_shift (bounded e low high) = total_shift e
  total_shift (aggregate a e) = total_shift e
  total_shift (if_expr c e) = total_shift e
  total_shift (avg v w) = lesser (total_shift v) (total_shift w)
  total_shift (binary op l r d) = lesser (total_shift l) (total_shift r)
  total_shift (shift e offset) = offset +ℤ total_shift e
  total_shift (unary_math f e) = total_shift e

  -- `IsConstant`.
  unfoldable pub is_constant : Expr → Bool
  is_constant (constant v) = true
  is_constant (field name) = false
  is_constant (bounded e low high) = is_constant e
  is_constant (aggregate a e) = is_constant e
  is_constant (if_expr c e) = is_constant e
  is_constant (avg v w) = is_constant v
  is_constant (binary op l r d) = is_constant l && is_constant r
  is_constant (shift e offset) = is_constant e
  is_constant (unary_math f e) = is_constant e

  -- `DeAggregate`.
  pub de_aggregate : Expr → Expr
  de_aggregate (constant v) = constant v
  de_aggregate (field name) = field name
  de_aggregate (bounded e low high) = bounded (de_aggregate e) low high
  de_aggregate (aggregate a e) = de_aggregate e
  de_aggregate (if_expr c e) = if_expr c (de_aggregate e)
  de_aggregate (avg v w) = de_aggregate v
  de_aggregate (binary op l r d) = binary op (de_aggregate l) (de_aggregate r) true
  de_aggregate (shift e offset) = shift (de_aggregate e) offset
  de_aggregate (unary_math f e) = unary_math f (de_aggregate e)

  -- The types that `validateWrappedInAggregate` lets through.
  pub is_wrappable : Expr → Bool
  is_wrappable (constant v) = true
  is_wrappable (field name) = true
  is_wrappable (bounded e low high) = true
  is_wrappable _ = false

  -- `binaryExpr.validateWrappedInBinary`, on whether the wrapped expression validates: only a binary
  -- one is looked into.
  pub validate_in_binary : Bool → Expr → Bool → Bool
  validate_in_binary de_aggregated (binary op l r d) valid = valid
  validate_in_binary de_aggregated (field name) valid = de_aggregated
  validate_in_binary de_aggregated (bounded e low high) valid = de_aggregated
  validate_in_binary de_aggregated _ valid = true

  -- `Validate`, true for nil.
  pub validate : Expr → Bool
  unfolding is_wrappable encoded_width validate_in_binary
  validate (constant v) = true
  validate (field name) = true
  validate (bounded e low high) = validate e
  validate (aggregate a e) = is_wrappable e && validate e
  validate (if_expr c e) = validate e
  validate (avg v w) = (is_wrappable v && validate v) && (encoded_width w == 0)
  validate (binary op l r d) =
      validate_in_binary d l (validate l) && validate_in_binary d r (validate r)
  validate (shift e offset) = validate e
  validate (unary_math f e) = validate e
