-- ===== src/Expr/Samples.antt =====
-- expr: floats, a point and an expression for the tests.
use mathlib.Core.HLevel.{Σ_prop_path}
use native.Mathlib.Bridge.{le_prop}
use zenodb.Prelude.{
  ℕ, ◌+◌, ◌*◌, ◌-◌, ◌/◌, ◌%◌, ◌^◌, ◌<◌, ◌≡◌, refl, Bool, true, false, ◌||◌, some, ◌==◌, arith, ltb,
}
use zenodb.Expr.{Outside, Expr, Params, sum, field, aggregate, bounded, encoded_width, is_constant}
use zenodb.Expr.Buffer.Width.{IsSound}

-- Numbers modulo 2 ^ 64 for floats.
abbrev pub Word : Type 0
Word = (n : ℕ) × (n < 2 ^ 64)

abbrev pub word : ℕ → Word
word n = (n % 2 ^ 64, omega arith)

abbrev pub words : Outside
words = record {
  Float = Word;
  zero_float = word 0;
  one_float = word 1;
  max_float = word (2 ^ 64 - 1);
  add = λ a b. word (a.0 + b.0);
  subtract = λ a b. word (a.0 - b.0);
  multiply = λ a b. word (a.0 * b.0);
  divide = λ a b. word (a.0 / b.0);
  less = λ a b. ltb a.0 b.0;
  equal = λ a b. a.0 == b.0;
  bits = λ a. a.0;
  from_bits = word;
  ln = λ a. a;
  log2 = λ a. a;
  log10 = λ a. a;
  Metadata = Bool;
  Cond = Bool;
  eval = λ c m. some (some (c || m));
  bits_lt = λ a. a.1;
  from_bits-bits = λ a. Σ_prop_path (λ n. le_prop) (omega (arith, a.1));
  zero_equal = refl;
}

-- A point with the value 5 for each field.
abbrev pub point : Params words
point name = (word 5, true)

abbrev pub sum_a : Expr words
sum_a = bounded (aggregate sum (field "a")) (word 0) (word 100)

pub sum_a-IsSound : IsSound words sum_a
unfolding encoded_width
sum_a-IsSound = (refl, tt)

pub encoded_width-sum_a : encoded_width words sum_a ≡ 9
unfolding encoded_width
encoded_width-sum_a = refl

pub is_constant-sum_a : is_constant words sum_a ≡ false
unfolding is_constant
is_constant-sum_a = refl
