-- ===== src/Sql/Duration/Numbers.antt =====
-- sql/duration.go: the numbers in a duration.
use zenodb.Prelude.{
  ℕ, suc, ◌+◌, ◌-◌, ◌*◌, ◌/◌, ◌≤◌, ◌≡◌, Bool, not, ◌||◌, true, false, none, some, List, [], ◌∷◌,
  ◌++◌, arith, leb, ltb, if◌then◌else◌, length,
}
use zenodb.Sql.Duration.{max_int64, is_digit, leading_int, leading_fraction, leading_unit, fraction}

-- The value of digits, behind others that came to x.
unfoldable pub digits_value : ℕ → List ℕ → ℕ
digits_value x [] = x
digits_value x (c ∷ s) = digits_value (x * 10 + (c - b'0')) s

abbrev pub AreDigits : List ℕ → Type 0
AreDigits [] = Unit {0}
AreDigits (c ∷ s) = (is_digit c ≡ true) × AreDigits s

abbrev pub IsEndOfDigits : List ℕ → Type 0
IsEndOfDigits [] = Unit {0}
IsEndOfDigits (c ∷ s) = is_digit c ≡ false

le-digits_value : (x : ℕ) (s : List ℕ) → x ≤ digits_value x s
unfolding digits_value
le-digits_value x [] = omega arith
le-digits_value x (c ∷ s) = omega (arith, le-digits_value (x * 10 + (c - b'0')) s)

-- `leadingInt` reads digits up to the next other character. It gives their value, if that is an int64,
-- and fails otherwise.
pub leading_int_lem :
    (x : ℕ) (digits rest : List ℕ)
    → x ≤ max_int64
    → AreDigits digits
    → IsEndOfDigits rest
    → leading_int x (digits ++ rest)
      ≡ (if leb (digits_value x digits) max_int64 then some (digits_value x digits, rest) else none)
unfolding leading_int digits_value
leading_int_lem x [] [] h d e = ground (arith, h)
leading_int_lem x [] (c ∷ s) h d e = ground (arith, h, e)
leading_int_lem x (c ∷ s) rest h d e = ground (
  arith,
  d.0,
  leading_int_lem (x * 10 + (c - b'0')) s rest,
  d.1,
  e,
  le-digits_value (x * 10 + (c - b'0')) s,
)

-- What is left is not longer.
pub leading_int_shorter :
    (x : ℕ) (s : List ℕ) (v : ℕ) (r : List ℕ) → leading_int x s ≡ some (v, r) → length r ≤ length s
unfolding leading_int
leading_int_shorter x [] v r h = ground (arith, h)
leading_int_shorter x (c ∷ s) v r h =
    ground (arith, h, leading_int_shorter (x * 10 + (c - b'0')) s v r)

shorter_if :
    (b : Bool) (x y : ℕ) (s : List ℕ) (r : ℕ × ℕ × List ℕ) (n : ℕ)
    → length s ≤ n
    → length r.2 ≤ n
    → length (if b then (x, y, s) else r).2 ≤ n
shorter_if true x y s r n h k = h
shorter_if false x y s r n h k = k

pub leading_fraction_shorter :
    (x scale : ℕ) (o : Bool) (s : List ℕ) → length (leading_fraction x scale o s).2 ≤ length s
unfolding leading_fraction
leading_fraction_shorter x scale o [] = omega arith
leading_fraction_shorter x scale o (c ∷ s) =
    let y = x * 10 + (c - b'0') in
    let over = o || ltb (max_int64 / 10) x || ltb max_int64 y in
    shorter_if (not (is_digit c)) x scale (c ∷ s) _ (suc (length s)) (omega arith) (
      omega (
        arith,
        leading_fraction_shorter (if over then x else y) (if over then scale else scale * 10) over
            s,
      ))

pub fraction_shorter : (s : List ℕ) → length (fraction s).2 ≤ length s
unfolding fraction
fraction_shorter [] = omega arith
fraction_shorter (c ∷ s) = ground (arith, leading_fraction_shorter 0 1 false s)

pub leading_unit_lem :
    (s : List ℕ) → length (leading_unit s).0 + length (leading_unit s).1 ≡ length s
unfolding leading_unit
leading_unit_lem [] = omega arith
leading_unit_lem (c ∷ s) = ground (arith, leading_unit_lem s)
