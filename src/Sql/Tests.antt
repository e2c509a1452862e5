-- ===== src/Sql/Tests.antt =====
-- sql: tests, and the theorems at concrete texts.
use zenodb.Prelude.{ℕ, ◌*◌, ◌/◌, ◌≤◌, ◌≡◌, refl, [], ◌∷◌, arith}
use zenodb.Prelude.Int.{pos}
use zenodb.Sql.Duration.{is_digit, max_int64, parsed, parse_duration}
use zenodb.Sql.Duration.Numbers.{digits_value}
use zenodb.Sql.Duration.Sums.{EndsSigned, parse_duration-EndsSigned}
use zenodb.Sql.Duration.Texts.{Part, hours, minutes, text_of, total_of, parse_duration-text_of}

-- The whole number below f * (unit / scale).
abbrev scaled_down : ℕ → ℕ → ℕ → ℕ
scaled_down f unit scale = f * unit / scale

-- "1h30m"
abbrev one_hour : Part
one_hour = record { first = b'1'; others = []; unit = hours }

abbrev thirty_minutes : Part
thirty_minutes = record { first = b'3'; others = b'0' ∷ []; unit = minutes }

small : total_of (one_hour ∷ thirty_minutes ∷ []) ≤ max_int64
unfolding total_of digits_value
small = omega arith

parse_duration-text_of_example :
    parse_duration scaled_down (text_of (one_hour ∷ thirty_minutes ∷ []))
    ≡ parsed (pos (total_of (one_hour ∷ thirty_minutes ∷ [])))
unfolding is_digit
parse_duration-text_of_example =
    parse_duration-text_of scaled_down one_hour (thirty_minutes ∷ [])
      ((refl, tt), ((refl, (refl, tt)), tt)) small

-- "-1.5h"
parse_duration-EndsSigned_example :
    EndsSigned (parse_duration scaled_down (b'-' ∷ b'1' ∷ b'.' ∷ b'5' ∷ b'h' ∷ []))
parse_duration-EndsSigned_example =
    parse_duration-EndsSigned scaled_down (b'-' ∷ b'1' ∷ b'.' ∷ b'5' ∷ b'h' ∷ [])
