-- ===== src/Sql/Duration.antt =====
-- sql/duration.go: durations in text, as the bytes of the text.
pub mod Numbers
pub mod Sums
pub mod Texts
use zenodb.Prelude.{
  ℕ, zero, suc, ◌+◌, ◌-◌, ◌*◌, ◌/◌, ◌^◌, ◌<◌, ◌≡◌, Bool, true, false, not, ◌&&◌, ◌||◌, Option, none,
  some, List, [], ◌∷◌, ◌++◌, ◌==◌, leb, ltb, if◌then◌else◌, length, is_nil, list_eq, arith,
}
use zenodb.Prelude.Int.{ℤ, pos, ◌-ℤ◌}

-- `1<<63 - 1`.
abbrev pub max_int64 : ℕ
max_int64 = 9223372036854775807

unfoldable pub is_digit : ℕ → Bool
is_digit c = leb b'0' c && leb c b'9'

-- `leadingInt` after some digits, which came to x. None is errLeadingInt.
pub leading_int : ℕ → List ℕ → Option (ℕ × List ℕ)
leading_int x [] = some (x, [])
leading_int x (c ∷ s) =
    let y = x * 10 + (c - b'0') in
    let rest = leading_int y s in
    if not (is_digit c)
    then some (x, c ∷ s)
    else if ltb (max_int64 / 10) x
    then none
    else if ltb max_int64 y
    then none
    else rest

-- `leadingFraction` after some digits, which came to x, with the scale and whether they overflowed.
pub leading_fraction : ℕ → ℕ → Bool → List ℕ → ℕ × ℕ × List ℕ
leading_fraction x scale overflow [] = (x, scale, [])
leading_fraction x scale overflow (c ∷ s) =
    let y = x * 10 + (c - b'0') in
    let over = overflow || ltb (max_int64 / 10) x || ltb max_int64 y in
    let rest =
      leading_fraction (if over then x else y) (if over then scale else scale * 10) over s in
    if not (is_digit c) then (x, scale, c ∷ s) else rest

-- The loop that consumes the unit, up to a period or a digit: the unit, and what is behind it.
pub leading_unit : List ℕ → List ℕ × List ℕ
leading_unit [] = ([], [])
leading_unit (c ∷ s) =
    let rest = leading_unit s in
    if c == b'.' || is_digit c then ([], c ∷ s) else (c ∷ rest.0, rest.1)

-- `unitMap`, in nanoseconds.
abbrev second : ℕ
second = 1000000000

pub unit_map : List ℕ → Option ℕ
unit_map u =
    if list_eq u (b'n' ∷ b's' ∷ [])
    then some 1
    else if list_eq u (b'u' ∷ b's' ∷ [])
    then some 1000
    else if list_eq u (0xc2 ∷ 0xb5 ∷ b's' ∷ [])
    then some 1000
    else if list_eq u (0xce ∷ 0xbc ∷ b's' ∷ [])
    then some 1000
    else if list_eq u (b'm' ∷ b's' ∷ [])
    then some 1000000
    else if list_eq u (b's' ∷ [])
    then some second
    else if list_eq u (b'm' ∷ [])
    then some (60 * second)
    else if list_eq u (b'h' ∷ [])
    then some (3600 * second)
    else if list_eq u (b'd' ∷ [])
    then some (24 * 3600 * second)
    else if list_eq u (b'w' ∷ [])
    then some (7 * 24 * 3600 * second)
    else none

-- The error messages.
pub data DurationError : Type 0 where
  invalid missing_unit unknown_unit : DurationError

pub data Result (A : Type 0) : Type 0 where
  parsed : A → Result A
  failed : DurationError → Result A
  out_of_fuel : Result A

-- The optional fraction: `f`, `scale`, what is behind it, and whether it had a digit.
pub fraction : List ℕ → ℕ × ℕ × List ℕ × Bool
unfolding leading_fraction
fraction [] = (0, 1, [], false)
fraction (c ∷ s) =
    let r = leading_fraction 0 1 false s in
    if c == b'.' then (r.0, r.1, r.2, not (length s == length r.2)) else (0, 1, c ∷ s, false)

-- Whether the next character is one of [0-9.].
pub starts_number : List ℕ → Bool
starts_number [] = false
starts_number (c ∷ s) = c == b'.' || is_digit c

-- The sign, and the text without it.
pub sign : List ℕ → Bool × List ℕ
sign [] = (false, [])
sign (c ∷ s) = if c == b'-' || c == b'+' then (c == b'-', s) else (false, c ∷ s)

-- `d += v` in the loop, which then goes on with the rest of the text.
pub add_component : (ℕ → List ℕ → Result ℕ) → ℕ → Result (ℕ × List ℕ) → Result ℕ
add_component next d (failed e) = failed e
add_component next d out_of_fuel = out_of_fuel
add_component next d (parsed (v, s)) =
    if ltb max_int64 (d + v) then failed invalid else next (d + v) s

-- The end of `ParseDuration`.
pub with_sign : Bool → Result ℕ → Result ℤ
with_sign neg (failed e) = failed e
with_sign neg out_of_fuel = out_of_fuel
with_sign neg (parsed d) = parsed (if neg then pos 0 -ℤ pos d else pos d)

-- `scaled f unit scale` is `int64(float64(f) * (float64(unit) / scale))`, of float64.
module _ (scaled : ℕ → ℕ → ℕ → ℕ) where
  -- The end of a round of the loop, on the nanoseconds of the unit: a number v with a fraction of f.
  pub in_nanos : ℕ → ℕ → ℕ → List ℕ → ℕ → Result (ℕ × List ℕ)
  in_nanos v f scale rest nanos =
      let whole = v * nanos in
      let both = if ltb 0 f then whole + scaled f nanos scale else whole in
      if ltb (max_int64 / nanos) v
      then failed invalid
      else if ltb max_int64 both
      then failed invalid
      else parsed (both, rest)

  -- The same on the unit, and on whether the number has a digit.
  pub with_unit : ℕ → ℕ → ℕ → Bool → List ℕ → List ℕ → Result (ℕ × List ℕ)
  unfolding unit_map in_nanos
  with_unit v f scale digits u rest =
      if not digits
      then failed invalid
      else if is_nil u
      then failed missing_unit
      else elim (unit_map u) [
        | none ↦ failed unknown_unit
        | some nanos ↦ in_nanos v f scale rest nanos
      ]

  -- One round of the loop of `ParseDuration`: the nanoseconds of one number with its unit, and the
  -- rest of the text.
  pub component : List ℕ → Result (ℕ × List ℕ)
  unfolding leading_int leading_unit fraction with_unit
  component s = elim (leading_int 0 s) [
    | none ↦ failed invalid
    | some (v, s1) ↦
        let (f, scale, s2, post) = fraction s1 in
        let (u, s3) = leading_unit s2 in
        with_unit v f scale (not (length s == length s1) || post) u s3
  ]

  -- The loop, on fuel.
  pub parse_from : ℕ → ℕ → List ℕ → Result ℕ
  unfolding starts_number add_component
  parse_from fuel d [] = parsed d
  parse_from zero d (c ∷ s) = out_of_fuel
  parse_from (suc fuel) d (c ∷ s) =
      if not (starts_number (c ∷ s))
      then failed invalid
      else add_component (parse_from fuel) d (component (c ∷ s))

  -- `ParseDuration`. Each round takes at least a character, so the length of the text is fuel enough.
  pub parse_duration : List ℕ → Result ℤ
  unfolding sign with_sign
  parse_duration text =
      let (neg, s) = sign text in
      if list_eq s (b'0' ∷ [])
      then parsed (pos 0)
      else if is_nil s
      then failed invalid
      else with_sign neg (parse_from (length s) 0 s)
