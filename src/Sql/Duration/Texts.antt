-- ===== src/Sql/Duration/Texts.antt =====
-- sql/duration.go: durations written as whole numbers with their units are read as their sum.
use native.Mathlib.Nat.{le-div_iff_mul-le}
use zenodb.Prelude.{
  ℕ, zero, suc, ◌+◌, ◌*◌, ◌≤◌, ◌<◌, ◌≡◌, refl, ap, ◌∙◌, Bool, true, false, not, ◌||◌, ◌==◌, some,
  List, [], ◌∷◌, ◌++◌, arith, leb, length, length-append, is_nil, list_eq,
}
use zenodb.Prelude.Int.{pos}
use zenodb.Sql.Duration.{
  max_int64, is_digit, leading_int, leading_unit, unit_map, fraction, Result, parsed, component,
  in_nanos, with_unit, starts_number, add_component, parse_from, sign, with_sign, parse_duration,
}
use zenodb.Sql.Duration.Numbers.{digits_value, AreDigits, IsEndOfDigits, leading_int_lem}

pub data DurationUnit : Type 0 where
  nanoseconds microseconds milliseconds seconds minutes hours days weeks : DurationUnit

abbrev pub symbol : DurationUnit → List ℕ
symbol nanoseconds = b'n' ∷ b's' ∷ []
symbol microseconds = b'u' ∷ b's' ∷ []
symbol milliseconds = b'm' ∷ b's' ∷ []
symbol seconds = b's' ∷ []
symbol minutes = b'm' ∷ []
symbol hours = b'h' ∷ []
symbol days = b'd' ∷ []
symbol weeks = b'w' ∷ []

abbrev pub nanos_in : DurationUnit → ℕ
nanos_in nanoseconds = 1
nanos_in microseconds = 1000
nanos_in milliseconds = 1000000
nanos_in seconds = 1000000000
nanos_in minutes = 60000000000
nanos_in hours = 3600000000000
nanos_in days = 86400000000000
nanos_in weeks = 604800000000000

-- A whole number, by its first digit and the others, with a unit.
pub record Part : Type 0 where
  pub first : ℕ
  pub others : List ℕ
  pub unit : DurationUnit

abbrev pub IsPart : Part → Type 0
IsPart p = (is_digit p.first ≡ true) × AreDigits p.others

abbrev pub nanos_of : Part → ℕ
nanos_of p = digits_value 0 (p.first ∷ p.others) * nanos_in p.unit

-- The text of parts, and what they come to.
pub text_of : List Part → List ℕ
text_of [] = []
text_of (p ∷ ps) = (p.first ∷ p.others) ++ (symbol p.unit ++ text_of ps)

unfoldable pub total_of : List Part → ℕ
total_of [] = 0
total_of (p ∷ ps) = nanos_of p + total_of ps

abbrev pub AreParts : List Part → Type 0
AreParts [] = Unit {0}
AreParts (p ∷ ps) = IsPart p × AreParts ps

-- What may follow a unit: the end, or a digit.
abbrev Follows : List ℕ → Type 0
Follows [] = Unit {0}
Follows (c ∷ s) = is_digit c ≡ true

text_of-Follows : (ps : List Part) → AreParts ps → Follows (text_of ps)
unfolding text_of
text_of-Follows [] h = tt
text_of-Follows (p ∷ ps) h = h.0.0

leading_unit-Follows : (s : List ℕ) → Follows s → leading_unit s ≡ ([], s)
unfolding leading_unit
leading_unit-Follows [] h = refl
leading_unit-Follows (c ∷ s) h = ground (arith, h)

symbol_lem :
    (u : DurationUnit) (s : List ℕ)
    → Follows s
    → IsEndOfDigits (symbol u ++ s)
      × (fraction (symbol u ++ s) ≡ (0, 1, symbol u ++ s, false))
      × (leading_unit (symbol u ++ s) ≡ (symbol u, s))
      × (unit_map (symbol u) ≡ some (nanos_in u))
unfolding is_digit fraction leading_unit unit_map list_eq
symbol_lem nanoseconds s h = rw (leading_unit-Follows s h) (refl, refl, refl, refl)
symbol_lem microseconds s h = rw (leading_unit-Follows s h) (refl, refl, refl, refl)
symbol_lem milliseconds s h = rw (leading_unit-Follows s h) (refl, refl, refl, refl)
symbol_lem seconds s h = rw (leading_unit-Follows s h) (refl, refl, refl, refl)
symbol_lem minutes s h = rw (leading_unit-Follows s h) (refl, refl, refl, refl)
symbol_lem hours s h = rw (leading_unit-Follows s h) (refl, refl, refl, refl)
symbol_lem days s h = rw (leading_unit-Follows s h) (refl, refl, refl, refl)
symbol_lem weeks s h = rw (leading_unit-Follows s h) (refl, refl, refl, refl)

nanos_pos : (u : DurationUnit) → 0 < nanos_in u
nanos_pos nanoseconds = omega arith
nanos_pos microseconds = omega arith
nanos_pos milliseconds = omega arith
nanos_pos seconds = omega arith
nanos_pos minutes = omega arith
nanos_pos hours = omega arith
nanos_pos days = omega arith
nanos_pos weeks = omega arith

le-mul_self : (v n : ℕ) → 0 < n → v ≤ v * n
le-mul_self v n h = grind arith

symbol-ne-nil : (u : DurationUnit) → is_nil (symbol u) ≡ false
symbol-ne-nil nanoseconds = refl
symbol-ne-nil microseconds = refl
symbol-ne-nil milliseconds = refl
symbol-ne-nil seconds = refl
symbol-ne-nil minutes = refl
symbol-ne-nil hours = refl
symbol-ne-nil days = refl
symbol-ne-nil weeks = refl

symbol_pos : (u : DurationUnit) → 0 < length (symbol u)
symbol_pos nanoseconds = omega arith
symbol_pos microseconds = omega arith
symbol_pos milliseconds = omega arith
symbol_pos seconds = omega arith
symbol_pos minutes = omega arith
symbol_pos hours = omega arith
symbol_pos days = omega arith
symbol_pos weeks = omega arith

-- The text of a part has at least a digit and a unit.
length-text_of : (p : Part) (ps : List Part) → 2 + length (text_of ps) ≤ length (text_of (p ∷ ps))
unfolding text_of
length-text_of p ps = ground (
  arith,
  length-append p.others (symbol p.unit ++ text_of ps),
  length-append (symbol p.unit) (text_of ps),
  symbol_pos p.unit,
)

starts_number-text_of :
    (p : Part) (ps : List Part) → IsPart p → starts_number (text_of (p ∷ ps)) ≡ true
unfolding text_of starts_number
starts_number-text_of p ps h = ground (arith, h.0)

sign-text_of :
    (p : Part) (ps : List Part) → IsPart p → sign (text_of (p ∷ ps)) ≡ (false, text_of (p ∷ ps))
unfolding text_of sign is_digit
sign-text_of p ps h = ground (arith, h.0)

list_eq-long : (s : List ℕ) (c : ℕ) → 1 < length s → list_eq s (c ∷ []) ≡ false
unfolding list_eq
list_eq-long [] c h = refl
list_eq-long (a ∷ []) c h = absurd (omega (arith, h))
list_eq-long (a ∷ b ∷ s) c h = ground arith

zero-text_of : (p : Part) (ps : List Part) → list_eq (text_of (p ∷ ps)) (b'0' ∷ []) ≡ false
zero-text_of p ps = list_eq-long (text_of (p ∷ ps)) b'0' (omega (arith, length-text_of p ps))

is_nil-text_of : (p : Part) (ps : List Part) → is_nil (text_of (p ∷ ps)) ≡ false
unfolding text_of
is_nil-text_of p ps = refl

add_component-parsed :
    (next : ℕ → List ℕ → Result ℕ) (d v : ℕ) (s : List ℕ)
    → d + v ≤ max_int64
    → add_component next d (parsed (v, s)) ≡ next (d + v) s
unfolding add_component
add_component-parsed next d v s h = ground (arith, h)

with_sign-plus : (n : ℕ) → with_sign false (parsed (0 + n)) ≡ parsed (pos n)
unfolding with_sign
with_sign-plus n = ap (λ m. parsed (pos m)) (omega arith)

module _ (scaled : ℕ → ℕ → ℕ → ℕ) where
  in_nanos_whole :
      (v n : ℕ) (rest : List ℕ)
      → 0 < n
      → v * n ≤ max_int64
      → in_nanos scaled v 0 1 rest n ≡ parsed (v * n, rest)
  unfolding in_nanos
  in_nanos_whole v n rest p h = ground (arith, (le-div_iff_mul-le {x = v} {y = max_int64} p).1 h)

  with_unit_whole :
      (v : ℕ) (digits : Bool) (u : DurationUnit) (rest : List ℕ)
      → digits ≡ true
      → unit_map (symbol u) ≡ some (nanos_in u)
      → v * nanos_in u ≤ max_int64
      → with_unit scaled v 0 1 digits (symbol u) rest ≡ parsed (v * nanos_in u, rest)
  unfolding with_unit
  with_unit_whole v digits u rest h e l =
      rw (h, symbol-ne-nil u, e) (in_nanos_whole v (nanos_in u) rest (nanos_pos u) l)

  component_int :
      (s s1 : List ℕ) (v : ℕ)
      → leading_int 0 s ≡ some (v, s1)
      → component scaled s ≡ (
          let r = fraction s1 in
          let w = leading_unit r.2 in
          with_unit scaled v r.0 r.1 (not (length s == length s1) || r.3) w.0 w.1)
  unfolding component
  component_int s s1 v e = rw (component, e) refl

  component_whole :
      (s t : List ℕ) (v : ℕ) (u : DurationUnit)
      → leading_int 0 s ≡ some (v, symbol u ++ t)
      → (length s == length (symbol u ++ t)) ≡ false
      → Follows t
      → v * nanos_in u ≤ max_int64
      → component scaled s ≡ parsed (v * nanos_in u, t)
  component_whole s t v u e n f l =
      let (a, b, c, d) = symbol_lem u t f in
      rw (component_int s (symbol u ++ t) v e, b, c, n) (with_unit_whole v true u t refl d l)

  component-part :
      (p : Part) (s : List ℕ)
      → IsPart p
      → Follows s
      → nanos_of p ≤ max_int64
      → component scaled ((p.first ∷ p.others) ++ (symbol p.unit ++ s)) ≡ parsed (nanos_of p, s)
  component-part p s h f l =
      let (a, _, _, _) = symbol_lem p.unit s f in
      let digits = p.first ∷ p.others in
      let v = digits_value 0 digits in
      let behind = symbol p.unit ++ s in
      let n = le-mul_self v (nanos_in p.unit) (nanos_pos p.unit) in
      let t : leb v max_int64 ≡ true = ground (arith, n, l) in
      let i : leading_int 0 (digits ++ behind) ≡ some (v, behind) =
        rw (leading_int_lem 0 digits behind (omega arith) h a, t) refl in
      component_whole (digits ++ behind) s v p.unit i (ground (arith, length-append digits behind))
        f l

  parse_from-text_of :
      (fuel d : ℕ) (ps : List Part)
      → AreParts ps
      → length (text_of ps) ≤ fuel
      → d + total_of ps ≤ max_int64
      → parse_from scaled fuel d (text_of ps) ≡ parsed (d + total_of ps)
  unfolding parse_from text_of total_of
  parse_from-text_of fuel d [] h l m = ap parsed (omega arith)
  parse_from-text_of zero d (p ∷ ps) h l m = absurd (omega (arith, l))
  parse_from-text_of (suc fuel) d (p ∷ ps) h l m =
      let w : starts_number (text_of (p ∷ ps)) ≡ true = starts_number-text_of p ps h.0 in
      let c = component-part p (text_of ps) h.0 (text_of-Follows ps h.1) (omega (arith, m)) in
      let n = length-text_of p ps in
      let k =
        parse_from-text_of fuel (d + nanos_of p) ps h.1 (omega (arith, n, l)) (omega (arith, m)) in
      rw (w, c)
        (add_component-parsed (parse_from scaled fuel) d (nanos_of p) (text_of ps)
            (omega (arith, m))
          ∙ k
          ∙ ap parsed (omega arith))

  -- The text of one or more whole numbers in decimal digits, each with one of the units ns, us, ms,
  -- s, m, h, d and w, is read as the sum of what they come to, where that is an int64.
  pub parse_duration-text_of :
      (p : Part) (ps : List Part)
      → AreParts (p ∷ ps)
      → total_of (p ∷ ps) ≤ max_int64
      → parse_duration scaled (text_of (p ∷ ps)) ≡ parsed (pos (total_of (p ∷ ps)))
  unfolding parse_duration
  parse_duration-text_of p ps h l =
      let t = text_of (p ∷ ps) in
      let n = length-text_of p ps in
      let k = parse_from-text_of (length t) 0 (p ∷ ps) h (omega arith) (omega (arith, l)) in
      rw (sign-text_of p ps h.0, zero-text_of p ps, is_nil-text_of p ps, k)
        (with_sign-plus (total_of (p ∷ ps)))
