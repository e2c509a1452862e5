-- ===== src/Sql/Duration/Sums.antt =====
-- sql/duration.go: what a text of several numbers with units comes to.
use zenodb.Prelude.{
  ℕ, zero, suc, ◌+◌, ◌≤◌, ◌<◌, ◌≡◌, refl, Bool, true, false, not, ◌||◌, ◌==◌, List, [], ◌∷◌, arith,
  ltb, if◌then◌else◌, length, is_nil, list_eq, Bool-cases, Option-cases, inl, inr,
}
use zenodb.Prelude.Int.{ℤ, ◌-ℤ◌}
use zenodb.Encoding.Binary.{IsInt64}
use zenodb.Sql.Duration.{
  with_sign, max_int64, leading_int, leading_unit, unit_map, fraction, DurationError, add_component,
  Result, parsed, failed, out_of_fuel, invalid, in_nanos, with_unit, component, parse_from, sign,
  parse_duration,
}
use zenodb.Sql.Duration.Numbers.{leading_int_shorter, fraction_shorter, leading_unit_lem}

-- A component is a number of nanoseconds, and leaves less text; or it fails.
pub Consumes : List ℕ → Result (ℕ × List ℕ) → Type 0
Consumes s (parsed (v, r)) = (v ≤ max_int64) × (length r < length s)
Consumes s (failed e) = Unit {0}
Consumes s out_of_fuel = ⊥

-- A sum of nanoseconds is an int64; or the text is refused. It never stops for want of fuel.
pub Ends : Result ℕ → Type 0
Ends (parsed d) = d ≤ max_int64
Ends (failed e) = Unit {0}
Ends out_of_fuel = ⊥

abbrev pub EndsSigned : Result ℤ → Type 0
EndsSigned (parsed d) = IsInt64 d
EndsSigned (failed e) = Unit {0}
EndsSigned out_of_fuel = ⊥

Consumes-failed : (s : List ℕ) (e : DurationError) → Consumes s (failed e)
unfolding Consumes
Consumes-failed s e = tt

Ends-failed : (e : DurationError) → Ends (failed e)
unfolding Ends
Ends-failed e = tt

Consumes-parsed :
    (s : List ℕ) (v : ℕ) (r : List ℕ)
    → v ≤ max_int64
    → length r < length s
    → Consumes s (parsed (v, r))
unfolding Consumes
Consumes-parsed s v r h k = (h, k)

Consumes-if :
    (s : List ℕ) (b : Bool) (m n : Result (ℕ × List ℕ))
    → Consumes s m
    → (b ≡ false → Consumes s n)
    → Consumes s (if b then m else n)
Consumes-if s true m n h k = h
Consumes-if s false m n h k = k refl

Ends-if : (b : Bool) (m n : Result ℕ) → Ends m → (b ≡ false → Ends n) → Ends (if b then m else n)
Ends-if true m n h k = h
Ends-if false m n h k = k refl

le_of_ltb : (m n : ℕ) → ltb m n ≡ false → n ≤ m
le_of_ltb m n h = ground (arith, h)

length_pos : (u : List ℕ) → is_nil u ≡ false → 0 < length u
length_pos [] h = ground (arith, h)
length_pos (c ∷ u) h = omega arith

module _ (scaled : ℕ → ℕ → ℕ → ℕ) where
  in_nanos-Consumes :
      (s : List ℕ) (v f scale : ℕ) (rest : List ℕ) (nanos : ℕ)
      → length rest < length s
      → Consumes s (in_nanos scaled v f scale rest nanos)
  unfolding in_nanos Consumes
  in_nanos-Consumes s v f scale rest nanos h = ground arith

  with_unit-Consumes :
      (s : List ℕ) (v f scale : ℕ) (digits : Bool) (u rest : List ℕ)
      → length u + length rest ≤ length s
      → Consumes s (with_unit scaled v f scale digits u rest)
  unfolding with_unit Consumes
  with_unit-Consumes s v f scale digits u rest h = elim (Option-cases (unit_map u)) [
    | inl e ↦ rw e (ground (arith, length_pos u))
    | inr (nanos, e) ↦ rw e (ground (arith, length_pos u, in_nanos-Consumes s v f scale rest nanos))
  ]

  component-Consumes : (s : List ℕ) → Consumes s (component scaled s)
  unfolding component
  component-Consumes s = elim (Option-cases (leading_int 0 s)) [
    | inl e ↦ rw (component, e) (Consumes-failed s invalid)
    | inr ((v, s1), e) ↦
        rw (component, e)
          (with_unit-Consumes s v (fraction s1).0 (fraction s1).1
            (not (length s == length s1) || (fraction s1).3) (leading_unit (fraction s1).2).0
            (leading_unit (fraction s1).2).1
            (omega (
              arith,
              leading_int_shorter 0 s v s1 e,
              fraction_shorter s1,
              leading_unit_lem (fraction s1).2,
            )))
  ]

  add_component-Ends :
      (next : ℕ → List ℕ → Result ℕ) (d : ℕ) (s : List ℕ) (m : Result (ℕ × List ℕ))
      → ((d' : ℕ) (s' : List ℕ) → length s' < length s → d' ≤ max_int64 → Ends (next d' s'))
      → Consumes s m
      → Ends (add_component next d m)
  unfolding add_component Consumes
  add_component-Ends next d s (parsed (v, s')) h k =
      Ends-if _ _ _ (Ends-failed invalid) (λ a. h (d + v) s' k.1 (le_of_ltb max_int64 (d + v) a))
  add_component-Ends next d s (failed e) h k = Ends-failed e
  add_component-Ends next d s out_of_fuel h k = absurd k

  parse_from-Ends :
      (fuel d : ℕ) (s : List ℕ)
      → length s ≤ fuel
      → d ≤ max_int64
      → Ends (parse_from scaled fuel d s)
  unfolding parse_from
  parse_from-Ends fuel d [] h l = unfold Ends in l
  parse_from-Ends zero d (c ∷ s) h l = absurd (omega arith)
  parse_from-Ends (suc fuel) d (c ∷ s) h l = Ends-if _ _ _ (Ends-failed invalid) (λ a.
      add_component-Ends (parse_from scaled fuel) d (c ∷ s) (component scaled (c ∷ s))
        (λ d' s' i j. parse_from-Ends fuel d' s' (omega arith) j) (component-Consumes (c ∷ s)))

  with_sign-EndsSigned : (neg : Bool) (m : Result ℕ) → Ends m → EndsSigned (with_sign neg m)
  unfolding Ends with_sign ◌-ℤ◌
  with_sign-EndsSigned neg (parsed d) h = ground (arith, h)
  with_sign-EndsSigned neg (failed e) h = tt
  with_sign-EndsSigned neg out_of_fuel h = h

  -- `ParseDuration` ends on every text, with an error or a duration that is an int64.
  pub parse_duration-EndsSigned : (text : List ℕ) → EndsSigned (parse_duration scaled text)
  unfolding parse_duration
  parse_duration-EndsSigned text =
      let s = (sign text).1 in
      let k =
        with_sign-EndsSigned (sign text).0 (parse_from scaled (length s) 0 s)
          (parse_from-Ends (length s) 0 s (omega arith) (omega arith)) in
      elim (Bool-cases (list_eq s (b'0' ∷ []))) [
        | inl z ↦ rw z (omega arith)
        | inr z ↦ elim (Bool-cases (is_nil s)) [ inl n ↦ rw (z, n) tt | inr n ↦ rw (z, n) k ]
      ]
