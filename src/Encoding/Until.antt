-- ===== src/Encoding/Until.antt =====
-- encoding/time.go: rounding by whole resolutions from another instant.
use zenodb.Prelude.{
  ℕ, ◌+◌, ◌-◌, ◌*◌, ◌/◌, ◌^◌, ◌≤◌, ◌<◌, ◌≡◌, refl, false, Bool-cases, inl, inr, arith, ◌==◌, leb,
  leb→le, if◌then◌else◌,
}
use native.Mathlib.Nat.{div-mul-le_self, div-eq_of_lt}
use zenodb.Encoding.Duration.{
  since, ahead_of, add_ahead, add_back, since_lem, add_back_lem, add_ahead_lem,
}
use zenodb.Encoding.Time.{Time, round_time_up, round_time_down}

-- `math.Floor` and `math.Ceil` of the quotient of two non-negative durations as float64. The quotient
-- of a negative one is the opposite number, of which floor and ceiling change places. Below 2 ^ 53
-- durations are floats, and the quotient, rounded once, passes no integer.
pub record Quotients : Type 0 where
  pub floor : ℕ → ℕ → ℕ
  pub ceil : ℕ → ℕ → ℕ
  pub floor_exact : (a b : ℕ) → a < 2 ^ 53 → 0 < b → b < 2 ^ 53 → floor a b ≡ a / b
  pub ceil_exact : (a b : ℕ) → a < 2 ^ 53 → 0 < b → b < 2 ^ 53 → ceil a b ≡ (a + (b - 1)) / b

module _ (q : Quotients) where
  -- `RoundTimeUntilUp`.
  unfoldable pub round_time_until_up : Time → ℕ → Time → Time
  round_time_until_up ts resolution until =
      if ts == 0
      then ts
      else if until == 0
      then round_time_up ts resolution
      else if leb ts until
      then add_back until (q.floor (since until ts) resolution * resolution)
      else add_ahead until (q.ceil (ahead_of until ts) resolution * resolution)

  -- `RoundTimeUntilDown`.
  pub round_time_until_down : Time → ℕ → Time → Time
  round_time_until_down ts resolution until =
      if ts == 0
      then ts
      else if until == 0
      then round_time_down ts resolution
      else if leb ts until
      then add_back until (q.ceil (since until ts) resolution * resolution)
      else add_ahead until (q.floor (ahead_of until ts) resolution * resolution)

  -- The instants are less than 2 ^ 53 nanoseconds apart.
  abbrev pub AreNear : Time → Time → Type 0
  AreNear a b = (a < b + 2 ^ 53) × (b < a + 2 ^ 53)

  -- The periods between `until` and the instant that is rounded down, the one that it falls in included.
  abbrev pub periods_to : Time → ℕ → Time → ℕ
  periods_to ts resolution until = (until - ts + (resolution - 1)) / resolution

  -- Rounding down goes back from `until` by these periods, and does not come to the zero time.
  pub round_down_lem :
      (ts resolution until : ℕ)
      → 0 < resolution
      → resolution < 2 ^ 53
      → resolution ≤ ts
      → 0 < until
      → AreNear ts until
      → (until - round_time_until_down ts resolution until
          ≡ periods_to ts resolution until * resolution)
        × (0 < round_time_until_down ts resolution until)
        × (until - round_time_until_down ts resolution until < 2 ^ 63)
  unfolding round_time_until_down
  round_down_lem ts resolution until r s h u near = elim (Bool-cases (leb ts until)) [
    | inl e ↦
        let t = leb→le ts until e in
        let b = div-mul-le_self (until - ts + (resolution - 1)) resolution in
        let d = since_lem until ts (omega (arith, near.1)) in
        let c = q.ceil_exact (until - ts) resolution (omega (arith, near.1)) r s in
        let k = periods_to ts resolution until * resolution in
        let l : k < 2 ^ 63 = omega (arith, b, near.1, s) in
        let z : (ts == 0) ≡ false = ground (arith, h, r) in
        let z' : (until == 0) ≡ false = ground (arith, u) in
        rw (z, z', e, d, c, add_back_lem until k l)
          (omega (arith, b, t, h, r), omega (arith, b, t, h, r), omega (arith, b, t, h, r, l))
    | inr e ↦
        let z : (ts == 0) ≡ false = ground (arith, h, r) in
        let z' : (until == 0) ≡ false = ground (arith, u) in
        let b = div-mul-le_self (ts - until) resolution in
        let d : ahead_of until ts ≡ ts - until = unfold ahead_of in omega (arith, near.0) in
        let c = q.floor_exact (ts - until) resolution (omega (arith, near.0)) r s in
        let k = (ts - until) / resolution * resolution in
        let p : periods_to ts resolution until ≡ 0 = div-eq_of_lt (ground (arith, e)) in
        rw (z, z', e, d, c, add_ahead_lem until k (omega (arith, b, near.0)), p)
          (omega arith, omega (arith, u), omega arith)
  ]

  -- No bound stays none.
  pub round_zero : (resolution until : ℕ) → round_time_until_down 0 resolution until ≡ 0
  unfolding round_time_until_down
  round_zero resolution until = refl

  pub round_up_zero : (resolution until : ℕ) → round_time_until_up 0 resolution until ≡ 0
  unfolding round_time_until_up
  round_up_zero resolution until = refl
